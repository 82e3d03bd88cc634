-- ===== src/Observability.antt =====
-- observability.hpp and observability.cpp: the interface of a trace sink, which transports and
-- nodes call.
pub mod Metrics
pub mod Composite
pub mod Text
pub mod Commands
pub mod Export
pub mod Spans
use graphx_docker.Base.{ℕ, Bool, List, [], ◌∷◌, Bytes, codes, ℤ}
use graphx_docker.Envelope.{Envelope}

pub data ConnectionState : Type 0 where
  disconnected connecting listening connected closed error : ConnectionState

pub data UdpEvent : Type 0 where
  malformed truncated oversized socket_error sequence_gap duplicate out_of_order : UdpEvent

-- `to_string(ConnectionState)`
unfoldable pub connection_name : ConnectionState → Bytes
connection_name disconnected = codes "disconnected"
connection_name connecting = codes "connecting"
connection_name listening = codes "listening"
connection_name connected = codes "connected"
connection_name closed = codes "closed"
connection_name error = codes "error"

-- `to_string(UdpEvent)`
unfoldable pub event_name : UdpEvent → Bytes
event_name malformed = codes "malformed"
event_name truncated = codes "truncated"
event_name oversized = codes "oversized"
event_name socket_error = codes "socket_error"
event_name sequence_gap = codes "sequence_gap"
event_name duplicate = codes "duplicate"
event_name out_of_order = codes "out_of_order"

-- A sink whose calls change a state `S`. Durations are signed numbers of nanoseconds. The CPU load
-- of a heartbeat is a `double`, given by the text that a stream prints for it, and by nothing when
-- it is negative.
pub record TraceSink (S : Type 0) : Type 0 where
  pub on_send : Bytes → Envelope → ℕ → S → S
  pub on_receive : Bytes → Envelope → ℕ → ℤ → S → S
  pub on_error : Bytes → Bytes → S → S
  pub on_connection : Bytes → ConnectionState → S → S
  pub on_reconnect : Bytes → S → S
  pub on_backpressure : Bytes → ℤ → Bool → S → S
  pub on_processing : Bytes → Envelope → ℤ → Bool → S → S
  pub on_heartbeat : Bytes → Bytes → S → S
  pub on_udp_event : Bytes → UdpEvent → ℕ → S → S

-- A call of one of the methods, with its arguments.
pub data Call : Type 0 where
  send_call : Bytes → Envelope → ℕ → Call
  receive_call : Bytes → Envelope → ℕ → ℤ → Call
  error_call : Bytes → Bytes → Call
  connection_call : Bytes → ConnectionState → Call
  reconnect_call : Bytes → Call
  backpressure_call : Bytes → ℤ → Bool → Call
  processing_call : Bytes → Envelope → ℤ → Bool → Call
  heartbeat_call : Bytes → Bytes → Call
  udp_event_call : Bytes → UdpEvent → ℕ → Call

module _ {S : Type 0} (sink : TraceSink S) where
  -- The virtual call.
  unfoldable pub dispatch : Call → S → S
  dispatch (send_call edge_id envelope wire_bytes) s = sink.on_send edge_id envelope wire_bytes s
  dispatch (receive_call edge_id envelope wire_bytes latency) s =
      sink.on_receive edge_id envelope wire_bytes latency s
  dispatch (error_call edge_id message) s = sink.on_error edge_id message s
  dispatch (connection_call edge_id state) s = sink.on_connection edge_id state s
  dispatch (reconnect_call edge_id) s = sink.on_reconnect edge_id s
  dispatch (backpressure_call edge_id duration rejected) s =
      sink.on_backpressure edge_id duration rejected s
  dispatch (processing_call node_id envelope duration success) s =
      sink.on_processing node_id envelope duration success s
  dispatch (heartbeat_call node_id cpu_percent) s = sink.on_heartbeat node_id cpu_percent s
  dispatch (udp_event_call edge_id event count) s = sink.on_udp_event edge_id event count s

  -- Calls one after the other.
  unfoldable pub dispatch_all : List Call → S → S
  dispatch_all [] s = s
  dispatch_all (call ∷ calls) s = dispatch_all calls (dispatch call s)

-- `NullTraceSink`, and what a sink inherits from `TraceSink` where it does not override.
abbrev pub null_sink : {S : Type 0} → TraceSink S
null_sink = record {
  on_send = λ edge_id envelope wire_bytes s. s;
  on_receive = λ edge_id envelope wire_bytes latency s. s;
  on_error = λ edge_id message s. s;
  on_connection = λ edge_id state s. s;
  on_reconnect = λ edge_id s. s;
  on_backpressure = λ edge_id duration rejected s. s;
  on_processing = λ node_id envelope duration success s. s;
  on_heartbeat = λ node_id cpu_percent s. s;
  on_udp_event = λ edge_id event count s. s;
}
