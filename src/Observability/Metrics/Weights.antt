-- ===== src/Observability/Metrics/Weights.antt =====
-- What the calls about an edge count for: each counter described on its own.
use graphx_docker.Base.{
  ℕ, zero, suc, ◌%◌, ◌^◌, ◌<◌, ◌≡◌, Bool, true, false, not, ◌&&◌, List, [], ◌∷◌, Bytes,
  if◌then◌else◌, total, get_elem?, none, some, ℤ, pos, ◌+ℤ◌, int64, exceeds,
}
use graphx_docker.Attributes.{bytes_equal}
use graphx_docker.Observability.{
  ConnectionState, disconnected, UdpEvent, malformed, truncated, oversized, socket_error,
  sequence_gap, duplicate, out_of_order, error, Call, send_call, receive_call, error_call,
  connection_call, reconnect_call, backpressure_call, processing_call, heartbeat_call,
  udp_event_call,
}
use graphx_docker.Observability.Metrics.{EdgeMetrics, latency_bounds}

-- The edge that a call is about: the calls about nodes are none of the sink's.
abbrev pub about : Bytes → Call → Bool
about edge_id (send_call e _ _) = bytes_equal e edge_id
about edge_id (receive_call e _ _ _) = bytes_equal e edge_id
about edge_id (error_call e _) = bytes_equal e edge_id
about edge_id (connection_call e _) = bytes_equal e edge_id
about edge_id (reconnect_call e) = bytes_equal e edge_id
about edge_id (backpressure_call e _ _) = bytes_equal e edge_id
about edge_id (processing_call _ _ _ _) = false
about edge_id (heartbeat_call _ _) = false
about edge_id (udp_event_call e _ _) = bytes_equal e edge_id

-- The calls about one edge.
abbrev pub calls_about : Bytes → List Call → List Call
calls_about edge_id [] = []
calls_about edge_id (call ∷ calls) =
    let rest = calls_about edge_id calls in if about edge_id call then call ∷ rest else rest

-- What one call counts for, each counter on its own.
abbrev pub one_sent : Call → ℕ
one_sent (send_call _ _ _) = 1
one_sent _ = 0

abbrev pub bytes_sent : Call → ℕ
bytes_sent (send_call _ _ n) = n
bytes_sent _ = 0

abbrev pub one_received : Call → ℕ
one_received (receive_call _ _ _ _) = 1
one_received _ = 0

abbrev pub bytes_received : Call → ℕ
bytes_received (receive_call _ _ n _) = n
bytes_received _ = 0

abbrev pub one_error : Call → ℕ
one_error (error_call _ _) = 1
one_error _ = 0

abbrev pub one_reconnect : Call → ℕ
one_reconnect (reconnect_call _) = 1
one_reconnect _ = 0

abbrev pub one_backpressure : Call → ℕ
one_backpressure (backpressure_call _ _ _) = 1
one_backpressure _ = 0

abbrev pub one_rejected : Call → ℕ
one_rejected (backpressure_call _ _ true) = 1
one_rejected _ = 0

abbrev same_event : UdpEvent → UdpEvent → Bool
same_event malformed malformed = true
same_event truncated truncated = true
same_event oversized oversized = true
same_event socket_error socket_error = true
same_event sequence_gap sequence_gap = true
same_event duplicate duplicate = true
same_event out_of_order out_of_order = true
same_event _ _ = false

abbrev pub events : UdpEvent → Call → ℕ
events event (udp_event_call _ seen n) = if same_event event seen then n else 0
events event _ = 0

-- Whether a latency exceeds the bound with this number: none exceeds the missing last one.
abbrev pub over : ℕ → ℤ → Bool
over n latency = elim (get_elem? latency_bounds n) [
  | none ↦ false
  | some bound ↦ exceeds latency bound
]

-- Bucket n is for the latencies over bound n - 1 and not over bound n.
abbrev pub in_bucket : ℕ → ℤ → Bool
in_bucket zero latency = not (over 0 latency)
in_bucket (suc n) latency = over n latency && not (over (suc n) latency)

abbrev pub one_in_bucket : ℕ → Call → ℕ
one_in_bucket n (receive_call _ _ _ latency) = if in_bucket n latency then 1 else 0
one_in_bucket n _ = 0

-- The state that the last of the calls leaves an edge in.
abbrev pub last_state : ConnectionState → List Call → ConnectionState
last_state state [] = state
last_state state (connection_call _ next ∷ calls) = last_state next calls
last_state state (error_call _ _ ∷ calls) = last_state error calls
last_state state (_ ∷ calls) = last_state state calls

-- The counter of one of the datagram events.
abbrev pub event_counter : UdpEvent → EdgeMetrics → ℕ
event_counter malformed m = m.udp_malformed
event_counter truncated m = m.udp_truncated
event_counter oversized m = m.udp_oversized
event_counter socket_error m = m.udp_socket_errors
event_counter sequence_gap m = m.udp_sequence_gaps
event_counter duplicate m = m.udp_duplicates
event_counter out_of_order m = m.udp_out_of_order

-- The sums of the latencies and of the waits.
abbrev pub latencies : List Call → ℤ
latencies [] = pos 0
latencies (receive_call _ _ _ latency ∷ calls) = latency +ℤ latencies calls
latencies (_ ∷ calls) = latencies calls

abbrev pub waits : List Call → ℤ
waits [] = pos 0
waits (backpressure_call _ duration _ ∷ calls) = duration +ℤ waits calls
waits (_ ∷ calls) = waits calls

-- A number of the type `std::uint64_t`.
abbrev pub uint64 : ℕ → ℕ
uint64 n = n % 2 ^ 64

-- The element of a list with a number.
abbrev pub at : ℕ → List ℕ → ℕ
at n [] = 0
at zero (x ∷ xs) = x
at (suc n) (x ∷ xs) = at n xs

-- The counters of an edge that has seen these calls.
pub record Tallies (calls : List Call) (m : EdgeMetrics) : Type 0 where
  pub sent : m.sent ≡ uint64 (total one_sent calls)
  pub sent_wire_bytes : m.sent_wire_bytes ≡ uint64 (total bytes_sent calls)
  pub received : m.received ≡ uint64 (total one_received calls)
  pub received_wire_bytes : m.received_wire_bytes ≡ uint64 (total bytes_received calls)
  pub errors : m.errors ≡ uint64 (total one_error calls)
  pub reconnects : m.reconnects ≡ uint64 (total one_reconnect calls)
  pub backpressure_events : m.backpressure_events ≡ uint64 (total one_backpressure calls)
  pub rejected : m.rejected ≡ uint64 (total one_rejected calls)
  pub udp_events : (event : UdpEvent) → event_counter event m ≡ uint64 (total (events event) calls)
  pub buckets : (n : ℕ) → n < 8 → at n m.latency_buckets ≡ uint64 (total (one_in_bucket n) calls)
  pub total_latency : m.total_latency ≡ int64 (latencies calls)
  pub total_backpressure : m.total_backpressure ≡ int64 (waits calls)
  pub connection : m.connection ≡ last_state disconnected calls
