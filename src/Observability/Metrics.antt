-- ===== src/Observability/Metrics.antt =====
-- `MetricsTraceSink`: counters for each edge, in a map from edge ids. The sums of durations are
-- signed 64-bit integers; their overflow, undefined in C++, is read as wrap-around.
pub mod Weights
pub mod Tallies
use graphx_docker.Base.{
  ℕ, zero, suc, ◌+◌, ◌%◌, ◌^◌, Bool, List, [], ◌∷◌, Bytes, if◌then◌else◌, replicate, ℤ, pos, ◌+ℤ◌,
  int64, exceeds,
}
use graphx_docker.Envelope.{Envelope}
use graphx_docker.Attributes.{bytes_equal}
use graphx_docker.Observability.{
  ConnectionState, disconnected, error, UdpEvent, malformed, truncated, oversized, socket_error,
  sequence_gap, duplicate, out_of_order, TraceSink, null_sink,
}

pub record EdgeMetrics : Type 0 where
  pub sent : ℕ
  pub received : ℕ
  pub sent_wire_bytes : ℕ
  pub received_wire_bytes : ℕ
  pub errors : ℕ
  pub reconnects : ℕ
  pub backpressure_events : ℕ
  pub rejected : ℕ
  pub udp_malformed : ℕ
  pub udp_truncated : ℕ
  pub udp_oversized : ℕ
  pub udp_socket_errors : ℕ
  pub udp_sequence_gaps : ℕ
  pub udp_duplicates : ℕ
  pub udp_out_of_order : ℕ
  pub total_backpressure : ℤ
  pub total_latency : ℤ
  pub latency_buckets : List ℕ
  pub connection : ConnectionState

-- The default member initializers.
abbrev pub new_metrics : EdgeMetrics
new_metrics = record {
  sent = 0;
  received = 0;
  sent_wire_bytes = 0;
  received_wire_bytes = 0;
  errors = 0;
  reconnects = 0;
  backpressure_events = 0;
  rejected = 0;
  udp_malformed = 0;
  udp_truncated = 0;
  udp_oversized = 0;
  udp_socket_errors = 0;
  udp_sequence_gaps = 0;
  udp_duplicates = 0;
  udp_out_of_order = 0;
  total_backpressure = pos 0;
  total_latency = pos 0;
  latency_buckets = replicate 8 0;
  connection = disconnected;
}

abbrev pub Edges : Type 0
Edges = List (Bytes × EdgeMetrics)

-- kLatencyBounds, in nanoseconds
abbrev pub latency_bounds : List ℕ
latency_bounds = 10000 ∷ 50000 ∷ 100000 ∷ 500000 ∷ 1000000 ∷ 5000000 ∷ 10000000 ∷ []

-- `+=` and `++` on `std::uint64_t`
abbrev pub add_uint64 : ℕ → ℕ → ℕ
add_uint64 a b = (a + b) % 2 ^ 64

-- `edges_[key]`, which is made if it is not there, and what is done to it.
unfoldable pub update : Bytes → (EdgeMetrics → EdgeMetrics) → Edges → Edges
update key f [] = (key, f new_metrics) ∷ []
update key f ((k, value) ∷ edges) =
    if bytes_equal k key then (k, f value) ∷ edges else (k, value) ∷ update key f edges

-- `edge`
unfoldable pub edge : Edges → Bytes → EdgeMetrics
edge [] edge_id = new_metrics
edge ((k, value) ∷ edges) edge_id = if bytes_equal k edge_id then value else edge edges edge_id

-- The loop of `on_receive`: the first bound that the latency does not exceed.
unfoldable pub bucket_of : List ℕ → ℤ → ℕ
bucket_of [] latency = 0
bucket_of (bound ∷ bounds) latency =
    if exceeds latency bound then suc (bucket_of bounds latency) else 0

unfoldable pub increment_at : ℕ → List ℕ → List ℕ
increment_at n [] = []
increment_at zero (x ∷ xs) = add_uint64 x 1 ∷ xs
increment_at (suc n) (x ∷ xs) = x ∷ increment_at n xs

-- What each method does to the counters of its edge.
unfoldable pub count_send : ℕ → EdgeMetrics → EdgeMetrics
count_send wire_bytes value = record value {
  sent = add_uint64 value.sent 1;
  sent_wire_bytes = add_uint64 value.sent_wire_bytes wire_bytes;
}

unfoldable pub count_receive : ℕ → ℤ → EdgeMetrics → EdgeMetrics
unfolding bucket_of increment_at
count_receive wire_bytes latency value = record value {
  received = add_uint64 value.received 1;
  received_wire_bytes = add_uint64 value.received_wire_bytes wire_bytes;
  total_latency = int64 (value.total_latency +ℤ latency);
  latency_buckets = increment_at (bucket_of latency_bounds latency) value.latency_buckets;
}

unfoldable pub count_error : EdgeMetrics → EdgeMetrics
count_error value = record value { errors = add_uint64 value.errors 1; connection = error }

unfoldable pub set_connection : ConnectionState → EdgeMetrics → EdgeMetrics
set_connection state value = record value { connection = state }

unfoldable pub count_reconnect : EdgeMetrics → EdgeMetrics
count_reconnect value = record value { reconnects = add_uint64 value.reconnects 1 }

unfoldable pub count_backpressure : ℤ → Bool → EdgeMetrics → EdgeMetrics
count_backpressure duration rejected value = record value {
  backpressure_events = add_uint64 value.backpressure_events 1;
  total_backpressure = int64 (value.total_backpressure +ℤ duration);
  rejected = if rejected then add_uint64 value.rejected 1 else value.rejected;
}

unfoldable pub count_udp_event : UdpEvent → ℕ → EdgeMetrics → EdgeMetrics
count_udp_event malformed count value = record value {
  udp_malformed = add_uint64 value.udp_malformed count;
}
count_udp_event truncated count value = record value {
  udp_truncated = add_uint64 value.udp_truncated count;
}
count_udp_event oversized count value = record value {
  udp_oversized = add_uint64 value.udp_oversized count;
}
count_udp_event socket_error count value = record value {
  udp_socket_errors = add_uint64 value.udp_socket_errors count;
}
count_udp_event sequence_gap count value = record value {
  udp_sequence_gaps = add_uint64 value.udp_sequence_gaps count;
}
count_udp_event duplicate count value = record value {
  udp_duplicates = add_uint64 value.udp_duplicates count;
}
count_udp_event out_of_order count value = record value {
  udp_out_of_order = add_uint64 value.udp_out_of_order count;
}

-- The virtual table of the class: what it does not override does nothing.
unfoldable pub metrics_sink : TraceSink Edges
unfolding update count_send count_receive count_error set_connection count_reconnect
    count_backpressure count_udp_event
metrics_sink = record null_sink {
  on_send = λ edge_id envelope wire_bytes. update edge_id (count_send wire_bytes);
  on_receive =
      λ edge_id envelope wire_bytes latency. update edge_id (count_receive wire_bytes latency);
  on_error = λ edge_id message. update edge_id count_error;
  on_connection = λ edge_id state. update edge_id (set_connection state);
  on_reconnect = λ edge_id. update edge_id count_reconnect;
  on_backpressure =
      λ edge_id duration rejected. update edge_id (count_backpressure duration rejected);
  on_udp_event = λ edge_id event count. update edge_id (count_udp_event event count);
}
