-- ===== src/Observability/Metrics/Tallies.antt =====
-- What the counters of an edge say after any calls.
use graphx_docker.Base.{
  ℕ, zero, suc, ◌+◌, ◌%◌, ◌^◌, ◌<◌, ◌≡◌, refl, sym, ap, subst, ◌∙◌, List, [], ◌∷◌, Bytes,
  if◌then◌else◌, total, ℤ, pos, ◌+ℤ◌, int64, int64-add, signed64-pos, arith, Bool-cases, inl, inr,
  length, ◌==◌,
}
use graphx_docker.Attributes.{bytes_equal}
use graphx_docker.Attributes.Order.{bytes_equal→eq, bytes_equal_refl}
use graphx_docker.Observability.{
  UdpEvent, Call, send_call, receive_call, error_call, connection_call, reconnect_call,
  backpressure_call, processing_call, heartbeat_call, udp_event_call, dispatch, dispatch_all,
}
use graphx_docker.Observability.Metrics.{
  EdgeMetrics, new_metrics, Edges, latency_bounds, add_uint64, update, edge, bucket_of,
  increment_at, count_send, count_receive, count_error, set_connection, count_reconnect,
  count_backpressure, count_udp_event, metrics_sink,
}
use graphx_docker.Observability.Metrics.Weights.{
  Tallies, about, calls_about, one_sent, bytes_sent, one_received, bytes_received, one_error,
  one_reconnect, one_backpressure, one_rejected, events, in_bucket, one_in_bucket, last_state,
  event_counter, latencies, waits, at,
}

-- What the code does to an edge on a call about it.
abbrev apply : Call → EdgeMetrics → EdgeMetrics
apply (send_call _ _ n) = count_send n
apply (receive_call _ _ n latency) = count_receive n latency
apply (error_call _ _) = count_error
apply (connection_call _ state) = set_connection state
apply (reconnect_call _) = count_reconnect
apply (backpressure_call _ duration rejected) = count_backpressure duration rejected
apply (processing_call _ _ _ _) = λ m. m
apply (heartbeat_call _ _) = λ m. m
apply (udp_event_call _ event n) = count_udp_event event n

abbrev apply_all : List Call → EdgeMetrics → EdgeMetrics
apply_all [] m = m
apply_all (call ∷ calls) m = apply_all calls (apply call m)

edge-update :
    (key other : Bytes) (f : EdgeMetrics → EdgeMetrics) (m : Edges)
    → edge (update key f m) other
      ≡ (if bytes_equal key other then f (edge m other) else edge m other)
unfolding edge update
edge-update key other f [] = elim (Bool-cases (bytes_equal key other)) [
  | inl e ↦ rw e refl
  | inr e ↦ rw e refl
]
edge-update key other f ((k, v) ∷ m) = ground (
  arith,
  bytes_equal→eq k key,
  bytes_equal→eq k other,
  bytes_equal→eq key other,
  bytes_equal_refl k,
  bytes_equal_refl other,
  edge-update key other f m,
)

edge-dispatch :
    (edge_id : Bytes) (call : Call) (m : Edges)
    → edge (dispatch metrics_sink call m) edge_id
      ≡ (if about edge_id call then apply call (edge m edge_id) else edge m edge_id)
unfolding dispatch metrics_sink
edge-dispatch edge_id (send_call e _ n) m = edge-update e edge_id (count_send n) m
edge-dispatch edge_id (receive_call e _ n latency) m =
    edge-update e edge_id (count_receive n latency) m
edge-dispatch edge_id (error_call e _) m = edge-update e edge_id count_error m
edge-dispatch edge_id (connection_call e state) m = edge-update e edge_id (set_connection state) m
edge-dispatch edge_id (reconnect_call e) m = edge-update e edge_id count_reconnect m
edge-dispatch edge_id (backpressure_call e duration rejected) m =
    edge-update e edge_id (count_backpressure duration rejected) m
edge-dispatch edge_id (processing_call _ _ _ _) m = refl
edge-dispatch edge_id (heartbeat_call _ _) m = refl
edge-dispatch edge_id (udp_event_call e event n) m =
    edge-update e edge_id (count_udp_event event n) m

edge-dispatch_all :
    (edge_id : Bytes) (calls : List Call) (m : Edges)
    → edge (dispatch_all metrics_sink calls m) edge_id
      ≡ apply_all (calls_about edge_id calls) (edge m edge_id)
unfolding dispatch_all
edge-dispatch_all edge_id [] m = refl
edge-dispatch_all edge_id (call ∷ calls) m = elim (Bool-cases (about edge_id call)) [
  | inl e ↦ rw e (
      edge-dispatch_all edge_id calls (dispatch metrics_sink call m)
      ∙ ap (apply_all (calls_about edge_id calls)) (edge-dispatch edge_id call m ∙ rw e refl))
  | inr e ↦ rw e (
      edge-dispatch_all edge_id calls (dispatch metrics_sink call m)
      ∙ ap (apply_all (calls_about edge_id calls)) (edge-dispatch edge_id call m ∙ rw e refl))
]

-- The array keeps its size.
HasBuckets : EdgeMetrics → Type 0
HasBuckets m = length m.latency_buckets ≡ 8

length-increment_at : (n : ℕ) (xs : List ℕ) → length (increment_at n xs) ≡ length xs
unfolding increment_at
length-increment_at n [] = refl
length-increment_at zero (x ∷ xs) = refl
length-increment_at (suc n) (x ∷ xs) = ap suc (length-increment_at n xs)

apply-HasBuckets : (call : Call) (m : EdgeMetrics) → HasBuckets m → HasBuckets (apply call m)
unfolding HasBuckets count_send count_receive count_error set_connection count_reconnect
    count_backpressure count_udp_event
apply-HasBuckets (receive_call _ _ n latency) m h =
    length-increment_at (bucket_of latency_bounds latency) m.latency_buckets ∙ h
apply-HasBuckets call m h = grind arith

-- A counter that each call raises by a weight.
Raises : (EdgeMetrics → ℕ) → (Call → ℕ) → Type 0
Raises counter weight =
    (call : Call) (m : EdgeMetrics)
    → HasBuckets m
    → counter m < 2 ^ 64
    → counter (apply call m) ≡ (counter m + weight call) % 2 ^ 64

counter-apply_all :
    (counter : EdgeMetrics → ℕ) (weight : Call → ℕ)
    → Raises counter weight
    → (calls : List Call) (m : EdgeMetrics) → HasBuckets m
    → counter m < 2 ^ 64
    → counter (apply_all calls m) ≡ (counter m + total weight calls) % 2 ^ 64
unfolding Raises
counter-apply_all counter weight raises [] m b h = omega arith
counter-apply_all counter weight raises (call ∷ calls) m b h =
    let step = raises call m b h in
    let rest =
      counter-apply_all counter weight raises calls (apply call m) (apply-HasBuckets call m b)
        (omega (arith, step)) in
    omega (arith, step, rest)

-- Each call raises each counter by what it counts for.
sent-Raises : Raises (λ m. m.sent) one_sent
unfolding Raises count_send count_receive count_error set_connection count_reconnect
    count_backpressure count_udp_event
sent-Raises call m b h = grind arith

sent_wire_bytes-Raises : Raises (λ m. m.sent_wire_bytes) bytes_sent
unfolding Raises count_send count_receive count_error set_connection count_reconnect
    count_backpressure count_udp_event
sent_wire_bytes-Raises call m b h = grind arith

received-Raises : Raises (λ m. m.received) one_received
unfolding Raises count_send count_receive count_error set_connection count_reconnect
    count_backpressure count_udp_event
received-Raises call m b h = grind arith

received_wire_bytes-Raises : Raises (λ m. m.received_wire_bytes) bytes_received
unfolding Raises count_send count_receive count_error set_connection count_reconnect
    count_backpressure count_udp_event
received_wire_bytes-Raises call m b h = grind arith

errors-Raises : Raises (λ m. m.errors) one_error
unfolding Raises count_send count_receive count_error set_connection count_reconnect
    count_backpressure count_udp_event
errors-Raises call m b h = grind arith

reconnects-Raises : Raises (λ m. m.reconnects) one_reconnect
unfolding Raises count_send count_receive count_error set_connection count_reconnect
    count_backpressure count_udp_event
reconnects-Raises call m b h = grind arith

backpressure_events-Raises : Raises (λ m. m.backpressure_events) one_backpressure
unfolding Raises count_send count_receive count_error set_connection count_reconnect
    count_backpressure count_udp_event
backpressure_events-Raises call m b h = grind arith

rejected-Raises : Raises (λ m. m.rejected) one_rejected
unfolding Raises count_send count_receive count_error set_connection count_reconnect
    count_backpressure count_udp_event
rejected-Raises call m b h = grind arith

event-Raises : (e : UdpEvent) → Raises (event_counter e) (events e)
unfolding Raises count_send count_receive count_error set_connection count_reconnect
    count_backpressure count_udp_event
event-Raises e call m b h = grind arith

at-increment_at :
    (n k : ℕ) (xs : List ℕ)
    → n < length xs
    → at n (increment_at k xs) ≡ (if k == n then add_uint64 (at n xs) 1 else at n xs)
unfolding increment_at
at-increment_at n k [] h = omega arith
at-increment_at zero zero (x ∷ xs) h = refl
at-increment_at zero (suc k) (x ∷ xs) h = ground arith
at-increment_at (suc n) zero (x ∷ xs) h = ground arith
at-increment_at (suc n) (suc k) (x ∷ xs) h = ground (arith, at-increment_at n k xs (omega arith))

bucket_of_lem :
    (n : ℕ) (latency : ℤ) → n < 8 → (bucket_of latency_bounds latency == n) ≡ in_bucket n latency
unfolding bucket_of
bucket_of_lem zero latency h = grind arith
bucket_of_lem (suc zero) latency h = grind arith
bucket_of_lem (suc (suc zero)) latency h = grind arith
bucket_of_lem (suc (suc (suc zero))) latency h = grind arith
bucket_of_lem (suc (suc (suc (suc zero)))) latency h = grind arith
bucket_of_lem (suc (suc (suc (suc (suc zero))))) latency h = grind arith
bucket_of_lem (suc (suc (suc (suc (suc (suc zero)))))) latency h = grind arith
bucket_of_lem (suc (suc (suc (suc (suc (suc (suc n))))))) latency h = grind arith

bucket-Raises : (n : ℕ) → n < 8 → Raises (λ m. at n m.latency_buckets) (one_in_bucket n)
unfolding Raises HasBuckets count_send count_receive count_error set_connection count_reconnect
    count_backpressure count_udp_event
bucket-Raises n k (receive_call _ _ _ latency) m b h =
    let raised =
      at-increment_at n (bucket_of latency_bounds latency) m.latency_buckets (omega (arith, b)) in
    elim (Bool-cases (in_bucket n latency)) [
      | inl e ↦ rw e (raised ∙ rw (bucket_of_lem n latency k, e) refl)
      | inr e ↦ rw e (raised ∙ rw (bucket_of_lem n latency k, e) (omega arith))
    ]
bucket-Raises n k call m b h = grind arith

connection-apply_all :
    (calls : List Call) (m : EdgeMetrics)
    → (apply_all calls m).connection ≡ last_state m.connection calls
unfolding count_send count_receive count_error set_connection count_reconnect count_backpressure
    count_udp_event
connection-apply_all [] m = refl
connection-apply_all (call ∷ calls) m = grind (arith, connection-apply_all calls (apply call m))

+ℤ_assoc : (a b c : ℤ) → (a +ℤ b) +ℤ c ≡ a +ℤ (b +ℤ c)
+ℤ_assoc a b c = grind arith

+ℤ-zero : (a : ℤ) → a +ℤ pos 0 ≡ a
+ℤ-zero a = grind arith

total_latency-apply_all :
    (calls : List Call) (m : EdgeMetrics) (t : ℤ)
    → m.total_latency ≡ int64 t
    → (apply_all calls m).total_latency ≡ int64 (t +ℤ latencies calls)
unfolding count_send count_receive count_error set_connection count_reconnect count_backpressure
    count_udp_event
total_latency-apply_all [] m t h = h ∙ ap (λ a. int64 a) (sym (+ℤ-zero t))
total_latency-apply_all (receive_call _ _ n latency ∷ calls) m t h =
    total_latency-apply_all calls (count_receive n latency m) (t +ℤ latency)
      (ap (λ a. int64 (a +ℤ latency)) h ∙ int64-add t latency)
    ∙ ap (λ a. int64 a) (+ℤ_assoc t latency (latencies calls))
total_latency-apply_all (call ∷ calls) m t h =
    grind (arith, total_latency-apply_all calls (apply call m) t)

total_backpressure-apply_all :
    (calls : List Call) (m : EdgeMetrics) (t : ℤ)
    → m.total_backpressure ≡ int64 t
    → (apply_all calls m).total_backpressure ≡ int64 (t +ℤ waits calls)
unfolding count_send count_receive count_error set_connection count_reconnect count_backpressure
    count_udp_event
total_backpressure-apply_all [] m t h = h ∙ ap (λ a. int64 a) (sym (+ℤ-zero t))
total_backpressure-apply_all (backpressure_call _ duration rejected ∷ calls) m t h =
    total_backpressure-apply_all calls (count_backpressure duration rejected m) (t +ℤ duration)
      (ap (λ a. int64 (a +ℤ duration)) h ∙ int64-add t duration)
    ∙ ap (λ a. int64 a) (+ℤ_assoc t duration (waits calls))
total_backpressure-apply_all (call ∷ calls) m t h =
    grind (arith, total_backpressure-apply_all calls (apply call m) t)

int64-zero : int64 (pos 0) ≡ pos 0
int64-zero = signed64-pos 0 (omega arith)

zero-+ℤ : (a : ℤ) → pos 0 +ℤ a ≡ a
zero-+ℤ a = grind arith

fresh :
    (calls : List Call) (counter : EdgeMetrics → ℕ) (weight : Call → ℕ)
    → Raises counter weight
    → counter new_metrics ≡ 0
    → counter (apply_all calls new_metrics) ≡ total weight calls % 2 ^ 64
unfolding HasBuckets
fresh calls counter weight raises z =
    counter-apply_all counter weight raises calls new_metrics refl (omega (arith, z))
    ∙ ap (λ n. (n + total weight calls) % 2 ^ 64) z
    ∙ omega arith

apply_all-Tallies : (calls : List Call) → Tallies calls (apply_all calls new_metrics)
apply_all-Tallies calls = record {
  sent = fresh calls (λ m. m.sent) one_sent sent-Raises refl;
  sent_wire_bytes = fresh calls (λ m. m.sent_wire_bytes) bytes_sent sent_wire_bytes-Raises refl;
  received = fresh calls (λ m. m.received) one_received received-Raises refl;
  received_wire_bytes =
      fresh calls (λ m. m.received_wire_bytes) bytes_received received_wire_bytes-Raises refl;
  errors = fresh calls (λ m. m.errors) one_error errors-Raises refl;
  reconnects = fresh calls (λ m. m.reconnects) one_reconnect reconnects-Raises refl;
  backpressure_events =
      fresh calls (λ m. m.backpressure_events) one_backpressure backpressure_events-Raises refl;
  rejected = fresh calls (λ m. m.rejected) one_rejected rejected-Raises refl;
  udp_events =
      λ event. fresh calls (event_counter event) (events event) (event-Raises event) (grind arith);
  buckets = λ n h.
      fresh calls (λ m. at n m.latency_buckets) (one_in_bucket n) (bucket-Raises n h) (grind arith);
  total_latency =
      total_latency-apply_all calls new_metrics (pos 0) (sym int64-zero)
      ∙ ap (λ a. int64 a) (zero-+ℤ (latencies calls));
  total_backpressure =
      total_backpressure-apply_all calls new_metrics (pos 0) (sym int64-zero)
      ∙ ap (λ a. int64 a) (zero-+ℤ (waits calls));
  connection = connection-apply_all calls new_metrics;
}

-- Whatever calls a metrics sink has received since its construction: the counters that `edge`
-- gives for an edge are, modulo 2^64, the numbers of the calls about this edge and the sums of
-- their byte and event counts; each latency is counted in the one bucket whose bounds enclose it;
-- the durations add up on 64 bits in two's complement, where an overflow of the signed sum is read
-- as wrap-around; and the state is that of the last connection change or error.
pub dispatch_all-Tallies :
    (calls : List Call) (edge_id : Bytes)
    → Tallies (calls_about edge_id calls) (edge (dispatch_all metrics_sink calls []) edge_id)
unfolding edge
dispatch_all-Tallies calls edge_id =
    subst (Tallies (calls_about edge_id calls)) (sym (edge-dispatch_all edge_id calls []))
      (apply_all-Tallies (calls_about edge_id calls))
