-- ===== src/Observability/Spans.antt =====
-- `OtlpHttpTraceSink` of observability.cpp: spans as JSON texts, in a bounded queue that a worker
-- posts one by one.
pub mod Post
pub mod Delivery
use graphx_docker.Base.{
  ℕ, zero, suc, ◌+◌, ◌-◌, ◌*◌, ◌/◌, ◌%◌, ◌^◌, Bool, true, false, not, ◌||◌, Option, none, some,
  List, [], ◌∷◌, ◌++◌, Bytes, codes, leb, ltb, ◌==◌, if◌then◌else◌, length, take, ℤ, pos, negsuc,
  difference,
}
use Prim.Native.Nat.{bit_xor}
use graphx_docker.Identity.{hex_digit, is_canonical_identity}
use graphx_docker.Envelope.{Envelope}
use graphx_docker.Observability.{TraceSink, null_sink}
use graphx_docker.Observability.Text.{is_empty, concat, to_string, signed_to_string}
use graphx_docker.Observability.Export.{escape_json}

-- `std::hex` with `setw` and `setfill('0')`: this many digits.
unfoldable pub hex_digits : ℕ → ℕ → Bytes
unfolding hex_digit
hex_digits zero n = []
hex_digits (suc k) n = hex_digits k (n / 16) ++ hex_digit (n % 16) ∷ []

-- The lambda `hash` of `hex_id`.
unfoldable pub hash : Bytes → ℕ → ℕ
hash [] result = result
hash (byte ∷ text) result = hash text (bit_xor result byte * 1099511628211 % 2 ^ 64)

-- `hex_id`
unfoldable pub hex_id : Bytes → ℕ → ℕ → Bytes
unfolding hash hex_digits
hex_id value digits salt =
    let first = bit_xor (hash value 14695981039346656037) salt in
    let second = hash value (bit_xor 1099511628211 salt) in
    take digits (hex_digits 16 first ++ (if ltb 16 digits then hex_digits 16 second else []))

-- The random bits of one round of `generate_span_id`: those of `getentropy`, or, when that fails,
-- four of a `random_device`.
pub data Draw : Type 0 where
  entropy : ℕ → Draw
  fallback : ℕ → ℕ → ℕ → ℕ → Draw

abbrev pub drawn : Draw → ℕ
drawn (entropy value) = value
drawn (fallback a b c d) = ((a % 65536 * 65536 + b % 65536) * 65536 + c % 65536) * 65536 + d % 65536

-- `generate_span_id`, which draws until the value is not 0: nothing, if it still draws.
unfoldable pub generate_span_id : List Draw → Option Bytes
unfolding hex_digits
generate_span_id [] = none
generate_span_id (draw ∷ draws) =
    let later = generate_span_id draws in
    if drawn draw == 0 then later else some (hex_digits 16 (drawn draw))

-- `Impl`, without the threads: `in_flight` is the payload that the worker posts while `active` is
-- set, and `posted` holds those it has posted.
pub record SpanQueue : Type 0 where
  pub node_id : Bytes
  pub capacity : ℕ
  pub queue : List Bytes
  pub stopping : Bool
  pub in_flight : Option Bytes
  pub posted : List Bytes

-- The constructor: a queue has room for one span at least.
unfoldable pub new_queue : Bytes → ℕ → SpanQueue
new_queue node_id queue_capacity = record {
  node_id = node_id;
  capacity = if ltb queue_capacity 1 then 1 else queue_capacity;
  queue = [];
  stopping = false;
  in_flight = none;
  posted = [];
}

-- The lock at the end of `enqueue_span`: a span is dropped when there is no room for it.
unfoldable pub push_span : Bytes → SpanQueue → SpanQueue
push_span payload s =
    if s.stopping || leb s.capacity (length s.queue)
    then s
    else record s { queue = s.queue ++ payload ∷ [] }

abbrev pub next_span : List Bytes → SpanQueue → SpanQueue
next_span [] s = s
next_span (payload ∷ queue) s = record s { queue = queue; in_flight = some payload }

-- The first lock of `run`: with an empty queue the worker waits, or ends.
unfoldable pub take_span : SpanQueue → SpanQueue
take_span s = next_span s.queue s

abbrev pub landed : Option Bytes → SpanQueue → SpanQueue
landed none s = s
landed (some payload) s = record s { in_flight = none; posted = s.posted ++ payload ∷ [] }

-- The second lock of `run`, behind `post_json`.
unfoldable pub finish_span : SpanQueue → SpanQueue
finish_span s = landed s.in_flight s

-- The lock of the destructor, when its wait has ended, in time or not.
unfoldable pub shut_down : SpanQueue → SpanQueue
shut_down s = record s { stopping = true; queue = [] }

-- The members about an envelope.
abbrev envelope_attributes : Option Envelope → Bytes
envelope_attributes none = []
envelope_attributes (some envelope) = concat (
    codes ",{\"key\":\"graphx.sequence\",\"value\":{\"intValue\":\""
    ∷ to_string envelope.sequence
    ∷ codes "\"}},{\"key\":\"graphx.message_id\",\"value\":{\"stringValue\":\""
    ∷ escape_json envelope.message_id
    ∷ codes "\"}},{\"key\":\"graphx.parent_message_id\",\"value\":{\"stringValue\":\""
    ∷ escape_json envelope.parent_message_id
    ∷ codes "\"}}"
    ∷ [])

-- `end - max(0, duration)`
abbrev start_time : ℕ → ℤ → ℤ
start_time end_time (pos n) = difference end_time n
start_time end_time (negsuc n) = pos end_time

abbrev trace_source : Option Envelope → Bytes → Bytes
trace_source none subject = subject
trace_source (some envelope) subject = envelope.trace_id

-- The trace that a span belongs to: the envelope's, or one that is made from the subject.
unfoldable pub span_trace_id : Option Envelope → Bytes → Bytes
unfolding hex_id is_canonical_identity
span_trace_id envelope subject =
    let source = trace_source envelope subject in
    if is_canonical_identity source then source else hex_id source 32 0

-- The JSON text of `enqueue_span`.
unfoldable pub span_text :
    Bytes → ℕ → Bytes → Bytes → Bytes → Option Envelope → ℤ → Bytes → ℕ → Bytes
unfolding escape_json to_string signed_to_string span_trace_id
span_text node_id end_time span_id name subject envelope duration status wire_bytes = concat (
    codes "{\"resourceSpans\":[{\"resource\":{\"attributes\":[{\"key\":\"service.name\","
    ∷ codes "\"value\":{\"stringValue\":\"graphx-"
    ∷ escape_json node_id
    ∷ codes "\"}}]},\"scopeSpans\":[{\"scope\":{\"name\":\"graphx.runtime\"},\"spans\":[{"
    ∷ codes "\"traceId\":\""
    ∷ span_trace_id envelope subject
    ∷ codes "\",\"spanId\":\""
    ∷ span_id
    ∷ codes "\",\"name\":\""
    ∷ name
    ∷ codes " "
    ∷ escape_json subject
    ∷ codes "\",\"startTimeUnixNano\":\""
    ∷ signed_to_string (start_time end_time duration)
    ∷ codes "\",\"endTimeUnixNano\":\""
    ∷ to_string end_time
    ∷ codes "\",\"attributes\":[{\"key\":\"graphx.subject\",\"value\":{\"stringValue\":\""
    ∷ escape_json subject
    ∷ codes "\"}},{\"key\":\"graphx.status\",\"value\":{\"stringValue\":\""
    ∷ escape_json status
    ∷ codes "\"}},{\"key\":\"graphx.wire_bytes\",\"value\":{\"intValue\":\""
    ∷ to_string wire_bytes
    ∷ codes "\"}}"
    ∷ envelope_attributes envelope
    ∷ codes "]}]}]}]}"
    ∷ [])

-- `enqueue_span`, at a time in nanoseconds. While no span id has been drawn, the queue is as it was.
unfoldable pub enqueue_span :
    ℕ → List Draw → Bytes → Bytes → Option Envelope → ℤ → Bytes → ℕ → SpanQueue → SpanQueue
unfolding generate_span_id span_text push_span
enqueue_span end_time draws name subject envelope duration status wire_bytes s =
    elim (generate_span_id draws) [
      | none ↦ s
      | some span_id ↦
          push_span
            (span_text s.node_id end_time span_id name subject envelope duration status wire_bytes)
            s
    ]

-- The virtual table of the class, for calls at one time: four methods are overridden.
unfoldable pub span_sink : ℕ → List Draw → TraceSink SpanQueue
unfolding enqueue_span
span_sink now draws = record null_sink {
  on_send = λ edge_id envelope wire_bytes.
      enqueue_span now draws (codes "graphx.send") edge_id (some envelope) (pos 0) (codes "ok")
        wire_bytes;
  on_receive = λ edge_id envelope wire_bytes latency.
      enqueue_span now draws (codes "graphx.receive") edge_id (some envelope) latency (codes "ok")
        wire_bytes;
  on_error = λ edge_id message.
      enqueue_span now draws (codes "graphx.error") edge_id none (pos 0) message 0;
  on_processing = λ node_id envelope duration success.
      enqueue_span now draws (codes "graphx.process") node_id (some envelope) duration
        (if success then codes "ok" else codes "error") 0;
}
