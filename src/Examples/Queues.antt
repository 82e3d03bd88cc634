-- ===== src/Examples/Queues.antt =====
-- The channel and the ring at concrete inputs.
use mathlib.Core.List.{Perm, reverse}
use graphx_docker.Base.{
  ℕ, ◌+◌, ◌-◌, ◌≤◌, ◌<◌, ◌≡◌, ◌↔◌, ◌⊎◌, refl, Bool, true, false, List, [], ◌∷◌, ◌++◌, Bytes, Result,
  ok, err, arith, length, take, drop, replicate, map,
}
use graphx_docker.Base.Sort.{insert, sort}
use graphx_docker.Attributes.{sort_attributes, attribute_less, bytes_less, put_attributes}
use graphx_docker.Wire.{put, put_string}
use graphx_docker.Wire.Framing.{frame}
use graphx_docker.Identity.{
  hex_value, is_lower_hex, canonical_loop, is_canonical_identity, pack_hex, put_identity,
}
use graphx_docker.Envelope.{
  Envelope, checked_add, checked_string_size, attributes_size, encoded_size, validate_serializable,
  serialized_size, serialize,
}
use graphx_docker.Channel.{
  Options, Channel, block, new_channel, Progress, done, blocked, push_enter, push_wake, Timeout,
  forever, finite, pop, drained, close,
}
use graphx_docker.Channel
use graphx_docker.Channel.System.{Event, pushes, wakes, pops, closes, System, run, step, start}
use graphx_docker.Channel.Fifo.{everything, offered_all, run_history}
use graphx_docker.Channel.Close.{
  closes_taken, pops-take, pop_drained_iff, wake_each, closes_releases,
}
use graphx_docker.Channel.Transport.{
  Endpoint, SendError, ReceiveResult, received, on_send, on_receive, on_backpressure, send_wake,
  receive_wake,
}
use graphx_docker.Channel.Transport
use graphx_docker.Channel.Transport.Readable.{Serializes, send_publishes}
use graphx_docker.Channel.Transport.Readable
use graphx_docker.Channel.Transport.Reach.{Reaches, receive_never_throws}
use graphx_docker.Channel.Transport.Reach
use graphx_docker.Wire.{Error}
use graphx_docker.SharedMemory.{
  Ring, locked, new_ring, publish, prepare, send, send_locked, send_loop, receive, message,
}
use graphx_docker.SharedMemory.Layout.{
  normalize_name, normalize_name_idem, mapping_size, slot_offset, mapping_size-slots,
  maximum_mapping_bytes, slot_stride, has_slash,
}
use graphx_docker.SharedMemory.Invariant.{taken}
use graphx_docker.SharedMemory.History.{Run, created, sends, arrived}
use graphx_docker.SharedMemory.Received.{received_in_order, receive_gives_next}
use graphx_docker.Examples.{sample, sample_bytes}
use graphx_docker.Examples.Codec.{sample_written, sample-IsTyped}

abbrev options : Options
options = record { capacity = 1; backpressure = block; send_timeout = 5000 }

abbrev channel_of : List Envelope → Bool → Channel
channel_of queue closed = record { options = options; queue = queue; closed = closed }

options_valid : new_channel options ≡ ok (channel_of [] false)
unfolding new_channel
options_valid = refl

-- A second push waits for the pop.
abbrev events : List Event
events = pushes sample ∷ pushes sample ∷ pops forever false ∷ wakes 0 false 3 ∷ closes ∷ []

run_history_example :
    ((run (start (channel_of [] false)) events).taken
      ≡ (run (start (channel_of [] false)) events).given
        ++ (run (start (channel_of [] false)) events).channel.queue)
    × (length (run (start (channel_of [] false)) events).channel.queue ≤ 1)
    × Perm (everything (run (start (channel_of [] false)) events)) (offered_all events)
run_history_example = run_history options (channel_of [] false) events options_valid

abbrev holding : System
holding = record {
  channel = channel_of (sample ∷ []) false;
  waiting = sample ∷ [];
  taken = sample ∷ [];
  given = [];
  refused = [];
}

closes_taken_example :
    ((run (step holding closes) (wakes 0 false 3 ∷ pushes sample ∷ [])).taken ≡ sample ∷ [])
    × ((run (step holding closes) (wakes 0 false 3 ∷ pushes sample ∷ [])).channel.closed ≡ true)
closes_taken_example = closes_taken holding (wakes 0 false 3 ∷ pushes sample ∷ [])

pops-take_example :
    ((run holding (replicate 1 (pops finite true))).given ≡ [] ++ take 1 holding.channel.queue)
    × ((run holding (replicate 1 (pops finite true))).channel.queue ≡ drop 1 holding.channel.queue)
pops-take_example = pops-take 1 holding finite true (omega arith)

pop_drained_iff_example :
    (pop (channel_of [] true) forever false ≡ done (drained, channel_of [] true))
    ↔ ((true ≡ true) × (◌≡◌ {A = List Envelope} [] []))
pop_drained_iff_example = pop_drained_iff (channel_of [] true) forever false

closes_releases_example :
    ((run (step holding closes) (wake_each ((true, 9) ∷ []))).waiting ≡ [])
    × ((run (step holding closes) (wake_each ((true, 9) ∷ []))).refused
        ≡ reverse (sample ∷ []) ++ [])
    × ((run (step holding closes) (wake_each ((true, 9) ∷ []))).taken ≡ sample ∷ [])
    × ((run (step holding closes) (wake_each ((true, 9) ∷ []))).channel.queue ≡ sample ∷ [])
closes_releases_example = closes_releases holding ((true, 9) ∷ []) refl

-- A transport before and after a send.
abbrev idle : Endpoint
idle = record { channel = channel_of [] false; closed = false; trace = [] }

abbrev sent : Endpoint
sent = record {
  channel = channel_of (sample ∷ []) false;
  closed = false;
  trace = on_send sample 103 ∷ [];
}

idle_sends : Channel.Transport.send idle sample ≡ done (ok tt, sent)
unfolding Channel.Transport.send push_enter serialize serialized_size validate_serializable
    encoded_size attributes_size checked_string_size checked_add put_identity is_canonical_identity
    canonical_loop is_lower_hex pack_hex hex_value put_string put put_attributes sort_attributes
    attribute_less bytes_less sort insert
idle_sends = refl

abbrev emptied : Endpoint
emptied = record {
  channel = channel_of [] false;
  closed = false;
  trace = on_send sample 103 ∷ on_receive sample 103 1 ∷ [];
}

-- A second send waits for the receiver.
sent_waits : Channel.Transport.send sent sample ≡ blocked
unfolding Channel.Transport.send push_enter serialize serialized_size validate_serializable
    encoded_size attributes_size checked_string_size checked_add put_identity is_canonical_identity
    canonical_loop is_lower_hex pack_hex hex_value put_string put put_attributes sort_attributes
    attribute_less bytes_less sort insert
sent_waits = refl

abbrev sent_again : Endpoint
sent_again = record {
  channel = channel_of (sample ∷ []) false;
  closed = false;
  trace =
      on_send sample 103
      ∷ on_receive sample 103 1
      ∷ on_backpressure 3 false
      ∷ on_send sample 103
      ∷ [];
}

emptied_takes : send_wake emptied sample 103 false 3 ≡ done (ok tt, sent_again)
unfolding send_wake push_wake
emptied_takes = refl

send_publishes_example :
    ((◌≡◌ {A = Result SendError (Unit {0})} (ok tt) (ok tt))
      × (sent_again.channel.queue ≡ [] ++ sample ∷ [])
      × Serializes sample)
    ⊎ ((x : SendError) × (◌≡◌ {A = Result SendError (Unit {0})} (ok tt) (err x))
        × (sent_again.channel ≡ emptied.channel))
send_publishes_example =
    send_publishes emptied sample (ok tt) sent_again
      (Readable.waited sent sent_waits 103 false 3 emptied_takes)

sent_receives : receive_wake sent forever false 10 ≡ done (ok (received sample), emptied)
unfolding receive_wake pop serialize serialized_size validate_serializable encoded_size
    attributes_size checked_string_size checked_add put_identity is_canonical_identity
    canonical_loop is_lower_hex pack_hex hex_value put_string put put_attributes sort_attributes
    attribute_less bytes_less sort insert
sent_receives = refl

idle_to_sent : Reaches idle sent
idle_to_sent = Reach.sends Reach.start sample (ok tt) idle_sends

receive_never_throws_example :
    (x : ReceiveResult) × (◌≡◌ {A = Result Error ReceiveResult} (ok (received sample)) (ok x))
receive_never_throws_example =
    receive_never_throws {t = idle} refl idle_to_sent forever false 10 (ok (received sample))
      emptied (Reach.ends_after_wait sent_receives)

-- A ring with two slots of 200 bytes, and the frame of the sample.
abbrev empty_ring : Ring
empty_ring = new_ring 2 200 1

abbrev sample_framed : Bytes
sample_framed = 0 ∷ 0 ∷ 0 ∷ 103 ∷ sample_bytes

sample_prepared : prepare false 200 sample ≡ ok sample_framed
unfolding prepare frame
sample_prepared = ground (arith, sample_written)

sample_sent :
    send (λ _. true) false 200 block locked false sample empty_ring
    ≡ done (ok tt, publish sample_framed empty_ring)
unfolding send send_locked send_loop new_ring
sample_sent = ground (arith, sample_prepared)

one_sent : Run 2 200 1 (sample ∷ []) [] (publish sample_framed empty_ring)
one_sent =
    sends created (λ _. true) false block locked false sample (ok tt)
      (publish sample_framed empty_ring) sample-IsTyped sample_sent

received_in_order_example :
    (rest : List Envelope) × (map arrived (sample ∷ []) ≡ [] ++ rest)
    × ((publish sample_framed empty_ring).closed ≡ false
        → (length rest
            ≡ (publish sample_framed empty_ring).head - (publish sample_framed empty_ring).tail)
          × (length rest ≤ (publish sample_framed empty_ring).capacity))
received_in_order_example =
    received_in_order 2 200 1 (omega arith) (omega arith) one_sent (omega arith)

one_queued : (publish sample_framed empty_ring).tail < (publish sample_framed empty_ring).head
unfolding publish new_ring
one_queued = omega arith

receive_gives_next_example :
    (g : Envelope) × (rest : List Envelope) × (receive
        (λ _. true)
        locked
        false
        false
        false
        (publish sample_framed empty_ring)
      ≡ done (ok (message g), taken (publish sample_framed empty_ring)))
    × (map arrived (sample ∷ []) ≡ [] ++ g ∷ rest)
receive_gives_next_example =
    receive_gives_next 2 200 1 (omega arith) (omega arith) one_sent (omega arith) one_queued
      (λ _. true) false false

small_mapping : mapping_size 256 16 2 200 ≡ ok 672
unfolding mapping_size slot_stride
small_mapping = refl

mapping_size-slots_example :
    (672 ≤ maximum_mapping_bytes)
    × ((i : ℕ) → slot_offset 256 16 2 200 i + (4 + 200) ≤ 672)
    × ((i j : ℕ)
        → i < j
        → j < i + 2
        → (slot_offset 256 16 2 200 i + (4 + 200) ≤ slot_offset 256 16 2 200 j)
          ⊎ (slot_offset 256 16 2 200 j + (4 + 200) ≤ slot_offset 256 16 2 200 i))
mapping_size-slots_example =
    mapping_size-slots 256 16 2 200 672 (omega arith) (omega arith) small_mapping

plain_name : normalize_name (b'a' ∷ b'b' ∷ []) ≡ ok (b'/' ∷ b'a' ∷ b'b' ∷ [])
unfolding normalize_name
plain_name = refl

abbrev absolute_name : Bytes
absolute_name = b'/' ∷ b'a' ∷ b'b' ∷ []

normalize_name_idem_example :
    (normalize_name absolute_name ≡ ok absolute_name)
    × (length absolute_name ≤ 200)
    × ((rest : Bytes) × (absolute_name ≡ b'/' ∷ rest) × (has_slash rest ≡ false))
normalize_name_idem_example = normalize_name_idem (b'a' ∷ b'b' ∷ []) absolute_name plain_name
