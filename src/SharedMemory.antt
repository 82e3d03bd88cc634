-- ===== src/SharedMemory.antt =====
-- The ring of shared_memory_transport.cpp: what stands in the mapping, and each call as its steps
-- under the process-shared mutex. A call that waits on a condition variable ends a step, and its
-- next step begins with the status of the wait. What the operating system answers (the status of
-- a lock or a wait, whether a process lives, whether a deadline has passed) is an argument. The
-- calls of the trace sink are left out.
pub mod Layout
pub mod Slots
pub mod Queue
pub mod Invariant
pub mod Transfer
pub mod History
pub mod Delivery
pub mod Received
use graphx_docker.Base.{
  ℕ, zero, suc, ◌+◌, ◌-◌, ◌%◌, ◌^◌, Bool, true, false, not, ◌||◌, ◌&&◌, List, [], ◌∷◌, ◌++◌, Option,
  none, some, Bytes, Result, ok, err, ◌>>=◌, ◌>>◌, guard, leb, ltb, ◌==◌, if◌then◌else◌, length,
  take, drop, replicate, get_elem?,
}
use graphx_docker.Wire.{Error}
use graphx_docker.Wire.Framing.{frame, decode_frame_size}
use graphx_docker.Envelope.{Envelope, serialize, deserialize}
use graphx_docker.Channel.{Backpressure, block, reject, Progress, done, blocked}

-- A slot: the length word and the bytes behind it.
pub record Slot : Type 0 where
  pub frame_length : ℕ
  pub bytes : Bytes

-- `SharedHeader` without the magic, the version and the synchronization objects, and the slots. A
-- pid of zero is none.
pub record Ring : Type 0 where
  pub capacity : ℕ
  pub max_message_bytes : ℕ
  pub head : ℕ
  pub tail : ℕ
  pub recovery_count : ℕ
  pub producer_pid : ℕ
  pub consumer_pid : ℕ
  pub closed : Bool
  pub slots : List Slot

pub data SharedMemoryError : Type 0 where
  send_on_closed frame_exceeds_slot lock_failed mutex_recovered ring_closed : SharedMemoryError
  consumer_gone ring_full send_timed_out peer_died wait_failed : SharedMemoryError
  live_producer invalid_slot_length prefix_mismatch : SharedMemoryError
  invalid_prefix malformed_envelope not_serializable : Error → SharedMemoryError

pub data ReceiveResult : Type 0 where
  message : Envelope → ReceiveResult
  timeout end_of_stream cancelled : ReceiveResult

-- `pthread_mutex_lock` on a robust mutex, and `pthread_cond_timedwait`, where a signal, a time-out
-- and a spurious wake-up are all `woken`.
pub data LockStatus : Type 0 where
  locked owner_died lock_error : LockStatus

pub data WaitStatus : Type 0 where
  woken wait_owner_died wait_error : WaitStatus

-- What a call gives or throws, and the ring it leaves.
abbrev pub Outcome : Type 0 → Type 0
Outcome A = Progress (Result SharedMemoryError A × Ring)

abbrev pub u64 : ℕ
u64 = 2 ^ 64

-- `head - tail` on uint64_t
abbrev pub occupied : Ring → ℕ
occupied r = (r.head + (u64 - r.tail)) % u64

-- `process_alive`, where `exists pid` says that `kill(pid, 0)` succeeds or is not permitted.
abbrev pub process_alive : (ℕ → Bool) → ℕ → Bool
process_alive exists pid = not (pid == 0) && exists pid

-- What both `lock_header` and `wait_condition` do when the owner of the mutex has died.
unfoldable pub recover : Ring → Ring
recover r = record r { closed = true; tail = r.head; recovery_count = (r.recovery_count + 1) % u64 }

-- A ring as `listen` creates it: the mapping is zero.
unfoldable pub new_ring : ℕ → ℕ → ℕ → Ring
new_ring capacity max_message_bytes consumer_pid = record {
  capacity = capacity;
  max_message_bytes = max_message_bytes;
  head = 0;
  tail = 0;
  recovery_count = 0;
  producer_pid = 0;
  consumer_pid = consumer_pid;
  closed = false;
  slots = replicate capacity (record { frame_length = 0; bytes = replicate max_message_bytes 0 });
}

unfoldable pub set_slot : ℕ → Slot → List Slot → List Slot
set_slot i v [] = []
set_slot zero v (s ∷ rest) = v ∷ rest
set_slot (suc i) v (s ∷ rest) = s ∷ set_slot i v rest

-- The two `memcpy` of `send`, into a slot that holds `old`.
unfoldable pub write_slot : Bytes → Slot → Slot
write_slot framed old = record {
  frame_length = length framed % 2 ^ 32;
  bytes = framed ++ drop (length framed) old.bytes;
}

abbrev pub slot_at : Option Slot → Slot
slot_at none = record { frame_length = 0; bytes = [] }
slot_at (some s) = s

-- `Impl::slot`. A sequence number has a slot, by the ring's invariant.
unfoldable pub slot : Ring → ℕ → Slot
slot r sequence = slot_at (get_elem? r.slots (sequence % r.capacity))

-- The end of `send`.
unfoldable pub publish : Bytes → Ring → Ring
publish framed r = record r {
  slots = set_slot (r.head % r.capacity) (write_slot framed (slot r r.head)) r.slots;
  head = (r.head + 1) % u64;
}

-- `send` before it locks the ring. `max_message_bytes` is that of the options.
unfoldable pub prepare : Bool → ℕ → Envelope → Result SharedMemoryError Bytes
prepare locally_closed max_message_bytes e = do
  guard (not locally_closed) send_on_closed
  elim (serialize e) [
    | err x ↦ err (not_serializable x)
    | ok serialized ↦ elim (frame serialized) [
      | err x ↦ err (not_serializable x)
      | ok framed ↦ guard (leb (length framed) max_message_bytes) frame_exceeds_slot >> ok framed
    ]
  ]

abbrev fails : SharedMemoryError → Ring → {A : Type 0} → Outcome A
fails x r = done (err x, r)

full_send : Backpressure → Bool → Ring → Outcome (Unit {0})
full_send reject expired r = fails ring_full r
full_send block true r = fails send_timed_out r
full_send block false r = blocked

-- The head of the loop of `send`, and what follows it.
unfoldable pub send_loop : Backpressure → Bool → Bytes → Ring → Outcome (Unit {0})
unfolding full_send
send_loop policy expired framed r =
    if leb r.capacity (occupied r)
    then full_send policy expired r
    else done (ok tt, publish framed r)

-- `send` once it has asked for the mutex.
unfoldable pub send_locked :
    (ℕ → Bool) → Backpressure → LockStatus → Bool → Bytes → Ring → Outcome (Unit {0})
send_locked exists policy lock_error expired framed r = fails lock_failed r
send_locked exists policy owner_died expired framed r = fails mutex_recovered (recover r)
send_locked exists policy locked expired framed r =
    if r.closed
    then fails ring_closed r
    else if not (process_alive exists r.consumer_pid)
    then fails consumer_gone (record r { closed = true })
    else send_loop policy expired framed r

-- `SharedMemoryTransport::send` up to its first wait.
unfoldable pub send :
    (ℕ → Bool) → Bool → ℕ → Backpressure → LockStatus → Bool → Envelope → Ring → Outcome (Unit {0})
unfolding prepare send_locked
send exists locally_closed max_message_bytes policy status expired e r =
    elim (prepare locally_closed max_message_bytes e) [
      | err x ↦ done (err x, r)
      | ok framed ↦ send_locked exists policy status expired framed r
    ]

-- `send` once its wait has ended.
unfoldable pub send_woken :
    (ℕ → Bool) → Backpressure → WaitStatus → Bool → Bytes → Ring → Outcome (Unit {0})
send_woken exists policy wait_owner_died expired framed r = fails peer_died (recover r)
send_woken exists policy wait_error expired framed r = fails wait_failed r
send_woken exists policy woken expired framed r =
    if r.closed
    then fails ring_closed r
    else if not (process_alive exists r.consumer_pid)
    then fails consumer_gone (record r { closed = true })
    else send_loop policy expired framed r

-- `receive_result` with the frame in hand, outside the mutex.
unfoldable pub decode : Bytes → Result SharedMemoryError ReceiveResult
decode framed = elim (decode_frame_size (take 4 framed)) [
  | err x ↦ err (invalid_prefix x)
  | ok size ↦
      if not (size == length framed - 4)
      then err prefix_mismatch
      else elim (deserialize (drop 4 framed)) [
        | err x ↦ err (malformed_envelope x)
        | ok e ↦ ok (message e)
      ]
]

unfoldable pub take_slot : Ring → Slot → Outcome ReceiveResult
take_slot r s =
    if ltb s.frame_length 4 || ltb r.max_message_bytes s.frame_length
    then fails invalid_slot_length (record r { closed = true })
    else done (decode (take s.frame_length s.bytes), record r { tail = (r.tail + 1) % u64 })

-- The head of the loop of `receive_result`, and what follows it.
unfoldable pub receive_loop : (ℕ → Bool) → Bool → Bool → Ring → Outcome ReceiveResult
receive_loop exists locally_closed expired r =
    if not (r.head == r.tail)
    then take_slot r (slot r r.tail)
    else if locally_closed
    then done (ok cancelled, r)
    else if r.closed
    then done (ok end_of_stream, r)
    else if not (r.producer_pid == 0) && not (process_alive exists r.producer_pid)
    then done (ok end_of_stream, record r { closed = true })
    else if expired
    then done (ok timeout, r)
    else blocked

unfoldable pub receive_locked : (ℕ → Bool) → LockStatus → Bool → Bool → Ring → Outcome ReceiveResult
receive_locked exists lock_error locally_closed expired r = fails lock_failed r
receive_locked exists owner_died locally_closed expired r = fails mutex_recovered (recover r)
receive_locked exists locked locally_closed expired r = receive_loop exists locally_closed expired r

-- `receive_result` up to its first wait. The local flag is read twice.
unfoldable pub receive : (ℕ → Bool) → LockStatus → Bool → Bool → Bool → Ring → Outcome ReceiveResult
unfolding receive_locked
receive exists status closed_before locally_closed expired r =
    if closed_before
    then done (ok cancelled, r)
    else receive_locked exists status locally_closed expired r

unfoldable pub receive_woken : (ℕ → Bool) → WaitStatus → Bool → Bool → Ring → Outcome ReceiveResult
receive_woken exists wait_owner_died locally_closed expired r = fails peer_died (recover r)
receive_woken exists wait_error locally_closed expired r = fails wait_failed r
receive_woken exists woken locally_closed expired r = receive_loop exists locally_closed expired r

-- The last part of `connect`, in the process `pid`: it claims the producer's place.
unfoldable pub connect : (ℕ → Bool) → LockStatus → ℕ → Ring → Outcome (Unit {0})
connect exists lock_error pid r = fails lock_failed r
connect exists owner_died pid r = fails mutex_recovered (recover r)
connect exists locked pid r =
    if r.closed
    then fails ring_closed r
    else if process_alive exists r.producer_pid
    then fails live_producer r
    else done (ok tt, record r { producer_pid = pid })

-- `Impl::request_close` of an end that has its role, the producer or the consumer, in the process
-- `pid`. A dead owner's mutex is made consistent and the ring is left as it is.
unfoldable pub request_close : LockStatus → Bool → ℕ → Ring → Ring
request_close lock_error producer pid r = r
request_close _ producer pid r = record r {
  closed = true;
  producer_pid = if producer && (r.producer_pid == pid) then 0 else r.producer_pid;
  consumer_pid = if not producer && (r.consumer_pid == pid) then 0 else r.consumer_pid;
}
