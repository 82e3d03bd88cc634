-- ===== src/SharedMemory/Transfer.antt =====
-- What a call on the ring does to the queue of frames.
use graphx_docker.Base.{
  ℕ, ◌+◌, ◌-◌, ◌≤◌, ◌<◌, ◌≡◌, ◌≢◌, ◌⊎◌, inl, inr, ap, subst, ◌∙◌, Bool, true, false, ◌==◌, Bytes,
  Result, ok, err, arith, leb, length, take, drop, Result-cases, Bool-cases, leb→le,
}
use graphx_docker.Wire.Framing.{frame, decode_frame_size, decode_frame_size-frame}
use graphx_docker.Envelope.{Envelope, serialize, deserialize}
use graphx_docker.Envelope.Decode.{IsTyped, deserialize-serialize}
use graphx_docker.Attributes.{sort_attributes}
use graphx_docker.Channel.{done, Backpressure}
use graphx_docker.SharedMemory.{
  Ring, occupied, recover, slot, publish, take_slot, decode, prepare, SharedMemoryError, LockStatus,
  locked, owner_died, lock_error, WaitStatus, woken, wait_owner_died, wait_error, send_loop,
  send_locked, send_woken, ReceiveResult, message, receive_loop, receive_locked, receive_woken,
  receive,
}
use graphx_docker.SharedMemory.Queue.{IsRing, frame_of}
use graphx_docker.SharedMemory.Invariant.{taken}

-- The frame that carries an envelope.
abbrev pub Carries : Bytes → Envelope → Type 0
Carries f e = (bytes : Bytes) × (serialize e ≡ ok bytes) × (frame bytes ≡ ok f)

pub prepare-Carries :
    (closed : Bool) (m : ℕ) (e : Envelope) (f : Bytes)
    → prepare closed m e ≡ ok f
    → Carries f e × (length f ≤ m)
unfolding prepare
prepare-Carries closed m e f h = elim (Bool-cases closed) [
  | inl c ↦ absurd (ground arith)
  | inr c ↦ elim (Result-cases (serialize e)) [
    | inr (x, s) ↦ absurd (ground arith)
    | inl (bytes, s) ↦ elim (Result-cases (frame bytes)) [
      | inr (x, k) ↦ absurd (ground arith)
      | inl (framed, k) ↦ elim (Bool-cases (leb (length framed) m)) [
        | inl l ↦
            let e' : framed ≡ f = ground arith in
            ((bytes, s, k ∙ ap ok e'), subst (λ g. length g ≤ m) e' (leb→le _ _ l))
        | inr l ↦ absurd (ground arith)
      ]
    ]
  ]
]

pub Carries-length : (f : Bytes) (e : Envelope) → Carries f e → 4 ≤ length f
Carries-length f e (bytes, s, h) = let (n, _, _) = decode_frame_size-frame bytes f h in omega arith

decode-ok :
    (f : Bytes) (size : ℕ) (e : Envelope)
    → decode_frame_size (take 4 f) ≡ ok size
    → size ≡ length f - 4
    → deserialize (drop 4 f) ≡ ok e
    → decode f ≡ ok (message e)
unfolding decode
decode-ok f size e h k l = ground arith

-- A received frame decodes to its envelope, with the attributes sorted.
pub decode-Carries :
    (f : Bytes) (e : Envelope)
    → IsTyped e
    → Carries f e
    → decode f ≡ ok (message (record e { attributes = sort_attributes e.attributes }))
decode-Carries f e typed (bytes, s, h) =
    let (n, size, rest) = decode_frame_size-frame bytes f h in
    decode-ok f (length bytes) _ size (omega arith)
      (ap deserialize rest ∙ deserialize-serialize e bytes typed s)

-- What a step of `send` may do: publish the frame, or throw, and then leave the ring alone, close it
-- or recover it.
unfoldable pub SendsCases : Bytes → Ring → Result SharedMemoryError (Unit {0}) → Ring → Type 0
SendsCases f r x r' =
    ((x ≡ ok tt) × (r.closed ≡ false) × (r.head < r.tail + r.capacity) × (r' ≡ publish f r))
    ⊎ ((y : SharedMemoryError) × (x ≡ err y)
        × ((r' ≡ r) ⊎ (r' ≡ record r { closed = true }) ⊎ (r' ≡ recover r)))

room : (r : Ring) → IsRing r → leb r.capacity (occupied r) ≡ false → r.head < r.tail + r.capacity
room r v h = ground arith

send_loop-SendsCases :
    (policy : Backpressure) (expired : Bool) (f : Bytes) (r : Ring)
    (x : Result SharedMemoryError (Unit {0})) (r' : Ring)
    → IsRing r
    → r.closed ≡ false
    → send_loop policy expired f r ≡ done (x, r')
    → SendsCases f r x r'
unfolding send_loop SendsCases
send_loop-SendsCases policy expired f r x r' v c h = ground (arith, room r v)

pub send_locked-SendsCases :
    (exists : ℕ → Bool) (policy : Backpressure) (status : LockStatus) (expired : Bool) (f : Bytes)
    (r : Ring) (x : Result SharedMemoryError (Unit {0})) (r' : Ring)
    → IsRing r
    → send_locked exists policy status expired f r ≡ done (x, r')
    → SendsCases f r x r'
unfolding send_locked SendsCases
send_locked-SendsCases exists policy lock_error expired f r x r' v h = ground arith
send_locked-SendsCases exists policy owner_died expired f r x r' v h = ground arith
send_locked-SendsCases exists policy locked expired f r x r' v h =
    ground (arith, send_loop-SendsCases policy expired f r x r' v)

pub send_woken-SendsCases :
    (exists : ℕ → Bool) (policy : Backpressure) (status : WaitStatus) (expired : Bool) (f : Bytes)
    (r : Ring) (x : Result SharedMemoryError (Unit {0})) (r' : Ring)
    → IsRing r
    → send_woken exists policy status expired f r ≡ done (x, r')
    → SendsCases f r x r'
unfolding send_woken SendsCases
send_woken-SendsCases exists policy wait_error expired f r x r' v h = ground arith
send_woken-SendsCases exists policy wait_owner_died expired f r x r' v h = ground arith
send_woken-SendsCases exists policy woken expired f r x r' v h =
    ground (arith, send_loop-SendsCases policy expired f r x r' v)

-- What a step of `receive_result` may do: take the oldest frame out and decode it, or give or throw
-- something else, and then leave the ring alone, close it or recover it.
unfoldable pub ReceivesCases : Ring → Result SharedMemoryError ReceiveResult → Ring → Type 0
ReceivesCases r x r' =
    ((r.tail < r.head) × (x ≡ decode (frame_of (slot r r.tail))) × (r' ≡ taken r))
    ⊎ (((e : Envelope) → x ≢ ok (message e))
        × ((r' ≡ r) ⊎ (r' ≡ record r { closed = true }) ⊎ (r' ≡ recover r)))

behind : (r : Ring) → IsRing r → (r.head == r.tail) ≡ false → r.tail < r.head
behind r v h = ground (arith, v.ordered)

pub take_slot-taken :
    (r : Ring)
    → IsRing r
    → r.tail < r.head
    → take_slot r (slot r r.tail) ≡ done (decode (frame_of (slot r r.tail)), taken r)
unfolding take_slot
take_slot-taken r v h = let (low, high) = v.valid r.tail (omega arith) h in ground arith

pub receive_locked-decode :
    (exists : ℕ → Bool) (closed expired : Bool) (r : Ring)
    → IsRing r
    → r.tail < r.head
    → receive exists locked false closed expired r
      ≡ done (decode (frame_of (slot r r.tail)), taken r)
unfolding receive receive_locked receive_loop
receive_locked-decode exists closed expired r v h = let t = take_slot-taken r v h in ground arith

receive_loop-ReceivesCases :
    (exists : ℕ → Bool) (closed expired : Bool) (r : Ring)
    (x : Result SharedMemoryError ReceiveResult) (r' : Ring)
    → IsRing r
    → receive_loop exists closed expired r ≡ done (x, r')
    → ReceivesCases r x r'
unfolding receive_loop ReceivesCases
receive_loop-ReceivesCases exists closed expired r x r' v h = elim (Bool-cases (r.head == r.tail)) [
  | inl e ↦ inr (λ g k. ground arith, ground arith)
  | inr e ↦
      let lt = behind r v e in
      let t = take_slot-taken r v lt in inl (lt, ground arith, ground arith)
]

pub receive_locked-ReceivesCases :
    (exists : ℕ → Bool) (status : LockStatus) (closed expired : Bool) (r : Ring)
    (x : Result SharedMemoryError ReceiveResult) (r' : Ring)
    → IsRing r
    → receive_locked exists status closed expired r ≡ done (x, r')
    → ReceivesCases r x r'
unfolding receive_locked ReceivesCases
receive_locked-ReceivesCases exists lock_error closed expired r x r' v h =
    inr (λ g k. ground arith, ground arith)
receive_locked-ReceivesCases exists owner_died closed expired r x r' v h =
    inr (λ g k. ground arith, ground arith)
receive_locked-ReceivesCases exists locked closed expired r x r' v h =
    receive_loop-ReceivesCases exists closed expired r x r' v h

pub receive_woken-ReceivesCases :
    (exists : ℕ → Bool) (status : WaitStatus) (closed expired : Bool) (r : Ring)
    (x : Result SharedMemoryError ReceiveResult) (r' : Ring)
    → IsRing r
    → receive_woken exists status closed expired r ≡ done (x, r')
    → ReceivesCases r x r'
unfolding receive_woken ReceivesCases
receive_woken-ReceivesCases exists wait_error closed expired r x r' v h =
    inr (λ g k. ground arith, ground arith)
receive_woken-ReceivesCases exists wait_owner_died closed expired r x r' v h =
    inr (λ g k. ground arith, ground arith)
receive_woken-ReceivesCases exists woken closed expired r x r' v h =
    receive_loop-ReceivesCases exists closed expired r x r' v h
