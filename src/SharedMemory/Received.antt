-- ===== src/SharedMemory/Received.antt =====
-- The envelopes received over a ring are those that were sent, in the order in which they were.
use graphx_docker.Base.{
  ℕ, zero, suc, ◌-◌, ◌^◌, ◌≤◌, ◌<◌, ◌≡◌, ◌≢◌, ◌⊎◌, inl, inr, refl, ap, sym, subst, ◌∙◌, Bool, true,
  false, List, [], ◌∷◌, ◌++◌, map, append_assoc, Bytes, Result, ok, err, arith, length,
  length-append, Result-cases,
}
use graphx_docker.Envelope.{Envelope}
use graphx_docker.Envelope.Decode.{IsTyped}
use graphx_docker.Channel.{done, Backpressure}
use graphx_docker.SharedMemory.{
  Ring, recover, new_ring, prepare, SharedMemoryError, LockStatus, locked, owner_died, lock_error,
  send, send_locked, ReceiveResult, message, timeout, end_of_stream, cancelled, receive,
  receive_locked, connect, request_close,
}
use graphx_docker.SharedMemory.Queue.{contents, queued}
use graphx_docker.SharedMemory.Invariant.{new_ring-IsRing, taken}
use graphx_docker.SharedMemory.Transfer.{
  Carries, prepare-Carries, receive_locked-decode, SendsCases, send_locked-SendsCases,
  send_woken-SendsCases, ReceivesCases, receive_locked-ReceivesCases, receive_woken-ReceivesCases,
}
use graphx_docker.SharedMemory.History.{
  arrived, sent_log, received_log, Run, created, sends, send_wakes, receives, receive_wakes,
  connects, closes, CarriesAll-length, Inv,
}
use graphx_docker.SharedMemory.Delivery.{touched-Inv, recover-Inv, publish-Inv, taken-Inv}

-- A step that leaves the frames alone.
abbrev Quiet : Ring → Ring → Type 0
Quiet r r' = (r' ≡ r) ⊎ (r' ≡ record r { closed = true }) ⊎ (r' ≡ recover r)

sent_log-err :
    (es : List Envelope) (e : Envelope) (x : Result SharedMemoryError (Unit {0}))
    → ((y : SharedMemoryError) × (x ≡ err y))
    → sent_log es e x ≡ es
sent_log-err es e (ok u) (y, h) = cc
sent_log-err es e (err z) h = refl

received_log-other :
    (gs : List Envelope) (x : Result SharedMemoryError ReceiveResult)
    → ((g : Envelope) → x ≢ ok (message g))
    → received_log gs x ≡ gs
received_log-other gs (ok (message g)) h = absurd (h g refl)
received_log-other gs (ok timeout) h = refl
received_log-other gs (ok end_of_stream) h = refl
received_log-other gs (ok cancelled) h = refl
received_log-other gs (err x) h = refl

sent_log-grows :
    (es : List Envelope) (e : Envelope) (x : Result SharedMemoryError (Unit {0}))
    → length es ≤ length (sent_log es e x)
sent_log-grows es e (ok u) = omega (arith, length-append es (e ∷ []))
sent_log-grows es e (err x) = omega arith

module _ {m : ℕ} {es gs : List Envelope} where
  Quiet-Inv : (r r' : Ring) → Quiet r r' → Inv m es gs r → Inv m es gs r'
  Quiet-Inv r r' (inl e) v = subst (Inv m es gs) (sym e) v
  Quiet-Inv r r' (inr (inl e)) v =
      subst (Inv m es gs) (sym e) (touched-Inv r true r.producer_pid r.consumer_pid (λ h. refl) v)
  Quiet-Inv r r' (inr (inr e)) v = subst (Inv m es gs) (sym e) (recover-Inv r v)

  sends-Inv :
      (r : Ring) (e : Envelope) (f : Bytes) (x : Result SharedMemoryError (Unit {0})) (r' : Ring)
      → length (sent_log es e x) < 2 ^ 64
      → IsTyped e
      → Carries f e
      → length f ≤ m
      → SendsCases f r x r'
      → Inv m es gs r
      → Inv m (sent_log es e x) gs r'
  unfolding SendsCases
  sends-Inv r e f x r' count t carried fits (inl (ex, c, room, er)) v =
      let count' = subst (λ y. length (sent_log es e y) < 2 ^ 64) ex count in
      subst (λ y. Inv m (sent_log es e y) gs r') (sym ex)
        (subst (Inv m (es ++ e ∷ []) gs) (sym er) (
          publish-Inv r e f c room (omega (arith, count', length-append es (e ∷ []))) t carried fits
            v))
  sends-Inv r e f x r' count t carried fits (inr (y, ex, q)) v =
      subst (λ log. Inv m log gs r') (sym (sent_log-err es e x (y, ex))) (Quiet-Inv r r' q v)

  receives-Inv :
      (r : Ring) (x : Result SharedMemoryError ReceiveResult) (r' : Ring)
      → ReceivesCases r x r'
      → Inv m es gs r
      → Inv m es (received_log gs x) r'
  unfolding ReceivesCases
  receives-Inv r x r' (inl (h, ex, er)) v =
      let (g, d, v') = taken-Inv r h v in
      subst (λ y. Inv m es (received_log gs y) r') (sym (ex ∙ d))
        (subst (Inv m es (gs ++ g ∷ [])) (sym er) v')
  receives-Inv r x r' (inr (n, q)) v =
      subst (λ log. Inv m es log r') (sym (received_log-other gs x n)) (Quiet-Inv r r' q v)

  connect-Inv :
      (exists : ℕ → Bool) (status : LockStatus) (pid : ℕ) (r : Ring)
      (x : Result SharedMemoryError (Unit {0})) (r' : Ring)
      → connect exists status pid r ≡ done (x, r')
      → Inv m es gs r
      → Inv m es gs r'
  unfolding connect
  connect-Inv exists lock_error pid r x r' h v = subst (Inv m es gs) (ground arith) v
  connect-Inv exists owner_died pid r x r' h v =
      subst (Inv m es gs) (ground arith) (recover-Inv r v)
  connect-Inv exists locked pid r x r' h v =
      ground (arith, v, touched-Inv r r.closed pid r.consumer_pid (λ c. c) v)

  close-Inv :
      (status : LockStatus) (producer : Bool) (process : ℕ) (r : Ring)
      → Inv m es gs r
      → Inv m es gs (request_close status producer process r)
  unfolding request_close
  close-Inv lock_error producer process r v = v
  close-Inv owner_died producer process r v = touched-Inv r true _ _ (λ h. refl) v
  close-Inv locked producer process r v = touched-Inv r true _ _ (λ h. refl) v

send-cases :
    (exists : ℕ → Bool) (closed : Bool) (m : ℕ) (policy : Backpressure) (status : LockStatus)
    (expired : Bool) (e : Envelope) (r : Ring) (x : Result SharedMemoryError (Unit {0})) (r' : Ring)
    → send exists closed m policy status expired e r ≡ done (x, r')
    → (((f : Bytes) × (prepare closed m e ≡ ok f)
          × (send_locked exists policy status expired f r ≡ done (x, r')))
        ⊎ (((y : SharedMemoryError) × (x ≡ err y)) × (r' ≡ r)))
unfolding send
send-cases exists closed m policy status expired e r x r' h =
    elim (Result-cases (prepare closed m e)) [
      | inl (f, p) ↦ inl (f, p, ground arith)
      | inr (y, p) ↦ inr ((y, ground arith), ground arith)
    ]

receive-cases :
    (exists : ℕ → Bool) (status : LockStatus) (before closed expired : Bool) (r : Ring)
    (x : Result SharedMemoryError ReceiveResult) (r' : Ring)
    → receive exists status before closed expired r ≡ done (x, r')
    → (receive_locked exists status closed expired r ≡ done (x, r'))
      ⊎ ((x ≡ ok cancelled) × (r' ≡ r))
unfolding receive
receive-cases exists status before closed expired r x r' h = ground arith

not_message :
    (e : Envelope)
    → ◌≢◌ {A = Result SharedMemoryError ReceiveResult} (ok cancelled) (ok (message e))
not_message e h = ground arith

new_ring-Inv :
    (capacity m pid : ℕ) → 0 < capacity → m < 2 ^ 32 → Inv m [] [] (new_ring capacity m pid)
unfolding new_ring
new_ring-Inv capacity m pid h k = record {
  ring = new_ring-IsRing capacity m pid h k;
  limit = refl;
  counted = omega arith;
  history = inl ([], tt, refl);
}

module _ (capacity m pid : ℕ) (some : 0 < capacity) (small : m < 2 ^ 32) where
  Run-Inv :
      {es gs : List Envelope} {r : Ring}
      → Run capacity m pid es gs r
      → length es < 2 ^ 64
      → Inv m es gs r
  Run-Inv created count = new_ring-Inv capacity m pid some small
  Run-Inv (sends {es} {gs} {r} run exists closed policy status expired e x r' t h) count =
      let v = Run-Inv run (omega (arith, sent_log-grows es e x)) in
      elim (send-cases exists closed m policy status expired e r x r' h) [
        | inl (f, p, k) ↦
            let (carried, fits) = prepare-Carries closed m e f p in
            sends-Inv r e f x r' count t carried fits
              (send_locked-SendsCases exists policy status expired f r x r' v.ring k) v
        | inr (ex, er) ↦
            subst (λ log. Inv m log gs r') (sym (sent_log-err es e x ex))
              (Quiet-Inv r r' (inl er) v)
      ]
  Run-Inv (send_wakes {es} {gs} {r} run exists closed policy status expired e f x r' t p k) count =
      let v = Run-Inv run (omega (arith, sent_log-grows es e x)) in
      let (carried, fits) = prepare-Carries closed m e f p in
      sends-Inv r e f x r' count t carried fits
        (send_woken-SendsCases exists policy status expired f r x r' v.ring k) v
  Run-Inv (receives {es} {gs} {r} run exists status before closed expired x r' h) count =
      let v = Run-Inv run count in
      elim (receive-cases exists status before closed expired r x r' h) [
        | inl k ↦
            receives-Inv r x r'
              (receive_locked-ReceivesCases exists status closed expired r x r' v.ring k) v
        | inr (ex, er) ↦
            subst (λ y. Inv m es (received_log gs y) r') (sym ex) (Quiet-Inv r r' (inl er) v)
      ]
  Run-Inv (receive_wakes {es} {gs} {r} run exists status closed expired x r' h) count =
      let v = Run-Inv run count in
      receives-Inv r x r' (receive_woken-ReceivesCases exists status closed expired r x r' v.ring h)
        v
  Run-Inv (connects {es} {gs} {r} run exists status producer x r' h) count =
      connect-Inv exists status producer r x r' h (Run-Inv run count)
  Run-Inv (closes {es} {gs} {r} run status producer process) count =
      close-Inv status producer process r (Run-Inv run count)

length-arrived : (es : List Envelope) → length (map arrived es) ≡ length es
length-arrived [] = refl
length-arrived (e ∷ es) = ap suc (length-arrived es)

length-queued : (n from : ℕ) (r : Ring) → length (queued n from r) ≡ n
length-queued zero from r = refl
length-queued (suc n) from r = ap suc (length-queued n (suc from) r)

-- Whatever calls two ends make on a ring since its creation, fewer than 2^64 sends among them that
-- succeed: what has been received is, in order and but for the order of attributes, a first part of
-- what has been sent. As long as the ring is not closed, the rest is what stands in the ring, and
-- at most its capacity.
pub received_in_order :
    (capacity m pid : ℕ)
    → 0 < capacity
    → m < 2 ^ 32
    → {es gs : List Envelope} {r : Ring} → Run capacity m pid es gs r
    → length es < 2 ^ 64
    → (rest : List Envelope) × (map arrived es ≡ gs ++ rest)
      × (r.closed ≡ false → (length rest ≡ r.head - r.tail) × (length rest ≤ r.capacity))
received_in_order capacity m pid some small {es} {gs} {r} run count =
    let v = Run-Inv capacity m pid some small run count in
    elim v.history [
      | inl (q, c, k) ↦
          let n : length (map arrived q) ≡ r.head - r.tail =
            length-arrived q
            ∙ CarriesAll-length (contents r) q c
            ∙ length-queued (r.head - r.tail) r.tail r in
          (map arrived q, k, λ o. (n, omega (arith, v.ring.bounded)))
      | inr (c, n, (rest, k)) ↦ (rest, k, λ o. absurd (ground (arith, c, o)))
    ]

-- Likewise, when a frame stands in the ring, a `receive_result` that gets the mutex gives the first
-- envelope that has been sent and not received: it is neither refused nor changed, but for the
-- order of its attributes.
pub receive_gives_next :
    (capacity m pid : ℕ)
    → 0 < capacity
    → m < 2 ^ 32
    → {es gs : List Envelope} {r : Ring} → Run capacity m pid es gs r
    → length es < 2 ^ 64
    → r.tail < r.head
    → (exists : ℕ → Bool) (closed expired : Bool)
    → (g : Envelope) × (rest : List Envelope) × (receive exists locked false closed expired r
        ≡ done (ok (message g), taken r))
      × (map arrived es ≡ gs ++ g ∷ rest)
receive_gives_next capacity m pid some small {es} {gs} {r} run count h exists closed expired =
    let v = Run-Inv capacity m pid some small run count in
    let (g, d, _) = taken-Inv r h v in
    let e =
      receive_locked-decode exists closed expired r v.ring h ∙ ap (λ x. done (x, taken r)) d in
    let (rest, k, _) =
      received_in_order capacity m pid some small
        (receives run exists locked false closed expired (ok (message g)) (taken r) e) count in
    (g, rest, e, k ∙ append_assoc gs (g ∷ []) rest)
