-- ===== src/Channel/Transport/Reach.antt =====
-- Calls of several transports on one channel, in any order.
use graphx_docker.Base.{
  ℕ, ◌≡◌, refl, sym, subst, Bool, true, false, [], ◌∙◌, All, Result, ok, arith, inl, inr,
  Bool-cases,
}
use graphx_docker.Wire.{Error}
use graphx_docker.Envelope.{Envelope}
use graphx_docker.Channel.{Channel, message, PopResult, done, blocked, Timeout, pop, close}
use graphx_docker.Channel.Transport.{
  Endpoint, SendError, ReceiveResult, cancelled, send, send_wake, receive, receive_wake,
  close_transport,
}
use graphx_docker.Channel.Transport.Readable.{
  Serializes, IsReadable, send_publishes, SendEnds, at_once, waited, outcome-IsReadable,
  finish_receive_lem, finish_receive-channel, pop-PopOutcome, pop-IsReadable,
}

-- The states that calls lead to. `switch` goes from one transport of the channel to another.
pub data Reaches (t : Endpoint) : Endpoint → Type 0 where
  start : Reaches t t
  switch : {u v : Endpoint} → Reaches t u → v.channel ≡ u.channel → Reaches t v
  sends :
      {u v : Endpoint}
      → Reaches t u
      → (e : Envelope) (r : Result SendError (Unit {0})) → send u e ≡ done (r, v)
      → Reaches t v
  send_wakes :
      {u v : Endpoint}
      → Reaches t u
      → (w : Endpoint) (e : Envelope) → send w e ≡ blocked
      → (n : ℕ) (expired : Bool) (elapsed : ℕ) (r : Result SendError (Unit {0}))
      → send_wake u e n expired elapsed ≡ done (r, v)
      → Reaches t v
  receives :
      {u v : Endpoint}
      → Reaches t u
      → (wait : Timeout) (expired : Bool) (now : ℕ) (r : Result Error ReceiveResult)
      → receive u wait expired now ≡ done (r, v)
      → Reaches t v
  receive_wakes :
      {u v : Endpoint}
      → Reaches t u
      → (wait : Timeout) (expired : Bool) (now : ℕ) (r : Result Error ReceiveResult)
      → receive_wake u wait expired now ≡ done (r, v)
      → Reaches t v
  closes : {u : Endpoint} → Reaches t u → Reaches t (close_transport u)

send-IsReadable :
    (t : Endpoint) (e : Envelope) (r : Result SendError (Unit {0})) (t' : Endpoint)
    → IsReadable t.channel
    → SendEnds t e r t'
    → IsReadable t'.channel
send-IsReadable t e r t' h q = elim (send_publishes t e r t' q) [
  | inl (o, k, s) ↦ outcome-IsReadable t.channel e r t'.channel s h (inl (o, k))
  | inr (x, o, k) ↦ subst IsReadable (sym k) h
]

-- What a receive leaves, and that it returns.
abbrev Receives : Result Error ReceiveResult → Endpoint → Type 0
Receives r t' = IsReadable t'.channel × ((x : ReceiveResult) × (r ≡ ok x))

pop_reads :
    (c : Channel) (wait : Timeout) (expired : Bool)
    → IsReadable c
    → (q : PopResult) (c' : Channel) → pop c wait expired ≡ done (q, c')
    → IsReadable c' × ((e : Envelope) → q ≡ message e → Serializes e)
pop_reads c wait expired h q c' e = pop-IsReadable c q c' h (pop-PopOutcome c wait expired q c' e)

receive_wake-Receives :
    (t : Endpoint) (wait : Timeout) (expired : Bool) (now : ℕ) (r : Result Error ReceiveResult)
    (t' : Endpoint)
    → IsReadable t.channel
    → receive_wake t wait expired now ≡ done (r, t')
    → Receives r t'
unfolding receive_wake
receive_wake-Receives t wait expired now r t' h k =
    let p = pop t.channel wait expired in
    let reads = pop_reads t.channel wait expired h in
    let (q, e) = finish_receive-channel t now t.closed p r t' k in
    (
      (reads q t'.channel e).0,
      finish_receive_lem t now t.closed p r t' (λ x c d. (reads (message x) c d).1 x refl) k,
    )

receive_closed :
    (t : Endpoint) (wait : Timeout) (expired : Bool) (now : ℕ) (r : Result Error ReceiveResult)
    (t' : Endpoint)
    → t.closed ≡ true
    → receive t wait expired now ≡ done (r, t')
    → (t.channel ≡ t'.channel) × (r ≡ ok cancelled)
unfolding receive
receive_closed t wait expired now r t' c k = ground arith

receive_open :
    (t : Endpoint) (wait : Timeout) (expired : Bool) (now : ℕ)
    → t.closed ≡ false
    → receive t wait expired now ≡ receive_wake t wait expired now
unfolding receive receive_wake
receive_open t wait expired now c = rw c refl

receive-Receives :
    (t : Endpoint) (wait : Timeout) (expired : Bool) (now : ℕ) (r : Result Error ReceiveResult)
    (t' : Endpoint)
    → IsReadable t.channel
    → receive t wait expired now ≡ done (r, t')
    → Receives r t'
receive-Receives t wait expired now r t' h k = elim (Bool-cases t.closed) [
  | inl c ↦
      let (same, e) = receive_closed t wait expired now r t' c k in
      (subst IsReadable same h, (cancelled, e))
  | inr c ↦
      receive_wake-Receives t wait expired now r t' h (sym (receive_open t wait expired now c) ∙ k)
]

close-IsReadable : (t : Endpoint) → IsReadable t.channel → IsReadable (close_transport t).channel
unfolding close_transport close
close-IsReadable t h = elim (Bool-cases t.closed) [ inl c ↦ rw c h | inr c ↦ rw c h ]

Reaches-IsReadable : {t u : Endpoint} → Reaches t u → IsReadable t.channel → IsReadable u.channel
Reaches-IsReadable start h = h
Reaches-IsReadable (switch w e) h = subst IsReadable (sym e) (Reaches-IsReadable w h)
Reaches-IsReadable (sends {u} {v} w e r k) h =
    send-IsReadable u e r v (Reaches-IsReadable w h) (at_once k)
Reaches-IsReadable (send_wakes {u} {v} w x e b n expired elapsed r k) h =
    send-IsReadable u e r v (Reaches-IsReadable w h) (waited x b n expired elapsed k)
Reaches-IsReadable (receives {u} {v} w wait expired now r k) h =
    (receive-Receives u wait expired now r v (Reaches-IsReadable w h) k).0
Reaches-IsReadable (receive_wakes {u} {v} w wait expired now r k) h =
    (receive_wake-Receives u wait expired now r v (Reaches-IsReadable w h) k).0
Reaches-IsReadable (closes {u} w) h = close-IsReadable u (Reaches-IsReadable w h)

-- The end of a `receive_result`: at once, or at a wake-up of one that waited for a message since it
-- was called on the transport while that was open.
pub data ReceiveEnds (t : Endpoint) (wait : Timeout) (expired : Bool) (now : ℕ)
    (r : Result Error ReceiveResult) (t' : Endpoint) : Type 0 where
  ends_at_once : receive t wait expired now ≡ done (r, t') → ReceiveEnds t wait expired now r t'
  ends_after_wait :
      receive_wake t wait expired now ≡ done (r, t') → ReceiveEnds t wait expired now r t'

-- However the calls of several transports on one channel interleave, from a channel with nothing
-- queued, a `receive_result` that ends, at once or after it has waited, does not throw: what it
-- takes out can be serialized again. This holds on a transport that is closed during the wait, too.
pub receive_never_throws :
    {t u : Endpoint}
    → t.channel.queue ≡ []
    → Reaches t u
    → (wait : Timeout) (expired : Bool) (now : ℕ) (r : Result Error ReceiveResult) (v : Endpoint)
    → ReceiveEnds u wait expired now r v
    → (x : ReceiveResult) × (r ≡ ok x)
receive_never_throws {t} {u} e w wait expired now r v (ends_at_once k) =
    (receive-Receives u wait expired now r v
      (Reaches-IsReadable w (subst (All Serializes) (sym e) tt)) k).1
receive_never_throws {t} {u} e w wait expired now r v (ends_after_wait k) =
    (receive_wake-Receives u wait expired now r v
      (Reaches-IsReadable w (subst (All Serializes) (sym e) tt)) k).1
