-- ===== src/Channel/Transport/Readable.antt =====
-- What `send` publishes, and that everything in a channel can be read.
use graphx_docker.Base.{
  ℕ, ◌≡◌, ◌≢◌, ◌⊎◌, refl, sym, ◌∙◌, subst, Bool, false, List, [], ◌∷◌, ◌++◌, Result, ok, err, arith,
  length, All, All-append, inl, inr, List-cases, Bool-cases, Result-cases, Bytes,
}
use graphx_docker.Wire.{Error}
use graphx_docker.Envelope.{Envelope, serialize}
use graphx_docker.Channel.{
  Channel, accepted, PushResult, PopResult, message, timeout, drained, Progress, done, blocked,
  push_enter, push_wake, Timeout, pop,
}
use graphx_docker.Channel.Transport.{
  Endpoint, SendError, transport_closed, not_serializable, ReceiveResult, finish_send, send,
  send_wake, finish_receive,
}

abbrev pub Serializes : Envelope → Type 0
Serializes e = (bytes : Bytes) × (serialize e ≡ ok bytes)

-- Every queued envelope can be serialized.
abbrev pub IsReadable : Channel → Type 0
IsReadable c = All Serializes c.queue

-- The envelope is at the end of the queue, or the channel is as it was.
abbrev pub Published : Channel → Envelope → Channel → Type 0
Published c e c' = (c'.queue ≡ c.queue ++ e ∷ [])

abbrev PushOutcome : Channel → Envelope → PushResult → Channel → Type 0
PushOutcome c e r c' =
    ((r.status ≡ accepted) × Published c e c') ⊎ ((r.status ≢ accepted) × (c' ≡ c))

push_enter-PushOutcome :
    (c : Channel) (e : Envelope) (r : PushResult) (c' : Channel)
    → push_enter c e ≡ done (r, c')
    → PushOutcome c e r c'
unfolding push_enter
push_enter-PushOutcome c e r c' h = ground arith

push_wake-PushOutcome :
    (c : Channel) (e : Envelope) (expired : Bool) (elapsed : ℕ) (r : PushResult) (c' : Channel)
    → push_wake c e expired elapsed ≡ done (r, c')
    → PushOutcome c e r c'
unfolding push_wake
push_wake-PushOutcome c e expired elapsed r c' h = ground arith

-- The result of a send and the channel it leaves.
abbrev pub SendOutcome : Channel → Envelope → Result SendError (Unit {0}) → Channel → Type 0
SendOutcome c e r c' = ((r ≡ ok tt) × Published c e c') ⊎ ((x : SendError) × (r ≡ err x) × (c' ≡ c))

finish_send-SendOutcome :
    (t : Endpoint) (e : Envelope) (n : ℕ) (p : Progress (PushResult × Channel))
    (r : Result SendError (Unit {0})) (t' : Endpoint)
    → ((q : PushResult) (c' : Channel) → p ≡ done (q, c') → PushOutcome t.channel e q c')
    → finish_send t e n p ≡ done (r, t')
    → SendOutcome t.channel e r t'.channel
unfolding finish_send
finish_send-SendOutcome t e n blocked r t' f h = cc
finish_send-SendOutcome t e n (done (q, c)) r t' f h = elim (f q c refl) [
  | inl (s, v) ↦ ground arith
  | inr (s, v) ↦ ground arith
]

send_open :
    (t : Endpoint) (e : Envelope) (bytes : Bytes) (r : Result SendError (Unit {0})) (t' : Endpoint)
    → t.closed ≡ false
    → serialize e ≡ ok bytes
    → send t e ≡ done (r, t')
    → finish_send t e (length bytes) (push_enter t.channel e) ≡ done (r, t')
unfolding send
send_open t e bytes r t' c s h = ground arith

-- A `send` that waits has serialized its envelope before.
blocked-Serializes : (w : Endpoint) (e : Envelope) → send w e ≡ blocked → Serializes e
unfolding send
blocked-Serializes w e h = elim (Result-cases (serialize e)) [
  | inl v ↦ v
  | inr (x, s) ↦ elim (Bool-cases w.closed) [
    | inl c ↦ absurd (ground arith)
    | inr c ↦ absurd (ground arith)
  ]
]

-- The end of a `send` on a transport: at once, or at a wake-up of one that waited for room since it
-- was called, when the transport and its channel were in another state.
pub data SendEnds (t : Endpoint) (e : Envelope) (r : Result SendError (Unit {0})) (t' : Endpoint)
    : Type 0 where
  at_once : send t e ≡ done (r, t') → SendEnds t e r t'
  waited :
      (w : Endpoint)
      → send w e ≡ blocked
      → (n : ℕ) (expired : Bool) (elapsed : ℕ) → send_wake t e n expired elapsed ≡ done (r, t')
      → SendEnds t e r t'

-- What a `send` that ends has done.
abbrev pub Publishes : Endpoint → Envelope → Result SendError (Unit {0}) → Endpoint → Type 0
Publishes t e r t' =
    ((r ≡ ok tt) × (t'.channel.queue ≡ t.channel.queue ++ e ∷ []) × Serializes e)
    ⊎ ((x : SendError) × (r ≡ err x) × (t'.channel ≡ t.channel))

send-Publishes :
    (t : Endpoint) (e : Envelope) (r : Result SendError (Unit {0})) (t' : Endpoint)
    → send t e ≡ done (r, t')
    → Publishes t e r t'
unfolding send
send-Publishes t e r t' h = elim (Bool-cases t.closed) [
  | inl c ↦ inr (transport_closed, ground arith, ground arith)
  | inr c ↦ elim (Result-cases (serialize e)) [
    | inl (bytes, s) ↦
        elim (finish_send-SendOutcome t e (length bytes) (push_enter t.channel e) r t'
          (push_enter-PushOutcome t.channel e) (send_open t e bytes r t' c s h)) [
            | inl (o, q) ↦ inl (o, q, (bytes, s))
            | inr v ↦ inr v
          ]
    | inr (x, s) ↦ inr (not_serializable x, ground arith, ground arith)
  ]
]

send_wake-SendOutcome :
    (t : Endpoint) (e : Envelope) (n : ℕ) (expired : Bool) (elapsed : ℕ)
    (r : Result SendError (Unit {0})) (t' : Endpoint)
    → send_wake t e n expired elapsed ≡ done (r, t')
    → SendOutcome t.channel e r t'.channel
unfolding send_wake
send_wake-SendOutcome t e n expired elapsed r t' h =
    finish_send-SendOutcome t e n (push_wake t.channel e expired elapsed) r t'
      (push_wake-PushOutcome t.channel e expired elapsed) h

-- `send` on a transport, whether it ends at once or after it has waited for room: when it returns,
-- its envelope, which can be serialized, stands at the end of the queue and nothing else there has
-- changed; when it throws, a timeout included, the channel is as it was.
pub send_publishes :
    (t : Endpoint) (e : Envelope) (r : Result SendError (Unit {0})) (t' : Endpoint)
    → SendEnds t e r t'
    → ((r ≡ ok tt) × (t'.channel.queue ≡ t.channel.queue ++ e ∷ []) × Serializes e)
      ⊎ ((x : SendError) × (r ≡ err x) × (t'.channel ≡ t.channel))
send_publishes t e r t' (at_once h) = send-Publishes t e r t' h
send_publishes t e r t' (waited w b n expired elapsed h) =
    elim (send_wake-SendOutcome t e n expired elapsed r t' h) [
      | inl (o, q) ↦ inl (o, q, blocked-Serializes w e b)
      | inr v ↦ inr v
    ]

pub outcome-IsReadable :
    (c : Channel) (e : Envelope) (r : Result SendError (Unit {0})) (c' : Channel)
    → Serializes e
    → IsReadable c
    → SendOutcome c e r c'
    → IsReadable c'
outcome-IsReadable c e r c' s h (inl (_, q)) =
    subst (All Serializes) (sym q) (All-append Serializes c.queue (e ∷ []) h (s, tt))
outcome-IsReadable c e r c' s h (inr (_, _, q)) = subst IsReadable (sym q) h

pub finish_receive_lem :
    (t : Endpoint) (now : ℕ) (closed : Bool) (p : Progress (PopResult × Channel))
    (r : Result Error ReceiveResult) (t' : Endpoint)
    → ((e : Envelope) (c : Channel) → p ≡ done (message e, c) → Serializes e)
    → finish_receive t now closed p ≡ done (r, t')
    → (x : ReceiveResult) × (r ≡ ok x)
unfolding finish_receive
finish_receive_lem t now closed blocked r t' f h = cc
finish_receive_lem t now closed (done (message e, c)) r t' f h =
    let (bytes, s) = f e c refl in ground (arith, s)
finish_receive_lem t now closed (done (timeout, c)) r t' f h = ground arith
finish_receive_lem t now closed (done (drained, c)) r t' f h = ground arith

unfoldable pub PopOutcome : Channel → PopResult → Channel → Type 0
PopOutcome c q c' =
    ((x : Envelope) × (rest : List Envelope) × (c.queue ≡ x ∷ rest)
      × (q ≡ message x)
      × (c'.queue ≡ rest))
    ⊎ (((e : Envelope) → q ≢ message e) × (c' ≡ c))

pub pop-PopOutcome :
    (c : Channel) (wait : Timeout) (expired : Bool) (q : PopResult) (c' : Channel)
    → pop c wait expired ≡ done (q, c')
    → PopOutcome c q c'
unfolding PopOutcome pop
pop-PopOutcome c wait expired q c' p = elim (List-cases c.queue) [
  | inl e ↦ inr (λ x h. ground arith, ground arith)
  | inr (x, rest, e) ↦ inl (x, rest, e, ground arith, ground arith)
]

message-injective : (x e : Envelope) → ◌≡◌ {A = PopResult} (message x) (message e) → x ≡ e
message-injective x e h = cc

pub pop-IsReadable :
    (c : Channel) (q : PopResult) (c' : Channel)
    → IsReadable c
    → PopOutcome c q c'
    → IsReadable c' × ((e : Envelope) → q ≡ message e → Serializes e)
unfolding PopOutcome
pop-IsReadable c q c' h (inl (x, rest, e, m, k)) =
    let (hx, hrest) = subst (All Serializes) e h in
    (
      subst (All Serializes) (sym k) hrest,
      λ y n. subst Serializes (message-injective x y (sym m ∙ n)) hx,
    )
pop-IsReadable c q c' h (inr (m, k)) = (subst IsReadable (sym k) h, λ y n. absurd (m y n))

pub finish_receive-channel :
    (t : Endpoint) (now : ℕ) (closed : Bool) (p : Progress (PopResult × Channel))
    (r : Result Error ReceiveResult) (t' : Endpoint)
    → finish_receive t now closed p ≡ done (r, t')
    → (q : PopResult) × (p ≡ done (q, t'.channel))
unfolding finish_receive
finish_receive-channel t now closed blocked r t' h = cc
finish_receive-channel t now closed (done (message e, c)) r t' h =
    elim (Result-cases (serialize e)) [
      | inl (bytes, s) ↦ (message e, ground arith)
      | inr (x, s) ↦ (message e, ground arith)
    ]
finish_receive-channel t now closed (done (timeout, c)) r t' h = (timeout, ground arith)
finish_receive-channel t now closed (done (drained, c)) r t' h = (drained, ground arith)
