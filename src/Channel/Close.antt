-- ===== src/Channel/Close.antt =====
-- Closing a channel: no producer gets anything in, consumers drain what is queued.
use graphx_docker.Base.{
  ℕ, zero, suc, ◌≤◌, ◌≡◌, ◌↔◌, refl, sym, ap, ◌∙◌, Bool, true, List, [], ◌∷◌, ◌++◌, Option, none,
  some, arith, length, append_assoc, append-nil, List-cases, inl, inr, take, drop, replicate,
}
use mathlib.Core.List.{reverse, reverse-cons}
use graphx_docker.Envelope.{Envelope}
use graphx_docker.Channel.{Channel, drained, done, push_enter, push_wake, Timeout, pop, close}
use graphx_docker.Channel.System.{
  Event, pushes, wakes, pops, closes, System, finish_push, after_push, after_pop, take_out, wake,
  step, run, take_out,
}

-- What a closed channel keeps.
record Shut (taken : List Envelope) (s : System) : Type 0 where
  closed : s.channel.closed ≡ true
  taken_is : s.taken ≡ taken

push_enter-Shut :
    {ts : List Envelope} (s : System) (e : Envelope)
    → Shut ts s
    → Shut ts (after_push s e (push_enter s.channel e))
unfolding after_push finish_push push_enter
push_enter-Shut s e v = ground arith

push_wake-Shut :
    {ts : List Envelope} (s : System) (e : Envelope) (rest : List Envelope) (expired : Bool)
    (elapsed : ℕ)
    → Shut ts s
    → Shut ts (after_push (record s { waiting = rest }) e (push_wake s.channel e expired elapsed))
unfolding after_push finish_push push_wake
push_wake-Shut s e rest expired elapsed v = ground arith

pop-Shut :
    {ts : List Envelope} (s : System) (t : Timeout) (expired : Bool)
    → Shut ts s
    → Shut ts (after_pop s (pop s.channel t expired))
unfolding after_pop pop
pop-Shut s t expired v = elim (List-cases s.channel.queue) [
  | inl e ↦ ground arith
  | inr (x, rest, e) ↦ ground arith
]

wake-Shut :
    {ts : List Envelope} (s : System) (expired : Bool) (elapsed : ℕ)
    (found : Option (Envelope × List Envelope))
    → Shut ts s
    → Shut ts (wake s expired elapsed found)
unfolding wake
wake-Shut s expired elapsed none v = v
wake-Shut s expired elapsed (some (e, rest)) v = push_wake-Shut s e rest expired elapsed v

step-Shut : {ts : List Envelope} (s : System) (v : Event) → Shut ts s → Shut ts (step s v)
unfolding step close
step-Shut s (pushes e) v = push_enter-Shut s e v
step-Shut s (wakes i expired elapsed) v = wake-Shut s expired elapsed (take_out i s.waiting) v
step-Shut s (pops t expired) v = pop-Shut s t expired v
step-Shut s closes v = record { closed = refl; taken_is = v.taken_is }

run-Shut : {ts : List Envelope} (s : System) (vs : List Event) → Shut ts s → Shut ts (run s vs)
unfolding run
run-Shut s [] v = v
run-Shut s (x ∷ vs) v = run-Shut (step s x) vs (step-Shut s x v)

-- After a close nothing more is taken in, whatever calls follow or were waiting, and the channel
-- stays closed.
pub closes_taken :
    (s : System) (vs : List Event)
    → ((run (step s closes) vs).taken ≡ s.taken) × ((run (step s closes) vs).channel.closed ≡ true)
unfolding step close
closes_taken s vs =
    let v =
      run-Shut {ts = s.taken} (step s closes) vs (record { closed = refl; taken_is = refl }) in
    (v.taken_is, v.closed)

step_pops :
    (s : System) (t : Timeout) (expired : Bool) (x : Envelope) (rest : List Envelope)
    → s.channel.queue ≡ x ∷ rest
    → step s (pops t expired)
      ≡ record s { channel = record (s.channel) { queue = rest }; given = s.given ++ x ∷ [] }
unfolding step after_pop pop
step_pops s t expired x rest e = ground arith

run_pops :
    (n : ℕ) (s : System) (t : Timeout) (expired : Bool) (x : Envelope) (rest : List Envelope)
    → s.channel.queue ≡ x ∷ rest
    → run s (replicate (suc n) (pops t expired))
      ≡ run
          (record s { channel = record (s.channel) { queue = rest }; given = s.given ++ x ∷ [] })
          (replicate n (pops t expired))
unfolding run
run_pops n s t expired x rest e =
    ap (λ q. run q (replicate n (pops t expired))) (step_pops s t expired x rest e)

-- n pops, with n at most the length of the queue, give its first n envelopes, in order, and leave the
-- others queued, whether or not the channel is closed and however long they may wait.
pub pops-take :
    (n : ℕ) (s : System) (t : Timeout) (expired : Bool)
    → n ≤ length s.channel.queue
    → ((run s (replicate n (pops t expired))).given ≡ s.given ++ take n s.channel.queue)
      × ((run s (replicate n (pops t expired))).channel.queue ≡ drop n s.channel.queue)
unfolding run
pops-take zero s t expired h = (sym (append-nil s.given), refl)
pops-take (suc n) s t expired h = elim (List-cases s.channel.queue) [
  | inl e ↦ absurd (omega (arith, ap length e))
  | inr (x, rest, e) ↦
      let s' = record s {
        channel = record (s.channel) { queue = rest };
        given = s.given ++ x ∷ [];
      } in
      let (given, queue) = pops-take n s' t expired (omega (arith, ap length e)) in
      rw (run_pops n s t expired x rest e, e)
        (given ∙ append_assoc s.given (x ∷ []) (take n rest), queue)
]

-- `pop` reports the end of the stream exactly when the channel is closed and empty.
pub pop_drained_iff :
    (c : Channel) (t : Timeout) (expired : Bool)
    → (pop c t expired ≡ done (drained, c)) ↔ ((c.closed ≡ true) × (c.queue ≡ []))
unfolding pop
pop_drained_iff c t expired = elim (List-cases c.queue) [
  | inl e ↦ (λ h. (ground arith, e), λ h. ground arith)
  | inr (x, rest, e) ↦ (λ h. absurd (ground arith), λ h. ground arith)
]

-- The first waiting push wakes up, once for each clock reading.
abbrev pub wake_each : List (Bool × ℕ) → List Event
wake_each [] = []
wake_each ((expired, elapsed) ∷ readings) = wakes 0 expired elapsed ∷ wake_each readings

step_wakes :
    (s : System) (expired : Bool) (elapsed : ℕ) (e : Envelope) (rest : List Envelope)
    → s.channel.closed ≡ true
    → s.waiting ≡ e ∷ rest
    → step s (wakes 0 expired elapsed) ≡ record s { waiting = rest; refused = e ∷ s.refused }
unfolding step wake after_push finish_push push_wake take_out
step_wakes s expired elapsed e rest c w = ground arith

turned :
    (waiting : List Envelope) (e : Envelope) (rest refused : List Envelope)
    → waiting ≡ e ∷ rest
    → reverse rest ++ e ∷ refused ≡ reverse waiting ++ refused
turned waiting e rest refused w =
    sym (append_assoc (reverse rest) (e ∷ []) refused)
    ∙ ap (λ l. l ++ refused) (sym (reverse-cons e rest))
    ∙ ap (λ l. reverse l ++ refused) (sym w)

run_wakes :
    (readings : List (Bool × ℕ)) (s : System)
    → s.channel.closed ≡ true
    → length readings ≡ length s.waiting
    → run s (wake_each readings)
      ≡ record s { waiting = []; refused = reverse s.waiting ++ s.refused }
unfolding run
run_wakes [] s c n = elim (List-cases s.waiting) [
  | inl e ↦ rw e refl
  | inr (e, rest, w) ↦ absurd (omega (arith, n, ap length w))
]
run_wakes ((expired, elapsed) ∷ readings) s c n = elim (List-cases s.waiting) [
  | inl e ↦ absurd (omega (arith, n, ap length e))
  | inr (e, rest, w) ↦
      ap (λ q. run q (wake_each readings)) (step_wakes s expired elapsed e rest c w)
      ∙ run_wakes readings (record s { waiting = rest; refused = e ∷ s.refused }) c
          (omega (arith, n, ap length w))
      ∙ ap (λ l. record s { waiting = []; refused = l }) (turned s.waiting e rest s.refused w)
]

-- Closing a channel with pushes that wait for room: once each of them in turn has woken up, in time
-- or not, none waits any more, all of them have been turned away, nothing has been taken in, and
-- the queue is as it was.
pub closes_releases :
    (s : System) (readings : List (Bool × ℕ))
    → length readings ≡ length s.waiting
    → ((run (step s closes) (wake_each readings)).waiting ≡ [])
      × ((run (step s closes) (wake_each readings)).refused ≡ reverse s.waiting ++ s.refused)
      × ((run (step s closes) (wake_each readings)).taken ≡ s.taken)
      × ((run (step s closes) (wake_each readings)).channel.queue ≡ s.channel.queue)
unfolding step close
closes_releases s readings n =
    let e = run_wakes readings (step s closes) refl n in
    (ap (λ q. q.waiting) e, ap (λ q. q.refused) e, ap (λ q. q.taken) e, ap (λ q. q.channel.queue) e)
