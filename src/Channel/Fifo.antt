-- ===== src/Channel/Fifo.antt =====
-- What every interleaving of calls on a channel keeps: order, capacity, and every envelope.
use mathlib.Core.List.{Perm, perm_middle, perm_append_comm}
use mathlib.Core.List.Perm
use graphx_docker.Base.{
  ℕ, zero, suc, ◌≤◌, ◌≡◌, refl, ap, ◌∙◌, Bool, List, [], ◌∷◌, ◌++◌, Option, none, some, ok, arith,
  length, length-append, append_assoc, append-nil, List-cases, Option-cases, inl, inr,
}
use graphx_docker.Envelope.{Envelope}
use graphx_docker.Channel.{
  Channel, Options, new_channel, PushStatus, accepted, channel_closed, timed_out, rejected,
  PushResult, PopResult, message, timeout, drained, Progress, done, blocked, push_enter, push_wake,
  Timeout, pop, close,
}
use graphx_docker.Channel.System.{
  Event, pushes, wakes, pops, closes, System, finish_push, after_push, after_pop, take_out, wake,
  step, run, start,
}

-- First in, first out, and never more than the capacity.
pub record Inv (o : Options) (s : System) : Type 0 where
  pub fifo : s.taken ≡ s.given ++ s.channel.queue
  pub kept : s.channel.options ≡ o
  pub bounded : length s.channel.queue ≤ o.capacity

concat_queue :
    (taken given queue : List Envelope) (e : Envelope)
    → taken ≡ given ++ queue
    → taken ++ e ∷ [] ≡ given ++ (queue ++ e ∷ [])
concat_queue taken given queue e h = ap (λ xs. xs ++ e ∷ []) h ∙ append_assoc given queue (e ∷ [])

push_enter-Inv :
    {o : Options} (s : System) (e : Envelope)
    → Inv o s
    → Inv o (after_push s e (push_enter s.channel e))
unfolding after_push finish_push push_enter
push_enter-Inv s e v = ground (
  arith,
  concat_queue s.taken s.given s.channel.queue e v.fifo,
  length-append s.channel.queue (e ∷ []),
)

push_wake-Inv :
    {o : Options} (s : System) (e : Envelope) (rest : List Envelope) (expired : Bool) (elapsed : ℕ)
    → Inv o s
    → Inv o (after_push (record s { waiting = rest }) e (push_wake s.channel e expired elapsed))
unfolding after_push finish_push push_wake
push_wake-Inv s e rest expired elapsed v = ground (
  arith,
  concat_queue s.taken s.given s.channel.queue e v.fifo,
  length-append s.channel.queue (e ∷ []),
)

pop-Inv :
    {o : Options} (s : System) (t : Timeout) (expired : Bool)
    → Inv o s
    → Inv o (after_pop s (pop s.channel t expired))
unfolding after_pop pop
pop-Inv s t expired v = elim (List-cases s.channel.queue) [
  | inl e ↦ ground arith
  | inr (x, rest, e) ↦ ground (arith, append_assoc s.given (x ∷ []) rest)
]

wake-Inv :
    {o : Options} (s : System) (expired : Bool) (elapsed : ℕ)
    (found : Option (Envelope × List Envelope))
    → Inv o s
    → Inv o (wake s expired elapsed found)
unfolding wake
wake-Inv s expired elapsed none v = v
wake-Inv s expired elapsed (some (e, rest)) v = push_wake-Inv s e rest expired elapsed v

step-Inv : {o : Options} (s : System) (v : Event) → Inv o s → Inv o (step s v)
unfolding step close
step-Inv s (pushes e) v = push_enter-Inv s e v
step-Inv s (wakes i expired elapsed) v = wake-Inv s expired elapsed (take_out i s.waiting) v
step-Inv s (pops t expired) v = pop-Inv s t expired v
step-Inv s closes v = record { fifo = v.fifo; kept = v.kept; bounded = v.bounded }

run-Inv : {o : Options} (s : System) (vs : List Event) → Inv o s → Inv o (run s vs)
unfolding run
run-Inv s [] v = v
run-Inv s (x ∷ vs) v = run-Inv (step s x) vs (step-Inv s x v)

-- Every envelope that a producer offered, wherever it is now.
abbrev pub everything : System → List Envelope
everything s = s.waiting ++ (s.refused ++ s.taken)

unfoldable pub offered : Event → List Envelope
offered (pushes e) = e ∷ []
offered _ = []

unfoldable pub offered_all : List Event → List Envelope
unfolding offered
offered_all [] = []
offered_all (v ∷ vs) = offered v ++ offered_all vs

finish_push-perm :
    (s : System) (e : Envelope) (status : PushStatus) (c : Channel)
    → Perm (everything (finish_push s e status c)) (e ∷ everything s)
unfolding finish_push
finish_push-perm s e accepted c =
    rw
      (
        ← append_assoc s.refused s.taken (e ∷ []),
        ← append_assoc s.waiting (s.refused ++ s.taken) (e ∷ []),
      )
      (rw append-nil at (perm_middle {a = e} (s.waiting ++ (s.refused ++ s.taken)) []))
finish_push-perm s e channel_closed c = perm_middle s.waiting (s.refused ++ s.taken)
finish_push-perm s e timed_out c = perm_middle s.waiting (s.refused ++ s.taken)
finish_push-perm s e rejected c = perm_middle s.waiting (s.refused ++ s.taken)

after_push-perm :
    (s : System) (e : Envelope) (p : Progress (PushResult × Channel))
    → Perm (everything (after_push s e p)) (e ∷ everything s)
unfolding after_push
after_push-perm s e (done (r, c)) = finish_push-perm s e r.status c
after_push-perm s e blocked = Perm.refl _

take_out-perm :
    (i : ℕ) (es rest : List Envelope) (e : Envelope)
    → take_out i es ≡ some (e, rest)
    → Perm es (e ∷ rest)
unfolding take_out
take_out-perm i [] rest e h = cc
take_out-perm zero (x ∷ es) rest e h =
    let p : x ∷ es ≡ e ∷ rest = ground arith in rw p (Perm.refl _)
take_out-perm (suc i) (x ∷ es) rest e h = elim (Option-cases (take_out i es)) [
  | inl n ↦ absurd (cut n)
  | inr ((y, ys), m) ↦
      let p : e ∷ rest ≡ y ∷ x ∷ ys = found m in
      rw p (Perm.trans (Perm.cons x (take_out-perm i es ys y m)) (Perm.swap y x ys))
]
  where
    cut : take_out i es ≡ none → ⊥
    cut n = ground arith

    found :
        {y : Envelope} {ys : List Envelope} → take_out i es ≡ some (y, ys) → e ∷ rest ≡ y ∷ x ∷ ys
    found m = ground arith

wake-perm :
    (s : System) (i : ℕ) (expired : Bool) (elapsed : ℕ)
    → Perm (everything (wake s expired elapsed (take_out i s.waiting))) (everything s)
unfolding wake
wake-perm s i expired elapsed = elim (Option-cases (take_out i s.waiting)) [
  | inl n ↦ rw (n, wake) (Perm.refl _)
  | inr ((e, rest), m) ↦
      rw (m, wake)
        (Perm.trans
          (after_push-perm (record s { waiting = rest }) e (push_wake s.channel e expired elapsed))
          (Perm.append_right (s.refused ++ s.taken)
            (Perm.symm (take_out-perm i s.waiting rest e m))))
]

everything-after_pop :
    (s : System) (p : Progress (PopResult × Channel)) → everything (after_pop s p) ≡ everything s
unfolding after_pop
everything-after_pop s (done (message e, c)) = refl
everything-after_pop s (done (timeout, c)) = refl
everything-after_pop s (done (drained, c)) = refl
everything-after_pop s blocked = refl

step-perm : (s : System) (v : Event) → Perm (everything (step s v)) (offered v ++ everything s)
unfolding step offered
step-perm s (pushes e) = after_push-perm s e (push_enter s.channel e)
step-perm s (wakes i expired elapsed) = wake-perm s i expired elapsed
step-perm s (pops t expired) = rw everything-after_pop (Perm.refl _)
step-perm s closes = Perm.refl _

run-perm :
    (s : System) (vs : List Event) → Perm (everything (run s vs)) (offered_all vs ++ everything s)
unfolding run offered_all
run-perm s [] = Perm.refl _
run-perm s (v ∷ vs) = Perm.trans (run-perm (step s v) vs) (
    Perm.trans (Perm.append_left (offered_all vs) (step-perm s v)) (
      rw (← append_assoc (offered_all vs) (offered v) (everything s))
        (Perm.append_right (everything s) (perm_append_comm (offered_all vs) (offered v)))))

start-Inv : (o : Options) (c : Channel) → new_channel o ≡ ok c → Inv o (start c)
unfolding new_channel start
start-Inv o c e = ground arith

-- Whatever the producers, the consumers and the clock do: the envelopes given out are those taken
-- in, in the same order, less those still queued; the queue never exceeds the capacity; and each
-- envelope that was offered was taken in, was turned away, or waits, as often as it was offered.
pub run_history :
    (o : Options) (c : Channel) (vs : List Event)
    → new_channel o ≡ ok c
    → ((run (start c) vs).taken ≡ (run (start c) vs).given ++ (run (start c) vs).channel.queue)
      × (length (run (start c) vs).channel.queue ≤ o.capacity)
      × Perm (everything (run (start c) vs)) (offered_all vs)
unfolding start
run_history o c vs e =
    let v = run-Inv (start c) vs (start-Inv o c e) in
    (v.fifo, v.bounded, rw append-nil at (run-perm (start c) vs))
