-- ===== src/Channel/System.antt =====
-- Any number of producers and consumers on one channel: an interleaving is a list of events, each
-- a step of some call under the mutex.
use graphx_docker.Base.{ℕ, zero, suc, Bool, List, [], ◌∷◌, ◌++◌, Option, none, some}
use graphx_docker.Envelope.{Envelope}
use graphx_docker.Channel.{
  Channel, PushStatus, accepted, PushResult, PopResult, message, timeout, drained, Progress, done,
  blocked, push_enter, push_wake, Timeout, pop, close,
}

pub data Event : Type 0 where
  -- A producer calls `push`; the i-th waiting producer wakes up.
  pushes : Envelope → Event
  wakes : ℕ → Bool → ℕ → Event
  -- A consumer runs or resumes `pop`; somebody closes the channel.
  pops : Timeout → Bool → Event
  closes : Event

-- The channel, the envelopes whose `push` is waiting, and the history: what was taken in, given
-- out, and turned away.
pub record System : Type 0 where
  pub channel : Channel
  pub waiting : List Envelope
  pub taken : List Envelope
  pub given : List Envelope
  pub refused : List Envelope

unfoldable pub finish_push : System → Envelope → PushStatus → Channel → System
finish_push s e accepted c = record s { channel = c; taken = s.taken ++ e ∷ [] }
finish_push s e _ c = record s { channel = c; refused = e ∷ s.refused }

unfoldable pub after_push : System → Envelope → Progress (PushResult × Channel) → System
unfolding finish_push
after_push s e (done (r, c)) = finish_push s e r.status c
after_push s e blocked = record s { waiting = e ∷ s.waiting }

unfoldable pub after_pop : System → Progress (PopResult × Channel) → System
after_pop s (done (message e, c)) = record s { channel = c; given = s.given ++ e ∷ [] }
after_pop s (done (timeout, c)) = record s { channel = c }
after_pop s (done (drained, c)) = record s { channel = c }
after_pop s blocked = s

-- The i-th entry and the others.
unfoldable pub take_out : ℕ → List Envelope → Option (Envelope × List Envelope)
take_out i [] = none
take_out zero (e ∷ es) = some (e, es)
take_out (suc i) (e ∷ es) = elim (take_out i es) [
  | none ↦ none
  | some (x, rest) ↦ some (x, e ∷ rest)
]

unfoldable pub wake : System → Bool → ℕ → Option (Envelope × List Envelope) → System
unfolding after_push
wake s expired elapsed none = s
wake s expired elapsed (some (e, rest)) =
    after_push (record s { waiting = rest }) e (push_wake s.channel e expired elapsed)

unfoldable pub step : System → Event → System
unfolding after_push after_pop wake
step s (pushes e) = after_push s e (push_enter s.channel e)
step s (wakes i expired elapsed) = wake s expired elapsed (take_out i s.waiting)
step s (pops t expired) = after_pop s (pop s.channel t expired)
step s closes = record s { channel = close s.channel }

unfoldable pub run : System → List Event → System
unfolding step
run s [] = s
run s (v ∷ vs) = run (step s v) vs

unfoldable pub start : Channel → System
start c = record { channel = c; waiting = []; taken = []; given = []; refused = [] }
