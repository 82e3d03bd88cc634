-- ===== src/Channel.antt =====
-- The bounded queue of in_process_transport.cpp. A call that waits on a condition variable is two
-- steps: what it does under the mutex until it waits, and what it does each time it wakes up with
-- the mutex held. Wake-ups may be spurious, so `notify` has no state of its own. Clock readings
-- are arguments: `expired` says that the wait's deadline has passed, `elapsed` is the time since
-- the call began.
pub mod System
pub mod Fifo
pub mod Close
pub mod Transport
use graphx_docker.Base.{
  ℕ, ◌+◌, ◌≤◌, Bool, true, false, not, ◌||◌, List, [], ◌∷◌, ◌++◌, Option, none, some, Result, ok,
  err, ◌>>=◌, ◌>>◌, guard, leb, ltb, ◌==◌, if◌then◌else◌, length,
}
use graphx_docker.Envelope.{Envelope}

pub data Backpressure : Type 0 where
  block reject : Backpressure

-- `send_timeout` in milliseconds; the code only asks whether a count is positive, and a negative
-- count is a zero here.
pub record Options : Type 0 where
  pub capacity : ℕ
  pub backpressure : Backpressure
  pub send_timeout : ℕ

pub data ChannelError : Type 0 where
  capacity_out_of_range send_timeout_not_positive : ChannelError

pub record Channel : Type 0 where
  pub options : Options
  pub queue : List Envelope
  pub closed : Bool

pub data PushStatus : Type 0 where
  accepted channel_closed timed_out rejected : PushStatus

pub record PushResult : Type 0 where
  pub status : PushStatus
  pub wait : ℕ

pub data PopResult : Type 0 where
  message : Envelope → PopResult
  timeout drained : PopResult

-- A step of a call: it returns, or it waits on.
pub data Progress (A : Type 0) : Type 0 where
  done : A → Progress A
  blocked : Progress A

-- The constructor of `InProcessChannel`.
unfoldable pub new_channel : Options → Result ChannelError Channel
new_channel o = do
  guard (not (o.capacity == 0 || ltb 65536 o.capacity)) capacity_out_of_range
  guard (not (o.send_timeout == 0)) send_timeout_not_positive
  ok (record { options = o; queue = []; closed = false })

abbrev is_full : Channel → Bool
is_full c = leb c.options.capacity (length c.queue)

enqueue : Channel → Envelope → Channel
enqueue c e = record c { queue = c.queue ++ e ∷ [] }

full_push : Backpressure → Channel → Progress (PushResult × Channel)
full_push reject c = done (record { status = rejected; wait = 0 }, c)
full_push block c = blocked

-- `InProcessChannel::push` up to its wait.
unfoldable pub push_enter : Channel → Envelope → Progress (PushResult × Channel)
unfolding enqueue full_push
push_enter c e =
    if c.closed
    then done (record { status = channel_closed; wait = 0 }, c)
    else if is_full c
    then full_push c.options.backpressure c
    else done (record { status = accepted; wait = 0 }, enqueue c e)

-- `InProcessChannel::push` when `not_full_.wait_for` looks at its predicate again.
unfoldable pub push_wake : Channel → Envelope → Bool → ℕ → Progress (PushResult × Channel)
unfolding enqueue
push_wake c e expired elapsed =
    if c.closed || not (is_full c)
    then (if c.closed
        then done (record { status = channel_closed; wait = elapsed }, c)
        else done (record { status = accepted; wait = elapsed }, enqueue c e))
    else if expired
    then done (record { status = timed_out; wait = elapsed }, c)
    else blocked

-- How long `pop` waits: a negative timeout is none.
pub data Timeout : Type 0 where
  forever finite : Timeout

abbrev pop_wait : Timeout → Bool → Channel → Progress (PopResult × Channel)
pop_wait forever expired c = blocked
pop_wait finite true c = done (timeout, c)
pop_wait finite false c = blocked

pop_front : List Envelope → Channel → Progress (PopResult × Channel)
pop_front [] c = done (drained, c)
pop_front (e ∷ rest) c = done (message e, record c { queue = rest })

abbrev is_empty : List Envelope → Bool
is_empty [] = true
is_empty (_ ∷ _) = false

-- `InProcessChannel::pop`, at its start and at each wake-up.
unfoldable pub pop : Channel → Timeout → Bool → Progress (PopResult × Channel)
unfolding pop_front
pop c t expired =
    if not (c.closed || not (is_empty c.queue)) then pop_wait t expired c else pop_front c.queue c

-- `InProcessChannel::close`
unfoldable pub close : Channel → Channel
close c = record c { closed = true }
