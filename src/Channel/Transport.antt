-- ===== src/Channel/Transport.antt =====
-- `InProcessTransport` of in_process_transport.hpp and in_process_transport.cpp: one end of a
-- channel, with what it tells its trace sink. A sink that throws is not modelled.
pub mod Readable
pub mod Reach
use graphx_docker.Base.{
  ℕ, ◌+◌, ◌-◌, ◌%◌, ◌^◌, Bool, true, false, List, [], ◌∷◌, ◌++◌, Result, ok, err, ltb, ◌==◌,
  if◌then◌else◌, length,
}
use graphx_docker.Wire.{Error}
use graphx_docker.Envelope.{Envelope, serialize}
use graphx_docker.Channel.{
  Channel, accepted, channel_closed, timed_out, rejected, PushResult, PopResult, message, timeout,
  drained, Progress, done, blocked, push_enter, push_wake, Timeout, pop, close,
}

-- The calls of the trace sink, without the edge id that each carries.
pub data TraceEvent : Type 0 where
  on_send : Envelope → ℕ → TraceEvent
  on_receive : Envelope → ℕ → ℕ → TraceEvent
  on_backpressure : ℕ → Bool → TraceEvent
  on_connection_closed : TraceEvent

-- A transport, together with the channel that it shares.
pub record Endpoint : Type 0 where
  pub channel : Channel
  pub closed : Bool
  pub trace : List TraceEvent

pub data SendError : Type 0 where
  transport_closed send_channel_closed send_timed_out send_rejected : SendError
  not_serializable : Error → SendError

pub data ReceiveResult : Type 0 where
  received : Envelope → ReceiveResult
  receive_timeout end_of_stream cancelled : ReceiveResult

-- What a call gives, or what it throws, with the state that it leaves.
abbrev pub Outcome : Type 0 → Type 0 → Type 0
Outcome E A = Progress (Result E A × Endpoint)

trace_wait : Endpoint → ℕ → Endpoint
trace_wait t wait =
    if wait == 0 then t else record t { trace = t.trace ++ on_backpressure wait false ∷ [] }

trace_send : Endpoint → Envelope → ℕ → Endpoint
trace_send t e wire_bytes = record t { trace = t.trace ++ on_send e wire_bytes ∷ [] }

-- `InProcessTransport::send` behind its `push`.
unfoldable pub finish_send :
    Endpoint → Envelope → ℕ → Progress (PushResult × Channel) → Outcome SendError (Unit {0})
unfolding trace_wait trace_send
finish_send t e wire_bytes blocked = blocked
finish_send t e wire_bytes (done (r, c)) =
    let t' = record t { channel = c } in
    elim r.status [
      | accepted ↦ done (ok tt, trace_send (trace_wait t' r.wait) e wire_bytes)
      | channel_closed ↦ done (err send_channel_closed, t')
      | timed_out ↦
          done (
            err send_timed_out,
            record t' { trace = t'.trace ++ on_backpressure r.wait false ∷ [] },
          )
      | rejected ↦
          done
            (err send_rejected, record t' { trace = t'.trace ++ on_backpressure r.wait true ∷ [] })
    ]

-- `InProcessTransport::send`: the complete wire form is computed before anything is published.
unfoldable pub send : Endpoint → Envelope → Outcome SendError (Unit {0})
unfolding finish_send
send t e = if t.closed then done (err transport_closed, t) else elim (serialize e) [
  | err x ↦ done (err (not_serializable x), t)
  | ok bytes ↦ finish_send t e (length bytes) (push_enter t.channel e)
]

-- A `send` that waits in `push`, when it wakes up.
unfoldable pub send_wake : Endpoint → Envelope → ℕ → Bool → ℕ → Outcome SendError (Unit {0})
unfolding finish_send
send_wake t e wire_bytes expired elapsed =
    finish_send t e wire_bytes (push_wake t.channel e expired elapsed)

-- `max(0, now - timestamp)` on int64_t bit patterns, where the difference wraps around.
latency : ℕ → ℕ → ℕ
latency now timestamp =
    let difference = (now + (2 ^ 64 - timestamp)) % 2 ^ 64 in
    if ltb difference (2 ^ 63) then difference else 0

finish_message : Endpoint → Envelope → ℕ → Outcome Error ReceiveResult
unfolding latency
finish_message t e now = elim (serialize e) [
  | err x ↦ done (err x, t)
  | ok bytes ↦ done (
    ok (received e),
    record t { trace = t.trace ++ on_receive e (length bytes) (latency now e.timestamp_ns) ∷ [] },
  )
]

-- `InProcessTransport::receive_result` behind its `pop`. `now` is the clock, `closed` whether the
-- transport has been closed in the meantime.
unfoldable pub finish_receive :
    Endpoint → ℕ → Bool → Progress (PopResult × Channel) → Outcome Error ReceiveResult
unfolding finish_message
finish_receive t now closed blocked = blocked
finish_receive t now closed (done (message e, c)) = finish_message (record t { channel = c }) e now
finish_receive t now closed (done (timeout, c)) =
    done (ok (if closed then cancelled else receive_timeout), record t { channel = c })
finish_receive t now closed (done (drained, c)) =
    done (ok (if closed then cancelled else end_of_stream), record t { channel = c })

-- `receive_result` at its start, and when its `pop` wakes up.
unfoldable pub receive : Endpoint → Timeout → Bool → ℕ → Outcome Error ReceiveResult
unfolding finish_receive
receive t wait expired now =
    if t.closed
    then done (ok cancelled, t)
    else finish_receive t now t.closed (pop t.channel wait expired)

unfoldable pub receive_wake : Endpoint → Timeout → Bool → ℕ → Outcome Error ReceiveResult
unfolding finish_receive
receive_wake t wait expired now = finish_receive t now t.closed (pop t.channel wait expired)

-- `InProcessTransport::close`
unfoldable pub close_transport : Endpoint → Endpoint
close_transport t = if t.closed then t else record t {
  channel = close t.channel;
  closed = true;
  trace = t.trace ++ on_connection_closed ∷ [];
}
