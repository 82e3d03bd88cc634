-- ===== src/Observability/Composite.antt =====
-- `CompositeTraceSink`: the sinks that it points to live in one store `S`, and each call goes to
-- all of them, in the order in which they were added.
use graphx_docker.Base.{ℕ, ◌≡◌, refl, ap, ◌∙◌, Bool, List, [], ◌∷◌, ◌++◌, Bytes, ℤ}
use graphx_docker.Envelope.{Envelope}
use graphx_docker.Observability.{
  ConnectionState, UdpEvent, TraceSink, Call, send_call, receive_call, error_call, connection_call,
  reconnect_call, backpressure_call, processing_call, heartbeat_call, udp_event_call, dispatch,
  dispatch_all,
}

module _ {S : Type 0} where
  -- `for (auto* sink : sinks_)`
  unfoldable pub for_each : List (TraceSink S) → (TraceSink S → S → S) → S → S
  for_each [] f s = s
  for_each (sink ∷ sinks) f s = for_each sinks f (f sink s)

  -- `add`
  abbrev pub add : List (TraceSink S) → TraceSink S → List (TraceSink S)
  add sinks sink = sinks ++ sink ∷ []

  on_send : List (TraceSink S) → Bytes → Envelope → ℕ → S → S
  unfolding for_each
  on_send sinks edge_id envelope wire_bytes =
      for_each sinks λ sink. sink.on_send edge_id envelope wire_bytes

  on_receive : List (TraceSink S) → Bytes → Envelope → ℕ → ℤ → S → S
  unfolding for_each
  on_receive sinks edge_id envelope wire_bytes latency =
      for_each sinks λ sink. sink.on_receive edge_id envelope wire_bytes latency

  on_error : List (TraceSink S) → Bytes → Bytes → S → S
  unfolding for_each
  on_error sinks edge_id message = for_each sinks λ sink. sink.on_error edge_id message

  on_connection : List (TraceSink S) → Bytes → ConnectionState → S → S
  unfolding for_each
  on_connection sinks edge_id state = for_each sinks λ sink. sink.on_connection edge_id state

  on_reconnect : List (TraceSink S) → Bytes → S → S
  unfolding for_each
  on_reconnect sinks edge_id = for_each sinks λ sink. sink.on_reconnect edge_id

  on_backpressure : List (TraceSink S) → Bytes → ℤ → Bool → S → S
  unfolding for_each
  on_backpressure sinks edge_id duration rejected =
      for_each sinks λ sink. sink.on_backpressure edge_id duration rejected

  on_udp_event : List (TraceSink S) → Bytes → UdpEvent → ℕ → S → S
  unfolding for_each
  on_udp_event sinks edge_id event count =
      for_each sinks λ sink. sink.on_udp_event edge_id event count

  on_processing : List (TraceSink S) → Bytes → Envelope → ℤ → Bool → S → S
  unfolding for_each
  on_processing sinks node_id envelope duration success =
      for_each sinks λ sink. sink.on_processing node_id envelope duration success

  on_heartbeat : List (TraceSink S) → Bytes → Bytes → S → S
  unfolding for_each
  on_heartbeat sinks node_id cpu_percent =
      for_each sinks λ sink. sink.on_heartbeat node_id cpu_percent

  -- The virtual table of the class.
  unfoldable pub composite : List (TraceSink S) → TraceSink S
  unfolding on_send on_receive on_error on_connection on_reconnect on_backpressure on_udp_event
      on_processing on_heartbeat
  composite sinks = record {
    on_send = on_send sinks;
    on_receive = on_receive sinks;
    on_error = on_error sinks;
    on_connection = on_connection sinks;
    on_reconnect = on_reconnect sinks;
    on_backpressure = on_backpressure sinks;
    on_processing = on_processing sinks;
    on_heartbeat = on_heartbeat sinks;
    on_udp_event = on_udp_event sinks;
  }

  dispatch-composite :
      (sinks : List (TraceSink S)) (call : Call) (s : S)
      → dispatch (composite sinks) call s ≡ for_each sinks (λ sink. dispatch sink call) s
  unfolding dispatch composite
  dispatch-composite sinks (send_call _ _ _) s = refl
  dispatch-composite sinks (receive_call _ _ _ _) s = refl
  dispatch-composite sinks (error_call _ _) s = refl
  dispatch-composite sinks (connection_call _ _) s = refl
  dispatch-composite sinks (reconnect_call _) s = refl
  dispatch-composite sinks (backpressure_call _ _ _) s = refl
  dispatch-composite sinks (processing_call _ _ _ _) s = refl
  dispatch-composite sinks (heartbeat_call _ _) s = refl
  dispatch-composite sinks (udp_event_call _ _ _) s = refl

  for_each-append :
      (before after : List (TraceSink S)) (f : TraceSink S → S → S) (s : S)
      → for_each (before ++ after) f s ≡ for_each after f (for_each before f s)
  unfolding for_each
  for_each-append [] after f s = refl
  for_each-append (sink ∷ before) after f s = for_each-append before after f (f sink s)

-- A sink keeps its own state in a part of the store: `view` reads that part.
module _ {S T : Type 0} (view : S → T) where
  -- No call of the sink touches the part.
  abbrev pub IsForeign : TraceSink S → Type 0
  IsForeign sink = (call : Call) (s : S) → view (dispatch sink call s) ≡ view s

  abbrev pub AllForeign : List (TraceSink S) → Type 0
  AllForeign [] = Unit
  AllForeign (sink ∷ sinks) = IsForeign sink × AllForeign sinks

  -- The calls of the sink change the part as those of `own` change their state.
  abbrev pub Implements : TraceSink S → TraceSink T → Type 0
  Implements sink own =
      (call : Call) (s : S) → view (dispatch sink call s) ≡ dispatch own call (view s)

  for_each-AllForeign :
      (sinks : List (TraceSink S)) (call : Call) (s : S)
      → AllForeign sinks
      → view (for_each sinks (λ sink. dispatch sink call) s) ≡ view s
  unfolding for_each
  for_each-AllForeign [] call s h = refl
  for_each-AllForeign (sink ∷ sinks) call s h =
      for_each-AllForeign sinks call (dispatch sink call s) h.1 ∙ h.0 call s

  module _ (before after : List (TraceSink S)) (sink : TraceSink S) (own : TraceSink T)
      (apart_before : AllForeign before) (apart_after : AllForeign after)
      (implements : Implements sink own) where
    view-dispatch :
        (call : Call) (s : S)
        → view (dispatch (composite (before ++ sink ∷ after)) call s) ≡ dispatch own call (view s)
    unfolding for_each
    view-dispatch call s =
        let each : (TraceSink S → S → S) = λ one. dispatch one call in
        ap view (dispatch-composite (before ++ sink ∷ after) call s)
        ∙ ap view (for_each-append before (sink ∷ after) each s)
        ∙ for_each-AllForeign after call (dispatch sink call (for_each before each s)) apart_after
        ∙ implements call (for_each before each s)
        ∙ ap (dispatch own call) (for_each-AllForeign before call s apart_before)

    -- A sink of a composite, which the others do not touch, ends as if it alone had been called:
    -- each call reaches it once, with all arguments, in order, whichever sinks stand before and
    -- behind it.
    pub dispatch_all-composite :
        (calls : List Call) (s : S)
        → view (dispatch_all (composite (before ++ sink ∷ after)) calls s)
          ≡ dispatch_all own calls (view s)
    unfolding dispatch_all
    dispatch_all-composite [] s = refl
    dispatch_all-composite (call ∷ calls) s =
        dispatch_all-composite calls (dispatch (composite (before ++ sink ∷ after)) call s)
        ∙ ap (dispatch_all own calls) (view-dispatch call s)
