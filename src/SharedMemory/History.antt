-- ===== src/SharedMemory/History.antt =====
-- The ring as a queue of envelopes, over any sequence of calls by both ends.
use graphx_docker.Base.{
  ℕ, suc, ◌≤◌, ◌≡◌, ◌⊎◌, refl, ap, Bool, true, List, [], ◌∷◌, ◌++◌, map, Bytes, Result, ok, err,
  length,
}
use graphx_docker.Envelope.{Envelope}
use graphx_docker.Envelope.Decode.{IsTyped}
use graphx_docker.Attributes.{sort_attributes}
use graphx_docker.Channel.{done, Backpressure}
use graphx_docker.SharedMemory.{
  Ring, new_ring, prepare, SharedMemoryError, LockStatus, WaitStatus, send, send_woken,
  ReceiveResult, message, timeout, end_of_stream, cancelled, receive, receive_woken, connect,
  request_close,
}
use graphx_docker.SharedMemory.Queue.{IsRing, contents}
use graphx_docker.SharedMemory.Transfer.{Carries}

-- An envelope as it arrives.
abbrev pub arrived : Envelope → Envelope
arrived e = record e { attributes = sort_attributes e.attributes }

-- The envelopes sent after a `send`, and those received after a `receive_result`.
abbrev pub sent_log : List Envelope → Envelope → Result SharedMemoryError (Unit {0}) → List Envelope
sent_log es e (ok u) = es ++ e ∷ []
sent_log es e (err x) = es

abbrev pub received_log : List Envelope → Result SharedMemoryError ReceiveResult → List Envelope
received_log gs (ok (message g)) = gs ++ g ∷ []
received_log gs (ok timeout) = gs
received_log gs (ok end_of_stream) = gs
received_log gs (ok cancelled) = gs
received_log gs (err x) = gs

-- Any calls on a ring from its creation, with what they sent, what they received and the ring they
-- leave. Both ends have the ring's maximum message size, as `connect` checks.
pub data Run (capacity m pid : ℕ) : List Envelope → List Envelope → Ring → Type 0 where
  created : Run capacity m pid [] [] (new_ring capacity m pid)
  sends :
      {es gs : List Envelope} {r : Ring}
      → Run capacity m pid es gs r
      → (exists : ℕ → Bool) (closed : Bool) (policy : Backpressure) (status : LockStatus)
        (expired : Bool) (e : Envelope) (x : Result SharedMemoryError (Unit {0})) (r' : Ring)
      → IsTyped e
      → send exists closed m policy status expired e r ≡ done (x, r')
      → Run capacity m pid (sent_log es e x) gs r'
  send_wakes :
      {es gs : List Envelope} {r : Ring}
      → Run capacity m pid es gs r
      → (exists : ℕ → Bool) (closed : Bool) (policy : Backpressure) (status : WaitStatus)
        (expired : Bool) (e : Envelope) (f : Bytes) (x : Result SharedMemoryError (Unit {0}))
        (r' : Ring)
      → IsTyped e
      → prepare closed m e ≡ ok f
      → send_woken exists policy status expired f r ≡ done (x, r')
      → Run capacity m pid (sent_log es e x) gs r'
  receives :
      {es gs : List Envelope} {r : Ring}
      → Run capacity m pid es gs r
      → (exists : ℕ → Bool) (status : LockStatus) (before closed expired : Bool)
        (x : Result SharedMemoryError ReceiveResult) (r' : Ring)
      → receive exists status before closed expired r ≡ done (x, r')
      → Run capacity m pid es (received_log gs x) r'
  receive_wakes :
      {es gs : List Envelope} {r : Ring}
      → Run capacity m pid es gs r
      → (exists : ℕ → Bool) (status : WaitStatus) (closed expired : Bool)
        (x : Result SharedMemoryError ReceiveResult) (r' : Ring)
      → receive_woken exists status closed expired r ≡ done (x, r')
      → Run capacity m pid es (received_log gs x) r'
  connects :
      {es gs : List Envelope} {r : Ring}
      → Run capacity m pid es gs r
      → (exists : ℕ → Bool) (status : LockStatus) (producer : ℕ)
        (x : Result SharedMemoryError (Unit {0})) (r' : Ring)
      → connect exists status producer r ≡ done (x, r')
      → Run capacity m pid es gs r'
  closes :
      {es gs : List Envelope} {r : Ring}
      → Run capacity m pid es gs r
      → (status : LockStatus) (producer : Bool) (process : ℕ)
      → Run capacity m pid es gs (request_close status producer process r)

-- Frame by frame, the envelopes they carry.
abbrev pub CarriesAll : List Bytes → List Envelope → Type 0
CarriesAll [] [] = Unit
CarriesAll [] (e ∷ es) = ⊥
CarriesAll (f ∷ fs) [] = ⊥
CarriesAll (f ∷ fs) (e ∷ es) = (IsTyped e × Carries f e) × CarriesAll fs es

pub CarriesAll-snoc :
    (fs : List Bytes) (es : List Envelope) (f : Bytes) (e : Envelope)
    → CarriesAll fs es
    → IsTyped e
    → Carries f e
    → CarriesAll (fs ++ f ∷ []) (es ++ e ∷ [])
CarriesAll-snoc [] [] f e h t c = ((t, c), tt)
CarriesAll-snoc [] (d ∷ es) f e h t c = absurd h
CarriesAll-snoc (g ∷ fs) [] f e h t c = absurd h
CarriesAll-snoc (g ∷ fs) (d ∷ es) f e h t c = (h.0, CarriesAll-snoc fs es f e h.1 t c)

pub CarriesAll-length :
    (fs : List Bytes) (es : List Envelope) → CarriesAll fs es → length es ≡ length fs
CarriesAll-length [] [] h = refl
CarriesAll-length [] (d ∷ es) h = absurd h
CarriesAll-length (g ∷ fs) [] h = absurd h
CarriesAll-length (g ∷ fs) (d ∷ es) h = ap suc (CarriesAll-length fs es h.1)

-- What is sent has been received or stands in the ring. Only a ring that has been recovered, and so
-- closed and emptied, may have lost the rest.
abbrev pub Pending : List Envelope → List Envelope → Ring → Type 0
Pending es gs r =
    (q : List Envelope) × CarriesAll (contents r) q × (map arrived es ≡ gs ++ map arrived q)

abbrev pub Lost : List Envelope → List Envelope → Ring → Type 0
Lost es gs r =
    (r.closed ≡ true) × (contents r ≡ []) × ((rest : List Envelope) × (map arrived es ≡ gs ++ rest))

pub record Inv (m : ℕ) (es gs : List Envelope) (r : Ring) : Type 0 where
  pub ring : IsRing r
  pub limit : r.max_message_bytes ≡ m
  pub counted : r.head ≤ length es
  pub history : Pending es gs r ⊎ Lost es gs r
