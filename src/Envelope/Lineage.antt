-- ===== src/Envelope/Lineage.antt =====
-- Chains of `Envelope::derive`: what a message's descendants know of it.
use graphx_docker.Base.{ℕ, ◌≡◌, List, [], ◌∷◌, Bytes}
use graphx_docker.Identity.RoundTrip.{IsIdentity}
use graphx_docker.Envelope.{Envelope}
use graphx_docker.Envelope.Make.{generate_identity, Fresh, derive}

-- What one `make` reads: the system clock, the process entropy, and for each of its two calls of
-- `generate_identity` the counter and the steady clock.
pub record Readings : Type 0 where
  pub now_ns : ℕ
  pub entropy : ℕ
  pub trace_ordinal : ℕ
  pub trace_now : ℕ
  pub message_ordinal : ℕ
  pub message_now : ℕ

-- The two identities of `make`, in the order of its members.
unfoldable pub fresh_of : Readings → Fresh
fresh_of r = record {
  now_ns = r.now_ns;
  trace = generate_identity r.entropy r.trace_ordinal r.trace_now;
  message = generate_identity r.entropy r.message_ordinal r.message_now;
}

-- One derivation: its readings, sequence number, type and payload.
abbrev pub Derivation : Type 0
Derivation = Readings × ℕ × Bytes × Bytes

-- A pipeline, in which each envelope is derived from the one before.
unfoldable pub derive_all : Envelope → List Derivation → List Envelope
unfolding derive fresh_of
derive_all parent [] = []
derive_all parent ((readings, sequence, type, payload) ∷ derivations) =
    let child = derive (fresh_of readings) parent sequence type payload in
    child ∷ derive_all child derivations

-- Each envelope is of the trace, names the message before it as its parent, and has an identity of
-- its own.
abbrev pub Descends : Bytes → Bytes → List Envelope → Type 0
Descends trace parent [] = Unit
Descends trace parent (e ∷ envelopes) =
    (e.trace_id ≡ trace)
    × (e.parent_message_id ≡ parent)
    × IsIdentity e.message_id
    × Descends trace e.message_id envelopes
