-- ===== src/Envelope/Size.antt =====
-- The size computation of envelope.cpp against a plain sum.
use graphx_docker.Base.{
  ap, ◌>>◌, Bool-cases, inl, inr, false, ℕ, ◌+◌, ◌≤◌, ◌≡◌, sym, ◌∙◌, List, [], ◌∷◌, Result, ok, err,
  arith, leb, ◌==◌, leb→le, if◌then◌else◌, length, total, guard-elim,
}
use graphx_docker.Wire.{too_many_attributes, Error, max_frame_bytes, envelope_exceeds_maximum}
use graphx_docker.Attributes.{Attribute, sort_attributes, attribute_less}
use graphx_docker.Attributes.Keys.{sort_attributes_unique, length-sort_attributes}
use graphx_docker.Base.Sort.{total-sort}
use mathlib.Core.List.{Perm}
use graphx_docker.Envelope.{
  Envelope, checked_add, checked_string_size, attributes_size, encoded_size, validate_serializable,
  serialized_size, envelope_wire_version, max_envelope_attributes,
}

-- The bytes of an entry on the wire, and of an envelope.
abbrev pub entry_size : Attribute → ℕ
entry_size p = 4 + length p.0 + (4 + length p.1)

abbrev pub wire_size : Envelope → ℕ
wire_size e = 72 + (4 + length e.type) + total entry_size e.attributes + (4 + length e.payload)

-- A size within the protocol's maximum, or the exception.
abbrev within : ℕ → Result Error ℕ
within n = if leb n max_frame_bytes then ok n else err envelope_exceeds_maximum

checked_add_lem : (t a : ℕ) → checked_add t a ≡ within (t + a)
unfolding checked_add
checked_add_lem t a = ground arith

checked_string_size_lem : (t n : ℕ) → checked_string_size t n ≡ within (t + 4 + n)
unfolding checked_string_size
checked_string_size_lem t n = ground (arith, checked_add_lem t 4, checked_add_lem (t + 4) n)

attributes_size_lem :
    (t : ℕ) (attributes : List Attribute)
    → t ≤ max_frame_bytes
    → attributes_size t attributes ≡ within (t + total entry_size attributes)
unfolding attributes_size
attributes_size_lem t [] h = ground arith
attributes_size_lem t ((k, v) ∷ rest) h = ground (
  arith,
  checked_string_size_lem t (length k),
  checked_string_size_lem (t + 4 + length k) (length v),
  attributes_size_lem (t + 4 + length k + 4 + length v) rest,
)

-- The envelopes that have a size: those of the current version with at most 4096 attributes
-- whose parts add up to at most 16 MiB.
pub record Fits (e : Envelope) : Type 0 where
  pub version : e.wire_version ≡ envelope_wire_version
  pub count : length e.attributes ≤ max_envelope_attributes
  pub size : wire_size e ≤ max_frame_bytes

pub encoded_size_lem :
    (e : Envelope)
    → length e.attributes ≤ max_envelope_attributes
    → encoded_size e ≡ within (wire_size e)
unfolding encoded_size
encoded_size_lem e h = ground (
  arith,
  checked_string_size_lem 72 (length e.type),
  attributes_size_lem (72 + 4 + length e.type) e.attributes,
  checked_string_size_lem (72 + 4 + length e.type + total entry_size e.attributes)
      (length e.payload),
)

encoded_size_many :
    (e : Envelope)
    → leb (length e.attributes) max_envelope_attributes ≡ false
    → encoded_size e ≡ err too_many_attributes
unfolding encoded_size
encoded_size_many e h = rw h

pub serialized_size-Fits : (e : Envelope) → Fits e → serialized_size e ≡ ok (wire_size e)
unfolding serialized_size validate_serializable
serialized_size-Fits e h = ground (arith, encoded_size_lem e h.count)

-- Whatever `serialized_size` returns is the number of bytes of the wire format, and the envelope
-- is within every limit.
pub serialized_size-eq-ok :
    (e : Envelope) {n : ℕ} → serialized_size e ≡ ok n → Fits e × (n ≡ wire_size e)
unfolding serialized_size validate_serializable encoded_size
serialized_size-eq-ok e {n} h = guard-elim (e.wire_version == envelope_wire_version) _ _ h λ v h₁.
    guard-elim (leb (length e.attributes) max_envelope_attributes) _ _ h₁ λ c h₂.
      let count = leb→le _ _ c in
      let sized : within (wire_size e) ≡ ok n = sym (encoded_size_lem e count) ∙ h₁ in
      within-ok count (ground arith) sized
  where
    within-ok :
        length e.attributes ≤ max_envelope_attributes
        → e.wire_version ≡ envelope_wire_version
        → within (wire_size e) ≡ ok n
        → Fits e × (n ≡ wire_size e)
    within-ok count version sized = ground arith

total_perm :
    (xs ys : List Attribute)
    → sort_attributes xs ≡ sort_attributes ys
    → total entry_size xs ≡ total entry_size ys
unfolding sort_attributes
total_perm xs ys e =
    sym (total-sort attribute_less entry_size xs)
    ∙ ap (total entry_size) e
    ∙ total-sort attribute_less entry_size ys

-- The size, or the exception, does not depend on the iteration order of the map.
pub serialized_size_perm :
    (e : Envelope) (xs : List Attribute)
    → Perm e.attributes xs
    → serialized_size e ≡ serialized_size (record e { attributes = xs })
unfolding serialized_size validate_serializable
serialized_size_perm e xs p = ap (◌>>◌ (validate_serializable e)) sizes
  where
    sorted : sort_attributes e.attributes ≡ sort_attributes xs
    sorted = sort_attributes_unique e.attributes xs p

    lengths : length e.attributes ≡ length xs
    lengths =
        sym (length-sort_attributes e.attributes) ∙ ap length sorted ∙ length-sort_attributes xs

    sizes : encoded_size e ≡ encoded_size (record e { attributes = xs })
    sizes = elim (Bool-cases (leb (length e.attributes) max_envelope_attributes)) [
      | inl few ↦
          encoded_size_lem e (leb→le _ _ few)
          ∙ ap within (omega (arith, total_perm e.attributes xs sorted))
          ∙ sym (
              encoded_size_lem (record e { attributes = xs })
                (omega (arith, leb→le _ _ few, lengths)))
      | inr many ↦
          encoded_size_many e many
          ∙ sym (encoded_size_many (record e { attributes = xs }) (rw (← lengths) many))
    ]
