-- ===== src/Envelope.antt =====
-- The envelope of envelope.hpp and envelope.cpp: its fields, its wire format, and how a new one
-- is made. Clocks and identities that the runtime supplies are arguments.
pub mod Size
pub mod Encode
pub mod Decode
pub mod Canonical
pub mod Make
pub mod Lineage
use graphx_docker.Base.{
  ℕ, ◌+◌, ◌-◌, Bool, true, false, List, [], ◌∷◌, ◌++◌, Bytes, Result, ok, err, ◌>>=◌, ◌>>◌, guard,
  leb, ltb, ◌==◌, ◌||◌, if◌then◌else◌, length,
}
use graphx_docker.Wire.{
  Error, max_frame_bytes, put, put_string, get, get_string, envelope_exceeds_maximum,
  too_many_attributes, wire_version_unsupported, envelope_version_unsupported, invalid_magic,
  attributes_out_of_range, trailing_bytes,
}
use graphx_docker.Wire
use graphx_docker.Identity.{is_canonical_identity, put_identity, get_identity}
use graphx_docker.Attributes.{Attribute, sort_attributes, put_attributes, get_attributes}

-- kEnvelopeWireVersion and kMaxEnvelopeAttributes
abbrev pub envelope_wire_version : ℕ
envelope_wire_version = 2

abbrev pub max_envelope_attributes : ℕ
max_envelope_attributes = 4096

-- `timestamp_ns`, an int64_t, is its bit pattern, as the wire carries it.
pub record Envelope : Type 0 where
  pub sequence : ℕ
  pub timestamp_ns : ℕ
  pub type : Bytes
  pub trace_id : Bytes
  pub attributes : List Attribute
  pub payload : Bytes
  pub message_id : Bytes
  pub parent_message_id : Bytes
  pub wire_version : ℕ

unfoldable pub checked_add : ℕ → ℕ → Result Error ℕ
checked_add total amount =
    if ltb max_frame_bytes amount || ltb (max_frame_bytes - amount) total
    then err envelope_exceeds_maximum
    else ok (total + amount)

unfoldable pub checked_string_size : ℕ → ℕ → Result Error ℕ
unfolding checked_add
checked_string_size total size = do total' ← checked_add total 4; checked_add total' size

-- The attribute loop of `encoded_size`.
unfoldable pub attributes_size : ℕ → List Attribute → Result Error ℕ
unfolding checked_string_size
attributes_size total [] = ok total
attributes_size total ((key, value) ∷ rest) = do
  total₁ ← checked_string_size total (length key)
  total₂ ← checked_string_size total₁ (length value)
  attributes_size total₂ rest

unfoldable pub encoded_size : Envelope → Result Error ℕ
unfolding checked_string_size attributes_size
encoded_size e = do
  guard (leb (length e.attributes) max_envelope_attributes) too_many_attributes
  total ← checked_string_size 72 (length e.type)
  total' ← attributes_size total e.attributes
  checked_string_size total' (length e.payload)

unfoldable pub validate_serializable : Envelope → Result Error (Unit {0})
validate_serializable e =
    guard (e.wire_version == envelope_wire_version) (wire_version_unsupported e.wire_version)

unfoldable pub serialized_size : Envelope → Result Error ℕ
unfolding encoded_size validate_serializable
serialized_size e = do validate_serializable e; encoded_size e

-- `serialize`. The size is computed first, for its exceptions.
unfoldable pub serialize : Envelope → Result Error Bytes
unfolding serialized_size
serialize e = do
  size ← serialized_size e
  message ← put_identity e.message_id Wire.message_id false
  trace ← put_identity e.trace_id Wire.trace_id false
  parent ← put_identity e.parent_message_id Wire.parent_message_id true
  type ← put_string e.type
  let sorted = sort_attributes e.attributes
  attributes ← put_attributes sorted
  payload ← put_string e.payload
  ok (
      b'G' ∷ b'X' ∷ b'E' ∷ e.wire_version ∷ put 8 e.sequence
      ++ (put 8 e.timestamp_ns
          ++ (message
              ++ (trace
                  ++ (parent ++ (type ++ (put 4 (length sorted) ++ (attributes ++ payload))))))))

-- `Reader::done`
abbrev pub is_done : Bytes → Bool
is_done [] = true
is_done (_ ∷ _) = false

-- The part of `deserialize` behind the version byte.
unfoldable pub get_fields : ℕ → Bytes → Result Error Envelope
get_fields version r = do
  (sequence, r₁) ← get 8 r
  (timestamp_ns, r₂) ← get 8 r₁
  (message_id, r₃) ← get_identity false r₂
  (trace_id, r₄) ← get_identity false r₃
  (parent_message_id, r₅) ← get_identity true r₄
  (type, r₆) ← get_string r₅
  (attribute_count, r₇) ← get 4 r₆
  guard (leb attribute_count max_envelope_attributes) attributes_out_of_range
  (attributes, r₈) ← get_attributes attribute_count [] r₇
  (payload, r₉) ← get_string r₈
  guard (is_done r₉) trailing_bytes
  ok (record {
    sequence = sequence;
    timestamp_ns = timestamp_ns;
    type = type;
    trace_id = trace_id;
    attributes = attributes;
    payload = payload;
    message_id = message_id;
    parent_message_id = parent_message_id;
    wire_version = version;
  })

-- `deserialize`. The three characters of the magic are read one by one, up to the first that
-- differs.
unfoldable pub deserialize : Bytes → Result Error Envelope
deserialize bytes = do
  guard (leb (length bytes) max_frame_bytes) envelope_exceeds_maximum
  (first, r₁) ← get 1 bytes
  guard (first == b'G') invalid_magic
  (second, r₂) ← get 1 r₁
  guard (second == b'X') invalid_magic
  (third, r₃) ← get 1 r₂
  guard (third == b'E') invalid_magic
  (version, r₄) ← get 1 r₃
  guard (version == envelope_wire_version) (envelope_version_unsupported version)
  get_fields version r₄
