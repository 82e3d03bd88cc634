-- ===== src/Examples/Codec.antt =====
-- The codec at concrete inputs.
use mathlib.Core.List.{Nodup-nil}
use mathlib.Core.List.Perm
use graphx_docker.Base.{
  ℕ, List, codes, ◌*◌, ◌+◌, ◌≡◌, refl, ap, ◌∙◌, ◌↔◌, false, inl, take, drop, replicate, [], ◌∷◌,
  ◌++◌, Bytes, IsBytes, ok, arith, length,
}
use graphx_docker.Base.Sort.{insert, sort}
use graphx_docker.Attributes.{
  sort_attributes, attribute_less, bytes_less, bytes_equal, put_attributes, has_key,
}
use graphx_docker.Attributes.Keys.{KeysDiffer, KeysDiffer-concat}
use graphx_docker.Wire.{put, get, require, put_string, get_string}
use graphx_docker.Identity.{
  hex_value, is_lower_hex, canonical_loop, is_canonical_identity, pack_hex, unpack_hex,
  put_identity, get_identity,
}
use graphx_docker.Envelope.{
  checked_add, checked_string_size, attributes_size, encoded_size, validate_serializable,
  serialized_size, serialize, deserialize,
}
use graphx_docker.Envelope.Size.{Fits, wire_size, serialized_size-eq-ok}
use graphx_docker.Wire
use graphx_docker.Wire.Number.{get-put}
use graphx_docker.Wire.Framing.{
  frame, decode_frame_size, decode_frame_size-frame, frame-decode_frame_size,
}
use graphx_docker.Identity.RoundTrip.{
  IsIdentity, is_canonical_identity→IsIdentity, Written, ReadsIdentity, put_identity-Written,
  get_identity-ReadsIdentity,
}
use graphx_docker.Envelope.Lineage.{Readings, Derivation}
use graphx_docker.Envelope.Make.{
  generate_identity, Fresh, derive, generate_identity-IsIdentity, derive-IsSerializable,
}
use graphx_docker.Envelope.Encode.{IsSerializable, serialize_iff}
use graphx_docker.Envelope.Decode.{IsTyped, deserialize-serialize}
use graphx_docker.Envelope.Canonical.{
  serialize-deserialize, serialize-deserialize_sorted, serialize_perm,
}
use graphx_docker.Examples.{
  message_hex, trace_hex, unsorted, sorted, sample, arrived_sample, sample_bytes,
}

pub sample_written : serialize sample ≡ ok sample_bytes
unfolding serialize serialized_size validate_serializable encoded_size attributes_size
    checked_string_size checked_add put_identity is_canonical_identity canonical_loop is_lower_hex
    pack_hex hex_value put_string put put_attributes sort_attributes attribute_less bytes_less sort
    insert
sample_written = refl

sample_keys : KeysDiffer unsorted
unfolding has_key bytes_equal
sample_keys =
    KeysDiffer-concat ((98 ∷ [], 50 ∷ []) ∷ []) (97 ∷ []) (49 ∷ [])
      (KeysDiffer-concat [] (98 ∷ []) (50 ∷ []) Nodup-nil refl) refl

pub sample-IsTyped : IsTyped sample
sample-IsTyped = record {
  sequence_uint = omega arith;
  timestamp_uint = omega arith;
  keys_differ = sample_keys;
}

sample_sorted : sort_attributes unsorted ≡ sorted
unfolding sort_attributes attribute_less bytes_less sort insert
sample_sorted = refl

deserialize-serialize_example :
    deserialize sample_bytes ≡ ok (record sample { attributes = sort_attributes unsorted })
deserialize-serialize_example =
    deserialize-serialize sample sample_bytes sample-IsTyped sample_written

sample_read : deserialize sample_bytes ≡ ok arrived_sample
sample_read =
    deserialize-serialize_example ∙ ap (λ xs. ok (record sample { attributes = xs })) sample_sorted

sample_bytes-IsBytes : IsBytes sample_bytes
sample_bytes-IsBytes = omega arith

serialize-deserialize_example :
    (again : Bytes) × (serialize arrived_sample ≡ ok again)
    × (length again ≡ length sample_bytes)
    × IsTyped arrived_sample
serialize-deserialize_example =
    serialize-deserialize sample_bytes arrived_sample sample_bytes-IsBytes sample_read

serialize_perm_example : serialize sample ≡ serialize arrived_sample
serialize_perm_example =
    serialize_perm sample sorted (Perm.swap (97 ∷ [], 49 ∷ []) (98 ∷ [], 50 ∷ []) [])

serialized_size-eq-ok_example : Fits sample × (103 ≡ wire_size sample)
unfolding serialized_size validate_serializable encoded_size attributes_size checked_string_size
    checked_add
serialized_size-eq-ok_example = serialized_size-eq-ok sample {n = 103} refl

serialize_iff_example :
    ((bytes : Bytes) × (serialize sample ≡ ok bytes) × (length bytes ≡ wire_size sample))
    ↔ IsSerializable sample
serialize_iff_example = serialize_iff sample

generate_identity-IsIdentity_example : IsIdentity (generate_identity 1 2 3)
generate_identity-IsIdentity_example = generate_identity-IsIdentity 1 2 3

trace-IsIdentity : IsIdentity trace_hex
unfolding is_canonical_identity canonical_loop is_lower_hex
trace-IsIdentity = is_canonical_identity→IsIdentity trace_hex refl

message-IsIdentity : IsIdentity message_hex
unfolding is_canonical_identity canonical_loop is_lower_hex
message-IsIdentity = is_canonical_identity→IsIdentity message_hex refl

abbrev fresh : Fresh
fresh = record { now_ns = 5; trace = message_hex; message = trace_hex }

abbrev readings_of : ℕ → Readings
readings_of n = record {
  now_ns = 1000 + n;
  entropy = 77;
  trace_ordinal = 2 * n + 1;
  trace_now = 500 + n;
  message_ordinal = 2 * n + 2;
  message_now = 501 + n;
}

abbrev pipeline : List Derivation
pipeline = (readings_of 1, 1, codes "filtered", []) ∷ (readings_of 2, 2, codes "stored", []) ∷ []

derived_Fits : Fits (derive fresh sample 8 [] [])
unfolding derive
derived_Fits = record { version = refl; count = omega arith; size = omega arith }

derive-IsSerializable_example : IsSerializable (derive fresh sample 8 [] [])
derive-IsSerializable_example =
    derive-IsSerializable fresh sample 8 [] [] message-IsIdentity trace-IsIdentity derived_Fits

abbrev two : Bytes
two = 1 ∷ 2 ∷ []

two_framed : frame two ≡ ok (0 ∷ 0 ∷ 0 ∷ 2 ∷ two)
unfolding frame
two_framed = refl

decode_frame_size-frame_example :
    (length (0 ∷ 0 ∷ 0 ∷ 2 ∷ two) ≡ length two + 4)
    × (decode_frame_size (take 4 (0 ∷ 0 ∷ 0 ∷ 2 ∷ two)) ≡ ok (length two))
    × (drop 4 (0 ∷ 0 ∷ 0 ∷ 2 ∷ two) ≡ two)
decode_frame_size-frame_example = decode_frame_size-frame two (0 ∷ 0 ∷ 0 ∷ 2 ∷ two) two_framed

two_decoded : decode_frame_size (0 ∷ 0 ∷ 0 ∷ 2 ∷ []) ≡ ok (length two)
unfolding decode_frame_size
two_decoded = refl

frame-decode_frame_size_example : frame two ≡ ok (0 ∷ 0 ∷ 0 ∷ 2 ∷ two)
frame-decode_frame_size_example = frame-decode_frame_size 0 0 0 2 two (omega arith) two_decoded

put_identity-Written_example :
    (bytes : Bytes) × (put_identity trace_hex Wire.trace_id false ≡ ok bytes)
    × Written false trace_hex bytes
put_identity-Written_example =
    put_identity-Written trace_hex Wire.trace_id false (inl trace-IsIdentity)

sixteen : get_identity false (replicate 16 170) ≡ ok (trace_hex, [])
unfolding get_identity require unpack_hex
sixteen = refl

get_identity-ReadsIdentity_example : ReadsIdentity false (replicate 16 170) trace_hex []
get_identity-ReadsIdentity_example =
    get_identity-ReadsIdentity false (replicate 16 170) {v = trace_hex} {rest = []} (omega arith)
      sixteen

get-put_example : get 2 (put 2 258 ++ two) ≡ ok (258, two)
get-put_example = get-put 2 258 two (omega arith) (omega arith)

serialize-deserialize_sorted_example : serialize arrived_sample ≡ ok sample_bytes
unfolding attribute_less bytes_less
serialize-deserialize_sorted_example =
    serialize-deserialize_sorted sample_bytes arrived_sample sample_bytes-IsBytes sample_read
      (refl, tt)
