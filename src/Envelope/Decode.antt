-- ===== src/Envelope/Decode.antt =====
-- `deserialize` reads back what `serialize` wrote.
use graphx_docker.Base.{
  ℕ, ◌≤◌, ◌≡◌, sym, ap, ◌∙◌, true, false, [], ◌∷◌, ◌++◌, Bytes, IsUint, IsByte, ok, arith, length,
  append-nil, le→leb, ok-injective, ==_iff, subst,
}
use graphx_docker.Wire.{max_frame_bytes, put, get}
use graphx_docker.Wire.Number.{get-put, get_string-put}
use graphx_docker.Identity.RoundTrip.{Written}
use graphx_docker.Attributes.{sort_attributes}
use graphx_docker.Attributes.Keys.{KeysDiffer, sort_attributes-KeysDiffer, length-sort_attributes}
use graphx_docker.Attributes.RoundTrip.{text, texts, get_attributes-texts}
use graphx_docker.Envelope.{
  Envelope, serialize, get_fields, deserialize, max_envelope_attributes, envelope_wire_version,
}
use graphx_docker.Envelope.Size.{Fits}
use graphx_docker.Envelope.Encode.{
  Serialized, sorted-IsShort, serialize-Serialized, serialize-IsSerializable, length-layout,
}

-- What the type of the source guarantees: two 64-bit fields, and a map's keys.
pub record IsTyped (e : Envelope) : Type 0 where
  pub sequence_uint : IsUint 8 e.sequence
  pub timestamp_uint : IsUint 8 e.timestamp_ns
  pub keys_differ : KeysDiffer e.attributes

pub get_byte : (b : ℕ) (rest : Bytes) → IsByte b → get 1 (b ∷ rest) ≡ ok (b, rest)
unfolding put
get_byte b rest h =
    subst (λ c. get 1 (c ∷ rest) ≡ ok (b, rest)) (omega arith)
      (get-put 1 b rest (omega arith) (omega arith))

module _ (e : Envelope) (message trace parent : Bytes) (fits : Fits e) (typed : IsTyped e)
    (wm : Written false e.message_id message) (wt : Written false e.trace_id trace)
    (wp : Written true e.parent_message_id parent) where
  get_fields-layout :
      get_fields e.wire_version (
        put 8 e.sequence
        ++ (put 8 e.timestamp_ns
            ++ (message
                ++ (trace
                    ++ (parent
                        ++ (text e.type
                            ++ (put 4 (length (sort_attributes e.attributes))
                                ++ (texts (sort_attributes e.attributes) ++ text e.payload))))))))
      ≡ ok (record e { attributes = sort_attributes e.attributes })
  unfolding get_fields text
  get_fields-layout =
      let sorted = sort_attributes e.attributes in
      let count : length sorted ≤ max_envelope_attributes =
        omega (arith, length-sort_attributes e.attributes, fits.count) in
      let last = get_string-put e.payload [] (omega (arith, fits.size)) in
      rw (
        get-put 8 e.sequence _ (omega arith) typed.sequence_uint,
        get-put 8 e.timestamp_ns _ (omega arith) typed.timestamp_uint,
        wm.read,
        wt.read,
        wp.read,
        get_string-put e.type _ (omega (arith, fits.size)),
        get-put 4 (length sorted) _ (omega arith) (omega arith),
        le→leb (length sorted) max_envelope_attributes count,
        get_attributes-texts sorted [] _ (sorted-IsShort e fits)
            (sort_attributes-KeysDiffer e.attributes typed.keys_differ),
        rw append-nil at last,
      )

-- The magic and the version byte in front of the fields.
pub deserialize_header :
    (version : ℕ) (rest : Bytes)
    → version ≡ envelope_wire_version
    → length (b'G' ∷ b'X' ∷ b'E' ∷ version ∷ rest) ≤ max_frame_bytes
    → deserialize (b'G' ∷ b'X' ∷ b'E' ∷ version ∷ rest) ≡ get_fields version rest
unfolding deserialize
deserialize_header version rest v h = rw (
  le→leb (length (b'G' ∷ b'X' ∷ b'E' ∷ version ∷ rest)) max_frame_bytes h,
  get_byte b'G' (b'X' ∷ b'E' ∷ version ∷ rest) (omega arith),
  get_byte b'X' (b'E' ∷ version ∷ rest) (omega arith),
  get_byte b'E' (version ∷ rest) (omega arith),
  get_byte version rest (omega arith),
  (==_iff version envelope_wire_version).1 v,
)

deserialize-Serialized :
    (e : Envelope) (bytes : Bytes)
    → IsTyped e
    → Fits e
    → Serialized e bytes
    → deserialize bytes ≡ ok (record e { attributes = sort_attributes e.attributes })
deserialize-Serialized e bytes typed fits s =
    ap deserialize s.laid_out
    ∙ deserialize_header e.wire_version _ fits.version
        (omega (arith, length-layout e bytes s, ap length s.laid_out, fits.size))
    ∙ get_fields-layout e s.message s.trace s.parent fits typed s.message_written s.trace_written
        s.parent_written

-- An envelope is read back as it was written, but for the order of its attributes, which come out
-- sorted.
pub deserialize-serialize :
    (e : Envelope) (bytes : Bytes)
    → IsTyped e
    → serialize e ≡ ok bytes
    → deserialize bytes ≡ ok (record e { attributes = sort_attributes e.attributes })
deserialize-serialize e bytes typed written =
    let ok_e = serialize-IsSerializable e written in
    let (bytes', s) = serialize-Serialized e ok_e in
    ap deserialize (ok-injective (sym written ∙ s.written))
    ∙ deserialize-Serialized e bytes' typed ok_e.fits s
