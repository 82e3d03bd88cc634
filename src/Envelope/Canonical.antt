-- ===== src/Envelope/Canonical.antt =====
-- Which byte strings `deserialize` accepts, and that the order of the map does not matter.
use mathlib.Core.List.{Perm, Nodup-nil}
use graphx_docker.Base.{
  ℕ, ◌+◌, ◌≤◌, ◌≡◌, refl, sym, ap, ap₂, ◌∙◌, true, false, List, [], ◌∷◌, ◌++◌, Bytes, IsBytes, ok,
  arith, length, append-nil, leb, leb→le, ==_iff, ◌==◌, >>=-elim, guard-elim, ok-injective, subst,
  length-append,
}
use graphx_docker.Base.Sort.{IsSorted, sort_sorted}
use graphx_docker.Wire.{
  max_frame_bytes, put, get, get_string, attributes_out_of_range, trailing_bytes,
}
use graphx_docker.Wire
use graphx_docker.Wire.Number.{Reads, get-Reads, ReadsString, get_string-ReadsString, length-put}
use graphx_docker.Identity.{put_identity, get_identity}
use graphx_docker.Identity.RoundTrip.{ReadsIdentity, get_identity-ReadsIdentity}
use graphx_docker.Attributes.{Attribute, sort_attributes, attribute_less, get_attributes}
use graphx_docker.Attributes.Keys.{sort_attributes_unique}
use graphx_docker.Attributes.RoundTrip.{
  text, texts, ReadsAttributes, get_attributes-ReadsAttributes,
}
use graphx_docker.Envelope.{
  Envelope, serialize, get_fields, deserialize, max_envelope_attributes, envelope_wire_version,
  is_done,
}
use graphx_docker.Envelope.Size.{Fits, wire_size, serialized_size_perm}
use graphx_docker.Envelope.Encode.{
  serialize-Serialized, serialize-IsSerializable, length-layout, fields_layout, layout,
  serialize-layout, length-text, length-texts,
}
use graphx_docker.Envelope.Decode.{IsTyped}

-- The parts of an accepted byte string behind the version byte.
pub record Fields (version : ℕ) (r : Bytes) (e : Envelope) : Type 0 where
  pub message : Bytes
  pub trace : Bytes
  pub parent : Bytes
  pub split : r ≡ fields_layout e e.attributes message trace parent
  pub message_written : (f : Wire.Field) → put_identity e.message_id f false ≡ ok message
  pub trace_written : (f : Wire.Field) → put_identity e.trace_id f false ≡ ok trace
  pub parent_written : (f : Wire.Field) → put_identity e.parent_message_id f true ≡ ok parent
  pub message_long : length message ≡ 16
  pub trace_long : length trace ≡ 16
  pub parent_long : length parent ≡ 16
  pub typed : IsTyped e
  pub count : length e.attributes ≤ max_envelope_attributes
  pub version_kept : e.wire_version ≡ version

is_done-nil : (r : Bytes) → is_done r ≡ true → r ≡ []
is_done-nil [] h = refl
is_done-nil (x ∷ r) h = cc

Fields-of_Reads :
    (version : ℕ) (e : Envelope) (r r₁ r₂ r₃ r₄ r₅ r₆ r₇ r₈ : Bytes) (count : ℕ)
    → count ≤ max_envelope_attributes
    → e.wire_version ≡ version
    → Reads 8 r e.sequence r₁
    → Reads 8 r₁ e.timestamp_ns r₂
    → ReadsIdentity false r₂ e.message_id r₃
    → ReadsIdentity false r₃ e.trace_id r₄
    → ReadsIdentity true r₄ e.parent_message_id r₅
    → ReadsString r₅ e.type r₆
    → Reads 4 r₆ count r₇
    → ReadsAttributes count r₇ [] e.attributes r₈
    → ReadsString r₈ e.payload []
    → Fields version r e
unfolding text
Fields-of_Reads version e r r₁ r₂ r₃ r₄ r₅ r₆ r₇ r₈ count few v s₁ s₂ s₃ s₄ s₅ s₆ s₇ s₈ s₉ =
    record {
      message = s₃.bytes;
      trace = s₄.bytes;
      parent = s₅.bytes;
      split =
          s₁.split
          ∙ ap (◌++◌ (put 8 e.sequence)) (
              s₂.split
              ∙ ap (◌++◌ (put 8 e.timestamp_ns)) (
                  s₃.split
                  ∙ ap (◌++◌ s₃.bytes)
                      (s₄.split ∙ ap (◌++◌ s₄.bytes) (s₅.split ∙ ap (◌++◌ s₅.bytes) tail))));
      message_written = s₃.written;
      trace_written = s₄.written;
      parent_written = s₅.written;
      message_long = s₃.long;
      trace_long = s₄.long;
      parent_long = s₅.long;
      typed = record { sequence_uint = s₁.uint; timestamp_uint = s₂.uint; keys_differ = s₈.differ };
      count = omega (arith, counted);
      version_kept = v;
    }
  where
    counted : length e.attributes ≡ count
    counted = ap length s₈.holds ∙ s₈.counted

    tail :
        r₅ ≡ text e.type ++ (put 4 (length e.attributes) ++ (texts e.attributes ++ text e.payload))
    tail =
        s₆.split
        ∙ ap (◌++◌ (text e.type)) (
            s₇.split
            ∙ ap₂ (λ n xs. put 4 n ++ xs) (sym counted)
                (s₈.split
                  ∙ ap₂ (λ xs ys. texts xs ++ ys) (sym s₈.holds)
                      (s₉.split ∙ append-nil (text e.payload))))

get_fields-Fields :
    (version : ℕ) (r : Bytes) {e : Envelope}
    → IsBytes r
    → get_fields version r ≡ ok e
    → Fields version r e
unfolding get_fields
get_fields-Fields version r {e} hr h = >>=-elim (get 8 r) _ h λ (sequence, r₁) e₁ h₁.
    >>=-elim (get 8 r₁) _ h₁ λ (timestamp_ns, r₂) e₂ h₂.
      >>=-elim (get_identity false r₂) _ h₂ λ (message_id, r₃) e₃ h₃.
        >>=-elim (get_identity false r₃) _ h₃ λ (trace_id, r₄) e₄ h₄.
          >>=-elim (get_identity true r₄) _ h₄ λ (parent_message_id, r₅) e₅ h₅.
            >>=-elim (get_string r₅) _ h₅ λ (type, r₆) e₆ h₆.
              >>=-elim (get 4 r₆) _ h₆ λ (count, r₇) e₇ h₇.
                guard-elim (leb count max_envelope_attributes) attributes_out_of_range _ h₇
                  λ few h₈. >>=-elim (get_attributes count [] r₇) _ h₈ λ (attributes, r₈) e₈ h₉.
                    >>=-elim (get_string r₈) _ h₉ λ (payload, r₉) e₉ h₁₀.
                      guard-elim (is_done r₉) trailing_bytes _ h₁₀ λ end h₁₁.
                        let s₁ = get-Reads 8 r (omega arith) hr e₁ in
                        let s₂ = get-Reads 8 r₁ (omega arith) s₁.rest_bytes e₂ in
                        let s₃ = get_identity-ReadsIdentity false r₂ s₂.rest_bytes e₃ in
                        let s₄ = get_identity-ReadsIdentity false r₃ s₃.rest_bytes e₄ in
                        let s₅ = get_identity-ReadsIdentity true r₄ s₄.rest_bytes e₅ in
                        let s₆ = get_string-ReadsString r₅ s₅.rest_bytes e₆ in
                        let s₇ = get-Reads 4 r₆ (omega arith) s₆.rest_bytes e₇ in
                        let s₈ =
                          get_attributes-ReadsAttributes count [] r₇ s₇.rest_bytes Nodup-nil e₈ in
                        let s₉ = get_string-ReadsString r₈ s₈.rest_bytes e₉ in
                        subst (Fields version r) (ok-injective h₁₁) (
                          Fields-of_Reads version _ r r₁ r₂ r₃ r₄ r₅ r₆ r₇ r₈ count (leb→le _ _ few)
                            refl s₁ s₂ s₃ s₄ s₅ s₆ s₇ s₈
                            (subst (ReadsString r₈ payload) (is_done-nil r₉ end) s₉))

get_byte-eq-ok :
    (r : Bytes) (b : ℕ) (rest : Bytes)
    → IsBytes r
    → get 1 r ≡ ok (b, rest)
    → (r ≡ b ∷ rest) × IsBytes rest
unfolding put
get_byte-eq-ok r b rest hr h =
    let s = get-Reads 1 r (omega arith) hr h in
    (s.split ∙ ap (λ x. x ∷ rest) (omega (arith, s.uint)), s.rest_bytes)

-- An accepted byte string: the magic, the version and the fields.
record Deserialized (bytes : Bytes) (e : Envelope) : Type 0 where
  rest : Bytes
  small : length bytes ≤ max_frame_bytes
  header : bytes ≡ b'G' ∷ b'X' ∷ b'E' ∷ envelope_wire_version ∷ rest
  fields : Fields envelope_wire_version rest e

deserialize-Deserialized :
    (bytes : Bytes) (e : Envelope) → IsBytes bytes → deserialize bytes ≡ ok e → Deserialized bytes e
unfolding deserialize
deserialize-Deserialized bytes e hb h =
    guard-elim (leb (length bytes) max_frame_bytes) _ _ h λ small h₀.
      >>=-elim (get 1 bytes) _ h₀ λ (first, r₁) e₁ h₁. guard-elim (first == b'G') _ _ h₁ λ g h₂.
        >>=-elim (get 1 r₁) _ h₂ λ (second, r₂) e₂ h₃. guard-elim (second == b'X') _ _ h₃ λ x h₄.
          >>=-elim (get 1 r₂) _ h₄ λ (third, r₃) e₃ h₅. guard-elim (third == b'E') _ _ h₅ λ t h₆.
            >>=-elim (get 1 r₃) _ h₆ λ (version, r₄) e₄ h₇.
              guard-elim (version == envelope_wire_version) _ _ h₇ λ v h₈.
                let (p₁, b₁) = get_byte-eq-ok bytes first r₁ hb e₁ in
                let (p₂, b₂) = get_byte-eq-ok r₁ second r₂ b₁ e₂ in
                let (p₃, b₃) = get_byte-eq-ok r₂ third r₃ b₂ e₃ in
                let (p₄, b₄) = get_byte-eq-ok r₃ version r₄ b₃ e₄ in
                let is_current = (==_iff version envelope_wire_version).0 v in
                record {
                  rest = r₄;
                  small = leb→le _ _ small;
                  header =
                      p₁
                      ∙ ap₂ ◌∷◌ ((==_iff first b'G').0 g) (
                          p₂
                          ∙ ap₂ ◌∷◌ ((==_iff second b'X').0 x) (
                              p₃
                              ∙ ap₂ ◌∷◌ ((==_iff third b'E').0 t)
                                  (p₄ ∙ ap (λ n. n ∷ r₄) is_current)));
                  fields =
                      get_fields-Fields envelope_wire_version r₄ b₄
                        (subst (λ n. get_fields n r₄ ≡ ok e) is_current h₈);
                }

length-Fields :
    (version : ℕ) (r : Bytes) (e : Envelope) → Fields version r e → 4 + length r ≡ wire_size e
length-Fields version r e f =
    ap (λ xs. 4 + length xs) f.split
    ∙ simp
        (
          length-append, length-put, length-text, length-texts, f.message_long, f.trace_long,
          f.parent_long,
        )
        (omega arith)

Deserialized-Fits : (bytes : Bytes) (e : Envelope) → Deserialized bytes e → Fits e
Deserialized-Fits bytes e d = record {
  version = d.fields.version_kept;
  count = d.fields.count;
  size =
      omega
        (arith, length-Fields envelope_wire_version d.rest e d.fields, ap length d.header, d.small);
}

Deserialized-layout :
    (bytes : Bytes) (e : Envelope)
    → (d : Deserialized bytes e)
    → serialize e ≡ ok (layout e d.fields.message d.fields.trace d.fields.parent)
Deserialized-layout bytes e d =
    let f = d.fields in
    serialize-layout e f.message f.trace f.parent (Deserialized-Fits bytes e d)
      (f.message_written Wire.message_id) (f.trace_written Wire.trace_id)
      (f.parent_written Wire.parent_message_id)

-- Whatever `deserialize` accepts can be serialized again, to as many bytes, and has the field
-- ranges and the distinct keys of the source's types.
pub serialize-deserialize :
    (bytes : Bytes) (e : Envelope)
    → IsBytes bytes
    → deserialize bytes ≡ ok e
    → (again : Bytes) × (serialize e ≡ ok again) × (length again ≡ length bytes) × IsTyped e
serialize-deserialize bytes e hb h =
    let d = deserialize-Deserialized bytes e hb h in
    let (again, s) =
      serialize-Serialized e (serialize-IsSerializable e (Deserialized-layout bytes e d)) in
    (
      again,
      s.written,
      omega (
        arith,
        length-layout e again s,
        length-Fields envelope_wire_version d.rest e d.fields,
        ap length d.header,
      ),
      d.fields.typed,
    )

-- If the entries stand on the wire in sorted order, the bytes come back unchanged: `deserialize`
-- accepts one canonical spelling of each envelope.
pub serialize-deserialize_sorted :
    (bytes : Bytes) (e : Envelope)
    → IsBytes bytes
    → deserialize bytes ≡ ok e
    → IsSorted attribute_less e.attributes
    → serialize e ≡ ok bytes
serialize-deserialize_sorted bytes e hb h sorted =
    let d = deserialize-Deserialized bytes e hb h in
    let f = d.fields in
    let unsorted : sort_attributes e.attributes ≡ e.attributes =
      unfold sort_attributes in sort_sorted attribute_less e.attributes sorted in
    let entries = ap (λ xs. fields_layout e xs f.message f.trace f.parent) unsorted ∙ sym f.split in
    Deserialized-layout bytes e d
    ∙ ap ok (ap₂ (λ n xs. b'G' ∷ b'X' ∷ b'E' ∷ n ∷ xs) f.version_kept entries ∙ sym d.header)

-- One map, two iteration orders: the bytes, or the exception, are the same.
pub serialize_perm :
    (e : Envelope) (xs : List Attribute)
    → Perm e.attributes xs
    → serialize e ≡ serialize (record e { attributes = xs })
unfolding serialize
serialize_perm e xs p = rw (serialized_size_perm e xs p, sort_attributes_unique e.attributes xs p)
