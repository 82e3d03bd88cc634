-- ===== src/Envelope/Encode.antt =====
-- What `serialize` writes.
use graphx_docker.Base.{
  ◌+◌, ◌≤◌, ◌≡◌, refl, ap, ◌∙◌, ◌↔◌, true, false, List, [], ◌∷◌, ◌++◌, Bytes, ok, arith, length,
  length-append, total, All, inl, inr, >>=-elim,
}
use graphx_docker.Base.Sort.{All-sort, total-sort}
use graphx_docker.Wire.{Error, max_frame_bytes, uint32_max, put, put_string}
use graphx_docker.Wire
use graphx_docker.Wire.Number.{length-put, put_string-ok}
use graphx_docker.Identity.{put_identity}
use graphx_docker.Identity.RoundTrip.{
  IsIdentity, Accepted, Written, put_identity-Written, put_identity-Accepted,
}
use graphx_docker.Attributes.{Attribute, sort_attributes, attribute_less}
use graphx_docker.Attributes.RoundTrip.{text, texts, IsShort, put_attributes-texts}
use graphx_docker.Envelope.{Envelope, serialized_size, serialize}
use graphx_docker.Envelope.Size.{
  Fits, wire_size, entry_size, serialized_size-Fits, serialized_size-eq-ok,
}

-- The envelopes that `serialize` accepts: within the limits, and with identities in place.
pub record IsSerializable (e : Envelope) : Type 0 where
  pub fits : Fits e
  pub message : IsIdentity e.message_id
  pub trace : IsIdentity e.trace_id
  pub parent : Accepted true e.parent_message_id

-- The fields behind the version byte, for the 16 bytes of each identity and the entries in the
-- order in which they stand on the wire.
abbrev pub fields_layout : Envelope → List Attribute → Bytes → Bytes → Bytes → Bytes
fields_layout e entries message trace parent =
    put 8 e.sequence
    ++ (put 8 e.timestamp_ns
        ++ (message
            ++ (trace
                ++ (parent
                    ++ (text e.type
                        ++ (put 4 (length entries) ++ (texts entries ++ text e.payload)))))))

-- The wire format.
abbrev pub layout : Envelope → Bytes → Bytes → Bytes → Bytes
layout e message trace parent =
    b'G'
    ∷ b'X'
    ∷ b'E'
    ∷ e.wire_version
    ∷ fields_layout e (sort_attributes e.attributes) message trace parent

IsShort-of_total :
    (attributes : List Attribute)
    → total entry_size attributes ≤ uint32_max
    → All IsShort attributes
IsShort-of_total [] h = tt
IsShort-of_total (p ∷ rest) h = ((omega arith, omega arith), IsShort-of_total rest (omega arith))

pub sorted-IsShort : (e : Envelope) → Fits e → All IsShort (sort_attributes e.attributes)
unfolding sort_attributes
sorted-IsShort e h =
    All-sort attribute_less IsShort e.attributes
      (IsShort-of_total e.attributes (omega (arith, h.size)))

pub serialize-layout :
    (e : Envelope) (message trace parent : Bytes)
    → Fits e
    → put_identity e.message_id Wire.message_id false ≡ ok message
    → put_identity e.trace_id Wire.trace_id false ≡ ok trace
    → put_identity e.parent_message_id Wire.parent_message_id true ≡ ok parent
    → serialize e ≡ ok (layout e message trace parent)
unfolding serialize text
serialize-layout e message trace parent h m t p =
    unfold serialized_size in
    rw (
      serialized_size-Fits e h,
      m,
      t,
      p,
      put_string-ok e.type (omega (arith, h.size)),
      put_attributes-texts (sort_attributes e.attributes) (sorted-IsShort e h),
      put_string-ok e.payload (omega (arith, h.size)),
    )

-- What `serialize` wrote for an envelope that it accepted.
pub record Serialized (e : Envelope) (bytes : Bytes) : Type 0 where
  pub message : Bytes
  pub trace : Bytes
  pub parent : Bytes
  pub written : serialize e ≡ ok bytes
  pub laid_out : bytes ≡ layout e message trace parent
  pub message_written : Written false e.message_id message
  pub trace_written : Written false e.trace_id trace
  pub parent_written : Written true e.parent_message_id parent

pub serialize-Serialized : (e : Envelope) → IsSerializable e → (bytes : Bytes) × Serialized e bytes
serialize-Serialized e h =
    let (message, em, wm) =
      put_identity-Written e.message_id Wire.message_id false (inl h.message) in
    let (trace, et, wt) = put_identity-Written e.trace_id Wire.trace_id false (inl h.trace) in
    let (parent, ep, wp) =
      put_identity-Written e.parent_message_id Wire.parent_message_id true h.parent in
    (
      layout e message trace parent,
      record {
        message = message;
        trace = trace;
        parent = parent;
        written = serialize-layout e message trace parent h.fits em et ep;
        laid_out = refl;
        message_written = wm;
        trace_written = wt;
        parent_written = wp;
      },
    )

pub IsIdentity-of_Accepted : {v : Bytes} → Accepted false v → IsIdentity v
IsIdentity-of_Accepted (inl h) = h
IsIdentity-of_Accepted (inr (o, e)) = cc

-- `serialize` accepts nothing else.
pub serialize-IsSerializable :
    (e : Envelope) {bytes : Bytes} → serialize e ≡ ok bytes → IsSerializable e
unfolding serialize
serialize-IsSerializable e h = >>=-elim (serialized_size e) _ h λ n es h₁.
    >>=-elim (put_identity e.message_id Wire.message_id false) _ h₁ λ m em h₂.
      >>=-elim (put_identity e.trace_id Wire.trace_id false) _ h₂ λ t et h₃.
        >>=-elim (put_identity e.parent_message_id Wire.parent_message_id true) _ h₃ λ p ep h₄.
          record {
            fits = (serialized_size-eq-ok e es).0;
            message = IsIdentity-of_Accepted (put_identity-Accepted e.message_id _ false em);
            trace = IsIdentity-of_Accepted (put_identity-Accepted e.trace_id _ false et);
            parent = put_identity-Accepted e.parent_message_id _ true ep;
          }

pub length-text : (s : Bytes) → length (text s) ≡ 4 + length s
unfolding text
length-text s =
    length-append (put 4 (length s)) s ∙ ap (λ n. n + length s) (length-put 4 (length s))

pub length-texts :
    (attributes : List Attribute) → length (texts attributes) ≡ total entry_size attributes
unfolding texts
length-texts [] = refl
length-texts ((k, v) ∷ rest) = omega (
  arith,
  length-append (text k) (text v ++ texts rest),
  length-append (text v) (texts rest),
  length-text k,
  length-text v,
  length-texts rest,
)

pub length-layout : (e : Envelope) (bytes : Bytes) → Serialized e bytes → length bytes ≡ wire_size e
length-layout e bytes s =
    let sorted = sort_attributes e.attributes in
    let sums : total entry_size sorted ≡ total entry_size e.attributes =
      unfold sort_attributes in total-sort attribute_less entry_size e.attributes in
    ap length s.laid_out
    ∙ simp
        (
          length-append, length-put, length-text, length-texts, sums, s.message_written.long,
          s.trace_written.long, s.parent_written.long,
        )
        (omega arith)

-- `serialize` succeeds on exactly the envelopes that are within the limits and have their
-- identities in place, and then gives as many bytes as the wire format says.
pub serialize_iff :
    (e : Envelope)
    → ((bytes : Bytes) × (serialize e ≡ ok bytes) × (length bytes ≡ wire_size e)) ↔ IsSerializable e
serialize_iff e = (
  λ (bytes, written, long). serialize-IsSerializable e written,
  λ h. let (bytes, s) = serialize-Serialized e h in (bytes, s.written, length-layout e bytes s),
)
