-- ===== src/Capture/Comment.antt =====
-- The JSON comment of a packet: always within the limit of an option, and plain text.
use graphx_docker.Base.{
  ℕ, ◌+◌, ◌%◌, ◌/◌, ◌^◌, ◌≤◌, ◌<◌, ◌≡◌, sym, subst, [], ◌∷◌, ◌++◌, Bytes, ok, length, length-append,
  All, All-append, arith, Result-cases, inl, inr, >>=-elim, ok-injective, IsBytes,
}
use graphx_docker.Identity.{hex_digit}
use graphx_docker.Capture.Literals.{
  open_edge, open_direction, open_sequence, open_version, open_message, open_parent, open_trace,
  open_type, close_comment, truncated_start, truncated_end,
}
use graphx_docker.Capture.{
  maximum_option_length, append_bounded, escape, append_escaped_json, Metadata, full_comment,
  or_else, truncated_comment, capture_comment,
}

-- A printable ASCII character.
abbrev pub IsPrintable : ℕ → Type 0
IsPrintable c = (32 ≤ c) × (c < 127)

-- What a buffer keeps.
abbrev Good : Bytes → Type 0
Good out = (length out ≤ maximum_option_length) × All IsPrintable out

append_bounded-Good :
    (out value : Bytes) {out' : Bytes}
    → Good out
    → All IsPrintable value
    → append_bounded out value ≡ ok out'
    → Good out'
unfolding append_bounded
append_bounded-Good out value {out'} (short, plain) v h =
    let (e, fits) = joined h in
    subst Good e (omega (arith, length-append out value), All-append IsPrintable out value plain v)
  where
    joined :
        append_bounded out value ≡ ok out'
        → (out ++ value ≡ out') × (length out + length value ≤ maximum_option_length)
    joined h = ground arith

hex_digit-IsPrintable : (d : ℕ) → d < 16 → IsPrintable (hex_digit d)
unfolding hex_digit
hex_digit-IsPrintable d h = ground arith

escape-IsPrintable : (c : ℕ) → c < 256 → All IsPrintable (escape c)
unfolding escape
escape-IsPrintable c h = ground (
  arith,
  hex_digit-IsPrintable (c / 16) (omega arith),
  hex_digit-IsPrintable (c % 16) (omega arith),
)

append_escaped_json-Good :
    (value out : Bytes) {out' : Bytes}
    → Good out
    → IsBytes value
    → append_escaped_json out value ≡ ok out'
    → Good out'
unfolding append_escaped_json
append_escaped_json-Good [] out good b h = subst Good (ok-injective h) good
append_escaped_json-Good (c ∷ cs) out good b h =
    >>=-elim (append_bounded out (escape c)) _ h λ next e rest.
      append_escaped_json-Good cs next
        (append_bounded-Good out (escape c) good (escape-IsPrintable c b.0) e) b.1 rest

-- What the standard library's `to_string` gives for an integer of at most 64 bits.
abbrev pub IsDecimal : (ℕ → Bytes) → Type 0
IsDecimal to_string =
    (n : ℕ) → n < 2 ^ 64 → (length (to_string n) ≤ 20) × All IsPrintable (to_string n)

-- The field ranges of the source's types.
pub record IsMetadata (m : Metadata) : Type 0 where
  pub sequence_uint : m.sequence < 2 ^ 64
  pub version_uint : m.wire_version < 256
  pub message_bytes : IsBytes m.message_id
  pub parent_bytes : IsBytes m.parent_message_id
  pub trace_bytes : IsBytes m.trace_id
  pub type_bytes : IsBytes m.type

module _ (to_string : ℕ → Bytes) (decimal : IsDecimal to_string) (edge_id direction : Bytes)
    (edge : IsBytes edge_id) (way : IsBytes direction) (m : Metadata) (valid : IsMetadata m) where
  full_comment-Good : {out : Bytes} → full_comment to_string edge_id direction m ≡ ok out → Good out
  unfolding full_comment
  full_comment-Good h =
      let version = decimal m.wire_version (omega (arith, valid.version_uint)) in
      >>=-elim (append_bounded [] open_edge) _ h λ r₁ e₁ h₁.
        >>=-elim (append_escaped_json r₁ edge_id) _ h₁ λ r₂ e₂ h₂.
          >>=-elim (append_bounded r₂ open_direction) _ h₂ λ r₃ e₃ h₃.
            >>=-elim (append_escaped_json r₃ direction) _ h₃ λ r₄ e₄ h₄.
              >>=-elim (append_bounded r₄ open_sequence) _ h₄ λ r₅ e₅ h₅.
                >>=-elim (append_bounded r₅ (to_string m.sequence)) _ h₅ λ r₆ e₆ h₆.
                  >>=-elim (append_bounded r₆ open_version) _ h₆ λ r₇ e₇ h₇.
                    >>=-elim (append_bounded r₇ (to_string m.wire_version)) _ h₇ λ r₈ e₈ h₈.
                      >>=-elim (append_bounded r₈ open_message) _ h₈ λ r₉ e₉ h₉.
                        >>=-elim (append_escaped_json r₉ m.message_id) _ h₉ λ r₁₀ e₁₀ h₁₀.
                          >>=-elim (append_bounded r₁₀ open_parent) _ h₁₀ λ r₁₁ e₁₁ h₁₁.
                            >>=-elim (append_escaped_json r₁₁ m.parent_message_id) _ h₁₁
                              λ r₁₂ e₁₂ h₁₂.
                                >>=-elim (append_bounded r₁₂ open_trace) _ h₁₂ λ r₁₃ e₁₃ h₁₃.
                                  >>=-elim (append_escaped_json r₁₃ m.trace_id) _ h₁₃ λ r₁₄ e₁₄ h₁₄.
                                    >>=-elim (append_bounded r₁₄ open_type) _ h₁₄ λ r₁₅ e₁₅ h₁₅.
                                      >>=-elim (append_escaped_json r₁₅ m.type) _ h₁₅ λ r₁₆ e₁₆ h₁₆.
                                        let g₁ =
                                          append_bounded-Good [] open_edge (omega arith, tt)
                                            (omega arith) e₁ in
                                        let g₂ = append_escaped_json-Good edge_id r₁ g₁ edge e₂ in
                                        let g₃ =
                                          append_bounded-Good r₂ open_direction g₂ (omega arith)
                                            e₃ in
                                        let g₄ = append_escaped_json-Good direction r₃ g₃ way e₄ in
                                        let g₅ =
                                          append_bounded-Good r₄ open_sequence g₄ (omega arith)
                                            e₅ in
                                        let g₆ =
                                          append_bounded-Good r₅ _ g₅
                                            (decimal m.sequence valid.sequence_uint).1 e₆ in
                                        let g₇ =
                                          append_bounded-Good r₆ open_version g₆ (omega arith) e₇ in
                                        let g₈ = append_bounded-Good r₇ _ g₇ version.1 e₈ in
                                        let g₉ =
                                          append_bounded-Good r₈ open_message g₈ (omega arith) e₉ in
                                        let g₁₀ =
                                          append_escaped_json-Good m.message_id r₉ g₉
                                            valid.message_bytes e₁₀ in
                                        let g₁₁ =
                                          append_bounded-Good r₁₀ open_parent g₁₀ (omega arith)
                                            e₁₁ in
                                        let g₁₂ =
                                          append_escaped_json-Good m.parent_message_id r₁₁ g₁₁
                                            valid.parent_bytes e₁₂ in
                                        let g₁₃ =
                                          append_bounded-Good r₁₂ open_trace g₁₂ (omega arith)
                                            e₁₃ in
                                        let g₁₄ =
                                          append_escaped_json-Good m.trace_id r₁₃ g₁₃
                                            valid.trace_bytes e₁₄ in
                                        let g₁₅ =
                                          append_bounded-Good r₁₄ open_type g₁₄ (omega arith) e₁₅ in
                                        let g₁₆ =
                                          append_escaped_json-Good m.type r₁₅ g₁₅ valid.type_bytes
                                            e₁₆ in
                                        append_bounded-Good r₁₆ close_comment g₁₆ (omega arith) h₁₆

truncated_comment-Good :
    (to_string : ℕ → Bytes)
    → IsDecimal to_string
    → (m : Metadata) → IsMetadata m
    → Good (truncated_comment to_string m)
truncated_comment-Good to_string decimal m valid =
    let (s, ps) = decimal m.sequence valid.sequence_uint in
    let (v, pv) = decimal m.wire_version (omega (arith, valid.version_uint)) in
    let tail = to_string m.wire_version ++ truncated_end in
    let middle = to_string m.sequence ++ (open_version ++ tail) in
    (
      omega (
        arith,
        length-append truncated_start middle,
        length-append (to_string m.sequence) (open_version ++ tail),
        length-append open_version tail,
        length-append (to_string m.wire_version) truncated_end,
      ),
      All-append IsPrintable truncated_start middle (omega arith) (
          All-append IsPrintable (to_string m.sequence) (open_version ++ tail) ps (
            All-append IsPrintable open_version tail (omega arith)
              (All-append IsPrintable (to_string m.wire_version) truncated_end pv (omega arith)))),
    )

-- With a `to_string` that gives at most 20 printable characters for a 64-bit number, the comment of
-- a packet fits in an option of 65535 bytes and is printable ASCII, whatever bytes the identities,
-- the type and the edge id consist of.
pub capture_comment-IsPrintable :
    (to_string : ℕ → Bytes) (edge_id direction : Bytes) (m : Metadata)
    → IsDecimal to_string
    → IsBytes edge_id
    → IsBytes direction
    → IsMetadata m
    → (length (capture_comment to_string edge_id direction m) ≤ maximum_option_length)
      × All IsPrintable (capture_comment to_string edge_id direction m)
unfolding capture_comment
capture_comment-IsPrintable to_string edge_id direction m decimal edge way valid =
    elim (Result-cases (full_comment to_string edge_id direction m)) [
      | inl (out, e) ↦
          subst (λ r. Good (or_else r (truncated_comment to_string m))) (sym e)
            (full_comment-Good to_string decimal edge_id direction edge way m valid e)
      | inr (u, e) ↦
          subst (λ r. Good (or_else r (truncated_comment to_string m))) (sym e)
            (truncated_comment-Good to_string decimal m valid)
    ]
