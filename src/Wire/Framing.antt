-- ===== src/Wire/Framing.antt =====
-- framing.cpp: a frame is a 32-bit length, most significant byte first, and the payload.
use graphx_docker.Base.{
  ℕ, ◌+◌, ◌*◌, ◌/◌, ◌%◌, ◌^◌, ◌≤◌, ◌<◌, ◌≡◌, refl, sym, ◌∙◌, [], ◌∷◌, Bytes, IsBytes, Result, ok,
  ◌>>◌, guard, guard-eq-ok, leb, leb→le, length, take, drop, arith, subst, ok-injective,
}
use graphx_docker.Wire.{Error, frame_too_large, frame_exceeds_maximum, max_frame_bytes}

-- The four prefix bytes and the payload.
abbrev pub prefixed : Bytes → Bytes
prefixed payload =
    let size : ℕ = length payload in
    (size / 2 ^ 24 % 256) ∷ (size / 2 ^ 16 % 256) ∷ (size / 2 ^ 8 % 256) ∷ (size % 256) ∷ payload

-- `frame`
unfoldable pub frame : Bytes → Result Error Bytes
frame payload = do
  guard (leb (length payload) max_frame_bytes) frame_too_large
  ok (prefixed payload)

-- The loop of `decode_frame_size`: `size = (size << 8) | byte` on a uint32_t.
unfoldable pub decode_loop : ℕ → Bytes → ℕ
decode_loop size [] = size
decode_loop size (byte ∷ prefix) = decode_loop (size * 256 % 2 ^ 32 + byte) prefix

-- `decode_frame_size`, on the four bytes of a prefix.
unfoldable pub decode_frame_size : Bytes → Result Error ℕ
unfolding decode_loop
decode_frame_size prefix = do
  let size = decode_loop 0 prefix
  guard (leb size max_frame_bytes) frame_exceeds_maximum
  ok size

-- The prefix spells a 32-bit length.
decode_loop-prefixed :
    (n : ℕ) (payload : Bytes)
    → n ≡ length payload
    → n < 2 ^ 32
    → decode_loop 0 (take 4 (prefixed payload)) ≡ n
unfolding decode_loop
decode_loop-prefixed n payload e h = omega arith

-- A frame is four bytes longer than its payload, its prefix decodes to the payload's length, and
-- the payload stands behind the prefix.
pub decode_frame_size-frame :
    (payload framed : Bytes)
    → frame payload ≡ ok framed
    → (length framed ≡ length payload + 4)
      × (decode_frame_size (take 4 framed) ≡ ok (length payload))
      × (drop 4 framed ≡ payload)
unfolding frame decode_frame_size
decode_frame_size-frame payload framed e =
    let (fits, e') = guard-eq-ok (leb (length payload) max_frame_bytes) frame_too_large _ e in
    let h : length payload ≤ max_frame_bytes = leb→le _ _ fits in
    subst
      (λ (out : Bytes).
        (length out ≡ length payload + 4)
        × (decode_frame_size (take 4 out) ≡ ok (length payload))
        × (drop 4 out ≡ payload))
      (ok-injective e')
      (
        omega arith,
        rw (decode_loop-prefixed (length payload) payload refl (omega arith), fits),
        refl,
      )

-- The digits of a number to the base 256.
digits_of :
    (n a b c d : ℕ)
    → IsBytes (a ∷ b ∷ c ∷ d ∷ [])
    → n ≡ ((a * 256 + b) * 256 + c) * 256 + d
    → (n / 2 ^ 24 % 256 ≡ a) × (n / 2 ^ 16 % 256 ≡ b) × (n / 2 ^ 8 % 256 ≡ c) × (n % 256 ≡ d)
digits_of n a b c d bytes e = omega arith

decode_loop_four :
    (a b c d : ℕ)
    → IsBytes (a ∷ b ∷ c ∷ d ∷ [])
    → decode_loop 0 (a ∷ b ∷ c ∷ d ∷ []) ≡ ((a * 256 + b) * 256 + c) * 256 + d
unfolding decode_loop
decode_loop_four a b c d bytes = omega arith

-- Conversely, four bytes that decode to the length of the bytes behind them are the prefix that
-- `frame` writes: a byte stream is cut into frames in one way only.
pub frame-decode_frame_size :
    (a b c d : ℕ) (payload : Bytes)
    → IsBytes (a ∷ b ∷ c ∷ d ∷ [])
    → decode_frame_size (a ∷ b ∷ c ∷ d ∷ []) ≡ ok (length payload)
    → frame payload ≡ ok (a ∷ b ∷ c ∷ d ∷ payload)
unfolding frame decode_frame_size
frame-decode_frame_size a b c d payload bytes e =
    let prefix : Bytes = a ∷ b ∷ c ∷ d ∷ [] in
    let (fits, e') = guard-eq-ok (leb (decode_loop 0 prefix) max_frame_bytes) _ _ e in
    let size = ok-injective e' in
    let (ea, eb, ec, ed) =
      digits_of (length payload) a b c d bytes (sym size ∙ decode_loop_four a b c d bytes) in
    rw (rw size at fits) (cc (ea, eb, ec, ed))
