-- ===== src/Identity/Hex.antt =====
-- Hexadecimal digits and the packing of their pairs.
use graphx_docker.Base.{
  ℕ, ◌+◌, ◌-◌, ◌*◌, ◌/◌, ◌%◌, ◌<◌, ◌≡◌, refl, ap, ap₂, ◌∙◌, Bool, true, false, not, ◌||◌, [], ◌∷◌,
  Bytes, IsBytes, ok, arith, leb, ◌==◌, length, All, Bool-cases, inl, inr,
}
use graphx_docker.Identity.{
  hex_digit, hex_value, is_lower_hex, canonical_loop, pack_hex, unpack_hex,
}

-- A character is a lowercase hexadecimal digit when it stands for a number below 16.
pub hex_value-hex_digit : (n : ℕ) → n < 16 → hex_value (hex_digit n) ≡ ok n
unfolding hex_value hex_digit
hex_value-hex_digit n h = ground arith

pub is_lower_hex-hex_digit : (n : ℕ) → n < 16 → is_lower_hex (hex_digit n) ≡ true
unfolding is_lower_hex hex_digit
is_lower_hex-hex_digit n h = ground arith

pub hex_value-ok :
    (c : ℕ) → is_lower_hex c ≡ true → (n : ℕ) × (hex_value c ≡ ok n) × (n < 16) × (hex_digit n ≡ c)
unfolding is_lower_hex hex_value hex_digit
hex_value-ok c h = elim (Bool-cases (leb c b'9')) [
  | inl digit ↦ (c - b'0', ground arith, ground arith, ground arith)
  | inr letter ↦ (c - b'a' + 10, ground arith, ground arith, ground arith)
]

abbrev pub IsHex : Bytes → Type 0
IsHex = All (λ c. is_lower_hex c ≡ true)

-- One round of the packing loop.
pub pack_hex-cons :
    (high low : ℕ) (cs : Bytes) {h l : ℕ} {rest : Bytes}
    → hex_value high ≡ ok h
    → hex_value low ≡ ok l
    → pack_hex cs ≡ ok rest
    → pack_hex (high ∷ low ∷ cs) ≡ ok ((h * 16 + l) ∷ rest)
unfolding pack_hex
pack_hex-cons high low cs a b c = rw (a, b, c)

-- Unpacking gives two hexadecimal digits for each byte, and packing them gives the bytes back.
pub pack_hex-unpack_hex : (bytes : Bytes) → IsBytes bytes → pack_hex (unpack_hex bytes).1 ≡ ok bytes
unfolding unpack_hex
pack_hex-unpack_hex [] h = unfold pack_hex in refl
pack_hex-unpack_hex (b ∷ bytes) h =
    pack_hex-cons _ _ _ (hex_value-hex_digit (b / 16) (omega arith))
      (hex_value-hex_digit (b % 16) (omega arith)) (pack_hex-unpack_hex bytes h.1)
    ∙ ap (λ x. ok (x ∷ bytes)) (omega arith)

pub unpack_hex-IsHex : (bytes : Bytes) → IsBytes bytes → IsHex (unpack_hex bytes).1
unfolding unpack_hex
unpack_hex-IsHex [] h = tt
unpack_hex-IsHex (b ∷ bytes) h = (
  is_lower_hex-hex_digit (b / 16) (omega arith),
  (is_lower_hex-hex_digit (b % 16) (omega arith), unpack_hex-IsHex bytes h.1),
)

pub length-unpack_hex : (bytes : Bytes) → length (unpack_hex bytes).1 ≡ 2 * length bytes
unfolding unpack_hex
length-unpack_hex [] = refl
length-unpack_hex (b ∷ bytes) = omega (arith, length-unpack_hex bytes)

-- Whether a character is other than '0', as a flag collected over a string.
unfoldable pub some_nonzero : Bytes → Bool
some_nonzero [] = false
some_nonzero (c ∷ cs) = not (c == b'0') || some_nonzero cs

-- `canonical_loop` accepts the hexadecimal strings with a character other than '0'.
pub canonical_loop-IsHex :
    (nonzero : Bool) (cs : Bytes)
    → IsHex cs
    → canonical_loop nonzero cs ≡ nonzero || some_nonzero cs
unfolding canonical_loop some_nonzero
canonical_loop-IsHex nonzero [] h = ground arith
canonical_loop-IsHex nonzero (c ∷ cs) h =
    ground (arith, canonical_loop-IsHex (nonzero || not (c == b'0')) cs h.1)

pub canonical_loop-true :
    (nonzero : Bool) (cs : Bytes) → canonical_loop nonzero cs ≡ true → IsHex cs
unfolding canonical_loop
canonical_loop-true nonzero [] h = tt
canonical_loop-true nonzero (c ∷ cs) h =
    ground (arith, canonical_loop-true (nonzero || not (c == b'0')) cs)

hex_digit_zero : (n : ℕ) → n < 16 → (hex_digit n == b'0') ≡ (n == 0)
unfolding hex_digit
hex_digit_zero n h = ground arith

-- The flag `zero` of the reader is the opposite of that of the characters it makes.
pub unpack_hex-zero :
    (bytes : Bytes) → IsBytes bytes → (unpack_hex bytes).0 ≡ not (some_nonzero (unpack_hex bytes).1)
unfolding unpack_hex some_nonzero
unpack_hex-zero [] h = refl
unpack_hex-zero (b ∷ bytes) h = ground (
  arith,
  unpack_hex-zero bytes h.1,
  hex_digit_zero (b / 16) (omega arith),
  hex_digit_zero (b % 16) (omega arith),
)

-- Packing a hexadecimal string of 2 * n characters gives n bytes, which unpack to it.
pub pack_hex-IsHex :
    (n : ℕ) (cs : Bytes)
    → length cs ≡ n + n
    → IsHex cs
    → (bytes : Bytes) × (pack_hex cs ≡ ok bytes)
      × (length bytes ≡ n)
      × IsBytes bytes
      × ((unpack_hex bytes).1 ≡ cs)
unfolding unpack_hex
pack_hex-IsHex n [] e h = ([], (unfold pack_hex in refl), omega arith, tt, refl)
pack_hex-IsHex n (c ∷ []) e h = absurd (omega arith)
pack_hex-IsHex n (a ∷ b ∷ cs) e h =
    let (x, ex, hx, dx) = hex_value-ok a h.0 in
    let (y, ey, hy, dy) = hex_value-ok b h.1.0 in
    let (rest, er, lr, br, ur) = pack_hex-IsHex (n - 1) cs (omega arith) h.1.1 in
    (
      (x * 16 + y) ∷ rest,
      pack_hex-cons a b cs ex ey er,
      omega arith,
      (omega arith, br),
      ap₂ ◌∷◌ (ap hex_digit (omega arith) ∙ dx) (ap₂ ◌∷◌ (ap hex_digit (omega arith) ∙ dy) ur),
    )
