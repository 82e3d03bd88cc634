-- ===== src/Identity.antt =====
-- The identities of envelope.cpp: 128-bit correlation identifiers, spelled by 32 lowercase
-- hexadecimal characters and sent as 16 bytes.
pub mod Hex
pub mod RoundTrip
use graphx_docker.Base.{
  ℕ, ◌+◌, ◌-◌, ◌*◌, ◌/◌, ◌%◌, Bool, true, false, not, ◌&&◌, ◌||◌, [], ◌∷◌, Bytes, Result, ok, err,
  ◌>>=◌, ◌>>◌, guard, leb, ltb, ◌==◌, if◌then◌else◌, length, take, drop, replicate,
}
use graphx_docker.Wire.{
  Error, Field, identity_not_hexadecimal, identity_not_canonical, zero_identity, require,
}

-- kIdentityHexLength
abbrev pub identity_hex_length : ℕ
identity_hex_length = 32

unfoldable pub hex_digit : ℕ → ℕ
hex_digit value = if ltb value 10 then b'0' + value else b'a' + value - 10

unfoldable pub hex_value : ℕ → Result Error ℕ
hex_value c =
    if leb b'0' c && leb c b'9'
    then ok (c - b'0')
    else if leb b'a' c && leb c b'f'
    then ok (c - b'a' + 10)
    else err identity_not_hexadecimal

-- The test of one character in `is_canonical_identity`.
unfoldable pub is_lower_hex : ℕ → Bool
is_lower_hex c = (leb b'0' c && leb c b'9') || (leb b'a' c && leb c b'f')

-- The loop of `is_canonical_identity`, with the flag `nonzero`.
unfoldable pub canonical_loop : Bool → Bytes → Bool
canonical_loop nonzero [] = nonzero
canonical_loop nonzero (c ∷ cs) =
    if not (is_lower_hex c) then false else canonical_loop (nonzero || not (c == b'0')) cs

unfoldable pub is_canonical_identity : Bytes → Bool
unfolding canonical_loop is_lower_hex
is_canonical_identity value =
    if not (length value == identity_hex_length) then false else canonical_loop false value

-- The loop of `put_identity`: two characters make one byte. The high digit is shifted by four
-- bits, and the low digit is below 16. A length of 32 has no odd character left over.
unfoldable pub pack_hex : Bytes → Result Error Bytes
unfolding hex_value
pack_hex [] = ok []
pack_hex (_ ∷ []) = err identity_not_hexadecimal
pack_hex (high ∷ low ∷ cs) = do
  h ← hex_value high
  l ← hex_value low
  rest ← pack_hex cs
  ok ((h * 16 + l) ∷ rest)

abbrev is_empty : Bytes → Bool
is_empty [] = true
is_empty (_ ∷ _) = false

unfoldable pub put_identity : Bytes → Field → Bool → Result Error Bytes
put_identity value field optional =
    if optional && is_empty value
    then ok (replicate 16 0)
    else if not (is_canonical_identity value)
    then err (identity_not_canonical field)
    else pack_hex value

-- The loop of `Reader::identity` over the 16 bytes: the flag `zero` and the characters.
unfoldable pub unpack_hex : Bytes → Bool × Bytes
unfolding hex_digit
unpack_hex [] = (true, [])
unpack_hex (byte ∷ bytes) =
    let (zero, value) = unpack_hex bytes in
    (byte == 0 && zero, hex_digit (byte / 16) ∷ hex_digit (byte % 16) ∷ value)

-- The end of `Reader::identity`, on the flag `zero` and the characters.
abbrev pub identity_result : Bool → Bool → Bytes → Bytes → Result Error (Bytes × Bytes)
identity_result optional zero value rest =
    if zero then (if optional then ok ([], rest) else err zero_identity) else ok (value, rest)

-- `Reader::identity`
unfoldable pub get_identity : Bool → Bytes → Result Error (Bytes × Bytes)
get_identity optional r = do
  require 16 r
  let (zero, value) = unpack_hex (take 16 r)
  identity_result optional zero value (drop 16 r)
