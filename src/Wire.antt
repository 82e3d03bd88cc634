-- ===== src/Wire.antt =====
-- The byte-level primitives of envelope.cpp and framing.cpp. A writer appends to a buffer, and
-- is modelled by the bytes that it appends; a `Reader` is modelled by the bytes from its
-- position to the end.
pub mod Number
pub mod Framing
use graphx_docker.Base.{
  ℕ, zero, suc, ◌+◌, ◌*◌, ◌/◌, ◌%◌, ◌^◌, List, [], ◌∷◌, ◌++◌, Bytes, Result, ok, err, ◌>>=◌, ◌>>◌,
  guard, leb, length, take, drop,
}

-- Which identity field a message names.
pub data Field : Type 0 where
  message_id trace_id parent_message_id : Field

-- The exceptions of the codec: one constructor for each message.
pub data Error : Type 0 where
  -- `std::length_error`
  frame_too_large frame_exceeds_maximum envelope_exceeds_maximum too_many_attributes : Error
  string_too_large : Error
  -- `std::invalid_argument`
  identity_not_hexadecimal : Error
  identity_not_canonical : Field → Error
  wire_version_unsupported : ℕ → Error
  -- `std::runtime_error`
  truncated zero_identity invalid_magic attributes_out_of_range duplicate_key trailing_bytes : Error
  envelope_version_unsupported : ℕ → Error

-- kMaxFrameBytes and UINT32_MAX
abbrev pub max_frame_bytes : ℕ
max_frame_bytes = 16777216

abbrev pub uint32_max : ℕ
uint32_max = 4294967295

-- `put<T>` for a T of w bytes: the most significant byte first. A shift by 8 * k bits to the
-- right is a division by 256 ^ k, and the mask 0xff is a remainder.
unfoldable pub put : ℕ → ℕ → Bytes
put zero v = []
put (suc k) v = (v / 256 ^ k % 256) ∷ put k v

-- `Reader::require`
unfoldable pub require : ℕ → Bytes → Result Error (Unit {0})
require count r = guard (leb count (length r)) truncated

-- The loop of `Reader::get<T>`: `value = (value << 8) | byte` on a uint64_t, whose low byte is
-- zero after the shift. The buffer holds enough bytes when it runs.
pub get_loop : ℕ → ℕ → Bytes → ℕ × Bytes
get_loop zero value r = (value, r)
get_loop (suc k) value [] = (value, [])
get_loop (suc k) value (b ∷ r) = get_loop k (value * 256 % 2 ^ 64 + b) r

-- `Reader::get<T>` for a T of w bytes, with the final cast to T.
unfoldable pub get : ℕ → Bytes → Result Error (ℕ × Bytes)
unfolding get_loop
get w r = do require w r; let (value, rest) = get_loop w 0 r; ok (value % 256 ^ w, rest)

-- `put_string`: a 32-bit length, then the bytes.
unfoldable pub put_string : Bytes → Result Error Bytes
put_string s = do guard (leb (length s) uint32_max) string_too_large; ok (put 4 (length s) ++ s)

-- `Reader::string`
unfoldable pub get_string : Bytes → Result Error (Bytes × Bytes)
get_string r = do (size, rest) ← get 4 r; require size rest; ok (take size rest, drop size rest)
