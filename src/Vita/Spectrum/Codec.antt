-- ===== src/Vita/Spectrum/Codec.antt =====
-- Power spectra as byte strings: `encode_spectrum` and `decode_spectrum` of vita/processing.cpp.
use graphx_docker.Base.{
  ℕ, zero, suc, ◌+◌, ◌-◌, ◌*◌, ◌/◌, ◌%◌, ◌^◌, Bool, not, ◌&&◌, List, [], ◌∷◌, Bytes, Result, ok,
  ◌>>=◌, ◌>>◌, leb, ◌==◌, if◌then◌else◌, length, take, drop, replicate,
}
use graphx_docker.Wire.{put, get_loop}
use graphx_docker.Vita.Spectrum.{
  SpectrumError, Time, Spectrum, Timeline, require, has_single_bit, validate,
}

-- `spectrum_bytes`
abbrev pub spectrum_bytes : ℕ → ℕ
spectrum_bytes n = 132 + n / 4 + 4 * n

unfoldable pub size_of : ℕ → Result SpectrumError ℕ
size_of n = do require (leb 64 n && leb n 2048 && has_single_bit n); ok (spectrum_bytes n)

-- Bytes over those that stand at an offset.
unfoldable pub overwrite : Bytes → ℕ → Bytes → Bytes
overwrite [] offset bytes = []
overwrite (o ∷ out) zero [] = o ∷ out
overwrite (o ∷ out) zero (b ∷ bytes) = b ∷ overwrite out zero bytes
overwrite (o ∷ out) (suc n) bytes = o ∷ overwrite out n bytes

-- A call of `put`: the offset, the value and the count of its bytes.
abbrev pub Field : Type 0
Field = ℕ × ℕ × ℕ

-- `put`, one call after the other.
unfoldable pub put_all : List Field → Bytes → Bytes
unfolding overwrite put
put_all [] out = out
put_all ((offset, value, count) ∷ fields) out =
    put_all fields (overwrite out offset (put count value))

abbrev pub flag : Bool → ℕ
flag b = if b then 1 else 0

-- The calls of `put` in `encode_spectrum`, in order.
abbrev pub header_fields : Spectrum → List Field
header_fields s =
    (0, 0x47585032, 4)
    ∷ (4, 1, 2)
    ∷ (6, 128, 2)
    ∷ (8, spectrum_bytes s.size, 4)
    ∷ (12, s.stream, 4)
    ∷ (16, s.sequence, 4)
    ∷ (20, s.size, 4)
    ∷ (24, s.hop, 4)
    ∷ (28, flag s.hann, 1)
    ∷ (29, 1, 1)
    ∷ (30, 1, 1)
    ∷ (32, s.center, 8)
    ∷ (40, s.rate, 8)
    ∷ (48, s.begin_time.seconds, 8)
    ∷ (56, s.begin_time.picoseconds, 8)
    ∷ (64, s.end_time.seconds, 8)
    ∷ (72, s.end_time.picoseconds, 8)
    ∷ (80, s.valid, 4)
    ∷ (84, s.size - s.valid, 4)
    ∷ (88, s.discontinuities, 8)
    ∷ (96, s.epoch.seconds, 8)
    ∷ (104, s.epoch.picoseconds, 8)
    ∷ (112, s.ordinal, 8)
    ∷ (120, s.sequence_gaps, 8)
    ∷ []

-- The loop over the powers, from an offset on.
unfoldable pub put_powers : List ℕ → ℕ → Bytes → Bytes
unfolding overwrite put
put_powers [] offset out = out
put_powers (bits ∷ power) offset out =
    put_powers power (offset + 4) (overwrite out offset (put 4 bits))

-- The bytes of `encode_spectrum`.
unfoldable pub encoded : Spectrum → Bytes
unfolding put_all put_powers
encoded s =
    let out = put_all (header_fields s) (replicate (spectrum_bytes s.size) 0) in
    let with_gaps = overwrite out 128 s.gaps in
    let with_boundaries = overwrite with_gaps (128 + s.size / 8) s.boundaries in
    put_powers s.power (132 + s.size / 4) with_boundaries

-- `encode_spectrum`
unfoldable pub encode_spectrum : Timeline → Spectrum → Result SpectrumError Bytes
unfolding validate encoded
encode_spectrum timeline s = do validate timeline s; ok (encoded s)

-- `get`
unfoldable pub get_at : Bytes → ℕ → ℕ → Result SpectrumError ℕ
get_at input offset count = do
  require (leb (offset + count) (length input))
  ok (get_loop count 0 (drop offset input)).0

-- The loop over the powers in `decode_spectrum`, for those that are left.
unfoldable pub get_powers : ℕ → ℕ → Bytes → Result SpectrumError (List ℕ)
unfolding get_at
get_powers zero offset input = ok []
get_powers (suc n) offset input = do
  bits ← get_at input offset 4
  rest ← get_powers n (offset + 4) input
  ok (bits ∷ rest)

-- A field that must have one value.
abbrev expect : Bytes → ℕ → ℕ → ℕ → Result SpectrumError (Unit {0})
expect input offset count value = do found ← get_at input offset count; require (found == value)

-- A time in two fields.
abbrev get_time : Bytes → ℕ → Result SpectrumError Time
get_time input offset = do
  seconds ← get_at input offset 8
  picoseconds ← get_at input (offset + 8) 8
  ok (record { seconds = seconds; picoseconds = picoseconds })

-- The part of `decode_spectrum` behind its first fields.
unfoldable pub decoded : Bytes → ℕ → ℕ → ℕ → ℕ → Bool → Result SpectrumError Spectrum
unfolding get_at get_powers
decoded input stream sequence size hop hann = do
  center ← get_at input 32 8
  rate ← get_at input 40 8
  require (leb rate 2000000)
  begin_time ← get_time input 48
  end_time ← get_time input 64
  valid ← get_at input 80 4
  missing ← get_at input 84 4
  require (missing == (size + 2 ^ 32 - valid) % 2 ^ 32)
  discontinuities ← get_at input 88 8
  epoch ← get_time input 96
  ordinal ← get_at input 112 8
  sequence_gaps ← get_at input 120 8
  power ← get_powers size (132 + size / 4) input
  ok (record {
    stream = stream;
    sequence = sequence;
    rate = rate;
    size = size;
    hop = hop;
    valid = valid;
    hann = hann;
    center = center;
    discontinuities = discontinuities;
    ordinal = ordinal;
    sequence_gaps = sequence_gaps;
    begin_time = begin_time;
    end_time = end_time;
    epoch = epoch;
    power = power;
    gaps = take (size / 8) (drop 128 input);
    boundaries = take (size / 8 + 4) (drop (128 + size / 8) input);
  })

-- `decode_spectrum`
unfoldable pub decode_spectrum : Timeline → Bytes → Result SpectrumError Spectrum
unfolding get_at size_of validate decoded
decode_spectrum timeline input = do
  require (leb 128 (length input))
  expect input 0 4 0x47585032
  expect input 4 2 1
  expect input 6 2 128
  expect input 8 4 (length input)
  stream ← get_at input 12 4
  sequence ← get_at input 16 4
  size ← get_at input 20 4
  hop ← get_at input 24 4
  bytes ← size_of size
  require (length input == bytes)
  hann ← get_at input 28 1
  require (leb hann 1)
  expect input 29 1 1
  expect input 30 1 1
  expect input 31 1 0
  s ← decoded input stream sequence size hop (not (hann == 0))
  validate timeline s
  ok s
