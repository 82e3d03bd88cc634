-- ===== src/Vita/Spectrum.antt =====
-- The power spectra of vita/processing.hpp and what vita/processing.cpp takes as a valid one.
-- The sample timeline of the VITA runtime is a parameter; a `float` is its bit pattern.
pub mod Codec
pub mod Overwrite
pub mod Fields
pub mod RoundTrip
use graphx_docker.Base.{
  ℕ, zero, suc, ◌+◌, ◌-◌, ◌*◌, ◌/◌, ◌%◌, ◌^◌, Bool, true, false, not, ◌&&◌, ◌||◌, Option, none,
  some, List, [], ◌∷◌, ◌++◌, Bytes, Result, ok, err, ◌>>=◌, ◌>>◌, guard, leb, ltb, ◌==◌,
  if◌then◌else◌, length, take, drop, replicate,
}

-- The only exception: `std::invalid_argument("invalid power spectrum")`.
pub data SpectrumError : Type 0 where
  invalid_spectrum : SpectrumError

-- `ProtocolTime`
pub record Time : Type 0 where
  pub seconds : ℕ
  pub picoseconds : ℕ

pub record Spectrum : Type 0 where
  pub stream : ℕ
  pub sequence : ℕ
  pub rate : ℕ
  pub size : ℕ
  pub hop : ℕ
  pub valid : ℕ
  pub hann : Bool
  pub center : ℕ
  pub discontinuities : ℕ
  pub ordinal : ℕ
  pub sequence_gaps : ℕ
  pub begin_time : Time
  pub end_time : Time
  pub epoch : Time
  pub power : List ℕ
  pub gaps : Bytes
  pub boundaries : Bytes

-- `SampleTimeline` of the VITA runtime: made from an epoch and a rate, advanced by a count of
-- samples, where both can fail.
pub record Timeline : Type 1 where
  pub Clock : Type 0
  pub create : Time → ℕ → Option Clock
  pub advance : Clock → ℕ → Option Clock
  pub time : Clock → Time

abbrev pub require : Bool → Result SpectrumError (Unit {0})
require holds = guard holds invalid_spectrum

-- `std::has_single_bit` on 32 bits.
abbrev single_bit : ℕ → ℕ → Bool
single_bit zero n = false
single_bit (suc k) n =
    let rest = single_bit k (n / 2) in if n == 1 then true else n % 2 == 0 && rest

abbrev pub has_single_bit : ℕ → Bool
has_single_bit n = single_bit 32 n

-- The conditions of `validate` on numbers.
abbrev pub config_fits : ℕ → ℕ → Bool
config_fits rate size =
    leb 1000 rate && leb rate 2000000 && leb 64 size && leb size 2048 && has_single_bit size

abbrev pub hop_fits : Spectrum → Bool
hop_fits s = not (s.hop == 0) && leb s.hop s.size && s.size % s.hop == 0

abbrev pub place_fits : Spectrum → Bool
place_fits s = leb 1 s.stream && leb s.stream 4 && leb 1000000 s.center && leb s.center 6000000000

abbrev pub sizes_fit : Spectrum → Bool
sizes_fit s =
    leb s.valid s.size
    && length s.power == s.size
    && length s.gaps == s.size / 8
    && length s.boundaries == s.size / 8 + 4

-- `ProcessingConfig::validate`, on its three numbers.
unfoldable pub validate_config : ℕ → ℕ → ℕ → Result SpectrumError (Unit {0})
validate_config rate size overlap = do
  require (config_fits rate size)
  require (overlap == 0 || overlap == 50 || overlap == 75)

-- The loop that sums `popcount`.
abbrev bits_of : ℕ → ℕ → ℕ
bits_of zero b = 0
bits_of (suc k) b = b % 2 + bits_of k (b / 2)

abbrev pub missing_count : Bytes → ℕ
missing_count [] = 0
missing_count (b ∷ gaps) = bits_of 8 b + missing_count gaps

abbrev all_zero : Bytes → Bool
all_zero [] = true
all_zero (b ∷ bytes) = b == 0 && all_zero bytes

-- `std::isfinite(power) && power >= 0` on the bits of a `float`: a zero may have a sign.
abbrev is_power : ℕ → Bool
is_power bits = not (bits / 2 ^ 23 % 256 == 255) && (ltb bits (2 ^ 31) || bits == 2 ^ 31)

abbrev all_powers : List ℕ → Bool
all_powers [] = true
all_powers (bits ∷ power) = is_power bits && all_powers power

abbrev same_time : Time → Time → Bool
same_time a b = a.seconds == b.seconds && a.picoseconds == b.picoseconds

-- A value that must be there.
abbrev present : {A : Type 0} → Option A → Result SpectrumError A
present none = err invalid_spectrum
present (some a) = ok a

-- The times of a spectrum, on the timeline.
abbrev validate_times : Timeline → Spectrum → Result SpectrumError (Unit {0})
validate_times timeline s = do
  created ← present (timeline.create s.epoch s.rate)
  begun ← present (timeline.advance created s.ordinal)
  require (same_time (timeline.time begun) s.begin_time)
  ended ← present (timeline.advance begun s.size)
  require (same_time (timeline.time ended) s.end_time)

-- `boundaries[size / 8] & 127`
abbrev tail_bits : Bytes → ℕ → ℕ
tail_bits boundaries n = elim (drop n boundaries) [ [] ↦ 0 | b ∷ rest ↦ b % 128 ]

-- `validate`
unfoldable pub validate : Timeline → Spectrum → Result SpectrumError (Unit {0})
unfolding validate_config
validate timeline s = do
  require (hop_fits s)
  validate_config s.rate s.size (100 - s.hop * 100 % 2 ^ 32 / s.size)
  require (place_fits s)
  require (sizes_fit s)
  require (tail_bits s.boundaries (s.size / 8) == 0)
  require (all_zero (drop (s.size / 8 + 1) s.boundaries))
  validate_times timeline s
  require (s.valid + missing_count s.gaps == s.size)
  require (all_powers s.power)
