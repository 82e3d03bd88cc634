-- ===== src/Examples/Radio.antt =====
-- The radio parts at concrete inputs.
use graphx_docker.Base.{
  ℕ, zero, suc, ◌+◌, IsUint, ◌*◌, ◌/◌, ◌%◌, ◌^◌, ◌≡◌, refl, Bool, true, false, List, [], ◌∷◌, codes,
  ok, ltb, ◌==◌, length, All, replicate, some, ℤ, pos, negsuc, negate, ◌+ℤ◌, arith,
}
use graphx_docker.Vita.Device.{
  Doubles, Device, samples, default_settings, new_device, validate, range,
}
use graphx_docker.Vita.Device.Stream.{
  IsTone, increment_of, tone_amplitude, read_stream, read_stream_lem,
}
use graphx_docker.Vita.Spectrum.{Spectrum, Timeline}
use graphx_docker.Vita.Spectrum.Codec.{encoded, encode_spectrum, decode_spectrum}
use graphx_docker.Vita.Spectrum.Fields.{IsSpectrum}
use graphx_docker.Vita.Spectrum.RoundTrip.{decode_spectrum-encode_spectrum}
use graphx_docker.Vita.Device.Reach.{
  Operation, sets_up, activates, reads, sets_gain, skips, closes, IsSound, operate_all,
  new_device-IsSound,
}

abbrev less : ℤ → ℤ → Bool
less (pos a) (pos b) = ltb a b
less (pos a) (negsuc b) = false
less (negsuc a) (pos b) = true
less (negsuc a) (negsuc b) = ltb b a

abbrev same : ℤ → ℤ → Bool
same (pos a) (pos b) = a == b
same (negsuc a) (negsuc b) = a == b
same _ _ = false

abbrev negative : ℤ → ℤ
negative (pos n) = negate n
negative (negsuc n) = pos (suc n)

abbrev magnitude : ℤ → ℕ
magnitude (pos n) = n
magnitude (negsuc n) = suc n

-- Integers in the place of floating-point numbers: rough, but enough for the comparisons.
abbrev integers : Doubles ℤ
integers = record {
  less = less;
  same = same;
  is_finite = λ a. true;
  of_ℕ = pos;
  negative = negative;
  plus = λ a b. a +ℤ b;
  minus = λ a b. a +ℤ negative b;
  times = λ a b. pos (magnitude a * magnitude b);
  over = λ a b. pos (magnitude a / magnitude b);
  floor = λ a. a;
  absolute = λ a. pos (magnitude a);
  cosine = λ a. pos 1;
  sine = λ a. pos 0;
  remainder = λ a b. pos (magnitude a % magnitude b);
  power = λ a b. pos (magnitude a ^ magnitude b);
  pi = pos 3;
  to_uint64 = magnitude;
  round = λ a. a;
  cycles = λ offset count rate. pos 0;
}

abbrev device : Device ℤ
device = record {
  settings = default_settings integers;
  signal = pos 100000100;
  amplitude = pos 1;
  phase = pos 0;
  initial_phase = pos 0;
  clipped = 0;
  sample = 0;
  opened = false;
  active = false;
}

constructs : new_device integers (pos 100000100) (pos 1) (pos 0) ≡ ok device
unfolding new_device range
constructs = refl

default_valid : validate integers (default_settings integers) ≡ ok tt
unfolding validate range
default_valid = refl

abbrev calls : List (Operation ℤ)
calls =
    sets_up true (codes "CS16") [] true
    ∷ activates true (pos 0) (pos 0) 0
    ∷ sets_gain true 0 (pos 100)
    ∷ reads true true 4
    ∷ skips 1000
    ∷ closes true
    ∷ []

new_device-IsSound_example : IsSound integers (operate_all integers calls device)
new_device-IsSound_example =
    new_device-IsSound integers (pos 100000100) (pos 1) (pos 0) default_valid constructs calls

abbrev running : Device ℤ
running = record device { sample = 1500000; opened = true; active = true }

read_stream_lem_example :
    (values : List (ℤ × ℤ)) × (s' : Device ℤ) × (read_stream integers true true 4 running
      ≡ ok (samples (pos (1500000 * 1000000000 / 1000000)) values, s'))
    × (length values ≡ 4)
    × IsTone integers
        (tone_amplitude integers running (pos 100000100 +ℤ negative running.settings.center))
        (increment_of integers running)
        (pos 0)
        values
    × (s'.sample ≡ 1500004)
    × (s'.settings ≡ default_settings integers)
    × (s'.opened ≡ true)
    × (s'.active ≡ true)
read_stream_lem_example =
    read_stream_lem integers running 4 refl refl (omega arith) (omega arith) (omega arith)
      (omega arith) (omega arith)

-- A timeline that counts samples from a second on, and never fails.
abbrev counting : Timeline
counting = record {
  Clock = ℕ;
  create = λ epoch rate. some epoch.seconds;
  advance = λ clock count. some (clock + count);
  time = λ clock. record { seconds = clock; picoseconds = 0 };
}

-- 64 points, the first sample missing, a boundary at the third.
abbrev spectrum : Spectrum
spectrum = record {
  stream = 3;
  sequence = 9;
  rate = 1000;
  size = 64;
  hop = 32;
  valid = 63;
  hann = true;
  center = 100000000;
  discontinuities = 1;
  ordinal = 320;
  sequence_gaps = 2;
  begin_time = record { seconds = 5320; picoseconds = 0 };
  end_time = record { seconds = 5384; picoseconds = 0 };
  epoch = record { seconds = 5000; picoseconds = 0 };
  power = 1065353216 ∷ 1056964608 ∷ replicate 62 0;
  gaps = 128 ∷ replicate 7 0;
  boundaries = 32 ∷ replicate 11 0;
}

zeros-IsUint : (n : ℕ) → All (IsUint 4) (replicate n 0)
zeros-IsUint zero = tt
zeros-IsUint (suc n) = (omega arith, zeros-IsUint n)

spectrum-IsSpectrum : IsSpectrum spectrum
spectrum-IsSpectrum = record {
  sequence_uint = omega arith;
  discontinuities_uint = omega arith;
  ordinal_uint = omega arith;
  gaps_uint = omega arith;
  begin_seconds = omega arith;
  begin_picoseconds = omega arith;
  end_seconds = omega arith;
  end_picoseconds = omega arith;
  epoch_seconds = omega arith;
  epoch_picoseconds = omega arith;
  power_uint = (omega arith, (omega arith, zeros-IsUint 62));
}

encodes : encode_spectrum counting spectrum ≡ ok (encoded spectrum)
unfolding encode_spectrum
encodes = refl

decode_spectrum-encode_spectrum_example : decode_spectrum counting (encoded spectrum) ≡ ok spectrum
decode_spectrum-encode_spectrum_example =
    decode_spectrum-encode_spectrum counting spectrum spectrum-IsSpectrum encodes
