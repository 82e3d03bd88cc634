-- ===== src/Vita/Device/Stream.antt =====
-- `readStream` of `VirtualDevice`: the samples of a tone, and their time stamps.
use graphx_docker.Base.{
  ℕ, zero, suc, ◌+◌, ◌*◌, ◌/◌, ◌%◌, ◌^◌, ◌≤◌, ◌<◌, ◌≡◌, refl, ap, sym, ◌∙◌, Bool, true, not, ◌&&◌,
  ◌||◌, List, [], ◌∷◌, Result, ok, ◌>>◌, ltb, ◌==◌, if◌then◌else◌, length, ℤ, pos, negsuc, arith,
  false, signed64, signed64-pos, Bool-cases, inl, inr, ◌⊎◌,
}
use native.Mathlib.Nat.{mul-add-div_right, div-add-mod, mod-lt}
use graphx_docker.Vita.Device.{
  Doubles, DeviceError, Status, timed_out, stream_error, samples, Device, to_int16, check, two_pi,
}

-- The time of a sample number, in nanoseconds, on `std::uint64_t`.
abbrev nanoseconds : ℕ → ℕ → ℕ
nanoseconds sample rate =
    (sample / rate * 1000000000 % 2 ^ 64 + sample % rate * 1000000000 % 2 ^ 64 / rate) % 2 ^ 64

-- The time stamp, which is cast to `long long`.
abbrev pub time_stamp : ℕ → ℕ → ℤ
time_stamp sample rate = signed64 (nanoseconds sample rate)

module _ {D : Type 0} (d : Doubles D) where
  -- `std::abs(offset) <= bandwidth / 2 && std::abs(offset) < rate / 2`
  abbrev in_band : Device D → D → Bool
  in_band s offset =
      (d.less (d.absolute offset) (d.over s.settings.bandwidth (d.of_ℕ 2))
        || d.same (d.absolute offset) (d.over s.settings.bandwidth (d.of_ℕ 2)))
      && d.less (d.absolute offset) (d.over s.settings.rate (d.of_ℕ 2))

  -- The amplitude of the tone: none outside the band.
  unfoldable pub tone_amplitude : Device D → D → D
  tone_amplitude s offset =
      if in_band s offset
      then d.times (d.times (d.of_ℕ 32767) s.amplitude)
          (d.power (d.of_ℕ 10) (d.over s.settings.gain (d.of_ℕ 20)))
      else d.of_ℕ 0

  abbrev pub minimum : D
  minimum = d.negative (d.of_ℕ 32768)

  abbrev pub maximum : D
  maximum = d.of_ℕ 32767

  -- `std::clamp`
  abbrev clamp : D → D
  clamp value =
      if d.less value minimum then minimum else if d.less maximum value then maximum else value

  -- The lambda `convert`, with the counter `clipped_` and the value.
  unfoldable pub convert : D → ℕ → ℕ × ℤ
  convert value clipped = (
    if d.less value minimum || d.less maximum value then (clipped + 1) % 2 ^ 64 else clipped,
    to_int16 (d.round (clamp value)),
  )

  -- The loop over the samples: the phase, the clipped values, and the samples.
  unfoldable pub sample_loop : ℕ → D → D → D → ℕ → D × ℕ × List (ℤ × ℤ)
  unfolding convert
  sample_loop zero amplitude increment phase clipped = (phase, clipped, [])
  sample_loop (suc n) amplitude increment phase clipped =
      let (clipped_cosine, real) = convert (d.times amplitude (d.cosine phase)) clipped in
      let (clipped_sine, imaginary) = convert (d.times amplitude (d.sine phase)) clipped_cosine in
      let (last_phase, last_clipped, rest) =
        sample_loop n amplitude increment (d.remainder (d.plus phase increment) (two_pi d))
          clipped_sine in
      (last_phase, last_clipped, (real, imaginary) ∷ rest)

  abbrev pub read_samples : ℕ → Device D → Status × Device D
  read_samples count s =
      let offset = d.minus s.signal s.settings.center in
      let increment =
        d.over (d.times (two_pi d) (d.remainder offset s.settings.rate)) s.settings.rate in
      let (phase, clipped, values) =
        sample_loop count (tone_amplitude s offset) increment s.phase s.clipped in
      (
        samples (time_stamp s.sample (d.to_uint64 s.settings.rate)) values,
        record s { phase = phase; clipped = clipped; sample = (s.sample + count) % 2 ^ 64 },
      )

  -- The rest of `readStream` on an active stream.
  abbrev pub read_active : Bool → ℕ → Device D → Result DeviceError (Status × Device D)
  read_active buffered count s =
      if not buffered || count == 0 || ltb 1024 count
      then ok (stream_error, s)
      else ok (read_samples count s)

  -- `readStream`: `buffered` says whether there is a buffer. The timeout is not looked at.
  unfoldable pub read_stream : Bool → Bool → ℕ → Device D → Result DeviceError (Status × Device D)
  unfolding check tone_amplitude sample_loop
  read_stream own buffered count s = do
    check d own s
    if not s.active then ok (timed_out, s) else read_active buffered count s

  length-sample_loop :
      (n : ℕ) (amplitude increment phase : D) (clipped : ℕ)
      → length (sample_loop n amplitude increment phase clipped).2 ≡ n
  unfolding sample_loop
  length-sample_loop zero amplitude increment phase clipped = refl
  length-sample_loop (suc n) amplitude increment phase clipped =
      ap suc (length-sample_loop n amplitude increment _ _)

-- A signed 16-bit integer.
abbrev pub IsInt16 : ℤ → Type 0
IsInt16 (pos n) = n < 32768
IsInt16 (negsuc n) = n < 32768

to_int16-IsInt16 : (n : ℤ) → IsInt16 (to_int16 n)
to_int16-IsInt16 n = grind arith

module _ {D : Type 0} (d : Doubles D) where
  -- The limits take the place of a value outside of them.
  abbrev pub IsClamped : D → D → Type 0
  IsClamped value c =
      ((d.less value (minimum d) ≡ true) × (c ≡ minimum d))
      ⊎ ((d.less (maximum d) value ≡ true) × (c ≡ maximum d))
      ⊎ ((d.less value (minimum d) ≡ false) × (d.less (maximum d) value ≡ false) × (c ≡ value))

  -- The 16-bit integer of a value.
  abbrev pub IsPoint : D → ℤ → Type 0
  IsPoint value n = IsInt16 n × ((c : D) × IsClamped value c × (n ≡ to_int16 (d.round c)))

  -- The samples of a tone, from a phase on: cosine and sine, and the phase goes on by the increment.
  abbrev pub IsTone : D → D → D → List (ℤ × ℤ) → Type 0
  IsTone amplitude increment phase [] = Unit
  IsTone amplitude increment phase ((real, imaginary) ∷ values) =
      IsPoint (d.times amplitude (d.cosine phase)) real
      × IsPoint (d.times amplitude (d.sine phase)) imaginary
      × IsTone amplitude increment (d.remainder (d.plus phase increment) (two_pi d)) values

  -- The phase between two samples.
  abbrev pub increment_of : Device D → D
  increment_of s =
      d.over (d.times (two_pi d) (d.remainder (d.minus s.signal s.settings.center) s.settings.rate))
        s.settings.rate

-- The split division is the division, if the result fits.
time_stamp_lem :
    (sample rate : ℕ)
    → 0 < rate
    → rate ≤ 2000000
    → sample * 1000000000 / rate < 2 ^ 63
    → time_stamp sample rate ≡ pos (sample * 1000000000 / rate)
time_stamp_lem sample rate low high fits =
    let q = sample / rate in
    let m = sample % rate in
    let split : sample * 1000000000 ≡ q * 1000000000 * rate + m * 1000000000 =
      grind (arith, div-add-mod sample rate) in
    let cut : sample * 1000000000 / rate ≡ q * 1000000000 + m * 1000000000 / rate =
      ap (λ n. n / rate) split ∙ mul-add-div_right low (q * 1000000000) (m * 1000000000) in
    let small : m < rate = mod-lt sample low in
    let keep : m * 1000000000 % 2 ^ 64 ≡ m * 1000000000 = omega (arith, small, high) in
    let keep_q : q * 1000000000 % 2 ^ 64 ≡ q * 1000000000 = omega (arith, cut, fits) in
    let exact : nanoseconds sample rate ≡ sample * 1000000000 / rate =
      rw (keep, keep_q) (omega (arith, cut, fits)) in
    ap (λ w. signed64 w) exact ∙ signed64-pos (sample * 1000000000 / rate) fits

module _ {D : Type 0} (d : Doubles D) where
  clamp-IsClamped : (value : D) → IsClamped d value (clamp d value)
  clamp-IsClamped value = elim (Bool-cases (d.less value (minimum d))) [
    | inl low ↦ rw low (inl (refl, refl))
    | inr low ↦ elim (Bool-cases (d.less (maximum d) value)) [
      | inl high ↦ rw (low, high) (inr (inl (refl, refl)))
      | inr high ↦ rw (low, high) (inr (inr (refl, refl, refl)))
    ]
  ]

  convert-IsPoint : (value : D) (clipped : ℕ) → IsPoint d value (convert d value clipped).1
  unfolding convert
  convert-IsPoint value clipped =
      (to_int16-IsInt16 (d.round (clamp d value)), (clamp d value, clamp-IsClamped value, refl))

  sample_loop-IsTone :
      (n : ℕ) (amplitude increment phase : D) (clipped : ℕ)
      → IsTone d amplitude increment phase (sample_loop d n amplitude increment phase clipped).2
  unfolding sample_loop
  sample_loop-IsTone zero amplitude increment phase clipped = tt
  sample_loop-IsTone (suc n) amplitude increment phase clipped = (
    convert-IsPoint (d.times amplitude (d.cosine phase)) clipped,
    convert-IsPoint (d.times amplitude (d.sine phase))
        (convert d (d.times amplitude (d.cosine phase)) clipped).0,
    sample_loop-IsTone n amplitude increment _ _,
  )

  -- An open and active stream at a rate of at most 2000000 that is at least 1 as an integer, read
  -- through its own handle into a buffer for between 1 and 1024 samples, where the time of the
  -- first one, sample * 10^9 / rate, rounded down, is below 2^63: this time is the time stamp, and
  -- exactly as many samples come. They are 16-bit integers, rounded from the values of the tone,
  -- which goes on from the phase of the device, or from a limit of 16 bits for a value outside of
  -- the limits. The sample number moves on by as many; the settings and the stream stay as they are.
  pub read_stream_lem :
      (s : Device D) (count : ℕ)
      → s.opened ≡ true
      → s.active ≡ true
      → 0 < count
      → count ≤ 1024
      → 0 < d.to_uint64 s.settings.rate
      → d.to_uint64 s.settings.rate ≤ 2000000
      → s.sample * 1000000000 / d.to_uint64 s.settings.rate < 2 ^ 63
      → (values : List (ℤ × ℤ)) × (s' : Device D) × (read_stream d true true count s
          ≡ ok (samples (pos (s.sample * 1000000000 / d.to_uint64 s.settings.rate)) values, s'))
        × (length values ≡ count)
        × IsTone d
            (tone_amplitude d s (d.minus s.signal s.settings.center))
            (increment_of d s)
            s.phase
            values
        × (s'.sample ≡ (s.sample + count) % 2 ^ 64)
        × (s'.settings ≡ s.settings)
        × (s'.opened ≡ true)
        × (s'.active ≡ true)
  unfolding read_stream check
  read_stream_lem s count o a low high r_low r_high fits =
      let rate = d.to_uint64 s.settings.rate in
      let offset = d.minus s.signal s.settings.center in
      let increment =
        d.over (d.times (two_pi d) (d.remainder offset s.settings.rate)) s.settings.rate in
      let amplitude = tone_amplitude d s offset in
      let loop = sample_loop d count amplitude increment s.phase s.clipped in
      (
        loop.2,
        (read_samples d count s).1,
        rw (o, a, sym (time_stamp_lem s.sample rate r_low r_high fits)) (ground (arith, low, high)),
        length-sample_loop d count amplitude increment s.phase s.clipped,
        sample_loop-IsTone count amplitude increment s.phase s.clipped,
        refl,
        refl,
        o,
        a,
      )
