-- ===== src/Vita/Spectrum/RoundTrip.antt =====
-- A spectrum that is valid is read back as it was written.
use graphx_docker.Base.{
  ℕ, ◌+◌, ◌-◌, ◌*◌, ◌/◌, ◌%◌, ◌^◌, ◌≤◌, ◌≡◌, refl, sym, ap, ap₂, subst, ◌∙◌, Bool, true, false, not,
  List, [], ◌∷◌, ◌++◌, append_assoc, Bytes, Result, ok, ◌>>=◌, ◌>>◌, leb, ◌==◌, length,
  length-append, take, drop, drop-append_of_eq, take-append_of_eq, All, arith, le→leb, >>=-elim,
  ok-injective, IsUint,
}
use graphx_docker.Wire.{put}
use graphx_docker.Wire.Number.{length-put}
use graphx_docker.Vita.Spectrum.{SpectrumError, Spectrum, Timeline, require, validate}
use graphx_docker.Vita.Spectrum.Codec.{
  spectrum_bytes, size_of, flag, encoded, encode_spectrum, get_at, get_powers, decoded,
  decode_spectrum,
}
use graphx_docker.Vita.Spectrum.Overwrite.{header, power_bytes, length-header, encoded_lem}
use graphx_docker.Vita.Spectrum.Fields.{
  IsSpectrum, Numbers, Reads, get_at_lem, header-Reads, validate-Numbers, single-mod,
}

length-power_bytes : (power : List ℕ) → length (power_bytes power) ≡ 4 * length power
length-power_bytes [] = refl
length-power_bytes (bits ∷ power) = omega (
  arith,
  length-append (put 4 bits) (power_bytes power),
  length-put 4 bits,
  length-power_bytes power,
)

get_powers-power_bytes :
    (power : List ℕ) (front : Bytes) {input : Bytes} {offset : ℕ}
    → input ≡ front ++ power_bytes power
    → length front ≡ offset
    → All (IsUint 4) power
    → get_powers (length power) offset input ≡ ok power
unfolding get_powers
get_powers-power_bytes [] front e at fits = refl
get_powers-power_bytes (bits ∷ power) front {input} {offset} e at (fit, fits) =
    let first : get_at input offset 4 ≡ ok bits =
      get_at_lem front (power_bytes power) 4 bits e at (omega arith) fit in
    let rest : get_powers (length power) (offset + 4) input ≡ ok power =
      get_powers-power_bytes power (front ++ put 4 bits)
        (e ∙ sym (append_assoc front (put 4 bits) (power_bytes power)))
        (omega (arith, length-append front (put 4 bits), length-put 4 bits, at)) fits in
    rw (first, rest) refl

self_equal : (n : ℕ) → (n == n) ≡ true
self_equal n = ground arith

equal_lem : {m n : ℕ} → m ≡ n → (m == n) ≡ true
equal_lem {m} {n} e = subst (λ k. (m == k) ≡ true) e (self_equal m)

unflag : (b : Bool) → not (flag b == 0) ≡ b
unflag true = refl
unflag false = refl

flag_fits : (b : Bool) → leb (flag b) 1 ≡ true
flag_fits true = refl
flag_fits false = refl

missing_lem :
    (size valid : ℕ) → valid ≤ size → size ≤ 2048 → (size + 2 ^ 32 - valid) % 2 ^ 32 ≡ size - valid
missing_lem size valid low high = omega (arith, low, high)

-- The fields give the spectrum.
decoded-Reads :
    (s : Spectrum) (n : Numbers s) (input : Bytes) (r : Reads s input)
    → get_powers s.size (132 + s.size / 4) input ≡ ok s.power
    → take (s.size / 8) (drop 128 input) ≡ s.gaps
    → take (s.size / 8 + 4) (drop (128 + s.size / 8) input) ≡ s.boundaries
    → decoded input s.stream s.sequence s.size s.hop s.hann ≡ ok s
unfolding decoded
decoded-Reads s n input r power gaps boundaries =
    rw
      (
        r.center_at,
        r.rate_at,
        le→leb s.rate 2000000 n.rate_high,
        r.begin_seconds_at,
        r.begin_picoseconds_at,
        r.end_seconds_at,
        r.end_picoseconds_at,
        r.valid_at,
        r.missing_at,
        missing_lem s.size s.valid n.valid_high n.size_high,
        self_equal (s.size - s.valid),
        r.discontinuities_at,
        r.epoch_seconds_at,
        r.epoch_picoseconds_at,
        r.ordinal_at,
        r.sequence_gaps_at,
        power,
        gaps,
        boundaries,
      )
      refl

accept :
    (timeline : Timeline) (s : Spectrum) (m : Result SpectrumError Spectrum)
    → m ≡ ok s
    → validate timeline s ≡ ok tt
    → (m >>= λ found. validate timeline found >> ok found) ≡ ok s
accept timeline s m e valid = rw (e, valid) refl

enter :
    (b : Bool) (f : Unit {0} → Result SpectrumError Spectrum) {s : Spectrum}
    → b ≡ true
    → f tt ≡ ok s
    → (require b >>= f) ≡ ok s
enter b f h e = rw h e

decode_spectrum-Reads :
    (timeline : Timeline) (s : Spectrum) (n : Numbers s) (input : Bytes) (r : Reads s input)
    → length input ≡ spectrum_bytes s.size
    → decoded input s.stream s.sequence s.size s.hop s.hann ≡ ok s
    → validate timeline s ≡ ok tt
    → decode_spectrum timeline input ≡ ok s
unfolding decode_spectrum size_of
decode_spectrum-Reads timeline s n input r size rest valid =
    enter (leb 128 (length input)) _ (le→leb 128 (length input) (omega (arith, size))) (
      rw
        (
          r.magic_at,
          r.version_at,
          r.header_size_at,
          r.total_at,
          equal_lem (sym size),
          r.stream_at,
          r.sequence_at,
          r.size_at,
          r.hop_at,
          le→leb 64 s.size n.size_low,
          le→leb s.size 2048 n.size_high,
          n.single,
          equal_lem size,
          r.hann_at,
          flag_fits s.hann,
          r.normalization_at,
          r.order_at,
          r.reserved_at,
          unflag s.hann,
        )
        (accept timeline s (decoded input s.stream s.sequence s.size s.hop s.hann) rest valid))

-- The header, the powers and the two maps of a valid spectrum give it back.
decode_spectrum-encoded :
    (timeline : Timeline) (s : Spectrum)
    → IsSpectrum s
    → validate timeline s ≡ ok tt
    → decode_spectrum timeline (encoded s) ≡ ok s
decode_spectrum-encoded timeline s is valid =
    let n = validate-Numbers timeline s valid in
    let whole = single-mod s.size n.size_low n.single in
    let powers = power_bytes s.power in
    let tail = s.gaps ++ (s.boundaries ++ powers) in
    let input = header s ++ tail in
    let r = header-Reads s is n tail in
    let front = (header s ++ s.gaps) ++ s.boundaries in
    let split : input ≡ front ++ powers =
      sym (append_assoc (header s) s.gaps (s.boundaries ++ powers))
      ∙ sym (append_assoc (header s ++ s.gaps) s.boundaries powers) in
    let gaps_end : length (header s ++ s.gaps) ≡ 128 + s.size / 8 =
      length-append (header s) s.gaps ∙ ap₂ (λ a b. a + b) (length-header s) n.gaps_size in
    let front_end : length front ≡ 132 + s.size / 4 = omega (
      arith,
      length-append (header s ++ s.gaps) s.boundaries,
      gaps_end,
      n.boundaries_size,
      whole,
    ) in
    let size : length input ≡ spectrum_bytes s.size = omega (
      arith,
      ap length split,
      length-append front powers,
      front_end,
      length-power_bytes s.power,
      n.power_size,
    ) in
    let power : get_powers s.size (132 + s.size / 4) input ≡ ok s.power =
      subst (λ k. get_powers k (132 + s.size / 4) input ≡ ok s.power) n.power_size
        (get_powers-power_bytes s.power front split front_end is.power_uint) in
    let gaps : take (s.size / 8) (drop 128 input) ≡ s.gaps =
      ap (take (s.size / 8)) (drop-append_of_eq (header s) tail (length-header s))
      ∙ take-append_of_eq s.gaps (s.boundaries ++ powers) n.gaps_size in
    let boundaries : take (s.size / 8 + 4) (drop (128 + s.size / 8) input) ≡ s.boundaries =
      ap (λ l. take (s.size / 8 + 4) (drop (128 + s.size / 8) l))
        (sym (append_assoc (header s) s.gaps (s.boundaries ++ powers)))
      ∙ ap (take (s.size / 8 + 4))
          (drop-append_of_eq (header s ++ s.gaps) (s.boundaries ++ powers) gaps_end)
      ∙ take-append_of_eq s.boundaries powers n.boundaries_size in
    ap (decode_spectrum timeline) (encoded_lem s n.gaps_size n.boundaries_size n.power_size whole)
    ∙ decode_spectrum-Reads timeline s n input r size
        (decoded-Reads s n input r power gaps boundaries) valid

-- A spectrum whose numbers are in the ranges of their types and that is encoded without an error
-- is read back as it was, for every timeline.
pub decode_spectrum-encode_spectrum :
    (timeline : Timeline) (s : Spectrum) {out : Bytes}
    → IsSpectrum s
    → encode_spectrum timeline s ≡ ok out
    → decode_spectrum timeline out ≡ ok s
unfolding encode_spectrum
decode_spectrum-encode_spectrum timeline s is h = >>=-elim (validate timeline s) _ h λ u valid done.
    subst (λ out. decode_spectrum timeline out ≡ ok s) (ok-injective done)
      (decode_spectrum-encoded timeline s is valid)
