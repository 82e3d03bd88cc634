-- ===== src/Vita/Spectrum/Fields.antt =====
-- The fields of an encoded spectrum, one by one.
use graphx_docker.Base.{
  ℕ, suc, ◌+◌, ◌-◌, ◌*◌, ◌/◌, ◌%◌, ◌^◌, ◌≤◌, ◌≡◌, refl, ap, ap₂, ◌∙◌, Bool, true, false, not, ◌&&◌,
  ◌++◌, append_assoc, Bytes, ok, leb, ◌==◌, length, length-append, take, drop, drop-append_of_eq,
  All, arith, le→leb, guard-elim, >>=-elim, IsUint,
}
use graphx_docker.Wire.{put}
use graphx_docker.Wire.Number.{length-put, get_loop-put_zero}
use graphx_docker.Vita.Spectrum.{
  Spectrum, Timeline, has_single_bit, single_bit, validate_config, validate, hop_fits, config_fits,
  place_fits, sizes_fit,
}
use graphx_docker.Vita.Spectrum.Codec.{spectrum_bytes, flag, get_at}
use graphx_docker.Vita.Spectrum.Overwrite.{header}

-- A value of w bytes behind a part of known length.
pub get_at_lem :
    (front rest : Bytes) (w v : ℕ) {input : Bytes} {offset : ℕ}
    → input ≡ front ++ (put w v ++ rest)
    → length front ≡ offset
    → w ≤ 8
    → IsUint w v
    → get_at input offset w ≡ ok v
unfolding get_at
get_at_lem front rest w v {input} {offset} e at small fits =
    let size : length input ≡ offset + (w + length rest) =
      ap length e
      ∙ length-append front (put w v ++ rest)
      ∙ ap₂ (λ a b. a + b) at
          (length-append (put w v) rest ∙ ap (λ n. n + length rest) (length-put w v)) in
    let here : drop offset input ≡ put w v ++ rest =
      ap (drop offset) e ∙ drop-append_of_eq front (put w v ++ rest) at in
    rw
      (
        le→leb (offset + w) (length input) (omega (arith, size)),
        here,
        get_loop-put_zero w v rest small fits,
      )
      refl

-- The ranges of the source's types.
pub record IsSpectrum (s : Spectrum) : Type 0 where
  pub sequence_uint : IsUint 4 s.sequence
  pub discontinuities_uint : IsUint 8 s.discontinuities
  pub ordinal_uint : IsUint 8 s.ordinal
  pub gaps_uint : IsUint 8 s.sequence_gaps
  pub begin_seconds : IsUint 8 s.begin_time.seconds
  pub begin_picoseconds : IsUint 8 s.begin_time.picoseconds
  pub end_seconds : IsUint 8 s.end_time.seconds
  pub end_picoseconds : IsUint 8 s.end_time.picoseconds
  pub epoch_seconds : IsUint 8 s.epoch.seconds
  pub epoch_picoseconds : IsUint 8 s.epoch.picoseconds
  pub power_uint : All (IsUint 4) s.power

-- What `validate` says of the numbers.
pub record Numbers (s : Spectrum) : Type 0 where
  pub hop_low : s.hop ≤ s.size
  pub rate_high : s.rate ≤ 2000000
  pub size_low : 64 ≤ s.size
  pub size_high : s.size ≤ 2048
  pub single : has_single_bit s.size ≡ true
  pub stream_high : s.stream ≤ 4
  pub center_high : s.center ≤ 6000000000
  pub valid_high : s.valid ≤ s.size
  pub power_size : length s.power ≡ s.size
  pub gaps_size : length s.gaps ≡ s.size / 8
  pub boundaries_size : length s.boundaries ≡ s.size / 8 + 4

single_bit-mod :
    (k n : ℕ) → 2 ≤ n → single_bit (suc k) n ≡ true → (n % 2 ≡ 0) × (single_bit k (n / 2) ≡ true)
single_bit-mod k n low h = ground (arith, low, h)

pub single-mod : (n : ℕ) → 64 ≤ n → has_single_bit n ≡ true → n % 8 ≡ 0
single-mod n low h =
    let (a, h₁) = single_bit-mod 31 n (omega (arith, low)) h in
    let (b, h₂) = single_bit-mod 30 (n / 2) (omega (arith, low)) h₁ in
    let (c, h₃) = single_bit-mod 29 (n / 2 / 2) (omega (arith, low)) h₂ in omega (arith, a, b, c)

config_lem :
    (rate size : ℕ) (b : Bool)
    → (leb 1000 rate && leb rate 2000000 && leb 64 size && leb size 2048 && b) ≡ true
    → (rate ≤ 2000000) × (64 ≤ size) × (size ≤ 2048) × (b ≡ true)
config_lem rate size b h = ground (arith, h)

four_sizes :
    (v n p g e b f : ℕ)
    → (leb v n && p == n && g == e && b == f) ≡ true
    → (v ≤ n) × (p ≡ n) × (g ≡ e) × (b ≡ f)
four_sizes v n p g e b f h = ground (arith, h)

hop_lem : (hop size : ℕ) (b : Bool) → (not (hop == 0) && leb hop size && b) ≡ true → hop ≤ size
hop_lem hop size b h = ground (arith, h)

place_lem :
    (stream center : ℕ)
    → (leb 1 stream && leb stream 4 && leb 1000000 center && leb center 6000000000) ≡ true
    → (stream ≤ 4) × (center ≤ 6000000000)
place_lem stream center h = ground (arith, h)

pub validate-Numbers :
    (timeline : Timeline) (s : Spectrum) → validate timeline s ≡ ok tt → Numbers s
unfolding validate validate_config
validate-Numbers timeline s h = guard-elim (hop_fits s) _ _ h λ a h₁.
    >>=-elim (validate_config s.rate s.size (100 - s.hop * 100 % 2 ^ 32 / s.size)) _ h₁ λ u b h₂.
      guard-elim (config_fits s.rate s.size) _ _ b λ c b₁. guard-elim (place_fits s) _ _ h₂ λ p h₃.
        guard-elim (sizes_fit s) _ _ h₃ λ q h₄.
          let (rate_high, size_low, size_high, single) =
            config_lem s.rate s.size (has_single_bit s.size) c in
          let (stream_high, center_high) = place_lem s.stream s.center p in
          let (valid_high, power_size, gaps_size, boundaries_size) =
            four_sizes s.valid s.size (length s.power) (length s.gaps) (s.size / 8)
              (length s.boundaries) (s.size / 8 + 4) q in
          record {
            hop_low = hop_lem s.hop s.size (s.size % s.hop == 0) a;
            rate_high = rate_high;
            size_low = size_low;
            size_high = size_high;
            single = single;
            stream_high = stream_high;
            center_high = center_high;
            valid_high = valid_high;
            power_size = power_size;
            gaps_size = gaps_size;
            boundaries_size = boundaries_size;
          }

flag-IsUint : (b : Bool) → IsUint 1 (flag b)
flag-IsUint true = omega arith
flag-IsUint false = omega arith

-- The numbers of a spectrum stand at their offsets.
pub record Reads (s : Spectrum) (input : Bytes) : Type 0 where
  pub magic_at : get_at input 0 4 ≡ ok 0x47585032
  pub version_at : get_at input 4 2 ≡ ok 1
  pub header_size_at : get_at input 6 2 ≡ ok 128
  pub total_at : get_at input 8 4 ≡ ok (spectrum_bytes s.size)
  pub stream_at : get_at input 12 4 ≡ ok s.stream
  pub sequence_at : get_at input 16 4 ≡ ok s.sequence
  pub size_at : get_at input 20 4 ≡ ok s.size
  pub hop_at : get_at input 24 4 ≡ ok s.hop
  pub hann_at : get_at input 28 1 ≡ ok (flag s.hann)
  pub normalization_at : get_at input 29 1 ≡ ok 1
  pub order_at : get_at input 30 1 ≡ ok 1
  pub reserved_at : get_at input 31 1 ≡ ok 0
  pub center_at : get_at input 32 8 ≡ ok s.center
  pub rate_at : get_at input 40 8 ≡ ok s.rate
  pub begin_seconds_at : get_at input 48 8 ≡ ok s.begin_time.seconds
  pub begin_picoseconds_at : get_at input 56 8 ≡ ok s.begin_time.picoseconds
  pub end_seconds_at : get_at input 64 8 ≡ ok s.end_time.seconds
  pub end_picoseconds_at : get_at input 72 8 ≡ ok s.end_time.picoseconds
  pub valid_at : get_at input 80 4 ≡ ok s.valid
  pub missing_at : get_at input 84 4 ≡ ok (s.size - s.valid)
  pub discontinuities_at : get_at input 88 8 ≡ ok s.discontinuities
  pub epoch_seconds_at : get_at input 96 8 ≡ ok s.epoch.seconds
  pub epoch_picoseconds_at : get_at input 104 8 ≡ ok s.epoch.picoseconds
  pub ordinal_at : get_at input 112 8 ≡ ok s.ordinal
  pub sequence_gaps_at : get_at input 120 8 ≡ ok s.sequence_gaps

module _ (s : Spectrum) (is : IsSpectrum s) (n : Numbers s) (tail : Bytes) where
  -- A field of the header, by its offset.
  field :
      (offset w v : ℕ)
      → header s ≡ take offset (header s) ++ (put w v ++ drop (offset + w) (header s))
      → length (take offset (header s)) ≡ offset
      → w ≤ 8
      → IsUint w v
      → get_at (header s ++ tail) offset w ≡ ok v
  field offset w v e at small fits =
      get_at_lem (take offset (header s)) (drop (offset + w) (header s) ++ tail) w v
        (ap (λ l. l ++ tail) e
          ∙ append_assoc (take offset (header s)) (put w v ++ drop (offset + w) (header s)) tail
          ∙ ap (λ l. take offset (header s) ++ l)
              (append_assoc (put w v) (drop (offset + w) (header s)) tail))
        at small fits

  pub header-Reads : Reads s (header s ++ tail)
  unfolding put
  header-Reads = record {
    magic_at = field 0 4 0x47585032 refl refl (omega arith) (omega arith);
    version_at = field 4 2 1 refl refl (omega arith) (omega arith);
    header_size_at = field 6 2 128 refl refl (omega arith) (omega arith);
    total_at =
        field 8 4 (spectrum_bytes s.size) refl refl (omega arith) (omega (arith, n.size_high));
    stream_at = field 12 4 s.stream refl refl (omega arith) (omega (arith, n.stream_high));
    sequence_at = field 16 4 s.sequence refl refl (omega arith) (is.sequence_uint);
    size_at = field 20 4 s.size refl refl (omega arith) (omega (arith, n.size_high));
    hop_at = field 24 4 s.hop refl refl (omega arith) (omega (arith, n.hop_low, n.size_high));
    hann_at = field 28 1 (flag s.hann) refl refl (omega arith) (flag-IsUint s.hann);
    normalization_at = field 29 1 1 refl refl (omega arith) (omega arith);
    order_at = field 30 1 1 refl refl (omega arith) (omega arith);
    reserved_at = field 31 1 0 refl refl (omega arith) (omega arith);
    center_at = field 32 8 s.center refl refl (omega arith) (omega (arith, n.center_high));
    rate_at = field 40 8 s.rate refl refl (omega arith) (omega (arith, n.rate_high));
    begin_seconds_at = field 48 8 s.begin_time.seconds refl refl (omega arith) (is.begin_seconds);
    begin_picoseconds_at =
        field 56 8 s.begin_time.picoseconds refl refl (omega arith) (is.begin_picoseconds);
    end_seconds_at = field 64 8 s.end_time.seconds refl refl (omega arith) (is.end_seconds);
    end_picoseconds_at =
        field 72 8 s.end_time.picoseconds refl refl (omega arith) (is.end_picoseconds);
    valid_at =
        field 80 4 s.valid refl refl (omega arith) (omega (arith, n.valid_high, n.size_high));
    missing_at = field 84 4 (s.size - s.valid) refl refl (omega arith) (omega (arith, n.size_high));
    discontinuities_at =
        field 88 8 s.discontinuities refl refl (omega arith) (is.discontinuities_uint);
    epoch_seconds_at = field 96 8 s.epoch.seconds refl refl (omega arith) (is.epoch_seconds);
    epoch_picoseconds_at =
        field 104 8 s.epoch.picoseconds refl refl (omega arith) (is.epoch_picoseconds);
    ordinal_at = field 112 8 s.ordinal refl refl (omega arith) (is.ordinal_uint);
    sequence_gaps_at = field 120 8 s.sequence_gaps refl refl (omega arith) (is.gaps_uint);
  }
