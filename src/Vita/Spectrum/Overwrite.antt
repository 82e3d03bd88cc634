-- ===== src/Vita/Spectrum/Overwrite.antt =====
-- What `encode_spectrum` writes, part behind part.
use graphx_docker.Base.{
  ℕ, zero, suc, ◌+◌, ◌-◌, ◌*◌, ◌/◌, ◌%◌, ◌≡◌, refl, sym, ap, ap₂, ◌∙◌, List, [], ◌∷◌, ◌++◌,
  append_assoc, Bytes, length, length-append, replicate, arith,
}
use graphx_docker.Wire.{put}
use graphx_docker.Vita.Spectrum.{Spectrum}
use graphx_docker.Vita.Spectrum.Codec.{
  overwrite, put_all, flag, header_fields, put_powers, encoded, spectrum_bytes,
}

abbrev zeros : ℕ → Bytes
zeros n = replicate n 0

replicate-add : (m n : ℕ) → zeros (m + n) ≡ zeros m ++ zeros n
replicate-add zero n = ap zeros (let e : 0 + n ≡ n = omega arith in e)
replicate-add (suc m) n =
    ap zeros (let e : suc m + n ≡ suc (m + n) = omega arith in e) ∙ ap (◌∷◌ 0) (replicate-add m n)

overwrite-nil : (out : Bytes) → overwrite out 0 [] ≡ out
unfolding overwrite
overwrite-nil [] = refl
overwrite-nil (o ∷ out) = refl

overwrite-replicate :
    (bytes : Bytes) (n : ℕ)
    → overwrite (replicate (length bytes + n) 0) 0 bytes ≡ bytes ++ replicate n 0
unfolding overwrite
overwrite-replicate [] n =
    overwrite-nil (replicate (0 + n) 0) ∙ ap zeros (let e : 0 + n ≡ n = omega arith in e)
overwrite-replicate (b ∷ bytes) n =
    ap (λ k. overwrite (replicate k 0) 0 (b ∷ bytes))
      (let e : suc (length bytes) + n ≡ suc (length bytes + n) = omega arith in e)
    ∙ ap (◌∷◌ b) (overwrite-replicate bytes n)

overwrite-append :
    (front out bytes : Bytes) (k : ℕ)
    → overwrite (front ++ out) (length front + k) bytes ≡ front ++ overwrite out k bytes
unfolding overwrite
overwrite-append [] out bytes k =
    ap (λ n. overwrite out n bytes) (let e : 0 + k ≡ k = omega arith in e)
overwrite-append (o ∷ front) out bytes k =
    ap (λ n. overwrite (o ∷ (front ++ out)) n bytes)
      (let e : suc (length front) + k ≡ suc (length front + k) = omega arith in e)
    ∙ ap (◌∷◌ o) (overwrite-append front out bytes k)

-- Zeros behind a part are overwritten by another part.
overwrite_next :
    (front bytes : Bytes) (m : ℕ) {offset n : ℕ}
    → length front ≡ offset
    → length bytes + m ≡ n
    → overwrite (front ++ replicate n 0) offset bytes ≡ front ++ (bytes ++ replicate m 0)
overwrite_next front bytes m {offset} {n} at size =
    ap₂ (λ k j. overwrite (front ++ replicate j 0) k bytes)
      (sym at ∙ (let e : length front ≡ length front + 0 = omega arith in e)) (sym size)
    ∙ overwrite-append front (replicate (length bytes + m) 0) bytes 0
    ∙ ap (λ l. front ++ l) (overwrite-replicate bytes m)

-- The first 128 bytes.
abbrev pub header : Spectrum → Bytes
header s =
    put 4 0x47585032
    ++ (put 2 1
        ++ (put 2 128
            ++ (put 4 (spectrum_bytes s.size)
                ++ (put 4 s.stream
                    ++ (put 4 s.sequence
                        ++ (put 4 s.size
                            ++ (put 4 s.hop
                                ++ (put 1 (flag s.hann)
                                    ++ (put 1 1
                                        ++ (put 1 1
                                            ++ (put 1 0
                                                ++ (put 8 s.center
                                                    ++ (put 8 s.rate
                                                        ++ (put 8 s.begin_time.seconds
                                                            ++ (put 8 s.begin_time.picoseconds
                                                            ++ (put 8 s.end_time.seconds
                                                            ++ (put 8 s.end_time.picoseconds
                                                            ++ (put 4 s.valid
                                                            ++ (put 4 (s.size - s.valid)
                                                            ++ (put 8 s.discontinuities
                                                            ++ (put 8 s.epoch.seconds
                                                            ++ (put 8 s.epoch.picoseconds
                                                            ++ (put 8 s.ordinal
                                                            ++ put 8
                                                            s.sequence_gaps)))))))))))))))))))))))

put_all-header :
    (s : Spectrum) (rest : Bytes)
    → put_all (header_fields s) (replicate 128 0 ++ rest) ≡ header s ++ rest
unfolding put_all put
put_all-header s rest = ap (λ r. header s ++ r) (overwrite-nil rest)

pub length-header : (s : Spectrum) → length (header s) ≡ 128
unfolding put
length-header s = refl

-- The bytes of the powers.
abbrev pub power_bytes : List ℕ → Bytes
power_bytes [] = []
power_bytes (bits ∷ power) = put 4 bits ++ power_bytes power

put_powers-replicate :
    (power : List ℕ) (front : Bytes) {offset : ℕ}
    → length front ≡ offset
    → put_powers power offset (front ++ replicate (4 * length power) 0) ≡ front ++ power_bytes power
unfolding put_powers put
put_powers-replicate [] front at = refl
put_powers-replicate (bits ∷ power) front {offset} at =
    ap (put_powers power (offset + 4)) (
      overwrite_next front (put 4 bits) (4 * length power) at (omega arith)
      ∙ sym (append_assoc front (put 4 bits) (replicate (4 * length power) 0)))
    ∙ put_powers-replicate power (front ++ put 4 bits)
        (omega (arith, length-append front (put 4 bits), at))
    ∙ append_assoc front (put 4 bits) (power_bytes power)

-- The layout of an encoded spectrum.
pub encoded_lem :
    (s : Spectrum)
    → length s.gaps ≡ s.size / 8
    → length s.boundaries ≡ s.size / 8 + 4
    → length s.power ≡ s.size
    → s.size % 8 ≡ 0
    → encoded s ≡ header s ++ (s.gaps ++ (s.boundaries ++ power_bytes s.power))
unfolding encoded
encoded_lem s gaps_size boundaries_size power_size whole =
    let k = s.size / 8 in
    let after_gaps = 4 + k + 4 * s.size in
    let room : zeros (spectrum_bytes s.size) ≡ zeros 128 ++ zeros (k + after_gaps) =
      ap zeros (let e : spectrum_bytes s.size ≡ 128 + (k + after_gaps) = omega (arith, whole) in e)
      ∙ replicate-add 128 (k + after_gaps) in
    let first : put_all (header_fields s) (zeros (spectrum_bytes s.size))
        ≡ header s ++ zeros (k + after_gaps) =
      ap (put_all (header_fields s)) room ∙ put_all-header s (zeros (k + after_gaps)) in
    let second : overwrite (header s ++ zeros (k + after_gaps)) 128 s.gaps
        ≡ header s ++ (s.gaps ++ zeros after_gaps) =
      overwrite_next (header s) s.gaps after_gaps (length-header s) (omega (arith, gaps_size)) in
    let third : overwrite (header s ++ (s.gaps ++ zeros after_gaps)) (128 + k) s.boundaries
        ≡ (header s ++ s.gaps) ++ (s.boundaries ++ zeros (4 * length s.power)) =
      ap (λ l. overwrite l (128 + k) s.boundaries)
        (sym (append_assoc (header s) s.gaps (zeros after_gaps)))
      ∙ overwrite_next (header s ++ s.gaps) s.boundaries (4 * length s.power)
          (omega (arith, length-append (header s) s.gaps, length-header s, gaps_size))
          (omega (arith, boundaries_size, power_size)) in
    let fourth : put_powers s.power (132 + s.size / 4)
          (((header s ++ s.gaps) ++ s.boundaries) ++ zeros (4 * length s.power))
        ≡ ((header s ++ s.gaps) ++ s.boundaries) ++ power_bytes s.power =
      put_powers-replicate s.power ((header s ++ s.gaps) ++ s.boundaries) (
        omega (
          arith,
          length-append (header s ++ s.gaps) s.boundaries,
          length-append (header s) s.gaps,
          length-header s,
          gaps_size,
          boundaries_size,
          whole,
        )) in
    ap
      (λ l.
        put_powers s.power (132 + s.size / 4)
          (overwrite (overwrite l 128 s.gaps) (128 + k) s.boundaries))
      first
    ∙ ap (λ l. put_powers s.power (132 + s.size / 4) (overwrite l (128 + k) s.boundaries)) second
    ∙ ap (put_powers s.power (132 + s.size / 4))
        (third ∙ sym (append_assoc (header s ++ s.gaps) s.boundaries (zeros (4 * length s.power))))
    ∙ fourth
    ∙ append_assoc (header s ++ s.gaps) s.boundaries (power_bytes s.power)
    ∙ append_assoc (header s) s.gaps (s.boundaries ++ power_bytes s.power)
