-- ===== src/Identity/RoundTrip.antt =====
-- An identity written by `put_identity` is read back by `Reader::identity`, and the other way round.
use graphx_docker.Base.{
  ◌≤◌, ◌≡◌, refl, sym, ap, ap₂, ◌∙◌, subst, Bool, true, false, [], ◌∷◌, ◌++◌, Bytes, IsByte,
  IsBytes, ok, arith, leb, leb→le, length, All-take, All-drop, Bool-cases, ◌⊎◌, inl, inr, take,
  drop, replicate, take-append_of_eq, drop-append_of_eq, take-append-drop, length-append,
  length-take_of_le, guard-eq-ok, ok-injective,
}
use graphx_docker.Wire.{Field, truncated, require}
use graphx_docker.Wire.Number.{require-ok}
use graphx_docker.Identity.{
  is_canonical_identity, canonical_loop, pack_hex, unpack_hex, put_identity, identity_result,
  get_identity,
}
use graphx_docker.Identity.Hex.{
  IsHex, some_nonzero, canonical_loop-IsHex, canonical_loop-true, unpack_hex-zero, unpack_hex-IsHex,
  length-unpack_hex, pack_hex-unpack_hex, pack_hex-IsHex,
}

-- What an identity is: 32 lowercase hexadecimal characters, not all '0'.
pub record IsIdentity (v : Bytes) : Type 0 where
  pub long : length v ≡ 32
  pub hex : IsHex v
  pub nonzero : some_nonzero v ≡ true

-- `is_canonical_identity` decides it.
pub is_canonical_identity→IsIdentity : (v : Bytes) → is_canonical_identity v ≡ true → IsIdentity v
unfolding is_canonical_identity
is_canonical_identity→IsIdentity v h =
    let accepted : canonical_loop false v ≡ true = ground arith in
    let hex = canonical_loop-true false v accepted in
    record {
      long = ground arith;
      hex = hex;
      nonzero = sym (canonical_loop-IsHex false v hex) ∙ accepted;
    }

pub IsIdentity→is_canonical_identity : (v : Bytes) → IsIdentity v → is_canonical_identity v ≡ true
unfolding is_canonical_identity
IsIdentity→is_canonical_identity v h = rw (h.long, canonical_loop-IsHex false v h.hex) h.nonzero

-- Reading 16 bytes whose characters are not all '0', or are.
get_identity-unpack :
    (optional : Bool) (bytes rest v : Bytes)
    → length bytes ≡ 16
    → unpack_hex bytes ≡ (false, v)
    → get_identity optional (bytes ++ rest) ≡ ok (v, rest)
unfolding get_identity
get_identity-unpack optional bytes rest v h e = rw (
  require-ok 16 (bytes ++ rest) (omega (arith, length-append bytes rest)),
  take-append_of_eq bytes rest h,
  drop-append_of_eq bytes rest h,
  e,
)

-- The 16 zero bytes stand for the absent identity.
get_identity_zero : (rest : Bytes) → get_identity true (replicate 16 0 ++ rest) ≡ ok ([], rest)
unfolding get_identity unpack_hex require
get_identity_zero rest = ground arith

-- What `put_identity` writes for a value: 16 bytes, read back in front of anything.
pub record Written (optional : Bool) (v bytes : Bytes) : Type 0 where
  pub long : length bytes ≡ 16
  pub bytes_ok : IsBytes bytes
  pub read : (rest : Bytes) → get_identity optional (bytes ++ rest) ≡ ok (v, rest)

-- The values that a field takes: an identity, or none where the field is optional.
abbrev pub Accepted : Bool → Bytes → Type 0
Accepted optional v = IsIdentity v ⊎ ((optional ≡ true) × (v ≡ []))

-- An identity is packed.
pub put_identity-pack_hex :
    (v : Bytes) (field : Field) (optional : Bool)
    → IsIdentity v
    → put_identity v field optional ≡ pack_hex v
unfolding put_identity
put_identity-pack_hex [] field optional h = absurd (omega (arith, h.long))
put_identity-pack_hex (c ∷ v) field optional h =
    ground (arith, IsIdentity→is_canonical_identity (c ∷ v) h)

-- The reader's flag for the bytes of an identity.
unpack_hex-IsIdentity :
    (bytes v : Bytes)
    → IsBytes bytes
    → (unpack_hex bytes).1 ≡ v
    → some_nonzero v ≡ true
    → unpack_hex bytes ≡ (false, v)
unpack_hex-IsIdentity bytes v b e n = ground (arith, unpack_hex-zero bytes b)

-- An identity, or an absent one where that is allowed, is written as 16 bytes, which
-- `Reader::identity` reads back to the same value in front of any bytes.
pub put_identity-Written :
    (v : Bytes) (field : Field) (optional : Bool)
    → Accepted optional v
    → (bytes : Bytes) × (put_identity v field optional ≡ ok bytes) × Written optional v bytes
put_identity-Written v field optional (inl h) =
    let (bytes, packed, long, bytes_ok, chars) = pack_hex-IsHex 16 v h.long h.hex in
    (
      bytes,
      put_identity-pack_hex v field optional h ∙ packed,
      record {
        long = long;
        bytes_ok = bytes_ok;
        read = λ rest.
            get_identity-unpack optional bytes rest v long
              (unpack_hex-IsIdentity bytes v bytes_ok chars h.nonzero);
      },
    )
put_identity-Written v field optional (inr (o, e)) =
    rw (o, e)
      (
        replicate 16 0,
        (unfold put_identity in refl),
        record { long = refl; bytes_ok = omega arith; read = get_identity_zero },
      )

-- `put_identity` accepts nothing else.
pub put_identity-Accepted :
    (v : Bytes) (field : Field) (optional : Bool) {bytes : Bytes}
    → put_identity v field optional ≡ ok bytes
    → Accepted optional v
unfolding put_identity
put_identity-Accepted [] field true e = inr (refl, refl)
put_identity-Accepted [] field false e = inl (is_canonical_identity→IsIdentity [] (ground arith))
put_identity-Accepted (c ∷ v) field optional e =
    inl (is_canonical_identity→IsIdentity (c ∷ v) (ground arith))

-- A successful read has consumed what `put_identity` writes for its result.
pub record ReadsIdentity (optional : Bool) (r v rest : Bytes) : Type 0 where
  pub bytes : Bytes
  pub written : (field : Field) → put_identity v field optional ≡ ok bytes
  pub split : r ≡ bytes ++ rest
  pub accepted : Accepted optional v
  pub long : length bytes ≡ 16
  pub rest_bytes : IsBytes rest

unpack_hex_zeros :
    (bytes : Bytes) → (unpack_hex bytes).0 ≡ true → bytes ≡ replicate (length bytes) 0
unfolding unpack_hex
unpack_hex_zeros [] h = refl
unpack_hex_zeros (b ∷ bytes) h = ap₂ ◌∷◌ (ground arith) (unpack_hex_zeros bytes (ground arith))

module _ (r : Bytes) (hr : IsBytes r) (h : 16 ≤ length r) where
  head-IsBytes : IsBytes (take 16 r)
  head-IsBytes = All-take IsByte 16 r hr

  read_zero : (unpack_hex (take 16 r)).0 ≡ true → ReadsIdentity true r [] (drop 16 r)
  read_zero z = record {
    bytes = replicate 16 0;
    written = λ field. (unfold put_identity in refl);
    split =
        sym (take-append-drop 16 r)
        ∙ ap (λ bytes. bytes ++ drop 16 r)
            (unpack_hex_zeros (take 16 r) z ∙ ap (λ n. replicate n 0) (length-take_of_le 16 r h));
    accepted = inr (refl, refl);
    long = refl;
    rest_bytes = All-drop IsByte 16 r hr;
  }

  read_nonzero :
      (optional : Bool)
      → (unpack_hex (take 16 r)).0 ≡ false
      → ReadsIdentity optional r (unpack_hex (take 16 r)).1 (drop 16 r)
  read_nonzero optional z = record {
    bytes = take 16 r;
    written = λ field.
        put_identity-pack_hex (unpack_hex (take 16 r)).1 field optional identity
        ∙ pack_hex-unpack_hex (take 16 r) head-IsBytes;
    split = sym (take-append-drop 16 r);
    accepted = inl identity;
    long = length-take_of_le 16 r h;
    rest_bytes = All-drop IsByte 16 r hr;
  }
    where
      identity : IsIdentity (unpack_hex (take 16 r)).1
      identity = record {
        long = omega (arith, length-unpack_hex (take 16 r), length-take_of_le 16 r h);
        hex = unpack_hex-IsHex (take 16 r) head-IsBytes;
        nonzero = ground (arith, unpack_hex-zero (take 16 r) head-IsBytes);
      }

read_cases :
    (optional : Bool) (r : Bytes) (v rest : Bytes)
    → IsBytes r
    → 16 ≤ length r
    → identity_result optional (unpack_hex (take 16 r)).0 (unpack_hex (take 16 r)).1 (drop 16 r)
      ≡ ok (v, rest)
    → ReadsIdentity optional r v rest
read_cases optional r v rest hr h e = elim (Bool-cases (unpack_hex (take 16 r)).0) [
  | inl z ↦ all_zero optional z (rw z at e)
  | inr z ↦
      subst (λ (p : Bytes × Bytes). ReadsIdentity optional r p.0 p.1) (ok-injective (rw z at e))
        (read_nonzero r hr h optional z)
]
  where
    all_zero :
        (o : Bool)
        → (unpack_hex (take 16 r)).0 ≡ true
        → identity_result o true (unpack_hex (take 16 r)).1 (drop 16 r) ≡ ok (v, rest)
        → ReadsIdentity o r v rest
    all_zero true z e' =
        subst (λ (p : Bytes × Bytes). ReadsIdentity true r p.0 p.1) (ok-injective e')
          (read_zero r hr h z)
    all_zero false z e' = cc

-- When `Reader::identity` reads a value, `put_identity` accepts it and writes the 16 bytes from which
-- it was read.
pub get_identity-ReadsIdentity :
    (optional : Bool) (r : Bytes) {v rest : Bytes}
    → IsBytes r
    → get_identity optional r ≡ ok (v, rest)
    → ReadsIdentity optional r v rest
unfolding get_identity require
get_identity-ReadsIdentity optional r {v} {rest} hr e =
    let (enough, e') = guard-eq-ok (leb 16 (length r)) truncated _ e in
    read_cases optional r v rest hr (leb→le _ _ enough) e'
