-- ===== src/Wire/Number.antt =====
-- Fixed-width integers and strings, written and read back.
use native.Mathlib.Nat.{
  add-zero, add-suc, suc-add, zero-add, pow-zero, pow-suc, div-one, pow-le-pow_right,
  div-div-eq-div-mul, div-le_self, div-eq_of_lt, mod-eq_of_lt, le_trans,
}
use graphx_docker.Base.{
  ℕ, zero, suc, ◌+◌, ◌*◌, ◌/◌, ◌%◌, ◌^◌, ◌≤◌, ◌<◌, ◌≡◌, refl, sym, ◌∙◌, ap, ap₂, [], ◌∷◌, ◌++◌,
  Bytes, IsUint, IsByte, IsBytes, ok, arith, subst, leb, guard-eq-ok, >>=-eq-ok, ok-injective, take,
  drop, All-take, All-drop, length, length-append, le→leb, leb→le, append_assoc, take-append,
  drop-append, take-append-drop, length-take_of_le,
}
use graphx_docker.Wire.{put, get_loop, get, require, put_string, get_string, uint32_max, truncated}

pub length-put : (w v : ℕ) → length (put w v) ≡ w
unfolding put
length-put zero v = refl
length-put (suc w) v = ap suc (length-put w v)

pub put-IsBytes : (w v : ℕ) → IsBytes (put w v)
unfolding put
put-IsBytes zero v = tt
put-IsBytes (suc w) v = (omega arith, put-IsBytes w v)

pub require-ok : (n : ℕ) (r : Bytes) → n ≤ length r → require n r ≡ ok tt
unfolding require
require-ok n r h = rw (le→leb n (length r) h)

-- `v / 256 ^ k` is what the leading bytes have spelled.
get_loop-put :
    (k v : ℕ) (rest : Bytes) → v < 2 ^ 64 → get_loop k (v / 256 ^ k) (put k v ++ rest) ≡ (v, rest)
unfolding get_loop put
get_loop-put zero v rest h = ap (λ n. (n, rest)) (ap (◌/◌ v) (pow-zero 256) ∙ div-one v)
get_loop-put (suc k) v rest h = rw (sym step) at (get_loop-put k v rest h)
  where
    step : v / 256 ^ suc k * 256 % 2 ^ 64 + v / 256 ^ k % 256 ≡ v / 256 ^ k
    step = omega (
      arith,
      ap (◌/◌ v) (pow-suc 256 k),
      div-div-eq-div-mul v (256 ^ k) 256,
      div-le_self v (256 ^ k),
    )

pub get_loop-put_zero :
    (w v : ℕ) (rest : Bytes) → w ≤ 8 → IsUint w v → get_loop w 0 (put w v ++ rest) ≡ (v, rest)
get_loop-put_zero w v rest hw hv =
    ap (λ acc. get_loop w acc (put w v ++ rest)) (sym (div-eq_of_lt hv))
    ∙ get_loop-put w v rest (le_trans hv (pow-le-pow_right {n = 256} (omega arith) hw))

-- A w-byte integer, w at most 8, is read back, and what follows it is left.
pub get-put : (w v : ℕ) (rest : Bytes) → w ≤ 8 → IsUint w v → get w (put w v ++ rest) ≡ ok (v, rest)
unfolding get
get-put w v rest hw hv = rw (
  require-ok w (put w v ++ rest) (omega (arith, length-append (put w v) rest, length-put w v)),
  get_loop-put_zero w v rest hw hv,
  mod-eq_of_lt hv,
)

pub put_string-ok : (s : Bytes) → length s ≤ uint32_max → put_string s ≡ ok (put 4 (length s) ++ s)
unfolding put_string
put_string-ok s h = rw (le→leb (length s) uint32_max h)

-- A string is read back, and what follows it is left.
pub get_string-put :
    (s rest : Bytes)
    → length s ≤ uint32_max
    → get_string ((put 4 (length s) ++ s) ++ rest) ≡ ok (s, rest)
unfolding get_string
get_string-put s rest h = rw (
  append_assoc (put 4 (length s)) s rest,
  get-put 4 (length s) (s ++ rest) (omega arith) (omega arith),
  require-ok (length s) (s ++ rest) (omega (arith, length-append s rest)),
  take-append s rest,
  drop-append s rest,
)

-- What a successful read of a w-byte integer says of its input: it is what `put` writes for that
-- value, and then the rest.
pub record Reads (w : ℕ) (r : Bytes) (v : ℕ) (rest : Bytes) : Type 0 where
  pub split : r ≡ put w v ++ rest
  pub uint : IsUint w v
  pub rest_bytes : IsBytes rest

record Looped (j k acc : ℕ) (r : Bytes) (v : ℕ) (rest : Bytes) : Type 0 where
  split : r ≡ put k v ++ rest
  high : v / 256 ^ k ≡ acc
  uint : v < 256 ^ (j + k)
  rest_bytes : IsBytes rest

-- `acc * 256` does not leave the uint64_t while at most eight bytes are read.
shifted : (j acc b : ℕ) → acc < 256 ^ j → suc j ≤ 8 → acc * 256 % 2 ^ 64 + b ≡ acc * 256 + b
shifted j acc b ha hj =
    omega (arith, pow-suc 256 j, pow-le-pow_right {n = 256} (omega arith) {i = suc j} {j = 8} hj)

Looped-step :
    (j k acc b : ℕ) {r : Bytes} {v : ℕ} {rest : Bytes}
    → IsByte b
    → Looped (suc j) k (acc * 256 + b) r v rest
    → Looped j (suc k) acc (b ∷ r) v rest
unfolding put
Looped-step j k acc b {v = v} hb l = record {
  split = ap₂ ◌∷◌ (omega (arith, l.high)) l.split;
  high = omega (arith, l.high, ap (◌/◌ v) (pow-suc 256 k), div-div-eq-div-mul v (256 ^ k) 256);
  uint = rw (add-suc j k, ← suc-add j k) l.uint;
  rest_bytes = l.rest_bytes;
}

get_loop-Looped :
    (k j acc : ℕ) (r : Bytes)
    → IsBytes r
    → k ≤ length r
    → acc < 256 ^ j
    → j + k ≤ 8
    → Looped j k acc r (get_loop k acc r).0 (get_loop k acc r).1
unfolding get_loop put
get_loop-Looped zero j acc r hr hk ha hj = record {
  split = refl;
  high = ap (◌/◌ acc) (pow-zero 256) ∙ div-one acc;
  uint = rw add-zero ha;
  rest_bytes = hr;
}
get_loop-Looped (suc k) j acc [] hr hk ha hj = absurd (omega arith)
get_loop-Looped (suc k) j acc (b ∷ r) hr hk ha hj =
    rw (shifted j acc b ha (omega arith), get_loop)
      (Looped-step j k acc b hr.0 (
        get_loop-Looped k (suc j) (acc * 256 + b) r hr.1 (omega arith)
          (omega (arith, pow-suc 256 j)) (omega arith)))

-- A read that succeeds has consumed the w bytes that `put` writes for its result.
pub get-Reads :
    (w : ℕ) (r : Bytes) {v : ℕ} {rest : Bytes}
    → w ≤ 8
    → IsBytes r
    → get w r ≡ ok (v, rest)
    → Reads w r v rest
unfolding get require
get-Reads w r hw hr e =
    let (enough, e') = guard-eq-ok (leb w (length r)) truncated _ e in
    subst (λ (p : ℕ × Bytes). Reads w r p.0 p.1) (ok-injective e') (read (leb→le _ _ enough))
  where
    read : w ≤ length r → Reads w r ((get_loop w 0 r).0 % 256 ^ w) (get_loop w 0 r).1
    read h =
        let l = get_loop-Looped w 0 0 r hr h (rw (pow-zero 256) (omega arith)) (omega arith) in
        let small : (get_loop w 0 r).0 < 256 ^ w = rw (zero-add w) at l.uint in
        rw (mod-eq_of_lt small)
          (record { split = l.split; uint = small; rest_bytes = l.rest_bytes })

-- What a successful read of a string says of its input.
pub record ReadsString (r s rest : Bytes) : Type 0 where
  pub split : r ≡ (put 4 (length s) ++ s) ++ rest
  pub short : length s ≤ uint32_max
  pub string_bytes : IsBytes s
  pub rest_bytes : IsBytes rest

pub get_string-ReadsString :
    (r : Bytes) {s rest : Bytes} → IsBytes r → get_string r ≡ ok (s, rest) → ReadsString r s rest
unfolding get_string require
get_string-ReadsString r hr e =
    let ((size, r'), e₁, e₂) = >>=-eq-ok (get 4 r) _ e in
    let (enough, e₃) = guard-eq-ok (leb size (length r')) truncated _ e₂ in
    subst (λ (p : Bytes × Bytes). ReadsString r p.0 p.1) (ok-injective e₃)
      (read size r' (get-Reads 4 r (omega arith) hr e₁) (leb→le _ _ enough))
  where
    read :
        (size : ℕ) (r' : Bytes)
        → Reads 4 r size r'
        → size ≤ length r'
        → ReadsString r (take size r') (drop size r')
    read size r' reads h =
        let len = length-take_of_le size r' h in
        record {
          split =
              rw
                (
                  len,
                  append_assoc (put 4 size) (take size r') (drop size r'),
                  take-append-drop size r',
                )
                reads.split;
          short = rw len (omega (arith, reads.uint));
          string_bytes = All-take IsByte size r' reads.rest_bytes;
          rest_bytes = All-drop IsByte size r' reads.rest_bytes;
        }
