-- ===== src/Observability/Text/Search.antt =====
-- Searches in texts that are put together from known parts.
use graphx_docker.Base.{
  ℕ, zero, suc, ◌+◌, ◌-◌, ◌≤◌, ◌≡◌, ◌≢◌, refl, sym, ap, ◌∙◌, true, Option, none, some, List, [],
  ◌∷◌, ◌++◌, Bytes, length, length-append, drop, drop-append, All, arith, le→leb,
}
use graphx_docker.Observability.Text.{shift, starts_with, ends_with, find, rfind}

-- No character of a text is c.
abbrev pub Without : ℕ → Bytes → Type 0
Without c = All λ d. d ≢ c

pub starts_with-append : (text rest : Bytes) → starts_with text (text ++ rest) ≡ true
unfolding starts_with
starts_with-append [] rest = refl
starts_with-append (c ∷ text) rest = ground (arith, starts_with-append text rest)

drop_nil {ℓ} : {A : Type ℓ} (n : ℕ) → drop {A = A} n [] ≡ []
drop_nil zero = refl
drop_nil (suc n) = refl

pub drop-add {ℓ} : {A : Type ℓ} (m n : ℕ) (s : List A) → drop (m + n) s ≡ drop n (drop m s)
drop-add zero n s = ap (λ k. drop k s) (let e : 0 + n ≡ n = omega arith in e)
drop-add (suc m) n [] = drop_nil (suc m + n) ∙ sym (drop_nil n)
drop-add (suc m) n (c ∷ s) =
    ap (λ k. drop k (c ∷ s)) (let e : suc m + n ≡ suc (m + n) = omega arith in e) ∙ drop-add m n s

-- What stands in front does not change how a text ends.
pub ends_with-append :
    (suffix front input : Bytes)
    → ends_with suffix input ≡ true
    → ends_with suffix (front ++ input) ≡ true
unfolding ends_with
ends_with-append suffix front input h =
    let size = length-append front input in
    let fits : length suffix ≤ length input = ground (arith, h) in
    let e : length (front ++ input) - length suffix
        ≡ length front + (length input - length suffix) =
      omega (arith, size, fits) in
    rw
      (
        le→leb (length suffix) (length (front ++ input)) (omega (arith, size, fits)),
        e,
        drop-add (length front) (length input - length suffix) (front ++ input),
        drop-append front input,
      )
      (ground (arith, h))

shift-zero : (o : Option ℕ) → shift 0 o ≡ o
shift-zero none = refl
shift-zero (some i) = ap some (omega arith)

shift-suc : (n : ℕ) (o : Option ℕ) → shift 1 (shift n o) ≡ shift (suc n) o
shift-suc n none = refl
shift-suc n (some i) = ap some (omega arith)

-- A part in which the first character of the text does not occur is passed over.
pub find-append :
    (c : ℕ) (text part rest : Bytes)
    → Without c part
    → find (c ∷ text) (part ++ rest) ≡ shift (length part) (find (c ∷ text) rest)
unfolding find starts_with
find-append c text [] rest h = sym (shift-zero (find (c ∷ text) rest))
find-append c text (d ∷ part) rest h =
    ground
      (arith, find-append c text part rest h.1, h.0, shift-suc (length part) (find (c ∷ text) rest))

-- Likewise from the end, if the text does not occur behind the part.
pub rfind-append :
    (c : ℕ) (text part rest : Bytes)
    → Without c part
    → rfind (c ∷ text) rest ≡ none
    → rfind (c ∷ text) (part ++ rest) ≡ none
unfolding rfind starts_with
rfind-append c text [] rest h e = e
rfind-append c text (d ∷ part) rest h e = ground (arith, rfind-append c text part rest h.1 e, h.0)

-- The last occurrence, whatever stands in front of it.
pub rfind-shift :
    (text front rest : Bytes) {i : ℕ}
    → rfind text rest ≡ some i
    → rfind text (front ++ rest) ≡ some (length front + i)
unfolding rfind
rfind-shift text [] rest {i} e = e ∙ ap some (omega arith)
rfind-shift text (c ∷ front) rest {i} e = rw (rfind-shift text front rest e) (ap some (omega arith))
