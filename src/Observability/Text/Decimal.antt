-- ===== src/Observability/Text/Decimal.antt =====
-- The decimal spelling of a number is read back.
use graphx_docker.Base.{
  ℕ, zero, suc, ◌+◌, ◌-◌, ◌*◌, ◌/◌, ◌%◌, ◌^◌, ◌≤◌, ◌<◌, ◌≡◌, refl, sym, ap, ◌∙◌, some, [], ◌∷◌,
  ◌++◌, Bytes, ltb, length, All, All-append, arith, Bool-cases, inl, inr, List-cases, subst, pos,
}
use graphx_docker.Observability.Text.{
  leading_digits, digits_value, digits, to_string, stoll, parse_signed,
}

abbrev pub IsDigit : ℕ → Type 0
IsDigit c = (b'0' ≤ c) × (c ≤ b'9')

digits-IsDigit : (k n : ℕ) → All IsDigit (digits k n)
unfolding digits
digits-IsDigit zero n = tt
digits-IsDigit (suc k) n = elim (Bool-cases (ltb n 10)) [
  | inl e ↦ rw e (ground arith, tt)
  | inr e ↦ rw e (
      All-append IsDigit (digits k (n / 10)) ((b'0' + n % 10) ∷ []) (digits-IsDigit k (n / 10))
        (omega arith))
]

digits_value-append :
    (v : ℕ) (xs ys : Bytes) → digits_value v (xs ++ ys) ≡ digits_value (digits_value v xs) ys
unfolding digits_value
digits_value-append v [] ys = refl
digits_value-append v (x ∷ xs) ys = digits_value-append (v * 10 + (x - b'0')) xs ys

digits_value-digits : (k n : ℕ) → n < 10 ^ k → digits_value 0 (digits k n) ≡ n
unfolding digits digits_value
digits_value-digits zero n h = omega arith
digits_value-digits (suc k) n h = elim (Bool-cases (ltb n 10)) [
  | inl e ↦ rw e (omega arith)
  | inr e ↦ rw e (
      digits_value-append 0 (digits k (n / 10)) ((b'0' + n % 10) ∷ [])
      ∙ rw (digits_value-digits k (n / 10) (omega arith)) (omega arith))
]

leading_digits_whole : (xs : Bytes) → All IsDigit xs → leading_digits xs ≡ xs
unfolding leading_digits
leading_digits_whole [] h = refl
leading_digits_whole (x ∷ xs) h = ground (arith, leading_digits_whole xs h.1)

-- A text that is not empty and consists of digits.
stoll_digits :
    (c : ℕ) (cs : Bytes)
    → All IsDigit (c ∷ cs)
    → digits_value 0 (c ∷ cs) < 2 ^ 63
    → stoll (c ∷ cs) ≡ some (pos (digits_value 0 (c ∷ cs)), length (c ∷ cs))
unfolding stoll parse_signed leading_digits
stoll_digits c cs h small = ground (arith, h.0, small, leading_digits_whole cs h.1)

digits_cons : (k n : ℕ) → (d : ℕ) × (rest : Bytes) × (digits (suc k) n ≡ d ∷ rest)
unfolding digits
digits_cons k n = elim (Bool-cases (ltb n 10)) [
  | inl e ↦ (b'0' + n, [], rw e refl)
  | inr e ↦ elim (List-cases (digits k (n / 10))) [
    | inl z ↦ (b'0' + n % 10, [], rw (e, z) refl)
    | inr (d, rest, z) ↦ (d, rest ++ (b'0' + n % 10) ∷ [], rw (e, z) refl)
  ]
]

-- What `std::to_string` writes consists of digits.
pub to_string-IsDigit : (n : ℕ) → All IsDigit (to_string n)
unfolding to_string
to_string-IsDigit n = digits-IsDigit 20 n

stoll-digits :
    (k n : ℕ)
    → n < 10 ^ suc k
    → n < 2 ^ 63
    → stoll (digits (suc k) n) ≡ some (pos n, length (digits (suc k) n))
stoll-digits k n h small =
    let (d, rest, e) = digits_cons k n in
    let all : All IsDigit (d ∷ rest) = subst (All IsDigit) e (digits-IsDigit (suc k) n) in
    let value : digits_value 0 (d ∷ rest) ≡ n =
      ap (digits_value 0) (sym e) ∙ digits_value-digits (suc k) n h in
    rw e (stoll_digits d rest all (omega (arith, value)) ∙ rw value refl)

-- `std::stoll` reads back what `std::to_string` writes.
pub stoll-to_string :
    (n : ℕ) → n < 2 ^ 63 → stoll (to_string n) ≡ some (pos n, length (to_string n))
unfolding to_string
stoll-to_string n h = stoll-digits 19 n (omega arith) h
