-- ===== src/Base/Fallible.antt =====
-- A value or the exception that was thrown in its place.
use mathlib.Core.Path.{◌≡◌, refl}
use mathlib.Core.Bool.{Bool, true, false}
use mathlib.Core.Logic.{◌⊎◌, inl, inr}

pub data Result {ℓ} (E : Type 0) (A : Type ℓ) : Type ℓ where
  ok : A → Result E A
  err : E → Result E A

module _ {E : Type 0} where
  -- `if (!condition) throw problem;`
  abbrev pub guard : (condition : Bool) (problem : E) → Result E (Unit {0})
  guard false problem = err problem
  guard true problem = ok tt

  infixl 5 ◌>>=◌
  abbrev pub ◌>>=◌ {ℓ κ} :
      {A : Type ℓ} {B : Type κ} (first : Result E A) (next : A → Result E B) → Result E B
  err problem >>= next = err problem
  ok value >>= next = next value

  infixl 5 ◌>>◌
  abbrev pub ◌>>◌ {κ} : {B : Type κ} (first : Result E (Unit {0})) (next : Result E B) → Result E B
  first >> next = first >>= λ done. next

  -- What a chain that succeeds has gone through.
  pub >>=-eq-ok {ℓ κ} :
      {A : Type ℓ} {B : Type κ} (first : Result E A) (next : A → Result E B) {result : B}
      → (first >>= next) ≡ ok result
      → (value : A) × (first ≡ ok value) × (next value ≡ ok result)
  >>=-eq-ok (err problem) next h = cc
  >>=-eq-ok (ok value) next h = (value, refl, h)

  pub guard-eq-ok {ℓ} :
      {B : Type ℓ} (b : Bool) (e : E) (k : Result E B) {r : B}
      → (guard b e >> k) ≡ ok r
      → (b ≡ true) × (k ≡ ok r)
  guard-eq-ok true e k h = (refl, h)
  guard-eq-ok false e k h = cc

  pub Result-cases {ℓ} :
      {A : Type ℓ} (r : Result E A) → ((a : A) × (r ≡ ok a)) ⊎ ((e : E) × (r ≡ err e))
  Result-cases (ok a) = inl (a, refl)
  Result-cases (err e) = inr (e, refl)

  pub ok-injective {ℓ} : {A : Type ℓ} {a b : A} → ◌≡◌ {A = Result E A} (ok a) (ok b) → a ≡ b
  ok-injective h = cc

  -- The same as rules: what is to be proved may use the value and the equations.
  pub >>=-elim {ℓ κ μ} :
      {A : Type ℓ} {B : Type κ} {C : Type μ} (m : Result E A) (f : A → Result E B) {b : B}
      → (m >>= f) ≡ ok b
      → ((a : A) → m ≡ ok a → f a ≡ ok b → C)
      → C
  >>=-elim (ok a) f h k = k a refl h
  >>=-elim (err e) f h k = cc

  pub guard-elim {ℓ κ} :
      {B : Type ℓ} {C : Type κ} (b : Bool) (e : E) (m : Result E B) {r : B}
      → (guard b e >> m) ≡ ok r
      → (b ≡ true → m ≡ ok r → C)
      → C
  guard-elim true e m h k = k refl h
  guard-elim false e m h k = cc
