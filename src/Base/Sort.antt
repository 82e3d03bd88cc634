-- ===== src/Base/Sort.antt =====
-- `std::sort` by a strict total order, as an insertion sort: what it returns is determined by the
-- elements alone.
use Prim.Native.Nat.{ℕ, suc, ◌+◌}
use mathlib.Core.Path.{◌≡◌, refl, ap, ap₂, ◌∙◌}
use mathlib.Core.Logic.{∥∥₁_elim, inl, inr}
use mathlib.Core.Bool.{Bool, true, false}
use mathlib.Core.List.{List, [], ◌∷◌, Perm, Permᴰ}
use mathlib.Core.List.Perm
use native.Mathlib.Omega.{arith}
use graphx_docker.Base.Tests.{if◌then◌else◌, Bool-cases}
use graphx_docker.Base.Lists.{length, total, All}

-- The laws of a strict total order, given as a Boolean test.
pub record StrictOrder {ℓ} (A : Type ℓ) (less : A → A → Bool) : Type ℓ where
  pub asymm : (a b : A) → less a b ≡ true → less b a ≡ false
  pub tri : (a b : A) → less a b ≡ false → less b a ≡ false → a ≡ b
  pub mixed : (a b c : A) → less b a ≡ false → less b c ≡ true → less a c ≡ true

module _ {ℓ} {A : Type ℓ} (less : A → A → Bool) where
  unfoldable pub insert : A → List A → List A
  insert x [] = x ∷ []
  insert x (y ∷ ys) = if less y x then y ∷ insert x ys else x ∷ y ∷ ys

  unfoldable pub sort : List A → List A
  unfolding insert
  sort [] = []
  sort (x ∷ xs) = insert x (sort xs)

  -- No element is less than the one before it.
  abbrev pub IsSorted : List A → Type 0
  IsSorted [] = Unit
  IsSorted (x ∷ []) = Unit
  IsSorted (x ∷ y ∷ xs) = (less y x ≡ false) × IsSorted (y ∷ xs)

  length-insert : (x : A) (xs : List A) → length (insert x xs) ≡ suc (length xs)
  unfolding insert
  length-insert x [] = refl
  length-insert x (y ∷ ys) = ground (arith, length-insert x ys)

  insert-perm : (x : A) (xs : List A) → Perm (insert x xs) (x ∷ xs)
  unfolding insert
  insert-perm x [] = Perm.refl (x ∷ [])
  insert-perm x (y ∷ ys) = elim (Bool-cases (less y x)) [
    | inl h ↦ rw h (Perm.trans (Perm.cons y (insert-perm x ys)) (Perm.swap x y ys))
    | inr h ↦ rw h (Perm.refl (x ∷ y ∷ ys))
  ]

  pub sort-perm : (xs : List A) → Perm (sort xs) xs
  unfolding sort
  sort-perm [] = Perm.refl []
  sort-perm (x ∷ xs) = Perm.trans (insert-perm x (sort xs)) (Perm.cons x (sort-perm xs))

  module _ (o : StrictOrder A less) where
    insert_comm : (x y : A) (l : List A) → insert x (insert y l) ≡ insert y (insert x l)
    unfolding insert
    insert_comm x y [] = ground (arith, o.asymm x y, o.tri x y)
    insert_comm x y (z ∷ l) =
        ground (arith, o.asymm x y, o.tri x y, o.mixed y z x, o.mixed x z y, insert_comm x y l)

    sort-Permᴰ : {xs ys : List A} → Permᴰ xs ys → sort xs ≡ sort ys
    unfolding sort
    sort-Permᴰ Permᴰ.nil = refl
    sort-Permᴰ (Permᴰ.cons e p) = ap₂ insert e (sort-Permᴰ p)
    sort-Permᴰ (Permᴰ.swap {a} {b} {a'} {b'} {l} e f) = rw (e, f) (insert_comm b' a' (sort l))
    sort-Permᴰ (Permᴰ.trans p q) = sort-Permᴰ p ∙ sort-Permᴰ q

    -- Lists of the same elements are sorted to the same list.
    pub sort_unique : {xs ys : List A} → IsSet (List A) → Perm xs ys → sort xs ≡ sort ys
    sort_unique set p = ∥∥₁_elim p (set _ _) sort-Permᴰ

    insert-IsSorted : (x : A) (xs : List A) → IsSorted xs → IsSorted (insert x xs)
    unfolding insert
    insert-IsSorted x [] h = tt
    insert-IsSorted x (y ∷ []) h = ground (arith, o.asymm x y, o.asymm y x)
    insert-IsSorted x (y ∷ z ∷ ys) h =
        ground (arith, insert-IsSorted x (z ∷ ys) h.1, o.asymm y x, o.asymm x y)

    pub sort-IsSorted : (xs : List A) → IsSorted (sort xs)
    unfolding sort
    sort-IsSorted [] = tt
    sort-IsSorted (x ∷ xs) = insert-IsSorted x (sort xs) (sort-IsSorted xs)

  -- A sorted list is left as it is.
  pub sort_sorted : (xs : List A) → IsSorted xs → sort xs ≡ xs
  unfolding sort insert
  sort_sorted [] h = refl
  sort_sorted (x ∷ []) h = refl
  sort_sorted (x ∷ y ∷ xs) h = ap (insert x) (sort_sorted (y ∷ xs) h.1) ∙ rw h.0

  pub length-sort : (xs : List A) → length (sort xs) ≡ length xs
  unfolding sort
  length-sort [] = refl
  length-sort (x ∷ xs) = length-insert x (sort xs) ∙ ap suc (length-sort xs)

  All-insert {κ} : (P : A → Type κ) (x : A) (xs : List A) → P x → All P xs → All P (insert x xs)
  unfolding insert
  All-insert P x [] h hs = (h, tt)
  All-insert P x (y ∷ ys) h hs = elim (Bool-cases (less y x)) [
    | inl e ↦ rw e (hs.0, All-insert P x ys h hs.1)
    | inr e ↦ rw e (h, hs)
  ]

  pub All-sort {κ} : (P : A → Type κ) (xs : List A) → All P xs → All P (sort xs)
  unfolding sort
  All-sort P [] h = tt
  All-sort P (x ∷ xs) h = All-insert P x (sort xs) h.0 (All-sort P xs h.1)

  total-insert : (f : A → ℕ) (x : A) (xs : List A) → total f (insert x xs) ≡ f x + total f xs
  unfolding insert
  total-insert f x [] = refl
  total-insert f x (y ∷ ys) = ground (arith, total-insert f x ys)

  pub total-sort : (f : A → ℕ) (xs : List A) → total f (sort xs) ≡ total f xs
  unfolding sort
  total-sort f [] = refl
  total-sort f (x ∷ xs) = omega (arith, total-insert f x (sort xs), total-sort f xs)
