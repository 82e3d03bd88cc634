-- ===== src/SharedMemory/Slots.antt =====
-- The slots of the ring: consecutive sequence numbers, as many as there are slots, never share one.
use native.Mathlib.Nat.{div-add-mod', mod-lt}
use graphx_docker.Base.{
  ℕ, zero, suc, ◌+◌, ◌*◌, ◌/◌, ◌%◌, ◌≤◌, ◌<◌, ◌≡◌, ◌≢◌, refl, ap, subst, inl, inr, ◌⊎◌, List, [],
  ◌∷◌, some, arith, length, get_elem?, All,
}
use graphx_docker.SharedMemory.{Slot, set_slot}

pub length-set_slot : (i : ℕ) (v : Slot) (xs : List Slot) → length (set_slot i v xs) ≡ length xs
unfolding set_slot
length-set_slot i v [] = refl
length-set_slot zero v (x ∷ xs) = refl
length-set_slot (suc i) v (x ∷ xs) = ap suc (length-set_slot i v xs)

pub get_elem?-set_slot_same :
    (i : ℕ) (v : Slot) (xs : List Slot) → i < length xs → get_elem? (set_slot i v xs) i ≡ some v
unfolding set_slot
get_elem?-set_slot_same i v [] h = absurd (omega arith)
get_elem?-set_slot_same zero v (x ∷ xs) h = refl
get_elem?-set_slot_same (suc i) v (x ∷ xs) h = get_elem?-set_slot_same i v xs (omega arith)

pub get_elem?-set_slot_other :
    (i j : ℕ) (v : Slot) (xs : List Slot) → i ≢ j → get_elem? (set_slot i v xs) j ≡ get_elem? xs j
unfolding set_slot
get_elem?-set_slot_other i j v [] h = refl
get_elem?-set_slot_other zero zero v (x ∷ xs) h = absurd (h refl)
get_elem?-set_slot_other zero (suc j) v (x ∷ xs) h = refl
get_elem?-set_slot_other (suc i) zero v (x ∷ xs) h = refl
get_elem?-set_slot_other (suc i) (suc j) v (x ∷ xs) h =
    get_elem?-set_slot_other i j v xs (λ e. h (ap suc e))

pub All-set_slot :
    (P : Slot → Type 0) (i : ℕ) (v : Slot) (xs : List Slot)
    → All P xs
    → P v
    → All P (set_slot i v xs)
unfolding set_slot
All-set_slot P i v [] h k = tt
All-set_slot P zero v (x ∷ xs) h k = (k, h.1)
All-set_slot P (suc i) v (x ∷ xs) h k = (h.0, All-set_slot P i v xs h.1 k)

pub get_elem?-lt : (i : ℕ) (xs : List Slot) → i < length xs → (s : Slot) × (get_elem? xs i ≡ some s)
get_elem?-lt i [] h = absurd (omega arith)
get_elem?-lt zero (x ∷ xs) h = (x, refl)
get_elem?-lt (suc i) (x ∷ xs) h = get_elem?-lt i xs (omega arith)

some-injective : {x s : Slot} → some x ≡ some s → x ≡ s
some-injective h = cc

pub All-get_elem? :
    (P : Slot → Type 0) (i : ℕ) (xs : List Slot) (s : Slot)
    → All P xs
    → get_elem? xs i ≡ some s
    → P s
All-get_elem? P i [] s h e = cc
All-get_elem? P zero (x ∷ xs) s h e = subst P (some-injective e) h.0
All-get_elem? P (suc i) (x ∷ xs) s h e = All-get_elem? P i xs s h.1 e

le_cases : (q p : ℕ) → (q ≤ p) ⊎ (suc p ≤ q)
le_cases q p = omega arith

scale_mono : (p q c : ℕ) → p ≤ q → p * c ≤ q * c
scale_mono p q c h = grind arith

multiples_apart : (p q c m : ℕ) → p * c + m < q * c + m → q * c + m < p * c + m + c → ⊥
multiples_apart p q c m h k = elim (le_cases q p) [
  | inl l ↦ omega (arith, scale_mono q p c l)
  | inr l ↦
      let e : suc p * c ≡ p * c + c = grind arith in omega (arith, scale_mono (suc p) q c l, e)
]

pub mod_apart : (a b c : ℕ) → a < b → b < a + c → a % c ≢ b % c
mod_apart a b c h k e =
    let ea = div-add-mod' a c in
    let eb = div-add-mod' b c in
    multiples_apart (a / c) (b / c) c (b % c) (omega (arith, ea, eb, e)) (omega (arith, ea, eb, e))

pub mod_in_range : (a c : ℕ) → 0 < c → a % c < c
mod_in_range a c h = mod-lt a h
