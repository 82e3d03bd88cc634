-- ===== src/Attributes/Keys.antt =====
-- The keys of an `unordered_map` are all different; sorting the entries keeps them so.
use mathlib.Core.HLevel.{⊥_prop}
use mathlib.Core.List.{
  Mem, Nodup, Perm, Nodup-cons, Nodup-append, Nodup-nil, mem-cons, mem-cons_self, not-mem-nil,
  map-append,
}
use mathlib.Core.List.Perm
use mathlib.Core.Logic.Or
use graphx_docker.Base.{
  ◌≡◌, subst, true, false, List, [], ◌∷◌, ◌++◌, map, Bytes, arith, Bool-cases, inl, inr, length,
}
use graphx_docker.Base.Sort.{sort-perm, sort_unique, length-sort}
use graphx_docker.Attributes.{Attribute, bytes_equal, attribute_less, has_key, sort_attributes}
use graphx_docker.Attributes.Order.{bytes_equal→eq, bytes_equal_refl, attribute_order}

abbrev pub keys : List Attribute → List Bytes
keys = map λ p. p.0

abbrev pub KeysDiffer : List Attribute → Type 0
KeysDiffer attributes = Nodup (keys attributes)

pub has_key-Mem :
    (k : Bytes) (attributes : List Attribute)
    → has_key k attributes ≡ true
    → Mem k (keys attributes)
unfolding has_key
has_key-Mem k [] h = cc
has_key-Mem k ((j, v) ∷ rest) h = elim (Bool-cases (bytes_equal k j)) [
  | inl e ↦ mem-cons.1 (Or.inl (bytes_equal→eq k j e))
  | inr e ↦ mem-cons.1 (Or.inr (has_key-Mem k rest (rw e at h)))
]

pub Mem-has_key :
    (k : Bytes) (attributes : List Attribute)
    → has_key k attributes ≡ false
    → ¬ Mem k (keys attributes)
unfolding has_key
Mem-has_key k [] h m = not-mem-nil m
Mem-has_key k ((j, v) ∷ rest) h m =
    Or.elim ⊥_prop (mem-cons.0 m)
      (λ e. same (subst (λ i. bytes_equal k i ≡ true) e (bytes_equal_refl k)))
      (Mem-has_key k rest (ground arith))
  where
    same : ¬ (bytes_equal k j ≡ true)
    same e = ground arith

-- The map takes a key that it does not hold yet.
pub has_key_fresh :
    (front : List Attribute) (k v : Bytes) (rest : List Attribute)
    → KeysDiffer (front ++ (k, v) ∷ rest)
    → has_key k front ≡ false
has_key_fresh front k v rest d = elim (Bool-cases (has_key k front)) [
  | inl h ↦ absurd ((Nodup-append.0 (rw map-append at d)).2 _ (has_key-Mem k front h) mem-cons_self)
  | inr h ↦ h
]

-- Adding an entry under a new key.
pub KeysDiffer-concat :
    (front : List Attribute) (k v : Bytes)
    → KeysDiffer front
    → has_key k front ≡ false
    → KeysDiffer (front ++ (k, v) ∷ [])
KeysDiffer-concat front k v d h = rw map-append (
    Nodup-append.1 (
      d,
      Nodup-cons.1 (not-mem-nil, Nodup-nil),
      λ a m s.
          Or.elim ⊥_prop (mem-cons.0 s)
            (λ e. Mem-has_key k front h (subst (λ i. Mem i (keys front)) e m)) not-mem-nil,
    ))

pub sort_attributes-perm :
    (attributes : List Attribute) → Perm (sort_attributes attributes) attributes
unfolding sort_attributes
sort_attributes-perm = sort-perm attribute_less

pub sort_attributes-KeysDiffer :
    (attributes : List Attribute) → KeysDiffer attributes → KeysDiffer (sort_attributes attributes)
sort_attributes-KeysDiffer attributes =
    Perm.nodup (Perm.map _ (Perm.symm (sort_attributes-perm attributes)))

-- Two iteration orders of one map are sorted alike.
pub sort_attributes_unique :
    (xs ys : List Attribute) → Perm xs ys → sort_attributes xs ≡ sort_attributes ys
unfolding sort_attributes
sort_attributes_unique xs ys = sort_unique attribute_less attribute_order (hlevel)

pub length-sort_attributes : (xs : List Attribute) → length (sort_attributes xs) ≡ length xs
unfolding sort_attributes
length-sort_attributes = length-sort attribute_less
