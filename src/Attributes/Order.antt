-- ===== src/Attributes/Order.antt =====
-- `operator<` on strings and on pairs of strings is a strict total order.
use graphx_docker.Base.{◌≡◌, refl, true, false, [], ◌∷◌, Bytes, arith}
use graphx_docker.Base.Sort.{StrictOrder}
use graphx_docker.Attributes.{bytes_equal, bytes_less, attribute_less, Attribute}

pub bytes_equal→eq : (a b : Bytes) → bytes_equal a b ≡ true → a ≡ b
unfolding bytes_equal
bytes_equal→eq [] [] h = refl
bytes_equal→eq [] (y ∷ b) h = cc
bytes_equal→eq (x ∷ a) [] h = cc
bytes_equal→eq (x ∷ a) (y ∷ b) h = ground (arith, bytes_equal→eq a b)

pub bytes_equal_refl : (a : Bytes) → bytes_equal a a ≡ true
unfolding bytes_equal
bytes_equal_refl [] = refl
bytes_equal_refl (x ∷ a) = ground (arith, bytes_equal_refl a)

bytes_less_asymm : (a b : Bytes) → bytes_less a b ≡ true → bytes_less b a ≡ false
unfolding bytes_less
bytes_less_asymm [] [] h = refl
bytes_less_asymm [] (y ∷ b) h = refl
bytes_less_asymm (x ∷ a) [] h = cc
bytes_less_asymm (x ∷ a) (y ∷ b) h = ground (arith, bytes_less_asymm a b)

bytes_less_tri : (a b : Bytes) → bytes_less a b ≡ false → bytes_less b a ≡ false → a ≡ b
unfolding bytes_less
bytes_less_tri [] [] h k = refl
bytes_less_tri [] (y ∷ b) h k = cc
bytes_less_tri (x ∷ a) [] h k = cc
bytes_less_tri (x ∷ a) (y ∷ b) h k = ground (arith, bytes_less_tri a b)

bytes_less_mixed :
    (a b c : Bytes) → bytes_less b a ≡ false → bytes_less b c ≡ true → bytes_less a c ≡ true
unfolding bytes_less
bytes_less_mixed [] b [] h k = cc
bytes_less_mixed [] b (z ∷ c) h k = refl
bytes_less_mixed (x ∷ a) [] c h k = cc
bytes_less_mixed (x ∷ a) (y ∷ b) [] h k = cc
bytes_less_mixed (x ∷ a) (y ∷ b) (z ∷ c) h k = ground (arith, bytes_less_mixed a b c)

attribute_less_asymm : (a b : Attribute) → attribute_less a b ≡ true → attribute_less b a ≡ false
unfolding attribute_less
attribute_less_asymm (k, v) (j, w) h = ground (arith, bytes_less_asymm k j, bytes_less_asymm v w)

attribute_less_tri :
    (a b : Attribute) → attribute_less a b ≡ false → attribute_less b a ≡ false → a ≡ b
unfolding attribute_less
attribute_less_tri (k, v) (j, w) h e = ground (arith, bytes_less_tri k j, bytes_less_tri v w)

attribute_less_mixed :
    (a b c : Attribute)
    → attribute_less b a ≡ false
    → attribute_less b c ≡ true
    → attribute_less a c ≡ true
unfolding attribute_less
attribute_less_mixed (k₁, v₁) (k₂, v₂) (k₃, v₃) h e = ground (
  arith,
  bytes_less_mixed k₁ k₂ k₃,
  bytes_less_tri k₂ k₃,
  bytes_less_tri k₁ k₂,
  bytes_less_mixed v₁ v₂ v₃,
)

pub attribute_order : StrictOrder Attribute attribute_less
attribute_order = record {
  asymm = attribute_less_asymm;
  tri = attribute_less_tri;
  mixed = attribute_less_mixed;
}
