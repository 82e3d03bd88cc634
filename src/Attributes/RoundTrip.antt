-- ===== src/Attributes/RoundTrip.antt =====
-- The attribute loops of `serialize` and `deserialize` undo one another.
use graphx_docker.Base.{
  ℕ, zero, suc, ◌≤◌, ◌≡◌, refl, sym, ap, ◌∙◌, not, List, [], ◌∷◌, ◌++◌, Bytes, IsBytes, All, ok,
  arith, >>=-elim, guard-elim, ok-injective, length, append-nil, append_assoc, subst,
}
use graphx_docker.Wire.{put, get_string, uint32_max, duplicate_key}
use graphx_docker.Wire.Number.{put_string-ok, get_string-put, get_string-ReadsString, ReadsString}
use graphx_docker.Attributes.{Attribute, put_attributes, get_attributes, has_key}
use graphx_docker.Attributes.Keys.{KeysDiffer, has_key_fresh, KeysDiffer-concat}

-- What `put_attributes` writes where no string is too long.
unfoldable pub text : Bytes → Bytes
text s = put 4 (length s) ++ s

unfoldable pub texts : List Attribute → Bytes
unfolding text
texts [] = []
texts ((k, v) ∷ rest) = text k ++ (text v ++ texts rest)

abbrev pub IsShort : Attribute → Type 0
IsShort p = (length p.0 ≤ uint32_max) × (length p.1 ≤ uint32_max)

pub put_attributes-texts :
    (attributes : List Attribute)
    → All IsShort attributes
    → put_attributes attributes ≡ ok (texts attributes)
unfolding put_attributes texts
put_attributes-texts [] h = refl
put_attributes-texts ((k, v) ∷ rest) h =
    rw (put_string-ok k h.0.0, put_string-ok v h.0.1, put_attributes-texts rest h.1)

get_text : (s rest : Bytes) → length s ≤ uint32_max → get_string (text s ++ rest) ≡ ok (s, rest)
unfolding text
get_text s rest h = get_string-put s rest h

-- The loop reads the entries back, in order, behind those that the map holds.
pub get_attributes-texts :
    (attributes front : List Attribute) (rest : Bytes)
    → All IsShort attributes
    → KeysDiffer (front ++ attributes)
    → get_attributes (length attributes) front (texts attributes ++ rest)
      ≡ ok (front ++ attributes, rest)
unfolding get_attributes texts
get_attributes-texts [] front rest h d = rw append-nil
get_attributes-texts ((k, v) ∷ more) front rest h d =
    rw
      (
        append_assoc (text k) (text v ++ texts more) rest,
        append_assoc (text v) (texts more) rest,
        get_text k (text v ++ (texts more ++ rest)) h.0.0,
        get_text v (texts more ++ rest) h.0.1,
        has_key_fresh front k v more d,
      )
      (get_attributes-texts more (front ++ (k, v) ∷ []) rest h.1
          (rw (append_assoc front ((k, v) ∷ []) more) d)
        ∙ ap (λ x. ok (x, rest)) (append_assoc front ((k, v) ∷ []) more))

-- A successful read has consumed what `put_attributes` writes for the entries that it added.
pub record ReadsAttributes (n : ℕ) (r : Bytes) (front attributes : List Attribute) (rest : Bytes)
    : Type 0 where
  pub added : List Attribute
  pub counted : length added ≡ n
  pub holds : attributes ≡ front ++ added
  pub split : r ≡ texts added ++ rest
  pub short : All IsShort added
  pub differ : KeysDiffer attributes
  pub rest_bytes : IsBytes rest

ReadsAttributes-step :
    (n : ℕ) (front : List Attribute) (r key r₁ value r₂ : Bytes) {attributes : List Attribute}
    {rest : Bytes}
    → ReadsString r key r₁
    → ReadsString r₁ value r₂
    → ReadsAttributes n r₂ (front ++ (key, value) ∷ []) attributes rest
    → ReadsAttributes (suc n) r front attributes rest
unfolding texts text
ReadsAttributes-step n front r key r₁ value r₂ {rest = rest} s₁ s₂ more = record {
  added = (key, value) ∷ more.added;
  counted = ap suc more.counted;
  holds = more.holds ∙ append_assoc front ((key, value) ∷ []) more.added;
  split =
      s₁.split
      ∙ ap (◌++◌ (put 4 (length key) ++ key))
          (s₂.split ∙ ap (◌++◌ (put 4 (length value) ++ value)) more.split)
      ∙ simp append_assoc;
  short = ((s₁.short, s₂.short), more.short);
  differ = more.differ;
  rest_bytes = more.rest_bytes;
}

pub get_attributes-ReadsAttributes :
    (n : ℕ) (front : List Attribute) (r : Bytes) {attributes : List Attribute} {rest : Bytes}
    → IsBytes r
    → KeysDiffer front
    → get_attributes n front r ≡ ok (attributes, rest)
    → ReadsAttributes n r front attributes rest
unfolding get_attributes
get_attributes-ReadsAttributes zero front r {attributes} {rest} hr d e =
    subst (λ (p : List Attribute × Bytes). ReadsAttributes 0 r front p.0 p.1) (ok-injective e)
      (record {
        added = [];
        counted = refl;
        holds = sym (append-nil front);
        split = (unfold texts in refl);
        short = tt;
        differ = d;
        rest_bytes = hr;
      })
get_attributes-ReadsAttributes (suc n) front r hr d e =
    >>=-elim (get_string r) _ e λ (key, r₁) e₁ f₁.
      >>=-elim (get_string r₁) _ f₁ λ (value, r₂) e₂ f₂.
        guard-elim (not (has_key key front)) duplicate_key _ f₂ λ fresh f₃.
          let s₁ = get_string-ReadsString r hr e₁ in
          let s₂ = get_string-ReadsString r₁ s₁.rest_bytes e₂ in
          ReadsAttributes-step n front r key r₁ value r₂ s₁ s₂ (
            get_attributes-ReadsAttributes n (front ++ (key, value) ∷ []) r₂ s₂.rest_bytes
              (KeysDiffer-concat front key value d (ground arith)) f₃)
