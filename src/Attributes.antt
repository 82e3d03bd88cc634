-- ===== src/Attributes.antt =====
-- The attributes of an envelope, an `unordered_map<string, string>`: the list of its entries in
-- iteration order, which the language leaves open, with keys that are all different.
pub mod Order
pub mod Keys
pub mod RoundTrip
use graphx_docker.Base.{
  ℕ, zero, suc, Bool, true, false, not, ◌&&◌, ◌||◌, List, [], ◌∷◌, ◌++◌, Bytes, Result, ok, err,
  ◌>>=◌, ◌>>◌, guard, ltb, ◌==◌, if◌then◌else◌,
}
use graphx_docker.Base.Sort.{sort}
use graphx_docker.Wire.{Error, duplicate_key, put_string, get_string}

abbrev pub Attribute : Type 0
Attribute = Bytes × Bytes

-- `std::string` equality and `operator<`, which compares characters as unsigned.
unfoldable pub bytes_equal : Bytes → Bytes → Bool
bytes_equal [] [] = true
bytes_equal [] (y ∷ ys) = false
bytes_equal (x ∷ xs) [] = false
bytes_equal (x ∷ xs) (y ∷ ys) = x == y && bytes_equal xs ys

unfoldable pub bytes_less : Bytes → Bytes → Bool
bytes_less [] [] = false
bytes_less [] (y ∷ ys) = true
bytes_less (x ∷ xs) [] = false
bytes_less (x ∷ xs) (y ∷ ys) = if ltb x y then true else if ltb y x then false else bytes_less xs ys

-- `operator<` of `std::pair`.
unfoldable pub attribute_less : Attribute → Attribute → Bool
unfolding bytes_less
attribute_less (k, v) (j, w) = bytes_less k j || (not (bytes_less j k) && bytes_less v w)

-- `std::sort(attributes.begin(), attributes.end())` in `serialize`.
unfoldable pub sort_attributes : List Attribute → List Attribute
unfolding attribute_less sort
sort_attributes = sort attribute_less

-- The attribute loop of `serialize`.
unfoldable pub put_attributes : List Attribute → Result Error Bytes
unfolding put_string
put_attributes [] = ok []
put_attributes ((key, value) ∷ rest) = do
  k ← put_string key
  v ← put_string value
  more ← put_attributes rest
  ok (k ++ (v ++ more))

-- Whether the map has an entry for the key: `emplace` reports it by `second`.
unfoldable pub has_key : Bytes → List Attribute → Bool
unfolding bytes_equal
has_key key [] = false
has_key key ((k, v) ∷ rest) = bytes_equal key k || has_key key rest

-- The attribute loop of `deserialize`, for the rounds that are left.
unfoldable pub get_attributes : ℕ → List Attribute → Bytes → Result Error (List Attribute × Bytes)
unfolding get_string has_key
get_attributes zero attributes r = ok (attributes, r)
get_attributes (suc n) attributes r = do
  (key, r₁) ← get_string r
  (value, r₂) ← get_string r₁
  guard (not (has_key key attributes)) duplicate_key
  get_attributes n (attributes ++ (key, value) ∷ []) r₂
