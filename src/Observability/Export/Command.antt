-- ===== src/Observability/Export/Command.antt =====
-- What the control loop of observability.cpp takes as a command for its node.
use graphx_docker.Base.{
  ℕ, zero, suc, ◌+◌, ◌≤◌, ℤ, pos, negsuc, Bool, not, ◌&&◌, ◌||◌, ◌==◌, if◌then◌else◌, Option, none,
  subst, sym, ap, get_elem?, length, arith, ◌≡◌, refl, true, false, some, [], ◌∷◌, Bytes, codes,
  ◌⊎◌, inl, inr,
}
use graphx_docker.Attributes.{bytes_equal}
use graphx_docker.Attributes.Order.{bytes_equal→eq}
use graphx_docker.Observability.Commands.{
  Hmac, json_string_field, json_integer_field, valid_command_id, command_id_loop, is_dash_index,
  is_hex, stands_at, is_char,
}
use graphx_docker.Observability.Export.{Exporter, Moment, is_control, expires_soon}

-- The digits 0-9, a-f and A-F.
abbrev pub IsHexDigit : ℕ → Type 0
IsHexDigit c = ((b'0' ≤ c) × (c ≤ b'9')) ⊎ ((b'a' ≤ c) × (c ≤ b'f')) ⊎ ((b'A' ≤ c) × (c ≤ b'F'))

abbrev pub IsDashIndex : ℕ → Type 0
IsDashIndex i = (i ≡ 8) ⊎ (i ≡ 13) ⊎ (i ≡ 18) ⊎ (i ≡ 23)

-- The text form of a UUID.
abbrev pub IsCommandId : Bytes → Type 0
IsCommandId value =
    (length value ≡ 36)
    × ((i : ℕ) → IsDashIndex i → get_elem? value i ≡ some b'-')
    × ((i c : ℕ) → get_elem? value i ≡ some c → IsDashIndex i ⊎ IsHexDigit c)

-- What a command has to be, for an exporter at a moment.
abbrev pub IsCommandFor : Moment → Bytes → Exporter → Type 0
IsCommandFor moment payload s =
    (json_string_field payload (codes "kind") 16 ≡ codes "control")
    × IsCommandId (json_string_field payload (codes "commandId") 36)
    × (json_string_field payload (codes "targetNode") 64 ≡ s.node_id)
    × ((n : ℕ) × (json_integer_field payload (codes "expiresAt") ≡ some (pos n))
        × (moment.now ≤ n)
        × (n ≤ moment.now + 30000))

is_hex-IsHexDigit : (c : ℕ) → is_hex c ≡ true → IsHexDigit c
is_hex-IsHexDigit c h = ground (arith, h)

is_dash_index-IsDashIndex : (i : ℕ) → is_dash_index i ≡ true → IsDashIndex i
is_dash_index-IsDashIndex i h = ground (arith, h)

loop_tests :
    (dash hex rest : Bool)
    → (if dash then rest else hex && rest) ≡ true
    → (rest ≡ true) × ((dash ≡ true) ⊎ (hex ≡ true))
loop_tests dash hex rest h = ground (arith, h)

some-injective : (a b : ℕ) → ◌≡◌ {A = Option ℕ} (some a) (some b) → a ≡ b
some-injective a b e = cc

command_id_loop_lem :
    (k : ℕ) (value : Bytes) (i c : ℕ)
    → command_id_loop k value ≡ true
    → get_elem? value i ≡ some c
    → IsDashIndex (k + i) ⊎ IsHexDigit c
unfolding command_id_loop
command_id_loop_lem k [] i c h e = cc
command_id_loop_lem k (b ∷ value) zero c h e =
    elim (loop_tests (is_dash_index k) (is_hex b) (command_id_loop (suc k) value) h).1 [
      | inl dash ↦ inl (
          subst IsDashIndex (let z : k ≡ k + 0 = omega arith in z)
            (is_dash_index-IsDashIndex k dash))
      | inr hex ↦ inr (subst IsHexDigit (some-injective b c e) (is_hex-IsHexDigit b hex))
    ]
command_id_loop_lem k (b ∷ value) (suc i) c h e =
    let rest = (loop_tests (is_dash_index k) (is_hex b) (command_id_loop (suc k) value) h).0 in
    subst (λ n. IsDashIndex n ⊎ IsHexDigit c) (let z : suc k + i ≡ k + suc i = omega arith in z)
      (command_id_loop_lem (suc k) value i c rest e)

is_char_lem : (c : ℕ) (o : Option ℕ) → is_char c o ≡ true → o ≡ some c
is_char_lem c none h = cc
is_char_lem c (some d) h = ap (λ x. some x) (let e : d ≡ c = ground (arith, h) in e)

id_tests :
    (long a b c d loop : Bool)
    → (if not long || not a || not b || not c || not d then false else loop) ≡ true
    → (long ≡ true) × (a ≡ true) × (b ≡ true) × (c ≡ true) × (d ≡ true) × (loop ≡ true)
id_tests long a b c d loop h = ground (arith, h)

dash_at :
    (value : Bytes) (i j : ℕ)
    → stands_at b'-' value j ≡ true
    → i ≡ j
    → get_elem? value i ≡ some b'-'
dash_at value i j h e =
    subst (λ k. get_elem? value k ≡ some b'-') (sym e) (is_char_lem b'-' (get_elem? value j) h)

valid_command_id-IsCommandId : (value : Bytes) → valid_command_id value ≡ true → IsCommandId value
unfolding valid_command_id
valid_command_id-IsCommandId value h =
    let (long, a, b, c, d, loop) =
      id_tests (length value == 36) (stands_at b'-' value 8) (stands_at b'-' value 13)
        (stands_at b'-' value 18) (stands_at b'-' value 23) (command_id_loop 0 value) h in
    (
      ground (arith, long),
      λ i at. elim at [
        | inl e ↦ dash_at value i 8 a e
        | inr (inl e) ↦ dash_at value i 13 b e
        | inr (inr (inl e)) ↦ dash_at value i 18 c e
        | inr (inr (inr e)) ↦ dash_at value i 23 d e
      ],
      λ i x e.
          subst (λ n. IsDashIndex n ⊎ IsHexDigit x) (let z : 0 + i ≡ i = omega arith in z)
            (command_id_loop_lem 0 value i x loop e),
    )

expires_soon_lem :
    (hmac : Hmac) (expires : Option ℤ) (now : ℕ)
    → expires_soon hmac expires now ≡ true
    → (n : ℕ) × (expires ≡ some (pos n)) × (now ≤ n) × (n ≤ now + 30000)
expires_soon_lem hmac none now h = cc
expires_soon_lem hmac (some (negsuc n)) now h = cc
expires_soon_lem hmac (some (pos n)) now h = (n, refl, ground (arith, h), ground (arith, h))

four_tests :
    (a b c d : Bool)
    → (a && (b && (c && d))) ≡ true
    → (a ≡ true) × (b ≡ true) × (c ≡ true) × (d ≡ true)
four_tests a b c d h = ground (arith, h)

pub is_control-IsCommandFor :
    (hmac : Hmac) (moment : Moment) (payload : Bytes) (s : Exporter)
    → is_control hmac moment payload s ≡ true
    → IsCommandFor moment payload s
is_control-IsCommandFor hmac moment payload s h =
    let kind = json_string_field payload (codes "kind") 16 in
    let command_id = json_string_field payload (codes "commandId") 36 in
    let target = json_string_field payload (codes "targetNode") 64 in
    let expires = json_integer_field payload (codes "expiresAt") in
    let (a, b, c, d) =
      four_tests (bytes_equal kind (codes "control")) (valid_command_id command_id)
        (bytes_equal target s.node_id) (expires_soon hmac expires moment.now) h in
    (
      bytes_equal→eq kind (codes "control") a,
      valid_command_id-IsCommandId command_id b,
      bytes_equal→eq target s.node_id c,
      expires_soon_lem hmac expires moment.now d,
    )
