-- ===== src/Observability/Export/Escape.antt =====
-- A text survives its way through a JSON string.
use graphx_docker.Base.{
  ℕ, zero, suc, ◌+◌, ◌-◌, ◌*◌, ◌/◌, ◌%◌, ◌<◌, ◌≡◌, refl, ap, ◌∙◌, Bool, true, ◌&&◌, ◌||◌, Option,
  none, some, [], ◌∷◌, ◌++◌, append_assoc, Bytes, leb, ltb, ◌==◌, if◌then◌else◌, IsBytes, arith,
}
use graphx_docker.Identity.{hex_digit}
use graphx_docker.Observability.Export.{escape_character, escape_json}

-- The value of a lowercase hexadecimal digit.
abbrev digit_value : ℕ → ℕ
digit_value c = if leb c b'9' then c - b'0' else c + 10 - b'a'

abbrev prepend : ℕ → Option (Bytes × Bytes) → Option (Bytes × Bytes)
prepend c none = none
prepend c (some (value, rest)) = some (c ∷ value, rest)

-- Where a reader of a JSON string stands: between characters, behind a backslash, or within the
-- digits of `\u`, with the number left and the value of those read.
pub data Mode : Type 0 where
  plain escaped : Mode
  unicode : ℕ → ℕ → Mode

-- The character that a short escape stands for.
abbrev short_escape : ℕ → Option ℕ
short_escape c =
    if c == b'\\' || c == b'"' || c == b'/'
    then some c
    else if c == b'b'
    then some 8
    else if c == b'f'
    then some 12
    else if c == b'n'
    then some b'\n'
    else if c == b'r'
    then some b'\r'
    else if c == b't'
    then some b'\t'
    else none

abbrev prepend_some : Option ℕ → Option (Bytes × Bytes) → Option (Bytes × Bytes)
prepend_some none rest = none
prepend_some (some c) rest = prepend c rest

abbrev is_hex_digit : ℕ → Bool
is_hex_digit c = (leb b'0' c && leb c b'9') || (leb b'a' c && leb c b'f')

-- A reader of JSON strings, from behind the opening quote: the text up to the next quote that is
-- not escaped, and what stands behind it. It takes a control character for an error, and gives
-- characters below 256 only.
unfoldable pub read_string : Mode → Bytes → Option (Bytes × Bytes)
read_string mode [] = none
read_string plain (c ∷ input) =
    let value = read_string plain input in
    let escape = read_string escaped input in
    if c == b'"'
    then some ([], input)
    else if c == b'\\'
    then escape
    else if ltb c 32
    then none
    else prepend c value
read_string escaped (c ∷ input) =
    let value = read_string plain input in
    let escape = read_string (unicode 3 0) input in
    if c == b'u' then escape else prepend_some (short_escape c) value
read_string (unicode zero v) (c ∷ input) =
    let value = read_string plain input in
    if is_hex_digit c && ltb (v * 16 + digit_value c) 256
    then prepend (v * 16 + digit_value c) value
    else none
read_string (unicode (suc k) v) (c ∷ input) =
    let value = read_string (unicode k (v * 16 + digit_value c)) input in
    if is_hex_digit c then value else none

digit_value-hex_digit :
    (d : ℕ) → d < 16 → (digit_value (hex_digit d) ≡ d) × (is_hex_digit (hex_digit d) ≡ true)
unfolding hex_digit
digit_value-hex_digit d h = ground arith

read_unicode :
    (h l : ℕ) (rest : Bytes)
    → h < 16
    → l < 16
    → read_string plain (b'\\' ∷ b'u' ∷ b'0' ∷ b'0' ∷ hex_digit h ∷ hex_digit l ∷ rest)
      ≡ prepend (h * 16 + l) (read_string plain rest)
unfolding read_string
read_unicode h l rest hs ls =
    let a = digit_value-hex_digit h hs in
    let b = digit_value-hex_digit l ls in rw (a.0, a.1, b.0, b.1) (ground arith)

read_string-escape_character :
    (c : ℕ) (rest : Bytes)
    → c < 256
    → read_string plain (escape_character c ++ rest) ≡ prepend c (read_string plain rest)
unfolding escape_character read_string
read_string-escape_character c rest h =
    ground (arith, read_unicode (c / 16) (c % 16) rest (omega arith) (omega arith))

-- Any bytes are read back as they were written, and the quote that closes them is found.
pub read_string-escape_json :
    (value rest : Bytes)
    → IsBytes value
    → read_string plain (escape_json value ++ (b'"' ∷ rest)) ≡ some (value, rest)
unfolding escape_json read_string
read_string-escape_json [] rest h = refl
read_string-escape_json (c ∷ value) rest h =
    ap (read_string plain) (append_assoc (escape_character c) (escape_json value) (b'"' ∷ rest))
    ∙ read_string-escape_character c (escape_json value ++ (b'"' ∷ rest)) h.0
    ∙ ap (prepend c) (read_string-escape_json value rest h.1)
