-- ===== src/Observability/Text.antt =====
-- What observability.cpp uses of the standard library's strings: searches, parts, and the decimal
-- spelling of integers.
pub mod Search
pub mod Decimal
use graphx_docker.Base.{
  ℕ, zero, suc, ◌+◌, ◌-◌, ◌*◌, ◌/◌, ◌%◌, ◌^◌, Bool, true, false, ◌&&◌, ◌||◌, Option, none, some,
  List, [], ◌∷◌, ◌++◌, Bytes, leb, ltb, ◌==◌, if◌then◌else◌, length, take, drop, ℤ, pos, negsuc,
  negate,
}

abbrev pub is_empty : Bytes → Bool
is_empty [] = true
is_empty (_ ∷ _) = false

-- Texts one behind the other, as `+` and `<<` put them.
abbrev pub concat : List Bytes → Bytes
concat [] = []
concat (part ∷ parts) = part ++ concat parts

-- `starts_with`
unfoldable pub starts_with : Bytes → Bytes → Bool
starts_with [] input = true
starts_with (c ∷ prefix) [] = false
starts_with (c ∷ prefix) (d ∷ input) = c == d && starts_with prefix input

-- `ends_with`
unfoldable pub ends_with : Bytes → Bytes → Bool
unfolding starts_with
ends_with suffix input =
    leb (length suffix) (length input)
    && starts_with suffix (drop (length input - length suffix) input)

abbrev pub shift : ℕ → Option ℕ → Option ℕ
shift n none = none
shift n (some i) = some (n + i)

-- `find`: the first position at which the text stands.
unfoldable pub find : Bytes → Bytes → Option ℕ
unfolding starts_with
find text [] = if is_empty text then some 0 else none
find text (c ∷ input) =
    let later = find text input in if starts_with text (c ∷ input) then some 0 else shift 1 later

-- `find` from a position on.
abbrev pub find_from : Bytes → Bytes → ℕ → Option ℕ
find_from text input start = shift start (find text (drop start input))

abbrev or_here : Option ℕ → Bool → Option ℕ
or_here (some i) here = some (suc i)
or_here none true = some 0
or_here none false = none

-- `rfind`: the last position at which the text stands.
unfoldable pub rfind : Bytes → Bytes → Option ℕ
unfolding starts_with
rfind text [] = if is_empty text then some 0 else none
rfind text (c ∷ input) = or_here (rfind text input) (starts_with text (c ∷ input))

-- `substr`
abbrev pub substr : ℕ → ℕ → Bytes → Bytes
substr start count input = take count (drop start input)

abbrev pub is_digit : ℕ → Bool
is_digit c = leb b'0' c && leb c b'9'

abbrev is_space : ℕ → Bool
is_space c = c == b' ' || (leb 9 c && leb c 13)

-- The digits that a text starts with.
unfoldable pub leading_digits : Bytes → Bytes
leading_digits [] = []
leading_digits (c ∷ input) = let rest = leading_digits input in if is_digit c then c ∷ rest else []

-- The number that decimal digits spell, behind those already read.
unfoldable pub digits_value : ℕ → Bytes → ℕ
digits_value value [] = value
digits_value value (c ∷ digits) = digits_value (value * 10 + (c - b'0')) digits

-- A number in the range of `long long`, with the count of the characters that it takes.
abbrev pub signed_result : Bool → Bytes → ℕ → Option (ℤ × ℕ)
signed_result negative [] before = none
signed_result negative (c ∷ digits) before =
    let value = digits_value 0 (c ∷ digits) in
    let count = before + length (c ∷ digits) in
    if negative
    then (if leb value (2 ^ 63) then some (negate value, count) else none)
    else if ltb value (2 ^ 63)
    then some (pos value, count)
    else none

-- The sign that may stand in front of the digits.
unfoldable pub parse_signed : Bytes → ℕ → Option (ℤ × ℕ)
unfolding leading_digits digits_value
parse_signed [] before = none
parse_signed (c ∷ input) before =
    if c == b'-'
    then signed_result true (leading_digits input) (suc before)
    else if c == b'+'
    then signed_result false (leading_digits input) (suc before)
    else signed_result false (leading_digits (c ∷ input)) before

abbrev skip_spaces : Bytes → ℕ → Bytes × ℕ
skip_spaces [] before = ([], before)
skip_spaces (c ∷ input) before =
    let rest = skip_spaces input (suc before) in if is_space c then rest else (c ∷ input, before)

-- `std::stoll`, with nothing where it throws: white space, a sign, and at least one digit; what
-- stands behind the digits is not looked at.
unfoldable pub stoll : Bytes → Option (ℤ × ℕ)
unfolding parse_signed
stoll input = let (rest, before) = skip_spaces input 0 in parse_signed rest before

-- The last digits of a number.
unfoldable pub digits : ℕ → ℕ → Bytes
digits zero n = []
digits (suc k) n =
    let front = digits k (n / 10) in
    if ltb n 10 then (b'0' + n) ∷ [] else front ++ (b'0' + n % 10) ∷ []

-- `std::to_string` on 64-bit integers: 20 digits are enough.
unfoldable pub to_string : ℕ → Bytes
unfolding digits
to_string n = digits 20 n

unfoldable pub signed_to_string : ℤ → Bytes
unfolding to_string
signed_to_string (pos n) = to_string n
signed_to_string (negsuc n) = b'-' ∷ to_string (suc n)
