-- ===== src/Observability/Commands.antt =====
-- The authenticated commands of observability.cpp: `signed_datagram`, `authenticate_command` and
-- the fields of a command. HMAC-SHA256 is a parameter.
pub mod Sealed
pub mod Accepted
pub mod Replay
use graphx_docker.Base.{
  ℕ, suc, ◌+◌, ◌-◌, ◌/◌, ◌%◌, Bool, true, false, not, ◌&&◌, ◌||◌, Option, none, some, List, [], ◌∷◌,
  ◌++◌, Bytes, codes, Result, ok, err, ◌>>=◌, ◌>>◌, guard, leb, ltb, ◌==◌, if◌then◌else◌, length,
  drop, get_elem?, ℤ, pos, negsuc,
}
use graphx_docker.Identity.{hex_digit}
use graphx_docker.Attributes.{bytes_equal}
use graphx_docker.Observability.Text.{
  is_empty, concat, starts_with, ends_with, find, find_from, rfind, substr, is_digit,
  leading_digits, stoll, to_string, signed_to_string,
}

-- `refused` is the return value `false`; the others are exceptions.
pub data Rejection : Type 0 where
  refused getentropy_failed hmac_failed : Rejection

-- The loop of `random_hex_nonce` and `hmac_hex`: two digits for each byte.
unfoldable pub hex_bytes : Bytes → Bytes
unfolding hex_digit
hex_bytes [] = []
hex_bytes (byte ∷ bytes) = hex_digit (byte / 16) ∷ hex_digit (byte % 16) ∷ hex_bytes bytes

-- `random_hex_nonce`, from the 16 bytes of `getentropy`.
abbrev pub random_hex_nonce : Option Bytes → Result Rejection Bytes
random_hex_nonce none = err getentropy_failed
random_hex_nonce (some bytes) = ok (hex_bytes bytes)

-- OpenSSL's `HMAC` with SHA-256: the digest of a value under a secret.
abbrev pub Hmac : Type 0
Hmac = Bytes → Bytes → Option Bytes

abbrev pub hex_digest : Option Bytes → Result Rejection Bytes
hex_digest none = err hmac_failed
hex_digest (some digest) = ok (hex_bytes digest)

-- `hmac_hex`
abbrev pub hmac_hex : Hmac → Bytes → Bytes → Result Rejection Bytes
hmac_hex hmac secret value = hex_digest (hmac secret value)

abbrev pub payload_marker : Bytes
payload_marker = codes "{\"payload\":"

abbrev pub auth_marker : Bytes
auth_marker = codes ",\"auth\":{"

abbrev pub timestamp_field : Bytes
timestamp_field = codes "\"timestamp\":"

-- The value that is signed.
abbrev pub signed_value : Bytes → Bytes → Bytes → Bytes
signed_value timestamp nonce payload =
    concat (timestamp ∷ codes "." ∷ nonce ∷ codes "." ∷ payload ∷ [])

-- The datagram around a payload.
abbrev pub sealed : Bytes → Bytes → Bytes → Bytes → Bytes
sealed payload timestamp nonce signature = concat (
    payload_marker
    ∷ payload
    ∷ auth_marker
    ∷ timestamp_field
    ∷ timestamp
    ∷ codes ",\"nonce\":\""
    ∷ nonce
    ∷ codes "\",\"signature\":\""
    ∷ signature
    ∷ codes "\"}}"
    ∷ [])

-- `signed_datagram`: `now` is the clock, in milliseconds since the epoch.
unfoldable pub signed_datagram : Hmac → ℕ → Option Bytes → Bytes → Bytes → Result Rejection Bytes
unfolding hex_bytes to_string
signed_datagram hmac now entropy payload secret = if is_empty secret then ok payload else (do
  nonce ← random_hex_nonce entropy
  signature ← hmac_hex hmac secret (signed_value (to_string now) nonce payload)
  ok (sealed payload (to_string now) nonce signature))

-- Whether the character at a position is a given one.
abbrev pub is_char : ℕ → Option ℕ → Bool
is_char c none = false
is_char c (some d) = d == c

abbrev pub stands_at : ℕ → Bytes → ℕ → Bool
stands_at c input i = is_char c (get_elem? input i)

-- The value of `length` characters at a position, if a quote follows it.
abbrev pub value_at : ℕ → Bytes → Option ℕ → Bytes
value_at count input none = []
value_at count input (some value) =
    if leb (length input) (value + count) || not (stands_at b'"' input (value + count))
    then []
    else substr value count input

-- The position behind a marker.
abbrev pub advance : ℕ → Option ℕ → Option ℕ
advance n none = none
advance n (some start) = some (start + n)

abbrev pub after_marker : Bytes → Bytes → Option ℕ
after_marker marker input = advance (length marker) (find marker input)

-- `json_auth_field`
unfoldable pub json_auth_field : Bytes → Bytes → ℕ → Bytes
unfolding find
json_auth_field input name count =
    value_at count input (after_marker (concat (codes "\"" ∷ name ∷ codes "\":\"" ∷ [])) input)

abbrev pub found : {A : Type 0} → Option A → Result Rejection A
found none = err refused
found (some a) = ok a

-- Whether a time stamp lies within 30 seconds of the clock.
abbrev pub is_current : ℤ → ℕ → Bool
is_current (pos timestamp) now = leb now (timestamp + 30000) && leb timestamp (now + 30000)
is_current (negsuc n) now = leb (now + suc n) 30000

abbrev pub contains : Bytes → List Bytes → Bool
contains key [] = false
contains key (k ∷ rest) = bytes_equal k key || contains key rest

-- The nonces after one more: 4096 of them are forgotten first.
abbrev pub remember : Bytes → List Bytes → List Bytes
remember nonce nonces = nonce ∷ (if leb 4096 (length nonces) then [] else nonces)

-- The end of `authenticate_command`, on the parts of the command.
abbrev pub verify :
    Hmac → Bytes → Bytes → Bytes → Bytes → ℤ → List Bytes → Result Rejection (List Bytes)
verify hmac secret nonce signature payload timestamp nonces = do
  guard (not (is_empty nonce || is_empty signature || contains nonce nonces)) refused
  expected ← hmac_hex hmac secret (signed_value (signed_to_string timestamp) nonce payload)
  guard (bytes_equal signature expected) refused
  ok (remember nonce nonces)

-- `authenticate_command`: the set of nonces that it leaves when it returns true. In every other
-- case the set is left as it was.
unfoldable pub authenticate_command :
    Hmac → Bytes → Bytes → List Bytes → ℕ → Result Rejection (List Bytes)
unfolding find rfind starts_with ends_with stoll json_auth_field hex_bytes signed_to_string
authenticate_command hmac input secret nonces now = do
  guard (not (is_empty secret)) refused
  auth ← found (rfind auth_marker input)
  guard (starts_with payload_marker input && ends_with (codes "}}") input) refused
  let payload = substr (length payload_marker) (auth - length payload_marker) input
  timestamp_marker ← found (find_from timestamp_field input auth)
  timestamp_end ← found (find_from (codes ",") input (timestamp_marker + 12))
  parsed ←
      found (stoll (substr (timestamp_marker + 12) (timestamp_end - (timestamp_marker + 12)) input))
  guard (is_current parsed.0 now) refused
  let nonce = json_auth_field (drop auth input) (codes "nonce") 32
  let signature = json_auth_field (drop auth input) (codes "signature") 64
  verify hmac secret nonce signature payload parsed.0 nonces

-- What stands in front of the authentication.
abbrev payload_before : Bytes → Option ℕ → Bytes
payload_before input none = []
payload_before input (some auth) =
    if starts_with payload_marker input
    then substr (length payload_marker) (auth - length payload_marker) input
    else []

-- `command_payload`
unfoldable pub command_payload : Bytes → Bytes
unfolding rfind starts_with
command_payload input = payload_before input (rfind auth_marker input)

-- The field that ends at the next quote, if it is short enough and holds no backslash.
abbrev pub short_value : ℕ → Bytes → Option ℕ → Bytes
short_value maximum input none = []
short_value maximum input (some count) =
    let result = substr 0 count input in
    if ltb maximum count
    then []
    else elim (find (codes "\\") result) [ none ↦ result | some i ↦ [] ]

-- `json_string_field`
unfoldable pub json_string_field : Bytes → Bytes → ℕ → Bytes
unfolding find
json_string_field input name maximum =
    elim (after_marker (concat (codes "\"" ∷ name ∷ codes "\":\"" ∷ [])) input) [
      | none ↦ []
      | some value ↦ short_value maximum (drop value input) (find (codes "\"") (drop value input))
    ]

abbrev pub is_hex : ℕ → Bool
is_hex c = is_digit c || (leb b'a' c && leb c b'f') || (leb b'A' c && leb c b'F')

-- The positions of the dashes.
abbrev pub is_dash_index : ℕ → Bool
is_dash_index index = index == 8 || index == 13 || index == 18 || index == 23

-- The loop of `valid_command_id`, from an index on.
unfoldable pub command_id_loop : ℕ → Bytes → Bool
command_id_loop index [] = true
command_id_loop index (c ∷ value) =
    let rest = command_id_loop (suc index) value in
    if is_dash_index index then rest else is_hex c && rest

-- `valid_command_id`
unfoldable pub valid_command_id : Bytes → Bool
unfolding command_id_loop
valid_command_id value =
    if not (length value == 36)
      || not (stands_at b'-' value 8)
      || not (stands_at b'-' value 13)
      || not (stands_at b'-' value 18)
      || not (stands_at b'-' value 23)
    then false
    else command_id_loop 0 value

-- The text of a number: a sign and the digits behind it.
abbrev pub number_text : Bytes → Bytes
number_text [] = []
number_text (c ∷ input) = if c == b'-' then c ∷ leading_digits input else leading_digits (c ∷ input)

-- The number, if the whole text is one.
abbrev pub integer_value : Bytes → Option ℤ
integer_value text =
    if is_empty text || bytes_equal text (codes "-") then none else elim (stoll text) [
      | none ↦ none
      | some (value, parsed) ↦ if parsed == length text then some value else none
    ]

-- `json_integer_field`
unfoldable pub json_integer_field : Bytes → Bytes → Option ℤ
unfolding find leading_digits stoll
json_integer_field input name =
    elim (after_marker (concat (codes "\"" ∷ name ∷ codes "\":" ∷ [])) input) [
      | none ↦ none
      | some value ↦ integer_value (number_text (drop value input))
    ]
