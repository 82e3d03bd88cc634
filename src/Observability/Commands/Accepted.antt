-- ===== src/Observability/Commands/Accepted.antt =====
-- What `authenticate_command` accepts.
use graphx_docker.Base.{
  ℕ, suc, ◌+◌, ◌-◌, ℤ, ◌^◌, ◌≤◌, ◌<◌, ◌≡◌, refl, sym, ap, subst, ◌∙◌, true, false, some, List, [],
  ◌∷◌, Bytes, codes, ok, length, drop, All, arith, IsBytes, >>=-elim, ok-injective, Option-cases,
  inl, inr,
}
use graphx_docker.Attributes.Order.{bytes_equal_refl}
use graphx_docker.Observability.Text.{
  is_empty, find_from, rfind, starts_with, ends_with, substr, stoll, to_string, signed_to_string,
}
use graphx_docker.Observability.Text.Decimal.{IsDigit, to_string-IsDigit, stoll-to_string}
use graphx_docker.Observability.Commands.{
  Hmac, hmac_hex, hex_digest, hex_bytes, payload_marker, auth_marker, timestamp_field, signed_value,
  sealed, signed_datagram, json_auth_field, is_current, contains, remember, authenticate_command,
  command_payload,
}
use graphx_docker.Observability.Commands.Sealed.{
  IsPlain, hex_bytes-IsPlain, length-hex_bytes, rfind-sealed, find_from-timestamp, find_from-comma,
  substr-stamp, substr-payload, json_auth_field-nonce, json_auth_field-signature,
  starts_with-sealed, ends_with-sealed,
}

digits-IsPlain : (s : Bytes) → All IsDigit s → IsPlain s
digits-IsPlain [] h = tt
digits-IsPlain (c ∷ s) h = (omega (arith, h), digits-IsPlain s h.1)

nonempty : (s : Bytes) (n : ℕ) → length s ≡ suc n → is_empty s ≡ false
nonempty [] n h = cc
nonempty (c ∷ s) n h = refl

-- A digest of SHA-256 has 32 bytes.
abbrev pub IsHmac : Hmac → Type 0
IsHmac hmac =
    (secret value digest : Bytes)
    → hmac secret value ≡ some digest
    → (length digest ≡ 32) × IsBytes digest

hmac_hex-IsPlain :
    (hmac : Hmac) (secret value : Bytes) {signature : Bytes}
    → IsHmac hmac
    → hmac_hex hmac secret value ≡ ok signature
    → IsPlain signature × (length signature ≡ 64)
hmac_hex-IsPlain hmac secret value {signature} is h = elim (Option-cases (hmac secret value)) [
  | inl e ↦ absurd (ground (arith, e, h))
  | inr (digest, e) ↦
      let same : hex_bytes digest ≡ signature = ok-injective (sym (ap hex_digest e) ∙ h) in
      let (size, bytes) = is secret value digest e in
      subst (λ s. IsPlain s × (length s ≡ 64)) same
        (hex_bytes-IsPlain digest bytes, omega (arith, length-hex_bytes digest, size))
]

command_payload_lem :
    (input : Bytes) {auth : ℕ}
    → rfind auth_marker input ≡ some auth
    → starts_with payload_marker input ≡ true
    → command_payload input ≡ substr (length payload_marker) (auth - length payload_marker) input
unfolding command_payload
command_payload_lem input r s = rw (r, s) refl

-- The way through `authenticate_command`, with what each step of it finds.
accepted_lem :
    (hmac : Hmac) (input secret : Bytes) (nonces : List Bytes) (now : ℕ)
    {auth marker stop count : ℕ} {stamp : ℤ} {payload nonce signature : Bytes}
    → is_empty secret ≡ false
    → rfind auth_marker input ≡ some auth
    → starts_with payload_marker input ≡ true
    → ends_with (codes "}}") input ≡ true
    → substr (length payload_marker) (auth - length payload_marker) input ≡ payload
    → find_from timestamp_field input auth ≡ some marker
    → find_from (codes ",") input (marker + 12) ≡ some stop
    → stoll (substr (marker + 12) (stop - (marker + 12)) input) ≡ some (stamp, count)
    → is_current stamp now ≡ true
    → json_auth_field (drop auth input) (codes "nonce") 32 ≡ nonce
    → json_auth_field (drop auth input) (codes "signature") 64 ≡ signature
    → is_empty nonce ≡ false
    → is_empty signature ≡ false
    → contains nonce nonces ≡ false
    → hmac_hex hmac secret (signed_value (signed_to_string stamp) nonce payload) ≡ ok signature
    → authenticate_command hmac input secret nonces now ≡ ok (remember nonce nonces)
unfolding authenticate_command
accepted_lem hmac input secret nonces now {signature} k r s e p t c n i v w ne se f h =
    rw (k, r, s, e, t, c, n, i, v, w, ne, se, f, p, h, bytes_equal_refl signature) refl

module _ (hmac : Hmac) (payload secret nonce signature : Bytes) (sent now : ℕ) (nonces : List Bytes)
    (keyed : is_empty secret ≡ false) (range : sent < 2 ^ 63) (nonce_plain : IsPlain nonce)
    (nonce_size : length nonce ≡ 32) (signature_plain : IsPlain signature)
    (signature_size : length signature ≡ 64)
    (signs : hmac_hex hmac secret (signed_value (to_string sent) nonce payload) ≡ ok signature)
    (new : contains nonce nonces ≡ false) (late : now ≤ sent + 30000)
    (early : sent ≤ now + 30000) where
  abbrev stamp : Bytes
  stamp = to_string sent

  abbrev stamp_plain : IsPlain stamp
  stamp_plain = digits-IsPlain stamp (to_string-IsDigit sent)

  sealed_accepted :
      authenticate_command hmac (sealed payload stamp nonce signature) secret nonces now
      ≡ ok (remember nonce nonces)
  unfolding signed_to_string to_string
  sealed_accepted =
      accepted_lem hmac (sealed payload stamp nonce signature) secret nonces now keyed
        (rfind-sealed payload stamp nonce signature stamp_plain nonce_plain signature_plain)
        (starts_with-sealed payload stamp nonce signature stamp_plain nonce_plain signature_plain)
        (ends_with-sealed payload stamp nonce signature stamp_plain nonce_plain signature_plain)
        (substr-payload payload stamp nonce signature stamp_plain nonce_plain signature_plain)
        (find_from-timestamp payload stamp nonce signature stamp_plain nonce_plain signature_plain)
        (find_from-comma payload stamp nonce signature stamp_plain nonce_plain signature_plain)
        (ap stoll
            (substr-stamp payload stamp nonce signature stamp_plain nonce_plain signature_plain)
          ∙ stoll-to_string sent range)
        (ground arith)
        (json_auth_field-nonce payload stamp nonce signature stamp_plain nonce_plain signature_plain
          nonce_size)
        (json_auth_field-signature payload stamp nonce signature stamp_plain nonce_plain
          signature_plain nonce_size signature_size)
        (nonempty nonce 31 nonce_size) (nonempty signature 63 signature_size) new signs

  sealed_payload : command_payload (sealed payload stamp nonce signature) ≡ payload
  sealed_payload =
      command_payload_lem (sealed payload stamp nonce signature)
        (rfind-sealed payload stamp nonce signature stamp_plain nonce_plain signature_plain)
        (starts_with-sealed payload stamp nonce signature stamp_plain nonce_plain signature_plain)
      ∙ substr-payload payload stamp nonce signature stamp_plain nonce_plain signature_plain

-- A command that `signed_datagram` has signed is accepted by a receiver with the same secret
-- whose clock differs by at most 30 seconds and that has not seen the nonce: the nonce is
-- remembered, and `command_payload` gives the payload, whatever bytes it consists of.
pub authenticate_command-signed_datagram :
    (hmac : Hmac) (payload secret entropy : Bytes) (sent now : ℕ) (nonces : List Bytes)
    {datagram : Bytes}
    → IsHmac hmac
    → is_empty secret ≡ false
    → (length entropy ≡ 16) × IsBytes entropy
    → signed_datagram hmac sent (some entropy) payload secret ≡ ok datagram
    → contains (hex_bytes entropy) nonces ≡ false
    → sent < 2 ^ 63
    → now ≤ sent + 30000
    → sent ≤ now + 30000
    → (authenticate_command hmac datagram secret nonces now
        ≡ ok (remember (hex_bytes entropy) nonces))
      × (command_payload datagram ≡ payload)
unfolding signed_datagram
authenticate_command-signed_datagram hmac payload secret entropy sent now nonces is keyed random
      signs new range late early =
    >>=-elim (hmac_hex hmac secret (signed_value (to_string sent) (hex_bytes entropy) payload)) _
      (rw keyed at signs)
      λ signature e rest.
        subst
          (λ d.
            (authenticate_command hmac d secret nonces now ≡ ok (remember nonce nonces))
            × (command_payload d ≡ payload))
          (ok-injective rest) (seals signature e)
  where
    nonce : Bytes
    nonce = hex_bytes entropy

    nonce_size : length nonce ≡ 32
    nonce_size = omega (arith, length-hex_bytes entropy, random)

    nonce_plain : IsPlain nonce
    nonce_plain = hex_bytes-IsPlain entropy random.1

    seals :
        (signature : Bytes)
        → hmac_hex hmac secret (signed_value (to_string sent) nonce payload) ≡ ok signature
        → (authenticate_command hmac
              (sealed payload (to_string sent) nonce signature)
              secret
              nonces
              now
            ≡ ok (remember nonce nonces))
          × (command_payload (sealed payload (to_string sent) nonce signature) ≡ payload)
    seals signature e =
        let (plain, size) = hmac_hex-IsPlain hmac secret _ is e in
        (
          sealed_accepted hmac payload secret nonce signature sent now nonces keyed range
              nonce_plain nonce_size plain size e new late early,
          sealed_payload hmac payload secret nonce signature sent now nonces keyed range nonce_plain
              nonce_size plain size e new late early,
        )
