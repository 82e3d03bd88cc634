-- ===== src/Observability/Commands/Replay.antt =====
-- A command that has been accepted is not accepted again, and what an accepted command vouches for.
use graphx_docker.Base.{
  ℕ, ◌+◌, ◌-◌, ◌≤◌, ◌≡◌, refl, sym, ap, subst, ◌∙◌, Bool, true, false, not, ◌&&◌, ◌||◌, Option,
  none, some, List, [], ◌∷◌, Bytes, codes, Result, ok, err, ◌>>=◌, ◌>>◌, guard, length, drop, arith,
  >>=-elim, guard-elim, ok-injective, Result-cases, inl, inr, ℤ,
}
use graphx_docker.Attributes.{bytes_equal}
use graphx_docker.Attributes.Order.{bytes_equal_refl, bytes_equal→eq}
use graphx_docker.Observability.Text.{
  is_empty, find_from, rfind, starts_with, ends_with, substr, stoll, signed_to_string,
}
use graphx_docker.Observability.Commands.{
  Rejection, refused, Hmac, hmac_hex, payload_marker, auth_marker, timestamp_field, signed_value,
  json_auth_field, found, is_current, contains, remember, authenticate_command, command_payload,
  verify,
}

abbrev pub nonce_at : Bytes → ℕ → Bytes
nonce_at input auth = json_auth_field (drop auth input) (codes "nonce") 32

-- What an accepted command vouches for: a current time stamp and a nonce that is not known yet,
-- signed together with the payload by the secret.
pub record IsAuthentic (hmac : Hmac) (input secret : Bytes) (nonces : List Bytes) (now : ℕ)
    : Type 0 where
  pub auth : ℕ
  pub marker : rfind auth_marker input ≡ some auth
  pub stamp : ℤ
  pub current : is_current stamp now ≡ true
  pub new : contains (nonce_at input auth) nonces ≡ false
  pub signature :
      hmac_hex hmac secret
        (signed_value (signed_to_string stamp) (nonce_at input auth) (command_payload input))
      ≡ ok (json_auth_field (drop auth input) (codes "signature") 64)

found-elim :
    {A B C : Type 0} (o : Option A) (f : A → Result Rejection B) {b : B}
    → (found o >>= f) ≡ ok b
    → ((a : A) → o ≡ some a → f a ≡ ok b → C)
    → C
found-elim none f h k = cc
found-elim (some a) f h k = k a refl h

payload_lem :
    (input : Bytes) (auth : ℕ)
    → rfind auth_marker input ≡ some auth
    → (starts_with payload_marker input && ends_with (codes "}}") input) ≡ true
    → command_payload input ≡ substr (length payload_marker) (auth - length payload_marker) input
unfolding command_payload
payload_lem input auth r s = rw r (ground (arith, s))

last_of_three : (a b c : Bool) → not (a || b || c) ≡ true → c ≡ false
last_of_three a b c h = ground arith

pub authenticate_command-IsAuthentic :
    (hmac : Hmac) (input secret : Bytes) (nonces : List Bytes) (now : ℕ) {left : List Bytes}
    → authenticate_command hmac input secret nonces now ≡ ok left
    → (a : IsAuthentic hmac input secret nonces now) × (left
        ≡ remember (nonce_at input a.auth) nonces)
unfolding authenticate_command
authenticate_command-IsAuthentic hmac input secret nonces now {left} h =
    guard-elim (not (is_empty secret)) refused _ h λ keyed h₁.
      found-elim (rfind auth_marker input) _ h₁ λ auth at h₂.
        guard-elim (starts_with payload_marker input && ends_with (codes "}}") input) refused _ h₂
          λ shape h₃. found-elim (find_from timestamp_field input auth) _ h₃ λ marker at_marker h₄.
            found-elim (find_from (codes ",") input (marker + 12)) _ h₄ λ stop at_stop h₅.
              found-elim (stoll (substr (marker + 12) (stop - (marker + 12)) input)) _ h₅
                λ parsed reads h₆. guard-elim (is_current parsed.0 now) refused _ h₆ λ current h₇.
                  let nonce = nonce_at input auth in
                  let signature = json_auth_field (drop auth input) (codes "signature") 64 in
                  let value = λ (p : Bytes).
                    hmac_hex hmac secret (signed_value (signed_to_string parsed.0) nonce p) in
                  guard-elim (not (is_empty nonce || is_empty signature || contains nonce nonces))
                    refused _ h₇
                    λ fresh h₈.
                      >>=-elim
                        (value
                          (substr (length payload_marker) (auth - length payload_marker) input))
                        _ h₈
                        λ expected signed h₉.
                          guard-elim (bytes_equal signature expected) refused _ h₉ λ same h₁₀. (
                            record {
                              auth = auth;
                              marker = at;
                              stamp = parsed.0;
                              current = current;
                              new = last_of_three (is_empty nonce) (is_empty signature) _ fresh;
                              signature =
                                  ap value (payload_lem input auth at shape)
                                  ∙ signed
                                  ∙ ap ok (sym (bytes_equal→eq signature expected same));
                            },
                            sym (ok-injective h₁₀),
                          )

-- The set of nonces that `authenticate_command` leaves, whatever it returns or throws.
abbrev pub nonces_left : Result Rejection (List Bytes) → List Bytes → List Bytes
nonces_left (ok left) nonces = left
nonces_left (err e) nonces = nonces

-- Datagrams that arrive one after the other, each with the clock at its arrival.
unfoldable pub receive_all : Hmac → Bytes → List (Bytes × ℕ) → List Bytes → List Bytes
unfolding authenticate_command
receive_all hmac secret [] nonces = nonces
receive_all hmac secret ((input, now) ∷ rest) nonces =
    receive_all hmac secret rest
      (nonces_left (authenticate_command hmac input secret nonces now) nonces)

guard_refused :
    {A : Type 0} (b : Bool) (m : Result Rejection A)
    → m ≡ err refused
    → (guard b refused >> m) ≡ err refused
guard_refused true m h = h
guard_refused false m h = refl

found_refused :
    {A B : Type 0} (o : Option A) (f : A → Result Rejection B)
    → ((a : A) → o ≡ some a → f a ≡ err refused)
    → (found o >>= f) ≡ err refused
found_refused none f h = refl
found_refused (some a) f h = h a refl

verify_refused :
    (hmac : Hmac) (secret nonce signature payload : Bytes) (stamp : ℤ) (nonces : List Bytes)
    → contains nonce nonces ≡ true
    → verify hmac secret nonce signature payload stamp nonces ≡ err refused
verify_refused hmac secret nonce signature payload stamp nonces h = ground (arith, h)

known_refused :
    (hmac : Hmac) (input secret : Bytes) (nonces : List Bytes) (now auth : ℕ)
    → rfind auth_marker input ≡ some auth
    → contains (nonce_at input auth) nonces ≡ true
    → authenticate_command hmac input secret nonces now ≡ err refused
unfolding authenticate_command
known_refused hmac input secret nonces now auth at known = guard_refused (not (is_empty secret)) _ (
    rw at (
      guard_refused (starts_with payload_marker input && ends_with (codes "}}") input) _ (
        found_refused (find_from timestamp_field input auth) _ λ marker e₁.
          found_refused (find_from (codes ",") input (marker + 12)) _ λ stop e₂.
            found_refused (stoll (substr (marker + 12) (stop - (marker + 12)) input)) _ λ parsed e₃.
              guard_refused (is_current parsed.0 now) _ (
                verify_refused hmac secret (nonce_at input auth)
                  (json_auth_field (drop auth input) (codes "signature") 64)
                  (substr (length payload_marker) (auth - length payload_marker) input) parsed.0
                  nonces known))))

remember_keeps :
    (key nonce : Bytes) (nonces : List Bytes)
    → length nonces + 1 ≤ 4096
    → contains key nonces ≡ true
    → contains key (remember nonce nonces) ≡ true
remember_keeps key nonce nonces small h = ground (arith, h)

length-remember :
    (nonce : Bytes) (nonces : List Bytes) → length (remember nonce nonces) ≤ length nonces + 1
length-remember nonce nonces = ground arith

receive_all_keeps :
    (hmac : Hmac) (secret key : Bytes) (later : List (Bytes × ℕ)) (nonces : List Bytes)
    → length nonces + length later ≤ 4096
    → contains key nonces ≡ true
    → contains key (receive_all hmac secret later nonces) ≡ true
unfolding receive_all
receive_all_keeps hmac secret key [] nonces small h = h
receive_all_keeps hmac secret key ((input, now) ∷ later) nonces small h =
    elim (Result-cases (authenticate_command hmac input secret nonces now)) [
      | inl (left, e) ↦
          let (a, same) = authenticate_command-IsAuthentic hmac input secret nonces now e in
          let nonce = nonce_at input a.auth in
          rw e (
            receive_all_keeps hmac secret key later left
              (omega (arith, small, length-remember nonce nonces, ap length same))
              (subst (λ n. contains key n ≡ true) (sym same)
                (remember_keeps key nonce nonces (omega (arith, small)) h)))
      | inr (x, e) ↦ rw e (receive_all_keeps hmac secret key later nonces (omega (arith, small)) h)
    ]

-- A datagram that was accepted is refused when it arrives again, at any time and whatever has
-- arrived in between, as long as the set of nonces has had room for all of it.
pub receive_all-refused :
    (hmac : Hmac) (input secret : Bytes) (nonces : List Bytes) (now : ℕ) {left : List Bytes}
    → authenticate_command hmac input secret nonces now ≡ ok left
    → (later : List (Bytes × ℕ)) → length left + length later ≤ 4096
    → (again : ℕ)
    → authenticate_command hmac input secret (receive_all hmac secret later left) again
      ≡ err refused
receive_all-refused hmac input secret nonces now {left} h later small again =
    let (a, same) = authenticate_command-IsAuthentic hmac input secret nonces now h in
    let nonce = nonce_at input a.auth in
    let here : contains nonce (remember nonce nonces) ≡ true =
      ground (arith, bytes_equal_refl nonce) in
    known_refused hmac input secret (receive_all hmac secret later left) again a.auth a.marker (
      receive_all_keeps hmac secret nonce later left small
        (subst (λ n. contains nonce n ≡ true) (sym same) here))
