-- ===== src/Envelope/Make.antt =====
-- New envelopes: `generate_identity`, `Envelope::make` and `Envelope::derive`. The process entropy,
-- the value of the atomic counter and the clocks are arguments.
use Prim.Native.Nat.{bit_xor}
use graphx_docker.Base.{
  ℕ, zero, suc, ◌+◌, ◌*◌, ◌/◌, ◌%◌, ◌^◌, ◌<◌, ◌≡◌, refl, ap, ◌∙◌, true, not, [], ◌∷◌, ◌++◌, Bytes,
  arith, length, length-append, if◌then◌else◌, Bool-cases, inl, inr, All-append,
}
use graphx_docker.Identity.{is_canonical_identity, hex_digit, is_lower_hex}
use graphx_docker.Identity.Hex.{IsHex, some_nonzero, is_lower_hex-hex_digit}
use graphx_docker.Identity.RoundTrip.{IsIdentity, is_canonical_identity→IsIdentity}
use graphx_docker.Envelope.{Envelope, envelope_wire_version}
use graphx_docker.Envelope.Size.{Fits}
use graphx_docker.Envelope.Encode.{IsSerializable}

-- `mix`, on uint64_t.
mix : ℕ → ℕ
mix value =
    let v₁ = (value + 0x9e3779b97f4a7c15) % 2 ^ 64 in
    let v₂ = bit_xor v₁ (v₁ / 2 ^ 30) * 0xbf58476d1ce4e5b9 % 2 ^ 64 in
    let v₃ = bit_xor v₂ (v₂ / 2 ^ 27) * 0x94d049bb133111eb % 2 ^ 64 in bit_xor v₃ (v₃ / 2 ^ 31)

-- The inner loop of `generate_identity`: a word as k hexadecimal digits, the highest first. A
-- shift by 4 * k bits to the right is a division by 16 ^ k.
hex_word : ℕ → ℕ → Bytes
unfolding hex_digit
hex_word zero word = []
hex_word (suc k) word = hex_digit (word / 16 ^ k % 16) ∷ hex_word k word

-- `value.back() = '1'`
set_back : Bytes → Bytes
set_back [] = []
set_back (c ∷ []) = b'1' ∷ []
set_back (c ∷ d ∷ cs) = c ∷ set_back (d ∷ cs)

pub generate_identity : ℕ → ℕ → ℕ → Bytes
unfolding mix hex_word set_back
generate_identity entropy ordinal now =
    let first = mix (bit_xor entropy ordinal) in
    let second = mix (bit_xor (bit_xor now (ordinal * 2 % 2 ^ 64)) entropy) in
    let value = hex_word 16 first ++ hex_word 16 second in
    if not (is_canonical_identity value) then set_back value else value

-- What the runtime supplies to `make`: the time and two fresh identities.
pub record Fresh : Type 0 where
  pub now_ns : ℕ
  pub trace : Bytes
  pub message : Bytes

unfoldable pub make : Fresh → ℕ → Bytes → Bytes → Envelope
make fresh sequence type payload = record {
  sequence = sequence;
  timestamp_ns = fresh.now_ns;
  type = type;
  trace_id = fresh.trace;
  attributes = [];
  payload = payload;
  message_id = fresh.message;
  parent_message_id = [];
  wire_version = envelope_wire_version;
}

unfoldable pub derive : Fresh → Envelope → ℕ → Bytes → Bytes → Envelope
unfolding make
derive fresh parent sequence type payload =
    let envelope = make fresh sequence type payload in
    record envelope {
      trace_id =
          if is_canonical_identity parent.trace_id then parent.trace_id else envelope.trace_id;
      parent_message_id =
          if is_canonical_identity parent.message_id
          then parent.message_id
          else envelope.parent_message_id;
    }

length-hex_word : (k word : ℕ) → length (hex_word k word) ≡ k
unfolding hex_word
length-hex_word zero word = refl
length-hex_word (suc k) word = ap suc (length-hex_word k word)

hex_word-IsHex : (k word : ℕ) → IsHex (hex_word k word)
unfolding hex_word
hex_word-IsHex zero word = tt
hex_word-IsHex (suc k) word = (is_lower_hex-hex_digit _ (omega arith), hex_word-IsHex k word)

length-set_back : (cs : Bytes) → length (set_back cs) ≡ length cs
unfolding set_back
length-set_back [] = refl
length-set_back (c ∷ []) = refl
length-set_back (c ∷ d ∷ cs) = ap suc (length-set_back (d ∷ cs))

set_back-IsHex : (cs : Bytes) → IsHex cs → IsHex (set_back cs)
unfolding set_back is_lower_hex
set_back-IsHex [] h = tt
set_back-IsHex (c ∷ []) h = (refl, tt)
set_back-IsHex (c ∷ d ∷ cs) h = (h.0, set_back-IsHex (d ∷ cs) h.1)

set_back_nonzero : (cs : Bytes) → 0 < length cs → some_nonzero (set_back cs) ≡ true
unfolding set_back some_nonzero
set_back_nonzero [] h = absurd (omega arith)
set_back_nonzero (c ∷ []) h = refl
set_back_nonzero (c ∷ d ∷ cs) h = ground (arith, set_back_nonzero (d ∷ cs))

corrected :
    (value : Bytes)
    → length value ≡ 32
    → IsHex value
    → IsIdentity (if not (is_canonical_identity value) then set_back value else value)
corrected value long hex = elim (Bool-cases (is_canonical_identity value)) [
  | inl canonical ↦ rw canonical (is_canonical_identity→IsIdentity value canonical)
  | inr zero_value ↦ rw zero_value (record {
    long = length-set_back value ∙ long;
    hex = set_back-IsHex value hex;
    nonzero = set_back_nonzero value (omega arith);
  })
]

-- Whatever the entropy, the counter and the clock are, the result is an identity.
pub generate_identity-IsIdentity :
    (entropy ordinal now : ℕ) → IsIdentity (generate_identity entropy ordinal now)
unfolding generate_identity
generate_identity-IsIdentity entropy ordinal now =
    let first = mix (bit_xor entropy ordinal) in
    let second = mix (bit_xor (bit_xor now (ordinal * 2 % 2 ^ 64)) entropy) in
    corrected (hex_word 16 first ++ hex_word 16 second)
      (omega (
        arith,
        length-append (hex_word 16 first) (hex_word 16 second),
        length-hex_word 16 first,
        length-hex_word 16 second,
      ))
      (All-append (λ c. is_lower_hex c ≡ true) (hex_word 16 first) (hex_word 16 second)
        (hex_word-IsHex 16 first) (hex_word-IsHex 16 second))

-- With fresh identities, a derived envelope that fits can be sent, whatever its parent is.
pub derive-IsSerializable :
    (fresh : Fresh) (parent : Envelope) (sequence : ℕ) (type payload : Bytes)
    → IsIdentity fresh.trace
    → IsIdentity fresh.message
    → Fits (derive fresh parent sequence type payload)
    → IsSerializable (derive fresh parent sequence type payload)
unfolding derive make
derive-IsSerializable fresh parent sequence type payload t m fits = record {
  fits = fits;
  message = m;
  trace = elim (Bool-cases (is_canonical_identity parent.trace_id)) [
    | inl h ↦ rw h (is_canonical_identity→IsIdentity parent.trace_id h)
    | inr h ↦ rw h t
  ];
  parent = elim (Bool-cases (is_canonical_identity parent.message_id)) [
    | inl h ↦ rw h (inl (is_canonical_identity→IsIdentity parent.message_id h))
    | inr h ↦ rw h (inr (refl, refl))
  ];
}
