-- ===== src/Observability/Commands/Sealed.antt =====
-- How `authenticate_command` takes a datagram of `signed_datagram` apart.
use graphx_docker.Base.{
  ℕ, suc, ◌+◌, ◌-◌, ◌/◌, ◌%◌, ◌≤◌, ◌<◌, ◌≡◌, refl, sym, ap, ap₂, subst, ◌∙◌, true, false, none,
  some, [], ◌∷◌, ◌++◌, append_assoc, Bytes, codes, length, length-append, get_elem?, take, drop,
  take-append, drop-append, take-append_of_eq, drop-append_of_eq, All, arith, ◌⊎◌, inl, IsBytes,
}
use graphx_docker.Identity.{hex_digit}
use graphx_docker.Observability.Text.{shift, find, find_from, rfind, starts_with, ends_with, substr}
use graphx_docker.Observability.Text.Search.{
  Without, find-append, rfind-append, rfind-shift, ends_with-append, drop-add,
}
use graphx_docker.Observability.Commands.{
  hex_bytes, payload_marker, auth_marker, timestamp_field, sealed, json_auth_field, value_at,
  advance,
}

-- Digits and letters: none of the characters that structure a datagram.
abbrev pub IsPlain : Bytes → Type 0
IsPlain = All λ c. (48 ≤ c) × (c ≤ 102)

plain-Without : (c : ℕ) (s : Bytes) → (c < 48) ⊎ (102 < c) → IsPlain s → Without c s
plain-Without c [] h p = tt
plain-Without c (d ∷ s) h p = (λ e. omega arith, plain-Without c s h p.1)

pub hex_bytes-IsPlain : (bytes : Bytes) → IsBytes bytes → IsPlain (hex_bytes bytes)
unfolding hex_bytes hex_digit
hex_bytes-IsPlain [] h = tt
hex_bytes-IsPlain (b ∷ bytes) h =
    (digit (b / 16) (omega arith), (digit (b % 16) (omega arith), hex_bytes-IsPlain bytes h.1))
  where
    digit : (d : ℕ) → d < 16 → (48 ≤ hex_digit d) × (hex_digit d ≤ 102)
    digit d h = ground arith

pub length-hex_bytes : (bytes : Bytes) → length (hex_bytes bytes) ≡ length bytes + length bytes
unfolding hex_bytes
length-hex_bytes [] = refl
length-hex_bytes (b ∷ bytes) = omega (arith, length-hex_bytes bytes)

-- A plain part holds no `,"auth":{` and no quote.
rfind_pass :
    (s rest : Bytes)
    → IsPlain s
    → rfind auth_marker rest ≡ none
    → rfind auth_marker (s ++ rest) ≡ none
rfind_pass s rest h =
    rfind-append b',' (codes "\"auth\":{") s rest (plain-Without b',' s (inl (omega arith)) h)

find_pass :
    (text s rest : Bytes)
    → IsPlain s
    → find (b'"' ∷ text) (s ++ rest) ≡ shift (length s) (find (b'"' ∷ text) rest)
find_pass text s rest h = find-append b'"' text s rest (plain-Without b'"' s (inl (omega arith)) h)

-- The quote in front of a plain part starts no `"signature":"`.
starts_with_pass :
    (s rest : Bytes)
    → IsPlain s
    → starts_with (codes "\"signature\":\"") (b'"' ∷ (s ++ (b'"' ∷ rest))) ≡ false
unfolding starts_with
starts_with_pass [] rest h = refl
starts_with_pass (c ∷ s) rest h = ground (arith, h.0)

get_elem?-append :
    (front : Bytes) (c : ℕ) (rest : Bytes) → get_elem? (front ++ c ∷ rest) (length front) ≡ some c
get_elem?-append [] c rest = refl
get_elem?-append (d ∷ front) c rest = get_elem?-append front c rest

-- A value that stands behind a part and in front of a quote.
value_at-append :
    (front value rest : Bytes)
    → value_at (length value) (front ++ (value ++ (b'"' ∷ rest))) (some (length front)) ≡ value
value_at-append front value rest =
    let whole = append_assoc front value (b'"' ∷ rest) in
    let quote : get_elem? (front ++ (value ++ (b'"' ∷ rest))) (length front + length value)
        ≡ some b'"' =
      ap₂ get_elem? (sym whole) (sym (length-append front value))
      ∙ get_elem?-append (front ++ value) b'"' rest in
    let size : length (front ++ (value ++ (b'"' ∷ rest)))
        ≡ length front + length value + suc (length rest) =
      omega
        (arith, length-append front (value ++ (b'"' ∷ rest)), length-append value (b'"' ∷ rest)) in
    let cut : substr (length front) (length value) (front ++ (value ++ (b'"' ∷ rest))) ≡ value =
      ap (take (length value)) (drop-append front (value ++ (b'"' ∷ rest)))
      ∙ take-append value (b'"' ∷ rest) in
    rw (quote, size) (ground (arith, cut))

value_at_lem :
    {input : Bytes} (front value rest : Bytes) {n i : ℕ}
    → input ≡ front ++ (value ++ (b'"' ∷ rest))
    → length value ≡ n
    → length front ≡ i
    → value_at n input (some i) ≡ value
value_at_lem {input} front value rest {n} {i} e size start =
    subst (λ s. value_at n s (some i) ≡ value) (sym e)
      (subst (λ k. value_at k (front ++ (value ++ (b'"' ∷ rest))) (some i) ≡ value) size
        (subst (λ k. value_at (length value) (front ++ (value ++ (b'"' ∷ rest))) (some k) ≡ value)
          start (value_at-append front value rest)))

abbrev at_end :
    (front input : Bytes)
    → ends_with (codes "}}") input ≡ true
    → ends_with (codes "}}") (front ++ input) ≡ true
at_end = ends_with-append (codes "}}")

module _ (payload stamp nonce signature : Bytes) (stamp_plain : IsPlain stamp)
    (nonce_plain : IsPlain nonce) (signature_plain : IsPlain signature) where
  -- What stands behind `,"auth":{`, and the parts of it.
  abbrev seal_end : Bytes
  seal_end = codes "\"}}"

  abbrev from_signature : Bytes
  from_signature = codes "\",\"signature\":\"" ++ (signature ++ seal_end)

  abbrev from_nonce : Bytes
  from_nonce = codes ",\"nonce\":\"" ++ (nonce ++ from_signature)

  abbrev from_stamp : Bytes
  from_stamp = timestamp_field ++ (stamp ++ from_nonce)

  no_auth_marker : rfind auth_marker from_stamp ≡ none
  unfolding rfind starts_with
  no_auth_marker =
      let at_end = rfind_pass signature seal_end signature_plain refl in
      let at_nonce = rfind_pass nonce from_signature nonce_plain (rw at_end refl) in
      let at_stamp = rfind_pass stamp from_nonce stamp_plain (rw at_nonce refl) in rw at_stamp refl

  -- The last `,"auth":{` is the one behind the payload.
  pub rfind-sealed :
      rfind auth_marker (sealed payload stamp nonce signature)
      ≡ some (length payload_marker + length payload)
  unfolding rfind starts_with
  rfind-sealed =
      let here : rfind auth_marker (auth_marker ++ from_stamp) ≡ some 0 = rw no_auth_marker refl in
      rfind-shift auth_marker payload_marker (payload ++ (auth_marker ++ from_stamp))
        (rfind-shift auth_marker payload (auth_marker ++ from_stamp) here)
      ∙ ap some (omega arith)

  -- The parts that the code cuts out, from the position of `,"auth":{`.
  abbrev from_auth : Bytes
  from_auth = auth_marker ++ from_stamp

  find-stamp : find timestamp_field from_auth ≡ some 9
  unfolding find starts_with
  find-stamp = refl

  find-comma : find (codes ",") (stamp ++ from_nonce) ≡ some (length stamp)
  unfolding find starts_with
  find-comma =
      find-append b',' [] stamp from_nonce
        (plain-Without b',' stamp (inl (omega arith)) stamp_plain)
      ∙ ap some (omega arith)

  find-nonce : find (codes "\"nonce\":\"") from_auth ≡ some (length stamp + 22)
  unfolding find starts_with
  find-nonce =
      rw (find_pass (codes "nonce\":\"") stamp from_nonce stamp_plain) (ap some (omega arith))

  find-signature :
      find (codes "\"signature\":\"") from_auth ≡ some (length stamp + length nonce + 33)
  unfolding find starts_with
  find-signature =
      rw
        (
          find_pass (codes "signature\":\"") stamp from_nonce stamp_plain,
          starts_with_pass nonce (codes ",\"signature\":\"" ++ (signature ++ seal_end)) nonce_plain,
          find_pass (codes "signature\":\"") nonce from_signature nonce_plain,
        )
        (ap some (omega arith))

  -- Where these parts stand in the datagram.
  abbrev datagram : Bytes
  datagram = sealed payload stamp nonce signature

  abbrev auth : ℕ
  auth = length payload_marker + length payload

  pub drop-sealed : drop auth datagram ≡ from_auth
  drop-sealed =
      ap (drop auth) (sym (append_assoc payload_marker payload from_auth))
      ∙ drop-append_of_eq (payload_marker ++ payload) from_auth
          (length-append payload_marker payload)

  drop_stamp : drop (auth + 9 + 12) datagram ≡ stamp ++ from_nonce
  drop_stamp =
      ap (λ n. drop n datagram) (omega arith) ∙ drop-add auth 21 datagram ∙ ap (drop 21) drop-sealed

  pub find_from-timestamp : find_from timestamp_field datagram auth ≡ some (auth + 9)
  find_from-timestamp = rw (drop-sealed, find-stamp) refl

  pub find_from-comma :
      find_from (codes ",") datagram (auth + 9 + 12) ≡ some (auth + 9 + 12 + length stamp)
  find_from-comma = rw (drop_stamp, find-comma) refl

  pub substr-stamp :
      substr (auth + 9 + 12) (auth + 9 + 12 + length stamp - (auth + 9 + 12)) datagram ≡ stamp
  substr-stamp = rw drop_stamp (take-append_of_eq stamp from_nonce (omega arith))

  pub substr-payload :
      substr (length payload_marker) (auth - length payload_marker) datagram ≡ payload
  substr-payload = take-append_of_eq payload from_auth (omega arith)

  pub json_auth_field-nonce :
      length nonce ≡ 32 → json_auth_field (drop auth datagram) (codes "nonce") 32 ≡ nonce
  unfolding json_auth_field
  json_auth_field-nonce size =
      let before = stamp ++ codes ",\"nonce\":\"" in
      rw drop-sealed (
        ap (λ o. value_at 32 from_auth (advance 9 o)) find-nonce
        ∙ value_at_lem (auth_marker ++ (timestamp_field ++ before)) nonce
            (codes ",\"signature\":\"" ++ (signature ++ seal_end))
            (ap (λ s. auth_marker ++ (timestamp_field ++ s)) (sym (append_assoc stamp _ _))) size
            (omega (arith, length-append stamp (codes ",\"nonce\":\""))))

  pub json_auth_field-signature :
      length nonce ≡ 32
      → length signature ≡ 64
      → json_auth_field (drop auth datagram) (codes "signature") 64 ≡ signature
  unfolding json_auth_field
  json_auth_field-signature size size' =
      let middle = codes ",\"nonce\":\"" ++ (nonce ++ codes "\",\"signature\":\"") in
      rw drop-sealed (
        ap (λ o. value_at 64 from_auth (advance 13 o)) find-signature
        ∙ value_at_lem (auth_marker ++ (timestamp_field ++ (stamp ++ middle))) signature
            (codes "}}")
            (ap (λ s. auth_marker ++ (timestamp_field ++ s))
              (ap (λ s. stamp ++ (codes ",\"nonce\":\"" ++ s))
                  (sym (append_assoc nonce (codes "\",\"signature\":\"") (signature ++ seal_end)))
                ∙ sym (append_assoc stamp middle (signature ++ seal_end))))
            size'
            (omega (
              arith,
              length-append stamp middle,
              length-append nonce (codes "\",\"signature\":\""),
            )))

  pub starts_with-sealed : starts_with payload_marker datagram ≡ true
  unfolding starts_with
  starts_with-sealed = refl

  pub ends_with-sealed : ends_with (codes "}}") datagram ≡ true
  unfolding ends_with starts_with
  ends_with-sealed = at_end payload_marker (payload ++ from_auth) (
      at_end payload from_auth (
        at_end (auth_marker ++ timestamp_field) (stamp ++ from_nonce) (
          at_end stamp from_nonce (
            at_end (codes ",\"nonce\":\"") (nonce ++ from_signature) (
              at_end nonce from_signature (
                at_end (codes "\",\"signature\":\"") (signature ++ seal_end)
                  (at_end signature seal_end refl)))))))
