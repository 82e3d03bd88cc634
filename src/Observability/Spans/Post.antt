-- ===== src/Observability/Spans/Post.antt =====
-- `post_json`: the request, and the loop that hands it to the socket. Addresses and connections
-- are the system's.
use graphx_docker.Base.{
  ℕ, zero, suc, ◌+◌, ◌++◌, sym, ap, subst, ◌∙◌, append_assoc, take, drop, take-append-drop,
  get_elem?, ◌⊎◌, ◌≤◌, ◌<◌, ◌≡◌, refl, Option, none, some, List, [], ◌∷◌, Bytes, codes, ltb,
  if◌then◌else◌, length, ℤ, pos, negsuc, arith, Bool-cases, inl, inr, Option-cases,
}
use mathlib.Core.Option
use graphx_docker.Observability.Text.{concat, to_string}

-- The text of the request.
unfoldable pub post_request : Bytes → ℕ → Bytes → Bytes → Bytes
unfolding to_string
post_request host port path body = concat (
    codes "POST "
    ∷ path
    ∷ codes " HTTP/1.1\r\nHost: "
    ∷ host
    ∷ codes ":"
    ∷ to_string port
    ∷ codes "\r\nContent-Type: application/json\r\nContent-Length: "
    ∷ to_string (length body)
    ∷ codes "\r\nConnection: close\r\n\r\n"
    ∷ body
    ∷ [])

-- What one `send` returns, as the number of bytes bytes_taken, and nothing for 0 and for an error.
abbrev pub bytes_taken : ℤ → Option ℕ
bytes_taken (pos n) = if ltb 0 n then some n else none
bytes_taken (negsuc n) = none

-- `send` on a connected socket, at one call: from the bytes that stand behind its pointer to what
-- it returns. Each call may give another result.
abbrev pub Send : Type 0
Send = Bytes → ℤ

-- The `while` loop from an offset, on the calls of `send`: the bytes that the socket has taken in
-- at its end, or nothing if it has not ended.
unfoldable pub write_request : List Send → Bytes → ℕ → Option Bytes
write_request [] data_ offset = if ltb offset (length data_) then none else some []
write_request (send ∷ sends) data_ offset =
    if ltb offset (length data_)
    then elim (bytes_taken (send (drop offset data_))) [
      | none ↦ some []
      | some n ↦
          Option.map (λ written. take n (drop offset data_) ++ written)
            (write_request sends data_ (offset + n))
    ]
    else some []

bytes_taken-positive : (result : ℤ) (n : ℕ) → bytes_taken result ≡ some n → 0 < n
bytes_taken-positive result n h = grind arith

-- One of the calls has failed, or has taken nothing, at the bytes that are left.
abbrev pub Refused : List Send → Bytes → Type 0
Refused sends rest =
    (i : ℕ) × (send : Send) × (get_elem? sends i ≡ some send) × (bytes_taken (send rest) ≡ none)

-- The bytes are written up to a rest, at which a call failed if it is not empty.
abbrev pub Writes : List Send → Bytes → Bytes → Type 0
Writes sends bytes written =
    (rest : Bytes) × (bytes ≡ written ++ rest) × ((rest ≡ []) ⊎ Refused sends rest)

drop_beyond : (offset : ℕ) (bytes : Bytes) → length bytes ≤ offset → drop offset bytes ≡ []
drop_beyond zero [] h = refl
drop_beyond zero (b ∷ bytes) h = absurd (omega (arith, h))
drop_beyond (suc offset) [] h = refl
drop_beyond (suc offset) (b ∷ bytes) h = drop_beyond offset bytes (omega (arith, h))

drop-drop : (m n : ℕ) (bytes : Bytes) → drop n (drop m bytes) ≡ drop (m + n) bytes
drop-drop zero n bytes = ap (λ k. drop k bytes) (let e : n ≡ 0 + n = omega arith in e)
drop-drop (suc m) n [] =
    drop_beyond n [] (omega arith) ∙ sym (drop_beyond (suc m + n) [] (omega arith))
drop-drop (suc m) n (b ∷ bytes) =
    drop-drop m n bytes
    ∙ ap (λ k. drop k (b ∷ bytes)) (let e : suc (m + n) ≡ suc m + n = omega arith in e)

later :
    (sends : List Send) (send : Send) (rest : Bytes)
    → Refused sends rest
    → Refused (send ∷ sends) rest
later sends send rest (i, refused, e, none_taken) = (suc i, refused, e, none_taken)

write_next :
    (send : Send) (sends : List Send) (bytes written : Bytes) (n : ℕ)
    → Writes sends (drop n bytes) written
    → Writes (send ∷ sends) bytes (take n bytes ++ written)
write_next send sends bytes written n (rest, split, ends) = (
  rest,
  sym (take-append-drop n bytes)
      ∙ ap (λ l. take n bytes ++ l) split
      ∙ sym (append_assoc (take n bytes) written rest),
  elim ends [ inl e ↦ inl e | inr refused ↦ inr (later sends send rest refused) ],
)

write_request_at :
    (sends : List Send) (data_ : Bytes) (offset : ℕ)
    → length data_ ≤ offset + length sends
    → (written : Bytes) × (write_request sends data_ offset ≡ some written)
      × Writes sends (drop offset data_) written
unfolding write_request
write_request_at [] data_ offset h =
    ([], ground (arith, h), ([], drop_beyond offset data_ (omega (arith, h)), inl refl))
write_request_at (send ∷ sends) data_ offset h = elim (Bool-cases (ltb offset (length data_))) [
  | inr e ↦ rw e ([], refl, ([], drop_beyond offset data_ (ground (arith, e)), inl refl))
  | inl e ↦ elim (Option-cases (bytes_taken (send (drop offset data_)))) [
    | inl z ↦ rw (e, z) ([], refl, (drop offset data_, refl, inr (0, send, refl, z)))
    | inr (n, z) ↦
        let (written, ends, writes) =
          write_request_at sends data_ (offset + n)
            (omega (arith, h, bytes_taken-positive (send (drop offset data_)) n z)) in
        rw (e, z, ends)
          (
            take n (drop offset data_) ++ written,
            refl,
            write_next send sends (drop offset data_) written n
                (subst (λ l. Writes sends l written) (sym (drop-drop offset n data_)) writes),
          )
  ]
]

-- The loop ends after at most as many sends as the request has bytes. What the socket has then
-- taken in, in the order of the sends, is the request from its first byte on, and it is the whole
-- request unless a send has failed, or has taken nothing, at the very rest that is missing.
pub write_request_ends :
    (sends : List Send) (data_ : Bytes)
    → length data_ ≤ length sends
    → (written : Bytes) × (write_request sends data_ 0 ≡ some written) × Writes sends data_ written
write_request_ends sends data_ h = write_request_at sends data_ 0 (omega (arith, h))
