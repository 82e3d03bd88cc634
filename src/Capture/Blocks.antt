-- ===== src/Capture/Blocks.antt =====
-- A capture file is a sequence of PCAPNG blocks, each as long as its two length words say.
use native.Mathlib.Nat.{pow-zero, pow-suc}
use graphx_docker.Base.{
  ℕ, zero, suc, ◌+◌, ◌-◌, ◌*◌, ◌/◌, ◌%◌, ◌^◌, ◌≤◌, ◌<◌, ◌≡◌, inl, inr, refl, sym, subst, ap, ◌∙◌,
  List, [], ◌∷◌, ◌++◌, append_assoc, Bytes, ok, leb, ◌==◌, length, take, drop, drop-append_of_eq,
  take-append_of_eq, length-append, arith, ok-injective, guard-elim, Bool-cases,
}
use graphx_docker.Capture.{
  put_little, pad_loop, pad32, put_option, end_options, block, maximum_option_length,
}

pub length-put_little : (n v : ℕ) → length (put_little n v) ≡ n
unfolding put_little
length-put_little zero v = refl
length-put_little (suc n) v = ap suc (length-put_little n (v / 256))

-- A buffer whose size is a multiple of four.
abbrev pub IsAligned : Bytes → Type 0
IsAligned out = length out % 4 ≡ 0

pad_loop-IsAligned :
    (rounds : ℕ) (out : Bytes) → (4 - length out % 4) % 4 ≤ rounds → IsAligned (pad_loop rounds out)
unfolding pad_loop
pad_loop-IsAligned zero out h = omega arith
pad_loop-IsAligned (suc rounds) out h = elim (Bool-cases (length out % 4 == 0)) [
  | inl e ↦ rw e (ground arith)
  | inr e ↦
      let e' : (length out % 4 ≡ 0) → ⊥ = λ z. ground arith in
      rw e (
        pad_loop-IsAligned rounds (out ++ 0 ∷ [])
          (omega (arith, length-append out (0 ∷ []), missing (length out) h e')))
]
  where
    missing :
        (n : ℕ) → (4 - n % 4) % 4 ≤ suc rounds → ((n % 4 ≡ 0) → ⊥) → (4 - (n + 1) % 4) % 4 ≤ rounds
    missing n h z = ground arith

pub pad32-IsAligned : (out : Bytes) → IsAligned (pad32 out)
unfolding pad32
pad32-IsAligned out = pad_loop-IsAligned 3 out (omega arith)

pub end_options-IsAligned : (out : Bytes) → IsAligned out → IsAligned (end_options out)
unfolding end_options
end_options-IsAligned out h = simp (length-append, length-put_little) (omega (arith, h))

pub put_option-IsAligned :
    (out : Bytes) (code : ℕ) (value : Bytes) {out' : Bytes}
    → put_option out code value ≡ ok out'
    → IsAligned out'
unfolding put_option
put_option-IsAligned out code value h =
    guard-elim (leb (length value) maximum_option_length) _ _ h λ b k.
      subst IsAligned (ok-injective k)
        (pad32-IsAligned (out ++ (put_little 2 code ++ (put_little 2 (length value) ++ value))))

pub length-block : (type : ℕ) (body : Bytes) → length (block type body) ≡ length body + 12
unfolding block
length-block type body = simp (length-append, length-put_little) (omega arith)

-- The types of the blocks of a file, from its start.
pub data IsCapture : List ℕ → Bytes → Type 0 where
  no_block : IsCapture [] []
  next_block :
      {types : List ℕ} {file : Bytes} (type : ℕ) (body : Bytes)
      → IsAligned body
      → length body + 12 < 2 ^ 32
      → IsCapture types file
      → IsCapture (types ++ type ∷ []) (file ++ block type body)

-- How a reader of the file takes a little-endian number.
abbrev pub read_little : Bytes → ℕ
read_little [] = 0
read_little (b ∷ bs) = b + 256 * read_little bs

read_little-put_little : (n v : ℕ) → v < 256 ^ n → read_little (put_little n v) ≡ v
unfolding put_little
read_little-put_little zero v h = omega (arith, pow-zero 256)
read_little-put_little (suc n) v h =
    let e : v / 256 < 256 ^ n = omega (arith, pow-suc 256 n) in
    omega (arith, read_little-put_little n (v / 256) e)

-- A block whose size fits in 32 bits is 12 bytes longer than its body, and both of its length words,
-- behind the type and at the end, give that size: a reader finds the next block, or this one's
-- start from its end.
pub block-read_little :
    (type : ℕ) (body : Bytes)
    → length body + 12 < 2 ^ 32
    → (length (block type body) ≡ length body + 12)
      × (read_little (take 4 (drop 4 (block type body))) ≡ length (block type body))
      × (read_little (drop (length body + 8) (block type body)) ≡ length (block type body))
unfolding block
block-read_little type body h =
    let total : ℕ = (length body + 12) % 2 ^ 32 in
    let word = put_little 4 total in
    let words : read_little word ≡ length body + 12 =
      read_little-put_little 4 total (omega arith) ∙ omega arith in
    let long = length-block type body in
    let tail = word ++ (body ++ word) in
    let first : take 4 (drop 4 (put_little 4 type ++ tail)) ≡ word =
      ap (take 4) (drop-append_of_eq (put_little 4 type) tail (length-put_little 4 type))
      ∙ take-append_of_eq word (body ++ word) (length-put_little 4 total) in
    let front = put_little 4 type ++ (word ++ body) in
    let regroup : put_little 4 type ++ tail ≡ front ++ word =
      ap (λ xs. put_little 4 type ++ xs) (sym (append_assoc word body word))
      ∙ sym (append_assoc (put_little 4 type) (word ++ body) word) in
    let front_long : length front ≡ length body + 8 = omega (
      arith,
      length-append (put_little 4 type) (word ++ body),
      length-append word body,
      length-put_little 4 type,
      length-put_little 4 total,
    ) in
    let last : drop (length body + 8) (put_little 4 type ++ tail) ≡ word =
      ap (drop (length body + 8)) regroup ∙ drop-append_of_eq front word front_long in
    (long, ap read_little first ∙ words ∙ sym long, ap read_little last ∙ words ∙ sym long)
