-- ===== src/SharedMemory/Layout.antt =====
-- The mapping: the name of the segment, the stride of its slots and its size. `header_bytes` and
-- `alignment` are the size of `SharedHeader` and the alignment of `max_align_t`, of the compiler's
-- choice.
use native.Mathlib.Nat.{div-add-mod', mod-lt}
use graphx_docker.Base.{
  ℕ, ◌+◌, ◌-◌, ◌*◌, ◌/◌, ◌%◌, ◌≤◌, ◌<◌, ◌≡◌, ◌≢◌, ◌⊎◌, inl, inr, sym, subst, ◌∙◌, Bool, true, false,
  not, ◌||◌, [], ◌∷◌, Bytes, Result, ok, ◌>>◌, guard, guard-elim, ok-injective, ltb, ◌==◌,
  if◌then◌else◌, arith, length, Bool-cases,
}
use graphx_docker.Wire.{max_frame_bytes}
use graphx_docker.SharedMemory.Slots.{mod_apart, mod_in_range}

pub data LayoutError : Type 0 where
  name_empty not_one_name capacity_out_of_range message_size_out_of_range : LayoutError
  mapping_too_large : LayoutError

-- kMaximumMappingBytes
abbrev pub maximum_mapping_bytes : ℕ
maximum_mapping_bytes = 256 * 1024 * 1024

-- `name.find('/') != npos`
unfoldable pub has_slash : Bytes → Bool
has_slash [] = false
has_slash (c ∷ cs) = (c == b'/') || has_slash cs

with_slash : Bytes → Bytes
with_slash [] = []
with_slash (c ∷ cs) = if c == b'/' then c ∷ cs else b'/' ∷ c ∷ cs

behind_first : Bytes → Bytes
behind_first [] = []
behind_first (c ∷ cs) = cs

abbrev is_empty_name : Bytes → Bool
is_empty_name [] = true
is_empty_name (c ∷ cs) = false

unfoldable pub normalize_name : Bytes → Result LayoutError Bytes
unfolding with_slash behind_first has_slash
normalize_name name = do
  guard (not (is_empty_name name)) name_empty
  let absolute = with_slash name
  guard (not (ltb 200 (length absolute) || has_slash (behind_first absolute))) not_one_name
  ok absolute

unfoldable pub slot_stride : ℕ → ℕ → ℕ
slot_stride alignment maximum = (4 + maximum + alignment - 1) / alignment * alignment

unfoldable pub mapping_size : ℕ → ℕ → ℕ → ℕ → Result LayoutError ℕ
unfolding slot_stride
mapping_size header_bytes alignment capacity max_message_bytes = do
  guard (not (capacity == 0 || ltb 65536 capacity)) capacity_out_of_range
  guard (not (ltb max_message_bytes 64 || ltb (max_frame_bytes + 4) max_message_bytes))
      message_size_out_of_range
  let stride = slot_stride alignment max_message_bytes
  guard (not (ltb ((maximum_mapping_bytes - header_bytes) / stride) capacity)) mapping_too_large
  ok (header_bytes + capacity * stride)

-- The offset of `Impl::slot` in the mapping.
unfoldable pub slot_offset : ℕ → ℕ → ℕ → ℕ → ℕ → ℕ
unfolding slot_stride
slot_offset header_bytes alignment capacity max_message_bytes sequence =
    header_bytes + sequence % capacity * slot_stride alignment max_message_bytes

with_slash_lem : (c : ℕ) (cs : Bytes) → (rest : Bytes) × (with_slash (c ∷ cs) ≡ b'/' ∷ rest)
unfolding with_slash
with_slash_lem c cs = elim (Bool-cases (c == b'/')) [
  | inl e ↦ (cs, ground arith)
  | inr e ↦ (c ∷ cs, ground arith)
]

normalize_name-absolute :
    (rest : Bytes)
    → length (b'/' ∷ rest) ≤ 200
    → has_slash rest ≡ false
    → normalize_name (b'/' ∷ rest) ≡ ok (b'/' ∷ rest)
unfolding normalize_name with_slash behind_first
normalize_name-absolute rest h k = ground arith

-- A name that is accepted becomes an absolute name of one component and at most 200 bytes, which is
-- accepted as it stands.
pub normalize_name_idem :
    (name result : Bytes)
    → normalize_name name ≡ ok result
    → (normalize_name result ≡ ok result)
      × (length result ≤ 200)
      × ((rest : Bytes) × (result ≡ b'/' ∷ rest) × (has_slash rest ≡ false))
unfolding normalize_name behind_first
normalize_name_idem [] result h = absurd (ground arith)
normalize_name_idem (c ∷ cs) result h =
    let (rest, e) = with_slash_lem c cs in
    guard-elim
      (not
        (ltb 200 (length (with_slash (c ∷ cs))) || has_slash (behind_first (with_slash (c ∷ cs)))))
      not_one_name _ h
      λ b k.
        let e' : result ≡ b'/' ∷ rest = sym (ok-injective k) ∙ e in
        let b' : (not (ltb 200 (length (b'/' ∷ rest)) || has_slash rest)) ≡ true = rw e at b in
        let short : length (b'/' ∷ rest) ≤ 200 = ground (arith, b') in
        let single : has_slash rest ≡ false = ground (arith, b') in
        (
          subst (λ n. normalize_name n ≡ ok n) (sym e') (normalize_name-absolute rest short single),
          subst (λ n. length n ≤ 200) (sym e') short,
          (rest, e', single),
        )

stride_holds : (alignment maximum : ℕ) → 0 < alignment → 4 + maximum ≤ slot_stride alignment maximum
unfolding slot_stride
stride_holds alignment maximum h = omega (
  arith,
  div-add-mod' (4 + maximum + alignment - 1) alignment,
  mod-lt (4 + maximum + alignment - 1) h,
)

slots_apart : (i j stride : ℕ) → i < j → i * stride + stride ≤ j * stride
slots_apart i j stride h = grind arith

slot_within :
    (q capacity stride header m size : ℕ)
    → q < capacity
    → 4 + m ≤ stride
    → header + capacity * stride ≡ size
    → header + q * stride + (4 + m) ≤ size
slot_within q capacity stride header m size h k e = omega (arith, slots_apart q capacity stride h)

differ_cases : (p q : ℕ) → p ≢ q → (p < q) ⊎ (q < p)
differ_cases p q h = ground arith

slots_disjoint :
    (p q stride header m : ℕ)
    → p ≢ q
    → 4 + m ≤ stride
    → (header + p * stride + (4 + m) ≤ header + q * stride)
      ⊎ (header + q * stride + (4 + m) ≤ header + p * stride)
slots_disjoint p q stride header m h k = elim (differ_cases p q h) [
  | inl l ↦ inl (omega (arith, slots_apart p q stride l))
  | inr g ↦ inr (omega (arith, slots_apart q p stride g))
]

fits_mapping : (capacity stride space : ℕ) → capacity ≤ space / stride → capacity * stride ≤ space
fits_mapping capacity stride space h =
    let e = div-add-mod' space stride in
    let m : capacity * stride ≤ space / stride * stride = grind arith in omega (arith, e, m)

-- The memory of a ring whose size is accepted: the whole fits in 256 MiB, each sequence number's
-- slot holds the length word and the largest message within the mapping, behind the header, and
-- the slots of two sequence numbers that are less than the capacity apart do not overlap.
pub mapping_size-slots :
    (header_bytes alignment capacity max_message_bytes size : ℕ)
    → header_bytes ≤ maximum_mapping_bytes
    → 0 < alignment
    → mapping_size header_bytes alignment capacity max_message_bytes ≡ ok size
    → (size ≤ maximum_mapping_bytes)
      × ((i : ℕ)
          → slot_offset header_bytes alignment capacity max_message_bytes i
              + (4 + max_message_bytes)
            ≤ size)
      × ((i j : ℕ)
          → i < j
          → j < i + capacity
          → (slot_offset header_bytes alignment capacity max_message_bytes i
                + (4 + max_message_bytes)
              ≤ slot_offset header_bytes alignment capacity max_message_bytes j)
            ⊎ (slot_offset header_bytes alignment capacity max_message_bytes j
                  + (4 + max_message_bytes)
                ≤ slot_offset header_bytes alignment capacity max_message_bytes i))
unfolding mapping_size slot_offset
mapping_size-slots header_bytes alignment capacity m size small aligned h =
    let stride = slot_stride alignment m in
    let holds = stride_holds alignment m aligned in
    guard-elim (not (capacity == 0 || ltb 65536 capacity)) capacity_out_of_range _ h λ b₁ h₁.
      guard-elim (not (ltb m 64 || ltb (max_frame_bytes + 4) m)) message_size_out_of_range _ h₁
        λ b₂ h₂.
          guard-elim (not (ltb ((maximum_mapping_bytes - header_bytes) / stride) capacity))
            mapping_too_large _ h₂
            λ b₃ h₃.
              let e = ok-injective h₃ in
              let some : 0 < capacity = ground (arith, b₁) in
              let within =
                fits_mapping capacity stride (maximum_mapping_bytes - header_bytes)
                  (ground (arith, b₃)) in
              (
                omega (arith, e, within),
                λ i.
                    slot_within (i % capacity) capacity stride header_bytes m size
                      (mod_in_range i capacity some) holds e,
                λ i j lt near.
                    slots_disjoint (i % capacity) (j % capacity) stride header_bytes m
                      (mod_apart i j capacity lt near) holds,
              )
