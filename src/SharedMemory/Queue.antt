-- ===== src/SharedMemory/Queue.antt =====
-- The ring as the queue of frames that it stands for.
use graphx_docker.Base.{
  ℕ, zero, suc, ◌+◌, ◌-◌, ◌%◌, ◌^◌, ◌≤◌, ◌<◌, ◌≡◌, refl, ap, ap₂, sym, subst, ◌∙◌, List, [], ◌∷◌,
  ◌++◌, Bytes, arith, length, take, drop, All, take-append_of_eq,
}
use graphx_docker.SharedMemory.{Slot, Ring, u64, write_slot, slot, slot_at, publish}
use graphx_docker.SharedMemory.Slots.{
  get_elem?-set_slot_same, get_elem?-set_slot_other, get_elem?-lt, All-get_elem?, mod_apart,
  mod_in_range,
}

abbrev pub frame_of : Slot → Bytes
frame_of s = take s.frame_length s.bytes

-- The frames under the sequence numbers from, from + 1, …
abbrev pub queued : ℕ → ℕ → Ring → List Bytes
queued zero from r = []
queued (suc n) from r = frame_of (slot r from) ∷ queued n (suc from) r

abbrev pub contents : Ring → List Bytes
contents r = queued (r.head - r.tail) r.tail r

abbrev pub Sized : ℕ → Slot → Type 0
Sized m s = length s.bytes ≡ m

-- What every step keeps. Sequence numbers do not wrap around: that takes 2^64 messages.
pub record IsRing (r : Ring) : Type 0 where
  pub some_slot : 0 < r.capacity
  pub slot_count : length r.slots ≡ r.capacity
  pub ordered : r.tail ≤ r.head
  pub bounded : r.head ≤ r.tail + r.capacity
  pub word : r.head < 2 ^ 64
  pub small : r.max_message_bytes < 2 ^ 32
  pub sized : All (Sized r.max_message_bytes) r.slots
  pub valid :
      (i : ℕ)
      → r.tail ≤ i
      → i < r.head
      → (4 ≤ (slot r i).frame_length) × ((slot r i).frame_length ≤ r.max_message_bytes)

-- A frame that fits in a slot.
abbrev pub FitsSlot : Ring → Bytes → Type 0
FitsSlot r f = (4 ≤ length f) × (length f ≤ r.max_message_bytes)

pub queued_eq :
    (n from : ℕ) (r r' : Ring)
    → ((i : ℕ) → from ≤ i → i < from + n → slot r' i ≡ slot r i)
    → queued n from r' ≡ queued n from r
queued_eq zero from r r' h = refl
queued_eq (suc n) from r r' h =
    ap₂ (λ s rest. frame_of s ∷ rest) (h from (omega arith) (omega arith))
      (queued_eq n (suc from) r r' (λ i p q. h i (omega arith) (omega arith)))

queued_snoc :
    (n from : ℕ) (r : Ring)
    → queued (suc n) from r ≡ queued n from r ++ frame_of (slot r (from + n)) ∷ []
queued_snoc zero from r = ap (λ i. frame_of (slot r i) ∷ []) (omega arith)
queued_snoc (suc n) from r =
    let e : suc from + n ≡ from + suc n = omega arith in
    ap (λ rest. frame_of (slot r from) ∷ rest)
      (queued_snoc n (suc from) r ∙ ap (λ i. queued n (suc from) r ++ frame_of (slot r i) ∷ []) e)

pub slot-publish_other :
    (f : Bytes) (r : Ring) (i : ℕ)
    → IsRing r
    → r.tail ≤ i
    → i < r.head
    → r.head < r.tail + r.capacity
    → slot (publish f r) i ≡ slot r i
unfolding slot publish
slot-publish_other f r i v p q h = ap slot_at (
    get_elem?-set_slot_other (r.head % r.capacity) (i % r.capacity) (write_slot f (slot r r.head))
      r.slots (λ e. mod_apart i r.head r.capacity q (omega (arith, v.bounded)) (sym e)))

pub slot-publish_same :
    (f : Bytes) (r : Ring) → IsRing r → slot (publish f r) r.head ≡ write_slot f (slot r r.head)
unfolding slot publish
slot-publish_same f r v = ap slot_at (
    get_elem?-set_slot_same (r.head % r.capacity) (write_slot f (slot r r.head)) r.slots
      (omega (arith, v.slot_count, mod_in_range r.head r.capacity v.some_slot)))

pub slot-Sized : (r : Ring) (i : ℕ) → IsRing r → length (slot r i).bytes ≡ r.max_message_bytes
unfolding slot
slot-Sized r i v =
    let (s, e) =
      get_elem?-lt (i % r.capacity) r.slots
        (omega (arith, v.slot_count, mod_in_range i r.capacity v.some_slot)) in
    subst (λ o. length (slot_at o).bytes ≡ r.max_message_bytes) (sym e)
      (All-get_elem? (Sized r.max_message_bytes) (i % r.capacity) r.slots s v.sized e)

pub write_slot-frame : (f : Bytes) (s : Slot) → length f < 2 ^ 32 → frame_of (write_slot f s) ≡ f
unfolding write_slot
write_slot-frame f s h = take-append_of_eq f (drop (length f) s.bytes) (omega arith)

next_count :
    (r : Ring)
    → IsRing r
    → r.head + 1 < 2 ^ 64
    → (r.head + 1) % u64 - r.tail ≡ suc (r.head - r.tail)
next_count r v k = omega (arith, v.ordered)

last_sequence : (r : Ring) → IsRing r → r.tail + (r.head - r.tail) ≡ r.head
last_sequence r v = omega (arith, v.ordered)

-- `publish` puts a frame at the end of the queue, when there is room for one.
pub publish-contents :
    (f : Bytes) (r : Ring)
    → IsRing r
    → FitsSlot r f
    → r.head < r.tail + r.capacity
    → r.head + 1 < 2 ^ 64
    → contents (publish f r) ≡ contents r ++ f ∷ []
unfolding publish
publish-contents f r v (p, q) h k =
    ap (λ n. queued n r.tail (publish f r)) (next_count r v k)
    ∙ queued_snoc (r.head - r.tail) r.tail (publish f r)
    ∙ ap₂ (λ xs x. xs ++ x ∷ [])
        (queued_eq (r.head - r.tail) r.tail r (publish f r)
          (λ i a b. slot-publish_other f r i v a (omega (arith, v.ordered)) h))
        (ap (λ i. frame_of (slot (publish f r) i)) (last_sequence r v)
          ∙ ap frame_of (slot-publish_same f r v)
          ∙ write_slot-frame f (slot r r.head) (omega (arith, v.small)))
