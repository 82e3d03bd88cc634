-- ===== src/SharedMemory/Invariant.antt =====
-- Every step on the ring keeps its invariant, and how each changes the queue of frames.
use graphx_docker.Base.{
  ℕ, zero, suc, ◌+◌, ◌-◌, ◌%◌, ◌^◌, ◌≤◌, ◌<◌, ◌≡◌, ◌⊎◌, inl, inr, refl, ap, sym, subst, ◌∙◌, ◌∷◌,
  Bytes, arith, length, All-replicate, length-append, length-drop, length-replicate,
}
use graphx_docker.SharedMemory.{Slot, Ring, u64, recover, new_ring, write_slot, slot, publish}
use graphx_docker.SharedMemory.Slots.{length-set_slot, All-set_slot}
use graphx_docker.SharedMemory.Queue.{
  IsRing, Sized, FitsSlot, contents, queued, frame_of, slot-publish_other, slot-publish_same,
  slot-Sized,
}

pub new_ring-IsRing :
    (capacity max_message_bytes consumer_pid : ℕ)
    → 0 < capacity
    → max_message_bytes < 2 ^ 32
    → IsRing (new_ring capacity max_message_bytes consumer_pid)
unfolding new_ring
new_ring-IsRing capacity m pid h k = record {
  some_slot = h;
  slot_count = length-replicate capacity _;
  ordered = omega arith;
  bounded = omega arith;
  word = omega arith;
  small = k;
  sized = All-replicate (Sized m) capacity _ (length-replicate m 0);
  valid = λ i p q. absurd (omega arith);
}

-- What dying with the mutex costs: the queue is emptied and the channel closed.
pub recover-IsRing : (r : Ring) → IsRing r → IsRing (recover r)
unfolding recover slot
recover-IsRing r v = record {
  some_slot = v.some_slot;
  slot_count = v.slot_count;
  ordered = omega arith;
  bounded = omega (arith, v.some_slot);
  word = v.word;
  small = v.small;
  sized = v.sized;
  valid = λ i p q. absurd (omega arith);
}

write_slot-Sized :
    (f : Bytes) (m : ℕ) (s : Slot) → length f ≤ m → length s.bytes ≡ m → Sized m (write_slot f s)
unfolding write_slot
write_slot-Sized f m s h k = simp (length-append, length-drop) (omega arith)

published_valid :
    (f : Bytes) (r : Ring) (i : ℕ)
    → IsRing r
    → FitsSlot r f
    → r.head < r.tail + r.capacity
    → r.tail ≤ i
    → (i < r.head) ⊎ (i ≡ r.head)
    → (4 ≤ (slot (publish f r) i).frame_length)
      × ((slot (publish f r) i).frame_length ≤ r.max_message_bytes)
unfolding write_slot
published_valid f r i v fits h p (inl q) =
    subst (λ s. (4 ≤ s.frame_length) × (s.frame_length ≤ r.max_message_bytes))
      (sym (slot-publish_other f r i v p q h)) (v.valid i p q)
published_valid f r i v (a, b) h p (inr q) =
    subst (λ s. (4 ≤ s.frame_length) × (s.frame_length ≤ r.max_message_bytes))
      (sym (ap (slot (publish f r)) q ∙ slot-publish_same f r v))
      (omega (arith, v.small), omega (arith, v.small))

pub publish-IsRing :
    (f : Bytes) (r : Ring)
    → IsRing r
    → FitsSlot r f
    → r.head < r.tail + r.capacity
    → r.head + 1 < 2 ^ 64
    → IsRing (publish f r)
unfolding publish
publish-IsRing f r v fits h k = record {
  some_slot = v.some_slot;
  slot_count = length-set_slot _ _ r.slots ∙ v.slot_count;
  ordered = omega (arith, v.ordered);
  bounded = omega (arith, v.bounded);
  word = omega arith;
  small = v.small;
  sized =
      All-set_slot (Sized r.max_message_bytes) _ _ r.slots v.sized
        (write_slot-Sized f r.max_message_bytes (slot r r.head) fits.1 (slot-Sized r r.head v));
  valid = λ i p q. published_valid f r i v fits h p (omega arith);
}

-- The tail moves on by one.
abbrev pub taken : Ring → Ring
taken r = record r { tail = (r.tail + 1) % u64 }

pub taken-IsRing : (r : Ring) → IsRing r → r.tail < r.head → IsRing (taken r)
unfolding slot
taken-IsRing r v h = record {
  some_slot = v.some_slot;
  slot_count = v.slot_count;
  ordered = omega (arith, v.word);
  bounded = omega (arith, v.bounded, v.word);
  word = v.word;
  small = v.small;
  sized = v.sized;
  valid = λ i p q. v.valid i (omega (arith, v.word)) q;
}

queued-taken : (n from : ℕ) (r : Ring) → queued n from (taken r) ≡ queued n from r
unfolding slot
queued-taken zero from r = refl
queued-taken (suc n) from r =
    ap (λ rest. frame_of (slot r from) ∷ rest) (queued-taken n (suc from) r)

pub taken-contents :
    (r : Ring)
    → IsRing r
    → r.tail < r.head
    → contents r ≡ frame_of (slot r r.tail) ∷ contents (taken r)
taken-contents r v h =
    let e : r.head - r.tail ≡ suc (r.head - (taken r).tail) = omega (arith, v.word) in
    let e' : suc r.tail ≡ (taken r).tail = omega (arith, v.word) in
    ap (λ n. queued n r.tail r) e
    ∙ ap (λ rest. frame_of (slot r r.tail) ∷ rest)
        (sym (queued-taken (r.head - (taken r).tail) (suc r.tail) r)
          ∙ ap (λ i. queued (r.head - (taken r).tail) i (taken r)) e')
