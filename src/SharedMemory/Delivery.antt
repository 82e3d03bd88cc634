-- ===== src/SharedMemory/Delivery.antt =====
-- What arrives over the ring, in whatever order its two ends make their calls.
use mathlib.Core.List.{map-append}
use graphx_docker.Base.{
  ℕ, ◌+◌, ◌-◌, ◌^◌, ◌≤◌, ◌<◌, ◌≡◌, inl, inr, refl, ap, sym, subst, ◌∙◌, Bool, true, false, List, [],
  ◌∷◌, ◌++◌, map, append_assoc, Bytes, ok, arith, length, length-append,
}
use graphx_docker.Envelope.{Envelope}
use graphx_docker.Envelope.Decode.{IsTyped}
use graphx_docker.SharedMemory.{Ring, recover, slot, publish, decode, message}
use graphx_docker.SharedMemory.Queue.{
  IsRing, FitsSlot, contents, queued, queued_eq, frame_of, publish-contents,
}
use graphx_docker.SharedMemory.Invariant.{
  recover-IsRing, publish-IsRing, taken, taken-IsRing, taken-contents,
}
use graphx_docker.SharedMemory.Transfer.{Carries, Carries-length, decode-Carries}
use graphx_docker.SharedMemory.History.{arrived, CarriesAll, CarriesAll-snoc, Inv}

-- The ring with other flags: what no frame depends on.
abbrev pub touched : Ring → Bool → ℕ → ℕ → Ring
touched r c p q = record r { closed = c; producer_pid = p; consumer_pid = q }

touched-contents : (r : Ring) (c : Bool) (p q : ℕ) → contents (touched r c p q) ≡ contents r
unfolding slot
touched-contents r c p q = queued_eq (r.head - r.tail) r.tail r (touched r c p q) (λ i a b. refl)

touched-IsRing : (r : Ring) (c : Bool) (p q : ℕ) → IsRing r → IsRing (touched r c p q)
unfolding slot
touched-IsRing r c p q v = record {
  some_slot = v.some_slot;
  slot_count = v.slot_count;
  ordered = v.ordered;
  bounded = v.bounded;
  word = v.word;
  small = v.small;
  sized = v.sized;
  valid = v.valid;
}

zero_left : (n : ℕ) → n - n ≡ 0
zero_left n = omega arith

recover-contents : (r : Ring) → contents (recover r) ≡ []
unfolding recover
recover-contents r = ap (λ n. queued n r.head (recover r)) (zero_left r.head)

publish_limit : (f : Bytes) (r : Ring) → (publish f r).max_message_bytes ≡ r.max_message_bytes
unfolding publish
publish_limit f r = refl

publish_counted :
    (f : Bytes) (r : Ring) (es : List Envelope) (e : Envelope)
    → r.head + 1 < 2 ^ 64
    → r.head ≤ length es
    → (publish f r).head ≤ length (es ++ e ∷ [])
unfolding publish
publish_counted f r es e h k = omega (arith, length-append es (e ∷ []))

CarriesAll-cons :
    (f : Bytes) (fs : List Bytes) (es : List Envelope)
    → CarriesAll (f ∷ fs) es
    → (e : Envelope) × (rest : List Envelope) × (es ≡ e ∷ rest)
      × (IsTyped e × Carries f e)
      × CarriesAll fs rest
CarriesAll-cons f fs [] h = absurd h
CarriesAll-cons f fs (e ∷ rest) h = (e, rest, refl, h.0, h.1)

nil_not_cons : {f : Bytes} {fs : List Bytes} → [] ≡ f ∷ fs → ⊥
nil_not_cons h = cc

-- A log that grows with the pending envelopes, and one that takes the first of them.
log_snoc :
    (es gs pending : List Envelope) (e : Envelope)
    → map arrived es ≡ gs ++ map arrived pending
    → map arrived (es ++ e ∷ []) ≡ gs ++ map arrived (pending ++ e ∷ [])
log_snoc es gs pending e k =
    map-append arrived es (e ∷ [])
    ∙ ap (λ xs. xs ++ arrived e ∷ []) k
    ∙ append_assoc gs (map arrived pending) (arrived e ∷ [])
    ∙ ap (λ xs. gs ++ xs) (sym (map-append arrived pending (e ∷ [])))

module _ {m : ℕ} {es gs : List Envelope} where
  pub touched-Inv :
      (r : Ring) (c : Bool) (p q : ℕ)
      → (r.closed ≡ true → c ≡ true)
      → Inv m es gs r
      → Inv m es gs (touched r c p q)
  touched-Inv r c p q k v = record {
    ring = touched-IsRing r c p q v.ring;
    limit = v.limit;
    counted = v.counted;
    history = elim v.history [
      | inl (pending, h, e) ↦
          inl (pending, subst (λ fs. CarriesAll fs pending) (sym (touched-contents r c p q)) h, e)
      | inr (h, n, rest) ↦ inr (k h, touched-contents r c p q ∙ n, rest)
    ];
  }

  pub recover-Inv : (r : Ring) → Inv m es gs r → Inv m es gs (recover r)
  unfolding recover
  recover-Inv r v = record {
    ring = recover-IsRing r v.ring;
    limit = v.limit;
    counted = v.counted;
    history = elim v.history [
      | inl (pending, h, e) ↦ inr (refl, recover-contents r, (map arrived pending, e))
      | inr (h, n, rest) ↦ inr (refl, recover-contents r, rest)
    ];
  }

  pub publish-Inv :
      (r : Ring) (e : Envelope) (f : Bytes)
      → r.closed ≡ false
      → r.head < r.tail + r.capacity
      → length es + 1 < 2 ^ 64
      → IsTyped e
      → Carries f e
      → length f ≤ m
      → Inv m es gs r
      → Inv m (es ++ e ∷ []) gs (publish f r)
  publish-Inv r e f c room count t carried fits v =
      let fits_slot : FitsSlot r f = (Carries-length f e carried, omega (arith, v.limit)) in
      let word : r.head + 1 < 2 ^ 64 = omega (arith, v.counted) in
      record {
        ring = publish-IsRing f r v.ring fits_slot room word;
        limit = publish_limit f r ∙ v.limit;
        counted = publish_counted f r es e word v.counted;
        history = elim v.history [
          | inl (pending, h, k) ↦ inl (
            pending ++ e ∷ [],
            subst (λ fs. CarriesAll fs (pending ++ e ∷ []))
                (sym (publish-contents f r v.ring fits_slot room word))
                (CarriesAll-snoc (contents r) pending f e h t carried),
            log_snoc es gs pending e k,
          )
          | inr (h, n, rest) ↦ absurd (ground (arith, h, c))
        ];
      }

  pub taken-Inv :
      (r : Ring)
      → r.tail < r.head
      → Inv m es gs r
      → (g : Envelope) × (decode (frame_of (slot r r.tail)) ≡ ok (message g))
        × Inv m es (gs ++ g ∷ []) (taken r)
  taken-Inv r h v = elim v.history [
    | inl (pending, c, k) ↦
        let (e, rest, p, head, tail) =
          CarriesAll-cons (frame_of (slot r r.tail)) (contents (taken r)) pending
            (subst (λ fs. CarriesAll fs pending) (taken-contents r v.ring h) c) in
        (
          arrived e,
          decode-Carries _ e head.0 head.1,
          record {
            ring = taken-IsRing r v.ring h;
            limit = v.limit;
            counted = v.counted;
            history = inl (
              rest,
              tail,
              k
                  ∙ ap (λ es'. gs ++ map arrived es') p
                  ∙ sym (append_assoc gs (arrived e ∷ []) (map arrived rest)),
            );
          },
        )
    | inr (c, n, rest) ↦ absurd (nil_not_cons (sym n ∙ taken-contents r v.ring h))
  ]
