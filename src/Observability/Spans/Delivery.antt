-- ===== src/Observability/Spans/Delivery.antt =====
-- What becomes of the spans that a queue takes in.
use graphx_docker.Base.{
  ℕ, ◌≤◌, ◌≡◌, refl, sym, ap, ap₂, subst, ◌∙◌, Bool, true, false, ◌||◌, not, ◌&&◌, Option, none,
  some, List, [], ◌∷◌, ◌++◌, append_assoc, append-nil, Bytes, leb, ltb, if◌then◌else◌, length,
  length-append, arith, Bool-cases, Option-cases, List-cases, inl, inr,
}
use graphx_docker.Observability.Spans.{
  SpanQueue, new_queue, push_span, take_span, finish_span, shut_down, next_span, landed,
}

-- What the callers, the worker and the destructor do, each under the mutex. The worker finishes a
-- span before it takes the next one.
pub data Step : Type 0 where
  pushes : Bytes → Step
  works shuts_down : Step

abbrev work : Option Bytes → SpanQueue → SpanQueue
work none s = take_span s
work (some _) s = finish_span s

unfoldable pub step : Step → SpanQueue → SpanQueue
unfolding push_span take_span finish_span shut_down
step (pushes payload) s = push_span payload s
step works s = work s.in_flight s
step shuts_down s = shut_down s

unfoldable pub run : List Step → SpanQueue → SpanQueue
unfolding step
run [] s = s
run (first ∷ steps) s = run steps (step first s)

-- Whether a queue takes a span in.
abbrev has_room : SpanQueue → Bool
has_room s = not s.stopping && ltb (length s.queue) s.capacity

-- What one step takes in, and what the steps take in, in order.
abbrev entering : Step → SpanQueue → List Bytes
entering (pushes payload) s = if has_room s then payload ∷ [] else []
entering _ s = []

unfoldable pub taken_in : List Step → SpanQueue → List Bytes
unfolding step
taken_in [] s = []
taken_in (first ∷ steps) s = entering first s ++ taken_in steps (step first s)

abbrev flying : Option Bytes → List Bytes
flying none = []
flying (some payload) = payload ∷ []

-- Spans `history` have been taken in: they have been posted, or the worker has them, or they wait,
-- or they were dropped when the sink was destroyed.
pub record Accounts (history : List Bytes) (s : SpanQueue) : Type 0 where
  pub dropped : List Bytes
  pub all : history ≡ s.posted ++ (flying s.in_flight ++ (s.queue ++ dropped))
  pub none_dropped : s.stopping ≡ false → dropped ≡ []
  pub bounded : length s.queue ≤ s.capacity

one_more :
    (front middle back : List Bytes) (payload : Bytes)
    → (front ++ (middle ++ (back ++ []))) ++ payload ∷ []
      ≡ front ++ (middle ++ ((back ++ payload ∷ []) ++ []))
one_more front middle back payload =
    ap (λ l. (front ++ (middle ++ l)) ++ payload ∷ []) (append-nil back)
    ∙ append_assoc front (middle ++ back) (payload ∷ [])
    ∙ ap (λ l. front ++ l) (append_assoc middle back (payload ∷ []))
    ∙ sym (ap (λ l. front ++ (middle ++ l)) (append-nil (back ++ payload ∷ [])))

push_span_room :
    (s : SpanQueue) (payload : Bytes)
    → has_room s ≡ true
    → push_span payload s ≡ record s { queue = s.queue ++ payload ∷ [] }
unfolding push_span
push_span_room s payload e =
    let open_ : (s.stopping || leb s.capacity (length s.queue)) ≡ false = ground (arith, e) in
    ap (λ b. if b then s else record s { queue = s.queue ++ payload ∷ [] }) open_

push_span_full : (s : SpanQueue) (payload : Bytes) → has_room s ≡ false → push_span payload s ≡ s
unfolding push_span
push_span_full s payload e =
    let full : (s.stopping || leb s.capacity (length s.queue)) ≡ true = ground (arith, e) in
    ap (λ b. if b then s else record s { queue = s.queue ++ payload ∷ [] }) full

-- A span behind those that wait; none has been dropped as long as one is taken in.
push-Accounts :
    (history : List Bytes) (s : SpanQueue) (payload : Bytes)
    → Accounts history s
    → Accounts (history ++ entering (pushes payload) s) (step (pushes payload) s)
unfolding step
push-Accounts history s payload a = elim (Bool-cases (has_room s)) [
  | inl e ↦
      let open_ : s.stopping ≡ false = ground (arith, e) in
      let nothing = a.none_dropped open_ in
      let order : history ++ payload ∷ []
          ≡ s.posted ++ (flying s.in_flight ++ ((s.queue ++ payload ∷ []) ++ [])) =
        ap (λ l. l ++ payload ∷ [])
          (a.all ∙ ap (λ d. s.posted ++ (flying s.in_flight ++ (s.queue ++ d))) nothing)
        ∙ one_more s.posted (flying s.in_flight) s.queue payload in
      rw e (
        subst (Accounts (history ++ payload ∷ [])) (sym (push_span_room s payload e)) (record {
          dropped = [];
          all = order;
          none_dropped = λ h. refl;
          bounded = ground (arith, e, length-append s.queue (payload ∷ []));
        }))
  | inr e ↦ rw e (
      subst (λ h. Accounts h (push_span payload s)) (sym (append-nil history))
        (subst (Accounts history) (sym (push_span_full s payload e)) a))
]

work-Accounts :
    (history : List Bytes) (s : SpanQueue) → Accounts history s → Accounts history (step works s)
unfolding step
work-Accounts history s a = elim (Option-cases s.in_flight) [
  | inl e ↦ elim (List-cases s.queue) [
    | inl q ↦ subst (Accounts history) (sym (ap (λ o. work o s) e ∙ ap (λ l. next_span l s) q)) a
    | inr (payload, rest, q) ↦
        subst (Accounts history) (sym (ap (λ o. work o s) e ∙ ap (λ l. next_span l s) q)) (record {
          dropped = a.dropped;
          all = a.all ∙ ap₂ (λ o l. s.posted ++ (flying o ++ (l ++ a.dropped))) e q;
          none_dropped = a.none_dropped;
          bounded = omega (arith, a.bounded, ap length q);
        })
  ]
  | inr (payload, e) ↦
      subst (Accounts history) (sym (ap (λ o. work o s) e ∙ ap (λ o. landed o s) e)) (record {
        dropped = a.dropped;
        all =
            a.all
            ∙ ap (λ o. s.posted ++ (flying o ++ (s.queue ++ a.dropped))) e
            ∙ sym (append_assoc s.posted (payload ∷ []) (s.queue ++ a.dropped));
        none_dropped = a.none_dropped;
        bounded = a.bounded;
      })
]

shut_down-Accounts :
    (history : List Bytes) (s : SpanQueue)
    → Accounts history s
    → Accounts history (step shuts_down s)
unfolding step
shut_down-Accounts history s a = record {
  dropped = s.queue ++ a.dropped;
  all = a.all;
  none_dropped = λ h. cc;
  bounded = omega arith;
}

step-Accounts :
    (history : List Bytes) (first : Step) (s : SpanQueue)
    → Accounts history s
    → Accounts (history ++ entering first s) (step first s)
step-Accounts history (pushes payload) s a = push-Accounts history s payload a
step-Accounts history works s a =
    subst (λ h. Accounts h (step works s)) (sym (append-nil history)) (work-Accounts history s a)
step-Accounts history shuts_down s a =
    subst (λ h. Accounts h (step shuts_down s)) (sym (append-nil history))
      (shut_down-Accounts history s a)

run_from-Accounts :
    (history : List Bytes) (steps : List Step) (s : SpanQueue)
    → Accounts history s
    → Accounts (history ++ taken_in steps s) (run steps s)
unfolding run taken_in
run_from-Accounts history [] s a = subst (λ h. Accounts h s) (sym (append-nil history)) a
run_from-Accounts history (first ∷ steps) s a =
    subst (λ h. Accounts h (run steps (step first s)))
      (append_assoc history (entering first s) (taken_in steps (step first s)))
      (run_from-Accounts (history ++ entering first s) steps (step first s)
        (step-Accounts history first s a))

-- Whatever the callers, the worker and the destructor do with a new queue: the queue never exceeds
-- its capacity, and the spans that were taken in are, in order, those posted, the one that is
-- being posted, those that wait, and, only after the destructor, those dropped.
pub run-Accounts :
    (node_id : Bytes) (queue_capacity : ℕ) (steps : List Step)
    → Accounts
        (taken_in steps (new_queue node_id queue_capacity))
        (run steps (new_queue node_id queue_capacity))
unfolding new_queue
run-Accounts node_id queue_capacity steps =
    run_from-Accounts [] steps (new_queue node_id queue_capacity)
      (record { dropped = []; all = refl; none_dropped = λ h. refl; bounded = omega arith })
