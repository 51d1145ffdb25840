-- ===== src/PriceTime/Plan.antt =====
-- `planPriceTimeMatches` of src/lib/price-time.ts, as a whole.
use phlebas.Base.{
  ℕ, ◌+◌, ◌≡◌, refl, ◌∙◌, sym, subst, ◌≢◌, ◌⊎◌, inl, inr, ◌≤◌, ◌<◌, true, false, ◌&&◌, ◌||◌, List,
  [], ◌∷◌, ok, ltb, ◌==◌, if◌then◌else◌, arith, All, All-mono, Ordered, Bool-cases, Yields,
  Result-cases, >>=-returned, >>-returned, throw_if-returned, Returns-ok, ok-injective, uint64_max,
  throw_if,
}
use phlebas.OrderDomain.{Text, normalize_hex32}
use phlebas.PriceTime.{
  SequencedOrder, PlannedFill, MatchPlan, filled, partial, unfilled, fok_rejected, fill_orders,
  conclude, is_empty, normalize_orders, filter_orders, sort_by_priority, candidates_of,
  plan_price_time_matches,
}
use phlebas.PriceTime.Eligible.{Eligible}
use phlebas.PriceTime.Priority.{Before, sort_by_priority-Queued}
use phlebas.PriceTime.Fills.{
  Served, unserved, Open, depth, filled_atoms, Filled, fill_orders-Filled,
}

-- What the plan says for a taker before a queue: it is filled just where the queue offers enough;
-- else a fill-or-kill taker gets nothing, and another one all that the queue offers.
abbrev pub Concluded : SequencedOrder → List SequencedOrder → MatchPlan → Type 0
Concluded taker queue plan =
    ((plan.status ≡ filled)
      × (taker.remaining_base_atoms ≤ depth queue)
      × (filled_atoms plan.fills ≡ taker.remaining_base_atoms)
      × (plan.remaining_base_atoms ≡ 0))
    ⊎ ((plan.status ≡ fok_rejected)
        × (depth queue < taker.remaining_base_atoms)
        × (taker.order.time_in_force ≡ 2)
        × (plan.fills ≡ [])
        × (plan.remaining_base_atoms ≡ taker.remaining_base_atoms))
    ⊎ ((plan.status ≡ (if is_empty queue then unfilled else partial))
        × (depth queue < taker.remaining_base_atoms)
        × (taker.order.time_in_force ≢ 2)
        × (filled_atoms plan.fills ≡ depth queue)
        × (filled_atoms plan.fills + plan.remaining_base_atoms ≡ taker.remaining_base_atoms))

same_emptiness :
    (hash : Text) (queue : List SequencedOrder) (fills : List PlannedFill)
    → All Open queue
    → Served hash queue fills
    → depth queue ≡ filled_atoms fills
    → is_empty fills ≡ is_empty queue
same_emptiness hash [] [] opens s e = refl
same_emptiness hash [] (f ∷ fs) opens s e = elim s [ ]
same_emptiness hash (m ∷ ms) [] opens s e = absurd (ground (arith, opens.0))
same_emptiness hash (m ∷ ms) (f ∷ fs) opens s e = refl

rest_Concluded :
    (hash : Text) (taker : SequencedOrder) (queue : List SequencedOrder) (fills : List PlannedFill)
    (remaining : ℕ)
    → (taker.order.time_in_force == 2 && ltb 0 remaining) ≡ false
    → (remaining == 0) ≡ false
    → is_empty fills ≡ is_empty queue
    → depth queue < taker.remaining_base_atoms
    → taker.order.time_in_force ≢ 2
    → depth queue ≡ filled_atoms fills
    → filled_atoms fills + remaining ≡ taker.remaining_base_atoms
    → Served hash queue fills
    → Concluded taker queue (conclude taker (fills, remaining))
      × Served hash queue (conclude taker (fills, remaining)).fills
unfolding conclude
rest_Concluded hash taker queue fills remaining short e same less other used total served =
    elim (Bool-cases (is_empty fills)) [
      | inl empty ↦
          let none : is_empty queue ≡ true = sym same ∙ empty in
          simp (short, e, empty, none) (inr (inr (refl, less, other, sym used, total)), served)
      | inr empty ↦
          let none : is_empty queue ≡ false = sym same ∙ empty in
          simp (short, e, empty, none) (inr (inr (refl, less, other, sym used, total)), served)
    ]

conclude-Concluded :
    (hash : Text) (taker : SequencedOrder) (queue : List SequencedOrder) (fills : List PlannedFill)
    (remaining : ℕ)
    → All Open queue
    → Filled hash taker.remaining_base_atoms queue (fills, remaining)
    → Concluded taker queue (conclude taker (fills, remaining))
      × Served hash queue (conclude taker (fills, remaining)).fills
unfolding conclude
conclude-Concluded hash taker queue fills remaining opens (served, total, left) =
    elim (Bool-cases (remaining == 0)) [
      | inl e ↦
          let filled_up : (taker.order.time_in_force == 2 && ltb 0 remaining) ≡ false =
            ground arith in
          simp (filled_up, e) (inl (refl, ground arith, ground arith, refl), served)
      | inr e ↦ elim (Bool-cases (taker.order.time_in_force == 2)) [
        | inl f ↦
            let short : (taker.order.time_in_force == 2 && ltb 0 remaining) ≡ true = ground arith in
            simp short (inr (inl (refl, ground arith, ground arith, refl, refl)), unserved queue)
        | inr f ↦
            let short : (taker.order.time_in_force == 2 && ltb 0 remaining) ≡ false =
              ground arith in
            let all_used : depth queue ≡ filled_atoms fills = ground arith in
            let same = same_emptiness hash queue fills opens served all_used in
            rest_Concluded hash taker queue fills remaining short e same (ground arith)
              (ground arith) all_used total served
      ]
    ]

-- The plan for a taker of the normal hash `hash` before the orders that `candidates_of` names.
pub record Planned (hash : Text) (taker : SequencedOrder) (resting : List SequencedOrder)
    (plan : MatchPlan) : Type 0 where
  pub queue : List SequencedOrder
  pub candidates : candidates_of taker hash resting ≡ ok queue
  pub eligible : All (Eligible taker) queue
  pub by_priority : Ordered (Before taker.order.side) queue
  pub served : Served hash queue plan.fills
  pub concluded : Concluded taker queue plan

candidates_of-Queued :
    (taker : SequencedOrder) (hash : Text) (resting queue : List SequencedOrder)
    → candidates_of taker hash resting ≡ ok queue
    → All (Eligible taker) queue × Ordered (Before taker.order.side) queue
unfolding candidates_of
candidates_of-Queued taker hash resting queue h =
    let (orders, n, h1) = >>=-returned (normalize_orders resting) _ _ h in
    let (kept, filtered, sorted) =
      >>=-returned (filter_orders taker (taker.sequence ∷ []) (hash ∷ []) orders) _ _ h1 in
    let (out, s, queued) =
      Returns-ok (sort_by_priority taker.order.side kept)
        (sort_by_priority-Queued taker (taker.sequence ∷ []) (hash ∷ []) orders kept filtered) in
    let same : out ≡ queue = ok-injective (sym s ∙ sorted) in
    subst (λ q. All (Eligible taker) q × Ordered (Before taker.order.side) q) same
      (queued.eligible, queued.by_priority)

returned_Planned :
    (taker : SequencedOrder) (resting : List SequencedOrder) (plan : MatchPlan)
    → plan_price_time_matches taker resting ≡ ok plan
    → (hash : Text) × (normalize_hex32 taker.order_hash ≡ ok hash) × Planned hash taker resting plan
unfolding plan_price_time_matches
returned_Planned taker resting plan h =
    let (hash, n, h1) = >>=-returned (normalize_hex32 taker.order_hash) _ _ h in
    let (queue, h2, concluded) = >>=-returned _ _ _ h1 in
    let (guards, candidates) = >>-returned _ (candidates_of taker hash resting) _ h2 in
    let amounts =
      (>>-returned (throw_if (taker.sequence == 0 || ltb uint64_max taker.sequence) _) _ _
        guards).1 in
    let valid =
      throw_if-returned
        (taker.remaining_base_atoms == 0
          || ltb taker.order.base_amount_atoms taker.remaining_base_atoms)
        _ amounts in
    let (eligible, by_priority) = candidates_of-Queued taker hash resting queue candidates in
    let opens = All-mono (λ m x. x.open_amount) queue eligible in
    let asked : 0 < taker.remaining_base_atoms = ground (arith, valid) in
    let (fills, remaining) = fill_orders hash taker.remaining_base_atoms queue in
    let (means, served) =
      conclude-Concluded hash taker queue fills remaining opens
        (fill_orders-Filled hash taker.remaining_base_atoms queue asked opens) in
    (
      hash,
      n,
      subst (Planned hash taker resting) (ok-injective concluded) (record {
        queue = queue;
        candidates = candidates;
        eligible = eligible;
        by_priority = by_priority;
        served = served;
        concluded = means;
      }),
    )

-- Whenever the planner returns, the taker's hash is a valid identifier `hash`, and the plan is one
-- for a queue of eligible resting orders in strict price-time priority: its fills serve the queue
-- from the front at the resting prices, all but the last in full, and its status and remaining
-- amount are decided by comparing what the queue offers with what the taker asks.
pub plan_price_time_matches-Planned :
    (taker : SequencedOrder) (resting : List SequencedOrder)
    → Yields
        (λ plan.
          (hash : Text) × (normalize_hex32 taker.order_hash ≡ ok hash)
          × Planned hash taker resting plan)
        (plan_price_time_matches taker resting)
plan_price_time_matches-Planned taker resting =
    elim (Result-cases (plan_price_time_matches taker resting)) [
      | inr (e, h) ↦ rw h tt
      | inl (plan, h) ↦ rw h (returned_Planned taker resting plan h)
    ]

-- The planner returns a plan for every taker with a valid hash, sequence and remaining amount,
-- before any resting orders that pass the filter's own guards: its sort never throws.
pub plan_price_time_matches-returns :
    (taker : SequencedOrder) (resting orders kept : List SequencedOrder) (hash : Text)
    → normalize_hex32 taker.order_hash ≡ ok hash
    → 0 < taker.sequence
    → taker.sequence ≤ uint64_max
    → 0 < taker.remaining_base_atoms
    → taker.remaining_base_atoms ≤ taker.order.base_amount_atoms
    → normalize_orders resting ≡ ok orders
    → filter_orders taker (taker.sequence ∷ []) (hash ∷ []) orders ≡ ok kept
    → (plan : MatchPlan) × (plan_price_time_matches taker resting ≡ ok plan)
unfolding plan_price_time_matches candidates_of
plan_price_time_matches-returns taker resting orders kept hash n s1 s2 r1 r2 o f =
    let (queue, q, queued) =
      Returns-ok (sort_by_priority taker.order.side kept)
        (sort_by_priority-Queued taker (taker.sequence ∷ []) (hash ∷ []) orders kept f) in
    let t1 : (taker.sequence == 0 || ltb uint64_max taker.sequence) ≡ false = ground arith in
    let t2 : (taker.remaining_base_atoms == 0
          || ltb taker.order.base_amount_atoms taker.remaining_base_atoms)
        ≡ false =
      ground arith in
    (
      conclude taker (fill_orders hash taker.remaining_base_atoms queue),
      simp (n, t1, t2, o, f, q) refl,
    )
