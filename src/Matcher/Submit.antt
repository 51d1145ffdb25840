-- ===== src/Matcher/Submit.antt =====
-- `submitOrder` of src/lib/matcher.ts as a whole.
use phlebas.Base.{
  ◌+◌, ◌<◌, ◌≡◌, refl, ◌⊎◌, inl, inr, true, false, ◌&&◌, ◌||◌, Option, none, arith, All, ok, Bool,
  not, Returns, Returns-ok, Bool-cases, ◌==◌, ltb, String,
}
use phlebas.Units.{OrderSide, buy, sell, meets_minimum_quote_settlement}
use phlebas.Units.Minimum.{meets_minimum-least_size}
use phlebas.Matcher.Consume.{Consumes, filled_size, stop}
use phlebas.Matcher.Loop.{IsWithin, LoopEnd, HeadApart}
use phlebas.Matcher.Invariant.{IsSound, match_against-LoopEnd, after_match-IsSound, rest_on-IsSound}
use phlebas.Matcher.{
  RestingOrder, Book, NewOrder, Match, SubmitResult, Status, open_, filled, cancelled,
  match_against, opposite, after_match, rest_order, rest_on, resting_order, settle_match, report,
  opened, refuse, match_order, submit_order, is_fok, is_ioc, order_expired,
}

-- What a submission does, whatever its status.
pub record Executed (book : Book) (order : NewOrder) (r : SubmitResult) : Type 0 where
  pub sound : IsSound r.book
  pub accounted : filled_size r.fills + r.remaining_atoms ≡ order.size_atoms
  pub consumed : Consumes order.side (opposite book order.side) r.fills (opposite r.book order.side)
  pub within : All (IsWithin order.side order.price_ticks) r.fills

opposite-after_match :
    (book : Book) (side : OrderSide) (m : Match)
    → opposite (after_match book side m) side ≡ m.resting
opposite-after_match book buy m = refl
opposite-after_match book sell m = refl

opposite-rest_on :
    (book : Book) (side : OrderSide) (rest : RestingOrder)
    → opposite (rest_on side book rest) side ≡ opposite book side
unfolding rest_on
opposite-rest_on book buy rest = refl
opposite-rest_on book sell rest = refl

refuse-Executed :
    (book : Book) (order : NewOrder) (reason : String)
    → IsSound book
    → Executed book order (refuse book order reason)
refuse-Executed book order reason h = record {
  sound = h;
  accounted = omega arith;
  consumed = stop;
  within = tt;
}

module _ (book : Book) (order : NewOrder) (m : Match) (h : IsSound book)
    (pos : 0 < order.price_ticks)
    (end : LoopEnd order.side order.price_ticks order.size_atoms (opposite book order.side) m) where
  report-Executed :
      (status : Status) (reason : Option String)
      → Executed book order (report book order m status reason)
  report-Executed status reason = record {
    sound = after_match-IsSound book order.side order.price_ticks order.size_atoms m h end.inv;
    accounted = end.inv.accounted;
    consumed = rw (opposite-after_match book order.side m) end.inv.consumed;
    within = end.inv.within;
  }

  opened-Executed :
      0 < m.remaining
      → m.blocked_by_dust ≡ false
      → meets_minimum_quote_settlement m.remaining order.price_ticks ≡ true
      → Executed book order (opened book order m)
  unfolding rest_order
  opened-Executed some_left clear large = record {
    sound =
        rest_on-IsSound (after_match book order.side m) order.side rest order.size_atoms
          (opposite book order.side) refl refl (report-Executed open_ none).sound
          (record {
            priced = pos;
            sized = ground (arith, meets_minimum-least_size m.remaining order.price_ticks pos);
          })
          (rw (opposite-after_match book order.side m) apart);
    accounted = end.inv.accounted;
    consumed =
        rw
          (
            opposite-rest_on (after_match book order.side m) order.side rest,
            opposite-after_match book order.side m,
          )
          end.inv.consumed;
    within = end.inv.within;
  }
    where
      rest : RestingOrder
      rest = resting_order (after_match book order.side m) order m.remaining

      ending :
          (m.remaining ≡ 0)
            ⊎ (m.blocked_by_dust ≡ true)
            ⊎ HeadApart order.side order.price_ticks order.size_atoms
                (opposite book order.side)
                m.resting
          → HeadApart order.side order.price_ticks order.size_atoms
              (opposite book order.side)
              m.resting
      ending (inl z) = absurd (omega arith)
      ending (inr (inl d)) = absurd (cc)
      ending (inr (inr a)) = a

      apart :
          HeadApart order.side order.price_ticks order.size_atoms
            (opposite book order.side)
            m.resting
      apart = ending end.ended

-- The four ways in which a match is settled.
pub settle_match_cases :
    (P : SubmitResult → Type 0) (book : Book) (order : NewOrder) (m : Match)
    → (m.remaining ≡ 0 → P (report book order m filled none))
    → ((reason : Option String) → 0 < m.remaining → P (report book order m cancelled reason))
    → (0 < m.remaining
        → is_ioc order.tif ≡ false
        → m.blocked_by_dust ≡ false
        → meets_minimum_quote_settlement m.remaining order.price_ticks ≡ true
        → P (opened book order m))
    → P (settle_match book order m)
unfolding settle_match
settle_match_cases P book order m done left rests = elim (Bool-cases (m.remaining == 0)) [
  | inl z ↦ simp z (done (ground arith))
  | inr z ↦ simp z (elim (Bool-cases (is_ioc order.tif)) [
    | inl i ↦ simp i (left none (ground arith))
    | inr i ↦ simp i (elim (Bool-cases m.blocked_by_dust) [
      | inl d ↦ simp d (left _ (ground arith))
      | inr d ↦
          simp d (elim (Bool-cases (meets_minimum_quote_settlement m.remaining order.price_ticks)) [
            | inl s ↦ simp s (rests (ground arith) i d s)
            | inr s ↦ simp s (left _ (ground arith))
          ])
    ])
  ])
]

-- The tests that an order must pass before it is matched: it is in time, its size and price are
-- positive, and it settles to at least one quote atom.
abbrev pub is_admissible : NewOrder → Bool
is_admissible order =
    not (order_expired order.expiry_unix order.now_unix)
    && not (order.size_atoms == 0 || order.price_ticks == 0)
    && meets_minimum_quote_settlement order.size_atoms order.price_ticks

-- The outcomes of a submission: a refusal, of an order that is not admitted or is fill-or-kill, or a match that is settled. A fill-or-kill order that
-- is settled has nothing left.
pub submit_order_cases :
    (P : SubmitResult → Type 0) (book : Book) (order : NewOrder)
    → IsSound book
    → ((reason : String)
        → (is_admissible order && not (is_fok order.tif)) ≡ false
        → P (refuse book order reason))
    → ((m : Match)
        → is_admissible order ≡ true
        → 0 < order.price_ticks
        → LoopEnd order.side order.price_ticks order.size_atoms (opposite book order.side) m
        → (is_fok order.tif && ltb 0 m.remaining) ≡ false
        → P (settle_match book order m))
    → Returns P (submit_order book order)
unfolding submit_order match_order
submit_order_cases P book order h refused settled =
    elim (Bool-cases (order_expired order.expiry_unix order.now_unix)) [
      | inl e ↦ simp e (refused _ (ground arith))
      | inr e ↦ simp e (elim (Bool-cases (order.size_atoms == 0 || order.price_ticks == 0)) [
        | inl z ↦ simp z (refused _ (ground arith))
        | inr z ↦
            simp z
              (elim (Bool-cases
                (meets_minimum_quote_settlement order.size_atoms order.price_ticks)) [
                  | inr s ↦ simp s (refused _ (ground arith))
                  | inl s ↦
                      let (m, e', end) = matched in
                      simp s (
                        rw e' (elim (Bool-cases (is_fok order.tif && ltb 0 m.remaining)) [
                          | inl k ↦ simp k (refused _ (ground arith))
                          | inr k ↦ simp k (settled m (ground arith) (ground arith) end k)
                        ]))
                ])
      ])
    ]
  where
    matched :
        (m : Match) × (match_against book order.side order.price_ticks order.size_atoms ≡ ok m)
        × LoopEnd order.side order.price_ticks order.size_atoms (opposite book order.side) m
    matched =
        Returns-ok _ (match_against-LoopEnd book order.side order.price_ticks order.size_atoms h)

-- Submitting an order to a sound book never throws and never runs out of fuel. The book it leaves
-- is sound again; the fills and the remainder add up to the size of the order; the fills take the
-- opposite side from its front, in price-time order, and leave the rest of it as it was; every fill
-- is at a price inside the order's limit and settles to at least one quote atom.
pub submit_order-Executed :
    (book : Book) (order : NewOrder)
    → IsSound book
    → Returns (Executed book order) (submit_order book order)
submit_order-Executed book order h =
    submit_order_cases (Executed book order) book order h
      (λ reason _. refuse-Executed book order reason h)
      λ m _ pos end k.
        settle_match_cases (Executed book order) book order m
          (λ z. report-Executed book order m h pos end filled none)
          (λ reason z. report-Executed book order m h pos end cancelled reason)
          (λ z i d s. opened-Executed book order m h pos end z d s)
