-- ===== src/PriceTime/Fills.antt =====
-- The loop of src/lib/price-time.ts that fills a taker from the orders before it.
use phlebas.Base.{
  ℕ, ◌+◌, ◌-◌, ◌≡◌, ◌≤◌, ◌<◌, true, false, List, [], ◌∷◌, ltb, ◌==◌, arith, All, sum_of, Bool-cases,
  inl, inr,
}
use phlebas.OrderDomain.{Text}
use phlebas.PriceTime.{SequencedOrder, PlannedFill, fill_against, fill_orders}

-- The fills go to the first orders of the queue, at their own prices, and all but the last of
-- them take the whole of their order.
pub data Served (taker_hash : Text) : List SequencedOrder → List PlannedFill → Type 0 where
  unserved : (makers : List SequencedOrder) → Served taker_hash makers []
  last :
      (maker : SequencedOrder) (makers : List SequencedOrder) (amount : ℕ)
      → 0 < amount
      → amount ≤ maker.remaining_base_atoms
      → Served taker_hash (maker ∷ makers) (fill_against taker_hash maker amount ∷ [])
  whole :
      (maker : SequencedOrder) (makers : List SequencedOrder) (fills : List PlannedFill)
      → Served taker_hash makers fills
      → Served taker_hash
          (maker ∷ makers)
          (fill_against taker_hash maker maker.remaining_base_atoms ∷ fills)

abbrev pub Open : SequencedOrder → Type 0
Open maker = 0 < maker.remaining_base_atoms

-- All that the orders offer.
abbrev pub depth : List SequencedOrder → ℕ
depth makers = sum_of (λ m. m.remaining_base_atoms) makers

abbrev pub filled_atoms : List PlannedFill → ℕ
filled_atoms fills = sum_of (λ f. f.base_amount_atoms) fills

-- The loop fills what the orders offer, up to what the taker asks.
abbrev pub Filled : Text → ℕ → List SequencedOrder → List PlannedFill × ℕ → Type 0
Filled hash remaining makers out =
    Served hash makers out.0
    × (filled_atoms out.0 + out.1 ≡ remaining)
    × (out.1 ≡ remaining - depth makers)

-- For a positive amount and orders with amounts left, the loop fills from the front of the queue,
-- all orders but the last in full; the fills and what remains add up to the amount asked, and what
-- remains is the excess of that amount over all that the queue offers.
pub fill_orders-Filled :
    (hash : Text) (remaining : ℕ) (makers : List SequencedOrder)
    → 0 < remaining
    → All Open makers
    → Filled hash remaining makers (fill_orders hash remaining makers)
unfolding fill_orders
fill_orders-Filled hash remaining [] p opens = (unserved [], omega arith, omega arith)
fill_orders-Filled hash remaining (m ∷ ms) p opens =
    elim (Bool-cases (ltb m.remaining_base_atoms remaining)) [
      | inl e ↦
          let (served, total, left) =
            fill_orders-Filled hash (remaining - m.remaining_base_atoms) ms (ground arith)
              opens.1 in
          let more : (remaining - m.remaining_base_atoms == 0) ≡ false = ground arith in
          simp (e, more) (whole m ms _ served, ground arith, ground arith)
      | inr e ↦
          let none_left : (remaining - remaining == 0) ≡ true = ground arith in
          simp (e, none_left) (last m ms remaining p (ground arith), ground arith, ground arith)
    ]
