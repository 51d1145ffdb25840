-- ===== src/PriceTime/Priority.antt =====
-- `comparePriority` of src/lib/price-time.ts, and the sort that calls it.
use phlebas.Base.{
  ℕ, ◌≡◌, refl, ap, ◌∙◌, ◌≢◌, ◌⊎◌, inl, inr, ◌<◌, Bool, true, false, List, [], ◌∷◌, ok, ltb, ◌==◌,
  if◌then◌else◌, arith, All, Ordered, Bool-cases, Returns,
}
use phlebas.Base.Sort.{insert, sort, sort-perm, sort-All, sort-Ordered}
use mathlib.Core.List.{Perm}
use phlebas.OrderDomain.{Text}
use phlebas.PriceTime.{
  SequencedOrder, goes_first, insert_by_priority, sort_by_priority, filter_orders,
}
use phlebas.PriceTime.Eligible.{Eligible, Apart, filter_orders-Eligible}

-- Price-time priority for a taker of the side `side`: the better price first, the cheaper for a
-- buyer and the dearer for a seller, and the earlier order at one price.
abbrev pub Before : ℕ → SequencedOrder → SequencedOrder → Type 0
Before side x y =
    ((side ≡ 0) × (x.order.limit_price_ticks < y.order.limit_price_ticks))
    ⊎ ((side ≢ 0) × (y.order.limit_price_ticks < x.order.limit_price_ticks))
    ⊎ ((x.order.limit_price_ticks ≡ y.order.limit_price_ticks) × (x.sequence < y.sequence))

-- The comparator on orders that came in at different times.
abbrev before : ℕ → SequencedOrder → SequencedOrder → Bool
before side x y =
    if x.order.limit_price_ticks == y.order.limit_price_ticks
    then ltb x.sequence y.sequence
    else if side == 0
    then ltb x.order.limit_price_ticks y.order.limit_price_ticks
    else ltb y.order.limit_price_ticks x.order.limit_price_ticks

goes_first-before :
    (side : ℕ) (x y : SequencedOrder) → Apart x y → goes_first side x y ≡ ok (before side x y)
unfolding goes_first
goes_first-before side x y d = ground arith

before-true :
    (side : ℕ) (x y : SequencedOrder) → Apart x y → before side x y ≡ true → Before side x y
before-true side x y d h = ground arith

before-false :
    (side : ℕ) (x y : SequencedOrder) → Apart x y → before side x y ≡ false → Before side y x
before-false side x y d h = ground arith

Before-trans :
    (side : ℕ) (x y z : SequencedOrder) → Before side x y → Before side y z → Before side x z
Before-trans side x y z h k = ground arith

insert_first :
    (side : ℕ) (x y : SequencedOrder) (ys : List SequencedOrder)
    → goes_first side x y ≡ ok true
    → before side x y ≡ true
    → insert_by_priority side x (y ∷ ys) ≡ ok (insert (before side) x (y ∷ ys))
unfolding insert_by_priority insert
insert_first side x y ys g e = rw (g, insert_by_priority, e) refl

insert_later :
    (side : ℕ) (x y : SequencedOrder) (ys : List SequencedOrder)
    → goes_first side x y ≡ ok false
    → before side x y ≡ false
    → insert_by_priority side x ys ≡ ok (insert (before side) x ys)
    → insert_by_priority side x (y ∷ ys) ≡ ok (insert (before side) x (y ∷ ys))
unfolding insert_by_priority insert
insert_later side x y ys g e h = rw (g, insert_by_priority, e, h) refl

insert_by_priority-insert :
    (side : ℕ) (x : SequencedOrder) (ys : List SequencedOrder)
    → All (Apart x) ys
    → insert_by_priority side x ys ≡ ok (insert (before side) x ys)
unfolding insert_by_priority insert
insert_by_priority-insert side x [] d = refl
insert_by_priority-insert side x (y ∷ ys) d = elim (Bool-cases (before side x y)) [
  | inl e ↦ insert_first side x y ys (goes_first-before side x y d.0 ∙ ap ok e) e
  | inr e ↦
      insert_later side x y ys (goes_first-before side x y d.0 ∙ ap ok e) e
        (insert_by_priority-insert side x ys d.1)
]

sort_by_priority-sort :
    (side : ℕ) (xs : List SequencedOrder)
    → Ordered Apart xs
    → sort_by_priority side xs ≡ ok (sort (before side) xs)
unfolding sort_by_priority sort
sort_by_priority-sort side [] d = refl
sort_by_priority-sort side (x ∷ xs) d = rw (sort_by_priority-sort side xs d.1) (
    insert_by_priority-insert side x (sort (before side) xs)
      (sort-All (before side) (Apart x) xs d.0))

-- What the taker meets: the orders that the filter kept, all eligible, by strict priority.
pub record Queued (taker : SequencedOrder) (kept queue : List SequencedOrder) : Type 0 where
  pub same_orders : Perm queue kept
  pub eligible : All (Eligible taker) queue
  pub by_priority : Ordered (Before taker.order.side) queue

-- Whatever orders the filter lets through, the sort returns and never throws for a shared intake
-- sequence; it returns those orders, each of them eligible, in strict price-time priority.
pub sort_by_priority-Queued :
    (taker : SequencedOrder) (sequences : List ℕ) (hashes : List Text)
    (orders kept : List SequencedOrder)
    → filter_orders taker sequences hashes orders ≡ ok kept
    → Returns (Queued taker kept) (sort_by_priority taker.order.side kept)
sort_by_priority-Queued taker sequences hashes orders kept h =
    let (eligible, fresh, apart) = filter_orders-Eligible taker sequences hashes orders kept h in
    let side = taker.order.side in
    rw (sort_by_priority-sort side kept apart) (record {
      same_orders = sort-perm (before side) kept;
      eligible = sort-All (before side) (Eligible taker) kept eligible;
      by_priority =
          sort-Ordered (before side) (Before side) Apart (Before-trans side) (before-true side)
            (before-false side) kept apart;
    })
