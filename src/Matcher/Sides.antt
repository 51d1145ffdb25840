-- ===== src/Matcher/Sides.antt =====
-- One side of the book in src/lib/matcher.ts: what holds of it, and what keeps it so.
use phlebas.Base.{
  ℕ, ◌+◌, ◌≤◌, ◌<◌, ◌≡◌, sym, ◌≢◌, ◌⊎◌, Bool, true, false, List, [], ◌∷◌, ◌++◌, arith, All,
  All-append, All-mono, All-keep_if, Ordered, Ordered-keep_if, Ordered-snoc, keep_if,
}
use phlebas.Base.Sort.{sort, sort-All, sort-Ordered, sort-Ordered_sym}
use phlebas.Units.{OrderSide, buy, sell}
use phlebas.Matcher.Consume.{Consumes, reduce, Consumes-All, Consumes-Ordered}
use phlebas.Matcher.Loop.{IsSettleable}
use phlebas.Matcher.{RestingOrder, Fill, bid_le, ask_le}

-- Price-time priority: the better price first, at one price the earlier sequence.
abbrev pub Before : OrderSide → RestingOrder → RestingOrder → Type 0
Before buy x y =
    (y.price_ticks < x.price_ticks) ⊎ ((x.price_ticks ≡ y.price_ticks) × (x.seq < y.seq))
Before sell x y =
    (x.price_ticks < y.price_ticks) ⊎ ((x.price_ticks ≡ y.price_ticks) × (x.seq < y.seq))

abbrev pub Differs : RestingOrder → RestingOrder → Type 0
Differs x y = x.seq ≢ y.seq

abbrev pub side_le : OrderSide → RestingOrder → RestingOrder → Bool
side_le buy = bid_le
side_le sell = ask_le

pub record SideInv (side : OrderSide) (seq : ℕ) (orders : List RestingOrder) : Type 0 where
  pub sided : All (λ o. o.side ≡ side) orders
  pub settleable : All IsSettleable orders
  pub ordered : Ordered (Before side) orders
  pub distinct : Ordered Differs orders
  pub counted : All (λ o. o.seq ≤ seq) orders

Before-trans :
    (side : OrderSide) (x y z : RestingOrder) → Before side x y → Before side y z → Before side x z
Before-trans buy x y z h k = ground arith
Before-trans sell x y z h k = ground arith

side_le-true :
    (side : OrderSide) (x y : RestingOrder)
    → Differs x y
    → side_le side x y ≡ true
    → Before side x y
unfolding bid_le ask_le
side_le-true buy x y d h = ground arith
side_le-true sell x y d h = ground arith

side_le-false :
    (side : OrderSide) (x y : RestingOrder)
    → Differs x y
    → side_le side x y ≡ false
    → Before side y x
unfolding bid_le ask_le
side_le-false buy x y d h = ground arith
side_le-false sell x y d h = ground arith

Before-reduce :
    (side : OrderSide) (x y : RestingOrder) (t : ℕ) → Before side x y → Before side (reduce x t) y
Before-reduce buy x y t h = h
Before-reduce sell x y t h = h

-- A new order with the next sequence number takes its place.
pub sort-SideInv :
    (side : OrderSide) (seq : ℕ) (orders : List RestingOrder) (o : RestingOrder)
    → SideInv side seq orders
    → o.side ≡ side
    → IsSettleable o
    → o.seq ≡ seq + 1
    → SideInv side (seq + 1) (sort (side_le side) (orders ++ o ∷ []))
sort-SideInv side seq orders o h s w e = record {
  sided = all (λ x. x.side ≡ side) h.sided s;
  settleable = all IsSettleable h.settleable w;
  ordered =
      sort-Ordered (side_le side) (Before side) Differs (Before-trans side) (side_le-true side)
        (side_le-false side) (orders ++ o ∷ []) distinct;
  distinct =
      sort-Ordered_sym (side_le side) Differs (λ x y d e'. d (sym e')) (orders ++ o ∷ []) distinct;
  counted =
      all (λ x. x.seq ≤ seq + 1) (All-mono (λ x p. omega arith) orders h.counted) (omega arith);
}
  where
    all :
        (P : RestingOrder → Type 0)
        → All P orders
        → P o
        → All P (sort (side_le side) (orders ++ o ∷ []))
    all P hs p =
        sort-All (side_le side) P (orders ++ o ∷ []) (All-append P orders (o ∷ []) hs (p, tt))

    distinct : Ordered Differs (orders ++ o ∷ [])
    distinct =
        Ordered-snoc Differs orders o h.distinct (All-mono (λ x p q. omega arith) orders h.counted)

-- What the matching loop leaves of a side.
pub Consumes-SideInv :
    {side taker : OrderSide} {seq : ℕ} {xs ys : List RestingOrder} {fs : List Fill}
    → Consumes taker xs fs ys
    → All IsSettleable ys
    → SideInv side seq xs
    → SideInv side seq ys
Consumes-SideInv {side} {seq = seq} c w h = record {
  sided = Consumes-All (λ o. o.side ≡ side) (λ o t p. p) c h.sided;
  settleable = w;
  ordered = Consumes-Ordered (Before side) (Before-reduce side) c h.ordered;
  distinct = Consumes-Ordered Differs (λ x y t p. p) c h.distinct;
  counted = Consumes-All (λ o. o.seq ≤ seq) (λ o t p. p) c h.counted;
}

pub keep_if-SideInv :
    (side : OrderSide) (seq : ℕ) (p : RestingOrder → Bool) (orders : List RestingOrder)
    → SideInv side seq orders
    → SideInv side seq (keep_if p orders)
keep_if-SideInv side seq p orders h = record {
  sided = All-keep_if (λ o. o.side ≡ side) p orders h.sided;
  settleable = All-keep_if IsSettleable p orders h.settleable;
  ordered = Ordered-keep_if (Before side) p orders h.ordered;
  distinct = Ordered-keep_if Differs p orders h.distinct;
  counted = All-keep_if (λ o. o.seq ≤ seq) p orders h.counted;
}

pub SideInv-suc :
    {side : OrderSide} {seq : ℕ} {orders : List RestingOrder}
    → SideInv side seq orders
    → SideInv side (seq + 1) orders
SideInv-suc {orders = orders} h = record {
  sided = h.sided;
  settleable = h.settleable;
  ordered = h.ordered;
  distinct = h.distinct;
  counted = All-mono (λ x p. omega arith) orders h.counted;
}
