-- ===== src/Matcher/Invariant.antt =====
-- The book of src/lib/matcher.ts between two calls: each side in price-time order, every order
-- settleable, sequence numbers fresh, and no bid at or above an ask.
use phlebas.Base.{
  ℕ, suc, ◌+◌, ◌<◌, ◌≡◌, inl, Bool, List, [], ◌∷◌, ◌++◌, String, arith, All, All-append, All-mono,
  All-keep_if, Ordered, keep_if, Returns, length,
}
use phlebas.Base.Sort.{sort, sort-All}
use phlebas.Units.{OrderSide, buy, sell}
use phlebas.Matcher.Consume.{Consumes-All, stop}
use phlebas.Matcher.Loop.{IsSettleable, LoopInv, LoopEnd, HeadApart, match_loop-LoopEnd}
use phlebas.Matcher.Sides.{
  Before, SideInv, side_le, sort-SideInv, Consumes-SideInv, keep_if-SideInv, SideInv-suc,
}
use phlebas.Matcher.{
  RestingOrder, Book, Match, match_against, start_match, opposite, after_match, rest_on,
  cancel_order, expire_resting_orders, empty_book, prices_cross, sort_bids, sort_asks,
}

-- No bid reaches an ask.
abbrev pub IsUncrossed : List RestingOrder → List RestingOrder → Type 0
IsUncrossed bids asks = All (λ b. All (λ a. b.price_ticks < a.price_ticks) asks) bids

pub record IsSound (book : Book) : Type 0 where
  pub bids : SideInv buy book.seq book.bids
  pub asks : SideInv sell book.seq book.asks
  pub uncrossed : IsUncrossed book.bids book.asks

opposite-IsSettleable :
    (book : Book) (side : OrderSide) → IsSound book → All IsSettleable (opposite book side)
opposite-IsSettleable book buy h = h.asks.settleable
opposite-IsSettleable book sell h = h.bids.settleable

pub match_against-LoopEnd :
    (book : Book) (side : OrderSide) (limit size : ℕ)
    → IsSound book
    → Returns (LoopEnd side limit size (opposite book side)) (match_against book side limit size)
unfolding match_against
match_against-LoopEnd book side limit size h =
    match_loop-LoopEnd side limit size (opposite book side) (suc (length (opposite book side)))
      (start_match book side size)
      (record {
        settleable = opposite-IsSettleable book side h;
        consumed = stop;
        accounted = omega arith;
        within = tt;
      })
      (inl (omega arith))

pub after_match-IsSound :
    (book : Book) (side : OrderSide) (limit size : ℕ) (m : Match)
    → IsSound book
    → LoopInv side limit size (opposite book side) m
    → IsSound (after_match book side m)
after_match-IsSound book buy limit size m h inv = record {
  bids = h.bids;
  asks = Consumes-SideInv inv.consumed inv.settleable h.asks;
  uncrossed =
      All-mono (λ b. Consumes-All (λ a. b.price_ticks < a.price_ticks) (λ o t p. p) inv.consumed)
        book.bids h.uncrossed;
}
after_match-IsSound book sell limit size m h inv = record {
  bids = Consumes-SideInv inv.consumed inv.settleable h.bids;
  asks = h.asks;
  uncrossed =
      Consumes-All (λ b. All (λ a. b.price_ticks < a.price_ticks) book.asks) (λ o t p. p)
        inv.consumed h.uncrossed;
}

-- If the first order of a side is out of reach, so are all that follow it.
All-apart-buy :
    (limit size : ℕ) (start xs : List RestingOrder)
    → HeadApart buy limit size start xs
    → Ordered (Before sell) xs
    → All (λ a. limit < a.price_ticks) xs
unfolding prices_cross
All-apart-buy limit size start [] h o = tt
All-apart-buy limit size start (x ∷ xs) h o = (ground arith, All-mono (λ a p. ground arith) xs o.0)

All-apart-sell :
    (limit size : ℕ) (start xs : List RestingOrder)
    → HeadApart sell limit size start xs
    → Ordered (Before buy) xs
    → All (λ b. b.price_ticks < limit) xs
unfolding prices_cross
All-apart-sell limit size start [] h o = tt
All-apart-sell limit size start (x ∷ xs) h o = (ground arith, All-mono (λ a p. ground arith) xs o.0)

IsUncrossed-sort_bids :
    (bids asks : List RestingOrder) (o : RestingOrder)
    → IsUncrossed bids asks
    → All (λ a. o.price_ticks < a.price_ticks) asks
    → IsUncrossed (sort (side_le buy) (bids ++ o ∷ [])) asks
IsUncrossed-sort_bids bids asks o h k =
    sort-All (side_le buy) (λ b. All (λ a. b.price_ticks < a.price_ticks) asks) (bids ++ o ∷ [])
      (All-append (λ b. All (λ a. b.price_ticks < a.price_ticks) asks) bids (o ∷ []) h (k, tt))

IsUncrossed-sort_asks :
    (bids asks : List RestingOrder) (o : RestingOrder)
    → IsUncrossed bids asks
    → All (λ b. b.price_ticks < o.price_ticks) bids
    → IsUncrossed bids (sort (side_le sell) (asks ++ o ∷ []))
IsUncrossed-sort_asks [] asks o h k = tt
IsUncrossed-sort_asks (b ∷ bids) asks o h k = (
  sort-All (side_le sell) (λ a. b.price_ticks < a.price_ticks) (asks ++ o ∷ [])
      (All-append (λ a. b.price_ticks < a.price_ticks) asks (o ∷ []) h.0 (k.0, tt)),
  IsUncrossed-sort_asks bids asks o h.1 k.1,
)

-- An order that is worth settling, and that no order opposite crosses, may rest.
pub rest_on-IsSound :
    (book : Book) (side : OrderSide) (o : RestingOrder) (size : ℕ) (start : List RestingOrder)
    → o.side ≡ side
    → o.seq ≡ book.seq + 1
    → IsSound book
    → IsSettleable o
    → HeadApart side o.price_ticks size start (opposite book side)
    → IsSound (rest_on side book o)
unfolding rest_on sort_bids sort_asks
rest_on-IsSound book buy o size start e n h w apart = record {
  bids = sort-SideInv buy book.seq book.bids o h.bids e w n;
  asks = SideInv-suc h.asks;
  uncrossed =
      IsUncrossed-sort_bids book.bids book.asks o h.uncrossed
        (All-apart-buy o.price_ticks size start book.asks apart h.asks.ordered);
}
rest_on-IsSound book sell o size start e n h w apart = record {
  bids = SideInv-suc h.bids;
  asks = sort-SideInv sell book.seq book.asks o h.asks e w n;
  uncrossed =
      IsUncrossed-sort_asks book.bids book.asks o h.uncrossed
        (All-apart-sell o.price_ticks size start book.bids apart h.bids.ordered);
}

IsUncrossed-keep_if :
    (p q : RestingOrder → Bool) (bids asks : List RestingOrder)
    → IsUncrossed bids asks
    → IsUncrossed (keep_if p bids) (keep_if q asks)
IsUncrossed-keep_if p q bids asks h =
    All-keep_if (λ b. All (λ a. b.price_ticks < a.price_ticks) (keep_if q asks)) p bids
      (All-mono (λ b. All-keep_if (λ a. b.price_ticks < a.price_ticks) q asks) bids h)

keep_if-IsSound :
    (p q : RestingOrder → Bool) (book : Book)
    → IsSound book
    → IsSound (record book { bids = keep_if p book.bids; asks = keep_if q book.asks })
keep_if-IsSound p q book h = record {
  bids = keep_if-SideInv buy book.seq p book.bids h.bids;
  asks = keep_if-SideInv sell book.seq q book.asks h.asks;
  uncrossed = IsUncrossed-keep_if p q book.bids book.asks h.uncrossed;
}

pub empty_book-IsSound : (last_ticks : ℕ) → IsSound (empty_book last_ticks)
unfolding empty_book
empty_book-IsSound last_ticks = omega arith

pub cancel_order-IsSound :
    (book : Book) (id : String) → IsSound book → IsSound (cancel_order book id)
unfolding cancel_order
cancel_order-IsSound book id h = keep_if-IsSound _ _ book h

pub expire_resting_orders-IsSound :
    (book : Book) (now : ℕ) → IsSound book → IsSound (expire_resting_orders book now).0
unfolding expire_resting_orders
expire_resting_orders-IsSound book now h = keep_if-IsSound _ _ book h
