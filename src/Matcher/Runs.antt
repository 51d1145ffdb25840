-- ===== src/Matcher/Runs.antt =====
-- Every history of calls to src/lib/matcher.ts, and what `cancelOrder` and `expireRestingOrders`
-- take off the book.
use phlebas.Base.{
  ℕ, ◌+◌, ◌≡◌, Bool, true, not, List, [], ◌∷◌, String, some, arith, All, All-append, Result, ok,
  Returns, Returns-ok, ◌>>=◌, keep_if, sum_of-append, ◌++◌, refl, inl, inr, Bool-cases,
}
use phlebas.Matcher.Consume.{liquidity}
use phlebas.Matcher.Invariant.{
  IsSound, empty_book-IsSound, cancel_order-IsSound, expire_resting_orders-IsSound,
}
use phlebas.Matcher.Submit.{submit_order-Executed}
use phlebas.Matcher.{
  Book, NewOrder, RestingOrder, submit_order, cancel_order, expire_resting_orders, empty_book,
  order_expired,
}

pub data Call : Type 0 where
  submits : NewOrder → Call
  cancels : String → Call
  expires : ℕ → Call

pub step : Book → Call → Result Book
step book (submits order) = submit_order book order >>= λ r. ok r.book
step book (cancels id) = ok (cancel_order book id)
step book (expires now) = ok (expire_resting_orders book now).0

pub run : Book → List Call → Result Book
run book [] = ok book
run book (c ∷ cs) = step book c >>= λ book'. run book' cs

step-IsSound : (book : Book) (c : Call) → IsSound book → Returns IsSound (step book c)
unfolding step
step-IsSound book (submits order) h =
    let (r, e, x) = Returns-ok (submit_order book order) (submit_order-Executed book order h) in
    rw e x.sound
step-IsSound book (cancels id) h = cancel_order-IsSound book id h
step-IsSound book (expires now) h = expire_resting_orders-IsSound book now h

run-IsSound : (book : Book) (cs : List Call) → IsSound book → Returns IsSound (run book cs)
unfolding run
run-IsSound book [] h = h
run-IsSound book (c ∷ cs) h =
    let (book', e, h') = Returns-ok (step book c) (step-IsSound book c h) in
    rw e (run-IsSound book' cs h')

-- From the empty book any sequence of submissions, cancellations and expiries returns, and leaves a
-- sound book: both sides in strict price-time order, every order worth at least one quote atom, the
-- sequence numbers on a side distinct and not above the book's, and every bid below every ask.
pub run-empty_book :
    (last_ticks : ℕ) (cs : List Call) → Returns IsSound (run (empty_book last_ticks) cs)
run-empty_book last_ticks cs =
    run-IsSound (empty_book last_ticks) cs (empty_book-IsSound last_ticks)

abbrev pub book_liquidity : Book → ℕ
book_liquidity book = liquidity book.bids + liquidity book.asks

liquidity-split :
    (p : RestingOrder → Bool) (xs : List RestingOrder)
    → liquidity (keep_if (λ o. not (p o)) xs) + liquidity (keep_if p xs) ≡ liquidity xs
unfolding keep_if
liquidity-split p [] = omega arith
liquidity-split p (x ∷ xs) = ground (arith, liquidity-split p xs)

All-kept : (p : RestingOrder → Bool) (xs : List RestingOrder) → All (λ o. p o ≡ true) (keep_if p xs)
unfolding keep_if
All-kept p [] = tt
All-kept p (x ∷ xs) = ground (arith, All-kept p xs)

-- `whole` is `xs` and `ys`, each in its order, put together.
pub data Merge : List RestingOrder → List RestingOrder → List RestingOrder → Type 0 where
  merge_none : Merge [] [] []
  merge_left :
      (o : RestingOrder) (xs ys whole : List RestingOrder)
      → Merge xs ys whole
      → Merge (o ∷ xs) ys (o ∷ whole)
  merge_right :
      (o : RestingOrder) (xs ys whole : List RestingOrder)
      → Merge xs ys whole
      → Merge xs (o ∷ ys) (o ∷ whole)

Merge-keep_if :
    (p : RestingOrder → Bool) (xs : List RestingOrder)
    → Merge (keep_if (λ o. not (p o)) xs) (keep_if p xs) xs
unfolding keep_if
Merge-keep_if p [] = merge_none
Merge-keep_if p (x ∷ xs) = elim (Bool-cases (p x)) [
  | inl e ↦ simp e (merge_right x _ _ xs (Merge-keep_if p xs))
  | inr e ↦ simp e (merge_left x _ _ xs (Merge-keep_if p xs))
]

-- What expiry makes of a book at a time.
pub record Expired (book kept : Book) (expired : List RestingOrder) (now : ℕ) : Type 0 where
  pub bids : List RestingOrder
  pub asks : List RestingOrder
  pub returned : expired ≡ bids ++ asks
  pub bids_split : Merge kept.bids bids book.bids
  pub asks_split : Merge kept.asks asks book.asks
  pub stale : All (λ o. order_expired o.expiry_unix (some now) ≡ true) expired
  pub live_bids : All (λ o. not (order_expired o.expiry_unix (some now)) ≡ true) kept.bids
  pub live_asks : All (λ o. not (order_expired o.expiry_unix (some now)) ≡ true) kept.asks
  pub others : (kept.seq ≡ book.seq) × (kept.last_ticks ≡ book.last_ticks)

-- Expiry divides each side of a book, without changing the order or an order, into those that had
-- expired at that time and those that had not. The latter stay on their side, and the former are
-- returned, the bids first; nothing that the book offers is lost, and its sequence number and last
-- price stay.
pub expire_resting_orders-splits :
    (book : Book) (now : ℕ)
    → let (kept, expired) = expire_resting_orders book now in
      (book_liquidity kept + liquidity expired ≡ book_liquidity book)
      × Expired book kept expired now
unfolding expire_resting_orders
expire_resting_orders-splits book now = (
  omega (
    arith,
    sum_of-append (λ (o : RestingOrder). o.remaining_atoms) (keep_if stale book.bids)
        (keep_if stale book.asks),
    liquidity-split stale book.bids,
    liquidity-split stale book.asks,
  ),
  record {
    bids = keep_if stale book.bids;
    asks = keep_if stale book.asks;
    returned = refl;
    bids_split = Merge-keep_if stale book.bids;
    asks_split = Merge-keep_if stale book.asks;
    stale = All-append _ _ _ (All-kept stale book.bids) (All-kept stale book.asks);
    live_bids = All-kept _ book.bids;
    live_asks = All-kept _ book.asks;
    others = (refl, refl);
  },
)
  where
    stale : RestingOrder → Bool
    stale o = order_expired o.expiry_unix (some now)
