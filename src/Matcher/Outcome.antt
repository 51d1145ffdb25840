-- ===== src/Matcher/Outcome.antt =====
-- The four statuses that `submitOrder` of src/lib/matcher.ts reports.
use mathlib.Core.List.{Perm}
use phlebas.Base.{
  ℕ, ◌+◌, ◌<◌, ◌≡◌, refl, ap, subst, ◌∙◌, ◌≢◌, false, true, not, ◌&&◌, List, [], ◌∷◌, ◌++◌, arith,
  Returns, ltb,
}
use phlebas.Base.Sort.{sort-perm}
use phlebas.Units.{OrderSide, buy, sell}
use phlebas.Matcher.Invariant.{IsSound}
use phlebas.Matcher.Sides.{side_le}
use phlebas.Matcher.Submit.{is_admissible, submit_order_cases, settle_match_cases}
use phlebas.Matcher.{
  TimeInForce, gtc, ioc, fok, RestingOrder, Book, NewOrder, Match, SubmitResult, Status, open_,
  filled, cancelled, rejected, after_match, rest_order, is_fok, is_ioc, resting_order, rest_on,
  submit_order, opened,
}

-- The side of the book that an order of this side rests on.
abbrev pub own : Book → OrderSide → List RestingOrder
own book buy = book.bids
own book sell = book.asks

-- What each status says of the result.
abbrev pub Means : Book → NewOrder → SubmitResult → Status → Type 0
Means book order r filled =
    (is_admissible order ≡ true)
    × (r.remaining_atoms ≡ 0)
    × (own r.book order.side ≡ own book order.side)
Means book order r cancelled =
    (is_admissible order ≡ true)
    × (0 < r.remaining_atoms)
    × (order.tif ≢ fok)
    × (own r.book order.side ≡ own book order.side)
Means book order r open_ =
    (is_admissible order ≡ true)
    × (0 < r.remaining_atoms)
    × (order.tif ≡ gtc)
    × (r.book.seq ≡ book.seq + 1)
    × Perm (own r.book order.side)
        (own book order.side ++ resting_order book order r.remaining_atoms ∷ [])
Means book order r rejected =
    ((is_admissible order && not (is_fok order.tif)) ≡ false)
    × (r.book ≡ book)
    × (r.fills ≡ [])
    × (r.remaining_atoms ≡ order.size_atoms)

own-after_match :
    (book : Book) (side : OrderSide) (m : Match)
    → own (after_match book side m) side ≡ own book side
own-after_match book buy m = refl
own-after_match book sell m = refl

seq-after_match :
    (book : Book) (side : OrderSide) (m : Match) → (after_match book side m).seq ≡ book.seq
seq-after_match book buy m = refl
seq-after_match book sell m = refl

resting_order-after_match :
    (book : Book) (order : NewOrder) (side : OrderSide) (m : Match) (n : ℕ)
    → resting_order (after_match book side m) order n ≡ resting_order book order n
resting_order-after_match book order buy m n = refl
resting_order-after_match book order sell m n = refl

own-rest_on :
    (book : Book) (side : OrderSide) (rest : RestingOrder)
    → ((rest_on side book rest).seq ≡ book.seq + 1)
      × Perm (own (rest_on side book rest) side) (own book side ++ rest ∷ [])
unfolding rest_on
own-rest_on book buy rest = (refl, sort-perm (side_le buy) (book.bids ++ rest ∷ []))
own-rest_on book sell rest = (refl, sort-perm (side_le sell) (book.asks ++ rest ∷ []))

is_gtc : (t : TimeInForce) → is_fok t ≡ false → is_ioc t ≡ false → t ≡ gtc
is_gtc gtc _ _ = refl
is_gtc ioc _ i = cc
is_gtc fok f _ = cc

not_fok : (t : TimeInForce) (n : ℕ) → 0 < n → (is_fok t && ltb 0 n) ≡ false → is_fok t ≡ false
not_fok t n h e = ground arith

fok_ne : (t : TimeInForce) → is_fok t ≡ false → t ≢ fok
fok_ne gtc e f = cc
fok_ne ioc e f = cc
fok_ne fok e f = cc

opened-Means :
    (book : Book) (order : NewOrder) (m : Match)
    → is_admissible order ≡ true
    → 0 < m.remaining
    → is_fok order.tif ≡ false
    → is_ioc order.tif ≡ false
    → Means book order (opened book order m) open_
unfolding rest_order
opened-Means book order m a some_left k i = (
  a,
  some_left,
  is_gtc order.tif k i,
  placed.0 ∙ ap (λ n. n + 1) (seq-after_match book order.side m),
  subst (λ r. Perm (own after order.side) (own book order.side ++ r ∷ []))
      (resting_order-after_match book order order.side m m.remaining)
      (subst (λ l. Perm (own after order.side) (l ++ rest ∷ [])) (own-after_match book order.side m)
        placed.1),
)
  where
    rest : RestingOrder
    rest = resting_order (after_match book order.side m) order m.remaining

    after : Book
    after = rest_on order.side (after_match book order.side m) rest

    placed :
        (after.seq ≡ (after_match book order.side m).seq + 1)
        × Perm (own after order.side) (own (after_match book order.side m) order.side ++ rest ∷ [])
    placed = own-rest_on (after_match book order.side m) order.side rest

-- On a sound book the status says what was done. Only an order that is not admissible (it is out of
-- time, its size or its price is zero, or it does not settle to a quote atom) or that is
-- fill-or-kill is `rejected`, and that leaves the book as it was, with no fill and all of the order
-- remaining; the other statuses are of admissible orders. Of an order that is reported `filled`
-- nothing remains, and its own side of the book is as it was. Only a good-till-cancelled order is
-- left `open`, and what remains of it, which is not nothing, is under the next sequence number the
-- one change to its own side of the book. Of a `cancelled` order something remains, its own side is
-- as it was, and it is not a fill-or-kill order.
pub submit_order-Means :
    (book : Book) (order : NewOrder)
    → IsSound book
    → Returns (λ r. Means book order r r.status) (submit_order book order)
submit_order-Means book order h =
    submit_order_cases (λ r. Means book order r r.status) book order h
      (λ reason refused. (refused, refl, refl, refl))
      λ m a pos end k.
        settle_match_cases (λ r. Means book order r r.status) book order m
          (λ z. (a, z, own-after_match book order.side m))
          (λ reason z. (
            a,
            z,
            fok_ne order.tif (not_fok order.tif m.remaining z k),
            own-after_match book order.side m,
          ))
          (λ z i d s. opened-Means book order m a z (not_fok order.tif m.remaining z k) i)
