-- ===== src/Matcher.antt =====
-- src/lib/matcher.ts: the browser's price-time matcher. Sizes and prices are naturals, as in
-- Units; an order's `id` is a text, and an absent `expiryUnix` or `nowUnix` is `none`.
pub mod Consume
pub mod Loop
pub mod Sides
pub mod Invariant
pub mod Submit
pub mod Outcome
pub mod Runs
mod Examples
use phlebas.Base.{
  ℕ, zero, suc, ◌+◌, ◌-◌, Bool, true, false, not, ◌&&◌, ◌||◌, List, [], ◌∷◌, ◌++◌, Option, none,
  some, String, Result, ok, err, ◌>>=◌, ltb, leb, ◌==◌, ◌===◌, if◌then◌else◌, length, keep_if,
}
use phlebas.Base.Sort.{sort}
use phlebas.Units.{
  OrderSide, buy, sell, minimum_size_atoms_for_quote_settlement, meets_minimum_quote_settlement,
}

pub data TimeInForce : Type 0 where
  gtc ioc fok : TimeInForce

pub record RestingOrder : Type 0 where
  pub id : String
  pub side : OrderSide
  pub price_ticks : ℕ
  pub remaining_atoms : ℕ
  pub seq : ℕ
  pub expiry_unix : Option ℕ

pub record Fill : Type 0 where
  pub maker_id : String
  pub taker_side : OrderSide
  pub price_ticks : ℕ
  pub size_atoms : ℕ

pub record Book : Type 0 where
  pub bids : List RestingOrder
  pub asks : List RestingOrder
  pub seq : ℕ
  pub last_ticks : ℕ

pub data Status : Type 0 where
  open_ filled cancelled rejected : Status

pub record SubmitResult : Type 0 where
  pub book : Book
  pub fills : List Fill
  pub remaining_atoms : ℕ
  pub status : Status
  pub reason : Option String

pub record NewOrder : Type 0 where
  pub id : String
  pub side : OrderSide
  pub tif : TimeInForce
  pub price_ticks : ℕ
  pub size_atoms : ℕ
  pub expiry_unix : Option ℕ
  pub now_unix : Option ℕ

-- The comparator of `sortBids`, at most 0: dearer first, then the earlier sequence.
unfoldable pub bid_le : RestingOrder → RestingOrder → Bool
bid_le left right =
    if left.price_ticks == right.price_ticks
    then leb left.seq right.seq
    else ltb right.price_ticks left.price_ticks

-- The comparator of `sortAsks`, at most 0: cheaper first, then the earlier sequence.
unfoldable pub ask_le : RestingOrder → RestingOrder → Bool
ask_le left right =
    if left.price_ticks == right.price_ticks
    then leb left.seq right.seq
    else ltb left.price_ticks right.price_ticks

unfoldable pub sort_bids : List RestingOrder → List RestingOrder
unfolding sort bid_le
sort_bids orders = sort bid_le orders

unfoldable pub sort_asks : List RestingOrder → List RestingOrder
unfolding sort ask_le
sort_asks orders = sort ask_le orders

unfoldable pub prices_cross : OrderSide → ℕ → ℕ → Bool
prices_cross buy taker_ticks maker_ticks = leb maker_ticks taker_ticks
prices_cross sell taker_ticks maker_ticks = leb taker_ticks maker_ticks

-- The variables of the loop in `matchAgainst`: the resting side that it consumes, the fills so
-- far, the taker's remainder, the book's last price, and the dust flag.
pub record Match : Type 0 where
  pub resting : List RestingOrder
  pub fills : List Fill
  pub remaining : ℕ
  pub last_ticks : ℕ
  pub blocked_by_dust : Bool

-- One round of the loop: it leaves the loop, goes on, or throws.
pub data Round : Type 0 where
  leave next : Match → Round
  throws : String → Round

-- Line 82: the smaller of the two remainders.
unfoldable pub offered_atoms : ℕ → ℕ → ℕ
offered_atoms remaining maker_remaining =
    if ltb remaining maker_remaining then remaining else maker_remaining

-- Lines 88 to 92: the amount traded, so that no dust is left with the maker.
unfoldable pub avoid_dust : ℕ → ℕ → ℕ → ℕ
avoid_dust offered maker_remaining minimum =
    if ltb offered maker_remaining && ltb (maker_remaining - offered) minimum
    then maker_remaining - minimum
    else offered

-- Lines 97 to 106: the fill is recorded, and a maker with nothing left is shifted off.
unfoldable pub record_fill : OrderSide → Match → RestingOrder → List RestingOrder → ℕ → Match
record_fill side m maker rest traded = record {
  resting =
      if maker.remaining_atoms - traded == 0
      then rest
      else record maker { remaining_atoms = maker.remaining_atoms - traded } ∷ rest;
  fills =
      m.fills
      ++ record {
        maker_id = maker.id;
        taker_side = side;
        price_ticks = maker.price_ticks;
        size_atoms = traded;
      }
        ∷ [];
  remaining = m.remaining - traded;
  last_ticks = maker.price_ticks;
  blocked_by_dust = m.blocked_by_dust;
}

-- Lines 82 to 106, given the outcome of line 83.
unfoldable pub trade_maker : OrderSide → Match → RestingOrder → List RestingOrder → Result ℕ → Round
trade_maker side m maker rest (err e) = throws e
trade_maker side m maker rest (ok minimum) =
    let offered = offered_atoms m.remaining maker.remaining_atoms in
    let traded = avoid_dust offered maker.remaining_atoms minimum in
    if ltb offered minimum
    then leave (record m { blocked_by_dust = true })
    else if ltb traded minimum
    then leave (record m { blocked_by_dust = true })
    else next (record_fill side m maker rest traded)

unfoldable pub try_maker : OrderSide → ℕ → Match → List RestingOrder → Round
unfolding prices_cross
try_maker side limit m [] = leave m
try_maker side limit m (maker ∷ rest) =
    if prices_cross side limit maker.price_ticks
    then trade_maker side m maker rest (minimum_size_atoms_for_quote_settlement maker.price_ticks)
    else leave m

unfoldable pub match_round : OrderSide → ℕ → Match → Round
unfolding trade_maker record_fill offered_atoms avoid_dust try_maker
    minimum_size_atoms_for_quote_settlement
match_round side limit m = if m.remaining == 0 then leave m else try_maker side limit m m.resting

unfoldable pub match_loop : ℕ → OrderSide → ℕ → Match → Result Match
unfolding match_round
match_loop zero side limit m = err "out of fuel"
match_loop (suc fuel) side limit m = elim (match_round side limit m) [
  | leave m' ↦ ok m'
  | next m' ↦ match_loop fuel side limit m'
  | throws e ↦ err e
]

-- `side === "buy" ? book.asks : book.bids`.
abbrev pub opposite : Book → OrderSide → List RestingOrder
opposite book buy = book.asks
opposite book sell = book.bids

-- Lines 74 to 77.
abbrev pub start_match : Book → OrderSide → ℕ → Match
start_match book side size = record {
  resting = opposite book side;
  fills = [];
  remaining = size;
  last_ticks = book.last_ticks;
  blocked_by_dust = false;
}

-- Each round but the last two takes a maker off the list, so one more round than makers is enough.
unfoldable pub match_against : Book → OrderSide → ℕ → ℕ → Result Match
unfolding match_loop
match_against book side limit size =
    match_loop (suc (length (opposite book side))) side limit (start_match book side size)

unfoldable pub empty_book : ℕ → Book
empty_book last_ticks = record { bids = []; asks = []; seq = 0; last_ticks = last_ticks }

-- `expiryUnix ?? 0n`.
abbrev pub expiry_or_zero : Option ℕ → ℕ
expiry_or_zero none = 0
expiry_or_zero (some t) = t

unfoldable pub order_expired : Option ℕ → Option ℕ → Bool
order_expired expiry_unix none = false
order_expired expiry_unix (some now_unix) =
    ltb 0 (expiry_or_zero expiry_unix) && ltb (expiry_or_zero expiry_unix) now_unix

-- The book left, and the orders that expired, bids first.
unfoldable pub expire_resting_orders : Book → ℕ → Book × List RestingOrder
unfolding order_expired keep_if
expire_resting_orders book now_unix = (
  record book {
    bids = keep_if (λ o. not (order_expired o.expiry_unix (some now_unix))) book.bids;
    asks = keep_if (λ o. not (order_expired o.expiry_unix (some now_unix))) book.asks;
  },
  keep_if (λ o. order_expired o.expiry_unix (some now_unix)) book.bids
      ++ keep_if (λ o. order_expired o.expiry_unix (some now_unix)) book.asks,
)

-- The caller's book with the resting side and the last price that the loop left.
abbrev pub after_match : Book → OrderSide → Match → Book
after_match book buy m = record book { asks = m.resting; last_ticks = m.last_ticks }
after_match book sell m = record book { bids = m.resting; last_ticks = m.last_ticks }

-- Lines 196 to 203.
abbrev pub resting_order : Book → NewOrder → ℕ → RestingOrder
resting_order book order remaining = record {
  id = order.id;
  side = order.side;
  price_ticks = order.price_ticks;
  remaining_atoms = remaining;
  seq = book.seq + 1;
  expiry_unix = if ltb 0 (expiry_or_zero order.expiry_unix) then order.expiry_unix else none;
}

-- Lines 204 to 210, with the new sequence number.
unfoldable pub rest_on : OrderSide → Book → RestingOrder → Book
unfolding sort_bids sort_asks
rest_on buy book rest = record book {
  seq = book.seq + 1;
  bids = sort_bids (book.bids ++ rest ∷ []);
}
rest_on sell book rest = record book {
  seq = book.seq + 1;
  asks = sort_asks (book.asks ++ rest ∷ []);
}

-- Lines 195 to 210: the remainder joins its side of the book.
unfoldable pub rest_order : Book → NewOrder → ℕ → Book
unfolding rest_on
rest_order book order remaining = rest_on order.side book (resting_order book order remaining)

abbrev pub refuse : Book → NewOrder → String → SubmitResult
refuse book order reason = record {
  book = book;
  fills = [];
  remaining_atoms = order.size_atoms;
  status = rejected;
  reason = some reason;
}

abbrev pub is_fok : TimeInForce → Bool
is_fok fok = true
is_fok _ = false

abbrev pub is_ioc : TimeInForce → Bool
is_ioc ioc = true
is_ioc _ = false

abbrev pub report : Book → NewOrder → Match → Status → Option String → SubmitResult
report book order m status reason = record {
  book = after_match book order.side m;
  fills = m.fills;
  remaining_atoms = m.remaining;
  status = status;
  reason = reason;
}

abbrev pub opened : Book → NewOrder → Match → SubmitResult
opened book order m = record {
  book = rest_order (after_match book order.side m) order m.remaining;
  fills = m.fills;
  remaining_atoms = m.remaining;
  status = open_;
  reason = none;
}

-- What `submitOrder` returns once the match is made (lines 170 to 211).
unfoldable pub settle_match : Book → NewOrder → Match → SubmitResult
unfolding rest_order meets_minimum_quote_settlement
settle_match book order m =
    if m.remaining == 0
    then report book order m filled none
    else if is_ioc order.tif
    then report book order m cancelled none
    else if m.blocked_by_dust
    then report book order m cancelled (some "Dust-blocked crossed remainder was cancelled")
    else if not (meets_minimum_quote_settlement m.remaining order.price_ticks)
    then report book order m cancelled (some "Unsettleable remainder was cancelled")
    else opened book order m

-- Lines 163 to 211: a first match on a copy decides fill-or-kill, and the second one counts.
unfoldable pub match_order : Book → NewOrder → Result SubmitResult
unfolding match_against settle_match
match_order book order =
    match_against book order.side order.price_ticks order.size_atoms >>= λ preview.
    if is_fok order.tif && ltb 0 preview.remaining
    then ok (refuse book order "Fill-or-kill could not fill in full")
    else (match_against book order.side order.price_ticks order.size_atoms >>= λ matched.
        ok (settle_match book order matched))

unfoldable pub submit_order : Book → NewOrder → Result SubmitResult
unfolding order_expired meets_minimum_quote_settlement match_order
submit_order book order =
    if order_expired order.expiry_unix order.now_unix
    then ok (refuse book order "Order expiry has passed")
    else if order.size_atoms == 0 || order.price_ticks == 0
    then ok (refuse book order "Size and price must be positive")
    else if not (meets_minimum_quote_settlement order.size_atoms order.price_ticks)
    then ok (refuse book order "Order notional must settle to at least one quote atom")
    else match_order book order

unfoldable pub cancel_order : Book → String → Book
unfolding keep_if
cancel_order book order_id = record book {
  bids = keep_if (λ o. not (o.id === order_id)) book.bids;
  asks = keep_if (λ o. not (o.id === order_id)) book.asks;
}
