-- ===== src/Matcher/Examples.antt =====
-- Tests of src/lib/matcher.ts, and its theorems at concrete inputs.
use phlebas.Base.{ℕ, ◌+◌, ◌≡◌, refl, List, [], ◌∷◌, some, ok, Returns, arith}
use phlebas.Units.{OrderSide, buy, sell}
use phlebas.Matcher.{
  TimeInForce, gtc, ioc, Book, NewOrder, cancelled, submit_order, empty_book, RestingOrder,
  expire_resting_orders,
}
use phlebas.Units.Minimum.{least_size}
use phlebas.Matcher.Consume.{liquidity}
use phlebas.Matcher.Invariant.{IsSound}
use phlebas.Matcher.Submit.{Executed, submit_order-Executed}
use phlebas.Matcher.Outcome.{Means, submit_order-Means}
use phlebas.Matcher.Runs.{
  Call, submits, cancels, expires, run, run-empty_book, Expired, expire_resting_orders-splits,
  book_liquidity,
}

abbrev limit_order : OrderSide → TimeInForce → ℕ → ℕ → NewOrder
limit_order side tif price size = record {
  id = "a";
  side = side;
  tif = tif;
  price_ticks = price;
  size_atoms = size;
  expiry_unix = some 90;
  now_unix = some 10;
}

abbrev ask : RestingOrder
ask = record {
  id = "maker";
  side = sell;
  price_ticks = 100;
  remaining_atoms = 250;
  seq = 1;
  expiry_unix = some 50;
}

abbrev one_ask : Book
one_ask = record { bids = []; asks = ask ∷ []; seq = 1; last_ticks = 99 }

one_ask-IsSound : IsSound one_ask
unfolding least_size
one_ask-IsSound = record {
  bids = omega arith;
  asks = record {
    sided = (refl, tt);
    settleable = (omega arith, tt);
    ordered = (tt, tt);
    distinct = (tt, tt);
    counted = omega arith;
  };
  uncrossed = tt;
}

-- 180 of 250 would leave 70, less than the 100 that settle at a price of 100: 150 are traded, and
-- the 30 that are left are blocked.
dust_is_avoided :
    submit_order one_ask (limit_order buy gtc 100 180)
    ≡ ok (record {
      book = record one_ask { asks = record ask { remaining_atoms = 100 } ∷ []; last_ticks = 100 };
      fills =
          record { maker_id = "maker"; taker_side = buy; price_ticks = 100; size_atoms = 150 } ∷ [];
      remaining_atoms = 30;
      status = cancelled;
      reason = some "Dust-blocked crossed remainder was cancelled";
    })
unfolding submit_order
dust_is_avoided = refl

submit_order-Executed_example :
    Returns
      (Executed one_ask (limit_order buy gtc 101 600))
      (submit_order one_ask (limit_order buy gtc 101 600))
submit_order-Executed_example =
    submit_order-Executed one_ask (limit_order buy gtc 101 600) one_ask-IsSound

submit_order-Means_example :
    Returns
      (λ r. Means one_ask (limit_order sell gtc 101 600) r r.status)
      (submit_order one_ask (limit_order sell gtc 101 600))
submit_order-Means_example =
    submit_order-Means one_ask (limit_order sell gtc 101 600) one_ask-IsSound

abbrev history : List Call
history =
    submits (limit_order sell gtc 100 250)
    ∷ submits (limit_order buy ioc 120 150)
    ∷ expires 95
    ∷ cancels "a"
    ∷ []

run-empty_book_example : Returns IsSound (run (empty_book 99) history)
run-empty_book_example = run-empty_book 99 history

expire_resting_orders-splits_example :
    let (kept, expired) = expire_resting_orders one_ask 60 in
    (book_liquidity kept + liquidity expired ≡ book_liquidity one_ask)
    × Expired one_ask kept expired 60
expire_resting_orders-splits_example = expire_resting_orders-splits one_ask 60
