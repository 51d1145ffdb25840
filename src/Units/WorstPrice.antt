-- ===== src/Units/WorstPrice.antt =====
-- src/lib/units.ts: the signed worst price of a market order.
use phlebas.Base.{ℕ, ◌+◌, ◌-◌, ◌*◌, ◌≤◌, ◌<◌, arith, Returns, Yields}
use phlebas.Units.{buy, sell, worst_price_ticks}

-- A buy's worst price is the last price raised by the slippage, rounded up to whole ticks: at
-- least the last price, at least the exact bound, and less than one tick above it.
pub worst_price_ticks-buy :
    (last slippage : ℕ)
    → 0 < last
    → slippage < 10000
    → Returns
        (λ w.
          (last ≤ w)
          × (last * (10000 + slippage) ≤ w * 10000)
          × (w * 10000 < last * (10000 + slippage) + 10000))
        (worst_price_ticks last buy slippage)
unfolding worst_price_ticks
worst_price_ticks-buy last slippage h k = ground arith

scaled_le : (a b : ℕ) → b ≤ 10000 → a * b ≤ a * 10000
scaled_le a b h = grind arith

-- A sell's worst price, where it is returned, is positive, at most the last price, and the exact
-- bound rounded down to whole ticks; it is returned whenever the exact bound reaches one tick.
pub worst_price_ticks-sell :
    (last slippage : ℕ)
    → 0 < last
    → slippage < 10000
    → Yields
        (λ w.
          (0 < w)
          × (w ≤ last)
          × (w * 10000 ≤ last * (10000 - slippage))
          × (last * (10000 - slippage) < (w + 1) * 10000))
        (worst_price_ticks last sell slippage)
      × (10000 ≤ last * (10000 - slippage)
          → Returns (λ w. 0 < w) (worst_price_ticks last sell slippage))
unfolding worst_price_ticks
worst_price_ticks-sell last slippage h k = ground (arith, scaled_le last (10000 - slippage))
