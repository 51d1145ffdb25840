-- ===== src/Units.antt =====
-- src/lib/units.ts: integer prices, sizes and quote amounts. A `bigint` here is a natural number:
-- the guards against a negative one never fire, and `<= 0n` reads `== 0`.
pub mod Rounding
pub mod Minimum
pub mod WorstPrice
mod Examples
use phlebas.Base.{
  ℕ, ◌+◌, ◌-◌, ◌*◌, ◌/◌, Bool, ◌&&◌, List, [], ◌∷◌, Result, ok, err, ltb, leb, ◌==◌, if◌then◌else◌,
}

-- sizeAtoms * priceTicks / quote_cost_divisor = quoteAtoms (6 decimals).
abbrev pub quote_cost_divisor : ℕ
quote_cost_divisor = 10000

pub data QuoteRounding : Type 0 where
  down up : QuoteRounding

pub data OrderSide : Type 0 where
  buy sell : OrderSide

unfoldable pub divide_quote_numerator : ℕ → QuoteRounding → ℕ
divide_quote_numerator n up =
    if ltb 0 n then (n - 1) / quote_cost_divisor + 1 else n / quote_cost_divisor
divide_quote_numerator n down = n / quote_cost_divisor

unfoldable pub quote_atoms_for_fill : ℕ → ℕ → QuoteRounding → ℕ
quote_atoms_for_fill size_atoms price_ticks rounding =
    divide_quote_numerator (size_atoms * price_ticks) rounding

pub record PricedSize : Type 0 where
  pub size_atoms : ℕ
  pub price_ticks : ℕ

-- The loop of `quoteAtomsForFills`.
unfoldable pub add_numerators : ℕ → List PricedSize → ℕ
add_numerators numerator [] = numerator
add_numerators numerator (fill ∷ fills) =
    add_numerators (numerator + fill.size_atoms * fill.price_ticks) fills

unfoldable pub quote_atoms_for_fills : List PricedSize → QuoteRounding → ℕ
unfolding add_numerators
quote_atoms_for_fills fills rounding = divide_quote_numerator (add_numerators 0 fills) rounding

unfoldable pub meets_minimum_quote_settlement : ℕ → ℕ → Bool
meets_minimum_quote_settlement size_atoms price_ticks =
    ltb 0 size_atoms && ltb 0 price_ticks && leb quote_cost_divisor (size_atoms * price_ticks)

unfoldable pub minimum_size_atoms_for_quote_settlement : ℕ → Result ℕ
minimum_size_atoms_for_quote_settlement price_ticks =
    if price_ticks == 0
    then err "Minimum settlement requires a positive price"
    else ok ((quote_cost_divisor - 1) / price_ticks + 1)

unfoldable pub size_atoms_for_quote : ℕ → ℕ → Result ℕ
size_atoms_for_quote quote_atoms price_ticks =
    if price_ticks == 0
    then err "Quote size requires a positive price"
    else ok (quote_atoms * quote_cost_divisor / price_ticks)

sell_worst_price : ℕ → Result ℕ
sell_worst_price ticks =
    if ticks == 0 then err "Worst price is outside the preview range" else ok ticks

unfoldable pub worst_price_ticks : ℕ → OrderSide → ℕ → Result ℕ
unfolding sell_worst_price
worst_price_ticks last_ticks side slippage_hundredths =
    if last_ticks == 0
    then err "Reference price must be positive"
    else if leb 10000 slippage_hundredths
    then err "Slippage must be between 0 and 100 percent"
    else elim side [
      | buy ↦ ok ((last_ticks * (10000 + slippage_hundredths) + 9999) / 10000)
      | sell ↦ sell_worst_price (last_ticks * (10000 - slippage_hundredths) / 10000)
    ]
