-- ===== src/Units/Rounding.antt =====
-- src/lib/units.ts: what the two roundings of a quote amount promise.
use phlebas.Base.{
  ℕ, ◌+◌, ◌*◌, ◌/◌, ◌≤◌, ◌<◌, ◌≡◌, List, [], ◌∷◌, arith, Returns, sum_of, ◌==◌, Bool-cases, inl,
  inr,
}
use native.Mathlib.Nat.{zero-add}
use phlebas.Units.{
  QuoteRounding, down, up, PricedSize, quote_cost_divisor, divide_quote_numerator,
  quote_atoms_for_fill, quote_atoms_for_fills, add_numerators, size_atoms_for_quote,
}

pub divide_quote_numerator_bounds :
    (n : ℕ)
    → (divide_quote_numerator n down * quote_cost_divisor ≤ n)
      × (n < (divide_quote_numerator n down + 1) * quote_cost_divisor)
      × (n ≤ divide_quote_numerator n up * quote_cost_divisor)
      × (divide_quote_numerator n up * quote_cost_divisor < n + quote_cost_divisor)
unfolding divide_quote_numerator
divide_quote_numerator_bounds n = ground arith

-- The quote amount of a fill is the exact amount rounded to whole atoms: rounded down it is the
-- largest that the notional covers, rounded up the least that covers the notional.
pub quote_atoms_for_fill_bounds :
    (size price : ℕ)
    → (quote_atoms_for_fill size price down * quote_cost_divisor ≤ size * price)
      × (size * price < (quote_atoms_for_fill size price down + 1) * quote_cost_divisor)
      × (size * price ≤ quote_atoms_for_fill size price up * quote_cost_divisor)
      × (quote_atoms_for_fill size price up * quote_cost_divisor
          < size * price + quote_cost_divisor)
unfolding quote_atoms_for_fill
quote_atoms_for_fill_bounds size price = divide_quote_numerator_bounds (size * price)

divide_quote_numerator-add :
    (a b : ℕ)
    → (divide_quote_numerator a down + divide_quote_numerator b down
        ≤ divide_quote_numerator (a + b) down)
      × (divide_quote_numerator (a + b) up
          ≤ divide_quote_numerator a up + divide_quote_numerator b up)
divide_quote_numerator-add a b = ground (
  arith,
  divide_quote_numerator_bounds a,
  divide_quote_numerator_bounds b,
  divide_quote_numerator_bounds (a + b),
)

notional : List PricedSize → ℕ
notional = sum_of λ f. f.size_atoms * f.price_ticks

add_numerators-notional :
    (n : ℕ) (fills : List PricedSize) → add_numerators n fills ≡ n + notional fills
unfolding add_numerators notional
add_numerators-notional n [] = omega arith
add_numerators-notional n (f ∷ fs) =
    omega (arith, add_numerators-notional (n + f.size_atoms * f.price_ticks) fs)

quote_atoms_for_fills-notional :
    (fills : List PricedSize) (r : QuoteRounding)
    → quote_atoms_for_fills fills r ≡ divide_quote_numerator (notional fills) r
unfolding quote_atoms_for_fills
quote_atoms_for_fills-notional fills r =
    rw (add_numerators-notional 0 fills, zero-add (notional fills))

notional_split :
    (fills : List PricedSize)
    → (sum_of (λ f. quote_atoms_for_fill f.size_atoms f.price_ticks down) fills
        ≤ divide_quote_numerator (notional fills) down)
      × (divide_quote_numerator (notional fills) up
          ≤ sum_of (λ f. quote_atoms_for_fill f.size_atoms f.price_ticks up) fills)
unfolding notional quote_atoms_for_fill
notional_split [] = (omega arith, unfold divide_quote_numerator in omega arith)
notional_split (f ∷ fs) = omega (
  arith,
  notional_split fs,
  divide_quote_numerator-add (f.size_atoms * f.price_ticks) (unfold notional in notional fs),
)

-- Rounding once over all fills of an order is at least as tight as rounding each fill: the single rounding down is at least the sum of the fills rounded down, and
-- the single rounding up at most the sum of the fills rounded up.
pub quote_atoms_for_fills_tight :
    (fills : List PricedSize)
    → (sum_of (λ f. quote_atoms_for_fill f.size_atoms f.price_ticks down) fills
        ≤ quote_atoms_for_fills fills down)
      × (quote_atoms_for_fills fills up
          ≤ sum_of (λ f. quote_atoms_for_fill f.size_atoms f.price_ticks up) fills)
quote_atoms_for_fills_tight fills =
    rw (quote_atoms_for_fills-notional fills down, quote_atoms_for_fills-notional fills up)
      (notional_split fills)

div_mul_le : (n d : ℕ) → 0 < d → n / d * d ≤ n
div_mul_le n d h = grind arith

-- A size bought for a quote amount costs at most that amount, rounded up as a buy is charged.
pub size_atoms_for_quote_affordable :
    (quote price : ℕ)
    → 0 < price
    → Returns
        (λ size. quote_atoms_for_fill size price up ≤ quote)
        (size_atoms_for_quote quote price)
unfolding size_atoms_for_quote
size_atoms_for_quote_affordable quote price h = elim (Bool-cases (price == 0)) [
  | inl e ↦ absurd (ground arith)
  | inr e ↦ rw e (
      omega (
        arith,
        quote_atoms_for_fill_bounds (quote * quote_cost_divisor / price) price,
        div_mul_le (quote * quote_cost_divisor) price h,
      ))
]
