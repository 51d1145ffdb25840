-- ===== src/Units/Minimum.antt =====
-- src/lib/units.ts: the least size that settles to one quote atom.
use phlebas.Base.{ℕ, ◌+◌, ◌-◌, ◌*◌, ◌/◌, ◌≤◌, ◌<◌, ◌≡◌, ◌↔◌, arith, ok, Returns, leb}
use phlebas.Units.{
  quote_cost_divisor, meets_minimum_quote_settlement, minimum_size_atoms_for_quote_settlement,
}

-- The value of `minimumSizeAtomsForQuoteSettlement` at a positive price.
unfoldable pub least_size : ℕ → ℕ
least_size price = (quote_cost_divisor - 1) / price + 1

pub minimum_size-least_size :
    (price : ℕ) → 0 < price → minimum_size_atoms_for_quote_settlement price ≡ ok (least_size price)
unfolding minimum_size_atoms_for_quote_settlement least_size
minimum_size-least_size price h = ground arith

pub least_size_pos : (price : ℕ) → 0 < least_size price
unfolding least_size
least_size_pos price = omega arith

mul_mono : (a b p : ℕ) → a ≤ b → a * p ≤ b * p
mul_mono a b p h = grind arith

least_size_bounds :
    (price : ℕ)
    → 0 < price
    → (quote_cost_divisor ≤ least_size price * price)
      × (least_size price * price < quote_cost_divisor + price)
unfolding least_size
least_size_bounds price h = grind arith

pub least_size_iff :
    (size price : ℕ) → 0 < price → (least_size price ≤ size) ↔ (quote_cost_divisor ≤ size * price)
least_size_iff size price h = (
  λ le. omega (arith, mul_mono (least_size price) size price le, least_size_bounds price h),
  λ le. not_lt (λ lt.
      omega (arith, mul_mono (size + 1) (least_size price) price lt, least_size_bounds price h)),
)
  where
    not_lt : ¬ (size + 1 ≤ least_size price) → least_size price ≤ size
    not_lt f = omega arith

pub meets_minimum-least_size :
    (size price : ℕ)
    → 0 < price
    → meets_minimum_quote_settlement size price ≡ leb (least_size price) size
unfolding meets_minimum_quote_settlement
meets_minimum-least_size size price h = ground (arith, least_size_iff size price h)

-- At a positive price the least size that is returned is the threshold of the minimum test: a size
-- meets the minimum exactly if it is at least that size.
pub meets_minimum-minimum_size :
    (size price : ℕ)
    → 0 < price
    → Returns
        (λ least. meets_minimum_quote_settlement size price ≡ leb least size)
        (minimum_size_atoms_for_quote_settlement price)
meets_minimum-minimum_size size price h =
    rw (minimum_size-least_size price h) (meets_minimum-least_size size price h)
