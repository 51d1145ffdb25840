-- ===== src/Units/Examples.antt =====
-- Tests of src/lib/units.ts, and its theorems at concrete inputs.
use phlebas.Base.{◌+◌, ◌*◌, ◌≤◌, ◌<◌, ◌≡◌, refl, List, [], ◌∷◌, Returns, arith, leb}
use phlebas.Units.{
  down, up, buy, sell, PricedSize, quote_atoms_for_fill, quote_atoms_for_fills,
  size_atoms_for_quote, worst_price_ticks, meets_minimum_quote_settlement,
  minimum_size_atoms_for_quote_settlement, divide_quote_numerator,
}
use phlebas.Units.Rounding.{
  quote_atoms_for_fill_bounds, quote_atoms_for_fills_tight, size_atoms_for_quote_affordable,
}
use phlebas.Units.Minimum.{meets_minimum-minimum_size}
use phlebas.Units.WorstPrice.{worst_price_ticks-buy, worst_price_ticks-sell}

-- The ticket's example: 777.77 times 77.77777777.
ticket_total :
    (quote_atoms_for_fill 7777777777 77777 up ≡ 60493222217)
    × (quote_atoms_for_fill 7777777777 77777 down ≡ 60493222216)
unfolding quote_atoms_for_fill divide_quote_numerator
ticket_total = (refl, refl)

quote_atoms_for_fill_bounds_example : quote_atoms_for_fill 15000 3 down * 10000 ≤ 15000 * 3
quote_atoms_for_fill_bounds_example = (quote_atoms_for_fill_bounds 15000 3).0

abbrev two_fills : List PricedSize
two_fills =
    record { size_atoms = 15001; price_ticks = 3 }
    ∷ record { size_atoms = 7; price_ticks = 1999 }
    ∷ []

quote_atoms_for_fills_tight_example : quote_atoms_for_fills two_fills up ≤ 7
unfolding quote_atoms_for_fill divide_quote_numerator
quote_atoms_for_fills_tight_example = (quote_atoms_for_fills_tight two_fills).1

size_atoms_for_quote_affordable_example :
    Returns (λ size. quote_atoms_for_fill size 3 up ≤ 50) (size_atoms_for_quote 50 3)
size_atoms_for_quote_affordable_example = size_atoms_for_quote_affordable 50 3 (omega arith)

meets_minimum-minimum_size_example :
    Returns
      (λ least. meets_minimum_quote_settlement 500 30 ≡ leb least 500)
      (minimum_size_atoms_for_quote_settlement 30)
meets_minimum-minimum_size_example = meets_minimum-minimum_size 500 30 (omega arith)

worst_price_ticks-buy_example :
    Returns
      (λ w.
        (999 ≤ w) × (999 * (10000 + 250) ≤ w * 10000) × (w * 10000 < 999 * (10000 + 250) + 10000))
      (worst_price_ticks 999 buy 250)
worst_price_ticks-buy_example = worst_price_ticks-buy 999 250 (omega arith) (omega arith)

worst_price_ticks-sell_example : Returns (λ w. 0 < w) (worst_price_ticks 999 sell 250)
worst_price_ticks-sell_example =
    (worst_price_ticks-sell 999 250 (omega arith) (omega arith)).1 (omega arith)
