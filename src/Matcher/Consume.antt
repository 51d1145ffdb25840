-- ===== src/Matcher/Consume.antt =====
-- An order-book side that is consumed from its front, without the loop that does it: the
-- specification of `matchAgainst` in src/lib/matcher.ts.
use phlebas.Base.{ℕ, ◌+◌, ◌-◌, ◌<◌, ◌≡◌, ap, List, [], ◌∷◌, ◌++◌, arith, All, Ordered, sum_of}
use phlebas.Units.{OrderSide}
use phlebas.Matcher.{RestingOrder, Fill}

-- The fill of `t` atoms against a maker, at the maker's price.
abbrev pub fill_of : OrderSide → RestingOrder → ℕ → Fill
fill_of side maker t = record {
  maker_id = maker.id;
  taker_side = side;
  price_ticks = maker.price_ticks;
  size_atoms = t;
}

abbrev pub reduce : RestingOrder → ℕ → RestingOrder
reduce maker t = record maker { remaining_atoms = maker.remaining_atoms - t }

-- The fills take from the first maker until it is used up, and only then from the next.
pub data Consumes (side : OrderSide)
    : List RestingOrder → List Fill → List RestingOrder → Type 0 where
  stop : {xs : List RestingOrder} → Consumes side xs [] xs
  whole :
      {maker : RestingOrder} {f : Fill} {xs ys : List RestingOrder} {fs : List Fill}
      → f ≡ fill_of side maker maker.remaining_atoms
      → Consumes side xs fs ys
      → Consumes side (maker ∷ xs) (f ∷ fs) ys
  part :
      {maker : RestingOrder} {f : Fill} {xs ys : List RestingOrder} {fs : List Fill} (t : ℕ)
      → f ≡ fill_of side maker t
      → t < maker.remaining_atoms
      → Consumes side (reduce maker t ∷ xs) fs ys
      → Consumes side (maker ∷ xs) (f ∷ fs) ys

pub Consumes-append :
    {side : OrderSide} {xs ys zs : List RestingOrder} {fs gs : List Fill}
    → Consumes side xs fs ys
    → Consumes side ys gs zs
    → Consumes side xs (fs ++ gs) zs
Consumes-append stop d = d
Consumes-append (whole e c) d = whole e (Consumes-append c d)
Consumes-append (part t e h c) d = part t e h (Consumes-append c d)

abbrev pub liquidity : List RestingOrder → ℕ
liquidity = sum_of λ o. o.remaining_atoms

abbrev pub filled_size : List Fill → ℕ
filled_size = sum_of λ f. f.size_atoms

-- No atom of the resting side is lost or made up.
pub liquidity-Consumes :
    {side : OrderSide} {xs ys : List RestingOrder} {fs : List Fill}
    → Consumes side xs fs ys
    → liquidity xs ≡ filled_size fs + liquidity ys
liquidity-Consumes stop = omega arith
liquidity-Consumes (whole e c) =
    omega (arith, ap (λ (f : Fill). f.size_atoms) e, liquidity-Consumes c)
liquidity-Consumes (part t e h c) =
    omega (arith, ap (λ (f : Fill). f.size_atoms) e, liquidity-Consumes c)

-- What does not depend on the amount left is kept.
pub Consumes-All :
    {side : OrderSide} {xs ys : List RestingOrder} {fs : List Fill} (P : RestingOrder → Type 0)
    → ((o : RestingOrder) (t : ℕ) → P o → P (reduce o t))
    → Consumes side xs fs ys
    → All P xs
    → All P ys
Consumes-All P keep stop h = h
Consumes-All P keep (whole e c) h = Consumes-All P keep c h.1
Consumes-All P keep (part {maker} t e l c) h = Consumes-All P keep c (keep maker t h.0, h.1)

All-reduce :
    (R : RestingOrder → RestingOrder → Type 0)
    → ((x y : RestingOrder) (t : ℕ) → R x y → R (reduce x t) y)
    → (o : RestingOrder) (t : ℕ) (xs : List RestingOrder) → All (R o) xs
    → All (R (reduce o t)) xs
All-reduce R keep o t [] h = tt
All-reduce R keep o t (x ∷ xs) h = (keep o x t h.0, All-reduce R keep o t xs h.1)

pub Consumes-Ordered :
    {side : OrderSide} {xs ys : List RestingOrder} {fs : List Fill}
    (R : RestingOrder → RestingOrder → Type 0)
    → ((x y : RestingOrder) (t : ℕ) → R x y → R (reduce x t) y)
    → Consumes side xs fs ys
    → Ordered R xs
    → Ordered R ys
Consumes-Ordered R keep stop h = h
Consumes-Ordered R keep (whole e c) h = Consumes-Ordered R keep c h.1
Consumes-Ordered R keep (part {maker} {xs = xs} t e l c) h =
    Consumes-Ordered R keep c (All-reduce R keep maker t xs h.0, h.1)
