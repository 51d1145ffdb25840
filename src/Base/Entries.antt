-- ===== src/Base/Entries.antt =====
-- A record that is used as a map, as the list of its entries in the order of insertion.
use Prim.Native.Nat.{ℕ, ◌+◌}
use mathlib.Core.Path.{◌≡◌, refl}
use mathlib.Core.Logic.{inl, inr}
use mathlib.Core.Bool.{Bool, true}
use mathlib.Core.Option.{Option, none, some}
use mathlib.Core.List.{List, [], ◌∷◌}
use native.Mathlib.Omega.{arith}
use phlebas.Base.Tests.{if◌then◌else◌, Bool-cases}
use phlebas.Base.Lists.{sum_of}

module _ {ℓ κ} {K : Type ℓ} {V : Type κ} (same : K → K → Bool) where
  -- `map[key]`.
  unfoldable pub get_entry : List (K × V) → K → Option V
  get_entry [] key = none
  get_entry ((k, v) ∷ es) key = if same k key then some v else get_entry es key

  -- `map[key] = value`.
  unfoldable pub set_entry : List (K × V) → K → V → List (K × V)
  set_entry [] key value = (key, value) ∷ []
  set_entry ((k, v) ∷ es) key value =
      if same k key then (k, value) ∷ es else (k, v) ∷ set_entry es key value

-- `value ?? fallback`.
abbrev pub or_else {ℓ} : {A : Type ℓ} → Option A → A → A
or_else none fallback = fallback
or_else (some a) fallback = a

-- The total over the entries changes by what the one entry changes by.
pub sum_of-set_entry {ℓ κ} :
    {K : Type ℓ} {V : Type κ} (same : K → K → Bool) (f : V → ℕ) (fallback : V) (es : List (K × V))
    (key : K) (value : V)
    → f fallback ≡ 0
    → sum_of (λ e. f (e.1)) (set_entry same es key value)
        + f (or_else (get_entry same es key) fallback)
      ≡ sum_of (λ e. f (e.1)) es + f value
unfolding get_entry set_entry
sum_of-set_entry same f fallback [] key value z = omega (arith, z)
sum_of-set_entry same f fallback ((k, v) ∷ es) key value z = elim (Bool-cases (same k key)) [
  | inl e ↦ rw e (omega arith)
  | inr e ↦ rw e (omega (arith, sum_of-set_entry same f fallback es key value z))
]

-- The entry that is set is there.
pub get_entry-set_entry {ℓ κ} :
    {K : Type ℓ} {V : Type κ} (same : K → K → Bool) (es : List (K × V)) (key : K) (value : V)
    → same key key ≡ true
    → get_entry same (set_entry same es key value) key ≡ some value
unfolding get_entry set_entry
get_entry-set_entry same [] key value r = rw r refl
get_entry-set_entry same ((k, v) ∷ es) key value r = elim (Bool-cases (same k key)) [
  | inl e ↦ simp e refl
  | inr e ↦ simp e (get_entry-set_entry same es key value r)
]
