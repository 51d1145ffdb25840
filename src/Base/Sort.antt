-- ===== src/Base/Sort.antt =====
-- `Array.prototype.sort` with a comparator: a stable insertion sort. `le l r` stands for a
-- comparator result of at most 0.
use phlebas.Base.Lists.{All, Ordered}
use phlebas.Base.Tests.{if◌then◌else◌, Bool-cases}
use mathlib.Core.Path.{◌≡◌}
use mathlib.Core.Logic.{inl, inr}
use mathlib.Core.Bool.{Bool, true, false}
use mathlib.Core.List.{List, [], ◌∷◌, Perm}
use mathlib.Core.List.Perm

module _ {ℓ} {A : Type ℓ} (le : A → A → Bool) where
  unfoldable pub insert : A → List A → List A
  insert x [] = x ∷ []
  insert x (y ∷ ys) = if le x y then x ∷ y ∷ ys else y ∷ insert x ys

  unfoldable pub sort : List A → List A
  unfolding insert
  sort [] = []
  sort (x ∷ xs) = insert x (sort xs)

  pub insert-perm : (x : A) (ys : List A) → Perm (insert x ys) (x ∷ ys)
  unfolding insert
  insert-perm x [] = Perm.refl (x ∷ [])
  insert-perm x (y ∷ ys) = elim (Bool-cases (le x y)) [
    | inl e ↦ rw e (Perm.refl (x ∷ y ∷ ys))
    | inr e ↦ rw e (Perm.trans (Perm.cons y (insert-perm x ys)) (Perm.swap x y ys))
  ]

  pub sort-perm : (xs : List A) → Perm (sort xs) xs
  unfolding sort
  sort-perm [] = Perm.nil
  sort-perm (x ∷ xs) = Perm.trans (insert-perm x (sort xs)) (Perm.cons x (sort-perm xs))

module _ {ℓ κ} {A : Type ℓ} (le : A → A → Bool) (P : A → Type κ) where
  pub insert-All : (x : A) (ys : List A) → P x → All P ys → All P (insert le x ys)
  unfolding insert
  insert-All x [] h hs = (h, tt)
  insert-All x (y ∷ ys) h hs = elim (Bool-cases (le x y)) [
    | inl e ↦ rw e (h, hs)
    | inr e ↦ rw e (hs.0, insert-All x ys h hs.1)
  ]

  pub sort-All : (xs : List A) → All P xs → All P (sort le xs)
  unfolding sort
  sort-All [] h = tt
  sort-All (x ∷ xs) h = insert-All x (sort le xs) h.0 (sort-All xs h.1)

-- Where the comparator decides the order `R` on members that differ by `D`, the sort orders a
-- list whose members differ.
module _ {ℓ} {A : Type ℓ} (le : A → A → Bool) (R D : A → A → Type 0)
    (R-trans : (x y z : A) → R x y → R y z → R x z)
    (le_true : (x y : A) → D x y → le x y ≡ true → R x y)
    (le_false : (x y : A) → D x y → le x y ≡ false → R y x) where
  above : (x y : A) (zs : List A) → R x y → All (R y) zs → All (R x) zs
  above x y [] h hs = tt
  above x y (z ∷ zs) h hs = (R-trans x y z h hs.0, above x y zs h hs.1)

  insert-Ordered : (x : A) (ys : List A) → All (D x) ys → Ordered R ys → Ordered R (insert le x ys)
  unfolding insert
  insert-Ordered x [] d h = (tt, tt)
  insert-Ordered x (y ∷ ys) d h = elim (Bool-cases (le x y)) [
    | inl e ↦ rw e ((le_true x y d.0 e, above x y ys (le_true x y d.0 e) h.0), h)
    | inr e ↦ rw e (insert-All le (R y) x ys (le_false x y d.0 e) h.0, insert-Ordered x ys d.1 h.1)
  ]

  pub sort-Ordered : (xs : List A) → Ordered D xs → Ordered R (sort le xs)
  unfolding sort
  sort-Ordered [] d = tt
  sort-Ordered (x ∷ xs) d =
      insert-Ordered x (sort le xs) (sort-All le (D x) xs d.0) (sort-Ordered xs d.1)

-- A relation that holds of any two members, either way round, is kept.
module _ {ℓ} {A : Type ℓ} (le : A → A → Bool) (D : A → A → Type 0)
    (D-sym : (x y : A) → D x y → D y x) where
  insert-Ordered_sym :
      (x : A) (ys : List A) → All (D x) ys → Ordered D ys → Ordered D (insert le x ys)
  unfolding insert
  insert-Ordered_sym x [] d h = (tt, tt)
  insert-Ordered_sym x (y ∷ ys) d h = elim (Bool-cases (le x y)) [
    | inl e ↦ rw e (d, h)
    | inr e ↦ rw e (insert-All le (D y) x ys (D-sym x y d.0) h.0, insert-Ordered_sym x ys d.1 h.1)
  ]

  pub sort-Ordered_sym : (xs : List A) → Ordered D xs → Ordered D (sort le xs)
  unfolding sort
  sort-Ordered_sym [] d = tt
  sort-Ordered_sym (x ∷ xs) d =
      insert-Ordered_sym x (sort le xs) (sort-All le (D x) xs d.0) (sort-Ordered_sym xs d.1)
