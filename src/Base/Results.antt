-- ===== src/Base/Results.antt =====
-- A call that may throw. The error is the message of the exception that the source throws.
use Prim.Native.String.{String}
use mathlib.Core.Path.{◌≡◌, refl}
use mathlib.Core.Bool.{Bool, true, false}
use mathlib.Core.Logic.{◌⊎◌, inl, inr}
use mathlib.Core.List.{List, [], ◌∷◌}
use phlebas.Base.Lists.{All}

pub data Result {ℓ} (A : Type ℓ) : Type ℓ where
  ok : A → Result A
  err : String → Result A

infixl 5 ◌>>◌ ◌>>=◌
-- What follows a call that returns nothing.
abbrev pub ◌>>◌ {κ} : {B : Type κ} → Result (Unit {0}) → Result B → Result B
err e >> next = err e
ok _ >> next = next

-- What follows a call, with its value.
abbrev pub ◌>>=◌ {ℓ κ} : {A : Type ℓ} {B : Type κ} → Result A → (A → Result B) → Result B
err e >>= next = err e
ok a >>= next = next a

-- `if (bad) throw new Error(e)`.
abbrev pub throw_if : Bool → String → Result (Unit {0})
throw_if true e = err e
throw_if false e = ok tt

-- The call returns, and its value satisfies `P`.
abbrev pub Returns {ℓ} : {A : Type ℓ} → (A → Type 0) → Result A → Type 0
Returns P (ok a) = P a
Returns P (err e) = ⊥

-- The call throws, or its value satisfies `P`.
abbrev pub Yields {ℓ} : {A : Type ℓ} → (A → Type 0) → Result A → Type 0
Yields P (ok a) = P a
Yields P (err e) = Unit

pub Result-cases {ℓ} :
    {A : Type ℓ} (r : Result A) → ((a : A) × (r ≡ ok a)) ⊎ ((e : String) × (r ≡ err e))
Result-cases (ok a) = inl (a, refl)
Result-cases (err e) = inr (e, refl)

pub Returns-ok {ℓ} :
    {A : Type ℓ} {P : A → Type 0} (r : Result A) → Returns P r → (a : A) × (r ≡ ok a) × P a
Returns-ok (ok a) h = (a, refl, h)
Returns-ok (err e) h = absurd h

-- A chain that returns has had every step return.
pub >>=-returned {ℓ κ} :
    {A : Type ℓ} {B : Type κ} (r : Result A) (f : A → Result B) (b : B)
    → (r >>= f) ≡ ok b
    → (a : A) × (r ≡ ok a) × (f a ≡ ok b)
>>=-returned (ok a) f b h = (a, refl, h)
>>=-returned (err e) f b h = cc

pub >>-returned {ℓ} :
    {B : Type ℓ} (r : Result (Unit {0})) (k : Result B) (b : B)
    → (r >> k) ≡ ok b
    → (r ≡ ok tt) × (k ≡ ok b)
>>-returned (ok tt) k b h = (refl, h)
>>-returned (err e) k b h = cc

pub throw_if-returned : (t : Bool) (e : String) → throw_if t e ≡ ok tt → t ≡ false
throw_if-returned true e h = cc
throw_if-returned false e h = refl

pub ok-injective {ℓ} : {A : Type ℓ} {a b : A} → ok a ≡ ok b → a ≡ b
ok-injective h = cc

-- Calls one after another, up to the first that throws.
unfoldable pub all_checks : List (Result (Unit {0})) → Result (Unit {0})
all_checks [] = ok tt
all_checks (c ∷ cs) = c >> all_checks cs

-- A call whose value is not used.
abbrev pub without_value {ℓ} : {A : Type ℓ} → Result A → Result (Unit {0})
without_value (ok a) = ok tt
without_value (err e) = err e

-- Where all calls return, each of them does.
pub all_checks-returned :
    (cs : List (Result (Unit {0}))) → all_checks cs ≡ ok tt → All (λ c. c ≡ ok tt) cs
unfolding all_checks
all_checks-returned [] h = tt
all_checks-returned (c ∷ cs) h =
    let (first, rest) = >>-returned c (all_checks cs) tt h in (first, all_checks-returned cs rest)

pub without_value-returned {ℓ} :
    {A : Type ℓ} (r : Result A) → without_value r ≡ ok tt → (a : A) × (r ≡ ok a)
without_value-returned (ok a) h = (a, refl)
without_value-returned (err e) h = cc

pub Yields-all {ℓ} :
    {A : Type ℓ} (P : A → Type 0) (r : Result A) → ((a : A) → r ≡ ok a → P a) → Yields P r
Yields-all P (ok a) f = f a refl
Yields-all P (err e) f = tt

-- The call throws.
abbrev pub Throws {ℓ} : {A : Type ℓ} → Result A → Type 0
Throws (ok a) = ⊥
Throws (err e) = Unit
