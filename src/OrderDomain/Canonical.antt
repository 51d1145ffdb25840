-- ===== src/OrderDomain/Canonical.antt =====
-- Canonical identifiers of src/lib/order-domain.ts.
use phlebas.Base.{
  ℕ, ◌≡◌, refl, ◌↔◌, true, [], ◌∷◌, map, ok, Yields, arith, length, Bool-cases, inl, inr, ◌∙◌,
}
use phlebas.Base.Text.{all_in, is_lower_hex}
use phlebas.OrderDomain.{Text, same_text, is_hex, lower, is_hex_bytes, normalize_hex32}

pub same_text_iff : (s t : Text) → (same_text s t ≡ true) ↔ (s ≡ t)
unfolding same_text
same_text_iff [] [] = (λ h. refl, λ h. refl)
same_text_iff [] (d ∷ ds) = (λ h. cc, λ h. cc)
same_text_iff (c ∷ cs) [] = (λ h. cc, λ h. cc)
same_text_iff (c ∷ cs) (d ∷ ds) = ground (arith, same_text_iff cs ds)

lower_hex :
    (c : ℕ)
    → is_hex c ≡ true
    → (is_hex (lower c) ≡ true) × (is_lower_hex (lower c) ≡ true) × (lower (lower c) ≡ lower c)
lower_hex c h = ground arith

all_in-lower :
    (cs : Text)
    → all_in is_hex cs ≡ true
    → (all_in is_hex (map lower cs) ≡ true)
      × (all_in is_lower_hex (map lower cs) ≡ true)
      × (map lower (map lower cs) ≡ map lower cs)
      × (length (map lower cs) ≡ length cs)
unfolding all_in
all_in-lower [] h = (refl, refl, refl, refl)
all_in-lower (c ∷ cs) h = ground (arith, all_in-lower cs, lower_hex c)

-- `0x`, and `n` lower-case hexadecimal digits.
pub record IsLowerHex (n : ℕ) (t : Text) : Type 0 where
  pub digits : Text
  pub shape : t ≡ b'0' ∷ b'x' ∷ digits
  pub in_class : all_in is_lower_hex digits ≡ true
  pub count : length digits ≡ n

is_hex_bytes-IsLowerHex : (n : ℕ) (t : Text) → is_hex_bytes n t ≡ true → IsLowerHex n (map lower t)
unfolding is_hex_bytes
is_hex_bytes-IsLowerHex n (z ∷ x ∷ ds) h =
    let parts : (z ≡ b'0') × (x ≡ b'x') × (all_in is_hex ds ≡ true) × (length ds ≡ n) =
      ground arith in
    let (z0, x0, class, count) = parts in
    let (_, low, _, same) = all_in-lower ds class in
    record { digits = map lower ds; shape = rw (z0, x0) refl; in_class = low; count = same ∙ count }
is_hex_bytes-IsLowerHex n [] h = cc
is_hex_bytes-IsLowerHex n (z ∷ []) h = cc

is_hex_bytes-lower :
    (n : ℕ) (t : Text)
    → is_hex_bytes n t ≡ true
    → (is_hex_bytes n (map lower t) ≡ true) × (map lower (map lower t) ≡ map lower t)
unfolding is_hex_bytes
is_hex_bytes-lower n (z ∷ x ∷ ds) h = ground (arith, all_in-lower ds)
is_hex_bytes-lower n [] h = cc
is_hex_bytes-lower n (z ∷ []) h = cc

-- A normalized identifier is the value that was given with its upper-case letters lowered: `0x` and
-- 64 lower-case hexadecimal digits. It is returned, unchanged, when it is normalized again.
pub normalize_hex32-normalize_hex32 :
    (t : Text)
    → Yields
        (λ u. IsLowerHex 64 u × (u ≡ map lower t) × (normalize_hex32 u ≡ ok u))
        (normalize_hex32 t)
unfolding normalize_hex32
normalize_hex32-normalize_hex32 t = elim (Bool-cases (is_hex_bytes 64 t)) [
  | inl e ↦
      let (valid, same) = is_hex_bytes-lower 64 t e in
      simp e (is_hex_bytes-IsLowerHex 64 t e, refl, rw (valid, same) refl)
  | inr e ↦ simp e tt
]
