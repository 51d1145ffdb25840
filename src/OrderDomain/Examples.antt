-- ===== src/OrderDomain/Examples.antt =====
-- Tests of src/lib/order-domain.ts, and its theorem at a concrete input.
use phlebas.Base.{ℕ, zero, suc, ◌≡◌, refl, [], ◌∷◌, ok, err, Yields, map}
use phlebas.Base.Text.{all_in}
use phlebas.OrderDomain.{Text, lower, is_hex_bytes, normalize_hex32, normalize_address}
use phlebas.OrderDomain.Canonical.{IsLowerHex, normalize_hex32-normalize_hex32}

abbrev repeated : ℕ → ℕ → Text
repeated zero c = []
repeated (suc n) c = c ∷ repeated n c

abbrev identifier : ℕ → ℕ → Text
identifier n c = b'0' ∷ b'x' ∷ repeated n c

steps : ℕ
unfolding all_in is_hex_bytes normalize_hex32 normalize_address
steps = 0

upper_case : normalize_hex32 (identifier 64 b'A') ≡ ok (identifier 64 b'a')
unfolding steps
upper_case = refl

too_short : normalize_hex32 (identifier 63 b'a') ≡ err "must be exactly 32 bytes of hexadecimal"
unfolding steps
too_short = refl

address : normalize_address (identifier 40 b'F') ≡ ok (identifier 40 b'f')
unfolding steps
address = refl

normalize_hex32-normalize_hex32_example :
    Yields
      (λ u. IsLowerHex 64 u × (u ≡ map lower (identifier 64 b'A')) × (normalize_hex32 u ≡ ok u))
      (normalize_hex32 (identifier 64 b'A'))
normalize_hex32-normalize_hex32_example = normalize_hex32-normalize_hex32 (identifier 64 b'A')
