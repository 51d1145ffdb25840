-- ===== src/OrderDomain.antt =====
-- src/lib/order-domain.ts, and the order type of src/lib/eip712-order.ts. A text that is taken
-- apart is the list of its code units; the label in an error's message is left out.
pub mod Canonical
mod Examples
use phlebas.Base.{
  ℕ, ◌+◌, Bool, true, false, not, ◌&&◌, ◌||◌, List, [], ◌∷◌, map, Result, ok, err, ◌==◌,
  if◌then◌else◌, length, leb,
}
use phlebas.Base.Text.{all_in, in_range}

abbrev pub Text : Type 0
Text = List ℕ

-- `===` on texts.
unfoldable pub same_text : Text → Text → Bool
same_text [] [] = true
same_text [] (d ∷ ds) = false
same_text (c ∷ cs) [] = false
same_text (c ∷ cs) (d ∷ ds) = c == d && same_text cs ds

-- The class `[0-9a-fA-F]`.
abbrev pub is_hex : ℕ → Bool
is_hex c = in_range b'0' b'9' c || in_range b'a' b'f' c || in_range b'A' b'F' c

-- `toLowerCase` on a code unit below 128.
abbrev pub lower : ℕ → ℕ
lower c = if in_range b'A' b'Z' c then c + 32 else c

-- `/^0x[0-9a-fA-F]{n}$/.test(value)`.
unfoldable pub is_hex_bytes : ℕ → Text → Bool
unfolding all_in
is_hex_bytes n (z ∷ x ∷ digits) =
    z == b'0' && x == b'x' && all_in is_hex digits && length digits == n
is_hex_bytes n _ = false

unfoldable pub normalize_hex32 : Text → Result Text
unfolding is_hex_bytes
normalize_hex32 value =
    if is_hex_bytes 64 value
    then ok (map lower value)
    else err "must be exactly 32 bytes of hexadecimal"

unfoldable pub normalize_address : Text → Result Text
unfolding is_hex_bytes
normalize_address value =
    if is_hex_bytes 40 value
    then ok (map lower value)
    else err "must be exactly 20 bytes of hexadecimal"

-- `MAX_ORDER_FEE_BPS`.
abbrev pub max_order_fee_bps : ℕ
max_order_fee_bps = 30

-- The side and the time in force are codes, which `orderPolicyErrors` checks.
pub record TypedOrderIntent : Type 0 where
  pub maker_account_id : Text
  pub authorized_signer_id : Text
  pub base_chain_id : Text
  pub base_asset_id : Text
  pub quote_chain_id : Text
  pub quote_asset_id : Text
  pub side : ℕ
  pub base_amount_atoms : ℕ
  pub limit_price_ticks : ℕ
  pub nonce : ℕ
  pub account_epoch : ℕ
  pub expiry : ℕ
  pub salt : Text
  pub recipient_account_id : Text
  pub time_in_force : ℕ
  pub maximum_fee_bps : ℕ
  pub allowed_venues : ℕ
  pub settlement_adapter_id : Text
