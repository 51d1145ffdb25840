-- ===== src/SwapDomain.antt =====
-- src/lib/swap-domain.ts: the signed terms of a swap, and the markets that may be swapped. A text is
-- the list of its code units. `sha256_hex` is `sha256Hex` of src/lib/sha256.ts on the text that is
-- joined from the parts of a `Hashed`; nothing is assumed of it.
pub mod Terms
pub mod Markets
use phlebas.Base.{
  ℕ, zero, suc, ◌+◌, ◌*◌, Bool, true, false, not, ◌&&◌, ◌||◌, List, [], ◌∷◌, ◌++◌, Option, none,
  some, Result, ok, err, ◌>>=◌, ◌>>◌, throw_if, ltb, leb, ◌==◌, if◌then◌else◌, length, uint64_max,
}
use phlebas.Base.Text.{codes, all_in, is_lower_hex, strip_prefix, split_at, is_numeral}
use phlebas.OrderDomain.{Text, same_text, normalize_hex32, normalize_address}

pub data SwapRole : Type 0 where
  zec_seller stablecoin_seller : SwapRole

pub record SwapMarketIdentity : Type 0 where
  pub zec_chain : Text
  pub zec_asset : Text
  pub quote_chain : Text
  pub quote_asset : Text

pub record SwapMarketPolicy : Type 0 where
  pub version : ℕ
  pub markets : List SwapMarketIdentity

pub record SwapTerms : Type 0 where
  pub version : ℕ
  pub fill_id : Text
  pub fill_index : ℕ
  pub zec_order_hash : Text
  pub stablecoin_order_hash : Text
  pub zec_seller_id : Text
  pub stablecoin_seller_id : Text
  pub zec_chain : Text
  pub zec_asset : Text
  pub quote_chain : Text
  pub quote_asset : Text
  pub zec_amount_zatoshis : ℕ
  pub quote_amount_atoms : ℕ
  pub execution_price_ticks : ℕ
  pub protocol_fee_quote_atoms : ℕ
  pub fee_recipient : Text
  pub maximum_fee_bps : ℕ
  pub zcash_lock_script_hash : Text
  pub zcash_claim_pub_key_hash : Text
  pub zcash_refund_pub_key_hash : Text
  pub evm_funder : Text
  pub evm_claim_recipient : Text
  pub evm_refund_recipient : Text
  pub evm_escrow_contract : Text
  pub secret_hash : Text
  pub authorization_deadline : ℕ
  pub zec_fund_by : ℕ
  pub evm_fund_by : ℕ
  pub evm_claim_safety_cutoff : ℕ
  pub evm_refund_time : ℕ
  pub zec_refund_time : ℕ
  pub timeout_policy_id : Text
  pub market_policy_id : Text
  pub observer_policy_id : Text
  pub zec_finality_policy_id : Text
  pub evm_finality_policy_id : Text

-- `0x${"00".repeat(n)}`, by its number of digits.
unfoldable pub zeros : ℕ → Text
zeros zero = []
zeros (suc n) = b'0' ∷ zeros n

unfoldable pub zero_hex : ℕ → Text
zero_hex digits = b'0' ∷ b'x' ∷ zeros digits

unfoldable pub canonical_hex32 : Text → Result Text
canonical_hex32 value = normalize_hex32 value >>= λ normalized.
    throw_if (not (same_text value normalized)) "must be lowercase canonical hexadecimal"
    >> throw_if (same_text normalized (zero_hex 64)) "cannot be zero"
    >> ok normalized

unfoldable pub canonical_address : Text → Result Text
canonical_address value = normalize_address value >>= λ normalized.
    throw_if (not (same_text value normalized)) "must be lowercase canonical hexadecimal"
    >> throw_if (same_text normalized (zero_hex 40)) "cannot be zero"
    >> ok normalized

-- `/^0x[0-9a-f]{n}$/`.
unfoldable pub is_lower_hex_bytes : ℕ → Text → Bool
is_lower_hex_bytes n (z ∷ x ∷ digits) =
    z == b'0' && x == b'x' && all_in is_lower_hex digits && length digits == n
is_lower_hex_bytes n _ = false

unfoldable pub canonical_pub_key_hash : Text → Result Text
canonical_pub_key_hash value =
    throw_if (not (is_lower_hex_bytes 40 value) || same_text value (zero_hex 40))
      "must be a nonzero lowercase 20-byte hexadecimal value"
    >> ok value

-- A number that may be zero, and one that may not.
unfoldable pub canonical_uint64 : Bool → ℕ → Result ℕ
canonical_uint64 allow_zero value =
    throw_if ((not allow_zero && value == 0) || ltb uint64_max value) "must fit uint64" >> ok value

-- `/^bip122:[0-9a-f]{32}$/`.
unfoldable pub is_zcash_reference : Option Text → Bool
is_zcash_reference none = false
is_zcash_reference (some reference) = all_in is_lower_hex reference && length reference == 32

unfoldable pub canonical_zcash_chain : Text → Result Text
canonical_zcash_chain value =
    throw_if (not (is_zcash_reference (strip_prefix (codes "bip122:") value)))
      "Zcash chain must be a canonical lowercase BIP-122 identifier with a 32-hex reference"
    >> ok value

unfoldable pub is_numeral_after : Option Text → Bool
is_numeral_after none = false
is_numeral_after (some reference) = is_numeral reference

unfoldable pub canonical_quote_chain : Text → Result Text
canonical_quote_chain value =
    throw_if (not (is_numeral_after (strip_prefix (codes "eip155:") value)))
      "Quote chain must be a canonical numeric EIP-155 identifier"
    >> ok value

unfoldable pub canonical_zec_asset : Text → Text → Result Text
canonical_zec_asset value chain =
    throw_if (not (same_text value (chain ++ codes "/slip44:133")))
      "ZEC asset must be the native slip44:133 identity"
    >> ok value

unfoldable pub is_address_after : Option Text → Bool
is_address_after none = false
is_address_after (some address) = is_lower_hex_bytes 40 address

unfoldable pub is_erc20_tail : Option Text → Bool
is_erc20_tail none = false
is_erc20_tail (some tail) = is_address_after (strip_prefix (codes "erc20:") tail)

-- `EIP155_ERC20_ASSET`, after `eip155:`; a numeral has no slash.
unfoldable pub is_erc20_asset : Option Text → Bool
is_erc20_asset none = false
is_erc20_asset (some reference) =
    is_numeral (split_at b'/' reference).0 && is_erc20_tail (split_at b'/' reference).1

abbrev pub is_there {ℓ} : {A : Type ℓ} → Option A → Bool
is_there none = false
is_there (some a) = true

unfoldable pub canonical_quote_asset : Text → Text → Result Text
canonical_quote_asset value chain =
    throw_if
      (not (is_erc20_asset (strip_prefix (codes "eip155:") value))
        || not (is_there (strip_prefix (chain ++ b'/' ∷ []) value)))
      "Quote asset must be a canonical lowercase ERC-20 identity"
    >> ok value

unfoldable pub role_for_party : SwapTerms → Text → Result SwapRole
role_for_party terms party_id = canonical_hex32 party_id >>= λ normalized.
    if same_text normalized terms.zec_seller_id
    then ok zec_seller
    else if same_text normalized terms.stablecoin_seller_id
    then ok stablecoin_seller
    else err "Party is not authorized by these swap terms"
