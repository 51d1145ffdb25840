-- ===== src/SwapDomain/Terms.antt =====
-- The validation and the hashes of the terms of src/lib/swap-domain.ts.
use phlebas.Base.{
  ℕ, ◌*◌, ◌/◌, ◌%◌, Bool, true, false, not, List, [], ◌∷◌, Option, Result, ok, ◌>>=◌, ◌>>◌,
  throw_if, ltb, ◌==◌, without_value, all_checks,
}
use phlebas.OrderDomain.{Text, same_text}
use phlebas.SwapDomain.{
  SwapTerms, SwapMarketIdentity, canonical_hex32, canonical_address, canonical_pub_key_hash,
  canonical_uint64, canonical_zcash_chain, canonical_quote_chain, canonical_zec_asset,
  canonical_quote_asset,
}

pub record SwapTimingPolicy : Type 0 where
  pub minimum_funding_window_seconds : ℕ
  pub minimum_claim_window_seconds : ℕ
  pub minimum_safety_window_seconds : ℕ

pub record SwapObserverPolicy : Type 0 where
  pub version : ℕ
  pub source_ids : List Text
  pub required_source_count : ℕ
  pub max_observation_delay_seconds : ℕ

pub record SwapFinalityPolicy : Type 0 where
  pub version : ℕ
  pub chain : Text
  pub minimum_confirmations : ℕ
  pub minimum_age_seconds : ℕ

pub data SwapLeg : Type 0 where
  zec evm : SwapLeg

pub data SpendAction : Type 0 where
  claim refund : SpendAction

-- A fact about the chain without its ID (`Omit<FundingFact, "factId">`).
pub record UnsignedFunding : Type 0 where
  pub leg : SwapLeg
  pub swap_id : Text
  pub terms_hash : Text
  pub transaction_id : Text
  pub block_hash : Text
  pub block_height : ℕ
  pub executed_at_seconds : ℕ
  pub output_index : ℕ
  pub chain : Text
  pub asset : Text
  pub amount_atoms : ℕ
  pub lock_identity : Text
  pub escrow_record_id : Text
  pub funder : Text
  pub claim_recipient : Text
  pub refund_recipient : Text
  pub secret_hash : Text
  pub refund_time : ℕ
  pub successful : Bool

pub record UnsignedSpend : Type 0 where
  pub funding_fact_id : Text
  pub funding_transaction_id : Text
  pub funding_output_index : ℕ
  pub leg : SwapLeg
  pub action : SpendAction
  pub swap_id : Text
  pub terms_hash : Text
  pub transaction_id : Text
  pub block_hash : Text
  pub block_height : ℕ
  pub executed_at_seconds : ℕ
  pub input_or_log_index : ℕ
  pub chain : Text
  pub asset : Text
  pub amount_atoms : ℕ
  pub lock_identity : Text
  pub escrow_record_id : Text
  pub recipient : Text
  pub successful : Bool
  pub preimage : Option Text

-- What is hashed: the text that is joined from these parts, under its first line; or the bytes of a
-- preimage.
pub data Hashed : Type 0 where
  swap_terms : SwapTerms → Hashed
  swap_id : Text → Hashed
  swap_fill : Text → Text → ℕ → ℕ → ℕ → ℕ → Hashed
  market_policy : List SwapMarketIdentity → Hashed
  observer_policy : List Text → ℕ → ℕ → Hashed
  finality_policy : Text → ℕ → ℕ → Hashed
  timing_policy : ℕ → ℕ → ℕ → Hashed
  funding_fact : UnsignedFunding → Hashed
  spend_fact : UnsignedSpend → Hashed
  preimage_bytes : Text → Hashed

-- The fields of the terms, in order (lines 130 to 164). Each check returns the value that it is
-- given, so that the normalized terms are the terms.
unfoldable pub check_term_fields : SwapTerms → List (Result (Unit {0}))
check_term_fields terms =
    without_value (canonical_zcash_chain terms.zec_chain)
    ∷ without_value (canonical_quote_chain terms.quote_chain)
    ∷ without_value (canonical_hex32 terms.fill_id)
    ∷ without_value (canonical_uint64 true terms.fill_index)
    ∷ without_value (canonical_hex32 terms.zec_order_hash)
    ∷ without_value (canonical_hex32 terms.stablecoin_order_hash)
    ∷ without_value (canonical_hex32 terms.zec_seller_id)
    ∷ without_value (canonical_hex32 terms.stablecoin_seller_id)
    ∷ without_value (canonical_zec_asset terms.zec_asset terms.zec_chain)
    ∷ without_value (canonical_quote_asset terms.quote_asset terms.quote_chain)
    ∷ without_value (canonical_uint64 false terms.zec_amount_zatoshis)
    ∷ without_value (canonical_uint64 false terms.quote_amount_atoms)
    ∷ without_value (canonical_uint64 false terms.execution_price_ticks)
    ∷ without_value (canonical_uint64 true terms.protocol_fee_quote_atoms)
    ∷ without_value (canonical_address terms.fee_recipient)
    ∷ without_value (canonical_uint64 true terms.maximum_fee_bps)
    ∷ without_value (canonical_pub_key_hash terms.zcash_lock_script_hash)
    ∷ without_value (canonical_pub_key_hash terms.zcash_claim_pub_key_hash)
    ∷ without_value (canonical_pub_key_hash terms.zcash_refund_pub_key_hash)
    ∷ without_value (canonical_address terms.evm_funder)
    ∷ without_value (canonical_address terms.evm_claim_recipient)
    ∷ without_value (canonical_address terms.evm_refund_recipient)
    ∷ without_value (canonical_address terms.evm_escrow_contract)
    ∷ without_value (canonical_hex32 terms.secret_hash)
    ∷ without_value (canonical_uint64 false terms.authorization_deadline)
    ∷ without_value (canonical_uint64 false terms.zec_fund_by)
    ∷ without_value (canonical_uint64 false terms.evm_fund_by)
    ∷ without_value (canonical_uint64 false terms.evm_claim_safety_cutoff)
    ∷ without_value (canonical_uint64 false terms.evm_refund_time)
    ∷ without_value (canonical_uint64 false terms.zec_refund_time)
    ∷ without_value (canonical_hex32 terms.timeout_policy_id)
    ∷ without_value (canonical_hex32 terms.market_policy_id)
    ∷ without_value (canonical_hex32 terms.observer_policy_id)
    ∷ without_value (canonical_hex32 terms.zec_finality_policy_id)
    ∷ without_value (canonical_hex32 terms.evm_finality_policy_id)
    ∷ []

-- Lines 167 to 182.
unfoldable pub check_term_amounts : SwapTerms → List (Result (Unit {0}))
check_term_amounts terms =
    throw_if (same_text terms.zec_order_hash terms.stablecoin_order_hash)
      "Swap orders must be distinct"
    ∷ throw_if (same_text terms.zec_seller_id terms.stablecoin_seller_id)
        "Swap parties must be distinct"
    ∷ throw_if (ltb 30 terms.maximum_fee_bps) "Maximum fee exceeds the protocol cap"
    ∷ throw_if
        (ltb (terms.quote_amount_atoms * terms.maximum_fee_bps)
          (terms.protocol_fee_quote_atoms * 10000))
        "Protocol fee exceeds the signed maximum"
    ∷ throw_if (not (terms.protocol_fee_quote_atoms == 0))
        "Protocol fees remain disabled until exact escrow fee routing is implemented"
    ∷ throw_if (not ((terms.zec_amount_zatoshis * terms.execution_price_ticks) % 10000 == 0))
        "Native swap quote amount requires exact integer settlement"
    ∷ throw_if
        (not (
          terms.quote_amount_atoms
          == (terms.zec_amount_zatoshis * terms.execution_price_ticks) / 10000))
        "Quote amount does not reconcile with the signed ZEC amount and execution price"
    ∷ []

module _ (sha256_hex : Hashed → Text) where
  unfoldable pub derive_swap_fill_id : Text → Text → ℕ → ℕ → ℕ → ℕ → Result Text
  derive_swap_fill_id zec_order stablecoin_order index zec_amount quote_amount price =
      all_checks (
        without_value (canonical_hex32 zec_order)
        ∷ without_value (canonical_hex32 stablecoin_order)
        ∷ without_value (canonical_uint64 true index)
        ∷ without_value (canonical_uint64 false zec_amount)
        ∷ without_value (canonical_uint64 false quote_amount)
        ∷ without_value (canonical_uint64 false price)
        ∷ [])
      >> ok (sha256_hex (swap_fill zec_order stablecoin_order index zec_amount quote_amount price))

  unfoldable pub validate_swap_terms : SwapTerms → Result SwapTerms
  validate_swap_terms terms =
      throw_if (not (terms.version == 1)) "Unsupported swap terms version"
      >> all_checks (check_term_fields terms)
      >> all_checks (check_term_amounts terms)
      >> derive_swap_fill_id terms.zec_order_hash terms.stablecoin_order_hash terms.fill_index
          terms.zec_amount_zatoshis terms.quote_amount_atoms terms.execution_price_ticks
      >>= λ id.
          throw_if (not (same_text terms.fill_id id))
            "Fill ID does not match the canonical match fields"
          >> ok terms

  unfoldable pub hash_swap_terms : SwapTerms → Result Text
  hash_swap_terms terms =
      validate_swap_terms terms >>= λ validated. ok (sha256_hex (swap_terms validated))

  unfoldable pub swap_id_for_terms : SwapTerms → Result Text
  swap_id_for_terms terms = hash_swap_terms terms >>= λ hash. ok (sha256_hex (swap_id hash))
