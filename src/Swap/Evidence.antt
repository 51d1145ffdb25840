-- ===== src/Swap/Evidence.antt =====
-- The validation of funding and spend evidence of src/lib/swap-state.ts. The canonical checks return
-- the values that they are given, so that the evidence is returned as it is.
use phlebas.Base.{
  ℕ, Bool, true, false, not, ◌&&◌, ◌||◌, List, [], ◌∷◌, Option, none, some, Result, ok, err, ◌>>=◌,
  ◌>>◌, throw_if, ltb, leb, ◌==◌, without_value, all_checks,
}
use phlebas.OrderDomain.{Text, same_text}
use phlebas.SwapDomain.{SwapTerms, is_lower_hex_bytes, is_there}
use phlebas.SwapDomain.Terms.{
  SwapLeg, zec, evm, SpendAction, claim, refund, UnsignedFunding, UnsignedSpend, Hashed,
  funding_fact, spend_fact, preimage_bytes,
}
use phlebas.Swap.{
  FundingFact, SpendFact, FundingEvidence, SpendEvidence, SwapState, leg_of, or_throw, uint64,
  nonzero_uint64, canonical_id, latest_authorization_time,
}
use phlebas.Swap.Attestations.{funding_chain_fact, spend_chain_fact, validate_observer_attestation}

pub record ExpectedFunding : Type 0 where
  pub chain : Text
  pub asset : Text
  pub amount_atoms : ℕ
  pub lock_identity : Text
  pub escrow_record_id : Text
  pub funder : Text
  pub claim_recipient : Text
  pub refund_recipient : Text
  pub secret_hash : Text
  pub refund_time : ℕ

abbrev pub expected_funding : SwapState → SwapLeg → ExpectedFunding
expected_funding state zec = record {
  chain = state.terms.zec_chain;
  asset = state.terms.zec_asset;
  amount_atoms = state.terms.zec_amount_zatoshis;
  lock_identity = state.terms.zcash_lock_script_hash;
  escrow_record_id = state.swap_id;
  funder = state.terms.zec_seller_id;
  claim_recipient = state.terms.zcash_claim_pub_key_hash;
  refund_recipient = state.terms.zcash_refund_pub_key_hash;
  secret_hash = state.terms.secret_hash;
  refund_time = state.terms.zec_refund_time;
}
expected_funding state evm = record {
  chain = state.terms.quote_chain;
  asset = state.terms.quote_asset;
  amount_atoms = state.terms.quote_amount_atoms;
  lock_identity = state.terms.evm_escrow_contract;
  escrow_record_id = state.swap_id;
  funder = state.terms.evm_funder;
  claim_recipient = state.terms.evm_claim_recipient;
  refund_recipient = state.terms.evm_refund_recipient;
  secret_hash = state.terms.secret_hash;
  refund_time = state.terms.evm_refund_time;
}

-- Lines 889 to 908, in the order of the fields, and the fact ID.
unfoldable pub check_funding_fields : FundingFact → List (Result (Unit {0}))
check_funding_fields fact =
    without_value (canonical_id fact.unsigned.swap_id)
    ∷ without_value (canonical_id fact.unsigned.terms_hash)
    ∷ without_value (canonical_id fact.unsigned.transaction_id)
    ∷ without_value (canonical_id fact.unsigned.block_hash)
    ∷ without_value (uint64 fact.unsigned.block_height)
    ∷ without_value (uint64 fact.unsigned.executed_at_seconds)
    ∷ without_value (uint64 fact.unsigned.output_index)
    ∷ without_value (nonzero_uint64 fact.unsigned.amount_atoms)
    ∷ without_value (canonical_id fact.unsigned.escrow_record_id)
    ∷ without_value (canonical_id fact.unsigned.secret_hash)
    ∷ without_value (nonzero_uint64 fact.unsigned.refund_time)
    ∷ without_value (canonical_id fact.fact_id)
    ∷ []

-- Lines 914 to 919: the terms that the fact must have.
unfoldable pub check_expected : UnsignedFunding → ExpectedFunding → List (Result (Unit {0}))
check_expected fact expected =
    throw_if (not (same_text fact.chain expected.chain))
      "Funding evidence chain does not match swap terms"
    ∷ throw_if (not (same_text fact.asset expected.asset))
        "Funding evidence asset does not match swap terms"
    ∷ throw_if (not (fact.amount_atoms == expected.amount_atoms))
        "Funding evidence amountAtoms does not match swap terms"
    ∷ throw_if (not (same_text fact.lock_identity expected.lock_identity))
        "Funding evidence lockIdentity does not match swap terms"
    ∷ throw_if (not (same_text fact.escrow_record_id expected.escrow_record_id))
        "Funding evidence escrowRecordId does not match swap terms"
    ∷ throw_if (not (same_text fact.funder expected.funder))
        "Funding evidence funder does not match swap terms"
    ∷ throw_if (not (same_text fact.claim_recipient expected.claim_recipient))
        "Funding evidence claimRecipient does not match swap terms"
    ∷ throw_if (not (same_text fact.refund_recipient expected.refund_recipient))
        "Funding evidence refundRecipient does not match swap terms"
    ∷ throw_if (not (same_text fact.secret_hash expected.secret_hash))
        "Funding evidence secretHash does not match swap terms"
    ∷ throw_if (not (fact.refund_time == expected.refund_time))
        "Funding evidence refundTime does not match swap terms"
    ∷ []

-- `time === undefined || at < time`.
abbrev pub is_before : ℕ → Option ℕ → Bool
is_before at none = true
is_before at (some time) = ltb at time

abbrev pub is_zec : SwapLeg → Bool
is_zec zec = true
is_zec evm = false

-- Lines 920 to 937.
unfoldable pub check_funding_times : SwapState → UnsignedFunding → List (Result (Unit {0}))
check_funding_times state fact =
    throw_if (is_zec fact.leg && leb state.terms.zec_fund_by fact.executed_at_seconds)
      "ZEC funding was executed at or after its signed cutoff"
    ∷ throw_if (not (is_zec fact.leg) && ltb state.terms.evm_fund_by fact.executed_at_seconds)
        "EVM funding was executed after its signed cutoff"
    ∷ throw_if
        (is_before fact.executed_at_seconds (leg_of state fact.leg).funding_prepared_at_seconds)
        "Funding execution cannot predate its prepared artifact"
    ∷ (latest_authorization_time state >>= λ authorized.
        throw_if (ltb fact.executed_at_seconds authorized)
          "Funding execution cannot predate exact terms authorization")
    ∷ throw_if
        (not (is_zec fact.leg)
          && is_before fact.executed_at_seconds state.zec.funding_confirmed_at_seconds)
        "EVM funding execution cannot predate policy-confirmed ZEC funding"
    ∷ []

-- `expectedSpendRecipient`.
abbrev pub expected_spend_recipient : SwapTerms → SwapLeg → SpendAction → Text
expected_spend_recipient terms zec claim = terms.zcash_claim_pub_key_hash
expected_spend_recipient terms zec refund = terms.zcash_refund_pub_key_hash
expected_spend_recipient terms evm claim = terms.evm_claim_recipient
expected_spend_recipient terms evm refund = terms.evm_refund_recipient

unfoldable pub canonical_preimage : Option Text → Result Text
canonical_preimage none = err "Claim preimage must be exactly 32 lowercase bytes"
canonical_preimage (some value) =
    throw_if (not (is_lower_hex_bytes 64 value)) "Claim preimage must be exactly 32 lowercase bytes"
    >> ok value

-- Lines 1093 to 1114, and the fact ID.
unfoldable pub check_spend_fields : SpendFact → List (Result (Unit {0}))
check_spend_fields fact =
    without_value (canonical_id fact.unsigned.funding_fact_id)
    ∷ without_value (canonical_id fact.unsigned.funding_transaction_id)
    ∷ without_value (uint64 fact.unsigned.funding_output_index)
    ∷ without_value (canonical_id fact.unsigned.swap_id)
    ∷ without_value (canonical_id fact.unsigned.terms_hash)
    ∷ without_value (canonical_id fact.unsigned.transaction_id)
    ∷ without_value (canonical_id fact.unsigned.block_hash)
    ∷ without_value (uint64 fact.unsigned.block_height)
    ∷ without_value (uint64 fact.unsigned.executed_at_seconds)
    ∷ without_value (uint64 fact.unsigned.input_or_log_index)
    ∷ without_value (nonzero_uint64 fact.unsigned.amount_atoms)
    ∷ without_value (canonical_id fact.unsigned.escrow_record_id)
    ∷ without_value (canonical_id fact.fact_id)
    ∷ []

-- The test of lines 1120 to 1127.
unfoldable pub spends_funding : UnsignedSpend → FundingFact → Bool
spends_funding spend funding =
    same_text spend.funding_fact_id funding.fact_id
    && same_text spend.funding_transaction_id funding.unsigned.transaction_id
    && spend.funding_output_index == funding.unsigned.output_index
    && same_text spend.lock_identity funding.unsigned.lock_identity
    && same_text spend.escrow_record_id funding.unsigned.escrow_record_id
    && same_text spend.chain funding.unsigned.chain
    && same_text spend.asset funding.unsigned.asset
    && spend.amount_atoms == funding.unsigned.amount_atoms

abbrev pub refund_deadline : SwapTerms → SwapLeg → ℕ
refund_deadline terms zec = terms.zec_refund_time
refund_deadline terms evm = terms.evm_refund_time

module _ (sha256_hex : Hashed → Text) where
  unfoldable pub funding_fact_id : UnsignedFunding → Text
  funding_fact_id fact = sha256_hex (funding_fact fact)

  unfoldable pub spend_fact_id : UnsignedSpend → Text
  spend_fact_id fact = sha256_hex (spend_fact fact)

  unfoldable pub validate_funding_evidence : SwapState → FundingEvidence → Result FundingEvidence
  validate_funding_evidence state evidence =
      all_checks (check_funding_fields evidence.fact)
      >> throw_if (not (same_text evidence.fact.fact_id (funding_fact_id evidence.fact.unsigned)))
          "Funding fact ID does not match its canonical content"
      >> throw_if
          (not (same_text evidence.fact.unsigned.swap_id state.swap_id)
            || not (same_text evidence.fact.unsigned.terms_hash state.terms_hash))
          "Funding fact does not bind this swap"
      >> throw_if (not evidence.fact.unsigned.successful)
          "Failed transaction execution is not funding evidence"
      >> all_checks (
          check_expected evidence.fact.unsigned (expected_funding state evidence.fact.unsigned.leg))
      >> all_checks (check_funding_times state evidence.fact.unsigned)
      >> without_value (
          validate_observer_attestation state evidence.fact.unsigned.leg
            (funding_chain_fact evidence.fact) evidence.attestation)
      >> ok evidence

  -- Lines 1141 to 1153.
  unfoldable pub check_spend_action : SwapState → UnsignedSpend → SpendAction → Result (Unit {0})
  check_spend_action state fact refund =
      throw_if (ltb fact.executed_at_seconds (refund_deadline state.terms fact.leg))
        "Refund is not eligible before the signed deadline"
      >> throw_if (is_there fact.preimage) "Refund evidence cannot reveal a claim preimage"
  check_spend_action state fact claim = canonical_preimage fact.preimage >>= λ preimage.
      throw_if (not (same_text (sha256_hex (preimage_bytes preimage)) state.terms.secret_hash))
        "Claim preimage does not match the signed hashlock"
      >> throw_if
          (not (is_zec fact.leg)
            && ltb state.terms.evm_claim_safety_cutoff fact.executed_at_seconds)
          "EVM claim cannot be accepted after its signed claim cutoff"

  -- Lines 1115 to 1153, with the funding that is spent.
  unfoldable pub check_spend : SwapState → SpendFact → FundingFact → List (Result (Unit {0}))
  check_spend state fact funding =
      throw_if (not (same_text fact.fact_id (spend_fact_id fact.unsigned)))
        "Spend fact ID does not match its canonical content"
      ∷ throw_if
          (not (same_text fact.unsigned.swap_id state.swap_id)
            || not (same_text fact.unsigned.terms_hash state.terms_hash))
          "Spend fact does not bind this swap"
      ∷ throw_if (not (spends_funding fact.unsigned funding))
          "Spend fact does not bind the funded outpoint or escrow record"
      ∷ throw_if
          (not (
            same_text fact.unsigned.recipient
              (expected_spend_recipient state.terms fact.unsigned.leg fact.unsigned.action)))
          "Spend evidence recipient does not match swap terms"
      ∷ throw_if (not fact.unsigned.successful) "Failed transaction execution is not spend evidence"
      ∷ throw_if
          (is_before fact.unsigned.executed_at_seconds
              (leg_of state fact.unsigned.leg).funding_confirmed_at_seconds
            || ltb fact.unsigned.executed_at_seconds funding.unsigned.executed_at_seconds
            || ltb fact.unsigned.block_height funding.unsigned.block_height)
          "Spend execution cannot predate its funded and policy-confirmed leg"
      ∷ check_spend_action state fact.unsigned fact.unsigned.action
      ∷ []

  unfoldable pub validate_spend_evidence : SwapState → SpendEvidence → Result SpendEvidence
  validate_spend_evidence state evidence =
      or_throw (leg_of state evidence.fact.unsigned.leg).funding
        "Spend evidence requires an exact funded chain fact"
      >>= λ funding.
          all_checks (check_spend_fields evidence.fact)
          >> all_checks (check_spend state evidence.fact funding)
          >> without_value (
              validate_observer_attestation state evidence.fact.unsigned.leg
                (spend_chain_fact evidence.fact) evidence.attestation)
          >> ok evidence
