-- ===== src/Swap/Fixtures.antt =====
-- A swap with concrete terms, policies and evidence, for the runs of src/lib/swap-state.ts. Each hash
-- is a text of its own for each kind of what is hashed.
use phlebas.Base.{ℕ, zero, suc, true, [], ◌∷◌, ◌++◌, Option}
use phlebas.Base.Text.{codes}
use phlebas.OrderDomain.{Text}
use phlebas.SwapDomain.{SwapTerms, SwapMarketPolicy}
use phlebas.SwapDomain.Terms.{
  SwapTimingPolicy, SwapFinalityPolicy, SwapLeg, zec, evm, SpendAction, Hashed, swap_terms, swap_id,
  swap_fill, market_policy, observer_policy, finality_policy, timing_policy, funding_fact,
  spend_fact, preimage_bytes,
}
use phlebas.SwapPolicy.{SwapEvidencePolicies}
use phlebas.Swap.{FundingFact, SpendFact, ObserverAttestation}

abbrev repeated : ℕ → ℕ → Text
repeated zero c = []
repeated (suc n) c = c ∷ repeated n c

abbrev pub hash_of : ℕ → Text
hash_of c = b'0' ∷ b'x' ∷ repeated 64 c

abbrev pub address_of : ℕ → Text
address_of c = b'0' ∷ b'x' ∷ repeated 40 c

abbrev of_leg : SwapLeg → ℕ → ℕ → Text
of_leg zec a b = hash_of a
of_leg evm a b = hash_of b

abbrev pub sha256_hex : Hashed → Text
sha256_hex (swap_terms terms) = hash_of b'1'
sha256_hex (swap_id hash) = hash_of b'2'
sha256_hex (swap_fill _ _ _ _ _ _) = hash_of b'3'
sha256_hex (market_policy markets) = hash_of b'4'
sha256_hex (observer_policy ids count delay) = hash_of b'5'
sha256_hex (finality_policy chain confirmations age) = hash_of b'6'
sha256_hex (timing_policy _ _ _) = hash_of b'7'
sha256_hex (funding_fact fact) = of_leg fact.leg b'8' b'9'
sha256_hex (spend_fact fact) = of_leg fact.leg b'a' b'b'
sha256_hex (preimage_bytes preimage) = hash_of b'c'

abbrev zec_chain : Text
zec_chain = codes "bip122:" ++ repeated 32 b'0'

abbrev pub terms : SwapTerms
terms = record {
  version = 1;
  fill_id = hash_of b'3';
  fill_index = 0;
  zec_order_hash = hash_of b'a';
  stablecoin_order_hash = hash_of b'b';
  zec_seller_id = hash_of b'd';
  stablecoin_seller_id = hash_of b'e';
  zec_chain = zec_chain;
  zec_asset = zec_chain ++ codes "/slip44:133";
  quote_chain = codes "eip155:1";
  quote_asset = codes "eip155:1/erc20:" ++ address_of b'a';
  zec_amount_zatoshis = 10000;
  quote_amount_atoms = 20000;
  execution_price_ticks = 20000;
  protocol_fee_quote_atoms = 0;
  fee_recipient = address_of b'1';
  maximum_fee_bps = 30;
  zcash_lock_script_hash = address_of b'2';
  zcash_claim_pub_key_hash = address_of b'3';
  zcash_refund_pub_key_hash = address_of b'4';
  evm_funder = address_of b'5';
  evm_claim_recipient = address_of b'6';
  evm_refund_recipient = address_of b'7';
  evm_escrow_contract = address_of b'8';
  secret_hash = hash_of b'c';
  authorization_deadline = 100;
  zec_fund_by = 200;
  evm_fund_by = 300;
  evm_claim_safety_cutoff = 400;
  evm_refund_time = 500;
  zec_refund_time = 600;
  timeout_policy_id = hash_of b'7';
  market_policy_id = hash_of b'4';
  observer_policy_id = hash_of b'5';
  zec_finality_policy_id = hash_of b'6';
  evm_finality_policy_id = hash_of b'6';
}

abbrev pub timing : SwapTimingPolicy
timing = record {
  minimum_funding_window_seconds = 50;
  minimum_claim_window_seconds = 50;
  minimum_safety_window_seconds = 50;
}

abbrev pub market : SwapMarketPolicy
market = record {
  version = 1;
  markets =
      record {
        zec_chain = terms.zec_chain;
        zec_asset = terms.zec_asset;
        quote_chain = terms.quote_chain;
        quote_asset = terms.quote_asset;
      }
      ∷ [];
}

abbrev finality : Text → SwapFinalityPolicy
finality chain = record {
  version = 1;
  chain = chain;
  minimum_confirmations = 2;
  minimum_age_seconds = 5;
}

abbrev pub evidence : SwapEvidencePolicies
evidence = record {
  observer = record {
    version = 1;
    source_ids = hash_of b'1' ∷ hash_of b'2' ∷ [];
    required_source_count = 2;
    max_observation_delay_seconds = 100;
  };
  zec_finality = finality terms.zec_chain;
  evm_finality = finality terms.quote_chain;
}

abbrev pub zec_funding : FundingFact
zec_funding = record {
  fact_id = hash_of b'8';
  unsigned = record {
    leg = zec;
    swap_id = hash_of b'2';
    terms_hash = hash_of b'1';
    transaction_id = hash_of b'a';
    block_hash = hash_of b'b';
    block_height = 5;
    executed_at_seconds = 40;
    output_index = 0;
    chain = terms.zec_chain;
    asset = terms.zec_asset;
    amount_atoms = terms.zec_amount_zatoshis;
    lock_identity = terms.zcash_lock_script_hash;
    escrow_record_id = hash_of b'2';
    funder = terms.zec_seller_id;
    claim_recipient = terms.zcash_claim_pub_key_hash;
    refund_recipient = terms.zcash_refund_pub_key_hash;
    secret_hash = terms.secret_hash;
    refund_time = terms.zec_refund_time;
    successful = true;
  };
}

abbrev pub evm_funding : FundingFact
evm_funding = record {
  fact_id = hash_of b'9';
  unsigned = record {
    leg = evm;
    swap_id = hash_of b'2';
    terms_hash = hash_of b'1';
    transaction_id = hash_of b'c';
    block_hash = hash_of b'd';
    block_height = 7;
    executed_at_seconds = 80;
    output_index = 1;
    chain = terms.quote_chain;
    asset = terms.quote_asset;
    amount_atoms = terms.quote_amount_atoms;
    lock_identity = terms.evm_escrow_contract;
    escrow_record_id = hash_of b'2';
    funder = terms.evm_funder;
    claim_recipient = terms.evm_claim_recipient;
    refund_recipient = terms.evm_refund_recipient;
    secret_hash = terms.secret_hash;
    refund_time = terms.evm_refund_time;
    successful = true;
  };
}

-- A spend of a funding at a time, to a recipient.
abbrev pub spend_of : FundingFact → SpendAction → ℕ → ℕ → Text → Option Text → SpendFact
spend_of funding action at id recipient preimage = record {
  fact_id = hash_of id;
  unsigned = record {
    funding_fact_id = funding.fact_id;
    funding_transaction_id = funding.unsigned.transaction_id;
    funding_output_index = funding.unsigned.output_index;
    leg = funding.unsigned.leg;
    action = action;
    swap_id = hash_of b'2';
    terms_hash = hash_of b'1';
    transaction_id = hash_of b'e';
    block_hash = hash_of b'f';
    block_height = 8;
    executed_at_seconds = at;
    input_or_log_index = 0;
    chain = funding.unsigned.chain;
    asset = funding.unsigned.asset;
    amount_atoms = funding.unsigned.amount_atoms;
    lock_identity = funding.unsigned.lock_identity;
    escrow_record_id = hash_of b'2';
    recipient = recipient;
    successful = true;
    preimage = preimage;
  };
}

-- The two reports of a fact: ID, source and time differ.
abbrev pub report : Text → ℕ → ℕ → ℕ → ObserverAttestation
report fact_id id source at = record {
  evidence_id = hash_of id;
  fact_id = fact_id;
  source_id = hash_of source;
  observer_policy_id = hash_of b'5';
  finality_policy_id = hash_of b'6';
  observed_at_seconds = at;
  tip_block_hash = hash_of b'd';
  tip_block_height = 9;
}
