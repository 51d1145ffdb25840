-- ===== src/SwapJournal/Events.antt =====
-- The events of a swap that settles, and of one that is refunded, for the runs of
-- src/lib/swap-journal.ts.
use phlebas.Base.{ℕ, List, [], ◌∷◌, none, some}
use phlebas.OrderDomain.{Text}
use phlebas.SwapDomain.Terms.{zec, evm, claim, refund}
use phlebas.Swap.{FundingFact, SpendFact}
use phlebas.Swap.Fixtures.{hash_of, terms, zec_funding, evm_funding, spend_of, report}
use phlebas.SwapJournal.{
  SwapEventPayload, authorize_terms, prepare_funding, observe_funding, confirm_funding,
  observe_spend, confirm_spend,
}

abbrev pub secret : Text
secret = hash_of b'f'

abbrev pub evm_claim : SpendFact
evm_claim = spend_of evm_funding claim 110 b'b' terms.evm_claim_recipient (some secret)

abbrev pub zec_claim : SpendFact
zec_claim = spend_of zec_funding claim 140 b'a' terms.zcash_claim_pub_key_hash (some secret)

abbrev pub zec_refund : SpendFact
zec_refund = spend_of zec_funding refund 610 b'a' terms.zcash_refund_pub_key_hash none

abbrev funding_seen_by : FundingFact → ℕ → ℕ → ℕ → SwapEventPayload
funding_seen_by fact id source at =
    observe_funding (record { fact = fact; attestation = report fact.fact_id id source at })

abbrev spend_seen_by : SpendFact → ℕ → ℕ → ℕ → SwapEventPayload
spend_seen_by fact id source at =
    observe_spend (record { fact = fact; attestation = report fact.fact_id id source at })

abbrev pub zec_funded : List SwapEventPayload
zec_funded =
    authorize_terms terms.zec_seller_id (hash_of b'1') 10
    ∷ authorize_terms terms.stablecoin_seller_id (hash_of b'1') 20
    ∷ prepare_funding zec (hash_of b'f') 30
    ∷ funding_seen_by zec_funding b'1' b'1' 50
    ∷ funding_seen_by zec_funding b'2' b'2' 50
    ∷ confirm_funding zec zec_funding.fact_id 60
    ∷ []

abbrev pub evm_funded : List SwapEventPayload
evm_funded =
    prepare_funding evm (hash_of b'e') 70
    ∷ funding_seen_by evm_funding b'3' b'1' 90
    ∷ funding_seen_by evm_funding b'4' b'2' 90
    ∷ confirm_funding evm evm_funding.fact_id 100
    ∷ []

abbrev pub evm_claimed : List SwapEventPayload
evm_claimed =
    spend_seen_by evm_claim b'5' b'1' 120
    ∷ spend_seen_by evm_claim b'6' b'2' 120
    ∷ confirm_spend evm evm_claim.fact_id 130
    ∷ []

abbrev pub zec_claimed : List SwapEventPayload
zec_claimed =
    spend_seen_by zec_claim b'7' b'1' 150
    ∷ spend_seen_by zec_claim b'8' b'2' 150
    ∷ confirm_spend zec zec_claim.fact_id 160
    ∷ []

abbrev pub zec_refunded : List SwapEventPayload
zec_refunded =
    spend_seen_by zec_refund b'7' b'1' 620
    ∷ spend_seen_by zec_refund b'8' b'2' 620
    ∷ confirm_spend zec zec_refund.fact_id 630
    ∷ []
