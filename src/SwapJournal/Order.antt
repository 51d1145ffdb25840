-- ===== src/SwapJournal/Order.antt =====
-- The order of the two legs in every state that an event leads to (src/lib/swap-state.ts).
use phlebas.Base.{ℕ, true, false, Option, ◌≡◌, Yields, Yields-all, arith, all_checks}
use phlebas.OrderDomain.{Text}
use phlebas.SwapDomain.{is_there}
use phlebas.SwapDomain.Terms.{SwapLeg, zec, evm, Hashed}
use phlebas.Swap.{SwapState, FundingEvidence, SpendEvidence, SwapDisputeReason, leg_of}
use phlebas.Swap.Legs.{
  is_unfunded, is_claim_phase, is_claimed_confirmed, requires_confirmed_funding,
}
use phlebas.Swap.Evidence.{validate_funding_evidence, validate_spend_evidence}
use phlebas.Swap.Integrity.{check_progression, assert_swap_state_integrity, assert_not_disputed}
use phlebas.Swap.Inversion.{HasIntegrity, assert_swap_state_integrity-HasIntegrity}
use phlebas.Swap.Recovery.{
  replace_swap_funding_attestation, replace_swap_spend_attestation, flag_swap_dispute,
  retract_swap_evidence,
}
use phlebas.Swap.Operations.{
  authorize_swap_terms, prepare_swap_funding, abandon_swap_funding, expire_swap, check_window_open,
}
use phlebas.Swap.Observations.{
  observe_swap_funding, confirm_swap_funding, observe_swap_spend, confirm_swap_spend, or_conflict,
  record_funding, record_spend, with_spend_seen, with_spend_confirmed, with_observer_conflict,
  check_zec_claim,
}

-- EVM funding is prepared after ZEC funding is confirmed, and ZEC is claimed after the EVM claim is
-- confirmed and its secret recorded.
abbrev pub IsOrdered : SwapState → Type 0
IsOrdered state =
    (is_unfunded state.evm.phase ≡ false → requires_confirmed_funding state.zec.phase ≡ true)
    × (is_claim_phase state.zec.phase ≡ true → is_claimed_confirmed state.evm.phase ≡ true)
    × (is_claim_phase state.zec.phase ≡ true → is_there state.confirmed_secret ≡ true)

module _ (sha256_hex : Hashed → Text) where
  integrity-IsOrdered : (state : SwapState) → HasIntegrity sha256_hex state → IsOrdered state
  unfolding check_progression all_checks
  integrity-IsOrdered state i =
      (ground (arith, i.progression), ground (arith, i.progression), ground (arith, i.claim_secret))

  -- A state that is asserted is ordered.
  assert_swap_state_integrity-IsOrdered :
      (state : SwapState)
      → Yields (λ _. IsOrdered state) (assert_swap_state_integrity sha256_hex state)
  assert_swap_state_integrity-IsOrdered state =
      Yields-all (λ _. IsOrdered state) (assert_swap_state_integrity sha256_hex state)
        λ next h.
          integrity-IsOrdered state
            (assert_swap_state_integrity-HasIntegrity sha256_hex state next h).1

  pub authorize_swap_terms-IsOrdered :
      (state : SwapState) (party hash : Text) (now : ℕ)
      → Yields IsOrdered (authorize_swap_terms sha256_hex state party hash now)
  unfolding authorize_swap_terms
  authorize_swap_terms-IsOrdered state party hash now =
      ground (arith, assert_swap_state_integrity-IsOrdered state)

  pub prepare_swap_funding-IsOrdered :
      (state : SwapState) (leg : SwapLeg) (hash : Text) (now : ℕ)
      → Yields IsOrdered (prepare_swap_funding sha256_hex state leg hash now)
  unfolding prepare_swap_funding assert_not_disputed check_window_open
  prepare_swap_funding-IsOrdered state zec hash now =
      ground (arith, assert_swap_state_integrity-IsOrdered state)
  prepare_swap_funding-IsOrdered state evm hash now =
      ground (arith, assert_swap_state_integrity-IsOrdered state)

  pub abandon_swap_funding-IsOrdered :
      (state : SwapState) (leg : SwapLeg) (hash : Text) (now : ℕ)
      → Yields IsOrdered (abandon_swap_funding sha256_hex state leg hash now)
  unfolding abandon_swap_funding assert_not_disputed
  abandon_swap_funding-IsOrdered state zec hash now =
      ground (arith, assert_swap_state_integrity-IsOrdered state)
  abandon_swap_funding-IsOrdered state evm hash now =
      ground (arith, assert_swap_state_integrity-IsOrdered state)

  pub expire_swap-IsOrdered :
      (state : SwapState) (at : ℕ) (reason : Text)
      → Yields IsOrdered (expire_swap sha256_hex state at reason)
  unfolding expire_swap
  expire_swap-IsOrdered state at reason = ground arith

  pub confirm_swap_funding-IsOrdered :
      (state : SwapState) (leg : SwapLeg) (id : Text) (at : ℕ)
      → Yields IsOrdered (confirm_swap_funding sha256_hex state leg id at)
  unfolding confirm_swap_funding assert_not_disputed
  confirm_swap_funding-IsOrdered state zec id at =
      ground (arith, assert_swap_state_integrity-IsOrdered state)
  confirm_swap_funding-IsOrdered state evm id at =
      ground (arith, assert_swap_state_integrity-IsOrdered state)

  pub confirm_swap_spend-IsOrdered :
      (state : SwapState) (leg : SwapLeg) (id : Text) (at : ℕ)
      → Yields IsOrdered (confirm_swap_spend sha256_hex state leg id at)
  unfolding confirm_swap_spend with_spend_confirmed assert_not_disputed
  confirm_swap_spend-IsOrdered state zec id at =
      ground (arith, assert_swap_state_integrity-IsOrdered state)
  confirm_swap_spend-IsOrdered state evm id at =
      ground (arith, assert_swap_state_integrity-IsOrdered state)

  record_funding-IsOrdered :
      (state : SwapState) (evidence : FundingEvidence)
      → IsOrdered state
      → Yields IsOrdered
          (record_funding sha256_hex state evidence (leg_of state evidence.fact.unsigned.leg))
  unfolding record_funding or_conflict with_observer_conflict assert_swap_state_integrity
  record_funding-IsOrdered state evidence h = ground arith

  pub observe_swap_funding-IsOrdered :
      (state : SwapState) (evidence : FundingEvidence)
      → Yields IsOrdered (observe_swap_funding sha256_hex state evidence)
  unfolding observe_swap_funding validate_funding_evidence assert_not_disputed
  observe_swap_funding-IsOrdered state evidence =
      ground (
        arith,
        assert_swap_state_integrity-IsOrdered state,
        record_funding-IsOrdered state evidence,
      )

  record_spend-IsOrdered :
      (state : SwapState) (evidence : SpendEvidence)
      → IsOrdered state
      → Yields IsOrdered
          (record_spend sha256_hex state evidence (leg_of state evidence.fact.unsigned.leg))
  unfolding record_spend check_zec_claim with_spend_seen or_conflict with_observer_conflict
      assert_swap_state_integrity
  record_spend-IsOrdered state evidence h = ground arith

  pub observe_swap_spend-IsOrdered :
      (state : SwapState) (evidence : SpendEvidence)
      → Yields IsOrdered (observe_swap_spend sha256_hex state evidence)
  unfolding observe_swap_spend validate_spend_evidence assert_not_disputed
  observe_swap_spend-IsOrdered state evidence =
      ground
        (arith, assert_swap_state_integrity-IsOrdered state, record_spend-IsOrdered state evidence)

  -- The operations that move no leg.
  pub flag_swap_dispute-IsOrdered :
      (state : SwapState) (reason : SwapDisputeReason) (detail : Text) (id : Option Text)
      → Yields IsOrdered (flag_swap_dispute sha256_hex state reason detail id)
  unfolding flag_swap_dispute assert_swap_state_integrity
  flag_swap_dispute-IsOrdered state reason detail id =
      ground (arith, assert_swap_state_integrity-IsOrdered state)

  pub retract_swap_evidence-IsOrdered :
      (state : SwapState) (id detail : Text)
      → Yields IsOrdered (retract_swap_evidence sha256_hex state id detail)
  unfolding retract_swap_evidence assert_swap_state_integrity
  retract_swap_evidence-IsOrdered state id detail =
      ground (arith, assert_swap_state_integrity-IsOrdered state)

  pub replace_swap_funding_attestation-IsOrdered :
      (state : SwapState) (leg : SwapLeg) (old : Text) (evidence : FundingEvidence) (id : Text)
      (at : ℕ) (detail : Text)
      → Yields IsOrdered
          (replace_swap_funding_attestation sha256_hex state leg old evidence id at detail)
  unfolding replace_swap_funding_attestation assert_swap_state_integrity
  replace_swap_funding_attestation-IsOrdered state zec old evidence id at detail =
      ground (arith, assert_swap_state_integrity-IsOrdered state)
  replace_swap_funding_attestation-IsOrdered state evm old evidence id at detail =
      ground (arith, assert_swap_state_integrity-IsOrdered state)

  pub replace_swap_spend_attestation-IsOrdered :
      (state : SwapState) (leg : SwapLeg) (old : Text) (evidence : SpendEvidence) (id : Text)
      (at : ℕ) (detail : Text)
      → Yields IsOrdered
          (replace_swap_spend_attestation sha256_hex state leg old evidence id at detail)
  unfolding replace_swap_spend_attestation assert_swap_state_integrity
  replace_swap_spend_attestation-IsOrdered state zec old evidence id at detail =
      ground (arith, assert_swap_state_integrity-IsOrdered state)
  replace_swap_spend_attestation-IsOrdered state evm old evidence id at detail =
      ground (arith, assert_swap_state_integrity-IsOrdered state)
