-- ===== src/SwapJournal/Transitions.antt =====
-- The moves of the legs under each event of a swap (src/lib/swap-state.ts, src/lib/swap-journal.ts).
use phlebas.Base.{ℕ, Option, ◌≡◌, Yields, arith}
use phlebas.OrderDomain.{Text}
use phlebas.SwapDomain.Terms.{SwapLeg, zec, evm, Hashed}
use phlebas.Swap.{SwapState, FundingEvidence, SpendEvidence, SwapDisputeReason, leg_of}
use phlebas.Swap.Evidence.{validate_funding_evidence, validate_spend_evidence}
use phlebas.Swap.Integrity.{assert_swap_state_integrity}
use phlebas.Swap.Operations.{
  authorize_swap_terms, prepare_swap_funding, abandon_swap_funding, expire_swap,
}
use phlebas.Swap.Observations.{
  observe_swap_funding, confirm_swap_funding, observe_swap_spend, confirm_swap_spend, or_conflict,
  record_funding, record_spend, with_spend_seen, with_spend_confirmed, with_observer_conflict,
}
use phlebas.Swap.Recovery.{
  replace_swap_funding_attestation, replace_swap_spend_attestation, flag_swap_dispute,
  retract_swap_evidence,
}
use phlebas.Swap.Moves.{
  LegsMove, Moves-stays, Moves-prepares, Moves-abandons, Moves-empties, Moves-sees_funding,
  Moves-confirms_funding, Moves-sees_spend, Moves-confirms_spend,
}
use phlebas.SwapJournal.{
  SwapEventPayload, authorize_terms, prepare_funding, abandon_funding, expire, observe_funding,
  confirm_funding, observe_spend, confirm_spend, flag_dispute, retract_evidence,
  replace_funding_attestation, replace_spend_attestation, apply_swap_event,
}

module _ (sha256_hex : Hashed → Text) where
  -- An assertion of integrity returns the state that it is given.
  pub assert_swap_state_integrity_same :
      (state : SwapState)
      → Yields (λ next. next ≡ state) (assert_swap_state_integrity sha256_hex state)
  unfolding assert_swap_state_integrity
  assert_swap_state_integrity_same state = ground arith

  authorize_swap_terms-LegsMove :
      (state : SwapState) (party hash : Text) (now : ℕ)
      → Yields (LegsMove state) (authorize_swap_terms sha256_hex state party hash now)
  unfolding authorize_swap_terms
  authorize_swap_terms-LegsMove state party hash now =
      ground (arith, Moves-stays state.zec.phase, Moves-stays state.evm.phase)

  prepare_swap_funding-LegsMove :
      (state : SwapState) (leg : SwapLeg) (hash : Text) (now : ℕ)
      → Yields (LegsMove state) (prepare_swap_funding sha256_hex state leg hash now)
  unfolding prepare_swap_funding
  prepare_swap_funding-LegsMove state zec hash now =
      ground (arith, Moves-stays state.evm.phase, Moves-prepares state.zec.phase)
  prepare_swap_funding-LegsMove state evm hash now =
      ground (arith, Moves-stays state.zec.phase, Moves-prepares state.evm.phase)

  abandon_swap_funding-LegsMove :
      (state : SwapState) (leg : SwapLeg) (hash : Text) (now : ℕ)
      → Yields (LegsMove state) (abandon_swap_funding sha256_hex state leg hash now)
  unfolding abandon_swap_funding
  abandon_swap_funding-LegsMove state zec hash now =
      ground (arith, Moves-stays state.evm.phase, Moves-abandons state.zec.phase)
  abandon_swap_funding-LegsMove state evm hash now =
      ground (arith, Moves-stays state.zec.phase, Moves-abandons state.evm.phase)

  expire_swap-LegsMove :
      (state : SwapState) (at : ℕ) (reason : Text)
      → Yields (LegsMove state) (expire_swap sha256_hex state at reason)
  unfolding expire_swap
  expire_swap-LegsMove state at reason =
      ground (arith, Moves-empties state.zec.phase, Moves-empties state.evm.phase)

  confirm_swap_funding-LegsMove :
      (state : SwapState) (leg : SwapLeg) (id : Text) (at : ℕ)
      → Yields (LegsMove state) (confirm_swap_funding sha256_hex state leg id at)
  unfolding confirm_swap_funding
  confirm_swap_funding-LegsMove state zec id at =
      ground (arith, Moves-stays state.evm.phase, Moves-confirms_funding state.zec.phase)
  confirm_swap_funding-LegsMove state evm id at =
      ground (arith, Moves-stays state.zec.phase, Moves-confirms_funding state.evm.phase)

  confirm_swap_spend-LegsMove :
      (state : SwapState) (leg : SwapLeg) (id : Text) (at : ℕ)
      → Yields (LegsMove state) (confirm_swap_spend sha256_hex state leg id at)
  unfolding confirm_swap_spend with_spend_confirmed
  confirm_swap_spend-LegsMove state zec id at =
      ground (arith, Moves-stays state.evm.phase, Moves-confirms_spend state.zec.phase)
  confirm_swap_spend-LegsMove state evm id at =
      ground (arith, Moves-stays state.zec.phase, Moves-confirms_spend state.evm.phase)

  flag_swap_dispute-LegsMove :
      (state : SwapState) (reason : SwapDisputeReason) (detail : Text) (id : Option Text)
      → Yields (LegsMove state) (flag_swap_dispute sha256_hex state reason detail id)
  unfolding flag_swap_dispute assert_swap_state_integrity
  flag_swap_dispute-LegsMove state reason detail id =
      ground (arith, Moves-stays state.zec.phase, Moves-stays state.evm.phase)

  retract_swap_evidence-LegsMove :
      (state : SwapState) (id detail : Text)
      → Yields (LegsMove state) (retract_swap_evidence sha256_hex state id detail)
  unfolding retract_swap_evidence assert_swap_state_integrity
  retract_swap_evidence-LegsMove state id detail =
      ground (arith, Moves-stays state.zec.phase, Moves-stays state.evm.phase)

  replace_swap_funding_attestation-LegsMove :
      (state : SwapState) (leg : SwapLeg) (old : Text) (evidence : FundingEvidence) (id : Text)
      (at : ℕ) (detail : Text)
      → Yields
          (LegsMove state)
          (replace_swap_funding_attestation sha256_hex state leg old evidence id at detail)
  unfolding replace_swap_funding_attestation assert_swap_state_integrity
  replace_swap_funding_attestation-LegsMove state zec old evidence id at detail =
      ground (arith, Moves-stays state.zec.phase, Moves-stays state.evm.phase)
  replace_swap_funding_attestation-LegsMove state evm old evidence id at detail =
      ground (arith, Moves-stays state.zec.phase, Moves-stays state.evm.phase)

  replace_swap_spend_attestation-LegsMove :
      (state : SwapState) (leg : SwapLeg) (old : Text) (evidence : SpendEvidence) (id : Text)
      (at : ℕ) (detail : Text)
      → Yields
          (LegsMove state)
          (replace_swap_spend_attestation sha256_hex state leg old evidence id at detail)
  unfolding replace_swap_spend_attestation assert_swap_state_integrity
  replace_swap_spend_attestation-LegsMove state zec old evidence id at detail =
      ground (arith, Moves-stays state.zec.phase, Moves-stays state.evm.phase)
  replace_swap_spend_attestation-LegsMove state evm old evidence id at detail =
      ground (arith, Moves-stays state.zec.phase, Moves-stays state.evm.phase)

  record_funding-LegsMove :
      (state : SwapState) (evidence : FundingEvidence)
      → Yields
          (LegsMove state)
          (record_funding sha256_hex state evidence (leg_of state evidence.fact.unsigned.leg))
  unfolding record_funding or_conflict with_observer_conflict assert_swap_state_integrity
  record_funding-LegsMove state evidence = ground (
    arith,
    Moves-stays state.zec.phase,
    Moves-stays state.evm.phase,
    Moves-sees_funding state.zec.phase,
    Moves-sees_funding state.evm.phase,
  )

  observe_swap_funding-LegsMove :
      (state : SwapState) (evidence : FundingEvidence)
      → Yields (LegsMove state) (observe_swap_funding sha256_hex state evidence)
  unfolding observe_swap_funding validate_funding_evidence
  observe_swap_funding-LegsMove state evidence =
      ground (arith, record_funding-LegsMove state evidence)

  record_spend-LegsMove :
      (state : SwapState) (evidence : SpendEvidence)
      → Yields
          (LegsMove state)
          (record_spend sha256_hex state evidence (leg_of state evidence.fact.unsigned.leg))
  unfolding record_spend with_spend_seen or_conflict with_observer_conflict
      assert_swap_state_integrity
  record_spend-LegsMove state evidence = ground (
    arith,
    Moves-stays state.zec.phase,
    Moves-stays state.evm.phase,
    Moves-sees_spend evidence.fact.unsigned.action state.zec.phase,
    Moves-sees_spend evidence.fact.unsigned.action state.evm.phase,
  )

  observe_swap_spend-LegsMove :
      (state : SwapState) (evidence : SpendEvidence)
      → Yields (LegsMove state) (observe_swap_spend sha256_hex state evidence)
  unfolding observe_swap_spend validate_spend_evidence
  observe_swap_spend-LegsMove state evidence = ground (arith, record_spend-LegsMove state evidence)

  -- An event that is applied leaves each leg in its phase, or moves it along one edge of the graph
  -- of phases `Moves`.
  pub apply_swap_event-LegsMove :
      (state : SwapState) (event : SwapEventPayload)
      → Yields (LegsMove state) (apply_swap_event sha256_hex state event)
  unfolding apply_swap_event
  apply_swap_event-LegsMove state (authorize_terms party hash at) =
      authorize_swap_terms-LegsMove state party hash at
  apply_swap_event-LegsMove state (prepare_funding leg hash at) =
      prepare_swap_funding-LegsMove state leg hash at
  apply_swap_event-LegsMove state (abandon_funding leg hash at) =
      abandon_swap_funding-LegsMove state leg hash at
  apply_swap_event-LegsMove state (expire at reason) = expire_swap-LegsMove state at reason
  apply_swap_event-LegsMove state (observe_funding evidence) =
      observe_swap_funding-LegsMove state evidence
  apply_swap_event-LegsMove state (confirm_funding leg id at) =
      confirm_swap_funding-LegsMove state leg id at
  apply_swap_event-LegsMove state (observe_spend evidence) =
      observe_swap_spend-LegsMove state evidence
  apply_swap_event-LegsMove state (confirm_spend leg id at) =
      confirm_swap_spend-LegsMove state leg id at
  apply_swap_event-LegsMove state (flag_dispute reason detail id) =
      flag_swap_dispute-LegsMove state reason detail id
  apply_swap_event-LegsMove state (retract_evidence id detail) =
      retract_swap_evidence-LegsMove state id detail
  apply_swap_event-LegsMove state (replace_funding_attestation leg old evidence id at detail) =
      replace_swap_funding_attestation-LegsMove state leg old evidence id at detail
  apply_swap_event-LegsMove state (replace_spend_attestation leg old evidence id at detail) =
      replace_swap_spend_attestation-LegsMove state leg old evidence id at detail
