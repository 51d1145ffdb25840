-- ===== src/Swap/Observations.antt =====
-- The operations of src/lib/swap-state.ts on evidence: what observers report of a funding or a spend,
-- and its confirmation.
use phlebas.Base.{
  ℕ, Bool, true, false, not, ◌&&◌, ◌||◌, [], ◌∷◌, ◌++◌, Option, none, some, Result, ok, ◌>>=◌, ◌>>◌,
  throw_if, if◌then◌else◌,
}
use phlebas.Base.Entries.{or_else}
use phlebas.Base.Text.{codes}
use phlebas.OrderDomain.{Text, same_text}
use phlebas.SwapDomain.{is_there}
use phlebas.SwapDomain.Terms.{SwapLeg, zec, evm, SpendAction, claim, refund, Hashed}
use phlebas.Swap.{
  SwapLegPhase, funding_seen, funded_confirmed, claim_seen, claimed_confirmed, refund_seen,
  refunded_confirmed, SpendFact, FundingEvidence, SpendEvidence, SwapLegState, observer_conflict,
  SwapState, leg_of, with_leg, or_throw, canonical_id, canonical_detail,
}
use phlebas.Swap.Attestations.{
  ChainFact, funding_chain_fact, spend_chain_fact, add_attestation, observer_view_conflicts,
  assert_fresh_attestation_id, assert_policy_qualified,
}
use phlebas.Swap.Evidence.{
  is_zec, canonical_preimage, validate_funding_evidence, validate_spend_evidence,
}
use phlebas.Swap.Legs.{
  is_prepared, is_funding_seen, is_funded_confirmed, is_claim_seen, is_claimed_confirmed,
  is_refund_seen, is_claim, funding_fact_of, spend_fact_of,
}
use phlebas.Swap.Resolutions.{is_text_of}
use phlebas.Swap.Integrity.{assert_swap_state_integrity, assert_not_disputed}

abbrev pub is_other_fact : Option ChainFact → Text → Bool
is_other_fact none id = false
is_other_fact (some fact) id = not (same_text fact.fact_id id)

abbrev pub leg_name : SwapLeg → Text
leg_name zec = codes "ZEC"
leg_name evm = codes "EVM"

abbrev pub seen_phase : SpendAction → SwapLegPhase
seen_phase claim = claim_seen
seen_phase refund = refund_seen

abbrev pub is_seen_phase : SpendAction → SwapLegPhase → Bool
is_seen_phase claim phase = is_claim_seen phase
is_seen_phase refund phase = is_refund_seen phase

-- Lines 1170 to 1175.
unfoldable pub check_zec_claim : SwapState → SpendFact → Result (Unit {0})
check_zec_claim state spend =
    if is_zec spend.unsigned.leg && is_claim spend.unsigned.action
    then throw_if
        (not (is_claimed_confirmed state.evm.phase) || not (is_there state.confirmed_secret))
        "ZEC claim requires a policy-confirmed EVM claim"
      >> throw_if
          (not (is_text_of state.confirmed_secret (or_else spend.unsigned.preimage []))
            || not (is_there spend.unsigned.preimage))
          "ZEC claim requires the confirmed canonical preimage"
    else ok tt

-- Lines 1185 to 1196: the EVM claim reveals the secret, which is kept where it is the first.
unfoldable pub with_spend_seen : SwapState → SpendFact → SwapLegState → Result SwapState
with_spend_seen state spend next =
    if not (is_zec spend.unsigned.leg) && is_claim spend.unsigned.action
    then (canonical_preimage spend.unsigned.preimage >>= λ preimage. ok (record state {
      evm = next;
      observed_secret = some (or_else state.observed_secret preimage);
      observed_secret_fact_id = some (or_else state.observed_secret_fact_id spend.fact_id);
    }))
    else ok (with_leg state spend.unsigned.leg next)

abbrev pub confirmed_phase : SwapLegPhase → SwapLegPhase
confirmed_phase phase = if is_claim_seen phase then claimed_confirmed else refunded_confirmed

-- Lines 1220 to 1233.
unfoldable pub with_spend_confirmed :
    SwapState → SwapLeg → SwapLegState → SpendFact → ℕ → Result SwapState
with_spend_confirmed state leg current spend at =
    let next = with_leg state leg (record current {
      phase = confirmed_phase current.phase;
      spend_confirmed_at_seconds = some at;
    }) in
    if not (is_zec leg) && is_claim_seen current.phase
    then (canonical_preimage spend.unsigned.preimage >>= λ preimage. ok (record next {
      confirmed_secret = some preimage;
      confirmed_secret_fact_id = some spend.fact_id;
    }))
    else ok next

module _ (sha256_hex : Hashed → Text) where
  unfoldable pub with_observer_conflict : SwapState → Text → Text → Result SwapState
  with_observer_conflict state evidence_id detail = canonical_detail detail >>= λ message.
      assert_swap_state_integrity sha256_hex (record state {
        disputes =
            state.disputes
            ++ record {
              reason = observer_conflict;
              evidence_id = some evidence_id;
              detail = message;
            }
              ∷ [];
      })

  -- The state, or where the reports conflict the state with a dispute about it.
  unfoldable pub or_conflict : Bool → SwapState → Text → Text → Result SwapState
  or_conflict true state evidence_id detail = with_observer_conflict state evidence_id detail
  or_conflict false state evidence_id detail = ok state

  -- Lines 998 to 1023, with the leg.
  unfoldable pub record_funding : SwapState → FundingEvidence → SwapLegState → Result SwapState
  record_funding state evidence current =
      throw_if (not (is_prepared current.phase || is_funding_seen current.phase))
        "funding was not prepared"
      >> throw_if (is_other_fact (funding_fact_of current) evidence.fact.fact_id)
          "Observer reports conflict on the funded chain fact"
      >> assert_fresh_attestation_id state current.funding_attestations evidence.attestation
      >> add_attestation current.funding_attestations evidence.attestation
      >>= λ attestations.
          or_conflict (observer_view_conflicts current.funding_attestations evidence.attestation)
            (with_leg state evidence.fact.unsigned.leg (record current {
              phase = funding_seen;
              funding = some (or_else current.funding evidence.fact);
              funding_attestations = some attestations;
            }))
            evidence.attestation.evidence_id
            (leg_name evidence.fact.unsigned.leg
              ++ codes " funding observers reported different canonical chain tips")

  unfoldable pub observe_swap_funding : SwapState → FundingEvidence → Result SwapState
  observe_swap_funding state evidence =
      assert_not_disputed sha256_hex state
      >> validate_funding_evidence sha256_hex state evidence
      >>= λ valid. record_funding state valid (leg_of state valid.fact.unsigned.leg)

  unfoldable pub confirm_swap_funding : SwapState → SwapLeg → Text → ℕ → Result SwapState
  confirm_swap_funding state leg fact_id at =
      assert_not_disputed sha256_hex state
      >> throw_if (not (is_funding_seen (leg_of state leg).phase)) "funding has not been observed"
      >> or_throw (leg_of state leg).funding "funding has not been observed"
      >>= λ funding. canonical_id fact_id >>= λ id.
          throw_if (not (same_text id funding.fact_id)) "Funding confirmation fact does not match"
          >> assert_policy_qualified state leg (funding_chain_fact funding)
              (leg_of state leg).funding_attestations at
          >> ok (
              with_leg state leg (record (leg_of state leg) {
                phase = funded_confirmed;
                funding_confirmed_at_seconds = some at;
              }))

  -- Lines 1163 to 1204, with the leg.
  unfoldable pub record_spend : SwapState → SpendEvidence → SwapLegState → Result SwapState
  record_spend state evidence current =
      throw_if
        (not (
          is_funded_confirmed current.phase
          || is_seen_phase evidence.fact.unsigned.action current.phase))
        "leg is not available to spend"
      >> throw_if (is_other_fact (spend_fact_of current) evidence.fact.fact_id)
          "Observer reports conflict on the spend chain fact"
      >> check_zec_claim state evidence.fact
      >> assert_fresh_attestation_id state current.spend_attestations evidence.attestation
      >> add_attestation current.spend_attestations evidence.attestation
      >>= λ attestations.
          with_spend_seen state evidence.fact (record current {
            phase = seen_phase evidence.fact.unsigned.action;
            spend = some (or_else current.spend evidence.fact);
            spend_attestations = some attestations;
          })
          >>= λ next.
              or_conflict (observer_view_conflicts current.spend_attestations evidence.attestation)
                next evidence.attestation.evidence_id
                (leg_name evidence.fact.unsigned.leg
                  ++ codes " spend observers reported different canonical chain tips")

  unfoldable pub observe_swap_spend : SwapState → SpendEvidence → Result SwapState
  observe_swap_spend state evidence =
      assert_not_disputed sha256_hex state
      >> validate_spend_evidence sha256_hex state evidence
      >>= λ valid. record_spend state valid (leg_of state valid.fact.unsigned.leg)

  unfoldable pub confirm_swap_spend : SwapState → SwapLeg → Text → ℕ → Result SwapState
  confirm_swap_spend state leg fact_id at =
      assert_not_disputed sha256_hex state
      >> throw_if
          (not (is_claim_seen (leg_of state leg).phase || is_refund_seen (leg_of state leg).phase))
          "spend has not been observed"
      >> or_throw (leg_of state leg).spend "spend has not been observed"
      >>= λ spend. canonical_id fact_id >>= λ id.
          throw_if (not (same_text id spend.fact_id)) "Spend confirmation fact does not match"
          >> assert_policy_qualified state leg (spend_chain_fact spend)
              (leg_of state leg).spend_attestations at
          >> with_spend_confirmed state leg (leg_of state leg) spend at
