-- ===== src/Swap/Legs.antt =====
-- `assertSwapLegStateIntegrity` of src/lib/swap-state.ts: what a leg keeps in each of its phases.
use phlebas.Base.{
  ℕ, Bool, true, false, not, ◌||◌, List, [], ◌∷◌, map, Option, none, some, Result, err, ◌>>=◌, ◌>>◌,
  throw_if, if◌then◌else◌, without_value, all_checks,
}
use phlebas.OrderDomain.{Text}
use phlebas.SwapDomain.{is_there}
use phlebas.SwapDomain.Terms.{SwapLeg, zec, evm, SpendAction, claim, refund, Hashed}
use phlebas.Swap.{
  SwapLegPhase, unfunded, funding_prepared, funding_seen, funded_confirmed, claim_seen,
  claimed_confirmed, refund_seen, refunded_confirmed, FundingFact, SpendFact, ObserverAttestation,
  SwapLegState, SwapState, leg_of, or_throw, uint64, canonical_id,
}
use phlebas.Swap.Attestations.{
  ChainFact, funding_chain_fact, spend_chain_fact, assert_unique_attestations,
  assert_policy_qualified,
}
use phlebas.Swap.Evidence.{validate_funding_evidence, validate_spend_evidence}

abbrev pub is_unfunded : SwapLegPhase → Bool
is_unfunded unfunded = true
is_unfunded _ = false

abbrev pub is_prepared : SwapLegPhase → Bool
is_prepared funding_prepared = true
is_prepared _ = false

abbrev pub is_funding_seen : SwapLegPhase → Bool
is_funding_seen funding_seen = true
is_funding_seen _ = false

abbrev pub is_funded_confirmed : SwapLegPhase → Bool
is_funded_confirmed funded_confirmed = true
is_funded_confirmed _ = false

abbrev pub is_claim_seen : SwapLegPhase → Bool
is_claim_seen claim_seen = true
is_claim_seen _ = false

abbrev pub is_claimed_confirmed : SwapLegPhase → Bool
is_claimed_confirmed claimed_confirmed = true
is_claimed_confirmed _ = false

abbrev pub is_refund_seen : SwapLegPhase → Bool
is_refund_seen refund_seen = true
is_refund_seen _ = false

abbrev pub is_refunded_confirmed : SwapLegPhase → Bool
is_refunded_confirmed refunded_confirmed = true
is_refunded_confirmed _ = false

-- `phase.startsWith("claim")`, and `phase.startsWith("refund")`.
abbrev pub is_claim_phase : SwapLegPhase → Bool
is_claim_phase p = is_claim_seen p || is_claimed_confirmed p

abbrev pub is_refund_phase : SwapLegPhase → Bool
is_refund_phase p = is_refund_seen p || is_refunded_confirmed p

abbrev pub requires_funding : SwapLegPhase → Bool
requires_funding p = not (is_unfunded p || is_prepared p)

abbrev pub requires_spend : SwapLegPhase → Bool
requires_spend p = is_claim_phase p || is_refund_phase p

abbrev pub requires_confirmed_funding : SwapLegPhase → Bool
requires_confirmed_funding p = is_funded_confirmed p || requires_spend p

abbrev pub requires_confirmed_spend : SwapLegPhase → Bool
requires_confirmed_spend p = is_claimed_confirmed p || is_refunded_confirmed p

-- Lines 294 to 299.
unfoldable pub check_artifact : SwapLegState → Result (Unit {0})
check_artifact current =
    if not (is_unfunded current.phase)
    then without_value (
        or_throw current.funding_artifact_hash "must be exactly 32 bytes of hexadecimal"
        >>= canonical_id)
      >> without_value (or_throw current.funding_prepared_at_seconds "must be a bigint" >>= uint64)
    else throw_if
        (is_there current.funding_artifact_hash || is_there current.funding_prepared_at_seconds)
        "unfunded leg cannot retain a funding artifact"

abbrev pub same_leg : SwapLeg → SwapLeg → Bool
same_leg zec zec = true
same_leg evm evm = true
same_leg _ _ = false

abbrev pub is_claim : SpendAction → Bool
is_claim claim = true
is_claim refund = false

abbrev pub same_action : SpendAction → SpendAction → Bool
same_action claim claim = true
same_action refund refund = true
same_action _ _ = false

-- The confirmation time of a phase that is confirmed (lines 316 to 323 and 342 to 349).
unfoldable pub check_confirmed :
    SwapState
    → SwapLeg
    → Bool
    → Option ChainFact
    → Option (List ObserverAttestation)
    → Option ℕ
    → Result (Unit {0})
check_confirmed state leg true (some fact) attestations (some at) =
    assert_policy_qualified state leg fact attestations at
check_confirmed state leg true (some fact) attestations none = err "phase requires confirmation"
check_confirmed state leg true none attestations at = err "phase requires confirmation"
check_confirmed state leg false fact attestations at =
    throw_if (is_there at) "phase cannot retain confirmation"

abbrev pub funding_fact_of : SwapLegState → Option ChainFact
funding_fact_of current = elim current.funding [
  | none ↦ none
  | some fact ↦ some (funding_chain_fact fact)
]

abbrev pub spend_fact_of : SwapLegState → Option ChainFact
spend_fact_of current = elim current.spend [
  | none ↦ none
  | some fact ↦ some (spend_chain_fact fact)
]

module _ (sha256_hex : Hashed → Text) where
  -- Lines 301 to 314, where funding is required, and where it is not.
  unfoldable pub check_funding_kept :
      SwapState
      → SwapLeg
      → Bool
      → Option FundingFact
      → Option (List ObserverAttestation)
      → Result (Unit {0})
  check_funding_kept state leg false funding attestations =
      throw_if (is_there funding || is_there attestations) "phase cannot retain funding evidence"
  check_funding_kept state leg true (some fact) (some (a ∷ more)) =
      throw_if (not (same_leg fact.unsigned.leg leg)) "leg cannot retain another leg's funding fact"
      >> assert_unique_attestations [] [] (a ∷ more)
      >> all_checks (
          map
            (λ item. without_value (
              validate_funding_evidence sha256_hex state
                (record { fact = fact; attestation = item })))
            (a ∷ more))
  check_funding_kept state leg true _ _ = err "phase requires funding fact and attestations"

  -- Lines 325 to 340.
  unfoldable pub check_spend_kept :
      SwapState
      → SwapLeg
      → Bool
      → SwapLegPhase
      → Option SpendFact
      → Option (List ObserverAttestation)
      → Result (Unit {0})
  check_spend_kept state leg false phase spend attestations =
      throw_if (is_there spend || is_there attestations) "phase cannot retain spend evidence"
  check_spend_kept state leg true phase (some fact) (some (a ∷ more)) =
      throw_if (not (same_leg fact.unsigned.leg leg)) "leg cannot retain another leg's spend fact"
      >> throw_if
          (not (same_action fact.unsigned.action (if is_claim_phase phase then claim else refund)))
          "spend action does not match its phase"
      >> assert_unique_attestations [] [] (a ∷ more)
      >> all_checks (
          map
            (λ item. without_value (
              validate_spend_evidence sha256_hex state
                (record { fact = fact; attestation = item })))
            (a ∷ more))
  check_spend_kept state leg true phase _ _ = err "phase requires spend fact and attestations"

  -- The checks of a leg, in order.
  unfoldable pub leg_checks : SwapState → SwapLeg → SwapLegState → List (Result (Unit {0}))
  leg_checks state leg current =
      check_artifact current
      ∷ check_funding_kept state leg (requires_funding current.phase) current.funding
          current.funding_attestations
      ∷ check_confirmed state leg (requires_confirmed_funding current.phase)
          (funding_fact_of current) current.funding_attestations
          current.funding_confirmed_at_seconds
      ∷ check_spend_kept state leg (requires_spend current.phase) current.phase current.spend
          current.spend_attestations
      ∷ check_confirmed state leg (requires_confirmed_spend current.phase) (spend_fact_of current)
          current.spend_attestations current.spend_confirmed_at_seconds
      ∷ []

  unfoldable pub assert_swap_leg_state_integrity : SwapState → SwapLeg → Result (Unit {0})
  assert_swap_leg_state_integrity state leg = all_checks (leg_checks state leg (leg_of state leg))
