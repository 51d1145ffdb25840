-- ===== src/Swap/Payments.antt =====
-- What a state that is asserted says of the spends that it keeps (src/lib/swap-state.ts).
use phlebas.Base.{
  true, List, [], ◌∷◌, Option, none, some, ok, ◌≡◌, refl, ◌≤◌, subst, sym, ap, ◌∙◌, if◌then◌else◌,
  arith, all_checks, without_value,
}
use phlebas.OrderDomain.{Text}
use phlebas.OrderDomain.Canonical.{same_text_iff}
use phlebas.SwapDomain.{is_there}
use phlebas.SwapDomain.Terms.{SwapLeg, SpendAction, claim, refund, Hashed, preimage_bytes}
use phlebas.Swap.{
  FundingFact, SpendFact, ObserverAttestation, FundingEvidence, SpendEvidence, SwapLegPhase,
  SwapState, leg_of,
}
use phlebas.Swap.Evidence.{
  expected_funding, check_expected, expected_spend_recipient, canonical_preimage, spends_funding,
  refund_deadline, validate_funding_evidence, check_spend_action, check_spend,
  validate_spend_evidence,
}
use phlebas.Swap.Legs.{
  requires_spend, is_claim_phase, same_leg, same_action, check_funding_kept, check_spend_kept,
  leg_checks, assert_swap_leg_state_integrity,
}

-- The action of a phase with a spend.
abbrev pub action_of : SwapLegPhase → SpendAction
action_of phase = if is_claim_phase phase then claim else refund

-- A value that is there.
is_there-some : {A : Type 0} (o : Option A) → is_there o ≡ true → (a : A) × (o ≡ some a)
is_there-some none h = cc
is_there-some (some a) h = (a, refl)

module _ (sha256_hex : Hashed → Text) where
  -- A claim reveals a preimage of the secret hash; a refund reveals none, and is not early.
  abbrev pub IsDue : SwapState → SwapLeg → SpendAction → SpendFact → Type 0
  IsDue state leg claim spend =
      (preimage : Text) × (spend.unsigned.preimage ≡ some preimage)
      × (sha256_hex (preimage_bytes preimage) ≡ state.terms.secret_hash)
  IsDue state leg refund spend =
      (spend.unsigned.preimage ≡ none)
      × (refund_deadline state.terms leg ≤ spend.unsigned.executed_at_seconds)

  -- The spend is the action, by a successful transaction, of the signed amount of the leg, to the
  -- signed recipient.
  abbrev pub IsPaid : SwapState → SwapLeg → SpendAction → SpendFact → Type 0
  IsPaid state leg action spend =
      (spend.unsigned.action ≡ action)
      × (spend.unsigned.leg ≡ leg)
      × (spend.unsigned.successful ≡ true)
      × (spend.unsigned.amount_atoms ≡ (expected_funding state leg).amount_atoms)
      × (spend.unsigned.recipient ≡ expected_spend_recipient state.terms leg action)
      × IsDue state leg action spend

  validated_funding_amount :
      (state : SwapState) (evidence : FundingEvidence)
      → without_value (validate_funding_evidence sha256_hex state evidence) ≡ ok tt
      → evidence.fact.unsigned.amount_atoms
        ≡ (expected_funding state evidence.fact.unsigned.leg).amount_atoms
  unfolding validate_funding_evidence check_expected all_checks
  validated_funding_amount state evidence h = ground arith

  validated_claim :
      (state : SwapState) (spend : SpendFact)
      → check_spend_action sha256_hex state spend.unsigned claim ≡ ok tt
      → IsDue state spend.unsigned.leg claim spend
  unfolding check_spend_action canonical_preimage
  validated_claim state spend h =
      let (preimage, e) = is_there-some spend.unsigned.preimage (ground arith) in
      (
        preimage,
        e,
        ground
            (arith, same_text_iff (sha256_hex (preimage_bytes preimage)) state.terms.secret_hash),
      )

  validated_refund :
      (state : SwapState) (spend : SpendFact)
      → check_spend_action sha256_hex state spend.unsigned refund ≡ ok tt
      → IsDue state spend.unsigned.leg refund spend
  unfolding check_spend_action
  validated_refund state spend h = ground arith

  -- The spend of a validated report, with the funding that it spends.
  validated_spend :
      (state : SwapState) (evidence : SpendEvidence) (funding : FundingFact)
      → (leg_of state evidence.fact.unsigned.leg).funding ≡ some funding
      → without_value (validate_spend_evidence sha256_hex state evidence) ≡ ok tt
      → (evidence.fact.unsigned.amount_atoms ≡ funding.unsigned.amount_atoms)
        × (evidence.fact.unsigned.successful ≡ true)
        × (evidence.fact.unsigned.recipient
            ≡ expected_spend_recipient state.terms evidence.fact.unsigned.leg
                evidence.fact.unsigned.action)
        × (check_spend_action sha256_hex state evidence.fact.unsigned evidence.fact.unsigned.action
            ≡ ok tt)
  unfolding validate_spend_evidence check_spend spends_funding all_checks
  validated_spend state evidence funding f h = ground (
    arith,
    same_text_iff evidence.fact.unsigned.recipient (
        expected_spend_recipient state.terms evidence.fact.unsigned.leg
          evidence.fact.unsigned.action),
  )

  -- The funding that a leg keeps has the signed amount.
  kept_funding :
      (state : SwapState) (leg : SwapLeg) (funding : Option FundingFact)
      (reports : Option (List ObserverAttestation))
      → check_funding_kept sha256_hex state leg true funding reports ≡ ok tt
      → (fact : FundingFact) × (funding ≡ some fact)
        × (fact.unsigned.amount_atoms ≡ (expected_funding state leg).amount_atoms)
  unfolding check_funding_kept all_checks
  kept_funding state leg (some fact) (some (a ∷ more)) h = (
    fact,
    refl,
    ground (arith, validated_funding_amount state (record { fact = fact; attestation = a })),
  )
  kept_funding state leg _ _ h = cc

  validated_action :
      (state : SwapState) (action : SpendAction) (spend : SpendFact)
      → spend.unsigned.action ≡ action
      → check_spend_action sha256_hex state spend.unsigned spend.unsigned.action ≡ ok tt
      → IsDue state spend.unsigned.leg action spend
  validated_action state claim spend same h =
      validated_claim state spend
        (subst (λ a. check_spend_action sha256_hex state spend.unsigned a ≡ ok tt) same h)
  validated_action state refund spend same h =
      validated_refund state spend
        (subst (λ a. check_spend_action sha256_hex state spend.unsigned a ≡ ok tt) same h)

  same_action-≡ : (a b : SpendAction) → same_action a b ≡ true → a ≡ b
  same_action-≡ a b h = ground arith

  same_leg-≡ : (a b : SwapLeg) → same_leg a b ≡ true → a ≡ b
  same_leg-≡ a b h = ground arith

  -- The first report of a spend that a leg keeps.
  kept_spend_parts :
      (state : SwapState) (leg : SwapLeg) (phase : SwapLegPhase) (spend : SpendFact)
      (a : ObserverAttestation) (more : List ObserverAttestation)
      → check_spend_kept sha256_hex state leg true phase (some spend) (some (a ∷ more)) ≡ ok tt
      → (spend.unsigned.leg ≡ leg)
        × (spend.unsigned.action ≡ action_of phase)
        × (without_value
              (validate_spend_evidence sha256_hex state (record { fact = spend; attestation = a }))
            ≡ ok tt)
  unfolding check_spend_kept all_checks
  kept_spend_parts state leg phase spend a more h = ground (
    arith,
    same_leg-≡ spend.unsigned.leg leg,
    same_action-≡ spend.unsigned.action (action_of phase),
  )

  kept_spend :
      (state : SwapState) (leg : SwapLeg) (phase : SwapLegPhase) (spend : Option SpendFact)
      (reports : Option (List ObserverAttestation)) (funding : FundingFact)
      → (leg_of state leg).funding ≡ some funding
      → funding.unsigned.amount_atoms ≡ (expected_funding state leg).amount_atoms
      → check_spend_kept sha256_hex state leg true phase spend reports ≡ ok tt
      → (fact : SpendFact) × (spend ≡ some fact) × IsPaid state leg (action_of phase) fact
  unfolding check_spend_kept
  kept_spend state leg phase (some fact) (some (a ∷ more)) funding f amount h =
      let (on_leg, action, valid) = kept_spend_parts state leg phase fact a more h in
      let here = subst (λ l. (leg_of state l).funding ≡ some funding) (sym on_leg) f in
      let (paid, done, recipient, due) =
        validated_spend state (record { fact = fact; attestation = a }) funding here valid in
      (
        fact,
        refl,
        (
          action,
          on_leg,
          done,
          paid ∙ amount,
          recipient
              ∙ ap (λ l. expected_spend_recipient state.terms l fact.unsigned.action) on_leg
              ∙ ap (expected_spend_recipient state.terms leg) action,
          subst (λ l. IsDue state l (action_of phase) fact) on_leg
              (validated_action state (action_of phase) fact action due),
        ),
      )
  kept_spend state leg phase none _ funding f amount h = cc
  kept_spend state leg phase (some fact) none funding f amount h = cc
  kept_spend state leg phase (some fact) (some []) funding f amount h = cc

  -- A leg in a claim phase or in a refund phase keeps a spend that is paid as signed.
  pub leg_integrity-IsPaid :
      (state : SwapState) (leg : SwapLeg)
      → assert_swap_leg_state_integrity sha256_hex state leg ≡ ok tt
      → requires_spend (leg_of state leg).phase ≡ true
      → (spend : SpendFact) × ((leg_of state leg).spend ≡ some spend)
        × IsPaid state leg (action_of (leg_of state leg).phase) spend
  unfolding assert_swap_leg_state_integrity leg_checks all_checks
  leg_integrity-IsPaid state leg h spent =
      let (funding, f, amount) =
        kept_funding state leg (leg_of state leg).funding (leg_of state leg).funding_attestations
          (ground arith) in
      kept_spend state leg (leg_of state leg).phase (leg_of state leg).spend
        (leg_of state leg).spend_attestations funding f amount (ground arith)
