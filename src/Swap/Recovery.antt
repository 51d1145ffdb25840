-- ===== src/Swap/Recovery.antt =====
-- Disputes, retractions and replacements of evidence of src/lib/swap-state.ts.
use phlebas.Base.{
  ℕ, Bool, not, ◌&&◌, ◌||◌, List, [], ◌∷◌, ◌++◌, Option, none, some, Result, ok, ◌>>=◌, ◌>>◌,
  throw_if, ltb, ◌==◌, if◌then◌else◌, length, keep_if, without_value,
}
use phlebas.OrderDomain.{Text, same_text}
use phlebas.SwapDomain.{is_there}
use phlebas.SwapDomain.Terms.{SwapLeg, Hashed}
use phlebas.SwapDomain.Markets.{is_empty_list}
use phlebas.Swap.{
  ObserverAttestation, FundingEvidence, SpendEvidence, SwapLegState, SwapDisputeReason,
  reorganization, SwapDispute, EvidenceKind, funding_kind, spend_kind, SwapEvidenceResolution,
  SwapState, leg_of, with_leg, list_of, any_of, find_in, has_id, or_throw, uint64, canonical_id,
  canonical_detail, has_observer_attestation, is_retracted,
}
use phlebas.Swap.Attestations.{add_attestation, observer_view_conflicts}
use phlebas.Swap.Evidence.{validate_funding_evidence, validate_spend_evidence}
use phlebas.Swap.Legs.{is_funding_seen, is_claim_seen, is_refund_seen}
use phlebas.Swap.Resolutions.{same_reason, is_text_of, same_option, has_evidence}
use phlebas.Swap.Integrity.{assert_swap_state_integrity}

-- The test of the filter of line 1257.
abbrev pub is_reorganization_of : Text → SwapDispute → Bool
is_reorganization_of id dispute =
    is_text_of dispute.evidence_id id && same_reason dispute.reason reorganization

-- `list.filter((item) => item.evidenceId !== id)`.
unfoldable pub without_report : Text → List ObserverAttestation → List ObserverAttestation
without_report id reports = keep_if (λ item. not (has_id id item)) reports

unfoldable pub assert_replacement_view_agrees :
    List ObserverAttestation → ObserverAttestation → Result (Unit {0})
assert_replacement_view_agrees remaining replacement =
    throw_if (observer_view_conflicts (some remaining) replacement)
      "Replacement attestation must agree with the remaining canonical observer chain view"

-- Lines 1425 to 1430, for one leg.
abbrev pub confirmed_holds : SwapLegState → Text → Bool
confirmed_holds leg id =
    (is_there leg.funding_confirmed_at_seconds
      && any_of (has_id id) (list_of leg.funding_attestations))
    || (is_there leg.spend_confirmed_at_seconds
        && any_of (has_id id) (list_of leg.spend_attestations))

-- The disputed evidence ID, which is canonical where it is there.
abbrev pub canonical_optional_id : Option Text → Result (Option Text)
canonical_optional_id none = ok none
canonical_optional_id (some id) = canonical_id id >>= λ normalized. ok (some normalized)

module _ (sha256_hex : Hashed → Text) where
  -- The resolution; the cleared state is the state without disputes.
  unfoldable pub resolution_context :
      SwapState
      → SwapLeg
      → EvidenceKind
      → ObserverAttestation
      → Text
      → ObserverAttestation
      → ℕ
      → Text
      → Result SwapEvidenceResolution
  resolution_context state leg kind old resolution_id replacement occurred_at detail =
      without_value (assert_swap_state_integrity sha256_hex state)
      >> throw_if (is_there state.terminal) "Swap is terminal; evidence cannot be replaced"
      >> canonical_id old.evidence_id
      >>= λ retracted.
          throw_if (not (is_retracted state retracted))
            "Only retracted observer evidence can be replaced"
          >> throw_if
              (is_empty_list (keep_if (is_reorganization_of retracted) state.disputes)
                || not (
                    length (keep_if (is_reorganization_of retracted) state.disputes)
                    == length state.disputes))
              "Replacement cannot clear unrelated or unresolved disputes"
          >> canonical_id resolution_id
          >>= λ id.
              throw_if (any_of (λ r. same_text r.resolution_id id) state.resolutions)
                "Resolution ID has already been used"
              >> canonical_id replacement.evidence_id
              >>= λ replacement_id.
                  throw_if (is_retracted state replacement_id)
                    "Replacement evidence is already retracted"
                  >> throw_if (has_evidence state replacement_id)
                      "Replacement evidence ID must be fresh for this swap"
                  >> throw_if (not (same_text old.fact_id replacement.fact_id))
                      "Replacement attestation must bind the retracted canonical fact"
                  >> without_value (uint64 occurred_at)
                  >> canonical_id old.fact_id
                  >>= λ fact_id. canonical_id old.source_id >>= λ old_source.
                      canonical_id replacement.source_id >>= λ source.
                      canonical_detail detail >>= λ message. ok (record {
                        resolution_id = id;
                        leg = leg;
                        evidence_kind = kind;
                        fact_id = fact_id;
                        retracted_evidence_id = retracted;
                        retracted_source_id = old_source;
                        retracted_attestation = old;
                        replacement_evidence_id = replacement_id;
                        replacement_source_id = source;
                        replacement_attestation = replacement;
                        occurred_at_seconds = occurred_at;
                        detail = message;
                      })

  unfoldable pub replace_swap_funding_attestation :
      SwapState → SwapLeg → Text → FundingEvidence → Text → ℕ → Text → Result SwapState
  replace_swap_funding_attestation state leg retracted_id replacement resolution_id occurred_at
        detail =
      without_value (assert_swap_state_integrity sha256_hex state)
      >> throw_if (not (is_funding_seen (leg_of state leg).phase))
          "Only unconfirmed funding observations can be replaced"
      >> or_throw (leg_of state leg).funding "Only unconfirmed funding observations can be replaced"
      >>= λ funding.
          or_throw (find_in (has_id retracted_id) (list_of (leg_of state leg).funding_attestations))
            "Retracted funding attestation is not present"
          >>= λ old.
              throw_if (not (same_text replacement.fact.fact_id funding.fact_id))
                "Replacement funding attestation must bind the same canonical fact"
              >> validate_funding_evidence sha256_hex state replacement
              >>= λ valid.
                  resolution_context state leg funding_kind old resolution_id valid.attestation
                    occurred_at detail
                  >>= λ resolution.
                      throw_if (ltb occurred_at valid.attestation.observed_at_seconds)
                        "Evidence replacement cannot precede its observer report"
                      >> assert_replacement_view_agrees
                          (without_report old.evidence_id
                            (list_of (leg_of state leg).funding_attestations))
                          valid.attestation
                      >> add_attestation
                          (some (
                            without_report old.evidence_id
                              (list_of (leg_of state leg).funding_attestations)))
                          valid.attestation
                      >>= λ attestations. assert_swap_state_integrity sha256_hex (
                          with_leg
                            (record state {
                              disputes = [];
                              resolutions = state.resolutions ++ resolution ∷ [];
                            })
                            leg
                            (record (leg_of state leg) {
                              funding_attestations = some attestations;
                            }))

  unfoldable pub replace_swap_spend_attestation :
      SwapState → SwapLeg → Text → SpendEvidence → Text → ℕ → Text → Result SwapState
  replace_swap_spend_attestation state leg retracted_id replacement resolution_id occurred_at
        detail =
      without_value (assert_swap_state_integrity sha256_hex state)
      >> throw_if
          (not (is_claim_seen (leg_of state leg).phase || is_refund_seen (leg_of state leg).phase))
          "Only unconfirmed spend observations can be replaced"
      >> or_throw (leg_of state leg).spend "Only unconfirmed spend observations can be replaced"
      >>= λ spend.
          or_throw (find_in (has_id retracted_id) (list_of (leg_of state leg).spend_attestations))
            "Retracted spend attestation is not present"
          >>= λ old.
              throw_if (not (same_text replacement.fact.fact_id spend.fact_id))
                "Replacement spend attestation must bind the same canonical fact"
              >> validate_spend_evidence sha256_hex state replacement
              >>= λ valid.
                  resolution_context state leg spend_kind old resolution_id valid.attestation
                    occurred_at detail
                  >>= λ resolution.
                      throw_if (ltb occurred_at valid.attestation.observed_at_seconds)
                        "Evidence replacement cannot precede its observer report"
                      >> assert_replacement_view_agrees
                          (without_report old.evidence_id
                            (list_of (leg_of state leg).spend_attestations))
                          valid.attestation
                      >> add_attestation
                          (some (
                            without_report old.evidence_id
                              (list_of (leg_of state leg).spend_attestations)))
                          valid.attestation
                      >>= λ attestations. assert_swap_state_integrity sha256_hex (
                          with_leg
                            (record state {
                              disputes = [];
                              resolutions = state.resolutions ++ resolution ∷ [];
                            })
                            leg
                            (record (leg_of state leg) { spend_attestations = some attestations }))

  unfoldable pub flag_swap_dispute :
      SwapState → SwapDisputeReason → Text → Option Text → Result SwapState
  flag_swap_dispute state reason detail evidence_id =
      without_value (assert_swap_state_integrity sha256_hex state)
      >> throw_if (is_there state.terminal) "Swap is terminal; disputes cannot be added"
      >> without_value (canonical_detail detail)
      >> canonical_optional_id evidence_id
      >>= λ id.
          if any_of
            (λ item.
              same_reason item.reason reason
              && same_text item.detail detail
              && same_option item.evidence_id id)
            state.disputes
          then ok state
          else assert_swap_state_integrity sha256_hex (record state {
            disputes =
                state.disputes
                ++ record { reason = reason; evidence_id = id; detail = detail } ∷ [];
          })

  unfoldable pub retract_swap_evidence : SwapState → Text → Text → Result SwapState
  retract_swap_evidence state evidence_id detail =
      without_value (assert_swap_state_integrity sha256_hex state)
      >> canonical_id evidence_id
      >>= λ id.
          throw_if (not (has_observer_attestation state id))
            "Cannot retract unknown observer attestation"
          >> (if is_retracted state id
              then ok state
              else (throw_if (confirmed_holds state.zec id || confirmed_holds state.evm id)
                    "Confirmed observer evidence requires an explicit rollback transition before replacement"
                  >> canonical_detail detail
                  >>= λ message. assert_swap_state_integrity sha256_hex (record state {
                    retracted_evidence_ids = state.retracted_evidence_ids ++ id ∷ [];
                    disputes =
                        state.disputes
                        ++ record {
                          reason = reorganization;
                          evidence_id = some id;
                          detail = message;
                        }
                          ∷ [];
                  })))
