-- ===== src/Swap/Integrity.antt =====
-- `assertSwapStateIntegrity` of src/lib/swap-state.ts.
use phlebas.Base.{
  ℕ, Bool, false, not, ◌&&◌, ◌||◌, List, [], ◌∷◌, map, Option, none, some, Result, ok, err, ◌>>=◌,
  ◌>>◌, throw_if, ltb, leb, if◌then◌else◌, without_value, all_checks,
}
use phlebas.OrderDomain.{Text, same_text}
use phlebas.PriceTime.{has_text}
use phlebas.SwapDomain.{is_there}
use phlebas.SwapDomain.Terms.{
  SwapLeg, zec, evm, Hashed, preimage_bytes, hash_swap_terms, swap_id_for_terms,
}
use phlebas.SwapDomain.Markets.{is_empty_list, assert_approved_swap_market}
use phlebas.SwapPolicy.{assert_swap_timing_policy, assert_swap_evidence_policies}
use phlebas.Swap.{
  SpendFact, ObserverAttestation, reorganization, SwapEvidenceResolution, Terminal, SwapState,
  leg_of, any_of, find_in, has_id, or_throw, uint64, canonical_id, canonical_detail,
  observer_attestations, has_observer_attestation, is_retracted, all_authorized,
  latest_authorization_time,
}
use phlebas.Swap.Attestations.{ChainFact, attestations_equal, validate_observer_attestation}
use phlebas.Swap.Evidence.{is_before, canonical_preimage}
use phlebas.Swap.Legs.{
  is_unfunded, is_claim_phase, is_claimed_confirmed, requires_confirmed_funding, is_claim, same_leg,
  assert_swap_leg_state_integrity,
}
use phlebas.Swap.Resolutions.{
  same_reason, same_kind, is_text_of, check_disputes, check_views, check_resolutions,
  assert_resolution_graph_acyclic, fact_of, collection_of,
}

-- An authorization that is there (lines 461 to 462).
unfoldable pub check_authorization : SwapState → Option ℕ → Result (Unit {0})
check_authorization state none = ok tt
check_authorization state (some at) =
    without_value (uint64 at)
    >> throw_if (leb state.terms.authorization_deadline at)
        "Persisted authorization occurred after its signed deadline"

-- The windows of the two legs (lines 491 to 501).
unfoldable pub check_window : SwapState → SwapLeg → ℕ → Result (Unit {0})
check_window state zec at =
    throw_if (leb state.terms.zec_fund_by at)
      "Persisted ZEC funding preparation missed its signed cutoff"
check_window state evm at =
    throw_if (ltb state.terms.evm_fund_by at || leb state.terms.evm_claim_safety_cutoff at)
      "Persisted EVM funding preparation missed its safe signed window"
    >> throw_if (is_before at state.zec.funding_confirmed_at_seconds)
        "Persisted EVM funding preparation cannot predate policy-confirmed ZEC funding"

unfoldable pub check_prepared_at : SwapState → ℕ → SwapLeg → ℕ → Result (Unit {0})
check_prepared_at state authorized_at leg at =
    throw_if (ltb at authorized_at) "funding preparation cannot predate exact terms authorization"
    >> check_window state leg at

unfoldable pub check_leg_prepared : SwapState → ℕ → SwapLeg → Result (Unit {0})
check_leg_prepared state authorized_at leg =
    if is_unfunded (leg_of state leg).phase
    then ok tt
    else or_throw (leg_of state leg).funding_prepared_at_seconds "must be a bigint"
      >>= check_prepared_at state authorized_at leg

abbrev pub has_progressed : SwapState → Bool
has_progressed state = not (is_unfunded state.zec.phase) || not (is_unfunded state.evm.phase)

-- Lines 480 to 512.
unfoldable pub check_progression : SwapState → List (Result (Unit {0}))
check_progression state =
    throw_if (has_progressed state && not (all_authorized state))
      "Persisted swap progression requires both exact terms authorizations"
    ∷ (if has_progressed state
        then (latest_authorization_time state >>= λ at.
            check_leg_prepared state at zec >> check_leg_prepared state at evm)
        else ok tt)
    ∷ throw_if
        (not (is_unfunded state.evm.phase) && not (requires_confirmed_funding state.zec.phase))
        "Persisted EVM progression requires policy-confirmed ZEC funding"
    ∷ throw_if (is_claim_phase state.zec.phase && not (is_claimed_confirmed state.evm.phase))
        "Persisted ZEC claim progression requires a policy-confirmed EVM claim"
    ∷ []

unfoldable pub check_unique_ids : List Text → List ObserverAttestation → Result (Unit {0})
check_unique_ids seen [] = ok tt
check_unique_ids seen (a ∷ more) =
    throw_if (has_text seen a.evidence_id) "Observer evidence IDs must be globally unique"
    >> check_unique_ids (a.evidence_id ∷ seen) more

-- Lines 614 to 635: the replacement is active, or a later resolution replaced it.
abbrev pub resolves : SwapEvidenceResolution → SwapEvidenceResolution → Bool
resolves r next =
    same_leg next.leg r.leg
    && same_kind next.evidence_kind r.evidence_kind
    && same_text next.fact_id r.fact_id
    && attestations_equal next.retracted_attestation r.replacement_attestation

unfoldable pub check_later_resolution :
    SwapEvidenceResolution → Option SwapEvidenceResolution → Result (Unit {0})
check_later_resolution r none =
    err "A retracted replacement must have a consistent later resolution"
check_later_resolution r (some next) =
    throw_if (not (resolves r next))
      "A retracted replacement must have a consistent later resolution"

unfoldable pub check_replacement :
    SwapState → SwapEvidenceResolution → Option ObserverAttestation → Result (Unit {0})
check_replacement state r (some active) =
    throw_if (not (attestations_equal active r.replacement_attestation))
      "Resolution replacement does not match its archived observer attestation"
check_replacement state r none =
    throw_if (not (is_retracted state r.replacement_evidence_id))
      "A resolution replacement must remain active in its recorded evidence collection"
    >> check_later_resolution r (
        find_in (λ c. same_text c.retracted_evidence_id r.replacement_evidence_id)
          state.resolutions)

-- The body of the second loop over the resolutions, with the fact.
unfoldable pub check_bound : SwapState → SwapEvidenceResolution → ChainFact → Result (Unit {0})
check_bound state r fact =
    throw_if (not (same_text fact.fact_id r.fact_id))
      "Resolution does not bind the active canonical chain fact"
    >> without_value (validate_observer_attestation state r.leg fact r.retracted_attestation)
    >> without_value (validate_observer_attestation state r.leg fact r.replacement_attestation)
    >> throw_if
        (ltb r.occurred_at_seconds r.retracted_attestation.observed_at_seconds
          || ltb r.occurred_at_seconds r.replacement_attestation.observed_at_seconds)
        "Evidence replacement cannot precede either observer report"
    >> check_replacement state r (
        find_in (has_id r.replacement_evidence_id)
          (collection_of (leg_of state r.leg) r.evidence_kind))

unfoldable pub check_binding : SwapState → SwapEvidenceResolution → Result (Unit {0})
check_binding state r =
    or_throw (fact_of (leg_of state r.leg) r.evidence_kind)
      "Resolution does not bind the active canonical chain fact"
    >>= check_bound state r

-- Lines 638 to 642, for one retracted ID.
unfoldable pub check_retraction : SwapState → Text → Result (Unit {0})
check_retraction state id =
    throw_if
      (not (
          has_observer_attestation state id
          && any_of (λ d. same_reason d.reason reorganization && is_text_of d.evidence_id id)
              state.disputes)
        && not (has_text (map (λ r. r.retracted_evidence_id) state.resolutions) id))
      "Retracted evidence must be either actively disputed or resolved in the audit graph"

-- The EVM spend is the claim that reveals the secret.
unfoldable pub reveals : Option SpendFact → Text → Text → Bool
reveals none secret fact_id = false
reveals (some spend) secret fact_id =
    is_claim spend.unsigned.action
    && is_text_of spend.unsigned.preimage secret
    && same_text spend.fact_id fact_id

-- Lines 664 to 676, with both parts of the confirmed secret.
unfoldable pub check_confirmed_secret : SwapState → Option Text → Option Text → Result (Unit {0})
check_confirmed_secret state none none = ok tt
check_confirmed_secret state (some secret) (some id) =
    without_value (canonical_preimage (some secret))
    >> without_value (canonical_id id)
    >> throw_if
        (not (is_text_of state.observed_secret secret)
          || not (is_text_of state.observed_secret_fact_id id)
          || not (is_claimed_confirmed state.evm.phase)
          || not (reveals state.evm.spend secret id))
        "Confirmed secret must bind the policy-confirmed canonical EVM claim fact"
check_confirmed_secret state _ _ = err "Confirmed secret and source fact must be recorded together"

unfoldable pub check_terminal : SwapState → Option Terminal → Result (Unit {0})
check_terminal state none = ok tt
check_terminal state (some terminal) =
    without_value (uint64 terminal.occurred_at_seconds)
    >> without_value (canonical_detail terminal.reason)
    >> throw_if
        (ltb terminal.occurred_at_seconds (
          if all_authorized state
          then state.terms.zec_fund_by
          else state.terms.authorization_deadline))
        "Expired swap predates its active signed deadline"
    >> throw_if (has_progressed state) "Expired swap cannot retain funding or spend state"
    >> throw_if
        (not (is_empty_list state.disputes)
          || not (is_empty_list state.resolutions)
          || not (is_empty_list state.retracted_evidence_ids))
        "Expired swap cannot retain dispute recovery metadata"
    >> throw_if
        (is_there state.observed_secret
          || is_there state.observed_secret_fact_id
          || is_there state.confirmed_secret
          || is_there state.confirmed_secret_fact_id)
        "Expired swap cannot retain observed or confirmed secret state"

-- Either part of a pair without the other.
abbrev pub is_half : Option Text → Option Text → Bool
is_half a b = (is_there a && not (is_there b)) || (is_there b && not (is_there a))

module _ (sha256_hex : Hashed → Text) where
  -- Lines 653 to 663, with both parts of the observed secret.
  unfoldable pub check_observed_secret : SwapState → Option Text → Option Text → Result (Unit {0})
  check_observed_secret state none none = ok tt
  check_observed_secret state (some secret) (some id) =
      without_value (canonical_preimage (some secret))
      >> without_value (canonical_id id)
      >> throw_if
          (not (same_text (sha256_hex (preimage_bytes secret)) state.terms.secret_hash)
            || not (reveals state.evm.spend secret id)
            || not (is_claim_phase state.evm.phase))
          "Observed secret must bind the active canonical EVM claim fact"
  check_observed_secret state _ _ = err "Observed secret and source fact must be recorded together"

  -- Lines 446 to 450.
  unfoldable pub check_policies : SwapState → Result (Unit {0})
  check_policies state =
      assert_swap_timing_policy sha256_hex state.terms state.timing_policy >>= λ valid.
      without_value (assert_approved_swap_market sha256_hex valid state.market_policy)
      >> without_value (assert_swap_evidence_policies sha256_hex valid state.evidence_policies)
      >> hash_swap_terms sha256_hex valid
      >>= λ hash.
          throw_if (not (same_text hash state.terms_hash))
            "Swap state terms do not match the signed terms hash"
          >> swap_id_for_terms sha256_hex valid
          >>= λ id.
              throw_if (not (same_text id state.swap_id))
                "Swap state terms do not match the swap ID"

  -- The checks of the state, in order.
  unfoldable pub integrity_checks : SwapState → List (Result (Unit {0}))
  integrity_checks state =
      check_policies state
      ∷ check_authorization state state.authorizations.zec_seller
      ∷ check_authorization state state.authorizations.stablecoin_seller
      ∷ all_checks (map (λ id. without_value (canonical_id id)) state.retracted_evidence_ids)
      ∷ assert_swap_leg_state_integrity sha256_hex state zec
      ∷ assert_swap_leg_state_integrity sha256_hex state evm
      ∷ all_checks (check_progression state)
      ∷ check_unique_ids [] (observer_attestations state)
      ∷ check_disputes state [] state.disputes
      ∷ check_views state state.zec.funding_attestations state.zec.funding_confirmed_at_seconds
      ∷ check_views state state.zec.spend_attestations state.zec.spend_confirmed_at_seconds
      ∷ check_views state state.evm.funding_attestations state.evm.funding_confirmed_at_seconds
      ∷ check_views state state.evm.spend_attestations state.evm.spend_confirmed_at_seconds
      ∷ check_resolutions state [] [] [] state.resolutions
      ∷ assert_resolution_graph_acyclic state.resolutions
      ∷ all_checks (map (check_binding state) state.resolutions)
      ∷ all_checks (map (check_retraction state) state.retracted_evidence_ids)
      ∷ throw_if (is_half state.observed_secret state.observed_secret_fact_id)
          "Observed secret and source fact must be recorded together"
      ∷ throw_if (is_half state.confirmed_secret state.confirmed_secret_fact_id)
          "Confirmed secret and source fact must be recorded together"
      ∷ check_observed_secret state state.observed_secret state.observed_secret_fact_id
      ∷ check_confirmed_secret state state.confirmed_secret state.confirmed_secret_fact_id
      ∷ throw_if (is_claim_phase state.zec.phase && not (is_there state.confirmed_secret))
          "Persisted ZEC claim progression requires the confirmed canonical preimage"
      ∷ check_terminal state state.terminal
      ∷ []

  unfoldable pub assert_swap_state_integrity : SwapState → Result SwapState
  assert_swap_state_integrity state = all_checks (integrity_checks state) >> ok state

  unfoldable pub assert_not_disputed : SwapState → Result (Unit {0})
  assert_not_disputed state =
      without_value (assert_swap_state_integrity state)
      >> throw_if (is_there state.terminal) "Swap is terminal; no further transitions are allowed"
      >> throw_if (not (is_empty_list state.disputes))
          "Swap is disputed; funding and claim actions are disabled"
