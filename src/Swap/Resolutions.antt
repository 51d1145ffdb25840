-- ===== src/Swap/Resolutions.antt =====
-- The audit of disputes and resolutions in `assertSwapStateIntegrity` of src/lib/swap-state.ts.
use phlebas.Base.{
  ℕ, zero, suc, Bool, true, false, not, ◌&&◌, ◌||◌, List, [], ◌∷◌, map, Option, none, some, Result,
  ok, err, ◌>>◌, throw_if, length, if◌then◌else◌, without_value, all_checks,
}
use phlebas.Base.Entries.{get_entry, set_entry}
use phlebas.OrderDomain.{Text, same_text}
use phlebas.PriceTime.{has_text}
use phlebas.SwapDomain.{is_there}
use phlebas.Swap.{
  ObserverAttestation, SwapLegState, SwapDisputeReason, observer_conflict, observer_stale,
  reorganization, semantic_mismatch, SwapDispute, EvidenceKind, funding_kind, spend_kind,
  SwapEvidenceResolution, SwapState, list_of, any_of, has_id, uint64, canonical_id,
  canonical_detail, has_observer_attestation, is_retracted,
}
use phlebas.Swap.Attestations.{ChainFact, differs_in_view}
use phlebas.Swap.Legs.{funding_fact_of, spend_fact_of}

abbrev pub same_reason : SwapDisputeReason → SwapDisputeReason → Bool
same_reason observer_conflict observer_conflict = true
same_reason observer_stale observer_stale = true
same_reason reorganization reorganization = true
same_reason semantic_mismatch semantic_mismatch = true
same_reason _ _ = false

abbrev pub is_text_of : Option Text → Text → Bool
is_text_of none t = false
is_text_of (some s) t = same_text s t

abbrev pub same_option : Option Text → Option Text → Bool
same_option none none = true
same_option none (some t) = false
same_option (some s) none = false
same_option (some s) (some t) = same_text s t

-- The key of a dispute, `reason:evidence:detail`, by its parts.
unfoldable pub same_dispute : SwapDispute → SwapDispute → Bool
same_dispute l r =
    same_reason l.reason r.reason
    && same_option l.evidence_id r.evidence_id
    && same_text l.detail r.detail

abbrev pub fact_is : Option ChainFact → Text → Bool
fact_is none id = false
fact_is (some fact) id = same_text fact.fact_id id

-- `hasEvidence`, of one leg.
unfoldable pub leg_has_evidence : SwapLegState → Text → Bool
leg_has_evidence leg id =
    fact_is (funding_fact_of leg) id
    || fact_is (spend_fact_of leg) id
    || any_of (has_id id) (list_of leg.funding_attestations)
    || any_of (has_id id) (list_of leg.spend_attestations)

unfoldable pub has_evidence : SwapState → Text → Bool
has_evidence state id = leg_has_evidence state.zec id || leg_has_evidence state.evm id

unfoldable pub check_reference : SwapState → SwapDispute → Option Text → Result (Unit {0})
check_reference state dispute none =
    throw_if (same_reason dispute.reason reorganization)
      "Reorganization disputes must reference an active retracted observer attestation"
check_reference state dispute (some id) =
    without_value (canonical_id id)
    >> (if same_reason dispute.reason reorganization
        then throw_if (not (is_retracted state id) || not (has_observer_attestation state id))
            "Reorganization disputes must reference an active retracted observer attestation"
        else throw_if (not (has_evidence state id)) "Swap dispute references unknown evidence")

-- The loop over the disputes, with the set of those seen.
unfoldable pub check_disputes : SwapState → List SwapDispute → List SwapDispute → Result (Unit {0})
check_disputes state seen [] = ok tt
check_disputes state seen (d ∷ ds) =
    without_value (canonical_detail d.detail)
    >> check_reference state d d.evidence_id
    >> throw_if (any_of (same_dispute d) seen) "Swap disputes must be unique"
    >> check_disputes state (d ∷ seen) ds

-- `views.size > 1`.
unfoldable pub has_two_views : List ObserverAttestation → Bool
has_two_views [] = false
has_two_views (a ∷ more) = any_of (differs_in_view a) more

-- Lines 551 to 552: a conflict is disputed, by the ID of one of the reports.
abbrev pub disputes_conflict : List ObserverAttestation → SwapDispute → Bool
disputes_conflict reports d =
    same_reason d.reason observer_conflict
    && any_of (λ a. is_text_of d.evidence_id a.evidence_id) reports

unfoldable pub check_views :
    SwapState → Option (List ObserverAttestation) → Option ℕ → Result (Unit {0})
check_views state collection confirmed_at =
    if has_two_views (list_of collection)
    then throw_if (is_there confirmed_at)
        "confirmation cannot retain conflicting observer chain views"
      >> throw_if (not (any_of (disputes_conflict (list_of collection)) state.disputes))
          "observer chain-view disagreement must remain disputed"
    else ok tt

-- Lines 563 to 592, but for the sets.
unfoldable pub check_resolution : SwapState → SwapEvidenceResolution → List (Result (Unit {0}))
check_resolution state r =
    without_value (canonical_id r.resolution_id)
    ∷ without_value (canonical_id r.fact_id)
    ∷ without_value (canonical_id r.retracted_evidence_id)
    ∷ without_value (canonical_id r.retracted_source_id)
    ∷ without_value (canonical_id r.replacement_evidence_id)
    ∷ without_value (canonical_id r.replacement_source_id)
    ∷ throw_if
        (not (same_text r.retracted_attestation.evidence_id r.retracted_evidence_id)
          || not (same_text r.retracted_attestation.source_id r.retracted_source_id)
          || not (same_text r.retracted_attestation.fact_id r.fact_id))
        "Resolution retracted attestation does not bind its recorded evidence, fact, and observer source"
    ∷ throw_if
        (not (same_text r.replacement_attestation.evidence_id r.replacement_evidence_id)
          || not (same_text r.replacement_attestation.source_id r.replacement_source_id)
          || not (same_text r.replacement_attestation.fact_id r.fact_id))
        "Resolution replacement attestation does not bind its recorded evidence, fact, and observer source"
    ∷ []

unfoldable pub check_resolution_end : SwapState → SwapEvidenceResolution → List (Result (Unit {0}))
check_resolution_end state r =
    throw_if (same_text r.retracted_evidence_id r.replacement_evidence_id)
      "Replacement evidence must use a new evidence ID"
    ∷ throw_if (not (is_retracted state r.retracted_evidence_id))
        "A resolution must reference retracted evidence"
    ∷ throw_if (has_observer_attestation state r.retracted_evidence_id)
        "Resolved evidence cannot remain active"
    ∷ without_value (uint64 r.occurred_at_seconds)
    ∷ without_value (canonical_detail r.detail)
    ∷ []

-- The first loop over the resolutions, with its three sets.
unfoldable pub check_resolutions :
    SwapState → List Text → List Text → List Text → List SwapEvidenceResolution → Result (Unit {0})
check_resolutions state ids retracted replacements [] = ok tt
check_resolutions state ids retracted replacements (r ∷ rs) =
    all_checks (check_resolution state r)
    >> throw_if (has_text ids r.resolution_id) "Resolution IDs must be unique"
    >> throw_if (has_text retracted r.retracted_evidence_id)
        "Retracted evidence can be resolved only once"
    >> throw_if (has_text replacements r.replacement_evidence_id)
        "Replacement evidence can satisfy only one resolution"
    >> all_checks (check_resolution_end state r)
    >> check_resolutions state (r.resolution_id ∷ ids) (r.retracted_evidence_id ∷ retracted)
        (r.replacement_evidence_id ∷ replacements) rs

-- The `Map` of lines 353 to 355.
unfoldable pub replacements_by_retracted :
    List (Text × Text) → List SwapEvidenceResolution → List (Text × Text)
replacements_by_retracted made [] = made
replacements_by_retracted made (r ∷ rs) =
    replacements_by_retracted
      (set_entry same_text made r.retracted_evidence_id r.replacement_evidence_id) rs

-- The inner loop of `assertResolutionGraphAcyclic`. Each round visits a key that was not visited, so
-- that a walk of one round more than there are keys has thrown already.
unfoldable pub walk_replacements :
    ℕ → List (Text × Text) → List Text → Text → Option Text → Result (Unit {0})
walk_replacements fuel graph visited current none = ok tt
walk_replacements zero graph visited current (some next) =
    err "Evidence replacement resolutions cannot contain a cycle"
walk_replacements (suc fuel) graph visited current (some next) =
    let onward =
      walk_replacements fuel graph (current ∷ visited) next (get_entry same_text graph next) in
    throw_if (has_text visited current) "Evidence replacement resolutions cannot contain a cycle"
    >> onward

unfoldable pub assert_resolution_graph_acyclic : List SwapEvidenceResolution → Result (Unit {0})
assert_resolution_graph_acyclic resolutions =
    let graph = replacements_by_retracted [] resolutions in
    all_checks (
      map (λ e. walk_replacements (suc (length graph)) graph [] e.0 (get_entry same_text graph e.0))
        graph)

abbrev pub fact_of : SwapLegState → EvidenceKind → Option ChainFact
fact_of leg funding_kind = funding_fact_of leg
fact_of leg spend_kind = spend_fact_of leg

abbrev pub collection_of : SwapLegState → EvidenceKind → List ObserverAttestation
collection_of leg funding_kind = list_of leg.funding_attestations
collection_of leg spend_kind = list_of leg.spend_attestations

abbrev pub same_kind : EvidenceKind → EvidenceKind → Bool
same_kind funding_kind funding_kind = true
same_kind spend_kind spend_kind = true
same_kind _ _ = false
