-- ===== src/Swap/Attestations.antt =====
-- The observers' attestations of src/lib/swap-state.ts, and the quorum that a confirmation needs. A
-- difference that could be negative is compared by its two sides.
use phlebas.Base.{
  ℕ, ◌+◌, Bool, false, not, ◌&&◌, ◌||◌, List, [], ◌∷◌, ◌++◌, Option, none, some, Result, ok, ◌>>◌,
  throw_if, ltb, leb, ◌==◌, if◌then◌else◌, length, keep_if, without_value, all_checks,
}
use phlebas.Base.Entries.{get_entry, set_entry, or_else}
use phlebas.OrderDomain.{Text, same_text}
use phlebas.PriceTime.{has_text}
use phlebas.SwapDomain.Terms.{SwapFinalityPolicy, SwapLeg, zec, evm}
use phlebas.Swap.{
  ObserverAttestation, FundingFact, SpendFact, SwapState, list_of, any_of, find_in, has_id, uint64,
  canonical_id, has_observer_attestation, is_retracted,
}

-- What an attestation is checked against in a fact, of either kind.
pub record ChainFact : Type 0 where
  pub fact_id : Text
  pub block_height : ℕ
  pub executed_at_seconds : ℕ

abbrev pub funding_chain_fact : FundingFact → ChainFact
funding_chain_fact fact = record {
  fact_id = fact.fact_id;
  block_height = fact.unsigned.block_height;
  executed_at_seconds = fact.unsigned.executed_at_seconds;
}

abbrev pub spend_chain_fact : SpendFact → ChainFact
spend_chain_fact fact = record {
  fact_id = fact.fact_id;
  block_height = fact.unsigned.block_height;
  executed_at_seconds = fact.unsigned.executed_at_seconds;
}

-- `attestationsEqual`.
unfoldable pub attestations_equal : ObserverAttestation → ObserverAttestation → Bool
attestations_equal l r =
    same_text l.evidence_id r.evidence_id
    && same_text l.fact_id r.fact_id
    && same_text l.source_id r.source_id
    && same_text l.observer_policy_id r.observer_policy_id
    && same_text l.finality_policy_id r.finality_policy_id
    && l.observed_at_seconds == r.observed_at_seconds
    && same_text l.tip_block_hash r.tip_block_hash
    && l.tip_block_height == r.tip_block_height

-- The loop of `assertUniqueAttestations`, with its two sets.
unfoldable pub assert_unique_attestations :
    List Text → List Text → List ObserverAttestation → Result (Unit {0})
assert_unique_attestations evidence_ids source_ids [] = ok tt
assert_unique_attestations evidence_ids source_ids (a ∷ more) =
    throw_if (has_text evidence_ids a.evidence_id) "evidence IDs must be unique"
    >> throw_if (has_text source_ids a.source_id) "observer sources must be unique"
    >> assert_unique_attestations (a.evidence_id ∷ evidence_ids) (a.source_id ∷ source_ids) more

abbrev pub finality_policy_for : SwapState → SwapLeg → SwapFinalityPolicy
finality_policy_for state zec = state.evidence_policies.zec_finality
finality_policy_for state evm = state.evidence_policies.evm_finality

abbrev pub finality_policy_id_for : SwapState → SwapLeg → Text
finality_policy_id_for state zec = state.terms.zec_finality_policy_id
finality_policy_id_for state evm = state.terms.evm_finality_policy_id

-- Lines 860 to 869: every value is returned as it is.
unfoldable pub check_attestation_fields : ObserverAttestation → List (Result (Unit {0}))
check_attestation_fields a =
    without_value (canonical_id a.evidence_id)
    ∷ without_value (canonical_id a.fact_id)
    ∷ without_value (canonical_id a.source_id)
    ∷ without_value (canonical_id a.observer_policy_id)
    ∷ without_value (canonical_id a.finality_policy_id)
    ∷ without_value (uint64 a.observed_at_seconds)
    ∷ without_value (canonical_id a.tip_block_hash)
    ∷ without_value (uint64 a.tip_block_height)
    ∷ []

-- Lines 870 to 878.
unfoldable pub check_attestation :
    SwapState → SwapLeg → ChainFact → ObserverAttestation → List (Result (Unit {0}))
check_attestation state leg fact a =
    throw_if (not (same_text a.fact_id fact.fact_id))
      "Observer attestation does not bind the chain fact"
    ∷ throw_if (not (has_text state.evidence_policies.observer.source_ids a.source_id))
        "Observer source is not approved"
    ∷ throw_if (not (same_text a.observer_policy_id state.terms.observer_policy_id))
        "Observer policy does not match signed terms"
    ∷ throw_if (not (same_text a.finality_policy_id (finality_policy_id_for state leg)))
        "Finality policy does not match signed terms"
    ∷ throw_if (ltb a.tip_block_height fact.block_height) "Observer tip predates the chain fact"
    ∷ throw_if (ltb a.observed_at_seconds fact.executed_at_seconds)
        "Observation cannot predate chain execution"
    ∷ throw_if
        (ltb
          (fact.executed_at_seconds
            + state.evidence_policies.observer.max_observation_delay_seconds)
          a.observed_at_seconds)
        "Observer attestation is stale"
    ∷ []

unfoldable pub validate_observer_attestation :
    SwapState → SwapLeg → ChainFact → ObserverAttestation → Result ObserverAttestation
validate_observer_attestation state leg fact attestation =
    all_checks (check_attestation_fields attestation)
    >> all_checks (check_attestation state leg fact attestation)
    >> ok attestation

-- Lines 946 to 956: a report that is there already may only be repeated.
unfoldable pub add_report :
    List ObserverAttestation
    → ObserverAttestation
    → Option ObserverAttestation
    → Result (List ObserverAttestation)
add_report existing a (some duplicate) =
    throw_if (not (attestations_equal duplicate a))
      "Observer evidence ID cannot be reused for different attestation content"
    >> ok existing
add_report existing a none =
    throw_if (any_of (λ item. same_text item.source_id a.source_id) existing)
      "Observer source cannot attest twice to the same chain fact"
    >> ok (existing ++ a ∷ [])

unfoldable pub add_attestation :
    Option (List ObserverAttestation) → ObserverAttestation → Result (List ObserverAttestation)
add_attestation current a =
    add_report (list_of current) a (find_in (has_id a.evidence_id) (list_of current))

abbrev pub differs_in_view : ObserverAttestation → ObserverAttestation → Bool
differs_in_view a item =
    not (item.tip_block_height == a.tip_block_height)
    || not (same_text item.tip_block_hash a.tip_block_hash)

unfoldable pub observer_view_conflicts :
    Option (List ObserverAttestation) → ObserverAttestation → Bool
observer_view_conflicts current a = any_of (differs_in_view a) (list_of current)

unfoldable pub assert_fresh_attestation_id :
    SwapState → Option (List ObserverAttestation) → ObserverAttestation → Result (Unit {0})
assert_fresh_attestation_id state current a =
    throw_if
      (has_observer_attestation state a.evidence_id
        && not (any_of (has_id a.evidence_id) (list_of current)))
      "Observer evidence ID is already active elsewhere in this swap"

-- The text `height:hash`, by its parts.
abbrev pub View : Type 0
View = ℕ × Text

unfoldable pub same_view : View → View → Bool
same_view (h, t) (h', t') = h == h' && same_text t t'

abbrev pub view_of : ObserverAttestation → View
view_of a = (a.tip_block_height, a.tip_block_hash)

-- The test of the filter of lines 1036 to 1043.
unfoldable pub is_qualifying : SwapState → SwapLeg → ChainFact → ℕ → ObserverAttestation → Bool
is_qualifying state leg fact qualified_at_seconds a =
    not (is_retracted state a.evidence_id)
    && leb (fact.block_height + (finality_policy_for state leg).minimum_confirmations)
        (a.tip_block_height + 1)
    && leb (fact.executed_at_seconds + (finality_policy_for state leg).minimum_age_seconds)
        a.observed_at_seconds
    && leb a.observed_at_seconds qualified_at_seconds
    && leb qualified_at_seconds
        (a.observed_at_seconds + state.evidence_policies.observer.max_observation_delay_seconds)

unfoldable pub add_source : List Text → Text → List Text
add_source sources source = if has_text sources source then sources else sources ++ source ∷ []

-- The loop that collects the sources of each view.
unfoldable pub sources_by_view :
    List (View × List Text) → List ObserverAttestation → List (View × List Text)
sources_by_view made [] = made
sources_by_view made (a ∷ more) =
    sources_by_view
      (set_entry same_view made (view_of a)
        (add_source (or_else (get_entry same_view made (view_of a)) []) a.source_id))
      more

unfoldable pub has_quorum : ℕ → List (View × List Text) → Bool
has_quorum required [] = false
has_quorum required ((view, sources) ∷ es) = leb required (length sources) || has_quorum required es

unfoldable pub assert_policy_qualified :
    SwapState → SwapLeg → ChainFact → Option (List ObserverAttestation) → ℕ → Result (Unit {0})
assert_policy_qualified state leg fact attestations qualified_at_seconds =
    without_value (uint64 qualified_at_seconds)
    >> throw_if
        (not (
          has_quorum state.evidence_policies.observer.required_source_count (
            sources_by_view [] (
              keep_if (is_qualifying state leg fact qualified_at_seconds) (list_of attestations)))))
        "Observer quorum and finality policy are not satisfied on one canonical chain view"
