-- ===== src/SwapJournal/Examples.antt =====
-- Runs of src/lib/swap-journal.ts, and its theorems at them.
use phlebas.Base.{
  false, ◌≤◌, All, length, true, ◌⊎◌, Yields, Throws, ℕ, none, some, ◌≡◌, refl, List, [], ◌∷◌, ◌++◌,
  Result, ok, err,
}
use phlebas.Base.Lists.{keep_if}
use phlebas.Base.Sort.{sort, insert}
use phlebas.Base.Text.{all_in, strip_prefix, split_at, text_le, is_numeral}
use phlebas.Base.Entries.{get_entry, set_entry}
use phlebas.Base.Results.{all_checks}
use phlebas.OrderDomain.{same_text, normalize_hex32, normalize_address, is_hex_bytes}
use phlebas.PriceTime.{has_text}
use phlebas.SwapDomain.{
  zeros, zero_hex, canonical_hex32, canonical_address, is_lower_hex_bytes, canonical_pub_key_hash,
  canonical_uint64, is_zcash_reference, canonical_zcash_chain, is_numeral_after,
  canonical_quote_chain, canonical_zec_asset, is_address_after, is_erc20_tail, is_erc20_asset,
  canonical_quote_asset, role_for_party,
}
use phlebas.SwapDomain.Terms.{
  check_term_fields, check_term_amounts, derive_swap_fill_id, validate_swap_terms, hash_swap_terms,
  swap_id_for_terms,
}
use phlebas.SwapDomain.Markets.{
  has_duplicate, same_texts, is_unsorted, check_market, market_key, validate_swap_market_policy,
  is_market_of, hash_swap_market_policy, assert_approved_swap_market,
}
use phlebas.SwapPolicy.{
  positive_uint64, policy_uint64, policy_hex32, validate_swap_observer_policy, is_blank, ends_blank,
  is_untrimmed, validate_swap_finality_policy, check_deadlines, hash_swap_observer_policy,
  hash_swap_finality_policy, check_finality, assert_swap_evidence_policies, hash_swap_timing_policy,
  assert_swap_timing_policy, swap_deadline_status,
}
use phlebas.Swap.{
  any_of, find_in, uint64, nonzero_uint64, canonical_id, canonical_detail, observer_attestations,
  has_observer_attestation, is_retracted, later_of, all_authorized, latest_authorization_time,
}
use phlebas.Swap.Attestations.{
  attestations_equal, assert_unique_attestations, check_attestation_fields, check_attestation,
  validate_observer_attestation, add_report, add_attestation, observer_view_conflicts,
  assert_fresh_attestation_id, same_view, is_qualifying, add_source, sources_by_view, has_quorum,
  assert_policy_qualified,
}
use phlebas.Swap.Evidence.{
  check_funding_fields, check_expected, check_funding_times, canonical_preimage, check_spend_fields,
  spends_funding, funding_fact_id, spend_fact_id, validate_funding_evidence, check_spend_action,
  check_spend, validate_spend_evidence,
}
use phlebas.Swap.Legs.{
  check_artifact, check_confirmed, check_funding_kept, check_spend_kept, leg_checks,
  assert_swap_leg_state_integrity,
}
use phlebas.Swap.Resolutions.{
  same_dispute, leg_has_evidence, has_evidence, check_reference, check_disputes, has_two_views,
  check_views, check_resolution, check_resolution_end, check_resolutions, replacements_by_retracted,
  walk_replacements, assert_resolution_graph_acyclic,
}
use phlebas.Swap.Integrity.{
  check_authorization, check_window, check_prepared_at, check_leg_prepared, check_progression,
  check_unique_ids, check_later_resolution, check_replacement, check_bound, check_binding,
  check_retraction, reveals, check_confirmed_secret, check_terminal, check_observed_secret,
  check_policies, integrity_checks, assert_swap_state_integrity, assert_not_disputed,
}
use phlebas.Swap.Operations.{
  prepared_leg, check_window_open, create_swap_state, authorize_swap_terms, prepare_swap_funding,
  abandon_swap_funding, expire_swap,
}
use phlebas.Swap.Observations.{
  check_zec_claim, with_spend_seen, with_spend_confirmed, with_observer_conflict, or_conflict,
  record_funding, observe_swap_funding, confirm_swap_funding, record_spend, observe_swap_spend,
  confirm_swap_spend,
}
use phlebas.Swap.Phase.{phase_of_progress, phase_of_state, swap_phase}
use phlebas.SwapJournal.{
  authorize_terms, expire, retract_evidence, SwapEventPayload, apply_swap_event, apply_swap_events,
}
use phlebas.Swap.{SwapState, list_of, with_leg, empty_leg}
use phlebas.Swap.Fixtures.{hash_of, sha256_hex, terms, timing, market, evidence, zec_funding}
use phlebas.SwapJournal.Events.{zec_funded, evm_funded, evm_claimed, zec_claimed, zec_refunded}
use phlebas.Swap.Phase.{settled, refunded}
use phlebas.SwapDomain.Terms.{zec, evm, claim, refund}
use phlebas.Swap.Attestations.{View, funding_chain_fact}
use phlebas.SwapDomain.{is_there}
use phlebas.OrderDomain.{Text}
use phlebas.Base.Text.{codes}
use phlebas.Swap.Moves.{LegsMove}
use phlebas.Swap.Quorum.{reports_view}
use phlebas.Swap.Legs.{is_unfunded}
use phlebas.Swap.Outcomes.{HasPaid, swap_phase-settled, swap_phase-refunded}
use phlebas.Swap.Quorum.{assert_policy_qualified_quorum}
use phlebas.Swap.Preparation.{abandon_swap_funding-prepare_swap_funding}
use phlebas.SwapJournal.Transitions.{apply_swap_event-LegsMove}
use phlebas.SwapJournal.Histories.{LegsKeep, apply_swap_events-LegsKeep}
use phlebas.SwapJournal.Terminal.{apply_swap_event-Throws}
use phlebas.SwapJournal.Order.{IsOrdered}
use phlebas.SwapJournal.Atomicity.{created_swap-IsOrdered}

steps : ℕ
unfolding keep_if sort insert all_in strip_prefix split_at text_le is_numeral get_entry set_entry
    all_checks same_text normalize_hex32 normalize_address is_hex_bytes has_text zeros zero_hex
    canonical_hex32 canonical_address is_lower_hex_bytes canonical_pub_key_hash canonical_uint64
    is_zcash_reference canonical_zcash_chain is_numeral_after canonical_quote_chain
    canonical_zec_asset is_address_after is_erc20_tail is_erc20_asset canonical_quote_asset
    role_for_party check_term_fields check_term_amounts derive_swap_fill_id validate_swap_terms
    hash_swap_terms swap_id_for_terms has_duplicate same_texts is_unsorted check_market market_key
    validate_swap_market_policy is_market_of hash_swap_market_policy assert_approved_swap_market
    positive_uint64 policy_uint64 policy_hex32 validate_swap_observer_policy is_blank ends_blank
    is_untrimmed validate_swap_finality_policy check_deadlines hash_swap_observer_policy
    hash_swap_finality_policy check_finality assert_swap_evidence_policies hash_swap_timing_policy
    assert_swap_timing_policy swap_deadline_status any_of find_in uint64 nonzero_uint64 canonical_id
    canonical_detail observer_attestations has_observer_attestation is_retracted later_of
    all_authorized latest_authorization_time attestations_equal assert_unique_attestations
    check_attestation_fields check_attestation validate_observer_attestation add_report
    add_attestation observer_view_conflicts assert_fresh_attestation_id same_view is_qualifying
    add_source sources_by_view has_quorum assert_policy_qualified check_funding_fields
    check_expected check_funding_times canonical_preimage check_spend_fields spends_funding
    funding_fact_id spend_fact_id validate_funding_evidence check_spend_action check_spend
    validate_spend_evidence check_artifact check_confirmed check_funding_kept check_spend_kept
    leg_checks assert_swap_leg_state_integrity same_dispute leg_has_evidence has_evidence
    check_reference check_disputes has_two_views check_views check_resolution check_resolution_end
    check_resolutions replacements_by_retracted walk_replacements assert_resolution_graph_acyclic
    check_authorization check_window check_prepared_at check_leg_prepared check_progression
    check_unique_ids check_later_resolution check_replacement check_bound check_binding
    check_retraction reveals check_confirmed_secret check_terminal check_observed_secret
    check_policies integrity_checks assert_swap_state_integrity assert_not_disputed
    check_window_open check_zec_claim with_spend_seen with_spend_confirmed create_swap_state
    authorize_swap_terms prepare_swap_funding abandon_swap_funding expire_swap
    with_observer_conflict or_conflict record_funding observe_swap_funding confirm_swap_funding
    record_spend observe_swap_spend confirm_swap_spend phase_of_progress phase_of_state swap_phase
    apply_swap_event apply_swap_events
steps = 0

abbrev genesis : SwapState
genesis = record {
  terms = terms;
  terms_hash = hash_of b'1';
  swap_id = hash_of b'2';
  timing_policy = timing;
  market_policy = market;
  evidence_policies = evidence;
  authorizations = record { zec_seller = none; stablecoin_seller = none };
  zec = empty_leg;
  evm = empty_leg;
  observed_secret = none;
  observed_secret_fact_id = none;
  confirmed_secret = none;
  confirmed_secret_fact_id = none;
  terminal = none;
  disputes = [];
  resolutions = [];
  retracted_evidence_ids = [];
}

creates : create_swap_state sha256_hex terms timing evidence market ≡ ok genesis
unfolding steps
creates = refl

abbrev or_this : Result SwapState → SwapState → SwapState
or_this (ok s) t = s
or_this (err e) t = t

-- The state after the events.
abbrev run : List SwapEventPayload → SwapState
run events = or_this (apply_swap_events sha256_hex genesis events) genesis

abbrev until_claim : List SwapEventPayload
until_claim = zec_funded ++ evm_funded ++ evm_claimed

abbrev whole_swap : List SwapEventPayload
whole_swap = until_claim ++ zec_claimed

runs_whole : apply_swap_events sha256_hex genesis whole_swap ≡ ok (run whole_swap)
unfolding steps
runs_whole = refl

runs_on : apply_swap_events sha256_hex (run until_claim) zec_claimed ≡ ok (run whole_swap)
unfolding steps
runs_on = refl

is_settled : swap_phase sha256_hex (run whole_swap) ≡ ok settled
unfolding steps
is_settled = refl

is_refunded : swap_phase sha256_hex (run (zec_funded ++ zec_refunded)) ≡ ok refunded
unfolding steps
is_refunded = refl

created_swap-IsOrdered_example : IsOrdered (run whole_swap)
created_swap-IsOrdered_example =
    created_swap-IsOrdered sha256_hex terms timing evidence market genesis (run whole_swap)
      whole_swap creates runs_whole

apply_swap_events-LegsKeep_example : LegsKeep (run until_claim) (run whole_swap)
apply_swap_events-LegsKeep_example =
    apply_swap_events-LegsKeep sha256_hex (run until_claim) (run whole_swap) zec_claimed runs_on

swap_phase-settled_example :
    HasPaid sha256_hex (run whole_swap) zec claim × HasPaid sha256_hex (run whole_swap) evm claim
swap_phase-settled_example = swap_phase-settled sha256_hex (run whole_swap) is_settled

abbrev refunded_swap : SwapState
refunded_swap = run (zec_funded ++ zec_refunded)

swap_phase-refunded_example :
    ((is_unfunded refunded_swap.zec.phase ≡ true) ⊎ HasPaid sha256_hex refunded_swap zec refund)
    × ((is_unfunded refunded_swap.evm.phase ≡ true) ⊎ HasPaid sha256_hex refunded_swap evm refund)
swap_phase-refunded_example = swap_phase-refunded sha256_hex refunded_swap is_refunded

abbrev first_event : SwapEventPayload
first_event = authorize_terms terms.zec_seller_id (hash_of b'1') 10

apply_swap_event-LegsMove_example :
    Yields (LegsMove genesis) (apply_swap_event sha256_hex genesis first_event)
apply_swap_event-LegsMove_example = apply_swap_event-LegsMove sha256_hex genesis first_event

abbrev expired_swap : SwapState
expired_swap = run (expire 100 (codes "not authorized") ∷ [])

is_expired : is_there expired_swap.terminal ≡ true
unfolding steps
is_expired = refl

apply_swap_event-Throws_example :
    Throws
      (apply_swap_event sha256_hex expired_swap (retract_evidence (hash_of b'1') (codes "late")))
apply_swap_event-Throws_example =
    apply_swap_event-Throws sha256_hex expired_swap (retract_evidence (hash_of b'1') (codes "late"))
      is_expired

abbrev funded : SwapState
funded = run zec_funded

has_quorum_of_two :
    assert_policy_qualified funded zec
      (funding_chain_fact zec_funding)
      funded.zec.funding_attestations
      60
    ≡ ok tt
unfolding steps
has_quorum_of_two = refl

assert_policy_qualified_quorum_example :
    (view : View) × (sources : List Text) × (funded.evidence_policies.observer.required_source_count
      ≤ length sources)
    × (has_duplicate sources ≡ false)
    × All
        (λ source.
          any_of
            (reports_view
              (is_qualifying funded zec (funding_chain_fact zec_funding) 60)
              view
              source)
            (list_of funded.zec.funding_attestations)
          ≡ true)
        sources
assert_policy_qualified_quorum_example =
    assert_policy_qualified_quorum funded zec (funding_chain_fact zec_funding)
      funded.zec.funding_attestations 60 has_quorum_of_two

abbrev authorized : SwapState
authorized = record genesis {
  authorizations = record { zec_seller = some 10; stablecoin_seller = some 20 };
}

abbrev with_prepared : SwapState
with_prepared = with_leg authorized zec (prepared_leg (hash_of b'f') 30)

prepares_zec : prepare_swap_funding sha256_hex authorized zec (hash_of b'f') 30 ≡ ok with_prepared
unfolding steps
prepares_zec = refl

abandons_zec : abandon_swap_funding sha256_hex with_prepared zec (hash_of b'f') 40 ≡ ok authorized
unfolding steps
abandons_zec = refl

abandon_swap_funding-prepare_swap_funding_example : authorized ≡ authorized
abandon_swap_funding-prepare_swap_funding_example =
    abandon_swap_funding-prepare_swap_funding sha256_hex authorized with_prepared authorized zec
      (hash_of b'f') (hash_of b'f') 30 40 prepares_zec abandons_zec
