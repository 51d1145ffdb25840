-- ===== src/SwapJournal/JournalExamples.antt =====
-- A journal of src/lib/swap-journal.ts that is made by two appends, and its theorems at it.
use phlebas.Base.{ℕ, ◌+◌, true, false, ◌≡◌, refl, [], none, Result, ok, err}
use phlebas.OrderDomain.{Text}
use phlebas.Base.Lists.{keep_if}
use phlebas.Base.Sort.{sort, insert}
use phlebas.Base.Text.{all_in, strip_prefix, split_at, text_le, is_numeral}
use phlebas.Base.Entries.{get_entry, set_entry}
use phlebas.Base.Results.{all_checks}
use phlebas.OrderDomain.{same_text, normalize_hex32, normalize_address, is_hex_bytes}
use phlebas.PriceTime.{has_text}
use phlebas.SwapDomain.{
  zeros, zero_hex, canonical_hex32, canonical_address, is_lower_hex_bytes, canonical_pub_key_hash,
  canonical_uint64, is_zcash_reference, canonical_zcash_chain, is_numeral_after,
  canonical_quote_chain, canonical_zec_asset, is_address_after, is_erc20_tail, is_erc20_asset,
  canonical_quote_asset, role_for_party,
}
use phlebas.SwapDomain.Terms.{
  check_term_fields, check_term_amounts, derive_swap_fill_id, validate_swap_terms, hash_swap_terms,
  swap_id_for_terms,
}
use phlebas.SwapDomain.Markets.{
  has_duplicate, same_texts, is_unsorted, check_market, market_key, validate_swap_market_policy,
  is_market_of, hash_swap_market_policy, assert_approved_swap_market,
}
use phlebas.SwapPolicy.{
  positive_uint64, policy_uint64, policy_hex32, validate_swap_observer_policy, is_blank, ends_blank,
  is_untrimmed, validate_swap_finality_policy, check_deadlines, hash_swap_observer_policy,
  hash_swap_finality_policy, check_finality, assert_swap_evidence_policies, hash_swap_timing_policy,
  assert_swap_timing_policy, swap_deadline_status,
}
use phlebas.Swap.{
  any_of, find_in, uint64, nonzero_uint64, canonical_id, canonical_detail, observer_attestations,
  has_observer_attestation, is_retracted, later_of, all_authorized, latest_authorization_time,
}
use phlebas.Swap.Attestations.{
  attestations_equal, assert_unique_attestations, check_attestation_fields, check_attestation,
  validate_observer_attestation, add_report, add_attestation, observer_view_conflicts,
  assert_fresh_attestation_id, same_view, is_qualifying, add_source, sources_by_view, has_quorum,
  assert_policy_qualified,
}
use phlebas.Swap.Evidence.{
  check_funding_fields, check_expected, check_funding_times, canonical_preimage, check_spend_fields,
  spends_funding, funding_fact_id, spend_fact_id, validate_funding_evidence, check_spend_action,
  check_spend, validate_spend_evidence,
}
use phlebas.Swap.Legs.{
  check_artifact, check_confirmed, check_funding_kept, check_spend_kept, leg_checks,
  assert_swap_leg_state_integrity,
}
use phlebas.Swap.Resolutions.{
  same_dispute, leg_has_evidence, has_evidence, check_reference, check_disputes, has_two_views,
  check_views, check_resolution, check_resolution_end, check_resolutions, replacements_by_retracted,
  walk_replacements, assert_resolution_graph_acyclic,
}
use phlebas.Swap.Integrity.{
  check_authorization, check_window, check_prepared_at, check_leg_prepared, check_progression,
  check_unique_ids, check_later_resolution, check_replacement, check_bound, check_binding,
  check_retraction, reveals, check_confirmed_secret, check_terminal, check_observed_secret,
  check_policies, integrity_checks, assert_swap_state_integrity, assert_not_disputed,
}
use phlebas.Swap.Phase.{phase_of_progress, phase_of_state, swap_phase}
use phlebas.SwapJournal.{apply_swap_event, apply_swap_events}
use phlebas.Swap.Operations.{
  check_window_open, create_swap_state, authorize_swap_terms, prepare_swap_funding,
  abandon_swap_funding, expire_swap,
}
use phlebas.Swap.Observations.{
  check_zec_claim, with_spend_seen, with_spend_confirmed, with_observer_conflict, or_conflict,
  record_funding, observe_swap_funding, confirm_swap_funding, record_spend, observe_swap_spend,
  confirm_swap_spend,
}
use phlebas.SwapJournal.Receipts.{
  swap_event_semantic_slot, same_slot, journal_hex32, last_root, check_event_parts,
}
use phlebas.SwapJournal.Chain.{
  swap_state_root, hash_swap_event, assert_genesis_swap_state, empty_swap_journal, check_receipt,
  verify_receipt, verify_receipts, check_swap_journal, verify_swap_journal, append_fresh,
  append_unless, append_swap_event, replay_receipts, replay_swap_journal,
}
use phlebas.Swap.{SwapState, empty_leg}
use phlebas.Swap.Fixtures.{hash_of, sha256_hex, terms, timing, market, evidence}
use phlebas.SwapJournal.{SwapEventPayload, authorize_terms}
use phlebas.SwapJournal.Receipts.{EventParts, SwapJournal}
use phlebas.SwapJournal.Chain.{Appended}
use phlebas.SwapJournal.Order.{IsOrdered}
use phlebas.SwapJournal.Appended.{append_swap_event-verified}
use phlebas.SwapJournal.Verified.{payloads_of, verify_swap_journal-replays}

steps : ℕ
unfolding keep_if sort insert all_in strip_prefix split_at text_le is_numeral get_entry set_entry
    all_checks same_text normalize_hex32 normalize_address is_hex_bytes has_text zeros zero_hex
    canonical_hex32 canonical_address is_lower_hex_bytes canonical_pub_key_hash canonical_uint64
    is_zcash_reference canonical_zcash_chain is_numeral_after canonical_quote_chain
    canonical_zec_asset is_address_after is_erc20_tail is_erc20_asset canonical_quote_asset
    role_for_party check_term_fields check_term_amounts derive_swap_fill_id validate_swap_terms
    hash_swap_terms swap_id_for_terms has_duplicate same_texts is_unsorted check_market market_key
    validate_swap_market_policy is_market_of hash_swap_market_policy assert_approved_swap_market
    positive_uint64 policy_uint64 policy_hex32 validate_swap_observer_policy is_blank ends_blank
    is_untrimmed validate_swap_finality_policy check_deadlines hash_swap_observer_policy
    hash_swap_finality_policy check_finality assert_swap_evidence_policies hash_swap_timing_policy
    assert_swap_timing_policy swap_deadline_status any_of find_in uint64 nonzero_uint64 canonical_id
    canonical_detail observer_attestations has_observer_attestation is_retracted later_of
    all_authorized latest_authorization_time attestations_equal assert_unique_attestations
    check_attestation_fields check_attestation validate_observer_attestation add_report
    add_attestation observer_view_conflicts assert_fresh_attestation_id same_view is_qualifying
    add_source sources_by_view has_quorum assert_policy_qualified check_funding_fields
    check_expected check_funding_times canonical_preimage check_spend_fields spends_funding
    funding_fact_id spend_fact_id validate_funding_evidence check_spend_action check_spend
    validate_spend_evidence check_artifact check_confirmed check_funding_kept check_spend_kept
    leg_checks assert_swap_leg_state_integrity same_dispute leg_has_evidence has_evidence
    check_reference check_disputes has_two_views check_views check_resolution check_resolution_end
    check_resolutions replacements_by_retracted walk_replacements assert_resolution_graph_acyclic
    check_authorization check_window check_prepared_at check_leg_prepared check_progression
    check_unique_ids check_later_resolution check_replacement check_bound check_binding
    check_retraction reveals check_confirmed_secret check_terminal check_observed_secret
    check_policies integrity_checks assert_swap_state_integrity assert_not_disputed
    phase_of_progress phase_of_state swap_phase apply_swap_event apply_swap_events check_window_open
    create_swap_state authorize_swap_terms prepare_swap_funding abandon_swap_funding expire_swap
    check_zec_claim with_spend_seen with_spend_confirmed with_observer_conflict or_conflict
    record_funding observe_swap_funding confirm_swap_funding record_spend observe_swap_spend
    confirm_swap_spend swap_event_semantic_slot same_slot journal_hex32 last_root check_event_parts
    swap_state_root hash_swap_event assert_genesis_swap_state empty_swap_journal check_receipt
    verify_receipt verify_receipts check_swap_journal verify_swap_journal append_fresh append_unless
    append_swap_event replay_receipts replay_swap_journal
steps = 0

abbrev genesis : SwapState
genesis = record {
  terms = terms;
  terms_hash = hash_of b'1';
  swap_id = hash_of b'2';
  timing_policy = timing;
  market_policy = market;
  evidence_policies = evidence;
  authorizations = record { zec_seller = none; stablecoin_seller = none };
  zec = empty_leg;
  evm = empty_leg;
  observed_secret = none;
  observed_secret_fact_id = none;
  confirmed_secret = none;
  confirmed_secret_fact_id = none;
  terminal = none;
  disputes = [];
  resolutions = [];
  retracted_evidence_ids = [];
}

abbrev payload_sha256 : SwapEventPayload → Text
payload_sha256 (authorize_terms party hash at) = party
payload_sha256 _ = hash_of b'f'

abbrev event_sha256 : EventParts → Text
event_sha256 parts = hash_of (b'0' + parts.sequence)

abbrev state_sha256 : SwapState → Text
state_sha256 state = hash_of b'a'

abbrev empty_journal : SwapJournal
empty_journal = record {
  swap_id = hash_of b'2';
  terms_hash = hash_of b'1';
  initial_state = genesis;
  initial_state_root = hash_of b'a';
  receipts = [];
  head = zero_hex 64;
  next_sequence = 1;
}

is_empty :
    empty_swap_journal sha256_hex payload_sha256 event_sha256 state_sha256 genesis
    ≡ ok empty_journal
unfolding steps
is_empty = refl

abbrev start : Appended
start = record {
  journal = empty_journal;
  state = genesis;
  receipt = record {
    unsigned = record {
      version = 1;
      sequence = 0;
      swap_id = [];
      terms_hash = [];
      previous_event_hash = [];
      prior_state_root = [];
      next_state_root = [];
      payload = authorize_terms [] [] 0;
      payload_hash = [];
      semantic_slot = record { kind = []; parts = []; at = none };
    };
    event_hash = [];
  };
  appended = false;
}

abbrev or_start : Result Appended → Appended
or_start (ok a) = a
or_start (err e) = start

abbrev append : Appended → SwapEventPayload → Appended
append a payload = or_start (
    append_swap_event sha256_hex payload_sha256 event_sha256 state_sha256 a.journal a.state payload)

abbrev two_events : Appended
two_events =
    append (append start (authorize_terms terms.zec_seller_id (hash_of b'1') 10))
      (authorize_terms terms.stablecoin_seller_id (hash_of b'1') 20)

has_two : two_events.journal.next_sequence ≡ 3
unfolding steps
has_two = refl

is_verified :
    verify_swap_journal sha256_hex payload_sha256 event_sha256 state_sha256 two_events.journal
    ≡ true
unfolding steps
is_verified = refl

verify_swap_journal-replays_example :
    (state : SwapState) × (replay_swap_journal sha256_hex payload_sha256 event_sha256 state_sha256
        two_events.journal.initial_state two_events.journal
      ≡ ok state)
    × (apply_swap_events sha256_hex two_events.journal.initial_state
          (payloads_of two_events.journal.receipts)
        ≡ ok state)
    × IsOrdered state
verify_swap_journal-replays_example =
    verify_swap_journal-replays sha256_hex payload_sha256 event_sha256 state_sha256
      two_events.journal is_verified

abbrev one_event : Appended
one_event = append start (authorize_terms terms.zec_seller_id (hash_of b'1') 10)

starts :
    apply_swap_events sha256_hex empty_journal.initial_state (payloads_of empty_journal.receipts)
    ≡ ok genesis
unfolding steps
starts = refl

appends :
    append_swap_event sha256_hex payload_sha256 event_sha256 state_sha256 empty_journal genesis
      (authorize_terms terms.zec_seller_id (hash_of b'1') 10)
    ≡ ok one_event
unfolding steps
appends = refl

append_swap_event-verified_example :
    (verify_swap_journal sha256_hex payload_sha256 event_sha256 state_sha256 one_event.journal
      ≡ true)
    × (apply_swap_events sha256_hex one_event.journal.initial_state
          (payloads_of one_event.journal.receipts)
        ≡ ok one_event.state)
append_swap_event-verified_example =
    append_swap_event-verified sha256_hex payload_sha256 event_sha256 state_sha256 empty_journal
      genesis (authorize_terms terms.zec_seller_id (hash_of b'1') 10) one_event starts appends
