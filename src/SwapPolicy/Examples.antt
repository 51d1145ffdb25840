-- ===== src/SwapPolicy/Examples.antt =====
-- A run of src/lib/swap-policy.ts, and its theorem at it.
use phlebas.Base.{ℕ, ◌+◌, ◌≤◌, ◌≡◌, refl, Bool, true, false, ok}
use phlebas.Base.Lists.{keep_if}
use phlebas.Base.Sort.{sort, insert}
use phlebas.Base.Text.{all_in, strip_prefix, split_at, text_le, is_numeral}
use phlebas.Base.Results.{all_checks}
use phlebas.OrderDomain.{same_text, normalize_hex32, normalize_address, is_hex_bytes}
use phlebas.SwapDomain.{
  zeros, zero_hex, canonical_hex32, canonical_address, is_lower_hex_bytes, canonical_pub_key_hash,
  canonical_uint64, is_zcash_reference, canonical_zcash_chain, is_numeral_after,
  canonical_quote_chain, canonical_zec_asset, is_address_after, is_erc20_tail, is_erc20_asset,
  canonical_quote_asset, role_for_party,
}
use phlebas.SwapDomain.Terms.{
  check_term_fields, check_term_amounts, derive_swap_fill_id, validate_swap_terms, hash_swap_terms,
  swap_id_for_terms,
}
use phlebas.SwapDomain.Markets.{
  has_duplicate, same_texts, is_unsorted, check_market, market_key, validate_swap_market_policy,
  is_market_of, hash_swap_market_policy, assert_approved_swap_market,
}
use phlebas.SwapPolicy.{
  positive_uint64, policy_uint64, policy_hex32, validate_swap_observer_policy, is_blank, ends_blank,
  is_untrimmed, validate_swap_finality_policy, check_deadlines, hash_swap_observer_policy,
  hash_swap_finality_policy, check_finality, assert_swap_evidence_policies, hash_swap_timing_policy,
  assert_swap_timing_policy, swap_deadline_status,
}
use phlebas.SwapPolicy.{SwapDeadlineStatus}
use phlebas.SwapPolicy.Deadlines.{swap_deadline_status-windows}
use phlebas.Swap.Fixtures.{sha256_hex, terms, timing}

steps : ℕ
unfolding keep_if sort insert all_in strip_prefix split_at text_le is_numeral all_checks same_text
    normalize_hex32 normalize_address is_hex_bytes zeros zero_hex canonical_hex32 canonical_address
    is_lower_hex_bytes canonical_pub_key_hash canonical_uint64 is_zcash_reference
    canonical_zcash_chain is_numeral_after canonical_quote_chain canonical_zec_asset
    is_address_after is_erc20_tail is_erc20_asset canonical_quote_asset role_for_party
    check_term_fields check_term_amounts derive_swap_fill_id validate_swap_terms hash_swap_terms
    swap_id_for_terms has_duplicate same_texts is_unsorted check_market market_key
    validate_swap_market_policy is_market_of hash_swap_market_policy assert_approved_swap_market
    positive_uint64 policy_uint64 policy_hex32 validate_swap_observer_policy is_blank ends_blank
    is_untrimmed validate_swap_finality_policy check_deadlines hash_swap_observer_policy
    hash_swap_finality_policy check_finality assert_swap_evidence_policies hash_swap_timing_policy
    assert_swap_timing_policy swap_deadline_status
steps = 0

asserts : assert_swap_timing_policy sha256_hex terms timing ≡ ok terms
unfolding steps
asserts = refl

-- The status at two times after the last deadline but one.
abbrev status : Bool → SwapDeadlineStatus
status zec_refund = record {
  authorization_open = false;
  zec_funding_open = false;
  evm_funding_open = false;
  evm_claim_safe = false;
  evm_refund_eligible = true;
  zec_refund_eligible = zec_refund;
}

status_before : swap_deadline_status sha256_hex terms 550 ≡ ok (status false)
unfolding steps
status_before = refl

status_after : swap_deadline_status sha256_hex terms 600 ≡ ok (status true)
unfolding steps
status_after = refl

swap_deadline_status-windows_example :
    (false ≡ false) × (false ≡ false) × (true ≡ true → 600 ≤ 550 + 50 → true ≡ true)
swap_deadline_status-windows_example =
    swap_deadline_status-windows sha256_hex terms timing terms 550 600 (status false) (status true)
      asserts status_before status_after
