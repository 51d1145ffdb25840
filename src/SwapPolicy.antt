-- ===== src/SwapPolicy.antt =====
-- src/lib/swap-policy.ts: the timing, observer and finality policies of a swap.
pub mod Deadlines
mod Examples
use phlebas.Base.{
  ℕ, ◌+◌, ◌-◌, Bool, true, false, not, ◌&&◌, ◌||◌, List, [], ◌∷◌, map, Result, ok, err, ◌>>=◌, ◌>>◌,
  throw_if, ltb, leb, ◌==◌, length, uint64_max, without_value, all_checks,
}
use phlebas.OrderDomain.{Text, same_text, normalize_hex32}
use phlebas.SwapDomain.{SwapTerms, zero_hex}
use phlebas.SwapDomain.Terms.{
  SwapTimingPolicy, SwapObserverPolicy, SwapFinalityPolicy, Hashed, observer_policy,
  finality_policy, timing_policy, validate_swap_terms,
}
use phlebas.SwapDomain.Markets.{has_duplicate, is_unsorted}

pub record SwapEvidencePolicies : Type 0 where
  pub observer : SwapObserverPolicy
  pub zec_finality : SwapFinalityPolicy
  pub evm_finality : SwapFinalityPolicy

pub record SwapDeadlineStatus : Type 0 where
  pub authorization_open : Bool
  pub zec_funding_open : Bool
  pub evm_funding_open : Bool
  pub evm_claim_safe : Bool
  pub evm_refund_eligible : Bool
  pub zec_refund_eligible : Bool

unfoldable pub positive_uint64 : ℕ → Result ℕ
positive_uint64 value =
    throw_if (value == 0 || ltb uint64_max value) "must be a positive uint64" >> ok value

unfoldable pub policy_uint64 : ℕ → Result ℕ
policy_uint64 value = throw_if (ltb uint64_max value) "must fit uint64" >> ok value

unfoldable pub policy_hex32 : Text → Result Text
policy_hex32 value = normalize_hex32 value >>= λ normalized.
    throw_if (not (same_text normalized value) || same_text normalized (zero_hex 64))
      "must be nonzero lowercase canonical hexadecimal"
    >> ok normalized

-- The checks return the values that they are given, so that the policy is returned as it is.
unfoldable pub validate_swap_observer_policy : SwapObserverPolicy → Result SwapObserverPolicy
validate_swap_observer_policy policy =
    throw_if (not (policy.version == 1)) "Unsupported observer policy version"
    >> all_checks (map (λ id. without_value (policy_hex32 id)) policy.source_ids)
    >> throw_if (ltb (length policy.source_ids) 2 || has_duplicate policy.source_ids)
        "Observer policy requires at least two distinct sources"
    >> throw_if (is_unsorted policy.source_ids) "Observer source IDs must be sorted canonically"
    >> without_value (positive_uint64 policy.required_source_count)
    >> throw_if
        (ltb policy.required_source_count 2
          || ltb (length policy.source_ids) policy.required_source_count)
        "Required observer source count must fit the approved source set and be at least two"
    >> without_value (positive_uint64 policy.max_observation_delay_seconds)
    >> ok policy

-- `text.trim() !== text`: white space, as `trim` has it, at either end.
unfoldable pub is_blank : ℕ → Bool
is_blank c =
    (leb 9 c && leb c 13)
    || c == 32
    || c == 160
    || c == 5760
    || (leb 8192 c && leb c 8202)
    || c == 8232
    || c == 8233
    || c == 8239
    || c == 8287
    || c == 12288
    || c == 65279

unfoldable pub ends_blank : Text → Bool
ends_blank [] = false
ends_blank (c ∷ []) = is_blank c
ends_blank (c ∷ d ∷ ds) = ends_blank (d ∷ ds)

unfoldable pub is_untrimmed : Text → Bool
is_untrimmed [] = false
is_untrimmed (c ∷ cs) = is_blank c || ends_blank (c ∷ cs)

unfoldable pub validate_swap_finality_policy : SwapFinalityPolicy → Result SwapFinalityPolicy
validate_swap_finality_policy policy =
    throw_if (not (policy.version == 1)) "Unsupported finality policy version"
    >> throw_if (length policy.chain == 0 || is_untrimmed policy.chain)
        "Finality policy chain must be canonical"
    >> without_value (positive_uint64 policy.minimum_confirmations)
    >> without_value (policy_uint64 policy.minimum_age_seconds)
    >> ok policy

-- The deadlines, in the order in which they must be (lines 145 to 170).
unfoldable pub check_deadlines : SwapTerms → SwapTimingPolicy → List (Result (Unit {0}))
check_deadlines terms policy =
    throw_if
      (leb terms.zec_fund_by terms.authorization_deadline
        || leb terms.evm_fund_by terms.zec_fund_by
        || leb terms.evm_claim_safety_cutoff terms.evm_fund_by
        || leb terms.evm_refund_time terms.evm_claim_safety_cutoff
        || leb terms.zec_refund_time terms.evm_refund_time)
      "Swap deadlines must be strictly increasing"
    ∷ throw_if
        (ltb (terms.zec_fund_by - terms.authorization_deadline)
          policy.minimum_funding_window_seconds)
        "ZEC funding window is below the policy minimum"
    ∷ throw_if (ltb (terms.evm_fund_by - terms.zec_fund_by) policy.minimum_funding_window_seconds)
        "Second-leg funding window is below the policy minimum"
    ∷ throw_if
        (ltb (terms.evm_claim_safety_cutoff - terms.evm_fund_by)
          policy.minimum_claim_window_seconds)
        "EVM claim window is below the policy minimum"
    ∷ throw_if (leb terms.evm_refund_time (terms.evm_claim_safety_cutoff + 1))
        "EVM claim and refund deadlines must leave an excluded safety gap"
    ∷ throw_if
        (ltb (terms.zec_refund_time - terms.evm_refund_time) policy.minimum_safety_window_seconds)
        "Cross-chain safety window is below the policy minimum"
    ∷ []

module _ (sha256_hex : Hashed → Text) where
  unfoldable pub hash_swap_observer_policy : SwapObserverPolicy → Result Text
  hash_swap_observer_policy policy = validate_swap_observer_policy policy >>= λ p. ok (
      sha256_hex
        (observer_policy p.source_ids p.required_source_count p.max_observation_delay_seconds))

  unfoldable pub hash_swap_finality_policy : SwapFinalityPolicy → Result Text
  hash_swap_finality_policy policy = validate_swap_finality_policy policy >>= λ p.
      ok (sha256_hex (finality_policy p.chain p.minimum_confirmations p.minimum_age_seconds))

  -- Lines 123 to 128, for one chain; `||` hashes only where the chain is the right one.
  unfoldable pub check_finality : SwapFinalityPolicy → Text → Text → Result (Unit {0})
  check_finality policy chain policy_id =
      throw_if (not (same_text policy.chain chain)) "finality policy does not match signed terms"
      >> hash_swap_finality_policy policy
      >>= λ hash.
          throw_if (not (same_text hash policy_id)) "finality policy does not match signed terms"

  unfoldable pub assert_swap_evidence_policies :
      SwapTerms → SwapEvidencePolicies → Result SwapEvidencePolicies
  assert_swap_evidence_policies terms policies =
      without_value (validate_swap_observer_policy policies.observer)
      >> without_value (validate_swap_finality_policy policies.zec_finality)
      >> without_value (validate_swap_finality_policy policies.evm_finality)
      >> hash_swap_observer_policy policies.observer
      >>= λ hash.
          throw_if (not (same_text hash terms.observer_policy_id))
            "Observer policy does not match signed terms"
          >> check_finality policies.zec_finality terms.zec_chain terms.zec_finality_policy_id
          >> check_finality policies.evm_finality terms.quote_chain terms.evm_finality_policy_id
          >> ok policies

  unfoldable pub hash_swap_timing_policy : SwapTimingPolicy → Result Text
  hash_swap_timing_policy policy =
      without_value (positive_uint64 policy.minimum_funding_window_seconds)
      >> without_value (positive_uint64 policy.minimum_claim_window_seconds)
      >> without_value (positive_uint64 policy.minimum_safety_window_seconds)
      >> ok (
          sha256_hex (
            timing_policy policy.minimum_funding_window_seconds policy.minimum_claim_window_seconds
              policy.minimum_safety_window_seconds))

  unfoldable pub assert_swap_timing_policy : SwapTerms → SwapTimingPolicy → Result SwapTerms
  assert_swap_timing_policy terms policy = validate_swap_terms sha256_hex terms >>= λ valid.
      hash_swap_timing_policy policy >>= λ hash.
      throw_if (not (same_text hash valid.timeout_policy_id))
        "Timing policy does not match signed terms"
      >> all_checks (check_deadlines valid policy)
      >> ok valid

  unfoldable pub swap_deadline_status : SwapTerms → ℕ → Result SwapDeadlineStatus
  swap_deadline_status terms now_seconds =
      throw_if (ltb uint64_max now_seconds) "Current time must fit uint64"
      >> validate_swap_terms sha256_hex terms
      >>= λ valid. ok (record {
        authorization_open = ltb now_seconds valid.authorization_deadline;
        zec_funding_open = ltb now_seconds valid.zec_fund_by;
        evm_funding_open = leb now_seconds valid.evm_fund_by;
        evm_claim_safe = leb now_seconds valid.evm_claim_safety_cutoff;
        evm_refund_eligible = leb valid.evm_refund_time now_seconds;
        zec_refund_eligible = leb valid.zec_refund_time now_seconds;
      })
