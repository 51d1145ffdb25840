-- ===== src/SwapPolicy/Deadlines.antt =====
-- The deadlines of a swap whose timing policy is asserted (src/lib/swap-policy.ts).
use phlebas.Base.{
  ℕ, ◌+◌, ◌≤◌, ◌<◌, true, false, ◌&&◌, ok, ◌≡◌, subst, leb, arith, Yields, all_checks,
}
use phlebas.OrderDomain.{Text}
use phlebas.SwapDomain.{SwapTerms}
use phlebas.SwapDomain.Terms.{SwapTimingPolicy, Hashed, validate_swap_terms}
use phlebas.SwapPolicy.{
  SwapDeadlineStatus, check_deadlines, assert_swap_timing_policy, swap_deadline_status,
}

-- The deadlines are far enough apart.
abbrev pub AreSpaced : SwapTerms → SwapTimingPolicy → Type 0
AreSpaced terms policy =
    (terms.authorization_deadline + policy.minimum_funding_window_seconds ≤ terms.zec_fund_by)
    × (terms.zec_fund_by + policy.minimum_funding_window_seconds ≤ terms.evm_fund_by)
    × (terms.evm_fund_by + policy.minimum_claim_window_seconds ≤ terms.evm_claim_safety_cutoff)
    × (terms.evm_claim_safety_cutoff + 1 < terms.evm_refund_time)
    × (terms.evm_refund_time + policy.minimum_safety_window_seconds ≤ terms.zec_refund_time)

check_deadlines-AreSpaced :
    (terms : SwapTerms) (policy : SwapTimingPolicy)
    → all_checks (check_deadlines terms policy) ≡ ok tt
    → AreSpaced terms policy
unfolding check_deadlines all_checks
check_deadlines-AreSpaced terms policy h = ground arith

module _ (sha256_hex : Hashed → Text) where
  validate_swap_terms_same :
      (terms : SwapTerms) → Yields (λ valid. valid ≡ terms) (validate_swap_terms sha256_hex terms)
  unfolding validate_swap_terms
  validate_swap_terms_same terms = ground arith

  pub assert_swap_timing_policy-AreSpaced :
      (terms : SwapTerms) (policy : SwapTimingPolicy)
      → Yields
          (λ valid. (valid ≡ terms) × AreSpaced terms policy)
          (assert_swap_timing_policy sha256_hex terms policy)
  unfolding assert_swap_timing_policy
  assert_swap_timing_policy-AreSpaced terms policy =
      ground (arith, validate_swap_terms_same terms, check_deadlines-AreSpaced terms policy)

  status_fields :
      (terms : SwapTerms) (now : ℕ)
      → Yields
          (λ s.
            (s.evm_claim_safe ≡ leb now terms.evm_claim_safety_cutoff)
            × (s.evm_funding_open ≡ leb now terms.evm_fund_by)
            × (s.evm_refund_eligible ≡ leb terms.evm_refund_time now)
            × (s.zec_refund_eligible ≡ leb terms.zec_refund_time now))
          (swap_deadline_status sha256_hex terms now)
  unfolding swap_deadline_status
  status_fields terms now = ground (arith, validate_swap_terms_same terms)

  -- Where the timing policy of a swap is asserted and its status is told at two times: while an EVM
  -- claim is safe the EVM refund is not eligible; once the EVM refund is eligible, EVM funding is
  -- closed; and when the ZEC refund is eligible at the one time, the EVM refund was eligible already
  -- at the other, if that is earlier by the policy's safety window at most.
  pub swap_deadline_status-windows :
      (terms : SwapTerms) (policy : SwapTimingPolicy) (valid : SwapTerms) (now later : ℕ)
      (s t : SwapDeadlineStatus)
      → assert_swap_timing_policy sha256_hex terms policy ≡ ok valid
      → swap_deadline_status sha256_hex terms now ≡ ok s
      → swap_deadline_status sha256_hex terms later ≡ ok t
      → (s.evm_claim_safe && s.evm_refund_eligible ≡ false)
        × (s.evm_funding_open && s.evm_refund_eligible ≡ false)
        × (t.zec_refund_eligible ≡ true
            → later ≤ now + policy.minimum_safety_window_seconds
            → s.evm_refund_eligible ≡ true)
  swap_deadline_status-windows terms policy valid now later s t a h k =
      let (_, spaced) = subst (Yields _) a (assert_swap_timing_policy-AreSpaced terms policy) in
      let (claim, funding, refund, _) = subst (Yields _) h (status_fields terms now) in
      let (_, _, _, zec_refund) = subst (Yields _) k (status_fields terms later) in
      (ground arith, ground arith, ground arith)
