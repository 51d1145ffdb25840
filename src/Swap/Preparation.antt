-- ===== src/Swap/Preparation.antt =====
-- The preparation of a funding and its abandonment (src/lib/swap-state.ts).
use phlebas.Base.{
  ℕ, true, ok, ◌≡◌, refl, sym, subst, ap, ◌∙◌, Yields, Yields-all, arith, all_checks,
}
use phlebas.OrderDomain.{Text}
use phlebas.SwapDomain.Terms.{SwapLeg, zec, evm, Hashed}
use phlebas.Swap.{SwapState, empty_leg, leg_of, with_leg}
use phlebas.Swap.Legs.{
  is_unfunded, check_artifact, check_funding_kept, check_confirmed, check_spend_kept, leg_checks,
  assert_swap_leg_state_integrity,
}
use phlebas.Swap.Integrity.{assert_swap_state_integrity, assert_not_disputed}
use phlebas.Swap.Inversion.{assert_swap_state_integrity-HasIntegrity}
use phlebas.Swap.Operations.{prepare_swap_funding, abandon_swap_funding}

module _ (sha256_hex : Hashed → Text) where
  unfunded_leg_empty :
      (state : SwapState) (leg : SwapLeg)
      → assert_swap_leg_state_integrity sha256_hex state leg ≡ ok tt
      → is_unfunded (leg_of state leg).phase ≡ true
      → leg_of state leg ≡ empty_leg
  unfolding assert_swap_leg_state_integrity leg_checks all_checks check_artifact check_funding_kept
      check_confirmed check_spend_kept
  unfunded_leg_empty state leg h u = ground arith

  asserted_empty :
      (state : SwapState) (leg : SwapLeg)
      → is_unfunded (leg_of state leg).phase ≡ true
      → Yields (λ _. leg_of state leg ≡ empty_leg) (assert_swap_state_integrity sha256_hex state)
  asserted_empty state zec u = Yields-all _ (assert_swap_state_integrity sha256_hex state) λ next h.
      unfunded_leg_empty state zec
        (assert_swap_state_integrity-HasIntegrity sha256_hex state next h).1.zec_leg u
  asserted_empty state evm u = Yields-all _ (assert_swap_state_integrity sha256_hex state) λ next h.
      unfunded_leg_empty state evm
        (assert_swap_state_integrity-HasIntegrity sha256_hex state next h).1.evm_leg u

  -- What a preparation yields.
  prepared :
      (state : SwapState) (leg : SwapLeg) (artifact_hash : Text) (now : ℕ)
      → Yields
          (λ next.
            (leg_of state leg ≡ empty_leg)
            × (with_leg next leg empty_leg ≡ with_leg state leg empty_leg))
          (prepare_swap_funding sha256_hex state leg artifact_hash now)
  unfolding prepare_swap_funding assert_not_disputed
  prepared state zec artifact_hash now = ground (arith, asserted_empty state zec)
  prepared state evm artifact_hash now = ground (arith, asserted_empty state evm)

  abandoned :
      (state : SwapState) (leg : SwapLeg) (artifact_hash : Text) (at : ℕ)
      → Yields
          (λ next. next ≡ with_leg state leg empty_leg)
          (abandon_swap_funding sha256_hex state leg artifact_hash at)
  unfolding abandon_swap_funding
  abandoned state leg artifact_hash at = ground arith

  with_leg_same :
      (state : SwapState) (leg : SwapLeg) → with_leg state leg (leg_of state leg) ≡ state
  with_leg_same state zec = refl
  with_leg_same state evm = refl

  -- A funding that is prepared and then abandoned, each without an error, gives back the state from
  -- before.
  pub abandon_swap_funding-prepare_swap_funding :
      (state next last : SwapState) (leg : SwapLeg) (artifact_hash given : Text) (now at : ℕ)
      → prepare_swap_funding sha256_hex state leg artifact_hash now ≡ ok next
      → abandon_swap_funding sha256_hex next leg given at ≡ ok last
      → last ≡ state
  abandon_swap_funding-prepare_swap_funding state next last leg artifact_hash given now at h k =
      let (empty, same) = subst (Yields _) h (prepared state leg artifact_hash now) in
      subst (Yields _) k (abandoned next leg given at)
      ∙ same
      ∙ ap (with_leg state leg) (sym empty)
      ∙ with_leg_same state leg
