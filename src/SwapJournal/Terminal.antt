-- ===== src/SwapJournal/Terminal.antt =====
-- A swap that has expired (src/lib/swap-state.ts).
use phlebas.Base.{
  true, false, [], none, ok, ◌≡◌, refl, Yields, Yields-all, Result-cases, inl, inr, Throws, arith,
  all_checks,
}
use phlebas.OrderDomain.{Text}
use phlebas.SwapDomain.{is_there}
use phlebas.SwapDomain.Terms.{SwapLeg, zec, evm, Hashed}
use phlebas.Swap.{
  SwapState, leg_of, canonical_id, any_of, observer_attestations, has_observer_attestation,
}
use phlebas.Swap.Legs.{
  assert_swap_leg_state_integrity, leg_checks, check_funding_kept, check_spend_kept, is_unfunded,
}
use phlebas.Swap.Integrity.{check_terminal, assert_swap_state_integrity, assert_not_disputed}
use phlebas.Swap.Inversion.{HasIntegrity, assert_swap_state_integrity-HasIntegrity}
use phlebas.Swap.Recovery.{
  resolution_context, replace_swap_funding_attestation, replace_swap_spend_attestation,
  flag_swap_dispute, retract_swap_evidence,
}
use phlebas.Swap.Operations.{
  authorize_swap_terms, prepare_swap_funding, abandon_swap_funding, expire_swap,
}
use phlebas.Swap.Observations.{
  observe_swap_funding, confirm_swap_funding, observe_swap_spend, confirm_swap_spend,
}
use phlebas.SwapJournal.{SwapEventPayload, retract_evidence, apply_swap_event}

module _ (sha256_hex : Hashed → Text) where
  -- An unfunded leg has no reports.
  unfunded_leg_reports :
      (state : SwapState) (leg : SwapLeg)
      → assert_swap_leg_state_integrity sha256_hex state leg ≡ ok tt
      → is_unfunded (leg_of state leg).phase ≡ true
      → ((leg_of state leg).funding_attestations ≡ none)
        × ((leg_of state leg).spend_attestations ≡ none)
  unfolding assert_swap_leg_state_integrity leg_checks all_checks check_funding_kept
      check_spend_kept
  unfunded_leg_reports state leg h u = ground arith

  expired_reports :
      (state : SwapState)
      → HasIntegrity sha256_hex state
      → is_there state.terminal ≡ true
      → observer_attestations state ≡ []
  unfolding check_terminal observer_attestations
  expired_reports state i t = ground (
    arith,
    i.terminal,
    unfunded_leg_reports state zec i.zec_leg,
    unfunded_leg_reports state evm i.evm_leg,
  )

  expired_report :
      (state : SwapState) (id : Text)
      → is_there state.terminal ≡ true
      → Yields
          (λ _. has_observer_attestation state id ≡ false)
          (assert_swap_state_integrity sha256_hex state)
  unfolding has_observer_attestation any_of
  expired_report state id t =
      Yields-all (λ _. has_observer_attestation state id ≡ false)
        (assert_swap_state_integrity sha256_hex state)
        λ next h.
          rw
            (expired_reports state
              (assert_swap_state_integrity-HasIntegrity sha256_hex state next h).1 t)
            refl

  -- An event that is applied to an expired swap throws, whatever the event.
  pub apply_swap_event-Throws :
      (state : SwapState) (event : SwapEventPayload)
      → is_there state.terminal ≡ true
      → Throws (apply_swap_event sha256_hex state event)
  unfolding apply_swap_event authorize_swap_terms prepare_swap_funding abandon_swap_funding
      expire_swap observe_swap_funding confirm_swap_funding observe_swap_spend confirm_swap_spend
      replace_swap_funding_attestation replace_swap_spend_attestation resolution_context
      flag_swap_dispute retract_swap_evidence assert_not_disputed
  apply_swap_event-Throws state (retract_evidence id detail) t =
      elim (Result-cases (canonical_id id)) [
        | inl (x, e) ↦ ground (arith, expired_report state x t)
        | inr (m, e) ↦ ground arith
      ]
  apply_swap_event-Throws state _ t = ground arith
