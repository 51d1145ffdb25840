-- ===== src/Swap/Outcomes.antt =====
-- What the phases `settled` and `refunded` of `swapPhase` mean (src/lib/swap-state.ts).
use phlebas.Base.{
  true, some, ok, ◌≡◌, ◌⊎◌, inl, inr, subst, arith, Bool-cases, >>=-returned, ok-injective,
}
use phlebas.OrderDomain.{Text}
use phlebas.SwapDomain.Terms.{SwapLeg, zec, evm, SpendAction, claim, refund, Hashed}
use phlebas.Swap.{SpendFact, SwapState, leg_of}
use phlebas.Swap.Legs.{
  is_unfunded, is_claimed_confirmed, requires_spend, assert_swap_leg_state_integrity,
}
use phlebas.Swap.Integrity.{assert_swap_state_integrity}
use phlebas.Swap.Phase.{
  SwapPhase, settled, refunded, is_recovered, phase_of_progress, phase_of_state, swap_phase,
}
use phlebas.Swap.Inversion.{HasIntegrity, assert_swap_state_integrity-HasIntegrity}
use phlebas.Swap.Payments.{IsPaid, action_of, leg_integrity-IsPaid}

module _ (sha256_hex : Hashed → Text) where
  -- The leg keeps a spend that is paid as signed.
  abbrev pub HasPaid : SwapState → SwapLeg → SpendAction → Type 0
  HasPaid state leg action =
      (spend : SpendFact) × ((leg_of state leg).spend ≡ some spend)
      × IsPaid sha256_hex state leg action spend

  swap_phase_lem :
      (state : SwapState) (phase : SwapPhase)
      → swap_phase sha256_hex state ≡ ok phase
      → HasIntegrity sha256_hex state × (phase_of_state state ≡ phase)
  unfolding swap_phase
  swap_phase_lem state phase h =
      let (valid, first, rest) =
        >>=-returned (assert_swap_state_integrity sha256_hex state) (λ s. ok (phase_of_state s))
          phase h in
      let (same, i) = assert_swap_state_integrity-HasIntegrity sha256_hex state valid first in
      (i, subst (λ s. phase_of_state s ≡ phase) same (ok-injective rest))

  integrity_of_leg :
      (state : SwapState) (leg : SwapLeg)
      → HasIntegrity sha256_hex state
      → assert_swap_leg_state_integrity sha256_hex state leg ≡ ok tt
  integrity_of_leg state zec i = i.zec_leg
  integrity_of_leg state evm i = i.evm_leg

  leg-HasPaid :
      (state : SwapState) (leg : SwapLeg) (action : SpendAction)
      → HasIntegrity sha256_hex state
      → requires_spend (leg_of state leg).phase ≡ true
      → action_of (leg_of state leg).phase ≡ action
      → HasPaid state leg action
  leg-HasPaid state leg action i spent same =
      let (spend, kept, paid) =
        leg_integrity-IsPaid sha256_hex state leg (integrity_of_leg state leg i) spent in
      (spend, kept, subst (λ a. IsPaid sha256_hex state leg a spend) same paid)

  settled_phases :
      (state : SwapState)
      → phase_of_state state ≡ settled
      → (is_claimed_confirmed state.zec.phase ≡ true)
        × (is_claimed_confirmed state.evm.phase ≡ true)
  unfolding phase_of_state phase_of_progress
  settled_phases state h = ground arith

  -- Where the phase of a swap is settled, both legs have been claimed: each by a successful
  -- transaction of the signed amount to the signed recipient, which reveals a preimage of the signed
  -- secret hash.
  pub swap_phase-settled :
      (state : SwapState)
      → swap_phase sha256_hex state ≡ ok settled
      → HasPaid state zec claim × HasPaid state evm claim
  swap_phase-settled state h =
      let (i, e) = swap_phase_lem state settled h in
      let (z, v) = settled_phases state e in
      (
        leg-HasPaid state zec claim i (ground arith) (ground arith),
        leg-HasPaid state evm claim i (ground arith) (ground arith),
      )

  refunded_phases :
      (state : SwapState)
      → phase_of_state state ≡ refunded
      → (is_recovered state.zec.phase ≡ true) × (is_recovered state.evm.phase ≡ true)
  unfolding phase_of_state phase_of_progress
  refunded_phases state h = ground arith

  recovered_leg :
      (state : SwapState) (leg : SwapLeg)
      → HasIntegrity sha256_hex state
      → is_recovered (leg_of state leg).phase ≡ true
      → (is_unfunded (leg_of state leg).phase ≡ true) ⊎ HasPaid state leg refund
  recovered_leg state leg i h = elim (Bool-cases (is_unfunded (leg_of state leg).phase)) [
    | inl e ↦ inl e
    | inr e ↦ inr (leg-HasPaid state leg refund i (ground arith) (ground arith))
  ]

  -- Where the phase of a swap is refunded, each leg has not been funded, or has been refunded by a
  -- successful transaction of the signed amount to the signed refund recipient that was executed at
  -- or after the signed refund time and reveals no preimage.
  pub swap_phase-refunded :
      (state : SwapState)
      → swap_phase sha256_hex state ≡ ok refunded
      → ((is_unfunded state.zec.phase ≡ true) ⊎ HasPaid state zec refund)
        × ((is_unfunded state.evm.phase ≡ true) ⊎ HasPaid state evm refund)
  swap_phase-refunded state h =
      let (i, e) = swap_phase_lem state refunded h in
      let (z, v) = refunded_phases state e in
      (recovered_leg state zec i z, recovered_leg state evm i v)
