-- ===== src/Swap/Phase.antt =====
-- `swapPhase` of src/lib/swap-state.ts.
use phlebas.Base.{Bool, not, ◌&&◌, ◌||◌, Result, ok, ◌>>=◌, if◌then◌else◌}
use phlebas.OrderDomain.{Text}
use phlebas.SwapDomain.{is_there}
use phlebas.SwapDomain.Terms.{Hashed}
use phlebas.SwapDomain.Markets.{is_empty_list}
use phlebas.Swap.{SwapLegPhase, SwapState, all_authorized}
use phlebas.Swap.Legs.{
  is_unfunded, is_prepared, is_funding_seen, is_funded_confirmed, is_claim_seen,
  is_claimed_confirmed, is_refund_phase, is_refunded_confirmed,
}
use phlebas.Swap.Integrity.{assert_swap_state_integrity}

pub data SwapPhase : Type 0 where
  awaiting_authorizations awaiting_zec_funding awaiting_zec_confirmation awaiting_evm_funding
        awaiting_evm_confirmation awaiting_evm_claim secret_observed awaiting_zec_claim
        refund_recovery settled refunded expired disputed :
      SwapPhase

-- `zecRecovered` and `evmRecovered`.
abbrev pub is_recovered : SwapLegPhase → Bool
is_recovered p = is_unfunded p || is_refunded_confirmed p

abbrev pub refund_started : SwapState → Bool
refund_started state = is_refund_phase state.zec.phase || is_refund_phase state.evm.phase

-- From line 1459: no refund has started.
unfoldable pub phase_of_progress : SwapState → SwapPhase
phase_of_progress state =
    if not (all_authorized state)
    then awaiting_authorizations
    else if is_unfunded state.zec.phase || is_prepared state.zec.phase
    then awaiting_zec_funding
    else if is_funding_seen state.zec.phase
    then awaiting_zec_confirmation
    else if is_unfunded state.evm.phase || is_prepared state.evm.phase
    then awaiting_evm_funding
    else if is_funding_seen state.evm.phase
    then awaiting_evm_confirmation
    else if is_claim_seen state.evm.phase
    then secret_observed
    else if is_claimed_confirmed state.evm.phase && is_funded_confirmed state.zec.phase
    then awaiting_zec_claim
    else if is_claim_seen state.zec.phase
    then awaiting_zec_claim
    else awaiting_evm_claim

unfoldable pub phase_of_state : SwapState → SwapPhase
phase_of_state state =
    if is_there state.terminal
    then expired
    else if not (is_empty_list state.disputes)
    then disputed
    else if is_claimed_confirmed state.zec.phase && is_claimed_confirmed state.evm.phase
    then settled
    else if refund_started state
    then (if is_recovered state.zec.phase && is_recovered state.evm.phase
        then refunded
        else refund_recovery)
    else phase_of_progress state

module _ (sha256_hex : Hashed → Text) where
  unfoldable pub swap_phase : SwapState → Result SwapPhase
  swap_phase state =
      assert_swap_state_integrity sha256_hex state >>= λ valid. ok (phase_of_state valid)
