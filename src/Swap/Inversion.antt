-- ===== src/Swap/Inversion.antt =====
-- What the integrity of a state says, check by check (src/lib/swap-state.ts).
use phlebas.Base.{
  not, ◌&&◌, ok, ◌≡◌, sym, throw_if, all_checks, all_checks-returned, >>-returned, ok-injective,
}
use phlebas.OrderDomain.{Text}
use phlebas.SwapDomain.{is_there}
use phlebas.SwapDomain.Terms.{zec, evm, Hashed}
use phlebas.Swap.{SwapState}
use phlebas.Swap.Legs.{is_claim_phase, assert_swap_leg_state_integrity}
use phlebas.Swap.Integrity.{
  check_progression, check_terminal, integrity_checks, check_confirmed_secret,
  check_observed_secret, assert_swap_state_integrity,
}

module _ (sha256_hex : Hashed → Text) (state : SwapState) where
  -- The parts of the integrity of a state that the proofs use.
  pub record HasIntegrity : Type 0 where
    pub zec_leg : assert_swap_leg_state_integrity sha256_hex state zec ≡ ok tt
    pub evm_leg : assert_swap_leg_state_integrity sha256_hex state evm ≡ ok tt
    pub progression : all_checks (check_progression state) ≡ ok tt
    pub observed :
        check_observed_secret sha256_hex state state.observed_secret state.observed_secret_fact_id
        ≡ ok tt
    pub confirmed :
        check_confirmed_secret state state.confirmed_secret state.confirmed_secret_fact_id ≡ ok tt
    pub claim_secret :
        throw_if
          (is_claim_phase state.zec.phase && not (is_there state.confirmed_secret))
          "Persisted ZEC claim progression requires the confirmed canonical preimage"
        ≡ ok tt
    pub terminal : check_terminal state state.terminal ≡ ok tt

  pub assert_swap_state_integrity-HasIntegrity :
      (next : SwapState)
      → assert_swap_state_integrity sha256_hex state ≡ ok next
      → (next ≡ state) × HasIntegrity
  unfolding assert_swap_state_integrity integrity_checks
  assert_swap_state_integrity-HasIntegrity next h =
      let (checks, e) =
        >>-returned (all_checks (integrity_checks sha256_hex state)) (ok state) next h in
      let c = all_checks-returned (integrity_checks sha256_hex state) checks in
      (
        sym (ok-injective e),
        record {
          zec_leg = c.1.1.1.1.0;
          evm_leg = c.1.1.1.1.1.0;
          progression = c.1.1.1.1.1.1.0;
          observed = c.1.1.1.1.1.1.1.1.1.1.1.1.1.1.1.1.1.1.1.0;
          confirmed = c.1.1.1.1.1.1.1.1.1.1.1.1.1.1.1.1.1.1.1.1.0;
          claim_secret = c.1.1.1.1.1.1.1.1.1.1.1.1.1.1.1.1.1.1.1.1.1.0;
          terminal = c.1.1.1.1.1.1.1.1.1.1.1.1.1.1.1.1.1.1.1.1.1.1.0;
        },
      )
