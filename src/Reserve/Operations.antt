-- ===== src/Reserve/Operations.antt =====
-- The operations of src/lib/reserve.ts. Each checks the state that it is given, and the state that
-- it makes, by `calculateReserveCoverage`.
use phlebas.Base.{
  ◌+◌, ◌-◌, not, ◌||◌, [], ◌∷◌, ◌++◌, none, some, Result, ok, err, ◌>>=◌, ◌>>◌, throw_if, ltb, ◌==◌,
  ◌===◌, if◌then◌else◌, String,
}
use phlebas.Base.Text.{includes}
use phlebas.Reserve.{
  WithdrawalClaimStatus, payable, signed, broadcast, mined, unresolved, WithdrawalClaim,
  ReserveCoverageState, WithdrawalCommitment, VerifiedInputRestoration, ObservedStatus,
  saw_broadcast, saw_mined, VerifiedTransactionObservation, Update, is_payable, is_signed,
  is_broadcast, is_mined, is_unresolved, is_evidence_reference, assert_claim, replace_claim,
  calculate_reserve_coverage,
}

-- `calculateReserveCoverage(state); return state;`.
unfoldable pub checked : ReserveCoverageState → Result ReserveCoverageState
checked state = calculate_reserve_coverage state >>= λ _. ok state

-- The claim once the transaction is signed (lines 225 to 233).
abbrev pub commit : WithdrawalCommitment → WithdrawalClaim → WithdrawalClaim
commit transaction claim = record claim {
  status = signed;
  transaction_id = transaction.transaction_id;
  selected_input = transaction.selected_input;
  in_transit_principal = transaction.principal;
  in_flight_change = transaction.in_flight_change;
  network_fee = transaction.network_fee;
}

unfoldable pub sign_update : WithdrawalCommitment → Update
sign_update transaction claim captured =
    throw_if (not (is_payable claim.status)) "only a payable claim can be signed"
    >> assert_claim (commit transaction claim)
    >> ok (some (commit transaction claim), captured)

-- Lines 237 to 246. The controlled assets would be negative where the selected input exceeds them;
-- `calculateReserveCoverage` throws on that before anything else.
unfoldable pub post_signature :
    WithdrawalCommitment → ReserveCoverageState → Result ReserveCoverageState
post_signature transaction next =
    let signed_state : ReserveCoverageState = record next {
      controlled_assets = next.controlled_assets - transaction.selected_input;
      committed_transaction_ids = next.committed_transaction_ids ++ transaction.transaction_id ∷ [];
    } in
    throw_if (ltb next.controlled_assets transaction.selected_input)
      "controlledAssets cannot be negative"
    >> calculate_reserve_coverage signed_state
    >>= λ coverage.
        if not coverage.controlled_covered || not coverage.total_covered
        then err "post-signature reserve coverage would be insufficient"
        else ok signed_state

unfoldable pub sign_withdrawal :
    ReserveCoverageState → WithdrawalCommitment → Result ReserveCoverageState
sign_withdrawal state transaction = calculate_reserve_coverage state >>= λ coverage.
    throw_if coverage.incident_halt_required
      "new signature commitment is blocked during an unresolved withdrawal incident"
    >> throw_if (includes state.committed_transaction_ids transaction.transaction_id)
        "duplicate committed transaction ID"
    >> replace_claim state transaction.claim_id (sign_update transaction)
    >>= λ next. post_signature transaction next.0

-- The callback's second test (line 264) is covered by its first.
unfoldable pub refund_update : Update
refund_update claim restored_supply =
    throw_if
      (is_signed claim.status
        || is_broadcast claim.status
        || is_mined claim.status
        || is_unresolved claim.status)
      "once a native transaction is signed, the claim cannot be refunded"
    >> throw_if (not (is_payable claim.status))
        "only a payable claim can be refunded before signature"
    >> ok (none, claim.payable)

unfoldable pub refund_withdrawal_before_signature :
    ReserveCoverageState → String → Result ReserveCoverageState
refund_withdrawal_before_signature state claim_id = calculate_reserve_coverage state >>= λ _.
    replace_claim state claim_id refund_update >>= λ next.
    checked (record (next.0) { token_supply = (next.0).token_supply + next.1 })

unfoldable pub broadcast_update : Update
broadcast_update claim captured =
    throw_if (not (is_signed claim.status)) "only a signed claim can be broadcast"
    >> ok (some (record claim { status = broadcast }), captured)

unfoldable pub broadcast_withdrawal : ReserveCoverageState → String → Result ReserveCoverageState
broadcast_withdrawal state claim_id = calculate_reserve_coverage state >>= λ _.
    replace_claim state claim_id broadcast_update >>= λ next. checked (next.0)

unfoldable pub mined_update : Update
mined_update claim captured =
    throw_if (not (is_broadcast claim.status)) "only a broadcast claim can be mined"
    >> ok (some (record claim { status = mined }), captured)

unfoldable pub mark_withdrawal_mined : ReserveCoverageState → String → Result ReserveCoverageState
mark_withdrawal_mined state claim_id = calculate_reserve_coverage state >>= λ _.
    replace_claim state claim_id mined_update >>= λ next. checked (next.0)

unfoldable pub unresolved_update : Update
unresolved_update claim captured =
    throw_if (is_payable claim.status || is_unresolved claim.status)
      "only an active committed transaction can become unresolved"
    >> ok (some (record claim { status = unresolved; in_transit_principal = 0 }), captured)

unfoldable pub mark_withdrawal_unresolved :
    ReserveCoverageState → String → Result ReserveCoverageState
mark_withdrawal_unresolved state claim_id = calculate_reserve_coverage state >>= λ _.
    replace_claim state claim_id unresolved_update >>= λ next. checked (next.0)

abbrev pub observed : ObservedStatus → WithdrawalClaimStatus
observed saw_broadcast = broadcast
observed saw_mined = mined

unfoldable pub observation_update : VerifiedTransactionObservation → Update
observation_update observation claim captured =
    throw_if (not (is_unresolved claim.status))
      "only an unresolved claim can apply a verified transaction observation"
    >> throw_if (not (claim.transaction_id === observation.transaction_id))
        "observed transaction ID does not match the committed transaction"
    >> ok (
      some (record claim {
        status = observed observation.observed_status;
        in_transit_principal = claim.payable;
      }),
      captured,
    )

unfoldable pub apply_verified_transaction_observation :
    ReserveCoverageState → VerifiedTransactionObservation → Result ReserveCoverageState
apply_verified_transaction_observation state observation = calculate_reserve_coverage state >>= λ _.
    throw_if (not (is_evidence_reference observation.evidence_reference))
      "verified transaction observation requires a bounded evidence reference"
    >> replace_claim state observation.claim_id (observation_update observation)
    >>= λ next. checked (next.0)

unfoldable pub confirm_update : Update
confirm_update claim confirmed_change =
    throw_if (not (is_mined claim.status)) "only a mined claim can be confirmed"
    >> ok (none, claim.in_flight_change)

unfoldable pub confirm_withdrawal : ReserveCoverageState → String → Result ReserveCoverageState
confirm_withdrawal state claim_id = calculate_reserve_coverage state >>= λ _.
    replace_claim state claim_id confirm_update >>= λ next.
    checked (record (next.0) { controlled_assets = (next.0).controlled_assets + next.1 })

unfoldable pub restoration_update : VerifiedInputRestoration → Update
restoration_update verification claim restored_input =
    throw_if (not (is_unresolved claim.status))
      "only an unresolved claim can apply verified input restoration"
    >> throw_if (not (claim.selected_input == verification.selected_input))
        "verified selected input does not match the committed transaction"
    >> throw_if (not (claim.transaction_id === verification.transaction_id))
        "verified transaction ID does not match the committed transaction"
    >> ok (
      some (record claim {
        status = payable;
        transaction_id = "";
        selected_input = 0;
        in_transit_principal = 0;
        in_flight_change = 0;
        network_fee = 0;
      }),
      claim.selected_input,
    )

unfoldable pub apply_verified_input_restoration :
    ReserveCoverageState → VerifiedInputRestoration → Result ReserveCoverageState
apply_verified_input_restoration state verification = calculate_reserve_coverage state >>= λ _.
    throw_if (not (is_evidence_reference verification.evidence_reference))
      "verified restoration requires a bounded evidence reference"
    >> throw_if (not verification.inputs_spendable || not verification.transaction_cannot_confirm)
        "verified restoration requires both external recovery conclusions"
    >> replace_claim state verification.claim_id (restoration_update verification)
    >>= λ next.
        checked (record (next.0) { controlled_assets = (next.0).controlled_assets + next.1 })
