-- ===== src/Reserve/Examples.antt =====
-- Tests of src/lib/reserve.ts, and its theorems at concrete inputs.
use phlebas.Base.{◌≡◌, refl, true, false, List, [], ◌∷◌, Result, ok}
use phlebas.Base.Text.{matches_class, all_in, includes}
use phlebas.Reserve.{
  WithdrawalClaim, ReserveCoverageState, ReserveCoverage, WithdrawalCommitment, payable, mined,
  signed, is_claim_id, is_transaction_id, assert_payable_values, assert_committed_values,
  assert_values, assert_claim, replace_loop, replace_claim, committed_ids, activate, tally_claim,
  tally_claims, coverage_of, calculate_reserve_coverage,
}
use phlebas.Reserve.Operations.{
  checked, sign_update, post_signature, sign_withdrawal, refund_update,
  refund_withdrawal_before_signature, broadcast_update, broadcast_withdrawal, mined_update,
  mark_withdrawal_mined, confirm_update, confirm_withdrawal,
}
use phlebas.Reserve.Accounting.{Moves}
use phlebas.Reserve.Coverage.{Verdicts, Amounts, calculate_reserve_coverage-agrees}
use phlebas.Reserve.Moves.{
  Confirms, Refunds, confirm_withdrawal-Moves, refund_withdrawal_before_signature-Moves,
}
use phlebas.Reserve.Signing.{sign_withdrawal-Moves}
use phlebas.Reserve.History.{
  Operation, signs, broadcasts, mines, confirms, apply, run, Ledger, run-Ledger,
}

abbrev claim : WithdrawalClaim
claim = record {
  claim_id = "w:1";
  transaction_id = "";
  payable = 40;
  status = payable;
  selected_input = 0;
  in_transit_principal = 0;
  in_flight_change = 0;
  network_fee = 0;
}

abbrev reserve : ReserveCoverageState
reserve = record {
  controlled_assets = 120;
  token_supply = 50;
  deposit_entitlements = 5;
  withdrawal_claims = claim ∷ [];
  committed_transaction_ids = [];
  other_liabilities = 0;
  required_buffer = 5;
}

abbrev transaction : WithdrawalCommitment
transaction = record {
  claim_id = "w:1";
  transaction_id = "00112233445566778899aabbccddeeff00112233445566778899aabbccddeeff";
  selected_input = 52;
  principal = 40;
  in_flight_change = 10;
  network_fee = 2;
}

abbrev settlement : List Operation
settlement = signs transaction ∷ broadcasts "w:1" ∷ mines "w:1" ∷ confirms "w:1" ∷ []

abbrev settled : ReserveCoverageState
settled = record reserve {
  controlled_assets = 78;
  withdrawal_claims = [];
  committed_transaction_ids = transaction.transaction_id ∷ [];
}

abbrev signed_reserve : ReserveCoverageState
signed_reserve = record reserve {
  controlled_assets = 68;
  withdrawal_claims =
      record claim {
        status = signed;
        transaction_id = transaction.transaction_id;
        selected_input = 52;
        in_transit_principal = 40;
        in_flight_change = 10;
        network_fee = 2;
      }
      ∷ [];
  committed_transaction_ids = transaction.transaction_id ∷ [];
}

abbrev mined_reserve : ReserveCoverageState
mined_reserve = record signed_reserve {
  withdrawal_claims =
      record claim {
        status = mined;
        transaction_id = transaction.transaction_id;
        selected_input = 52;
        in_transit_principal = 40;
        in_flight_change = 10;
        network_fee = 2;
      }
      ∷ [];
}

-- What the tests below compute with.
coverage_steps : ReserveCoverageState → Result ReserveCoverage
unfolding matches_class all_in includes is_claim_id is_transaction_id assert_payable_values
    assert_committed_values assert_values assert_claim committed_ids activate tally_claim
    tally_claims coverage_of calculate_reserve_coverage
coverage_steps = calculate_reserve_coverage

abbrev reserve_coverage : ReserveCoverage
reserve_coverage = record {
  controlled_requirement = 100;
  total_requirement = 100;
  withdrawal_payables = 40;
  in_transit_principal = 0;
  unresolved_principal = 0;
  in_flight_change = 0;
  incident_halt_required = false;
  controlled_covered = true;
  total_covered = true;
}

coverage_of_reserve : calculate_reserve_coverage reserve ≡ ok reserve_coverage
unfolding coverage_steps
coverage_of_reserve = refl

calculate_reserve_coverage-agrees_example :
    Verdicts reserve reserve_coverage × Amounts reserve reserve_coverage
calculate_reserve_coverage-agrees_example =
    calculate_reserve_coverage-agrees reserve reserve_coverage coverage_of_reserve

steps : ReserveCoverageState → Operation → Result ReserveCoverageState
unfolding coverage_steps replace_loop replace_claim checked sign_update post_signature
    sign_withdrawal refund_update refund_withdrawal_before_signature broadcast_update
    broadcast_withdrawal mined_update mark_withdrawal_mined confirm_update confirm_withdrawal apply
steps = apply

settles : run reserve settlement ≡ ok settled
unfolding steps run
settles = refl

run-Ledger_example : Ledger reserve settled settlement
run-Ledger_example = run-Ledger reserve settled settlement settles

signs_claim : sign_withdrawal reserve transaction ≡ ok signed_reserve
unfolding steps
signs_claim = refl

sign_withdrawal-Moves_example : Moves reserve signed_reserve 0 0
sign_withdrawal-Moves_example =
    (sign_withdrawal-Moves reserve signed_reserve transaction signs_claim).0

confirms_claim : confirm_withdrawal mined_reserve "w:1" ≡ ok settled
unfolding steps
confirms_claim = refl

confirm_withdrawal-Moves_example :
    (c : WithdrawalClaim) × Confirms mined_reserve settled "w:1" c
    × Moves mined_reserve settled c.payable c.network_fee
confirm_withdrawal-Moves_example =
    confirm_withdrawal-Moves mined_reserve settled "w:1" confirms_claim

abbrev refunded : ReserveCoverageState
refunded = record reserve { token_supply = 90; withdrawal_claims = [] }

refunds_claim : refund_withdrawal_before_signature reserve "w:1" ≡ ok refunded
unfolding steps
refunds_claim = refl

refund_withdrawal_before_signature-Moves_example :
    Moves reserve refunded 0 0 × Refunds reserve refunded "w:1"
refund_withdrawal_before_signature-Moves_example =
    refund_withdrawal_before_signature-Moves reserve refunded "w:1" refunds_claim
