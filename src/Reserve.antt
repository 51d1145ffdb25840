-- ===== src/Reserve.antt =====
-- src/lib/reserve.ts: withdrawals against a reserve. Amounts are naturals, so the guards against a
-- negative one never fire, but for the one difference that can be negative (`sign_withdrawal`).
pub mod Operations
pub mod Replace
pub mod Coverage
pub mod Accounting
pub mod Moves
pub mod Signing
pub mod History
mod Examples
use phlebas.Base.{
  ℕ, ◌+◌, ◌-◌, ◌≡◌, Bool, true, false, not, ◌&&◌, ◌||◌, List, [], ◌∷◌, ◌++◌, Option, none, some,
  String, Result, ok, err, ◌>>=◌, ◌>>◌, throw_if, leb, ltb, ◌==◌, ◌===◌, if◌then◌else◌,
}
use phlebas.Base.Text.{matches_class, is_alphanumeric, is_lower_hex, includes}

pub data WithdrawalClaimStatus : Type 0 where
  payable signed broadcast mined unresolved : WithdrawalClaimStatus

pub record WithdrawalClaim : Type 0 where
  pub claim_id : String
  pub transaction_id : String
  pub payable : ℕ
  pub status : WithdrawalClaimStatus
  pub selected_input : ℕ
  pub in_transit_principal : ℕ
  pub in_flight_change : ℕ
  pub network_fee : ℕ

pub record ReserveCoverageState : Type 0 where
  pub controlled_assets : ℕ
  pub token_supply : ℕ
  pub deposit_entitlements : ℕ
  pub withdrawal_claims : List WithdrawalClaim
  pub committed_transaction_ids : List String
  pub other_liabilities : ℕ
  pub required_buffer : ℕ

pub record ReserveCoverage : Type 0 where
  pub controlled_requirement : ℕ
  pub total_requirement : ℕ
  pub withdrawal_payables : ℕ
  pub in_transit_principal : ℕ
  pub unresolved_principal : ℕ
  pub in_flight_change : ℕ
  pub incident_halt_required : Bool
  pub controlled_covered : Bool
  pub total_covered : Bool

pub record WithdrawalCommitment : Type 0 where
  pub claim_id : String
  pub transaction_id : String
  pub selected_input : ℕ
  pub principal : ℕ
  pub in_flight_change : ℕ
  pub network_fee : ℕ

pub record VerifiedInputRestoration : Type 0 where
  pub claim_id : String
  pub transaction_id : String
  pub selected_input : ℕ
  pub evidence_reference : String
  pub inputs_spendable : Bool
  pub transaction_cannot_confirm : Bool

-- `observedStatus`: its type has these two values, so the test of line 318 never fails.
pub data ObservedStatus : Type 0 where
  saw_broadcast saw_mined : ObservedStatus

pub record VerifiedTransactionObservation : Type 0 where
  pub claim_id : String
  pub transaction_id : String
  pub evidence_reference : String
  pub observed_status : ObservedStatus

abbrev pub is_payable : WithdrawalClaimStatus → Bool
is_payable payable = true
is_payable _ = false

abbrev pub is_signed : WithdrawalClaimStatus → Bool
is_signed signed = true
is_signed _ = false

abbrev pub is_broadcast : WithdrawalClaimStatus → Bool
is_broadcast broadcast = true
is_broadcast _ = false

abbrev pub is_mined : WithdrawalClaimStatus → Bool
is_mined mined = true
is_mined _ = false

abbrev pub is_unresolved : WithdrawalClaimStatus → Bool
is_unresolved unresolved = true
is_unresolved _ = false

-- `/^[A-Za-z0-9:_-]{1,128}$/`.
unfoldable pub is_claim_id : String → Bool
is_claim_id = matches_class (λ c. is_alphanumeric c || c == b':' || c == b'_' || c == b'-') 1 128

-- `/^[0-9a-f]{64}$/`.
unfoldable pub is_transaction_id : String → Bool
is_transaction_id = matches_class is_lower_hex 64 64

-- `/^[A-Za-z0-9:._/-]{1,256}$/`.
unfoldable pub is_evidence_reference : String → Bool
is_evidence_reference =
    matches_class
      (λ c. is_alphanumeric c || c == b':' || c == b'.' || c == b'_' || c == b'/' || c == b'-') 1
      256

-- Lines 92 to 102.
unfoldable pub assert_payable_values : WithdrawalClaim → Result (Unit {0})
assert_payable_values claim =
    throw_if
      (not (claim.selected_input == 0)
        || not (claim.in_transit_principal == 0)
        || not (claim.in_flight_change == 0)
        || not (claim.network_fee == 0))
      "a payable claim cannot contain committed transaction values"

-- Lines 104 to 112.
unfoldable pub assert_committed_values : WithdrawalClaim → Result (Unit {0})
assert_committed_values claim = do
  throw_if (is_unresolved claim.status && not (claim.in_transit_principal == 0))
      "an unresolved claim cannot count principal in transit"
  throw_if (not (is_unresolved claim.status) && not (claim.in_transit_principal == claim.payable))
      "committed principal must exactly match its withdrawal payable"
  throw_if
      (not (claim.selected_input == claim.payable + claim.in_flight_change + claim.network_fee))
      "selected input must equal principal plus change plus network fee"

-- The test of line 92.
unfoldable pub assert_values : WithdrawalClaim → Bool → Result (Unit {0})
assert_values claim true = assert_payable_values claim
assert_values claim false = assert_committed_values claim

unfoldable pub assert_claim : WithdrawalClaim → Result (Unit {0})
assert_claim claim = do
  throw_if (not (is_claim_id claim.claim_id)) "claimId must be a bounded ASCII identifier"
  throw_if (is_payable claim.status && not (claim.transaction_id === ""))
      "a payable claim cannot contain a transaction ID"
  throw_if (not (is_payable claim.status) && not (is_transaction_id claim.transaction_id))
      "a committed claim requires one canonical transaction ID"
  throw_if (claim.payable == 0) "withdrawal payable must be positive"
  assert_values claim (is_payable claim.status)

-- The variables of the loop in `replaceClaim`, and the one that a caller's callback assigns.
pub record Replacing : Type 0 where
  pub claims : List WithdrawalClaim
  pub matches : ℕ
  pub captured : ℕ

-- A callback: it throws, drops the claim or replaces it, and may assign the captured variable.
abbrev pub Update : Type 0
Update = WithdrawalClaim → ℕ → Result (Option WithdrawalClaim × ℕ)

abbrev pub push_next : Option WithdrawalClaim → List WithdrawalClaim → List WithdrawalClaim
push_next none claims = claims
push_next (some claim) claims = claim ∷ claims

-- The loop over the claims; what is pushed first stands first.
unfoldable pub replace_loop : String → Update → ℕ → List WithdrawalClaim → Result Replacing
replace_loop claim_id update captured [] =
    ok (record { claims = []; matches = 0; captured = captured })
replace_loop claim_id update captured (claim ∷ claims) = elim (claim.claim_id === claim_id) [
  | false ↦ replace_loop claim_id update captured claims >>= λ r.
      ok (record r { claims = claim ∷ r.claims })
  | true ↦ update claim captured >>= λ u. replace_loop claim_id update u.1 claims >>= λ r.
      ok (record r { claims = push_next u.0 r.claims; matches = r.matches + 1 })
]

-- The new state, and the captured variable.
unfoldable pub replace_claim :
    ReserveCoverageState → String → Update → Result (ReserveCoverageState × ℕ)
replace_claim state claim_id update =
    replace_loop claim_id update 0 state.withdrawal_claims >>= λ r.
    if r.matches == 1
    then ok (record state { withdrawal_claims = r.claims }, r.captured)
    else err "withdrawal claim must exist exactly once"

-- Lines 147 to 156: the set of committed transaction IDs, newest first.
unfoldable pub committed_ids : List String → List String → Result (List String)
committed_ids seen [] = ok seen
committed_ids seen (id ∷ ids) =
    throw_if (not (is_transaction_id id)) "transaction history requires canonical transaction IDs"
    >> throw_if (includes seen id) "duplicate committed transaction ID"
    >> committed_ids (id ∷ seen) ids

-- The variables of the loop over the claims (lines 146 and 157 to 162).
pub record Tally : Type 0 where
  pub seen_claim_ids : List String
  pub active_transaction_ids : List String
  pub withdrawal_payables : ℕ
  pub in_transit_principal : ℕ
  pub unresolved_principal : ℕ
  pub in_flight_change : ℕ
  pub incident_halt_required : Bool

-- Lines 170 to 178: the active transaction IDs with the claim's.
unfoldable pub activate : List String → List String → WithdrawalClaim → Result (List String)
activate committed active claim =
    if claim.transaction_id === ""
    then ok active
    else throw_if (not (includes committed claim.transaction_id))
        "active transaction ID is absent from committed transaction history"
      >> throw_if (includes active claim.transaction_id) "duplicate committed transaction ID"
      >> ok (claim.transaction_id ∷ active)

-- One round of the loop (lines 165 to 183).
unfoldable pub tally_claim : List String → Tally → WithdrawalClaim → Result Tally
tally_claim committed t claim =
    assert_claim claim
    >> throw_if (includes t.seen_claim_ids claim.claim_id) "duplicate withdrawal claim"
    >> activate committed t.active_transaction_ids claim
    >>= λ active. ok (record {
      seen_claim_ids = claim.claim_id ∷ t.seen_claim_ids;
      active_transaction_ids = active;
      withdrawal_payables = t.withdrawal_payables + claim.payable;
      in_transit_principal = t.in_transit_principal + claim.in_transit_principal;
      unresolved_principal =
          if is_unresolved claim.status
          then t.unresolved_principal + claim.payable
          else t.unresolved_principal;
      in_flight_change = t.in_flight_change + claim.in_flight_change;
      incident_halt_required = t.incident_halt_required || is_unresolved claim.status;
    })

unfoldable pub tally_claims : List String → Tally → List WithdrawalClaim → Result Tally
tally_claims committed t [] = ok t
tally_claims committed t (claim ∷ claims) =
    tally_claim committed t claim >>= λ t'. tally_claims committed t' claims

abbrev pub no_claims : Tally
no_claims = record {
  seen_claim_ids = [];
  active_transaction_ids = [];
  withdrawal_payables = 0;
  in_transit_principal = 0;
  unresolved_principal = 0;
  in_flight_change = 0;
  incident_halt_required = false;
}

abbrev pub controlled_requirement_of : ReserveCoverageState → Tally → ℕ
controlled_requirement_of state t =
    state.token_supply
    + state.deposit_entitlements
    + (t.withdrawal_payables - t.in_transit_principal)
    + state.other_liabilities
    + state.required_buffer

abbrev pub total_requirement_of : ReserveCoverageState → Tally → ℕ
total_requirement_of state t =
    state.token_supply + state.deposit_entitlements + t.withdrawal_payables
    + state.other_liabilities + state.required_buffer

-- Lines 186 to 209. No claim has more principal in transit than it is to pay, so that the
-- difference of the two totals is exact.
unfoldable pub coverage_of : ReserveCoverageState → Tally → ReserveCoverage
coverage_of state t = record {
  controlled_requirement = controlled_requirement_of state t;
  total_requirement = total_requirement_of state t;
  withdrawal_payables = t.withdrawal_payables;
  in_transit_principal = t.in_transit_principal;
  unresolved_principal = t.unresolved_principal;
  in_flight_change = t.in_flight_change;
  incident_halt_required = t.incident_halt_required;
  controlled_covered = leb (controlled_requirement_of state t) state.controlled_assets;
  total_covered =
      leb (total_requirement_of state t) (state.controlled_assets + t.in_transit_principal);
}

unfoldable pub calculate_reserve_coverage : ReserveCoverageState → Result ReserveCoverage
calculate_reserve_coverage state = committed_ids [] state.committed_transaction_ids >>= λ committed.
    tally_claims committed no_claims state.withdrawal_claims >>= λ t. ok (coverage_of state t)
