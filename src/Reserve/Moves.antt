-- ===== src/Reserve/Moves.antt =====
-- What each operation of src/lib/reserve.ts moves.
use phlebas.Base.{
  ℕ, ◌+◌, ◌≡◌, refl, true, not, ◌||◌, Option, none, String, Result, ok, ◌>>=◌, ◌>>◌, sym, ap, subst,
  arith, throw_if,
}
use phlebas.Reserve.{
  WithdrawalClaim, ReserveCoverageState, Update, is_payable, replace_claim,
  calculate_reserve_coverage, VerifiedTransactionObservation, VerifiedInputRestoration, is_mined,
  is_evidence_reference,
}
use phlebas.Reserve.Operations.{
  checked, refund_update, refund_withdrawal_before_signature, broadcast_update,
  broadcast_withdrawal, mined_update, mark_withdrawal_mined, unresolved_update,
  mark_withdrawal_unresolved, observation_update, apply_verified_transaction_observation,
  confirm_update, confirm_withdrawal, restoration_update, apply_verified_input_restoration,
}
use phlebas.Reserve.Replace.{IsClaim, Taken, Replaced-Taken}
use phlebas.Reserve.Coverage.{IsClaim-Balanced}
use phlebas.Reserve.Accounting.{Moves, Effect, Replaced-Moves, operation-Done}

-- The three operations that only change the status of a claim.
unchanged-Moves :
    (s t : ReserveCoverageState) (id : String) (update : Update) (guards : Result (Unit {0}))
    → ((c : WithdrawalClaim) (n : Option WithdrawalClaim) (k : ℕ)
        → update c 0 ≡ ok (n, k)
        → Effect c n 0 0 0 0 0)
    → (calculate_reserve_coverage s >>= λ _.
        guards >> replace_claim s id update >>= λ next. checked (next.0))
      ≡ ok t
    → Moves s t 0 0
unchanged-Moves s t id update guards effect e =
    let d = operation-Done s t id update guards (λ q. q.0) e in
    subst (λ q. Moves s q 0 0) (sym d.outcome)
      (Replaced-Moves s (record s { withdrawal_claims = d.claims }) update id d.captured 0 0 0 0 0
        d.replaced (effect d.replaced.claim d.replaced.next d.captured d.replaced.applied)
        (omega arith) (omega arith) refl refl refl)

broadcast_update-Effect :
    (c : WithdrawalClaim) (n : Option WithdrawalClaim) (k : ℕ)
    → broadcast_update c 0 ≡ ok (n, k)
    → Effect c n 0 0 0 0 0
unfolding broadcast_update
broadcast_update-Effect c n k e = ground arith

pub broadcast_withdrawal-Moves :
    (s t : ReserveCoverageState) (id : String) → broadcast_withdrawal s id ≡ ok t → Moves s t 0 0
unfolding broadcast_withdrawal
broadcast_withdrawal-Moves s t id e =
    unchanged-Moves s t id broadcast_update (ok tt) broadcast_update-Effect e

mined_update-Effect :
    (c : WithdrawalClaim) (n : Option WithdrawalClaim) (k : ℕ)
    → mined_update c 0 ≡ ok (n, k)
    → Effect c n 0 0 0 0 0
unfolding mined_update
mined_update-Effect c n k e = ground arith

pub mark_withdrawal_mined-Moves :
    (s t : ReserveCoverageState) (id : String) → mark_withdrawal_mined s id ≡ ok t → Moves s t 0 0
unfolding mark_withdrawal_mined
mark_withdrawal_mined-Moves s t id e =
    unchanged-Moves s t id mined_update (ok tt) mined_update-Effect e

unresolved_update-Effect :
    (c : WithdrawalClaim) (n : Option WithdrawalClaim) (k : ℕ)
    → unresolved_update c 0 ≡ ok (n, k)
    → Effect c n 0 0 0 0 0
unfolding unresolved_update
unresolved_update-Effect c n k e = ground arith

pub mark_withdrawal_unresolved-Moves :
    (s t : ReserveCoverageState) (id : String)
    → mark_withdrawal_unresolved s id ≡ ok t
    → Moves s t 0 0
unfolding mark_withdrawal_unresolved
mark_withdrawal_unresolved-Moves s t id e =
    unchanged-Moves s t id unresolved_update (ok tt) unresolved_update-Effect e

observation_update-Effect :
    (o : VerifiedTransactionObservation) (c : WithdrawalClaim) (n : Option WithdrawalClaim) (k : ℕ)
    → observation_update o c 0 ≡ ok (n, k)
    → Effect c n 0 0 0 0 0
unfolding observation_update
observation_update-Effect o c n k e = ground arith

pub apply_verified_transaction_observation-Moves :
    (s t : ReserveCoverageState) (o : VerifiedTransactionObservation)
    → apply_verified_transaction_observation s o ≡ ok t
    → Moves s t 0 0
unfolding apply_verified_transaction_observation
apply_verified_transaction_observation-Moves s t o e =
    unchanged-Moves s t o.claim_id (observation_update o)
      (throw_if (not (is_evidence_reference o.evidence_reference))
        "verified transaction observation requires a bounded evidence reference")
      (observation_update-Effect o) e

refund_update-Effect :
    (c : WithdrawalClaim) (n : Option WithdrawalClaim) (k : ℕ)
    → IsClaim c
    → refund_update c 0 ≡ ok (n, k)
    → Effect c n 0 k 0 0 0 × (is_payable c.status ≡ true) × (k ≡ c.payable) × (n ≡ none)
unfolding refund_update
refund_update-Effect c n k h e = ground (arith, IsClaim-Balanced c h)

-- What a refund does: the claim had not been signed for, and its amount goes back into the supply.
pub record Refunds (s t : ReserveCoverageState) (id : String) : Type 0 where
  pub claim : WithdrawalClaim
  pub taken : Taken id claim s.withdrawal_claims t.withdrawal_claims
  pub unsigned : is_payable claim.status ≡ true
  pub supply : t.token_supply ≡ s.token_supply + claim.payable
  pub assets : t.controlled_assets ≡ s.controlled_assets
  pub history : t.committed_transaction_ids ≡ s.committed_transaction_ids

-- A refund takes off the list one claim of the state, the only one that the ID names, which had not
-- been signed for, and puts its amount back into the supply: a claim with a signed transaction is
-- never refunded. The assets, the committed transaction IDs, the other claims and what is owed in
-- all stay the same.
pub refund_withdrawal_before_signature-Moves :
    (s t : ReserveCoverageState) (id : String)
    → refund_withdrawal_before_signature s id ≡ ok t
    → Moves s t 0 0 × Refunds s t id
unfolding refund_withdrawal_before_signature
refund_withdrawal_before_signature-Moves s t id e =
    let d =
      operation-Done s t id refund_update (ok tt)
        (λ q. record (q.0) { token_supply = (q.0).token_supply + q.1 }) e in
    let c = d.replaced.claim in
    let (f, p, k, gone) =
      refund_update-Effect c d.replaced.next d.captured d.sound d.replaced.applied in
    subst (λ q. Moves s q 0 0 × Refunds s q id) (sym d.outcome)
      (
        Replaced-Moves s _ refund_update id d.captured 0 d.captured 0 0 0 d.replaced f (omega arith)
            refl refl refl refl,
        record {
          claim = c;
          taken = Replaced-Taken d.replaced gone;
          unsigned = p;
          supply = ap (λ n. s.token_supply + n) k;
          assets = refl;
          history = refl;
        },
      )

confirm_update-Effect :
    (c : WithdrawalClaim) (n : Option WithdrawalClaim) (k : ℕ)
    → IsClaim c
    → confirm_update c 0 ≡ ok (n, k)
    → Effect c n k 0 0 c.payable c.network_fee
      × (is_mined c.status ≡ true)
      × (k ≡ c.in_flight_change)
      × (n ≡ none)
unfolding confirm_update
confirm_update-Effect c n k h e = ground (arith, IsClaim-Balanced c h)

-- What confirming a claim does: it was mined, and its change goes back into the assets.
pub record Confirms (s t : ReserveCoverageState) (id : String) (claim : WithdrawalClaim)
    : Type 0 where
  pub taken : Taken id claim s.withdrawal_claims t.withdrawal_claims
  pub was_mined : is_mined claim.status ≡ true
  pub assets : t.controlled_assets ≡ s.controlled_assets + claim.in_flight_change
  pub supply : t.token_supply ≡ s.token_supply
  pub history : t.committed_transaction_ids ≡ s.committed_transaction_ids

-- Confirming a withdrawal takes off the list one claim of the state, the only one that the ID names,
-- which was mined, and returns its change to the controlled assets. The amount of that claim leaves
-- what is owed, and that amount and its network fee leave the assets together with the inputs under
-- way; the supply, the committed transaction IDs and the other claims stay the same.
pub confirm_withdrawal-Moves :
    (s t : ReserveCoverageState) (id : String)
    → confirm_withdrawal s id ≡ ok t
    → (c : WithdrawalClaim) × Confirms s t id c × Moves s t c.payable c.network_fee
unfolding confirm_withdrawal
confirm_withdrawal-Moves s t id e =
    let d =
      operation-Done s t id confirm_update (ok tt)
        (λ q. record (q.0) { controlled_assets = (q.0).controlled_assets + q.1 }) e in
    let c = d.replaced.claim in
    let (f, p, k, gone) =
      confirm_update-Effect c d.replaced.next d.captured d.sound d.replaced.applied in
    let both =
      subst (λ q. Confirms s q id c × Moves s q c.payable c.network_fee) (sym d.outcome)
        (
          record {
            taken = Replaced-Taken d.replaced gone;
            was_mined = p;
            assets = ap (λ n. s.controlled_assets + n) k;
            supply = refl;
            history = refl;
          },
          Replaced-Moves s _ confirm_update id d.captured d.captured 0 0 c.payable c.network_fee
              d.replaced f (omega arith) (omega arith) refl refl refl,
        ) in
    (c, both.0, both.1)

restoration_update-Effect :
    (v : VerifiedInputRestoration) (c : WithdrawalClaim) (n : Option WithdrawalClaim) (k : ℕ)
    → restoration_update v c 0 ≡ ok (n, k)
    → Effect c n k 0 0 0 0
unfolding restoration_update
restoration_update-Effect v c n k e = ground arith

pub apply_verified_input_restoration-Moves :
    (s t : ReserveCoverageState) (v : VerifiedInputRestoration)
    → apply_verified_input_restoration s v ≡ ok t
    → Moves s t 0 0
unfolding apply_verified_input_restoration
apply_verified_input_restoration-Moves s t v e =
    let d =
      operation-Done s t v.claim_id (restoration_update v)
        (throw_if (not (is_evidence_reference v.evidence_reference))
            "verified restoration requires a bounded evidence reference"
          >> throw_if (not v.inputs_spendable || not v.transaction_cannot_confirm)
              "verified restoration requires both external recovery conclusions")
        (λ q. record (q.0) { controlled_assets = (q.0).controlled_assets + q.1 }) e in
    subst (λ q. Moves s q 0 0) (sym d.outcome)
      (Replaced-Moves s _ (restoration_update v) v.claim_id d.captured d.captured 0 0 0 0 d.replaced
        (restoration_update-Effect v d.replaced.claim d.replaced.next d.captured d.replaced.applied)
        (omega arith) (omega arith) refl refl refl)
