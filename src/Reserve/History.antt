-- ===== src/Reserve/History.antt =====
-- Histories of the operations of src/lib/reserve.ts.
use phlebas.Base.{
  Bool, true, false, ℕ, suc, ◌+◌, ◌≡◌, refl, List, [], ◌∷◌, String, Result, ok, ◌>>=◌, >>=-returned,
  arith, sym, ◌∙◌, ok-injective, subst,
}
use phlebas.Reserve.{
  WithdrawalClaim, ReserveCoverageState, WithdrawalCommitment, VerifiedTransactionObservation,
  VerifiedInputRestoration,
}
use phlebas.Reserve.Operations.{
  sign_withdrawal, refund_withdrawal_before_signature, broadcast_withdrawal, mark_withdrawal_mined,
  mark_withdrawal_unresolved, apply_verified_transaction_observation, confirm_withdrawal,
  apply_verified_input_restoration,
}
use phlebas.Reserve.Accounting.{Moves}
use phlebas.Reserve.Moves.{
  Confirms, broadcast_withdrawal-Moves, mark_withdrawal_mined-Moves,
  mark_withdrawal_unresolved-Moves, apply_verified_transaction_observation-Moves,
  refund_withdrawal_before_signature-Moves, confirm_withdrawal-Moves,
  apply_verified_input_restoration-Moves,
}
use phlebas.Reserve.Signing.{sign_withdrawal-Moves}

pub data Operation : Type 0 where
  signs : WithdrawalCommitment → Operation
  refunds broadcasts mines loses confirms : String → Operation
  observes : VerifiedTransactionObservation → Operation
  restores : VerifiedInputRestoration → Operation

unfoldable pub apply : ReserveCoverageState → Operation → Result ReserveCoverageState
apply s (signs w) = sign_withdrawal s w
apply s (refunds id) = refund_withdrawal_before_signature s id
apply s (broadcasts id) = broadcast_withdrawal s id
apply s (mines id) = mark_withdrawal_mined s id
apply s (loses id) = mark_withdrawal_unresolved s id
apply s (confirms id) = confirm_withdrawal s id
apply s (observes o) = apply_verified_transaction_observation s o
apply s (restores v) = apply_verified_input_restoration s v

unfoldable pub run : ReserveCoverageState → List Operation → Result ReserveCoverageState
unfolding apply
run s [] = ok s
run s (o ∷ os) = apply s o >>= λ t. run t os

-- The number of confirmations in a history.
abbrev pub confirmations : List Operation → ℕ
confirmations [] = 0
confirmations (confirms id ∷ os) = suc (confirmations os)
confirmations (o ∷ os) = confirmations os

abbrev pub is_confirmation : Operation → Bool
is_confirmation (confirms id) = true
is_confirmation _ = false

-- What the confirmations of a history that returns pay out, and their network fees: each adds the
-- amounts of the claim that it takes off the list of the state it is applied to.
pub data Pays : ReserveCoverageState → List Operation → ReserveCoverageState → ℕ → ℕ → Type 0 where
  pays_none : (s : ReserveCoverageState) → Pays s [] s 0 0
  pays_claim :
      (s m t : ReserveCoverageState) (id : String) (os : List Operation) (claim : WithdrawalClaim)
      (paid fees : ℕ)
      → apply s (confirms id) ≡ ok m
      → Confirms s m id claim
      → Pays m os t paid fees
      → Pays s (confirms id ∷ os) t (claim.payable + paid) (claim.network_fee + fees)
  pays_later :
      (s m t : ReserveCoverageState) (o : Operation) (os : List Operation) (paid fees : ℕ)
      → is_confirmation o ≡ false
      → apply s o ≡ ok m
      → Pays m os t paid fees
      → Pays s (o ∷ os) t paid fees

-- A history that returns has moved what its confirmations pay, which is nothing without one.
pub record Ledger (s t : ReserveCoverageState) (os : List Operation) : Type 0 where
  pub paid : ℕ
  pub fees : ℕ
  pub payments : Pays s os t paid fees
  pub moved : Moves s t paid fees
  pub unconfirmed : confirmations os ≡ 0 → (paid ≡ 0) × (fees ≡ 0)

Moves-trans :
    {s t u : ReserveCoverageState} {p q f g : ℕ}
    → Moves s t p f
    → Moves t u q g
    → Moves s u (p + q) (f + g)
Moves-trans h k = record {
  assets = omega (arith, h.assets, k.assets);
  debts = omega (arith, h.debts, k.debts);
  others = omega (arith, h.others, k.others);
}

prefix_free :
    {s t u : ReserveCoverageState} {o : Operation} {os : List Operation}
    → is_confirmation o ≡ false
    → apply s o ≡ ok t
    → Moves s t 0 0
    → confirmations (o ∷ os) ≡ confirmations os
    → Ledger t u os
    → Ledger s u (o ∷ os)
prefix_free {s} {t} {u} {o} {os} c a h e l = record {
  paid = l.paid;
  fees = l.fees;
  payments = pays_later s t u o os l.paid l.fees c a l.payments;
  moved = record {
    assets = omega (arith, h.assets, l.moved.assets);
    debts = omega (arith, h.debts, l.moved.debts);
    others = (Moves-trans h l.moved).others;
  };
  unconfirmed = λ z. l.unconfirmed (sym e ∙ z);
}

apply-Ledger :
    (s t u : ReserveCoverageState) (o : Operation) (os : List Operation)
    → apply s o ≡ ok t
    → Ledger t u os
    → Ledger s u (o ∷ os)
unfolding apply
apply-Ledger s t u (signs w) os e l = prefix_free refl e (sign_withdrawal-Moves s t w e).0 refl l
apply-Ledger s t u (refunds id) os e l =
    prefix_free refl e (refund_withdrawal_before_signature-Moves s t id e).0 refl l
apply-Ledger s t u (broadcasts id) os e l =
    prefix_free refl e (broadcast_withdrawal-Moves s t id e) refl l
apply-Ledger s t u (mines id) os e l =
    prefix_free refl e (mark_withdrawal_mined-Moves s t id e) refl l
apply-Ledger s t u (loses id) os e l =
    prefix_free refl e (mark_withdrawal_unresolved-Moves s t id e) refl l
apply-Ledger s t u (observes o) os e l =
    prefix_free refl e (apply_verified_transaction_observation-Moves s t o e) refl l
apply-Ledger s t u (restores v) os e l =
    prefix_free refl e (apply_verified_input_restoration-Moves s t v e) refl l
apply-Ledger s t u (confirms id) os e l =
    let (c, x, h) = confirm_withdrawal-Moves s t id e in
    record {
      paid = c.payable + l.paid;
      fees = c.network_fee + l.fees;
      payments = pays_claim s t u id os c l.paid l.fees e x l.payments;
      moved = Moves-trans h l.moved;
      unconfirmed = λ z. absurd (omega arith);
    }

-- Over any history of operations that returns, what is owed falls by exactly what its confirmations
-- paid, and the assets (with the inputs under way) by that and their network fees. Each confirmation
-- pays the amount of the claim that it takes off the list, the one of its ID, which was mined, and
-- costs the network fee of that claim; its change returns to the assets. The entitlements, the other
-- liabilities and the buffer do not change; and without a confirmation nothing moves.
pub run-Ledger :
    (s t : ReserveCoverageState) (os : List Operation) → run s os ≡ ok t → Ledger s t os
unfolding run
run-Ledger s t [] e =
    subst (λ q. Ledger s q []) (ok-injective e)
      (record {
        paid = 0;
        fees = 0;
        payments = pays_none s;
        moved = record { assets = omega arith; debts = omega arith; others = (refl, refl, refl) };
        unconfirmed = λ _. (refl, refl);
      })
run-Ledger s t (o ∷ os) e =
    let (m, e1, e2) = >>=-returned (apply s o) _ t e in
    apply-Ledger s m t o os e1 (run-Ledger m t os e2)
