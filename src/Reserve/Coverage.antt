-- ===== src/Reserve/Coverage.antt =====
-- `assertClaim` and `calculateReserveCoverage` of src/lib/reserve.ts: what a state that passes them
-- is like.
use phlebas.Base.{
  ℕ, ◌+◌, ◌≤◌, ◌≡◌, refl, ◌↔◌, Bool, ◌||◌, ◌∙◌, ap, if◌then◌else◌, true, false, List, [], ◌∷◌,
  String, ok, >>=-returned, ok-injective, sym, arith, All, sum_of, subst,
}
use phlebas.Reserve.{
  WithdrawalClaim, ReserveCoverageState, ReserveCoverage, Tally, is_payable, is_unresolved,
  no_claims, assert_values, assert_payable_values, assert_committed_values, assert_claim,
  tally_claim, tally_claims, committed_ids, coverage_of, calculate_reserve_coverage,
}
use phlebas.Reserve.Replace.{IsClaim}

-- What `assertClaim` guarantees of the amounts.
pub record Balanced (claim : WithdrawalClaim) : Type 0 where
  pub transit : claim.in_transit_principal ≤ claim.payable
  pub idle : is_payable claim.status ≡ true → claim.selected_input ≡ 0
  pub spent :
      is_payable claim.status ≡ false
      → claim.selected_input ≡ claim.payable + claim.in_flight_change + claim.network_fee

pub IsClaim-Balanced : (claim : WithdrawalClaim) → IsClaim claim → Balanced claim
unfolding assert_claim assert_values assert_payable_values assert_committed_values
IsClaim-Balanced claim h = ground arith

-- What a claim adds to the principal whose fate is open.
abbrev pub unresolved_payable : WithdrawalClaim → ℕ
unresolved_payable claim = if is_unresolved claim.status then claim.payable else 0

-- The status of some claim is `unresolved`.
abbrev pub some_unresolved : List WithdrawalClaim → Bool
some_unresolved [] = false
some_unresolved (claim ∷ claims) = is_unresolved claim.status || some_unresolved claims

pub record Tallied (claims : List WithdrawalClaim) (t t' : Tally) : Type 0 where
  pub sound : All IsClaim claims
  pub payables : t'.withdrawal_payables ≡ t.withdrawal_payables + sum_of (λ c. c.payable) claims
  pub transit :
      t'.in_transit_principal ≡ t.in_transit_principal + sum_of (λ c. c.in_transit_principal) claims
  pub unresolved :
      t'.unresolved_principal ≡ t.unresolved_principal + sum_of unresolved_payable claims
  pub change : t'.in_flight_change ≡ t.in_flight_change + sum_of (λ c. c.in_flight_change) claims
  pub halt : t'.incident_halt_required ≡ (t.incident_halt_required || some_unresolved claims)

tally_claim-adds :
    (committed : List String) (t : Tally) (c : WithdrawalClaim) (m : Tally)
    → tally_claim committed t c ≡ ok m
    → IsClaim c
      × (m.withdrawal_payables ≡ t.withdrawal_payables + c.payable)
      × (m.in_transit_principal ≡ t.in_transit_principal + c.in_transit_principal)
      × (m.unresolved_principal ≡ t.unresolved_principal + unresolved_payable c)
      × (m.in_flight_change ≡ t.in_flight_change + c.in_flight_change)
      × (m.incident_halt_required ≡ (t.incident_halt_required || is_unresolved c.status))
unfolding tally_claim
tally_claim-adds committed t c m e = ground arith

or_false : (b : Bool) → b ≡ (b || false)
or_false true = refl
or_false false = refl

or_assoc : (a b c : Bool) → ((a || b) || c) ≡ (a || (b || c))
or_assoc true b c = refl
or_assoc false b c = refl

tally_claims-Tallied :
    (committed : List String) (t : Tally) (claims : List WithdrawalClaim) (t' : Tally)
    → tally_claims committed t claims ≡ ok t'
    → Tallied claims t t'
unfolding tally_claims
tally_claims-Tallied committed t [] t' e = subst (Tallied [] t) (ok-injective e) (record {
  sound = tt;
  payables = omega arith;
  transit = omega arith;
  unresolved = omega arith;
  change = omega arith;
  halt = or_false t.incident_halt_required;
})
tally_claims-Tallied committed t (c ∷ cs) t' e =
    let (m, e1, e2) = >>=-returned (tally_claim committed t c) _ t' e in
    let (a, p, q, u, f, i) = tally_claim-adds committed t c m e1 in
    let h = tally_claims-Tallied committed m cs t' e2 in
    record {
      sound = (a, h.sound);
      payables = omega (arith, h.payables, p);
      transit = omega (arith, h.transit, q);
      unresolved = omega (arith, h.unresolved, u);
      change = omega (arith, h.change, f);
      halt =
          h.halt
          ∙ ap (λ b. b || some_unresolved cs) i
          ∙ or_assoc t.incident_halt_required (is_unresolved c.status) (some_unresolved cs);
    }

-- The tally behind a coverage that was calculated.
pub calculate_reserve_coverage-Tallied :
    (state : ReserveCoverageState) (coverage : ReserveCoverage)
    → calculate_reserve_coverage state ≡ ok coverage
    → (t : Tally) × Tallied state.withdrawal_claims no_claims t × (coverage ≡ coverage_of state t)
unfolding calculate_reserve_coverage
calculate_reserve_coverage-Tallied state coverage e =
    let (ids, _, e1) =
      >>=-returned (committed_ids [] state.committed_transaction_ids) _ coverage e in
    let (t, e2, e3) =
      >>=-returned (tally_claims ids no_claims state.withdrawal_claims) _ coverage e1 in
    (t, tally_claims-Tallied ids no_claims state.withdrawal_claims t e2, sym (ok-injective e3))

transit_le :
    (claims : List WithdrawalClaim)
    → All IsClaim claims
    → sum_of (λ c. c.in_transit_principal) claims ≤ sum_of (λ c. c.payable) claims
transit_le [] h = omega arith
transit_le (c ∷ cs) h = omega (arith, (IsClaim-Balanced c h.0).transit, transit_le cs h.1)

-- What is owed to holders, depositors and others, with the buffer, but for the withdrawals.
abbrev pub obligations : ReserveCoverageState → ℕ
obligations s = s.token_supply + s.deposit_entitlements + s.other_liabilities + s.required_buffer

-- The verdicts of a coverage, by the amounts of the state that it is of.
pub record Verdicts (state : ReserveCoverageState) (coverage : ReserveCoverage) : Type 0 where
  pub controlled : (coverage.controlled_covered ≡ true) ↔ (
      obligations state + sum_of (λ c. c.payable) state.withdrawal_claims
      ≤ state.controlled_assets + sum_of (λ c. c.in_transit_principal) state.withdrawal_claims)
  pub agree : coverage.controlled_covered ≡ coverage.total_covered
  pub halt : coverage.incident_halt_required ≡ some_unresolved state.withdrawal_claims

-- The amounts that a coverage reports, as totals over the claims.
pub record Amounts (state : ReserveCoverageState) (coverage : ReserveCoverage) : Type 0 where
  pub payables : coverage.withdrawal_payables ≡ sum_of (λ c. c.payable) state.withdrawal_claims
  pub transit :
      coverage.in_transit_principal ≡ sum_of (λ c. c.in_transit_principal) state.withdrawal_claims
  pub unresolved : coverage.unresolved_principal ≡ sum_of unresolved_payable state.withdrawal_claims
  pub change : coverage.in_flight_change ≡ sum_of (λ c. c.in_flight_change) state.withdrawal_claims
  pub total :
      coverage.total_requirement
      ≡ obligations state + sum_of (λ c. c.payable) state.withdrawal_claims
  pub requirements :
      coverage.controlled_requirement + coverage.in_transit_principal ≡ coverage.total_requirement

-- Wherever the coverage of a reserve is calculated, both of its verdicts say the same: the assets
-- controlled and the principal in transit are at least what is owed, to withdrawers too, with the
-- buffer. The halt is required exactly if some claim is unresolved. The amounts reported are the
-- totals over the claims, and the two requirements differ by the principal in transit.
pub calculate_reserve_coverage-agrees :
    (state : ReserveCoverageState) (coverage : ReserveCoverage)
    → calculate_reserve_coverage state ≡ ok coverage
    → Verdicts state coverage × Amounts state coverage
unfolding coverage_of
calculate_reserve_coverage-agrees state coverage e =
    let (t, h, c) = calculate_reserve_coverage-Tallied state coverage e in
    let below = transit_le state.withdrawal_claims h.sound in
    subst (λ q. Verdicts state q × Amounts state q) (sym c)
      (
        record {
          controlled = ground (arith, below, h.payables, h.transit);
          agree = ground (arith, below, h.payables, h.transit);
          halt = h.halt;
        },
        record {
          payables = omega (arith, h.payables);
          transit = omega (arith, h.transit);
          unresolved = omega (arith, h.unresolved);
          change = omega (arith, h.change);
          total = omega (arith, h.payables);
          requirements = omega (arith, below, h.payables, h.transit);
        },
      )
