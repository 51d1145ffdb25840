-- ===== src/Reserve/Accounting.antt =====
-- The books of src/lib/reserve.ts: every operation accounts for the assets and for what is owed.
use phlebas.Base.{
  ℕ, ◌+◌, ◌≡◌, List, [], Option, String, Result, ok, ◌>>=◌, ◌>>◌, >>=-returned, >>-returned,
  ok-injective, sym, ap, ◌∙◌, arith, All, sum_of,
}
use phlebas.Reserve.{
  WithdrawalClaim, ReserveCoverageState, ReserveCoverage, Update, push_next, replace_claim,
  calculate_reserve_coverage,
}
use phlebas.Reserve.Operations.{checked}
use phlebas.Reserve.Replace.{IsClaim, Replaced, replace_claim-Replaced}
use phlebas.Reserve.Coverage.{calculate_reserve_coverage-Tallied}

-- The assets of the reserve, with the inputs of transactions that are under way.
abbrev pub custody : ReserveCoverageState → ℕ
custody s = s.controlled_assets + sum_of (λ c. c.selected_input) s.withdrawal_claims

-- What the reserve owes to the holders of its token and to those who withdraw.
abbrev pub owed : ReserveCoverageState → ℕ
owed s = s.token_supply + sum_of (λ c. c.payable) s.withdrawal_claims

-- `paid` left the reserve for withdrawals, and `fees` for the network.
pub record Moves (s t : ReserveCoverageState) (paid fees : ℕ) : Type 0 where
  pub assets : custody s ≡ custody t + paid + fees
  pub debts : owed s ≡ owed t + paid
  pub others :
      (t.deposit_entitlements ≡ s.deposit_entitlements)
      × (t.other_liabilities ≡ s.other_liabilities)
      × (t.required_buffer ≡ s.required_buffer)

-- The claims of a state whose coverage is calculated are sound.
pub covered_sound :
    (s : ReserveCoverageState) (coverage : ReserveCoverage)
    → calculate_reserve_coverage s ≡ ok coverage
    → All IsClaim s.withdrawal_claims
covered_sound s coverage e = (calculate_reserve_coverage-Tallied s coverage e).1.sound

checked-returned : (s t : ReserveCoverageState) → checked s ≡ ok t → t ≡ s
unfolding checked
checked-returned s t e =
    let (_, _, e1) = >>=-returned (calculate_reserve_coverage s) _ t e in sym (ok-injective e1)

-- What a callback does to the amounts of its claim: `a` goes to the assets and `b` to the supply,
-- `d` is taken from the assets.
pub record Effect (claim : WithdrawalClaim) (next : Option WithdrawalClaim) (a b d paid fees : ℕ)
    : Type 0 where
  pub inputs :
      claim.selected_input + d
      ≡ a + sum_of (λ c. c.selected_input) (push_next next []) + paid + fees
  pub payables : claim.payable ≡ b + sum_of (λ c. c.payable) (push_next next []) + paid

-- The part that all operations share: one claim is replaced.
pub Replaced-Moves :
    (s t : ReserveCoverageState) (update : Update) (id : String) (k a b d paid fees : ℕ)
    (h : Replaced update id 0 k s.withdrawal_claims t.withdrawal_claims)
    → Effect h.claim h.next a b d paid fees
    → s.controlled_assets + a ≡ t.controlled_assets + d
    → t.token_supply ≡ s.token_supply + b
    → t.deposit_entitlements ≡ s.deposit_entitlements
    → t.other_liabilities ≡ s.other_liabilities
    → t.required_buffer ≡ s.required_buffer
    → Moves s t paid fees
Replaced-Moves s t update id k a b d paid fees h f assets supply x y z = record {
  assets = omega (arith, h.sums (λ c. c.selected_input), f.inputs);
  debts = omega (arith, h.sums (λ c. c.payable), f.payables);
  others = (x, y, z);
}

-- The parts of an operation that returned.
pub record Done (s t : ReserveCoverageState) (id : String) (update : Update)
    (finish : ReserveCoverageState × ℕ → ReserveCoverageState) : Type 0 where
  pub claims : List WithdrawalClaim
  pub captured : ℕ
  pub replaced : Replaced update id 0 captured s.withdrawal_claims claims
  pub sound : IsClaim replaced.claim
  pub outcome : t ≡ finish (record s { withdrawal_claims = claims }, captured)

pub operation-Done :
    (s t : ReserveCoverageState) (id : String) (update : Update) (guards : Result (Unit {0}))
    (finish : ReserveCoverageState × ℕ → ReserveCoverageState)
    → (calculate_reserve_coverage s >>= λ _.
        guards >> replace_claim s id update >>= λ next. checked (finish next))
      ≡ ok t
    → Done s t id update finish
operation-Done s t id update guards finish e =
    let (coverage, e1, e2) = >>=-returned (calculate_reserve_coverage s) _ t e in
    let (next, e3, e4) = >>=-returned (guards >> replace_claim s id update) _ t e2 in
    let (_, e5) = >>-returned guards (replace_claim s id update) next e3 in
    let (same, h) = replace_claim-Replaced s id update next e5 in
    record {
      claims = (next.0).withdrawal_claims;
      captured = next.1;
      replaced = h;
      sound = h.checked (covered_sound s coverage e1);
      outcome =
          checked-returned (finish next) t e4
          ∙ ap (λ (q : ReserveCoverageState). finish (q, next.1)) same;
    }
