-- ===== src/Reserve/Signing.antt =====
-- `signWithdrawal` of src/lib/reserve.ts.
use phlebas.Base.{
  ℕ, ◌+◌, ◌-◌, ◌≤◌, ◌≡◌, refl, Bool, true, false, not, ◌||◌, [], ◌∷◌, ◌++◌, Option, String, Result,
  ok, err, Bool-cases, inl, inr, ◌>>◌, >>=-returned, >>-returned, throw_if-returned, ok-injective,
  sym, ap, subst, ◌∙◌, arith, throw_if, ltb,
}
use phlebas.Base.Text.{includes}
use phlebas.Reserve.{
  WithdrawalClaim, ReserveCoverageState, ReserveCoverage, replace_claim, calculate_reserve_coverage,
  WithdrawalCommitment,
}
use phlebas.Reserve.Operations.{sign_update, post_signature, sign_withdrawal}
use phlebas.Reserve.Replace.{IsClaim, replace_claim-Replaced}
use phlebas.Reserve.Coverage.{IsClaim-Balanced}
use phlebas.Reserve.Accounting.{Moves, Effect, Replaced-Moves, covered_sound}

two_guards :
    {A : Type 0} (a b : Bool) (x y : String) (m : Result A) {n : A}
    → (throw_if a x >> throw_if b y >> m) ≡ ok n
    → (a ≡ false) × (b ≡ false) × (m ≡ ok n)
two_guards true b x y m e = cc
two_guards false true x y m e = cc
two_guards false false x y m e = (refl, refl, e)

sign_update-Effect :
    (w : WithdrawalCommitment) (c : WithdrawalClaim) (n : Option WithdrawalClaim) (k : ℕ)
    → IsClaim c
    → sign_update w c 0 ≡ ok (n, k)
    → Effect c n 0 0 w.selected_input 0 0
unfolding sign_update
sign_update-Effect w c n k h e = ground (arith, IsClaim-Balanced c h)

abbrev signed_state : WithdrawalCommitment → ReserveCoverageState → ReserveCoverageState
signed_state w s = record s {
  controlled_assets = s.controlled_assets - w.selected_input;
  committed_transaction_ids = s.committed_transaction_ids ++ w.transaction_id ∷ [];
}

-- The reserve covers what it owes, by both of its measures.
pub record IsCovered (s : ReserveCoverageState) : Type 0 where
  pub coverage : ReserveCoverage
  pub calculated : calculate_reserve_coverage s ≡ ok coverage
  pub controlled : coverage.controlled_covered ≡ true
  pub total : coverage.total_covered ≡ true

-- The reserve has no claim whose fate is open.
pub record IsCalm (s : ReserveCoverageState) : Type 0 where
  pub coverage : ReserveCoverage
  pub calculated : calculate_reserve_coverage s ≡ ok coverage
  pub calm : coverage.incident_halt_required ≡ false

both_covered : (a b : Bool) → (not a || not b) ≡ false → (a ≡ true) × (b ≡ true)
both_covered a b h = ground arith

post_signature-returned :
    (w : WithdrawalCommitment) (s t : ReserveCoverageState)
    → post_signature w s ≡ ok t
    → (t ≡ signed_state w s) × (w.selected_input ≤ s.controlled_assets) × IsCovered t
unfolding post_signature
post_signature-returned w s t e =
    let short = ltb s.controlled_assets w.selected_input in
    let (cov, e1, e2) =
      >>=-returned
        (throw_if short "controlledAssets cannot be negative"
          >> calculate_reserve_coverage (signed_state w s))
        _ t e in
    let (g, e3) =
      >>-returned (throw_if short "controlledAssets cannot be negative")
        (calculate_reserve_coverage (signed_state w s)) cov e1 in
    let enough : w.selected_input ≤ s.controlled_assets =
      ground (arith, throw_if-returned short "controlledAssets cannot be negative" g) in
    elim (Bool-cases (not cov.controlled_covered || not cov.total_covered)) [
      | inl bad ↦ absurd (refused (rw bad at e2))
      | inr good ↦
          let same : t ≡ signed_state w s = sym (ok-injective (rw good at e2)) in
          let (x, y) = both_covered cov.controlled_covered cov.total_covered good in
          (
            same,
            enough,
            subst IsCovered (sym same)
                (record { coverage = cov; calculated = e3; controlled = x; total = y }),
          )
    ]
  where
    refused : {x : String} → err x ≡ ok t → ⊥
    refused h = cc

-- A withdrawal is signed only while no incident is open, under a transaction ID that was never
-- committed before and is recorded as committed then, and only if the reserve covers by both
-- measures what it owes after the signature. The signed input moves from the controlled assets to
-- the inputs under way: the assets together with those, and what is owed, stay the same.
pub sign_withdrawal-Moves :
    (s t : ReserveCoverageState) (w : WithdrawalCommitment)
    → sign_withdrawal s w ≡ ok t
    → Moves s t 0 0
      × (s.controlled_assets ≡ t.controlled_assets + w.selected_input)
      × (includes s.committed_transaction_ids w.transaction_id ≡ false)
      × (t.committed_transaction_ids ≡ s.committed_transaction_ids ++ w.transaction_id ∷ [])
      × IsCalm s
      × IsCovered t
unfolding sign_withdrawal
sign_withdrawal-Moves s t w e =
    let (before, e1, e2) = >>=-returned (calculate_reserve_coverage s) _ t e in
    let (next, e3, e4) =
      >>=-returned _ (λ (q : ReserveCoverageState × ℕ). post_signature w q.0) t e2 in
    let (calm, fresh, e5) =
      two_guards before.incident_halt_required
        (includes s.committed_transaction_ids w.transaction_id) _ _
        (replace_claim s w.claim_id (sign_update w)) e3 in
    let (same, h) = replace_claim-Replaced s w.claim_id (sign_update w) next e5 in
    let (e6, enough, covered) = post_signature-returned w next.0 t e4 in
    let effect =
      sign_update-Effect w h.claim h.next next.1 (h.checked (covered_sound s before e1))
        h.applied in
    let u : ReserveCoverageState = record s { withdrawal_claims = (next.0).withdrawal_claims } in
    let outcome : t ≡ signed_state w u = e6 ∙ ap (signed_state w) same in
    let enough' : w.selected_input ≤ s.controlled_assets =
      subst (λ (q : ReserveCoverageState). w.selected_input ≤ q.controlled_assets) same enough in
    (
      subst (λ q. Moves s q 0 0) (sym outcome)
          (Replaced-Moves s (signed_state w u) (sign_update w) w.claim_id next.1 0 0
            w.selected_input 0 0 h effect (omega arith) (omega arith) refl refl refl),
      subst
          (λ (q : ReserveCoverageState).
            s.controlled_assets ≡ q.controlled_assets + w.selected_input)
          (sym outcome) (omega arith),
      fresh,
      ap (λ (q : ReserveCoverageState). q.committed_transaction_ids) outcome,
      record { coverage = before; calculated = e1; calm = calm },
      covered,
    )
