-- ===== src/Reserve/Replace.antt =====
-- `replaceClaim` of src/lib/reserve.ts: where it returns, it has changed exactly one claim.
use phlebas.Base.{
  ℕ, ◌+◌, ◌≡◌, refl, inl, inr, true, List, [], ◌∷◌, Option, none, some, String, ok, >>=-returned,
  ok-injective, subst, arith, All, sum_of, Bool-cases, ◌===◌, false, ◌++◌, ap, ◌∙◌,
}
use phlebas.Reserve.{
  WithdrawalClaim, ReserveCoverageState, Update, Replacing, push_next, assert_claim, replace_loop,
  replace_claim,
}

-- The claim passes `assertClaim`.
abbrev pub IsClaim : WithdrawalClaim → Type 0
IsClaim claim = assert_claim claim ≡ ok tt

-- The claim has another ID.
abbrev pub Others : String → WithdrawalClaim → Type 0
Others claim_id claim = (claim.claim_id === claim_id) ≡ false

-- One claim, named by the ID, went through the callback, and the others are as they were.
pub record Replaced (update : Update) (claim_id : String) (captured captured' : ℕ)
    (before after : List WithdrawalClaim) : Type 0 where
  pub claim : WithdrawalClaim
  pub next : Option WithdrawalClaim
  pub named : (claim.claim_id === claim_id) ≡ true
  pub applied : update claim captured ≡ ok (next, captured')
  pub sums :
      (f : WithdrawalClaim → ℕ)
      → sum_of f after + f claim ≡ sum_of f before + sum_of f (push_next next [])
  pub checked : All IsClaim before → IsClaim claim
  pub front : List WithdrawalClaim
  pub back : List WithdrawalClaim
  pub place : before ≡ front ++ claim ∷ back
  pub result : after ≡ front ++ push_next next back
  pub alone : All (Others claim_id) front × All (Others claim_id) back

-- A claim, the one that the ID names, is taken off the list, and the others stay in their order.
pub record Taken (claim_id : String) (claim : WithdrawalClaim) (before after : List WithdrawalClaim)
    : Type 0 where
  pub named : (claim.claim_id === claim_id) ≡ true
  pub front : List WithdrawalClaim
  pub back : List WithdrawalClaim
  pub place : before ≡ front ++ claim ∷ back
  pub rest : after ≡ front ++ back
  pub alone : All (Others claim_id) front × All (Others claim_id) back

pub Replaced-Taken :
    {update : Update} {claim_id : String} {k k' : ℕ} {before after : List WithdrawalClaim}
    (h : Replaced update claim_id k k' before after)
    → h.next ≡ none
    → Taken claim_id h.claim before after
Replaced-Taken h e = record {
  named = h.named;
  front = h.front;
  back = h.back;
  place = h.place;
  rest = h.result ∙ ap (λ n. h.front ++ push_next n h.back) e;
  alone = h.alone;
}

replace_loop_none :
    (id : String) (update : Update) (k : ℕ) (claims : List WithdrawalClaim) (r : Replacing)
    → replace_loop id update k claims ≡ ok r
    → r.matches ≡ 0
    → (r.claims ≡ claims) × (r.captured ≡ k) × All (Others id) claims
unfolding replace_loop
replace_loop_none id update k [] r e z = ground arith
replace_loop_none id update k (c ∷ cs) r e z = elim (Bool-cases (c.claim_id === id)) [
  | inl hit ↦
      let (u, e1, e2) = >>=-returned (update c k) _ r (rw (hit, replace_loop) at e) in
      let (r', e3, e4) = >>=-returned (replace_loop id update u.1 cs) _ r e2 in
      absurd (ground arith)
  | inr miss ↦
      let (r', e1, e2) =
        >>=-returned (replace_loop id update k cs) _ r (rw (miss, replace_loop) at e) in
      ground (arith, replace_loop_none id update k cs r' e1)
]

sum_of-push_next :
    (f : WithdrawalClaim → ℕ) (n : Option WithdrawalClaim) (cs : List WithdrawalClaim)
    → sum_of f (push_next n cs) ≡ sum_of f (push_next n []) + sum_of f cs
sum_of-push_next f none cs = omega arith
sum_of-push_next f (some c) cs = omega arith

replace_loop_one :
    (id : String) (update : Update) (k : ℕ) (claims : List WithdrawalClaim) (r : Replacing)
    → replace_loop id update k claims ≡ ok r
    → r.matches ≡ 1
    → Replaced update id k r.captured claims r.claims
unfolding replace_loop
replace_loop_one id update k [] r e z = absurd (ground arith)
replace_loop_one id update k (c ∷ cs) r e z = elim (Bool-cases (c.claim_id === id)) [
  | inl hit ↦
      let (u, e1, e2) = >>=-returned (update c k) _ r (rw (hit, replace_loop) at e) in
      let (r', e3, e4) = >>=-returned (replace_loop id update u.1 cs) _ r e2 in
      let (same, kept, others) = replace_loop_none id update u.1 cs r' e3 (ground arith) in
      subst (λ (q : Replacing). Replaced update id k q.captured (c ∷ cs) q.claims) (ok-injective e4)
        (record {
          claim = c;
          next = u.0;
          named = hit;
          applied = rw kept e1;
          sums = λ f. rw same (omega (arith, sum_of-push_next f u.0 cs));
          checked = λ a. a.0;
          front = [];
          back = cs;
          place = refl;
          result = ap (push_next u.0) same;
          alone = (tt, others);
        })
  | inr miss ↦
      let (r', e1, e2) =
        >>=-returned (replace_loop id update k cs) _ r (rw (miss, replace_loop) at e) in
      let h = replace_loop_one id update k cs r' e1 (ground arith) in
      subst (λ (q : Replacing). Replaced update id k q.captured (c ∷ cs) q.claims) (ok-injective e2)
        (record {
          claim = h.claim;
          next = h.next;
          named = h.named;
          applied = h.applied;
          sums = λ f. omega (arith, h.sums f);
          checked = λ a. h.checked a.1;
          front = c ∷ h.front;
          back = h.back;
          place = ap (λ l. c ∷ l) h.place;
          result = ap (λ l. c ∷ l) h.result;
          alone = ((miss, h.alone.0), h.alone.1);
        })
]

-- Where `replaceClaim` returns, it has changed the claims alone, and one of them.
pub replace_claim-Replaced :
    (state : ReserveCoverageState) (id : String) (update : Update)
    (result : ReserveCoverageState × ℕ)
    → replace_claim state id update ≡ ok result
    → (result.0 ≡ record state { withdrawal_claims = (result.0).withdrawal_claims })
      × Replaced update id 0 result.1 state.withdrawal_claims (result.0).withdrawal_claims
unfolding replace_claim
replace_claim-Replaced state id update result e =
    let (r, e1, e2) = >>=-returned (replace_loop id update 0 state.withdrawal_claims) _ result e in
    let one : r.matches ≡ 1 = ground arith in
    subst
      (λ (q : ReserveCoverageState × ℕ).
        (q.0 ≡ record state { withdrawal_claims = (q.0).withdrawal_claims })
        × Replaced update id 0 q.1 state.withdrawal_claims (q.0).withdrawal_claims)
      (ok-injective (rw one at e2))
      (refl, replace_loop_one id update 0 state.withdrawal_claims r e1 one)
