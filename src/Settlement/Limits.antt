-- ===== src/Settlement/Limits.antt =====
-- Settling a fill of src/lib/settlement-accounting.ts keeps to what both sides signed.
use phlebas.Base.{
  ℕ, ◌+◌, ◌-◌, ◌*◌, ◌/◌, ◌≡◌, refl, ap, subst, ◌≤◌, ◌<◌, Bool, true, false, ◌||◌, Result, ok, ◌>>◌,
  throw_if, ltb, ◌==◌, arith, >>=-returned, >>-returned, throw_if-returned, ok-injective,
  uint256_max, Bool-cases, inl, inr,
}
use native.Mathlib.Nat.{
  mul_comm, mul-le-mul_right, mul-le-mul_left, le-div_iff_mul-le, lt-mul-div-succ, div-mul-le_self,
}
use phlebas.OrderDomain.{Text, TypedOrderIntent, normalize_hex32, max_order_fee_bps}
use phlebas.PriceTime.{SequencedOrder, PlannedFill, has_text}
use phlebas.Lifecycle.{OrderLifecycleState, order_activity}
use phlebas.Settlement.{
  SettlementLedger, SettlementParameters, AppliedSettlement, buying, selling, divide_up, fee_atoms,
  at_maker_price, check_quote, apply_deltas, quote_for_limits, normalize_settlement_ledger,
}
use phlebas.Settlement.Settle.{
  is_inactive, filled_of, buyer_fee, seller_fee, check_amounts, check_fee_caps, check_debits,
  settlement_deltas, apply_fill, check_order, settle_planned_fill,
}
use phlebas.Settlement.Balances.{Pays, settlement_deltas-Pays}
use phlebas.Settlement.Conserved.{settle_planned_fill-Steps}

both_false : (a b : Bool) → (a || b) ≡ false → (a ≡ false) × (b ≡ false)
both_false false b h = (refl, h)
both_false true b h = cc

positive : (n : ℕ) (b : Bool) → (n == 0 || b) ≡ false → 0 < n
positive n b h = ground (arith, (both_false (n == 0) b h).0)

not_less : (a b : ℕ) → ltb b a ≡ false → a ≤ b
not_less a b h = ground arith

-- A quotient that is rounded up is enough.
divide_up-enough : (n d x : ℕ) → 0 < d → ltb x (divide_up n d) ≡ false → n ≤ x * d
unfolding divide_up
divide_up-enough n d x p h = elim (Bool-cases (n == 0)) [
  | inl e ↦ ground arith
  | inr e ↦
      let y = (n - 1) / d + 1 in
      let pos : 0 < n = ground arith in
      let below : y ≤ x = not_less y x (simp e at h) in
      omega (arith, pos, lt-mul-div-succ (n - 1) p, mul_comm d y, mul-le-mul_right d below)
]

record Quoted (fill : PlannedFill) (maker taker : SequencedOrder) (divisor quote : ℕ) : Type 0 where
  seller : fill.base_amount_atoms * (selling maker taker).order.limit_price_ticks ≤ quote * divisor
  buyer : quote * divisor ≤ fill.base_amount_atoms * (buying maker taker).order.limit_price_ticks

quote_for_limits-Quoted :
    (fill : PlannedFill) (maker taker : SequencedOrder) (divisor quote : ℕ)
    → quote_for_limits fill maker taker divisor ≡ ok quote
    → Quoted fill maker taker divisor quote
unfolding quote_for_limits check_quote
quote_for_limits-Quoted fill maker taker divisor quote h =
    let amount = at_maker_price fill maker divisor in
    let low =
      divide_up (fill.base_amount_atoms * (selling maker taker).order.limit_price_ticks) divisor in
    let high = (fill.base_amount_atoms * (buying maker taker).order.limit_price_ticks) / divisor in
    let (valid, h1) = >>-returned (throw_if (divisor == 0 || ltb uint256_max divisor) _) _ _ h in
    let (guards, made) = >>-returned _ (ok amount) _ h1 in
    let (g1, g2) = >>-returned _ (throw_if (ltb uint256_max amount) _) _ guards in
    let (g3, g4) = >>-returned _ (throw_if (ltb amount low || ltb high amount) _) _ g1 in
    let inside = throw_if-returned (ltb amount low || ltb high amount) _ g4 in
    let divides = throw_if-returned (divisor == 0 || ltb uint256_max divisor) _ valid in
    let pos : 0 < divisor = positive divisor (ltb uint256_max divisor) divides in
    let (above, below) = both_false (ltb amount low) (ltb high amount) inside in
    subst (Quoted fill maker taker divisor) (ok-injective made) (record {
      seller = divide_up-enough _ divisor amount pos above;
      buyer = (le-div_iff_mul-le pos).0 (not_less amount high below);
    })

-- The fee is no more than the protocol's share of the quote amount.
fee_capped :
    (quote bps : ℕ) → ltb max_order_fee_bps bps ≡ false → fee_atoms quote bps * 10000 ≤ quote * 30
unfolding fee_atoms
fee_capped quote bps h =
    let small : bps ≤ 30 = not_less bps max_order_fee_bps h in
    omega (arith, div-mul-le_self (quote * bps) 10000, mul-le-mul_left quote small)

check_amounts-covered :
    (filled : ℕ) (fill : PlannedFill) (sequenced : SequencedOrder)
    → check_amounts filled fill sequenced ≡ ok tt
    → filled + fill.base_amount_atoms ≤ sequenced.order.base_amount_atoms
unfolding check_amounts
check_amounts-covered filled fill sequenced h = ground arith

-- What a settled fill honours of the orders that were signed.
pub record Honours (ledger : SettlementLedger) (fill : PlannedFill) (maker taker : SequencedOrder)
    (parameters : SettlementParameters) (applied : AppliedSettlement) : Type 0 where
  pub seller_limit :
      fill.base_amount_atoms * (selling maker taker).order.limit_price_ticks
      ≤ applied.quote_amount_atoms * parameters.quote_cost_divisor
  pub buyer_limit :
      applied.quote_amount_atoms * parameters.quote_cost_divisor
      ≤ fill.base_amount_atoms * (buying maker taker).order.limit_price_ticks
  pub pays :
      Pays ledger.balances applied.ledger.balances fill maker taker parameters
        applied.quote_amount_atoms applied.buyer_fee_atoms applied.seller_fee_atoms
  pub seller_covered : applied.seller_fee_atoms ≤ applied.quote_amount_atoms
  pub buyer_cap : applied.buyer_fee_atoms * 10000 ≤ applied.quote_amount_atoms * 30
  pub seller_cap : applied.seller_fee_atoms * 10000 ≤ applied.quote_amount_atoms * 30
  pub maker_hash : Text
  pub maker_named : normalize_hex32 maker.order_hash ≡ ok maker_hash
  pub maker_amount :
      filled_of ledger maker_hash + fill.base_amount_atoms ≤ maker.order.base_amount_atoms
  pub taker_hash : Text
  pub taker_named : normalize_hex32 taker.order_hash ≡ ok taker_hash
  pub taker_amount :
      filled_of ledger taker_hash + fill.base_amount_atoms ≤ taker.order.base_amount_atoms

-- The amounts that an applied fill reports, and what it pays.
record Reports (ledger : SettlementLedger) (fill : PlannedFill) (maker taker : SequencedOrder)
    (parameters : SettlementParameters) (quote : ℕ) (applied : AppliedSettlement) : Type 0 where
  pays :
      Pays ledger.balances applied.ledger.balances fill maker taker parameters
        applied.quote_amount_atoms applied.buyer_fee_atoms applied.seller_fee_atoms
  amount : quote ≡ applied.quote_amount_atoms
  buyer : buyer_fee maker parameters quote ≡ applied.buyer_fee_atoms
  seller : seller_fee maker parameters quote ≡ applied.seller_fee_atoms

apply_fill-Reports :
    (ledger : SettlementLedger) (fill : PlannedFill) (maker taker : SequencedOrder)
    (parameters : SettlementParameters) (maker_hash taker_hash fill_id : Text) (quote : ℕ)
    (applied : AppliedSettlement)
    → apply_fill ledger fill maker taker parameters maker_hash taker_hash fill_id quote ≡ ok applied
    → Reports ledger fill maker taker parameters quote applied
unfolding apply_fill
apply_fill-Reports ledger fill maker taker parameters maker_hash taker_hash fill_id quote applied
      h =
    let (deltas, e, h1) =
      >>=-returned
        (throw_if (has_text ledger.applied_fill_ids fill_id) _
          >> settlement_deltas fill maker taker parameters quote)
        _ _ h in
    let (fresh, made) = >>-returned _ (settlement_deltas fill maker taker parameters quote) _ e in
    let (balances, a, h2) = >>=-returned (apply_deltas ledger.balances deltas) _ _ h1 in
    let same = ok-injective h2 in
    record {
      pays =
          subst
            (λ (x : AppliedSettlement).
              Pays ledger.balances x.ledger.balances fill maker taker parameters
                x.quote_amount_atoms x.buyer_fee_atoms x.seller_fee_atoms)
            same
            (settlement_deltas-Pays ledger.balances balances fill maker taker parameters quote
              deltas made a);
      amount = ap (λ x. x.quote_amount_atoms) same;
      buyer = ap (λ x. x.buyer_fee_atoms) same;
      seller = ap (λ x. x.seller_fee_atoms) same;
    }

small_fee :
    (maker : SequencedOrder) (parameters : SettlementParameters) (quote : ℕ)
    → check_debits maker parameters quote ≡ ok tt
    → seller_fee maker parameters quote ≤ quote
unfolding check_debits
small_fee maker parameters quote h =
    let (_, fee) = >>-returned _ (throw_if (ltb quote (seller_fee maker parameters quote)) _) _ h in
    not_less (seller_fee maker parameters quote) quote
      (throw_if-returned (ltb quote (seller_fee maker parameters quote)) _ fee)

capped_fees :
    (maker taker : SequencedOrder) (parameters : SettlementParameters) (quote : ℕ)
    → check_fee_caps maker taker parameters ≡ ok tt
    → (buyer_fee maker parameters quote * 10000 ≤ quote * 30)
      × (seller_fee maker parameters quote * 10000 ≤ quote * 30)
unfolding check_fee_caps
capped_fees maker taker parameters quote h =
    let caps : (ltb max_order_fee_bps parameters.maker_fee_bps ≡ false)
        × (ltb max_order_fee_bps parameters.taker_fee_bps ≡ false) =
      ground arith in
    let of_maker = fee_capped quote parameters.maker_fee_bps caps.0 in
    let of_taker = fee_capped quote parameters.taker_fee_bps caps.1 in
    (ground (arith, of_maker, of_taker), ground (arith, of_maker, of_taker))

module _ (hash_order_struct : TypedOrderIntent → Result Text)
    (applied_fill_id : Text → Text → ℕ → ℕ → ℕ → ℕ → Text) where
  check_order-covered :
      (ledger : SettlementLedger) (lifecycle : OrderLifecycleState) (fill : PlannedFill) (now : ℕ)
      (sequenced : SequencedOrder)
      → check_order hash_order_struct applied_fill_id ledger lifecycle fill now sequenced ≡ ok tt
      → (hash : Text) × (normalize_hex32 sequenced.order_hash ≡ ok hash)
        × (filled_of ledger hash + fill.base_amount_atoms ≤ sequenced.order.base_amount_atoms)
  unfolding check_order
  check_order-covered ledger lifecycle fill now sequenced h =
      let (hash, n, h1) = >>=-returned (normalize_hex32 sequenced.order_hash) _ _ h in
      let (activity, a, h2) =
        >>=-returned (order_activity hash_order_struct lifecycle hash sequenced.order now) _ _ h1 in
      let (active_now, amounts) = >>-returned (throw_if (is_inactive activity) _) _ _ h2 in
      (hash, n, check_amounts-covered (filled_of ledger hash) fill sequenced amounts)

  -- A fill that is settled takes its base atoms from the seller's account and gives them to the
  -- buyer's recipient; it takes the quote amount and the buyer's fee from the buyer's account, gives
  -- the quote amount less the seller's fee to the seller's recipient and both fees to the fee
  -- recipient; and the balances of no other account change. That quote amount is at least what the
  -- seller's signed limit asks for, and at most what the buyer's allows; either fee is at most 30
  -- basis points of it; and with what was filled before the fill exceeds neither signed order.
  pub settle_planned_fill-Honours :
      (given : SettlementLedger) (lifecycle : OrderLifecycleState) (fill : PlannedFill)
      (maker taker : SequencedOrder) (parameters : SettlementParameters)
      (applied : AppliedSettlement)
      → settle_planned_fill hash_order_struct applied_fill_id given lifecycle fill maker taker
          parameters
        ≡ ok applied
      → (ledger : SettlementLedger) × (normalize_settlement_ledger given ≡ ok ledger)
        × Honours ledger fill maker taker parameters applied
  settle_planned_fill-Honours given lifecycle fill maker taker parameters applied h =
      let s =
        settle_planned_fill-Steps hash_order_struct applied_fill_id given lifecycle fill maker taker
          parameters applied h in
      let quoted = quote_for_limits-Quoted fill maker taker _ s.quote s.quoted in
      let reports =
        apply_fill-Reports s.ledger fill maker taker parameters s.maker_hash s.taker_hash s.fill_id
          s.quote applied s.done in
      let fees = capped_fees maker taker parameters s.quote s.fee_caps in
      let (maker_hash, m, m1) =
        check_order-covered s.ledger lifecycle fill _ maker s.maker_checked in
      let (taker_hash, t, t1) =
        check_order-covered s.ledger lifecycle fill _ taker s.taker_checked in
      (
        s.ledger,
        s.normalized,
        record {
          seller_limit =
              subst
                (λ q.
                  fill.base_amount_atoms * (selling maker taker).order.limit_price_ticks
                  ≤ q * parameters.quote_cost_divisor)
                reports.amount quoted.seller;
          buyer_limit =
              subst
                (λ q.
                  q * parameters.quote_cost_divisor
                  ≤ fill.base_amount_atoms * (buying maker taker).order.limit_price_ticks)
                reports.amount quoted.buyer;
          pays = reports.pays;
          seller_covered =
              omega (
                arith,
                small_fee maker parameters s.quote s.debits,
                reports.amount,
                reports.seller,
              );
          buyer_cap = omega (arith, fees.0, reports.buyer, reports.amount);
          seller_cap = omega (arith, fees.1, reports.seller, reports.amount);
          maker_hash = maker_hash;
          maker_named = m;
          maker_amount = m1;
          taker_hash = taker_hash;
          taker_named = t;
          taker_amount = t1;
        },
      )
