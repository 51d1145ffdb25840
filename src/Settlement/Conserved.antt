-- ===== src/Settlement/Conserved.antt =====
-- Settling a fill of src/lib/settlement-accounting.ts conserves both assets.
use phlebas.Base.{
  ℕ, ◌+◌, ◌-◌, ◌≡◌, refl, subst, ◌∙◌, ◌≤◌, false, List, [], Result, ok, ◌>>◌, throw_if, ltb, arith,
  >>=-returned, >>-returned, throw_if-returned, ok-injective,
}
use phlebas.OrderDomain.{Text, TypedOrderIntent, normalize_hex32}
use phlebas.PriceTime.{SequencedOrder, PlannedFill, has_text}
use phlebas.Lifecycle.{OrderLifecycleState}
use phlebas.Settlement.{
  no_balance, balance_fits, amount_fits, SettlementLedger, SettlementParameters, AppliedSettlement,
  Delta, no_delta, sum_delta, buying, selling, normalize_entries, normalize_ids,
  normalize_settlement_ledger, add_delta, apply_deltas, quote_for_limits, assert_fill_shape,
}
use phlebas.Settlement.Settle.{
  buyer_fee, seller_fee, check_fee_caps, check_debits, settlement_deltas, apply_fill, check_order,
  settle_planned_fill,
}
use phlebas.Settlement.Totals.{total, total-normalize_entries, total-add_delta, total-apply_deltas}

module _ (fill : PlannedFill) (maker taker : SequencedOrder) (parameters : SettlementParameters)
    (quote : ℕ) where
  -- The five deltas of a settlement, in any total that adds up.
  total-settlement_deltas :
      (f : Delta → ℕ) (deltas : List (Text × Delta))
      → f no_delta ≡ 0
      → ((c d : Delta) → f (sum_delta c d) ≡ f c + f d)
      → settlement_deltas fill maker taker parameters quote ≡ ok deltas
      → total f deltas
        ≡ f (record no_delta { base_out = fill.base_amount_atoms })
          + f (record no_delta { base_in = fill.base_amount_atoms })
          + f (record no_delta { quote_out = quote + buyer_fee maker parameters quote })
          + f (record no_delta { quote_in = quote - seller_fee maker parameters quote })
          + f (record no_delta {
            quote_in = buyer_fee maker parameters quote + seller_fee maker parameters quote;
          })
  unfolding settlement_deltas
  total-settlement_deltas f deltas z adds h =
      let (d1, e1, h1) =
        >>=-returned (add_delta [] (selling maker taker).order.maker_account_id _) _ _ h in
      let (d2, e2, h2) =
        >>=-returned (add_delta d1 (buying maker taker).order.recipient_account_id _) _ _ h1 in
      let (d3, e3, h3) =
        >>=-returned (add_delta d2 (buying maker taker).order.maker_account_id _) _ _ h2 in
      let (d4, e4, h4) =
        >>=-returned (add_delta d3 (selling maker taker).order.recipient_account_id _) _ _ h3 in
      omega (
        arith,
        total-add_delta f [] d1 _ _ z adds e1,
        total-add_delta f d1 d2 _ _ z adds e2,
        total-add_delta f d2 d3 _ _ z adds e3,
        total-add_delta f d3 d4 _ _ z adds e4,
        total-add_delta f d4 deltas _ _ z adds h4,
      )

-- Both assets are as many in all the balances after as before.
pub record Conserves (before after : SettlementLedger) : Type 0 where
  pub base : total (λ b. b.base_atoms) after.balances ≡ total (λ b. b.base_atoms) before.balances
  pub quote : total (λ b. b.quote_atoms) after.balances ≡ total (λ b. b.quote_atoms) before.balances

normalize_settlement_ledger-Conserves :
    (given ledger : SettlementLedger)
    → normalize_settlement_ledger given ≡ ok ledger
    → Conserves given ledger
unfolding normalize_settlement_ledger
normalize_settlement_ledger-Conserves given ledger h =
    let (balances, e, h1) = >>=-returned (normalize_entries balance_fits [] given.balances) _ _ h in
    let (filled, e2, h2) =
      >>=-returned (normalize_entries amount_fits [] given.filled_base_atoms) _ _ h1 in
    let (ids, e3, h3) = >>=-returned (normalize_ids [] given.applied_fill_ids) _ _ h2 in
    subst (Conserves given) (ok-injective h3) (record {
      base = omega (
        arith,
        total-normalize_entries (λ b. b.base_atoms) no_balance balance_fits [] given.balances
            balances refl e,
      );
      quote = omega (
        arith,
        total-normalize_entries (λ b. b.quote_atoms) no_balance balance_fits [] given.balances
            balances refl e,
      );
    })

apply_fill-Conserves :
    (ledger : SettlementLedger) (fill : PlannedFill) (maker taker : SequencedOrder)
    (parameters : SettlementParameters) (maker_hash taker_hash fill_id : Text) (quote : ℕ)
    (applied : AppliedSettlement)
    → seller_fee maker parameters quote ≤ quote
    → apply_fill ledger fill maker taker parameters maker_hash taker_hash fill_id quote ≡ ok applied
    → Conserves ledger applied.ledger
unfolding apply_fill
apply_fill-Conserves ledger fill maker taker parameters maker_hash taker_hash fill_id quote applied
      covered h =
    let (deltas, e, h1) =
      >>=-returned
        (throw_if (has_text ledger.applied_fill_ids fill_id) _
          >> settlement_deltas fill maker taker parameters quote)
        _ _ h in
    let (fresh, made) = >>-returned _ (settlement_deltas fill maker taker parameters quote) _ e in
    let (balances, a, h2) = >>=-returned (apply_deltas ledger.balances deltas) _ _ h1 in
    let (base, quotes) = total-apply_deltas ledger.balances balances deltas a in
    let sums = total-settlement_deltas fill maker taker parameters quote in
    let base_in = sums (λ d. d.base_in) deltas refl (λ c d. refl) made in
    let base_out = sums (λ d. d.base_out) deltas refl (λ c d. refl) made in
    let quote_in = sums (λ d. d.quote_in) deltas refl (λ c d. refl) made in
    let quote_out = sums (λ d. d.quote_out) deltas refl (λ c d. refl) made in
    subst (λ x. Conserves ledger x.ledger) (ok-injective h2)
      (record {
        base = omega (arith, base, base_in, base_out);
        quote = omega (arith, quotes, quote_in, quote_out, covered);
      })

fee_le : (fee quote : ℕ) → ltb quote fee ≡ false → fee ≤ quote
fee_le fee quote h = ground arith

module _ (hash_order_struct : TypedOrderIntent → Result Text)
    (applied_fill_id : Text → Text → ℕ → ℕ → ℕ → ℕ → Text) (given : SettlementLedger)
    (lifecycle : OrderLifecycleState) (fill : PlannedFill) (maker taker : SequencedOrder)
    (parameters : SettlementParameters) (applied : AppliedSettlement) where
  -- The calls that a settlement made, each of which returned.
  pub record Steps : Type 0 where
    pub ledger : SettlementLedger
    pub normalized : normalize_settlement_ledger given ≡ ok ledger
    pub shape : assert_fill_shape fill maker taker ≡ ok tt
    pub maker_hash : Text
    pub taker_hash : Text
    pub maker_checked :
        check_order hash_order_struct applied_fill_id ledger lifecycle fill parameters.now_seconds
          maker
        ≡ ok tt
    pub taker_checked :
        check_order hash_order_struct applied_fill_id ledger lifecycle fill parameters.now_seconds
          taker
        ≡ ok tt
    pub fee_caps : check_fee_caps maker taker parameters ≡ ok tt
    pub quote : ℕ
    pub quoted : quote_for_limits fill maker taker parameters.quote_cost_divisor ≡ ok quote
    pub debits : check_debits maker parameters quote ≡ ok tt
    pub fill_id : Text
    pub done :
        apply_fill ledger fill maker taker parameters maker_hash taker_hash fill_id quote
        ≡ ok applied

  pub settle_planned_fill-Steps :
      settle_planned_fill hash_order_struct applied_fill_id given lifecycle fill maker taker
          parameters
        ≡ ok applied
      → Steps
  unfolding settle_planned_fill
  settle_planned_fill-Steps h =
      let (ledger, n, h1) = >>=-returned (normalize_settlement_ledger given) _ _ h in
      let (maker_hash, m, h2) =
        >>=-returned (assert_fill_shape fill maker taker >> normalize_hex32 maker.order_hash) _ _
          h1 in
      let (shape, m1) = >>-returned (assert_fill_shape fill maker taker) _ _ m in
      let (taker_hash, t, h3) = >>=-returned (normalize_hex32 taker.order_hash) _ _ h2 in
      let (quote, q, h4) = >>=-returned _ _ _ h3 in
      let (c1, quoted) =
        >>-returned _ (quote_for_limits fill maker taker parameters.quote_cost_divisor) _ q in
      let (c2, fee_caps) = >>-returned _ (check_fee_caps maker taker parameters) _ c1 in
      let (maker_checked, taker_checked) =
        >>-returned
          (check_order hash_order_struct applied_fill_id ledger lifecycle fill
            parameters.now_seconds maker)
          _ _ c2 in
      let (debits, done) = >>-returned (check_debits maker parameters quote) _ _ h4 in
      record {
        ledger = ledger;
        normalized = n;
        shape = shape;
        maker_hash = maker_hash;
        taker_hash = taker_hash;
        maker_checked = maker_checked;
        taker_checked = taker_checked;
        fee_caps = fee_caps;
        quote = quote;
        quoted = quoted;
        debits = debits;
        fill_id = _;
        done = done;
      }

  -- A fill that is settled neither makes nor destroys an asset: the balances of all accounts add up
  -- to what they added up to, in base atoms and in quote atoms, the fees included.
  pub settle_planned_fill-Conserves :
      settle_planned_fill hash_order_struct applied_fill_id given lifecycle fill maker taker
          parameters
        ≡ ok applied
      → Conserves given applied.ledger
  unfolding check_debits
  settle_planned_fill-Conserves h =
      let s = settle_planned_fill-Steps h in
      let normal = normalize_settlement_ledger-Conserves given s.ledger s.normalized in
      let (debit, fee) =
        >>-returned _ (throw_if (ltb s.quote (seller_fee maker parameters s.quote)) _) _ s.debits in
      let small = throw_if-returned (ltb s.quote (seller_fee maker parameters s.quote)) _ fee in
      let moved =
        apply_fill-Conserves s.ledger fill maker taker parameters s.maker_hash s.taker_hash
          s.fill_id s.quote applied (fee_le (seller_fee maker parameters s.quote) s.quote small)
          s.done in
      record { base = moved.base ∙ normal.base; quote = moved.quote ∙ normal.quote }
