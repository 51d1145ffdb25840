-- ===== src/Settlement/Balances.antt =====
-- The balance of each account after the five deltas of a settlement
-- (src/lib/settlement-accounting.ts, lines 220 to 230).
use phlebas.Base.{
  ℕ, ◌+◌, ◌-◌, ◌≡◌, refl, ap, inl, inr, false, Bool-cases, List, [], ◌∷◌, ok, arith, sum_of,
  if◌then◌else◌, >>=-returned, ok-injective,
}
use phlebas.Base.Entries.{get_entry, set_entry, or_else}
use phlebas.OrderDomain.{Text, same_text, normalize_hex32}
use phlebas.OrderDomain.Canonical.{same_text_iff}
use phlebas.PriceTime.{SequencedOrder, PlannedFill}
use phlebas.Settlement.{
  AtomicBalance, no_balance, SettlementParameters, Delta, no_delta, sum_delta, buying, selling,
  add_delta, apply_delta, apply_deltas,
}
use phlebas.Settlement.Settle.{buyer_fee, seller_fee, settlement_deltas}
use phlebas.Settlement.Totals.{apply_delta-returned}

-- An amount that counts for one account.
abbrev pub only : Text → Text → ℕ → ℕ
only account a amount = if same_text account a then amount else 0

-- What an account holds.
abbrev pub held : (AtomicBalance → ℕ) → List (Text × AtomicBalance) → Text → ℕ
held f balances a = f (or_else (get_entry same_text balances a) no_balance)

-- What the deltas of an account add up to.
abbrev moved : (Delta → ℕ) → List (Text × Delta) → Text → ℕ
moved f deltas a = sum_of (λ e. only e.0 a (f (e.1))) deltas

moved-set_entry :
    (f : Delta → ℕ) (es : List (Text × Delta)) (k : Text) (v : Delta) (a : Text)
    → f no_delta ≡ 0
    → moved f (set_entry same_text es k v) a
        + only k a (f (or_else (get_entry same_text es k) no_delta))
      ≡ moved f es a + only k a (f v)
unfolding get_entry set_entry
moved-set_entry f [] k v a z = ground (arith, z)
moved-set_entry f ((k', v') ∷ es) k v a z = elim (Bool-cases (same_text k' k)) [
  | inl e ↦ rw (e, (same_text_iff k' k).0 e) (omega arith)
  | inr e ↦ rw e (omega (arith, moved-set_entry f es k v a z))
]

held-set_entry :
    (f : AtomicBalance → ℕ) (es : List (Text × AtomicBalance)) (k : Text) (v : AtomicBalance)
    (a : Text)
    → held f (set_entry same_text es k v) a ≡ (if same_text k a then f v else held f es a)
unfolding get_entry set_entry
held-set_entry f [] k v a = ground arith
held-set_entry f ((k', v') ∷ es) k v a = elim (Bool-cases (same_text k' k)) [
  | inl e ↦ rw (e, (same_text_iff k' k).0 e) (ground arith)
  | inr e ↦ elim (Bool-cases (same_text k' a)) [
    | inl own ↦
        let apart : same_text k a ≡ false =
          ground (arith, same_text_iff k' a, same_text_iff k a, same_text_iff k' k) in
        rw (e, own, apart) refl
    | inr other ↦ rw (e, other) (held-set_entry f es k v a)
  ]
]

-- Applying deltas changes what an account holds by what its own deltas add up to.
held-apply_deltas :
    (balances out : List (Text × AtomicBalance)) (deltas : List (Text × Delta)) (a : Text)
    → apply_deltas balances deltas ≡ ok out
    → (held (λ b. b.base_atoms) out a + moved (λ d. d.base_out) deltas a
        ≡ held (λ b. b.base_atoms) balances a + moved (λ d. d.base_in) deltas a)
      × (held (λ b. b.quote_atoms) out a + moved (λ d. d.quote_out) deltas a
          ≡ held (λ b. b.quote_atoms) balances a + moved (λ d. d.quote_in) deltas a)
unfolding apply_deltas
held-apply_deltas balances out [] a h = rw (ok-injective h) (refl, refl)
held-apply_deltas balances out ((account, delta) ∷ deltas) a h =
    let old = or_else (get_entry same_text balances account) no_balance in
    let (next, e, rest) = >>=-returned (apply_delta old delta) _ _ h in
    let (base, quote) = apply_delta-returned old next delta e in
    let (bases, quotes) =
      held-apply_deltas (set_entry same_text balances account next) out deltas a rest in
    let set_base = held-set_entry (λ b. b.base_atoms) balances account next a in
    let set_quote = held-set_entry (λ b. b.quote_atoms) balances account next a in
    elim (Bool-cases (same_text account a)) [
      | inl own ↦
          let same = (same_text_iff account a).0 own in
          let here_base = ap (held (λ b. b.base_atoms) balances) same in
          let here_quote = ap (held (λ b. b.quote_atoms) balances) same in
          rw own (
            omega (arith, base, bases, rw own at set_base, here_base),
            omega (arith, quote, quotes, rw own at set_quote, here_quote),
          )
      | inr other ↦
          rw other (
            omega (arith, bases, rw other at set_base),
            omega (arith, quotes, rw other at set_quote),
          )
    ]

moved-add_delta :
    (f : Delta → ℕ) (deltas out : List (Text × Delta)) (account k : Text) (delta : Delta) (a : Text)
    → f no_delta ≡ 0
    → ((c d : Delta) → f (sum_delta c d) ≡ f c + f d)
    → normalize_hex32 account ≡ ok k
    → add_delta deltas account delta ≡ ok out
    → moved f out a ≡ moved f deltas a + only k a (f delta)
unfolding add_delta
moved-add_delta f deltas out account k delta a z adds n h =
    let old = or_else (get_entry same_text deltas k) no_delta in
    let set = moved-set_entry f deltas k (sum_delta old delta) a z in
    let made : set_entry same_text deltas k (sum_delta old delta) ≡ out =
      ok-injective (rw n at h) in
    let new = ap (λ l. moved f l a) made in
    elim (Bool-cases (same_text k a)) [
      | inl e ↦ rw e (omega (arith, rw e at set, adds old delta, new))
      | inr e ↦ rw e (omega (arith, rw e at set, new))
    ]

-- Who a settlement pays, by normalized account, and what every account holds before and after it.
pub record Pays (before after : List (Text × AtomicBalance)) (fill : PlannedFill)
    (maker taker : SequencedOrder) (parameters : SettlementParameters)
    (quote buyer_fees seller_fees : ℕ) : Type 0 where
  pub seller : Text
  pub seller_named : normalize_hex32 (selling maker taker).order.maker_account_id ≡ ok seller
  pub base_to : Text
  pub base_to_named : normalize_hex32 (buying maker taker).order.recipient_account_id ≡ ok base_to
  pub buyer : Text
  pub buyer_named : normalize_hex32 (buying maker taker).order.maker_account_id ≡ ok buyer
  pub quote_to : Text
  pub quote_to_named :
      normalize_hex32 (selling maker taker).order.recipient_account_id ≡ ok quote_to
  pub fees_to : Text
  pub fees_to_named : normalize_hex32 parameters.fee_recipient_account_id ≡ ok fees_to
  pub base :
      (a : Text)
      → held (λ b. b.base_atoms) after a + only seller a fill.base_amount_atoms
        ≡ held (λ b. b.base_atoms) before a + only base_to a fill.base_amount_atoms
  pub quote_atoms :
      (a : Text)
      → held (λ b. b.quote_atoms) after a + only buyer a (quote + buyer_fees)
        ≡ held (λ b. b.quote_atoms) before a
          + only quote_to a (quote - seller_fees)
          + only fees_to a (buyer_fees + seller_fees)

add_delta-named :
    (deltas out : List (Text × Delta)) (account : Text) (delta : Delta)
    → add_delta deltas account delta ≡ ok out
    → (k : Text) × (normalize_hex32 account ≡ ok k)
unfolding add_delta
add_delta-named deltas out account delta h =
    let (k, n, _) = >>=-returned (normalize_hex32 account) _ _ h in (k, n)

nothing : (k a : Text) → only k a 0 ≡ 0
nothing k a = ground arith

pub settlement_deltas-Pays :
    (before after : List (Text × AtomicBalance)) (fill : PlannedFill) (maker taker : SequencedOrder)
    (parameters : SettlementParameters) (quote : ℕ) (deltas : List (Text × Delta))
    → settlement_deltas fill maker taker parameters quote ≡ ok deltas
    → apply_deltas before deltas ≡ ok after
    → Pays before after fill maker taker parameters quote
        (buyer_fee maker parameters quote)
        (seller_fee maker parameters quote)
unfolding settlement_deltas
settlement_deltas-Pays before after fill maker taker parameters quote deltas h applied =
    let (d1, e1, h1) =
      >>=-returned (add_delta [] (selling maker taker).order.maker_account_id _) _ _ h in
    let (d2, e2, h2) =
      >>=-returned (add_delta d1 (buying maker taker).order.recipient_account_id _) _ _ h1 in
    let (d3, e3, h3) =
      >>=-returned (add_delta d2 (buying maker taker).order.maker_account_id _) _ _ h2 in
    let (d4, e4, h4) =
      >>=-returned (add_delta d3 (selling maker taker).order.recipient_account_id _) _ _ h3 in
    let (k1, n1) = add_delta-named [] d1 _ _ e1 in
    let (k2, n2) = add_delta-named d1 d2 _ _ e2 in
    let (k3, n3) = add_delta-named d2 d3 _ _ e3 in
    let (k4, n4) = add_delta-named d3 d4 _ _ e4 in
    let (k5, n5) = add_delta-named d4 deltas _ _ h4 in
    let sums : (f : Delta → ℕ) (a : Text)
        → f no_delta ≡ 0
        → ((c d : Delta) → f (sum_delta c d) ≡ f c + f d)
        → moved f deltas a
          ≡ only k1 a (f (record no_delta { base_out = fill.base_amount_atoms }))
            + only k2 a (f (record no_delta { base_in = fill.base_amount_atoms }))
            + only k3 a
                (f (record no_delta { quote_out = quote + buyer_fee maker parameters quote }))
            + only k4 a
                (f (record no_delta { quote_in = quote - seller_fee maker parameters quote }))
            + only k5 a (
                f (record no_delta {
                  quote_in = buyer_fee maker parameters quote + seller_fee maker parameters quote;
                })) =
      λ f a z adds. omega (
        arith,
        moved-add_delta f [] d1 _ k1 _ a z adds n1 e1,
        moved-add_delta f d1 d2 _ k2 _ a z adds n2 e2,
        moved-add_delta f d2 d3 _ k3 _ a z adds n3 e3,
        moved-add_delta f d3 d4 _ k4 _ a z adds n4 e4,
        moved-add_delta f d4 deltas _ k5 _ a z adds n5 h4,
      ) in
    record {
      seller = k1;
      seller_named = n1;
      base_to = k2;
      base_to_named = n2;
      buyer = k3;
      buyer_named = n3;
      quote_to = k4;
      quote_to_named = n4;
      fees_to = k5;
      fees_to_named = n5;
      base = λ a. omega (
        arith,
        (held-apply_deltas before after deltas a applied).0,
        sums (λ d. d.base_in) a refl (λ c d. refl),
        sums (λ d. d.base_out) a refl (λ c d. refl),
        nothing k1 a,
        nothing k2 a,
        nothing k3 a,
        nothing k4 a,
        nothing k5 a,
      );
      quote_atoms = λ a. omega (
        arith,
        (held-apply_deltas before after deltas a applied).1,
        sums (λ d. d.quote_in) a refl (λ c d. refl),
        sums (λ d. d.quote_out) a refl (λ c d. refl),
        nothing k1 a,
        nothing k2 a,
        nothing k3 a,
        nothing k4 a,
        nothing k5 a,
      );
    }
