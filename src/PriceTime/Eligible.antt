-- ===== src/PriceTime/Eligible.antt =====
-- The candidates of src/lib/price-time.ts: whom the filter keeps.
use phlebas.Base.{
  ℕ, ◌≡◌, refl, ap, subst, ◌≢◌, ◌⊎◌, sym, ◌∙◌, ◌≤◌, ◌<◌, Bool, true, false, not, ◌&&◌, List, [],
  ◌∷◌, ok, ◌>>◌, ltb, ◌==◌, if◌then◌else◌, arith, inl, inr, All, All-mono, Ordered, Bool-cases,
  >>=-returned, >>-returned, ok-injective,
}
use phlebas.OrderDomain.{Text, same_text, TypedOrderIntent, normalize_hex32}
use phlebas.OrderDomain.Canonical.{same_text_iff}
use phlebas.PriceTime.{
  SequencedOrder, same_pair, crosses, may_trade, may_match, has_number, check_resting,
  filter_orders,
}

abbrev pub SamePair : TypedOrderIntent → TypedOrderIntent → Type 0
SamePair l r =
    (l.base_chain_id ≡ r.base_chain_id)
    × (l.base_asset_id ≡ r.base_asset_id)
    × (l.quote_chain_id ≡ r.quote_chain_id)
    × (l.quote_asset_id ≡ r.quote_asset_id)
    × (l.settlement_adapter_id ≡ r.settlement_adapter_id)

-- A buyer pays at least the seller's limit.
abbrev pub Crosses : TypedOrderIntent → TypedOrderIntent → Type 0
Crosses taker maker =
    ((taker.side ≡ 0) × (maker.limit_price_ticks ≤ taker.limit_price_ticks))
    ⊎ ((taker.side ≢ 0) × (taker.limit_price_ticks ≤ maker.limit_price_ticks))

-- An order that the taker may trade with: it rests, from another account's earlier order on the
-- other side of the same pair, with an amount left, at a price that crosses.
pub record Eligible (taker c : SequencedOrder) : Type 0 where
  pub earlier : c.sequence < taker.sequence
  pub rests : c.order.time_in_force ≡ 0
  pub other_side : c.order.side ≢ taker.order.side
  pub other_account :
      normalize_hex32 c.order.maker_account_id ≢ normalize_hex32 taker.order.maker_account_id
  pub open_amount : 0 < c.remaining_base_atoms
  pub amount_bound : c.remaining_base_atoms ≤ c.order.base_amount_atoms
  pub pair : SamePair c.order taker.order
  pub crossing : Crosses taker.order c.order

same_pair-SamePair : (l r : TypedOrderIntent) → same_pair l r ≡ true → SamePair l r
unfolding same_pair
same_pair-SamePair l r h = ground (
  arith,
  same_text_iff l.base_chain_id r.base_chain_id,
  same_text_iff l.base_asset_id r.base_asset_id,
  same_text_iff l.quote_chain_id r.quote_chain_id,
  same_text_iff l.quote_asset_id r.quote_asset_id,
  same_text_iff l.settlement_adapter_id r.settlement_adapter_id,
)

crosses-Crosses :
    (taker maker : TypedOrderIntent) → crosses taker maker ≡ true → Crosses taker maker
unfolding crosses
crosses-Crosses taker maker h = ground arith

may_trade_parts :
    (maker account : Text) (l r : TypedOrderIntent)
    → not (same_text maker account) && same_pair l r && crosses r l ≡ true
    → (maker ≢ account) × SamePair l r × Crosses r l
may_trade_parts maker account l r h =
    let p : same_text maker account ≡ false = ground arith in
    let q : same_pair l r ≡ true = ground arith in
    let c : crosses r l ≡ true = ground arith in
    (ground (arith, same_text_iff maker account), same_pair-SamePair l r q, crosses-Crosses r l c)

-- What the throwing part of the test shows where it returns true.
may_trade-true :
    (taker c : SequencedOrder)
    → may_trade taker c ≡ ok true
    → (normalize_hex32 c.order.maker_account_id ≢ normalize_hex32 taker.order.maker_account_id)
      × SamePair c.order taker.order
      × Crosses taker.order c.order
unfolding may_trade
may_trade-true taker c h =
    let (maker, e, h1) = >>=-returned (normalize_hex32 c.order.maker_account_id) _ _ h in
    let (account, f, h2) = >>=-returned (normalize_hex32 taker.order.maker_account_id) _ _ h1 in
    let (differ, pair, crossing) =
      may_trade_parts maker account c.order taker.order (ok-injective h2) in
    (λ q. differ (ok-injective (sym e ∙ q ∙ f)), pair, crossing)

ok_false : ok false ≡ ok true → ⊥
ok_false h = cc

may_match-Eligible :
    (taker c : SequencedOrder)
    → 0 < c.remaining_base_atoms
    → c.remaining_base_atoms ≤ c.order.base_amount_atoms
    → may_match taker c ≡ ok true
    → Eligible taker c
unfolding may_match
may_match-Eligible taker c p b h =
    elim (Bool-cases (
      ltb c.sequence taker.sequence
      && c.order.time_in_force == 0
      && not (c.order.side == taker.order.side))) [
        | inl e ↦
            let early : c.sequence < taker.sequence = ground arith in
            let resting : c.order.time_in_force ≡ 0 = ground arith in
            let side : c.order.side ≢ taker.order.side = ground arith in
            let (account, pair, crossing) = may_trade-true taker c (simp e at h) in
            record {
              earlier = early;
              rests = resting;
              other_side = side;
              other_account = account;
              open_amount = p;
              amount_bound = b;
              pair = pair;
              crossing = crossing;
            }
        | inr e ↦ absurd (ok_false (simp e at h))
      ]

check_resting-returned :
    (sequences : List ℕ) (hashes : List Text) (c : SequencedOrder)
    → check_resting sequences hashes c ≡ ok tt
    → (has_number sequences c.sequence ≡ false)
      × (0 < c.remaining_base_atoms)
      × (c.remaining_base_atoms ≤ c.order.base_amount_atoms)
unfolding check_resting
check_resting-returned sequences hashes c h = ground arith

-- Two orders that came in at different times.
abbrev pub Apart : SequencedOrder → SequencedOrder → Type 0
Apart x y = x.sequence ≢ y.sequence

abbrev Unseen : List ℕ → SequencedOrder → Type 0
Unseen sequences c = has_number sequences c.sequence ≡ false

Unseen-cons :
    (c x : SequencedOrder) (sequences : List ℕ)
    → Unseen (c.sequence ∷ sequences) x
    → Unseen sequences x × Apart c x
unfolding has_number
Unseen-cons c x sequences h = ground arith

-- Eligible orders only, none of a sequence seen before, and no two of one intake sequence.
abbrev pub Kept : SequencedOrder → List ℕ → List SequencedOrder → Type 0
Kept taker sequences kept =
    All (Eligible taker) kept × All (Unseen sequences) kept × Ordered Apart kept

push-Kept :
    (taker c : SequencedOrder) (sequences : List ℕ) (rest : List SequencedOrder) (keeps : Bool)
    → Unseen sequences c
    → (keeps ≡ true → Eligible taker c)
    → All (Eligible taker) rest
    → All (Unseen (c.sequence ∷ sequences)) rest
    → Ordered Apart rest
    → Kept taker sequences (if keeps then c ∷ rest else rest)
push-Kept taker c sequences rest true unseen eligible es fs os = (
  (eligible refl, es),
  (unseen, All-mono (λ x u. (Unseen-cons c x sequences u).0) rest fs),
  (All-mono (λ x u. (Unseen-cons c x sequences u).1) rest fs, os),
)
push-Kept taker c sequences rest false unseen eligible es fs os =
    (es, All-mono (λ x u. (Unseen-cons c x sequences u).0) rest fs, os)

pub filter_orders-Eligible :
    (taker : SequencedOrder) (sequences : List ℕ) (hashes : List Text)
    (cs kept : List SequencedOrder)
    → filter_orders taker sequences hashes cs ≡ ok kept
    → Kept taker sequences kept
unfolding filter_orders
filter_orders-Eligible taker sequences hashes [] kept h =
    subst (Kept taker sequences) (ok-injective h) (tt, tt, tt)
filter_orders-Eligible taker sequences hashes (c ∷ cs) kept h =
    let (keeps, e, h1) =
      >>=-returned (check_resting sequences hashes c >> may_match taker c) _ _ h in
    let (checked, matched) = >>-returned (check_resting sequences hashes c) _ _ e in
    let (unseen, open_amount, bound) = check_resting-returned sequences hashes c checked in
    let (rest, f, last) =
      >>=-returned (filter_orders taker (c.sequence ∷ sequences) (c.order_hash ∷ hashes) cs) _ _
        h1 in
    let (eligible, fresh, apart) =
      filter_orders-Eligible taker (c.sequence ∷ sequences) (c.order_hash ∷ hashes) cs rest f in
    subst (Kept taker sequences) (ok-injective last) (
      push-Kept taker c sequences rest keeps unseen
        (λ k. may_match-Eligible taker c open_amount bound (matched ∙ ap ok k)) eligible fresh
        apart)
