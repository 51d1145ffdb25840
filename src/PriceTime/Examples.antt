-- ===== src/PriceTime/Examples.antt =====
-- Runs of the planner of src/lib/price-time.ts on concrete orders.
use phlebas.Base.{ℕ, zero, suc, ◌+◌, ◌≡◌, refl, List, [], ◌∷◌, ok, Returns, Yields, arith, map}
use phlebas.OrderDomain.{Text, TypedOrderIntent, normalize_hex32, same_text, is_hex_bytes}
use phlebas.Base.Text.{all_in}
use phlebas.PriceTime.{
  SequencedOrder, MatchPlan, filled, fok_rejected, normalize_orders, filter_orders,
  sort_by_priority, fill_orders, plan_price_time_matches, same_pair, crosses, may_trade, may_match,
  has_number, has_text, check_resting, goes_first, insert_by_priority, conclude, candidates_of,
}
use phlebas.PriceTime.Priority.{Queued, sort_by_priority-Queued}
use phlebas.PriceTime.Fills.{Filled, fill_orders-Filled}
use phlebas.PriceTime.Plan.{
  Planned, plan_price_time_matches-Planned, plan_price_time_matches-returns,
}

abbrev repeated : ℕ → ℕ → Text
repeated zero c = []
repeated (suc n) c = c ∷ repeated n c

abbrev hash_of : ℕ → Text
hash_of c = b'0' ∷ b'x' ∷ repeated 64 c

-- Of the account `account`: an order of `side` for 10 atoms at `price`.
abbrev order_of : ℕ → ℕ → ℕ → ℕ → TypedOrderIntent
order_of account side price time_in_force = record {
  maker_account_id = hash_of account;
  authorized_signer_id = hash_of account;
  base_chain_id = hash_of b'1';
  base_asset_id = hash_of b'2';
  quote_chain_id = hash_of b'1';
  quote_asset_id = hash_of b'3';
  side = side;
  base_amount_atoms = 10;
  limit_price_ticks = price;
  nonce = 1;
  account_epoch = 0;
  expiry = 2000000000;
  salt = hash_of b'9';
  recipient_account_id = hash_of account;
  time_in_force = time_in_force;
  maximum_fee_bps = 0;
  allowed_venues = 1;
  settlement_adapter_id = hash_of b'5';
}

abbrev resting_at : ℕ → ℕ → ℕ → SequencedOrder
resting_at sequence price remaining = record {
  order_hash = hash_of (b'a' + sequence);
  sequence = sequence;
  order = order_of b'6' 1 price 0;
  remaining_base_atoms = remaining;
}

-- Two offers at 7 and one at 6; the one at 9 does not cross.
abbrev offers : List SequencedOrder
offers = resting_at 3 7 2 ∷ resting_at 1 7 3 ∷ resting_at 4 9 9 ∷ resting_at 2 6 1 ∷ []

abbrev crossing_offers : List SequencedOrder
crossing_offers = resting_at 3 7 2 ∷ resting_at 1 7 3 ∷ resting_at 2 6 1 ∷ []

abbrev buyer : ℕ → ℕ → SequencedOrder
buyer remaining time_in_force = record {
  order_hash = hash_of b'F';
  sequence = 5;
  order = order_of b'7' 0 8 time_in_force;
  remaining_base_atoms = remaining;
}

abbrev buyer_hash : Text
buyer_hash = hash_of b'f'

steps : ℕ
unfolding all_in same_text is_hex_bytes normalize_hex32 normalize_orders same_pair crosses may_trade
    may_match has_number has_text check_resting filter_orders goes_first insert_by_priority
    sort_by_priority fill_orders conclude candidates_of plan_price_time_matches
steps = 0

normalized : normalize_orders offers ≡ ok offers
unfolding steps
normalized = refl

filtered : filter_orders (buyer 5 0) (5 ∷ []) (buyer_hash ∷ []) offers ≡ ok crossing_offers
unfolding steps
filtered = refl

buyer_normal : normalize_hex32 (buyer 5 0).order_hash ≡ ok buyer_hash
unfolding steps
buyer_normal = refl

-- The cheapest offer first, then the earlier one of the two at 7.
abbrev makers_of : MatchPlan → List ℕ
makers_of plan = map (λ f. f.maker_sequence) plan.fills

three_fills :
    Returns
      (λ plan.
        (makers_of plan ≡ 2 ∷ 1 ∷ 3 ∷ [])
        × (plan.status ≡ filled)
        × (plan.remaining_base_atoms ≡ 0))
      (plan_price_time_matches (buyer 5 0) offers)
unfolding steps
three_fills = (refl, refl, refl)

too_much_for_fill_or_kill :
    Returns
      (λ plan. (plan.fills ≡ []) × (plan.status ≡ fok_rejected) × (plan.remaining_base_atoms ≡ 7))
      (plan_price_time_matches (buyer 7 2) offers)
unfolding steps
too_much_for_fill_or_kill = (refl, refl, refl)

sort_by_priority-Queued_example :
    Returns (Queued (buyer 5 0) crossing_offers) (sort_by_priority 0 crossing_offers)
sort_by_priority-Queued_example =
    sort_by_priority-Queued (buyer 5 0) (5 ∷ []) (buyer_hash ∷ []) offers crossing_offers filtered

fill_orders-Filled_example :
    Filled buyer_hash 5 crossing_offers (fill_orders buyer_hash 5 crossing_offers)
fill_orders-Filled_example =
    fill_orders-Filled buyer_hash 5 crossing_offers (ground arith) ground arith

plan_price_time_matches-Planned_example :
    Yields
      (λ plan.
        (hash : Text) × (normalize_hex32 (buyer 5 0).order_hash ≡ ok hash)
        × Planned hash (buyer 5 0) offers plan)
      (plan_price_time_matches (buyer 5 0) offers)
plan_price_time_matches-Planned_example = plan_price_time_matches-Planned (buyer 5 0) offers

plan_price_time_matches-returns_example :
    (plan : MatchPlan) × (plan_price_time_matches (buyer 5 0) offers ≡ ok plan)
plan_price_time_matches-returns_example =
    plan_price_time_matches-returns (buyer 5 0) offers offers crossing_offers buyer_hash
      buyer_normal (ground arith) (ground arith) (ground arith) (ground arith) normalized filtered
