-- ===== src/Settlement/Examples.antt =====
-- Runs of src/lib/settlement-accounting.ts, and its theorems at a concrete fill. The hash of an
-- order is its salt, and the fill ID is the maker's hash.
use phlebas.Base.{ℕ, zero, suc, ◌≡◌, refl, [], ◌∷◌, Result, ok, err}
use phlebas.Base.Text.{all_in}
use phlebas.Base.Entries.{get_entry, set_entry}
use phlebas.OrderDomain.{Text, TypedOrderIntent, same_text, is_hex_bytes, normalize_hex32}
use phlebas.PriceTime.{SequencedOrder, PlannedFill, same_pair, has_text}
use phlebas.Lifecycle.{
  OrderLifecycleState, empty_order_lifecycle, same_key, active_account_epoch, order_nonce_key,
  claim_key, accepted_activity, claim_order_nonce, order_activity,
}
use phlebas.Settlement.{
  SettlementLedger, SettlementParameters, AppliedSettlement, normalize_entries, normalize_ids,
  normalize_settlement_ledger, create_settlement_ledger, balance_of, divide_up, fee_atoms,
  assert_compatible, assert_accounts, assert_same_hash, assert_fill_shape, check_quote,
  quote_for_limits, add_delta, apply_delta, apply_deltas,
}
use phlebas.Settlement.Settle.{
  check_amounts, check_fee_caps, check_debits, settlement_deltas, apply_fill, check_order,
  settle_planned_fill,
}
use phlebas.Settlement.Conserved.{Conserves, settle_planned_fill-Conserves}
use phlebas.Settlement.Limits.{Honours, settle_planned_fill-Honours}

abbrev repeated : ℕ → ℕ → Text
repeated zero c = []
repeated (suc n) c = c ∷ repeated n c

abbrev hash_of : ℕ → Text
hash_of c = b'0' ∷ b'x' ∷ repeated 64 c

abbrev order_of : ℕ → ℕ → ℕ → TypedOrderIntent
order_of account side price = record {
  maker_account_id = hash_of account;
  authorized_signer_id = hash_of account;
  base_chain_id = hash_of b'1';
  base_asset_id = hash_of b'2';
  quote_chain_id = hash_of b'1';
  quote_asset_id = hash_of b'3';
  side = side;
  base_amount_atoms = 10000;
  limit_price_ticks = price;
  nonce = 1;
  account_epoch = 0;
  expiry = 2000;
  salt = hash_of b'9';
  recipient_account_id = hash_of account;
  time_in_force = 0;
  maximum_fee_bps = 30;
  allowed_venues = 1;
  settlement_adapter_id = hash_of b'5';
}

abbrev maker : SequencedOrder
maker = record {
  order_hash = hash_of b'a';
  sequence = 1;
  order = order_of b'6' 1 20000;
  remaining_base_atoms = 10000;
}

abbrev taker : SequencedOrder
taker = record {
  order_hash = hash_of b'b';
  sequence = 2;
  order = order_of b'7' 0 30000;
  remaining_base_atoms = 10000;
}

abbrev fill : PlannedFill
fill = record {
  maker_order_hash = hash_of b'a';
  taker_order_hash = hash_of b'b';
  maker_sequence = 1;
  execution_price_ticks = 20000;
  base_amount_atoms = 4000;
}

abbrev parameters : SettlementParameters
parameters = record {
  now_seconds = 1000;
  quote_cost_divisor = 10000;
  maker_fee_bps = 10;
  taker_fee_bps = 30;
  fee_recipient_account_id = hash_of b'8';
}

abbrev ledger : SettlementLedger
ledger = record {
  balances =
      (hash_of b'6', record { base_atoms = 10000; quote_atoms = 0 })
      ∷ (hash_of b'7', record { base_atoms = 0; quote_atoms = 50000 })
      ∷ [];
  filled_base_atoms = [];
  applied_fill_ids = [];
}

abbrev hash_order : TypedOrderIntent → Result Text
hash_order order = ok order.salt

abbrev fill_id_of : Text → Text → ℕ → ℕ → ℕ → ℕ → Text
fill_id_of maker_hash taker_hash a b c d = maker_hash

abbrev value_of : Result OrderLifecycleState → OrderLifecycleState
value_of (ok s) = s
value_of (err e) = empty_order_lifecycle

abbrev lifecycle : OrderLifecycleState
lifecycle = value_of (
    claim_order_nonce hash_order
      (value_of
        (claim_order_nonce hash_order empty_order_lifecycle (hash_of b'a') (order_of b'6' 1 20000)))
      (hash_of b'b') (order_of b'7' 0 30000))

abbrev applied : AppliedSettlement
applied = record {
  ledger = record {
    balances =
        (hash_of b'6', record { base_atoms = 6000; quote_atoms = 7992 })
        ∷ (hash_of b'7', record { base_atoms = 4000; quote_atoms = 41976 })
        ∷ (hash_of b'8', record { base_atoms = 0; quote_atoms = 32 })
        ∷ [];
    filled_base_atoms = (hash_of b'a', 4000) ∷ (hash_of b'b', 4000) ∷ [];
    applied_fill_ids = hash_of b'a' ∷ [];
  };
  fill_id = hash_of b'a';
  quote_amount_atoms = 8000;
  buyer_fee_atoms = 24;
  seller_fee_atoms = 8;
}

steps : ℕ
unfolding all_in get_entry set_entry same_text is_hex_bytes normalize_hex32 same_pair has_text
    same_key active_account_epoch order_nonce_key claim_key accepted_activity claim_order_nonce
    order_activity normalize_entries normalize_ids normalize_settlement_ledger
    create_settlement_ledger balance_of divide_up fee_atoms assert_compatible assert_accounts
    assert_same_hash assert_fill_shape check_quote quote_for_limits add_delta apply_delta
    apply_deltas check_amounts check_fee_caps check_debits settlement_deltas apply_fill check_order
    settle_planned_fill
steps = 0

settles :
    settle_planned_fill hash_order fill_id_of ledger lifecycle fill maker taker parameters
    ≡ ok applied
unfolding steps
settles = refl

created : create_settlement_ledger ledger.balances ≡ ok ledger
unfolding steps
created = refl

balance_of_buyer :
    balance_of ledger (hash_of b'7') ≡ ok (record { base_atoms = 0; quote_atoms = 50000 })
unfolding steps
balance_of_buyer = refl

settle_planned_fill-Conserves_example : Conserves ledger applied.ledger
settle_planned_fill-Conserves_example =
    settle_planned_fill-Conserves hash_order fill_id_of ledger lifecycle fill maker taker parameters
      applied settles

settle_planned_fill-Honours_example :
    (normal : SettlementLedger) × (normalize_settlement_ledger ledger ≡ ok normal)
    × Honours normal fill maker taker parameters applied
settle_planned_fill-Honours_example =
    settle_planned_fill-Honours hash_order fill_id_of ledger lifecycle fill maker taker parameters
      applied settles
