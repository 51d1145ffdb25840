-- ===== src/Settlement/Settle.antt =====
-- `settlePlannedFill` of src/lib/settlement-accounting.ts.
use phlebas.Base.{
  ℕ, ◌+◌, ◌-◌, Bool, true, false, not, ◌||◌, List, [], ◌∷◌, Result, ok, ◌>>=◌, ◌>>◌, throw_if, ltb,
  ◌==◌, if◌then◌else◌, uint256_max,
}
use phlebas.Base.Entries.{get_entry, set_entry, or_else}
use phlebas.OrderDomain.{Text, same_text, TypedOrderIntent, normalize_hex32, max_order_fee_bps}
use phlebas.PriceTime.{SequencedOrder, PlannedFill, has_text}
use phlebas.Lifecycle.{OrderLifecycleState, OrderActivity, active, inactive, order_activity}
use phlebas.Settlement.{
  AtomicBalance, SettlementLedger, SettlementParameters, AppliedSettlement, Delta, no_delta,
  normalize_settlement_ledger, assert_fill_shape, quote_for_limits, fee_atoms, buying, selling,
  add_delta, apply_deltas,
}

abbrev pub is_inactive : OrderActivity → Bool
is_inactive active = false
is_inactive (inactive reason) = true

abbrev pub filled_of : SettlementLedger → Text → ℕ
filled_of ledger hash = or_else (get_entry same_text ledger.filled_base_atoms hash) 0

-- Lines 175 to 186.
unfoldable pub check_amounts : ℕ → PlannedFill → SequencedOrder → Result (Unit {0})
check_amounts filled fill sequenced =
    throw_if (ltb sequenced.order.base_amount_atoms filled || ltb uint256_max filled)
      "prior filled amount is outside the signed order"
    >> throw_if
        (ltb sequenced.order.base_amount_atoms sequenced.remaining_base_atoms
          || ltb uint256_max sequenced.remaining_base_atoms)
        "remaining amount is outside the signed order"
    >> throw_if (not (sequenced.remaining_base_atoms == sequenced.order.base_amount_atoms - filled))
        "remaining amount does not reconcile"
    >> throw_if (ltb sequenced.remaining_base_atoms fill.base_amount_atoms)
        "order would be overfilled"

-- The fees, for the side that the maker is on (lines 196 to 205).
abbrev pub buyer_fee : SequencedOrder → SettlementParameters → ℕ → ℕ
buyer_fee maker parameters quote =
    if maker.order.side == 0
    then fee_atoms quote parameters.maker_fee_bps
    else fee_atoms quote parameters.taker_fee_bps

abbrev pub seller_fee : SequencedOrder → SettlementParameters → ℕ → ℕ
seller_fee maker parameters quote =
    if maker.order.side == 1
    then fee_atoms quote parameters.maker_fee_bps
    else fee_atoms quote parameters.taker_fee_bps

-- Lines 188 to 193.
unfoldable pub check_fee_caps :
    SequencedOrder → SequencedOrder → SettlementParameters → Result (Unit {0})
check_fee_caps maker taker parameters =
    throw_if
      (ltb max_order_fee_bps parameters.maker_fee_bps
        || ltb maker.order.maximum_fee_bps parameters.maker_fee_bps)
      "Maker fee exceeds its signed or protocol cap"
    >> throw_if
        (ltb max_order_fee_bps parameters.taker_fee_bps
          || ltb taker.order.maximum_fee_bps parameters.taker_fee_bps)
        "Taker fee exceeds its signed or protocol cap"

-- Lines 198 to 205.
unfoldable pub check_debits : SequencedOrder → SettlementParameters → ℕ → Result (Unit {0})
check_debits maker parameters quote =
    throw_if
      (ltb uint256_max (quote + fee_atoms quote parameters.maker_fee_bps)
        || ltb uint256_max (quote + fee_atoms quote parameters.taker_fee_bps))
      "Settlement debit exceeds uint256"
    >> throw_if (ltb quote (seller_fee maker parameters quote))
        "Seller fee exceeds settled quote output"

-- Lines 220 to 225.
unfoldable pub settlement_deltas :
    PlannedFill
    → SequencedOrder
    → SequencedOrder
    → SettlementParameters
    → ℕ
    → Result (List (Text × Delta))
settlement_deltas fill maker taker parameters quote =
    add_delta [] (selling maker taker).order.maker_account_id
      (record no_delta { base_out = fill.base_amount_atoms })
    >>= λ d1.
        add_delta d1 (buying maker taker).order.recipient_account_id
          (record no_delta { base_in = fill.base_amount_atoms })
        >>= λ d2.
            add_delta d2 (buying maker taker).order.maker_account_id
              (record no_delta { quote_out = quote + buyer_fee maker parameters quote })
            >>= λ d3.
                add_delta d3 (selling maker taker).order.recipient_account_id
                  (record no_delta { quote_in = quote - seller_fee maker parameters quote })
                >>= λ d4. add_delta d4 parameters.fee_recipient_account_id (record no_delta {
                  quote_in = buyer_fee maker parameters quote + seller_fee maker parameters quote;
                })

-- The ledger of lines 232 to 240, with the new balances.
abbrev pub settled_ledger :
    SettlementLedger
    → PlannedFill
    → Text
    → Text
    → Text
    → List (Text × AtomicBalance)
    → SettlementLedger
settled_ledger ledger fill maker_hash taker_hash fill_id balances = record {
  balances = balances;
  filled_base_atoms =
      set_entry same_text
        (set_entry same_text ledger.filled_base_atoms maker_hash
          (filled_of ledger maker_hash + fill.base_amount_atoms))
        taker_hash (filled_of ledger taker_hash + fill.base_amount_atoms);
  applied_fill_ids = fill_id ∷ ledger.applied_fill_ids;
}

-- Lines 218 to 241.
unfoldable pub apply_fill :
    SettlementLedger
    → PlannedFill
    → SequencedOrder
    → SequencedOrder
    → SettlementParameters
    → Text
    → Text
    → Text
    → ℕ
    → Result AppliedSettlement
apply_fill ledger fill maker taker parameters maker_hash taker_hash fill_id quote =
    throw_if (has_text ledger.applied_fill_ids fill_id) "Fill replayed"
    >> settlement_deltas fill maker taker parameters quote
    >>= λ deltas. apply_deltas ledger.balances deltas >>= λ balances. ok (record {
      ledger = settled_ledger ledger fill maker_hash taker_hash fill_id balances;
      fill_id = fill_id;
      quote_amount_atoms = quote;
      buyer_fee_atoms = buyer_fee maker parameters quote;
      seller_fee_atoms = seller_fee maker parameters quote;
    })

module _ (hash_order_struct : TypedOrderIntent → Result Text)
    (applied_fill_id : Text → Text → ℕ → ℕ → ℕ → ℕ → Text) where
  -- The loop's body for one of the two orders (lines 172 to 186).
  unfoldable pub check_order :
      SettlementLedger → OrderLifecycleState → PlannedFill → ℕ → SequencedOrder → Result (Unit {0})
  check_order ledger lifecycle fill now_seconds sequenced =
      normalize_hex32 sequenced.order_hash >>= λ hash.
      order_activity hash_order_struct lifecycle hash sequenced.order now_seconds >>= λ activity.
      throw_if (is_inactive activity) "order is not active"
      >> check_amounts (filled_of ledger hash) fill sequenced

  unfoldable pub settle_planned_fill :
      SettlementLedger
      → OrderLifecycleState
      → PlannedFill
      → SequencedOrder
      → SequencedOrder
      → SettlementParameters
      → Result AppliedSettlement
  settle_planned_fill given lifecycle fill maker taker parameters =
      normalize_settlement_ledger given >>= λ ledger.
      assert_fill_shape fill maker taker >> normalize_hex32 maker.order_hash >>= λ maker_hash.
      normalize_hex32 taker.order_hash >>= λ taker_hash.
      check_order ledger lifecycle fill parameters.now_seconds maker
      >> check_order ledger lifecycle fill parameters.now_seconds taker
      >> check_fee_caps maker taker parameters
      >> quote_for_limits fill maker taker parameters.quote_cost_divisor
      >>= λ quote.
          check_debits maker parameters quote
          >> apply_fill ledger fill maker taker parameters maker_hash taker_hash
              (applied_fill_id maker_hash taker_hash (filled_of ledger maker_hash)
                (filled_of ledger taker_hash) fill.base_amount_atoms fill.execution_price_ticks)
              quote
