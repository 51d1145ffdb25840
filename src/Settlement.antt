-- ===== src/Settlement.antt =====
-- src/lib/settlement-accounting.ts: balances, and the settlement of one planned fill. A record that
-- is used as a map is the list of its entries. `hash_order_struct` is `hashOrderStruct`, and
-- `applied_fill_id` the hash of the text joined from its arguments; nothing is assumed of either.
pub mod Settle
pub mod Totals
pub mod Balances
pub mod Conserved
pub mod Limits
mod Examples
use phlebas.Base.{
  ℕ, ◌+◌, ◌-◌, ◌*◌, ◌/◌, Bool, true, false, not, ◌&&◌, ◌||◌, List, [], ◌∷◌, Option, none, some,
  Result, ok, err, ◌>>=◌, ◌>>◌, throw_if, ltb, leb, ◌==◌, if◌then◌else◌, uint256_max, String,
}
use phlebas.Base.Entries.{get_entry, set_entry, or_else}
use phlebas.OrderDomain.{Text, same_text, TypedOrderIntent, normalize_hex32, max_order_fee_bps}
use phlebas.PriceTime.{SequencedOrder, PlannedFill, same_pair, has_text}
use phlebas.Lifecycle.{OrderLifecycleState, OrderActivity, active, inactive, order_activity}

pub record AtomicBalance : Type 0 where
  pub base_atoms : ℕ
  pub quote_atoms : ℕ

abbrev pub no_balance : AtomicBalance
no_balance = record { base_atoms = 0; quote_atoms = 0 }

-- The applied fill IDs are the keys of a map to `true`.
pub record SettlementLedger : Type 0 where
  pub balances : List (Text × AtomicBalance)
  pub filled_base_atoms : List (Text × ℕ)
  pub applied_fill_ids : List Text

pub record SettlementParameters : Type 0 where
  pub now_seconds : ℕ
  pub quote_cost_divisor : ℕ
  pub maker_fee_bps : ℕ
  pub taker_fee_bps : ℕ
  pub fee_recipient_account_id : Text

pub record AppliedSettlement : Type 0 where
  pub ledger : SettlementLedger
  pub fill_id : Text
  pub quote_amount_atoms : ℕ
  pub buyer_fee_atoms : ℕ
  pub seller_fee_atoms : ℕ

abbrev pub has_entry {ℓ} : {V : Type ℓ} → Option V → Bool
has_entry none = false
has_entry (some v) = true

abbrev pub balance_fits : AtomicBalance → Bool
balance_fits b = leb b.base_atoms uint256_max && leb b.quote_atoms uint256_max

abbrev pub amount_fits : ℕ → Bool
amount_fits n = leb n uint256_max

-- A loop that normalizes the keys of a map, with what it has made.
unfoldable pub normalize_entries {ℓ} :
    {V : Type ℓ} → (V → Bool) → List (Text × V) → List (Text × V) → Result (List (Text × V))
normalize_entries fits made [] = ok made
normalize_entries fits made ((key, value) ∷ entries) = normalize_hex32 key >>= λ k.
    throw_if (has_entry (get_entry same_text made k)) "duplicated after normalization"
    >> throw_if (not (fits value)) "must fit uint256"
    >> normalize_entries fits (set_entry same_text made k value) entries

unfoldable pub normalize_ids : List Text → List Text → Result (List Text)
normalize_ids made [] = ok made
normalize_ids made (id ∷ ids) = normalize_hex32 id >>= λ i.
    throw_if (has_text made i) "Applied fill ID is duplicated after normalization"
    >> normalize_ids (i ∷ made) ids

unfoldable pub create_settlement_ledger : List (Text × AtomicBalance) → Result SettlementLedger
create_settlement_ledger balances = normalize_entries balance_fits [] balances >>= λ normalized.
    ok (record { balances = normalized; filled_base_atoms = []; applied_fill_ids = [] })

unfoldable pub balance_of : SettlementLedger → Text → Result AtomicBalance
balance_of ledger account_id = normalize_hex32 account_id >>= λ account.
    ok (or_else (get_entry same_text ledger.balances account) no_balance)

unfoldable pub normalize_settlement_ledger : SettlementLedger → Result SettlementLedger
normalize_settlement_ledger ledger =
    normalize_entries balance_fits [] ledger.balances >>= λ balances.
    normalize_entries amount_fits [] ledger.filled_base_atoms >>= λ filled.
    normalize_ids [] ledger.applied_fill_ids >>= λ ids.
    ok (record { balances = balances; filled_base_atoms = filled; applied_fill_ids = ids })

unfoldable pub divide_up : ℕ → ℕ → ℕ
divide_up numerator denominator = if numerator == 0 then 0 else (numerator - 1) / denominator + 1

unfoldable pub fee_atoms : ℕ → ℕ → ℕ
fee_atoms amount fee_bps = (amount * fee_bps) / 10000

-- The order that buys, or sells, of a maker and a taker.
abbrev pub buying : SequencedOrder → SequencedOrder → SequencedOrder
buying maker taker = if maker.order.side == 0 then maker else taker

abbrev pub selling : SequencedOrder → SequencedOrder → SequencedOrder
selling maker taker = if maker.order.side == 1 then maker else taker

-- Lines 107 to 117, but for the accounts.
unfoldable pub assert_compatible : PlannedFill → SequencedOrder → SequencedOrder → Result (Unit {0})
assert_compatible fill maker taker =
    throw_if (not (fill.maker_sequence == maker.sequence) || leb taker.sequence maker.sequence)
      "Fill violates intake sequencing"
    >> throw_if (not (fill.execution_price_ticks == maker.order.limit_price_ticks))
        "Execution must use the maker price"
    >> throw_if (fill.base_amount_atoms == 0) "Fill amount must be positive"
    >> throw_if (maker.order.side == taker.order.side || not (same_pair maker.order taker.order))
        "Orders are not a compatible opposing pair"

-- Lines 111 to 117.
unfoldable pub assert_accounts : PlannedFill → SequencedOrder → SequencedOrder → Result (Unit {0})
assert_accounts fill maker taker = normalize_hex32 maker.order.maker_account_id >>= λ m.
    normalize_hex32 taker.order.maker_account_id >>= λ t.
    throw_if (same_text m t) "Self-trading is not allowed"
    >> throw_if
        (ltb (buying maker taker).order.limit_price_ticks fill.execution_price_ticks
          || ltb fill.execution_price_ticks (selling maker taker).order.limit_price_ticks)
        "Execution price violates a signed limit"

-- One side of the test of lines 103 and 104: the right one is computed where the left one is false.
unfoldable pub assert_same_hash : Text → Text → Result (Unit {0})
assert_same_hash in_fill in_order = normalize_hex32 in_fill >>= λ f.
    normalize_hex32 in_order >>= λ o.
    throw_if (not (same_text f o)) "Fill order hashes do not match supplied orders"

unfoldable pub assert_fill_shape : PlannedFill → SequencedOrder → SequencedOrder → Result (Unit {0})
assert_fill_shape fill maker taker =
    assert_same_hash fill.maker_order_hash maker.order_hash
    >> assert_same_hash fill.taker_order_hash taker.order_hash
    >> assert_compatible fill maker taker
    >> assert_accounts fill maker taker

-- The quote amount at the maker's price (lines 128 to 131).
abbrev pub at_maker_price : PlannedFill → SequencedOrder → ℕ → ℕ
at_maker_price fill maker divisor =
    if maker.order.side == 1
    then divide_up (fill.base_amount_atoms * fill.execution_price_ticks) divisor
    else (fill.base_amount_atoms * fill.execution_price_ticks) / divisor

-- Lines 124 to 136, with the amounts computed.
unfoldable pub check_quote : ℕ → ℕ → ℕ → Result ℕ
check_quote minimum_for_seller maximum_for_buyer amount =
    throw_if (ltb maximum_for_buyer minimum_for_seller)
      "Fill cannot preserve both signed limits after integer rounding"
    >> throw_if (ltb amount minimum_for_seller || ltb maximum_for_buyer amount)
        "Maker-price rounding violates a signed limit"
    >> throw_if (ltb uint256_max amount) "Settled quote amount exceeds uint256"
    >> ok amount

unfoldable pub quote_for_limits : PlannedFill → SequencedOrder → SequencedOrder → ℕ → Result ℕ
quote_for_limits fill maker taker divisor =
    throw_if (divisor == 0 || ltb uint256_max divisor)
      "Quote cost divisor must be a positive uint256"
    >> check_quote
        (divide_up (fill.base_amount_atoms * (selling maker taker).order.limit_price_ticks) divisor)
        ((fill.base_amount_atoms * (buying maker taker).order.limit_price_ticks) / divisor)
        (at_maker_price fill maker divisor)

-- A signed amount, as what comes in and what goes out.
pub record Delta : Type 0 where
  pub base_in : ℕ
  pub base_out : ℕ
  pub quote_in : ℕ
  pub quote_out : ℕ

abbrev pub no_delta : Delta
no_delta = record { base_in = 0; base_out = 0; quote_in = 0; quote_out = 0 }

abbrev pub sum_delta : Delta → Delta → Delta
sum_delta c d = record {
  base_in = c.base_in + d.base_in;
  base_out = c.base_out + d.base_out;
  quote_in = c.quote_in + d.quote_in;
  quote_out = c.quote_out + d.quote_out;
}

unfoldable pub add_delta : List (Text × Delta) → Text → Delta → Result (List (Text × Delta))
add_delta deltas account_id delta = normalize_hex32 account_id >>= λ account. ok (
    set_entry same_text deltas account
      (sum_delta (or_else (get_entry same_text deltas account) no_delta) delta))

abbrev pub balance_after : AtomicBalance → Delta → AtomicBalance
balance_after current delta = record {
  base_atoms = current.base_atoms + delta.base_in - delta.base_out;
  quote_atoms = current.quote_atoms + delta.quote_in - delta.quote_out;
}

unfoldable pub apply_delta : AtomicBalance → Delta → Result AtomicBalance
apply_delta current delta =
    throw_if
      (ltb (current.base_atoms + delta.base_in) delta.base_out
        || ltb (current.quote_atoms + delta.quote_in) delta.quote_out)
      "Settlement account has insufficient atomic balance"
    >> throw_if (not (balance_fits (balance_after current delta)))
        "Settlement balance exceeds uint256"
    >> ok (balance_after current delta)

unfoldable pub apply_deltas :
    List (Text × AtomicBalance) → List (Text × Delta) → Result (List (Text × AtomicBalance))
apply_deltas balances [] = ok balances
apply_deltas balances ((account, delta) ∷ deltas) =
    apply_delta (or_else (get_entry same_text balances account) no_balance) delta >>= λ next.
    apply_deltas (set_entry same_text balances account next) deltas
