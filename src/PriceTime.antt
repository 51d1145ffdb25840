-- ===== src/PriceTime.antt =====
-- src/lib/price-time.ts: the order in which a taker meets the resting orders.
pub mod Eligible
pub mod Fills
pub mod Priority
pub mod Plan
mod Examples
use phlebas.Base.{
  ℕ, ◌+◌, ◌-◌, Bool, true, false, not, ◌&&◌, ◌||◌, List, [], ◌∷◌, Result, ok, err, ◌>>=◌, ◌>>◌,
  throw_if, ltb, leb, ◌==◌, if◌then◌else◌, uint64_max,
}
use phlebas.OrderDomain.{Text, same_text, TypedOrderIntent, normalize_hex32}

pub record SequencedOrder : Type 0 where
  pub order_hash : Text
  pub sequence : ℕ
  pub order : TypedOrderIntent
  pub remaining_base_atoms : ℕ

pub record PlannedFill : Type 0 where
  pub maker_order_hash : Text
  pub taker_order_hash : Text
  pub maker_sequence : ℕ
  pub execution_price_ticks : ℕ
  pub base_amount_atoms : ℕ

pub data PlanStatus : Type 0 where
  filled partial unfilled fok_rejected : PlanStatus

pub record MatchPlan : Type 0 where
  pub fills : List PlannedFill
  pub remaining_base_atoms : ℕ
  pub status : PlanStatus

unfoldable pub same_pair : TypedOrderIntent → TypedOrderIntent → Bool
same_pair left right =
    same_text left.base_chain_id right.base_chain_id
    && same_text left.base_asset_id right.base_asset_id
    && same_text left.quote_chain_id right.quote_chain_id
    && same_text left.quote_asset_id right.quote_asset_id
    && same_text left.settlement_adapter_id right.settlement_adapter_id

unfoldable pub crosses : TypedOrderIntent → TypedOrderIntent → Bool
crosses taker maker =
    if taker.side == 0
    then leb maker.limit_price_ticks taker.limit_price_ticks
    else leb taker.limit_price_ticks maker.limit_price_ticks

-- `comparePriority`, below 0: whether `left` goes first.
unfoldable pub goes_first : ℕ → SequencedOrder → SequencedOrder → Result Bool
goes_first side left right =
    if not (left.order.limit_price_ticks == right.order.limit_price_ticks)
    then ok (
        if side == 0
        then ltb left.order.limit_price_ticks right.order.limit_price_ticks
        else ltb right.order.limit_price_ticks left.order.limit_price_ticks)
    else if left.sequence == right.sequence
    then err "Resting orders cannot share an intake sequence"
    else ok (ltb left.sequence right.sequence)

-- `sort` with this comparator, which may throw: an insertion sort.
unfoldable pub insert_by_priority :
    ℕ → SequencedOrder → List SequencedOrder → Result (List SequencedOrder)
insert_by_priority side x [] = ok (x ∷ [])
insert_by_priority side x (y ∷ ys) = elim (goes_first side x y) [
  | err e ↦ err e
  | ok first ↦ elim first [
    | true ↦ ok (x ∷ y ∷ ys)
    | false ↦ insert_by_priority side x ys >>= λ rest. ok (y ∷ rest)
  ]
]

unfoldable pub sort_by_priority : ℕ → List SequencedOrder → Result (List SequencedOrder)
sort_by_priority side [] = ok []
sort_by_priority side (x ∷ xs) = sort_by_priority side xs >>= λ ys. insert_by_priority side x ys

-- The `map` of line 60.
unfoldable pub normalize_orders : List SequencedOrder → Result (List SequencedOrder)
normalize_orders [] = ok []
normalize_orders (c ∷ cs) = normalize_hex32 c.order_hash >>= λ hash.
    normalize_orders cs >>= λ rest. ok (record c { order_hash = hash } ∷ rest)

-- `has` of a set of numbers, or of texts.
unfoldable pub has_number : List ℕ → ℕ → Bool
has_number [] n = false
has_number (m ∷ ms) n = m == n || has_number ms n

unfoldable pub has_text : List Text → Text → Bool
has_text [] t = false
has_text (u ∷ us) t = same_text u t || has_text us t

-- The parts of the filter's conjunction that are computed where the first three hold: only they
-- can throw.
unfoldable pub may_trade : SequencedOrder → SequencedOrder → Result Bool
may_trade taker c = normalize_hex32 c.order.maker_account_id >>= λ maker.
    normalize_hex32 taker.order.maker_account_id >>= λ account.
    ok (
      not (same_text maker account) && same_pair c.order taker.order && crosses taker.order c.order)

unfoldable pub may_match : SequencedOrder → SequencedOrder → Result Bool
may_match taker c =
    if ltb c.sequence taker.sequence
      && c.order.time_in_force == 0
      && not (c.order.side == taker.order.side)
    then may_trade taker c
    else ok false

-- The guards of the filter's callback.
unfoldable pub check_resting : List ℕ → List Text → SequencedOrder → Result (Unit {0})
check_resting sequences hashes c =
    throw_if (c.sequence == 0 || ltb uint64_max c.sequence)
      "Maker sequence must be a positive uint64"
    >> throw_if (has_number sequences c.sequence) "Resting intake sequence is duplicated"
    >> throw_if (has_text hashes c.order_hash) "Resting order hash is duplicated"
    >> throw_if
        (c.remaining_base_atoms == 0 || ltb c.order.base_amount_atoms c.remaining_base_atoms)
        "Maker remaining amount is invalid"

-- The `filter`, with the two sets that its callback adds to.
unfoldable pub filter_orders :
    SequencedOrder → List ℕ → List Text → List SequencedOrder → Result (List SequencedOrder)
filter_orders taker sequences hashes [] = ok []
filter_orders taker sequences hashes (c ∷ cs) =
    check_resting sequences hashes c >> may_match taker c >>= λ keeps.
    filter_orders taker (c.sequence ∷ sequences) (c.order_hash ∷ hashes) cs >>= λ rest.
    ok (if keeps then c ∷ rest else rest)

-- The loop over the candidates: the fills, and what remains of the taker.
abbrev pub fill_against : Text → SequencedOrder → ℕ → PlannedFill
fill_against taker_hash maker amount = record {
  maker_order_hash = maker.order_hash;
  taker_order_hash = taker_hash;
  maker_sequence = maker.sequence;
  execution_price_ticks = maker.order.limit_price_ticks;
  base_amount_atoms = amount;
}

abbrev pub lesser : ℕ → ℕ → ℕ
lesser a b = if ltb a b then a else b

unfoldable pub fill_orders : Text → ℕ → List SequencedOrder → List PlannedFill × ℕ
fill_orders taker_hash remaining [] = ([], remaining)
fill_orders taker_hash remaining (maker ∷ makers) =
    let amount = lesser maker.remaining_base_atoms remaining in
    let rest = fill_orders taker_hash (remaining - amount) makers in
    if remaining - amount == 0
    then (fill_against taker_hash maker amount ∷ [], 0)
    else (fill_against taker_hash maker amount ∷ rest.0, rest.1)

abbrev pub is_empty {ℓ} : {A : Type ℓ} → List A → Bool
is_empty [] = true
is_empty (x ∷ xs) = false

-- Lines 96 to 101.
unfoldable pub conclude : SequencedOrder → List PlannedFill × ℕ → MatchPlan
conclude taker (fills, remaining) =
    if taker.order.time_in_force == 2 && ltb 0 remaining
    then record {
      fills = [];
      remaining_base_atoms = taker.remaining_base_atoms;
      status = fok_rejected;
    }
    else if remaining == 0
    then record { fills = fills; remaining_base_atoms = 0; status = filled }
    else if is_empty fills
    then record { fills = fills; remaining_base_atoms = remaining; status = unfilled }
    else record { fills = fills; remaining_base_atoms = remaining; status = partial }

-- Lines 58 to 79: the candidates, by priority.
unfoldable pub candidates_of :
    SequencedOrder → Text → List SequencedOrder → Result (List SequencedOrder)
candidates_of taker taker_hash resting_orders = normalize_orders resting_orders >>= λ orders.
    filter_orders taker (taker.sequence ∷ []) (taker_hash ∷ []) orders >>= λ candidates.
    sort_by_priority taker.order.side candidates

unfoldable pub plan_price_time_matches : SequencedOrder → List SequencedOrder → Result MatchPlan
plan_price_time_matches taker resting_orders = normalize_hex32 taker.order_hash >>= λ taker_hash.
    throw_if (taker.sequence == 0 || ltb uint64_max taker.sequence)
      "Taker sequence must be a positive uint64"
    >> throw_if
        (taker.remaining_base_atoms == 0
          || ltb taker.order.base_amount_atoms taker.remaining_base_atoms)
        "Taker remaining amount is invalid"
    >> candidates_of taker taker_hash resting_orders
    >>= λ candidates.
        ok (conclude taker (fill_orders taker_hash taker.remaining_base_atoms candidates))
