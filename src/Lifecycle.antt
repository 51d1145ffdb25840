-- ===== src/Lifecycle.antt =====
-- src/lib/order-lifecycle.ts: which signed orders are accepted, cancelled and active. A record that
-- is used as a map is a function from its keys. `hash_order_struct` is `hashOrderStruct` of
-- src/lib/eip712-order.ts, of which nothing is assumed: it may throw.
pub mod Effects
pub mod Forward
pub mod Finality
mod Examples
use phlebas.Base.{
  ℕ, Bool, true, false, ◌&&◌, ◌||◌, Option, none, some, Result, ok, err, ◌>>=◌, ◌>>◌, throw_if, ltb,
  leb, ◌==◌, if◌then◌else◌, uint64_max, not,
}
use phlebas.OrderDomain.{Text, same_text, TypedOrderIntent, normalize_hex32}

-- The text `account:epoch:nonce` by its parts: the account has a fixed length, and a numeral has no
-- colon.
pub record NonceKey : Type 0 where
  pub account : Text
  pub epoch : ℕ
  pub nonce : ℕ

unfoldable pub same_key : NonceKey → NonceKey → Bool
same_key k l = same_text k.account l.account && k.epoch == l.epoch && k.nonce == l.nonce

pub record OrderLifecycleState : Type 0 where
  pub account_epochs : Text → Option ℕ
  pub cancelled_nonce_keys : NonceKey → Bool
  pub nonce_claims : NonceKey → Option Text
  pub accepted_order_hashes : Text → Bool
  pub accepted_order_struct_hashes : Text → Option Text

pub data InactiveReason : Type 0 where
  expired epoch_invalidated nonce_cancelled not_accepted body_mismatch : InactiveReason

pub data OrderActivity : Type 0 where
  active : OrderActivity
  inactive : InactiveReason → OrderActivity

abbrev pub empty_order_lifecycle : OrderLifecycleState
empty_order_lifecycle = record {
  account_epochs = λ account. none;
  cancelled_nonce_keys = λ key. false;
  nonce_claims = λ key. none;
  accepted_order_hashes = λ hash. false;
  accepted_order_struct_hashes = λ hash. none;
}

-- `{ ...map, [key]: value }`.
abbrev pub put {ℓ κ} : {K : Type ℓ} {V : Type κ} → (K → K → Bool) → (K → V) → K → V → K → V
put same map key value = λ k. if same key k then value else map k

-- `?? 0n`.
abbrev pub number_or_zero : Option ℕ → ℕ
number_or_zero none = 0
number_or_zero (some n) = n

-- Whether an entry of a map to texts that are not empty is there.
abbrev pub is_present : Option Text → Bool
is_present none = false
is_present (some t) = true

-- `===` of an entry of a map with a text.
abbrev pub is_text : Option Text → Text → Bool
is_text none t = false
is_text (some s) t = same_text s t

unfoldable pub active_account_epoch : OrderLifecycleState → Text → Result ℕ
active_account_epoch state account_id =
    normalize_hex32 account_id >>= λ account. ok (number_or_zero (state.account_epochs account))

unfoldable pub order_nonce_key : Text → ℕ → ℕ → Result NonceKey
order_nonce_key account_id account_epoch nonce =
    throw_if (ltb uint64_max account_epoch) "Account epoch must fit uint64"
    >> throw_if (ltb uint64_max nonce) "Nonce must fit uint64"
    >> normalize_hex32 account_id
    >>= λ account. ok (record { account = account; epoch = account_epoch; nonce = nonce })

-- The state that `claimOrderNonce` returns (lines 55 to 60).
abbrev pub claimed : OrderLifecycleState → Text → Text → NonceKey → OrderLifecycleState
claimed state hash struct_hash key = record state {
  nonce_claims = put same_key state.nonce_claims key (some hash);
  accepted_order_hashes = put same_text state.accepted_order_hashes hash true;
  accepted_order_struct_hashes =
      put same_text state.accepted_order_struct_hashes hash (some struct_hash);
}

-- Lines 52 to 60.
unfoldable pub claim_key : OrderLifecycleState → Text → Text → NonceKey → Result OrderLifecycleState
claim_key state hash struct_hash key =
    throw_if (state.cancelled_nonce_keys key) "Order nonce is cancelled"
    >> throw_if (state.accepted_order_hashes hash) "Order hash replayed"
    >> throw_if (is_present (state.nonce_claims key)) "Order nonce is already claimed"
    >> ok (claimed state hash struct_hash key)

unfoldable pub cancel_order_nonce : OrderLifecycleState → Text → ℕ → ℕ → Result OrderLifecycleState
cancel_order_nonce state account_id account_epoch nonce =
    order_nonce_key account_id account_epoch nonce >>= λ key.
    active_account_epoch state account_id >>= λ current.
    throw_if (not (account_epoch == current)) "Only the active account epoch can cancel a nonce"
    >> ok (record state { cancelled_nonce_keys = put same_key state.cancelled_nonce_keys key true })

unfoldable pub advance_account_epoch : OrderLifecycleState → Text → ℕ → Result OrderLifecycleState
advance_account_epoch state account_id next_epoch =
    throw_if (ltb uint64_max next_epoch) "Account epoch must fit uint64"
    >> normalize_hex32 account_id
    >>= λ account. active_account_epoch state account >>= λ current.
        throw_if (leb next_epoch current) "Account epoch must increase monotonically"
        >> ok (record state {
          account_epochs = put same_text state.account_epochs account (some next_epoch);
        })

-- Lines 110 to 113.
unfoldable pub accepted_activity : OrderLifecycleState → TypedOrderIntent → ℕ → Result OrderActivity
accepted_activity state order now_seconds =
    if leb order.expiry now_seconds
    then ok (inactive expired)
    else active_account_epoch state order.maker_account_id >>= λ current.
        if not (order.account_epoch == current)
        then ok (inactive epoch_invalidated)
        else order_nonce_key order.maker_account_id order.account_epoch order.nonce >>= λ key.
            if state.cancelled_nonce_keys key then ok (inactive nonce_cancelled) else ok active

-- Whether the order is the one that was accepted; a hash that throws says no (lines 103 to 109).
abbrev pub is_accepted_body : Option Text → Result Text → Bool
is_accepted_body entry (ok struct_hash) = is_text entry struct_hash
is_accepted_body entry (err e) = false

module _ (hash_order_struct : TypedOrderIntent → Result Text) where
  unfoldable pub claim_order_nonce :
      OrderLifecycleState → Text → TypedOrderIntent → Result OrderLifecycleState
  claim_order_nonce state order_hash order = normalize_hex32 order_hash >>= λ hash.
      hash_order_struct order >>= λ struct_hash.
      order_nonce_key order.maker_account_id order.account_epoch order.nonce >>= λ key.
      active_account_epoch state order.maker_account_id >>= λ current.
      throw_if (not (order.account_epoch == current)) "Order account epoch is not active"
      >> claim_key state hash struct_hash key

  unfoldable pub order_activity :
      OrderLifecycleState → Text → TypedOrderIntent → ℕ → Result OrderActivity
  order_activity state order_hash order now_seconds =
      throw_if (ltb uint64_max now_seconds) "Activity time must fit uint64"
      >> normalize_hex32 order_hash
      >>= λ hash.
          if not (state.accepted_order_hashes hash)
          then ok (inactive not_accepted)
          else if not
              (is_accepted_body (state.accepted_order_struct_hashes hash) (hash_order_struct order))
          then ok (inactive body_mismatch)
          else accepted_activity state order now_seconds
