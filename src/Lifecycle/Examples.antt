-- ===== src/Lifecycle/Examples.antt =====
-- Runs of src/lib/order-lifecycle.ts, and its theorems at concrete inputs. The hash is the salt.
use phlebas.Base.{ℕ, zero, suc, ◌≡◌, ◌≢◌, refl, List, [], ◌∷◌, Result, ok, err, arith}
use phlebas.Base.Text.{all_in}
use phlebas.OrderDomain.{Text, TypedOrderIntent, same_text, is_hex_bytes, normalize_hex32}
use phlebas.Lifecycle.{
  OrderLifecycleState, active, inactive, nonce_cancelled, empty_order_lifecycle, same_key,
  active_account_epoch, order_nonce_key, claim_key, cancel_order_nonce, advance_account_epoch,
  accepted_activity, claim_order_nonce, order_activity,
}
use phlebas.Lifecycle.Forward.{Call, claims_order, cancels, advances, run, Later, run-Later}
use phlebas.Lifecycle.Finality.{
  cancel_order_nonce-final, advance_account_epoch-final, claim_order_nonce-once,
  claim_order_nonce-active,
}

abbrev repeated : ℕ → ℕ → Text
repeated zero c = []
repeated (suc n) c = c ∷ repeated n c

abbrev hash_of : ℕ → Text
hash_of c = b'0' ∷ b'x' ∷ repeated 64 c

-- An order of one account, with the nonce `nonce` in the epoch `epoch`.
abbrev order_with : ℕ → ℕ → TypedOrderIntent
order_with epoch nonce = record {
  maker_account_id = hash_of b'6';
  authorized_signer_id = hash_of b'6';
  base_chain_id = hash_of b'1';
  base_asset_id = hash_of b'2';
  quote_chain_id = hash_of b'1';
  quote_asset_id = hash_of b'3';
  side = 0;
  base_amount_atoms = 10;
  limit_price_ticks = 7;
  nonce = nonce;
  account_epoch = epoch;
  expiry = 2000;
  salt = hash_of b'9';
  recipient_account_id = hash_of b'6';
  time_in_force = 0;
  maximum_fee_bps = 0;
  allowed_venues = 1;
  settlement_adapter_id = hash_of b'5';
}

abbrev hash_order : TypedOrderIntent → Result Text
hash_order order = ok order.salt

abbrev value_of : Result OrderLifecycleState → OrderLifecycleState
value_of (ok s) = s
value_of (err e) = empty_order_lifecycle

steps : ℕ
unfolding all_in same_text is_hex_bytes normalize_hex32 same_key active_account_epoch
    order_nonce_key claim_key cancel_order_nonce advance_account_epoch accepted_activity
    claim_order_nonce order_activity run
steps = 0

abbrev accepts : List Call
accepts = claims_order (hash_of b'a') (order_with 0 1) ∷ []

abbrev accepted : OrderLifecycleState
accepted =
    value_of (claim_order_nonce hash_order empty_order_lifecycle (hash_of b'a') (order_with 0 1))

abbrev cancelled : OrderLifecycleState
cancelled = value_of (cancel_order_nonce accepted (hash_of b'6') 0 1)

abbrev advanced : OrderLifecycleState
advanced = value_of (advance_account_epoch cancelled (hash_of b'6') 4)

abbrev claims_more : List Call
claims_more = claims_order (hash_of b'b') (order_with 4 1) ∷ []

abbrev claimed_again : OrderLifecycleState
claimed_again = value_of (claim_order_nonce hash_order advanced (hash_of b'b') (order_with 4 1))

claims :
    claim_order_nonce hash_order empty_order_lifecycle (hash_of b'a') (order_with 0 1) ≡ ok accepted
unfolding steps
claims = refl

cancels_it : cancel_order_nonce accepted (hash_of b'6') 0 1 ≡ ok cancelled
unfolding steps
cancels_it = refl

advances_it : advance_account_epoch cancelled (hash_of b'6') 4 ≡ ok advanced
unfolding steps
advances_it = refl

claims_again :
    claim_order_nonce hash_order advanced (hash_of b'b') (order_with 4 1) ≡ ok claimed_again
unfolding steps
claims_again = refl

inactive_now :
    order_activity hash_order cancelled (hash_of b'a') (order_with 0 1) 1000
    ≡ ok (inactive nonce_cancelled)
unfolding steps
inactive_now = refl

abbrev history : List Call
history = cancels (hash_of b'6') 0 1 ∷ advances (hash_of b'6') 4 ∷ []

runs_history : run hash_order accepted history ≡ ok advanced
unfolding steps
runs_history = refl

runs_advance : run hash_order cancelled (advances (hash_of b'6') 4 ∷ []) ≡ ok advanced
unfolding steps
runs_advance = refl

runs_claim : run hash_order advanced claims_more ≡ ok claimed_again
unfolding steps
runs_claim = refl

run-Later_example : Later accepted advanced
run-Later_example = run-Later hash_order accepted advanced history runs_history

cancel_order_nonce-final_example :
    order_activity hash_order advanced (hash_of b'a') (order_with 0 1) 1000 ≢ ok active
cancel_order_nonce-final_example =
    cancel_order_nonce-final hash_order accepted cancelled advanced (advances (hash_of b'6') 4 ∷ [])
      (order_with 0 1) cancels_it runs_advance (hash_of b'a') 1000

advance_account_epoch-final_example :
    order_activity hash_order claimed_again (hash_of b'a') (order_with 0 1) 1000 ≢ ok active
advance_account_epoch-final_example =
    advance_account_epoch-final hash_order cancelled advanced claimed_again claims_more
      (order_with 0 1) 4 (ground arith) advances_it runs_claim (hash_of b'a') 1000

claim_order_nonce-once_example :
    (normalize_hex32 (hash_of b'a') ≢ normalize_hex32 (hash_of b'b'))
    × (order_nonce_key (hash_of b'6') 0 1 ≢ order_nonce_key (hash_of b'6') 4 1)
claim_order_nonce-once_example =
    claim_order_nonce-once hash_order empty_order_lifecycle accepted advanced claimed_again history
      (hash_of b'a') (hash_of b'b') (order_with 0 1) (order_with 4 1) claims runs_history
      claims_again

claim_order_nonce-active_example :
    order_activity hash_order accepted (hash_of b'a') (order_with 0 1) 1000 ≡ ok active
claim_order_nonce-active_example =
    claim_order_nonce-active hash_order empty_order_lifecycle accepted (hash_of b'a')
      (order_with 0 1) 1000 claims (ground arith) (ground arith)
