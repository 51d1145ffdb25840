-- ===== src/Lifecycle/Finality.antt =====
-- What the operations of src/lib/order-lifecycle.ts decide for good.
use phlebas.Base.{
  ℕ, ◌≡◌, refl, sym, ap, subst, ◌∙◌, ◌≢◌, ◌≤◌, ◌<◌, Bool, true, false, not, List, some, Result, ok,
  ◌>>◌, throw_if, ltb, leb, ◌==◌, if◌then◌else◌, uint64_max, arith, >>=-returned, ok-injective,
}
use phlebas.OrderDomain.{Text, TypedOrderIntent, normalize_hex32}
use phlebas.Lifecycle.{
  NonceKey, OrderLifecycleState, InactiveReason, OrderActivity, active, inactive, is_present,
  is_accepted_body, active_account_epoch, order_nonce_key, accepted_activity, cancel_order_nonce,
  advance_account_epoch, claim_order_nonce, order_activity,
}
use phlebas.Lifecycle.Effects.{
  same_text_refl, same_key_refl, epoch_of, cancel_order_nonce-Cancelled,
  advance_account_epoch-Advanced, claim_order_nonce-Claimed,
}
use phlebas.Lifecycle.Forward.{Call, run, run-Later}

true_apart : true ≡ false → ⊥
true_apart h = cc

-- What makes an accepted order active.
record Current (s : OrderLifecycleState) (order : TypedOrderIntent) (now : ℕ) : Type 0 where
  alive : now < order.expiry
  current : active_account_epoch s order.maker_account_id ≡ ok order.account_epoch
  key : NonceKey
  keyed : order_nonce_key order.maker_account_id order.account_epoch order.nonce ≡ ok key
  open_key : s.cancelled_nonce_keys key ≡ false

-- A check that would have said inactive was passed.
passed :
    (b : Bool) (reason : InactiveReason) (rest : Result OrderActivity)
    → (if b then ok (inactive reason) else rest) ≡ ok active
    → (b ≡ false) × (rest ≡ ok active)
passed true reason rest h = cc
passed false reason rest h = (refl, h)

not-false : (b : Bool) → not b ≡ false → b ≡ true
not-false true h = refl
not-false false h = cc

accepted_activity-active :
    (s : OrderLifecycleState) (order : TypedOrderIntent) (now : ℕ)
    → accepted_activity s order now ≡ ok active
    → Current s order now
unfolding accepted_activity
accepted_activity-active s order now h =
    let (alive, h1) = passed (leb order.expiry now) _ _ h in
    let (epoch, a, h2) = >>=-returned (active_account_epoch s order.maker_account_id) _ _ h1 in
    let (is_current, h3) = passed (not (order.account_epoch == epoch)) _ _ h2 in
    let (key, keyed, h4) =
      >>=-returned (order_nonce_key order.maker_account_id order.account_epoch order.nonce) _ _
        h3 in
    let (open_key, h5) = passed (s.cancelled_nonce_keys key) _ _ h4 in
    let same : epoch ≡ order.account_epoch = ground arith in
    record {
      alive = ground (arith, alive);
      current = a ∙ ap ok same;
      key = key;
      keyed = keyed;
      open_key = open_key;
    }

module _ (hash_order_struct : TypedOrderIntent → Result Text) where
  order_activity-active :
      (s : OrderLifecycleState) (order_hash : Text) (order : TypedOrderIntent) (now : ℕ)
      → order_activity hash_order_struct s order_hash order now ≡ ok active
      → Current s order now
  unfolding order_activity
  order_activity-active s order_hash order now h =
      let (hash, e, h1) =
        >>=-returned (throw_if (ltb uint64_max now) _ >> normalize_hex32 order_hash) _ _ h in
      let (accepted, h2) = passed (not (s.accepted_order_hashes hash)) _ _ h1 in
      let (body, h3) =
        passed
          (not (is_accepted_body (s.accepted_order_struct_hashes hash) (hash_order_struct order))) _
          _ h2 in
      accepted_activity-active s order now h3

  -- Once a nonce is cancelled, no order that carries it is ever active again, whatever is claimed,
  -- cancelled or advanced afterwards.
  pub cancel_order_nonce-final :
      (s t u : OrderLifecycleState) (cs : List Call) (order : TypedOrderIntent)
      → cancel_order_nonce s order.maker_account_id order.account_epoch order.nonce ≡ ok t
      → run hash_order_struct t cs ≡ ok u
      → (order_hash : Text) (now : ℕ)
      → order_activity hash_order_struct u order_hash order now ≢ ok active
  cancel_order_nonce-final s t u cs order e r order_hash now h =
      let c = order_activity-active u order_hash order now h in
      let d =
        cancel_order_nonce-Cancelled s t order.maker_account_id order.account_epoch order.nonce e in
      let same : d.key ≡ c.key = ok-injective (sym d.named ∙ c.keyed) in
      let there : t.cancelled_nonce_keys d.key ≡ true =
        subst (λ x. x.cancelled_nonce_keys d.key ≡ true) d.made (rw (same_key_refl d.key) refl) in
      let still = (run-Later hash_order_struct t u cs r).cancelled d.key there in
      true_apart (sym still ∙ ap u.cancelled_nonce_keys same ∙ c.open_key)

  -- Once an account moves to a later epoch, no order of an earlier one is ever active again.
  pub advance_account_epoch-final :
      (s t u : OrderLifecycleState) (cs : List Call) (order : TypedOrderIntent) (next : ℕ)
      → order.account_epoch < next
      → advance_account_epoch s order.maker_account_id next ≡ ok t
      → run hash_order_struct t cs ≡ ok u
      → (order_hash : Text) (now : ℕ)
      → order_activity hash_order_struct u order_hash order now ≢ ok active
  unfolding active_account_epoch
  advance_account_epoch-final s t u cs order next before e r order_hash now h =
      let c = order_activity-active u order_hash order now h in
      let d = advance_account_epoch-Advanced s t order.maker_account_id next e in
      let (account, n, epoch) =
        >>=-returned (normalize_hex32 order.maker_account_id) _ _ c.current in
      let same : account ≡ d.account = ok-injective (sym n ∙ d.named) in
      let there : epoch_of t d.account ≡ next =
        subst (λ x. epoch_of x d.account ≡ next) d.made (rw (same_text_refl d.account) refl) in
      let later = (run-Later hash_order_struct t u cs r).epochs d.account in
      let at : epoch_of u d.account ≡ order.account_epoch =
        subst (λ a. epoch_of u a ≡ order.account_epoch) same (ok-injective epoch) in
      omega (arith, before, there, later, at)

  -- Once a claim is accepted, no later claim of the same order hash is accepted, and none of an
  -- order with the same account, epoch and nonce.
  pub claim_order_nonce-once :
      (s t u v : OrderLifecycleState) (cs : List Call) (order_hash later_hash : Text)
      (order later_order : TypedOrderIntent)
      → claim_order_nonce hash_order_struct s order_hash order ≡ ok t
      → run hash_order_struct t cs ≡ ok u
      → claim_order_nonce hash_order_struct u later_hash later_order ≡ ok v
      → (normalize_hex32 order_hash ≢ normalize_hex32 later_hash)
        × (order_nonce_key order.maker_account_id order.account_epoch order.nonce
            ≢ order_nonce_key later_order.maker_account_id later_order.account_epoch
                later_order.nonce)
  claim_order_nonce-once s t u v cs order_hash later_hash order later_order e r f =
      let c = claim_order_nonce-Claimed hash_order_struct s t order_hash order e in
      let d = claim_order_nonce-Claimed hash_order_struct u v later_hash later_order f in
      let later = run-Later hash_order_struct t u cs r in
      let accepted : t.accepted_order_hashes c.hash ≡ true =
        subst (λ x. x.accepted_order_hashes c.hash ≡ true) c.made
          (rw (same_text_refl c.hash) refl) in
      let there : t.nonce_claims c.key ≡ some c.hash =
        subst (λ x. x.nonce_claims c.key ≡ some c.hash) c.made (rw (same_key_refl c.key) refl) in
      let still : is_present (u.nonce_claims c.key) ≡ true =
        ap is_present (later.claims c.key (ap is_present there) ∙ there) in
      (
        λ q.
            let same : c.hash ≡ d.hash = ok-injective (sym c.named ∙ q ∙ d.named) in
            true_apart
              (sym (later.accepted c.hash accepted) ∙ ap u.accepted_order_hashes same ∙ d.new_hash),
        λ q.
            let same : c.key ≡ d.key = ok-injective (sym c.keyed ∙ q ∙ d.keyed) in
            true_apart (sym still ∙ ap (λ k. is_present (u.nonce_claims k)) same ∙ d.new_key),
      )

  -- An order that is claimed is active at once, until its expiry.
  pub claim_order_nonce-active :
      (s t : OrderLifecycleState) (order_hash : Text) (order : TypedOrderIntent) (now : ℕ)
      → claim_order_nonce hash_order_struct s order_hash order ≡ ok t
      → now < order.expiry
      → now ≤ uint64_max
      → order_activity hash_order_struct t order_hash order now ≡ ok active
  unfolding order_activity accepted_activity active_account_epoch
  claim_order_nonce-active s t order_hash order now e alive fits =
      let c = claim_order_nonce-Claimed hash_order_struct s t order_hash order e in
      let t1 : ltb uint64_max now ≡ false = ground arith in
      let t2 : leb order.expiry now ≡ false = ground arith in
      let t3 : (order.account_epoch == order.account_epoch) ≡ true = ground arith in
      subst (λ x. order_activity hash_order_struct x order_hash order now ≡ ok active) c.made
        (rw
          (
            t1,
            c.named,
            same_text_refl c.hash,
            c.hashed,
            same_text_refl c.struct_hash,
            t2,
            c.current,
            t3,
            c.keyed,
            c.open_key,
          )
          refl)
