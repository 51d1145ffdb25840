-- ===== src/Lifecycle/Effects.antt =====
-- What the operations of src/lib/order-lifecycle.ts have done where they return.
use phlebas.Base.{
  ℕ, ◌≡◌, refl, sym, ap, subst, ◌∙◌, ◌<◌, true, false, not, some, Result, ok, ◌>>◌, throw_if, ltb,
  leb, ◌==◌, uint64_max, arith, >>=-returned, >>-returned, throw_if-returned, ok-injective,
}
use phlebas.OrderDomain.{Text, same_text, TypedOrderIntent, normalize_hex32}
use phlebas.OrderDomain.Canonical.{same_text_iff, normalize_hex32-normalize_hex32}
use phlebas.Lifecycle.{
  NonceKey, same_key, OrderLifecycleState, put, number_or_zero, is_present, active_account_epoch,
  order_nonce_key, claimed, claim_key, cancel_order_nonce, advance_account_epoch, claim_order_nonce,
}

pub same_text_refl : (t : Text) → same_text t t ≡ true
same_text_refl t = (same_text_iff t t).1 refl

pub same_key_refl : (k : NonceKey) → same_key k k ≡ true
unfolding same_key
same_key_refl k = ground (arith, same_text_refl k.account)

-- The account's epoch, by its normal name.
abbrev pub epoch_of : OrderLifecycleState → Text → ℕ
epoch_of s account = number_or_zero (s.account_epochs account)

pub record Cancelled (s t : OrderLifecycleState) (account_id : Text) (epoch nonce : ℕ)
    : Type 0 where
  pub key : NonceKey
  pub named : order_nonce_key account_id epoch nonce ≡ ok key
  pub made : record s { cancelled_nonce_keys = put same_key s.cancelled_nonce_keys key true } ≡ t

pub cancel_order_nonce-Cancelled :
    (s t : OrderLifecycleState) (account_id : Text) (epoch nonce : ℕ)
    → cancel_order_nonce s account_id epoch nonce ≡ ok t
    → Cancelled s t account_id epoch nonce
unfolding cancel_order_nonce
cancel_order_nonce-Cancelled s t account_id epoch nonce h =
    let (key, named, h1) = >>=-returned (order_nonce_key account_id epoch nonce) _ _ h in
    let (current, a, h2) = >>=-returned (active_account_epoch s account_id) _ _ h1 in
    let (guard, made) = >>-returned (throw_if (not (epoch == current)) _) _ _ h2 in
    record { key = key; named = named; made = ok-injective made }

pub record Advanced (s t : OrderLifecycleState) (account_id : Text) (next : ℕ) : Type 0 where
  pub account : Text
  pub named : normalize_hex32 account_id ≡ ok account
  pub grows : epoch_of s account < next
  pub made : record s { account_epochs = put same_text s.account_epochs account (some next) } ≡ t

normal_twice :
    (account_id account : Text)
    → normalize_hex32 account_id ≡ ok account
    → normalize_hex32 account ≡ ok account
normal_twice account_id account n =
    let twice = normalize_hex32-normalize_hex32 account_id in let parts = rw n at twice in parts.2

-- The epoch of an account that is normal already.
active_account_epoch-normal :
    (s : OrderLifecycleState) (account_id account : Text) (current : ℕ)
    → normalize_hex32 account_id ≡ ok account
    → active_account_epoch s account ≡ ok current
    → epoch_of s account ≡ current
unfolding active_account_epoch
active_account_epoch-normal s account_id account current n h =
    let (again, m, e) = >>=-returned (normalize_hex32 account) _ _ h in
    let same : again ≡ account = ok-injective (sym m ∙ normal_twice account_id account n) in
    subst (λ a. epoch_of s a ≡ current) same (ok-injective e)

pub advance_account_epoch-Advanced :
    (s t : OrderLifecycleState) (account_id : Text) (next : ℕ)
    → advance_account_epoch s account_id next ≡ ok t
    → Advanced s t account_id next
unfolding advance_account_epoch
advance_account_epoch-Advanced s t account_id next h =
    let (account, e, h1) =
      >>=-returned (throw_if (ltb uint64_max next) _ >> normalize_hex32 account_id) _ _ h in
    let (fits, named) = >>-returned (throw_if (ltb uint64_max next) _) _ _ e in
    let (current, a, h2) = >>=-returned (active_account_epoch s account) _ _ h1 in
    let (guard, made) = >>-returned (throw_if (leb next current) _) _ _ h2 in
    let more = throw_if-returned (leb next current) _ guard in
    let same = active_account_epoch-normal s account_id account current named a in
    record { account = account; named = named; grows = ground arith; made = ok-injective made }

module _ (hash_order_struct : TypedOrderIntent → Result Text) where
  pub record Claimed (s t : OrderLifecycleState) (order_hash : Text) (order : TypedOrderIntent)
      : Type 0 where
    pub hash : Text
    pub named : normalize_hex32 order_hash ≡ ok hash
    pub struct_hash : Text
    pub hashed : hash_order_struct order ≡ ok struct_hash
    pub key : NonceKey
    pub keyed : order_nonce_key order.maker_account_id order.account_epoch order.nonce ≡ ok key
    pub current : active_account_epoch s order.maker_account_id ≡ ok order.account_epoch
    pub open_key : s.cancelled_nonce_keys key ≡ false
    pub new_hash : s.accepted_order_hashes hash ≡ false
    pub new_key : is_present (s.nonce_claims key) ≡ false
    pub made : claimed s hash struct_hash key ≡ t

  pub claim_order_nonce-Claimed :
      (s t : OrderLifecycleState) (order_hash : Text) (order : TypedOrderIntent)
      → claim_order_nonce hash_order_struct s order_hash order ≡ ok t
      → Claimed s t order_hash order
  unfolding claim_order_nonce claim_key
  claim_order_nonce-Claimed s t order_hash order h =
      let (hash, named, h1) = >>=-returned (normalize_hex32 order_hash) _ _ h in
      let (struct_hash, hashed, h2) = >>=-returned (hash_order_struct order) _ _ h1 in
      let (key, keyed, h3) =
        >>=-returned (order_nonce_key order.maker_account_id order.account_epoch order.nonce) _ _
          h2 in
      let (epoch, a, h4) = >>=-returned (active_account_epoch s order.maker_account_id) _ _ h3 in
      let (guard, h5) = >>-returned (throw_if (not (order.account_epoch == epoch)) _) _ _ h4 in
      let is_current = throw_if-returned (not (order.account_epoch == epoch)) _ guard in
      let same : epoch ≡ order.account_epoch = ground arith in
      let (guards, made) = >>-returned _ (ok (claimed s hash struct_hash key)) _ h5 in
      let (g1, g2) = >>-returned _ (throw_if (is_present (s.nonce_claims key)) _) _ guards in
      let (g3, g4) = >>-returned (throw_if (s.cancelled_nonce_keys key) _) _ _ g1 in
      record {
        hash = hash;
        named = named;
        struct_hash = struct_hash;
        hashed = hashed;
        key = key;
        keyed = keyed;
        current = a ∙ ap ok same;
        open_key = throw_if-returned (s.cancelled_nonce_keys key) _ g3;
        new_hash = throw_if-returned (s.accepted_order_hashes hash) _ g4;
        new_key = throw_if-returned (is_present (s.nonce_claims key)) _ g2;
        made = ok-injective made;
      }
