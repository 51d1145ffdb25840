-- ===== src/Lifecycle/Forward.antt =====
-- Histories of the operations of src/lib/order-lifecycle.ts only go forward.
use phlebas.Base.{
  ℕ, ◌≡◌, refl, sym, ap, subst, ◌∙◌, ◌≤◌, ◌<◌, Bool, true, false, List, [], ◌∷◌, Option, some,
  Result, ok, ◌>>=◌, arith, Bool-cases, inl, inr, >>=-returned, ok-injective,
}
use phlebas.OrderDomain.{Text, same_text, TypedOrderIntent}
use phlebas.OrderDomain.Canonical.{same_text_iff}
use phlebas.Lifecycle.{
  NonceKey, same_key, OrderLifecycleState, put, number_or_zero, is_present, claimed,
  cancel_order_nonce, advance_account_epoch, claim_order_nonce,
}
use phlebas.Lifecycle.Effects.{
  epoch_of, cancel_order_nonce-Cancelled, advance_account_epoch-Advanced, claim_order_nonce-Claimed,
}

-- No epoch falls, and nothing that was cancelled, accepted or claimed is forgotten or replaced.
pub record Later (s t : OrderLifecycleState) : Type 0 where
  pub epochs : (a : Text) → epoch_of s a ≤ epoch_of t a
  pub cancelled : (k : NonceKey) → s.cancelled_nonce_keys k ≡ true → t.cancelled_nonce_keys k ≡ true
  pub accepted : (h : Text) → s.accepted_order_hashes h ≡ true → t.accepted_order_hashes h ≡ true
  pub bodies :
      (h : Text)
      → s.accepted_order_hashes h ≡ true
      → t.accepted_order_struct_hashes h ≡ s.accepted_order_struct_hashes h
  pub claims :
      (k : NonceKey) → is_present (s.nonce_claims k) ≡ true → t.nonce_claims k ≡ s.nonce_claims k

pub Later-refl : (s : OrderLifecycleState) → Later s s
Later-refl s = record {
  epochs = λ a. omega arith;
  cancelled = λ k h. h;
  accepted = λ a h. h;
  bodies = λ a h. refl;
  claims = λ k h. refl;
}

pub Later-trans : (s t u : OrderLifecycleState) → Later s t → Later t u → Later s u
Later-trans s t u st tu = record {
  epochs = λ a. omega (arith, st.epochs a, tu.epochs a);
  cancelled = λ k h. tu.cancelled k (st.cancelled k h);
  accepted = λ a h. tu.accepted a (st.accepted a h);
  bodies = λ a h. tu.bodies a (st.accepted a h) ∙ st.bodies a h;
  claims = λ k h. tu.claims k (ap is_present (st.claims k h) ∙ h) ∙ st.claims k h;
}

put-true {ℓ} :
    {K : Type ℓ} (same : K → K → Bool) (map : K → Bool) (key k : K)
    → map k ≡ true
    → put same map key true k ≡ true
put-true same map key k h = elim (Bool-cases (same key k)) [ inl e ↦ rw e refl | inr e ↦ rw e h ]

same_key-equal : (k l : NonceKey) → same_key k l ≡ true → k ≡ l
unfolding same_key
same_key-equal k l h =
    let a : k.account ≡ l.account = ground (arith, same_text_iff k.account l.account) in
    let e : k.epoch ≡ l.epoch = ground arith in let n : k.nonce ≡ l.nonce = ground arith in cc

false_apart : false ≡ true → ⊥
false_apart h = cc

-- Entries with different values have different keys.
hash_apart :
    (map : Text → Bool) (hash a : Text) → map hash ≡ false → map a ≡ true → same_text hash a ≡ false
hash_apart map hash a absent there = elim (Bool-cases (same_text hash a)) [
  | inl e ↦
      let same : hash ≡ a = (same_text_iff hash a).0 e in
      absurd (false_apart (sym absent ∙ ap map same ∙ there))
  | inr e ↦ e
]

key_apart :
    (map : NonceKey → Option Text) (key k : NonceKey)
    → is_present (map key) ≡ false
    → is_present (map k) ≡ true
    → same_key key k ≡ false
key_apart map key k absent there = elim (Bool-cases (same_key key k)) [
  | inl e ↦
      absurd
        (false_apart (sym absent ∙ ap (λ l. is_present (map l)) (same_key-equal key k e) ∙ there))
  | inr e ↦ e
]

cancelled-Later :
    (s : OrderLifecycleState) (key : NonceKey)
    → Later s (record s { cancelled_nonce_keys = put same_key s.cancelled_nonce_keys key true })
cancelled-Later s key = record {
  epochs = λ a. omega arith;
  cancelled = λ k h. put-true same_key s.cancelled_nonce_keys key k h;
  accepted = λ a h. h;
  bodies = λ a h. refl;
  claims = λ k h. refl;
}

put_epoch :
    (s : OrderLifecycleState) (account : Text) (next : ℕ) (a : Text)
    → epoch_of s account < next
    → epoch_of s a ≤ number_or_zero (put same_text s.account_epochs account (some next) a)
put_epoch s account next a grows = elim (Bool-cases (same_text account a)) [
  | inl e ↦
      let same : account ≡ a = (same_text_iff account a).0 e in
      rw e (subst (λ b. epoch_of s b ≤ next) same (omega (arith, grows)))
  | inr e ↦ rw e (omega arith)
]

advanced-Later :
    (s : OrderLifecycleState) (account : Text) (next : ℕ)
    → epoch_of s account < next
    → Later s (record s { account_epochs = put same_text s.account_epochs account (some next) })
advanced-Later s account next grows = record {
  epochs = λ a. put_epoch s account next a grows;
  cancelled = λ k h. h;
  accepted = λ a h. h;
  bodies = λ a h. refl;
  claims = λ k h. refl;
}

-- An entry other than the one that is put stays.
put_other {ℓ κ} :
    {K : Type ℓ} {V : Type κ} (same : K → K → Bool) (map : K → V) (key k : K) (v : V)
    → same key k ≡ false
    → put same map key v k ≡ map k
put_other same map key k v h = rw h refl

claimed-Later :
    (s : OrderLifecycleState) (hash struct_hash : Text) (key : NonceKey)
    → s.accepted_order_hashes hash ≡ false
    → is_present (s.nonce_claims key) ≡ false
    → Later s (claimed s hash struct_hash key)
claimed-Later s hash struct_hash key new_hash new_key = record {
  epochs = λ a. omega arith;
  cancelled = λ k h. h;
  accepted = λ a h. put-true same_text s.accepted_order_hashes hash a h;
  bodies = λ a h.
      put_other same_text s.accepted_order_struct_hashes hash a _
        (hash_apart s.accepted_order_hashes hash a new_hash h);
  claims =
      λ k h. put_other same_key s.nonce_claims key k _ (key_apart s.nonce_claims key k new_key h);
}

-- A call of an operation, with its arguments.
pub data Call : Type 0 where
  claims_order : Text → TypedOrderIntent → Call
  cancels : Text → ℕ → ℕ → Call
  advances : Text → ℕ → Call

module _ (hash_order_struct : TypedOrderIntent → Result Text) where
  abbrev pub apply : OrderLifecycleState → Call → Result OrderLifecycleState
  apply s (claims_order order_hash order) = claim_order_nonce hash_order_struct s order_hash order
  apply s (cancels account_id epoch nonce) = cancel_order_nonce s account_id epoch nonce
  apply s (advances account_id next) = advance_account_epoch s account_id next

  unfoldable pub run : OrderLifecycleState → List Call → Result OrderLifecycleState
  run s [] = ok s
  run s (c ∷ cs) = apply s c >>= λ t. run t cs

  apply-Later : (s t : OrderLifecycleState) (c : Call) → apply s c ≡ ok t → Later s t
  apply-Later s t (claims_order order_hash order) h =
      let c = claim_order_nonce-Claimed hash_order_struct s t order_hash order h in
      subst (Later s) c.made (claimed-Later s c.hash c.struct_hash c.key c.new_hash c.new_key)
  apply-Later s t (cancels account_id epoch nonce) h =
      let c = cancel_order_nonce-Cancelled s t account_id epoch nonce h in
      subst (Later s) c.made (cancelled-Later s c.key)
  apply-Later s t (advances account_id next) h =
      let a = advance_account_epoch-Advanced s t account_id next h in
      subst (Later s) a.made (advanced-Later s a.account next a.grows)

  -- Over any history of claims, cancellations and advances that returns, no account's epoch falls,
  -- and no cancelled nonce, accepted hash with its order, or claimed nonce is lost or replaced.
  pub run-Later : (s t : OrderLifecycleState) (cs : List Call) → run s cs ≡ ok t → Later s t
  unfolding run
  run-Later s t [] h = subst (Later s) (ok-injective h) (Later-refl s)
  run-Later s t (c ∷ cs) h =
      let (next, e, rest) = >>=-returned (apply s c) _ _ h in
      Later-trans s next t (apply-Later s next c e) (run-Later next t cs rest)
