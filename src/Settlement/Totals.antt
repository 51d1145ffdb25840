-- ===== src/Settlement/Totals.antt =====
-- src/lib/settlement-accounting.ts: what the loops over maps do to totals.
use phlebas.Base.{
  ℕ, ◌+◌, ◌≡◌, refl, ap, subst, Bool, false, not, List, [], ◌∷◌, Option, none, some, ok, throw_if,
  ltb, ◌||◌, arith, sum_of, >>=-returned, >>-returned, throw_if-returned, ok-injective,
}
use phlebas.Base.Entries.{get_entry, set_entry, or_else, sum_of-set_entry}
use phlebas.OrderDomain.{Text, same_text, normalize_hex32}
use phlebas.Settlement.{
  AtomicBalance, no_balance, has_entry, normalize_entries, Delta, no_delta, sum_delta, add_delta,
  balance_after, balance_fits, apply_delta, apply_deltas,
}

-- A total over the values of a map.
abbrev pub total {ℓ} : {V : Type ℓ} → (V → ℕ) → List (Text × V) → ℕ
total f entries = sum_of (λ e. f (e.1)) entries

or_else-absent {ℓ} :
    {V : Type ℓ} (o : Option V) (fallback : V) → has_entry o ≡ false → or_else o fallback ≡ fallback
or_else-absent none fallback h = refl
or_else-absent (some v) fallback h = cc

-- Normalizing the keys of a map keeps every total.
pub total-normalize_entries {ℓ} :
    {V : Type ℓ} (f : V → ℕ) (zero_value : V) (fits : V → Bool) (made entries out : List (Text × V))
    → f zero_value ≡ 0
    → normalize_entries fits made entries ≡ ok out
    → total f out ≡ total f made + total f entries
unfolding normalize_entries
total-normalize_entries f z fits made [] out e h = omega (arith, ap (total f) (ok-injective h))
total-normalize_entries f z fits made ((key, value) ∷ entries) out e h =
    let (k, n, h1) = >>=-returned (normalize_hex32 key) _ _ h in
    let (guards, rest) =
      >>-returned _ (normalize_entries fits (set_entry same_text made k value) entries) _ h1 in
    let (new, size) = >>-returned _ (throw_if (not (fits value)) _) _ guards in
    let absent = throw_if-returned (has_entry (get_entry same_text made k)) _ new in
    let added = sum_of-set_entry same_text f z made k value e in
    let none_there = ap f (or_else-absent (get_entry same_text made k) z absent) in
    omega (
      arith,
      added,
      none_there,
      e,
      total-normalize_entries f z fits (set_entry same_text made k value) entries out e rest,
    )

-- Adding a delta adds to every total that adds up.
pub total-add_delta :
    (f : Delta → ℕ) (deltas out : List (Text × Delta)) (account : Text) (delta : Delta)
    → f no_delta ≡ 0
    → ((c d : Delta) → f (sum_delta c d) ≡ f c + f d)
    → add_delta deltas account delta ≡ ok out
    → total f out ≡ total f deltas + f delta
unfolding add_delta
total-add_delta f deltas out account delta z adds h =
    let (k, n, h1) = >>=-returned (normalize_hex32 account) _ _ h in
    let old = or_else (get_entry same_text deltas k) no_delta in
    let set = sum_of-set_entry same_text f no_delta deltas k (sum_delta old delta) z in
    omega (arith, set, adds old delta, ap (total f) (ok-injective h1))

pub apply_delta-returned :
    (current next : AtomicBalance) (delta : Delta)
    → apply_delta current delta ≡ ok next
    → (next.base_atoms + delta.base_out ≡ current.base_atoms + delta.base_in)
      × (next.quote_atoms + delta.quote_out ≡ current.quote_atoms + delta.quote_in)
unfolding apply_delta
apply_delta-returned current next delta h =
    let (guards, made) = >>-returned _ (ok (balance_after current delta)) _ h in
    let (enough, fits) =
      >>-returned _ (throw_if (not (balance_fits (balance_after current delta))) _) _ guards in
    let covered =
      throw_if-returned
        (ltb (current.base_atoms + delta.base_in) delta.base_out
          || ltb (current.quote_atoms + delta.quote_in) delta.quote_out)
        _ enough in
    let base : (balance_after current delta).base_atoms ≡ next.base_atoms =
      ap (λ b. b.base_atoms) (ok-injective made) in
    let quote : (balance_after current delta).quote_atoms ≡ next.quote_atoms =
      ap (λ b. b.quote_atoms) (ok-injective made) in
    (ground arith, ground arith)

-- Applying deltas to balances: what was there and what comes in is what is there and what went out.
pub total-apply_deltas :
    (balances out : List (Text × AtomicBalance)) (deltas : List (Text × Delta))
    → apply_deltas balances deltas ≡ ok out
    → (total (λ b. b.base_atoms) out + total (λ d. d.base_out) deltas
        ≡ total (λ b. b.base_atoms) balances + total (λ d. d.base_in) deltas)
      × (total (λ b. b.quote_atoms) out + total (λ d. d.quote_out) deltas
          ≡ total (λ b. b.quote_atoms) balances + total (λ d. d.quote_in) deltas)
unfolding apply_deltas
total-apply_deltas balances out [] h =
    subst
      (λ bs.
        (total (λ b. b.base_atoms) bs + 0 ≡ total (λ b. b.base_atoms) balances + 0)
        × (total (λ b. b.quote_atoms) bs + 0 ≡ total (λ b. b.quote_atoms) balances + 0))
      (ok-injective h) (refl, refl)
total-apply_deltas balances out ((account, delta) ∷ deltas) h =
    let old = or_else (get_entry same_text balances account) no_balance in
    let (next, e, rest) = >>=-returned (apply_delta old delta) _ _ h in
    let (base, quote) = apply_delta-returned old next delta e in
    let (bases, quotes) =
      total-apply_deltas (set_entry same_text balances account next) out deltas rest in
    let set_base =
      sum_of-set_entry same_text (λ b. b.base_atoms) no_balance balances account next refl in
    let set_quote =
      sum_of-set_entry same_text (λ b. b.quote_atoms) no_balance balances account next refl in
    (omega (arith, base, bases, set_base), omega (arith, quote, quotes, set_quote))
