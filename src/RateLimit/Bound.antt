-- ===== src/RateLimit/Bound.antt =====
-- What a key is granted by src/lib/rate-limit.ts over a time.
use native.Mathlib.Nat.{mul-le-mul_right, add-mul}
use phlebas.Base.{
  ℕ, ◌+◌, ◌-◌, ◌*◌, ◌≡◌, refl, sym, ap, subst, ◌∙◌, ◌≤◌, List, [], ◌∷◌, some, Result, ok, ◌>>=◌,
  ltb, ◌===◌, if◌then◌else◌, String, arith, Bool-cases, inl, inr, eq_refl, >>=-returned,
  >>-returned, ok-injective,
}
use phlebas.Base.Entries.{get_entry, get_entry-set_entry}
use phlebas.RateLimit.{
  RateLimitConfig, Bucket, RateLimitState, Taken, capped_tokens, bucket_of, take_from, take_tokens,
}

-- A request: its time and the tokens it asks for.
pub record Request : Type 0 where
  pub at : ℕ
  pub tokens : ℕ

-- The requests of one key, one after another: the state left and the tokens granted.
unfoldable pub run :
    RateLimitConfig → String → RateLimitState → List Request → Result (RateLimitState × ℕ)
run config key state [] = ok (state, 0)
run config key state (r ∷ rs) = take_tokens state config key r.at r.tokens >>= λ taken.
    run config key taken.state rs >>= λ (last, granted).
    ok (last, (if taken.allowed then r.tokens else 0) + granted)

abbrev granted_by : Request → Taken → ℕ
granted_by r taken = if taken.allowed then r.tokens else 0

-- The clock never runs back from `start` on, and ends by `end`.
abbrev pub Clocked : ℕ → ℕ → List Request → Type 0
Clocked start end [] = start ≤ end
Clocked start end (r ∷ rs) = (start ≤ r.at) × Clocked r.at end rs

-- One request.
record Step (config : RateLimitConfig) (key : String) (b : Bucket) (r : Request) (taken : Taken)
    : Type 0 where
  bucket : Bucket
  held : get_entry ◌===◌ taken.state key ≡ some bucket
  since : bucket.last_refill_at ≡ r.at
  within : bucket.tokens ≤ config.capacity
  spent :
      bucket.tokens + granted_by r taken + b.last_refill_at * config.refill_per_second
      ≤ b.tokens + r.at * config.refill_per_second

elapsed_mul : (start now rate : ℕ) → start ≤ now → (now - start) * rate + start * rate ≡ now * rate
elapsed_mul start now rate h =
    let split : (now - start) + start ≡ now = omega (arith, h) in
    sym (add-mul (now - start) start rate) ∙ ap (λ n. n * rate) split

capped_tokens-bound :
    (config : RateLimitConfig) (b : Bucket) (now : ℕ)
    → b.last_refill_at ≤ now
    → (capped_tokens config b now ≤ config.capacity)
      × (capped_tokens config b now + b.last_refill_at * config.refill_per_second
          ≤ b.tokens + now * config.refill_per_second)
unfolding capped_tokens
capped_tokens-bound config b now h =
    let e = elapsed_mul b.last_refill_at now config.refill_per_second h in
    let m = mul-le-mul_right config.refill_per_second h in
    (ground (arith, e, m), ground (arith, e, m))

take_from-Step :
    (config : RateLimitConfig) (state : RateLimitState) (key : String) (b : Bucket) (r : Request)
    (capped : ℕ)
    → capped ≤ config.capacity
    → capped + b.last_refill_at * config.refill_per_second
      ≤ b.tokens + r.at * config.refill_per_second
    → Step config key b r (take_from state key r.at capped r.tokens)
unfolding take_from
take_from-Step config state key b r capped small spent = elim (Bool-cases (ltb capped r.tokens)) [
  | inl e ↦ simp e (record {
    bucket = record { tokens = capped; last_refill_at = r.at };
    held = get_entry-set_entry ◌===◌ state key _ (eq_refl key);
    since = refl;
    within = small;
    spent = omega (arith, spent);
  })
  | inr e ↦
      let enough : r.tokens ≤ capped = ground arith in
      simp e (record {
        bucket = record { tokens = capped - r.tokens; last_refill_at = r.at };
        held = get_entry-set_entry ◌===◌ state key _ (eq_refl key);
        since = refl;
        within = omega (arith, small);
        spent = omega (arith, spent, enough);
      })
]

take_tokens-Step :
    (config : RateLimitConfig) (state : RateLimitState) (key : String) (b : Bucket) (r : Request)
    (taken : Taken)
    → get_entry ◌===◌ state key ≡ some b
    → b.last_refill_at ≤ r.at
    → take_tokens state config key r.at r.tokens ≡ ok taken
    → Step config key b r taken
unfolding take_tokens
take_tokens-Step config state key b r taken held later h =
    let current : bucket_of state config key r.at ≡ b = rw held refl in
    let (guards, made) =
      >>-returned _
        (ok (
          take_from state key r.at (capped_tokens config (bucket_of state config key r.at) r.at)
            r.tokens))
        _ h in
    let (small, spent) = capped_tokens-bound config b r.at later in
    subst (Step config key b r)
      (ap (λ c. take_from state key r.at (capped_tokens config c r.at) r.tokens) (sym current)
        ∙ ok-injective made)
      (take_from-Step config state key b r (capped_tokens config b r.at) small spent)

-- Over requests of a key whose clock does not run back, the tokens granted are at most those that
-- its bucket held at first and those that the refill rate gives in the time until the end.
pub run_bound :
    (config : RateLimitConfig) (key : String) (state last : RateLimitState) (b : Bucket) (end : ℕ)
    (rs : List Request) (granted : ℕ)
    → get_entry ◌===◌ state key ≡ some b
    → Clocked b.last_refill_at end rs
    → run config key state rs ≡ ok (last, granted)
    → granted + b.last_refill_at * config.refill_per_second
      ≤ b.tokens + end * config.refill_per_second
unfolding run
run_bound config key state last b end [] granted held clock h =
    let none_granted : 0 ≡ granted = ap (λ p. p.1) (ok-injective h) in
    omega (arith, none_granted, mul-le-mul_right config.refill_per_second clock)
run_bound config key state last b end (r ∷ rs) granted held (later, clock) h =
    let (taken, t, h1) = >>=-returned (take_tokens state config key r.at r.tokens) _ _ h in
    let (rest, e, h2) = >>=-returned (run config key taken.state rs) _ _ h1 in
    let s = take_tokens-Step config state key b r taken held later t in
    let total : granted_by r taken + rest.1 ≡ granted = ap (λ p. p.1) (ok-injective h2) in
    let onward =
      run_bound config key taken.state rest.0 s.bucket end rs rest.1 s.held
        (subst (λ n. Clocked n end rs) (sym s.since) clock) e in
    let same = ap (λ n. n * config.refill_per_second) s.since in
    omega (arith, total, onward, same, s.spent)
