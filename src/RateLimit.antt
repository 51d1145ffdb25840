-- ===== src/RateLimit.antt =====
-- src/lib/rate-limit.ts: a token bucket for each key. The state is the list of its entries; numbers
-- are naturals, so the guards read `== 0`.
pub mod Bound
mod Examples
use phlebas.Base.{
  ℕ, ◌+◌, ◌-◌, ◌*◌, Bool, true, false, List, [], ◌∷◌, Option, none, some, Result, ok, err, ◌>>◌,
  throw_if, ltb, leb, ◌==◌, ◌===◌, if◌then◌else◌, String, keep_if, not,
}
use phlebas.Base.Entries.{get_entry, set_entry, or_else}

pub record RateLimitConfig : Type 0 where
  pub capacity : ℕ
  pub refill_per_second : ℕ

pub record Bucket : Type 0 where
  pub tokens : ℕ
  pub last_refill_at : ℕ

abbrev pub RateLimitState : Type 0
RateLimitState = List (String × Bucket)

pub record Taken : Type 0 where
  pub allowed : Bool
  pub state : RateLimitState
  pub remaining : ℕ

-- Lines 32 to 37: what the key has now.
unfoldable pub capped_tokens : RateLimitConfig → Bucket → ℕ → ℕ
capped_tokens config current now_seconds =
    let refilled =
      if leb now_seconds current.last_refill_at
      then current.tokens
      else current.tokens + (now_seconds - current.last_refill_at) * config.refill_per_second in
    if ltb config.capacity refilled then config.capacity else refilled

abbrev pub bucket_of : RateLimitState → RateLimitConfig → String → ℕ → Bucket
bucket_of state config key now_seconds =
    or_else (get_entry ◌===◌ state key)
      (record { tokens = config.capacity; last_refill_at = now_seconds })

-- Lines 38 to 44, with the tokens there are.
unfoldable pub take_from : RateLimitState → String → ℕ → ℕ → ℕ → Taken
take_from state key now_seconds capped requested =
    if ltb capped requested
    then record {
      allowed = false;
      state = set_entry ◌===◌ state key (record { tokens = capped; last_refill_at = now_seconds });
      remaining = capped;
    }
    else record {
      allowed = true;
      state =
          set_entry ◌===◌ state key
            (record { tokens = capped - requested; last_refill_at = now_seconds });
      remaining = capped - requested;
    }

unfoldable pub take_tokens : RateLimitState → RateLimitConfig → String → ℕ → ℕ → Result Taken
take_tokens state config key now_seconds requested =
    throw_if (config.capacity == 0) "Capacity must be positive"
    >> throw_if (config.refill_per_second == 0) "Refill rate must be positive"
    >> throw_if (requested == 0) "Requested tokens must be positive"
    >> ok (
        take_from state key now_seconds
          (capped_tokens config (bucket_of state config key now_seconds) now_seconds) requested)

unfoldable pub reset_key : RateLimitState → String → RateLimitState
reset_key state key = keep_if (λ e. not (e.0 === key)) state
