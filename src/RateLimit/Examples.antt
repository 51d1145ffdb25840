-- ===== src/RateLimit/Examples.antt =====
-- Runs of src/lib/rate-limit.ts, and its theorem on a concrete sequence of requests.
use phlebas.Base.{ℕ, ◌+◌, ◌*◌, ◌≡◌, ◌≤◌, refl, List, [], ◌∷◌, ok, arith, keep_if, some, ◌===◌}
use phlebas.Base.Entries.{get_entry, set_entry}
use phlebas.RateLimit.{
  RateLimitConfig, RateLimitState, capped_tokens, take_from, take_tokens, reset_key,
}
use phlebas.RateLimit.Bound.{Request, run, run_bound}

abbrev config : RateLimitConfig
config = record { capacity = 5; refill_per_second = 2 }

abbrev fresh : RateLimitState
fresh = ("a", record { tokens = 5; last_refill_at = 100 }) ∷ []

-- Six tokens are too many; four are granted, three more a second later.
abbrev requests : List Request
requests =
    record { at = 100; tokens = 6 }
    ∷ record { at = 100; tokens = 4 }
    ∷ record { at = 101; tokens = 3 }
    ∷ []

abbrev spent : RateLimitState
spent = ("a", record { tokens = 0; last_refill_at = 101 }) ∷ []

steps : ℕ
unfolding get_entry set_entry keep_if capped_tokens take_from take_tokens reset_key run
steps = 0

runs : run config "a" fresh requests ≡ ok (spent, 7)
unfolding steps
runs = refl

resets : reset_key fresh "a" ≡ []
unfolding steps
resets = refl

held : get_entry ◌===◌ fresh "a" ≡ some (record { tokens = 5; last_refill_at = 100 })
unfolding steps
held = refl

run_bound_example : 7 + 100 * 2 ≤ 5 + 101 * 2
run_bound_example =
    run_bound config "a" fresh spent (record { tokens = 5; last_refill_at = 100 }) 101 requests 7
      held (ground arith) runs
