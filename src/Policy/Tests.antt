-- ===== src/Policy/Tests.antt =====
-- Runs of the two rate limiters, and their theorems at concrete inputs.
use stile.Prelude.{
  ℕ, String, ◌-◌, ◌≤◌, ◌≡◌, refl, true, false, none, some, List, [], ◌∷◌, arith, ltb, length,
  if◌then◌else◌,
}
use stile.Prelude.Dict
use stile.Prelude.Dict.{Dict, get-empty}
use stile.Policy.Limits.{RateLimit, caller, tool, RateLimitResult}
use stile.Policy.Redis
use stile.Policy.Redis.{
  RedisRateLimiter, Redis, new_redis_rate_limiter, sliding_window, effective_caller_limit,
  effective_tool_limit,
}
use stile.Policy.Redis.Window.{trail_of, recent, AllFresh, window_exact_fresh}
use stile.Policy.Redis.FailClosed.{FailsClosed, is_limited, allow-FailsClosed}
use stile.Policy.Redis.Effective.{Effective, limits-Effective}
use stile.Policy.Local
use stile.Policy.Local.{Bucket, Buckets, LocalRateLimiter, Times, Snapshot, new_local_rate_limiter}
use stile.Policy.Local.Bounded.{IsBounded, allow-IsBounded}
use stile.Policy.Local.Denied.{allow_denied}

-- two checks a second are admitted, a third is not, and a check a second later is
abbrev checks : List (ℕ × String)
checks = (10, "a") ∷ (20, "b") ∷ (30, "c") ∷ (1000011, "d") ∷ []

admitted_checks : (trail_of 2 1000000 checks).admitted ≡ (1000011, "d") ∷ (20, "b") ∷ (10, "a") ∷ []
unfolding sliding_window
admitted_checks = refl

-- checks with one member are counted as one: here three are admitted in a second under a limit of two
abbrev colliding : List (ℕ × String)
colliding = (10, "a") ∷ (20, "a") ∷ (30, "a") ∷ []

over_the_limit :
    ((trail_of 2 1000000 colliding).admitted ≡ (30, "a") ∷ (20, "a") ∷ (10, "a") ∷ [])
    × ((trail_of 2 1000000 colliding).set ≡ ("a", 30) ∷ [])
unfolding sliding_window
over_the_limit = (refl, refl)

admitted_fresh : AllFresh (trail_of 2 1000000 checks).admitted
unfolding sliding_window
admitted_fresh = ((refl, (refl, tt)), ((refl, tt), (tt, tt)))

window_exact_fresh_example :
    ((sliding_window 2 1000000 1000015 "e" (trail_of 2 1000000 checks).set).1
      ≡ ltb (length (recent 1000000 1000015 (trail_of 2 1000000 checks).admitted)) 2)
    × (length (recent 1000000 1000015 (trail_of 2 1000000 checks).admitted) ≤ 2)
window_exact_fresh_example =
    window_exact_fresh 2 1000000 1000015 "e" checks
      (omega arith, (omega arith, (omega arith, (omega arith, omega arith)))) admitted_fresh

-- 2 a second and 5 a second
abbrev two : RateLimit
two = record { rate = 2; burst = 2; count = 2; window = 1 }

abbrev fast : RateLimit
fast = record { rate = 5; burst = 5; count = 5; window = 1 }

abbrev redis_limiter : RedisRateLimiter
redis_limiter =
    new_redis_rate_limiter "stile:" (some two) none none
      (record { name = "dev"; rate_limit = some fast; tool_rate_limit = none } ∷ [])
      (("web", none) ∷ [])

dev_limit : effective_caller_limit redis_limiter ("ops" ∷ "dev" ∷ []) ≡ some fast
unfolding effective_caller_limit new_redis_rate_limiter Dict.put Dict.get
dev_limit = refl

abbrev silent : Redis
silent = record { sets = Dict.empty; answers = false }

allow-FailsClosed_example :
    ((Redis.allow redis_limiter "ann" "search" "web" ("dev" ∷ []) 5 (λ l. "5:r") 5000 silent).0
      ≡ silent)
    × FailsClosed
        (is_limited redis_limiter "ann" "search" "web" ("dev" ∷ []))
        (Redis.allow redis_limiter "ann" "search" "web" ("dev" ∷ []) 5 (λ l. "5:r") 5000 silent).1
allow-FailsClosed_example =
    allow-FailsClosed redis_limiter "ann" "search" "web" ("dev" ∷ []) 5 (λ l. "5:r") 5000 silent
      refl

limits-Effective_example :
    Effective redis_limiter.role_caller redis_limiter.default_caller
      ("dev" ∷ [])
      (effective_caller_limit redis_limiter ("dev" ∷ []))
    × Effective redis_limiter.role_tool redis_limiter.default_tool
        ("dev" ∷ [])
        (effective_tool_limit redis_limiter ("dev" ∷ []))
limits-Effective_example = limits-Effective redis_limiter ("dev" ∷ [])

-- a bucket that is never filled again
abbrev plain : Buckets (Bucket × ℕ)
plain = record {
  new_limiter = λ b. (b, b.burst);
  take = λ now (b, left). if ltb 0 left then ((b, left - 1), true) else ((b, left), false);
  tokens = λ now (b, left). left;
  settings = λ (b, left). b;
}

abbrev no_times : Times
no_times = record { reset_after = λ s. 0; retry_after = λ s. 1 }

abbrev one : RateLimit
one = record { rate = 1; burst = 1; count = 1; window = 1 }

abbrev local_limiter : LocalRateLimiter (Bucket × ℕ)
local_limiter = new_local_rate_limiter plain (some one) (some two) none (("web", some two) ∷ []) []

-- the limiter after a call that spends the caller's only token
abbrev after_one : LocalRateLimiter (Bucket × ℕ)
after_one = (Local.allow plain no_times local_limiter "ann" "search" "web" [] 7).0

abbrev denial_result : RateLimitResult
denial_result = record {
  denial = some caller;
  limit = 1;
  remaining = 0;
  reset_at = 8;
  retry_after = 1;
}

second_denied :
    (Local.allow plain no_times after_one "ann" "search" "web" [] 8).1 ≡ some denial_result
unfolding Local.allow new_local_rate_limiter Dict.put Dict.get Dict.empty
second_denied = refl

allow_denied_example :
    (denial_result.denial ≡ some caller
      → ((Local.allow plain no_times after_one "ann" "search" "web" [] 8).0.tool_limiters
          ≡ after_one.tool_limiters)
        × ((Local.allow plain no_times after_one "ann" "search" "web" [] 8).0.upstream_limiters
            ≡ after_one.upstream_limiters))
    × (denial_result.denial ≡ some tool
        → (Local.allow plain no_times after_one "ann" "search" "web" [] 8).0.upstream_limiters
          ≡ after_one.upstream_limiters)
allow_denied_example =
    allow_denied plain no_times after_one "ann" "search" "web" [] 8 denial_result second_denied

local_limiter-IsBounded : IsBounded local_limiter
unfolding new_local_rate_limiter
local_limiter-IsBounded name tools e = cc (e, get-empty {V = Dict (Bucket × ℕ)} name)

allow-IsBounded_example :
    IsBounded (Local.allow plain no_times local_limiter "ann" "search" "web" [] 7).0
allow-IsBounded_example =
    allow-IsBounded plain no_times local_limiter "ann" "search" "web" [] 7 local_limiter-IsBounded
