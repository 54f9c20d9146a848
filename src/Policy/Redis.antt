-- ===== src/Policy/Redis.antt =====
-- `RedisRateLimiter` of internal/policy/redis.go: sliding windows in Redis sorted sets. The Lua script
-- runs as one step. A sorted set is the list of its members with their scores, which are times in
-- microseconds. The member that the script adds is Lua's text of the time and of a number that
-- math.random gives: an argument, since members of different checks may be equal. EXPIRE drops sets
-- that have no live score. Where Redis does not answer, the check leaves the sets as they were.

pub mod Window
pub mod FailClosed
pub mod Effective
use Prim.Native.String.{◌++◌}
use stile.Prelude.{
  ℕ, ◌+◌, ◌-◌, ◌*◌, ◌/◌, String, Bool, true, false, not, ◌&&◌, Option, none, some, List, [], ◌∷◌,
  str_eq, ltb, ◌==◌, if◌then◌else◌, filter, length, or_else, max,
}
use stile.Prelude.Dict
use stile.Prelude.Dict.{Dict}
use stile.Policy.Limits.{
  RateLimit, Level, caller, tool, upstream, RateLimitResult, most_restrictive,
}

pub record RedisRateLimiter : Type 0 where
  pub key_prefix : String
  pub default_caller : Option RateLimit
  pub default_tool : Option RateLimit
  pub default_upstream : Option RateLimit
  pub role_caller : Dict RateLimit
  pub role_tool : Dict RateLimit
  pub upstream_limits : Dict RateLimit

-- a configured role or upstream, with its limits
pub record RoleLimits : Type 0 where
  pub name : String
  pub rate_limit : Option RateLimit
  pub tool_rate_limit : Option RateLimit

put_some : String → Option RateLimit → Dict RateLimit → Dict RateLimit
put_some name none d = d
put_some name (some l) d = Dict.put d name l

load_roles : List RoleLimits → RedisRateLimiter → RedisRateLimiter
unfolding put_some
load_roles [] rl = rl
load_roles (r ∷ rs) rl = load_roles rs (record rl {
  role_caller = put_some r.name r.rate_limit rl.role_caller;
  role_tool = put_some r.name r.tool_rate_limit rl.role_tool;
})

load_upstreams : List (String × Option RateLimit) → RedisRateLimiter → RedisRateLimiter
unfolding put_some
load_upstreams [] rl = rl
load_upstreams ((name, l) ∷ us) rl =
    load_upstreams us (record rl { upstream_limits = put_some name l rl.upstream_limits })

-- NewRedisRateLimiter, once Redis has answered the ping
unfoldable pub new_redis_rate_limiter :
    String
    → Option RateLimit
    → Option RateLimit
    → Option RateLimit
    → List RoleLimits
    → List (String × Option RateLimit)
    → RedisRateLimiter
unfolding load_roles load_upstreams Dict.empty
new_redis_rate_limiter key_prefix default_caller default_tool default_upstream roles upstreams =
    load_upstreams upstreams (
      load_roles roles (record {
        key_prefix = key_prefix;
        default_caller = default_caller;
        default_tool = default_tool;
        default_upstream = default_upstream;
        role_caller = Dict.empty;
        role_tool = Dict.empty;
        upstream_limits = Dict.empty;
      }))

-- `best` is nil or slower than `r`
faster : Option RateLimit → RateLimit → Bool
faster none r = true
faster (some best) r = ltb best.rate r.rate

improve : Option RateLimit → Option RateLimit → Option RateLimit
unfolding faster
improve best none = best
improve best (some r) = if faster best r then some r else best

unfoldable pub best_of : Dict RateLimit → List String → Option RateLimit → Option RateLimit
unfolding improve
best_of limits [] best = best
best_of limits (role ∷ roles) best = best_of limits roles (improve best (Dict.get limits role))

unfoldable pub effective_caller_limit : RedisRateLimiter → List String → Option RateLimit
unfolding best_of
effective_caller_limit rl roles = or_else (best_of rl.role_caller roles none) rl.default_caller

unfoldable pub effective_tool_limit : RedisRateLimiter → List String → Option RateLimit
unfolding best_of
effective_tool_limit rl roles = or_else (best_of rl.role_tool roles none) rl.default_tool

unfoldable pub upstream_limit : RedisRateLimiter → String → Option RateLimit
upstream_limit rl name = or_else (Dict.get rl.upstream_limits name) rl.default_upstream

abbrev pub SortedSet : Type 0
SortedSet = List (String × ℕ)

-- ZREMRANGEBYSCORE key 0 (now - window), then ZCARD
abbrev pub live : ℕ → ℕ → SortedSet → SortedSet
live window now set = filter (λ e. ltb now (e.1 + window)) set

abbrev pub without_member : String → SortedSet → SortedSet
without_member member set = filter (λ e. not (str_eq e.0 member)) set

-- ZADD, which gives a member that is there the new score
abbrev pub zadd : ℕ → String → SortedSet → SortedSet
zadd score member set = (member, score) ∷ without_member member set

-- the Lua script
unfoldable pub sliding_window : ℕ → ℕ → ℕ → String → SortedSet → SortedSet × Bool × ℕ
sliding_window limit window now member set =
    let kept = live window now set in
    if ltb (length kept) limit
    then (zadd now member kept, true, length kept + 1)
    else (kept, false, length kept)

-- the sorted sets, and whether Redis answers
pub record Redis : Type 0 where
  pub sets : Dict SortedSet
  pub answers : Bool

pub record CheckResult : Type 0 where
  pub allowed : Bool
  pub limit : ℕ
  pub count : ℕ
  pub window : ℕ

set_of : Option SortedSet → SortedSet
set_of none = []
set_of (some set) = set

unfoldable pub check_limit_with_info : String → RateLimit → ℕ → String → Redis → Redis × CheckResult
unfolding sliding_window set_of
check_limit_with_info key l now member r =
    let (set, allowed, count) =
      sliding_window l.count (l.window * 1000000) now member (set_of (Dict.get r.sets key)) in
    if r.answers
    then (
      record r { sets = Dict.put r.sets key set },
      record { allowed = allowed; limit = l.count; count = count; window = l.window },
    )
    else (r, record { allowed = false; limit = l.count; count = l.count; window = l.window })

pub record Snapshot : Type 0 where
  pub limit : ℕ
  pub remaining : ℕ
  pub window : ℕ

-- what the levels checked so far have left
pub record Checked : Type 0 where
  pub redis : Redis
  pub snapshots : List Snapshot
  pub denial : Option Level

-- `remaining` is set to 0 where it would be negative, as subtraction does here.
unfoldable pub add_result : Level → Checked → Redis × CheckResult → Checked
add_result level c (r, cr) = record {
  redis = r;
  snapshots =
      record { limit = cr.limit; remaining = cr.limit - cr.count; window = cr.window }
      ∷ c.snapshots;
  denial = if cr.allowed then c.denial else some level;
}

check_limit : Level → String → ℕ → String → Checked → Option RateLimit → Checked
unfolding check_limit_with_info add_result
check_limit level key now member c none = c
check_limit level key now member c (some l) =
    add_result level c (check_limit_with_info key l now member c.redis)

unless_denied : Option Level → Checked → Checked → Checked
unless_denied none next c = next
unless_denied (some l) next c = c

-- One level, under its condition; it is skipped once there is a denial.
unfoldable pub check_level :
    Level → Bool → String → Option RateLimit → ℕ → String → Checked → Checked
unfolding check_limit unless_denied
check_level level applies key limit now member c =
    unless_denied c.denial (if applies then check_limit level key now member c limit else c) c

reverse_onto : {A : Type 0} → List A → List A → List A
reverse_onto [] ys = ys
reverse_onto (x ∷ xs) ys = reverse_onto xs (x ∷ ys)

second : ℕ
second = 1000000000

-- RetryAfter, in nanoseconds: at least a second
retry : Option Level → Snapshot → ℕ
unfolding second
retry none best = 0
retry (some level) best =
    if best.limit == 0 then 0 else max (best.window * second / best.limit) second

result_of : ℕ → Option Level → List Snapshot → Option RateLimitResult
unfolding most_restrictive retry second
result_of now denial [] = none
result_of now denial (s ∷ ss) =
    let best = most_restrictive (λ x. x.remaining) s ss in
    some (record {
      denial = denial;
      limit = best.limit;
      remaining = best.remaining;
      reset_at = now + best.window * second;
      retry_after = retry denial best;
    })

-- the three levels in turn, each with its member; `now` is in microseconds
unfoldable pub check_levels :
    RedisRateLimiter
    → String
    → String
    → String
    → List String
    → ℕ
    → (Level → String)
    → Redis
    → Checked
unfolding check_level
check_levels rl name tool_name upstream_name roles now member r =
    let start : Checked = record { redis = r; snapshots = []; denial = none } in
    let first =
      check_level caller (not (str_eq name "")) (rl.key_prefix ++ ("rl:caller:" ++ name))
        (effective_caller_limit rl roles) now (member caller) start in
    let second_level =
      check_level tool (not (str_eq name "") && not (str_eq tool_name ""))
        (rl.key_prefix ++ ("rl:tool:" ++ (name ++ (":" ++ tool_name))))
        (effective_tool_limit rl roles) now (member tool) first in
    check_level upstream (not (str_eq upstream_name ""))
      (rl.key_prefix ++ ("rl:upstream:" ++ upstream_name)) (upstream_limit rl upstream_name) now
      (member upstream) second_level

-- Allow, with the time in microseconds for the windows and in nanoseconds for ResetAt
unfoldable pub allow :
    RedisRateLimiter
    → String
    → String
    → String
    → List String
    → ℕ
    → (Level → String)
    → ℕ
    → Redis
    → Redis × Option RateLimitResult
unfolding check_levels reverse_onto result_of
allow rl name tool_name upstream_name roles now member now_time r =
    let c = check_levels rl name tool_name upstream_name roles now member r in
    (c.redis, result_of now_time c.denial (reverse_onto c.snapshots []))
