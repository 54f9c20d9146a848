-- ===== src/Policy/Local.antt =====
-- `LocalRateLimiter` of internal/policy/ratelimit.go. The mutex is held for the whole of Allow, so a
-- call is one step. Token buckets are those of golang.org/x/time/rate: a type `L` of limiters with
-- the operations of `Buckets`. A `rate.Limit` is `none` where it is rate.Inf. The floating-point
-- arithmetic of ResetAt and RetryAfter is the argument `times`.

pub mod Bounded
pub mod Denied
use stile.Prelude.{
  ℕ, ◌+◌, String, Bool, true, false, not, ◌&&◌, ◌||◌, Option, none, some, List, [], ◌∷◌, ◌++◌,
  str_eq, ltb, leb, if◌then◌else◌, is_some, or_else,
}
use stile.Prelude.Dict
use stile.Prelude.Dict.{Dict}
use stile.Policy.Limits.{
  RateLimit, Level, caller, tool, upstream, RateLimitResult, most_restrictive,
}

-- a rate.Limit with its burst
pub record Bucket : Type 0 where
  pub rate : Option ℕ
  pub burst : ℕ

-- golang.org/x/time/rate: NewLimiter, Allow at a time, and int(Tokens()) of what is not negative
pub record Buckets (L : Type 0) : Type 0 where
  pub new_limiter : Bucket → L
  pub take : ℕ → L → L × Bool
  pub tokens : ℕ → L → ℕ
  pub settings : L → Bucket

pub record LocalRateLimiter (L : Type 0) : Type 0 where
  pub caller_limiters : Dict L
  pub tool_limiters : Dict (Dict L)
  pub upstream_limiters : Dict L
  pub default_caller : Bucket
  pub default_tool : Bucket
  pub role_caller : Dict Bucket
  pub role_tool : Dict Bucket
  pub registered : Dict (Bucket × Bucket)

-- limitSnapshot
pub record Snapshot : Type 0 where
  pub limit : ℕ
  pub remaining : ℕ
  pub rate : Option ℕ

abbrev pub max_tool_limiters : ℕ
max_tool_limiters = 1000

abbrev pub bucket_of : RateLimit → Bucket
bucket_of l = record { rate = some l.rate; burst = l.burst }

-- `best` is rate.Inf or slower
slower : Bucket → Bucket → Bool
slower best r = by_rate best.rate r.rate
  where
    by_rate : Option ℕ → Option ℕ → Bool
    by_rate none r = true
    by_rate (some b) none = true
    by_rate (some b) (some r) = ltb b r

raise : Bucket → Option Bucket → Bucket
unfolding slower
raise best none = best
raise best (some r) = if slower best r then r else best

unfoldable pub most_permissive : Dict Bucket → List String → Bucket → Bucket
unfolding raise
most_permissive rates [] best = best
most_permissive rates (role ∷ roles) best =
    most_permissive rates roles (raise best (Dict.get rates role))

module _ {L : Type 0} (buckets : Buckets L) where
  -- registerCallerLocked
  unfoldable pub register_caller : LocalRateLimiter L → String → List String → LocalRateLimiter L
  unfolding most_permissive
  register_caller rl name roles = if is_some (Dict.get rl.registered name) then rl else record rl {
    registered = Dict.put rl.registered name (
      most_permissive rl.role_caller roles rl.default_caller,
      most_permissive rl.role_tool roles rl.default_tool,
    );
  }

  unfoldable pub caller_bucket : LocalRateLimiter L → String → Bucket
  caller_bucket rl name = first rl.default_caller (Dict.get rl.registered name)
    where
      first : Bucket → Option (Bucket × Bucket) → Bucket
      first d none = d
      first d (some (c, t)) = c

  unfoldable pub tool_bucket : LocalRateLimiter L → String → Bucket
  tool_bucket rl name = second rl.default_tool (Dict.get rl.registered name)
    where
      second : Bucket → Option (Bucket × Bucket) → Bucket
      second d none = d
      second d (some (c, t)) = t

  created : Bucket → Option L
  created b = if is_some b.rate then some (buckets.new_limiter b) else none

  -- getOrCreateCallerLimiterLocked; the map gets the limiter back when it has been used
  unfoldable pub caller_limiter : LocalRateLimiter L → String → Option L
  unfolding created caller_bucket
  caller_limiter rl name =
      or_else (Dict.get rl.caller_limiters name) (created (caller_bucket rl name))

  tools_of : Option (Dict L) → Dict L
  tools_of none = Dict.empty
  tools_of (some tools) = tools

  -- the caller's map of tool limiters, which is made where it is missing
  unfoldable pub caller_tools : LocalRateLimiter L → String → Dict L
  unfolding tools_of
  caller_tools rl name = tools_of (Dict.get rl.tool_limiters name)

  -- getOrCreateToolLimiterLocked
  unfoldable pub tool_limiter : LocalRateLimiter L → String → String → Option L
  unfolding created tool_bucket
  tool_limiter rl name tool_name =
      or_else (Dict.get (caller_tools rl name) tool_name) (created (tool_bucket rl name))

  -- A used limiter is kept in the caller's map if it was there, or if the map has room.
  with_tool : Dict L → String → Option L → Dict L
  with_tool tools tool_name none = tools
  with_tool tools tool_name (some used) =
      if is_some (Dict.get tools tool_name) || ltb (Dict.size tools) max_tool_limiters
      then Dict.put tools tool_name used
      else tools

  unfoldable pub keep_tool : LocalRateLimiter L → String → String → Option L → LocalRateLimiter L
  unfolding with_tool caller_tools
  keep_tool rl name tool_name used = record rl {
    tool_limiters =
        Dict.put rl.tool_limiters name (with_tool (caller_tools rl name) tool_name used);
  }

  unfoldable pub snapshot : ℕ → L → Snapshot
  snapshot now l = record {
    limit = (buckets.settings l).burst;
    remaining = buckets.tokens now l;
    rate = (buckets.settings l).rate;
  }

-- a configured role, with its two limits
pub record RoleLimits : Type 0 where
  pub name : String
  pub rate_limit : Option RateLimit
  pub tool_rate_limit : Option RateLimit

-- a default that is not configured is rate.Inf, with burst 0
or_inf : Option RateLimit → Bucket
or_inf none = record { rate = none; burst = 0 }
or_inf (some l) = bucket_of l

put_some : String → Option RateLimit → Dict Bucket → Dict Bucket
put_some name none d = d
put_some name (some l) d = Dict.put d name (bucket_of l)

role_buckets : (RoleLimits → Option RateLimit) → List RoleLimits → Dict Bucket → Dict Bucket
unfolding put_some
role_buckets limit [] d = d
role_buckets limit (r ∷ rs) d = role_buckets limit rs (put_some r.name (limit r) d)

module _ {L : Type 0} (buckets : Buckets L) where
  -- the eager limiter of an upstream: its own, or the default unless that is rate.Inf
  add_upstream : Bucket → String → Option RateLimit → Dict L → Dict L
  add_upstream default_bucket name (some l) d = Dict.put d name (buckets.new_limiter (bucket_of l))
  add_upstream default_bucket name none d =
      if is_some default_bucket.rate
      then Dict.put d name (buckets.new_limiter default_bucket)
      else d

  upstream_buckets : Bucket → List (String × Option RateLimit) → Dict L → Dict L
  unfolding add_upstream
  upstream_buckets default_bucket [] d = d
  upstream_buckets default_bucket ((name, l) ∷ us) d =
      upstream_buckets default_bucket us (add_upstream default_bucket name l d)

  -- NewLocalRateLimiter
  unfoldable pub new_local_rate_limiter :
      Option RateLimit
      → Option RateLimit
      → Option RateLimit
      → List (String × Option RateLimit)
      → List RoleLimits
      → LocalRateLimiter L
  unfolding upstream_buckets role_buckets or_inf Dict.empty Dict.put Dict.get
  new_local_rate_limiter for_caller for_tool for_upstream upstreams roles = record {
    caller_limiters = Dict.empty;
    tool_limiters = Dict.empty;
    upstream_limiters = upstream_buckets (or_inf for_upstream) upstreams Dict.empty;
    default_caller = or_inf for_caller;
    default_tool = or_inf for_tool;
    role_caller = role_buckets (λ r. r.rate_limit) roles Dict.empty;
    role_tool = role_buckets (λ r. r.tool_rate_limit) roles Dict.empty;
    registered = Dict.empty;
  }

-- what the levels checked so far have left
pub record Checked (L : Type 0) : Type 0 where
  pub limiter : LocalRateLimiter L
  pub snapshots : List Snapshot
  pub denial : Option Level

-- the arithmetic on the rate of the reported snapshot: how long until the limit resets, and how long
-- to wait after a denial
pub record Times : Type 0 where
  pub reset_after : Snapshot → ℕ
  pub retry_after : Snapshot → ℕ

module _ {L : Type 0} (buckets : Buckets L) where
  used : Option (L × Bool) → Option L
  used none = none
  used (some (l, ok)) = some l

  take_from : ℕ → Option L → Option (L × Bool)
  take_from now none = none
  take_from now (some l) = some (buckets.take now l)

  -- the level's snapshot, and its denial where the bucket is empty
  pub note : ℕ → Level → Option (L × Bool) → Checked L → Checked L
  unfolding snapshot
  note now level none c = c
  note now level (some (l, ok)) c = record c {
    snapshots = c.snapshots ++ snapshot buckets now l ∷ [];
    denial = if ok then c.denial else some level;
  }

  put_used : String → Option L → Dict L → Dict L
  put_used name none d = d
  put_used name (some l) d = Dict.put d name l

  check_caller : ℕ → String → Checked L → Checked L
  unfolding used take_from note put_used caller_limiter
  check_caller now name c =
      let taken = take_from now (caller_limiter buckets c.limiter name) in
      note now caller taken (record c {
        limiter = record c.limiter {
          caller_limiters = put_used name (used taken) c.limiter.caller_limiters;
        };
      })

  check_tool : ℕ → String → String → Checked L → Checked L
  unfolding used take_from note keep_tool tool_limiter
  check_tool now name tool_name c =
      let taken = take_from now (tool_limiter buckets c.limiter name tool_name) in
      note now tool taken
        (record c { limiter = keep_tool buckets c.limiter name tool_name (used taken) })

  check_upstream : ℕ → String → Checked L → Checked L
  unfolding used take_from note put_used
  check_upstream now name c =
      let taken = take_from now (Dict.get c.limiter.upstream_limiters name) in
      note now upstream taken (record c {
        limiter = record c.limiter {
          upstream_limiters = put_used name (used taken) c.limiter.upstream_limiters;
        };
      })

  pub unless_denied : Option Level → Bool → Checked L → Checked L → Checked L
  unless_denied none applies next c = if applies then next else c
  unless_denied (some l) applies next c = c

  has_roles : List String → Bool
  has_roles [] = false
  has_roles (r ∷ rs) = true

  start : LocalRateLimiter L → String → List String → Checked L
  unfolding register_caller has_roles
  start rl name roles = record {
    limiter =
        if not (str_eq name "") && has_roles roles
        then register_caller buckets rl name roles
        else rl;
    snapshots = [];
    denial = none;
  }

  after_caller : ℕ → String → Checked L → Checked L
  unfolding check_caller unless_denied
  after_caller now name c =
      unless_denied c.denial (not (str_eq name "")) (check_caller now name c) c

  after_tool : ℕ → String → String → Checked L → Checked L
  unfolding check_tool unless_denied
  after_tool now name tool_name c =
      unless_denied c.denial (not (str_eq name "") && not (str_eq tool_name ""))
        (check_tool now name tool_name c) c

  after_upstream : ℕ → String → Checked L → Checked L
  unfolding check_upstream unless_denied
  after_upstream now name c =
      unless_denied c.denial (not (str_eq name "")) (check_upstream now name c) c

  -- the three levels in turn; there is no denial before the first
  unfoldable pub check_levels :
      LocalRateLimiter L → String → String → String → List String → ℕ → Checked L
  unfolding start after_caller after_tool after_upstream
  check_levels rl name tool_name upstream_name roles now =
      after_upstream now upstream_name
        (after_tool now name tool_name (after_caller now name (start rl name roles)))

  denied_retry : Times → Option Level → Snapshot → ℕ
  denied_retry times none best = 0
  denied_retry times (some l) best = times.retry_after best

  result_of : Times → ℕ → Option Level → List Snapshot → Option RateLimitResult
  unfolding most_restrictive denied_retry
  result_of times now denial [] = none
  result_of times now denial (s ∷ ss) =
      let best = most_restrictive (λ x. x.remaining) s ss in
      some (record {
        denial = denial;
        limit = best.limit;
        remaining = best.remaining;
        reset_at = now + times.reset_after best;
        retry_after = denied_retry times denial best;
      })

  unfoldable pub allow :
      Times
      → LocalRateLimiter L
      → String
      → String
      → String
      → List String
      → ℕ
      → LocalRateLimiter L × Option RateLimitResult
  unfolding check_levels result_of
  allow times rl name tool_name upstream_name roles now =
      let c = check_levels rl name tool_name upstream_name roles now in
      (c.limiter, result_of times now c.denial c.snapshots)
