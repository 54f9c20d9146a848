-- ===== src/Policy/Redis/FailClosed.antt =====
-- A check of the Redis rate limiter as a whole: when it has a result, and what happens when Redis
-- does not answer.
use stile.Prelude.{
  ℕ, ◌-◌, String, ◌≡◌, ◌≢◌, refl, Bool, true, false, not, ◌&&◌, ◌||◌, Option, none, some, List, [],
  ◌∷◌, arith, str_eq, is_some, ap, ◌∙◌, sym, subst,
}
use stile.Policy.Limits.{
  RateLimit, Level, caller, tool, upstream, RateLimitResult, most_restrictive,
}
use stile.Policy.Redis.{
  RedisRateLimiter, Redis, Checked, Snapshot, CheckResult, effective_caller_limit,
  effective_tool_limit, upstream_limit, check_limit_with_info, add_result, check_limit,
  unless_denied, check_level, check_levels, reverse_onto, result_of, allow,
}

-- What the levels have left so far where Redis does not answer: nothing, or one denial with nothing
-- remaining.
abbrev Left : Bool → Checked → Type 0
Left false c = (c.denial ≡ none) × (c.snapshots ≡ [])
Left true c =
    (level : Level) × (s : Snapshot) × (c.denial ≡ some level)
    × (c.snapshots ≡ s ∷ [])
    × (s.remaining ≡ 0)

record Down (r : Redis) (seen : Bool) (c : Checked) : Type 0 where
  untouched : c.redis ≡ r
  left : Left seen c

unless_denied-none :
    (d : Option Level) (next c : Checked) → d ≡ none → unless_denied d next c ≡ next
unfolding unless_denied
unless_denied-none none next c h = refl
unless_denied-none (some l) next c h = cc

unless_denied-some :
    (d : Option Level) (level : Level) (next c : Checked)
    → d ≡ some level
    → unless_denied d next c ≡ c
unfolding unless_denied
unless_denied-some none level next c h = cc
unless_denied-some (some l) level next c h = refl

abbrev denied_result : RateLimit → CheckResult
denied_result l = record { allowed = false; limit = l.count; count = l.count; window = l.window }

check_silent :
    (key : String) (l : RateLimit) (now : ℕ) (member : String) (r : Redis)
    → r.answers ≡ false
    → check_limit_with_info key l now member r ≡ (r, denied_result l)
unfolding check_limit_with_info
check_silent key l now member r h = ground arith

module _ (r : Redis) (down : r.answers ≡ false) where
  add_denied :
      (level : Level) (l : RateLimit) (c : Checked)
      → Down r false c
      → Down r true (add_result level c (c.redis, denied_result l))
  unfolding add_result
  add_denied level l c d = record {
    untouched = d.untouched;
    left = (
      level,
      record { limit = l.count; remaining = l.count - l.count; window = l.window },
      refl,
      ap (λ ss. record { limit = l.count; remaining = l.count - l.count; window = l.window } ∷ ss)
          d.left.1,
      omega arith,
    );
  }

  check_limit-Down :
      (level : Level) (key : String) (l : RateLimit) (now : ℕ) (member : String) (c : Checked)
      → Down r false c
      → Down r true (check_limit level key now member c (some l))
  unfolding check_limit
  check_limit-Down level key l now member c d =
      subst (λ x. Down r true (add_result level c x))
        (sym (
          check_silent key l now member c.redis (ap (λ (x : Redis). x.answers) d.untouched ∙ down)))
        (add_denied level l c d)

  check_level-Down :
      (level : Level) (applies : Bool) (key : String) (limit : Option RateLimit) (now : ℕ)
      (member : String) (seen : Bool) (c : Checked)
      → Down r seen c
      → Down r
          (seen || (applies && is_some limit))
          (check_level level applies key limit now member c)
  unfolding check_level
  check_level-Down level applies key limit now member true c d =
      let (l, s, p, q, e) = d.left in subst (Down r true) (sym (unless_denied-some _ l _ c p)) d
  check_level-Down level false key limit now member false c d =
      subst (Down r false) (sym (unless_denied-none _ _ c d.left.0)) d
  check_level-Down level true key none now member false c d =
      subst (Down r false) (sym (unless_denied-none _ _ c d.left.0)) (unfold check_limit in d)
  check_level-Down level true key (some l) now member false c d =
      subst (Down r true) (sym (unless_denied-none _ _ c d.left.0))
        (check_limit-Down level key l now member c d)

-- Whether some level has a limit for this call.
abbrev pub is_limited : RedisRateLimiter → String → String → String → List String → Bool
is_limited rl name tool_name upstream_name roles =
    (((false || (not (str_eq name "") && is_some (effective_caller_limit rl roles)))
        || ((not (str_eq name "") && not (str_eq tool_name ""))
            && is_some (effective_tool_limit rl roles)))
      || (not (str_eq upstream_name "") && is_some (upstream_limit rl upstream_name)))

-- no result without a limit, and otherwise a denial with nothing remaining
abbrev pub FailsClosed : Bool → Option RateLimitResult → Type 0
FailsClosed false o = o ≡ none
FailsClosed true o =
    (res : RateLimitResult) × (o ≡ some res) × (res.denial ≢ none) × (res.remaining ≡ 0)

result_of-denied :
    (now : ℕ) (l : Level) (s : Snapshot)
    → s.remaining ≡ 0
    → FailsClosed true (result_of now (some l) (s ∷ []))
unfolding result_of most_restrictive
result_of-denied now l s e = (_, refl, λ h. cc, e)

result_of-FailsClosed :
    (seen : Bool) (now : ℕ) (r : Redis) (c : Checked)
    → Down r seen c
    → FailsClosed seen (result_of now c.denial (reverse_onto c.snapshots []))
unfolding result_of reverse_onto most_restrictive
result_of-FailsClosed false now r c d = ground (arith, d.left)
result_of-FailsClosed true now r c d =
    let (l, s, p, q, e) = d.left in
    subst (λ ss. FailsClosed true (result_of now c.denial (reverse_onto ss []))) (sym q)
      (subst (λ o. FailsClosed true (result_of now o (s ∷ []))) (sym p)
        (result_of-denied now l s e))

-- While Redis does not answer, a check changes nothing and fails closed: if some level has a limit
-- for the call it is denied with nothing remaining, and if none has there is no result.
pub allow-FailsClosed :
    (rl : RedisRateLimiter) (name tool_name upstream_name : String) (roles : List String) (now : ℕ)
    (member : Level → String) (now_time : ℕ) (r : Redis)
    → r.answers ≡ false
    → ((allow rl name tool_name upstream_name roles now member now_time r).0 ≡ r)
      × FailsClosed
          (is_limited rl name tool_name upstream_name roles)
          (allow rl name tool_name upstream_name roles now member now_time r).1
unfolding allow check_levels
allow-FailsClosed rl name tool_name upstream_name roles now member now_time r down =
    let start : Checked = record { redis = r; snapshots = []; denial = none } in
    let d = check_level-Down r down upstream _ _ _ now _ _ _ (
      check_level-Down r down tool _ _ _ now _ _ _ (
        check_level-Down r down caller _ _ _ now _ false start
          (record { untouched = refl; left = (refl, refl) }))) in
    (d.untouched, result_of-FailsClosed _ now_time r _ d)
