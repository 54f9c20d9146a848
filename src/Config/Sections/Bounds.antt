-- ===== src/Config/Sections/Bounds.antt =====
-- What `convert` guarantees of roles, of the default rate limits and of the health section.
use stile.Prelude.{
  ◌≡◌, ◌⊎◌, sym, refl, inl, inr, String, true, Option, none, some, List, [], ◌∷◌, arith, str_eq,
  eq_iff, Bool-cases, Option-cases, All, is_some, or_else, subst,
}
use stile.Prelude.Int.{ℤ, IsPositive}
use stile.Config.Raw.{RawRoleConfig, RawRateLimitDefaults, RawHealthConfig}
use stile.Config.Limits.{Floats}
use stile.Config.Error.{
  of_role, default_caller, default_tool, default_upstream, check_interval, ok, >>=-eq-ok,
}
use stile.Config.Values.{RoleConfig, RedisConfig, RateLimitDefaults, HealthConfig, find_provider}
use stile.Config.Raw.{RawOauthProviderConfig}
use stile.Config.Validate.Common.{find}
use stile.Config.Validate.Names.{ne_of_str_eq}
use stile.Config.Resilience.{seconds, optional_limit, positive_duration_or}
use stile.Config.Resilience.Bounds.{
  LimitIsUsable, ok_value, optional_limit-IsUsable, positive_duration_or-IsPositive,
}
use stile.Config.Sections.{
  convert_redis, convert_role, role_before, convert_roles, convert_rate_limits, with_redis,
  resolve_redis, health_section, convert_health, convert_providers,
}

-- What a converted role has of the raw one.
pub record RoleConverts (name : String) (r : RawRoleConfig) (c : RoleConfig) : Type 0 where
  pub same_name : c.name ≡ name
  pub same_tools : c.allowed_tools ≡ r.allowed_tools
  pub same_credentials : c.credentials ≡ r.credentials
  pub limit_usable : LimitIsUsable c.rate_limit
  pub tool_limit_usable : LimitIsUsable c.tool_rate_limit

-- The converted roles are those of the names that the map has, in the order of the names.
abbrev pub Follows : List (String × RawRoleConfig) → List String → List RoleConfig → Type 0
Follows roles [] cs = cs ≡ []
Follows roles (name ∷ names) cs =
    ((find name roles ≡ none) × Follows roles names cs)
    ⊎ ((r : RawRoleConfig) × (c : RoleConfig) × (more : List RoleConfig) × (find name roles
          ≡ some r)
        × (cs ≡ c ∷ more)
        × RoleConverts name r c
        × Follows roles names more)

find-All :
    (P : String × RawRoleConfig → Type 0) (roles : List (String × RawRoleConfig)) (name : String)
    (r : RawRoleConfig)
    → All P roles
    → find name roles ≡ some r
    → P (name, r)
unfolding find
find-All P [] name r held h = cc
find-All P ((k, v) ∷ roles) name r held h = elim (Bool-cases (str_eq k name)) [
  | inl t ↦
      let same : v ≡ r = ground arith in
      subst (λ (q : RawRoleConfig). P (name, q)) same
        (subst (λ (n : String). P (n, v)) ((eq_iff k name).0 t) held.0)
  | inr g ↦ find-All P roles name r held.1 (rw g at h)
]

module _ (f : Floats) where
  convert_role-RoleConverts :
      (name : String) (r : RawRoleConfig) (c : RoleConfig)
      → convert_role f name r ≡ ok c
      → RoleConverts name r c
  unfolding convert_role
  convert_role-RoleConverts name r c h =
      let (rl, limit, m1) = >>=-eq-ok (optional_limit f (of_role name) r.rate_limit) _ h in
      let (tl, tool, made) = >>=-eq-ok (optional_limit f (of_role name) r.tool_rate_limit) _ m1 in
      let built : RoleConfig = record {
        name = name;
        allowed_tools = r.allowed_tools;
        credentials = r.credentials;
        rate_limit = rl;
        tool_rate_limit = tl;
      } in
      let converts : RoleConverts name r built = record {
        same_name = refl;
        same_tools = refl;
        same_credentials = refl;
        limit_usable = optional_limit-IsUsable f (of_role name) r.rate_limit rl limit;
        tool_limit_usable = optional_limit-IsUsable f (of_role name) r.tool_rate_limit tl tool;
      } in
      subst (RoleConverts name r) (ok_value built c made) converts

  -- a property of each raw role gives one of each converted role
  pub convert_roles-All :
      (P : String × RawRoleConfig → Type 0) (Q : RoleConfig → Type 0)
      (step : (name : String) (r : RawRoleConfig) (c : RoleConfig)
        → P (name, r)
        → RoleConverts name r c
        → Q c)
      (roles : List (String × RawRoleConfig)) (names : List String) (cs : List RoleConfig)
      → All P roles
      → convert_roles f roles names ≡ ok cs
      → All Q cs
  unfolding convert_roles role_before
  convert_roles-All P Q step roles [] cs held h = subst (All Q) (ok_value [] cs h) tt
  convert_roles-All P Q step roles (name ∷ names) cs held h =
      elim (Option-cases (find name roles)) [
        | inl missing ↦ convert_roles-All P Q step roles names cs held (rw missing at h)
        | inr (r, found) ↦
            let (c, first, rest) = >>=-eq-ok (convert_role f name r) _ (rw found at h) in
            let (more, others, made) = >>=-eq-ok (convert_roles f roles names) _ rest in
            let all : All Q (c ∷ more) = (
              step name r c (find-All P roles name r held found)
                  (convert_role-RoleConverts name r c first),
              convert_roles-All P Q step roles names more held others,
            ) in
            subst (All Q) (ok_value (c ∷ more) cs made) all
      ]

  pub convert_roles-Follows :
      (roles : List (String × RawRoleConfig)) (names : List String) (cs : List RoleConfig)
      → convert_roles f roles names ≡ ok cs
      → Follows roles names cs
  unfolding convert_roles role_before
  convert_roles-Follows roles [] cs h = sym (ok_value [] cs h)
  convert_roles-Follows roles (name ∷ names) cs h = elim (Option-cases (find name roles)) [
    | inl missing ↦ inl (missing, convert_roles-Follows roles names cs (rw missing at h))
    | inr (r, found) ↦
        let (c, first, rest) = >>=-eq-ok (convert_role f name r) _ (rw found at h) in
        let (more, others, made) = >>=-eq-ok (convert_roles f roles names) _ rest in
        inr (
          r,
          c,
          more,
          found,
          sym (ok_value (c ∷ more) cs made),
          convert_role-RoleConverts name r c first,
          convert_roles-Follows roles names more others,
        )
  ]

  pub convert_rate_limits-IsUsable :
      (raw : Option RawRateLimitDefaults) (d : RateLimitDefaults)
      → convert_rate_limits f raw ≡ ok d
      → LimitIsUsable d.default_caller
        × LimitIsUsable d.default_tool
        × LimitIsUsable d.default_upstream
  unfolding convert_rate_limits
  convert_rate_limits-IsUsable none d h =
      subst
        (λ (e : RateLimitDefaults).
          LimitIsUsable e.default_caller
          × LimitIsUsable e.default_tool
          × LimitIsUsable e.default_upstream)
        (ok_value _ d h) (tt, tt, tt)
  convert_rate_limits-IsUsable (some r) d h =
      let (c, p, m1) = >>=-eq-ok (optional_limit f default_caller r.default_caller) _ h in
      let (t, q, m2) = >>=-eq-ok (optional_limit f default_tool r.default_tool) _ m1 in
      let (u, s, made) = >>=-eq-ok (optional_limit f default_upstream r.default_upstream) _ m2 in
      let built : RateLimitDefaults = record {
        backend = r.backend;
        redis = convert_redis r.redis;
        default_caller = c;
        default_tool = t;
        default_upstream = u;
      } in
      let usable : LimitIsUsable built.default_caller
          × LimitIsUsable built.default_tool
          × LimitIsUsable built.default_upstream =
        (
          optional_limit-IsUsable f default_caller r.default_caller c p,
          optional_limit-IsUsable f default_tool r.default_tool t q,
          optional_limit-IsUsable f default_upstream r.default_upstream u s,
        ) in
      subst
        (λ (e : RateLimitDefaults).
          LimitIsUsable e.default_caller
          × LimitIsUsable e.default_tool
          × LimitIsUsable e.default_upstream)
        (ok_value built d made) usable

-- A positive interval, and a Redis server where that is the store.
pub record HealthIsBounded (h : HealthConfig) : Type 0 where
  pub interval_positive : IsPositive h.check_interval
  pub redis_present : h.store ≡ "redis" → is_some h.redis ≡ true

with_redis-IsBounded :
    (h g : HealthConfig) (o : Option RedisConfig)
    → IsPositive h.check_interval
    → with_redis h o ≡ ok g
    → HealthIsBounded g
unfolding with_redis
with_redis-IsBounded h g none p e = cc
with_redis-IsBounded h g (some r) p e =
    let bounded : HealthIsBounded (record h { redis = some r }) = record {
      interval_positive = p;
      redis_present = λ s. refl;
    } in
    subst HealthIsBounded (ok_value (record h { redis = some r }) g e) bounded

resolve_redis-IsBounded :
    (fallback : Option RedisConfig) (h g : HealthConfig)
    → IsPositive h.check_interval
    → resolve_redis fallback h ≡ ok g
    → HealthIsBounded g
unfolding resolve_redis
resolve_redis-IsBounded fallback h g p e = elim (Bool-cases (str_eq h.store "redis")) [
  | inl t ↦ with_redis-IsBounded h g (or_else h.redis fallback) p (rw t at e)
  | inr u ↦
      let bounded : HealthIsBounded h = record {
        interval_positive = p;
        redis_present = λ s. absurd (ne_of_str_eq h.store "redis" u s);
      } in
      subst HealthIsBounded (ok_value h g (rw u at e)) bounded
]

module _ (parse_duration : String → Option ℤ) where
  health_section-IsPositive :
      (raw : Option RawHealthConfig) (h : HealthConfig)
      → health_section parse_duration raw ≡ ok h
      → IsPositive h.check_interval
  unfolding health_section
  health_section-IsPositive none h e =
      subst (λ (k : HealthConfig). IsPositive k.check_interval) (ok_value _ h e) (omega arith)
  health_section-IsPositive (some r) h e =
      let (d, found, made) =
        >>=-eq-ok (positive_duration_or parse_duration check_interval (seconds 30) r.check_interval)
          _ e in
      let positive =
        positive_duration_or-IsPositive parse_duration check_interval (seconds 30) r.check_interval
          d (omega arith) found in
      subst (λ (k : HealthConfig). IsPositive k.check_interval) (ok_value _ h made) positive

  pub convert_health-IsBounded :
      (fallback : Option RedisConfig) (raw : Option RawHealthConfig) (g : HealthConfig)
      → convert_health parse_duration fallback raw ≡ ok g
      → HealthIsBounded g
  unfolding convert_health
  convert_health-IsBounded fallback raw g e =
      let (h, section, resolved) =
        >>=-eq-ok (health_section parse_duration raw) (resolve_redis fallback) e in
      resolve_redis-IsBounded fallback h g (health_section-IsPositive raw h section) resolved

-- a provider that the raw map has is found by its name
pub find_provider-convert_providers :
    (name : String) (ps : List (String × RawOauthProviderConfig))
    → is_some (find name ps) ≡ true
    → is_some (find_provider name (convert_providers ps)) ≡ true
unfolding find find_provider convert_providers
find_provider-convert_providers name [] h = cc
find_provider-convert_providers name ((k, p) ∷ ps) h =
    ground (arith, find_provider-convert_providers name ps)
