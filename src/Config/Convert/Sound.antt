-- ===== src/Config/Convert/Sound.antt =====
-- `convert` of internal/config/config.go returns no invalid `Config`.
use stile.Prelude.{
  ◌≡◌, ◌≢◌, refl, sym, ◌∙◌, ◌⊎◌, inl, inr, String, Bool, true, Option, none, some, List, [], ◌∷◌,
  map, All, All-imp, In, is_some, subst,
}
use stile.Prelude.Int.{ℤ}
use stile.Config.Raw.{
  RawConfig, RawUpstreamConfig, RawAuthConfig, RawRoleConfig, RawOauthProviderConfig,
}
use stile.Config.Limits.{Floats}
use stile.Config.Error.{Check, ok, >>=-eq-ok}
use stile.Config.Values.{AuthConfig, UpstreamConfig, RoleConfig, Config, find_provider}
use stile.Config.Validate.{validate, names_of}
use stile.Config.Validate.Names.{Nodup, IsUsable, IsReachable}
use stile.Config.Validate.References.{
  UsesOauth, AuthIsKnown, CredentialIsUsable, RoleIsUsable, IsConsistent, validate-IsConsistent,
}
use stile.Config.Resilience.Bounds.{ok_value}
use stile.Config.Upstreams.{convert_auth, convert_upstreams}
use stile.Config.Upstreams.Bounds.{
  UpstreamIsBounded, upstream_name, auth_of, Converts, convert_upstreams-All,
  convert_upstreams-names,
}
use stile.Config.Sections.{
  convert_server, convert_roles, convert_rate_limits, convert_telemetry, convert_logging,
  convert_audit, convert_health, convert_providers, convert_oidc,
}
use stile.Config.Sections.Bounds.{
  RoleConverts, convert_roles-All, convert_rate_limits-IsUsable, convert_health-IsBounded,
  find_provider-convert_providers,
}
use stile.Config.Convert.Valid.{OauthIs, ProviderIsKnown, CredentialIsLinked, RoleIsLinked, IsValid}
use stile.Config.Convert.{convert_valid, unless_refused, convert}

All-Unit : {A : Type 0} (xs : List A) → All (λ _. Unit {0}) xs
All-Unit [] = tt
All-Unit (x ∷ xs) = (tt, All-Unit xs)

-- what is so of the auth of the raw upstream is so of that of the converted one
OauthIs-Converts :
    (P : AuthConfig → Type 0) (a : Option RawAuthConfig) (b : Option AuthConfig)
    → (b ≡ convert_auth a) ⊎ (b ≡ none)
    → OauthIs P (convert_auth a)
    → OauthIs P b
OauthIs-Converts P a b (inl e) h = subst (OauthIs P) (sym e) h
OauthIs-Converts P a b (inr e) h = subst (OauthIs P) (sym e) tt

provider_auth :
    (providers : List (String × RawOauthProviderConfig)) (a : Option RawAuthConfig)
    → AuthIsKnown providers a
    → OauthIs
        (λ b. is_some (find_provider b.provider (convert_providers providers)) ≡ true)
        (convert_auth a)
unfolding convert_auth
provider_auth providers none h = tt
provider_auth providers (some a) h = λ e. find_provider-convert_providers a.provider providers (h e)

provider_lem :
    (providers : List (String × RawOauthProviderConfig)) (u : RawUpstreamConfig)
    (c : UpstreamConfig)
    → AuthIsKnown providers u.auth
    → Converts u c
    → ProviderIsKnown (convert_providers providers) c
provider_lem providers u c known k =
    OauthIs-Converts (λ b. is_some (find_provider b.provider (convert_providers providers)) ≡ true)
      u.auth (auth_of c) k.same_auth (provider_auth providers u.auth known)

uses_oauth :
    (N : Type 0) (a : Option RawAuthConfig) → (UsesOauth a → N) → OauthIs (λ _. N) (convert_auth a)
unfolding convert_auth
uses_oauth N none h = tt
uses_oauth N (some a) h = h

not_oauth_lem :
    (name : String) (u : RawUpstreamConfig) (c : UpstreamConfig)
    → (UsesOauth u.auth → u.name ≢ name)
    → Converts u c
    → OauthIs (λ _. upstream_name c ≢ name) (auth_of c)
not_oauth_lem name u c h k =
    OauthIs-Converts (λ _. upstream_name c ≢ name) u.auth (auth_of c) k.same_auth
      (uses_oauth (upstream_name c ≢ name) u.auth (λ o e. h o (sym k.same_name ∙ e)))

module _ (f : Floats) (parse_duration : String → Option ℤ) (compiles : String → Bool)
    (raw : RawConfig) (v : IsConsistent compiles raw) (cs : List UpstreamConfig)
    (made : convert_upstreams f parse_duration raw.upstreams ≡ ok cs) where
  reachable : All IsReachable raw.upstreams
  reachable = All-imp IsUsable IsReachable raw.upstreams (λ u p. p.reachable) v.upstreams_usable

  same_names : map upstream_name cs ≡ names_of raw.upstreams
  same_names = convert_upstreams-names f parse_duration raw.upstreams cs reachable made

  upstreams_lem :
      (P : RawUpstreamConfig → Type 0) (Q : UpstreamConfig → Type 0)
      → ((u : RawUpstreamConfig) (c : UpstreamConfig) → P u → Converts u c → Q c)
      → All P raw.upstreams
      → All Q cs
  upstreams_lem P Q step held =
      convert_upstreams-All f parse_duration P Q step raw.upstreams cs reachable held made

  credential_lem :
      (c : String × String) → CredentialIsUsable raw.upstreams c → CredentialIsLinked cs c
  credential_lem c u = record {
    configured = subst (In c.0) (sym same_names) u.configured;
    variable_named = u.variable_named;
    not_oauth =
        upstreams_lem (λ r. UsesOauth r.auth → r.name ≢ c.0)
          (λ k. OauthIs (λ _. upstream_name k ≢ c.0) (auth_of k)) (not_oauth_lem c.0) u.not_oauth;
  }

  role_lem :
      (name : String) (r : RawRoleConfig) (c : RoleConfig)
      → RoleIsUsable compiles raw.upstreams (name, r)
      → RoleConverts name r c
      → RoleIsLinked compiles cs c
  role_lem name r c u k = record {
    named = λ e. u.named (sym k.same_name ∙ e);
    has_tools = λ e. u.has_tools (sym k.same_tools ∙ e);
    patterns_compile = subst (All (λ p. compiles p ≡ true)) (sym k.same_tools) u.patterns_compile;
    credentials_linked = subst (All (CredentialIsLinked cs)) (sym k.same_credentials) (
        All-imp (CredentialIsUsable raw.upstreams) (CredentialIsLinked cs) r.credentials
          credential_lem u.credentials_usable);
    limit_usable = k.limit_usable;
    tool_limit_usable = k.tool_limit_usable;
  }

module _ (f : Floats) (parse_duration : String → Option ℤ) (compiles : String → Bool) where
  convert_valid-IsValid :
      (raw : RawConfig) (c : Config)
      → IsConsistent compiles raw
      → convert_valid f parse_duration raw ≡ ok c
      → IsValid compiles c
  unfolding convert_valid
  convert_valid-IsValid raw c v h =
      let (server, _, m1) = >>=-eq-ok (convert_server parse_duration raw.server) _ h in
      let (cs, made, m2) = >>=-eq-ok (convert_upstreams f parse_duration raw.upstreams) _ m1 in
      let (roles, converted, m3) = >>=-eq-ok (convert_roles f raw.roles raw.roles_ordered) _ m2 in
      let (limits, limited, m4) = >>=-eq-ok (convert_rate_limits f raw.rate_limits) _ m3 in
      let (health, checked, built) =
        >>=-eq-ok (convert_health parse_duration limits.redis raw.health) _ m4 in
      let (caller_ok, tool_ok, upstream_ok) =
        convert_rate_limits-IsUsable f raw.rate_limits limits limited in
      let whole : Config = record {
        server = server;
        upstreams = cs;
        roles = roles;
        rate_limit_defaults = limits;
        logging = convert_logging raw.logging;
        audit = convert_audit raw.audit;
        traces = convert_telemetry f raw.telemetry;
        health = health;
        oidc = convert_oidc raw.auth;
        oauth_providers = convert_providers raw.oauth_providers;
      } in
      let each = upstreams_lem f parse_duration compiles raw v cs made in
      let valid : IsValid compiles whole = record {
        upstreams_bounded =
            each (λ _. Unit {0}) UpstreamIsBounded (λ u k p b. b.bounded) (All-Unit raw.upstreams);
        names_distinct =
            subst Nodup (sym (same_names f parse_duration compiles raw v cs made)) v.names_distinct;
        providers_known =
            each (λ u. AuthIsKnown raw.oauth_providers u.auth)
              (ProviderIsKnown (convert_providers raw.oauth_providers))
              (provider_lem raw.oauth_providers) v.auth_known;
        roles_linked =
            convert_roles-All f (RoleIsUsable compiles raw.upstreams) (RoleIsLinked compiles cs)
              (role_lem f parse_duration compiles raw v cs made) raw.roles raw.roles_ordered roles
              v.roles_usable converted;
        caller_limit = caller_ok;
        tool_limit = tool_ok;
        upstream_limit = upstream_ok;
        health_bounded =
            convert_health-IsBounded parse_duration limits.redis raw.health health checked;
      } in
      subst (IsValid compiles) (ok_value whole c built) valid

  unless_refused-IsValid :
      (check : Check) (raw : RawConfig) (c : Config)
      → validate f compiles raw ≡ check
      → unless_refused f parse_duration check raw ≡ ok c
      → IsValid compiles c
  unfolding unless_refused
  unless_refused-IsValid (some e) raw c h made = cc
  unless_refused-IsValid none raw c h made =
      convert_valid-IsValid raw c (validate-IsConsistent f compiles raw h) made

  -- A configuration that convert returns is valid, whatever the order in which Go ranges over its
  -- maps: each upstream is of one of the two kinds, with a positive timeout, a positive threshold
  -- and cooldown of its breaker, at least one attempt and a usable rate limit, and the names are
  -- distinct; the provider of each upstream with oauth is configured; each role has a name, patterns
  -- that compile, and credentials only for configured upstreams without oauth; the default limits
  -- are usable, the health interval is positive, and a Redis health store has its server.
  pub convert-IsValid :
      (raw : RawConfig) (c : Config)
      → convert f parse_duration compiles raw ≡ ok c
      → IsValid compiles c
  unfolding convert
  convert-IsValid raw c h = unless_refused-IsValid (validate f compiles raw) raw c refl h
