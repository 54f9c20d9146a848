-- ===== src/Config/Convert/Valid.antt =====
-- What makes a `Config` valid: the numbers are in range, and what its sections say of one another is
-- so.
use stile.Prelude.{
  ◌≡◌, ◌≢◌, String, Bool, true, Option, none, some, List, [], map, All, In, is_some,
}
use stile.Config.Values.{
  AuthConfig, UpstreamConfig, RoleConfig, OauthProviderConfig, Config, find_provider,
}
use stile.Config.Validate.Names.{Nodup}
use stile.Config.Resilience.Bounds.{LimitIsUsable}
use stile.Config.Upstreams.Bounds.{UpstreamIsBounded, upstream_name, auth_of}
use stile.Config.Sections.Bounds.{HealthIsBounded}

abbrev pub OauthIs : (AuthConfig → Type 0) → Option AuthConfig → Type 0
OauthIs P none = Unit
OauthIs P (some a) = a.auth_type ≡ "oauth" → P a

-- the provider of an upstream with oauth is configured
abbrev pub ProviderIsKnown : List OauthProviderConfig → UpstreamConfig → Type 0
ProviderIsKnown providers c =
    OauthIs (λ a. is_some (find_provider a.provider providers) ≡ true) (auth_of c)

-- A credential of a role is for a configured upstream that does not use oauth.
pub record CredentialIsLinked (cs : List UpstreamConfig) (c : String × String) : Type 0 where
  pub configured : In c.0 (map upstream_name cs)
  pub variable_named : c.1 ≢ ""
  pub not_oauth : All (λ u. OauthIs (λ _. upstream_name u ≢ c.0) (auth_of u)) cs

pub record RoleIsLinked (compiles : String → Bool) (cs : List UpstreamConfig) (r : RoleConfig)
    : Type 0 where
  pub named : r.name ≢ ""
  pub has_tools : r.allowed_tools ≢ []
  pub patterns_compile : All (λ p. compiles p ≡ true) r.allowed_tools
  pub credentials_linked : All (CredentialIsLinked cs) r.credentials
  pub limit_usable : LimitIsUsable r.rate_limit
  pub tool_limit_usable : LimitIsUsable r.tool_rate_limit

pub record IsValid (compiles : String → Bool) (c : Config) : Type 0 where
  pub upstreams_bounded : All UpstreamIsBounded c.upstreams
  pub names_distinct : Nodup (map upstream_name c.upstreams)
  pub providers_known : All (ProviderIsKnown c.oauth_providers) c.upstreams
  pub roles_linked : All (RoleIsLinked compiles c.upstreams) c.roles
  pub caller_limit : LimitIsUsable c.rate_limit_defaults.default_caller
  pub tool_limit : LimitIsUsable c.rate_limit_defaults.default_tool
  pub upstream_limit : LimitIsUsable c.rate_limit_defaults.default_upstream
  pub health_bounded : HealthIsBounded c.health
