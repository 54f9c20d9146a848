-- ===== src/Config/Values.antt =====
-- The configuration of internal/config/config.go as `convert` returns it. Accessors return these
-- fields, or copies of them.
use stile.Prelude.{ℕ, String, Bool, Option, none, some, List, [], ◌∷◌, str_eq, if◌then◌else◌}
use stile.Prelude.Int.{ℤ}
use stile.Config.Limits.{RateLimit}

pub record CircuitBreakerConfig : Type 0 where
  pub failure_threshold : ℤ
  pub cooldown : ℤ

pub record RetryConfig : Type 0 where
  pub max_attempts : ℤ
  pub backoff : ℤ
  pub max_backoff : ℤ
  pub retryable_errors : List String

pub record ServerTlsConfig : Type 0 where
  pub cert_file : String
  pub key_file : String
  pub min_version : String
  pub client_ca_file : String

pub record UpstreamTlsConfig : Type 0 where
  pub ca_file : String
  pub cert_file : String
  pub key_file : String
  pub insecure_skip_verify : Bool

pub record AuthConfig : Type 0 where
  pub auth_type : String
  pub token_env : String
  pub provider : String

-- what both kinds of upstream have
pub record Common : Type 0 where
  pub name : String
  pub tools : Option (List String)
  pub tool_prefix : Option String
  pub rate_limit : Option RateLimit
  pub timeout : ℤ
  pub circuit_breaker : Option CircuitBreakerConfig
  pub retry : Option RetryConfig

pub record HttpUpstreamConfig : Type 0 where
  pub common : Common
  pub url : String
  pub auth : Option AuthConfig
  pub tls : Option UpstreamTlsConfig

pub record StdioUpstreamConfig : Type 0 where
  pub common : Common
  pub command : Option (List String)
  pub env : Option (List (String × String))

-- the sealed interface; `nil_upstream` is its zero value
pub data UpstreamConfig : Type 0 where
  http : HttpUpstreamConfig → UpstreamConfig
  stdio : StdioUpstreamConfig → UpstreamConfig
  nil_upstream : UpstreamConfig

-- what the methods of the interface read; a call on the zero value panics
unfoldable pub common_of : UpstreamConfig → Option Common
common_of (http h) = some h.common
common_of (stdio s) = some s.common
common_of nil_upstream = none

pub record DatabaseConfig : Type 0 where
  pub driver : String
  pub dsn : String

pub record ServerConfig : Type 0 where
  pub address : String
  pub tool_cache_ttl : ℤ
  pub db_path : String
  pub database : DatabaseConfig
  pub shutdown_timeout : ℤ
  pub tls : Option ServerTlsConfig
  pub auth_cache_ttl : ℤ

pub record RoleConfig : Type 0 where
  pub name : String
  pub allowed_tools : List String
  pub credentials : List (String × String)
  pub rate_limit : Option RateLimit
  pub tool_rate_limit : Option RateLimit

pub record RedisConfig : Type 0 where
  pub address : String
  pub password : String
  pub db : ℤ
  pub key_prefix : String

pub record RateLimitDefaults : Type 0 where
  pub backend : String
  pub redis : Option RedisConfig
  pub default_caller : Option RateLimit
  pub default_tool : Option RateLimit
  pub default_upstream : Option RateLimit

pub record LoggingConfig : Type 0 where
  pub level : String
  pub format : String

pub record AuditConfig : Type 0 where
  pub enabled : Bool
  pub database : String
  pub driver : String

pub record TracesConfig : Type 0 where
  pub enabled : Bool
  pub endpoint : String
  pub sample_rate : ℕ

pub record HealthConfig : Type 0 where
  pub store : String
  pub check_interval : ℤ
  pub missing_status : String
  pub redis : Option RedisConfig

pub record OidcConfig : Type 0 where
  pub issuer : String
  pub audience : String
  pub caller_claim : String
  pub validation : String
  pub auto_provision : Bool
  pub default_roles : List String
  pub allowed_domains : List String

pub record OauthProviderConfig : Type 0 where
  pub name : String
  pub auth_url : String
  pub token_url : String
  pub client_id_env : String
  pub client_secret_env : String
  pub scopes : List String

pub record Config : Type 0 where
  pub server : ServerConfig
  pub upstreams : List UpstreamConfig
  pub roles : List RoleConfig
  pub rate_limit_defaults : RateLimitDefaults
  pub logging : LoggingConfig
  pub audit : AuditConfig
  pub traces : TracesConfig
  pub health : HealthConfig
  pub oidc : Option OidcConfig
  pub oauth_providers : List OauthProviderConfig

unfoldable pub find_provider : String → List OauthProviderConfig → Option OauthProviderConfig
find_provider name [] = none
find_provider name (p ∷ ps) = if str_eq p.name name then some p else find_provider name ps

-- `value`, and `default` where it is empty
unfoldable pub text_or : String → String → String
text_or default value = if str_eq value "" then default else value

-- Config.OAuthProvider
unfoldable pub oauth_provider : Config → String → Option OauthProviderConfig
oauth_provider c name = find_provider name c.oauth_providers

-- Config.RateLimitBackend
unfoldable pub rate_limit_backend : Config → String
unfolding text_or
rate_limit_backend c = text_or "local" c.rate_limit_defaults.backend

-- AuditConfig.DatabaseConfig
unfoldable pub audit_database_config : AuditConfig → DatabaseConfig
unfolding text_or
audit_database_config a = record { driver = text_or "sqlite" a.driver; dsn = a.database }
