-- ===== src/Config/Raw.antt =====
-- The raw types of internal/config/config.go, as gopkg.in/yaml.v3 fills them. A pointer is an
-- `Option`, a text that is not set is empty, and a map is the list of its bindings in the order in
-- which Go ranges over it, which is any. A float64 is a number that spells its bits.
use stile.Prelude.{ℕ, String, Bool, Option, List}
use stile.Prelude.Int.{ℤ}

pub record RawRoleConfig : Type 0 where
  pub allowed_tools : List String
  pub credentials : List (String × String)
  pub rate_limit : String
  pub tool_rate_limit : String

pub record RawRedisConfig : Type 0 where
  pub address : String
  pub password : String
  pub db : ℤ
  pub key_prefix : String

pub record RawRateLimitDefaults : Type 0 where
  pub backend : String
  pub redis : Option RawRedisConfig
  pub default_caller : String
  pub default_tool : String
  pub default_upstream : String

pub record RawLoggingConfig : Type 0 where
  pub level : String
  pub format : String

pub record RawAuditConfig : Type 0 where
  pub enabled : Bool
  pub database : String
  pub driver : String

pub record RawTracesConfig : Type 0 where
  pub enabled : Bool
  pub endpoint : String
  pub sample_rate : ℕ

pub record RawTelemetryConfig : Type 0 where
  pub traces : Option RawTracesConfig

pub record RawHealthConfig : Type 0 where
  pub store : String
  pub check_interval : String
  pub missing_status : String
  pub redis : Option RawRedisConfig

pub record RawOidcConfig : Type 0 where
  pub issuer : String
  pub audience : String
  pub caller_claim : String
  pub validation : String
  pub auto_provision : Bool
  pub default_roles : List String
  pub allowed_domains : List String

pub record RawInboundAuthConfig : Type 0 where
  pub oidc : Option RawOidcConfig

pub record RawOauthProviderConfig : Type 0 where
  pub auth_url : String
  pub token_url : String
  pub client_id_env : String
  pub client_secret_env : String
  pub scopes : List String

pub record RawDatabaseConfig : Type 0 where
  pub driver : String
  pub dsn : String

pub record RawServerTlsConfig : Type 0 where
  pub cert_file : String
  pub key_file : String
  pub min_version : String
  pub client_ca_file : String

pub record RawServerConfig : Type 0 where
  pub address : String
  pub tool_cache_ttl : String
  pub db_path : String
  pub database : Option RawDatabaseConfig
  pub shutdown_timeout : String
  pub tls : Option RawServerTlsConfig
  pub auth_cache_ttl : String

pub record RawCircuitBreakerConfig : Type 0 where
  pub failure_threshold : ℤ
  pub cooldown : String

pub record RawRetryConfig : Type 0 where
  pub max_attempts : ℤ
  pub backoff : String
  pub max_backoff : String
  pub retryable_errors : List String

pub record RawAuthConfig : Type 0 where
  pub auth_type : String
  pub token_env : String
  pub provider : String

pub record RawUpstreamTlsConfig : Type 0 where
  pub ca_file : String
  pub cert_file : String
  pub key_file : String
  pub insecure_skip_verify : Bool

pub record RawUpstreamConfig : Type 0 where
  pub name : String
  pub url : String
  pub command : Option (List String)
  pub env : Option (List (String × String))
  pub transport : String
  pub auth : Option RawAuthConfig
  pub tls : Option RawUpstreamTlsConfig
  pub tools : Option (List String)
  pub tool_prefix : Option String
  pub rate_limit : String
  pub timeout : String
  pub circuit_breaker : Option RawCircuitBreakerConfig
  pub retry : Option RawRetryConfig

pub record RawConfig : Type 0 where
  pub server : RawServerConfig
  pub upstreams : List RawUpstreamConfig
  pub roles : List (String × RawRoleConfig)
  pub rate_limits : Option RawRateLimitDefaults
  pub logging : Option RawLoggingConfig
  pub audit : Option RawAuditConfig
  pub telemetry : Option RawTelemetryConfig
  pub health : Option RawHealthConfig
  pub auth : Option RawInboundAuthConfig
  pub oauth_providers : List (String × RawOauthProviderConfig)
  pub roles_ordered : List String
