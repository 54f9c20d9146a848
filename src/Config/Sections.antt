-- ===== src/Config/Sections.antt =====
-- The other sections that `convert` of internal/config/config.go completes: server, roles, logging,
-- audit, rate limits, telemetry, health, OAuth providers and OIDC.
pub mod Bounds
use stile.Prelude.{
  String, Bool, true, false, ◌&&◌, Option, none, some, List, [], ◌∷◌, str_eq, if◌then◌else◌,
  or_else,
}
use stile.Prelude.Int.{ℤ, pos}
use stile.Config.Raw.{
  RawDatabaseConfig, RawServerTlsConfig, RawServerConfig, RawRoleConfig, RawLoggingConfig,
  RawAuditConfig, RawRedisConfig, RawRateLimitDefaults, RawTracesConfig, RawTelemetryConfig,
  RawHealthConfig, RawOidcConfig, RawInboundAuthConfig, RawOauthProviderConfig,
}
use stile.Config.Limits.{Floats}
use stile.Config.Error.{
  tool_cache_ttl, shutdown_timeout, auth_cache_ttl, check_interval, of_role, default_caller,
  default_tool, default_upstream, health_redis_required, Result, ok, err, ◌>>=◌,
}
use stile.Config.Values.{
  ServerTlsConfig, DatabaseConfig, ServerConfig, RoleConfig, RedisConfig, RateLimitDefaults,
  LoggingConfig, AuditConfig, TracesConfig, HealthConfig, OidcConfig, OauthProviderConfig, text_or,
}
use stile.Config.Resilience.{seconds, optional_limit, duration_or, positive_duration_or}
use stile.Config.Validate.Common.{find}

-- an explicit database section takes precedence over db_path
convert_database : String → Option RawDatabaseConfig → DatabaseConfig
unfolding text_or
convert_database db_path (some d) = record { driver = text_or "sqlite" d.driver; dsn = d.dsn }
convert_database db_path none =
    if str_eq db_path ""
    then record { driver = ""; dsn = "" }
    else record { driver = "sqlite"; dsn = db_path }

convert_server_tls : Option RawServerTlsConfig → Option ServerTlsConfig
unfolding text_or
convert_server_tls none = none
convert_server_tls (some t) = some (record {
  cert_file = t.cert_file;
  key_file = t.key_file;
  min_version = text_or "1.2" t.min_version;
  client_ca_file = t.client_ca_file;
})

module _ (parse_duration : String → Option ℤ) where
  unfoldable pub convert_server : RawServerConfig → Result ServerConfig
  unfolding convert_database convert_server_tls duration_or text_or
  convert_server s = do
    ttl ← duration_or parse_duration tool_cache_ttl (seconds 300) s.tool_cache_ttl
    st ← duration_or parse_duration shutdown_timeout (seconds 30) s.shutdown_timeout
    act ← duration_or parse_duration auth_cache_ttl (pos 0) s.auth_cache_ttl
    ok (record {
      address = text_or ":8080" s.address;
      tool_cache_ttl = ttl;
      db_path = s.db_path;
      database = convert_database s.db_path s.database;
      shutdown_timeout = st;
      tls = convert_server_tls s.tls;
      auth_cache_ttl = act;
    })

unfoldable pub convert_redis : Option RawRedisConfig → Option RedisConfig
unfolding text_or
convert_redis none = none
convert_redis (some r) = some (record {
  address = r.address;
  password = r.password;
  db = r.db;
  key_prefix = text_or "stile:" r.key_prefix;
})

module _ (f : Floats) where
  unfoldable pub convert_role : String → RawRoleConfig → Result RoleConfig
  unfolding optional_limit
  convert_role name r = do
    rl ← optional_limit f (of_role name) r.rate_limit
    tl ← optional_limit f (of_role name) r.tool_rate_limit
    ok (record {
      name = name;
      allowed_tools = r.allowed_tools;
      credentials = r.credentials;
      rate_limit = rl;
      tool_rate_limit = tl;
    })

  -- `continue` where the map has no such role
  role_before : String → Option RawRoleConfig → Result (List RoleConfig) → Result (List RoleConfig)
  unfolding convert_role
  role_before name none rest = rest
  role_before name (some r) rest = do rc ← convert_role name r; rcs ← rest; ok (rc ∷ rcs)

  -- the loop over the names in the order of the document
  unfoldable pub convert_roles :
      List (String × RawRoleConfig) → List String → Result (List RoleConfig)
  unfolding role_before find
  convert_roles roles [] = ok []
  convert_roles roles (name ∷ names) =
      role_before name (find name roles) (convert_roles roles names)

  unfoldable pub convert_rate_limits : Option RawRateLimitDefaults → Result RateLimitDefaults
  unfolding convert_redis optional_limit
  convert_rate_limits none = ok (record {
    backend = "";
    redis = none;
    default_caller = none;
    default_tool = none;
    default_upstream = none;
  })
  convert_rate_limits (some r) = do
    c ← optional_limit f default_caller r.default_caller
    t ← optional_limit f default_tool r.default_tool
    u ← optional_limit f default_upstream r.default_upstream
    ok (record {
      backend = r.backend;
      redis = convert_redis r.redis;
      default_caller = c;
      default_tool = t;
      default_upstream = u;
    })

  convert_traces : Option RawTracesConfig → TracesConfig
  convert_traces none = record { enabled = false; endpoint = ""; sample_rate = 0 }
  convert_traces (some t) = record {
    enabled = t.enabled;
    endpoint = if t.enabled && str_eq t.endpoint "" then "localhost:4318" else t.endpoint;
    sample_rate = if f.is_zero t.sample_rate && t.enabled then f.one else t.sample_rate;
  }

  unfoldable pub convert_telemetry : Option RawTelemetryConfig → TracesConfig
  unfolding convert_traces
  convert_telemetry none = convert_traces none
  convert_telemetry (some t) = convert_traces t.traces

unfoldable pub convert_logging : Option RawLoggingConfig → LoggingConfig
unfolding text_or
convert_logging none = record { level = "info"; format = "json" }
convert_logging (some l) = record {
  level = text_or "info" l.level;
  format = text_or "json" l.format;
}

unfoldable pub convert_audit : Option RawAuditConfig → AuditConfig
convert_audit none = record { enabled = false; database = ""; driver = "" }
convert_audit (some a) = record { enabled = a.enabled; database = a.database; driver = a.driver }

with_redis : HealthConfig → Option RedisConfig → Result HealthConfig
with_redis h none = err health_redis_required
with_redis h (some r) = ok (record h { redis = some r })

-- The fallback to the Redis of the rate limits, and the refusal of a Redis store without any.
resolve_redis : Option RedisConfig → HealthConfig → Result HealthConfig
unfolding with_redis
resolve_redis fallback h =
    if str_eq h.store "redis" then with_redis h (or_else h.redis fallback) else ok h

module _ (parse_duration : String → Option ℤ) where
  health_section : Option RawHealthConfig → Result HealthConfig
  unfolding positive_duration_or convert_redis text_or
  health_section none = ok (record {
    store = "local";
    check_interval = seconds 30;
    missing_status = "healthy";
    redis = none;
  })
  health_section (some h) = do
    d ← positive_duration_or parse_duration check_interval (seconds 30) h.check_interval
    ok (record {
      store = text_or "local" h.store;
      check_interval = d;
      missing_status = text_or "healthy" h.missing_status;
      redis = convert_redis h.redis;
    })

  unfoldable pub convert_health : Option RedisConfig → Option RawHealthConfig → Result HealthConfig
  unfolding health_section resolve_redis
  convert_health fallback raw = health_section raw >>= resolve_redis fallback

unfoldable pub convert_providers : List (String × RawOauthProviderConfig) → List OauthProviderConfig
convert_providers [] = []
convert_providers ((name, p) ∷ ps) =
    record {
      name = name;
      auth_url = p.auth_url;
      token_url = p.token_url;
      client_id_env = p.client_id_env;
      client_secret_env = p.client_secret_env;
      scopes = p.scopes;
    }
    ∷ convert_providers ps

convert_oidc_section : Option RawOidcConfig → Option OidcConfig
unfolding text_or
convert_oidc_section none = none
convert_oidc_section (some o) = some (record {
  issuer = o.issuer;
  audience = o.audience;
  caller_claim = text_or "email" o.caller_claim;
  validation = text_or "jwt" o.validation;
  auto_provision = o.auto_provision;
  default_roles = o.default_roles;
  allowed_domains = o.allowed_domains;
})

unfoldable pub convert_oidc : Option RawInboundAuthConfig → Option OidcConfig
unfolding convert_oidc_section
convert_oidc none = none
convert_oidc (some a) = convert_oidc_section a.oidc
