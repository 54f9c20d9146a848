-- ===== src/Config/Validate/Sections.antt =====
-- `validate` of internal/config/config.go: the checks of the sections other than upstreams and roles.
use stile.Prelude.{
  String, Bool, true, not, ◌&&◌, ◌||◌, Option, none, some, List, [], ◌∷◌, str_eq, if◌then◌else◌,
}
use stile.Config.Raw.{
  RawConfig, RawDatabaseConfig, RawServerTlsConfig, RawUpstreamConfig, RawUpstreamTlsConfig,
  RawLoggingConfig, RawAuditConfig, RawTracesConfig, RawTelemetryConfig, RawRedisConfig,
  RawRateLimitDefaults, RawHealthConfig, RawOidcConfig, RawInboundAuthConfig,
  RawOauthProviderConfig,
}
use stile.Config.Error.{
  Check, ◌then_check◌, refuse_if, bad_database_driver, dsn_required, db_path_and_database,
  cert_file_required, key_file_required, bad_min_version, upstream_key_file, upstream_cert_file,
  tls_on_stdio, bad_level, bad_format, audit_database_required, bad_audit_driver, bad_sample_rate,
  bad_backend, redis_address_required, bad_health_store, bad_missing_status, issuer_required,
  audience_required, bad_validation, auth_url_required, token_url_required, client_id_required,
  client_secret_required,
}
use stile.Config.Limits.{Floats}
use stile.Config.Validate.Common.{member}

check_database : String → Option RawDatabaseConfig → Check
check_database db_path none = none
check_database db_path (some d) =
    refuse_if (not (member d.driver ("" ∷ "sqlite" ∷ "postgres" ∷ [])))
      (bad_database_driver d.driver)
    then_check refuse_if (str_eq d.dsn "") dsn_required
    then_check refuse_if (not (str_eq db_path "")) db_path_and_database

check_server_tls : Option RawServerTlsConfig → Check
check_server_tls none = none
check_server_tls (some t) =
    refuse_if (str_eq t.cert_file "") cert_file_required
    then_check refuse_if (str_eq t.key_file "") key_file_required
    then_check refuse_if (not (member t.min_version ("" ∷ "1.0" ∷ "1.1" ∷ "1.2" ∷ "1.3" ∷ [])))
        (bad_min_version t.min_version)

check_tls : RawUpstreamConfig → Option RawUpstreamTlsConfig → Check
check_tls u none = none
check_tls u (some t) =
    refuse_if (not (str_eq t.cert_file "") && str_eq t.key_file "") (upstream_key_file u.name)
    then_check refuse_if (not (str_eq t.key_file "") && str_eq t.cert_file "")
        (upstream_cert_file u.name)
    then_check refuse_if (str_eq u.transport "stdio") (tls_on_stdio u.name)

check_upstream_tls : List RawUpstreamConfig → Check
unfolding check_tls
check_upstream_tls [] = none
check_upstream_tls (u ∷ us) = check_tls u u.tls then_check check_upstream_tls us

check_logging : Option RawLoggingConfig → Check
check_logging none = none
check_logging (some l) =
    refuse_if (not (member l.level ("" ∷ "debug" ∷ "info" ∷ "warn" ∷ "error" ∷ [])))
      (bad_level l.level)
    then_check refuse_if (not (member l.format ("" ∷ "json" ∷ "text" ∷ []))) (bad_format l.format)

check_audit : Option RawAuditConfig → Check
check_audit none = none
check_audit (some a) =
    if a.enabled
    then refuse_if (str_eq a.database "") audit_database_required
      then_check refuse_if (not (member a.driver ("" ∷ "sqlite" ∷ "postgres" ∷ [])))
          (bad_audit_driver a.driver)
    else none

check_traces : Floats → Option RawTracesConfig → Check
check_traces f none = none
check_traces f (some t) = refuse_if (f.outside_unit t.sample_rate) (bad_sample_rate t.sample_rate)

check_telemetry : Floats → Option RawTelemetryConfig → Check
unfolding check_traces
check_telemetry f none = none
check_telemetry f (some t) = check_traces f t.traces

no_address : Option RawRedisConfig → Bool
no_address none = true
no_address (some r) = str_eq r.address ""

check_rate_limits : Option RawRateLimitDefaults → Check
unfolding no_address
check_rate_limits none = none
check_rate_limits (some r) =
    refuse_if (not (member r.backend ("" ∷ "local" ∷ "redis" ∷ []))) (bad_backend r.backend)
    then_check refuse_if (str_eq r.backend "redis" && no_address r.redis) redis_address_required

check_health : Option RawHealthConfig → Check
check_health none = none
check_health (some h) =
    refuse_if (not (member h.store ("" ∷ "local" ∷ "redis" ∷ []))) (bad_health_store h.store)
    then_check refuse_if (not (member h.missing_status ("" ∷ "healthy" ∷ "unhealthy" ∷ [])))
        (bad_missing_status h.missing_status)

check_oidc : Option RawOidcConfig → Check
check_oidc none = none
check_oidc (some o) =
    refuse_if (str_eq o.issuer "") issuer_required
    then_check refuse_if (not (member o.validation ("" ∷ "jwt" ∷ "userinfo" ∷ [])))
        (bad_validation o.validation)
    then_check refuse_if
        ((str_eq o.validation "" || str_eq o.validation "jwt") && str_eq o.audience "")
        audience_required

check_inbound_auth : Option RawInboundAuthConfig → Check
unfolding check_oidc
check_inbound_auth none = none
check_inbound_auth (some a) = check_oidc a.oidc

check_providers : List (String × RawOauthProviderConfig) → Check
check_providers [] = none
check_providers ((name, p) ∷ ps) =
    refuse_if (str_eq p.auth_url "") (auth_url_required name)
    then_check refuse_if (str_eq p.token_url "") (token_url_required name)
    then_check refuse_if (str_eq p.client_id_env "") (client_id_required name)
    then_check refuse_if (str_eq p.client_secret_env "") (client_secret_required name)
    then_check check_providers ps

-- the checks of validate from the database to the OAuth providers
unfoldable pub check_sections : Floats → RawConfig → Check
unfolding check_database check_server_tls check_upstream_tls check_logging check_audit
    check_telemetry check_rate_limits check_health check_inbound_auth check_providers
check_sections f raw =
    check_database raw.server.db_path raw.server.database
    then_check check_server_tls raw.server.tls
    then_check check_upstream_tls raw.upstreams
    then_check check_logging raw.logging
    then_check check_audit raw.audit
    then_check check_telemetry f raw.telemetry
    then_check check_rate_limits raw.rate_limits
    then_check check_health raw.health
    then_check check_inbound_auth raw.auth
    then_check check_providers raw.oauth_providers
