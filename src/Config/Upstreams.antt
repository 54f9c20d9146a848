-- ===== src/Config/Upstreams.antt =====
-- The loop of `convert` in internal/config/config.go over the upstreams.
pub mod Bounds
use stile.Prelude.{
  String, Bool, true, false, Option, none, some, List, [], ◌∷◌, str_eq, if◌then◌else◌,
}
use stile.Prelude.Int.{ℤ}
use stile.Config.Raw.{RawUpstreamConfig, RawAuthConfig, RawUpstreamTlsConfig}
use stile.Config.Limits.{Floats}
use stile.Config.Error.{of_upstream, Result, ok, err, ◌>>=◌}
use stile.Config.Values.{
  AuthConfig, UpstreamTlsConfig, Common, UpstreamConfig, http, stdio, nil_upstream,
}
use stile.Config.Resilience.{
  optional_limit, convert_timeout, convert_circuit_breaker, convert_retry,
}

unfoldable pub convert_auth : Option RawAuthConfig → Option AuthConfig
convert_auth none = none
convert_auth (some a) =
    some (record { auth_type = a.auth_type; token_env = a.token_env; provider = a.provider })

convert_tls : Option RawUpstreamTlsConfig → Option UpstreamTlsConfig
convert_tls none = none
convert_tls (some t) = some (record {
  ca_file = t.ca_file;
  cert_file = t.cert_file;
  key_file = t.key_file;
  insecure_skip_verify = t.insecure_skip_verify;
})

-- the switch on the transport
unfoldable pub of_transport : RawUpstreamConfig → Common → UpstreamConfig
unfolding convert_auth convert_tls
of_transport u common =
    if str_eq u.transport "streamable-http"
    then http (record {
      common = common;
      url = u.url;
      auth = convert_auth u.auth;
      tls = convert_tls u.tls;
    })
    else if str_eq u.transport "stdio"
    then stdio (record { common = common; command = u.command; env = u.env })
    else nil_upstream

module _ (f : Floats) (parse_duration : String → Option ℤ) where
  unfoldable pub convert_common : RawUpstreamConfig → Result Common
  unfolding optional_limit convert_timeout convert_circuit_breaker convert_retry
  convert_common u = do
    rl ← optional_limit f (of_upstream u.name) u.rate_limit
    t ← convert_timeout parse_duration u.name u.timeout
    cb ← convert_circuit_breaker parse_duration u.name u.circuit_breaker
    r ← convert_retry parse_duration u.name u.retry
    ok (record {
      name = u.name;
      tools = u.tools;
      tool_prefix = u.tool_prefix;
      rate_limit = rl;
      timeout = t;
      circuit_breaker = cb;
      retry = r;
    })

  -- one round of the loop
  unfoldable pub convert_upstream : RawUpstreamConfig → Result UpstreamConfig
  unfolding convert_common of_transport
  convert_upstream u = do common ← convert_common u; ok (of_transport u common)

  unfoldable pub convert_upstreams : List RawUpstreamConfig → Result (List UpstreamConfig)
  unfolding convert_upstream
  convert_upstreams [] = ok []
  convert_upstreams (u ∷ us) = do c ← convert_upstream u; cs ← convert_upstreams us; ok (c ∷ cs)
