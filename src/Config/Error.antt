-- ===== src/Config/Error.antt =====
-- The errors of convert and validate in internal/config/config.go, one constructor for a message, with
-- the values that it shows.
use stile.Prelude.{ℕ, ◌≡◌, refl, String, Bool, true, false, Option, none, some}

-- what a duration is for
pub data Duration : Type 0 where
  tool_cache_ttl shutdown_timeout auth_cache_ttl check_interval : Duration
  timeout cooldown backoff max_backoff : String → Duration

-- what a rate limit is for
pub data Limited : Type 0 where
  of_upstream : String → Limited
  of_role : String → Limited
  default_caller default_tool default_upstream : Limited

pub data LimitError : Type 0 where
  expected_format count_not_positive bad_unit : String → LimitError

pub data ConfigError : Type 0 where
  invalid_duration : Duration → String → ConfigError
  duration_not_positive : Duration → ConfigError
  invalid_rate_limit : Limited → LimitError → ConfigError
  no_upstreams : ConfigError
  name_required : ℕ → ConfigError
  duplicate_name url_required command_required : String → ConfigError
  bad_transport bad_tool_prefix : String → String → ConfigError
  bad_database_driver : String → ConfigError
  dsn_required db_path_and_database : ConfigError
  cert_file_required key_file_required : ConfigError
  bad_min_version : String → ConfigError
  upstream_key_file upstream_cert_file tls_on_stdio : String → ConfigError
  bad_level bad_format : String → ConfigError
  audit_database_required : ConfigError
  bad_audit_driver : String → ConfigError
  bad_sample_rate : ℕ → ConfigError
  bad_backend : String → ConfigError
  redis_address_required health_redis_required : ConfigError
  bad_health_store bad_missing_status : String → ConfigError
  issuer_required audience_required : ConfigError
  bad_validation : String → ConfigError
  auth_url_required token_url_required client_id_required client_secret_required :
      String → ConfigError
  provider_required : String → ConfigError
  unknown_provider bad_auth_type : String → String → ConfigError
  empty_role_name : ConfigError
  allowed_tools_required : String → ConfigError
  bad_pattern unknown_upstream empty_env_var oauth_credentials : String → String → ConfigError

-- what convert and its parts return: `(nil, error)` or a value
pub data Result {ℓ} (V : Type ℓ) : Type ℓ where
  err : ConfigError → Result V
  ok : V → Result V

-- `if err != nil { return nil, err }`, and then the rest of the function
infixl 5 ◌>>=◌
abbrev pub ◌>>=◌ {ℓ κ} : {V : Type ℓ} {W : Type κ} → Result V → (V → Result W) → Result W
◌>>=◌ (err why) rest = err why
◌>>=◌ (ok v) rest = rest v

-- A check returns an error or nil; `then_check a b` is `a`, and then `b` where `a` found nothing.
abbrev pub Check : Type 0
Check = Option ConfigError

infixr 6 ◌then_check◌
abbrev pub ◌then_check◌ : Check → Check → Check
none then_check c = c
some e then_check c = some e

-- `if test { return error }`
abbrev pub refuse_if : Bool → ConfigError → Check
refuse_if true e = some e
refuse_if false e = none

pub then_check-none : (a b : Check) → a then_check b ≡ none → (a ≡ none) × (b ≡ none)
then_check-none none b h = (refl, h)
then_check-none (some e) b h = cc

pub refuse_if-none : (t : Bool) (e : ConfigError) → refuse_if t e ≡ none → t ≡ false
refuse_if-none true e h = cc
refuse_if-none false e h = refl

-- Where the whole has a value, the first step has one, and the rest gives it.
pub >>=-eq-ok {ℓ κ} :
    {V : Type ℓ} {W : Type κ} (first : Result V) (rest : V → Result W) {w : W}
    → (first >>= rest) ≡ ok w
    → (v : V) × (first ≡ ok v) × (rest v ≡ ok w)
>>=-eq-ok (err why) rest same = cc
>>=-eq-ok (ok v) rest same = (v, refl, same)
