-- ===== src/Config/Convert.antt =====
-- `convert`, `LoadBytes`, `Load` and `extractRoleOrder` of internal/config/config.go.
pub mod Valid
pub mod Sound
pub mod Roles
use stile.Prelude.{
  String, Bool, true, false, Option, none, some, List, [], ◌∷◌, str_eq, if◌then◌else◌,
}
use stile.Prelude.Int.{ℤ}
use stile.Config.Raw.{RawConfig}
use stile.Config.Limits.{Floats}
use stile.Config.Error.{Check, ConfigError, Result, ok, err, ◌>>=◌}
use stile.Config.Values.{Config}
use stile.Config.Validate.{validate}
use stile.Config.Upstreams.{convert_upstreams}
use stile.Config.Sections.{
  convert_server, convert_roles, convert_rate_limits, convert_telemetry, convert_logging,
  convert_audit, convert_health, convert_providers, convert_oidc,
}

module _ (f : Floats) (parse_duration : String → Option ℤ) where
  -- convert after its call of validate
  unfoldable pub convert_valid : RawConfig → Result Config
  unfolding convert_server convert_upstreams convert_roles convert_rate_limits convert_telemetry
      convert_logging convert_audit convert_health convert_providers convert_oidc
  convert_valid raw = do
    server ← convert_server parse_duration raw.server
    upstreams ← convert_upstreams f parse_duration raw.upstreams
    roles ← convert_roles f raw.roles raw.roles_ordered
    limits ← convert_rate_limits f raw.rate_limits
    health ← convert_health parse_duration limits.redis raw.health
    ok (record {
      server = server;
      upstreams = upstreams;
      roles = roles;
      rate_limit_defaults = limits;
      logging = convert_logging raw.logging;
      audit = convert_audit raw.audit;
      traces = convert_telemetry f raw.telemetry;
      health = health;
      oidc = convert_oidc raw.auth;
      oauth_providers = convert_providers raw.oauth_providers;
    })

  unless_refused : Check → RawConfig → Result Config
  unfolding convert_valid
  unless_refused (some e) raw = err e
  unless_refused none raw = convert_valid raw

  unfoldable pub convert : (String → Bool) → RawConfig → Result Config
  unfolding unless_refused validate
  convert compiles raw = unless_refused (validate f compiles raw) raw

-- yaml.Node
pub data Kind : Type 0 where
  document mapping other : Kind

mutual
  pub data Node : Type 0 where
    node : Kind → String → Nodes → Node

  pub data Nodes : Type 0 where
    nil : Nodes
    cons : Node → Nodes → Nodes

abbrev pub value_of : Node → String
value_of (node kind value content) = value

-- the keys of a mapping's content, which is keys and values in turn
keys_of : Nodes → List String
keys_of nil = []
keys_of (cons key nil) = []
keys_of (cons key (cons v rest)) = value_of key ∷ keys_of rest

names_in : Node → List String
unfolding keys_of
names_in (node mapping value content) = keys_of content
names_in (node other value content) = []
names_in (node document value content) = []

find_roles : Nodes → List String
unfolding names_in
find_roles nil = []
find_roles (cons key nil) = []
find_roles (cons key (cons v rest)) =
    if str_eq (value_of key) "roles" then names_in v else find_roles rest

roles_of_root : Node → List String
unfolding find_roles
roles_of_root (node mapping value content) = find_roles content
roles_of_root (node other value content) = []
roles_of_root (node document value content) = []

-- the node that yaml.Unmarshal gives, none where it fails
unfoldable pub extract_role_order : Option Node → List String
unfolding roles_of_root
extract_role_order (some (node document value (cons root rest))) = roles_of_root root
extract_role_order _ = []

-- what Load and LoadBytes return beside the errors of convert
pub data Loaded : Type 0 where
  unreadable not_yaml : Loaded
  loaded : Result Config → Loaded

module _ (f : Floats) (parse_duration : String → Option ℤ) (compiles : String → Bool)
    (decode : String → Option RawConfig) (parse_nodes : String → Option Node) where
  loaded_raw : Option RawConfig → List String → Loaded
  unfolding convert
  loaded_raw none order = not_yaml
  loaded_raw (some raw) order =
      loaded (convert f parse_duration compiles (record raw { roles_ordered = order }))

  unfoldable pub load_bytes : String → Loaded
  unfolding loaded_raw extract_role_order
  load_bytes text = loaded_raw (decode text) (extract_role_order (parse_nodes text))

  -- os.ReadFile gives the bytes or an error
  unfoldable pub load : (String → Option String) → String → Loaded
  unfolding load_bytes
  load read_file path = elim (read_file path) [ none ↦ unreadable | some text ↦ load_bytes text ]
