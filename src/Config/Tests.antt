-- ===== src/Config/Tests.antt =====
-- Runs of the configuration code on a small file, and the theorems at it.
use stile.Prelude.{
  ◌++◌, ◌↔◌, ℕ, ◌≡◌, refl, String, Bool, true, false, Option, none, some, List, [], ◌∷◌, str_eq,
  if◌then◌else◌, ◌==◌,
}
use stile.Prelude.Int.{ℤ, pos, negsuc}
use stile.Config.Raw.{RawConfig, RawServerConfig, RawUpstreamConfig, RawRoleConfig}
use stile.Config.Limits.{Floats, RateLimit, parsed, rejected, parse_rate_limit}
use stile.Config.Limits.Exact.{Means, parse_rate_limit_exact}
use stile.Config.Error.{ok, err, duplicate_name, count_not_positive}
use stile.Config.Values.{Config, UpstreamConfig, http, RoleConfig}
use stile.Config.Convert.{
  load_bytes, loaded, convert, extract_role_order, Node, node, document, mapping, other, nil, cons,
}
use stile.Config.Convert.Roles.{content_of, HasRoles, load_bytes-roles}
use stile.Config.Sections.Bounds.{Follows}
use stile.Config.Convert.Valid.{IsValid}
use stile.Config.Convert.Sound.{convert-IsValid}

-- floats that are whole numbers
abbrev parse_whole : String → Option ℕ
parse_whole s = if str_eq s "100" then some 100 else if str_eq s "0" then some 0 else none

abbrev whole : Floats
whole = record {
  parse_float = parse_whole;
  at_most_zero = λ n. n == 0;
  divide = λ a b. 2;
  ceiling = pos;
  outside_unit = λ n. false;
  is_zero = λ n. n == 0;
  one = 1;
}

abbrev parse_seconds : String → Option ℤ
parse_seconds s =
    if str_eq s "5s"
    then some (pos 5000000000)
    else if str_eq s "-5s"
    then some (negsuc 4999999999)
    else none

abbrev any_pattern : String → Bool
any_pattern p = true

abbrev server : RawServerConfig
server = record {
  address = "";
  tool_cache_ttl = "5s";
  db_path = "";
  database = none;
  shutdown_timeout = "";
  tls = none;
  auth_cache_ttl = "";
}

abbrev upstream : String → RawUpstreamConfig
upstream name = record {
  name = name;
  url = "http://localhost";
  command = none;
  env = none;
  transport = "streamable-http";
  auth = none;
  tls = none;
  tools = none;
  tool_prefix = none;
  rate_limit = "100/min";
  timeout = "5s";
  circuit_breaker = some (record { failure_threshold = negsuc 0; cooldown = "" });
  retry = none;
}

abbrev reader : RawRoleConfig
reader = record {
  allowed_tools = "*" ∷ [];
  credentials = ("github", "TOKEN") ∷ [];
  rate_limit = "";
  tool_rate_limit = "";
}

abbrev file : List RawUpstreamConfig → RawConfig
file us = record {
  server = server;
  upstreams = us;
  roles = ("reader", reader) ∷ [];
  rate_limits = none;
  logging = none;
  audit = none;
  telemetry = none;
  health = none;
  auth = none;
  oauth_providers = [];
  roles_ordered = "reader" ∷ "gone" ∷ [];
}

abbrev two_upstreams : RawConfig
two_upstreams = file (upstream "github" ∷ upstream "jira" ∷ [])

abbrev hundred_a_minute : RateLimit
hundred_a_minute = record { rate = 2; burst = pos 2; count = pos 100; window = 60 }

parse_hundred : parse_rate_limit whole "100/min" ≡ parsed hundred_a_minute
unfolding parse_rate_limit
parse_hundred = refl

not_a_number : parse_rate_limit whole "x/min" ≡ rejected (count_not_positive "x/min")
unfolding parse_rate_limit
not_a_number = refl

parse_rate_limit_exact_example :
    (parse_rate_limit whole "100/min" ≡ parsed hundred_a_minute)
    ↔ Means whole "100/min" hundred_a_minute
parse_rate_limit_exact_example = parse_rate_limit_exact whole "100/min" hundred_a_minute

two_githubs_refused :
    convert whole parse_seconds any_pattern (file (upstream "github" ∷ upstream "github" ∷ []))
    ≡ err (duplicate_name "github")
unfolding convert
two_githubs_refused = refl

abbrev converted_upstream : String → UpstreamConfig
converted_upstream name = http (record {
  common = record {
    name = name;
    tools = none;
    tool_prefix = none;
    rate_limit = some hundred_a_minute;
    timeout = pos 5000000000;
    circuit_breaker = some (record { failure_threshold = pos 5; cooldown = pos 30000000000 });
    retry = none;
  };
  url = "http://localhost";
  auth = none;
  tls = none;
})

abbrev converted_role : RoleConfig
converted_role = record {
  name = "reader";
  allowed_tools = "*" ∷ [];
  credentials = ("github", "TOKEN") ∷ [];
  rate_limit = none;
  tool_rate_limit = none;
}

abbrev converted : Config
converted = record {
  server = record {
    address = ":8080";
    tool_cache_ttl = pos 5000000000;
    db_path = "";
    database = record { driver = ""; dsn = "" };
    shutdown_timeout = pos 30000000000;
    tls = none;
    auth_cache_ttl = pos 0;
  };
  upstreams = converted_upstream "github" ∷ converted_upstream "jira" ∷ [];
  roles = converted_role ∷ [];
  rate_limit_defaults = record {
    backend = "";
    redis = none;
    default_caller = none;
    default_tool = none;
    default_upstream = none;
  };
  logging = record { level = "info"; format = "json" };
  audit = record { enabled = false; database = ""; driver = "" };
  traces = record { enabled = false; endpoint = ""; sample_rate = 0 };
  health = record {
    store = "local";
    check_interval = pos 30000000000;
    missing_status = "healthy";
    redis = none;
  };
  oidc = none;
  oauth_providers = [];
}

converts : convert whole parse_seconds any_pattern two_upstreams ≡ ok converted
unfolding convert parse_rate_limit
converts = refl

convert-IsValid_example : IsValid any_pattern converted
convert-IsValid_example =
    convert-IsValid whole parse_seconds any_pattern two_upstreams converted converts

-- the keys of `roles` in the order of the text
abbrev leaf : String → Node
leaf s = node other s nil

abbrev text : Node
text = node document "" (cons (node mapping "" (cons (leaf "roles") (cons roles_node nil))) nil)
  where
    roles_node : Node
    roles_node =
        node mapping "" (cons (leaf "b") (cons (leaf "") (cons (leaf "a") (cons (leaf "") nil))))

role_order : extract_role_order (some text) ≡ "b" ∷ "a" ∷ []
unfolding extract_role_order
role_order = refl

-- a document with a role that the decoded map lacks, and one that it has
abbrev role_entries : List (Node × Node)
role_entries = (leaf "ghost", leaf "") ∷ (leaf "reader", leaf "") ∷ []

abbrev before_roles : List (Node × Node)
before_roles = (leaf "server", leaf "") ∷ []

abbrev two_roles : Node
two_roles = node document "" (
    cons
      (node mapping "" (
        content_of
          (before_roles ++ (leaf "roles", node mapping "" (content_of role_entries)) ∷ [])))
      nil)

two_roles-HasRoles : HasRoles (some two_roles) ("ghost" ∷ "reader" ∷ [])
two_roles-HasRoles = record {
  before = before_roles;
  after = [];
  roles = role_entries;
  key = leaf "roles";
  rest = nil;
  document_value = "";
  root_value = "";
  roles_value = "";
  is_first = (refl, tt);
  is_roles = refl;
  is_doc = refl;
  are_names = refl;
}

loads :
    load_bytes whole parse_seconds any_pattern
      (λ t. some two_upstreams)
      (λ t. some two_roles)
      "text"
    ≡ loaded (ok converted)
unfolding load_bytes convert parse_rate_limit
loads = refl

load_bytes-roles_example :
    (raw : RawConfig) × (some two_upstreams ≡ some raw)
    × Follows raw.roles ("ghost" ∷ "reader" ∷ []) converted.roles
load_bytes-roles_example =
    load_bytes-roles whole parse_seconds any_pattern (λ t. some two_upstreams) (λ t. some two_roles)
      "text" ("ghost" ∷ "reader" ∷ []) converted loads two_roles-HasRoles
