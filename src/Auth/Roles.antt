-- ===== src/Auth/Roles.antt =====
-- Roles of internal/auth/auth.go: `NewAuthenticator`, `orderByConfig`, `unionAllowedTools`,
-- `CanAccessTool` and `UpstreamToken`. Glob patterns are those of github.com/gobwas/glob: a type `G`
-- of compiled patterns, `compile` and `matches`. `os.Getenv` is the argument `getenv`.
pub mod Access
pub mod Credentials
use stile.Prelude.{
  String, Bool, Option, none, some, List, [], ◌∷◌, ◌++◌, map, str_eq, if◌then◌else◌, any, filter,
  or_else,
}
use stile.Prelude.Dict
use stile.Prelude.Dict.{Dict}

-- config.RoleConfig; `credentials` is the map from upstreams to environment variables.
pub record RoleConfig : Type 0 where
  pub name : String
  pub allowed_tools : List String
  pub credentials : List (String × String)

pub record Caller (G : Type 0) : Type 0 where
  pub name : String
  pub roles : List String
  pub allowed_tools : List G

-- OIDCConfig, the part that authentication reads
pub record OidcConfig : Type 0 where
  pub validation : String
  pub auto_provision : Bool
  pub default_roles : List String

pub record Authenticator (G : Type 0) : Type 0 where
  pub credentials : Dict (Dict String)
  pub allowed_tools : Dict (List G)
  pub role_order : List String
  pub oidc : Option OidcConfig

unfoldable pub resolve_credentials :
    (String → String) → List (String × String) → Dict String → Dict String
resolve_credentials getenv [] tokens = tokens
resolve_credentials getenv ((upstream, env_var) ∷ creds) tokens =
    resolve_credentials getenv creds
      (if str_eq (getenv env_var) "" then tokens else Dict.put tokens upstream (getenv env_var))

abbrev pub contains : List String → String → Bool
contains roles r = any (λ x. str_eq x r) roles

token_of : Option (Dict String) → String → Option String
token_of none upstream = none
token_of (some env) upstream = Dict.get env upstream

module _ {G : Type 0} where
  -- an invalid pattern is skipped
  abbrev pub keep : Option G → List G → List G
  keep none gs = gs
  keep (some g) gs = g ∷ gs

  unfoldable pub compile_all : (String → Option G) → List String → List G
  compile_all compile [] = []
  compile_all compile (p ∷ ps) = keep (compile p) (compile_all compile ps)

  -- the loop of NewAuthenticator, and the function itself
  unfoldable pub load_roles :
      (String → Option G) → (String → String) → List RoleConfig → Authenticator G → Authenticator G
  unfolding resolve_credentials compile_all
  load_roles compile getenv [] a = a
  load_roles compile getenv (role ∷ roles) a = load_roles compile getenv roles (record a {
    credentials =
        Dict.put a.credentials role.name (resolve_credentials getenv role.credentials Dict.empty);
    allowed_tools = Dict.put a.allowed_tools role.name (compile_all compile role.allowed_tools);
    role_order = a.role_order ++ role.name ∷ [];
  })

  unfoldable pub new_authenticator :
      (String → Option G)
      → (String → String)
      → List RoleConfig
      → Option OidcConfig
      → Authenticator G
  unfolding load_roles Dict.get Dict.put Dict.empty
  new_authenticator compile getenv roles oidc = load_roles compile getenv roles (record {
    credentials = Dict.empty;
    allowed_tools = Dict.empty;
    role_order = [];
    oidc = oidc;
  })

  unfoldable pub can_access_tool : (G → String → Bool) → Caller G → String → Bool
  can_access_tool matches c tool_name = any (λ g. matches g tool_name) c.allowed_tools

  unfoldable pub order_by_config : Authenticator G → List String → List String
  order_by_config a roles = filter (contains roles) a.role_order

  patterns_of : Option (List G) → List G
  patterns_of none = []
  patterns_of (some gs) = gs

  unfoldable pub union_allowed_tools : Authenticator G → List String → List G
  unfolding patterns_of
  union_allowed_tools a [] = []
  union_allowed_tools a (r ∷ rs) =
      patterns_of (Dict.get a.allowed_tools r) ++ union_allowed_tools a rs

  unfoldable pub upstream_token : Authenticator G → List String → String → Option String
  unfolding token_of
  upstream_token a [] upstream = none
  upstream_token a (role ∷ roles) upstream =
      or_else (token_of (Dict.get a.credentials role) upstream) (upstream_token a roles upstream)
