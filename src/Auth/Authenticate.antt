-- ===== src/Auth/Authenticate.antt =====
-- `Authenticate`, `authenticateOIDC`, `isJWT` and `Middleware` of internal/auth/auth.go and
-- internal/auth/oidc.go. The caller store is an interface of the program (its implementations speak
-- SQL), and OIDC validation ends in a third party's verifier: both are arguments here.
pub mod Evidence
use Prim.Native.Char.{code}
use Prim.Native.String.{slice, len}
use text.Mathlib.Text.{starts_with}
use stile.Prelude.{
  ℕ, suc, String, Bool, true, false, not, Option, none, some, List, ◌==◌, str_eq, if◌then◌else◌,
}
use stile.Auth.Roles.{Caller, OidcConfig, Authenticator, order_by_config, union_allowed_tools}

-- KeyLookupResult; of its caller only the name is filled in.
pub record KeyRecord : Type 0 where
  pub caller_name : String
  pub key_label : String

-- CallerStore, and the part of Store that authentication uses. `S` is the state of the store and `H`
-- the type of key hashes. `none` is an error. `is_store` tells whether the value implements Store,
-- and the Boolean of `ensure_caller` is false where it returns an error.
pub record CallerStore (S H : Type 0) : Type 0 where
  pub lookup_by_key : S → H → Option KeyRecord
  pub roles_for_caller : S → String → Option (List String)
  pub is_store : Bool
  pub ensure_caller : S → String → List String → S × Bool
  pub caller_exists : S → String → Option Bool

pub data AuthError : Type 0 where
  missing_header not_bearer unauthorized lookup_roles oidc_failed not_registered : AuthError

-- the caller and the label of its key, or the error
pub data AuthResult (G : Type 0) : Type 0 where
  authenticated : Caller G → String → AuthResult G
  refused : AuthError → AuthResult G

count_dots : String → ℕ
count_dots String.[] = 0
count_dots (String.◌∷◌ c s) = let rest = count_dots s in if code c == b'.' then suc rest else rest

unfoldable pub is_jwt : String → Bool
unfolding count_dots
is_jwt token = count_dots token == 2

abbrev pub bearer : String
bearer = "Bearer "

-- strings.TrimPrefix, where the header begins with the prefix
abbrev pub bearer_token : String → String
bearer_token header = slice header 7 (len header)

-- the `switch` on the mode of validation
unfoldable pub should_try_oidc : OidcConfig → String → Bool
unfolding is_jwt
should_try_oidc cfg token =
    if str_eq cfg.validation "jwt"
    then is_jwt token
    else if str_eq cfg.validation "userinfo"
    then not (starts_with token "sk-")
    else false

module _ {S H G : Type 0} (store : CallerStore S H) (sha256 : String → H)
    (validate : S → String → Option String) (a : Authenticator G) where
  -- the caller with the roles that the store gives, in the order of the configuration
  abbrev pub with_roles : String → List String → Caller G
  with_roles name roles = record {
    name = name;
    roles = order_by_config a roles;
    allowed_tools = union_allowed_tools a (order_by_config a roles);
  }

  give_roles : AuthError → String → String → Option (List String) → AuthResult G
  give_roles e name label none = refused e
  give_roles e name label (some roles) = authenticated (with_roles name roles) label

  registered : S → String → Option Bool → AuthResult G
  unfolding give_roles
  registered s identity none = refused oidc_failed
  registered s identity (some false) = refused not_registered
  registered s identity (some true) =
      give_roles lookup_roles identity "oidc" (store.roles_for_caller s identity)

  -- by whether the store implements Store, and whether callers are provisioned
  provision : Bool → Bool → OidcConfig → S → String → S × AuthResult G
  unfolding give_roles registered
  provision true true cfg s identity =
      let s' = (store.ensure_caller s identity cfg.default_roles).0 in
      (s', give_roles lookup_roles identity "oidc" (store.roles_for_caller s' identity))
  provision true false cfg s identity = (s, registered s identity (store.caller_exists s identity))
  provision false auto cfg s identity =
      (s, give_roles lookup_roles identity "oidc" (store.roles_for_caller s identity))

  identified : OidcConfig → S → Option String → S × AuthResult G
  unfolding provision
  identified cfg s none = (s, refused oidc_failed)
  identified cfg s (some identity) = provision store.is_store cfg.auto_provision cfg s identity

  -- authenticateOIDC
  unfoldable pub authenticate_oidc : OidcConfig → S → String → S × AuthResult G
  unfolding identified
  authenticate_oidc cfg s token = identified cfg s (validate s token)

  by_key : S → Option KeyRecord → AuthResult G
  unfolding give_roles
  by_key s none = refused unauthorized
  by_key s (some k) =
      give_roles lookup_roles k.caller_name k.key_label (store.roles_for_caller s k.caller_name)

  unfoldable pub authenticate_key : S → String → AuthResult G
  unfolding by_key
  authenticate_key s token = by_key s (store.lookup_by_key s (sha256 token))

  -- an OIDC failure falls back to the API key
  fall_back : String → S × AuthResult G → S × AuthResult G
  fall_back token (s, authenticated c label) = (s, authenticated c label)
  fall_back token (s, refused e) = (s, authenticate_key s token)

  try_oidc : Option OidcConfig → S → String → S × AuthResult G
  unfolding authenticate_oidc authenticate_key fall_back
  try_oidc none s token = (s, authenticate_key s token)
  try_oidc (some cfg) s token =
      if should_try_oidc cfg token
      then fall_back token (authenticate_oidc cfg s token)
      else (s, authenticate_key s token)

  -- Authenticate, on the value of the header Authorization, which is empty where it is missing
  unfoldable pub authenticate : S → String → S × AuthResult G
  unfolding try_oidc
  authenticate s header =
      if str_eq header ""
      then (s, refused missing_header)
      else if starts_with header bearer
      then try_oidc a.oidc s (bearer_token header)
      else (s, refused not_bearer)

-- What the middleware puts into the request's context.
pub record AuthContext (G : Type 0) : Type 0 where
  pub caller : Option (Caller G)
  pub auth_method : String
  pub key_label : String

abbrev pub no_auth : {G : Type 0} → AuthContext G
no_auth = record { caller = none; auth_method = ""; key_label = "" }

module _ {G : Type 0} where
  unfoldable pub context_of : Caller G → String → AuthContext G
  context_of c label =
      if str_eq label "oidc"
      then record { caller = some c; auth_method = "oidc"; key_label = "" }
      else record { caller = some c; auth_method = "apikey"; key_label = label }

  -- Middleware: the context that the next handler gets, or none where the request is rejected.
  unfoldable pub middleware : AuthResult G → Option (AuthContext G)
  unfolding context_of
  middleware (refused e) = none
  middleware (authenticated c label) = some (context_of c label)

  -- OptionalMiddleware
  unfoldable pub optional_middleware : AuthResult G → AuthContext G
  unfolding context_of
  optional_middleware (refused e) = no_auth
  optional_middleware (authenticated c label) = context_of c label
