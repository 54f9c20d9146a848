-- ===== src/Auth/Tests.antt =====
-- Runs of authentication and of the admin gate, and the theorems at concrete inputs.
use stile.Prelude.{
  ℕ, String, ◌≡◌, ◌↔◌, refl, Bool, true, false, ◌||◌, Option, none, some, List, [], ◌∷◌, arith,
  str_eq, eq_iff, if◌then◌else◌,
}
use stile.Auth.Roles.{
  RoleConfig, Authenticator, new_authenticator, can_access_tool, upstream_token, order_by_config,
  union_allowed_tools,
}
use stile.Auth.Roles.Access.{Grant, DistinctRoles, caller_with, access_exact}
use stile.Auth.Roles.Credentials.{Source, upstream_token-Source}
use stile.Auth.Authenticate.{
  CallerStore, authenticated, refused, unauthorized, authenticate, is_jwt, with_roles,
}
use stile.Auth.Authenticate.Evidence.{Evidence, authenticate-Evidence}
use stile.Auth.Admin.{
  Hash, Gate, next, AdminAuth, AdminRequest, admin_gate, MayPass, admin_gate_exact,
  redirect_to_login,
}

-- a pattern is compiled as itself, but for one that is invalid; `*` matches every tool
abbrev compile : String → Option String
compile p = if str_eq p "[" then none else some p

abbrev matches : String → String → Bool
matches g tool = str_eq g "*" || str_eq g tool

abbrev getenv : String → String
getenv var = if str_eq var "DB_TOKEN" then "secret" else ""

abbrev reader : RoleConfig
reader = record {
  name = "reader";
  allowed_tools = "search" ∷ "[" ∷ [];
  credentials = ("db", "DB_TOKEN") ∷ ("web", "UNSET") ∷ [];
}

abbrev admin : RoleConfig
admin = record { name = "admin"; allowed_tools = "*" ∷ []; credentials = [] }

abbrev roles : List RoleConfig
roles = admin ∷ reader ∷ []

abbrev authenticator : Authenticator String
authenticator = new_authenticator compile getenv roles none

roles_distinct : DistinctRoles roles
roles_distinct = ((λ e. ground (arith, eq_iff "reader" "admin"), tt), (tt, tt))

reader_searches :
    can_access_tool matches
      (caller_with compile matches getenv roles none "ann" ("reader" ∷ "x" ∷ []))
      "search"
    ≡ true
unfolding can_access_tool new_authenticator order_by_config union_allowed_tools
reader_searches = refl

access_exact_example :
    (can_access_tool matches
        (caller_with compile matches getenv roles none "ann" ("reader" ∷ "x" ∷ []))
        "search"
      ≡ true)
    ↔ Grant compile matches roles ("reader" ∷ "x" ∷ []) "search"
access_exact_example =
    access_exact compile matches getenv roles none "ann" ("reader" ∷ "x" ∷ []) "search"
      roles_distinct

db_secret : upstream_token authenticator ("admin" ∷ "reader" ∷ []) "db" ≡ some "secret"
unfolding upstream_token new_authenticator
db_secret = refl

upstream_token-Source_example : Source compile getenv roles ("admin" ∷ "reader" ∷ []) "db" "secret"
upstream_token-Source_example =
    upstream_token-Source compile getenv roles none ("admin" ∷ "reader" ∷ []) "db" "secret"
      db_secret

-- A store with one key, `sk-1` of `ann`, whose hash is the token itself; its state is a number.
abbrev store : CallerStore ℕ String
store = record {
  lookup_by_key = λ s h.
      if str_eq h "sk-1" then some (record { caller_name = "ann"; key_label = "laptop" }) else none;
  roles_for_caller = λ s name. some ("reader" ∷ []);
  is_store = true;
  ensure_caller = λ s name roles. (s, true);
  caller_exists = λ s name. some true;
}

abbrev no_oidc : ℕ → String → Option String
no_oidc s token = none

jwt_has_two_dots : is_jwt "a.b.c" ≡ true
unfolding is_jwt
jwt_has_two_dots = refl

ann_enters : authenticate store (λ t. t) no_oidc authenticator 0 "Bearer sk-1" ≡ (
  0,
  authenticated (with_roles store (λ t. t) no_oidc authenticator "ann" ("reader" ∷ [])) "laptop",
)
unfolding authenticate new_authenticator
ann_enters = refl

unknown_key :
    (authenticate store (λ t. t) no_oidc authenticator 0 "Bearer sk-2").1 ≡ refused unauthorized
unfolding authenticate new_authenticator
unknown_key = refl

authenticate-Evidence_example :
    Evidence store
      (λ t. t)
      no_oidc
      authenticator
      0
      0
      "Bearer sk-1"
      (with_roles store (λ t. t) no_oidc authenticator "ann" ("reader" ∷ []))
      "laptop"
authenticate-Evidence_example =
    authenticate-Evidence store (λ t. t) no_oidc authenticator 0 0 "Bearer sk-1" _ "laptop"
      ann_enters

abbrev one_byte : String → Hash
one_byte s = if str_eq s "key" then 7 ∷ [] else 9 ∷ []

abbrev guarded : AdminAuth
guarded = record { admin_key_hash = 7 ∷ []; dev_mode = false }

abbrev with_key : AdminRequest
with_key = record { path = "/admin/refresh"; authorization = "Bearer key"; session = none }

key_passes : admin_gate one_byte (0 ∷ []) guarded with_key ≡ next
unfolding admin_gate stile.Auth.Admin.same_hash
key_passes = refl

ui_redirects :
    admin_gate one_byte
      (0 ∷ [])
      guarded
      (record { path = "/admin/ui/x"; authorization = ""; session = some false })
    ≡ redirect_to_login
unfolding admin_gate stile.Auth.Admin.same_hash
ui_redirects = refl

admin_gate_exact_example :
    (admin_gate one_byte (0 ∷ []) guarded with_key ≡ next)
    ↔ MayPass one_byte (0 ∷ []) guarded with_key
admin_gate_exact_example = admin_gate_exact one_byte (0 ∷ []) guarded with_key
