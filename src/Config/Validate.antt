-- ===== src/Config/Validate.antt =====
-- `validate` of internal/config/config.go: the checks in the order of the code, each of which is the
-- error it returns or none. glob.Compile is the argument `compiles`.
pub mod Common
pub mod Sections
pub mod Names
pub mod References
use stile.Prelude.{
  ℕ, ◌+◌, String, Bool, true, false, not, ◌&&◌, ◌||◌, Option, none, some, List, [], ◌∷◌, map,
  str_eq, if◌then◌else◌, is_some,
}
use stile.Config.Raw.{
  RawConfig, RawUpstreamConfig, RawOauthProviderConfig, RawAuthConfig, RawRoleConfig,
}
use stile.Config.Error.{
  Check, ◌then_check◌, refuse_if, Result, ok, err, ◌>>=◌, no_upstreams, name_required,
  duplicate_name, url_required, command_required, bad_transport, bad_tool_prefix, provider_required,
  unknown_provider, bad_auth_type, empty_role_name, allowed_tools_required, bad_pattern,
  unknown_upstream, empty_env_var, oauth_credentials,
}
use stile.Config.Limits.{Floats}
use stile.Config.Validate.Common.{member, find, prefix_matches}
use stile.Config.Validate.Sections.{check_sections}

no_command : Option (List String) → Bool
no_command none = true
no_command (some []) = true
no_command (some (c ∷ cs)) = false

check_transport : RawUpstreamConfig → Check
unfolding no_command
check_transport u =
    if str_eq u.transport "streamable-http"
    then refuse_if (str_eq u.url "") (url_required u.name)
    else if str_eq u.transport "stdio"
    then refuse_if (no_command u.command) (command_required u.name)
    else some (bad_transport u.name u.transport)

check_prefix : String → Option String → Check
check_prefix name none = none
check_prefix name (some prefix) =
    refuse_if (not (str_eq prefix "") && not (prefix_matches prefix)) (bad_tool_prefix name prefix)

-- one round of the first loop, with the names seen before it
check_upstream : ℕ → List String → RawUpstreamConfig → Check
unfolding check_transport check_prefix
check_upstream i seen u =
    refuse_if (str_eq u.name "") (name_required i)
    then_check refuse_if (member u.name seen) (duplicate_name u.name)
    then_check check_transport u
    then_check check_prefix u.name u.tool_prefix

unfoldable pub check_upstreams : ℕ → List String → List RawUpstreamConfig → Check
unfolding check_upstream
check_upstreams i seen [] = none
check_upstreams i seen (u ∷ us) =
    check_upstream i seen u then_check check_upstreams (i + 1) (u.name ∷ seen) us

-- the switch on the auth type: whether it is oauth
of_auth_type : List (String × RawOauthProviderConfig) → String → String → String → Result Bool
of_auth_type providers name auth_type provider =
    if str_eq auth_type "bearer" || str_eq auth_type ""
    then ok false
    else if not (str_eq auth_type "oauth")
    then err (bad_auth_type name auth_type)
    else if str_eq provider ""
    then err (provider_required name)
    else if is_some (find provider providers)
    then ok true
    else err (unknown_provider name provider)

is_oauth : List (String × RawOauthProviderConfig) → String → Option RawAuthConfig → Result Bool
unfolding of_auth_type
is_oauth providers name none = ok false
is_oauth providers name (some a) = of_auth_type providers name a.auth_type a.provider

-- the loop that collects oauthUpstreams
unfoldable pub oauth_upstreams :
    List (String × RawOauthProviderConfig)
    → List RawUpstreamConfig
    → List String
    → Result (List String)
unfolding is_oauth find
oauth_upstreams providers [] found = ok found
oauth_upstreams providers (u ∷ us) found = is_oauth providers u.name u.auth >>= λ oauth.
    oauth_upstreams providers us (if oauth then u.name ∷ found else found)

check_patterns : (String → Bool) → String → List String → Check
check_patterns compiles role [] = none
check_patterns compiles role (p ∷ ps) =
    refuse_if (not (compiles p)) (bad_pattern role p) then_check check_patterns compiles role ps

check_credentials : List String → List String → String → List (String × String) → Check
check_credentials names oauth role [] = none
check_credentials names oauth role ((upstream, env_var) ∷ creds) =
    refuse_if (not (member upstream names)) (unknown_upstream role upstream)
    then_check refuse_if (str_eq env_var "") (empty_env_var role upstream)
    then_check refuse_if (member upstream oauth) (oauth_credentials role upstream)
    then_check check_credentials names oauth role creds

no_tools : List String → Bool
no_tools [] = true
no_tools (t ∷ ts) = false

unfoldable pub check_roles :
    (String → Bool) → List String → List String → List (String × RawRoleConfig) → Check
unfolding check_patterns check_credentials no_tools
check_roles compiles names oauth [] = none
check_roles compiles names oauth ((name, role) ∷ roles) =
    refuse_if (str_eq name "") empty_role_name
    then_check refuse_if (no_tools role.allowed_tools) (allowed_tools_required name)
    then_check check_patterns compiles name role.allowed_tools
    then_check check_credentials names oauth name role.credentials
    then_check check_roles compiles names oauth roles

roles_after :
    (String → Bool) → List String → List (String × RawRoleConfig) → Result (List String) → Check
roles_after compiles names roles (err e) = some e
roles_after compiles names roles (ok oauth) = check_roles compiles names oauth roles

abbrev pub names_of : List RawUpstreamConfig → List String
names_of = map (λ u. u.name)

no_upstream : List RawUpstreamConfig → Bool
no_upstream [] = true
no_upstream (u ∷ us) = false

unfoldable pub validate : Floats → (String → Bool) → RawConfig → Check
unfolding no_upstream check_upstreams check_sections roles_after oauth_upstreams check_roles
validate f compiles raw =
    refuse_if (no_upstream raw.upstreams) no_upstreams
    then_check check_upstreams 0 [] raw.upstreams
    then_check check_sections f raw
    then_check roles_after compiles (names_of raw.upstreams) raw.roles
        (oauth_upstreams raw.oauth_providers raw.upstreams [])
