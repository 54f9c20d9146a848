-- ===== src/Config/Validate/References.antt =====
-- What `validate` establishes across sections: the upstreams that roles name, and the providers that
-- upstreams name.
use stile.Prelude.{
  ◌≡◌, ◌≢◌, refl, inl, inr, String, Bool, true, false, not, Option, none, some, List, [], ◌∷◌,
  arith, Bool-cases, All, All-imp, In, is_some, subst,
}
use stile.Config.Raw.{
  RawConfig, RawUpstreamConfig, RawOauthProviderConfig, RawAuthConfig, RawRoleConfig,
}
use stile.Config.Limits.{Floats}
use stile.Config.Error.{then_check-none, refuse_if-none, Result, ok, err, >>=-eq-ok}
use stile.Config.Validate.Common.{find}
use stile.Config.Validate.{
  of_auth_type, is_oauth, oauth_upstreams, check_patterns, check_credentials, check_roles,
  roles_after, names_of, no_tools, no_upstream, validate,
}
use stile.Config.Validate.Names.{
  Nodup, IsUsable, ne_of_str_eq, member-In, not_member-In, check_upstreams-IsUsable,
}

abbrev pub UsesOauth : Option RawAuthConfig → Type 0
UsesOauth none = ⊥
UsesOauth (some a) = a.auth_type ≡ "oauth"

-- a known type of auth, and a configured provider where it is oauth
abbrev pub AuthIsKnown : List (String × RawOauthProviderConfig) → Option RawAuthConfig → Type 0
AuthIsKnown providers none = Unit
AuthIsKnown providers (some a) =
    (a.auth_type ≡ "oauth" → is_some (find a.provider providers) ≡ true)

oauth_provider_found :
    (providers : List (String × RawOauthProviderConfig)) (name provider : String) (oauth : Bool)
    → of_auth_type providers name "oauth" provider ≡ ok oauth
    → (is_some (find provider providers) ≡ true) × (oauth ≡ true)
unfolding of_auth_type
oauth_provider_found providers name provider oauth h = (ground arith, ground arith)

is_oauth-AuthIsKnown :
    (providers : List (String × RawOauthProviderConfig)) (name : String) (a : Option RawAuthConfig)
    (oauth : Bool)
    → is_oauth providers name a ≡ ok oauth
    → AuthIsKnown providers a × (UsesOauth a → oauth ≡ true)
unfolding is_oauth
is_oauth-AuthIsKnown providers name none oauth h = (tt, λ u. absurd u)
is_oauth-AuthIsKnown providers name (some a) oauth h =
    let found = λ (e : a.auth_type ≡ "oauth").
      oauth_provider_found providers name a.provider oauth
        (subst (λ (t : String). of_auth_type providers name t a.provider ≡ ok oauth) e h) in
    (λ e. (found e).0, λ e. (found e).1)

abbrev CollectedIn :
    List (String × RawOauthProviderConfig) → List String → RawUpstreamConfig → Type 0
CollectedIn providers oauth u = AuthIsKnown providers u.auth × (UsesOauth u.auth → In u.name oauth)

-- the loop collects every upstream with oauth, and keeps what it has
oauth_upstreams_lem :
    (providers : List (String × RawOauthProviderConfig)) (us : List RawUpstreamConfig)
    (found oauth : List String)
    → oauth_upstreams providers us found ≡ ok oauth
    → All (CollectedIn providers oauth) us × ((s : String) → In s found → In s oauth)
unfolding oauth_upstreams
oauth_upstreams_lem providers [] found oauth h = (tt, ground arith)
oauth_upstreams_lem providers (u ∷ us) found oauth h =
    let (b, here, later) = >>=-eq-ok (is_oauth providers u.name u.auth) _ h in
    let (known, flagged) = is_oauth-AuthIsKnown providers u.name u.auth b here in
    let (others, kept) = oauth_upstreams_lem providers us _ oauth later in
    (
      ((known, λ o. kept u.name (rw (flagged o) (inl refl))), others),
      λ s m. kept s (elim (Bool-cases b) [ inl t ↦ rw t (inr m) | inr f ↦ rw f m ]),
    )

true_of_not : (b : Bool) → not b ≡ false → b ≡ true
true_of_not true h = refl
true_of_not false h = cc

-- A credential of a role: its upstream is configured, and none with that name uses oauth.
pub record CredentialIsUsable (us : List RawUpstreamConfig) (c : String × String) : Type 0 where
  pub configured : In c.0 (names_of us)
  pub variable_named : c.1 ≢ ""
  pub not_oauth : All (λ u. UsesOauth u.auth → u.name ≢ c.0) us

pub record RoleIsUsable (compiles : String → Bool) (us : List RawUpstreamConfig)
    (r : String × RawRoleConfig) : Type 0 where
  pub named : r.0 ≢ ""
  pub has_tools : r.1.allowed_tools ≢ []
  pub patterns_compile : All (λ p. compiles p ≡ true) r.1.allowed_tools
  pub credentials_usable : All (CredentialIsUsable us) r.1.credentials

check_patterns_lem :
    (compiles : String → Bool) (role : String) (ps : List String)
    → check_patterns compiles role ps ≡ none
    → All (λ p. compiles p ≡ true) ps
unfolding check_patterns
check_patterns_lem compiles role [] h = tt
check_patterns_lem compiles role (p ∷ ps) h =
    let (a, others) = then_check-none _ _ h in
    (true_of_not _ (refuse_if-none _ _ a), check_patterns_lem compiles role ps others)

no_tools-ne : (ts : List String) → no_tools ts ≡ false → ts ≢ []
unfolding no_tools
no_tools-ne [] h = cc
no_tools-ne (t ∷ ts) h = λ e. cc

module _ (us : List RawUpstreamConfig) (oauth : List String)
    (collected : All (λ u. UsesOauth u.auth → In u.name oauth) us) where
  check_credentials_lem :
      (role : String) (creds : List (String × String))
      → check_credentials (names_of us) oauth role creds ≡ none
      → All (CredentialIsUsable us) creds
  unfolding check_credentials
  check_credentials_lem role [] h = tt
  check_credentials_lem role ((upstream, env_var) ∷ creds) h =
      let (a, more) = then_check-none _ _ h in
      let (b, rest) = then_check-none _ _ more in
      let (c, others) = then_check-none _ _ rest in
      let absent = not_member-In upstream oauth (refuse_if-none _ _ c) in
      (
        record {
          configured = member-In upstream (names_of us) (true_of_not _ (refuse_if-none _ _ a));
          variable_named = ne_of_str_eq _ _ (refuse_if-none _ _ b);
          not_oauth =
              All-imp (λ u. UsesOauth u.auth → In u.name oauth)
                (λ u. UsesOauth u.auth → u.name ≢ upstream) us
                (λ u m o e. absent (subst (λ n. In n oauth) e (m o))) collected;
        },
        check_credentials_lem role creds others,
      )

  check_roles_lem :
      (compiles : String → Bool) (roles : List (String × RawRoleConfig))
      → check_roles compiles (names_of us) oauth roles ≡ none
      → All (RoleIsUsable compiles us) roles
  unfolding check_roles
  check_roles_lem compiles [] h = tt
  check_roles_lem compiles ((name, role) ∷ roles) h =
      let (a, m1) = then_check-none _ _ h in
      let (b, m2) = then_check-none _ _ m1 in
      let (c, m3) = then_check-none _ _ m2 in
      let (d, others) = then_check-none _ _ m3 in
      (
        record {
          named = ne_of_str_eq _ _ (refuse_if-none _ _ a);
          has_tools = no_tools-ne _ (refuse_if-none _ _ b);
          patterns_compile = check_patterns_lem compiles name _ c;
          credentials_usable = check_credentials_lem name _ d;
        },
        check_roles_lem compiles roles others,
      )

pub record IsConsistent (compiles : String → Bool) (raw : RawConfig) : Type 0 where
  pub has_upstream : raw.upstreams ≢ []
  pub upstreams_usable : All IsUsable raw.upstreams
  pub names_distinct : Nodup (names_of raw.upstreams)
  pub auth_known : All (λ u. AuthIsKnown raw.oauth_providers u.auth) raw.upstreams
  pub roles_usable : All (RoleIsUsable compiles raw.upstreams) raw.roles

roles_after_lem :
    (compiles : String → Bool) (raw : RawConfig) (collected : Result (List String))
    → roles_after compiles (names_of raw.upstreams) raw.roles collected ≡ none
    → (oauth : List String) × (collected ≡ ok oauth)
      × (check_roles compiles (names_of raw.upstreams) oauth raw.roles ≡ none)
unfolding roles_after
roles_after_lem compiles raw (ok oauth) h = (oauth, refl, h)
roles_after_lem compiles raw (err e) h = cc

no_upstream-ne : (us : List RawUpstreamConfig) → no_upstream us ≡ false → us ≢ []
unfolding no_upstream
no_upstream-ne [] h = cc
no_upstream-ne (u ∷ us) h = λ e. cc

-- What `validate` accepts is consistent, whatever the order in which Go ranges over its maps: it has
-- an upstream, every upstream can be reached as its transport demands and the names are distinct,
-- the provider of each with oauth is configured, and every role has a name and patterns that
-- compile, and credentials, with a variable, only for configured upstreams without oauth.
pub validate-IsConsistent :
    (f : Floats) (compiles : String → Bool) (raw : RawConfig)
    → validate f compiles raw ≡ none
    → IsConsistent compiles raw
unfolding validate
validate-IsConsistent f compiles raw h =
    let (a, m1) = then_check-none _ _ h in
    let (b, m2) = then_check-none _ _ m1 in
    let (c, d) = then_check-none _ _ m2 in
    let (oauth, gathered, roles) = roles_after_lem compiles raw _ d in
    let (auth, kept) = oauth_upstreams_lem raw.oauth_providers raw.upstreams [] oauth gathered in
    let (usable, distinct) = check_upstreams-IsUsable raw.upstreams b in
    record {
      has_upstream = no_upstream-ne _ (refuse_if-none _ _ a);
      upstreams_usable = usable;
      names_distinct = distinct;
      auth_known =
          All-imp (CollectedIn raw.oauth_providers oauth) _ raw.upstreams (λ u p. p.0) auth;
      roles_usable =
          check_roles_lem raw.upstreams oauth
            (All-imp (CollectedIn raw.oauth_providers oauth) _ raw.upstreams (λ u p. p.1) auth)
            compiles raw.roles roles;
    }
