-- ===== src/Auth/Roles/Credentials.antt =====
-- Which credential a caller gets for an upstream.
use stile.Prelude.{
  String, ◌≡◌, ◌≢◌, refl, sym, ap, ◌⊎◌, inl, inr, Option, none, some, List, [], ◌∷◌, arith, str_eq,
  eq_iff, Bool-cases, In, or_else,
}
use stile.Prelude.Dict
use stile.Prelude.Dict.{Dict, get-put, get-empty}
use stile.Auth.Roles.{
  RoleConfig, OidcConfig, Authenticator, resolve_credentials, load_roles, new_authenticator,
  upstream_token, token_of,
}

-- The token is the value, not empty, of a variable that the list names for the upstream.
pub record FromEnv (getenv : String → String) (creds : List (String × String))
    (upstream token : String) : Type 0 where
  pub env_var : String
  pub listed : In (upstream, env_var) creds
  pub valued : getenv env_var ≡ token
  pub nonempty : token ≢ ""

FromEnv-cons :
    (getenv : String → String) (x : String × String) (creds : List (String × String))
    (upstream token : String)
    → FromEnv getenv creds upstream token
    → FromEnv getenv (x ∷ creds) upstream token
FromEnv-cons getenv x creds upstream token f = record {
  env_var = f.env_var;
  listed = inr f.listed;
  valued = f.valued;
  nonempty = f.nonempty;
}

resolve_credentials-FromEnv :
    (getenv : String → String) (creds : List (String × String)) (d : Dict String)
    (upstream token : String)
    → Dict.get (resolve_credentials getenv creds d) upstream ≡ some token
    → (Dict.get d upstream ≡ some token) ⊎ FromEnv getenv creds upstream token
unfolding resolve_credentials
resolve_credentials-FromEnv getenv [] d upstream token h = inl h
resolve_credentials-FromEnv getenv ((up, var) ∷ creds) d upstream token h =
    elim (resolve_credentials-FromEnv getenv creds _ upstream token h) [
      | inr f ↦ inr (FromEnv-cons getenv (up, var) creds upstream token f)
      | inl g ↦ elim (Bool-cases (str_eq (getenv var) "")) [
        | inl blank ↦ inl (rw blank at g)
        | inr set ↦ elim (Bool-cases (str_eq up upstream)) [
          | inl same ↦
              let e : getenv var ≡ token = ground (arith, get-put d up upstream (getenv var)) in
              inr (record {
                env_var = var;
                listed = inl (ap (λ (u : String). (u, var)) (sym ((eq_iff up upstream).0 same)));
                valued = e;
                nonempty = λ q. ground (arith, eq_iff (getenv var) "");
              })
          | inr other ↦ inl (ground (arith, get-put d up upstream (getenv var)))
        ]
      ]
    ]

resolved-FromEnv :
    (getenv : String → String) (creds : List (String × String)) (upstream token : String)
    → Dict.get (resolve_credentials getenv creds Dict.empty) upstream ≡ some token
    → FromEnv getenv creds upstream token
resolved-FromEnv getenv creds upstream token h =
    elim (resolve_credentials-FromEnv getenv creds Dict.empty upstream token h) [
      | inl e ↦ absurd (cc (get-empty {V = String} upstream))
      | inr f ↦ f
    ]

module _ {G : Type 0} (compile : String → Option G) (getenv : String → String) where
  credentials-load_roles :
      (cfgs : List RoleConfig) (a : Authenticator G) (name : String) (env : Dict String)
      → Dict.get (load_roles compile getenv cfgs a).credentials name ≡ some env
      → (Dict.get a.credentials name ≡ some env)
        ⊎ ((role : RoleConfig) × In role cfgs
            × (role.name ≡ name)
            × (env ≡ resolve_credentials getenv role.credentials Dict.empty))
  unfolding load_roles
  credentials-load_roles [] a name env h = inl h
  credentials-load_roles (r ∷ rs) a name env h = elim (credentials-load_roles rs _ name env h) [
    | inr (role, m, n, e) ↦ inr (role, inr m, n, e)
    | inl g ↦ elim (Bool-cases (str_eq r.name name)) [
      | inl same ↦ inr (
        r,
        inl refl,
        (eq_iff r.name name).0 same,
        ground (
          arith,
          get-put a.credentials r.name name (resolve_credentials getenv r.credentials Dict.empty),
        ),
      )
      | inr other ↦ inl (
          ground (
            arith,
            get-put a.credentials r.name name (resolve_credentials getenv r.credentials Dict.empty),
          ))
    ]
  ]

  or_else-some :
      (o p : Option String) (t : String) → or_else o p ≡ some t → (o ≡ some t) ⊎ (p ≡ some t)
  or_else-some none p t h = inr h
  or_else-some (some x) p t h = inl h

  upstream_token-held :
      (a : Authenticator G) (roles : List String) (upstream t : String)
      → upstream_token a roles upstream ≡ some t
      → (r : String) × In r roles × (token_of (Dict.get a.credentials r) upstream ≡ some t)
  unfolding upstream_token
  upstream_token-held a [] upstream t h = cc
  upstream_token-held a (r ∷ rs) upstream t h =
      elim (or_else-some (token_of (Dict.get a.credentials r) upstream) _ t h) [
        | inl e ↦ (r, inl refl, e)
        | inr e ↦ let (q, m, f) = upstream_token-held a rs upstream t e in (q, inr m, f)
      ]

  -- A configured role that the caller holds, and the variable its credentials name for the upstream.
  pub record Source (cfgs : List RoleConfig) (roles : List String) (upstream token : String)
      : Type 0 where
    pub role : RoleConfig
    pub configured : In role cfgs
    pub held : In role.name roles
    pub from_env : FromEnv getenv role.credentials upstream token

  token_of-some :
      (o : Option (Dict String)) (upstream t : String)
      → token_of o upstream ≡ some t
      → (env : Dict String) × (o ≡ some env) × (Dict.get env upstream ≡ some t)
  unfolding token_of
  token_of-some none upstream t h = cc
  token_of-some (some env) upstream t h = (env, refl, h)

  -- A credential never leaks between roles or upstreams: the token that a caller with some roles gets
  -- for an upstream is the value, not empty, of an environment variable that the configuration names
  -- for that upstream under one of those roles.
  pub upstream_token-Source :
      (cfgs : List RoleConfig) (oidc : Option OidcConfig) (roles : List String)
      (upstream t : String)
      → upstream_token (new_authenticator compile getenv cfgs oidc) roles upstream ≡ some t
      → Source cfgs roles upstream t
  unfolding new_authenticator
  upstream_token-Source cfgs oidc roles upstream t h =
      let (r, m, e) =
        upstream_token-held (new_authenticator compile getenv cfgs oidc) roles upstream t h in
      let (env, f, g) = token_of-some _ upstream t e in
      source r m env g (credentials-load_roles cfgs _ r env f)
    where
      source :
          (r : String)
          → In r roles
          → (env : Dict String) → Dict.get env upstream ≡ some t
          → (Dict.get (Dict.empty {V = Dict String}) r ≡ some env)
            ⊎ ((role : RoleConfig) × In role cfgs
                × (role.name ≡ r)
                × (env ≡ resolve_credentials getenv role.credentials Dict.empty))
          → Source cfgs roles upstream t
      source r m env g (inl none_yet) = absurd (cc (get-empty {V = Dict String} r))
      source r m env g (inr (role, c, n, e)) = record {
        role = role;
        configured = c;
        held = rw n m;
        from_env = resolved-FromEnv getenv role.credentials upstream t (rw e at g);
      }
