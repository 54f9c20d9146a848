-- ===== src/Auth/Authenticate/Evidence.antt =====
-- What stands behind every caller that `Authenticate` returns.
use text.Mathlib.Text.{starts_with}
use mathlib.Core.Path.{subst}
use stile.Prelude.{
  String, ◌≡◌, refl, ◌⊎◌, inl, inr, Bool, true, false, Option, none, some, List, arith, str_eq,
  Bool-cases, ap,
}
use stile.Auth.Roles.{Caller, OidcConfig, Authenticator, order_by_config, union_allowed_tools}
use stile.Auth.Authenticate.{
  KeyRecord, CallerStore, AuthError, AuthResult, authenticated, refused, bearer, bearer_token,
  should_try_oidc, give_roles, registered, provision, identified, authenticate_oidc, by_key,
  authenticate_key, fall_back, try_oidc, authenticate, lookup_roles, missing_header, not_bearer,
}

module _ {S H G : Type 0} (store : CallerStore S H) (sha256 : String → H)
    (validate : S → String → Option String) (a : Authenticator G) where
  -- The store's roles for the caller are those it has, in the order of the configuration and with
  -- the tools of those roles.
  pub record HasRoles (s : S) (c : Caller G) : Type 0 where
    pub assigned : List String
    pub from_store : store.roles_for_caller s c.name ≡ some assigned
    pub roles : c.roles ≡ order_by_config a assigned
    pub tools : c.allowed_tools ≡ union_allowed_tools a (order_by_config a assigned)

  -- The token is an API key whose hash the store knows, under the caller's name and the label.
  pub record ByKey (s : S) (token : String) (c : Caller G) (label : String) : Type 0 where
    pub key : KeyRecord
    pub known : store.lookup_by_key s (sha256 token) ≡ some key
    pub named : c.name ≡ key.caller_name
    pub labelled : label ≡ key.key_label

  -- OIDC is configured and is tried for this token, and it validates the token as the caller's name;
  -- where callers are not provisioned and the store can tell, the caller is registered.
  pub record ByOidc (s : S) (token : String) (c : Caller G) (label : String) : Type 0 where
    pub cfg : OidcConfig
    pub configured : a.oidc ≡ some cfg
    pub tried : should_try_oidc cfg token ≡ true
    pub validated : validate s token ≡ some c.name
    pub is_registered :
        store.is_store ≡ true
        → cfg.auto_provision ≡ false
        → store.caller_exists s c.name ≡ some true
    pub labelled : label ≡ "oidc"

  give_roles-HasRoles :
      (s : S) (e : AuthError) (name label : String) (o : Option (List String)) (c : Caller G)
      (l : String)
      → o ≡ store.roles_for_caller s name
      → give_roles store sha256 validate a e name label o ≡ authenticated c l
      → HasRoles s c × (c.name ≡ name) × (l ≡ label)
  unfolding give_roles
  give_roles-HasRoles s e name label none c l p h = cc
  give_roles-HasRoles s e name label (some roles) c l p h = (
    record {
      assigned = roles;
      from_store = ground arith;
      roles = ground arith;
      tools = ground arith;
    },
    ground arith,
    ground arith,
  )

  by_key-evidence :
      (s : S) (token : String) (o : Option KeyRecord) (c : Caller G) (l : String)
      → store.lookup_by_key s (sha256 token) ≡ o
      → by_key store sha256 validate a s o ≡ authenticated c l
      → HasRoles s c × ByKey s token c l
  unfolding by_key
  by_key-evidence s token none c l p h = cc
  by_key-evidence s token (some k) c l p h =
      let (roles, n, e) =
        give_roles-HasRoles s lookup_roles k.caller_name k.key_label _ c l refl h in
      (roles, record { key = k; known = p; named = n; labelled = e })

  module _ (cfg : OidcConfig) (s : S) (token : String) (c : Caller G) (l : String) where
    record Validated (s' : S) : Type 0 where
      roles : HasRoles s' c
      validated : validate s token ≡ some c.name
      is_registered :
          store.is_store ≡ true
          → cfg.auto_provision ≡ false
          → store.caller_exists s c.name ≡ some true
      labelled : l ≡ "oidc"

    registered-evidence :
        (identity : String) (o : Option Bool)
        → store.caller_exists s identity ≡ o
        → registered store sha256 validate a s identity o ≡ authenticated c l
        → HasRoles s c
          × (c.name ≡ identity)
          × (l ≡ "oidc")
          × (store.caller_exists s identity ≡ some true)
    unfolding registered
    registered-evidence identity none p h = cc
    registered-evidence identity (some false) p h = cc
    registered-evidence identity (some true) p h =
        let (roles, n, e) = give_roles-HasRoles s lookup_roles identity "oidc" _ c l refl h in
        (roles, n, e, p)

    provision-evidence :
        (full auto : Bool) (identity : String)
        → store.is_store ≡ full
        → cfg.auto_provision ≡ auto
        → validate s token ≡ some identity
        → (provision store sha256 validate a full auto cfg s identity).1 ≡ authenticated c l
        → Validated (provision store sha256 validate a full auto cfg s identity).0
    unfolding provision
    provision-evidence true true identity f m v h =
        let (roles, n, e) = give_roles-HasRoles _ lookup_roles identity "oidc" _ c l refl h in
        record { roles = roles; validated = rw n v; is_registered = λ p q. cc; labelled = e }
    provision-evidence true false identity f m v h =
        let (roles, n, e, x) = registered-evidence identity _ refl h in
        record { roles = roles; validated = rw n v; is_registered = λ p q. rw n x; labelled = e }
    provision-evidence false auto identity f m v h =
        let (roles, n, e) = give_roles-HasRoles s lookup_roles identity "oidc" _ c l refl h in
        record { roles = roles; validated = rw n v; is_registered = λ p q. cc; labelled = e }

    identified-evidence :
        (o : Option String)
        → validate s token ≡ o
        → (identified store sha256 validate a cfg s o).1 ≡ authenticated c l
        → Validated (identified store sha256 validate a cfg s o).0
    unfolding identified
    identified-evidence none v h = cc
    identified-evidence (some identity) v h = provision-evidence _ _ identity refl refl v h

  -- What authentication rests on: the bearer scheme, the store's roles, and a known API key or a
  -- validated OIDC token. `s` is the store before the call and `s'` the store after it.
  pub record Evidence (s s' : S) (header : String) (c : Caller G) (label : String) : Type 0 where
    pub scheme : starts_with header bearer ≡ true
    pub has_roles : HasRoles s' c
    pub credential : ByOidc s (bearer_token header) c label ⊎ ByKey s' (bearer_token header) c label

  abbrev Backed : S → String → S × AuthResult G → Type 0
  Backed s token (s', authenticated c l) = HasRoles s' c × (ByOidc s token c l ⊎ ByKey s' token c l)
  Backed s token (s', refused e) = Unit

  key-Backed :
      (s s' : S) (token : String)
      → Backed s token (s', authenticate_key store sha256 validate a s' token)
  unfolding authenticate_key
  key-Backed s s' token = back (authenticate_key store sha256 validate a s' token) refl
    where
      back :
          (r : AuthResult G)
          → authenticate_key store sha256 validate a s' token ≡ r
          → Backed s token (s', r)
      back (refused e) h = tt
      back (authenticated c l) h =
          let (roles, key) = by_key-evidence s' token _ c l refl h in (roles, inr key)

  fall_back-Backed :
      (cfg : OidcConfig) (s : S) (token : String) (r : S × AuthResult G)
      → a.oidc ≡ some cfg
      → should_try_oidc cfg token ≡ true
      → authenticate_oidc store sha256 validate a cfg s token ≡ r
      → Backed s token (fall_back store sha256 validate a token r)
  unfolding fall_back authenticate_oidc
  fall_back-Backed cfg s token (s', refused e) p q h = key-Backed s s' token
  fall_back-Backed cfg s token (s', authenticated c l) p q h =
      let v =
        identified-evidence cfg s token c l (validate s token) refl
          (ap (λ (x : S × AuthResult G). x.1) h) in
      (
        subst (λ x. HasRoles x c) (ap (λ (x : S × AuthResult G). x.0) h) v.roles,
        inl (record {
          cfg = cfg;
          configured = p;
          tried = q;
          validated = v.validated;
          is_registered = v.is_registered;
          labelled = v.labelled;
        }),
      )

  try_oidc-Backed :
      (o : Option OidcConfig) (s : S) (token : String)
      → a.oidc ≡ o
      → Backed s token (try_oidc store sha256 validate a o s token)
  unfolding try_oidc
  try_oidc-Backed none s token p = key-Backed s s token
  try_oidc-Backed (some cfg) s token p = elim (Bool-cases (should_try_oidc cfg token)) [
    | inl t ↦ rw t (fall_back-Backed cfg s token _ p t refl)
    | inr f ↦ rw f (key-Backed s s token)
  ]

  refused-ne :
      (s s' : S) (e : AuthError) (c : Caller G) (l : String)
      → ◌≡◌ {A = S × AuthResult G} (s, refused e) (s', authenticated c l)
      → ⊥
  refused-ne s s' e c l h = cc (ap (λ (x : S × AuthResult G). x.1) h)

  authenticate-Backed :
      (s : S) (header : String)
      → starts_with header bearer ≡ true
      → Backed s
          (bearer_token header)
          (try_oidc store sha256 validate a a.oidc s (bearer_token header))
  authenticate-Backed s header h = try_oidc-Backed a.oidc s (bearer_token header) refl

  -- Every caller that Authenticate returns is backed: the header has the bearer scheme; the caller has
  -- the roles that the store gives it, ordered by the configuration, and the tools of those roles; and
  -- its token is either an API key known to the store under the caller's name and the returned label,
  -- or was tried and validated by OIDC as the caller's name, with the caller registered in a full
  -- store that does not provision callers.
  pub authenticate-Evidence :
      (s s' : S) (header : String) (c : Caller G) (label : String)
      → authenticate store sha256 validate a s header ≡ (s', authenticated c label)
      → Evidence s s' header c label
  unfolding authenticate
  authenticate-Evidence s s' header c label h = elim (Bool-cases (str_eq header "")) [
    | inl blank ↦ absurd (refused-ne s s' missing_header c label (rw blank at h))
    | inr n ↦ elim (Bool-cases (starts_with header bearer)) [
      | inl b ↦
          let (roles, credential) =
            subst (Backed s (bearer_token header)) (rw (n, b) at h)
              (authenticate-Backed s header b) in
          record { scheme = b; has_roles = roles; credential = credential }
      | inr no_scheme ↦ absurd (refused-ne s s' not_bearer c label (rw (n, no_scheme) at h))
    ]
  ]
