-- ===== src/Auth/Roles/Access.antt =====
-- Which tools a caller may use, told from the configured roles and the roles assigned to it.
use stile.Prelude.{
  String, ◌≡◌, ◌≢◌, refl, sym, ◌∙◌, ap, ◌⊎◌, inl, inr, ◌↔◌, Bool, true, Option, none, some, List,
  [], ◌∷◌, ◌++◌, arith, str_eq, eq_iff, eq_refl, All, In, map, any-In, In-any, In-filter, filter-In,
  In-append, In-append_left, In-append_right,
}
use mathlib.Core.List.{append-nil, append_assoc}
use stile.Prelude.Dict
use stile.Prelude.Dict.{Dict, get-put, get-empty}
use stile.Auth.Roles.{
  RoleConfig, Caller, OidcConfig, Authenticator, compile_all, load_roles, new_authenticator,
  can_access_tool, contains, order_by_config, union_allowed_tools, patterns_of, keep,
}

-- No two roles have one name.
abbrev pub DistinctRoles : List RoleConfig → Type 0
DistinctRoles [] = Unit
DistinctRoles (r ∷ rs) = All (λ (x : RoleConfig). x.name ≢ r.name) rs × DistinctRoles rs

contains_iff : (roles : List String) (r : String) → (contains roles r ≡ true) ↔ In r roles
contains_iff roles r = (
  λ h. let (x, m, e) = any-In (λ x. str_eq x r) roles h in rw ((eq_iff x r).0 e) at m,
  λ m. In-any (λ x. str_eq x r) r roles m (eq_refl r),
)

In-keep :
    {G : Type 0} (g : G) (o : Option G) (gs : List G) → In g (keep o gs) → (o ≡ some g) ⊎ In g gs
In-keep g none gs h = inr h
In-keep g (some x) gs (inl e) = inl (ap some (sym e))
In-keep g (some x) gs (inr m) = inr m

keep-In :
    {G : Type 0} (g : G) (o : Option G) (gs : List G) → (o ≡ some g) ⊎ In g gs → In g (keep o gs)
keep-In g none gs (inl e) = cc
keep-In g none gs (inr m) = m
keep-In g (some x) gs (inl e) = inl (cc)
keep-In g (some x) gs (inr m) = inr m

module _ {G : Type 0} (compile : String → Option G) where
  In-compile_all :
      (g : G) (ps : List String)
      → In g (compile_all compile ps)
      → (p : String) × In p ps × (compile p ≡ some g)
  unfolding compile_all
  In-compile_all g [] h = elim h [ ]
  In-compile_all g (p ∷ ps) h = elim (In-keep g (compile p) _ h) [
    | inl s ↦ (p, inl refl, s)
    | inr m ↦ let (q, n, c) = In-compile_all g ps m in (q, inr n, c)
  ]

  compile_all-In :
      (g : G) (p : String) (ps : List String)
      → In p ps
      → compile p ≡ some g
      → In g (compile_all compile ps)
  unfolding compile_all
  compile_all-In g p [] m c = elim m [ ]
  compile_all-In g p (q ∷ ps) (inl e) c = keep-In g (compile q) _ (inl (rw (← e) c))
  compile_all-In g p (q ∷ ps) (inr m) c = keep-In g (compile q) _ (inr (compile_all-In g p ps m c))

  module _ (getenv : String → String) where
    order-load_roles :
        (cfgs : List RoleConfig) (a : Authenticator G)
        → (load_roles compile getenv cfgs a).role_order ≡ a.role_order ++ map (λ r. r.name) cfgs
    unfolding load_roles
    order-load_roles [] a = sym (append-nil a.role_order)
    order-load_roles (r ∷ rs) a = order-load_roles rs _ ∙ append_assoc a.role_order (r.name ∷ []) _

    -- A role that the rest of the configuration does not name keeps its patterns.
    tools-load_roles_other :
        (cfgs : List RoleConfig) (a : Authenticator G) (name : String)
        → All (λ (x : RoleConfig). x.name ≢ name) cfgs
        → Dict.get (load_roles compile getenv cfgs a).allowed_tools name
          ≡ Dict.get a.allowed_tools name
    unfolding load_roles
    tools-load_roles_other [] a name d = refl
    tools-load_roles_other (r ∷ rs) a name d =
        tools-load_roles_other rs _ name d.1 ∙ rw get-put (ground (arith, eq_iff r.name name))

    tools-load_roles :
        (cfgs : List RoleConfig) (a : Authenticator G) (role : RoleConfig)
        → DistinctRoles cfgs
        → In role cfgs
        → Dict.get (load_roles compile getenv cfgs a).allowed_tools role.name
          ≡ some (compile_all compile role.allowed_tools)
    unfolding load_roles
    tools-load_roles [] a role d m = elim m [ ]
    tools-load_roles (r ∷ rs) a role d (inl e) =
        rw e (tools-load_roles_other rs _ r.name d.0 ∙ rw (get-put, eq_refl))
    tools-load_roles (r ∷ rs) a role d (inr m) = tools-load_roles rs _ role d.1 m

module _ {G : Type 0} where
  In-union :
      (g : G) (a : Authenticator G) (rs : List String)
      → In g (union_allowed_tools a rs)
      → (r : String) × In r rs × In g (patterns_of (Dict.get a.allowed_tools r))
  unfolding union_allowed_tools
  In-union g a [] h = elim h [ ]
  In-union g a (r ∷ rs) h = elim (In-append g (patterns_of (Dict.get a.allowed_tools r)) _ h) [
    | inl m ↦ (r, inl refl, m)
    | inr m ↦ let (q, n, k) = In-union g a rs m in (q, inr n, k)
  ]

  union-In :
      (g : G) (a : Authenticator G) (r : String) (rs : List String)
      → In r rs
      → In g (patterns_of (Dict.get a.allowed_tools r))
      → In g (union_allowed_tools a rs)
  unfolding union_allowed_tools
  union-In g a r [] m k = elim m [ ]
  union-In g a r (q ∷ rs) (inl e) k = In-append_left g _ _ (rw e at k)
  union-In g a r (q ∷ rs) (inr m) k = In-append_right g _ _ (union-In g a r rs m k)

In-map_name :
    (r : String) (cfgs : List RoleConfig)
    → In r (map (λ (x : RoleConfig). x.name) cfgs)
    → (role : RoleConfig) × In role cfgs × (r ≡ role.name)
In-map_name r [] h = elim h [ ]
In-map_name r (c ∷ cs) (inl e) = (c, inl refl, e)
In-map_name r (c ∷ cs) (inr m) = let (x, n, e) = In-map_name r cs m in (x, inr n, e)

map_name-In :
    (role : RoleConfig) (cfgs : List RoleConfig)
    → In role cfgs
    → In role.name (map (λ (x : RoleConfig). x.name) cfgs)
map_name-In role [] m = elim m [ ]
map_name-In role (c ∷ cs) (inl e) = inl (ap (λ (x : RoleConfig). x.name) e)
map_name-In role (c ∷ cs) (inr m) = inr (map_name-In role cs m)

module _ {G : Type 0} (compile : String → Option G) (matches : G → String → Bool) where
  -- A configured role that is assigned, and one of its patterns that compiles and matches the tool.
  pub record Grant (cfgs : List RoleConfig) (assigned : List String) (tool : String) : Type 0 where
    pub role : RoleConfig
    pub configured : In role cfgs
    pub is_assigned : In role.name assigned
    pub pattern : String
    pub is_allowed : In pattern role.allowed_tools
    pub compiled : G
    pub compiles : compile pattern ≡ some compiled
    pub matched : matches compiled tool ≡ true

  module _ (getenv : String → String) (cfgs : List RoleConfig) (oidc : Option OidcConfig) where
    -- the caller that authentication makes of a name and the roles that the store gives it
    abbrev pub caller_with : String → List String → Caller G
    caller_with name assigned =
        let a = new_authenticator compile getenv cfgs oidc in
        record {
          name = name;
          roles = order_by_config a assigned;
          allowed_tools = union_allowed_tools a (order_by_config a assigned);
        }

    order-new : (new_authenticator compile getenv cfgs oidc).role_order ≡ map (λ r. r.name) cfgs
    unfolding new_authenticator
    order-new = order-load_roles compile getenv cfgs _

    tools-new :
        (role : RoleConfig)
        → DistinctRoles cfgs
        → In role cfgs
        → Dict.get (new_authenticator compile getenv cfgs oidc).allowed_tools role.name
          ≡ some (compile_all compile role.allowed_tools)
    unfolding new_authenticator
    tools-new role d m = tools-load_roles compile getenv cfgs _ role d m

    granted :
        (name : String) (assigned : List String) (tool : String)
        → DistinctRoles cfgs
        → can_access_tool matches (caller_with name assigned) tool ≡ true
        → Grant cfgs assigned tool
    unfolding can_access_tool order_by_config patterns_of
    granted name assigned tool d h =
        let (g, m, hit) = any-In (λ g. matches g tool) _ h in
        let (r, n, k) = In-union g (new_authenticator compile getenv cfgs oidc) _ m in
        let (o, c) = In-filter (contains assigned) r _ n in
        let (role, p, e) = In-map_name r cfgs (rw order-new at o) in
        let (pattern, q, s) =
          In-compile_all compile g role.allowed_tools (rw (e, tools-new role d p) at k) in
        record {
          role = role;
          configured = p;
          is_assigned = rw e at ((contains_iff assigned r).0 c);
          pattern = pattern;
          is_allowed = q;
          compiled = g;
          compiles = s;
          matched = hit;
        }

    can_access :
        (name : String) (assigned : List String) (tool : String)
        → DistinctRoles cfgs
        → Grant cfgs assigned tool
        → can_access_tool matches (caller_with name assigned) tool ≡ true
    unfolding can_access_tool order_by_config patterns_of
    can_access name assigned tool d t =
        In-any (λ g. matches g tool) t.compiled _
          (union-In t.compiled (new_authenticator compile getenv cfgs oidc) t.role.name _
            (filter-In (contains assigned) t.role.name _
              (rw order-new (map_name-In t.role cfgs t.configured))
              ((contains_iff assigned t.role.name).1 t.is_assigned))
            (rw (tools-new t.role d t.configured) (
              compile_all-In compile t.compiled t.pattern t.role.allowed_tools t.is_allowed
                t.compiles)))
          t.matched

    -- With distinct role names in the configuration, a caller may use a tool exactly when some
    -- configured role that the store assigns to it has a pattern that compiles and matches the tool.
    pub access_exact :
        (name : String) (assigned : List String) (tool : String)
        → DistinctRoles cfgs
        → (can_access_tool matches (caller_with name assigned) tool ≡ true)
          ↔ Grant cfgs assigned tool
    access_exact name assigned tool d =
        (granted name assigned tool d, can_access name assigned tool d)
