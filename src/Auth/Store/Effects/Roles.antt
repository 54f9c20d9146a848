-- ===== src/Auth/Store/Effects/Roles.antt =====
-- What the operations on roles keep.
use stile.Prelude.{
  ℕ, suc, ◌<◌, String, ◌≡◌, ◌≢◌, refl, false, not, some, List, [], ◌∷◌, arith, ◌==◌, eq_iff, filter,
  any, All, Bool-cases, inl, inr, is_some, ◌∙◌, ap,
}
use stile.Auth.Store.{
  CallerRow, RoleRow, SqliteStore, caller_id_of, name_of, is_named, belongs, role_rows,
  lookup_by_key, roles_for_caller, with_caller, assign_role, insert_role, is_role, unassign_role,
  default_roles, ensure_caller,
}
use stile.Auth.Store.Kept.{name_of-caller_id_of}
use stile.Auth.Store.Effects.{
  IsSound, Keeps, Everyone, But, All-filter, Keeps-same, id-below, with_caller-Keeps, same_roles,
  roles_below_next, found-Keeps,
}

module _ (s : SqliteStore) (sound : IsSound s) where
  inserted :
      (id : ℕ) (role : String) (rs : List RoleRow) (b : ℕ)
      → id < b
      → All (λ (r : RoleRow). r.caller_id < b) rs
      → All (λ (r : RoleRow). r.caller_id < b) (insert_role id role rs)
  unfolding insert_role
  inserted id role rs b l h = elim (Bool-cases (any (is_role id role) rs)) [
    | inl t ↦ rw t h
    | inr f ↦ rw f (l, h)
  ]

  -- a row of a caller changes no other caller's roles
  role_rows-inserted :
      (cs : List CallerRow) (n role : String) (id : ℕ) (rs : List RoleRow)
      → belongs cs n id ≡ false
      → role_rows cs n (insert_role id role rs) ≡ role_rows cs n rs
  unfolding insert_role role_rows
  role_rows-inserted cs n role id rs h = ground arith

  not_of :
      (name n : String) (id : ℕ)
      → caller_id_of name s.callers ≡ some id
      → n ≢ name
      → belongs s.callers n id ≡ false
  unfolding belongs is_named
  not_of name n id e d = ground (
    arith,
    eq_iff name n,
    name_of-caller_id_of s.next_caller name id s.callers sound.callers_below e,
  )

  -- only the roles change, and those of one caller
  roles-Keeps :
      (name : String) (rs : List RoleRow)
      → All (λ (r : RoleRow). r.caller_id < s.next_caller) rs
      → ((n : String) → n ≢ name → role_rows s.callers n rs ≡ role_rows s.callers n s.caller_roles)
      → Keeps Everyone (But name) s (record s { caller_roles = rs })
  roles-Keeps name rs b same = record {
    sound = record {
      callers_below = sound.callers_below;
      keys_below = sound.keys_below;
      roles_below = b;
    };
    keys = λ hash r e d. unfold lookup_by_key in (unfold lookup_by_key in e);
    roles = λ n d. unfold roles_for_caller in same n d;
  }

  pub assign_role-Keeps :
      (name role : String) → Keeps Everyone (But name) s (assign_role s name role).0
  unfolding assign_role
  assign_role-Keeps name role = found-Keeps s sound Everyone (But name) name _ (λ id e.
      roles-Keeps name _
        (inserted id role s.caller_roles s.next_caller (id-below s sound name id e)
          sound.roles_below)
        (λ n d. role_rows-inserted s.callers n role id s.caller_roles (not_of name n id e d)))

  role_rows-deleted :
      (n role : String) (id : ℕ) (rs : List RoleRow)
      → belongs s.callers n id ≡ false
      → role_rows s.callers n (filter (λ r. not (is_role id role r)) rs) ≡ role_rows s.callers n rs
  unfolding role_rows
  role_rows-deleted n role id [] h = refl
  role_rows-deleted n role id (r ∷ rs) h = elim (Bool-cases (r.caller_id == id)) [
    | inl t ↦
        let same : r.caller_id ≡ id = ground arith in
        ground (arith, role_rows-deleted n role id rs h, ap (belongs s.callers n) same)
    | inr f ↦ ground (arith, role_rows-deleted n role id rs h)
  ]

  pub unassign_role-Keeps :
      (name role : String) → Keeps Everyone (But name) s (unassign_role s name role).0
  unfolding unassign_role
  unassign_role-Keeps name role = found-Keeps s sound Everyone (But name) name _ (λ id e.
      elim (Bool-cases (any (is_role id role) s.caller_roles)) [
        | inl t ↦ rw t (
            roles-Keeps name _ (All-filter _ _ s.caller_roles sound.roles_below)
              (λ n d. role_rows-deleted n role id s.caller_roles (not_of name n id e d)))
        | inr f ↦ rw f (Keeps-same s sound Everyone (But name))
      ])

  defaults-below :
      (id : ℕ) (roles : List String) (rs : List RoleRow) (b : ℕ)
      → id < b
      → All (λ (r : RoleRow). r.caller_id < b) rs
      → All (λ (r : RoleRow). r.caller_id < b) (default_roles id roles rs)
  unfolding default_roles
  defaults-below id [] rs b l h = h
  defaults-below id (role ∷ roles) rs b l h =
      defaults-below id roles (insert_role id role rs) b l (inserted id role rs b l h)

  role_rows-defaults :
      (cs : List CallerRow) (n : String) (id : ℕ) (roles : List String) (rs : List RoleRow)
      → belongs cs n id ≡ false
      → role_rows cs n (default_roles id roles rs) ≡ role_rows cs n rs
  unfolding default_roles
  role_rows-defaults cs n id [] rs h = refl
  role_rows-defaults cs n id (role ∷ roles) rs h =
      role_rows-defaults cs n id roles (insert_role id role rs) h
      ∙ role_rows-inserted cs n role id rs h

  not_new :
      (name n : String) → n ≢ name → belongs (with_caller s name).callers n s.next_caller ≡ false
  unfolding belongs is_named name_of
  not_new name n d = ground (arith, eq_iff name n)

  pub ensure_caller-Keeps :
      (name : String) (roles : List String)
      → Keeps Everyone (But name) s (ensure_caller s name roles)
  unfolding ensure_caller
  ensure_caller-Keeps name roles = elim (Bool-cases (is_some (caller_id_of name s.callers))) [
    | inl t ↦ rw t (Keeps-same s sound Everyone (But name))
    | inr f ↦ rw f (
        with_caller-Keeps s sound name _
          (defaults-below s.next_caller roles s.caller_roles (suc s.next_caller) (omega arith)
            (roles_below_next s sound))
          (But name)
          (λ n d.
            role_rows-defaults (with_caller s name).callers n s.next_caller roles s.caller_roles
              (not_new name n d)
            ∙ same_roles s sound name n))
  ]
