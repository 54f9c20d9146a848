-- ===== src/Auth/Store/Effects.antt =====
-- What each operation of the store keeps: the ids in order, the rows bound to them, and the keys and
-- roles of the callers that it is not about.
pub mod Keys
pub mod Roles
use stile.Prelude.{
  ℕ, suc, ◌<◌, ◌≤◌, ◌+◌, String, ◌≡◌, ◌≢◌, refl, Bool, true, false, not, ◌&&◌, Option, none, some,
  List, [], ◌∷◌, arith, ◌==◌, str_eq, eq_iff, if◌then◌else◌, filter, any, All, All-imp, Bool-cases,
  Option-cases, inl, inr, is_some, sym, subst, ◌∙◌, ap,
}
use stile.Auth.Authenticate.{KeyRecord}
use stile.Auth.Store.{
  CallerRow, KeyRow, RoleRow, SqliteStore, StoreError, Answered, not_found, caller_id_of, name_of,
  is_named, belongs, key_rows, role_rows, lookup_by_key, roles_for_caller, with_caller, found,
  add_caller, add_key, insert_key_row, assign_role, insert_role, is_role, unassign_role,
  delete_caller, delete_keys, delete_key, revoke_key, default_roles, ensure_caller,
}
use stile.Auth.Store.Kept.{
  Below, Below-weaken, Below-filter, name_of-Below, name_of-caller_id_of, Kept, Kept-same,
  Kept-with_caller, Kept-delete, key_rows-Kept, role_rows-Kept,
}

pub record IsSound (s : SqliteStore) : Type 0 where
  pub callers_below : Below s.next_caller s.callers
  pub keys_below : All (λ (k : KeyRow). k.caller_id < s.next_caller) s.api_keys
  pub roles_below : All (λ (r : RoleRow). r.caller_id < s.next_caller) s.caller_roles

-- The keys and the roles of the spared callers stay as they were.
pub record Keeps (KeySpared RoleSpared : String → Type 0) (s s' : SqliteStore) : Type 0 where
  pub sound : IsSound s'
  pub keys :
      (hash : String) (r : KeyRecord)
      → lookup_by_key s hash ≡ some r
      → KeySpared r.caller_name
      → lookup_by_key s' hash ≡ some r
  pub roles : (n : String) → RoleSpared n → roles_for_caller s' n ≡ roles_for_caller s n

abbrev pub Everyone : String → Type 0
Everyone n = Unit

abbrev pub But : String → String → Type 0
But name n = n ≢ name

pub All-filter {ℓ κ} :
    {A : Type ℓ} (P : A → Type κ) (p : A → Bool) (xs : List A) → All P xs → All P (filter p xs)
All-filter P p [] h = tt
All-filter P p (x ∷ xs) h = elim (Bool-cases (p x)) [
  | inl t ↦ rw t (h.0, All-filter P p xs h.1)
  | inr f ↦ rw f (All-filter P p xs h.1)
]

filter_all {ℓ} : {A : Type ℓ} (xs : List A) → filter (λ x. true) xs ≡ xs
filter_all [] = refl
filter_all (x ∷ xs) = rw (filter_all xs)

module _ (s : SqliteStore) (sound : IsSound s) where
  pub Keeps-same : (K R : String → Type 0) → Keeps K R s s
  Keeps-same K R = record { sound = sound; keys = λ hash r e d. e; roles = λ n d. refl }

  pub id-below :
      (name : String) (id : ℕ) → caller_id_of name s.callers ≡ some id → id < s.next_caller
  id-below name id e =
      name_of-Below id s.next_caller name s.callers sound.callers_below
        (name_of-caller_id_of s.next_caller name id s.callers sound.callers_below e)

  -- the same tables with a new caller, and rows of it alone put before the roles
  pub with_caller-Keeps :
      (name : String) (rs : List RoleRow)
      → All (λ (r : RoleRow). r.caller_id < suc s.next_caller) rs
      → (R : String → Type 0)
      → ((n : String) → R n → role_rows (with_caller s name).callers n rs ≡ roles_for_caller s n)
      → Keeps Everyone R s (record (with_caller s name) { caller_roles = rs })
  with_caller-Keeps name rs b R same = record {
    sound = record {
      callers_below = (omega arith, sound.callers_below);
      keys_below = All-imp _ _ s.api_keys (λ k l. omega arith) sound.keys_below;
      roles_below = b;
    };
    keys = λ hash r e d.
        unfold lookup_by_key in
        subst (λ ks. key_rows (with_caller s name).callers hash ks ≡ some r) (filter_all s.api_keys)
          (key_rows-Kept s.next_caller Everyone hash s.callers (with_caller s name).callers
            (λ k. true) s.api_keys r
            (Kept-with_caller s.next_caller name s.callers sound.callers_below) (λ k n e d. refl)
            sound.keys_below (unfold lookup_by_key in e) tt);
    roles = λ n d. unfold roles_for_caller in (same n d);
  }

  pub same_roles :
      (name n : String)
      → role_rows (with_caller s name).callers n s.caller_roles ≡ roles_for_caller s n
  unfolding roles_for_caller
  same_roles name n =
      ap (role_rows (with_caller s name).callers n) (sym (filter_all s.caller_roles))
      ∙ role_rows-Kept s.next_caller Everyone n s.callers (with_caller s name).callers (λ r. true)
          s.caller_roles (Kept-with_caller s.next_caller name s.callers sound.callers_below)
          (λ k n e d. refl) sound.roles_below tt

  pub roles_below_next : All (λ (r : RoleRow). r.caller_id < suc s.next_caller) s.caller_roles
  roles_below_next = All-imp _ _ s.caller_roles (λ r l. omega arith) sound.roles_below

  pub add_caller-Keeps : (name : String) → Keeps Everyone Everyone s (add_caller s name).0
  unfolding add_caller
  add_caller-Keeps name = elim (Bool-cases (is_some (caller_id_of name s.callers))) [
    | inl t ↦ rw t (Keeps-same Everyone Everyone)
    | inr f ↦
        rw f (
          with_caller-Keeps name s.caller_roles roles_below_next Everyone
            (λ n d. same_roles name n))
  ]

  -- With the callers as they were, rows of one caller are dropped.
  pub dropped-Keeps :
      (name : String) (p : KeyRow → Bool) (q : RoleRow → Bool)
      → ((k : KeyRow) (n : String) → name_of k.caller_id s.callers ≡ some n → n ≢ name → p k ≡ true)
      → ((r : RoleRow) (n : String)
          → name_of r.caller_id s.callers ≡ some n
          → n ≢ name
          → q r ≡ true)
      → (cs : List CallerRow) → Below s.next_caller cs
      → Kept s.next_caller (But name) s.callers cs
      → Keeps (But name) (But name) s (record s {
        callers = cs;
        api_keys = filter p s.api_keys;
        caller_roles = filter q s.caller_roles;
      })
  dropped-Keeps name p q drops_keys drops_roles cs b kept = record {
    sound = record {
      callers_below = b;
      keys_below = All-filter _ p s.api_keys sound.keys_below;
      roles_below = All-filter _ q s.caller_roles sound.roles_below;
    };
    keys = λ hash r e d.
        unfold lookup_by_key in
        key_rows-Kept s.next_caller (But name) hash s.callers cs p s.api_keys r kept drops_keys
          sound.keys_below (unfold lookup_by_key in e) d;
    roles = λ n d.
        unfold roles_for_caller in
        role_rows-Kept s.next_caller (But name) n s.callers cs q s.caller_roles kept drops_roles
          sound.roles_below d;
  }

  not_belonging :
      (name n : String) (id : ℕ)
      → name_of id s.callers ≡ some n
      → n ≢ name
      → not (belongs s.callers name id) ≡ true
  unfolding belongs is_named
  not_belonging name n id e d = ground (arith, eq_iff n name)

  pub delete_caller-Keeps : (name : String) → Keeps (But name) (But name) s (delete_caller s name).0
  unfolding delete_caller
  delete_caller-Keeps name = elim (Bool-cases (is_some (caller_id_of name s.callers))) [
    | inl t ↦ rw t (
        dropped-Keeps name _ _ (λ k n e d. not_belonging name n k.caller_id e d)
          (λ r n e d. not_belonging name n r.caller_id e d)
          (filter (λ c. not (str_eq c.name name)) s.callers)
          (Below-filter (λ c. not (str_eq c.name name)) s.next_caller s.callers sound.callers_below)
          (Kept-delete s.next_caller name s.callers sound.callers_below))
    | inr f ↦ rw f (Keeps-same (But name) (But name))
  ]

  pub other_id :
      (name n : String) (id i : ℕ)
      → caller_id_of name s.callers ≡ some id
      → name_of i s.callers ≡ some n
      → n ≢ name
      → (i == id) ≡ false
  other_id name n id i e f d = elim (Bool-cases (i == id)) [
    | inl t ↦
        let same : i ≡ id = ground arith in
        let named = name_of-caller_id_of s.next_caller name id s.callers sound.callers_below e in
        absurd (d (ground (arith, ap (λ j. name_of j s.callers) same)))
    | inr differ ↦ differ
  ]

  pub found-Keeps :
      (K R : String → Type 0) (name : String) (f : ℕ → Answered)
      → ((id : ℕ) → caller_id_of name s.callers ≡ some id → Keeps K R s (f id).0)
      → Keeps K R s (found s (caller_id_of name s.callers) f).0
  found-Keeps K R name f h = elim (Option-cases (caller_id_of name s.callers)) [
    | inl missing ↦ rw missing (Keeps-same K R)
    | inr (id, e) ↦ rw e (h id e)
  ]
