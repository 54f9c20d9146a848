-- ===== src/Auth/Store/Failures.antt =====
-- An operation of the store that fails leaves its tables as they were.
use stile.Prelude.{ℕ, String, ◌≡◌, refl, Bool, Option, none, some, arith, Option-cases, inl, inr}
use stile.Auth.Store.{
  KeyRow, SqliteStore, StoreError, Answered, caller_id_of, found, insert_key_row, delete_keys,
  add_caller, add_key, assign_role, unassign_role, delete_caller, delete_key, revoke_key,
}

abbrev pub FailsUnchanged : SqliteStore → Answered → Type 0
FailsUnchanged s w = (e : StoreError) → w.1 ≡ some e → w.0 ≡ s

found-FailsUnchanged :
    (s : SqliteStore) (o : Option ℕ) (f : ℕ → Answered)
    → ((id : ℕ) → FailsUnchanged s (f id))
    → FailsUnchanged s (found s o f)
found-FailsUnchanged s none f h e p = refl
found-FailsUnchanged s (some id) f h e p = h id e p

module _ (s : SqliteStore) (name : String) where
  pub add_caller-FailsUnchanged : FailsUnchanged s (add_caller s name)
  unfolding add_caller
  add_caller-FailsUnchanged e p = ground arith

  pub delete_caller-FailsUnchanged : FailsUnchanged s (delete_caller s name)
  unfolding delete_caller
  delete_caller-FailsUnchanged e p = ground arith

  pub add_key-FailsUnchanged : (hash label : String) → FailsUnchanged s (add_key s name hash label)
  unfolding add_key insert_key_row
  add_key-FailsUnchanged hash label e p = elim (Option-cases (caller_id_of name s.callers)) [
    | inl missing ↦ ground arith
    | inr (id, there) ↦ ground arith
  ]

  delete_keys-FailsUnchanged : (p : KeyRow → Bool) → FailsUnchanged s (delete_keys s p)
  unfolding delete_keys
  delete_keys-FailsUnchanged p e q = ground arith

  pub delete_key-FailsUnchanged : (key_id : ℕ) → FailsUnchanged s (delete_key s name key_id)
  unfolding delete_key
  delete_key-FailsUnchanged key_id = found-FailsUnchanged s _ _ (λ id. delete_keys-FailsUnchanged _)

  pub revoke_key-FailsUnchanged : (label : String) → FailsUnchanged s (revoke_key s name label)
  unfolding revoke_key
  revoke_key-FailsUnchanged label = found-FailsUnchanged s _ _ (λ id. delete_keys-FailsUnchanged _)

  pub assign_role-FailsUnchanged : (role : String) → FailsUnchanged s (assign_role s name role)
  unfolding assign_role
  assign_role-FailsUnchanged role e p = elim (Option-cases (caller_id_of name s.callers)) [
    | inl missing ↦ ground arith
    | inr (id, there) ↦ ground arith
  ]

  pub unassign_role-FailsUnchanged : (role : String) → FailsUnchanged s (unassign_role s name role)
  unfolding unassign_role
  unassign_role-FailsUnchanged role e p = elim (Option-cases (caller_id_of name s.callers)) [
    | inl missing ↦ ground arith
    | inr (id, there) ↦ ground arith
  ]
