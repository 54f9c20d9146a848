-- ===== src/Auth/Store/Effects/Keys.antt =====
-- What the operations on API keys keep.
use stile.Prelude.{
  ℕ, ◌<◌, String, ◌≡◌, ◌≢◌, refl, Bool, true, false, not, some, List, [], ◌∷◌, arith, str_eq,
  eq_iff, any, Bool-cases, inl, inr,
}
use stile.Auth.Authenticate.{KeyRecord}
use stile.Auth.Store.{
  KeyRow, SqliteStore, name_of, key_rows, lookup_by_key, roles_for_caller, add_key, insert_key_row,
  has_hash, delete_keys, delete_key, revoke_key,
}
use stile.Auth.Store.Kept.{Kept-same}
use stile.Auth.Store.Effects.{
  IsSound, Keeps, Everyone, But, Keeps-same, id-below, dropped-Keeps, other_id, found-Keeps,
}

module _ (s : SqliteStore) (sound : IsSound s) where
  -- deleting keys of one caller leaves the roles alone
  delete_keys-Keeps :
      (name : String) (p : KeyRow → Bool)
      → ((k : KeyRow) (n : String)
          → name_of k.caller_id s.callers ≡ some n
          → n ≢ name
          → p k ≡ false)
      → Keeps (But name) Everyone s (delete_keys s p).0
  unfolding delete_keys
  delete_keys-Keeps name p others = elim (Bool-cases (any p s.api_keys)) [
    | inl t ↦
        let kept =
          dropped-Keeps s sound name (λ k. not (p k)) (λ r. true) (λ k n e d. rw (others k n e d))
            (λ r n e d. refl) s.callers sound.callers_below
            (Kept-same s.next_caller (But name) s.callers) in
        rw t (record {
          sound = record {
            callers_below = sound.callers_below;
            keys_below = kept.sound.keys_below;
            roles_below = sound.roles_below;
          };
          keys =
              λ hash r e d. unfold lookup_by_key in (unfold lookup_by_key in kept.keys hash r e d);
          roles = λ n d. unfold roles_for_caller in refl;
        })
    | inr f ↦ rw f (Keeps-same s sound (But name) Everyone)
  ]

  pub delete_key-Keeps :
      (name : String) (key_id : ℕ) → Keeps (But name) Everyone s (delete_key s name key_id).0
  unfolding delete_key
  delete_key-Keeps name key_id = found-Keeps s sound (But name) Everyone name _ (λ id e.
      delete_keys-Keeps name _
        (λ k n f d. ground (arith, other_id s sound name n id k.caller_id e f d)))

  pub revoke_key-Keeps :
      (name label : String) → Keeps (But name) Everyone s (revoke_key s name label).0
  unfolding revoke_key
  revoke_key-Keeps name label = found-Keeps s sound (But name) Everyone name _ (λ id e.
      delete_keys-Keeps name _
        (λ k n f d. ground (arith, other_id s sound name n id k.caller_id e f d)))

  absent :
      (hash : String) (r : KeyRecord) (ks : List KeyRow)
      → has_hash hash ks ≡ false
      → key_rows s.callers hash ks ≡ some r
      → ⊥
  unfolding key_rows has_hash
  absent hash r [] n e = cc
  absent hash r (k ∷ ks) n e = ground (arith, absent hash r ks)

  key_rows-new :
      (h hash label : String) (id : ℕ) (r : KeyRecord) (ks : List KeyRow)
      → key_rows s.callers h ks ≡ some r
      → has_hash hash ks ≡ false
      → key_rows s.callers h
          (record { key_id = s.next_key; caller_id = id; key_hash = hash; label = label } ∷ ks)
        ≡ some r
  unfolding key_rows
  key_rows-new h hash label id r ks e n = elim (Bool-cases (str_eq hash h)) [
    | inl same ↦ absurd (absent hash r ks n (rw ((eq_iff hash h).0 same) e))
    | inr differ ↦ rw differ e
  ]

  insert_key_row-Keeps :
      (id : ℕ) (hash label : String)
      → id < s.next_caller
      → Keeps Everyone Everyone s (insert_key_row s id hash label).0
  unfolding insert_key_row has_hash
  insert_key_row-Keeps id hash label l = elim (Bool-cases (has_hash hash s.api_keys)) [
    | inl t ↦ rw t (Keeps-same s sound Everyone Everyone)
    | inr new ↦ rw new (record {
      sound = record {
        callers_below = sound.callers_below;
        keys_below = (l, sound.keys_below);
        roles_below = sound.roles_below;
      };
      keys = λ h r e d.
          unfold lookup_by_key in
          key_rows-new h hash label id r s.api_keys (unfold lookup_by_key in e) new;
      roles = λ n d. unfold roles_for_caller in refl;
    })
  ]

  pub add_key-Keeps :
      (name hash label : String) → Keeps Everyone Everyone s (add_key s name hash label).0
  unfolding add_key
  add_key-Keeps name hash label =
      found-Keeps s sound Everyone Everyone name _
        (λ id e. insert_key_row-Keeps id hash label (id-below s sound name id e))
