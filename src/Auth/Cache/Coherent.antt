-- ===== src/Auth/Cache/Coherent.antt =====
-- A coherent cache: what it holds is what the inner store would answer, and every cached key is in
-- the reverse index under its caller.
use stile.Prelude.{
  String, ◌≡◌, ◌≢◌, refl, sym, ◌∙◌, ap, subst, none, some, List, arith, eq_iff, eq_refl,
  if◌then◌else◌, is_some,
}
use stile.Prelude.Dict
use stile.Prelude.Dict.{Dict, no_bindings, binding, dict_laws, get-put, get-remove, get-empty}
use stile.Auth.Authenticate.{KeyRecord}
use stile.Auth.Store
use stile.Auth.Store.{SqliteStore, StoreError, Answered}
use stile.Auth.Store.Effects.{IsSound, Keeps, Everyone, But}
use stile.Auth.Cache.{
  Member, member, Entry, CachedStore, set_of, delete_all, evict_keys, evict_roles,
}

-- `hash` is in the index under the caller of its entry.
pub record Indexed (index : Dict (Dict Member)) (hash : String) (e : Entry KeyRecord) : Type 0 where
  pub hashes : Dict Member
  pub listed : Dict.get index e.value.caller_name ≡ some hashes
  pub present : Dict.get hashes hash ≡ some member

pub record IsCoherent (c : CachedStore) : Type 0 where
  pub sound : IsSound c.inner
  pub keys :
      (hash : String) (e : Entry KeyRecord)
      → Dict.get c.by_key_hash hash ≡ some e
      → (Store.lookup_by_key c.inner hash ≡ some e.value) × Indexed c.reverse_index hash e
  pub roles :
      (name : String) (e : Entry (List String))
      → Dict.get c.roles_by_name name ≡ some e
      → Store.roles_for_caller c.inner name ≡ e.value

get-delete_all :
    (hashes : Dict Member) (m : Dict (Entry KeyRecord)) (hash : String)
    → Dict.get (delete_all hashes m) hash
      ≡ (if is_some (Dict.get hashes hash) then none else Dict.get m hash)
unfolding delete_all Dict.get
get-delete_all no_bindings m hash = refl
get-delete_all (binding h u older) m hash =
    ground (arith, get-delete_all older (Dict.remove m h) hash, get-remove m h hash)

-- Of the caches, what is kept: entries of spared callers, as they were and still indexed.
pub record Spares (K R : String → Type 0) (c c' : CachedStore) : Type 0 where
  pub same_inner : c'.inner ≡ c.inner
  pub kept_keys :
      (hash : String) (e : Entry KeyRecord)
      → Dict.get c'.by_key_hash hash ≡ some e
      → (Dict.get c.by_key_hash hash ≡ some e)
        × K e.value.caller_name
        × Indexed c'.reverse_index hash e
  pub kept_roles :
      (name : String) (e : Entry (List String))
      → Dict.get c'.roles_by_name name ≡ some e
      → (Dict.get c.roles_by_name name ≡ some e) × R name

-- The inner store changes for callers that are not spared, and the caches keep the spared.
pub IsCoherent-kept :
    (K R : String → Type 0) (c c' : CachedStore) (s : SqliteStore)
    → IsCoherent c
    → Keeps K R c.inner s
    → Spares K R (record c { inner = s }) c'
    → IsCoherent c'
IsCoherent-kept K R c c' s h keeps spares = record {
  sound = subst IsSound (sym spares.same_inner) keeps.sound;
  keys = λ hash e p.
      let (q, spared, i) = spares.kept_keys hash e p in
      (
        ap (λ s'. Store.lookup_by_key s' hash) spares.same_inner
            ∙ keeps.keys hash e.value (h.keys hash e q).0 spared,
        i,
      );
  roles = λ name e p.
      let (q, spared) = spares.kept_roles name e p in
      ap (λ s'. Store.roles_for_caller s' name) spares.same_inner
      ∙ keeps.roles name spared
      ∙ h.roles name e q;
}

-- every cached key is indexed, whatever the inner store
abbrev pub AllIndexed : CachedStore → Type 0
AllIndexed c =
    (hash : String) (e : Entry KeyRecord)
    → Dict.get c.by_key_hash hash ≡ some e
    → Indexed c.reverse_index hash e

pub Spares-all : (c : CachedStore) → AllIndexed c → Spares Everyone Everyone c c
Spares-all c i = record {
  same_inner = refl;
  kept_keys = λ hash e p. (p, tt, i hash e p);
  kept_roles = λ name e p. (p, tt);
}

pub evict_roles-Spares :
    (name : String) (c : CachedStore)
    → AllIndexed c
    → Spares Everyone (But name) c (evict_roles name c)
unfolding evict_roles
evict_roles-Spares name c i = record {
  same_inner = refl;
  kept_keys = λ hash e p. (p, tt, i hash e p);
  kept_roles =
      λ n e p. ground (arith, get-remove c.roles_by_name name n, eq_iff name n, eq_refl name);
}

unlisted :
    (name hash : String) (e : Entry KeyRecord) (c : CachedStore) (hashes : Dict Member)
    → Dict.get c.reverse_index name ≡ some hashes
    → Dict.get hashes hash ≡ some member
    → Dict.get (delete_all (set_of (Dict.get c.reverse_index name)) c.by_key_hash) hash ≡ some e
    → ⊥
unfolding set_of
unlisted name hash e c hashes l q p = ground (
  arith,
  get-delete_all hashes c.by_key_hash hash,
  subst (λ o. Dict.get (delete_all (set_of o) c.by_key_hash) hash ≡ some e) l p,
)

spared_key :
    (name : String) (c : CachedStore)
    → AllIndexed c
    → (hash : String) (e : Entry KeyRecord) → Dict.get (evict_keys name c).by_key_hash hash ≡ some e
    → (Dict.get c.by_key_hash hash ≡ some e)
      × (e.value.caller_name ≢ name)
      × Indexed (evict_keys name c).reverse_index hash e
unfolding evict_keys
spared_key name c i hash e p =
    let hashes = set_of (Dict.get c.reverse_index name) in
    let out = get-delete_all hashes c.by_key_hash hash in
    let there : Dict.get c.by_key_hash hash ≡ some e = ground (arith, out) in
    let j = i hash e there in
    let other : e.value.caller_name ≢ name = λ same.
      unlisted name hash e c j.hashes (sym (ap (Dict.get c.reverse_index) same) ∙ j.listed)
        j.present p in
    (
      there,
      other,
      record {
        hashes = j.hashes;
        listed = ground (
          arith,
          get-remove c.reverse_index name e.value.caller_name,
          j.listed,
          eq_iff name e.value.caller_name,
          other,
        );
        present = j.present;
      },
    )

pub evict_keys-Spares :
    (name : String) (c : CachedStore)
    → AllIndexed c
    → Spares (But name) Everyone c (evict_keys name c)
evict_keys-Spares name c i = record {
  same_inner = unfold evict_keys in refl;
  kept_keys = spared_key name c i;
  kept_roles = λ n e p. (unfold evict_keys in p, tt);
}
