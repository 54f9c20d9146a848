-- ===== src/Auth/Cache.antt =====
-- `CachedStore` of internal/auth/cached_store.go: the store with a cache of its two hot lookups. An
-- operation runs from start to end before the next one: what a lookup reads of the inner store may
-- otherwise be out of date when it is cached. `now` is the clock, and a notice is a call of `notify`.
-- The counters of atomic.Int64 are ℕ.
pub mod Coherent
pub mod Lookups
pub mod Requests
pub mod Transparent
mod Tests
use stile.Prelude.{
  ℕ, ◌+◌, ltb, String, Bool, true, false, Option, none, some, List, [], ◌∷◌, if◌then◌else◌, is_some,
  ◌⊎◌, inl, inr, ◌==◌,
}
use stile.Prelude.Dict
use stile.Prelude.Dict.{Dict, no_bindings, binding}
use stile.Auth.Authenticate.{KeyRecord}
use stile.Auth.Store
use stile.Auth.Store.{SqliteStore, StoreError, Answered}

-- struct{}, the value of a map that stands for a set
pub data Member : Type 0 where
  member : Member

-- cachedEntry
pub record Entry (A : Type 0) : Type 0 where
  pub value : A
  pub expires_at : ℕ

pub record CachedStore : Type 0 where
  pub inner : SqliteStore
  pub ttl : ℕ
  pub by_key_hash : Dict (Entry KeyRecord)
  pub reverse_index : Dict (Dict Member)
  pub roles_by_name : Dict (Entry (List String))
  pub key_hits : ℕ
  pub key_misses : ℕ
  pub role_hits : ℕ
  pub role_misses : ℕ
  pub evictions : ℕ

pub data Notice : Type 0 where
  keys_of roles_of : String → Notice
  flush_all : Notice

abbrev pub fresh : SqliteStore → ℕ → CachedStore
fresh inner ttl = record {
  inner = inner;
  ttl = ttl;
  by_key_hash = Dict.empty;
  reverse_index = Dict.empty;
  roles_by_name = Dict.empty;
  key_hits = 0;
  key_misses = 0;
  role_hits = 0;
  role_misses = 0;
  evictions = 0;
}

-- NewCachedStore, which gives the inner store back where the ttl is 0
unfoldable pub new_cached_store : SqliteStore → ℕ → SqliteStore ⊎ CachedStore
unfolding Dict.empty
new_cached_store inner ttl = if ttl == 0 then inl inner else inr (fresh inner ttl)

unfoldable pub expired : {A : Type 0} → Entry A → ℕ → Bool
expired e now = ltb e.expires_at now

-- an entry that is there and has not expired
live : {A : Type 0} → ℕ → Option (Entry A) → Option A
unfolding expired
live now none = none
live now (some e) = if expired e now then none else some e.value

set_of : Option (Dict Member) → Dict Member
set_of none = Dict.empty
set_of (some hashes) = hashes

index_key : Dict (Dict Member) → String → String → Dict (Dict Member)
unfolding set_of
index_key index name hash =
    Dict.put index name (Dict.put (set_of (Dict.get index name)) hash member)

keep_key : ℕ → String → CachedStore → Option KeyRecord → CachedStore
unfolding index_key
keep_key now hash c none = c
keep_key now hash c (some r) = record c {
  by_key_hash = Dict.put c.by_key_hash hash (record { value = r; expires_at = now + c.ttl });
  reverse_index = index_key c.reverse_index r.caller_name hash;
}

answer_key : ℕ → String → CachedStore → Option KeyRecord → CachedStore × Option KeyRecord
unfolding keep_key Store.lookup_by_key
answer_key now hash c (some r) = (record c { key_hits = c.key_hits + 1 }, some r)
answer_key now hash c none =
    let found = Store.lookup_by_key c.inner hash in
    (keep_key now hash (record c { key_misses = c.key_misses + 1 }) found, found)

-- LookupByKey
unfoldable pub lookup_by_key : ℕ → CachedStore → String → CachedStore × Option KeyRecord
unfolding answer_key live Dict.get
lookup_by_key now c hash = answer_key now hash c (live now (Dict.get c.by_key_hash hash))

answer_roles : ℕ → String → CachedStore → Option (List String) → CachedStore × List String
unfolding Store.roles_for_caller
answer_roles now name c (some roles) = (record c { role_hits = c.role_hits + 1 }, roles)
answer_roles now name c none =
    let roles = Store.roles_for_caller c.inner name in
    (
      record c {
        role_misses = c.role_misses + 1;
        roles_by_name =
            Dict.put c.roles_by_name name (record { value = roles; expires_at = now + c.ttl });
      },
      roles,
    )

-- RolesForCaller
unfoldable pub roles_for_caller : ℕ → CachedStore → String → CachedStore × List String
unfolding answer_roles live Dict.get
roles_for_caller now c name = answer_roles now name c (live now (Dict.get c.roles_by_name name))

unfoldable pub delete_all : Dict Member → Dict (Entry KeyRecord) → Dict (Entry KeyRecord)
delete_all no_bindings m = m
delete_all (binding hash u older) m = delete_all older (Dict.remove m hash)

-- evictKeysForCaller, also exported as EvictKeys
unfoldable pub evict_keys : String → CachedStore → CachedStore
unfolding delete_all set_of
evict_keys name c =
    let hashes = set_of (Dict.get c.reverse_index name) in
    record c {
      by_key_hash = delete_all hashes c.by_key_hash;
      reverse_index = Dict.remove c.reverse_index name;
      evictions = c.evictions + Dict.size hashes;
    }

-- evictRoles, also exported as EvictRoles
unfoldable pub evict_roles : String → CachedStore → CachedStore
evict_roles name c = record c {
  roles_by_name = Dict.remove c.roles_by_name name;
  evictions = c.evictions + (if is_some (Dict.get c.roles_by_name name) then 1 else 0);
}

-- flushLocal
unfoldable pub flush_local : CachedStore → CachedStore
flush_local c = record c {
  by_key_hash = Dict.empty;
  reverse_index = Dict.empty;
  roles_by_name = Dict.empty;
  evictions = c.evictions + (Dict.size c.by_key_hash + Dict.size c.roles_by_name);
}

-- What an operation leaves: the store, the error, and the notices sent.
pub record Written : Type 0 where
  pub store : CachedStore
  pub failure : Option StoreError
  pub notices : List Notice

-- A write is delegated first, and evicts where it succeeds.
after_write : Answered → (CachedStore → CachedStore) → List Notice → CachedStore → Written
after_write (s, none) evict notices c = record {
  store = evict (record c { inner = s });
  failure = none;
  notices = notices;
}
after_write (s, some e) evict notices c = record {
  store = record c { inner = s };
  failure = some e;
  notices = [];
}

unfoldable pub add_caller : CachedStore → String → Written
unfolding after_write
add_caller c name = after_write (Store.add_caller c.inner name) (λ c'. c') [] c

unfoldable pub delete_caller : CachedStore → String → Written
unfolding after_write evict_keys evict_roles
delete_caller c name =
    after_write (Store.delete_caller c.inner name) (λ c'. evict_roles name (evict_keys name c'))
      (keys_of name ∷ roles_of name ∷ []) c

unfoldable pub add_key : CachedStore → String → String → String → Written
unfolding after_write
add_key c name hash label = after_write (Store.add_key c.inner name hash label) (λ c'. c') [] c

unfoldable pub delete_key : CachedStore → String → ℕ → Written
unfolding after_write evict_keys
delete_key c name key_id =
    after_write (Store.delete_key c.inner name key_id) (evict_keys name) (keys_of name ∷ []) c

unfoldable pub revoke_key : CachedStore → String → String → Written
unfolding after_write evict_keys
revoke_key c name label =
    after_write (Store.revoke_key c.inner name label) (evict_keys name) (keys_of name ∷ []) c

unfoldable pub assign_role : CachedStore → String → String → Written
unfolding after_write evict_roles
assign_role c name role =
    after_write (Store.assign_role c.inner name role) (evict_roles name) (roles_of name ∷ []) c

unfoldable pub unassign_role : CachedStore → String → String → Written
unfolding after_write evict_roles
unassign_role c name role =
    after_write (Store.unassign_role c.inner name role) (evict_roles name) (roles_of name ∷ []) c

unfoldable pub ensure_caller : CachedStore → String → List String → Written
unfolding after_write evict_roles
ensure_caller c name roles =
    after_write (Store.ensure_caller c.inner name roles, none) (evict_roles name)
      (roles_of name ∷ []) c

unfoldable pub flush : CachedStore → Written
unfolding flush_local
flush c = record { store = flush_local c; failure = none; notices = flush_all ∷ [] }
