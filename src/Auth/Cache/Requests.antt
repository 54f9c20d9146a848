-- ===== src/Auth/Cache/Requests.antt =====
-- The operations of the cached store as requests, and the same requests to the inner store alone.
use stile.Prelude.{ℕ, String, Bool, Option, none, List}
use stile.Auth.Authenticate.{KeyRecord}
use stile.Auth.Store
use stile.Auth.Store.{SqliteStore, StoreError, Answered}
use stile.Auth.Cache
use stile.Auth.Cache.{
  Entry, CachedStore, Written, Notice, fresh, evict_keys, evict_roles, flush_local, after_write,
}

-- The operations of the interface Store, and the evictions that notices and administrators ask for.
pub data Request : Type 0 where
  look_up list_roles create delete ask_exists count_keys evict_keys_of evict_roles_of :
      String → Request
  create_key : String → String → String → Request
  delete_key_id : String → ℕ → Request
  revoke assign unassign : String → String → Request
  ensure : String → List String → Request
  flush_caches : Request

pub data Reply : Type 0 where
  key : Option KeyRecord → Reply
  roles : List String → Reply
  written : Option StoreError → Reply
  exists : Bool → Reply
  count : ℕ → Reply
  nothing : Reply

unfoldable pub ask : CachedStore × Option KeyRecord → CachedStore × Reply
ask (c, o) = (c, key o)

unfoldable pub ask_roles : CachedStore × List String → CachedStore × Reply
ask_roles (c, rs) = (c, roles rs)

unfoldable pub write : Written → CachedStore × Reply
write w = (w.store, written w.failure)

unfoldable pub serve : ℕ → Request → CachedStore → CachedStore × Reply
unfolding ask ask_roles write Cache.lookup_by_key Cache.roles_for_caller Cache.add_caller
    Cache.delete_caller Cache.add_key Cache.delete_key Cache.revoke_key Cache.assign_role
    Cache.unassign_role Cache.ensure_caller Cache.flush
serve now (look_up hash) c = ask (Cache.lookup_by_key now c hash)
serve now (list_roles name) c = ask_roles (Cache.roles_for_caller now c name)
serve now (create name) c = write (Cache.add_caller c name)
serve now (delete name) c = write (Cache.delete_caller c name)
serve now (ask_exists name) c = (c, exists (Store.caller_exists c.inner name))
serve now (count_keys name) c = (c, count (Store.key_count c.inner name))
serve now (evict_keys_of name) c = (evict_keys name c, nothing)
serve now (evict_roles_of name) c = (evict_roles name c, nothing)
serve now (create_key name hash label) c = write (Cache.add_key c name hash label)
serve now (delete_key_id name id) c = write (Cache.delete_key c name id)
serve now (revoke name label) c = write (Cache.revoke_key c name label)
serve now (assign name role) c = write (Cache.assign_role c name role)
serve now (unassign name role) c = write (Cache.unassign_role c name role)
serve now (ensure name rs) c = write (Cache.ensure_caller c name rs)
serve now flush_caches c = ((Cache.flush c).store, nothing)

unfoldable pub write_inner : Answered → SqliteStore × Reply
write_inner (s, e) = (s, written e)

-- the same request to the inner store alone, where evictions do nothing
unfoldable pub serve_inner : Request → SqliteStore → SqliteStore × Reply
unfolding write_inner
serve_inner (look_up hash) s = (s, key (Store.lookup_by_key s hash))
serve_inner (list_roles name) s = (s, roles (Store.roles_for_caller s name))
serve_inner (create name) s = write_inner (Store.add_caller s name)
serve_inner (delete name) s = write_inner (Store.delete_caller s name)
serve_inner (ask_exists name) s = (s, exists (Store.caller_exists s name))
serve_inner (count_keys name) s = (s, count (Store.key_count s name))
serve_inner (evict_keys_of name) s = (s, nothing)
serve_inner (evict_roles_of name) s = (s, nothing)
serve_inner (create_key name hash label) s = write_inner (Store.add_key s name hash label)
serve_inner (delete_key_id name id) s = write_inner (Store.delete_key s name id)
serve_inner (revoke name label) s = write_inner (Store.revoke_key s name label)
serve_inner (assign name role) s = write_inner (Store.assign_role s name role)
serve_inner (unassign name role) s = write_inner (Store.unassign_role s name role)
serve_inner (ensure name rs) s = (Store.ensure_caller s name rs, written none)
serve_inner flush_caches s = (s, nothing)
