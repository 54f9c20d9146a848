-- ===== src/Auth/Cache/Transparent.antt =====
-- The cache as a whole: its operations in any order, against the inner store alone.
use stile.Prelude.{ℕ, String, ◌≡◌, refl, sym, ◌∙◌, ap, subst, Option, none, some, List, [], ◌∷◌}
use stile.Prelude.Dict.{get-empty}
use stile.Auth.Authenticate.{KeyRecord}
use stile.Auth.Store.{SqliteStore, StoreError, Answered}
use stile.Auth.Store.Effects.{IsSound, Keeps, Everyone, But, add_caller-Keeps, delete_caller-Keeps}
use stile.Auth.Store.Effects.Keys.{add_key-Keeps, delete_key-Keeps, revoke_key-Keeps}
use stile.Auth.Store.Effects.Roles.{assign_role-Keeps, unassign_role-Keeps, ensure_caller-Keeps}
use stile.Auth.Cache
use stile.Auth.Cache.{
  Entry, CachedStore, Written, Notice, fresh, evict_keys, evict_roles, flush_local, after_write,
}
use stile.Auth.Cache.Coherent.{
  IsCoherent, IsCoherent-kept, Spares, Spares-all, AllIndexed, evict_roles-Spares,
  evict_keys-Spares,
}
use stile.Auth.Cache.Lookups.{Answers, lookup_by_key-Answers, roles_for_caller-Answers}
use stile.Auth.Cache.Requests.{
  Request, look_up, list_roles, create, delete, ask_exists, count_keys, evict_keys_of,
  evict_roles_of, create_key, delete_key_id, revoke, assign, unassign, ensure, flush_caches, Reply,
  key, roles, ask, ask_roles, write, write_inner, serve, serve_inner,
}
use stile.Auth.Store.Failures.{
  add_caller-FailsUnchanged, delete_caller-FailsUnchanged, add_key-FailsUnchanged,
  delete_key-FailsUnchanged, revoke_key-FailsUnchanged, assign_role-FailsUnchanged,
  unassign_role-FailsUnchanged,
}

-- The reply is that of the inner store, which takes the same step, and the cache stays coherent.
record Agrees (done : CachedStore × Reply) (expected : SqliteStore × Reply) : Type 0 where
  same_reply : done.1 ≡ expected.1
  same_inner : done.0.inner ≡ expected.0
  coherent : IsCoherent done.0

indexed : (c : CachedStore) → IsCoherent c → AllIndexed c
indexed c h hash e p = (h.keys hash e p).1

-- an eviction that spares all it should, whatever the inner store
abbrev Evicts : (String → Type 0) → (String → Type 0) → (CachedStore → CachedStore) → Type 0
Evicts K R evict = (c : CachedStore) → AllIndexed c → Spares K R c (evict c)

write-Agrees :
    (K R : String → Type 0) (c : CachedStore) (w : Answered) (evict : CachedStore → CachedStore)
    (notices : List Notice)
    → IsCoherent c
    → Keeps K R c.inner w.0
    → ((e : StoreError) → w.1 ≡ some e → w.0 ≡ c.inner)
    → Evicts K R evict
    → Agrees (write (after_write w evict notices c)) (write_inner w)
unfolding write write_inner after_write
write-Agrees K R c (s, none) evict notices h keeps failed evicts =
    let spares = evicts (record c { inner = s }) (indexed c h) in
    record {
      same_reply = refl;
      same_inner = spares.same_inner;
      coherent = IsCoherent-kept K R c (evict (record c { inner = s })) s h keeps spares;
    }
write-Agrees K R c (s, some e) evict notices h keeps failed evicts = record {
  same_reply = refl;
  same_inner = refl;
  coherent = subst (λ s'. IsCoherent (record c { inner = s' })) (sym (failed e refl)) h;
}

nothing-Evicts : Evicts Everyone Everyone (λ c. c)
nothing-Evicts c i = Spares-all c i

evict_keys-Evicts : (name : String) → Evicts (But name) Everyone (evict_keys name)
evict_keys-Evicts name c i = evict_keys-Spares name c i

evict_roles-Evicts : (name : String) → Evicts Everyone (But name) (evict_roles name)
evict_roles-Evicts name c i = evict_roles-Spares name c i

evict_both-Evicts :
    (name : String) → Evicts (But name) (But name) (λ c. evict_roles name (evict_keys name c))
evict_both-Evicts name c i =
    let first = evict_keys-Spares name c i in
    let second =
      evict_roles-Spares name (evict_keys name c) (λ hash e p. (first.kept_keys hash e p).2) in
    record {
      same_inner = second.same_inner ∙ first.same_inner;
      kept_keys = λ hash e p.
          let (q, u, j) = second.kept_keys hash e p in
          let (q', k, j') = first.kept_keys hash e q in (q', k, j);
      kept_roles = λ n e p. let (q, d) = second.kept_roles n e p in ((first.kept_roles n e q).0, d);
    }

flush-IsCoherent : (c : CachedStore) → IsCoherent c → IsCoherent (flush_local c)
unfolding flush_local
flush-IsCoherent c h = record {
  sound = h.sound;
  keys = λ hash e p. cc (p, get-empty {V = Entry KeyRecord} hash);
  roles = λ name e p. cc (p, get-empty {V = Entry (List String)} name);
}

evicted-IsCoherent :
    (K R : String → Type 0) (evict : CachedStore → CachedStore) (c : CachedStore)
    → Evicts K R evict
    → IsCoherent c
    → ((evict c).inner ≡ c.inner) × IsCoherent (evict c)
evicted-IsCoherent K R evict c evicts h =
    let spares = evicts c (indexed c h) in
    (
      spares.same_inner,
      IsCoherent-kept K R c (evict c) c.inner h
          (record { sound = h.sound; keys = λ hash r e d. e; roles = λ n d. refl }) spares,
    )

asked :
    (c : CachedStore) (done : CachedStore × Option KeyRecord) (o : Option KeyRecord)
    → Answers c done o
    → Agrees (ask done) (c.inner, key o)
unfolding ask
asked c (c', o') o h = record {
  same_reply = ap key h.same;
  same_inner = h.same_inner;
  coherent = h.coherent;
}

asked_roles :
    (c : CachedStore) (done : CachedStore × List String) (rs : List String)
    → Answers c done rs
    → Agrees (ask_roles done) (c.inner, roles rs)
unfolding ask_roles
asked_roles c (c', rs') rs h = record {
  same_reply = ap roles h.same;
  same_inner = h.same_inner;
  coherent = h.coherent;
}

serve-Agrees :
    (now : ℕ) (q : Request) (c : CachedStore)
    → IsCoherent c
    → Agrees (serve now q c) (serve_inner q c.inner)
unfolding serve serve_inner Cache.add_caller Cache.delete_caller Cache.add_key Cache.delete_key
    Cache.revoke_key Cache.assign_role Cache.unassign_role Cache.ensure_caller Cache.flush
serve-Agrees now (look_up hash) c h = asked c _ _ (lookup_by_key-Answers now c hash h)
serve-Agrees now (list_roles name) c h = asked_roles c _ _ (roles_for_caller-Answers now c name h)
serve-Agrees now (create name) c h =
    write-Agrees Everyone Everyone c _ _ _ h (add_caller-Keeps c.inner h.sound name)
      (add_caller-FailsUnchanged c.inner name) nothing-Evicts
serve-Agrees now (delete name) c h =
    write-Agrees (But name) (But name) c _ _ _ h (delete_caller-Keeps c.inner h.sound name)
      (delete_caller-FailsUnchanged c.inner name) (evict_both-Evicts name)
serve-Agrees now (ask_exists name) c h = record {
  same_reply = refl;
  same_inner = refl;
  coherent = h;
}
serve-Agrees now (count_keys name) c h = record {
  same_reply = refl;
  same_inner = refl;
  coherent = h;
}
serve-Agrees now (evict_keys_of name) c h =
    let (i, k) = evicted-IsCoherent _ _ (evict_keys name) c (evict_keys-Evicts name) h in
    record { same_reply = refl; same_inner = i; coherent = k }
serve-Agrees now (evict_roles_of name) c h =
    let (i, k) = evicted-IsCoherent _ _ (evict_roles name) c (evict_roles-Evicts name) h in
    record { same_reply = refl; same_inner = i; coherent = k }
serve-Agrees now (create_key name hash label) c h =
    write-Agrees Everyone Everyone c _ _ _ h (add_key-Keeps c.inner h.sound name hash label)
      (add_key-FailsUnchanged c.inner name hash label) nothing-Evicts
serve-Agrees now (delete_key_id name id) c h =
    write-Agrees (But name) Everyone c _ _ _ h (delete_key-Keeps c.inner h.sound name id)
      (delete_key-FailsUnchanged c.inner name id) (evict_keys-Evicts name)
serve-Agrees now (revoke name label) c h =
    write-Agrees (But name) Everyone c _ _ _ h (revoke_key-Keeps c.inner h.sound name label)
      (revoke_key-FailsUnchanged c.inner name label) (evict_keys-Evicts name)
serve-Agrees now (assign name role) c h =
    write-Agrees Everyone (But name) c _ _ _ h (assign_role-Keeps c.inner h.sound name role)
      (assign_role-FailsUnchanged c.inner name role) (evict_roles-Evicts name)
serve-Agrees now (unassign name role) c h =
    write-Agrees Everyone (But name) c _ _ _ h (unassign_role-Keeps c.inner h.sound name role)
      (unassign_role-FailsUnchanged c.inner name role) (evict_roles-Evicts name)
serve-Agrees now (ensure name rs) c h =
    write-Agrees Everyone (But name) c _ _ [] h (ensure_caller-Keeps c.inner h.sound name rs)
      (λ e p. cc) (evict_roles-Evicts name)
serve-Agrees now flush_caches c h = record {
  same_reply = refl;
  same_inner = unfold flush_local in refl;
  coherent = flush-IsCoherent c h;
}

-- requests with the times at which they are served, first to last
unfoldable pub serve_all : List (ℕ × Request) → CachedStore → List Reply
serve_all [] c = []
serve_all ((now, q) ∷ qs) c = (serve now q c).1 ∷ serve_all qs (serve now q c).0

unfoldable pub serve_all_inner : List (ℕ × Request) → SqliteStore → List Reply
serve_all_inner [] s = []
serve_all_inner ((now, q) ∷ qs) s = (serve_inner q s).1 ∷ serve_all_inner qs (serve_inner q s).0

serve_all-coherent :
    (qs : List (ℕ × Request)) (c : CachedStore)
    → IsCoherent c
    → serve_all qs c ≡ serve_all_inner qs c.inner
unfolding serve_all serve_all_inner
serve_all-coherent [] c h = refl
serve_all-coherent ((now, q) ∷ qs) c h =
    let agrees = serve-Agrees now q c h in
    cc (
      agrees.same_reply,
      serve_all-coherent qs (serve now q c).0 agrees.coherent,
      agrees.same_inner,
    )

-- The cache is transparent: over tables whose ids are in order, every sequence of lookups, writes,
-- evictions and flushes, served one after the other at any times, gets from the store with an empty
-- cache and any ttl the replies that the inner store alone gives.
pub cache_transparent :
    (s : SqliteStore) (ttl : ℕ) (qs : List (ℕ × Request))
    → IsSound s
    → serve_all qs (fresh s ttl) ≡ serve_all_inner qs s
cache_transparent s ttl qs sound = serve_all-coherent qs (fresh s ttl) (record {
  sound = sound;
  keys = λ hash e p. cc (p, get-empty {V = Entry KeyRecord} hash);
  roles = λ name e p. cc (p, get-empty {V = Entry (List String)} name);
})
