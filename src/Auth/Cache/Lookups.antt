-- ===== src/Auth/Cache/Lookups.antt =====
-- The two cached lookups: their answers, and what they leave in the cache.
use stile.Prelude.{
  ℕ, ◌+◌, String, ◌≡◌, refl, sym, ◌∙◌, ap, subst, Option, none, some, List, arith, str_eq, eq_iff,
  eq_refl, if◌then◌else◌, Bool-cases, inl, inr,
}
use stile.Prelude.Dict
use stile.Prelude.Dict.{Dict, get-put, get-remove, get-empty}
use stile.Auth.Authenticate.{KeyRecord}
use stile.Auth.Store
use stile.Auth.Cache.{
  Member, member, Entry, CachedStore, set_of, index_key, live, keep_key, answer_key, lookup_by_key,
  answer_roles, roles_for_caller,
}
use stile.Auth.Cache.Coherent.{Indexed, IsCoherent}

-- An operation's answer, and the cache it leaves, coherent over the same inner store.
pub record Answers {A : Type 0} (c : CachedStore) (done : CachedStore × A) (a : A) : Type 0 where
  pub same : done.1 ≡ a
  pub same_inner : done.0.inner ≡ c.inner
  pub coherent : IsCoherent done.0

still :
    (hash h : String) (hashes : Dict Member) (o : Option (Dict Member))
    → o ≡ some hashes
    → Dict.get hashes h ≡ some member
    → (if str_eq hash h then some member else Dict.get (set_of o) h) ≡ some member
unfolding set_of
still hash h hashes none p q = cc
still hash h hashes (some hs) p q = ground arith

index_key-Indexed :
    (index : Dict (Dict Member)) (name hash h : String) (e : Entry KeyRecord)
    → Indexed index h e
    → Indexed (index_key index name hash) h e
unfolding index_key
index_key-Indexed index name hash h e i = elim (Bool-cases (str_eq name e.value.caller_name)) [
  | inl same ↦ record {
    hashes = Dict.put (set_of (Dict.get index name)) hash member;
    listed = ground (
      arith,
      get-put index name e.value.caller_name (Dict.put (set_of (Dict.get index name)) hash member),
    );
    present =
        get-put (set_of (Dict.get index name)) hash h member
        ∙ still hash h i.hashes (Dict.get index name)
            (ap (Dict.get index) ((eq_iff name e.value.caller_name).0 same) ∙ i.listed) i.present;
  }
  | inr differ ↦ record {
    hashes = i.hashes;
    listed = ground (
      arith,
      i.listed,
      get-put index name e.value.caller_name (Dict.put (set_of (Dict.get index name)) hash member),
    );
    present = i.present;
  }
]

new-Indexed :
    (index : Dict (Dict Member)) (hash : String) (e : Entry KeyRecord)
    → Indexed (index_key index e.value.caller_name hash) hash e
unfolding index_key
new-Indexed index hash e =
    let name = e.value.caller_name in
    let hashes : Dict Member = Dict.put (set_of (Dict.get index name)) hash member in
    record {
      hashes = hashes;
      listed = ground (arith, get-put index name name hashes, eq_refl name);
      present =
          ground (arith, get-put (set_of (Dict.get index name)) hash hash member, eq_refl hash);
    }

-- only the counters change
counted-IsCoherent :
    (c : CachedStore) (kh km rh rm : ℕ)
    → IsCoherent c
    → IsCoherent (record c { key_hits = kh; key_misses = km; role_hits = rh; role_misses = rm })
counted-IsCoherent c kh km rh rm h = record { sound = h.sound; keys = h.keys; roles = h.roles }

keep_key-IsCoherent :
    (now : ℕ) (hash : String) (c : CachedStore) (o : Option KeyRecord)
    → IsCoherent c
    → Store.lookup_by_key c.inner hash ≡ o
    → (keep_key now hash c o).inner ≡ c.inner × IsCoherent (keep_key now hash c o)
unfolding keep_key
keep_key-IsCoherent now hash c none h p = (refl, h)
keep_key-IsCoherent now hash c (some r) h p =
    (refl, record { sound = h.sound; keys = kept; roles = h.roles })
  where
    entry : Entry KeyRecord
    entry = record { value = r; expires_at = now + c.ttl }

    kept :
        (j : String) (e : Entry KeyRecord)
        → Dict.get (Dict.put c.by_key_hash hash entry) j ≡ some e
        → (Store.lookup_by_key c.inner j ≡ some e.value)
          × Indexed (index_key c.reverse_index r.caller_name hash) j e
    kept j e q = elim (Bool-cases (str_eq hash j)) [
      | inl same ↦
          let at_j : hash ≡ j = (eq_iff hash j).0 same in
          let stored : entry ≡ e = ground (arith, get-put c.by_key_hash hash j entry) in
          (
            ap (Store.lookup_by_key c.inner) (sym at_j)
                ∙ p
                ∙ ap (λ (x : Entry KeyRecord). some x.value) stored,
            subst (λ x. Indexed (index_key c.reverse_index r.caller_name hash) j x) stored
                (subst (λ x. Indexed (index_key c.reverse_index r.caller_name hash) x entry) at_j
                  (new-Indexed c.reverse_index hash entry)),
          )
      | inr differ ↦
          let before : Dict.get c.by_key_hash j ≡ some e =
            ground (arith, get-put c.by_key_hash hash j entry) in
          (
            (h.keys j e before).0,
            index_key-Indexed c.reverse_index r.caller_name hash j e (h.keys j e before).1,
          )
    ]

answer_key-Answers :
    (now : ℕ) (hash : String) (c : CachedStore) (o : Option KeyRecord)
    → IsCoherent c
    → ((r : KeyRecord) → o ≡ some r → Store.lookup_by_key c.inner hash ≡ some r)
    → Answers c (answer_key now hash c o) (Store.lookup_by_key c.inner hash)
unfolding answer_key
answer_key-Answers now hash c (some r) h p = record {
  same = sym (p r refl);
  same_inner = refl;
  coherent = counted-IsCoherent c _ _ _ _ h;
}
answer_key-Answers now hash c none h p =
    let (i, k) =
      keep_key-IsCoherent now hash (record c { key_misses = c.key_misses + 1 })
        (Store.lookup_by_key c.inner hash) (counted-IsCoherent c _ _ _ _ h) refl in
    record { same = refl; same_inner = i; coherent = k }

live-some :
    {A : Type 0} (now : ℕ) (o : Option (Entry A)) (a : A)
    → live now o ≡ some a
    → (e : Entry A) × (o ≡ some e) × (e.value ≡ a)
unfolding live
live-some now none a h = cc
live-some now (some e) a h = (e, refl, ground arith)

pub lookup_by_key-Answers :
    (now : ℕ) (c : CachedStore) (hash : String)
    → IsCoherent c
    → Answers c (lookup_by_key now c hash) (Store.lookup_by_key c.inner hash)
unfolding lookup_by_key
lookup_by_key-Answers now c hash h =
    answer_key-Answers now hash c (live now (Dict.get c.by_key_hash hash)) h (λ r q.
      let (e, there, v) = live-some now (Dict.get c.by_key_hash hash) r q in
      (h.keys hash e there).0 ∙ ap some v)

answer_roles-Answers :
    (now : ℕ) (name : String) (c : CachedStore) (o : Option (List String))
    → IsCoherent c
    → ((rs : List String) → o ≡ some rs → Store.roles_for_caller c.inner name ≡ rs)
    → Answers c (answer_roles now name c o) (Store.roles_for_caller c.inner name)
unfolding answer_roles
answer_roles-Answers now name c (some roles) h p = record {
  same = sym (p roles refl);
  same_inner = refl;
  coherent = counted-IsCoherent c _ _ _ _ h;
}
answer_roles-Answers now name c none h p = record {
  same = refl;
  same_inner = refl;
  coherent = record { sound = h.sound; keys = h.keys; roles = kept };
}
  where
    entry : Entry (List String)
    entry = record { value = Store.roles_for_caller c.inner name; expires_at = now + c.ttl }

    kept :
        (n : String) (e : Entry (List String))
        → Dict.get (Dict.put c.roles_by_name name entry) n ≡ some e
        → Store.roles_for_caller c.inner n ≡ e.value
    kept n e q = elim (Bool-cases (str_eq name n)) [
      | inl same ↦
          let stored : entry ≡ e = ground (arith, get-put c.roles_by_name name n entry) in
          ap (Store.roles_for_caller c.inner) (sym ((eq_iff name n).0 same))
          ∙ ap (λ (x : Entry (List String)). x.value) stored
      | inr differ ↦ h.roles n e (ground (arith, get-put c.roles_by_name name n entry))
    ]

pub roles_for_caller-Answers :
    (now : ℕ) (c : CachedStore) (name : String)
    → IsCoherent c
    → Answers c (roles_for_caller now c name) (Store.roles_for_caller c.inner name)
unfolding roles_for_caller
roles_for_caller-Answers now c name h =
    answer_roles-Answers now name c (live now (Dict.get c.roles_by_name name)) h (λ rs q.
      let (e, there, v) = live-some now (Dict.get c.roles_by_name name) rs q in
      h.roles name e there ∙ v)
