-- ===== src/Auth/Store/Kept.antt =====
-- What a change of the tables leaves as it was: the keys and the roles of every caller but one.
use stile.Prelude.{
  ℕ, ◌<◌, ◌≤◌, String, ◌≡◌, ◌≢◌, refl, Bool, true, not, some, List, [], ◌∷◌, arith, str_eq, eq_iff,
  filter, All, Bool-cases, Option-cases, inl, inr, sym, subst,
}
use stile.Auth.Authenticate.{KeyRecord}
use stile.Auth.Store.{
  CallerRow, KeyRow, RoleRow, caller_id_of, name_of, is_named, belongs, joined, key_rows, role_rows,
}

-- The ids fall from the front, and stay below a bound.
abbrev pub Below : ℕ → List CallerRow → Type 0
Below bound [] = Unit
Below bound (c ∷ cs) = (c.id < bound) × Below c.id cs

pub Below-weaken : (a b : ℕ) (cs : List CallerRow) → a ≤ b → Below a cs → Below b cs
Below-weaken a b [] h p = tt
Below-weaken a b (c ∷ cs) h p = (omega arith, p.1)

pub Below-filter :
    (p : CallerRow → Bool) (b : ℕ) (cs : List CallerRow) → Below b cs → Below b (filter p cs)
Below-filter p b [] h = tt
Below-filter p b (c ∷ cs) h = elim (Bool-cases (p c)) [
  | inl t ↦ rw t (h.0, Below-filter p c.id cs h.1)
  | inr f ↦ rw f (Below-weaken c.id b (filter p cs) (omega arith) (Below-filter p c.id cs h.1))
]

pub name_of-Below :
    (id b : ℕ) (n : String) (cs : List CallerRow) → Below b cs → name_of id cs ≡ some n → id < b
unfolding name_of
name_of-Below id b n [] h e = cc
name_of-Below id b n (c ∷ cs) h e = ground (arith, name_of-Below id c.id n cs)

pub name_of-caller_id_of :
    (b : ℕ) (n : String) (id : ℕ) (cs : List CallerRow)
    → Below b cs
    → caller_id_of n cs ≡ some id
    → name_of id cs ≡ some n
unfolding name_of caller_id_of
name_of-caller_id_of b n id [] h e = cc
name_of-caller_id_of b n id (c ∷ cs) h e =
    ground (arith, eq_iff c.name n, name_of-caller_id_of c.id n id cs, name_of-Below id c.id n cs)

-- The callers of `cs` whose names are spared are in `cs'` under their ids, and the rows below the
-- bound refer to no others.
pub record Kept (bound : ℕ) (Spared : String → Type 0) (cs cs' : List CallerRow) : Type 0 where
  pub forth : (id : ℕ) (n : String) → name_of id cs ≡ some n → Spared n → name_of id cs' ≡ some n
  pub back : (id : ℕ) (n : String) → id < bound → name_of id cs' ≡ some n → name_of id cs ≡ some n

pub Kept-same :
    (bound : ℕ) (Spared : String → Type 0) (cs : List CallerRow) → Kept bound Spared cs cs
Kept-same bound Spared cs = record { forth = λ id n e d. e; back = λ id n l e. e }

pub Kept-with_caller :
    (bound : ℕ) (new : String) (cs : List CallerRow)
    → Below bound cs
    → Kept bound (λ n. Unit) cs (record { id = bound; name = new } ∷ cs)
unfolding name_of
Kept-with_caller bound new cs b = record {
  forth = λ id n e d. ground (arith, name_of-Below id bound n cs);
  back = λ id n l e. ground arith;
}

name_of-others :
    (id : ℕ) (n name : String) (cs : List CallerRow)
    → name_of id cs ≡ some n
    → n ≢ name
    → name_of id (filter (λ c. not (str_eq c.name name)) cs) ≡ some n
unfolding name_of
name_of-others id n name [] e d = cc
name_of-others id n name (c ∷ cs) e d =
    ground (arith, eq_iff c.name name, name_of-others id n name cs)

name_of-others_back :
    (id b : ℕ) (n name : String) (cs : List CallerRow)
    → Below b cs
    → name_of id (filter (λ c. not (str_eq c.name name)) cs) ≡ some n
    → name_of id cs ≡ some n
unfolding name_of
name_of-others_back id b n name [] l e = cc
name_of-others_back id b n name (c ∷ cs) l e =
    ground (arith, name_of-others_back id c.id n name cs, name_of-Below id c.id n cs)

pub Kept-delete :
    (bound : ℕ) (name : String) (cs : List CallerRow)
    → Below bound cs
    → Kept bound (λ n. n ≢ name) cs (filter (λ c. not (str_eq c.name name)) cs)
Kept-delete bound name cs b = record {
  forth = λ id n e d. name_of-others id n name cs e d;
  back = λ id n l e. name_of-others_back id bound n name cs b e;
}

-- The rows that are dropped belong to no spared caller.
abbrev pub Drops : {A : Type 0} → (A → ℕ) → (String → Type 0) → List CallerRow → (A → Bool) → Type 0
Drops {A = A} owner Spared cs p =
    (a : A) (n : String) → name_of (owner a) cs ≡ some n → Spared n → p a ≡ true

pub key_rows-Kept :
    (bound : ℕ) (Spared : String → Type 0) (hash : String) (cs cs' : List CallerRow)
    (p : KeyRow → Bool) (ks : List KeyRow) (r : KeyRecord)
    → Kept bound Spared cs cs'
    → Drops (λ k. k.caller_id) Spared cs p
    → All (λ k. k.caller_id < bound) ks
    → key_rows cs hash ks ≡ some r
    → Spared r.caller_name
    → key_rows cs' hash (filter p ks) ≡ some r
unfolding key_rows joined
key_rows-Kept bound Spared hash cs cs' p [] r kept drops b e d = cc
key_rows-Kept bound Spared hash cs cs' p (k ∷ ks) r kept drops b e d =
    elim (Bool-cases (str_eq k.key_hash hash)) [
      | inl hit ↦ elim (Option-cases (name_of k.caller_id cs)) [
        | inl dangling ↦ elim (Option-cases (name_of k.caller_id cs')) [
          | inl gone ↦ ground (arith, key_rows-Kept bound Spared hash cs cs' p ks r kept drops b.1)
          | inr (n, there) ↦ cc (kept.back k.caller_id n b.0 there)
        ]
        | inr (n, there) ↦
            let named : r ≡ record { caller_name = n; key_label = k.label } = ground (arith) in
            let spared = subst (λ (q : KeyRecord). Spared q.caller_name) named d in
            ground (arith, kept.forth k.caller_id n there spared, drops k n there spared)
      ]
      | inr miss ↦ ground (arith, key_rows-Kept bound Spared hash cs cs' p ks r kept drops b.1)
    ]

pub role_rows-Kept :
    (bound : ℕ) (Spared : String → Type 0) (other : String) (cs cs' : List CallerRow)
    (p : RoleRow → Bool) (rs : List RoleRow)
    → Kept bound Spared cs cs'
    → Drops (λ r. r.caller_id) Spared cs p
    → All (λ r. r.caller_id < bound) rs
    → Spared other
    → role_rows cs' other (filter p rs) ≡ role_rows cs other rs
unfolding role_rows belongs is_named
role_rows-Kept bound Spared other cs cs' p [] kept drops b d = refl
role_rows-Kept bound Spared other cs cs' p (r ∷ rs) kept drops b d =
    let rest = role_rows-Kept bound Spared other cs cs' p rs kept drops b.1 d in
    elim (Option-cases (name_of r.caller_id cs)) [
      | inl dangling ↦ elim (Option-cases (name_of r.caller_id cs')) [
        | inl gone ↦ ground (arith, rest)
        | inr (n, there) ↦ cc (kept.back r.caller_id n b.0 there)
      ]
      | inr (n, there) ↦ elim (Option-cases (name_of r.caller_id cs')) [
        | inl gone ↦ ground (
          arith,
          rest,
          eq_iff n other,
          λ (e : n ≡ other). kept.forth r.caller_id n there (subst Spared (sym e) d),
        )
        | inr (m, there') ↦ ground (
          arith,
          rest,
          eq_iff n other,
          eq_iff m other,
          kept.back r.caller_id m b.0 there',
          λ (e : n ≡ other). drops r n there (subst Spared (sym e) d),
        )
      ]
    ]
