-- ===== src/Policy/Redis/Effective.antt =====
-- Which limit applies to a caller with several roles.
use stile.Prelude.{
  ℕ, ◌≤◌, String, ◌≡◌, refl, ◌∙◌, sym, ap, ◌⊎◌, inl, inr, Option, none, some, List, [], ◌∷◌, arith,
  ltb, or_else, In, Option-cases, Bool-cases,
}
use stile.Prelude.Dict
use stile.Prelude.Dict.{Dict}
use stile.Policy.Limits.{RateLimit}
use stile.Policy.Redis.{
  RedisRateLimiter, faster, improve, best_of, effective_caller_limit, effective_tool_limit,
}

-- a limit at least as fast as `rate`
abbrev AtLeast : ℕ → Option RateLimit → Type 0
AtLeast rate o = (b : RateLimit) × (o ≡ some b) × (rate ≤ b.rate)

improve-AtLeast :
    (rate : ℕ) (best next : Option RateLimit)
    → AtLeast rate best ⊎ AtLeast rate next
    → AtLeast rate (improve best next)
unfolding improve faster
improve-AtLeast rate none none h = elim h [ inl a ↦ a | inr a ↦ a ]
improve-AtLeast rate (some b) none h = elim h [ inl a ↦ a | inr (x, p, l) ↦ cc p ]
improve-AtLeast rate none (some r) h = elim h [ inl (x, p, l) ↦ cc p | inr a ↦ a ]
improve-AtLeast rate (some b) (some r) h = elim (Bool-cases (ltb b.rate r.rate)) [
  | inl t ↦ rw t (elim h [ inl (x, p, l) ↦ (r, refl, ground arith) | inr a ↦ a ])
  | inr f ↦ rw f (elim h [ inl a ↦ a | inr (x, p, l) ↦ (b, refl, ground arith) ])
]

best_of-AtLeast :
    (limits : Dict RateLimit) (roles : List String) (rate : ℕ) (best : Option RateLimit)
    → AtLeast rate best
    → AtLeast rate (best_of limits roles best)
unfolding best_of
best_of-AtLeast limits [] rate best h = h
best_of-AtLeast limits (role ∷ roles) rate best h =
    best_of-AtLeast limits roles rate _ (improve-AtLeast rate best (Dict.get limits role) (inl h))

best_of-role :
    (limits : Dict RateLimit) (roles : List String) (role : String) (r : RateLimit)
    (best : Option RateLimit)
    → In role roles
    → Dict.get limits role ≡ some r
    → AtLeast r.rate (best_of limits roles best)
unfolding best_of
best_of-role limits [] role r best m h = elim m [ ]
best_of-role limits (other ∷ roles) role r best (inl e) h = best_of-AtLeast limits roles r.rate _ (
    improve-AtLeast r.rate best (Dict.get limits other)
      (inr (r, ap (Dict.get limits) (sym e) ∙ h, omega arith)))
best_of-role limits (other ∷ roles) role r best (inr m) h = best_of-role limits roles role r _ m h

-- a limit that some role has
abbrev OfRole : Dict RateLimit → List String → RateLimit → Type 0
OfRole limits roles b = (role : String) × In role roles × (Dict.get limits role ≡ some b)

improve-source :
    (best next : Option RateLimit) (b : RateLimit)
    → improve best next ≡ some b
    → (best ≡ some b) ⊎ (next ≡ some b)
unfolding improve faster
improve-source best none b h = inl h
improve-source none (some r) b h = inr h
improve-source (some x) (some r) b h = elim (Bool-cases (ltb x.rate r.rate)) [
  | inl t ↦ inr (rw t at h)
  | inr f ↦ inl (rw f at h)
]

best_of-source :
    (limits : Dict RateLimit) (roles : List String) (best : Option RateLimit) (b : RateLimit)
    → best_of limits roles best ≡ some b
    → (best ≡ some b) ⊎ OfRole limits roles b
unfolding best_of
best_of-source limits [] best b h = inl h
best_of-source limits (role ∷ roles) best b h =
    elim (best_of-source limits roles (improve best (Dict.get limits role)) b h) [
      | inl e ↦ elim (improve-source best (Dict.get limits role) b e) [
        | inl before ↦ inl before
        | inr here ↦ inr (role, inl refl, here)
      ]
      | inr (r, m, p) ↦ inr (r, inr m, p)
    ]

-- Where the limit of a call comes from: a role's limit that is the fastest of them, or the default
-- where no role has one.
pub record Effective (limits : Dict RateLimit) (fallback : Option RateLimit) (roles : List String)
    (o : Option RateLimit) : Type 0 where
  pub source : (b : RateLimit) → o ≡ some b → OfRole limits roles b ⊎ (fallback ≡ some b)
  pub fastest :
      (role : String) (r : RateLimit)
      → In role roles
      → Dict.get limits role ≡ some r
      → (b : RateLimit) × (o ≡ some b) × OfRole limits roles b × (r.rate ≤ b.rate)
  pub default_limit : ((role : String) → In role roles → Dict.get limits role ≡ none) → o ≡ fallback

some-or_else :
    (best fallback : Option RateLimit) (b : RateLimit)
    → best ≡ some b
    → or_else best fallback ≡ some b
some-or_else none fallback b h = cc
some-or_else (some x) fallback b h = h

none_of :
    (limits : Dict RateLimit) (roles : List String)
    → ((role : String) → In role roles → Dict.get limits role ≡ none)
    → best_of limits roles none ≡ none
none_of limits roles h = elim (Option-cases (best_of limits roles none)) [
  | inl e ↦ e
  | inr (b, e) ↦ elim (best_of-source limits roles none b e) [
    | inl p ↦ cc p
    | inr (role, m, p) ↦ cc (h role m, p)
  ]
]

or_else-Effective :
    (limits : Dict RateLimit) (fallback : Option RateLimit) (roles : List String)
    → Effective limits fallback roles (or_else (best_of limits roles none) fallback)
or_else-Effective limits fallback roles = record {
  source = λ b h. elim (Option-cases (best_of limits roles none)) [
    | inl e ↦ inr (rw e at h)
    | inr (x, e) ↦ elim (best_of-source limits roles none b (e ∙ (rw e at h))) [
      | inl p ↦ cc p
      | inr of_role ↦ inl of_role
    ]
  ];
  fastest = λ role r m h.
      let (b, e, l) = best_of-role limits roles role r none m h in
      (
        b,
        some-or_else _ fallback b e,
        elim (best_of-source limits roles none b e) [ inl p ↦ cc p | inr of_role ↦ of_role ],
        l,
      );
  default_limit = λ h. rw (none_of limits roles h);
}

-- For callers and for tools alike: the limit of a call is that of one of its roles, at least as fast
-- as the limit of every other, or it is the default; and it is the default where no role has a limit.
pub limits-Effective :
    (rl : RedisRateLimiter) (roles : List String)
    → Effective rl.role_caller rl.default_caller roles (effective_caller_limit rl roles)
      × Effective rl.role_tool rl.default_tool roles (effective_tool_limit rl roles)
unfolding effective_caller_limit effective_tool_limit
limits-Effective rl roles = (
  or_else-Effective rl.role_caller rl.default_caller roles,
  or_else-Effective rl.role_tool rl.default_tool roles,
)
