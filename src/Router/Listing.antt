-- ===== src/Router/Listing.antt =====
-- The list that ListTools returns against the table that Resolve reads.
use stile.Prelude.{
  String, ◌≡◌, ◌≢◌, refl, ◌⊎◌, inl, inr, none, some, List, [], ◌∷◌, ◌++◌, ◌+◌, arith, str_eq,
  eq_iff, eq_refl, Option-cases, Bool-cases, In-append_left, In-append_right, ap, sym, ◌∙◌, All,
  All-append, All-imp, In, length, length-append,
}
use stile.Prelude.Dict
use stile.Prelude.Dict.{Dict, get-put, size-put_new}
use stile.Router.{
  ToolSchema, Upstream, Route, RouteTable, prefixed, route_of, rebuild_tools, rebuild_upstreams,
  rebuild_entries, resolve, list_tools, merged, entry_count,
}
use stile.Router.Names.{apply_prefix}
use stile.Router.Lookup.{get-rebuild_tools, get-rebuild_upstreams}

-- No two tools of the list have one name.
abbrev pub Distinct : List ToolSchema → Type 0
Distinct [] = Unit
Distinct (t ∷ ts) = All (λ (x : ToolSchema). x.name ≢ t.name) ts × Distinct ts

module _ {T : Type 0} where
  abbrev pub Fresh : Dict (Route T) → ToolSchema → Type 0
  Fresh d t = Dict.get d t.name ≡ none

  abbrev pub Held : Dict (Route T) → ToolSchema → Type 0
  Held d t = (r : Route T) × (Dict.get d t.name ≡ some r) × (r.tool ≡ t)

  -- `later` has all that `d` has.
  abbrev Grows : Dict (Route T) → Dict (Route T) → Type 0
  Grows d later =
      (name : String) (r : Route T) → Dict.get d name ≡ some r → Dict.get later name ≡ some r

  rebuild_tools-Grows :
      (u : Upstream T) (tools : List ToolSchema) (d : Dict (Route T))
      → Grows d (rebuild_tools u tools d).1
  rebuild_tools-Grows u tools d name r h = ground (arith, get-rebuild_tools u tools d name)

  rebuild_upstreams-Grows :
      (us : List (Upstream T)) (d : Dict (Route T)) → Grows d (rebuild_upstreams us d).1
  rebuild_upstreams-Grows us d name r h = ground (arith, get-rebuild_upstreams us d name)

  Held-Grows :
      (d later : Dict (Route T)) (ts : List ToolSchema)
      → Grows d later
      → All (Held d) ts
      → All (Held later) ts
  Held-Grows d later ts g h =
      All-imp (Held d) (Held later) ts (λ t (r, p, q). (r, g t.name r p, q)) h

  -- The tools that one upstream gets: new to the table before, held by the table after, distinct,
  -- and one entry each.
  record Added (d : Dict (Route T)) (ts : List ToolSchema) (later : Dict (Route T)) : Type 0 where
    fresh : All (Fresh d) ts
    held : All (Held later) ts
    distinct : Distinct ts
    size : Dict.size later ≡ Dict.size d + length ts
    complete :
        (name : String) (r : Route T)
        → Dict.get later name ≡ some r
        → (Dict.get d name ≡ some r) ⊎ ((r.tool.name ≡ name) × In r.tool ts)

  Fresh-put :
      (d : Dict (Route T)) (r : Route T) (t : ToolSchema)
      → Dict.get d r.tool.name ≡ none
      → Fresh (Dict.put d r.tool.name r) t
      → Fresh d t × (t.name ≢ r.tool.name)
  Fresh-put d r t n f = (
    ground (arith, get-put d r.tool.name t.name r),
    λ e. ground (arith, get-put d r.tool.name t.name r, eq_iff r.tool.name t.name),
  )

  Fresh-Grows :
      (d later : Dict (Route T)) (t : ToolSchema) → Grows d later → Fresh later t → Fresh d t
  Fresh-Grows d later t g f = elim (Option-cases (Dict.get d t.name)) [
    | inl new ↦ new
    | inr (r, old) ↦ cc (g t.name r old)
  ]

  Held-ne-Fresh : (d : Dict (Route T)) (x y : ToolSchema) → Held d x → Fresh d y → y.name ≢ x.name
  Held-ne-Fresh d x y (r, p, q) f e = cc

  Distinct-append :
      (d : Dict (Route T)) (xs ys : List ToolSchema)
      → All (Held d) xs
      → All (Fresh d) ys
      → Distinct xs
      → Distinct ys
      → Distinct (xs ++ ys)
  Distinct-append d [] ys h f dx dy = dy
  Distinct-append d (x ∷ xs) ys h f dx dy = (
    All-append _ xs ys dx.0 (All-imp (Fresh d) _ ys (λ y. Held-ne-Fresh d x y h.0) f),
    Distinct-append d xs ys h.1 f dx.1 dy,
  )

  complete-cons :
      (d : Dict (Route T)) (r x : Route T) (ts : List ToolSchema) (name : String)
      → (Dict.get (Dict.put d r.tool.name r) name ≡ some x) ⊎ ((x.tool.name ≡ name) × In x.tool ts)
      → (Dict.get d name ≡ some x) ⊎ ((x.tool.name ≡ name) × In x.tool (r.tool ∷ ts))
  complete-cons d r x ts name (inr (e, m)) = inr (e, inr m)
  complete-cons d r x ts name (inl h) = elim (Bool-cases (str_eq r.tool.name name)) [
    | inl same ↦
        let e : r ≡ x = ground (arith, get-put d r.tool.name name r) in
        inr
          (rw (← e) ((eq_iff r.tool.name name).0 same), inl (ap (λ (y : Route T). y.tool) (sym e)))
    | inr other ↦ inl (ground (arith, get-put d r.tool.name name r))
  ]

  complete-append :
      (d mid : Dict (Route T)) (xs ys : List ToolSchema) (name : String) (r : Route T)
      → Added d xs mid
      → (Dict.get mid name ≡ some r) ⊎ ((r.tool.name ≡ name) × In r.tool ys)
      → (Dict.get d name ≡ some r) ⊎ ((r.tool.name ≡ name) × In r.tool (xs ++ ys))
  complete-append d mid xs ys name r a (inr (e, m)) = inr (e, In-append_right r.tool xs ys m)
  complete-append d mid xs ys name r a (inl h) = elim (a.complete name r h) [
    | inl old ↦ inl old
    | inr (e, m) ↦ inr (e, In-append_left r.tool xs ys m)
  ]

  -- A new tool in front of what was added after it.
  Added-cons :
      (d : Dict (Route T)) (r : Route T) (ts : List ToolSchema) (later : Dict (Route T))
      → Dict.get d r.tool.name ≡ none
      → Grows (Dict.put d r.tool.name r) later
      → Added (Dict.put d r.tool.name r) ts later
      → Added d (r.tool ∷ ts) later
  Added-cons d r ts later n g a = record {
    fresh = (n, All-imp _ (Fresh d) ts (λ t f. (Fresh-put d r t n f).0) a.fresh);
    held = ((r, g r.tool.name r (rw (get-put, eq_refl)), refl), a.held);
    distinct = (All-imp _ _ ts (λ t f. (Fresh-put d r t n f).1) a.fresh, a.distinct);
    size = omega (arith, a.size, size-put_new d r.tool.name r n);
    complete = λ name x h. complete-cons d r x ts name (a.complete name x h);
  }

  Added-append :
      (d mid later : Dict (Route T)) (xs ys : List ToolSchema)
      → Grows d mid
      → Grows mid later
      → Added d xs mid
      → Added mid ys later
      → Added d (xs ++ ys) later
  Added-append d mid later xs ys g g' a b = record {
    fresh =
        All-append (Fresh d) xs ys a.fresh
          (All-imp (Fresh mid) (Fresh d) ys (λ t f. Fresh-Grows d mid t g f) b.fresh);
    held = All-append (Held later) xs ys (Held-Grows mid later xs g' a.held) b.held;
    distinct = Distinct-append mid xs ys a.held b.fresh a.distinct b.distinct;
    size = omega (arith, a.size, b.size, length-append xs ys);
    complete = λ name r h. complete-append d mid xs ys name r a (b.complete name r h);
  }

  rebuild_tools-Added :
      (u : Upstream T) (tools : List ToolSchema) (d : Dict (Route T))
      → Added d (rebuild_tools u tools d).0 (rebuild_tools u tools d).1
  unfolding rebuild_tools prefixed
  rebuild_tools-Added u [] d = record {
    fresh = tt;
    held = tt;
    distinct = tt;
    size = omega arith;
    complete = λ name r h. inl h;
  }
  rebuild_tools-Added u (tool ∷ tools) d =
      elim (Option-cases (Dict.get d (apply_prefix u.prefix tool.name))) [
        | inl new ↦ rw new (
            Added-cons d (route_of u tool) _ _ new (rebuild_tools-Grows u tools _)
              (rebuild_tools-Added u tools _))
        | inr (r, old) ↦ rw old (rebuild_tools-Added u tools d)
      ]

  rebuild_upstreams-Added :
      (us : List (Upstream T)) (d : Dict (Route T))
      → Added d (merged (rebuild_upstreams us d).0) (rebuild_upstreams us d).1
  unfolding rebuild_upstreams merged
  rebuild_upstreams-Added [] d = record {
    fresh = tt;
    held = tt;
    distinct = tt;
    size = omega arith;
    complete = λ name r h. inl h;
  }
  rebuild_upstreams-Added (u ∷ us) d =
      let mid = (rebuild_tools u u.tools d).1 in
      Added-append d mid (rebuild_upstreams us mid).1 (rebuild_tools u u.tools d).0
        (merged (rebuild_upstreams us mid).0) (rebuild_tools-Grows u u.tools d)
        (rebuild_upstreams-Grows us mid) (rebuild_tools-Added u u.tools d)
        (rebuild_upstreams-Added us mid)

  -- The list and the table say the same: each listed tool resolves to a route that carries it, each
  -- route's tool is listed under the name that it resolves by, no two listed tools share a name, and
  -- there are as many entries as listed tools.
  pub record IsConsistent (rt : RouteTable T) : Type 0 where
    pub listed_resolves :
        All
          (λ (t : ToolSchema). (r : Route T) × (resolve rt t.name ≡ some r) × (r.tool ≡ t))
          (list_tools rt)
    pub resolved_listed :
        (name : String) (r : Route T)
        → resolve rt name ≡ some r
        → (r.tool.name ≡ name) × In r.tool (list_tools rt)
    pub distinct : Distinct (list_tools rt)
    pub counted : entry_count rt ≡ length (list_tools rt)

  resolved_in :
      (name : String) (r : Route T) (ts : List ToolSchema)
      → (Dict.get Dict.empty name ≡ some r) ⊎ ((r.tool.name ≡ name) × In r.tool ts)
      → (r.tool.name ≡ name) × In r.tool ts
  resolved_in name r ts (inl h) = cc (Dict.get-empty {V = Route T} name)
  resolved_in name r ts (inr h) = h

  -- Every rebuild leaves a consistent table, whatever the upstreams and their tools.
  pub rebuild_entries-IsConsistent : (us : List (Upstream T)) → IsConsistent (rebuild_entries us)
  unfolding rebuild_entries list_tools resolve
  rebuild_entries-IsConsistent us =
      let a = rebuild_upstreams-Added us Dict.empty in
      record {
        listed_resolves = a.held;
        resolved_listed = λ name r h. resolved_in name r _ (a.complete name r h);
        distinct = a.distinct;
        counted = unfold Dict.empty in a.size ∙ omega arith;
      }
