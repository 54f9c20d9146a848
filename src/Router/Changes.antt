-- ===== src/Router/Changes.antt =====
-- The operations that change the table: what each keeps, and what it does to the routes.
use stile.Prelude.{
  ℕ, String, ◌≡◌, ◌≢◌, refl, Bool, true, Option, none, some, List, [], ◌∷◌, ◌++◌, arith, eq_iff,
  or_else, All, sym, ◌∙◌,
}
use mathlib.Core.Path.{ap₂}
use stile.Prelude.Dict
use stile.Prelude.Dict.{Dict}
use stile.Router.{
  ToolSchema, Upstream, Route, RouteTable, prefixed, rebuild_upstreams, rebuild_entries, resolve,
  list_tools, merged, update, change_named, discovered, refresh_target, find_named,
  refresh_upstream,
}
use stile.Router.Lookup.{find_tool, find_route, resolve-rebuild_entries}
use stile.Router.Listing.{IsConsistent, rebuild_entries-IsConsistent}

module _ {T : Type 0} where
  -- A table that lists what it resolves, and resolves what its upstreams offer now.
  pub record IsCurrent (rt : RouteTable T) : Type 0 where
    pub consistent : IsConsistent rt
    pub current : (name : String) → resolve rt name ≡ find_route rt.upstreams name

  -- What a route says of its upstream does not depend on the upstream's tools or on its state.
  pub find_tool-refreshed :
      (u : Upstream T) (a b : List ToolSchema) (c : Bool) (d : ℕ) (tools : List ToolSchema)
      (name : String)
      → find_tool
          (record u { tools = a; prefixed_tools = b; stale = c; last_refresh = d })
          tools
          name
        ≡ find_tool u tools name
  unfolding prefixed
  find_tool-refreshed u a b c d [] name = refl
  find_tool-refreshed u a b c d (t ∷ ts) name = rw (find_tool-refreshed u a b c d ts name)

  find_route-rebuild_upstreams :
      (us : List (Upstream T)) (d : Dict (Route T)) (name : String)
      → find_route (rebuild_upstreams us d).0 name ≡ find_route us name
  unfolding rebuild_upstreams
  find_route-rebuild_upstreams [] d name = refl
  find_route-rebuild_upstreams (u ∷ us) d name =
      ap₂ or_else (find_tool-refreshed u u.tools _ u.stale u.last_refresh u.tools name)
        (find_route-rebuild_upstreams us _ name)

  pub rebuild_entries-IsCurrent : (us : List (Upstream T)) → IsCurrent (rebuild_entries us)
  rebuild_entries-IsCurrent us = record {
    consistent = rebuild_entries-IsConsistent us;
    current = λ name.
        resolve-rebuild_entries us name
        ∙ sym (unfold rebuild_entries in find_route-rebuild_upstreams us Dict.empty name);
  }

  merged-change_stale :
      (now : ℕ) (name : String) (us : List (Upstream T))
      → merged (change_named name (update now none) us) ≡ merged us
  unfolding change_named update merged
  merged-change_stale now name [] = refl
  merged-change_stale now name (u ∷ us) = ground (arith, merged-change_stale now name us)

  find_route-change_stale :
      (now : ℕ) (name : String) (us : List (Upstream T)) (key : String)
      → find_route (change_named name (update now none) us) key ≡ find_route us key
  unfolding change_named update
  find_route-change_stale now name [] key = refl
  find_route-change_stale now name (u ∷ us) key = ground (
    arith,
    find_route-change_stale now name us key,
    find_tool-refreshed u u.tools u.prefixed_tools true u.last_refresh u.tools key,
  )

  pub IsConsistent-relisted :
      (rt : RouteTable T) (us : List (Upstream T))
      → list_tools (record rt { upstreams = us }) ≡ list_tools rt
      → IsConsistent rt
      → IsConsistent (record rt { upstreams = us })
  unfolding resolve
  IsConsistent-relisted rt us e c = record {
    listed_resolves = rw e c.listed_resolves;
    resolved_listed = rw e c.resolved_listed;
    distinct = rw e c.distinct;
    counted = rw e c.counted;
  }

  -- A discovery that fails marks the upstream stale and leaves the routes and the list alone.
  stale-IsCurrent :
      (now : ℕ) (name : String) (rt : RouteTable T)
      → IsCurrent rt
      → IsCurrent (record rt { upstreams = change_named name (update now none) rt.upstreams })
  stale-IsCurrent now name rt c = record {
    consistent =
        IsConsistent-relisted rt _ (unfold list_tools in merged-change_stale now name rt.upstreams)
          c.consistent;
    current = λ key.
        unfold resolve in c.current key ∙ sym (find_route-change_stale now name rt.upstreams key);
  }

  discovered-IsCurrent :
      (now : ℕ) (name : String) (rt : RouteTable T) (found : Option (List ToolSchema))
      → IsCurrent rt
      → IsCurrent (discovered now name rt found).0
  unfolding discovered
  discovered-IsCurrent now name rt none c = stale-IsCurrent now name rt c
  discovered-IsCurrent now name rt (some tools) c = rebuild_entries-IsCurrent _

  refresh_target-IsCurrent :
      (now : ℕ) (discover : T → Option (List ToolSchema)) (name : String) (rt : RouteTable T)
      (target : Option (Upstream T))
      → IsCurrent rt
      → IsCurrent (refresh_target now discover name rt target).0
  unfolding refresh_target
  refresh_target-IsCurrent now discover name rt none c = c
  refresh_target-IsCurrent now discover name rt (some u) c = discovered-IsCurrent now name rt _ c

  pub refresh_upstream-IsCurrent :
      (now : ℕ) (discover : T → Option (List ToolSchema)) (name : String) (rt : RouteTable T)
      → IsCurrent rt
      → IsCurrent (refresh_upstream now discover name rt).0
  unfolding refresh_upstream
  refresh_upstream-IsCurrent now discover name rt c =
      refresh_target-IsCurrent now discover name rt _ c

  pub find_route-append :
      (us vs : List (Upstream T)) (key : String)
      → find_route (us ++ vs) key ≡ or_else (find_route us key) (find_route vs key)
  find_route-append [] vs key = refl
  find_route-append (u ∷ us) vs key = ground (arith, find_route-append us vs key)

  -- No upstream has that name.
  abbrev pub Unused : String → List (Upstream T) → Type 0
  Unused name us = All (λ (u : Upstream T). u.name ≢ name) us

  pub change_named-append :
      (name : String) (f : Upstream T → Upstream T) (us : List (Upstream T)) (v : Upstream T)
      → Unused name us
      → v.name ≡ name
      → change_named name f (us ++ v ∷ []) ≡ us ++ f v ∷ []
  unfolding change_named
  change_named-append name f [] v h e = ground (arith, eq_iff v.name name)
  change_named-append name f (u ∷ us) v h e =
      ground (arith, eq_iff u.name name, h.0, change_named-append name f us v h.1 e)

  pub find_named-append :
      (name : String) (us : List (Upstream T)) (v : Upstream T)
      → Unused name us
      → v.name ≡ name
      → find_named name (us ++ v ∷ []) ≡ some v
  unfolding find_named
  find_named-append name [] v h e = ground (arith, eq_iff v.name name)
  find_named-append name (u ∷ us) v h e =
      ground (arith, eq_iff u.name name, h.0, find_named-append name us v h.1 e)
