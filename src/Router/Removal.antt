-- ===== src/Router/Removal.antt =====
-- What RemoveUpstream takes away.
use stile.Prelude.{
  String, ◌≡◌, ◌≢◌, inl, inr, some, List, [], ◌∷◌, arith, str_eq, eq_iff, Bool-cases, Option-cases,
  sym, ◌∙◌,
}
use stile.Router.{ToolSchema, Upstream, Route, RouteTable, resolve, take_named, remove_upstream}
use stile.Router.Lookup.{find_tool, find_route, resolve-rebuild_entries}
use stile.Router.Changes.{IsCurrent, Unused}

module _ {T : Type 0} where
  find_tool_upstream :
      (u : Upstream T) (tools : List ToolSchema) (key : String) (r : Route T)
      → find_tool u tools key ≡ some r
      → r.upstream_name ≡ u.name
  find_tool_upstream u [] key r h = cc
  find_tool_upstream u (tool ∷ tools) key r h = ground (arith, find_tool_upstream u tools key r)

  find_route-Unused :
      (us : List (Upstream T)) (name key : String) (r : Route T)
      → Unused name us
      → find_route us key ≡ some r
      → r.upstream_name ≢ name
  find_route-Unused [] name key r h e = cc
  find_route-Unused (u ∷ us) name key r h e = elim (Option-cases (find_tool u u.tools key)) [
    | inl n ↦ find_route-Unused us name key r h.1 (rw n at e)
    | inr (x, f) ↦ λ q. h.0 (sym (find_tool_upstream u u.tools key r (ground arith)) ∙ q)
  ]

  find_route-take_named :
      (us : List (Upstream T)) (name key : String) (r : Route T)
      → find_route us key ≡ some r
      → r.upstream_name ≢ name
      → find_route (take_named name us).0 key ≡ some r
  unfolding take_named
  find_route-take_named [] name key r e n = cc
  find_route-take_named (u ∷ us) name key r e n = ground (
    arith,
    eq_iff u.name name,
    find_tool_upstream u u.tools key r,
    find_route-take_named us name key r,
  )

  -- No two upstreams have one name.
  abbrev pub DistinctNames : List (Upstream T) → Type 0
  DistinctNames [] = Unit
  DistinctNames (u ∷ us) = Unused u.name us × DistinctNames us

  take_named-Unused :
      (us : List (Upstream T)) (name : String)
      → DistinctNames us
      → Unused name (take_named name us).0
  unfolding take_named
  take_named-Unused [] name d = tt
  take_named-Unused (u ∷ us) name d = elim (Bool-cases (str_eq u.name name)) [
    | inl same ↦ rw same (rw ((eq_iff u.name name).0 same) at d.0)
    | inr other ↦ rw other (λ e. ground (arith, eq_iff u.name name), take_named-Unused us name d.1)
  ]

  -- On a current table, removing an upstream, where names are distinct, takes away its routes and
  -- no other: afterwards no name resolves to it, and what resolved to another upstream resolves as
  -- before.
  pub remove_upstream_exact :
      (name key : String) (r : Route T) (rt : RouteTable T)
      → IsCurrent rt
      → DistinctNames rt.upstreams
      → (resolve (remove_upstream name rt).0 key ≡ some r → r.upstream_name ≢ name)
        × (resolve rt key ≡ some r
            → r.upstream_name ≢ name
            → resolve (remove_upstream name rt).0 key ≡ some r)
  unfolding remove_upstream
  remove_upstream_exact name key r rt c d = (
    λ h.
        find_route-Unused (take_named name rt.upstreams).0 name key r
          (take_named-Unused rt.upstreams name d) (sym (resolve-rebuild_entries _ key) ∙ h),
    λ h n.
        resolve-rebuild_entries _ key
        ∙ find_route-take_named rt.upstreams name key r (sym (c.current key) ∙ h) n,
  )
