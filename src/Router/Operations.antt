-- ===== src/Router/Operations.antt =====
-- Each operation of the table as a whole, and every sequence of them.
use stile.Prelude.{
  ℕ, String, ◌≡◌, refl, true, Option, none, some, List, [], ◌∷◌, ◌++◌, or_else, ap, sym, ◌∙◌,
}
use stile.Prelude.Dict.{Dict}
use mathlib.Core.Path.{ap₂}
use stile.Router.{
  ToolSchema, Upstream, Route, RouteTable, resolve, list_tools, merged, update, update_all,
  discovered, refresh_target, refresh, refresh_upstream, undiscovered, add_upstream,
  remove_upstream, new,
}
use stile.Router.Lookup.{find_route, resolve-rebuild_entries}
use stile.Router.Changes.{
  IsCurrent, rebuild_entries-IsCurrent, refresh_upstream-IsCurrent, IsConsistent-relisted,
  find_route-append, Unused, change_named-append, find_named-append, find_tool-refreshed,
}

or_else-none : {A : Type 0} (o : Option A) → or_else o none ≡ o
or_else-none none = refl
or_else-none (some a) = refl

-- The operations, in the order in which they took the mutex.
pub data Operation (T : Type 0) : Type 0 where
  refreshed : ℕ → (T → Option (List ToolSchema)) → Operation T
  refreshed_one : ℕ → (T → Option (List ToolSchema)) → String → Operation T
  added : ℕ → (T → Option (List ToolSchema)) → String → T → Operation T
  removed : String → Operation T

module _ {T : Type 0} where
  merged-append_undiscovered :
      (us : List (Upstream T)) (name prefix : String) (t : T)
      → merged (us ++ undiscovered name t prefix ∷ []) ≡ merged us
  unfolding merged
  merged-append_undiscovered [] name prefix t = refl
  merged-append_undiscovered (u ∷ us) name prefix t =
      rw (merged-append_undiscovered us name prefix t)

  longer-IsCurrent :
      (rt : RouteTable T) (name prefix : String) (t : T)
      → IsCurrent rt
      → IsCurrent (record rt { upstreams = rt.upstreams ++ undiscovered name t prefix ∷ [] })
  longer-IsCurrent rt name prefix t c = record {
    consistent =
        IsConsistent-relisted rt _
          (unfold list_tools in merged-append_undiscovered rt.upstreams name prefix t) c.consistent;
    current = λ key.
        unfold resolve in
        c.current key
        ∙ sym (or_else-none (find_route rt.upstreams key))
        ∙ sym (find_route-append rt.upstreams (undiscovered name t prefix ∷ []) key);
  }

  add_upstream-IsCurrent :
      (now : ℕ) (discover : T → Option (List ToolSchema)) (name : String) (t : T)
      (rt : RouteTable T)
      → IsCurrent rt
      → IsCurrent (add_upstream now discover name t rt)
  unfolding add_upstream
  add_upstream-IsCurrent now discover name t rt c =
      refresh_upstream-IsCurrent now discover name _ (longer-IsCurrent rt name name t c)

  unfoldable pub apply : Operation T → RouteTable T → RouteTable T
  apply (refreshed now discover) rt = (refresh now discover rt).0
  apply (refreshed_one now discover name) rt = (refresh_upstream now discover name rt).0
  apply (added now discover name t) rt = add_upstream now discover name t rt
  apply (removed name) rt = (remove_upstream name rt).0

  unfoldable pub apply_all : List (Operation T) → RouteTable T → RouteTable T
  unfolding apply
  apply_all [] rt = rt
  apply_all (o ∷ os) rt = apply_all os (apply o rt)

  apply-IsCurrent : (o : Operation T) (rt : RouteTable T) → IsCurrent rt → IsCurrent (apply o rt)
  unfolding apply
  apply-IsCurrent (refreshed now discover) rt c = unfold refresh in rebuild_entries-IsCurrent _
  apply-IsCurrent (refreshed_one now discover name) rt c =
      refresh_upstream-IsCurrent now discover name rt c
  apply-IsCurrent (added now discover name t) rt c = add_upstream-IsCurrent now discover name t rt c
  apply-IsCurrent (removed name) rt c = unfold remove_upstream in rebuild_entries-IsCurrent _

  apply_all-IsCurrent :
      (os : List (Operation T)) (rt : RouteTable T) → IsCurrent rt → IsCurrent (apply_all os rt)
  unfolding apply_all
  apply_all-IsCurrent [] rt c = c
  apply_all-IsCurrent (o ∷ os) rt c = apply_all-IsCurrent os (apply o rt) (apply-IsCurrent o rt c)

  new-IsCurrent :
      (now : ℕ) (discover : T → Option (List ToolSchema)) (transports : Dict T)
      (cfgs : List (String × Option String))
      → IsCurrent (new now discover transports cfgs)
  unfolding new refresh
  new-IsCurrent now discover transports cfgs = rebuild_entries-IsCurrent _

  -- After New and any sequence of refreshes, additions and removals, whatever discovery answers each
  -- time, the table is consistent with the tools it lists, and Resolve finds for every name the first
  -- match in the order of the current upstreams and their current tools.
  pub history-IsCurrent :
      (now : ℕ) (discover : T → Option (List ToolSchema)) (transports : Dict T)
      (cfgs : List (String × Option String)) (os : List (Operation T))
      → IsCurrent (apply_all os (new now discover transports cfgs))
  history-IsCurrent now discover transports cfgs os =
      apply_all-IsCurrent os _ (new-IsCurrent now discover transports cfgs)

  resolve-discovered_last :
      (now : ℕ) (name : String) (t : T) (rt : RouteTable T) (key : String) (r : Route T)
      (found : Option (List ToolSchema))
      → IsCurrent rt
      → Unused name rt.upstreams
      → resolve rt key ≡ some r
      → resolve
          (discovered now name
            (record rt { upstreams = rt.upstreams ++ undiscovered name t name ∷ [] })
            found).0
          key
        ≡ some r
  unfolding discovered
  resolve-discovered_last now name t rt key r none c h e = unfold resolve in e
  resolve-discovered_last now name t rt key r (some tools) c h e = rw (
    resolve-rebuild_entries,
    change_named-append name (update now (some tools)) rt.upstreams (undiscovered name t name) h
        refl,
    find_route-append,
    ← c.current key,
    e,
  )

  add_upstream-discovered :
      (now : ℕ) (discover : T → Option (List ToolSchema)) (name : String) (t : T)
      (rt : RouteTable T)
      → Unused name rt.upstreams
      → add_upstream now discover name t rt
        ≡ (discovered now name
            (record rt { upstreams = rt.upstreams ++ undiscovered name t name ∷ [] })
            (discover t)).0
  unfolding add_upstream refresh_upstream refresh_target
  add_upstream-discovered now discover name t rt h =
      ap
        (λ (o : Option (Upstream T)).
          (refresh_target now discover name
            (record rt { upstreams = rt.upstreams ++ undiscovered name t name ∷ [] }) o).0)
        (find_named-append name rt.upstreams (undiscovered name t name) h refl)

  -- On a current table, adding an upstream under a name that no upstream has takes no tool away
  -- from another: what resolved before resolves to the same route afterwards, whatever the new
  -- upstream offers.
  pub add_upstream_keeps :
      (now : ℕ) (discover : T → Option (List ToolSchema)) (name : String) (t : T)
      (rt : RouteTable T) (key : String) (r : Route T)
      → IsCurrent rt
      → Unused name rt.upstreams
      → resolve rt key ≡ some r
      → resolve (add_upstream now discover name t rt) key ≡ some r
  add_upstream_keeps now discover name t rt key r c h e =
      rw (add_upstream-discovered now discover name t rt h)
        (resolve-discovered_last now name t rt key r (discover t) c h e)

  find_route-update_failed :
      (now : ℕ) (us : List (Upstream T)) (key : String)
      → find_route (update_all now (λ t. none) us) key ≡ find_route us key
  unfolding update_all update
  find_route-update_failed now [] key = refl
  find_route-update_failed now (u ∷ us) key =
      ap₂ or_else (find_tool-refreshed u u.tools u.prefixed_tools true u.last_refresh u.tools key)
        (find_route-update_failed now us key)

  -- On a current table, a refresh in which every discovery fails changes what no tool name
  -- resolves to.
  pub refresh_failed_keeps :
      (now : ℕ) (rt : RouteTable T) (key : String)
      → IsCurrent rt
      → resolve (refresh now (λ t. none) rt).0 key ≡ resolve rt key
  unfolding refresh
  refresh_failed_keeps now rt key c =
      rw (resolve-rebuild_entries, find_route-update_failed, c.current key)
