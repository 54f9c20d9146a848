-- ===== src/Router/Lookup.antt =====
-- What Resolve finds: the first upstream in order, and its first tool, whose name under the
-- upstream's prefix is the name asked for.
use stile.Prelude.{
  String, ◌≡◌, ap, Option, none, some, List, [], ◌∷◌, arith, str_eq, eq_iff, if◌then◌else◌, or_else,
}
use stile.Prelude.Dict
use stile.Prelude.Dict.{Dict, dict_laws, get-put}
use stile.Router.{
  ToolSchema, Upstream, Route, route_of, rebuild_tools, rebuild_upstreams, rebuild_entries, resolve,
}
use stile.Router.Names.{apply_prefix}

module _ {T : Type 0} where
  abbrev pub find_tool : Upstream T → List ToolSchema → String → Option (Route T)
  find_tool u [] name = none
  find_tool u (tool ∷ tools) name =
      if str_eq (apply_prefix u.prefix tool.name) name
      then some (route_of u tool)
      else find_tool u tools name

  abbrev pub find_route : List (Upstream T) → String → Option (Route T)
  find_route [] name = none
  find_route (u ∷ us) name = or_else (find_tool u u.tools name) (find_route us name)

  pub get-rebuild_tools :
      (u : Upstream T) (tools : List ToolSchema) (entries : Dict (Route T)) (name : String)
      → Dict.get (rebuild_tools u tools entries).1 name
        ≡ or_else (Dict.get entries name) (find_tool u tools name)
  unfolding rebuild_tools
  get-rebuild_tools u [] entries name = ground arith
  get-rebuild_tools u (tool ∷ tools) entries name =
      let key = apply_prefix u.prefix tool.name in
      ground (
        arith,
        eq_iff key name,
        get-rebuild_tools u tools entries name,
        get-rebuild_tools u tools (Dict.put entries key (route_of u tool)) name,
        get-put entries key name (route_of u tool),
        ap (Dict.get entries) {x = key} {y = name},
      )

  pub get-rebuild_upstreams :
      (us : List (Upstream T)) (entries : Dict (Route T)) (name : String)
      → Dict.get (rebuild_upstreams us entries).1 name
        ≡ or_else (Dict.get entries name) (find_route us name)
  unfolding rebuild_upstreams
  get-rebuild_upstreams [] entries name = ground arith
  get-rebuild_upstreams (u ∷ us) entries name = ground (
    arith,
    get-rebuild_tools u u.tools entries name,
    get-rebuild_upstreams us (rebuild_tools u u.tools entries).1 name,
  )

  -- After a rebuild, Resolve finds for every name exactly the first match in the order of the
  -- upstreams and of their tools, and nothing where there is no match.
  pub resolve-rebuild_entries :
      (us : List (Upstream T)) (name : String)
      → resolve (rebuild_entries us) name ≡ find_route us name
  unfolding resolve rebuild_entries
  resolve-rebuild_entries us name =
      ground (arith, get-rebuild_upstreams us Dict.empty name, Dict.get-empty {V = Route T} name)
