-- ===== src/Router/Tests.antt =====
-- Runs of the route table, and the theorems at concrete inputs.
use stile.Prelude.{
  ℕ, String, ◌≡◌, ◌≢◌, refl, Option, none, some, List, [], ◌∷◌, arith, eq_iff, map, if◌then◌else◌,
  ◌==◌, ◌*◌,
}
use stile.Prelude.Dict
use stile.Prelude.Dict.{Dict}
use stile.Router.{
  ToolSchema, Upstream, Route, RouteTable, rebuild_entries, resolve, list_tools, refresh,
  add_upstream, remove_upstream, new, route_of, undiscovered,
}
use stile.Router.Discovery.{
  discover_tools, Method, initialize, initialized, tools_list, Response, failed, rpc_error, result,
}
use stile.Router.Names.{sanitize_prefix}
use stile.Router.Lookup.{find_route, resolve-rebuild_entries}
use stile.Router.Listing.{IsConsistent, rebuild_entries-IsConsistent}
use stile.Router.Changes.{IsCurrent, Unused}
use stile.Router.Operations.{
  removed, added, apply_all, history-IsCurrent, add_upstream_keeps, refresh_failed_keeps,
}
use stile.Router.Removal.{DistinctNames, remove_upstream_exact}

abbrev tool : String → ToolSchema
tool name = record { name = name; description = ""; input_schema = "{}"; annotations = none }

-- transport 1 offers two tools, transport 2 fails, any other offers one
abbrev discover : ℕ → Option (List ToolSchema)
discover t =
    if t == 1
    then some (tool "search" ∷ tool "fetch" ∷ [])
    else if t == 2
    then none
    else some (tool "search" ∷ [])

abbrev transports : Dict ℕ
transports = Dict.put (Dict.put Dict.empty "db" 2) "web-1" 1

-- `web-1` has no prefix of its own, `db` an empty one, `gone` no transport
abbrev cfgs : List (String × Option String)
cfgs = ("web-1", none) ∷ ("gone", none) ∷ ("db", some "") ∷ []

abbrev table : RouteTable ℕ
table = new 5 discover transports cfgs

sanitized : sanitize_prefix "web-1.x" ≡ "web_1_x"
unfolding sanitize_prefix
sanitized = refl

listed : map (λ (t : ToolSchema). t.name) (list_tools table) ≡ "web_1__search" ∷ "web_1__fetch" ∷ []
unfolding new list_tools
listed = refl

-- two upstreams that offer a tool under one prefixed name
abbrev pair : List (Upstream ℕ)
pair =
    record (undiscovered "a" 1 "a") { tools = tool "search" ∷ [] }
    ∷ record (undiscovered "b" 2 "a") { tools = tool "search" ∷ [] }
    ∷ []

resolve-rebuild_entries_example :
    resolve (rebuild_entries pair) "a__search" ≡ find_route pair "a__search"
resolve-rebuild_entries_example = resolve-rebuild_entries pair "a__search"

rebuild_entries-IsConsistent_example : IsConsistent (rebuild_entries pair)
rebuild_entries-IsConsistent_example = rebuild_entries-IsConsistent pair

history-IsCurrent_example :
    IsCurrent
      (apply_all (added 6 discover "extra" 3 ∷ removed "db" ∷ []) (new 5 discover transports cfgs))
history-IsCurrent_example =
    history-IsCurrent 5 discover transports cfgs (added 6 discover "extra" 3 ∷ removed "db" ∷ [])

table-IsCurrent : IsCurrent table
unfolding apply_all
table-IsCurrent = history-IsCurrent 5 discover transports cfgs []

-- the route that `web_1__search` has
abbrev search_route : Route ℕ
search_route = route_of (undiscovered "web-1" 1 "web_1") (tool "search")

search_resolves : resolve table "web_1__search" ≡ some search_route
unfolding new resolve
search_resolves = refl

extra-Unused : Unused "extra" table.upstreams
unfolding new
extra-Unused =
    (λ e. ground (arith, eq_iff "web-1" "extra"), (λ e. ground (arith, eq_iff "db" "extra"), tt))

names_distinct : DistinctNames table.upstreams
unfolding new
names_distinct = ((λ e. ground (arith, eq_iff "db" "web-1"), tt), (tt, tt))

add_upstream_keeps_example :
    resolve (add_upstream 6 discover "extra" 3 table) "web_1__search" ≡ some search_route
add_upstream_keeps_example =
    add_upstream_keeps 6 discover "extra" 3 table "web_1__search" search_route table-IsCurrent
      extra-Unused search_resolves

refresh_failed_keeps_example :
    resolve (refresh 7 (λ t. none) table).0 "web_1__search" ≡ resolve table "web_1__search"
refresh_failed_keeps_example = refresh_failed_keeps 7 table "web_1__search" table-IsCurrent

remove_upstream_exact_example :
    (resolve (remove_upstream "db" table).0 "web_1__search" ≡ some search_route
      → search_route.upstream_name ≢ "db")
    × (resolve table "web_1__search" ≡ some search_route
        → search_route.upstream_name ≢ "db"
        → resolve (remove_upstream "db" table).0 "web_1__search" ≡ some search_route)
remove_upstream_exact_example =
    remove_upstream_exact "db" "web_1__search" search_route table table-IsCurrent names_distinct

-- a server that lists its tools only after the handshake: its state counts the steps of that
abbrev strict : ℕ → ℕ → Method → ℕ × Response
strict s t initialize = (1, result none)
strict s t initialized = (s * 2, failed)
strict s t tools_list =
    (s, if s == 2 then result (some (tool "search" ∷ [])) else rpc_error "not initialized")

-- a server that knows no handshake
abbrev plain : ℕ → ℕ → Method → ℕ × Response
plain s t initialize = (s, rpc_error "method not found")
plain s t initialized = (s, failed)
plain s t tools_list = (s, result (some (tool "search" ∷ [])))

strict_discovered : discover_tools strict 0 1 ≡ (2, some (tool "search" ∷ []))
unfolding discover_tools
strict_discovered = refl

plain_discovered : discover_tools plain 0 1 ≡ (0, some (tool "search" ∷ []))
unfolding discover_tools
plain_discovered = refl
