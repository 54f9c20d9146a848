-- ===== src/Proxy/Listing.antt =====
-- `filteredToolsWithPending` of internal/proxy/proxy.go: the tools that tools/list shows a caller, and
-- the providers that the caller has yet to connect. The connection checker is an interface of the
-- program; Go ranges over the pending providers in no fixed order, and here they are a map.
use stile.Prelude.{
  String, ◌≡◌, ◌↔◌, refl, Bool, true, not, ◌&&◌, ◌||◌, Option, none, some, List, [], ◌∷◌, arith,
  str_eq, if◌then◌else◌, is_some, filter, In, In-filter, filter-In, All-In, ap, sym, ◌∙◌,
}
use stile.Prelude.Dict
use stile.Prelude.Dict.{Dict, get-put}
use stile.Auth.Roles.{Caller, can_access_tool}
use stile.Router.{Annotation, text, other_value, ToolSchema, Route, RouteTable, list_tools, resolve}
use stile.Router.Listing.{IsConsistent}

-- IsConnected, whose provider is empty where there is none, and ConnectURL
pub record ConnectionChecker : Type 0 where
  pub is_connected : String → String → Bool × String
  pub connect_url : String → String → String

as_text : Option Annotation → String
as_text none = ""
as_text (some other_value) = ""
as_text (some (text s)) = s

annotation : Option (Dict Annotation) → String
unfolding as_text
annotation none = ""
annotation (some d) = as_text (Dict.get d "x-stile-upstream")

-- toolUpstream
unfoldable pub tool_upstream : ToolSchema → String
unfolding annotation
tool_upstream t = annotation t.annotations

connected : ConnectionChecker → String → ToolSchema → Bool
unfolding tool_upstream
connected ch name t = str_eq (tool_upstream t) "" || (ch.is_connected name (tool_upstream t)).0

-- The first time that a provider is missing, its URL is noted.
note_pending : ConnectionChecker → String → ToolSchema → Dict String → Dict String
unfolding tool_upstream
note_pending ch name t pending =
    let provider = (ch.is_connected name (tool_upstream t)).1 in
    if not (str_eq provider "") && not (is_some (Dict.get pending provider))
    then Dict.put pending provider (ch.connect_url name provider)
    else pending

unfoldable pub pending_of : ConnectionChecker → String → List ToolSchema → Dict String → Dict String
unfolding connected note_pending
pending_of ch name [] pending = pending
pending_of ch name (t ∷ ts) pending =
    pending_of ch name ts (if connected ch name t then pending else note_pending ch name t pending)

module _ {G : Type 0} (matches : G → String → Bool) where
  by_connection :
      Option ConnectionChecker → Caller G → List ToolSchema → List ToolSchema × Dict String
  unfolding connected pending_of Dict.empty
  by_connection none c tools = (tools, Dict.empty)
  by_connection (some ch) c tools =
      (filter (connected ch c.name) tools, pending_of ch c.name tools Dict.empty)

  unfoldable pub filtered_tools :
      Option ConnectionChecker → Option (Caller G) → List ToolSchema → List ToolSchema × Dict String
  unfolding by_connection
  filtered_tools ch none tools = (tools, Dict.empty)
  filtered_tools ch (some c) tools =
      by_connection ch c (filter (λ (t : ToolSchema). can_access_tool matches c t.name) tools)

  -- what a caller may see, by its patterns and its connections
  visible : Option ConnectionChecker → Caller G → ToolSchema → Bool
  visible none c t = can_access_tool matches c t.name
  visible (some ch) c t = can_access_tool matches c t.name && connected ch c.name t

  -- no checker, or one that finds the caller connected to the tool's upstream
  pub is_reachable : Option ConnectionChecker → Caller G → ToolSchema → Bool
  unfolding connected
  is_reachable none c t = true
  is_reachable (some ch) c t = connected ch c.name t

  seen_both :
      (ch : Option ConnectionChecker) (c : Caller G) (t : ToolSchema)
      → visible ch c t ≡ true
      → (can_access_tool matches c t.name ≡ true) × (is_reachable ch c t ≡ true)
  unfolding visible is_reachable
  seen_both none c t h = (h, refl)
  seen_both (some ch) c t h = (ground arith, ground arith)

  both_seen :
      (ch : Option ConnectionChecker) (c : Caller G) (t : ToolSchema)
      → can_access_tool matches c t.name ≡ true
      → is_reachable ch c t ≡ true
      → visible ch c t ≡ true
  unfolding visible is_reachable
  both_seen none c t a k = a
  both_seen (some ch) c t a k = ground arith

  filtered-In :
      (ch : Option ConnectionChecker) (c : Caller G) (tools : List ToolSchema) (t : ToolSchema)
      → In t (filtered_tools ch (some c) tools).0 ↔ (In t tools × (visible ch c t ≡ true))
  unfolding filtered_tools by_connection visible
  filtered-In none c tools t = (
    λ m. In-filter (λ (t : ToolSchema). can_access_tool matches c t.name) t tools m,
    λ (m, v). filter-In (λ (t : ToolSchema). can_access_tool matches c t.name) t tools m v,
  )
  filtered-In (some ch) c tools t = (
    λ m.
        let (n, v) = In-filter (connected ch c.name) t _ m in
        let (k, u) = In-filter (λ (t : ToolSchema). can_access_tool matches c t.name) t tools n in
        (k, ground arith),
    λ (m, v).
        filter-In (connected ch c.name) t _
          (filter-In (λ (t : ToolSchema). can_access_tool matches c t.name) t tools m
            (ground arith))
          (ground arith),
  )

  -- Over a consistent table, tools/list and tools/call agree: every tool that a caller sees resolves to
  -- its own route, and the tool of a route is seen exactly if the caller may call it by the name of
  -- that route and is connected to its upstream where a checker asks for it.
  pub listed_exact :
      {T : Type 0} (ch : Option ConnectionChecker) (c : Caller G) (rt : RouteTable T)
      → IsConsistent rt
      → ((t : ToolSchema)
          → In t (filtered_tools ch (some c) (list_tools rt)).0
          → (r : Route T) × (resolve rt t.name ≡ some r) × (r.tool ≡ t))
        × ((name : String) (r : Route T)
            → resolve rt name ≡ some r
            → In r.tool (filtered_tools ch (some c) (list_tools rt)).0
              ↔ ((can_access_tool matches c name ≡ true) × (is_reachable ch c r.tool ≡ true)))
  listed_exact ch c rt h = (
    λ t m.
        All-In _ t (list_tools rt) h.listed_resolves ((filtered-In ch c (list_tools rt) t).0 m).0,
    λ name r e.
        let (same, m) = h.resolved_listed name r e in
        (
          λ n.
              let seen = seen_both ch c r.tool ((filtered-In ch c (list_tools rt) r.tool).0 n).1 in
              (ap (can_access_tool matches c) (sym same) ∙ seen.0, seen.1),
          λ (a, k).
              (filtered-In ch c (list_tools rt) r.tool).1
                (m, both_seen ch c r.tool (ap (can_access_tool matches c) same ∙ a) k),
        ),
  )
