-- ===== src/Router.antt =====
-- internal/router/router.go: the table that maps tool names to upstreams, and its discovery. The
-- mutex is held across each write, so a method is one step. A `*Upstream` that a route holds is read
-- for its name and its transport only, which no method changes: the route keeps those two. Log
-- lines and the refresh metric are left out.
pub mod Names
pub mod Lookup
pub mod Listing
pub mod Changes
pub mod Operations
pub mod Removal
pub mod Discovery
mod Tests
use stile.Prelude.{
  ℕ, ◌+◌, String, Bool, true, false, Option, none, some, List, [], ◌∷◌, ◌++◌, map, str_eq,
  if◌then◌else◌, length, is_some,
}
use stile.Prelude.Dict
use stile.Prelude.Dict.{Dict}
use stile.Router.Names.{apply_prefix, resolve_prefix}

-- a value of the map `Annotations`: a text, or any other JSON value
pub data Annotation : Type 0 where
  text : String → Annotation
  other_value : Annotation

-- transport.ToolSchema, with `InputSchema` as its raw text
pub record ToolSchema : Type 0 where
  pub name : String
  pub description : String
  pub input_schema : String
  pub annotations : Option (Dict Annotation)

-- `T` is the type of transports.
pub record Upstream (T : Type 0) : Type 0 where
  pub name : String
  pub transport : T
  pub tools : List ToolSchema
  pub prefixed_tools : List ToolSchema
  pub prefix : String
  pub stale : Bool
  pub last_refresh : ℕ

pub record Route (T : Type 0) : Type 0 where
  pub tool : ToolSchema
  pub upstream_name : String
  pub upstream_transport : T
  pub original_name : String

pub record RouteTable (T : Type 0) : Type 0 where
  pub entries : Dict (Route T)
  pub upstreams : List (Upstream T)

pub record UpstreamStatus : Type 0 where
  pub tools : ℕ
  pub stale : Bool

pub record RefreshResult : Type 0 where
  pub upstreams : Dict UpstreamStatus
  pub total_tools : ℕ

module _ {T : Type 0} where
  annotate : Upstream T → ToolSchema → Dict Annotation
  annotate u tool =
      let attributed = Dict.put Dict.empty "x-stile-upstream" (text u.name) in
      if str_eq u.prefix ""
      then attributed
      else Dict.put attributed "x-stile-original-name" (text tool.name)

  unfoldable pub prefixed : Upstream T → ToolSchema → ToolSchema
  unfolding annotate apply_prefix
  prefixed u tool = record {
    name = apply_prefix u.prefix tool.name;
    description = tool.description;
    input_schema = tool.input_schema;
    annotations = some (annotate u tool);
  }

  abbrev pub route_of : Upstream T → ToolSchema → Route T
  route_of u tool = record {
    tool = prefixed u tool;
    upstream_name = u.name;
    upstream_transport = u.transport;
    original_name = tool.name;
  }

  -- The inner loop of `rebuildEntriesLocked`: the prefixed tools that `u` gets, and the entries.
  unfoldable pub rebuild_tools :
      Upstream T → List ToolSchema → Dict (Route T) → List ToolSchema × Dict (Route T)
  rebuild_tools u [] entries = ([], entries)
  rebuild_tools u (tool ∷ tools) entries =
      let skipped = rebuild_tools u tools entries in
      let added =
        rebuild_tools u tools
          (Dict.put entries (apply_prefix u.prefix tool.name) (route_of u tool)) in
      if is_some (Dict.get entries (apply_prefix u.prefix tool.name))
      then skipped
      else (prefixed u tool ∷ added.0, added.1)

  unfoldable pub rebuild_upstreams :
      List (Upstream T) → Dict (Route T) → List (Upstream T) × Dict (Route T)
  unfolding rebuild_tools
  rebuild_upstreams [] entries = ([], entries)
  rebuild_upstreams (u ∷ us) entries =
      let (tools, entries') = rebuild_tools u u.tools entries in
      let (us', entries'') = rebuild_upstreams us entries' in
      (record u { prefixed_tools = tools } ∷ us', entries'')

  -- rebuildEntriesLocked
  unfoldable pub rebuild_entries : List (Upstream T) → RouteTable T
  unfolding rebuild_upstreams
  rebuild_entries us =
      let (us', entries) = rebuild_upstreams us Dict.empty in
      record { entries = entries; upstreams = us' }

  -- Resolve; `none` is its error
  unfoldable pub resolve : RouteTable T → String → Option (Route T)
  resolve rt tool_name = Dict.get rt.entries tool_name

  merged : List (Upstream T) → List ToolSchema
  merged [] = []
  merged (u ∷ us) = u.prefixed_tools ++ merged us

  unfoldable pub list_tools : RouteTable T → List ToolSchema
  unfolding merged
  list_tools rt = merged rt.upstreams

  -- What discovery told of one upstream: its tools, or none where `discoverTools` failed.
  unfoldable pub update : ℕ → Option (List ToolSchema) → Upstream T → Upstream T
  update now none u = record u { stale = true }
  update now (some tools) u = record u { tools = tools; stale = false; last_refresh = now }

  update_all : ℕ → (T → Option (List ToolSchema)) → List (Upstream T) → List (Upstream T)
  unfolding update
  update_all now discover [] = []
  update_all now discover (u ∷ us) =
      update now (discover u.transport) u ∷ update_all now discover us

  statuses : List (Upstream T) → Dict UpstreamStatus → Dict UpstreamStatus
  statuses [] d = d
  statuses (u ∷ us) d =
      statuses us (Dict.put d u.name (record { tools = length u.tools; stale = u.stale }))

  -- `len` of the map of entries
  abbrev pub entry_count : RouteTable T → ℕ
  entry_count rt = Dict.size rt.entries

  -- Refresh, where no upstream is added or removed between its discovery and its update.
  unfoldable pub refresh :
      ℕ → (T → Option (List ToolSchema)) → RouteTable T → RouteTable T × RefreshResult
  unfolding update_all rebuild_entries statuses
  refresh now discover rt =
      let rt' = rebuild_entries (update_all now discover rt.upstreams) in
      (rt', record { upstreams = statuses rt'.upstreams Dict.empty; total_tools = entry_count rt' })

  -- the first upstream of that name, and a change to it
  unfoldable pub find_named : String → List (Upstream T) → Option (Upstream T)
  find_named name [] = none
  find_named name (u ∷ us) = if str_eq u.name name then some u else find_named name us

  unfoldable pub change_named :
      String → (Upstream T → Upstream T) → List (Upstream T) → List (Upstream T)
  change_named name f [] = []
  change_named name f (u ∷ us) = if str_eq u.name name then f u ∷ us else u ∷ change_named name f us

  discovered : ℕ → String → RouteTable T → Option (List ToolSchema) → RouteTable T × Bool
  unfolding change_named update rebuild_entries
  discovered now name rt none =
      (record rt { upstreams = change_named name (update now none) rt.upstreams }, false)
  discovered now name rt (some tools) =
      (rebuild_entries (change_named name (update now (some tools)) rt.upstreams), true)

  refresh_target :
      ℕ
      → (T → Option (List ToolSchema))
      → String
      → RouteTable T
      → Option (Upstream T)
      → RouteTable T × Bool
  unfolding discovered
  refresh_target now discover name rt none = (rt, false)
  refresh_target now discover name rt (some target) =
      discovered now name rt (discover target.transport)

  -- RefreshUpstream; the Boolean is false where it returns an error.
  unfoldable pub refresh_upstream :
      ℕ → (T → Option (List ToolSchema)) → String → RouteTable T → RouteTable T × Bool
  unfolding find_named refresh_target
  refresh_upstream now discover name rt =
      refresh_target now discover name rt (find_named name rt.upstreams)

  -- an upstream before its first discovery
  abbrev pub undiscovered : String → T → String → Upstream T
  undiscovered name t prefix = record {
    name = name;
    transport = t;
    tools = [];
    prefixed_tools = [];
    prefix = prefix;
    stale = false;
    last_refresh = 0;
  }

  -- AddUpstream, whose prefix is the name as it stands, and whose refresh may fail unnoticed.
  unfoldable pub add_upstream :
      ℕ → (T → Option (List ToolSchema)) → String → T → RouteTable T → RouteTable T
  unfolding refresh_upstream
  add_upstream now discover name t rt =
      let longer = record rt { upstreams = rt.upstreams ++ undiscovered name t name ∷ [] } in
      (refresh_upstream now discover name longer).0

  -- The first upstream of that name is taken out; the transport that is closed comes with the rest.
  unfoldable pub take_named : String → List (Upstream T) → List (Upstream T) × Option T
  take_named name [] = ([], none)
  take_named name (u ∷ us) =
      let rest = take_named name us in
      if str_eq u.name name then (us, some u.transport) else (u ∷ rest.0, rest.1)

  -- RemoveUpstream, with the transport that it closes
  unfoldable pub remove_upstream : String → RouteTable T → RouteTable T × Option T
  unfolding take_named rebuild_entries
  remove_upstream name rt =
      let (us, closed) = take_named name rt.upstreams in (rebuild_entries us, closed)

  -- what a configured upstream becomes, if it has a transport
  configured : Option T → String → Option String → List (Upstream T)
  configured none name tool_prefix = []
  configured (some t) name tool_prefix = undiscovered name t (resolve_prefix name tool_prefix) ∷ []

  initial : Dict T → List (String × Option String) → List (Upstream T)
  unfolding configured resolve_prefix
  initial transports [] = []
  initial transports ((name, tool_prefix) ∷ cfgs) =
      configured (Dict.get transports name) name tool_prefix ++ initial transports cfgs

  -- New, from the transports by name and the configured names with their `tool_prefix`
  unfoldable pub new :
      ℕ → (T → Option (List ToolSchema)) → Dict T → List (String × Option String) → RouteTable T
  unfolding initial refresh Dict.get Dict.put Dict.empty prefixed
  new now discover transports cfgs =
      (refresh now discover
        (record { entries = Dict.empty; upstreams = initial transports cfgs })).0

  -- Upstreams
  unfoldable pub upstream_names : RouteTable T → List String
  upstream_names rt = map (λ u. u.name) rt.upstreams
