-- ===== src/Proxy/Tests.antt =====
-- Runs of the proxy's handlers, and their theorems at concrete inputs.
use stile.Prelude.{
  ℕ, String, ◌≡◌, ◌↔◌, refl, true, none, some, [], ◌∷◌, str_eq, In, inl, if◌then◌else◌,
}
use stile.Prelude.Dict
use stile.Prelude.Dict.{Dict}
use stile.Auth.Roles.{Caller, can_access_tool}
use stile.Router.{
  ToolSchema, Route, RouteTable, rebuild_entries, resolve, list_tools, undiscovered, update,
}
use stile.Router.Names.{apply_prefix}
use stile.Router.Listing.{rebuild_entries-IsConsistent}
use stile.Proxy.Params.{Params, object, text, other, tool_name, rewrite_tool_name, param}
use stile.Proxy.Params.Rewrite.{param-rewrite_tool_name}
use stile.Proxy.Call.{ok, World, Sent, Handled, handle_tools_call}
use stile.Proxy.Call.Accounted.{IsAccounted, handle_tools_call-IsAccounted}
use stile.Proxy.Call.Justified.{Justified, sent-Justified}
use stile.Proxy.Listing.{ConnectionChecker, filtered_tools, is_reachable, listed_exact}

abbrev search_tool : ToolSchema
search_tool = record { name = "search"; description = ""; input_schema = "{}"; annotations = none }

-- one upstream with a prefix, one tool
abbrev table : RouteTable ℕ
table = rebuild_entries (update 1 (some (search_tool ∷ [])) (undiscovered "web" 1 "web") ∷ [])

-- patterns match by equality
abbrev ann : Caller String
ann = record { name = "ann"; roles = []; allowed_tools = "web__search" ∷ [] }

abbrev world : World ℕ ℕ String
world = record {
  limit = none;
  resolve_token = some (λ name upstream. ok "token");
  round_trip = λ t token p. ok "found";
}

abbrev params : Params
params = object (("name", text "web__search") ∷ ("arguments", other "{}") ∷ [])

abbrev handled : Handled ℕ ℕ String
handled = handle_tools_call str_eq world table (some ann) params 0

abbrev request : Sent ℕ
request = record {
  transport = 1;
  token = "token";
  params = object (("arguments", other "{}") ∷ ("name", text "search") ∷ []);
}

request_sent : handled.sent ≡ request ∷ []
unfolding handle_tools_call rebuild_entries update resolve can_access_tool apply_prefix Dict.get
    Dict.put Dict.empty rewrite_tool_name
request_sent = refl

sent-Justified_example : Justified str_eq world table (some ann) params 0 request
sent-Justified_example =
    sent-Justified str_eq world table (some ann) params 0 request (rw request_sent (inl refl))

handle_tools_call-IsAccounted_example :
    IsAccounted str_eq world table (some ann) (tool_name params) handled
handle_tools_call-IsAccounted_example =
    handle_tools_call-IsAccounted str_eq world table (some ann) params 0

param-rewrite_tool_name_example :
    param "arguments" (rewrite_tool_name "search" params)
    ≡ (if str_eq "name" "arguments" then some (text "search") else param "arguments" params)
param-rewrite_tool_name_example = param-rewrite_tool_name "search" "arguments" params (λ h. cc)

-- two spellings of the field: the gateway reads the last, an upstream the exact one
abbrev two_names : Params
two_names = object (("name", text "drop_table") ∷ ("Name", text "search") ∷ [])

two_names_read :
    (tool_name two_names ≡ some "search") × (param "name" two_names ≡ some (text "drop_table"))
unfolding tool_name param
two_names_read = (refl, refl)

abbrev checker : ConnectionChecker
checker = record {
  is_connected = λ name upstream. (true, "");
  connect_url = λ name provider. "https://stile/connect";
}

listed_exact_example :
    ((t : ToolSchema)
      → In t (filtered_tools str_eq (some checker) (some ann) (list_tools table)).0
      → (r : Route ℕ) × (resolve table t.name ≡ some r) × (r.tool ≡ t))
    × ((name : String) (r : Route ℕ)
        → resolve table name ≡ some r
        → In r.tool (filtered_tools str_eq (some checker) (some ann) (list_tools table)).0 ↔ (
            (can_access_tool str_eq ann name ≡ true)
            × (is_reachable str_eq (some checker) ann r.tool ≡ true)))
listed_exact_example = listed_exact str_eq (some checker) ann table (
    rebuild_entries-IsConsistent
      (update 1 (some (search_tool ∷ [])) (undiscovered "web" 1 "web") ∷ []))
