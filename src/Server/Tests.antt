-- ===== src/Server/Tests.antt =====
-- Runs of the handler of /mcp, and its theorems at concrete inputs.
use stile.Prelude.{
  ℕ, ◌≡◌, refl, arith, String, true, Option, none, some, [], ◌∷◌, str_eq, if◌then◌else◌,
}
use stile.Prelude.Int.{pos}
use stile.Prelude.Dict
use stile.Prelude.Dict.{Dict, binding, no_bindings}
use stile.Router.{ToolSchema, RouteTable, rebuild_entries, undiscovered, update}
use stile.Auth.Roles.{Authenticator, RoleConfig, new_authenticator}
use stile.Auth.Authenticate.{CallerStore}
use stile.Proxy.Params.{object, text, other}
use stile.Proxy.Call.{ok, World, Sent}
use stile.Rpc.{int_id, Request, Codec, messages, parse_message, parse_id}
use stile.Server.{Encoding, Body, Written, handle_mcp, serve_mcp}
use stile.Server.Answers.{Answers, handle_mcp-Answers}

-- objects and strings by their names
abbrev fields : String → Option (Dict String)
fields s =
    if str_eq s "call"
    then some (
        binding "jsonrpc" "v"
          (binding "method" "call" (binding "params" "p" (binding "id" "i" no_bindings))))
    else if str_eq s "ping"
    then some (binding "jsonrpc" "v" (binding "method" "ping" (binding "id" "i" no_bindings)))
    else if str_eq s "note"
    then some (binding "jsonrpc" "v" (binding "method" "note" no_bindings))
    else none

abbrev strings : String → Option String
strings s =
    if str_eq s "v"
    then some "2.0"
    else if str_eq s "call"
    then some "tools/call"
    else if str_eq s "ping"
    then some "ping"
    else if str_eq s "note"
    then some "notifications/initialized"
    else none

abbrev codec : Codec
codec = record {
  unmarshal_object = fields;
  unmarshal_array = λ s. some ("ping" ∷ "note" ∷ "ping" ∷ []);
  unmarshal_string = strings;
  unmarshal_int = λ s. if str_eq s "i" then some (pos 7) else none;
  unmarshal_error = λ s. none;
  marshal_string = λ s. s;
  marshal_int = λ n. "i";
  marshal_error = λ e. "";
  compact = λ s. s;
}

abbrev encoding : Encoding
encoding = record {
  initialize_result = λ tools. some "tools";
  ping_result = some "{}";
  list_result = λ tools. some "tools";
  list_error = "";
  protocol_version = λ s. "";
  call_params = λ p. object (("name", text "web__search") ∷ ("arguments", other "{}") ∷ []);
  can_marshal = λ rs. true;
  error_text = λ e. e.message;
}

abbrev search_tool : ToolSchema
search_tool = record { name = "search"; description = ""; input_schema = "{}"; annotations = none }

-- one upstream with a prefix, one tool
abbrev table : RouteTable ℕ
table = rebuild_entries (update 1 (some (search_tool ∷ [])) (undiscovered "web" 1 "web") ∷ [])

abbrev world : World ℕ ℕ String
world = record { limit = none; resolve_token = none; round_trip = λ t token p. ok "found" }

abbrev reader : RoleConfig
reader = record { name = "reader"; allowed_tools = "web__search" ∷ []; credentials = [] }

abbrev authenticator : Authenticator String
authenticator = new_authenticator some (λ v. "") (reader ∷ []) none

-- `ann` has the key sk-1
abbrev store : CallerStore ℕ String
store = record {
  lookup_by_key = λ s h.
      if str_eq h "sk-1" then some (record { caller_name = "ann"; key_label = "laptop" }) else none;
  roles_for_caller = λ s name. some ("reader" ∷ []);
  is_store = true;
  ensure_caller = λ s name roles. (s, true);
  caller_exists = λ s name. some true;
}

abbrev call : Body
call = record { text = "call"; bytes = 4 }

abbrev batch : Body
batch = record { text = "[ping, note, ping]"; bytes = 18 }

abbrev served : Option Body → Written ℕ ℕ String
served body =
    (serve_mcp codec encoding str_eq none world table 0 store (λ t. t) (λ s t. none) authenticator 0
      "Bearer sk-1" body).1

abbrev request : Sent ℕ
request = record {
  transport = 1;
  token = "";
  params = object (("arguments", other "{}") ∷ ("name", text "search") ∷ []);
}

abbrev ping : Request
ping = record { jsonrpc = "2.0"; method = "ping"; params = none; id = some (int_id (pos 7)) }

abbrev note : Request
note = record { jsonrpc = "2.0"; method = "notifications/initialized"; params = none; id = none }

batch_parses : parse_message codec batch.text ≡ (messages (ping ∷ note ∷ ping ∷ []), true)
unfolding parse_message parse_id Dict.get
batch_parses = refl

handle_mcp-Answers_example :
    Answers {G = String} codec encoding str_eq none world table 0 none true
      (ping ∷ note ∷ ping ∷ [])
      (handle_mcp codec encoding str_eq none world table 0 none (some batch))
handle_mcp-Answers_example =
    handle_mcp-Answers codec encoding str_eq none world table 0 none (λ rs. refl) batch
      (ping ∷ note ∷ ping ∷ []) true (omega arith) batch_parses (omega arith)
