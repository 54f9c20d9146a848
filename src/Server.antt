-- ===== src/Server.antt =====
-- internal/server/server.go: the handler of POST /mcp, from the body to what is written. The proxy's
-- handlers, the codec of JSON and what encoding/json makes of a result are arguments; spans and log
-- lines are left out.
pub mod Answers
pub mod Guarded
mod Tests
use stile.Prelude.{
  ℕ, String, Bool, true, false, not, ◌&&◌, Option, none, some, List, [], ◌∷◌, str_eq, ltb, length,
  if◌then◌else◌,
}
use Prim.Native.String.{◌++◌}
use stile.Prelude.Int.{ℤ, negsuc}
use stile.Prelude.Dict.{Dict}
use stile.Router.{RouteTable, ToolSchema, list_tools}
use stile.Auth.Roles.{Caller, Authenticator}
use stile.Auth.Authenticate.{CallerStore, AuthResult, authenticated, refused, authenticate}
use stile.Proxy.Params.{Params}
use stile.Proxy.Call.{World, Handled, handle_tools_call}
use stile.Proxy.Listing.{ConnectionChecker, filtered_tools}
use stile.Rpc.{
  RequestId, Request, Error, Response, Codec, Messages, messages, unparsed, parse_message,
  is_notification, new_response, new_error_response, parse_error, invalid_request, method_not_found,
  invalid_params, internal_error,
}

abbrev pub supported_protocol_version : String
supported_protocol_version = "2025-11-25"

abbrev pub max_request_body : ℕ
max_request_body = 10485760

abbrev pub max_batch_size : ℕ
max_batch_size = 100

-- a request body: its text and the number of its bytes
pub record Body : Type 0 where
  pub text : String
  pub bytes : ℕ

-- What a request to /mcp is answered with. `called` is what the proxy did for tools/call, and writes
-- itself.
pub data Written (L T R : Type 0) : Type 0 where
  accepted : Written L T R
  one : Response → Written L T R
  many : List Response → Written L T R
  called : Handled L T R → Written L T R

-- What encoding/json makes of the results of the handlers, of the parameters, and whether it can
-- marshal responses; what errors are as texts.
pub record Encoding : Type 0 where
  pub initialize_result : List ToolSchema → Option String
  pub ping_result : Option String
  pub list_result : List ToolSchema × Dict String → Option String
  pub list_error : String
  pub protocol_version : String → String
  pub call_params : Option String → Params
  pub can_marshal : List Response → Bool
  pub error_text : Error → String

-- writeError
unfoldable pub write_error : {L T R : Type 0} → Option RequestId → ℤ → String → Written L T R
unfolding new_error_response
write_error id code message = one (new_error_response id code message)

or_error : Request → String → Option Response → Response
unfolding new_error_response
or_error req message none = new_error_response req.id internal_error message
or_error req message (some resp) = resp

requested_version : Encoding → Option String → String
requested_version e none = ""
requested_version e (some params) = e.protocol_version params

module _ {G : Type 0} (e : Encoding) (matches : G → String → Bool)
    (checker : Option ConnectionChecker) where
  unfoldable pub handle_initialize : Option (Caller G) → List ToolSchema → Request → Response
  unfolding requested_version or_error new_response new_error_response filtered_tools
  handle_initialize c tools req =
      let asked = requested_version e req.params in
      if not (str_eq asked "") && not (str_eq asked supported_protocol_version)
      then new_error_response req.id invalid_params ("unsupported protocol version: " ++ asked)
      else or_error req "failed to build initialize response"
          (new_response req.id (e.initialize_result (filtered_tools matches checker c tools).0))

  unfoldable pub handle_ping : Request → Response
  unfolding or_error new_response
  handle_ping req = or_error req "failed to build ping response" (new_response req.id e.ping_result)

  unfoldable pub handle_tools_list : Option (Caller G) → List ToolSchema → Request → Response
  unfolding or_error new_response filtered_tools
  handle_tools_list c tools req =
      or_error req e.list_error
        (new_response req.id (e.list_result (filtered_tools matches checker c tools)))

  -- the switch on the method
  unfoldable pub dispatch : Option (Caller G) → List ToolSchema → Request → Response
  unfolding handle_initialize handle_ping handle_tools_list new_error_response
  dispatch c tools req =
      if str_eq req.method "initialize"
      then handle_initialize c tools req
      else if str_eq req.method "ping"
      then handle_ping req
      else if str_eq req.method "tools/list"
      then handle_tools_list c tools req
      else if str_eq req.method "tools/call"
      then new_error_response req.id internal_error "tools/call in batch not supported"
      else new_error_response req.id method_not_found "method not found"

  -- the loop over a batch: a notification is dropped
  unfoldable pub responses : Option (Caller G) → List ToolSchema → List Request → List Response
  unfolding dispatch is_notification
  responses c tools [] = []
  responses c tools (req ∷ reqs) =
      let rest = responses c tools reqs in
      if is_notification req then rest else dispatch c tools req ∷ rest

module _ {L T R G : Type 0} (codec : Codec) (e : Encoding) (matches : G → String → Bool)
    (checker : Option ConnectionChecker) (w : World L T R) (table : RouteTable T) (l : L) where
  write_batch : List Response → Written L T R
  unfolding write_error
  write_batch [] = accepted
  write_batch (r ∷ rs) =
      if e.can_marshal (r ∷ rs)
      then many (r ∷ rs)
      else write_error none internal_error "failed to marshal batch response"

  write_response : Request → Response → Written L T R
  unfolding write_error
  write_response req resp =
      if e.can_marshal (resp ∷ [])
      then one resp
      else write_error req.id internal_error "failed to marshal response"

  unfoldable pub handle_single : Option (Caller G) → Request → Written L T R
  unfolding write_response is_notification
  handle_single c req =
      if is_notification req
      then accepted
      else if str_eq req.method "tools/call"
      then called (handle_tools_call matches w table c (e.call_params req.params) l)
      else write_response req (dispatch e matches checker c (list_tools table) req)

  -- after the test of the batch's size
  handle_requests : Option (Caller G) → Bool → List Request → Written L T R
  unfolding handle_single write_batch
  handle_requests c false (req ∷ []) = handle_single c req
  handle_requests c batch reqs = write_batch (responses e matches checker c (list_tools table) reqs)

  handle_parsed : Option (Caller G) → Messages → Bool → Written L T R
  unfolding handle_requests write_error
  handle_parsed c (unparsed err) batch = write_error none parse_error (e.error_text err)
  handle_parsed c (messages reqs) batch =
      if ltb max_batch_size (length reqs)
      then write_error none invalid_request "batch too large"
      else handle_requests c batch reqs

  -- handleMCP, on what the reading of the body gave
  unfoldable pub handle_mcp : Option (Caller G) → Option Body → Written L T R
  unfolding handle_parsed write_error parse_message
  handle_mcp c none = write_error none parse_error "failed to read request body"
  handle_mcp c (some body) =
      if ltb max_request_body body.bytes
      then write_error none invalid_request "request body too large"
      else let (parsed, batch) = parse_message codec body.text in handle_parsed c parsed batch

  module _ {S H : Type 0} (store : CallerStore S H) (sha256 : String → H)
      (validate : S → String → Option String) (a : Authenticator G) where
    after_auth : AuthResult G → Option Body → Written L T R
    unfolding handle_mcp write_error
    after_auth (refused why) body = write_error none (negsuc 31999) "unauthorized"
    after_auth (authenticated c label) body = handle_mcp (some c) body

    -- the handler that New makes where there is an authenticator
    unfoldable pub serve_mcp : S → String → Option Body → S × Written L T R
    unfolding after_auth authenticate
    serve_mcp s header body =
        let (s', result) = authenticate store sha256 validate a s header in
        (s', after_auth result body)
