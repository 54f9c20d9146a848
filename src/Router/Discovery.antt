-- ===== src/Router/Discovery.antt =====
-- `discoverTools` of internal/router/router.go: the handshake of MCP and the listing of an upstream's
-- tools. transport.Send is the argument `send`, with a state for what it changes; the result of
-- tools/list is given as it decodes, with `none` where it does not.
use stile.Prelude.{String, Bool, true, false, Option, none, List, if◌then◌else◌}
use stile.Router.{ToolSchema}

-- the requests with their ids 0 and 1, and the notification, which has none
pub data Method : Type 0 where
  initialize initialized tools_list : Method

pub data Response : Type 0 where
  failed : Response
  rpc_error : String → Response
  result : Option (List ToolSchema) → Response

accepted : Response → Bool
accepted failed = false
accepted (rpc_error message) = false
accepted (result r) = true

tools_in : Response → Option (List ToolSchema)
tools_in failed = none
tools_in (rpc_error message) = none
tools_in (result r) = r

module _ {S T : Type 0} (send : S → T → Method → S × Response) where
  -- the notification is sent where `initialize` succeeded; its response is not looked at
  notify : T → S × Response → S
  unfolding accepted
  notify t (s, r) = if accepted r then (send s t initialized).0 else s

  listed : S × Response → S × Option (List ToolSchema)
  unfolding tools_in
  listed (s, r) = (s, tools_in r)

  unfoldable pub discover_tools : S → T → S × Option (List ToolSchema)
  unfolding notify listed
  discover_tools s t = listed (send (notify t (send s t initialize)) t tools_list)
