-- ===== src/Proxy/Call/Accounted.antt =====
-- How a call is recorded, and how many requests it sends.
use stile.Prelude.{
  ℕ, String, ◌≡◌, refl, Bool, Option, none, some, [], ◌∷◌, length, Bool-cases, inl, inr,
  if◌then◌else◌,
}
use stile.Auth.Roles.{Caller}
use stile.Policy.Limits.{Level, RateLimitResult}
use stile.Router.{RouteTable, Route, resolve}
use stile.Proxy.Params.{Params, tool_name}
use stile.Proxy.Call.{
  Result, ok, error, World, Status, ok_status, error_status, Sent, Reply, invalid_params,
  access_denied, unknown_tool, rate_limited, token_error, upstream_error, answer, Handled,
  caller_name, may_access, entry, finish, dispatch, admitted, routed, named, handle_tools_call,
}

-- the status under which a reply is recorded
abbrev pub status_of : {R : Type 0} → Reply R → Status
status_of (answer r) = ok_status
status_of invalid_params = error_status
status_of access_denied = error_status
status_of unknown_tool = error_status
status_of (rate_limited l) = error_status
status_of (token_error e) = error_status
status_of (upstream_error e) = error_status

-- how many requests a reply took
abbrev pub requests_of : {R : Type 0} → Reply R → ℕ
requests_of (answer r) = 1
requests_of (upstream_error e) = 1
requests_of invalid_params = 0
requests_of access_denied = 0
requests_of unknown_tool = 0
requests_of (rate_limited l) = 0
requests_of (token_error e) = 0

-- the one record of a call of this tool by this caller, at this upstream
abbrev pub IsRecorded :
    {L T R G : Type 0} → Option (Caller G) → String → String → Handled L T R → Type 0
IsRecorded c tool upstream h =
    (h.recorded
      ≡ record {
        caller = caller_name c;
        tool = tool;
        upstream = upstream;
        status = status_of h.reply;
      }
        ∷ [])
    × (length h.sent ≡ requests_of h.reply)

abbrev upstream_of : {T : Type 0} → Option (Route T) → String
upstream_of none = ""
upstream_of (some route) = route.upstream_name

module _ {L T R G : Type 0} (matches : G → String → Bool) (w : World L T R)
    (table : RouteTable T) where
  -- the upstream that a call of this tool is recorded under: none where the caller may not use the tool
  -- or it does not resolve
  abbrev pub recorded_upstream : Option (Caller G) → String → String
  recorded_upstream c name =
      if may_access matches c name then upstream_of (resolve table name) else ""

  -- by the tool that the call names
  abbrev pub IsAccounted : Option (Caller G) → Option String → Handled L T R → Type 0
  IsAccounted c none h = (h.reply ≡ invalid_params) × (h.recorded ≡ []) × (h.sent ≡ [])
  IsAccounted c (some name) h = IsRecorded c name (recorded_upstream c name) h

  finish-IsRecorded :
      (c : Option (Caller G)) (name : String) (route : Route T) (s : Sent T)
      (limits : Option RateLimitResult) (l : L) (r : Result R)
      → IsRecorded c name route.upstream_name (finish matches w table c name route s limits l r)
  unfolding finish entry
  finish-IsRecorded c name route s limits l (ok r) = (refl, refl)
  finish-IsRecorded c name route s limits l (error e) = (refl, refl)

  dispatch-IsRecorded :
      (c : Option (Caller G)) (name : String) (p : Params) (route : Route T)
      (limits : Option RateLimitResult) (l : L) (t : Result String)
      → IsRecorded c name route.upstream_name (dispatch matches w table c name p route limits l t)
  unfolding dispatch entry
  dispatch-IsRecorded c name p route limits l (error e) = (refl, refl)
  dispatch-IsRecorded c name p route limits l (ok token) =
      finish-IsRecorded c name route _ limits l _

  admitted-IsRecorded :
      (c : Option (Caller G)) (name : String) (p : Params) (route : Route T) (l : L)
      (limits : Option RateLimitResult) (d : Option Level)
      → IsRecorded c name route.upstream_name (admitted matches w table c name p route l limits d)
  unfolding admitted entry
  admitted-IsRecorded c name p route l limits none = dispatch-IsRecorded c name p route limits l _
  admitted-IsRecorded c name p route l limits (some level) = (refl, refl)

  routed-IsRecorded :
      (c : Option (Caller G)) (name : String) (p : Params) (l : L) (o : Option (Route T))
      → IsRecorded c name (upstream_of o) (routed matches w table c name p l o)
  unfolding routed entry
  routed-IsRecorded c name p l none = (refl, refl)
  routed-IsRecorded c name p l (some route) = admitted-IsRecorded c name p route _ _ _

  named-IsAccounted :
      (c : Option (Caller G)) (p : Params) (l : L) (o : Option String)
      → IsAccounted c o (named matches w table c p l o)
  unfolding named entry
  named-IsAccounted c p l none = (refl, refl, refl)
  named-IsAccounted c p l (some name) = elim (Bool-cases (may_access matches c name)) [
    | inl t ↦ rw t (routed-IsRecorded c name p l (resolve table name))
    | inr f ↦ rw f (refl, refl)
  ]

  -- Every call with a tool name is recorded exactly once: under the name of its caller, its tool and
  -- the upstream of the tool's route, or no upstream where the caller may not use the tool or it does
  -- not resolve, and as a success just where the reply is the answer of an upstream. A call without a
  -- tool name is refused, not recorded and not sent. A request is sent, and only one, just where the
  -- reply is the answer or the error of an upstream.
  pub handle_tools_call-IsAccounted :
      (c : Option (Caller G)) (p : Params) (l : L)
      → IsAccounted c (tool_name p) (handle_tools_call matches w table c p l)
  unfolding handle_tools_call
  handle_tools_call-IsAccounted c p l = named-IsAccounted c p l (tool_name p)
