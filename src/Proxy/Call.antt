-- ===== src/Proxy/Call.antt =====
-- `HandleToolsCall` of internal/proxy/proxy.go. The rate limiter, the token resolver and the
-- transports are interfaces of the program: `World` has one operation of each. What the handler hands
-- to its metrics and its audit log, and the requests it sends, are listed in its outcome. Spans and
-- log lines are left out.
pub mod Accounted
pub mod Justified
use stile.Prelude.{
  ℕ, ◌+◌, ◌/◌, String, Bool, true, false, not, Option, none, some, List, [], ◌∷◌, str_eq,
  if◌then◌else◌, max,
}
use stile.Auth.Roles.{Caller, can_access_tool}
use stile.Policy.Limits.{Level, RateLimitResult}
use stile.Router.{RouteTable, Route, resolve}
use stile.Proxy.Params.{Params, tool_name, rewrite_tool_name}

-- what a call of an interface returned: a value, or the text of an error
pub data Result (A : Type 0) : Type 0 where
  ok : A → Result A
  error : String → Result A

-- `L` is the state of the rate limiter, `T` the type of transports and `R` that of their results. An
-- empty token means that the upstream has no OAuth.
pub record World (L T R : Type 0) : Type 0 where
  pub limit : Option (L → String → String → String → List String → L × Option RateLimitResult)
  pub resolve_token : Option (String → String → Result String)
  pub round_trip : T → String → Params → Result R

pub data Status : Type 0 where
  ok_status error_status : Status

-- what `recordRequest` is given
pub record Record : Type 0 where
  pub caller : String
  pub tool : String
  pub upstream : String
  pub status : Status

-- a request as it leaves for an upstream: its transport, the token in its context, its parameters
pub record Sent (T : Type 0) : Type 0 where
  pub transport : T
  pub token : String
  pub params : Params

pub data Reply (R : Type 0) : Type 0 where
  invalid_params access_denied unknown_tool : Reply R
  rate_limited : Level → Reply R
  token_error upstream_error : String → Reply R
  answer : R → Reply R

-- the X-RateLimit headers, and Retry-After
pub record Headers : Type 0 where
  pub limit : ℕ
  pub remaining : ℕ
  pub reset : ℕ
  pub retry_after : Option ℕ

-- What one call did. `rejections` are the calls of RecordRateLimitRejection.
pub record Handled (L T R : Type 0) : Type 0 where
  pub reply : Reply R
  pub limiter : L
  pub recorded : List Record
  pub sent : List (Sent T)
  pub rejections : List (String × String)
  pub headers : Option Headers

-- nanoseconds, rounded up to seconds, and at least one
retry_seconds : ℕ → ℕ
retry_seconds ns = max ((ns + 999999999) / 1000000000) 1

retry_header : Option Level → ℕ → Option ℕ
unfolding retry_seconds
retry_header none ns = none
retry_header (some l) ns = some (retry_seconds ns)

-- setRateLimitHeaders
unfoldable pub rate_limit_headers : Option RateLimitResult → Option Headers
unfolding retry_header
rate_limit_headers none = none
rate_limit_headers (some r) = some (record {
  limit = r.limit;
  remaining = r.remaining;
  reset = r.reset_at / 1000000000;
  retry_after = retry_header r.denial r.retry_after;
})

pub caller_name : {G : Type 0} → Option (Caller G) → String
caller_name none = "anonymous"
caller_name (some c) = c.name

caller_roles : {G : Type 0} → Option (Caller G) → List String
caller_roles none = []
caller_roles (some c) = c.roles

-- without a caller, authentication is off
unfoldable pub may_access : {G : Type 0} → (G → String → Bool) → Option (Caller G) → String → Bool
may_access matches none name = true
may_access matches (some c) name = can_access_tool matches c name

unfoldable pub forwarded : {T : Type 0} → Route T → String → Params → Params
unfolding rewrite_tool_name
forwarded route name p =
    if str_eq route.original_name name then p else rewrite_tool_name route.original_name p

module _ {L T R G : Type 0} (matches : G → String → Bool) (w : World L T R)
    (table : RouteTable T) where
  entry : Option (Caller G) → String → String → Status → Record
  unfolding caller_name
  entry c tool upstream status = record {
    caller = caller_name c;
    tool = tool;
    upstream = upstream;
    status = status;
  }

  abbrev failed : Reply R → L → List Record → Handled L T R
  failed reply l recorded = record {
    reply = reply;
    limiter = l;
    recorded = recorded;
    sent = [];
    rejections = [];
    headers = none;
  }

  pub finish :
      Option (Caller G)
      → String
      → Route T
      → Sent T
      → Option RateLimitResult
      → L
      → Result R
      → Handled L T R
  unfolding entry rate_limit_headers
  finish c name route s limits l (ok r) = record {
    reply = answer r;
    limiter = l;
    recorded = entry c name route.upstream_name ok_status ∷ [];
    sent = s ∷ [];
    rejections = [];
    headers = rate_limit_headers limits;
  }
  finish c name route s limits l (error e) = record {
    reply = upstream_error e;
    limiter = l;
    recorded = entry c name route.upstream_name error_status ∷ [];
    sent = s ∷ [];
    rejections = [];
    headers = rate_limit_headers limits;
  }

  -- rewrites the name, and sends the request
  pub dispatch :
      Option (Caller G)
      → String
      → Params
      → Route T
      → Option RateLimitResult
      → L
      → Result String
      → Handled L T R
  unfolding entry finish forwarded
  dispatch c name p route limits l (error e) =
      failed (token_error e) l (entry c name route.upstream_name error_status ∷ [])
  dispatch c name p route limits l (ok token) =
      let s : Sent T = record {
        transport = route.upstream_transport;
        token = token;
        params = forwarded route name p;
      } in
      finish c name route s limits l (w.round_trip s.transport s.token s.params)

  pub token_for : Option (String → String → Result String) → String → String → Result String
  token_for none name upstream = ok ""
  token_for (some f) name upstream = f name upstream

  pub denial_of : Option RateLimitResult → Option Level
  denial_of none = none
  denial_of (some r) = r.denial

  pub admitted :
      Option (Caller G)
      → String
      → Params
      → Route T
      → L
      → Option RateLimitResult
      → Option Level
      → Handled L T R
  unfolding entry rate_limit_headers caller_name dispatch token_for
  admitted c name p route l limits (some level) = record {
    reply = rate_limited level;
    limiter = l;
    recorded = entry c name route.upstream_name error_status ∷ [];
    sent = [];
    rejections = (caller_name c, name) ∷ [];
    headers = rate_limit_headers limits;
  }
  admitted c name p route l limits none =
      dispatch c name p route limits l
        (token_for w.resolve_token (caller_name c) route.upstream_name)

  pub check_limit :
      Option (L → String → String → String → List String → L × Option RateLimitResult)
      → Option (Caller G)
      → String
      → String
      → L
      → L × Option RateLimitResult
  unfolding caller_name caller_roles
  check_limit none c name upstream l = (l, none)
  check_limit (some f) c name upstream l = f l (caller_name c) name upstream (caller_roles c)

  pub routed : Option (Caller G) → String → Params → L → Option (Route T) → Handled L T R
  unfolding entry admitted check_limit denial_of
  routed c name p l none = failed unknown_tool l (entry c name "" error_status ∷ [])
  routed c name p l (some route) =
      let (l', limits) = check_limit w.limit c name route.upstream_name l in
      admitted c name p route l' limits (denial_of limits)

  pub named : Option (Caller G) → Params → L → Option String → Handled L T R
  unfolding entry routed may_access resolve
  named c p l none = failed invalid_params l []
  named c p l (some name) =
      if may_access matches c name
      then routed c name p l (resolve table name)
      else failed access_denied l (entry c name "" error_status ∷ [])

  unfoldable pub handle_tools_call : Option (Caller G) → Params → L → Handled L T R
  unfolding named tool_name
  handle_tools_call c p l = named c p l (tool_name p)
