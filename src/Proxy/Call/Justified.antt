-- ===== src/Proxy/Call/Justified.antt =====
-- Why a request reaches an upstream.
use stile.Prelude.{
  String, ◌≡◌, ◌≢◌, refl, sym, ap, subst, Bool, true, Option, none, some, In, Bool-cases, inl, inr,
  str_eq, eq_iff, arith, if◌then◌else◌,
}
use stile.Auth.Roles.{Caller}
use stile.Policy.Limits.{Level, RateLimitResult}
use stile.Router.{RouteTable, Route, resolve}
use stile.Proxy.Params.{Params, malformed, object, text, param, tool_name}
use stile.Proxy.Params.Rewrite.{param-rewrite_tool_name}
use stile.Proxy.Call.{
  Result, ok, error, World, Sent, caller_name, may_access, forwarded, finish, dispatch, token_for,
  denial_of, admitted, check_limit, routed, named, handle_tools_call,
}

module _ {L T R G : Type 0} (matches : G → String → Bool) (w : World L T R)
    (table : RouteTable T) where
  -- Parameters of a call of this name as they go to this route: unchanged where the name is the
  -- tool's original one, and otherwise with the original name under "name" and under every other key
  -- what the call has there, for a reader that takes keys exactly.
  pub record Renamed (route : Route T) (name : String) (p sent : Params) : Type 0 where
    pub unchanged : route.original_name ≡ name → sent ≡ p
    pub renamed :
        route.original_name ≢ name
        → (key : String)
        → param key sent
          ≡ (if str_eq "name" key then some (text route.original_name) else param key p)

  -- Why a request was sent: the tool that was named, which the caller may use, resolves to the route
  -- whose transport it goes to, no limit denies it, and it has that route's token and tool name.
  pub record Justified (c : Option (Caller G)) (p : Params) (l : L) (s : Sent T) : Type 0 where
    pub name : String
    pub route : Route T
    pub is_named : tool_name p ≡ some name
    pub accessible : may_access matches c name ≡ true
    pub resolved : resolve table name ≡ some route
    pub within_limit :
        denial_of matches w table
          (check_limit matches w table w.limit c name route.upstream_name l).1
        ≡ none
    pub its_token :
        token_for matches w table w.resolve_token (caller_name c) route.upstream_name ≡ ok s.token
    pub its_transport : s.transport ≡ route.upstream_transport
    pub its_params : Renamed route name p s.params

  tool_name-named : (p : Params) (name : String) → tool_name p ≡ some name → p ≢ malformed
  unfolding tool_name
  tool_name-named malformed name h = cc
  tool_name-named (object fields) name h = λ e. cc

  forwarded-Renamed :
      (route : Route T) (name : String) (p : Params)
      → tool_name p ≡ some name
      → Renamed route name p (forwarded route name p)
  unfolding forwarded
  forwarded-Renamed route name p n = elim (Bool-cases (str_eq route.original_name name)) [
    | inl t ↦ record {
      unchanged = λ e. rw t refl;
      renamed = λ ne. absurd (ne ((eq_iff route.original_name name).0 t));
    }
    | inr f ↦ record {
      unchanged = λ e. absurd (ground (arith, eq_iff route.original_name name));
      renamed = λ ne key.
          rw f (param-rewrite_tool_name route.original_name key p (tool_name-named p name n));
    }
  ]

  finish-sent :
      (c : Option (Caller G)) (name : String) (route : Route T) (s x : Sent T)
      (limits : Option RateLimitResult) (l : L) (r : Result R)
      → In x (finish matches w table c name route s limits l r).sent
      → x ≡ s
  unfolding finish
  finish-sent c name route s x limits l (ok r) (inl e) = e
  finish-sent c name route s x limits l (ok r) (inr m) = elim m [ ]
  finish-sent c name route s x limits l (error e) (inl q) = q
  finish-sent c name route s x limits l (error e) (inr m) = elim m [ ]

  dispatch-sent :
      (c : Option (Caller G)) (name : String) (p : Params) (route : Route T)
      (limits : Option RateLimitResult) (l : L) (t : Result String) (x : Sent T)
      → In x (dispatch matches w table c name p route limits l t).sent
      → (t ≡ ok x.token)
        × (x.transport ≡ route.upstream_transport)
        × (x.params ≡ forwarded route name p)
  unfolding dispatch
  dispatch-sent c name p route limits l (error e) x m = elim m [ ]
  dispatch-sent c name p route limits l (ok token) x m =
      let e = finish-sent c name route _ x limits l _ m in
      (
        ap (λ (s : Sent T). ok s.token) (sym e),
        ap (λ (s : Sent T). s.transport) e,
        ap (λ (s : Sent T). s.params) e,
      )

  admitted-sent :
      (c : Option (Caller G)) (name : String) (p : Params) (route : Route T) (l : L)
      (limits : Option RateLimitResult) (d : Option Level) (x : Sent T)
      → In x (admitted matches w table c name p route l limits d).sent
      → (d ≡ none)
        × (token_for matches w table w.resolve_token (caller_name c) route.upstream_name
            ≡ ok x.token)
        × (x.transport ≡ route.upstream_transport)
        × (x.params ≡ forwarded route name p)
  unfolding admitted
  admitted-sent c name p route l limits none x m =
      let (t, u, q) = dispatch-sent c name p route limits l _ x m in (refl, t, u, q)
  admitted-sent c name p route l limits (some level) x m = elim m [ ]

  routed-sent :
      (c : Option (Caller G)) (name : String) (p : Params) (l : L) (o : Option (Route T))
      (x : Sent T)
      → tool_name p ≡ some name
      → may_access matches c name ≡ true
      → resolve table name ≡ o
      → In x (routed matches w table c name p l o).sent
      → Justified c p l x
  unfolding routed
  routed-sent c name p l none x n a r m = elim m [ ]
  routed-sent c name p l (some route) x n a r m =
      let (d, t, u, q) = admitted-sent c name p route _ _ _ x m in
      record {
        name = name;
        route = route;
        is_named = n;
        accessible = a;
        resolved = r;
        within_limit = d;
        its_token = t;
        its_transport = u;
        its_params = subst (Renamed route name p) (sym q) (forwarded-Renamed route name p n);
      }

  named-sent :
      (c : Option (Caller G)) (p : Params) (l : L) (o : Option String) (x : Sent T)
      → tool_name p ≡ o
      → In x (named matches w table c p l o).sent
      → Justified c p l x
  unfolding named
  named-sent c p l none x n m = elim m [ ]
  named-sent c p l (some name) x n m = elim (Bool-cases (may_access matches c name)) [
    | inl t ↦ routed-sent c name p l (resolve table name) x n t refl (rw t at m)
    | inr f ↦ elim (rw f at m) [ ]
  ]

  -- Every request that a call sends is justified: the call names a tool, its caller may use it, the
  -- route table resolves it, no rate limit denies it, and it goes to the route's transport with the
  -- token resolved for its caller. Its parameters are those of the call where the tool is called by
  -- its original name; where it is not, a reader that takes keys exactly finds the original name
  -- under "name" and under every other key what the call has there.
  pub sent-Justified :
      (c : Option (Caller G)) (p : Params) (l : L) (x : Sent T)
      → In x (handle_tools_call matches w table c p l).sent
      → Justified c p l x
  unfolding handle_tools_call
  sent-Justified c p l x m = named-sent c p l (tool_name p) x refl m
