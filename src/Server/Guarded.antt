-- ===== src/Server/Guarded.antt =====
-- What an authenticated server sends to upstreams.
use stile.Prelude.{◌≡◌, ◌≤◌, Bool, false, Option, some, List, [], ◌∷◌, String}
use stile.Router.{RouteTable}
use stile.Auth.Roles.{Caller, Authenticator}
use stile.Auth.Authenticate.{CallerStore, authenticated, authenticate}
use stile.Proxy.Call.{World, Sent}
use stile.Proxy.Call.Justified.{Justified}
use stile.Proxy.Listing.{ConnectionChecker}
use stile.Rpc.{Request, Codec, Messages, messages, parse_message, is_notification}
use stile.Server.{Encoding, Body, Written, accepted, one, many, called, max_request_body}

-- the requests that left for upstreams
abbrev pub sent_of : {L T R : Type 0} → Written L T R → List (Sent T)
sent_of accepted = []
sent_of (one resp) = []
sent_of (many resps) = []
sent_of (called h) = h.sent

module _ {L T R G : Type 0} (codec : Codec) (e : Encoding) (matches : G → String → Bool)
    (checker : Option ConnectionChecker) (w : World L T R) (table : RouteTable T) (l : L) where
  -- a tools/call under which a request was sent: it is no notification, and its parameters justify
  -- the request for this caller
  pub record Calls (c : Option (Caller G)) (req : Request) (s : Sent T) : Type 0 where
    pub not_notification : is_notification req ≡ false
    pub method : req.method ≡ "tools/call"
    pub justified : Justified matches w table c (e.call_params req.params) l s

  -- these requests are one such call, and no batch
  abbrev pub IsCalled : Option (Caller G) → Messages → Bool → Sent T → Type 0
  IsCalled c parsed batch s =
      (req : Request) × (parsed ≡ messages (req ∷ [])) × (batch ≡ false) × Calls c req s

  -- a body within the limit, which is read as one such call
  abbrev pub IsCalledBy : Option (Caller G) → Option Body → Sent T → Type 0
  IsCalledBy c body s =
      (b : Body) × (req : Request) × (body ≡ some b)
      × (b.bytes ≤ max_request_body)
      × (parse_message codec b.text ≡ (messages (req ∷ []), false))
      × Calls c req s

  module _ {S H : Type 0} (store : CallerStore S H) (sha256 : String → H)
      (validate : S → String → Option String) (a : Authenticator G) where
    -- the caller that authentication found, and why the request was sent for it
    abbrev pub IsGuarded : S → String → Option Body → Sent T → Type 0
    IsGuarded s header body x =
        (c : Caller G) × (label : String) × ((authenticate store sha256 validate a s header).1
          ≡ authenticated c label)
        × IsCalledBy (some c) body x
