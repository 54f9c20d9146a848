-- ===== src/Server/Answers.antt =====
-- Every request of a message that is owed an answer gets one, in order, under its id.
use stile.Prelude.{
  ◌≤◌, ◌≡◌, ◌≢◌, refl, inl, inr, Bool, true, false, not, Option, none, some, List, [], ◌∷◌, filter,
  length, String, str_eq, eq_iff, ltb, arith, Bool-cases, if◌then◌else◌,
}
use stile.Prelude.Int.{ℤ}
use stile.Router.{RouteTable, ToolSchema, list_tools}
use stile.Auth.Roles.{Caller}
use stile.Proxy.Call.{World, handle_tools_call}
use stile.Proxy.Listing.{ConnectionChecker}
use stile.Rpc.{
  Request, Error, Response, Codec, messages, parse_message, is_notification, new_response,
  new_error_response, version,
}
use stile.Server.{
  Encoding, Body, Written, accepted, one, many, called, or_error, dispatch, responses, write_batch,
  write_response, handle_single, handle_requests, handle_parsed, handle_mcp, max_batch_size,
  max_request_body,
}

-- the requests that are owed an answer: all but notifications
abbrev pub owed : List Request → List Request
owed = filter (λ r. not (is_notification r))

abbrev HasOne : Option String → Option Error → Type 0
HasOne none none = ⊥
HasOne none (some e) = Unit
HasOne (some r) none = Unit
HasOne (some r) (some e) = ⊥

-- a response of version 2.0 to this request, with a result or an error and not both
pub record IsReply (req : Request) (resp : Response) : Type 0 where
  pub same_id : resp.id ≡ req.id
  pub same_version : resp.jsonrpc ≡ version
  pub one_outcome : HasOne resp.result resp.error

-- replies to the requests, one by one
abbrev pub Replies : List Request → List Response → Type 0
Replies [] [] = Unit
Replies (q ∷ qs) (r ∷ rs) = IsReply q r × Replies qs rs
Replies [] (r ∷ rs) = ⊥
Replies (q ∷ qs) [] = ⊥

new_error_response-IsReply :
    (req : Request) (code : ℤ) (message : String)
    → IsReply req (new_error_response req.id code message)
unfolding new_error_response
new_error_response-IsReply req code message = record {
  same_id = refl;
  same_version = refl;
  one_outcome = tt;
}

or_error-IsReply :
    (req : Request) (message : String) (text : Option String)
    → IsReply req (or_error req message (new_response req.id text))
unfolding or_error new_response
or_error-IsReply req message none = record { same_id = refl; same_version = refl; one_outcome = tt }
or_error-IsReply req message (some text) = record {
  same_id = refl;
  same_version = refl;
  one_outcome = tt;
}

by_test :
    (req : Request) (b : Bool) (x y : Response)
    → IsReply req x
    → IsReply req y
    → IsReply req (if b then x else y)
by_test req true x y p q = p
by_test req false x y p q = q

module _ {G : Type 0} (e : Encoding) (matches : G → String → Bool)
    (checker : Option ConnectionChecker) (c : Option (Caller G)) (tools : List ToolSchema) where
  dispatch-IsReply : (req : Request) → IsReply req (dispatch e matches checker c tools req)
  unfolding dispatch
  dispatch-IsReply req =
      by_test req (str_eq req.method "initialize") _ _
        (by_test req _ _ _ (new_error_response-IsReply req _ _) (or_error-IsReply req _ _))
        (by_test req (str_eq req.method "ping") _ _ (or_error-IsReply req _ _) (
          by_test req (str_eq req.method "tools/list") _ _ (or_error-IsReply req _ _) (
            by_test req (str_eq req.method "tools/call") _ _ (new_error_response-IsReply req _ _)
              (new_error_response-IsReply req _ _))))

  responses-Replies :
      (reqs : List Request) → Replies (owed reqs) (responses e matches checker c tools reqs)
  unfolding responses
  responses-Replies [] = tt
  responses-Replies (req ∷ reqs) = elim (Bool-cases (is_notification req)) [
    | inl t ↦ rw t (responses-Replies reqs)
    | inr f ↦ rw f (dispatch-IsReply req, responses-Replies reqs)
  ]

module _ {L T R G : Type 0} (codec : Codec) (e : Encoding) (matches : G → String → Bool)
    (checker : Option ConnectionChecker) (w : World L T R) (table : RouteTable T) (l : L)
    (c : Option (Caller G)) where
  -- What is written answers these requests: with no body where none is owed an answer; a request
  -- alone, with an id, by the proxy where it is a tools/call and otherwise by its reply; and anything
  -- else by the list of replies.
  abbrev pub Answers : Bool → List Request → Written L T R → Type 0
  Answers batch reqs accepted = owed reqs ≡ []
  Answers batch reqs (one resp) =
      (req : Request) × (reqs ≡ req ∷ [])
      × (batch ≡ false)
      × (is_notification req ≡ false)
      × (req.method ≢ "tools/call")
      × IsReply req resp
  Answers batch reqs (many resps) = Replies (owed reqs) resps × (batch ≡ false → length reqs ≢ 1)
  Answers batch reqs (called h) =
      (req : Request) × (reqs ≡ req ∷ [])
      × (batch ≡ false)
      × (is_notification req ≡ false)
      × (req.method ≡ "tools/call")
      × (h ≡ handle_tools_call matches w table c (e.call_params req.params) l)

  no-Replies : (reqs : List Request) → Replies reqs [] → reqs ≡ []
  no-Replies [] h = refl
  no-Replies (q ∷ qs) h = absurd h

  module _ (marshals : (rs : List Response) → e.can_marshal rs ≡ true) where
    write_batch-Answers :
        (batch : Bool) (reqs : List Request) (rs : List Response)
        → (batch ≡ false → length reqs ≢ 1)
        → Replies (owed reqs) rs
        → Answers batch reqs (write_batch codec e matches checker w table l rs)
    unfolding write_batch
    write_batch-Answers batch reqs [] n h = no-Replies (owed reqs) h
    write_batch-Answers batch reqs (r ∷ rs) n h = rw (marshals (r ∷ rs)) (h, n)

    handle_single-Answers :
        (req : Request)
        → Answers false (req ∷ []) (handle_single codec e matches checker w table l c req)
    unfolding handle_single write_response
    handle_single-Answers req = elim (Bool-cases (is_notification req)) [
      | inl t ↦ rw t (rw t refl)
      | inr f ↦ elim (Bool-cases (str_eq req.method "tools/call")) [
        | inl call ↦
            rw (f, call) (req, refl, refl, f, (eq_iff req.method "tools/call").0 call, refl)
        | inr other ↦
            let not_call : req.method ≢ "tools/call" =
              λ q. ground (arith, eq_iff req.method "tools/call") in
            rw (f, other, marshals)
              (
                req,
                refl,
                refl,
                f,
                not_call,
                dispatch-IsReply e matches checker c (list_tools table) req,
              )
      ]
    ]

    all-Replies :
        (reqs : List Request)
        → Replies (owed reqs) (responses e matches checker c (list_tools table) reqs)
    all-Replies = responses-Replies e matches checker c (list_tools table)

    handle_requests-Answers :
        (batch : Bool) (reqs : List Request)
        → Answers batch reqs (handle_requests codec e matches checker w table l c batch reqs)
    unfolding handle_requests
    handle_requests-Answers false (req ∷ []) = handle_single-Answers req
    handle_requests-Answers false [] =
        write_batch-Answers false [] _ (λ b n. omega arith) (all-Replies [])
    handle_requests-Answers false (q ∷ r ∷ reqs) =
        write_batch-Answers false (q ∷ r ∷ reqs) _ (λ b n. omega arith) (all-Replies (q ∷ r ∷ reqs))
    handle_requests-Answers true reqs =
        write_batch-Answers true reqs _ (λ b n. cc) (all-Replies reqs)

    -- Where responses can be marshalled, a message of at most 100 requests in a body of at most 10 MB
    -- is answered: a request alone, not in a batch and with an id, by the proxy where it is a
    -- tools/call and by its response where it is not; and a batch by the list of the responses to its
    -- requests with an id, in their order. A response is of version 2.0, under the id of its request,
    -- and has a result or an error and not both. Notifications are not answered.
    pub handle_mcp-Answers :
        (body : Body) (reqs : List Request) (batch : Bool)
        → body.bytes ≤ max_request_body
        → parse_message codec body.text ≡ (messages reqs, batch)
        → length reqs ≤ max_batch_size
        → Answers batch reqs (handle_mcp codec e matches checker w table l c (some body))
    unfolding handle_mcp handle_parsed
    handle_mcp-Answers body reqs batch small parsed few =
        let fits : ltb max_request_body body.bytes ≡ false = ground arith in
        let all : ltb max_batch_size (length reqs) ≡ false = ground arith in
        rw (fits, parsed, all) (handle_requests-Answers batch reqs)
