-- ===== src/Transport/Tests.antt =====
-- Runs of the transports, and their theorems at concrete inputs.
use stile.Prelude.{
  ◌≡◌, ◌↔◌, refl, String, true, false, Option, none, some, List, [], ◌∷◌, str_eq, if◌then◌else◌,
}
use stile.Prelude.Int.{pos}
use stile.Rpc.{int_id, Response}
use stile.Transport.Http.{HttpReply, no_response, response, new_http_transport, authorization}
use stile.Transport.Http.Healthy.{after, ThreeFailures, after_exact}
use stile.Transport.Sse.{
  no_event, final, cut_prefix, trim_one_leading_space, with_line, next, event, read_final_response,
  last_response, final_of,
}

abbrev found : Response
found = record { jsonrpc = "2.0"; result = some "{}"; error = none; id = some (int_id (pos 1)) }

abbrev decode : String → Option Response
decode s = if str_eq s "found" then some found else none

abbrev down : HttpReply
down = no_response "refused"

abbrev busy : HttpReply
busy = response 503 "" none

-- three failures in a row, and two after a client error
three_failures : (after decode "u" "t" (down ∷ busy ∷ down ∷ [])).healthy ≡ false
unfolding after
three_failures = refl

two_failures :
    (after decode "u" "t" (down ∷ busy ∷ response 404 "" none ∷ down ∷ [])).healthy ≡ true
unfolding after
two_failures = refl

after_exact_example :
    ((after decode "u" "t" (down ∷ busy ∷ down ∷ [])).healthy ≡ false)
    ↔ ThreeFailures (down ∷ busy ∷ down ∷ [])
after_exact_example = after_exact decode "u" "t" (down ∷ busy ∷ down ∷ [])

request_token_first : authorization (new_http_transport "u" "static") "own" ≡ "Bearer own"
unfolding authorization
request_token_first = refl

-- a message, an event of another type, and a comment
abbrev stream : List String
stream = ": hello" ∷ "event: ping" ∷ "data: found" ∷ "" ∷ "event: message" ∷ "data: found" ∷ "" ∷ []

final_found : read_final_response decode none 9 none stream ≡ final found
unfolding read_final_response next with_line cut_prefix trim_one_leading_space last_response
    final_of
final_found = refl

-- an empty first line of data is lost: the event stream format reads a newline and `b`
empty_line_lost :
    (next none no_event false ("data:" ∷ "data: b" ∷ "" ∷ [])).0
    ≡ event (record { event = ""; payload = "b" })
unfolding next with_line cut_prefix trim_one_leading_space
empty_line_lost = refl
