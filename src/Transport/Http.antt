-- ===== src/Transport/Http.antt =====
-- `HTTPTransport` of internal/transport/http.go. What net/http answers is an argument, and a result is
-- what RoundTrip returns; the mutex makes each recording one step.
pub mod Healthy
use text.Mathlib.Text.{starts_with}
use Prim.Native.String.{◌++◌}
use stile.Prelude.{
  ℕ, ◌+◌, String, Bool, true, false, ◌||◌, Option, none, some, List, [], ◌∷◌, str_eq, ltb, leb,
  if◌then◌else◌,
}
use stile.Resilience.Retry.{Layer, connect_error, status_error, other_error}
use stile.Rpc.{Response}

pub record HttpTransport : Type 0 where
  pub url : String
  pub token : String
  pub consecutive_fails : ℕ
  pub fail_threshold : ℕ
  pub healthy : Bool

-- NewHTTPTransport, with the value of the environment variable that the auth section names
unfoldable pub new_http_transport : String → String → HttpTransport
new_http_transport url token = record {
  url = url;
  token = token;
  consecutive_fails = 0;
  fail_threshold = 3;
  healthy = true;
}

unfoldable pub record_failure : HttpTransport → HttpTransport
record_failure t =
    let fails = t.consecutive_fails + 1 in
    if leb t.fail_threshold fails
    then record t { consecutive_fails = fails; healthy = false }
    else record t { consecutive_fails = fails }

unfoldable pub record_success : HttpTransport → HttpTransport
record_success t = record t { consecutive_fails = 0; healthy = true }

-- What the client gives for a request: an error before any response, or a status with the media type
-- and the body, which is none where it cannot be read and has its number of bytes.
pub data HttpReply : Type 0 where
  no_response : String → HttpReply
  response : ℕ → String → Option (String × ℕ) → HttpReply

-- JSONResult, StreamResult, or the layers of an error
pub data RoundTripResult : Type 0 where
  json_result : Response → RoundTripResult
  stream_result : Option (String × ℕ) → RoundTripResult
  failed : List Layer → RoundTripResult

abbrev pub max_response_body : ℕ
max_response_body = 10485760

-- the header Authorization, empty where it is not set: a token of the request goes first
unfoldable pub authorization : HttpTransport → String → String
authorization t per_request =
    if str_eq per_request ""
    then if str_eq t.token "" then "" else "Bearer " ++ t.token
    else "Bearer " ++ per_request

decoded : Option Response → RoundTripResult
decoded none = failed (other_error "unmarshal response" ∷ [])
decoded (some resp) = json_result resp

json_body : (String → Option Response) → Option (String × ℕ) → RoundTripResult
unfolding decoded
json_body decode none = failed (other_error "read response body" ∷ [])
json_body decode (some (text, bytes)) =
    if ltb max_response_body bytes
    then failed (other_error "response body too large" ∷ [])
    else decoded (decode text)

-- a status outside 200 to 299
is_error_status : ℕ → Bool
is_error_status status = ltb status 200 || leb 300 status

of_status : HttpTransport → ℕ → HttpTransport
unfolding record_failure record_success
of_status t status = if leb 500 status then record_failure t else record_success t

of_content : (String → Option Response) → String → Option (String × ℕ) → RoundTripResult
unfolding json_body
of_content decode content_type body =
    if starts_with content_type "text/event-stream"
    then stream_result body
    else json_body decode body

-- RoundTrip after the request was built, with json.Unmarshal into a response
unfoldable pub round_trip :
    (String → Option Response) → HttpTransport → HttpReply → HttpTransport × RoundTripResult
unfolding of_status of_content is_error_status record_failure record_success
round_trip decode t (no_response why) =
    (record_failure t, failed (connect_error ∷ other_error why ∷ []))
round_trip decode t (response status content_type body) =
    if is_error_status status
    then (of_status t status, failed (status_error status ∷ []))
    else (record_success t, of_content decode content_type body)
