-- ===== src/Rpc.antt =====
-- internal/jsonrpc/jsonrpc.go: JSON-RPC 2.0 requests and responses. A json.RawMessage is its text, and
-- encoding/json is a record of functions, `Codec`.
pub mod Valid
pub mod Exact
pub mod RoundTrip
mod Tests
use Prim.Native.Char.{code}
use stile.Prelude.{
  ℕ, String, Bool, true, false, ◌||◌, not, Option, none, some, List, [], ◌∷◌, str_eq, ◌==◌,
  if◌then◌else◌, is_some,
}
use stile.Prelude.Int.{ℤ, negsuc}
use stile.Prelude.Dict
use stile.Prelude.Dict.{Dict}

-- the error codes: `negsuc n` is -(n + 1)
abbrev pub parse_error : ℤ
parse_error = negsuc 32699

abbrev pub invalid_request : ℤ
invalid_request = negsuc 32599

abbrev pub method_not_found : ℤ
method_not_found = negsuc 32600

abbrev pub invalid_params : ℤ
invalid_params = negsuc 32601

abbrev pub internal_error : ℤ
internal_error = negsuc 32602

abbrev pub version : String
version = "2.0"

-- StringID, IntID and NullID; a nil ID is none
pub data RequestId : Type 0 where
  string_id : String → RequestId
  int_id : ℤ → RequestId
  null_id : RequestId

pub record Request : Type 0 where
  pub jsonrpc : String
  pub method : String
  pub params : Option String
  pub id : Option RequestId

pub record Error : Type 0 where
  pub code : ℤ
  pub message : String
  pub detail : Option String

pub record Response : Type 0 where
  pub jsonrpc : String
  pub result : Option String
  pub error : Option Error
  pub id : Option RequestId

-- json.Unmarshal into a map of raw messages, a list of raw messages, a string, an int64 and an Error,
-- json.Marshal of the last three, and the compact form in which it writes a raw message. `null` is
-- read as an empty map, list or string.
pub record Codec : Type 0 where
  pub unmarshal_object : String → Option (Dict String)
  pub unmarshal_array : String → Option (List String)
  pub unmarshal_string : String → Option String
  pub unmarshal_int : String → Option ℤ
  pub unmarshal_error : String → Option Error
  pub marshal_string : String → String
  pub marshal_int : ℤ → String
  pub marshal_error : Error → String
  pub compact : String → String

unfoldable pub is_notification : Request → Bool
is_notification r = not (is_some r.id)

abbrev rpc_error : ℤ → String → Error
rpc_error c message = record { code = c; message = message; detail = none }

-- NewErrorResponse
unfoldable pub new_error_response : Option RequestId → ℤ → String → Response
new_error_response id c message = record {
  jsonrpc = version;
  result = none;
  error = some (rpc_error c message);
  id = id;
}

-- NewResponse, where json.Marshal gives the text of the result or an error
unfoldable pub new_response : Option RequestId → Option String → Option Response
new_response id none = none
new_response id (some text) =
    some (record { jsonrpc = version; result = some text; error = none; id = id })

-- a request, or the error of a message
pub data Parsed : Type 0 where
  request : Request → Parsed
  invalid : Error → Parsed

-- what ParseMessage returns beside whether it is a batch
pub data Messages : Type 0 where
  messages : List Request → Messages
  unparsed : Error → Messages

module _ (c : Codec) where
  id_of_number : Option ℤ → Option RequestId
  id_of_number none = none
  id_of_number (some n) = some (int_id n)

  id_of_text : String → Option String → Option RequestId
  unfolding id_of_number
  id_of_text text none = id_of_number (c.unmarshal_int text)
  id_of_text text (some s) = some (string_id s)

  unfoldable pub parse_id : String → Option RequestId
  unfolding id_of_text
  parse_id text =
      if str_eq text "null" then some null_id else id_of_text text (c.unmarshal_string text)

  set_id : Request → Option RequestId → Parsed
  set_id r none = invalid (rpc_error invalid_request "invalid id field")
  set_id r (some id) = request (record r { id = some id })

  -- the id field: absent, or parsed
  with_id : Request → Option String → Parsed
  unfolding set_id parse_id
  with_id r none = request r
  with_id r (some text) = set_id r (parse_id text)

  with_method : Dict String → Option String → Parsed
  unfolding with_id Dict.get
  with_method raw none = invalid (rpc_error invalid_request "method must be a non-empty string")
  with_method raw (some method) =
      if str_eq method ""
      then invalid (rpc_error invalid_request "method must be a non-empty string")
      else with_id
          (record { jsonrpc = version; method = method; params = Dict.get raw "params"; id = none })
          (Dict.get raw "id")

  method_field : Dict String → Option String → Parsed
  unfolding with_method
  method_field raw none = invalid (rpc_error invalid_request "missing method field")
  method_field raw (some text) = with_method raw (c.unmarshal_string text)

  with_version : Dict String → Option String → Parsed
  unfolding method_field Dict.get
  with_version raw none = invalid (rpc_error invalid_request "jsonrpc must be \"2.0\"")
  with_version raw (some v) =
      if str_eq v version
      then method_field raw (Dict.get raw "method")
      else invalid (rpc_error invalid_request "jsonrpc must be \"2.0\"")

  version_field : Dict String → Option String → Parsed
  unfolding with_version
  version_field raw none = invalid (rpc_error invalid_request "missing jsonrpc field")
  version_field raw (some text) = with_version raw (c.unmarshal_string text)

  with_object : Option (Dict String) → Parsed
  unfolding version_field Dict.get
  with_object none = invalid (rpc_error parse_error "invalid JSON")
  with_object (some raw) = version_field raw (Dict.get raw "jsonrpc")

  unfoldable pub parse_one_request : String → Parsed
  unfolding with_object
  parse_one_request text = with_object (c.unmarshal_object text)

  -- the loop of parseBatch: the first error ends it
  and_then : Parsed → Messages → Messages
  and_then (invalid e) rest = unparsed e
  and_then (request r) (unparsed e) = unparsed e
  and_then (request r) (messages rs) = messages (r ∷ rs)

  unfoldable pub parse_all : List String → Messages
  unfolding and_then parse_one_request
  parse_all [] = messages []
  parse_all (text ∷ texts) = and_then (parse_one_request text) (parse_all texts)

  of_array : Option (List String) → Messages
  unfolding parse_all
  of_array none = unparsed (rpc_error parse_error "invalid JSON")
  of_array (some []) = unparsed (rpc_error invalid_request "empty batch")
  of_array (some (text ∷ texts)) = parse_all (text ∷ texts)

  single : Parsed → Messages
  single (invalid e) = unparsed e
  single (request r) = messages (r ∷ [])

  -- whether the first byte that is no white space is `[`
  unfoldable pub is_batch : String → Bool
  is_batch String.[] = false
  is_batch (String.◌∷◌ b text) =
      let later = is_batch text in
      if code b == b' ' || code b == b'\t' || code b == b'\n' || code b == b'\r'
      then later
      else code b == b'['

  unfoldable pub parse_message : String → Messages × Bool
  unfolding is_batch of_array single parse_one_request
  parse_message text =
      if is_batch text
      then (of_array (c.unmarshal_array text), true)
      else (single (parse_one_request text), false)
