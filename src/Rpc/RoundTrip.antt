-- ===== src/Rpc/RoundTrip.antt =====
-- Response.MarshalJSON and UnmarshalJSON of internal/jsonrpc/jsonrpc.go, on the fields of an object:
-- encoding/json writes and reads the object itself.
use stile.Prelude.{
  ◌<◌, ◌^◌, ◌≡◌, ◌≢◌, refl, ap, ◌∙◌, String, false, Option, none, some, arith, str_eq, eq_iff,
  if◌then◌else◌,
}
use stile.Prelude.Int.{ℤ, pos, negsuc}
use stile.Prelude.Dict
use stile.Prelude.Dict.{Dict, dict_laws, get-put, get-empty}
use stile.Rpc.Valid.{ne-str_eq}
use stile.Rpc.{RequestId, string_id, int_id, null_id, Error, Response, Codec, parse_id}

abbrev pub IsInt64 : ℤ → Type 0
IsInt64 (pos n) = n < 2 ^ 63
IsInt64 (negsuc n) = n < 2 ^ 63

-- encoding/json reads what it wrote: strings, int64 values, errors without data. A number is no
-- string, and neither is null.
pub record Faithful (c : Codec) : Type 0 where
  pub strings : (s : String) → c.unmarshal_string (c.marshal_string s) ≡ some s
  pub ints : (n : ℤ) → IsInt64 n → c.unmarshal_int (c.marshal_int n) ≡ some n
  pub int_no_string : (n : ℤ) → c.unmarshal_string (c.marshal_int n) ≡ none
  pub string_no_null : (s : String) → c.marshal_string s ≢ "null"
  pub int_no_null : (n : ℤ) → c.marshal_int n ≢ "null"
  pub errors :
      (e : Error)
      → IsInt64 e.code
      → e.detail ≡ none
      → c.unmarshal_error (c.marshal_error e) ≡ some e

abbrev pub IdIsInt64 : RequestId → Type 0
IdIsInt64 (string_id s) = Unit
IdIsInt64 (int_id n) = IsInt64 n
IdIsInt64 null_id = Unit

-- no error, or one without data
abbrev pub ErrorIsPlain : Option Error → Type 0
ErrorIsPlain none = Unit
ErrorIsPlain (some e) = IsInt64 e.code × (e.detail ≡ none)

-- no result, or one with text in the compact form
abbrev pub ResultIsCompact : Codec → Option String → Type 0
ResultIsCompact c none = Unit
ResultIsCompact c (some text) = (text ≢ "") × (c.compact text ≡ text)

module _ (c : Codec) where
  -- marshalID; a nil ID is written as null
  unfoldable pub marshal_id : Option RequestId → String
  marshal_id none = "null"
  marshal_id (some null_id) = "null"
  marshal_id (some (string_id s)) = c.marshal_string s
  marshal_id (some (int_id n)) = c.marshal_int n

  -- omitempty leaves out what is nil or has no bytes
  put_result : Option String → Dict String → Dict String
  put_result none raw = raw
  put_result (some text) raw =
      if str_eq text "" then raw else Dict.put raw "result" (c.compact text)

  put_error : Option Error → Dict String → Dict String
  put_error none raw = raw
  put_error (some e) raw = Dict.put raw "error" (c.marshal_error e)

  unfoldable pub marshal_response : Response → Dict String
  unfolding put_result put_error marshal_id Dict.put Dict.empty
  marshal_response r =
      Dict.put
        (put_error r.error
          (put_result r.result (Dict.put Dict.empty "jsonrpc" (c.marshal_string r.jsonrpc))))
        "id" (marshal_id r.id)

  -- a field that is absent leaves its zero value, and one that cannot be read is an error
  read_version : Option String → Option String
  read_version none = some ""
  read_version (some text) = c.unmarshal_string text

  some_error : Option Error → Option (Option Error)
  some_error none = none
  some_error (some e) = some (some e)

  read_error : Option String → Option (Option Error)
  unfolding some_error
  read_error none = some none
  read_error (some text) = some_error (c.unmarshal_error text)

  some_id : Option RequestId → Option (Option RequestId)
  some_id none = none
  some_id (some i) = some (some i)

  read_id : Option String → Option (Option RequestId)
  unfolding some_id parse_id
  read_id none = some none
  read_id (some text) = some_id (parse_id c text)

  read_all :
      Option String
      → Option String
      → Option (Option Error)
      → Option (Option RequestId)
      → Option Response
  read_all (some v) result (some e) (some i) =
      some (record { jsonrpc = v; result = result; error = e; id = i })
  read_all none result e i = none
  read_all (some v) result none i = none
  read_all (some v) result (some e) none = none

  unfoldable pub unmarshal_response : Dict String → Option Response
  unfolding read_version read_error read_id read_all Dict.get
  unmarshal_response raw =
      read_all (read_version (Dict.get raw "jsonrpc")) (Dict.get raw "result")
        (read_error (Dict.get raw "error")) (read_id (Dict.get raw "id"))

  module _ (f : Faithful c) where
    parse_id-marshal_id : (i : RequestId) → IdIsInt64 i → parse_id c (marshal_id (some i)) ≡ some i
    unfolding parse_id marshal_id
    parse_id-marshal_id null_id h = refl
    parse_id-marshal_id (string_id s) h = rw (ne-str_eq _ _ (f.string_no_null s), f.strings s)
    parse_id-marshal_id (int_id n) h =
        rw (ne-str_eq _ _ (f.int_no_null n), f.int_no_string n, f.ints n h)

    read_error-put_error :
        (e : Option Error) (raw : Dict String)
        → ErrorIsPlain e
        → Dict.get raw "error" ≡ none
        → read_error (Dict.get (put_error e raw) "error") ≡ some e
    unfolding read_error put_error
    read_error-put_error none raw plain h = rw h
    read_error-put_error (some e) raw plain h =
        rw (get-put raw "error" "error" (c.marshal_error e), f.errors e plain.0 plain.1)

    get-put_error :
        (e : Option Error) (raw : Dict String) (key : String)
        → str_eq "error" key ≡ false
        → Dict.get (put_error e raw) key ≡ Dict.get raw key
    unfolding put_error
    get-put_error none raw key h = refl
    get-put_error (some e) raw key h = rw (get-put raw "error" key (c.marshal_error e), h)

    get-put_result :
        (o : Option String) (raw : Dict String) (key : String)
        → str_eq "result" key ≡ false
        → Dict.get (put_result o raw) key ≡ Dict.get raw key
    unfolding put_result
    get-put_result none raw key h = refl
    get-put_result (some text) raw key h = ground (arith, get-put raw "result" key (c.compact text))

    result_kept :
        (o : Option String) (raw : Dict String)
        → ResultIsCompact c o
        → Dict.get raw "result" ≡ none
        → Dict.get (put_result o raw) "result" ≡ o
    unfolding put_result
    result_kept none raw compact h = h
    result_kept (some text) raw compact h =
        ground (arith, eq_iff text "", get-put raw "result" "result" (c.compact text))

    module _ (r : Response) where
      base : Dict String
      base = Dict.put Dict.empty "jsonrpc" (c.marshal_string r.jsonrpc)

      jsonrpc_field : Dict.get (marshal_response r) "jsonrpc" ≡ some (c.marshal_string r.jsonrpc)
      unfolding marshal_response base
      jsonrpc_field =
          get-put (put_error r.error (put_result r.result base)) "id" "jsonrpc" (marshal_id r.id)
          ∙ get-put_error r.error (put_result r.result base) "jsonrpc" refl
          ∙ get-put_result r.result base "jsonrpc" refl
          ∙ get-put Dict.empty "jsonrpc" "jsonrpc" (c.marshal_string r.jsonrpc)

      result_field : ResultIsCompact c r.result → Dict.get (marshal_response r) "result" ≡ r.result
      unfolding marshal_response base
      result_field h =
          get-put (put_error r.error (put_result r.result base)) "id" "result" (marshal_id r.id)
          ∙ get-put_error r.error (put_result r.result base) "result" refl
          ∙ result_kept r.result base h (
              get-put Dict.empty "jsonrpc" "result" (c.marshal_string r.jsonrpc)
              ∙ get-empty "result")

      error_field :
          ErrorIsPlain r.error → read_error (Dict.get (marshal_response r) "error") ≡ some r.error
      unfolding marshal_response base
      error_field plain =
          ap read_error
            (get-put (put_error r.error (put_result r.result base)) "id" "error" (marshal_id r.id))
          ∙ read_error-put_error r.error (put_result r.result base) plain (
              get-put_result r.result base "error" refl
              ∙ get-put Dict.empty "jsonrpc" "error" (c.marshal_string r.jsonrpc)
              ∙ get-empty "error")

      id_field : Dict.get (marshal_response r) "id" ≡ some (marshal_id r.id)
      unfolding marshal_response base
      id_field = get-put (put_error r.error (put_result r.result base)) "id" "id" (marshal_id r.id)

      -- A response with an id, no result or one in compact form, and no error or one without data,
      -- is read back as it was written.
      pub unmarshal_response-marshal_response :
          (i : RequestId)
          → r.id ≡ some i
          → IdIsInt64 i
          → ResultIsCompact c r.result
          → ErrorIsPlain r.error
          → unmarshal_response (marshal_response r) ≡ some r
      unfolding unmarshal_response
      unmarshal_response-marshal_response i with_i small compact plain =
          let v : read_version (Dict.get (marshal_response r) "jsonrpc") ≡ some r.jsonrpc =
            rw jsonrpc_field (f.strings r.jsonrpc) in
          let id : read_id (Dict.get (marshal_response r) "id") ≡ some r.id =
            rw (id_field, with_i) (ap some_id (parse_id-marshal_id i small)) in
          rw (v, error_field plain, id, result_field compact)
