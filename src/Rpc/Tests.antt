-- ===== src/Rpc/Tests.antt =====
-- Runs of the JSON-RPC code with a small codec, and the theorems at it.
use Prim.Native.Char.{code}
use stile.Prelude.{
  ℕ, zero, suc, ◌≡◌, ◌≢◌, ◌↔◌, refl, ap, arith, String, true, Option, none, some, List, [], ◌∷◌,
  str_eq, ◌==◌, if◌then◌else◌,
}
use stile.Prelude.Int.{ℤ, pos, negsuc}
use stile.Prelude.Dict
use stile.Prelude.Dict.{Dict, binding, no_bindings}
use stile.Rpc.{
  RequestId, int_id, null_id, Request, Error, Response, Codec, parse_id, messages, parse_message,
}
use stile.Rpc.RoundTrip.{
  Faithful, IsInt64, marshal_response, unmarshal_response, unmarshal_response-marshal_response,
}
use stile.Rpc.Exact.{texts_of, parse_message_exact}
use stile.Rpc.Valid.{AllReadAs}

-- A number is a letter for its sign and as many marks as it has units, a string has a letter in front.
abbrev marks : ℕ → String → String
marks zero rest = rest
marks (suc n) rest = String.◌∷◌ "x" (marks n rest)

abbrev number : ℤ → String → String
number (pos n) rest = String.◌∷◌ "p" (marks n rest)
number (negsuc n) rest = String.◌∷◌ "q" (marks n rest)

read_marks : String → ℕ × String
read_marks String.[] = (0, "")
read_marks (String.◌∷◌ c s) =
    let more : ℕ × String = let (n, rest) = read_marks s in (suc n, rest) in
    if code c == b'x' then more else (0, String.◌∷◌ c s)

read_number : String → Option (ℤ × String)
unfolding read_marks
read_number String.[] = none
read_number (String.◌∷◌ c s) =
    let (n, rest) = read_marks s in
    if code c == b'p'
    then some (pos n, rest)
    else if code c == b'q'
    then some (negsuc n, rest)
    else none

after_s : String → Option String
after_s String.[] = none
after_s (String.◌∷◌ c s) = if code c == b's' then some s else none

just_number : Option (ℤ × String) → Option ℤ
just_number none = none
just_number (some (n, rest)) = some n

with_message : ℤ → Option String → Option Error
with_message n none = none
with_message n (some m) = some (record { code = n; message = m; detail = none })

read_error : Option (ℤ × String) → Option Error
unfolding with_message after_s
read_error none = none
read_error (some (n, rest)) = with_message n (after_s rest)

abbrev ping : Dict String
ping = binding "jsonrpc" "s2.0" (binding "method" "sping" (binding "id" "pxx" no_bindings))

abbrev objects : String → Option (Dict String)
objects s = if str_eq s "ping" then some ping else none

abbrev codec : Codec
codec = record {
  unmarshal_object = objects;
  unmarshal_array = λ s. some ("ping" ∷ "ping" ∷ []);
  unmarshal_string = after_s;
  unmarshal_int = λ s. just_number (read_number s);
  unmarshal_error = λ s. read_error (read_number s);
  marshal_string = λ s. String.◌∷◌ "s" s;
  marshal_int = λ n. number n "";
  marshal_error = λ e. number e.code (String.◌∷◌ "s" e.message);
  compact = λ s. s;
}

read_marks-marks :
    (n : ℕ) (m : String) → read_marks (marks n (String.◌∷◌ "s" m)) ≡ (n, String.◌∷◌ "s" m)
unfolding read_marks
read_marks-marks zero m = refl
read_marks-marks (suc n) m = rw (read_marks-marks n m)

read_marks-marks_end : (n : ℕ) → read_marks (marks n "") ≡ (n, "")
unfolding read_marks
read_marks-marks_end zero = refl
read_marks-marks_end (suc n) = rw (read_marks-marks_end n)

number_no_string : (n : ℤ) → after_s (number n "") ≡ none
unfolding after_s
number_no_string (pos n) = refl
number_no_string (negsuc n) = refl

read_number-number : (n : ℤ) → just_number (read_number (number n "")) ≡ some n
unfolding read_number just_number
read_number-number (pos n) = rw (read_marks-marks_end n)
read_number-number (negsuc n) = rw (read_marks-marks_end n)

abbrev first_code : String → ℕ
first_code String.[] = 0
first_code (String.◌∷◌ c s) = code c

number_no_null : (n : ℤ) → number n "" ≢ "null"
number_no_null (pos n) = λ e. absurd (omega (arith, ap first_code e))
number_no_null (negsuc n) = λ e. absurd (omega (arith, ap first_code e))

read_error-number :
    (n : ℤ) (m : String)
    → read_error (read_number (number n (String.◌∷◌ "s" m)))
      ≡ some (record { code = n; message = m; detail = none })
unfolding read_error read_number
read_error-number (pos n) m = rw (read_marks-marks n m)
read_error-number (negsuc n) m = rw (read_marks-marks n m)

error_kept :
    (e : Error)
    → IsInt64 e.code
    → e.detail ≡ none
    → read_error (read_number (number e.code (String.◌∷◌ "s" e.message))) ≡ some e
error_kept e small plain = ground (arith, read_error-number e.code e.message)

codec-Faithful : Faithful codec
unfolding after_s
codec-Faithful = record {
  strings = λ s. refl;
  ints = λ n small. read_number-number n;
  int_no_string = number_no_string;
  string_no_null = λ s e. absurd (omega (arith, ap first_code e));
  int_no_null = number_no_null;
  errors = error_kept;
}

abbrev not_found : Response
not_found = record {
  jsonrpc = "2.0";
  result = none;
  error = some (record { code = negsuc 32600; message = "method not found"; detail = none });
  id = some (int_id (pos 7));
}

unmarshal_response-marshal_response_example :
    unmarshal_response codec (marshal_response codec not_found) ≡ some not_found
unmarshal_response-marshal_response_example =
    unmarshal_response-marshal_response codec codec-Faithful not_found (int_id (pos 7)) refl
      (omega arith) tt (omega arith, refl)

-- a nil ID is written as null, and read as an ID that is null
abbrev no_id : Option RequestId → Response
no_id i = record { jsonrpc = "2.0"; result = some "{}"; error = none; id = i }

nil_id_becomes_null :
    unmarshal_response codec (marshal_response codec (no_id none)) ≡ some (no_id (some null_id))
unfolding unmarshal_response marshal_response parse_id after_s
nil_id_becomes_null = refl

abbrev ping_request : Request
ping_request = record {
  jsonrpc = "2.0";
  method = "ping";
  params = none;
  id = some (int_id (pos 2));
}

abbrev batch_text : String
batch_text = " [ping, ping]"

batch_parses : parse_message codec batch_text ≡ (messages (ping_request ∷ ping_request ∷ []), true)
unfolding parse_message after_s just_number read_number Dict.get
batch_parses = refl

parse_message_exact_example :
    ((parse_message codec batch_text).0 ≡ messages (ping_request ∷ ping_request ∷ [])) ↔ (
      ((ping_request ∷ ping_request ∷ []) ≢ [])
      × (texts : List String) × (texts_of codec batch_text ≡ some texts)
      × AllReadAs codec texts (ping_request ∷ ping_request ∷ []))
parse_message_exact_example =
    parse_message_exact codec batch_text (ping_request ∷ ping_request ∷ [])
