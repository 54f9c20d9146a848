-- ===== src/Proxy/Params.antt =====
-- The parameters of tools/call in internal/proxy/proxy.go, as encoding/json reads and writes them: an
-- object is the list of its fields in the order of the text, and what is no object is `malformed`.
pub mod Rewrite
use Prim.Native.Char.{Char, code}
use Prim.Native.String.{compare}
use package.text.Mathlib.Text.{is_lt}
use stile.Prelude.{
  ℕ, ◌+◌, String, Bool, true, false, not, ◌&&◌, ◌||◌, Option, none, some, List, [], ◌∷◌, ◌==◌, leb,
  str_eq, if◌then◌else◌, or_else,
}

-- a value: a string, null, or any other with its text
pub data Json : Type 0 where
  text : String → Json
  null : Json
  other : String → Json

pub data Params : Type 0 where
  malformed : Params
  object : List (String × Json) → Params

-- a letter of the key, where the field's name has the code `c` in lower case
same_letter : Char → ℕ → Bool
same_letter k c = code k == c || (leb b'A' (code k) && leb (code k) b'Z' && code k + 32 == c)

-- strings.EqualFold with a name in lower case, by which encoding/json finds the field of a key
folds_to : String → String → Bool
unfolding same_letter
folds_to String.[] String.[] = true
folds_to (String.◌∷◌ k ks) (String.◌∷◌ c cs) = same_letter k (code c) && folds_to ks cs
folds_to _ _ = false

read_field : Json → String → Option String → Option String
read_field (text s) name rest = rest
read_field null name rest = rest
read_field (other v) name rest = none

next_name : Json → String → String
next_name (text s) name = s
next_name null name = name
next_name (other v) name = name

-- the last field whose key folds to "name"; a value that is no text is an error
unfoldable pub read_name : List (String × Json) → String → Option String
unfolding folds_to read_field next_name
read_name [] name = some name
read_name ((key, v) ∷ fields) name =
    let after = read_name fields (next_name v name) in
    let skipped = read_name fields name in
    if folds_to key "name" then read_field v name after else skipped

non_empty : Option String → Option String
non_empty none = none
non_empty (some name) = if str_eq name "" then none else some name

-- params.Name, where it is there and not empty
unfoldable pub tool_name : Params → Option String
unfolding read_name non_empty
tool_name malformed = none
tool_name (object fields) = non_empty (read_name fields "")

-- the order of bytes
abbrev is_below : String → String → Bool
is_below k key = is_lt (compare k key)

-- the value that a map of the fields has under this very key: that of the last such field
unfoldable pub field : String → List (String × Json) → Option Json
field key [] = none
field key ((k, v) ∷ fields) =
    let later = field key fields in or_else later (if str_eq k key then some v else none)

drop_key : String → List (String × Json) → List (String × Json)
drop_key key [] = []
drop_key key ((k, v) ∷ fields) =
    let rest = drop_key key fields in if str_eq k key then rest else (k, v) ∷ rest

-- before the first key that is not below this one
insert : String → Json → List (String × Json) → List (String × Json)
insert key v [] = (key, v) ∷ []
insert key v ((k, w) ∷ fields) =
    let rest = insert key v fields in
    if is_below k key then (k, w) ∷ rest else (key, v) ∷ (k, w) ∷ fields

-- m[key] = v, on a map that is written with its keys in order
set_field : String → Json → List (String × Json) → List (String × Json)
unfolding insert drop_key
set_field key v fields = insert key v (drop_key key fields)

-- map[string]json.RawMessage by json.Unmarshal, with the keys in the order of json.Marshal
to_map : List (String × Json) → List (String × Json) → List (String × Json)
unfolding set_field
to_map [] m = m
to_map ((k, v) ∷ fields) m = to_map fields (set_field k v m)

-- rewriteToolName, on the parameters
unfoldable pub rewrite_tool_name : String → Params → Params
unfolding to_map set_field
rewrite_tool_name original malformed = malformed
rewrite_tool_name original (object fields) =
    object (set_field "name" (text original) (to_map fields []))

-- what a reader of the parameters that takes keys exactly finds under a key
unfoldable pub param : String → Params → Option Json
unfolding field
param key malformed = none
param key (object fields) = field key fields
