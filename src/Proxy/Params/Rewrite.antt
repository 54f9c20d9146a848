-- ===== src/Proxy/Params/Rewrite.antt =====
-- What a reader finds in rewritten parameters.
use stile.Prelude.{
  String, ◌≡◌, ◌≢◌, refl, none, some, List, [], ◌∷◌, arith, str_eq, eq_iff, if◌then◌else◌, or_else,
}
use stile.Proxy.Params.{
  Json, text, Params, malformed, object, field, drop_key, insert, set_field, to_map,
  rewrite_tool_name, param,
}

field-insert :
    (k key : String) (v : Json) (fields : List (String × Json))
    → field k fields ≡ none
    → field key (insert k v fields) ≡ (if str_eq k key then some v else field key fields)
unfolding field insert
field-insert k key v [] h = ground arith
field-insert k key v ((k', w) ∷ fields) h =
    ground (arith, field-insert k key v fields, eq_iff k key, eq_iff k' key, eq_iff k' k)

field-drop_key :
    (k key : String) (fields : List (String × Json))
    → field key (drop_key k fields) ≡ (if str_eq k key then none else field key fields)
unfolding field drop_key
field-drop_key k key [] = ground arith
field-drop_key k key ((k', w) ∷ fields) =
    ground (arith, field-drop_key k key fields, eq_iff k key, eq_iff k' key, eq_iff k' k)

field-set_field :
    (k key : String) (v : Json) (fields : List (String × Json))
    → field key (set_field k v fields) ≡ (if str_eq k key then some v else field key fields)
unfolding set_field
field-set_field k key v fields = ground (
  arith,
  field-insert k key v (drop_key k fields),
  field-drop_key k k fields,
  field-drop_key k key fields,
  eq_iff k k,
)

field-to_map :
    (key : String) (fields m : List (String × Json))
    → field key (to_map fields m) ≡ or_else (field key fields) (field key m)
unfolding to_map field
field-to_map key [] m = refl
field-to_map key ((k, v) ∷ fields) m =
    ground (arith, field-to_map key fields (set_field k v m), field-set_field k key v m)

-- In rewritten parameters that are an object, a reader that takes keys exactly finds the tool's
-- original name under "name", and under every other key what the map of the fields had there.
pub param-rewrite_tool_name :
    (original key : String) (p : Params)
    → p ≢ malformed
    → param key (rewrite_tool_name original p)
      ≡ (if str_eq "name" key then some (text original) else param key p)
unfolding param rewrite_tool_name field
param-rewrite_tool_name original key malformed h = absurd (h refl)
param-rewrite_tool_name original key (object fields) h = ground (
  arith,
  field-set_field "name" key (text original) (to_map fields []),
  field-to_map key fields [],
)
