-- ===== src/Config/Validate/Common.antt =====
-- Lookups that the checks share, and toolPrefixPattern of internal/config/config.go.
use Prim.Native.Char.{code}
use stile.Prelude.{
  String, Bool, true, not, ◌&&◌, Option, none, some, List, [], ◌∷◌, any, str_eq, if◌then◌else◌,
}
use stile.Router.Names.{is_name_code}

abbrev pub member : String → List String → Bool
member s = any (λ x. str_eq x s)

-- m[key] of a map given by its bindings
unfoldable pub find {ℓ} : {V : Type ℓ} → String → List (String × V) → Option V
find key [] = none
find key ((k, v) ∷ m) = if str_eq k key then some v else find key m

unfoldable pub all_name_codes : String → Bool
all_name_codes String.[] = true
all_name_codes (String.◌∷◌ c s) = is_name_code (code c) && all_name_codes s

-- whether ^[a-zA-Z0-9_]+$ matches
unfoldable pub prefix_matches : String → Bool
unfolding all_name_codes
prefix_matches s = not (str_eq s "") && all_name_codes s
