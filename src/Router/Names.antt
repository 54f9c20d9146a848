-- ===== src/Router/Names.antt =====
-- Tool names: `applyPrefix`, `sanitizePrefix` and `resolvePrefix` of internal/router/router.go.
use Prim.Native.Char.{Char, code}
use Prim.Native.String.{◌++◌}
use text.Mathlib.TextLemmas.{append_cancel_left}
use stile.Prelude.{
  ℕ, String, ◌≡◌, refl, Bool, true, ◌&&◌, ◌||◌, Option, none, some, str_eq, leb, ◌==◌,
  if◌then◌else◌, Bool-cases, inl, inr,
}

unfoldable pub apply_prefix : String → String → String
apply_prefix prefix name = if str_eq prefix "" then name else prefix ++ ("__" ++ name)

-- [a-zA-Z0-9_]
pub is_name_code : ℕ → Bool
is_name_code c =
    (leb b'a' c && leb c b'z')
    || (leb b'A' c && leb c b'Z')
    || (leb b'0' c && leb c b'9')
    || c == b'_'

abbrev underscore : Char
underscore = "_"

unfoldable pub sanitize_prefix : String → String
unfolding is_name_code
sanitize_prefix String.[] = ""
sanitize_prefix (String.◌∷◌ c s) =
    String.◌∷◌ (if is_name_code (code c) then c else underscore) (sanitize_prefix s)

-- The effective prefix of a configured upstream, from its name and its `tool_prefix`.
unfoldable pub resolve_prefix : String → Option String → String
unfolding sanitize_prefix
resolve_prefix name none = sanitize_prefix name
resolve_prefix name (some tool_prefix) = tool_prefix

-- Every character is one of [a-zA-Z0-9_].
abbrev pub IsName : String → Type 0
IsName String.[] = Unit
IsName (String.◌∷◌ c s) = (is_name_code (code c) ≡ true) × IsName s

-- Two tools of one upstream with different names keep different names under its prefix.
pub apply_prefix_injective :
    (prefix a b : String) → apply_prefix prefix a ≡ apply_prefix prefix b → a ≡ b
unfolding apply_prefix
apply_prefix_injective prefix a b h = elim (Bool-cases (str_eq prefix "")) [
  | inl bare ↦ rw bare at h
  | inr p ↦
      append_cancel_left "__" a b (append_cancel_left prefix ("__" ++ a) ("__" ++ b) (rw p at h))
]

-- A sanitized name has no other characters, and a name that had none is left as it was.
pub sanitize_prefix-IsName : (s : String) → IsName (sanitize_prefix s)
unfolding sanitize_prefix is_name_code
sanitize_prefix-IsName String.[] = tt
sanitize_prefix-IsName (String.◌∷◌ c s) = (
  elim (Bool-cases (is_name_code (code c))) [ inl t ↦ rw t t | inr f ↦ rw f refl ],
  sanitize_prefix-IsName s,
)

pub sanitize_prefix_id : (s : String) → IsName s → sanitize_prefix s ≡ s
unfolding sanitize_prefix
sanitize_prefix_id String.[] h = refl
sanitize_prefix_id (String.◌∷◌ c s) h = rw (h.0, sanitize_prefix_id s h.1)
