-- ===== src/Auth/Admin.antt =====
-- `AdminAuthMiddleware` of internal/auth/auth.go: who gets through to the admin endpoints.
use text.Mathlib.Text.{starts_with}
use stile.Prelude.{
  ℕ, String, ◌≡◌, ◌↔◌, ◌⊎◌, Bool, true, false, not, ◌&&◌, ◌||◌, Option, none, some, List, [], ◌∷◌,
  arith, str_eq, eq_iff, ◌==◌, if◌then◌else◌,
}
use stile.Auth.Authenticate.{bearer, bearer_token}

-- a SHA-256 sum as its bytes, and subtle.ConstantTimeCompare, which is 1 on equal contents
abbrev pub Hash : Type 0
Hash = List ℕ

unfoldable pub same_hash : Hash → Hash → Bool
same_hash [] [] = true
same_hash (x ∷ xs) (y ∷ ys) = x == y && same_hash xs ys
same_hash _ _ = false

same_hash_iff : (a b : Hash) → (same_hash a b ≡ true) ↔ (a ≡ b)
unfolding same_hash
same_hash_iff [] [] = ground arith
same_hash_iff [] (y ∷ ys) = ground arith
same_hash_iff (x ∷ xs) [] = ground arith
same_hash_iff (x ∷ xs) (y ∷ ys) = ground (arith, same_hash_iff xs ys)

-- What the middleware does with a request.
pub data Gate : Type 0 where
  next forbidden redirect_to_login : Gate

-- Of the request, its path, the value of its header Authorization, and what the session check says
-- of it, where there is one.
pub record AdminRequest : Type 0 where
  pub path : String
  pub authorization : String
  pub session : Option Bool

pub record AdminAuth : Type 0 where
  pub admin_key_hash : Hash
  pub dev_mode : Bool

module _ (sha256 : String → Hash) (zero_hash : Hash) where
  unfoldable pub has_admin_key : AdminAuth → Bool
  has_admin_key a = not (same_hash a.admin_key_hash zero_hash)

  session_ok : Option Bool → Bool
  session_ok none = false
  session_ok (some ok) = ok

  is_login_route : String → Bool
  is_login_route path = str_eq path "/admin/ui/login" || str_eq path "/admin/ui/logout"

  has_key : AdminAuth → String → Bool
  has_key a header =
      starts_with header bearer && same_hash (sha256 (bearer_token header)) a.admin_key_hash

  unfoldable pub admin_gate : AdminAuth → AdminRequest → Gate
  unfolding has_admin_key session_ok is_login_route has_key
  admin_gate a r =
      if is_login_route r.path
      then next
      else if not (has_admin_key a)
      then (if not a.dev_mode then forbidden else next)
      else if has_key a r.authorization
      then next
      else if session_ok r.session
      then next
      else if starts_with r.path "/admin/ui/"
      then redirect_to_login
      else forbidden

  -- Why a request may pass.
  abbrev pub MayPass : AdminAuth → AdminRequest → Type 0
  MayPass a r =
      (r.path ≡ "/admin/ui/login")
      ⊎ (r.path ≡ "/admin/ui/logout")
      ⊎ ((a.admin_key_hash ≡ zero_hash) × (a.dev_mode ≡ true))
      ⊎ ((a.admin_key_hash ≡ zero_hash → ⊥)
          × (((starts_with r.authorization bearer ≡ true)
                × (sha256 (bearer_token r.authorization) ≡ a.admin_key_hash))
              ⊎ (r.session ≡ some true)))

  -- A request passes exactly when it is for the login or logout route, or no admin key is set and the
  -- server is in development mode, or an admin key is set and the request carries it as a bearer token
  -- or has a session that checks.
  pub admin_gate_exact : (a : AdminAuth) (r : AdminRequest) → (admin_gate a r ≡ next) ↔ MayPass a r
  unfolding admin_gate
  admin_gate_exact a r = ground (
    arith,
    eq_iff r.path "/admin/ui/login",
    eq_iff r.path "/admin/ui/logout",
    same_hash_iff a.admin_key_hash zero_hash,
    same_hash_iff (sha256 (bearer_token r.authorization)) a.admin_key_hash,
  )
