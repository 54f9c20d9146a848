-- ===== src/Oauth/Tokens.antt =====
-- internal/auth/tokenstore.go, its SQLite store: the table user_oauth_tokens as a list of rows, and each
-- statement as a function on it. Times are nanoseconds. The columns created_at and updated_at are
-- read nowhere and left out.
use stile.Prelude.{
  ℕ, ◌+◌, ◌≡◌, arith, String, Bool, false, ◌&&◌, Option, none, some, List, [], ◌∷◌, str_eq, eq_iff,
  ltb, if◌then◌else◌, is_some,
}

-- `expiry` is none for the zero time.
pub record OauthToken : Type 0 where
  pub access_token : String
  pub refresh_token : String
  pub token_type : String
  pub expiry : Option ℕ
  pub scopes : String

expired_at : ℕ → Option ℕ → Bool
expired_at now none = false
expired_at now (some expiry) = ltb expiry (now + 30000000000)

-- OAuthToken.Expired: from 30 seconds before its expiry
unfoldable pub expired : ℕ → OauthToken → Bool
unfolding expired_at
expired now t = expired_at now t.expiry

pub record TokenRow : Type 0 where
  pub user_name : String
  pub provider : String
  pub token : OauthToken

abbrev pub Tokens : Type 0
Tokens = List TokenRow

unfoldable pub at : String → String → TokenRow → Bool
at user provider row = str_eq row.user_name user && str_eq row.provider provider

-- GetToken
unfoldable pub get_token : Tokens → String → String → Option OauthToken
unfolding at
get_token [] user provider = none
get_token (row ∷ rows) user provider =
    if at user provider row then some row.token else get_token rows user provider

-- StoreToken: an insertion, or an update on the conflict of the primary key
unfoldable pub store_token : Tokens → String → String → OauthToken → Tokens
unfolding at
store_token [] user provider token =
    record { user_name = user; provider = provider; token = token } ∷ []
store_token (row ∷ rows) user provider token =
    let rest = store_token rows user provider token in
    if at user provider row then record row { token = token } ∷ rows else row ∷ rest

without : Tokens → String → String → Tokens
unfolding at
without [] user provider = []
without (row ∷ rows) user provider =
    let rest = without rows user provider in if at user provider row then rest else row ∷ rest

-- DeleteToken: the rows, and whether one was there
unfoldable pub delete_token : Tokens → String → String → Tokens × Bool
unfolding without get_token
delete_token rows user provider =
    (without rows user provider, is_some (get_token rows user provider))

-- a token is kept under its caller and provider, and under no other
pub get_token-store_token :
    (rows : Tokens) (user provider : String) (token : OauthToken) (u p : String)
    → get_token (store_token rows user provider token) u p
      ≡ (if str_eq user u && str_eq provider p then some token else get_token rows u p)
unfolding get_token store_token at
get_token-store_token [] user provider token u p = ground arith
get_token-store_token (row ∷ rows) user provider token u p = ground (
  arith,
  get_token-store_token rows user provider token u p,
  eq_iff row.user_name user,
  eq_iff row.user_name u,
  eq_iff user u,
  eq_iff row.provider provider,
  eq_iff row.provider p,
  eq_iff provider p,
)

pub get_token-delete_token :
    (rows : Tokens) (user provider : String) (u p : String)
    → get_token (delete_token rows user provider).0 u p
      ≡ (if str_eq user u && str_eq provider p then none else get_token rows u p)
unfolding get_token delete_token without at
get_token-delete_token [] user provider u p = ground arith
get_token-delete_token (row ∷ rows) user provider u p = ground (
  arith,
  get_token-delete_token rows user provider u p,
  eq_iff row.user_name user,
  eq_iff row.user_name u,
  eq_iff user u,
  eq_iff row.provider provider,
  eq_iff row.provider p,
  eq_iff provider p,
)
