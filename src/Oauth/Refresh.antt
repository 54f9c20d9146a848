-- ===== src/Oauth/Refresh.antt =====
-- internal/auth/oauth_refresh.go, and `exchangeCode` of internal/auth/oauth_handler.go. `getenv` is
-- os.Getenv, and `endpoint` the POST of a form to a token URL: what the answer decodes to, or none
-- where the request fails, its status is not 200, or it is not JSON.
use stile.Prelude.{
  ℕ, ◌+◌, ◌*◌, ◌-◌, ◌%◌, ◌^◌, ◌++◌, String, ◌||◌, Option, none, some, List, [], ◌∷◌, str_eq, ltb,
  if◌then◌else◌,
}
use stile.Prelude.Int.{ℤ, pos, negsuc}
use stile.Config.Values.{OauthProviderConfig}
use stile.Oauth.Tokens.{OauthToken}

-- tokenResponse
pub record TokenResponse : Type 0 where
  pub access_token : String
  pub token_type : String
  pub expires_in : ℤ
  pub refresh_token : String
  pub scope : String

-- providerInfo of the handler, and the entries of `providers` and `secrets` of the refresher
pub record ProviderInfo : Type 0 where
  pub config : OauthProviderConfig
  pub client_id : String
  pub client_secret : String

pub data OauthError : Type 0 where
  unknown_provider missing_credentials no_refresh_token request_failed : OauthError
  missing_access_token : OauthError

pub data Granting : Type 0 where
  granted : OauthToken → Granting
  failed : OauthError → Granting

abbrev pub Form : Type 0
Form = List (String × String)

-- now.Add of a time.Duration of 64 bits; a time before 0 is 0
unfoldable pub add_duration : ℕ → ℕ → ℕ
add_duration now d = if ltb d (2 ^ 63) then now + d else (now - (2 ^ 64 - d))

-- time.Duration(ExpiresIn) * time.Second, which wraps around, where ExpiresIn > 0
unfoldable pub expiry_of : ℕ → ℤ → Option ℕ
unfolding add_duration
expiry_of now (negsuc n) = none
expiry_of now (pos n) =
    if ltb 0 n then some (add_duration now ((n * 1000000000) % 2 ^ 64)) else none

-- value, or the default where it is empty
or_default : String → String → String
or_default value default = if str_eq value "" then default else value

unfoldable pub token_of : ℕ → TokenResponse → OauthToken
unfolding or_default expiry_of
token_of now r = record {
  access_token = r.access_token;
  refresh_token = r.refresh_token;
  token_type = or_default r.token_type "Bearer";
  expiry = expiry_of now r.expires_in;
  scopes = r.scope;
}

-- Keep the old refresh token if the provider didn't issue a new one.
unfoldable pub refreshed_of : ℕ → String → TokenResponse → OauthToken
unfolding token_of or_default
refreshed_of now old r = record (token_of now r) { refresh_token = or_default r.refresh_token old }

unfoldable pub find_info : String → List ProviderInfo → Option ProviderInfo
find_info name [] = none
find_info name (p ∷ ps) = if str_eq p.config.name name then some p else find_info name ps

module _ (getenv : String → String) where
  named_env : String → String
  named_env name = if str_eq name "" then "" else getenv name

  -- resolveOAuthSecrets
  unfoldable pub resolve_oauth_secrets : OauthProviderConfig → ProviderInfo
  unfolding named_env
  resolve_oauth_secrets p = record {
    config = p;
    client_id = named_env p.client_id_env;
    client_secret = named_env p.client_secret_env;
  }

  -- NewTokenRefresher: the maps by name hold the last provider of a name
  unfoldable pub new_token_refresher : List OauthProviderConfig → List ProviderInfo
  unfolding resolve_oauth_secrets
  new_token_refresher [] = []
  new_token_refresher (p ∷ ps) = new_token_refresher ps ++ (resolve_oauth_secrets p ∷ [])

unfoldable pub refresh_form : ProviderInfo → String → Form
refresh_form info refresh_token =
    ("grant_type", "refresh_token")
    ∷ ("refresh_token", refresh_token)
    ∷ ("client_id", info.client_id)
    ∷ ("client_secret", info.client_secret)
    ∷ []

unfoldable pub exchange_form : ProviderInfo → String → String → String → Form
exchange_form info code redirect_uri code_verifier =
    ("grant_type", "authorization_code")
    ∷ ("code", code)
    ∷ ("redirect_uri", redirect_uri)
    ∷ ("client_id", info.client_id)
    ∷ ("client_secret", info.client_secret)
    ∷ ("code_verifier", code_verifier)
    ∷ []

module _ (endpoint : ℕ → String → Form → Option TokenResponse) where
  refresh_answer : ℕ → String → Option TokenResponse → Granting
  unfolding refreshed_of
  refresh_answer now old none = failed request_failed
  refresh_answer now old (some r) = granted (refreshed_of now old r)

  refresh_with : ℕ → String → Option ProviderInfo → Granting
  unfolding refresh_answer refresh_form
  refresh_with now refresh_token none = failed unknown_provider
  refresh_with now refresh_token (some info) =
      if str_eq info.client_id "" || str_eq info.client_secret ""
      then failed missing_credentials
      else if str_eq refresh_token ""
      then failed no_refresh_token
      else refresh_answer now refresh_token
          (endpoint now info.config.token_url (refresh_form info refresh_token))

  -- TokenRefresher.Refresh
  unfoldable pub refresh : List ProviderInfo → ℕ → String → String → Granting
  unfolding refresh_with find_info
  refresh infos now provider refresh_token =
      refresh_with now refresh_token (find_info provider infos)

  exchange_answer : ℕ → Option TokenResponse → Granting
  unfolding token_of
  exchange_answer now none = failed request_failed
  exchange_answer now (some r) =
      if str_eq r.access_token "" then failed missing_access_token else granted (token_of now r)

  -- OAuthHandler.exchangeCode
  unfoldable pub exchange_code : ℕ → ProviderInfo → String → String → String → Granting
  unfolding exchange_answer exchange_form
  exchange_code now info code redirect_uri code_verifier =
      exchange_answer now
        (endpoint now info.config.token_url (exchange_form info code redirect_uri code_verifier))
