-- ===== src/Oauth/Flow.antt =====
-- The authorization code flow of internal/auth/oauth_handler.go: the two endpoints, and the tokens of
-- connect URLs. The JWT library is `sign` and `parse`, which gives the claims of a state where its
-- signature holds and it has not expired. base64, SHA-256 and HMAC-SHA256 are functions on texts,
-- url.PathEscape, url.QueryEscape and url.Values.Encode belong to net/url.
pub mod Outcome
use Prim.Native.Char.{code}
use Prim.Native.String.{◌++◌}
use stile.Prelude.{
  ℕ, ◌+◌, String, Bool, true, false, ◌||◌, Option, none, some, List, [], ◌∷◌, str_eq, ltb,
  if◌then◌else◌,
}
use stile.Prelude.Text.{itoa}
use stile.Config.Values.{OauthProviderConfig}
use stile.Oauth.Tokens.{OauthToken, Tokens, store_token}
use stile.Oauth.Refresh.{
  TokenResponse, ProviderInfo, Form, Granting, granted, failed, OauthError, find_info,
  exchange_code,
}

-- stateClaims: the subject is the caller
pub record StateClaims : Type 0 where
  pub subject : String
  pub provider : String
  pub code_verifier : String

-- the query of a callback, with "" for a parameter that is missing
pub record CallbackQuery : Type 0 where
  pub error : String
  pub state : String
  pub code : String

pub data CallbackReply : Type 0 where
  authorization_failed missing_parameter invalid_state provider_missing : CallbackReply
  exchange_failed : OauthError → CallbackReply
  store_failed : CallbackReply
  connected : String → CallbackReply

complete_claims : Option StateClaims → Option StateClaims
complete_claims none = none
complete_claims (some c) =
    if str_eq c.subject "" || (str_eq c.provider "" || str_eq c.code_verifier "")
    then none
    else some c

module _ (parse : ℕ → String → Option StateClaims) where
  -- verifyState
  unfoldable pub verify_state : ℕ → String → Option StateClaims
  unfolding complete_claims
  verify_state now state = complete_claims (parse now state)

  module _ (endpoint : ℕ → String → Form → Option TokenResponse) (infos : List ProviderInfo)
      (base_url : String) where
    after_exchange : Bool → Tokens → StateClaims → Granting → Tokens × CallbackReply
    unfolding store_token
    after_exchange broken tokens c (failed why) = (tokens, exchange_failed why)
    after_exchange broken tokens c (granted t) =
        if broken
        then (tokens, store_failed)
        else (store_token tokens c.subject c.provider t, connected c.provider)

    with_info :
        Bool → ℕ → Tokens → String → StateClaims → Option ProviderInfo → Tokens × CallbackReply
    unfolding after_exchange exchange_code
    with_info broken now tokens code c none = (tokens, provider_missing)
    with_info broken now tokens code c (some info) =
        after_exchange broken tokens c
          (exchange_code endpoint now info code (base_url ++ "/oauth/callback") c.code_verifier)

    with_claims : Bool → ℕ → Tokens → String → Option StateClaims → Tokens × CallbackReply
    unfolding with_info find_info
    with_claims broken now tokens code none = (tokens, invalid_state)
    with_claims broken now tokens code (some c) =
        with_info broken now tokens code c (find_info c.provider infos)

    -- handleCallback
    unfoldable pub handle_callback : Bool → ℕ → Tokens → CallbackQuery → Tokens × CallbackReply
    unfolding with_claims verify_state
    handle_callback broken now tokens q =
        if str_eq q.error ""
        then if str_eq q.state "" || str_eq q.code ""
          then (tokens, missing_parameter)
          else with_claims broken now tokens q.code (verify_state now q.state)
        else (tokens, authorization_failed)
