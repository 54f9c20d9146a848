-- ===== src/Oauth/Connect.antt =====
-- The start of the authorization code flow in internal/auth/oauth_handler.go, and the tokens of
-- connect URLs, whose times are Unix seconds. `Signer` has what the code takes of the key, of base64
-- and of strconv; `sign` makes a JWT of its expiry and claims, and `challenge` is that of
-- PKCE.
pub mod Exact
pub mod RoundTrip
pub mod Authorized
mod Tests
use Prim.Native.String.{◌++◌}
use mathlib.Core.List.{◌++◌ as ◌++ᴸ◌}
use stile.Prelude.{
  ℕ, ◌+◌, String, Bool, Option, none, some, List, [], ◌∷◌, str_eq, ltb, if◌then◌else◌,
}
use stile.Prelude.Split.{split_first}
use stile.Prelude.Int.{ℤ, pos, negsuc}
use stile.Oauth.Refresh.{ProviderInfo, find_info}
use stile.Oauth.Flow.{StateClaims}

-- The base64 text of the HMAC-SHA256 under the signing key, base64 itself, strconv.FormatInt of a
-- number that is not negative, and strconv.ParseInt.
pub record Signer : Type 0 where
  pub mac : String → String
  pub encode : String → String
  pub decode : String → Option String
  pub format_int : ℕ → String
  pub parse_int : String → Option ℤ

-- five minutes
abbrev pub connect_token_ttl : ℕ
connect_token_ttl = 300

-- ten minutes
abbrev pub state_expiry : ℕ
state_expiry = 600

pub data ConnectError : Type 0 where
  undecodable malformed bad_signature bad_expiry token_expired : ConnectError

pub data Verified : Type 0 where
  caller : String → Verified
  refused : ConnectError → Verified

-- a text before and after its first bar
abbrev pub split_bar : String → Option (String × String)
split_bar = split_first "|"

module _ (s : Signer) where
  -- signConnectToken
  unfoldable pub sign_connect_token : ℕ → String → String
  sign_connect_token now name =
      let payload = name ++ ("|" ++ s.format_int (now + connect_token_ttl)) in
      s.encode (payload ++ ("|" ++ s.mac payload))

  check_expiry : ℕ → String → Option ℤ → Verified
  check_expiry now name none = refused bad_expiry
  check_expiry now name (some (negsuc n)) = refused token_expired
  check_expiry now name (some (pos expiry)) =
      if ltb expiry now then refused token_expired else caller name

  check_parts : ℕ → String → Option (String × String) → Verified
  unfolding check_expiry
  check_parts now name none = refused malformed
  check_parts now name (some (expiry, sig)) =
      if str_eq sig (s.mac (name ++ ("|" ++ expiry)))
      then check_expiry now name (s.parse_int expiry)
      else refused bad_signature

  check_name : ℕ → Option (String × String) → Verified
  unfolding check_parts split_first
  check_name now none = refused malformed
  check_name now (some (name, rest)) = check_parts now name (split_bar rest)

  check_raw : ℕ → Option String → Verified
  unfolding check_name split_first
  check_raw now none = refused undecodable
  check_raw now (some raw) = check_name now (split_bar raw)

  -- verifyConnectToken
  unfoldable pub verify_connect_token : ℕ → String → Verified
  unfolding check_raw
  verify_connect_token now tok = check_raw now (s.decode tok)

pub data ConnectReply : Type 0 where
  invalid_connect_token authentication_required : ConnectReply
  unknown_connect_provider not_configured : String → ConnectReply
  no_verifier no_state : ConnectReply
  redirect : String → List (String × String) → ConnectReply

caller_of : Verified → Option String
caller_of (caller name) = some name
caller_of (refused why) = none

-- the query parameters of the authorization URL, without the scopes
unfoldable pub authorization_query :
    ProviderInfo → String → String → String → List (String × String)
authorization_query info redirect_uri state challenge =
    ("client_id", info.client_id)
    ∷ ("response_type", "code")
    ∷ ("redirect_uri", redirect_uri)
    ∷ ("state", state)
    ∷ ("code_challenge", challenge)
    ∷ ("code_challenge_method", "S256")
    ∷ []

unfoldable pub with_scopes :
    (List String → String) → List String → List (String × String) → List (String × String)
with_scopes join [] query = query
with_scopes join (scope ∷ scopes) query = query ++ᴸ (("scope", join (scope ∷ scopes)) ∷ [])

-- `verifier` is what crypto/rand gives, and `join` is strings.Join with a space.
module _ (s : Signer) (sign : ℕ → StateClaims → Option String) (challenge : String → String)
    (join : List String → String) (infos : List ProviderInfo) (base_url : String) where
  with_state : ProviderInfo → String → Option String → ConnectReply
  unfolding with_scopes authorization_query
  with_state info verifier none = no_state
  with_state info verifier (some state) = redirect info.config.auth_url (
      with_scopes join info.config.scopes
        (authorization_query info (base_url ++ "/oauth/callback") state (challenge verifier)))

  with_verifier : ℕ → String → String → ProviderInfo → Option String → ConnectReply
  unfolding with_state
  with_verifier now name provider info none = no_verifier
  with_verifier now name provider info (some verifier) = with_state info verifier (
      sign (now + state_expiry)
        (record { subject = name; provider = provider; code_verifier = verifier }))

  with_provider : ℕ → Option String → String → String → Option ProviderInfo → ConnectReply
  unfolding with_verifier
  with_provider now verifier name provider none = unknown_connect_provider provider
  with_provider now verifier name provider (some info) =
      if str_eq info.client_id ""
      then not_configured provider
      else with_verifier now name provider info verifier

  with_caller : ℕ → Option String → String → String → ConnectReply
  unfolding with_provider find_info
  with_caller now verifier name provider =
      if str_eq name ""
      then authentication_required
      else with_provider now verifier name provider (find_info provider infos)

  with_token : ℕ → Option String → String → Option String → ConnectReply
  unfolding with_caller
  with_token now verifier provider none = invalid_connect_token
  with_token now verifier provider (some name) = with_caller now verifier name provider

  -- handleConnect, of the name of the caller in the context, "" where there is none, the query
  -- parameter tok, and the provider in the path
  unfoldable pub handle_connect : ℕ → Option String → String → String → String → ConnectReply
  unfolding with_token with_caller caller_of verify_connect_token
  handle_connect now verifier name tok provider =
      if str_eq name ""
      then if str_eq tok ""
        then authentication_required
        else with_token now verifier provider (caller_of (verify_connect_token s now tok))
      else with_caller now verifier name provider
