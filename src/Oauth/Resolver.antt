-- ===== src/Oauth/Resolver.antt =====
-- `OAuthResolver` of internal/auth/oauth_resolver.go over the token store. `broken` says whether the
-- store refuses to write.
pub mod Outcome
use stile.Prelude.{
  ℕ, String, Bool, true, false, not, ◌&&◌, Option, none, some, List, [], ◌∷◌, str_eq, if◌then◌else◌,
}
use stile.Prelude.Dict
use stile.Prelude.Dict.{Dict}
use stile.Config.Values.{UpstreamConfig, HttpUpstreamConfig, AuthConfig, http, stdio, nil_upstream}
use stile.Oauth.Tokens.{OauthToken, Tokens, expired, get_token, store_token}
use stile.Oauth.Refresh.{
  TokenResponse, ProviderInfo, Form, Granting, granted, failed, OauthError, refresh,
}

with_auth : Dict String → String → Option AuthConfig → Dict String
unfolding Dict.put
with_auth m name none = m
with_auth m name (some a) = if str_eq a.auth_type "oauth" then Dict.put m name a.provider else m

with_upstream : Dict String → UpstreamConfig → Dict String
unfolding with_auth
with_upstream m (http h) = with_auth m h.common.name h.auth
with_upstream m (stdio s) = m
with_upstream m nil_upstream = m

upstreams_from : Dict String → List UpstreamConfig → Dict String
unfolding with_upstream
upstreams_from m [] = m
upstreams_from m (u ∷ us) = upstreams_from (with_upstream m u) us

-- the map that NewOAuthResolver makes, from upstream to provider
unfoldable pub new_oauth_resolver : List UpstreamConfig → Dict String
unfolding upstreams_from Dict.empty
new_oauth_resolver us = upstreams_from Dict.empty us

-- what ResolveToken returns
pub data Resolved : Type 0 where
  bearer : String → Resolved
  not_connected : String → Resolved
  refresh_failed : String → OauthError → Resolved

connected_with : String → Option OauthToken → Bool × String
connected_with provider none = (false, provider)
connected_with provider (some t) = (true, "")

connected_by : Tokens → String → Option String → Bool × String
unfolding connected_with get_token
connected_by tokens caller none = (true, "")
connected_by tokens caller (some provider) =
    connected_with provider (get_token tokens caller provider)

-- IsConnected
unfoldable pub is_connected : Dict String → Tokens → String → String → Bool × String
unfolding connected_by Dict.get
is_connected m tokens caller upstream = connected_by tokens caller (Dict.get m upstream)

module _ (endpoint : ℕ → String → Form → Option TokenResponse) (infos : List ProviderInfo) where
  -- after the call of Refresh
  after_refresh : Bool → Tokens → String → String → OauthToken → Granting → Tokens × Resolved
  unfolding store_token
  after_refresh broken tokens caller provider old (failed why) =
      if str_eq old.access_token ""
      then (tokens, refresh_failed provider why)
      else (tokens, bearer old.access_token)
  after_refresh broken tokens caller provider old (granted new) =
      (if broken then tokens else store_token tokens caller provider new, bearer new.access_token)

  of_token : Bool → ℕ → Tokens → String → String → Option OauthToken → Tokens × Resolved
  unfolding after_refresh refresh expired
  of_token broken now tokens caller provider none = (tokens, not_connected provider)
  of_token broken now tokens caller provider (some t) =
      if expired now t && not (str_eq t.refresh_token "")
      then after_refresh broken tokens caller provider t
          (refresh endpoint infos now provider t.refresh_token)
      else (tokens, bearer t.access_token)

  of_provider : Bool → ℕ → Tokens → String → Option String → Tokens × Resolved
  unfolding of_token get_token
  of_provider broken now tokens caller none = (tokens, bearer "")
  of_provider broken now tokens caller (some provider) =
      of_token broken now tokens caller provider (get_token tokens caller provider)

  -- ResolveToken
  unfoldable pub resolve_token :
      Dict String → Bool → ℕ → Tokens → String → String → Tokens × Resolved
  unfolding of_provider Dict.get
  resolve_token m broken now tokens caller upstream =
      of_provider broken now tokens caller (Dict.get m upstream)
