-- ===== src/Oauth/Tests.antt =====
-- Runs of the OAuth connections, and their theorems at concrete inputs.
use stile.Prelude.{
  ℕ, ◌≡◌, refl, String, false, Option, none, some, List, [], ◌∷◌, str_eq, if◌then◌else◌,
}
use stile.Prelude.Int.{pos}
use stile.Prelude.Dict.{Dict, binding, no_bindings}
use stile.Oauth.Tokens.{Tokens}
use stile.Oauth.Refresh.{TokenResponse, ProviderInfo, Form, find_info}
use stile.Oauth.Resolver.{Resolved, bearer, not_connected, resolve_token}
use stile.Oauth.Resolver.Outcome.{Outcome, resolve_token-Outcome}
use stile.Oauth.Flow.{StateClaims, handle_callback}
use stile.Oauth.Events.{Event, callback, delete, tokens_after}
use stile.Oauth.Granted.{Entitled, resolve_token-Entitled}

abbrev github : ProviderInfo
github = record {
  config = record {
    name = "github";
    auth_url = "a";
    token_url = "t";
    client_id_env = "I";
    client_secret_env = "S";
    scopes = [];
  };
  client_id = "id";
  client_secret = "secret";
}

abbrev infos : List ProviderInfo
infos = github ∷ []

-- a code gives the token "one", which is good for an hour, and a refresh the token "two"
abbrev endpoint : ℕ → String → Form → Option TokenResponse
endpoint now url [] = none
endpoint now url ((key, kind) ∷ form) = some (record {
  access_token = if str_eq kind "refresh_token" then "two" else "one";
  token_type = "";
  expires_in = pos 3600;
  refresh_token = if str_eq kind "refresh_token" then "" else "r";
  scope = "";
})

abbrev parse : ℕ → String → Option StateClaims
parse now state =
    if str_eq state "signed"
    then some (record { subject = "alice"; provider = "github"; code_verifier = "v" })
    else none

abbrev upstreams : Dict String
upstreams = binding "issues" "github" no_bindings

abbrev to_callback : String → Event
to_callback state = callback false 0 (record { error = ""; state = state; code = "c" })

abbrev store_after : List Event → Tokens
store_after events = tokens_after endpoint parse infos infos "https://stile" upstreams events

abbrev resolved : List Event → ℕ → String → String → Resolved
resolved events now caller upstream =
    (resolve_token endpoint infos upstreams false now (store_after events) caller upstream).1

-- 3570 and 3571 seconds
abbrev still_fresh : ℕ
still_fresh = 3570000000000

abbrev too_old : ℕ
too_old = 3571000000000

fresh : resolved (to_callback "signed" ∷ []) still_fresh "alice" "issues" ≡ bearer "one"
unfolding resolve_token tokens_after handle_callback find_info
fresh = refl

renewed_token : resolved (to_callback "signed" ∷ []) too_old "alice" "issues" ≡ bearer "two"
unfolding resolve_token tokens_after handle_callback find_info
renewed_token = refl

other_caller :
    resolved (to_callback "signed" ∷ []) still_fresh "bob" "issues" ≡ not_connected "github"
unfolding resolve_token tokens_after handle_callback find_info
other_caller = refl

forged_state :
    resolved (to_callback "forged" ∷ []) still_fresh "alice" "issues" ≡ not_connected "github"
unfolding resolve_token tokens_after handle_callback find_info
forged_state = refl

deleted :
    resolved (delete "alice" "github" ∷ to_callback "signed" ∷ []) still_fresh "alice" "issues"
    ≡ not_connected "github"
unfolding resolve_token tokens_after handle_callback find_info
deleted = refl

no_oauth_upstream : resolved [] 0 "alice" "files" ≡ bearer ""
unfolding resolve_token tokens_after
no_oauth_upstream = refl

resolve_token-Entitled_example :
    Entitled endpoint parse infos infos "https://stile" upstreams "alice" "issues"
      (resolved (to_callback "signed" ∷ []) too_old "alice" "issues")
resolve_token-Entitled_example =
    resolve_token-Entitled endpoint parse infos infos "https://stile" upstreams
      (to_callback "signed" ∷ []) false too_old "alice" "issues"

resolve_token-Outcome_example :
    Outcome endpoint infos upstreams false too_old
      (store_after (to_callback "signed" ∷ []))
      "alice"
      "issues"
      (resolve_token endpoint infos upstreams false too_old
        (store_after (to_callback "signed" ∷ []))
        "alice"
        "issues")
resolve_token-Outcome_example =
    resolve_token-Outcome endpoint infos upstreams false too_old
      (store_after (to_callback "signed" ∷ [])) "alice" "issues"
