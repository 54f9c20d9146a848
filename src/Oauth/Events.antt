-- ===== src/Oauth/Events.antt =====
-- The token store under the callbacks of the authorization code flow, the resolution of tokens and
-- deletions, in any order, each from start to end before the next.
use stile.Prelude.{ℕ, String, Bool, Option, List, [], ◌∷◌}
use stile.Prelude.Dict.{Dict}
use stile.Oauth.Tokens.{Tokens, delete_token}
use stile.Oauth.Refresh.{TokenResponse, ProviderInfo, Form}
use stile.Oauth.Resolver.{resolve_token}
use stile.Oauth.Flow.{StateClaims, CallbackQuery, handle_callback}

-- The Boolean says whether the store refuses to write.
pub data Event : Type 0 where
  callback : Bool → ℕ → CallbackQuery → Event
  resolve : Bool → ℕ → String → String → Event
  delete : String → String → Event

module _ (endpoint : ℕ → String → Form → Option TokenResponse)
    (parse : ℕ → String → Option StateClaims) (refreshed_by handled_by : List ProviderInfo)
    (base_url : String) (upstreams : Dict String) where
  unfoldable pub step : Tokens → Event → Tokens
  unfolding handle_callback resolve_token delete_token
  step tokens (callback broken now q) =
      (handle_callback parse endpoint handled_by base_url broken now tokens q).0
  step tokens (resolve broken now caller upstream) =
      (resolve_token endpoint refreshed_by upstreams broken now tokens caller upstream).0
  step tokens (delete user provider) = (delete_token tokens user provider).0

  -- the tokens after these events, the newest first
  unfoldable pub tokens_after : List Event → Tokens
  unfolding step
  tokens_after [] = []
  tokens_after (e ∷ older) = step (tokens_after older) e
