-- ===== src/Oauth/Flow/Outcome.antt =====
-- What a callback of the authorization code flow does to the token store.
use Prim.Native.String.{◌++◌}
use stile.Prelude.{
  ℕ, ◌≡◌, inl, inr, refl, arith, String, Bool, ◌||◌, Option, none, some, List, str_eq, Bool-cases,
}
use stile.Oauth.Tokens.{OauthToken, Tokens, store_token}
use stile.Oauth.Refresh.{
  TokenResponse, ProviderInfo, Form, Granting, granted, failed, find_info, exchange_code,
}
use stile.Oauth.Flow.{
  StateClaims, CallbackQuery, CallbackReply, connected, complete_claims, verify_state,
  after_exchange, with_info, with_claims, handle_callback,
}

complete_claims_lem :
    (o : Option StateClaims) (c : StateClaims) → complete_claims o ≡ some c → o ≡ some c
unfolding complete_claims
complete_claims_lem none c h = h
complete_claims_lem (some d) c h = ground arith

module _ (parse : ℕ → String → Option StateClaims)
    (endpoint : ℕ → String → Form → Option TokenResponse) (infos : List ProviderInfo)
    (base_url : String) (broken : Bool) (now : ℕ) (tokens : Tokens) where
  pub data Outcome : Tokens × CallbackReply → Type 0 where
    unchanged : (r : CallbackReply) → Outcome (tokens, r)
    stored :
        (state code : String) (c : StateClaims) (info : ProviderInfo) (t : OauthToken)
        → parse now state ≡ some c
        → find_info c.provider infos ≡ some info
        → exchange_code endpoint now info code (base_url ++ "/oauth/callback") c.code_verifier
          ≡ granted t
        → Outcome (store_token tokens c.subject c.provider t, connected c.provider)

  after_exchange-Outcome :
      (state code : String) (c : StateClaims) (info : ProviderInfo) (g : Granting)
      → parse now state ≡ some c
      → find_info c.provider infos ≡ some info
      → exchange_code endpoint now info code (base_url ++ "/oauth/callback") c.code_verifier ≡ g
      → Outcome (after_exchange parse endpoint infos base_url broken tokens c g)
  unfolding after_exchange
  after_exchange-Outcome state code c info (failed why) p f g = unchanged _
  after_exchange-Outcome state code c info (granted t) p f g = elim (Bool-cases broken) [
    | inl b ↦ rw b (unchanged _)
    | inr b ↦ rw b (stored state code c info t p f g)
  ]

  with_info-Outcome :
      (state code : String) (c : StateClaims) (o : Option ProviderInfo)
      → parse now state ≡ some c
      → find_info c.provider infos ≡ o
      → Outcome (with_info parse endpoint infos base_url broken now tokens code c o)
  unfolding with_info
  with_info-Outcome state code c none p f = unchanged _
  with_info-Outcome state code c (some info) p f =
      after_exchange-Outcome state code c info
        (exchange_code endpoint now info code (base_url ++ "/oauth/callback") c.code_verifier) p f
        refl

  with_claims-Outcome :
      (state code : String) (o : Option StateClaims)
      → complete_claims (parse now state) ≡ o
      → Outcome (with_claims parse endpoint infos base_url broken now tokens code o)
  unfolding with_claims
  with_claims-Outcome state code none h = unchanged _
  with_claims-Outcome state code (some c) h =
      with_info-Outcome state code c (find_info c.provider infos)
        (complete_claims_lem (parse now state) c h) refl

  pub handle_callback-Outcome :
      (q : CallbackQuery)
      → Outcome (handle_callback parse endpoint infos base_url broken now tokens q)
  unfolding handle_callback verify_state
  handle_callback-Outcome q = elim (Bool-cases (str_eq q.error "")) [
    | inl e ↦ elim (Bool-cases (str_eq q.state "" || str_eq q.code "")) [
      | inl m ↦ rw (e, m) (unchanged _)
      | inr f ↦
          rw (e, f) (with_claims-Outcome q.state q.code (complete_claims (parse now q.state)) refl)
    ]
    | inr f ↦ rw f (unchanged _)
  ]
