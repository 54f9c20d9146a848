-- ===== src/Oauth/Resolver/Outcome.antt =====
-- What the resolution of a token can come to.
use stile.Prelude.{
  ℕ, ◌≡◌, ◌≢◌, inl, inr, refl, arith, String, Bool, true, ◌&&◌, not, Option, none, some, List,
  str_eq, eq_iff, Bool-cases, if◌then◌else◌,
}
use stile.Prelude.Dict
use stile.Prelude.Dict.{Dict}
use stile.Oauth.Tokens.{OauthToken, Tokens, expired, get_token, store_token}
use stile.Oauth.Refresh.{
  TokenResponse, ProviderInfo, Form, Granting, granted, failed, OauthError, refresh,
}
use stile.Oauth.Resolver.{
  Resolved, bearer, not_connected, refresh_failed, after_refresh, of_token, of_provider,
  resolve_token,
}

module _ (endpoint : ℕ → String → Form → Option TokenResponse) (infos : List ProviderInfo)
    (m : Dict String) (broken : Bool) (now : ℕ) (tokens : Tokens) (caller upstream : String) where
  -- a token that is to be refreshed
  abbrev pub IsDue : OauthToken → Type 0
  IsDue t = (expired now t ≡ true) × (t.refresh_token ≢ "")

  -- the caller's token for the provider of the upstream
  pub record Connection (provider : String) (t : OauthToken) : Type 0 where
    pub of_upstream : Dict.get m upstream ≡ some provider
    pub held : get_token tokens caller provider ≡ some t

  pub data Outcome : Tokens × Resolved → Type 0 where
    no_oauth : Dict.get m upstream ≡ none → Outcome (tokens, bearer "")
    unconnected :
        (provider : String)
        → Dict.get m upstream ≡ some provider
        → get_token tokens caller provider ≡ none
        → Outcome (tokens, not_connected provider)
    kept :
        (provider : String) (t : OauthToken)
        → Connection provider t
        → ¬ IsDue t
        → Outcome (tokens, bearer t.access_token)
    tried :
        (provider : String) (t : OauthToken) (why : OauthError)
        → Connection provider t
        → IsDue t
        → refresh endpoint infos now provider t.refresh_token ≡ failed why
        → t.access_token ≢ ""
        → Outcome (tokens, bearer t.access_token)
    given_up :
        (provider : String) (t : OauthToken) (why : OauthError)
        → Connection provider t
        → IsDue t
        → refresh endpoint infos now provider t.refresh_token ≡ failed why
        → t.access_token ≡ ""
        → Outcome (tokens, refresh_failed provider why)
    renewed :
        (provider : String) (t new : OauthToken)
        → Connection provider t
        → IsDue t
        → refresh endpoint infos now provider t.refresh_token ≡ granted new
        → Outcome (
          (if broken then tokens else store_token tokens caller provider new),
          bearer new.access_token,
        )

  after_refresh-Outcome :
      (provider : String) (t : OauthToken) (g : Granting)
      → Connection provider t
      → IsDue t
      → refresh endpoint infos now provider t.refresh_token ≡ g
      → Outcome (after_refresh endpoint infos broken tokens caller provider t g)
  unfolding after_refresh
  after_refresh-Outcome provider t (granted new) c due h = renewed provider t new c due h
  after_refresh-Outcome provider t (failed why) c due h =
      elim (Bool-cases (str_eq t.access_token "")) [
        | inl e ↦ rw e (given_up provider t why c due h ((eq_iff t.access_token "").0 e))
        | inr f ↦
            rw f (tried provider t why c due h (λ e. ground (arith, eq_iff t.access_token "")))
      ]

  of_token-Outcome :
      (provider : String) (o : Option OauthToken)
      → Dict.get m upstream ≡ some provider
      → get_token tokens caller provider ≡ o
      → Outcome (of_token endpoint infos broken now tokens caller provider o)
  unfolding of_token
  of_token-Outcome provider none u h = unconnected provider u h
  of_token-Outcome provider (some t) u h =
      let c : Connection provider t = record { of_upstream = u; held = h } in
      elim (Bool-cases (expired now t && not (str_eq t.refresh_token ""))) [
        | inl e ↦
            let due : IsDue t = (ground arith, λ q. ground (arith, eq_iff t.refresh_token "")) in
            rw e (
              after_refresh-Outcome provider t (refresh endpoint infos now provider t.refresh_token)
                c due refl)
        | inr f ↦
            let not_due : ¬ IsDue t =
              λ due. due.1 ((eq_iff t.refresh_token "").0 (ground (arith, due.0))) in
            rw f (kept provider t c not_due)
      ]

  of_provider-Outcome :
      (o : Option String)
      → Dict.get m upstream ≡ o
      → Outcome (of_provider endpoint infos broken now tokens caller o)
  unfolding of_provider
  of_provider-Outcome none h = no_oauth h
  of_provider-Outcome (some provider) h =
      of_token-Outcome provider (get_token tokens caller provider) h refl

  -- ResolveToken gives no token where the upstream has no OAuth, refuses a caller that is not
  -- connected, gives the stored access token where that is not due for a refresh, or a refresh fails
  -- and it is not empty, and fails where it is; and otherwise it gives the new access token, which it
  -- stores where the store takes it. It changes the store only then.
  pub resolve_token-Outcome :
      Outcome (resolve_token endpoint infos m broken now tokens caller upstream)
  unfolding resolve_token
  resolve_token-Outcome = of_provider-Outcome (Dict.get m upstream) refl
