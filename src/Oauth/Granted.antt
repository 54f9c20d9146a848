-- ===== src/Oauth/Granted.antt =====
-- Where the OAuth tokens in the store, and those sent to upstreams, come from.
use Prim.Native.String.{◌++◌}
use stile.Prelude.{
  ℕ, ◌≡◌, refl, sym, ◌∙◌, ◌⊎◌, inl, inr, arith, String, Bool, Option, none, some, List, [], ◌∷◌,
  str_eq, eq_iff, Bool-cases, subst,
}
use stile.Prelude.Dict
use stile.Prelude.Dict.{Dict}
use stile.Oauth.Tokens.{
  OauthToken, Tokens, get_token, store_token, delete_token, get_token-store_token,
  get_token-delete_token,
}
use stile.Oauth.Refresh.{
  TokenResponse, ProviderInfo, Form, granted, find_info, refresh, exchange_code,
}
use stile.Oauth.Resolver.{Resolved, bearer, not_connected, refresh_failed, resolve_token}
use stile.Oauth.Resolver.Outcome as Resolution
use stile.Oauth.Resolver.Outcome.{
  no_oauth, unconnected, kept, tried, given_up, renewed, resolve_token-Outcome,
}
use stile.Oauth.Flow.{StateClaims, CallbackReply}
use stile.Oauth.Flow.Outcome as Callback
use stile.Oauth.Flow.Outcome.{unchanged, stored, handle_callback-Outcome}
use stile.Oauth.Events.{Event, callback, resolve, delete, step, tokens_after}

module _ (endpoint : ℕ → String → Form → Option TokenResponse)
    (parse : ℕ → String → Option StateClaims) (refreshed_by handled_by : List ProviderInfo)
    (base_url : String) where
  -- A token of a caller for a provider: that of a code exchanged at the provider for a state that
  -- was signed for the caller and the provider, or of a refresh of such a token at the provider.
  pub data Granted : String → String → OauthToken → Type 0 where
    exchanged :
        (now : ℕ) (state code : String) (c : StateClaims) (info : ProviderInfo) (t : OauthToken)
        → parse now state ≡ some c
        → find_info c.provider handled_by ≡ some info
        → exchange_code endpoint now info code (base_url ++ "/oauth/callback") c.code_verifier
          ≡ granted t
        → Granted c.subject c.provider t
    refreshed :
        (now : ℕ) (user provider : String) (old new : OauthToken)
        → Granted user provider old
        → refresh endpoint refreshed_by now provider old.refresh_token ≡ granted new
        → Granted user provider new

  abbrev AllGranted : Tokens → Type 0
  AllGranted rows =
      (user provider : String) (t : OauthToken)
      → get_token rows user provider ≡ some t
      → Granted user provider t

  none-AllGranted : AllGranted []
  unfolding get_token
  none-AllGranted user provider t h = cc

  store-AllGranted :
      (rows : Tokens) (user provider : String) (t : OauthToken)
      → AllGranted rows
      → Granted user provider t
      → AllGranted (store_token rows user provider t)
  store-AllGranted rows user provider t all new u p held h =
      let law = get_token-store_token rows user provider t u p in
      elim (Bool-cases (str_eq user u)) [
        | inl a ↦ elim (Bool-cases (str_eq provider p)) [
          | inl b ↦
              let found : some t ≡ some held = rw (a, b) at (sym law ∙ h) in
              let same : t ≡ held = cc in
              let for_user : Granted u provider t =
                subst (λ (x : String). Granted x provider t) ((eq_iff user u).0 a) new in
              let for_provider : Granted u p t =
                subst (λ (x : String). Granted u x t) ((eq_iff provider p).0 b) for_user in
              subst (λ (x : OauthToken). Granted u p x) same for_provider
          | inr g ↦ all u p held (rw (a, g) at (sym law ∙ h))
        ]
        | inr f ↦ all u p held (rw f at (sym law ∙ h))
      ]

  delete-AllGranted :
      (rows : Tokens) (user provider : String)
      → AllGranted rows
      → AllGranted (delete_token rows user provider).0
  delete-AllGranted rows user provider all u p held h =
      let law = get_token-delete_token rows user provider u p in
      all u p held (ground (arith, law, h))

  callback-AllGranted :
      {broken : Bool} {now : ℕ} {rows : Tokens} {r : Tokens × CallbackReply}
      → Callback.Outcome parse endpoint handled_by base_url broken now rows r
      → AllGranted rows
      → AllGranted r.0
  callback-AllGranted (unchanged r) all = all
  callback-AllGranted {now = now} {rows = rows} (stored state code c info t p f g) all =
      store-AllGranted rows c.subject c.provider t all (exchanged now state code c info t p f g)

  module _ (upstreams : Dict String) where
    -- A token that ResolveToken gives out is the access token of a granted token of the caller for
    -- the provider of the upstream, or empty for an upstream without OAuth.
    abbrev pub Entitled : String → String → Resolved → Type 0
    Entitled caller upstream (bearer text) =
        ((Dict.get upstreams upstream ≡ none) × (text ≡ ""))
        ⊎ ((provider : String) × (t : OauthToken) × (Dict.get upstreams upstream ≡ some provider)
            × Granted caller provider t
            × (text ≡ t.access_token))
    Entitled caller upstream (not_connected provider) = Dict.get upstreams upstream ≡ some provider
    Entitled caller upstream (refresh_failed provider why) =
        Dict.get upstreams upstream ≡ some provider

    resolve-Entitled :
        {broken : Bool} {now : ℕ} {rows : Tokens} {caller upstream : String} {r : Tokens × Resolved}
        → Resolution.Outcome endpoint refreshed_by upstreams broken now rows caller upstream r
        → AllGranted rows
        → AllGranted r.0 × Entitled caller upstream r.1
    resolve-Entitled (no_oauth u) all = (all, inl (u, refl))
    resolve-Entitled (unconnected provider u n) all = (all, u)
    resolve-Entitled {caller = caller} (kept provider t c due) all =
        (all, inr (provider, t, c.of_upstream, all caller provider t c.held, refl))
    resolve-Entitled {caller = caller} (tried provider t why c due f a) all =
        (all, inr (provider, t, c.of_upstream, all caller provider t c.held, refl))
    resolve-Entitled (given_up provider t why c due f a) all = (all, c.of_upstream)
    resolve-Entitled {broken} {now = now} {rows = rows} {caller = caller}
          (renewed provider t new c due g) all =
        let fresh = refreshed now caller provider t new (all caller provider t c.held) g in
        (
          elim (Bool-cases broken) [
            | inl b ↦ rw b all
            | inr b ↦ rw b (store-AllGranted rows caller provider new all fresh)
          ],
          inr (provider, new, c.of_upstream, fresh, refl),
        )

    step-AllGranted :
        (rows : Tokens) (e : Event)
        → AllGranted rows
        → AllGranted (step endpoint parse refreshed_by handled_by base_url upstreams rows e)
    unfolding step
    step-AllGranted rows (callback broken now q) all =
        callback-AllGranted
          (handle_callback-Outcome parse endpoint handled_by base_url broken now rows q) all
    step-AllGranted rows (resolve broken now caller upstream) all =
        (resolve-Entitled
          (resolve_token-Outcome endpoint refreshed_by upstreams broken now rows caller upstream)
          all).0
    step-AllGranted rows (delete user provider) all = delete-AllGranted rows user provider all

    after-AllGranted :
        (events : List Event)
        → AllGranted (tokens_after endpoint parse refreshed_by handled_by base_url upstreams events)
    unfolding tokens_after get_token
    after-AllGranted [] = none-AllGranted
    after-AllGranted (e ∷ older) = step-AllGranted _ e (after-AllGranted older)

    -- After any callbacks, resolutions and deletions, a token that ResolveToken gives for a caller and
    -- an upstream is empty, and the upstream has no OAuth, or it is the access token of a token that
    -- was granted to that caller for the provider of the upstream: by a code exchanged at the provider
    -- for a state whose signed claims name them both, and any refreshes since. Where ResolveToken
    -- fails, it names the provider of the upstream.
    pub resolve_token-Entitled :
        (events : List Event) (broken : Bool) (now : ℕ) (caller upstream : String)
        → Entitled caller upstream
            (resolve_token endpoint refreshed_by upstreams broken now
              (tokens_after endpoint parse refreshed_by handled_by base_url upstreams events)
              caller
              upstream).1
    resolve_token-Entitled events broken now caller upstream =
        (resolve-Entitled
          (resolve_token-Outcome endpoint refreshed_by upstreams broken now
            (tokens_after endpoint parse refreshed_by handled_by base_url upstreams events) caller
            upstream)
          (after-AllGranted events)).1
