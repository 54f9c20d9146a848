-- ===== src/Oauth/Connect/Authorized.antt =====
-- For whom handleConnect starts the authorization code flow.
use Prim.Native.String.{◌++◌}
use stile.Prelude.{
  ℕ, ◌+◌, ◌≡◌, ◌≢◌, ◌⊎◌, inl, inr, refl, ap, arith, String, Option, none, some, List, str_eq,
  eq_iff, Bool-cases,
}
use stile.Oauth.Refresh.{ProviderInfo, find_info}
use stile.Oauth.Flow.{StateClaims}
use stile.Oauth.Connect.{
  Signer, state_expiry, Verified, caller, refused, verify_connect_token, redirect, caller_of,
  authorization_query, with_scopes, with_state, with_verifier, with_provider, with_caller,
  with_token, handle_connect,
}
use stile.Oauth.Connect.Exact.{IsSigned, verify_connect_token_exact}

caller_of-caller : (v : Verified) (name : String) → caller_of v ≡ some name → v ≡ caller name
unfolding caller_of
caller_of-caller (caller held) name h =
    let same : held ≡ name = cc in ap (λ (x : String). caller x) same
caller_of-caller (refused why) name h = cc

module _ (s : Signer) (sign : ℕ → StateClaims → Option String) (challenge : String → String)
    (join : List String → String) (infos : List ProviderInfo) (base_url : String) where
  -- A redirect to the configured provider, with a state that is signed for this caller, the provider
  -- and a fresh verifier, and with the challenge of that verifier.
  pub record Starts (now : ℕ) (verifier : Option String) (provider name url : String)
      (query : List (String × String)) : Type 0 where
    pub info : ProviderInfo
    pub drawn : String
    pub state : String
    pub named : name ≢ ""
    pub found : find_info provider infos ≡ some info
    pub configured : info.client_id ≢ ""
    pub fresh : verifier ≡ some drawn
    pub signed :
        sign
          (now + state_expiry)
          (record { subject = name; provider = provider; code_verifier = drawn })
        ≡ some state
    pub target : url ≡ info.config.auth_url
    pub asked :
        query
        ≡ with_scopes join info.config.scopes
            (authorization_query info (base_url ++ "/oauth/callback") state (challenge drawn))

  -- the caller in the context, or of a connect token that verifies
  abbrev pub IsProven : ℕ → String → String → String → Type 0
  IsProven now in_context tok name =
      (in_context ≡ name)
      ⊎ ((in_context ≡ "") × ((raw : String) × (s.decode tok ≡ some raw) × IsSigned s now name raw))

  with_state-Starts :
      (now : ℕ) (verifier : Option String) (provider name url : String)
      (query : List (String × String)) (info : ProviderInfo) (v : String) (o : Option String)
      → name ≢ ""
      → find_info provider infos ≡ some info
      → info.client_id ≢ ""
      → verifier ≡ some v
      → sign
          (now + state_expiry)
          (record { subject = name; provider = provider; code_verifier = v })
        ≡ o
      → with_state s sign challenge join infos base_url info v o ≡ redirect url query
      → Starts now verifier provider name url query
  unfolding with_state
  with_state-Starts now verifier provider name url query info v none n f c d g h = cc
  with_state-Starts now verifier provider name url query info v (some state) n f c d g h = record {
    info = info;
    drawn = v;
    state = state;
    named = n;
    found = f;
    configured = c;
    fresh = d;
    signed = g;
    target = cc;
    asked = cc;
  }

  with_verifier-Starts :
      (now : ℕ) (verifier : Option String) (provider name url : String)
      (query : List (String × String)) (info : ProviderInfo) (o : Option String)
      → name ≢ ""
      → find_info provider infos ≡ some info
      → info.client_id ≢ ""
      → verifier ≡ o
      → with_verifier s sign challenge join infos base_url now name provider info o
        ≡ redirect url query
      → Starts now verifier provider name url query
  unfolding with_verifier
  with_verifier-Starts now verifier provider name url query info none n f c d h = cc
  with_verifier-Starts now verifier provider name url query info (some v) n f c d h =
      with_state-Starts now verifier provider name url query info v
        (sign (now + state_expiry)
          (record { subject = name; provider = provider; code_verifier = v }))
        n f c d refl h

  with_provider-Starts :
      (now : ℕ) (verifier : Option String) (provider name url : String)
      (query : List (String × String)) (o : Option ProviderInfo)
      → name ≢ ""
      → find_info provider infos ≡ o
      → with_provider s sign challenge join infos base_url now verifier name provider o
        ≡ redirect url query
      → Starts now verifier provider name url query
  unfolding with_provider
  with_provider-Starts now verifier provider name url query none n f h = cc
  with_provider-Starts now verifier provider name url query (some info) n f h =
      elim (Bool-cases (str_eq info.client_id "")) [
        | inl t ↦ absurd (ground arith)
        | inr e ↦
            with_verifier-Starts now verifier provider name url query info verifier n f
              (λ q. ground (arith, eq_iff info.client_id "")) refl (rw e at h)
      ]

  with_caller-Starts :
      (now : ℕ) (verifier : Option String) (provider name url : String)
      (query : List (String × String))
      → with_caller s sign challenge join infos base_url now verifier name provider
        ≡ redirect url query
      → Starts now verifier provider name url query
  unfolding with_caller
  with_caller-Starts now verifier provider name url query h = elim (Bool-cases (str_eq name "")) [
    | inl t ↦ absurd (ground arith)
    | inr e ↦
        with_provider-Starts now verifier provider name url query (find_info provider infos)
          (λ q. ground (arith, eq_iff name "")) refl (rw e at h)
  ]

  with_token-Starts :
      (now : ℕ) (verifier : Option String) (tok provider url : String)
      (query : List (String × String)) (o : Option String)
      → caller_of (verify_connect_token s now tok) ≡ o
      → with_token s sign challenge join infos base_url now verifier provider o ≡ redirect url query
      → (name : String) × ((raw : String) × (s.decode tok ≡ some raw) × IsSigned s now name raw)
        × Starts now verifier provider name url query
  unfolding with_token
  with_token-Starts now verifier tok provider url query none v h = cc
  with_token-Starts now verifier tok provider url query (some name) v h = (
    name,
    (verify_connect_token_exact s now tok name).0
        (caller_of-caller (verify_connect_token s now tok) name v),
    with_caller-Starts now verifier provider name url query h,
  )

  -- Where handleConnect redirects, it does so for the caller in the context or, where there is none,
  -- for the caller of a connect token that has a valid signature and has not expired: to the configured
  -- provider of the path, with a state signed for that caller, that provider and a fresh verifier for
  -- ten minutes, and with the challenge of that verifier.
  pub handle_connect-Starts :
      (now : ℕ) (verifier : Option String) (in_context tok provider url : String)
      (query : List (String × String))
      → handle_connect s sign challenge join infos base_url now verifier in_context tok provider
        ≡ redirect url query
      → (name : String) × IsProven now in_context tok name
        × Starts now verifier provider name url query
  unfolding handle_connect
  handle_connect-Starts now verifier in_context tok provider url query h =
      elim (Bool-cases (str_eq in_context "")) [
        | inl e ↦ elim (Bool-cases (str_eq tok "")) [
          | inl t ↦ absurd (ground arith)
          | inr f ↦
              let (name, proof, starts) =
                with_token-Starts now verifier tok provider url query
                  (caller_of (verify_connect_token s now tok)) refl (rw (e, f) at h) in
              (name, inr ((eq_iff in_context "").0 e, proof), starts)
        ]
        | inr e ↦
            let named : in_context ≢ "" = λ q. ground (arith, eq_iff in_context "") in
            (
              in_context,
              inl refl,
              with_provider-Starts now verifier provider in_context url query
                  (find_info provider infos) named refl (rw e at h),
            )
      ]
