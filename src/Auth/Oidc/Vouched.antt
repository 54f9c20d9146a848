-- ===== src/Auth/Oidc/Vouched.antt =====
-- What an identity that an OIDC validator gives rests on.
use stile.Prelude.{
  ℕ, ◌+◌, ◌<◌, ◌≡◌, ◌≢◌, refl, sym, ap, ◌∙◌, ◌⊎◌, inl, inr, String, Bool, true, Option, none, some,
  List, [], ◌∷◌, str_eq, eq_iff, ltb, any, arith, Bool-cases, subst, ltb→lt,
}
use stile.Prelude.Dict
use stile.Prelude.Dict.{Dict, get-put, get-empty}
use stile.Config.Values.{OidcConfig}
use stile.Auth.Oidc.{
  Claim, text, other_claim, Claims, UserinfoEntry, OidcValidator, cache_ttl, new_oidc_validator,
  text_of, text_claim, after_at, domain_listed, domain_allowed, passes_domains, identity_of,
  fetched, cached, validate_userinfo, claims_for, validate, after,
}

no_entry : (e : UserinfoEntry) → ¬ (◌≡◌ {A = Option UserinfoEntry} none (some e))
no_entry e h = cc

no_claims : (claims : Claims) → ¬ (◌≡◌ {A = Option Claims} none (some claims))
no_claims claims h = cc

nothing_held : (key : String) (e : UserinfoEntry) → ¬ (Dict.get Dict.empty key ≡ some e)
nothing_held key e h = no_entry e (sym (get-empty key) ∙ h)

text_of-claim : (o : Option Claim) → text_of o ≢ "" → o ≡ some (text (text_of o))
unfolding text_of
text_of-claim none h = absurd (h refl)
text_of-claim (some other_claim) h = absurd (h refl)
text_of-claim (some (text s)) h = refl

module _ (equal_fold : String → String → Bool) where
  -- no filter, or an email claim whose domain is on the list
  abbrev pub DomainAllowed : OidcConfig → Claims → Type 0
  DomainAllowed cfg claims =
      (cfg.allowed_domains ≡ [])
      ⊎ ((email : String) × (domain : String) × (Dict.get claims "email" ≡ some (text email))
          × (after_at email ≡ some domain)
          × (any (equal_fold domain) cfg.allowed_domains ≡ true))

  -- The claims hold the identity under the configured name, and pass the filter.
  pub record Holds (cfg : OidcConfig) (claims : Claims) (identity : String) : Type 0 where
    pub claimed : Dict.get claims cfg.caller_claim ≡ some (text identity)
    pub not_empty : identity ≢ ""
    pub domain : DomainAllowed cfg claims

  domain_listed-any :
      (allowed : List String) (o : Option String)
      → domain_listed equal_fold allowed o ≡ true
      → (d : String) × (o ≡ some d) × (any (equal_fold d) allowed ≡ true)
  unfolding domain_listed
  domain_listed-any allowed none h = cc
  domain_listed-any allowed (some d) h = (d, refl, h)

  passes_domains-DomainAllowed :
      (cfg : OidcConfig) (claims : Claims) (ds : List String)
      → cfg.allowed_domains ≡ ds
      → passes_domains equal_fold cfg ds (text_claim claims "email") ≡ true
      → DomainAllowed cfg claims
  unfolding passes_domains domain_allowed text_claim
  passes_domains-DomainAllowed cfg claims [] e h = inl e
  passes_domains-DomainAllowed cfg claims (d ∷ ds) e h =
      let o = Dict.get claims "email" in
      elim (Bool-cases (str_eq (text_of o) "")) [
        | inl t ↦ absurd (ground arith)
        | inr f ↦
            let (domain, split, listed) =
              domain_listed-any cfg.allowed_domains (after_at (text_of o)) (rw f at h) in
            inr (
              text_of o,
              domain,
              text_of-claim o (λ e. ground (arith, eq_iff (text_of o) "")),
              split,
              listed,
            )
      ]

  identity_of-Holds :
      (cfg : OidcConfig) (o : Option Claims) (identity : String)
      → identity_of equal_fold cfg o ≡ some identity
      → (claims : Claims) × (o ≡ some claims) × Holds cfg claims identity
  unfolding identity_of text_claim
  identity_of-Holds cfg none identity h = cc
  identity_of-Holds cfg (some claims) identity h =
      let held = text_of (Dict.get claims cfg.caller_claim) in
      elim (Bool-cases (str_eq held "")) [
        | inl t ↦ absurd (ground arith)
        | inr f ↦
            elim (Bool-cases
              (passes_domains equal_fold cfg cfg.allowed_domains (text_claim claims "email"))) [
                | inl p ↦
                    let same : held ≡ identity = ground arith in
                    let not_empty : held ≢ "" = λ e. ground (arith, eq_iff held "") in
                    (
                      claims,
                      refl,
                      record {
                        claimed =
                            text_of-claim (Dict.get claims cfg.caller_claim) not_empty
                            ∙ ap (λ (s : String). some (text s)) same;
                        not_empty = λ e. not_empty (same ∙ e);
                        domain = passes_domains-DomainAllowed cfg claims cfg.allowed_domains refl p;
                      },
                    )
                | inr q ↦ absurd (ground arith)
              ]
      ]

  module _ (hash : String → String) (verify : ℕ → String → Option Claims)
      (userinfo : ℕ → String → Option Claims) where
    -- An entry has what the endpoint gave, five minutes before it expires, for a token of this hash.
    abbrev IsBacked : String → UserinfoEntry → Type 0
    IsBacked key e =
        (time : ℕ) × (token : String) × (hash token ≡ key)
        × (userinfo time token ≡ some e.claims)
        × (e.expires_at ≡ time + cache_ttl)

    record IsSound (cfg : OidcConfig) (v : OidcValidator) : Type 0 where
      same_cfg : v.cfg ≡ cfg
      backed :
          (key : String) (e : UserinfoEntry)
          → Dict.get v.userinfo_cache key ≡ some e
          → IsBacked key e

    abbrev pub FromEndpoint : ℕ → String → Claims → Type 0
    FromEndpoint now token claims =
        (time : ℕ) × (earlier : String) × (hash earlier ≡ hash token)
        × (userinfo time earlier ≡ some claims)
        × (now < time + cache_ttl)

    -- The claims are those of the verifier, or of the endpoint less than five minutes ago, for a
    -- token of the same hash.
    abbrev pub Vouches : OidcConfig → ℕ → String → Claims → Type 0
    Vouches cfg now token claims =
        ((cfg.validation ≡ "jwt") × (verify now token ≡ some claims))
        ⊎ ((cfg.validation ≡ "userinfo") × FromEndpoint now token claims)

    put-IsBacked :
        (cfg : OidcConfig) (v : OidcValidator) (now : ℕ) (token : String) (claims : Claims)
        → IsSound cfg v
        → userinfo now token ≡ some claims
        → (key : String) (e : UserinfoEntry)
        → Dict.get
            (Dict.put v.userinfo_cache
              (hash token)
              (record { claims = claims; expires_at = now + cache_ttl }))
            key
          ≡ some e
        → IsBacked key e
    put-IsBacked cfg v now token claims s found key e held =
        let new : UserinfoEntry = record { claims = claims; expires_at = now + cache_ttl } in
        let law = get-put v.userinfo_cache (hash token) key new in
        elim (Bool-cases (str_eq (hash token) key)) [
          | inl t ↦
              let entry : some new ≡ some e = rw t at (sym law ∙ held) in
              let same : new ≡ e = cc in
              let backed : IsBacked key new =
                (now, token, (eq_iff (hash token) key).0 t, found, refl) in
              subst (IsBacked key) same backed
          | inr f ↦ s.backed key e (rw f at (sym law ∙ held))
        ]

    fetched-IsSound :
        (cfg : OidcConfig) (v : OidcValidator) (now : ℕ) (token : String) (o : Option Claims)
        → IsSound cfg v
        → userinfo now token ≡ o
        → IsSound cfg (fetched equal_fold hash verify userinfo now token v o).0
    unfolding fetched
    fetched-IsSound cfg v now token none s found = s
    fetched-IsSound cfg v now token (some claims) s found = record {
      same_cfg = s.same_cfg;
      backed = put-IsBacked cfg v now token claims s found;
    }

    fetched-FromEndpoint :
        (v : OidcValidator) (now : ℕ) (token : String) (o : Option Claims) (claims : Claims)
        → userinfo now token ≡ o
        → (fetched equal_fold hash verify userinfo now token v o).1 ≡ some claims
        → FromEndpoint now token claims
    unfolding fetched
    fetched-FromEndpoint v now token none claims found h = cc
    fetched-FromEndpoint v now token (some c) claims found h =
        (now, token, refl, found ∙ h, omega arith)

    cached-IsSound :
        (cfg : OidcConfig) (v : OidcValidator) (now : ℕ) (token : String) (o : Option UserinfoEntry)
        → IsSound cfg v
        → IsSound cfg (cached equal_fold hash verify userinfo now token v o).0
    unfolding cached
    cached-IsSound cfg v now token none s =
        fetched-IsSound cfg v now token (userinfo now token) s refl
    cached-IsSound cfg v now token (some e) s = elim (Bool-cases (ltb now e.expires_at)) [
      | inl t ↦ rw t s
      | inr f ↦ rw f (fetched-IsSound cfg v now token (userinfo now token) s refl)
    ]

    cached-FromEndpoint :
        (cfg : OidcConfig) (v : OidcValidator) (now : ℕ) (token : String) (o : Option UserinfoEntry)
        (claims : Claims)
        → IsSound cfg v
        → Dict.get v.userinfo_cache (hash token) ≡ o
        → (cached equal_fold hash verify userinfo now token v o).1 ≡ some claims
        → FromEndpoint now token claims
    unfolding cached
    cached-FromEndpoint cfg v now token none claims s held h =
        fetched-FromEndpoint v now token (userinfo now token) claims refl h
    cached-FromEndpoint cfg v now token (some e) claims s held h =
        elim (Bool-cases (ltb now e.expires_at)) [
          | inl t ↦
              let (time, earlier, same, found, expiry) = s.backed (hash token) e held in
              let kept : some e.claims ≡ some claims = rw t at h in
              (time, earlier, same, found ∙ kept, omega (arith, ltb→lt now e.expires_at t, expiry))
          | inr f ↦ fetched-FromEndpoint v now token (userinfo now token) claims refl (rw f at h)
        ]

    claims_for-IsSound :
        (cfg : OidcConfig) (v : OidcValidator) (now : ℕ) (token : String)
        → IsSound cfg v
        → IsSound cfg (claims_for equal_fold hash verify userinfo now token v).0
    unfolding claims_for validate_userinfo
    claims_for-IsSound cfg v now token s = elim (Bool-cases (str_eq v.cfg.validation "jwt")) [
      | inl t ↦ rw t s
      | inr f ↦ elim (Bool-cases (str_eq v.cfg.validation "userinfo")) [
        | inl u ↦
            rw (f, u) (cached-IsSound cfg v now token (Dict.get v.userinfo_cache (hash token)) s)
        | inr g ↦ rw (f, g) s
      ]
    ]

    claims_for-Vouches :
        (cfg : OidcConfig) (v : OidcValidator) (now : ℕ) (token : String) (claims : Claims)
        → IsSound cfg v
        → (claims_for equal_fold hash verify userinfo now token v).1 ≡ some claims
        → Vouches cfg now token claims
    unfolding claims_for validate_userinfo
    claims_for-Vouches cfg v now token claims s h =
        let mode = ap (λ (c : OidcConfig). c.validation) s.same_cfg in
        elim (Bool-cases (str_eq v.cfg.validation "jwt")) [
          | inl t ↦ inl (sym mode ∙ (eq_iff v.cfg.validation "jwt").0 t, rw t at h)
          | inr f ↦ elim (Bool-cases (str_eq v.cfg.validation "userinfo")) [
            | inl u ↦ inr (
              sym mode ∙ (eq_iff v.cfg.validation "userinfo").0 u,
              cached-FromEndpoint cfg v now token (Dict.get v.userinfo_cache (hash token)) claims s
                  refl (rw (f, u) at h),
            )
            | inr g ↦ absurd (no_claims claims (rw (f, g) at h))
          ]
        ]

    after-IsSound :
        (cfg : OidcConfig) (history : List (ℕ × String))
        → IsSound cfg (after equal_fold hash verify userinfo cfg history)
    unfolding after validate new_oidc_validator
    after-IsSound cfg [] = record {
      same_cfg = refl;
      backed = λ key e h. absurd (nothing_held key e h);
    }
    after-IsSound cfg ((now, token) ∷ older) =
        claims_for-IsSound cfg (after equal_fold hash verify userinfo cfg older) now token
          (after-IsSound cfg older)

    -- An identity that a validator gives for a token, after any tokens before, is the configured claim
    -- of claims that the JWT verifier gives for the token, or that the userinfo endpoint gave less
    -- than five minutes ago for a token of the same hash; it is not empty, and where domains are
    -- listed, the claims have an email of a listed domain.
    pub validate_vouched :
        (cfg : OidcConfig) (history : List (ℕ × String)) (now : ℕ) (token identity : String)
        → (validate equal_fold hash verify userinfo now token
            (after equal_fold hash verify userinfo cfg history)).1
          ≡ some identity
        → (claims : Claims) × Vouches cfg now token claims × Holds cfg claims identity
    unfolding validate
    validate_vouched cfg history now token identity h =
        let v = after equal_fold hash verify userinfo cfg history in
        let s = after-IsSound cfg history in
        let (claims, found, holds) =
          identity_of-Holds v.cfg (claims_for equal_fold hash verify userinfo now token v).1
            identity h in
        (
          claims,
          claims_for-Vouches cfg v now token claims s found,
          subst (λ k. Holds k claims identity) s.same_cfg holds,
        )
