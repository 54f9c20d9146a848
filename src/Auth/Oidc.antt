-- ===== src/Auth/Oidc.antt =====
-- `OIDCValidator` of internal/auth/oidc.go. The JWT verifier is that of github.com/coreos/go-oidc, the
-- userinfo endpoint that of the provider: each gives the claims of a token, at a time, or none where
-- anything fails. `hash` is the hex text of SHA-256, and `equal_fold` is strings.EqualFold.
pub mod Vouched
mod Tests
use Prim.Native.Char.{code}
use stile.Prelude.{
  ℕ, ◌+◌, String, Bool, true, false, Option, none, some, List, [], ◌∷◌, str_eq, ltb, ◌==◌, any,
  if◌then◌else◌,
}
use stile.Prelude.Dict
use stile.Prelude.Dict.{Dict}
use stile.Config.Values.{OidcConfig}

-- a value of the map of claims: a string, or anything else
pub data Claim : Type 0 where
  text : String → Claim
  other_claim : Claim

abbrev pub Claims : Type 0
Claims = Dict Claim

pub record UserinfoEntry : Type 0 where
  pub claims : Claims
  pub expires_at : ℕ

pub record OidcValidator : Type 0 where
  pub cfg : OidcConfig
  pub userinfo_cache : Dict UserinfoEntry

-- five minutes, in nanoseconds
abbrev pub cache_ttl : ℕ
cache_ttl = 300000000000

-- NewOIDCValidator, after discovery
unfoldable pub new_oidc_validator : OidcConfig → OidcValidator
unfolding Dict.empty
new_oidc_validator cfg = record { cfg = cfg; userinfo_cache = Dict.empty }

text_of : Option Claim → String
text_of none = ""
text_of (some other_claim) = ""
text_of (some (text s)) = s

-- claims[name].(string), and the empty text where it is missing or no string
unfoldable pub text_claim : Claims → String → String
unfolding text_of Dict.get
text_claim claims name = text_of (Dict.get claims name)

-- the text after the first @
unfoldable pub after_at : String → Option String
after_at String.[] = none
after_at (String.◌∷◌ c s) = let rest = after_at s in if code c == b'@' then some s else rest

module _ (equal_fold : String → String → Bool) where
  domain_listed : List String → Option String → Bool
  domain_listed allowed none = false
  domain_listed allowed (some domain) = any (equal_fold domain) allowed

  unfoldable pub domain_allowed : OidcConfig → String → Bool
  unfolding domain_listed
  domain_allowed cfg email = domain_listed cfg.allowed_domains (after_at email)

  -- the filter by domains, which none turns off
  passes_domains : OidcConfig → List String → String → Bool
  unfolding domain_allowed
  passes_domains cfg [] email = true
  passes_domains cfg (d ∷ ds) email = if str_eq email "" then false else domain_allowed cfg email

  -- Validate after the claims were found
  unfoldable pub identity_of : OidcConfig → Option Claims → Option String
  unfolding passes_domains text_claim
  identity_of cfg none = none
  identity_of cfg (some claims) =
      let identity = text_claim claims cfg.caller_claim in
      if str_eq identity ""
      then none
      else if passes_domains cfg cfg.allowed_domains (text_claim claims "email")
      then some identity
      else none

  module _ (hash : String → String) (verify : ℕ → String → Option Claims)
      (userinfo : ℕ → String → Option Claims) where
    -- the claims that the endpoint gives are kept until they expire
    fetched : ℕ → String → OidcValidator → Option Claims → OidcValidator × Option Claims
    unfolding Dict.put
    fetched now token v none = (v, none)
    fetched now token v (some claims) = (
      record v {
        userinfo_cache =
            Dict.put v.userinfo_cache (hash token)
              (record { claims = claims; expires_at = now + cache_ttl });
      },
      some claims,
    )

    cached : ℕ → String → OidcValidator → Option UserinfoEntry → OidcValidator × Option Claims
    unfolding fetched
    cached now token v none = fetched now token v (userinfo now token)
    cached now token v (some e) =
        if ltb now e.expires_at
        then (v, some e.claims)
        else fetched now token v (userinfo now token)

    unfoldable pub validate_userinfo : ℕ → String → OidcValidator → OidcValidator × Option Claims
    unfolding cached Dict.get
    validate_userinfo now token v = cached now token v (Dict.get v.userinfo_cache (hash token))

    claims_for : ℕ → String → OidcValidator → OidcValidator × Option Claims
    unfolding validate_userinfo
    claims_for now token v =
        if str_eq v.cfg.validation "jwt"
        then (v, verify now token)
        else if str_eq v.cfg.validation "userinfo"
        then validate_userinfo now token v
        else (v, none)

    -- Validate
    unfoldable pub validate : ℕ → String → OidcValidator → OidcValidator × Option String
    unfolding claims_for identity_of
    validate now token v =
        let (v', claims) = claims_for now token v in (v', identity_of v.cfg claims)

    -- the validator after these tokens, each at its time, the newest first
    unfoldable pub after : OidcConfig → List (ℕ × String) → OidcValidator
    unfolding new_oidc_validator validate
    after cfg [] = new_oidc_validator cfg
    after cfg ((now, token) ∷ older) = (validate now token (after cfg older)).0
