-- ===== src/Auth/Oidc/Tests.antt =====
-- Runs of the OIDC validator, and its theorem at a concrete token.
use stile.Prelude.{
  ℕ, ◌≡◌, refl, String, false, Option, none, some, List, [], ◌∷◌, str_eq, ltb, ◌&&◌, if◌then◌else◌,
}
use stile.Prelude.Dict.{binding, no_bindings}
use stile.Config.Values.{OidcConfig}
use stile.Auth.Oidc.{text, Claims, after_at, validate, after}
use stile.Auth.Oidc.Vouched.{Holds, Vouches, validate_vouched}

abbrev by_userinfo : OidcConfig
by_userinfo = record {
  issuer = "https://issuer";
  audience = "";
  caller_claim = "sub";
  validation = "userinfo";
  auto_provision = false;
  default_roles = [];
  allowed_domains = "corp.com" ∷ [];
}

abbrev alice : Claims
alice = binding "sub" (text "alice") (binding "email" (text "a@corp.com") no_bindings)

abbrev mallory : Claims
mallory = binding "sub" (text "mallory") (binding "email" (text "m@evil.com") no_bindings)

abbrev no_email : Claims
no_email = binding "sub" (text "bob") no_bindings

abbrev hash : String → String
hash token = token

abbrev verify : ℕ → String → Option Claims
verify now token = none

-- the endpoint knows three tokens, the first of them until the moment 10
abbrev userinfo : ℕ → String → Option Claims
userinfo now token =
    if str_eq token "t" && ltb now 10
    then some alice
    else if str_eq token "m"
    then some mallory
    else if str_eq token "b"
    then some no_email
    else none

-- the identity for a token at a time, after these tokens
abbrev identity : List (ℕ × String) → ℕ → String → Option String
identity history now token =
    (validate str_eq hash verify userinfo now token
      (after str_eq hash verify userinfo by_userinfo history)).1

after_at_split : after_at "a@b@c" ≡ some "b@c"
unfolding after_at
after_at_split = refl

fresh_token : identity [] 3 "t" ≡ some "alice"
unfolding validate after after_at
fresh_token = refl

kept_after_revocation : identity ((3, "t") ∷ []) 300000000002 "t" ≡ some "alice"
unfolding validate after after_at
kept_after_revocation = refl

forgotten_in_time : identity ((3, "t") ∷ []) 300000000003 "t" ≡ none
unfolding validate after after_at
forgotten_in_time = refl

foreign_domain : identity [] 3 "m" ≡ none
unfolding validate after after_at
foreign_domain = refl

no_email_claim : identity [] 3 "b" ≡ none
unfolding validate after after_at
no_email_claim = refl

validate_vouched_example :
    (claims : Claims) × Vouches str_eq hash verify userinfo by_userinfo 300000000002 "t" claims
    × Holds str_eq by_userinfo claims "alice"
validate_vouched_example =
    validate_vouched str_eq hash verify userinfo by_userinfo ((3, "t") ∷ []) 300000000002 "t"
      "alice" kept_after_revocation
