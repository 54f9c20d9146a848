-- ===== src/Oauth/Connect/Tests.antt =====
-- Connect tokens at concrete inputs, with a MAC that only marks its text, and numbers in unary.
use Prim.Native.String.{◌++◌}
use stile.Prelude.{
  ℕ, zero, suc, ◌+◌, ◌<◌, ◌≤◌, ◌^◌, ◌≡◌, refl, ap, arith, String, Option, none, some, List, [], ◌∷◌,
}
use stile.Prelude.Split.{split_first, split_first-other}
use stile.Prelude.Int.{pos}
use stile.Oauth.Refresh.{ProviderInfo, find_info}
use stile.Oauth.Flow.{StateClaims}
use stile.Oauth.Connect.{
  split_bar, Signer, connect_token_ttl, caller, refused, token_expired, bad_signature, malformed,
  sign_connect_token, verify_connect_token, handle_connect, authentication_required, redirect,
  invalid_connect_token, ConnectReply,
}
use stile.Oauth.Connect.RoundTrip.{Codes, verify_connect_token-sign_connect_token}
use stile.Oauth.Connect.Authorized.{IsProven, Starts, handle_connect-Starts}

ones : ℕ → String
ones zero = ""
ones (suc n) = String.◌∷◌ "1" (ones n)

count_ones : String → ℕ
count_ones String.[] = zero
count_ones (String.◌∷◌ c s) = suc (count_ones s)

abbrev signer : Signer
signer = record {
  mac = λ s. "mac:" ++ s;
  encode = λ s. s;
  decode = λ s. some s;
  format_int = ones;
  parse_int = λ s. some (pos (count_ones s));
}

count_ones-ones : (n : ℕ) → count_ones (ones n) ≡ n
unfolding ones count_ones
count_ones-ones zero = refl
count_ones-ones (suc n) = ap (λ (k : ℕ). suc k) (count_ones-ones n)

split_bar-ones : (n : ℕ) → split_bar (ones n) ≡ none
unfolding ones split_first
split_bar-ones zero = refl
split_bar-ones (suc n) = split_first-other "|" "1" (ones n) refl (split_bar-ones n)

signer-Codes : Codes signer
signer-Codes = record {
  decodes = λ t. refl;
  parses = λ n h. ap (λ (k : ℕ). some (pos k)) (count_ones-ones n);
  digits = split_bar-ones;
}

in_time : verify_connect_token signer 300 (sign_connect_token signer 0 "alice") ≡ caller "alice"
unfolding verify_connect_token sign_connect_token split_first ones count_ones
in_time = refl

too_late :
    verify_connect_token signer 301 (sign_connect_token signer 0 "alice") ≡ refused token_expired
unfolding verify_connect_token sign_connect_token split_first ones count_ones
too_late = refl

name_with_bar :
    verify_connect_token signer 0 (sign_connect_token signer 0 "a|b") ≡ refused bad_signature
unfolding verify_connect_token sign_connect_token split_first ones count_ones
name_with_bar = refl

no_parts : verify_connect_token signer 0 "alice" ≡ refused malformed
unfolding verify_connect_token split_first
no_parts = refl

fits : 0 + connect_token_ttl < 2 ^ 63
fits = omega arith

soon : 300 ≤ 0 + connect_token_ttl
soon = omega arith

clear_name : split_bar "alice" ≡ none
unfolding split_first
clear_name = refl

verify_connect_token-sign_connect_token_example :
    verify_connect_token signer 300 (sign_connect_token signer 0 "alice") ≡ caller "alice"
verify_connect_token-sign_connect_token_example =
    verify_connect_token-sign_connect_token signer signer-Codes 0 300 "alice" clear_name fits soon

abbrev infos : List ProviderInfo
infos =
    record {
      config = record {
        name = "github";
        auth_url = "https://github/authorize";
        token_url = "t";
        client_id_env = "I";
        client_secret_env = "S";
        scopes = [];
      };
      client_id = "id";
      client_secret = "secret";
    }
    ∷ []

abbrev sign : ℕ → StateClaims → Option String
sign now c = some (c.subject ++ c.code_verifier)

-- the start of the flow at second 5, with the verifier "v"
abbrev start : String → String → String → ConnectReply
start in_context tok provider =
    handle_connect signer sign (λ v. v) (λ scopes. "") infos "https://stile" 5 (some "v") in_context
      tok provider

abbrev query : List (String × String)
query =
    ("client_id", "id")
    ∷ ("response_type", "code")
    ∷ ("redirect_uri", "https://stile/oauth/callback")
    ∷ ("state", "alicev")
    ∷ ("code_challenge", "v")
    ∷ ("code_challenge_method", "S256")
    ∷ []

starts_by_token :
    start "" "alice|11111|mac:alice|11111" "github" ≡ redirect "https://github/authorize" query
unfolding handle_connect find_info split_first count_ones verify_connect_token
starts_by_token = refl

expired_token : start "" "alice|1111|mac:alice|1111" "github" ≡ invalid_connect_token
unfolding handle_connect find_info split_first count_ones verify_connect_token
expired_token = refl

nobody : start "" "" "github" ≡ authentication_required
unfolding handle_connect
nobody = refl

handle_connect-Starts_example :
    (name : String) × IsProven signer sign
      (λ v. v)
      (λ scopes. "")
      infos
      "https://stile"
      5
      ""
      "alice|11111|mac:alice|11111"
      name
    × Starts signer sign
        (λ v. v)
        (λ scopes. "")
        infos
        "https://stile"
        5
        (some "v")
        "github"
        name
        "https://github/authorize"
        query
handle_connect-Starts_example =
    handle_connect-Starts signer sign (λ v. v) (λ scopes. "") infos "https://stile" 5 (some "v") ""
      "alice|11111|mac:alice|11111" "github" "https://github/authorize" query starts_by_token
