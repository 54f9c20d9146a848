-- ===== src/Oauth/Connect/RoundTrip.antt =====
-- Connect tokens that are signed and then verified.
use Prim.Native.String.{◌++◌}
use text.Mathlib.TextLemmas.{append_assoc}
use stile.Prelude.{ℕ, ◌+◌, ◌≤◌, ◌<◌, ◌^◌, ◌≡◌, ◌∙◌, ap, String, none, some}
use stile.Prelude.Int.{pos}
use stile.Oauth.Connect.{
  split_bar, Signer, connect_token_ttl, caller, sign_connect_token, verify_connect_token,
}
use stile.Oauth.Connect.Exact.{IsSigned, verify_connect_token_exact}

-- base64 decodes what it encodes, and strconv parses what it formats of 64 bits, as digits
pub record Codes (s : Signer) : Type 0 where
  pub decodes : (t : String) → s.decode (s.encode t) ≡ some t
  pub parses : (n : ℕ) → n < 2 ^ 63 → s.parse_int (s.format_int n) ≡ some (pos n)
  pub digits : (n : ℕ) → split_bar (s.format_int n) ≡ none

-- Where base64 and strconv read what they write, a token that is signed for a caller whose name has no
-- bar is accepted for that caller until five minutes later, as long as times have 64 bits.
pub verify_connect_token-sign_connect_token :
    (s : Signer)
    → Codes s
    → (now later : ℕ) (name : String) → split_bar name ≡ none
    → now + connect_token_ttl < 2 ^ 63
    → later ≤ now + connect_token_ttl
    → verify_connect_token s later (sign_connect_token s now name) ≡ caller name
unfolding sign_connect_token
verify_connect_token-sign_connect_token s codes now later name clear fits in_time =
    let expiry = s.format_int (now + connect_token_ttl) in
    let sig = s.mac (name ++ ("|" ++ expiry)) in
    let raw = (name ++ ("|" ++ expiry)) ++ ("|" ++ sig) in
    let signed : IsSigned s later name raw = record {
      expiry = expiry;
      number = now + connect_token_ttl;
      name_clear = clear;
      expiry_clear = codes.digits (now + connect_token_ttl);
      parts =
          append_assoc name ("|" ++ expiry) ("|" ++ sig)
          ∙ ap (λ (x : String). name ++ x) (append_assoc "|" expiry ("|" ++ sig));
      parsed = codes.parses (now + connect_token_ttl) fits;
      in_time = in_time;
    } in
    (verify_connect_token_exact s later (sign_connect_token s now name) name).1
      (raw, codes.decodes raw, signed)
