-- ===== src/Oauth/Connect/Exact.antt =====
-- The connect tokens that are accepted.
use Prim.Native.String.{◌++◌}
use text.Mathlib.TextLemmas.{nil-append, cons-append}
use stile.Prelude.{
  ℕ, ◌≤◌, ◌≡◌, ◌↔◌, refl, ◌∙◌, ap, inl, inr, arith, String, false, Option, subst, none, some,
  str_eq, eq_iff, eq_refl, ltb, Bool-cases,
}
use stile.Prelude.Split.{split_first-append, split_first-parts}
use stile.Prelude.Int.{ℤ, pos, negsuc}
use stile.Oauth.Connect.{
  split_bar, Signer, ConnectError, undecodable, malformed, bad_signature, caller, refused,
  check_expiry, check_parts, check_name, check_raw, verify_connect_token,
}

bar-append : (t : String) → "|" ++ t ≡ String.◌∷◌ "|" t
bar-append t = rw (cons-append, nil-append) refl

split_bar-append : (s t : String) → split_bar s ≡ none → split_bar (s ++ ("|" ++ t)) ≡ some (s, t)
split_bar-append s t h = rw (bar-append t) (split_first-append "|" s t h)

split_bar-parts :
    (s a b : String) → split_bar s ≡ some (a, b) → (s ≡ a ++ ("|" ++ b)) × (split_bar a ≡ none)
split_bar-parts s a b h = rw (bar-append b) (split_first-parts "|" s a b h)

no_caller : (why : ConnectError) (name : String) → ¬ (refused why ≡ caller name)
no_caller why name h = cc

module _ (s : Signer) where
  -- A text of the caller's name, an expiry that is not past, and the signature of both, each of
  -- which is up to the next bar.
  pub record IsSigned (now : ℕ) (name raw : String) : Type 0 where
    pub expiry : String
    pub number : ℕ
    pub name_clear : split_bar name ≡ none
    pub expiry_clear : split_bar expiry ≡ none
    pub parts : raw ≡ name ++ ("|" ++ (expiry ++ ("|" ++ s.mac (name ++ ("|" ++ expiry)))))
    pub parsed : s.parse_int expiry ≡ some (pos number)
    pub in_time : now ≤ number

  check_expiry-caller :
      (now : ℕ) (name held : String) (o : Option ℤ)
      → check_expiry s now held o ≡ caller name
      → (n : ℕ) × (o ≡ some (pos n)) × (now ≤ n) × (held ≡ name)
  unfolding check_expiry
  check_expiry-caller now name held none h = cc
  check_expiry-caller now name held (some (negsuc n)) h = cc
  check_expiry-caller now name held (some (pos n)) h = elim (Bool-cases (ltb n now)) [
    | inl e ↦ absurd (ground arith)
    | inr f ↦
        let same : caller held ≡ caller name = rw f at h in
        let names : held ≡ name = cc in (n, refl, ground arith, names)
  ]

  check_parts-IsSigned :
      (now : ℕ) (name raw held rest : String) (o : Option (String × String))
      → split_bar raw ≡ some (held, rest)
      → split_bar rest ≡ o
      → check_parts s now held o ≡ caller name
      → IsSigned now name raw
  unfolding check_parts
  check_parts-IsSigned now name raw held rest none a b h = absurd (no_caller malformed name h)
  check_parts-IsSigned now name raw held rest (some (expiry, sig)) a b h =
      elim (Bool-cases (str_eq sig (s.mac (held ++ ("|" ++ expiry))))) [
        | inl e ↦
            let (n, parsed, in_time, same) =
              check_expiry-caller now name held (s.parse_int expiry) (rw e at h) in
            let signed : sig ≡ s.mac (held ++ ("|" ++ expiry)) = (eq_iff sig _).0 e in
            let (first, clear) = split_bar-parts raw held rest a in
            let (second, expiry_clear) = split_bar-parts rest expiry sig b in
            let tail : rest ≡ expiry ++ ("|" ++ s.mac (held ++ ("|" ++ expiry))) =
              second ∙ ap (λ (x : String). expiry ++ ("|" ++ x)) signed in
            let of_held : IsSigned now held raw = record {
              expiry = expiry;
              number = n;
              name_clear = clear;
              expiry_clear = expiry_clear;
              parts = first ∙ ap (λ (x : String). held ++ ("|" ++ x)) tail;
              parsed = parsed;
              in_time = in_time;
            } in
            subst (λ (x : String). IsSigned now x raw) same of_held
        | inr f ↦ absurd (no_caller bad_signature name (rw f at h))
      ]

  check_name-IsSigned :
      (now : ℕ) (name raw : String) (o : Option (String × String))
      → split_bar raw ≡ o
      → check_name s now o ≡ caller name
      → IsSigned now name raw
  unfolding check_name
  check_name-IsSigned now name raw none a h = absurd (no_caller malformed name h)
  check_name-IsSigned now name raw (some (held, rest)) a h =
      check_parts-IsSigned now name raw held rest (split_bar rest) a refl h

  check_raw-IsSigned :
      (now : ℕ) (name : String) (o : Option String)
      → check_raw s now o ≡ caller name
      → (raw : String) × (o ≡ some raw) × IsSigned now name raw
  unfolding check_raw
  check_raw-IsSigned now name none h = absurd (no_caller undecodable name h)
  check_raw-IsSigned now name (some raw) h =
      (raw, refl, check_name-IsSigned now name raw (split_bar raw) refl h)

  IsSigned-check_raw :
      (now : ℕ) (name raw : String)
      → IsSigned now name raw
      → check_raw s now (some raw) ≡ caller name
  unfolding check_raw check_name check_parts check_expiry
  IsSigned-check_raw now name raw i =
      let sig = s.mac (name ++ ("|" ++ i.expiry)) in
      let first = split_bar-append name (i.expiry ++ ("|" ++ sig)) i.name_clear in
      let second = split_bar-append i.expiry sig i.expiry_clear in
      let late : ltb i.number now ≡ false = ground (arith, i.in_time) in
      rw (i.parts, first, second, eq_refl sig, i.parsed, late) refl

  -- A connect token is accepted for a caller exactly where it decodes to the caller's name, an expiry
  -- and a signature with bars between them, the signature is that of the name and the expiry under
  -- the key, and the expiry is a number that is not below the present second.
  pub verify_connect_token_exact :
      (now : ℕ) (tok name : String)
      → (verify_connect_token s now tok ≡ caller name)
        ↔ ((raw : String) × (s.decode tok ≡ some raw) × IsSigned now name raw)
  unfolding verify_connect_token
  verify_connect_token_exact now tok name = (
    check_raw-IsSigned now name (s.decode tok),
    λ p. rw p.1 (IsSigned-check_raw now name p.0 p.2),
  )
