-- ===== src/Transport/Http/Healthy.antt =====
-- When an HTTP transport reports itself healthy.
use stile.Prelude.{
  ℕ, ◌+◌, ◌≤◌, ◌≡◌, ◌↔◌, refl, sym, ◌∙◌, String, Bool, true, false, ◌||◌, Option, List, [], ◌∷◌,
  ltb, leb, arith, if◌then◌else◌, Bool-cases, inl, inr, le→leb,
}
use stile.Rpc.{Response}
use stile.Transport.Http.{
  HttpTransport, new_http_transport, record_failure, record_success, HttpReply, no_response,
  response, round_trip, is_error_status, of_status,
}

-- no response, or a status of 500 and more
abbrev pub IsFailure : HttpReply → Type 0
IsFailure (no_response why) = Unit
IsFailure (response status content_type body) = 500 ≤ status

-- the newest three failed
abbrev pub ThreeFailures : List HttpReply → Type 0
ThreeFailures (a ∷ b ∷ c ∷ older) = IsFailure a × IsFailure b × IsFailure c
ThreeFailures _ = ⊥

is_failure : HttpReply → Bool
is_failure (no_response why) = true
is_failure (response status content_type body) = leb 500 status

is_failure-IsFailure : (r : HttpReply) → (is_failure r ≡ true) ↔ IsFailure r
unfolding is_failure
is_failure-IsFailure (no_response why) = (λ h. tt, λ h. refl)
is_failure-IsFailure (response status content_type body) =
    (λ h. ground arith, λ h. le→leb 500 status h)

-- the failures that are newest, up to the first success
trailing : List HttpReply → ℕ
unfolding is_failure
trailing [] = 0
trailing (r ∷ older) = let n = trailing older in if is_failure r then n + 1 else 0

module _ (decode : String → Option Response) (url token : String) where
  -- a new transport after these replies, the newest first
  unfoldable pub after : List HttpReply → HttpTransport
  unfolding round_trip new_http_transport
  after [] = new_http_transport url token
  after (r ∷ older) = (round_trip decode (after older) r).0

  record IsCounted (n : ℕ) (t : HttpTransport) : Type 0 where
    counted : t.consecutive_fails ≡ n
    threshold : t.fail_threshold ≡ 3
    judged : t.healthy ≡ ltb n 3

  record_failure-IsCounted :
      (n : ℕ) (t : HttpTransport) → IsCounted n t → IsCounted (n + 1) (record_failure t)
  unfolding record_failure
  record_failure-IsCounted n t c = ground arith

  record_success-IsCounted :
      (n : ℕ) (t : HttpTransport) → IsCounted n t → IsCounted 0 (record_success t)
  unfolding record_success
  record_success-IsCounted n t c = ground arith

  round_trip-IsCounted :
      (n : ℕ) (t : HttpTransport) (r : HttpReply)
      → IsCounted n t
      → IsCounted (if is_failure r then n + 1 else 0) (round_trip decode t r).0
  unfolding round_trip is_failure of_status is_error_status
  round_trip-IsCounted n t (no_response why) c = record_failure-IsCounted n t c
  round_trip-IsCounted n t (response status content_type body) c =
      elim (Bool-cases (leb 500 status)) [
        | inl bad ↦
            let outside : (ltb status 200 || leb 300 status) ≡ true = ground arith in
            rw (bad, outside) (record_failure-IsCounted n t c)
        | inr fine ↦ elim (Bool-cases (ltb status 200 || leb 300 status)) [
          | inl outside ↦ rw (fine, outside) (record_success-IsCounted n t c)
          | inr inside ↦ rw (fine, inside) (record_success-IsCounted n t c)
        ]
      ]

  after-IsCounted : (rs : List HttpReply) → IsCounted (trailing rs) (after rs)
  unfolding after trailing
  after-IsCounted [] = record { counted = refl; threshold = refl; judged = refl }
  after-IsCounted (r ∷ older) =
      round_trip-IsCounted (trailing older) (after older) r (after-IsCounted older)

  newest_three :
      (a b c : HttpReply) (older : List HttpReply)
      → ltb (trailing (a ∷ b ∷ c ∷ older)) 3 ≡ false
      → (is_failure a ≡ true) × (is_failure b ≡ true) × (is_failure c ≡ true)
  unfolding trailing
  newest_three a b c older h = (ground arith, ground arith, ground arith)

  three_trail :
      (a b c : HttpReply) (older : List HttpReply)
      → is_failure a ≡ true
      → is_failure b ≡ true
      → is_failure c ≡ true
      → ltb (trailing (a ∷ b ∷ c ∷ older)) 3 ≡ false
  unfolding trailing
  three_trail a b c older p q r = ground arith

  unhealthy-ThreeFailures : (rs : List HttpReply) → ltb (trailing rs) 3 ≡ false → ThreeFailures rs
  unfolding trailing
  unhealthy-ThreeFailures [] h = cc
  unhealthy-ThreeFailures (a ∷ []) h = absurd (ground arith)
  unhealthy-ThreeFailures (a ∷ b ∷ []) h = absurd (ground arith)
  unhealthy-ThreeFailures (a ∷ b ∷ c ∷ older) h =
      let (p, q, r) = newest_three a b c older h in
      ((is_failure-IsFailure a).0 p, (is_failure-IsFailure b).0 q, (is_failure-IsFailure c).0 r)

  ThreeFailures-unhealthy : (rs : List HttpReply) → ThreeFailures rs → ltb (trailing rs) 3 ≡ false
  ThreeFailures-unhealthy [] h = absurd h
  ThreeFailures-unhealthy (a ∷ []) h = absurd h
  ThreeFailures-unhealthy (a ∷ b ∷ []) h = absurd h
  ThreeFailures-unhealthy (a ∷ b ∷ c ∷ older) h =
      three_trail a b c older ((is_failure-IsFailure a).1 h.0) ((is_failure-IsFailure b).1 h.1)
        ((is_failure-IsFailure c).1 h.2)

  -- After any replies a transport is unhealthy exactly where the newest three were failures: no
  -- response, or a status of 500 and more.
  pub after_exact : (rs : List HttpReply) → ((after rs).healthy ≡ false) ↔ ThreeFailures rs
  after_exact rs =
      let judged = (after-IsCounted rs).judged in
      (λ h. unhealthy-ThreeFailures rs (sym judged ∙ h), λ h. judged ∙ ThreeFailures-unhealthy rs h)
