-- ===== src/Resilience/RoundTrip/Attempts.antt =====
-- The retry loop: which attempts are made, and with what the loop ends.
use stile.Prelude.{
  ℕ, zero, suc, ◌+◌, ◌-◌, ◌<◌, ◌≡◌, refl, ◌⊎◌, inl, inr, true, false, Option, some, arith,
  Bool-cases,
}
use stile.Resilience.Retry.{Error, is_retryable}
use stile.Resilience.RoundTrip.{
  Answer, answered, failed, Env, ResilientTransport, result, error, last_error, Loop, Gate, go,
  stop, gate, pass, attempt, attempts,
}

module _ {A : Type 0} (env : Env A) (rt : ResilientTransport) where
  -- The `k` attempts from number `i` on were all made, and each failed with a retryable error.
  abbrev pub AllRetried : ℕ → ℕ → Type 0
  AllRetried i zero = Unit
  AllRetried i (suc k) =
      (e : Error) × (env.inner i ≡ failed e)
      × (is_retryable rt.retry e ≡ true)
      × AllRetried (i + 1) k

  -- How a loop of at most `n` attempts from number `i` on may end, after `k` retryable failures.
  pub data Ends (n i : ℕ) (l : Loop A) : Type 0 where
    got :
        (k : ℕ) (a : A)
        → k < n
        → AllRetried i k
        → env.inner (i + k) ≡ answered a
        → l.end ≡ result a
        → l.calls ≡ k + 1
        → Ends n i l
    gave_up :
        (k : ℕ) (e : Error)
        → k < n
        → AllRetried i k
        → env.inner (i + k) ≡ failed e
        → (is_retryable rt.retry e ≡ false) ⊎ (k + 1 ≡ n)
        → l.end ≡ error (last_error (some e))
        → l.calls ≡ k + 1
        → Ends n i l
    cut_short :
        (k : ℕ) (e : Error)
        → k < n
        → 0 < i + k
        → AllRetried i k
        → (env.ctx_err (i + k) ≡ some e) ⊎ (env.wait_err (i + k - 1) ≡ some e)
        → l.end ≡ error (last_error (some e))
        → l.calls ≡ k
        → Ends n i l

  -- One more retryable failure in front.
  Ends-bump :
      (n i r : ℕ) (e : Error) (l : Loop A)
      → env.inner i ≡ failed e
      → is_retryable rt.retry e ≡ true
      → Ends n (i + 1) l
      → Ends (suc n) i (record l { calls = l.calls + 1; retried = r })
  Ends-bump n i r e l f t (got k a b c d g h) =
      let shift : i + 1 + k ≡ i + suc k = omega arith in
      got (suc k) a (omega arith) (e, f, t, c) (rw shift at d) g (omega arith)
  Ends-bump n i r e l f t (gave_up k x b c d o g h) =
      let shift : i + 1 + k ≡ i + suc k = omega arith in
      gave_up (suc k) x (omega arith) (e, f, t, c) (rw shift at d) (ground arith) g (omega arith)
  Ends-bump n i r e l f t (cut_short k x b p c o g h) =
      let shift : i + 1 + k ≡ i + suc k = omega arith in
      cut_short (suc k) x (omega arith) (omega arith) (e, f, t, c) (rw shift at o) g (omega arith)

  gate-stop :
      (i r : ℕ) (e : Error)
      → gate env rt.has_metrics i ≡ stop r e
      → (0 < i) × ((env.ctx_err i ≡ some e) ⊎ (env.wait_err (i - 1) ≡ some e))
  unfolding gate
  gate-stop zero r e h = cc
  gate-stop (suc i) r e h = let back : suc i - 1 ≡ i = omega arith in rw back (ground arith)

  -- What an attempt comes to, given what the loop does after it fails with a retryable error.
  attempt-Ends :
      (n i : ℕ) (g : Gate) (a : Answer A) (rest : Error → Loop A)
      → gate env rt.has_metrics i ≡ g
      → env.inner i ≡ a
      → ((e : Error)
          → env.inner i ≡ failed e
          → is_retryable rt.retry e ≡ true
          → (r : ℕ) → Ends (suc n) i (record (rest e) { calls = (rest e).calls + 1; retried = r }))
      → Ends (suc n) i (pass g (attempt rt.retry a rest))
  unfolding pass attempt
  attempt-Ends n i (stop r e) a rest p q next =
      let (later, o) = gate-stop i r e p in
      let z : i ≡ i + 0 = omega arith in
      cut_short 0 e (omega arith) (omega arith) tt (rw z at o) refl refl
  attempt-Ends n i (go r) (answered a) rest p q next =
      let z : i ≡ i + 0 = omega arith in got 0 a (omega arith) tt (rw z at q) refl (omega arith)
  attempt-Ends n i (go r) (failed e) rest p q next = elim (Bool-cases (is_retryable rt.retry e)) [
    | inl t ↦ rw t (next e q t _)
    | inr f ↦
        let z : i ≡ i + 0 = omega arith in
        rw f (gave_up 0 e (omega arith) tt (rw z at q) (inl f) refl (omega arith))
  ]

  pub attempts-Ends :
      (n i : ℕ) (last : Option Error) → Ends (suc n) i (attempts env rt (suc n) i last)
  unfolding attempts
  attempts-Ends zero i last = attempt-Ends zero i _ _ _ refl refl λ e q t r.
      let z : i ≡ i + 0 = omega arith in
      gave_up 0 e (omega arith) tt (rw z at q) (inr (omega arith)) refl (omega arith)
  attempts-Ends (suc n) i last =
      attempt-Ends (suc n) i _ _ _ refl refl
        λ e q t r. Ends-bump (suc n) i r e _ q t (attempts-Ends n (i + 1) (some e))
