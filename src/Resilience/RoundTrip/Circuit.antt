-- ===== src/Resilience/RoundTrip/Circuit.antt =====
-- The whole round trip: the breaker's check in front of the loop, and its record behind it.
use stile.Prelude.{ℕ, zero, suc, ◌<◌, ◌≡◌, ◌≢◌, refl, Option, none, some, arith, ltb, if◌then◌else◌}
use stile.Resilience.Breaker.{
  closed, half_open, BreakerError, CircuitBreaker, allow, record_success, record_failure,
}
use stile.Resilience.Breaker.Abstract.{
  IsValid, allow-IsValid, record_success-IsValid, record_failure-IsValid,
}
use stile.Resilience.Retry.{RetryPolicy}
use stile.Resilience.RoundTrip.{
  Env, ResilientTransport, Outcome, result, error, Loop, attempts_allowed, Done, run_loop, settle,
  finish, checked, start, round_trip,
}
use stile.Resilience.RoundTrip.Attempts.{Ends, attempts-Ends}

attempts_allowed_pos : (r : Option RetryPolicy) → (n : ℕ) × (attempts_allowed r ≡ suc n)
attempts_allowed_pos none = (0, refl)
attempts_allowed_pos (some rp) = positive rp.max_attempts
  where
    positive : (m : ℕ) → (n : ℕ) × ((if ltb 1 m then m else 1) ≡ suc n)
    positive zero = (0, refl)
    positive (suc m) = (m, ground arith)

threshold-allow : (now : ℕ) (cb : CircuitBreaker) → (allow now cb).0.threshold ≡ cb.threshold
unfolding allow
threshold-allow now cb = ground arith

module _ {A : Type 0} where
  abbrev pub looped : Done A → Loop A
  looped d = record { end = d.outcome; calls = d.sent; retried = d.retries }

  run_loop-Ends :
      (env : Env A) (rt : ResilientTransport)
      → Ends env rt (attempts_allowed rt.retry) 0 (run_loop env rt)
  unfolding run_loop
  run_loop-Ends env rt =
      let (n, e) = attempts_allowed_pos rt.retry in rw e (attempts-Ends env rt n 0 none)

  -- the breaker's answer at the start of a call, where the transport has a breaker
  abbrev pub verdict : Env A → Option CircuitBreaker → Option BreakerError
  verdict env none = none
  verdict env (some cb) = (allow env.checked_at cb).1

  checked-looped :
      (env : Env A) (rt : ResilientTransport) (c : CircuitBreaker × Option BreakerError)
      → c.1 ≡ none
      → looped (checked env rt c) ≡ run_loop env rt
  unfolding checked
  checked-looped env rt (cb, none) h = refl
  checked-looped env rt (cb, some e) h = cc

  start-looped :
      (env : Env A) (rt : ResilientTransport) (o : Option CircuitBreaker)
      → verdict env o ≡ none
      → looped (start env rt o) ≡ run_loop env rt
  unfolding start
  start-looped env rt none h = refl
  start-looped env rt (some cb) h = checked-looped env rt (allow env.checked_at cb) h

  -- A call that the breaker lets through, or that has no breaker, ends as the retry loop may end with
  -- as many attempts as the policy allows: with the first answer after retryable failures only, with
  -- a failure that is not retryable or is the last one allowed, or cut short by the context or the
  -- wait. Its outcome and the number of calls of the inner transport are those of that ending.
  pub round_trip-Ends :
      (env : Env A) (rt : ResilientTransport)
      → verdict env rt.cb ≡ none
      → Ends env rt (attempts_allowed rt.retry) 0 (looped (round_trip env rt))
  unfolding round_trip
  round_trip-Ends env rt h = rw (start-looped env rt rt.cb h) (run_loop-Ends env rt)

  -- The breaker that a call has settled: it is valid, no probe is left under way, and a result has
  -- closed it.
  pub record Settled (o : Outcome A) (b : CircuitBreaker) : Type 0 where
    pub valid : IsValid b
    pub not_probing : b.state ≢ half_open
    pub closes : (a : A) → o ≡ result a → (b.state ≡ closed) × (b.consecutive_fails ≡ 0)

  settle-Settled :
      (env : Env A) (o : Outcome A) (b : CircuitBreaker)
      → 0 < b.threshold
      → IsValid b
      → Settled o (settle env o b)
  unfolding settle
  settle-Settled env (result a) b h v = record {
    valid = record_success-IsValid b h v;
    not_probing = unfold record_success in λ e. cc;
    closes = unfold record_success in λ x e. (refl, refl);
  }
  settle-Settled env (error f) b h v = record {
    valid = record_failure-IsValid env.failed_at b v;
    not_probing = unfold record_failure in ground arith;
    closes = λ x e. cc;
  }

  checked-breaker :
      (env : Env A) (rt : ResilientTransport) (c : CircuitBreaker × Option BreakerError)
      → c.1 ≡ none
      → (checked env rt c).breaker
        ≡ some (env.after (settle env (checked env rt c).outcome (env.during c.0)))
  unfolding checked finish
  checked-breaker env rt (cb, none) h = refl
  checked-breaker env rt (cb, some e) h = cc

  -- A call that a valid breaker of a positive threshold lets through settles it, as long as other
  -- goroutines keep it valid and leave its threshold alone meanwhile: just after the call's record
  -- the breaker is valid, it is not half-open, and it is closed with no failures if the call has a
  -- result. What is left at the end is what other goroutines make of that.
  pub round_trip-Settled :
      (env : Env A) (rt : ResilientTransport) (cb : CircuitBreaker)
      → rt.cb ≡ some cb
      → (allow env.checked_at cb).1 ≡ none
      → 0 < cb.threshold
      → IsValid cb
      → ((b : CircuitBreaker) → IsValid b → IsValid (env.during b))
      → ((b : CircuitBreaker) → (env.during b).threshold ≡ b.threshold)
      → (b : CircuitBreaker) × ((round_trip env rt).breaker ≡ some (env.after b))
        × Settled (round_trip env rt).outcome b
  unfolding round_trip start
  round_trip-Settled env rt cb p admitted positive v keeps same =
      let c = allow env.checked_at cb in
      let b : CircuitBreaker = settle env (checked env rt c).outcome (env.during c.0) in
      rw p (
        b,
        checked-breaker env rt c admitted,
        settle-Settled env (checked env rt c).outcome (env.during c.0)
            (omega (arith, same c.0, threshold-allow env.checked_at cb))
            (keeps c.0 (allow-IsValid env.checked_at cb v)),
      )
