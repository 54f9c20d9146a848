-- ===== src/Config/Resilience/Bounds.antt =====
-- What `convert` guarantees of the numbers in a configuration: those that the circuit breaker, the
-- retries, the rate limiters and the health checker take.
use stile.Prelude.{
  ◌≡◌, ◌≢◌, inl, inr, String, Option, none, some, List, [], ◌∷◌, arith, str_eq, Bool-cases, subst,
}
use stile.Prelude.Int.{
  ℤ, pos, IsPositive, is_positive, is_positive-IsPositive, positive_or, positive_or-IsPositive,
}
use stile.Config.Raw.{RawCircuitBreakerConfig, RawRetryConfig}
use stile.Config.Limits.{Floats, RateLimit, Parsed, parsed, rejected, parse_rate_limit}
use stile.Config.Limits.{parse_rate_limit-IsUsable}
use stile.Config.Limits
use stile.Config.Error.{
  Duration, timeout, cooldown, backoff, max_backoff, Limited, Result, ok, >>=-eq-ok,
}
use stile.Config.Values.{CircuitBreakerConfig, RetryConfig}
use stile.Config.Resilience.{
  milliseconds, seconds, limit_of, optional_limit, parsed_duration, checked_duration, duration_or,
  positive_duration_or, convert_circuit_breaker, convert_retry, retryable_or, convert_timeout,
}

abbrev pub LimitIsUsable : Option RateLimit → Type 0
LimitIsUsable none = Unit
LimitIsUsable (some r) = Limits.IsUsable r

abbrev pub BreakerIsBounded : Option CircuitBreakerConfig → Type 0
BreakerIsBounded none = Unit
BreakerIsBounded (some c) = IsPositive c.failure_threshold × IsPositive c.cooldown

abbrev pub RetryIsBounded : Option RetryConfig → Type 0
RetryIsBounded none = Unit
RetryIsBounded (some r) = IsPositive r.max_attempts × (r.retryable_errors ≢ [])

pub ok_value {ℓ} : {A : Type ℓ} (a b : A) → ◌≡◌ {A = Result A} (ok a) (ok b) → a ≡ b
ok_value a b h = cc

limit_of-IsUsable :
    (what : Limited) (p : Parsed) (o : Option RateLimit)
    → ((r : RateLimit) → p ≡ parsed r → Limits.IsUsable r)
    → limit_of what p ≡ ok o
    → LimitIsUsable o
unfolding limit_of
limit_of-IsUsable what (parsed r) none good h = tt
limit_of-IsUsable what (parsed r) (some q) good h = good q (ground arith)
limit_of-IsUsable what (rejected e) o good h = cc

pub optional_limit-IsUsable :
    (f : Floats) (what : Limited) (s : String) (o : Option RateLimit)
    → optional_limit f what s ≡ ok o
    → LimitIsUsable o
unfolding optional_limit
optional_limit-IsUsable f what s o h = elim (Bool-cases (str_eq s "")) [
  | inl t ↦ subst LimitIsUsable (ok_value none o (rw t at h)) tt
  | inr u ↦
      limit_of-IsUsable what (parse_rate_limit f s) o (parse_rate_limit-IsUsable f s) (rw u at h)
]

checked_duration-IsPositive :
    (what : Duration) (d e : ℤ) → checked_duration what d ≡ ok e → IsPositive e
unfolding checked_duration
checked_duration-IsPositive what d e h = elim (Bool-cases (is_positive d)) [
  | inl t ↦ subst IsPositive (ok_value d e (rw t at h)) (is_positive-IsPositive d t)
  | inr u ↦ absurd (ground arith)
]

retryable_or-ne : (es : List String) → retryable_or es ≢ []
unfolding retryable_or
retryable_or-ne [] = λ e. cc
retryable_or-ne (e ∷ es) = λ h. cc

module _ (parse_duration : String → Option ℤ) where
  pub positive_duration_or-IsPositive :
      (what : Duration) (default : ℤ) (s : String) (d : ℤ)
      → IsPositive default
      → positive_duration_or parse_duration what default s ≡ ok d
      → IsPositive d
  unfolding positive_duration_or
  positive_duration_or-IsPositive what default s d good h = elim (Bool-cases (str_eq s "")) [
    | inl t ↦ subst IsPositive (ok_value default d (rw t at h)) good
    | inr u ↦
        let (e, found, checked) =
          >>=-eq-ok (parsed_duration what s (parse_duration s)) (checked_duration what)
            (rw u at h) in
        checked_duration-IsPositive what e d checked
  ]

  pub convert_circuit_breaker-IsBounded :
      (name : String) (c : Option RawCircuitBreakerConfig) (o : Option CircuitBreakerConfig)
      → convert_circuit_breaker parse_duration name c ≡ ok o
      → BreakerIsBounded o
  unfolding convert_circuit_breaker
  convert_circuit_breaker-IsBounded name none o h = subst BreakerIsBounded (ok_value none o h) tt
  convert_circuit_breaker-IsBounded name (some c) o h =
      let (d, found, made) =
        >>=-eq-ok (positive_duration_or parse_duration (cooldown name) (seconds 30) c.cooldown) _
          h in
      let threshold = positive_or (pos 5) c.failure_threshold in
      let bounded : BreakerIsBounded
          (some (record { failure_threshold = threshold; cooldown = d })) =
        (
          positive_or-IsPositive (pos 5) c.failure_threshold (omega arith),
          positive_duration_or-IsPositive (cooldown name) (seconds 30) c.cooldown d (omega arith)
              found,
        ) in
      subst BreakerIsBounded (ok_value _ o made) bounded

  pub convert_retry-IsBounded :
      (name : String) (r : Option RawRetryConfig) (o : Option RetryConfig)
      → convert_retry parse_duration name r ≡ ok o
      → RetryIsBounded o
  unfolding convert_retry
  convert_retry-IsBounded name none o h = subst RetryIsBounded (ok_value none o h) tt
  convert_retry-IsBounded name (some r) o h =
      let (b, first, rest) =
        >>=-eq-ok (duration_or parse_duration (backoff name) (milliseconds 100) r.backoff) _ h in
      let (mb, second, made) =
        >>=-eq-ok (duration_or parse_duration (max_backoff name) (seconds 2) r.max_backoff) _
          rest in
      let bounded : RetryIsBounded (
          some (record {
            max_attempts = positive_or (pos 1) r.max_attempts;
            backoff = b;
            max_backoff = mb;
            retryable_errors = retryable_or r.retryable_errors;
          })) =
        (
          positive_or-IsPositive (pos 1) r.max_attempts (omega arith),
          retryable_or-ne r.retryable_errors,
        ) in
      subst RetryIsBounded (ok_value _ o made) bounded

  pub convert_timeout-IsPositive :
      (name s : String) (t : ℤ) → convert_timeout parse_duration name s ≡ ok t → IsPositive t
  unfolding convert_timeout
  convert_timeout-IsPositive name s t h =
      positive_duration_or-IsPositive (timeout name) (seconds 60) s t (omega arith) h
