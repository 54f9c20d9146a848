-- ===== src/Config/Resilience.antt =====
-- The durations, rate limits, timeouts, circuit breakers and retries of `convert` in
-- internal/config/config.go. A time.Duration is its nanoseconds; time.ParseDuration is the argument
-- `parse_duration`.
pub mod Bounds
use stile.Prelude.{
  ℕ, ◌*◌, String, Bool, true, false, Option, none, some, List, [], ◌∷◌, str_eq, if◌then◌else◌,
}
use stile.Prelude.Int.{ℤ, pos, is_positive, positive_or}
use stile.Config.Raw.{RawCircuitBreakerConfig, RawRetryConfig}
use stile.Config.Limits.{Floats, RateLimit, Parsed, parsed, rejected, parse_rate_limit}
use stile.Config.Error.{
  Duration, timeout, cooldown, backoff, max_backoff, Limited, invalid_duration,
  duration_not_positive, invalid_rate_limit, Result, ok, err, ◌>>=◌,
}
use stile.Config.Values.{CircuitBreakerConfig, RetryConfig}

abbrev pub milliseconds : ℕ → ℤ
milliseconds n = pos (n * 1000000)

abbrev pub seconds : ℕ → ℤ
seconds n = pos (n * 1000000000)

limit_of : Limited → Parsed → Result (Option RateLimit)
limit_of what (parsed r) = ok (some r)
limit_of what (rejected e) = err (invalid_rate_limit what e)

-- a rate limit that is there where its text is not empty
unfoldable pub optional_limit : Floats → Limited → String → Result (Option RateLimit)
unfolding limit_of
optional_limit f what s = if str_eq s "" then ok none else limit_of what (parse_rate_limit f s)

parsed_duration : Duration → String → Option ℤ → Result ℤ
parsed_duration what s none = err (invalid_duration what s)
parsed_duration what s (some d) = ok d

checked_duration : Duration → ℤ → Result ℤ
checked_duration what d = if is_positive d then ok d else err (duration_not_positive what)

retryable_or : List String → List String
retryable_or [] = "connection_error" ∷ []
retryable_or (e ∷ es) = e ∷ es

module _ (parse_duration : String → Option ℤ) where
  -- a duration with a default where its text is empty
  unfoldable pub duration_or : Duration → ℤ → String → Result ℤ
  unfolding parsed_duration
  duration_or what default s =
      if str_eq s "" then ok default else parsed_duration what s (parse_duration s)

  -- the same, and positive
  unfoldable pub positive_duration_or : Duration → ℤ → String → Result ℤ
  unfolding parsed_duration checked_duration
  positive_duration_or what default s =
      if str_eq s ""
      then ok default
      else parsed_duration what s (parse_duration s) >>= checked_duration what

  unfoldable pub convert_circuit_breaker :
      String → Option RawCircuitBreakerConfig → Result (Option CircuitBreakerConfig)
  unfolding positive_duration_or positive_or
  convert_circuit_breaker name none = ok none
  convert_circuit_breaker name (some c) = do
    let threshold = positive_or (pos 5) c.failure_threshold
    d ← positive_duration_or (cooldown name) (seconds 30) c.cooldown
    ok (some (record { failure_threshold = threshold; cooldown = d }))

  unfoldable pub convert_retry : String → Option RawRetryConfig → Result (Option RetryConfig)
  unfolding duration_or positive_or retryable_or
  convert_retry name none = ok none
  convert_retry name (some r) = do
    b ← duration_or (backoff name) (milliseconds 100) r.backoff
    mb ← duration_or (max_backoff name) (seconds 2) r.max_backoff
    ok (
        some (record {
          max_attempts = positive_or (pos 1) r.max_attempts;
          backoff = b;
          max_backoff = mb;
          retryable_errors = retryable_or r.retryable_errors;
        }))

  unfoldable pub convert_timeout : String → String → Result ℤ
  unfolding positive_duration_or
  convert_timeout name s = positive_duration_or (timeout name) (seconds 60) s
