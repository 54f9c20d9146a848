-- ===== src/Resilience/RoundTrip.antt =====
-- `RoundTrip` of internal/resilience/resilient.go: the breaker's check, the retry loop around the
-- inner transport, and what is recorded at the end.
pub mod Attempts
pub mod Circuit
use stile.Prelude.{
  ℕ, zero, suc, ◌+◌, Bool, true, Option, none, some, List, [], ◌∷◌, ltb, if◌then◌else◌,
}
use stile.Resilience.Breaker.{
  State, CircuitBreaker, BreakerError, allow, record_success, record_failure,
}
use stile.Resilience.Retry.{Error, RetryPolicy, is_retryable}

pub data Answer (A : Type 0) : Type 0 where
  answered : A → Answer A
  failed : Error → Answer A

-- What the world around one call does. Attempts are numbered from 0. The inner transport, the
-- request's context and the sleep are not this component's; `during` and `after` are what other
-- goroutines do to the shared breaker between this call's check and its record, and between its
-- record and the reading of the state for the metric.
pub record Env (A : Type 0) : Type 0 where
  pub inner : ℕ → Answer A
  pub ctx_err : ℕ → Option Error
  pub wait_err : ℕ → Option Error
  pub checked_at : ℕ
  pub failed_at : ℕ
  pub during : CircuitBreaker → CircuitBreaker
  pub after : CircuitBreaker → CircuitBreaker

pub record ResilientTransport : Type 0 where
  pub cb : Option CircuitBreaker
  pub retry : Option RetryPolicy
  pub has_metrics : Bool

-- Why a call ended with no result: the breaker's own error, or the last error met.
pub data Failure : Type 0 where
  fail_fast : BreakerError → Failure
  last_error : Option Error → Failure

pub data Outcome (A : Type 0) : Type 0 where
  result : A → Outcome A
  error : Failure → Outcome A

-- What a call did: its outcome, how often it called the inner transport, how many retries it
-- reported, the circuit states it reported, and the breaker it left.
pub record Done (A : Type 0) : Type 0 where
  pub outcome : Outcome A
  pub sent : ℕ
  pub retries : ℕ
  pub circuit_states : List State
  pub breaker : Option CircuitBreaker

abbrev pub attempts_allowed : Option RetryPolicy → ℕ
attempts_allowed none = 1
attempts_allowed (some rp) = if ltb 1 rp.max_attempts then rp.max_attempts else 1

-- How the loop ends: its outcome, after so many calls of the inner transport and so many retries.
pub record Loop (A : Type 0) : Type 0 where
  pub end : Outcome A
  pub calls : ℕ
  pub retried : ℕ

-- What stands before an attempt: it goes ahead, or an error of the context or of the wait ends the
-- loop. The number is that of the retries reported.
pub data Gate : Type 0 where
  go : ℕ → Gate
  stop : ℕ → Error → Gate

abbrev counted : Bool → ℕ
counted has_metrics = if has_metrics then 1 else 0

wait : ℕ → Option Error → Gate
wait n (some e) = stop n e
wait n none = go n

check_context : ℕ → Option Error → Option Error → Gate
unfolding wait
check_context n (some e) w = stop 0 e
check_context n none w = wait n w

report : Bool → CircuitBreaker → List State
report has_metrics cb = if has_metrics then cb.state ∷ [] else []

module _ {A : Type 0} where
  unfoldable pub gate : Env A → Bool → ℕ → Gate
  unfolding check_context
  gate env has_metrics zero = go 0
  gate env has_metrics (suc i) =
      check_context (counted has_metrics) (env.ctx_err (suc i)) (env.wait_err i)

  pub pass : Gate → Loop A → Loop A
  pass (go n) l = record l { retried = n + l.retried }
  pass (stop n e) l = record { end = error (last_error (some e)); calls = 0; retried = n }

  pub attempt : Option RetryPolicy → Answer A → (Error → Loop A) → Loop A
  attempt retry (answered a) rest = record { end = result a; calls = 1; retried = 0 }
  attempt retry (failed e) rest =
      if is_retryable retry e
      then record (rest e) { calls = (rest e).calls + 1 }
      else record { end = error (last_error (some e)); calls = 1; retried = 0 }

  -- The `for` loop with `n` rounds left, before attempt `i`.
  unfoldable pub attempts : Env A → ResilientTransport → ℕ → ℕ → Option Error → Loop A
  unfolding gate pass attempt
  attempts env rt zero i last = record { end = error (last_error last); calls = 0; retried = 0 }
  attempts env rt (suc n) i last =
      let rest = λ (e : Error). attempts env rt n (i + 1) (some e) in
      pass (gate env rt.has_metrics i) (attempt rt.retry (env.inner i) rest)

  -- what is recorded on the breaker once the loop has ended
  unfoldable settle : Env A → Outcome A → CircuitBreaker → CircuitBreaker
  settle env (result a) cb = record_success cb
  settle env (error f) cb = record_failure env.failed_at cb

  finish : Env A → ResilientTransport → Option CircuitBreaker → Loop A → Done A
  unfolding settle report
  finish env rt none l = record {
    outcome = l.end;
    sent = l.calls;
    retries = l.retried;
    circuit_states = [];
    breaker = none;
  }
  finish env rt (some cb) l =
      let settled = env.after (settle env l.end (env.during cb)) in
      record {
        outcome = l.end;
        sent = l.calls;
        retries = l.retried;
        circuit_states = report rt.has_metrics settled;
        breaker = some settled;
      }

  run_loop : Env A → ResilientTransport → Loop A
  unfolding attempts
  run_loop env rt = attempts env rt (attempts_allowed rt.retry) 0 none

  checked : Env A → ResilientTransport → CircuitBreaker × Option BreakerError → Done A
  unfolding run_loop finish report
  checked env rt (cb, none) = finish env rt (some cb) (run_loop env rt)
  checked env rt (cb, some e) =
      let seen = env.after cb in
      record {
        outcome = error (fail_fast e);
        sent = 0;
        retries = 0;
        circuit_states = report rt.has_metrics seen;
        breaker = some seen;
      }

  start : Env A → ResilientTransport → Option CircuitBreaker → Done A
  unfolding run_loop finish checked
  start env rt none = finish env rt none (run_loop env rt)
  start env rt (some cb) = checked env rt (allow env.checked_at cb)

  unfoldable pub round_trip : Env A → ResilientTransport → Done A
  unfolding start
  round_trip env rt = start env rt rt.cb
