-- ===== src/Resilience/Breaker.antt =====
-- internal/resilience/circuitbreaker.go. Each method holds the breaker's mutex from its first line
-- to its last, so a method is one step. A `time.Time` is its distance in nanoseconds from a fixed
-- origin, and `nowFunc` is the argument `now`. An `int` counter is a ℕ: it would wrap after 2^63
-- failures.
pub mod Abstract
pub mod Runs
use stile.Prelude.{ℕ, ◌+◌, Bool, true, false, Option, none, some, leb, if◌then◌else◌}

pub data State : Type 0 where
  closed opened half_open : State

-- ErrCircuitOpen
pub data BreakerError : Type 0 where
  circuit_open : BreakerError

pub record CircuitBreaker : Type 0 where
  pub state : State
  pub consecutive_fails : ℕ
  pub threshold : ℕ
  pub cooldown : ℕ
  pub last_tripped : ℕ
  pub half_open_active : Bool

unfoldable pub new_circuit_breaker : ℕ → ℕ → CircuitBreaker
new_circuit_breaker threshold cooldown = record {
  state = closed;
  consecutive_fails = 0;
  threshold = threshold;
  cooldown = cooldown;
  last_tripped = 0;
  half_open_active = false;
}

-- the `switch` of `Allow`
allow_in : State → ℕ → CircuitBreaker → CircuitBreaker × Option BreakerError
allow_in closed now cb = (cb, none)
allow_in opened now cb =
    if leb (cb.last_tripped + cb.cooldown) now
    then (record cb { state = half_open; half_open_active = true }, none)
    else (cb, some circuit_open)
allow_in half_open now cb =
    if cb.half_open_active
    then (cb, some circuit_open)
    else (record cb { half_open_active = true }, none)

unfoldable pub allow : ℕ → CircuitBreaker → CircuitBreaker × Option BreakerError
unfolding allow_in
allow now cb = allow_in cb.state now cb

unfoldable pub record_success : CircuitBreaker → CircuitBreaker
record_success cb = record cb { consecutive_fails = 0; state = closed; half_open_active = false }

-- the tail of `RecordFailure`, which a closed and an open breaker share
count_failure : ℕ → CircuitBreaker → CircuitBreaker
count_failure now cb =
    let counted = record cb { consecutive_fails = cb.consecutive_fails + 1 } in
    if leb counted.threshold counted.consecutive_fails
    then record counted { state = opened; last_tripped = now }
    else counted

record_failure_in : State → ℕ → CircuitBreaker → CircuitBreaker
unfolding count_failure
record_failure_in half_open now cb = record cb {
  state = opened;
  last_tripped = now;
  half_open_active = false;
}
record_failure_in closed now cb = count_failure now cb
record_failure_in opened now cb = count_failure now cb

unfoldable pub record_failure : ℕ → CircuitBreaker → CircuitBreaker
unfolding record_failure_in
record_failure now cb = record_failure_in cb.state now cb
