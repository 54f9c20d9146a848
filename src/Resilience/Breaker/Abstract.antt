-- ===== src/Resilience/Breaker/Abstract.antt =====
-- What the circuit breaker promises, as a machine with no counter of its own outside the closed
-- state and no probe flag, and the proof that circuitbreaker.go implements it.
use stile.Prelude.{ℕ, ◌+◌, ◌≤◌, ◌<◌, ◌≡◌, true, Option, none, some, arith, leb, if◌then◌else◌}
use stile.Resilience.Breaker.{
  State, closed, opened, half_open, BreakerError, circuit_open, CircuitBreaker, new_circuit_breaker,
  allow, record_success, record_failure,
}

-- Closed after some failures in a row, tripped at a time, or with one probe under way.
pub data Circuit : Type 0 where
  counting : ℕ → Circuit
  tripped : ℕ → Circuit
  probing : Circuit

abbrev pub spec_allow : ℕ → ℕ → Circuit → Circuit × Option BreakerError
spec_allow cooldown now (counting n) = (counting n, none)
spec_allow cooldown now (tripped t) =
    if leb (t + cooldown) now then (probing, none) else (tripped t, some circuit_open)
spec_allow cooldown now probing = (probing, some circuit_open)

abbrev pub spec_success : Circuit → Circuit
spec_success c = counting 0

abbrev pub spec_failure : ℕ → ℕ → Circuit → Circuit
spec_failure threshold now (counting n) =
    if leb threshold (n + 1) then tripped now else counting (n + 1)
spec_failure threshold now (tripped t) = tripped now
spec_failure threshold now probing = tripped now

abbrev view_in : State → CircuitBreaker → Circuit
view_in closed cb = counting cb.consecutive_fails
view_in opened cb = tripped cb.last_tripped
view_in half_open cb = probing

abbrev pub view : CircuitBreaker → Circuit
view cb = view_in cb.state cb

-- What holds of a breaker between two calls.
pub record IsValid (cb : CircuitBreaker) : Type 0 where
  pub probe_active : cb.state ≡ half_open → cb.half_open_active ≡ true
  pub flag_only_half_open : cb.half_open_active ≡ true → cb.state ≡ half_open
  pub closed_below : cb.state ≡ closed → cb.consecutive_fails < cb.threshold
  pub opened_reached : cb.state ≡ opened → cb.threshold ≤ cb.consecutive_fails
  pub half_open_reached : cb.state ≡ half_open → cb.threshold ≤ cb.consecutive_fails

pub new-IsValid :
    (threshold cooldown : ℕ) → 0 < threshold → IsValid (new_circuit_breaker threshold cooldown)
unfolding new_circuit_breaker
new-IsValid threshold cooldown h = ground arith

pub allow-IsValid : (now : ℕ) (cb : CircuitBreaker) → IsValid cb → IsValid (allow now cb).0
unfolding allow
allow-IsValid now cb v = ground arith

pub record_success-IsValid :
    (cb : CircuitBreaker) → 0 < cb.threshold → IsValid cb → IsValid (record_success cb)
unfolding record_success
record_success-IsValid cb h v = ground arith

pub record_failure-IsValid :
    (now : ℕ) (cb : CircuitBreaker) → IsValid cb → IsValid (record_failure now cb)
unfolding record_failure
record_failure-IsValid now cb v = ground arith

-- On a valid breaker each method takes the step of the abstract machine, with the same answer.
pub record Refines (now : ℕ) (cb : CircuitBreaker) : Type 0 where
  pub allow_state : view (allow now cb).0 ≡ (spec_allow cb.cooldown now (view cb)).0
  pub allow_answer : (allow now cb).1 ≡ (spec_allow cb.cooldown now (view cb)).1
  pub success : view (record_success cb) ≡ spec_success (view cb)
  pub failure : view (record_failure now cb) ≡ spec_failure cb.threshold now (view cb)

pub breaker-Refines : (now : ℕ) (cb : CircuitBreaker) → IsValid cb → Refines now cb
unfolding allow record_success record_failure
breaker-Refines now cb v = record {
  allow_state = ground arith;
  allow_answer = ground arith;
  success = ground arith;
  failure = ground arith;
}
