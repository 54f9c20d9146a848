-- ===== src/Resilience/Tests.antt =====
-- Runs of the circuit breaker and of the round trip, and the theorems at concrete inputs.
use stile.Prelude.{
  ℕ, ◌<◌, ◌≡◌, ◌≢◌, refl, true, false, Option, none, some, List, [], ◌∷◌, arith, leb, if◌then◌else◌,
  length, map, All, ◌==◌,
}
use stile.Resilience.Breaker.{
  opened, closed, circuit_open, CircuitBreaker, new_circuit_breaker, allow, record_success,
  record_failure,
}
use stile.Resilience.Breaker.Abstract.{Refines, IsValid, breaker-Refines, view, counting}
use stile.Resilience.Breaker.Runs.{
  Call, call_allow, call_success, call_failure, run, answers, spec_run, spec_answers, run-refines,
  probe_exclusive, trips_exact,
}
use stile.Resilience.Retry.{connect_error, status_error, RetryPolicy, is_retryable}
use stile.Resilience.RoundTrip.{
  Answer, answered, failed, Env, ResilientTransport, result, error, fail_fast, round_trip,
  attempts_allowed,
}
use stile.Resilience.RoundTrip.Attempts.{Ends}
use stile.Resilience.RoundTrip.Circuit.{looped, Settled, round_trip-Ends, round_trip-Settled}

-- threshold 2, cooldown 30, opened by two failures at time 7
abbrev tripped_cb : CircuitBreaker
tripped_cb = record {
  state = opened;
  consecutive_fails = 2;
  threshold = 2;
  cooldown = 30;
  last_tripped = 7;
  half_open_active = false;
}

tripped-IsValid : IsValid tripped_cb
tripped-IsValid = ground arith

breaker-Refines_example : Refines 40 tripped_cb
breaker-Refines_example = breaker-Refines 40 tripped_cb tripped-IsValid

abbrev history : List Call
history =
    call_failure 3
    ∷ call_failure 7
    ∷ call_allow 10
    ∷ call_allow 37
    ∷ call_allow 38
    ∷ call_success
    ∷ []

history-answers :
    answers history (new_circuit_breaker 2 30) ≡ some circuit_open ∷ none ∷ some circuit_open ∷ []
unfolding answers new_circuit_breaker allow record_failure record_success
history-answers = refl

run-refines_example :
    (view (run history (new_circuit_breaker 2 30)) ≡ spec_run 2 30 history (counting 0))
    × (answers history (new_circuit_breaker 2 30) ≡ spec_answers 2 30 history (counting 0))
run-refines_example = run-refines 2 30 history (omega arith)

tripped_admits : (allow 40 tripped_cb).1 ≡ none
unfolding allow
tripped_admits = refl

not_closed : tripped_cb.state ≢ closed
not_closed e = cc

probe_exclusive_example :
    All
      (λ a. a ≡ some circuit_open)
      (answers (map call_allow (41 ∷ 90 ∷ [])) (allow 40 tripped_cb).0)
probe_exclusive_example =
    probe_exclusive 40 (41 ∷ 90 ∷ []) tripped_cb tripped-IsValid not_closed tripped_admits

trips_exact_example :
    ((run (map call_failure (3 ∷ 7 ∷ [])) (new_circuit_breaker 2 30)).state
      ≡ (if leb 2 (length {A = ℕ} (3 ∷ 7 ∷ [])) then opened else closed))
    × ((run (map call_failure (3 ∷ 7 ∷ [])) (new_circuit_breaker 2 30)).consecutive_fails
        ≡ length {A = ℕ} (3 ∷ 7 ∷ []))
trips_exact_example = trips_exact 2 30 (3 ∷ 7 ∷ []) (omega arith)

abbrev policy : RetryPolicy
policy = record { max_attempts = 3; retryable_errors = "connection_error" ∷ "502" ∷ [] }

retries_502 : is_retryable (some policy) (status_error 502 ∷ []) ≡ true
unfolding is_retryable stile.Prelude.Text.itoa
retries_502 = refl

-- a 502, a refused connection, then an answer
abbrev answer_to : ℕ → Answer ℕ
answer_to i =
    if i == 0
    then failed (status_error 502 ∷ [])
    else if i == 1
    then failed (connect_error ∷ [])
    else answered 9

abbrev env : Env ℕ
env = record {
  inner = answer_to;
  ctx_err = λ i. none;
  wait_err = λ i. none;
  checked_at = 40;
  failed_at = 50;
  during = λ cb. cb;
  after = λ cb. cb;
}

abbrev transport : ResilientTransport
transport = record { cb = some tripped_cb; retry = some policy; has_metrics = true }

third_answers : (round_trip env transport).outcome ≡ result 9
unfolding round_trip allow is_retryable stile.Prelude.Text.itoa
third_answers = refl

third_closes : (round_trip env transport).circuit_states ≡ closed ∷ []
unfolding round_trip allow is_retryable stile.Prelude.Text.itoa record_success
third_closes = refl

round_trip-Ends_example :
    Ends env transport (attempts_allowed (some policy)) 0 (looped (round_trip env transport))
round_trip-Ends_example = round_trip-Ends env transport tripped_admits

abbrev early : Env ℕ
early = record env { checked_at = 20 }

early_refused : (allow 20 tripped_cb).1 ≡ some circuit_open
unfolding allow
early_refused = refl

fails_fast :
    looped (round_trip early transport)
    ≡ record { end = error (fail_fast circuit_open); calls = 0; retried = 0 }
unfolding round_trip allow
fails_fast = refl

round_trip-Settled_example :
    (b : CircuitBreaker) × ((round_trip env transport).breaker ≡ some b)
    × Settled (round_trip env transport).outcome b
round_trip-Settled_example =
    round_trip-Settled env transport tripped_cb refl tripped_admits (omega arith) tripped-IsValid
      (λ b v. v) (λ b. refl)
