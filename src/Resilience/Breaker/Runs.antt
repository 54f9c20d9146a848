-- ===== src/Resilience/Breaker/Runs.antt =====
-- Whole histories of one breaker: the calls of all goroutines, in the order in which they took the
-- mutex.
use stile.Prelude.{
  ℕ, ◌+◌, ◌<◌, ◌≡◌, ◌≢◌, refl, ap, ◌∙◌, true, Option, none, some, List, [], ◌∷◌, arith, leb,
  if◌then◌else◌, length, map, All,
}
use stile.Resilience.Breaker.{
  closed, opened, half_open, BreakerError, circuit_open, CircuitBreaker, new_circuit_breaker, allow,
  record_success, record_failure,
}
use stile.Resilience.Breaker.Abstract.{
  Circuit, counting, spec_allow, spec_success, spec_failure, view, IsValid, new-IsValid,
  allow-IsValid, record_success-IsValid, record_failure-IsValid, breaker-Refines,
}

pub data Call : Type 0 where
  call_allow : ℕ → Call
  call_success : Call
  call_failure : ℕ → Call

abbrev Answers : Type 0
Answers = List (Option BreakerError)

unfoldable pub after : Call → CircuitBreaker → CircuitBreaker
after (call_allow now) cb = (allow now cb).0
after call_success cb = record_success cb
after (call_failure now) cb = record_failure now cb

unfoldable pub run : List Call → CircuitBreaker → CircuitBreaker
unfolding after
run [] cb = cb
run (c ∷ cs) cb = run cs (after c cb)

-- what the calls of `Allow` returned
unfoldable pub answers : List Call → CircuitBreaker → Answers
unfolding after
answers [] cb = []
answers (call_allow now ∷ cs) cb = (allow now cb).1 ∷ answers cs (allow now cb).0
answers (c ∷ cs) cb = answers cs (after c cb)

abbrev spec_after : ℕ → ℕ → Call → Circuit → Circuit
spec_after threshold cooldown (call_allow now) c = (spec_allow cooldown now c).0
spec_after threshold cooldown call_success c = spec_success c
spec_after threshold cooldown (call_failure now) c = spec_failure threshold now c

abbrev pub spec_run : ℕ → ℕ → List Call → Circuit → Circuit
spec_run threshold cooldown [] c = c
spec_run threshold cooldown (x ∷ xs) c =
    spec_run threshold cooldown xs (spec_after threshold cooldown x c)

abbrev pub spec_answers : ℕ → ℕ → List Call → Circuit → Answers
spec_answers threshold cooldown [] c = []
spec_answers threshold cooldown (call_allow now ∷ xs) c =
    (spec_allow cooldown now c).1 ∷ spec_answers threshold cooldown xs (spec_allow cooldown now c).0
spec_answers threshold cooldown (x ∷ xs) c =
    spec_answers threshold cooldown xs (spec_after threshold cooldown x c)

-- A valid breaker with the limits that it was made with.
pub record IsMade (threshold cooldown : ℕ) (cb : CircuitBreaker) : Type 0 where
  pub valid : IsValid cb
  pub same_threshold : cb.threshold ≡ threshold
  pub same_cooldown : cb.cooldown ≡ cooldown

module _ (threshold cooldown : ℕ) (positive : 0 < threshold) where
  after-IsMade :
      (c : Call) (cb : CircuitBreaker)
      → IsMade threshold cooldown cb
      → IsMade threshold cooldown (after c cb)
  unfolding after
  after-IsMade (call_allow now) cb m = record {
    valid = allow-IsValid now cb m.valid;
    same_threshold = unfold allow in ground arith;
    same_cooldown = unfold allow in ground arith;
  }
  after-IsMade call_success cb m = record {
    valid = record_success-IsValid cb (ground arith) m.valid;
    same_threshold = unfold record_success in m.same_threshold;
    same_cooldown = unfold record_success in m.same_cooldown;
  }
  after-IsMade (call_failure now) cb m = record {
    valid = record_failure-IsValid now cb m.valid;
    same_threshold = unfold record_failure in ground arith;
    same_cooldown = unfold record_failure in ground arith;
  }

  view-after :
      (c : Call) (cb : CircuitBreaker)
      → IsMade threshold cooldown cb
      → view (after c cb) ≡ spec_after threshold cooldown c (view cb)
  unfolding after
  view-after (call_allow now) cb m =
      cc (m.same_cooldown, (breaker-Refines now cb m.valid).allow_state)
  view-after call_success cb m = (breaker-Refines 0 cb m.valid).success
  view-after (call_failure now) cb m =
      cc (m.same_threshold, (breaker-Refines now cb m.valid).failure)

  view-run :
      (cs : List Call) (cb : CircuitBreaker)
      → IsMade threshold cooldown cb
      → view (run cs cb) ≡ spec_run threshold cooldown cs (view cb)
  unfolding run
  view-run [] cb m = refl
  view-run (c ∷ cs) cb m =
      view-run cs (after c cb) (after-IsMade c cb m)
      ∙ ap (spec_run threshold cooldown cs) (view-after c cb m)

  pub run-IsMade :
      (cs : List Call) (cb : CircuitBreaker)
      → IsMade threshold cooldown cb
      → IsMade threshold cooldown (run cs cb)
  unfolding run
  run-IsMade [] cb m = m
  run-IsMade (c ∷ cs) cb m = run-IsMade cs (after c cb) (after-IsMade c cb m)

  answers-run :
      (cs : List Call) (cb : CircuitBreaker)
      → IsMade threshold cooldown cb
      → answers cs cb ≡ spec_answers threshold cooldown cs (view cb)
  unfolding answers
  answers-run [] cb m = refl
  answers-run (call_allow now ∷ cs) cb m = cc (
    m.same_cooldown,
    (breaker-Refines now cb m.valid).allow_answer,
    (breaker-Refines now cb m.valid).allow_state,
    answers-run cs (allow now cb).0 (unfold after in after-IsMade (call_allow now) cb m),
  )
  answers-run (call_success ∷ cs) cb m =
      answers-run cs (after call_success cb) (after-IsMade call_success cb m)
      ∙ ap (spec_answers threshold cooldown cs) (view-after call_success cb m)
  answers-run (call_failure now ∷ cs) cb m =
      answers-run cs (after (call_failure now) cb) (after-IsMade (call_failure now) cb m)
      ∙ ap (spec_answers threshold cooldown cs) (view-after (call_failure now) cb m)

  new-IsMade : IsMade threshold cooldown (new_circuit_breaker threshold cooldown)
  new-IsMade = record {
    valid = new-IsValid threshold cooldown positive;
    same_threshold = unfold new_circuit_breaker in refl;
    same_cooldown = unfold new_circuit_breaker in refl;
  }

-- A breaker made with a positive threshold refines the abstract machine over every history of calls:
-- the view of the state that the calls lead to, and the list of what the calls of Allow returned,
-- are those of the abstract machine started closed with no failures.
pub run-refines :
    (threshold cooldown : ℕ) (cs : List Call)
    → 0 < threshold
    → (view (run cs (new_circuit_breaker threshold cooldown))
        ≡ spec_run threshold cooldown cs (counting 0))
      × (answers cs (new_circuit_breaker threshold cooldown)
          ≡ spec_answers threshold cooldown cs (counting 0))
run-refines threshold cooldown cs h = (
  view-run threshold cooldown h cs _ (new-IsMade threshold cooldown h)
      ∙ unfold new_circuit_breaker in refl,
  answers-run threshold cooldown h cs _ (new-IsMade threshold cooldown h)
      ∙ unfold new_circuit_breaker in refl,
)

allow-probing :
    (now : ℕ) (cb : CircuitBreaker)
    → cb.state ≡ half_open
    → cb.half_open_active ≡ true
    → allow now cb ≡ (cb, some circuit_open)
unfolding allow
allow-probing now cb p q = ground arith

refused_while_probing :
    (ts : List ℕ) (cb : CircuitBreaker)
    → cb.state ≡ half_open
    → cb.half_open_active ≡ true
    → All (λ a. a ≡ some circuit_open) (answers (map call_allow ts) cb)
unfolding answers
refused_while_probing [] cb p q = tt
refused_while_probing (t ∷ ts) cb p q =
    rw (allow-probing t cb p q) (refl, refused_while_probing ts cb p q)

-- One probe at a time: once a valid breaker that is not closed has let a request through, every later
-- call of Allow is refused, whatever the times, until a success or a failure is recorded.
pub probe_exclusive :
    (now : ℕ) (ts : List ℕ) (cb : CircuitBreaker)
    → IsValid cb
    → cb.state ≢ closed
    → (allow now cb).1 ≡ none
    → All (λ a. a ≡ some circuit_open) (answers (map call_allow ts) (allow now cb).0)
probe_exclusive now ts cb v open_ admitted =
    refused_while_probing ts (allow now cb).0 (unfold allow in ground arith)
      (unfold allow in ground arith)

failures_count :
    (ts : List ℕ) (cb : CircuitBreaker)
    → cb.state ≢ half_open
    → cb.state ≡ (if leb cb.threshold cb.consecutive_fails then opened else closed)
    → ((run (map call_failure ts) cb).state
        ≡ (if leb cb.threshold (cb.consecutive_fails + length ts) then opened else closed))
      × ((run (map call_failure ts) cb).consecutive_fails ≡ cb.consecutive_fails + length ts)
unfolding run record_failure
failures_count [] cb n e = (ground arith, omega arith)
failures_count (t ∷ ts) cb n e = ground (arith, failures_count ts (record_failure t cb))

-- A new breaker with a positive threshold trips on exactly that many failures in a row: after a run
-- of failures at any times it is open if they number at least the threshold and closed if not, and
-- its counter is their number.
pub trips_exact :
    (threshold cooldown : ℕ) (ts : List ℕ)
    → 0 < threshold
    → ((run (map call_failure ts) (new_circuit_breaker threshold cooldown)).state
        ≡ (if leb threshold (length ts) then opened else closed))
      × ((run (map call_failure ts) (new_circuit_breaker threshold cooldown)).consecutive_fails
          ≡ length ts)
unfolding new_circuit_breaker
trips_exact threshold cooldown ts h =
    ground (arith, failures_count ts (new_circuit_breaker threshold cooldown))
