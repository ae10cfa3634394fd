-- ===== src/Resilience/Circuit/Invariant.antt =====
-- What holds of a circuit after any events.
use log_librarian.Prelude.{◌≢◌, none, ℕ, ◌<◌, ◌≡◌, List, [], ◌∷◌, arith}
use log_librarian.Resilience.Circuit.{
  CircuitState, closed, opened, half_open, CircuitBreaker, CircuitBreakerConfig, new_circuit,
  count_failure, Event, check, success, failure, step, run,
}
use Prim.Native.String.{String}

-- Closed below the failure threshold, half open below the success threshold, open since a failure.
abbrev pub Consistent : CircuitState → CircuitBreaker → Type 0
Consistent closed c = c.failure_count < c.config.failure_threshold
Consistent half_open c = c.success_count < c.config.success_threshold
Consistent opened c = c.last_failure_time ≢ none

pub record IsValid (c : CircuitBreaker) : Type 0 where
  pub failures_allowed : 0 < c.config.failure_threshold
  pub successes_needed : 0 < c.config.success_threshold
  pub consistent : Consistent c.state c

new_circuit-IsValid :
    (name : String) (config : CircuitBreakerConfig)
    → 0 < config.failure_threshold
    → 0 < config.success_threshold
    → IsValid (new_circuit name config)
unfolding new_circuit
new_circuit-IsValid name config f s = record {
  failures_allowed = f;
  successes_needed = s;
  consistent = f;
}

count_failure-IsValid : (c : CircuitBreaker) (now : ℕ) → IsValid c → IsValid (count_failure c now)
unfolding count_failure
count_failure-IsValid c now v = ground arith

step-IsValid : (c : CircuitBreaker) (e : Event) → IsValid c → IsValid (step c e)
unfolding step
step-IsValid c (check now) v = ground arith
step-IsValid c success v = ground arith
step-IsValid c (failure e now) v = grind (arith, count_failure-IsValid)

config-step : (c : CircuitBreaker) (e : Event) → (step c e).config ≡ c.config
unfolding step
config-step c (check now) = ground arith
config-step c success = ground arith
config-step c (failure e now) = ground arith

-- From a circuit that satisfies the invariant (both thresholds positive; closed with fewer failures
-- than the failure threshold, half open with fewer successes than the success threshold, or open
-- with the time of a failure), every sequence of checks, successes and failures, in any interleaving
-- and with any clock readings, leads to a circuit that satisfies it.
pub run-IsValid : (c : CircuitBreaker) (es : List Event) → IsValid c → IsValid (run c es)
unfolding run
run-IsValid c [] v = v
run-IsValid c (e ∷ es) v = run-IsValid (step c e) es (step-IsValid c e v)
