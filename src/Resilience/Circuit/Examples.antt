-- ===== src/Resilience/Circuit/Examples.antt =====
-- The circuit theorems at concrete circuits, and runs of the code.
use Prim.Native.String.{◌++◌}
use log_librarian.Prelude.{ℕ, ◌+◌, ◌≡◌, refl, none, some, List, [], ◌∷◌, arith, leb, if◌then◌else◌}
use log_librarian.Resilience.Errors.{
  instance_of_any, Error, timeout, other, content_filter, content_filter_error, service_unavailable,
}
use log_librarian.Resilience.Outcome.{Outcome, ok, raise}
use log_librarian.Resilience.Circuit.{
  record_success, closed, opened, half_open, CircuitBreaker, CircuitBreakerConfig, Event, check,
  success, failure, run, new_circuit, with_circuit_breaker,
}
use log_librarian.Resilience.Circuit.Invariant.{IsValid, run-IsValid}
use log_librarian.Resilience.Circuit.Blocking.{blocks_until_timeout}
use log_librarian.Resilience.Circuit.Recovery.{
  failures, successes, trips_at_threshold, closes_at_threshold,
}

abbrev settings : CircuitBreakerConfig
settings = record {
  failure_threshold = 3;
  success_threshold = 2;
  timeout = 30;
  excluded_exceptions = content_filter_error ∷ [];
}

abbrev fresh : CircuitBreaker
fresh = record {
  name = "ai_service";
  config = settings;
  state = closed;
  failure_count = 0;
  success_count = 0;
  last_failure_time = none;
}

abbrev tripped : CircuitBreaker
tripped = record fresh { state = opened; failure_count = 3; last_failure_time = some 102 }

abbrev outage : List (Error × ℕ)
outage = (timeout "slow", 100) ∷ (other "OSError", 101) ∷ (timeout "slow", 102) ∷ []

abbrev traffic : List Event
traffic = check 110 ∷ success ∷ failure (timeout "late") 111 ∷ check 120 ∷ []

-- The wrapped function counts its calls.
abbrev counting : ℕ → Outcome ℕ × ℕ
counting calls = (ok calls, calls + 1)

fresh_lem : new_circuit "ai_service" settings ≡ fresh
unfolding new_circuit
fresh_lem = refl

outage_trips : run fresh (failures outage) ≡ tripped
unfolding run instance_of_any
outage_trips = refl

excluded_ignored : run fresh (failure (content_filter "no") 100 ∷ []) ≡ fresh
unfolding run instance_of_any
excluded_ignored = refl

call_recovers :
    with_circuit_breaker counting tripped 132 133 7
    ≡ (ok 7, record tripped { state = half_open; success_count = 1 }, 8)
unfolding with_circuit_breaker record_success
call_recovers = refl

run-IsValid_example : IsValid (run fresh traffic)
run-IsValid_example = run-IsValid fresh traffic (record {
  failures_allowed = omega arith;
  successes_needed = omega arith;
  consistent = omega arith;
})

blocks_until_timeout_example : with_circuit_breaker counting (run tripped traffic) 131 140 7 ≡ (
  raise (service_unavailable ("Circuit breaker " ++ ((run tripped traffic).name ++ " is open"))),
  run tripped traffic,
  7,
)
blocks_until_timeout_example =
    blocks_until_timeout counting tripped traffic 102 30 131 140 7
      (record { is_opened = refl; failed = omega arith; same_timeout = refl }) (omega arith)
      (omega arith)

trips_at_threshold_example :
    (run fresh (failures outage)).state ≡ (if leb 3 (0 + 3) then opened else closed)
unfolding instance_of_any
trips_at_threshold_example =
    trips_at_threshold fresh outage refl (omega arith) (refl, (refl, (refl, tt)))

closes_at_threshold_example :
    (run tripped (check 132 ∷ successes 2)).state ≡ (if leb 2 2 then closed else half_open)
closes_at_threshold_example =
    closes_at_threshold tripped 102 132 2 refl refl (omega arith) (omega arith)
