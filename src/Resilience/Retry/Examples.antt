-- ===== src/Resilience/Retry/Examples.antt =====
-- The retry theorems at concrete functions, and runs of the code.
use log_librarian.Prelude.{ℕ, suc, ◌-◌, ◌≤◌, ◌≡◌, refl, [], ◌∷◌, arith, All, length}
use log_librarian.Resilience.Errors.{timeout, instance_of_any}
use log_librarian.Resilience.Outcome.{Outcome, ok, raise}
use log_librarian.Resilience.Retry.{default_config, delay, with_retry}
use log_librarian.Resilience.Retry.Attempts.{pauses, stops_at_final, exhausts_attempts}
use log_librarian.Resilience.Retry.Delays.{longest, sleeps_bounded}

-- The world counts the calls; the third call is the first to return.
abbrev flaky : ℕ → Outcome ℕ × ℕ
flaky (suc (suc calls)) = (ok calls, suc (suc (suc calls)))
flaky calls = (raise (timeout "slow"), suc calls)

abbrev down : ℕ → Outcome ℕ × ℕ
down calls = (raise (timeout "slow"), suc calls)

abbrev draws : ℕ → ℕ
draws attempt = 5404319552844595

flaky_run :
    with_retry default_config draws flaky 0
    ≡ record { outcome = ok 0; world = 3; sleeps = 9907919180215091000 ∷ 19815838360430182000 ∷ [] }
unfolding with_retry delay instance_of_any
flaky_run = refl

stops_at_final_example :
    with_retry default_config draws flaky 0
    ≡ record { outcome = ok 0; world = 3; sleeps = pauses default_config draws 0 2 }
unfolding instance_of_any
stops_at_final_example =
    stops_at_final default_config draws flaky 2 0 (omega arith) (refl, (refl, tt)) tt

exhausts_attempts_example : with_retry default_config draws down 0 ≡ record {
  outcome = raise (timeout "slow");
  world = 3;
  sleeps = pauses default_config draws 0 2;
}
unfolding instance_of_any
exhausts_attempts_example =
    exhausts_attempts default_config draws down 2 0 refl (refl, (refl, (refl, tt)))

sleeps_bounded_example :
    All (λ t. t ≤ longest default_config) (with_retry default_config draws down 0).sleeps
    × (length (with_retry default_config draws down 0).sleeps ≤ 3 - 1)
sleeps_bounded_example = sleeps_bounded default_config draws down 0 (λ attempt. omega arith)
