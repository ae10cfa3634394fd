-- ===== src/Resilience/Circuit/Blocking.antt =====
-- A tripped circuit blocks calls until its timeout has passed.
use Prim.Native.String.{◌++◌}
use log_librarian.Prelude.{Option, none, ℕ, ◌+◌, ◌<◌, ◌≤◌, ◌≡◌, some, List, [], ◌∷◌, arith, All}
use log_librarian.Resilience.Errors.{service_unavailable}
use log_librarian.Resilience.Outcome.{Outcome, raise}
use log_librarian.Resilience.Circuit.{
  opened, CircuitBreaker, Event, check, success, failure, step, run, with_circuit_breaker,
}

-- Checks come before the clock shows `until`, failures not before `since`.
abbrev pub Within : ℕ → ℕ → Event → Type 0
Within since until (check now) = now < until
Within since until success = Unit
Within since until (failure e now) = since ≤ now

-- There is a time, and it is `since` or later.
abbrev pub NotBefore : ℕ → Option ℕ → Type 0
NotBefore since none = ⊥
NotBefore since (some t) = since ≤ t

pub record IsTripped (since timeout : ℕ) (c : CircuitBreaker) : Type 0 where
  pub is_opened : c.state ≡ opened
  pub failed : NotBefore since c.last_failure_time
  pub same_timeout : c.config.timeout ≡ timeout

module _ (since timeout : ℕ) where
  step-IsTripped :
      (c : CircuitBreaker) (e : Event)
      → Within since (since + timeout) e
      → IsTripped since timeout c
      → IsTripped since timeout (step c e)
  unfolding step
  step-IsTripped c (check now) w t = ground arith
  step-IsTripped c success w t = ground arith
  step-IsTripped c (failure e now) w t = ground arith

  run-IsTripped :
      (c : CircuitBreaker) (es : List Event)
      → All (Within since (since + timeout)) es
      → IsTripped since timeout c
      → IsTripped since timeout (run c es)
  unfolding run
  run-IsTripped c [] w t = t
  run-IsTripped c (e ∷ es) w t = run-IsTripped (step c e) es w.1 (step-IsTripped c e w.0 t)

module _ {S A : Type 0} (func : S → Outcome A × S) where
  tripped_call :
      (c : CircuitBreaker) (since timeout now later : ℕ) (s : S)
      → IsTripped since timeout c
      → now < since + timeout
      → with_circuit_breaker func c now later s
        ≡ (raise (service_unavailable ("Circuit breaker " ++ (c.name ++ " is open"))), c, s)
  unfolding with_circuit_breaker
  tripped_call c since timeout now later s t h = ground arith

  -- Take a circuit that is open, with its last failure at `since` or later, and any sequence of
  -- checks before `since + timeout`, successes, and failures not before `since`. A call through
  -- `with_circuit_breaker` after those, at a clock reading before `since + timeout`, raises
  -- `AIServiceUnavailableError`, does not touch the world that the wrapped function works on, and
  -- leaves the circuit as it was.
  pub blocks_until_timeout :
      (c : CircuitBreaker) (es : List Event) (since timeout now later : ℕ) (s : S)
      → IsTripped since timeout c
      → All (Within since (since + timeout)) es
      → now < since + timeout
      → with_circuit_breaker func (run c es) now later s ≡ (
        raise (service_unavailable ("Circuit breaker " ++ ((run c es).name ++ " is open"))),
        run c es,
        s,
      )
  blocks_until_timeout c es since timeout now later s t w h =
      tripped_call (run c es) since timeout now later s (run-IsTripped since timeout c es w t) h
