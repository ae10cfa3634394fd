-- ===== src/Resilience/Circuit.antt =====
-- `CircuitBreaker` and `with_circuit_breaker` of librarian/ai_resilience.py. Each method that reads
-- the clock takes its reading as an argument; times are in any one unit of the clock.
mod Invariant
mod Blocking
mod Recovery
mod Examples
use Prim.Native.String.{◌++◌}
use log_librarian.Resilience.Errors.{Error, ErrorClass, service_unavailable, instance_of_any}
use log_librarian.Prelude.{
  ℕ, ◌+◌, String, Bool, true, false, not, Option, none, some, List, [], ◌∷◌, leb, if◌then◌else◌,
}
use log_librarian.Resilience.Outcome.{Outcome, ok, raise}

-- `OPEN` is spelled `opened`.
pub data CircuitState : Type 0 where
  closed opened half_open : CircuitState

pub record CircuitBreakerConfig : Type 0 where
  pub failure_threshold : ℕ
  pub success_threshold : ℕ
  pub timeout : ℕ
  pub excluded_exceptions : List ErrorClass

pub record CircuitBreaker : Type 0 where
  pub name : String
  pub config : CircuitBreakerConfig
  pub state : CircuitState
  pub failure_count : ℕ
  pub success_count : ℕ
  pub last_failure_time : Option ℕ

-- `__init__`
unfoldable pub new_circuit : String → CircuitBreakerConfig → CircuitBreaker
new_circuit name config = record {
  name = name;
  config = config;
  state = closed;
  failure_count = 0;
  success_count = 0;
  last_failure_time = none;
}

-- `elapsed >= timeout`, where the clock may have gone back since the failure.
unfoldable pub timed_out : CircuitBreaker → ℕ → ℕ → Bool
timed_out c last now = leb (last + c.config.timeout) now

-- The property `state`: its write, and what it returns.
unfoldable pub refresh : CircuitBreaker → ℕ → CircuitBreaker
unfolding timed_out
refresh c now = elim c.state [
  | opened ↦ elim c.last_failure_time [
    | some last ↦
        if timed_out c last now then record c { state = half_open; success_count = 0 } else c
    | none ↦ c
  ]
  | _ ↦ c
]

unfoldable pub record_success : CircuitBreaker → CircuitBreaker
record_success c = elim c.state [
  | half_open ↦
      let counted : CircuitBreaker = record c { success_count = c.success_count + 1 } in
      if leb c.config.success_threshold (c.success_count + 1)
      then record counted { state = closed; failure_count = 0 }
      else counted
  | closed ↦ record c { failure_count = 0 }
  | opened ↦ c
]

-- `record_failure` past its test for excluded exceptions.
unfoldable pub count_failure : CircuitBreaker → ℕ → CircuitBreaker
count_failure c now =
    let counted : CircuitBreaker = record c {
      failure_count = c.failure_count + 1;
      last_failure_time = some now;
    } in
    elim c.state [
      | half_open ↦ record counted { state = opened }
      | closed ↦
          if leb c.config.failure_threshold (c.failure_count + 1)
          then record counted { state = opened }
          else counted
      | opened ↦ counted
    ]

unfoldable pub record_failure : CircuitBreaker → Error → ℕ → CircuitBreaker
unfolding count_failure
record_failure c e now =
    if instance_of_any e c.config.excluded_exceptions then c else count_failure c now

unfoldable pub is_open : CircuitState → Bool
is_open opened = true
is_open _ = false

-- `is_available`: the circuit after the check, and the answer.
unfoldable pub is_available : CircuitBreaker → ℕ → CircuitBreaker × Bool
unfolding refresh is_open
is_available c now = let c' = refresh c now in (c', not (is_open c'.state))

-- What the process does with one circuit: a check at a time, and the end of a call. Requests that
-- overlap interleave these in any order.
pub data Event : Type 0 where
  check : ℕ → Event
  success : Event
  failure : Error → ℕ → Event

unfoldable pub step : CircuitBreaker → Event → CircuitBreaker
unfolding is_available record_success record_failure
step c (check now) = (is_available c now).0
step c success = record_success c
step c (failure e now) = record_failure c e now

unfoldable pub run : CircuitBreaker → List Event → CircuitBreaker
unfolding step
run c [] = c
run c (e ∷ es) = run (step c e) es

-- `with_circuit_breaker`: the wrapper around `func`, which works on a world `S`. `now` is the clock
-- at the check, and `later` at the end of the call.
module _ {S A : Type 0} (func : S → Outcome A × S) where
  unfoldable pub after_call : CircuitBreaker → ℕ → Outcome A × S → Outcome A × CircuitBreaker × S
  after_call c later (ok a, s) = (ok a, record_success c, s)
  after_call c later (raise e, s) = (raise e, record_failure c e later, s)

  unfoldable pub with_circuit_breaker : CircuitBreaker → ℕ → ℕ → S → Outcome A × CircuitBreaker × S
  unfolding after_call is_available
  with_circuit_breaker c now later s =
      let (c', available) = is_available c now in
      elim available [
        | false ↦
            (raise (service_unavailable ("Circuit breaker " ++ (c.name ++ " is open"))), c', s)
        | true ↦ after_call c' later (func s)
      ]
