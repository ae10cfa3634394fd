-- ===== src/Resilience/Circuit/Recovery.antt =====
-- How a circuit trips, and how it closes again.
use log_librarian.Prelude.{
  zero, Bool-cases, inl, inr, ℕ, suc, ◌+◌, ◌<◌, ◌≤◌, ◌≡◌, refl, false, some, List, [], ◌∷◌, arith,
  All, leb, length, if◌then◌else◌, map,
}
use log_librarian.Resilience.Errors.{Error, instance_of_any}
use log_librarian.Resilience.Circuit.{
  closed, opened, half_open, CircuitBreaker, Event, check, success, failure, record_success,
  record_failure, refresh, step, run,
}

abbrev pub failures : List (Error × ℕ) → List Event
failures = map (λ f. failure f.0 f.1)

-- None of the failures is of an excluded class.
abbrev pub Counted : CircuitBreaker → List (Error × ℕ) → Type 0
Counted c = All (λ f. instance_of_any f.0 c.config.excluded_exceptions ≡ false)

config-failure :
    (c : CircuitBreaker) (e : Error) (now : ℕ) → (record_failure c e now).config ≡ c.config
unfolding record_failure
config-failure c e now = ground arith

Counted-step :
    (c : CircuitBreaker) (e : Error) (now : ℕ) (fs : List (Error × ℕ))
    → Counted c fs
    → Counted (record_failure c e now) fs
Counted-step c e now fs h = rw config-failure h

opened_failure :
    (c : CircuitBreaker) (e : Error) (now : ℕ)
    → c.state ≡ opened
    → (record_failure c e now).state ≡ opened
unfolding record_failure
opened_failure c e now h = ground arith

opened_stays :
    (c : CircuitBreaker) (fs : List (Error × ℕ))
    → c.state ≡ opened
    → (run c (failures fs)).state ≡ opened
unfolding run step
opened_stays c [] h = h
opened_stays c ((e, now) ∷ fs) h =
    opened_stays (record_failure c e now) fs (opened_failure c e now h)

closed_failure :
    (c : CircuitBreaker) (e : Error) (now : ℕ)
    → c.state ≡ closed
    → instance_of_any e c.config.excluded_exceptions ≡ false
    → ((record_failure c e now).state
        ≡ (if leb c.config.failure_threshold (c.failure_count + 1) then opened else closed))
      × ((record_failure c e now).failure_count ≡ c.failure_count + 1)
unfolding record_failure
closed_failure c e now h x = (ground arith, ground arith)

-- A closed circuit whose failure count is below the threshold is open after a run of failures of
-- counted classes exactly when the count and the length of the run reach the threshold together;
-- otherwise it is still closed.
pub trips_at_threshold :
    (c : CircuitBreaker) (fs : List (Error × ℕ))
    → c.state ≡ closed
    → c.failure_count < c.config.failure_threshold
    → Counted c fs
    → (run c (failures fs)).state
      ≡ (if leb c.config.failure_threshold (c.failure_count + length fs) then opened else closed)
unfolding run step
trips_at_threshold c [] h lt w = ground arith
trips_at_threshold c ((e, now) ∷ fs) h lt w =
    let c' : CircuitBreaker = record_failure c e now in
    let (state, count) = closed_failure c e now h w.0 in
    let same = config-failure c e now in
    elim (Bool-cases (leb c.config.failure_threshold (c.failure_count + 1))) [
      | inl reached ↦ ground (arith, opened_stays c' fs (rw reached at state))
      | inr below ↦
          ground
            (arith, trips_at_threshold c' fs (rw below at state) (ground arith) (rw same (w.1)))
    ]

abbrev pub successes : ℕ → List Event
successes zero = []
successes (suc n) = success ∷ successes n

closed_success : (c : CircuitBreaker) → c.state ≡ closed → (record_success c).state ≡ closed
unfolding record_success
closed_success c h = ground arith

closed_stays :
    (c : CircuitBreaker) (n : ℕ) → c.state ≡ closed → (run c (successes n)).state ≡ closed
unfolding run step
closed_stays c zero h = h
closed_stays c (suc n) h = closed_stays (record_success c) n (closed_success c h)

half_open_success :
    (c : CircuitBreaker)
    → c.state ≡ half_open
    → ((record_success c).state
        ≡ (if leb c.config.success_threshold (c.success_count + 1) then closed else half_open))
      × ((record_success c).success_count ≡ c.success_count + 1)
      × ((record_success c).config ≡ c.config)
unfolding record_success
half_open_success c h = (ground arith, ground arith, ground arith)

half_open_run :
    (c : CircuitBreaker) (n : ℕ)
    → c.state ≡ half_open
    → c.success_count < c.config.success_threshold
    → (run c (successes n)).state
      ≡ (if leb c.config.success_threshold (c.success_count + n) then closed else half_open)
unfolding run step
half_open_run c zero h lt = ground arith
half_open_run c (suc n) h lt =
    let c' : CircuitBreaker = record_success c in
    let (state, count, same) = half_open_success c h in
    elim (Bool-cases (leb c.config.success_threshold (c.success_count + 1))) [
      | inl reached ↦ ground (arith, closed_stays c' n (rw reached at state))
      | inr below ↦ ground (arith, half_open_run c' n (rw below at state) (ground arith))
    ]

probing :
    (c : CircuitBreaker) (last now : ℕ)
    → c.state ≡ opened
    → c.last_failure_time ≡ some last
    → last + c.config.timeout ≤ now
    → refresh c now ≡ record c { state = half_open; success_count = 0 }
unfolding refresh
probing c last now h l le = ground arith

-- An open circuit that is checked once its timeout has passed since its last failure, and then sees
-- `n` successes, is closed exactly when `n` reaches the (positive) success threshold, and half open
-- otherwise.
pub closes_at_threshold :
    (c : CircuitBreaker) (last now n : ℕ)
    → c.state ≡ opened
    → c.last_failure_time ≡ some last
    → last + c.config.timeout ≤ now
    → 0 < c.config.success_threshold
    → (run c (check now ∷ successes n)).state
      ≡ (if leb c.config.success_threshold n then closed else half_open)
unfolding run step
closes_at_threshold c last now n h l le pos =
    let c' : CircuitBreaker = record c { state = half_open; success_count = 0 } in
    ground (arith, half_open_run c' n refl pos, probing c last now h l le)
