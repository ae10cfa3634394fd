-- ===== src/Resilience/Retry/Delays.antt =====
-- How long, and how often, the wrapper sleeps.
use log_librarian.Prelude.{
  ℕ, zero, suc, ◌+◌, ◌-◌, ◌*◌, ◌^◌, ◌<◌, ◌≤◌, ◌≡◌, refl, Bool, true, false, Option, none, some,
  List, [], arith, All, length, if◌then◌else◌, Bool-cases, inl, inr, ltb,
}
use log_librarian.Resilience.Errors.{Error, instance_of_any}
use log_librarian.Resilience.Outcome.{Outcome, ok, raise}
use log_librarian.Resilience.Retry.{RetryConfig, one, half, delay, pause, retry_loop, with_retry}

-- The longest sleep, in parts of a millisecond: the cap, which the jitter may exceed by a half.
abbrev pub longest : RetryConfig → ℕ
longest config = config.max_delay * (if config.jitter then one + half else one)

delay-le :
    (config : RetryConfig) (attempt draw : ℕ)
    → draw < one
    → delay config attempt draw ≤ longest config
unfolding delay
delay-le config attempt draw h =
    let p = config.initial_delay * config.exponential_base ^ attempt in
    elim (Bool-cases config.jitter) [ inl e ↦ rw e (grind arith) | inr e ↦ rw e (grind arith) ]

module _ {S A : Type 0} (config : RetryConfig) (draw : ℕ → ℕ) (func : S → Outcome A × S) where
  pause-All :
      (attempt : ℕ) (later : List ℕ)
      → draw attempt < one
      → All (λ t. t ≤ longest config) later
      → All (λ t. t ≤ longest config) (pause config draw func attempt later)
  unfolding pause
  pause-All attempt later d h =
      let le = delay-le config attempt (draw attempt) d in
      elim (Bool-cases (ltb attempt (config.max_attempts - 1))) [
        | inl e ↦ rw e (le, h)
        | inr e ↦ rw e h
      ]

  length-pause :
      (attempt : ℕ) (later : List ℕ)
      → length later ≤ config.max_attempts - 1 - suc attempt
      → length (pause config draw func attempt later) ≤ config.max_attempts - 1 - attempt
  unfolding pause
  length-pause attempt later h = ground arith

  sleeps_ok :
      (rounds attempt : ℕ) (last : Option Error) (s : S) (a : A)
      → (func s).0 ≡ ok a
      → (retry_loop config draw func (suc rounds) attempt last s).sleeps ≡ []
  unfolding retry_loop
  sleeps_ok rounds attempt last s a h = ground arith

  sleeps_raise :
      (rounds attempt : ℕ) (last : Option Error) (s : S) (e : Error)
      → (func s).0 ≡ raise e
      → (retry_loop config draw func (suc rounds) attempt last s).sleeps ≡ (
          if instance_of_any e config.retryable_exceptions
          then pause config draw func attempt
              (retry_loop config draw func rounds (suc attempt) (some e) (func s).1).sleeps
          else [])
  unfolding retry_loop
  sleeps_raise rounds attempt last s e h = ground arith

  IsBounded : ℕ → List ℕ → Type 0
  IsBounded attempt l =
      All (λ t. t ≤ longest config) l × (length l ≤ config.max_attempts - 1 - attempt)

  pause-IsBounded :
      (attempt : ℕ) (later : List ℕ) (b : Bool)
      → draw attempt < one
      → IsBounded (suc attempt) later
      → IsBounded attempt (if b then pause config draw func attempt later else [])
  unfolding IsBounded
  pause-IsBounded attempt later true d h =
      (pause-All attempt later d h.0, length-pause attempt later h.1)
  pause-IsBounded attempt later false d h = (tt, omega arith)

  loop-IsBounded :
      ((attempt : ℕ) → draw attempt < one)
      → (rounds attempt : ℕ) (last : Option Error) (s : S)
      → IsBounded attempt (retry_loop config draw func rounds attempt last s).sleeps
  loop-IsBounded d zero attempt last s = unfold IsBounded retry_loop in (tt, omega arith)
  loop-IsBounded d (suc rounds) attempt last s =
      by_outcome (func s).0 refl (λ e. loop-IsBounded d rounds (suc attempt) (some e) (func s).1)
    where
      by_outcome :
          (r : Outcome A)
          → (func s).0 ≡ r
          → ((e : Error)
              → IsBounded
                  (suc attempt)
                  (retry_loop config draw func rounds (suc attempt) (some e) (func s).1).sleeps)
          → IsBounded attempt (retry_loop config draw func (suc rounds) attempt last s).sleeps
      by_outcome (ok a) h ih =
          rw (sleeps_ok rounds attempt last s a h) (unfold IsBounded in (tt, omega arith))
      by_outcome (raise e) h ih =
          rw (sleeps_raise rounds attempt last s e h)
            (pause-IsBounded attempt _ _ (d attempt) (ih e))

  -- Whatever the function does, the wrapper sleeps at most `max_attempts - 1` times, and no sleep is
  -- longer than `max_delay`, or one and a half times that if there is jitter.
  pub sleeps_bounded :
      (s : S)
      → ((attempt : ℕ) → draw attempt < one)
      → All (λ t. t ≤ longest config) (with_retry config draw func s).sleeps
        × (length (with_retry config draw func s).sleeps ≤ config.max_attempts - 1)
  unfolding with_retry IsBounded
  sleeps_bounded s d =
      let (each, number) = loop-IsBounded d config.max_attempts 0 none s in
      (each, omega (arith, number))
