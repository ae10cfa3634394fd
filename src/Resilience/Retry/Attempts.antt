-- ===== src/Resilience/Retry/Attempts.antt =====
-- Which call of the wrapped function decides the outcome, and how often it is called.
use log_librarian.Prelude.{
  ◌∙◌, ℕ, zero, suc, ◌+◌, ◌<◌, ◌≡◌, refl, ap, true, false, Option, none, some, List, [], ◌∷◌, arith,
}
use log_librarian.Resilience.Errors.{Error, instance_of_any}
use log_librarian.Resilience.Outcome.{Outcome, ok, raise}
use log_librarian.Resilience.Retry.{RetryConfig, Retried, delay, retry_loop, with_retry}

-- The outcome ends the loop: a value, or an exception that is not retried.
abbrev pub IsFinal : {A : Type 0} → RetryConfig → Outcome A → Type 0
IsFinal config (ok a) = Unit
IsFinal config (raise e) = instance_of_any e config.retryable_exceptions ≡ false

abbrev pub IsRetried : {A : Type 0} → RetryConfig → Outcome A → Type 0
IsRetried config (ok a) = ⊥
IsRetried config (raise e) = instance_of_any e config.retryable_exceptions ≡ true

-- The sleeps after the attempts from `attempt` on, `count` of them.
abbrev pub pauses : RetryConfig → (ℕ → ℕ) → ℕ → ℕ → List ℕ
pauses config draw attempt zero = []
pauses config draw attempt (suc count) =
    delay config attempt (draw attempt) ∷ pauses config draw (suc attempt) count

-- The world after `k` calls.
abbrev pub after_calls : {S A : Type 0} → (S → Outcome A × S) → ℕ → S → S
after_calls func zero s = s
after_calls func (suc k) s = after_calls func k (func s).1

-- Each of the first `k` calls raises an exception that is retried.
abbrev pub FailsFor : {S A : Type 0} → RetryConfig → (S → Outcome A × S) → ℕ → S → Type 0
FailsFor config func zero s = Unit
FailsFor config func (suc k) s = IsRetried config (func s).0 × FailsFor config func k (func s).1

module _ {S A : Type 0} (config : RetryConfig) (draw : ℕ → ℕ) (func : S → Outcome A × S) where
  stop_now :
      (rounds attempt : ℕ) (last : Option Error) (s : S)
      → IsFinal config (func s).0
      → retry_loop config draw func (suc rounds) attempt last s
        ≡ record { outcome = (func s).0; world = (func s).1; sleeps = [] }
  unfolding retry_loop
  stop_now rounds attempt last s f = ground arith

  again :
      (rounds attempt : ℕ) (last : Option Error) (s : S) (e : Error)
      → (func s).0 ≡ raise e
      → instance_of_any e config.retryable_exceptions ≡ true
      → suc rounds + attempt ≡ config.max_attempts
      → 0 < rounds
      → retry_loop config draw func (suc rounds) attempt last s ≡ (
          let rest = retry_loop config draw func rounds (suc attempt) (some e) (func s).1 in
          record rest { sleeps = delay config attempt (draw attempt) ∷ rest.sleeps })
  unfolding retry_loop
  again rounds attempt last s e r m n p = ground arith

  raised :
      (r : Outcome A)
      → IsRetried config r
      → (e : Error) × (r ≡ raise e) × (instance_of_any e config.retryable_exceptions ≡ true)
  raised (ok a) h = absurd h
  raised (raise e) h = (e, refl, h)

  loop_stops :
      (k rounds attempt : ℕ) (last : Option Error) (s : S)
      → rounds + attempt ≡ config.max_attempts
      → k < rounds
      → FailsFor config func k s
      → IsFinal config (func (after_calls func k s)).0
      → retry_loop config draw func rounds attempt last s ≡ record {
        outcome = (func (after_calls func k s)).0;
        world = after_calls func (suc k) s;
        sleeps = pauses config draw attempt k;
      }
  loop_stops k zero attempt last s n lt f final = absurd (omega arith)
  loop_stops zero (suc rounds) attempt last s n lt f final = stop_now rounds attempt last s final
  loop_stops (suc k) (suc rounds) attempt last s n lt f final =
      let (e, r, m) = raised (func s).0 f.0 in
      again rounds attempt last s e r m n (omega arith)
      ∙ ap
          (λ (t : Retried S A). record t {
            sleeps = delay config attempt (draw attempt) ∷ t.sleeps;
          })
          (loop_stops k rounds (suc attempt) (some e) (func s).1 (omega arith) (omega arith) f.1
            final)

  last_round :
      (attempt : ℕ) (last : Option Error) (s : S) (e : Error)
      → (func s).0 ≡ raise e
      → instance_of_any e config.retryable_exceptions ≡ true
      → suc attempt ≡ config.max_attempts
      → retry_loop config draw func 1 attempt last s
        ≡ record { outcome = raise e; world = (func s).1; sleeps = [] }
  unfolding retry_loop
  last_round attempt last s e r m n = ground arith

  loop_exhausts :
      (k attempt : ℕ) (last : Option Error) (s : S)
      → suc k + attempt ≡ config.max_attempts
      → FailsFor config func (suc k) s
      → retry_loop config draw func (suc k) attempt last s ≡ record {
        outcome = (func (after_calls func k s)).0;
        world = after_calls func (suc k) s;
        sleeps = pauses config draw attempt k;
      }
  loop_exhausts zero attempt last s n f =
      let (e, r, m) = raised (func s).0 f.0 in rw r (last_round attempt last s e r m (omega arith))
  loop_exhausts (suc k) attempt last s n f =
      let (e, r, m) = raised (func s).0 f.0 in
      again (suc k) attempt last s e r m n (omega arith)
      ∙ ap
          (λ (t : Retried S A). record t {
            sleeps = delay config attempt (draw attempt) ∷ t.sleeps;
          })
          (loop_exhausts k (suc attempt) (some e) (func s).1 (omega arith) f.1)

  -- If the first `k` calls raise exceptions that are retried, `k` is below `max_attempts`, and the
  -- next call returns or raises an exception that is not retried, then that outcome is the outcome
  -- of the wrapper, the function has been called `k + 1` times, and the sleeps are the `k` delays of
  -- the attempts before it, in order.
  pub stops_at_final :
      (k : ℕ) (s : S)
      → k < config.max_attempts
      → FailsFor config func k s
      → IsFinal config (func (after_calls func k s)).0
      → with_retry config draw func s ≡ record {
        outcome = (func (after_calls func k s)).0;
        world = after_calls func (suc k) s;
        sleeps = pauses config draw 0 k;
      }
  unfolding with_retry
  stops_at_final k s lt f final = loop_stops k config.max_attempts 0 none s (omega arith) lt f final

  -- If `max_attempts` is `k + 1` and that many calls all raise exceptions that are retried, the
  -- wrapper raises the exception of the last call, after exactly `k + 1` calls and `k` sleeps.
  pub exhausts_attempts :
      (k : ℕ) (s : S)
      → config.max_attempts ≡ suc k
      → FailsFor config func (suc k) s
      → with_retry config draw func s ≡ record {
        outcome = (func (after_calls func k s)).0;
        world = after_calls func (suc k) s;
        sleeps = pauses config draw 0 k;
      }
  unfolding with_retry
  exhausts_attempts k s n f =
      ap (λ rounds. retry_loop config draw func rounds 0 none s) n
      ∙ loop_exhausts k 0 none s (omega arith) f
