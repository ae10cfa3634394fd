-- ===== src/Resilience/Retry.antt =====
-- `with_retry` of librarian/ai_resilience.py. Delays are whole milliseconds, the base of the
-- exponential is a whole number, and a draw of `random.random()` is `draw / 2 ** 53` for a `draw`
-- below `2 ** 53`, as Python makes it; so a sleep, after the jitter, is a whole number of `2 ** 53`
-- parts of a millisecond.
mod Attempts
mod Delays
mod Examples
use log_librarian.Prelude.{
  ℕ, zero, suc, ◌+◌, ◌-◌, ◌*◌, ◌^◌, min, Bool, true, false, Option, none, some, List, [], ◌∷◌, ltb,
  if◌then◌else◌,
}
use log_librarian.Resilience.Errors.{
  Error, ErrorClass, other, service_unavailable_error, timeout_error, tool_execution_error,
  instance_of_any,
}
use log_librarian.Resilience.Outcome.{Outcome, ok, raise}

pub record RetryConfig : Type 0 where
  pub max_attempts : ℕ
  pub initial_delay : ℕ
  pub max_delay : ℕ
  pub exponential_base : ℕ
  pub jitter : Bool
  pub retryable_exceptions : List ErrorClass

abbrev pub default_config : RetryConfig
default_config = record {
  max_attempts = 3;
  initial_delay = 1000;
  max_delay = 30000;
  exponential_base = 2;
  jitter = true;
  retryable_exceptions = service_unavailable_error ∷ timeout_error ∷ tool_execution_error ∷ [];
}

-- `2 ** 53`, the parts of one, and `2 ** 52`, those of one half.
abbrev pub one : ℕ
one = 9007199254740992

abbrev pub half : ℕ
half = 4503599627370496

-- The sleep after the failure of `attempt`, in parts of a millisecond; `draw` is the draw for the
-- jitter.
unfoldable pub delay : RetryConfig → ℕ → ℕ → ℕ
delay config attempt draw =
    let capped = min (config.initial_delay * config.exponential_base ^ attempt) config.max_delay in
    if config.jitter then capped * (half + draw) else capped * one

-- `raise last_exception`; raising `None` is a `TypeError`.
unfoldable pub raise_last {ℓ} : {A : Type ℓ} → Option Error → Outcome A
raise_last none = raise (other "TypeError")
raise_last (some e) = raise e

-- What a wrapped call leaves: its outcome, the world after it, and the sleeps it made.
pub record Retried (S A : Type 0) : Type 0 where
  pub outcome : Outcome A
  pub world : S
  pub sleeps : List ℕ

-- `func` works on a world `S`; `draw attempt` is the draw of the attempt, if one is made.
module _ {S A : Type 0} (config : RetryConfig) (draw : ℕ → ℕ) (func : S → Outcome A × S) where
  -- The sleep of a round that is not the last one, before the sleeps of the later rounds.
  unfoldable pub pause : ℕ → List ℕ → List ℕ
  pause attempt later =
      if ltb attempt (config.max_attempts - 1)
      then delay config attempt (draw attempt) ∷ later
      else later

  -- The `for` loop with `rounds` rounds left, from the number `attempt`.
  unfoldable pub retry_loop : ℕ → ℕ → Option Error → S → Retried S A
  unfolding pause raise_last
  retry_loop zero attempt last s = record { outcome = raise_last last; world = s; sleeps = [] }
  retry_loop (suc rounds) attempt last s =
      let (r, s') = func s in
      elim r [
        | ok a ↦ record { outcome = ok a; world = s'; sleeps = [] }
        | raise e ↦
            let rest = retry_loop rounds (suc attempt) (some e) s' in
            if instance_of_any e config.retryable_exceptions
            then record rest { sleeps = pause attempt rest.sleeps }
            else record { outcome = raise e; world = s'; sleeps = [] }
      ]

  unfoldable pub with_retry : S → Retried S A
  unfolding retry_loop
  with_retry s = retry_loop config.max_attempts 0 none s
