-- ===== src/Resilience/Outcome.antt =====
-- What a call of Python code gives: a value, or an exception.
use log_librarian.Resilience.Errors.{Error}

pub data Outcome {ℓ} (A : Type ℓ) : Type ℓ where
  ok : A → Outcome A
  raise : Error → Outcome A
