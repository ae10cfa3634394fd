-- ===== src/Resilience.antt =====
-- librarian/ai_resilience.py: errors, retries and the circuit breaker.
pub mod Errors
pub mod Outcome
pub mod Circuit
pub mod Retry
pub mod Messages
mod Examples
