-- ===== src/Security.antt =====
-- librarian/ai_security.py: rate limits, the audit log, the sanitizer of the input, and the service
-- that joins them.
pub mod RateLimiter
pub mod AuditLogger
pub mod Sanitizer
pub mod Service
