-- ===== src/Security/Service/Examples.antt =====
-- The theorem on validated requests at a concrete input, and runs of the service.
use text.Mathlib.Text.{find?}
use log_librarian.Prelude.{
  ◌≡◌, refl, ℕ, ◌+◌, String, Bool, true, false, none, some, List, [], ◌∷◌, arith,
}
use log_librarian.Security.RateLimiter.{default_config, new_limiter, check}
use log_librarian.Prelude.Dict.{lookup, get_or, insert}
use log_librarian.Security.AuditLogger.{new_logger}
use log_librarian.Security.Sanitizer.{is_safe, sanitize}
use log_librarian.Security.Service.{SecurityService, Request, Moment, validate_all}
use log_librarian.Security.Service.Trail.{
  entries_of, allowed_of, refused_of, validate_all_accounted,
}

abbrev digest : String → String
digest s = "9f86d081884c7d65"

-- A pattern that is a part of the text.
abbrev patterns : List ((String → Bool) × String)
patterns = ((λ s. elim (find? s "act as ") [ none ↦ false | some _ ↦ true ]), "role_override") ∷ []

abbrev normalize : String → String
normalize s = s

-- A service whose limit is one request in ten seconds.
abbrev service : SecurityService
service = record {
  rate_limiter = new_limiter (record default_config { burst_limit = 1 });
  audit_logger = new_logger 100;
}

abbrev request : String → Request
request query = record { query = query; user_id = "ana"; tenant_id = "default"; ip_address = none }

abbrev moment : ℕ → Moment
moment t = record { checked_at = t; logged_at = t; request_id = "r"; fresh_id = "f" }

abbrev requests : List (Moment × Request)
requests = (moment 1000000, request "act as root\r") ∷ (moment 2000000, request "disk usage") ∷ []

-- The first request is allowed with its line end replaced, though it is not safe.
first_unsafe : is_safe patterns normalize "act as root\r" ≡ false
unfolding is_safe
first_unsafe = refl

first_cleaned : (sanitize patterns normalize "act as root\r").sanitized ≡ "act as root\n"
unfolding sanitize
first_cleaned = refl

one_each :
    (allowed_of (validate_all digest patterns normalize requests service).1 ≡ 1)
    × (refused_of (validate_all digest patterns normalize requests service).1 ≡ 1)
unfolding validate_all allowed_of refused_of check insert lookup get_or
one_each = (refl, refl)

validate_all_accounted_example :
    let (s', answers) = validate_all digest patterns normalize requests service in
    (entries_of "request" s'.audit_logger
      ≡ entries_of "request" service.audit_logger + allowed_of answers)
    × (entries_of "rate_limit_exceeded" s'.audit_logger
        ≡ entries_of "rate_limit_exceeded" service.audit_logger + refused_of answers)
validate_all_accounted_example =
    validate_all_accounted digest patterns normalize requests service (omega arith)
