-- ===== src/Security/Service.antt =====
-- `SecurityService.validate_request` of librarian/ai_security.py, with the methods of `AuditLogger`
-- that it calls. Clock readings are microseconds, as in the rate limiter.
mod Trail
mod Examples
use Prim.Native.String.{◌++◌}
use Prim.Native.Nat.{◌/◌}
use log_librarian.Prelude.{
  ℕ, ◌-◌, max, String, Bool, true, false, Option, none, some, List, [], ◌∷◌, if◌then◌else◌,
}
use log_librarian.Prelude.Text.{str_nat, first_chars, count_chars}
use log_librarian.Security.RateLimiter.{RateLimiter, RateLimitResult, check}
use log_librarian.Security.AuditLogger.{AuditLogger, LogCall, log}
use log_librarian.Security.Sanitizer.{SanitizationResult, sanitize, is_safe}

-- The dictionaries of details that are logged.
pub data Details : Type 0 where
  no_details : Details
  request_details : String → ℕ → Details
  response_details : Bool → ℕ → ℕ → Option String → Details
  limit_details : String → String → Option String → String → Details
  input_details : String → List String → Option String → String → Details

pub record SecurityService : Type 0 where
  pub rate_limiter : RateLimiter
  pub audit_logger : AuditLogger Details

-- The arguments of `validate_request`.
pub record Request : Type 0 where
  pub query : String
  pub user_id : String
  pub tenant_id : String
  pub ip_address : Option String

-- What the call reads besides: the clock of the rate limiter, the clock of the entries and of the
-- time to wait, and its random ids, of the request and of the entries without one.
pub record Moment : Type 0 where
  pub checked_at : ℕ
  pub logged_at : ℕ
  pub request_id : String
  pub fresh_id : String

-- The call of `log` by `log_chat_request`, for the digest of the query.
unfoldable pub chat_request : (String → String) → String → Request → String → LogCall Details
unfolding first_chars count_chars
chat_request sha256 query r request_id = record {
  event_type = "ai_chat";
  action = "request";
  user_id = some r.user_id;
  tenant_id = some r.tenant_id;
  details = some (request_details (first_chars 16 (sha256 query)) (count_chars query));
  request_id = some request_id;
  ip_address = r.ip_address;
  user_agent = none;
}

-- The call of `log` by `log_chat_response`.
unfoldable pub chat_response : String → Bool → ℕ → ℕ → Option String → LogCall Details
chat_response request_id success duration_ms tool_count error = record {
  event_type = "ai_chat";
  action = "response";
  user_id = none;
  tenant_id = none;
  details = some (response_details success duration_ms tool_count error);
  request_id = some request_id;
  ip_address = none;
  user_agent = none;
}

-- The call of `log` by `log_security_event`; the details have the severity.
unfoldable pub security_event : String → String → Details → LogCall Details
security_event event user_id details = record {
  event_type = "security";
  action = event;
  user_id = some user_id;
  tenant_id = none;
  details = some details;
  request_id = none;
  ip_address = none;
  user_agent = none;
}

-- The identifier of the rate limiter.
unfoldable pub identifier_of : Request → String
identifier_of r = r.tenant_id ++ ":" ++ r.user_id

unfoldable pub wait_message : ℕ → ℕ → String
wait_message reset_at now =
    "Rate limit exceeded. Please wait "
    ++ str_nat (max ((reset_at - now) / 1000000) 1)
    ++ " seconds."

module _ (sha256 : String → String) (patterns : List ((String → Bool) × String))
    (normalize : String → String) where
  unfoldable pub log_call : Moment → LogCall Details → AuditLogger Details → AuditLogger Details
  unfolding log
  log_call at call l = log no_details l at.logged_at at.fresh_id call

  -- The log of an input with flags of injection.
  unfoldable pub log_suspicious : Moment → Request → AuditLogger Details → AuditLogger Details
  unfolding is_safe sanitize log_call security_event
  log_suspicious at r l =
      if is_safe patterns normalize r.query
      then l
      else log_call at
          (security_event "suspicious_input" r.user_id (
            input_details r.tenant_id (sanitize patterns normalize r.query).flags r.ip_address
              "warning"))
          l

  -- `validate_request` from its rate limit check, none where that raises: the answer is if the
  -- request is allowed, with a query and an error message.
  unfoldable pub after_check :
      Moment
      → Request
      → Option RateLimitResult
      → SecurityService
      → SecurityService × Option (Bool × String × String)
  unfolding log_call log_suspicious security_event chat_request wait_message sanitize
  after_check at r none s = (s, none)
  after_check at r (some result) s =
      let query = (sanitize patterns normalize r.query).sanitized in
      if result.allowed
      then (
        record s {
          audit_logger =
              log_call at (chat_request sha256 query r at.request_id)
                (log_suspicious at r s.audit_logger);
        },
        some (true, query, ""),
      )
      else (
        record s {
          audit_logger =
              log_call at
                (security_event "rate_limit_exceeded" r.user_id
                  (limit_details r.tenant_id result.limit_type r.ip_address "warning"))
                s.audit_logger;
        },
        some (false, r.query, wait_message result.reset_at at.logged_at),
      )

  -- `validate_request`
  unfoldable pub validate_request :
      Moment → Request → SecurityService → SecurityService × Option (Bool × String × String)
  unfolding after_check identifier_of check
  validate_request at r s =
      let (limiter, result) = check s.rate_limiter (identifier_of r) at.checked_at in
      after_check at r result (record s { rate_limiter = limiter })

  -- Some calls, with their answers.
  unfoldable pub validate_all :
      List (Moment × Request)
      → SecurityService
      → SecurityService × List (Option (Bool × String × String))
  unfolding validate_request
  validate_all [] s = (s, [])
  validate_all ((at, r) ∷ rest) s =
      let (s', answer) = validate_request at r s in
      let (s'', answers) = validate_all rest s' in (s'', answer ∷ answers)
