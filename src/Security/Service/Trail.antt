-- ===== src/Security/Service/Trail.antt =====
-- The entries of the audit log for the requests that were validated.
use log_librarian.Prelude.{
  ◌∙◌, ◌≡◌, refl, ap, ℕ, suc, ◌+◌, ◌*◌, ◌<◌, ◌≤◌, String, Bool, true, false, Option, none, some,
  List, [], ◌∷◌, ◌++◌, inl, inr, arith, Bool-cases, length, length-append, keep_if, keep_if-append,
  str_eq, ltb,
}
use log_librarian.Security.RateLimiter.{RateLimitResult, check}
use log_librarian.Security.AuditLogger.{AuditEntry, AuditLogger, LogCall, add_entry, entry_of, log}
use log_librarian.Security.Sanitizer.{sanitize, is_safe}
use log_librarian.Security.Service.{
  Details, no_details, input_details, limit_details, SecurityService, Request, Moment, chat_request,
  security_event, log_call, log_suspicious, after_check, validate_request, validate_all,
  identifier_of,
}

-- The number of the entries with an action.
unfoldable pub entries_of : String → AuditLogger Details → ℕ
entries_of action l = length (keep_if (λ e. str_eq e.action action) l.entries)

-- The answers that allow their request, and those that refuse it.
unfoldable pub allowed_of : List (Option (Bool × String × String)) → ℕ
allowed_of [] = 0
allowed_of (none ∷ answers) = allowed_of answers
allowed_of (some (true, query, message) ∷ answers) = suc (allowed_of answers)
allowed_of (some (false, query, message) ∷ answers) = allowed_of answers

unfoldable pub refused_of : List (Option (Bool × String × String)) → ℕ
refused_of [] = 0
refused_of (none ∷ answers) = refused_of answers
refused_of (some (true, query, message) ∷ answers) = refused_of answers
refused_of (some (false, query, message) ∷ answers) = suc (refused_of answers)

allowed_of-cons :
    (answer : Option (Bool × String × String)) (answers : List (Option (Bool × String × String)))
    → allowed_of (answer ∷ answers) ≡ allowed_of (answer ∷ []) + allowed_of answers
unfolding allowed_of
allowed_of-cons none answers = omega arith
allowed_of-cons (some (true, query, message)) answers = omega arith
allowed_of-cons (some (false, query, message)) answers = omega arith

refused_of-cons :
    (answer : Option (Bool × String × String)) (answers : List (Option (Bool × String × String)))
    → refused_of (answer ∷ answers) ≡ refused_of (answer ∷ []) + refused_of answers
unfolding refused_of
refused_of-cons none answers = omega arith
refused_of-cons (some (true, query, message)) answers = omega arith
refused_of-cons (some (false, query, message)) answers = omega arith

-- The logger `l'` is `l` with at most `n` entries more, among them `c` requests and `f` refusals.
abbrev Logged : AuditLogger Details → AuditLogger Details → ℕ → ℕ → ℕ → Type 0
Logged l l' n c f =
    (l'.max_entries ≡ l.max_entries)
    × (length l'.entries ≤ length l.entries + n)
    × (entries_of "request" l' ≡ entries_of "request" l + c)
    × (entries_of "rate_limit_exceeded" l' ≡ entries_of "rate_limit_exceeded" l + f)

abbrev one_if : Bool → ℕ
one_if true = 1
one_if false = 0

add_entry-roomy :
    (l : AuditLogger Details) (e : AuditEntry Details)
    → length l.entries < l.max_entries
    → add_entry l e ≡ record l { entries = l.entries ++ e ∷ [] }
unfolding add_entry
add_entry-roomy l e h =
    let fits : ltb l.max_entries (length (l.entries ++ e ∷ [])) ≡ false =
      ground (arith, length-append l.entries (e ∷ [])) in
    rw fits refl

entries_of-added :
    (action : String) (l : AuditLogger Details) (e : AuditEntry Details)
    → entries_of action (record l { entries = l.entries ++ e ∷ [] })
      ≡ entries_of action l + one_if (str_eq e.action action)
unfolding entries_of
entries_of-added action l e =
    ap length (keep_if-append (λ d. str_eq d.action action) l.entries (e ∷ []))
    ∙ length-append (keep_if (λ d. str_eq d.action action) l.entries)
        (keep_if (λ d. str_eq d.action action) (e ∷ []))
    ∙ elim (Bool-cases (str_eq e.action action)) [
      | inl same ↦ rw same refl
      | inr other ↦ rw other refl
    ]

module _ (sha256 : String → String) (patterns : List ((String → Bool) × String))
    (normalize : String → String) where
  log_call-roomy :
      (at : Moment) (call : LogCall Details) (l : AuditLogger Details)
      → length l.entries < l.max_entries
      → log_call sha256 patterns normalize at call l
        ≡ record l { entries = l.entries ++ entry_of no_details at.logged_at at.fresh_id call ∷ [] }
  unfolding log_call log
  log_call-roomy at call l h =
      add_entry-roomy l (entry_of no_details at.logged_at at.fresh_id call) h

  log_call-Logged :
      (at : Moment) (call : LogCall Details) (l : AuditLogger Details)
      → length l.entries < l.max_entries
      → Logged l
          (log_call sha256 patterns normalize at call l)
          1
          (one_if (str_eq call.action "request"))
          (one_if (str_eq call.action "rate_limit_exceeded"))
  unfolding entry_of
  log_call-Logged at call l h =
      let e = entry_of no_details at.logged_at at.fresh_id call in
      rw (log_call-roomy at call l h) (
        refl,
        omega (arith, length-append l.entries (e ∷ [])),
        entries_of-added "request" l e,
        entries_of-added "rate_limit_exceeded" l e,
      )

  log_suspicious-Logged :
      (at : Moment) (r : Request) (l : AuditLogger Details)
      → length l.entries < l.max_entries
      → Logged l (log_suspicious sha256 patterns normalize at r l) 1 0 0
  unfolding log_suspicious security_event
  log_suspicious-Logged at r l h = elim (Bool-cases (is_safe patterns normalize r.query)) [
    | inl safe ↦ rw safe (refl, omega arith, omega arith, omega arith)
    | inr unsafe ↦ rw unsafe (
        log_call-Logged at
          (security_event "suspicious_input" r.user_id (
            input_details r.tenant_id (sanitize patterns normalize r.query).flags r.ip_address
              "warning"))
          l h)
  ]

  after_check-Logged :
      (at : Moment) (r : Request) (o : Option RateLimitResult) (s : SecurityService)
      → length s.audit_logger.entries + 2 ≤ s.audit_logger.max_entries
      → let (s', answer) = after_check sha256 patterns normalize at r o s in
        Logged s.audit_logger s'.audit_logger 2
          (allowed_of (answer ∷ []))
          (refused_of (answer ∷ []))
  unfolding after_check allowed_of refused_of chat_request security_event
  after_check-Logged at r none s h = (refl, omega arith, omega arith, omega arith)
  after_check-Logged at r (some result) s h = elim (Bool-cases result.allowed) [
    | inl allowed ↦ rw allowed (
        let l = log_suspicious sha256 patterns normalize at r s.audit_logger in
        let first = log_suspicious-Logged at r s.audit_logger (omega arith) in
        let query = (sanitize patterns normalize r.query).sanitized in
        let second =
          log_call-Logged at (chat_request sha256 query r at.request_id) l
            (omega (arith, first.0, first.1)) in
        (
          second.0 ∙ first.0,
          omega (arith, first.1, second.1),
          omega (arith, first.2, second.2),
          omega (arith, first.3, second.3),
        ))
    | inr refused ↦ rw refused (
        let only =
          log_call-Logged at
            (security_event "rate_limit_exceeded" r.user_id
              (limit_details r.tenant_id result.limit_type r.ip_address "warning"))
            s.audit_logger (omega arith) in
        (only.0, omega (arith, only.1), only.2, only.3))
  ]

  -- While the audit log has room, a run of validated requests adds to it as many chat requests as
  -- requests were allowed, and as many exceeded rate limits as requests were refused.
  pub validate_all_accounted :
      (requests : List (Moment × Request)) (s : SecurityService)
      → length s.audit_logger.entries + 2 * length requests ≤ s.audit_logger.max_entries
      → let (s', answers) = validate_all sha256 patterns normalize requests s in
        (entries_of "request" s'.audit_logger
          ≡ entries_of "request" s.audit_logger + allowed_of answers)
        × (entries_of "rate_limit_exceeded" s'.audit_logger
            ≡ entries_of "rate_limit_exceeded" s.audit_logger + refused_of answers)
  unfolding validate_all validate_request allowed_of refused_of
  validate_all_accounted [] s h = (omega arith, omega arith)
  validate_all_accounted ((at, r) ∷ rest) s h =
      let (limiter, result) = check s.rate_limiter (identifier_of r) at.checked_at in
      let s0 : SecurityService = record s { rate_limiter = limiter } in
      let (s', answer) = after_check sha256 patterns normalize at r result s0 in
      let one = after_check-Logged at r result s0 (omega arith) in
      let more = validate_all_accounted rest s' (omega (arith, one.0, one.1)) in
      let answers = (validate_all sha256 patterns normalize rest s').1 in
      (
        omega (arith, one.2, more.0, allowed_of-cons answer answers),
        omega (arith, one.3, more.1, refused_of-cons answer answers),
      )
