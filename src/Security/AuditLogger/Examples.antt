-- ===== src/Security/AuditLogger/Examples.antt =====
-- The theorems on the audit log at concrete entries, and runs of the code.
use log_librarian.Prelude.{ℕ, ◌-◌, ◌≡◌, refl, ◌&&◌, none, some, List, [], ◌∷◌, arith, drop}
use mathlib.Core.List.{reverse}
use log_librarian.Security.AuditLogger.{
  AuditEntry, AuditLogger, LogCall, new_logger, log, get_recent_entries,
}
use log_librarian.Security.AuditLogger.Retention.{add_all, keeps_latest, keeps_all_at_zero}
use log_librarian.Security.AuditLogger.Selection.{first_wanted, is_wanted, get_recent_entries_lem}

abbrev request : LogCall ℕ
request = record {
  event_type = "ai_chat";
  action = "request";
  user_id = some "ann";
  tenant_id = some "t";
  details = none;
  request_id = none;
  ip_address = none;
  user_agent = none;
}

abbrev chat : ℕ → AuditEntry ℕ
chat now = record {
  timestamp = now;
  event_type = "ai_chat";
  user_id = some "ann";
  tenant_id = some "t";
  action = "request";
  details = 0;
  request_id = "r";
  ip_address = none;
  user_agent = none;
}

abbrev alarm : AuditEntry ℕ
alarm = record (chat 9) { event_type = "security"; user_id = none }

abbrev logged : List (AuditEntry ℕ)
logged = chat 1 ∷ chat 2 ∷ alarm ∷ chat 3 ∷ []

log_lem : log 0 (new_logger 2) 1 "r" request ≡ record { entries = chat 1 ∷ []; max_entries = 2 }
unfolding log
log_lem = refl

keeps_latest_example : (add_all (new_logger 3) logged).entries ≡ drop (4 - 3) logged
keeps_latest_example = keeps_latest 3 logged (omega arith)

keeps_all_at_zero_example : (add_all (new_logger 0) logged).entries ≡ logged
keeps_all_at_zero_example = keeps_all_at_zero logged

abbrev held : AuditLogger ℕ
held = record { entries = logged; max_entries = 10 }

recent_chats : get_recent_entries held 2 (some "ai_chat") none ≡ chat 2 ∷ chat 3 ∷ []
unfolding get_recent_entries
recent_chats = refl

get_recent_entries_lem_example :
    get_recent_entries held 2 (some "ai_chat") none
    ≡ reverse (
        first_wanted 2
          (λ e. is_wanted (some "ai_chat") (some e.event_type) && is_wanted none e.user_id)
          (reverse logged))
get_recent_entries_lem_example = get_recent_entries_lem held 2 (some "ai_chat") none (omega arith)
