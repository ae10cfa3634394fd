-- ===== src/Security/AuditLogger.antt =====
-- `AuditLogger` of librarian/ai_security.py, less the file that it also writes to. The type of the
-- `details` of an entry is a parameter, with its empty value.
mod Retention
mod Selection
mod Examples
use log_librarian.Prelude.{
  ℕ, ◌+◌, ◌-◌, String, Bool, true, false, Option, none, some, List, [], ◌∷◌, ◌++◌, ltb, ◌==◌,
  length, drop, keep_if, str_eq, if◌then◌else◌,
}

pub record AuditEntry (D : Type 0) : Type 0 where
  pub timestamp : ℕ
  pub event_type : String
  pub user_id : Option String
  pub tenant_id : Option String
  pub action : String
  pub details : D
  pub request_id : String
  pub ip_address : Option String
  pub user_agent : Option String

pub record AuditLogger (D : Type 0) : Type 0 where
  pub entries : List (AuditEntry D)
  pub max_entries : ℕ

-- `__init__`
abbrev pub new_logger : {D : Type 0} → ℕ → AuditLogger D
new_logger max_entries = record { entries = []; max_entries = max_entries }

-- `xs[-n:]`, where `-0` is 0.
unfoldable pub last_of : {A : Type 0} → ℕ → List A → List A
last_of n xs = if n == 0 then xs else drop (length xs - n) xs

-- The append and the trim of `log`.
unfoldable pub add_entry : {D : Type 0} → AuditLogger D → AuditEntry D → AuditLogger D
unfolding last_of
add_entry l e = record l {
  entries =
      if ltb l.max_entries (length (l.entries ++ e ∷ []))
      then last_of l.max_entries (l.entries ++ e ∷ [])
      else l.entries ++ e ∷ [];
}

-- The arguments of a call of `log`.
pub record LogCall (D : Type 0) : Type 0 where
  pub event_type : String
  pub action : String
  pub user_id : Option String
  pub tenant_id : Option String
  pub details : Option D
  pub request_id : Option String
  pub ip_address : Option String
  pub user_agent : Option String

abbrev pub or_else {ℓ} : {A : Type ℓ} → Option A → A → A
or_else none d = d
or_else (some a) d = a

-- An optional text that is absent or empty counts as false.
abbrev pub given : Option String → Bool
given none = false
given (some String.[]) = false
given (some _) = true

-- `request_id or str(uuid.uuid4())`
abbrev pub or_fresh : Option String → String → String
or_fresh none fresh = fresh
or_fresh (some String.[]) fresh = fresh
or_fresh (some s) fresh = s

module _ {D : Type 0} (no_details : D) where
  -- The entry that `log` builds; `now` is the clock and `fresh` the new `uuid4`.
  unfoldable pub entry_of : ℕ → String → LogCall D → AuditEntry D
  entry_of now fresh c = record {
    timestamp = now;
    event_type = c.event_type;
    user_id = c.user_id;
    tenant_id = c.tenant_id;
    action = c.action;
    details = or_else c.details no_details;
    request_id = or_fresh c.request_id fresh;
    ip_address = c.ip_address;
    user_agent = c.user_agent;
  }

  unfoldable pub log : AuditLogger D → ℕ → String → LogCall D → AuditLogger D
  unfolding add_entry entry_of
  log l now fresh c = add_entry l (entry_of now fresh c)

-- `[e for e in entries if e.event_type == event_type]`, where the argument is given.
unfoldable pub of_type : {D : Type 0} → Option String → List (AuditEntry D) → List (AuditEntry D)
of_type none es = es
of_type (some String.[]) es = es
of_type (some t) es = keep_if (λ e. str_eq e.event_type t) es

abbrev pub is_user : Option String → String → Bool
is_user none u = false
is_user (some v) u = str_eq v u

unfoldable pub of_user : {D : Type 0} → Option String → List (AuditEntry D) → List (AuditEntry D)
of_user none es = es
of_user (some String.[]) es = es
of_user (some u) es = keep_if (λ e. is_user e.user_id u) es

-- `get_recent_entries`, of entries in place of their dictionaries.
unfoldable pub get_recent_entries :
    {D : Type 0} → AuditLogger D → ℕ → Option String → Option String → List (AuditEntry D)
unfolding of_type of_user last_of
get_recent_entries l count event_type user_id =
    last_of count (of_user user_id (of_type event_type l.entries))
