-- ===== src/Retention/Expired.antt =====
-- `_cleanup_sqlite` and `_cleanup_sqlite_ai_data` of librarian/retention_manager.py. They
-- share a connection, whose transactions begin with a `DELETE`.
use log_librarian.Prelude.{ℕ, ◌+◌, String, Bool, none, some, List, [], ◌∷◌, ltb}
use log_librarian.Prelude.Dict.{Dict, get_or}
use log_librarian.Retention.Tables.{StoredRow, Database, delete_from}
use log_librarian.Retention.Settings.{CleanupResult, days}

-- The tables that are cleaned, with their retention periods: `_cleanup_sqlite`'s own four, then the
-- two of the AI data. The key `metrics` is read with `[]`, and is never missing.
unfoldable pub cleaned_tables : Dict ℕ → List (String × ℕ)
unfolding get_or
cleaned_tables policies =
    ("metrics", get_or "metrics" policies 0)
    ∷ ("raw_logs", get_or "raw_logs" policies (days 7))
    ∷ ("log_occurrences", get_or "log_occurrences" policies (days 30))
    ∷ ("process_snapshots", get_or "process_snapshots" policies (days 7))
    ∷ ("ai_reports", get_or "ai_briefings" policies (days 90))
    ∷ ("ai_conversations", get_or "ai_chat" policies (days 30))
    ∷ []

-- `datetime(time_column) < datetime(cutoff)`, for the cutoff `now - retention`.
unfoldable pub is_old : ℕ → ℕ → StoredRow → Bool
is_old now retention r = ltb (r.timestamp + retention) now

-- What goes wrong with a table: its `DELETE` raises; its `conn.commit()` raises and leaves the
-- transaction open, as it does where the database is locked; or the commit raises and the database
-- rolls the transaction back, as it does where the disk is full.
pub data Fault : Type 0 where
  no_fault : Fault
  statement_raises : String → Fault
  commit_raises : String → Fault
  rolls_back : String → Fault

-- The connection: the database that its statements see, and the one that is committed.
pub record Session : Type 0 where
  pub working : Database
  pub committed : Database

-- `clock` is the time at which a table is cleaned, `elapsed` how long that takes, and `fault` what
-- goes wrong with it.
module _ (clock elapsed : String → ℕ) (fault : String → Fault) where
  unfoldable failed : String → String → CleanupResult
  failed table message = record {
    table_name = table;
    rows_deleted = 0;
    duration_ms = elapsed table;
    error = some message;
  }

  -- The body of the loop, for the table's fault. A commit takes what is open of earlier tables too.
  unfoldable pub clean_table : String → ℕ → Fault → Session → Session × CleanupResult
  unfolding is_old delete_from failed
  clean_table table retention (statement_raises message) s = (s, failed table message)
  clean_table table retention (commit_raises message) s =
      let db' = (delete_from table (is_old (clock table) retention) s.working).0 in
      (record { working = db'; committed = s.committed }, failed table message)
  clean_table table retention (rolls_back message) s =
      (record { working = s.committed; committed = s.committed }, failed table message)
  clean_table table retention no_fault s =
      let (db', rows_deleted) = delete_from table (is_old (clock table) retention) s.working in
      (
        record { working = db'; committed = db' },
        record {
          table_name = table;
          rows_deleted = rows_deleted;
          duration_ms = elapsed table;
          error = none;
        },
      )

  unfoldable pub clean_tables : List (String × ℕ) → Session → Session × List CleanupResult
  unfolding clean_table
  clean_tables [] s = (s, [])
  clean_tables ((table, retention) ∷ rest) s =
      let (s', r) = clean_table table retention (fault table) s in
      let (s'', rs) = clean_tables rest s' in (s'', r ∷ rs)

  -- `_cleanup_sqlite`: `conn.close()` drops what is not committed.
  unfoldable pub cleanup_sqlite : Dict ℕ → Database → Database × List CleanupResult
  unfolding clean_tables cleaned_tables
  cleanup_sqlite policies db =
      let (s, results) =
        clean_tables (cleaned_tables policies) (record { working = db; committed = db }) in
      (s.committed, results)
