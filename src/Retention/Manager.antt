-- ===== src/Retention/Manager.antt =====
-- `run_cleanup`, `start`, `stop` and a turn of `_retention_loop` of librarian/retention_manager.py,
-- on a SQLite database.
use log_librarian.Prelude.{ℕ, ◌+◌, String, Bool, true, false, some, List, [], ◌∷◌}
use log_librarian.Retention.Tables.{StoredRow, Database}
use log_librarian.Retention.Settings.{CleanupResult, RetentionRunResult, RetentionManager}
use log_librarian.Retention.Expired.{Fault, cleanup_sqlite}
use log_librarian.Retention.Oldest.{Faults, Stats, cleanup_by_size}

-- `sum(r.rows_deleted for r in cleanup_results)`
unfoldable pub total_rows : List CleanupResult → ℕ
total_rows [] = 0
total_rows (r ∷ rs) = r.rows_deleted + total_rows rs

module _ {F : Type 0} where
  unfoldable pub run_cleanup :
      (String → ℕ)
      → (String → ℕ)
      → (String → Fault)
      → ℕ
      → ℕ
      → RetentionManager F
      → Database
      → RetentionManager F × Database × RetentionRunResult
  unfolding cleanup_sqlite total_rows
  run_cleanup clock elapsed fault run_timestamp took m db =
      let (db', results) = cleanup_sqlite clock elapsed fault m.retention_policies db in
      let run : RetentionRunResult = record {
        run_timestamp = run_timestamp;
        total_rows_deleted = total_rows results;
        total_duration_ms = took;
        cleanup_results = results;
      } in
      (record m { last_run = some run }, db', run)

  -- A turn of the loop: expired rows, then the oldest ones; its reports are left out.
  unfoldable pub janitor_turn :
      (String → ℕ)
      → (String → ℕ)
      → (String → Fault)
      → ℕ
      → ℕ
      → (List StoredRow → List StoredRow)
      → (ℕ → F → Bool)
      → (Database → Stats)
      → (ℕ → Faults)
      → RetentionManager F
      → Database
      → RetentionManager F × Database
  unfolding run_cleanup cleanup_by_size
  janitor_turn clock elapsed fault run_timestamp took order_by fits storage faults m db =
      let (m', db', run) = run_cleanup clock elapsed fault run_timestamp took m db in
      let (db'', deleted) =
        cleanup_by_size order_by (λ size. fits size m'.max_storage_gb) storage faults
          m'.size_cleanup_batch db' in
      (m', db'')

  -- `start`: the manager, and if a task is created.
  unfoldable pub start : RetentionManager F → RetentionManager F × Bool
  start m = elim m.running [ true ↦ (m, false) | false ↦ (record m { running = true }, true) ]

  unfoldable pub stop : RetentionManager F → RetentionManager F
  stop m = record m { running = false }
