-- ===== src/Retention/Oldest.antt =====
-- `cleanup_by_size` of librarian/retention_manager.py, and its deletion of a batch of oldest rows.
use log_librarian.Prelude.{ℕ, zero, suc, ◌+◌, ◌/◌, String, Bool, List, ltb, ◌==◌, if◌then◌else◌}
use log_librarian.Retention.Tables.{StoredRow, Database, rows_of, limit, is_selected, delete_from}

-- Where `_delete_oldest_sqlite` raises, if it does. A connection that is not committed loses what
-- it deleted.
pub record Faults : Type 0 where
  pub raw_logs : Bool
  pub metrics : Bool
  pub commit : Bool

-- What `get_storage_stats` returns of the file.
pub data Stats : Type 0 where
  stats_error : String → Stats
  file_size_bytes : ℕ → Stats

-- `order_by` is SQLite's `ORDER BY timestamp ASC`.
module _ (order_by : List StoredRow → List StoredRow) where
  -- `DELETE FROM table WHERE id IN (SELECT id FROM table ORDER BY timestamp ASC LIMIT batch)`
  unfoldable pub delete_batch : String → ℕ → Database → Database × ℕ
  unfolding limit delete_from is_selected rows_of
  delete_batch table batch db =
      delete_from table (is_selected (limit batch (order_by (rows_of table db)))) db

  -- `conn.commit()`, for the database before and after the statements, and their count.
  unfoldable pub commit_to : Bool → Database → Database → ℕ → Database × ℕ
  commit_to fails old new n = if fails then (old, n) else (new, n)

  -- `_delete_oldest_sqlite`: the database, and the number that it returns.
  unfoldable pub delete_oldest : Faults → ℕ → Database → Database × ℕ
  unfolding delete_batch commit_to
  delete_oldest f batch db =
      let (db', raw_deleted) = delete_batch "raw_logs" batch db in
      let (db'', metrics_deleted) = delete_batch "metrics" batch db' in
      if f.raw_logs
      then (db, 0)
      else if ltb raw_deleted (batch / 2)
      then (if f.metrics
          then (db, raw_deleted)
          else commit_to f.commit db db'' (raw_deleted + metrics_deleted))
      else commit_to f.commit db db' raw_deleted

  -- `fits` is `size / 1024**3 <= max_storage_gb`; `storage` reads the size of the file that holds
  -- the database.
  module _ (fits : ℕ → Bool) (storage : Database → Stats) where
    -- The loop, for the turns that are left; `faults` are those of each turn.
    unfoldable pub shrink : ℕ → (ℕ → Faults) → ℕ → Database → Database × ℕ
    unfolding delete_oldest
    shrink zero faults batch db = (db, 0)
    shrink (suc turns) faults batch db =
        let (db', deleted) = delete_oldest (faults turns) batch db in
        let (db'', more) = shrink turns faults batch db' in
        elim (storage db) [
          | stats_error message ↦ (db, 0)
          | file_size_bytes size ↦
              if fits size
              then (db, 0)
              else if deleted == 0
              then (db', 0)
              else (db'', deleted + more)
        ]

    -- `cleanup_by_size`
    unfoldable pub cleanup_by_size : (ℕ → Faults) → ℕ → Database → Database × ℕ
    unfolding shrink
    cleanup_by_size faults batch db = shrink 100 faults batch db
