-- ===== src/Retention/Rollback.antt =====
-- What `cleanup_by_size` counts where the deletion of a batch is rolled back.
use log_librarian.Prelude.{
  ◌≡◌, refl, ap, ℕ, zero, suc, ◌*◌, ◌/◌, ◌<◌, Bool, true, false, List, ◌==◌, arith, lt→ltb,
}
use log_librarian.Retention.Tables.{StoredRow, Database}
use log_librarian.Retention.Oldest.{
  Faults, Stats, file_size_bytes, delete_batch, delete_oldest, shrink, cleanup_by_size,
}

-- The statement on `metrics` raises.
abbrev pub metrics_fault : Faults
metrics_fault = record { raw_logs = false; metrics = true; commit = false }

module _ (order_by : List StoredRow → List StoredRow) (fits : ℕ → Bool)
    (storage : Database → Stats) where
  delete_oldest-metrics_fault :
      (batch : ℕ) (db : Database)
      → (delete_batch order_by "raw_logs" batch db).1 < batch / 2
      → delete_oldest order_by metrics_fault batch db
        ≡ (db, (delete_batch order_by "raw_logs" batch db).1)
  unfolding delete_oldest
  delete_oldest-metrics_fault batch db h =
      rw (lt→ltb (delete_batch order_by "raw_logs" batch db).1 (batch / 2) h) refl

  shrink-metrics_fault :
      (turns batch size : ℕ) (db : Database)
      → (delete_batch order_by "raw_logs" batch db).1 < batch / 2
      → 0 < (delete_batch order_by "raw_logs" batch db).1
      → storage db ≡ file_size_bytes size
      → fits size ≡ false
      → shrink order_by fits storage turns (λ i. metrics_fault) batch db
        ≡ (db, turns * (delete_batch order_by "raw_logs" batch db).1)
  unfolding shrink
  shrink-metrics_fault zero batch size db h p s f = ap (λ k. (db, k)) (omega arith)
  shrink-metrics_fault (suc turns) batch size db h p s f =
      let n = (delete_batch order_by "raw_logs" batch db).1 in
      let one = delete_oldest-metrics_fault batch db h in
      let rest = shrink-metrics_fault turns batch size db h p s f in
      let some_rows : (n == 0) ≡ false = ground arith in
      rw (s, shrink, f, one, some_rows, rest) (ap (λ k. (db, k)) (omega arith))

  -- Where the file is too large, `raw_logs` yields rows but fewer than half a batch, and the
  -- statement on `metrics` raises on every turn, `cleanup_by_size` leaves the database as it was,
  -- and reports a hundred times the rows of `raw_logs` that each turn rolled back.
  pub rolled_back_counted :
      (batch size : ℕ) (db : Database)
      → (delete_batch order_by "raw_logs" batch db).1 < batch / 2
      → 0 < (delete_batch order_by "raw_logs" batch db).1
      → storage db ≡ file_size_bytes size
      → fits size ≡ false
      → cleanup_by_size order_by fits storage (λ i. metrics_fault) batch db
        ≡ (db, 100 * (delete_batch order_by "raw_logs" batch db).1)
  unfolding cleanup_by_size
  rolled_back_counted batch size db h p s f = shrink-metrics_fault 100 batch size db h p s f
