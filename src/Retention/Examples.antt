-- ===== src/Retention/Examples.antt =====
-- The theorems on the retention manager at concrete inputs.
use log_librarian.Prelude.{
  length, ◌≡◌, refl, ℕ, ◌+◌, ◌*◌, ◌⊎◌, String, Bool, true, List, [], ◌∷◌, leb, arith, if◌then◌else◌,
  str_eq,
}
use log_librarian.Prelude.Dict.{insert}
use log_librarian.Retention.Tables.{StoredRow, Database, rows_of, count, is_selected, limit}
use log_librarian.Retention.Settings.{default_retention_policies}
use log_librarian.Retention.Expired.{
  no_fault, statement_raises, commit_raises, Fault, cleaned_tables, cleanup_sqlite, clean_tables,
  is_old,
}
use log_librarian.Retention.Oldest.{file_size_bytes, delete_batch, cleanup_by_size}
use log_librarian.Retention.Manager.{total_rows}
use log_librarian.Retention.Keeping.{keeps_live}
use log_librarian.Retention.Pending.{kept_rows, stored}
use log_librarian.Retention.Shrinking.{held, no_faults, hundred_turns_end}
use log_librarian.Retention.Rollback.{metrics_fault, rolled_back_counted}

abbrev row : ℕ → ℕ → StoredRow
row id timestamp = record { id = id; timestamp = timestamp }

abbrev db : Database
db =
    ("raw_logs", row 1 900000 ∷ row 2 100 ∷ row 3 950000 ∷ [])
    ∷ ("metrics", row 1 200 ∷ row 2 990000 ∷ [])
    ∷ ("ai_messages", row 1 5 ∷ [])
    ∷ []

-- The table of the process snapshots is missing, and the database is locked as the deletion of the
-- raw logs is to be committed; the log occurrences commit it.
abbrev fault : String → Fault
fault table =
    if str_eq table "process_snapshots"
    then statement_raises "no such table: process_snapshots"
    else if str_eq table "raw_logs"
    then commit_raises "database is locked"
    else no_fault

keeps_live_example :
    let (db', results) =
      cleanup_sqlite (λ t. 1000000) (λ t. 3) fault default_retention_policies db in
    let tables = cleaned_tables default_retention_policies in
    ((t : String) → rows_of t db' ≡ kept_rows fault tables t 1000000 (rows_of t db))
    × (total_rows results + stored fault tables db' ≡ stored fault tables db)
keeps_live_example = keeps_live (λ t. 1000000) (λ t. 3) fault default_retention_policies db

-- Both old rows are gone, and one is counted.
locked_commit :
    let (db', results) =
      cleanup_sqlite (λ t. 1000000) (λ t. 3) fault default_retention_policies db in
    (length (rows_of "raw_logs" db') ≡ 2) × (total_rows results ≡ 1)
unfolding cleanup_sqlite total_rows rows_of cleaned_tables clean_tables is_old insert
locked_commit = (refl, refl)

-- A sort by insertion, in the place of `ORDER BY timestamp ASC`.
unfoldable place : StoredRow → List StoredRow → List StoredRow
place r [] = r ∷ []
place r (s ∷ rows) =
    let rest = place r rows in if leb r.timestamp s.timestamp then r ∷ s ∷ rows else s ∷ rest

unfoldable sorted : List StoredRow → List StoredRow
unfolding place
sorted [] = []
sorted (r ∷ rows) = place r (sorted rows)

count-place :
    (test : StoredRow → Bool) (r : StoredRow) (rows : List StoredRow)
    → count test (place r rows) ≡ count test (r ∷ rows)
unfolding count place
count-place test r [] = refl
count-place test r (s ∷ rows) = ground (arith, count-place test r rows)

count-sorted :
    (test : StoredRow → Bool) (rows : List StoredRow) → count test (sorted rows) ≡ count test rows
unfolding count sorted
count-sorted test [] = refl
count-sorted test (r ∷ rows) =
    ground (arith, count-place test r (sorted rows), count-sorted test rows)

-- A file of 4096 bytes and a kilobyte for each row.
abbrev size_of : Database → ℕ
size_of d = 4096 + 1024 * held d

held-db : held db ≡ 5
unfolding held rows_of
held-db = refl

hundred_turns_end_example :
    let (after, deleted) =
      cleanup_by_size sorted
        (λ n. leb n 6500)
        (λ d. file_size_bytes (size_of d))
        (λ i. no_faults)
        2
        db in
    ((leb (size_of after) 6500 ≡ true) ⊎ (held after ≡ 0)) × (deleted + held after ≡ held db)
hundred_turns_end_example =
    hundred_turns_end sorted count-sorted (λ n. leb n 6500) size_of 2 db (omega arith)
      (omega (arith, held-db))

rolled_back_counted_example :
    cleanup_by_size sorted (λ n. leb n 6500) (λ d. file_size_bytes 9000) (λ i. metrics_fault) 8 db
    ≡ (db, 100 * (delete_batch sorted "raw_logs" 8 db).1)
unfolding delete_batch count is_selected rows_of limit sorted
rolled_back_counted_example =
    rolled_back_counted sorted (λ n. leb n 6500) (λ d. file_size_bytes 9000) 8 9000 db (omega arith)
      (omega arith) refl refl
