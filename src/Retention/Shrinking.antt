-- ===== src/Retention/Shrinking.antt =====
-- How `cleanup_by_size` ends, for what a database holds.
use log_librarian.Prelude.Dict.{str_eq_refl}
use log_librarian.Prelude.{
  ltb→lt, ◌∙◌, ◌≡◌, refl, sym, ap, ℕ, zero, suc, ◌+◌, ◌*◌, ◌/◌, ◌≤◌, min, String, Bool, true, false,
  List, [], ◌∷◌, ◌⊎◌, inl, inr, length, ltb, ◌==◌, arith, Bool-cases, str_eq,
}
use log_librarian.Retention.Tables.{
  StoredRow, Database, rows_of, count, limit, is_selected, delete_from,
}
use log_librarian.Retention.Oldest.{
  Faults, file_size_bytes, delete_batch, commit_to, delete_oldest, shrink, cleanup_by_size,
}
use log_librarian.Retention.Pending.{count-delete_where, rows_of-delete_from}

-- The rows of the two tables that the oldest rows are taken from.
unfoldable pub held : Database → ℕ
held db = length (rows_of "raw_logs" db) + length (rows_of "metrics" db)

module _ {R : Type 0} where
  count-limit-le :
      (test : R → Bool) (n : ℕ) (rows : List R) → count test (limit n rows) ≤ count test rows
  unfolding count limit
  count-limit-le test zero rows = omega arith
  count-limit-le test (suc n) [] = omega arith
  count-limit-le test (suc n) (r ∷ rows) = ground (arith, count-limit-le test n rows)

  length-limit : (n : ℕ) (rows : List R) → length (limit n rows) ≡ min n (length rows)
  unfolding limit
  length-limit zero rows = omega arith
  length-limit (suc n) [] = omega arith
  length-limit (suc n) (r ∷ rows) = omega (arith, length-limit n rows)

  count_all : (rows : List R) → count (λ r. true) rows ≡ length rows
  unfolding count
  count_all [] = refl
  count_all (r ∷ rows) = omega (arith, count_all rows)

  count-le :
      (p q : R → Bool) (rows : List R)
      → ((r : R) → p r ≡ true → q r ≡ true)
      → count p rows ≤ count q rows
  unfolding count
  count-le p q [] h = omega arith
  count-le p q (r ∷ rows) h = elim (Bool-cases (p r)) [
    | inl yes_p ↦ rw (yes_p, h r yes_p) (omega (arith, count-le p q rows h))
    | inr no_p ↦ rw no_p (ground (arith, count-le p q rows h))
  ]

count_selected : (rows : List StoredRow) → count (is_selected rows) rows ≡ length rows
unfolding count is_selected
count_selected [] = refl
count_selected (r ∷ rows) = ground (
  arith,
  count_selected rows,
  count-le (is_selected rows) (is_selected (r ∷ rows)) rows (λ s h. ground arith),
  count-le (is_selected (r ∷ rows)) (λ s. true) rows (λ s h. refl),
  count_all rows,
)

-- No statement raises.
abbrev pub no_faults : Faults
no_faults = record { raw_logs = false; metrics = false; commit = false }

-- `order_by` puts the rows in another order: it keeps the number of those that pass any test.
module _ (order_by : List StoredRow → List StoredRow)
    (order_by-count : (test : StoredRow → Bool) (rows : List StoredRow)
      → count test (order_by rows) ≡ count test rows) where
  length-order_by : (rows : List StoredRow) → length (order_by rows) ≡ length rows
  length-order_by rows =
      sym (count_all (order_by rows)) ∙ order_by-count (λ r. true) rows ∙ count_all rows

  count-batch :
      (batch : ℕ) (rows : List StoredRow)
      → min batch (length rows) ≤ count (is_selected (limit batch (order_by rows))) rows
  count-batch batch rows =
      let test = is_selected (limit batch (order_by rows)) in
      omega (
        arith,
        order_by-count test rows,
        count-limit-le test batch (order_by rows),
        count_selected (limit batch (order_by rows)),
        length-limit batch (order_by rows),
        length-order_by rows,
      )

  -- A batch takes as many rows as it may, and counts those that it takes.
  delete_batch-count :
      (table : String) (batch : ℕ) (db : Database)
      → (min batch (length (rows_of table db)) ≤ (delete_batch order_by table batch db).1)
        × ((delete_batch order_by table batch db).1
              + length (rows_of table (delete_batch order_by table batch db).0)
            ≡ length (rows_of table db))
  unfolding delete_batch delete_from
  delete_batch-count table batch db =
      let test = is_selected (limit batch (order_by (rows_of table db))) in
      (
        count-batch batch (rows_of table db),
        (rw (rows_of-delete_from table table test db, str_eq_refl table)
            (count-delete_where test (rows_of table db))),
      )

  delete_batch-other :
      (t table : String) (batch : ℕ) (db : Database)
      → str_eq table t ≡ false
      → rows_of t (delete_batch order_by table batch db).0 ≡ rows_of t db
  unfolding delete_batch
  delete_batch-other t table batch db h =
      rows_of-delete_from t table (is_selected (limit batch (order_by (rows_of table db)))) db
      ∙ rw h refl

  delete_oldest-count :
      (batch : ℕ) (db : Database)
      → (min (batch / 2) (held db) ≤ (delete_oldest order_by no_faults batch db).1)
        × ((delete_oldest order_by no_faults batch db).1
              + held (delete_oldest order_by no_faults batch db).0
            ≡ held db)
  unfolding delete_oldest commit_to held
  delete_oldest-count batch db =
      let db' = (delete_batch order_by "raw_logs" batch db).0 in
      let raw = delete_batch-count "raw_logs" batch db in
      let rest = delete_batch-count "metrics" batch db' in
      let metrics = ap length (delete_batch-other "metrics" "raw_logs" batch db refl) in
      let raw_after = ap length (delete_batch-other "raw_logs" "metrics" batch db' refl) in
      elim (Bool-cases (ltb (delete_batch order_by "raw_logs" batch db).1 (batch / 2))) [
        | inl short ↦ rw short (
            let few = ltb→lt (delete_batch order_by "raw_logs" batch db).1 (batch / 2) short in
            (
              omega (arith, few, raw.0, raw.1, rest.0, rest.1, metrics),
              omega (arith, raw.1, rest.1, metrics, raw_after),
            ))
        | inr long ↦ rw long (ground (arith, raw.0, raw.1), omega (arith, raw.1, metrics))
      ]

  module _ (fits : ℕ → Bool) (size_of : Database → ℕ) where
    shrink-ends :
        (turns batch : ℕ) (db : Database)
        → 2 ≤ batch
        → held db ≤ turns * (batch / 2)
        → ((fits (
                size_of
                  (shrink order_by fits
                    (λ d. file_size_bytes (size_of d))
                    turns
                    (λ i. no_faults)
                    batch
                    db).0)
              ≡ true)
            ⊎ (held
                  (shrink order_by fits
                    (λ d. file_size_bytes (size_of d))
                    turns
                    (λ i. no_faults)
                    batch
                    db).0
                ≡ 0))
          × ((shrink order_by fits
                  (λ d. file_size_bytes (size_of d))
                  turns
                  (λ i. no_faults)
                  batch
                  db).1
                + held
                    (shrink order_by fits
                      (λ d. file_size_bytes (size_of d))
                      turns
                      (λ i. no_faults)
                      batch
                      db).0
              ≡ held db)
    unfolding shrink
    shrink-ends zero batch db b h = (inr (omega arith), omega arith)
    shrink-ends (suc turns) batch db b h =
        let db' = (delete_oldest order_by no_faults batch db).0 in
        let once = delete_oldest-count batch db in
        elim (Bool-cases (fits (size_of db))) [
          | inl fitting ↦ rw fitting (inl fitting, omega arith)
          | inr large ↦
              rw large (elim (Bool-cases ((delete_oldest order_by no_faults batch db).1 == 0)) [
                | inl nothing ↦ rw nothing (
                    let e : (delete_oldest order_by no_faults batch db).1 ≡ 0 =
                      ground (arith, nothing) in
                    (inr (omega (arith, e, once.0, once.1)), omega (arith, e, once.1)))
                | inr some_rows ↦ rw some_rows (
                    let e : 1 ≤ (delete_oldest order_by no_faults batch db).1 =
                      ground (arith, some_rows) in
                    let rest = shrink-ends turns batch db' b (omega (arith, once.0, once.1, e)) in
                    (rest.0, omega (arith, once.1, rest.1)))
              ])
        ]

    -- Where no statement raises, the file's size can be read, a batch is at least two rows and the
    -- two tables hold at most a hundred half batches, `cleanup_by_size` ends with a file that fits
    -- or with both tables empty, and its result is the number of rows that it deleted.
    pub hundred_turns_end :
        (batch : ℕ) (db : Database)
        → 2 ≤ batch
        → held db ≤ 100 * (batch / 2)
        → let (after, deleted) =
            cleanup_by_size order_by fits
              (λ d. file_size_bytes (size_of d))
              (λ i. no_faults)
              batch
              db in
          ((fits (size_of after) ≡ true) ⊎ (held after ≡ 0)) × (deleted + held after ≡ held db)
    unfolding cleanup_by_size
    hundred_turns_end batch db b h = shrink-ends 100 batch db b h
