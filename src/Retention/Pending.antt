-- ===== src/Retention/Pending.antt =====
-- What a table's turn in the removal of expired rows leaves open, and what it commits.
use log_librarian.Prelude.{
  true, ◌∙◌, ◌≡◌, refl, ap, ℕ, ◌+◌, String, Bool, false, not, List, [], ◌∷◌, length, keep_if, leb,
  if◌then◌else◌, str_eq, arith,
}
use log_librarian.Prelude.Dict.{Dict, get_or-insert, str_eq_refl}
use log_librarian.Retention.Tables.{StoredRow, Database, rows_of, count, delete_where, delete_from}
use log_librarian.Retention.Expired.{
  Fault, no_fault, statement_raises, commit_raises, rolls_back, Session, is_old, clean_table,
}

module _ {R : Type 0} where
  pub count-delete_where :
      (test : R → Bool) (rows : List R)
      → count test rows + length (delete_where test rows) ≡ length rows
  unfolding count delete_where
  count-delete_where test [] = omega arith
  count-delete_where test (r ∷ rows) = ground (arith, count-delete_where test rows)

pub rows_of-delete_from :
    (t table : String) (test : StoredRow → Bool) (db : Database)
    → rows_of t (delete_from table test db).0
      ≡ (if str_eq table t then delete_where test (rows_of table db) else rows_of t db)
unfolding rows_of delete_from
rows_of-delete_from t table test db =
    get_or-insert table t (delete_where test (rows_of table db)) [] db

module _ {R : Type 0} where
  keep_if-same :
      (p q : R → Bool) (rows : List R) → ((r : R) → p r ≡ q r) → keep_if p rows ≡ keep_if q rows
  keep_if-same p q [] h = refl
  keep_if-same p q (r ∷ rows) h = rw (h r, keep_if-same p q rows h) refl

delete_where-is_old :
    (now retention : ℕ) (rows : List StoredRow)
    → delete_where (is_old now retention) rows
      ≡ keep_if (λ r. leb now (r.timestamp + retention)) rows
unfolding delete_where is_old
delete_where-is_old now retention rows =
    keep_if-same (λ r. not (is_old now retention r)) (λ r. leb now (r.timestamp + retention)) rows
      (λ r. ground arith)

-- The rows that a retention period still holds at a time.
unfoldable pub live : ℕ → ℕ → List StoredRow → List StoredRow
live now retention rows = keep_if (λ r. leb now (r.timestamp + retention)) rows

-- If a table's open deletion is committed, by what goes wrong with the table after it and by what
-- comes then.
unfoldable pub commits_then : Fault → Bool → Bool
commits_then no_fault later = true
commits_then (statement_raises message) later = later
commits_then (commit_raises message) later = later
commits_then (rolls_back message) later = false

-- If a table loses its expired rows, by its own fault and by what comes then.
unfoldable pub is_cleaned : Fault → Bool → Bool
is_cleaned no_fault later = true
is_cleaned (statement_raises message) later = false
is_cleaned (commit_raises message) later = later
is_cleaned (rolls_back message) later = false

unfoldable pub counted_rows : Fault → List StoredRow → ℕ
counted_rows no_fault rows = length rows
counted_rows (statement_raises message) rows = 0
counted_rows (commit_raises message) rows = 0
counted_rows (rolls_back message) rows = 0

module _ (fault : String → Fault) where
  unfoldable pub commits : Dict ℕ → Bool
  unfolding commits_then
  commits [] = false
  commits ((table, retention) ∷ rest) = commits_then (fault table) (commits rest)

  -- The rows that a run leaves in a table: without a retention period, all of them.
  unfoldable pub kept_rows : Dict ℕ → String → ℕ → List StoredRow → List StoredRow
  unfolding is_cleaned commits live
  kept_rows [] t now rows = rows
  kept_rows ((table, retention) ∷ rest) t now rows =
      let others = kept_rows rest t now rows in
      if str_eq table t
      then if is_cleaned (fault t) (commits rest) then live now retention rows else rows
      else others

  -- The number of the rows of the tables without a fault.
  unfoldable pub stored : Dict ℕ → Database → ℕ
  unfolding counted_rows
  stored [] db = 0
  stored ((table, retention) ∷ rest) db =
      counted_rows (fault table) (rows_of table db) + stored rest db

abbrev pub HasRows : String → List StoredRow → List StoredRow → Session → Type 0
HasRows t pending kept s = (rows_of t s.working ≡ pending) × (rows_of t s.committed ≡ kept)

abbrev pub AreSettled : Dict ℕ → Session → Type 0
AreSettled [] s = Unit
AreSettled ((table, retention) ∷ rest) s =
    (rows_of table s.working ≡ rows_of table s.committed) × AreSettled rest s

-- Of an open deletion: the working rows and the committed ones after a table's fault.
unfoldable pub pending_after : Fault → List StoredRow → List StoredRow → List StoredRow
pending_after no_fault p q = p
pending_after (statement_raises message) p q = p
pending_after (commit_raises message) p q = p
pending_after (rolls_back message) p q = q

unfoldable pub kept_after : Fault → List StoredRow → List StoredRow → List StoredRow
kept_after no_fault p q = p
kept_after (statement_raises message) p q = q
kept_after (commit_raises message) p q = q
kept_after (rolls_back message) p q = q

pub settles :
    (f : Fault) (b : Bool) (p q : List StoredRow)
    → (if b then pending_after f p q else kept_after f p q) ≡ (if commits_then f b then p else q)
unfolding pending_after kept_after commits_then
settles no_fault true p q = refl
settles no_fault false p q = refl
settles (statement_raises message) b p q = refl
settles (commit_raises message) b p q = refl
settles (rolls_back message) true p q = refl
settles (rolls_back message) false p q = refl

after-same :
    (f : Fault) (rows : List StoredRow)
    → (pending_after f rows rows ≡ rows) × (kept_after f rows rows ≡ rows)
unfolding pending_after kept_after
after-same no_fault rows = (refl, refl)
after-same (statement_raises message) rows = (refl, refl)
after-same (commit_raises message) rows = (refl, refl)
after-same (rolls_back message) rows = (refl, refl)

-- Of a table's own deletion, which `p` is without.
unfoldable pub own_pending : Fault → List StoredRow → List StoredRow → List StoredRow
own_pending no_fault p q = p
own_pending (statement_raises message) p q = q
own_pending (commit_raises message) p q = p
own_pending (rolls_back message) p q = q

unfoldable pub own_kept : Fault → List StoredRow → List StoredRow → List StoredRow
own_kept no_fault p q = p
own_kept (statement_raises message) p q = q
own_kept (commit_raises message) p q = q
own_kept (rolls_back message) p q = q

pub own_settles :
    (f : Fault) (b : Bool) (p q : List StoredRow)
    → (if b then own_pending f p q else own_kept f p q) ≡ (if is_cleaned f b then p else q)
unfolding own_pending own_kept is_cleaned
own_settles no_fault true p q = refl
own_settles no_fault false p q = refl
own_settles (statement_raises message) true p q = refl
own_settles (statement_raises message) false p q = refl
own_settles (commit_raises message) b p q = refl
own_settles (rolls_back message) true p q = refl
own_settles (rolls_back message) false p q = refl

if-same : (b : Bool) (rows : List StoredRow) → (if b then rows else rows) ≡ rows
if-same true rows = refl
if-same false rows = refl

module _ (clock elapsed : String → ℕ) (fault : String → Fault) where
  delete-other :
      (t table : String) (test : StoredRow → Bool) (db : Database)
      → str_eq table t ≡ false
      → rows_of t (delete_from table test db).0 ≡ rows_of t db
  delete-other t table test db h = rows_of-delete_from t table test db ∙ rw h refl

  pub delete-own :
      (t : String) (retention : ℕ) (db : Database)
      → rows_of t (delete_from t (is_old (clock t) retention) db).0
        ≡ live (clock t) retention (rows_of t db)
  unfolding live
  delete-own t retention db =
      rows_of-delete_from t t (is_old (clock t) retention) db
      ∙ rw (str_eq_refl t) (delete_where-is_old (clock t) retention (rows_of t db))

  pub clean_table-other :
      (t table : String) (retention : ℕ) (f : Fault) (p q : List StoredRow) (s : Session)
      → str_eq table t ≡ false
      → HasRows t p q s
      → HasRows t
          (pending_after f p q)
          (kept_after f p q)
          (clean_table clock elapsed fault table retention f s).0
  unfolding clean_table pending_after kept_after
  clean_table-other t table retention no_fault p q s h (w, c) =
      let e = delete-other t table (is_old (clock table) retention) s.working h ∙ w in (e, e)
  clean_table-other t table retention (statement_raises message) p q s h (w, c) = (w, c)
  clean_table-other t table retention (commit_raises message) p q s h (w, c) =
      (delete-other t table (is_old (clock table) retention) s.working h ∙ w, c)
  clean_table-other t table retention (rolls_back message) p q s h (w, c) = (c, c)

  pub clean_table-settled :
      (t table : String) (retention : ℕ) (f : Fault) (rows : List StoredRow) (s : Session)
      → str_eq table t ≡ false
      → HasRows t rows rows s
      → HasRows t rows rows (clean_table clock elapsed fault table retention f s).0
  clean_table-settled t table retention f rows s h has =
      let (w, c) = clean_table-other t table retention f rows rows s h has in
      let (p, k) = after-same f rows in (w ∙ p, c ∙ k)

  pub clean_table-own :
      (t : String) (retention : ℕ) (f : Fault) (rows : List StoredRow) (s : Session)
      → HasRows t rows rows s
      → HasRows t
          (own_pending f (live (clock t) retention rows) rows)
          (own_kept f (live (clock t) retention rows) rows)
          (clean_table clock elapsed fault t retention f s).0
  unfolding clean_table own_pending own_kept
  clean_table-own t retention no_fault rows s (w, c) =
      let e = delete-own t retention s.working ∙ ap (live (clock t) retention) w in (e, e)
  clean_table-own t retention (statement_raises message) rows s (w, c) = (w, c)
  clean_table-own t retention (commit_raises message) rows s (w, c) =
      (delete-own t retention s.working ∙ ap (live (clock t) retention) w, c)
  clean_table-own t retention (rolls_back message) rows s (w, c) = (c, c)

  -- A table without a fault counts the rows that it loses, whatever comes then.
  pub clean_table-count :
      (table : String) (retention : ℕ) (f : Fault) (s : Session) (b : Bool)
      → rows_of table s.working ≡ rows_of table s.committed
      → let (s', r) = clean_table clock elapsed fault table retention f s in
        r.rows_deleted
          + counted_rows f (if b then rows_of table s'.working else rows_of table s'.committed)
        ≡ counted_rows f (rows_of table s.committed)
  unfolding clean_table delete_from counted_rows
  clean_table-count table retention (statement_raises message) s b e = refl
  clean_table-count table retention (commit_raises message) s b e = refl
  clean_table-count table retention (rolls_back message) s b e = refl
  clean_table-count table retention no_fault s b e =
      let test = is_old (clock table) retention in
      ap (λ rows. count test (rows_of table s.working) + length rows) (if-same b _)
      ∙ rw (rows_of-delete_from table table test s.working, str_eq_refl table)
          (count-delete_where test (rows_of table s.working))
      ∙ ap length e
