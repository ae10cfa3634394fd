-- ===== src/Retention/Keeping.antt =====
-- The rows that the removal of expired rows keeps, and the totals of its results.
use log_librarian.Prelude.{
  ◌∙◌, ◌≡◌, refl, sym, ap, ℕ, ◌+◌, String, false, none, List, [], ◌∷◌, ◌≢◌, if◌then◌else◌, str_eq,
  eq_iff, arith, Bool-cases, inl, inr,
}
use mathlib.Core.Path.{subst}
use log_librarian.Prelude.Dict.{Dict, IsUnique, lookup}
use log_librarian.Retention.Tables.{StoredRow, Database, rows_of}
use log_librarian.Retention.Expired.{
  Fault, Session, cleaned_tables, clean_table, clean_tables, cleanup_sqlite,
}
use log_librarian.Retention.Manager.{total_rows}
use log_librarian.Retention.Pending.{
  clean_table-settled, clean_table-count, live, is_cleaned, counted_rows, commits, kept_rows,
  stored, HasRows, AreSettled, pending_after, kept_after, own_pending, own_kept, settles,
  own_settles, clean_table-other, clean_table-own,
}

str_eq_other : (s t : String) → s ≢ t → str_eq s t ≡ false
str_eq_other s t h = ground (arith, eq_iff s t)

cleaned_tables-IsUnique : (policies : Dict ℕ) → IsUnique (cleaned_tables policies)
unfolding cleaned_tables lookup
cleaned_tables-IsUnique policies = (refl, (refl, (refl, (refl, (refl, (refl, tt))))))

cleaned_tables-AreSettled :
    (policies : Dict ℕ) (db : Database)
    → AreSettled (cleaned_tables policies) (record { working = db; committed = db })
unfolding cleaned_tables
cleaned_tables-AreSettled policies db = (refl, (refl, (refl, (refl, (refl, (refl, tt))))))

module _ (clock elapsed : String → ℕ) (fault : String → Fault) where
  -- Of a table that is not in the list: an open deletion, and whether it is committed.
  clean_tables-other :
      (t : String) (tables : Dict ℕ) (p q : List StoredRow) (s : Session)
      → lookup t tables ≡ none
      → HasRows t p q s
      → rows_of t (clean_tables clock elapsed fault tables s).0.committed
        ≡ (if commits fault tables then p else q)
  unfolding clean_tables lookup commits
  clean_tables-other t [] p q s h (w, c) = c
  clean_tables-other t ((table, retention) ∷ rest) p q s h has =
      let f = fault table in
      clean_tables-other t rest (pending_after f p q) (kept_after f p q)
        (clean_table clock elapsed fault table retention f s).0 (ground arith)
        (clean_table-other clock elapsed fault t table retention f p q s (ground arith) has)
      ∙ settles f (commits fault rest) p q

  clean_tables-rows :
      (t : String) (tables : Dict ℕ) (rows : List StoredRow) (s : Session)
      → IsUnique tables
      → HasRows t rows rows s
      → rows_of t (clean_tables clock elapsed fault tables s).0.committed
        ≡ kept_rows fault tables t (clock t) rows
  unfolding clean_tables lookup kept_rows
  clean_tables-rows t [] rows s u (w, c) = c
  clean_tables-rows t ((table, retention) ∷ rest) rows s u has =
      let f = fault table in
      let s' = (clean_table clock elapsed fault table retention f s).0 in
      elim (Bool-cases (str_eq table t)) [
        | inl same ↦
            let e : table ≡ t = (eq_iff table t).0 same in
            let here = live (clock table) retention rows in
            let at : HasRows table rows rows s = subst (λ n. HasRows n rows rows s) (sym e) has in
            rw same (
              subst
                (λ n. rows_of n (clean_tables clock elapsed fault rest s').0.committed ≡ (
                  if is_cleaned (fault n) (commits fault rest)
                  then live (clock n) retention rows
                  else rows))
                e
                (clean_tables-other table rest (own_pending f here rows) (own_kept f here rows) s'
                    u.0 (clean_table-own clock elapsed fault table retention f rows s at)
                  ∙ own_settles f (commits fault rest) here rows))
        | inr other ↦ rw other (
            clean_tables-rows t rest rows s' u.1
              (clean_table-settled clock elapsed fault t table retention f rows s other has))
      ]

  clean_table-AreSettled :
      (table : String) (retention : ℕ) (f : Fault) (rest : Dict ℕ) (s : Session)
      → lookup table rest ≡ none
      → AreSettled rest s
      → let s' = (clean_table clock elapsed fault table retention f s).0 in
        AreSettled rest s' × (stored fault rest s'.committed ≡ stored fault rest s.committed)
  unfolding lookup stored
  clean_table-AreSettled table retention f [] s h settled = (tt, refl)
  clean_table-AreSettled table retention f ((t, period) ∷ rest) s h (e, settled) =
      let (w, c) =
        clean_table-settled clock elapsed fault t table retention f (rows_of t s.committed) s
          (str_eq_other table t (ground (arith, eq_iff t table, eq_iff table t))) (e, refl) in
      let (a, n) = clean_table-AreSettled table retention f rest s (ground arith) settled in
      ((w ∙ sym c, a), rw (c, n) refl)

  clean_tables-count :
      (tables : Dict ℕ) (s : Session)
      → IsUnique tables
      → AreSettled tables s
      → let (s', results) = clean_tables clock elapsed fault tables s in
        total_rows results + stored fault tables s'.committed ≡ stored fault tables s.committed
  unfolding clean_tables stored total_rows
  clean_tables-count [] s u settled = refl
  clean_tables-count ((table, retention) ∷ rest) s u (e, settled) =
      let f = fault table in
      let s' = (clean_table clock elapsed fault table retention f s).0 in
      let (a, n) = clean_table-AreSettled table retention f rest s u.0 settled in
      let left =
        clean_tables-other table rest (rows_of table s'.working) (rows_of table s'.committed) s' u.0
          (refl, refl) in
      omega (
        arith,
        ap (counted_rows f) left,
        clean_table-count clock elapsed fault table retention f s (commits fault rest) e,
        n,
        clean_tables-count rest s' u.1 a,
      )

  -- A run of the removal leaves of every table with a retention period exactly the rows that the
  -- period still holds, in their order, if the table has no fault, or if its own commit raises and
  -- leaves the deletion open, and a later table of the run commits before any rolls back; it
  -- leaves all rows of the other tables. The total of the results is the number of rows that the
  -- tables without a fault lost: a deletion that a later table commits is not counted.
  pub keeps_live :
      (policies : Dict ℕ) (db : Database)
      → let (db', results) = cleanup_sqlite clock elapsed fault policies db in
        let tables = cleaned_tables policies in
        ((t : String) → rows_of t db' ≡ kept_rows fault tables t (clock t) (rows_of t db))
        × (total_rows results + stored fault tables db' ≡ stored fault tables db)
  unfolding cleanup_sqlite
  keeps_live policies db =
      let u = cleaned_tables-IsUnique policies in
      let s : Session = record { working = db; committed = db } in
      (
        λ t. clean_tables-rows t (cleaned_tables policies) (rows_of t db) s u (refl, refl),
        clean_tables-count (cleaned_tables policies) s u (cleaned_tables-AreSettled policies db),
      )
