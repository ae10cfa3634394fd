-- ===== src/Retention/Tables.antt =====
-- The SQLite tables that librarian/retention_manager.py deletes from, and its `DELETE` statements.
-- Times are whole seconds. Of a row there are its id and its time column, which is all that the
-- statements read.
use log_librarian.Prelude.{
  ℕ, zero, suc, String, Bool, false, not, ◌||◌, List, [], ◌∷◌, ◌==◌, keep_if, if◌then◌else◌,
}
use log_librarian.Prelude.Dict.{Dict, get_or, insert}

pub record StoredRow : Type 0 where
  pub id : ℕ
  pub timestamp : ℕ

abbrev pub Database : Type 0
Database = Dict (List StoredRow)

unfoldable pub rows_of : String → Database → List StoredRow
unfolding get_or
rows_of table db = get_or table db []

module _ {R : Type 0} where
  -- The number of the rows that pass a test: `cursor.rowcount` of their `DELETE`.
  unfoldable pub count : (R → Bool) → List R → ℕ
  count test [] = 0
  count test (r ∷ rows) = let rest = count test rows in if test r then suc rest else rest

  unfoldable pub delete_where : (R → Bool) → List R → List R
  delete_where test rows = keep_if (λ r. not (test r)) rows

  -- `LIMIT n`
  unfoldable pub limit : ℕ → List R → List R
  limit zero rows = []
  limit (suc n) [] = []
  limit (suc n) (r ∷ rows) = r ∷ limit n rows

-- `id IN (SELECT id FROM ...)`
unfoldable pub is_selected : List StoredRow → StoredRow → Bool
is_selected [] r = false
is_selected (s ∷ selected) r = (s.id == r.id) || is_selected selected r

-- `DELETE FROM table WHERE test`: the database and the number of deleted rows.
unfoldable pub delete_from : String → (StoredRow → Bool) → Database → Database × ℕ
unfolding delete_where count rows_of
delete_from table test db =
    (insert table (delete_where test (rows_of table db)) db, count test (rows_of table db))
