-- ===== src/Metrics/Duplicates.antt =====
-- What a retry after a failed flush does to the rows that were written before the failure.
use log_librarian.Prelude.{◌∙◌, ℕ, ◌≡◌, refl, sym, ap, String, true, false, List, [], ◌∷◌, ◌++◌}
use mathlib.Core.Path.{subst}
use log_librarian.Prelude.Dict.{Dict, lookup, get_or, IsUnique, IsUnique-insert}
use log_librarian.Metrics.Buffer.{
  MetricsBuffer, Inserted, take_snapshot, restore, finish, write_all, flush_entries, extend,
  extend_all,
}
use log_librarian.Metrics.Contents.{get_or-extend_all}
use log_librarian.Metrics.Storage.{IsStored, IsWritten, write_all-IsWritten}

module _ {M : Type 0} where
  IsUnique-extend_all : (snapshot d : Dict (List M)) → IsUnique d → IsUnique (extend_all snapshot d)
  unfolding extend_all extend
  IsUnique-extend_all [] d u = u
  IsUnique-extend_all ((k, ms) ∷ snapshot) d u =
      IsUnique-extend_all snapshot (extend k ms d) (IsUnique-insert k (get_or k d [] ++ ms) d u)

module _ {M L S : Type 0} (no_load : L) (db_insert : String → List M → L → S → Inserted × S)
    (stored : String → S → List M) (laws : IsStored db_insert stored) where
  -- A write of all entries that ended well has added every agent's rows.
  written :
      (j : String) (d : Dict (List M)) (loads : Dict L) (s : S)
      → IsUnique d
      → (write_all no_load db_insert d loads s).0 ≡ true
      → stored j (write_all no_load db_insert d loads s).1 ≡ stored j s ++ get_or j d []
  written j d loads s u ok =
      subst
        (λ flag.
          IsWritten (stored j s) (get_or j d []) flag
            (stored j (write_all no_load db_insert d loads s).1))
        ok (write_all-IsWritten no_load db_insert stored laws j d loads s u)

  -- What a failed flush leaves in the buffer.
  kept_buffer :
      (now latency : ℕ) (b : MetricsBuffer M L) (s : S)
      → (write_all no_load db_insert b.buffer b.load_avg_cache s).0 ≡ false
      → (flush_entries no_load db_insert now latency b s).0.buffer ≡ extend_all b.buffer []
  unfolding flush_entries finish take_snapshot restore
  kept_buffer now latency b s failed = rw failed refl

  -- A flush fails, with some insert raised, but the rows of an agent were written before that; the
  -- next flush fails at nothing. Then the database has the agent's rows twice.
  pub retry_duplicates :
      (j : String) (now latency : ℕ) (b b' : MetricsBuffer M L) (s s' : S)
      → IsUnique b.buffer
      → (write_all no_load db_insert b.buffer b.load_avg_cache s).0 ≡ false
      → flush_entries no_load db_insert now latency b s ≡ (b', s')
      → stored j s' ≡ stored j s ++ get_or j b.buffer []
      → (write_all no_load db_insert b'.buffer b'.load_avg_cache s').0 ≡ true
      → (later latency' : ℕ)
      → stored j (flush_entries no_load db_insert later latency' b' s').1
        ≡ (stored j s ++ get_or j b.buffer []) ++ get_or j b.buffer []
  unfolding flush_entries
  retry_duplicates j now latency b b' s s' u failed first before ok later latency' =
      let same : b'.buffer ≡ extend_all b.buffer [] =
        sym (ap (λ r. r.0.buffer) first) ∙ kept_buffer now latency b s failed in
      let unique : IsUnique b'.buffer =
        subst (λ d. IsUnique d) (sym same) (IsUnique-extend_all b.buffer [] tt) in
      let rows_kept : get_or j b'.buffer [] ≡ get_or j b.buffer [] =
        ap (λ d. get_or j d []) same
        ∙ get_or-extend_all j b.buffer [] u
        ∙ (unfold get_or lookup in refl) in
      written j b'.buffer b'.load_avg_cache s' unique ok
      ∙ ap (λ r. stored j s' ++ r) rows_kept
      ∙ ap (λ r. r ++ get_or j b.buffer []) before
