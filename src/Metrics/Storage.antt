-- ===== src/Metrics/Storage.antt =====
-- Where the rows of an agent are after a flush.
use log_librarian.Prelude.{
  ◌∙◌, ℕ, ◌≡◌, refl, sym, ap, String, Bool, true, false, Option, none, List, [], ◌∷◌, ◌++◌,
  if◌then◌else◌, str_eq, eq_iff, Bool-cases, inl, inr, ◌⊎◌,
}
use mathlib.Core.Path.{subst}
use mathlib.Core.List.{append-nil}
use log_librarian.Prelude.Dict.{Dict, lookup, get_or, IsUnique}
use log_librarian.Metrics.Buffer.{
  MetricsBuffer, Inserted, returned, raised, take_snapshot, restore, finish, write_all,
  flush_entries, flush,
}
use log_librarian.Metrics.Contents.{get_or_cons, get_or_absent, get_or-extend_all}
use log_librarian.Metrics.Rows.{Inserted-cases, flush_cases}

-- The rows of each agent that a database holds: an insert that returns adds its rows at the end of
-- the agent's, and one that raises changes nothing.
pub record IsStored {M L S : Type 0} (db_insert : String → List M → L → S → Inserted × S)
    (stored : String → S → List M) : Type 0 where
  pub adds :
      (k j : String) (ms : List M) (load : L) (s : S) (result : Option ℕ)
      → (db_insert k ms load s).0 ≡ returned result
      → stored j (db_insert k ms load s).1 ≡ (if str_eq k j then stored j s ++ ms else stored j s)
  pub keeps :
      (k j : String) (ms : List M) (load : L) (s : S)
      → (db_insert k ms load s).0 ≡ raised
      → stored j (db_insert k ms load s).1 ≡ stored j s

module _ {M : Type 0} where
  -- The entry of a key at the head, and what the tail has for the key.
  head_same :
      (k j : String) (v : List M) (d : Dict (List M))
      → IsUnique ((k, v) ∷ d)
      → str_eq k j ≡ true
      → (get_or j ((k, v) ∷ d) [] ≡ v) × (get_or j d [] ≡ [])
  head_same k j v d u same = (
    get_or_cons k j v d ∙ rw same refl,
    get_or_absent j d (subst (λ i. lookup i d ≡ none) ((eq_iff k j).0 same) u.0),
  )

  head_other :
      (k j : String) (v : List M) (d : Dict (List M))
      → str_eq k j ≡ false
      → get_or j ((k, v) ∷ d) [] ≡ get_or j d []
  head_other k j v d other = get_or_cons k j v d ∙ rw other refl

  head_empty :
      (k j : String) (d : Dict (List M))
      → IsUnique ((k, []) ∷ d)
      → get_or j ((k, []) ∷ d) [] ≡ get_or j d []
  head_empty k j d u = elim (Bool-cases (str_eq k j)) [
    | inl same ↦ let h = head_same k j [] d u same in h.0 ∙ sym h.1
    | inr other ↦ head_other k j [] d other
  ]

  -- The rows `y` of an agent are the rows `x`, or those with all that the buffer has for it.
  abbrev pub IsPart : List M → List M → List M → Type 0
  IsPart x rows y = (y ≡ x) ⊎ (y ≡ x ++ rows)

  -- What a write that ended with the flag leaves of the rows of an agent.
  abbrev pub IsWritten : List M → List M → Bool → List M → Type 0
  IsWritten x rows true y = y ≡ x ++ rows
  IsWritten x rows false y = IsPart x rows y

  -- An agent's rows `x` in the database and `rows` in the buffer, and where they are later: all
  -- written and out of the buffer, or still in the buffer.
  abbrev pub IsAccounted : List M → List M → List M → List M → Type 0
  IsAccounted x rows stored_later buffered_later =
      ((stored_later ≡ x ++ rows) × (buffered_later ≡ []))
      ⊎ ((buffered_later ≡ rows) × IsPart x rows stored_later)

  collapse : (x v y : List M) (ok : Bool) → IsWritten (x ++ v) [] ok y → IsWritten x v ok y
  collapse x v y true w = w ∙ append-nil (x ++ v)
  collapse x v y false (inl w) = inr w
  collapse x v y false (inr w) = inr (w ∙ append-nil (x ++ v))

  after_insert :
      (k j : String) (v x x' y : List M) (d : Dict (List M)) (ok : Bool)
      → IsUnique ((k, v) ∷ d)
      → x' ≡ (if str_eq k j then x ++ v else x)
      → IsWritten x' (get_or j d []) ok y
      → IsWritten x (get_or j ((k, v) ∷ d) []) ok y
  after_insert k j v x x' y d ok u e w = elim (Bool-cases (str_eq k j)) [
    | inl same ↦
        let h = head_same k j v d u same in
        rw h.0 (
          collapse x v y ok (
            subst (λ z. IsWritten z [] ok y) (e ∙ rw same refl)
              (subst (λ r. IsWritten x' r ok y) h.1 w)))
    | inr other ↦
        rw (head_other k j v d other)
          (subst (λ z. IsWritten z (get_or j d []) ok y) (e ∙ rw other refl) w)
  ]

module _ {M L S : Type 0} (no_load : L) (db_insert : String → List M → L → S → Inserted × S)
    (stored : String → S → List M) (laws : IsStored db_insert stored) where
  pub write_all-IsWritten :
      (j : String) (d : Dict (List M)) (loads : Dict L) (s : S)
      → IsUnique d
      → IsWritten
          (stored j s)
          (get_or j d [])
          (write_all no_load db_insert d loads s).0
          (stored j (write_all no_load db_insert d loads s).1)
  unfolding write_all
  write_all-IsWritten j [] loads s u = unfold get_or lookup in sym (append-nil (stored j s))
  write_all-IsWritten j ((k, []) ∷ d) loads s u =
      rw (head_empty k j d u) (write_all-IsWritten j d loads s u.1)
  write_all-IsWritten j ((k, m ∷ ms) ∷ d) loads s u =
      let load = get_or k loads no_load in
      let s' = (db_insert k (m ∷ ms) load s).1 in
      elim (Inserted-cases (db_insert k (m ∷ ms) load s).0) [
        | inl (result, e) ↦
            rw (e, write_all)
              (after_insert k j (m ∷ ms) (stored j s) (stored j s') _ d _ u
                (laws.adds k j (m ∷ ms) load s result e) (write_all-IsWritten j d loads s' u.1))
        | inr e ↦ rw (e, write_all) (inl (laws.keeps k j (m ∷ ms) load s e))
      ]

  finish-IsAccounted :
      (j : String) (now latency : ℕ) (b : MetricsBuffer M L) (ok : Bool) (x y : List M)
      → IsUnique b.buffer
      → IsWritten x (get_or j b.buffer []) ok y
      → IsAccounted x (get_or j b.buffer []) y (
          get_or j
            (finish no_load db_insert now latency b.buffer b.load_avg_cache ok
              (take_snapshot b)).buffer
            [])
  unfolding finish take_snapshot restore
  finish-IsAccounted j now latency b true x y u w = inl (w, (unfold get_or lookup in refl))
  finish-IsAccounted j now latency b false x y u w =
      inr (get_or-extend_all j b.buffer [] u ∙ (unfold get_or lookup in refl), w)

  flush_entries-IsAccounted :
      (j : String) (now latency : ℕ) (b : MetricsBuffer M L) (s : S)
      → IsUnique b.buffer
      → IsAccounted
          (stored j s)
          (get_or j b.buffer [])
          (stored j (flush_entries no_load db_insert now latency b s).1)
          (get_or j (flush_entries no_load db_insert now latency b s).0.buffer [])
  unfolding flush_entries
  flush_entries-IsAccounted j now latency b s u =
      finish-IsAccounted j now latency b (write_all no_load db_insert b.buffer b.load_avg_cache s).0
        (stored j s) _ u (write_all-IsWritten j b.buffer b.load_avg_cache s u)

  clear-IsAccounted :
      (j : String) (b : MetricsBuffer M L) (x : List M)
      → b.buffer ≡ []
      → IsAccounted x (get_or j b.buffer []) x (get_or j (take_snapshot b).buffer [])
  unfolding take_snapshot
  clear-IsAccounted j b x e =
      let none_left : get_or j b.buffer [] ≡ [] =
        ap (λ d. get_or j d []) e ∙ (unfold get_or lookup in refl) in
      inl (rw none_left (sym (append-nil x)), (unfold get_or lookup in refl))

  -- Where an insert that returns adds its rows to its agent's, and one that raises changes nothing,
  -- no flush loses a row of any agent, forced or not, and whichever insert raises. Either the
  -- agent's rows in the buffer are all in the database, behind those that were there, and out of
  -- the buffer; or the buffer still has them, and the database has what it had, or that and these
  -- rows as well.
  pub flush_loses_nothing :
      (j : String) (force : Bool) (now latency : ℕ) (b : MetricsBuffer M L) (s : S)
      → IsUnique b.buffer
      → IsAccounted
          (stored j s)
          (get_or j b.buffer [])
          (stored j (flush no_load db_insert force now latency b s).1)
          (get_or j (flush no_load db_insert force now latency b s).0.buffer [])
  flush_loses_nothing j force now latency b s u =
      elim (flush_cases no_load db_insert force now latency b s) [
        | inl e ↦ rw e (inr (refl, inl refl))
        | inr (inl (e, empty)) ↦ rw e (clear-IsAccounted j b (stored j s) empty)
        | inr (inr e) ↦ rw e (flush_entries-IsAccounted j now latency b s u)
      ]
