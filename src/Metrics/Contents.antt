-- ===== src/Metrics/Contents.antt =====
-- What extending and restoring the buffer does to its contents.
use log_librarian.Prelude.{
  ◌∙◌, ◌+◌, ◌≡◌, sym, ap, String, none, List, [], ◌∷◌, ◌++◌, arith, length, length-append,
  if◌then◌else◌, str_eq, eq_iff, Bool-cases, Option-cases, inl, inr,
}
use mathlib.Core.Path.{subst}
use mathlib.Core.List.{append-nil}
use log_librarian.Prelude.Dict.{
  Dict, lookup, get_or, sum_values, weight, sum_values-insert, get_or-insert, IsUnique,
}
use log_librarian.Metrics.Buffer.{rows, extend, extend_all}

module _ {M : Type 0} where
  length-get_or :
      (k : String) (d : Dict (List M)) → weight length (lookup k d) ≡ length (get_or k d [])
  unfolding get_or
  length-get_or k d = elim (Option-cases (lookup k d)) [
    | inl e ↦ rw (e, get_or)
    | inr (ms, e) ↦ rw (e, get_or)
  ]

  pub rows-extend :
      (k : String) (ms : List M) (d : Dict (List M)) → rows (extend k ms d) ≡ rows d + length ms
  unfolding rows extend
  rows-extend k ms d = omega (
    arith,
    sum_values-insert {V = List M} length k (get_or k d [] ++ ms) d,
    length-get_or k d,
    length-append (get_or k d []) ms,
  )

  pub rows-extend_all :
      (snapshot d : Dict (List M)) → rows (extend_all snapshot d) ≡ rows d + rows snapshot
  unfolding extend_all
  rows-extend_all [] d = unfold rows sum_values in omega arith
  rows-extend_all ((k, ms) ∷ snapshot) d =
      rows-extend_all snapshot (extend k ms d)
      ∙ (unfold rows sum_values in omega (arith, rows-extend k ms d))

  pub get_or-extend :
      (k j : String) (ms : List M) (d : Dict (List M))
      → get_or j (extend k ms d) [] ≡ (if str_eq k j then get_or j d [] ++ ms else get_or j d [])
  unfolding extend
  get_or-extend k j ms d = elim (Bool-cases (str_eq k j)) [
    | inl same ↦
        get_or-insert k j (get_or k d [] ++ ms) [] d
        ∙ rw same (ap (λ i. get_or i d [] ++ ms) ((eq_iff k j).0 same))
    | inr other ↦ get_or-insert k j (get_or k d [] ++ ms) [] d ∙ rw other
  ]

  pub get_or_cons :
      (k j : String) (v : List M) (d : Dict (List M))
      → get_or j ((k, v) ∷ d) [] ≡ (if str_eq k j then v else get_or j d [])
  unfolding get_or lookup
  get_or_cons k j v d = ground arith

  -- In a dictionary a key of the head is not in the tail.
  pub get_or_absent : (k : String) (d : Dict (List M)) → lookup k d ≡ none → get_or k d [] ≡ []
  unfolding get_or
  get_or_absent k d h = rw (h, get_or)

  -- The rows of an agent after a restore: those in the buffer, then those of the snapshot.
  pub get_or-extend_all :
      (j : String) (snapshot d : Dict (List M))
      → IsUnique snapshot
      → get_or j (extend_all snapshot d) [] ≡ get_or j d [] ++ get_or j snapshot []
  unfolding extend_all
  get_or-extend_all j [] d u = unfold get_or lookup in sym (append-nil (get_or j d []))
  get_or-extend_all j ((k, ms) ∷ snapshot) d u =
      get_or-extend_all j snapshot (extend k ms d) u.1 ∙ (elim (Bool-cases (str_eq k j)) [
        | inl same ↦
            rw
              (
                get_or-extend k j ms d,
                get_or_cons k j ms snapshot,
                get_or_absent j snapshot
                    (subst (λ i. lookup i snapshot ≡ none) ((eq_iff k j).0 same) u.0),
                same,
              )
              (append-nil (get_or j d [] ++ ms))
        | inr other ↦ rw (get_or-extend k j ms d, get_or_cons k j ms snapshot, other)
      ])
