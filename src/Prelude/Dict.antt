-- ===== src/Prelude/Dict.antt =====
-- A Python `dict` with string keys, in insertion order: a write to a key that is there keeps its
-- place, a new key goes to the end.
use mathlib.Core.Path.{◌≡◌, refl, subst}
use mathlib.Core.Bool.{Bool, true, false}
use mathlib.Core.Option.{Option, none, some}
use mathlib.Core.List.{List, [], ◌∷◌}
use native.Mathlib.Omega.{arith}
use text.Mathlib.Text.{◌==◌}
use text.Mathlib.TextEquality.{eq_iff}
use Prim.Native.String.{String}
use Prim.Native.Nat.{ℕ, ◌+◌, ◌≤◌}
use mathlib.Core.Logic.{inl, inr}
use log_librarian.Prelude.Tests.{Option-cases, Bool-cases, if◌then◌else◌}

abbrev pub Dict {ℓ} : Type ℓ → Type ℓ
Dict V = List (String × V)

module _ {ℓ} {V : Type ℓ} where
  -- `d.get(k)`
  unfoldable pub lookup : String → Dict V → Option V
  lookup k [] = none
  lookup k ((j, v) ∷ d) = let rest = lookup k d in if j == k then some v else rest

  -- `d[k] = v`
  unfoldable pub insert : String → V → Dict V → Dict V
  insert k v [] = (k, v) ∷ []
  insert k v ((j, w) ∷ d) = let rest = insert k v d in if j == k then (j, v) ∷ d else (j, w) ∷ rest

  -- `del d[k]`, `d.pop(k, None)`
  unfoldable pub delete : String → Dict V → Dict V
  delete k [] = []
  delete k ((j, w) ∷ d) = let rest = delete k d in if j == k then rest else (j, w) ∷ rest

  -- `d.get(k, v)`, and a read of a `defaultdict` at its default
  unfoldable pub get_or : String → Dict V → V → V
  unfolding lookup
  get_or k d v = elim (lookup k d) [ none ↦ v | some w ↦ w ]

  -- `k in d`
  unfoldable pub contains : String → Dict V → Bool
  unfolding lookup
  contains k d = elim (lookup k d) [ none ↦ false | some _ ↦ true ]

  pub lookup-insert :
      (k j : String) (v : V) (d : Dict V)
      → lookup j (insert k v d) ≡ (if k == j then some v else lookup j d)
  unfolding lookup insert
  lookup-insert k j v [] = refl
  lookup-insert k j v ((i, w) ∷ d) =
      ground (arith, eq_iff k j, eq_iff i k, eq_iff i j, lookup-insert k j v d)

  pub lookup-delete :
      (k j : String) (d : Dict V) → lookup j (delete k d) ≡ (if k == j then none else lookup j d)
  unfolding lookup delete
  lookup-delete k j [] = ground arith
  lookup-delete k j ((i, w) ∷ d) =
      ground (arith, eq_iff k j, eq_iff i k, eq_iff i j, lookup-delete k j d)

pub str_eq_refl : (s : String) → (s == s) ≡ true
str_eq_refl s = (eq_iff s s).1 refl

module _ {ℓ} {V : Type ℓ} where
  pub get_or-insert :
      (k j : String) (v w : V) (d : Dict V)
      → get_or j (insert k v d) w ≡ (if k == j then v else get_or j d w)
  unfolding get_or
  get_or-insert k j v w d = ground (arith, lookup-insert k j v d)

-- `sum(f(v) for v in d.values())`
unfoldable pub sum_values {ℓ} : {V : Type ℓ} → (V → ℕ) → Dict V → ℕ
sum_values f [] = 0
sum_values f ((k, v) ∷ d) = f v + sum_values f d

-- No key stands twice, as in every Python dictionary.
abbrev pub IsUnique {ℓ} : {V : Type ℓ} → Dict V → Type ℓ
IsUnique [] = Unit
IsUnique ((k, v) ∷ d) = (lookup k d ≡ none) × IsUnique d

module _ {ℓ} {V : Type ℓ} where
  pub IsUnique-insert : (k : String) (v : V) (d : Dict V) → IsUnique d → IsUnique (insert k v d)
  unfolding insert lookup
  IsUnique-insert k v [] u = (refl, tt)
  IsUnique-insert k v ((j, w) ∷ d) u = elim (Bool-cases (j == k)) [
    | inl same ↦ rw same u
    | inr other ↦ rw other (
      (rw (lookup-insert k j v d) (ground (arith, eq_iff j k, eq_iff k j, u.0))),
      IsUnique-insert k v d u.1,
    )
  ]

  pub IsUnique-delete : (k : String) (d : Dict V) → IsUnique d → IsUnique (delete k d)
  unfolding delete lookup
  IsUnique-delete k [] u = u
  IsUnique-delete k ((j, w) ∷ d) u = elim (Bool-cases (j == k)) [
    | inl same ↦ rw same (IsUnique-delete k d u.1)
    | inr other ↦
        rw other ((rw (lookup-delete k j d) (ground (arith, u.0))), IsUnique-delete k d u.1)
  ]

  pub delete_absent : (k : String) (d : Dict V) → lookup k d ≡ none → delete k d ≡ d
  unfolding delete lookup
  delete_absent k [] h = refl
  delete_absent k ((j, w) ∷ d) h = ground (arith, delete_absent k d)

module _ {ℓ} {V : Type ℓ} (f : V → ℕ) where
  pub sum_values-insert_new :
      (k : String) (v : V) (d : Dict V)
      → lookup k d ≡ none
      → sum_values f (insert k v d) ≡ sum_values f d + f v
  unfolding sum_values insert lookup
  sum_values-insert_new k v [] h = omega arith
  sum_values-insert_new k v ((j, w) ∷ d) h = ground (arith, sum_values-insert_new k v d)

  pub sum_values-insert_old :
      (k : String) (v w : V) (d : Dict V)
      → lookup k d ≡ some w
      → sum_values f (insert k v d) + f w ≡ sum_values f d + f v
  unfolding sum_values insert lookup
  sum_values-insert_old k v w [] h = absurd (ground arith)
  sum_values-insert_old k v w ((j, x) ∷ d) h = ground (arith, sum_values-insert_old k v w d)

  pub sum_values-delete :
      (k : String) (w : V) (d : Dict V)
      → IsUnique d
      → lookup k d ≡ some w
      → sum_values f (delete k d) + f w ≡ sum_values f d
  unfolding sum_values delete lookup
  sum_values-delete k w [] u h = absurd (ground arith)
  sum_values-delete k w ((j, x) ∷ d) u h = elim (Bool-cases (j == k)) [
    | inl same ↦
        let p : j ≡ k = (eq_iff j k).0 same in
        ground (arith, delete_absent k d (subst (λ i. lookup i d ≡ none) p u.0))
    | inr other ↦ ground (arith, sum_values-delete k w d u.1)
  ]

-- The summand of an entry that may be missing.
abbrev pub weight {ℓ} : {V : Type ℓ} → (V → ℕ) → Option V → ℕ
weight f none = 0
weight f (some v) = f v

module _ {ℓ} {V : Type ℓ} (f : V → ℕ) where
  pub sum_values-insert :
      (k : String) (v : V) (d : Dict V)
      → sum_values f (insert k v d) + weight f (lookup k d) ≡ sum_values f d + f v
  sum_values-insert k v d = elim (Option-cases (lookup k d)) [
    | inl new ↦ rw new (omega (arith, sum_values-insert_new f k v d new))
    | inr (w, old) ↦ rw old (sum_values-insert_old f k v w d old)
  ]

  pub sum_values-drop :
      (k : String) (d : Dict V)
      → IsUnique d
      → sum_values f (delete k d) + weight f (lookup k d) ≡ sum_values f d
  sum_values-drop k d u = elim (Option-cases (lookup k d)) [
    | inl new ↦ rw (new, delete_absent k d new) (omega arith)
    | inr (w, old) ↦ rw old (sum_values-delete f k w d u old)
  ]

  pub weight-le-sum_values : (k : String) (d : Dict V) → weight f (lookup k d) ≤ sum_values f d
  unfolding sum_values lookup
  weight-le-sum_values k [] = omega arith
  weight-le-sum_values k ((j, v) ∷ d) = ground (arith, weight-le-sum_values k d)

module _ {ℓ} {V : Type ℓ} where
  pub get_or-delete :
      (k j : String) (w : V) (d : Dict V)
      → get_or j (delete k d) w ≡ (if k == j then w else get_or j d w)
  unfolding get_or
  get_or-delete k j w d = ground (arith, lookup-delete k j d)
