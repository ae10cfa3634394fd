-- ===== src/Queries/Groups.antt =====
-- What the grouping of tool calls keeps: every call, their order, and the size of a group.
use log_librarian.Prelude.{
  ◌∙◌, ℕ, zero, suc, ◌<◌, ◌≤◌, ◌≡◌, refl, ap, List, [], ◌∷◌, ◌++◌, All, arith, leb, length,
  length-drop, drop, Bool-cases, inl, inr,
}
use log_librarian.Queries.Parallel.{
  ToolCall, take, chunks, singles, all_independent, can_parallelize,
}

abbrev pub concat {ℓ} : {A : Type ℓ} → List (List A) → List A
concat [] = []
concat (g ∷ gs) = g ++ concat gs

-- The group has a call and at most `n`.
abbrev pub IsGroup : {P : Type 0} → ℕ → List (ToolCall P) → Type 0
IsGroup n g = (0 < length g) × (length g ≤ n)

module _ {P : Type 0} where
  take-drop : (n : ℕ) (cs : List (ToolCall P)) → take n cs ++ drop n cs ≡ cs
  unfolding take
  take-drop zero cs = refl
  take-drop (suc n) [] = refl
  take-drop (suc n) (c ∷ cs) = ap (λ l. c ∷ l) (take-drop n cs)

  length-take-le : (n : ℕ) (cs : List (ToolCall P)) → length (take n cs) ≤ n
  unfolding take
  length-take-le zero cs = omega arith
  length-take-le (suc n) [] = omega arith
  length-take-le (suc n) (c ∷ cs) = omega (arith, length-take-le n cs)

  take-IsGroup :
      (n : ℕ) (c : ToolCall P) (cs : List (ToolCall P)) → 0 < n → IsGroup n (take n (c ∷ cs))
  unfolding take
  take-IsGroup zero c cs h = absurd (omega arith)
  take-IsGroup (suc n) c cs h = (omega arith, omega (arith, length-take-le n cs))

  chunks_lem :
      (fuel n : ℕ) (cs : List (ToolCall P))
      → 0 < n
      → length cs ≤ fuel
      → (concat (chunks fuel n cs) ≡ cs) × All (IsGroup n) (chunks fuel n cs)
  unfolding chunks
  chunks_lem fuel n [] h f = (refl, tt)
  chunks_lem zero n (c ∷ cs) h f = absurd (omega arith)
  chunks_lem (suc fuel) n (c ∷ cs) h f =
      let rest =
        chunks_lem fuel n (drop n (c ∷ cs)) h (omega (arith, length-drop n (c ∷ cs), h, f)) in
      (
        ap (λ l. take n (c ∷ cs) ++ l) rest.0 ∙ take-drop n (c ∷ cs),
        (take-IsGroup n c cs h, rest.1),
      )

  singles_lem :
      (n : ℕ) (cs : List (ToolCall P))
      → 0 < n
      → (concat (singles cs) ≡ cs) × All (IsGroup n) (singles cs)
  unfolding singles
  singles_lem n [] h = (refl, tt)
  singles_lem n (c ∷ cs) h =
      let rest = singles_lem n cs h in
      (ap (λ l. c ∷ l) rest.0, ((omega arith, omega (arith, h)), rest.1))

  -- Where `max_parallel` is positive, the groups hold every call once, in the order given, and
  -- each group has at least one call and at most `max_parallel`.
  pub groups_keep_calls :
      (max_parallel : ℕ) (calls : List (ToolCall P))
      → 0 < max_parallel
      → (concat (can_parallelize max_parallel calls).0 ≡ calls)
        × All (IsGroup max_parallel) (can_parallelize max_parallel calls).0
  unfolding can_parallelize
  groups_keep_calls n calls h = elim (Bool-cases (leb (length calls) 1)) [
    | inl e ↦ rw (e, can_parallelize) (singles_lem n calls h)
    | inr e ↦ elim (Bool-cases (all_independent calls)) [
      | inl i ↦ rw (e, can_parallelize, i) (chunks_lem (length calls) n calls h (omega arith))
      | inr i ↦ rw (e, can_parallelize, i) (singles_lem n calls h)
    ]
  ]
