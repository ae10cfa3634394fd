-- ===== src/Queries/Results.antt =====
-- Which of several calls of one tool the results of `execute_parallel` keep.
use log_librarian.Prelude.{
  sym, ◌∙◌, ℕ, ◌≡◌, refl, ap, String, Option, none, some, List, [], ◌∷◌, ◌++◌, if◌then◌else◌,
}
use text.Mathlib.Text.{◌==◌}
use log_librarian.Prelude.Dict.{Dict, lookup, insert, lookup-insert}
use log_librarian.Queries.Parallel.{ToolCall, can_parallelize}
use log_librarian.Queries.Execution.{
  Ran, Entry, entry_of, add_results, run_groups, execute_parallel,
}

-- The entry of the last of some named entries that has a name, or a default.
unfoldable last_or : {E : Type 0} → String → List (String × E) → Option E → Option E
last_or name [] e = e
last_or name ((n, f) ∷ fs) e = last_or name fs (if n == name then some f else e)

-- The last entry that has a name.
unfoldable pub last : {E : Type 0} → String → List (String × E) → Option E
unfolding last_or
last name es = last_or name es none

module _ {P A W : Type 0} (timeout : ℕ) (run_group : List (ToolCall P) → W → List (Ran A) × W) where
  -- The calls of a group with their outcomes.
  unfoldable named : List (ToolCall P) → List (Ran A) → List (String × Entry A)
  named [] rs = []
  named (c ∷ cs) [] = []
  named (c ∷ cs) (r ∷ rs) = (c.tool_name, entry_of timeout run_group c.tool_name r) ∷ named cs rs

  -- The calls of all groups with their outcomes, in the order of the groups and of their calls.
  unfoldable pub outcomes : List (List (ToolCall P)) → W → List (String × Entry A)
  unfolding named
  outcomes [] w = []
  outcomes (g ∷ gs) w = let (rs, w') = run_group g w in named g rs ++ outcomes gs w'

  last_or-append :
      {E : Type 0} (name : String) (xs ys : List (String × E)) (e : Option E)
      → last_or name (xs ++ ys) e ≡ last_or name ys (last_or name xs e)
  unfolding last_or
  last_or-append name [] ys e = refl
  last_or-append name ((n, f) ∷ xs) ys e =
      last_or-append name xs ys (if n == name then some f else e)

  lookup-add_results :
      (name : String) (cs : List (ToolCall P)) (rs : List (Ran A)) (d : Dict (Entry A))
      → lookup name (add_results timeout run_group cs rs d)
        ≡ last_or name (named cs rs) (lookup name d)
  unfolding add_results named last_or
  lookup-add_results name [] rs d = refl
  lookup-add_results name (c ∷ cs) [] d = refl
  lookup-add_results name (c ∷ cs) (r ∷ rs) d =
      let e = entry_of timeout run_group c.tool_name r in
      lookup-add_results name cs rs (insert c.tool_name e d)
      ∙ ap (last_or name (named cs rs)) (lookup-insert c.tool_name name e d)

  lookup-run_groups :
      (name : String) (gs : List (List (ToolCall P))) (d : Dict (Entry A)) (w : W)
      → lookup name (run_groups timeout run_group gs d w).0
        ≡ last_or name (outcomes gs w) (lookup name d)
  unfolding run_groups outcomes last_or
  lookup-run_groups name [] d w = refl
  lookup-run_groups name (g ∷ gs) d w =
      let rs = (run_group g w).0 in
      let w' = (run_group g w).1 in
      lookup-run_groups name gs (add_results timeout run_group g rs d) w'
      ∙ ap (last_or name (outcomes gs w')) (lookup-add_results name g rs d)
      ∙ sym (last_or-append name (named g rs) (outcomes gs w') (lookup name d))

  -- The results hold under a tool's name the outcome of its last call, in the order of the groups,
  -- and nothing where it has no call: the outcomes of its earlier calls are lost.
  pub last_call_wins :
      (name : String) (max_parallel : ℕ) (calls : List (ToolCall P)) (w : W)
      → lookup name (execute_parallel timeout run_group max_parallel calls w).0
        ≡ last name (outcomes (can_parallelize max_parallel calls).0 w)
  unfolding execute_parallel last lookup
  last_call_wins name max_parallel calls w =
      lookup-run_groups name (can_parallelize max_parallel calls).0 [] w
