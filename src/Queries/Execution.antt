-- ===== src/Queries/Execution.antt =====
-- Which results the calls of a group leave: `ParallelExecutor.execute_parallel` of
-- librarian/ai_query_optimizer.py. The timeout is whole seconds. The tasks of a group are awaited in
-- the order of its calls, so their outcomes are a list in that order, whatever their order of
-- execution.
use Prim.Native.String.{◌++◌}
use log_librarian.Prelude.{ℕ, String, List, [], ◌∷◌}
use log_librarian.Prelude.Dict.{Dict, insert}
use log_librarian.Prelude.Text.{str_nat}
use log_librarian.Queries.Parallel.{ToolCall, can_parallelize}

-- What an awaited call ends with.
pub data Ran (A : Type 0) : Type 0 where
  finished : A → Ran A
  timed_out : Ran A
  raised : String → Ran A

-- An entry of the results: what the tool returned, or a dictionary with its error.
pub data Entry (A : Type 0) : Type 0 where
  result : A → Entry A
  error : String → Entry A

module _ {P A W : Type 0} (timeout : ℕ) (run_group : List (ToolCall P) → W → List (Ran A) × W) where
  unfoldable pub entry_of : String → Ran A → Entry A
  entry_of name (finished a) = result a
  entry_of name timed_out =
      error ("Tool " ++ name ++ " timed out after " ++ str_nat timeout ++ ".0s")
  entry_of name (raised message) = error message

  -- The loop over a group and its outcomes.
  unfoldable pub add_results : List (ToolCall P) → List (Ran A) → Dict (Entry A) → Dict (Entry A)
  unfolding entry_of
  add_results [] rs d = d
  add_results (c ∷ cs) [] d = d
  add_results (c ∷ cs) (r ∷ rs) d =
      add_results cs rs (insert c.tool_name (entry_of c.tool_name r) d)

  unfoldable pub run_groups : List (List (ToolCall P)) → Dict (Entry A) → W → Dict (Entry A) × W
  unfolding add_results
  run_groups [] d w = (d, w)
  run_groups (g ∷ gs) d w = let (rs, w') = run_group g w in run_groups gs (add_results g rs d) w'

  -- `execute_parallel`
  unfoldable pub execute_parallel : ℕ → List (ToolCall P) → W → Dict (Entry A) × W
  unfolding run_groups
  execute_parallel max_parallel calls w = run_groups (can_parallelize max_parallel calls).0 [] w
