-- ===== src/Queries/Parallel.antt =====
-- `ParallelExecutor.can_parallelize` of librarian/ai_query_optimizer.py.
use log_librarian.Prelude.{
  ℕ, suc, zero, String, Bool, true, false, ◌&&◌, List, [], ◌∷◌, leb, length, drop, if◌then◌else◌,
  str_eq,
}

-- A tool call: its name, and the rest of it, which the grouping does not read.
pub record ToolCall (P : Type 0) : Type 0 where
  pub tool_name : String
  pub params : P

-- `INDEPENDENT_TOOLS`
abbrev pub independent_tools : List String
independent_tools =
    "list_scribes" ∷ "list_bookmarks" ∷ "get_active_alerts" ∷ "get_system_health"
    ∷ "get_daily_summary" ∷ []

unfoldable pub is_listed : String → List String → Bool
is_listed s [] = false
is_listed s (t ∷ ts) = let rest = is_listed s ts in if str_eq t s then true else rest

module _ {P : Type 0} where
  -- `xs[:n]`
  unfoldable pub take : ℕ → List (ToolCall P) → List (ToolCall P)
  take zero cs = []
  take (suc n) [] = []
  take (suc n) (c ∷ cs) = c ∷ take n cs

  -- The groups of `max_parallel` calls each; the fuel is the number of calls, of which each group
  -- takes one at least.
  unfoldable pub chunks : ℕ → ℕ → List (ToolCall P) → List (List (ToolCall P))
  unfolding take
  chunks fuel max_parallel [] = []
  chunks zero max_parallel (c ∷ cs) = []
  chunks (suc fuel) max_parallel (c ∷ cs) =
      take max_parallel (c ∷ cs) ∷ chunks fuel max_parallel (drop max_parallel (c ∷ cs))

  unfoldable pub singles : List (ToolCall P) → List (List (ToolCall P))
  singles [] = []
  singles (c ∷ cs) = (c ∷ []) ∷ singles cs

  unfoldable pub all_independent : List (ToolCall P) → Bool
  unfolding is_listed
  all_independent [] = true
  all_independent (c ∷ cs) = is_listed c.tool_name independent_tools && all_independent cs

  -- `can_parallelize`, for a positive `max_parallel`: at zero the `range` of the source raises.
  unfoldable pub can_parallelize : ℕ → List (ToolCall P) → List (List (ToolCall P)) × Bool
  unfolding chunks singles all_independent
  can_parallelize max_parallel calls =
      if leb (length calls) 1
      then (singles calls, false)
      else if all_independent calls
      then (chunks (length calls) max_parallel calls, true)
      else (singles calls, false)
