-- ===== src/Queries/Together.antt =====
-- `QueryOptimizer.execute_tools_parallel` of librarian/ai_query_optimizer.py, which joins the groups
-- of calls, the cache, the limits and the timeouts.
use Prim.Native.String.{◌++◌}
use log_librarian.Prelude.{
  ℕ, ◌+◌, String, Bool, true, Option, none, some, List, length, if◌then◌else◌,
}
use log_librarian.Prelude.Dict.{Dict, lookup}
use log_librarian.Queries.Parallel.{ToolCall, can_parallelize}
use log_librarian.Queries.Execution.{Ran, Entry, finished, execute_parallel}
use log_librarian.Queries.Optimizer.{Reply, QueryOptimizer, unknown_tool, execute_tool}

-- A handler of a tool, for its timeout.
abbrev pub Handler : Type 0 → Type 0 → Type 0 → Type 0 → Type 0
Handler X D P W = ℕ → P → W → Ran (Reply X D) × W

module _ {X D P W : Type 0} (truthy : X → Bool) (key_of : String → P → String)
    (handlers : Dict (Handler X D P W)) where
  -- The `executor` of the call, with the handler of the tool, if it has one.
  unfoldable pub execute_with :
      Option (Handler X D P W)
      → ℕ
      → ℕ
      → ToolCall P
      → QueryOptimizer X D × W
      → Ran (Reply X D) × (QueryOptimizer X D × W)
  unfolding execute_tool
  execute_with none now later c (o, w) =
      (finished (unknown_tool ("Unknown tool: " ++ c.tool_name)), (o, w))
  execute_with (some handler) now later c (o, w) =
      let (reply, o', w') =
        execute_tool truthy key_of (λ name timeout p w0. handler timeout p w0) now later c.tool_name
          c.params true none o w in
      (finished reply, (o', w'))

  -- `clock` has the times of a call: at its begin, and where its reply is stored.
  unfoldable pub executor :
      (ToolCall P → ℕ × ℕ)
      → ToolCall P
      → QueryOptimizer X D × W
      → Ran (Reply X D) × (QueryOptimizer X D × W)
  unfolding execute_with lookup
  executor clock c s =
      let (now, later) = clock c in execute_with (lookup c.tool_name handlers) now later c s

  -- `execute_tools_parallel`: `schedule` is what the event loop makes of the calls of a group.
  unfoldable pub execute_tools_parallel :
      ℕ
      → ((ToolCall P → QueryOptimizer X D × W → Ran (Reply X D) × (QueryOptimizer X D × W))
          → List (ToolCall P)
          → QueryOptimizer X D × W
          → List (Ran (Reply X D)) × (QueryOptimizer X D × W))
      → (ToolCall P → ℕ × ℕ)
      → List (ToolCall P)
      → QueryOptimizer X D
      → W
      → Dict (Entry (Reply X D)) × (QueryOptimizer X D × W)
  unfolding executor can_parallelize execute_parallel
  execute_tools_parallel timeout schedule clock calls o w =
      let counted : QueryOptimizer X D = record o {
        queries_parallel = o.queries_parallel + length calls;
      } in
      let begun = (if (can_parallelize o.max_parallel calls).1 then counted else o) in
      execute_parallel timeout (schedule (executor clock)) o.max_parallel calls (begun, w)
