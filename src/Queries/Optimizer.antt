-- ===== src/Queries/Optimizer.antt =====
-- `QueryOptimizer` of librarian/ai_query_optimizer.py. `D` is the type of a data item, `X` that of
-- what a tool returns besides, `P` that of the parameters, and `W` the world the tools work on.
use text.Mathlib.Text.{find?}
use log_librarian.Prelude.{
  ℕ, ◌+◌, String, Bool, true, false, ◌&&◌, ◌||◌, Option, none, some, List, length, if◌then◌else◌,
  str_eq,
}
use log_librarian.Queries.Cache.{QueryCache, new_cache, get, set, invalidate, cleanup_expired}
use log_librarian.Queries.Limiter.{limit_results, create_summary, get_timeout}
use log_librarian.Queries.Execution.{Ran, finished, timed_out, raised}

-- What `limit_results` adds to a reply that it cut: the number of all items, and the summary.
pub record Truncation : Type 0 where
  pub total_count : ℕ
  pub summary : String

-- A reply: a dictionary with a list under `data`, any other value, or an error of the optimizer,
-- with its key `partial`; or the error of a tool without a handler.
pub data Reply (X D : Type 0) : Type 0 where
  listing : X → List D → Option Truncation → Reply X D
  plain : X → Reply X D
  failure : String → Bool → Reply X D
  unknown_tool : String → Reply X D

-- The limit of parallel calls is that of the `ParallelExecutor`.
pub record QueryOptimizer (X D : Type 0) : Type 0 where
  pub cache : QueryCache (Reply X D)
  pub max_parallel : ℕ
  pub token_budget : ℕ
  pub queries_executed : ℕ
  pub queries_cached : ℕ
  pub queries_parallel : ℕ
  pub queries_timed_out : ℕ

abbrev pub new_optimizer : {X D : Type 0} → ℕ → ℕ → ℕ → QueryOptimizer X D
new_optimizer cache_size max_parallel token_budget = record {
  cache = new_cache cache_size;
  max_parallel = max_parallel;
  token_budget = token_budget;
  queries_executed = 0;
  queries_cached = 0;
  queries_parallel = 0;
  queries_timed_out = 0;
}

-- `part in text`
unfoldable pub is_in : String → String → Bool
is_in part text = elim (find? text part) [ none ↦ false | some _ ↦ true ]

-- `_infer_query_type`
unfoldable pub infer_query_type : String → String
unfolding is_in
infer_query_type tool_name =
    if is_in "list_scribes" tool_name || is_in "get_scribe" tool_name
    then "agent_list"
    else if is_in "metrics" tool_name
    then "metrics"
    else if is_in "logs" tool_name || is_in "log" tool_name
    then "logs"
    else if is_in "bookmark" tool_name
    then "bookmarks"
    else if is_in "alert" tool_name
    then "alerts"
    else if is_in "health" tool_name
    then "system_health"
    else "default"

-- `_infer_data_type`
unfoldable pub infer_data_type : String → String
unfolding is_in
infer_data_type tool_name =
    if is_in "log" tool_name
    then "logs"
    else if is_in "metric" tool_name
    then "metrics"
    else if is_in "process" tool_name
    then "processes"
    else if is_in "alert" tool_name
    then "alerts"
    else if is_in "bookmark" tool_name
    then "bookmarks"
    else if is_in "scribe" tool_name || is_in "agent" tool_name
    then "scribes"
    else "default"

-- `data_type or self._infer_data_type(tool_name)`
unfoldable pub type_or : Option String → String → String
type_or none tool_name = infer_data_type tool_name
type_or (some t) tool_name = if str_eq t "" then infer_data_type tool_name else t

module _ {X D : Type 0} where
  unfoldable pub cut : X → Option Truncation → String → List D × Bool × ℕ → Reply X D
  cut x t data_type (items, false, total) = listing x items t
  cut x t data_type (items, true, total) = listing x items (
      some
        (record { total_count = total; summary = create_summary (length items) data_type total }))

  -- The limiting of a reply that has a list under `data`.
  unfoldable pub limit_reply : ℕ → String → Reply X D → Reply X D
  unfolding cut
  limit_reply token_budget data_type (listing x items t) =
      cut x t data_type (limit_results token_budget items data_type none)
  limit_reply token_budget data_type (plain x) = plain x
  limit_reply token_budget data_type (failure e p) = failure e p
  limit_reply token_budget data_type (unknown_tool e) = unknown_tool e

  unfoldable pub count_query : QueryOptimizer X D → QueryOptimizer X D
  count_query o = record o { queries_executed = o.queries_executed + 1 }

  unfoldable pub count_hit : QueryOptimizer X D → QueryOptimizer X D
  count_hit o = record o { queries_cached = o.queries_cached + 1 }

  -- What a Boolean test makes of a reply; a dictionary with `data` has a key, and is true.
  unfoldable pub is_true : (X → Bool) → Reply X D → Bool
  is_true truthy (listing x items t) = true
  is_true truthy (plain x) = truthy x
  is_true truthy (failure e p) = true
  is_true truthy (unknown_tool e) = true

-- `handler name timeout params` is an awaited call of the tool's handler, and `key_of` the digest of
-- a query type and the parameters; `truthy` is a Boolean test of a plain value.
module _ {X D P W : Type 0} (truthy : X → Bool) (key_of : String → P → String)
    (handler : String → ℕ → P → W → Ran (Reply X D) × W) where
  -- The end of `execute_tool` on a reply that a tool returned: a `set` that raises is an error.
  unfoldable pub store_reply :
      ℕ → String → P → Bool → Reply X D → QueryOptimizer X D → Reply X D × QueryOptimizer X D
  unfolding is_true
  store_reply now query_type params use_cache reply o =
      if use_cache && is_true truthy reply
      then elim (set now (key_of query_type params) query_type reply o.cache) [
        | none ↦ (failure "'dictionary is empty'" false, o)
        | some c ↦ (reply, record o { cache = c })
      ]
      else (reply, o)

  -- `execute_tool` past its cache: `now` is the clock when the reply is stored.
  unfoldable pub run_tool :
      ℕ
      → String
      → P
      → Bool
      → Option String
      → QueryOptimizer X D
      → W
      → Reply X D × QueryOptimizer X D × W
  unfolding store_reply limit_reply type_or
  run_tool now tool_name params use_cache data_type o w =
      let query_type = infer_query_type tool_name in
      let (r, w') = handler tool_name (get_timeout query_type) params w in
      elim r [
        | finished reply ↦
            (let limited = limit_reply o.token_budget (type_or data_type tool_name) reply in
              let (stored, o') = store_reply now query_type params use_cache limited o in
              (stored, o', w'))
        | timed_out ↦ (
          failure "Query timed out. Try a more specific filter." true,
          record o { queries_timed_out = o.queries_timed_out + 1 },
          w',
        )
        | raised message ↦ (failure message false, o, w')
      ]

  unfoldable pub after_lookup :
      ℕ
      → String
      → P
      → Option String
      → Option (Reply X D)
      → QueryOptimizer X D
      → W
      → Reply X D × QueryOptimizer X D × W
  unfolding run_tool count_hit
  after_lookup now tool_name params data_type (some reply) o w = (reply, count_hit o, w)
  after_lookup now tool_name params data_type none o w =
      run_tool now tool_name params true data_type o w

  -- `execute_tool`, begun at the clock `now` and storing its reply at `later`.
  unfoldable pub execute_tool :
      ℕ
      → ℕ
      → String
      → P
      → Bool
      → Option String
      → QueryOptimizer X D
      → W
      → Reply X D × QueryOptimizer X D × W
  unfolding after_lookup run_tool count_query
  execute_tool now later tool_name params true data_type o w =
      let (cached, c) = get now (key_of (infer_query_type tool_name) params) o.cache in
      after_lookup later tool_name params data_type cached (record (count_query o) { cache = c }) w
  execute_tool now later tool_name params false data_type o w =
      run_tool later tool_name params false data_type (count_query o) w

module _ {X D : Type 0} where
  -- `invalidate_cache` and `cleanup`
  unfoldable pub invalidate_cache : Option String → QueryOptimizer X D → QueryOptimizer X D
  unfolding invalidate
  invalidate_cache query_type o = record o { cache = invalidate query_type o.cache }

  unfoldable pub cleanup : ℕ → QueryOptimizer X D → QueryOptimizer X D
  unfolding cleanup_expired
  cleanup now o = record o { cache = cleanup_expired now o.cache }
