-- ===== src/Queries/Collisions.antt =====
-- What tools that share a query type read from the cache.
use log_librarian.Prelude.{
  ◌∙◌, ℕ, ◌+◌, ◌<◌, ◌≤◌, ◌≡◌, refl, sym, ap, String, Bool, true, Option, none, some, arith,
}
use mathlib.Core.Path.{subst}
use log_librarian.Queries.Cache.{QueryCache, get_ttl, get, set, miss}
use log_librarian.Queries.Capacity.{set_then_get}
use log_librarian.Queries.Limiter.{get_timeout}
use log_librarian.Queries.Execution.{Ran, finished}
use log_librarian.Queries.Optimizer.{
  Reply, QueryOptimizer, infer_query_type, limit_reply, type_or, is_true, count_query, store_reply,
  run_tool, after_lookup, execute_tool,
}

module _ {R : Type 0} where
  get-max_size :
      (now : ℕ) (key : String) (c : QueryCache R) → (get now key c).1.max_size ≡ c.max_size
  unfolding get miss
  get-max_size now key c = ground arith

module _ {X D P W : Type 0} (truthy : X → Bool) (key_of : String → P → String)
    (handler : String → ℕ → P → W → Ran (Reply X D) × W) where
  hit :
      (now later : ℕ) (tool : String) (params : P) (data_type : Option String) (reply : Reply X D)
      (o : QueryOptimizer X D) (w : W)
      → (get now (key_of (infer_query_type tool) params) o.cache).0 ≡ some reply
      → ((execute_tool truthy key_of handler now later tool params true data_type o w).0 ≡ reply)
        × ((execute_tool truthy key_of handler now later tool params true data_type o w).2 ≡ w)
  unfolding execute_tool after_lookup
  hit now later tool params data_type reply o w h =
      let o' : QueryOptimizer X D = record (count_query o) {
        cache = (get now (key_of (infer_query_type tool) params) o.cache).1;
      } in
      (
        ap (λ r. (after_lookup truthy key_of handler later tool params data_type r o' w).0) h,
        ap (λ r. (after_lookup truthy key_of handler later tool params data_type r o' w).2) h,
      )

  run_tool-stored :
      (now : ℕ) (tool : String) (params : P) (t : Option String) (reply : Reply X D)
      (o : QueryOptimizer X D) (c' : QueryCache (Reply X D)) (w w' : W)
      → handler tool (get_timeout (infer_query_type tool)) params w ≡ (finished reply, w')
      → is_true truthy (limit_reply o.token_budget (type_or t tool) reply) ≡ true
      → set now
          (key_of (infer_query_type tool) params)
          (infer_query_type tool)
          (limit_reply o.token_budget (type_or t tool) reply)
          o.cache
        ≡ some c'
      → run_tool truthy key_of handler now tool params true t o w
        ≡ (limit_reply o.token_budget (type_or t tool) reply, record o { cache = c' }, w')
  unfolding run_tool store_reply
  run_tool-stored now tool params t reply o c' w w' f e k =
      let limited = limit_reply o.token_budget (type_or t tool) reply in
      let o' : QueryOptimizer X D = record o { cache = c' } in
      rw (f, run_tool, store_reply, e, k) (ap (λ p. (limited, o', p.1)) f)

  -- After a tool finished with a true reply that the cache did not hold, another tool of the same
  -- inferred type gets that reply for the same parameters while it is live: its handler does not
  -- run, and the world stays as it was.
  pub other_tool_gets_cached :
      (now stored later after : ℕ) (tool other : String) (params : P) (t t' : Option String)
      (reply : Reply X D) (o : QueryOptimizer X D) (w w' : W)
      → (get now (key_of (infer_query_type tool) params) o.cache).0 ≡ none
      → handler tool (get_timeout (infer_query_type tool)) params w ≡ (finished reply, w')
      → is_true truthy (limit_reply o.token_budget (type_or t tool) reply) ≡ true
      → 0 < o.cache.max_size
      → infer_query_type other ≡ infer_query_type tool
      → later ≤ stored + get_ttl (infer_query_type tool)
      → let first = execute_tool truthy key_of handler now stored tool params true t o w in
        let second =
          execute_tool truthy key_of handler later after other params true t' first.1 first.2 in
        (first.0 ≡ limit_reply o.token_budget (type_or t tool) reply)
        × (second.0 ≡ first.0)
        × (second.2 ≡ first.2)
  unfolding execute_tool after_lookup count_query
  other_tool_gets_cached now stored later after tool other params t t' reply o w w' m f e n s l =
      let key = key_of (infer_query_type tool) params in
      let limited = limit_reply o.token_budget (type_or t tool) reply in
      let missed = (get now key o.cache).1 in
      let (c', kept, size, found) =
        set_then_get stored later key (infer_query_type tool) limited missed
          (omega (arith, get-max_size now key o.cache)) l in
      let o' : QueryOptimizer X D = record (count_query o) { cache = missed } in
      let o'' : QueryOptimizer X D = record (count_query o) { cache = c' } in
      let run : execute_tool truthy key_of handler now stored tool params true t o w
          ≡ (limited, o'', w') =
        ap (λ r. after_lookup truthy key_of handler stored tool params t r o' w) m
        ∙ run_tool-stored stored tool params t reply o' c' w w' f e kept in
      let again =
        hit later after other params t' limited o'' w'
          (subst (λ q. (get later (key_of q params) c').0 ≡ some limited) (sym s) found) in
      rw run (refl, again.0, again.1)
