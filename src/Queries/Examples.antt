-- ===== src/Queries/Examples.antt =====
-- The theorems on query results and tool calls at concrete inputs.
use log_librarian.Prelude.{
  true, ℕ, ◌+◌, ◌≤◌, ◌≡◌, refl, String, Bool, none, some, List, [], ◌∷◌, All, arith, length,
}
use log_librarian.Prelude.Dict.{delete, lookup, insert}
use log_librarian.Queries.Execution.{Ran, finished}
use log_librarian.Queries.Optimizer.{
  Reply, QueryOptimizer, plain, new_optimizer, infer_query_type, is_in, limit_reply, type_or,
  is_true, execute_tool,
}
use log_librarian.Queries.Collisions.{other_tool_gets_cached}
use log_librarian.Queries.Digests.{IsHex, is_hex}
use log_librarian.Queries.Cache.{
  set_call, invalidate_call, get_call, CacheCall, call_all, CacheEntry, QueryCache, new_cache,
  get_ttl, get, set, invalidate,
}
use log_librarian.Queries.Parallel.{ToolCall, can_parallelize}
use log_librarian.Queries.Groups.{concat, IsGroup, groups_keep_calls}
use log_librarian.Queries.Capacity.{set_then_get, zero_size_raises}
use log_librarian.Queries.Invalidation.{invalidate_removes_nothing}

abbrev entry : CacheEntry ℕ
entry = record { result = 4; created_at = 10; ttl = 60; hit_count = 1 }

abbrev held : QueryCache ℕ
held = record (new_cache 1) { cache = ("5ab3", entry) ∷ [] }

abbrev call : String → ToolCall ℕ
call name = record { tool_name = name; params = 0 }

abbrev calls : List (ToolCall ℕ)
calls =
    call "list_scribes"
    ∷ call "list_bookmarks"
    ∷ call "get_system_health"
    ∷ call "list_scribes"
    ∷ []

in_time : 130 ≤ 50 + get_ttl "logs"
unfolding get_ttl lookup
in_time = omega arith

set_then_get_example :
    (c' : QueryCache ℕ) × (set 50 "9f" "logs" 7 held ≡ some c')
    × (length c'.cache ≤ 1)
    × ((get 130 "9f" c').0 ≡ some 7)
set_then_get_example = set_then_get 50 130 "9f" "logs" 7 held (omega arith) in_time

zero_size_raises_example : set {R = ℕ} 50 "9f" "logs" 7 (new_cache 0) ≡ none
zero_size_raises_example = zero_size_raises 50 "9f" "logs" 7 (new_cache 0) refl

-- A digest that maps every text to one.
abbrev md5 : String → String
md5 text = "d41d8cd9"

md5-IsHex : (text : String) → IsHex (md5 text)
unfolding IsHex is_hex
md5-IsHex text = (refl, (refl, (refl, (refl, (refl, (refl, (refl, (refl, tt))))))))

abbrev dumps : ℕ → String
dumps n = "{}"

-- The invalidation that is among the calls leaves the entry too.
abbrev cache_calls : List (CacheCall ℕ ℕ)
cache_calls = set_call 50 "logs" 0 7 ∷ invalidate_call (some "logs") ∷ get_call 60 "logs" 0 ∷ []

one_is_left : length (call_all md5 dumps cache_calls (new_cache 3)).cache ≡ 1
unfolding call_all set get invalidate get_ttl lookup insert delete
one_is_left = refl

invalidate_removes_nothing_example :
    let c = call_all md5 dumps cache_calls (new_cache 3) in invalidate (some "logs") c ≡ c
invalidate_removes_nothing_example =
    invalidate_removes_nothing md5 dumps 3 cache_calls "logs" md5-IsHex

groups_keep_calls_example :
    (concat (can_parallelize 3 calls).0 ≡ calls) × All (IsGroup 3) (can_parallelize 3 calls).0
groups_keep_calls_example = groups_keep_calls 3 calls (omega arith)

abbrev optimizer : QueryOptimizer String ℕ
optimizer = new_optimizer 100 3 4000

abbrev truthy : String → Bool
truthy s = true

-- A digest that tells the types apart.
abbrev digest : String → ℕ → String
digest query_type n = query_type

-- A handler that answers with the tool's name, and counts the runs.
abbrev answer : String → ℕ → ℕ → ℕ → Ran (Reply String ℕ) × ℕ
answer tool timeout params w = (finished (plain tool), w + 1)

-- The list of the bookmarks is stored as the state of one bookmark is asked for.
other_tool_gets_cached_example :
    let first = execute_tool truthy digest answer 5 6 "list_bookmarks" 0 true none optimizer 0 in
    let second =
      execute_tool truthy digest answer 7 8 "get_bookmark_status" 0 true none first.1 first.2 in
    (first.0 ≡ limit_reply 4000 (type_or none "list_bookmarks") (plain "list_bookmarks"))
    × (second.0 ≡ first.0)
    × (second.2 ≡ first.2)
unfolding infer_query_type is_in get limit_reply is_true get_ttl lookup
other_tool_gets_cached_example =
    other_tool_gets_cached truthy digest answer 5 6 7 8 "list_bookmarks" "get_bookmark_status" 0
      none none (plain "list_bookmarks") optimizer 0 1 refl refl refl (omega arith) refl
      (omega arith)
