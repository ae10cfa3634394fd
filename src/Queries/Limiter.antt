-- ===== src/Queries/Limiter.antt =====
-- `ResultLimiter` and `TimeoutHandler` of librarian/ai_query_optimizer.py. Timeouts are seconds.
use Prim.Native.Nat.{◌/◌}
use Prim.Native.String.{◌++◌}
use log_librarian.Prelude.{
  ℕ, zero, suc, min, String, Bool, true, false, Option, none, some, List, [], ◌∷◌, leb, ◌==◌,
  length, if◌then◌else◌,
}
use log_librarian.Prelude.Dict.{Dict, get_or}
use log_librarian.Prelude.Text.{str_nat}

-- `DEFAULT_LIMITS`
abbrev pub default_limits : Dict ℕ
default_limits =
    ("logs", 50)
    ∷ ("metrics", 100)
    ∷ ("processes", 30)
    ∷ ("alerts", 20)
    ∷ ("bookmarks", 50)
    ∷ ("scribes", 50)
    ∷ ("default", 50)
    ∷ []

-- `TOKENS_PER_ITEM`
abbrev pub tokens_per_item : Dict ℕ
tokens_per_item =
    ("logs", 50)
    ∷ ("metrics", 10)
    ∷ ("processes", 30)
    ∷ ("alerts", 40)
    ∷ ("bookmarks", 20)
    ∷ ("scribes", 25)
    ∷ ("default", 30)
    ∷ []

-- `max_items or self.DEFAULT_LIMITS.get(...)`
unfoldable pub item_limit : String → Option ℕ → ℕ
item_limit data_type none = get_or data_type default_limits 50
item_limit data_type (some n) = if n == 0 then get_or data_type default_limits 50 else n

unfoldable pub per_item : String → ℕ
per_item data_type = get_or data_type tokens_per_item 30

unfoldable pub effective_limit : ℕ → String → Option ℕ → ℕ
unfolding item_limit per_item
effective_limit token_budget data_type max_items =
    min (item_limit data_type max_items) (token_budget / per_item data_type)

module _ {D : Type 0} where
  -- `xs[:n]`
  unfoldable pub first : ℕ → List D → List D
  first zero xs = []
  first (suc n) [] = []
  first (suc n) (x ∷ xs) = x ∷ first n xs

  -- `limit_results`: the items, if they were cut, and the number of all.
  unfoldable pub limit_results : ℕ → List D → String → Option ℕ → List D × Bool × ℕ
  unfolding effective_limit first
  limit_results token_budget [] data_type max_items = ([], false, 0)
  limit_results token_budget (x ∷ xs) data_type max_items =
      let limit = effective_limit token_budget data_type max_items in
      if leb (length (x ∷ xs)) limit
      then (x ∷ xs, false, length (x ∷ xs))
      else (first limit (x ∷ xs), true, length (x ∷ xs))

-- `create_summary`
unfoldable pub create_summary : ℕ → String → ℕ → String
create_summary shown data_type total =
    "[Showing "
    ++ str_nat shown
    ++ " of "
    ++ str_nat total
    ++ " "
    ++ data_type
    ++ ". Use more specific filters to narrow results.]"

-- `DEFAULT_TIMEOUTS`
abbrev pub default_timeouts : Dict ℕ
default_timeouts =
    ("simple_lookup", 5)
    ∷ ("log_search", 15)
    ∷ ("metrics_aggregate", 10)
    ∷ ("complex_analysis", 30)
    ∷ ("default", 10)
    ∷ []

unfoldable pub get_timeout : String → ℕ
get_timeout query_type = get_or query_type default_timeouts 10
