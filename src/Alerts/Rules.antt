-- ===== src/Alerts/Rules.antt =====
-- `AlertEngine._evaluate_metric_rule`, `_evaluate_bookmark_rule` and `_compare_values`. `N` is the
-- type of Python's floats, whose operations are an argument.
use log_librarian.Prelude.{
  ℕ, String, Bool, false, not, ◌||◌, Option, none, some, List, [], ◌∷◌, if◌then◌else◌, str_eq,
}
use log_librarian.Prelude.Dict.{Dict, lookup}

-- What the rules use of Python's numbers: `parse` is `float` of a string, none where it
-- raises.
pub record Floats (N : Type 0) : Type 0 where
  pub of_nat : ℕ → N
  pub lt : N → N → Bool
  pub eq : N → N → Bool
  pub divide : N → N → N
  pub multiply : N → N → N
  pub parse : String → Option N

-- An entry of a list of disks; a key that is there holds a number.
pub record Disk (N : Type 0) : Type 0 where
  pub percent : Option N
  pub used_percent : Option N
  pub total : Option N
  pub free : Option N

-- A value of the metrics, or of a check's result; `not_a_dict` is any other entry of a list.
pub data Entry (N : Type 0) : Type 0 where
  dict : Disk N → Entry N
  not_a_dict : Entry N

pub data Value (N : Type 0) : Type 0 where
  null : Value N
  number : N → Value N
  text : String → Value N
  list : List (Entry N) → Value N

pub record Rule : Type 0 where
  pub id : ℕ
  pub name : String
  pub metric : String
  pub operator : String
  pub threshold : String
  pub cooldown_minutes : Option ℕ
  pub channels : List ℕ

-- What an evaluation ends with.
pub data Evaluated (A : Type 0) : Type 0 where
  value : A → Evaluated A
  raised : Evaluated A

module _ {N : Type 0} (F : Floats N) where
  -- `float(v)`, none where it raises a `ValueError` or a `TypeError`
  unfoldable pub float : Value N → Option N
  float null = none
  float (number x) = some x
  float (text s) = F.parse s
  float (list es) = none

  unfoldable pub compare_numbers : String → N → N → Bool
  compare_numbers operator v t =
      if str_eq operator "gt"
      then F.lt t v
      else if str_eq operator "lt"
      then F.lt v t
      else if str_eq operator "eq"
      then F.eq v t
      else if str_eq operator "ne"
      then not (F.eq v t)
      else if str_eq operator "gte"
      then F.lt t v || F.eq v t
      else if str_eq operator "lte"
      then F.lt v t || F.eq v t
      else false

  -- `_compare_values`
  unfoldable pub compare_values : Value N → String → String → Bool
  unfolding float compare_numbers
  compare_values v operator threshold = elim (float v) [
    | none ↦ false
    | some x ↦ elim (F.parse threshold) [ none ↦ false | some t ↦ compare_numbers operator x t ]
  ]

  unfoldable pub or_default : Option N → N → N
  or_default none d = d
  or_default (some x) d = x

  -- `d.get('percent', d.get('used_percent', 0))`
  unfoldable pub used : Disk N → N
  unfolding or_default
  used d = or_default d.percent (or_default d.used_percent (F.of_nat 0))

  -- `max` of the used percentages of the entries that are dictionaries, none if there is none.
  unfoldable pub max_used : Option N → List (Entry N) → Option N
  unfolding used
  max_used best [] = best
  max_used best (not_a_dict ∷ es) = max_used best es
  max_used none (dict d ∷ es) = max_used (some (used d)) es
  max_used (some x) (dict d ∷ es) = max_used (some (if F.lt x (used d) then used d else x)) es

  unfoldable pub free_percent : Disk N → N
  unfolding or_default
  free_percent d =
      let total = or_default d.total (F.of_nat 1) in
      if F.lt (F.of_nat 0) total
      then F.multiply (F.divide (or_default d.free (F.of_nat 0)) total) (F.of_nat 100)
      else F.of_nat 100

  -- The loop of `disk_free`.
  unfoldable pub min_free : Option N → List (Entry N) → Option N
  unfolding free_percent
  min_free best [] = best
  min_free best (not_a_dict ∷ es) = min_free best es
  min_free none (dict d ∷ es) = min_free (some (free_percent d)) es
  min_free (some x) (dict d ∷ es) =
      min_free (some (if F.lt (free_percent d) x then free_percent d else x)) es

  -- What `if disks:` lets through, as the entries that a loop over it meets; a number has none.
  unfoldable pub entries : Option (Value N) → Evaluated (List (Entry N))
  entries none = value []
  entries (some null) = value []
  entries (some (number x)) = if F.eq x (F.of_nat 0) then value [] else raised
  entries (some (text s)) = value (if str_eq s "" then [] else not_a_dict ∷ [])
  entries (some (list es)) = value es

  -- `metrics.get('disk_usage', metrics.get('disks', []))`
  unfoldable pub disks : Dict (Value N) → Evaluated (List (Entry N))
  unfolding entries
  disks metrics = elim (lookup "disk_usage" metrics) [
    | none ↦ entries (lookup "disks" metrics)
    | some v ↦ entries (some v)
  ]

  as_value : Option N → Value N
  as_value none = null
  as_value (some x) = number x

  -- The branch `disk`: `max` of no number raises.
  unfoldable pub disk_value : Evaluated (List (Entry N)) → Evaluated (Value N)
  unfolding max_used as_value
  disk_value raised = raised
  disk_value (value []) = value null
  disk_value (value (e ∷ es)) = elim (max_used none (e ∷ es)) [
    | none ↦ raised
    | some x ↦ value (number x)
  ]

  unfoldable pub disk_free_value : Evaluated (List (Entry N)) → Evaluated (Value N)
  unfolding min_free as_value
  disk_free_value raised = raised
  disk_free_value (value es) = value (as_value (min_free none es))

  -- `metrics.get(key, 0) / 1_000_000`
  unfoldable pub megabits : Option (Value N) → Option N
  megabits none = some (F.divide (F.of_nat 0) (F.of_nat 1000000))
  megabits (some (number x)) = some (F.divide x (F.of_nat 1000000))
  megabits (some null) = none
  megabits (some (text s)) = none
  megabits (some (list es)) = none

  unfoldable pub bandwidth : Option N → Option N → Evaluated (Value N)
  bandwidth (some up) (some down) = value (number (if F.lt up down then down else up))
  bandwidth (some up) none = raised
  bandwidth none down = raised

  unfoldable pub or_null : Option (Value N) → Value N
  or_null none = null
  or_null (some v) = v

  -- The value that a metric's name stands for.
  unfoldable pub metric_value : String → Dict (Value N) → Evaluated (Value N)
  unfolding disk_value disk_free_value disks bandwidth megabits or_null
  metric_value key metrics =
      if str_eq key "cpu"
      then value (or_null (lookup "cpu_percent" metrics))
      else if str_eq key "ram"
      then value (or_null (lookup "ram_percent" metrics))
      else if str_eq key "disk"
      then disk_value (disks metrics)
      else if str_eq key "disk_free"
      then disk_free_value (disks metrics)
      else if str_eq key "cpu_temp"
      then value (or_null (lookup "cpu_temp" metrics))
      else if str_eq key "net_bandwidth"
      then bandwidth (megabits (lookup "net_up" metrics)) (megabits (lookup "net_down" metrics))
      else value null

  -- The end of both evaluations; a null compares false, as the test for `None` answers.
  unfoldable pub compare_found : Rule → Evaluated (Value N) → Evaluated Bool
  unfolding compare_values
  compare_found rule raised = raised
  compare_found rule (value v) = value (compare_values v rule.operator rule.threshold)

  -- `_evaluate_metric_rule`
  unfoldable pub evaluate_metric_rule : Rule → Dict (Value N) → Evaluated Bool
  unfolding metric_value compare_found
  evaluate_metric_rule rule metrics = compare_found rule (metric_value rule.metric metrics)

  -- `check_result.get('status') == 0`
  unfoldable pub is_down : Option (Value N) → Bool
  is_down none = false
  is_down (some null) = false
  is_down (some (number x)) = F.eq x (F.of_nat 0)
  is_down (some (text s)) = false
  is_down (some (list es)) = false

  unfoldable pub failures_value : Option (Value N) → Value N
  failures_value none = number (F.of_nat 1)
  failures_value (some v) = v

  -- `_evaluate_bookmark_rule`
  unfoldable pub evaluate_bookmark_rule : Rule → Dict (Value N) → Evaluated Bool
  unfolding is_down failures_value compare_found or_null
  evaluate_bookmark_rule rule result =
      if str_eq rule.metric "status"
      then if is_down (lookup "status" result)
        then compare_found rule (value (failures_value (lookup "consecutive_failures" result)))
        else value false
      else if str_eq rule.metric "response_time"
      then compare_found rule (value (or_null (lookup "latency_ms" result)))
      else if str_eq rule.metric "ssl_expiry"
      then compare_found rule (value (or_null (lookup "ssl_days_remaining" result)))
      else value false
