-- ===== src/Retention/Settings.antt =====
-- The state of `RetentionManager` of librarian/retention_manager.py, and the settings that it loads
-- from the database. Retention periods are seconds; `F` is the type of Python's floats.
use log_librarian.Prelude.{ℕ, ◌*◌, String, Bool, false, Option, none, some, [], ◌∷◌, List}
use log_librarian.Prelude.{str_eq, if◌then◌else◌}
use log_librarian.Prelude.Dict.{Dict, insert}

pub record CleanupResult : Type 0 where
  pub table_name : String
  pub rows_deleted : ℕ
  pub duration_ms : ℕ
  pub error : Option String

pub record RetentionRunResult : Type 0 where
  pub run_timestamp : ℕ
  pub total_rows_deleted : ℕ
  pub total_duration_ms : ℕ
  pub cleanup_results : List CleanupResult

-- The manager, with the module's `MIN_FREE_SPACE_GB`, that its settings overwrite.
pub record RetentionManager (F : Type 0) : Type 0 where
  pub running : Bool
  pub last_run : Option RetentionRunResult
  pub max_storage_gb : F
  pub size_cleanup_batch : ℕ
  pub retention_policies : Dict ℕ
  pub min_free_space_gb : F

abbrev pub hours : ℕ → ℕ
hours n = n * 3600

abbrev pub days : ℕ → ℕ
days n = n * 86400

-- `DEFAULT_RETENTION_POLICIES`
abbrev pub default_retention_policies : Dict ℕ
default_retention_policies =
    ("metrics", hours 48)
    ∷ ("metrics_1min", days 7)
    ∷ ("metrics_15min", days 30)
    ∷ ("metrics_1hour", days 365)
    ∷ ("raw_logs", days 7)
    ∷ ("log_occurrences", days 30)
    ∷ ("process_snapshots", days 7)
    ∷ ("ai_briefings", days 90)
    ∷ ("ai_chat", days 30)
    ∷ []

module _ {F : Type 0} where
  unfoldable pub with_policy : String → ℕ → RetentionManager F → RetentionManager F
  with_policy name period m = record m {
    retention_policies = insert name period m.retention_policies;
  }

  -- What one setting does: none where it raises, the same manager where its text is empty.
  unfoldable pub apply_setting :
      {V : Type 0}
      → (String → Option V)
      → (V → RetentionManager F → RetentionManager F)
      → String
      → RetentionManager F
      → Option (RetentionManager F)
  apply_setting parse change text m =
      if str_eq text ""
      then some m
      else elim (parse text) [ none ↦ none | some v ↦ some (change v m) ]

-- A setting: its name, and what its text does to the manager.
abbrev pub Setting : Type 0 → Type 0
Setting F = String × (String → RetentionManager F → Option (RetentionManager F))

-- `parse_float` and `parse_int` are Python's `float` and `int` on a text, none where they raise;
-- `get_system_setting` reads the database, none where it raises.
module _ {F : Type 0} (parse_float : String → Option F) (parse_int : String → Option ℕ)
    (get_system_setting : String → Option String) where
  unfoldable pub policy_setting : String → String → (ℕ → ℕ) → Setting F
  unfolding apply_setting with_policy
  policy_setting name policy seconds =
      (name, λ text m. apply_setting parse_int (λ n m'. with_policy policy (seconds n) m') text m)

  -- The settings, in the order of their loading.
  unfoldable pub settings : List (Setting F)
  unfolding policy_setting apply_setting
  settings =
      (
        "max_storage_gb",
        λ text m. apply_setting parse_float (λ gb m'. record m' { max_storage_gb = gb }) text m,
      )
      ∷ (
        "min_free_space_gb",
        λ text m. apply_setting parse_float (λ gb m'. record m' { min_free_space_gb = gb }) text m,
      )
      ∷ policy_setting "retention_raw_logs_days" "raw_logs" days
      ∷ policy_setting "retention_metrics_hours" "metrics" hours
      ∷ policy_setting "retention_process_snapshots_days" "process_snapshots" days
      ∷ policy_setting "retention_ai_briefings_days" "ai_briefings" days
      ∷ policy_setting "retention_ai_chat_days" "ai_chat" days
      ∷ []

  -- The body of the `try`: the first setting that raises ends it, and what was set stays.
  unfoldable pub load_each : List (Setting F) → RetentionManager F → RetentionManager F
  load_each [] m = m
  load_each ((name, change) ∷ rest) m = elim (get_system_setting name) [
    | none ↦ m
    | some text ↦ elim (change text m) [ none ↦ m | some m' ↦ load_each rest m' ]
  ]

  -- `_load_settings_from_db`
  unfoldable pub load_settings_from_db : RetentionManager F → RetentionManager F
  unfolding load_each settings
  load_settings_from_db m = load_each settings m

  -- `__init__`, for the values of the environment
  unfoldable pub new_manager : F → ℕ → F → RetentionManager F
  unfolding load_settings_from_db
  new_manager max_storage_gb size_cleanup_batch min_free_space_gb = load_settings_from_db (record {
    running = false;
    last_run = none;
    max_storage_gb = max_storage_gb;
    size_cleanup_batch = size_cleanup_batch;
    retention_policies = default_retention_policies;
    min_free_space_gb = min_free_space_gb;
  })
