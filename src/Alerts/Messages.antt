-- ===== src/Alerts/Messages.antt =====
-- `AlertEngine._format_alert_message`. `print` is what an f-string makes of a value.
use Prim.Native.String.{◌++◌}
use log_librarian.Prelude.{String, none, some, if◌then◌else◌, str_eq}
use log_librarian.Prelude.Dict.{Dict, lookup}
use log_librarian.Alerts.Rules.{Rule, Value}

-- `op_symbols.get(operator, operator)`
unfoldable pub op_symbol : String → String
op_symbol operator =
    if str_eq operator "gt"
    then ">"
    else if str_eq operator "lt"
    then "<"
    else if str_eq operator "eq"
    then "="
    else if str_eq operator "ne"
    then "≠"
    else if str_eq operator "gte"
    then "≥"
    else if str_eq operator "lte"
    then "≤"
    else operator

module _ {N : Type 0} (print : Value N → String) where
  -- `context.get(key, default)`, printed
  unfoldable pub shown : String → String → Dict (Value N) → String
  shown key default context = elim (lookup key context) [ none ↦ default | some v ↦ print v ]

  agent_body : Rule → String → Dict (Value N) → String
  unfolding shown op_symbol
  agent_body rule target_id context =
      let hostname = shown "hostname" target_id context in
      let metric = rule.metric in
      if str_eq metric "status"
      then "Agent '"
        ++ hostname
        ++ "' is offline.\n"
        ++ "Offline for: "
        ++ shown "offline_seconds" "0" context
        ++ " seconds"
      else "Agent '"
        ++ hostname
        ++ "' triggered alert '"
        ++ rule.name
        ++ "'.\nMetric: "
        ++ metric
        ++ "\nCondition: "
        ++ op_symbol rule.operator
        ++ " "
        ++ rule.threshold
        ++ "\nCurrent Value: "
        ++ shown (metric ++ "_percent") (shown metric "N/A" context) context

  bookmark_body : Rule → String → Dict (Value N) → String
  unfolding shown op_symbol
  bookmark_body rule target_id context =
      let bookmark_name = shown "bookmark_name" target_id context in
      let condition = op_symbol rule.operator ++ " " ++ rule.threshold in
      if str_eq rule.metric "status"
      then "Bookmark '"
        ++ bookmark_name
        ++ "' is DOWN.\nMessage: "
        ++ shown "message" "No response" context
        ++ "\nConsecutive failures: "
        ++ shown "consecutive_failures" "1" context
      else if str_eq rule.metric "response_time"
      then "Bookmark '"
        ++ bookmark_name
        ++ "' response time alert.\nLatency: "
        ++ shown "latency_ms" "N/A" context
        ++ " ms\nThreshold: "
        ++ condition
        ++ " ms"
      else if str_eq rule.metric "ssl_expiry"
      then "Bookmark '"
        ++ bookmark_name
        ++ "' SSL certificate expiring soon.\nDays remaining: "
        ++ shown "ssl_days_remaining" "N/A" context
        ++ "\nThreshold: "
        ++ condition
        ++ " days"
      else "Bookmark '" ++ bookmark_name ++ "' triggered alert.\nMetric: " ++ rule.metric
        ++ ", Threshold: " ++ condition

  unfoldable pub body : Rule → String → String → Dict (Value N) → String
  unfolding agent_body bookmark_body op_symbol
  body rule target_type target_id context =
      if str_eq target_type "agent"
      then agent_body rule target_id context
      else if str_eq target_type "bookmark"
      then bookmark_body rule target_id context
      else "Target: "
        ++ target_id
        ++ "\nMetric: "
        ++ rule.metric
        ++ "\nThreshold: "
        ++ op_symbol rule.operator
        ++ " "
        ++ rule.threshold

  -- `_format_alert_message`: the title and the body.
  unfoldable pub format_alert_message : Rule → String → String → Dict (Value N) → String × String
  unfolding body
  format_alert_message rule target_type target_id context =
      ("Alert: " ++ rule.name, body rule target_type target_id context)
