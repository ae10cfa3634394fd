-- ===== src/Alerts/Engine.antt =====
-- `AlertEngine` of librarian/alert_engine.py: cooldowns, notifications, and the checks that start
-- them. `W` is the world outside, with the clock, the database and Apprise.
use Prim.Native.String.{◌++◌}
use log_librarian.Prelude.{
  str_eq, ◌||◌, ℕ, ◌+◌, ◌*◌, String, Bool, true, false, Option, none, some, List, [], ◌∷◌, ltb,
  ◌==◌, keep_if, if◌then◌else◌,
}
use log_librarian.Prelude.Dict.{Dict, insert, get_or}
use log_librarian.Prelude.Text.{str_nat}
use log_librarian.Alerts.Rules.{
  number, text, Floats, Value, Rule, Evaluated, value, raised, evaluate_metric_rule,
  evaluate_bookmark_rule,
}
use log_librarian.Alerts.Messages.{format_alert_message}

pub record Channel : Type 0 where
  pub id : ℕ
  pub url : String

-- The arguments of `add_notification_history`; `error` is none where the code passes `None`.
pub record History : Type 0 where
  pub channel_id : ℕ
  pub event_type : String
  pub title : String
  pub body : String
  pub status : String
  pub error : Option String

-- What a call of `async_notify` ends with.
pub data Notified : Type 0 where
  answered : Bool → Notified
  failed : String → Notified

-- What the engine uses of other libraries and of the database. Where a call may raise, its answer
-- is none, or the exception's message for `add_history`.
pub record Outside (W : Type 0) : Type 0 where
  pub now : W → ℕ
  pub apprise_available : Bool
  pub effective_rules : String → String → String → W → Option (List Rule)
  pub notification_channels : String → W → Option (List Channel)
  pub notify : String → String → String → W → Notified × W
  pub add_history : History → W → Option String × W

-- `(rule.get('cooldown_minutes', 5) or 5) * 60`
unfoldable pub cooldown_seconds : Rule → ℕ
cooldown_seconds rule = elim rule.cooldown_minutes [
  | none ↦ 300
  | some m ↦ if m == 0 then 300 else m * 60
]

unfoldable pub cooldown_key : Rule → String → String → String
cooldown_key rule target_type target_id = str_nat rule.id ++ "_" ++ target_type ++ "_" ++ target_id

-- The start of `_trigger_alert`, with no `await` in it: the new cooldowns, or none if the alert is
-- suppressed.
unfoldable pub cool_down : ℕ → ℕ → String → Dict ℕ → Option (Dict ℕ)
cool_down now seconds key cooldowns =
    if ltb now (get_or key cooldowns 0 + seconds) then none else some (insert key now cooldowns)

unfoldable pub is_member : ℕ → List ℕ → Bool
is_member n [] = false
is_member n (m ∷ ms) = let rest = is_member n ms in if m == n then true else rest

module _ {W : Type 0} (O : Outside W) where
  -- The `except` of the loop of `_send_to_channels`; false if the history raises too.
  unfoldable pub record_failure : String → String → String → ℕ → String → W → Bool × W
  record_failure event title body id message w =
      let (r, w') =
        O.add_history
          (record {
            channel_id = id;
            event_type = event;
            title = title;
            body = body;
            status = "failed";
            error = some message;
          })
          w in
      elim r [ none ↦ (true, w') | some _ ↦ (false, w') ]

  -- The history that follows an answer of Apprise.
  unfoldable pub record_answer : String → String → String → ℕ → Bool → W → Bool × W
  unfolding record_failure
  record_answer event title body id success w =
      let (r, w') =
        O.add_history
          (record {
            channel_id = id;
            event_type = event;
            title = title;
            body = body;
            status = if success then "sent" else "failed";
            error = if success then none else some "Send failed";
          })
          w in
      elim r [ none ↦ (true, w') | some message ↦ record_failure event title body id message w' ]

  -- The `try` of the loop, for a channel of the database, which has a name to print.
  unfoldable pub send_to_channel : String → String → String → Channel → W → Bool × W
  unfolding record_answer record_failure
  send_to_channel event title body channel w =
      let (r, w') = O.notify channel.url title body w in
      elim r [
        | answered success ↦ record_answer event title body channel.id success w'
        | failed message ↦ record_failure event title body channel.id message w'
      ]

  unfoldable pub send_each : String → String → String → List Channel → W → Bool × W
  unfolding send_to_channel
  send_each event title body [] w = (true, w)
  send_each event title body (c ∷ cs) w =
      let (ok, w') = send_to_channel event title body c w in
      let rest = send_each event title body cs w' in if ok then rest else (false, w')

  unfoldable pub chosen : List ℕ → List Channel → List Channel
  unfolding is_member
  chosen ids channels = keep_if (λ c. is_member c.id ids) channels

  -- `_send_to_channels`; false if it raises.
  unfoldable pub send_to_channels : List ℕ → String → String → String → String → W → Bool × W
  unfolding send_each chosen
  send_to_channels [] title body tenant rule_name w = (true, w)
  send_to_channels (i ∷ is) title body tenant rule_name w =
      if O.apprise_available
      then elim (O.notification_channels tenant w) [
        | none ↦ (false, w)
        | some all_channels ↦
            send_each ("alert:" ++ rule_name) title body (chosen (i ∷ is) all_channels) w
      ]
      else (true, w)

  module _ {N : Type 0} (F : Floats N) (print : Value N → String) where
    -- `_trigger_alert`: the flag is false if it raises, which is after the cooldown is set.
    unfoldable pub trigger_alert :
        Rule → String → String → Dict (Value N) → String → Dict ℕ → W → Bool × Dict ℕ × W
    unfolding cool_down send_to_channels format_alert_message
    trigger_alert rule target_type target_id context tenant cooldowns w =
        elim (cool_down (O.now w) (cooldown_seconds rule) (cooldown_key rule target_type target_id)
          cooldowns) [
            | none ↦ (true, cooldowns, w)
            | some cooldowns' ↦
                (let (title, body) =
                    format_alert_message print rule target_type target_id context in
                  let (ok, w') = send_to_channels rule.channels title body tenant rule.name w in
                  (ok, cooldowns', w'))
          ]

    -- The loop of a check, in its `try`: what `evaluate` or `_trigger_alert` raises ends it.
    unfoldable pub check_rules :
        (Rule → Evaluated Bool)
        → String
        → String
        → Dict (Value N)
        → String
        → List Rule
        → Dict ℕ
        → W
        → Dict ℕ × W
    check_rules evaluate target_type target_id context tenant [] cooldowns w = (cooldowns, w)
    check_rules evaluate target_type target_id context tenant (r ∷ rs) cooldowns w =
        elim (evaluate r) [
          | raised ↦ (cooldowns, w)
          | value false ↦ check_rules evaluate target_type target_id context tenant rs cooldowns w
          | value true ↦
              (let (ok, cooldowns', w') =
                  trigger_alert r target_type target_id context tenant cooldowns w in
                let rest =
                  check_rules evaluate target_type target_id context tenant rs cooldowns' w' in
                if ok then rest else (cooldowns', w'))
        ]

    -- `_get_effective_rules`
    unfoldable pub get_effective_rules : String → String → String → W → List Rule
    get_effective_rules target_type target_id tenant w =
        elim (O.effective_rules target_type target_id tenant w) [ none ↦ [] | some rs ↦ rs ]

    -- `check_agent_metrics`
    unfoldable pub check_agent_metrics : String → Dict (Value N) → String → Dict ℕ → W → Dict ℕ × W
    unfolding check_rules get_effective_rules
    check_agent_metrics agent_id metrics tenant cooldowns w =
        check_rules (λ r. evaluate_metric_rule F r metrics) "agent" agent_id metrics tenant
          (get_effective_rules "agent" agent_id tenant w) cooldowns w

    -- `check_bookmark_status`, where the result has no key `bookmark_name` that would hide the name.
    unfoldable pub check_bookmark_status :
        String → Value N → Dict (Value N) → String → Dict ℕ → W → Dict ℕ × W
    unfolding check_rules get_effective_rules
    check_bookmark_status bookmark_id bookmark_name result tenant cooldowns w =
        check_rules (λ r. evaluate_bookmark_rule F r result) "bookmark" bookmark_id
          (("bookmark_name", bookmark_name) ∷ result) tenant
          (get_effective_rules "bookmark" bookmark_id tenant w) cooldowns w

    -- The test of `check_agent_offline`: a threshold that is no number raises.
    unfoldable pub evaluate_offline : ℕ → Rule → Evaluated Bool
    evaluate_offline offline_seconds rule =
        if str_eq rule.metric "status"
        then elim (F.parse rule.threshold) [
          | none ↦ raised
          | some t ↦ value (F.lt t (F.of_nat offline_seconds) || F.eq (F.of_nat offline_seconds) t)
        ]
        else value false

    -- `check_agent_offline`
    unfoldable pub check_agent_offline : String → String → ℕ → String → Dict ℕ → W → Dict ℕ × W
    unfolding check_rules get_effective_rules evaluate_offline
    check_agent_offline agent_id hostname offline_seconds tenant cooldowns w =
        check_rules (λ r. evaluate_offline offline_seconds r) "agent" agent_id
          (("hostname", text hostname)
            ∷ ("offline_seconds", number (F.of_nat offline_seconds))
            ∷ ("status", text "offline")
            ∷ [])
          tenant (get_effective_rules "agent" agent_id tenant w) cooldowns w
