-- ===== src/Alerts/Examples.antt =====
-- The alert theorems at concrete rules, and runs of the code.
use log_librarian.Prelude.{
  ℕ, ◌*◌, ◌/◌, ◌≡◌, refl, String, true, none, some, List, [], ◌∷◌, ◌++◌, ltb, ◌==◌, str_eq,
  if◌then◌else◌,
}
use log_librarian.Prelude.Dict.{Dict, lookup, get_or, insert}
use log_librarian.Prelude.Text.{str_nat}
use log_librarian.Alerts.Rules.{
  Floats, not_a_dict, Value, null, number, text, list, Rule, value, max_used, evaluate_metric_rule,
}
use log_librarian.Alerts.Engine.{
  Channel, History, answered, failed, Outside, send_each, check_rules, cooldown_seconds,
  cooldown_key,
}
use log_librarian.Alerts.Cooldown.{Attempt, fired, IsSpaced, cooldown_respected}
use log_librarian.Alerts.History.{IsLogged, ids, channel_ids, records_every_channel}
use log_librarian.Alerts.Skipping.{disk_rule_hides_later}

-- Whole numbers for Python's floats.
abbrev numbers : Floats ℕ
numbers = record {
  of_nat = λ n. n;
  lt = ltb;
  eq = λ a b. a == b;
  divide = λ a b. a / b;
  multiply = λ a b. a * b;
  parse = λ s. if str_eq s "90" then some 90 else none;
}

abbrev print : Value ℕ → String
print null = "None"
print (number n) = str_nat n
print (text s) = s
print (list es) = "[...]"

abbrev cpu_rule : Rule
cpu_rule = record {
  id = 1;
  name = "High CPU";
  metric = "cpu";
  operator = "gt";
  threshold = "90";
  cooldown_minutes = some 2;
  channels = 7 ∷ 8 ∷ [];
}

abbrev disk_rule : Rule
disk_rule = record cpu_rule { id = 2; name = "Disk full"; metric = "disk" }

abbrev email : Channel
email = record { id = 7; url = "mailto://ops" }

abbrev webhook : Channel
webhook = record { id = 8; url = "https://hook" }

-- A world that is its notification history; the webhook cannot be reached.
abbrev world : Outside (List History)
world = record {
  now = λ w. 1000;
  apprise_available = true;
  effective_rules = λ kind target tenant w. some (disk_rule ∷ cpu_rule ∷ []);
  notification_channels = λ tenant w. some (email ∷ webhook ∷ []);
  notify = λ url title body w.
      (if str_eq url "https://hook" then failed "refused" else answered true, w);
  add_history = λ h w. (none, w ++ h ∷ []);
}

world-IsLogged : IsLogged world (λ w. w)
world-IsLogged = record {
  writes = λ h w. refl;
  adds = λ h w. refl;
  notifies = λ url title body w. refl;
}

abbrev hot_metrics : Dict (Value ℕ)
hot_metrics = ("cpu_percent", number 97) ∷ ("disk_usage", list (not_a_dict ∷ [])) ∷ []

abbrev at_time : ℕ → Attempt
at_time t = record { now = t; rule = cpu_rule; target_type = "agent"; target_id = "web" }

abbrev attempts : List Attempt
attempts = at_time 1000 ∷ at_time 1060 ∷ at_time 1120 ∷ at_time 1239 ∷ []

evaluate_lem : evaluate_metric_rule numbers cpu_rule hot_metrics ≡ value true
unfolding evaluate_metric_rule lookup
evaluate_lem = refl

attempts_lem : fired "1_agent_web" attempts [] ≡ (1000, 120) ∷ (1120, 120) ∷ []
unfolding fired get_or cooldown_seconds cooldown_key str_nat insert
attempts_lem = refl

cooldown_respected_example : IsSpaced (get_or "1_agent_web" [] 0) (fired "1_agent_web" attempts [])
cooldown_respected_example = cooldown_respected "1_agent_web" attempts []

records_every_channel_example :
    ((send_each world "alert:High CPU" "Alert" "Hot" (email ∷ webhook ∷ []) []).0 ≡ true)
    × (ids (send_each world "alert:High CPU" "Alert" "Hot" (email ∷ webhook ∷ []) []).1
        ≡ ids [] ++ channel_ids (email ∷ webhook ∷ []))
records_every_channel_example =
    records_every_channel world (λ w. w) world-IsLogged "alert:High CPU" "Alert" "Hot"
      (email ∷ webhook ∷ []) []

found : lookup "disk_usage" hot_metrics ≡ some (list (not_a_dict ∷ []))
unfolding lookup
found = refl

no_disk : max_used numbers none [] ≡ none
unfolding max_used
no_disk = refl

disk_rule_hides_later_example :
    check_rules world numbers print
      (λ x. evaluate_metric_rule numbers x hot_metrics)
      "agent"
      "web"
      hot_metrics
      "default"
      ([] ++ disk_rule ∷ cpu_rule ∷ [])
      []
      []
    ≡ check_rules world numbers print
        (λ x. evaluate_metric_rule numbers x hot_metrics)
        "agent"
        "web"
        hot_metrics
        "default"
        []
        []
        []
disk_rule_hides_later_example =
    disk_rule_hides_later world numbers print "web" "default" hot_metrics [] [] disk_rule
      (cpu_rule ∷ []) [] [] refl found no_disk
