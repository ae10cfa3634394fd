-- ===== src/Alerts/Skipping.antt =====
-- What a rule that raises does to the rules behind it.
use log_librarian.Prelude.{
  ◌≡◌, refl, ap, ◌∙◌, String, Bool, true, false, none, some, List, [], ◌∷◌, ◌++◌, ℕ, inl, inr,
  if◌then◌else◌, ◌⊎◌,
}
use log_librarian.Prelude.Dict.{Dict, lookup}
use log_librarian.Alerts.Rules.{
  Floats, Entry, not_a_dict, Value, list, Rule, Evaluated, value, raised, max_used, disks, entries,
  disk_value, metric_value, compare_found, evaluate_metric_rule,
}
use log_librarian.Alerts.Engine.{Outside, trigger_alert, check_rules}

Evaluated-cases : (r : Evaluated Bool) → (r ≡ raised) ⊎ (r ≡ value false) ⊎ (r ≡ value true)
Evaluated-cases raised = inl refl
Evaluated-cases (value false) = inr (inl refl)
Evaluated-cases (value true) = inr (inr refl)

module _ {W N : Type 0} (O : Outside W) (F : Floats N) (print : Value N → String) where
  raise_skips :
      (evaluate : Rule → Evaluated Bool) (target_type target_id : String) (context : Dict (Value N))
      (tenant : String) (before : List Rule) (r : Rule) (after : List Rule) (cooldowns : Dict ℕ)
      (w : W)
      → evaluate r ≡ raised
      → check_rules O F print evaluate target_type target_id context tenant
          (before ++ r ∷ after)
          cooldowns
          w
        ≡ check_rules O F print evaluate target_type target_id context tenant before cooldowns w
  unfolding check_rules
  raise_skips evaluate target_type target_id context tenant [] r after cooldowns w h = rw h refl
  raise_skips evaluate target_type target_id context tenant (b ∷ before) r after cooldowns w h =
      let next = trigger_alert O F print b target_type target_id context tenant cooldowns w in
      let later = raise_skips evaluate target_type target_id context tenant before r after in
      elim (Evaluated-cases (evaluate b)) [
        | inl e ↦ rw (e, check_rules) refl
        | inr (inl e) ↦ rw (e, check_rules) (later cooldowns w h)
        | inr (inr e) ↦
            rw (e, check_rules)
              (ap (λ rest. if next.0 then rest else (next.1, next.2)) (later next.1 next.2 h))
      ]

  disks_found :
      (metrics : Dict (Value N)) (es : List (Entry N))
      → lookup "disk_usage" metrics ≡ some (list es)
      → disks F metrics ≡ value es
  unfolding disks entries
  disks_found metrics es l = rw (l, disks) refl

  disk_value_raises :
      (es : List (Entry N))
      → max_used F none es ≡ none
      → disk_value F (value (not_a_dict ∷ es)) ≡ raised
  unfolding disk_value max_used
  disk_value_raises es h = rw (h, disk_value) refl

  -- A rule on `disk` raises where the metrics hold a list of disks with no dictionary in it.
  disk_raises :
      (r : Rule) (metrics : Dict (Value N)) (es : List (Entry N))
      → r.metric ≡ "disk"
      → lookup "disk_usage" metrics ≡ some (list (not_a_dict ∷ es))
      → max_used F none es ≡ none
      → evaluate_metric_rule F r metrics ≡ raised
  unfolding evaluate_metric_rule compare_found
  disk_raises r metrics es m l h = ap (compare_found F r) (
      ap (λ key. metric_value F key metrics) m
      ∙ (unfold metric_value in ap (disk_value F) (disks_found metrics (not_a_dict ∷ es) l))
      ∙ disk_value_raises es h)

  -- A rule on `disk`, met with metrics whose list of disks has entries but no dictionary, ends the
  -- check of the agent: the rules behind it change neither a cooldown nor the world outside, as if
  -- the list of rules ended in front of it.
  pub disk_rule_hides_later :
      (agent_id tenant : String) (metrics : Dict (Value N)) (es : List (Entry N))
      (before : List Rule) (r : Rule) (after : List Rule) (cooldowns : Dict ℕ) (w : W)
      → r.metric ≡ "disk"
      → lookup "disk_usage" metrics ≡ some (list (not_a_dict ∷ es))
      → max_used F none es ≡ none
      → check_rules O F print
          (λ x. evaluate_metric_rule F x metrics)
          "agent"
          agent_id
          metrics
          tenant
          (before ++ r ∷ after)
          cooldowns
          w
        ≡ check_rules O F print
            (λ x. evaluate_metric_rule F x metrics)
            "agent"
            agent_id
            metrics
            tenant
            before
            cooldowns
            w
  disk_rule_hides_later agent_id tenant metrics es before r after cooldowns w m l h =
      raise_skips (λ x. evaluate_metric_rule F x metrics) "agent" agent_id metrics tenant before r
        after cooldowns w (disk_raises r metrics es m l h)
