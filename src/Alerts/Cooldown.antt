-- ===== src/Alerts/Cooldown.antt =====
-- The cooldowns of alerts over a sequence of attempts to trigger them, in whatever order they come.
use log_librarian.Prelude.{
  ℕ, ◌+◌, ◌≤◌, refl, ap, String, none, some, List, [], ◌∷◌, arith, ltb, if◌then◌else◌, str_eq,
  eq_iff, Bool-cases, inl, inr, ◌∙◌,
}
use mathlib.Core.Path.{subst}
use log_librarian.Prelude.Dict.{Dict, insert, get_or, get_or-insert}
use log_librarian.Alerts.Rules.{Rule}
use log_librarian.Alerts.Engine.{cooldown_seconds, cooldown_key, cool_down}

-- A call of `_trigger_alert`.
pub record Attempt : Type 0 where
  pub now : ℕ
  pub rule : Rule
  pub target_type : String
  pub target_id : String

-- The times at which alerts of a cooldown key go out, each with its rule's cooldown.
unfoldable pub fired : String → List Attempt → Dict ℕ → List (ℕ × ℕ)
unfolding cool_down
fired key [] cooldowns = []
fired key (a ∷ attempts) cooldowns =
    let own = cooldown_key a.rule a.target_type a.target_id in
    elim (cool_down a.now (cooldown_seconds a.rule) own cooldowns) [
      | none ↦ fired key attempts cooldowns
      | some next ↦
          let rest = fired key attempts next in
          if str_eq own key then (a.now, cooldown_seconds a.rule) ∷ rest else rest
    ]

-- Each alert comes at least its cooldown after the alert before it.
abbrev pub IsSpaced : ℕ → List (ℕ × ℕ) → Type 0
IsSpaced last [] = Unit
IsSpaced last ((now, seconds) ∷ times) = (last + seconds ≤ now) × IsSpaced now times

-- In every sequence of attempts, for whatever rules and targets and at whatever times, the alerts
-- of one cooldown key go out at times that are at least the cooldown of the later alert's rule
-- apart, and the first at least its cooldown after the time that the engine has for the key.
pub cooldown_respected :
    (key : String) (attempts : List Attempt) (cooldowns : Dict ℕ)
    → IsSpaced (get_or key cooldowns 0) (fired key attempts cooldowns)
unfolding fired cool_down
cooldown_respected key [] cooldowns = tt
cooldown_respected key (a ∷ attempts) cooldowns =
    let own = cooldown_key a.rule a.target_type a.target_id in
    let seconds = cooldown_seconds a.rule in
    let next : Dict ℕ = insert own a.now cooldowns in
    let later = cooldown_respected key attempts next in
    elim (Bool-cases (ltb a.now (get_or own cooldowns 0 + seconds))) [
      | inl e ↦ rw (e, fired, cool_down) (cooldown_respected key attempts cooldowns)
      | inr e ↦ elim (Bool-cases (str_eq own key)) [
        | inl same ↦
            rw (e, fired, cool_down, same)
              (
                ground (arith, ap (λ k. get_or k cooldowns 0) ((eq_iff own key).0 same)),
                subst (λ t. IsSpaced t (fired key attempts next))
                    (get_or-insert own key a.now 0 cooldowns ∙ rw same refl) later,
              )
        | inr other ↦
            rw (e, fired, cool_down, other)
              (subst (λ t. IsSpaced t (fired key attempts next))
                (get_or-insert own key a.now 0 cooldowns ∙ rw other refl) later)
      ]
    ]
