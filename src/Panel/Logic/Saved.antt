-- ===== src/Panel/Logic/Saved.antt =====
-- What the dialog of a rule saves: exactly what breaks none of its rules.
use mqtt_dashboard.Prelude.{
  ◌≡◌, refl, sym, ap, ◌∙◌, false, List, Option, none, some, any, or_default, inl, inr, arith,
  is_some, Option-cases,
}
use mqtt_dashboard.Prelude.Text.{Text, is_empty, trim}
use mqtt_dashboard.Json.Runtime.{Runtime}
use mqtt_dashboard.Config.{ConfigRule, broker_rules, use_config_validation, is_wild}
use mqtt_dashboard.Config.Errors.{use_config_validation-blocker}
use mqtt_dashboard.Panel.Logic.Rule.{
  LogicConfig, RuleForm, primary_topic, primary_broker, loop_conflict, rule_rules, final_config,
  handle_save,
}

has_blocker :
    (rules : List ConfigRule)
    → is_some (use_config_validation rules).blocker_reason
      ≡ (use_config_validation rules).save_disabled
unfolding use_config_validation
has_blocker rules = refl

no_blocker :
    (rules : List ConfigRule)
    → (use_config_validation rules).blocker_reason ≡ none
    → any (λ r. r.when) rules ≡ false
no_blocker rules e =
    sym (use_config_validation-blocker rules).1 ∙ sym (has_blocker rules) ∙ ap is_some e

pub no_broken :
    (R : Runtime) (f : RuleForm)
    → any (λ r. r.when) (rule_rules R f) ≡ false
    → (loop_conflict f ≡ false)
      × (is_empty (primary_topic f) ≡ false)
      × (is_empty (trim f.target_topic) ≡ false)
      × (is_wild (trim f.target_topic) ≡ false)
unfolding rule_rules broker_rules
no_broken R f h = (ground arith, ground arith, ground arith, ground arith)

no_message : (o : Option Text) → is_some o ≡ false → o ≡ none
no_message none h = refl
no_message (some m) h = cc

-- A rule that breaks none is saved.
pub rules-handle_save :
    (R : Runtime) (f : RuleForm)
    → any (λ r. r.when) (rule_rules R f) ≡ false
    → handle_save R f ≡ some (final_config R f, primary_broker f)
unfolding handle_save
rules-handle_save R f h = rw (blocker_free (rule_rules R f) h, handle_save) refl
  where
    blocker_free :
        (rules : List ConfigRule)
        → any (λ r. r.when) rules ≡ false
        → (use_config_validation rules).blocker_reason ≡ none
    blocker_free rules h =
        no_message (use_config_validation rules).blocker_reason
          (has_blocker rules ∙ (use_config_validation-blocker rules).1 ∙ h)

-- What is saved breaks no rule.
pub handle_save-valid :
    (R : Runtime) (f : RuleForm) (r : LogicConfig × Text)
    → handle_save R f ≡ some r
    → (any (λ r. r.when) (rule_rules R f) ≡ false) × ((final_config R f, primary_broker f) ≡ r)
unfolding handle_save
handle_save-valid R f r e =
    elim (Option-cases (use_config_validation (rule_rules R f)).blocker_reason) [
      | inl n ↦ (
        no_blocker (rule_rules R f) n,
        ap (λ o. or_default o (final_config R f, primary_broker f)) (sym (opened n) ∙ e),
      )
      | inr (m, b) ↦ let n = sym (turned_down m b) ∙ e in cc
    ]
  where
    opened :
        (use_config_validation (rule_rules R f)).blocker_reason ≡ none
        → handle_save R f ≡ some (final_config R f, primary_broker f)
    opened n = rw (n, handle_save) refl

    turned_down :
        (m : Text)
        → (use_config_validation (rule_rules R f)).blocker_reason ≡ some m
        → handle_save R f ≡ none
    turned_down m b = rw (b, handle_save) refl
