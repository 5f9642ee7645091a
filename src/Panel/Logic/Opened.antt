-- ===== src/Panel/Logic/Opened.antt =====
-- frontend/src/components/panels/LogicPanel.tsx: the dialog of a rule as it opens, and that opening
-- a saved rule and saving it again changes nothing.
use mathlib.Core.Path.{fun_ext}
use mqtt_dashboard.Prelude.{
  ℕ, ◌≡◌, refl, sym, ap, ◌∙◌, Bool, true, false, List, [], ◌∷◌, Option, none, some, if◌then◌else◌,
  or_default, any, arith,
}
use mqtt_dashboard.Prelude.Text.{Text, is_empty, trim}
use mqtt_dashboard.Prelude.Trim.{trim_idem}
use mqtt_dashboard.Json.Runtime.{Runtime}
use mqtt_dashboard.Read.{non_empty}
use mqtt_dashboard.Panel.Logic.{Condition, match_all}
use mqtt_dashboard.Panel.Logic.Rule.{
  on_change, Picking, no_picking, pick_target, LogicConfig, RuleForm, either, given, primary_topic,
  primary_broker, hears_target, loop_conflict, rule_rules, final_config, handle_save, is_count,
  is_sustained, first_topic, first_broker,
}
use mqtt_dashboard.Panel.Logic.Edits.{initial_list, initial_conditions}
use mqtt_dashboard.Panel.Logic.Saved.{no_broken, rules-handle_save, handle_save-valid}
use mqtt_dashboard.Panel.Logic.Safe.{given-non_empty}

-- A topic that was picked for the target, if there is one.
abbrev picked_target : Picking → Option Text → Option Text
picked_target pick_target topic = topic
picked_target _ topic = none

abbrev target_broker : Picking → Option Text → Text → Text → Text
target_broker pick_target broker configured source =
    either (given broker) (either configured source)
target_broker _ broker configured source = configured

unfoldable pub initial_form : LogicConfig → Text → Option Text → Option Text → Text → ℕ → RuleForm
unfolding initial_conditions
initial_form config broker_id topic broker fallback_broker broker_count =
    let source = either broker_id (either (given config.source_broker_id) fallback_broker) in
    record {
      fallback_broker = fallback_broker;
      broker_count = broker_count;
      source_broker_id = source;
      match = or_default config.match match_all;
      conditions = initial_conditions config topic broker;
      mode = or_default config.mode on_change;
      count = or_default config.count 5;
      window_sec = or_default config.window_sec 60;
      sustained_sec = or_default config.sustained_sec 10;
      target_topic = or_default (picked_target config.picking topic) (given config.target_topic);
      target_broker_id = target_broker config.picking broker (given config.target_broker_id) source;
      payload = given config.payload;
      qos = or_default config.qos 0;
      retain = or_default config.retain false;
      cooldown_sec = or_default config.cooldown_sec 0;
      enabled = or_default config.enabled false;
    }

-- The dialog of what it saved.
abbrev reopened : Runtime → RuleForm → RuleForm
reopened R f =
    initial_form (final_config R f) (primary_broker f) none none f.fallback_broker f.broker_count

filled_trim : (t : Text) → is_empty (trim t) ≡ false → is_empty t ≡ false
unfolding trim
filled_trim [] h = h
filled_trim (c ∷ t) h = refl

filled_list :
    (config : LogicConfig) (cs : List Condition)
    → is_empty (first_topic cs) ≡ false
    → initial_list config cs ≡ cs
unfolding initial_list
filled_list config [] h = cc
filled_list config (c ∷ cs) h = rw (filled_trim (given c.topic) h) refl

either_again :
    (a b c : Text)
    → either a (either (either (either a (either b c)) (either (either a (either b c)) c)) c)
      ≡ either a (either b c)
either_again a b c = ground arith

kept_if :
    (b : Bool) (n m : ℕ)
    → (if b then some (or_default (if b then some n else none) m) else none)
      ≡ (if b then some n else none)
kept_if true n m = refl
kept_if false n m = refl

module _ (R : Runtime) (f : RuleForm) (filled : is_empty (primary_topic f) ≡ false) where
  conditions_same : (reopened R f).conditions ≡ f.conditions
  unfolding initial_form initial_conditions final_config primary_topic
  conditions_same = filled_list (final_config R f) f.conditions filled

  topic_same : primary_topic (reopened R f) ≡ primary_topic f
  unfolding primary_topic
  topic_same = ap first_topic conditions_same

  broker_same : primary_broker (reopened R f) ≡ primary_broker f
  unfolding primary_broker initial_form final_config
  broker_same =
      let own = primary_broker f in
      ap
        (λ cs.
          either (first_broker cs)
            (either (either own (either own f.fallback_broker)) f.fallback_broker))
        conditions_same
      ∙ either_again (first_broker f.conditions) f.source_broker_id f.fallback_broker

  target_same : trim (reopened R f).target_topic ≡ trim f.target_topic
  unfolding initial_form final_config
  target_same = trim_idem f.target_topic

  target_broker_same : (reopened R f).target_broker_id ≡ f.target_broker_id
  unfolding initial_form final_config
  target_broker_same = given-non_empty f.target_broker_id

  hears_same : (c : Condition) → hears_target (reopened R f) c ≡ hears_target f c
  unfolding hears_target
  hears_same c = rw (topic_same, broker_same, target_same, target_broker_same) refl

  loop_same : loop_conflict (reopened R f) ≡ loop_conflict f
  unfolding loop_conflict
  loop_same = rw (fun_ext hears_same, conditions_same) refl

  count_same : (reopened R f).broker_count ≡ f.broker_count
  unfolding initial_form
  count_same = refl

  rules_same : rule_rules R (reopened R f) ≡ rule_rules R f
  unfolding rule_rules
  rules_same = rw (topic_same, target_same, loop_same, conditions_same, count_same) refl

  config_same : final_config R (reopened R f) ≡ final_config R f
  unfolding final_config initial_form
  config_same = λ i. record {
    source_topic = some (topic_same i);
    source_broker_id = some (broker_same i);
    match = some f.match;
    conditions = some (conditions_same i);
    mode = some f.mode;
    count = kept_if (is_count f.mode) f.count 5 i;
    window_sec = kept_if (is_count f.mode) f.window_sec 60 i;
    sustained_sec = kept_if (is_sustained f.mode) f.sustained_sec 10 i;
    target_topic = some (target_same i);
    target_broker_id = non_empty (some (target_broker_same i));
    payload = some f.payload;
    qos = some f.qos;
    retain = some f.retain;
    cooldown_sec = some f.cooldown_sec;
    enabled = some f.enabled;
    picking = no_picking;
  }

  save_same :
      any (λ r. r.when) (rule_rules R f) ≡ false
      → handle_save R (reopened R f) ≡ some (final_config R f, primary_broker f)
  save_same valid =
      rules-handle_save R (reopened R f) (ap (any (λ r. r.when)) rules_same ∙ valid)
      ∙ (λ i. some (config_same i, broker_same i))

-- Opening a rule that the dialog saved, on the broker that it was saved on and with the same
-- brokers there, and saving it again without a change saves the same rule on the same broker.
pub handle_save-initial_form :
    (R : Runtime) (f : RuleForm) (config : LogicConfig) (broker : Text)
    → handle_save R f ≡ some (config, broker)
    → handle_save R (initial_form config broker none none f.fallback_broker f.broker_count)
      ≡ some (config, broker)
handle_save-initial_form R f config broker h =
    let (valid, saved) = handle_save-valid R f (config, broker) h in
    let (loop, topic, target, wild) = no_broken R f valid in
    ap
      (λ (r : LogicConfig × Text).
        handle_save R (initial_form r.0 r.1 none none f.fallback_broker f.broker_count))
      (sym saved)
    ∙ save_same R f topic valid
    ∙ ap some saved
