-- ===== src/Panel/Logic/Rule.antt =====
-- frontend/src/components/panels/LogicPanel.tsx: the dialog that configures a rule. Its state,
-- its rules for what can be saved, and what it saves.
use mqtt_dashboard.Prelude.{
  ℕ, Bool, true, false, not, ◌&&◌, List, [], ◌∷◌, ◌++◌, Option, none, some, any, if◌then◌else◌,
  or_default, is_some,
}
use mqtt_dashboard.Prelude.Text.{Text, codes, eq_text, is_empty, trim, includes, split, comma}
use mqtt_dashboard.Json.Runtime.{Runtime}
use mqtt_dashboard.Read.{non_empty}
use mqtt_dashboard.Topic.{mqtt_topic_matches}
use mqtt_dashboard.Config.{ConfigRule, broker_rules, use_config_validation, is_wild}
use mqtt_dashboard.Panel.Logic.{LogicOperator, op_gt, op_lt, op_gte, op_lte, Condition, Match}

pub data LogicMode : Type 0 where
  on_change every count_hits sustained : LogicMode

-- What a visit of the topic picker was for.
pub data Picking : Type 0 where
  no_picking pick_source pick_target : Picking
  pick_condition : ℕ → Picking

-- `self_guard` is read nowhere, and the fields of the focus tell only where to scroll.
pub record LogicConfig : Type 0 where
  pub source_topic : Option Text
  pub source_broker_id : Option Text
  pub match : Option Match
  pub conditions : Option (List Condition)
  pub mode : Option LogicMode
  pub count : Option ℕ
  pub window_sec : Option ℕ
  pub sustained_sec : Option ℕ
  pub target_topic : Option Text
  pub target_broker_id : Option Text
  pub payload : Option Text
  pub qos : Option ℕ
  pub retain : Option Bool
  pub cooldown_sec : Option ℕ
  pub enabled : Option Bool
  pub picking : Picking

-- The state of the dialog, with the broker that it falls back to and the number of brokers.
pub record RuleForm : Type 0 where
  pub fallback_broker : Text
  pub broker_count : ℕ
  pub source_broker_id : Text
  pub match : Match
  pub conditions : List Condition
  pub mode : LogicMode
  pub count : ℕ
  pub window_sec : ℕ
  pub sustained_sec : ℕ
  pub target_topic : Text
  pub target_broker_id : Text
  pub payload : Text
  pub qos : ℕ
  pub retain : Bool
  pub cooldown_sec : ℕ
  pub enabled : Bool

-- `a || b` of texts, and of texts that may be missing.
abbrev pub either : Text → Text → Text
either a b = if is_empty a then b else a

abbrev pub given : Option Text → Text
given o = or_default o []

abbrev pub either_given : Option Text → Option Text → Option Text
either_given a b = elim (non_empty a) [ some g ↦ some g | none ↦ b ]

-- `conditions[0]?.topic?.trim() || ""` and the broker beside it.
abbrev pub first_topic : List Condition → Text
first_topic [] = []
first_topic (c ∷ cs) = trim (given c.topic)

abbrev pub first_broker : List Condition → Text
first_broker [] = []
first_broker (c ∷ cs) = given c.broker_id

unfoldable pub primary_topic : RuleForm → Text
unfolding trim
primary_topic f = first_topic f.conditions

unfoldable pub primary_broker : RuleForm → Text
primary_broker f = either (first_broker f.conditions) (either f.source_broker_id f.fallback_broker)

-- Whether the condition hears what is published to the target.
unfoldable pub hears_target : RuleForm → Condition → Bool
unfolding trim eq_text split mqtt_topic_matches primary_topic primary_broker
hears_target f c =
    let topic = either (trim (given c.topic)) (primary_topic f) in
    let broker = either (given c.broker_id) (primary_broker f) in
    let target = trim f.target_topic in
    eq_text (either f.target_broker_id (primary_broker f)) broker
    && not (is_empty topic)
    && not (is_empty target)
    && any (λ t. mqtt_topic_matches topic (trim t)) (split comma target)

unfoldable pub loop_conflict : RuleForm → Bool
unfolding hears_target
loop_conflict f = any (hears_target f) f.conditions

abbrev is_ordered : LogicOperator → Bool
is_ordered op_gt = true
is_ordered op_lt = true
is_ordered op_gte = true
is_ordered op_lte = true
is_ordered _ = false

abbrev when_mode : Bool → ℕ → Option ℕ
when_mode b n = if b then some n else none

abbrev pub is_count : LogicMode → Bool
is_count count_hits = true
is_count _ = false

abbrev pub is_sustained : LogicMode → Bool
is_sustained sustained = true
is_sustained _ = false

module _ (R : Runtime) where
  open R use {to_number}

  -- `isNaN(Number(value?.trim()))`
  abbrev is_no_number : Option Text → Bool
  is_no_number none = true
  is_no_number (some v) = not (is_some (to_number (trim v)))

  unfoldable pub invalid_numeric : Condition → Bool
  unfolding trim
  invalid_numeric c = is_ordered c.operator && is_no_number c.value

  unfoldable pub rule_rules : RuleForm → List ConfigRule
  unfolding broker_rules primary_topic trim includes loop_conflict invalid_numeric
  rule_rules f =
      broker_rules f.broker_count
      ++ record {
        field = some (codes "conditions");
        when = is_empty (primary_topic f);
        message = codes "Condition 1 requires a topic";
      }
        ∷ record {
          field = some (codes "target_topic");
          when = is_empty (trim f.target_topic);
          message = codes "Target topic is required";
        }
        ∷ record {
          field = some (codes "target_topic");
          when = is_wild (trim f.target_topic);
          message = codes "Cannot publish to wildcard topics (+ or #)";
        }
        ∷ record {
          field = some (codes "target_topic");
          when = loop_conflict f;
          message = codes "Target topic cannot match condition topic (infinite loop)";
        }
        ∷ record {
          field = some (codes "conditions");
          when = any invalid_numeric f.conditions;
          message = codes "Numeric operators require a numeric value";
        }
        ∷ []

  -- The token in the payload is written as it is shown, so the payload is saved as it is.
  unfoldable pub final_config : RuleForm → LogicConfig
  unfolding primary_topic primary_broker trim
  final_config f = record {
    source_topic = some (primary_topic f);
    source_broker_id = some (primary_broker f);
    match = some f.match;
    conditions = some f.conditions;
    mode = some f.mode;
    count = when_mode (is_count f.mode) f.count;
    window_sec = when_mode (is_count f.mode) f.window_sec;
    sustained_sec = when_mode (is_sustained f.mode) f.sustained_sec;
    target_topic = some (trim f.target_topic);
    target_broker_id = non_empty (some f.target_broker_id);
    payload = some f.payload;
    qos = some f.qos;
    retain = some f.retain;
    cooldown_sec = some f.cooldown_sec;
    enabled = some f.enabled;
    picking = no_picking;
  }

  -- What is saved, and on which broker the panel is put.
  unfoldable pub handle_save : RuleForm → Option (LogicConfig × Text)
  unfolding use_config_validation rule_rules final_config primary_broker
  handle_save f = elim (use_config_validation (rule_rules f)).blocker_reason [
    | some reason ↦ none
    | none ↦ some (final_config f, primary_broker f)
  ]
