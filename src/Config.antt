-- ===== src/Config.antt =====
-- frontend/src/components/panels/config/useConfigValidation.ts
pub mod Errors
pub mod Rules
use mqtt_dashboard.Prelude.{
  ℕ, Bool, true, false, not, ◌&&◌, ◌||◌, List, [], ◌∷◌, ◌++◌, Option, none, some, filter, head?,
  any, if◌then◌else◌, ◌>>=◌, or_default, is_some, length, ltb, ◌==◌,
}
use mqtt_dashboard.Prelude.Text.{Text, codes, eq_text, is_empty, trim, includes, split_list, comma}
use mqtt_dashboard.Json.Runtime.{Runtime}
use mqtt_dashboard.Template.Chunks.{count_tokens}

pub record ConfigRule : Type 0 where
  pub field : Option Text
  pub when : Bool
  pub message : Text

-- `fieldErrors`, an object by field name.
abbrev pub FieldErrors : Type 0
FieldErrors = List (Text × Text)

pub record ConfigValidation : Type 0 where
  pub field_errors : FieldErrors
  pub blocker_reason : Option Text
  pub save_disabled : Bool

unfoldable pub error_of : Text → FieldErrors → Option Text
unfolding eq_text
error_of f [] = none
error_of f ((k, m) ∷ es) = if eq_text k f then some m else error_of f es

-- One round of the loop: only the first message of a field is kept.
abbrev pub add_error : FieldErrors → Option Text → Text → FieldErrors
add_error errors none message = errors
add_error errors (some []) message = errors
add_error errors (some (c ∷ f)) message =
    if is_some (error_of (c ∷ f) errors) then errors else errors ++ (c ∷ f, message) ∷ []

unfoldable pub collect_errors : FieldErrors → List ConfigRule → FieldErrors
unfolding error_of
collect_errors errors [] = errors
collect_errors errors (r ∷ rs) = collect_errors (add_error errors r.field r.message) rs

abbrev pub broken : List ConfigRule → List ConfigRule
broken rules = filter (λ r. r.when) rules

unfoldable pub use_config_validation : List ConfigRule → ConfigValidation
unfolding collect_errors
use_config_validation rules =
    let reason = head? (broken rules) >>= λ r. some r.message in
    record {
      field_errors = collect_errors [] (broken rules);
      blocker_reason = reason;
      save_disabled = is_some reason;
    }

unfoldable pub broker_rules : ℕ → List ConfigRule
broker_rules broker_count =
    record {
      field = none;
      when = broker_count == 0;
      message = codes "Broker required. Configure one in Settings.";
    }
    ∷ []

pub record TopicRuleSpec : Type 0 where
  pub field : Text
  pub topic : Text
  pub allow_wildcards : Bool
  pub allow_multiple : Bool
  pub subject : Text

abbrev pub is_wild : Text → Bool
is_wild t = includes (codes "+") t || includes (codes "#") t

unfoldable pub topic_rules : TopicRuleSpec → List ConfigRule
unfolding split_list includes
topic_rules spec =
    let entries = split_list comma spec.topic in
    let wild = filter is_wild entries in
    record {
      field = some spec.field;
      when = length entries == 0;
      message = spec.subject ++ codes " is required.";
    }
    ∷ record {
      field = some spec.field;
      when = not spec.allow_multiple && ltb 1 (length entries);
      message =
          codes "Only one topic allowed — remove extra topics after "
          ++ (or_default (head? entries) (codes "undefined") ++ codes ".");
    }
    ∷ record {
      field = some spec.field;
      when = not spec.allow_wildcards && ltb 0 (length wild);
      message =
          codes "Cannot publish to wildcard topic ("
          ++ (or_default (head? wild) (codes "+ / #") ++ codes ").");
    }
    ∷ []

pub data RuleMode : Type 0 where
  write read : RuleMode

pub record PayloadRuleSpec : Type 0 where
  pub field : Text
  pub value : Text
  pub accepts_chip : Bool
  pub allow_empty : Bool

unfoldable pub payload_rules : PayloadRuleSpec → RuleMode → List ConfigRule
unfolding count_tokens trim
payload_rules spec read =
    let chip = ltb 0 (count_tokens spec.value) in
    record {
      field = some spec.field;
      when = ltb 1 (count_tokens spec.value);
      message = codes "A read shape can only mark one value to extract.";
    }
    ∷ record {
      field = some spec.field;
      when = (if spec.allow_empty then not (is_empty (trim spec.value)) && not chip else not chip);
      message = codes "Read shape requires a {value} token.";
    }
    ∷ []
payload_rules spec write =
    let chip = ltb 0 (count_tokens spec.value) in
    record {
      field = some spec.field;
      when = not spec.allow_empty && is_empty (trim spec.value);
      message = codes "Payload message required.";
    }
    ∷ record {
      field = some spec.field;
      when = spec.accepts_chip && not (is_empty (trim spec.value)) && not chip;
      message = codes "Add {value} token to publish dynamic value.";
    }
    ∷ []

pub record RangeRuleSpec : Type 0 where
  pub field : Text
  pub low : Text
  pub high : Text
  pub step : Option Text
  pub low_label : Text
  pub high_label : Text

module _ (R : Runtime) where
  open R use {Num, to_number, lt_num, eq_num, numeral}

  -- A cleared box is missing, and so is one that holds no number.
  unfoldable pub num : Text → Option Num
  unfolding trim
  num raw = if is_empty (trim raw) then none else to_number raw

  -- `b <= a` for two numbers that are there
  abbrev pub not_above : Option Num → Option Num → Bool
  not_above (some a) (some b) = lt_num b a || eq_num b a
  not_above _ _ = false

  abbrev pub both : Option Num → Option Num → Bool
  both a b = is_some a && is_some b

  -- The step is broken if it is asked for and missing or not above 0.
  abbrev pub bad_step : Option Text → Bool
  bad_step none = false
  bad_step (some raw) = elim (num raw) [
    | none ↦ true
    | some n ↦ lt_num n (numeral 0) || eq_num n (numeral 0)
  ]

  unfoldable pub range_rules : RangeRuleSpec → List ConfigRule
  unfolding num
  range_rules spec =
      let low = num spec.low in
      let high = num spec.high in
      record {
        field = some spec.field;
        when = not (both low high);
        message = spec.low_label ++ (codes " and " ++ (spec.high_label ++ codes " are required."));
      }
      ∷ record {
        field = some spec.field;
        when = not_above low high;
        message =
            spec.high_label ++ (codes " must be greater than " ++ (spec.low_label ++ codes "."));
      }
      ∷ record {
        field = some spec.field;
        when = bad_step spec.step;
        message = codes "Step must be > 0.";
      }
      ∷ []
