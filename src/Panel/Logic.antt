-- ===== src/Panel/Logic.antt =====
-- frontend/src/components/panels/logicUtils.ts: `extractTrackedValue`, `evaluateClientCondition`
-- and `evaluateAllConditions`.
pub mod Joins
pub mod Rule
pub mod Edits
pub mod Opened
pub mod Live
pub mod Saved
pub mod Safe
pub mod Brokers
pub mod Summary
use mqtt_dashboard.Prelude.{
  ℕ, Bool, true, false, not, ◌&&◌, ◌||◌, List, [], ◌∷◌, Option, none, some, any, all, if◌then◌else◌,
  ◌>>=◌, or_default, is_some,
}
use mqtt_dashboard.Prelude.Text.{Text, codes, eq_text, is_empty, trim, includes}
use mqtt_dashboard.Json
use mqtt_dashboard.Json.{Json}
use mqtt_dashboard.Json.Runtime.{Runtime}
use mqtt_dashboard.Value.{Scalar, ExtractedValue, show_json, is_container}
use mqtt_dashboard.Read.{read_value, non_empty}

pub data LogicOperator : Type 0 where
  op_any op_eq op_ne op_gt op_lt op_gte op_lte op_contains op_exists : LogicOperator

pub data Join : Type 0 where
  join_and join_or : Join

pub record Condition : Type 0 where
  pub broker_id : Option Text
  pub topic : Option Text
  pub json_path : Option Text
  pub read_template : Option Text
  pub operator : LogicOperator
  pub value : Option Text
  pub join : Option Join

pub data Match : Type 0 where
  match_all match_any : Match

module _ (R : Runtime) where
  open R use {Num, to_number, json_parse, eq_num, lt_num}

  pub record TrackedValue : Type 0 where
    pub display_value : Text
    pub raw_value : Json Num

  abbrev dash : Text
  dash = codes "—"

  abbrev nothing : TrackedValue
  nothing = record { display_value = dash; raw_value = Json.null }

  abbrev pub of_scalar : Scalar Num → Json Num
  of_scalar (Scalar.text s) = Json.str s
  of_scalar (Scalar.num n) = Json.num n
  of_scalar (Scalar.bool b) = Json.bool b

  abbrev tracked : Json Num → TrackedValue
  tracked v = record { display_value = show_json R v; raw_value = v }

  -- With neither a path nor a shape, the document itself.
  abbrev whole : Text → TrackedValue
  whole clean = elim (json_parse clean) [
    | none ↦ record { display_value = clean; raw_value = Json.str clean }
    | some json ↦
        if is_container R json
        then record { display_value = clean; raw_value = json }
        else tracked json
  ]

  -- `readValue` never throws, so the `catch` beside its call is not reached.
  unfoldable pub extract_tracked_value : Option Text → Option Text → Option Text → TrackedValue
  unfolding trim read_value
  extract_tracked_value none json_path read_template = nothing
  extract_tracked_value (some payload) json_path read_template =
      let clean = trim payload in
      let tmpl = read_template >>= λ t. some (trim t) in
      let path = json_path >>= λ p. some (trim p) in
      if is_empty clean
      then nothing
      else if is_some (non_empty tmpl) || is_some (non_empty path)
      then tracked (of_scalar (read_value R tmpl clean path).value)
      else whole clean

  -- `Number(value)` of a value that is no boolean and not null; `none` is `NaN`. An object or an
  -- array counts as its text does.
  abbrev as_number : Json Num → Option Num
  as_number (Json.num n) = some n
  as_number (Json.bool b) = none
  as_number v = to_number (show_json R v)

  -- Two numbers, if the comparison is numeric.
  abbrev numeric : Json Num → Text → Option (Num × Num)
  numeric raw target =
      if is_empty target || is_empty (trim (show_json R raw))
      then none
      else (do a ← as_number raw; b ← to_number target; some (a, b))

  abbrev pub lte_num : Num → Num → Bool
  lte_num a b = lt_num a b || eq_num a b

  abbrev compare_as : LogicOperator → Option (Num × Num) → Text → Text → Bool
  compare_as op_eq (some (a, b)) raw target = eq_num a b
  compare_as op_eq none raw target = eq_text raw target
  compare_as op_ne (some (a, b)) raw target = not (eq_num a b)
  compare_as op_ne none raw target = not (eq_text raw target)
  compare_as op_gt (some (a, b)) raw target = lt_num b a
  compare_as op_gte (some (a, b)) raw target = lte_num b a
  compare_as op_lt (some (a, b)) raw target = lt_num a b
  compare_as op_lte (some (a, b)) raw target = lte_num a b
  compare_as op_contains n raw target = includes target raw
  compare_as _ _ raw target = false

  abbrev is_null : Json Num → Bool
  is_null Json.null = true
  is_null _ = false

  -- The operators that need a value.
  unfoldable pub evaluate_value : Json Num → LogicOperator → Option Text → Bool
  unfolding eq_text includes trim
  evaluate_value raw op target_value =
      let target = trim (or_default target_value []) in
      if is_null raw
      then false
      else compare_as op (numeric raw target) (trim (show_json R raw)) target

  unfoldable pub evaluate_client_condition : Json Num → LogicOperator → Option Text → Bool
  unfolding evaluate_value
  evaluate_client_condition raw op_any target_value = true
  evaluate_client_condition raw op_exists target_value = not (is_null raw)
  evaluate_client_condition raw op target_value = evaluate_value raw op target_value

  -- The last message on a topic of a broker, if the guard knows one.
  abbrev pub GuardLookup : Type 0
  GuardLookup = Text → Text → Option Text

  -- `!given || given === own`
  abbrev same_or_absent : Option Text → Option Text → Bool
  same_or_absent given own = elim (non_empty given) [
    | none ↦ true
    | some g ↦ elim own [ none ↦ false | some o ↦ eq_text g o ]
  ]

  -- `given || own || ""`
  abbrev first_given : Option Text → Option Text → Text
  first_given given own = elim (non_empty given) [ some g ↦ g | none ↦ or_default own [] ]

  module _ (payload : Text) (guard_lookup : Option GuardLookup)
      (rule_broker_id rule_topic : Option Text) where
    abbrev is_trigger : Condition → Bool
    is_trigger c = same_or_absent c.topic rule_topic && same_or_absent c.broker_id rule_broker_id

    -- The message that a condition looks at.
    unfoldable pub message_of : Condition → Option Text
    unfolding eq_text
    message_of c = if is_trigger c then some payload else (do
      lookup ← guard_lookup
      lookup (first_given c.broker_id rule_broker_id) (first_given c.topic rule_topic))

    unfoldable pub eval_cond : Condition → Bool
    unfolding message_of extract_tracked_value evaluate_client_condition
    eval_cond c = elim (message_of c) [
      | none ↦ false
      | some message ↦
          evaluate_client_condition
            (extract_tracked_value (some message) c.json_path c.read_template).raw_value c.operator
            c.value
    ]

  abbrev pub join_step : Option Join → Bool → Bool → Bool
  join_step (some join_or) result c = result || c
  join_step _ result c = result && c

  -- The loop over the conditions from the second on.
  unfoldable pub joined : (Condition → Bool) → Bool → List Condition → Bool
  joined eval result [] = result
  joined eval result (c ∷ cs) = joined eval (join_step c.join result (eval c)) cs

  abbrev pub has_explicit_join : List Condition → Bool
  has_explicit_join [] = false
  has_explicit_join (c ∷ cs) = any (λ d. is_some d.join) cs

  unfoldable pub combine : (Condition → Bool) → Match → List Condition → Bool
  unfolding joined
  combine eval how [] = true
  combine eval how (c ∷ cs) =
      if has_explicit_join (c ∷ cs)
      then joined eval (eval c) cs
      else (elim how [ match_any ↦ any eval (c ∷ cs) | match_all ↦ all eval (c ∷ cs) ])

  unfoldable pub evaluate_all_conditions :
      Option Text → List Condition → Match → Option GuardLookup → Option Text → Option Text → Bool
  unfolding combine eval_cond
  evaluate_all_conditions payload [] how guard_lookup broker topic = true
  evaluate_all_conditions none (c ∷ cs) how guard_lookup broker topic = false
  evaluate_all_conditions (some payload) (c ∷ cs) how guard_lookup broker topic =
      combine (eval_cond payload guard_lookup broker topic) how (c ∷ cs)
