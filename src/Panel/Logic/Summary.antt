-- ===== src/Panel/Logic/Summary.antt =====
-- The texts of frontend/src/components/panels/logicUtils.ts: `OPERATORS`, `formatConditionSummary`
-- and `formatTimeAgo`.
use mqtt_dashboard.Prelude.{
  ℕ, ◌-◌, ◌/◌, Bool, true, not, ◌&&◌, ◌||◌, [], ◌∷◌, ◌++◌, Option, none, some, if◌then◌else◌,
  or_default, ltb,
}
use mqtt_dashboard.Prelude.Text.{Text, codes, is_empty, trim}
use mqtt_dashboard.Json.Runtime.{Runtime}
use mqtt_dashboard.Template.Interpolate.{decimal}
use mqtt_dashboard.Read.Path.{derive_read_path}
use mqtt_dashboard.Panel.Logic.{
  LogicOperator, op_any, op_eq, op_ne, op_gt, op_lt, op_gte, op_lte, op_contains, op_exists, Join,
  join_and, join_or, Condition,
}

abbrev pub op_symbol : LogicOperator → Text
op_symbol op_eq = codes "=="
op_symbol op_ne = codes "!="
op_symbol op_gt = codes ">"
op_symbol op_gte = codes ">="
op_symbol op_lt = codes "<"
op_symbol op_lte = codes "<="
op_symbol op_contains = codes "contains"
op_symbol op_exists = codes "exists"
op_symbol op_any = codes "any"

-- `if (include && topic)`
abbrev topic_prefix : Bool → Text → Text → Text
topic_prefix include topic target =
    if include && not (is_empty topic) then topic ++ (codes " · " ++ target) else target

abbrev operation : LogicOperator → Text → Text → Text
operation op_any target value = target ++ codes " is any"
operation op_exists target value = target ++ codes " exists"
operation op_contains target value = target ++ (codes " ~ \"" ++ (value ++ codes "\""))
operation op target value = target ++ (codes " " ++ (op_symbol op ++ (codes " " ++ value)))

abbrev join_prefix : Bool → Option Join → Text → Text
join_prefix true (some join_and) text = codes "AND " ++ text
join_prefix true (some join_or) text = codes "OR " ++ text
join_prefix _ _ text = text

module _ (R : Runtime) where
  abbrev or_value : Option Text → Text
  or_value none = codes "value"
  or_value (some path) = if is_empty path then codes "value" else path

  -- What the condition looks at.
  abbrev target_of : Condition → Text
  target_of c =
      let path = trim (or_default c.json_path []) in
      let template = or_default c.read_template [] in
      if not (is_empty path)
      then path
      else if not (is_empty (trim template))
      then or_value (derive_read_path R template)
      else codes "value"

  unfoldable pub format_condition_summary : Condition → Bool → Bool → Text
  unfolding trim derive_read_path
  format_condition_summary c include_topic include_join = join_prefix include_join c.join (
      operation c.operator (topic_prefix include_topic (trim (or_default c.topic [])) (target_of c))
        (or_default c.value []))

abbrev pub ago : ℕ → Text → Text
ago n unit = decimal n ++ (unit ++ codes " ago")

-- Seconds, in the largest of the units that fits.
unfoldable pub age_text : ℕ → Text
unfolding decimal
age_text seconds =
    let minutes = seconds / 60 in
    let hours = minutes / 60 in
    if ltb seconds 60
    then ago seconds (codes "s")
    else if ltb minutes 60
    then ago minutes (codes "m")
    else if ltb hours 24
    then ago hours (codes "h")
    else ago (hours / 24) (codes "d")

-- `parse_date` is `new Date(text).getTime()`, where `none` is `NaN`.
unfoldable pub format_time_ago : (Text → Option ℕ) → Option Text → ℕ → Text
unfolding age_text
format_time_ago parse_date none now = codes "never"
format_time_ago parse_date (some []) now = codes "never"
format_time_ago parse_date (some (c ∷ text)) now = elim (parse_date (c ∷ text)) [
  | none ↦ codes "just now"
  | some date ↦
      let seconds = (now - date) / 1000 in
      if ltb now date || ltb seconds 10 then codes "just now" else age_text seconds
]
