-- ===== src/Panel/Gauge.antt =====
-- frontend/src/components/panels/gaugeUtils.ts, and the readers of graphUtils.ts that share it.
use Prim.Native.Nat.{Ordering}
use mqtt_dashboard.Prelude.{List, [], ◌∷◌, Option, none, some, if◌then◌else◌, ◌>>=◌}
use mqtt_dashboard.Prelude.Text.{Text, is_empty, trim}
use mqtt_dashboard.Json.Runtime.{Runtime}
use mqtt_dashboard.Template.{value_token}
use mqtt_dashboard.Value.{Scalar, ExtractedValue, extract_value}
use mqtt_dashboard.Value.Suggest.{suggest_paths}
use mqtt_dashboard.Read.{read_value, non_empty, or_else}
use mqtt_dashboard.Read.Path.{template_from_value_key}

pub record GaugeShape : Type 0 where
  pub template : Option Text
  pub path : Option Text

-- `text?.trim() || undefined`
unfoldable pub trimmed : Option Text → Option Text
unfolding trim
trimmed text = non_empty (text >>= λ t. some (trim t))

-- What a stored gauge or graph keeps of its shape.
pub record StoredShape : Type 0 where
  pub read_template : Option Text
  pub value_key : Option Text

module _ (R : Runtime) where
  open R use {Num, is_finite, numeral}

  -- `parsedValue` is the `value` field.
  unfoldable pub parse_gauge_payload : Text → GaugeShape → ExtractedValue Num
  unfolding read_value trimmed
  parse_gauge_payload payload shape =
      read_value R (trimmed shape.template) payload (trimmed shape.path)

  unfoldable pub stored_template : StoredShape → Text
  unfolding template_from_value_key
  stored_template config = elim config.read_template [
    | some t ↦ t
    | none ↦ template_from_value_key R config.value_key
  ]

  -- `stored.trim() || VALUE_TOKEN`
  unfoldable pub gauge_read_template : StoredShape → Text
  unfolding stored_template trim
  gauge_read_template config =
      let stored = trim (stored_template config) in if is_empty stored then value_token else stored

  unfoldable pub graph_read_template : StoredShape → Text
  unfolding stored_template trim
  graph_read_template config =
      let stored = trim (stored_template config) in if is_empty stored then value_token else stored

  -- The value to plot; a boolean is 1 or 0, and a text has no place on an axis.
  unfoldable pub plottable : ExtractedValue Num → Option Num
  plottable v = elim v.value [
    | Scalar.num n ↦ if is_finite n then some n else none
    | Scalar.bool b ↦ some (if b then numeral 1 else numeral 0)
    | Scalar.text t ↦ none
  ]

  unfoldable pub parse_numeric_payload : Text → GaugeShape → Option Num
  unfolding plottable read_value trimmed
  parse_numeric_payload payload shape =
      plottable (read_value R (trimmed shape.template) payload (trimmed shape.path))

  -- The first path that can be plotted.
  unfoldable pub first_plottable : Text → List Text → Option Num
  unfolding plottable extract_value
  first_plottable payload [] = none
  first_plottable payload (p ∷ ps) =
      or_else (plottable (extract_value R payload (some p))) (first_plottable payload ps)

  -- The whole payload, or else one of the paths that are suggested for it.
  unfoldable pub auto_numeric_payload : (Text → Text → Ordering) → Text → Option Num
  unfolding parse_numeric_payload first_plottable suggest_paths
  auto_numeric_payload locale_compare payload =
      or_else (parse_numeric_payload payload (record { template = none; path = none }))
        (first_plottable payload (suggest_paths R locale_compare payload 3))
