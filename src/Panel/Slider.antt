-- ===== src/Panel/Slider.antt =====
-- Slider ranges, frontend/src/components/panels/sliderUtils.ts, and `SliderRuntime` of
-- SliderPanel.tsx.
pub mod Range
pub mod Settles
use mqtt_dashboard.Prelude.{
  ℕ, ◌-◌, Bool, true, false, not, ◌||◌, List, [], ◌∷◌, Option, none, some, if◌then◌else◌, ◌==◌,
  or_default, length,
}
use mqtt_dashboard.Prelude.Text.{Text, includes, is_empty, trim}
use mqtt_dashboard.Json.Runtime.{Runtime}
use mqtt_dashboard.Template.{value_token}
use mqtt_dashboard.Template.Interpolate.{render_payload}
use mqtt_dashboard.Value.{Scalar}
use mqtt_dashboard.Read.{read_value}
use mqtt_dashboard.Panel.Confirm.{
  Confirm, at_rest, reported, begin, timer_fires, post_fails, post_succeeds,
}
use mqtt_dashboard.Panel.Toggle.Flip.{command_topic_of, has_wildcard}

-- What the source asks of floating-point arithmetic. It is used on finite numbers and on results of
-- these operations where none of them is `NaN`.
pub record Arithmetic (Num : Type 0) : Type 0 where
  pub add : Num → Num → Num
  pub sub : Num → Num → Num
  pub mul : Num → Num → Num
  pub div : Num → Num → Num
  pub abs : Num → Num
  pub round : Num → Num
  -- `Number(n.toFixed(decimals))`
  pub to_fixed : ℕ → Num → Num

-- How many characters stand behind the first dot.
unfoldable pub behind_dot : Text → ℕ
behind_dot [] = 0
behind_dot (c ∷ s) = let rest = behind_dot s in if c == b'.' then length s else rest

module _ (R : Runtime) (A : Arithmetic R.Num) where
  open R use {Num, to_number, show_number, lt_num, eq_num, is_finite, numeral}
  open A use {add, sub, mul, div, abs, round, to_fixed}

  pub record SliderRange : Type 0 where
    pub min : Num
    pub max : Num
    pub step : Num

  -- `Number.isFinite(n) ? n : d`
  abbrev pub finite_or : Option Num → Num → Num
  finite_or none d = d
  finite_or (some n) d = if is_finite n then n else d

  abbrev pub above : Num → Num → Num
  above raw_max min = if lt_num min raw_max then raw_max else add min (numeral 1)

  unfoldable pub normalize_range : Option Num → Option Num → Option Num → SliderRange
  normalize_range min max step =
      let low = finite_or min (numeral 0) in
      let raw_step = finite_or step (numeral 1) in
      record {
        min = low;
        max = above (finite_or max (numeral 100)) low;
        step = (if lt_num (numeral 0) raw_step then raw_step else numeral 1);
      }

  abbrev pub largest : Num → Num → Num
  largest a b = if lt_num a b then b else a

  abbrev pub smallest : Num → Num → Num
  smallest a b = if lt_num b a then b else a

  unfoldable pub decimals_of : Num → ℕ
  unfolding behind_dot
  decimals_of step = behind_dot (show_number step)

  -- The nearest step from `min` on, to the decimals of the step.
  unfoldable pub snapped : Num → SliderRange → Num
  unfolding decimals_of
  snapped value range =
      to_fixed (decimals_of range.step)
        (add range.min (mul (round (div (sub value range.min) range.step)) range.step))

  abbrev pub at_most : Num → Num → Bool
  at_most a b = lt_num a b || eq_num a b

  unfoldable pub clamp_to_range : Num → SliderRange → Num
  unfolding snapped
  clamp_to_range value range =
      if not (is_finite value)
      then range.min
      else if at_most value range.min
      then range.min
      else if at_most range.max value
      then range.max
      else smallest range.max (largest range.min (snapped value range))

  unfoldable pub parse_slider_value : Text → Option Text → Option Num
  unfolding read_value
  parse_slider_value payload template = elim (read_value R template payload none).value [
    | Scalar.num n ↦ if is_finite n then some n else none
    | Scalar.text t ↦ none
    | Scalar.bool b ↦ none
  ]

  unfoldable pub value_to_fraction : Num → SliderRange → Num
  value_to_fraction value range =
      let span = sub range.max range.min in
      if at_most span (numeral 0)
      then numeral 0
      else smallest (numeral 1) (largest (numeral 0) (div (sub value range.min) span))

  -- What the handlers read of the configuration.
  pub record SliderConfig : Type 0 where
    pub topic : Option Text
    pub min : Option Num
    pub max : Option Num
    pub step : Option Num
    pub payload_template : Option Text
    -- `effectiveReadTemplate`
    pub read_template : Option Text

  abbrev pub range_of_config : SliderConfig → SliderRange
  range_of_config config = normalize_range config.min config.max config.step

  pub record SliderRun : Type 0 where
    pub write : Confirm Num
    pub remote : Option Num
    pub dragging : Option Num
    pub typed : Option Text

  abbrev pub slider_start : SliderRun
  slider_start = record { write = at_rest; remote = none; dragging = none; typed = none }

  -- `Math.abs(next - inFlight) > range.step` is not so.
  abbrev pub is_near : SliderConfig → Num → Num → Bool
  is_near config next in_flight =
      not (lt_num (range_of_config config).step (abs (sub next in_flight)))

  unfoldable pub apply_incoming_value : SliderConfig → Text → ℕ → SliderRun → SliderRun
  unfolding parse_slider_value reported normalize_range
  apply_incoming_value config payload received_at s =
      elim (parse_slider_value payload config.read_template) [
        | none ↦ s
        | some next ↦ record s {
          remote = some next;
          write = reported (is_near config next) received_at s.write;
        }
      ]

  abbrev pub disabled : SliderConfig → Bool
  disabled config =
      is_empty (command_topic_of config.topic) || has_wildcard (command_topic_of config.topic)

  -- The bytes that are published for a value, at a time.
  abbrev pub slider_payload : SliderConfig → ℕ → Text → Num → Text
  slider_payload config now iso value =
      render_payload R (or_default config.payload_template value_token) (Scalar.num value) none none
        now iso

  unfoldable pub commit : SliderConfig → ℕ → Text → Num → SliderRun → SliderRun
  unfolding command_topic_of includes normalize_range clamp_to_range render_payload begin
  commit config now iso raw s =
      let value = clamp_to_range raw (range_of_config config) in
      let released = record s { dragging = none } in
      if disabled config
      then released
      else record released { write = begin value (slider_payload config now iso value) s.write }

  -- A number that was typed; nothing typed is no number.
  unfoldable pub typed_number : Option Text → Option Num
  unfolding trim
  typed_number typed =
      let text = trim (or_default typed []) in
      if is_empty text
      then none
      else elim (to_number text) [ none ↦ none | some n ↦ if is_finite n then some n else none ]

  unfoldable pub commit_typed : SliderConfig → ℕ → Text → SliderRun → SliderRun
  unfolding typed_number commit
  commit_typed config now iso s = elim (typed_number s.typed) [
    | none ↦ record s { typed = none }
    | some raw ↦ commit config now iso raw (record s { typed = none })
  ]

  -- `dragging ?? pending ?? remote`
  abbrev pub displayed_value : SliderRun → Option Num
  displayed_value s = elim s.dragging [
    | some v ↦ some v
    | none ↦ elim s.write.pending [ some v ↦ some v | none ↦ s.remote ]
  ]
