-- ===== src/Panel/Toggle.antt =====
-- frontend/src/components/panels/toggleUtils.ts
pub mod Echo
pub mod Flip
use mqtt_dashboard.Prelude.{
  ℕ, Bool, true, false, not, List, [], ◌∷◌, Option, none, some, map, filter, if◌then◌else◌, ◌>>=◌,
  or_default,
}
use mqtt_dashboard.Prelude.Text.{Text, codes, eq_text, is_empty, trim}
use mqtt_dashboard.Json
use mqtt_dashboard.Json.{Json}
use mqtt_dashboard.Json.Runtime.{Runtime}
use mqtt_dashboard.Template.{has_token}
use mqtt_dashboard.Template.Interpolate.{render_payload}
use mqtt_dashboard.Value.{
  Scalar, ExtractedValue, has_word, parse_loose_json, resolve_path, show_json, is_container,
}
use mqtt_dashboard.Read.{non_empty}
use mqtt_dashboard.Read.Stencil.{match_template}
use mqtt_dashboard.Read.Path.{derive_read_path}
use mqtt_dashboard.Panel.Gauge.{parse_gauge_payload}

pub record ToggleShape : Type 0 where
  pub on_payload : Option Text
  pub off_payload : Option Text
  pub read_template : Option Text
  pub payload_template : Option Text

abbrev pub default_on_payload : Text
default_on_payload = codes "ON"

abbrev pub default_off_payload : Text
default_off_payload = codes "OFF"

pub data Which : Type 0 where
  on off : Which

-- The configured value of a state.
abbrev pub configured : ToggleShape → Which → Text
configured shape on = or_default shape.on_payload default_on_payload
configured shape off = or_default shape.off_payload default_off_payload

module _ (R : Runtime) where
  open R use {Num, lower_case, eq_num, numeral}

  abbrev pub target_text : Json Num → Text
  target_text Json.null = []
  target_text v = trim (show_json R v)

  -- What stands at the path in the document, as text.
  unfoldable pub value_at_path : Text → Text → Option Text
  unfolding parse_loose_json resolve_path trim
  value_at_path path payload = do
    json ← parse_loose_json R payload
    target ← (if is_container R json then resolve_path R json path else none)
    some (target_text target)

  -- The stencil's value, else the one at the path, else the payload.
  abbrev pub pick : Option Text → Option Text → Text → Text
  pick (some m) at_path payload = trim m
  pick none at_path payload = or_default at_path (trim payload)

  -- A shape is used trimmed, and only if anything is left of it.
  unfoldable pub extract_payload_value : Text → Option Text → Text
  unfolding has_token match_template trim derive_read_path value_at_path
  extract_payload_value payload read_template =
      let template = non_empty (read_template >>= λ t. some (trim t)) in
      let marked = template >>= λ t. (if has_token t then match_template t payload else none) in
      let at_path = non_empty (template >>= derive_read_path R) >>= λ p. value_at_path p payload in
      pick marked at_path payload

  abbrev pub reference : Text → Text
  reference ref = lower_case (trim ref)

  -- The shared truthiness table: `null` is `none`.
  unfoldable pub truthiness : ExtractedValue Num → Option Bool
  truthiness v = elim v.value [
    | Scalar.bool b ↦ some b
    | Scalar.num n ↦ some (not (eq_num n (numeral 0)))
    | Scalar.text t ↦ none
  ]

-- A rendered message may hold the time: `now` is the clock in milliseconds, and `iso` what it prints.
-- It is the time at which the message is rendered: where a message is read, that of the reading.
module _ (R : Runtime) (now : ℕ) (iso : Text) where
  open R use {lower_case}

  unfoldable pub toggle_write_payload : Text → Option Text → Text
  unfolding has_token render_payload
  toggle_write_payload value payload_template = elim (non_empty payload_template) [
    | none ↦ value
    | some template ↦
        if has_token template
        then render_payload R template (Scalar.text value) none none now iso
        else value
  ]

  -- The field of `toggleWritePayloads` for one state.
  unfoldable pub toggle_write_payloads : ToggleShape → Which → Text
  unfolding toggle_write_payload
  toggle_write_payloads shape which =
      toggle_write_payload (configured shape which) shape.payload_template

  unfoldable pub state_references : ToggleShape → Which → List Text
  unfolding extract_payload_value toggle_write_payloads trim
  state_references shape which =
      let value = configured shape which in
      filter (λ t. not (is_empty t))
        (map (reference R) (
          value
          ∷ extract_payload_value R value shape.read_template
          ∷ toggle_write_payloads shape which
          ∷ []))

  unfoldable pub parse_toggle_state : Text → ToggleShape → Option Bool
  unfolding extract_payload_value state_references truthiness parse_gauge_payload eq_text
  parse_toggle_state payload shape =
      let value = extract_payload_value R payload shape.read_template in
      let lower = lower_case value in
      if is_empty value
      then none
      else if has_word lower (state_references shape on)
      then some true
      else if has_word lower (state_references shape off)
      then some false
      else truthiness R (parse_gauge_payload R value (record { template = none; path = none }))
