-- ===== src/Template/Interpolate.antt =====
-- `interpolateTemplate`, `renderPayload`, `previewPayload`, `splitTopics`, `firstTopic` and
-- `detectPayloadMode` of payloadShape.ts.
use mqtt_dashboard.Prelude.{
  ℕ, zero, suc, ◌+◌, ◌/◌, ◌%◌, true, false, ◌||◌, List, [], ◌∷◌, ◌++◌, Option, none, some,
  if◌then◌else◌, ltb, length, head?, or_default, ◌≡◌, arith, Option-cases, inl, inr,
}
use mqtt_dashboard.Prelude.Text.{
  Text, codes, eq_text, is_empty, trim, strip_prefix, split_list, comma,
}
use mqtt_dashboard.Scan.{exec, replace_all}
use mqtt_dashboard.Scan.Laws.{replace-none}
use mqtt_dashboard.Json.Runtime.{Runtime}
use mqtt_dashboard.Value.{Scalar}
use mqtt_dashboard.Template.{token_pattern, unwrap_token, has_any_token}

-- `String(n)` of a whole number.
digits_of : ℕ → ℕ → Text
digits_of zero n = []
digits_of (suc fuel) n =
    let rest = digits_of fuel (n / 10) in
    if ltb n 10 then (b'0' + n) ∷ [] else rest ++ (b'0' + n % 10) ∷ []

-- A number has at most as many digits as one more than itself.
unfoldable pub decimal : ℕ → Text
unfolding digits_of
decimal n = digits_of (suc n) n

unfoldable pub split_topics : Option Text → List Text
unfolding split_list
split_topics none = []
split_topics (some topic) = split_list comma topic

unfoldable pub first_topic : Option Text → Text
unfolding split_topics
first_topic topic = or_default (head? (split_topics topic)) []

-- `Object.prototype.hasOwnProperty.call(values, key)` and `values[key]` in one.
unfoldable pub condition_value : Text → List (Text × Text) → Option Text
unfolding eq_text
condition_value key [] = none
condition_value key ((k, v) ∷ vs) = if eq_text k key then some v else condition_value key vs

module _ (R : Runtime) where
  open R use {Num, show_number, json_parse}

  -- `String(value)`
  abbrev pub show_scalar : Scalar Num → Text
  show_scalar (Scalar.text s) = s
  show_scalar (Scalar.num n) = show_number n
  show_scalar (Scalar.bool true) = codes "true"
  show_scalar (Scalar.bool false) = codes "false"

  -- The instant is the context's, or the current time, in milliseconds; `iso` is what
  -- `toISOString` prints of it.
  pub record TemplateContext : Type 0 where
    pub value : Option (Scalar Num)
    pub topic : Option Text
    pub payload : Option Text
    pub timestamp : ℕ
    pub iso : Text
    pub condition_values : Option (List (Text × Text))

  -- The token itself stands for a part of the context that is undefined.
  abbrev pub value_or : Option (Scalar Num) → Text → Text
  value_or none d = d
  value_or (some v) d = show_scalar v

  -- `{{value:key}}`
  unfoldable pub interpolate_condition : TemplateContext → Text → Text
  unfolding condition_value
  interpolate_condition ctx key = elim ctx.condition_values [
    | none ↦ value_or ctx.value []
    | some values ↦ or_default (condition_value key values) []
  ]

  unfoldable pub interpolate_token : TemplateContext → Text → Text
  unfolding unwrap_token eq_text strip_prefix trim interpolate_condition decimal
  interpolate_token ctx match =
      let name = unwrap_token match in
      if eq_text name (codes "value")
      then value_or ctx.value match
      else if eq_text name (codes "topic")
      then or_default ctx.topic match
      else if eq_text name (codes "payload")
      then or_default ctx.payload match
      else if eq_text name (codes "timestamp")
      then decimal (ctx.timestamp / 1000)
      else if eq_text name (codes "timestamp:ms")
      then decimal ctx.timestamp
      else if eq_text name (codes "timestamp:iso") || eq_text name (codes "iso_timestamp")
      then ctx.iso
      else elim (strip_prefix (codes "value:") name) [
        | none ↦ match
        | some key ↦ interpolate_condition ctx (trim key)
      ]

  unfoldable pub interpolate_template : Text → TemplateContext → Text
  unfolding replace_all token_pattern interpolate_token
  interpolate_template template ctx = replace_all token_pattern (interpolate_token ctx) template

  -- `firstTopic(topic) || topic`
  unfoldable pub render_topic : Option Text → Option Text
  unfolding first_topic
  render_topic topic = if is_empty (first_topic topic) then topic else some (first_topic topic)

  -- The current time enters as `timestamp` and `iso`.
  unfoldable pub render_payload : Text → Scalar Num → Option Text → Option Text → ℕ → Text → Text
  unfolding interpolate_template render_topic
  render_payload template value topic payload timestamp iso =
      interpolate_template template (record {
        value = some value;
        topic = render_topic topic;
        payload = payload;
        timestamp = timestamp;
        iso = iso;
        condition_values = none;
      })

  -- A template without tokens is published as it is written, whatever the context.
  pub interpolate_template-has_any_token :
      (template : Text) (ctx : TemplateContext)
      → has_any_token template ≡ false
      → interpolate_template template ctx ≡ template
  unfolding interpolate_template has_any_token replace_all
  interpolate_template-has_any_token t ctx h = elim (Option-cases (exec token_pattern t)) [
    | inl e ↦ replace-none (suc (length t)) token_pattern (interpolate_token ctx) t e
    | inr ((b, m, r), e) ↦ ground arith
  ]
