-- ===== src/Template/Preview.antt =====
-- What the editor of a payload shows: `detectPayloadMode` and `previewPayload` of payloadShape.ts.
use mqtt_dashboard.Prelude.{
  ℕ, Bool, false, ◌&&◌, ◌||◌, List, [], ◌∷◌, Option, none, some, if◌then◌else◌, or_default,
}
use mqtt_dashboard.Prelude.Text.{Text, codes, eq_text, is_empty, strip_prefix, starts_with, trim}
use mqtt_dashboard.Json.{Json, is_scalar}
use mqtt_dashboard.Json.Runtime.{Runtime}
use mqtt_dashboard.Scan.{replace_all}
use mqtt_dashboard.Template.{token_pattern}
use mqtt_dashboard.Template.Interpolate.{interpolate_template, first_topic}
use mqtt_dashboard.Value.{Scalar}

pub data PayloadMode : Type 0 where
  mode_json mode_raw : PayloadMode

abbrev pub ends_in : ℕ → Text → Bool
ends_in c [] = false
ends_in c (d ∷ []) = eq_text (d ∷ []) (c ∷ [])
ends_in c (d ∷ e ∷ s) = ends_in c (e ∷ s)

abbrev pub looks_like_document : Text → Bool
looks_like_document t =
    starts_with (codes "{") t && ends_in b'}' t || starts_with (codes "[") t && ends_in b']' t

-- What the preview reads of a token that is on offer.
pub record TokenOption : Type 0 where
  pub name : Text
  pub preview : Option Text

-- `conditionValues[key] = preview` for each; the last one of a key stands first, where it is found.
unfoldable pub preview_values :
    List TokenOption → Option (List (Text × Text)) → Option (List (Text × Text))
unfolding strip_prefix trim
preview_values [] values = values
preview_values (t ∷ ts) values =
    let rest = preview_values ts values in
    elim (strip_prefix (codes "value:") t.name) [
      | none ↦ rest
      | some key ↦
          let preview = or_default t.preview [] in
          let more = preview_values ts (some ((trim key, preview) ∷ or_default values [])) in
          if is_empty preview then rest else more
    ]

module _ (R : Runtime) where
  open R use {Num, json_parse}

  abbrev pub mode_of : Option (Json Num) → PayloadMode
  mode_of none = mode_raw
  mode_of (some v) = if is_scalar v then mode_raw else mode_json

  unfoldable pub detect_payload_mode : Text → PayloadMode
  unfolding trim strip_prefix eq_text replace_all token_pattern
  detect_payload_mode template_or_query =
      let trimmed = trim template_or_query in
      if looks_like_document trimmed
      then mode_of (json_parse (replace_all token_pattern (λ m. codes "0") trimmed))
      else mode_raw

  -- A value that is there and not the empty text.
  abbrev pub preview_value : Option (Scalar Num) → Scalar Num
  preview_value none = Scalar.text (codes "21.5")
  preview_value (some (Scalar.text [])) = Scalar.text (codes "21.5")
  preview_value (some v) = v

  -- `a || b`
  abbrev pub or_text : Text → Text → Text
  or_text a b = if is_empty a then b else a

  unfoldable pub preview_payload :
      Text
      → Option (Scalar Num)
      → Option Text
      → Option Text
      → Option (List TokenOption)
      → ℕ
      → Text
      → Text
  unfolding trim first_topic preview_values interpolate_template
  preview_payload template value topic sample_payload available_tokens timestamp iso =
      interpolate_template R template (record {
        value = some (preview_value value);
        topic = some (or_text (first_topic topic) (codes "sensor/temp"));
        payload = some (or_text (trim (or_default sample_payload [])) (codes "{\"temp\":21.5}"));
        timestamp = timestamp;
        iso = iso;
        condition_values = preview_values (or_default available_tokens []) none;
      })
