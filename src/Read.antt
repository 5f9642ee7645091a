-- ===== src/Read.antt =====
-- Reading a value through a shape, payloadShape.ts: `matchTemplate`, `readValue`, `readAtPath`,
-- `readShape`, `storedReadTemplate`, `effectiveReadTemplate`, `effectiveReadPath`, `payloadIssue`.
pub mod Stencil
pub mod Path
pub mod Agree
use mqtt_dashboard.Prelude.{
  ℕ, Bool, true, false, not, ◌&&◌, List, [], ◌∷◌, ◌++◌, Option, none, some, if◌then◌else◌, ◌>>=◌,
  or_default,
}
use mqtt_dashboard.Prelude.Text.{Text, codes, is_empty, trim}
use mqtt_dashboard.Json
use mqtt_dashboard.Json.{Json, is_scalar}
use mqtt_dashboard.Json.Runtime.{Runtime}
use mqtt_dashboard.Template.{has_token, is_bare_token, token_label}
use mqtt_dashboard.Value.{
  Scalar, ExtractedValue, coerce_value, extract_value, parse_loose_json, resolve_path, show_json,
}
use mqtt_dashboard.Read.Stencil.{match_template}
use mqtt_dashboard.Read.Path.{derive_read_path}

pub record ShapeRead (N : Type 0) : Type 0 where
  pub extracted : ExtractedValue N
  pub found : Bool
  pub text : Text

-- `config` of `storedReadTemplate`.
pub record ReadConfig : Type 0 where
  pub payload_template : Option Text
  pub read_template : Option Text
  pub separate_read : Bool

unfoldable pub effective_read_template : ReadConfig → Option Text
effective_read_template config =
    if config.separate_read
    then (elim config.read_template [ none ↦ config.payload_template | some t ↦ some t ])
    else config.payload_template

-- A text that is not empty, as `template ? … : null` asks.
abbrev pub non_empty : Option Text → Option Text
non_empty none = none
non_empty (some []) = none
non_empty (some (c ∷ s)) = some (c ∷ s)

abbrev pub or_else {ℓ} : {A : Type ℓ} → Option A → Option A → Option A
or_else none b = b
or_else (some a) b = some a

pub data Mode : Type 0 where
  write read : Mode

-- The messages of `payloadIssue`, by what they say.
pub data Issue : Type 0 where
  no_read_chip add_chip no_message : Issue

unfoldable pub payload_issue : Text → Bool → Mode → Option Issue
unfolding has_token trim
payload_issue template accepts_token read = if has_token template then none else some no_read_chip
payload_issue template accepts_token write =
    if accepts_token && not (has_token template)
    then some (if is_empty (trim template) then no_message else add_chip)
    else none

module _ (R : Runtime) where
  open R use {Num}

  unfoldable pub effective_read_path : ReadConfig → Option Text
  unfolding derive_read_path effective_read_template
  effective_read_path config = do
    source ← non_empty (effective_read_template config)
    derive_read_path R source

  -- The stencil's hit, if a shape is given.
  abbrev pub stencil : Option Text → Text → Option Text
  stencil template message = non_empty template >>= λ t. match_template t message

  unfoldable pub read_value : Option Text → Text → Option Text → ExtractedValue Num
  unfolding coerce_value extract_value
  read_value template message fallback_path = elim (stencil template message) [
    | some stencilled ↦ coerce_value R (Json.str stencilled) message
    | none ↦
        extract_value R message (or_else (non_empty template >>= derive_read_path R) fallback_path)
  ]

  abbrev pub scalar_read : Json Num → Text → Option (ShapeRead Num)
  scalar_read v message =
      if is_scalar v
      then some (record {
        extracted = coerce_value R v message;
        found = true;
        text = trim (show_json R v);
      })
      else none

  unfoldable pub read_at_path : Text → Text → Option (ShapeRead Num)
  unfolding coerce_value trim
  read_at_path message path = do
    json ← parse_loose_json R message
    v ← resolve_path R json path
    scalar_read v message

  -- The whole message as the value.
  unfoldable pub whole_message : Bool → Text → ShapeRead Num
  unfolding coerce_value trim
  whole_message found message = record {
    extracted = coerce_value R (Json.str message) message;
    found = found;
    text = trim message;
  }

  unfoldable pub read_shape : Text → Text → Option Text → ShapeRead Num
  unfolding trim is_bare_token whole_message read_at_path
  read_shape template message fallback_path =
      let shape = trim template in
      let legacy = non_empty (fallback_path >>= λ p. some (trim p)) in
      if (if is_empty shape then true else is_bare_token shape)
      then or_default (legacy >>= λ p. read_at_path message p) (whole_message true message)
      else elim (match_template shape message) [
        | some stencilled ↦ record {
          extracted = coerce_value R (Json.str stencilled) message;
          found = true;
          text = trim stencilled;
        }
        | none ↦
            or_default
              (non_empty (or_else (derive_read_path R shape) legacy) >>= λ p.
                read_at_path message p)
              (whole_message false message)
      ]
