-- ===== src/Json/Runtime.antt =====
-- What the program uses of the JavaScript runtime and what no source here says: floating-point
-- numbers, `JSON.parse`, `JSON.stringify` and the case tables of Unicode.
use mqtt_dashboard.Prelude.{ℕ, Bool, Option}
use mqtt_dashboard.Prelude.Text.{Text}
use mqtt_dashboard.Json.{Json}

pub record Runtime : Type 1 where
  -- A number of the program; `NaN` is none of these.
  pub Num : Type 0
  -- `Number(text)`; `none` is `NaN`.
  pub to_number : Text → Option Num
  -- `String(n)`
  pub show_number : Num → Text
  -- The numbers for which `Number.isInteger(n) && n >= 0`.
  pub as_index : Num → Option ℕ
  -- `JSON.parse`; `none` is an exception.
  pub json_parse : Text → Option (Json Num)
  pub json_stringify : Json Num → Text
  -- `String(value)` of an object or an array.
  pub show_container : Json Num → Text
  pub lower_case : Text → Text
  pub upper_case : Text → Text
  pub eq_num : Num → Num → Bool
  pub lt_num : Num → Num → Bool
  pub is_finite : Num → Bool
  -- A numeral of the source.
  pub numeral : ℕ → Num
