-- ===== src/Json.antt =====
-- JSON documents as `JSON.parse` gives them, and what the program asks of the JavaScript runtime.
-- The keys of an object come in its own order, each once.
pub mod Runtime
use mqtt_dashboard.Prelude.{
  ℕ, zero, suc, Bool, true, false, List, [], ◌∷◌, Option, none, some, if◌then◌else◌, length,
}
use mqtt_dashboard.Prelude.Text.{Text, eq_text}

mutual
  pub data Json (N : Type 0) : Type 0 where
    null : Json N
    bool : Bool → Json N
    num : N → Json N
    str : Text → Json N
    arr : Items N → Json N
    obj : Fields N → Json N

  pub data Items (N : Type 0) : Type 0 where
    nil : Items N
    cons : Json N → Items N → Items N

  pub data Fields (N : Type 0) : Type 0 where
    end : Fields N
    field : Text → Json N → Fields N → Fields N

module _ {N : Type 0} where
  -- `Object.prototype.hasOwnProperty.call(obj, key)` and `obj[key]` in one.
  unfoldable pub get_key : Text → Fields N → Option (Json N)
  unfolding eq_text
  get_key key end = none
  get_key key (field k v fs) = if eq_text k key then some v else get_key key fs

  -- `xs[index]`, if it is within the array.
  unfoldable pub get_item : ℕ → Items N → Option (Json N)
  get_item i nil = none
  get_item zero (cons v vs) = some v
  get_item (suc i) (cons v vs) = get_item i vs

  -- `typeof value !== "object" || value === null`
  abbrev pub is_scalar : Json N → Bool
  is_scalar (arr vs) = false
  is_scalar (obj fs) = false
  is_scalar v = true
