-- ===== src/Template/KeepOne.antt =====
-- `keepOneToken` and `offsetAfterKeepOneToken` of payloadShape.ts.
pub mod Offset
use mqtt_dashboard.Prelude.{
  ℕ, zero, suc, ◌+◌, ◌-◌, [], ◌++◌, none, some, length, if◌then◌else◌, leb, ltb,
}
use mqtt_dashboard.Prelude.Text.{Text}
use mqtt_dashboard.Scan.{lit, exec, replace, replace_all}
use mqtt_dashboard.Template.{value_token}

-- `template.slice(0, upto) + template.slice(upto).split(VALUE_TOKEN).join("")`: splitting at every
-- occurrence and joining with nothing drops the occurrences, found from left to right.
unfoldable pub keep_one_token : Text → Text
unfolding exec lit replace_all
keep_one_token template = elim (exec (lit value_token) template) [
  | none ↦ template
  | some (b, m, r) ↦ b ++ (m ++ replace_all (lit value_token) (λ x. []) r)
]

-- One round of the loop: an occurrence to be dropped starts at `dropped`.
abbrev pub offset_step : ℕ → ℕ → ℕ → ℕ
offset_step offset dropped result =
    if leb (dropped + length value_token) offset
    then result - length value_token
    else if ltb dropped offset
    then result - (offset - dropped)
    else result

-- The loop; `s` is the template from `pos` on. `Math.max(0, ·)` at the end is the truncated
-- subtraction of each round, since the result only falls.
unfoldable pub offset_loop : ℕ → ℕ → Text → ℕ → ℕ → ℕ
unfolding exec lit
offset_loop zero pos s offset result = result
offset_loop (suc fuel) pos s offset result = elim (exec (lit value_token) s) [
  | none ↦ result
  | some (b, m, r) ↦
      let dropped = pos + length b in
      offset_loop fuel (dropped + length value_token) r offset (offset_step offset dropped result)
]

unfoldable pub offset_after_keep_one_token : Text → ℕ → ℕ
unfolding offset_loop
offset_after_keep_one_token template offset = elim (exec (lit value_token) template) [
  | none ↦ offset
  | some (b, m, r) ↦ offset_loop (suc (length r)) (length b + length value_token) r offset offset
]
