-- ===== src/Automations/Times.antt =====
-- The texts of frontend/src/pages/AutomationsPage.tsx: `formatCountdown`, `formatTriggerMode` and
-- `formatTimeAgo`.
use mqtt_dashboard.Prelude.{
  ℕ, ◌-◌, ◌/◌, ◌%◌, ◌≤◌, ◌≡◌, [], ◌∷◌, ◌++◌, Option, none, some, if◌then◌else◌, ltb, leb, arith,
}
use mqtt_dashboard.Prelude.Text.{Text, codes, eq_text}
use mqtt_dashboard.Template.Interpolate.{decimal}
use mqtt_dashboard.Panel.Logic.Summary
use mqtt_dashboard.Panel.Logic.Summary.{age_text}

abbrev two_units : ℕ → Text → ℕ → Text → Text
two_units n unit m small =
    codes "in " ++ (decimal n ++ (unit ++ (codes " " ++ (decimal m ++ small))))

-- The seconds that are left, in the two largest of the units that fit.
unfoldable pub countdown_text : ℕ → Text
unfolding decimal
countdown_text seconds =
    let minutes = seconds / 60 in
    let hours = minutes / 60 in
    if ltb seconds 60
    then codes "in " ++ (decimal seconds ++ codes "s")
    else if ltb minutes 60
    then two_units minutes (codes "m") (seconds % 60) (codes "s")
    else if ltb hours 24
    then two_units hours (codes "h") (minutes % 60) (codes "m")
    else two_units (hours / 24) (codes "d") (hours % 24) (codes "h")

module _ (parse_date : Text → Option ℕ) where
  unfoldable pub format_countdown : Option Text → ℕ → Text
  unfolding countdown_text
  format_countdown none now = codes "—"
  format_countdown (some []) now = codes "—"
  format_countdown (some (c ∷ text)) now = elim (parse_date (c ∷ text)) [
    | none ↦ codes "—"
    | some target ↦
        if ltb target 1000
        then codes "—"
        else if leb target now
        then codes "due now"
        else countdown_text ((target - now) / 1000)
  ]

  unfoldable pub format_time_ago : Option Text → ℕ → Text
  unfolding age_text
  format_time_ago none now = []
  format_time_ago (some []) now = []
  format_time_ago (some (c ∷ text)) now = elim (parse_date (c ∷ text)) [
    | none ↦ []
    | some date ↦ if ltb date 1000 then [] else age_text ((now - date) / 1000)
  ]

  -- The two texts for an age agree from ten seconds on, for dates behind the first second of 1970.
  format_time_ago-format_time_ago :
      (c : ℕ) (text : Text) (date now : ℕ)
      → parse_date (c ∷ text) ≡ some date
      → 1000 ≤ date
      → 10000 ≤ now - date
      → format_time_ago (some (c ∷ text)) now
        ≡ Summary.format_time_ago parse_date (some (c ∷ text)) now
  unfolding format_time_ago Summary.format_time_ago
  format_time_ago-format_time_ago c text date now e l h =
      rw (e, format_time_ago, Summary.format_time_ago) (ground arith)

unfoldable pub format_trigger_mode : Option Text → Text
unfolding eq_text
format_trigger_mode none = codes "On change"
format_trigger_mode (some mode) =
    if eq_text mode (codes "every")
    then codes "Every match"
    else if eq_text mode (codes "count")
    then codes "Count match"
    else if eq_text mode (codes "sustained")
    then codes "Sustained"
    else codes "On change"
