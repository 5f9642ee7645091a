-- ===== src/Tests/Times.antt =====
-- Runs of the model on concrete inputs: the series of a graph and cron expressions.
use mqtt_dashboard.Prelude.{
  ℕ, ◌+◌, ◌-◌, ◌*◌, ◌/◌, ◌%◌, ◌≡◌, ◌↔◌, ◌<◌, ◌≤◌, refl, ap, true, false, [], ◌∷◌, none, some,
  length, arith,
}
use mqtt_dashboard.Prelude.Text.{Text, codes, is_empty, trim}
use mqtt_dashboard.Graph.{
  GraphPoint, GraphSeries, TrimOptions, append_point, trim_series, nearest_point,
}
use mqtt_dashboard.Graph.Plotted.{IsPlotted, append_point-IsPlotted}
use mqtt_dashboard.Graph.Nearest.{IsNearest, nearest_point-IsNearest}
use mqtt_dashboard.Cron.{
  CronParts, bad_value, out_of_range, cron_fields, five_parts, split_spaces, validate_cron,
  matches_cron, match_cron_part,
}
use mqtt_dashboard.Cron.Valid.{AreFields, validate_cron_iff}
use mqtt_dashboard.Cron.Search.{
  Calendar, IsCalendar, IsLatest, get_previous_cron_run, get_previous_cron_run-IsLatest,
}

abbrev at : ℕ → GraphPoint ℕ
at t = record { t = t; v = t * 2 }

abbrev den : GraphSeries ℕ
den = record { topic = codes "den"; points = at 1 ∷ at 5 ∷ at 9 ∷ [] }

abbrev options : TrimOptions
options = record { max_points = 3; window_ms = 0; now = 10 }

late_point :
    append_point (den ∷ []) (codes "den") (at 7) options (some 1)
    ≡ record { topic = codes "den"; points = at 5 ∷ at 7 ∷ at 9 ∷ [] } ∷ []
unfolding append_point
late_point = refl

series_dropped :
    (append_point (den ∷ []) (codes "attic") (at 7) options (some 1) ≡ den ∷ [])
    × (trim_series (den ∷ []) (record options { window_ms = 2; now = 20 }) ≡ [])
unfolding append_point trim_series
series_dropped = (refl, refl)

den-IsPlotted : IsPlotted 3 (some 2) (den ∷ [])
den-IsPlotted = record {
  drawable = ground arith;
  one_each = ground arith;
  allowed = λ max h. ground arith;
}

append_point-IsPlotted_example :
    IsPlotted 3 (some 2) (append_point (den ∷ []) (codes "attic") (at 7) options (some 2))
append_point-IsPlotted_example =
    append_point-IsPlotted (codes "attic") (at 7) options (den ∷ []) (some 2) den-IsPlotted

nearest_is : nearest_point (at 1 ∷ at 5 ∷ at 9 ∷ []) 7 ≡ some (at 5)
unfolding nearest_point
nearest_is = refl

nearest_point-IsNearest_example :
    (best : GraphPoint ℕ) × (nearest_point (at 1 ∷ at 5 ∷ at 9 ∷ []) 7 ≡ some best)
    × IsNearest 7 best (at 1 ∷ at 5 ∷ at 9 ∷ [])
nearest_point-IsNearest_example = nearest_point-IsNearest 7 (at 1) (at 5 ∷ at 9 ∷ [])

abbrev every_quarter : Text
every_quarter = codes "*/15 8-17 * * 1,3"

cron_errors :
    (validate_cron every_quarter ≡ none)
    × (validate_cron (codes "60 * * * *") ≡ some (out_of_range (codes "minute") 60))
    × (validate_cron (codes "* * * * MON") ≡ some (bad_value (codes "weekday") (codes "MON")))
    × (match_cron_part 1 (codes "*/2") 1 ≡ true)
unfolding validate_cron match_cron_part
cron_errors = (refl, refl, refl, refl)

validate_cron_iff_example : (validate_cron every_quarter ≡ none) ↔ (
    (is_empty (trim every_quarter) ≡ false)
    × (length (split_spaces (trim every_quarter)) ≡ 5)
    × AreFields cron_fields (split_spaces (trim every_quarter)))
validate_cron_iff_example = validate_cron_iff every_quarter

-- Days of 24 hours, all in one long month.
abbrev days : Calendar
days = record {
  local = λ t. record {
    minutes = t % 60;
    hours = t / 60 % 24;
    date = t / 1440;
    month = 0;
    day = t / 1440 % 7;
  };
  end_of_previous_day = λ t. t / 1440 * 1440 - 1;
  year_back = λ t. t - 366 * 1440;
}

same_number : (t u : ℕ) → t / 1440 * 1440 - 1 < u → u ≤ t → u / 1440 ≡ t / 1440
same_number t u h k = omega arith

days-IsCalendar : IsCalendar days
days-IsCalendar = record {
  earlier = λ t h. omega arith;
  same_day = λ t u h k. (same_number t u h k, refl, ap (λ d. d % 7) (same_number t u h k));
}

-- A little after noon on a Monday.
abbrev noon : ℕ
noon = 400 * 1440 + 12 * 60 + 5

previous_run :
    (get_previous_cron_run days every_quarter (387 * 1440 + 12 * 60 + 5)
      ≡ some (386 * 1440 + 17 * 60 + 45))
    × (matches_cron every_quarter (days.local (386 * 1440 + 17 * 60 + 45)) ≡ true)
unfolding get_previous_cron_run matches_cron
previous_run = (refl, refl)

get_previous_cron_run-IsLatest_example :
    (parts : CronParts) × (five_parts (split_spaces (trim every_quarter)) ≡ some parts)
    × IsLatest days parts
        (days.year_back (noon - 1))
        (noon - 1)
        (get_previous_cron_run days every_quarter noon)
get_previous_cron_run-IsLatest_example =
    get_previous_cron_run-IsLatest days every_quarter noon cron_errors.0 days-IsCalendar
      (omega arith) (omega arith)

-- A step of 0 is valid and matches no time; a step behind a single number is not looked at.
odd_steps :
    (validate_cron (codes "*/0 * * * *") ≡ none)
    × (match_cron_part 0 (codes "*/0") 0 ≡ false)
    × (validate_cron (codes "5/10 * * * *") ≡ none)
    × (match_cron_part 15 (codes "5/10") 0 ≡ false)
unfolding validate_cron match_cron_part
odd_steps = (refl, refl, refl, refl)
