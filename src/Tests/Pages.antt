-- ===== src/Tests/Pages.antt =====
-- Runs of the model on concrete inputs: the page of automations.
use Prim.Native.Nat.{Ordering, lt, eq, gt}
use mathlib.Core.List.{Perm}
use mqtt_dashboard.Prelude.{
  List, ℕ, ◌≡◌, refl, Bool, true, false, [], ◌∷◌, Option, none, some, all, any, if◌then◌else◌, ltb,
  length, arith,
}
use mqtt_dashboard.Prelude.Text.{Text, codes, eq_text, trim}
use mqtt_dashboard.Automations.{
  AutomationItem, Page, default_filters, by_automation, by_status, asc, desc, SortState,
  handle_sort, toggle_begins, toggle_fails,
}
use mqtt_dashboard.Automations.Shown.{is_set, is_all, is_col_filtered, displayed_jobs, not_after}
use mqtt_dashboard.Automations.Listed.{IsCollation, flip}
use mqtt_dashboard.Automations.Passing.{Passes}
use mqtt_dashboard.Automations.Displayed.{Selects, AreSorted, displayed_jobs_lem}
use mqtt_dashboard.Automations.Columns.{columns}
use mqtt_dashboard.Automations.Toggled.{agrees, toggle_fails-toggle_begins}
use mqtt_dashboard.Automations.Choices.{available_dashboards, available_types, sorted_choices}
use mqtt_dashboard.Automations.Times.{format_countdown, format_time_ago, format_trigger_mode}

-- Texts compared by their length alone.
abbrev pub by_length : ℕ → ℕ → Ordering
by_length a b = if ltb a b then lt else (if ltb b a then gt else eq)

abbrev pub compare_texts : Text → Text → Ordering
compare_texts a b = by_length (length a) (length b)

by_length-flip : (a b : ℕ) → by_length b a ≡ flip (by_length a b)
by_length-flip a b = ground arith

by_length_trans :
    (a b c : ℕ)
    → not_after asc (by_length a b) ≡ true
    → not_after asc (by_length b c) ≡ true
    → not_after asc (by_length a c) ≡ true
by_length_trans a b c p q = ground arith

compare_texts-IsCollation : IsCollation compare_texts
compare_texts-IsCollation = record {
  flips = λ a b. by_length-flip (length a) (length b);
  trans = λ a b c. by_length_trans (length a) (length b) (length c);
}

abbrev pub as_is : Text → Text
as_is t = t

abbrev no_date : Text → Option ℕ
no_date t = none

abbrev job : Text → Text → Bool → AutomationItem
job id title enabled = record {
  panel_id = id;
  panel_title = title;
  panel_type = codes "logic";
  dashboard_id = codes "d1";
  dashboard_name = codes "Home";
  broker_id = codes "b1";
  broker_name = codes "Local";
  enabled = enabled;
  target_topic = codes "home/fan";
  source_topic = none;
  payload = some (codes "on");
  qos = 0;
  retain = false;
  trigger_type = codes "logic";
  trigger_summary = codes "any";
  trigger_detail = [];
  conditions = [];
  next_run = none;
  last_run = none;
  run_count = none;
  status_detail = none;
}

abbrev fan : AutomationItem
fan = job (codes "p1") (codes "Fan at night") true

abbrev lamp : AutomationItem
lamp = job (codes "p2") (codes "Lamp") false

abbrev page : SortState → Page
page sort = record {
  jobs = fan ∷ lamp ∷ [];
  selected_dashboard_id = codes "all";
  search_query = [];
  filters = default_filters;
  sort = sort;
  toggling_ids = [];
  current_time_ms = 0;
  toast = none;
}

-- Sorted by the name, and with the running jobs alone.
displays :
    (displayed_jobs as_is compare_texts no_date (page (some (by_automation, asc)))
      ≡ lamp ∷ fan ∷ [])
    × (displayed_jobs as_is compare_texts no_date
          (record (page none) { search_query = codes "night" })
        ≡ fan ∷ [])
    × (handle_sort by_status (handle_sort by_status none) ≡ some (by_status, desc))
unfolding displayed_jobs handle_sort
displays = (refl, refl, refl)

displayed_jobs_lem_example :
    (shown : List AutomationItem) × Selects
      (Passes as_is compare_texts no_date (page (some (by_automation, asc))))
      (fan ∷ lamp ∷ [])
      shown
    × Perm (displayed_jobs as_is compare_texts no_date (page (some (by_automation, asc)))) shown
    × AreSorted as_is compare_texts no_date
        (some (by_automation, asc))
        shown
        (displayed_jobs as_is compare_texts no_date (page (some (by_automation, asc))))
displayed_jobs_lem_example =
    displayed_jobs_lem as_is compare_texts no_date (page (some (by_automation, asc)))
      compare_texts-IsCollation

no_mark : any (is_col_filtered default_filters) columns ≡ false
unfolding is_col_filtered
no_mark = refl

blank_search : is_set [] ≡ false
unfolding trim
blank_search = refl

all_dashboards : is_all (codes "all") ≡ true
unfolding eq_text
all_dashboards = refl

other_panel : eq_text lamp.panel_id fan.panel_id ≡ false
unfolding eq_text
other_panel = refl

all_agree : all (agrees fan) (page none).jobs ≡ true
unfolding agrees eq_text
all_agree = refl

toggle_fails-toggle_begins_example :
    toggle_fails fan (toggle_begins lamp (toggle_begins fan (page none)))
    ≡ record (toggle_begins lamp (page none)) {
      toast = some (codes "Failed to update status", false);
    }
toggle_fails-toggle_begins_example =
    toggle_fails-toggle_begins fan lamp (page none) other_panel all_agree refl

texts :
    (format_countdown (λ t. some 3725000) (some (codes "soon")) 0 ≡ codes "in 1h 2m")
    × (format_time_ago (λ t. some 1000) (some (codes "then")) 181000 ≡ codes "3m ago")
    × (format_trigger_mode none ≡ codes "On change")
unfolding format_countdown format_time_ago format_trigger_mode
texts = (refl, refl, refl)

choices :
    (available_dashboards compare_texts ((codes "d1", codes "My home") ∷ []) (fan ∷ lamp ∷ [])
      ≡ (codes "d1", codes "My home") ∷ [])
    × (available_dashboards compare_texts [] (fan ∷ lamp ∷ []) ≡ (codes "d1", codes "Home") ∷ [])
    × (available_types (fan ∷ lamp ∷ []) ≡ codes "logic" ∷ [])
unfolding available_dashboards sorted_choices
choices = (refl, refl, refl)
