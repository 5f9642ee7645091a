-- ===== src/Automations/Columns.antt =====
-- The marks on the columns of the table of automations, and what no mark at all means.
use Prim.Native.Nat.{Ordering}
use mathlib.Core.List.{Perm}
use mqtt_dashboard.Prelude.{
  ℕ, ◌≡◌, refl, ap, ◌∙◌, subst, Bool, true, false, List, [], ◌∷◌, Option, filter, any, arith,
}
use mqtt_dashboard.Prelude.Text.{Text}
use mqtt_dashboard.Automations.{
  AutomationItem, ColumnFilters, SortKey, by_status, by_type, by_automation, by_topic, by_payload,
  by_trigger_execution, by_broker, Page,
}
use mqtt_dashboard.Automations.Shown.{
  is_set, is_all, is_filter_active, is_col_filtered, passes_text, passes_filters, passes_timing,
  is_shown, displayed_jobs,
}
use mqtt_dashboard.Automations.Listed.{displayed_jobs-perm}

abbrev pub columns : List SortKey
columns =
    by_status ∷ by_type ∷ by_automation ∷ by_topic ∷ by_payload ∷ by_trigger_execution ∷ by_broker
    ∷ []

is_filter_active-is_col_filtered :
    (f : ColumnFilters) → is_filter_active f ≡ any (is_col_filtered f) columns
unfolding is_filter_active is_col_filtered
is_filter_active-is_col_filtered f = ground arith

filter_all {ℓ} :
    {A : Type ℓ} (t : A → Bool) (xs : List A) → ((x : A) → t x ≡ true) → filter t xs ≡ xs
filter_all t [] h = refl
filter_all t (x ∷ xs) h = rw (h x) (ap (◌∷◌ x) (filter_all t xs h))

module _ (lower_case : Text → Text) (locale_compare : Text → Text → Ordering)
    (parse_date : Text → Option ℕ) where
  passes_text_blank :
      (query : Text) (matches : Text → Bool)
      → is_set query ≡ false
      → passes_text lower_case locale_compare parse_date query matches ≡ true
  passes_text_blank query matches h = rw h refl

  is_filter_active-passes_filters :
      (f : ColumnFilters) (now : ℕ) (job : AutomationItem)
      → is_filter_active f ≡ false
      → passes_filters lower_case locale_compare parse_date f now job ≡ true
  unfolding is_filter_active passes_filters passes_timing
  is_filter_active-passes_filters f now job h = ground arith

  shown_without_filters :
      (p : Page) (job : AutomationItem)
      → is_filter_active p.filters ≡ false
      → is_set p.search_query ≡ false
      → is_all p.selected_dashboard_id ≡ true
      → is_shown lower_case locale_compare parse_date p job ≡ true
  unfolding is_shown
  shown_without_filters p job h s d =
      rw (d, s) (is_filter_active-passes_filters p.filters p.current_time_ms job h)

  is_filter_active-displayed_jobs :
      (p : Page)
      → is_filter_active p.filters ≡ false
      → is_set p.search_query ≡ false
      → is_all p.selected_dashboard_id ≡ true
      → Perm (displayed_jobs lower_case locale_compare parse_date p) p.jobs
  is_filter_active-displayed_jobs p h s d =
      subst (Perm (displayed_jobs lower_case locale_compare parse_date p))
        (filter_all (is_shown lower_case locale_compare parse_date p) p.jobs
          (λ job. shown_without_filters p job h s d))
        (displayed_jobs-perm lower_case locale_compare parse_date p)

  -- Where no column is marked as filtered, nothing is searched for and all dashboards are chosen,
  -- the filters do not count as active, and every job of the page is displayed, as often as the
  -- page holds it.
  pub is_col_filtered-displayed_jobs :
      (p : Page)
      → any (is_col_filtered p.filters) columns ≡ false
      → is_set p.search_query ≡ false
      → is_all p.selected_dashboard_id ≡ true
      → (is_filter_active p.filters ≡ false)
        × Perm (displayed_jobs lower_case locale_compare parse_date p) p.jobs
  is_col_filtered-displayed_jobs p h s d =
      let same = is_filter_active-is_col_filtered p.filters in
      (same ∙ h, is_filter_active-displayed_jobs p (same ∙ h) s d)
