-- ===== src/Automations/Shown.antt =====
-- What the page of automations shows of its jobs: the filters and the sorting of AutomationsPage.tsx.
use Prim.Native.Nat.{Ordering, lt, eq, gt}
use mqtt_dashboard.Prelude.{
  ℕ, ◌+◌, Bool, true, false, not, ◌&&◌, ◌||◌, List, [], ◌∷◌, ◌++◌, Option, none, some, filter, any,
  if◌then◌else◌, is_some, ◌==◌, ltb, or_default,
}
use mqtt_dashboard.Prelude.Text.{Text, codes, eq_text, includes, is_empty, trim}
use mqtt_dashboard.Prelude.Sort.{sort_by}
use mqtt_dashboard.Automations.{
  AutomationItem, StatusFilter, any_status, active, paused, TimingFilter, any_time, scheduled, soon,
  ColumnFilters, SortKey, by_status, by_type, by_automation, by_topic, by_payload,
  by_trigger_execution, by_broker, SortOrder, asc, desc, SortState, Page,
}

abbrev pub is_set : Text → Bool
is_set t = not (is_empty (trim t))

abbrev pub is_all : Text → Bool
is_all t = eq_text t (codes "all")

abbrev pub same_retain : Bool → Bool → Bool
same_retain true b = b
same_retain false b = not b

unfoldable pub is_filter_active : ColumnFilters → Bool
unfolding trim eq_text
is_filter_active f =
    (elim f.status [ any_status ↦ false | active ↦ true | paused ↦ true ])
    || not (is_all f.type)
    || is_set f.automation
    || is_set f.topic
    || is_set f.payload
    || is_some f.qos
    || is_some f.retain
    || is_set f.trigger_execution
    || (elim f.timing [ any_time ↦ false | scheduled ↦ true | soon ↦ true ])
    || not (is_empty f.broker)

unfoldable pub is_col_filtered : ColumnFilters → SortKey → Bool
unfolding trim eq_text
is_col_filtered f by_status = elim f.status [ any_status ↦ false | active ↦ true | paused ↦ true ]
is_col_filtered f by_type = not (is_all f.type)
is_col_filtered f by_automation = is_set f.automation
is_col_filtered f by_topic = is_set f.topic
is_col_filtered f by_payload = is_set f.payload || is_some f.qos || is_some f.retain
is_col_filtered f by_trigger_execution =
    is_set f.trigger_execution
    || (elim f.timing [ any_time ↦ false | scheduled ↦ true | soon ↦ true ])
is_col_filtered f by_broker = not (is_empty f.broker)

abbrev pub soon_ms : ℕ
soon_ms = 300000

abbrev pub passes_status : StatusFilter → Bool → Bool
passes_status any_status enabled = true
passes_status active enabled = enabled
passes_status paused enabled = not enabled

-- An instant that is no date is in no comparison.
abbrev pub is_soon : ℕ → Option ℕ → Bool
is_soon now none = true
is_soon now (some t) = not (ltb (now + soon_ms) t || ltb t now)

abbrev pub passes_qos : Option ℕ → ℕ → Bool
passes_qos none qos = true
passes_qos (some q) qos = qos == q

abbrev pub passes_retain : Option Bool → Bool → Bool
passes_retain none retain = true
passes_retain (some r) retain = same_retain retain r

abbrev pub passes_dashboard : Text → AutomationItem → Bool
passes_dashboard selected job = is_all selected || eq_text job.dashboard_id selected

abbrev pub compare_enabled : Bool → Bool → Ordering
compare_enabled true true = eq
compare_enabled true false = gt
compare_enabled false true = lt
compare_enabled false false = eq

-- The comparison times `dir` is not above 0.
abbrev pub not_after : SortOrder → Ordering → Bool
not_after asc gt = false
not_after asc _ = true
not_after desc lt = false
not_after desc _ = true

-- `toLowerCase` and `localeCompare` of the runtime, and `new Date(text).getTime()` for dates from
-- 1970 on, where `none` is `NaN`.
module _ (lower_case : Text → Text) (locale_compare : Text → Text → Ordering)
    (parse_date : Text → Option ℕ) where
  -- `text.toLowerCase().includes(q)`
  abbrev pub has_lower : Text → Text → Bool
  has_lower q t = includes q (lower_case t)

  -- `Boolean(text) && text.toLowerCase().includes(q)`
  abbrev pub has_optional : Text → Option Text → Bool
  has_optional q none = false
  has_optional q (some t) = not (is_empty t) && has_lower q t

  unfoldable pub matches_global : Text → AutomationItem → Bool
  unfolding includes
  matches_global q job =
      has_lower q job.target_topic
      || has_optional q job.source_topic
      || any (λ c. has_optional q c.topic || has_optional q c.value) job.conditions
      || has_lower q job.panel_title
      || has_lower q job.dashboard_name
      || has_lower q job.broker_name
      || has_lower q job.panel_type
      || has_lower q job.trigger_summary
      || has_lower q job.trigger_detail
      || has_optional q job.payload

  -- A filter that is blank lets everything pass.
  abbrev pub passes_text : Text → (Text → Bool) → Bool
  passes_text query matches = if is_set query then matches (lower_case query) else true

  unfoldable pub passes_timing : TimingFilter → ℕ → AutomationItem → Bool
  unfolding eq_text
  passes_timing any_time now job = true
  passes_timing scheduled now job =
      job.enabled
      && not (eq_text job.trigger_type (codes "schedule") && is_empty (or_default job.next_run []))
  passes_timing soon now job =
      job.enabled
      && not (is_empty (or_default job.next_run []))
      && is_soon now (parse_date (or_default job.next_run []))

  -- The filters of the columns, one after another.
  unfoldable pub passes_filters : ColumnFilters → ℕ → AutomationItem → Bool
  unfolding trim includes eq_text passes_timing
  passes_filters f now job =
      passes_status f.status job.enabled
      && (is_all f.type || eq_text (lower_case job.panel_type) (lower_case f.type))
      && passes_text f.automation
          (λ q. has_lower q job.panel_title || has_lower q job.dashboard_name)
      && passes_text f.topic (λ q. has_lower q job.target_topic)
      && passes_text f.payload (λ q. has_lower q (or_default job.payload []))
      && passes_qos f.qos job.qos
      && passes_retain f.retain job.retain
      && passes_text f.trigger_execution (λ q.
        has_lower q job.trigger_summary
        || has_lower q job.trigger_detail
        || has_optional q job.status_detail)
      && passes_timing f.timing now job
      && (is_empty f.broker || eq_text job.broker_name f.broker)

  unfoldable pub is_shown : Page → AutomationItem → Bool
  unfolding eq_text trim matches_global passes_filters
  is_shown p job =
      passes_dashboard p.selected_dashboard_id job
      && passes_text p.search_query (λ q. matches_global q job)
      && passes_filters p.filters p.current_time_ms job

  -- `${a || ""} ${b || ""}`.toLowerCase()
  abbrev pub lower_pair : Text → Text → Text
  lower_pair a b = lower_case (a ++ b' ' ∷ b)

  unfoldable pub compare_jobs : SortKey → AutomationItem → AutomationItem → Ordering
  compare_jobs by_status a b = compare_enabled a.enabled b.enabled
  compare_jobs by_type a b = locale_compare a.panel_type b.panel_type
  compare_jobs by_automation a b =
      locale_compare (lower_pair a.panel_title a.dashboard_name)
        (lower_pair b.panel_title b.dashboard_name)
  compare_jobs by_topic a b = locale_compare a.target_topic b.target_topic
  compare_jobs by_payload a b = locale_compare (or_default a.payload []) (or_default b.payload [])
  compare_jobs by_trigger_execution a b =
      locale_compare (lower_pair a.trigger_summary a.trigger_detail)
        (lower_pair b.trigger_summary b.trigger_detail)
  compare_jobs by_broker a b = locale_compare a.broker_name b.broker_name

  abbrev pub may_precede : SortKey → SortOrder → AutomationItem → AutomationItem → Bool
  may_precede key order a b = not_after order (compare_jobs key a b)

  abbrev pub sorted_jobs : SortState → List AutomationItem → List AutomationItem
  sorted_jobs none jobs = jobs
  sorted_jobs (some (key, order)) jobs = sort_by (may_precede key order) jobs

  unfoldable pub displayed_jobs : Page → List AutomationItem
  unfolding is_shown compare_jobs sort_by
  displayed_jobs p = sorted_jobs p.sort (filter (is_shown p) p.jobs)
