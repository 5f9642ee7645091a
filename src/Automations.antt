-- ===== src/Automations.antt =====
-- frontend/src/pages/AutomationsPage.tsx: the jobs that it holds, what a toggle does to them, and
-- the choices of its filters and of its sorting.
pub mod Shown
pub mod Listed
pub mod Fits
pub mod Passing
pub mod Displayed
pub mod Columns
pub mod Toggled
pub mod Times
pub mod Choices
use mqtt_dashboard.Prelude.{
  ℕ, Bool, true, false, not, ◌&&◌, List, [], ◌∷◌, ◌++◌, Option, none, some, map, filter, any,
  if◌then◌else◌,
}
use mqtt_dashboard.Prelude.Text.{Text, codes, eq_text}
use mqtt_dashboard.Panel.Logic.{Condition}

-- `AutomationItem` of frontend/src/api/client.ts; a job without conditions has none in its list.
pub record AutomationItem : Type 0 where
  pub panel_id : Text
  pub panel_title : Text
  pub panel_type : Text
  pub dashboard_id : Text
  pub dashboard_name : Text
  pub broker_id : Text
  pub broker_name : Text
  pub enabled : Bool
  pub target_topic : Text
  pub source_topic : Option Text
  pub payload : Option Text
  pub qos : ℕ
  pub retain : Bool
  pub trigger_type : Text
  pub trigger_summary : Text
  pub trigger_detail : Text
  pub conditions : List Condition
  pub next_run : Option Text
  pub last_run : Option Text
  pub run_count : Option ℕ
  pub status_detail : Option Text

pub data StatusFilter : Type 0 where
  any_status active paused : StatusFilter

pub data TimingFilter : Type 0 where
  any_time scheduled soon : TimingFilter

pub record ColumnFilters : Type 0 where
  pub status : StatusFilter
  pub type : Text
  pub automation : Text
  pub topic : Text
  pub payload : Text
  pub qos : Option ℕ
  pub retain : Option Bool
  pub trigger_execution : Text
  pub timing : TimingFilter
  pub broker : Text

abbrev pub default_filters : ColumnFilters
default_filters = record {
  status = any_status;
  type = codes "all";
  automation = [];
  topic = [];
  payload = [];
  qos = none;
  retain = none;
  trigger_execution = [];
  timing = any_time;
  broker = [];
}

pub data SortKey : Type 0 where
  by_status by_type by_automation by_topic by_payload by_trigger_execution by_broker : SortKey

pub data SortOrder : Type 0 where
  asc desc : SortOrder

-- `{ key, order }`: both are null, or neither is.
abbrev pub SortState : Type 0
SortState = Option (SortKey × SortOrder)

abbrev pub same_key : SortKey → SortKey → Bool
same_key by_status by_status = true
same_key by_type by_type = true
same_key by_automation by_automation = true
same_key by_topic by_topic = true
same_key by_payload by_payload = true
same_key by_trigger_execution by_trigger_execution = true
same_key by_broker by_broker = true
same_key _ _ = false

pub record Page : Type 0 where
  pub jobs : List AutomationItem
  pub selected_dashboard_id : Text
  pub search_query : Text
  pub filters : ColumnFilters
  pub sort : SortState
  pub toggling_ids : List Text
  pub current_time_ms : ℕ
  pub toast : Option (Text × Bool)

-- A click on the head of a column: ascending, descending, as it was.
unfoldable pub handle_sort : SortKey → SortState → SortState
handle_sort key none = some (key, asc)
handle_sort key (some (k, order)) =
    if same_key k key then elim order [ asc ↦ some (key, desc) | desc ↦ none ] else some (key, asc)

unfoldable pub handle_reset_all_filters : Page → Page
handle_reset_all_filters p = record p {
  filters = default_filters;
  search_query = [];
  selected_dashboard_id = codes "all";
}

abbrev pub switch : Text → Bool → AutomationItem → AutomationItem
switch panel_id enabled j =
    if eq_text j.panel_id panel_id then record j { enabled = enabled } else j

-- The jobs with the panel's job switched on or off.
unfoldable pub set_enabled : Text → Bool → List AutomationItem → List AutomationItem
unfolding eq_text
set_enabled panel_id enabled jobs = map (switch panel_id enabled) jobs

abbrev pub add_id : Text → List Text → List Text
add_id id ids = if any (λ i. eq_text i id) ids then ids else ids ++ id ∷ []

abbrev pub delete_id : Text → List Text → List Text
delete_id id ids = filter (λ i. not (eq_text i id)) ids

-- `handleToggle` up to its first `await`: the job is shown as it is asked to be.
unfoldable pub toggle_begins : AutomationItem → Page → Page
unfolding set_enabled eq_text
toggle_begins job p = record p {
  toggling_ids = add_id job.panel_id p.toggling_ids;
  jobs = set_enabled job.panel_id (not job.enabled) p.jobs;
}

-- Both requests were answered, the second one with the jobs.
unfoldable pub toggle_succeeds : AutomationItem → List AutomationItem → Page → Page
unfolding eq_text
toggle_succeeds job updated p = record p {
  jobs = updated;
  toggling_ids = delete_id job.panel_id p.toggling_ids;
}

-- Either of them failed.
unfoldable pub toggle_fails : AutomationItem → Page → Page
unfolding set_enabled eq_text
toggle_fails job p = record p {
  jobs = set_enabled job.panel_id job.enabled p.jobs;
  toast = some (codes "Failed to update status", false);
  toggling_ids = delete_id job.panel_id p.toggling_ids;
}
