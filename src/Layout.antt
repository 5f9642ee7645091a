-- ===== src/Layout.antt =====
-- frontend/src/components/Layout.tsx: the dashboards and the one that is shown, the state of the
-- bar, and the sum of the brokers' states. What is picked in
-- frontend/src/components/DashboardSelector.tsx.
pub mod Listed
pub mod Picked
pub mod Brokers
use mqtt_dashboard.Prelude.{
  ℕ, ◌+◌, Bool, true, false, not, ◌&&◌, ◌||◌, List, [], ◌∷◌, ◌++◌, Option, none, some, map, filter,
  find, any, head?, get_elem?, length, if◌then◌else◌, or_default, is_some, ◌==◌, ltb, ◌>>=◌,
}
use mqtt_dashboard.Prelude.Text.{Text, codes, eq_text, includes, is_empty, trim}
use mqtt_dashboard.Read.{or_else}

pub record Dashboard : Type 0 where
  pub id : Text
  pub name : Text
  pub created_at : Text

-- The address is its path, with the parameters `dashboard` and `panel` of its search; `stored` is
-- what the local storage holds under the key of the active dashboard.
pub record Layout : Type 0 where
  pub dashboards : List Dashboard
  pub active_dashboard_id : Text
  pub stored : Option Text
  pub pathname : Text
  pub query_dashboard : Option Text
  pub query_panel : Option Text
  pub edit_mode : Bool
  pub panel_library_open : Bool
  pub flyout_open : Bool
  pub nav_hidden : Bool

abbrev pub has_id : Text → Dashboard → Bool
has_id i d = eq_text d.id i

unfoldable pub is_listed : Text → List Dashboard → Bool
unfolding eq_text
is_listed i ds = any (has_id i) ds

-- `q && list.some((d) => d.id === q)`
abbrev pub listed_query : Option Text → List Dashboard → Option Text
listed_query none ds = none
listed_query (some q) ds = if not (is_empty q) && is_listed q ds then some q else none

abbrev pub first_id : List Dashboard → Text
first_id [] = []
first_id (d ∷ ds) = d.id

-- The dashboard to begin with: that of the address, or else the stored one, if it is there, or
-- else the first.
unfoldable pub default_id : Option Text → Option Text → List Dashboard → Text
unfolding is_listed
default_id query stored list = elim (or_else (listed_query query list) stored) [
  | none ↦ first_id list
  | some target ↦ if is_listed target list then target else first_id list
]

-- The answer to the request for the dashboards.
unfoldable pub on_dashboards : List Dashboard → Layout → Layout
unfolding default_id
on_dashboards list s =
    let start = default_id s.query_dashboard s.stored list in
    record s { dashboards = list; active_dashboard_id = start; stored = some start }

-- The address names another dashboard of the list.
unfoldable pub follow_query : Layout → Layout
unfolding is_listed eq_text
follow_query s = elim (listed_query s.query_dashboard s.dashboards) [
  | none ↦ s
  | some q ↦
      if eq_text q s.active_dashboard_id
      then s
      else record s { active_dashboard_id = q; stored = some q }
]

unfoldable pub switch_dashboard : Text → Layout → Layout
switch_dashboard id s = record s {
  active_dashboard_id = id;
  stored = if is_empty id then none else some id;
  query_dashboard = none;
  query_panel = none;
}

unfoldable pub handle_create : Dashboard → Layout → Layout
unfolding switch_dashboard
handle_create d s = switch_dashboard d.id (record s { dashboards = s.dashboards ++ d ∷ [] })

unfoldable pub handle_rename : Dashboard → Layout → Layout
unfolding eq_text
handle_rename d s = record s {
  dashboards = map (λ x. if eq_text x.id d.id then d else x) s.dashboards;
}

unfoldable pub handle_delete : Text → Layout → Layout
unfolding switch_dashboard eq_text
handle_delete id s =
    let remaining = filter (λ d. not (eq_text d.id id)) s.dashboards in
    record (switch_dashboard (first_id remaining) s) { dashboards = remaining }

-- The dashboard that is shown: that of the address, if it is there, or else the active one.
unfoldable pub effective_dashboard_id : Layout → Text
unfolding is_listed
effective_dashboard_id s =
    or_default (listed_query s.query_dashboard s.dashboards) s.active_dashboard_id

-- `visibleDashboards` of the selector; `toLowerCase` is a parameter.
unfoldable pub visible_dashboards : (Text → Text) → Text → List Dashboard → List Dashboard
unfolding trim includes
visible_dashboards lower_case query ds =
    let q = lower_case (trim query) in
    if is_empty q then ds else filter (λ d. includes q (lower_case d.name)) ds

-- A click on one of the dashboards that the selector lists.
unfoldable pub pick : (Text → Text) → Text → ℕ → Layout → Layout
unfolding visible_dashboards switch_dashboard effective_dashboard_id eq_text
pick lower_case query i s = elim (get_elem? (visible_dashboards lower_case query s.dashboards) i) [
  | none ↦ s
  | some d ↦ if eq_text d.id (effective_dashboard_id s) then s else switch_dashboard d.id s
]

-- Another address; on another path the editing ends.
unfoldable pub go_to : Text → Option Text → Option Text → Layout → Layout
unfolding eq_text
go_to path dashboard panel s =
    let stays = eq_text s.pathname path in
    record s {
      pathname = path;
      query_dashboard = dashboard;
      query_panel = panel;
      edit_mode = stays && s.edit_mode;
      panel_library_open = stays && s.panel_library_open;
    }

abbrev pub on_dashboard : Layout → Bool
on_dashboard s = eq_text s.pathname (codes "/dashboard")

unfoldable pub is_editing : Layout → Bool
unfolding eq_text
is_editing s = on_dashboard s && s.edit_mode

-- The keys that the bar listens to.
pub data Key : Type 0 where
  command_k escape key_f other_key : Key

unfoldable pub on_key_down : Bool → Key → Layout → Layout
unfolding is_editing eq_text
on_key_down typing command_k s =
    if is_editing s
    then record s { flyout_open = false; panel_library_open = not s.panel_library_open }
    else s
on_key_down typing escape s = record s { flyout_open = false }
on_key_down typing key_f s =
    if not typing && on_dashboard s
    then record s { flyout_open = false; nav_hidden = not s.nav_hidden }
    else s
on_key_down typing other_key s = s

-- The button that ends the editing.
unfoldable pub finish_editing : Layout → Layout
finish_editing s = record s { edit_mode = false; panel_library_open = false }

pub record BrokerStatus : Type 0 where
  pub id : Text
  pub name : Text
  pub is_enabled : Bool
  pub status : Text
  pub status_error : Option Text

pub data AggregatedStatus : Type 0 where
  connected partially_connected disconnected : AggregatedStatus

abbrev pub is_connected : BrokerStatus → Bool
is_connected b = eq_text b.status (codes "CONNECTED")

abbrev pub enabled_brokers : List BrokerStatus → List BrokerStatus
enabled_brokers bs = filter (λ b. b.is_enabled) bs

unfoldable pub connected_brokers : List BrokerStatus → List BrokerStatus
unfolding eq_text
connected_brokers bs = filter is_connected (enabled_brokers bs)

unfoldable pub compute_aggregated : List BrokerStatus → AggregatedStatus
unfolding connected_brokers
compute_aggregated statuses =
    let enabled = length (enabled_brokers statuses) in
    let up = length (connected_brokers statuses) in
    if enabled == 0
    then disconnected
    else if up == enabled
    then connected
    else if ltb 0 up
    then partially_connected
    else disconnected
