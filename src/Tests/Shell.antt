-- ===== src/Tests/Shell.antt =====
-- Runs of the model on concrete inputs: the layout, and the paths suggested for a payload.
use mqtt_dashboard.Prelude.{
  ◌≡◌, ◌↔◌, refl, or_default, Bool, true, false, List, [], ◌∷◌, none, some,
}
use mqtt_dashboard.Prelude.Text.{Text, codes}
use mqtt_dashboard.Layout.{
  Dashboard, Layout, on_dashboards, effective_dashboard_id, on_key_down, command_k, go_to,
  BrokerStatus, compute_aggregated, connected, partially_connected, disconnected,
}
use mqtt_dashboard.Layout.Listed.{IsOneOf}
use mqtt_dashboard.Layout.Picked.{
  Event, picks, goes, deletes, creates, after_all, after_all-IsOneOf,
}
use mqtt_dashboard.Layout.Brokers.{some_up, some_down, compute_aggregated_iff}
use mqtt_dashboard.Json.{Json}
use mqtt_dashboard.Tests.Pages.{as_is}

abbrev home : Dashboard
home = record { id = codes "d1"; name = codes "Home"; created_at = [] }

abbrev den : Dashboard
den = record { id = codes "d2"; name = codes "Den"; created_at = [] }

-- The dashboard that was stored is gone.
abbrev layout : Layout
layout = record {
  dashboards = [];
  active_dashboard_id = codes "d9";
  stored = some (codes "d9");
  pathname = codes "/dashboard";
  query_dashboard = none;
  query_panel = none;
  edit_mode = true;
  panel_library_open = false;
  flyout_open = false;
  nav_hidden = false;
}

abbrev visits : List Event
visits =
    picks [] 1 ∷ goes (codes "/dashboard") (some (codes "d9")) none ∷ deletes ∷ creates den ∷ []

visited :
    (effective_dashboard_id (after_all as_is visits (on_dashboards (home ∷ den ∷ []) layout))
      ≡ codes "d2")
    × ((after_all as_is visits (on_dashboards (home ∷ den ∷ []) layout)).dashboards
        ≡ home ∷ den ∷ [])
    × ((on_key_down false command_k layout).panel_library_open ≡ true)
    × ((go_to (codes "/config") none none layout).edit_mode ≡ false)
unfolding after_all on_dashboards effective_dashboard_id on_key_down go_to
visited = (refl, refl, refl, refl)

after_all-IsOneOf_example :
    IsOneOf
      (after_all as_is visits (on_dashboards (home ∷ den ∷ []) layout)).dashboards
      (effective_dashboard_id (after_all as_is visits (on_dashboards (home ∷ den ∷ []) layout)))
    × IsOneOf
        (after_all as_is visits (on_dashboards (home ∷ den ∷ []) layout)).dashboards
        (after_all as_is visits (on_dashboards (home ∷ den ∷ []) layout)).active_dashboard_id
    × (or_default (after_all as_is visits (on_dashboards (home ∷ den ∷ []) layout)).stored []
        ≡ (after_all as_is visits (on_dashboards (home ∷ den ∷ []) layout)).active_dashboard_id)
after_all-IsOneOf_example = after_all-IsOneOf as_is (home ∷ den ∷ []) layout visits

abbrev broker : Bool → Text → BrokerStatus
broker is_enabled status = record {
  id = codes "b1";
  name = codes "Local";
  is_enabled = is_enabled;
  status = status;
  status_error = none;
}

abbrev brokers : List BrokerStatus
brokers =
    broker true (codes "CONNECTED")
    ∷ broker true (codes "ERROR")
    ∷ broker false (codes "DISABLED")
    ∷ []

compute_aggregated_iff_example :
    ((compute_aggregated brokers ≡ connected)
      ↔ ((some_up brokers ≡ true) × (some_down brokers ≡ false)))
    × ((compute_aggregated brokers ≡ partially_connected)
        ↔ ((some_up brokers ≡ true) × (some_down brokers ≡ true)))
    × ((compute_aggregated brokers ≡ disconnected) ↔ (some_up brokers ≡ false))
compute_aggregated_iff_example = compute_aggregated_iff brokers

-- The runtime reads any payload in braces as the document with the field temp.
abbrev reading : Text
reading = codes "{\"temp\": 21}"
