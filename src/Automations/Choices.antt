-- ===== src/Automations/Choices.antt =====
-- What the filters of frontend/src/pages/AutomationsPage.tsx offer: the dashboards, the types and
-- the brokers of the jobs.
use Prim.Native.Nat.{Ordering, lt, eq, gt, compare}
use mqtt_dashboard.Prelude.{
  ◌≡◌, Bool, true, false, not, ◌||◌, List, [], ◌∷◌, ◌++◌, map, filter, any, if◌then◌else◌, arith,
}
use mqtt_dashboard.Prelude.Text.{Text, codes, eq_text, eq_text_iff, is_empty}
use mqtt_dashboard.Prelude.Sort.{sort_by}
use mqtt_dashboard.Panel.Registry.{distinct}
use mqtt_dashboard.Automations.{AutomationItem, asc}
use mqtt_dashboard.Automations.Shown.{not_after}

-- A map from the ids of dashboards to their names.
abbrev pub Names : Type 0
Names = List (Text × Text)

unfoldable pub has_name : Text → Names → Bool
unfolding eq_text
has_name id names = any (λ n. eq_text n.0 id) names

unfoldable pub set_name : Text → Text → Names → Names
unfolding eq_text
set_name id name [] = (id, name) ∷ []
set_name id name ((i, n) ∷ names) =
    if eq_text i id then (i, name) ∷ names else (i, n) ∷ set_name id name names

unfoldable pub add_dashboards : Names → Names → Names
unfolding set_name
add_dashboards [] names = names
add_dashboards ((id, name) ∷ ds) names = add_dashboards ds (set_name id name names)

abbrev pub name_or_untitled : Text → Text
name_or_untitled name = if is_empty name then codes "Untitled Dashboard" else name

-- A job of a dashboard that is not there yet.
abbrev pub add_job : AutomationItem → Names → Names
add_job j names =
    if is_empty j.dashboard_id || has_name j.dashboard_id names
    then names
    else names ++ (j.dashboard_id, name_or_untitled j.dashboard_name) ∷ []

unfoldable pub add_jobs : List AutomationItem → Names → Names
unfolding has_name
add_jobs [] names = names
add_jobs (j ∷ js) names = add_jobs js (add_job j names)

unfoldable pub available_dashboards : (Text → Text → Ordering) → Names → List AutomationItem → Names
unfolding add_dashboards add_jobs sort_by
available_dashboards locale_compare dashboards jobs =
    sort_by (λ a b. not_after asc (locale_compare a.1 b.1))
      (add_jobs jobs (add_dashboards dashboards []))

-- The order of `sort()` without a comparison, by code units.
unfoldable pub text_precedes : Text → Text → Bool
text_precedes [] b = true
text_precedes (c ∷ a) [] = false
text_precedes (c ∷ a) (d ∷ b) =
    let rest = text_precedes a b in elim (compare c d) [ lt ↦ true | eq ↦ rest | gt ↦ false ]

-- `Array.from(set).sort()` of the texts that are not empty.
unfoldable pub sorted_choices : List Text → List Text
unfolding distinct sort_by text_precedes
sorted_choices ts = sort_by text_precedes (distinct [] (filter (λ t. not (is_empty t)) ts))

abbrev pub available_types : List AutomationItem → List Text
available_types jobs = sorted_choices (map (λ j. j.panel_type) jobs)

abbrev pub broker_options : List AutomationItem → List Text
broker_options jobs = sorted_choices (map (λ j. j.broker_name) jobs)

has_name-append :
    (k id name : Text) (names : Names)
    → has_name k (names ++ (id, name) ∷ []) ≡ (has_name k names || eq_text id k)
unfolding has_name
has_name-append k id name [] = ground arith
has_name-append k id name (n ∷ names) = ground (arith, has_name-append k id name names)

has_name-add_job :
    (k : Text) (j : AutomationItem) (names : Names)
    → is_empty k ≡ false
    → has_name k (add_job j names) ≡ (has_name k names || eq_text j.dashboard_id k)
has_name-add_job k j names h = ground (
  arith,
  has_name-append k j.dashboard_id (name_or_untitled j.dashboard_name) names,
  eq_text_iff j.dashboard_id k,
)

-- A dashboard is among the choices, before they are sorted, exactly when it was there or some job
-- is of it.
has_name-add_jobs :
    (k : Text) (jobs : List AutomationItem) (names : Names)
    → is_empty k ≡ false
    → has_name k (add_jobs jobs names)
      ≡ (has_name k names || any (λ j. eq_text j.dashboard_id k) jobs)
unfolding add_jobs
has_name-add_jobs k [] names h = ground arith
has_name-add_jobs k (j ∷ js) names h =
    ground (arith, has_name-add_jobs k js (add_job j names) h, has_name-add_job k j names h)
