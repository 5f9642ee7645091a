-- ===== src/Tests/Panels.antt =====
-- Runs of the model on concrete inputs: the dashboard's grid, the toggle and slider panels, and the
-- explorer.
use mqtt_dashboard.Prelude.{
  ℕ, ◌+◌, ◌*◌, ◌-◌, ◌≡◌, refl, Bool, true, false, List, [], ◌∷◌, none, some, any, concat, map, ◌==◌,
  arith, ◌↔◌, length,
}
use mqtt_dashboard.Prelude.Text.{Text, codes, trim, eq_text, split, slash}
use mqtt_dashboard.Grid.{Cell, get_closest_insert_position}
use mqtt_dashboard.Grid.Placement.{IsFirstFree, get_closest_insert_position-IsFirstFree}
use mqtt_dashboard.Panel.Confirm.{Confirm, at_rest, begin, post_fails, timer_fires}
use mqtt_dashboard.Panel.Confirm.Timed.{IsTimed}
use mqtt_dashboard.Panel.Toggle.Flip.{ToggleConfig, ToggleRun, start}
use mqtt_dashboard.Panel.Toggle.Flip.Refines
use mqtt_dashboard.Panel.Toggle.Flip.Refines.{
  view, step, seen_all, receives, flips, fires, view-Runs,
}
use mqtt_dashboard.Panel.Slider.{
  Arithmetic, behind_dot, SliderConfig, SliderRun, slider_start, clamp_to_range, normalize_range,
  commit,
}
use mqtt_dashboard.Panel.Slider.Range.{IsOrdered, InRange, clamp_to_range-InRange}
use mqtt_dashboard.Panel.Slider.Settles
use mqtt_dashboard.Panel.Slider.Settles.{Runs-settles, commits}
use mqtt_dashboard.Explorer.Tree.{build_tree}
use mqtt_dashboard.Explorer.Tree.Leaves.{has_leaf, has_leaf-build_tree}
use mqtt_dashboard.Explorer.Highlight.{plain, marked, part_text, highlight_text}
use mqtt_dashboard.Explorer.Highlight.Found.{IsSearch, IsFound, highlight_text_iff}
use mqtt_dashboard.Explorer.Highlight.Parts.{marked_at}
use mqtt_dashboard.Tests.Documents.{R}

abbrev cell : Text → ℕ → ℕ → ℕ → ℕ → Cell
cell id x y w h = record { id = id; x = x; y = y; w = w; h = h }

abbrev two_panels : List Cell
two_panels = cell (codes "a") 0 0 4 3 ∷ cell (codes "b") 6 0 6 2 ∷ []

-- The gap between the panels is too narrow, and the wide one ends a row earlier.
second_row : get_closest_insert_position two_panels ≡ (4, 2)
unfolding get_closest_insert_position
second_row = refl

get_closest_insert_position-IsFirstFree_example :
    IsFirstFree two_panels (get_closest_insert_position two_panels)
get_closest_insert_position-IsFirstFree_example = get_closest_insert_position-IsFirstFree two_panels

abbrev lamp : ToggleConfig
lamp = record {
  topic = some (codes "home/lamp/set");
  separate_read = some true;
  state_topic = some (codes "home/lamp");
  state_broker_id = none;
  read_template = none;
  on_payload = some (codes "1");
  off_payload = some (codes "0");
  payload_template = none;
}

-- Switched on, the device says off, switched on again.
abbrev lamp_events : List Refines.Event
lamp_events =
    flips true 3000 (codes "t")
    ∷ receives (codes "0") 2000 2000 (codes "t")
    ∷ flips true 1000 (codes "t")
    ∷ []

abbrev lamp_run : ToggleRun
lamp_run = step R lamp (flips true 3000 (codes "t")) (
    step R lamp (receives (codes "0") 2000 2000 (codes "t"))
      (step R lamp (flips true 1000 (codes "t")) start))

lamp_played : Refines.Runs R lamp lamp_events lamp_run
lamp_played =
    Refines.happens (flips true 3000 (codes "t"))
      (Refines.happens (receives (codes "0") 2000 2000 (codes "t"))
        (Refines.happens (flips true 1000 (codes "t")) Refines.started tt) tt)
      tt

view-Runs_example : IsTimed lamp_run.flip × (view lamp_run ≡ seen_all R lamp lamp_events)
view-Runs_example = view-Runs R lamp lamp_played

-- Two flips, the first one answered by the device before its post fails: the failure ends the wait
-- for the second one, and its timer.
abbrev twice : Confirm Bool
twice = begin false (codes "0") (begin true (codes "1") at_rest)

late_failure : ((post_fails 0 twice).pending ≡ none) × ((post_fails 0 twice).timers ≡ [])
unfolding post_fails begin
late_failure = (refl, refl)

-- A step that is printed with an exponent has no decimals.
no_decimals : (behind_dot (codes "0.05") ≡ 2) × (behind_dot (codes "1e-7") ≡ 0)
unfolding behind_dot
no_decimals = (refl, refl)

abbrev A : Arithmetic ℕ
A = record {
  add = λ a b. a + b;
  sub = λ a b. a - b;
  mul = λ a b. a * b;
  div = λ a b. a;
  abs = λ a. a;
  round = λ a. a;
  to_fixed = λ d a. a;
}

ltb-IsOrdered : IsOrdered R A
ltb-IsOrdered = record {
  irreflexive = λ a. ground arith;
  asymmetric = λ a b e. ground arith;
  one_more = λ a. ground arith;
}

clamp_to_range-InRange_example :
    let range = normalize_range R A (some 10) (some 20) none in
    InRange R A range (clamp_to_range R A 15 range)
clamp_to_range-InRange_example =
    clamp_to_range-InRange R A (some 10) (some 20) none 15 ltb-IsOrdered

clamped : clamp_to_range R A 35 (normalize_range R A (some 10) (some 20) none) ≡ 20
unfolding clamp_to_range normalize_range
clamped = refl

abbrev dimmer : SliderConfig R A
dimmer = record {
  topic = some (codes "home/dim");
  min = some 10;
  max = some 20;
  step = none;
  payload_template = none;
  read_template = none;
}

abbrev dimmer_run : SliderRun R A
dimmer_run = commit R A dimmer 1000 (codes "t") 35 (slider_start R A)

dimmer_pending : dimmer_run.write.pending ≡ some 20
unfolding commit
dimmer_pending = refl

Runs-settles_example :
    (t : ℕ) × (any (λ u. u == t) dimmer_run.write.timers ≡ true)
    × ((timer_fires t dimmer_run.write).pending ≡ none)
    × ((timer_fires t dimmer_run.write).unconfirmed ≡ true)
Runs-settles_example =
    Runs-settles R A dimmer 20 (Settles.goes_on Settles.started (commits 1000 (codes "t") 35))
      dimmer_pending

abbrev topics : List Text
topics = codes "home/lamp" ∷ codes "home" ∷ codes "home/lamp/set" ∷ codes "bus" ∷ []

has_leaf-build_tree_example :
    has_leaf (split slash (codes "home/lamp")) (build_tree topics)
    ≡ any (λ u. eq_text u (codes "home/lamp")) topics
has_leaf-build_tree_example = has_leaf-build_tree topics (codes "home/lamp")

abbrev same_case : Text → Text
same_case t = t

-- The tokens of the search are found as well, and matches that touch are joined.
two_tokens :
    highlight_text same_case (codes "lamp2") (codes "home/lamp2") (codes "+/la/am")
    ≡ marked (codes "lam") ∷ plain (codes "p2") ∷ []
unfolding highlight_text
two_tokens = refl

highlight_text_iff_example :
    (concat
        (map part_text (highlight_text same_case (codes "lamp2") (codes "home/lamp2") (codes "am")))
      ≡ codes "lamp2")
    × ((marked_at 1 (highlight_text same_case (codes "lamp2") (codes "home/lamp2") (codes "am"))
          ≡ true)
        ↔ (IsSearch (trim (codes "am"))
            × IsFound
                (codes "home/lamp2")
                (trim (codes "am"))
                (length (codes "home/lamp2") - length (codes "lamp2") + 1)))
highlight_text_iff_example =
    highlight_text_iff same_case (codes "lamp2") (codes "home/lamp2") (codes "am") 1 (ground arith)
      (ground arith)
