-- ===== src/Grid.antt =====
-- The grid of frontend/src/pages/DashboardPage.tsx: where a new panel goes, and how a change of the
-- layout reaches the panels. Places and sizes are whole cells, none of them negative.
pub mod Placement
use mqtt_dashboard.Prelude.{
  ℕ, zero, suc, ◌+◌, ◌-◌, Bool, true, false, not, ◌&&◌, List, [], ◌∷◌, Option, none, some, map,
  filter, any, find, if◌then◌else◌, ltb,
}
use mqtt_dashboard.Prelude.Text.{Text, eq_text}

abbrev pub grid_cols : ℕ
grid_cols = 12

abbrev pub new_panel_w : ℕ
new_panel_w = 4

abbrev pub new_panel_h : ℕ
new_panel_h = 3

-- What the grid knows of a panel, and what a layout says of one.
pub record Cell : Type 0 where
  pub id : Text
  pub x : ℕ
  pub y : ℕ
  pub w : ℕ
  pub h : ℕ

abbrev pub overlaps : ℕ → ℕ → Cell → Bool
overlaps x y p =
    ltb x (p.x + p.w) && ltb p.x (x + new_panel_w) && ltb y (p.y + p.h) && ltb p.y (y + new_panel_h)

unfoldable pub collides : List Cell → ℕ → ℕ → Bool
collides panels x y = any (overlaps x y) panels

-- `panels.reduce((max, panel) => Math.max(max, panel.y + panel.h), max)`
unfoldable pub max_y_from : ℕ → List Cell → ℕ
max_y_from max [] = max
max_y_from max (p ∷ ps) = max_y_from (if ltb max (p.y + p.h) then p.y + p.h else max) ps

-- A `for` over `n` numbers from `i` on that may return.
unfoldable pub first_from {ℓ} : {A : Type ℓ} → (ℕ → Option A) → ℕ → ℕ → Option A
first_from body zero i = none
first_from body (suc n) i = elim (body i) [ some a ↦ some a | none ↦ first_from body n (i + 1) ]

abbrev pub try_cell : List Cell → ℕ → ℕ → Option (ℕ × ℕ)
try_cell panels y x = if not (collides panels x y) then some (x, y) else none

abbrev pub try_row : List Cell → ℕ → Option (ℕ × ℕ)
try_row panels y = first_from (try_cell panels y) (grid_cols - new_panel_w + 1) 0

unfoldable pub get_closest_insert_position : List Cell → ℕ × ℕ
unfolding collides max_y_from first_from
get_closest_insert_position panels =
    let max_existing_y = max_y_from 0 panels in
    elim (first_from (try_row panels) (max_existing_y + 1) 0) [
      | some place ↦ place
      | none ↦ (0, max_existing_y)
    ]

-- `newLayout.find((n) => n.i === p.id)` and the panel with that place, for each panel.
abbrev pub moved : List Cell → Cell → Cell
moved layout p = elim (find (λ l. eq_text l.id p.id) layout) [
  | none ↦ p
  | some l ↦ record { id = p.id; x = l.x; y = l.y; w = l.w; h = l.h }
]

unfoldable pub apply_layout : List Cell → List Cell → List Cell
unfolding eq_text
apply_layout layout panels = map (moved layout) panels

unfoldable pub remove_panel : Text → List Cell → List Cell
unfolding eq_text
remove_panel id panels = filter (λ p. not (eq_text p.id id)) panels

unfoldable pub update_panel : Cell → List Cell → List Cell
unfolding eq_text
update_panel updated panels = map (λ p. if eq_text p.id updated.id then updated else p) panels
