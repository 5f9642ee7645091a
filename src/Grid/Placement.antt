-- ===== src/Grid/Placement.antt =====
-- The place of a new panel is free, and the first free one.
use mqtt_dashboard.Prelude.{
  ℕ, zero, suc, ◌+◌, ◌-◌, ◌<◌, ◌≤◌, ◌≡◌, ◌⊎◌, inl, inr, refl, ap, subst, some-injective, sym, ◌∙◌,
  true, false, List, [], ◌∷◌, Option, none, some, if◌then◌else◌, ltb, All, Bool-cases, Option-cases,
  arith,
}
use mqtt_dashboard.Grid.{
  Cell, grid_cols, new_panel_w, collides, max_y_from, first_from, try_cell, try_row,
  get_closest_insert_position,
}

meets : (i j : ℕ) → i ≤ j → (i ≡ j) ⊎ (i + 1 ≤ j)
meets i j h = ground arith

module _ {A : Type 0} (body : ℕ → Option A) where
  -- A loop that returns `a` does so in some round, and no round before it returned.
  abbrev pub ReturnsAt : ℕ → ℕ → A → Type 0
  ReturnsAt n i a =
      (k : ℕ) × (i ≤ k)
      × (k < i + n)
      × (body k ≡ some a)
      × ((j : ℕ) → i ≤ j → j < k → body j ≡ none)

  -- What holds at `i` and later holds at each number from `i` on.
  at_or_later : {i j : ℕ} → body i ≡ none → (i + 1 ≤ j → body j ≡ none) → i ≤ j → body j ≡ none
  at_or_later {i} {j} e later h = elim (meets i j h) [
    | inl same ↦ ap body (sym same) ∙ e
    | inr k ↦ later k
  ]

  first_from-some : (n i : ℕ) (a : A) → first_from body n i ≡ some a → ReturnsAt n i a
  unfolding first_from
  first_from-some zero i a h = ground arith
  first_from-some (suc n) i a h = elim (Option-cases (body i)) [
    | inr (b, e) ↦
        (i, omega arith, omega arith, e ∙ (rw (e, first_from) at h), λ j l k. ground arith)
    | inl e ↦
        let (k, l, m, f, before) = first_from-some n (i + 1) a (rw (e, first_from) at h) in
        (k, omega arith, omega arith, f, λ j c d. at_or_later e (λ l. before j l d) c)
  ]

  first_from-none :
      (n i : ℕ) → first_from body n i ≡ none → (j : ℕ) → i ≤ j → j < i + n → body j ≡ none
  unfolding first_from
  first_from-none zero i h j l m = ground arith
  first_from-none (suc n) i h j l m = elim (Option-cases (body i)) [
    | inr (b, e) ↦ ground arith
    | inl e ↦
        at_or_later e (λ k. first_from-none n (i + 1) (rw (e, first_from) at h) j k (omega arith)) l
  ]

-- The panel ends no lower than the lowest end.
max_y_from-le : (max : ℕ) (ps : List Cell) → max ≤ max_y_from max ps
unfolding max_y_from
max_y_from-le max [] = omega arith
max_y_from-le max (p ∷ ps) = ground (arith, max_y_from-le (p.y + p.h) ps, max_y_from-le max ps)

max_y_from-ends : (ps : List Cell) (max : ℕ) → All (λ p. p.y + p.h ≤ max_y_from max ps) ps
unfolding max_y_from
max_y_from-ends [] max = tt
max_y_from-ends (p ∷ ps) max = (
  ground (arith, max_y_from-le (p.y + p.h) ps, max_y_from-le max ps),
  max_y_from-ends ps (if ltb max (p.y + p.h) then p.y + p.h else max),
)

below_every : (n x : ℕ) (ps : List Cell) → All (λ p. p.y + p.h ≤ n) ps → collides ps x n ≡ false
unfolding collides
below_every n x [] h = refl
below_every n x (p ∷ ps) h = ground (arith, below_every n x ps h.1)

-- Every place before `(x, y)`, row by row from the top, is taken.
abbrev pub AllTakenBefore : List Cell → ℕ → ℕ → Type 0
AllTakenBefore ps x y =
    (a b : ℕ) → a + new_panel_w ≤ grid_cols → (b < y) ⊎ ((b ≡ y) × (a < x)) → collides ps a b ≡ true

try_cell-none : (ps : List Cell) (x y : ℕ) → try_cell ps y x ≡ none → collides ps x y ≡ true
try_cell-none ps x y h = ground arith

try_cell-some :
    (ps : List Cell) (x y : ℕ) (r : ℕ × ℕ)
    → try_cell ps y x ≡ some r
    → (collides ps x y ≡ false) × (r ≡ (x, y))
try_cell-some ps x y r h = elim (Bool-cases (collides ps x y)) [
  | inl e ↦ ground arith
  | inr e ↦ (e, sym (some-injective (x, y) r (rw e at h)))
]

-- The place is free, within the columns, no lower than all panels end, and the first such.
abbrev pub IsFirstFree : List Cell → ℕ × ℕ → Type 0
IsFirstFree ps place =
    (collides ps place.0 place.1 ≡ false)
    × (place.0 + new_panel_w ≤ grid_cols)
    × (place.1 ≤ max_y_from 0 ps)
    × AllTakenBefore ps place.0 place.1

row_taken :
    (ps : List Cell) (y : ℕ)
    → try_row ps y ≡ none
    → (x : ℕ) → x + new_panel_w ≤ grid_cols
    → collides ps x y ≡ true
row_taken ps y h x l = try_cell-none ps x y (
    first_from-none (try_cell ps y) (grid_cols - new_panel_w + 1) 0 h x (omega arith) (omega arith))

found :
    (ps : List Cell) (place : ℕ × ℕ)
    → first_from (try_row ps) (max_y_from 0 ps + 1) 0 ≡ some place
    → IsFirstFree ps place
found ps place h =
    let (y, yl, ym, row, above) = first_from-some (try_row ps) (max_y_from 0 ps + 1) 0 place h in
    let (x, xl, xm, cell, left) =
      first_from-some (try_cell ps y) (grid_cols - new_panel_w + 1) 0 place row in
    let (free, at) = try_cell-some ps x y place cell in
    subst (IsFirstFree ps) (sym at) (
      free,
      omega arith,
      omega arith,
      λ a b l before. elim before [
        | inl higher ↦ row_taken ps b (above b (omega arith) higher) a l
        | inr same ↦
            subst (λ r. collides ps a r ≡ true) (sym same.0)
              (try_cell-none ps a y (left a (omega arith) same.1))
      ],
    )

-- A new panel gets the first place, row by row from the top and in each row from the left, at which
-- it overlaps no panel; it stays within the columns and starts no lower than all panels end.
pub get_closest_insert_position-IsFirstFree :
    (ps : List Cell) → IsFirstFree ps (get_closest_insert_position ps)
unfolding get_closest_insert_position
get_closest_insert_position-IsFirstFree ps =
    elim (Option-cases (first_from (try_row ps) (max_y_from 0 ps + 1) 0)) [
      | inr (place, e) ↦ rw (e, get_closest_insert_position) (found ps place e)
      | inl e ↦
          let taken =
            row_taken ps (max_y_from 0 ps)
              (first_from-none (try_row ps) (max_y_from 0 ps + 1) 0 e (max_y_from 0 ps)
                (omega arith) (omega arith))
              0 (omega arith) in
          let free = below_every (max_y_from 0 ps) 0 ps (max_y_from-ends ps 0) in ground arith
    ]
