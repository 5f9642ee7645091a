-- ===== src/Layout/Picked.antt =====
-- The dashboard that is shown is one of the dashboards.
use mathlib.Core.Logic.{inl, inr}
use mqtt_dashboard.Prelude.{
  ℕ, ◌≡◌, refl, ap, ◌∙◌, true, not, List, [], ◌∷◌, Option, none, some, map, filter, get_elem?,
  if◌then◌else◌, or_default, Bool-cases, Option-cases,
}
use mqtt_dashboard.Prelude.Text.{Text, eq_text, is_empty, trim, includes}
use mqtt_dashboard.Layout.{
  Dashboard, Layout, is_listed, listed_query, first_id, on_dashboards, follow_query,
  switch_dashboard, handle_create, handle_rename, handle_delete, effective_dashboard_id,
  visible_dashboards, pick, go_to,
}
use mqtt_dashboard.Layout.Listed.{
  IsOneOf, first_id-IsOneOf, listed_query-is_listed, default_id-IsOneOf, is_listed-map,
  is_listed-append, is_listed_at, is_listed-filter,
}

-- What can happen once the dashboards are there. The selector offers to delete what is shown, and
-- what it calls back with may be any dashboard that the backend made or renamed.
pub data Event : Type 0 where
  follows : Event
  picks : Text → ℕ → Event
  creates renames : Dashboard → Event
  deletes : Event
  goes : Text → Option Text → Option Text → Event

unfoldable pub after : (Text → Text) → Event → Layout → Layout
unfolding follow_query pick handle_create handle_rename handle_delete go_to effective_dashboard_id
after lower_case follows s = follow_query s
after lower_case (picks query i) s = pick lower_case query i s
after lower_case (creates d) s = handle_create d s
after lower_case (renames d) s = handle_rename d s
after lower_case deletes s = handle_delete (effective_dashboard_id s) s
after lower_case (goes path dashboard panel) s = go_to path dashboard panel s

unfoldable pub after_all : (Text → Text) → List Event → Layout → Layout
unfolding after
after_all lower_case [] s = s
after_all lower_case (e ∷ es) s = after_all lower_case es (after lower_case e s)

-- The active dashboard is there, and it is the one that is stored.
abbrev IsActive : Layout → Type 0
IsActive s =
    IsOneOf s.dashboards s.active_dashboard_id × (or_default s.stored [] ≡ s.active_dashboard_id)

stored_switch : (id : Text) → or_default (if is_empty id then none else some id) [] ≡ id
stored_switch [] = refl
stored_switch (c ∷ id) = refl

pick-IsActive :
    (lower_case : Text → Text) (query : Text) (i : ℕ) (s : Layout)
    → IsActive s
    → IsActive (pick lower_case query i s)
unfolding pick switch_dashboard
pick-IsActive lower_case query i s h =
    elim (Option-cases (get_elem? (visible_dashboards lower_case query s.dashboards) i)) [
      | inl e ↦ rw (e, pick) h
      | inr (d, e) ↦ elim (Bool-cases (eq_text d.id (effective_dashboard_id s))) [
        | inl k ↦ rw (e, pick) (rw k h)
        | inr k ↦
            rw (e, pick)
              (rw k (
                (
                  inl (
                      visible d
                        (is_listed_at (visible_dashboards lower_case query s.dashboards) i e)),
                  stored_switch d.id,
                )))
      ]
    ]
  where
    visible :
        (d : Dashboard)
        → is_listed d.id (visible_dashboards lower_case query s.dashboards) ≡ true
        → is_listed d.id s.dashboards ≡ true
    visible d v =
        unfold visible_dashboards in
        elim (Bool-cases (is_empty (lower_case (trim query)))) [
          | inl e ↦ rw e at v
          | inr e ↦
              is_listed-filter (λ x. includes (lower_case (trim query)) (lower_case x.name)) d.id
                s.dashboards (rw e at v)
        ]

follow_query-IsActive : (s : Layout) → IsActive s → IsActive (follow_query s)
unfolding follow_query
follow_query-IsActive s h = elim (Option-cases (listed_query s.query_dashboard s.dashboards)) [
  | inl e ↦ rw (e, follow_query) h
  | inr (q, e) ↦ elim (Bool-cases (eq_text q s.active_dashboard_id)) [
    | inl k ↦ rw (e, follow_query) (rw k h)
    | inr k ↦
        rw (e, follow_query)
          (rw k ((inl (listed_query-is_listed s.query_dashboard s.dashboards e), refl)))
  ]
]

handle_rename-IsActive : (d : Dashboard) (s : Layout) → IsActive s → IsActive (handle_rename d s)
unfolding handle_rename
handle_rename-IsActive d s h = (
  elim h.0 [
    | inl e ↦ inl (is_listed-map s.active_dashboard_id d s.dashboards ∙ e)
    | inr (n, e) ↦ inr (ap (map (λ x. if eq_text x.id d.id then d else x)) n, e)
  ],
  h.1,
)

after-IsActive :
    (lower_case : Text → Text) (e : Event) (s : Layout)
    → IsActive s
    → IsActive (after lower_case e s)
unfolding after handle_create handle_delete switch_dashboard go_to
after-IsActive lower_case follows s h = follow_query-IsActive s h
after-IsActive lower_case (picks query i) s h = pick-IsActive lower_case query i s h
after-IsActive lower_case (creates d) s h =
    (inl (is_listed-append d.id d s.dashboards), stored_switch d.id)
after-IsActive lower_case (renames d) s h = handle_rename-IsActive d s h
after-IsActive lower_case deletes s h =
    let left = filter (λ d. not (eq_text d.id (effective_dashboard_id s))) s.dashboards in
    (first_id-IsOneOf left, stored_switch (first_id left))
after-IsActive lower_case (goes path dashboard panel) s h = h

after_all-IsActive :
    (lower_case : Text → Text) (es : List Event) (s : Layout)
    → IsActive s
    → IsActive (after_all lower_case es s)
unfolding after_all
after_all-IsActive lower_case [] s h = h
after_all-IsActive lower_case (e ∷ es) s h =
    after_all-IsActive lower_case es (after lower_case e s) (after-IsActive lower_case e s h)

effective-IsOneOf : (s : Layout) → IsActive s → IsOneOf s.dashboards (effective_dashboard_id s)
unfolding effective_dashboard_id
effective-IsOneOf s h = elim (Option-cases (listed_query s.query_dashboard s.dashboards)) [
  | inl e ↦ rw e h.0
  | inr (q, e) ↦ rw e (inl (listed_query-is_listed s.query_dashboard s.dashboards e))
]

-- Once the dashboards have come, and whatever is picked, created, renamed, deleted and visited
-- after that, the dashboard that is shown and the active one are among the dashboards, or there
-- are no dashboards, and the active one is the one that is stored.
pub after_all-IsOneOf :
    (lower_case : Text → Text) (list : List Dashboard) (s : Layout) (es : List Event)
    → IsOneOf
        (after_all lower_case es (on_dashboards list s)).dashboards
        (effective_dashboard_id (after_all lower_case es (on_dashboards list s)))
      × IsOneOf
          (after_all lower_case es (on_dashboards list s)).dashboards
          (after_all lower_case es (on_dashboards list s)).active_dashboard_id
      × (or_default (after_all lower_case es (on_dashboards list s)).stored []
          ≡ (after_all lower_case es (on_dashboards list s)).active_dashboard_id)
after_all-IsOneOf lower_case list s es =
    let h = after_all-IsActive lower_case es (on_dashboards list s) loaded in
    (effective-IsOneOf (after_all lower_case es (on_dashboards list s)) h, h.0, h.1)
  where
    loaded : IsActive (on_dashboards list s)
    loaded = unfold on_dashboards in (default_id-IsOneOf s.query_dashboard s.stored list, refl)
