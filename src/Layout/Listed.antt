-- ===== src/Layout/Listed.antt =====
-- A dashboard's id among the dashboards.
use mathlib.Core.Logic.{inl, inr}
use mqtt_dashboard.Prelude.{
  ℕ, zero, suc, ◌≡◌, refl, sym, ap, ◌⊎◌, Bool, true, ◌||◌, List, [], ◌∷◌, ◌++◌, Option, none, some,
  map, filter, get_elem?, if◌then◌else◌, or_default, arith, Bool-cases,
}
use mqtt_dashboard.Prelude.Text.{Text, eq_text, eq_text_iff, eq_text_refl}
use mqtt_dashboard.Read.{or_else}
use mqtt_dashboard.Layout.{Dashboard, is_listed, listed_query, first_id, default_id}

-- Among the dashboards, or empty where there are none.
abbrev pub IsOneOf : List Dashboard → Text → Type 0
IsOneOf ds i = (is_listed i ds ≡ true) ⊎ ((ds ≡ []) × (i ≡ []))

pub first_id-IsOneOf : (ds : List Dashboard) → IsOneOf ds (first_id ds)
unfolding is_listed
first_id-IsOneOf [] = inr (refl, refl)
first_id-IsOneOf (d ∷ ds) = inl (rw (eq_text_refl d.id) refl)

pub listed_query-is_listed :
    (query : Option Text) (ds : List Dashboard) {q : Text}
    → listed_query query ds ≡ some q
    → is_listed q ds ≡ true
listed_query-is_listed none ds h = cc
listed_query-is_listed (some p) ds h = ground arith

pub default_id-IsOneOf :
    (query stored : Option Text) (ds : List Dashboard) → IsOneOf ds (default_id query stored ds)
unfolding default_id
default_id-IsOneOf query stored ds = chosen (or_else (listed_query query ds) stored)
  where
    chosen :
        (o : Option Text)
        → IsOneOf ds (elim o as (λ x. Text) [
          | none ↦ first_id ds
          | some target ↦ if is_listed target ds then target else first_id ds
        ])
    chosen none = first_id-IsOneOf ds
    chosen (some t) = elim (Bool-cases (is_listed t ds)) [
      | inl e ↦ rw e (inl e)
      | inr e ↦ rw e (first_id-IsOneOf ds)
    ]

pub is_listed-map :
    (i : Text) (d : Dashboard) (ds : List Dashboard)
    → is_listed i (map (λ x. if eq_text x.id d.id then d else x) ds) ≡ is_listed i ds
unfolding is_listed
is_listed-map i d [] = refl
is_listed-map i d (x ∷ ds) = elim (Bool-cases (eq_text x.id d.id)) [
  | inl e ↦ rw e (λ k. eq_text (sym ((eq_text_iff x.id d.id).0 e) k) i || is_listed-map i d ds k)
  | inr e ↦ rw e (ap (◌||◌ (eq_text x.id i)) (is_listed-map i d ds))
]

pub is_listed-append :
    (i : Text) (d : Dashboard) (ds : List Dashboard) → is_listed d.id (ds ++ d ∷ []) ≡ true
unfolding is_listed
is_listed-append i d [] = rw (eq_text_refl d.id) refl
is_listed-append i d (x ∷ ds) = ground (arith, is_listed-append i d ds)

pub is_listed_at :
    (ds : List Dashboard) (i : ℕ) {d : Dashboard}
    → get_elem? ds i ≡ some d
    → is_listed d.id ds ≡ true
unfolding is_listed
is_listed_at [] i h = cc
is_listed_at (x ∷ ds) zero {d} h =
    rw (sym (ap (λ (o : Option Dashboard). (or_default o x).id) h))
      (ground (arith, eq_text_refl x.id))
is_listed_at (x ∷ ds) (suc i) h = ground (arith, is_listed_at ds i h)

pub is_listed-filter :
    (p : Dashboard → Bool) (i : Text) (ds : List Dashboard)
    → is_listed i (filter p ds) ≡ true
    → is_listed i ds ≡ true
unfolding is_listed
is_listed-filter p i [] h = h
is_listed-filter p i (x ∷ ds) h = ground (arith, is_listed-filter p i ds)
