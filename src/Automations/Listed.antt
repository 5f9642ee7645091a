-- ===== src/Automations/Listed.antt =====
-- The jobs that are displayed are those that pass the filters, in the order that is asked for.
use Prim.Native.Nat.{Ordering, lt, eq, gt}
use mathlib.Core.List.{Perm}
use mathlib.Core.List.Perm
use mqtt_dashboard.Prelude.{
  ℕ, ◌≡◌, refl, sym, ap, ◌∙◌, Bool, true, false, List, [], Option, none, some, filter, or_default,
}
use mqtt_dashboard.Prelude.Text.{Text}
use mqtt_dashboard.Prelude.Sort.{sort_by-perm, sort_by-IsSortedBy, IsSortedBy, IsComparison}
use mqtt_dashboard.Automations.{
  AutomationItem, SortKey, by_status, by_type, by_automation, by_topic, by_payload,
  by_trigger_execution, by_broker, SortOrder, asc, desc, SortState, Page,
}
use mqtt_dashboard.Automations.Shown.{
  is_shown, compare_enabled, compare_jobs, lower_pair, not_after, may_precede, sorted_jobs,
  displayed_jobs,
}

abbrev pub flip : Ordering → Ordering
flip lt = gt
flip eq = eq
flip gt = lt

-- A comparison that is consistent, as that of `localeCompare` is documented to be.
pub record IsCollation {ℓ} {A : Type ℓ} (compare : A → A → Ordering) : Type ℓ where
  pub flips : (a b : A) → compare b a ≡ flip (compare a b)
  pub trans :
      (a b c : A)
      → not_after asc (compare a b) ≡ true
      → not_after asc (compare b c) ≡ true
      → not_after asc (compare a c) ≡ true

-- Comparing by a function's values.
collate {ℓ ℓ'} :
    {A : Type ℓ} {B : Type ℓ'} (compare : A → A → Ordering) (f : B → A)
    → IsCollation compare
    → IsCollation (λ a b. compare (f a) (f b))
collate compare f c = record {
  flips = λ a b. c.flips (f a) (f b);
  trans = λ x y z. c.trans (f x) (f y) (f z);
}

compare_enabled-flip : (a b : Bool) → compare_enabled b a ≡ flip (compare_enabled a b)
compare_enabled-flip true true = refl
compare_enabled-flip true false = refl
compare_enabled-flip false true = refl
compare_enabled-flip false false = refl

compare_enabled_trans :
    (a b c : Bool)
    → not_after asc (compare_enabled a b) ≡ true
    → not_after asc (compare_enabled b c) ≡ true
    → not_after asc (compare_enabled a c) ≡ true
compare_enabled_trans true true c p q = q
compare_enabled_trans true false c p q = cc
compare_enabled_trans false b true p q = refl
compare_enabled_trans false b false p q = refl

-- Both orders of a consistent comparison are orders that a list can be sorted by.
not_after-total :
    (order : SortOrder) (o : Ordering) → not_after order o ≡ false → not_after order (flip o) ≡ true
not_after-total asc lt h = sym h
not_after-total asc eq h = refl
not_after-total asc gt h = refl
not_after-total desc lt h = refl
not_after-total desc eq h = refl
not_after-total desc gt h = sym h

not_after-flip : (o : Ordering) → not_after desc o ≡ not_after asc (flip o)
not_after-flip lt = refl
not_after-flip eq = refl
not_after-flip gt = refl

not_after-IsComparison {ℓ} :
    {A : Type ℓ} (compare : A → A → Ordering) (order : SortOrder)
    → IsCollation compare
    → IsComparison (λ a b. not_after order (compare a b))
not_after-IsComparison {A} compare order c = record {
  total = λ a b h. rw (c.flips a b) (not_after-total order (compare a b) h);
  trans =
      elim order
        as (λ o.
          (x y z : A)
          → not_after o (compare x y) ≡ true
          → not_after o (compare y z) ≡ true
          → not_after o (compare x z) ≡ true) [
            | asc ↦ c.trans
            | desc ↦ λ x y z p q. upside x y z p q
          ];
}
  where
    backward : (x y : A) → not_after desc (compare x y) ≡ not_after asc (compare y x)
    backward x y = not_after-flip (compare x y) ∙ ap (not_after asc) (sym (c.flips x y))

    upside :
        (x y z : A)
        → not_after desc (compare x y) ≡ true
        → not_after desc (compare y z) ≡ true
        → not_after desc (compare x z) ≡ true
    upside x y z p q =
        backward x z ∙ c.trans z y x (sym (backward y z) ∙ q) (sym (backward x y) ∙ p)

module _ (lower_case : Text → Text) (locale_compare : Text → Text → Ordering)
    (parse_date : Text → Option ℕ) where
  compare_jobs-IsCollation :
      (key : SortKey)
      → IsCollation locale_compare
      → IsCollation (compare_jobs lower_case locale_compare parse_date key)
  unfolding compare_jobs
  compare_jobs-IsCollation by_status c = record {
    flips = λ a b. compare_enabled-flip a.enabled b.enabled;
    trans = λ x y z. compare_enabled_trans x.enabled y.enabled z.enabled;
  }
  compare_jobs-IsCollation by_type c = collate locale_compare (λ j. j.panel_type) c
  compare_jobs-IsCollation by_automation c =
      collate locale_compare
        (λ j. lower_pair lower_case locale_compare parse_date j.panel_title j.dashboard_name) c
  compare_jobs-IsCollation by_topic c = collate locale_compare (λ j. j.target_topic) c
  compare_jobs-IsCollation by_payload c = collate locale_compare (λ j. or_default j.payload []) c
  compare_jobs-IsCollation by_trigger_execution c =
      collate locale_compare
        (λ j. lower_pair lower_case locale_compare parse_date j.trigger_summary j.trigger_detail) c
  compare_jobs-IsCollation by_broker c = collate locale_compare (λ j. j.broker_name) c

  -- In the order that is asked for, or as they were.
  unfoldable pub IsInOrder : SortState → List AutomationItem → List AutomationItem → Type 0
  unfolding compare_jobs
  IsInOrder none before jobs = jobs ≡ before
  IsInOrder (some (key, order)) before jobs =
      IsSortedBy (may_precede lower_case locale_compare parse_date key order) jobs

  sorted_jobs-perm :
      (sort : SortState) (jobs : List AutomationItem)
      → Perm (sorted_jobs lower_case locale_compare parse_date sort jobs) jobs
  sorted_jobs-perm none jobs = Perm.rfl
  sorted_jobs-perm (some (key, order)) jobs =
      sort_by-perm (may_precede lower_case locale_compare parse_date key order) jobs

  sorted_jobs-IsInOrder :
      (sort : SortState) (jobs : List AutomationItem)
      → IsCollation locale_compare
      → IsInOrder sort jobs (sorted_jobs lower_case locale_compare parse_date sort jobs)
  unfolding IsInOrder
  sorted_jobs-IsInOrder none jobs c = refl
  sorted_jobs-IsInOrder (some (key, order)) jobs c =
      sort_by-IsSortedBy (may_precede lower_case locale_compare parse_date key order) jobs (
        not_after-IsComparison (compare_jobs lower_case locale_compare parse_date key) order
          (compare_jobs-IsCollation key c))

  pub displayed_jobs-perm :
      (p : Page)
      → Perm
          (displayed_jobs lower_case locale_compare parse_date p)
          (filter (is_shown lower_case locale_compare parse_date p) p.jobs)
  unfolding displayed_jobs
  displayed_jobs-perm p =
      sorted_jobs-perm p.sort (filter (is_shown lower_case locale_compare parse_date p) p.jobs)

  -- Where `localeCompare` is consistent, what is displayed are the jobs that pass every filter,
  -- each as often as the page holds it; each of them may stand before all behind it in the
  -- order that is asked for; and with no order asked for they are in the page's own order.
  pub displayed_jobs-IsInOrder :
      (p : Page)
      → IsCollation locale_compare
      → Perm
          (displayed_jobs lower_case locale_compare parse_date p)
          (filter (is_shown lower_case locale_compare parse_date p) p.jobs)
        × IsInOrder p.sort
            (filter (is_shown lower_case locale_compare parse_date p) p.jobs)
            (displayed_jobs lower_case locale_compare parse_date p)
  unfolding displayed_jobs
  displayed_jobs-IsInOrder p c = (
    displayed_jobs-perm p,
    sorted_jobs-IsInOrder p.sort (filter (is_shown lower_case locale_compare parse_date p) p.jobs)
        c,
  )
