-- ===== src/Automations/Displayed.antt =====
-- What the page of frontend/src/pages/AutomationsPage.tsx displays, by what its filters and its
-- sorting ask.
use Prim.Native.Nat.{Ordering, lt, gt}
use mathlib.Core.List.{Perm}
use mqtt_dashboard.Prelude.{
  ℕ, ◌≡◌, ◌≢◌, ◌↔◌, Bool, true, List, [], ◌∷◌, ◌++◌, Option, none, some, filter, or_default, All,
  Bool-cases, inl, inr, arith,
}
use mqtt_dashboard.Prelude.Text.{Text}
use mqtt_dashboard.Prelude.Sort.{IsSortedBy}
use mqtt_dashboard.Automations.{
  AutomationItem, SortKey, by_status, by_type, by_automation, by_topic, by_payload,
  by_trigger_execution, by_broker, SortOrder, asc, desc, SortState, Page,
}
use mqtt_dashboard.Automations.Shown.{
  is_shown, may_precede, compare_jobs, not_after, displayed_jobs,
}
use mqtt_dashboard.Automations.Listed.{IsCollation, IsInOrder, displayed_jobs-IsInOrder}
use mqtt_dashboard.Automations.Passing.{Passes, is_shown_iff}

-- `Selects P xs ys`: the members of `xs` with the property, each as often as it stands there and in
-- the same order, are `ys`.
pub data Selects {ℓ} {A : Type ℓ} (P : A → Type 0) : List A → List A → Type ℓ where
  ends : Selects P [] []
  takes : {x : A} {xs ys : List A} → P x → Selects P xs ys → Selects P (x ∷ xs) (x ∷ ys)
  leaves : {x : A} {xs ys : List A} → ¬ P x → Selects P xs ys → Selects P (x ∷ xs) ys

-- Each member is related to all those behind it.
abbrev pub ArePairwise {ℓ} : {A : Type ℓ} → (A → A → Type 0) → List A → Type ℓ
ArePairwise R [] = Unit
ArePairwise R (x ∷ xs) = All (R x) xs × ArePairwise R xs

filter-Selects {ℓ} :
    {A : Type ℓ} (t : A → Bool) (P : A → Type 0) (xs : List A)
    → ((x : A) → (t x ≡ true) ↔ P x)
    → Selects P xs (filter t xs)
filter-Selects t P [] h = ends
filter-Selects t P (x ∷ xs) h = elim (Bool-cases (t x)) [
  | inl e ↦ rw e (takes ((h x).0 e) (filter-Selects t P xs h))
  | inr e ↦ rw e (leaves (λ p. let n = (h x).1 p in cc) (filter-Selects t P xs h))
]

All-map {ℓ} :
    {A : Type ℓ} (P Q : A → Type 0) (xs : List A) → ((x : A) → P x → Q x) → All P xs → All Q xs
All-map P Q [] f h = tt
All-map P Q (x ∷ xs) f h = (f x h.0, All-map P Q xs f h.1)

IsSortedBy-ArePairwise {ℓ} :
    {A : Type ℓ} (t : A → A → Bool) (R : A → A → Type 0) (xs : List A)
    → ((x y : A) → t x y ≡ true → R x y)
    → IsSortedBy t xs
    → ArePairwise R xs
IsSortedBy-ArePairwise t R [] f h = tt
IsSortedBy-ArePairwise t R (x ∷ xs) f h =
    (All-map _ _ xs (f x) h.0, IsSortedBy-ArePairwise t R xs f h.1)

not_gt : (o : Ordering) → not_after asc o ≡ true → o ≢ gt
not_gt o h e = let n = rw e at h in cc

not_lt : (o : Ordering) → not_after desc o ≡ true → o ≢ lt
not_lt o h e = let n = rw e at h in cc

module _ (lower_case : Text → Text) (locale_compare : Text → Text → Ordering)
    (parse_date : Text → Option ℕ) where
  -- The text by which a column is sorted; the status is not sorted by a text.
  abbrev pub column_text : SortKey → AutomationItem → Text
  column_text by_status j = []
  column_text by_type j = j.panel_type
  column_text by_automation j = lower_case (j.panel_title ++ b' ' ∷ j.dashboard_name)
  column_text by_topic j = j.target_topic
  column_text by_payload j = or_default j.payload []
  column_text by_trigger_execution j = lower_case (j.trigger_summary ++ b' ' ∷ j.trigger_detail)
  column_text by_broker j = j.broker_name

  -- Sorted by the status, a job that is enabled has none that is paused behind it if the order is
  -- ascending, and none before it if it is descending; else the text of the first is not the
  -- greater one, or not the smaller one.
  abbrev pub StandsBefore : SortKey → SortOrder → AutomationItem → AutomationItem → Type 0
  StandsBefore by_status asc a b = a.enabled ≡ true → b.enabled ≡ true
  StandsBefore by_status desc a b = b.enabled ≡ true → a.enabled ≡ true
  StandsBefore key asc a b = locale_compare (column_text key a) (column_text key b) ≢ gt
  StandsBefore key desc a b = locale_compare (column_text key a) (column_text key b) ≢ lt

  -- Sorted as it is asked for, or as they were.
  abbrev pub AreSorted : SortState → List AutomationItem → List AutomationItem → Type 0
  AreSorted none before jobs = jobs ≡ before
  AreSorted (some (key, order)) before jobs = ArePairwise (StandsBefore key order) jobs

  stands_before :
      (key : SortKey) (order : SortOrder) (a b : AutomationItem)
      → may_precede lower_case locale_compare parse_date key order a b ≡ true
      → StandsBefore key order a b
  unfolding compare_jobs
  stands_before by_status asc a b h = ground arith
  stands_before by_status desc a b h = ground arith
  stands_before by_type asc a b h = not_gt _ h
  stands_before by_type desc a b h = not_lt _ h
  stands_before by_automation asc a b h = not_gt _ h
  stands_before by_automation desc a b h = not_lt _ h
  stands_before by_topic asc a b h = not_gt _ h
  stands_before by_topic desc a b h = not_lt _ h
  stands_before by_payload asc a b h = not_gt _ h
  stands_before by_payload desc a b h = not_lt _ h
  stands_before by_trigger_execution asc a b h = not_gt _ h
  stands_before by_trigger_execution desc a b h = not_lt _ h
  stands_before by_broker asc a b h = not_gt _ h
  stands_before by_broker desc a b h = not_lt _ h

  sorted_as_asked :
      (sort : SortState) (before jobs : List AutomationItem)
      → IsInOrder lower_case locale_compare parse_date sort before jobs
      → AreSorted sort before jobs
  unfolding IsInOrder
  sorted_as_asked none before jobs h = h
  sorted_as_asked (some (key, order)) before jobs h =
      IsSortedBy-ArePairwise _ _ jobs (stands_before key order) h

  -- Where `localeCompare` is consistent, what the page displays are those of its jobs that every
  -- filter lets pass, each as often as the page holds it: sorted by the column that is asked for,
  -- each before all behind it in the order that is asked for; or, with none asked for, in the
  -- page's own order.
  pub displayed_jobs_lem :
      (p : Page)
      → IsCollation locale_compare
      → (shown : List AutomationItem) × Selects
          (Passes lower_case locale_compare parse_date p)
          p.jobs
          shown
        × Perm (displayed_jobs lower_case locale_compare parse_date p) shown
        × AreSorted p.sort shown (displayed_jobs lower_case locale_compare parse_date p)
  displayed_jobs_lem p c =
      let (perm, order) = displayed_jobs-IsInOrder lower_case locale_compare parse_date p c in
      (
        filter (is_shown lower_case locale_compare parse_date p) p.jobs,
        filter-Selects _ _ p.jobs (is_shown_iff lower_case locale_compare parse_date p),
        perm,
        sorted_as_asked p.sort _ _ order,
      )
