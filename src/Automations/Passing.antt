-- ===== src/Automations/Passing.antt =====
-- What the filters of frontend/src/pages/AutomationsPage.tsx ask of a job, one by one.
use Prim.Native.Nat.{Ordering}
use mqtt_dashboard.Prelude.{
  ℕ, ◌≡◌, ◌≢◌, refl, sym, ap, subst, ◌⊎◌, inl, inr, ◌↔◌, Bool, true, ◌||◌, [], ◌∷◌, Option, none,
  some, any, or_iff, and_iff, or_default, Bool-cases, arith,
}
use mqtt_dashboard.Prelude.Text.{Text, codes, eq_text, eq_text_iff, is_empty, trim}
use mqtt_dashboard.Panel.Logic.Joins.{Some}
use mqtt_dashboard.Automations.{
  AutomationItem, TimingFilter, any_time, scheduled, soon, ColumnFilters, Page,
}
use mqtt_dashboard.Automations.Shown.{
  is_set, is_all, passes_status, passes_qos, passes_retain, passes_dashboard, has_lower,
  has_optional, matches_global, passes_text, passes_timing, passes_filters, is_shown,
}
use mqtt_dashboard.Automations.Fits.{
  StandsIn, includes_sound, includes_iff, any_iff, IsSoon, is_soon_iff, FitsStatus,
  passes_status_iff, FitsChoice, passes_qos_iff, passes_retain_iff, is_set_iff, empty_iff,
  or_of_ten, and_of_ten, or_of_three, and_of_three, is_all_iff, not_equal_iff, solid_iff,
}

module _ (lower_case : Text → Text) (locale_compare : Text → Text → Ordering)
    (parse_date : Text → Option ℕ) where
  -- The query stands in the text in lower case.
  abbrev pub Holds : Text → Text → Type 0
  Holds q t = StandsIn q (lower_case t)

  -- The same of a text that a job may have, and that is not empty.
  abbrev pub MayHold : Text → Option Text → Type 0
  MayHold q o = (t : Text) × (o ≡ some t) × (t ≢ []) × Holds q t

  -- The text is searched in any of the job's texts.
  abbrev pub IsFoundIn : Text → AutomationItem → Type 0
  IsFoundIn q job =
      Holds q job.target_topic
      ⊎ MayHold q job.source_topic
      ⊎ Some (λ c. MayHold q c.topic ⊎ MayHold q c.value) job.conditions
      ⊎ Holds q job.panel_title
      ⊎ Holds q job.dashboard_name
      ⊎ Holds q job.broker_name
      ⊎ Holds q job.panel_type
      ⊎ Holds q job.trigger_summary
      ⊎ Holds q job.trigger_detail
      ⊎ MayHold q job.payload

  -- A query that is blank asks for nothing; another one is looked for in lower case.
  abbrev pub FitsText : Text → (Text → Type 0) → Type 0
  FitsText query P = (trim query ≡ []) ⊎ P (lower_case query)

  -- A run is planned.
  abbrev pub HasRun : AutomationItem → Type 0
  HasRun job = or_default job.next_run [] ≢ []

  abbrev pub FitsTiming : TimingFilter → ℕ → AutomationItem → Type 0
  FitsTiming f now job =
      (f ≡ any_time)
      ⊎ ((f ≡ scheduled)
          × (job.enabled ≡ true)
          × ((job.trigger_type ≢ codes "schedule") ⊎ HasRun job))
      ⊎ ((f ≡ soon)
          × (job.enabled ≡ true)
          × HasRun job
          × IsSoon now (parse_date (or_default job.next_run [])))

  -- What the filters of the columns ask of a job.
  abbrev pub PassesFilters : ColumnFilters → ℕ → AutomationItem → Type 0
  PassesFilters f now job =
      FitsStatus f.status job.enabled
      × (((f.type ≡ codes "all") ⊎ (lower_case job.panel_type ≡ lower_case f.type))
          × (FitsText f.automation (λ q. Holds q job.panel_title ⊎ Holds q job.dashboard_name)
              × (FitsText f.topic (λ q. Holds q job.target_topic)
                  × (FitsText f.payload (λ q. Holds q (or_default job.payload []))
                      × (FitsChoice f.qos job.qos
                          × (FitsChoice f.retain job.retain
                              × (FitsText f.trigger_execution (λ q.
                                    Holds q job.trigger_summary
                                    ⊎ Holds q job.trigger_detail
                                    ⊎ MayHold q job.status_detail)
                                  × (FitsTiming f.timing now job
                                      × ((f.broker ≡ []) ⊎ (job.broker_name ≡ f.broker))))))))))

  -- What each filter of the page asks of a job that is displayed.
  abbrev pub Passes : Page → AutomationItem → Type 0
  Passes p job =
      ((p.selected_dashboard_id ≡ codes "all") ⊎ (job.dashboard_id ≡ p.selected_dashboard_id))
      × (FitsText p.search_query (λ q. IsFoundIn q job)
          × PassesFilters p.filters p.current_time_ms job)

  has_lower_iff :
      (q t : Text) → (has_lower lower_case locale_compare parse_date q t ≡ true) ↔ Holds q t
  has_lower_iff q t = includes_iff q (lower_case t)

  has_optional_iff :
      (q : Text) (o : Option Text)
      → (has_optional lower_case locale_compare parse_date q o ≡ true) ↔ MayHold q o
  has_optional_iff q none = (λ h. cc, λ h. let (t, e, n, k) = h in absurd (ground arith))
  has_optional_iff q (some []) = (
    λ h. absurd (let n = h in cc),
    λ h. let (t, e, n, k) = h in absurd (n (sym (ap (λ o. or_default o []) e))),
  )
  has_optional_iff q (some (c ∷ t)) = (
    λ h. (c ∷ t, refl, λ e. cc, includes_sound q (lower_case (c ∷ t)) h),
    λ h.
        let (u, e, n, k) = h in
        (includes_iff q (lower_case (c ∷ t))).1
          (subst (λ x. StandsIn q (lower_case x)) (sym (ap (λ o. or_default o []) e)) k),
  )

  matches_global_iff :
      (q : Text) (job : AutomationItem)
      → (matches_global lower_case locale_compare parse_date q job ≡ true) ↔ IsFoundIn q job
  unfolding matches_global
  matches_global_iff q job =
      let lower = has_lower lower_case locale_compare parse_date q in
      let may = has_optional lower_case locale_compare parse_date q in
      or_of_ten (lower job.target_topic) (may job.source_topic)
        (any (λ c. may c.topic || may c.value) job.conditions) (lower job.panel_title)
        (lower job.dashboard_name) (lower job.broker_name) (lower job.panel_type)
        (lower job.trigger_summary) (lower job.trigger_detail) (may job.payload)
        (or_iff _ _ (has_lower_iff q job.target_topic) (
          or_iff _ _ (has_optional_iff q job.source_topic) (
            or_iff _ _
              (any_iff _ _ job.conditions
                (λ c. or_iff _ _ (has_optional_iff q c.topic) (has_optional_iff q c.value)))
              (or_iff _ _ (has_lower_iff q job.panel_title) (
                or_iff _ _ (has_lower_iff q job.dashboard_name) (
                  or_iff _ _ (has_lower_iff q job.broker_name) (
                    or_iff _ _ (has_lower_iff q job.panel_type) (
                      or_iff _ _ (has_lower_iff q job.trigger_summary) (
                        or_iff _ _ (has_lower_iff q job.trigger_detail)
                          (has_optional_iff q job.payload))))))))))

  passes_text_iff :
      (query : Text) (matches : Text → Bool) (P : Text → Type 0)
      → ((q : Text) → (matches q ≡ true) ↔ P q)
      → (passes_text lower_case locale_compare parse_date query matches ≡ true) ↔ FitsText query P
  passes_text_iff query matches P h = elim (Bool-cases (is_set query)) [
    | inl e ↦ rw e (
      λ k. inr ((h (lower_case query)).0 k),
      λ k. elim k [
        | inl b ↦ absurd (let n = (is_set_iff query).1 b in cc)
        | inr x ↦ (h (lower_case query)).1 x
      ],
    )
    | inr e ↦ rw e ((λ k. inl ((is_set_iff query).0 e), λ k. refl))
  ]

  passes_timing_iff :
      (f : TimingFilter) (now : ℕ) (job : AutomationItem)
      → (passes_timing lower_case locale_compare parse_date f now job ≡ true) ↔ FitsTiming f now job
  unfolding passes_timing
  passes_timing_iff any_time now job = (λ h. inl refl, λ h. refl)
  passes_timing_iff scheduled now job = ground (
    arith,
    solid_iff (or_default job.next_run []),
    not_equal_iff job.trigger_type (codes "schedule"),
  )
  passes_timing_iff soon now job = ground (
    arith,
    solid_iff (or_default job.next_run []),
    is_soon_iff now (parse_date (or_default job.next_run [])),
  )

  passes_filters_iff :
      (f : ColumnFilters) (now : ℕ) (job : AutomationItem)
      → (passes_filters lower_case locale_compare parse_date f now job ≡ true)
        ↔ PassesFilters f now job
  unfolding passes_filters
  passes_filters_iff f now job =
      let lower = has_lower lower_case locale_compare parse_date in
      let may = has_optional lower_case locale_compare parse_date in
      let text = passes_text lower_case locale_compare parse_date in
      and_of_ten (passes_status f.status job.enabled)
        (is_all f.type || eq_text (lower_case job.panel_type) (lower_case f.type))
        (text f.automation (λ q. lower q job.panel_title || lower q job.dashboard_name))
        (text f.topic (λ q. lower q job.target_topic))
        (text f.payload (λ q. lower q (or_default job.payload []))) (passes_qos f.qos job.qos)
        (passes_retain f.retain job.retain)
        (text f.trigger_execution (λ q.
          lower q job.trigger_summary || lower q job.trigger_detail || may q job.status_detail))
        (passes_timing lower_case locale_compare parse_date f.timing now job)
        (is_empty f.broker || eq_text job.broker_name f.broker)
        (and_iff _ _ (passes_status_iff f.status job.enabled) (
          and_iff _ _
            (or_iff _ _ (is_all_iff f.type)
              (eq_text_iff (lower_case job.panel_type) (lower_case f.type)))
            (and_iff _ _
              (passes_text_iff f.automation _ _ (λ q.
                or_iff _ _ (has_lower_iff q job.panel_title) (has_lower_iff q job.dashboard_name)))
              (and_iff _ _ (passes_text_iff f.topic _ _ (λ q. has_lower_iff q job.target_topic)) (
                and_iff _ _
                  (passes_text_iff f.payload _ _ (λ q. has_lower_iff q (or_default job.payload [])))
                  (and_iff _ _ (passes_qos_iff f.qos job.qos) (
                    and_iff _ _ (passes_retain_iff f.retain job.retain) (
                      and_iff _ _
                        (passes_text_iff f.trigger_execution _ _ (λ q.
                          or_of_three (lower q job.trigger_summary) (lower q job.trigger_detail)
                            (may q job.status_detail)
                            (or_iff _ _ (has_lower_iff q job.trigger_summary) (
                              or_iff _ _ (has_lower_iff q job.trigger_detail)
                                (has_optional_iff q job.status_detail)))))
                        (and_iff _ _ (passes_timing_iff f.timing now job) (
                          or_iff _ _ (empty_iff f.broker)
                            (eq_text_iff job.broker_name f.broker)))))))))))

  pub is_shown_iff :
      (p : Page) (job : AutomationItem)
      → (is_shown lower_case locale_compare parse_date p job ≡ true) ↔ Passes p job
  unfolding is_shown
  is_shown_iff p job =
      and_of_three (passes_dashboard p.selected_dashboard_id job)
        (passes_text lower_case locale_compare parse_date p.search_query
          (λ q. matches_global lower_case locale_compare parse_date q job))
        (passes_filters lower_case locale_compare parse_date p.filters p.current_time_ms job)
        (and_iff _ _
          (or_iff _ _ (is_all_iff p.selected_dashboard_id)
            (eq_text_iff job.dashboard_id p.selected_dashboard_id))
          (and_iff _ _ (passes_text_iff p.search_query _ _ (λ q. matches_global_iff q job))
            (passes_filters_iff p.filters p.current_time_ms job)))
