-- ===== src/Cron/Search.antt =====
-- `getPreviousCronRun` of cronUtils.ts. Times are counted in minutes from a moment in the past, and
-- the local calendar is a parameter.
use mqtt_dashboard.Prelude.{
  ℕ, zero, suc, ◌-◌, ◌<◌, ◌≤◌, ◌≡◌, ◌⊎◌, inl, inr, ap, ◌∙◌, Bool, true, false, not, Option, none,
  some, if◌then◌else◌, ltb, Bool-cases, arith,
}
use mqtt_dashboard.Prelude.Text.{Text, trim}
use mqtt_dashboard.Cron.Valid.{five_parts-validate_cron}
use mqtt_dashboard.Cron.{
  LocalTime, CronParts, five_parts, split_spaces, validate_cron, matches_cron_time,
  matches_cron_date,
}

-- What the search asks of `Date`.
pub record Calendar : Type 0 where
  -- The local time at a minute.
  pub local : ℕ → LocalTime
  -- The minute of `setDate(getDate() - 1)` and then `setHours(23, 59, 0, 0)`.
  pub end_of_previous_day : ℕ → ℕ
  -- The minute of `setDate(getDate() - 366)`.
  pub year_back : ℕ → ℕ

le_or_lt : (a b : ℕ) → (a ≤ b) ⊎ (b < a)
le_or_lt a b = ground arith

not_both : {b : Bool} → b ≡ true → b ≡ false → ⊥
not_both h k = cc

module _ (calendar : Calendar) where
  open calendar use {local, end_of_previous_day, year_back}

  -- The loop. `curr` falls in each round, and it ends below `limit`.
  unfoldable pub search_back : ℕ → CronParts → ℕ → ℕ → Option ℕ
  unfolding matches_cron_time matches_cron_date
  search_back zero parts limit curr = none
  search_back (suc fuel) parts limit curr =
      let skip = search_back fuel parts limit (end_of_previous_day curr) in
      let back = search_back fuel parts limit (curr - 1) in
      if ltb curr limit
      then none
      else if not (matches_cron_date parts (local curr))
      then skip
      else if matches_cron_time parts (local curr)
      then some curr
      else back

  -- `next_run` is a minute: its seconds are set to 0.
  unfoldable pub get_previous_cron_run : Text → ℕ → Option ℕ
  unfolding validate_cron trim split_spaces search_back
  get_previous_cron_run expr next_run = elim (validate_cron expr) [
    | some error ↦ none
    | none ↦ elim (five_parts (split_spaces (trim expr))) [
      | none ↦ none
      | some parts ↦ search_back next_run parts (year_back (next_run - 1)) (next_run - 1)
    ]
  ]

  -- What `Date` promises where no clock is set back across midnight: the day before ends earlier,
  -- and from there on it is the same day.
  pub record IsCalendar : Type 0 where
    pub earlier : (t : ℕ) → 0 < t → end_of_previous_day t < t
    pub same_day :
        (t u : ℕ)
        → end_of_previous_day t < u
        → u ≤ t
        → ((local u).date ≡ (local t).date)
          × ((local u).month ≡ (local t).month)
          × ((local u).day ≡ (local t).day)

  -- The expression fires at the minute.
  abbrev pub Fires : CronParts → ℕ → Type 0
  Fires parts t =
      (matches_cron_date parts (local t) ≡ true) × (matches_cron_time parts (local t) ≡ true)

  -- The result of a search from `curr` down to `limit`: the last minute at which the expression
  -- fires, or none if there is none.
  abbrev pub IsLatest : CronParts → ℕ → ℕ → Option ℕ → Type 0
  IsLatest parts limit curr none = (u : ℕ) → limit ≤ u → u ≤ curr → Fires parts u → ⊥
  IsLatest parts limit curr (some r) =
      (limit ≤ r) × (r ≤ curr) × Fires parts r × ((u : ℕ) → r < u → u ≤ curr → Fires parts u → ⊥)

  -- Minutes that do not fire can be put in front of a search.
  IsLatest-further :
      (parts : CronParts) (limit curr next : ℕ) (result : Option ℕ)
      → next ≤ curr
      → ((u : ℕ) → next < u → u ≤ curr → Fires parts u → ⊥)
      → IsLatest parts limit next result
      → IsLatest parts limit curr result
  IsLatest-further parts limit curr next none le h k =
      λ u l c f. elim (le_or_lt u next) [ inl a ↦ k u l a f | inr b ↦ h u b c f ]
  IsLatest-further parts limit curr next (some r) le h k = (
    k.0,
    ground (arith, k.1),
    k.2,
    λ u l c f. elim (le_or_lt u next) [ inl a ↦ k.3 u l a f | inr b ↦ h u b c f ],
  )

  matches_cron_date-same_day :
      (parts : CronParts) (a b : LocalTime)
      → a.date ≡ b.date
      → a.month ≡ b.month
      → a.day ≡ b.day
      → matches_cron_date parts a ≡ matches_cron_date parts b
  unfolding matches_cron_date
  matches_cron_date-same_day parts a b d m w = rw (d, m, w)

  search_back-IsLatest :
      (fuel : ℕ) (parts : CronParts) (limit curr : ℕ)
      → IsCalendar
      → 0 < limit
      → curr < fuel
      → IsLatest parts limit curr (search_back fuel parts limit curr)
  unfolding search_back
  search_back-IsLatest zero parts limit curr cal pos l = ground arith
  search_back-IsLatest (suc fuel) parts limit curr cal pos l = elim (Bool-cases (ltb curr limit)) [
    | inl e ↦ rw e (λ u k c f. ground arith)
    | inr e ↦ elim (Bool-cases (matches_cron_date parts (local curr))) [
      | inr d ↦
          let less = cal.earlier curr (ground arith) in
          rw (e, d)
            (IsLatest-further parts limit curr (end_of_previous_day curr)
              (search_back fuel parts limit (end_of_previous_day curr)) (omega arith)
              (λ u k c f. not_both f.0 (other_day u k c ∙ d))
              (search_back-IsLatest fuel parts limit (end_of_previous_day curr) cal pos
                (omega arith)))
      | inl d ↦ elim (Bool-cases (matches_cron_time parts (local curr))) [
        | inl t ↦ rw (e, d, t) (ground arith, ground arith, (d, t), λ u k c f. ground arith)
        | inr t ↦
            rw (e, d, t)
              (IsLatest-further parts limit curr (curr - 1)
                (search_back fuel parts limit (curr - 1)) (omega arith)
                (λ u k c f. not_both f.1 (at_curr u k c ∙ t))
                (search_back-IsLatest fuel parts limit (curr - 1) cal pos (ground arith)))
      ]
    ]
  ]
    where
      other_day :
          (u : ℕ)
          → end_of_previous_day curr < u
          → u ≤ curr
          → matches_cron_date parts (local u) ≡ matches_cron_date parts (local curr)
      other_day u k c =
          let same = cal.same_day curr u k c in
          matches_cron_date-same_day parts (local u) (local curr) same.0 same.1 same.2

      at_curr :
          (u : ℕ)
          → curr - 1 < u
          → u ≤ curr
          → matches_cron_time parts (local u) ≡ matches_cron_time parts (local curr)
      at_curr u k c = ap (λ w. matches_cron_time parts (local w)) (omega arith)

  get_previous_cron_run-search_back :
      (expr : Text) (parts : CronParts) (next_run : ℕ)
      → validate_cron expr ≡ none
      → five_parts (split_spaces (trim expr)) ≡ some parts
      → get_previous_cron_run expr next_run
        ≡ search_back next_run parts (year_back (next_run - 1)) (next_run - 1)
  unfolding get_previous_cron_run
  get_previous_cron_run-search_back expr parts next_run v f = rw (v, get_previous_cron_run) (rw f)

  -- For an expression that is valid, which then has five parts, the search gives the last minute
  -- before the next run, and no more than 366 days before it, at which the expression fires, and
  -- nothing if there is none.
  pub get_previous_cron_run-IsLatest :
      (expr : Text) (next_run : ℕ)
      → validate_cron expr ≡ none
      → IsCalendar
      → 0 < next_run
      → 0 < year_back (next_run - 1)
      → (parts : CronParts) × (five_parts (split_spaces (trim expr)) ≡ some parts)
        × IsLatest parts
            (year_back (next_run - 1))
            (next_run - 1)
            (get_previous_cron_run expr next_run)
  get_previous_cron_run-IsLatest expr next_run v cal n y =
      let five = five_parts-validate_cron expr v in
      (
        five.0,
        five.1,
        rw (get_previous_cron_run-search_back expr five.0 next_run v five.1) (
            search_back-IsLatest next_run five.0 (year_back (next_run - 1)) (next_run - 1) cal y
              (omega arith)),
      )
