-- ===== src/Graph/Plotted.antt =====
-- What a graph keeps of its series, whatever messages arrive.
use mqtt_dashboard.Prelude.{
  length-drop, ℕ, ◌-◌, ◌≤◌, ◌≡◌, ◌∙◌, refl, sym, ap, subst, ◌⊎◌, false, ◌||◌, List, [], ◌∷◌, ◌++◌,
  Option, none, some, any, length, All, arith, Bool-cases, inl, inr, length-append,
}
use mqtt_dashboard.Prelude.Text.{Text, eq_text, eq_text_iff, eq_text_flip}
use mqtt_dashboard.Graph.{
  GraphPoint, GraphSeries, TrimOptions, newest, in_window, trim_points, add_point, add_to_series,
  is_full, append_point,
}
use mqtt_dashboard.Graph.Sorted.{IsSorted, add_point-IsSorted, trim_points-IsSorted}

module _ {V : Type 0} where
  length-newest : (max : ℕ) (ps : List (GraphPoint V)) → (max ≡ 0) ⊎ (length (newest max ps) ≤ max)
  length-newest max ps = ground (arith, length-drop (length ps - max) ps)

  -- A series as a graph draws it: in the order of time, and within the budget of points.
  abbrev pub IsDrawable : ℕ → GraphSeries V → Type 0
  IsDrawable max s = IsSorted s.points × ((max ≡ 0) ⊎ (length s.points ≤ max))

  -- No series has the topic.
  abbrev pub IsFresh : Text → List (GraphSeries V) → Type 0
  IsFresh topic series = any (λ s. eq_text s.topic topic) series ≡ false

  abbrev pub HasOneEach : List (GraphSeries V) → Type 0
  HasOneEach [] = Unit
  HasOneEach (s ∷ ss) = IsFresh s.topic ss × HasOneEach ss

  -- What a graph is made of: drawable series, one for each topic, no more than are allowed.
  pub record IsPlotted (max_points : ℕ) (max_series : Option ℕ) (series : List (GraphSeries V))
      : Type 0 where
    pub drawable : All (IsDrawable max_points) series
    pub one_each : HasOneEach series
    pub allowed : (max : ℕ) → max_series ≡ some max → length series ≤ max

  module _ (topic : Text) (point : GraphPoint V) (options : TrimOptions) where
    abbrev drawn : List (GraphPoint V) → GraphSeries V
    drawn ps = record { topic = topic; points = trim_points ps options }

    drawn-IsDrawable :
        (ps : List (GraphPoint V)) → IsSorted ps → IsDrawable options.max_points (drawn ps)
    unfolding trim_points
    drawn-IsDrawable ps h =
        (trim_points-IsSorted ps options h, length-newest options.max_points (in_window options ps))

    add_to_series-IsDrawable :
        (ss : List (GraphSeries V))
        → All (IsDrawable options.max_points) ss
        → All (IsDrawable options.max_points) (add_to_series ss topic point options)
    unfolding add_to_series
    add_to_series-IsDrawable [] h = tt
    add_to_series-IsDrawable (s ∷ ss) h = elim (Bool-cases (eq_text s.topic topic)) [
      | inl e ↦ rw e (
        drawn-IsDrawable (add_point s.points point) (add_point-IsSorted s.points point h.0.0),
        h.1,
      )
      | inr e ↦ rw e (h.0, add_to_series-IsDrawable ss h.1)
    ]

    any-add_to_series :
        (u : Text) (ss : List (GraphSeries V))
        → any (λ s. eq_text s.topic u) (add_to_series ss topic point options)
          ≡ any (λ s. eq_text s.topic u) ss
    unfolding add_to_series
    any-add_to_series u [] = refl
    any-add_to_series u (s ∷ ss) = elim (Bool-cases (eq_text s.topic topic)) [
      | inl e ↦ rw e (
          ap (λ w. eq_text w u || any (λ x. eq_text x.topic u) ss)
            (sym ((eq_text_iff s.topic topic).0 e)))
      | inr e ↦ rw (e, any-add_to_series u ss)
    ]

    add_to_series-HasOneEach :
        (ss : List (GraphSeries V))
        → HasOneEach ss
        → HasOneEach (add_to_series ss topic point options)
    unfolding add_to_series
    add_to_series-HasOneEach [] h = tt
    add_to_series-HasOneEach (s ∷ ss) h = elim (Bool-cases (eq_text s.topic topic)) [
      | inl e ↦ rw e (subst (λ w. IsFresh w ss) ((eq_text_iff s.topic topic).0 e) h.0, h.1)
      | inr e ↦ rw e (any-add_to_series s.topic ss ∙ h.0, add_to_series-HasOneEach ss h.1)
    ]

    length-add_to_series :
        (ss : List (GraphSeries V)) → length (add_to_series ss topic point options) ≡ length ss
    unfolding add_to_series
    length-add_to_series [] = refl
    length-add_to_series (s ∷ ss) = ground (arith, length-add_to_series ss)

    append-IsDrawable :
        (s : GraphSeries V) (ss : List (GraphSeries V))
        → IsDrawable options.max_points s
        → All (IsDrawable options.max_points) ss
        → All (IsDrawable options.max_points) (ss ++ s ∷ [])
    append-IsDrawable s [] h hs = (h, tt)
    append-IsDrawable s (r ∷ ss) h hs = (hs.0, append-IsDrawable s ss h hs.1)

    any-append-drawn :
        (u : Text) (ps : List (GraphPoint V)) (ss : List (GraphSeries V))
        → IsFresh u ss
        → eq_text topic u ≡ false
        → IsFresh u (ss ++ drawn ps ∷ [])
    any-append-drawn u ps [] h e = ground arith
    any-append-drawn u ps (s ∷ ss) h e = ground (arith, any-append-drawn u ps ss)

    append-HasOneEach :
        (ps : List (GraphPoint V)) (ss : List (GraphSeries V))
        → IsFresh topic ss
        → HasOneEach ss
        → HasOneEach (ss ++ drawn ps ∷ [])
    append-HasOneEach ps [] f h = (refl, tt)
    append-HasOneEach ps (s ∷ ss) f h = (
      any-append-drawn s.topic ps ss h.0 (eq_text_flip s.topic topic (ground arith)),
      append-HasOneEach ps ss (ground arith) h.1,
    )

    length-append-drawn :
        (ss : List (GraphSeries V)) (max_series : Option ℕ) (max : ℕ)
        → is_full ss max_series ≡ false
        → max_series ≡ some max
        → length (ss ++ drawn (point ∷ []) ∷ []) ≤ max
    length-append-drawn ss none max f k = ground arith
    length-append-drawn ss (some n) max f k =
        ground (arith, length-append ss (drawn (point ∷ []) ∷ []))

    -- Whatever point arrives for whatever topic, the graph still has one series for each topic,
    -- no more series than are allowed, each in the order of time and within the budget of points.
    pub append_point-IsPlotted :
        (series : List (GraphSeries V)) (max_series : Option ℕ)
        → IsPlotted options.max_points max_series series
        → IsPlotted options.max_points max_series
            (append_point series topic point options max_series)
    unfolding append_point
    append_point-IsPlotted series max_series h =
        elim (Bool-cases (any (λ s. eq_text s.topic topic) series)) [
          | inl e ↦ rw e (record {
            drawable = add_to_series-IsDrawable series h.drawable;
            one_each = add_to_series-HasOneEach series h.one_each;
            allowed = λ max k. ground (arith, length-add_to_series series, h.allowed max k);
          })
          | inr e ↦ elim (Bool-cases (is_full series max_series)) [
            | inl f ↦ rw (e, f) h
            | inr f ↦
                rw (e, f)
                  (record {
                    drawable =
                        append-IsDrawable (drawn (point ∷ [])) series
                          (drawn-IsDrawable (point ∷ []) (tt, tt)) h.drawable;
                    one_each = append-HasOneEach (point ∷ []) series e h.one_each;
                    allowed = λ max k. length-append-drawn series max_series max f k;
                  })
          ]
        ]
