-- ===== src/Panel/Slider/Settles.antt =====
-- A value that was sent does not stay pending: the slider's runs, and the timer of each wait.
use mqtt_dashboard.Prelude.{
  ℕ, ◌≡◌, refl, true, none, some, any, ◌==◌, Option-cases, Bool-cases, inl, inr,
}
use mqtt_dashboard.Prelude.Text.{Text}
use mqtt_dashboard.Json.Runtime.{Runtime}
use mqtt_dashboard.Panel.Confirm.{timer_fires, post_fails, post_succeeds}
use mqtt_dashboard.Panel.Confirm.Timed.{
  IsTimed, reported-IsTimed, begin-IsTimed, timer_fires-IsTimed, post_fails-IsTimed,
  IsTimed-settles,
}
use mqtt_dashboard.Panel.Slider.{
  Arithmetic, SliderConfig, SliderRun, slider_start, range_of_config, is_near, parse_slider_value,
  apply_incoming_value, disabled, clamp_to_range, slider_payload, commit, typed_number,
  commit_typed,
}

module _ (R : Runtime) (A : Arithmetic R.Num) (config : SliderConfig R A) where
  open R use {Num}

  -- What can happen to the slider; `moves` and `types` are the handle and the box of its view.
  pub data SliderStep : SliderRun R A → SliderRun R A → Type 0 where
    receives :
        (payload : Text) (at : ℕ) {s : SliderRun R A}
        → SliderStep s (apply_incoming_value R A config payload at s)
    moves : (v : Num) {s : SliderRun R A} → SliderStep s (record s { dragging = some v })
    types : (t : Text) {s : SliderRun R A} → SliderStep s (record s { typed = some t })
    commits :
        (now : ℕ) (iso : Text) (raw : Num) {s : SliderRun R A}
        → SliderStep s (commit R A config now iso raw s)
    commits_typed :
        (now : ℕ) (iso : Text) {s : SliderRun R A}
        → SliderStep s (commit_typed R A config now iso s)
    fires :
        (t : ℕ) {s : SliderRun R A}
        → any (λ u. u == t) s.write.timers ≡ true
        → SliderStep s (record s { write = timer_fires t s.write })
    fails :
        (i : ℕ) {s : SliderRun R A}
        → any (λ u. u == i) s.write.posts ≡ true
        → SliderStep s (record s { write = post_fails i s.write })
    succeeds :
        (i : ℕ) {s : SliderRun R A}
        → any (λ u. u == i) s.write.posts ≡ true
        → SliderStep s (record s { write = post_succeeds i s.write })

  pub data Runs : SliderRun R A → Type 0 where
    started : Runs (slider_start R A)
    goes_on : {s t : SliderRun R A} → Runs s → SliderStep s t → Runs t

  apply_incoming_value-IsTimed :
      (payload : Text) (at : ℕ) (s : SliderRun R A)
      → IsTimed s.write
      → IsTimed (apply_incoming_value R A config payload at s).write
  unfolding apply_incoming_value
  apply_incoming_value-IsTimed payload at s h =
      elim (Option-cases (parse_slider_value R A payload config.read_template)) [
        | inl e ↦ rw (e, apply_incoming_value) h
        | inr (n, e) ↦
            rw (e, apply_incoming_value) (reported-IsTimed (is_near R A config n) at s.write h)
      ]

  commit-IsTimed :
      (now : ℕ) (iso : Text) (raw : Num) (s : SliderRun R A)
      → IsTimed s.write
      → IsTimed (commit R A config now iso raw s).write
  unfolding commit
  commit-IsTimed now iso raw s h = elim (Bool-cases (disabled R A config)) [
    | inl e ↦ rw (e, commit) h
    | inr e ↦
        rw (e, commit)
          (begin-IsTimed (clamp_to_range R A raw (range_of_config R A config))
            (slider_payload R A config now iso
              (clamp_to_range R A raw (range_of_config R A config)))
            s.write h)
  ]

  commit_typed-IsTimed :
      (now : ℕ) (iso : Text) (s : SliderRun R A)
      → IsTimed s.write
      → IsTimed (commit_typed R A config now iso s).write
  unfolding commit_typed
  commit_typed-IsTimed now iso s h = elim (Option-cases (typed_number R A s.typed)) [
    | inl e ↦ rw (e, commit_typed) h
    | inr (n, e) ↦ rw (e, commit_typed) (commit-IsTimed now iso n (record s { typed = none }) h)
  ]

  Step-IsTimed : {s t : SliderRun R A} → SliderStep s t → IsTimed s.write → IsTimed t.write
  unfolding post_succeeds
  Step-IsTimed (receives payload at) h = apply_incoming_value-IsTimed payload at _ h
  Step-IsTimed (moves v) h = h
  Step-IsTimed (types t) h = h
  Step-IsTimed (commits now iso raw) h = commit-IsTimed now iso raw _ h
  Step-IsTimed (commits_typed now iso) h = commit_typed-IsTimed now iso _ h
  Step-IsTimed (fires t due) h = timer_fires-IsTimed t _ due h
  Step-IsTimed (fails i due) h = post_fails-IsTimed i _ h
  Step-IsTimed (succeeds i due) h = h

  Runs-IsTimed : {s : SliderRun R A} → Runs s → IsTimed s.write
  Runs-IsTimed started = (refl, tt)
  Runs-IsTimed (goes_on r d) = Step-IsTimed d (Runs-IsTimed r)

  -- Whatever happened to the slider: while a value is pending, a timer runs whose callback ends the
  -- wait and marks the value as not confirmed.
  pub Runs-settles :
      {s : SliderRun R A} (v : Num)
      → Runs s
      → s.write.pending ≡ some v
      → (t : ℕ) × (any (λ u. u == t) s.write.timers ≡ true)
        × ((timer_fires t s.write).pending ≡ none)
        × ((timer_fires t s.write).unconfirmed ≡ true)
  Runs-settles {s} v r p = IsTimed-settles s.write v (Runs-IsTimed r) p
