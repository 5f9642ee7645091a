-- ===== src/Panel/Toggle/Flip/Refines.antt =====
-- What the user sees of a toggle, as a machine of its own: no timers, no posts, no second copy of
-- the pending flip.
use mqtt_dashboard.Prelude.{
  ℕ, ◌≡◌, refl, ap, ◌∙◌, sym, Bool, true, false, not, ◌||◌, List, [], ◌∷◌, Option, none, some, any,
  if◌then◌else◌, ◌==◌, is_some, Bool-cases, Option-cases, inl, inr, arith,
}
use mqtt_dashboard.Prelude.Text.{Text, is_empty}
use mqtt_dashboard.Json.Runtime.{Runtime}
use mqtt_dashboard.Panel.Toggle.{toggle_write_payloads, parse_toggle_state}
use mqtt_dashboard.Panel.Confirm.{
  clear_pending_timer, reported, begin, timer_fires, post_fails, post_succeeds,
}
use mqtt_dashboard.Panel.Confirm.Timed.{
  IsTimed, reported-IsTimed, begin-IsTimed, timer_fires-IsTimed, post_fails-IsTimed,
}
use mqtt_dashboard.Panel.Toggle.Flip.{
  ToggleConfig, ToggleRun, start, shape_of, show_state, which_of, says, command_topic_of,
  has_wildcard, cannot_flip, apply_incoming_state, handle_flip,
}

-- What is shown: the last state the device reported, the position that is waited for, and whether
-- the last flip was not confirmed or not published.
pub record View : Type 0 where
  pub device : Option Bool
  pub waiting : Option Bool
  pub unconfirmed : Bool
  pub error : Bool

abbrev pub view : ToggleRun → View
view s = record {
  device = s.state;
  waiting = s.flip.pending;
  unconfirmed = s.flip.unconfirmed;
  error = s.flip.error;
}

-- The device reports a state, or one that cannot be read; what was waited for is over.
abbrev pub hear : Option Bool → View → View
hear next v = record {
  device = next;
  waiting = none;
  unconfirmed = elim v.waiting [ none ↦ v.unconfirmed | some d ↦ not (says next d) ];
  error = v.error;
}

-- A flip is asked for, unless one is waited for or there is no topic to publish to.
abbrev pub ask : Bool → Bool → View → View
ask possible desired v =
    if possible
    then elim v.waiting [
      | some d ↦ v
      | none ↦ record {
        device = v.device;
        waiting = some desired;
        unconfirmed = false;
        error = false;
      }
    ]
    else v

-- The wait is over without an answer. There is one only while something is waited for.
abbrev pub give_up : View → View
give_up v = elim v.waiting [
  | none ↦ v
  | some d ↦ record { device = v.device; waiting = none; unconfirmed = true; error = v.error }
]

-- The flip could not be published.
abbrev pub refuse : View → View
refuse v = record { device = v.device; waiting = none; unconfirmed = v.unconfirmed; error = true }

-- What happens to the panel. The clock of a handler comes with it.
pub data Event : Type 0 where
  receives : Text → ℕ → ℕ → Text → Event
  flips : Bool → ℕ → Text → Event
  fires fails succeeds : ℕ → Event

show_state-view :
    (next : Option Bool) (at : ℕ) (s : ToggleRun)
    → IsTimed s.flip
    → view (show_state next at s) ≡ hear next (view s)
unfolding show_state reported clear_pending_timer
show_state-view next at s h = ground arith

begin-view :
    (desired : Bool) (payload : Text) (s : ToggleRun)
    → view (record s { flip = begin desired payload s.flip })
      ≡ record { device = s.state; waiting = some desired; unconfirmed = false; error = false }
unfolding begin clear_pending_timer
begin-view desired payload s = ground arith

-- A flip that goes out, unless something stands against it.
guarded-view :
    (no_topic wildcard desired : Bool) (s t : ToggleRun)
    → s.flip.pending ≡ s.flip.pending_ref
    → view t
      ≡ record { device = s.state; waiting = some desired; unconfirmed = false; error = false }
    → view (if no_topic || wildcard || is_some s.flip.pending_ref then s else t)
      ≡ ask (not (no_topic || wildcard)) desired (view s)
guarded-view true wildcard desired s t same asked = refl
guarded-view false true desired s t same asked = refl
guarded-view false false desired s t same asked = elim (Option-cases s.flip.pending) [
  | inl e ↦ rw (← same, e) asked
  | inr (d, e) ↦
      rw (← same, e)
        (ap
          (λ w. record {
            device = s.state;
            waiting = w;
            unconfirmed = s.flip.unconfirmed;
            error = s.flip.error;
          })
          (sym e))
]

timer_fires-view :
    (t : ℕ) (s : ToggleRun)
    → any (λ u. u == t) s.flip.timers ≡ true
    → IsTimed s.flip
    → view (record s { flip = timer_fires t s.flip }) ≡ give_up (view s)
unfolding timer_fires
timer_fires-view t s d h = ground arith

post_fails-view :
    (i : ℕ) (s : ToggleRun) → view (record s { flip = post_fails i s.flip }) ≡ refuse (view s)
unfolding post_fails clear_pending_timer
post_fails-view i s = ground arith

module _ (R : Runtime) (config : ToggleConfig) where
  unfoldable pub step : Event → ToggleRun → ToggleRun
  unfolding apply_incoming_state handle_flip timer_fires post_fails post_succeeds
  step (receives payload at now iso) s = apply_incoming_state R config now iso payload at s
  step (flips desired now iso) s = handle_flip R config now iso desired s
  step (fires t) s = record s { flip = timer_fires t s.flip }
  step (fails i) s = record s { flip = post_fails i s.flip }
  step (succeeds i) s = record s { flip = post_succeeds i s.flip }

  -- A timer fires only if it runs, and a post fails only once it was sent.
  abbrev pub Enabled : Event → ToggleRun → Type 0
  Enabled (fires t) s = any (λ u. u == t) s.flip.timers ≡ true
  Enabled (fails i) s = any (λ u. u == i) s.flip.posts ≡ true
  Enabled (succeeds i) s = any (λ u. u == i) s.flip.posts ≡ true
  Enabled _ s = Unit

  abbrev pub has_topic : Bool
  has_topic =
      not (is_empty (command_topic_of config.topic) || has_wildcard (command_topic_of config.topic))

  -- What the machine of views makes of an event.
  abbrev pub seen : Event → View → View
  seen (receives payload at now iso) v =
      hear (parse_toggle_state R now iso payload (shape_of config)) v
  seen (flips desired now iso) v = ask has_topic desired v
  seen (fires t) v = give_up v
  seen (fails i) v = refuse v
  seen (succeeds i) v = v

  -- The runs of the panel, with their events, the last one first.
  pub data Runs : List Event → ToggleRun → Type 0 where
    started : Runs [] start
    happens :
        {es : List Event} {s : ToggleRun} (e : Event)
        → Runs es s
        → Enabled e s
        → Runs (e ∷ es) (step e s)

  abbrev pub seen_all : List Event → View
  seen_all [] = view start
  seen_all (e ∷ es) = seen e (seen_all es)

  step-IsTimed :
      (e : Event) (s : ToggleRun) → Enabled e s → IsTimed s.flip → IsTimed (step e s).flip
  unfolding step apply_incoming_state show_state handle_flip post_succeeds
  step-IsTimed (receives payload at now iso) s d h = reported-IsTimed _ at s.flip h
  step-IsTimed (flips desired now iso) s d h = elim (Bool-cases (cannot_flip config s)) [
    | inl e ↦ rw e h
    | inr e ↦ rw e (
        begin-IsTimed desired (toggle_write_payloads R now iso (shape_of config) (which_of desired))
          s.flip h)
  ]
  step-IsTimed (fires t) s d h = timer_fires-IsTimed t s.flip d h
  step-IsTimed (fails i) s d h = post_fails-IsTimed i s.flip h
  step-IsTimed (succeeds i) s d h = h

  view-step :
      (e : Event) (s : ToggleRun) → Enabled e s → IsTimed s.flip → view (step e s) ≡ seen e (view s)
  unfolding step apply_incoming_state handle_flip post_succeeds
  view-step (receives payload at now iso) s d h =
      show_state-view (parse_toggle_state R now iso payload (shape_of config)) at s h
  view-step (flips desired now iso) s d h =
      guarded-view (is_empty (command_topic_of config.topic))
        (has_wildcard (command_topic_of config.topic)) desired s _ h.0
        (begin-view desired (toggle_write_payloads R now iso (shape_of config) (which_of desired))
          s)
  view-step (fires t) s d h = timer_fires-view t s d h
  view-step (fails i) s d h = post_fails-view i s
  view-step (succeeds i) s d h = refl

  -- Whatever happens to the panel, in whatever order: while a flip is pending its timer runs and no
  -- other, else none does; and what is shown is what the machine of views shows after the same events.
  pub view-Runs :
      {es : List Event} {s : ToggleRun} → Runs es s → IsTimed s.flip × (view s ≡ seen_all es)
  view-Runs started = ((refl, tt), refl)
  view-Runs (happens {es} {s} e r d) =
      let before = view-Runs r in
      (step-IsTimed e s d before.0, view-step e s d before.0 ∙ ap (seen e) before.1)
