-- ===== src/Panel/Confirm/Timed.antt =====
-- While a command is pending its timer runs, and no other.
use mqtt_dashboard.Prelude.{
  ℕ, ◌≡◌, refl, sym, ◌∙◌, Bool, true, List, [], ◌∷◌, Option, none, some, any, ◌==◌, arith,
}
use mqtt_dashboard.Prelude.Text.{Text}
use mqtt_dashboard.Panel.Confirm.{
  Confirm, clear_pending_timer, reported, begin, timer_fires, post_fails, post_succeeds,
}

module _ {P : Type 0} where
  -- A command is pending, its timer is the one that is known, and it is the one that runs; or
  -- none is.
  abbrev pub TimedBy : Option P → Option ℕ → List ℕ → Type 0
  TimedBy none none [] = Unit
  TimedBy (some v) (some t) (u ∷ []) = u ≡ t
  TimedBy _ _ _ = ⊥

  -- What is shown as pending is what the handlers see, and its timer runs.
  abbrev pub IsTimed : Confirm P → Type 0
  IsTimed s = (s.pending ≡ s.pending_ref) × TimedBy s.pending_ref s.timeout_ref s.timers

  pub data Event : Confirm P → Confirm P → Type 0 where
    reports : (agrees : P → Bool) (at : ℕ) {s : Confirm P} → Event s (reported agrees at s)
    begins : (v : P) (payload : Text) {s : Confirm P} → Event s (begin v payload s)
    fires : (t : ℕ) {s : Confirm P} → any (λ u. u == t) s.timers ≡ true → Event s (timer_fires t s)
    fails : (i : ℕ) {s : Confirm P} → Event s (post_fails i s)
    succeeds : (i : ℕ) {s : Confirm P} → Event s (post_succeeds i s)

  clear_pending_timer-timers :
      (s : Confirm P)
      → TimedBy s.pending_ref s.timeout_ref s.timers
      → ((clear_pending_timer s).timers ≡ []) × ((clear_pending_timer s).timeout_ref ≡ none)
  unfolding clear_pending_timer
  clear_pending_timer-timers s h = ground arith

  pub reported-IsTimed :
      (agrees : P → Bool) (at : ℕ) (s : Confirm P) → IsTimed s → IsTimed (reported agrees at s)
  unfolding reported clear_pending_timer
  reported-IsTimed agrees at s h = ground arith

  pub begin-IsTimed :
      (v : P) (payload : Text) (s : Confirm P) → IsTimed s → IsTimed (begin v payload s)
  unfolding begin clear_pending_timer
  begin-IsTimed v payload s h = ground arith

  pub timer_fires-IsTimed :
      (t : ℕ) (s : Confirm P)
      → any (λ u. u == t) s.timers ≡ true
      → IsTimed s
      → IsTimed (timer_fires t s)
  unfolding timer_fires
  timer_fires-IsTimed t s due h = ground arith

  pub post_fails-IsTimed : (i : ℕ) (s : Confirm P) → IsTimed s → IsTimed (post_fails i s)
  unfolding post_fails clear_pending_timer
  post_fails-IsTimed i s h = ground arith

  pub Event-IsTimed : {s t : Confirm P} → Event s t → IsTimed s → IsTimed t
  unfolding post_succeeds
  Event-IsTimed (reports agrees at) h = reported-IsTimed agrees at _ h
  Event-IsTimed (begins v payload) h = begin-IsTimed v payload _ h
  Event-IsTimed (fires t due) h = timer_fires-IsTimed t _ due h
  Event-IsTimed (fails i) h = post_fails-IsTimed i _ h
  Event-IsTimed (succeeds i) h = h

  timer_of :
      (p : Option P) (r : Option ℕ) (ts : List ℕ) (v : P)
      → TimedBy p r ts
      → p ≡ some v
      → (t : ℕ) × (any (λ u. u == t) ts ≡ true)
  timer_of (some w) (some t) (u ∷ []) v h e = (t, ground arith)
  timer_of _ _ _ v h e = ground arith

  -- While a command is pending there is a timer that runs, and its callback ends the waiting.
  pub IsTimed-settles :
      (s : Confirm P) (v : P)
      → IsTimed s
      → s.pending ≡ some v
      → (t : ℕ) × (any (λ u. u == t) s.timers ≡ true)
        × ((timer_fires t s).pending ≡ none)
        × ((timer_fires t s).unconfirmed ≡ true)
  unfolding timer_fires
  IsTimed-settles s v h p =
      let (t, due) = timer_of s.pending_ref s.timeout_ref s.timers v h.1 (sym h.0 ∙ p) in
      (t, due, refl, refl)
