-- ===== src/Panel/Confirm.antt =====
-- A command that waits to be confirmed, as frontend/src/components/panels/TogglePanel.tsx and
-- SliderPanel.tsx keep it: both hold the same fields and change them in the same way. React's
-- updates of the state are taken as done when the handler that asked for them returns.
pub mod Timed
use mqtt_dashboard.Prelude.{
  ℕ, ◌+◌, Bool, true, false, not, List, [], ◌∷◌, Option, none, some, filter, ◌==◌,
}
use mqtt_dashboard.Prelude.Text.{Text}

-- The fields of the component, then the runtime's: the timers set and neither fired nor cleared,
-- the posts sent and not yet answered, the fresh id for either, and the payloads published.
pub record Confirm {ℓ} (P : Type ℓ) : Type ℓ where
  pub pending : Option P
  pub pending_ref : Option P
  pub timeout_ref : Option ℕ
  pub unconfirmed : Bool
  pub error : Bool
  pub updated_at : Option ℕ
  pub timers : List ℕ
  pub posts : List ℕ
  pub next : ℕ
  pub published : List Text

abbrev pub without : ℕ → List ℕ → List ℕ
without t = filter (λ u. not (u == t))

module _ {ℓ} {P : Type ℓ} where
  abbrev pub at_rest : Confirm P
  at_rest = record {
    pending = none;
    pending_ref = none;
    timeout_ref = none;
    unconfirmed = false;
    error = false;
    updated_at = none;
    timers = [];
    posts = [];
    next = 0;
    published = [];
  }

  unfoldable pub clear_pending_timer : Confirm P → Confirm P
  clear_pending_timer s = elim s.timeout_ref [
    | none ↦ s
    | some t ↦ record s { timers = without t s.timers; timeout_ref = none }
  ]

  -- Nothing is in flight any more.
  abbrev pub forget : Confirm P → Confirm P
  forget s = record s { pending_ref = none; pending = none }

  -- A message of the device came at a time; `agrees` says whether it reports what was asked for.
  unfoldable pub reported : (P → Bool) → ℕ → Confirm P → Confirm P
  unfolding clear_pending_timer
  reported agrees received_at s = elim s.pending_ref [
    | none ↦ record s { updated_at = some received_at }
    | some in_flight ↦ record (forget (clear_pending_timer s)) {
      updated_at = some received_at;
      unconfirmed = not (agrees in_flight);
    }
  ]

  -- A command goes out: it is pending, its timer is set, and its post is sent.
  unfoldable pub begin : P → Text → Confirm P → Confirm P
  unfolding clear_pending_timer
  begin value payload s =
      let cleared = clear_pending_timer (record s {
        unconfirmed = false;
        error = false;
        pending_ref = some value;
        pending = some value;
      }) in
      record cleared {
        timeout_ref = some s.next;
        timers = s.next ∷ cleared.timers;
        posts = s.next ∷ s.posts;
        next = s.next + 1;
        published = payload ∷ s.published;
      }

  -- The callback of the timer `t`.
  unfoldable pub timer_fires : ℕ → Confirm P → Confirm P
  timer_fires t s = record s {
    timers = without t s.timers;
    timeout_ref = none;
    pending_ref = none;
    pending = none;
    unconfirmed = true;
  }

  -- The `catch` of the post `i`, whichever command is pending by then.
  unfoldable pub post_fails : ℕ → Confirm P → Confirm P
  unfolding clear_pending_timer
  post_fails i s = record (forget (clear_pending_timer s)) {
    error = true;
    posts = without i s.posts;
  }

  unfoldable pub post_succeeds : ℕ → Confirm P → Confirm P
  post_succeeds i s = record s { posts = without i s.posts }
