-- ===== src/Socket/Steps.antt =====
-- What can happen to the manager: a method is called, or the runtime fires an event that is due.
use mqtt_dashboard.Prelude.{ℕ, ◌≡◌, true, List, Option, some, any, ◌==◌}
use mqtt_dashboard.Prelude.Text.{Text}
use mqtt_dashboard.Socket.{
  Manager, Listener, SubscriptionPayload, Frame, Phase, connecting, opened, phase_of, register,
  unregister, subscribe_listener, handle_open, handle_close, handle_error, handle_message,
  reconnect_fires, close_fires,
}

-- The timer is set.
abbrev pub IsPending : ℕ → List ℕ → Type 0
IsPending t ts = any (λ u. u == t) ts ≡ true

-- The socket was made and has not closed.
abbrev pub Lives : ℕ → Manager → Type 0
Lives i s = (p : Phase) × (phase_of i s.sockets ≡ some p)

pub data Step (parse : Text → Option Frame) : Manager → Manager → Type 0 where
  registers : (l : Listener) {s : Manager} → Step parse s (register l s)
  unregisters : (i : Text) (panel : Option Text) {s : Manager} → Step parse s (unregister i panel s)
  subscribes :
      (i : Text) (p : SubscriptionPayload) {s : Manager} → Step parse s (subscribe_listener i p s)
  opens :
      (i : ℕ) {s : Manager}
      → phase_of i s.sockets ≡ some connecting
      → Step parse s (handle_open i s)
  closes : (i : ℕ) {s : Manager} → Lives i s → Step parse s (handle_close i s)
  fails : (i : ℕ) {s : Manager} → Lives i s → Step parse s (handle_error i s)
  receives :
      (i : ℕ) (frame : Text) {s : Manager}
      → phase_of i s.sockets ≡ some opened
      → Step parse s (handle_message parse frame s)
  reconnects :
      (t : ℕ) {s : Manager} → IsPending t s.reconnect_timers → Step parse s (reconnect_fires t s)
  times_out : (t : ℕ) {s : Manager} → IsPending t s.close_timers → Step parse s (close_fires t s)

pub data Reach (parse : Text → Option Frame) (s : Manager) : Manager → Type 0 where
  here : Reach parse s s
  next : {t u : Manager} → Reach parse s t → Step parse t u → Reach parse s u
