-- ===== src/Panel/Logic/Brokers.antt =====
-- The panel of a rule subscribes once for each broker, and the connection manager keeps one
-- subscription for each listener.
use mqtt_dashboard.Prelude.{
  ◌≡◌, ◌≢◌, refl, sym, ap, ◌∙◌, true, false, List, [], ◌∷◌, ◌++◌, Option, some, find, or_default,
  inl, inr, arith, Bool-cases,
}
use mqtt_dashboard.Prelude.Text.{Text, eq_text, eq_text_iff, is_empty}
use mqtt_dashboard.Socket.{
  Manager, Listener, SubscriptionPayload, Frame, update_listener, subscribe_listener, other_broker,
  accepts,
}
use mqtt_dashboard.Panel.Logic.Rule.{LogicConfig}
use mqtt_dashboard.Panel.Logic.Live.{watched, broker_topics, subscription_of, subscribe_all}

find-update_listener :
    (id : Text) (p : SubscriptionPayload) (ls : List Listener) (l : Listener)
    → find (λ m. eq_text m.id id) (update_listener id p ls) ≡ some l
    → l.subscription ≡ some p
unfolding update_listener
find-update_listener id p [] l e = cc
find-update_listener id p (m ∷ ls) l e = elim (Bool-cases (eq_text m.id id)) [
  | inl h ↦ sym (ap (λ (o : Option Listener). (or_default o m).subscription) (rw (h, h) at e))
  | inr h ↦ find-update_listener id p ls l (rw (h, h) at e)
]

subscribe_all-append :
    (id panel : Text) (gs : List (Text × List Text)) (g : Text × List Text) (s : Manager)
    → subscribe_all id panel (gs ++ g ∷ []) s
      ≡ subscribe_listener id (subscription_of panel g) (subscribe_all id panel gs s)
unfolding subscribe_all
subscribe_all-append id panel [] g s = refl
subscribe_all-append id panel (h ∷ gs) g s =
    subscribe_all-append id panel gs g (subscribe_listener id (subscription_of panel h) s)

subscribed_last :
    (id panel : Text) (gs : List (Text × List Text)) (g : Text × List Text) (s : Manager)
    (l : Listener)
    → find (λ m. eq_text m.id id) (subscribe_all id panel (gs ++ g ∷ []) s).listeners ≡ some l
    → l.subscription ≡ some (subscription_of panel g)
unfolding subscribe_listener
subscribed_last id panel gs g s l e =
    find-update_listener id (subscription_of panel g) (subscribe_all id panel gs s).listeners l (
      sym (
        ap (λ (m : Manager). find (λ k. eq_text k.id id) m.listeners)
          (subscribe_all-append id panel gs g s))
      ∙ e)

brokers_differ :
    (a b : Text)
    → is_empty a ≡ false
    → is_empty b ≡ false
    → b ≢ a
    → other_broker (some a) (some b) ≡ true
brokers_differ [] b m n d = cc
brokers_differ (x ∷ a) [] m n d = cc
brokers_differ (x ∷ a) (y ∷ b) m n d = ground (arith, d, eq_text_iff (x ∷ a) (y ∷ b))

-- A rule that listens to several brokers gets no message but of the last one: once its panel has
-- subscribed to all of them, its listener takes no frame of any other broker.
pub subscribe_all-accepts :
    (config : LogicConfig) (broker_id : Option Text) (id panel : Text) (s : Manager) (l : Listener)
    (gs : List (Text × List Text)) (last : Text × List Text) (frame : Frame) (broker : Text)
    → broker_topics (watched config broker_id) [] ≡ gs ++ last ∷ []
    → find
        (λ m. eq_text m.id id)
        (subscribe_all id panel (broker_topics (watched config broker_id) []) s).listeners
      ≡ some l
    → frame.broker_id ≡ some broker
    → is_empty broker ≡ false
    → is_empty last.0 ≡ false
    → broker ≢ last.0
    → accepts (some frame) l ≡ false
unfolding accepts
subscribe_all-accepts config broker_id id panel s l gs last frame broker g e b n m d =
    rw (subscribed_last id panel gs last s l (rw g at e), accepts)
      (rw (b, brokers_differ last.0 broker m n d) refl)
