-- ===== src/Socket/Routing.antt =====
-- Which listeners a frame is passed to.
use mqtt_dashboard.Prelude.{
  ◌≡◌, refl, and_iff, not_iff, ◌↔◌, ◌⊎◌, true, false, not, List, [], ◌∷◌, Option, none, some, any,
  arith, inl, inr, Option-cases,
}
use mqtt_dashboard.Prelude.Text.{Text, split, slash, eq_text_iff}
use mqtt_dashboard.Topic.{is_hidden, ws_topic_matches}
use mqtt_dashboard.Topic.Matching.{
  Matches, mqtt_topic_matches_iff, ws_topic_matches-mqtt_topic_matches,
}
use mqtt_dashboard.Panel.Logic.Joins.{Some}
use mqtt_dashboard.Socket.{Listener, SubscriptionPayload, Frame, other_broker, topic_fits, accepts}

-- The filter matches the topic by the rules of MQTT.
abbrev FilterMatches : Text → Text → Type 0
FilterMatches topic f = (is_hidden f topic ≡ false) × Matches (split slash f) (split slash topic)

any_filter_iff :
    (topic : Text) (fs : List Text)
    → (any (λ g. ws_topic_matches g topic) fs ≡ true) ↔ Some (FilterMatches topic) fs
any_filter_iff topic [] = (λ h. cc, λ h. absurd h)
any_filter_iff topic (f ∷ fs) =
    rw ws_topic_matches-mqtt_topic_matches
      (ground (arith, mqtt_topic_matches_iff f topic, any_filter_iff topic fs))

-- No broker is named.
abbrev IsUnnamed : Option Text → Type 0
IsUnnamed broker = (broker ≡ none) ⊎ (broker ≡ some [])

-- The brokers are the same where both are named.
abbrev BrokersAgree : Option Text → Option Text → Type 0
BrokersAgree a b = IsUnnamed a ⊎ IsUnnamed b ⊎ (a ≡ b)

-- No topics are asked for, or one of the filters matches the topic that is given.
abbrev IsAskedFor : Option (List Text) → Option Text → Type 0
IsAskedFor (some (f ∷ fs)) (some (c ∷ t)) = Some (FilterMatches (c ∷ t)) (f ∷ fs)
IsAskedFor (some (f ∷ fs)) _ = ⊥
IsAskedFor _ _ = Unit

-- What a frame has to be for a subscription.
abbrev pub IsMeantFor : Option Frame → Option SubscriptionPayload → Type 0
IsMeantFor (some frame) (some sub) =
    BrokersAgree sub.broker_id frame.broker_id × IsAskedFor sub.topics frame.topic
IsMeantFor _ _ = Unit

other_broker_iff : (a b : Option Text) → (other_broker a b ≡ false) ↔ BrokersAgree a b
other_broker_iff none b = (λ h. inl (inl refl), λ h. refl)
other_broker_iff (some []) b = (λ h. inl (inr refl), λ h. refl)
other_broker_iff (some (c ∷ a)) none = (λ h. inr (inl (inl refl)), λ h. refl)
other_broker_iff (some (c ∷ a)) (some []) = (λ h. inr (inl (inr refl)), λ h. refl)
other_broker_iff (some (c ∷ a)) (some (d ∷ b)) = ground (arith, eq_text_iff (c ∷ a) (d ∷ b))

topic_fits_iff :
    (topics : Option (List Text)) (topic : Option Text)
    → (topic_fits topics topic ≡ true) ↔ IsAskedFor topics topic
topic_fits_iff none topic = (λ h. tt, λ h. refl)
topic_fits_iff (some []) topic = (λ h. tt, λ h. refl)
topic_fits_iff (some (f ∷ fs)) none = (λ h. cc, λ h. absurd h)
topic_fits_iff (some (f ∷ fs)) (some []) = (λ h. cc, λ h. absurd h)
topic_fits_iff (some (f ∷ fs)) (some (c ∷ t)) = any_filter_iff (c ∷ t) (f ∷ fs)

-- A frame is passed to a listener exactly when the frame is no JSON, or the listener has no
-- subscription, or both hold: the brokers of the subscription and of the frame are the same, where
-- both are named; and the subscription has no topics, or the frame has a topic that one of its
-- filters matches by the rules of MQTT.
pub accepts_iff :
    (frame : Option Frame) (l : Listener)
    → (accepts frame l ≡ true) ↔ IsMeantFor frame l.subscription
unfolding accepts
accepts_iff none l = (λ h. tt, λ h. refl)
accepts_iff (some frame) l = elim (Option-cases l.subscription) [
  | inl e ↦ rw (e, accepts) ((λ h. tt, λ h. refl))
  | inr (sub, e) ↦
      rw (e, accepts)
        (and_iff (not (other_broker sub.broker_id frame.broker_id))
          (topic_fits sub.topics frame.topic)
          (not_iff _ (other_broker_iff sub.broker_id frame.broker_id))
          (topic_fits_iff sub.topics frame.topic))
]
