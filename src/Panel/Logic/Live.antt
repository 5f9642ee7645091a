-- ===== src/Panel/Logic/Live.antt =====
-- frontend/src/components/panels/LogicPanel.tsx: the panel of a rule. The topics it listens to, the
-- payloads it remembers, its subscriptions, and whether its conditions hold.
use mqtt_dashboard.Prelude.{
  Bool, not, ◌&&◌, ◌||◌, List, [], ◌∷◌, ◌++◌, Option, none, some, map, any, if◌then◌else◌,
  or_default, is_some, ◌≡◌, refl, arith,
}
use mqtt_dashboard.Prelude.Text.{Text, eq_text, is_empty, trim}
use mqtt_dashboard.Json.Runtime.{Runtime}
use mqtt_dashboard.Topic.{mqtt_topic_matches}
use mqtt_dashboard.Panel.Registry.{is_member}
use mqtt_dashboard.Socket.{Manager, SubscriptionPayload, subscribe_listener}
use mqtt_dashboard.Panel.Logic.{Condition, match_all, evaluate_all_conditions}
use mqtt_dashboard.Panel.Logic.Rule.{LogicConfig, either, given}

abbrev pub rule_conditions : LogicConfig → List Condition
rule_conditions config = or_default config.conditions []

-- The broker and the topic of a condition, as they are given.
abbrev pub source_of : Condition → Option Text × Option Text
source_of c = (c.broker_id, c.topic)

-- Those of the conditions, or the rule's own.
abbrev pub listed : LogicConfig → List (Option Text × Option Text)
listed config = elim (rule_conditions config) [
  | [] ↦ (config.source_broker_id, config.source_topic) ∷ []
  | c ∷ cs ↦ source_of c ∷ map source_of cs
]

abbrev pub head_source : List Condition → Option Text × Option Text
head_source [] = (none, none)
head_source (c ∷ cs) = source_of c

unfoldable pub live_topic : LogicConfig → Text
unfolding trim
live_topic config =
    either (trim (given (head_source (rule_conditions config)).1))
      (trim (given config.source_topic))

unfoldable pub live_broker : LogicConfig → Option Text → Text
live_broker config broker_id =
    either (given (head_source (rule_conditions config)).0)
      (either (given config.source_broker_id) (given broker_id))

abbrev pub resolved : Text → Text → Option Text × Option Text → Text × Text
resolved broker topic s = (either (given s.0) broker, either (trim (given s.1)) topic)

-- The brokers and the topics that the panel listens to, one for each condition.
unfoldable pub watched : LogicConfig → Option Text → List (Text × Text)
unfolding trim live_topic live_broker
watched config broker_id =
    map (resolved (live_broker config broker_id) (live_topic config)) (listed config)

-- `payloadCache`
abbrev pub Cache : Type 0
Cache = List (Text × Text)

abbrev pub cache_key : Text × Text → Text
cache_key w = w.0 ++ b':' ∷ w.1

unfoldable pub lookup : Text → Cache → Option Text
unfolding eq_text
lookup k [] = none
lookup k ((j, v) ∷ m) = if eq_text j k then some v else lookup k m

abbrev pub hears : Text → Text × Text → Bool
hears topic w = not (is_empty w.1) && mqtt_topic_matches w.1 topic

-- A live message, which goes to the key of each condition whose topic matches.
unfoldable pub remember : Text → Text → List (Text × Text) → Cache → Cache
unfolding mqtt_topic_matches
remember topic payload [] cache = cache
remember topic payload (w ∷ ws) cache =
    remember topic payload ws (if hears topic w then (cache_key w, payload) ∷ cache else cache)

-- The latest record of a history, where nothing has come meanwhile.
unfoldable pub remember_history : Text × Text → Text → Cache → Cache
unfolding lookup
remember_history w payload cache =
    if is_some (lookup (cache_key w) cache) then cache else (cache_key w, payload) ∷ cache

module _ (R : Runtime) where
  -- `isMatch`
  unfoldable pub is_match : LogicConfig → Option Text → Cache → Bool
  unfolding live_topic live_broker lookup evaluate_all_conditions
  is_match config broker_id cache =
      evaluate_all_conditions R
        (lookup (cache_key (live_broker config broker_id, live_topic config)) cache)
        (rule_conditions config) (or_default config.match match_all)
        (some (λ b t. lookup (cache_key (b, t)) cache)) (some (live_broker config broker_id))
        (some (live_topic config))

-- `brokerTopics`: a map from brokers to sets of topics.
unfoldable pub add_topic : Text × Text → List (Text × List Text) → List (Text × List Text)
unfolding eq_text is_member
add_topic w [] = (w.0, w.1 ∷ []) ∷ []
add_topic w ((b, ts) ∷ groups) =
    if eq_text b w.0
    then (b, if is_member w.1 ts then ts else ts ++ w.1 ∷ []) ∷ groups
    else (b, ts) ∷ add_topic w groups

unfoldable pub broker_topics :
    List (Text × Text) → List (Text × List Text) → List (Text × List Text)
unfolding add_topic
broker_topics [] groups = groups
broker_topics (w ∷ ws) groups =
    broker_topics ws (if is_empty w.1 || is_empty w.0 then groups else add_topic w groups)

abbrev pub subscription_of : Text → Text × List Text → SubscriptionPayload
subscription_of panel_id g = record {
  action = none;
  panel_id = some panel_id;
  broker_id = some g.0;
  topics = some g.1;
}

-- The panel subscribes once for each broker.
unfoldable pub subscribe_all : Text → Text → List (Text × List Text) → Manager → Manager
unfolding subscribe_listener
subscribe_all listener_id panel_id [] s = s
subscribe_all listener_id panel_id (g ∷ gs) s =
    subscribe_all listener_id panel_id gs
      (subscribe_listener listener_id (subscription_of panel_id g) s)

lookup-cons :
    (k j v : Text) (m : Cache)
    → lookup k ((j, v) ∷ m) ≡ (if eq_text j k then some v else lookup k m)
unfolding lookup
lookup-cons k j v m = refl

-- After a live message the panel remembers it under the key of each condition whose topic matches
-- the message's, and under every other key what it remembered before.
pub lookup-remember :
    (k topic payload : Text) (ws : List (Text × Text)) (cache : Cache)
    → lookup k (remember topic payload ws cache) ≡ (
        if any (λ w. hears topic w && eq_text (cache_key w) k) ws
        then some payload
        else lookup k cache)
unfolding remember
lookup-remember k topic payload [] cache = refl
lookup-remember k topic payload (w ∷ ws) cache = ground (
  arith,
  lookup-remember k topic payload ws
      (if hears topic w then (cache_key w, payload) ∷ cache else cache),
  lookup-cons k (cache_key w) payload cache,
)
