-- ===== src/Socket.antt =====
-- `WSConnectionManager` of frontend/src/hooks/useWebSocket.ts: the state of the manager, its
-- methods, and the handlers of the sockets and timers that it makes.
pub mod Steps
pub mod Alive
pub mod Routing
use mqtt_dashboard.Prelude.{
  ℕ, suc, ◌+◌, ◌*◌, Bool, true, false, not, ◌&&◌, ◌||◌, List, [], ◌∷◌, ◌++◌, Option, none, some,
  map, filter, any, if◌then◌else◌, ◌==◌, ltb, is_some,
}
use mqtt_dashboard.Prelude.Text.{Text, codes, eq_text, is_empty}
use mqtt_dashboard.Topic.{ws_topic_matches}

pub data Action : Type 0 where
  subscribe unsubscribe : Action

pub record SubscriptionPayload : Type 0 where
  pub action : Option Action
  pub panel_id : Option Text
  pub broker_id : Option Text
  pub topics : Option (List Text)

-- The callbacks of a listener are known by its id: a call of one is recorded in `calls`.
pub record Listener : Type 0 where
  pub id : Text
  pub subscription : Option SubscriptionPayload

pub data Call : Type 0 where
  on_open on_close : Text → Call
  on_message : Text → Text → Call

-- `readyState`; a closed socket is in no list.
pub data Phase : Type 0 where
  connecting opened closing : Phase

-- The manager's fields, then the runtime's: the sockets made and not yet closed, the timers set and
-- neither fired nor cleared, the fresh id for either, what was sent, and the callbacks called.
pub record Manager : Type 0 where
  pub socket : Option ℕ
  pub listeners : List Listener
  pub active_subscriptions : List (Text × SubscriptionPayload)
  pub reconnect_timeout : Option ℕ
  pub close_timeout : Option ℕ
  pub backoff : ℕ
  pub is_connecting : Bool
  pub sockets : List (ℕ × Phase)
  pub reconnect_timers : List ℕ
  pub close_timers : List ℕ
  pub next : ℕ
  pub sent : List (ℕ × SubscriptionPayload)
  pub calls : List Call

abbrev pub initial : Manager
initial = record {
  socket = none;
  listeners = [];
  active_subscriptions = [];
  reconnect_timeout = none;
  close_timeout = none;
  backoff = 1000;
  is_connecting = false;
  sockets = [];
  reconnect_timers = [];
  close_timers = [];
  next = 0;
  sent = [];
  calls = [];
}

abbrev pub is_nil {ℓ} : {A : Type ℓ} → List A → Bool
is_nil [] = true
is_nil (x ∷ xs) = false

abbrev pub phase_of : ℕ → List (ℕ × Phase) → Option Phase
phase_of i [] = none
phase_of i ((j, p) ∷ ss) = if j == i then some p else phase_of i ss

abbrev pub set_phase : ℕ → Phase → List (ℕ × Phase) → List (ℕ × Phase)
set_phase i q [] = []
set_phase i q ((j, p) ∷ ss) = if j == i then (j, q) ∷ ss else (j, p) ∷ set_phase i q ss

abbrev pub remove : ℕ → List ℕ → List ℕ
remove t = filter (λ u. not (u == t))

-- `clearTimeout`
abbrev pub clear : Option ℕ → List ℕ → List ℕ
clear none ts = ts
clear (some t) ts = remove t ts

-- `Map.set`: a key that is there keeps its place.
unfoldable pub set_listener : Listener → List Listener → List Listener
unfolding eq_text
set_listener l [] = l ∷ []
set_listener l (m ∷ ms) = if eq_text m.id l.id then l ∷ ms else m ∷ set_listener l ms

unfoldable pub set_subscription :
    Text
    → SubscriptionPayload
    → List (Text × SubscriptionPayload)
    → List (Text × SubscriptionPayload)
unfolding eq_text
set_subscription k v [] = (k, v) ∷ []
set_subscription k v ((j, w) ∷ m) =
    if eq_text j k then (j, v) ∷ m else (j, w) ∷ set_subscription k v m

-- `listener.subscription = payload` on the listener with the id, if there is one.
unfoldable pub update_listener : Text → SubscriptionPayload → List Listener → List Listener
unfolding eq_text
update_listener i p [] = []
update_listener i p (m ∷ ms) =
    if eq_text m.id i then record m { subscription = some p } ∷ ms else m ∷ update_listener i p ms

unfoldable pub connect : Manager → Manager
connect s = if is_some s.socket || s.is_connecting || is_nil s.listeners then s else record s {
  is_connecting = true;
  socket = some s.next;
  sockets = (s.next, connecting) ∷ s.sockets;
  next = s.next + 1;
}

-- `socket.onopen` of socket `i`.
unfoldable pub handle_open : ℕ → Manager → Manager
handle_open i s = record s {
  is_connecting = false;
  backoff = 1000;
  sockets = set_phase i opened s.sockets;
  calls = s.calls ++ map (λ l. on_open l.id) s.listeners;
  sent = s.sent ++ map (λ x. (i, x.1)) s.active_subscriptions;
}

-- `socket.onclose` of socket `i`, whichever socket the manager holds by now.
unfoldable pub handle_close : ℕ → Manager → Manager
handle_close i s =
    let closed = record s {
      is_connecting = false;
      socket = none;
      sockets = filter (λ x. not (x.0 == i)) s.sockets;
      calls = s.calls ++ map (λ l. on_close l.id) s.listeners;
    } in
    if is_nil s.listeners then closed else record closed {
      reconnect_timeout = some s.next;
      reconnect_timers = s.next ∷ s.reconnect_timers;
      next = s.next + 1;
    }

-- `socket.onerror`: the socket closes, which its `onclose` will tell.
unfoldable pub handle_error : ℕ → Manager → Manager
handle_error i s = record s { sockets = set_phase i closing s.sockets }

-- `Math.min(this.backoff * 2, 30000)`
abbrev pub doubled : ℕ → ℕ
doubled b = if ltb 30000 (b * 2) then 30000 else b * 2

-- The callback of the reconnect timer `t`.
unfoldable pub reconnect_fires : ℕ → Manager → Manager
unfolding connect
reconnect_fires t s =
    connect
      (record s { reconnect_timers = remove t s.reconnect_timers; backoff = doubled s.backoff })

-- Closing the socket that the manager holds.
abbrev pub close_socket : Option ℕ → List (ℕ × Phase) → List (ℕ × Phase)
close_socket none ss = ss
close_socket (some i) ss = set_phase i closing ss

-- The callback of the close timer `t`.
unfoldable pub close_fires : ℕ → Manager → Manager
close_fires t s =
    let fired = record s { close_timers = remove t s.close_timers } in
    if is_nil s.listeners
    then record fired {
      reconnect_timers = clear s.reconnect_timeout s.reconnect_timers;
      reconnect_timeout = none;
      sockets = close_socket s.socket s.sockets;
      socket = none;
    }
    else fired

abbrev pub is_opened : Option Phase → Bool
is_opened (some opened) = true
is_opened _ = false

-- `this.socket?.readyState === WebSocket.OPEN`
abbrev pub is_open : Manager → Bool
is_open s = elim s.socket [ none ↦ false | some i ↦ is_opened (phase_of i s.sockets) ]

abbrev pub registered : Listener → Manager → Manager
registered l s = record s {
  close_timers = clear s.close_timeout s.close_timers;
  close_timeout = none;
  listeners = set_listener l s.listeners;
}

unfoldable pub register : Listener → Manager → Manager
unfolding set_listener connect
register l s =
    let known = registered l s in
    if not (is_some s.socket) && not s.is_connecting
    then connect known
    else if is_open s
    then record known { calls = s.calls ++ on_open l.id ∷ [] }
    else known

-- What is sent goes to the socket that the manager holds.
abbrev pub send : Manager → SubscriptionPayload → List (ℕ × SubscriptionPayload)
send s p = elim s.socket [
  | none ↦ s.sent
  | some i ↦ if is_opened (phase_of i s.sockets) then s.sent ++ (i, p) ∷ [] else s.sent
]

abbrev pub unsubscribe_payload : Text → SubscriptionPayload
unsubscribe_payload panel = record {
  action = some unsubscribe;
  panel_id = some panel;
  broker_id = none;
  topics = none;
}

-- The panel's part of `unregister`; an empty id is none.
abbrev pub drop_panel : Option Text → Manager → Manager
drop_panel none s = s
drop_panel (some []) s = s
drop_panel (some (c ∷ panel)) s = record s {
  active_subscriptions = filter (λ x. not (eq_text x.0 (c ∷ panel))) s.active_subscriptions;
  sent = send s (unsubscribe_payload (c ∷ panel));
}

unfoldable pub unregister : Text → Option Text → Manager → Manager
unfolding eq_text
unregister listener_id panel_id s =
    let left = filter (λ l. not (eq_text l.id listener_id)) s.listeners in
    let dropped = drop_panel panel_id (record s { listeners = left }) in
    if is_nil left
    then record dropped {
      close_timeout = some s.next;
      close_timers = s.next ∷ s.close_timers;
      next = s.next + 1;
    }
    else dropped

abbrev pub keep_subscription :
    SubscriptionPayload → List (Text × SubscriptionPayload) → List (Text × SubscriptionPayload)
keep_subscription p subs = elim p.panel_id [
  | none ↦ subs
  | some panel ↦ if is_empty panel then subs else set_subscription panel p subs
]

unfoldable pub subscribe_listener : Text → SubscriptionPayload → Manager → Manager
unfolding update_listener set_subscription
subscribe_listener listener_id p s = record s {
  listeners = update_listener listener_id p s.listeners;
  active_subscriptions = keep_subscription p s.active_subscriptions;
  sent = send s p;
}

-- What a frame says of its origin, as `JSON.parse` finds it; a frame that does not parse has none.
pub record Frame : Type 0 where
  pub broker_id : Option Text
  pub topic : Option Text

-- Two brokers that are both given and differ.
abbrev pub other_broker : Option Text → Option Text → Bool
other_broker (some (a ∷ p)) (some (b ∷ q)) = not (eq_text (a ∷ p) (b ∷ q))
other_broker _ _ = false

-- A subscription without topics takes every topic; one with topics takes no frame without.
abbrev pub topic_fits : Option (List Text) → Option Text → Bool
topic_fits none topic = true
topic_fits (some []) topic = true
topic_fits (some (f ∷ fs)) none = false
topic_fits (some (f ∷ fs)) (some []) = false
topic_fits (some (f ∷ fs)) (some (c ∷ t)) = any (λ g. ws_topic_matches g (c ∷ t)) (f ∷ fs)

unfoldable pub accepts : Option Frame → Listener → Bool
unfolding eq_text ws_topic_matches
accepts none l = true
accepts (some frame) l = elim l.subscription [
  | none ↦ true
  | some sub ↦ not (other_broker sub.broker_id frame.broker_id) && topic_fits sub.topics frame.topic
]

-- `socket.onmessage`, where `parse` is what `JSON.parse` makes of a frame.
unfoldable pub handle_message : (Text → Option Frame) → Text → Manager → Manager
unfolding accepts
handle_message parse data_text s = record s {
  calls =
      s.calls
      ++ map (λ l. on_message l.id data_text) (filter (accepts (parse data_text)) s.listeners);
}
