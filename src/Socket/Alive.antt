-- ===== src/Socket/Alive.antt =====
-- What every reachable state of the manager keeps.
use mqtt_dashboard.Prelude.{
  ℕ, ◌≤◌, ◌≡◌, ◌⊎◌, inl, inr, refl, Bool, true, false, not, ◌&&◌, ◌||◌, List, [], ◌∷◌, Option, none,
  some, filter, arith, is_some, Bool-cases,
}
use mqtt_dashboard.Prelude.Text.{Text, eq_text}
use mqtt_dashboard.Socket.{
  Manager, Listener, SubscriptionPayload, Frame, Phase, connecting, opened, closing, phase_of,
  set_phase, initial, is_nil, remove, close_socket, is_open, set_listener, update_listener, doubled,
  Call, registered, connect, register, unregister, subscribe_listener, handle_open, handle_close,
  handle_error, handle_message, reconnect_fires, close_fires,
}
use mqtt_dashboard.Socket.Steps.{
  Step, registers, unregisters, subscribes, opens, closes, fails, receives, reconnects, times_out,
  Reach, here, next,
}

abbrev is_closing : Phase → Bool
is_closing closing = true
is_closing _ = false

-- Some socket is closing, and its `onclose` is due.
abbrev pub has_closing : List (ℕ × Phase) → Bool
has_closing [] = false
has_closing ((i, p) ∷ ss) = is_closing p || has_closing ss

-- The manager connects, or something that will make it connect is due.
abbrev pub is_due : Manager → Bool
is_due s = is_some s.socket || not (is_nil s.reconnect_timers) || has_closing s.sockets

-- The socket that the manager holds has not closed.
abbrev pub holds_live : Option ℕ → List (ℕ × Phase) → Bool
holds_live none ss = true
holds_live (some i) ss = is_some (phase_of i ss)

-- The wait before the next attempt is between one second and thirty, while a connection is being
-- made there is a socket or one that is closing, the manager's socket has not closed, and as long
-- as anybody listens the manager is not left without a connection and without a way to one.
pub record IsAlive (s : Manager) : Type 0 where
  pub backoff_low : 1000 ≤ s.backoff
  pub backoff_high : s.backoff ≤ 30000
  pub no_orphan : (s.is_connecting && not (is_some s.socket) && not (has_closing s.sockets)) ≡ false
  pub socket_lives : holds_live s.socket s.sockets ≡ true
  pub not_stranded : (not (is_nil s.listeners) && not (is_due s)) ≡ false

set_listener-ne-nil : (l : Listener) (ls : List Listener) → is_nil (set_listener l ls) ≡ false
unfolding set_listener
set_listener-ne-nil l [] = refl
set_listener-ne-nil l (m ∷ ms) = ground arith

update_listener-is_nil :
    (i : Text) (p : SubscriptionPayload) (ls : List Listener)
    → is_nil (update_listener i p ls) ≡ is_nil ls
unfolding update_listener
update_listener-is_nil i p [] = refl
update_listener-is_nil i p (m ∷ ms) = ground arith

has_closing-set_phase_opened :
    (i : ℕ) (ss : List (ℕ × Phase))
    → phase_of i ss ≡ some connecting
    → has_closing (set_phase i opened ss) ≡ has_closing ss
has_closing-set_phase_opened i [] h = refl
has_closing-set_phase_opened i ((j, p) ∷ ss) h = ground (arith, has_closing-set_phase_opened i ss)

has_closing-set_phase_closing :
    (i : ℕ) (ss : List (ℕ × Phase))
    → has_closing (set_phase i closing ss) ≡ (is_some (phase_of i ss) || has_closing ss)
has_closing-set_phase_closing i [] = refl
has_closing-set_phase_closing i ((j, p) ∷ ss) = ground (arith, has_closing-set_phase_closing i ss)

phase_of-set_phase :
    (i j : ℕ) (q : Phase) (ss : List (ℕ × Phase))
    → is_some (phase_of j (set_phase i q ss)) ≡ is_some (phase_of j ss)
phase_of-set_phase i j q [] = refl
phase_of-set_phase i j q ((k, p) ∷ ss) = ground (arith, phase_of-set_phase i j q ss)

holds_live-set_phase :
    (i : ℕ) (q : Phase) (socket : Option ℕ) (ss : List (ℕ × Phase))
    → holds_live socket (set_phase i q ss) ≡ holds_live socket ss
holds_live-set_phase i q none ss = refl
holds_live-set_phase i q (some j) ss = phase_of-set_phase i j q ss

-- What `connect` needs is less than what it gives.
record CanConnect (s : Manager) : Type 0 where
  low : 1000 ≤ s.backoff
  high : s.backoff ≤ 30000
  orphan : (s.is_connecting && not (is_some s.socket) && not (has_closing s.sockets)) ≡ false
  lives : holds_live s.socket s.sockets ≡ true

connect-IsAlive : (s : Manager) → CanConnect s → IsAlive (connect s)
unfolding connect
connect-IsAlive s h = record {
  backoff_low = ground arith;
  backoff_high = ground arith;
  no_orphan = ground arith;
  socket_lives = ground arith;
  not_stranded = ground arith;
}

IsAlive-of_due : (s : Manager) → CanConnect s → is_due s ≡ true → IsAlive s
IsAlive-of_due s h d = record {
  backoff_low = h.low;
  backoff_high = h.high;
  no_orphan = h.orphan;
  socket_lives = h.lives;
  not_stranded = ground arith;
}

CanConnect-of_IsAlive : {s : Manager} → IsAlive s → CanConnect s
CanConnect-of_IsAlive a = record {
  low = a.backoff_low;
  high = a.backoff_high;
  orphan = a.no_orphan;
  lives = a.socket_lives;
}

-- A manager that has a socket or is making one is due.
busy-is_due :
    (s : Manager)
    → IsAlive s
    → (not (is_some s.socket) && not s.is_connecting) ≡ false
    → is_due s ≡ true
busy-is_due s a n = ground arith

-- A list that is not empty filtered was not empty.
filtered :
    (p : Listener → Bool) (ls : List Listener) → (is_nil (filter p ls) ≡ true) ⊎ (is_nil ls ≡ false)
filtered p [] = inl refl
filtered p (x ∷ ls) = inr refl

-- Only the listeners matter of what these fields hold.
IsAlive-keep :
    (s : Manager) (ls : List Listener) (subs : List (Text × SubscriptionPayload))
    (timeout : Option ℕ) (timers : List ℕ) (n : ℕ) (sent : List (ℕ × SubscriptionPayload))
    (calls : List Call)
    → IsAlive s
    → (is_nil ls ≡ true) ⊎ ((is_nil s.listeners ≡ false) ⊎ (is_due s ≡ true))
    → IsAlive (record s {
      listeners = ls;
      active_subscriptions = subs;
      close_timeout = timeout;
      close_timers = timers;
      next = n;
      sent = sent;
      calls = calls;
    })
IsAlive-keep s ls subs timeout timers n sent calls a h = record {
  backoff_low = a.backoff_low;
  backoff_high = a.backoff_high;
  no_orphan = a.no_orphan;
  socket_lives = a.socket_lives;
  not_stranded = ground (arith, a.not_stranded);
}

register-IsAlive : (l : Listener) (s : Manager) → IsAlive s → IsAlive (register l s)
unfolding register
register-IsAlive l s a =
    let can = CanConnect-of_IsAlive a in
    elim (Bool-cases (not (is_some s.socket) && not s.is_connecting)) [
      | inl e ↦
          rw (e, register)
            (connect-IsAlive (registered l s)
              (record { low = can.low; high = can.high; orphan = can.orphan; lives = can.lives }))
      | inr n ↦
          let due = inr (inr (busy-is_due s a n)) in
          rw (n, register)
            (elim (Bool-cases (is_open s)) [
              | inl e ↦ rw e (IsAlive-keep s _ _ _ _ _ _ _ a due)
              | inr e ↦ rw e (IsAlive-keep s _ _ _ _ _ _ _ a due)
            ])
    ]

left_due :
    (s : Manager) (i : Text)
    → (is_nil (filter (λ l. not (eq_text l.id i)) s.listeners) ≡ true)
      ⊎ ((is_nil s.listeners ≡ false) ⊎ (is_due s ≡ true))
left_due s i = elim (filtered (λ l. not (eq_text l.id i)) s.listeners) [
  | inl e ↦ inl e
  | inr e ↦ inr (inl e)
]

unregister-IsAlive :
    (i : Text) (panel : Option Text) (s : Manager) → IsAlive s → IsAlive (unregister i panel s)
unfolding unregister
unregister-IsAlive i none s a =
    elim (Bool-cases (is_nil (filter (λ l. not (eq_text l.id i)) s.listeners))) [
      | inl e ↦ rw (e, unregister) (IsAlive-keep s _ _ _ _ _ _ _ a (left_due s i))
      | inr e ↦ rw (e, unregister) (IsAlive-keep s _ _ _ _ _ _ _ a (left_due s i))
    ]
unregister-IsAlive i (some []) s a =
    elim (Bool-cases (is_nil (filter (λ l. not (eq_text l.id i)) s.listeners))) [
      | inl e ↦ rw (e, unregister) (IsAlive-keep s _ _ _ _ _ _ _ a (left_due s i))
      | inr e ↦ rw (e, unregister) (IsAlive-keep s _ _ _ _ _ _ _ a (left_due s i))
    ]
unregister-IsAlive i (some (c ∷ p)) s a =
    elim (Bool-cases (is_nil (filter (λ l. not (eq_text l.id i)) s.listeners))) [
      | inl e ↦ rw (e, unregister) (IsAlive-keep s _ _ _ _ _ _ _ a (left_due s i))
      | inr e ↦ rw (e, unregister) (IsAlive-keep s _ _ _ _ _ _ _ a (left_due s i))
    ]

subscribe_listener-IsAlive :
    (i : Text) (p : SubscriptionPayload) (s : Manager)
    → IsAlive s
    → IsAlive (subscribe_listener i p s)
unfolding subscribe_listener
subscribe_listener-IsAlive i p s a = record {
  backoff_low = a.backoff_low;
  backoff_high = a.backoff_high;
  no_orphan = a.no_orphan;
  socket_lives = a.socket_lives;
  not_stranded = rw update_listener-is_nil a.not_stranded;
}

handle_open-IsAlive :
    (i : ℕ) (s : Manager)
    → phase_of i s.sockets ≡ some connecting
    → IsAlive s
    → IsAlive (handle_open i s)
unfolding handle_open
handle_open-IsAlive i s h a = record {
  backoff_low = omega arith;
  backoff_high = omega arith;
  no_orphan = refl;
  socket_lives = rw holds_live-set_phase a.socket_lives;
  not_stranded = rw (has_closing-set_phase_opened i s.sockets h) a.not_stranded;
}

handle_close-IsAlive : (i : ℕ) (s : Manager) → IsAlive s → IsAlive (handle_close i s)
unfolding handle_close
handle_close-IsAlive i s a = record {
  backoff_low = ground arith;
  backoff_high = ground arith;
  no_orphan = ground arith;
  socket_lives = ground arith;
  not_stranded = ground arith;
}

handle_error-IsAlive : (i : ℕ) (s : Manager) → IsAlive s → IsAlive (handle_error i s)
unfolding handle_error
handle_error-IsAlive i s a = record {
  backoff_low = a.backoff_low;
  backoff_high = a.backoff_high;
  no_orphan = ground (arith, has_closing-set_phase_closing i s.sockets, a.no_orphan);
  socket_lives = rw holds_live-set_phase a.socket_lives;
  not_stranded = ground (arith, has_closing-set_phase_closing i s.sockets, a.not_stranded);
}

doubled_bounds : (b : ℕ) → 1000 ≤ b → (1000 ≤ doubled b) × (doubled b ≤ 30000)
doubled_bounds b h = ground arith

reconnect_fires-IsAlive : (t : ℕ) (s : Manager) → IsAlive s → IsAlive (reconnect_fires t s)
unfolding reconnect_fires
reconnect_fires-IsAlive t s a =
    let b = doubled_bounds s.backoff a.backoff_low in
    connect-IsAlive
      (record s { reconnect_timers = remove t s.reconnect_timers; backoff = doubled s.backoff })
      (record { low = b.0; high = b.1; orphan = a.no_orphan; lives = a.socket_lives })

-- The socket that is given up is closing.
has_closing-close_socket :
    (socket : Option ℕ) (ss : List (ℕ × Phase))
    → holds_live socket ss ≡ true
    → has_closing (close_socket socket ss) ≡ (is_some socket || has_closing ss)
has_closing-close_socket none ss h = refl
has_closing-close_socket (some i) ss h = ground (arith, has_closing-set_phase_closing i ss)

close_fires-IsAlive : (t : ℕ) (s : Manager) → IsAlive s → IsAlive (close_fires t s)
unfolding close_fires
close_fires-IsAlive t s a = elim (Bool-cases (is_nil s.listeners)) [
  | inl e ↦
      rw (e, close_fires)
        (record {
          backoff_low = a.backoff_low;
          backoff_high = a.backoff_high;
          no_orphan =
              ground
                (arith, has_closing-close_socket s.socket s.sockets a.socket_lives, a.no_orphan);
          socket_lives = refl;
          not_stranded = ground arith;
        })
  | inr n ↦ rw (n, close_fires) (IsAlive-keep s _ _ _ _ _ _ _ a (inr (inl n)))
]

Step-IsAlive :
    {parse : Text → Option Frame} {s t : Manager} → Step parse s t → IsAlive s → IsAlive t
Step-IsAlive (registers l {s}) a = register-IsAlive l s a
Step-IsAlive (unregisters i panel {s}) a = unregister-IsAlive i panel s a
Step-IsAlive (subscribes i p {s}) a = subscribe_listener-IsAlive i p s a
Step-IsAlive (opens i {s} h) a = handle_open-IsAlive i s h a
Step-IsAlive (closes i {s} h) a = handle_close-IsAlive i s a
Step-IsAlive (fails i {s} h) a = handle_error-IsAlive i s a
Step-IsAlive (receives i frame {s} h) a =
    unfold handle_message in
    record {
      backoff_low = a.backoff_low;
      backoff_high = a.backoff_high;
      no_orphan = a.no_orphan;
      socket_lives = a.socket_lives;
      not_stranded = a.not_stranded;
    }
Step-IsAlive (reconnects t {s} h) a = reconnect_fires-IsAlive t s a
Step-IsAlive (times_out t {s} h) a = close_fires-IsAlive t s a

-- Whatever happens to the manager, in whatever order: the wait before an attempt stays between one
-- second and thirty, the socket it holds has not closed, and while anybody listens it holds a
-- socket, or a reconnect timer is set, or a socket is closing, whose `onclose` sets such a timer.
pub Reach-IsAlive : {parse : Text → Option Frame} {s : Manager} → Reach parse initial s → IsAlive s
Reach-IsAlive here = record {
  backoff_low = omega arith;
  backoff_high = omega arith;
  no_orphan = refl;
  socket_lives = refl;
  not_stranded = refl;
}
Reach-IsAlive (next r st) = Step-IsAlive st (Reach-IsAlive r)
