-- ===== src/Panel/Log/Buffer.antt =====
-- The buffer of a log: how long it is, what stands in it first, and what it keeps once.
use mqtt_dashboard.Prelude.{
  ℕ, zero, suc, ◌-◌, ◌≤◌, ◌≡◌, refl, Bool, true, false, not, ◌&&◌, List, [], ◌∷◌, ◌++◌, Option,
  none, some, map, filter, any, all, concat, if◌then◌else◌, ltb, length, drop, length-drop,
  Bool-cases, inl, inr, arith,
}
use mqtt_dashboard.Prelude.Text.{Text}
use mqtt_dashboard.Panel.Log.{
  LogMessage, Frame, is_repeated, last_ones, capped, add_entry, merge_history, log_entry,
  sort_records, on_message, on_history,
}

abbrev is_live : LogMessage → Bool
is_live m = not m.historical

-- The messages of the history stand before those that came live.
unfoldable pub is_history_first : List LogMessage → Bool
is_history_first [] = true
is_history_first (m ∷ ms) = if m.historical then is_history_first ms else all is_live ms

capped-length : (n : ℕ) (ms : List LogMessage) → length (capped n ms) ≤ n
capped-length n ms = elim (Bool-cases (ltb n (length ms))) [
  | inl e ↦ rw e (omega (arith, length-drop (length ms - n) ms, shorter n (length ms) e))
  | inr e ↦ rw e (at_most n (length ms) e)
]
  where
    shorter : (n k : ℕ) → ltb n k ≡ true → n ≤ k
    shorter n k e = ground arith

    at_most : (n k : ℕ) → ltb n k ≡ false → k ≤ n
    at_most n k e = ground arith

live-first : (ms : List LogMessage) → all is_live ms ≡ true → is_history_first ms ≡ true
unfolding is_history_first
live-first [] h = refl
live-first (m ∷ ms) h = ground arith

drop-first :
    (n : ℕ) (ms : List LogMessage)
    → is_history_first ms ≡ true
    → is_history_first (drop n ms) ≡ true
unfolding is_history_first
drop-first zero ms h = h
drop-first (suc n) [] h = refl
drop-first (suc n) (m ∷ ms) h = elim (Bool-cases m.historical) [
  | inl e ↦ drop-first n ms (rw e at h)
  | inr e ↦ drop-first n ms (live-first ms (rw e at h))
]

capped-first :
    (n : ℕ) (ms : List LogMessage)
    → is_history_first ms ≡ true
    → is_history_first (capped n ms) ≡ true
capped-first n ms h = elim (Bool-cases (ltb n (length ms))) [
  | inl e ↦ rw e (drop-first (length ms - n) ms h)
  | inr e ↦ rw e h
]

live-append :
    (ms ks : List LogMessage)
    → all is_live ms ≡ true
    → all is_live ks ≡ true
    → all is_live (ms ++ ks) ≡ true
live-append [] ks h k = k
live-append (m ∷ ms) ks h k = ground (arith, live-append ms ks)

first-append :
    (ms ks : List LogMessage)
    → is_history_first ms ≡ true
    → all is_live ks ≡ true
    → is_history_first (ms ++ ks) ≡ true
unfolding is_history_first
first-append [] ks h k = live-first ks k
first-append (m ∷ ms) ks h k = elim (Bool-cases m.historical) [
  | inl e ↦ rw e (first-append ms ks (rw e at h) k)
  | inr e ↦ rw e (live-append ms ks (rw e at h) k)
]

both_true : (a b : Bool) → (a && b) ≡ true → (a ≡ true) × (b ≡ true)
both_true a b h = ground arith

history-append :
    (ms ks : List LogMessage)
    → all (λ m. m.historical) ms ≡ true
    → all is_live ks ≡ true
    → is_history_first (ms ++ ks) ≡ true
unfolding is_history_first
history-append [] ks h k = live-first ks k
history-append (m ∷ ms) ks h k =
    rw (both_true m.historical (all (λ m. m.historical) ms) h).0
      (history-append ms ks (both_true m.historical (all (λ m. m.historical) ms) h).1 k)

both_live :
    (m : LogMessage) (ms : List LogMessage)
    → is_live m ≡ true
    → all is_live ms ≡ true
    → all is_live (m ∷ ms) ≡ true
both_live m ms e h = ground arith

filter-live : (ms : List LogMessage) → all is_live (filter is_live ms) ≡ true
filter-live [] = refl
filter-live (m ∷ ms) = elim (Bool-cases (is_live m)) [
  | inl e ↦ rw e (both_live m (filter is_live ms) e (filter-live ms))
  | inr e ↦ rw e (filter-live ms)
]

-- What happens to the log: frames, while it runs or is paused, histories, and a change of broker
-- or topics.
pub data LogEvent : Type 0 where
  arrives : Bool → ℕ → Option Frame → LogEvent
  answers : ℕ → List (List Frame) → LogEvent
  clears : LogEvent

module _ (parse_date : Text → Option ℕ) (max_messages : ℕ) where
  abbrev after_event : LogEvent → List LogMessage → List LogMessage
  after_event (arrives paused now f) ms = on_message parse_date max_messages paused now f ms
  after_event (answers now results) ms = on_history parse_date max_messages now results ms
  after_event clears ms = []

  -- The messages after some events, the last one first.
  abbrev pub messages_after : List LogEvent → List LogMessage
  messages_after [] = []
  messages_after (e ∷ es) = after_event e (messages_after es)

  IsLog : List LogMessage → Type 0
  IsLog ms = (length ms ≤ max_messages) × (is_history_first ms ≡ true)

  add_entry-IsLog :
      (m : LogMessage) (ms : List LogMessage)
      → is_live m ≡ true
      → IsLog ms
      → IsLog (add_entry max_messages m ms)
  unfolding IsLog add_entry
  add_entry-IsLog m ms l h = elim (Bool-cases (any (is_repeated m) (last_ones 10 ms))) [
    | inl e ↦ rw e h
    | inr e ↦ rw e (
        (
          capped-length max_messages (ms ++ m ∷ []),
          capped-first max_messages (ms ++ m ∷ [])
              (first-append ms (m ∷ []) h.1 (both_live m [] l refl)),
        ))
  ]

  entries-historical :
      (now : ℕ) (fs : List Frame)
      → all (λ m. m.historical) (map (log_entry parse_date now true) fs) ≡ true
  unfolding log_entry
  entries-historical now [] = refl
  entries-historical now (f ∷ fs) = entries-historical now fs

  after_event-IsLog : (e : LogEvent) (ms : List LogMessage) → IsLog ms → IsLog (after_event e ms)
  unfolding IsLog on_message on_history merge_history log_entry is_history_first
  after_event-IsLog (arrives paused now none) ms h = h
  after_event-IsLog (arrives true now (some f)) ms h = h
  after_event-IsLog (arrives false now (some f)) ms h =
      add_entry-IsLog (log_entry parse_date now false f) ms refl h
  after_event-IsLog (answers now results) ms h =
      let hist = map (log_entry parse_date now true) (sort_records parse_date (concat results)) in
      (
        capped-length max_messages (hist ++ filter is_live ms),
        capped-first max_messages (hist ++ filter is_live ms) (
            history-append hist (filter is_live ms)
              (entries-historical now (sort_records parse_date (concat results))) (filter-live ms)),
      )
  after_event-IsLog clears ms h = (omega arith, refl)

  -- Whatever frames and histories arrive, in whatever order, with pauses and changes of the topics
  -- between them: the log holds no more messages than configured, and those of the history stand
  -- before those that came live.
  pub messages_after-bounded :
      (es : List LogEvent)
      → (length (messages_after es) ≤ max_messages) × (is_history_first (messages_after es) ≡ true)
  unfolding IsLog is_history_first
  messages_after-bounded [] = (omega arith, refl)
  messages_after-bounded (e ∷ es) =
      after_event-IsLog e (messages_after es) (messages_after-bounded es)
