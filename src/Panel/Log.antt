-- ===== src/Panel/Log.antt =====
-- The messages of frontend/src/components/panels/LogPanel.tsx. `parse_date` is
-- `new Date(text).getTime()` of the runtime, in milliseconds, with `none` for `NaN`; an instant is
-- kept as that number instead of its text, which `toISOString` and the parser turn into each other.
pub mod Buffer
use mqtt_dashboard.Prelude.{
  ℕ, ◌+◌, ◌-◌, Bool, true, false, not, ◌&&◌, List, [], ◌∷◌, ◌++◌, Option, none, some, map, filter,
  any, concat, if◌then◌else◌, ltb, leb, length, drop,
}
use mqtt_dashboard.Prelude.Text.{Text, eq_text, is_empty}

pub record LogMessage : Type 0 where
  pub received_at : ℕ
  pub topic : Text
  pub payload : Text
  pub qos : Option ℕ
  pub retained : Option Bool
  pub historical : Bool
  pub source_panel_id : Option Text
  pub source_panel_title : Option Text
  pub source_dashboard_id : Option Text

-- A frame of the socket, and a record of the history: both hold these.
pub record Frame : Type 0 where
  pub topic : Text
  pub payload : Text
  pub timestamp : Option Text
  pub qos : Option ℕ
  pub retained : Option Bool
  pub source_panel_id : Option Text
  pub source_panel_title : Option Text
  pub source_dashboard_id : Option Text

abbrev pub dedupe_window_ms : ℕ
dedupe_window_ms = 75

-- `a === b`, where either may be undefined
abbrev pub same_source : Option Text → Option Text → Bool
same_source none none = true
same_source none (some b) = false
same_source (some a) none = false
same_source (some a) (some b) = eq_text a b

unfoldable pub is_repeated : LogMessage → LogMessage → Bool
unfolding eq_text
is_repeated entry m =
    not m.historical
    && eq_text m.topic entry.topic
    && eq_text m.payload entry.payload
    && same_source m.source_panel_id entry.source_panel_id
    && leb ((m.received_at - entry.received_at) + (entry.received_at - m.received_at))
        dedupe_window_ms

-- `list.slice(-n)`
abbrev pub last_ones {ℓ} : {A : Type ℓ} → ℕ → List A → List A
last_ones n s = drop (length s - n) s

-- `next.length > maxMessages ? next.slice(next.length - maxMessages) : next`
abbrev pub capped : ℕ → List LogMessage → List LogMessage
capped max_messages next =
    if ltb max_messages (length next) then drop (length next - max_messages) next else next

unfoldable pub add_entry : ℕ → LogMessage → List LogMessage → List LogMessage
unfolding is_repeated
add_entry max_messages entry prev =
    if any (is_repeated entry) (last_ones 10 prev)
    then prev
    else capped max_messages (prev ++ entry ∷ [])

unfoldable pub merge_history : ℕ → List LogMessage → List LogMessage → List LogMessage
merge_history max_messages hist prev =
    capped max_messages (hist ++ filter (λ m. not m.historical) prev)

-- The clock is an argument where a text without a date stands for now.
module _ (parse_date : Text → Option ℕ) where
  unfoldable pub normalize_timestamp : ℕ → Option Text → ℕ
  normalize_timestamp now none = now
  normalize_timestamp now (some value) =
      if is_empty value then now else elim (parse_date value) [ none ↦ now | some t ↦ t ]

  unfoldable pub log_entry : ℕ → Bool → Frame → LogMessage
  unfolding normalize_timestamp
  log_entry now historical f = record {
    received_at = normalize_timestamp now f.timestamp;
    topic = f.topic;
    payload = f.payload;
    qos = f.qos;
    retained = f.retained;
    historical = historical;
    source_panel_id = f.source_panel_id;
    source_panel_title = f.source_panel_title;
    source_dashboard_id = f.source_dashboard_id;
  }

  -- A frame that is no JSON document is none.
  unfoldable pub on_message : ℕ → Bool → ℕ → Option Frame → List LogMessage → List LogMessage
  unfolding log_entry add_entry
  on_message max_messages paused now none prev = prev
  on_message max_messages paused now (some f) prev =
      if paused then prev else add_entry max_messages (log_entry now false f) prev

  -- The comparison by date is not above 0; a date that cannot be read compares as equal.
  abbrev pub no_later : Frame → Frame → Bool
  no_later a b = elim a.timestamp [
    | none ↦ true
    | some s ↦ elim b.timestamp [
      | none ↦ true
      | some t ↦ elim (parse_date s) [
        | none ↦ true
        | some x ↦ elim (parse_date t) [ none ↦ true | some y ↦ leb x y ]
      ]
    ]
  ]

  unfoldable pub insert_record : Frame → List Frame → List Frame
  insert_record r [] = r ∷ []
  insert_record r (q ∷ qs) =
      let rest = insert_record r qs in if no_later r q then r ∷ q ∷ qs else q ∷ rest

  unfoldable pub sort_records : List Frame → List Frame
  unfolding insert_record
  sort_records [] = []
  sort_records (r ∷ rs) = insert_record r (sort_records rs)

  -- What the histories of the topics, one for each, make of the messages.
  unfoldable pub on_history : ℕ → ℕ → List (List Frame) → List LogMessage → List LogMessage
  unfolding sort_records log_entry merge_history
  on_history max_messages now results prev =
      merge_history max_messages (map (log_entry now true) (sort_records (concat results))) prev
