-- ===== src/Tests/Searches.antt =====
-- Runs of the model on concrete inputs: the searches of the explorer and the log.
use mqtt_dashboard.Prelude.{
  All, map, ℕ, ◌≤◌, ◌≡◌, refl, Bool, true, false, not, List, [], ◌∷◌, ◌++◌, Option, none, some, all,
  length, if◌then◌else◌, ◌==◌, ==_iff,
}
use mqtt_dashboard.Prelude.Text.{
  includes, Text, codes, slash, split, trim, eq_text, is_empty, strip_prefix, split_list, comma,
}
use mqtt_dashboard.Template.Literals.{find_literals}
use mqtt_dashboard.Template.Literals.Marked.{IsMarked, find_literals-mark_literal}
use mqtt_dashboard.Topic.Status.{TopicResult, TopicState, on_results, on_topic_message}
use mqtt_dashboard.Topic.Status.Active.{IsConsistent, begins, hears, learns, Reach-IsConsistent}
use mqtt_dashboard.Template.Literals.Swap.{swap_or_mark_literal}
use mqtt_dashboard.Template.Preview.{preview_payload, detect_payload_mode, mode_json, mode_raw}
use mqtt_dashboard.Tests.Documents.{R}
use mqtt_dashboard.Topic.{mqtt_topic_matches}
use mqtt_dashboard.Explorer.Filter.{topic_matches_filter}
use mqtt_dashboard.Explorer.Filter.Wildcards.{topic_matches_filter-mqtt_topic_matches}
use mqtt_dashboard.Panel.Log.{Frame, is_repeated, on_message, on_history}
use mqtt_dashboard.Panel.Log.Buffer.{
  arrives, answers, messages_after, is_history_first, messages_after-bounded,
}
use mqtt_dashboard.Explorer.Filter.Levels.{is_filter}
use mqtt_dashboard.Panel.Registry.{distinct, default_resolve_picked_topic}
use mqtt_dashboard.Panel.Registry.Picked.{default_resolve_picked_topic-lists}

abbrev same : ℕ → ℕ → Bool
same a b = a == b

abbrev as_is : Text → Text
as_is t = t

same-itself : (c : ℕ) → same c c ≡ true
same-itself c = (==_iff c c).1 refl

-- The two wildcards, the glob, and the empty level that `+` matches for a broker only.
searches :
    (topic_matches_filter same as_is (codes "home/lamp/set") (codes "home/+/set") ≡ true)
    × (topic_matches_filter same as_is (codes "home") (codes "home/#") ≡ true)
    × (topic_matches_filter same as_is (codes "home/lamp") (codes "*mp") ≡ true)
    × (topic_matches_filter same as_is (codes "home/lamp/set") (codes "home/+") ≡ false)
    × (topic_matches_filter same as_is (codes "home/") (codes "home/+") ≡ false)
    × (mqtt_topic_matches (codes "home/+") (codes "home/") ≡ true)
unfolding topic_matches_filter mqtt_topic_matches
searches = (refl, refl, refl, refl, refl, refl)

well_formed :
    (trim (codes "home/+/#") ≡ codes "home/+/#")
    × (is_filter (split slash (codes "home/+/#")) ≡ true)
    × (mqtt_topic_matches (codes "home/+/#") (codes "home/lamp/set") ≡ true)
unfolding trim is_filter split mqtt_topic_matches strip_prefix
well_formed = (refl, refl, refl)

full_levels : all (λ l. not (is_empty l)) (split slash (codes "home/lamp/set")) ≡ true
unfolding split
full_levels = refl

topic_matches_filter-mqtt_topic_matches_example :
    topic_matches_filter same as_is (codes "home/lamp/set") (codes "home/+/#") ≡ true
topic_matches_filter-mqtt_topic_matches_example =
    topic_matches_filter-mqtt_topic_matches same as_is (codes "home/lamp/set") (codes "home/+/#")
      same-itself refl refl well_formed.0 well_formed.1 refl full_levels well_formed.2

abbrev at : Text → Option ℕ
at t =
    if eq_text t (codes "early")
    then some 1000
    else if eq_text t (codes "late")
    then some 1050
    else none

abbrev frame : Text → Text → Frame
frame payload timestamp = record {
  topic = codes "home/lamp";
  payload = payload;
  timestamp = some timestamp;
  qos = none;
  retained = none;
  source_panel_id = none;
  source_panel_title = none;
  source_dashboard_id = none;
}

abbrev history : List (List Frame)
history = (frame (codes "0") (codes "early") ∷ []) ∷ []

abbrev live : Frame
live = frame (codes "1") (codes "early")

abbrev again : Frame
again = frame (codes "1") (codes "late")

-- The second frame repeats the first, and the history is put before it.
kept :
    length (
      messages_after at 5 (
        answers 2000 history
        ∷ arrives false 2000 (some again)
        ∷ arrives false 2000 (some live)
        ∷ []))
    ≡ 2
unfolding on_message on_history eq_text is_repeated
kept = refl

messages_after-bounded_example :
    let log = messages_after at 5 (answers 2000 history ∷ arrives false 2000 (some live) ∷ []) in
    (length log ≤ 5) × (is_history_first log ≡ true)
messages_after-bounded_example =
    messages_after-bounded at 5 (answers 2000 history ∷ arrives false 2000 (some live) ∷ [])

-- `b` is listed already, `c` twice in what is picked.
picks :
    default_resolve_picked_topic (some (codes " a,b ")) (some (codes "b, c,c"))
    ≡ some (codes "a, b, c")
unfolding default_resolve_picked_topic
picks = refl

trimmed : is_empty (trim (codes " a,b ")) ≡ false
unfolding trim
trimmed = refl

default_resolve_picked_topic-lists_example :
    (r : Text) × (default_resolve_picked_topic (some (codes " a,b ")) (some (codes "b, c,c"))
      ≡ some r)
    × (split_list comma r
        ≡ distinct [] (split_list comma (codes " a,b ") ++ split_list comma (codes "b, c,c")))
default_resolve_picked_topic-lists_example =
    default_resolve_picked_topic-lists (codes " a,b ") (codes "b, c,c") refl trimmed

abbrev reading : Text
reading = codes "{\"temp\": 21.4, \"unit\": \"C\", ch1: true}"

-- The keys, quoted or not, are no literals.
literals :
    map {B = Text × ℕ} (λ l. (l.text, l.start)) (find_literals reading 4)
    ≡ (codes "21.4", 9) ∷ (codes "\"C\"", 23) ∷ (codes "true", 33) ∷ []
unfolding find_literals
literals = refl

find_literals-mark_literal_example : All (IsMarked reading) (find_literals reading 4)
find_literals-mark_literal_example = find_literals-mark_literal reading 4

abbrev heard : Text → Bool → TopicResult
heard topic has_messages = record {
  topic = topic;
  has_messages = has_messages;
  newest = none;
  last_seen = some (codes "2s ago");
}

abbrev two_topics : List Text
two_topics = codes "a" ∷ codes "b" ∷ []

abbrev heard_one : TopicState
heard_one =
    on_results (codes "k") two_topics (heard (codes "a") true ∷ heard (codes "b") false ∷ [])

abbrev heard_both : TopicState
heard_both = on_topic_message (codes "k") two_topics (codes "b") heard_one

both_active : (heard_one.active_count ≡ 1) × (heard_both.active_count ≡ 2)
unfolding on_results on_topic_message strip_prefix
both_active = (refl, refl)

-- A topic that is named twice counts twice, until a message of it comes.
twice_active :
    let s =
      on_results
        (codes "k")
        (codes "a" ∷ codes "a" ∷ [])
        (heard (codes "a") true ∷ heard (codes "a") true ∷ []) in
    (s.active_count ≡ 2)
    × ((on_topic_message (codes "k") (codes "a" ∷ codes "a" ∷ []) (codes "a") s).active_count ≡ 1)
unfolding on_results on_topic_message
twice_active = (refl, refl)

a_not_b : eq_text (codes "a") (codes "b") ≡ false
unfolding eq_text
a_not_b = refl

Reach-IsConsistent_example : IsConsistent heard_both
Reach-IsConsistent_example = Reach-IsConsistent (
    hears (codes "k") two_topics (codes "b") (
      learns (codes "k") two_topics (heard (codes "a") true ∷ heard (codes "b") false ∷ [])
        ((a_not_b, tt), (tt, tt)) (begins (codes "k"))))

-- The token moves from the temperature to the unit, in quotes as the literal was.
swapped :
    (swap_or_mark_literal
      (codes "{\"temp\": {{value}}, \"unit\": \"C\"}")
      (record { text = codes "\"C\""; start = 28; end = 31; key = none })
      (codes "21.4")
      [])
    ≡ record {
      template = codes "{\"temp\": 21.4, \"unit\": \"{{value}}\"}";
      previous = codes "C";
      caret = 34;
    }
unfolding swap_or_mark_literal
swapped = refl

previewed :
    preview_payload R
      (codes "{{value:hum}} {{value}} {{topic}}")
      none
      none
      none
      (some (record { name = codes "value: hum"; preview = some (codes "40") } ∷ []))
      1000
      (codes "t")
    ≡ codes "40 21.5 sensor/temp"
unfolding preview_payload
previewed = refl

modes :
    (detect_payload_mode R (codes " {\"a\": {{value}}} ") ≡ mode_json)
    × (detect_payload_mode R (codes "{{value}}") ≡ mode_raw)
    × (detect_payload_mode R (codes "on") ≡ mode_raw)
unfolding detect_payload_mode includes
modes = (refl, refl, refl)
