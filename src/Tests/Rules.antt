-- ===== src/Tests/Rules.antt =====
-- Runs of the model on concrete inputs: the rules of a logic panel.

use mqtt_dashboard.Prelude.{
  ◌≡◌, refl, true, false, [], ◌∷◌, ◌++◌, none, some, find, arith, get_elem?,
}
use mqtt_dashboard.Prelude.Text.{Text, codes, eq_text, trim, split, comma}
use mqtt_dashboard.Topic.{mqtt_topic_matches}
use mqtt_dashboard.Socket.{Manager, Listener, Frame, initial, accepts}
use mqtt_dashboard.Panel.Logic.Summary.{format_condition_summary}
use mqtt_dashboard.Panel.Logic.{Condition, op_gt, join_or, match_all}
use mqtt_dashboard.Panel.Logic.Rule.{
  RuleForm, on_change, primary_broker, final_config, handle_save, either, given,
}
use mqtt_dashboard.Panel.Logic.Edits.{
  add, remove, set_join, after_edits, initial_conditions, IsHeaded, after_edits-initial_conditions,
}
use mqtt_dashboard.Panel.Logic.Opened.{initial_form, handle_save-initial_form}
use mqtt_dashboard.Panel.Logic.Live.{watched, broker_topics, subscribe_all}
use mqtt_dashboard.Panel.Logic.Safe.{handle_save-mqtt_topic_matches}
use mqtt_dashboard.Panel.Logic.Brokers.{subscribe_all-accepts}
use mqtt_dashboard.Tests.Documents.{R}

abbrev condition : Text → Text → Condition
condition broker topic = record {
  broker_id = some broker;
  topic = some topic;
  json_path = none;
  read_template = none;
  operator = op_gt;
  value = some (codes "30");
  join = none;
}

abbrev form : RuleForm
form = record {
  fallback_broker = codes "b1";
  broker_count = 2;
  source_broker_id = [];
  match = match_all;
  conditions =
      condition (codes "b1") (codes "home/temp") ∷ condition (codes "b2") (codes "den/+") ∷ [];
  mode = on_change;
  count = 5;
  window_sec = 60;
  sustained_sec = 10;
  target_topic = codes "home/fan, den/fan ";
  target_broker_id = [];
  payload = codes "on";
  qos = 0;
  retain = false;
  cooldown_sec = 0;
  enabled = true;
}

saved : handle_save R form ≡ some (final_config R form, primary_broker form)
unfolding handle_save primary_broker
saved = refl

first_watched :
    get_elem? (watched (final_config R form) (some (primary_broker form))) 0
    ≡ some (codes "b1", codes "home/temp")
unfolding watched final_config primary_broker
first_watched = refl

second_target :
    get_elem? (split comma (given (final_config R form).target_topic)) 1 ≡ some (codes " den/fan")
unfolding final_config split trim
second_target = refl

own_broker :
    codes "b1"
    ≡ either
        (given (final_config R form).target_broker_id)
        (given (final_config R form).source_broker_id)
unfolding final_config primary_broker
own_broker = refl

handle_save-mqtt_topic_matches_example :
    mqtt_topic_matches (codes "home/temp") (trim (codes " den/fan")) ≡ false
handle_save-mqtt_topic_matches_example =
    handle_save-mqtt_topic_matches R form (final_config R form) (primary_broker form) 0 1
      (codes "b1", codes "home/temp") (codes " den/fan") saved first_watched second_target
      own_broker

handle_save-initial_form_example :
    handle_save R
      (initial_form (final_config R form) (primary_broker form) none none (codes "b1") 2)
    ≡ some (final_config R form, primary_broker form)
handle_save-initial_form_example =
    handle_save-initial_form R form (final_config R form) (primary_broker form) saved

-- A target that a condition hears is not saved.
loop_refused : handle_save R (record form { target_topic = codes "home/temp" }) ≡ none
unfolding handle_save
loop_refused = refl

after_edits-initial_conditions_example : IsHeaded (
    after_edits
      (add ∷ set_join 1 join_or ∷ remove 0 ∷ [])
      (initial_conditions (final_config R form) none none))
after_edits-initial_conditions_example =
    after_edits-initial_conditions (final_config R form) none none
      (add ∷ set_join 1 join_or ∷ remove 0 ∷ []) (unfold final_config in refl) (tt, (tt, (tt, tt)))

abbrev panel_listener : Listener
panel_listener = record { id = codes "ws-sub-1"; subscription = none }

abbrev listening : Manager
listening = record initial { listeners = panel_listener ∷ [] }

abbrev last_subscribed : Listener
last_subscribed = record {
  id = codes "ws-sub-1";
  subscription = some (record {
    action = none;
    panel_id = some (codes "p1");
    broker_id = some (codes "b2");
    topics = some (codes "den/+" ∷ []);
  });
}

two_brokers :
    broker_topics (watched (final_config R form) none) []
    ≡ ((codes "b1", codes "home/temp" ∷ []) ∷ []) ++ (codes "b2", codes "den/+" ∷ []) ∷ []
unfolding broker_topics watched final_config
two_brokers = refl

found :
    find
      (λ m. eq_text m.id (codes "ws-sub-1"))
      (subscribe_all
        (codes "ws-sub-1")
        (codes "p1")
        (broker_topics (watched (final_config R form) none) [])
        listening).listeners
    ≡ some last_subscribed
unfolding subscribe_all broker_topics watched final_config eq_text
found = refl

abbrev first_frame : Frame
first_frame = record { broker_id = some (codes "b1"); topic = some (codes "home/temp") }

subscribe_all-accepts_example : accepts (some first_frame) last_subscribed ≡ false
subscribe_all-accepts_example =
    subscribe_all-accepts (final_config R form) none (codes "ws-sub-1") (codes "p1") listening
      last_subscribed ((codes "b1", codes "home/temp" ∷ []) ∷ []) (codes "b2", codes "den/+" ∷ [])
      first_frame (codes "b1") two_brokers found refl refl refl (λ e. ground arith)

summarised :
    format_condition_summary R (condition (codes "b1") (codes "home/temp")) true false
    ≡ codes "home/temp · value > 30"
unfolding format_condition_summary
summarised = refl
