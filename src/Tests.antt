-- ===== src/Tests.antt =====
-- Runs of the model on concrete inputs: topics, templates, configuration rules and the socket.
mod Documents
mod Times
mod Panels
mod Searches
mod Pages
mod Rules
mod Shell
use mqtt_dashboard.Prelude.{
  ℕ, ◌+◌, ◌-◌, ◌≤◌, ◌<◌, ◌≡◌, ◌↔◌, ◌⊎◌, refl, Bool, true, false, not, List, [], ◌∷◌, ◌++◌, Option,
  none, some, map, length, concat, any, All, arith,
}
use mqtt_dashboard.Prelude.Text.{Text, codes, strip_prefix, split, split_list, slash, comma}
use mqtt_dashboard.Topic.{is_hidden, mqtt_topic_matches, ws_topic_matches}
use mqtt_dashboard.Topic.Matching.{
  Matches, mqtt_topic_matches_iff, ws_topic_matches-mqtt_topic_matches, mqtt_topic_matches_parent,
}
use mqtt_dashboard.Template.Place.{place_token, place_token_undo}
use mqtt_dashboard.Template.{
  value_token, normalize_template, token_pattern, value_token_pattern, unwrap_token,
  canonical_token, token_label, canonical_values, describe_template,
}
use mqtt_dashboard.Template.Chunks.{
  parse_template_chunks, count_tokens, Tiles, parse_template_chunks-Tiles,
  normalize_template-parse_template_chunks, has_any_token-count_tokens,
}
use mqtt_dashboard.Template.KeepOne.{keep_one_token, offset_after_keep_one_token}
use mqtt_dashboard.Template.KeepOne.Offset.{offset_after_keep_one_token_lem}
use mqtt_dashboard.Config.{
  ConfigRule, error_of, use_config_validation, topic_rules, TopicRuleSpec, is_wild,
}
use mqtt_dashboard.Config.Errors.{breaks, first_message, use_config_validation_lem}
use mqtt_dashboard.Config.Rules.{topic_rules_publishable}
use mqtt_dashboard.Panel.Logic.Joins.{Some}
use mqtt_dashboard.Socket.{
  Manager, Listener, SubscriptionPayload, Frame, Phase, opened, closing, subscribe, initial,
  phase_of, register, handle_open, handle_close, other_broker, accepts,
}
use mqtt_dashboard.Socket.Steps.{Step, Reach, here, next, registers, opens}
use mqtt_dashboard.Socket.Alive.{IsAlive, Reach-IsAlive}
use mqtt_dashboard.Socket.Routing.{IsMeantFor, accepts_iff}

abbrev filter_text : Text
filter_text = codes "home/+/temp"

abbrev topic_text : Text
topic_text = codes "home/den/temp"

topics :
    (mqtt_topic_matches filter_text topic_text ≡ true)
    × (mqtt_topic_matches filter_text (codes "home/temp") ≡ false)
    × (mqtt_topic_matches (codes "#") (codes "$SYS/up") ≡ false)
unfolding mqtt_topic_matches strip_prefix
topics = (refl, refl, refl)

mqtt_topic_matches_iff_example : (mqtt_topic_matches filter_text topic_text ≡ true) ↔ (
    (is_hidden filter_text topic_text ≡ false)
    × Matches (split slash filter_text) (split slash topic_text))
mqtt_topic_matches_iff_example = mqtt_topic_matches_iff filter_text topic_text

ws_topic_matches-mqtt_topic_matches_example :
    ws_topic_matches filter_text topic_text ≡ mqtt_topic_matches filter_text topic_text
ws_topic_matches-mqtt_topic_matches_example =
    ws_topic_matches-mqtt_topic_matches filter_text topic_text

abbrev template : Text
template = codes "a{topic} {{ value }}{{value}}"

templates :
    (normalize_template template ≡ codes "a{{topic}} {{value}}{{value}}")
    × (count_tokens template ≡ 3)
    × (keep_one_token (codes "a{{value}}b{{value}}c") ≡ codes "a{{value}}bc")
unfolding normalize_template count_tokens keep_one_token
templates = (refl, refl, refl)

-- Taking a later token away can bring another one about.
keep_one_token_splices :
    (keep_one_token (codes "{{value}}{{va{{value}}lue}}") ≡ codes "{{value}}{{value}}")
    × (count_tokens (keep_one_token (codes "{{value}}{{va{{value}}lue}}")) ≡ 2)
unfolding keep_one_token count_tokens
keep_one_token_splices = (refl, refl)

-- Braces around a name with a space in it grow with each normalisation.
normalize_template_grows :
    (normalize_template (codes "{value: 1}") ≡ codes "{{value: 1}}")
    × (normalize_template (codes "{{value: 1}}") ≡ codes "{{{value: 1}}}")
unfolding normalize_template
normalize_template_grows = (refl, refl)

parse_template_chunks-Tiles_example :
    Tiles 0 (length template) (parse_template_chunks template)
    × (concat (map (λ c. c.raw) (parse_template_chunks template)) ≡ template)
parse_template_chunks-Tiles_example = parse_template_chunks-Tiles template

offset_after_keep_one_token_lem_example :
    (offset_after_keep_one_token template 5 ≤ offset_after_keep_one_token template 24)
    × (offset_after_keep_one_token template 24 ≤ offset_after_keep_one_token template 5 + (24 - 5))
    × (offset_after_keep_one_token template (length template) ≡ length (keep_one_token template))
offset_after_keep_one_token_lem_example =
    offset_after_keep_one_token_lem template 5 24 (omega arith)

abbrev topic_spec : TopicRuleSpec
topic_spec = record {
  field = codes "topic";
  topic = codes "a/b, c";
  allow_wildcards = false;
  allow_multiple = true;
  subject = codes "Topic";
}

abbrev wild_rules : List ConfigRule
wild_rules = topic_rules (record topic_spec { topic = codes "a/+" })

wild_rules_message :
    error_of (codes "topic") (use_config_validation wild_rules).field_errors
    ≡ some (codes "Cannot publish to wildcard topic (a/+).")
unfolding use_config_validation topic_rules
wild_rules_message = refl

use_config_validation_lem_example :
    (error_of (codes "topic") (use_config_validation wild_rules).field_errors
      ≡ first_message (breaks (codes "topic")) wild_rules)
    × ((use_config_validation wild_rules).blocker_reason ≡ first_message (λ r. r.when) wild_rules)
    × ((use_config_validation wild_rules).save_disabled ≡ any (λ r. r.when) wild_rules)
use_config_validation_lem_example = use_config_validation_lem wild_rules b't' (codes "opic")

save_is_on : (use_config_validation (topic_rules topic_spec)).save_disabled ≡ false
unfolding use_config_validation topic_rules
save_is_on = refl

topic_rules_publishable_example :
    (0 < length (split_list comma topic_spec.topic))
    × All (λ t. is_wild t ≡ false) (split_list comma topic_spec.topic)
    × ((topic_spec.allow_multiple ≡ true) ⊎ (length (split_list comma topic_spec.topic) ≡ 1))
topic_rules_publishable_example = topic_rules_publishable topic_spec save_is_on refl

abbrev sub : SubscriptionPayload
sub = record {
  action = some subscribe;
  panel_id = some (codes "p1");
  broker_id = some (codes "b1");
  topics = some (filter_text ∷ []);
}

abbrev listener : Listener
listener = record { id = codes "ws-sub-0"; subscription = some sub }

abbrev frame : Frame
frame = record { broker_id = some (codes "b1"); topic = some topic_text }

frame_accepted : accepts (some frame) listener ≡ true
unfolding accepts strip_prefix
frame_accepted = refl

accepts_iff_example : (accepts (some frame) listener ≡ true) ↔ IsMeantFor (some frame) (some sub)
accepts_iff_example = accepts_iff (some frame) listener

-- The socket that a first listener makes.
first_socket : phase_of 0 (register listener initial).sockets ≡ some Phase.connecting
unfolding register
first_socket = refl

reached : Reach (λ t. none) initial (handle_open 0 (register listener initial))
reached = next (next here (registers listener)) (opens 0 first_socket)

Reach-IsAlive_example : IsAlive (handle_open 0 (register listener initial))
Reach-IsAlive_example = Reach-IsAlive reached

place_token_undo_example :
    let p = place_token template 9 2 value_token in
    place_token p.template (p.caret - length value_token) p.caret p.covered ≡ record {
      template = template;
      caret = p.caret - length value_token + length p.covered;
      covered = value_token;
    }
place_token_undo_example = place_token_undo template 9 2 value_token

placed_backwards :
    place_token (codes "t=21 C") 9 2 value_token
    ≡ record { template = codes "t=21 C{{value}}"; caret = 15; covered = [] }
unfolding place_token
placed_backwards = refl
