-- ===== src/Panel/Toggle/Flip.antt =====
-- `ToggleRuntime` of frontend/src/components/panels/TogglePanel.tsx: the topics it uses, and what
-- its handlers do to its state.
pub mod Refines
use mqtt_dashboard.Prelude.{
  ℕ, Bool, true, false, not, ◌&&◌, ◌||◌, List, [], ◌∷◌, Option, none, some, if◌then◌else◌, ◌==◌,
  or_default, is_some, any, head?,
}
use mqtt_dashboard.Prelude.Text.{Text, codes, includes, is_empty, split, trim, comma}
use mqtt_dashboard.Json.Runtime.{Runtime}
use mqtt_dashboard.Read.{effective_read_template}
use mqtt_dashboard.Panel.Confirm.{
  Confirm, at_rest, reported, begin, timer_fires, post_fails, post_succeeds,
}
use mqtt_dashboard.Panel.Toggle.{
  ToggleShape, Which, on, off, default_on_payload, default_off_payload, toggle_write_payloads,
  parse_toggle_state,
}

pub record ToggleConfig : Type 0 where
  pub topic : Option Text
  pub separate_read : Option Bool
  pub state_topic : Option Text
  pub state_broker_id : Option Text
  pub read_template : Option Text
  pub on_payload : Option Text
  pub off_payload : Option Text
  pub payload_template : Option Text

-- `(topic ?? "").split(",")[0]?.trim() ?? ""`
unfoldable pub command_topic_of : Option Text → Text
unfolding split trim
command_topic_of topic = trim (or_default (head? (split comma (or_default topic []))) [])

unfoldable pub separate_read_of : Option Bool → Option Text → Bool
unfolding trim
separate_read_of separate_read state_topic =
    or_default separate_read (not (is_empty (trim (or_default state_topic []))))

-- `(separateRead && text?.trim()) || d`
abbrev pub read_from : Bool → Option Text → Text → Text
read_from separate text d =
    let t = trim (or_default text []) in if separate && not (is_empty t) then t else d

unfoldable pub state_topic_of : ToggleConfig → Text
unfolding command_topic_of separate_read_of trim
state_topic_of config =
    read_from (separate_read_of config.separate_read config.state_topic) config.state_topic
      (command_topic_of config.topic)

unfoldable pub state_broker_id_of : ToggleConfig → Text → Text
unfolding separate_read_of trim
state_broker_id_of config broker_id =
    read_from (separate_read_of config.separate_read config.state_topic) config.state_broker_id
      broker_id

abbrev pub has_wildcard : Text → Bool
has_wildcard topic = includes (codes "+") topic || includes (codes "#") topic

-- What `parseToggleState` and `toggleWritePayloads` are given.
unfoldable pub shape_of : ToggleConfig → ToggleShape
unfolding separate_read_of effective_read_template
shape_of config = record {
  on_payload = some (or_default config.on_payload default_on_payload);
  off_payload = some (or_default config.off_payload default_off_payload);
  read_template = some (
      or_default
        (effective_read_template (record {
          payload_template = config.payload_template;
          read_template = config.read_template;
          separate_read = separate_read_of config.separate_read config.state_topic;
        }))
        []);
  payload_template = config.payload_template;
}

pub record ToggleRun : Type 0 where
  pub flip : Confirm Bool
  pub state : Option Bool

abbrev pub start : ToggleRun
start = record { flip = at_rest; state = none }

-- `next === desired`, where `next` may be null
abbrev pub says : Option Bool → Bool → Bool
says none d = false
says (some true) d = d
says (some false) d = not d

unfoldable pub show_state : Option Bool → ℕ → ToggleRun → ToggleRun
unfolding reported
show_state next received_at s = record {
  flip = reported (says next) received_at s.flip;
  state = next;
}

abbrev pub which_of : Bool → Which
which_of true = on
which_of false = off

-- `!commandTopic || hasWildcard || pendingRef.current`
abbrev pub cannot_flip : ToggleConfig → ToggleRun → Bool
cannot_flip config s =
    is_empty (command_topic_of config.topic)
    || has_wildcard (command_topic_of config.topic)
    || is_some s.flip.pending_ref

-- `pending?.desired ?? state`
abbrev pub displayed : ToggleRun → Option Bool
displayed s = elim s.flip.pending [ some d ↦ some d | none ↦ s.state ]

-- The clock, in milliseconds and as `toISOString` prints it, when a handler runs.
module _ (R : Runtime) (config : ToggleConfig) (now : ℕ) (iso : Text) where
  unfoldable pub apply_incoming_state : Text → ℕ → ToggleRun → ToggleRun
  unfolding parse_toggle_state shape_of show_state
  apply_incoming_state payload received_at s =
      show_state (parse_toggle_state R now iso payload (shape_of config)) received_at s

  unfoldable pub handle_flip : Bool → ToggleRun → ToggleRun
  unfolding command_topic_of includes begin toggle_write_payloads shape_of
  handle_flip desired s = if cannot_flip config s then s else record s {
    flip =
        begin desired (toggle_write_payloads R now iso (shape_of config) (which_of desired)) s.flip;
  }
