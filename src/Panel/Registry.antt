-- ===== src/Panel/Registry.antt =====
-- frontend/src/components/panels/registry.ts: the panels that there are, and what holds for a panel
-- whose definition does not say otherwise.
pub mod Picked
use mqtt_dashboard.Prelude.{
  ℕ, Bool, true, false, not, ◌&&◌, ◌||◌, List, [], ◌∷◌, ◌++◌, Option, none, some, map, filter, any,
  find, if◌then◌else◌, ltb, length, or_default,
}
use mqtt_dashboard.Prelude.Text.{
  Text, codes, eq_text, includes, is_empty, trim, split_list, join, comma,
}
use mqtt_dashboard.Json
use mqtt_dashboard.Json.{Json, get_key}
use mqtt_dashboard.Json.Runtime.{Runtime}
use mqtt_dashboard.Value.{show_json}
use mqtt_dashboard.Template.Interpolate.{decimal}

pub data PanelCategory : Type 0 where
  monitor control visual : PanelCategory

abbrev pub same_category : PanelCategory → PanelCategory → Bool
same_category monitor monitor = true
same_category control control = true
same_category visual visual = true
same_category _ _ = false

pub record EmptyStateInfo : Type 0 where
  pub message : Text
  pub action_label : Option Text

-- `errors` are the field and the message of each; `warning` is none where it is null or not there.
pub record ValidationResult : Type 0 where
  pub is_valid : Bool
  pub warning : Option Text
  pub errors : List (Text × Text)

pub record PanelHeaderMeta : Type 0 where
  pub topic_summary : Option Text
  pub topic_detail : Option Text
  pub payload_preview : Option Text

-- `boolean | string | EmptyStateInfo | null`
pub data EmptyAnswer : Type 0 where
  answer_bool : Bool → EmptyAnswer
  answer_text : Text → EmptyAnswer
  answer_info : EmptyStateInfo → EmptyAnswer
  answer_null : EmptyAnswer

unfoldable pub is_member : Text → List Text → Bool
unfolding eq_text
is_member t ts = any (λ u. eq_text u t) ts

-- `Array.from(new Set(ts))`, where `seen` are the members so far.
unfoldable pub distinct : List Text → List Text → List Text
unfolding is_member
distinct seen [] = []
distinct seen (t ∷ ts) =
    let rest = distinct seen ts in
    let more = distinct (t ∷ seen) ts in if is_member t seen then rest else t ∷ more

unfoldable pub default_resolve_picked_topic : Option Text → Option Text → Option Text
unfolding trim split_list distinct join
default_resolve_picked_topic existing_topic picked_topic =
    let existing = or_default existing_topic [] in
    let picked = or_default picked_topic [] in
    if is_empty picked
    then none
    else if is_empty existing || is_empty (trim existing)
    then some picked
    else some
        (join (codes ", ") (distinct [] (split_list comma existing ++ split_list comma picked)))

module _ (R : Runtime) where
  open R use {Num}

  -- What the registry reads of a definition; the functions of a definition are its own.
  pub record PanelDefinition : Type 0 where
    pub type : Text
    pub category : PanelCategory
    pub is_visual : Bool
    pub validate_config : Option (Json Num → ValidationResult)
    pub validate_warning : Option (Json Num → Option Text)
    pub is_unset : Option (Json Num → EmptyAnswer)
    pub header_meta : Option (Json Num → PanelHeaderMeta)

  -- `registry.set(…)`: a key that is there keeps its place.
  unfoldable pub register_panel : PanelDefinition → List PanelDefinition → List PanelDefinition
  unfolding eq_text
  register_panel definition [] = definition ∷ []
  register_panel definition (d ∷ ds) =
      let rest = register_panel definition ds in
      if eq_text d.type definition.type then definition ∷ ds else d ∷ rest

  unfoldable pub get_panel_definition : Text → List PanelDefinition → Option PanelDefinition
  unfolding eq_text
  get_panel_definition type registry = find (λ d. eq_text d.type type) registry

  unfoldable pub get_panels_by_category :
      PanelCategory → List PanelDefinition → List PanelDefinition
  get_panels_by_category category registry =
      filter (λ p. same_category p.category category) registry

  -- `cfg[key]`, where null counts as missing and a configuration that is no object has no keys.
  abbrev pub value_of : Text → Json Num → Option (Json Num)
  value_of key (Json.obj fields) = elim (get_key key fields) [
    | none ↦ none
    | some v ↦ elim v [ Json.null ↦ none | w ↦ some w ]
  ]
  value_of key _ = none

  -- `String(cfg.topic ?? cfg.topics ?? "").trim()`
  unfoldable pub topic_of : Json Num → Text
  unfolding get_key trim
  topic_of cfg = trim (elim (value_of (codes "topic") cfg) [
    | some v ↦ show_json R v
    | none ↦ elim (value_of (codes "topics") cfg) [ some v ↦ show_json R v | none ↦ [] ]
  ])

  abbrev pub accepted : ValidationResult
  accepted = record { is_valid = true; warning = none; errors = [] }

  -- A result with one error, which is the warning as well or has a text of its own.
  abbrev pub refused : Text → Text → ValidationResult
  refused warning error = record {
    is_valid = false;
    warning = some warning;
    errors = (codes "topic", error) ∷ [];
  }

  abbrev pub wildcard_refusal : Text
  wildcard_refusal = codes "Cannot publish to wildcard topics (+ or #)"

  -- `validateWarning`, whose empty text is no warning but is passed on.
  abbrev pub warned : Option Text → ValidationResult
  warned none = accepted
  warned (some w) =
      if is_empty w
      then record { is_valid = true; warning = some w; errors = [] }
      else record { is_valid = false; warning = some w; errors = (codes "general", w) ∷ [] }

  -- What a topic is checked for where the definition has no rule of its own.
  unfoldable pub check_topic : PanelCategory → Text → ValidationResult
  unfolding includes split_list
  check_topic category topic =
      if is_empty topic
      then refused (codes "No topic configured") (codes "Topic is required")
      else if same_category category control
          && any (λ t. includes (codes "+") t || includes (codes "#") t) (split_list comma topic)
      then refused wildcard_refusal wildcard_refusal
      else accepted

  unfoldable pub default_validate_config : Option PanelDefinition → Json Num → ValidationResult
  unfolding check_topic topic_of
  default_validate_config none config = accepted
  default_validate_config (some def) config =
      if def.is_visual then accepted else elim def.validate_config [
        | some validate ↦ validate config
        | none ↦ elim def.validate_warning [
          | some validate ↦ warned (validate config)
          | none ↦ check_topic def.category (topic_of config)
        ]
      ]

  unfoldable pub default_validate_warning : Option PanelDefinition → Json Num → Option Text
  unfolding default_validate_config
  default_validate_warning def config = (default_validate_config def config).warning

  -- A text that is empty is falsy.
  abbrev pub empty_state : EmptyAnswer → Option EmptyStateInfo
  empty_state (answer_bool false) = none
  empty_state (answer_bool true) =
      some (record { message = codes "Panel is not configured"; action_label = none })
  empty_state (answer_text t) =
      if is_empty t then none else some (record { message = t; action_label = none })
  empty_state (answer_info i) = some i
  empty_state answer_null = none

  unfoldable pub default_check_empty : Option PanelDefinition → Json Num → Option EmptyStateInfo
  unfolding topic_of
  default_check_empty none config = none
  default_check_empty (some def) config = elim def.is_unset [
    | some is_unset ↦ empty_state (is_unset config)
    | none ↦
        if not def.is_visual && is_empty (topic_of config)
        then some (record {
          message = codes "No topic configured";
          action_label = some (codes "Set Topic");
        })
        else none
  ]

  -- `typeof config[key] === "string"`
  abbrev pub string_at : Text → Json Num → Option Text
  string_at key (Json.obj fields) = elim (get_key key fields) [
    | none ↦ none
    | some v ↦ elim v [ Json.str t ↦ some t | _ ↦ none ]
  ]
  string_at key _ = none

  abbrev pub summary : List Text → Text
  summary [] = codes "not configured"
  summary (t ∷ []) = if eq_text t (codes "#") then codes "all topics" else t
  summary (t ∷ u ∷ ts) = decimal (length (t ∷ u ∷ ts)) ++ codes " configured"

  abbrev pub payload_of : Json Num → Option Text
  payload_of config = elim (string_at (codes "payload") config) [
    | none ↦ none
    | some p ↦ if is_empty (trim p) then none else some (trim p)
  ]

  -- The header that a definition does not make itself.
  unfoldable pub plain_header : Option PanelCategory → Json Num → PanelHeaderMeta
  unfolding get_key split_list eq_text join trim decimal
  plain_header category config =
      let topics = split_list comma (elim (string_at (codes "topics") config) [
        | some t ↦ t
        | none ↦ or_default (string_at (codes "topic") config) []
      ]) in
      record {
        topic_summary = some (summary topics);
        topic_detail = (if ltb 1 (length topics) then some (join (codes ", ") topics) else none);
        payload_preview = (elim category [
          | none ↦ none
          | some c ↦ if same_category c control then payload_of config else none
        ]);
      }

  unfoldable pub default_build_header_meta : Option PanelDefinition → Json Num → PanelHeaderMeta
  unfolding plain_header
  default_build_header_meta none config = plain_header none config
  default_build_header_meta (some def) config = elim def.header_meta [
    | none ↦ plain_header (some def.category) config
    | some custom ↦ record {
      topic_summary = some (or_default (custom config).topic_summary (codes "not configured"));
      topic_detail = (custom config).topic_detail;
      payload_preview = (custom config).payload_preview;
    }
  ]
