-- ===== src/Tests/Documents.antt =====
-- Runs of the model on concrete inputs: messages, panels and dashboards, over a small runtime
-- whose numbers are the natural ones.
use mqtt_dashboard.Prelude.{
  ℕ, ◌+◌, ◌*◌, ◌-◌, ◌≡◌, ◌↔◌, refl, subst, ap, true, false, ◌&&◌, List, [], ◌∷◌, Option, none, some,
  map, if◌then◌else◌, ◌==◌, ltb, leb, inr, inl, arith, or_default,
}
use mqtt_dashboard.Prelude.Text.{Text, codes, is_empty, includes, trim}
use mqtt_dashboard.Json
use mqtt_dashboard.Json.{Json}
use mqtt_dashboard.Json.Runtime.{Runtime}
use mqtt_dashboard.Template.{has_any_token, is_bare_token}
use mqtt_dashboard.Template.Interpolate.{decimal, TemplateContext, interpolate_template}
use mqtt_dashboard.Value.{Scalar, resolve_path}
use mqtt_dashboard.Read.{read_value, read_shape}
use mqtt_dashboard.Read.Path.{sentinel, derive_read_path}
use mqtt_dashboard.Read.Agree.{path_of, read_shape-read_value}
use mqtt_dashboard.Read.Stencil.{match_template}
use mqtt_dashboard.Config.{use_config_validation, range_rules, RangeRuleSpec, bad_step, num}
use mqtt_dashboard.Config.Rules.{range_rules_ordered}
use mqtt_dashboard.Panel.Toggle.{
  ToggleShape, off, toggle_write_payloads, extract_payload_value, state_references,
  parse_toggle_state,
}
use mqtt_dashboard.Panel.Toggle.Echo.{clash, parse_toggle_state-toggle_write_payloads}
use mqtt_dashboard.Panel.Logic.{
  Condition, op_gt, op_eq, join_or, match_all, eval_cond, has_explicit_join,
  evaluate_all_conditions,
}
use mqtt_dashboard.Panel.Logic.Joins.{Combined, evaluate_all_conditions_iff}
use mqtt_dashboard.Dashboard
use mqtt_dashboard.Dashboard.{
  export_panel, build_dashboard_export, ok, parse_dashboard_import, slugify,
}
use mqtt_dashboard.Dashboard.RoundTrip.{IsPlaced, parse_dashboard_import-build_dashboard_export}

abbrev digit : ℕ → Option ℕ
digit c = if leb b'0' c && leb c b'9' then some (c - b'0') else none

abbrev digits : ℕ → Text → Option ℕ
digits n [] = some n
digits n (c ∷ s) = elim (digit c) [ none ↦ none | some d ↦ digits (n * 10 + d) s ]

-- `marked` is the document of a text that holds the sentinel, `document` that of any other text
-- in braces.
abbrev small : Json ℕ → Json ℕ → Runtime
small marked document = record {
  Num = ℕ;
  to_number = digits 0;
  show_number = decimal;
  as_index = some;
  json_parse = λ t.
      if includes (codes "{") t
      then (if includes sentinel t then some marked else some document)
      else (if is_empty t
          then none
          else (elim (digits 0 t) [ none ↦ none | some n ↦ some (Json.num n) ]));
  json_stringify = λ j. codes "{}";
  show_container = λ j. codes "[object Object]";
  lower_case = λ t. t;
  upper_case = λ t. t;
  eq_num = λ a b. a == b;
  lt_num = ltb;
  is_finite = λ n. true;
  numeral = λ n. n;
}

abbrev pub temp_of : Json ℕ → Json ℕ
temp_of v = Json.obj (Json.field (codes "temp") v Json.end)

abbrev pub R : Runtime
R = small (temp_of (Json.str sentinel)) (temp_of (Json.num 21))

abbrev shape : Text
shape = codes "{\"temp\": {{value}}}"

abbrev message : Text
message = codes "{\"temp\":21, \"hum\":4}"

shape_path : derive_read_path R shape ≡ some (codes "temp")
unfolding derive_read_path includes
shape_path = refl

shape_found :
    ((read_shape R shape message none).found ≡ true)
    × (is_bare_token shape ≡ false)
    × (trim shape ≡ shape)
unfolding read_shape is_bare_token trim includes match_template derive_read_path resolve_path
shape_found = (refl, refl, refl)

some_inj : {a b : Text} → some a ≡ some b → a ≡ b
some_inj {a} h = ap (λ o. or_default o a) h

shape_path_trim : (p : Text) → path_of R shape none ≡ some p → trim p ≡ p
unfolding trim derive_read_path includes
shape_path_trim p h = subst (λ q. trim q ≡ q) (some_inj h) refl

read_shape-read_value_example :
    (read_shape R shape message none).extracted ≡ read_value R (some shape) message none
read_shape-read_value_example =
    read_shape-read_value R b'{' (codes "\"temp\": {{value}}}") message none shape_found.2
      shape_found.1 (λ p h. ground arith) shape_path_trim shape_found.0

abbrev context : TemplateContext R
context = record {
  value = some (Scalar.num 21);
  topic = some (codes "home/den");
  payload = none;
  timestamp = 1700000000000;
  iso = codes "2023-11-14T22:13:20.000Z";
  condition_values = none;
}

interpolated :
    (interpolate_template R (codes "{{ topic }}={value}{") context ≡ codes "home/den=21{")
    × (interpolate_template R (codes "{{value: 1}}") context ≡ codes "{21}")
unfolding interpolate_template
interpolated = (refl, refl)

no_token : has_any_token (codes "{\"on\": true}") ≡ false
unfolding has_any_token
no_token = refl

abbrev range_spec : RangeRuleSpec
range_spec = record {
  field = codes "range";
  low = codes "0";
  high = codes "100";
  step = some (codes "5");
  low_label = codes "Min";
  high_label = codes "Max";
}

range_saves : (use_config_validation (range_rules R range_spec)).save_disabled ≡ false
unfolding use_config_validation range_rules
range_saves = refl

range_rules_ordered_example :
    (low : ℕ) × (high : ℕ) × (num R (codes "0") ≡ some low)
    × (num R (codes "100") ≡ some high)
    × (ltb high low ≡ false)
    × ((high == low) ≡ false)
    × (bad_step R (some (codes "5")) ≡ false)
range_rules_ordered_example = range_rules_ordered R range_spec range_saves

abbrev toggle : ToggleShape
toggle = record {
  on_payload = some (codes "heat");
  off_payload = some (codes "idle");
  read_template = none;
  payload_template = some (codes "{\"mode\": \"{{value}}\"}");
}

toggle_message : toggle_write_payloads R 0 [] toggle off ≡ codes "{\"mode\": \"idle\"}"
unfolding toggle_write_payloads
toggle_message = refl

-- The time is not in the message.
same_later : toggle_write_payloads R 1000 [] toggle off ≡ toggle_write_payloads R 0 [] toggle off
unfolding toggle_write_payloads
same_later = refl

toggle_clashes :
    (clash R 1000 [] toggle off (codes "idle") ≡ false)
    × (clash R 1000 [] toggle off (codes "{\"mode\": \"idle\"}") ≡ false)
    × (extract_payload_value R (codes "idle") none ≡ codes "idle")
unfolding toggle_write_payloads extract_payload_value includes trim state_references
toggle_clashes = (refl, refl, refl)

toggle_message_trim : trim (toggle_write_payloads R 0 [] toggle off) ≡ codes "{\"mode\": \"idle\"}"
unfolding toggle_write_payloads trim
toggle_message_trim = refl

parse_toggle_state-toggle_write_payloads_example :
    parse_toggle_state R 1000 [] (toggle_write_payloads R 0 [] toggle off) toggle ≡ some false
parse_toggle_state-toggle_write_payloads_example =
    parse_toggle_state-toggle_write_payloads R 0 1000 [] [] toggle off b'{' b'{'
      (codes "\"mode\": \"idle\"}") (codes "\"mode\": \"idle\"}") refl same_later
      toggle_message_trim refl toggle_clashes.1

-- A message that holds the time is not recognised at another time.
abbrev timed_toggle : ToggleShape
timed_toggle = record toggle { payload_template = some (codes "{{value}} {{timestamp}}") }

timed_message :
    (parse_toggle_state R 0 [] (toggle_write_payloads R 0 [] timed_toggle off) timed_toggle
      ≡ some false)
    × (parse_toggle_state R 1000 [] (toggle_write_payloads R 0 [] timed_toggle off) timed_toggle
        ≡ none)
unfolding parse_toggle_state toggle_write_payloads includes
timed_message = (refl, refl)

abbrev over_20 : Condition
over_20 = record {
  broker_id = none;
  topic = none;
  json_path = some (codes "temp");
  read_template = none;
  operator = op_gt;
  value = some (codes "20");
  join = none;
}

abbrev or_is_4 : Condition
or_is_4 = record over_20 { operator = op_eq; value = some (codes "4"); join = some join_or }

rule_fires :
    (evaluate_all_conditions R (some message) (over_20 ∷ or_is_4 ∷ []) match_all none none none
      ≡ true)
    × (evaluate_all_conditions R (some message) (or_is_4 ∷ []) match_all none none none ≡ false)
unfolding evaluate_all_conditions eval_cond includes resolve_path decimal
rule_fires = (refl, refl)

evaluate_all_conditions_iff_example :
    (evaluate_all_conditions R (some message) (over_20 ∷ or_is_4 ∷ []) match_all none none none
      ≡ true)
    ↔ Combined R
        (eval_cond R message none none none)
        (has_explicit_join R (over_20 ∷ or_is_4 ∷ []))
        match_all
        over_20
        (or_is_4 ∷ [])
evaluate_all_conditions_iff_example =
    evaluate_all_conditions_iff R message over_20 (or_is_4 ∷ []) match_all none none none

abbrev gauge_panel : (document : Json ℕ) → Dashboard.Panel (small Json.null document)
gauge_panel document = record {
  id = codes "7";
  title = codes "Temp";
  panel_type = codes "gauge";
  x = 0;
  y = 2;
  w = 4;
  h = 3;
  config_json = Json.field (codes "min") (Json.num 0) Json.end;
  broker_id = codes "b1";
}

abbrev exported : Json ℕ
exported =
    build_dashboard_export (small Json.null Json.null) (codes "Home") (gauge_panel Json.null ∷ [])

-- A runtime whose `JSON.stringify` and `JSON.parse` know the exported dashboard.
abbrev store : Runtime
store = small Json.null exported

abbrev panels : List (Dashboard.Panel store)
panels = gauge_panel exported ∷ []

store_law :
    store.json_parse (store.json_stringify (build_dashboard_export store (codes "Home") panels))
    ≡ some (build_dashboard_export store (codes "Home") panels)
unfolding build_dashboard_export includes
store_law = refl

home_named : is_empty (trim (codes "Home")) ≡ false
unfolding trim
home_named = refl

gauge_panel-IsPlaced : IsPlaced store (gauge_panel exported)
gauge_panel-IsPlaced = record {
  has_type = refl;
  has_w = refl;
  has_h = refl;
  plain_x = inr refl;
  plain_y = inl refl;
}

parse_dashboard_import-build_dashboard_export_example :
    parse_dashboard_import store
      (store.json_stringify (build_dashboard_export store (codes "Home") panels))
    ≡ ok (codes "Home", map (export_panel store) panels)
parse_dashboard_import-build_dashboard_export_example =
    parse_dashboard_import-build_dashboard_export store (codes "Home") panels home_named
      (gauge_panel-IsPlaced, tt) refl store_law

slugs :
    (slugify R (codes " My  Home! ") ≡ codes "y-ome") × (slugify R (codes "--") ≡ codes "dashboard")
unfolding slugify
slugs = (refl, refl)
