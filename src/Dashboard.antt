-- ===== src/Dashboard.antt =====
-- frontend/src/utils/dashboardIO.ts: the export envelope and what an import accepts.
pub mod RoundTrip
use mqtt_dashboard.Prelude.{
  ℕ, suc, ◌+◌, Bool, true, false, not, ◌&&◌, ◌||◌, List, [], ◌∷◌, ◌++◌, Option, none, some, map,
  if◌then◌else◌, ◌==◌, leb, or_default,
}
use mqtt_dashboard.Prelude.Text.{Text, codes, eq_text, is_empty, trim}
use mqtt_dashboard.Scan.{many1, replace_all}
use mqtt_dashboard.Json
use mqtt_dashboard.Json.{Json, Items, Fields, get_key}
use mqtt_dashboard.Json.Runtime.{Runtime}
use mqtt_dashboard.Value.{show_json}

abbrev pub export_type : Text
export_type = codes "mqtt-dashboard-export"

abbrev is_slug_char : ℕ → Bool
is_slug_char c = leb b'a' c && leb c b'z' || leb b'0' c && leb c b'9'

-- `/^-+|-+$/g`, replaced by nothing
unfoldable pub strip_leading : Text → Text
strip_leading [] = []
strip_leading (c ∷ s) = if c == b'-' then strip_leading s else c ∷ s

unfoldable pub strip_trailing : Text → Text
strip_trailing [] = []
strip_trailing (c ∷ s) =
    let rest = strip_trailing s in if c == b'-' && is_empty rest then [] else c ∷ rest

module _ (R : Runtime) where
  open R use {Num, to_number, json_parse, lower_case, eq_num, numeral}

  unfoldable pub slugify : Text → Text
  unfolding trim replace_all many1 strip_leading strip_trailing
  slugify name =
      let dashed =
        replace_all (many1 (λ c. not (is_slug_char c))) (λ m. codes "-") (trim (lower_case name)) in
      let slug = strip_trailing (strip_leading dashed) in
      if is_empty slug then codes "dashboard" else slug

  -- A panel of a dashboard, with the ids of this installation.
  pub record Panel : Type 0 where
    pub id : Text
    pub title : Text
    pub panel_type : Text
    pub x : Num
    pub y : Num
    pub w : Num
    pub h : Num
    pub config_json : Fields Num
    pub broker_id : Text

  pub record ExportPanel : Type 0 where
    pub title : Text
    pub panel_type : Text
    pub x : Num
    pub y : Num
    pub w : Num
    pub h : Num
    pub config_json : Json Num
    pub broker_id : Text

  abbrev pub export_panel : Panel → ExportPanel
  export_panel p = record {
    title = p.title;
    panel_type = p.panel_type;
    x = p.x;
    y = p.y;
    w = p.w;
    h = p.h;
    config_json = Json.obj p.config_json;
    broker_id = p.broker_id;
  }

  -- What `JSON.stringify` is given, as a document.
  abbrev pub panel_json : ExportPanel → Json Num
  panel_json p = Json.obj (
      Json.field (codes "title") (Json.str p.title) (
        Json.field (codes "panel_type") (Json.str p.panel_type) (
          Json.field (codes "x") (Json.num p.x) (
            Json.field (codes "y") (Json.num p.y) (
              Json.field (codes "w") (Json.num p.w) (
                Json.field (codes "h") (Json.num p.h) (
                  Json.field (codes "config_json") p.config_json
                    (Json.field (codes "broker_id") (Json.str p.broker_id) Json.end))))))))

  abbrev pub items_json : List ExportPanel → Items Num
  items_json [] = Json.nil
  items_json (p ∷ ps) = Json.cons (panel_json p) (items_json ps)

  unfoldable pub build_dashboard_export : Text → List Panel → Json Num
  build_dashboard_export name panels = Json.obj (
      Json.field (codes "type") (Json.str export_type) (
        Json.field (codes "version") (Json.num (numeral 1)) (
          Json.field (codes "name") (Json.str name) (
            Json.field (codes "panels") (Json.arr (items_json (map export_panel panels)))
              Json.end))))

  -- The errors that an import throws; a panel is numbered from 1.
  pub data ImportError : Type 0 where
    not_json not_object not_export : ImportError
    unsupported : Option (Json Num) → ImportError
    no_name no_panels : ImportError
    malformed no_type : ℕ → ImportError

  pub data Import {ℓ} (A : Type ℓ) : Type ℓ where
    ok : A → Import A
    err : ImportError → Import A

  infixl 5 ◌>>=◌
  abbrev pub ◌>>=◌ {ℓ κ} : {A : Type ℓ} {B : Type κ} → Import A → (A → Import B) → Import B
  ok a >>= f = f a
  err e >>= f = err e

  -- `p.key` of something that is an object.
  abbrev pub key_of : Text → Json Num → Option (Json Num)
  key_of key (Json.obj fields) = get_key key fields
  key_of key _ = none

  abbrev pub is_object : Json Num → Bool
  is_object (Json.obj fields) = true
  is_object (Json.arr items) = true
  is_object _ = false

  -- `Number(value)`; `none` is `NaN`.
  abbrev pub number_of : Json Num → Option Num
  number_of Json.null = some (numeral 0)
  number_of (Json.num n) = some n
  number_of (Json.bool true) = some (numeral 1)
  number_of (Json.bool false) = some (numeral 0)
  number_of v = to_number (show_json R v)

  -- `Number(value) || d`
  abbrev pub number_or : Option (Json Num) → Num → Num
  number_or none d = d
  number_or (some v) d = elim (number_of v) [
    | none ↦ d
    | some n ↦ if eq_num n (numeral 0) then d else n
  ]

  -- `typeof value === "string" ? value : d`
  abbrev pub text_or : Option (Json Num) → Text → Text
  text_or (some (Json.str s)) d = s
  text_or _ d = d

  abbrev pub object_or_empty : Option (Json Num) → Json Num
  object_or_empty (some (Json.obj fields)) = Json.obj fields
  object_or_empty (some (Json.arr items)) = Json.arr items
  object_or_empty _ = Json.obj Json.end

  -- The panel's type, if it is a text that is not empty.
  abbrev pub given_type : Option (Json Num) → Option Text
  given_type (some (Json.str (c ∷ s))) = some (c ∷ s)
  given_type _ = none

  unfoldable pub parse_panel : ℕ → Json Num → Import ExportPanel
  unfolding get_key eq_text
  parse_panel i raw =
      if is_object raw
      then (elim (given_type (key_of (codes "panel_type") raw)) [
        | none ↦ err (no_type (i + 1))
        | some panel_type ↦ ok (record {
          title = text_or (key_of (codes "title") raw) (codes "Panel");
          panel_type = panel_type;
          x = number_or (key_of (codes "x") raw) (numeral 0);
          y = number_or (key_of (codes "y") raw) (numeral 0);
          w = number_or (key_of (codes "w") raw) (numeral 4);
          h = number_or (key_of (codes "h") raw) (numeral 4);
          config_json = object_or_empty (key_of (codes "config_json") raw);
          broker_id = text_or (key_of (codes "broker_id") raw) [];
        })
      ])
      else err (malformed (i + 1))

  unfoldable pub parse_panels : ℕ → Items Num → Import (List ExportPanel)
  unfolding parse_panel
  parse_panels i Json.nil = ok []
  parse_panels i (Json.cons v vs) = do
    p ← parse_panel i v
    ps ← parse_panels (i + 1) vs
    ok (p ∷ ps)

  abbrev pub is_export : Option (Json Num) → Bool
  is_export (some (Json.str s)) = eq_text s export_type
  is_export _ = false

  abbrev pub is_version : Option (Json Num) → Bool
  is_version (some (Json.num n)) = eq_num n (numeral 1)
  is_version _ = false

  -- A name that is not blank.
  abbrev pub given_name : Option (Json Num) → Option Text
  given_name (some (Json.str s)) = if is_empty (trim s) then none else some s
  given_name _ = none

  abbrev pub given_panels : Option (Json Num) → Option (Items Num)
  given_panels (some (Json.arr items)) = some items
  given_panels _ = none

  abbrev parse_body : Text → Option (Items Num) → Import (Text × List ExportPanel)
  parse_body name none = err no_panels
  parse_body name (some items) = do panels ← parse_panels 0 items; ok (name, panels)

  -- The checks in the order in which the source makes them.
  unfoldable pub parse_envelope : Json Num → Import (Text × List ExportPanel)
  unfolding get_key eq_text trim parse_panels
  parse_envelope document =
      if not (is_object document)
      then err not_object
      else if not (is_export (key_of (codes "type") document))
      then err not_export
      else if not (is_version (key_of (codes "version") document))
      then err (unsupported (key_of (codes "version") document))
      else elim (given_name (key_of (codes "name") document)) [
        | none ↦ err no_name
        | some name ↦ parse_body name (given_panels (key_of (codes "panels") document))
      ]

  unfoldable pub parse_dashboard_import : Text → Import (Text × List ExportPanel)
  unfolding parse_envelope
  parse_dashboard_import text = elim (json_parse text) [
    | none ↦ err not_json
    | some document ↦ parse_envelope document
  ]
