-- ===== src/Value.antt =====
-- Values in documents, frontend/src/components/panels/payloadShape.ts: `resolvePath`,
-- `coerceValue`, `parseLooseJson`, `extractValue`.
pub mod Suggest
use mqtt_dashboard.Prelude.{
  ℕ, Bool, true, false, not, ◌&&◌, ◌||◌, List, [], ◌∷◌, ◌++◌, Option, none, some, map, any, drop,
  if◌then◌else◌, ◌==◌, leb, ◌>>=◌,
}
use mqtt_dashboard.Prelude.Text.{Text, codes, eq_text, is_empty, is_space, trim, split_list}
use mqtt_dashboard.Scan.{Scanner, lit, many, seq, replace_all}
use mqtt_dashboard.Json.{Json, get_key, get_item}
use mqtt_dashboard.Json.Runtime.{Runtime}

pub data PayloadDataType : Type 0 where
  number boolean string : PayloadDataType

-- `string | number | boolean`
pub data Scalar (N : Type 0) : Type 0 where
  text : Text → Scalar N
  num : N → Scalar N
  bool : Bool → Scalar N

pub record ExtractedValue (N : Type 0) : Type 0 where
  pub value : Scalar N
  pub data_type : PayloadDataType
  pub raw : Text

abbrev pub true_words : List Text
true_words = codes "true" ∷ codes "on" ∷ codes "yes" ∷ codes "online" ∷ []

abbrev pub bool_words : List Text
bool_words = true_words ++ (codes "false" ∷ codes "off" ∷ codes "no" ∷ codes "offline" ∷ [])

-- `words.includes(word)`
abbrev pub has_word : Text → List Text → Bool
has_word word words = any (λ w. eq_text w word) words

abbrev pub dot : ℕ
dot = b'.'

-- `path.split(".").map((s) => s.trim()).filter(Boolean)`
abbrev pub segments : Text → List Text
segments path = split_list dot path

-- A key of an object, character by character, and an unquoted key before a colon.
abbrev is_key_start : ℕ → Bool
is_key_start c = leb b'A' c && leb c b'Z' || leb b'a' c && leb c b'z' || c == b'_' || c == b'$'

abbrev is_key_char : ℕ → Bool
is_key_char c = is_key_start c || leb b'0' c && leb c b'9'

-- One character of a class.
unfoldable pub one_of : (ℕ → Bool) → Scanner
one_of p [] = none
one_of p (c ∷ s) = if p c then some (c ∷ [], s) else none

-- `([{[,]\s*)([A-Za-z_$][\w$]*)(\s*:)`
unfoldable pub unquoted_key : Scanner
unfolding seq one_of many is_space lit
unquoted_key = seq (one_of (λ c. c == b'{' || c == b'[' || c == b',')) (
    seq (many is_space)
      (seq (one_of is_key_start) (seq (many is_key_char) (seq (many is_space) (lit (codes ":"))))))

-- A quote mark where the characters of the class begin.
unfoldable pub quote_at : (ℕ → Bool) → Text → Text
quote_at p [] = b'"' ∷ []
quote_at p (c ∷ s) = let rest = quote_at p s in if p c then b'"' ∷ c ∷ s else c ∷ rest

-- `$1"$2"$3`: the key begins at its first key character and ends before the next other one.
unfoldable pub quote_key : Text → Text
unfolding quote_at
quote_key [] = []
quote_key (c ∷ s) =
    let rest = quote_key s in
    if is_key_start c then b'"' ∷ quote_at (λ d. not (is_key_char d)) (c ∷ s) else c ∷ rest

-- `'([^'\\]*)'`
unfoldable pub single_quoted : Scanner
unfolding seq lit many
single_quoted =
    seq (lit (codes "'")) (seq (many (λ c. not (c == b'\'' || c == b'\\'))) (lit (codes "'")))

-- `"$1"`: the only apostrophes of a match are its ends.
unfoldable pub double_quotes : Text → Text
double_quotes m = map (λ c. if c == b'\'' then b'"' else c) m

-- `,(\s*[}\]])`
unfoldable pub trailing_comma : Scanner
unfolding seq lit many is_space one_of
trailing_comma = seq (lit (codes ",")) (seq (many is_space) (one_of (λ c. c == b'}' || c == b']')))

unfoldable pub relax_json : Text → Text
unfolding replace_all unquoted_key quote_key single_quoted double_quotes trailing_comma
relax_json payload =
    let quoted = replace_all unquoted_key quote_key payload in
    let doubled = replace_all single_quoted double_quotes quoted in
    replace_all trailing_comma (drop 1) doubled

module _ (R : Runtime) where
  open R use {
    Num, to_number, show_number, as_index, json_parse, json_stringify, show_container, lower_case,
  }

  -- `undefined` is `none`.
  unfoldable pub parse_loose_json : Text → Option (Json Num)
  unfolding relax_json
  parse_loose_json payload = elim (json_parse payload) [
    | some json ↦ some json
    | none ↦ json_parse (relax_json payload)
  ]

  -- One round of the loop of `resolvePath`. A scalar has nothing below it.
  unfoldable pub resolve_segment : Text → Json Num → Option (Json Num)
  unfolding get_key get_item
  resolve_segment segment (Json.arr items) = do
    n ← to_number segment
    index ← as_index n
    get_item index items
  resolve_segment segment (Json.obj fields) = get_key segment fields
  resolve_segment segment _ = none

  unfoldable pub resolve_segments : List Text → Json Num → Option (Json Num)
  unfolding resolve_segment
  resolve_segments [] current = some current
  resolve_segments (s ∷ ss) current = do next ← resolve_segment s current; resolve_segments ss next

  -- What follows when the whole path is no key; no segment at all is not found.
  unfoldable pub resolve_split : List Text → Json Num → Option (Json Num)
  unfolding resolve_segments
  resolve_split [] root = none
  resolve_split (s ∷ ss) root = resolve_segments (s ∷ ss) root

  abbrev flat_key : Text → Json Num → Option (Json Num)
  flat_key path (Json.obj fields) = get_key path fields
  flat_key path _ = none

  -- `found: false` is `none`.
  unfoldable pub resolve_path : Json Num → Text → Option (Json Num)
  unfolding resolve_split split_list get_key
  resolve_path root path = elim (flat_key path root) [
    | some v ↦ some v
    | none ↦ resolve_split (segments path) root
  ]

  -- `coerceValue` of a text.
  unfoldable pub coerce_text : Text → Text → ExtractedValue Num
  unfolding trim eq_text
  coerce_text target raw =
      let trimmed = trim target in
      let lower = lower_case trimmed in
      if has_word lower bool_words
      then record { value = bool (has_word lower true_words); data_type = boolean; raw = raw }
      else if is_empty trimmed
      then record { value = text trimmed; data_type = string; raw = raw }
      else elim (to_number trimmed) [
        | some n ↦ record { value = num n; data_type = number; raw = raw }
        | none ↦ record { value = text trimmed; data_type = string; raw = raw }
      ]

  unfoldable pub coerce_value : Json Num → Text → ExtractedValue Num
  unfolding coerce_text
  coerce_value (Json.num n) raw = record { value = num n; data_type = number; raw = raw }
  coerce_value (Json.bool b) raw = record { value = bool b; data_type = boolean; raw = raw }
  coerce_value (Json.str s) raw = coerce_text s raw
  coerce_value target raw = record {
    value = text (json_stringify target);
    data_type = string;
    raw = raw;
  }

  -- What a document reads as with no path: an object as the payload itself.
  abbrev pub whole_document : Text → Json Num → Json Num
  whole_document payload (Json.obj fields) = Json.str payload
  whole_document payload json = json

  abbrev pub is_container : Json Num → Bool
  is_container (Json.arr items) = true
  is_container (Json.obj fields) = true
  is_container _ = false

  -- The field that the trimmed path names, if it is asked for and resolves.
  unfoldable pub extract_at : Json Num → Option Text → Option (Json Num)
  unfolding resolve_path trim
  extract_at json none = none
  extract_at json (some path) =
      let key = trim path in
      if not (is_empty key) && is_container json then resolve_path json key else none

  unfoldable pub extract_value : Text → Option Text → ExtractedValue Num
  unfolding parse_loose_json extract_at coerce_value
  extract_value payload path = elim (parse_loose_json payload) [
    | none ↦ coerce_value (Json.str payload) payload
    | some json ↦ elim (extract_at json path) [
      | some v ↦ coerce_value v payload
      | none ↦ coerce_value (whole_document payload json) payload
    ]
  ]

  -- `String(value)`
  abbrev pub show_json : Json Num → Text
  show_json Json.null = codes "null"
  show_json (Json.bool true) = codes "true"
  show_json (Json.bool false) = codes "false"
  show_json (Json.num n) = show_number n
  show_json (Json.str s) = s
  show_json v = show_container v
