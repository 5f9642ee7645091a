-- ===== src/Read/Path.antt =====
-- `deriveReadPath` and `templateFromValueKey` of payloadShape.ts.
use mqtt_dashboard.Prelude.{
  ℕ, suc, Bool, not, ◌&&◌, List, [], ◌∷◌, ◌++◌, Option, none, some, if◌then◌else◌, ◌>>=◌, all, any,
}
use mqtt_dashboard.Prelude.Text.{Text, codes, eq_text, is_empty, trim}
use mqtt_dashboard.Scan.{lit, replace_all}
use mqtt_dashboard.Json
use mqtt_dashboard.Json.{Json, Items, Fields}
use mqtt_dashboard.Json.Runtime.{Runtime}
use mqtt_dashboard.Template.{
  value_token, token_pattern, canonical_values, has_token, is_token_quoted, is_digit,
}
use mqtt_dashboard.Template.Interpolate.{decimal}
use mqtt_dashboard.Value.{parse_loose_json, dot, segments}

abbrev pub sentinel : Text
sentinel = codes "__mqtt_dashboard_token__"

-- `prefix ? `${prefix}.${key}` : key`
abbrev pub extend : Text → Text → Text
extend [] key = key
extend (c ∷ prefix) key = (c ∷ prefix) ++ (dot ∷ key)

module _ {N : Type 0} where
  -- The depth-first search of `find`, in the order of the document.
  unfoldable mutual
    unfolding eq_text decimal

    pub find_token : Json N → Text → Option Text
    find_token (Json.str s) prefix = if eq_text s sentinel then some prefix else none
    find_token (Json.arr items) prefix = find_item items 0 prefix
    find_token (Json.obj fields) prefix = find_field fields prefix
    find_token _ prefix = none

    pub find_item : Items N → ℕ → Text → Option Text
    find_item Json.nil i prefix = none
    find_item (Json.cons v vs) i prefix =
        let rest = find_item vs (suc i) prefix in
        elim (find_token v (extend prefix (decimal i))) [ some hit ↦ some hit | none ↦ rest ]

    pub find_field : Fields N → Text → Option Text
    find_field Json.end prefix = none
    find_field (Json.field k v fs) prefix =
        let rest = find_field fs prefix in
        elim (find_token v (extend prefix k)) [ some hit ↦ some hit | none ↦ rest ]

  -- Null and scalars have no path into them.
  unfoldable pub find_in_document : Json N → Option Text
  unfolding find_token
  find_in_document (Json.arr items) = find_token (Json.arr items) []
  find_in_document (Json.obj fields) = find_token (Json.obj fields) []
  find_in_document _ = none

abbrev quote : Text → Text
quote s = b'"' ∷ (s ++ b'"' ∷ [])

-- The template with a string in the token's place, and 0 in the place of every other token.
unfoldable pub parseable : Text → Text
unfolding is_token_quoted replace_all lit token_pattern
parseable norm =
    let stand_in = if is_token_quoted norm then sentinel else quote sentinel in
    replace_all token_pattern (λ m. codes "0") (replace_all (lit value_token) (λ m. stand_in) norm)

module _ (R : Runtime) where
  open R use {Num, json_stringify}

  unfoldable pub derive_read_path : Text → Option Text
  unfolding canonical_values has_token parseable parse_loose_json find_in_document
  derive_read_path template =
      let norm = canonical_values template in
      if has_token norm then parse_loose_json R (parseable norm) >>= find_in_document else none

  -- `reduceRight` over the segments.
  unfoldable pub nest_keys : List Text → Text
  nest_keys [] = value_token
  nest_keys (k ∷ ks) = b'{' ∷ (json_stringify (Json.str k) ++ (b':' ∷ (nest_keys ks ++ b'}' ∷ [])))

  -- `/^\d+$/`
  abbrev pub is_number : Text → Bool
  is_number s = not (is_empty s) && all is_digit s

  unfoldable pub template_from_segments : List Text → Text
  unfolding nest_keys
  template_from_segments [] = []
  template_from_segments (k ∷ ks) = if any is_number (k ∷ ks) then [] else nest_keys (k ∷ ks)

  unfoldable pub template_from_value_key : Option Text → Text
  unfolding template_from_segments trim
  template_from_value_key none = []
  template_from_value_key (some key) = template_from_segments (segments (trim key))
