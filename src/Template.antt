-- ===== src/Template.antt =====
-- The tokens of a payload template, frontend/src/components/panels/payloadShape.ts: the two token
-- patterns, `unwrapToken`, `normalizeTemplate`, `hasToken`, `hasAnyToken`, `isBareToken`,
-- `clearToken`, `describeTemplate` and `isTokenQuoted`.
pub mod Token
pub mod Chunks
pub mod KeepOne
pub mod Place
pub mod Interpolate
pub mod Literals
pub mod Preview
use mqtt_dashboard.Prelude.{
  ℕ, zero, suc, ◌-◌, Bool, true, false, not, ◌&&◌, ◌||◌, List, [], ◌∷◌, ◌++◌, Option, none, some,
  if◌then◌else◌, length, ◌==◌, leb, is_some, get_elem?, map, concat,
}
use mqtt_dashboard.Prelude.Text.{
  Text, codes, is_space, is_empty, trim, trim_start, eq_text, strip_prefix,
}
use mqtt_dashboard.Scan.{Scanner, lit, many, many1, seq, alt, opt, exec, replace_all}

-- `{{value}}`
abbrev pub value_token : Text
value_token = codes "{{value}}"

abbrev pub token_label : Text
token_label = codes "value"

abbrev pub is_digit : ℕ → Bool
is_digit c = leb b'0' c && leb c b'9'

-- `[a-zA-Z0-9_/:.+#-]`
abbrev pub is_name_char : ℕ → Bool
is_name_char c =
    leb b'a' c && leb c b'z'
    || leb b'A' c && leb c b'Z'
    || is_digit c
    || c == b'_'
    || c == b'/'
    || c == b':'
    || c == b'.'
    || c == b'+'
    || c == b'#'
    || c == b'-'

-- A token's name between braces, with white space inside them.
unfoldable pub braced : Text → Scanner → Text → Scanner
unfolding seq lit many is_space
braced open_brace name close_brace =
    seq (lit open_brace) (seq (many is_space) (seq name (seq (many is_space) (lit close_brace))))

-- The names that one brace is enough for.
unfoldable pub single_name : Scanner
unfolding seq alt opt lit many many1 is_space
single_name =
    alt
      (seq (lit (codes "value"))
        (opt (seq (lit (codes ":")) (seq (many is_space) (many1 is_digit)))))
      (alt (lit (codes "topic")) (
        alt (lit (codes "payload")) (
          alt (seq (lit (codes "timestamp")) (opt (alt (lit (codes ":ms")) (lit (codes ":iso")))))
            (lit (codes "iso_timestamp")))))

-- `TOKEN_PATTERN`
unfoldable pub token_pattern : Scanner
unfolding alt braced single_name many1
token_pattern =
    alt (braced (codes "{{") (many1 is_name_char) (codes "}}"))
      (braced (codes "{") single_name (codes "}"))

-- `VALUE_TOKEN_PATTERN`
unfoldable pub value_token_pattern : Scanner
unfolding alt braced lit
value_token_pattern =
    alt (braced (codes "{{") (lit (codes "value")) (codes "}}"))
      (braced (codes "{") (lit (codes "value")) (codes "}"))

abbrev is_open : ℕ → Bool
is_open c = c == b'{'

abbrev is_close : ℕ → Bool
is_close c = c == b'}'

-- `/^\{+/`, replaced by nothing
unfoldable pub strip_open : Text → Text
strip_open [] = []
strip_open (c ∷ s) = if is_open c then strip_open s else c ∷ s

-- `/\}+$/`, replaced by nothing
unfoldable pub strip_close : Text → Text
strip_close [] = []
strip_close (c ∷ s) =
    let rest = strip_close s in if is_close c && is_empty rest then [] else c ∷ rest

unfoldable pub unwrap_token : Text → Text
unfolding strip_open strip_close trim
unwrap_token raw = trim (strip_close (strip_open raw))

-- `{{${name}}}`
abbrev pub canonical_token : Text → Text
canonical_token name = codes "{{" ++ (name ++ codes "}}")

unfoldable pub normalize_template : Text → Text
unfolding replace_all token_pattern unwrap_token
normalize_template template =
    replace_all token_pattern (λ m. canonical_token (unwrap_token m)) template

unfoldable pub has_token : Text → Bool
unfolding exec value_token_pattern
has_token template = is_some (exec value_token_pattern template)

unfoldable pub has_any_token : Text → Bool
unfolding exec token_pattern
has_any_token template = is_some (exec token_pattern template)

-- A match of the whole text, white space around it included.
unfoldable pub is_bare_token : Text → Bool
unfolding value_token_pattern trim_start
is_bare_token template = elim (value_token_pattern (trim_start template)) [
  | none ↦ false
  | some (m, r) ↦ is_empty (trim_start r)
]

unfoldable pub canonical_values : Text → Text
unfolding replace_all value_token_pattern
canonical_values template = replace_all value_token_pattern (λ m. value_token) template

-- `norm[at - 1] === '"' && norm[at + VALUE_TOKEN.length] === '"'`, from the text before the token
-- and the text behind it.
unfoldable pub ends_quoted : Text → Bool
ends_quoted [] = false
ends_quoted (c ∷ []) = c == b'"'
ends_quoted (c ∷ d ∷ s) = ends_quoted (d ∷ s)

abbrev pub starts_quoted : Text → Bool
starts_quoted [] = false
starts_quoted (c ∷ s) = c == b'"'

unfoldable pub is_token_quoted : Text → Bool
unfolding canonical_values exec lit ends_quoted
is_token_quoted template = elim (exec (lit value_token) (canonical_values template)) [
  | none ↦ false
  | some (b, m, r) ↦ ends_quoted b && starts_quoted r
]

unfoldable pub clear_token : Text → Text → Text
unfolding is_bare_token replace_all value_token_pattern
clear_token template restore =
    if is_bare_token template then [] else replace_all value_token_pattern (λ m. restore) template

unfoldable pub describe_template : Text → Text
unfolding replace_all value_token_pattern
describe_template template = replace_all value_token_pattern (λ m. token_label) template
