-- ===== src/Template/Literals.antt =====
-- The literals that the token can be moved onto: `findLiterals`, `markLiteral` and
-- `swapOrMarkLiteral` of payloadShape.ts.
pub mod Marked
pub mod Swap
use mqtt_dashboard.Prelude.{
  ℕ, zero, suc, ◌+◌, ◌-◌, Bool, true, false, not, ◌&&◌, ◌||◌, List, [], ◌∷◌, ◌++◌, Option, none,
  some, map, any, if◌then◌else◌, length, ◌==◌, ltb, leb, get_elem?, drop, or_default,
}
use mqtt_dashboard.Prelude.Text.{
  Text, codes, eq_text, includes, is_empty, is_space, starts_with, strip_prefix, trim,
}
use mqtt_dashboard.Prelude.Slice.{slice}
use mqtt_dashboard.Scan.{Scanner, lit, many, many1, seq, alt, opt, exec}
use mqtt_dashboard.Template.{value_token, value_token_pattern, has_token, is_digit}

pub record TemplateLiteral : Type 0 where
  pub text : Text
  pub start : ℕ
  pub end : ℕ
  pub key : Option Text

abbrev pub quote : ℕ
quote = b'"'

abbrev is_letter_or_digit : ℕ → Bool
is_letter_or_digit c =
    leb b'a' c && leb c b'z' || leb b'A' c && leb c b'Z' || is_digit c || c == b'_'

-- Whether a character of a word stands at the front.
abbrev pub starts_word : Text → Bool
starts_word [] = false
starts_word (c ∷ s) = is_letter_or_digit c

-- `(?:true|false|null)\b`
unfoldable pub word : Scanner
unfolding alt lit
word s = elim (alt (lit (codes "true")) (alt (lit (codes "false")) (lit (codes "null"))) s) [
  | none ↦ none
  | some (m, r) ↦ if starts_word r then none else some (m, r)
]

unfoldable pub quoted_text : Scanner
unfolding seq lit many
quoted_text = seq (lit (quote ∷ [])) (seq (many (λ c. not (c == quote))) (lit (quote ∷ [])))

unfoldable pub number : Scanner
unfolding seq opt lit many1
number =
    seq (opt (lit (codes "-")))
      (seq (many1 is_digit) (opt (seq (lit (codes ".")) (many1 is_digit))))

-- The pattern of `findLiterals` at a place; `inside` says whether a character of a word stands
-- before it.
unfoldable pub literal_at : Bool → Scanner
unfolding alt quoted_text word number
literal_at inside = alt quoted_text (alt (λ s. if inside then none else word s) number)

-- `/^\s*:/`
unfoldable pub colon_next : Text → Bool
unfolding is_space
colon_next [] = false
colon_next (c ∷ s) = c == b':' || is_space c && colon_next s

-- The characters that end a word: `[\s"',{}[\]]`.
abbrev pub is_stop : ℕ → Bool
is_stop c =
    is_space c
    || c == quote
    || c == b'\''
    || c == b','
    || c == b'{'
    || c == b'}'
    || c == b'['
    || c == b']'

-- `/^[^\s"',{}[\]]*\s*:/`, where the word may give back characters behind a colon in it.
unfoldable pub names_field : Text → Bool
unfolding colon_next is_space
names_field [] = false
names_field (c ∷ s) = colon_next (c ∷ s) || not (is_stop c) && names_field s

abbrev pub is_key_char : ℕ → Bool
is_key_char c = is_letter_or_digit c || c == b'$' || c == b'-'

abbrev pub backwards : Text → Text → Text
backwards acc [] = acc
backwards acc (c ∷ s) = backwards (c ∷ acc) s

abbrev pub behind_spaces : Text → Text
behind_spaces [] = []
behind_spaces (c ∷ s) = if is_space c then behind_spaces s else c ∷ s

abbrev pub without_quote : Text → Text
without_quote [] = []
without_quote (c ∷ s) = if c == quote || c == b'\'' then s else c ∷ s

-- `/["']?([a-zA-Z0-9_$-]+)["']?\s*:\s*$/`, read from the end of the text, and its group.
unfoldable pub enclosing_key : Text → Option Text
unfolding is_space many1
enclosing_key preceding = elim (behind_spaces (backwards [] preceding)) [
  | [] ↦ none
  | c ∷ s ↦
      if c == b':'
      then elim (many1 is_key_char (without_quote (behind_spaces s))) [
        | none ↦ none
        | some (m, r) ↦ some (backwards [] m)
      ]
      else none
]

-- What a match adds to the literals found so far.
unfoldable pub add_literal :
    ℕ → Text → ℕ → Text → Text → List TemplateLiteral → List TemplateLiteral
unfolding names_field includes eq_text enclosing_key
add_literal limit template at m r out =
    if not (ltb (length out) limit)
      || names_field r
      || any (λ l. eq_text l.text m) out
      || includes value_token m
      || includes (codes "{value}") m
    then out
    else out
      ++ record {
        text = m;
        start = at;
        end = at + length m;
        key = enclosing_key (slice template 0 at);
      }
        ∷ []

-- The loop over the matches: `skip` characters belong to the last match still, and the text begins
-- at `at`.
unfoldable pub literals_from :
    ℕ → Text → Text → ℕ → ℕ → Bool → List TemplateLiteral → List TemplateLiteral
unfolding literal_at add_literal
literals_from limit template [] at skip inside out = out
literals_from limit template (c ∷ s) at (suc skip) inside out =
    literals_from limit template s (at + 1) skip (is_letter_or_digit c) out
literals_from limit template (c ∷ s) at zero inside out = elim (literal_at inside (c ∷ s)) [
  | none ↦ literals_from limit template s (at + 1) zero (is_letter_or_digit c) out
  | some (m, r) ↦
      literals_from limit template s (at + 1) (length m - 1) (is_letter_or_digit c)
        (add_literal limit template at m r out)
]

abbrev pub is_structured : Text → Bool
is_structured t =
    any (λ c. c == b'{' || c == b'}' || c == b'[' || c == b']' || c == b':' || c == b',') t

-- `template.indexOf(trimmed)`
abbrev pub index_of : Text → Text → ℕ
index_of t template = elim (exec (lit t) template) [ none ↦ 0 | some (b, m, r) ↦ length b ]

abbrev pub bare_word : Text → List TemplateLiteral
bare_word template =
    let trimmed = trim template in
    if is_empty trimmed || has_token template || is_structured trimmed
    then []
    else record {
      text = trimmed;
      start = index_of trimmed template;
      end = index_of trimmed template + length trimmed;
      key = none;
    }
      ∷ []

unfoldable pub find_literals : Text → ℕ → List TemplateLiteral
unfolding literals_from trim has_token exec lit
find_literals template limit = elim (literals_from limit template template 0 0 false []) [
  | [] ↦ bare_word template
  | l ∷ ls ↦ l ∷ ls
]

-- What is put in place of the literal.
abbrev pub token_for : Bool → Text
token_for quoted = if quoted then quote ∷ value_token ++ quote ∷ [] else value_token

abbrev pub unquoted : Bool → Text → Text
unquoted quoted text = if quoted then slice text 1 (length text - 1) else text

pub record MarkedLiteral : Type 0 where
  pub template : Text
  pub previous : Text

unfoldable pub mark_literal : Text → TemplateLiteral → MarkedLiteral
unfolding strip_prefix
mark_literal template literal =
    let quoted = starts_with (quote ∷ []) literal.text in
    record {
      template = slice template 0 literal.start ++ (token_for quoted ++ drop literal.end template);
      previous = unquoted quoted literal.text;
    }
