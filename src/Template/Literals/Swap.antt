-- ===== src/Template/Literals/Swap.antt =====
-- `swapOrMarkLiteral` of payloadShape.ts: the token moves onto a literal, and what it covered comes
-- back.
use mqtt_dashboard.Prelude.{
  ℕ, zero, suc, ◌+◌, ◌-◌, Bool, true, false, ◌&&◌, List, [], ◌∷◌, ◌++◌, none, some, if◌then◌else◌,
  length, ◌==◌, ltb, leb, get_elem?, drop,
}
use mqtt_dashboard.Prelude.Text.{Text, codes, is_empty, starts_with, strip_prefix}
use mqtt_dashboard.Prelude.Slice.{slice}
use mqtt_dashboard.Template.{value_token_pattern}
use mqtt_dashboard.Template.Literals.{TemplateLiteral, quote, token_for, unquoted}

pub record TokenPlace : Type 0 where
  pub start : ℕ
  pub end : ℕ
  pub quoted : Bool

abbrev pub is_quote_at : Text → ℕ → Bool
is_quote_at template i = elim (get_elem? template i) [ none ↦ false | some c ↦ c == quote ]

-- A token with a quote before it and behind it.
abbrev pub is_between_quotes : Text → ℕ → ℕ → Bool
is_between_quotes template start end =
    ltb 0 start
    && ltb end (length template)
    && is_quote_at template (start - 1)
    && is_quote_at template end

-- The loop over the value tokens, with the characters of the last one that are left.
unfoldable pub token_places : Text → Text → ℕ → ℕ → List TokenPlace
unfolding value_token_pattern
token_places template [] at skip = []
token_places template (c ∷ s) at (suc skip) = token_places template s (at + 1) skip
token_places template (c ∷ s) at zero = elim (value_token_pattern (c ∷ s)) [
  | none ↦ token_places template s (at + 1) zero
  | some (m, r) ↦
      record {
        start = at;
        end = at + length m;
        quoted = is_between_quotes template at (at + length m);
      }
      ∷ token_places template s (at + 1) (length m - 1)
]

pub record Replacement : Type 0 where
  pub start : ℕ
  pub end : ℕ
  pub text : Text
  pub is_target : Bool

-- What stands for a token that goes; `cover` is `covered || fallbackValue` for the first one.
abbrev pub restored : Text → TokenPlace → Text
restored cover t = if is_empty cover then (if t.quoted then [] else codes "0") else cover

unfoldable pub replacements : Text → List TokenPlace → List Replacement
replacements cover [] = []
replacements cover (t ∷ ts) =
    record { start = t.start; end = t.end; text = restored cover t; is_target = false }
    ∷ replacements [] ts

unfoldable pub insert_replacement : Replacement → List Replacement → List Replacement
insert_replacement r [] = r ∷ []
insert_replacement r (q ∷ qs) =
    let rest = insert_replacement r qs in if leb r.start q.start then r ∷ q ∷ qs else q ∷ rest

-- `replacements.sort((a, b) => a.start - b.start)`, which is stable.
unfoldable pub sort_replacements : List Replacement → List Replacement
unfolding insert_replacement
sort_replacements [] = []
sort_replacements (r ∷ rs) = insert_replacement r (sort_replacements rs)

pub record Swapped : Type 0 where
  pub template : Text
  pub previous : Text
  pub caret : ℕ

-- The loop that puts the result together: the text and the caret so far.
unfoldable pub splice : Text → List Replacement → Text → ℕ → ℕ → Text × ℕ
splice template [] result last_index caret = (result ++ drop last_index template, caret)
splice template (r ∷ rs) result last_index caret =
    let before = result ++ slice template last_index r.start in
    splice template rs (before ++ r.text) r.end
      (if r.is_target then length before + length r.text else caret)

abbrev pub is_quoted_literal : Text → Bool
is_quoted_literal t = starts_with (quote ∷ []) t && is_quote_at t (length t - 1)

-- `covered || fallbackValue`, empty where both are missing
unfoldable pub swap_or_mark_literal : Text → TemplateLiteral → Text → Text → Swapped
unfolding token_places replacements sort_replacements splice strip_prefix
swap_or_mark_literal template literal covered fallback_value =
    let quoted = is_quoted_literal literal.text in
    let cover = if is_empty covered then fallback_value else covered in
    elim (token_places template template 0 0) [
      | [] ↦ record {
        template =
            slice template 0 literal.start ++ (token_for quoted ++ drop literal.end template);
        previous = unquoted quoted literal.text;
        caret = literal.start + length (token_for quoted);
      }
      | t ∷ ts ↦
          let target : Replacement = record {
            start = literal.start;
            end = literal.end;
            text = token_for quoted;
            is_target = true;
          } in
          let spliced =
            splice template (sort_replacements (replacements cover (t ∷ ts) ++ target ∷ [])) [] 0
              0 in
          record {
            template = spliced.0;
            previous = unquoted quoted literal.text;
            caret = spliced.1;
          }
    ]
