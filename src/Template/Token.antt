-- ===== src/Template/Token.antt =====
-- The token patterns split their text and match nothing empty.
use mqtt_dashboard.Prelude.{ℕ, ◌≡◌, [], ◌∷◌, some, arith, length-append, Option-cases, inl, inr}
use mqtt_dashboard.Prelude.Text.{Text, codes, is_space, strip_prefix}
use mqtt_dashboard.Scan.{Scanner, lit, many1, seq, alt, exec}
use mqtt_dashboard.Scan.Laws.{
  Splits, IsNonEmpty, lit-Splits, many-Splits, many1-Splits, seq-Splits, alt-Splits, opt-Splits,
}
use mqtt_dashboard.Template.{
  braced, single_name, token_pattern, value_token_pattern, is_digit, is_name_char, value_token,
}

braced-Splits :
    (open_brace close_brace : Text) {name : Scanner}
    → Splits name
    → Splits (braced open_brace name close_brace)
unfolding braced
braced-Splits open_brace close_brace h = seq-Splits (lit-Splits open_brace) (
    seq-Splits (many-Splits is_space)
      (seq-Splits h (seq-Splits (many-Splits is_space) (lit-Splits close_brace))))

single_name-Splits : Splits single_name
unfolding single_name
single_name-Splits =
    alt-Splits
      (seq-Splits (lit-Splits (codes "value")) (
        opt-Splits (
          seq-Splits (lit-Splits (codes ":"))
            (seq-Splits (many-Splits is_space) (many1-Splits is_digit)))))
      (alt-Splits (lit-Splits (codes "topic")) (
        alt-Splits (lit-Splits (codes "payload")) (
          alt-Splits
            (seq-Splits (lit-Splits (codes "timestamp"))
              (opt-Splits (alt-Splits (lit-Splits (codes ":ms")) (lit-Splits (codes ":iso")))))
            (lit-Splits (codes "iso_timestamp")))))

pub token_pattern-Splits : Splits token_pattern
unfolding token_pattern
token_pattern-Splits =
    alt-Splits (braced-Splits (codes "{{") (codes "}}") (many1-Splits is_name_char))
      (braced-Splits (codes "{") (codes "}") single_name-Splits)

pub value_token_pattern-Splits : Splits value_token_pattern
unfolding value_token_pattern
value_token_pattern-Splits =
    alt-Splits (braced-Splits (codes "{{") (codes "}}") (lit-Splits (codes "value")))
      (braced-Splits (codes "{") (codes "}") (lit-Splits (codes "value")))

lit-IsNonEmpty : (c : ℕ) (p : Text) → IsNonEmpty (lit (c ∷ p))
unfolding lit
lit-IsNonEmpty c p s m r h = elim (Option-cases (strip_prefix (c ∷ p) s)) [
  | inl e ↦ ground arith
  | inr (x, e) ↦ ground arith
]

seq-IsNonEmpty : {p : Scanner} (q : Scanner) → IsNonEmpty p → IsNonEmpty (seq p q)
unfolding seq
seq-IsNonEmpty {p} q hp s m r h = elim (Option-cases (p s)) [
  | inl e ↦ ground arith
  | inr ((a, u), e) ↦ elim (Option-cases (q u)) [
    | inl e' ↦ ground arith
    | inr ((b, v), e') ↦ ground (arith, hp s a u e, length-append a b)
  ]
]

alt-IsNonEmpty : {p q : Scanner} → IsNonEmpty p → IsNonEmpty q → IsNonEmpty (alt p q)
unfolding alt
alt-IsNonEmpty {p} {q} hp hq s m r h = ground (arith, hp s m r, hq s m r)

braced-IsNonEmpty :
    (c : ℕ) (p close_brace : Text) (name : Scanner) → IsNonEmpty (braced (c ∷ p) name close_brace)
unfolding braced
braced-IsNonEmpty c p close_brace name = seq-IsNonEmpty _ (lit-IsNonEmpty c p)

pub token_pattern-IsNonEmpty : IsNonEmpty token_pattern
unfolding token_pattern
token_pattern-IsNonEmpty =
    alt-IsNonEmpty (braced-IsNonEmpty b'{' (codes "{") (codes "}}") (many1 is_name_char))
      (braced-IsNonEmpty b'{' [] (codes "}") single_name)

pub value_token_pattern-IsNonEmpty : IsNonEmpty value_token_pattern
unfolding value_token_pattern
value_token_pattern-IsNonEmpty =
    alt-IsNonEmpty (braced-IsNonEmpty b'{' (codes "{") (codes "}}") (lit (codes "value")))
      (braced-IsNonEmpty b'{' [] (codes "}") (lit (codes "value")))

pub value_token-Splits : Splits (lit value_token)
value_token-Splits = lit-Splits value_token

pub value_token-IsNonEmpty : IsNonEmpty (lit value_token)
value_token-IsNonEmpty = lit-IsNonEmpty _ _

lit-match : (p s m r : Text) → lit p s ≡ some (m, r) → m ≡ p
unfolding lit
lit-match p s m r h = elim (Option-cases (strip_prefix p s)) [
  | inl e ↦ ground arith
  | inr (x, e) ↦ ground arith
]

-- The match is the token itself.
pub value_token-exec :
    (s b m r : Text) → exec (lit value_token) s ≡ some (b, m, r) → m ≡ value_token
unfolding exec
value_token-exec [] b m r h = lit-match value_token [] m r (ground arith)
value_token-exec (c ∷ s) b m r h = elim (Option-cases (lit value_token (c ∷ s))) [
  | inr ((m', r'), e) ↦ lit-match value_token (c ∷ s) m r (ground arith)
  | inl e ↦ elim (Option-cases (exec (lit value_token) s)) [
    | inl e' ↦ ground arith
    | inr ((b', m', r'), e') ↦ ground (arith, value_token-exec s b' m' r' e')
  ]
]
