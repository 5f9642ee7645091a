-- ===== src/Template/Literals/Marked.antt =====
-- The literals that are found stand in the template, and marking one replaces it and nothing else.
use mqtt_dashboard.Prelude.{
  ℕ, zero, suc, ◌+◌, ◌-◌, ◌≡◌, refl, sym, ap, ap₂, subst, ◌∙◌, Bool, true, false, ◌&&◌, ◌||◌, List,
  [], ◌∷◌, ◌++◌, none, some, All, if◌then◌else◌, length, take-append, take, drop, Bool-cases,
  Option-cases, inl, inr, arith, append_assoc, length-append,
}
use mqtt_dashboard.Prelude.Text.{
  Text, codes, is_empty, is_space, starts_with, strip_prefix, strip_prefix_self, trim, trim_start,
  trim_end,
}
use mqtt_dashboard.Prelude.Slice.{slice, drop-pieces}
use mqtt_dashboard.Scan.{lit, exec, alt}
use mqtt_dashboard.Scan.Laws.{
  Splits, lit-Splits, many-Splits, many1-Splits, seq-Splits, alt-Splits, opt-Splits, exec-append,
  exec-none,
}
use mqtt_dashboard.Template.{has_token}
use mqtt_dashboard.Template.Literals.{
  TemplateLiteral, quote, word, quoted_text, number, literal_at, add_literal, literals_from,
  is_structured, index_of, bare_word, find_literals, token_for, mark_literal,
}

word-Splits : Splits word
unfolding word
word-Splits s m r h =
    elim (Option-cases
      (alt (lit (codes "true")) (alt (lit (codes "false")) (lit (codes "null"))) s)) [
        | inl e ↦ ground arith
        | inr ((m', r'), e) ↦ ground (
          arith,
          alt-Splits (lit-Splits (codes "true"))
              (alt-Splits (lit-Splits (codes "false")) (lit-Splits (codes "null"))) s m' r' e,
        )
      ]

outside-Splits : (inside : Bool) → Splits (λ s. if inside then none else word s)
outside-Splits true s m r h = ground arith
outside-Splits false s m r h = word-Splits s m r h

literal_at-Splits : (inside : Bool) → Splits (literal_at inside)
unfolding literal_at quoted_text number
literal_at-Splits inside =
    alt-Splits
      (seq-Splits (lit-Splits (quote ∷ [])) (seq-Splits (many-Splits _) (lit-Splits (quote ∷ []))))
      (alt-Splits (outside-Splits inside) (
        seq-Splits (opt-Splits (lit-Splits (codes "-"))) (
          seq-Splits (many1-Splits _)
            (opt-Splits (seq-Splits (lit-Splits (codes ".")) (many1-Splits _))))))

-- The literal is the text between its offsets.
abbrev IsCut : Text → TemplateLiteral → Type 0
IsCut template l =
    (b : Text) × (a : Text) × (template ≡ b ++ (l.text ++ a))
    × (l.start ≡ length b)
    × (l.end ≡ length b + length l.text)

All-snoc :
    (P : TemplateLiteral → Type 0) (ls : List TemplateLiteral) (l : TemplateLiteral)
    → All P ls
    → P l
    → All P (ls ++ l ∷ [])
All-snoc P [] l a p = (p, tt)
All-snoc P (k ∷ ls) l a p = (a.0, All-snoc P ls l a.1 p)

either :
    (P : List TemplateLiteral → Type 0) (stop : Bool) (out more : List TemplateLiteral)
    → P out
    → P more
    → P (if stop then out else more)
either P true out more p q = p
either P false out more p q = q

add_literal-IsCut :
    (limit : ℕ) (template b m r : Text) (at : ℕ) (out : List TemplateLiteral)
    → template ≡ b ++ (m ++ r)
    → at ≡ length b
    → All (IsCut template) out
    → All (IsCut template) (add_literal limit template at m r out)
unfolding add_literal
add_literal-IsCut limit template b m r at out e n a =
    either (All (IsCut template)) _ out _ a
      (All-snoc (IsCut template) out _ a (b, r, e, n, ap (λ k. k + length m) n))

one_further : (b : Text) (c : ℕ) (s : Text) → b ++ c ∷ s ≡ (b ++ c ∷ []) ++ s
one_further b c s = sym (append_assoc b (c ∷ []) s)

literals_from-IsCut :
    (limit : ℕ) (template s b : Text) (at skip : ℕ) (inside : Bool) (out : List TemplateLiteral)
    → template ≡ b ++ s
    → at ≡ length b
    → All (IsCut template) out
    → All (IsCut template) (literals_from limit template s at skip inside out)
unfolding literals_from
literals_from-IsCut limit template [] b at skip inside out e n a = a
literals_from-IsCut limit template (c ∷ s) b at (suc skip) inside out e n a =
    literals_from-IsCut limit template s (b ++ c ∷ []) (at + 1) skip _ out (e ∙ one_further b c s)
      (omega (arith, length-append b (c ∷ []))) a
literals_from-IsCut limit template (c ∷ s) b at zero inside out e n a =
    elim (Option-cases (literal_at inside (c ∷ s))) [
      | inl k ↦
          rw (k, literals_from)
            (literals_from-IsCut limit template s (b ++ c ∷ []) (at + 1) zero _ out
              (e ∙ one_further b c s) (omega (arith, length-append b (c ∷ []))) a)
      | inr ((m, r), k) ↦
          rw (k, literals_from)
            (literals_from-IsCut limit template s (b ++ c ∷ []) (at + 1) (length m - 1) _
              (add_literal limit template at m r out) (e ∙ one_further b c s)
              (omega (arith, length-append b (c ∷ [])))
              (add_literal-IsCut limit template b m r at out
                (e ∙ ap (λ t. b ++ t) (literal_at-Splits inside (c ∷ s) m r k)) n a))
    ]

trim_start-append : (s : Text) → (u : Text) × (s ≡ u ++ trim_start s)
unfolding trim_start
trim_start-append [] = ([], refl)
trim_start-append (c ∷ s) = elim (Bool-cases (is_space c)) [
  | inl e ↦ let (u, h) = trim_start-append s in rw e ((c ∷ u, ap (λ t. c ∷ t) h))
  | inr e ↦ rw e (([], refl))
]

trim_end-append : (s : Text) → (v : Text) × (s ≡ trim_end s ++ v)
unfolding trim_end
trim_end-append [] = ([], refl)
trim_end-append (c ∷ s) = elim (Bool-cases (is_space c && is_empty (trim_end s))) [
  | inl e ↦ rw e ((c ∷ s, refl))
  | inr e ↦ let (v, h) = trim_end-append s in rw e ((v, ap (λ t. c ∷ t) h))
]

trim-append : (s : Text) → (u : Text) × (v : Text) × (s ≡ u ++ (trim s ++ v))
unfolding trim
trim-append s =
    let (u, h) = trim_start-append s in
    let (v, k) = trim_end-append (trim_start s) in (u, v, h ∙ ap (λ t. u ++ t) k)

lit_self : (p v : Text) → lit p (p ++ v) ≡ some (p, v)
unfolding lit
lit_self p v = rw (strip_prefix_self p v) refl

exec-head :
    (p s : Text) {A : Type 0} (x : Text × Text) → lit p s ≡ some x → exec (lit p) s ≡ none → A
unfolding exec
exec-head p [] x e h = clash (rw (e, exec) at h)
  where
    clash : {B : Type 0} {x : Text × Text × Text} → some x ≡ none → B
    clash h = cc
exec-head p (c ∷ s) x e h = clash (sym e ∙ (exec-none (lit p) c s h).0)
  where
    clash : {B : Type 0} {x : Text × Text} → some x ≡ none → B
    clash h = cc

exec-lit : (p u v : Text) {A : Type 0} → exec (lit p) (u ++ (p ++ v)) ≡ none → A
exec-lit p [] v h = exec-head p (p ++ v) (p, v) (lit_self p v) h
exec-lit p (c ∷ u) v h = exec-lit p u v (exec-none (lit p) c (u ++ (p ++ v)) h).1

lit-match : (p s m r : Text) → lit p s ≡ some (m, r) → m ≡ p
unfolding lit
lit-match p s m r h = elim (Option-cases (strip_prefix p s)) [
  | inl e ↦ ground arith
  | inr (x, e) ↦ ground arith
]

exec-match : (p s b m r : Text) → exec (lit p) s ≡ some (b, m, r) → m ≡ p
unfolding exec
exec-match p [] b m r h = elim (Option-cases (lit p [])) [
  | inl e ↦ ground arith
  | inr ((m', r'), e) ↦ ground (arith, lit-match p [] m' r' e)
]
exec-match p (c ∷ s) b m r h = elim (Option-cases (lit p (c ∷ s))) [
  | inr ((m', r'), e) ↦ ground (arith, lit-match p (c ∷ s) m' r' e)
  | inl e ↦ elim (Option-cases (exec (lit p) s)) [
    | inl k ↦ ground arith
    | inr ((b', m', r'), k) ↦ ground (arith, exec-match p s b' m' r' k)
  ]
]

trimmed-IsCut :
    (template : Text)
    → IsCut template (record {
      text = trim template;
      start = index_of (trim template) template;
      end = index_of (trim template) template + length (trim template);
      key = none;
    })
trimmed-IsCut template = elim (Option-cases (exec (lit (trim template)) template)) [
  | inl e ↦
      let (u, v, h) = trim-append template in
      exec-lit (trim template) u v (subst (λ t. exec (lit (trim template)) t ≡ none) h e)
  | inr ((b, m, r), e) ↦
      rw (e, index_of)
        ((
          b,
          r,
          exec-append (lit-Splits (trim template)) template b m r e
              ∙ ap (λ t. b ++ (t ++ r)) (exec-match (trim template) template b m r e),
          refl,
          refl,
        ))
]

bare_word-IsCut : (template : Text) → All (IsCut template) (bare_word template)
bare_word-IsCut template =
    either (All (IsCut template))
      (is_empty (trim template) || has_token template || is_structured (trim template)) [] _ tt
      (trimmed-IsCut template, tt)

find_literals-IsCut :
    (template : Text) (limit : ℕ) → All (IsCut template) (find_literals template limit)
unfolding find_literals
find_literals-IsCut template limit =
    or_bare (literals_from limit template template 0 0 false [])
      (literals_from-IsCut limit template template [] 0 0 false [] refl refl tt)
  where
    or_bare :
        (ls : List TemplateLiteral)
        → All (IsCut template) ls
        → All (IsCut template) (elim ls [ [] ↦ bare_word template | l ∷ ls' ↦ l ∷ ls' ])
    or_bare [] a = bare_word-IsCut template
    or_bare (l ∷ ls) a = a

-- A literal that is cut out of the template is replaced.
abbrev pub IsMarked : Text → TemplateLiteral → Type 0
IsMarked template l =
    (b : Text) × (a : Text) × (template ≡ b ++ (l.text ++ a))
    × ((mark_literal template l).template ≡ b ++ (token_for (starts_with (quote ∷ []) l.text) ++ a))

mark_literal-IsMarked :
    (template : Text) (l : TemplateLiteral) → IsCut template l → IsMarked template l
unfolding mark_literal
mark_literal-IsMarked template l (b, a, e, n, k) = (
  b,
  a,
  e,
  ap (λ t. slice t 0 l.start ++ (token_for (starts_with (quote ∷ []) l.text) ++ drop l.end t)) e
      ∙ ap₂
          (λ i j.
            slice (b ++ (l.text ++ a)) 0 i
            ++ (token_for (starts_with (quote ∷ []) l.text) ++ drop j (b ++ (l.text ++ a))))
          n k
      ∙ ap₂ (λ t u. t ++ (token_for (starts_with (quote ∷ []) l.text) ++ u))
          (ap (λ i. take i (b ++ (l.text ++ a))) (omega arith) ∙ take-append b (l.text ++ a))
          (drop-pieces b l.text a),
)

-- Each literal that is found is a piece of the template, and marking it replaces this piece, with
-- its quotes if it has any, by the token and changes nothing before it or behind it.
pub find_literals-mark_literal :
    (template : Text) (limit : ℕ) → All (IsMarked template) (find_literals template limit)
find_literals-mark_literal template limit =
    each (find_literals template limit) (find_literals-IsCut template limit)
  where
    each : (ls : List TemplateLiteral) → All (IsCut template) ls → All (IsMarked template) ls
    each [] a = tt
    each (l ∷ ls) a = (mark_literal-IsMarked template l a.0, each ls a.1)
