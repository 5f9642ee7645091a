-- ===== src/Scan/Laws.antt =====
-- A scanner splits its text, its matches are not empty, and the loops over them end.
use mqtt_dashboard.Prelude.{
  ℕ, zero, suc, ◌+◌, ◌<◌, ◌≡◌, refl, sym, ap, ◌∙◌, Bool, [], ◌∷◌, ◌++◌, none, some, length, arith,
  inl, inr, append_assoc, Option-cases, length-append,
}
use mqtt_dashboard.Prelude.Text.{Text, strip_prefix, strip_prefix-append}
use mqtt_dashboard.Scan.{Scanner, lit, many, many1, seq, alt, opt, exec, replace}

abbrev pub Splits : Scanner → Type 0
Splits p = (s m r : Text) → p s ≡ some (m, r) → s ≡ m ++ r

abbrev pub IsNonEmpty : Scanner → Type 0
IsNonEmpty p = (s m r : Text) → p s ≡ some (m, r) → 0 < length m

pub lit-Splits : (p : Text) → Splits (lit p)
unfolding lit
lit-Splits p s m r h = elim (Option-cases (strip_prefix p s)) [
  | inl e ↦ ground arith
  | inr (x, e) ↦ ground (arith, strip_prefix-append p s x e)
]

pub many-Splits : (p : ℕ → Bool) → Splits (many p)
unfolding many
many-Splits p [] m r h = ground arith
many-Splits p (c ∷ s) m r h = elim (Option-cases (many p s)) [
  | inl e ↦ ground arith
  | inr ((m', r'), e) ↦ ground (arith, many-Splits p s m' r' e)
]

pub many1-Splits : (p : ℕ → Bool) → Splits (many1 p)
unfolding many1
many1-Splits p [] m r h = ground arith
many1-Splits p (c ∷ s) m r h = many-Splits p (c ∷ s) m r (ground arith)

pub seq-Splits : {p q : Scanner} → Splits p → Splits q → Splits (seq p q)
unfolding seq
seq-Splits {p} {q} hp hq s m r h = elim (Option-cases (p s)) [
  | inl e ↦ ground arith
  | inr ((a, u), e) ↦ elim (Option-cases (q u)) [
    | inl e' ↦ ground arith
    | inr ((b, v), e') ↦ ground (arith, hp s a u e, hq u b v e', append_assoc a b v)
  ]
]

pub alt-Splits : {p q : Scanner} → Splits p → Splits q → Splits (alt p q)
unfolding alt
alt-Splits {p} {q} hp hq s m r h = ground (arith, hp s m r, hq s m r)

pub opt-Splits : {p : Scanner} → Splits p → Splits (opt p)
unfolding opt
opt-Splits {p} hp s m r h = ground (arith, hp s m r)

pub exec-append :
    {p : Scanner} → Splits p → (s b m r : Text) → exec p s ≡ some (b, m, r) → s ≡ b ++ (m ++ r)
unfolding exec
exec-append {p} hp [] b m r h = ground (arith, hp [] m r)
exec-append {p} hp (c ∷ s) b m r h = elim (Option-cases (p (c ∷ s))) [
  | inr ((m', r'), e) ↦ ground (arith, hp (c ∷ s) m' r' e)
  | inl e ↦ elim (Option-cases (exec p s)) [
    | inl e' ↦ ground arith
    | inr ((b', m', r'), e') ↦ ground (arith, exec-append hp s b' m' r' e')
  ]
]

pub exec-IsNonEmpty :
    {p : Scanner} → IsNonEmpty p → (s b m r : Text) → exec p s ≡ some (b, m, r) → 0 < length m
unfolding exec
exec-IsNonEmpty {p} hp [] b m r h = hp [] m r (ground arith)
exec-IsNonEmpty {p} hp (c ∷ s) b m r h = elim (Option-cases (p (c ∷ s))) [
  | inr ((m', r'), e) ↦ hp (c ∷ s) m r (ground arith)
  | inl e ↦ elim (Option-cases (exec p s)) [
    | inl e' ↦ ground arith
    | inr ((b', m', r'), e') ↦ ground (arith, exec-IsNonEmpty hp s b' m' r' e')
  ]
]

-- What stands behind a match is shorter than the text.
pub exec-length :
    {p : Scanner}
    → Splits p
    → IsNonEmpty p
    → (s b m r : Text) → exec p s ≡ some (b, m, r)
    → (length s ≡ length b + length m + length r) × (0 < length m)
exec-length hp ne s b m r h =
    let e = ap length (exec-append hp s b m r h) in
    (omega (arith, e, length-append b (m ++ r), length-append m r), exec-IsNonEmpty ne s b m r h)

pub exec-none :
    (p : Scanner) (c : ℕ) (s : Text)
    → exec p (c ∷ s) ≡ none
    → (p (c ∷ s) ≡ none) × (exec p s ≡ none)
unfolding exec
exec-none p c s h = ground arith

pub replace-none :
    (fuel : ℕ) (p : Scanner) (g : Text → Text) (s : Text) → exec p s ≡ none → replace fuel p g s ≡ s
unfolding replace
replace-none zero p g s h = refl
replace-none (suc fuel) p g s h = rw (h, replace)

pub replace-some :
    (fuel : ℕ) (p : Scanner) (g : Text → Text) (s : Text) {b m r : Text}
    → exec p s ≡ some (b, m, r)
    → replace (suc fuel) p g s ≡ b ++ (g m ++ replace fuel p g r)
unfolding replace
replace-some fuel p g s h = rw (h, replace)

-- Putting every match back where it was changes nothing.
pub replace-id : {p : Scanner} → Splits p → (fuel : ℕ) (s : Text) → replace fuel p (λ m. m) s ≡ s
replace-id h zero s = unfold replace in refl
replace-id {p} h (suc fuel) s = elim (Option-cases (exec p s)) [
  | inl e ↦ replace-none (suc fuel) p _ s e
  | inr ((b, m, r), e) ↦
      replace-some fuel p _ s e
      ∙ ap (λ t. b ++ (m ++ t)) (replace-id h fuel r)
      ∙ sym (exec-append h s b m r e)
]
