-- ===== src/Explorer/Highlight/Pieces.antt =====
-- The pieces of a search of frontend/src/components/explorer/TopicTree.tsx between its separators.
use mqtt_dashboard.Prelude.{
  ℕ, ◌≡◌, refl, sym, ap, subst, ◌∙◌, ◌⊎◌, inl, inr, ◌↔◌, Bool, true, false, not, ◌||◌, List, [],
  ◌∷◌, ◌++◌, any, filter, All, Bool-cases, arith,
}
use mqtt_dashboard.Prelude.Text.{Text, is_empty}
use mqtt_dashboard.Explorer.Highlight.{is_separator, split_where, tokens}

-- A slash or a wildcard.
abbrev pub IsSeparator : ℕ → Type 0
IsSeparator c = (c ≡ b'/') ⊎ (c ≡ b'+') ⊎ (c ≡ b'#') ⊎ (c ≡ b'*')

abbrev pub HasNone : Text → Type 0
HasNone t = All (λ c. ¬ IsSeparator c) t

-- `Piece q t`: the text `t`, without separators in it, stands in `q` between two separators, or
-- between one and the start or the end of `q`, or it is `q`.
pub data Piece : Text → Text → Type 0 where
  whole : {q : Text} → HasNone q → Piece q q
  front : {q t : Text} (c : ℕ) (s : Text) → q ≡ t ++ c ∷ s → HasNone t → IsSeparator c → Piece q t
  behind :
      {q t : Text} (a : Text) (c : ℕ) (s : Text)
      → q ≡ a ++ c ∷ s
      → IsSeparator c
      → Piece s t
      → Piece q t

is_separator_iff : (c : ℕ) → (is_separator c ≡ true) ↔ IsSeparator c
is_separator_iff c = ground arith

is_separator-false : (c : ℕ) → is_separator c ≡ false → ¬ IsSeparator c
is_separator-false c e s = ground (arith, is_separator_iff c)

is_separator_none : (c : ℕ) → ¬ IsSeparator c → is_separator c ≡ false
is_separator_none c n = ground (arith, is_separator_iff c)

-- What the first piece of a text is.
abbrev Begins : Text → Text → Type 0
Begins q h =
    ((q ≡ h) × HasNone h) ⊎ ((c : ℕ) × (s : Text) × (q ≡ h ++ c ∷ s) × HasNone h × IsSeparator c)

module _ (found : Text → Bool) where
  -- A piece that is found, and stands behind a separator.
  abbrev FoundBehind : Text → Type 0
  FoundBehind q =
      (a : Text) × (c : ℕ) × (s : Text) × (t : Text) × (q ≡ a ++ c ∷ s)
      × IsSeparator c
      × Piece s t
      × (found t ≡ true)

  abbrev pub FoundPiece : Text → Type 0
  FoundPiece q = (t : Text) × Piece q t × (found t ≡ true)

  abbrev Shape : Text → Type 0
  Shape q =
      (h : Text) × (r : List Text) × (split_where is_separator q ≡ h ∷ r)
      × Begins q h
      × (any found r ≡ true → FoundBehind q)

  begins_piece : (q h : Text) → Begins q h → Piece q h
  begins_piece q h (inl (e, n)) = subst (λ x. Piece x h) (sym e) (whole n)
  begins_piece q h (inr (c, s, e, n, i)) = front c s e n i

  shape_piece : (q : Text) → Shape q → any found (split_where is_separator q) ≡ true → FoundPiece q
  shape_piece q (h, r, e, b, later) k = elim (Bool-cases (found h)) [
    | inl f ↦ (h, begins_piece q h b, f)
    | inr f ↦ let (a, c, s, t, e', i, p, f') = later (rest e f k) in (t, behind a c s e' i p, f')
  ]
    where
      rest :
          {ps : List Text} {h : Text} {r : List Text}
          → ps ≡ h ∷ r
          → found h ≡ false
          → any found ps ≡ true
          → any found r ≡ true
      rest e f k = let n = rw (e, f) at k in n

  more : (c : ℕ) (q h : Text) → is_separator c ≡ false → Begins q h → Begins (c ∷ q) (c ∷ h)
  more c q h e (inl (e', n)) = inl ((ap (λ x. c ∷ x) e', (is_separator-false c e, n)))
  more c q h e (inr (d, s, e', n, i)) =
      inr ((d, s, ap (λ x. c ∷ x) e', (is_separator-false c e, n), i))

  shape : (q : Text) → Shape q
  unfolding split_where
  shape [] = ([], [], refl, inl ((refl, tt)), λ k. cc)
  shape (c ∷ s) = elim (Bool-cases (is_separator c)) [
    | inl e ↦ (
      [],
      split_where is_separator s,
      rw e refl,
      inr ((c, s, refl, tt, (is_separator_iff c).0 e)),
      λ k.
          let (t, p, f) = shape_piece s (shape s) k in
          ([], c, s, t, refl, (is_separator_iff c).0 e, p, f),
    )
    | inr e ↦
        let (h, r, e', b, later) = shape s in
        (
          c ∷ h,
          r,
          rw (e, e') refl,
          more c s h e b,
          λ k.
              let (a, d, s', t, e'', i, p, f) = later k in
              (c ∷ a, d, s', t, ap (λ x. c ∷ x) e'', i, p, f),
        )
  ]

split_where-whole : (q : Text) → HasNone q → split_where is_separator q ≡ q ∷ []
unfolding split_where
split_where-whole [] n = refl
split_where-whole (c ∷ q) n = rw (is_separator_none c n.0, split_where-whole q n.1) refl

split_where-front :
    (t : Text) (c : ℕ) (s : Text)
    → HasNone t
    → IsSeparator c
    → split_where is_separator (t ++ c ∷ s) ≡ t ∷ split_where is_separator s
unfolding split_where
split_where-front [] c s n i = rw ((is_separator_iff c).1 i) refl
split_where-front (d ∷ t) c s n i = rw (is_separator_none d n.0, split_where-front t c s n.1 i) refl

split_where-behind :
    (found : Text → Bool) (a : Text) (c : ℕ) (s : Text)
    → IsSeparator c
    → any found (split_where is_separator s) ≡ true
    → (h : Text) × (r : List Text) × (split_where is_separator (a ++ c ∷ s) ≡ h ∷ r)
      × (any found r ≡ true)
unfolding split_where
split_where-behind found [] c s i k =
    ([], split_where is_separator s, rw ((is_separator_iff c).1 i) refl, k)
split_where-behind found (d ∷ a) c s i k =
    let (h, r, e, k') = split_where-behind found a c s i k in
    elim (Bool-cases (is_separator d)) [
      | inl j ↦ ([], h ∷ r, rw (j, e) refl, rw k' (ground arith))
      | inr j ↦ (d ∷ h, r, rw (j, e) refl, k')
    ]

Piece-split_where :
    (found : Text → Bool) (q t : Text)
    → Piece q t
    → found t ≡ true
    → any found (split_where is_separator q) ≡ true
Piece-split_where found q t (whole n) f = rw (split_where-whole q n, f) refl
Piece-split_where found q t (front c s e n i) f = rw (e, split_where-front t c s n i, f) refl
Piece-split_where found q t (behind a c s e i p) f =
    let (h, r, e', k) = split_where-behind found a c s i (Piece-split_where found s t p f) in
    rw (e, e', k) (ground arith)

any-solid :
    (found : Text → Bool) (ps : List Text)
    → found [] ≡ false
    → any found (filter (λ t. not (is_empty t)) ps) ≡ any found ps
any-solid found [] z = refl
any-solid found ([] ∷ ps) z = rw z (any-solid found ps z)
any-solid found ((c ∷ p) ∷ ps) z = ap (λ b. found (c ∷ p) || b) (any-solid found ps z)

-- Something is found for a token of the search exactly when it is found for a piece of it, where
-- nothing is found for the empty text.
pub tokens_iff :
    (found : Text → Bool) (q : Text)
    → found [] ≡ false
    → (any found (tokens q) ≡ true) ↔ FoundPiece found q
unfolding tokens
tokens_iff found q z = (
  λ h.
      shape_piece found q (shape found q)
        (sym (any-solid found (split_where is_separator q) z) ∙ h),
  λ h.
      let (t, p, f) = h in
      any-solid found (split_where is_separator q) z ∙ Piece-split_where found q t p f,
)

has_separator : (a : Text) (c : ℕ) (s : Text) → IsSeparator c → any is_separator (a ++ c ∷ s) ≡ true
has_separator [] c s i = rw ((is_separator_iff c).1 i) refl
has_separator (d ∷ a) c s i = rw (has_separator a c s i) (ground arith)

-- A search without separators is its only piece.
pub Piece-only : (q t : Text) → any is_separator q ≡ false → Piece q t → t ≡ q
Piece-only q t h (whole n) = refl
Piece-only q t h (front c s e n i) =
    let k = rw e at h in absurd (let x = has_separator t c s i in cc)
Piece-only q t h (behind a c s e i p) =
    let k = rw e at h in absurd (let x = has_separator a c s i in cc)
