-- ===== src/Explorer/Highlight/Found.antt =====
-- Which letters of a node's name the search of frontend/src/components/explorer/TopicTree.tsx marks.
use mqtt_dashboard.Prelude.{
  larger, smaller, ℕ, ◌+◌, ◌-◌, ◌<◌, ◌≤◌, ◌≡◌, ◌≢◌, refl, sym, ap, ◌∙◌, ◌⊎◌, inl, inr, ◌↔◌, Bool,
  true, false, ◌&&◌, ◌||◌, List, [], ◌∷◌, ◌++◌, map, any, concat, if◌then◌else◌, is_some, ltb, leb,
  length, Bool-cases, Option-cases, or_iff, arith, subst, append-nil,
}
use mqtt_dashboard.Prelude.Text.{
  Text, codes, eq_text_iff, is_empty, strip_prefix, strip_prefix-append, strip_prefix_self, trim,
}
use mqtt_dashboard.Explorer.Highlight.{
  Interval, occurrences, is_separator, tokens, find_intervals, in_node, name_intervals,
  is_wildcard_only, part_text, highlight_text,
}
use mqtt_dashboard.Explorer.Highlight.Marks.{is_covered}
use mqtt_dashboard.Explorer.Highlight.Parts.{marked_at, highlight_text_lem}
use mqtt_dashboard.Explorer.Highlight.Pieces.{Piece, tokens_iff, Piece-only}

-- The text `t` stands somewhere in the path, and the offset `k` lies in it.
abbrev pub LiesIn : Text → Text → ℕ → Type 0
LiesIn path t k =
    (b : Text) × (a : Text) × (path ≡ b ++ (t ++ a)) × (length b ≤ k) × (k < length b + length t)

-- The offset lies in the search where it stands in the path, or in one of its pieces.
abbrev pub IsFound : Text → Text → ℕ → Type 0
IsFound path q k = LiesIn path q k ⊎ ((t : Text) × Piece q t × LiesIn path t k)

-- The same for a text that begins at `at`.
abbrev LiesFrom : Text → ℕ → Text → ℕ → Type 0
LiesFrom t at s k =
    (b : Text) × (a : Text) × (s ≡ b ++ (t ++ a))
    × (at + length b ≤ k)
    × (k < at + length b + length t)

covers : (from to k : ℕ) → (leb from k && ltb k to) ≡ true → (from ≤ k) × (k < to)
covers from to k h = ground arith

occurrences_sound :
    (t : Text) (at : ℕ) (s : Text) (k : ℕ)
    → is_covered k (occurrences t at s) ≡ true
    → LiesFrom t at s k
unfolding occurrences
occurrences_sound t at [] k h = cc
occurrences_sound t at (c ∷ s) k h = elim (Option-cases (strip_prefix t (c ∷ s))) [
  | inl e ↦ one_on c s (occurrences_sound t (at + 1) s k (let n = rw e at h in n))
  | inr (a, e) ↦ elim (Bool-cases (leb at k && ltb k (at + length t))) [
    | inl j ↦
        let (l, m) = covers at (at + length t) k j in
        ([], a, strip_prefix-append t (c ∷ s) a e, omega (arith, l), omega (arith, m))
    | inr j ↦ one_on c s (occurrences_sound t (at + 1) s k (let n = rw (e, j) at h in n))
  ]
]
  where
    one_on : (c : ℕ) (s : Text) → LiesFrom t (at + 1) s k → LiesFrom t at (c ∷ s) k
    one_on c s (b, a, e, l, m) = (c ∷ b, a, ap (λ x. c ∷ x) e, omega (arith, l), omega (arith, m))

covers-back : (from to k : ℕ) → from ≤ k → k < to → (leb from k && ltb k to) ≡ true
covers-back from to k l m = ground arith

occurrences_complete :
    (t : Text) (at : ℕ) (b a : Text) (k : ℕ)
    → at + length b ≤ k
    → k < at + length b + length t
    → is_covered k (occurrences t at (b ++ (t ++ a))) ≡ true
unfolding occurrences
occurrences_complete [] at b a k l m = absurd (omega (arith, l, m))
occurrences_complete (d ∷ t) at [] a k l m =
    rw (strip_prefix_self (d ∷ t) a)
      (rw (covers-back at (at + length (d ∷ t)) k (omega (arith, l)) (omega (arith, m))) refl)
occurrences_complete (d ∷ t) at (c ∷ b) a k l m =
    let rest = occurrences_complete (d ∷ t) (at + 1) b a k (omega (arith, l)) (omega (arith, m)) in
    elim (Bool-cases (is_some (strip_prefix (d ∷ t) (c ∷ (b ++ (d ∷ (t ++ a))))))) [
      | inl e ↦ rw (e, rest) (ground arith)
      | inr e ↦ rw e rest
    ]

occurrences_iff :
    (t path : Text) (k : ℕ) → (is_covered k (occurrences t 0 path) ≡ true) ↔ LiesIn path t k
occurrences_iff t path k = (
  λ h.
      let (b, a, e, l, m) = occurrences_sound t 0 path k h in
      (b, a, e, omega (arith, l), omega (arith, m)),
  λ h.
      let (b, a, e, l, m) = h in
      rw e (occurrences_complete t 0 b a k (omega (arith, l)) (omega (arith, m))),
)

any_append {ℓ} :
    {A : Type ℓ} (p : A → Bool) (xs ys : List A) → any p (xs ++ ys) ≡ (any p xs || any p ys)
any_append p [] ys = refl
any_append p (x ∷ xs) ys = rw (any_append p xs ys) (ground arith)

concat-covered :
    (path : Text) (k : ℕ) (ts : List Text)
    → is_covered k (concat (map (λ t. occurrences t 0 path) ts))
      ≡ any (λ t. is_covered k (occurrences t 0 path)) ts
concat-covered path k [] = refl
concat-covered path k (t ∷ ts) =
    any_append (λ i. leb i.0 k && ltb k i.1) (occurrences t 0 path)
      (concat (map (λ t. occurrences t 0 path) ts))
    ∙ ap (λ b. is_covered k (occurrences t 0 path) || b) (concat-covered path k ts)

nothing_empty : (at : ℕ) (path : Text) (k : ℕ) → is_covered k (occurrences [] at path) ≡ false
nothing_empty at path k = elim (Bool-cases (is_covered k (occurrences [] at path))) [
  | inl e ↦ let (b, a, e', l, m) = occurrences_sound [] at path k e in absurd (omega (arith, l, m))
  | inr e ↦ e
]

tokens-covered_iff :
    (path q : Text) (k : ℕ)
    → (is_covered k (concat (map (λ t. occurrences t 0 path) (tokens q))) ≡ true)
      ↔ ((t : Text) × Piece q t × LiesIn path t k)
tokens-covered_iff path q k =
    let both = tokens_iff (λ t. is_covered k (occurrences t 0 path)) q (nothing_empty 0 path k) in
    (
      λ h.
          let (t, p, f) = both.0 (sym (concat-covered path k (tokens q)) ∙ h) in
          (t, p, (occurrences_iff t path k).0 f),
      λ h.
          let (t, p, f) = h in
          concat-covered path k (tokens q) ∙ both.1 ((t, p, (occurrences_iff t path k).1 f)),
    )

none_iff :
    (path q : Text) (k : ℕ)
    → any is_separator q ≡ false
    → (is_covered k (occurrences q 0 path) ≡ true) ↔ IsFound path q k
none_iff path q k n = (
  λ h. inl ((occurrences_iff q path k).0 h),
  λ h. elim h [
    | inl l ↦ (occurrences_iff q path k).1 l
    | inr (t, p, l) ↦
        (occurrences_iff q path k).1 (subst (λ x. LiesIn path x k) (Piece-only q t n p) l)
  ],
)

find_intervals_iff :
    (path q : Text) (k : ℕ) → (is_covered k (find_intervals path q) ≡ true) ↔ IsFound path q k
unfolding find_intervals
find_intervals_iff path q k = elim (Bool-cases (any is_separator q)) [
  | inl e ↦
      rw
        (
          e,
          any_append (λ i. leb i.0 k && ltb k i.1) (occurrences q 0 path)
              (concat (map (λ t. occurrences t 0 path) (tokens q))),
        )
        (or_iff (is_covered k (occurrences q 0 path))
          (is_covered k (concat (map (λ t. occurrences t 0 path) (tokens q))))
          (occurrences_iff q path k) (tokens-covered_iff path q k))
  | inr e ↦ rw (e, append-nil (occurrences q 0 path)) (none_iff path q k e)
]

within :
    (from to ns ne k : ℕ) (r : Bool)
    → ns + k < ne
    → ltb (larger from ns) (smaller to ne) ≡ true
    → ((leb (larger from ns - ns) k && ltb k (smaller to ne - ns)) || r)
      ≡ ((leb from (ns + k) && ltb (ns + k) to) || r)
within from to ns ne k r l e = ground arith

outside :
    (from to ns ne k : ℕ) (r : Bool)
    → ns + k < ne
    → ltb (larger from ns) (smaller to ne) ≡ false
    → r ≡ ((leb from (ns + k) && ltb (ns + k) to) || r)
outside from to ns ne k r l e = ground arith

in_node-covered :
    (ns ne k : ℕ) (is : List Interval)
    → ns + k < ne
    → is_covered k (in_node ns ne is) ≡ is_covered (ns + k) is
unfolding in_node
in_node-covered ns ne k [] l = refl
in_node-covered ns ne k (i ∷ is) l = elim (Bool-cases (ltb (larger i.0 ns) (smaller i.1 ne))) [
  | inl e ↦ rw (e, in_node-covered ns ne k is l) (within i.0 i.1 ns ne k _ l e)
  | inr e ↦ rw (e, in_node-covered ns ne k is l) (outside i.0 i.1 ns ne k _ l e)
]

-- A search that is more than a wildcard.
abbrev pub IsSearch : Text → Type 0
IsSearch t = (t ≢ []) × (t ≢ codes "+") × (t ≢ codes "#") × (t ≢ codes "*")

marks_something_iff : (t : Text) → ((is_empty t || is_wildcard_only t) ≡ false) ↔ IsSearch t
marks_something_iff [] = (λ h. cc, λ h. absurd (h.0 refl))
marks_something_iff (c ∷ t) = ground (
  arith,
  eq_text_iff (c ∷ t) (codes "+"),
  eq_text_iff (c ∷ t) (codes "#"),
  eq_text_iff (c ∷ t) (codes "*"),
)

guarded_iff {ℓ ℓ'} :
    {P : Type ℓ} {Q : Type ℓ'} (a b : Bool)
    → (a ≡ false) ↔ P
    → (b ≡ true) ↔ Q
    → ((if a then false else b) ≡ true) ↔ (P × Q)
guarded_iff true b p q = (λ h. cc, λ h. absurd (let n = p.1 h.0 in cc))
guarded_iff false b p q = (λ h. (p.0 refl, q.0 h), λ h. q.1 h.1)

name_intervals_iff :
    (lower_case : Text → Text) (name full_path q : Text) (k : ℕ)
    → length name ≤ length full_path
    → k < length name
    → (is_covered k (name_intervals lower_case name full_path q) ≡ true)
      ↔ IsFound (lower_case full_path) (lower_case q) (length full_path - length name + k)
unfolding name_intervals
name_intervals_iff lower_case name full_path q k l m =
    rw
      (in_node-covered (length full_path - length name) (length full_path) k
        (find_intervals (lower_case full_path) (lower_case q)) (omega (arith, l, m)))
      (find_intervals_iff (lower_case full_path) (lower_case q)
        (length full_path - length name + k))

-- For a name that is no longer than the path it ends: the parts that it is shown in are, one behind
-- the other, the name; and a letter of it is marked exactly when the search, without the spaces
-- around it, is neither empty nor a wildcard alone, and the letter's offset in the path lies in a
-- place of the path, in lower case, where the search in lower case stands, or a piece of it between
-- its slashes and wildcards.
pub highlight_text_iff :
    (lower_case : Text → Text) (name full_path query : Text) (k : ℕ)
    → length name ≤ length full_path
    → k < length name
    → (concat (map part_text (highlight_text lower_case name full_path query)) ≡ name)
      × ((marked_at k (highlight_text lower_case name full_path query) ≡ true) ↔ (
          IsSearch (trim query)
          × IsFound
              (lower_case full_path)
              (lower_case (trim query))
              (length full_path - length name + k)))
highlight_text_iff lower_case name full_path query k l m =
    let (parts, marks) = highlight_text_lem lower_case name full_path query k in
    (
      parts,
      rw marks (
          guarded_iff (is_empty (trim query) || is_wildcard_only (trim query))
            (is_covered k (name_intervals lower_case name full_path (trim query)))
            (marks_something_iff (trim query))
            (name_intervals_iff lower_case name full_path (trim query) k l m)),
    )
