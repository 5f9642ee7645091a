-- ===== src/Explorer/Highlight/Parts.antt =====
-- The parts that a name is shown in are the name, and the marks are where the matches are.
use mqtt_dashboard.Prelude.{
  ℕ, ◌+◌, ◌-◌, ◌<◌, ◌≤◌, ◌≡◌, refl, sym, ap, ◌∙◌, Bool, true, false, ◌&&◌, ◌||◌, List, [], ◌∷◌,
  ◌++◌, map, concat, if◌then◌else◌, ltb, leb, length, length-take, length-drop, drop, Bool-cases,
  inl, inr, All, arith, append-nil,
}
use mqtt_dashboard.Prelude.Text.{Text, is_empty, trim}
use mqtt_dashboard.Prelude.Slice.{slice, slice-append-drop, drop-all}
use mqtt_dashboard.Explorer.Highlight.{
  Interval, Part, plain, marked, part_text, build_parts, is_wildcard_only, name_intervals,
  highlight_text, mark_intervals,
}
use mqtt_dashboard.Explorer.Highlight.Marks.{
  AreApart, is_covered, merged, IsWithin, name_intervals-IsWithin, merged-AreApart, merged-covered,
}

to_end :
    (name : Text) (last : ℕ) → last ≤ length name → slice name last (length name) ≡ drop last name
to_end name last h =
    sym (append-nil (slice name last (length name)))
    ∙ ap (λ r. slice name last (length name) ++ r) (sym (drop-all (length name) name (omega arith)))
    ∙ slice-append-drop name last (length name) h

nothing_left : (name : Text) (last : ℕ) → ltb last (length name) ≡ false → [] ≡ drop last name
nothing_left name last e = sym (drop-all last name (ground arith))

start_is : (last start : ℕ) → last ≤ start → ltb last start ≡ false → start ≡ last
start_is last start h e = ground arith

build_parts-text :
    (name : Text) (is : List Interval) (last : ℕ)
    → AreApart last (length name) is
    → concat (map part_text (build_parts name last is)) ≡ drop last name
unfolding build_parts
build_parts-text name [] last h = elim (Bool-cases (ltb last (length name))) [
  | inl e ↦ rw (e, append-nil (slice name last (length name))) (to_end name last h)
  | inr e ↦ rw e (nothing_left name last e)
]
build_parts-text name ((start, end) ∷ is) last h =
    let (a, b, c) = h in
    elim (Bool-cases (ltb last start)) [
      | inl e ↦
          rw (e, build_parts-text name is end c)
            (ap (λ r. slice name last start ++ r)
                (slice-append-drop name start end (omega (arith, b)))
              ∙ slice-append-drop name last start a)
      | inr e ↦
          rw (e, build_parts-text name is end c)
            (slice-append-drop name start end (omega (arith, b))
              ∙ ap (λ i. drop i name) (start_is last start a e))
    ]

abbrev is_marked : Part → Bool
is_marked (plain t) = false
is_marked (marked t) = true

-- Whether the code at an offset stands in a marked part.
unfoldable pub marked_at : ℕ → List Part → Bool
marked_at k [] = false
marked_at k (p ∷ ps) =
    let rest = marked_at (k - length (part_text p)) ps in
    if ltb k (length (part_text p)) then is_marked p else rest

AreApart-below :
    (k : ℕ) (is : List Interval) (at end : ℕ)
    → AreApart at end is
    → k < at
    → is_covered k is ≡ false
AreApart-below k [] at end h l = refl
AreApart-below k (i ∷ is) at end h l =
    let (a, b, c) = h in rw (AreApart-below k is i.1 end c (omega arith)) (ground arith)

AreApart-le : (is : List Interval) (at end : ℕ) → AreApart at end is → at ≤ end
AreApart-le [] at end h = h
AreApart-le (i ∷ is) at end h = let (a, b, c) = h in omega (arith, AreApart-le is i.1 end c)

length-slice : (s : Text) (from to : ℕ) → to ≤ length s → length (slice s from to) ≡ to - from
length-slice s from to h = length-take (to - from) (drop from s) (omega (arith, length-drop from s))

-- A marked piece from `start` to `end`, and what stands behind it.
marked_from :
    (k start end n : ℕ) (is : List Interval) (rest : Bool)
    → start < end
    → rest ≡ is_covered (end + (k - (end - start))) is
    → (if ltb k (end - start) then true else rest) ≡ is_covered (start + k) ((start, end) ∷ is)
marked_from k start end n is rest l e = elim (Bool-cases (ltb k (end - start))) [
  | inl j ↦ rw j (within k start end (is_covered (start + k) is) j)
  | inr j ↦ rw j (
      e
      ∙ ap (λ i. is_covered i is) (behind_is k start end l j)
      ∙ behind k start end (is_covered (start + k) is) j)
]
  where
    within :
        (k start end : ℕ) (r : Bool)
        → ltb k (end - start) ≡ true
        → true ≡ ((leb start (start + k) && ltb (start + k) end) || r)
    within k start end r j = ground arith

    behind_is :
        (k start end : ℕ)
        → start < end
        → ltb k (end - start) ≡ false
        → end + (k - (end - start)) ≡ start + k
    behind_is k start end l j = ground arith

    behind :
        (k start end : ℕ) (r : Bool)
        → ltb k (end - start) ≡ false
        → r ≡ ((leb start (start + k) && ltb (start + k) end) || r)
    behind k start end r j = ground arith

-- A plain piece from `last` to `start`, and what stands behind it.
plain_from :
    (k last start : ℕ) (is : List Interval) (n : ℕ) (rest : Bool)
    → last ≤ start
    → AreApart start n is
    → rest ≡ is_covered (start + (k - (start - last))) is
    → (if ltb k (start - last) then false else rest) ≡ is_covered (last + k) is
plain_from k last start is n rest l h e = elim (Bool-cases (ltb k (start - last))) [
  | inl j ↦ rw j (sym (AreApart-below (last + k) is start n h (before k last start j)))
  | inr j ↦ rw j (e ∙ ap (λ i. is_covered i is) (behind_is k last start l j))
]
  where
    before : (k last start : ℕ) → ltb k (start - last) ≡ true → last + k < start
    before k last start j = ground arith

    behind_is :
        (k last start : ℕ)
        → last ≤ start
        → ltb k (start - last) ≡ false
        → start + (k - (start - last)) ≡ last + k
    behind_is k last start l j = ground arith

marked_part :
    (name : Text) (start end k : ℕ) (is : List Interval)
    → start < end
    → AreApart end (length name) is
    → marked_at (k - (end - start)) (build_parts name end is)
      ≡ is_covered (end + (k - (end - start))) is
    → marked_at k (marked (slice name start end) ∷ build_parts name end is)
      ≡ is_covered (start + k) ((start, end) ∷ is)
unfolding marked_at
marked_part name start end k is l h e =
    rw (length-slice name start end (AreApart-le is end (length name) h)) (
      marked_from k start end (length name) is
        (marked_at (k - (end - start)) (build_parts name end is)) l e)

build_parts-marked_at :
    (name : Text) (is : List Interval) (last k : ℕ)
    → AreApart last (length name) is
    → marked_at k (build_parts name last is) ≡ is_covered (last + k) is
unfolding build_parts marked_at
build_parts-marked_at name [] last k h = elim (Bool-cases (ltb last (length name))) [
  | inl e ↦
      rw e
        (elim (ltb k (length (slice name last (length name))))
          as (λ b. (if b then false else false) ≡ false) [ true ↦ refl | false ↦ refl ])
  | inr e ↦ rw e refl
]
build_parts-marked_at name ((start, end) ∷ is) last k h =
    let (a, b, c) = h in
    elim (Bool-cases (ltb last start)) [
      | inl e ↦
          rw
            (e, length-slice name last start (omega (arith, b, AreApart-le is end (length name) c)))
            (plain_from k last start ((start, end) ∷ is) (length name)
              (marked_at (k - (start - last))
                (marked (slice name start end) ∷ build_parts name end is))
              a ((omega arith, b, c))
              (marked_part name start end (k - (start - last)) is b c
                (build_parts-marked_at name is end (k - (start - last) - (end - start)) c)))
      | inr e ↦ rw e (
          marked_part name start end k is b c
            (build_parts-marked_at name is end (k - (end - start)) c)
          ∙ ap (λ i. is_covered (i + k) ((start, end) ∷ is)) (start_is last start a e))
    ]

mark_intervals-text :
    (name : Text) (is : List Interval)
    → All (IsWithin (length name)) is
    → concat (map part_text (mark_intervals name is)) ≡ name
unfolding mark_intervals
mark_intervals-text name [] h = append-nil name
mark_intervals-text name (i ∷ is) h =
    build_parts-text name (merged (i ∷ is)) 0 (merged-AreApart (length name) (i ∷ is) h)

mark_intervals-marked_at :
    (name : Text) (is : List Interval) (k : ℕ)
    → All (IsWithin (length name)) is
    → marked_at k (mark_intervals name is) ≡ is_covered k is
unfolding mark_intervals marked_at
mark_intervals-marked_at name [] k h = elim (Bool-cases (ltb k (length name))) [
  | inl e ↦ rw e refl
  | inr e ↦ rw e refl
]
mark_intervals-marked_at name (i ∷ is) k h =
    build_parts-marked_at name (merged (i ∷ is)) 0 k (merged-AreApart (length name) (i ∷ is) h)
    ∙ ap (λ j. is_covered j (merged (i ∷ is))) (omega arith)
    ∙ merged-covered k (length name) (i ∷ is) h

highlight_text-text :
    (lower_case : Text → Text) (name full_path query : Text)
    → concat (map part_text (highlight_text lower_case name full_path query)) ≡ name
unfolding highlight_text
highlight_text-text lower_case name full_path query =
    elim (Bool-cases (is_empty (trim query) || is_wildcard_only (trim query))) [
      | inl e ↦ rw e (append-nil name)
      | inr e ↦ rw e (
          mark_intervals-text name (name_intervals lower_case name full_path (trim query))
            (name_intervals-IsWithin lower_case name full_path (trim query)))
    ]

highlight_text-marked_at :
    (lower_case : Text → Text) (name full_path query : Text) (k : ℕ)
    → (is_empty (trim query) || is_wildcard_only (trim query)) ≡ false
    → marked_at k (highlight_text lower_case name full_path query)
      ≡ is_covered k (name_intervals lower_case name full_path (trim query))
unfolding highlight_text
highlight_text-marked_at lower_case name full_path query k e = rw e (
    mark_intervals-marked_at name (name_intervals lower_case name full_path (trim query)) k
      (name_intervals-IsWithin lower_case name full_path (trim query)))

plain_unmarked : (name : Text) (k : ℕ) → marked_at k (plain name ∷ []) ≡ false
unfolding marked_at
plain_unmarked name k = ground arith

-- The parts that a name is shown in are, one behind the other, the name; and a letter is marked
-- exactly when the search has text that is not a wildcard alone and the letter lies in a match of
-- the search, or of one of its tokens, in the node's path.
pub highlight_text_lem :
    (lower_case : Text → Text) (name full_path query : Text) (k : ℕ)
    → (concat (map part_text (highlight_text lower_case name full_path query)) ≡ name)
      × (marked_at k (highlight_text lower_case name full_path query) ≡ (
          if is_empty (trim query) || is_wildcard_only (trim query)
          then false
          else is_covered k (name_intervals lower_case name full_path (trim query))))
unfolding highlight_text
highlight_text_lem lower_case name full_path query k = (
  highlight_text-text lower_case name full_path query,
  elim (Bool-cases (is_empty (trim query) || is_wildcard_only (trim query))) [
    | inl e ↦ rw e (plain_unmarked name k)
    | inr e ↦ highlight_text-marked_at lower_case name full_path query k e ∙ rw e refl
  ],
)
