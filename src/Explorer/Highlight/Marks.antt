-- ===== src/Explorer/Highlight/Marks.antt =====
-- The merged intervals of a name: they stand apart, and cover what the matches cover.
use mqtt_dashboard.Prelude.{
  larger, smaller, ℕ, ◌-◌, ◌<◌, ◌≤◌, ◌≡◌, refl, ap, ◌∙◌, Bool, true, false, ◌&&◌, ◌||◌, List, [],
  ◌∷◌, any, ltb, leb, length, All, Bool-cases, inl, inr, arith,
}
use mqtt_dashboard.Prelude.Text.{Text}
use mqtt_dashboard.Explorer.Highlight.{
  Interval, in_node, in_order, insert_interval, sort_intervals, merge_from, merge_intervals,
  name_intervals, find_intervals,
}

-- Intervals that stand one behind the other from `at` on, not beyond `end`, none of them empty.
abbrev pub AreApart : ℕ → ℕ → List Interval → Type 0
AreApart at end [] = at ≤ end
AreApart at end (i ∷ is) = (at ≤ i.0) × (i.0 < i.1) × AreApart i.1 end is

-- Intervals in the order of their starts from `at` on, not beyond `end`, none of them empty.
abbrev pub AreSorted : ℕ → ℕ → List Interval → Type 0
AreSorted at end [] = Unit
AreSorted at end (i ∷ is) = (at ≤ i.0) × (i.0 < i.1) × (i.1 ≤ end) × AreSorted i.0 end is

-- The offset lies in one of the intervals.
abbrev pub is_covered : ℕ → List Interval → Bool
is_covered k is = any (λ i. leb i.0 k && ltb k i.1) is

insert_interval-covered :
    (k : ℕ) (i : Interval) (is : List Interval)
    → is_covered k (insert_interval i is) ≡ is_covered k (i ∷ is)
unfolding insert_interval
insert_interval-covered k i [] = refl
insert_interval-covered k i (j ∷ js) = ground (arith, insert_interval-covered k i js)

sort_intervals-covered :
    (k : ℕ) (is : List Interval) → is_covered k (sort_intervals is) ≡ is_covered k is
unfolding sort_intervals
sort_intervals-covered k [] = refl
sort_intervals-covered k (i ∷ is) =
    insert_interval-covered k i (sort_intervals is)
    ∙ ap (λ b. (leb i.0 k && ltb k i.1) || b) (sort_intervals-covered k is)

in_order-le : (i j : Interval) → in_order i j ≡ true → i.0 ≤ j.0
in_order-le i j e = ground arith

in_order-ge : (i j : Interval) → in_order i j ≡ false → j.0 ≤ i.0
in_order-ge i j e = ground arith

insert_interval-AreSorted :
    (i : Interval) (is : List Interval) (at end : ℕ)
    → at ≤ i.0
    → i.0 < i.1
    → i.1 ≤ end
    → AreSorted at end is
    → AreSorted at end (insert_interval i is)
unfolding insert_interval
insert_interval-AreSorted i [] at end l m n h = (l, m, n, tt)
insert_interval-AreSorted i (j ∷ js) at end l m n h =
    let (a, b, c, d) = h in
    elim (Bool-cases (in_order i j)) [
      | inl k ↦ rw k ((l, m, n, (in_order-le i j k, b, c, d)))
      | inr k ↦ rw k ((a, b, c, insert_interval-AreSorted i js j.0 end (in_order-ge i j k) m n d))
    ]

AreSorted-from :
    (is : List Interval) (at from end : ℕ) → from ≤ at → AreSorted at end is → AreSorted from end is
AreSorted-from [] at from end l h = tt
AreSorted-from (i ∷ is) at from end l h = let (a, b, c, d) = h in (omega arith, b, c, d)

-- A merged interval covers what its two halves cover.
joined-covered :
    (k a b c d : ℕ)
    → a ≤ c
    → c ≤ b
    → (leb a k && ltb k (larger b d)) ≡ ((leb a k && ltb k b) || (leb c k && ltb k d))
joined-covered k a b c d l m = ground arith

joined-covers :
    (k a b c d : ℕ) (r : Bool)
    → a ≤ c
    → c ≤ b
    → ((leb a k && ltb k (larger b d)) || r) ≡ ((leb a k && ltb k b) || ((leb c k && ltb k d) || r))
joined-covers k a b c d r l m = rw (joined-covered k a b c d l m) (ground arith)

joined-bound : (a b c d end : ℕ) → a < b → b ≤ end → d ≤ end → (a < larger b d) × (larger b d ≤ end)
joined-bound a b c d end l m n = ground arith

leb-le : (a b : ℕ) → leb a b ≡ true → a ≤ b
leb-le a b e = ground arith

leb-gt : (a b : ℕ) → leb a b ≡ false → b < a
leb-gt a b e = ground arith

-- What a merge covers, and that its intervals are apart.
merge_from-covered :
    (k : ℕ) (is : List Interval) (prev : Interval) (end : ℕ)
    → AreSorted prev.0 end is
    → is_covered k (merge_from prev is) ≡ is_covered k (prev ∷ is)
unfolding merge_from
merge_from-covered k [] prev end h = refl
merge_from-covered k (i ∷ is) prev end h =
    let (a, b, c, d) = h in
    elim (Bool-cases (leb i.0 prev.1)) [
      | inl e ↦ rw e (
          merge_from-covered k is (prev.0, larger prev.1 i.1) end
            (AreSorted-from is i.0 prev.0 end a d)
          ∙ joined-covers k prev.0 prev.1 i.0 i.1 (is_covered k is) a (leb-le i.0 prev.1 e))
      | inr e ↦
          rw e (ap (λ r. (leb prev.0 k && ltb k prev.1) || r) (merge_from-covered k is i end d))
    ]

merge_from-AreApart :
    (is : List Interval) (at end : ℕ) (prev : Interval)
    → at ≤ prev.0
    → prev.0 < prev.1
    → prev.1 ≤ end
    → AreSorted prev.0 end is
    → AreApart at end (merge_from prev is)
unfolding merge_from
merge_from-AreApart [] at end prev l m n h = (l, m, n)
merge_from-AreApart (i ∷ is) at end prev l m n h =
    let (a, b, c, d) = h in
    elim (Bool-cases (leb i.0 prev.1)) [
      | inl e ↦ rw e (
          let (p, q) = joined-bound prev.0 prev.1 i.0 i.1 end m n c in
          merge_from-AreApart is at end (prev.0, larger prev.1 i.1) l p q
            (AreSorted-from is i.0 prev.0 end a d))
      | inr e ↦
          rw e
            ((l, m, merge_from-AreApart is prev.1 end i (omega (arith, leb-gt i.0 prev.1 e)) b c d))
    ]

in_node-bounds :
    (from to ns ne n : ℕ)
    → ne - ns ≤ n
    → ltb (larger from ns) (smaller to ne) ≡ true
    → (larger from ns - ns < smaller to ne - ns) × (smaller to ne - ns ≤ n)
in_node-bounds from to ns ne n l e = ground arith

abbrev pub IsWithin : ℕ → Interval → Type 0
IsWithin end i = (i.0 < i.1) × (i.1 ≤ end)

in_node-IsWithin :
    (ns ne n : ℕ) (is : List Interval) → ne - ns ≤ n → All (IsWithin n) (in_node ns ne is)
unfolding in_node
in_node-IsWithin ns ne n [] l = tt
in_node-IsWithin ns ne n (i ∷ is) l = elim (Bool-cases (ltb (larger i.0 ns) (smaller i.1 ne))) [
  | inl e ↦ rw e ((in_node-bounds i.0 i.1 ns ne n l e, in_node-IsWithin ns ne n is l))
  | inr e ↦ rw e (in_node-IsWithin ns ne n is l)
]

sort_intervals-AreSorted :
    (end : ℕ) (is : List Interval) → All (IsWithin end) is → AreSorted 0 end (sort_intervals is)
unfolding sort_intervals
sort_intervals-AreSorted end [] h = tt
sort_intervals-AreSorted end (i ∷ is) h =
    let (p, q) = h in
    insert_interval-AreSorted i (sort_intervals is) 0 end (omega arith) p.0 p.1
      (sort_intervals-AreSorted end is q)

merge_intervals-AreApart :
    (is : List Interval) (end : ℕ) → AreSorted 0 end is → AreApart 0 end (merge_intervals is)
unfolding merge_intervals
merge_intervals-AreApart [] end h = omega arith
merge_intervals-AreApart (i ∷ is) end h =
    let (a, b, c, d) = h in merge_from-AreApart is 0 end i a b c d

merge_intervals-covered :
    (k : ℕ) (is : List Interval) (end : ℕ)
    → AreSorted 0 end is
    → is_covered k (merge_intervals is) ≡ is_covered k is
unfolding merge_intervals
merge_intervals-covered k [] end h = refl
merge_intervals-covered k (i ∷ is) end h = let (a, b, c, d) = h in merge_from-covered k is i end d

-- What the merged intervals of a name are, for intervals within it.
abbrev pub merged : List Interval → List Interval
merged is = merge_intervals (sort_intervals is)

pub name_intervals-IsWithin :
    (lower_case : Text → Text) (name full_path trimmed : Text)
    → All (IsWithin (length name)) (name_intervals lower_case name full_path trimmed)
unfolding name_intervals
name_intervals-IsWithin lower_case name full_path trimmed =
    in_node-IsWithin (length full_path - length name) (length full_path) (length name)
      (find_intervals (lower_case full_path) (lower_case trimmed)) (omega arith)

pub merged-AreApart :
    (end : ℕ) (is : List Interval) → All (IsWithin end) is → AreApart 0 end (merged is)
merged-AreApart end is h =
    merge_intervals-AreApart (sort_intervals is) end (sort_intervals-AreSorted end is h)

pub merged-covered :
    (k end : ℕ) (is : List Interval)
    → All (IsWithin end) is
    → is_covered k (merged is) ≡ is_covered k is
merged-covered k end is h =
    merge_intervals-covered k (sort_intervals is) end (sort_intervals-AreSorted end is h)
    ∙ sort_intervals-covered k is
