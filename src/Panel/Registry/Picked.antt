-- ===== src/Panel/Registry/Picked.antt =====
-- What a picked topic does to the topics of a panel.
use mqtt_dashboard.Prelude.{
  ℕ, ◌≡◌, refl, ap, subst, ◌∙◌, Bool, true, false, not, ◌&&◌, List, [], ◌∷◌, ◌++◌, some, map,
  filter, all, All, ◌==◌, Bool-cases, inl, inr, arith,
}
use mqtt_dashboard.Prelude.Text.{
  Text, codes, is_space, is_empty, trim, trim_start, trim_end, split, split_list, join, comma,
}
use mqtt_dashboard.Prelude.Trim.{trim_idem}
use mqtt_dashboard.Topic.Matching.{split-ne-nil, split-append}
use mqtt_dashboard.Panel.Registry.{is_member, distinct, default_resolve_picked_topic}

-- A topic as a list of topics holds it: trimmed, not empty, without a comma.
abbrev pub IsListed : Text → Type 0
IsListed t = (trim t ≡ t) × (is_empty t ≡ false) × (all (λ c. not (c == comma)) t ≡ true)

split-no_comma : (s : Text) → All (λ l. all (λ c. not (c == comma)) l ≡ true) (split comma s)
unfolding split
split-no_comma [] = (refl, tt)
split-no_comma (c ∷ s) =
    let (q, qs, e) = split-ne-nil comma s in
    elim (Bool-cases (c == comma)) [
      | inl k ↦ rw k ((refl, split-no_comma s))
      | inr k ↦
          let h = subst (All (λ l. all (λ c. not (c == comma)) l ≡ true)) e (split-no_comma s) in
          rw (k, e) ((ground arith, h.1))
    ]

trim_start-all : (p : ℕ → Bool) (s : Text) → all p s ≡ true → all p (trim_start s) ≡ true
unfolding trim_start
trim_start-all p [] h = refl
trim_start-all p (c ∷ s) h = elim (Bool-cases (is_space c)) [
  | inl e ↦ rw e (trim_start-all p s (ground arith))
  | inr e ↦ rw e h
]

trim_end-all : (p : ℕ → Bool) (s : Text) → all p s ≡ true → all p (trim_end s) ≡ true
unfolding trim_end
trim_end-all p [] h = refl
trim_end-all p (c ∷ s) h = elim (Bool-cases (is_space c && is_empty (trim_end s))) [
  | inl e ↦ rw e refl
  | inr e ↦ rw e (both p c (trim_end s) s h (trim_end-all p s (ground arith)))
]
  where
    both :
        (p : ℕ → Bool) (c : ℕ) (q s : Text)
        → all p (c ∷ s) ≡ true
        → all p q ≡ true
        → all p (c ∷ q) ≡ true
    both p c q s h k = ground arith

pieces-IsListed :
    (ts : List Text)
    → All (λ l. all (λ c. not (c == comma)) l ≡ true) ts
    → All IsListed (filter (λ t. not (is_empty t)) (map trim ts))
unfolding trim
pieces-IsListed [] h = tt
pieces-IsListed (t ∷ ts) h = elim (Bool-cases (is_empty (trim t))) [
  | inl e ↦ rw e (pieces-IsListed ts h.1)
  | inr e ↦ rw e (
      (
        (
          trim_idem t,
          e,
          trim_end-all (λ c. not (c == comma)) (trim_start t)
              (trim_start-all (λ c. not (c == comma)) t h.0),
        ),
        pieces-IsListed ts h.1,
      ))
]

split_list-IsListed : (s : Text) → All IsListed (split_list comma s)
unfolding split_list
split_list-IsListed s = pieces-IsListed (split comma s) (split-no_comma s)

All-append : (P : Text → Type 0) (ts us : List Text) → All P ts → All P us → All P (ts ++ us)
All-append P [] us a b = b
All-append P (t ∷ ts) us a b = (a.0, All-append P ts us a.1 b)

distinct-All : (P : Text → Type 0) (ts seen : List Text) → All P ts → All P (distinct seen ts)
unfolding distinct
distinct-All P [] seen a = tt
distinct-All P (t ∷ ts) seen a = elim (Bool-cases (is_member t seen)) [
  | inl e ↦ rw e (distinct-All P ts seen a.1)
  | inr e ↦ rw e ((a.0, distinct-All P ts (t ∷ seen) a.1))
]

-- A piece without commas stays whole.
split-whole : (t : Text) → all (λ c. not (c == comma)) t ≡ true → split comma t ≡ t ∷ []
unfolding split
split-whole [] h = refl
split-whole (c ∷ t) h = rw (no_comma c (ground arith), split-whole t (ground arith)) refl
  where
    no_comma : (c : ℕ) → not (c == comma) ≡ true → (c == comma) ≡ false
    no_comma c h = ground arith

trim-space : (t : Text) → trim (b' ' ∷ t) ≡ trim t
unfolding trim trim_start is_space
trim-space t = refl

abbrev kept : Text → List Text
kept s = filter (λ t. not (is_empty t)) (map trim (split comma s))

-- A piece that is trimmed to a topic, at the end of a list and before the others.
kept-last :
    (l t : Text)
    → all (λ c. not (c == comma)) l ≡ true
    → trim l ≡ t
    → is_empty t ≡ false
    → kept l ≡ t ∷ []
kept-last l t c e n = rw (split-whole l c, e, n) refl

kept-first :
    (l t s : Text)
    → all (λ c. not (c == comma)) l ≡ true
    → trim l ≡ t
    → is_empty t ≡ false
    → kept (l ++ comma ∷ s) ≡ t ∷ kept s
kept-first l t s c e n = rw (split-append comma l s, split-whole l c, e, n) refl

-- A list of topics, written and read.
kept-join :
    (t : Text) (ts : List Text)
    → All IsListed (t ∷ ts)
    → (kept (join (codes ", ") (t ∷ ts)) ≡ t ∷ ts)
      × (kept (b' ' ∷ join (codes ", ") (t ∷ ts)) ≡ t ∷ ts)
unfolding join
kept-join t [] a =
    let (trimmed, full, whole) = a.0 in
    (kept-last t t whole trimmed full, kept-last (b' ' ∷ t) t whole (trim-space t ∙ trimmed) full)
kept-join t (u ∷ ts) a =
    let (trimmed, full, whole) = a.0 in
    let rest = ap (λ r. t ∷ r) (kept-join u ts a.1).1 in
    (
      kept-first t t (b' ' ∷ join (codes ", ") (u ∷ ts)) whole trimmed full ∙ rest,
      kept-first (b' ' ∷ t) t (b' ' ∷ join (codes ", ") (u ∷ ts)) whole (trim-space t ∙ trimmed)
            full
          ∙ rest,
    )

split_list-join : (ts : List Text) → All IsListed ts → split_list comma (join (codes ", ") ts) ≡ ts
unfolding split_list join split trim
split_list-join [] a = refl
split_list-join (t ∷ ts) a = (kept-join t ts a).0

-- A topic picked for a panel that has some: the panel then lists its own topics and the picked ones
-- that it did not list yet, each once, in this order.
pub default_resolve_picked_topic-lists :
    (existing picked : Text)
    → is_empty picked ≡ false
    → is_empty (trim existing) ≡ false
    → (r : Text) × (default_resolve_picked_topic (some existing) (some picked) ≡ some r)
      × (split_list comma r ≡ distinct [] (split_list comma existing ++ split_list comma picked))
unfolding default_resolve_picked_topic
default_resolve_picked_topic-lists existing picked p e =
    let ts = distinct [] (split_list comma existing ++ split_list comma picked) in
    (
      join (codes ", ") ts,
      rw (p, e, not_empty existing e) refl,
      split_list-join ts (
          distinct-All IsListed (split_list comma existing ++ split_list comma picked) [] (
            All-append IsListed (split_list comma existing) (split_list comma picked)
              (split_list-IsListed existing) (split_list-IsListed picked))),
    )
  where
    not_empty : (s : Text) → is_empty (trim s) ≡ false → is_empty s ≡ false
    not_empty [] h = h
    not_empty (c ∷ s) h = refl
