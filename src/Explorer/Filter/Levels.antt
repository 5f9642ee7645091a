-- ===== src/Explorer/Filter/Levels.antt =====
-- The levels of a filter and of a topic, and how texts are made of them.
use mqtt_dashboard.Prelude.{
  ℕ, ◌≡◌, refl, sym, ap, ap₂, subst, ◌∙◌, ◌⊎◌, inl, inr, Bool, true, false, not, ◌&&◌, ◌||◌, List,
  [], ◌∷◌, ◌++◌, none, some, map, any, all, All, if◌then◌else◌, ◌==◌, arith, Bool-cases,
  Option-cases, append_assoc, append-nil, or_default,
}
use mqtt_dashboard.Prelude.Text.{
  Text, codes, eq_text, eq_text_iff, includes, is_empty, split, join, slash, strip_prefix,
  strip_prefix_self,
}
use mqtt_dashboard.Topic.{hash, plus}
use mqtt_dashboard.Topic.Matching.{Matches, done, multi, single, level, split-ne-nil, join-split}
use mqtt_dashboard.Explorer.Filter.{
  Item, item_of, strip_suffix, filter_to_regex, is_dot, not_slash, run_of, match_items,
  topic_matches_filter,
}
use mqtt_dashboard.Explorer.Filter

abbrev pub not_wild : ℕ → Bool
not_wild c = not (c == b'+' || c == b'#' || c == b'*')

-- A level of a filter that is `+` or has no wildcard.
abbrev pub is_level : Text → Bool
is_level l = eq_text l plus || all not_wild l

-- Levels of a filter, where only the last one may be `#`.
unfoldable pub is_filter : List Text → Bool
unfolding eq_text
is_filter [] = true
is_filter (l ∷ []) = eq_text l hash || is_level l
is_filter (l ∷ m ∷ ls) = is_level l && is_filter (m ∷ ls)

-- A level of a topic that is not empty and has no line terminator.
abbrev pub is_topic_level : Text → Bool
is_topic_level t = not (is_empty t) && all is_dot t

-- The levels of a topic that the search can find.
abbrev pub IsAsked : List Text → Type 0
IsAsked ts = All (λ t. (is_topic_level t ≡ true) × (all not_slash t ≡ true)) ts

-- What stands behind the first level.
abbrev pub continued : List Text → Text
continued [] = []
continued (t ∷ ts) = slash ∷ join (slash ∷ []) (t ∷ ts)

pub join-cons : (t : Text) (ts : List Text) → join (slash ∷ []) (t ∷ ts) ≡ t ++ continued ts
unfolding join
join-cons t [] = sym (append-nil t)
join-cons t (u ∷ ts) = refl

both-all :
    (p : ℕ → Bool) (c : ℕ) (q s : Text)
    → all p (c ∷ s) ≡ true
    → all p q ≡ true
    → all p (c ∷ q) ≡ true
both-all p c q s h k = ground arith

split-all : (p : ℕ → Bool) (s : Text) → all p s ≡ true → All (λ l. all p l ≡ true) (split slash s)
unfolding split
split-all p [] h = (refl, tt)
split-all p (c ∷ s) h =
    let (q, qs, e) = split-ne-nil slash s in
    elim (Bool-cases (c == slash)) [
      | inl k ↦ rw k ((refl, split-all p s (ground arith)))
      | inr k ↦
          let h' = subst (All (λ l. all p l ≡ true)) e (split-all p s (ground arith)) in
          rw (k, e) ((both-all p c q s h h'.0, h'.1))
    ]

split-not_slash : (s : Text) → All (λ l. all not_slash l ≡ true) (split slash s)
unfolding split
split-not_slash [] = (refl, tt)
split-not_slash (c ∷ s) =
    let (q, qs, e) = split-ne-nil slash s in
    elim (Bool-cases (c == slash)) [
      | inl k ↦ rw k ((refl, split-not_slash s))
      | inr k ↦
          let h' = subst (All (λ l. all not_slash l ≡ true)) e (split-not_slash s) in
          rw (k, e) ((ground arith, h'.1))
    ]

same_text : (q r : Text) → some q ≡ some r → q ≡ r
same_text q r h = ap (λ o. or_default o q) h

whole : (c : ℕ) (s p r : Text) → (c ∷ s) ≡ p → [] ≡ r → (c ∷ s) ≡ r ++ p
whole c s p r e f = e ∙ ap (λ q. q ++ p) f

absurd_none : {A : Type 0} {r : Text} → none ≡ some r → A
absurd_none h = cc

pub strip_suffix-some : (p s r : Text) → strip_suffix p s ≡ some r → s ≡ r ++ p
unfolding strip_suffix
strip_suffix-some [] [] r h = same_text [] r h ∙ sym (append-nil r)
strip_suffix-some (x ∷ p) [] r h = ground arith
strip_suffix-some p (c ∷ s) r h = elim (Bool-cases (eq_text (c ∷ s) p)) [
  | inl e ↦ whole c s p r ((eq_text_iff (c ∷ s) p).0 e) (same_text [] r (rw e at h))
  | inr e ↦ elim (Option-cases (strip_suffix p s)) [
    | inl n ↦ absurd_none (rw (e, n) at h)
    | inr (q, n) ↦
        ap (λ u. c ∷ u) (strip_suffix-some p s q n)
        ∙ ap (λ u. u ++ p) (same_text (c ∷ q) r (rw (e, n) at h))
  ]
]

eq_text-longer : (s : Text) → eq_text (s ++ codes "/#") (codes "#") ≡ false
unfolding eq_text
eq_text-longer [] = refl
eq_text-longer (d ∷ []) = ground arith
eq_text-longer (d ∷ c ∷ s) = ground arith

-- Where a text ends in `/#`, the suffix is stripped.
strip_suffix-append : (s : Text) → strip_suffix (codes "/#") (s ++ codes "/#") ≡ some s
unfolding strip_suffix eq_text
strip_suffix-append [] = refl
strip_suffix-append (c ∷ s) =
    rw (eq_text-longer s, strip_suffix-append s)
      (elim (c == b'/') as (λ b. (if b && false then some [] else some (c ∷ s)) ≡ some (c ∷ s)) [
        | true ↦ refl
        | false ↦ refl
      ])

pub run_of-all :
    (p : ℕ → Bool) (k : Text → Bool) (u s : Text)
    → all p u ≡ true
    → k s ≡ true
    → run_of p k (u ++ s) ≡ true
unfolding run_of
run_of-all p k [] [] h e = e
run_of-all p k [] (c ∷ s) h e = ground arith
run_of-all p k (c ∷ u) s h e = ground (arith, run_of-all p k u s)

-- Levels of which each is `+` or plain.
abbrev pub plain_levels : List Text → Bool
plain_levels = all is_level

hash-is_level : is_level hash ≡ false
unfolding eq_text
hash-is_level = refl

-- A filter has wildcards `+` only, or `#` at its end behind such levels.
pub is_filter-cases :
    (ls : List Text)
    → is_filter ls ≡ true
    → (plain_levels ls ≡ true)
      ⊎ ((ms : List Text) × (ls ≡ ms ++ hash ∷ []) × (plain_levels ms ≡ true))
unfolding is_filter
is_filter-cases [] h = inl refl
is_filter-cases (l ∷ []) h = elim (Bool-cases (eq_text l hash)) [
  | inl e ↦ inr ([], ap (λ t. t ∷ []) ((eq_text_iff l hash).0 e), refl)
  | inr e ↦ inl (ground arith)
]
is_filter-cases (l ∷ m ∷ ls) h = elim (is_filter-cases (m ∷ ls) (ground arith)) [
  | inl k ↦ inl (ground arith)
  | inr (ms, e, k) ↦ inr (l ∷ ms, ap (λ r. l ∷ r) e, ground arith)
]

pub item_of-plain : (c : ℕ) → not_wild c ≡ true → item_of c ≡ Filter.letter c
item_of-plain c h = ground arith

pub map-append : (a b : Text) → map item_of (a ++ b) ≡ map item_of a ++ map item_of b
map-append [] b = refl
map-append (c ∷ a) b = ap (λ r. item_of c ∷ r) (map-append a b)

pub all-append :
    (p : ℕ → Bool) (a b : Text) → all p a ≡ true → all p b ≡ true → all p (a ++ b) ≡ true
all-append p [] b h k = k
all-append p (c ∷ a) b h k = ground (arith, all-append p a b)

pub join-hash :
    (m : Text) (ms : List Text)
    → join (slash ∷ []) ((m ∷ ms) ++ hash ∷ []) ≡ join (slash ∷ []) (m ∷ ms) ++ codes "/#"
unfolding join
join-hash m [] = refl
join-hash m (n ∷ ms) =
    ap (λ r. m ++ slash ∷ r) (join-hash n ms)
    ∙ sym (append_assoc m (slash ∷ join (slash ∷ []) (n ∷ ms)) (codes "/#"))

pub hash_last :
    (f : Text) (fs : List Text) {A : Type 0} → f ≡ hash → plain_levels (f ∷ fs) ≡ true → A
hash_last f fs e l = let p = ap is_level e ∙ hash-is_level in ground arith

pub hash_behind : (ms : List Text) {A : Type 0} → plain_levels (ms ++ hash ∷ []) ≡ true → A
hash_behind [] l = hash_last hash [] refl l
hash_behind (m ∷ ms) l = hash_behind ms (ground arith)

pub filter_to_regex-none :
    (f : Text) → strip_suffix (codes "/#") f ≡ none → filter_to_regex f ≡ map item_of f
unfolding filter_to_regex
filter_to_regex-none f e = rw (e, filter_to_regex) refl

pub filter_to_regex-append :
    (r : Text) → filter_to_regex (r ++ codes "/#") ≡ map item_of r ++ Filter.below ∷ []
unfolding filter_to_regex
filter_to_regex-append r = rw (strip_suffix-append r, filter_to_regex) refl

pub IsAsked-split :
    (t : Text)
    → all is_dot t ≡ true
    → all (λ l. not (is_empty l)) (split slash t) ≡ true
    → IsAsked (split slash t)
unfolding split
IsAsked-split t d n = together (split slash t) n (split-all is_dot t d) (split-not_slash t)
  where
    together :
        (ts : List Text)
        → all (λ l. not (is_empty l)) ts ≡ true
        → All (λ l. all is_dot l ≡ true) ts
        → All (λ l. all not_slash l ≡ true) ts
        → All (λ t. (is_topic_level t ≡ true) × (all not_slash t ≡ true)) ts
    together [] n d s = tt
    together (t ∷ ts) n d s = ((ground arith, s.0), together ts (ground arith) d.1 s.1)

all-any : (p : ℕ → Bool) (s : Text) → any p s ≡ false → all (λ c. not (p c)) s ≡ true
all-any p [] h = refl
all-any p (c ∷ s) h = ground (arith, all-any p s)

Matches-plain : {fs ts : List Text} → Matches fs ts → All (λ l. all not_wild l ≡ true) fs → fs ≡ ts
Matches-plain done a = refl
Matches-plain (multi {f} e) a = wild_hash f e a.0
  where
    wild_hash : (f : Text) {A : Type 0} → f ≡ hash → all not_wild f ≡ true → A
    wild_hash f e h = let q = ap (all not_wild) e in ground arith
Matches-plain (single {f} e m) a = wild_plus f e a.0
  where
    wild_plus : (f : Text) {A : Type 0} → f ≡ plus → all not_wild f ≡ true → A
    wild_plus f e h = let q = ap (all not_wild) e in ground arith
Matches-plain (level e m) a = ap₂ (λ l ls. l ∷ ls) e (Matches-plain m a.1)

includes_self : (s : Text) → includes s s ≡ true
unfolding includes
includes_self [] = refl
includes_self (c ∷ s) =
    rw
      (subst (λ r. strip_prefix (c ∷ s) r ≡ some []) (append-nil (c ∷ s))
        (strip_prefix_self (c ∷ s) []))
      refl

-- A filter without wildcards that matches is the topic.
pub includes-Matches :
    (f t : Text)
    → any (λ c. c == b'+' || c == b'#' || c == b'*') f ≡ false
    → Matches (split slash f) (split slash t)
    → includes f t ≡ true
includes-Matches f t h m =
    let e : f ≡ t =
      sym (join-split slash f)
      ∙ ap (join (slash ∷ [])) (
          Matches-plain m
            (split-all not_wild f (all-any (λ c. c == b'+' || c == b'#' || c == b'*') f h)))
      ∙ join-split slash t in
    subst (λ u. includes f u ≡ true) e (includes_self f)

pub found_anyway :
    (a b w m : Bool)
    → (w ≡ false → b ≡ true)
    → m ≡ true
    → (if a then true else if b then true else if w then m else false) ≡ true
found_anyway true b w m h k = refl
found_anyway false true w m h k = refl
found_anyway false false true m h k = k
found_anyway false false false m h k = h refl
