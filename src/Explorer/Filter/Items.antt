-- ===== src/Explorer/Filter/Items.antt =====
-- The items of a search against the levels of a topic, one level at a time.
use mqtt_dashboard.Prelude.{
  ℕ, ◌≡◌, refl, sym, subst, ◌⊎◌, inl, inr, Bool, true, List, [], ◌∷◌, ◌++◌, map, all, arith,
  Bool-cases, append_assoc, append-nil,
}
use mqtt_dashboard.Prelude.Text.{Text, eq_text_iff, join, slash}
use mqtt_dashboard.Topic.{plus}
use mqtt_dashboard.Topic.Matching.{Matches, multi, single, level}
use mqtt_dashboard.Explorer.Filter.{
  Item, item_of, strip_suffix, filter_to_regex, is_dot, not_slash, run_of, match_items,
  topic_matches_filter,
}
use mqtt_dashboard.Explorer.Filter
use mqtt_dashboard.Explorer.Filter.Levels.{
  not_wild, is_level, is_topic_level, IsAsked, continued, join-cons, run_of-all, plain_levels,
  item_of-plain, map-append, all-append, hash_last,
}

module _ (same_letter : ℕ → ℕ → Bool) where
  -- One level of the filter against one of the topic, whatever follows.
  plain-match_items :
      (f : Text) (items : List Item) (s : Text)
      → ((c : ℕ) → same_letter c c ≡ true)
      → all not_wild f ≡ true
      → match_items same_letter items s ≡ true
      → match_items same_letter (map item_of f ++ items) (f ++ s) ≡ true
  unfolding match_items
  plain-match_items [] items s same h k = k
  plain-match_items (c ∷ f) items s same h k =
      rw (item_of-plain c (ground arith), same c)
        (plain-match_items f items s same (ground arith) k)

  plus-match_items :
      (t : Text) (items : List Item) (s : Text)
      → is_topic_level t ≡ true
      → all not_slash t ≡ true
      → match_items same_letter items s ≡ true
      → match_items same_letter (Filter.level ∷ items) (t ++ s) ≡ true
  unfolding match_items
  plus-match_items [] items s h n k = ground arith
  plus-match_items (c ∷ t) items s h n k =
      ground (arith, run_of-all not_slash (match_items same_letter items) t s)

  -- One level of either kind.
  level-match_items :
      (f t : Text) (items : List Item) (s : Text)
      → ((c : ℕ) → same_letter c c ≡ true)
      → is_level f ≡ true
      → (f ≡ plus) ⊎ (f ≡ t)
      → is_topic_level t ≡ true
      → all not_slash t ≡ true
      → match_items same_letter items s ≡ true
      → match_items same_letter (map item_of f ++ items) (t ++ s) ≡ true
  level-match_items f t items s same l (inl e) h n k =
      subst (λ g. match_items same_letter (map item_of g ++ items) (t ++ s) ≡ true) (sym e)
        (plus-match_items t items s h n k)
  level-match_items f t items s same l (inr e) h n k = elim (Bool-cases (all not_wild f)) [
    | inl w ↦
        subst (λ u. match_items same_letter (map item_of f ++ items) (u ++ s) ≡ true) e
          (plain-match_items f items s same w k)
    | inr w ↦
        subst (λ g. match_items same_letter (map item_of g ++ items) (t ++ s) ≡ true)
          (sym ((eq_text_iff f plus).0 (ground arith))) (plus-match_items t items s h n k)
  ]

  joined-match_items :
      (f t : Text) (fs ts : List Text) (items : List Item)
      → ((c : ℕ) → same_letter c c ≡ true)
      → is_level f ≡ true
      → (f ≡ plus) ⊎ (f ≡ t)
      → is_topic_level t ≡ true
      → all not_slash t ≡ true
      → match_items same_letter (map item_of (continued fs) ++ items) (continued ts) ≡ true
      → match_items same_letter
          (map item_of (join (slash ∷ []) (f ∷ fs)) ++ items)
          (join (slash ∷ []) (t ∷ ts))
        ≡ true
  joined-match_items f t fs ts items same l e h n k =
      rw (join-cons f fs, join-cons t ts, map-append f (continued fs), append_assoc)
        (level-match_items f t (map item_of (continued fs) ++ items) (continued ts) same l e h n k)

  slash-match_items :
      (items : List Item) (s : Text)
      → ((c : ℕ) → same_letter c c ≡ true)
      → match_items same_letter items s ≡ true
      → match_items same_letter (Filter.letter slash ∷ items) (slash ∷ s) ≡ true
  unfolding match_items
  slash-match_items items s same k = rw (same slash, k) refl

  -- The levels behind the first, then `items`, which match what the levels of `end` do.
  continued-match_items :
      (fs end ts : List Text) (items : List Item)
      → ((c : ℕ) → same_letter c c ≡ true)
      → plain_levels fs ≡ true
      → ((us : List Text)
          → Matches end us
          → IsAsked us
          → match_items same_letter items (continued us) ≡ true)
      → Matches (fs ++ end) ts
      → IsAsked ts
      → match_items same_letter (map item_of (continued fs) ++ items) (continued ts) ≡ true
  continued-match_items [] end ts items same l rest m a = rest ts m a
  continued-match_items (f ∷ fs) end ts items same l rest (multi e) a = hash_last f fs e l
  continued-match_items (f ∷ fs) end (t ∷ ts) items same l rest (single e m) a =
      slash-match_items (map item_of (join (slash ∷ []) (f ∷ fs)) ++ items)
        (join (slash ∷ []) (t ∷ ts)) same
        (joined-match_items f t fs ts items same (ground arith) (inl e) a.0.0 a.0.1
          (continued-match_items fs end ts items same (ground arith) rest m a.1))
  continued-match_items (f ∷ fs) end (t ∷ ts) items same l rest (level e m) a =
      slash-match_items (map item_of (join (slash ∷ []) (f ∷ fs)) ++ items)
        (join (slash ∷ []) (t ∷ ts)) same
        (joined-match_items f t fs ts items same (ground arith) (inr e) a.0.0 a.0.1
          (continued-match_items fs end ts items same (ground arith) rest m a.1))

  pub whole-match_items :
      (f t : Text) (fs end ts : List Text) (items : List Item)
      → ((c : ℕ) → same_letter c c ≡ true)
      → plain_levels (f ∷ fs) ≡ true
      → ((us : List Text)
          → Matches end us
          → IsAsked us
          → match_items same_letter items (continued us) ≡ true)
      → Matches ((f ∷ fs) ++ end) (t ∷ ts)
      → IsAsked (t ∷ ts)
      → match_items same_letter
          (map item_of (join (slash ∷ []) (f ∷ fs)) ++ items)
          (join (slash ∷ []) (t ∷ ts))
        ≡ true
  whole-match_items f t fs end ts items same l rest (multi e) a = hash_last f fs e l
  whole-match_items f t fs end ts items same l rest (single e m) a =
      joined-match_items f t fs ts items same (ground arith) (inl e) a.0.0 a.0.1
        (continued-match_items fs end ts items same (ground arith) rest m a.1)
  whole-match_items f t fs end ts items same l rest (level e m) a =
      joined-match_items f t fs ts items same (ground arith) (inr e) a.0.0 a.0.1
        (continued-match_items fs end ts items same (ground arith) rest m a.1)

  pub nothing-match_items :
      (us : List Text)
      → Matches [] us
      → IsAsked us
      → match_items same_letter [] (continued us) ≡ true
  unfolding match_items
  nothing-match_items [] m a = refl
  nothing-match_items (u ∷ us) m a = elim m [ ]

  pub anything-match_items :
      (s : Text) → all is_dot s ≡ true → run_of is_dot (match_items same_letter []) s ≡ true
  unfolding match_items
  anything-match_items s h =
      subst (λ r. run_of is_dot (match_items same_letter []) r ≡ true) (append-nil s)
        (run_of-all is_dot (match_items same_letter []) s [] h refl)

  IsAsked-dots :
      (t : Text) (ts : List Text)
      → IsAsked (t ∷ ts)
      → all is_dot (join (slash ∷ []) (t ∷ ts)) ≡ true
  unfolding join
  IsAsked-dots t [] a = ground arith
  IsAsked-dots t (u ∷ ts) a =
      all-append is_dot t (slash ∷ join (slash ∷ []) (u ∷ ts)) (ground arith)
        (IsAsked-dots u ts a.1)

  pub below-match_items :
      (us : List Text)
      → ((c : ℕ) → same_letter c c ≡ true)
      → IsAsked us
      → match_items same_letter (Filter.below ∷ []) (continued us) ≡ true
  unfolding match_items
  below-match_items [] same a = refl
  below-match_items (u ∷ us) same a =
      rw (same slash, anything-match_items (join (slash ∷ []) (u ∷ us)) (IsAsked-dots u us a)) refl
