-- ===== src/Explorer/Filter/Wildcards.antt =====
-- The search of the explorer against the topic filters of MQTT.
use mqtt_dashboard.Prelude.{
  ℕ, ◌≡◌, sym, ap, subst, ◌∙◌, inl, inr, Bool, true, not, ◌||◌, List, [], ◌∷◌, ◌++◌, map, any, all,
  ◌==◌, Option-cases, append-nil,
}
use mqtt_dashboard.Prelude.Text.{Text, codes, includes, is_empty, split, join, slash, trim}
use mqtt_dashboard.Topic.{hash, mqtt_topic_matches}
use mqtt_dashboard.Topic.Matching.{
  Matches, mqtt_topic_matches_iff, split-ne-nil, split-append, join-split,
}
use mqtt_dashboard.Explorer.Filter.{
  Item, item_of, strip_suffix, filter_to_regex, is_dot, not_slash, run_of, match_items,
  topic_matches_filter,
}
use mqtt_dashboard.Explorer.Filter
use mqtt_dashboard.Explorer.Filter.Levels.{
  is_filter, IsAsked, strip_suffix-some, plain_levels, is_filter-cases, join-hash, hash_behind,
  filter_to_regex-none, filter_to_regex-append, IsAsked-split, includes-Matches, found_anyway,
}
use mqtt_dashboard.Explorer.Filter.Items.{
  whole-match_items, nothing-match_items, anything-match_items, below-match_items,
}

module _ (same_letter : ℕ → ℕ → Bool) where
  -- Without `#`, the items are those of the text.
  plain-filter_to_regex :
      (f t : Text)
      → ((c : ℕ) → same_letter c c ≡ true)
      → plain_levels (split slash f) ≡ true
      → Matches (split slash f) (split slash t)
      → IsAsked (split slash t)
      → match_items same_letter (filter_to_regex f) t ≡ true
  unfolding split
  plain-filter_to_regex f t same l m a = elim (Option-cases (strip_suffix (codes "/#") f)) [
    | inr (r, e) ↦
        hash_behind (split slash r)
          (rw (strip_suffix-some (codes "/#") f r e, split-append slash r hash) at l)
    | inl e ↦
        let (g, gs, eg) = split-ne-nil slash f in
        let (u, us, eu) = split-ne-nil slash t in
        let ef : join (slash ∷ []) (g ∷ gs) ≡ f =
          ap (join (slash ∷ [])) (sym eg) ∙ join-split slash f in
        let et : join (slash ∷ []) (u ∷ us) ≡ t =
          ap (join (slash ∷ [])) (sym eu) ∙ join-split slash t in
        let h =
          whole-match_items same_letter g u gs [] us [] same
            (subst (λ x. plain_levels x ≡ true) eg l) (nothing-match_items same_letter)
            (subst (λ x. Matches x (u ∷ us)) (eg ∙ sym (append-nil (g ∷ gs)))
              (subst (λ x. Matches (split slash f) x) eu m))
            (subst IsAsked eu a) in
        rw (filter_to_regex-none f e, ← ef, ← et)
          (subst (λ i. match_items same_letter i (join (slash ∷ []) (u ∷ us)) ≡ true)
            (append-nil (map item_of (join (slash ∷ []) (g ∷ gs)))) h)
  ]

  -- With `#` behind other levels, the suffix is the optional group.
  hash-filter_to_regex :
      (f t m : Text) (ms : List Text)
      → ((c : ℕ) → same_letter c c ≡ true)
      → split slash f ≡ (m ∷ ms) ++ hash ∷ []
      → plain_levels (m ∷ ms) ≡ true
      → Matches (split slash f) (split slash t)
      → IsAsked (split slash t)
      → match_items same_letter (filter_to_regex f) t ≡ true
  hash-filter_to_regex f t m ms same e l h a =
      let (u, us, eu) = split-ne-nil slash t in
      let ef : f ≡ join (slash ∷ []) (m ∷ ms) ++ codes "/#" =
        sym (join-split slash f) ∙ ap (join (slash ∷ [])) e ∙ join-hash m ms in
      let et : join (slash ∷ []) (u ∷ us) ≡ t =
        ap (join (slash ∷ [])) (sym eu) ∙ join-split slash t in
      rw (ef, filter_to_regex-append (join (slash ∷ []) (m ∷ ms)))
        (subst
          (λ s.
            match_items same_letter (map item_of (join (slash ∷ []) (m ∷ ms)) ++ Filter.below ∷ [])
              s
            ≡ true)
          et
          (whole-match_items same_letter m u ms (hash ∷ []) us (Filter.below ∷ []) same l
            (λ vs n b. below-match_items same_letter vs same b)
            (subst (λ x. Matches x (u ∷ us)) e (subst (λ x. Matches (split slash f) x) eu h))
            (subst IsAsked eu a)))

  only_hash :
      (t : Text) → all is_dot t ≡ true → match_items same_letter (filter_to_regex hash) t ≡ true
  unfolding filter_to_regex match_items
  only_hash t d = anything-match_items same_letter t d

  filter_to_regex_finds :
      (f t : Text)
      → ((c : ℕ) → same_letter c c ≡ true)
      → is_filter (split slash f) ≡ true
      → Matches (split slash f) (split slash t)
      → IsAsked (split slash t)
      → all is_dot t ≡ true
      → match_items same_letter (filter_to_regex f) t ≡ true
  unfolding join
  filter_to_regex_finds f t same w m a d = elim (is_filter-cases (split slash f) w) [
    | inl l ↦ plain-filter_to_regex f t same l m a
    | inr ([], e, l) ↦ rw (sym (join-split slash f) ∙ ap (join (slash ∷ [])) e) (only_hash t d)
    | inr (n ∷ ms, e, l) ↦ hash-filter_to_regex f t n ms same e l m a
  ]

  -- A search that is a topic filter of MQTT, `+` as whole levels and `#` as the last one, finds
  -- every topic that the filter matches, if no level of the topic is empty: the regular expression
  -- of the search asks for a character where `+` stands. The search and the topic are in lower case, without
  -- spaces around the search and without line terminators in the topic.
  pub topic_matches_filter-mqtt_topic_matches :
      (lower_case : Text → Text) (topic filter : Text)
      → ((c : ℕ) → same_letter c c ≡ true)
      → lower_case topic ≡ topic
      → lower_case filter ≡ filter
      → trim filter ≡ filter
      → is_filter (split slash filter) ≡ true
      → all is_dot topic ≡ true
      → all (λ l. not (is_empty l)) (split slash topic) ≡ true
      → mqtt_topic_matches filter topic ≡ true
      → topic_matches_filter same_letter lower_case topic filter ≡ true
  unfolding topic_matches_filter
  topic_matches_filter-mqtt_topic_matches lower_case t f same lt lf tf w d n h =
      let m = ((mqtt_topic_matches_iff f t).0 h).1 in
      let r = filter_to_regex_finds f t same w m (IsAsked-split t d n) d in
      rw (tf, lt, lf, topic_matches_filter)
        (found_anyway (is_empty f) (includes f t) (any (λ c. c == b'+' || c == b'#' || c == b'*') f)
          (match_items same_letter (filter_to_regex f) t) (λ e. includes-Matches f t e m) r)
