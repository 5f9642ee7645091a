-- ===== src/Topic/Matching.antt =====
-- `mqttTopicMatches` decides the matching relation of MQTT topic filters.
use mqtt_dashboard.Prelude.{
  ◌≡◌, refl, sym, ap, ap₂, ◌∙◌, ◌↔◌, inl, inr, true, false, List, [], ◌∷◌, ◌++◌, arith, append-nil,
  Bool-cases, ◌==◌, ℕ, ==_iff,
}
use mqtt_dashboard.Prelude.Text.{
  Text, codes, eq_text, eq_text_iff, split, join, slash, strip_prefix, onto_first,
}
use mqtt_dashboard.Topic.{hash, plus, match_levels, is_hidden, mqtt_topic_matches, ws_topic_matches}

-- `#` takes all the levels left, none included; `+` takes one level, whatever it holds.
pub data Matches : List Text → List Text → Type 0 where
  done : Matches [] []
  multi : {f : Text} {fp tp : List Text} → f ≡ hash → Matches (f ∷ fp) tp
  single : {f t : Text} {fp tp : List Text} → f ≡ plus → Matches fp tp → Matches (f ∷ fp) (t ∷ tp)
  level : {f t : Text} {fp tp : List Text} → f ≡ t → Matches fp tp → Matches (f ∷ fp) (t ∷ tp)

match_levels_sound : (fp tp : List Text) → match_levels fp tp ≡ true → Matches fp tp
unfolding match_levels
match_levels_sound [] [] h = done
match_levels_sound [] (t ∷ tp) h = cc
match_levels_sound (f ∷ fp) [] h = multi ((eq_text_iff f hash).0 h)
match_levels_sound (f ∷ fp) (t ∷ tp) h = elim (Bool-cases (eq_text f hash)) [
  | inl e ↦ multi ((eq_text_iff f hash).0 e)
  | inr n ↦ elim (Bool-cases (eq_text f plus)) [
    | inl e ↦ single ((eq_text_iff f plus).0 e) (match_levels_sound fp tp (ground arith))
    | inr m ↦ elim (Bool-cases (eq_text f t)) [
      | inl e ↦ level ((eq_text_iff f t).0 e) (match_levels_sound fp tp (ground arith))
      | inr k ↦ ground arith
    ]
  ]
]

match_levels_complete : {fp tp : List Text} → Matches fp tp → match_levels fp tp ≡ true
unfolding match_levels
match_levels_complete done = refl
match_levels_complete (multi {tp = []} e) = (eq_text_iff _ _).1 e
match_levels_complete (multi {f} {tp = t ∷ tp} e) = ground (arith, eq_text_iff f hash)
match_levels_complete (single {f} e m) = ground (arith, eq_text_iff f plus, match_levels_complete m)
match_levels_complete (level {f} {t} e m) = ground (arith, eq_text_iff f t, match_levels_complete m)

Matches-self : (l : List Text) → Matches l l
Matches-self [] = done
Matches-self (t ∷ l) = level refl (Matches-self l)

-- A filter matches a topic exactly when it is not hidden by the `$` rule and its levels match.
pub mqtt_topic_matches_iff :
    (filter topic : Text)
    → (mqtt_topic_matches filter topic ≡ true)
      ↔ ((is_hidden filter topic ≡ false) × Matches (split slash filter) (split slash topic))
unfolding mqtt_topic_matches
mqtt_topic_matches_iff f t = elim (Bool-cases (is_hidden f t)) [
  | inl h ↦ (λ e. ground arith, λ p. ground arith)
  | inr n ↦ rw n (λ e. (refl, match_levels_sound _ _ e), λ p. match_levels_complete p.1)
]

is_hidden_self : (t : Text) → is_hidden t t ≡ false
is_hidden_self t = ground arith

-- The two copies of the function agree on every filter and topic.
pub ws_topic_matches-mqtt_topic_matches :
    (filter topic : Text) → ws_topic_matches filter topic ≡ mqtt_topic_matches filter topic
unfolding ws_topic_matches
ws_topic_matches-mqtt_topic_matches f t = elim (Bool-cases (eq_text f t)) [
  | inl e ↦ rw e (
      rw (← (eq_text_iff f t).0 e)
        (sym ((mqtt_topic_matches_iff f f).1 (is_hidden_self f, Matches-self (split slash f)))))
  | inr n ↦ rw n (unfold mqtt_topic_matches in refl)
]

onto_first-append :
    (c : ℕ) (p : Text) (ps qs : List Text)
    → onto_first c ((p ∷ ps) ++ qs) ≡ onto_first c (p ∷ ps) ++ qs
onto_first-append c p ps qs = refl

pub split-ne-nil : (sep : ℕ) (s : Text) → (p : Text) × (ps : List Text) × (split sep s ≡ p ∷ ps)
unfolding split
split-ne-nil sep [] = ([], [], refl)
split-ne-nil sep (c ∷ s) = elim (Bool-cases (c == sep)) [
  | inl e ↦ ([], split sep s, rw e)
  | inr n ↦ let (p, ps, eq) = split-ne-nil sep s in (c ∷ p, ps, rw (n, eq))
]

pub split-append : (sep : ℕ) (s r : Text) → split sep (s ++ sep ∷ r) ≡ split sep s ++ split sep r
unfolding split
split-append sep [] r = ground (arith, ==_iff sep sep)
split-append sep (c ∷ s) r = elim (Bool-cases (c == sep)) [
  | inl e ↦ rw (e, split-append sep s r)
  | inr n ↦ let (p, ps, eq) = split-ne-nil sep s in rw (n, split-append sep s r) (rw eq refl)
]

join-onto_first :
    (c sep : ℕ) (p : Text) (ps : List Text)
    → join (sep ∷ []) (onto_first c (p ∷ ps)) ≡ c ∷ join (sep ∷ []) (p ∷ ps)
unfolding join
join-onto_first c sep p [] = refl
join-onto_first c sep p (q ∷ ps) = refl

pub join-split : (sep : ℕ) (s : Text) → join (sep ∷ []) (split sep s) ≡ s
unfolding join split
join-split sep [] = refl
join-split sep (c ∷ s) =
    let (p, ps, e) = split-ne-nil sep s in
    elim (Bool-cases (c == sep)) [
      | inl k ↦
          rw (k, e)
            (ap₂ (λ a b. a ∷ b) (sym ((==_iff c sep).0 k))
              (ap (join (sep ∷ [])) (sym e) ∙ join-split sep s))
      | inr k ↦
          rw (k, e)
            (join-onto_first c sep p ps
              ∙ ap (λ r. c ∷ r) (ap (join (sep ∷ [])) (sym e) ∙ join-split sep s))
    ]

Matches-append : (l : List Text) {fp tp : List Text} → Matches fp tp → Matches (l ++ fp) (l ++ tp)
Matches-append [] m = m
Matches-append (t ∷ l) m = level refl (Matches-append l m)

is_hidden-child :
    (t s r : Text)
    → (is_hidden (t ++ slash ∷ s) (t ++ []) ≡ false)
      × (is_hidden (t ++ slash ∷ s) (t ++ slash ∷ r) ≡ false)
unfolding strip_prefix
is_hidden-child [] s r = (refl, refl)
is_hidden-child (c ∷ t) s r = (ground arith, ground arith)

Matches-child :
    (t : Text) (tp : List Text) → Matches (split slash (t ++ slash ∷ hash)) (split slash t ++ tp)
unfolding split
Matches-child t tp = rw split-append (Matches-append (split slash t) (multi refl))

-- A filter that ends in `/#` matches its parent topic and every topic below that.
pub mqtt_topic_matches_parent :
    (t rest : Text)
    → (mqtt_topic_matches (t ++ codes "/#") t ≡ true)
      × (mqtt_topic_matches (t ++ codes "/#") (t ++ slash ∷ rest) ≡ true)
mqtt_topic_matches_parent t rest =
    let h = is_hidden-child t hash rest in
    (
      (mqtt_topic_matches_iff (t ++ codes "/#") t).1
          (rw append-nil at h.0, rw append-nil at (Matches-child t [])),
      (mqtt_topic_matches_iff (t ++ codes "/#") (t ++ slash ∷ rest)).1
          (h.1, rw (← split-append slash t rest) at (Matches-child t (split slash rest))),
    )
