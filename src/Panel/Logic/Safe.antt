-- ===== src/Panel/Logic/Safe.antt =====
-- What is saved of a rule cannot set itself off: the dialog's rules against the topics that the
-- panel of the saved rule listens to.
use mqtt_dashboard.Prelude.{
  ℕ, zero, suc, ◌≡◌, refl, sym, ap, subst, ◌∙◌, Bool, true, false, not, ◌&&◌, ◌||◌, List, [], ◌∷◌,
  Option, some, any, map, get_elem?, or_default, arith,
}
use mqtt_dashboard.Prelude.Text.{Text, eq_text, eq_text_iff, is_empty, trim, split, comma}
use mqtt_dashboard.Json.Runtime.{Runtime}
use mqtt_dashboard.Read.{non_empty}
use mqtt_dashboard.Topic.{mqtt_topic_matches}
use mqtt_dashboard.Panel.Logic.{Condition}
use mqtt_dashboard.Panel.Logic.Rule.{
  LogicConfig, RuleForm, either, given, first_topic, first_broker, primary_topic, primary_broker,
  hears_target, loop_conflict, rule_rules, final_config, handle_save,
}
use mqtt_dashboard.Panel.Logic.Live.{
  live_topic, live_broker, watched, resolved, source_of, head_source,
}
use mqtt_dashboard.Panel.Logic.Saved.{no_broken, handle_save-valid}

or_left : (a b : Bool) → (a || b) ≡ false → a ≡ false
or_left a b h = ground arith

or_right : (a b : Bool) → (a || b) ≡ false → b ≡ false
or_right a b h = ground arith

any_at {ℓ} :
    {A : Type ℓ} (p : A → Bool) (xs : List A) (i : ℕ) {x : A}
    → any p xs ≡ false
    → get_elem? xs i ≡ some x
    → p x ≡ false
any_at p [] i h e = cc
any_at p (y ∷ ys) zero h e = sym (ap (λ o. p (or_default o y)) e) ∙ or_left (p y) (any p ys) h
any_at p (y ∷ ys) (suc i) h e = any_at p ys i (or_right (p y) (any p ys) h) e

-- The panel of the saved rule takes the same topic and the same broker as the dialog does where a
-- condition names none.
either_twice :
    (a b c : Text)
    → either a (either (either a (either b c)) (either a (either b c))) ≡ either a (either b c)
either_twice a b c = ground arith

saved_broker :
    (R : Runtime) (f : RuleForm)
    → live_broker (final_config R f) (some (primary_broker f)) ≡ primary_broker f
unfolding live_broker final_config primary_broker
saved_broker R f = head_broker f.conditions
  where
    head_broker :
        (cs : List Condition)
        → either (given (head_source cs).0) (
            either
              (either (first_broker cs) (either f.source_broker_id f.fallback_broker))
              (either (first_broker cs) (either f.source_broker_id f.fallback_broker)))
          ≡ either (first_broker cs) (either f.source_broker_id f.fallback_broker)
    head_broker [] = ground arith
    head_broker (c ∷ cs) = either_twice (given c.broker_id) f.source_broker_id f.fallback_broker

either_own : (a b : Text) → is_empty a ≡ false → either a b ≡ a
either_own a b h = ground arith

either_filled : (a b : Text) → is_empty b ≡ false → is_empty (either a b) ≡ false
either_filled a b h = ground arith

saved_topic :
    (R : Runtime) (f : RuleForm)
    → is_empty (primary_topic f) ≡ false
    → live_topic (final_config R f) ≡ primary_topic f
unfolding live_topic final_config primary_topic
saved_topic R f h = head_topic f.conditions h
  where
    head_topic :
        (cs : List Condition)
        → is_empty (first_topic cs) ≡ false
        → either (trim (given (head_source cs).1)) (trim (first_topic cs)) ≡ first_topic cs
    head_topic [] h = cc
    head_topic (c ∷ cs) h = either_own (trim (given c.topic)) (trim (trim (given c.topic))) h

-- What a condition is resolved to is what the dialog checked.
last_false :
    (a b c d : Bool) → (a && b && c && d) ≡ false → a ≡ true → b ≡ true → c ≡ true → d ≡ false
last_false a b c d h p q r = ground arith

not_empty : (b : Bool) → b ≡ false → not b ≡ true
not_empty b h = ground arith

unheard :
    (f : RuleForm) (c : Condition) (j : ℕ) (t : Text)
    → hears_target f c ≡ false
    → is_empty (primary_topic f) ≡ false
    → is_empty (trim f.target_topic) ≡ false
    → either f.target_broker_id (primary_broker f) ≡ either (given c.broker_id) (primary_broker f)
    → get_elem? (split comma (trim f.target_topic)) j ≡ some t
    → mqtt_topic_matches (either (trim (given c.topic)) (primary_topic f)) (trim t) ≡ false
unfolding hears_target
unheard f c j t h p q b e =
    any_at (λ t. mqtt_topic_matches (either (trim (given c.topic)) (primary_topic f)) (trim t))
      (split comma (trim f.target_topic)) j
      (last_false
        (eq_text (either f.target_broker_id (primary_broker f))
          (either (given c.broker_id) (primary_broker f)))
        (not (is_empty (either (trim (given c.topic)) (primary_topic f))))
        (not (is_empty (trim f.target_topic)))
        (any (λ t. mqtt_topic_matches (either (trim (given c.topic)) (primary_topic f)) (trim t))
          (split comma (trim f.target_topic)))
        h ((eq_text_iff _ _).1 b)
        (not_empty _ (either_filled (trim (given c.topic)) (primary_topic f) p)) (not_empty _ q))
      e

-- A pair that the panel listens to comes from a condition.
mapped_at {ℓ κ} :
    {A : Type ℓ} {B : Type κ} (g : A → B) (xs : List A) (i : ℕ) {w : B}
    → get_elem? (map g xs) i ≡ some w
    → (x : A) × (get_elem? xs i ≡ some x) × (g x ≡ w)
mapped_at g [] i e = cc
mapped_at g (x ∷ xs) zero e = (x, refl, ap (λ o. or_default o (g x)) e)
mapped_at g (x ∷ xs) (suc i) e = mapped_at g xs i e

saved_watched :
    (R : Runtime) (f : RuleForm)
    → is_empty (primary_topic f) ≡ false
    → watched (final_config R f) (some (primary_broker f))
      ≡ map (resolved (primary_broker f) (primary_topic f)) (map source_of f.conditions)
unfolding watched
saved_watched R f h =
    rw (saved_broker R f, saved_topic R f h)
      (ap (map (resolved (primary_broker f) (primary_topic f)))
        (unfold final_config primary_topic in own f.conditions h))
  where
    own :
        (cs : List Condition)
        → is_empty (first_topic cs) ≡ false
        → (elim cs as (λ l. List (Option Text × Option Text)) [
          | [] ↦ (some (primary_broker f), some (primary_topic f)) ∷ []
          | c ∷ ds ↦ source_of c ∷ map source_of ds
        ])
          ≡ map source_of cs
    own [] e = cc
    own (c ∷ cs) e = refl

-- Nothing that the saved rule publishes to is matched by a topic that it listens to.
abbrev NoLoop : LogicConfig × Text → Type 0
NoLoop r =
    (i j : ℕ) (w : Text × Text) (t : Text)
    → get_elem? (watched r.0 (some r.1)) i ≡ some w
    → get_elem? (split comma (given r.0.target_topic)) j ≡ some t
    → w.0 ≡ either (given r.0.target_broker_id) (given r.0.source_broker_id)
    → mqtt_topic_matches w.1 (trim t) ≡ false

pub given-non_empty : (a : Text) → given (non_empty (some a)) ≡ a
given-non_empty [] = refl
given-non_empty (c ∷ a) = refl

saved_NoLoop :
    (R : Runtime) (f : RuleForm)
    → any (λ r. r.when) (rule_rules R f) ≡ false
    → NoLoop (final_config R f, primary_broker f)
unfolding final_config
saved_NoLoop R f h i j w t e d b =
    let (loop, topic, target, wild) = no_broken R f h in
    let at = sym (ap (λ l. get_elem? l i) (saved_watched R f topic)) ∙ e in
    let (s, at_s, to_w) =
      mapped_at (resolved (primary_broker f) (primary_topic f)) (map source_of f.conditions) i at in
    let (c, at_c, to_s) = mapped_at source_of f.conditions i at_s in
    let is_w = ap (resolved (primary_broker f) (primary_topic f)) to_s ∙ to_w in
    let same =
      sym (ap (λ a. either a (primary_broker f)) (given-non_empty f.target_broker_id))
      ∙ sym b
      ∙ sym (ap (λ p. p.0) is_w) in
    sym (ap (λ p. mqtt_topic_matches p.1 (trim t)) is_w)
    ∙ unheard f c j t (any_at (hears_target f) f.conditions i (unfold loop_conflict in loop) at_c)
        topic target same d

-- A rule that the dialog saves cannot set itself off: no topic that its panel listens to, with the
-- broker that the rule publishes to, matches a topic that it publishes to.
pub handle_save-mqtt_topic_matches :
    (R : Runtime) (f : RuleForm) (config : LogicConfig) (broker : Text) (i j : ℕ) (w : Text × Text)
    (t : Text)
    → handle_save R f ≡ some (config, broker)
    → get_elem? (watched config (some broker)) i ≡ some w
    → get_elem? (split comma (given config.target_topic)) j ≡ some t
    → w.0 ≡ either (given config.target_broker_id) (given config.source_broker_id)
    → mqtt_topic_matches w.1 (trim t) ≡ false
handle_save-mqtt_topic_matches R f config broker i j w t h =
    let (valid, saved) = handle_save-valid R f (config, broker) h in
    subst NoLoop saved (saved_NoLoop R f valid) i j w t
