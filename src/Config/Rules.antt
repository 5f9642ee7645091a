-- ===== src/Config/Rules.antt =====
-- What the shared rules let through.
use mqtt_dashboard.Prelude.{
  ◌≡◌, ◌⊎◌, true, false, List, [], ◌∷◌, some, filter, inl, inr, arith, All, Bool-cases,
  Option-cases, length, ltb, ◌<◌,
}
use mqtt_dashboard.Prelude.Text.{Text, split_list, comma}
use mqtt_dashboard.Json.Runtime.{Runtime}
use mqtt_dashboard.Config.{
  use_config_validation, TopicRuleSpec, is_wild, topic_rules, RangeRuleSpec, num, bad_step,
  range_rules,
}

none_wild :
    (ts : List Text) → ltb 0 (length (filter is_wild ts)) ≡ false → All (λ t. is_wild t ≡ false) ts
none_wild [] h = tt
none_wild (t ∷ ts) h = elim (Bool-cases (is_wild t)) [
  | inl w ↦ ground arith
  | inr n ↦ (n, none_wild ts (rw n at h))
]

-- If Save is on, a topic to publish to has at least one entry, none has a wildcard, and there is
-- one only where one is allowed.
pub topic_rules_publishable :
    (spec : TopicRuleSpec)
    → (use_config_validation (topic_rules spec)).save_disabled ≡ false
    → spec.allow_wildcards ≡ false
    → (0 < length (split_list comma spec.topic))
      × All (λ t. is_wild t ≡ false) (split_list comma spec.topic)
      × ((spec.allow_multiple ≡ true) ⊎ (length (split_list comma spec.topic) ≡ 1))
unfolding use_config_validation topic_rules
topic_rules_publishable spec h w =
    (ground arith, none_wild (split_list comma spec.topic) (ground arith), ground arith)

module _ (R : Runtime) where
  open R use {Num, lt_num, eq_num}

  -- If Save is on, both ends of the range are numbers, the high one neither below nor equal to the
  -- low one, and a step that is asked for is a number above 0.
  pub range_rules_ordered :
      (spec : RangeRuleSpec)
      → (use_config_validation (range_rules R spec)).save_disabled ≡ false
      → (low : Num) × (high : Num) × (num R spec.low ≡ some low)
        × (num R spec.high ≡ some high)
        × (lt_num high low ≡ false)
        × (eq_num high low ≡ false)
        × (bad_step R spec.step ≡ false)
  unfolding use_config_validation range_rules
  range_rules_ordered spec h = elim (Option-cases (num R spec.low)) [
    | inl e ↦ ground arith
    | inr (low, e) ↦ elim (Option-cases (num R spec.high)) [
      | inl e' ↦ ground arith
      | inr (high, e') ↦ (low, high, e, e', ground arith, ground arith, ground arith)
    ]
  ]
