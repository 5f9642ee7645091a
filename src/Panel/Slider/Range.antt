-- ===== src/Panel/Slider/Range.antt =====
-- What a slider publishes is within its range.
use mqtt_dashboard.Prelude.{
  ◌≡◌, Bool, true, false, not, Option, if◌then◌else◌, Bool-cases, inl, inr,
}
use mqtt_dashboard.Json.Runtime.{Runtime}
use mqtt_dashboard.Panel.Slider.{
  Arithmetic, SliderRange, finite_or, above, normalize_range, largest, smallest, snapped, at_most,
  clamp_to_range,
}

module _ (R : Runtime) (A : Arithmetic R.Num) where
  open R use {Num, lt_num, numeral, is_finite}
  open A use {add}

  -- What IEEE 754 says of the comparison of numbers and of the sum with 1.
  pub record IsOrdered : Type 0 where
    pub irreflexive : (a : Num) → lt_num a a ≡ false
    pub asymmetric : (a b : Num) → lt_num a b ≡ true → lt_num b a ≡ false
    pub one_more : (a : Num) → lt_num (add a (numeral 1)) a ≡ false

  abbrev pub InRange : SliderRange R A → Num → Type 0
  InRange range v = (lt_num v range.min ≡ false) × (lt_num range.max v ≡ false)

  above-ordered : (raw min : Num) → IsOrdered → lt_num (above R A raw min) min ≡ false
  above-ordered raw min o = elim (Bool-cases (lt_num min raw)) [
    | inl e ↦ rw e (o.asymmetric min raw e)
    | inr e ↦ rw e (o.one_more min)
  ]

  pub normalize_range-ordered :
      (min max step : Option Num)
      → IsOrdered
      → lt_num (normalize_range R A min max step).max (normalize_range R A min max step).min ≡ false
  unfolding normalize_range
  normalize_range-ordered min max step o = above-ordered _ (finite_or R A min (numeral 0)) o

  largest-lem : (a b : Num) → IsOrdered → lt_num (largest R A a b) a ≡ false
  largest-lem a b o = elim (Bool-cases (lt_num a b)) [
    | inl e ↦ rw e (o.asymmetric a b e)
    | inr e ↦ rw e (o.irreflexive a)
  ]

  smallest-lem :
      (a b low : Num)
      → IsOrdered
      → lt_num a low ≡ false
      → lt_num b low ≡ false
      → (lt_num (smallest R A a b) low ≡ false) × (lt_num a (smallest R A a b) ≡ false)
  smallest-lem a b low o h k = elim (Bool-cases (lt_num b a)) [
    | inl e ↦ rw e (k, o.asymmetric b a e)
    | inr e ↦ rw e (h, o.irreflexive a)
  ]

  -- The tests of `clampToRange`, each with its result.
  guarded-InRange :
      (range : SliderRange R A) (odd low high : Bool) (v : Num)
      → IsOrdered
      → lt_num range.max range.min ≡ false
      → InRange range v
      → InRange range
          (if odd then range.min else if low then range.min else if high then range.max else v)
  guarded-InRange range true low high v o h k = (o.irreflexive range.min, h)
  guarded-InRange range false true high v o h k = (o.irreflexive range.min, h)
  guarded-InRange range false false true v o h k = (h, o.irreflexive range.max)
  guarded-InRange range false false false v o h k = k

  -- Whatever number is asked for, the one that the slider of a configuration publishes is not below
  -- the low end of its range and not above the high end.
  pub clamp_to_range-InRange :
      (min max step : Option Num) (v : Num)
      → IsOrdered
      → let range = normalize_range R A min max step in InRange range (clamp_to_range R A v range)
  unfolding clamp_to_range
  clamp_to_range-InRange min max step v o =
      let range = normalize_range R A min max step in
      let h = normalize_range-ordered min max step o in
      guarded-InRange range (not (is_finite v)) (at_most R A v range.min) (at_most R A range.max v)
        (smallest R A range.max (largest R A range.min (snapped R A v range))) o h
        (smallest-lem range.max (largest R A range.min (snapped R A v range)) range.min o h
          (largest-lem range.min (snapped R A v range) o))
