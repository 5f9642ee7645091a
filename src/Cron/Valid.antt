-- ===== src/Cron/Valid.antt =====
-- Which expressions `validateCron` accepts.
use mqtt_dashboard.Prelude.{
  ◌≤◌, ◌≡◌, ◌↔◌, ◌⊎◌, refl, true, false, List, [], ◌∷◌, none, some, length, All, arith,
}
use mqtt_dashboard.Prelude.Text.{Text, eq_text_iff, is_empty, split, trim, comma}
use mqtt_dashboard.Cron.{
  CronField, CronParts, cron_fields, is_digits, digits_from, range_of, step_of, star, has_bad_step,
  check_values, check_part, check_parts, check_fields, five_parts, split_spaces, validate_cron,
}

-- A number that the field allows.
abbrev pub InField : CronField → Text → Type 0
InField field n =
    (is_digits n ≡ true) × (field.min ≤ digits_from 0 n) × (digits_from 0 n ≤ field.max)

-- A part of a field: a star, or numbers of the field joined by `-`, with a step in digits or none.
abbrev pub IsPart : CronField → Text → Type 0
IsPart field part =
    (has_bad_step (step_of part) ≡ false)
    × ((range_of part ≡ star) ⊎ All (InField field) (split b'-' (range_of part)))

abbrev pub AreFields : List CronField → List Text → Type 0
AreFields (f ∷ fs) (t ∷ ts) = All (IsPart f) (split comma t) × AreFields fs ts
AreFields _ _ = Unit

check_values_iff :
    (field : CronField) (ns : List Text) → (check_values field ns ≡ none) ↔ All (InField field) ns
unfolding check_values
check_values_iff field [] = ground arith
check_values_iff field (n ∷ ns) = ground (arith, check_values_iff field ns)

check_part_iff :
    (field : CronField) (part : Text) → (check_part field part ≡ none) ↔ IsPart field part
unfolding check_part
check_part_iff field part =
    ground
      (arith, eq_text_iff (range_of part) star, check_values_iff field (split b'-' (range_of part)))

check_parts_iff :
    (field : CronField) (parts : List Text)
    → (check_parts field parts ≡ none) ↔ All (IsPart field) parts
unfolding check_parts
check_parts_iff field [] = ground arith
check_parts_iff field (p ∷ ps) = ground (arith, check_part_iff field p, check_parts_iff field ps)

check_fields_iff :
    (fields : List CronField) (ts : List Text)
    → (check_fields fields ts ≡ none) ↔ AreFields fields ts
unfolding check_fields
check_fields_iff (f ∷ fs) (t ∷ ts) =
    ground (arith, check_parts_iff f (split comma t), check_fields_iff fs ts)
check_fields_iff [] ts = ground arith
check_fields_iff (f ∷ fs) [] = ground arith

-- An expression is valid exactly when it is not blank, has five fields, and every part of every
-- field is a star, or numbers of that field joined by `-`, with a step in digits or none.
pub validate_cron_iff :
    (expr : Text)
    → (validate_cron expr ≡ none) ↔ (
        (is_empty (trim expr) ≡ false)
        × (length (split_spaces (trim expr)) ≡ 5)
        × AreFields cron_fields (split_spaces (trim expr)))
unfolding validate_cron
validate_cron_iff expr = ground (arith, check_fields_iff cron_fields (split_spaces (trim expr)))

five_parts-length :
    (ts : List Text) → length ts ≡ 5 → (parts : CronParts) × (five_parts ts ≡ some parts)
five_parts-length (a ∷ b ∷ c ∷ d ∷ e ∷ []) h = (_, refl)
five_parts-length (a ∷ b ∷ c ∷ d ∷ e ∷ f ∷ ts) h = ground arith
five_parts-length _ h = ground arith

pub five_parts-validate_cron :
    (expr : Text)
    → validate_cron expr ≡ none
    → (parts : CronParts) × (five_parts (split_spaces (trim expr)) ≡ some parts)
five_parts-validate_cron expr h =
    five_parts-length (split_spaces (trim expr)) (((validate_cron_iff expr).0 h).1)
