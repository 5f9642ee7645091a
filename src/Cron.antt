-- ===== src/Cron.antt =====
-- Cron expressions, frontend/src/components/panels/cronUtils.ts: `validateCron`, `matchesCron` and
-- `getPreviousCronRun`.
pub mod Search
pub mod Valid
use mqtt_dashboard.Prelude.{
  ℕ, zero, suc, ◌+◌, ◌-◌, ◌*◌, ◌%◌, Bool, true, false, not, ◌&&◌, ◌||◌, List, [], ◌∷◌, Option, none,
  some, any, all, head?, if◌then◌else◌, ◌==◌, ltb, leb, length, is_some,
}
use mqtt_dashboard.Prelude.Text.{
  Text, codes, eq_text, includes, is_empty, is_space, split, trim, slash, comma, onto_first,
}

pub record CronField : Type 0 where
  pub name : Text
  pub min : ℕ
  pub max : ℕ

abbrev pub minute_field : CronField
minute_field = record { name = codes "minute"; min = 0; max = 59 }

abbrev pub hour_field : CronField
hour_field = record { name = codes "hour"; min = 0; max = 23 }

abbrev pub dom_field : CronField
dom_field = record { name = codes "day of month"; min = 1; max = 31 }

abbrev pub month_field : CronField
month_field = record { name = codes "month"; min = 1; max = 12 }

abbrev pub dow_field : CronField
dow_field = record { name = codes "weekday"; min = 0; max = 6 }

abbrev pub cron_fields : List CronField
cron_fields = minute_field ∷ hour_field ∷ dom_field ∷ month_field ∷ dow_field ∷ []

-- The messages of `validateCron`, by what they say and of which field.
pub data CronError : Type 0 where
  required : CronError
  not_five : ℕ → CronError
  bad_step : Text → CronError
  bad_value : Text → Text → CronError
  out_of_range : Text → ℕ → CronError

abbrev starts_spaced : Text → Bool
starts_spaced [] = false
starts_spaced (c ∷ s) = is_space c

-- `split(/\s+/)`: a run of spaces separates where its last one stands.
unfoldable pub split_spaces : Text → List Text
unfolding is_space
split_spaces [] = [] ∷ []
split_spaces (c ∷ s) =
    let rest = split_spaces s in
    if is_space c then (if starts_spaced s then rest else [] ∷ rest) else onto_first c rest

abbrev is_cron_digit : ℕ → Bool
is_cron_digit c = leb b'0' c && leb c b'9'

-- `/^\d+$/`
abbrev pub is_digits : Text → Bool
is_digits [] = false
is_digits (c ∷ s) = all is_cron_digit (c ∷ s)

-- The number that the leading digits write, after the digits of `n`.
unfoldable pub digits_from : ℕ → Text → ℕ
digits_from n [] = n
digits_from n (c ∷ s) =
    let rest = digits_from (n * 10 + (c - b'0')) s in if is_cron_digit c then rest else n

abbrev second : List Text → Option Text
second [] = none
second (a ∷ []) = none
second (a ∷ b ∷ xs) = some b

-- The piece before the first `/`.
abbrev pub range_of : Text → Text
range_of part = elim (head? (split slash part)) [ none ↦ [] | some r ↦ r ]

abbrev pub step_of : Text → Option Text
step_of part = second (split slash part)

abbrev pub star : Text
star = codes "*"

unfoldable pub check_values : CronField → List Text → Option CronError
unfolding digits_from
check_values field [] = none
check_values field (n ∷ ns) =
    let rest = check_values field ns in
    if not (is_digits n)
    then some (bad_value field.name n)
    else if ltb (digits_from 0 n) field.min || ltb field.max (digits_from 0 n)
    then some (out_of_range field.name (digits_from 0 n))
    else rest

abbrev pub has_bad_step : Option Text → Bool
has_bad_step none = false
has_bad_step (some step) = not (is_digits step)

unfoldable pub check_part : CronField → Text → Option CronError
unfolding check_values eq_text split
check_part field part =
    if has_bad_step (step_of part)
    then some (bad_step field.name)
    else if eq_text (range_of part) star
    then none
    else check_values field (split b'-' (range_of part))

-- The first error of the parts.
unfoldable pub check_parts : CronField → List Text → Option CronError
unfolding check_part
check_parts field [] = none
check_parts field (p ∷ ps) = elim (check_part field p) [
  | some e ↦ some e
  | none ↦ check_parts field ps
]

unfoldable pub check_fields : List CronField → List Text → Option CronError
unfolding check_parts split
check_fields (f ∷ fs) (t ∷ ts) = elim (check_parts f (split comma t)) [
  | some e ↦ some e
  | none ↦ check_fields fs ts
]
check_fields _ _ = none

unfoldable pub validate_cron : Text → Option CronError
unfolding trim split_spaces check_fields
validate_cron expr =
    let trimmed = trim expr in
    let fields = split_spaces trimmed in
    if is_empty trimmed
    then some required
    else if not (length fields == 5)
    then some (not_five (length fields))
    else check_fields cron_fields fields

abbrev leading_digits : Text → Option ℕ
leading_digits [] = none
leading_digits (c ∷ s) = if is_cron_digit c then some (digits_from 0 (c ∷ s)) else none

-- `parseInt(text, 10)`, without its sign: only a step can have a minus sign, and the multiples of a
-- step do not depend on it. `none` is `NaN`.
unfoldable pub parse_int : Text → Option ℕ
unfolding digits_from
parse_int [] = none
parse_int (c ∷ s) = if c == b'+' || c == b'-' then leading_digits s else leading_digits (c ∷ s)

-- `d % step === 0`; a remainder by 0 or by `NaN` is `NaN`.
abbrev pub is_multiple : ℕ → Option ℕ → Bool
is_multiple d none = false
is_multiple d (some zero) = false
is_multiple d (some (suc n)) = (d % suc n) == 0

-- `stepStr ? parseInt(stepStr, 10) : 1`
abbrev pub step_value : Option Text → Option ℕ
step_value none = some 1
step_value (some []) = some 1
step_value (some (c ∷ s)) = parse_int (c ∷ s)

-- `val < min || val > max`, where a comparison with `NaN` is false
abbrev outside : ℕ → Option ℕ → Option ℕ → Bool
outside val min max =
    (elim min [ none ↦ false | some m ↦ ltb val m ])
    || (elim max [ none ↦ false | some m ↦ ltb m val ])

-- `(val - min) % step === 0`
abbrev steps_from : ℕ → Option ℕ → Option ℕ → Bool
steps_from val none step = false
steps_from val (some min) step = is_multiple (val - min) step

abbrev match_range : ℕ → List Text → Option ℕ → Bool
match_range val (a ∷ b ∷ xs) step =
    not (outside val (parse_int a) (parse_int b)) && steps_from val (parse_int a) step
match_range val _ step = false

abbrev match_value : ℕ → Option ℕ → Bool
match_value val none = false
match_value val (some n) = n == val

-- A value is never below its field's minimum.
unfoldable pub match_cron_part : ℕ → Text → ℕ → Bool
unfolding eq_text split parse_int includes
match_cron_part val part field_min =
    if eq_text part star
    then true
    else if eq_text (range_of part) star
    then is_multiple (val - field_min) (step_value (step_of part))
    else if includes (codes "-") (range_of part)
    then match_range val (split b'-' (range_of part)) (step_value (step_of part))
    else match_value val (parse_int (range_of part))

unfoldable pub match_cron_field : ℕ → Text → ℕ → Bool
unfolding match_cron_part split
match_cron_field val field_expr field_min =
    any (λ part. match_cron_part val part field_min) (split comma field_expr)

-- A `Date`, as its local getters read it; `month` counts from 0.
pub record LocalTime : Type 0 where
  pub minutes : ℕ
  pub hours : ℕ
  pub date : ℕ
  pub month : ℕ
  pub day : ℕ

-- The five fields of an expression that has five.
pub record CronParts : Type 0 where
  pub minute_expr : Text
  pub hour_expr : Text
  pub dom_expr : Text
  pub month_expr : Text
  pub dow_expr : Text

abbrev pub five_parts : List Text → Option CronParts
five_parts (a ∷ b ∷ c ∷ d ∷ e ∷ []) =
    some (record { minute_expr = a; hour_expr = b; dom_expr = c; month_expr = d; dow_expr = e })
five_parts _ = none

unfoldable pub matches_cron_time : CronParts → LocalTime → Bool
unfolding match_cron_field
matches_cron_time parts date =
    match_cron_field date.minutes parts.minute_expr minute_field.min
    && match_cron_field date.hours parts.hour_expr hour_field.min

unfoldable pub matches_cron_date : CronParts → LocalTime → Bool
unfolding match_cron_field eq_text
matches_cron_date parts date =
    let dom = match_cron_field date.date parts.dom_expr dom_field.min in
    let dow = match_cron_field date.day parts.dow_expr dow_field.min in
    if not (match_cron_field (date.month + 1) parts.month_expr month_field.min)
    then false
    else if not (eq_text parts.dom_expr star) && not (eq_text parts.dow_expr star)
    then dom || dow
    else dom && dow

unfoldable pub matches_cron : Text → LocalTime → Bool
unfolding trim split_spaces matches_cron_time matches_cron_date
matches_cron expr date = elim (five_parts (split_spaces (trim expr))) [
  | none ↦ false
  | some parts ↦ matches_cron_time parts date && matches_cron_date parts date
]
