-- ===== src/Config/Errors.antt =====
-- The field borders and the footer line come from the same broken rules.
use mqtt_dashboard.Prelude.{
  ℕ, ◌≡◌, refl, sym, ap, ◌∙◌, Bool, true, false, ◌&&◌, List, [], ◌∷◌, ◌++◌, Option, none, some,
  find, any, head?, if◌then◌else◌, ◌>>=◌, is_some, inl, inr, arith, Bool-cases,
}
use mqtt_dashboard.Prelude.Text.{Text, eq_text, eq_text_iff}
use mqtt_dashboard.Config.{
  ConfigRule, FieldErrors, error_of, add_error, collect_errors, broken, use_config_validation,
}

-- A broken rule for the field.
abbrev pub breaks : Text → ConfigRule → Bool
breaks f r = elim r.field [ none ↦ false | some g ↦ eq_text g f && r.when ]

-- The message of the first rule that the test selects.
abbrev pub first_message : (ConfigRule → Bool) → List ConfigRule → Option Text
first_message p rules = find p rules >>= λ r. some r.message

abbrev or_else : Option Text → Option Text → Option Text
or_else none b = b
or_else (some a) b = some a

error_of-append :
    (f k m : Text) (es : FieldErrors)
    → error_of f (es ++ (k, m) ∷ [])
      ≡ or_else (error_of f es) (if eq_text k f then some m else none)
unfolding error_of
error_of-append f k m [] = refl
error_of-append f k m ((j, n) ∷ es) = ground (arith, error_of-append f k m es)

-- The error that one rule adds for the field.
abbrev own_error : Text → Option Text → Text → Option Text
own_error f none message = none
own_error f (some g) message = if eq_text g f then some message else none

error_of-add_error :
    (c : ℕ) (f : Text) (es : FieldErrors) (field : Option Text) (message : Text)
    → error_of (c ∷ f) (add_error es field message)
      ≡ or_else (error_of (c ∷ f) es) (own_error (c ∷ f) field message)
error_of-add_error c f es none message = ground arith
error_of-add_error c f es (some []) message = unfold eq_text in ground arith
error_of-add_error c f es (some (d ∷ g)) message =
    ground (arith, error_of-append (c ∷ f) (d ∷ g) message es, eq_text_iff (d ∷ g) (c ∷ f))

or_else_assoc : (a b c : Option Text) → or_else (or_else a b) c ≡ or_else a (or_else b c)
or_else_assoc none b c = refl
or_else_assoc (some x) b c = refl

or_else-none : (a : Option Text) → or_else a none ≡ a
or_else-none none = refl
or_else-none (some x) = refl

first_message-cons :
    (f : Text) (r : ConfigRule) (rs : List ConfigRule)
    → r.when ≡ true
    → first_message (breaks f) (r ∷ rs)
      ≡ or_else (own_error f r.field r.message) (first_message (breaks f) rs)
first_message-cons f r rs w = ground arith

first_message-skip :
    (f : Text) (r : ConfigRule) (rs : List ConfigRule)
    → r.when ≡ false
    → first_message (breaks f) (r ∷ rs) ≡ first_message (breaks f) rs
first_message-skip f r rs w = ground arith

broken-cons :
    (r : ConfigRule) (rs : List ConfigRule) → r.when ≡ true → broken (r ∷ rs) ≡ r ∷ broken rs
broken-cons r rs w = ground arith

broken-skip : (r : ConfigRule) (rs : List ConfigRule) → r.when ≡ false → broken (r ∷ rs) ≡ broken rs
broken-skip r rs w = ground arith

error_of-collect_errors :
    (c : ℕ) (f : Text) (es : FieldErrors) (rs : List ConfigRule)
    → error_of (c ∷ f) (collect_errors es (broken rs))
      ≡ or_else (error_of (c ∷ f) es) (first_message (breaks (c ∷ f)) rs)
unfolding collect_errors
error_of-collect_errors c f es [] = sym (or_else-none _)
error_of-collect_errors c f es (r ∷ rs) = elim (Bool-cases r.when) [
  | inl w ↦
      (ap (λ l. error_of (c ∷ f) (collect_errors es l)) (broken-cons r rs w)
        ∙ error_of-collect_errors c f (add_error es r.field r.message) rs
        ∙ ap (λ e. or_else e (first_message (breaks (c ∷ f)) rs))
            (error_of-add_error c f es r.field r.message)
        ∙ or_else_assoc (error_of (c ∷ f) es) (own_error (c ∷ f) r.field r.message)
            (first_message (breaks (c ∷ f)) rs)
        ∙ ap (or_else (error_of (c ∷ f) es)) (sym (first_message-cons (c ∷ f) r rs w)))
  | inr n ↦
      (ap (λ l. error_of (c ∷ f) (collect_errors es l)) (broken-skip r rs n)
        ∙ error_of-collect_errors c f es rs
        ∙ ap (or_else (error_of (c ∷ f) es)) (sym (first_message-skip (c ∷ f) r rs n)))
]

use_config_validation-error_of :
    (rules : List ConfigRule) (c : ℕ) (f : Text)
    → error_of (c ∷ f) (use_config_validation rules).field_errors
      ≡ first_message (breaks (c ∷ f)) rules
unfolding use_config_validation
use_config_validation-error_of rules c f = error_of-collect_errors c f [] rules

head-broken : (rules : List ConfigRule) → head? (broken rules) ≡ find (λ r. r.when) rules
head-broken [] = refl
head-broken (r ∷ rs) = ground (arith, head-broken rs)

pub use_config_validation-blocker :
    (rules : List ConfigRule)
    → ((use_config_validation rules).blocker_reason ≡ first_message (λ r. r.when) rules)
      × ((use_config_validation rules).save_disabled ≡ any (λ r. r.when) rules)
unfolding use_config_validation
use_config_validation-blocker rules =
    (ap (λ o. o >>= λ r. some r.message) (head-broken rules), disabled rules)
  where
    disabled :
        (rs : List ConfigRule)
        → is_some (head? (broken rs) >>= λ r. some r.message) ≡ any (λ r. r.when) rs
    disabled [] = refl
    disabled (r ∷ rs) = ground (arith, disabled rs)

-- The border of a field shows the message of the first rule for it that is broken, in the order in
-- which the rules are written, and nothing if there is none; the footer says what the first broken
-- rule of all says; and Save is disabled exactly when some rule is broken.
pub use_config_validation_lem :
    (rules : List ConfigRule) (c : ℕ) (f : Text)
    → (error_of (c ∷ f) (use_config_validation rules).field_errors
        ≡ first_message (breaks (c ∷ f)) rules)
      × ((use_config_validation rules).blocker_reason ≡ first_message (λ r. r.when) rules)
      × ((use_config_validation rules).save_disabled ≡ any (λ r. r.when) rules)
use_config_validation_lem rules c f =
    let footer = use_config_validation-blocker rules in
    (use_config_validation-error_of rules c f, footer.0, footer.1)
