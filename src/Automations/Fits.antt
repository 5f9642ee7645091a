-- ===== src/Automations/Fits.antt =====
-- What single filters of frontend/src/pages/AutomationsPage.tsx ask: of a text, a status, a choice or
-- a date; and the tests of the source decide it.

use mqtt_dashboard.Prelude.{
  ℕ, ◌+◌, ◌≤◌, ◌≡◌, ◌≢◌, refl, ap, ◌⊎◌, inl, inr, ◌↔◌, Bool, true, false, not, ◌&&◌, ◌||◌, List, [],
  ◌∷◌, ◌++◌, Option, none, some, any, or_iff, ==_iff, Option-cases, arith,
}
use mqtt_dashboard.Prelude.Text.{
  Text, codes, eq_text, eq_text_iff, includes, is_empty, strip_prefix, strip_prefix-append,
  strip_prefix_self, trim,
}
use mqtt_dashboard.Panel.Logic.Joins.{Some}
use mqtt_dashboard.Automations.{StatusFilter, any_status, active, paused}
use mqtt_dashboard.Automations.Shown.{
  is_set, is_all, passes_status, passes_qos, passes_retain, is_soon,
}

-- The text `q` stands somewhere in the text.
abbrev pub StandsIn : Text → Text → Type 0
StandsIn q s = (b : Text) × (a : Text) × (s ≡ b ++ (q ++ a))

pub includes_sound : (q s : Text) → includes q s ≡ true → StandsIn q s
unfolding includes
includes_sound q [] h = elim (Option-cases (strip_prefix q [])) [
  | inl e ↦ absurd (let n = rw e at h in cc)
  | inr (a, e) ↦ ([], a, strip_prefix-append q [] a e)
]
includes_sound q (c ∷ s) h = elim (Option-cases (strip_prefix q (c ∷ s))) [
  | inl e ↦
      let (b, a, e') = includes_sound q s (let n = rw e at h in n) in (c ∷ b, a, ap (λ x. c ∷ x) e')
  | inr (a, e) ↦ ([], a, strip_prefix-append q (c ∷ s) a e)
]

includes_complete : (q b a : Text) → includes q (b ++ (q ++ a)) ≡ true
unfolding includes
includes_complete [] [] [] = refl
includes_complete [] [] (c ∷ a) = refl
includes_complete (d ∷ q) [] a = rw (strip_prefix_self (d ∷ q) a) refl
includes_complete q (c ∷ b) a = rw (includes_complete q b a) (ground arith)

pub includes_iff : (q s : Text) → (includes q s ≡ true) ↔ StandsIn q s
includes_iff q s = (includes_sound q s, λ h. let (b, a, e) = h in rw e (includes_complete q b a))

pub any_iff {ℓ} :
    {A : Type ℓ} (p : A → Bool) (P : A → Type 0) (xs : List A)
    → ((x : A) → (p x ≡ true) ↔ P x)
    → (any p xs ≡ true) ↔ Some P xs
any_iff p P [] h = (λ k. cc, λ k. absurd k)
any_iff p P (x ∷ xs) h = or_iff (p x) (any p xs) (h x) (any_iff p P xs h)

-- `now` is the time of the page in milliseconds; a date that is none is in no comparison.
abbrev pub IsSoon : ℕ → Option ℕ → Type 0
IsSoon now date = (date ≡ none) ⊎ ((t : ℕ) × (date ≡ some t) × (now ≤ t) × (t ≤ now + 300000))

pub is_soon_iff : (now : ℕ) (date : Option ℕ) → (is_soon now date ≡ true) ↔ IsSoon now date
is_soon_iff now none = (λ h. inl refl, λ h. refl)
is_soon_iff now (some t) = (
  λ h. inr ((t, refl, ground arith, ground arith)),
  λ h. elim h [ inl e ↦ absurd (ground arith) | inr (u, e, l, m) ↦ near now t u e l m ],
)
  where
    near :
        (now t u : ℕ) → some t ≡ some u → now ≤ u → u ≤ now + 300000 → is_soon now (some t) ≡ true
    near now t u e l m = ground arith

abbrev pub FitsStatus : StatusFilter → Bool → Type 0
FitsStatus f enabled =
    (f ≡ any_status) ⊎ ((f ≡ active) × (enabled ≡ true)) ⊎ ((f ≡ paused) × (enabled ≡ false))

pub passes_status_iff :
    (f : StatusFilter) (enabled : Bool) → (passes_status f enabled ≡ true) ↔ FitsStatus f enabled
passes_status_iff any_status e = (λ h. inl refl, λ h. refl)
passes_status_iff active e = ground arith
passes_status_iff paused e = ground arith

-- What is asked for, if anything, is the value of the job.
abbrev pub FitsChoice {ℓ} : {A : Type ℓ} → Option A → A → Type ℓ
FitsChoice choice a = (choice ≡ none) ⊎ (choice ≡ some a)

pub passes_qos_iff : (f : Option ℕ) (q : ℕ) → (passes_qos f q ≡ true) ↔ FitsChoice f q
passes_qos_iff none q = (λ h. inl refl, λ h. refl)
passes_qos_iff (some f) q = ground (arith, ==_iff q f)

pub passes_retain_iff : (f : Option Bool) (r : Bool) → (passes_retain f r ≡ true) ↔ FitsChoice f r
passes_retain_iff none r = (λ h. inl refl, λ h. refl)
passes_retain_iff (some true) r = ground arith
passes_retain_iff (some false) r = ground arith

pub is_set_iff : (t : Text) → (is_set t ≡ false) ↔ (trim t ≡ [])
is_set_iff t = ground arith

pub empty_iff : (t : Text) → (is_empty t ≡ true) ↔ (t ≡ [])
empty_iff t = ground arith

ten_ors :
    (a b c d e f g h i j : Bool)
    → (a || b || c || d || e || f || g || h || i || j)
      ≡ (a || (b || (c || (d || (e || (f || (g || (h || (i || j)))))))))
ten_ors a b c d e f g h i j = ground arith

pub or_of_ten {ℓ} :
    {P : Type ℓ} (a b c d e f g h i j : Bool)
    → ((a || (b || (c || (d || (e || (f || (g || (h || (i || j))))))))) ≡ true) ↔ P
    → ((a || b || c || d || e || f || g || h || i || j) ≡ true) ↔ P
or_of_ten a b c d e f g h i j k = rw (ten_ors a b c d e f g h i j) k

ten_ands :
    (a b c d e f g h i j : Bool)
    → (a && b && c && d && e && f && g && h && i && j)
      ≡ (a && (b && (c && (d && (e && (f && (g && (h && (i && j)))))))))
ten_ands a b c d e f g h i j = ground arith

pub and_of_ten {ℓ} :
    {P : Type ℓ} (a b c d e f g h i j : Bool)
    → ((a && (b && (c && (d && (e && (f && (g && (h && (i && j))))))))) ≡ true) ↔ P
    → ((a && b && c && d && e && f && g && h && i && j) ≡ true) ↔ P
and_of_ten a b c d e f g h i j k = rw (ten_ands a b c d e f g h i j) k

pub or_of_three {ℓ} :
    {P : Type ℓ} (a b c : Bool) → ((a || (b || c)) ≡ true) ↔ P → ((a || b || c) ≡ true) ↔ P
or_of_three true b c k = k
or_of_three false b c k = k

pub and_of_three {ℓ} :
    {P : Type ℓ} (a b c : Bool) → ((a && (b && c)) ≡ true) ↔ P → ((a && b && c) ≡ true) ↔ P
and_of_three true b c k = k
and_of_three false b c k = k

pub is_all_iff : (t : Text) → (is_all t ≡ true) ↔ (t ≡ codes "all")
is_all_iff t = eq_text_iff t (codes "all")

pub not_equal_iff : (a b : Text) → (not (eq_text a b) ≡ true) ↔ (a ≢ b)
not_equal_iff a b = ground (arith, eq_text_iff a b)

pub solid_iff : (t : Text) → (not (is_empty t) ≡ true) ↔ (t ≢ [])
solid_iff t = ground arith
