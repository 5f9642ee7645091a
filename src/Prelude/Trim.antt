-- ===== src/Prelude/Trim.antt =====
-- Trimming a trimmed text changes nothing.
use mqtt_dashboard.Prelude.{ℕ, ◌≡◌, refl, ◌⊎◌, false, ◌&&◌, [], ◌∷◌, inl, inr, Bool-cases}
use mqtt_dashboard.Prelude.Text.{Text, is_space, is_empty, trim_start, trim_end, trim}

trim_start-head :
    (s : Text)
    → (trim_start s ≡ []) ⊎ ((c : ℕ) × (r : Text) × (trim_start s ≡ c ∷ r) × (is_space c ≡ false))
unfolding trim_start
trim_start-head [] = inl refl
trim_start-head (c ∷ s) = elim (Bool-cases (is_space c)) [
  | inl e ↦ rw e (trim_start-head s)
  | inr n ↦ inr (c, s, rw n, n)
]

trim_end_idem : (s : Text) → trim_end (trim_end s) ≡ trim_end s
unfolding trim_end
trim_end_idem [] = refl
trim_end_idem (c ∷ s) = elim (Bool-cases (is_space c && is_empty (trim_end s))) [
  | inl e ↦ rw e
  | inr n ↦ rw n (rw (trim_end_idem s) (rw n))
]

trim_end-solid :
    (c : ℕ) (r : Text) → is_space c ≡ false → trim_start (trim_end (c ∷ r)) ≡ trim_end (c ∷ r)
unfolding trim_end trim_start
trim_end-solid c r h = rw h (rw h)

pub trim_idem : (s : Text) → trim (trim s) ≡ trim s
unfolding trim
trim_idem s = elim (trim_start-head s) [
  | inl e ↦ rw e
  | inr (c, r, e, h) ↦ rw e (rw (trim_end-solid c r h) (trim_end_idem (c ∷ r)))
]
