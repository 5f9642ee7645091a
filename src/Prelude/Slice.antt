-- ===== src/Prelude/Slice.antt =====
-- `slice` of a text, and how pieces of a text fit together.
use Prim.Native.Nat.{ℕ, zero, suc, ◌+◌, ◌-◌, ◌≤◌}
use mathlib.Core.Path.{◌≡◌, refl, sym, ap, ◌∙◌}
use mathlib.Core.List.{[], ◌∷◌, ◌++◌}
use native.Mathlib.Omega.{arith}
use mqtt_dashboard.Prelude.Lists.{length, take, drop, take-append-drop, drop-append}
use mqtt_dashboard.Prelude.Text.{Text}

-- `s.slice(from, to)`
abbrev pub slice : Text → ℕ → ℕ → Text
slice s from to = take (to - from) (drop from s)

pub drop-nil : (n : ℕ) → drop {A = ℕ} n [] ≡ []
drop-nil zero = refl
drop-nil (suc n) = refl

pub drop-drop : (m n k : ℕ) (s : Text) → k ≡ m + n → drop n (drop m s) ≡ drop k s
drop-drop zero n k s e = ap (λ i. drop i s) (omega arith)
drop-drop (suc m) n k [] e = drop-nil n ∙ sym (drop-nil k)
drop-drop (suc m) n zero (c ∷ s) e = ground arith
drop-drop (suc m) n (suc k) (c ∷ s) e = drop-drop m n k s (omega arith)

pub drop-all : (n : ℕ) (s : Text) → length s ≤ n → drop n s ≡ []
drop-all n [] h = drop-nil n
drop-all zero (c ∷ s) h = ground arith
drop-all (suc n) (c ∷ s) h = drop-all n s (omega arith)

-- A piece and what stands behind it.
pub slice-append-drop :
    (s : Text) (from to : ℕ) → from ≤ to → slice s from to ++ drop to s ≡ drop from s
slice-append-drop s from to h =
    ap (λ r. slice s from to ++ r) (sym (drop-drop from (to - from) to s (omega arith)))
    ∙ take-append-drop (to - from) (drop from s)

-- What stands behind two pieces.
pub drop-pieces : (b m a : Text) → drop (length b + length m) (b ++ (m ++ a)) ≡ a
drop-pieces b m a =
    sym (drop-drop (length b) (length m) (length b + length m) (b ++ (m ++ a)) refl)
    ∙ ap (λ r. drop (length m) r) (drop-append b (m ++ a))
    ∙ drop-append m a
