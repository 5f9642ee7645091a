-- ===== src/Prelude/Sort.antt =====
-- `list.sort(…)`, which is stable, by a Boolean comparison: whether one member may stand before
-- another.
use mathlib.Core.Path.{◌≡◌}
use mathlib.Core.Logic.{inl, inr}
use mathlib.Core.Bool.{Bool, true, false}
use mathlib.Core.List.{List, [], ◌∷◌, Perm}
use mathlib.Core.List.Perm
use mqtt_dashboard.Prelude.Tests.{if◌then◌else◌, Bool-cases}
use mqtt_dashboard.Prelude.Lists.{All}

module _ {ℓ} {A : Type ℓ} (may_precede : A → A → Bool) where
  unfoldable pub insert_by : A → List A → List A
  insert_by x [] = x ∷ []
  insert_by x (y ∷ ys) =
      let rest = insert_by x ys in if may_precede x y then x ∷ y ∷ ys else y ∷ rest

  unfoldable pub sort_by : List A → List A
  unfolding insert_by
  sort_by [] = []
  sort_by (x ∷ xs) = insert_by x (sort_by xs)

  -- Each member may stand before all those behind it.
  abbrev pub IsSortedBy : List A → Type ℓ
  IsSortedBy [] = Unit
  IsSortedBy (x ∷ xs) = All (λ y. may_precede x y ≡ true) xs × IsSortedBy xs

  insert_by-perm : (x : A) (xs : List A) → Perm (insert_by x xs) (x ∷ xs)
  unfolding insert_by
  insert_by-perm x [] = Perm.rfl
  insert_by-perm x (y ∷ ys) = elim (Bool-cases (may_precede x y)) [
    | inl e ↦ rw e Perm.rfl
    | inr e ↦ rw e (Perm.trans (Perm.cons y (insert_by-perm x ys)) (Perm.swap x y ys))
  ]

  pub sort_by-perm : (xs : List A) → Perm (sort_by xs) xs
  unfolding sort_by
  sort_by-perm [] = Perm.rfl
  sort_by-perm (x ∷ xs) = Perm.trans (insert_by-perm x (sort_by xs)) (Perm.cons x (sort_by-perm xs))

  insert_by-All : (P : A → Type 0) (x : A) (xs : List A) → P x → All P xs → All P (insert_by x xs)
  unfolding insert_by
  insert_by-All P x [] p h = (p, tt)
  insert_by-All P x (y ∷ ys) p h = elim (Bool-cases (may_precede x y)) [
    | inl e ↦ rw e ((p, h))
    | inr e ↦ rw e ((h.0, insert_by-All P x ys p h.1))
  ]

  pub sort_by-All : (P : A → Type 0) (xs : List A) → All P xs → All P (sort_by xs)
  unfolding sort_by
  sort_by-All P [] h = tt
  sort_by-All P (x ∷ xs) h = insert_by-All P x (sort_by xs) h.0 (sort_by-All P xs h.1)

  -- The comparison of a sort: of two members one may stand before the other, and it is transitive.
  pub record IsComparison : Type ℓ where
    pub total : (a b : A) → may_precede a b ≡ false → may_precede b a ≡ true
    pub trans :
        (a b c : A) → may_precede a b ≡ true → may_precede b c ≡ true → may_precede a c ≡ true

  below-All :
      (x y : A) (ys : List A)
      → IsComparison
      → may_precede x y ≡ true
      → All (λ z. may_precede y z ≡ true) ys
      → All (λ z. may_precede x z ≡ true) ys
  below-All x y [] c e h = tt
  below-All x y (z ∷ zs) c e h = (c.trans x y z e h.0, below-All x y zs c e h.1)

  insert_by-IsSortedBy :
      (x : A) (xs : List A) → IsComparison → IsSortedBy xs → IsSortedBy (insert_by x xs)
  unfolding insert_by
  insert_by-IsSortedBy x [] c h = (tt, tt)
  insert_by-IsSortedBy x (y ∷ ys) c h = elim (Bool-cases (may_precede x y)) [
    | inl e ↦ rw e (((e, below-All x y ys c e h.0), h))
    | inr e ↦ rw e (
        (
          insert_by-All (λ z. may_precede y z ≡ true) x ys (c.total x y e) h.0,
          insert_by-IsSortedBy x ys c h.1,
        ))
  ]

  pub sort_by-IsSortedBy : (xs : List A) → IsComparison → IsSortedBy (sort_by xs)
  unfolding sort_by
  sort_by-IsSortedBy [] c = tt
  sort_by-IsSortedBy (x ∷ xs) c = insert_by-IsSortedBy x (sort_by xs) c (sort_by-IsSortedBy xs c)
