-- ===== src/Panel/Logic/Joins.antt =====
-- How the conditions of a rule combine.
use mqtt_dashboard.Prelude.{
  ◌≡◌, refl, ◌↔◌, ◌⊎◌, Bool, true, false, List, [], ◌∷◌, Option, none, some, any, all, inl, inr,
  arith, Bool-cases, All,
}
use mqtt_dashboard.Prelude.Text.{Text}
use mqtt_dashboard.Json.Runtime.{Runtime}
use mqtt_dashboard.Panel.Logic.{
  Condition, Join, join_and, join_or, Match, match_all, match_any, GuardLookup, eval_cond,
  join_step, joined, has_explicit_join, combine, evaluate_all_conditions,
}

-- Some member of the list has the property.
abbrev pub Some {ℓ} : {A : Type ℓ} → (A → Type 0) → List A → Type 0
Some P [] = ⊥
Some P (x ∷ xs) = P x ⊎ Some P xs

module _ (eval : Condition → Bool) where
  abbrev pub Holds : Condition → Type 0
  Holds c = eval c ≡ true

  -- Every condition that is not joined by `or` holds.
  abbrev pub AndsHold : List Condition → Type 0
  AndsHold cs = All (λ c. (c.join ≡ some join_or) ⊎ Holds c) cs

  -- A condition joined by `or` holds, and so does every later one that is not joined by `or`.
  pub data Restarts : List Condition → Type 0 where
    here :
        {c : Condition} {cs : List Condition}
        → c.join ≡ some join_or
        → Holds c
        → AndsHold cs
        → Restarts (c ∷ cs)
    later : {c : Condition} {cs : List Condition} → Restarts cs → Restarts (c ∷ cs)

module _ (R : Runtime) (eval : Condition → Bool) where
  join_step_sound :
      (j : Option Join) (r e : Bool)
      → join_step R j r e ≡ true
      → ((r ≡ true) × ((j ≡ some join_or) ⊎ (e ≡ true))) ⊎ ((j ≡ some join_or) × (e ≡ true))
  join_step_sound (some join_or) true e h = inl (refl, inl refl)
  join_step_sound (some join_or) false e h = inr (refl, h)
  join_step_sound (some join_and) true e h = inl (refl, inr h)
  join_step_sound (some join_and) false e h = cc
  join_step_sound none true e h = inl (refl, inr h)
  join_step_sound none false e h = cc

  join_step_complete :
      (j : Option Join) (r e : Bool)
      → ((r ≡ true) × ((j ≡ some join_or) ⊎ (e ≡ true))) ⊎ ((j ≡ some join_or) × (e ≡ true))
      → join_step R j r e ≡ true
  join_step_complete j r e h = ground arith

  joined_sound :
      (cs : List Condition) (r : Bool)
      → joined R eval r cs ≡ true
      → ((r ≡ true) × AndsHold eval cs) ⊎ Restarts eval cs
  unfolding joined
  joined_sound [] r h = inl (h, tt)
  joined_sound (c ∷ cs) r h = elim (joined_sound cs (join_step R c.join r (eval c)) h) [
    | inr s ↦ inr (later s)
    | inl (e, a) ↦ elim (join_step_sound c.join r (eval c) e) [
      | inl (e', k) ↦ inl (e', (k, a))
      | inr (j, k) ↦ inr (here j k a)
    ]
  ]

  restarted :
      (c : Condition) (cs : List Condition) (r : Bool)
      → ((r ≡ true) × AndsHold eval (c ∷ cs)) ⊎ Restarts eval (c ∷ cs)
      → ((join_step R c.join r (eval c) ≡ true) × AndsHold eval cs) ⊎ Restarts eval cs
  restarted c cs r (inl (e, (k, a))) = inl (join_step_complete c.join r (eval c) (inl (e, k)), a)
  restarted c cs r (inr (here j k a)) = inl (join_step_complete c.join r (eval c) (inr (j, k)), a)
  restarted c cs r (inr (later s)) = inr s

  joined_complete :
      (cs : List Condition) (r : Bool)
      → ((r ≡ true) × AndsHold eval cs) ⊎ Restarts eval cs
      → joined R eval r cs ≡ true
  unfolding joined
  joined_complete [] r (inl h) = h.0
  joined_complete [] r (inr s) = elim s [ ]
  joined_complete (c ∷ cs) r h =
      joined_complete cs (join_step R c.join r (eval c)) (restarted c cs r h)

  all_iff : (cs : List Condition) → (all eval cs ≡ true) ↔ All (Holds eval) cs
  all_iff [] = ground arith
  all_iff (c ∷ cs) = ground (arith, all_iff cs)

  any_iff : (cs : List Condition) → (any eval cs ≡ true) ↔ Some (Holds eval) cs
  any_iff [] = ground arith
  any_iff (c ∷ cs) = ground (arith, any_iff cs)

  -- What the combination means, by the way the rule is written.
  abbrev pub Combined : Bool → Match → Condition → List Condition → Type 0
  Combined true how c cs = (Holds eval c × AndsHold eval cs) ⊎ Restarts eval cs
  Combined false match_all c cs = All (Holds eval) (c ∷ cs)
  Combined false match_any c cs = Some (Holds eval) (c ∷ cs)

  combine_iff :
      (how : Match) (c : Condition) (cs : List Condition)
      → (combine R eval how (c ∷ cs) ≡ true) ↔ Combined (has_explicit_join R (c ∷ cs)) how c cs
  unfolding combine
  combine_iff how c cs = elim (Bool-cases (has_explicit_join R (c ∷ cs))) [
    | inl e ↦ rw e (joined_sound cs (eval c), joined_complete cs (eval c))
    | inr n ↦ rw n (by_match how)
  ]
    where
      by_match :
          (how : Match)
          → ((elim how [ match_any ↦ any eval (c ∷ cs) | match_all ↦ all eval (c ∷ cs) ]) ≡ true)
            ↔ Combined false how c cs
      by_match match_all = all_iff (c ∷ cs)
      by_match match_any = any_iff (c ∷ cs)

-- A rule holds for a message exactly when its conditions do as they are joined: with an explicit
-- join, the first condition or one joined by `or` holds and every later one not joined by `or`
-- holds too; with none, all or some of them hold, as the rule says.
pub evaluate_all_conditions_iff :
    (R : Runtime) (payload : Text) (c : Condition) (cs : List Condition) (how : Match)
    (guard_lookup : Option (GuardLookup R)) (broker topic : Option Text)
    → (evaluate_all_conditions R (some payload) (c ∷ cs) how guard_lookup broker topic ≡ true)
      ↔ Combined R
          (eval_cond R payload guard_lookup broker topic)
          (has_explicit_join R (c ∷ cs))
          how
          c
          cs
unfolding evaluate_all_conditions
evaluate_all_conditions_iff R payload c cs how guard_lookup broker topic =
    combine_iff R (eval_cond R payload guard_lookup broker topic) how c cs
