-- ===== src/Graph/Sorted.antt =====
-- Points in the order of time, and what keeps them so.
use mqtt_dashboard.Prelude.{
  ℕ, zero, suc, ◌≤◌, ◌≡◌, Bool, false, List, [], ◌∷◌, ◌++◌, ◌-◌, ◌&&◌, filter, ltb, leb, length,
  drop, All, arith, Bool-cases, inl, inr,
}
use mqtt_dashboard.Graph.{
  GraphPoint, insert, sort, is_late, add_point, newest, in_window, trim_points, TrimOptions,
}

module _ {V : Type 0} where
  -- Each point is no later than those behind it.
  abbrev pub IsSorted : List (GraphPoint V) → Type 0
  IsSorted [] = Unit
  IsSorted (p ∷ ps) = All (λ q. p.t ≤ q.t) ps × IsSorted ps

  All-filter :
      (P : GraphPoint V → Type 0) (keep : GraphPoint V → Bool) (ps : List (GraphPoint V))
      → All P ps
      → All P (filter keep ps)
  All-filter P keep [] h = tt
  All-filter P keep (p ∷ ps) h = elim (Bool-cases (keep p)) [
    | inl e ↦ rw e (h.0, All-filter P keep ps h.1)
    | inr e ↦ rw e (All-filter P keep ps h.1)
  ]

  IsSorted-filter :
      (keep : GraphPoint V → Bool) (ps : List (GraphPoint V))
      → IsSorted ps
      → IsSorted (filter keep ps)
  IsSorted-filter keep [] h = tt
  IsSorted-filter keep (p ∷ ps) h = elim (Bool-cases (keep p)) [
    | inl e ↦ rw e (All-filter _ keep ps h.0, IsSorted-filter keep ps h.1)
    | inr e ↦ rw e (IsSorted-filter keep ps h.1)
  ]

  IsSorted-drop : (n : ℕ) (ps : List (GraphPoint V)) → IsSorted ps → IsSorted (drop n ps)
  IsSorted-drop zero ps h = h
  IsSorted-drop (suc n) [] h = tt
  IsSorted-drop (suc n) (p ∷ ps) h = IsSorted-drop n ps h.1

  newest-IsSorted : (max : ℕ) (ps : List (GraphPoint V)) → IsSorted ps → IsSorted (newest max ps)
  newest-IsSorted max ps h = elim (Bool-cases (ltb 0 max && ltb max (length ps))) [
    | inl e ↦ rw e (IsSorted-drop (length ps - max) ps h)
    | inr e ↦ rw e h
  ]

  in_window-IsSorted :
      (options : TrimOptions) (ps : List (GraphPoint V))
      → IsSorted ps
      → IsSorted (in_window options ps)
  in_window-IsSorted options ps h = elim (Bool-cases (ltb 0 options.window_ms)) [
    | inl e ↦ rw e (IsSorted-filter _ ps h)
    | inr e ↦ rw e h
  ]

  pub trim_points-IsSorted :
      (ps : List (GraphPoint V)) (options : TrimOptions)
      → IsSorted ps
      → IsSorted (trim_points ps options)
  unfolding trim_points
  trim_points-IsSorted ps options h =
      newest-IsSorted options.max_points (in_window options ps) (in_window-IsSorted options ps h)

  All-insert :
      (n : ℕ) (p : GraphPoint V) (ps : List (GraphPoint V))
      → n ≤ p.t
      → All (λ q. n ≤ q.t) ps
      → All (λ q. n ≤ q.t) (insert p ps)
  unfolding insert
  All-insert n p [] h hs = (h, tt)
  All-insert n p (q ∷ qs) h hs = elim (Bool-cases (leb p.t q.t)) [
    | inl e ↦ rw e (h, hs)
    | inr e ↦ rw e (hs.0, All-insert n p qs h hs.1)
  ]

  All-trans :
      (m n : ℕ) (ps : List (GraphPoint V)) → m ≤ n → All (λ q. n ≤ q.t) ps → All (λ q. m ≤ q.t) ps
  All-trans m n [] h hs = tt
  All-trans m n (q ∷ qs) h hs = (omega arith, All-trans m n qs h hs.1)

  insert-IsSorted :
      (p : GraphPoint V) (ps : List (GraphPoint V)) → IsSorted ps → IsSorted (insert p ps)
  unfolding insert
  insert-IsSorted p [] h = (tt, tt)
  insert-IsSorted p (q ∷ qs) h = elim (Bool-cases (leb p.t q.t)) [
    | inl e ↦ rw e ((ground arith, All-trans p.t q.t qs (ground arith) h.0), h)
    | inr e ↦ rw e (All-insert q.t p qs (ground arith) h.0, insert-IsSorted p qs h.1)
  ]

  sort-IsSorted : (ps : List (GraphPoint V)) → IsSorted (sort ps)
  unfolding sort
  sort-IsSorted [] = tt
  sort-IsSorted (p ∷ ps) = insert-IsSorted p (sort ps) (sort-IsSorted ps)

  -- A point that is not late goes to the end.
  append-IsSorted :
      (ps : List (GraphPoint V)) (point : GraphPoint V)
      → IsSorted ps
      → is_late point ps ≡ false
      → IsSorted (ps ++ point ∷ [])
  append-IsSorted [] point h e = (tt, tt)
  append-IsSorted (p ∷ []) point h e = ((ground arith, tt), (tt, tt))
  append-IsSorted (p ∷ q ∷ ps) point h e =
      let rest = append-IsSorted (q ∷ ps) point h.1 e in
      ((h.0.0, All-trans p.t q.t (ps ++ point ∷ []) h.0.0 rest.0), rest)

  pub add_point-IsSorted :
      (ps : List (GraphPoint V)) (point : GraphPoint V)
      → IsSorted ps
      → IsSorted (add_point ps point)
  unfolding add_point
  add_point-IsSorted ps point h = elim (Bool-cases (is_late point ps)) [
    | inl e ↦ rw e (sort-IsSorted (ps ++ point ∷ []))
    | inr e ↦ rw e (append-IsSorted ps point h e)
  ]
