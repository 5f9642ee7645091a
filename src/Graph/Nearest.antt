-- ===== src/Graph/Nearest.antt =====
-- The point that the crosshair snaps to.
use mqtt_dashboard.Prelude.{
  ℕ, ◌≤◌, ◌<◌, ◌≡◌, List, [], ◌∷◌, ◌++◌, some, refl, sym, ap, ◌∙◌, append_assoc, append-nil, ltb→lt,
  ltb, All, arith, Bool-cases, inl, inr,
}
use mqtt_dashboard.Graph.{GraphPoint, distance, nearest_from, nearest_point}

module _ {V : Type 0} (t : ℕ) where
  -- The point stands in the list, every one before it is further away from the time, and none
  -- behind it is nearer.
  pub record IsNearest (best : GraphPoint V) (points : List (GraphPoint V)) : Type 0 where
    pub before : List (GraphPoint V)
    pub behind : List (GraphPoint V)
    pub stands : points ≡ before ++ best ∷ behind
    pub further : All (λ p. distance t best < distance t p) before
    pub none_nearer : All (λ p. distance t best ≤ distance t p) behind

  All-append :
      (P : GraphPoint V → Type 0) (ps qs : List (GraphPoint V))
      → All P ps
      → All P qs
      → All P (ps ++ qs)
  All-append P [] qs h k = k
  All-append P (p ∷ ps) qs h k = (h.0, All-append P ps qs h.1 k)

  further_than :
      (m n : ℕ) (ps : List (GraphPoint V))
      → m < n
      → All (λ p. n ≤ distance t p) ps
      → All (λ p. m < distance t p) ps
  further_than m n [] l h = tt
  further_than m n (p ∷ ps) l h = (omega arith, further_than m n ps l h.1)

  further_still :
      (m n : ℕ) (ps : List (GraphPoint V))
      → m < n
      → All (λ p. n < distance t p) ps
      → All (λ p. m < distance t p) ps
  further_still m n [] l h = tt
  further_still m n (p ∷ ps) l h = (omega arith, further_still m n ps l h.1)

  -- The loop: the points before the best one so far are `seen`, those between it and the rest are
  -- `skipped`.
  nearest_from-IsNearest :
      (best : GraphPoint V) (seen skipped ps points : List (GraphPoint V))
      → points ≡ seen ++ best ∷ (skipped ++ ps)
      → All (λ p. distance t best < distance t p) seen
      → All (λ p. distance t best ≤ distance t p) skipped
      → IsNearest (nearest_from t best ps) points
  unfolding nearest_from
  nearest_from-IsNearest best seen skipped [] points s h k = record {
    before = seen;
    behind = skipped;
    stands = s ∙ ap (λ r. seen ++ best ∷ r) (append-nil skipped);
    further = h;
    none_nearer = k;
  }
  nearest_from-IsNearest best seen skipped (p ∷ ps) points s h k =
      elim (Bool-cases (ltb (distance t p) (distance t best))) [
        | inl e ↦
            let l = ltb→lt (distance t p) (distance t best) e in
            rw e (
              nearest_from-IsNearest p (seen ++ best ∷ skipped) [] ps points
                (s ∙ sym (append_assoc seen (best ∷ skipped) (p ∷ ps)))
                (All-append _ seen (best ∷ skipped)
                  (further_still (distance t p) (distance t best) seen l h)
                  (l, further_than (distance t p) (distance t best) skipped l k))
                tt)
        | inr e ↦ rw e (
            nearest_from-IsNearest best seen (skipped ++ p ∷ []) ps points
              (s ∙ ap (λ r. seen ++ best ∷ r) (sym (append_assoc skipped (p ∷ []) ps))) h
              (All-append _ skipped (p ∷ []) k (ground arith, tt)))
      ]

  -- The crosshair snaps to a point whenever there are any: to one of the points nearest in time,
  -- the first of them.
  pub nearest_point-IsNearest :
      (p : GraphPoint V) (ps : List (GraphPoint V))
      → (best : GraphPoint V) × (nearest_point (p ∷ ps) t ≡ some best) × IsNearest best (p ∷ ps)
  unfolding nearest_point
  nearest_point-IsNearest p ps =
      (nearest_from t p ps, refl, nearest_from-IsNearest p [] [] ps (p ∷ ps) refl tt tt)
