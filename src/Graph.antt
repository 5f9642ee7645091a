-- ===== src/Graph.antt =====
-- The series of a graph, frontend/src/components/panels/graphUtils.ts: `trimPoints`, `appendPoint`,
-- `trimSeries` and `nearestPoint`. A time is a number of milliseconds; a value is of any type.
pub mod Sorted
pub mod Plotted
pub mod Nearest
use mqtt_dashboard.Prelude.{
  ℕ, ◌+◌, ◌-◌, Bool, true, false, ◌&&◌, List, [], ◌∷◌, ◌++◌, Option, none, some, map, filter, any,
  if◌then◌else◌, ltb, leb, length, drop,
}
use mqtt_dashboard.Prelude.Text.{Text, eq_text}

pub record GraphPoint (V : Type 0) : Type 0 where
  pub t : ℕ
  pub v : V

pub record GraphSeries (V : Type 0) : Type 0 where
  pub topic : Text
  pub points : List (GraphPoint V)

-- The options with their defaults in place. A cutoff before the time 0 keeps every point, as the
-- cutoff 0 does.
pub record TrimOptions : Type 0 where
  pub max_points : ℕ
  pub window_ms : ℕ
  pub now : ℕ

module _ {V : Type 0} where
  -- `next.slice(next.length - maxPoints)`, if there are too many.
  abbrev pub newest : ℕ → List (GraphPoint V) → List (GraphPoint V)
  newest max points =
      if ltb 0 max && ltb max (length points) then drop (length points - max) points else points

  abbrev pub in_window : TrimOptions → List (GraphPoint V) → List (GraphPoint V)
  in_window options points =
      if ltb 0 options.window_ms
      then filter (λ p. leb (options.now - options.window_ms) p.t) points
      else points

  unfoldable pub trim_points : List (GraphPoint V) → TrimOptions → List (GraphPoint V)
  trim_points points options = newest options.max_points (in_window options points)

  -- `points.sort((a, b) => a.t - b.t)`, which is stable.
  unfoldable pub insert : GraphPoint V → List (GraphPoint V) → List (GraphPoint V)
  insert p [] = p ∷ []
  insert p (q ∷ qs) = let rest = insert p qs in if leb p.t q.t then p ∷ q ∷ qs else q ∷ rest

  unfoldable pub sort : List (GraphPoint V) → List (GraphPoint V)
  unfolding insert
  sort [] = []
  sort (p ∷ ps) = insert p (sort ps)

  -- The point is older than the last one of the series.
  abbrev pub is_late : GraphPoint V → List (GraphPoint V) → Bool
  is_late point [] = false
  is_late point (p ∷ []) = ltb point.t p.t
  is_late point (p ∷ q ∷ ps) = is_late point (q ∷ ps)

  unfoldable pub add_point : List (GraphPoint V) → GraphPoint V → List (GraphPoint V)
  unfolding sort
  add_point points point =
      if is_late point points then sort (points ++ point ∷ []) else points ++ point ∷ []

  -- The first series of the topic gets the point.
  unfoldable pub add_to_series :
      List (GraphSeries V) → Text → GraphPoint V → TrimOptions → List (GraphSeries V)
  unfolding eq_text add_point trim_points
  add_to_series [] topic point options = []
  add_to_series (s ∷ ss) topic point options =
      let rest = add_to_series ss topic point options in
      if eq_text s.topic topic
      then record { topic = topic; points = trim_points (add_point s.points point) options } ∷ ss
      else s ∷ rest

  abbrev pub is_full : List (GraphSeries V) → Option ℕ → Bool
  is_full series none = false
  is_full series (some max) = leb max (length series)

  unfoldable pub append_point :
      List (GraphSeries V) → Text → GraphPoint V → TrimOptions → Option ℕ → List (GraphSeries V)
  unfolding eq_text add_to_series trim_points
  append_point series topic point options max_series =
      if any (λ s. eq_text s.topic topic) series
      then add_to_series series topic point options
      else if is_full series max_series
      then series
      else series ++ record { topic = topic; points = trim_points (point ∷ []) options } ∷ []

  unfoldable pub trim_series : List (GraphSeries V) → TrimOptions → List (GraphSeries V)
  unfolding trim_points
  trim_series series options =
      filter (λ s. ltb 0 (length s.points))
        (map (λ s. record { topic = s.topic; points = trim_points s.points options }) series)

  -- `Math.abs(p.t - t)`
  abbrev pub distance : ℕ → GraphPoint V → ℕ
  distance t p = (p.t - t) + (t - p.t)

  -- The loop, with the best point so far.
  unfoldable pub nearest_from : ℕ → GraphPoint V → List (GraphPoint V) → GraphPoint V
  nearest_from t best [] = best
  nearest_from t best (p ∷ ps) =
      nearest_from t (if ltb (distance t p) (distance t best) then p else best) ps

  unfoldable pub nearest_point : List (GraphPoint V) → ℕ → Option (GraphPoint V)
  unfolding nearest_from
  nearest_point [] t = none
  nearest_point (p ∷ ps) t = some (nearest_from t p ps)
