-- ===== src/Explorer/Highlight.antt =====
-- `HighlightText` of frontend/src/components/explorer/TopicTree.tsx: which pieces of a node's name
-- are marked for a search.
pub mod Marks
pub mod Parts
pub mod Pieces
pub mod Found
use mqtt_dashboard.Prelude.{
  larger, smaller, ℕ, suc, ◌+◌, ◌-◌, Bool, true, false, not, ◌&&◌, ◌||◌, List, [], ◌∷◌, ◌++◌,
  Option, none, some, filter, map, any, concat, if◌then◌else◌, is_some, ◌==◌, ltb, leb, length,
}
use mqtt_dashboard.Prelude.Text.{
  Text, codes, eq_text, includes, is_empty, onto_first, strip_prefix, trim,
}
use mqtt_dashboard.Prelude.Slice.{slice}

abbrev pub Interval : Type 0
Interval = ℕ × ℕ

-- Every place of the text at which the other one stands, also where the places overlap; the text
-- begins at `at`.
unfoldable pub occurrences : Text → ℕ → Text → List Interval
unfolding strip_prefix
occurrences query at [] = []
occurrences query at (c ∷ s) =
    let rest = occurrences query (at + 1) s in
    if is_some (strip_prefix query (c ∷ s)) then (at, at + length query) ∷ rest else rest

abbrev pub is_separator : ℕ → Bool
is_separator c = c == b'/' || c == b'+' || c == b'#' || c == b'*'

-- `split(/[/+#*]+/)`, up to empty pieces
unfoldable pub split_where : (ℕ → Bool) → Text → List Text
split_where p [] = [] ∷ []
split_where p (c ∷ s) = let rest = split_where p s in if p c then [] ∷ rest else onto_first c rest

unfoldable pub tokens : Text → List Text
unfolding split_where
tokens query = filter (λ t. not (is_empty t)) (split_where is_separator query)

-- The matches of the whole search and, if it has separators or wildcards, of its tokens.
unfoldable pub find_intervals : Text → Text → List Interval
unfolding occurrences tokens
find_intervals full_path query =
    occurrences query 0 full_path
    ++ (if any is_separator query
        then concat (map (λ t. occurrences t 0 full_path) (tokens query))
        else [])

-- What of the intervals lies in the node, counted from its start.
unfoldable pub in_node : ℕ → ℕ → List Interval → List Interval
in_node node_start node_end [] = []
in_node node_start node_end ((start, end) ∷ intervals) =
    let rest = in_node node_start node_end intervals in
    let from = larger start node_start in
    let to = smaller end node_end in
    if ltb from to then (from - node_start, to - node_start) ∷ rest else rest

-- `a[0] - b[0] || a[1] - b[1]` is not above 0.
abbrev pub in_order : Interval → Interval → Bool
in_order a b = ltb a.0 b.0 || a.0 == b.0 && leb a.1 b.1

unfoldable pub insert_interval : Interval → List Interval → List Interval
insert_interval i [] = i ∷ []
insert_interval i (j ∷ js) =
    let rest = insert_interval i js in if in_order i j then i ∷ j ∷ js else j ∷ rest

-- `nameIntervals.sort(…)`, which is stable.
unfoldable pub sort_intervals : List Interval → List Interval
unfolding insert_interval
sort_intervals [] = []
sort_intervals (i ∷ is) = insert_interval i (sort_intervals is)

-- The loop that merges, with the last interval so far.
unfoldable pub merge_from : Interval → List Interval → List Interval
merge_from prev [] = prev ∷ []
merge_from prev (curr ∷ rest) =
    let joined = merge_from (prev.0, larger prev.1 curr.1) rest in
    let apart = merge_from curr rest in if leb curr.0 prev.1 then joined else prev ∷ apart

unfoldable pub merge_intervals : List Interval → List Interval
unfolding merge_from
merge_intervals [] = []
merge_intervals (i ∷ is) = merge_from i is

-- A piece of the name, with or without a mark.
pub data Part : Type 0 where
  plain marked : Text → Part

abbrev pub part_text : Part → Text
part_text (plain t) = t
part_text (marked t) = t

-- The parts from `last` on.
unfoldable pub build_parts : Text → ℕ → List Interval → List Part
build_parts name last [] =
    if ltb last (length name) then plain (slice name last (length name)) ∷ [] else []
build_parts name last ((start, end) ∷ merged) =
    let rest = marked (slice name start end) ∷ build_parts name end merged in
    if ltb last start then plain (slice name last start) ∷ rest else rest

abbrev pub is_wildcard_only : Text → Bool
is_wildcard_only t = eq_text t (codes "+") || eq_text t (codes "#") || eq_text t (codes "*")

-- `fullPath` ends with `name`; `lower_case` is `toLowerCase`.
unfoldable pub name_intervals : (Text → Text) → Text → Text → Text → List Interval
unfolding find_intervals in_node
name_intervals lower_case name full_path trimmed =
    in_node (length full_path - length name) (length full_path)
      (find_intervals (lower_case full_path) (lower_case trimmed))

-- The parts for the intervals of the name; without any, the name as it is.
unfoldable pub mark_intervals : Text → List Interval → List Part
unfolding sort_intervals merge_intervals build_parts
mark_intervals name [] = plain name ∷ []
mark_intervals name (i ∷ is) = build_parts name 0 (merge_intervals (sort_intervals (i ∷ is)))

unfoldable pub highlight_text : (Text → Text) → Text → Text → Text → List Part
unfolding trim eq_text name_intervals mark_intervals
highlight_text lower_case name full_path query =
    let trimmed = trim query in
    if is_empty trimmed || is_wildcard_only trimmed
    then plain name ∷ []
    else mark_intervals name (name_intervals lower_case name full_path trimmed)
