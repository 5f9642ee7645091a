-- ===== src/Explorer/Filter.antt =====
-- frontend/src/components/explorer/topicFilterUtils.ts: the topics that a search of the explorer
-- keeps.
pub mod Levels
pub mod Items
pub mod Wildcards
use mqtt_dashboard.Prelude.{
  ℕ, Bool, true, false, not, ◌&&◌, ◌||◌, List, [], ◌∷◌, ◌++◌, Option, none, some, map, any,
  if◌then◌else◌, ◌==◌,
}
use mqtt_dashboard.Prelude.Text.{Text, codes, eq_text, includes, is_empty, slash, trim}

-- What the source of the regular expression is put together from.
pub data Item : Type 0 where
  letter : ℕ → Item
  -- `[^/]+`
  level : Item
  -- `.*`
  anything : Item
  -- `(?:/.*)?`
  below : Item

abbrev pub item_of : ℕ → Item
item_of c = if c == b'+' then level else if c == b'#' || c == b'*' then anything else letter c

-- `rest.endsWith(suffix)`, and the text without it.
unfoldable pub strip_suffix : Text → Text → Option Text
unfolding eq_text
strip_suffix suffix [] = if is_empty suffix then some [] else none
strip_suffix suffix (c ∷ s) =
    let rest = strip_suffix suffix s in
    if eq_text (c ∷ s) suffix then some [] else elim rest [ none ↦ none | some r ↦ some (c ∷ r) ]

unfoldable pub filter_to_regex : Text → List Item
unfolding strip_suffix
filter_to_regex filter = elim (strip_suffix (codes "/#") filter) [
  | some rest ↦ map item_of rest ++ below ∷ []
  | none ↦ map item_of filter
]

-- The characters of `.`, all but the line terminators.
abbrev pub is_dot : ℕ → Bool
is_dot c = not (c == 10 || c == 13 || c == 0x2028 || c == 0x2029)

abbrev pub not_slash : ℕ → Bool
not_slash c = not (c == slash)

-- A run of characters, and the rest of the match behind it.
unfoldable pub run_of : (ℕ → Bool) → (Text → Bool) → Text → Bool
run_of p k [] = k []
run_of p k (c ∷ s) = let rest = run_of p k s in k (c ∷ s) || p c && rest

-- `same_letter` is equality under the flag `i`.
module _ (same_letter : ℕ → ℕ → Bool) where
  -- `^…$` for the items; a match is any of those that backtracking can find.
  unfoldable pub match_items : List Item → Text → Bool
  unfolding run_of
  match_items [] s = is_empty s
  match_items (letter a ∷ items) [] = false
  match_items (letter a ∷ items) (c ∷ s) = same_letter a c && match_items items s
  match_items (level ∷ items) [] = false
  match_items (level ∷ items) (c ∷ s) = not_slash c && run_of not_slash (match_items items) s
  match_items (anything ∷ items) s = run_of is_dot (match_items items) s
  match_items (below ∷ items) [] = match_items items []
  match_items (below ∷ items) (c ∷ s) =
      match_items items (c ∷ s) || same_letter slash c && run_of is_dot (match_items items) s

  unfoldable pub topic_matches_filter : (Text → Text) → Text → Text → Bool
  unfolding trim includes filter_to_regex match_items
  topic_matches_filter lower_case topic filter =
      let q = trim filter in
      let lower_topic = lower_case topic in
      let lower_filter = lower_case q in
      if is_empty q
      then true
      else if includes lower_filter lower_topic
      then true
      else if any (λ c. c == b'+' || c == b'#' || c == b'*') q
      then match_items (filter_to_regex lower_filter) lower_topic
      else false
