-- ===== src/Value/Suggest.antt =====
-- `suggestPaths` of frontend/src/components/panels/payloadShape.ts: the fields that a payload has.
pub mod Segments
pub mod Walked
pub mod Found
use Prim.Native.Nat.{Ordering, lt, eq, gt, compare}
use mqtt_dashboard.Prelude.{
  ℕ, suc, ◌+◌, Bool, true, false, ◌&&◌, ◌||◌, List, [], ◌∷◌, ◌++◌, Option, none, some,
  if◌then◌else◌, length, ltb, leb, or_default,
}
use mqtt_dashboard.Prelude.Text.{Text, codes, eq_text, is_empty, split}
use mqtt_dashboard.Prelude.Sort.{sort_by}
use mqtt_dashboard.Json
use mqtt_dashboard.Json.{Json, Items, Fields}
use mqtt_dashboard.Json.Runtime.{Runtime}
use mqtt_dashboard.Value.{dot, is_container, parse_loose_json}

-- `COMMON_KEYS`
abbrev pub common_keys : List Text
common_keys =
    codes "val"
    ∷ codes "value"
    ∷ codes "temp"
    ∷ codes "temperature"
    ∷ codes "reading"
    ∷ codes "status"
    ∷ codes "state"
    ∷ codes "data"
    ∷ []

-- The place of a key in the list, or the list's length.
unfoldable pub key_rank : Text → List Text → ℕ
unfolding eq_text
key_rank key [] = 0
key_rank key (k ∷ ks) = if eq_text k key then 0 else suc (key_rank key ks)

-- `path.split(".").pop()`
abbrev pub last_of : List Text → Text
last_of [] = []
last_of (p ∷ []) = p
last_of (p ∷ q ∷ ps) = last_of (q ∷ ps)

abbrev pub child_path : Text → Text → Text
child_path prefix key = if is_empty prefix then key else prefix ++ dot ∷ key

-- What the first comparison leaves undecided, the second one decides.
abbrev pub then_by : Ordering → Ordering → Ordering
then_by eq second = second
then_by lt second = lt
then_by gt second = gt

abbrev pub no_later : Ordering → Bool
no_later gt = false
no_later _ = true

abbrev pub is_cut : List Text → ℕ → ℕ → Bool
is_cut paths depth max_depth = leb 24 (length paths) || ltb max_depth depth

module _ (R : Runtime) where
  open R use {Num}

  unfoldable mutual
    -- `walk`, which adds to the paths found so far.
    pub walk : Json Num → Text → ℕ → ℕ → List Text → List Text
    walk (Json.arr items) prefix depth max_depth paths =
        let below = walk_first items (prefix ++ codes ".0") (suc depth) max_depth paths in
        if is_cut paths depth max_depth then paths else below
    walk (Json.obj fields) prefix depth max_depth paths =
        let below = walk_fields fields prefix depth max_depth paths in
        if is_cut paths depth max_depth then paths else below
    walk scalar prefix depth max_depth paths =
        if is_cut paths depth max_depth || is_empty prefix then paths else paths ++ prefix ∷ []

    -- The first element shows the shape of all.
    pub walk_first : Items Num → Text → ℕ → ℕ → List Text → List Text
    walk_first Json.nil prefix depth max_depth paths = paths
    walk_first (Json.cons item items) prefix depth max_depth paths =
        walk item prefix depth max_depth paths

    pub walk_fields : Fields Num → Text → ℕ → ℕ → List Text → List Text
    walk_fields Json.end prefix depth max_depth paths = paths
    walk_fields (Json.field key child fields) prefix depth max_depth paths =
        let path = child_path prefix key in
        let below = walk child path (suc depth) max_depth paths in
        walk_fields fields prefix depth max_depth
          (if is_container R child then below else paths ++ path ∷ [])

module _ (R : Runtime) (locale_compare : Text → Text → Ordering) where
  open R use {lower_case}

  -- Common names first, then shallower paths, then the order of the alphabet.
  unfoldable pub compare_paths : Text → Text → Ordering
  unfolding key_rank split
  compare_paths a b =
      let rank = λ (p : Text). key_rank (lower_case (last_of (split dot p))) common_keys in
      then_by (compare (rank a) (rank b))
        (then_by (compare (length (split dot a)) (length (split dot b))) (locale_compare a b))

  unfoldable pub suggest_paths : Text → ℕ → List Text
  unfolding parse_loose_json walk compare_paths sort_by
  suggest_paths payload max_depth = elim (parse_loose_json R payload) [
    | none ↦ []
    | some json ↦
        if is_container R json
        then sort_by (λ a b. no_later (compare_paths a b)) (walk R json [] 0 max_depth [])
        else []
  ]
