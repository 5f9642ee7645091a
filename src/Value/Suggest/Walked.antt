-- ===== src/Value/Suggest/Walked.antt =====
-- The walk of `suggestPaths` through a document.

use mathlib.Core.Logic.{inl, inr}
use mqtt_dashboard.Prelude.{
  ℕ, suc, ◌≡◌, refl, sym, ap, ◌∙◌, Bool, true, false, ◌||◌, List, [], ◌∷◌, ◌++◌, none, some, All,
  if◌then◌else◌, arith, Bool-cases, ◌>>=◌,
}
use mqtt_dashboard.Prelude.Text.{Text, codes, eq_text, eq_text_iff, eq_text_refl, is_empty}
use mqtt_dashboard.Json
use mqtt_dashboard.Json.{Json, Items, Fields, get_key, get_item, is_scalar}
use mqtt_dashboard.Json.Runtime.{Runtime}
use mqtt_dashboard.Value.{segments, is_container, resolve_segment, resolve_segments}
use mqtt_dashboard.Value.Suggest.{child_path, walk, walk_first, walk_fields, is_cut}
use mqtt_dashboard.Value.Suggest.Segments.{
  IsPlain, IsKeyed, AreKeyed, HasKeys, segments-child_path, segments-first, bind_assoc,
  resolve_segments-append,
}

module _ (R : Runtime) where
  open R use {Num, to_number, as_index}

  -- The path leads, segment by segment, to a value that is no array and no object.
  abbrev pub LeadsToLeaf : Json Num → Text → Type 0
  LeadsToLeaf root p =
      (v : Json Num) × (resolve_segments R (segments p) root ≡ some v) × (is_scalar v ≡ true)

  All-append :
      (root : Json Num) (ps : List Text) (p : Text)
      → All (LeadsToLeaf root) ps
      → LeadsToLeaf root p
      → All (LeadsToLeaf root) (ps ++ p ∷ [])
  All-append root [] p h q = (q, tt)
  All-append root (x ∷ ps) p h q = (h.0, All-append root ps p h.1 q)

  leaf-All :
      (root node : Json Num) (cut : Bool) (prefix : Text) (paths : List Text)
      → resolve_segments R (segments prefix) root ≡ some node
      → is_scalar node ≡ true
      → All (LeadsToLeaf root) paths
      → All (LeadsToLeaf root) (if cut then paths else paths ++ prefix ∷ [])
  leaf-All root node true prefix paths h e a = a
  leaf-All root node false prefix paths h e a = All-append root paths prefix a (node, h, e)

  cut-All :
      (root : Json Num) (cut : Bool) (paths below : List Text)
      → All (LeadsToLeaf root) paths
      → All (LeadsToLeaf root) below
      → All (LeadsToLeaf root) (if cut then paths else below)
  cut-All root true paths below a b = a
  cut-All root false paths below a b = b

  no_container : (v : Json Num) → is_container R v ≡ false → is_scalar v ≡ true
  no_container v h = ground arith

  first_item :
      (item : Json Num) (items : Items Num)
      → (to_number (codes "0") >>= as_index) ≡ some 0
      → resolve_segment R (codes "0") (Json.arr (Json.cons item items)) ≡ some item
  unfolding resolve_segment get_item
  first_item item items h =
      bind_assoc (to_number (codes "0")) as_index (λ i. get_item i (Json.cons item items))
      ∙ ap (λ o. o >>= λ i. get_item i (Json.cons item items)) h

  first_key :
      (key : Text) (child : Json Num) (rest : Fields Num)
      → get_key key (Json.field key child rest) ≡ some child
  unfolding get_key
  first_key key child rest = rw (eq_text_refl key) refl

  later_key :
      (k key : Text) (v child : Json Num) (rest : Fields Num)
      → get_key key rest ≡ none
      → get_key k rest ≡ some v
      → get_key k (Json.field key child rest) ≡ some v
  unfolding get_key
  later_key k key v child rest n h = elim (Bool-cases (eq_text key k)) [
    | inl e ↦
        let m = sym (ap (λ t. get_key t rest) ((eq_text_iff key k).0 e)) ∙ n in
        let x = sym m ∙ h in cc
    | inr e ↦ rw e h
  ]

  key_below :
      (root : Json Num) (all : Fields Num) (prefix key : Text) (child : Json Num)
      → resolve_segments R (segments prefix) root ≡ some (Json.obj all)
      → IsPlain key
      → get_key key all ≡ some child
      → resolve_segments R (segments (child_path prefix key)) root ≡ some child
  unfolding resolve_segment
  key_below root all prefix key child h p g =
      ap (λ l. resolve_segments R l root) (segments-child_path prefix key p)
      ∙ resolve_segments-append R (segments prefix) key root h
      ∙ g

  module _ (root : Json Num) (zero_index : (to_number (codes "0") >>= as_index) ≡ some 0)
      (max_depth : ℕ) where
    mutual
      unfolding walk IsKeyed

      pub walk-All :
          (node : Json Num) (prefix : Text) (depth : ℕ) (paths : List Text)
          → resolve_segments R (segments prefix) root ≡ some node
          → IsKeyed node
          → All (LeadsToLeaf root) paths
          → All (LeadsToLeaf root) (walk R node prefix depth max_depth paths)
      walk-All (Json.arr items) prefix depth paths h k a =
          cut-All root (is_cut paths depth max_depth) paths _ a (
            walk_first-All items (prefix ++ codes ".0") (suc depth) paths
              (ap (λ l. resolve_segments R l root) (segments-first prefix)
                ∙ resolve_segments-append R (segments prefix) (codes "0") root h)
              k a)
      walk-All (Json.obj fields) prefix depth paths h k a =
          cut-All root (is_cut paths depth max_depth) paths _ a
            (walk_fields-All fields fields prefix depth paths h k (λ t v g. g) a)
      walk-All Json.null prefix depth paths h k a =
          leaf-All root Json.null (is_cut paths depth max_depth || is_empty prefix) prefix paths h
            refl a
      walk-All (Json.bool b) prefix depth paths h k a =
          leaf-All root (Json.bool b) (is_cut paths depth max_depth || is_empty prefix) prefix paths
            h refl a
      walk-All (Json.num n) prefix depth paths h k a =
          leaf-All root (Json.num n) (is_cut paths depth max_depth || is_empty prefix) prefix paths
            h refl a
      walk-All (Json.str s) prefix depth paths h k a =
          leaf-All root (Json.str s) (is_cut paths depth max_depth || is_empty prefix) prefix paths
            h refl a

      walk_first-All :
          (items : Items Num) (prefix : Text) (depth : ℕ) (paths : List Text)
          → resolve_segments R (segments prefix) root
            ≡ resolve_segment R (codes "0") (Json.arr items)
          → AreKeyed items
          → All (LeadsToLeaf root) paths
          → All (LeadsToLeaf root) (walk_first R items prefix depth max_depth paths)
      walk_first-All Json.nil prefix depth paths h k a = a
      walk_first-All (Json.cons item items) prefix depth paths h k a =
          walk-All item prefix depth paths (h ∙ first_item item items zero_index) k.0 a

      walk_fields-All :
          (fields all : Fields Num) (prefix : Text) (depth : ℕ) (paths : List Text)
          → resolve_segments R (segments prefix) root ≡ some (Json.obj all)
          → HasKeys fields
          → ((t : Text) (v : Json Num) → get_key t fields ≡ some v → get_key t all ≡ some v)
          → All (LeadsToLeaf root) paths
          → All (LeadsToLeaf root) (walk_fields R fields prefix depth max_depth paths)
      walk_fields-All Json.end all prefix depth paths h k sub a = a
      walk_fields-All (Json.field key child fields) all prefix depth paths h k sub a =
          let (plain, keyed, others, new) = k in
          let path = child_path prefix key in
          let reach =
            key_below root all prefix key child h plain
              (sub key child (first_key key child fields)) in
          walk_fields-All fields all prefix depth
            (if is_container R child
              then walk R child path (suc depth) max_depth paths
              else paths ++ path ∷ [])
            h others (λ t v g. sub t v (later_key t key v child fields new g))
            (elim (Bool-cases (is_container R child)) [
              | inl e ↦ rw e (walk-All child path (suc depth) paths reach keyed a)
              | inr e ↦ rw e (All-append root paths path a (child, reach, no_container child e))
            ])
