-- ===== src/Explorer/Tree/Leaves.antt =====
-- The tree of topics holds the set of its topics, each at the end of its levels.
use mqtt_dashboard.Prelude.{
  ◌≡◌, refl, sym, ap, subst, ◌∙◌, ◌↔◌, Bool, true, false, ◌||◌, ◌&&◌, List, [], ◌∷◌, Option, none,
  some, any, if◌then◌else◌, Bool-cases, inl, inr, arith,
}
use mqtt_dashboard.Prelude.Text.{Text, eq_text, eq_text_iff, eq_text_flip, split, join, slash}
use mqtt_dashboard.Topic.Matching.{split-ne-nil, join-split}
use mqtt_dashboard.Explorer.Tree.{
  TreeNodes, no_nodes, node, is_last, extend_path, add_parts, add_topics, build_tree,
}

-- Whether the entry at the end of the parts is a leaf.
unfoldable pub has_leaf : List Text → TreeNodes → Bool
unfolding eq_text
has_leaf [] tree = false
has_leaf (q ∷ qs) no_nodes = false
has_leaf (q ∷ qs) (node name full_path is_leaf children rest) =
    if eq_text name q
    then (if is_last qs then is_leaf else has_leaf qs children)
    else has_leaf (q ∷ qs) rest

eq_parts : List Text → List Text → Bool
eq_parts [] [] = true
eq_parts (p ∷ ps) (q ∷ qs) = eq_text p q && eq_parts ps qs
eq_parts _ _ = false

eq_text-other : (n p q : Text) → eq_text n p ≡ false → eq_text n q ≡ true → eq_text p q ≡ false
eq_text-other n p q h k = ground (arith, eq_text_iff n q, eq_text_iff p q, eq_text_iff n p)

-- What stands below an entry that the parts go through.
has_leaf-below :
    (ps qs : List Text) (l : Bool) (cs : TreeNodes) (path : Option Text)
    → ((q : Text) (rs : List Text)
        → has_leaf (q ∷ rs) (add_parts ps cs path) ≡ (eq_parts ps (q ∷ rs) || has_leaf (q ∷ rs) cs))
    → (if is_last qs then is_last ps || l else has_leaf qs (add_parts ps cs path))
      ≡ (eq_parts ps qs || (if is_last qs then l else has_leaf qs cs))
unfolding eq_parts
has_leaf-below [] [] l cs path h = refl
has_leaf-below (p ∷ ps) [] l cs path h = refl
has_leaf-below ps (q ∷ qs) l cs path h = h q qs

-- And below one that is new.
has_leaf-new :
    (ps qs : List Text) (path : Option Text)
    → ((q : Text) (rs : List Text)
        → has_leaf (q ∷ rs) (add_parts ps no_nodes path) ≡ (eq_parts ps (q ∷ rs) || false))
    → (if is_last qs then is_last ps else has_leaf qs (add_parts ps no_nodes path))
      ≡ (eq_parts ps qs || false)
unfolding eq_parts
has_leaf-new [] [] path h = refl
has_leaf-new (p ∷ ps) [] path h = refl
has_leaf-new ps (q ∷ qs) path h = h q qs

has_leaf-add_parts :
    (parts : List Text) (tree : TreeNodes) (path : Option Text) (q : Text) (qs : List Text)
    → has_leaf (q ∷ qs) (add_parts parts tree path)
      ≡ (eq_parts parts (q ∷ qs) || has_leaf (q ∷ qs) tree)
unfolding has_leaf add_parts eq_parts
has_leaf-add_parts [] tree path q qs = refl
has_leaf-add_parts (p ∷ ps) no_nodes path q qs = elim (Bool-cases (eq_text p q)) [
  | inl e ↦ rw e (
      has_leaf-new ps qs (some (extend_path path p))
        (has_leaf-add_parts ps no_nodes (some (extend_path path p))))
  | inr e ↦ rw e
]
has_leaf-add_parts (p ∷ ps) (node n f l cs rest) path q qs = elim (Bool-cases (eq_text n p)) [
  | inl e ↦ elim (Bool-cases (eq_text n q)) [
    | inl k ↦
        rw (e, ← (eq_text_iff n p).0 e, k)
          (has_leaf-below ps qs l cs (some (extend_path path n))
            (has_leaf-add_parts ps cs (some (extend_path path n))))
    | inr k ↦ rw (e, ← (eq_text_iff n p).0 e, k)
  ]
  | inr e ↦ elim (Bool-cases (eq_text n q)) [
    | inl k ↦ rw (e, k, eq_text-other n p q e k)
    | inr k ↦ rw (e, k) (has_leaf-add_parts (p ∷ ps) rest path q qs)
  ]
]

eq_parts_iff : (ps qs : List Text) → (eq_parts ps qs ≡ true) ↔ (ps ≡ qs)
unfolding eq_parts
eq_parts_iff [] [] = ground arith
eq_parts_iff [] (q ∷ qs) = ground arith
eq_parts_iff (p ∷ ps) [] = ground arith
eq_parts_iff (p ∷ ps) (q ∷ qs) = ground (arith, eq_text_iff p q, eq_parts_iff ps qs)

same_truth : (a b : Bool) → (a ≡ true) ↔ (b ≡ true) → a ≡ b
same_truth a b h = ground arith

eq_parts-split : (u t : Text) → eq_parts (split slash u) (split slash t) ≡ eq_text u t
eq_parts-split u t = same_truth _ _ (
  λ h. (eq_text_iff u t).1 (
      sym (join-split slash u)
      ∙ ap (join (slash ∷ [])) ((eq_parts_iff (split slash u) (split slash t)).0 h)
      ∙ join-split slash t),
  λ h. (eq_parts_iff (split slash u) (split slash t)).1 (ap (split slash) ((eq_text_iff u t).0 h)),
)

has_leaf-split :
    (u t : Text) (tree : TreeNodes)
    → has_leaf (split slash t) (add_parts (split slash u) tree none)
      ≡ (eq_text u t || has_leaf (split slash t) tree)
has_leaf-split u t tree =
    let (q, qs, e) = split-ne-nil slash t in
    subst
      (λ l.
        has_leaf l (add_parts (split slash u) tree none)
        ≡ (eq_parts (split slash u) l || has_leaf l tree))
      (sym e) (has_leaf-add_parts (split slash u) tree none q qs)
    ∙ ap (λ b. b || has_leaf (split slash t) tree) (eq_parts-split u t)

or_swap : (a b c : Bool) → ((a || b) || c) ≡ (b || (a || c))
or_swap true true c = refl
or_swap true false c = refl
or_swap false b c = refl

has_leaf-add_topics :
    (ts : List Text) (tree : TreeNodes) (t : Text)
    → has_leaf (split slash t) (add_topics ts tree)
      ≡ (has_leaf (split slash t) tree || any (λ u. eq_text u t) ts)
unfolding add_topics
has_leaf-add_topics [] tree t = ground arith
has_leaf-add_topics (u ∷ us) tree t =
    has_leaf-add_topics us (add_parts (split slash u) tree none) t
    ∙ ap (λ b. b || any (λ x. eq_text x t) us) (has_leaf-split u t tree)
    ∙ or_swap (eq_text u t) (has_leaf (split slash t) tree) (any (λ x. eq_text x t) us)

none_there : (q : Text) (qs : List Text) → has_leaf (q ∷ qs) no_nodes ≡ false
unfolding has_leaf
none_there q qs = refl

-- The tree that is built from topics has a leaf at the levels of exactly these topics.
pub has_leaf-build_tree :
    (topics : List Text) (t : Text)
    → has_leaf (split slash t) (build_tree topics) ≡ any (λ u. eq_text u t) topics
unfolding build_tree
has_leaf-build_tree topics t =
    let (q, qs, e) = split-ne-nil slash t in
    has_leaf-add_topics topics no_nodes t
    ∙ ap (λ b. b || any (λ u. eq_text u t) topics)
        (ap (λ l. has_leaf l no_nodes) e ∙ none_there q qs)

-- Whether a map has the key.
abbrev has_entry : Text → TreeNodes → Bool
has_entry name no_nodes = false
has_entry name (node n f l cs rest) = eq_text n name || has_entry name rest

-- Each node's path is its name put behind the path above it, and no two entries of one map have a
-- name in common.
abbrev pub IsPathed : Option Text → TreeNodes → Type 0
IsPathed path no_nodes = Unit
IsPathed path (node n f l cs rest) =
    (f ≡ extend_path path n)
    × IsPathed (some f) cs
    × (has_entry n rest ≡ false)
    × IsPathed path rest

has_entry-add_parts :
    (parts : List Text) (tree : TreeNodes) (path : Option Text) (p n : Text)
    → eq_text p n ≡ false
    → has_entry n (add_parts (p ∷ parts) tree path) ≡ has_entry n tree
unfolding add_parts
has_entry-add_parts parts no_nodes path p n h = rw h
has_entry-add_parts parts (node m f l cs rest) path p n h = elim (Bool-cases (eq_text m p)) [
  | inl e ↦ rw e
  | inr e ↦ rw (e, has_entry-add_parts parts rest path p n h)
]

add_parts-IsPathed :
    (parts : List Text) (tree : TreeNodes) (path : Option Text)
    → IsPathed path tree
    → IsPathed path (add_parts parts tree path)
unfolding add_parts
add_parts-IsPathed [] tree path h = h
add_parts-IsPathed (p ∷ ps) no_nodes path h =
    (refl, add_parts-IsPathed ps no_nodes (some (extend_path path p)) tt, refl, tt)
add_parts-IsPathed (p ∷ ps) (node n f l cs rest) path (e, below, once, beside) =
    elim (Bool-cases (eq_text n p)) [
      | inl k ↦ rw k (
        e,
        subst (λ w. IsPathed (some f) (add_parts ps cs (some w)))
            (e ∙ ap (extend_path path) ((eq_text_iff n p).0 k))
            (add_parts-IsPathed ps cs (some f) below),
        once,
        beside,
      )
      | inr k ↦ rw k (
        e,
        below,
        has_entry-add_parts ps rest path p n (eq_text_flip n p k) ∙ once,
        add_parts-IsPathed (p ∷ ps) rest path beside,
      )
    ]

-- In the tree that is built from topics, each node's path is its name behind the path above it, so
-- that a click selects the levels down to the node; and no level stands twice under one node.
pub build_tree-IsPathed : (topics : List Text) → IsPathed none (build_tree topics)
unfolding build_tree add_topics
build_tree-IsPathed topics = from_tree topics no_nodes tt
  where
    from_tree :
        (ts : List Text) (tree : TreeNodes)
        → IsPathed none tree
        → IsPathed none (add_topics ts tree)
    from_tree [] tree h = h
    from_tree (t ∷ ts) tree h =
        from_tree ts (add_parts (split slash t) tree none)
          (add_parts-IsPathed (split slash t) tree none h)
