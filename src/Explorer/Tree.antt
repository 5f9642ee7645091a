-- ===== src/Explorer/Tree.antt =====
-- `buildTree` of frontend/src/components/explorer/TopicTree.tsx. A `Map` of nodes is the list of its
-- entries in their order, each with the node's fields.
pub mod Leaves
use mqtt_dashboard.Prelude.{
  Bool, true, false, not, ◌||◌, List, [], ◌∷◌, ◌++◌, Option, none, some, filter, if◌then◌else◌,
}
use mqtt_dashboard.Prelude.Text.{Text, codes, eq_text, split, slash, starts_with}

pub data TreeNodes : Type 0 where
  no_nodes : TreeNodes
  node : (name full_path : Text) (is_leaf : Bool) (children rest : TreeNodes) → TreeNodes

abbrev pub is_last : List Text → Bool
is_last [] = true
is_last (p ∷ ps) = false

-- `i === 0 ? part : `${path}/${part}``; there is no path yet at the first part.
abbrev pub extend_path : Option Text → Text → Text
extend_path none part = part
extend_path (some path) part = path ++ slash ∷ part

-- The loop over the parts of a topic: an entry that is missing is set behind the others.
unfoldable pub add_parts : List Text → TreeNodes → Option Text → TreeNodes
unfolding eq_text
add_parts [] tree path = tree
add_parts (part ∷ parts) no_nodes path =
    node part (extend_path path part) (is_last parts)
      (add_parts parts no_nodes (some (extend_path path part))) no_nodes
add_parts (part ∷ parts) (node name full_path is_leaf children rest) path =
    if eq_text name part
    then node name full_path (is_last parts || is_leaf)
        (add_parts parts children (some (extend_path path part))) rest
    else node name full_path is_leaf children (add_parts (part ∷ parts) rest path)

unfoldable pub add_topics : List Text → TreeNodes → TreeNodes
unfolding add_parts split
add_topics [] tree = tree
add_topics (t ∷ ts) tree = add_topics ts (add_parts (split slash t) tree none)

unfoldable pub build_tree : List Text → TreeNodes
unfolding add_topics
build_tree topics = add_topics topics no_nodes

-- The topics that the tree is built from.
unfoldable pub filtered_topics : Bool → List Text → List Text
filtered_topics show_sys topics =
    if show_sys then topics else filter (λ t. not (starts_with (codes "$SYS/") t)) topics
