-- ===== src/ApplyStdio/FlatView.antt =====
-- apply-stdio/src/lib.rs, first half: `FlatViewTree`, the arena of views that the terminal shows.
pub mod Layout
pub mod Shown
pub mod Laid
use lusid.Base.{
  ℕ, zero, suc, ◌+◌, ◌-◌, Bool, true, false, Option, some, none, List, [], ◌∷◌, ◌++◌, map, length,
  get_elem?, set, replicate, leb, if◌then◌else◌, Result, ok, err,
}
use lusid.View
use lusid.View.{View, ViewTree, ViewTrees, branch, leaf, no_trees, tree_and}

pub data ViewNode : Type 0 where
  not_started started : ViewNode
  complete : View → ViewNode

pub data FlatViewTreeNode : Type 0 where
  branch_node : View → List ℕ → FlatViewTreeNode
  leaf_node : ViewNode → FlatViewTreeNode

-- `nodes: Vec<Option<FlatViewTreeNode>>`
abbrev pub Nodes : Type 0
Nodes = List (Option FlatViewTreeNode)

pub record FlatViewTree : Type 0 where
  pub nodes : Nodes

pub data FlatViewTreeError : Type 0 where
  index_out_of_bounds node_missing not_a_leaf : ℕ → FlatViewTreeError

-- `Render` for `ViewNode`
unfoldable pub render_node : ViewNode → View
render_node not_started = View.span (View.Span.new "🟩")
render_node started = View.span (View.Span.new "⌛")
render_node (complete view) =
    View.fragment (View.cons (View.span (View.Span.new "✅")) (View.cons view View.nil))

unfoldable pub root : FlatViewTree → Option FlatViewTreeNode
root t = elim (get_elem? t.nodes 0) [ none ↦ none | some node ↦ node ]

unfoldable pub is_empty : FlatViewTree → Bool
unfolding root
is_empty t = elim (root t) [ none ↦ true | some node ↦ false ]

-- `get` and `get_mut`
unfoldable pub get : FlatViewTree → ℕ → Result FlatViewTreeError FlatViewTreeNode
get t index = elim (get_elem? t.nodes index) [
  | none ↦ err (index_out_of_bounds index)
  | some none ↦ err (node_missing index)
  | some (some node) ↦ ok node
]

-- `resize(index + 1, None)`, if the arena is not longer than `index`.
unfoldable pub ensure_index_exists : ℕ → Nodes → Nodes
ensure_index_exists index nodes =
    if leb (length nodes) index then nodes ++ replicate (index + 1 - length nodes) none else nodes

unfoldable pub set_leaf_view : FlatViewTree → ℕ → ViewNode → Result FlatViewTreeError FlatViewTree
unfolding ensure_index_exists
set_leaf_view t index new_view =
    let nodes = ensure_index_exists index t.nodes in
    let written : FlatViewTree = record { nodes = set nodes index (some (leaf_node new_view)) } in
    elim (get_elem? nodes index) [
      | some (some (branch_node view children)) ↦ err (not_a_leaf index)
      | some (some (leaf_node view)) ↦ ok written
      | some none ↦ ok written
      | none ↦ ok written
    ]

unfoldable pub set_leaf_started : FlatViewTree → ℕ → Result FlatViewTreeError FlatViewTree
unfolding set_leaf_view
set_leaf_started t index = set_leaf_view t index started

unfoldable pub set_node_none : FlatViewTree → ℕ → FlatViewTree
unfolding ensure_index_exists
set_node_none t index = record { nodes = set (ensure_index_exists index t.nodes) index none }

unfoldable pub template_node : Option FlatViewTreeNode → Option FlatViewTreeNode
template_node none = none
template_node (some (leaf_node view)) = some (leaf_node not_started)
template_node (some (branch_node view children)) = some (branch_node view children)

unfoldable pub template : FlatViewTree → FlatViewTree
unfolding template_node
template t = record { nodes = map template_node t.nodes }

-- `append_view_tree_nodes`: the index of the root, and the longer arena. A branch is pushed
-- without its children, and gets them once they have indices.
unfoldable mutual
  pub append_view_tree_nodes : ViewTree → Nodes → ℕ × Nodes
  append_view_tree_nodes (leaf view) nodes =
      (length nodes, nodes ++ some (leaf_node (complete view)) ∷ [])
  append_view_tree_nodes (branch view children) nodes =
      let index = length nodes in
      let appended = append_children children (nodes ++ some (branch_node view []) ∷ []) in
      (index, set appended.1 index (some (branch_node view appended.0)))

  pub append_children : ViewTrees → Nodes → List ℕ × Nodes
  append_children no_trees nodes = ([], nodes)
  append_children (tree_and child children) nodes =
      let first = append_view_tree_nodes child nodes in
      let rest = append_children children first.1 in (first.0 ∷ rest.0, rest.1)

unfoldable pub from_view_tree_completed : ViewTree → FlatViewTree
from_view_tree_completed tree = record { nodes = (append_view_tree_nodes tree []).1 }

-- A `for` loop whose body changes the arena.
unfoldable pub for_each : (ℕ → Nodes → Nodes) → List ℕ → Nodes → Nodes
for_each body [] nodes = nodes
for_each body (index ∷ indices) nodes = for_each body indices (body index nodes)

-- The children of the branch at an index.
unfoldable pub children_at : Nodes → ℕ → List ℕ
children_at nodes index = elim (get_elem? nodes index) [
  | some (some (branch_node view children)) ↦ children
  | some (some (leaf_node view)) ↦ []
  | some none ↦ []
  | none ↦ []
]

-- `replace_view_tree_nodes(nodes, None, root_index)`: the subtree is cleared, children first. The
-- fuel bounds the depth; where each child stands behind its parent, the length of the arena is
-- enough.
unfoldable pub clear_nodes : ℕ → ℕ → Nodes → Nodes
clear_nodes zero index nodes = nodes
clear_nodes (suc fuel) index nodes =
    let cleared = for_each (clear_nodes fuel) (children_at nodes index) nodes in
    set (ensure_index_exists index cleared) index none

-- `replace_view_tree_nodes(nodes, Some(view_tree), root_index)`
unfoldable pub replace_view_tree_nodes : ViewTree → ℕ → Nodes → Nodes
replace_view_tree_nodes (leaf view) index nodes =
    let cleared = for_each (clear_nodes (length nodes)) (children_at nodes index) nodes in
    set (ensure_index_exists index cleared) index (some (leaf_node (complete view)))
replace_view_tree_nodes (branch view children) index nodes =
    let cleared = for_each (clear_nodes (length nodes)) (children_at nodes index) nodes in
    let appended = append_children children cleared in
    set (ensure_index_exists index appended.1) index (some (branch_node view appended.0))

unfoldable pub replace_subtree_completed : FlatViewTree → ℕ → ViewTree → FlatViewTree
replace_subtree_completed t index tree = record {
  nodes = replace_view_tree_nodes tree index t.nodes;
}

-- `filter_map` puts a child in front of the others if it is there.
abbrev pub and_some : Option ViewTree → ViewTrees → ViewTrees
and_some none trees = trees
and_some (some tree) trees = tree_and tree trees

-- The children of a branch in `build`.
unfoldable pub build_children :
    (ℕ → Nodes → Option ViewTree × Nodes) → List ℕ → Nodes → ViewTrees × Nodes
build_children build_child [] nodes = (no_trees, nodes)
build_children build_child (index ∷ indices) nodes =
    let first = build_child index nodes in
    let rest = build_children build_child indices first.1 in (and_some first.0 rest.0, rest.1)

-- A branch without children is left out.
abbrev pub branch_unless_empty : View → ViewTrees → Option ViewTree
branch_unless_empty view no_trees = none
branch_unless_empty view (tree_and child children) = some (branch view (tree_and child children))

-- `build` of `From<FlatViewTree> for Option<ViewTree>`: a node is taken out of its slot before its
-- children are built, so as many levels as there are slots are enough.
unfoldable pub build : ℕ → ℕ → Nodes → Option ViewTree × Nodes
build zero index nodes = (none, nodes)
build (suc fuel) index nodes = elim (get_elem? nodes index) [
  | none ↦ (none, nodes)
  | some none ↦ (none, nodes)
  | some (some (leaf_node view)) ↦ (some (leaf (render_node view)), set nodes index none)
  | some (some (branch_node view children)) ↦
      let built = build_children (build fuel) children (set nodes index none) in
      (branch_unless_empty view built.0, built.1)
]

-- `From<FlatViewTree> for Option<ViewTree>`
unfoldable pub to_view_tree : FlatViewTree → Option ViewTree
to_view_tree t = (build (length t.nodes) 0 t.nodes).0
