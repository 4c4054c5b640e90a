-- ===== src/Tree/Flat.antt =====
-- tree/src/lib.rs, the flat half: `FlatTree`, an arena whose branches name their children by index,
-- and the conversions from and to the nested `Tree`.
pub mod Layout
pub mod Build
pub mod Transform
pub mod Mapped
pub mod Laid
pub mod Stands
pub mod Sweep
pub mod Pruned
pub mod Swept
pub mod Dropped
pub mod Rebuilt
pub mod Kept
pub mod Expanded
use lusid.Base.{
  ℕ, zero, suc, ◌+◌, ◌-◌, Option, some, none, List, [], ◌∷◌, ◌++◌, length, get_elem?, set,
  replicate, leb, if◌then◌else◌, Result, ok, err,
}
use lusid.Tree.{Tree, Trees, branch, leaf, nil, cons}

pub data FlatTreeNode {ℓ κ} (Node : Type ℓ) (Meta : Type κ) : Type (ℓ ⊔ κ) where
  branch_node : (meta : Meta) → (children : List ℕ) → FlatTreeNode Node Meta
  leaf_node : (meta : Meta) → (value : Node) → FlatTreeNode Node Meta

-- `Vec<Option<FlatTreeNode>>`
abbrev pub Nodes {ℓ κ} : Type ℓ → Type κ → Type (ℓ ⊔ κ)
Nodes Node Meta = List (Option (FlatTreeNode Node Meta))

pub record FlatTree {ℓ κ} (Node : Type ℓ) (Meta : Type κ) : Type (ℓ ⊔ κ) where
  pub nodes : Nodes Node Meta

pub data FlatTreeError : Type 0 where
  node_missing index_out_of_bounds : ℕ → FlatTreeError

-- The slot of a branch in the loop of a child that is missing is skipped: `cons` of an option.
unfoldable pub cons_some {ℓ κ} :
    {Node : Type ℓ} {Meta : Type κ} → Option (Tree Node Meta) → Trees Node Meta → Trees Node Meta
cons_some none trees = trees
cons_some (some tree) trees = cons tree trees

module _ {ℓ κ} {Node : Type ℓ} {Meta : Type κ} where
  unfoldable pub root : FlatTree Node Meta → Option (FlatTreeNode Node Meta)
  root t = elim (get_elem? t.nodes 0) [ none ↦ none | some slot ↦ slot ]

  -- `get` and `get_mut`
  unfoldable pub get : FlatTree Node Meta → ℕ → Result FlatTreeError (FlatTreeNode Node Meta)
  get t index = elim (get_elem? t.nodes index) [
    | none ↦ err (index_out_of_bounds index)
    | some none ↦ err (node_missing index)
    | some (some found) ↦ ok found
  ]

  -- `leaves`, in the order of the arena
  unfoldable pub leaves : Nodes Node Meta → List Node
  leaves [] = []
  leaves (some (leaf_node meta value) ∷ nodes) = value ∷ leaves nodes
  leaves (some (branch_node meta children) ∷ nodes) = leaves nodes
  leaves (none ∷ nodes) = leaves nodes

  -- `append_tree_nodes`: the index of the root, and the longer arena. A branch is pushed without
  -- its children, and gets them once they have indices.
  unfoldable mutual
    pub append_tree_nodes : Tree Node Meta → Nodes Node Meta → ℕ × Nodes Node Meta
    append_tree_nodes (leaf meta value) nodes =
        (length nodes, nodes ++ some (leaf_node meta value) ∷ [])
    append_tree_nodes (branch meta children) nodes =
        let index = length nodes in
        let appended = append_children children (nodes ++ some (branch_node meta []) ∷ []) in
        (index, set appended.1 index (some (branch_node meta appended.0)))

    pub append_children : Trees Node Meta → Nodes Node Meta → List ℕ × Nodes Node Meta
    append_children nil nodes = ([], nodes)
    append_children (cons child children) nodes =
        let first = append_tree_nodes child nodes in
        let rest = append_children children first.1 in (first.0 ∷ rest.0, rest.1)

  unfoldable pub append_tree : FlatTree Node Meta → Tree Node Meta → ℕ × FlatTree Node Meta
  append_tree t tree =
      let appended = append_tree_nodes tree t.nodes in (appended.0, record { nodes = appended.1 })

  -- `From<Tree> for FlatTree`
  unfoldable pub from_tree : Tree Node Meta → FlatTree Node Meta
  from_tree tree = record { nodes = (append_tree_nodes tree []).1 }

  -- A `for` loop whose body changes the arena.
  unfoldable pub for_each :
      (ℕ → Nodes Node Meta → Nodes Node Meta) → List ℕ → Nodes Node Meta → Nodes Node Meta
  for_each body [] nodes = nodes
  for_each body (index ∷ indices) nodes = for_each body indices (body index nodes)

  -- The children of the branch at an index.
  unfoldable pub children_at : Nodes Node Meta → ℕ → List ℕ
  children_at nodes index = elim (get_elem? nodes index) [
    | some (some (branch_node meta children)) ↦ children
    | some (some (leaf_node meta value)) ↦ []
    | some none ↦ []
    | none ↦ []
  ]

  -- `resize(index + 1, None)`, if the arena is not longer than `index`.
  unfoldable pub ensure_index : ℕ → Nodes Node Meta → Nodes Node Meta
  ensure_index index nodes =
      if leb (length nodes) index then nodes ++ replicate (index + 1 - length nodes) none else nodes

  -- `replace_tree_nodes(nodes, None, root_index)`: the subtree is cleared, children first. The fuel
  -- bounds the depth; where no branch stands below itself, the length of the arena is enough.
  unfoldable pub clear_nodes : ℕ → ℕ → Nodes Node Meta → Nodes Node Meta
  clear_nodes zero index nodes = nodes
  clear_nodes (suc fuel) index nodes =
      let cleared = for_each (clear_nodes fuel) (children_at nodes index) nodes in
      set (ensure_index index cleared) index none

  -- The first lines of `replace_tree_nodes`: the children of the root are cleared.
  unfoldable pub clear_children : ℕ → Nodes Node Meta → Nodes Node Meta
  clear_children index nodes = for_each (clear_nodes (length nodes)) (children_at nodes index) nodes

  -- `replace_tree_nodes(nodes, Some(tree), root_index)`
  unfoldable pub replace_tree_nodes : Tree Node Meta → ℕ → Nodes Node Meta → Nodes Node Meta
  replace_tree_nodes (leaf meta value) index nodes =
      set (ensure_index index (clear_children index nodes)) index (some (leaf_node meta value))
  replace_tree_nodes (branch meta children) index nodes =
      let appended = append_children children (clear_children index nodes) in
      set (ensure_index index appended.1) index (some (branch_node meta appended.0))

  unfoldable pub replace_tree :
      FlatTree Node Meta → Option (Tree Node Meta) → ℕ → FlatTree Node Meta
  replace_tree t none index = record { nodes = clear_nodes (length t.nodes + 1) index t.nodes }
  replace_tree t (some tree) index = record { nodes = replace_tree_nodes tree index t.nodes }

  -- The loop over the children in `build`: what is missing is skipped.
  unfoldable pub build_children :
      (ℕ → Nodes Node Meta → Option (Tree Node Meta) × Nodes Node Meta)
      → List ℕ
      → Nodes Node Meta
      → Trees Node Meta × Nodes Node Meta
  build_children build_child [] nodes = (nil, nodes)
  build_children build_child (index ∷ indices) nodes =
      let first = build_child index nodes in
      let rest = build_children build_child indices first.1 in (cons_some first.0 rest.0, rest.1)

  -- `build` of `From<FlatTree> for Tree`: a node is taken out of its slot before its children are
  -- built, so as many levels as there are slots are enough.
  unfoldable pub build : ℕ → ℕ → Nodes Node Meta → Option (Tree Node Meta) × Nodes Node Meta
  build zero index nodes = (none, nodes)
  build (suc fuel) index nodes = elim (get_elem? nodes index) [
    | none ↦ (none, nodes)
    | some none ↦ (none, nodes)
    | some (some (leaf_node meta value)) ↦ (some (leaf meta value), set nodes index none)
    | some (some (branch_node meta children)) ↦
        let built = build_children (build fuel) children (set nodes index none) in
        (some (branch meta built.0), built.1)
  ]

  -- `From<FlatTree> for Tree`, where `default` is `Meta::default()`.
  unfoldable pub to_tree : Meta → FlatTree Node Meta → Tree Node Meta
  to_tree default t = elim (build (length t.nodes) 0 t.nodes).0 [
    | none ↦ branch default nil
    | some tree ↦ tree
  ]
