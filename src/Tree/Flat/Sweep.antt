-- ===== src/Tree/Flat/Sweep.antt =====
-- tree/src/lib.rs, `map_option`: leaves may be dropped, and then the branches that are left empty.
use lusid.Base.{
  ℕ, zero, suc, ◌+◌, Bool, true, false, not, ◌||◌, Option, none, some, List, [], ◌∷◌, length,
  get_elem?, set, replicate, Result, ok, ◌>>=◌, if◌then◌else◌,
}
use lusid.Tree.Flat.{FlatTree, FlatTreeNode, branch_node, leaf_node, Nodes}

module _ {ℓ κ} {Node : Type ℓ} {Meta : Type κ} where
  -- `next_node.map(|node| FlatTreeNode::Leaf { meta, node })`
  abbrev pub leaf_of : Meta → Option Node → Option (FlatTreeNode Node Meta)
  leaf_of meta none = none
  leaf_of meta (some value) = some (leaf_node meta value)

  -- `child < nodes.len() && nodes.get(child).and_then(as_ref).is_some()`
  unfoldable pub is_there : Nodes Node Meta → ℕ → Bool
  is_there nodes index = elim (get_elem? nodes index) [
    | none ↦ false
    | some none ↦ false
    | some (some found) ↦ true
  ]

  -- The children that are pushed on the stack, the first on top: they are pushed in reverse.
  unfoldable pub push_children : Nodes Node Meta → List ℕ → List (ℕ × Bool) → List (ℕ × Bool)
  push_children nodes [] stack = stack
  push_children nodes (child ∷ children) stack =
      let rest = push_children nodes children stack in
      if is_there nodes child then (child, false) ∷ rest else rest

  -- The `while` loop of `depth_first_search`, on fuel; the top of the stack is its head.
  unfoldable pub search : ℕ → Nodes Node Meta → List (ℕ × Bool) → List ℕ
  search zero nodes stack = []
  search (suc fuel) nodes [] = []
  search (suc fuel) nodes ((index, visited) ∷ stack) = elim (get_elem? nodes index) [
    | none ↦ search fuel nodes stack
    | some none ↦ search fuel nodes stack
    | some (some (leaf_node meta value)) ↦ index ∷ search fuel nodes stack
    | some (some (branch_node meta children)) ↦ elim visited [
      | true ↦ index ∷ search fuel nodes stack
      | false ↦ search fuel nodes (push_children nodes children ((index, true) ∷ stack))
    ]
  ]

  -- Every node of a tree is popped twice at most.
  unfoldable pub depth_first_search : Nodes Node Meta → List ℕ
  depth_first_search nodes =
      if is_there nodes 0 then search (length nodes + length nodes) nodes ((0, false) ∷ []) else []

  unfoldable pub any_there : Nodes Node Meta → List ℕ → Bool
  any_there nodes [] = false
  any_there nodes (child ∷ children) = is_there nodes child || any_there nodes children

  unfoldable pub is_empty_branch : Nodes Node Meta → ℕ → Bool
  is_empty_branch nodes index = elim (get_elem? nodes index) [
    | none ↦ false
    | some none ↦ false
    | some (some (leaf_node meta value)) ↦ false
    | some (some (branch_node meta children)) ↦ not (any_there nodes children)
  ]

  -- The loop that drops the empty branches.
  unfoldable pub drop_empty : List ℕ → Nodes Node Meta → Nodes Node Meta
  drop_empty [] nodes = nodes
  drop_empty (index ∷ order) nodes =
      drop_empty order (if is_empty_branch nodes index then set nodes index none else nodes)

module _ {ℓ κ μ ν ξ} {Node : Type ℓ} {NextNode : Type μ} {Meta : Type κ} {S : Type ν}
    {Error : Type ξ} where
  unfoldable pub map_option_loop :
      (Node → Option NextNode)
      → (ℕ → Option NextNode → S → Result Error S)
      → Nodes Node Meta
      → ℕ
      → Nodes NextNode Meta
      → S
      → Result Error (Nodes NextNode Meta × S)
  map_option_loop f write_update [] index next s = ok (next, s)
  map_option_loop f write_update (none ∷ nodes) index next s =
      map_option_loop f write_update nodes (suc index) next s
  map_option_loop f write_update (some (branch_node meta children) ∷ nodes) index next s =
      map_option_loop f write_update nodes (suc index)
        (set next index (some (branch_node meta children))) s
  map_option_loop f write_update (some (leaf_node meta value) ∷ nodes) index next s =
      write_update index (f value) s >>= λ s'.
      map_option_loop f write_update nodes (suc index) (set next index (leaf_of meta (f value))) s'

  unfoldable pub map_option :
      (Node → Option NextNode)
      → (ℕ → Option NextNode → S → Result Error S)
      → FlatTree Node Meta
      → S
      → Result Error (FlatTree NextNode Meta × S)
  map_option f write_update t s =
      map_option_loop f write_update t.nodes 0 (replicate (length t.nodes) none) s
      >>= λ (r : Nodes NextNode Meta × S).
          ok (record { nodes = drop_empty (depth_first_search r.0) r.0 }, r.1)
