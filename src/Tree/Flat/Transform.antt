-- ===== src/Tree/Flat/Transform.antt =====
-- tree/src/lib.rs, the transformations of `FlatTree`: the leaves are mapped in the order of the
-- arena, and each result is handed to a callback before the next leaf is read.
use lusid.Base.{ℕ, suc, some, none, [], ◌∷◌, length, set, replicate, Result, ok, ◌>>=◌}
use lusid.Tree.{Tree}
use lusid.Tree.Flat.{FlatTree, branch_node, leaf_node, Nodes, replace_tree_nodes}

-- The callbacks are effects on a state `S` (the stream of updates, the context) that may fail.
module _ {ℓ κ μ ν ξ} {Node : Type ℓ} {NextNode : Type μ} {Meta : Type κ} {S : Type ν}
    {Error : Type ξ} where
  -- The loop of `map`: the rest of the old arena from an index on, and the new arena.
  unfoldable pub map_loop :
      (Node → NextNode)
      → (ℕ → NextNode → S → Result Error S)
      → Nodes Node Meta
      → ℕ
      → Nodes NextNode Meta
      → S
      → Result Error (Nodes NextNode Meta × S)
  map_loop f write_update [] index next s = ok (next, s)
  map_loop f write_update (none ∷ nodes) index next s =
      map_loop f write_update nodes (suc index) next s
  map_loop f write_update (some (branch_node meta children) ∷ nodes) index next s =
      map_loop f write_update nodes (suc index) (set next index (some (branch_node meta children)))
        s
  map_loop f write_update (some (leaf_node meta value) ∷ nodes) index next s =
      write_update index (f value) s >>= λ s'.
      map_loop f write_update nodes (suc index) (set next index (some (leaf_node meta (f value))))
        s'

  unfoldable pub map :
      (Node → NextNode)
      → (ℕ → NextNode → S → Result Error S)
      → FlatTree Node Meta
      → S
      → Result Error (FlatTree NextNode Meta × S)
  map f write_update t s =
      map_loop f write_update t.nodes 0 (replicate (length t.nodes) none) s
      >>= λ (r : Nodes NextNode Meta × S). ok (record { nodes = r.0 }, r.1)

  -- The loop of `map_result_async`, where the mapping of a leaf has effects too.
  unfoldable pub map_result_loop :
      (Node → S → Result Error (NextNode × S))
      → (ℕ → S → Result Error S)
      → (ℕ → NextNode → S → Result Error S)
      → Nodes Node Meta
      → ℕ
      → Nodes NextNode Meta
      → S
      → Result Error (Nodes NextNode Meta × S)
  map_result_loop f write_start write_update [] index next s = ok (next, s)
  map_result_loop f write_start write_update (none ∷ nodes) index next s =
      map_result_loop f write_start write_update nodes (suc index) next s
  map_result_loop f write_start write_update (some (branch_node meta children) ∷ nodes) index next
        s =
      map_result_loop f write_start write_update nodes (suc index)
        (set next index (some (branch_node meta children))) s
  map_result_loop f write_start write_update (some (leaf_node meta value) ∷ nodes) index next s =
      write_start index s >>= λ s1. f value s1 >>= λ (r : NextNode × S).
      write_update index r.0 r.1 >>= λ s'.
      map_result_loop f write_start write_update nodes (suc index)
        (set next index (some (leaf_node meta r.0))) s'

  unfoldable pub map_result_async :
      (Node → S → Result Error (NextNode × S))
      → (ℕ → S → Result Error S)
      → (ℕ → NextNode → S → Result Error S)
      → FlatTree Node Meta
      → S
      → Result Error (FlatTree NextNode Meta × S)
  map_result_async f write_start write_update t s =
      map_result_loop f write_start write_update t.nodes 0 (replicate (length t.nodes) none) s
      >>= λ (r : Nodes NextNode Meta × S). ok (record { nodes = r.0 }, r.1)

  -- The loop of `map_tree`: a leaf becomes a tree, whose root takes the slot of the leaf.
  unfoldable pub map_tree_loop :
      (Node → Meta → Tree NextNode Meta)
      → (ℕ → Tree NextNode Meta → S → Result Error S)
      → Nodes Node Meta
      → ℕ
      → Nodes NextNode Meta
      → S
      → Result Error (Nodes NextNode Meta × S)
  map_tree_loop f write_update [] index next s = ok (next, s)
  map_tree_loop f write_update (none ∷ nodes) index next s =
      map_tree_loop f write_update nodes (suc index) next s
  map_tree_loop f write_update (some (branch_node meta children) ∷ nodes) index next s =
      map_tree_loop f write_update nodes (suc index)
        (set next index (some (branch_node meta children))) s
  map_tree_loop f write_update (some (leaf_node meta value) ∷ nodes) index next s =
      write_update index (f value meta) s >>= λ s'.
      map_tree_loop f write_update nodes (suc index) (replace_tree_nodes (f value meta) index next)
        s'

  unfoldable pub map_tree :
      (Node → Meta → Tree NextNode Meta)
      → (ℕ → Tree NextNode Meta → S → Result Error S)
      → FlatTree Node Meta
      → S
      → Result Error (FlatTree NextNode Meta × S)
  map_tree f write_update t s =
      map_tree_loop f write_update t.nodes 0 (replicate (length t.nodes) none) s
      >>= λ (r : Nodes NextNode Meta × S). ok (record { nodes = r.0 }, r.1)

  -- The loop of `map_tree_result_async`.
  unfoldable pub map_tree_result_loop :
      (Node → Meta → S → Result Error (Tree NextNode Meta × S))
      → (ℕ → S → Result Error S)
      → (ℕ → Tree NextNode Meta → S → Result Error S)
      → Nodes Node Meta
      → ℕ
      → Nodes NextNode Meta
      → S
      → Result Error (Nodes NextNode Meta × S)
  map_tree_result_loop f write_start write_update [] index next s = ok (next, s)
  map_tree_result_loop f write_start write_update (none ∷ nodes) index next s =
      map_tree_result_loop f write_start write_update nodes (suc index) next s
  map_tree_result_loop f write_start write_update (some (branch_node meta children) ∷ nodes) index
        next s =
      map_tree_result_loop f write_start write_update nodes (suc index)
        (set next index (some (branch_node meta children))) s
  map_tree_result_loop f write_start write_update (some (leaf_node meta value) ∷ nodes) index next
        s =
      write_start index s >>= λ s1. f value meta s1 >>= λ (r : Tree NextNode Meta × S).
      write_update index r.0 r.1 >>= λ s'.
      map_tree_result_loop f write_start write_update nodes (suc index)
        (replace_tree_nodes r.0 index next) s'

  unfoldable pub map_tree_result_async :
      (Node → Meta → S → Result Error (Tree NextNode Meta × S))
      → (ℕ → S → Result Error S)
      → (ℕ → Tree NextNode Meta → S → Result Error S)
      → FlatTree Node Meta
      → S
      → Result Error (FlatTree NextNode Meta × S)
  map_tree_result_async f write_start write_update t s =
      map_tree_result_loop f write_start write_update t.nodes 0 (replicate (length t.nodes) none) s
      >>= λ (r : Nodes NextNode Meta × S). ok (record { nodes = r.0 }, r.1)
