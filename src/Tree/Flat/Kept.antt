-- ===== src/Tree/Flat/Kept.antt =====
-- `FlatTree::map_option` against the pruning of the nested tree.
use lusid.Base
use lusid.Base.{
  ℕ, suc, ◌+◌, ◌≡◌, ◌∙◌, sym, ap, subst, Option, some, none, List, [], ◌∷◌, ◌++◌, arith,
  append_assoc, length, length-append, length-map, get_elem?-map-some, replicate, set-append_length,
  Result, ok, ◌>>=◌, >>=-eq-ok, ok-injective,
}
use lusid.Tree
use lusid.Tree.{Tree, Trees, map_all}
use lusid.Tree.Flat.{
  FlatTree, FlatTreeNode, branch_node, leaf_node, Nodes, from_tree, append_tree_nodes, to_tree,
}
use lusid.Tree.Flat.Layout.{
  At, AllAt, leaf_at, branch_at, nil_at, cons_at, append_tree_nodes-Appended,
}
use lusid.Tree.Flat.Mapped.{size-map, starts-map}
use lusid.Tree.Flat.Sweep.{map_option_loop, map_option, leaf_of, drop_empty, depth_first_search}
use lusid.Tree.Flat.Pruned.{prune, Holed, AllHoled, leaf_holed, branch_holed, nil_holed, cons_holed}
use lusid.Tree.Flat.Rebuilt.{or_empty_branch, sweep-prune}

module _ {ℓ κ μ} {Node : Type ℓ} {NextNode : Type μ} {Meta : Type κ}
    (f : Node → Option NextNode) where
  -- One slot of the arena, its leaf mapped or dropped.
  unfoldable keep_slot : Option (FlatTreeNode Node Meta) → Option (FlatTreeNode NextNode Meta)
  keep_slot none = none
  keep_slot (some (branch_node meta children)) = some (branch_node meta children)
  keep_slot (some (leaf_node meta value)) = leaf_of meta (f value)

  mutual
    unfolding keep_slot Tree.map Tree.map_all

    At-Holed :
        {nodes : Nodes Node Meta} {index : ℕ} {tree : Tree Node Meta}
        → At nodes index tree
        → Holed (Base.map keep_slot nodes) index (Tree.map f tree)
    At-Holed {nodes} (leaf_at index meta value h) =
        leaf_holed index meta (f value) (get_elem?-map-some keep_slot nodes index h)
    At-Holed {nodes} (branch_at index meta children h all) =
        branch_holed index meta (map_all f children)
          (get_elem?-map-some keep_slot nodes index h
            ∙ ap (λ (ids : List ℕ). some (some (branch_node meta ids)))
                (sym (starts-map f children (suc index))))
          (AllAt-AllHoled all)

    AllAt-AllHoled :
        {nodes : Nodes Node Meta} {index : ℕ} {trees : Trees Node Meta}
        → AllAt nodes index trees
        → AllHoled (Base.map keep_slot nodes) index (map_all f trees)
    AllAt-AllHoled (nil_at index) = nil_holed index
    AllAt-AllHoled {nodes} (cons_at index child children h all) =
        cons_holed index (Tree.map f child) (map_all f children) (At-Holed h) (
          subst (λ n. AllHoled (Base.map keep_slot nodes) (index + n) (map_all f children))
            (sym (size-map f child)) (AllAt-AllHoled all))

module _ {ℓ κ μ ν ξ} {Node : Type ℓ} {NextNode : Type μ} {Meta : Type κ} {S : Type ν}
    {Error : Type ξ} (f : Node → Option NextNode)
    (write_update : ℕ → Option NextNode → S → Result Error S) where
  -- The loop, where it ends without an error, has kept the slots.
  abbrev IsKept : Nodes Node Meta → Type (κ ⊔ μ ⊔ ν ⊔ ξ)
  IsKept nodes =
      (done : Nodes NextNode Meta) (s : S) (final : Nodes NextNode Meta) (s' : S)
      → map_option_loop f write_update nodes (length done) (done ++ replicate (length nodes) none) s
        ≡ ok (final, s')
      → done ++ Base.map (keep_slot f) nodes ≡ final

  loop_next :
      (nodes : Nodes Node Meta) (done : Nodes NextNode Meta)
      (slot : Option (FlatTreeNode NextNode Meta)) (next : Nodes NextNode Meta) (s : S)
      {final : Nodes NextNode Meta} {s' : S}
      → IsKept nodes
      → next ≡ (done ++ slot ∷ []) ++ replicate (length nodes) none
      → map_option_loop f write_update nodes (suc (length done)) next s ≡ ok (final, s')
      → done ++ slot ∷ Base.map (keep_slot f) nodes ≡ final
  loop_next nodes done slot next s {final} {s'} kept e h =
      let longer : length (done ++ slot ∷ []) ≡ suc (length done) =
        omega (arith, length-append done (slot ∷ [])) in
      sym (append_assoc done (slot ∷ []) (Base.map (keep_slot f) nodes))
      ∙ kept (done ++ slot ∷ []) s final s' (rw (e, ← longer) at h)

  map_option_loop-IsKept : (nodes : Nodes Node Meta) → IsKept nodes
  unfolding map_option_loop keep_slot
  map_option_loop-IsKept [] done s final s' h =
      ap (λ (r : Nodes NextNode Meta × S). r.0) (ok-injective h)
  map_option_loop-IsKept (none ∷ nodes) done s final s' h =
      loop_next nodes done none _ s (map_option_loop-IsKept nodes)
        (sym (append_assoc done (none ∷ []) (replicate (length nodes) none))) h
  map_option_loop-IsKept (some (branch_node meta children) ∷ nodes) done s final s' h =
      loop_next nodes done (some (branch_node meta children)) _ s (map_option_loop-IsKept nodes)
        (set-append_length done none (some (branch_node meta children))
            (replicate (length nodes) none)
          ∙ sym (
              append_assoc done (some (branch_node meta children) ∷ [])
                (replicate (length nodes) none)))
        h
  map_option_loop-IsKept (some (leaf_node meta value) ∷ nodes) done s final s' h =
      let (s1, wrote, h') = >>=-eq-ok (write_update (length done) (f value) s) _ h in
      loop_next nodes done (leaf_of meta (f value)) _ s1 (map_option_loop-IsKept nodes)
        (set-append_length done none (leaf_of meta (f value)) (replicate (length nodes) none)
          ∙ sym (append_assoc done (leaf_of meta (f value) ∷ []) (replicate (length nodes) none)))
        h'

  -- If `map_option` succeeds on a tree made flat, then its arena nested again is the tree without
  -- the leaves that are mapped to nothing and without the branches that have no leaf left; where
  -- that is nothing at all, it is the empty branch with the default meta.
  pub map_option-prune :
      (default : Meta) (tree : Tree Node Meta) (s : S) {flat : FlatTree NextNode Meta} {s' : S}
      → map_option f write_update (from_tree tree) s ≡ ok (flat, s')
      → to_tree default flat ≡ or_empty_branch default (prune (Tree.map f tree))
  unfolding map_option from_tree
  map_option-prune default tree s {flat} {s'} h =
      let nodes : Nodes Node Meta = (append_tree_nodes tree []).1 in
      let appended = append_tree_nodes-Appended tree [] in
      let ((final, s1), ran, result) =
        >>=-eq-ok (map_option_loop f write_update nodes 0 (replicate (length nodes) none) s) _ h in
      let kept : Base.map (keep_slot f) nodes ≡ final =
        map_option_loop-IsKept nodes [] s final s1 ran in
      subst
        (λ (r : FlatTree NextNode Meta × S).
          to_tree default r.0 ≡ or_empty_branch default (prune (Tree.map f tree)))
        (ok-injective result)
        (subst
          (λ (ns : Nodes NextNode Meta).
            to_tree default (record { nodes = drop_empty (depth_first_search ns) ns })
            ≡ or_empty_branch default (prune (Tree.map f tree)))
          kept
          (sweep-prune default (Tree.map f tree) (Base.map (keep_slot f) nodes)
            (omega (arith, size-map f tree, appended.long, length-map (keep_slot f) nodes))
            (At-Holed f appended.stands)))
