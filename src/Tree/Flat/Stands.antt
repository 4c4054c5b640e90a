-- ===== src/Tree/Flat/Stands.antt =====
-- The tree that a node of the arena is the root of, and what a replacement of an empty slot does.
use lusid.Base.{
  ℕ, suc, ◌+◌, ◌<◌, ◌≤◌, ◌≡◌, ◌≢◌, refl, ◌∙◌, sym, subst, Option, some, none, List, [], ◌∷◌, arith,
  length, length-set, get_elem?, get_elem?-set_self, get_elem?-set_ne, set,
}
use lusid.Tree.{Tree, Trees, branch, leaf, nil, cons}
use lusid.Tree.Flat.{
  FlatTreeNode, branch_node, leaf_node, Nodes, append_children, replace_tree_nodes, clear_children,
  children_at, ensure_index, for_each,
}
use lusid.Tree.Flat.Layout.{
  size, starts, At, AllAt, leaf_at, branch_at, nil_at, cons_at, AllAt-frame,
  append_children-AllAppended,
}

module _ {ℓ κ} {Node : Type ℓ} {Meta : Type κ} where
  -- The tree that the node at an index is the root of, wherever its children stand.
  mutual
    pub data Stands (nodes : Nodes Node Meta) : ℕ → Tree Node Meta → Type (ℓ ⊔ κ) where
      leaf_stands :
          (index : ℕ) (meta : Meta) (value : Node)
          → get_elem? nodes index ≡ some (some (leaf_node meta value))
          → Stands nodes index (leaf meta value)
      branch_stands :
          (index : ℕ) (meta : Meta) (ids : List ℕ) (children : Trees Node Meta)
          → get_elem? nodes index ≡ some (some (branch_node meta ids))
          → AllStand nodes ids children
          → Stands nodes index (branch meta children)

    pub data AllStand (nodes : Nodes Node Meta) : List ℕ → Trees Node Meta → Type (ℓ ⊔ κ) where
      none_stand : AllStand nodes [] nil
      more_stand :
          (index : ℕ) (ids : List ℕ) (child : Tree Node Meta) (children : Trees Node Meta)
          → Stands nodes index child
          → AllStand nodes ids children
          → AllStand nodes (index ∷ ids) (cons child children)

  -- No node that is there has changed.
  abbrev pub Extends : Nodes Node Meta → Nodes Node Meta → Type (ℓ ⊔ κ)
  Extends nodes nodes' =
      (j : ℕ) (found : FlatTreeNode Node Meta)
      → get_elem? nodes j ≡ some (some found)
      → get_elem? nodes' j ≡ some (some found)

  module _ (nodes nodes' : Nodes Node Meta) (extends : Extends nodes nodes') where
    mutual
      pub Stands-extend :
          {index : ℕ} {tree : Tree Node Meta} → Stands nodes index tree → Stands nodes' index tree
      Stands-extend (leaf_stands index meta value h) =
          leaf_stands index meta value (extends index _ h)
      Stands-extend (branch_stands index meta ids children h all) =
          branch_stands index meta ids children (extends index _ h) (AllStand-extend all)

      AllStand-extend :
          {ids : List ℕ} {trees : Trees Node Meta}
          → AllStand nodes ids trees
          → AllStand nodes' ids trees
      AllStand-extend none_stand = none_stand
      AllStand-extend (more_stand index ids child children h all) =
          more_stand index ids child children (Stands-extend h) (AllStand-extend all)

  mutual
    unfolding starts

    At-Stands :
        {nodes : Nodes Node Meta} {index : ℕ} {tree : Tree Node Meta}
        → At nodes index tree
        → Stands nodes index tree
    At-Stands (leaf_at index meta value h) = leaf_stands index meta value h
    At-Stands (branch_at index meta children h all) =
        branch_stands index meta (starts (suc index) children) children h (AllAt-AllStand all)

    AllAt-AllStand :
        {nodes : Nodes Node Meta} {index : ℕ} {trees : Trees Node Meta}
        → AllAt nodes index trees
        → AllStand nodes (starts index trees) trees
    AllAt-AllStand (nil_at index) = none_stand
    AllAt-AllStand (cons_at index child children h all) =
        more_stand index (starts (index + size child) children) child children (At-Stands h)
          (AllAt-AllStand all)

  -- A tree put in an empty slot.
  pub record Replaced (tree : Tree Node Meta) (index : ℕ) (nodes nodes' : Nodes Node Meta)
      : Type (ℓ ⊔ κ) where
    pub long : length nodes ≤ length nodes'
    pub others : (j : ℕ) → j < length nodes → index ≢ j → get_elem? nodes' j ≡ get_elem? nodes j
    pub stands : Stands nodes' index tree

  clear_children-none :
      (index : ℕ) (nodes : Nodes Node Meta)
      → get_elem? nodes index ≡ some none
      → clear_children index nodes ≡ nodes
  unfolding clear_children children_at for_each
  clear_children-none index nodes h = rw (h, clear_children, children_at) refl

  ensure_index_inside :
      (index : ℕ) (nodes : Nodes Node Meta)
      → index < length nodes
      → ensure_index index nodes ≡ nodes
  unfolding ensure_index
  ensure_index_inside index nodes h = ground arith

  replace_leaf :
      (meta : Meta) (value : Node) (index : ℕ) (nodes : Nodes Node Meta)
      → get_elem? nodes index ≡ some none
      → Replaced (leaf meta value) index nodes (set nodes index (some (leaf_node meta value)))
  replace_leaf meta value index nodes h = record {
    long = omega (arith, length-set nodes index (some (leaf_node meta value)));
    others = λ j inside differ. get_elem?-set_ne nodes index j (some (leaf_node meta value)) differ;
    stands =
        leaf_stands index meta value
          (get_elem?-set_self nodes index (some (leaf_node meta value)) h);
  }

  replace_branch :
      (meta : Meta) (children : Trees Node Meta) (index : ℕ) (nodes : Nodes Node Meta)
      → index < length nodes
      → get_elem? nodes index ≡ some none
      → Replaced (branch meta children) index nodes (
          set
            (append_children children nodes).1
            index
            (some (branch_node meta (append_children children nodes).0)))
  replace_branch meta children index nodes inside h =
      let all = append_children-AllAppended children nodes in
      let grown : Nodes Node Meta = (append_children children nodes).1 in
      let written : Option (FlatTreeNode Node Meta) =
        some (branch_node meta (append_children children nodes).0) in
      record {
        long = omega (arith, length-set grown index written, all.long);
        others = λ j low differ. get_elem?-set_ne grown index j written differ ∙ all.kept j low;
        stands =
            branch_stands index meta (append_children children nodes).0 children
              (get_elem?-set_self grown index written (all.kept index inside ∙ h))
              (subst (λ ids. AllStand (set grown index written) ids children) (sym all.first)
                (AllAt-AllStand (
                  AllAt-frame grown (set grown index written)
                    (λ j low high.
                      get_elem?-set_ne grown index j written (λ same. absurd (omega arith)))
                    all.stands)));
      }

  pub replace_tree_nodes-Replaced :
      (tree : Tree Node Meta) (index : ℕ) (nodes : Nodes Node Meta)
      → index < length nodes
      → get_elem? nodes index ≡ some none
      → Replaced tree index nodes (replace_tree_nodes tree index nodes)
  unfolding replace_tree_nodes
  replace_tree_nodes-Replaced (leaf meta value) index nodes inside h =
      rw (clear_children-none index nodes h, ensure_index_inside index nodes inside)
        (replace_leaf meta value index nodes h)
  replace_tree_nodes-Replaced (branch meta children) index nodes inside h =
      let all = append_children-AllAppended children nodes in
      rw
        (
          clear_children-none index nodes h,
          ensure_index_inside index (append_children children nodes).1 (omega (arith, all.long)),
        )
        (replace_branch meta children index nodes inside h)
