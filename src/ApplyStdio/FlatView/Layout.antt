-- ===== src/ApplyStdio/FlatView/Layout.antt =====
-- Where `append_view_tree_nodes` puts a tree: the root first, then the children, one after another.
use mathlib.Core.Path.{ap₂}
use lusid.Base.{
  ℕ, suc, ◌+◌, ◌<◌, ◌≤◌, ◌≡◌, refl, ◌∙◌, ap, subst, Option, some, List, [], ◌∷◌, ◌++◌, arith,
  length, length-append, length-set, get_elem?, set, get_elem?-set_self, get_elem?-set_ne,
  get_elem?-append_length, get_elem?-append_inside,
}
use lusid.View.{View, ViewTree, ViewTrees, branch, leaf, no_trees, tree_and}
use lusid.ApplyStdio.FlatView.{
  FlatViewTreeNode, complete, branch_node, leaf_node, Nodes, append_view_tree_nodes,
  append_children,
}

-- The slots that a tree takes.
unfoldable mutual
  pub size : ViewTree → ℕ
  size (leaf value) = 1
  size (branch view children) = suc (sizes children)

  pub sizes : ViewTrees → ℕ
  sizes no_trees = 0
  sizes (tree_and child children) = size child + sizes children

-- The indices of children that stand one after another.
unfoldable pub starts : ℕ → ViewTrees → List ℕ
starts index no_trees = []
starts index (tree_and child children) = index ∷ starts (index + size child) children

-- The tree stands in the arena from an index on.
mutual
  pub data At (nodes : Nodes) : ℕ → ViewTree → Type 0 where
    leaf_at :
        (index : ℕ) (value : View)
        → get_elem? nodes index ≡ some (some (leaf_node (complete value)))
        → At nodes index (leaf value)
    branch_at :
        (index : ℕ) (view : View) (children : ViewTrees)
        → get_elem? nodes index ≡ some (some (branch_node view (starts (suc index) children)))
        → AllAt nodes (suc index) children
        → At nodes index (branch view children)

  pub data AllAt (nodes : Nodes) : ℕ → ViewTrees → Type 0 where
    nil_at : (index : ℕ) → AllAt nodes index no_trees
    cons_at :
        (index : ℕ) (child : ViewTree) (children : ViewTrees)
        → At nodes index child
        → AllAt nodes (index + size child) children
        → AllAt nodes index (tree_and child children)

-- Only the slots of the tree matter.
module _ (nodes nodes' : Nodes) where
  abbrev pub SameFrom : ℕ → ℕ → Type 0
  SameFrom from to = (j : ℕ) → from ≤ j → j < to → get_elem? nodes' j ≡ get_elem? nodes j

  mutual
    unfolding size

    pub At-frame :
        {index : ℕ} {tree : ViewTree}
        → SameFrom index (index + size tree)
        → At nodes index tree
        → At nodes' index tree
    At-frame same (leaf_at index value h) =
        leaf_at index value (same index (omega arith) (omega arith) ∙ h)
    At-frame same (branch_at index view children h all) =
        branch_at index view children (same index (omega arith) (omega arith) ∙ h)
          (AllAt-frame (λ j low high. same j (omega arith) (omega arith)) all)

    pub AllAt-frame :
        {index : ℕ} {trees : ViewTrees}
        → SameFrom index (index + sizes trees)
        → AllAt nodes index trees
        → AllAt nodes' index trees
    AllAt-frame same (nil_at index) = nil_at index
    AllAt-frame same (cons_at index child children h all) =
        cons_at index child children (At-frame (λ j low high. same j (omega arith) (omega arith)) h)
          (AllAt-frame (λ j low high. same j (omega arith) (omega arith)) all)

-- What an append does: the tree stands behind what was there.
pub record Appended (tree : ViewTree) (nodes : Nodes) (result : ℕ × Nodes) : Type 0 where
  pub first : result.0 ≡ length nodes
  pub long : length result.1 ≡ length nodes + size tree
  pub kept : (j : ℕ) → j < length nodes → get_elem? result.1 j ≡ get_elem? nodes j
  pub stands : At result.1 (length nodes) tree

pub record AllAppended (trees : ViewTrees) (nodes : Nodes) (result : List ℕ × Nodes) : Type 0 where
  pub first : result.0 ≡ starts (length nodes) trees
  pub long : length result.1 ≡ length nodes + sizes trees
  pub kept : (j : ℕ) → j < length nodes → get_elem? result.1 j ≡ get_elem? nodes j
  pub stands : AllAt result.1 (length nodes) trees

-- The root of a branch, written once its children have indices.
branch-Appended :
    (view : View) (children : ViewTrees) (nodes : Nodes) (appended : List ℕ × Nodes)
    → AllAppended children (nodes ++ some (branch_node view []) ∷ []) appended
    → Appended
        (branch view children)
        nodes
        (length nodes, set appended.1 (length nodes) (some (branch_node view appended.0)))
unfolding size
branch-Appended view children nodes appended all =
    let longer : length (nodes ++ some (branch_node view []) ∷ []) ≡ suc (length nodes) =
      omega (arith, length-append nodes (some (branch_node view []) ∷ [])) in
    let written : Option (FlatViewTreeNode) = some (branch_node view appended.0) in
    let there : get_elem? appended.1 (length nodes) ≡ some (some (branch_node view [])) =
      all.kept (length nodes) (omega arith)
      ∙ get_elem?-append_length nodes (some (branch_node view [])) [] in
    record {
      first = refl;
      long = omega (arith, length-set appended.1 (length nodes) written, all.long);
      kept = λ j inside.
          get_elem?-set_ne appended.1 (length nodes) j written (λ same. absurd (omega arith))
          ∙ all.kept j (omega arith)
          ∙ get_elem?-append_inside nodes (some (branch_node view []) ∷ []) j inside;
      stands =
          branch_at (length nodes) view children
            (get_elem?-set_self appended.1 (length nodes) written there
              ∙ ap (λ (ids : List ℕ). some (some (branch_node view ids)))
                  (all.first ∙ ap (λ n. starts n children) longer))
            (AllAt-frame appended.1 (set appended.1 (length nodes) written)
              (λ j low high.
                get_elem?-set_ne appended.1 (length nodes) j written (λ same. absurd (omega arith)))
              (subst (λ n. AllAt appended.1 n children) longer all.stands));
    }

mutual
  unfolding append_view_tree_nodes size starts

  pub append_view_tree_nodes-Appended :
      (tree : ViewTree) (nodes : Nodes) → Appended tree nodes (append_view_tree_nodes tree nodes)
  append_view_tree_nodes-Appended (leaf value) nodes = record {
    first = refl;
    long = length-append nodes (some (leaf_node (complete value)) ∷ []);
    kept =
        λ j inside. get_elem?-append_inside nodes (some (leaf_node (complete value)) ∷ []) j inside;
    stands =
        leaf_at (length nodes) value
          (get_elem?-append_length nodes (some (leaf_node (complete value))) []);
  }
  append_view_tree_nodes-Appended (branch view children) nodes =
      branch-Appended view children nodes _ (append_children-AllAppended children _)

  pub append_children-AllAppended :
      (trees : ViewTrees) (nodes : Nodes) → AllAppended trees nodes (append_children trees nodes)
  append_children-AllAppended no_trees nodes = record {
    first = refl;
    long = omega arith;
    kept = λ j inside. refl;
    stands = nil_at (length nodes);
  }
  append_children-AllAppended (tree_and child children) nodes =
      let one = append_view_tree_nodes-Appended child nodes in
      let rest = append_children-AllAppended children (append_view_tree_nodes child nodes).1 in
      record {
        first =
            ap₂ (λ (i : ℕ) (is : List ℕ). i ∷ is) one.first
              (rest.first ∙ ap (λ n. starts n children) one.long);
        long = omega (arith, one.long, rest.long);
        kept = λ j inside. rest.kept j (omega (arith, one.long)) ∙ one.kept j inside;
        stands =
            cons_at (length nodes) child children
              (At-frame (append_view_tree_nodes child nodes).1
                (append_children children (append_view_tree_nodes child nodes).1).1
                (λ j low high. rest.kept j (omega (arith, one.long))) one.stands)
              (subst
                (λ n.
                  AllAt (append_children children (append_view_tree_nodes child nodes).1).1 n
                    children)
                one.long rest.stands);
      }
