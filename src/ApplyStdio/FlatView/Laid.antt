-- ===== src/ApplyStdio/FlatView/Laid.antt =====
-- What `append_view_tree_nodes` and `replace_view_tree_nodes` write, as the slots that they add.
use lusid.Base.{
  ℕ, suc, ◌+◌, ◌<◌, ◌≡◌, refl, ◌∙◌, sym, ap, Option, some, none, ok, List, [], ◌∷◌, ◌++◌,
  append_assoc, append-nil, arith, length, length-append, set, set_pushed, set-append_length,
  get_elem?-append_length,
}
use lusid.View.{View, ViewTree, ViewTrees, branch, leaf, no_trees, tree_and}
use lusid.ApplyStdio.FlatView.{
  FlatViewTreeNode, ViewNode, complete, branch_node, leaf_node, Nodes, append_view_tree_nodes,
  append_children, children_at, clear_nodes, ensure_index_exists, for_each, replace_view_tree_nodes,
  set_leaf_view, set_node_none,
}
use lusid.ApplyStdio.FlatView.Layout.{size, sizes, starts}

-- The slots of a tree whose root stands at an index.
unfoldable mutual
  pub laid : ℕ → ViewTree → Nodes
  laid index (leaf value) = some (leaf_node (complete value)) ∷ []
  laid index (branch view children) =
      some (branch_node view (starts (suc index) children)) ∷ laid_all (suc index) children

  pub laid_all : ℕ → ViewTrees → Nodes
  laid_all index no_trees = []
  laid_all index (tree_and child children) =
      laid index child ++ laid_all (index + size child) children

mutual
  unfolding laid size

  length-laid : (index : ℕ) (tree : ViewTree) → length (laid index tree) ≡ size tree
  length-laid index (leaf value) = refl
  length-laid index (branch view children) = ap suc (length-laid_all (suc index) children)

  length-laid_all : (index : ℕ) (trees : ViewTrees) → length (laid_all index trees) ≡ sizes trees
  length-laid_all index no_trees = refl
  length-laid_all index (tree_and child children) = omega (
    arith,
    length-append (laid index child) (laid_all (index + size child) children),
    length-laid index child,
    length-laid_all (index + size child) children,
  )

longer :
    (nodes : Nodes) (slot : Option (FlatViewTreeNode))
    → length (nodes ++ slot ∷ []) ≡ suc (length nodes)
longer nodes slot = omega (arith, length-append nodes (slot ∷ []))

branch_laid :
    (view : View) (children : ViewTrees) (nodes : Nodes) (appended : List ℕ × Nodes)
    → appended ≡ (
      starts (length (nodes ++ some (branch_node view []) ∷ [])) children,
      (nodes ++ some (branch_node view []) ∷ [])
          ++ laid_all (length (nodes ++ some (branch_node view []) ∷ [])) children,
    )
    → set appended.1 (length nodes) (some (branch_node view appended.0))
      ≡ nodes ++ laid (length nodes) (branch view children)
unfolding laid
branch_laid view children nodes appended h =
    ap (λ (r : List ℕ × Nodes). set r.1 (length nodes) (some (branch_node view r.0))) h
    ∙ set_pushed nodes (some (branch_node view [])) _ _
    ∙ ap (λ n. nodes ++ some (branch_node view (starts n children)) ∷ laid_all n children)
        (longer nodes (some (branch_node view [])))

mutual
  unfolding append_view_tree_nodes laid starts

  pub append_view_tree_nodes-laid :
      (tree : ViewTree) (nodes : Nodes)
      → append_view_tree_nodes tree nodes ≡ (length nodes, nodes ++ laid (length nodes) tree)
  append_view_tree_nodes-laid (leaf value) nodes = refl
  append_view_tree_nodes-laid (branch view children) nodes =
      ap (λ (ns : Nodes). (length nodes, ns))
        (branch_laid view children nodes _ (append_children-laid children _))

  pub append_children-laid :
      (trees : ViewTrees) (nodes : Nodes)
      → append_children trees nodes
        ≡ (starts (length nodes) trees, nodes ++ laid_all (length nodes) trees)
  append_children-laid no_trees nodes = ap (λ (ns : Nodes). ([], ns)) (sym (append-nil nodes))
  append_children-laid (tree_and child children) nodes =
      let first = append_view_tree_nodes-laid child nodes in
      let more : length (nodes ++ laid (length nodes) child) ≡ length nodes + size child = omega (
        arith,
        length-append nodes (laid (length nodes) child),
        length-laid (length nodes) child,
      ) in
      ap
        (λ (r : ℕ × Nodes).
          (r.0 ∷ (append_children children r.1).0, (append_children children r.1).1))
        first
      ∙ ap (λ (r : List ℕ × Nodes). (length nodes ∷ r.0, r.1))
          (append_children-laid children (nodes ++ laid (length nodes) child))
      ∙ ap
          (λ n. (
            length nodes ∷ starts n children,
            (nodes ++ laid (length nodes) child) ++ laid_all n children,
          ))
          more
      ∙ ap (λ (ns : Nodes). (length nodes ∷ starts (length nodes + size child) children, ns))
          (append_assoc nodes (laid (length nodes) child)
            (laid_all (length nodes + size child) children))

-- The root that a replacement writes, and the slots that it adds behind an arena of a length.
unfoldable pub grafted : ℕ → ViewTree → Option (FlatViewTreeNode)
grafted n (leaf value) = some (leaf_node (complete value))
grafted n (branch view children) = some (branch_node view (starts n children))

unfoldable pub added : ℕ → ViewTree → Nodes
added n (leaf value) = []
added n (branch view children) = laid_all n children

-- The first lines of `replace_view_tree_nodes`, which clear what stood below.
abbrev cleared : ℕ → Nodes → Nodes
cleared index nodes = for_each (clear_nodes (length nodes)) (children_at nodes index) nodes

-- A leaf has no children to clear.
no_children :
    (old : ViewNode) (before after : Nodes)
    → cleared (length before) (before ++ some (leaf_node old) ∷ after)
      ≡ before ++ some (leaf_node old) ∷ after
unfolding children_at for_each
no_children old before after =
    rw (get_elem?-append_length before (some (leaf_node old)) after, children_at) refl

ensured :
    (index : ℕ) (nodes : Nodes) → index < length nodes → ensure_index_exists index nodes ≡ nodes
unfolding ensure_index_exists
ensured index nodes h = ground arith

inside :
    (before after : Nodes) (slot : Option (FlatViewTreeNode))
    → length before < length (before ++ slot ∷ after)
inside before after slot = omega (arith, length-append before (slot ∷ after))

-- A tree that replaces a leaf.
pub replace_view_tree_nodes-leaf :
    (tree : ViewTree) (old : ViewNode) (before after : Nodes)
    → replace_view_tree_nodes tree (length before) (before ++ some (leaf_node old) ∷ after)
      ≡ before
        ++ grafted (length (before ++ some (leaf_node old) ∷ after)) tree
          ∷ (after ++ added (length (before ++ some (leaf_node old) ∷ after)) tree)
unfolding replace_view_tree_nodes grafted added
replace_view_tree_nodes-leaf (leaf value) old before after =
    ap
      (λ ns.
        set (ensure_index_exists (length before) ns) (length before)
          (some (leaf_node (complete value))))
      (no_children old before after)
    ∙ ap (λ ns. set ns (length before) (some (leaf_node (complete value))))
        (ensured (length before) _ (inside before after (some (leaf_node old))))
    ∙ set-append_length before (some (leaf_node old)) (some (leaf_node (complete value))) after
    ∙ ap (λ ns. before ++ some (leaf_node (complete value)) ∷ ns) (sym (append-nil after))
replace_view_tree_nodes-leaf (branch view children) old before after =
    let n = length (before ++ some (leaf_node old) ∷ after) in
    let new = laid_all n children in
    let regroup : (before ++ some (leaf_node old) ∷ after) ++ new
        ≡ before ++ some (leaf_node old) ∷ (after ++ new) =
      append_assoc before (some (leaf_node old) ∷ after) new in
    let write = λ (r : List ℕ × Nodes).
      set (ensure_index_exists (length before) r.1) (length before) (some (branch_node view r.0)) in
    ap (λ ns. write (append_children children ns)) (no_children old before after)
    ∙ ap write (append_children-laid children (before ++ some (leaf_node old) ∷ after))
    ∙ ap (λ ns. write (starts n children, ns)) regroup
    ∙ ap (λ ns. set ns (length before) (some (branch_node view (starts n children))))
        (ensured (length before) _ (inside before (after ++ new) (some (leaf_node old))))
    ∙ set-append_length before (some (leaf_node old)) _ (after ++ new)

-- A leaf takes what is known of it.
pub set_leaf_view-leaf :
    (new old : ViewNode) (before after : Nodes)
    → set_leaf_view (record { nodes = before ++ some (leaf_node old) ∷ after }) (length before) new
      ≡ ok (record { nodes = before ++ some (leaf_node new) ∷ after })
unfolding set_leaf_view
set_leaf_view-leaf new old before after =
    let slots = before ++ some (leaf_node old) ∷ after in
    let here = ensured (length before) slots (inside before after (some (leaf_node old))) in
    let written : set (ensure_index_exists (length before) slots) (length before)
          (some (leaf_node new))
        ≡ before ++ some (leaf_node new) ∷ after =
      ap (λ ns. set ns (length before) (some (leaf_node new))) here
      ∙ set-append_length before (some (leaf_node old)) (some (leaf_node new)) after in
    rw (here, get_elem?-append_length before (some (leaf_node old)) after, set_leaf_view)
      (ap (λ ns. ok (record { nodes = ns })) written)

pub set_node_none-leaf :
    (old : ViewNode) (before after : Nodes)
    → set_node_none (record { nodes = before ++ some (leaf_node old) ∷ after }) (length before)
      ≡ record { nodes = before ++ none ∷ after }
unfolding set_node_none
set_node_none-leaf old before after =
    rw
      (
        ensured (length before) (before ++ some (leaf_node old) ∷ after)
            (inside before after (some (leaf_node old))),
        set-append_length before (some (leaf_node old)) none after,
      )
      refl
