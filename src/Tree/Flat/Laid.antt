-- ===== src/Tree/Flat/Laid.antt =====
-- What `append_tree_nodes` and `replace_tree_nodes` write, as the slots that they add.
use lusid.Base.{
  ℕ, suc, ◌+◌, ◌<◌, ◌≡◌, refl, ◌∙◌, sym, ap, Option, some, none, List, [], ◌∷◌, ◌++◌, append_assoc,
  append-nil, arith, length, length-append, set, set_pushed, set-append_length,
  get_elem?-append_length,
}
use lusid.Tree.{Tree, Trees, branch, leaf, nil, cons}
use lusid.Tree.Flat.{
  FlatTreeNode, branch_node, leaf_node, Nodes, append_tree_nodes, append_children, children_at,
  clear_children, ensure_index, for_each, replace_tree_nodes,
}
use lusid.Tree.Flat.Layout.{size, sizes, starts}

module _ {ℓ κ} {Node : Type ℓ} {Meta : Type κ} where
  -- The slots of a tree whose root stands at an index.
  unfoldable mutual
    pub laid : ℕ → Tree Node Meta → Nodes Node Meta
    laid index (leaf meta value) = some (leaf_node meta value) ∷ []
    laid index (branch meta children) =
        some (branch_node meta (starts (suc index) children)) ∷ laid_all (suc index) children

    pub laid_all : ℕ → Trees Node Meta → Nodes Node Meta
    laid_all index nil = []
    laid_all index (cons child children) =
        laid index child ++ laid_all (index + size child) children

  mutual
    unfolding laid size

    length-laid : (index : ℕ) (tree : Tree Node Meta) → length (laid index tree) ≡ size tree
    length-laid index (leaf meta value) = refl
    length-laid index (branch meta children) = ap suc (length-laid_all (suc index) children)

    length-laid_all :
        (index : ℕ) (trees : Trees Node Meta) → length (laid_all index trees) ≡ sizes trees
    length-laid_all index nil = refl
    length-laid_all index (cons child children) = omega (
      arith,
      length-append (laid index child) (laid_all (index + size child) children),
      length-laid index child,
      length-laid_all (index + size child) children,
    )

  longer :
      (nodes : Nodes Node Meta) (slot : Option (FlatTreeNode Node Meta))
      → length (nodes ++ slot ∷ []) ≡ suc (length nodes)
  longer nodes slot = omega (arith, length-append nodes (slot ∷ []))

  branch_laid :
      (meta : Meta) (children : Trees Node Meta) (nodes : Nodes Node Meta)
      (appended : List ℕ × Nodes Node Meta)
      → appended ≡ (
        starts (length (nodes ++ some (branch_node meta []) ∷ [])) children,
        (nodes ++ some (branch_node meta []) ∷ [])
            ++ laid_all (length (nodes ++ some (branch_node meta []) ∷ [])) children,
      )
      → set appended.1 (length nodes) (some (branch_node meta appended.0))
        ≡ nodes ++ laid (length nodes) (branch meta children)
  unfolding laid
  branch_laid meta children nodes appended h =
      ap (λ (r : List ℕ × Nodes Node Meta). set r.1 (length nodes) (some (branch_node meta r.0))) h
      ∙ set_pushed nodes (some (branch_node meta [])) _ _
      ∙ ap (λ n. nodes ++ some (branch_node meta (starts n children)) ∷ laid_all n children)
          (longer nodes (some (branch_node meta [])))

  mutual
    unfolding append_tree_nodes laid starts

    pub append_tree_nodes-laid :
        (tree : Tree Node Meta) (nodes : Nodes Node Meta)
        → append_tree_nodes tree nodes ≡ (length nodes, nodes ++ laid (length nodes) tree)
    append_tree_nodes-laid (leaf meta value) nodes = refl
    append_tree_nodes-laid (branch meta children) nodes =
        ap (λ (ns : Nodes Node Meta). (length nodes, ns))
          (branch_laid meta children nodes _ (append_children-laid children _))

    pub append_children-laid :
        (trees : Trees Node Meta) (nodes : Nodes Node Meta)
        → append_children trees nodes
          ≡ (starts (length nodes) trees, nodes ++ laid_all (length nodes) trees)
    append_children-laid nil nodes =
        ap (λ (ns : Nodes Node Meta). ([], ns)) (sym (append-nil nodes))
    append_children-laid (cons child children) nodes =
        let first = append_tree_nodes-laid child nodes in
        let more : length (nodes ++ laid (length nodes) child) ≡ length nodes + size child = omega (
          arith,
          length-append nodes (laid (length nodes) child),
          length-laid (length nodes) child,
        ) in
        ap
          (λ (r : ℕ × Nodes Node Meta).
            (r.0 ∷ (append_children children r.1).0, (append_children children r.1).1))
          first
        ∙ ap (λ (r : List ℕ × Nodes Node Meta). (length nodes ∷ r.0, r.1))
            (append_children-laid children (nodes ++ laid (length nodes) child))
        ∙ ap
            (λ n. (
              length nodes ∷ starts n children,
              (nodes ++ laid (length nodes) child) ++ laid_all n children,
            ))
            more
        ∙ ap
            (λ (ns : Nodes Node Meta).
              (length nodes ∷ starts (length nodes + size child) children, ns))
            (append_assoc nodes (laid (length nodes) child)
              (laid_all (length nodes + size child) children))

  -- The root that a replacement writes, and the slots that it adds behind an arena of a length.
  unfoldable pub grafted : ℕ → Tree Node Meta → Option (FlatTreeNode Node Meta)
  grafted n (leaf meta value) = some (leaf_node meta value)
  grafted n (branch meta children) = some (branch_node meta (starts n children))

  unfoldable pub added : ℕ → Tree Node Meta → Nodes Node Meta
  added n (leaf meta value) = []
  added n (branch meta children) = laid_all n children

  -- An empty slot has no children to clear.
  no_children :
      (before after : Nodes Node Meta)
      → clear_children (length before) (before ++ none ∷ after) ≡ before ++ none ∷ after
  unfolding clear_children children_at for_each
  no_children before after = rw (get_elem?-append_length before none after, children_at) refl

  ensured :
      (index : ℕ) (nodes : Nodes Node Meta)
      → index < length nodes
      → ensure_index index nodes ≡ nodes
  unfolding ensure_index
  ensured index nodes h = ground arith

  inside :
      (before after : Nodes Node Meta) (slot : Option (FlatTreeNode Node Meta))
      → length before < length (before ++ slot ∷ after)
  inside before after slot = omega (arith, length-append before (slot ∷ after))

  -- A tree that replaces an empty slot.
  pub replace_tree_nodes-none :
      (tree : Tree Node Meta) (before after : Nodes Node Meta)
      → replace_tree_nodes tree (length before) (before ++ none ∷ after)
        ≡ before
          ++ grafted (length (before ++ none ∷ after)) tree
            ∷ (after ++ added (length (before ++ none ∷ after)) tree)
  unfolding replace_tree_nodes grafted added
  replace_tree_nodes-none (leaf meta value) before after =
      ap (λ ns. set (ensure_index (length before) ns) (length before) (some (leaf_node meta value)))
        (no_children before after)
      ∙ ap (λ ns. set ns (length before) (some (leaf_node meta value)))
          (ensured (length before) _ (inside before after none))
      ∙ set-append_length before none (some (leaf_node meta value)) after
      ∙ ap (λ ns. before ++ some (leaf_node meta value) ∷ ns) (sym (append-nil after))
  replace_tree_nodes-none (branch meta children) before after =
      let n = length (before ++ none ∷ after) in
      let new = laid_all n children in
      let regroup : (before ++ none ∷ after) ++ new ≡ before ++ none ∷ (after ++ new) =
        append_assoc before (none ∷ after) new in
      let write = λ (r : List ℕ × Nodes Node Meta).
        set (ensure_index (length before) r.1) (length before) (some (branch_node meta r.0)) in
      ap (λ ns. write (append_children children ns)) (no_children before after)
      ∙ ap write (append_children-laid children (before ++ none ∷ after))
      ∙ ap (λ ns. write (starts n children, ns)) regroup
      ∙ ap (λ ns. set ns (length before) (some (branch_node meta (starts n children))))
          (ensured (length before) _ (inside before (after ++ new) none))
      ∙ set-append_length before none _ (after ++ new)
