-- ===== src/Tree/Flat/Expanded.antt =====
-- `FlatTree::map_tree` puts a tree in the place of each leaf.
use mathlib.Core.Option.{none-ne-some}
use lusid.Base.{
  ℕ, zero, suc, ◌+◌, ◌<◌, ◌≤◌, ◌≡◌, ◌≢◌, ◌∙◌, subst, Option, some, none, List, [], ◌∷◌, arith,
  length, length-set, get_elem?, get_elem?-set_self, get_elem?-set_ne, get_elem?-replicate,
  get_elem?-inside, set, replicate, length-replicate, Result, ok, >>=-eq-ok, ok-injective,
}
use lusid.Tree.{Tree, Trees, branch, leaf, nil, cons}
use lusid.Tree.Flat.{
  FlatTree, FlatTreeNode, branch_node, leaf_node, Nodes, from_tree, append_tree_nodes,
  replace_tree_nodes,
}
use lusid.Tree.Flat.Layout.{
  size, starts, At, AllAt, leaf_at, branch_at, nil_at, cons_at, append_tree_nodes-Appended,
}
use lusid.Tree.Flat.Transform.{map_tree_loop, map_tree}
use lusid.Tree.Flat.Stands.{
  Stands, branch_stands, AllStand, none_stand, more_stand, Extends, Stands-extend,
  replace_tree_nodes-Replaced,
}

-- Each leaf replaced by a tree.
module _ {ℓ κ μ} {Node : Type ℓ} {NextNode : Type μ} {Meta : Type κ}
    (f : Node → Meta → Tree NextNode Meta) where
  unfoldable mutual
    pub expand : Tree Node Meta → Tree NextNode Meta
    expand (leaf meta value) = f value meta
    expand (branch meta children) = branch meta (expand_all children)

    pub expand_all : Trees Node Meta → Trees NextNode Meta
    expand_all nil = nil
    expand_all (cons child children) = cons (expand child) (expand_all children)

module _ {ℓ κ μ ν ξ} {Node : Type ℓ} {NextNode : Type μ} {Meta : Type κ} {S : Type ν}
    {Error : Type ξ} (f : Node → Meta → Tree NextNode Meta)
    (write_update : ℕ → Tree NextNode Meta → S → Result Error S) where
  -- What the new arena has in the place of a node of the old one.
  data Done (final : Nodes NextNode Meta) (index : ℕ)
      : FlatTreeNode Node Meta → Type (ℓ ⊔ κ ⊔ μ) where
    branch_done :
        (meta : Meta) (children : List ℕ)
        → get_elem? final index ≡ some (some (branch_node meta children))
        → Done final index (branch_node meta children)
    leaf_done :
        (meta : Meta) (value : Node)
        → Stands final index (f value meta)
        → Done final index (leaf_node meta value)

  -- The slots of the new arena that the loop has still to write are empty.
  abbrev IsFree : Nodes NextNode Meta → ℕ → ℕ → Type (κ ⊔ μ)
  IsFree next from count = (j : ℕ) → from ≤ j → j < from + count → get_elem? next j ≡ some none

  record Looped (nodes : Nodes Node Meta) (index : ℕ) (next final : Nodes NextNode Meta)
      : Type (ℓ ⊔ κ ⊔ μ) where
    extends : Extends next final
    done :
        (i : ℕ) (found : FlatTreeNode Node Meta)
        → get_elem? nodes i ≡ some (some found)
        → Done final (index + i) found

  Done-extend :
      (next final : Nodes NextNode Meta) (index : ℕ) (found : FlatTreeNode Node Meta)
      → Extends next final
      → Done next index found
      → Done final index found
  Done-extend next final index _ extends (branch_done meta children h) =
      branch_done meta children (extends index _ h)
  Done-extend next final index _ extends (leaf_done meta value h) =
      leaf_done meta value (Stands-extend next final extends h)

  -- One slot of the loop, and the rest of it.
  Looped-cons :
      (found : FlatTreeNode Node Meta) (nodes : Nodes Node Meta) (index : ℕ)
      (next next' final : Nodes NextNode Meta)
      → Extends next next'
      → Done next' index found
      → Looped nodes (suc index) next' final
      → Looped (some found ∷ nodes) index next final
  Looped-cons found nodes index next next' final extends here rest = record {
    extends = λ j x h. rest.extends j x (extends j x h);
    done = at;
  }
    where
      at :
          (i : ℕ) (x : FlatTreeNode Node Meta)
          → get_elem? (some found ∷ nodes) i ≡ some (some x)
          → Done final (index + i) x
      at zero x h =
          let same : found ≡ x = cc in
          subst (λ n. Done final n x) (omega arith)
            (subst (Done final index) same (Done-extend next' final index found rest.extends here))
      at (suc i) x h = subst (λ n. Done final n x) (omega arith) (rest.done i x h)

  Looped-none :
      (nodes : Nodes Node Meta) (index : ℕ) (next final : Nodes NextNode Meta)
      → Looped nodes (suc index) next final
      → Looped (none ∷ nodes) index next final
  Looped-none nodes index next final rest = record { extends = rest.extends; done = at }
    where
      at :
          (i : ℕ) (x : FlatTreeNode Node Meta)
          → get_elem? {A = Option (FlatTreeNode Node Meta)} (none ∷ nodes) i ≡ some (some x)
          → Done final (index + i) x
      at zero x h = cc
      at (suc i) x h = subst (λ n. Done final n x) (omega arith) (rest.done i x h)

  -- An empty slot is not one that holds a node.
  slots_apart :
      (next : Nodes NextNode Meta) (index j : ℕ) (found : FlatTreeNode NextNode Meta)
      → get_elem? next index ≡ some none
      → get_elem? next j ≡ some (some found)
      → index ≢ j
  slots_apart next index j found h there same =
      let empty : get_elem? next j ≡ some none = rw same at h in cc

  set-Extends :
      (next : Nodes NextNode Meta) (index : ℕ) (slot : Option (FlatTreeNode NextNode Meta))
      → get_elem? next index ≡ some none
      → Extends next (set next index slot)
  set-Extends next index slot h j found there =
      get_elem?-set_ne next index j slot (slots_apart next index j found h there) ∙ there

  map_tree_loop-Looped :
      (nodes : Nodes Node Meta) (index : ℕ) (next : Nodes NextNode Meta) (s : S)
      {final : Nodes NextNode Meta} {s' : S}
      → IsFree next index (length nodes)
      → index + length nodes ≤ length next
      → map_tree_loop f write_update nodes index next s ≡ ok (final, s')
      → Looped nodes index next final
  unfolding map_tree_loop
  map_tree_loop-Looped [] index next s {final} {s'} free room h =
      subst (λ (r : Nodes NextNode Meta × S). Looped [] index next r.0) (ok-injective h)
        (record {
          extends = λ j found there. there;
          done = λ i found there. absurd (none-ne-some _ there);
        })
  map_tree_loop-Looped (none ∷ nodes) index next s {final} free room h =
      Looped-none nodes index next final (
        map_tree_loop-Looped nodes (suc index) next s
          (λ j low high. free j (omega arith) (omega arith)) (omega arith) h)
  map_tree_loop-Looped (some (branch_node meta children) ∷ nodes) index next s {final} free room h =
      let slot : Option (FlatTreeNode NextNode Meta) = some (branch_node meta children) in
      let here = free index (omega arith) (omega arith) in
      Looped-cons (branch_node meta children) nodes index next (set next index slot) final
        (set-Extends next index slot here)
        (branch_done meta children (get_elem?-set_self next index slot here))
        (map_tree_loop-Looped nodes (suc index) (set next index slot) s
          (λ j low high.
            get_elem?-set_ne next index j slot (λ same. absurd (omega arith))
            ∙ free j (omega arith) (omega arith))
          (omega (arith, length-set next index slot)) h)
  map_tree_loop-Looped (some (leaf_node meta value) ∷ nodes) index next s {final} free room h =
      let here = free index (omega arith) (omega arith) in
      let grown : Nodes NextNode Meta = replace_tree_nodes (f value meta) index next in
      let replaced = replace_tree_nodes-Replaced (f value meta) index next (omega arith) here in
      let (s1, wrote, h') = >>=-eq-ok (write_update index (f value meta) s) _ h in
      Looped-cons (leaf_node meta value) nodes index next grown final
        (λ j found there.
          replaced.others j (get_elem?-inside next j there)
            (slots_apart next index j found here there)
          ∙ there)
        (leaf_done meta value replaced.stands)
        (map_tree_loop-Looped nodes (suc index) grown s1
          (λ j low high.
            replaced.others j (omega arith) (λ same. absurd (omega arith))
            ∙ free j (omega arith) (omega arith))
          (omega (arith, replaced.long)) h')

  module _ (nodes : Nodes Node Meta) (final : Nodes NextNode Meta)
      (done : (i : ℕ) (found : FlatTreeNode Node Meta)
        → get_elem? nodes i ≡ some (some found)
        → Done final i found) where
    leaf_expanded :
        (index : ℕ) (meta : Meta) (value : Node)
        → Done final index (leaf_node meta value)
        → Stands final index (f value meta)
    leaf_expanded index _ _ (leaf_done meta value h) = h

    branch_expanded :
        (index : ℕ) (meta : Meta) (children : List ℕ)
        → Done final index (branch_node meta children)
        → get_elem? final index ≡ some (some (branch_node meta children))
    branch_expanded index _ _ (branch_done meta children h) = h

    mutual
      unfolding expand starts

      At-expand :
          {index : ℕ} {tree : Tree Node Meta}
          → At nodes index tree
          → Stands final index (expand f tree)
      At-expand (leaf_at index meta value h) = leaf_expanded index meta value (done index _ h)
      At-expand (branch_at index meta children h all) =
          branch_stands index meta (starts (suc index) children) (expand_all f children)
            (branch_expanded index meta (starts (suc index) children) (done index _ h))
            (AllAt-expand all)

      AllAt-expand :
          {index : ℕ} {trees : Trees Node Meta}
          → AllAt nodes index trees
          → AllStand final (starts index trees) (expand_all f trees)
      AllAt-expand (nil_at index) = none_stand
      AllAt-expand (cons_at index child children h all) =
          more_stand index (starts (index + size child) children) (expand f child)
            (expand_all f children) (At-expand h) (AllAt-expand all)

  -- If `map_tree` succeeds on a tree made flat, then index 0 of the arena that it returns is the
  -- root of the tree with every leaf replaced by its tree.
  pub map_tree-Stands :
      (tree : Tree Node Meta) (s : S) {flat : FlatTree NextNode Meta} {s' : S}
      → map_tree f write_update (from_tree tree) s ≡ ok (flat, s')
      → Stands flat.nodes 0 (expand f tree)
  unfolding map_tree from_tree
  map_tree-Stands tree s {flat} {s'} h =
      let nodes : Nodes Node Meta = (append_tree_nodes tree []).1 in
      let ((final, s1), ran, result) =
        >>=-eq-ok (map_tree_loop f write_update nodes 0 (replicate (length nodes) none) s) _ h in
      let looped =
        map_tree_loop-Looped nodes 0 (replicate (length nodes) none) s
          (λ j low high. get_elem?-replicate (length nodes) j none (omega arith))
          (omega
            (arith, length-replicate {A = Option (FlatTreeNode NextNode Meta)} (length nodes) none))
          ran in
      subst (λ (r : FlatTree NextNode Meta × S). Stands r.0.nodes 0 (expand f tree))
        (ok-injective result)
        (At-expand nodes final
          (λ i found at. subst (λ n. Done final n found) (omega arith) (looped.done i found at))
          (append_tree_nodes-Appended tree []).stands)
