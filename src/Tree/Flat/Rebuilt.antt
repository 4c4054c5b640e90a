-- ===== src/Tree/Flat/Rebuilt.antt =====
-- What is built of the arena after the sweep of `map_option`.
use mathlib.Core.Path.{ap₂}
use lusid.Base.{
  ℕ, zero, suc, ◌+◌, ◌-◌, ◌<◌, ◌≤◌, ◌≡◌, inl, inr, refl, ◌∙◌, sym, ap, subst, false, Bool-cases,
  Option, some, none, List, [], ◌∷◌, ◌++◌, append-nil, arith, length, length-set, get_elem?, set,
  if◌then◌else◌,
}
use lusid.Tree.{Tree, Trees, branch, leaf, nil, cons}
use lusid.Tree.Flat.{branch_node, leaf_node, Nodes, build, build_children, cons_some, to_tree}
use lusid.Tree.Flat.Layout.{size, sizes, starts}
use lusid.Tree.Flat.Build.{build-leaf, build-branch, set-none}
use lusid.Tree.Flat.Sweep.{is_there, search, depth_first_search, drop_empty}
use lusid.Tree.Flat.Pruned.{
  keep_branch, prune, prune_all, Holed, post, rounds, rounds_all, search-post, Holed-gone,
}
use lusid.Tree.Flat.Swept.{
  Swept, AllSwept, all_gone, leaf_kept, branch_kept, cons_swept, AllSwept-frame,
}
use lusid.Tree.Flat.Dropped.{drop-Sweeps}

-- `unwrap_or_else` of the conversion.
abbrev pub or_empty_branch {ℓ κ} :
    {Node : Type ℓ} {Meta : Type κ} → Meta → Option (Tree Node Meta) → Tree Node Meta
or_empty_branch default none = branch default nil
or_empty_branch default (some tree) = tree

module _ {ℓ κ} {Node : Type ℓ} {Meta : Type κ} where
  record Rebuilt (tree : Tree (Option Node) Meta) (index : ℕ) (nodes : Nodes Node Meta)
      (result : Option (Tree Node Meta) × Nodes Node Meta) : Type (ℓ ⊔ κ) where
    found : result.0 ≡ prune tree
    before : (j : ℕ) → j < index → get_elem? result.1 j ≡ get_elem? nodes j
    behind : (j : ℕ) → index + size tree ≤ j → get_elem? result.1 j ≡ get_elem? nodes j

  record AllRebuilt (trees : Trees (Option Node) Meta) (index : ℕ) (nodes : Nodes Node Meta)
      (result : Trees Node Meta × Nodes Node Meta) : Type (ℓ ⊔ κ) where
    found : result.0 ≡ prune_all trees
    before : (j : ℕ) → j < index → get_elem? result.1 j ≡ get_elem? nodes j
    behind : (j : ℕ) → index + sizes trees ≤ j → get_elem? result.1 j ≡ get_elem? nodes j

  build-gone :
      (fuel index : ℕ) (nodes : Nodes Node Meta)
      → get_elem? nodes index ≡ some none
      → build fuel index nodes ≡ (none, nodes)
  unfolding build
  build-gone zero index nodes h = refl
  build-gone (suc fuel) index nodes h = rw (h, build) refl

  gone-Rebuilt :
      (tree : Tree (Option Node) Meta) (fuel index : ℕ) (nodes : Nodes Node Meta)
      → get_elem? nodes index ≡ some none
      → prune tree ≡ none
      → Rebuilt tree index nodes (build fuel index nodes)
  gone-Rebuilt tree fuel index nodes h none_left =
      subst (Rebuilt tree index nodes) (sym (build-gone fuel index nodes h))
        (record { found = sym none_left; before = λ j low. refl; behind = λ j high. refl })

  leaf-Rebuilt :
      (fuel index : ℕ) (meta : Meta) (value : Node) (nodes : Nodes Node Meta)
      → get_elem? nodes index ≡ some (some (leaf_node meta value))
      → Rebuilt (leaf meta (some value)) index nodes (build (suc fuel) index nodes)
  unfolding size prune
  leaf-Rebuilt fuel index meta value nodes h =
      subst (Rebuilt (leaf meta (some value)) index nodes)
        (sym (build-leaf fuel index meta value nodes h))
        (record {
          found = refl;
          before = λ j low. set-none nodes index j (λ same. absurd (omega arith));
          behind = λ j high. set-none nodes index j (λ same. absurd (omega arith));
        })

  branch-Rebuilt :
      (fuel index : ℕ) (meta : Meta) (children : Trees (Option Node) Meta) (first : Tree Node Meta)
      (others : Trees Node Meta) (nodes : Nodes Node Meta)
      → get_elem? nodes index ≡ some (some (branch_node meta (starts (suc index) children)))
      → prune_all children ≡ cons first others
      → AllRebuilt children
          (suc index)
          (set nodes index none)
          (build_children (build fuel) (starts (suc index) children) (set nodes index none))
      → Rebuilt (branch meta children) index nodes (build (suc fuel) index nodes)
  unfolding size prune
  branch-Rebuilt fuel index meta children first others nodes h left all =
      subst (Rebuilt (branch meta children) index nodes)
        (sym (build-branch fuel index meta (starts (suc index) children) nodes h))
        (record {
          found =
              ap (λ ts. some (branch meta ts)) (all.found ∙ left)
              ∙ sym (ap (keep_branch meta) left);
          before = λ j low.
              all.before j (omega arith) ∙ set-none nodes index j (λ same. absurd (omega arith));
          behind = λ j high.
              all.behind j (omega arith) ∙ set-none nodes index j (λ same. absurd (omega arith));
        })

  mutual
    unfolding size build_children starts prune

    build-Rebuilt :
        (tree : Tree (Option Node) Meta) (fuel index : ℕ) (nodes : Nodes Node Meta)
        → size tree ≤ fuel
        → Swept nodes index tree
        → Rebuilt tree index nodes (build fuel index nodes)
    build-Rebuilt (leaf meta value) fuel _ nodes enough (all_gone index _ h none_left) =
        gone-Rebuilt (leaf meta value) fuel index nodes h none_left
    build-Rebuilt (leaf meta (some value)) zero index nodes enough h = absurd (omega arith)
    build-Rebuilt (leaf meta (some value)) (suc fuel) _ nodes enough (leaf_kept index _ _ h) =
        leaf-Rebuilt fuel index meta value nodes h
    build-Rebuilt (branch meta children) zero index nodes enough h = absurd (omega arith)
    build-Rebuilt (branch meta children) (suc fuel) _ nodes enough (all_gone index _ h none_left) =
        gone-Rebuilt (branch meta children) (suc fuel) index nodes h none_left
    build-Rebuilt (branch meta children) (suc fuel) _ nodes enough
          (branch_kept index _ _ first others h all left) =
        branch-Rebuilt fuel index meta children first others nodes h left (
          build_children-AllRebuilt children fuel (suc index) (set nodes index none) (omega arith) (
            AllSwept-frame nodes (set nodes index none)
              (λ j low high. set-none nodes index j (λ same. absurd (omega arith))) all))

    build_children-AllRebuilt :
        (trees : Trees (Option Node) Meta) (fuel index : ℕ) (nodes : Nodes Node Meta)
        → sizes trees ≤ fuel
        → AllSwept nodes index trees
        → AllRebuilt trees index nodes (build_children (build fuel) (starts index trees) nodes)
    build_children-AllRebuilt nil fuel index nodes enough h = record {
      found = refl;
      before = λ j low. refl;
      behind = λ j high. refl;
    }
    build_children-AllRebuilt (cons child children) fuel _ nodes enough
          (cons_swept index _ _ h all) =
        let one = build-Rebuilt child fuel index nodes (omega arith) h in
        let rest =
          build_children-AllRebuilt children fuel (index + size child) (build fuel index nodes).1
            (omega arith)
            (AllSwept-frame nodes (build fuel index nodes).1 (λ j low high. one.behind j low)
              all) in
        record {
          found = ap₂ cons_some one.found rest.found;
          before = λ j low. rest.before j (omega arith) ∙ one.before j low;
          behind = λ j high. rest.behind j (omega arith) ∙ one.behind j (omega arith);
        }

  length-drop_empty :
      (order : List ℕ) (nodes : Nodes Node Meta) → length (drop_empty order nodes) ≡ length nodes
  unfolding drop_empty
  length-drop_empty [] nodes = refl
  length-drop_empty (index ∷ order) nodes = ground (
    arith,
    length-drop_empty order nodes,
    length-drop_empty order (set nodes index none),
    length-set nodes index none,
  )

  search-done : (fuel : ℕ) (nodes : Nodes Node Meta) → search fuel nodes [] ≡ []
  unfolding search
  search-done zero nodes = refl
  search-done (suc fuel) nodes = refl

  mutual
    unfolding rounds size

    rounds-le : (tree : Tree (Option Node) Meta) → rounds tree ≤ size tree + size tree
    rounds-le (leaf meta none) = omega arith
    rounds-le (leaf meta (some value)) = omega arith
    rounds-le (branch meta children) = omega (arith, rounds_all-le children)

    rounds_all-le :
        (trees : Trees (Option Node) Meta) → rounds_all trees ≤ sizes trees + sizes trees
    rounds_all-le nil = omega arith
    rounds_all-le (cons child children) = omega (arith, rounds-le child, rounds_all-le children)

  -- The search passes every node of the tree that is there, children first.
  depth_first_search-post :
      (tree : Tree (Option Node) Meta) (nodes : Nodes Node Meta)
      → size tree ≤ length nodes
      → Holed nodes 0 tree
      → depth_first_search nodes ≡ post 0 tree
  unfolding depth_first_search
  depth_first_search-post tree nodes enough h = elim (Bool-cases (is_there nodes 0)) [
    | inl there ↦
        let left = length nodes + length nodes - rounds tree in
        let bound = rounds-le tree in
        let fuel : length nodes + length nodes ≡ rounds tree + left = omega arith in
        ap (λ b. if b then search (length nodes + length nodes) nodes ((0, false) ∷ []) else [])
          there
        ∙ ap (λ n. search n nodes ((0, false) ∷ [])) fuel
        ∙ search-post nodes tree 0 left [] h there
        ∙ ap (λ l. post 0 tree ++ l) (search-done left nodes)
        ∙ append-nil (post 0 tree)
    | inr gone ↦
        ap (λ b. if b then search (length nodes + length nodes) nodes ((0, false) ∷ []) else [])
          gone
        ∙ sym (Holed-gone nodes tree 0 h gone).0
  ]

  to_tree-or :
      (default : Meta) (nodes : Nodes Node Meta)
      → to_tree default (record { nodes = nodes })
        ≡ or_empty_branch default (build (length nodes) 0 nodes).0
  unfolding to_tree
  to_tree-or default nodes = ground arith

  -- The swept arena of a tree with dropped leaves, nested again, is the pruned tree.
  pub sweep-prune :
      (default : Meta) (tree : Tree (Option Node) Meta) (nodes : Nodes Node Meta)
      → size tree ≤ length nodes
      → Holed nodes 0 tree
      → to_tree default (record { nodes = drop_empty (depth_first_search nodes) nodes })
        ≡ or_empty_branch default (prune tree)
  unfolding to_tree
  sweep-prune default tree nodes enough h =
      let end = drop_empty (post 0 tree) nodes in
      let swept = (drop-Sweeps tree 0 nodes h).swept in
      let built =
        build-Rebuilt tree (length end) 0 end (omega (arith, length-drop_empty (post 0 tree) nodes))
          swept in
      ap (λ order. to_tree default (record { nodes = drop_empty order nodes }))
        (depth_first_search-post tree nodes enough h)
      ∙ to_tree-or default end
      ∙ ap (or_empty_branch default) built.found
