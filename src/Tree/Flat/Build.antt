-- ===== src/Tree/Flat/Build.antt =====
-- `From<FlatTree> for Tree` on an arena that a tree stands in, and the round trip.
use mathlib.Core.Path.{ap₂}
use lusid.Base.{
  ℕ, zero, suc, ◌+◌, ◌<◌, ◌≤◌, ◌≡◌, ◌≢◌, refl, ◌∙◌, sym, ap, subst, Option, some, none, List, [],
  arith, length, get_elem?, set, get_elem?-set_ne,
}
use lusid.Tree.{Tree, Trees, branch, leaf, nil, cons}
use lusid.Tree.Flat.{
  FlatTree, branch_node, leaf_node, Nodes, from_tree, build, build_children, cons_some, to_tree,
}
use lusid.Tree.Flat.Layout.{
  size, sizes, starts, At, AllAt, leaf_at, branch_at, cons_at, AllAt-frame,
  append_tree_nodes-Appended,
}

module _ {ℓ κ} {Node : Type ℓ} {Meta : Type κ} where
  -- `build` has found the tree, and has taken no node from outside of its slots.
  record Built (tree : Tree Node Meta) (index : ℕ) (nodes : Nodes Node Meta)
      (result : Option (Tree Node Meta) × Nodes Node Meta) : Type (ℓ ⊔ κ) where
    found : result.0 ≡ some tree
    before : (j : ℕ) → j < index → get_elem? result.1 j ≡ get_elem? nodes j
    behind : (j : ℕ) → index + size tree ≤ j → get_elem? result.1 j ≡ get_elem? nodes j

  record AllBuilt (trees : Trees Node Meta) (index : ℕ) (nodes : Nodes Node Meta)
      (result : Trees Node Meta × Nodes Node Meta) : Type (ℓ ⊔ κ) where
    found : result.0 ≡ trees
    before : (j : ℕ) → j < index → get_elem? result.1 j ≡ get_elem? nodes j
    behind : (j : ℕ) → index + sizes trees ≤ j → get_elem? result.1 j ≡ get_elem? nodes j

  pub build-leaf :
      (fuel index : ℕ) (meta : Meta) (value : Node) (nodes : Nodes Node Meta)
      → get_elem? nodes index ≡ some (some (leaf_node meta value))
      → build (suc fuel) index nodes ≡ (some (leaf meta value), set nodes index none)
  unfolding build
  build-leaf fuel index meta value nodes h = rw (h, build) refl

  pub build-branch :
      (fuel index : ℕ) (meta : Meta) (children : List ℕ) (nodes : Nodes Node Meta)
      → get_elem? nodes index ≡ some (some (branch_node meta children))
      → build (suc fuel) index nodes ≡ (
        some (branch meta (build_children (build fuel) children (set nodes index none)).0),
        (build_children (build fuel) children (set nodes index none)).1,
      )
  unfolding build
  build-branch fuel index meta children nodes h = rw (h, build) refl

  pub set-none :
      (nodes : Nodes Node Meta) (index j : ℕ)
      → index ≢ j
      → get_elem? (set nodes index none) j ≡ get_elem? nodes j
  set-none nodes index j differ = get_elem?-set_ne nodes index j none differ

  leaf-Built :
      (fuel index : ℕ) (meta : Meta) (value : Node) (nodes : Nodes Node Meta)
      → get_elem? nodes index ≡ some (some (leaf_node meta value))
      → Built (leaf meta value) index nodes (build (suc fuel) index nodes)
  unfolding size
  leaf-Built fuel index meta value nodes h =
      subst (Built (leaf meta value) index nodes) (sym (build-leaf fuel index meta value nodes h))
        (record {
          found = refl;
          before = λ j low. set-none nodes index j (λ same. absurd (omega arith));
          behind = λ j high. set-none nodes index j (λ same. absurd (omega arith));
        })

  branch-Built :
      (fuel index : ℕ) (meta : Meta) (children : Trees Node Meta) (nodes : Nodes Node Meta)
      → get_elem? nodes index ≡ some (some (branch_node meta (starts (suc index) children)))
      → AllBuilt children
          (suc index)
          (set nodes index none)
          (build_children (build fuel) (starts (suc index) children) (set nodes index none))
      → Built (branch meta children) index nodes (build (suc fuel) index nodes)
  unfolding size
  branch-Built fuel index meta children nodes h all =
      subst (Built (branch meta children) index nodes)
        (sym (build-branch fuel index meta _ nodes h))
        (record {
          found = ap (λ ts. some (branch meta ts)) all.found;
          before = λ j low.
              all.before j (omega arith) ∙ set-none nodes index j (λ same. absurd (omega arith));
          behind = λ j high.
              all.behind j (omega arith) ∙ set-none nodes index j (λ same. absurd (omega arith));
        })

  mutual
    unfolding size build_children starts cons_some

    build-Built :
        (tree : Tree Node Meta) (fuel index : ℕ) (nodes : Nodes Node Meta)
        → size tree ≤ fuel
        → At nodes index tree
        → Built tree index nodes (build fuel index nodes)
    build-Built (leaf meta value) zero index nodes enough h = absurd (omega arith)
    build-Built (leaf meta value) (suc fuel) _ nodes enough (leaf_at index _ _ h) =
        leaf-Built fuel index meta value nodes h
    build-Built (branch meta children) zero index nodes enough h = absurd (omega arith)
    build-Built (branch meta children) (suc fuel) _ nodes enough (branch_at index _ _ h all) =
        branch-Built fuel index meta children nodes h (
          build_children-AllBuilt children fuel (suc index) (set nodes index none) (omega arith) (
            AllAt-frame nodes (set nodes index none)
              (λ j low high. set-none nodes index j (λ same. absurd (omega arith))) all))

    build_children-AllBuilt :
        (trees : Trees Node Meta) (fuel index : ℕ) (nodes : Nodes Node Meta)
        → sizes trees ≤ fuel
        → AllAt nodes index trees
        → AllBuilt trees index nodes (build_children (build fuel) (starts index trees) nodes)
    build_children-AllBuilt nil fuel index nodes enough h = record {
      found = refl;
      before = λ j low. refl;
      behind = λ j high. refl;
    }
    build_children-AllBuilt (cons child children) fuel _ nodes enough (cons_at index _ _ h all) =
        let one = build-Built child fuel index nodes (omega arith) h in
        let rest =
          build_children-AllBuilt children fuel (index + size child) (build fuel index nodes).1
            (omega arith)
            (AllAt-frame nodes (build fuel index nodes).1 (λ j low high. one.behind j low) all) in
        record {
          found = ap₂ cons_some one.found rest.found;
          before = λ j low. rest.before j (omega arith) ∙ one.before j low;
          behind = λ j high. rest.behind j (omega arith) ∙ one.behind j (omega arith);
        }

  pub to_tree-At :
      (default : Meta) (t : FlatTree Node Meta) (tree : Tree Node Meta)
      → size tree ≤ length t.nodes
      → At t.nodes 0 tree
      → to_tree default t ≡ tree
  unfolding to_tree
  to_tree-At default t tree enough stands =
      let built = build-Built tree (length t.nodes) 0 t.nodes enough stands in
      rw (built.found, to_tree) refl

  -- A tree that is made flat and nested again is the same tree, whatever the default meta.
  pub to_tree-from_tree :
      (default : Meta) (tree : Tree Node Meta) → to_tree default (from_tree tree) ≡ tree
  unfolding from_tree
  to_tree-from_tree default tree =
      let appended = append_tree_nodes-Appended tree [] in
      to_tree-At default (from_tree tree) tree (omega (arith, appended.long)) appended.stands
