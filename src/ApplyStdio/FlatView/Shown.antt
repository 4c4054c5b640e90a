-- ===== src/ApplyStdio/FlatView/Shown.antt =====
-- `From<FlatViewTree> for Option<ViewTree>` on an arena that a tree stands in.
use mathlib.Core.Path.{ap₂}
use lusid.Base.{
  ℕ, zero, suc, ◌+◌, ◌<◌, ◌≤◌, ◌≡◌, ◌≢◌, refl, ◌∙◌, sym, ap, subst, Option, some, none, List, arith,
  get_elem?, set, get_elem?-set_ne,
}
use lusid.View.{View, ViewTree, ViewTrees, branch, leaf, no_trees, tree_and}
use lusid.ApplyStdio.FlatView.{
  complete, branch_node, leaf_node, Nodes, build, build_children, and_some, branch_unless_empty,
  render_node,
}
use lusid.ApplyStdio.FlatView.Layout.{
  size, sizes, starts, At, AllAt, leaf_at, branch_at, cons_at, AllAt-frame,
}

-- What is shown of a completed tree: every leaf as completed, and no branch without leaves.
unfoldable mutual
  pub shown : ViewTree → Option ViewTree
  shown (leaf view) = some (leaf (render_node (complete view)))
  shown (branch view children) = branch_unless_empty view (all_shown children)

  pub all_shown : ViewTrees → ViewTrees
  all_shown no_trees = no_trees
  all_shown (tree_and child children) = and_some (shown child) (all_shown children)

-- `build` has found the tree, and has taken no node from outside of its slots.
record Built (tree : ViewTree) (index : ℕ) (nodes : Nodes) (result : Option (ViewTree) × Nodes)
    : Type 0 where
  found : result.0 ≡ shown tree
  before : (j : ℕ) → j < index → get_elem? result.1 j ≡ get_elem? nodes j
  behind : (j : ℕ) → index + size tree ≤ j → get_elem? result.1 j ≡ get_elem? nodes j

record AllBuilt (trees : ViewTrees) (index : ℕ) (nodes : Nodes) (result : ViewTrees × Nodes)
    : Type 0 where
  found : result.0 ≡ all_shown trees
  before : (j : ℕ) → j < index → get_elem? result.1 j ≡ get_elem? nodes j
  behind : (j : ℕ) → index + sizes trees ≤ j → get_elem? result.1 j ≡ get_elem? nodes j

pub build-leaf :
    (fuel index : ℕ) (value : View) (nodes : Nodes)
    → get_elem? nodes index ≡ some (some (leaf_node (complete value)))
    → build (suc fuel) index nodes
      ≡ (some (leaf (render_node (complete value))), set nodes index none)
unfolding build
build-leaf fuel index value nodes h = rw (h, build) refl

pub build-branch :
    (fuel index : ℕ) (view : View) (children : List ℕ) (nodes : Nodes)
    → get_elem? nodes index ≡ some (some (branch_node view children))
    → build (suc fuel) index nodes ≡ (
      branch_unless_empty view (build_children (build fuel) children (set nodes index none)).0,
      (build_children (build fuel) children (set nodes index none)).1,
    )
unfolding build
build-branch fuel index view children nodes h = rw (h, build) refl

pub set-none :
    (nodes : Nodes) (index j : ℕ)
    → index ≢ j
    → get_elem? (set nodes index none) j ≡ get_elem? nodes j
set-none nodes index j differ = get_elem?-set_ne nodes index j none differ

leaf-Built :
    (fuel index : ℕ) (value : View) (nodes : Nodes)
    → get_elem? nodes index ≡ some (some (leaf_node (complete value)))
    → Built (leaf value) index nodes (build (suc fuel) index nodes)
unfolding size shown
leaf-Built fuel index value nodes h =
    subst (Built (leaf value) index nodes) (sym (build-leaf fuel index value nodes h)) (record {
      found = refl;
      before = λ j low. set-none nodes index j (λ same. absurd (omega arith));
      behind = λ j high. set-none nodes index j (λ same. absurd (omega arith));
    })

branch-Built :
    (fuel index : ℕ) (view : View) (children : ViewTrees) (nodes : Nodes)
    → get_elem? nodes index ≡ some (some (branch_node view (starts (suc index) children)))
    → AllBuilt children
        (suc index)
        (set nodes index none)
        (build_children (build fuel) (starts (suc index) children) (set nodes index none))
    → Built (branch view children) index nodes (build (suc fuel) index nodes)
unfolding size shown all_shown
branch-Built fuel index view children nodes h all =
    subst (Built (branch view children) index nodes) (sym (build-branch fuel index view _ nodes h))
      (record {
        found = ap (branch_unless_empty view) all.found;
        before = λ j low.
            all.before j (omega arith) ∙ set-none nodes index j (λ same. absurd (omega arith));
        behind = λ j high.
            all.behind j (omega arith) ∙ set-none nodes index j (λ same. absurd (omega arith));
      })

mutual
  unfolding size build_children starts shown all_shown

  build-Built :
      (tree : ViewTree) (fuel index : ℕ) (nodes : Nodes)
      → size tree ≤ fuel
      → At nodes index tree
      → Built tree index nodes (build fuel index nodes)
  build-Built (leaf value) zero index nodes enough h = absurd (omega arith)
  build-Built (leaf value) (suc fuel) _ nodes enough (leaf_at index _ h) =
      leaf-Built fuel index value nodes h
  build-Built (branch view children) zero index nodes enough h = absurd (omega arith)
  build-Built (branch view children) (suc fuel) _ nodes enough (branch_at index _ _ h all) =
      branch-Built fuel index view children nodes h (
        build_children-AllBuilt children fuel (suc index) (set nodes index none) (omega arith) (
          AllAt-frame nodes (set nodes index none)
            (λ j low high. set-none nodes index j (λ same. absurd (omega arith))) all))

  build_children-AllBuilt :
      (trees : ViewTrees) (fuel index : ℕ) (nodes : Nodes)
      → sizes trees ≤ fuel
      → AllAt nodes index trees
      → AllBuilt trees index nodes (build_children (build fuel) (starts index trees) nodes)
  build_children-AllBuilt no_trees fuel index nodes enough h = record {
    found = refl;
    before = λ j low. refl;
    behind = λ j high. refl;
  }
  build_children-AllBuilt (tree_and child children) fuel _ nodes enough (cons_at index _ _ h all) =
      let one = build-Built child fuel index nodes (omega arith) h in
      let rest =
        build_children-AllBuilt children fuel (index + size child) (build fuel index nodes).1
          (omega arith)
          (AllAt-frame nodes (build fuel index nodes).1 (λ j low high. one.behind j low) all) in
      record {
        found = ap₂ and_some one.found rest.found;
        before = λ j low. rest.before j (omega arith) ∙ one.before j low;
        behind = λ j high. rest.behind j (omega arith) ∙ one.behind j (omega arith);
      }
