-- ===== src/Tree/Tests.antt =====
-- Runs of the tree operations, and their theorems at a concrete tree.
use lusid.Base
use lusid.Base.{
  leb, if◌then◌else◌, Option, ℕ, suc, ◌≡◌, refl, none, some, List, [], ◌∷◌, ◌++◌, Result, ok, ◌>>=◌,
}
use lusid.Tree
use lusid.Tree.{Tree, branch, leaf, nil, cons}
use lusid.Tree.Flat.{
  FlatTree, branch_node, leaf_node, from_tree, append_tree_nodes, to_tree, build, build_children,
  cons_some, replace_tree, replace_tree_nodes, clear_nodes, clear_children, children_at,
  ensure_index, for_each,
}
use lusid.Tree.Flat.Build.{to_tree-from_tree}
use lusid.Tree.Flat.Transform.{map, map_loop, map_tree, map_tree_loop}
use lusid.Tree.Flat.Mapped.{map_slot, tell, map-slots, map-from_tree}
use lusid.Tree.Flat.Sweep.{
  map_option, map_option_loop, drop_empty, depth_first_search, search, push_children, is_there,
  is_empty_branch, any_there,
}
use lusid.Tree.Flat.Pruned.{prune}
use lusid.Tree.Flat.Rebuilt.{or_empty_branch}
use lusid.Tree.Flat.Kept.{map_option-prune}
use lusid.Tree.Flat.Stands.{Stands}
use lusid.Tree.Flat.Expanded.{expand, map_tree-Stands}

program : Unit {0}
unfolding from_tree append_tree_nodes to_tree build build_children cons_some replace_tree
    replace_tree_nodes clear_nodes clear_children children_at ensure_index for_each map map_loop
    map_tree map_tree_loop Tree.map map_slot tell expand
program = tt

abbrev sample : Tree ℕ ℕ
sample = branch 0 (cons (branch 1 (cons (leaf 2 20) nil)) (cons (leaf 3 30) nil))

abbrev flat_sample : FlatTree ℕ ℕ
flat_sample = record {
  nodes =
      some (branch_node 0 (1 ∷ 3 ∷ []))
      ∷ some (branch_node 1 (2 ∷ []))
      ∷ some (leaf_node 2 20)
      ∷ some (leaf_node 3 30)
      ∷ [];
}

from_tree-sample : from_tree sample ≡ flat_sample
unfolding program
from_tree-sample = refl

-- The first branch is replaced: its leaf is cleared, and a new one is appended.
replace_tree-sample : replace_tree flat_sample (some (branch 7 (cons (leaf 8 80) nil))) 1 ≡ record {
  nodes =
      some (branch_node 0 (1 ∷ 3 ∷ []))
      ∷ some (branch_node 7 (4 ∷ []))
      ∷ none
      ∷ some (leaf_node 3 30)
      ∷ some (leaf_node 8 80)
      ∷ [];
}
unfolding program
replace_tree-sample = refl

to_tree-from_tree_example : to_tree 9 (from_tree sample) ≡ sample
to_tree-from_tree_example = to_tree-from_tree 9 sample

-- A callback that logs what it hears.
abbrev log : ℕ → ℕ → List (ℕ × ℕ) → Result ℕ (List (ℕ × ℕ))
log index value s = ok (s ++ (index, value) ∷ [])

abbrev mapped_sample : FlatTree ℕ ℕ
mapped_sample = record {
  nodes =
      some (branch_node 0 (1 ∷ 3 ∷ []))
      ∷ some (branch_node 1 (2 ∷ []))
      ∷ some (leaf_node 2 21)
      ∷ some (leaf_node 3 31)
      ∷ [];
}

map-sample : map suc log (from_tree sample) [] ≡ ok (mapped_sample, (2, 21) ∷ (3, 31) ∷ [])
unfolding program
map-sample = refl

map-slots_example : map suc log flat_sample [] ≡ (
    tell suc log flat_sample.nodes 0 [] >>= λ s'.
    ok (record { nodes = Base.map (map_slot suc) flat_sample.nodes }, s'))
map-slots_example = map-slots suc log flat_sample []

map-from_tree_example : to_tree 9 mapped_sample ≡ Tree.map suc sample
map-from_tree_example = map-from_tree suc log 9 sample [] map-sample

-- A leaf becomes a branch of two.
abbrev twice : ℕ → ℕ → Tree ℕ ℕ
twice value meta = branch meta (cons (leaf meta value) (cons (leaf meta value) nil))

abbrev log_index : ℕ → Tree ℕ ℕ → List ℕ → Result ℕ (List ℕ)
log_index index tree s = ok (s ++ index ∷ [])

abbrev expanded_sample : FlatTree ℕ ℕ
expanded_sample = record {
  nodes =
      some (branch_node 0 (1 ∷ 3 ∷ []))
      ∷ some (branch_node 1 (2 ∷ []))
      ∷ some (branch_node 2 (4 ∷ 5 ∷ []))
      ∷ some (branch_node 3 (6 ∷ 7 ∷ []))
      ∷ some (leaf_node 2 20)
      ∷ some (leaf_node 2 20)
      ∷ some (leaf_node 3 30)
      ∷ some (leaf_node 3 30)
      ∷ [];
}

map_tree-sample : map_tree twice log_index (from_tree sample) [] ≡ ok (expanded_sample, 2 ∷ 3 ∷ [])
unfolding program
map_tree-sample = refl

map_tree-Stands_example : Stands expanded_sample.nodes 0 (expand twice sample)
map_tree-Stands_example = map_tree-Stands twice log_index sample [] map_tree-sample

-- Values up to 20 are dropped, and with them the branch above.
abbrev keep_large : ℕ → Option ℕ
keep_large value = if leb value 20 then none else some value

abbrev log_kept : ℕ → Option ℕ → List ℕ → Result ℕ (List ℕ)
log_kept index value s = ok (s ++ index ∷ [])

abbrev kept_sample : FlatTree ℕ ℕ
kept_sample = record {
  nodes = some (branch_node 0 (1 ∷ 3 ∷ [])) ∷ none ∷ none ∷ some (leaf_node 3 30) ∷ [];
}

map_option-sample :
    map_option keep_large log_kept (from_tree sample) [] ≡ ok (kept_sample, 2 ∷ 3 ∷ [])
unfolding program map_option map_option_loop drop_empty depth_first_search search push_children
    is_there is_empty_branch any_there
map_option-sample = refl

map_option-prune_example :
    to_tree 9 kept_sample ≡ or_empty_branch 9 (prune (Tree.map keep_large sample))
map_option-prune_example = map_option-prune keep_large log_kept 9 sample [] map_option-sample
