-- ===== src/Apply/Operating.antt =====
-- The expansion of changes into operations: the view takes any tree of operations.
use lusid.Base.{ℕ, suc, ◌≤◌, refl, some, none, List, [], ◌∷◌, arith, set}
use lusid.Tree.Flat.{branch_node, leaf_node, Nodes, replace_tree_nodes}
use lusid.Tree.Flat.Transform.{map_tree_loop}
use lusid.Base.{Option}
use lusid.Operation.{Operation}
use lusid.Plan.{PlanMeta, PlanTree}
use lusid.ApplyStdio.AppView.{AppUpdate, OperationsData, operations_node, update, update_operations}
use lusid.ApplyStdio.FlatView.{FlatViewTree, replace_subtree_completed}
use lusid.ApplyStdio.Phases.{phase}
use lusid.Apply.{Machine, emit, show_operations}
use lusid.Apply.Shown.{at_operations, Shows, Ends, Ends-bind, emit-Shows}

module _ {E PlanId Params Resource State Change Node : Type 0}
    (machine : Machine E PlanId Params Resource State Change)
    (f : Node → PlanMeta PlanId → PlanTree (Option Operation) PlanId) (base : OperationsData) where
  abbrev pub Listed : Nodes (Option Operation) (PlanMeta PlanId) × List AppUpdate → Type 0
  Listed r = (t : FlatViewTree) × Shows r.1 (at_operations base t)

  operations_open : (t : FlatViewTree) → phase (at_operations base t) ≤ 6
  unfolding phase
  operations_open t = omega arith

  pub operations_loop :
      (rest : Nodes Node (PlanMeta PlanId)) (index : ℕ)
      (next : Nodes (Option Operation) (PlanMeta PlanId)) (emitted : List AppUpdate)
      (t : FlatViewTree)
      → Shows emitted (at_operations base t)
      → Ends Listed (
          map_tree_loop f
            (λ index tree. emit machine (operations_node index (show_operations machine tree)))
            rest
            index
            next
            emitted)
  unfolding map_tree_loop update update_operations
  operations_loop [] index next emitted t shows = (t, shows)
  operations_loop (none ∷ rest) index next emitted t shows =
      operations_loop rest (suc index) next emitted t shows
  operations_loop (some (branch_node meta children) ∷ rest) index next emitted t shows =
      operations_loop rest (suc index) (set next index (some (branch_node meta children))) emitted t
        shows
  operations_loop (some (leaf_node meta value) ∷ rest) index next emitted t shows =
      let drawn = show_operations machine (f value meta) in
      let t' = replace_subtree_completed t index drawn in
      Ends-bind (λ es. Shows es (at_operations base t')) Listed
        (emit machine (operations_node index drawn) emitted) _
        (emit-Shows machine (operations_node index drawn) shows refl (operations_open t'))
        (λ es shows'.
          operations_loop rest (suc index) (replace_tree_nodes (f value meta) index next) es t'
            shows')
