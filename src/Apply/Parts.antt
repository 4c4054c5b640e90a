-- ===== src/Apply/Parts.antt =====
-- The parts of the pipeline before anything is run: what the terminal shows after each.
use lusid.Base.{
  ℕ, refl, sym, ap, subst, Option, some, none, List, [], append-nil, map, arith, length, replicate,
}
use lusid.View.{View}
use lusid.Tree.Flat.{FlatTree, Nodes, from_tree, leaves}
use lusid.Tree.Flat.Laid.{append_tree_nodes-laid}
use lusid.Tree.Flat.Transform
use lusid.Operation.{Operation}
use lusid.Plan.{PlanNodeId, PlanMeta, PlanTree, render_plan_tree}
use lusid.ApplyStdio.FlatView
use lusid.ApplyStdio.FlatView.{FlatViewTree, from_view_tree_completed, template, template_node}
use lusid.ApplyStdio.FlatView.Laid
use lusid.Tree.Flat.Laid.{laid}
use lusid.ApplyStdio.AppView.{
  AppUpdate, start, params, resource_params, resources_start, resources_node, resources_complete,
  resource_states_start, resource_states_complete, resource_changes_start,
  resource_changes_complete, operations_start, operations_complete, StatesData, ChangesData,
  OperationsData, update, update_resources, update_resource_states, update_resource_changes,
  update_operations,
}
use lusid.ApplyStdio.Access.{run}
use lusid.ApplyStdio.Phases.{phase}
use lusid.Apply.{
  show_resources, Machine, emit, lift, plan_params, validate_all, expand_resources, expand_params,
  with_scopes, find_states, find_changes, expand_operations, expand_change, any_some,
}
use lusid.Apply.Mirror.{Mirrors, Mirrors-template, with_scopes-Mirrors, laid-Mirrors}
use lusid.Apply.Shown.{
  at_resources, at_states, at_changes, at_operations, Shows, Ends, Ends-bind, Ends-lift, emit-Shows,
}
use lusid.Apply.Expanding.{Expanded, resources_loop}
use lusid.Apply.Probing.{Probed, states_loop}
use lusid.Apply.Changing.{Changed, changes_loop}
use lusid.Apply.Operating.{Listed, operations_loop}

nothing_emitted : Shows [] start
unfolding run phase
nothing_emitted = record { folded = refl; open_still = omega arith }

module _ {E PlanId Params Resource State Change : Type 0}
    (machine : Machine E PlanId Params Resource State Change) where
  -- What is known after each part.
  abbrev pub Planned : FlatTree Params (PlanMeta PlanId) × List AppUpdate → Type 0
  Planned r = (t : FlatViewTree) × Shows r.1 (params t) × Mirrors r.0.nodes t.nodes

  abbrev pub HasResources : FlatTree Resource (PlanMeta PlanId) × List AppUpdate → Type 0
  HasResources r =
      (p : FlatViewTree) × (views : FlatView.Nodes) × Shows r.1 (at_resources p views)
      × Mirrors r.0.nodes views

  abbrev pub HasStates : FlatTree (Resource × State) (PlanMeta PlanId) × List AppUpdate → Type 0
  HasStates r =
      (base : StatesData) × (views : FlatView.Nodes) × Shows r.1 (at_states base views)
      × Mirrors r.0.nodes views

  abbrev pub HasChanges : FlatTree (Option Change) (PlanMeta PlanId) × List AppUpdate → Type 0
  HasChanges r = (base : ChangesData) × (views : FlatView.Nodes) × Shows r.1 (at_changes base views)

  abbrev pub HasOperations : FlatTree (Option Operation) (PlanMeta PlanId) × List AppUpdate → Type 0
  HasOperations r = (base : OperationsData) × (t : FlatViewTree) × Shows r.1 (at_operations base t)

  from_tree-Mirrors :
      (render : Params → View) (render_id : PlanNodeId PlanId → View)
      (tree : PlanTree Params PlanId)
      → Mirrors
          (from_tree tree).nodes
          (from_view_tree_completed (render_plan_tree render render_id tree)).nodes
  unfolding from_tree from_view_tree_completed
  from_tree-Mirrors render render_id tree =
      subst
        (λ ns.
          Mirrors ns
            (FlatView.append_view_tree_nodes (render_plan_tree render render_id tree) []).1)
        (sym
          (ap (λ (r : ℕ × Nodes Params (PlanMeta PlanId)). r.1) (append_tree_nodes-laid tree [])))
        (subst (λ vs. Mirrors (laid 0 tree) vs)
          (sym (
            ap (λ (r : ℕ × FlatView.Nodes). r.1)
              (Laid.append_view_tree_nodes-laid (render_plan_tree render render_id tree) [])))
          (laid-Mirrors render render_id 0 tree))

  pub plan_params-Planned : Ends Planned (plan_params machine)
  unfolding plan_params update phase
  plan_params-Planned =
      Ends-bind (λ (tree : PlanTree Params PlanId). Unit {0}) Planned (lift machine.plan []) _
        (Ends-lift (λ (tree : PlanTree Params PlanId). Unit {0}) machine.plan nothing_emitted
          (λ tree e. tt))
        (λ tree _.
          let drawn = render_plan_tree machine.render_params machine.render_id tree in
          Ends-bind (λ es. Shows es (params (from_view_tree_completed drawn))) Planned
            (emit machine (resource_params drawn) []) _
            (emit-Shows machine (resource_params drawn) nothing_emitted refl (omega arith))
            (λ es shows.
              Ends-bind (λ (u : Unit {0}). Unit {0}) Planned
                (lift (validate_all machine (leaves (from_tree tree).nodes)) es) _
                (Ends-lift (λ (u : Unit {0}). Unit {0})
                  (validate_all machine (leaves (from_tree tree).nodes)) shows (λ u e. tt))
                (λ u _. (
                  from_view_tree_completed drawn,
                  shows,
                  from_tree-Mirrors machine.render_params machine.render_id tree,
                ))))

  -- The loop over the whole arena.
  expanded :
      (p : FlatTree Params (PlanMeta PlanId)) (t : FlatViewTree) (emitted : List AppUpdate)
      → Mirrors p.nodes t.nodes
      → Shows emitted (at_resources t (map template_node t.nodes))
      → Ends (Expanded machine (expand_params machine) t) (
          Transform.map_tree_loop
            (expand_params machine)
            (λ index tree. emit machine (resources_node index (show_resources machine tree)))
            (with_scopes machine.resource_scope 0 p.nodes)
            0
            (replicate (length (with_scopes machine.resource_scope 0 p.nodes)) none)
            emitted)
  expanded p t emitted mirrors shows =
      let nodes = with_scopes machine.resource_scope 0 p.nodes in
      subst
        (λ ns. Ends (Expanded machine (expand_params machine) t) (
          Transform.map_tree_loop (expand_params machine)
            (λ index tree. emit machine (resources_node index (show_resources machine tree))) nodes
            0 ns emitted))
        (append-nil (replicate (length nodes) none))
        (resources_loop machine (expand_params machine) t nodes (map template_node t.nodes) [] [] []
          [] emitted tt
          (with_scopes-Mirrors machine.resource_scope 0 p.nodes (map template_node t.nodes)
            (Mirrors-template p.nodes t.nodes mirrors))
          tt
          (subst (λ vs. Shows emitted (at_resources t vs))
            (sym (append-nil (map template_node t.nodes))) shows))

  pub expand_resources-HasResources :
      (p : FlatTree Params (PlanMeta PlanId)) (emitted : List AppUpdate)
      → Planned (p, emitted)
      → Ends HasResources (expand_resources machine p emitted)
  unfolding expand_resources Transform.map_tree update update_resources template phase
  expand_resources-HasResources p emitted (t, shows, mirrors) =
      let nodes = with_scopes machine.resource_scope 0 p.nodes in
      let views = map template_node t.nodes in
      Ends-bind (λ es. Shows es (at_resources t views)) HasResources
        (emit machine resources_start emitted) _
        (emit-Shows machine resources_start shows refl (omega arith))
        (λ es shows1.
          Ends-bind
            (λ (r : FlatTree Resource (PlanMeta PlanId) × List AppUpdate).
              (vs : FlatView.Nodes) × Shows r.1 (at_resources t vs) × Mirrors r.0.nodes vs)
            HasResources _ _
            (Ends-bind (Expanded machine (expand_params machine) t) _ _ _
              (expanded p t es mirrors shows1) (λ r h. h))
            (λ r (vs, shows2, mirrors2).
              Ends-bind (λ es'. Shows es' (at_resources t vs)) HasResources
                (emit machine resources_complete r.1) _
                (emit-Shows machine resources_complete shows2 refl (omega arith))
                (λ es' shows3. (t, vs, shows3, mirrors2))))

  pub find_states-HasStates :
      (r : FlatTree Resource (PlanMeta PlanId)) (emitted : List AppUpdate)
      → HasResources (r, emitted)
      → Ends HasStates (find_states machine r emitted)
  unfolding find_states Transform.map_result_async update update_resources update_resource_states
      template phase
  find_states-HasStates r emitted (p, views, shows, mirrors) =
      let base : StatesData = record {
        resource_params = p;
        resources = record { nodes = views };
        resource_states = record { nodes = map template_node views };
      } in
      Ends-bind (λ es. Shows es (at_states base (map template_node views))) HasStates
        (emit machine resource_states_start emitted) _
        (emit-Shows machine resource_states_start shows refl (omega arith))
        (λ es shows1.
          Ends-bind
            (λ (t : FlatTree (Resource × State) (PlanMeta PlanId) × List AppUpdate).
              (vs : FlatView.Nodes) × Shows t.1 (at_states base vs) × Mirrors t.0.nodes vs)
            HasStates _ _
            (Ends-bind (Probed machine base) _ _ _
              (states_loop machine base r.nodes (map template_node views) [] [] es tt
                (Mirrors-template r.nodes views mirrors) shows1)
              (λ t h. h))
            (λ t (vs, shows2, mirrors2).
              Ends-bind (λ es'. Shows es' (at_states base vs)) HasStates
                (emit machine resource_states_complete t.1) _
                (emit-Shows machine resource_states_complete shows2 refl (omega arith))
                (λ es' shows3. (base, vs, shows3, mirrors2))))

  pub find_changes-HasChanges :
      (t : FlatTree (Resource × State) (PlanMeta PlanId)) (emitted : List AppUpdate)
      → HasStates (t, emitted)
      → Ends HasChanges (find_changes machine t emitted)
  unfolding find_changes Transform.map update update_resource_states update_resource_changes
      template phase
  find_changes-HasChanges t emitted (old, views, shows, mirrors) =
      let base : ChangesData = record {
        resource_params = old.resource_params;
        resources = old.resources;
        resource_states = record { nodes = views };
        resource_changes = record { nodes = map template_node views };
        has_changes = none;
      } in
      Ends-bind (λ es. Shows es (at_changes base (map template_node views))) HasChanges
        (emit machine resource_changes_start emitted) _
        (emit-Shows machine resource_changes_start shows refl (omega arith))
        (λ es shows1.
          Ends-bind
            (λ (c : FlatTree (Option Change) (PlanMeta PlanId) × List AppUpdate).
              (vs : FlatView.Nodes) × Shows c.1 (at_changes base vs))
            HasChanges _ _
            (Ends-bind (Changed machine base) _ _ _
              (changes_loop machine base t.nodes (map template_node views) [] [] es refl
                (Mirrors-template t.nodes views mirrors) shows1)
              (λ c h. h))
            (λ c (vs, shows2).
              let has = any_some (leaves c.0.nodes) in
              Ends-bind (λ es'. Shows es' (at_changes (record base { has_changes = some has }) vs))
                HasChanges (emit machine (resource_changes_complete has) c.1) _
                (emit-Shows machine (resource_changes_complete has) shows2 refl (omega arith))
                (λ es' shows3. (record base { has_changes = some has }, vs, shows3))))

  pub expand_operations-HasOperations :
      (c : FlatTree (Option Change) (PlanMeta PlanId)) (emitted : List AppUpdate)
      → HasChanges (c, emitted)
      → Ends HasOperations (expand_operations machine c emitted)
  unfolding expand_operations Transform.map_tree update update_resource_changes update_operations
      phase
  expand_operations-HasOperations c emitted (old, views, shows) =
      let nodes = with_scopes machine.operation_scope 0 c.nodes in
      let first = template (record { nodes = views }) in
      let base : OperationsData = record {
        resource_params = old.resource_params;
        resources = old.resources;
        resource_states = old.resource_states;
        resource_changes = record { nodes = views };
        has_changes = old.has_changes;
        operations_tree = first;
      } in
      Ends-bind (λ es. Shows es (at_operations base first)) HasOperations
        (emit machine operations_start emitted) _
        (emit-Shows machine operations_start shows refl (omega arith))
        (λ es shows1.
          Ends-bind
            (λ (o : FlatTree (Option Operation) (PlanMeta PlanId) × List AppUpdate).
              (t : FlatViewTree) × Shows o.1 (at_operations base t))
            HasOperations _ _
            (Ends-bind (Listed machine (expand_change machine) base) _ _ _
              (operations_loop machine (expand_change machine) base nodes 0
                (replicate (length nodes) none) es first shows1)
              (λ o h. h))
            (λ o (t, shows2).
              Ends-bind (λ es'. Shows es' (at_operations base t)) HasOperations
                (emit machine operations_complete o.1) _
                (emit-Shows machine operations_complete shows2 refl (omega arith))
                (λ es' shows3. (base, t, shows3))))
