-- ===== src/Apply/Accepted.antt =====
-- The whole pipeline: whatever the machine does, the view takes every message of the pipeline.
use mathlib.Core.Path.{ap₂}
use lusid.Base.{
  ℕ, ◌≤◌, ◌≡◌, refl, ◌∙◌, Option, List, [], ◌∷◌, map, arith, length, length-map, ok, err, ◌>>=◌,
  Bool, true, false, Eq, if◌then◌else◌,
}
use lusid.Tree.Flat.{FlatTree, leaves, to_tree}
use lusid.Causality.{compute_epochs}
use lusid.Causality.Meta
use lusid.Operation.{Operation}
use lusid.Plan.{PlanNodeId, PlanMeta}
use lusid.ApplyStdio.AppView.{
  AppUpdate, AppView, start, operations_apply, operations_apply_start, ApplyData, update,
  update_operations, new_operation,
}
use lusid.ApplyStdio.Access.{run}
use lusid.ApplyStdio.Phases.{phase}
use lusid.Apply.{
  Machine, Outcome, emit, lift, plan_params, expand_resources, find_states, find_changes,
  expand_operations, apply_operations, on_epochs, run_epochs, apply, emitted_by, any_some,
}
use lusid.Apply.Shown.{at_changes, Shows, Ends, Ends-bind, Ends-lift, emit-Shows}
use lusid.Apply.Running.{AtApply, Always, run_epochs-AtApply, sizes}
use lusid.Apply.Parts.{
  Planned, HasResources, HasStates, HasChanges, HasOperations, plan_params-Planned,
  expand_resources-HasResources, find_states-HasStates, find_changes-HasChanges,
  expand_operations-HasOperations,
}

module _ {E PlanId Params Resource State Change : Type 0}
    (machine : Machine E PlanId Params Resource State Change) where
  -- At the end, and wherever the pipeline stops, the messages fold into a view.
  abbrev Ended : List AppUpdate → Type 0
  Ended emitted = (view : AppView) × Shows emitted view

  announced :
      (epochs : List (List Operation))
      → sizes (map (map new_operation) (map (map machine.render_operation) epochs))
        ≡ map length epochs
  announced [] = refl
  announced (epoch ∷ epochs) =
      ap₂ (λ (n : ℕ) (ns : List ℕ). n ∷ ns)
        (length-map new_operation (map machine.render_operation epoch)
          ∙ length-map machine.render_operation epoch)
        (announced epochs)

  ended :
      (counts : List ℕ) (m : Outcome E (List AppUpdate)) → Always (AtApply counts) m → Ends Ended m
  ended counts (ok emitted) at = (operations_apply at.view, at.shows)
  ended counts (err (e, emitted)) at = (operations_apply at.view, at.shows)

  module _ ⦃same : Eq (PlanNodeId PlanId)⦄ where
    apply_operations-Ended :
        (o : FlatTree (Option Operation) (PlanMeta PlanId)) (emitted : List AppUpdate)
        → (HasOperations machine) (o, emitted)
        → Ends Ended (apply_operations machine o emitted)
    unfolding apply_operations update update_operations phase
    apply_operations-Ended o emitted (base, t, shows) =
        let found = on_epochs machine (compute_epochs (to_tree Meta.default o)) in
        Ends-bind (λ (epochs : List (List Operation)). Unit {0}) Ended (lift found emitted) _
          (Ends-lift (λ (epochs : List (List Operation)). Unit {0}) found shows (λ epochs e. tt))
          (λ epochs _.
            let labels = map (map machine.render_operation) epochs in
            let d : ApplyData = record {
              resource_params = base.resource_params;
              resources = base.resources;
              resource_states = base.resource_states;
              resource_changes = base.resource_changes;
              has_changes = base.has_changes;
              operations_tree = t;
              operations_epochs = map (map new_operation) labels;
            } in
            Ends-bind (λ es. Shows es (operations_apply d)) Ended
              (emit machine (operations_apply_start labels) emitted) (run_epochs machine 0 epochs)
              (emit-Shows machine (operations_apply_start labels) shows refl (omega arith))
              (λ es shows1. ended (map length epochs) (run_epochs machine 0 epochs es) (
                run_epochs-AtApply machine [] epochs es
                  (record { view = d; shows = shows1; sized = announced epochs }))))

    go_on :
        (c : FlatTree (Option Change) (PlanMeta PlanId) × List AppUpdate)
        → (HasChanges machine) c
        → (has : Bool)
        → Ends Ended (
            let rest =
              expand_operations machine c.0 c.1
              >>= λ (o : FlatTree (Option Operation) (PlanMeta PlanId) × List AppUpdate).
                  apply_operations machine o.0 o.1 in
            if has then rest else ok c.1)
    go_on c (base, views, shows) false = (at_changes base views, shows)
    go_on c has_changes true =
        Ends-bind (HasOperations machine) Ended (expand_operations machine c.0 c.1) _
          ((expand_operations-HasOperations machine) c.0 c.1 has_changes)
          (λ o has_operations. apply_operations-Ended o.0 o.1 has_operations)

    apply-Ended : Ends Ended (apply machine)
    unfolding apply
    apply-Ended =
        Ends-bind (Planned machine) Ended (plan_params machine) _ (plan_params-Planned machine)
          (λ p planned.
            Ends-bind (HasResources machine) Ended (expand_resources machine p.0 p.1) _
              ((expand_resources-HasResources machine) p.0 p.1 planned)
              (λ r has_resources.
                Ends-bind (HasStates machine) Ended (find_states machine r.0 r.1) _
                  ((find_states-HasStates machine) r.0 r.1 has_resources)
                  (λ t has_states.
                    Ends-bind (HasChanges machine) Ended (find_changes machine t.0 t.1) _
                      ((find_changes-HasChanges machine) t.0 t.1 has_states)
                      (λ c has_changes. go_on c has_changes (any_some (leaves c.0.nodes))))))

    emitted-Ended : (m : Outcome E (List AppUpdate)) → Ends Ended m → Ended (emitted_by m)
    emitted-Ended (ok emitted) h = h
    emitted-Ended (err (e, emitted)) h = h

    -- Whatever the machine answers, and wherever the pipeline fails, `AppView` accepts every
    -- message that `apply` has emitted, in its order; the view that they fold into is not `Done`.
    pub apply-accepted :
        (view : AppView) × (run (emitted_by (apply machine)) start ≡ ok view) × (phase view ≤ 6)
    apply-accepted =
        let (view, shows) = emitted-Ended (apply machine) apply-Ended in
        (view, shows.folded, shows.open_still)
