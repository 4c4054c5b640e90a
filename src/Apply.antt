-- ===== src/Apply.antt =====
-- lusid-apply/src/lib.rs: the pipeline from a plan to applied operations, as the stream of messages
-- that it emits.
pub mod Mirror
pub mod Shown
pub mod Expanding
pub mod Probing
pub mod Changing
pub mod Operating
pub mod Running
pub mod Parts
pub mod Accepted
pub mod Completed
mod Tests
use lusid.Base.{
  ℕ, suc, Bool, true, false, Option, some, none, List, [], ◌∷◌, ◌++◌, map, String, Result, ok, err,
  ◌>>=◌, if◌then◌else◌, Eq,
}
use lusid.View
use lusid.View.{View, ViewTree}
use lusid.Tree
use lusid.Tree.{Tree, Trees, branch, leaf, nil, cons}
use lusid.Tree.Flat.{FlatTree, Nodes, branch_node, leaf_node, from_tree, to_tree, leaves}
use lusid.Tree.Flat.Transform
use lusid.Causality.{compute_epochs}
use lusid.Causality.Collect.{CausalityTree, EpochError}
use lusid.Causality.Meta
use lusid.Operation.{Operation, merge}
use lusid.Plan.{PlanNodeId, PlanMeta, PlanTree, map_plan_subitems, render_plan_tree}
use lusid.ApplyStdio.AppView.{
  AppUpdate, OpIndex, resource_params, resources_start, resources_node, resources_complete,
  resource_states_start, resource_states_node_start, resource_states_node_complete,
  resource_states_complete, resource_changes_start, resource_changes_node,
  resource_changes_complete, operations_start, operations_node, operations_complete,
  operations_apply_start, operation_apply_stdout, operation_apply_stderr, operation_apply_complete,
}

-- What becomes of a message: it is written, or the write fails, or only the flush does.
pub data Write (E : Type 0) : Type 0 where
  written : Write E
  unwritten unflushed : E → Write E

pub data Stream : Type 0 where
  stdout stderr : Stream

-- What becomes of an operation: it does not start, or it prints lines on its two streams, in the
-- order in which they are read, and ends with an error or without.
pub data Performed (E : Type 0) : Type 0 where
  refused : E → Performed E
  ran : (lines : List (Stream × String)) → (error : Option E) → Performed E

-- What the pipeline calls. What the machine answers may depend on all that happened before, for
-- which the messages emitted so far stand.
pub record Machine (E PlanId Params Resource State Change : Type 0) : Type 0 where
  pub write : List AppUpdate → AppUpdate → Write E
  pub plan : Result E (PlanTree Params PlanId)
  pub validate_host_paths : Params → Result E (Unit {0})
  pub resources : Params → List (CausalityTree Resource String)
  pub state : List AppUpdate → Resource → Result E State
  pub change : Resource → State → Option Change
  pub operations : Change → List (CausalityTree Operation String)
  pub perform : List AppUpdate → Operation → Performed E
  -- The scopes that `create_id` makes for the leaf in a slot, in the two expansions.
  pub resource_scope : ℕ → String
  pub operation_scope : ℕ → String
  pub redact : String → String
  pub describe : E → String
  pub epoch_error : EpochError (PlanNodeId PlanId) → E
  pub render_id : PlanNodeId PlanId → View
  pub render_params : Params → View
  pub render_resource : Resource → View
  pub render_state : State → View
  pub render_change : Change → View
  pub render_operation : Operation → View

-- A leaf with the scope that is made for it.
unfoldable pub with_scopes {ℓ κ} :
    {Node : Type ℓ} {Meta : Type κ}
    → (ℕ → String)
    → ℕ
    → Nodes Node Meta
    → Nodes (Node × String) Meta
with_scopes scope index [] = []
with_scopes scope index (none ∷ nodes) = none ∷ with_scopes scope (suc index) nodes
with_scopes scope index (some (branch_node meta children) ∷ nodes) =
    some (branch_node meta children) ∷ with_scopes scope (suc index) nodes
with_scopes scope index (some (leaf_node meta value) ∷ nodes) =
    some (leaf_node meta (value, scope index)) ∷ with_scopes scope (suc index) nodes

-- `collect` into the children of a branch.
unfoldable pub collect {ℓ κ} :
    {Node : Type ℓ} {Meta : Type κ} → List (Tree Node Meta) → Trees Node Meta
collect [] = nil
collect (tree ∷ trees) = cons tree (collect trees)

-- `leaves().any(|node| node.is_some())`
unfoldable pub any_some {ℓ} : {A : Type ℓ} → List (Option A) → Bool
any_some [] = false
any_some (none ∷ nodes) = any_some nodes
any_some (some node ∷ nodes) = true

-- An error comes with what was emitted before it.
abbrev pub Outcome {ℓ} : Type 0 → Type ℓ → Type ℓ
Outcome E X = Result (E × List AppUpdate) X

-- `?` on a call that emits nothing.
abbrev pub lift {ℓ} : {E : Type 0} {X : Type ℓ} → Result E X → List AppUpdate → Outcome E X
lift (ok x) emitted = ok x
lift (err e) emitted = err (e, emitted)

-- All that was emitted, whether the pipeline failed or not.
abbrev pub emitted_by : {E : Type 0} → Outcome E (List AppUpdate) → List AppUpdate
emitted_by (ok emitted) = emitted
emitted_by (err (e, emitted)) = emitted

module _ {E PlanId Params Resource State Change : Type 0}
    (machine : Machine E PlanId Params Resource State Change) where
  unfoldable pub emit : AppUpdate → List AppUpdate → Outcome E (List AppUpdate)
  emit update emitted = elim (machine.write emitted update) [
    | written ↦ ok (emitted ++ update ∷ [])
    | unwritten e ↦ err (e, emitted)
    | unflushed e ↦ err (e, emitted ++ update ∷ [])
  ]

  -- `try_join_all` of the validations; of several errors the code returns any.
  unfoldable pub validate_all : List Params → Result E (Unit {0})
  validate_all [] = ok tt
  validate_all (params ∷ more) = machine.validate_host_paths params >>= λ _. validate_all more

  abbrev pub show_resources : PlanTree Resource PlanId → ViewTree
  show_resources tree = render_plan_tree machine.render_resource machine.render_id tree

  unfoldable pub plan_params : Outcome E (FlatTree Params (PlanMeta PlanId) × List AppUpdate)
  unfolding emit validate_all
  plan_params = lift machine.plan [] >>= λ tree.
      emit (resource_params (render_plan_tree machine.render_params machine.render_id tree)) []
      >>= λ emitted. lift (validate_all (leaves (from_tree tree).nodes)) emitted >>= λ _.
          ok (from_tree tree, emitted)

  -- The tree that the params in a leaf expand to.
  unfoldable pub expand_params : Params × String → PlanMeta PlanId → PlanTree Resource PlanId
  expand_params node meta =
      branch meta (collect (map_plan_subitems node.1 node.0 machine.resources))

  unfoldable pub expand_resources :
      FlatTree Params (PlanMeta PlanId)
      → List AppUpdate
      → Outcome E (FlatTree Resource (PlanMeta PlanId) × List AppUpdate)
  unfolding emit expand_params with_scopes
  expand_resources params emitted = emit resources_start emitted >>= λ started.
      Transform.map_tree expand_params
        (λ index tree. emit (resources_node index (show_resources tree)))
        (record { nodes = with_scopes machine.resource_scope 0 params.nodes }) started
      >>= λ (r : FlatTree Resource (PlanMeta PlanId) × List AppUpdate).
          emit resources_complete r.1 >>= λ s. ok (r.0, s)

  -- The probe of one resource.
  unfoldable pub probe : Resource → List AppUpdate → Outcome E ((Resource × State) × List AppUpdate)
  probe resource emitted =
      lift (machine.state emitted resource) emitted >>= λ state. ok ((resource, state), emitted)

  unfoldable pub find_states :
      FlatTree Resource (PlanMeta PlanId)
      → List AppUpdate
      → Outcome E (FlatTree (Resource × State) (PlanMeta PlanId) × List AppUpdate)
  unfolding emit probe
  find_states resources emitted = emit resource_states_start emitted >>= λ started.
      Transform.map_result_async probe (λ index. emit (resource_states_node_start index))
        (λ index r. emit (resource_states_node_complete index (machine.render_state r.1))) resources
        started
      >>= λ (r : FlatTree (Resource × State) (PlanMeta PlanId) × List AppUpdate).
          emit resource_states_complete r.1 >>= λ s. ok (r.0, s)

  -- `node.map(|n| n.render())`
  abbrev pub show_change : Option Change → Option View
  show_change none = none
  show_change (some change) = some (machine.render_change change)

  unfoldable pub find_changes :
      FlatTree (Resource × State) (PlanMeta PlanId)
      → List AppUpdate
      → Outcome E (FlatTree (Option Change) (PlanMeta PlanId) × List AppUpdate)
  unfolding emit any_some
  find_changes states emitted = emit resource_changes_start emitted >>= λ started.
      Transform.map (λ (r : Resource × State). machine.change r.0 r.1)
        (λ index change. emit (resource_changes_node index (show_change change))) states started
      >>= λ (r : FlatTree (Option Change) (PlanMeta PlanId) × List AppUpdate).
          emit (resource_changes_complete (any_some (leaves r.0.nodes))) r.1 >>= λ s. ok (r.0, s)

  -- The tree that the change in a leaf expands to.
  unfoldable pub expand_change :
      Option Change × String → PlanMeta PlanId → PlanTree (Option Operation) PlanId
  expand_change (none, scope) meta = leaf meta none
  expand_change (some change, scope) meta =
      branch meta
        (collect (map (Tree.map some) (map_plan_subitems scope change machine.operations)))

  abbrev pub show_operations : PlanTree (Option Operation) PlanId → ViewTree
  show_operations tree =
      render_plan_tree (View.render_option machine.render_operation) machine.render_id tree

  unfoldable pub expand_operations :
      FlatTree (Option Change) (PlanMeta PlanId)
      → List AppUpdate
      → Outcome E (FlatTree (Option Operation) (PlanMeta PlanId) × List AppUpdate)
  unfolding emit expand_change with_scopes
  expand_operations changes emitted = emit operations_start emitted >>= λ started.
      Transform.map_tree expand_change
        (λ index tree. emit (operations_node index (show_operations tree)))
        (record { nodes = with_scopes machine.operation_scope 0 changes.nodes }) started
      >>= λ (r : FlatTree (Option Operation) (PlanMeta PlanId) × List AppUpdate).
          emit operations_complete r.1 >>= λ s. ok (r.0, s)

  -- The two tasks that read an operation's streams, interleaved.
  unfoldable pub drain :
      OpIndex → List (Stream × String) → List AppUpdate → Outcome E (List AppUpdate)
  unfolding emit
  drain index [] emitted = ok emitted
  drain index ((stdout, line) ∷ lines) emitted =
      emit (operation_apply_stdout index (machine.redact line)) emitted >>= drain index lines
  drain index ((stderr, line) ∷ lines) emitted =
      emit (operation_apply_stderr index (machine.redact line)) emitted >>= drain index lines

  -- `try_join!` of the tasks: what went wrong first.
  abbrev pub join : Option E → Outcome E (List AppUpdate) → Outcome E (List AppUpdate)
  join error (err e) = err e
  join none (ok emitted) = ok emitted
  join (some e) (ok emitted) = err (e, emitted)

  abbrev pub complete : OpIndex → Outcome E (List AppUpdate) → Outcome E (List AppUpdate)
  complete index (ok emitted) = emit (operation_apply_complete index none) emitted
  complete index (err (e, emitted)) =
      emit (operation_apply_complete index (some (machine.describe e))) emitted >>= λ s. err (e, s)

  unfoldable pub run_operation : OpIndex → Operation → List AppUpdate → Outcome E (List AppUpdate)
  unfolding emit drain
  run_operation index operation emitted = elim (machine.perform emitted operation) [
    | refused e ↦ err (e, emitted)
    | ran lines error ↦ complete index (join error (drain index lines emitted))
  ]

  unfoldable pub run_operations :
      ℕ → ℕ → List Operation → List AppUpdate → Outcome E (List AppUpdate)
  unfolding run_operation
  run_operations e o [] emitted = ok emitted
  run_operations e o (operation ∷ operations) emitted =
      run_operation (e, o) operation emitted >>= run_operations e (suc o) operations

  unfoldable pub run_epochs :
      ℕ → List (List Operation) → List AppUpdate → Outcome E (List AppUpdate)
  unfolding run_operations
  run_epochs e [] emitted = ok emitted
  run_epochs e (operations ∷ epochs) emitted =
      run_operations e 0 (merge operations) emitted >>= run_epochs (suc e) epochs

  -- `map_err` into the pipeline's error.
  abbrev pub on_epochs :
      Result (EpochError (PlanNodeId PlanId)) (List (List Operation))
      → Result E (List (List Operation))
  on_epochs (ok epochs) = ok epochs
  on_epochs (err e) = err (machine.epoch_error e)

module _ {E PlanId Params Resource State Change : Type 0} ⦃same : Eq (PlanNodeId PlanId)⦄
    (machine : Machine E PlanId Params Resource State Change) where
  unfoldable pub apply_operations :
      FlatTree (Option Operation) (PlanMeta PlanId) → List AppUpdate → Outcome E (List AppUpdate)
  unfolding emit run_epochs
  apply_operations operations emitted =
      lift (on_epochs machine (compute_epochs (to_tree Meta.default operations))) emitted
      >>= λ epochs.
          emit machine (operations_apply_start (map (map machine.render_operation) epochs)) emitted
          >>= run_epochs machine 0 epochs

  -- `apply`, once the context, the store, the secrets and the params are there.
  unfoldable pub apply : Outcome E (List AppUpdate)
  unfolding plan_params expand_resources find_states find_changes expand_operations apply_operations
  apply = plan_params machine >>= λ (p : FlatTree Params (PlanMeta PlanId) × List AppUpdate).
      expand_resources machine p.0 p.1
      >>= λ (r : FlatTree Resource (PlanMeta PlanId) × List AppUpdate).
          find_states machine r.0 r.1
          >>= λ (t : FlatTree (Resource × State) (PlanMeta PlanId) × List AppUpdate).
              find_changes machine t.0 t.1
              >>= λ (c : FlatTree (Option Change) (PlanMeta PlanId) × List AppUpdate).
                  let rest =
                    expand_operations machine c.0 c.1
                    >>= λ (o : FlatTree (Option Operation) (PlanMeta PlanId) × List AppUpdate).
                        apply_operations o.0 o.1 in
                  if any_some (leaves c.0.nodes) then rest else ok c.1
