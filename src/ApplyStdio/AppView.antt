-- ===== src/ApplyStdio/AppView.antt =====
-- apply-stdio/src/lib.rs, second half: the messages of the pipeline, and the state machine that
-- folds them into what the terminal shows.
use lusid.Base.{
  ℕ, Bool, true, false, Option, some, none, List, map, get_elem?, set, String, Result, ok, err,
  ◌>>=◌,
}
use Prim.Native.String.{◌++◌ as ◌<>◌}
use lusid.View.{View, ViewTree}
use lusid.ApplyStdio.FlatView.{
  FlatViewTree, FlatViewTreeError, complete, from_view_tree_completed, replace_subtree_completed,
  set_leaf_started, set_leaf_view, set_node_none, template,
}

-- The index of an operation: its epoch, and its place in the epoch.
abbrev pub OpIndex : Type 0
OpIndex = ℕ × ℕ

pub data AppUpdate : Type 0 where
  resource_params : ViewTree → AppUpdate
  resources_start : AppUpdate
  resources_node : ℕ → ViewTree → AppUpdate
  resources_complete : AppUpdate
  resource_states_start : AppUpdate
  resource_states_node_start : ℕ → AppUpdate
  resource_states_node_complete : ℕ → View → AppUpdate
  resource_states_complete : AppUpdate
  resource_changes_start : AppUpdate
  resource_changes_node : ℕ → Option View → AppUpdate
  resource_changes_complete : (has_changes : Bool) → AppUpdate
  operations_start : AppUpdate
  operations_node : ℕ → ViewTree → AppUpdate
  operations_complete : AppUpdate
  operations_apply_start : List (List View) → AppUpdate
  operation_apply_start : OpIndex → AppUpdate
  operation_apply_stdout : OpIndex → String → AppUpdate
  operation_apply_stderr : OpIndex → String → AppUpdate
  operation_apply_complete : OpIndex → (error : Option String) → AppUpdate
  operations_apply_complete : AppUpdate

pub record OperationView : Type 0 where
  pub label : View
  pub stdout : String
  pub stderr : String
  pub is_complete : Bool
  pub error : Option String

-- `OperationView::new`
unfoldable pub new_operation : View → OperationView
new_operation label = record {
  label = label;
  stdout = "";
  stderr = "";
  is_complete = false;
  error = none;
}

abbrev pub Epochs : Type 0
Epochs = List (List OperationView)

-- The trees that the phases have in common, each phase one more. The source repeats the fields in
-- every variant.
pub record ResourcesData : Type 0 where
  pub resource_params : FlatViewTree
  pub resources : FlatViewTree

pub record StatesData : Type 0 where
  pub resource_params : FlatViewTree
  pub resources : FlatViewTree
  pub resource_states : FlatViewTree

pub record ChangesData : Type 0 where
  pub resource_params : FlatViewTree
  pub resources : FlatViewTree
  pub resource_states : FlatViewTree
  pub resource_changes : FlatViewTree
  pub has_changes : Option Bool

pub record OperationsData : Type 0 where
  pub resource_params : FlatViewTree
  pub resources : FlatViewTree
  pub resource_states : FlatViewTree
  pub resource_changes : FlatViewTree
  pub has_changes : Option Bool
  pub operations_tree : FlatViewTree

pub record ApplyData : Type 0 where
  pub resource_params : FlatViewTree
  pub resources : FlatViewTree
  pub resource_states : FlatViewTree
  pub resource_changes : FlatViewTree
  pub has_changes : Option Bool
  pub operations_tree : FlatViewTree
  pub operations_epochs : Epochs

pub data AppView : Type 0 where
  start : AppView
  params : (resource_params : FlatViewTree) → AppView
  resources : ResourcesData → AppView
  resource_states : StatesData → AppView
  resource_changes : ChangesData → AppView
  operations : OperationsData → AppView
  operations_apply : ApplyData → AppView
  done : ApplyData → AppView

-- The source formats the state and the update into text; here they are kept as they are.
pub data AppViewError : Type 0 where
  invalid_transition : (from : AppView) (update : AppUpdate) → AppViewError
  flat_tree : FlatViewTreeError → AppViewError
  operation_index_out_of_bounds : ℕ → ℕ → AppViewError

-- `?` on a tree operation: its error is wrapped.
abbrev pub on_tree :
    Result FlatViewTreeError FlatViewTree → (FlatViewTree → AppView) → Result AppViewError AppView
on_tree (ok t) k = ok (k t)
on_tree (err e) k = err (flat_tree e)

unfoldable pub update_resources : ResourcesData → AppUpdate → Result AppViewError AppView
update_resources d (resources_node index tree) =
    ok (resources (record d { resources = replace_subtree_completed d.resources index tree }))
update_resources d resources_complete = ok (resources d)
update_resources d resource_states_start = ok (
    resource_states (record {
      resource_params = d.resource_params;
      resources = d.resources;
      resource_states = template d.resources;
    }))
update_resources d update = err (invalid_transition (resources d) update)

unfoldable pub update_resource_states : StatesData → AppUpdate → Result AppViewError AppView
update_resource_states d (resource_states_node_start index) =
    on_tree (set_leaf_started d.resource_states index)
      (λ t. resource_states (record d { resource_states = t }))
update_resource_states d (resource_states_node_complete index node) =
    on_tree (set_leaf_view d.resource_states index (complete node))
      (λ t. resource_states (record d { resource_states = t }))
update_resource_states d resource_states_complete = ok (resource_states d)
update_resource_states d resource_changes_start = ok (
    resource_changes (record {
      resource_params = d.resource_params;
      resources = d.resources;
      resource_states = d.resource_states;
      resource_changes = template d.resource_states;
      has_changes = none;
    }))
update_resource_states d update = err (invalid_transition (resource_states d) update)

unfoldable pub update_resource_changes : ChangesData → AppUpdate → Result AppViewError AppView
update_resource_changes d (resource_changes_node index (some view)) =
    on_tree (set_leaf_view d.resource_changes index (complete view))
      (λ t. resource_changes (record d { resource_changes = t }))
update_resource_changes d (resource_changes_node index none) =
    ok (resource_changes (record d { resource_changes = set_node_none d.resource_changes index }))
update_resource_changes d (resource_changes_complete has_changes) =
    ok (resource_changes (record d { has_changes = some has_changes }))
update_resource_changes d operations_start = ok (
    operations (record {
      resource_params = d.resource_params;
      resources = d.resources;
      resource_states = d.resource_states;
      resource_changes = d.resource_changes;
      has_changes = d.has_changes;
      operations_tree = template d.resource_changes;
    }))
update_resource_changes d update = err (invalid_transition (resource_changes d) update)

unfoldable pub update_operations : OperationsData → AppUpdate → Result AppViewError AppView
unfolding new_operation
update_operations d (operations_node index tree) = ok (
    operations
      (record d { operations_tree = replace_subtree_completed d.operations_tree index tree }))
update_operations d operations_complete = ok (operations d)
update_operations d (operations_apply_start epochs) = ok (
    operations_apply (record {
      resource_params = d.resource_params;
      resources = d.resources;
      resource_states = d.resource_states;
      resource_changes = d.resource_changes;
      has_changes = d.has_changes;
      operations_tree = d.operations_tree;
      operations_epochs = map (map new_operation) epochs;
    }))
update_operations d update = err (invalid_transition (operations d) update)

-- `get_mut(e)?.get_mut(o)?` and a write through the reference.
unfoldable pub with_operation :
    Epochs → OpIndex → (OperationView → OperationView) → Result AppViewError Epochs
with_operation epochs (e, o) write = elim (get_elem? epochs e) [
  | none ↦ err (operation_index_out_of_bounds e o)
  | some epoch ↦ elim (get_elem? epoch o) [
    | none ↦ err (operation_index_out_of_bounds e o)
    | some op ↦ ok (set epochs e (set epoch o (write op)))
  ]
]

-- What the four messages about one operation write.
unfoldable pub begin : OperationView → OperationView
begin op = record op { stdout = ""; stderr = ""; is_complete = false }

unfoldable pub push_stdout : String → OperationView → OperationView
push_stdout text op = record op { stdout = (op.stdout <> text) <> "\n" }

-- The line break goes to `stdout`, as in the source.
unfoldable pub push_stderr : String → OperationView → OperationView
push_stderr text op = record op { stdout = op.stdout <> "\n"; stderr = op.stderr <> text }

unfoldable pub finish : Option String → OperationView → OperationView
finish error op = record op { is_complete = true; error = error }

abbrev pub on_operation :
    ApplyData → OpIndex → (OperationView → OperationView) → Result AppViewError AppView
on_operation d index write = with_operation d.operations_epochs index write >>= λ epochs.
    ok (operations_apply (record d { operations_epochs = epochs }))

unfoldable pub update_operations_apply : ApplyData → AppUpdate → Result AppViewError AppView
update_operations_apply d (operation_apply_start index) = on_operation d index begin
update_operations_apply d (operation_apply_stdout index text) =
    on_operation d index (push_stdout text)
update_operations_apply d (operation_apply_stderr index text) =
    on_operation d index (push_stderr text)
update_operations_apply d (operation_apply_complete index error) =
    on_operation d index (finish error)
update_operations_apply d operations_apply_complete = ok (done d)
update_operations_apply d update = err (invalid_transition (operations_apply d) update)

-- `AppView::update`
unfoldable pub update : AppView → AppUpdate → Result AppViewError AppView
update start (resource_params tree) = ok (params (from_view_tree_completed tree))
update (params tree) resources_start =
    ok (resources (record { resource_params = tree; resources = template tree }))
update (resources d) u = update_resources d u
update (resource_states d) u = update_resource_states d u
update (resource_changes d) u = update_resource_changes d u
update (operations d) u = update_operations d u
update (operations_apply d) u = update_operations_apply d u
update view u = err (invalid_transition view u)
