-- ===== src/ApplyStdio/Tests.antt =====
-- A stream of messages folded from the start, and the theorems at concrete data.
use Prim.Native.String.{◌++◌ as ◌<>◌}
use lusid.Base.{
  ℕ, ◌≡◌, refl, map, ◌+◌, String, true, false, Option, none, some, List, [], ◌∷◌, arith, ok, err,
}
use lusid.View
use lusid.View.{View, ViewTree, branch, leaf, no_trees, tree_and}
use lusid.ApplyStdio.FlatView.{
  FlatViewTree, complete, branch_node, leaf_node, append_view_tree_nodes, from_view_tree_completed,
  replace_subtree_completed, replace_view_tree_nodes, for_each, clear_nodes, children_at,
  ensure_index_exists, set_leaf_view, set_leaf_started, set_node_none, template, template_node,
}
use lusid.ApplyStdio.AppView.{
  AppUpdate, resource_params, resources_start, resources_node, resource_states_start,
  resource_states_node_start, resource_states_node_complete, resource_changes_start,
  resource_changes_node, resource_changes_complete, operations_start, operations_node,
  operations_apply_start, operation_apply_start, operation_apply_stdout, operation_apply_stderr,
  operation_apply_complete, operations_apply_complete, AppView, Epochs, invalid_transition, start,
  done, operations_apply, ApplyData, OperationView, update, update_resources,
  update_resource_states, update_resource_changes, update_operations, update_operations_apply,
  with_operation, new_operation, begin, push_stdout, push_stderr, finish,
}
use lusid.ApplyStdio.Access.{run, get_resource_states, get_operations_epochs}
use lusid.ApplyStdio.Phases.{
  phase, expected_phase, opens, openings, update-invalid, update-phase, run-phase,
}
use lusid.ApplyStdio.Frozen.{Keeps, update-Keeps}
use lusid.ApplyStdio.Streams.{operation_at, Written, prints, update-Written}
use lusid.ApplyStdio.Streams.Lines.{run-stdout, run-stderr, lines, joined, breaks}

program : Unit {0}
unfolding run update update_resources update_resource_states update_resource_changes
    update_operations update_operations_apply with_operation new_operation begin push_stdout
    push_stderr finish append_view_tree_nodes from_view_tree_completed replace_subtree_completed
    replace_view_tree_nodes for_each clear_nodes children_at ensure_index_exists set_leaf_view
    set_leaf_started set_node_none template template_node phase expected_phase opens
program = tt

abbrev text : String → View
unfolding View.Span.new
text s = View.span (View.Span.new s)

-- A plan of one package: one leaf under the root.
abbrev stream : List AppUpdate
stream =
    resource_params (branch (text "plan") (tree_and (leaf (text "apt")) no_trees))
    ∷ resources_start
    ∷ resources_node 1 (branch (text ".") (tree_and (leaf (text "curl")) no_trees))
    ∷ resource_states_start
    ∷ resource_states_node_start 2
    ∷ resource_states_node_complete 2 (text "missing")
    ∷ resource_changes_start
    ∷ resource_changes_node 2 (some (text "install"))
    ∷ resource_changes_complete true
    ∷ operations_start
    ∷ operations_node 2 (leaf (text "apt install"))
    ∷ operations_apply_start ((text "apt install" ∷ []) ∷ [])
    ∷ operation_apply_start (0, 0)
    ∷ operation_apply_stdout (0, 0) "ok"
    ∷ operation_apply_complete (0, 0) none
    ∷ operations_apply_complete
    ∷ []

abbrev run_of_stream :
    List AppUpdate → Option (ℕ × Option FlatViewTree × Option (List (List OperationView)))
run_of_stream updates = elim (run updates start) [
  | err e ↦ none
  | ok view ↦ some (phase view, get_resource_states view, get_operations_epochs view)
]

abbrev end_of_stream : Option (ℕ × Option FlatViewTree × Option (List (List OperationView)))
end_of_stream = some (
  7,
  some (record {
    nodes =
        some (branch_node (text "plan") (1 ∷ []))
        ∷ some (branch_node (text ".") (2 ∷ []))
        ∷ some (leaf_node (complete (text "missing")))
        ∷ [];
  }),
  some (
      (record {
        label = text "apt install";
        stdout = "ok\n";
        stderr = "";
        is_complete = true;
        error = none;
      }
        ∷ [])
      ∷ []),
)

run-stream : run_of_stream stream ≡ end_of_stream
unfolding program
run-stream = refl

abbrev op : OperationView
op = record { label = text "apt"; stdout = "a"; stderr = ""; is_complete = false; error = none }

abbrev no_nodes : FlatViewTree
no_nodes = record { nodes = [] }

abbrev apply_data : ApplyData
apply_data = record {
  resource_params = no_nodes;
  resources = no_nodes;
  resource_states = no_nodes;
  resource_changes = no_nodes;
  has_changes = none;
  operations_tree = no_nodes;
  operations_epochs = (op ∷ op ∷ []) ∷ [];
}

abbrev apply_view : AppView
apply_view = operations_apply apply_data

update-invalid_example :
    update apply_view operations_start ≡ err (invalid_transition apply_view operations_start)
unfolding phase expected_phase
update-invalid_example = update-invalid apply_view operations_start (omega arith)

at_done : update apply_view operations_apply_complete ≡ ok (done apply_data)
unfolding program
at_done = refl

update-phase_example :
    (phase apply_view ≡ expected_phase operations_apply_complete)
    × (phase (done apply_data) ≡ phase apply_view + opens operations_apply_complete)
update-phase_example = update-phase apply_view operations_apply_complete at_done

update-Keeps_example : Keeps apply_view (done apply_data)
update-Keeps_example = update-Keeps apply_view operations_apply_complete (done apply_data) at_done

run_done : run (operations_apply_complete ∷ []) apply_view ≡ ok (done apply_data)
unfolding program
run_done = refl

run-phase_example :
    phase (done apply_data) ≡ phase apply_view + openings (operations_apply_complete ∷ [])
run-phase_example = run-phase (operations_apply_complete ∷ []) apply_view run_done

update-Written_example :
    (epochs : Epochs) × (update apply_view (operation_apply_stdout (0, 1) "b")
      ≡ ok (operations_apply (record apply_data { operations_epochs = epochs })))
    × Written apply_data.operations_epochs epochs (0, 1) (push_stdout "b" op)
update-Written_example =
    update-Written apply_data (operation_apply_stdout (0, 1) "b") (0, 1) (push_stdout "b") op
      (prints (0, 1) "b") refl

run-stdout_example :
    (epochs : Epochs) × (run (map (operation_apply_stdout (0, 0)) ("b" ∷ "c" ∷ [])) apply_view
      ≡ ok (operations_apply (record apply_data { operations_epochs = epochs })))
    × (operation_at epochs (0, 0)
        ≡ some (record op { stdout = op.stdout <> lines ("b" ∷ "c" ∷ []) }))
run-stdout_example = run-stdout ("b" ∷ "c" ∷ []) apply_data (0, 0) op refl

run-stderr_example :
    (epochs : Epochs) × (run (map (operation_apply_stderr (0, 0)) ("b" ∷ "c" ∷ [])) apply_view
      ≡ ok (operations_apply (record apply_data { operations_epochs = epochs })))
    × (operation_at epochs (0, 0)
        ≡ some (record op {
          stdout = op.stdout <> breaks ("b" ∷ "c" ∷ []);
          stderr = op.stderr <> joined ("b" ∷ "c" ∷ []);
        }))
run-stderr_example = run-stderr ("b" ∷ "c" ∷ []) apply_data (0, 0) op refl

-- A leaf, and a branch that has no leaf in it.
abbrev uneven : ViewTree
uneven =
    branch (text ".")
      (tree_and (leaf (text "curl")) (tree_and (branch (text "group") no_trees) no_trees))
