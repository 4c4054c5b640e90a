-- ===== src/Apply/Tests.antt =====
-- A machine with one package missing, and the pipeline's theorems there.
use lusid.Base.{
  ◌++◌, ◌≡◌, ◌≤◌, refl, Bool, true, false, Option, none, some, List, [], ◌∷◌, String, ok, string_eq,
}
use lusid.View
use lusid.View.{View}
use lusid.Tree.{branch, leaf, nil, cons}
use lusid.Causality.{compute_epochs, schedule}
use lusid.Causality.Collect
use lusid.Causality.Collect.{
  collect_recursive, lookup, or_default, push_index, push_active, add_leaf, name_leaf, enter_branch,
}
use lusid.Causality.DependencyGraph.{
  build_graph, add_leaves, add_requires, add_required_by, edges_from, edges_to, add_edge,
}
use lusid.Causality.Kahn.{sources, run_waves, relax_wave, relax, specs, push_epoch}
use lusid.Tree.Flat.{FlatTree, branch_node, leaf_node, to_tree, build, build_children, cons_some}
use mathlib.Core.List
use mathlib.Core.Option
use lusid.Causality.Meta
use lusid.Operation.{
  Operation, apt, merge, chain, merge_families, partition_by_type, partition_loop,
}
use lusid.Operation.Packages.{
  apt_install, apt_update, merge_apt, merge_apt_loop, merge_pacman, merge_pacman_loop, insert_all,
  insert,
}
use lusid.Plan.{PlanMeta}
use lusid.Plan.Scope.{plan_node_eq}
use lusid.ApplyStdio.AppView.{AppUpdate, AppView, start}
use lusid.ApplyStdio.Access.{run}
use lusid.ApplyStdio.Phases.{phase}
use lusid.Apply.{
  Machine, written, stdout, stderr, ran, apply, emitted_by, apply_operations, emit, run_epochs,
  run_operations, run_operation, drain,
}
use lusid.Apply.Completed.{completions, indices, apply_operations-completed}
use lusid.Apply.Accepted.{apply-accepted}

abbrev text : String → View
text s = View.render_text s

abbrev change_of : String → Bool → Option String
change_of name true = none
change_of name false = some name

-- The state of a resource is whether the package is there.
abbrev machine : Machine String String String String Bool String
machine = record {
  write = λ emitted update. written;
  plan = ok (branch Meta.default (cons (leaf Meta.default "curl") nil));
  validate_host_paths = λ name. ok tt;
  resources = λ name. leaf Meta.default name ∷ [];
  state = λ emitted name. ok false;
  change = change_of;
  operations = λ name.
      leaf Meta.default (apt apt_update) ∷ leaf Meta.default (apt (apt_install (name ∷ []))) ∷ [];
  perform = λ emitted operation. ran ((stdout, "reading") ∷ (stderr, "warning") ∷ []) none;
  resource_scope = λ index. "a";
  operation_scope = λ index. "b";
  redact = λ line. line;
  describe = λ e. e;
  epoch_error = λ e. "epochs";
  render_id = λ id. text "id";
  render_params = text;
  render_resource = text;
  render_state = λ there. text "state";
  render_change = text;
  render_operation = λ operation. text "operation";
}

apply-accepted_example :
    (view : AppView) × (run (emitted_by (apply machine)) start ≡ ok view) × (phase view ≤ 6)
apply-accepted_example = apply-accepted machine

-- An arena of two operations that do not wait for each other.
abbrev two : FlatTree (Option Operation) (PlanMeta String)
two = record {
  nodes =
      some (branch_node Meta.default (1 ∷ 2 ∷ []))
      ∷ some (leaf_node Meta.default (some (apt apt_update)))
      ∷ some (leaf_node Meta.default (some (apt (apt_install ("curl" ∷ [])))))
      ∷ [];
}

abbrev told : List AppUpdate
told = emitted_by (apply_operations machine two [])

program : Unit {0}
unfolding apply apply_operations emit run_epochs run_operations run_operation drain to_tree build
    build_children cons_some merge chain merge_families partition_by_type partition_loop merge_apt
    merge_apt_loop merge_pacman merge_pacman_loop insert_all insert compute_epochs schedule
    collect_recursive lookup or_default push_index push_active add_leaf name_leaf enter_branch
    build_graph add_leaves add_requires add_required_by edges_from edges_to add_edge sources
    run_waves relax_wave relax specs push_epoch Collect.insert string_eq List.filter_map Option.bind
program = tt

apply_operations-two : apply_operations machine two [] ≡ ok told
unfolding program
apply_operations-two = refl

completions-two : completions told ≡ (0, 0) ∷ (0, 1) ∷ []
unfolding program completions
completions-two = refl

apply_operations-completed_example :
    (epochs : List (List Operation)) × (compute_epochs (to_tree Meta.default two) ≡ ok epochs)
    × (completions told ≡ completions [] ++ indices 0 epochs)
apply_operations-completed_example = apply_operations-completed machine two [] apply_operations-two
