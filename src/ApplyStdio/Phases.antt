-- ===== src/ApplyStdio/Phases.antt =====
-- `AppView::update` as a state machine: which messages a phase takes, where they lead, and what
-- they leave as it was.
use lusid.Base.{ℕ, ◌+◌, ◌≡◌, ◌≢◌, refl, List, [], ◌∷◌, arith, ok, err, >>=-eq-ok, ok-injective, ◌≤◌}
use lusid.ApplyStdio.AppView.{
  AppUpdate, resource_params, resources_start, resources_node, resources_complete,
  resource_states_start, resource_states_node_start, resource_states_node_complete,
  resource_states_complete, resource_changes_start, resource_changes_node,
  resource_changes_complete, operations_start, operations_node, operations_complete,
  operations_apply_start, operation_apply_start, operation_apply_stdout, operation_apply_stderr,
  operation_apply_complete, operations_apply_complete, AppView, invalid_transition, start, params,
  resources, resource_states, resource_changes, operations, operations_apply, done, update,
  update_resources, update_resource_states, update_resource_changes, update_operations,
  update_operations_apply,
}
use lusid.ApplyStdio.Access.{run}

-- The phases in their order.
unfoldable pub phase : AppView → ℕ
phase start = 0
phase (params tree) = 1
phase (resources d) = 2
phase (resource_states d) = 3
phase (resource_changes d) = 4
phase (operations d) = 5
phase (operations_apply d) = 6
phase (done d) = 7

-- The phase that a message belongs to.
unfoldable pub expected_phase : AppUpdate → ℕ
expected_phase (resource_params tree) = 0
expected_phase resources_start = 1
expected_phase (resources_node index tree) = 2
expected_phase resources_complete = 2
expected_phase resource_states_start = 2
expected_phase (resource_states_node_start index) = 3
expected_phase (resource_states_node_complete index view) = 3
expected_phase resource_states_complete = 3
expected_phase resource_changes_start = 3
expected_phase (resource_changes_node index view) = 4
expected_phase (resource_changes_complete has_changes) = 4
expected_phase operations_start = 4
expected_phase (operations_node index tree) = 5
expected_phase operations_complete = 5
expected_phase (operations_apply_start epochs) = 5
expected_phase (operation_apply_start index) = 6
expected_phase (operation_apply_stdout index text) = 6
expected_phase (operation_apply_stderr index text) = 6
expected_phase (operation_apply_complete index error) = 6
expected_phase operations_apply_complete = 6

-- 1 for a message that opens the next phase.
unfoldable pub opens : AppUpdate → ℕ
opens (resource_params tree) = 1
opens resources_start = 1
opens resource_states_start = 1
opens resource_changes_start = 1
opens operations_start = 1
opens (operations_apply_start epochs) = 1
opens operations_apply_complete = 1
opens _ = 0

-- A message that is not of the phase that the view is in is refused as an invalid transition, with
-- the view and the message.
pub update-invalid :
    (view : AppView) (u : AppUpdate)
    → phase view ≢ expected_phase u
    → update view u ≡ err (invalid_transition view u)
unfolding update phase expected_phase update_resources update_resource_states
    update_resource_changes update_operations update_operations_apply
update-invalid start (resource_params tree) h = absurd (h refl)
update-invalid _ _ h = ground arith

-- If a message is accepted, then it is of the phase that the view is in, and the next view is in
-- the next phase if the message opens one and in the same phase if not.
pub update-phase :
    (view : AppView) (u : AppUpdate) {view' : AppView}
    → update view u ≡ ok view'
    → (phase view ≡ expected_phase u) × (phase view' ≡ phase view + opens u)
unfolding update phase expected_phase opens update_resources update_resource_states
    update_resource_changes update_operations update_operations_apply
update-phase start (resource_params tree) h = ground arith
update-phase _ _ h = ground arith

-- A message opens one phase at most.
pub opens-le : (u : AppUpdate) → opens u ≤ 1
unfolding opens
opens-le (resource_params tree) = omega arith
opens-le _ = omega arith

-- How many messages of a stream open a phase.
abbrev pub openings : List AppUpdate → ℕ
openings [] = 0
openings (u ∷ updates) = opens u + openings updates

-- If every message of a stream is accepted, then the phase at the end is the phase at the start
-- and one more for each message that opens a phase.
pub run-phase :
    (updates : List AppUpdate) (view : AppView) {view' : AppView}
    → run updates view ≡ ok view'
    → phase view' ≡ phase view + openings updates
unfolding run
run-phase [] view h = rw (← ok-injective h) (omega arith)
run-phase (u ∷ updates) view h =
    let (next, e, h') = >>=-eq-ok (update view u) _ h in
    omega (arith, update-phase view u e, run-phase updates next h')
