-- ===== src/ApplyStdio/Access.antt =====
-- apply-stdio/src/lib.rs: the accessors of `AppView`, and the fold of a stream of messages.
use lusid.Base.{Option, some, none, List, [], ◌∷◌, Result, ok, ◌>>=◌}
use lusid.ApplyStdio.FlatView.{FlatViewTree}
use lusid.ApplyStdio.AppView.{
  AppUpdate, AppView, AppViewError, start, params, resources, resource_states, resource_changes,
  operations, operations_apply, done, update, Epochs,
}

abbrev pub get_resource_params : AppView → Option FlatViewTree
get_resource_params start = none
get_resource_params (params tree) = some tree
get_resource_params (resources d) = some d.resource_params
get_resource_params (resource_states d) = some d.resource_params
get_resource_params (resource_changes d) = some d.resource_params
get_resource_params (operations d) = some d.resource_params
get_resource_params (operations_apply d) = some d.resource_params
get_resource_params (done d) = some d.resource_params

abbrev pub get_resources : AppView → Option FlatViewTree
get_resources (resources d) = some d.resources
get_resources (resource_states d) = some d.resources
get_resources (resource_changes d) = some d.resources
get_resources (operations d) = some d.resources
get_resources (operations_apply d) = some d.resources
get_resources (done d) = some d.resources
get_resources _ = none

abbrev pub get_resource_states : AppView → Option FlatViewTree
get_resource_states (resource_states d) = some d.resource_states
get_resource_states (resource_changes d) = some d.resource_states
get_resource_states (operations d) = some d.resource_states
get_resource_states (operations_apply d) = some d.resource_states
get_resource_states (done d) = some d.resource_states
get_resource_states _ = none

abbrev pub get_resource_changes : AppView → Option FlatViewTree
get_resource_changes (resource_changes d) = some d.resource_changes
get_resource_changes (operations d) = some d.resource_changes
get_resource_changes (operations_apply d) = some d.resource_changes
get_resource_changes (done d) = some d.resource_changes
get_resource_changes _ = none

abbrev pub get_operations_tree : AppView → Option FlatViewTree
get_operations_tree (operations d) = some d.operations_tree
get_operations_tree (operations_apply d) = some d.operations_tree
get_operations_tree (done d) = some d.operations_tree
get_operations_tree _ = none

abbrev pub get_operations_epochs : AppView → Option Epochs
get_operations_epochs (operations_apply d) = some d.operations_epochs
get_operations_epochs (done d) = some d.operations_epochs
get_operations_epochs _ = none

-- The updates of a stream, one after another, up to the first error.
unfoldable pub run : List AppUpdate → AppView → Result AppViewError AppView
run [] view = ok view
run (u ∷ updates) view = update view u >>= λ view'. run updates view'
