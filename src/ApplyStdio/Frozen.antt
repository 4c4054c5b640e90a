-- ===== src/ApplyStdio/Frozen.antt =====
-- What a message leaves as it was: the trees of the earlier phases.
use lusid.Base.{◌≡◌, ◌≢◌, some, arith, ok}
use lusid.ApplyStdio.FlatView.{FlatViewTree}
use lusid.ApplyStdio.AppView.{
  AppUpdate, resource_params, AppView, start, update, update_resources, update_resource_states,
  update_resource_changes, update_operations, update_operations_apply,
}
use lusid.ApplyStdio.Access.{
  get_resource_params, get_resources, get_resource_states, get_resource_changes,
  get_operations_tree,
}
use lusid.ApplyStdio.Phases.{phase}

-- Each tree that `view` has is in `view'` too, but for the one of the current phase.
pub record Keeps (view view' : AppView) : Type 0 where
  pub keeps_params :
      (t : FlatViewTree) → get_resource_params view ≡ some t → get_resource_params view' ≡ some t
  pub keeps_resources :
      (t : FlatViewTree)
      → phase view ≢ 2
      → get_resources view ≡ some t
      → get_resources view' ≡ some t
  pub keeps_states :
      (t : FlatViewTree)
      → phase view ≢ 3
      → get_resource_states view ≡ some t
      → get_resource_states view' ≡ some t
  pub keeps_changes :
      (t : FlatViewTree)
      → phase view ≢ 4
      → get_resource_changes view ≡ some t
      → get_resource_changes view' ≡ some t
  pub keeps_operations :
      (t : FlatViewTree)
      → phase view ≢ 5
      → get_operations_tree view ≡ some t
      → get_operations_tree view' ≡ some t

update-keeps_params :
    (view : AppView) (u : AppUpdate) {view' : AppView} (t : FlatViewTree)
    → update view u ≡ ok view'
    → get_resource_params view ≡ some t
    → get_resource_params view' ≡ some t
unfolding update update_resources update_resource_states update_resource_changes update_operations
    update_operations_apply
update-keeps_params start (resource_params tree) t h g = cc
update-keeps_params _ _ t h g = ground arith

update-keeps_resources :
    (view : AppView) (u : AppUpdate) {view' : AppView} (t : FlatViewTree)
    → update view u ≡ ok view'
    → phase view ≢ 2
    → get_resources view ≡ some t
    → get_resources view' ≡ some t
unfolding update phase update_resources update_resource_states update_resource_changes
    update_operations update_operations_apply
update-keeps_resources start (resource_params tree) t h p g = cc
update-keeps_resources _ _ t h p g = ground arith

update-keeps_states :
    (view : AppView) (u : AppUpdate) {view' : AppView} (t : FlatViewTree)
    → update view u ≡ ok view'
    → phase view ≢ 3
    → get_resource_states view ≡ some t
    → get_resource_states view' ≡ some t
unfolding update phase update_resources update_resource_states update_resource_changes
    update_operations update_operations_apply
update-keeps_states start (resource_params tree) t h p g = cc
update-keeps_states _ _ t h p g = ground arith

update-keeps_changes :
    (view : AppView) (u : AppUpdate) {view' : AppView} (t : FlatViewTree)
    → update view u ≡ ok view'
    → phase view ≢ 4
    → get_resource_changes view ≡ some t
    → get_resource_changes view' ≡ some t
unfolding update phase update_resources update_resource_states update_resource_changes
    update_operations update_operations_apply
update-keeps_changes start (resource_params tree) t h p g = cc
update-keeps_changes _ _ t h p g = ground arith

update-keeps_operations :
    (view : AppView) (u : AppUpdate) {view' : AppView} (t : FlatViewTree)
    → update view u ≡ ok view'
    → phase view ≢ 5
    → get_operations_tree view ≡ some t
    → get_operations_tree view' ≡ some t
unfolding update phase update_resources update_resource_states update_resource_changes
    update_operations update_operations_apply
update-keeps_operations start (resource_params tree) t h p g = cc
update-keeps_operations _ _ t h p g = ground arith

-- If a message is accepted, then every tree that the view has is in the next view as it was,
-- except that of the phase that the view is in.
pub update-Keeps :
    (view : AppView) (u : AppUpdate) (view' : AppView) → update view u ≡ ok view' → Keeps view view'
update-Keeps view u view' h = record {
  keeps_params = λ t g. update-keeps_params view u t h g;
  keeps_resources = λ t p g. update-keeps_resources view u t h p g;
  keeps_states = λ t p g. update-keeps_states view u t h p g;
  keeps_changes = λ t p g. update-keeps_changes view u t h p g;
  keeps_operations = λ t p g. update-keeps_operations view u t h p g;
}
