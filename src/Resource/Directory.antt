-- ===== src/Resource/Directory.antt =====
-- resource/src/resources/directory.rs: directories, from the parameters to the
-- operations. What the file system answers is the record Disk.
use lusid.Base.{
  Option, none, some, List, [], ◌∷◌, ◌++◌, String, if◌then◌else◌, ◌==◌, Result, ok, err, ◌>>=◌,
}
use Prim.Native.Nat.{◌%◌}
use lusid.Tree.{leaf}
use lusid.Causality.Collect.{CausalityTree}
use lusid.Causality.Meta
use lusid.Operation.{directory}
use lusid.Operation.Types.{
  FilePath, FileMode, FileUser, FileGroup, DirectoryOperation, create_directory,
  create_directory_symlink, copy_tree, remove_directory, change_directory_mode,
  change_directory_owner,
}
use lusid.Resource.{Operations}
use lusid.Resource.Git.{is_at}
use lusid.Resource.File.{Disk}
use lusid.Resource.Params.{
  Owned, DirectoryParams, directory_sourced, directory_linked, directory_present, directory_absent,
}

pub data DirectoryResource : Type 0 where
  sourced_directory linked_directory : (source target : FilePath) → DirectoryResource
  present_directory absent_directory : (target : FilePath) → DirectoryResource
  directory_mode : (target : FilePath) → FileMode → DirectoryResource
  directory_user : (target : FilePath) → FileUser → DirectoryResource
  directory_group : (target : FilePath) → FileGroup → DirectoryResource

pub data DirectoryState : Type 0 where
  directory_is_sourced directory_not_sourced directory_is_linked directory_not_linked
        directory_is_present directory_is_absent directory_mode_correct directory_mode_incorrect
        directory_user_correct directory_user_incorrect directory_group_correct
        directory_group_incorrect :
      DirectoryState

pub data DirectoryChange : Type 0 where
  create_change : (target : FilePath) → DirectoryChange
  symlink_change copy_change : (source target : FilePath) → DirectoryChange
  remove_change : (target : FilePath) → DirectoryChange
  mode_change : (target : FilePath) → FileMode → DirectoryChange
  owner_change : (target : FilePath) → Option FileUser → Option FileGroup → DirectoryChange

abbrev pub DirectoryTrees : Type 0
DirectoryTrees = List (CausalityTree DirectoryResource String)

-- `if let Some(a) = asked { nodes.push(..) }`
unfoldable pub directory_atom : {A : Type 0} → (A → DirectoryResource) → Option A → DirectoryTrees
directory_atom make none = []
directory_atom make (some a) = leaf (Meta.requires ("directory" ∷ [])) (make a) ∷ []

unfoldable pub directory_permission_atoms : FilePath → Owned → DirectoryTrees
directory_permission_atoms target owned =
    directory_atom (directory_mode target) owned.mode
    ++ (directory_atom (directory_user target) owned.user
        ++ directory_atom (directory_group target) owned.group)

unfoldable pub directory_resources : DirectoryParams → DirectoryTrees
directory_resources (directory_sourced source source_span target owned) =
    leaf (Meta.id "directory") (sourced_directory source target)
    ∷ directory_permission_atoms target owned
directory_resources (directory_linked source source_span target) =
    leaf Meta.default (linked_directory source target) ∷ []
directory_resources (directory_present target owned) =
    leaf (Meta.id "directory") (present_directory target) ∷ directory_permission_atoms target owned
directory_resources (directory_absent target) = leaf Meta.default (absent_directory target) ∷ []

module _ {E : Type 0} (disk : Disk E) where
  -- A probe of a path that is there; where it is not, the state is the second.
  unfoldable pub directory_if_there :
      FilePath → DirectoryState → Result (E) DirectoryState → Result (E) DirectoryState
  directory_if_there target absent probe =
      (disk.path_exists target) >>= λ there. if there then probe else ok absent

  unfoldable pub directory_probe_linked_state : FilePath → FilePath → Result (E) DirectoryState
  directory_probe_linked_state source target = (disk.probe_symlink target) >>= λ link. elim link [
    | some to ↦ ok (if disk.same_path to source then directory_is_linked else directory_not_linked)
    | none ↦ ok directory_not_linked
  ]

  unfoldable pub directory_state : DirectoryResource → Result (E) DirectoryState
  directory_state (sourced_directory source target) = disk.path_exists target >>= λ there.
      ok (if there then directory_is_sourced else directory_not_sourced)
  directory_state (linked_directory source target) = directory_probe_linked_state source target
  directory_state (present_directory target) = (disk.path_exists target) >>= λ there.
      ok (if there then directory_is_present else directory_is_absent)
  directory_state (absent_directory target) = (disk.path_exists target) >>= λ there.
      ok (if there then directory_is_present else directory_is_absent)
  directory_state (directory_mode target mode) =
      directory_if_there target directory_mode_incorrect (
        (disk.get_mode target) >>= λ actual.
        ok (
          if actual % 4096 == mode.value then directory_mode_correct else directory_mode_incorrect))
  directory_state (directory_user target user) =
      directory_if_there target directory_user_incorrect (
        (disk.get_owner_user target) >>= λ actual.
        ok (if is_at actual user.value then directory_user_correct else directory_user_incorrect))
  directory_state (directory_group target group) =
      directory_if_there target directory_group_incorrect (
        (disk.get_owner_group target) >>= λ actual.
        ok
          (if is_at actual group.value then directory_group_correct else directory_group_incorrect))

-- The error is the text of the panic.
unfoldable pub directory_change :
    DirectoryResource → DirectoryState → Result String (Option DirectoryChange)
directory_change (sourced_directory source target) directory_not_sourced =
    ok (some (copy_change source target))
directory_change (sourced_directory source target) directory_is_sourced = ok none
directory_change (linked_directory source target) directory_not_linked =
    ok (some (symlink_change source target))
directory_change (linked_directory source target) directory_is_linked = ok none
directory_change (present_directory target) directory_is_absent = ok (some (create_change target))
directory_change (present_directory target) directory_is_present = ok none
directory_change (absent_directory target) directory_is_present = ok (some (remove_change target))
directory_change (absent_directory target) directory_is_absent = ok none
directory_change (directory_mode target mode) directory_mode_incorrect =
    ok (some (mode_change target mode))
directory_change (directory_mode target mode) directory_mode_correct = ok none
directory_change (directory_user target user) directory_user_incorrect =
    ok (some (owner_change target (some user) none))
directory_change (directory_user target user) directory_user_correct = ok none
directory_change (directory_group target group) directory_group_incorrect =
    ok (some (owner_change target none (some group)))
directory_change (directory_group target group) directory_group_correct = ok none
directory_change resource state = err "Unexpected case in change method for Directory resource."

unfoldable pub directory_operation : DirectoryChange → DirectoryOperation
directory_operation (create_change target) = create_directory target
directory_operation (symlink_change source target) = create_directory_symlink source target
directory_operation (copy_change source target) = copy_tree source target
directory_operation (remove_change target) = remove_directory target
directory_operation (mode_change target mode) = change_directory_mode target mode
directory_operation (owner_change target user group) = change_directory_owner target user group

unfoldable pub directory_operations : DirectoryChange → Operations
directory_operations change = leaf Meta.default (directory (directory_operation change)) ∷ []
