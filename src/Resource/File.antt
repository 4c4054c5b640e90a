-- ===== src/Resource/File.antt =====
-- resource/src/resources/file.rs and secret.rs: files, with the secrets that are written to files, from the parameters to the
-- operations. What the file system answers is the record Disk.
use lusid.Base.{
  ℕ, Option, none, some, List, [], ◌∷◌, ◌++◌, String, Bool, true, false, if◌then◌else◌, ◌==◌,
  Result, ok, err, map_err, ◌>>=◌,
}
use Prim.Native.Nat.{◌%◌}
use lusid.Tree.{leaf}
use lusid.Causality.Collect.{CausalityTree}
use lusid.Causality.Meta
use lusid.Operation.{file}
use lusid.Operation.Types.{
  FilePath, FileMode, FileUser, FileGroup, FileSource, contents, path, secret, FileOperation,
  write_file, create_symlink, remove_file, change_file_mode, change_file_owner,
}
use lusid.Resource.{Operations}
use lusid.Resource.Git.{is_at}
use lusid.Resource.Params.{
  Owned, FileParams, file_sourced, file_linked, file_present, file_absent, SecretParams,
}

-- The calls of the crate fs that probe a path, and the secrets of the context.
pub record Disk (E : Type 0) : Type 0 where
  pub path_exists : FilePath → Result E Bool
  pub read_file_to_bytes : FilePath → Result E (List ℕ)
  pub probe_symlink : FilePath → Result E (Option String)
  pub same_path : String → FilePath → Bool
  pub get_mode : FilePath → Result E ℕ
  pub get_owner_user : FilePath → Result E (Option String)
  pub get_owner_group : FilePath → Result E (Option String)
  pub find_secret : String → Option (List ℕ)

-- `==` on bytes
unfoldable pub same_bytes : List ℕ → List ℕ → Bool
same_bytes [] [] = true
same_bytes (a ∷ left) (b ∷ right) = if a == b then same_bytes left right else false
same_bytes left right = false

pub data FileResource : Type 0 where
  sourced_file linked_file : (source target : FilePath) → FileResource
  secret_file : (name : String) (target : FilePath) → FileResource
  present_file absent_file : (target : FilePath) → FileResource
  file_mode : (target : FilePath) → FileMode → FileResource
  file_user : (target : FilePath) → FileUser → FileResource
  file_group : (target : FilePath) → FileGroup → FileResource

pub data FileState : Type 0 where
  file_is_sourced file_not_sourced file_is_linked file_not_linked file_is_present file_is_absent
        file_mode_correct file_mode_incorrect file_user_correct file_user_incorrect
        file_group_correct file_group_incorrect :
      FileState

pub data FileStateError (E : Type 0) : Type 0 where
  file_fs_error : E → FileStateError E
  missing_secret : (name : String) → FileStateError E

pub data FileChange : Type 0 where
  write_change : (target : FilePath) → FileSource → FileChange
  symlink_change : (source target : FilePath) → FileChange
  remove_change : (target : FilePath) → FileChange
  mode_change : (target : FilePath) → FileMode → FileChange
  owner_change : (target : FilePath) → Option FileUser → Option FileGroup → FileChange

abbrev pub FileTrees : Type 0
FileTrees = List (CausalityTree FileResource String)

-- `if let Some(a) = asked { nodes.push(..) }`
unfoldable pub file_atom : {A : Type 0} → (A → FileResource) → Option A → FileTrees
file_atom make none = []
file_atom make (some a) = leaf (Meta.requires ("file" ∷ [])) (make a) ∷ []

unfoldable pub file_permission_atoms : FilePath → Owned → FileTrees
file_permission_atoms target owned =
    file_atom (file_mode target) owned.mode
    ++ (file_atom (file_user target) owned.user ++ file_atom (file_group target) owned.group)

unfoldable pub file_resources : FileParams → FileTrees
file_resources (file_sourced source source_span target owned) =
    leaf (Meta.id "file") (sourced_file source target) ∷ file_permission_atoms target owned
file_resources (file_linked source source_span target) =
    leaf Meta.default (linked_file source target) ∷ []
file_resources (file_present target owned) =
    leaf (Meta.id "file") (present_file target) ∷ file_permission_atoms target owned
file_resources (file_absent target) = leaf Meta.default (absent_file target) ∷ []

-- `unwrap_or_else`, with 0o600
abbrev pub mode_or_default : Option FileMode → FileMode
mode_or_default none = record { value = 384 }
mode_or_default (some mode) = mode

unfoldable pub secret_resources : SecretParams → FileTrees
secret_resources params =
    leaf (Meta.id "file") (secret_file params.name params.path)
    ∷ (leaf (Meta.requires ("file" ∷ [])) (file_mode params.path (mode_or_default params.mode))
        ∷ (file_atom (file_user params.path) params.user
            ++ file_atom (file_group params.path) params.group))

module _ {E : Type 0} (disk : Disk E) where
  -- A probe of a path that is there; where it is not, the state is the second.
  unfoldable pub file_if_there :
      FilePath
      → FileState
      → Result (FileStateError E) FileState
      → Result (FileStateError E) FileState
  file_if_there target absent probe = map_err file_fs_error (disk.path_exists target) >>= λ there.
      if there then probe else ok absent

  unfoldable pub file_probe_linked_state : FilePath → FilePath → Result (FileStateError E) FileState
  file_probe_linked_state source target =
      map_err file_fs_error (disk.probe_symlink target) >>= λ link. elim link [
        | some to ↦ ok (if disk.same_path to source then file_is_linked else file_not_linked)
        | none ↦ ok file_not_linked
      ]

  unfoldable pub secret_state : List ℕ → FilePath → Result (FileStateError E) FileState
  secret_state plain target = map_err file_fs_error (disk.read_file_to_bytes target) >>= λ found.
      ok (if same_bytes found plain then file_is_sourced else file_not_sourced)

  unfoldable pub file_state : FileResource → Result (FileStateError E) FileState
  file_state (sourced_file source target) = file_if_there target file_not_sourced (
      map_err file_fs_error (disk.read_file_to_bytes source) >>= λ wanted.
      map_err file_fs_error (disk.read_file_to_bytes target) >>= λ found.
      ok (if same_bytes wanted found then file_is_sourced else file_not_sourced))
  file_state (linked_file source target) = file_probe_linked_state source target
  file_state (secret_file name target) =
      file_if_there target file_not_sourced (elim (disk.find_secret name) [
        | some plain ↦ secret_state plain target
        | none ↦ err (missing_secret name)
      ])
  file_state (present_file target) = map_err file_fs_error (disk.path_exists target) >>= λ there.
      ok (if there then file_is_present else file_is_absent)
  file_state (absent_file target) = map_err file_fs_error (disk.path_exists target) >>= λ there.
      ok (if there then file_is_present else file_is_absent)
  file_state (file_mode target mode) = file_if_there target file_mode_incorrect (
      map_err file_fs_error (disk.get_mode target) >>= λ actual.
      ok (if actual % 4096 == mode.value then file_mode_correct else file_mode_incorrect))
  file_state (file_user target user) = file_if_there target file_user_incorrect (
      map_err file_fs_error (disk.get_owner_user target) >>= λ actual.
      ok (if is_at actual user.value then file_user_correct else file_user_incorrect))
  file_state (file_group target group) = file_if_there target file_group_incorrect (
      map_err file_fs_error (disk.get_owner_group target) >>= λ actual.
      ok (if is_at actual group.value then file_group_correct else file_group_incorrect))

-- The error is the text of the panic.
unfoldable pub file_change : FileResource → FileState → Result String (Option FileChange)
file_change (sourced_file source target) file_not_sourced =
    ok (some (write_change target (path source)))
file_change (sourced_file source target) file_is_sourced = ok none
file_change (linked_file source target) file_not_linked = ok (some (symlink_change source target))
file_change (linked_file source target) file_is_linked = ok none
file_change (secret_file name target) file_not_sourced =
    ok (some (write_change target (secret name)))
file_change (secret_file name target) file_is_sourced = ok none
file_change (present_file target) file_is_absent = ok (some (write_change target (contents [])))
file_change (present_file target) file_is_present = ok none
file_change (absent_file target) file_is_present = ok (some (remove_change target))
file_change (absent_file target) file_is_absent = ok none
file_change (file_mode target mode) file_mode_incorrect = ok (some (mode_change target mode))
file_change (file_mode target mode) file_mode_correct = ok none
file_change (file_user target user) file_user_incorrect =
    ok (some (owner_change target (some user) none))
file_change (file_user target user) file_user_correct = ok none
file_change (file_group target group) file_group_incorrect =
    ok (some (owner_change target none (some group)))
file_change (file_group target group) file_group_correct = ok none
file_change resource state = err "Unexpected case in change method for File resource."

unfoldable pub file_operation : FileChange → FileOperation
file_operation (write_change target source) = write_file target source
file_operation (symlink_change source target) = create_symlink source target
file_operation (remove_change target) = remove_file target
file_operation (mode_change target mode) = change_file_mode target mode
file_operation (owner_change target user group) = change_file_owner target user group

unfoldable pub file_operations : FileChange → Operations
file_operations change = leaf Meta.default (file (file_operation change)) ∷ []
