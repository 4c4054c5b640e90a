-- ===== src/Operation.antt =====
-- operation/src/lib.rs: `Operation` over all families, and `merge`, which the apply pipeline calls
-- once per epoch.
pub mod Types
pub mod Packages
pub mod Union
pub mod Partition
pub mod Fewer
mod Tests
use lusid.Base.{List, [], ◌∷◌, ◌++◌, map}
use lusid.Operation.Types.{
  AptRepoOperation, PodmanOperation, FileOperation, DirectoryOperation, CommandOperation,
  GitOperation, SystemdOperation, UserOperation, GroupOperation,
}
use lusid.Operation.Packages.{AptOperation, PacmanOperation, merge_apt, merge_pacman}

pub data Operation : Type 0 where
  apt : AptOperation → Operation
  apt_repo : AptRepoOperation → Operation
  pacman : PacmanOperation → Operation
  podman : PodmanOperation → Operation
  file : FileOperation → Operation
  directory : DirectoryOperation → Operation
  command : CommandOperation → Operation
  git : GitOperation → Operation
  systemd : SystemdOperation → Operation
  user : UserOperation → Operation
  group : GroupOperation → Operation

pub record OperationsByType : Type 0 where
  pub apts : List AptOperation
  pub apt_repos : List AptRepoOperation
  pub pacmans : List PacmanOperation
  pub podmans : List PodmanOperation
  pub files : List FileOperation
  pub directories : List DirectoryOperation
  pub commands : List CommandOperation
  pub gits : List GitOperation
  pub systemds : List SystemdOperation
  pub users : List UserOperation
  pub groups : List GroupOperation

abbrev pub no_operations : OperationsByType
no_operations = record {
  apts = [];
  apt_repos = [];
  pacmans = [];
  podmans = [];
  files = [];
  directories = [];
  commands = [];
  gits = [];
  systemds = [];
  users = [];
  groups = [];
}

-- The body of the loop: `push` on the vector of the family.
abbrev pub push : OperationsByType → Operation → OperationsByType
push by (apt op) = record by { apts = by.apts ++ op ∷ [] }
push by (apt_repo op) = record by { apt_repos = by.apt_repos ++ op ∷ [] }
push by (pacman op) = record by { pacmans = by.pacmans ++ op ∷ [] }
push by (podman op) = record by { podmans = by.podmans ++ op ∷ [] }
push by (file op) = record by { files = by.files ++ op ∷ [] }
push by (directory op) = record by { directories = by.directories ++ op ∷ [] }
push by (command op) = record by { commands = by.commands ++ op ∷ [] }
push by (git op) = record by { gits = by.gits ++ op ∷ [] }
push by (systemd op) = record by { systemds = by.systemds ++ op ∷ [] }
push by (user op) = record by { users = by.users ++ op ∷ [] }
push by (group op) = record by { groups = by.groups ++ op ∷ [] }

unfoldable pub partition_loop : List Operation → OperationsByType → OperationsByType
partition_loop [] by = by
partition_loop (op ∷ operations) by = partition_loop operations (push by op)

unfoldable pub partition_by_type : List Operation → OperationsByType
partition_by_type operations = partition_loop operations no_operations

-- `OperationType::merge` of each family: all but apt and pacman hand their operations back.
unfoldable pub merge_families : OperationsByType → OperationsByType
merge_families by = record by { apts = merge_apt by.apts; pacmans = merge_pacman by.pacmans }

-- The chain of the families in `merge`.
unfoldable pub chain : OperationsByType → List Operation
chain by =
    map apt by.apts
    ++ map apt_repo by.apt_repos
    ++ map pacman by.pacmans
    ++ map podman by.podmans
    ++ map file by.files
    ++ map directory by.directories
    ++ map command by.commands
    ++ map git by.gits
    ++ map systemd by.systemds
    ++ map user by.users
    ++ map group by.groups

-- `Operation::merge`
unfoldable pub merge : List Operation → List Operation
merge operations = chain (merge_families (partition_by_type operations))
