-- ===== src/Operation/Types.antt =====
-- operation/src/operations/: the values of the families whose `merge` hands its operations back.
use lusid.Base.{ℕ, Bool, Option, List, String}

pub record FilePath : Type 0 where
  pub value : String

-- A `u32`
pub record FileMode : Type 0 where
  pub value : ℕ

pub record FileUser : Type 0 where
  pub value : String

pub record FileGroup : Type 0 where
  pub value : String

pub data FileSource : Type 0 where
  contents : (bytes : List ℕ) → FileSource
  path : FilePath → FileSource
  secret : (name : String) → FileSource

pub data AptRepoOperation : Type 0 where
  ensure_keyrings_dir : FilePath → AptRepoOperation
  download_key : (name url : String) → FilePath → AptRepoOperation
  write_sources : (name : String) → FilePath → (content : String) → AptRepoOperation

pub record PodmanCreate : Type 0 where
  pub name : String
  pub image : String
  pub command : Option (List String)
  pub env : List String
  pub ports : List String
  pub volumes : List String
  pub restart_policy : Option String
  pub config_hash : String

pub data PodmanOperation : Type 0 where
  create_container : PodmanCreate → PodmanOperation
  start_container stop_container remove_container : (name : String) → PodmanOperation

pub data FileOperation : Type 0 where
  write_file : FilePath → FileSource → FileOperation
  create_symlink : (source target : FilePath) → FileOperation
  remove_file : FilePath → FileOperation
  change_file_mode : FilePath → FileMode → FileOperation
  change_file_owner : FilePath → Option FileUser → Option FileGroup → FileOperation

pub data DirectoryOperation : Type 0 where
  create_directory : FilePath → DirectoryOperation
  create_directory_symlink copy_tree : (source target : FilePath) → DirectoryOperation
  remove_directory : FilePath → DirectoryOperation
  change_directory_mode : FilePath → FileMode → DirectoryOperation
  change_directory_owner : FilePath → Option FileUser → Option FileGroup → DirectoryOperation

pub data CommandExecutor : Type 0 where
  direct shell : CommandExecutor

pub record CommandOperation : Type 0 where
  pub command : String
  pub executor : CommandExecutor

pub data GitOperation : Type 0 where
  clone : (repo : String) → FilePath → GitOperation
  fetch : FilePath → GitOperation
  checkout : FilePath → (version : String) → (force : Bool) → GitOperation
  pull : FilePath → GitOperation

pub data SystemdOperation : Type 0 where
  enable disable start_unit stop_unit : (name : String) → SystemdOperation

pub record UserAdd : Type 0 where
  pub name : String
  pub uid : Option ℕ
  pub primary_group : Option String
  pub append_groups : List String
  pub comment : Option String
  pub home : Option FilePath
  pub shell : Option String
  pub system : Bool
  pub create_home : Bool

pub record UserModify : Type 0 where
  pub name : String
  pub uid : Option ℕ
  pub primary_group : Option String
  pub append_groups : Option (List String)
  pub comment : Option String
  pub home : Option FilePath
  pub shell : Option String

pub data UserOperation : Type 0 where
  add_account : UserAdd → UserOperation
  modify_account : UserModify → UserOperation
  delete_account : (name : String) → (remove_home : Bool) → UserOperation

pub data GroupOperation : Type 0 where
  add_group : (name : String) → (gid : Option ℕ) → (system : Bool) → GroupOperation
  modify_group : (name : String) → (gid : Option ℕ) → GroupOperation
  add_member : (name user : String) → GroupOperation
  delete_group : (name : String) → GroupOperation
