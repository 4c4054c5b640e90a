-- ===== src/Resource/Params.antt =====
-- The parameters of the resources of resource/src/resources/ that a plan gives, where their fields
-- are not those of the resource, and the resources that git.rs, group.rs and user.rs make of them.
use lusid.Base.{ℕ, Option, none, some, List, [], ◌∷◌, String, Bool, true, false, not}
use lusid.Tree.{leaf}
use lusid.Causality.Collect.{CausalityTree}
use lusid.Causality.Meta
use lusid.Operation.Types.{FilePath, FileMode, FileUser, FileGroup}
use lusid.Params.Value.{Span}
use lusid.Resource.Git.{GitResource}
use lusid.Resource.Group.{GroupResource, present_group, absent_group}
use lusid.Resource.User.{UserResource, present_user, absent_user}

-- `unwrap_or`
abbrev pub or_else : Option Bool → Bool → Bool
or_else none other = other
or_else (some b) other = b

pub record GitParams : Type 0 where
  pub repo : String
  pub path : FilePath
  pub version : Option String
  pub update : Option Bool
  pub force : Option Bool

unfoldable pub git_resources : GitParams → List (CausalityTree GitResource String)
git_resources params =
    leaf Meta.default (record {
      repo = params.repo;
      path = params.path;
      version = params.version;
      update = or_else params.update true;
      force = or_else params.force false;
    })
    ∷ []

pub record GroupAsked : Type 0 where
  pub name : String
  pub gid : Option ℕ
  pub system : Option Bool
  pub append_users : Option (List String)

pub data GroupParams : Type 0 where
  group_present : GroupAsked → GroupParams
  group_absent : (name : String) → GroupParams

unfoldable pub group_resource : GroupParams → GroupResource
group_resource (group_present asked) = present_group (record {
  name = asked.name;
  gid = asked.gid;
  system = or_else asked.system false;
  append_users = asked.append_users;
})
group_resource (group_absent name) = absent_group name

unfoldable pub group_resources : GroupParams → List (CausalityTree GroupResource String)
group_resources params = leaf Meta.default (group_resource params) ∷ []

pub record UserAsked : Type 0 where
  pub name : String
  pub uid : Option ℕ
  pub group : Option String
  pub append_groups : Option (List String)
  pub comment : Option String
  pub home : Option FilePath
  pub shell : Option String
  pub system : Option Bool
  pub create_home : Option Bool

pub data UserParams : Type 0 where
  user_present : UserAsked → UserParams
  user_gone : (name : String) → (remove_home : Option Bool) → UserParams

-- A home is made for a user of no system account where the plan does not say.
unfoldable pub user_resource : UserParams → UserResource
user_resource (user_present asked) =
    let system = or_else asked.system false in
    present_user (record {
      name = asked.name;
      uid = asked.uid;
      group = asked.group;
      append_groups = asked.append_groups;
      comment = asked.comment;
      home = asked.home;
      shell = asked.shell;
      system = system;
      create_home = or_else asked.create_home (not system);
    })
user_resource (user_gone name remove_home) = absent_user name (or_else remove_home false)

unfoldable pub user_resources : UserParams → List (CausalityTree UserResource String)
user_resources params = leaf Meta.default (user_resource params) ∷ []

pub record AptRepoParams : Type 0 where
  pub name : String
  pub uris : List String
  pub suites : List String
  pub components : List String
  pub key_url : String
  pub types : Option (List String)
  pub architectures : Option (List String)
  pub enabled : Option Bool

-- The mode and the owners of a path.
pub record Owned : Type 0 where
  pub mode : Option FileMode
  pub user : Option FileUser
  pub group : Option FileGroup

-- The variants of files are those of directories.
pub data FileParams : Type 0 where
  file_sourced : (source : FilePath) (source_span : Span) (path : FilePath) → Owned → FileParams
  file_linked : (source : FilePath) (source_span : Span) (path : FilePath) → FileParams
  file_present : (path : FilePath) → Owned → FileParams
  file_absent : (path : FilePath) → FileParams

pub data DirectoryParams : Type 0 where
  directory_sourced :
      (source : FilePath) (source_span : Span) (path : FilePath) → Owned → DirectoryParams
  directory_linked : (source : FilePath) (source_span : Span) (path : FilePath) → DirectoryParams
  directory_present : (path : FilePath) → Owned → DirectoryParams
  directory_absent : (path : FilePath) → DirectoryParams

pub record SecretParams : Type 0 where
  pub name : String
  pub path : FilePath
  pub mode : Option FileMode
  pub user : Option FileUser
  pub group : Option FileGroup

pub record PodmanPresent : Type 0 where
  pub name : String
  pub image : String
  pub command : Option (List String)
  pub env : Option (List String)
  pub ports : Option (List String)
  pub volumes : Option (List String)
  pub restart_policy : Option String
  pub running : Option Bool

pub data PodmanParams : Type 0 where
  podman_present : PodmanPresent → PodmanParams
  podman_absent : (name : String) → PodmanParams
