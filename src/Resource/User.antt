-- ===== src/Resource/User.antt =====
-- resource/src/resources/user.rs
use lusid.Base.{
  ℕ, nat_eq, Bool, true, false, not, ◌&&◌, Option, none, some, List, [], ◌∷◌, String, string_eq,
  ◌=?◌, if◌then◌else◌,
}
use lusid.Tree.{leaf}
use lusid.Causality.Meta
use lusid.Operation.{user}
use lusid.Operation.Types.{
  FilePath, UserAdd, UserModify, add_account, modify_account, delete_account,
}
use lusid.Resource.{Operations, filter_option}
use lusid.Resource.Group.{missing, or_empty}

pub record UserPresent : Type 0 where
  pub name : String
  pub uid : Option ℕ
  pub group : Option String
  pub append_groups : Option (List String)
  pub comment : Option String
  pub home : Option FilePath
  pub shell : Option String
  pub system : Bool
  pub create_home : Bool

pub data UserResource : Type 0 where
  present_user : UserPresent → UserResource
  absent_user : (name : String) → (remove_home : Bool) → UserResource

pub record UserFound : Type 0 where
  pub uid : ℕ
  pub primary_group : String
  pub extra_groups : List String
  pub comment : String
  pub home : String
  pub shell : String

pub data UserState : Type 0 where
  user_absent : UserState
  user_found : UserFound → UserState

-- The fields of the variants are those of the operations that they become.
pub data UserChange : Type 0 where
  create_user : UserAdd → UserChange
  change_user : UserModify → UserChange
  remove_user : (name : String) → (remove_home : Bool) → UserChange

abbrev pub is_none {ℓ} : {A : Type ℓ} → Option A → Bool
is_none none = true
is_none (some a) = false

-- A list that is empty is no change.
abbrev pub if_any : List String → Option (List String)
if_any [] = none
if_any (group ∷ groups) = some (group ∷ groups)

-- The last arm: nothing if no field changes.
abbrev pub if_changed : UserModify → Option UserChange
if_changed m =
    if is_none m.uid
      && (is_none m.primary_group
          && (is_none m.append_groups
              && (is_none m.comment && (is_none m.home && is_none m.shell))))
    then none
    else some (change_user m)

-- `same_path` is the equality of std's `Path`, which compares paths by their components.
module _ (same_path : FilePath → String → Bool) where
  -- What the plan declares and the machine does not have.
  abbrev pub changes : UserPresent → UserFound → UserModify
  changes p found = record {
    name = p.name;
    uid = filter_option (λ declared. not (declared =? found.uid)) p.uid;
    primary_group = filter_option (λ declared. not (declared =? found.primary_group)) p.group;
    append_groups = if_any (missing found.extra_groups [] (or_empty p.append_groups));
    comment = filter_option (λ declared. not (declared =? found.comment)) p.comment;
    home = filter_option (λ declared. not (same_path declared found.home)) p.home;
    shell = filter_option (λ declared. not (declared =? found.shell)) p.shell;
  }

  unfoldable pub user_change : UserResource → UserState → Option UserChange
  user_change (absent_user name remove_home) user_absent = none
  user_change (absent_user name remove_home) (user_found found) =
      some (remove_user name remove_home)
  user_change (present_user p) user_absent = some (
      create_user (record {
        name = p.name;
        uid = p.uid;
        primary_group = p.group;
        append_groups = or_empty p.append_groups;
        comment = p.comment;
        home = p.home;
        shell = p.shell;
        system = p.system;
        create_home = p.create_home;
      }))
  user_change (present_user p) (user_found found) = if_changed (changes p found)

unfoldable pub user_operations : UserChange → Operations
user_operations (create_user add) = leaf Meta.default (user (add_account add)) ∷ []
user_operations (change_user modify) = leaf Meta.default (user (modify_account modify)) ∷ []
user_operations (remove_user name remove_home) =
    leaf Meta.default (user (delete_account name remove_home)) ∷ []
