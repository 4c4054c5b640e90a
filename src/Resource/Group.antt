-- ===== src/Resource/Group.antt =====
-- resource/src/resources/group.rs
use lusid.Base.{
  ℕ, Bool, not, ◌==◌, Option, none, some, List, [], ◌∷◌, map, String, string_eq, contains,
  if◌then◌else◌,
}
use lusid.Tree.{leaf}
use lusid.Causality.Collect.{CausalityMeta}
use lusid.Causality.Meta
use lusid.Operation.{group}
use lusid.Operation.Types.{add_group, modify_group, add_member, delete_group}
use lusid.Resource.{Operations, filter_option}

pub record GroupPresent : Type 0 where
  pub name : String
  pub gid : Option ℕ
  pub system : Bool
  pub append_users : Option (List String)

pub data GroupResource : Type 0 where
  present_group : GroupPresent → GroupResource
  absent_group : (name : String) → GroupResource

pub data GroupState : Type 0 where
  found_absent : GroupState
  found_present : (gid : ℕ) → (members : List String) → GroupState

pub data GroupChange : Type 0 where
  create_group :
      (name : String)
      → (gid : Option ℕ) → (system : Bool) → (append_users : List String) → GroupChange
  change_group : (name : String) → (gid : Option ℕ) → (append_users : List String) → GroupChange
  remove_group : (name : String) → GroupChange

-- `unwrap_or_default()`
abbrev pub or_empty : Option (List String) → List String
or_empty none = []
or_empty (some users) = users

-- The declared users that are no members yet, each once: the filter, with the set `seen`.
unfoldable pub missing : List String → List String → List String → List String
missing current seen [] = []
missing current seen (user ∷ declared) =
    let rest = missing current seen declared in
    let rest_seen = missing current (user ∷ seen) declared in
    if contains current user then rest else if contains seen user then rest else user ∷ rest_seen

-- The last arm of `change`: a group that is there and is to be there.
abbrev pub modification : String → Option ℕ → List String → Option GroupChange
modification name none [] = none
modification name gid users = some (change_group name gid users)

unfoldable pub group_change : GroupResource → GroupState → Option GroupChange
unfolding missing
group_change (absent_group name) found_absent = none
group_change (absent_group name) (found_present gid members) = some (remove_group name)
group_change (present_group p) found_absent =
    some (create_group p.name p.gid p.system (or_empty p.append_users))
group_change (present_group p) (found_present gid members) =
    modification p.name (filter_option (λ declared. not (declared == gid)) p.gid)
      (missing members [] (or_empty p.append_users))

-- The loop over the users.
abbrev pub add_members : CausalityMeta String → String → List String → Operations
add_members meta name users = map (λ user. leaf meta (group (add_member name user))) users

-- The meta of the first operation: it has an id if another waits for it.
abbrev pub id_if_any : String → List String → CausalityMeta String
id_if_any id [] = Meta.default
id_if_any id (user ∷ users) = Meta.id id

unfoldable pub group_operations : GroupChange → Operations
group_operations (create_group name gid system users) =
    leaf (id_if_any "add" users) (group (add_group name gid system))
    ∷ add_members (Meta.requires ("add" ∷ [])) name users
group_operations (change_group name (some gid) users) =
    leaf (id_if_any "modify" users) (group (modify_group name (some gid)))
    ∷ add_members (Meta.requires ("modify" ∷ [])) name users
group_operations (change_group name none users) = add_members Meta.default name users
group_operations (remove_group name) = leaf Meta.default (group (delete_group name)) ∷ []
