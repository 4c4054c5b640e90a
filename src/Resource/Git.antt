-- ===== src/Resource/Git.antt =====
-- resource/src/resources/git.rs
use lusid.Base.{
  Bool, true, false, not, ◌&&◌, ◌||◌, Option, none, some, [], ◌∷◌, String, string_eq, ◌=?◌,
  if◌then◌else◌,
}
use lusid.Tree.{leaf}
use lusid.Causality.Meta
use lusid.Operation.{git}
use lusid.Operation.Types.{FilePath, clone, fetch, checkout, pull}
use lusid.Resource.{Operations}

pub record GitResource : Type 0 where
  pub repo : String
  pub path : FilePath
  pub version : Option String
  pub update : Bool
  pub force : Bool

pub record GitPresent : Type 0 where
  pub head : Option String
  pub branch : Option String
  pub is_dirty : Bool

pub data GitState : Type 0 where
  git_absent : GitState
  git_present : GitPresent → GitState

pub data GitChange : Type 0 where
  clone_repo : (repo : String) → FilePath → GitChange
  checkout_version : FilePath → (version : String) → (force fetch : Bool) → GitChange
  pull_branch : FilePath → GitChange

-- `option == Some(version)`
abbrev pub is_at : Option String → String → Bool
is_at none version = false
is_at (some at) version = at =? version

unfoldable pub change_for_present : GitResource → GitPresent → Option GitChange
change_for_present resource state = elim resource.version [
  | some version ↦
      if is_at state.branch version || is_at state.head version
      then if (not state.is_dirty && resource.update) && is_at state.branch version
        then some (pull_branch resource.path)
        else none
      else some (checkout_version resource.path version resource.force resource.update)
  | none ↦ elim state.branch [
    | none ↦ none
    | some branch ↦
        if not state.is_dirty && resource.update then some (pull_branch resource.path) else none
  ]
]

unfoldable pub git_change : GitResource → GitState → Option GitChange
unfolding change_for_present
git_change resource git_absent = some (clone_repo resource.repo resource.path)
git_change resource (git_present state) = change_for_present resource state

unfoldable pub git_operations : GitChange → Operations
git_operations (clone_repo repo path) = leaf Meta.default (git (clone repo path)) ∷ []
git_operations (checkout_version path version force true) =
    leaf (Meta.id "fetch") (git (fetch path))
    ∷ leaf (Meta.requires ("fetch" ∷ [])) (git (checkout path version force))
    ∷ []
git_operations (checkout_version path version force false) =
    leaf Meta.default (git (checkout path version force)) ∷ []
git_operations (pull_branch path) = leaf Meta.default (git (pull path)) ∷ []
