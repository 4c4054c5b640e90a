-- ===== src/Operation/Packages.antt =====
-- operation/src/operations/apt.rs and pacman.rs: the families whose `merge` coalesces.
use Prim.Native.Nat.{Ordering}
use Prim.Native.String.{compare}
use lusid.Base.{Bool, true, false, List, [], ◌∷◌, ◌++◌, String, if◌then◌else◌}

-- `BTreeSet<String>` as the ascending list of its elements: `insert`.
unfoldable pub insert : String → List String → List String
insert name [] = name ∷ []
insert name (first ∷ set) = elim (compare name first) [
  | Ordering.lt ↦ name ∷ first ∷ set
  | Ordering.eq ↦ first ∷ set
  | Ordering.gt ↦ first ∷ insert name set
]

unfoldable pub insert_all : List String → List String → List String
insert_all [] set = set
insert_all (name ∷ packages) set = insert_all packages (insert name set)

pub data AptOperation : Type 0 where
  apt_update : AptOperation
  apt_install : (packages : List String) → AptOperation

-- The loop of `Apt::merge`, over its flag and its set.
unfoldable pub merge_apt_loop : List AptOperation → Bool × List String → Bool × List String
merge_apt_loop [] state = state
merge_apt_loop (apt_update ∷ operations) (update, install) =
    merge_apt_loop operations (true, install)
merge_apt_loop (apt_install packages ∷ operations) (update, install) =
    merge_apt_loop operations (update, insert_all packages install)

-- `if !install.is_empty() { operations.push(…) }`
abbrev pub push_apt_install : List String → List AptOperation
push_apt_install [] = []
push_apt_install (name ∷ packages) = apt_install (name ∷ packages) ∷ []

unfoldable pub merge_apt : List AptOperation → List AptOperation
merge_apt operations =
    let merged = merge_apt_loop operations (false, []) in
    (if merged.0 then apt_update ∷ [] else []) ++ push_apt_install merged.1

pub data PacmanOperation : Type 0 where
  pacman_upgrade : PacmanOperation
  pacman_install : (packages : List String) → PacmanOperation

unfoldable pub merge_pacman_loop : List PacmanOperation → Bool × List String → Bool × List String
merge_pacman_loop [] state = state
merge_pacman_loop (pacman_upgrade ∷ operations) (upgrade, install) =
    merge_pacman_loop operations (true, install)
merge_pacman_loop (pacman_install packages ∷ operations) (upgrade, install) =
    merge_pacman_loop operations (upgrade, insert_all packages install)

abbrev pub push_pacman_install : List String → List PacmanOperation
push_pacman_install [] = []
push_pacman_install (name ∷ packages) = pacman_install (name ∷ packages) ∷ []

unfoldable pub merge_pacman : List PacmanOperation → List PacmanOperation
merge_pacman operations =
    let merged = merge_pacman_loop operations (false, []) in
    (if merged.0 then pacman_upgrade ∷ [] else []) ++ push_pacman_install merged.1
