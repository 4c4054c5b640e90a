-- ===== src/Operation/Fewer.antt =====
-- A merged batch has no more operations than the batch.
use lusid.Base.{
  ℕ, ◌+◌, ◌≤◌, ◌≡◌, refl, Bool, true, false, List, [], ◌∷◌, String, arith, length, length-append,
  length-map, if◌then◌else◌,
}
use lusid.Operation.{
  Operation, apt, apt_repo, pacman, podman, file, directory, command, git, systemd, user, group,
  OperationsByType, no_operations, push, partition_loop, partition_by_type, merge_families, chain,
  merge,
}
use lusid.Operation.Packages.{
  AptOperation, apt_update, apt_install, merge_apt, merge_apt_loop, push_apt_install, insert_all,
  PacmanOperation, pacman_upgrade, pacman_install, merge_pacman, merge_pacman_loop,
  push_pacman_install,
}

-- What a loop's flag and set come to.
abbrev apt_weight : Bool × List String → ℕ
apt_weight (update, install) = (if update then 1 else 0) + length (push_apt_install install)

apt_install-le :
    (update : Bool) (new old : List String)
    → apt_weight (update, new) ≤ 1 + apt_weight (update, old)
apt_install-le true [] old = omega arith
apt_install-le true (p ∷ new) old = omega arith
apt_install-le false [] old = omega arith
apt_install-le false (p ∷ new) old = omega arith

apt_update-le :
    (update : Bool) (install : List String)
    → apt_weight (true, install) ≤ 1 + apt_weight (update, install)
apt_update-le true install = omega arith
apt_update-le false install = omega arith

merge_apt_loop-le :
    (operations : List AptOperation) (state : Bool × List String)
    → apt_weight (merge_apt_loop operations state) ≤ length operations + apt_weight state
unfolding merge_apt_loop
merge_apt_loop-le [] state = omega arith
merge_apt_loop-le (apt_update ∷ operations) (update, install) =
    omega (arith, merge_apt_loop-le operations (true, install), apt_update-le update install)
merge_apt_loop-le (apt_install packages ∷ operations) (update, install) = omega (
  arith,
  merge_apt_loop-le operations (update, insert_all packages install),
  apt_install-le update (insert_all packages install) install,
)

flagged {ℓ} :
    {A : Type ℓ} (b : Bool) (a : A) → length (if b then a ∷ [] else []) ≡ (if b then 1 else 0)
flagged true a = refl
flagged false a = refl

length-merge_apt :
    (operations : List AptOperation) → length (merge_apt operations) ≤ length operations
unfolding merge_apt
length-merge_apt operations =
    let merged = merge_apt_loop operations (false, []) in
    omega (
      arith,
      length-append (if merged.0 then apt_update ∷ [] else []) (push_apt_install merged.1),
      flagged merged.0 apt_update,
      merge_apt_loop-le operations (false, []),
    )

abbrev pacman_weight : Bool × List String → ℕ
pacman_weight (upgrade, install) = (if upgrade then 1 else 0) + length (push_pacman_install install)

pacman_install-le :
    (upgrade : Bool) (new old : List String)
    → pacman_weight (upgrade, new) ≤ 1 + pacman_weight (upgrade, old)
pacman_install-le true [] old = omega arith
pacman_install-le true (p ∷ new) old = omega arith
pacman_install-le false [] old = omega arith
pacman_install-le false (p ∷ new) old = omega arith

pacman_upgrade-le :
    (upgrade : Bool) (install : List String)
    → pacman_weight (true, install) ≤ 1 + pacman_weight (upgrade, install)
pacman_upgrade-le true install = omega arith
pacman_upgrade-le false install = omega arith

merge_pacman_loop-le :
    (operations : List PacmanOperation) (state : Bool × List String)
    → pacman_weight (merge_pacman_loop operations state) ≤ length operations + pacman_weight state
unfolding merge_pacman_loop
merge_pacman_loop-le [] state = omega arith
merge_pacman_loop-le (pacman_upgrade ∷ operations) (upgrade, install) =
    omega
      (arith, merge_pacman_loop-le operations (true, install), pacman_upgrade-le upgrade install)
merge_pacman_loop-le (pacman_install packages ∷ operations) (upgrade, install) = omega (
  arith,
  merge_pacman_loop-le operations (upgrade, insert_all packages install),
  pacman_install-le upgrade (insert_all packages install) install,
)

length-merge_pacman :
    (operations : List PacmanOperation) → length (merge_pacman operations) ≤ length operations
unfolding merge_pacman
length-merge_pacman operations =
    let merged = merge_pacman_loop operations (false, []) in
    omega (
      arith,
      length-append (if merged.0 then pacman_upgrade ∷ [] else []) (push_pacman_install merged.1),
      flagged merged.0 pacman_upgrade,
      merge_pacman_loop-le operations (false, []),
    )

-- How many operations the families have.
abbrev total : OperationsByType → ℕ
total by =
    length by.apts
    + (length by.apt_repos
        + (length by.pacmans
            + (length by.podmans
                + (length by.files
                    + (length by.directories
                        + (length by.commands
                            + (length by.gits
                                + (length by.systemds + (length by.users + length by.groups)))))))))

total-push : (by : OperationsByType) (op : Operation) → total (push by op) ≡ total by + 1
total-push by (apt op) = omega (arith, length-append by.apts (op ∷ []))
total-push by (apt_repo op) = omega (arith, length-append by.apt_repos (op ∷ []))
total-push by (pacman op) = omega (arith, length-append by.pacmans (op ∷ []))
total-push by (podman op) = omega (arith, length-append by.podmans (op ∷ []))
total-push by (file op) = omega (arith, length-append by.files (op ∷ []))
total-push by (directory op) = omega (arith, length-append by.directories (op ∷ []))
total-push by (command op) = omega (arith, length-append by.commands (op ∷ []))
total-push by (git op) = omega (arith, length-append by.gits (op ∷ []))
total-push by (systemd op) = omega (arith, length-append by.systemds (op ∷ []))
total-push by (user op) = omega (arith, length-append by.users (op ∷ []))
total-push by (group op) = omega (arith, length-append by.groups (op ∷ []))

total-partition_loop :
    (operations : List Operation) (by : OperationsByType)
    → total (partition_loop operations by) ≡ total by + length operations
unfolding partition_loop
total-partition_loop [] by = omega arith
total-partition_loop (op ∷ operations) by =
    omega (arith, total-partition_loop operations (push by op), total-push by op)

total-chain : (by : OperationsByType) → length (chain by) ≡ total by
unfolding chain
total-chain by = simp (length-append, length-map) (omega arith)

-- A merged batch has at most as many operations as the batch.
pub length-merge : (operations : List Operation) → length (merge operations) ≤ length operations
unfolding merge merge_families partition_by_type
length-merge operations =
    let by = partition_loop operations no_operations in
    omega (
      arith,
      total-chain (merge_families by),
      total-partition_loop operations no_operations,
      length-merge_apt by.apts,
      length-merge_pacman by.pacmans,
    )
