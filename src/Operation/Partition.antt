-- ===== src/Operation/Partition.antt =====
-- How `partition_by_type` and `merge` treat the families.
use lusid.Base.{List, [], ◌∷◌, ◌++◌, map, append-nil, append_assoc, ◌≡◌, refl, ◌∙◌, sym, ap}
use lusid.Operation.Packages.{merge_apt, merge_pacman}
use lusid.Operation.{
  Operation, apt, apt_repo, pacman, podman, file, directory, command, git, systemd, user, group,
  OperationsByType, no_operations, push, partition_loop, partition_by_type, merge_families, chain,
  merge,
}

-- The families of two batches, one behind the other.
abbrev join : OperationsByType → OperationsByType → OperationsByType
join a b = record {
  apts = a.apts ++ b.apts;
  apt_repos = a.apt_repos ++ b.apt_repos;
  pacmans = a.pacmans ++ b.pacmans;
  podmans = a.podmans ++ b.podmans;
  files = a.files ++ b.files;
  directories = a.directories ++ b.directories;
  commands = a.commands ++ b.commands;
  gits = a.gits ++ b.gits;
  systemds = a.systemds ++ b.systemds;
  users = a.users ++ b.users;
  groups = a.groups ++ b.groups;
}

-- An operation put in front of the others of its family.
abbrev pub front : Operation → OperationsByType → OperationsByType
front (apt op) by = record by { apts = op ∷ by.apts }
front (apt_repo op) by = record by { apt_repos = op ∷ by.apt_repos }
front (pacman op) by = record by { pacmans = op ∷ by.pacmans }
front (podman op) by = record by { podmans = op ∷ by.podmans }
front (file op) by = record by { files = op ∷ by.files }
front (directory op) by = record by { directories = op ∷ by.directories }
front (command op) by = record by { commands = op ∷ by.commands }
front (git op) by = record by { gits = op ∷ by.gits }
front (systemd op) by = record by { systemds = op ∷ by.systemds }
front (user op) by = record by { users = op ∷ by.users }
front (group op) by = record by { groups = op ∷ by.groups }

-- The families of a batch: the operations of each, in the order of the batch.
abbrev pub families : List Operation → OperationsByType
families [] = no_operations
families (op ∷ operations) = front op (families operations)

join-none : (a : OperationsByType) → join a no_operations ≡ a
join-none a = simp append-nil

push-join :
    (by later : OperationsByType) (op : Operation)
    → join (push by op) later ≡ join by (front op later)
push-join by later (apt op) = simp append_assoc
push-join by later _ = simp append_assoc

front-join : (op : Operation) (a b : OperationsByType) → join (front op a) b ≡ front op (join a b)
front-join (apt op) a b = refl
front-join _ a b = refl

partition_loop-join :
    (operations : List Operation) (by : OperationsByType)
    → partition_loop operations by ≡ join by (families operations)
unfolding partition_loop
partition_loop-join [] by = sym (join-none by)
partition_loop-join (op ∷ operations) by =
    partition_loop-join operations (push by op) ∙ push-join by (families operations) op

partition-families :
    (operations : List Operation) → partition_by_type operations ≡ families operations
unfolding partition_by_type
partition-families operations = partition_loop-join operations no_operations

families-append : (xs ys : List Operation) → families (xs ++ ys) ≡ join (families xs) (families ys)
families-append [] ys = refl
families-append (x ∷ xs) ys =
    ap (front x) (families-append xs ys) ∙ sym (front-join x (families xs) (families ys))

-- A batch of one family, given where its vector stands.
families-map :
    {A : Type 0} (wrap : A → Operation) (only : List A → OperationsByType)
    → only [] ≡ no_operations
    → ((x : A) (xs : List A) → front (wrap x) (only xs) ≡ only (x ∷ xs))
    → (xs : List A) → families (map wrap xs) ≡ only xs
families-map wrap only none more [] = sym none
families-map wrap only none more (x ∷ xs) =
    ap (front (wrap x)) (families-map wrap only none more xs) ∙ more x xs

families-chain : (by : OperationsByType) → families (chain by) ≡ by
unfolding chain
families-chain by =
    rw
      (
        families-append,
        families-append,
        families-append,
        families-append,
        families-append,
        families-append,
        families-append,
        families-append,
        families-append,
        families-append,
        families-map apt (λ xs. record no_operations { apts = xs }) refl (λ x xs. refl),
        families-map apt_repo (λ xs. record no_operations { apt_repos = xs }) refl (λ x xs. refl),
        families-map pacman (λ xs. record no_operations { pacmans = xs }) refl (λ x xs. refl),
        families-map podman (λ xs. record no_operations { podmans = xs }) refl (λ x xs. refl),
        families-map file (λ xs. record no_operations { files = xs }) refl (λ x xs. refl),
        families-map directory (λ xs. record no_operations { directories = xs }) refl
            (λ x xs. refl),
        families-map command (λ xs. record no_operations { commands = xs }) refl (λ x xs. refl),
        families-map git (λ xs. record no_operations { gits = xs }) refl (λ x xs. refl),
        families-map systemd (λ xs. record no_operations { systemds = xs }) refl (λ x xs. refl),
        families-map user (λ xs. record no_operations { users = xs }) refl (λ x xs. refl),
        families-map group (λ xs. record no_operations { groups = xs }) refl (λ x xs. refl),
      )
      (simp append-nil)

-- `partition_by_type` gives the families of a batch: the operations of each, in the order of the
-- batch. The families of the merged batch are those of the batch, the apt and pacman operations
-- merged by `merge_apt` and `merge_pacman` and the other nine families as they are, in the same
-- order.
pub families-merge :
    (operations : List Operation)
    → (partition_by_type operations ≡ families operations)
      × (families (merge operations) ≡ record (families operations) {
        apts = merge_apt (families operations).apts;
        pacmans = merge_pacman (families operations).pacmans;
      })
unfolding merge merge_families
families-merge operations =
    let parted = partition-families operations in
    (
      parted,
      families-chain (merge_families (partition_by_type operations)) ∙ ap merge_families parted,
    )
