-- ===== src/Operation/Tests.antt =====
-- A batch merged, and the theorems at it.
use lusid.Base.{List, [], ◌∷◌, String, string_eq, length, ◌≤◌, ◌≡◌, refl}
use lusid.Operation.{
  Operation, apt, file, partition_by_type, partition_loop, merge, merge_families, chain,
}
use lusid.Operation.Types.{remove_file, FilePath}
use lusid.Operation.Packages.{
  AptOperation, apt_update, apt_install, merge_apt, merge_apt_loop, merge_pacman, merge_pacman_loop,
  insert, insert_all,
}
use lusid.Operation.Union.{installs, updates, merge_apt-union}
use lusid.Operation.Partition.{families, families-merge}
use lusid.Operation.Fewer.{length-merge}

program : Unit {0}
unfolding merge merge_families chain partition_by_type partition_loop merge_apt merge_apt_loop
    merge_pacman merge_pacman_loop insert insert_all
program = tt

abbrev old : FilePath
old = record { value = "/old" }

abbrev apt_batch : List AptOperation
apt_batch =
    apt_update ∷ apt_install ("vim" ∷ []) ∷ apt_update ∷ apt_install ("curl" ∷ "vim" ∷ []) ∷ []

abbrev batch : List Operation
batch =
    apt apt_update
    ∷ apt (apt_install ("vim" ∷ []))
    ∷ file (remove_file old)
    ∷ apt apt_update
    ∷ apt (apt_install ("curl" ∷ "vim" ∷ []))
    ∷ []

merge-batch :
    merge batch
    ≡ apt apt_update ∷ apt (apt_install ("curl" ∷ "vim" ∷ [])) ∷ file (remove_file old) ∷ []
unfolding program
merge-batch = refl

merge_apt-union_example :
    ((q : String) → installs (merge_apt apt_batch) q ≡ installs apt_batch q)
    × (updates (merge_apt apt_batch) ≡ updates apt_batch)
    × (length (merge_apt apt_batch) ≤ 2)
merge_apt-union_example = merge_apt-union apt_batch

families-merge_example :
    (partition_by_type batch ≡ families batch)
    × (families (merge batch) ≡ record (families batch) {
      apts = merge_apt (families batch).apts;
      pacmans = merge_pacman (families batch).pacmans;
    })
families-merge_example = families-merge batch

length-merge_example : length (merge batch) ≤ length batch
length-merge_example = length-merge batch
