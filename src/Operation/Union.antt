-- ===== src/Operation/Union.antt =====
-- What the merge of a package manager's operations comes to.
use text.Mathlib.TextEquality.{path_by_compare}
use lusid.Base.{
  Bool, true, false, ◌||◌, List, [], ◌∷◌, ◌++◌, String, string_eq, contains, length, ◌≤◌, ◌=?◌, ◌≡◌,
  refl, ◌∙◌, arith, if◌then◌else◌,
}
use lusid.Operation.Packages.{
  insert, insert_all, AptOperation, apt_update, apt_install, merge_apt, merge_apt_loop,
  push_apt_install,
}

contains-insert :
    (p q : String) (set : List String) → contains (insert p set) q ≡ ((p =? q) || contains set q)
unfolding insert
contains-insert p q [] = ground arith
contains-insert p q (first ∷ set) = ground (arith, path_by_compare p first, contains-insert p q set)

contains-insert_all :
    (packages : List String) (q : String) (set : List String)
    → contains (insert_all packages set) q ≡ (contains packages q || contains set q)
unfolding insert_all
contains-insert_all [] q set = refl
contains-insert_all (p ∷ packages) q set =
    ground (arith, contains-insert_all packages q (insert p set), contains-insert p q set)

-- Whether a batch updates, and whether it installs a package.
abbrev pub updates : List AptOperation → Bool
updates [] = false
updates (apt_update ∷ operations) = true
updates (apt_install packages ∷ operations) = updates operations

abbrev pub installs : List AptOperation → String → Bool
installs [] q = false
installs (apt_update ∷ operations) q = installs operations q
installs (apt_install packages ∷ operations) q = contains packages q || installs operations q

merge_apt_loop-updates :
    (operations : List AptOperation) (update : Bool) (install : List String)
    → (merge_apt_loop operations (update, install)).0 ≡ (update || updates operations)
unfolding merge_apt_loop
merge_apt_loop-updates [] update install = ground arith
merge_apt_loop-updates (apt_update ∷ operations) update install =
    ground (arith, merge_apt_loop-updates operations true install)
merge_apt_loop-updates (apt_install packages ∷ operations) update install =
    merge_apt_loop-updates operations update (insert_all packages install)

merge_apt_loop-installs :
    (operations : List AptOperation) (update : Bool) (install : List String) (q : String)
    → contains (merge_apt_loop operations (update, install)).1 q
      ≡ (contains install q || installs operations q)
unfolding merge_apt_loop
merge_apt_loop-installs [] update install q = ground arith
merge_apt_loop-installs (apt_update ∷ operations) update install q =
    merge_apt_loop-installs operations true install q
merge_apt_loop-installs (apt_install packages ∷ operations) update install q = ground (
  arith,
  merge_apt_loop-installs operations update (insert_all packages install) q,
  contains-insert_all packages q install,
)

-- The merged batch installs just the packages that the batch installs, updates just if the batch
-- does, and has at most two operations.
pub merge_apt-union :
    (operations : List AptOperation)
    → ((q : String) → installs (merge_apt operations) q ≡ installs operations q)
      × (updates (merge_apt operations) ≡ updates operations)
      × (length (merge_apt operations) ≤ 2)
unfolding merge_apt
merge_apt-union operations = (
  λ q.
      batch-installs (merge_apt_loop operations (false, [])) q
      ∙ merge_apt_loop-installs operations false [] q,
  batch-updates (merge_apt_loop operations (false, []))
      ∙ merge_apt_loop-updates operations false [],
  batch-length (merge_apt_loop operations (false, [])),
)
  where
    batch-installs :
        (merged : Bool × List String) (q : String)
        → installs ((if merged.0 then apt_update ∷ [] else []) ++ push_apt_install merged.1) q
          ≡ contains merged.1 q
    batch-installs (true, []) q = refl
    batch-installs (false, []) q = refl
    batch-installs (true, p ∷ ps) q = ground arith
    batch-installs (false, p ∷ ps) q = ground arith

    batch-updates :
        (merged : Bool × List String)
        → updates ((if merged.0 then apt_update ∷ [] else []) ++ push_apt_install merged.1)
          ≡ merged.0
    batch-updates (true, []) = refl
    batch-updates (false, []) = refl
    batch-updates (true, p ∷ ps) = refl
    batch-updates (false, p ∷ ps) = refl

    batch-length :
        (merged : Bool × List String)
        → length ((if merged.0 then apt_update ∷ [] else []) ++ push_apt_install merged.1) ≤ 2
    batch-length (true, []) = omega arith
    batch-length (false, []) = omega arith
    batch-length (true, p ∷ ps) = omega arith
    batch-length (false, p ∷ ps) = omega arith
