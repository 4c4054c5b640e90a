-- ===== src/Resource/FileFound.antt =====
-- resource/src/resources/file.rs: the state that a file is found in and the change for it.
mod Owners
mod States
mod Tests
use mathlib.Core.Logic.{if_neg}
use lusid.Base.{
  ℕ, ◌≡◌, ◌⊎◌, inl, inr, refl, sym, ◌∙◌, ap, subst, Option, none, some, List, [], ◌∷◌, String,
  string_eq, Bool, true, false, Bool-cases, if◌then◌else◌, ◌==◌, Result, ok, map_err, map_err-eq-ok,
  >>=-eq-ok, ok-injective, arith,
}
use Prim.Native.Nat.{◌%◌}
use lusid.Operation.Types.{FilePath, contents, path, secret}
use lusid.Resource.Git.{is_at}
use lusid.Resource.File.{
  Disk, same_bytes, FileResource, sourced_file, linked_file, secret_file, present_file, absent_file,
  file_mode, file_user, file_group, FileState, FileStateError, file_fs_error, FileChange,
  write_change, symlink_change, remove_change, mode_change, owner_change, file_if_there,
  file_change,
}

-- The change that brings about what a resource asks for.
unfoldable pub wanted : FileResource → FileChange
wanted (sourced_file source target) = write_change target (path source)
wanted (linked_file source target) = symlink_change source target
wanted (secret_file name target) = write_change target (secret name)
wanted (present_file target) = write_change target (contents [])
wanted (absent_file target) = remove_change target
wanted (file_mode target mode) = mode_change target mode
wanted (file_user target user) = owner_change target (some user) none
wanted (file_group target group) = owner_change target none (some group)

pub same_bytes-eq : (left right : List ℕ) → same_bytes left right ≡ true → left ≡ right
unfolding same_bytes
same_bytes-eq [] [] h = refl
same_bytes-eq [] (b ∷ right) h = cc
same_bytes-eq (a ∷ left) [] h = cc
same_bytes-eq (a ∷ left) (b ∷ right) h = elim (Bool-cases (a == b)) [
  | inl same ↦
      let heads : a ≡ b = ground arith in let tails = same_bytes-eq left right (rw same at h) in cc
  | inr differ ↦ let f : false ≡ true = rw differ at h in cc
]

pub same_bytes_refl : (bytes : List ℕ) → same_bytes bytes bytes ≡ true
unfolding same_bytes
same_bytes_refl [] = refl
same_bytes_refl (b ∷ bytes) = ground (arith, same_bytes_refl bytes)

pub is_at_refl : (s : String) → is_at (some s) s ≡ true
is_at_refl s = ground arith

pub same_bytes-of :
    {left right bytes : List ℕ} → left ≡ bytes → right ≡ bytes → same_bytes left right ≡ true
same_bytes-of {left} {right} {bytes} p q = rw (p, q) (same_bytes_refl bytes)

pub is_at-of : {at : Option String} {s : String} → at ≡ some s → is_at at s ≡ true
is_at-of {at} {s} p = rw p (is_at_refl s)

-- Two results of one computation, and two answers that one test cannot give.
pub agree : {E A : Type 0} {r : Result E A} {a b : A} → r ≡ ok a → r ≡ ok b → a ≡ b
agree p q = ok-injective (sym p ∙ q)

pub clash : {b : Bool} → b ≡ true → b ≡ false → ⊥
clash p q = absurd cc

pub apart : {E : Type 0} {r : Result E Bool} → r ≡ ok true → r ≡ ok false → ⊥
apart p q = clash refl (agree p q)

pub is_at-eq : (at : Option String) (s : String) → is_at at s ≡ true → at ≡ some s
is_at-eq none s h = cc
is_at-eq (some at) s h = elim (string_eq.dec at s) [
  | yes same ↦ ap some same
  | no differ ↦ let f : false ≡ true = rw (if_neg _ differ) at h in cc
]

pub equal : (a b : ℕ) → (a == b) ≡ true → a ≡ b
equal a b h = ground arith

picked :
    {E : Type 0} (b : Bool) (x y : FileState) {st : FileState}
    → ◌≡◌ {A = Result (FileStateError E) FileState} (ok (if b then x else y)) (ok st)
    → ((b ≡ true) × (x ≡ st)) ⊎ ((b ≡ false) × (y ≡ st))
picked true x y h = inl (refl, ok-injective h)
picked false x y h = inr (refl, ok-injective h)

module _ {E : Type 0} (disk : Disk E) where
  -- The file system has what the resource asks for.
  unfoldable pub IsAsAsked : FileResource → Type 0
  IsAsAsked (sourced_file source target) =
      (disk.path_exists target ≡ ok true)
      × (bytes : List ℕ) × (disk.read_file_to_bytes source ≡ ok bytes)
      × (disk.read_file_to_bytes target ≡ ok bytes)
  IsAsAsked (linked_file source target) =
      (to : String) × (disk.probe_symlink target ≡ ok (some to)) × (disk.same_path to source ≡ true)
  IsAsAsked (secret_file name target) =
      (disk.path_exists target ≡ ok true)
      × (bytes : List ℕ) × (disk.find_secret name ≡ some bytes)
      × (disk.read_file_to_bytes target ≡ ok bytes)
  IsAsAsked (present_file target) = disk.path_exists target ≡ ok true
  IsAsAsked (absent_file target) = disk.path_exists target ≡ ok false
  IsAsAsked (file_mode target mode) =
      (disk.path_exists target ≡ ok true)
      × (actual : ℕ) × (disk.get_mode target ≡ ok actual)
      × (actual % 4096 ≡ mode.value)
  IsAsAsked (file_user target user) =
      (disk.path_exists target ≡ ok true) × (disk.get_owner_user target ≡ ok (some user.value))
  IsAsAsked (file_group target group) =
      (disk.path_exists target ≡ ok true) × (disk.get_owner_group target ≡ ok (some group.value))

  -- No change, and all is as asked; or the change that brings that about, and it is not.
  abbrev pub Answered : FileResource → FileState → Type 0
  Answered resource state =
      ((file_change resource state ≡ ok none) × IsAsAsked resource)
      ⊎ ((file_change resource state ≡ ok (some (wanted resource))) × (¬ IsAsAsked resource))

  pub probed :
      (target : FilePath) (absent : FileState) (probe : Result (FileStateError E) FileState)
      {st : FileState}
      → file_if_there disk target absent probe ≡ ok st
      → ((disk.path_exists target ≡ ok true) × (probe ≡ ok st))
        ⊎ ((disk.path_exists target ≡ ok false) × (absent ≡ st))
  unfolding file_if_there
  probed target absent probe h =
      let there = >>=-eq-ok (map_err file_fs_error (disk.path_exists target)) _ h in
      let exists = map_err-eq-ok file_fs_error (disk.path_exists target) there.1 in
      elim (Bool-cases there.0) [
        | inl yes_ ↦ inl (rw yes_ at exists, rw yes_ at there.2)
        | inr no_ ↦ inr (rw no_ at exists, ok-injective (rw no_ at there.2))
      ]

  -- The state that was picked by a test, each way.
  pub settle :
      (resource : FileResource) (b : Bool) (x y : FileState) {st : FileState}
      → (b ≡ true → Answered resource x)
      → (b ≡ false → Answered resource y)
      → ◌≡◌ {A = Result (FileStateError E) FileState} (ok (if b then x else y)) (ok st)
      → Answered resource st
  settle resource b x y good bad h = elim (picked b x y h) [
    | inl (is, same) ↦ subst (Answered resource) same (good is)
    | inr (is, same) ↦ subst (Answered resource) same (bad is)
  ]
