-- ===== src/Resource/FileFound/Owners.antt =====
-- resource/src/resources/file.rs: the states of a file's mode bits and of its owner.
use lusid.Base.{
  ◌≡◌, inl, inr, refl, ap, subst, ◌∙◌, string_eq, ◌==◌, ok, ℕ, true, arith, map_err, map_err-eq-ok,
  >>=-eq-ok,
}
use Prim.Native.Nat.{◌%◌}
use lusid.Operation.Types.{FilePath, FileMode, FileUser, FileGroup}
use lusid.Resource.Git.{is_at}
use lusid.Resource.File.{
  Disk, file_mode, file_user, file_group, FileState, file_mode_correct, file_mode_incorrect,
  file_user_correct, file_user_incorrect, file_group_correct, file_group_incorrect, file_fs_error,
  file_state, file_change,
}
use lusid.Resource.FileFound.{
  wanted, IsAsAsked, Answered, is_at-eq, is_at-of, agree, clash, apart, equal, settle, probed,
}

same_number : {a b n : ℕ} → a ≡ b → b % 4096 ≡ n → (a % 4096 == n) ≡ true
same_number p q = ground (arith, p, q)

module _ {E : Type 0} (disk : Disk E) where
  pub found_mode :
      (target : FilePath) (mode : FileMode) {st : FileState}
      → file_state disk (file_mode target mode) ≡ ok st
      → Answered disk (file_mode target mode) st
  unfolding file_state file_change IsAsAsked wanted
  found_mode target mode h =
      let resource = file_mode target mode in
      let change : ¬ IsAsAsked disk resource → Answered disk resource file_mode_incorrect =
        λ unmet. inr (refl, unmet) in
      elim (probed disk target file_mode_incorrect _ h) [
        | inr (gone, same) ↦
            subst (Answered disk resource) same (change λ asked. apart asked.0 gone)
        | inl (there, reads) ↦
            let actual = >>=-eq-ok (map_err file_fs_error (disk.get_mode target)) _ reads in
            settle disk resource (actual.0 % 4096 == mode.value) file_mode_correct
              file_mode_incorrect
              (λ is. inl (
                refl,
                (
                  there,
                  actual.0,
                  map_err-eq-ok file_fs_error (disk.get_mode target) actual.1,
                  equal (actual.0 % 4096) mode.value is,
                ),
              ))
              (λ differ. change λ asked.
                clash
                  (same_number
                    (agree (map_err-eq-ok file_fs_error (disk.get_mode target) actual.1) asked.2)
                    asked.3)
                  differ)
              actual.2
      ]

  pub found_user :
      (target : FilePath) (user : FileUser) {st : FileState}
      → file_state disk (file_user target user) ≡ ok st
      → Answered disk (file_user target user) st
  unfolding file_state file_change IsAsAsked wanted
  found_user target user h =
      let resource = file_user target user in
      let change : ¬ IsAsAsked disk resource → Answered disk resource file_user_incorrect =
        λ unmet. inr (refl, unmet) in
      elim (probed disk target file_user_incorrect _ h) [
        | inr (gone, same) ↦
            subst (Answered disk resource) same (change λ asked. apart asked.0 gone)
        | inl (there, reads) ↦
            let actual = >>=-eq-ok (map_err file_fs_error (disk.get_owner_user target)) _ reads in
            settle disk resource (is_at actual.0 user.value) file_user_correct file_user_incorrect
              (λ is. inl (
                refl,
                (
                  there,
                  map_err-eq-ok file_fs_error (disk.get_owner_user target) actual.1
                      ∙ ap ok (is_at-eq actual.0 user.value is),
                ),
              ))
              (λ differ. change λ asked.
                clash
                  (is_at-of (
                    agree (map_err-eq-ok file_fs_error (disk.get_owner_user target) actual.1)
                      asked.1))
                  differ)
              actual.2
      ]

  pub found_group :
      (target : FilePath) (group : FileGroup) {st : FileState}
      → file_state disk (file_group target group) ≡ ok st
      → Answered disk (file_group target group) st
  unfolding file_state file_change IsAsAsked wanted
  found_group target group h =
      let resource = file_group target group in
      let change : ¬ IsAsAsked disk resource → Answered disk resource file_group_incorrect =
        λ unmet. inr (refl, unmet) in
      elim (probed disk target file_group_incorrect _ h) [
        | inr (gone, same) ↦
            subst (Answered disk resource) same (change λ asked. apart asked.0 gone)
        | inl (there, reads) ↦
            let actual = >>=-eq-ok (map_err file_fs_error (disk.get_owner_group target)) _ reads in
            settle disk resource (is_at actual.0 group.value) file_group_correct
              file_group_incorrect
              (λ is. inl (
                refl,
                (
                  there,
                  map_err-eq-ok file_fs_error (disk.get_owner_group target) actual.1
                      ∙ ap ok (is_at-eq actual.0 group.value is),
                ),
              ))
              (λ differ. change λ asked.
                clash
                  (is_at-of (
                    agree (map_err-eq-ok file_fs_error (disk.get_owner_group target) actual.1)
                      asked.1))
                  differ)
              actual.2
      ]
