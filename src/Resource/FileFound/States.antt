-- ===== src/Resource/FileFound/States.antt =====
-- resource/src/resources/file.rs: the state of each kind of file resource, and what it leads to.
use lusid.Base.{
  ◌≡◌, inl, inr, refl, sym, ap, subst, ◌∙◌, String, string_eq, Option-cases, ok, map_err,
  map_err-eq-ok, >>=-eq-ok, ok-injective, ok-ne-err,
}
use mathlib.Core.Option.{some-injective, some-ne-none}
use lusid.Operation.Types.{FilePath}
use lusid.Resource.File.{
  Disk, same_bytes, FileResource, sourced_file, linked_file, secret_file, present_file, absent_file,
  file_mode, file_user, file_group, FileState, file_is_sourced, file_not_sourced, file_is_linked,
  file_not_linked, file_is_present, file_is_absent, file_fs_error, file_probe_linked_state,
  secret_state, file_state, file_change,
}
use lusid.Resource.FileFound.{
  wanted, IsAsAsked, Answered, same_bytes-eq, same_bytes-of, agree, clash, apart, settle, probed,
}
use lusid.Resource.FileFound.Owners.{found_mode, found_user, found_group}

module _ {E : Type 0} (disk : Disk E) where
  found_sourced :
      (source target : FilePath) {st : FileState}
      → file_state disk (sourced_file source target) ≡ ok st
      → Answered disk (sourced_file source target) st
  unfolding file_state file_change IsAsAsked wanted
  found_sourced source target {st} h =
      let resource = sourced_file source target in
      let write : ¬ IsAsAsked disk resource → Answered disk resource file_not_sourced =
        λ unmet. inr (refl, unmet) in
      elim (probed disk target file_not_sourced _ h) [
        | inr (gone, same) ↦ subst (Answered disk resource) same (write λ asked. apart asked.0 gone)
        | inl (there, reads) ↦
            let source_read =
              >>=-eq-ok (map_err file_fs_error (disk.read_file_to_bytes source)) _ reads in
            let found =
              >>=-eq-ok (map_err file_fs_error (disk.read_file_to_bytes target)) _ source_read.2 in
            settle disk resource (same_bytes source_read.0 found.0) file_is_sourced file_not_sourced
              (λ is. inl (
                refl,
                (
                  there,
                  source_read.0,
                  map_err-eq-ok file_fs_error (disk.read_file_to_bytes source) source_read.1,
                  map_err-eq-ok file_fs_error (disk.read_file_to_bytes target) found.1
                      ∙ ap ok (sym (same_bytes-eq source_read.0 found.0 is)),
                ),
              ))
              (λ differ. write λ asked.
                clash
                  (same_bytes-of
                    (agree
                      (map_err-eq-ok file_fs_error (disk.read_file_to_bytes source) source_read.1)
                      asked.2)
                    (agree (map_err-eq-ok file_fs_error (disk.read_file_to_bytes target) found.1)
                      asked.3))
                  differ)
              found.2
      ]

  found_linked :
      (source target : FilePath) {st : FileState}
      → file_state disk (linked_file source target) ≡ ok st
      → Answered disk (linked_file source target) st
  unfolding file_state file_probe_linked_state file_change IsAsAsked wanted
  found_linked source target h =
      let resource = linked_file source target in
      let change : ¬ IsAsAsked disk resource → Answered disk resource file_not_linked =
        λ unmet. inr (refl, unmet) in
      let link = >>=-eq-ok (map_err file_fs_error (disk.probe_symlink target)) _ h in
      let probe = map_err-eq-ok file_fs_error (disk.probe_symlink target) link.1 in
      elim (Option-cases link.0) [
        | inl gone ↦
            subst (Answered disk resource) (ok-injective (rw gone at link.2))
              (change λ asked. absurd (some-ne-none _ (agree asked.1 (probe ∙ ap ok gone))))
        | inr (to, is) ↦
            settle disk resource (disk.same_path to source) file_is_linked file_not_linked
              (λ same. inl (refl, (to, probe ∙ ap ok is, same)))
              (λ differ. change λ asked.
                clash
                  (ap (λ t. disk.same_path t source)
                      (some-injective _ _ (agree (probe ∙ ap ok is) asked.1))
                    ∙ asked.2)
                  differ)
              (rw is at link.2)
      ]

  found_secret :
      (name : String) (target : FilePath) {st : FileState}
      → file_state disk (secret_file name target) ≡ ok st
      → Answered disk (secret_file name target) st
  unfolding file_state secret_state file_change IsAsAsked wanted
  found_secret name target h =
      let resource = secret_file name target in
      let write : ¬ IsAsAsked disk resource → Answered disk resource file_not_sourced =
        λ unmet. inr (refl, unmet) in
      elim (probed disk target file_not_sourced _ h) [
        | inr (gone, same) ↦ subst (Answered disk resource) same (write λ asked. apart asked.0 gone)
        | inl (there, reads) ↦ elim (Option-cases (disk.find_secret name)) [
          | inl gone ↦ absurd (ok-ne-err (sym (rw gone at reads)))
          | inr (plain, is) ↦
              let found =
                >>=-eq-ok (map_err file_fs_error (disk.read_file_to_bytes target)) _
                  (rw is at reads) in
              settle disk resource (same_bytes found.0 plain) file_is_sourced file_not_sourced
                (λ same. inl (
                  refl,
                  (
                    there,
                    plain,
                    is,
                    map_err-eq-ok file_fs_error (disk.read_file_to_bytes target) found.1
                        ∙ ap ok (same_bytes-eq found.0 plain same),
                  ),
                ))
                (λ differ. write λ asked.
                  clash
                    (same_bytes-of
                      (agree (map_err-eq-ok file_fs_error (disk.read_file_to_bytes target) found.1)
                        asked.3)
                      (some-injective _ _ (sym is ∙ asked.2)))
                    differ)
                found.2
        ]
      ]

  found_present :
      (target : FilePath) {st : FileState}
      → file_state disk (present_file target) ≡ ok st
      → Answered disk (present_file target) st
  unfolding file_state file_change IsAsAsked wanted
  found_present target h =
      let there = >>=-eq-ok (map_err file_fs_error (disk.path_exists target)) _ h in
      let exists = map_err-eq-ok file_fs_error (disk.path_exists target) there.1 in
      settle disk (present_file target) there.0 file_is_present file_is_absent
        (λ is. inl (refl, exists ∙ ap ok is))
        (λ is. inr (refl, λ asked. apart asked (exists ∙ ap ok is))) there.2

  found_absent :
      (target : FilePath) {st : FileState}
      → file_state disk (absent_file target) ≡ ok st
      → Answered disk (absent_file target) st
  unfolding file_state file_change IsAsAsked wanted
  found_absent target h =
      let there = >>=-eq-ok (map_err file_fs_error (disk.path_exists target)) _ h in
      let exists = map_err-eq-ok file_fs_error (disk.path_exists target) there.1 in
      settle disk (absent_file target) there.0 file_is_present file_is_absent
        (λ is. inr (refl, λ asked. apart (exists ∙ ap ok is) asked))
        (λ is. inl (refl, exists ∙ ap ok is)) there.2

  -- If the state of a file's resource is found, then the change for it is found too, without a
  -- panic. It is none and the file system is as the resource asks, with the contents, the link,
  -- the presence, the mode bits or the owner asked for; or it is the change that brings about what
  -- the resource asks for, and the file system is not as it asks.
  pub file_state-Answered :
      (resource : FileResource) (state : FileState)
      → file_state disk resource ≡ ok state
      → Answered disk resource state
  file_state-Answered (sourced_file source target) state h = found_sourced source target h
  file_state-Answered (linked_file source target) state h = found_linked source target h
  file_state-Answered (secret_file name target) state h = found_secret name target h
  file_state-Answered (present_file target) state h = found_present target h
  file_state-Answered (absent_file target) state h = found_absent target h
  file_state-Answered (file_mode target mode) state h = found_mode disk target mode h
  file_state-Answered (file_user target user) state h = found_user disk target user h
  file_state-Answered (file_group target group) state h = found_group disk target group h
