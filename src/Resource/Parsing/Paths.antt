-- ===== src/Resource/Parsing/Paths.antt =====
-- The `ParseParams` of resource/src/resources/: user.rs, file.rs, directory.rs and secret.rs, whose
-- parameters name paths of the machine.
use lusid.Base.{
  ℕ, Option, none, some, String, string_eq, ◌=?◌, if◌then◌else◌, [], ◌∷◌, ok, ◌>>=◌, ◌>>◌,
}
use lusid.Operation.Types.{FilePath, FileMode, FileUser, FileGroup}
use lusid.Params.Value.{Platform, Spanned, Value}
use lusid.Params.Parse.{Parsed, Read, StructFields}
use lusid.Params.Fields.{
  new, take_discriminator, required_string, optional_string, optional_bool, optional_u32,
  required_host_path_spanned, required_target_path, optional_target_path, optional_string_list,
  finish,
}
use lusid.Resource.Params.{
  UserParams, user_present, user_gone, Owned, FileParams, file_sourced, file_linked, file_present,
  file_absent, DirectoryParams, directory_sourced, directory_linked, directory_present,
  directory_absent, SecretParams,
}

abbrev pub to_path : String → FilePath
to_path value = record { value = value }

-- `map(FilePath::new)`, `map(FileMode::new)`, `map(FileUser::new)` and `map(FileGroup::new)`
abbrev pub to_path? : Option String → Option FilePath
to_path? none = none
to_path? (some value) = some (record { value = value })

abbrev pub to_mode : Option ℕ → Option FileMode
to_mode none = none
to_mode (some value) = some (record { value = value })

abbrev pub to_user : Option String → Option FileUser
to_user none = none
to_user (some value) = some (record { value = value })

abbrev pub to_group : Option String → Option FileGroup
to_group none = none
to_group (some value) = some (record { value = value })

module _ {p : Platform} where
  unfoldable pub user_present_fields : StructFields p → Read p UserParams
  user_present_fields fields = do
    (name, fields) ← required_string "name" fields
    (uid, fields) ← optional_u32 "uid" fields
    (group, fields) ← optional_string "group" fields
    (append_groups, fields) ← optional_string_list "append_groups" fields
    (comment, fields) ← optional_string "comment" fields
    (home, fields) ← optional_target_path "home" fields
    (shell, fields) ← optional_string "shell" fields
    (system, fields) ← optional_bool "system" fields
    (create_home, fields) ← optional_bool "create_home" fields
    ok (
      user_present (record {
        name = name;
        uid = uid;
        group = group;
        append_groups = append_groups;
        comment = comment;
        home = to_path? home;
        shell = shell;
        system = system;
        create_home = create_home;
      }),
      fields,
    )

  unfoldable pub user_absent_fields : StructFields p → Read p UserParams
  user_absent_fields fields = do
    (name, fields) ← required_string "name" fields
    (remove_home, fields) ← optional_bool "remove_home" fields
    ok (user_gone name remove_home, fields)

  unfoldable pub parse_user : Spanned (Value p) → Parsed p UserParams
  parse_user value = do
    fields ← new value
    (state, fields) ← take_discriminator "state" ("present" ∷ "absent" ∷ []) fields
    (out, fields) ←
        (if state =? "present" then user_present_fields fields else user_absent_fields fields)
    finish fields
    ok out

  -- `mode`, `user` and `group`
  unfoldable pub owned_fields : StructFields p → Read p Owned
  owned_fields fields = do
    (mode, fields) ← optional_u32 "mode" fields
    (user, fields) ← optional_string "user" fields
    (group, fields) ← optional_string "group" fields
    ok (record { mode = to_mode mode; user = to_user user; group = to_group group }, fields)

  unfoldable pub file_fields : String → StructFields p → Read p FileParams
  file_fields state fields =
      if state =? "sourced"
      then (do
        (source, fields) ← required_host_path_spanned "source" fields
        (path, fields) ← required_target_path "path" fields
        (owned, fields) ← owned_fields fields
        ok (file_sourced (to_path source.inner) source.span (to_path path) owned, fields))
      else if state =? "linked"
      then (do
        (source, fields) ← required_host_path_spanned "source" fields
        (path, fields) ← required_target_path "path" fields
        ok (file_linked (to_path source.inner) source.span (to_path path), fields))
      else if state =? "present"
      then (do
        (path, fields) ← required_target_path "path" fields
        (owned, fields) ← owned_fields fields
        ok (file_present (to_path path) owned, fields))
      else (do
        (path, fields) ← required_target_path "path" fields
        ok (file_absent (to_path path), fields))

  unfoldable pub parse_file : Spanned (Value p) → Parsed p FileParams
  parse_file value = do
    fields ← new value
    (state, fields) ←
        take_discriminator "state" ("sourced" ∷ "linked" ∷ "present" ∷ "absent" ∷ []) fields
    (out, fields) ← file_fields state fields
    finish fields
    ok out

  unfoldable pub directory_fields : String → StructFields p → Read p DirectoryParams
  directory_fields state fields =
      if state =? "sourced"
      then (do
        (source, fields) ← required_host_path_spanned "source" fields
        (path, fields) ← required_target_path "path" fields
        (owned, fields) ← owned_fields fields
        ok (directory_sourced (to_path source.inner) source.span (to_path path) owned, fields))
      else if state =? "linked"
      then (do
        (source, fields) ← required_host_path_spanned "source" fields
        (path, fields) ← required_target_path "path" fields
        ok (directory_linked (to_path source.inner) source.span (to_path path), fields))
      else if state =? "present"
      then (do
        (path, fields) ← required_target_path "path" fields
        (owned, fields) ← owned_fields fields
        ok (directory_present (to_path path) owned, fields))
      else (do
        (path, fields) ← required_target_path "path" fields
        ok (directory_absent (to_path path), fields))

  unfoldable pub parse_directory : Spanned (Value p) → Parsed p DirectoryParams
  parse_directory value = do
    fields ← new value
    (state, fields) ←
        take_discriminator "state" ("sourced" ∷ "linked" ∷ "present" ∷ "absent" ∷ []) fields
    (out, fields) ← directory_fields state fields
    finish fields
    ok out

  unfoldable pub parse_secret : Spanned (Value p) → Parsed p SecretParams
  parse_secret value = do
    fields ← new value
    (name, fields) ← required_string "name" fields
    (path, fields) ← required_target_path "path" fields
    (mode, fields) ← optional_u32 "mode" fields
    (user, fields) ← optional_string "user" fields
    (group, fields) ← optional_string "group" fields
    finish fields
    ok (record {
      name = name;
      path = to_path path;
      mode = to_mode mode;
      user = to_user user;
      group = to_group group;
    })
