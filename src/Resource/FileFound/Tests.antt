-- ===== src/Resource/FileFound/Tests.antt =====
-- Files on a concrete file system, and the theorems there.
use lusid.Base.{◌≡◌, refl, none, some, [], ◌∷◌, String, string_eq, ◌=?◌, if◌then◌else◌, ok, err}
use lusid.Tree.{leaf}
use lusid.Causality.Meta
use lusid.Operation.Types.{FilePath}
use lusid.Resource.Params.{SecretParams}
use lusid.Resource.File.{
  Disk, FileResource, secret_file, file_mode, file_state, file_change, file_if_there, same_bytes,
  secret_state, file_not_sourced, file_mode_incorrect, missing_secret, secret_resources, file_atom,
}
use lusid.Resource.FileFound.{Answered}
use lusid.Resource.FileFound.States.{file_state-Answered}

program : Unit {0}
unfolding file_state file_change file_if_there same_bytes secret_state secret_resources file_atom
    string_eq
program = tt

abbrev at : FilePath
at = record { value = "/etc/app.conf" }

abbrev new : FilePath
new = record { value = "/etc/new.conf" }

-- One file is there, with mode 0o100644, which is 33188.
abbrev disk : Disk String
disk = record {
  path_exists = λ p. ok (p.value =? "/etc/app.conf");
  read_file_to_bytes =
      λ p. if p.value =? "/etc/app.conf" then ok (104 ∷ 105 ∷ []) else err "not found";
  probe_symlink = λ p. ok none;
  same_path = λ to p. to =? p.value;
  get_mode = λ p. ok 33188;
  get_owner_user = λ p. ok (some "root");
  get_owner_group = λ p. ok none;
  find_secret = λ name. if name =? "token" then some (104 ∷ 105 ∷ []) else none;
}

abbrev private : FileResource
private = file_mode at (record { value = 384 })

private_state : file_state disk private ≡ ok file_mode_incorrect
unfolding program
private_state = refl

file_state-Answered_example : Answered disk private file_mode_incorrect
file_state-Answered_example = file_state-Answered disk private file_mode_incorrect private_state

-- A secret that is not in the bundle is an error where the file is there, and where it is not, the
-- file is to be written.
unknown_secret : file_state disk (secret_file "tokn" at) ≡ err (missing_secret "tokn")
unfolding program
unknown_secret = refl

unknown_secret_unwritten : file_state disk (secret_file "tokn" new) ≡ ok file_not_sourced
unfolding program
unknown_secret_unwritten = refl

abbrev token : SecretParams
token = record { name = "token"; path = at; mode = none; user = none; group = none }

secret_resources-token :
    secret_resources token
    ≡ leaf (Meta.id "file") (secret_file "token" at)
      ∷ leaf (Meta.requires ("file" ∷ [])) (file_mode at (record { value = 384 }))
      ∷ []
unfolding program
secret_resources-token = refl
