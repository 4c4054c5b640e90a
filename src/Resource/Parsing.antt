-- ===== src/Resource/Parsing.antt =====
-- The `ParseParams` of resource/src/resources/: how each resource reads its parameters, field by
-- field, out of the object that a plan hands over. A tag that was read is one of those asked for,
-- so the last is read where it is none of the others.
mod Paths
mod Fields
mod Tests
use lusid.Base.{string_eq, ◌=?◌, if◌then◌else◌, [], ◌∷◌, ok, ◌>>=◌, ◌>>◌}
use lusid.Params.Value.{Platform, Spanned, Value}
use lusid.Params.Parse.{Parsed, Read, StructFields}
use lusid.Params.Fields.{
  new, has, take_discriminator, required_string, optional_string, optional_bool, optional_u32,
  required_target_path, required_string_list, optional_string_list, finish,
}
use lusid.Resource.Packages.{
  AptParams, apt_package, apt_packages, PacmanParams, pacman_package, pacman_packages,
}
use lusid.Resource.Systemd.{SystemdParams}
use lusid.Resource.Command.{CommandParams, install, uninstall}
use lusid.Resource.Params.{
  GitParams, GroupParams, group_present, group_absent, AptRepoParams, PodmanParams, podman_present,
  podman_absent,
}

module _ {p : Platform} where
  unfoldable pub parse_apt : Spanned (Value p) → Parsed p AptParams
  parse_apt value = do
    fields ← new value
    (out, fields) ←
        (if has fields "packages"
          then (required_string_list "packages" fields >>= λ read. ok (apt_packages read.0, read.1))
          else (required_string "package" fields >>= λ read. ok (apt_package read.0, read.1)))
    finish fields
    ok out

  unfoldable pub parse_pacman : Spanned (Value p) → Parsed p PacmanParams
  parse_pacman value = do
    fields ← new value
    (out, fields) ←
        (if has fields "packages"
          then (required_string_list "packages" fields >>= λ read.
              ok (pacman_packages read.0, read.1))
          else (required_string "package" fields >>= λ read. ok (pacman_package read.0, read.1)))
    finish fields
    ok out

  unfoldable pub parse_systemd : Spanned (Value p) → Parsed p SystemdParams
  parse_systemd value = do
    fields ← new value
    (name, fields) ← required_string "name" fields
    (enabled, fields) ← optional_bool "enabled" fields
    (active, fields) ← optional_bool "active" fields
    finish fields
    ok (record { name = name; enabled = enabled; active = active })

  unfoldable pub parse_git : Spanned (Value p) → Parsed p GitParams
  parse_git value = do
    fields ← new value
    (repo, fields) ← required_string "repo" fields
    (path, fields) ← required_target_path "path" fields
    (version, fields) ← optional_string "version" fields
    (update, fields) ← optional_bool "update" fields
    (force, fields) ← optional_bool "force" fields
    finish fields
    ok (record {
      repo = repo;
      path = record { value = path };
      version = version;
      update = update;
      force = force;
    })

  unfoldable pub group_present_fields : StructFields p → Read p GroupParams
  group_present_fields fields = do
    (name, fields) ← required_string "name" fields
    (gid, fields) ← optional_u32 "gid" fields
    (system, fields) ← optional_bool "system" fields
    (append_users, fields) ← optional_string_list "append_users" fields
    ok (
      group_present
          (record { name = name; gid = gid; system = system; append_users = append_users }),
      fields,
    )

  unfoldable pub group_absent_fields : StructFields p → Read p GroupParams
  group_absent_fields fields = do
    (name, fields) ← required_string "name" fields
    ok (group_absent name, fields)

  unfoldable pub parse_group : Spanned (Value p) → Parsed p GroupParams
  parse_group value = do
    fields ← new value
    (state, fields) ← take_discriminator "state" ("present" ∷ "absent" ∷ []) fields
    (out, fields) ←
        (if state =? "present" then group_present_fields fields else group_absent_fields fields)
    finish fields
    ok out

  unfoldable pub install_fields : StructFields p → Read p CommandParams
  install_fields fields = do
    (is_installed, fields) ← optional_string "is_installed" fields
    (to_install, fields) ← required_string "install" fields
    (to_uninstall, fields) ← optional_string "uninstall" fields
    ok (install is_installed to_install to_uninstall, fields)

  unfoldable pub uninstall_fields : StructFields p → Read p CommandParams
  uninstall_fields fields = do
    (is_installed, fields) ← optional_string "is_installed" fields
    (to_install, fields) ← optional_string "install" fields
    (to_uninstall, fields) ← required_string "uninstall" fields
    ok (uninstall is_installed to_install to_uninstall, fields)

  unfoldable pub parse_command : Spanned (Value p) → Parsed p CommandParams
  parse_command value = do
    fields ← new value
    (status, fields) ← take_discriminator "status" ("install" ∷ "uninstall" ∷ []) fields
    (out, fields) ← (if status =? "install" then install_fields fields else uninstall_fields fields)
    finish fields
    ok out

  unfoldable pub parse_apt_repo : Spanned (Value p) → Parsed p AptRepoParams
  parse_apt_repo value = do
    fields ← new value
    (name, fields) ← required_string "name" fields
    (uris, fields) ← required_string_list "uris" fields
    (suites, fields) ← required_string_list "suites" fields
    (components, fields) ← required_string_list "components" fields
    (key_url, fields) ← required_string "key_url" fields
    (types, fields) ← optional_string_list "types" fields
    (architectures, fields) ← optional_string_list "architectures" fields
    (enabled, fields) ← optional_bool "enabled" fields
    finish fields
    ok (record {
      name = name;
      uris = uris;
      suites = suites;
      components = components;
      key_url = key_url;
      types = types;
      architectures = architectures;
      enabled = enabled;
    })

  unfoldable pub podman_present_fields : StructFields p → Read p PodmanParams
  podman_present_fields fields = do
    (name, fields) ← required_string "name" fields
    (image, fields) ← required_string "image" fields
    (command, fields) ← optional_string_list "command" fields
    (env, fields) ← optional_string_list "env" fields
    (ports, fields) ← optional_string_list "ports" fields
    (volumes, fields) ← optional_string_list "volumes" fields
    (restart_policy, fields) ← optional_string "restart_policy" fields
    (running, fields) ← optional_bool "running" fields
    ok (
      podman_present (record {
        name = name;
        image = image;
        command = command;
        env = env;
        ports = ports;
        volumes = volumes;
        restart_policy = restart_policy;
        running = running;
      }),
      fields,
    )

  unfoldable pub podman_absent_fields : StructFields p → Read p PodmanParams
  podman_absent_fields fields = do
    (name, fields) ← required_string "name" fields
    ok (podman_absent name, fields)

  unfoldable pub parse_podman : Spanned (Value p) → Parsed p PodmanParams
  parse_podman value = do
    fields ← new value
    (state, fields) ← take_discriminator "state" ("present" ∷ "absent" ∷ []) fields
    (out, fields) ←
        (if state =? "present" then podman_present_fields fields else podman_absent_fields fields)
    finish fields
    ok out
