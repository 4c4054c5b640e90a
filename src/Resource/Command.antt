-- ===== src/Resource/Command.antt =====
-- resource/src/resources/command.rs: an installation that commands of the user's make and check.
use lusid.Base.{
  Bool, true, false, Option, none, some, List, [], ◌∷◌, String, Result, ok, ◌>>=◌, if◌then◌else◌,
}
use lusid.Tree.{leaf}
use lusid.Causality.Collect.{CausalityTree}
use lusid.Causality.Meta
use lusid.Operation.{command}
use lusid.Operation.Types.{shell}
use lusid.Resource.{Operations}

pub data CommandParams : Type 0 where
  install :
      (is_installed : Option String)
      → (install : String) → (uninstall : Option String) → CommandParams
  uninstall :
      (is_installed : Option String)
      → (install : Option String) → (uninstall : String) → CommandParams

pub data CommandStatus : Type 0 where
  to_install to_uninstall : CommandStatus

pub record CommandResource : Type 0 where
  pub status : CommandStatus
  pub is_installed : Option String
  pub install : Option String
  pub uninstall : Option String

pub data CommandState : Type 0 where
  installed not_installed unknown : CommandState

pub data CommandChange : Type 0 where
  run_install run_uninstall : (command : String) → CommandChange

-- The one resource of `resources`.
unfoldable pub resource_of : CommandParams → CommandResource
resource_of (install check text undo) = record {
  status = to_install;
  is_installed = check;
  install = some text;
  uninstall = undo;
}
resource_of (uninstall check redo text) = record {
  status = to_uninstall;
  is_installed = check;
  install = redo;
  uninstall = some text;
}

unfoldable pub command_resources : CommandParams → List (CausalityTree CommandResource String)
unfolding resource_of
command_resources params = leaf Meta.default (resource_of params) ∷ []

-- Whether a check succeeded.
abbrev pub state_of : Bool → CommandState
state_of true = installed
state_of false = not_installed

-- `state`; `is_blank` is std's trim and test for the empty text, and `run` the parse of the command
-- line, its run and the success of its exit status.
unfoldable pub command_state {ℓ} :
    {Error : Type ℓ}
    → (String → Bool)
    → (String → Result Error Bool)
    → CommandResource
    → Result Error CommandState
command_state is_blank run resource = elim resource.is_installed [
  | none ↦ ok unknown
  | some check ↦
      let found = run check >>= λ success. ok (state_of success) in
      if is_blank check then ok unknown else found
]

-- `clone().map(…)`
abbrev pub map_command : (String → CommandChange) → Option String → Option CommandChange
map_command f none = none
map_command f (some text) = some (f text)

unfoldable pub command_change : CommandResource → CommandState → Option CommandChange
command_change resource state = elim state [
  | unknown ↦ none
  | installed ↦ elim resource.status [
    | to_install ↦ none
    | to_uninstall ↦ map_command run_uninstall resource.uninstall
  ]
  | not_installed ↦ elim resource.status [
    | to_install ↦ map_command run_install resource.install
    | to_uninstall ↦ none
  ]
]

-- A command is run by the shell.
abbrev pub shell_operation : String → Operations
shell_operation text =
    leaf Meta.default (command (record { command = text; executor = shell })) ∷ []

unfoldable pub command_operations : CommandChange → Operations
command_operations (run_install text) = shell_operation text
command_operations (run_uninstall text) = shell_operation text
