-- ===== src/Resource/Systemd.antt =====
-- resource/src/resources/systemd.rs
use lusid.Base.{
  Bool, true, false, Option, none, some, List, [], ◌∷◌, ◌++◌, String, string_eq, contains, Result,
  ok, err, if◌then◌else◌,
}
use lusid.Tree.{leaf}
use lusid.Causality.Collect.{CausalityTree}
use lusid.Causality.Meta
use lusid.Operation.{systemd}
use lusid.Operation.Types.{enable, disable, start_unit, stop_unit}
use lusid.Resource.{Operations}

pub record SystemdParams : Type 0 where
  pub name : String
  pub enabled : Option Bool
  pub active : Option Bool

pub record SystemdResource : Type 0 where
  pub name : String
  pub enabled : Bool
  pub active : Bool

pub record SystemdState : Type 0 where
  pub enabled : Bool
  pub active : Bool

pub record SystemdChange : Type 0 where
  pub name : String
  pub enable : Option Bool
  pub active : Option Bool

pub data SystemdStateError : Type 0 where
  unknown_active_state unknown_unit_file_state : (state : String) → SystemdStateError

-- `unwrap_or(true)`
abbrev pub or_true : Option Bool → Bool
or_true none = true
or_true (some b) = b

unfoldable pub systemd_resources : SystemdParams → List (CausalityTree SystemdResource String)
systemd_resources params =
    leaf Meta.default (record {
      name = params.name;
      enabled = or_true params.enabled;
      active = or_true params.active;
    })
    ∷ []

-- `(declared != current).then_some(declared)`
abbrev pub differing : Bool → Bool → Option Bool
differing true true = none
differing false false = none
differing declared current = some declared

unfoldable pub systemd_change : SystemdResource → SystemdState → Option SystemdChange
systemd_change resource state =
    let enable = differing resource.enabled state.enabled in
    let active = differing resource.active state.active in
    let change : SystemdChange = record {
      name = resource.name;
      enable = enable;
      active = active;
    } in
    elim enable [ some e ↦ some change | none ↦ elim active [ some a ↦ some change | none ↦ none ] ]

abbrev pub enable_operations : String → Option Bool → Operations
enable_operations name none = []
enable_operations name (some true) = leaf Meta.default (systemd (enable name)) ∷ []
enable_operations name (some false) = leaf Meta.default (systemd (disable name)) ∷ []

abbrev pub active_operations : String → Option Bool → Operations
active_operations name none = []
active_operations name (some true) = leaf Meta.default (systemd (start_unit name)) ∷ []
active_operations name (some false) = leaf Meta.default (systemd (stop_unit name)) ∷ []

unfoldable pub systemd_operations : SystemdChange → Operations
systemd_operations change =
    enable_operations change.name change.enable ++ active_operations change.name change.active

unfoldable pub parse_active_state : String → Result SystemdStateError Bool
parse_active_state state =
    if contains ("active" ∷ "reloading" ∷ "activating" ∷ []) state
    then ok true
    else if contains ("inactive" ∷ "deactivating" ∷ "failed" ∷ []) state
    then ok false
    else err (unknown_active_state state)

unfoldable pub parse_unit_file_state : String → Result SystemdStateError Bool
parse_unit_file_state state =
    if contains
      ("enabled" ∷ "enabled-runtime" ∷ "static" ∷ "alias" ∷ "indirect" ∷ "linked" ∷ "linked-runtime"
        ∷ "generated" ∷ "transient" ∷ [])
      state
    then ok true
    else if contains ("disabled" ∷ "masked" ∷ "masked-runtime" ∷ "" ∷ []) state
    then ok false
    else err (unknown_unit_file_state state)
