-- ===== src/Resource/Tests.antt =====
-- Changes of resources on concrete machines, and the theorems there.
use lusid.Base.{
  ℕ, Bool, true, false, not, ◌&&◌, ◌||◌, ◌=?◌, Option, none, some, List, [], ◌∷◌, String, string_eq,
  contains, count, if◌then◌else◌, ◌≡◌, ◌↔◌, refl, arith, Result, ok, err, ℕ_discrete, nat_eq,
}
use lusid.Tree.{leaf}
use lusid.Causality.Meta
use lusid.Operation.{systemd, command}
use lusid.Operation.Types.{
  shell, SystemdOperation, enable, disable, stop_unit, start_unit, GroupOperation, add_group,
  modify_group, add_member, delete_group,
}
use lusid.Resource.{Operations}
use lusid.Resource.Systemd.{
  SystemdResource, SystemdState, SystemdChange, systemd_change, systemd_operations,
  parse_active_state, unknown_active_state,
}
use lusid.Resource.Units.{SystemdTools, apply_each, systemd_operations-settle}
use lusid.Resource.Command.{CommandParams, run_install, command_operations}
use lusid.Resource.Command
use lusid.Resource.Checked.{decide, decide-asked, asked, check_of, wants}
use lusid.Resource.Group.{
  GroupResource, present_group, GroupState, found_absent, found_present, GroupChange, change_group,
  group_change, group_operations, missing,
}
use lusid.Operation.Types.{FilePath}
use lusid.Resource.User.{UserPresent, present_user, UserFound, user_found, user_change, change_user}
use lusid.Resource.Accounts.{IsMatched, user_change-none}
use lusid.Resource.Members.{count-missing}
use lusid.Resource.Settled.{IsSettled, systemd_change-none, group_change-none}
use lusid.Resource.Converge.{GroupTools, apply_all, group_operations-IsSettled}

program : Unit {0}
unfolding systemd_change systemd_operations parse_active_state group_change group_operations missing
    apply_all string_eq
program = tt

abbrev unit : SystemdResource
unit = record { name = "sshd"; enabled = true; active = true }

abbrev unit_state : SystemdState
unit_state = record { enabled = true; active = false }

abbrev unit_operations : Option Operations
unit_operations = elim (systemd_change unit unit_state) [
  | none ↦ none
  | some change ↦ some (systemd_operations change)
]

systemd_operations-unit :
    unit_operations ≡ some (leaf Meta.default (systemd (start_unit "sshd")) ∷ [])
unfolding program
systemd_operations-unit = refl

parse_active_state-crashed : parse_active_state "crashed" ≡ err (unknown_active_state "crashed")
unfolding program
parse_active_state-crashed = refl

systemd_change-none_example :
    (systemd_change unit unit_state ≡ none)
    ↔ ((unit_state.enabled ≡ unit.enabled) × (unit_state.active ≡ unit.active))
systemd_change-none_example = systemd_change-none unit unit_state

-- What becomes of the unit "sshd", which has an install section and stays up: operations on other
-- units leave it alone.
unfoldable run_systemctl : SystemdOperation → SystemdState → SystemdState
run_systemctl (enable name) state =
    if name =? "sshd" then record { enabled = true; active = state.active } else state
run_systemctl (disable name) state =
    if name =? "sshd" then record { enabled = false; active = state.active } else state
run_systemctl (start_unit name) state =
    if name =? "sshd" then record { enabled = state.enabled; active = true } else state
run_systemctl (stop_unit name) state =
    if name =? "sshd" then record { enabled = state.enabled; active = false } else state

run_systemctl-enable :
    (e a : Bool)
    → run_systemctl (enable "sshd") (record { enabled = e; active = a })
      ≡ record { enabled = true; active = a }
unfolding run_systemctl string_eq
run_systemctl-enable e a = refl

run_systemctl-disable :
    (e a : Bool)
    → run_systemctl (disable "sshd") (record { enabled = e; active = a })
      ≡ record { enabled = false; active = a }
unfolding run_systemctl string_eq
run_systemctl-disable e a = refl

run_systemctl-start :
    (e a : Bool)
    → run_systemctl (start_unit "sshd") (record { enabled = e; active = a })
      ≡ record { enabled = e; active = true }
unfolding run_systemctl string_eq
run_systemctl-start e a = refl

run_systemctl-stop :
    (e a : Bool)
    → run_systemctl (stop_unit "sshd") (record { enabled = e; active = a })
      ≡ record { enabled = e; active = false }
unfolding run_systemctl string_eq
run_systemctl-stop e a = refl

abbrev systemctl : SystemdTools "sshd"
systemctl = record {
  is_installable = true;
  is_startable = true;
  apply = run_systemctl;
  enables = λ can. run_systemctl-enable;
  disables = λ can. run_systemctl-disable;
  starts = λ can. run_systemctl-start;
  stops = run_systemctl-stop;
}

abbrev unit_change : SystemdChange
unit_change = record { name = "sshd"; enable = none; active = some true }

systemd_change-unit : systemd_change unit unit_state ≡ some unit_change
unfolding program
systemd_change-unit = refl

systemd_operations-settle_example :
    systemd_change unit (apply_each systemctl (systemd_operations unit_change) unit_state) ≡ none
systemd_operations-settle_example =
    systemd_operations-settle unit systemctl unit_state (λ differ. refl) (λ down up. refl)
      systemd_change-unit

abbrev ripgrep : CommandParams
ripgrep = Command.install (some "which rg") "apk add ripgrep" none

-- Nothing is installed.
abbrev fails : String → Result String Bool
fails text = ok false

abbrev is_empty_text : String → Bool
is_empty_text text = text =? ""

decide-asked_example :
    (decide is_empty_text fails ripgrep ≡ ok (some (run_install "apk add ripgrep"))) ↔ (
      (asked ripgrep ≡ run_install "apk add ripgrep")
      × (check : String) × (check_of ripgrep ≡ some check)
      × (is_empty_text check ≡ false)
      × (fails check ≡ ok (not (wants ripgrep))))
decide-asked_example = decide-asked is_empty_text fails ripgrep (run_install "apk add ripgrep")

command_operations-ripgrep :
    command_operations (asked ripgrep)
    ≡ leaf Meta.default (command (record { command = "apk add ripgrep"; executor = shell })) ∷ []
unfolding command_operations
command_operations-ripgrep = refl

abbrev wheel : GroupResource
wheel = present_group (record {
  name = "wheel";
  gid = some 10;
  system = false;
  append_users = some ("ada" ∷ "bob" ∷ "ada" ∷ "eve" ∷ []);
})

abbrev wheel_state : GroupState
wheel_state = found_present 7 ("bob" ∷ [])

abbrev wheel_change : GroupChange
wheel_change = change_group "wheel" (some 10) ("ada" ∷ "eve" ∷ [])

group_change-wheel : group_change wheel wheel_state ≡ some wheel_change
unfolding program
group_change-wheel = refl

group_change-none_example : (group_change wheel wheel_state ≡ none) ↔ IsSettled wheel wheel_state
group_change-none_example = group_change-none wheel wheel_state

count-missing_example :
    count {A = String} "ada" (missing ("bob" ∷ []) [] ("ada" ∷ "bob" ∷ "ada" ∷ [])) ≡ (
      if contains {A = String} ("ada" ∷ "bob" ∷ "ada" ∷ []) "ada"
        && not (contains {A = String} ("bob" ∷ []) "ada")
      then 1
      else 0)
count-missing_example = count-missing ("bob" ∷ []) ("ada" ∷ "bob" ∷ "ada" ∷ []) "ada"

-- What becomes of the group "wheel": tools asked for another group leave it alone, and where it has
-- no declared number it gets 1000.
unfoldable run_tool : GroupOperation → GroupState → GroupState
run_tool (add_group name (some gid) system) state =
    if name =? "wheel" then found_present gid [] else state
run_tool (add_group name none system) state =
    if name =? "wheel" then found_present 1000 [] else state
run_tool (modify_group name (some gid)) (found_present old members) =
    if name =? "wheel" then found_present gid members else found_present old members
run_tool (add_member name user) (found_present gid members) =
    if name =? "wheel" then found_present gid (user ∷ members) else found_present gid members
run_tool (delete_group name) state = if name =? "wheel" then found_absent else state
run_tool _ state = state

run_tool-adds :
    (gid : Option ℕ) (system : Bool)
    → (given : ℕ) × (run_tool (add_group "wheel" gid system) found_absent ≡ found_present given [])
      × ((declared : ℕ) → gid ≡ some declared → declared ≡ given)
unfolding run_tool string_eq
run_tool-adds none system = (1000, refl, λ declared h. cc)
run_tool-adds (some gid) system = (gid, refl, λ declared h. cc)

run_tool-enrols :
    (user : String) (gid : ℕ) (members : List String)
    → (members' : List String) × (run_tool (add_member "wheel" user) (found_present gid members)
        ≡ found_present gid members')
      × ((q : String) → contains members' q ≡ ((user =? q) || contains members q))
unfolding run_tool string_eq
run_tool-enrols user gid members = (user ∷ members, refl, λ q. ground arith)

run_tool-modifies :
    (gid old : ℕ) (members : List String)
    → run_tool (modify_group "wheel" (some gid)) (found_present old members)
      ≡ found_present gid members
unfolding run_tool string_eq
run_tool-modifies gid old members = refl

run_tool-deletes :
    (gid : ℕ) (members : List String)
    → run_tool (delete_group "wheel") (found_present gid members) ≡ found_absent
unfolding run_tool string_eq
run_tool-deletes gid members = refl

abbrev tools : GroupTools "wheel"
tools = record {
  apply = run_tool;
  adds = run_tool-adds;
  modifies = run_tool-modifies;
  enrols = run_tool-enrols;
  deletes = run_tool-deletes;
}

group_operations-IsSettled_example :
    IsSettled wheel (apply_all tools (group_operations wheel_change) wheel_state)
group_operations-IsSettled_example =
    group_operations-IsSettled wheel tools wheel_state group_change-wheel

-- Paths compared as texts.
abbrev same_text : FilePath → String → Bool
same_text path text = path.value =? text

abbrev ada : UserPresent
ada = record {
  name = "ada";
  uid = some 5;
  group = none;
  append_groups = some ("wheel" ∷ []);
  comment = none;
  home = some (record { value = "/a" });
  shell = some "sh";
  system = false;
  create_home = true;
}

abbrev ada_found : UserFound
ada_found = record {
  uid = 5;
  primary_group = "ada";
  extra_groups = "wheel" ∷ [];
  comment = "";
  home = "/a";
  shell = "zsh";
}

user_change-ada :
    user_change same_text (present_user ada) (user_found ada_found)
    ≡ some (
        change_user (record {
          name = "ada";
          uid = none;
          primary_group = none;
          append_groups = none;
          comment = none;
          home = none;
          shell = some "sh";
        }))
unfolding user_change missing string_eq ℕ_discrete
user_change-ada = refl

-- A declared group that is the primary one is asked for each time, since it is none of the extra
-- groups.
user_change-primary :
    user_change same_text
      (present_user (record ada { append_groups = some ("ada" ∷ []); shell = none }))
      (user_found ada_found)
    ≡ some (
        change_user (record {
          name = "ada";
          uid = none;
          primary_group = none;
          append_groups = some ("ada" ∷ []);
          comment = none;
          home = none;
          shell = none;
        }))
unfolding user_change missing string_eq ℕ_discrete
user_change-primary = refl

user_change-none_example :
    (user_change same_text (present_user ada) (user_found ada_found) ≡ none)
    ↔ IsMatched same_text (present_user ada) (user_found ada_found)
user_change-none_example = user_change-none same_text (present_user ada) (user_found ada_found)
