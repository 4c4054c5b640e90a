-- ===== src/Resource.antt =====
-- resource/src/resources/: what a resource asks of the machine, what the machine is found in, the
-- change between the two, and the operations of the change.
pub mod Packages
pub mod Systemd
pub mod Group
pub mod Git
pub mod Command
pub mod Checked
pub mod User
pub mod Accounts
pub mod Settled
pub mod Members
pub mod Converge
pub mod Units
pub mod Params
pub mod File
pub mod FileFound
pub mod Directory
pub mod Parsing
mod Tests
use lusid.Base.{Option, none, some, List, String, Bool, if◌then◌else◌}
use lusid.Causality.Collect.{CausalityTree}
use lusid.Operation.{Operation}

-- `Vec<CausalityTree<Operation>>`, whose ids are texts until the plan scopes them.
abbrev pub Operations : Type 0
Operations = List (CausalityTree Operation String)

-- `Option::filter`
abbrev pub filter_option {ℓ} : {A : Type ℓ} → (A → Bool) → Option A → Option A
filter_option keep none = none
filter_option keep (some a) = if keep a then some a else none
