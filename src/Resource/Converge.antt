-- ===== src/Resource/Converge.antt =====
-- The operations of a group's change lead to a group as asked, where the tools that they run do
-- what their manuals say.
use lusid.Base.{
  ℕ, Bool, true, not, ◌||◌, ◌==◌, ◌=?◌, Option, none, some, List, [], ◌∷◌, String, string_eq,
  contains, ◌≡◌, refl, ◌∙◌, sym, ap, subst, arith,
}
use lusid.Tree.{leaf}
use lusid.Causality.Collect.{CausalityMeta}
use lusid.Causality.Meta
use lusid.Operation.{group}
use lusid.Operation.Types.{GroupOperation, add_group, modify_group, add_member, delete_group}
use lusid.Resource.{Operations, filter_option}
use lusid.Resource.Group.{
  GroupPresent, GroupResource, present_group, absent_group, GroupState, found_absent, found_present,
  GroupChange, create_group, change_group, remove_group, group_change, group_operations,
  add_members, missing, or_empty, modification,
}
use lusid.Resource.Members.{contains-missing}
use lusid.Resource.Settled.{IsSettled, filter-none}

-- `groupadd`, `groupmod`, `gpasswd -a` and `groupdel`, where they succeed, as far as their effect on
-- the group of the given name goes. Nothing is known of what they do to it when they are asked for
-- another group.
pub record GroupTools (name : String) : Type 0 where
  pub apply : GroupOperation → GroupState → GroupState
  pub adds :
      (gid : Option ℕ) (system : Bool)
      → (given : ℕ) × (apply (add_group name gid system) found_absent ≡ found_present given [])
        × ((declared : ℕ) → gid ≡ some declared → declared ≡ given)
  pub modifies :
      (gid old : ℕ) (members : List String)
      → apply (modify_group name (some gid)) (found_present old members) ≡ found_present gid members
  pub enrols :
      (user : String) (gid : ℕ) (members : List String)
      → (members' : List String) × (apply (add_member name user) (found_present gid members)
          ≡ found_present gid members')
        × ((q : String) → contains members' q ≡ ((user =? q) || contains members q))
  pub deletes :
      (gid : ℕ) (members : List String)
      → apply (delete_group name) (found_present gid members) ≡ found_absent

-- The name of the group that a resource is about.
abbrev pub asked_name : GroupResource → String
asked_name (present_group p) = p.name
asked_name (absent_group name) = name

-- What a run of enrolments comes to.
record Enrolled (gid : ℕ) (members users : List String) (state : GroupState) : Type 0 where
  members' : List String
  found : state ≡ found_present gid members'
  has : (q : String) → contains members' q ≡ (contains users q || contains members q)

module _ {name : String} (tools : GroupTools name) where
  -- The operations applied one after another; those of other families leave the group alone.
  unfoldable pub apply_all : Operations → GroupState → GroupState
  apply_all [] state = state
  apply_all (leaf meta (group op) ∷ operations) state = apply_all operations (tools.apply op state)
  apply_all (_ ∷ operations) state = apply_all operations state

  add_members-Enrolled :
      (meta : CausalityMeta String) (users : List String) (gid : ℕ) (members : List String)
      → Enrolled gid members users
          (apply_all (add_members meta name users) (found_present gid members))
  unfolding apply_all
  add_members-Enrolled meta [] gid members = record {
    members' = members;
    found = refl;
    has = λ q. refl;
  }
  add_members-Enrolled meta (user ∷ users) gid members =
      let (members', applied, has) = tools.enrols user gid members in
      let rest = add_members-Enrolled meta users gid members' in
      record {
        members' = rest.members';
        found = ap (apply_all (add_members meta name users)) applied ∙ rest.found;
        has = λ q. ground (arith, rest.has q, has q);
      }

-- Enrolling the missing users settles a group whose number is right.
settle :
    (p : GroupPresent) (gid : ℕ) (members users : List String) (state : GroupState)
    → Enrolled gid members users state
    → ((declared : ℕ) → p.gid ≡ some declared → declared ≡ gid)
    → ((q : String)
        → contains (or_empty p.append_users) q ≡ true
        → (contains users q || contains members q) ≡ true)
    → IsSettled (present_group p) state
unfolding IsSettled
settle p gid members users state enrolled same covered =
    subst (IsSettled (present_group p)) (sym enrolled.found)
      (same, λ q declared. enrolled.has q ∙ covered q declared)

modification-some :
    (name : String) (gid : Option ℕ) (users : List String) {change : GroupChange}
    → modification name gid users ≡ some change
    → change_group name gid users ≡ change
modification-some name none [] h = cc
modification-some name none (user ∷ users) h = cc
modification-some name (some gid) users h = cc

filter-some :
    (gid : Option ℕ) (current declared : ℕ)
    → filter_option (λ d. not (d == current)) gid ≡ some declared
    → gid ≡ some declared
filter-some none current declared h = cc
filter-some (some gid) current declared h = ground arith

covered_by_missing :
    (members declared : List String) (q : String)
    → contains declared q ≡ true
    → (contains (missing members [] declared) q || contains members q) ≡ true
covered_by_missing members declared q h = ground (arith, contains-missing members declared q)

create-IsSettled :
    (p : GroupPresent) (tools : GroupTools p.name)
    → IsSettled (present_group p) (
        apply_all tools
          (group_operations (create_group p.name p.gid p.system (or_empty p.append_users)))
          found_absent)
unfolding group_operations apply_all
create-IsSettled p tools =
    let users = or_empty p.append_users in
    let (given, applied, same) = tools.adds p.gid p.system in
    subst
      (λ s.
        IsSettled (present_group p)
          (apply_all tools (add_members (Meta.requires ("add" ∷ [])) p.name users) s))
      (sym applied)
      (settle p given [] users _
        (add_members-Enrolled tools (Meta.requires ("add" ∷ [])) users given []) same
        (λ q h. ground (arith, h)))

change-IsSettled :
    (p : GroupPresent) (tools : GroupTools p.name) (old : ℕ) (members : List String)
    (gid : Option ℕ)
    → filter_option (λ d. not (d == old)) p.gid ≡ gid
    → IsSettled (present_group p) (
        apply_all tools
          (group_operations
            (change_group p.name gid (missing members [] (or_empty p.append_users))))
          (found_present old members))
unfolding group_operations apply_all
change-IsSettled p tools old members none h =
    settle p old members (missing members [] (or_empty p.append_users)) _
      (add_members-Enrolled tools Meta.default _ old members) ((filter-none p.gid old).0 h)
      (covered_by_missing members (or_empty p.append_users))
change-IsSettled p tools old members (some gid) h =
    let declared = filter-some p.gid old gid h in
    subst
      (λ s. IsSettled (present_group p) (
        apply_all tools
          (add_members (Meta.requires ("modify" ∷ [])) p.name
            (missing members [] (or_empty p.append_users)))
          s))
      (sym (tools.modifies gid old members))
      (settle p gid members (missing members [] (or_empty p.append_users)) _
        (add_members-Enrolled tools (Meta.requires ("modify" ∷ [])) _ gid members)
        (λ d e. ground (arith, declared, e)) (covered_by_missing members (or_empty p.append_users)))

deleted :
    (name : String) (tools : GroupTools name) (gid : ℕ) (members : List String)
    → IsSettled
        (absent_group name)
        (apply_all tools (group_operations (remove_group name)) (found_present gid members))
unfolding group_operations apply_all IsSettled
deleted name tools gid members = rw (tools.deletes gid members) tt

-- If a change is found for a group, then its operations, applied one after another by tools that
-- keep the laws of `GroupTools` for the name of this group, leave the group as the resource asks.
pub group_operations-IsSettled :
    (resource : GroupResource) (tools : GroupTools (asked_name resource)) (state : GroupState)
    {change : GroupChange}
    → group_change resource state ≡ some change
    → IsSettled resource (apply_all tools (group_operations change) state)
unfolding group_change
group_operations-IsSettled (absent_group name) tools found_absent h = absurd cc
group_operations-IsSettled (absent_group name) tools (found_present gid members) {change} h =
    let found : remove_group name ≡ change = cc in
    subst
      (λ c.
        IsSettled (absent_group name)
          (apply_all tools (group_operations c) (found_present gid members)))
      found (deleted name tools gid members)
group_operations-IsSettled (present_group p) tools found_absent {change} h =
    let found : create_group p.name p.gid p.system (or_empty p.append_users) ≡ change = cc in
    subst (λ c. IsSettled (present_group p) (apply_all tools (group_operations c) found_absent))
      found (create-IsSettled p tools)
group_operations-IsSettled (present_group p) tools (found_present gid members) {change} h =
    subst
      (λ c.
        IsSettled (present_group p)
          (apply_all tools (group_operations c) (found_present gid members)))
      (modification-some p.name _ _ h) (change-IsSettled p tools gid members _ refl)
