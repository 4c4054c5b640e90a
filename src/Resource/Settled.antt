-- ===== src/Resource/Settled.antt =====
-- A change is found just where the machine is not as the resource asks.
use lusid.Base.{
  ℕ, true, false, not, ◌==◌, Option, none, some, List, [], ◌∷◌, String, string_eq, contains, ◌≡◌,
  ◌↔◌, refl, arith,
}
use lusid.Resource.{filter_option}
use lusid.Resource.Systemd.{SystemdResource, SystemdState, systemd_change}
use lusid.Resource.Group.{
  GroupResource, present_group, absent_group, GroupState, found_absent, found_present, group_change,
  missing, or_empty, modification,
}
use lusid.Resource.Members.{contains-missing}

-- No change is found for a unit if and only if it is enabled and active as the resource asks.
pub systemd_change-none :
    (resource : SystemdResource) (state : SystemdState)
    → (systemd_change resource state ≡ none)
      ↔ ((state.enabled ≡ resource.enabled) × (state.active ≡ resource.active))
unfolding systemd_change
systemd_change-none resource state = (λ h. ground arith, λ h. ground arith)

-- The machine has the group as asked: its number, if one is declared, and every declared member.
unfoldable pub IsSettled : GroupResource → GroupState → Type 0
IsSettled (absent_group name) found_absent = Unit
IsSettled (absent_group name) (found_present gid members) = ⊥
IsSettled (present_group p) found_absent = ⊥
IsSettled (present_group p) (found_present gid members) =
    ((declared : ℕ) → p.gid ≡ some declared → declared ≡ gid)
    × ((q : String) → contains (or_empty p.append_users) q ≡ true → contains members q ≡ true)

modification-none :
    (name : String) (gid : Option ℕ) (users : List String)
    → modification name gid users ≡ none
    → (gid ≡ none) × (users ≡ [])
modification-none name none [] h = (refl, refl)
modification-none name none (user ∷ users) h = cc
modification-none name (some gid) users h = cc

pub contains-none : (users : List String) → ((q : String) → contains users q ≡ false) → users ≡ []
contains-none [] h = refl
contains-none (user ∷ users) h = ground (arith, h user)

pub filter-none :
    (gid : Option ℕ) (current : ℕ)
    → (filter_option (λ declared. not (declared == current)) gid ≡ none)
      ↔ ((declared : ℕ) → gid ≡ some declared → declared ≡ current)
filter-none none current = (λ h declared e. cc, λ h. refl)
filter-none (some gid) current = (λ h declared e. ground arith, λ h. ground (arith, h gid refl))

-- No change is found for a group if and only if it is as the resource asks: absent, or present
-- with the declared number, if there is one, and with every declared member.
pub group_change-none :
    (resource : GroupResource) (state : GroupState)
    → (group_change resource state ≡ none) ↔ IsSettled resource state
unfolding group_change IsSettled
group_change-none (absent_group name) found_absent = (λ h. tt, λ h. refl)
group_change-none (absent_group name) (found_present gid members) = (λ h. cc, λ h. absurd h)
group_change-none (present_group p) found_absent = (λ h. cc, λ h. absurd h)
group_change-none (present_group p) (found_present gid members) = (
  λ h.
      let (same, all) = modification-none p.name _ _ h in
      (
        (filter-none p.gid gid).0 same,
        λ q declared.
            ground (arith, all, contains-missing members (or_empty p.append_users) q, declared),
      ),
  λ (same, all).
      let no_gid = (filter-none p.gid gid).1 same in
      let no_users =
        contains-none (missing members [] (or_empty p.append_users))
          (λ q. ground (arith, contains-missing members (or_empty p.append_users) q, all q)) in
      rw (no_gid, no_users) refl,
)
