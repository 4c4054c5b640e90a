-- ===== src/Resource/Accounts.antt =====
-- When the account of a user is left alone.
use lusid.Base.{
  nat_eq, Bool, true, not, Option, none, some, List, [], ◌∷◌, String, string_eq, Eq, contains, ◌≡◌,
  ◌↔◌, refl, arith, ◌=?◌,
}
use lusid.Operation.Types.{FilePath, UserModify}
use lusid.Resource.{filter_option}
use lusid.Resource.Group.{missing, or_empty}
use lusid.Resource.Members.{contains-missing}
use lusid.Resource.Settled.{contains-none}
use lusid.Resource.User.{
  UserResource, present_user, absent_user, UserState, user_absent, user_found, user_change,
  if_changed, changes, if_any,
}

-- What is declared is what is found, if it is declared.
abbrev pub IsMet : {A : Type 0} → Option A → A → Type 0
IsMet {A} declared found = (d : A) → declared ≡ some d → d ≡ found

module _ (same_path : FilePath → String → Bool) where
  -- Whether there is an account is as asked, and in a present one the user number, the primary
  -- group, the comment, the home and the shell are as declared, each if it is declared, and the
  -- groups to append are among the extra ones, which leave the primary group out. Whether it is a
  -- system account and has a home made are not looked at.
  unfoldable pub IsMatched : UserResource → UserState → Type 0
  IsMatched (absent_user name remove_home) user_absent = Unit
  IsMatched (absent_user name remove_home) (user_found found) = ⊥
  IsMatched (present_user p) user_absent = ⊥
  IsMatched (present_user p) (user_found found) =
      IsMet p.uid found.uid
      × IsMet p.group found.primary_group
      × ((q : String)
          → contains (or_empty p.append_groups) q ≡ true
          → contains found.extra_groups q ≡ true)
      × IsMet p.comment found.comment
      × ((d : FilePath) → p.home ≡ some d → same_path d found.home ≡ true)
      × IsMet p.shell found.shell

filter-IsMet :
    {A : Type 0} ⦃e : Eq A⦄ (declared : Option A) (found : A)
    → (filter_option (λ d. not (d =? found)) declared ≡ none) ↔ IsMet declared found
filter-IsMet none found = (λ h d same. cc, λ h. refl)
filter-IsMet (some a) found = (λ h d same. ground arith, λ h. ground (arith, h a refl))

filter-path :
    (keep : FilePath → Bool) (declared : Option FilePath)
    → (filter_option (λ d. not (keep d)) declared ≡ none)
      ↔ ((d : FilePath) → declared ≡ some d → keep d ≡ true)
filter-path keep none = (λ h d same. cc, λ h. refl)
filter-path keep (some a) = (λ h d same. ground arith, λ h. ground (arith, h a refl))

if_any-none : (groups : List String) → (if_any groups ≡ none) ↔ (groups ≡ [])
if_any-none [] = (λ h. refl, λ h. refl)
if_any-none (g ∷ groups) = (λ h. cc, λ h. cc)

missing-none :
    (current declared : List String)
    → (missing current [] declared ≡ [])
      ↔ ((q : String) → contains declared q ≡ true → contains current q ≡ true)
missing-none current declared = (
  λ h q listed. ground (arith, h, contains-missing current declared q, listed),
  λ all.
      contains-none (missing current [] declared)
        (λ q. ground (arith, contains-missing current declared q, all q)),
)

if_changed-none :
    (m : UserModify)
    → (if_changed m ≡ none) ↔ (
        (m.uid ≡ none)
        × (m.primary_group ≡ none)
        × (m.append_groups ≡ none)
        × (m.comment ≡ none)
        × (m.home ≡ none)
        × (m.shell ≡ none))
if_changed-none m = (λ h. ground arith, λ h. ground arith)

module _ (same_path : FilePath → String → Bool) where
  -- No change is found for a user if and only if the account is absent and asked to be, or is
  -- there and asked to be and agrees in what the change compares: the user number, the primary
  -- group, the comment, the home and the shell are each as declared, if declared, and each group
  -- to append is one of the extra groups, whatever the primary group is. Whether it is a system
  -- account or has a home made is not compared. Paths are compared by any given test.
  pub user_change-none :
      (resource : UserResource) (state : UserState)
      → (user_change same_path resource state ≡ none) ↔ IsMatched same_path resource state
  unfolding user_change IsMatched
  user_change-none (absent_user name remove_home) user_absent = (λ h. tt, λ h. refl)
  user_change-none (absent_user name remove_home) (user_found found) = (λ h. cc, λ h. absurd h)
  user_change-none (present_user p) user_absent = (λ h. cc, λ h. absurd h)
  user_change-none (present_user p) (user_found found) = (
    λ h.
        let (uid, group, groups, comment, home, shell) =
          (if_changed-none (changes same_path p found)).0 h in
        (
          (filter-IsMet p.uid found.uid).0 uid,
          (filter-IsMet p.group found.primary_group).0 group,
          (missing-none found.extra_groups (or_empty p.append_groups)).0
              ((if_any-none (missing found.extra_groups [] (or_empty p.append_groups))).0 groups),
          (filter-IsMet p.comment found.comment).0 comment,
          (filter-path (λ d. same_path d found.home) p.home).0 home,
          (filter-IsMet p.shell found.shell).0 shell,
        ),
    λ (uid, group, groups, comment, home, shell). (if_changed-none (changes same_path p found)).1 (
      (filter-IsMet p.uid found.uid).1 uid,
      (filter-IsMet p.group found.primary_group).1 group,
      (if_any-none (missing found.extra_groups [] (or_empty p.append_groups))).1
          ((missing-none found.extra_groups (or_empty p.append_groups)).1 groups),
      (filter-IsMet p.comment found.comment).1 comment,
      (filter-path (λ d. same_path d found.home) p.home).1 home,
      (filter-IsMet p.shell found.shell).1 shell,
    ),
  )
