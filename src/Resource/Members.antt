-- ===== src/Resource/Members.antt =====
-- The users that `change` of a group finds missing.
use lusid.Base.{
  if◌then◌else◌, not, ◌&&◌, List, [], ◌∷◌, String, string_eq, contains, count, ◌≡◌, arith,
}
use lusid.Resource.Group.{missing}

contains-missing_seen :
    (current seen declared : List String) (q : String)
    → contains (missing current seen declared) q
      ≡ ((contains declared q && not (contains current q)) && not (contains seen q))
unfolding missing
contains-missing_seen current seen [] q = ground arith
contains-missing_seen current seen (user ∷ declared) q = ground (
  arith,
  contains-missing_seen current seen declared q,
  contains-missing_seen current (user ∷ seen) declared q,
)

pub contains-missing :
    (current declared : List String) (q : String)
    → contains (missing current [] declared) q ≡ (contains declared q && not (contains current q))
contains-missing current declared q = ground (arith, contains-missing_seen current [] declared q)

count-missing_seen :
    (current seen declared : List String) (q : String)
    → count q (missing current seen declared) ≡ (
        if (contains declared q && not (contains current q)) && not (contains seen q) then 1 else 0)
unfolding missing
count-missing_seen current seen [] q = ground arith
count-missing_seen current seen (user ∷ declared) q = ground (
  arith,
  count-missing_seen current seen declared q,
  count-missing_seen current (user ∷ seen) declared q,
)

-- A user stands once in the list of the missing ones if it is declared, however often, and is no
-- member yet, and otherwise not at all.
pub count-missing :
    (current declared : List String) (q : String)
    → count q (missing current [] declared)
      ≡ (if contains declared q && not (contains current q) then 1 else 0)
count-missing current declared q = ground (arith, count-missing_seen current [] declared q)
