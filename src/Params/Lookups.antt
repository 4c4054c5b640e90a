-- ===== src/Params/Lookups.antt =====
-- params/src/lib.rs: the walk over the fields of a struct, which takes each value out of the map,
-- described by what stands under each key of the values as they were given.
use mathlib.Core.Logic.{if_neg}
use mathlib.Core.Option.{none-ne-some}
use lusid.Base.{
  ◌≡◌, ◌≢◌, refl, sym, ap, subst, ◌∙◌, Option, none, some, List, [], ◌∷◌, ◌++◌, append-nil, String,
  string_eq, Bool, true, false, ok, err,
}
use lusid.Params.Value.{
  Platform, Spanned, spanned, Value, ValueObject, empty_object, entry, get, insert, swap_remove,
  Removed,
}
use lusid.Params.Maps.{IsMap, Takes, swap_remove-Takes, get_here, get_away}
use lusid.Params.Schema.{ParamField, ParamsStruct}
use lusid.Params.Coerce.{
  ParamsContext, Checked, ParamValidationError, missing_param, invalid_param, Walk, coerce_type,
  take_param, miss_param, take_found, coerce_field,
}

-- A key that no field of a struct has.
abbrev pub Undeclared : ParamsStruct → String → Type 0
Undeclared [] key = Unit
Undeclared ((name, field) ∷ fields) key = (name ≢ key) × Undeclared fields key

-- The names of the fields differ, as the keys of a map do.
abbrev pub IsStruct : ParamsStruct → Type 0
IsStruct [] = Unit
IsStruct ((name, field) ∷ fields) = Undeclared fields name × IsStruct fields

module _ {p : Platform} where
  -- What it adds to the errors and to the coerced values.
  abbrev pub field_error :
      String
      → Spanned ParamField
      → Bool
      → Option (Checked p (Spanned (Value p)))
      → List (ParamValidationError p)
  field_error key field optional (some (ok coerced)) = []
  field_error key field optional (some (err error)) = invalid_param key error ∷ []
  field_error key field true none = []
  field_error key field false none = missing_param key (spanned field.inner.typ field.span) ∷ []

  abbrev pub keep_coerced :
      String → Option (Checked p (Spanned (Value p))) → ValueObject p → ValueObject p
  keep_coerced key (some (ok coerced)) others = entry key coerced.inner coerced.span others
  keep_coerced key (some (err error)) others = others
  keep_coerced key none others = others

  -- `later` are the entries behind those of `coerced`.
  unfoldable pub append : ValueObject p → ValueObject p → ValueObject p
  append empty_object later = later
  append (entry key value span entries) later = entry key value span (append entries later)

  pub append-empty : (entries : ValueObject p) → append entries empty_object ≡ entries
  unfolding append
  append-empty empty_object = refl
  append-empty (entry key value span entries) = ap (entry key value span) (append-empty entries)

  pub entries_assoc :
      (first second third : ValueObject p)
      → append (append first second) third ≡ append first (append second third)
  unfolding append
  entries_assoc empty_object second third = refl
  entries_assoc (entry key value span entries) second third =
      ap (entry key value span) (entries_assoc entries second third)

  pub keep_coerced-append :
      (key : String) (looked : Option (Checked p (Spanned (Value p)))) (later : ValueObject p)
      → append (keep_coerced key looked empty_object) later ≡ keep_coerced key looked later
  unfolding append
  keep_coerced-append key none later = refl
  keep_coerced-append key (some (ok coerced)) later = refl
  keep_coerced-append key (some (err error)) later = refl

  insert-fresh :
      (key : String) (new : Spanned (Value p)) (entries : ValueObject p)
      → get key entries ≡ none
      → insert key new entries ≡ append entries (entry key new.inner new.span empty_object)
  unfolding get insert append
  insert-fresh key new empty_object fresh = refl
  insert-fresh key new (entry other value span entries) fresh = elim (string_eq.dec other key) [
    | yes here ↦ absurd (none-ne-some _ (sym fresh ∙ get_here value span entries here))
    | no away ↦ rw (if_neg _ away) (
        ap (entry other value span)
          (insert-fresh key new entries (sym (get_away value span entries away) ∙ fresh)))
  ]

module _ {p : Platform} (ctx : ParamsContext) where
  abbrev pub coerce_param : Spanned ParamField → Spanned (Value p) → Checked p (Spanned (Value p))
  coerce_param field value = coerce_type ctx field.inner.typ field.span value

  -- The outcome for the value found under a field's key, if there is one.
  abbrev pub check_found :
      Spanned ParamField → Option (Spanned (Value p)) → Option (Checked p (Spanned (Value p)))
  check_found field none = none
  check_found field (some value) = some (coerce_param field value)

  -- The errors of the fields and the coerced values, in the order of the fields, by looking up.
  unfoldable pub field_errors : ParamsStruct → ValueObject p → List (ParamValidationError p)
  field_errors [] values = []
  field_errors ((key, field) ∷ fields) values =
      field_error key field field.inner.optional (check_found field (get key values))
      ++ field_errors fields values

  unfoldable pub coerced_by : ParamsStruct → ValueObject p → ValueObject p
  coerced_by [] values = empty_object
  coerced_by ((key, field) ∷ fields) values =
      keep_coerced key (check_found field (get key values)) (coerced_by fields values)

  -- One field's turn: what is found under its key says what it adds, and is gone after it.
  abbrev pub Stepped :
      String
      → Spanned ParamField
      → Option (Checked p (Spanned (Value p)))
      → Walk p
      → Walk p
      → Type 0
  Stepped key field looked walk after =
      (after.errors ≡ walk.errors ++ field_error key field field.inner.optional looked)
      × (after.coerced ≡ append walk.coerced (keep_coerced key looked empty_object))
      × IsMap after.values
      × (get key after.values ≡ none)
      × ((q : String) → key ≢ q → get q after.values ≡ get q walk.values)

  take_param-Stepped :
      (key : String) (field : Spanned ParamField) (value : Spanned (Value p)) (rest : ValueObject p)
      (walk : Walk p)
      → Takes key walk.values (some (value, rest))
      → get key walk.coerced ≡ none
      → (checked : Checked p (Spanned (Value p)))
      → Stepped key field (some checked) walk (take_param key checked rest walk)
  unfolding take_param
  take_param-Stepped key field value rest walk taken fresh (ok coerced) = (
    sym (append-nil walk.errors),
    insert-fresh key coerced walk.coerced fresh,
    taken.1.0,
    taken.1.1,
    taken.1.2,
  )
  take_param-Stepped key field value rest walk taken fresh (err error) =
      (refl, sym (append-empty walk.coerced), taken.1.0, taken.1.1, taken.1.2)

  miss_param-errors :
      (key : String) (field : Spanned ParamField) (walk : Walk p) (optional : Bool)
      → let after = miss_param key field optional walk in
        (after.errors ≡ walk.errors ++ field_error key field optional none)
        × (after.coerced ≡ walk.coerced)
        × (after.values ≡ walk.values)
  unfolding miss_param
  miss_param-errors key field walk true = (sym (append-nil walk.errors), refl, refl)
  miss_param-errors key field walk false = (refl, refl, refl)

  pub take_found-Stepped :
      (key : String) (field : Spanned ParamField) (walk : Walk p) (taken : Option (Removed p))
      → IsMap walk.values
      → get key walk.coerced ≡ none
      → Takes key walk.values taken
      → Stepped key field
          (check_found field (get key walk.values))
          walk
          (take_found ctx key field taken walk)
  unfolding take_found
  take_found-Stepped key field walk none distinct fresh gone =
      let missed = miss_param-errors key field walk field.inner.optional in
      subst
        (λ found.
          Stepped key field (check_found field found) walk
            (miss_param key field field.inner.optional walk))
        (sym gone)
        (
          missed.0,
          missed.1 ∙ sym (append-empty walk.coerced),
          subst IsMap (sym missed.2) distinct,
          ap (get key) missed.2 ∙ gone,
          λ q away. ap (get q) missed.2,
        )
  take_found-Stepped key field walk (some (value, rest)) distinct fresh taken =
      subst
        (λ found.
          Stepped key field (check_found field found) walk
            (take_param key (coerce_param field value) rest walk))
        (sym taken.0)
        (take_param-Stepped key field value rest walk taken fresh (coerce_param field value))

  pub coerce_field-Stepped :
      (key : String) (field : Spanned ParamField) (walk : Walk p)
      → IsMap walk.values
      → get key walk.coerced ≡ none
      → Stepped key field
          (check_found field (get key walk.values))
          walk
          (coerce_field ctx key field walk)
  unfolding coerce_field
  coerce_field-Stepped key field walk distinct fresh =
      take_found-Stepped key field walk (swap_remove key walk.values) distinct fresh
        (swap_remove-Takes key walk.values distinct)
