-- ===== src/Params/Conforms.antt =====
-- params/src/lib.rs: values that are as declared, and what a struct keeps of the values it accepts.
use lusid.Base.{
  ◌≡◌, ◌⊎◌, refl, sym, subst, Option, none, some, List, [], ◌∷◌, String, Bool, true, false, ok, err,
  All,
}
use lusid.Params.Value.{Platform, Spanned, Value, ValueObject, object, get}
use lusid.Params.Maps.{IsMap}
use lusid.Params.Schema.{ParamField, ParamsStruct, ParamTypes, struct_types, union_types}
use lusid.Params.Coerce.{ParamsContext, Checked}
use lusid.Params.Typed.{HasType, coerce_type-Coerced}
use lusid.Params.Lookups.{
  Undeclared, IsStruct, coerce_param, check_found, field_error, field_errors, coerced_by,
}
use lusid.Params.Walked.{Accepts}
use lusid.Params.Kept.{kept, AllKept, coerced_by-AllKept, coerced_by-Undeclared}
use lusid.Params.Stable.{nil_of_append}

-- The names of a struct's fields differ, in each case of a union.
abbrev pub IsSchema : ParamTypes → Type 0
IsSchema (struct_types fields) = IsStruct fields
IsSchema (union_types cases) = All IsStruct cases

module _ {p : Platform} where
  -- The keys of an object differ.
  abbrev pub IsMapped : Value p → Type 0
  IsMapped value = (entries : ValueObject p) → value ≡ object entries → IsMap entries

  -- A field's value is there and typed, or not there and optional.
  abbrev pub TypedField : Spanned ParamField → Option (Spanned (Value p)) → Type 0
  TypedField field none = field.inner.optional ≡ true
  TypedField field (some value) = HasType field.inner.typ value.inner

  abbrev pub TypedFields : ParamsStruct → ValueObject p → Type 0
  TypedFields [] entries = Unit
  TypedFields ((key, field) ∷ fields) entries =
      TypedField field (get key entries) × TypedFields fields entries

  abbrev pub TypedStruct : ParamsStruct → ValueObject p → Type 0
  TypedStruct fields entries =
      TypedFields fields entries × ((q : String) → Undeclared fields q → get q entries ≡ none)

  abbrev pub TypedCase : List ParamsStruct → ValueObject p → Type 0
  TypedCase [] entries = ⊥
  TypedCase (fields ∷ cases) entries = TypedStruct fields entries ⊎ TypedCase cases entries

  unfoldable pub Conforms : ParamTypes → Value p → Type 0
  Conforms (struct_types fields) value =
      (entries : ValueObject p) × (value ≡ object entries) × TypedStruct fields entries
  Conforms (union_types cases) value =
      (entries : ValueObject p) × (value ≡ object entries) × TypedCase cases entries

module _ {p : Platform} (ctx : ParamsContext) where
  kept-TypedField :
      (key : String) (field : Spanned ParamField) (found : Option (Spanned (Value p)))
      → field_error key field field.inner.optional (check_found ctx field found) ≡ []
      → TypedField field (kept ctx (check_found ctx field found))
  kept-TypedField key field none fits = after field.inner.optional refl fits
    where
      after :
          (optional : Bool)
          → field.inner.optional ≡ optional
          → field_error {p = p} key field optional none ≡ []
          → field.inner.optional ≡ true
      after true same fits = same
      after false same fits = cc
  kept-TypedField key field (some value) fits = after (coerce_param ctx field value) refl fits
    where
      after :
          (checked : Checked p (Spanned (Value p)))
          → coerce_param ctx field value ≡ checked
          → field_error key field field.inner.optional (some checked) ≡ []
          → TypedField field (kept ctx (some checked))
      after (ok w) is fits = (coerce_type-Coerced ctx field.inner.typ field.span value is).2
      after (err error) is fits = cc

  AllKept-TypedFields :
      (fields : ParamsStruct) (values out : ValueObject p)
      → AllKept ctx fields values out
      → field_errors ctx fields values ≡ []
      → TypedFields fields out
  unfolding field_errors
  AllKept-TypedFields [] values out all fits = tt
  AllKept-TypedFields ((key, field) ∷ fields) values out all fits =
      let split =
        nil_of_append
          (field_error key field field.inner.optional (check_found ctx field (get key values))) _
          fits in
      (
        subst (TypedField field) (sym all.0) (kept-TypedField key field (get key values) split.0),
        AllKept-TypedFields fields values out all.1 split.1,
      )

  pub Accepts-TypedStruct :
      (fields : ParamsStruct) (values : ValueObject p)
      → IsStruct fields
      → Accepts ctx fields values
      → TypedStruct fields (coerced_by ctx fields values)
  Accepts-TypedStruct fields values distinct fits = (
    AllKept-TypedFields fields values (coerced_by ctx fields values)
        (coerced_by-AllKept ctx fields values distinct) fits.0,
    coerced_by-Undeclared ctx fields values,
  )
