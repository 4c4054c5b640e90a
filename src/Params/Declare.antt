-- ===== src/Params/Declare.antt =====
-- params/src/lib.rs: a declaration of parameters read from the value that a plan gives for it, with
-- rimu-interop/src/from_rimu.rs, which keeps the span of what it reads.
use lusid.Base.{
  ℕ, suc, Option, none, some, List, [], ◌∷◌, String, string_eq, ◌=?◌, Bool, false, ite,
  if◌then◌else◌, Result, ok, err, map_err, ◌>>=◌,
}
use lusid.Params.Value.{
  Platform, Span, Spanned, spanned, Value, Values, ValueObject, string, boolean, list, object,
  empty_list, item, empty_object, entry, get, swap_remove, Removed,
}
use lusid.Params.Schema.{
  ParamType, boolean_type, string_type, number_type, list_type, object_type, host_path_type,
  target_path_type, ParamField, ParamsStruct, ParamTypes, struct_types, union_types,
}

-- The boxed error of a nested type stands with its span.
pub data ParamTypeFromRimuError : Type 0 where
  type_not_an_object has_no_type list_missing_item object_missing_value : ParamTypeFromRimuError
  type_not_a_string : Span → ParamTypeFromRimuError
  unknown_type : String → ParamTypeFromRimuError
  list_item_type object_value_type : ParamTypeFromRimuError → Span → ParamTypeFromRimuError

pub data ParamFieldFromRimuError : Type 0 where
  field_not_an_object : ParamFieldFromRimuError
  optional_not_a_boolean : Span → ParamFieldFromRimuError
  field_type : ParamTypeFromRimuError → ParamFieldFromRimuError

pub data ParamTypesFromRimuError : Type 0 where
  not_an_object_or_list : ParamTypesFromRimuError
  struct_entry : (key : String) → Spanned ParamFieldFromRimuError → ParamTypesFromRimuError
  union_item_not_an_object : (index : ℕ) → Span → ParamTypesFromRimuError
  union_item_entry :
      (index : ℕ) → (key : String) → Spanned ParamFieldFromRimuError → ParamTypesFromRimuError

-- `from_rimu_spanned`, of what `from_rimu` yields for the value.
unfoldable pub keep_span : {E A : Type 0} → Result E A → Span → Result (Spanned E) (Spanned A)
keep_span (ok this) span = ok (spanned this span)
keep_span (err error) span = err (spanned error span)

-- A type that stands under a key, if there is one.
abbrev pub TypeUnder : Type 0
TypeUnder = Option (Result (Spanned ParamTypeFromRimuError) (Spanned ParamType))

unfoldable pub list_of : TypeUnder → Result ParamTypeFromRimuError ParamType
list_of none = err list_missing_item
list_of (some (ok typ)) = ok (list_type typ.inner typ.span)
list_of (some (err error)) = err (list_item_type error.inner error.span)

unfoldable pub object_of : TypeUnder → Result ParamTypeFromRimuError ParamType
object_of none = err object_missing_value
object_of (some (ok typ)) = ok (object_type typ.inner typ.span)
object_of (some (err error)) = err (object_value_type error.inner error.span)

-- `match typ.as_str()`, with the types under "item" and under "value".
unfoldable pub type_named : String → TypeUnder → TypeUnder → Result ParamTypeFromRimuError ParamType
type_named name items values =
    if name =? "boolean"
    then ok boolean_type
    else if name =? "string"
    then ok string_type
    else if name =? "number"
    then ok number_type
    else if name =? "host-path"
    then ok host_path_type
    else if name =? "target-path"
    then ok target_path_type
    else if name =? "list"
    then list_of items
    else if name =? "object"
    then object_of values
    else err (unknown_type name)

module _ {p : Platform} where
  unfoldable pub type_of_entries :
      Option (Spanned (Value p)) → TypeUnder → TypeUnder → Result ParamTypeFromRimuError ParamType
  type_of_entries none items values = err has_no_type
  type_of_entries (some typ) items values = elim typ.inner [
    | string name ↦ type_named name items values
    | _ ↦ err (type_not_a_string typ.span)
  ]

  -- `ParamType::from_rimu`; `type_under` is the removal of a key with the reading of its value.
  unfoldable mutual
    pub param_type_from : Value p → Result ParamTypeFromRimuError ParamType
    param_type_from (object entries) =
        type_of_entries (get "type" entries) (type_under "item" entries)
          (type_under "value" entries)
    param_type_from value = err type_not_an_object

    pub type_under : String → ValueObject p → TypeUnder
    type_under key empty_object = none
    type_under key (entry other value span entries) =
        ite (string_eq.dec other key) (some (keep_span (param_type_from value) span))
          (type_under key entries)

  unfoldable pub optional_flag : Spanned (Value p) → Result ParamFieldFromRimuError Bool
  optional_flag value = elim value.inner [
    | boolean b ↦ ok b
    | _ ↦ err (optional_not_a_boolean value.span)
  ]

  unfoldable pub field_of : Bool → ValueObject p → Result ParamFieldFromRimuError ParamField
  field_of optional entries = map_err field_type (param_type_from (object entries)) >>= λ typ.
      ok (record { typ = typ; optional = optional })

  unfoldable pub field_of_entries :
      Option (Removed p) → ValueObject p → Result ParamFieldFromRimuError ParamField
  field_of_entries (some (value, rest)) entries =
      optional_flag value >>= λ optional. field_of optional rest
  field_of_entries none entries = field_of false entries

  unfoldable pub param_field_from : Value p → Result ParamFieldFromRimuError ParamField
  param_field_from (object entries) = field_of_entries (swap_remove "optional" entries) entries
  param_field_from value = err field_not_an_object

  -- The loop over the entries of a struct, whose keys differ.
  unfoldable pub fields_from :
      (String → Spanned ParamFieldFromRimuError → ParamTypesFromRimuError)
      → ValueObject p
      → Result ParamTypesFromRimuError ParamsStruct
  fields_from fail empty_object = ok []
  fields_from fail (entry key value span entries) =
      map_err (fail key) (keep_span (param_field_from value) span) >>= λ field.
      fields_from fail entries >>= λ out. ok ((key, field) ∷ out)

  unfoldable pub case_from : ℕ → Value p → Span → Result ParamTypesFromRimuError ParamsStruct
  case_from index (object entries) span = fields_from (union_item_entry index) entries
  case_from index value span = err (union_item_not_an_object index span)

  -- The loop over the cases of a union.
  unfoldable pub cases_from : ℕ → Values p → Result ParamTypesFromRimuError (List ParamsStruct)
  cases_from index empty_list = ok []
  cases_from index (item value span items) = case_from index value span >>= λ fields.
      cases_from (suc index) items >>= λ cases. ok (fields ∷ cases)

  unfoldable pub param_types_from : Value p → Result ParamTypesFromRimuError ParamTypes
  param_types_from (object entries) =
      fields_from struct_entry entries >>= λ fields. ok (struct_types fields)
  param_types_from (list items) = cases_from 0 items >>= λ cases. ok (union_types cases)
  param_types_from value = err not_an_object_or_list
