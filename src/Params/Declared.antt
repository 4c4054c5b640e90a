-- ===== src/Params/Declared.antt =====
-- params/src/lib.rs: every declaration can be written as a value, which is read as it.
use lusid.Base.{ℕ, suc, ◌≡◌, refl, ap, some, List, [], ◌∷◌, String, string_eq, ok}
use lusid.Params.Value.{
  Platform, Span, Spanned, Value, Values, ValueObject, string, boolean, list, object, empty_list,
  item, empty_object, entry, get, swap_remove, last_first, push_under,
}
use lusid.Params.Schema.{
  ParamType, boolean_type, string_type, number_type, list_type, object_type, host_path_type,
  target_path_type, ParamField, ParamsStruct, ParamTypes, struct_types, union_types,
}
use lusid.Params.Declare.{
  keep_span, list_of, object_of, type_named, type_of_entries, param_type_from, optional_flag,
  field_of, field_of_entries, param_field_from, fields_from, case_from, cases_from,
  param_types_from, struct_entry, union_item_entry, ParamTypesFromRimuError,
  ParamFieldFromRimuError,
}

module _ {p : Platform} (at : Span) where
  -- A type as a plan writes it: its name under "type", and what it holds under "item" or "value".
  unfoldable pub write_entries : ParamType → ValueObject p
  write_entries boolean_type = entry "type" (string "boolean") at empty_object
  write_entries string_type = entry "type" (string "string") at empty_object
  write_entries number_type = entry "type" (string "number") at empty_object
  write_entries host_path_type = entry "type" (string "host-path") at empty_object
  write_entries target_path_type = entry "type" (string "target-path") at empty_object
  write_entries (list_type typ place) =
      entry "type" (string "list") at (entry "item" (object (write_entries typ)) place empty_object)
  write_entries (object_type typ place) =
      entry "type" (string "object") at
        (entry "value" (object (write_entries typ)) place empty_object)

  unfoldable pub write_field : ParamField → Value p
  write_field field =
      object (entry "optional" (boolean field.optional) at (write_entries field.typ))

  unfoldable pub write_fields : ParamsStruct → ValueObject p
  write_fields [] = empty_object
  write_fields ((key, field) ∷ fields) =
      entry key (write_field field.inner) field.span (write_fields fields)

  unfoldable pub write_cases : List ParamsStruct → Values p
  write_cases [] = empty_list
  write_cases (fields ∷ cases) = item (object (write_fields fields)) at (write_cases cases)

  unfoldable pub write_types : ParamTypes → Value p
  write_types (struct_types fields) = object (write_fields fields)
  write_types (union_types cases) = list (write_cases cases)

module _ (p : Platform) (at : Span) where
  type-written :
      (typ : ParamType) → param_type_from (object (write_entries {p = p} at typ)) ≡ ok typ
  unfolding param_type_from get type_of_entries type_named list_of object_of keep_span write_entries
      string_eq
  type-written boolean_type = refl
  type-written string_type = refl
  type-written number_type = refl
  type-written host_path_type = refl
  type-written target_path_type = refl
  type-written (list_type typ place) =
      ap (λ r. list_of (some (keep_span r place))) (type-written typ)
  type-written (object_type typ place) =
      ap (λ r. object_of (some (keep_span r place))) (type-written typ)

  -- With its entries as `swap_remove` leaves them.
  type-moved :
      (typ : ParamType)
      → param_type_from (object (last_first (write_entries {p = p} at typ))) ≡ ok typ
  unfolding param_type_from get type_of_entries type_named list_of object_of keep_span write_entries
      string_eq last_first push_under
  type-moved boolean_type = refl
  type-moved string_type = refl
  type-moved number_type = refl
  type-moved host_path_type = refl
  type-moved target_path_type = refl
  type-moved (list_type typ place) = ap (λ r. list_of (some (keep_span r place))) (type-written typ)
  type-moved (object_type typ place) =
      ap (λ r. object_of (some (keep_span r place))) (type-written typ)

  field-written : (field : ParamField) → param_field_from (write_field {p = p} at field) ≡ ok field
  unfolding param_field_from field_of_entries optional_flag field_of write_field swap_remove
      string_eq
  field-written field = rw (type-moved field.typ) refl

  fields-written :
      (fail : String → Spanned ParamFieldFromRimuError → ParamTypesFromRimuError)
      (fields : ParamsStruct)
      → fields_from fail (write_fields {p = p} at fields) ≡ ok fields
  unfolding fields_from write_fields keep_span
  fields-written fail [] = refl
  fields-written fail ((key, field) ∷ fields) =
      rw (field-written field.inner) (rw (fields-written fail fields) refl)

  cases-written :
      (index : ℕ) (cases : List ParamsStruct)
      → cases_from index (write_cases {p = p} at cases) ≡ ok cases
  unfolding cases_from case_from write_cases
  cases-written index [] = refl
  cases-written index (fields ∷ cases) =
      rw (fields-written (union_item_entry index) fields)
        (rw (cases-written (suc index) cases) refl)

  -- Every declaration, written as a value the way a plan writes it, with each type's name under
  -- "type", what it holds under "item" or "value", and each field's "optional" flag, is read as
  -- that declaration, a struct as a struct and a union as a union.
  pub param_types_from-write_types :
      (types : ParamTypes) → param_types_from (write_types {p = p} at types) ≡ ok types
  unfolding param_types_from write_types
  param_types_from-write_types (struct_types fields) = rw (fields-written struct_entry fields) refl
  param_types_from-write_types (union_types cases) = rw (cases-written 0 cases) refl
