-- ===== src/Params/Coerce.antt =====
-- params/src/lib.rs: values checked against a declaration, and their paths rewritten.
use lusid.Base.{
  ℕ, suc, Option, none, some, List, [], ◌∷◌, ◌++◌, String, string_eq, Bool, true, false, ite,
  if◌then◌else◌, Result, ok, err, map_err, ◌>>=◌,
}
use lusid.Params.Value.{
  Platform, Span, Spanned, spanned, Value, Values, ValueObject, boolean, string, number, list,
  object, host_path, target_path, empty_list, item, empty_object, entry, insert, swap_remove,
  Removed,
}
use lusid.Params.Schema.{
  ParamType, ParamField, ParamsStruct, ParamTypes, boolean_type, string_type, number_type,
  list_type, object_type, host_path_type, target_path_type, struct_types, union_types,
}

pub record ParamsContext : Type 0 where
  pub root_path : String

pub data ValidateValueError (p : Platform) : Type 0 where
  type_mismatch : (expected : Spanned ParamType) (got : Spanned (Value p)) → ValidateValueError p
  list_item : (index : ℕ) → ValidateValueError p → ValidateValueError p
  object_entry : (key : String) → ValidateValueError p → ValidateValueError p

pub data ParamValidationError (p : Platform) : Type 0 where
  missing_param : (key : String) (expected : Spanned ParamType) → ParamValidationError p
  unknown_param : (key : String) (value : Spanned (Value p)) → ParamValidationError p
  invalid_param : (key : String) → ValidateValueError p → ParamValidationError p

pub record ParamsStructValidationError (p : Platform) : Type 0 where
  pub errors : List (ParamValidationError p)

pub data ParamsValidationError (p : Platform) : Type 0 where
  values_without_types types_without_values values_not_an_object : ParamsValidationError p
  struct_error : ParamsStructValidationError p → ParamsValidationError p
  union_error : List (ParamsStructValidationError p) → ParamsValidationError p
  empty_union : ParamsValidationError p

-- The result of checking one value, of a run of them and of a struct.
abbrev pub Checked : Platform → Type 0 → Type 0
Checked p A = Result (ValidateValueError p) A

abbrev pub CheckedStruct : Platform → Type 0
CheckedStruct p = Result (ParamsStructValidationError p) (Spanned (Value p))

-- The state of the walk over the declared fields.
pub record Walk (p : Platform) : Type 0 where
  pub errors : List (ParamValidationError p)
  pub coerced : ValueObject p
  pub values : ValueObject p

unfoldable pub coerce_origin : Platform → Span → ParamsContext → String
coerce_origin p span ctx =
    ite (string_eq.dec span.source "") ctx.root_path (elim (p.parent span.source) [
      | some parent ↦ ite (string_eq.dec parent "") ctx.root_path parent
      | none ↦ ctx.root_path
    ])

module _ {p : Platform} where
  unfoldable pub mismatch : Spanned ParamType → Spanned (Value p) → ValidateValueError p
  mismatch typ value = type_mismatch typ value

  -- The loop over the items of a list.
  unfoldable pub coerce_items :
      (Spanned (Value p) → Checked p (Spanned (Value p))) → ℕ → Values p → Checked p (Values p)
  coerce_items coerce index empty_list = ok empty_list
  coerce_items coerce index (item value span items) =
      map_err (list_item index) (coerce (spanned value span)) >>= λ coerced.
      coerce_items coerce (suc index) items >>= λ out. ok (item coerced.inner coerced.span out)

  -- The loop over the entries of an object, whose keys differ, so that each `insert` appends.
  unfoldable pub coerce_entries :
      (Spanned (Value p) → Checked p (Spanned (Value p)))
      → ValueObject p
      → Checked p (ValueObject p)
  coerce_entries coerce empty_object = ok empty_object
  coerce_entries coerce (entry key value span entries) =
      map_err (object_entry key) (coerce (spanned value span)) >>= λ coerced.
      coerce_entries coerce entries >>= λ out. ok (entry key coerced.inner coerced.span out)

  -- The tests of a value against each type of a single value.
  unfoldable pub coerce_boolean :
      ParamsContext → Spanned ParamType → Value p → Span → Checked p (Spanned (Value p))
  coerce_boolean ctx typ (boolean b) span = ok (spanned (boolean b) span)
  coerce_boolean ctx typ value span = err (mismatch typ (spanned value span))

  unfoldable pub coerce_string :
      ParamsContext → Spanned ParamType → Value p → Span → Checked p (Spanned (Value p))
  coerce_string ctx typ (string s) span = ok (spanned (string s) span)
  coerce_string ctx typ value span = err (mismatch typ (spanned value span))

  unfoldable pub coerce_number :
      ParamsContext → Spanned ParamType → Value p → Span → Checked p (Spanned (Value p))
  coerce_number ctx typ (number n) span = ok (spanned (number n) span)
  coerce_number ctx typ value span = err (mismatch typ (spanned value span))

  unfoldable pub coerce_host_path :
      ParamsContext → Spanned ParamType → Value p → Span → Checked p (Spanned (Value p))
  coerce_host_path ctx typ (host_path path) span = ok (spanned (host_path path) span)
  coerce_host_path ctx typ (string s) span =
      if p.is_absolute s
      then err (mismatch typ (spanned (string s) span))
      else ok (spanned (host_path (p.join (coerce_origin p span ctx) s)) span)
  coerce_host_path ctx typ value span = err (mismatch typ (spanned value span))

  unfoldable pub coerce_target_path :
      ParamsContext → Spanned ParamType → Value p → Span → Checked p (Spanned (Value p))
  coerce_target_path ctx typ (target_path path) span = ok (spanned (target_path path) span)
  coerce_target_path ctx typ (string s) span =
      if p.is_absolute s
      then ok (spanned (target_path s) span)
      else err (mismatch typ (spanned (string s) span))
  coerce_target_path ctx typ value span = err (mismatch typ (spanned value span))

  unfoldable pub coerce_list :
      (Spanned (Value p) → Checked p (Spanned (Value p)))
      → Spanned ParamType
      → Value p
      → Span
      → Checked p (Spanned (Value p))
  coerce_list coerce typ (list items) span =
      coerce_items coerce 0 items >>= λ out. ok (spanned (list out) span)
  coerce_list coerce typ value span = err (mismatch typ (spanned value span))

  unfoldable pub coerce_object :
      (Spanned (Value p) → Checked p (Spanned (Value p)))
      → Spanned ParamType
      → Value p
      → Span
      → Checked p (Spanned (Value p))
  coerce_object coerce typ (object entries) span =
      coerce_entries coerce entries >>= λ out. ok (spanned (object out) span)
  coerce_object coerce typ value span = err (mismatch typ (spanned value span))

  unfoldable pub coerce_type :
      ParamsContext → ParamType → Span → Spanned (Value p) → Checked p (Spanned (Value p))
  coerce_type ctx boolean_type at v = coerce_boolean ctx (spanned boolean_type at) v.inner v.span
  coerce_type ctx string_type at v = coerce_string ctx (spanned string_type at) v.inner v.span
  coerce_type ctx number_type at v = coerce_number ctx (spanned number_type at) v.inner v.span
  coerce_type ctx host_path_type at v =
      coerce_host_path ctx (spanned host_path_type at) v.inner v.span
  coerce_type ctx target_path_type at v =
      coerce_target_path ctx (spanned target_path_type at) v.inner v.span
  coerce_type ctx (list_type typ place) at v =
      coerce_list (coerce_type ctx typ place) (spanned (list_type typ place) at) v.inner v.span
  coerce_type ctx (object_type typ place) at v =
      coerce_object (coerce_type ctx typ place) (spanned (object_type typ place) at) v.inner v.span

  -- What a field found among the values does to the walk.
  unfoldable pub take_param :
      String → Checked p (Spanned (Value p)) → ValueObject p → Walk p → Walk p
  take_param key (ok coerced) rest walk = record {
    errors = walk.errors;
    coerced = insert key coerced walk.coerced;
    values = rest;
  }
  take_param key (err error) rest walk = record {
    errors = walk.errors ++ invalid_param key error ∷ [];
    coerced = walk.coerced;
    values = rest;
  }

  -- What a field does that is not among the values.
  unfoldable pub miss_param : String → Spanned ParamField → Bool → Walk p → Walk p
  miss_param key field true walk = walk
  miss_param key field false walk = record {
    errors = walk.errors ++ missing_param key (spanned field.inner.typ field.span) ∷ [];
    coerced = walk.coerced;
    values = walk.values;
  }

  unfoldable pub take_found :
      ParamsContext → String → Spanned ParamField → Option (Removed p) → Walk p → Walk p
  take_found ctx key field (some (value, rest)) walk =
      take_param key (coerce_type ctx field.inner.typ field.span value) rest walk
  take_found ctx key field none walk = miss_param key field field.inner.optional walk

  unfoldable pub coerce_field : ParamsContext → String → Spanned ParamField → Walk p → Walk p
  coerce_field ctx key field walk = take_found ctx key field (swap_remove key walk.values) walk

  unfoldable pub coerce_fields : ParamsContext → ParamsStruct → Walk p → Walk p
  coerce_fields ctx [] walk = walk
  coerce_fields ctx ((key, field) ∷ fields) walk =
      coerce_fields ctx fields (coerce_field ctx key field walk)

  -- The values that no field took.
  unfoldable pub unknown_params : ValueObject p → List (ParamValidationError p)
  unknown_params empty_object = []
  unknown_params (entry key value span entries) =
      unknown_param key (spanned value span) ∷ unknown_params entries

  unfoldable pub finish_struct :
      List (ParamValidationError p) → ValueObject p → Span → CheckedStruct p
  finish_struct [] coerced span = ok (spanned (object coerced) span)
  finish_struct (error ∷ errors) coerced span = err (record { errors = error ∷ errors })

  unfoldable pub coerce_struct :
      ParamsStruct → ValueObject p → Span → ParamsContext → CheckedStruct p
  coerce_struct fields values span ctx =
      let walk =
        coerce_fields ctx fields
          (record { errors = []; coerced = empty_object; values = values }) in
      finish_struct (walk.errors ++ unknown_params walk.values) walk.coerced span

  -- The loop over the cases of a union.
  unfoldable pub try_cases :
      List ParamsStruct
      → List (ParamsStructValidationError p)
      → ValueObject p
      → Span
      → ParamsContext
      → Result (ParamsValidationError p) (Option (Spanned (Value p)))
  try_cases [] case_errors values span ctx = err (union_error case_errors)
  try_cases (fields ∷ cases) case_errors values span ctx =
      elim (coerce_struct fields values span ctx) [
        | ok coerced ↦ ok (some coerced)
        | err error ↦ try_cases cases (case_errors ++ error ∷ []) values span ctx
      ]

  unfoldable pub validate_object :
      ParamTypes
      → ValueObject p
      → Span
      → ParamsContext
      → Result (ParamsValidationError p) (Option (Spanned (Value p)))
  validate_object (struct_types fields) values span ctx =
      elim (coerce_struct fields values span ctx) [
        | ok coerced ↦ ok (some coerced)
        | err error ↦ err (struct_error error)
      ]
  validate_object (union_types []) values span ctx = err empty_union
  validate_object (union_types (fields ∷ cases)) values span ctx =
      try_cases (fields ∷ cases) [] values span ctx

  unfoldable pub validate_value :
      ParamTypes
      → Value p
      → Span
      → ParamsContext
      → Result (ParamsValidationError p) (Option (Spanned (Value p)))
  validate_value types (object values) span ctx = validate_object types values span ctx
  validate_value types value span ctx = err values_not_an_object

  unfoldable pub validate :
      Option (Spanned ParamTypes)
      → Option (Spanned (Value p))
      → ParamsContext
      → Result (ParamsValidationError p) (Option (Spanned (Value p)))
  validate (some types) (some value) ctx = validate_value types.inner value.inner value.span ctx
  validate (some types) none ctx = err types_without_values
  validate none (some value) ctx = err values_without_types
  validate none none ctx = ok none
