-- ===== src/Params/Tests.antt =====
-- Parameters checked and parsed on a concrete platform, and the theorems there.
use lusid.Base.{
  texts_differ, All, ℕ, ◌≡◌, ◌↔◌, refl, subst, none, some, List, [], ◌∷◌, string_eq, true, false,
  ite, if◌then◌else◌, ltb, ok, err,
}
use lusid.Params.Value.{
  Platform, Span, Spanned, spanned, Value, ValueObject, string, object, host_path, entry,
  empty_object, get, insert, swap_remove, last_first, push_under, keep_before,
}
use lusid.Params.Maps.{IsMap}
use lusid.Params.Schema.{
  ParamsStruct, ParamTypes, union_types, host_path_type, string_type, number_type,
}
use lusid.Params.Declare.{
  param_types_from, param_type_from, type_of_entries, type_named, unknown_type,
}
use lusid.Params.Declared.{write_types, param_types_from-write_types}
use lusid.Params.Coerce.{
  ParamsContext, unknown_param, type_mismatch, coerce_type, coerce_host_path, coerce_string,
  coerce_number, coerce_origin, coerce_struct, coerce_fields, coerce_field, take_found, take_param,
  miss_param, unknown_params, finish_struct, try_cases, validate_object, validate_value, validate,
  mismatch,
}
use lusid.Params.Lookups.{IsStruct, coerced_by}
use lusid.Params.Walked.{Accepts, coerce_struct-ok}
use lusid.Params.Agreed.{ParsesAs, coerce_type-ParsesAs}
use lusid.Params.Conforms.{IsMapped, Conforms}
use lusid.Params.Validated.{validate-Conforms, validate-idempotent}

program : Unit {0}
unfolding coerce_type coerce_host_path coerce_string coerce_number coerce_origin coerce_struct
    coerce_fields coerce_field take_found take_param miss_param unknown_params finish_struct
    try_cases validate_object validate_value validate mismatch get insert swap_remove last_first
    push_under keep_before string_eq
program = tt

abbrev platform : Platform
platform = record {
  Number = ℕ;
  Function = Unit;
  to_u32 = λ n. if ltb n 4294967296 then some n else none;
  is_absolute = λ s. ite (string_eq.dec s "/abs") true false;
  parent = λ s. ite (string_eq.dec s "/plans/foo.lusid") (some "/plans") none;
  join = λ origin s. ite (string_eq.dec s "bar") "/plans/bar" origin;
}

abbrev in_plan : Span
in_plan = record { source = "/plans/foo.lusid"; start = 0; end = 3 }

abbrev ctx : ParamsContext
ctx = record { root_path = "/root" }

-- A case with a number, and one with a path and a name that may be left out.
abbrev cases : List ParamsStruct
cases =
    (("size", spanned (record { typ = number_type; optional = false }) in_plan) ∷ [])
    ∷ (("path", spanned (record { typ = host_path_type; optional = false }) in_plan)
        ∷ ("name", spanned (record { typ = string_type; optional = true }) in_plan)
        ∷ [])
    ∷ []

abbrev given : Spanned (Value platform)
given = spanned (object (entry "path" (string "bar") in_plan empty_object)) in_plan

abbrev resolved : Spanned (Value platform)
resolved = spanned (object (entry "path" (host_path "/plans/bar") in_plan empty_object)) in_plan

abbrev types : Spanned ParamTypes
types = spanned (union_types cases) in_plan

validated : validate (some types) (some given) ctx ≡ ok (some resolved)
unfolding program
validated = refl

mapped : (map : ValueObject platform) → IsMap map → IsMapped {p = platform} (object map)
mapped map h entries same = subst IsMap (inner_same same) h
  where
    inner_same :
        {other : ValueObject platform}
        → ◌≡◌ {A = Value platform} (object map) (object other)
        → map ≡ other
    inner_same e = cc

given-IsMapped : IsMapped given.inner
unfolding program
given-IsMapped = mapped (entry "path" (string "bar") in_plan empty_object) (refl, tt)

cases-IsStruct : All IsStruct cases
cases-IsStruct = ((tt, tt), ((((λ e. texts_differ "name" "path" refl e), tt), (tt, tt)), tt))

validate-Conforms_example : Conforms types.inner resolved.inner
validate-Conforms_example =
    validate-Conforms ctx types given resolved cases-IsStruct given-IsMapped validated

validate-idempotent_example : validate (some types) (some resolved) ctx ≡ ok (some resolved)
validate-idempotent_example =
    validate-idempotent ctx types given resolved cases-IsStruct given-IsMapped validated

path_coerced :
    coerce_type {p = platform} ctx host_path_type in_plan (spanned (string "bar") in_plan)
    ≡ ok (spanned (host_path "/plans/bar") in_plan)
unfolding program
path_coerced = refl

coerce_type-ParsesAs_example :
    ParsesAs {p = platform} host_path_type (spanned (host_path "/plans/bar") in_plan)
coerce_type-ParsesAs_example =
    coerce_type-ParsesAs ctx host_path_type in_plan (spanned (string "bar") in_plan)
      (spanned (host_path "/plans/bar") in_plan) path_coerced

abbrev path_fields : ParamsStruct
path_fields =
    ("path", spanned (record { typ = host_path_type; optional = false }) in_plan)
    ∷ ("name", spanned (record { typ = string_type; optional = true }) in_plan)
    ∷ []

abbrev given_map : ValueObject platform
given_map = entry "path" (string "bar") in_plan empty_object

given_map-IsMap : IsMap given_map
unfolding program
given_map-IsMap = (refl, tt)

coerce_struct-ok_example : (coerce_struct path_fields given_map in_plan ctx ≡ ok resolved) ↔ (
    Accepts ctx path_fields given_map
    × (resolved ≡ spanned (object (coerced_by ctx path_fields given_map)) in_plan))
coerce_struct-ok_example =
    coerce_struct-ok ctx path_fields given_map in_plan resolved cases-IsStruct.1.0 given_map-IsMap

-- A key that no field has is refused, and so is a path that is absolute.
unknown_refused :
    coerce_struct {p = platform} path_fields
      (entry "path" (string "bar") in_plan (entry "extra" (string "oops") in_plan empty_object))
      in_plan
      ctx
    ≡ err (record { errors = unknown_param "extra" (spanned (string "oops") in_plan) ∷ [] })
unfolding program
unknown_refused = refl

absolute_refused :
    coerce_type {p = platform} ctx host_path_type in_plan (spanned (string "/abs") in_plan)
    ≡ err (type_mismatch (spanned host_path_type in_plan) (spanned (string "/abs") in_plan))
unfolding program
absolute_refused = refl

param_types_from-write_types_example :
    param_types_from {p = platform} (write_types in_plan (union_types cases))
    ≡ ok (union_types cases)
param_types_from-write_types_example =
    param_types_from-write_types platform in_plan (union_types cases)

-- A type that there is not is refused by its name.
unknown_type_refused :
    param_type_from {p = platform} (object (entry "type" (string "map") in_plan empty_object))
    ≡ err (unknown_type "map")
unfolding program param_type_from type_of_entries type_named get
unknown_type_refused = refl
