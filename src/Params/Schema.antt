-- ===== src/Params/Schema.antt =====
-- params/src/lib.rs: what a plan declares of its parameters.
use lusid.Base.{String, List, Bool, true, false}
use lusid.Params.Value.{Span, Spanned}

-- The boxed type of a list's items or of an object's values stands with its span.
pub data ParamType : Type 0 where
  boolean_type string_type number_type : ParamType
  list_type : (item : ParamType) (span : Span) → ParamType
  object_type : (value : ParamType) (span : Span) → ParamType
  host_path_type target_path_type : ParamType

pub record ParamField : Type 0 where
  pub typ : ParamType
  pub optional : Bool

unfoldable pub new : ParamType → ParamField
new typ = record { typ = typ; optional = false }

unfoldable pub with_optional : ParamField → ParamField
with_optional field = record { typ = field.typ; optional = true }

-- An `IndexMap`, walked in its order.
abbrev pub ParamsStruct : Type 0
ParamsStruct = List (String × Spanned ParamField)

pub data ParamTypes : Type 0 where
  struct_types : ParamsStruct → ParamTypes
  union_types : List ParamsStruct → ParamTypes
