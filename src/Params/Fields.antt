-- ===== src/Params/Fields.antt =====
-- params/src/parse.rs: `StructFields`, which takes the fields of an object by their names. A method
-- that changes it returns what is left of it.
use lusid.Base.{
  ℕ, Option, none, some, List, [], ◌∷◌, String, string_eq, Bool, ite, ok, err, map_err, ◌>>=◌,
}
use lusid.Params.Value.{
  Platform, Span, Spanned, spanned, Value, ValueObject, null, string, object, empty_object, entry,
  contains_key, swap_remove, Removed,
}
use lusid.Params.Parse.{
  ParseError, Parsed, StructFields, Read, mismatched, field, missing_field, unknown_field,
  unknown_discriminator, type_mismatch, parse_string, parse_bool, parse_u32, parse_host_path,
  parse_target_path, parse_list,
}

unfoldable pub find_tag : List String → String → Option String
find_tag [] got = none
find_tag (tag ∷ tags) got = ite (string_eq.dec tag got) (some tag) (find_tag tags got)

module _ {p : Platform} where
  unfoldable pub as_object : Value p → Span → Parsed p (StructFields p)
  as_object (object map) span = ok (record { map = map; span = span })
  as_object other span = mismatched "object" other span

  unfoldable pub new : Spanned (Value p) → Parsed p (StructFields p)
  new value = as_object value.inner value.span

  unfoldable pub has : StructFields p → String → Bool
  has fields key = contains_key key fields.map

  unfoldable pub missing : StructFields p → String → Spanned (ParseError p)
  missing fields key = spanned (missing_field key) fields.span

  unfoldable pub wrap_field : String → Spanned (ParseError p) → Spanned (ParseError p)
  wrap_field key error = spanned (field key error.inner error.span) error.span

  -- Where a key was found, its value is handed on with the fields left.
  unfoldable pub go_on :
      {A : Type 0}
      → Span
      → Read p A
      → (Spanned (Value p) → StructFields p → Read p A)
      → Option (Removed p)
      → Read p A
  go_on span absent present (some (value, rest)) =
      present value (record { map = rest; span = span })
  go_on span absent present none = absent

  -- `self.take(key)`
  unfoldable pub take_field :
      {A : Type 0}
      → String
      → StructFields p
      → Read p A
      → (Spanned (Value p) → StructFields p → Read p A)
      → Read p A
  take_field key fields absent present =
      go_on fields.span absent present (swap_remove key fields.map)

  unfoldable pub required :
      {A : Type 0} → String → (Spanned (Value p) → Parsed p A) → StructFields p → Read p A
  required key parse fields =
      take_field key fields (err (missing fields key))
        (λ value rest. map_err (wrap_field key) (parse value) >>= λ parsed. ok (parsed, rest))

  -- A null stands for a field that is not there.
  unfoldable pub parse_optional :
      {A : Type 0}
      → String
      → (Spanned (Value p) → Parsed p A)
      → Spanned (Value p)
      → Parsed p (Option A)
  parse_optional key parse value = elim value.inner [
    | null ↦ ok none
    | _ ↦ map_err (wrap_field key) (parse value) >>= λ parsed. ok (some parsed)
  ]

  unfoldable pub optional :
      {A : Type 0} → String → (Spanned (Value p) → Parsed p A) → StructFields p → Read p (Option A)
  optional key parse fields =
      take_field key fields (ok (none, fields))
        (λ value rest. parse_optional key parse value >>= λ parsed. ok (parsed, rest))

  unfoldable pub parse_discriminator : String → List String → Spanned (Value p) → Parsed p String
  parse_discriminator key expected value = elim value.inner [
    | string got ↦ elim (find_tag expected got) [
      | some tag ↦ ok tag
      | none ↦ err (spanned (unknown_discriminator key (string got) expected) value.span)
    ]
    | other ↦ err (wrap_field key (spanned (type_mismatch "string discriminator" other) value.span))
  ]

  unfoldable pub take_discriminator : String → List String → StructFields p → Read p String
  take_discriminator key expected fields =
      take_field key fields (err (missing fields key))
        (λ value rest. parse_discriminator key expected value >>= λ tag. ok (tag, rest))

  unfoldable pub required_string : String → StructFields p → Read p String
  required_string key = required key parse_string

  unfoldable pub optional_string : String → StructFields p → Read p (Option String)
  optional_string key = optional key parse_string

  unfoldable pub required_bool : String → StructFields p → Read p Bool
  required_bool key = required key parse_bool

  unfoldable pub optional_bool : String → StructFields p → Read p (Option Bool)
  optional_bool key = optional key parse_bool

  unfoldable pub required_u32 : String → StructFields p → Read p ℕ
  required_u32 key = required key parse_u32

  unfoldable pub optional_u32 : String → StructFields p → Read p (Option ℕ)
  optional_u32 key = optional key parse_u32

  unfoldable pub required_host_path : String → StructFields p → Read p String
  required_host_path key = required key parse_host_path

  unfoldable pub required_host_path_spanned : String → StructFields p → Read p (Spanned String)
  required_host_path_spanned key =
      required key (λ value. parse_host_path value >>= λ path. ok (spanned path value.span))

  unfoldable pub required_target_path : String → StructFields p → Read p String
  required_target_path key = required key parse_target_path

  unfoldable pub optional_target_path : String → StructFields p → Read p (Option String)
  optional_target_path key = optional key parse_target_path

  unfoldable pub required_string_list : String → StructFields p → Read p (List String)
  required_string_list key = required key (parse_list parse_string)

  unfoldable pub optional_string_list : String → StructFields p → Read p (Option (List String))
  optional_string_list key = optional key (parse_list parse_string)

  unfoldable pub finish_entries : ValueObject p → Parsed p Unit
  finish_entries empty_object = ok tt
  finish_entries (entry key value span entries) = err (spanned (unknown_field key value) span)

  unfoldable pub finish : StructFields p → Parsed p Unit
  finish fields = finish_entries fields.map
