-- ===== src/Params/Parse.antt =====
-- params/src/parse.rs: a value read into the typed parameters of a resource.
use lusid.Base.{
  ℕ, suc, none, some, List, [], ◌∷◌, String, string_eq, Bool, if◌then◌else◌, Result, ok, err,
  map_err, ◌>>=◌,
}
use lusid.Params.Value.{
  Platform, Span, Spanned, spanned, Value, Values, ValueObject, boolean, string, number, list,
  host_path, target_path, empty_list, item,
}

pub data ParseError (p : Platform) : Type 0 where
  type_mismatch : (expected : String) (got : Value p) → ParseError p
  number_out_of_range_u32 : (value : p.Number) → ParseError p
  host_path_not_relative : (value : String) → ParseError p
  host_path_no_source_dir : (value : String) (source_id : String) → ParseError p
  target_path_not_absolute : (value : String) → ParseError p
  list_item : (index : ℕ) (error : ParseError p) (span : Span) → ParseError p
  field : (key : String) (error : ParseError p) (span : Span) → ParseError p
  missing_field : (key : String) → ParseError p
  unknown_field : (key : String) (value : Value p) → ParseError p
  unknown_discriminator : (key : String) (got : Value p) (expected : List String) → ParseError p

abbrev pub Parsed : Platform → Type 0 → Type 0
Parsed p A = Result (Spanned (ParseError p)) A

-- The entries that have not been read yet.
pub record StructFields (p : Platform) : Type 0 where
  pub map : ValueObject p
  pub span : Span

-- What a read yields with the fields that it leaves; an error ends the parse.
abbrev pub Read : Platform → Type 0 → Type 0
Read p A = Parsed p (A × StructFields p)

module _ {p : Platform} where
  unfoldable pub mismatched {ℓ} :
      {A : Type ℓ} → String → Value p → Span → Result (Spanned (ParseError p)) A
  mismatched expected got span = err (spanned (type_mismatch expected got) span)

  unfoldable pub parse_string : Spanned (Value p) → Parsed p String
  parse_string value = elim value.inner [
    | string s ↦ ok s
    | other ↦ mismatched "string" other value.span
  ]

  unfoldable pub parse_bool : Spanned (Value p) → Parsed p Bool
  parse_bool value = elim value.inner [
    | boolean b ↦ ok b
    | other ↦ mismatched "boolean" other value.span
  ]

  unfoldable pub parse_number : Spanned (Value p) → Parsed p p.Number
  parse_number value = elim value.inner [
    | number n ↦ ok n
    | other ↦ mismatched "number" other value.span
  ]

  unfoldable pub parse_u32 : Spanned (Value p) → Parsed p ℕ
  parse_u32 value = parse_number value >>= λ n. elim (p.to_u32 n) [
    | some u ↦ ok u
    | none ↦ err (spanned (number_out_of_range_u32 n) value.span)
  ]

  -- A relative path in a text, against the directory of the file that the text stands in.
  unfoldable pub resolve_host_path : String → Span → Parsed p String
  resolve_host_path s span =
      if p.is_absolute s
      then err (spanned (host_path_not_relative s) span)
      else elim (p.parent span.source) [
        | some source_dir ↦ ok (p.join source_dir s)
        | none ↦ err (spanned (host_path_no_source_dir s span.source) span)
      ]

  unfoldable pub parse_host_path : Spanned (Value p) → Parsed p String
  parse_host_path value = elim value.inner [
    | host_path path ↦ ok path
    | string s ↦ resolve_host_path s value.span
    | other ↦ mismatched "host-path or relative string" other value.span
  ]

  unfoldable pub parse_target_path : Spanned (Value p) → Parsed p String
  parse_target_path value = elim value.inner [
    | target_path path ↦ ok path
    | string s ↦
        if p.is_absolute s then ok s else err (spanned (target_path_not_absolute s) value.span)
    | other ↦ mismatched "target-path or absolute string" other value.span
  ]

  -- The loop over the items of a list.
  unfoldable pub parse_items :
      {A : Type 0} → (Spanned (Value p) → Parsed p A) → ℕ → Values p → Parsed p (List A)
  parse_items parse_item index empty_list = ok []
  parse_items parse_item index (item value span items) =
      map_err (λ error. spanned (list_item index error.inner error.span) span)
        (parse_item (spanned value span))
      >>= λ parsed. parse_items parse_item (suc index) items >>= λ out. ok (parsed ∷ out)

  unfoldable pub parse_list :
      {A : Type 0} → (Spanned (Value p) → Parsed p A) → Spanned (Value p) → Parsed p (List A)
  parse_list parse_item value = elim value.inner [
    | list items ↦ parse_items parse_item 0 items
    | other ↦ mismatched "list" other value.span
  ]
