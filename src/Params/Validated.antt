-- ===== src/Params/Validated.antt =====
-- params/src/lib.rs: what `validate` promises of the values it returns.
use mathlib.Core.Option.{some-injective}
use lusid.Base.{
  ◌≡◌, inl, inr, refl, sym, subst, ◌∙◌, Option, some, [], ◌∷◌, ok, ok-injective, ok-ne-err,
  Result-cases,
}
use lusid.Params.Value.{Platform, Span, Spanned, spanned, Value, ValueObject, object}
use lusid.Params.Maps.{IsMap}
use lusid.Params.Schema.{ParamsStruct, ParamTypes, struct_types, union_types}
use lusid.Params.Coerce.{ParamsContext, coerce_struct, validate_object, validate_value, validate}
use lusid.Params.Conforms.{IsSchema, IsMapped, Conforms}
use lusid.Params.Cases.{struct-Settled, cases-Settled}

module _ {p : Platform} (ctx : ParamsContext) where
  struct_taken :
      (fields : ParamsStruct) (values : ValueObject p) (span : Span) (w : Spanned (Value p))
      → coerce_struct fields values span ctx ≡ ok w
      → validate_object (struct_types fields) values span ctx ≡ ok (some w)
  unfolding validate_object
  struct_taken fields values span w h = rw (h, validate_object) refl

  object_settled :
      (types : ParamTypes) (values : ValueObject p) (span : Span)
      {result : Option (Spanned (Value p))}
      → IsSchema types
      → IsMap values
      → validate_object types values span ctx ≡ ok result
      → (out : ValueObject p) × (result ≡ some (spanned (object out) span))
        × Conforms types (object out)
        × (validate_object types out span ctx ≡ ok (some (spanned (object out) span)))
  unfolding validate_object Conforms
  object_settled (struct_types fields) values span {result} distinct is_map h =
      elim (Result-cases (coerce_struct fields values span ctx)) [
        | inl (w, took) ↦
            let done = struct-Settled ctx fields values span distinct is_map took in
            (
              done.0,
              sym (ok-injective (sym (struct_taken fields values span w took) ∙ h)) ∙ done.1,
              (done.0, refl, done.2),
              struct_taken fields done.0 span (spanned (object done.0) span) done.5,
            )
        | inr (e, refused) ↦ absurd (ok-ne-err (sym (rw (refused, validate_object) at h)))
      ]
  object_settled (union_types []) values span distinct is_map h = absurd (ok-ne-err (sym h))
  object_settled (union_types (fields ∷ cases)) values span distinct is_map h =
      let done = cases-Settled ctx (fields ∷ cases) [] values span distinct is_map h in
      (done.0, done.1, (done.0, refl, done.2), done.5 [])

  validate_settled :
      (types : Spanned ParamTypes) (v : Spanned (Value p)) {result : Option (Spanned (Value p))}
      → IsSchema types.inner
      → IsMapped v.inner
      → validate (some types) (some v) ctx ≡ ok result
      → (w : Spanned (Value p)) × (result ≡ some w)
        × Conforms types.inner w.inner
        × (validate (some types) (some w) ctx ≡ ok (some w))
  unfolding validate validate_value
  validate_settled types v distinct is_map h = by_value v.inner v.span is_map h
    where
      by_value :
          (value : Value p) (span : Span) {result : Option (Spanned (Value p))}
          → IsMapped value
          → validate_value types.inner value span ctx ≡ ok result
          → (w : Spanned (Value p)) × (result ≡ some w)
            × Conforms types.inner w.inner
            × (validate_value types.inner w.inner w.span ctx ≡ ok (some w))
      by_value (object values) span is_map h =
          let done = object_settled types.inner values span distinct (is_map values refl) h in
          (spanned (object done.0) span, done.1, done.2, done.3)
      by_value value span is_map h = cc

  -- If `validate` accepts values for a declaration, and the names of the fields and the keys of
  -- the values differ, then the values it returns are as declared: each field is there with a
  -- value of its type or is optional and left out, and no other key is there; for a union, so for
  -- one of its cases.
  pub validate-Conforms :
      (types : Spanned ParamTypes) (v w : Spanned (Value p))
      → IsSchema types.inner
      → IsMapped v.inner
      → validate (some types) (some v) ctx ≡ ok (some w)
      → Conforms types.inner w.inner
  validate-Conforms types v w distinct is_map h =
      let done = validate_settled types v distinct is_map h in
      let same : done.0 ≡ w = some-injective done.0 w (sym done.1) in
      subst (λ z. Conforms types.inner z.inner) same done.2

  -- If `validate` accepts values for a declaration, and the names of the fields and the keys of
  -- the values differ, then it accepts the values it returns, under the same declaration, and
  -- returns them as they are; for a union too, where the first case that fits is taken.
  pub validate-idempotent :
      (types : Spanned ParamTypes) (v w : Spanned (Value p))
      → IsSchema types.inner
      → IsMapped v.inner
      → validate (some types) (some v) ctx ≡ ok (some w)
      → validate (some types) (some w) ctx ≡ ok (some w)
  validate-idempotent types v w distinct is_map h =
      let done = validate_settled types v distinct is_map h in
      let same : done.0 ≡ w = some-injective done.0 w (sym done.1) in
      subst (λ z. validate (some types) (some z) ctx ≡ ok (some z)) same done.3
