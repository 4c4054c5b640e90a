-- ===== src/Params/Cases.antt =====
-- params/src/lib.rs: the check of a struct and of the cases of a union, made again on its result.
use lusid.Base.{
  ◌≡◌, inl, inr, refl, sym, ap, ◌∙◌, Option, some, List, [], ◌∷◌, ◌++◌, String, ok, err,
  ok-injective, ok-ne-err, Result-cases, All,
}
use lusid.Params.Value.{Platform, Span, Spanned, spanned, Value, ValueObject, object, get}
use lusid.Params.Maps.{IsMap}
use lusid.Params.Schema.{ParamsStruct}
use lusid.Params.Coerce.{ParamsContext, ParamsStructValidationError, coerce_struct, try_cases}
use lusid.Params.Lookups.{IsStruct, coerced_by}
use lusid.Params.Walked.{coerce_struct-ok}
use lusid.Params.Kept.{Relates, coerced_by-IsMap}
use lusid.Params.Stable.{Accepts-Relates, Accepts-before, Accepts-again}
use lusid.Params.Conforms.{TypedStruct, TypedCase, Accepts-TypedStruct}

module _ {p : Platform} (ctx : ParamsContext) where
  -- What a check that succeeded has made of the values, and that the same check leaves it.
  abbrev pub Settled :
      (ValueObject p → Type 0)
      → (ValueObject p → Type 0)
      → ValueObject p
      → Span
      → Option (Spanned (Value p))
      → Type 0
  Settled Typed Again values span result =
      (out : ValueObject p) × (result ≡ some (spanned (object out) span))
      × Typed out
      × ((q : String) → Relates ctx (get q values) (get q out))
      × IsMap out
      × Again out

  pub struct-Settled :
      (fields : ParamsStruct) (values : ValueObject p) (span : Span) {w : Spanned (Value p)}
      → IsStruct fields
      → IsMap values
      → coerce_struct fields values span ctx ≡ ok w
      → Settled
          (TypedStruct fields)
          (λ out. coerce_struct fields out span ctx ≡ ok (spanned (object out) span))
          values
          span
          (some w)
  struct-Settled fields values span {w} distinct is_map h =
      let good = (coerce_struct-ok ctx fields values span w distinct is_map).0 h in
      let out = coerced_by ctx fields values in
      let out_map = coerced_by-IsMap ctx fields values distinct in
      let again = Accepts-again ctx fields values distinct good.0 in
      (
        out,
        ap some good.1,
        Accepts-TypedStruct ctx fields values distinct good.0,
        Accepts-Relates ctx fields values distinct good.0,
        out_map,
        (coerce_struct-ok ctx fields out span (spanned (object out) span) distinct out_map).1
            (again.0, ap (λ o. spanned (object o) span) (sym again.1)),
      )

  taken_case :
      (fields : ParamsStruct) (cases : List ParamsStruct)
      (errors : List (ParamsStructValidationError p)) (values : ValueObject p) (span : Span)
      (w : Spanned (Value p))
      → coerce_struct fields values span ctx ≡ ok w
      → try_cases (fields ∷ cases) errors values span ctx ≡ ok (some w)
  unfolding try_cases
  taken_case fields cases errors values span w h = rw (h, try_cases) refl

  passed_case :
      (fields : ParamsStruct) (cases : List ParamsStruct)
      (errors : List (ParamsStructValidationError p)) (values : ValueObject p) (span : Span)
      (e : ParamsStructValidationError p)
      → coerce_struct fields values span ctx ≡ err e
      → try_cases (fields ∷ cases) errors values span ctx
        ≡ try_cases cases (errors ++ e ∷ []) values span ctx
  unfolding try_cases
  passed_case fields cases errors values span e h = rw (h, try_cases) refl

  -- A struct that refused the values refuses what another struct made of them.
  refused_again :
      (fields : ParamsStruct) (values out : ValueObject p) (span : Span)
      (e : ParamsStructValidationError p)
      → IsStruct fields
      → IsMap values
      → IsMap out
      → ((q : String) → Relates ctx (get q values) (get q out))
      → coerce_struct fields values span ctx ≡ err e
      → (e' : ParamsStructValidationError p) × (coerce_struct fields out span ctx ≡ err e')
  refused_again fields values out span e distinct is_map out_map same h =
      elim (Result-cases (coerce_struct fields out span ctx)) [
        | inl (w, took) ↦
            let fits = ((coerce_struct-ok ctx fields out span w distinct out_map).0 took).0 in
            let before = Accepts-before ctx fields values out same fits in
            absurd (
              ok-ne-err (
                sym (
                  (coerce_struct-ok ctx fields values span
                      (spanned (object (coerced_by ctx fields values)) span) distinct is_map).1
                    (before, refl))
                ∙ h))
        | inr refused ↦ refused
      ]

  pub cases-Settled :
      (cases : List ParamsStruct) (errors : List (ParamsStructValidationError p))
      (values : ValueObject p) (span : Span) {result : Option (Spanned (Value p))}
      → All IsStruct cases
      → IsMap values
      → try_cases cases errors values span ctx ≡ ok result
      → Settled
          (TypedCase cases)
          (λ out.
            (others : List (ParamsStructValidationError p))
            → try_cases cases others out span ctx ≡ ok (some (spanned (object out) span)))
          values
          span
          result
  unfolding try_cases
  cases-Settled [] errors values span distinct is_map h = absurd (ok-ne-err (sym h))
  cases-Settled (fields ∷ cases) errors values span {result} distinct is_map h =
      elim (Result-cases (coerce_struct fields values span ctx)) [
        | inl (w, took) ↦
            let done = struct-Settled fields values span distinct.0 is_map took in
            let is : some w ≡ result =
              ok-injective (sym (taken_case fields cases errors values span w took) ∙ h) in
            (
              done.0,
              sym is ∙ done.1,
              inl done.2,
              done.3,
              done.4,
              λ others.
                  taken_case fields cases others done.0 span (spanned (object done.0) span) done.5,
            )
        | inr (e, refused) ↦
            let later =
              cases-Settled cases (errors ++ e ∷ []) values span distinct.1 is_map
                (sym (passed_case fields cases errors values span e refused) ∙ h) in
            let still =
              refused_again fields values later.0 span e distinct.0 is_map later.4 later.3
                refused in
            (
              later.0,
              later.1,
              inr later.2,
              later.3,
              later.4,
              λ others.
                  passed_case fields cases others later.0 span still.0 still.1
                  ∙ later.5 (others ++ still.0 ∷ []),
            )
      ]
