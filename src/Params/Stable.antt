-- ===== src/Params/Stable.antt =====
-- params/src/lib.rs: values that were checked are typed as declared, and checked again pass
-- unchanged.
use lusid.Base.{
  ◌≡◌, ◌⊎◌, inl, inr, refl, sym, ap, subst, ◌∙◌, Option, none, some, List, [], ◌∷◌, ◌++◌, String,
  string_eq, ok, err,
}
use lusid.Params.Value.{Platform, Spanned, Value, ValueObject, get}
use lusid.Params.Schema.{ParamField, ParamsStruct}
use lusid.Params.Coerce.{ParamsContext, Checked}
use lusid.Params.Typed.{HasType, coerce_type-Coerced}
use lusid.Params.Retyped.{Rewritten-kept, coerce_type-ok}
use lusid.Params.Lookups.{
  Undeclared, IsStruct, coerce_param, check_found, field_error, field_errors, coerced_by,
}
use lusid.Params.Walked.{Accepts}
use lusid.Params.Kept.{
  Relates, kept, AllKept, coerced_by-AllKept, coerced_by-Undeclared, Coerced-trans,
}

pub nil_of_append {ℓ} : {A : Type ℓ} (xs ys : List A) → xs ++ ys ≡ [] → (xs ≡ []) × (ys ≡ [])
nil_of_append [] ys h = (refl, h)
nil_of_append (x ∷ xs) ys h = cc

module _ {p : Platform} (ctx : ParamsContext) where
  -- Where a field has no error, its value becomes what it keeps.
  kept-Relates :
      (key : String) (field : Spanned ParamField) (found : Option (Spanned (Value p)))
      → field_error key field field.inner.optional (check_found ctx field found) ≡ []
      → Relates ctx found (kept ctx (check_found ctx field found))
  kept-Relates key field none fits = tt
  kept-Relates key field (some value) fits = after (coerce_param ctx field value) refl fits
    where
      after :
          (checked : Checked p (Spanned (Value p)))
          → coerce_param ctx field value ≡ checked
          → field_error key field field.inner.optional (some checked) ≡ []
          → Relates ctx (some value) (kept ctx (some checked))
      after (ok coerced) same fits =
          let good = coerce_type-Coerced ctx field.inner.typ field.span value same in
          (good.0, good.1, tt)
      after (err error) same fits = cc

  -- Its outcome is the same for a value that became one without an error.
  check_found-before :
      (key : String) (field : Spanned ParamField) (old new : Option (Spanned (Value p)))
      → Relates ctx old new
      → field_error key field field.inner.optional (check_found ctx field new) ≡ []
      → check_found ctx field old ≡ check_found ctx field new
  check_found-before key field none none same fits = refl
  check_found-before key field none (some w) same fits = absurd same
  check_found-before key field (some v) none same fits = absurd same
  check_found-before key field (some v) (some w) same fits =
      after (coerce_param ctx field w) refl fits
    where
      after :
          (checked : Checked p (Spanned (Value p)))
          → coerce_param ctx field w ≡ checked
          → field_error key field field.inner.optional (some checked) ≡ []
          → some (coerce_param ctx field v) ≡ some (coerce_param ctx field w)
      after (ok x) is fits =
          let typ = field.inner.typ in
          let good =
            Coerced-trans ctx (HasType typ) v w x same
              (coerce_type-Coerced ctx typ field.span w is) in
          ap some ((coerce_type-ok ctx typ field.span v x).1 good ∙ sym is)
      after (err error) is fits = cc

  -- And for the value that it keeps.
  check_found-kept :
      (key : String) (field : Spanned ParamField) (found : Option (Spanned (Value p)))
      → field_error key field field.inner.optional (check_found ctx field found) ≡ []
      → check_found ctx field (kept ctx (check_found ctx field found)) ≡ check_found ctx field found
  check_found-kept key field none fits = refl
  check_found-kept key field (some value) fits = after (coerce_param ctx field value) refl fits
    where
      after :
          (checked : Checked p (Spanned (Value p)))
          → coerce_param ctx field value ≡ checked
          → field_error key field field.inner.optional (some checked) ≡ []
          → check_found ctx field (kept ctx (some checked)) ≡ some checked
      after (ok w) is fits =
          let typ = field.inner.typ in
          let good = coerce_type-Coerced ctx typ field.span value is in
          ap some (
            (coerce_type-ok ctx typ field.span w w).1
              (refl, Rewritten-kept ctx w.inner w.span, good.2))
      after (err error) is fits = cc

  -- Two maps on which every field has the same outcome.
  abbrev SameOutcomes : ParamsStruct → ValueObject p → ValueObject p → Type 0
  SameOutcomes [] left right = Unit
  SameOutcomes ((key, field) ∷ fields) left right =
      (check_found ctx field (get key left) ≡ check_found ctx field (get key right))
      × SameOutcomes fields left right

  outcomes :
      (fields : ParamsStruct) (left right : ValueObject p)
      → SameOutcomes fields left right
      → (field_errors ctx fields left ≡ field_errors ctx fields right)
        × (coerced_by ctx fields left ≡ coerced_by ctx fields right)
  unfolding field_errors coerced_by
  outcomes [] left right same = (refl, refl)
  outcomes ((key, field) ∷ fields) left right same =
      let rest = outcomes fields left right same.1 in
      (rw (same.0, rest.0) refl, rw (same.0, rest.1) refl)

  outcomes_kept :
      (fields : ParamsStruct) (values out : ValueObject p)
      → AllKept ctx fields values out
      → field_errors ctx fields values ≡ []
      → SameOutcomes fields out values
  unfolding field_errors
  outcomes_kept [] values out all fits = tt
  outcomes_kept ((key, field) ∷ fields) values out all fits =
      let split =
        nil_of_append
          (field_error key field field.inner.optional (check_found ctx field (get key values))) _
          fits in
      (
        ap (check_found ctx field) all.0 ∙ check_found-kept key field (get key values) split.0,
        outcomes_kept fields values out all.1 split.1,
      )

  outcomes_before :
      (fields : ParamsStruct) (old new : ValueObject p)
      → ((q : String) → Relates ctx (get q old) (get q new))
      → field_errors ctx fields new ≡ []
      → SameOutcomes fields old new
  unfolding field_errors
  outcomes_before [] old new same fits = tt
  outcomes_before ((key, field) ∷ fields) old new same fits =
      let split =
        nil_of_append
          (field_error key field field.inner.optional (check_found ctx field (get key new))) _
          fits in
      (
        check_found-before key field (get key old) (get key new) (same key) split.0,
        outcomes_before fields old new same split.1,
      )

  Relates-or :
      (fields : ParamsStruct) (values out : ValueObject p) (q : String)
      → AllKept ctx fields values out
      → field_errors ctx fields values ≡ []
      → Undeclared fields q ⊎ Relates ctx (get q values) (get q out)
  unfolding field_errors
  Relates-or [] values out q all fits = inl tt
  Relates-or ((key, field) ∷ fields) values out q all fits =
      let split =
        nil_of_append
          (field_error key field field.inner.optional (check_found ctx field (get key values))) _
          fits in
      elim (string_eq.dec key q) [
        | yes here ↦ inr (
            subst (λ k. Relates ctx (get k values) (get k out)) here
              (subst (Relates ctx (get key values)) (sym all.0)
                (kept-Relates key field (get key values) split.0)))
        | no away ↦ elim (Relates-or fields values out q all.1 split.1) [
          | inl undeclared ↦ inl (away, undeclared)
          | inr same ↦ inr same
        ]
      ]

  pub Accepts-Relates :
      (fields : ParamsStruct) (values : ValueObject p)
      → IsStruct fields
      → Accepts ctx fields values
      → (q : String) → Relates ctx (get q values) (get q (coerced_by ctx fields values))
  Accepts-Relates fields values distinct fits q =
      let out = coerced_by ctx fields values in
      elim (Relates-or fields values out q (coerced_by-AllKept ctx fields values distinct) fits.0) [
        | inl undeclared ↦
            subst (λ found. Relates ctx found (get q out)) (sym (fits.1 q undeclared))
              (subst (Relates ctx none) (sym (coerced_by-Undeclared ctx fields values q undeclared))
                tt)
        | inr same ↦ same
      ]

  Relates-none :
      (old new : Option (Spanned (Value p)))
      → Relates ctx old new
      → (old ≡ none → new ≡ none) × (new ≡ none → old ≡ none)
  Relates-none none none same = (λ e. e, λ e. e)
  Relates-none none (some w) same = absurd same
  Relates-none (some v) none same = absurd same
  Relates-none (some v) (some w) same = (λ e. cc, λ e. cc)

  -- A struct that accepts what a check made of the values accepts the values as well.
  pub Accepts-before :
      (fields : ParamsStruct) (old new : ValueObject p)
      → ((q : String) → Relates ctx (get q old) (get q new))
      → Accepts ctx fields new
      → Accepts ctx fields old
  Accepts-before fields old new same fits = (
    (outcomes fields old new (outcomes_before fields old new same fits.0)).0 ∙ fits.0,
    λ q undeclared. (Relates-none (get q old) (get q new) (same q)).1 (fits.1 q undeclared),
  )

  -- A struct that accepted the values accepts what it made of them, and leaves it as it is.
  pub Accepts-again :
      (fields : ParamsStruct) (values : ValueObject p)
      → IsStruct fields
      → Accepts ctx fields values
      → let out = coerced_by ctx fields values in
        Accepts ctx fields out × (coerced_by ctx fields out ≡ out)
  Accepts-again fields values distinct fits =
      let out = coerced_by ctx fields values in
      let same =
        outcomes fields out values (
          outcomes_kept fields values out (coerced_by-AllKept ctx fields values distinct) fits.0) in
      (
        (same.0 ∙ fits.0, λ q undeclared. coerced_by-Undeclared ctx fields values q undeclared),
        same.1,
      )
