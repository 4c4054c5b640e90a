-- ===== src/Params/Walked.antt =====
-- params/src/lib.rs: the whole walk over a struct's fields, and when it accepts the values.
use mathlib.Core.Option.{none-ne-some}
use lusid.Base.{
  ◌≡◌, ◌≢◌, ◌↔◌, ◌⊎◌, inl, inr, refl, sym, ap, ◌∙◌, Option, none, some, List, [], ◌∷◌, ◌++◌,
  append_assoc, append-nil, String, string_eq, ok, err, ok-injective, ok-ne-err,
}
use lusid.Params.Value.{
  Platform, Span, Spanned, spanned, Value, ValueObject, object, empty_object, entry, get,
}
use lusid.Params.Maps.{IsMap, get_here, get_away, nothing_left}
use lusid.Params.Schema.{ParamsStruct}
use lusid.Params.Coerce.{
  ParamsContext, Checked, ParamValidationError, Walk, coerce_field, coerce_fields, unknown_params,
  finish_struct, coerce_struct,
}
use lusid.Params.Lookups.{
  Undeclared, IsStruct, check_found, keep_coerced, field_errors, coerced_by, append, append-empty,
  entries_assoc, keep_coerced-append, field_error, coerce_field-Stepped,
}

module _ {p : Platform} where
  get-append :
      (q : String) (first second : ValueObject p)
      → get q first ≡ none
      → get q (append first second) ≡ get q second
  unfolding get append
  get-append q empty_object second gone = refl
  get-append q (entry key value span entries) second gone = elim (string_eq.dec key q) [
    | yes here ↦ absurd (none-ne-some _ (sym gone ∙ get_here value span entries here))
    | no away ↦
        get_away value span (append entries second) away
        ∙ get-append q entries second (sym (get_away value span entries away) ∙ gone)
  ]

  pub keep_coerced-away :
      (q key : String) (looked : Option (Checked p (Spanned (Value p)))) (later : ValueObject p)
      → key ≢ q
      → get q (keep_coerced key looked later) ≡ get q later
  keep_coerced-away q key none later away = refl
  keep_coerced-away q key (some (ok coerced)) later away =
      get_away coerced.inner coerced.span later away
  keep_coerced-away q key (some (err error)) later away = refl

  -- The fields to come find what was given, and have not been kept yet.
  abbrev Pending : ParamsStruct → ValueObject p → Walk p → Type 0
  Pending [] values walk = Unit
  Pending ((name, field) ∷ fields) values walk =
      (get name walk.values ≡ get name values)
      × (get name walk.coerced ≡ none)
      × Pending fields values walk

  -- Nothing is left under the name of a field.
  abbrev pub Taken : ParamsStruct → ValueObject p → Type 0
  Taken [] rest = Unit
  Taken ((name, field) ∷ fields) rest = (get name rest ≡ none) × Taken fields rest

  pub declared_or :
      (fields : ParamsStruct) (q : String) (rest : ValueObject p)
      → Taken fields rest
      → Undeclared fields q ⊎ (get q rest ≡ none)
  declared_or [] q rest taken = inl tt
  declared_or ((name, field) ∷ fields) q rest taken = elim (string_eq.dec name q) [
    | yes here ↦ inr (rw (sym here) taken.0)
    | no away ↦ elim (declared_or fields q rest taken.1) [
      | inl undeclared ↦ inl (away, undeclared)
      | inr gone ↦ inr gone
    ]
  ]

module _ {p : Platform} (ctx : ParamsContext) where
  abbrev Walked : ParamsStruct → ValueObject p → Walk p → Walk p → Type 0
  Walked fields values walk end =
      (end.errors ≡ walk.errors ++ field_errors ctx fields values)
      × (end.coerced ≡ append walk.coerced (coerced_by ctx fields values))
      × IsMap end.values
      × Taken fields end.values
      × ((q : String) → Undeclared fields q → get q end.values ≡ get q walk.values)

  Pending-stepped :
      (fields : ParamsStruct) (key : String) (looked : Option (Checked p (Spanned (Value p))))
      (values : ValueObject p) (walk after : Walk p)
      → Undeclared fields key
      → after.coerced ≡ append walk.coerced (keep_coerced key looked empty_object)
      → ((q : String) → key ≢ q → get q after.values ≡ get q walk.values)
      → Pending fields values walk
      → Pending fields values after
  unfolding get
  Pending-stepped [] key looked values walk after new kept same pending = tt
  Pending-stepped ((name, field) ∷ fields) key looked values walk after new kept same pending =
      let away : key ≢ name = λ e. new.0 (sym e) in
      (
        same name away ∙ pending.0,
        ap (get name) kept
            ∙ get-append name walk.coerced (keep_coerced key looked empty_object) pending.1
            ∙ keep_coerced-away name key looked empty_object away,
        Pending-stepped fields key looked values walk after new.1 kept same pending.2,
      )

  coerce_fields-Walked :
      (fields : ParamsStruct) (values : ValueObject p) (walk : Walk p)
      → IsStruct fields
      → IsMap walk.values
      → Pending fields values walk
      → Walked fields values walk (coerce_fields ctx fields walk)
  unfolding coerce_fields field_errors coerced_by
  coerce_fields-Walked [] values walk distinct is_map pending =
      (sym (append-nil walk.errors), sym (append-empty walk.coerced), is_map, tt, λ q u. refl)
  coerce_fields-Walked ((key, field) ∷ fields) values walk distinct is_map pending =
      let after = coerce_field ctx key field walk in
      let looked = check_found ctx field (get key walk.values) in
      let step = coerce_field-Stepped ctx key field walk is_map pending.1 in
      let later =
        coerce_fields-Walked fields values after distinct.1 step.2 (
          Pending-stepped fields key looked values walk after distinct.0 step.1 step.4 pending.2) in
      let found : looked ≡ check_found ctx field (get key values) =
        ap (check_found ctx field) pending.0 in
      (
        later.0
            ∙ ap (λ es. es ++ field_errors ctx fields values) step.0
            ∙ append_assoc walk.errors (field_error key field field.inner.optional looked)
                (field_errors ctx fields values)
            ∙ ap
                (λ l.
                  walk.errors
                  ++ (field_error key field field.inner.optional l
                      ++ field_errors ctx fields values))
                found,
        later.1
            ∙ ap (λ cs. append cs (coerced_by ctx fields values)) step.1
            ∙ entries_assoc walk.coerced (keep_coerced key looked empty_object)
                (coerced_by ctx fields values)
            ∙ ap (append walk.coerced)
                (keep_coerced-append key looked (coerced_by ctx fields values))
            ∙ ap (λ l. append walk.coerced (keep_coerced key l (coerced_by ctx fields values)))
                found,
        later.2,
        (later.4 key distinct.0 ∙ step.3, later.3),
        λ q undeclared. later.4 q undeclared.1 ∙ step.4 q undeclared.0,
      )

  all-Pending :
      (fields : ParamsStruct) (values : ValueObject p)
      → Pending fields values (record { errors = []; coerced = empty_object; values = values })
  unfolding get
  all-Pending [] values = tt
  all-Pending ((name, field) ∷ fields) values = (refl, refl, all-Pending fields values)

  -- A struct's check looks each field up among the values as they were given, and reports what
  -- stands under no field's name.
  pub coerce_struct-lookups :
      (fields : ParamsStruct) (values : ValueObject p) (span : Span)
      → IsStruct fields
      → IsMap values
      → (rest : ValueObject p) × IsMap rest
        × Taken fields rest
        × ((q : String) → Undeclared fields q → get q rest ≡ get q values)
        × (coerce_struct fields values span ctx
            ≡ finish_struct
                (field_errors ctx fields values ++ unknown_params rest)
                (coerced_by ctx fields values)
                span)
  unfolding coerce_struct append
  coerce_struct-lookups fields values span distinct is_map =
      let start : Walk p = record { errors = []; coerced = empty_object; values = values } in
      let walked =
        coerce_fields-Walked fields values start distinct is_map (all-Pending fields values) in
      let end = coerce_fields ctx fields start in
      (
        end.values,
        walked.2,
        walked.3,
        walked.4,
        ap (λ es. finish_struct (es ++ unknown_params end.values) end.coerced span) walked.0
            ∙ ap
                (λ cs.
                  finish_struct (field_errors ctx fields values ++ unknown_params end.values) cs
                    span)
                walked.1,
      )

  -- Each field is found and typed or optional, and no value stands under another name.
  abbrev pub Accepts : ParamsStruct → ValueObject p → Type 0
  Accepts fields values =
      (field_errors ctx fields values ≡ [])
      × ((q : String) → Undeclared fields q → get q values ≡ none)

  finish_struct-eq-ok :
      (errors : List (ParamValidationError p)) (rest coerced : ValueObject p) (span : Span)
      {w : Spanned (Value p)}
      → finish_struct (errors ++ unknown_params rest) coerced span ≡ ok w
      → (errors ≡ []) × (rest ≡ empty_object) × (w ≡ spanned (object coerced) span)
  unfolding finish_struct unknown_params
  finish_struct-eq-ok [] empty_object coerced span h = (refl, refl, sym (ok-injective h))
  finish_struct-eq-ok [] (entry key value place rest) coerced span h = absurd (ok-ne-err (sym h))
  finish_struct-eq-ok (error ∷ errors) rest coerced span h = absurd (ok-ne-err (sym h))

  -- If the names of the fields and the keys of the values differ, then a struct accepts the values
  -- if and only if looking each field up among them finds no error and no value stands under
  -- another name; the result is then the object of the values found and coerced, in the order of
  -- the fields.
  pub coerce_struct-ok :
      (fields : ParamsStruct) (values : ValueObject p) (span : Span) (w : Spanned (Value p))
      → IsStruct fields
      → IsMap values
      → (coerce_struct fields values span ctx ≡ ok w)
        ↔ (Accepts fields values × (w ≡ spanned (object (coerced_by ctx fields values)) span))
  unfolding finish_struct unknown_params get
  coerce_struct-ok fields values span w distinct is_map =
      let walked = coerce_struct-lookups fields values span distinct is_map in
      (
        λ h.
            let done =
              finish_struct-eq-ok (field_errors ctx fields values) walked.0 _ span
                (sym walked.4 ∙ h) in
            ((done.0, λ q u. sym (walked.3 q u) ∙ ap (get q) done.1), done.2),
        λ h.
            let empty = nothing_left walked.0 (λ q. elim (declared_or fields q walked.0 walked.2) [
              | inl undeclared ↦ walked.3 q undeclared ∙ h.0.1 q undeclared
              | inr gone ↦ gone
            ]) in
            walked.4
            ∙ ap
                (λ rest.
                  finish_struct (field_errors ctx fields values ++ unknown_params rest)
                    (coerced_by ctx fields values) span)
                empty
            ∙ ap (λ es. finish_struct (es ++ []) (coerced_by ctx fields values) span) h.0.0
            ∙ ap ok (sym h.1),
      )
