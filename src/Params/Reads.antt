-- ===== src/Params/Reads.antt =====
-- params/src/parse.rs: what the reads of `StructFields` yield, by what the object holds under each
-- name, and what they leave.
use lusid.Base.{
  ◌≡◌, ◌≢◌, ◌⊎◌, inl, inr, refl, sym, ◌∙◌, Option, none, some, String, ok, err, ◌>>=◌, >>=-eq-ok,
  ok_carries, ok-ne-err, ok-injective, map_err, map_err-eq-ok,
}
use lusid.Params.Value.{
  Platform, Span, Spanned, spanned, Value, ValueObject, null, object, empty_object, entry, get,
  swap_remove, Removed,
}
use lusid.Params.Maps.{IsMap, IsWithout, Takes, swap_remove-Takes}
use lusid.Params.Parse.{mismatched, Parsed, StructFields}
use lusid.Params.Fields.{
  as_object, new, go_on, take_field, required, optional, parse_optional, wrap_field, missing,
  finish, finish_entries,
}

abbrev pub Other : String → String → Type 0
Other key q = key ≢ q

module _ {p : Platform} where
  -- The value that a field has to be there for, and the one that it may be left out for.
  abbrev pub Holds :
      {A : Type 0} → (Spanned (Value p) → Parsed p A) → String → ValueObject p → A → Type 0
  Holds parse key map a =
      (value : Spanned (Value p)) × (get key map ≡ some value) × (parse value ≡ ok a)

  -- What a value that may be null comes to.
  abbrev pub Optional :
      {A : Type 0} → (Spanned (Value p) → Parsed p A) → Spanned (Value p) → Option A → Type 0
  Optional {A} parse value a =
      ((value.inner ≡ null) × (a ≡ none)) ⊎ ((b : A) × (parse value ≡ ok b) × (a ≡ some b))

  abbrev pub MayHold :
      {A : Type 0} → (Spanned (Value p) → Parsed p A) → String → ValueObject p → Option A → Type 0
  MayHold parse key map a =
      ((get key map ≡ none) × (a ≡ none))
      ⊎ ((value : Spanned (Value p)) × (get key map ≡ some value) × Optional parse value a)

  parse_optional-eq-ok :
      {A : Type 0} (key : String) (parse : Spanned (Value p) → Parsed p A)
      (value : Spanned (Value p)) {a : Option A}
      → parse_optional key parse value ≡ ok a
      → Optional parse value a
  unfolding parse_optional
  parse_optional-eq-ok {A} key parse value h = at value.inner value.span h
    where
      parsed :
          (v : Spanned (Value p)) {a : Option A}
          → (map_err (wrap_field key) (parse v) >>= λ parsed. ok (some parsed)) ≡ ok a
          → Optional parse v a
      parsed v h =
          let read = >>=-eq-ok (map_err (wrap_field key) (parse v)) _ h in
          inr (read.0, map_err-eq-ok (wrap_field key) (parse v) read.1, sym (ok-injective read.2))

      at :
          (inner : Value p) (span : Span) {a : Option A}
          → parse_optional key parse (spanned inner span) ≡ ok a
          → Optional parse (spanned inner span) a
      at null span h = inl (refl, sym (ok-injective h))
      at inner span h = parsed (spanned inner span) h

  required_taken :
      {A : Type 0} (key : String) (parse : Spanned (Value p) → Parsed p A) (fields : StructFields p)
      (taken : Option (Removed p)) {a : A} {rest : StructFields p}
      → Takes key fields.map taken
      → go_on fields.span
          (err (missing fields key))
          (λ value left. map_err (wrap_field key) (parse value) >>= λ parsed. ok (parsed, left))
          taken
        ≡ ok (a, rest)
      → Holds parse key fields.map a × IsWithout key fields.map rest.map
  unfolding go_on
  required_taken key parse fields none takes h = absurd (ok-ne-err (sym h))
  required_taken {A} key parse fields (some (value, left)) takes h =
      let read = >>=-eq-ok (map_err (wrap_field key) (parse value)) _ h in
      ok_carries
        (λ (out : A × StructFields p).
          Holds parse key fields.map out.0 × IsWithout key fields.map out.1.map)
        read.2 ((value, takes.0, map_err-eq-ok (wrap_field key) (parse value) read.1), takes.1)

  pub required-eq-ok :
      {A : Type 0} (key : String) (parse : Spanned (Value p) → Parsed p A) (fields : StructFields p)
      {a : A} {rest : StructFields p}
      → IsMap fields.map
      → required key parse fields ≡ ok (a, rest)
      → Holds parse key fields.map a × IsWithout key fields.map rest.map
  unfolding required take_field
  required-eq-ok key parse fields is_map h =
      required_taken key parse fields (swap_remove key fields.map)
        (swap_remove-Takes key fields.map is_map) h

  optional_taken :
      {A : Type 0} (key : String) (parse : Spanned (Value p) → Parsed p A) (fields : StructFields p)
      (taken : Option (Removed p)) {a : Option A} {rest : StructFields p}
      → IsMap fields.map
      → Takes key fields.map taken
      → go_on fields.span
          (ok (none, fields))
          (λ value left. parse_optional key parse value >>= λ parsed. ok (parsed, left))
          taken
        ≡ ok (a, rest)
      → MayHold parse key fields.map a × IsWithout key fields.map rest.map
  unfolding go_on
  optional_taken {A} key parse fields none is_map gone h =
      ok_carries
        (λ (out : Option A × StructFields p).
          MayHold parse key fields.map out.0 × IsWithout key fields.map out.1.map)
        h (inl (gone, refl), (is_map, gone, λ q away. refl))
  optional_taken {A} key parse fields (some (value, left)) is_map takes h =
      let read = >>=-eq-ok (parse_optional key parse value) _ h in
      ok_carries
        (λ (out : Option A × StructFields p).
          MayHold parse key fields.map out.0 × IsWithout key fields.map out.1.map)
        read.2 (inr (value, takes.0, parse_optional-eq-ok key parse value read.1), takes.1)

  pub optional-eq-ok :
      {A : Type 0} (key : String) (parse : Spanned (Value p) → Parsed p A) (fields : StructFields p)
      {a : Option A} {rest : StructFields p}
      → IsMap fields.map
      → optional key parse fields ≡ ok (a, rest)
      → MayHold parse key fields.map a × IsWithout key fields.map rest.map
  unfolding optional take_field
  optional-eq-ok key parse fields is_map h =
      optional_taken key parse fields (swap_remove key fields.map) is_map
        (swap_remove-Takes key fields.map is_map) h

  pub finish-eq-ok :
      (fields : StructFields p) {u : Unit}
      → finish fields ≡ ok u
      → (q : String) → get q fields.map ≡ none
  unfolding finish finish_entries get
  finish-eq-ok fields h q = left fields.map h
    where
      left :
          (entries : ValueObject p) {u : Unit}
          → finish_entries entries ≡ ok u
          → get q entries ≡ none
      left empty_object h = refl
      left (entry key value span entries) h = absurd (ok-ne-err (sym h))

  pub new-eq-ok :
      (value : Spanned (Value p)) {fields : StructFields p}
      → new value ≡ ok fields
      → value.inner ≡ object fields.map
  unfolding new as_object mismatched
  new-eq-ok value h = after value.inner value.span h
    where
      after :
          (inner : Value p) (span : Span) {fields : StructFields p}
          → as_object inner span ≡ ok fields
          → inner ≡ object fields.map
      after (object map) span h =
          ok_carries (λ (out : StructFields p). object map ≡ object out.map) h refl
      after other span h = cc

  -- What is held under a key that other reads have not touched.
  pub Holds-before :
      {A : Type 0} (parse : Spanned (Value p) → Parsed p A) (key : String) (old new : ValueObject p)
      {a : A}
      → get key new ≡ get key old
      → Holds parse key new a
      → Holds parse key old a
  Holds-before parse key old new same (value, there, reads) = (value, sym same ∙ there, reads)

  pub MayHold-before :
      {A : Type 0} (parse : Spanned (Value p) → Parsed p A) (key : String) (old new : ValueObject p)
      {a : Option A}
      → get key new ≡ get key old
      → MayHold parse key new a
      → MayHold parse key old a
  MayHold-before parse key old new same held = elim held [
    | inl (gone, absent) ↦ inl (sym same ∙ gone, absent)
    | inr (value, there, reads) ↦ inr (value, sym same ∙ there, reads)
  ]
