-- ===== src/Params/Given.antt =====
-- params/src/parse.rs: the reads of an object's fields succeed where the object holds what they ask
-- for.
use mathlib.Core.Option.{none-ne-some, some-injective}
use lusid.Base.{◌≡◌, inl, inr, refl, sym, ap, ◌∙◌, Option, none, some, String, string_eq, Bool, ok}
use lusid.Params.Value.{
  Platform, Spanned, Value, ValueObject, string, boolean, object, empty_object, entry, get,
  swap_remove, Removed,
}
use lusid.Params.Maps.{IsMap, IsWithout, Takes, swap_remove-Takes, get_here}
use lusid.Params.Parse.{StructFields, Read, parse_string, parse_bool}
use lusid.Params.Fields.{
  as_object, new, go_on, take_field, required, required_string, optional, optional_bool,
  parse_optional, finish, finish_entries,
}
use lusid.Params.Reads.{Other}
use lusid.Params.Held.{IsHeld, IsGiven}

module _ {p : Platform} where
  -- A read that succeeds, and leaves the object without the key.
  abbrev pub Yields : {A : Type 0} → Read p A → String → StructFields p → A → Type 0
  Yields read key fields a =
      (rest : StructFields p) × (read ≡ ok (a, rest)) × IsWithout key fields.map rest.map

  module _ {A : Type 0} (key : String) (fields : StructFields p) (absent : Read p A)
      (present : Spanned (Value p) → StructFields p → Read p A) where
    take_field-gone :
        {a : A}
        → IsMap fields.map
        → get key fields.map ≡ none
        → absent ≡ ok (a, fields)
        → Yields (take_field key fields absent present) key fields a
    unfolding take_field go_on
    take_field-gone {a} is_map gone h =
        go (swap_remove key fields.map) (swap_remove-Takes key fields.map is_map)
      where
        go :
            (taken : Option (Removed p))
            → Takes key fields.map taken
            → Yields (go_on fields.span absent present taken) key fields a
        go none takes = (fields, h, (is_map, gone, λ q away. refl))
        go (some (value, left)) takes = absurd (none-ne-some _ (sym gone ∙ takes.0))

    take_field-there :
        (value : Spanned (Value p)) {a : A}
        → IsMap fields.map
        → get key fields.map ≡ some value
        → ((left : StructFields p) → present value left ≡ ok (a, left))
        → Yields (take_field key fields absent present) key fields a
    unfolding take_field go_on
    take_field-there value {a} is_map there h =
        go (swap_remove key fields.map) (swap_remove-Takes key fields.map is_map)
      where
        go :
            (taken : Option (Removed p))
            → Takes key fields.map taken
            → Yields (go_on fields.span absent present taken) key fields a
        go none takes = absurd (none-ne-some _ (sym takes ∙ there))
        go (some (found, left)) takes =
            let rest : StructFields p = record { map = left; span = fields.span } in
            let same = some-injective _ _ (sym takes.0 ∙ there) in
            (rest, ap (λ v. present v rest) same ∙ h rest, takes.1)

  parse_string-ok :
      (value : Spanned (Value p)) (s : String) → value.inner ≡ string s → parse_string value ≡ ok s
  unfolding parse_string
  parse_string-ok value s is = rw is refl

  pub required_string-Yields :
      (key : String) (fields : StructFields p) (s : String)
      → IsMap fields.map
      → IsHeld string key fields.map s
      → Yields (required_string key fields) key fields s
  unfolding required_string required
  required_string-Yields key fields s is_map (value, there, is) =
      take_field-there key fields _ _ value is_map there
        (λ left. rw (parse_string-ok value s is) refl)

  pub optional_bool-Yields :
      (key : String) (fields : StructFields p) (given : Option Bool)
      → IsMap fields.map
      → IsGiven boolean key fields.map given
      → Yields (optional_bool key fields) key fields given
  unfolding optional_bool optional parse_optional parse_bool
  optional_bool-Yields key fields none is_map (inl gone) =
      take_field-gone key fields _ _ is_map gone refl
  optional_bool-Yields key fields none is_map (inr (value, there, is)) =
      take_field-there key fields _ _ value is_map there (λ left. rw is refl)
  optional_bool-Yields key fields (some b) is_map (value, there, is) =
      take_field-there key fields _ _ value is_map there (λ left. rw is refl)

  pub new-ok :
      (value : Spanned (Value p)) (map : ValueObject p)
      → value.inner ≡ object map
      → new value ≡ ok (record { map = map; span = value.span })
  unfolding new as_object
  new-ok value map is = rw is refl

  pub finish-ok :
      (fields : StructFields p) → ((q : String) → get q fields.map ≡ none) → finish fields ≡ ok tt
  unfolding finish finish_entries
  finish-ok fields h = go fields.map h
    where
      go :
          (entries : ValueObject p)
          → ((q : String) → get q entries ≡ none)
          → finish_entries entries ≡ ok tt
      go empty_object h = refl
      go (entry key value span entries) h =
          absurd (none-ne-some _ (sym (h key) ∙ get_here value span entries refl))

  -- No key is left where none was but the one that is gone.
  pub IsWithout-none :
      (key : String) (old new : ValueObject p) (q : String)
      → IsWithout key old new
      → (Other key q → get q old ≡ none)
      → get q new ≡ none
  IsWithout-none key old new q without h = elim (string_eq.dec key q) [
    | yes same ↦ ap (λ k. get k new) (sym same) ∙ without.1
    | no away ↦ without.2 q away ∙ h away
  ]

  pub IsGiven-after :
      {A : Type 0} (form : A → Value p) (key : String) (old new : ValueObject p) (given : Option A)
      → get key new ≡ get key old
      → IsGiven form key old given
      → IsGiven form key new given
  IsGiven-after form key old new none same (inl gone) = inl (same ∙ gone)
  IsGiven-after form key old new none same (inr (value, there, is)) = inr (value, same ∙ there, is)
  IsGiven-after form key old new (some a) same (value, there, is) = (value, same ∙ there, is)
