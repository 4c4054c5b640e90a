-- ===== src/Params/Held.antt =====
-- params/src/parse.rs: the values that the reads of an object's fields stand for, without the parsers.
use lusid.Base.{
  ◌≡◌, ◌⊎◌, inl, inr, sym, ap, subst, Option, none, some, String, Bool, ok, ok-ne-err, ok-injective,
}
use lusid.Params.Value.{
  Platform, Span, Spanned, spanned, Value, ValueObject, null, string, boolean, get,
}
use lusid.Params.Parse.{mismatched, Parsed, parse_string, parse_bool}
use lusid.Params.Reads.{Holds, MayHold}

module _ {p : Platform} where
  -- The text and the Boolean that the parsers take.
  pub parse_string-eq-ok :
      (value : Spanned (Value p)) (s : String) → parse_string value ≡ ok s → value.inner ≡ string s
  unfolding parse_string mismatched
  parse_string-eq-ok value _ h = at value.inner value.span h
    where
      at :
          (inner : Value p) (span : Span) {s : String}
          → parse_string (spanned inner span) ≡ ok s
          → inner ≡ string s
      at (string t) span h = ap string (ok-injective h)
      at other span h = absurd (ok-ne-err (sym h))

  pub parse_bool-eq-ok :
      (value : Spanned (Value p)) (b : Bool) → parse_bool value ≡ ok b → value.inner ≡ boolean b
  unfolding parse_bool mismatched
  parse_bool-eq-ok value _ h = at value.inner value.span h
    where
      at :
          (inner : Value p) (span : Span) {b : Bool}
          → parse_bool (spanned inner span) ≡ ok b
          → inner ≡ boolean b
      at (boolean c) span h = ap boolean (ok-injective h)
      at other span h = absurd (ok-ne-err (sym h))

  module _ {A : Type 0} (form : A → Value p) where
    -- The value itself that is there, in the form of its kind; one that may be null or left out.
    abbrev pub IsHeld : String → ValueObject p → A → Type 0
    IsHeld key map a =
        (value : Spanned (Value p)) × (get key map ≡ some value) × (value.inner ≡ form a)

    abbrev pub IsGiven : String → ValueObject p → Option A → Type 0
    IsGiven key map none =
        (get key map ≡ none)
        ⊎ ((value : Spanned (Value p)) × (get key map ≡ some value) × (value.inner ≡ null))
    IsGiven key map (some a) = IsHeld key map a

    module _ (parse : Spanned (Value p) → Parsed p A)
        (reads : (value : Spanned (Value p)) (a : A) → parse value ≡ ok a → value.inner ≡ form a)
        (key : String) (map : ValueObject p) where
      pub Holds-IsHeld : {a : A} → Holds parse key map a → IsHeld key map a
      Holds-IsHeld (value, there, parsed) = (value, there, reads value _ parsed)

      pub MayHold-IsGiven : {a : Option A} → MayHold parse key map a → IsGiven key map a
      MayHold-IsGiven held = elim held [
        | inl (gone, absent) ↦ subst (IsGiven key map) (sym absent) (inl gone)
        | inr (value, there, inl (is, absent)) ↦
            subst (IsGiven key map) (sym absent) (inr (value, there, is))
        | inr (value, there, inr (b, parsed, is)) ↦
            subst (IsGiven key map) (sym is) (value, there, reads value _ parsed)
      ]
