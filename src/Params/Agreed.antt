-- ===== src/Params/Agreed.antt =====
-- params/src/lib.rs and params/src/parse.rs together: a value that was checked against a declared
-- type is parsed by the parser of that type.
use lusid.Base.{◌≡◌, refl, List, [], ◌∷◌, String, Bool, ℕ, suc, ok}
use lusid.Params.Value.{
  Platform, Span, Spanned, Value, Values, boolean, string, number, list, object, host_path,
  target_path, empty_list, item,
}
use lusid.Params.Schema.{
  ParamType, boolean_type, string_type, number_type, list_type, object_type, host_path_type,
  target_path_type,
}
use lusid.Params.Coerce.{ParamsContext, coerce_type}
use lusid.Params.Typed.{HasType, AllItems, coerce_type-Coerced}
use lusid.Params.Parse.{
  StructFields, parse_string, parse_bool, parse_number, parse_host_path, parse_target_path,
  parse_items, parse_list,
}
use lusid.Params.Fields.{as_object, new}

module _ {p : Platform} where
  -- What the parser of each type makes of a value; of the lists, resources parse those of texts.
  abbrev pub ParsesList : ParamType → Spanned (Value p) → Type 0
  ParsesList string_type w = (texts : List String) × (parse_list parse_string w ≡ ok texts)
  ParsesList typ w = (items : Values p) × (w.inner ≡ list items)

  unfoldable pub ParsesAs : ParamType → Spanned (Value p) → Type 0
  ParsesAs boolean_type w = (b : Bool) × (w.inner ≡ boolean b) × (parse_bool w ≡ ok b)
  ParsesAs string_type w = (s : String) × (w.inner ≡ string s) × (parse_string w ≡ ok s)
  ParsesAs number_type w = (n : p.Number) × (w.inner ≡ number n) × (parse_number w ≡ ok n)
  ParsesAs host_path_type w =
      (path : String) × (w.inner ≡ host_path path) × (parse_host_path w ≡ ok path)
  ParsesAs target_path_type w =
      (path : String) × (w.inner ≡ target_path path) × (parse_target_path w ≡ ok path)
  ParsesAs (list_type typ place) w = ParsesList typ w
  ParsesAs (object_type typ place) w =
      (fields : StructFields p) × (w.inner ≡ object fields.map) × (new w ≡ ok fields)

  texts_parse :
      (items : Values p) (index : ℕ)
      → AllItems (HasType string_type) items
      → (texts : List String) × (parse_items parse_string index items ≡ ok texts)
  unfolding parse_items parse_string HasType
  texts_parse empty_list index typed = ([], refl)
  texts_parse (item value span items) index typed =
      let rest = texts_parse items (suc index) typed.1 in
      (typed.0.0 ∷ rest.0, rw typed.0.1 (rw (rest.1, parse_string) refl))

  list_parses :
      (typ : ParamType) (w : Spanned (Value p)) (items : Values p)
      → w.inner ≡ list items
      → AllItems (HasType typ) items
      → ParsesList typ w
  unfolding parse_list
  list_parses string_type w items is typed =
      let texts = texts_parse items 0 typed in (texts.0, rw (is, parse_list) texts.1)
  list_parses typ w items is typed = (items, is)

  HasType-ParsesAs :
      (typ : ParamType) (w : Spanned (Value p)) → HasType typ w.inner → ParsesAs typ w
  unfolding HasType ParsesAs parse_string parse_bool parse_number parse_host_path parse_target_path
      new as_object
  HasType-ParsesAs boolean_type w (b, is) = (b, is, rw (is, parse_bool) refl)
  HasType-ParsesAs string_type w (s, is) = (s, is, rw (is, parse_string) refl)
  HasType-ParsesAs number_type w (n, is) = (n, is, rw (is, parse_number) refl)
  HasType-ParsesAs host_path_type w (path, is) = (path, is, rw (is, parse_host_path) refl)
  HasType-ParsesAs target_path_type w (path, is) = (path, is, rw (is, parse_target_path) refl)
  HasType-ParsesAs (list_type typ place) w (items, is, typed) = list_parses typ w items is typed
  HasType-ParsesAs (object_type typ place) w (entries, is, typed) =
      (record { map = entries; span = w.span }, is, rw (is, as_object) refl)

  -- A value that the check at a type yields is parsed, without an error, by the parser of that
  -- type: a text, a boolean, a number or a path into what it holds, a list of texts into texts,
  -- and an object into its fields.
  pub coerce_type-ParsesAs :
      (ctx : ParamsContext) (typ : ParamType) (at : Span) (v w : Spanned (Value p))
      → coerce_type ctx typ at v ≡ ok w
      → ParsesAs typ w
  coerce_type-ParsesAs ctx typ at v w h =
      HasType-ParsesAs typ w (coerce_type-Coerced ctx typ at v h).2
