-- ===== src/Resource/Parsing/Tests.antt =====
-- Parameters of resources read on a concrete platform, and the theorems there.
use lusid.Base.{ℕ, ◌≡◌, ◌↔◌, refl, subst, none, some, string_eq, false, ltb, if◌then◌else◌, ok, err}
use lusid.Params.Value.{
  Platform, Span, Spanned, spanned, Value, ValueObject, string, boolean, null, number, object,
  entry, empty_object, get, contains_key, swap_remove, last_first, push_under, keep_before,
}
use lusid.Params.Maps.{IsMap}
use lusid.Params.Parse.{
  mismatched, parse_string, parse_bool, parse_u32, parse_number, unknown_field,
}
use lusid.Params.Fields.{
  as_object, new, has, go_on, take_field, required, optional, parse_optional, find_tag,
  parse_discriminator, take_discriminator, required_string, optional_string, optional_bool,
  optional_u32, optional_string_list, finish, finish_entries,
}
use lusid.Params.Conforms.{IsMapped}
use lusid.Resource.Systemd.{SystemdParams}
use lusid.Resource.Parsing.{parse_systemd, parse_group, group_present_fields}
use lusid.Resource.Parsing.Fields.{ReadsUnit, parse_systemd-ok}

program : Unit {0}
unfolding mismatched parse_string parse_bool parse_u32 parse_number as_object new has go_on
    take_field required optional parse_optional find_tag parse_discriminator take_discriminator
    required_string optional_string optional_bool optional_u32 optional_string_list finish
    finish_entries get contains_key swap_remove last_first push_under keep_before parse_systemd
    parse_group group_present_fields string_eq
program = tt

abbrev platform : Platform
platform = record {
  Number = ℕ;
  Function = Unit;
  to_u32 = λ n. if ltb n 4294967296 then some n else none;
  is_absolute = λ s. false;
  parent = λ s. none;
  join = λ origin s. s;
}

abbrev nowhere : Span
nowhere = record { source = ""; start = 0; end = 0 }

abbrev unit_map : ValueObject platform
unit_map =
    entry "active" null nowhere
      (entry "enabled" (boolean false) nowhere (entry "name" (string "sshd") nowhere empty_object))

abbrev unit_value : Spanned (Value platform)
unit_value = spanned (object unit_map) nowhere

abbrev unit_params : SystemdParams
unit_params = record { name = "sshd"; enabled = some false; active = none }

unit_parsed : parse_systemd unit_value ≡ ok unit_params
unfolding program
unit_parsed = refl

unit-IsMapped : IsMapped unit_value.inner
unfolding program
unit-IsMapped entries same = subst IsMap (inner_same same) (refl, (refl, (refl, tt)))
  where
    inner_same :
        {other : ValueObject platform}
        → ◌≡◌ {A = Value platform} (object unit_map) (object other)
        → unit_map ≡ other
    inner_same e = cc

parse_systemd-ok_example :
    (parse_systemd unit_value ≡ ok unit_params)
    ↔ ((map : ValueObject platform) × (unit_value.inner ≡ object map) × ReadsUnit map unit_params)
parse_systemd-ok_example = parse_systemd-ok unit_value unit_params unit-IsMapped

-- A group's field that is misspelt is refused, with the field.
misspelt :
    parse_group {p = platform} (
      spanned
        (object (
          entry "state"
            (string "present")
            nowhere
            (entry "name" (string "wheel") nowhere (entry "gdi" (number 10) nowhere empty_object))))
        nowhere)
    ≡ err (spanned (unknown_field "gdi" (number 10)) nowhere)
unfolding program
misspelt = refl
