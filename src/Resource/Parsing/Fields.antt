-- ===== src/Resource/Parsing/Fields.antt =====
-- The parameters of a unit, as resource/src/resources/systemd.rs reads them: each is what the object
-- holds under its name, and nothing else is there.
use lusid.Base.{
  texts_differ, ◌≡◌, ◌↔◌, refl, sym, ◌∙◌, none, String, string_eq, ok, >>=-eq-ok, ok_carries,
}
use lusid.Params.Value.{Platform, Spanned, Value, ValueObject, string, boolean, object, get}
use lusid.Params.Parse.{StructFields, parse_string, parse_bool}
use lusid.Params.Fields.{new, required_string, optional_bool, finish}
use lusid.Params.Reads.{
  Other, MayHold-before, required-eq-ok, optional-eq-ok, finish-eq-ok, new-eq-ok,
}
use lusid.Params.Held.{
  IsHeld, IsGiven, Holds-IsHeld, MayHold-IsGiven, parse_string-eq-ok, parse_bool-eq-ok,
}
use lusid.Params.Given.{
  required_string-Yields, optional_bool-Yields, new-ok, finish-ok, IsWithout-none, IsGiven-after,
}
use lusid.Params.Conforms.{IsMapped}
use lusid.Resource.Systemd.{SystemdParams}
use lusid.Resource.Parsing.{parse_systemd}

module _ {p : Platform} where
  -- The fields of a unit, and no others.
  abbrev pub ReadsUnit : ValueObject p → SystemdParams → Type 0
  ReadsUnit map params =
      IsHeld string "name" map params.name
      × IsGiven boolean "enabled" map params.enabled
      × IsGiven boolean "active" map params.active
      × ((q : String) → Other "name" q → Other "enabled" q → Other "active" q → get q map ≡ none)

  parse_systemd-eq-ok :
      (value : Spanned (Value p)) (params : SystemdParams)
      → IsMapped value.inner
      → parse_systemd value ≡ ok params
      → (map : ValueObject p) × (value.inner ≡ object map) × ReadsUnit map params
  unfolding parse_systemd required_string optional_bool
  parse_systemd-eq-ok value params is_mapped h =
      let opened = >>=-eq-ok (new value) _ h in
      let is = new-eq-ok value opened.1 in
      let start = opened.0.map in
      let name = >>=-eq-ok (required_string "name" opened.0) _ opened.2 in
      let name_read = required-eq-ok "name" parse_string opened.0 (is_mapped start is) name.1 in
      let enabled = >>=-eq-ok (optional_bool "enabled" name.0.1) _ name.2 in
      let enabled_read = optional-eq-ok "enabled" parse_bool name.0.1 name_read.1.0 enabled.1 in
      let active = >>=-eq-ok (optional_bool "active" enabled.0.1) _ enabled.2 in
      let active_read = optional-eq-ok "active" parse_bool enabled.0.1 enabled_read.1.0 active.1 in
      let done = >>=-eq-ok (finish active.0.1) _ active.2 in
      let left = finish-eq-ok active.0.1 done.1 in
      (
        start,
        is,
        ok_carries (ReadsUnit start) done.2 (
          Holds-IsHeld string parse_string parse_string-eq-ok "name" start name_read.0,
          MayHold-IsGiven boolean parse_bool parse_bool-eq-ok "enabled" start (
              MayHold-before parse_bool "enabled" start name.0.1.map
                (name_read.1.2 "enabled" (texts_differ "name" "enabled" refl)) enabled_read.0),
          MayHold-IsGiven boolean parse_bool parse_bool-eq-ok "active" start (
              MayHold-before parse_bool "active" start enabled.0.1.map
                (enabled_read.1.2 "active" (texts_differ "enabled" "active" refl)
                  ∙ name_read.1.2 "active" (texts_differ "name" "active" refl))
                active_read.0),
          λ q a b c.
              sym (name_read.1.2 q a)
              ∙ sym (enabled_read.1.2 q b)
              ∙ sym (active_read.1.2 q c)
              ∙ left q,
        ),
      )

  parse_systemd-given :
      (value : Spanned (Value p)) (params : SystemdParams)
      → IsMapped value.inner
      → (map : ValueObject p) × (value.inner ≡ object map) × ReadsUnit map params
      → parse_systemd value ≡ ok params
  unfolding parse_systemd
  parse_systemd-given value params is_mapped (map, is, (name, enabled, active, no_other)) =
      let start : StructFields p = record { map = map; span = value.span } in
      let first = required_string-Yields "name" start params.name (is_mapped map is) name in
      let second = optional_bool-Yields "enabled" first.0 params.enabled first.2.0 (
        IsGiven-after boolean "enabled" map first.0.map params.enabled
          (first.2.2 "enabled" (texts_differ "name" "enabled" refl)) enabled) in
      let third = optional_bool-Yields "active" second.0 params.active second.2.0 (
        IsGiven-after boolean "active" map second.0.map params.active
          (second.2.2 "active" (texts_differ "enabled" "active" refl)
            ∙ first.2.2 "active" (texts_differ "name" "active" refl))
          active) in
      let left : (q : String) → get q third.0.map ≡ none = λ q.
        IsWithout-none "active" second.0.map third.0.map q third.2 λ c.
          IsWithout-none "enabled" first.0.map second.0.map q second.2
            λ b. IsWithout-none "name" map first.0.map q first.2 λ a. no_other q a b c in
      rw (new-ok value map is, first.1, second.1, third.1, finish-ok third.0 left) refl

  -- The parameters of a unit are parsed from a value whose keys differ if and only if the value is
  -- an object; under "name" it holds the text that is the name; under "enabled" and "active" it
  -- holds the Boolean that is given, or, where none is given, null or nothing; and it has no other
  -- key.
  pub parse_systemd-ok :
      (value : Spanned (Value p)) (params : SystemdParams)
      → IsMapped value.inner
      → (parse_systemd value ≡ ok params)
        ↔ ((map : ValueObject p) × (value.inner ≡ object map) × ReadsUnit map params)
  parse_systemd-ok value params is_mapped =
      (parse_systemd-eq-ok value params is_mapped, parse_systemd-given value params is_mapped)
