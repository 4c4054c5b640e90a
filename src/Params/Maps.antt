-- ===== src/Params/Maps.antt =====
-- An `IndexMap` as a table of its keys: what each operation does to what is found under a key.
use mathlib.Core.Logic.{if_pos, if_neg}
use mathlib.Core.Option.{none-ne-some}
use lusid.Base.{Option, none, some, ◌≡◌, ◌≢◌, ◌∙◌, refl, sym, String, string_eq}
use lusid.Params.Value.{
  Platform, Span, Value, ValueObject, empty_object, entry, spanned, get, push_under, last_first,
  keep_before, swap_remove, Removed,
}

module _ {p : Platform} where
  -- No key stands twice.
  abbrev pub IsMap : ValueObject p → Type 0
  IsMap empty_object = Unit
  IsMap (entry key value span entries) = (get key entries ≡ none) × IsMap entries

  -- Two maps with the same value under each key.
  abbrev pub SameUnder : ValueObject p → ValueObject p → Type 0
  SameUnder left right = (key : String) → get key left ≡ get key right

  pub get_here :
      {key other : String} (value : Value p) (span : Span) (entries : ValueObject p)
      → other ≡ key
      → get key (entry other value span entries) ≡ some (spanned value span)
  unfolding get
  get_here value span entries here = rw (if_pos _ here) refl

  pub get_away :
      {key other : String} (value : Value p) (span : Span) (entries : ValueObject p)
      → other ≢ key
      → get key (entry other value span entries) ≡ get key entries
  unfolding get
  get_away value span entries away = rw (if_neg _ away) refl

  push_under-get :
      (key : String) (value : Value p) (span : Span) (entries : ValueObject p)
      → get key entries ≡ none
      → SameUnder (push_under key value span entries) (entry key value span entries)
  unfolding get push_under
  push_under-get key value span empty_object new q = refl
  push_under-get key value span (entry first first_value first_span entries) new q =
      elim (string_eq.dec first key) [
        | yes same ↦
            absurd (none-ne-some _ (sym new ∙ get_here first_value first_span entries same))
        | no differ ↦ swapped differ
      ]
    where
      behind :
          {k l : String} (kv lv : Value p) (ks ls : Span)
          → k ≢ l
          → k ≡ q
          → get q (entry k kv ks (entry l lv ls entries))
            ≡ get q (entry l lv ls (entry k kv ks entries))
      behind {k} {l} kv lv ks ls differ here =
          get_here kv ks (entry l lv ls entries) here
          ∙ sym (
              get_away lv ls (entry k kv ks entries) (λ e. differ (here ∙ sym e))
              ∙ get_here kv ks entries here)

      swapped :
          first ≢ key
          → get q (entry first first_value first_span (entry key value span entries))
            ≡ get q (entry key value span (entry first first_value first_span entries))
      swapped differ = elim (string_eq.dec first q) [
        | yes here ↦ behind first_value value first_span span differ here
        | no a ↦ elim (string_eq.dec key q) [
          | yes here ↦ sym (behind value first_value span first_span (λ e. differ (sym e)) here)
          | no b ↦
              (get_away first_value first_span (entry key value span entries) a
                ∙ get_away value span entries b)
              ∙ sym (
                  get_away value span (entry first first_value first_span entries) b
                  ∙ get_away first_value first_span entries a)
        ]
      ]

  push_under-IsMap :
      (key : String) (value : Value p) (span : Span) (entries : ValueObject p)
      → get key entries ≡ none
      → IsMap entries
      → IsMap (push_under key value span entries)
  unfolding get push_under
  push_under-IsMap key value span empty_object new distinct = (new, distinct)
  push_under-IsMap key value span (entry first first_value first_span entries) new distinct =
      elim (string_eq.dec first key) [
        | yes same ↦
            absurd (none-ne-some _ (sym new ∙ get_here first_value first_span entries same))
        | no differ ↦ (
          get_away value span entries (λ e. differ (sym e)) ∙ distinct.0,
          (sym (get_away first_value first_span entries differ) ∙ new, distinct.1),
        )
      ]

  last_first-keeps :
      (entries : ValueObject p)
      → IsMap entries
      → IsMap (last_first entries) × SameUnder (last_first entries) entries
  unfolding get last_first
  last_first-keeps empty_object h = (tt, λ q. refl)
  last_first-keeps (entry key value span entries) h =
      let inner = last_first-keeps entries h.1 in
      let new = inner.1 key ∙ h.0 in
      (
        push_under-IsMap key value span (last_first entries) new inner.0,
        λ q. push_under-get key value span (last_first entries) new q ∙ under q (inner.1 q),
      )
    where
      under :
          (q : String)
          → get q (last_first entries) ≡ get q entries
          → get q (entry key value span (last_first entries)) ≡ get q (entry key value span entries)
      under q same = rw same refl

  -- `rest` is `entries` without `key`.
  abbrev pub IsWithout : String → ValueObject p → ValueObject p → Type 0
  IsWithout key entries rest =
      IsMap rest × (get key rest ≡ none) × ((q : String) → key ≢ q → get q rest ≡ get q entries)

  -- What `swap_remove` yields, by what stands under the key.
  abbrev pub Takes : String → ValueObject p → Option (Removed p) → Type 0
  Takes key entries none = get key entries ≡ none
  Takes key entries (some (found, rest)) =
      (get key entries ≡ some found) × IsWithout key entries rest

  keep_before-Takes :
      (key other : String) (value : Value p) (span : Span) (entries : ValueObject p)
      (taken : Option (Removed p))
      → other ≢ key
      → get other entries ≡ none
      → Takes key entries taken
      → Takes key (entry other value span entries) (keep_before other value span taken)
  unfolding get keep_before
  keep_before-Takes key other value span entries none differ new h =
      get_away value span entries differ ∙ h
  keep_before-Takes key other value span entries (some (found, rest)) differ new h = (
    get_away value span entries differ ∙ h.0,
    (
      (h.1.2 other (λ e. differ (sym e)) ∙ new, h.1.0),
      get_away value span rest differ ∙ h.1.1,
      λ q away. under q (h.1.2 q away),
    ),
  )
    where
      under :
          (q : String)
          → get q rest ≡ get q entries
          → get q (entry other value span rest) ≡ get q (entry other value span entries)
      under q same = rw same refl

  pub swap_remove-Takes :
      (key : String) (entries : ValueObject p)
      → IsMap entries
      → Takes key entries (swap_remove key entries)
  unfolding get swap_remove
  swap_remove-Takes key empty_object h = refl
  swap_remove-Takes key (entry other value span entries) h = elim (string_eq.dec other key) [
    | yes here ↦
        let moved = last_first-keeps entries h.1 in
        rw (if_pos _ here) (
          get_here value span entries here,
          (
            moved.0,
            moved.1 key ∙ rw here at h.0,
            λ q away. moved.1 q ∙ sym (get_away value span entries (λ e. away (sym here ∙ e))),
          ),
        )
    | no differ ↦ rw (if_neg _ differ) (
        keep_before-Takes key other value span entries (swap_remove key entries) differ h.0
          (swap_remove-Takes key entries h.1))
  ]

  -- A map under no key of which a value stands is empty.
  pub nothing_left :
      (entries : ValueObject p) → ((key : String) → get key entries ≡ none) → entries ≡ empty_object
  unfolding get
  nothing_left empty_object h = refl
  nothing_left (entry key value span entries) h =
      absurd (none-ne-some _ (sym (h key) ∙ get_here value span entries refl))
