-- ===== src/Params/Typed.antt =====
-- params/src/lib.rs: what the check of one value promises, as a typing of the values and a
-- rewriting that does not depend on the type.
use lusid.Base.{
  ℕ, suc, ◌≡◌, refl, ◌⊎◌, inl, inr, Bool, true, false, Bool-cases, String, ok, >>=-eq-ok,
  ok_carries, map_err, map_err-eq-ok, ok-ne-err, sym,
}
use lusid.Params.Value.{
  Platform, Span, Spanned, spanned, Value, Values, ValueObject, boolean, string, number, list,
  object, host_path, target_path, empty_list, item, empty_object, entry,
}
use lusid.Params.Schema.{
  ParamType, boolean_type, string_type, number_type, list_type, object_type, host_path_type,
  target_path_type,
}
use lusid.Params.Coerce.{
  ParamsContext, Checked, coerce_origin, coerce_items, coerce_entries, coerce_boolean,
  coerce_string, coerce_number, coerce_host_path, coerce_target_path, coerce_list, coerce_object,
  coerce_type, list_item, object_entry,
}

module _ {p : Platform} where
  abbrev pub AllItems : (Value p → Type 0) → Values p → Type 0
  AllItems P empty_list = Unit
  AllItems P (item value span items) = P value × AllItems P items

  abbrev pub AllEntries : (Value p → Type 0) → ValueObject p → Type 0
  AllEntries P empty_object = Unit
  AllEntries P (entry key value span entries) = P value × AllEntries P entries

  unfoldable pub HasType : ParamType → Value p → Type 0
  HasType boolean_type value = (b : Bool) × (value ≡ boolean b)
  HasType string_type value = (s : String) × (value ≡ string s)
  HasType number_type value = (n : p.Number) × (value ≡ number n)
  HasType host_path_type value = (path : String) × (value ≡ host_path path)
  HasType target_path_type value = (path : String) × (value ≡ target_path path)
  HasType (list_type typ place) value =
      (items : Values p) × (value ≡ list items) × AllItems (HasType typ) items
  HasType (object_type typ place) value =
      (entries : ValueObject p) × (value ≡ object entries) × AllEntries (HasType typ) entries

module _ {p : Platform} (ctx : ParamsContext) where
  -- A text is kept, resolved if it is relative or wrapped if it is absolute.
  abbrev pub RewrittenText : String → Span → Value p → Type 0
  RewrittenText s span new =
      (new ≡ string s)
      ⊎ ((p.is_absolute s ≡ false) × (new ≡ host_path (p.join (coerce_origin p span ctx) s)))
      ⊎ ((p.is_absolute s ≡ true) × (new ≡ target_path s))

  unfoldable mutual
    pub Rewritten : Value p → Span → Value p → Type 0
    Rewritten (string s) span new = RewrittenText s span new
    Rewritten (list items) span new =
        (others : Values p) × (new ≡ list others) × RewrittenItems items others
    Rewritten (object entries) span new =
        (others : ValueObject p) × (new ≡ object others) × RewrittenEntries entries others
    Rewritten old span new = new ≡ old

    pub RewrittenItems : Values p → Values p → Type 0
    RewrittenItems empty_list empty_list = Unit
    RewrittenItems (item old span olds) (item new place news) =
        (place ≡ span) × Rewritten old span new × RewrittenItems olds news
    RewrittenItems olds news = ⊥

    pub RewrittenEntries : ValueObject p → ValueObject p → Type 0
    RewrittenEntries empty_object empty_object = Unit
    RewrittenEntries (entry key old span olds) (entry other new place news) =
        (other ≡ key) × (place ≡ span) × Rewritten old span new × RewrittenEntries olds news
    RewrittenEntries olds news = ⊥

  -- What a value is checked to be.
  abbrev pub Coerced : (Value p → Type 0) → Spanned (Value p) → Spanned (Value p) → Type 0
  Coerced P v w = (w.span ≡ v.span) × Rewritten v.inner v.span w.inner × P w.inner

module _ {p : Platform} (ctx : ParamsContext) where
  -- How a check that succeeds is taken apart into what it promises.
  abbrev pub Promises :
      (Value p → Type 0) → (Spanned (Value p) → Checked p (Spanned (Value p))) → Type 0
  Promises P coerce = (v w : Spanned (Value p)) → coerce v ≡ ok w → Coerced ctx P v w

  coerce_boolean-Coerced :
      (typ : Spanned ParamType) (value : Value p) (span : Span) {w : Spanned (Value p)}
      → coerce_boolean ctx typ value span ≡ ok w
      → Coerced ctx (HasType boolean_type) (spanned value span) w
  unfolding coerce_boolean Rewritten HasType
  coerce_boolean-Coerced typ (boolean b) span h =
      ok_carries (Coerced ctx (HasType boolean_type) (spanned (boolean b) span)) h
        (refl, refl, (b, refl))
  coerce_boolean-Coerced typ value span h = cc

  coerce_string-Coerced :
      (typ : Spanned ParamType) (value : Value p) (span : Span) {w : Spanned (Value p)}
      → coerce_string ctx typ value span ≡ ok w
      → Coerced ctx (HasType string_type) (spanned value span) w
  unfolding coerce_string Rewritten HasType
  coerce_string-Coerced typ (string s) span h =
      ok_carries (Coerced ctx (HasType string_type) (spanned (string s) span)) h
        (refl, inl refl, (s, refl))
  coerce_string-Coerced typ value span h = cc

  coerce_number-Coerced :
      (typ : Spanned ParamType) (value : Value p) (span : Span) {w : Spanned (Value p)}
      → coerce_number ctx typ value span ≡ ok w
      → Coerced ctx (HasType number_type) (spanned value span) w
  unfolding coerce_number Rewritten HasType
  coerce_number-Coerced typ (number n) span h =
      ok_carries (Coerced ctx (HasType number_type) (spanned (number n) span)) h
        (refl, refl, (n, refl))
  coerce_number-Coerced typ value span h = cc

  coerce_host_path-Coerced :
      (typ : Spanned ParamType) (value : Value p) (span : Span) {w : Spanned (Value p)}
      → coerce_host_path ctx typ value span ≡ ok w
      → Coerced ctx (HasType host_path_type) (spanned value span) w
  unfolding coerce_host_path Rewritten HasType
  coerce_host_path-Coerced typ (host_path path) span h =
      ok_carries (Coerced ctx (HasType host_path_type) (spanned (host_path path) span)) h
        (refl, refl, (path, refl))
  coerce_host_path-Coerced typ (string s) span h = elim (Bool-cases (p.is_absolute s)) [
    | inl absolute ↦ absurd (ok-ne-err (sym (rw absolute at h)))
    | inr relative ↦
        ok_carries (Coerced ctx (HasType host_path_type) (spanned (string s) span))
          (rw relative at h) (refl, inr (inl (relative, refl)), (_, refl))
  ]
  coerce_host_path-Coerced typ value span h = cc

  coerce_target_path-Coerced :
      (typ : Spanned ParamType) (value : Value p) (span : Span) {w : Spanned (Value p)}
      → coerce_target_path ctx typ value span ≡ ok w
      → Coerced ctx (HasType target_path_type) (spanned value span) w
  unfolding coerce_target_path Rewritten HasType
  coerce_target_path-Coerced typ (target_path path) span h =
      ok_carries (Coerced ctx (HasType target_path_type) (spanned (target_path path) span)) h
        (refl, refl, (path, refl))
  coerce_target_path-Coerced typ (string s) span h = elim (Bool-cases (p.is_absolute s)) [
    | inl absolute ↦
        ok_carries (Coerced ctx (HasType target_path_type) (spanned (string s) span))
          (rw absolute at h) (refl, inr (inr (absolute, refl)), (_, refl))
    | inr relative ↦ absurd (ok-ne-err (sym (rw relative at h)))
  ]
  coerce_target_path-Coerced typ value span h = cc

  coerce_items-Rewritten :
      (P : Value p → Type 0) (coerce : Spanned (Value p) → Checked p (Spanned (Value p)))
      → Promises P coerce
      → (index : ℕ) (items : Values p) {out : Values p} → coerce_items coerce index items ≡ ok out
      → RewrittenItems ctx items out × AllItems P out
  unfolding coerce_items Rewritten
  coerce_items-Rewritten P coerce good index empty_list h =
      ok_carries (λ out. RewrittenItems ctx empty_list out × AllItems P out) h (tt, tt)
  coerce_items-Rewritten P coerce good index (item value span items) h =
      let first = >>=-eq-ok (map_err (list_item index) (coerce (spanned value span))) _ h in
      let later = >>=-eq-ok (coerce_items coerce (suc index) items) _ first.2 in
      let here =
        good (spanned value span) first.0
          (map_err-eq-ok (list_item index) (coerce (spanned value span)) first.1) in
      let tail = coerce_items-Rewritten P coerce good (suc index) items later.1 in
      ok_carries (λ o. RewrittenItems ctx (item value span items) o × AllItems P o) later.2
        ((here.0, here.1, tail.0), (here.2, tail.1))

  coerce_entries-Rewritten :
      (P : Value p → Type 0) (coerce : Spanned (Value p) → Checked p (Spanned (Value p)))
      → Promises P coerce
      → (entries : ValueObject p) {out : ValueObject p} → coerce_entries coerce entries ≡ ok out
      → RewrittenEntries ctx entries out × AllEntries P out
  unfolding coerce_entries Rewritten
  coerce_entries-Rewritten P coerce good empty_object h =
      ok_carries (λ out. RewrittenEntries ctx empty_object out × AllEntries P out) h (tt, tt)
  coerce_entries-Rewritten P coerce good (entry key value span entries) h =
      let first = >>=-eq-ok (map_err (object_entry key) (coerce (spanned value span))) _ h in
      let later = >>=-eq-ok (coerce_entries coerce entries) _ first.2 in
      let here =
        good (spanned value span) first.0
          (map_err-eq-ok (object_entry key) (coerce (spanned value span)) first.1) in
      let tail = coerce_entries-Rewritten P coerce good entries later.1 in
      ok_carries (λ o. RewrittenEntries ctx (entry key value span entries) o × AllEntries P o)
        later.2 ((refl, here.0, here.1, tail.0), (here.2, tail.1))

  coerce_list-Coerced :
      (typ : ParamType) (place : Span) (coerce : Spanned (Value p) → Checked p (Spanned (Value p)))
      → Promises (HasType typ) coerce
      → (whole : Spanned ParamType) (value : Value p) (span : Span) {w : Spanned (Value p)}
      → coerce_list coerce whole value span ≡ ok w
      → Coerced ctx (HasType (list_type typ place)) (spanned value span) w
  unfolding coerce_list Rewritten HasType
  coerce_list-Coerced typ place coerce good whole (list items) span h =
      let out = >>=-eq-ok (coerce_items coerce 0 items) _ h in
      let each = coerce_items-Rewritten (HasType typ) coerce good 0 items out.1 in
      ok_carries (Coerced ctx (HasType (list_type typ place)) (spanned (list items) span)) out.2
        (refl, (out.0, refl, each.0), (out.0, refl, each.1))
  coerce_list-Coerced typ place coerce good whole value span h = cc

  coerce_object-Coerced :
      (typ : ParamType) (place : Span) (coerce : Spanned (Value p) → Checked p (Spanned (Value p)))
      → Promises (HasType typ) coerce
      → (whole : Spanned ParamType) (value : Value p) (span : Span) {w : Spanned (Value p)}
      → coerce_object coerce whole value span ≡ ok w
      → Coerced ctx (HasType (object_type typ place)) (spanned value span) w
  unfolding coerce_object Rewritten HasType
  coerce_object-Coerced typ place coerce good whole (object entries) span h =
      let out = >>=-eq-ok (coerce_entries coerce entries) _ h in
      let each = coerce_entries-Rewritten (HasType typ) coerce good entries out.1 in
      ok_carries (Coerced ctx (HasType (object_type typ place)) (spanned (object entries) span))
        out.2 (refl, (out.0, refl, each.0), (out.0, refl, each.1))
  coerce_object-Coerced typ place coerce good whole value span h = cc

  pub coerce_type-Coerced :
      (typ : ParamType) (at : Span) (v : Spanned (Value p)) {w : Spanned (Value p)}
      → coerce_type ctx typ at v ≡ ok w
      → Coerced ctx (HasType typ) v w
  unfolding coerce_type
  coerce_type-Coerced boolean_type at v h =
      coerce_boolean-Coerced (spanned boolean_type at) v.inner v.span h
  coerce_type-Coerced string_type at v h =
      coerce_string-Coerced (spanned string_type at) v.inner v.span h
  coerce_type-Coerced number_type at v h =
      coerce_number-Coerced (spanned number_type at) v.inner v.span h
  coerce_type-Coerced host_path_type at v h =
      coerce_host_path-Coerced (spanned host_path_type at) v.inner v.span h
  coerce_type-Coerced target_path_type at v h =
      coerce_target_path-Coerced (spanned target_path_type at) v.inner v.span h
  coerce_type-Coerced (list_type typ place) at v h =
      coerce_list-Coerced typ place (coerce_type ctx typ place)
        (λ v w. coerce_type-Coerced typ place v {w = w}) (spanned (list_type typ place) at) v.inner
        v.span h
  coerce_type-Coerced (object_type typ place) at v h =
      coerce_object-Coerced typ place (coerce_type ctx typ place)
        (λ v w. coerce_type-Coerced typ place v {w = w}) (spanned (object_type typ place) at)
        v.inner v.span h
