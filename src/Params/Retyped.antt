-- ===== src/Params/Retyped.antt =====
-- params/src/lib.rs: the check of one value succeeds at every type that its rewriting has.
use lusid.Base.{String, subst, ℕ, suc, ◌≡◌, refl, sym, ap, inl, inr, ok, ◌∙◌, ◌↔◌}
use lusid.Params.Value.{
  Platform, Span, Spanned, spanned, Value, Values, ValueObject, boolean, string, number, list,
  object, host_path, target_path, empty_list, item, empty_object, entry,
}
use lusid.Params.Schema.{
  ParamType, boolean_type, string_type, number_type, list_type, object_type, host_path_type,
  target_path_type,
}
use lusid.Params.Coerce.{
  ParamsContext, Checked, coerce_items, coerce_entries, coerce_boolean, coerce_string,
  coerce_number, coerce_host_path, coerce_target_path, coerce_list, coerce_object, coerce_type,
}
use lusid.Params.Typed.{
  coerce_type-Coerced, HasType, AllItems, AllEntries, Rewritten, RewrittenItems, RewrittenEntries,
  RewrittenText, Coerced,
}

module _ {p : Platform} where
  -- What a text may be rewritten to.
  abbrev IsText : Value p → Type 0
  IsText (string s) = Unit
  IsText (host_path path) = Unit
  IsText (target_path path) = Unit
  IsText value = ⊥

module _ {p : Platform} (ctx : ParamsContext) where
  textual : (s : String) (span : Span) (new : Value p) → RewrittenText ctx s span new → IsText new
  textual s span new same = elim same [
    | inl kept ↦ subst IsText (sym kept) tt
    | inr (inl (relative, to)) ↦ subst IsText (sym to) tt
    | inr (inr (absolute, to)) ↦ subst IsText (sym to) tt
  ]

  boolean_back :
      (typ : Spanned ParamType) (old : Value p) (span : Span) (new : Value p)
      → Rewritten ctx old span new
      → HasType boolean_type new
      → coerce_boolean ctx typ old span ≡ ok (spanned new span)
  unfolding coerce_boolean Rewritten HasType
  boolean_back typ (boolean b) span new same (c, typed) = cc
  boolean_back typ (string s) span new same (c, typed) =
      absurd (subst IsText typed (textual s span new same))
  boolean_back typ (list items) span new (others, to, each) (c, typed) = cc
  boolean_back typ (object entries) span new (others, to, each) (c, typed) = cc
  boolean_back typ old span new same (c, typed) = cc

  number_back :
      (typ : Spanned ParamType) (old : Value p) (span : Span) (new : Value p)
      → Rewritten ctx old span new
      → HasType number_type new
      → coerce_number ctx typ old span ≡ ok (spanned new span)
  unfolding coerce_number Rewritten HasType
  number_back typ (number b) span new same (c, typed) = cc
  number_back typ (string s) span new same (c, typed) =
      absurd (subst IsText typed (textual s span new same))
  number_back typ (list items) span new (others, to, each) (c, typed) = cc
  number_back typ (object entries) span new (others, to, each) (c, typed) = cc
  number_back typ old span new same (c, typed) = cc

  string_back :
      (typ : Spanned ParamType) (old : Value p) (span : Span) (new : Value p)
      → Rewritten ctx old span new
      → HasType string_type new
      → coerce_string ctx typ old span ≡ ok (spanned new span)
  unfolding coerce_string Rewritten HasType
  string_back typ (string s) span new same (c, typed) = elim same [
    | inl kept ↦ cc
    | inr (inl (relative, to)) ↦ cc
    | inr (inr (absolute, to)) ↦ cc
  ]
  string_back typ (list items) span new (others, to, each) (c, typed) = cc
  string_back typ (object entries) span new (others, to, each) (c, typed) = cc
  string_back typ old span new same (c, typed) = cc

  host_path_back :
      (typ : Spanned ParamType) (old : Value p) (span : Span) (new : Value p)
      → Rewritten ctx old span new
      → HasType host_path_type new
      → coerce_host_path ctx typ old span ≡ ok (spanned new span)
  unfolding coerce_host_path Rewritten HasType
  host_path_back typ (host_path b) span new same (c, typed) = cc
  host_path_back typ (string s) span new same (c, typed) = elim same [
    | inl kept ↦ cc
    | inr (inl (relative, to)) ↦ rw (relative, to) refl
    | inr (inr (absolute, to)) ↦ cc
  ]
  host_path_back typ (list items) span new (others, to, each) (c, typed) = cc
  host_path_back typ (object entries) span new (others, to, each) (c, typed) = cc
  host_path_back typ old span new same (c, typed) = cc

  target_path_back :
      (typ : Spanned ParamType) (old : Value p) (span : Span) (new : Value p)
      → Rewritten ctx old span new
      → HasType target_path_type new
      → coerce_target_path ctx typ old span ≡ ok (spanned new span)
  unfolding coerce_target_path Rewritten HasType
  target_path_back typ (target_path b) span new same (c, typed) = cc
  target_path_back typ (string s) span new same (c, typed) = elim same [
    | inl kept ↦ cc
    | inr (inl (relative, to)) ↦ cc
    | inr (inr (absolute, to)) ↦ rw (absolute, to) refl
  ]
  target_path_back typ (list items) span new (others, to, each) (c, typed) = cc
  target_path_back typ (object entries) span new (others, to, each) (c, typed) = cc
  target_path_back typ old span new same (c, typed) = cc

  -- A check that succeeds wherever a rewriting has the type.
  abbrev pub Answers :
      (Value p → Type 0) → (Spanned (Value p) → Checked p (Spanned (Value p))) → Type 0
  Answers P coerce =
      (old : Value p) (span : Span) (new : Value p)
      → Rewritten ctx old span new
      → P new
      → coerce (spanned old span) ≡ ok (spanned new span)

  items_back :
      (P : Value p → Type 0) (coerce : Spanned (Value p) → Checked p (Spanned (Value p)))
      → Answers P coerce
      → (index : ℕ) (olds news : Values p) → RewrittenItems ctx olds news
      → AllItems P news
      → coerce_items coerce index olds ≡ ok news
  unfolding coerce_items Rewritten
  items_back P coerce good index empty_list empty_list same typed = refl
  items_back P coerce good index (item old span olds) (item new place news) same typed =
      rw (good old span new same.1 typed.0) (
        rw (items_back P coerce good (suc index) olds news same.2 typed.1)
          (ap (λ s. ok (item new s news)) (sym same.0)))
  items_back P coerce good index empty_list (item new place news) same typed = absurd same
  items_back P coerce good index (item old span olds) empty_list same typed = absurd same

  entries_back :
      (P : Value p → Type 0) (coerce : Spanned (Value p) → Checked p (Spanned (Value p)))
      → Answers P coerce
      → (olds news : ValueObject p) → RewrittenEntries ctx olds news
      → AllEntries P news
      → coerce_entries coerce olds ≡ ok news
  unfolding coerce_entries Rewritten
  entries_back P coerce good empty_object empty_object same typed = refl
  entries_back P coerce good (entry key old span olds) (entry other new place news) same typed =
      rw (good old span new same.2 typed.0)
        (rw (entries_back P coerce good olds news same.3 typed.1) (cong same.0 same.1))
    where
      cong :
          other ≡ key
          → place ≡ span
          → ◌≡◌ {A = Checked p (ValueObject p)}
              (ok (entry key new span news))
              (ok (entry other new place news))
      cong a b = cc
  entries_back P coerce good empty_object (entry key new place news) same typed = absurd same
  entries_back P coerce good (entry key old span olds) empty_object same typed = absurd same

  list_back :
      (typ : ParamType) (place : Span) (coerce : Spanned (Value p) → Checked p (Spanned (Value p)))
      → Answers (HasType typ) coerce
      → (whole : Spanned ParamType) (old : Value p) (span : Span) (new : Value p)
      → Rewritten ctx old span new
      → HasType (list_type typ place) new
      → coerce_list coerce whole old span ≡ ok (spanned new span)
  unfolding coerce_list Rewritten HasType
  list_back typ place coerce good whole (list items) span new (others, to, each) (c, is, typed) =
      let same : others ≡ c = cc in
      rw (items_back (HasType typ) coerce good 0 items others each (rw (sym same) at typed)) cc
  list_back typ place coerce good whole (string s) span new same (c, is, typed) =
      absurd (subst IsText is (textual s span new same))
  list_back typ place coerce good whole (object entries) span new (others, to, each)
        (c, is, typed) =
      cc
  list_back typ place coerce good whole old span new same (c, is, typed) = cc

  object_back :
      (typ : ParamType) (place : Span) (coerce : Spanned (Value p) → Checked p (Spanned (Value p)))
      → Answers (HasType typ) coerce
      → (whole : Spanned ParamType) (old : Value p) (span : Span) (new : Value p)
      → Rewritten ctx old span new
      → HasType (object_type typ place) new
      → coerce_object coerce whole old span ≡ ok (spanned new span)
  unfolding coerce_object Rewritten HasType
  object_back typ place coerce good whole (object entries) span new (others, to, each)
        (c, is, typed) =
      let same : others ≡ c = cc in
      rw (entries_back (HasType typ) coerce good entries others each (rw (sym same) at typed)) cc
  object_back typ place coerce good whole (string s) span new same (c, is, typed) =
      absurd (subst IsText is (textual s span new same))
  object_back typ place coerce good whole (list items) span new (others, to, each) (c, is, typed) =
      cc
  object_back typ place coerce good whole old span new same (c, is, typed) = cc

  coerce_type-Answers :
      (typ : ParamType) (at : Span) → Answers (HasType typ) (coerce_type ctx typ at)
  unfolding coerce_type
  coerce_type-Answers boolean_type at old span new same typed =
      boolean_back (spanned boolean_type at) old span new same typed
  coerce_type-Answers string_type at old span new same typed =
      string_back (spanned string_type at) old span new same typed
  coerce_type-Answers number_type at old span new same typed =
      number_back (spanned number_type at) old span new same typed
  coerce_type-Answers host_path_type at old span new same typed =
      host_path_back (spanned host_path_type at) old span new same typed
  coerce_type-Answers target_path_type at old span new same typed =
      target_path_back (spanned target_path_type at) old span new same typed
  coerce_type-Answers (list_type typ place) at old span new same typed =
      list_back typ place (coerce_type ctx typ place) (coerce_type-Answers typ place)
        (spanned (list_type typ place) at) old span new same typed
  coerce_type-Answers (object_type typ place) at old span new same typed =
      object_back typ place (coerce_type ctx typ place) (coerce_type-Answers typ place)
        (spanned (object_type typ place) at) old span new same typed

  pub coerce_type-ok :
      (typ : ParamType) (at : Span) (v w : Spanned (Value p))
      → (coerce_type ctx typ at v ≡ ok w) ↔ Coerced ctx (HasType typ) v w
  coerce_type-ok typ at v w = (
    coerce_type-Coerced ctx typ at v,
    λ h.
        coerce_type-Answers typ at v.inner v.span w.inner h.1 h.2
        ∙ ap (λ s. ok (spanned w.inner s)) (sym h.0),
  )

  -- Every value is a rewriting of itself.
  mutual
    unfolding Rewritten

    pub Rewritten-kept : (value : Value p) (span : Span) → Rewritten ctx value span value
    Rewritten-kept (string s) span = inl refl
    Rewritten-kept (list items) span = (items, refl, items_kept items)
    Rewritten-kept (object entries) span = (entries, refl, entries_kept entries)
    Rewritten-kept value span = refl

    items_kept : (items : Values p) → RewrittenItems ctx items items
    items_kept empty_list = tt
    items_kept (item value span items) = (refl, Rewritten-kept value span, items_kept items)

    entries_kept : (entries : ValueObject p) → RewrittenEntries ctx entries entries
    entries_kept empty_object = tt
    entries_kept (entry key value span entries) =
        (refl, refl, Rewritten-kept value span, entries_kept entries)
