-- ===== src/Params/Kept.antt =====
-- params/src/lib.rs: what the check of a struct keeps under each key, and rewritings in a row.
use lusid.Base.{
  ◌≡◌, inl, inr, refl, sym, subst, ◌∙◌, Option, none, some, [], ◌∷◌, String, string_eq, ok, err,
}
use lusid.Params.Value.{
  Platform, Span, Spanned, Value, Values, ValueObject, string, list, object, empty_list, item,
  empty_object, entry, get,
}
use lusid.Params.Maps.{IsMap, get_here}
use lusid.Params.Schema.{ParamsStruct}
use lusid.Params.Coerce.{ParamsContext, Checked}
use lusid.Params.Typed.{Rewritten, RewrittenItems, RewrittenEntries, Coerced}
use lusid.Params.Lookups.{Undeclared, IsStruct, check_found, keep_coerced, coerced_by}
use lusid.Params.Walked.{keep_coerced-away}

module _ {p : Platform} (ctx : ParamsContext) where
  -- A rewriting of a rewriting.
  mutual
    unfolding Rewritten

    pub Rewritten-trans :
        (old : Value p) (span : Span) (middle new : Value p)
        → Rewritten ctx old span middle
        → Rewritten ctx middle span new
        → Rewritten ctx old span new
    Rewritten-trans (string s) span middle new first second = elim first [
      | inl kept ↦ subst (λ m. Rewritten ctx m span new) kept second
      | inr (inl (relative, to)) ↦
          inr (inl (relative, subst (λ m. Rewritten ctx m span new) to second))
      | inr (inr (absolute, to)) ↦
          inr (inr (absolute, subst (λ m. Rewritten ctx m span new) to second))
    ]
    Rewritten-trans (list items) span middle new (others, to, each) second =
        let next = subst (λ m. Rewritten ctx m span new) to second in
        (next.0, next.1, items_trans items others next.0 each next.2)
    Rewritten-trans (object entries) span middle new (others, to, each) second =
        let next = subst (λ m. Rewritten ctx m span new) to second in
        (next.0, next.1, entries_trans entries others next.0 each next.2)
    Rewritten-trans old span middle new same second =
        subst (λ m. Rewritten ctx m span new) same second

    items_trans :
        (olds middles news : Values p)
        → RewrittenItems ctx olds middles
        → RewrittenItems ctx middles news
        → RewrittenItems ctx olds news
    items_trans empty_list empty_list empty_list a b = tt
    items_trans (item old s olds) (item middle t middles) (item new u news) a b = (
      b.0 ∙ a.0,
      Rewritten-trans old s middle new a.1 (subst (λ z. Rewritten ctx middle z new) a.0 b.1),
      items_trans olds middles news a.2 b.2,
    )
    items_trans empty_list empty_list (item new u news) a b = absurd b
    items_trans empty_list (item middle t middles) news a b = absurd a
    items_trans (item old s olds) empty_list news a b = absurd a
    items_trans (item old s olds) (item middle t middles) empty_list a b = absurd b

    entries_trans :
        (olds middles news : ValueObject p)
        → RewrittenEntries ctx olds middles
        → RewrittenEntries ctx middles news
        → RewrittenEntries ctx olds news
    entries_trans empty_object empty_object empty_object a b = tt
    entries_trans (entry k old s olds) (entry l middle t middles) (entry m new u news) a b = (
      b.0 ∙ a.0,
      b.1 ∙ a.1,
      Rewritten-trans old s middle new a.2 (subst (λ z. Rewritten ctx middle z new) a.1 b.2),
      entries_trans olds middles news a.3 b.3,
    )
    entries_trans empty_object empty_object (entry m new u news) a b = absurd b
    entries_trans empty_object (entry l middle t middles) news a b = absurd a
    entries_trans (entry k old s olds) empty_object news a b = absurd a
    entries_trans (entry k old s olds) (entry l middle t middles) empty_object a b = absurd b

  pub Coerced-trans :
      (P : Value p → Type 0) (u v w : Spanned (Value p))
      → Coerced ctx (λ _. Unit) u v
      → Coerced ctx P v w
      → Coerced ctx P u w
  Coerced-trans P u v w first second = (
    second.0 ∙ first.0,
    Rewritten-trans u.inner u.span v.inner w.inner first.1
        (subst (λ z. Rewritten ctx v.inner z w.inner) first.0 second.1),
    second.2,
  )

  -- What stands under a key before and after the check.
  abbrev pub Relates : Option (Spanned (Value p)) → Option (Spanned (Value p)) → Type 0
  Relates none none = Unit
  Relates (some v) (some w) = Coerced ctx (λ _. Unit) v w
  Relates none (some w) = ⊥
  Relates (some v) none = ⊥

  -- The value that a field keeps.
  abbrev pub kept : Option (Checked p (Spanned (Value p))) → Option (Spanned (Value p))
  kept none = none
  kept (some (ok coerced)) = some coerced
  kept (some (err error)) = none

  abbrev pub AllKept : ParamsStruct → ValueObject p → ValueObject p → Type 0
  AllKept [] values out = Unit
  AllKept ((name, field) ∷ fields) values out =
      (get name out ≡ kept (check_found ctx field (get name values))) × AllKept fields values out

  keep_coerced-here :
      (key : String) (looked : Option (Checked p (Spanned (Value p)))) (later : ValueObject p)
      → get key later ≡ none
      → get key (keep_coerced key looked later) ≡ kept looked
  keep_coerced-here key none later gone = gone
  keep_coerced-here key (some (ok coerced)) later gone =
      get_here coerced.inner coerced.span later refl
  keep_coerced-here key (some (err error)) later gone = gone

  AllKept-under :
      (fields : ParamsStruct) (values out : ValueObject p) (key : String)
      (looked : Option (Checked p (Spanned (Value p))))
      → Undeclared fields key
      → AllKept fields values out
      → AllKept fields values (keep_coerced key looked out)
  AllKept-under [] values out key looked new h = tt
  AllKept-under ((name, field) ∷ fields) values out key looked new h = (
    keep_coerced-away name key looked out (λ e. new.0 (sym e)) ∙ h.0,
    AllKept-under fields values out key looked new.1 h.1,
  )

  pub coerced_by-Undeclared :
      (fields : ParamsStruct) (values : ValueObject p) (q : String)
      → Undeclared fields q
      → get q (coerced_by ctx fields values) ≡ none
  unfolding coerced_by get
  coerced_by-Undeclared [] values q h = refl
  coerced_by-Undeclared ((key, field) ∷ fields) values q h =
      keep_coerced-away q key (check_found ctx field (get key values))
        (coerced_by ctx fields values) h.0
      ∙ coerced_by-Undeclared fields values q h.1

  pub coerced_by-AllKept :
      (fields : ParamsStruct) (values : ValueObject p)
      → IsStruct fields
      → AllKept fields values (coerced_by ctx fields values)
  unfolding coerced_by
  coerced_by-AllKept [] values distinct = tt
  coerced_by-AllKept ((key, field) ∷ fields) values distinct =
      let looked = check_found ctx field (get key values) in
      let out = coerced_by ctx fields values in
      (
        keep_coerced-here key looked out (coerced_by-Undeclared fields values key distinct.0),
        AllKept-under fields values out key looked distinct.0
            (coerced_by-AllKept fields values distinct.1),
      )

  keep_coerced-IsMap :
      (key : String) (looked : Option (Checked p (Spanned (Value p)))) (later : ValueObject p)
      → get key later ≡ none
      → IsMap later
      → IsMap (keep_coerced key looked later)
  keep_coerced-IsMap key none later new h = h
  keep_coerced-IsMap key (some (ok coerced)) later new h = (new, h)
  keep_coerced-IsMap key (some (err error)) later new h = h

  pub coerced_by-IsMap :
      (fields : ParamsStruct) (values : ValueObject p)
      → IsStruct fields
      → IsMap (coerced_by ctx fields values)
  unfolding coerced_by
  coerced_by-IsMap [] values distinct = tt
  coerced_by-IsMap ((key, field) ∷ fields) values distinct =
      keep_coerced-IsMap key (check_found ctx field (get key values)) (coerced_by ctx fields values)
        (coerced_by-Undeclared fields values key distinct.0)
        (coerced_by-IsMap fields values distinct.1)
