-- ===== src/Causality/Collect/Named.antt =====
-- The recursion gives each id of the tree the leaves below its node, and refuses an id that comes
-- twice.
use lusid.Base.{
  ℕ, ◌+◌, ◌≡◌, refl, ◌∙◌, sym, ap, Bool, true, false, ◌||◌, Option, none, some, List, [], ◌∷◌, ◌++◌,
  append_assoc, append-nil, arith, length, Eq, contains, if◌then◌else◌, ◌=?◌,
}
use lusid.Causality.Collect.{Collected, lookup}
use lusid.Causality.Collect.Names.{range, range-append, IsNodup, extend}

abbrev pub is_some : Option (List ℕ) → Bool
is_some none = false
is_some (some leaves) = true

extend-extend :
    (xs ys : List ℕ) (old : Option (List ℕ)) → extend ys (extend xs old) ≡ extend (xs ++ ys) old
extend-extend xs ys none = refl
extend-extend xs ys (some old) = ap some (append_assoc old xs ys)

pub extend-nil : (old : Option (List ℕ)) → extend [] old ≡ old
extend-nil none = refl
extend-nil (some old) = ap some (append-nil old)

-- What two steps in a row make of an entry.
entry_twice :
    (active d1 d2 : Bool) (u1 u2 r1 r2 : List ℕ) (old : Option (List ℕ))
    → (d1 ≡ false → u1 ≡ [])
    → (d2 ≡ false → u2 ≡ [])
    → (d2 ≡ true → d1 ≡ false)
    → (let once = (if active then extend r1 old else if d1 then some u1 else old) in
        if active then extend r2 once else if d2 then some u2 else once)
      ≡ (if active then extend (r1 ++ r2) old else if d1 || d2 then some (u1 ++ u2) else old)
entry_twice true d1 d2 u1 u2 r1 r2 old e1 e2 apart = extend-extend r1 r2 old
entry_twice false true true u1 u2 r1 r2 old e1 e2 apart = absurd (true-ne-false (apart refl))
  where
    true-ne-false : ¬ (true ≡ false)
    true-ne-false h = cc
entry_twice false true false u1 u2 r1 r2 old e1 e2 apart =
    ap some (sym (append-nil u1) ∙ ap (λ l. u1 ++ l) (sym (e2 refl)))
entry_twice false false true u1 u2 r1 r2 old e1 e2 apart = ap (λ l. some (l ++ u2)) (sym (e1 refl))
entry_twice false false false u1 u2 r1 r2 old e1 e2 apart = refl

module _ {NodeId : Type 0} ⦃e : Eq NodeId⦄ where
  pub contains-snoc :
      (xs : List NodeId) (x y : NodeId) → contains (xs ++ x ∷ []) y ≡ (contains xs y || x =? y)
  contains-snoc [] x y = ground arith
  contains-snoc (z ∷ xs) x y = ground (arith, contains-snoc xs x y)

  pub snoc-IsNodup :
      (xs : List NodeId) (x : NodeId) → IsNodup xs → contains xs x ≡ false → IsNodup (xs ++ x ∷ [])
  snoc-IsNodup [] x h new = (refl, tt)
  snoc-IsNodup (z ∷ xs) x h new = ground (arith, snoc-IsNodup xs x h.1, contains-snoc xs x z, h.0)

module _ {ℓ} {Node : Type ℓ} {NodeId : Type 0} ⦃e : Eq NodeId⦄ where
  -- The ids that the table knows are those seen, and the active branches are among them.
  pub record Known (st : Collected Node NodeId) (active : List NodeId) : Type 0 where
    pub agrees : (id : NodeId) → is_some (lookup id st.id_to_leaves) ≡ contains st.seen_ids id
    pub nodup : IsNodup active
    pub seen : (id : NodeId) → contains active id ≡ true → contains st.seen_ids id ≡ true

  -- A step that collects `n` leaves and the ids of `declared`, each for the leaves of `under`.
  pub record Names (st st' : Collected Node NodeId) (active : List NodeId)
      (declared : NodeId → Bool) (under : NodeId → List ℕ) (n : ℕ) : Type 0 where
    pub grew : length st'.leaves ≡ length st.leaves + n
    pub more_seen :
        (id : NodeId) → contains st'.seen_ids id ≡ (contains st.seen_ids id || declared id)
    pub fresh : (id : NodeId) → declared id ≡ true → contains st.seen_ids id ≡ false
    pub found :
        (id : NodeId)
        → lookup id st'.id_to_leaves ≡ (
            if contains active id
            then extend (range (length st.leaves) n) (lookup id st.id_to_leaves)
            else if declared id
            then some (under id)
            else lookup id st.id_to_leaves)

  pub Names-Known :
      {st st' : Collected Node NodeId} {active : List NodeId} {declared : NodeId → Bool}
      {under : NodeId → List ℕ} {n : ℕ}
      → Known st active
      → Names st st' active declared under n
      → Known st' active
  Names-Known k s = record {
    agrees = λ id. ground (arith, k.agrees id, k.seen id, s.more_seen id, s.fresh id, s.found id);
    nodup = k.nodup;
    seen = λ id h. ground (arith, k.seen id, s.more_seen id);
  }

  pub Names-nothing :
      {st : Collected Node NodeId} (active : List NodeId)
      → Names st st active (λ id. false) (λ id. []) 0
  Names-nothing {st} active = record {
    grew = omega arith;
    more_seen = λ id. ground arith;
    fresh = λ id h. cc;
    found = λ id. ground (arith, extend-nil (lookup id st.id_to_leaves));
  }

  pub Names-trans :
      {a b c : Collected Node NodeId} {active : List NodeId} (d1 d2 : NodeId → Bool)
      (u1 u2 : NodeId → List ℕ) {n m : ℕ}
      → ((id : NodeId) → d1 id ≡ false → u1 id ≡ [])
      → ((id : NodeId) → d2 id ≡ false → u2 id ≡ [])
      → Names a b active d1 u1 n
      → Names b c active d2 u2 m
      → Names a c active (λ id. d1 id || d2 id) (λ id. u1 id ++ u2 id) (n + m)
  Names-trans {a} {b} d1 d2 u1 u2 {n} {m} e1 e2 r s = record {
    grew = omega (arith, r.grew, s.grew);
    more_seen = λ id. ground (arith, r.more_seen id, s.more_seen id);
    fresh = λ id h. ground (arith, r.more_seen id, r.fresh id, s.fresh id);
    found = λ id.
        rw (s.found id, r.found id, r.grew, ← range-append (length a.leaves) n m)
          (entry_twice _ (d1 id) (d2 id) (u1 id) (u2 id) _ _ _ (e1 id) (e2 id)
            (λ h. ground (arith, s.fresh id h, r.more_seen id)));
  }
