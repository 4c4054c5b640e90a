-- ===== src/Causality/Collect/Leaves.antt =====
-- The leaves that the recursion collects, against their description by recursion on the tree, and
-- the bound on the indices of the table.
use lusid.Base.{
  ℕ, ◌<◌, ◌≡◌, refl, ◌∙◌, sym, ap, false, Option, none, some, List, [], ◌∷◌, ◌++◌, append_assoc,
  append-nil, arith, length, length-append, Eq, ok, >>=-eq-ok, ok-injective, ok-ne-err, Bool-cases,
  contains, inl, inr, subst,
}
use lusid.Tree.{Trees, branch, leaf, nil, cons}
use lusid.Causality.Collect.{
  CausalityMeta, CausalityTree, CollectedLeaf, Collected, Ancestors, below, effective_leaf, see,
  enter_branch, add_leaf, name_leaf, collect_recursive, collect_children, no_ancestors,
  nothing_collected,
}
use lusid.Causality.Collect.Table.{
  IsBounded, IsBounded-mono, insert-IsBounded, or_default-IsBounded, push_active-IsBounded,
}

module _ {ℓ} {Node : Type ℓ} {NodeId : Type 0} where
  -- The leaves of a tree from left to right, each with the constraints of all its ancestors.
  unfoldable mutual
    pub leaves_of :
        CausalityTree (Option Node) NodeId → Ancestors NodeId → List (CollectedLeaf Node NodeId)
    leaves_of (branch meta children) up = leaves_of_all children (below meta up)
    leaves_of (leaf meta node) up =
        record {
          node = node;
          requires = up.requires ++ meta.requires;
          required_by = up.required_by ++ meta.required_by;
        }
        ∷ []

    pub leaves_of_all :
        Trees (Option Node) (CausalityMeta NodeId)
        → Ancestors NodeId
        → List (CollectedLeaf Node NodeId)
    leaves_of_all nil up = []
    leaves_of_all (cons child children) up = leaves_of child up ++ leaves_of_all children up

-- A state whose table holds indices of collected leaves only.
abbrev pub IsIndexed {ℓ} : {Node : Type ℓ} {NodeId : Type 0} → Collected Node NodeId → Type 0
IsIndexed st = IsBounded (length st.leaves) st.id_to_leaves

module _ {ℓ} {Node : Type ℓ} {NodeId : Type 0} ⦃e : Eq NodeId⦄ where
  -- A step that collects `new` and keeps the table within bounds.
  record Collects (st st' : Collected Node NodeId) (new : List (CollectedLeaf Node NodeId))
      : Type ℓ where
    appended : st'.leaves ≡ st.leaves ++ new
    indexed : IsIndexed st → IsIndexed st'

  pub see-eq-ok :
      (id : NodeId) (st : Collected Node NodeId) {st' : Collected Node NodeId}
      → see id st ≡ ok st'
      → (contains st.seen_ids id ≡ false) × (st' ≡ record st { seen_ids = id ∷ st.seen_ids })
  unfolding see
  see-eq-ok id st h = elim (Bool-cases (contains st.seen_ids id)) [
    | inl seen ↦ absurd (ok-ne-err (sym (rw seen at h)))
    | inr new ↦ (new, sym (ok-injective (rw new at h)))
  ]

  enter_branch-Collects :
      (id : Option NodeId) (st : Collected Node NodeId) {st' : Collected Node NodeId}
      → enter_branch id st ≡ ok st'
      → Collects st st' []
  unfolding enter_branch
  enter_branch-Collects none st h =
      subst (λ s. Collects st s []) (ok-injective h)
        (record { appended = sym (append-nil st.leaves); indexed = λ b. b })
  enter_branch-Collects (some id) st h =
      let (seen, e1, h1) = >>=-eq-ok (see id st) _ h in
      let (_, same) = see-eq-ok id st e1 in
      subst (λ s. Collects st s []) (ok-injective h1)
        (rw same (record {
          appended = sym (append-nil st.leaves);
          indexed = λ b. or_default-IsBounded _ id st.id_to_leaves b;
        }))

  name_leaf-Collects :
      (id : Option NodeId) (index : ℕ) (st : Collected Node NodeId) {st' : Collected Node NodeId}
      → index < length st.leaves
      → name_leaf id index st ≡ ok st'
      → Collects st st' []
  unfolding name_leaf
  name_leaf-Collects none index st lt h =
      subst (λ s. Collects st s []) (ok-injective h)
        (record { appended = sym (append-nil st.leaves); indexed = λ b. b })
  name_leaf-Collects (some id) index st lt h =
      let (seen, e1, h1) = >>=-eq-ok (see id st) _ h in
      let (_, same) = see-eq-ok id st e1 in
      subst (λ s. Collects st s []) (ok-injective h1)
        (rw same (record {
          appended = sym (append-nil st.leaves);
          indexed = λ b. insert-IsBounded _ id (index ∷ []) st.id_to_leaves (lt, tt) b;
        }))

  add_leaf-Collects :
      (meta : CausalityMeta NodeId) (up : Ancestors NodeId) (node : Option Node)
      (st : Collected Node NodeId)
      → Collects st (add_leaf meta up node st) (effective_leaf meta up node ∷ [])
  unfolding add_leaf
  add_leaf-Collects meta up node st =
      let l = effective_leaf meta up node in
      let longer = length-append st.leaves (l ∷ []) in
      record {
        appended = refl;
        indexed = λ b.
            push_active-IsBounded _ (length st.leaves) up.active_branch_ids st.id_to_leaves
              (omega (arith, longer))
              (IsBounded-mono _ _ st.id_to_leaves (omega (arith, longer)) b);
      }

  add_leaf-longer :
      (meta : CausalityMeta NodeId) (up : Ancestors NodeId) (node : Option Node)
      (st : Collected Node NodeId)
      → length st.leaves < length (add_leaf meta up node st).leaves
  add_leaf-longer meta up node st = omega (
    arith,
    ap length (add_leaf-Collects meta up node st).appended,
    length-append st.leaves (effective_leaf meta up node ∷ []),
  )

  Collects-trans :
      {a b c : Collected Node NodeId} {xs ys : List (CollectedLeaf Node NodeId)}
      → Collects a b xs
      → Collects b c ys
      → Collects a c (xs ++ ys)
  Collects-trans {a} {xs} {ys} r s = record {
    appended = s.appended ∙ ap (λ l. l ++ ys) r.appended ∙ append_assoc a.leaves xs ys;
    indexed = λ b. s.indexed (r.indexed b);
  }

  mutual
    unfolding collect_recursive leaves_of

    collect_recursive-Collects :
        (tree : CausalityTree (Option Node) NodeId) (up : Ancestors NodeId)
        (st st' : Collected Node NodeId)
        → collect_recursive tree up st ≡ ok st'
        → Collects st st' (leaves_of tree up)
    collect_recursive-Collects (branch meta children) up st st' h =
        let (entered, e1, h1) = >>=-eq-ok (enter_branch meta.id st) _ h in
        Collects-trans (enter_branch-Collects meta.id st e1)
          (collect_children-Collects children (below meta up) entered st' h1)
    collect_recursive-Collects (leaf meta node) up st st' h =
        let st1 = add_leaf meta up node st in
        Collects-trans (add_leaf-Collects meta up node st)
          (name_leaf-Collects meta.id (length st.leaves) st1 (add_leaf-longer meta up node st) h)

    collect_children-Collects :
        (children : Trees (Option Node) (CausalityMeta NodeId)) (up : Ancestors NodeId)
        (st st' : Collected Node NodeId)
        → collect_children children up st ≡ ok st'
        → Collects st st' (leaves_of_all children up)
    collect_children-Collects nil up st st' h =
        subst (λ s. Collects st s []) (ok-injective h)
          (record { appended = sym (append-nil st.leaves); indexed = λ b. b })
    collect_children-Collects (cons child children) up st st' h =
        let (st1, e1, h1) = >>=-eq-ok (collect_recursive child up st) _ h in
        Collects-trans (collect_recursive-Collects child up st st1 e1)
          (collect_children-Collects children up st1 st' h1)

  -- What a whole tree gives.
  pub collect_recursive-leaves_of :
      (tree : CausalityTree (Option Node) NodeId) {st : Collected Node NodeId}
      → collect_recursive tree no_ancestors nothing_collected ≡ ok st
      → (st.leaves ≡ leaves_of tree no_ancestors) × IsIndexed st
  collect_recursive-leaves_of tree h =
      let r = collect_recursive-Collects tree no_ancestors nothing_collected _ h in
      (r.appended, r.indexed tt)
