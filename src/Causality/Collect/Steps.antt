-- ===== src/Causality/Collect/Steps.antt =====
-- What the recursion gives each id of the tree: the leaves below its node.
use lusid.Base.{
  ℕ, ◌+◌, ◌≡◌, refl, ◌∙◌, sym, Bool, false, ◌||◌, Option, none, some, List, [], ◌∷◌, ◌++◌, arith,
  length, length-append, Eq, ok, >>=-eq-ok, ok-injective, contains, subst, if◌then◌else◌, ◌=?◌,
}
use lusid.Tree.{Trees, branch, leaf, nil, cons}
use lusid.Causality.Collect.{
  CausalityMeta, CausalityTree, Collected, Ancestors, below, effective_leaf, see, enter_branch,
  add_leaf, name_leaf, lookup, insert, or_default, collect_recursive, collect_children,
  no_ancestors, nothing_collected,
}
use lusid.Causality.Collect.Table.{lookup-insert, lookup-or_default}
use lusid.Causality.Collect.Leaves.{see-eq-ok}
use lusid.Causality.Collect.Names.{
  range, leaf_count, leaf_count_all, is_named, declares, declares_all, leaves_under,
  leaves_under_all, leaves_under-nil, leaves_under_all-nil, lookup-push_active,
}
use lusid.Causality.Collect.Named.{
  extend-nil, contains-snoc, snoc-IsNodup, Known, Names, Names-Known, Names-nothing, Names-trans,
}

module _ {NodeId : Type 0} where
  -- The branches that are active below a branch.
  abbrev active_below : Option NodeId → List NodeId → List NodeId
  active_below name active = elim name [ none ↦ active | some id ↦ active ++ id ∷ [] ]

module _ {ℓ} {Node : Type ℓ} {NodeId : Type 0} ⦃e : Eq NodeId⦄ where
  enter_branch-some :
      (name : NodeId) (st : Collected Node NodeId) {st' : Collected Node NodeId}
      → enter_branch (some name) st ≡ ok st'
      → (contains st.seen_ids name ≡ false)
        × (st' ≡ record {
          seen_ids = name ∷ st.seen_ids;
          id_to_leaves = or_default name st.id_to_leaves;
          leaves = st.leaves;
        })
  unfolding enter_branch
  enter_branch-some name st h =
      let (seen, e1, h1) = >>=-eq-ok (see name st) _ h in
      let (new, same) = see-eq-ok name st e1 in (new, sym (ok-injective h1) ∙ rw same)

  name_leaf-some :
      (name : NodeId) (index : ℕ) (st : Collected Node NodeId) {st' : Collected Node NodeId}
      → name_leaf (some name) index st ≡ ok st'
      → (contains st.seen_ids name ≡ false)
        × (st' ≡ record {
          seen_ids = name ∷ st.seen_ids;
          id_to_leaves = insert name (index ∷ []) st.id_to_leaves;
          leaves = st.leaves;
        })
  unfolding name_leaf
  name_leaf-some name index st h =
      let (seen, e1, h1) = >>=-eq-ok (see name st) _ h in
      let (new, same) = see-eq-ok name st e1 in (new, sym (ok-injective h1) ∙ rw same)

  -- A branch with a name: what its children collect, seen from outside.
  branch-Names :
      (name : NodeId) (st st' : Collected Node NodeId) (active : List NodeId)
      (declared : NodeId → Bool) (under : NodeId → List ℕ) (n : ℕ)
      → Known st active
      → contains st.seen_ids name ≡ false
      → (let entered : Collected Node NodeId = record {
        seen_ids = name ∷ st.seen_ids;
        id_to_leaves = or_default name st.id_to_leaves;
        leaves = st.leaves;
      } in
          Known entered (active ++ name ∷ [])
          × (Names entered st' (active ++ name ∷ []) declared under n
              → Names st st' active
                  (λ id. name =? id || declared id)
                  (λ id. if name =? id then range (length st.leaves) n else under id)
                  n))
  branch-Names name st st' active declared under n k new = (
    record {
      agrees = λ id.
          ground (arith, k.agrees id, k.agrees name, lookup-or_default id name st.id_to_leaves);
      nodup = snoc-IsNodup active name k.nodup (ground (arith, k.seen name));
      seen = λ id h. ground (arith, k.seen id, contains-snoc active name id);
    },
    λ s. record {
      grew = s.grew;
      more_seen = λ id. ground (arith, s.more_seen id);
      fresh = λ id h. ground (arith, s.fresh id);
      found = λ id. ground (
        arith,
        s.found id,
        contains-snoc active name id,
        lookup-or_default id name st.id_to_leaves,
        k.agrees name,
        k.agrees id,
        k.seen name,
      );
    },
  )

  enter_branch-Names :
      (name : Option NodeId) (st entered st' : Collected Node NodeId) (active : List NodeId)
      (declared : NodeId → Bool) (under : ℕ → NodeId → List ℕ) (n : ℕ)
      → Known st active
      → enter_branch name st ≡ ok entered
      → (Known entered (active_below name active)
          → Names entered st' (active_below name active) declared (under (length entered.leaves)) n)
      → Names st st' active
          (λ id. is_named name id || declared id)
          (λ id.
            if is_named name id then range (length st.leaves) n else under (length st.leaves) id)
          n
  unfolding enter_branch
  enter_branch-Names none st entered st' active declared under n k h inner =
      subst (λ s. Known s active → Names s st' active declared (under (length s.leaves)) n)
        (sym (ok-injective h)) inner k
  enter_branch-Names (some name) st entered st' active declared under n k h inner =
      let (new, same) = enter_branch-some name st h in
      let (known, outer) =
        branch-Names name st st' active declared (under (length st.leaves)) n k new in
      outer (
        subst
          (λ s.
            Known s (active ++ name ∷ [])
            → Names s st' (active ++ name ∷ []) declared (under (length s.leaves)) n)
          same inner known)

  add_leaf-Names :
      (meta : CausalityMeta NodeId) (up : Ancestors NodeId) (node : Option Node)
      (st : Collected Node NodeId)
      → Known st up.active_branch_ids
      → Names st (add_leaf meta up node st) up.active_branch_ids (λ id. false) (λ id. []) 1
  unfolding add_leaf
  add_leaf-Names meta up node st k = record {
    grew = length-append st.leaves (effective_leaf meta up node ∷ []);
    more_seen = λ id. ground arith;
    fresh = λ id h. cc;
    found =
        λ id. lookup-push_active id (length st.leaves) up.active_branch_ids st.id_to_leaves k.nodup;
  }

  name_leaf-Names :
      (name : Option NodeId) (index : ℕ) (st st' : Collected Node NodeId) (active : List NodeId)
      → Known st active
      → name_leaf name index st ≡ ok st'
      → Names st st' active (is_named name) (λ id. if is_named name id then index ∷ [] else []) 0
  unfolding name_leaf
  name_leaf-Names none index st st' active k h =
      subst (λ s. Names st s active (λ id. false) (λ id. []) 0) (ok-injective h)
        (Names-nothing active)
  name_leaf-Names (some name) index st st' active k h =
      let (new, same) = name_leaf-some name index st h in
      subst
        (λ s.
          Names st s active (is_named (some name))
            (λ id. if is_named (some name) id then index ∷ [] else []) 0)
        (sym same)
        (record {
          grew = omega arith;
          more_seen = λ id. ground arith;
          fresh = λ id h. ground arith;
          found = λ id. ground (
            arith,
            lookup-insert id name (index ∷ []) st.id_to_leaves,
            k.seen id,
            k.agrees id,
            extend-nil (lookup id st.id_to_leaves),
          );
        })

  mutual
    unfolding collect_recursive declares leaf_count leaves_under

    collect_recursive-Names :
        (tree : CausalityTree (Option Node) NodeId) (up : Ancestors NodeId)
        (st st' : Collected Node NodeId)
        → Known st up.active_branch_ids
        → collect_recursive tree up st ≡ ok st'
        → Names st st' up.active_branch_ids
            (declares tree)
            (λ id. leaves_under tree id (length st.leaves))
            (leaf_count tree)
    collect_recursive-Names (branch meta children) up st st' k h =
        let (entered, e1, h1) = >>=-eq-ok (enter_branch meta.id st) _ h in
        enter_branch-Names meta.id st entered st' up.active_branch_ids (declares_all children)
          (λ b id. leaves_under_all children id b) (leaf_count_all children) k e1
          (λ known. collect_children-Names children (below meta up) entered st' known h1)
    collect_recursive-Names (leaf meta node) up st st' k h =
        let added = add_leaf-Names meta up node st k in
        Names-trans (λ id. false) (is_named meta.id) (λ id. [])
          (λ id. if is_named meta.id id then length st.leaves ∷ [] else []) (λ id _. refl)
          (λ id no. rw no) added
          (name_leaf-Names meta.id (length st.leaves) _ st' up.active_branch_ids
            (Names-Known k added) h)

    collect_children-Names :
        (children : Trees (Option Node) (CausalityMeta NodeId)) (up : Ancestors NodeId)
        (st st' : Collected Node NodeId)
        → Known st up.active_branch_ids
        → collect_children children up st ≡ ok st'
        → Names st st' up.active_branch_ids
            (declares_all children)
            (λ id. leaves_under_all children id (length st.leaves))
            (leaf_count_all children)
    collect_children-Names nil up st st' k h =
        subst (λ s. Names st s up.active_branch_ids (λ id. false) (λ id. []) 0) (ok-injective h)
          (Names-nothing up.active_branch_ids)
    collect_children-Names (cons child children) up st st' k h =
        let (st1, e1, h1) = >>=-eq-ok (collect_recursive child up st) _ h in
        let first = collect_recursive-Names child up st st1 k e1 in
        let rest = collect_children-Names children up st1 st' (Names-Known k first) h1 in
        Names-trans (declares child) (declares_all children)
          (λ id. leaves_under child id (length st.leaves))
          (λ id. leaves_under_all children id (length st.leaves + leaf_count child))
          (λ id no. leaves_under-nil child id _ no) (λ id no. leaves_under_all-nil children id _ no)
          first (rw first.grew at rest)

  -- If the recursion accepts a whole tree, then the table has an entry for an id just if a node of
  -- the tree has it, and the entry is the indices of the leaves at or below the nodes with that
  -- id.
  pub collect_recursive-lookup :
      (tree : CausalityTree (Option Node) NodeId) {st : Collected Node NodeId}
      → collect_recursive tree no_ancestors nothing_collected ≡ ok st
      → (id : NodeId)
      → lookup id st.id_to_leaves
        ≡ (if declares tree id then some (leaves_under tree id 0) else none)
  unfolding lookup
  collect_recursive-lookup tree {st} h id =
      (collect_recursive-Names tree no_ancestors nothing_collected st start h).found id
    where
      start : Known {Node = Node} {NodeId = NodeId} nothing_collected []
      start = record { agrees = λ i. refl; nodup = tt; seen = λ i m. cc }
