-- ===== src/Plan/Rename.antt =====
-- Ids renamed one to one leave a causality tree as it was: the same leaves under each node, and the
-- same order between the leaves.
use lusid.Base.{
  ℕ, ◌+◌, ◌<◌, ◌≡◌, ◌≢◌, ◌↔◌, refl, ◌∙◌, sym, ap, false, Option, none, some, List, [], ◌∷◌, ◌++◌,
  map, arith, get_elem?, count, map-append, get_elem?-map-some, get_elem?-map_source, Eq,
}
use mathlib.Core.Path.{ap₂}
use lusid.Tree
use lusid.Tree.{Tree, Trees, branch, leaf, nil, cons, map_meta_all}
use lusid.Causality.Collect.{
  CausalityMeta, CausalityTree, CollectedLeaf, Ancestors, below, no_ancestors,
}
use lusid.Causality.Collect.Leaves.{leaves_of, leaves_of_all}
use lusid.Causality.Collect.Names.{
  leaf_count, leaf_count_all, is_named, declares, declares_all, leaves_under, leaves_under_all,
}
use lusid.Causality.Precedence.{Precedes, requires, required_by}
use lusid.Plan.{rename_meta, map_option}

module _ {NodeId NewId : Type 0} ⦃e : Eq NodeId⦄ ⦃e' : Eq NewId⦄ (rename : NodeId → NewId) where
  -- No id that is renamed to is named by an id that none is renamed to.
  is_named-foreign :
      (id : Option NodeId) (other : NewId)
      → ((x : NodeId) → rename x ≢ other)
      → is_named (map_option rename id) other ≡ false
  is_named-foreign none other foreign = refl
  is_named-foreign (some x) other foreign = ground (arith, foreign x)

  module _ (injective : (x y : NodeId) → rename x ≡ rename y → x ≡ y) where
    is_named-renamed :
        (id : Option NodeId) (x : NodeId)
        → is_named (map_option rename id) (rename x) ≡ is_named id x
    is_named-renamed none x = refl
    is_named-renamed (some y) x = ground (arith, injective y x)

    count-renamed : (xs : List NodeId) (x : NodeId) → count (rename x) (map rename xs) ≡ count x xs
    count-renamed [] x = refl
    count-renamed (y ∷ xs) x = ground (arith, injective y x, count-renamed xs x)

  -- What is listed among renamed ids is one of them.
  count-source :
      (xs : List NodeId) (other : NewId)
      → 0 < count other (map rename xs)
      → (x : NodeId) × (rename x ≡ other) × (0 < count x xs)
  count-source [] other h = absurd (omega arith)
  count-source (y ∷ xs) other h = elim (e'.dec (rename y) other) [
    | yes same ↦ (y, same, ground arith)
    | no differ ↦
        let (x, same, listed) = count-source xs other (ground arith) in (x, same, ground arith)
  ]

module _ {ℓ} {Node : Type ℓ} {NodeId NewId : Type 0} ⦃e : Eq NodeId⦄ ⦃e' : Eq NewId⦄
    (rename : NodeId → NewId) where
  abbrev pub renamed : CausalityTree (Option Node) NodeId → CausalityTree (Option Node) NewId
  renamed tree = Tree.map_meta (rename_meta rename) tree

  abbrev renamed_all :
      Trees (Option Node) (CausalityMeta NodeId) → Trees (Option Node) (CausalityMeta NewId)
  renamed_all trees = map_meta_all (rename_meta rename) trees

  mutual
    unfolding leaf_count Tree.map_meta

    leaf_count-renamed :
        (tree : CausalityTree (Option Node) NodeId) → leaf_count (renamed tree) ≡ leaf_count tree
    leaf_count-renamed (branch meta children) = leaf_count_all-renamed children
    leaf_count-renamed (leaf meta _) = refl

    leaf_count_all-renamed :
        (trees : Trees (Option Node) (CausalityMeta NodeId))
        → leaf_count_all (renamed_all trees) ≡ leaf_count_all trees
    leaf_count_all-renamed nil = refl
    leaf_count_all-renamed (cons child children) =
        omega (arith, leaf_count-renamed child, leaf_count_all-renamed children)

  mutual
    unfolding declares Tree.map_meta rename_meta

    pub declares-foreign :
        (tree : CausalityTree (Option Node) NodeId) (other : NewId)
        → ((x : NodeId) → rename x ≢ other)
        → declares (renamed tree) other ≡ false
    declares-foreign (branch meta children) other foreign = ground (
      arith,
      is_named-foreign rename meta.id other foreign,
      declares_all-foreign children other foreign,
    )
    declares-foreign (leaf meta _) other foreign = is_named-foreign rename meta.id other foreign

    declares_all-foreign :
        (trees : Trees (Option Node) (CausalityMeta NodeId)) (other : NewId)
        → ((x : NodeId) → rename x ≢ other)
        → declares_all (renamed_all trees) other ≡ false
    declares_all-foreign nil other foreign = refl
    declares_all-foreign (cons child children) other foreign =
        ground
          (arith, declares-foreign child other foreign, declares_all-foreign children other foreign)

  module _ (injective : (x y : NodeId) → rename x ≡ rename y → x ≡ y) where
    mutual
      unfolding leaves_under Tree.map_meta rename_meta

      leaves_under-renamed :
          (tree : CausalityTree (Option Node) NodeId) (x : NodeId) (b : ℕ)
          → leaves_under (renamed tree) (rename x) b ≡ leaves_under tree x b
      leaves_under-renamed (branch meta children) x b = ground (
        arith,
        is_named-renamed rename injective meta.id x,
        leaf_count_all-renamed children,
        leaves_under_all-renamed children x b,
      )
      leaves_under-renamed (leaf meta _) x b =
          ground (arith, is_named-renamed rename injective meta.id x)

      leaves_under_all-renamed :
          (trees : Trees (Option Node) (CausalityMeta NodeId)) (x : NodeId) (b : ℕ)
          → leaves_under_all (renamed_all trees) (rename x) b ≡ leaves_under_all trees x b
      leaves_under_all-renamed nil x b = refl
      leaves_under_all-renamed (cons child children) x b =
          ap₂ (λ (l m : List ℕ). l ++ m) (leaves_under-renamed child x b)
            (ap (λ n. leaves_under_all (renamed_all children) (rename x) (b + n))
                (leaf_count-renamed child)
              ∙ leaves_under_all-renamed children x (b + leaf_count child))

  -- The collected leaves of a renamed tree.
  abbrev rename_leaf : CollectedLeaf Node NodeId → CollectedLeaf Node NewId
  rename_leaf l = record {
    node = l.node;
    requires = map rename l.requires;
    required_by = map rename l.required_by;
  }

  mutual
    unfolding leaves_of Tree.map_meta rename_meta

    leaves_of-renamed :
        (tree : CausalityTree (Option Node) NodeId) (up : Ancestors NodeId) (up' : Ancestors NewId)
        → up'.requires ≡ map rename up.requires
        → up'.required_by ≡ map rename up.required_by
        → leaves_of (renamed tree) up' ≡ map rename_leaf (leaves_of tree up)
    leaves_of-renamed (branch meta children) up up' h h' =
        leaves_of_all-renamed children (below meta up) (below (rename_meta rename meta) up')
          (ap (λ ids. ids ++ map rename meta.requires) h
            ∙ sym (map-append rename up.requires meta.requires))
          (ap (λ ids. ids ++ map rename meta.required_by) h'
            ∙ sym (map-append rename up.required_by meta.required_by))
    leaves_of-renamed (leaf meta value) up up' h h' =
        ap₂
          (λ (ids ids' : List NewId).
            record { node = value; requires = ids; required_by = ids' } ∷ [])
          (ap (λ ids. ids ++ map rename meta.requires) h
            ∙ sym (map-append rename up.requires meta.requires))
          (ap (λ ids. ids ++ map rename meta.required_by) h'
            ∙ sym (map-append rename up.required_by meta.required_by))

    leaves_of_all-renamed :
        (trees : Trees (Option Node) (CausalityMeta NodeId)) (up : Ancestors NodeId)
        (up' : Ancestors NewId)
        → up'.requires ≡ map rename up.requires
        → up'.required_by ≡ map rename up.required_by
        → leaves_of_all (renamed_all trees) up' ≡ map rename_leaf (leaves_of_all trees up)
    leaves_of_all-renamed nil up up' h h' = refl
    leaves_of_all-renamed (cons child children) up up' h h' =
        ap₂ (λ (l m : List (CollectedLeaf Node NewId)). l ++ m)
          (leaves_of-renamed child up up' h h') (leaves_of_all-renamed children up up' h h')
        ∙ sym (map-append rename_leaf (leaves_of child up) (leaves_of_all children up))

  leaves_of-top :
      (tree : CausalityTree (Option Node) NodeId)
      → leaves_of (renamed tree) no_ancestors ≡ map rename_leaf (leaves_of tree no_ancestors)
  leaves_of-top tree = leaves_of-renamed tree no_ancestors no_ancestors refl refl

  module _ (injective : (x y : NodeId) → rename x ≡ rename y → x ≡ y)
      (tree : CausalityTree (Option Node) NodeId) (i j : ℕ) where
    rename-Precedes : Precedes tree i j → Precedes (renamed tree) i j
    rename-Precedes (requires l x at listed under) =
        requires (rename_leaf l) (rename x)
          (ap (λ ls. get_elem? ls j) (leaves_of-top tree)
            ∙ get_elem?-map-some rename_leaf (leaves_of tree no_ancestors) j at)
          (rw (count-renamed rename injective l.requires x) listed)
          (rw (leaves_under-renamed injective tree x 0) under)
    rename-Precedes (required_by l x at listed under) =
        required_by (rename_leaf l) (rename x)
          (ap (λ ls. get_elem? ls i) (leaves_of-top tree)
            ∙ get_elem?-map-some rename_leaf (leaves_of tree no_ancestors) i at)
          (rw (count-renamed rename injective l.required_by x) listed)
          (rw (leaves_under-renamed injective tree x 0) under)

    unrename-Precedes : Precedes (renamed tree) i j → Precedes tree i j
    unrename-Precedes (requires l' other at listed under) =
        let (l, found, same) =
          get_elem?-map_source rename_leaf (leaves_of tree no_ancestors) j
            (sym (ap (λ ls. get_elem? ls j) (leaves_of-top tree)) ∙ at) in
        let (x, is, has) =
          count-source rename l.requires other
            (rw (ap (λ (k : CollectedLeaf Node NewId). k.requires) same) listed) in
        requires l x found has (rw (← leaves_under-renamed injective tree x 0, is) under)
    unrename-Precedes (required_by l' other at listed under) =
        let (l, found, same) =
          get_elem?-map_source rename_leaf (leaves_of tree no_ancestors) i
            (sym (ap (λ ls. get_elem? ls i) (leaves_of-top tree)) ∙ at) in
        let (x, is, has) =
          count-source rename l.required_by other
            (rw (ap (λ (k : CollectedLeaf Node NewId). k.required_by) same) listed) in
        required_by l x found has (rw (← leaves_under-renamed injective tree x 0, is) under)

    pub renamed-Precedes : Precedes (renamed tree) i j ↔ Precedes tree i j
    renamed-Precedes = (unrename-Precedes, rename-Precedes)
