-- ===== src/Causality/Collect/Names.antt =====
-- What the table says of each id after the recursion, against its description by recursion on the
-- tree: the indices of the leaves below the node of that name.
use lusid.Base.{
  ℕ, zero, suc, ◌+◌, ◌≡◌, refl, ap, Bool, false, ◌||◌, Option, none, some, List, [], ◌∷◌, ◌++◌,
  arith, Eq, contains, if◌then◌else◌, ◌=?◌,
}
use lusid.Tree.{Trees, branch, leaf, nil, cons}
use lusid.Causality.Collect.{CausalityMeta, CausalityTree, IdTable, lookup, push_index, push_active}
use lusid.Causality.Collect.Table.{lookup-push_index}

-- The numbers `b`, `b + 1`, … of `n` leaves.
abbrev pub range : ℕ → ℕ → List ℕ
range b zero = []
range b (suc n) = b ∷ range (b + 1) n

pub range-append : (b n m : ℕ) → range b n ++ range (b + n) m ≡ range b (n + m)
range-append b zero m =
    let same : b + 0 ≡ b = omega arith in let all : 0 + m ≡ m = omega arith in rw (same, all)
range-append b (suc n) m =
    let next : b + suc n ≡ (b + 1) + n = omega arith in
    let all : suc n + m ≡ suc (n + m) = omega arith in
    rw (next, all) (ap (λ l. b ∷ l) (range-append (b + 1) n m))

module _ {ℓ} {Node : Type ℓ} {NodeId : Type 0} where
  unfoldable mutual
    pub leaf_count : CausalityTree (Option Node) NodeId → ℕ
    leaf_count (branch meta children) = leaf_count_all children
    leaf_count (leaf meta _) = 1

    pub leaf_count_all : Trees (Option Node) (CausalityMeta NodeId) → ℕ
    leaf_count_all nil = 0
    leaf_count_all (cons child children) = leaf_count child + leaf_count_all children

module _ {NodeId : Type 0} ⦃e : Eq NodeId⦄ where
  abbrev pub is_named : Option NodeId → NodeId → Bool
  is_named none id = false
  is_named (some name) id = name =? id

module _ {ℓ} {Node : Type ℓ} {NodeId : Type 0} ⦃e : Eq NodeId⦄ where
  -- Whether some node of the tree has the id.
  unfoldable mutual
    pub declares : CausalityTree (Option Node) NodeId → NodeId → Bool
    declares (branch meta children) id = is_named meta.id id || declares_all children id
    declares (leaf meta _) id = is_named meta.id id

    pub declares_all : Trees (Option Node) (CausalityMeta NodeId) → NodeId → Bool
    declares_all nil id = false
    declares_all (cons child children) id = declares child id || declares_all children id

  -- The indices of the leaves below the nodes with the id, where the tree's first leaf has index `b`.
  unfoldable mutual
    pub leaves_under : CausalityTree (Option Node) NodeId → NodeId → ℕ → List ℕ
    leaves_under (branch meta children) id b =
        let deeper = leaves_under_all children id b in
        if is_named meta.id id then range b (leaf_count_all children) else deeper
    leaves_under (leaf meta _) id b = if is_named meta.id id then b ∷ [] else []

    pub leaves_under_all : Trees (Option Node) (CausalityMeta NodeId) → NodeId → ℕ → List ℕ
    leaves_under_all nil id b = []
    leaves_under_all (cons child children) id b =
        leaves_under child id b ++ leaves_under_all children id (b + leaf_count child)

  mutual
    unfolding declares leaves_under

    pub leaves_under-nil :
        (tree : CausalityTree (Option Node) NodeId) (id : NodeId) (b : ℕ)
        → declares tree id ≡ false
        → leaves_under tree id b ≡ []
    leaves_under-nil (branch meta children) id b h =
        ground (arith, leaves_under_all-nil children id b)
    leaves_under-nil (leaf meta _) id b h = ground arith

    pub leaves_under_all-nil :
        (children : Trees (Option Node) (CausalityMeta NodeId)) (id : NodeId) (b : ℕ)
        → declares_all children id ≡ false
        → leaves_under_all children id b ≡ []
    leaves_under_all-nil nil id b h = refl
    leaves_under_all-nil (cons child children) id b h = ground (
      arith,
      leaves_under-nil child id b,
      leaves_under_all-nil children id (b + leaf_count child),
    )

abbrev pub extend : List ℕ → Option (List ℕ) → Option (List ℕ)
extend new none = none
extend new (some old) = some (old ++ new)

module _ {NodeId : Type 0} ⦃e : Eq NodeId⦄ where
  abbrev pub IsNodup : List NodeId → Type 0
  IsNodup [] = Unit
  IsNodup (x ∷ xs) = (contains xs x ≡ false) × IsNodup xs

  pub lookup-push_active :
      (id : NodeId) (index : ℕ) (ids : List NodeId) (table : IdTable NodeId)
      → IsNodup ids
      → lookup id (push_active index ids table)
        ≡ (if contains ids id then extend (index ∷ []) (lookup id table) else lookup id table)
  unfolding push_active
  lookup-push_active id index [] table h = refl
  lookup-push_active id index (x ∷ ids) table h = ground (
    arith,
    lookup-push_active id index ids (push_index index x table) h.1,
    lookup-push_index id x index table,
    h.0,
  )
