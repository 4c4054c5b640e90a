-- ===== src/Tree.antt =====
-- tree/src/lib.rs, the nested half: `Tree` and the operations that keep its shape.
pub mod Flat
mod Tests
use lusid.Base.{Bool, true, false, ◌&&◌}

-- `Trees` is the `Vec<Tree<Node, Meta>>` of a branch.
mutual
  pub data Tree {ℓ κ} (Node : Type ℓ) (Meta : Type κ) : Type (ℓ ⊔ κ) where
    branch : Meta → Trees Node Meta → Tree Node Meta
    leaf : Meta → Node → Tree Node Meta

  pub data Trees {ℓ κ} (Node : Type ℓ) (Meta : Type κ) : Type (ℓ ⊔ κ) where
    nil : Trees Node Meta
    cons : Tree Node Meta → Trees Node Meta → Trees Node Meta

module _ {ℓ κ} {Node : Type ℓ} {Meta : Type κ} where
  unfoldable pub is_leaf : Tree Node Meta → Bool
  is_leaf (branch meta children) = false
  is_leaf (leaf meta node) = true

  unfoldable pub is_branch : Tree Node Meta → Bool
  is_branch (branch meta children) = true
  is_branch (leaf meta node) = false

  unfoldable mutual
    pub is_empty : Tree Node Meta → Bool
    is_empty (branch meta children) = all_empty children
    is_empty (leaf meta node) = false

    pub all_empty : Trees Node Meta → Bool
    all_empty nil = true
    all_empty (cons child children) = is_empty child && all_empty children

  unfoldable mutual
    pub map {μ} : {NextNode : Type μ} → (Node → NextNode) → Tree Node Meta → Tree NextNode Meta
    map f (branch meta children) = branch meta (map_all f children)
    map f (leaf meta node) = leaf meta (f node)

    pub map_all {μ} :
        {NextNode : Type μ} → (Node → NextNode) → Trees Node Meta → Trees NextNode Meta
    map_all f nil = nil
    map_all f (cons child children) = cons (map f child) (map_all f children)

  unfoldable mutual
    pub map_meta {μ} : {NextMeta : Type μ} → (Meta → NextMeta) → Tree Node Meta → Tree Node NextMeta
    map_meta f (branch meta children) = branch (f meta) (map_meta_all f children)
    map_meta f (leaf meta node) = leaf (f meta) node

    pub map_meta_all {μ} :
        {NextMeta : Type μ} → (Meta → NextMeta) → Trees Node Meta → Trees Node NextMeta
    map_meta_all f nil = nil
    map_meta_all f (cons child children) = cons (map_meta f child) (map_meta_all f children)
