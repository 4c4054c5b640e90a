-- ===== src/Tree/Flat/Swept.antt =====
-- What the sweep of `map_option` leaves of a tree, and what is built of it.
use lusid.Base.{
  ℕ, suc, ◌+◌, ◌<◌, ◌≤◌, ◌≡◌, ◌⊎◌, inl, inr, refl, ◌∙◌, ap, true, false, Option, some, none, arith,
  get_elem?,
}
use lusid.Tree.{Tree, Trees, branch, leaf, nil, cons}
use lusid.Tree.Flat.{branch_node, leaf_node, Nodes, cons_some}
use lusid.Tree.Flat.Layout.{size, sizes, starts}
use lusid.Tree.Flat.Sweep.{is_there, any_there}
use lusid.Tree.Flat.Pruned.{
  keep_branch, prune, prune_all, Holed, AllHoled, leaf_holed, branch_holed, nil_holed, cons_holed,
  there_of, gone_of,
}

module _ {ℓ κ} {Node : Type ℓ} {Meta : Type κ} where
  -- What stands in the arena of a tree after the sweep.
  mutual
    pub data Swept (nodes : Nodes Node Meta) : ℕ → Tree (Option Node) Meta → Type (ℓ ⊔ κ) where
      all_gone :
          (index : ℕ) (tree : Tree (Option Node) Meta)
          → get_elem? nodes index ≡ some none
          → prune tree ≡ none
          → Swept nodes index tree
      leaf_kept :
          (index : ℕ) (meta : Meta) (value : Node)
          → get_elem? nodes index ≡ some (some (leaf_node meta value))
          → Swept nodes index (leaf meta (some value))
      branch_kept :
          (index : ℕ) (meta : Meta) (children : Trees (Option Node) Meta) (first : Tree Node Meta)
          (others : Trees Node Meta)
          → get_elem? nodes index ≡ some (some (branch_node meta (starts (suc index) children)))
          → AllSwept nodes (suc index) children
          → prune_all children ≡ cons first others
          → Swept nodes index (branch meta children)

    pub data AllSwept (nodes : Nodes Node Meta) : ℕ → Trees (Option Node) Meta → Type (ℓ ⊔ κ) where
      nil_swept : (index : ℕ) → AllSwept nodes index nil
      cons_swept :
          (index : ℕ) (child : Tree (Option Node) Meta) (children : Trees (Option Node) Meta)
          → Swept nodes index child
          → AllSwept nodes (index + size child) children
          → AllSwept nodes index (cons child children)

  pub size-positive : (tree : Tree (Option Node) Meta) → 0 < size tree
  unfolding size
  size-positive (leaf meta value) = omega arith
  size-positive (branch meta children) = omega arith

  module _ (nodes nodes' : Nodes Node Meta) where
    abbrev pub SameFrom : ℕ → ℕ → Type (ℓ ⊔ κ)
    SameFrom from to = (j : ℕ) → from ≤ j → j < to → get_elem? nodes' j ≡ get_elem? nodes j

    mutual
      unfolding size

      pub Holed-frame :
          {index : ℕ} {tree : Tree (Option Node) Meta}
          → SameFrom index (index + size tree)
          → Holed nodes index tree
          → Holed nodes' index tree
      Holed-frame same (leaf_holed index meta value h) =
          leaf_holed index meta value (same index (omega arith) (omega arith) ∙ h)
      Holed-frame same (branch_holed index meta children h all) =
          branch_holed index meta children (same index (omega arith) (omega arith) ∙ h)
            (AllHoled-frame (λ j low high. same j (omega arith) (omega arith)) all)

      pub AllHoled-frame :
          {index : ℕ} {trees : Trees (Option Node) Meta}
          → SameFrom index (index + sizes trees)
          → AllHoled nodes index trees
          → AllHoled nodes' index trees
      AllHoled-frame same (nil_holed index) = nil_holed index
      AllHoled-frame same (cons_holed index child children h all) =
          cons_holed index child children
            (Holed-frame (λ j low high. same j (omega arith) (omega arith)) h)
            (AllHoled-frame (λ j low high. same j (omega arith) (omega arith)) all)

    mutual
      unfolding size

      pub Swept-frame :
          {index : ℕ} {tree : Tree (Option Node) Meta}
          → SameFrom index (index + size tree)
          → Swept nodes index tree
          → Swept nodes' index tree
      Swept-frame same (all_gone index tree h none_left) =
          all_gone index tree
            (same index (omega arith) (let more = size-positive tree in omega arith) ∙ h) none_left
      Swept-frame same (leaf_kept index meta value h) =
          leaf_kept index meta value (same index (omega arith) (omega arith) ∙ h)
      Swept-frame same (branch_kept index meta children first others h all left) =
          branch_kept index meta children first others (same index (omega arith) (omega arith) ∙ h)
            (AllSwept-frame (λ j low high. same j (omega arith) (omega arith)) all) left

      pub AllSwept-frame :
          {index : ℕ} {trees : Trees (Option Node) Meta}
          → SameFrom index (index + sizes trees)
          → AllSwept nodes index trees
          → AllSwept nodes' index trees
      AllSwept-frame same (nil_swept index) = nil_swept index
      AllSwept-frame same (cons_swept index child children h all) =
          cons_swept index child children
            (Swept-frame (λ j low high. same j (omega arith) (omega arith)) h)
            (AllSwept-frame (λ j low high. same j (omega arith) (omega arith)) all)

  pub cons_some-some :
      (tree : Tree Node Meta) (trees : Trees Node Meta)
      → cons_some (some tree) trees ≡ cons tree trees
  unfolding cons_some
  cons_some-some tree trees = refl

  pub cons_some-none : (trees : Trees Node Meta) → cons_some none trees ≡ trees
  unfolding cons_some
  cons_some-none trees = refl

  -- A node is there just if something of its tree is left.
  pub Swept-there :
      (nodes : Nodes Node Meta) {index : ℕ} {tree : Tree (Option Node) Meta}
      → Swept nodes index tree
      → ((is_there nodes index ≡ true) × (kept : Tree Node Meta) × (prune tree ≡ some kept))
        ⊎ ((is_there nodes index ≡ false) × (prune tree ≡ none))
  unfolding prune
  Swept-there nodes (all_gone index tree h none_left) = inr (gone_of nodes index h, none_left)
  Swept-there nodes (leaf_kept index meta value h) =
      inl (there_of nodes index (leaf_node meta value) h, leaf meta value, refl)
  Swept-there nodes (branch_kept index meta children first others h all left) = inl (
    there_of nodes index (branch_node meta (starts (suc index) children)) h,
    branch meta (cons first others),
    ap (keep_branch meta) left,
  )

  pub swept-any :
      (nodes : Nodes Node Meta) {index : ℕ} {trees : Trees (Option Node) Meta}
      → AllSwept nodes index trees
      → ((any_there nodes (starts index trees) ≡ true)
          × (first : Tree Node Meta) × (others : Trees Node Meta) × (prune_all trees
              ≡ cons first others))
        ⊎ ((any_there nodes (starts index trees) ≡ false) × (prune_all trees ≡ nil))
  unfolding any_there starts prune
  swept-any nodes (nil_swept index) = inr (refl, refl)
  swept-any nodes (cons_swept index child children h all) = elim (Swept-there nodes h) [
    | inl (there, kept, is) ↦ inl (
      ground (arith, there),
      kept,
      prune_all children,
      ap (λ t. cons_some t (prune_all children)) is ∙ cons_some-some kept (prune_all children),
    )
    | inr (gone, is) ↦ elim (swept-any nodes all) [
      | inl (some_there, first, others, left) ↦ inl (
        ground (arith, gone, some_there),
        first,
        others,
        ap (λ t. cons_some t (prune_all children)) is ∙ cons_some-none (prune_all children) ∙ left,
      )
      | inr (none_there, left) ↦ inr (
        ground (arith, gone, none_there),
        ap (λ t. cons_some t (prune_all children)) is ∙ cons_some-none (prune_all children) ∙ left,
      )
    ]
  ]
