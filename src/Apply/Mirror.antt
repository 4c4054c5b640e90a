-- ===== src/Apply/Mirror.antt =====
-- The arena of the pipeline and the arena of the terminal stay alike: the same slots are taken, by
-- leaves or by branches with the same children.
use mathlib.Core.Path.{ap₂}
use lusid.Base.{
  ℕ, suc, ◌+◌, ◌≡◌, refl, ◌∙◌, ap, subst, Option, some, none, List, [], ◌∷◌, ◌++◌, map, String,
  length,
}
use lusid.View.{View}
use lusid.Tree.{Trees, branch, leaf, nil, cons}
use lusid.Tree.Flat.{FlatTreeNode, branch_node, leaf_node, Nodes}
use lusid.Tree.Flat.Layout.{size, sizes, starts}
use lusid.Tree.Flat.Laid.{laid, laid_all, grafted, added}
use lusid.Plan.{PlanNodeId, PlanMeta, PlanTree, render_plan_tree, render_plan_trees}
use lusid.ApplyStdio.FlatView
use lusid.ApplyStdio.FlatView.{FlatViewTreeNode, template_node}
use lusid.ApplyStdio.FlatView.Layout
use lusid.ApplyStdio.FlatView.Laid
use lusid.Apply.{with_scopes}

module _ {ℓ κ} {Node : Type ℓ} {Meta : Type κ} where
  abbrev pub SameSlot : Option (FlatTreeNode Node Meta) → Option FlatViewTreeNode → Type 0
  SameSlot none none = Unit
  SameSlot (some (leaf_node meta value)) (some (FlatView.leaf_node view)) = Unit
  SameSlot (some (branch_node meta children)) (some (FlatView.branch_node view indices)) =
      children ≡ indices
  SameSlot _ _ = ⊥

  abbrev pub Mirrors : Nodes Node Meta → FlatView.Nodes → Type 0
  Mirrors [] [] = Unit
  Mirrors (slot ∷ nodes) (view ∷ views) = SameSlot slot view × Mirrors nodes views
  Mirrors _ _ = ⊥

  pub Mirrors-length :
      (nodes : Nodes Node Meta) (views : FlatView.Nodes)
      → Mirrors nodes views
      → length nodes ≡ length views
  Mirrors-length [] [] h = refl
  Mirrors-length (slot ∷ nodes) (view ∷ views) (same, h) = ap suc (Mirrors-length nodes views h)
  Mirrors-length [] (view ∷ views) h = absurd h
  Mirrors-length (slot ∷ nodes) [] h = absurd h

  pub Mirrors-append :
      (nodes more : Nodes Node Meta) (views extra : FlatView.Nodes)
      → Mirrors nodes views
      → Mirrors more extra
      → Mirrors (nodes ++ more) (views ++ extra)
  Mirrors-append [] more [] extra h k = k
  Mirrors-append (slot ∷ nodes) more (view ∷ views) extra (same, h) k =
      (same, Mirrors-append nodes more views extra h k)
  Mirrors-append [] more (view ∷ views) extra h k = absurd h
  Mirrors-append (slot ∷ nodes) more [] extra h k = absurd h

  SameSlot-template :
      (slot : Option (FlatTreeNode Node Meta)) (view : Option FlatViewTreeNode)
      → SameSlot slot view
      → SameSlot slot (template_node view)
  unfolding template_node
  SameSlot-template none none h = h
  SameSlot-template (some (leaf_node meta value)) (some (FlatView.leaf_node view)) h = h
  SameSlot-template (some (branch_node meta children)) (some (FlatView.branch_node view indices))
        h =
      h
  SameSlot-template none (some view) h = absurd h
  SameSlot-template (some (leaf_node meta value)) none h = absurd h
  SameSlot-template (some (leaf_node meta value)) (some (FlatView.branch_node view indices)) h =
      absurd h
  SameSlot-template (some (branch_node meta children)) none h = absurd h
  SameSlot-template (some (branch_node meta children)) (some (FlatView.leaf_node view)) h = absurd h

  pub Mirrors-template :
      (nodes : Nodes Node Meta) (views : FlatView.Nodes)
      → Mirrors nodes views
      → Mirrors nodes (map template_node views)
  Mirrors-template [] [] h = h
  Mirrors-template (slot ∷ nodes) (view ∷ views) (same, h) =
      (SameSlot-template slot view same, Mirrors-template nodes views h)
  Mirrors-template [] (view ∷ views) h = absurd h
  Mirrors-template (slot ∷ nodes) [] h = absurd h

module _ {ℓ κ} {Node : Type ℓ} {Meta : Type κ} where
  -- The scopes change no slot.
  pub with_scopes-Mirrors :
      (scope : ℕ → String) (index : ℕ) (nodes : Nodes Node Meta) (views : FlatView.Nodes)
      → Mirrors nodes views
      → Mirrors (with_scopes scope index nodes) views
  unfolding with_scopes
  with_scopes-Mirrors scope index [] [] h = h
  with_scopes-Mirrors scope index (none ∷ nodes) (none ∷ views) (same, h) =
      (same, with_scopes-Mirrors scope (suc index) nodes views h)
  with_scopes-Mirrors scope index (some (leaf_node meta value) ∷ nodes)
        (some (FlatView.leaf_node view) ∷ views) (same, h) =
      (same, with_scopes-Mirrors scope (suc index) nodes views h)
  with_scopes-Mirrors scope index (some (branch_node meta children) ∷ nodes)
        (some (FlatView.branch_node view indices) ∷ views) (same, h) =
      (same, with_scopes-Mirrors scope (suc index) nodes views h)
  with_scopes-Mirrors scope index [] (view ∷ views) h = absurd h
  with_scopes-Mirrors scope index (slot ∷ nodes) [] h = absurd h
  with_scopes-Mirrors scope index (none ∷ nodes) (some view ∷ views) (same, h) = absurd same
  with_scopes-Mirrors scope index (some (leaf_node meta value) ∷ nodes) (none ∷ views) (same, h) =
      absurd same
  with_scopes-Mirrors scope index (some (leaf_node meta value) ∷ nodes)
        (some (FlatView.branch_node view indices) ∷ views) (same, h) =
      absurd same
  with_scopes-Mirrors scope index (some (branch_node meta children) ∷ nodes) (none ∷ views)
        (same, h) =
      absurd same
  with_scopes-Mirrors scope index (some (branch_node meta children) ∷ nodes)
        (some (FlatView.leaf_node view) ∷ views) (same, h) =
      absurd same

-- A tree and its drawing take the same slots.
module _ {ℓ} {Node : Type ℓ} {PlanId : Type 0} (render : Node → View)
    (render_id : PlanNodeId PlanId → View) where
  mutual
    unfolding render_plan_tree size Layout.size

    size-render :
        (tree : PlanTree Node PlanId)
        → size tree ≡ Layout.size (render_plan_tree render render_id tree)
    size-render (leaf meta value) = refl
    size-render (branch meta children) = ap suc (sizes-render children)

    sizes-render :
        (trees : Trees Node (PlanMeta PlanId))
        → sizes trees ≡ Layout.sizes (render_plan_trees render render_id trees)
    sizes-render nil = refl
    sizes-render (cons child children) =
        ap₂ (λ (a b : ℕ). a + b) (size-render child) (sizes-render children)

  starts-render :
      (n : ℕ) (trees : Trees Node (PlanMeta PlanId))
      → starts n trees ≡ Layout.starts n (render_plan_trees render render_id trees)
  unfolding starts Layout.starts render_plan_trees
  starts-render n nil = refl
  starts-render n (cons child children) =
      ap (λ (is : List ℕ). n ∷ is)
        (ap (λ k. starts (n + k) children) (size-render child)
          ∙ starts-render (n + Layout.size (render_plan_tree render render_id child)) children)

  mutual
    unfolding laid Laid.laid render_plan_tree

    pub laid-Mirrors :
        (n : ℕ) (tree : PlanTree Node PlanId)
        → Mirrors (laid n tree) (Laid.laid n (render_plan_tree render render_id tree))
    laid-Mirrors n (leaf meta value) = (tt, tt)
    laid-Mirrors n (branch meta children) =
        (starts-render (suc n) children, laid_all-Mirrors (suc n) children)

    pub laid_all-Mirrors :
        (n : ℕ) (trees : Trees Node (PlanMeta PlanId))
        → Mirrors (laid_all n trees) (Laid.laid_all n (render_plan_trees render render_id trees))
    laid_all-Mirrors n nil = tt
    laid_all-Mirrors n (cons child children) =
        Mirrors-append (laid n child) _ _ _ (laid-Mirrors n child) (
          subst
            (λ k.
              Mirrors (laid_all (n + size child) children)
                (Laid.laid_all (n + k) (render_plan_trees render render_id children)))
            (size-render child) (laid_all-Mirrors (n + size child) children))

  pub grafted-SameSlot :
      (n : ℕ) (tree : PlanTree Node PlanId)
      → SameSlot (grafted n tree) (Laid.grafted n (render_plan_tree render render_id tree))
  unfolding grafted Laid.grafted render_plan_tree
  grafted-SameSlot n (leaf meta value) = tt
  grafted-SameSlot n (branch meta children) = starts-render n children

  pub added-Mirrors :
      (n : ℕ) (tree : PlanTree Node PlanId)
      → Mirrors (added n tree) (Laid.added n (render_plan_tree render render_id tree))
  unfolding added Laid.added render_plan_tree
  added-Mirrors n (leaf meta value) = tt
  added-Mirrors n (branch meta children) = laid_all-Mirrors n children
