-- ===== src/Tree/Flat/Dropped.antt =====
-- The sweep of `map_option` drops the branches that are left empty, and no other node.
use lusid.Base.{
  ℕ, suc, ◌+◌, ◌<◌, ◌≤◌, ◌≡◌, inl, inr, refl, ◌∙◌, sym, ap, subst, not, Option, some, none, List,
  [], ◌∷◌, ◌++◌, arith, get_elem?, set, get_elem?-set_self, if◌then◌else◌,
}
use lusid.Tree.{Tree, Trees, branch, leaf, nil, cons}
use lusid.Tree.Flat.{branch_node, leaf_node, Nodes}
use lusid.Tree.Flat.Layout.{size, sizes, starts}
use lusid.Tree.Flat.Build.{set-none}
use lusid.Tree.Flat.Sweep.{any_there, is_empty_branch, drop_empty}
use lusid.Tree.Flat.Pruned.{
  keep_branch, prune, Holed, AllHoled, leaf_holed, branch_holed, cons_holed, post, post_all,
}
use lusid.Tree.Flat.Swept.{
  Swept, AllSwept, all_gone, leaf_kept, branch_kept, nil_swept, cons_swept, AllHoled-frame,
  Swept-frame, swept-any,
}

module _ {ℓ κ} {Node : Type ℓ} {Meta : Type κ} where
  drop_empty-append :
      (xs ys : List ℕ) (nodes : Nodes Node Meta)
      → drop_empty (xs ++ ys) nodes ≡ drop_empty ys (drop_empty xs nodes)
  unfolding drop_empty
  drop_empty-append [] ys nodes = refl
  drop_empty-append (x ∷ xs) ys nodes =
      drop_empty-append xs ys (if is_empty_branch nodes x then set nodes x none else nodes)

  -- The sweep over the nodes of a tree has left its slots swept, and all others as they were.
  pub record Sweeps (tree : Tree (Option Node) Meta) (index : ℕ) (nodes nodes' : Nodes Node Meta)
      : Type (ℓ ⊔ κ) where
    pub swept : Swept nodes' index tree
    pub before : (j : ℕ) → j < index → get_elem? nodes' j ≡ get_elem? nodes j
    pub behind : (j : ℕ) → index + size tree ≤ j → get_elem? nodes' j ≡ get_elem? nodes j

  record AllSweeps (trees : Trees (Option Node) Meta) (index : ℕ) (nodes nodes' : Nodes Node Meta)
      : Type (ℓ ⊔ κ) where
    pub swept : AllSwept nodes' index trees
    pub before : (j : ℕ) → j < index → get_elem? nodes' j ≡ get_elem? nodes j
    pub behind : (j : ℕ) → index + sizes trees ≤ j → get_elem? nodes' j ≡ get_elem? nodes j

  is_empty_branch-leaf :
      (nodes : Nodes Node Meta) (index : ℕ) (meta : Meta) (value : Node)
      → get_elem? nodes index ≡ some (some (leaf_node meta value))
      → drop_empty (index ∷ []) nodes ≡ nodes
  unfolding drop_empty is_empty_branch
  is_empty_branch-leaf nodes index meta value h = rw (h, drop_empty, is_empty_branch) refl

  drop-branch :
      (nodes : Nodes Node Meta) (index : ℕ) (meta : Meta) (children : List ℕ)
      → get_elem? nodes index ≡ some (some (branch_node meta children))
      → drop_empty (index ∷ []) nodes
        ≡ (if not (any_there nodes children) then set nodes index none else nodes)
  unfolding drop_empty is_empty_branch
  drop-branch nodes index meta children h = rw (h, drop_empty, is_empty_branch) refl

  branch-Sweeps :
      (meta : Meta) (children : Trees (Option Node) Meta) (index : ℕ) (nodes mid : Nodes Node Meta)
      → get_elem? nodes index ≡ some (some (branch_node meta (starts (suc index) children)))
      → AllSweeps children (suc index) nodes mid
      → Sweeps (branch meta children) index nodes (drop_empty (index ∷ []) mid)
  unfolding size prune
  branch-Sweeps meta children index nodes mid h all =
      let here : get_elem? mid index
          ≡ some (some (branch_node meta (starts (suc index) children))) =
        all.before index (omega arith) ∙ h in
      let dropped = drop-branch mid index meta (starts (suc index) children) here in
      elim (swept-any mid all.swept) [
        | inl (some_there, first, others, left) ↦
            let same : drop_empty (index ∷ []) mid ≡ mid =
              dropped ∙ ap (λ b. if not b then set mid index none else mid) some_there in
            subst (Sweeps (branch meta children) index nodes) (sym same) (record {
              swept = branch_kept index meta children first others here all.swept left;
              before = λ j low. all.before j (omega arith);
              behind = λ j high. all.behind j (omega arith);
            })
        | inr (none_there, left) ↦
            let same : drop_empty (index ∷ []) mid ≡ set mid index none =
              dropped ∙ ap (λ b. if not b then set mid index none else mid) none_there in
            subst (Sweeps (branch meta children) index nodes) (sym same) (record {
              swept =
                  all_gone index (branch meta children) (get_elem?-set_self mid index none here)
                    (ap (keep_branch meta) left);
              before = λ j low.
                  set-none mid index j (λ p. absurd (omega arith)) ∙ all.before j (omega arith);
              behind = λ j high.
                  set-none mid index j (λ p. absurd (omega arith)) ∙ all.behind j (omega arith);
            })
      ]

  dropped_leaf :
      (meta : Meta) (index : ℕ) (nodes : Nodes Node Meta)
      → get_elem? nodes index ≡ some none
      → Sweeps (leaf meta none) index nodes (drop_empty [] nodes)
  unfolding drop_empty prune
  dropped_leaf meta index nodes h = record {
    swept = all_gone index (leaf meta none) h refl;
    before = λ j low. refl;
    behind = λ j high. refl;
  }

  dropped_nothing :
      (index : ℕ) (nodes : Nodes Node Meta) → AllSweeps nil index nodes (drop_empty [] nodes)
  unfolding drop_empty
  dropped_nothing index nodes = record {
    swept = nil_swept index;
    before = λ j low. refl;
    behind = λ j high. refl;
  }

  mutual
    unfolding size starts post

    pub drop-Sweeps :
        (tree : Tree (Option Node) Meta) (index : ℕ) (nodes : Nodes Node Meta)
        → Holed nodes index tree
        → Sweeps tree index nodes (drop_empty (post index tree) nodes)
    drop-Sweeps (leaf meta none) _ nodes (leaf_holed index _ _ h) = dropped_leaf meta index nodes h
    drop-Sweeps (leaf meta (some value)) _ nodes (leaf_holed index _ _ h) =
        subst (Sweeps (leaf meta (some value)) index nodes)
          (sym (is_empty_branch-leaf nodes index meta value h))
          (record {
            swept = leaf_kept index meta value h;
            before = λ j low. refl;
            behind = λ j high. refl;
          })
    drop-Sweeps (branch meta children) _ nodes (branch_holed index _ _ h all) =
        subst (Sweeps (branch meta children) index nodes)
          (sym (drop_empty-append (post_all (suc index) children) (index ∷ []) nodes))
          (branch-Sweeps meta children index nodes
            (drop_empty (post_all (suc index) children) nodes) h
            (drop-AllSweeps children (suc index) nodes all))

    drop-AllSweeps :
        (trees : Trees (Option Node) Meta) (index : ℕ) (nodes : Nodes Node Meta)
        → AllHoled nodes index trees
        → AllSweeps trees index nodes (drop_empty (post_all index trees) nodes)
    drop-AllSweeps nil index nodes h = dropped_nothing index nodes
    drop-AllSweeps (cons child children) _ nodes (cons_holed index _ _ h all) =
        let mid = drop_empty (post index child) nodes in
        let one = drop-Sweeps child index nodes h in
        let rest =
          drop-AllSweeps children (index + size child) mid
            (AllHoled-frame nodes mid (λ j low high. one.behind j low) all) in
        let end = drop_empty (post_all (index + size child) children) mid in
        subst (AllSweeps (cons child children) index nodes)
          (sym
            (drop_empty-append (post index child) (post_all (index + size child) children) nodes))
          (record {
            swept =
                cons_swept index child children
                  (Swept-frame mid end (λ j low high. rest.before j high) one.swept) rest.swept;
            before = λ j low. rest.before j (omega arith) ∙ one.before j low;
            behind = λ j high. rest.behind j (omega arith) ∙ one.behind j (omega arith);
          })
