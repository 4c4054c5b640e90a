-- ===== src/Apply/Expanding.antt =====
-- The expansion of params into resources: each leaf becomes a tree, in the pipeline's arena and in
-- the terminal's alike.
use lusid.Base.{
  ℕ, suc, ◌≤◌, ◌≡◌, ◌∙◌, sym, ap, subst, Option, some, none, List, [], ◌∷◌, ◌++◌, append_assoc,
  arith, length, length-append, one_more, one_written, length-replicate, replicate, ok,
}
use lusid.View.{ViewTree}
use lusid.Tree.Flat.{FlatTreeNode, branch_node, leaf_node, Nodes, replace_tree_nodes}
use lusid.Tree.Flat.Transform.{map_tree_loop}
use lusid.Tree.Flat.Laid.{grafted, added, replace_tree_nodes-none}
use lusid.Plan.{PlanMeta, PlanTree}
use lusid.ApplyStdio.FlatView
use lusid.ApplyStdio.FlatView.{FlatViewTree, replace_subtree_completed, replace_view_tree_nodes}
use lusid.ApplyStdio.FlatView.Laid
use lusid.ApplyStdio.AppView.{AppUpdate, resources_node, update, update_resources}
use lusid.ApplyStdio.Phases.{phase}
use lusid.Apply.{Machine, Outcome, emit, show_resources}
use lusid.Apply.Mirror.{
  SameSlot, Mirrors, Mirrors-length, Mirrors-append, grafted-SameSlot, added-Mirrors,
}
use lusid.Apply.Shown.{at_resources, Shows, Ends, Ends-bind, emit-Shows}

module _ {E PlanId Params Resource State Change Node : Type 0}
    (machine : Machine E PlanId Params Resource State Change)
    (f : Node → PlanMeta PlanId → PlanTree Resource PlanId) (params : FlatViewTree) where
  abbrev pub Expanded : Nodes Resource (PlanMeta PlanId) × List AppUpdate → Type 0
  Expanded r = (views : FlatView.Nodes) × Shows r.1 (at_resources params views) × Mirrors r.0 views

  abbrev loop :
      Nodes Node (PlanMeta PlanId)
      → ℕ
      → Nodes Resource (PlanMeta PlanId)
      → List AppUpdate
      → Outcome E (Nodes Resource (PlanMeta PlanId) × List AppUpdate)
  loop =
      map_tree_loop f
        (λ index tree. emit machine (resources_node index (show_resources machine tree)))

  -- The arena so far: what is done, an empty slot for each that is left, and what was added.
  abbrev pub so_far :
      Nodes Resource (PlanMeta PlanId)
      → Nodes Node (PlanMeta PlanId)
      → Nodes Resource (PlanMeta PlanId)
      → Nodes Resource (PlanMeta PlanId)
  so_far done rest extra = done ++ (replicate (length rest) none ++ extra)

  abbrev Goes :
      Nodes Node (PlanMeta PlanId) → List AppUpdate → ℕ → Nodes Resource (PlanMeta PlanId) → Type 0
  Goes rest emitted index next = Ends Expanded (loop rest index next emitted)

  next_view :
      (vdone : FlatView.Nodes) (view : Option FlatView.FlatViewTreeNode) (behind : FlatView.Nodes)
      {emitted : List AppUpdate}
      → Shows emitted (at_resources params (vdone ++ view ∷ behind))
      → Shows emitted (at_resources params ((vdone ++ view ∷ []) ++ behind))
  next_view vdone view behind {emitted} h =
      subst (λ vs. Shows emitted (at_resources params vs))
        (sym (append_assoc vdone (view ∷ []) behind)) h

  -- The message about a leaf puts its tree where the pipeline puts it.
  accepted :
      (vdone : FlatView.Nodes) (old : FlatView.ViewNode) (behind : FlatView.Nodes) (tree : ViewTree)
      (index : ℕ)
      → index ≡ length vdone
      → update
          (at_resources params (vdone ++ some (FlatView.leaf_node old) ∷ behind))
          (resources_node index tree)
        ≡ ok (
            at_resources params (
              vdone
              ++ Laid.grafted (length (vdone ++ some (FlatView.leaf_node old) ∷ behind)) tree
                ∷ (behind
                    ++ Laid.added (length (vdone ++ some (FlatView.leaf_node old) ∷ behind)) tree)))
  unfolding update update_resources replace_subtree_completed
  accepted vdone old behind tree index same =
      ap
        (λ i. ok (
          at_resources params
            (replace_view_tree_nodes tree i (vdone ++ some (FlatView.leaf_node old) ∷ behind))))
        same
      ∙ ap (λ vs. ok (at_resources params vs))
          (Laid.replace_view_tree_nodes-leaf tree old vdone behind)

  resources_open : (views : FlatView.Nodes) → phase (at_resources params views) ≤ 6
  unfolding phase
  resources_open views = omega arith

  same_length :
      (rest : Nodes Node (PlanMeta PlanId)) (vrest : FlatView.Nodes)
      (done extra : Nodes Resource (PlanMeta PlanId)) (vdone vextra : FlatView.Nodes)
      (view : FlatView.ViewNode)
      → Mirrors done vdone
      → Mirrors rest vrest
      → Mirrors extra vextra
      → length (done ++ none ∷ (replicate (length rest) none ++ extra))
        ≡ length (vdone ++ some (FlatView.leaf_node view) ∷ (vrest ++ vextra))
  same_length rest vrest done extra vdone vextra view d r e = omega (
    arith,
    length-append done (none ∷ (replicate (length rest) none ++ extra)),
    length-append (replicate (length rest) none) extra,
    length-replicate {A = Option (FlatTreeNode Resource (PlanMeta PlanId))} (length rest) none,
    length-append vdone (some (FlatView.leaf_node view) ∷ (vrest ++ vextra)),
    length-append vrest vextra,
    Mirrors-length done vdone d,
    Mirrors-length rest vrest r,
    Mirrors-length extra vextra e,
  )

  -- Where the pipeline puts the tree of a leaf.
  placed :
      (tree : PlanTree Resource PlanId) (rest : Nodes Node (PlanMeta PlanId))
      (done extra : Nodes Resource (PlanMeta PlanId)) (emitted : List AppUpdate)
      → Ends Expanded (
          loop rest
            (suc (length done))
            (done
              ++ grafted (length (done ++ none ∷ (replicate (length rest) none ++ extra))) tree
                ∷ (replicate (length rest) none
                    ++ (extra
                        ++ added
                            (length (done ++ none ∷ (replicate (length rest) none ++ extra)))
                            tree)))
            emitted)
      → Ends Expanded (
          loop rest
            (suc (length done))
            (replace_tree_nodes tree
              (length done)
              (done ++ none ∷ (replicate (length rest) none ++ extra)))
            emitted)
  placed tree rest done extra emitted h =
      let nones = replicate (length rest) none in
      let n = length (done ++ none ∷ (nones ++ extra)) in
      subst (λ ns. Ends Expanded (loop rest (suc (length done)) ns emitted))
        (ap (λ ns. done ++ grafted n tree ∷ ns) (sym (append_assoc nones extra (added n tree)))
          ∙ sym (replace_tree_nodes-none tree done (nones ++ extra)))
        h

  pub resources_loop :
      (rest : Nodes Node (PlanMeta PlanId)) (vrest : FlatView.Nodes)
      (done extra : Nodes Resource (PlanMeta PlanId)) (vdone vextra : FlatView.Nodes)
      (emitted : List AppUpdate)
      → Mirrors done vdone
      → Mirrors rest vrest
      → Mirrors extra vextra
      → Shows emitted (at_resources params (vdone ++ (vrest ++ vextra)))
      → Ends Expanded (loop rest (length done) (so_far done rest extra) emitted)
  unfolding map_tree_loop
  resources_loop [] [] done extra vdone vextra emitted d r e shows =
      (vdone ++ vextra, shows, Mirrors-append done extra vdone vextra d e)
  resources_loop (none ∷ rest) (none ∷ vrest) done extra vdone vextra emitted d (s, r) e shows =
      one_more (Goes rest emitted) done none _ (
        resources_loop rest vrest (done ++ none ∷ []) extra (vdone ++ none ∷ []) vextra emitted
          (Mirrors-append done _ vdone _ d (tt, tt)) r e (next_view vdone none _ shows))
  resources_loop (some (branch_node meta children) ∷ rest)
        (some (FlatView.branch_node view indices) ∷ vrest) done extra vdone vextra emitted d (s, r)
        e shows =
      let slot : Option (FlatTreeNode Resource (PlanMeta PlanId)) =
        some (branch_node meta children) in
      one_written (Goes rest emitted) done none slot _ (
        resources_loop rest vrest (done ++ slot ∷ []) extra
          (vdone ++ some (FlatView.branch_node view indices) ∷ []) vextra emitted
          (Mirrors-append done _ vdone _ d (s, tt)) r e (next_view vdone _ _ shows))
  resources_loop (some (leaf_node meta value) ∷ rest) (some (FlatView.leaf_node view) ∷ vrest) done
        extra vdone vextra emitted d (s, r) e shows =
      let tree = f value meta in
      let drawn = show_resources machine tree in
      let behind = replicate (length rest) none ++ extra in
      let n = length (done ++ none ∷ behind) in
      let m = length (vdone ++ some (FlatView.leaf_node view) ∷ (vrest ++ vextra)) in
      let same : n ≡ m = same_length rest vrest done extra vdone vextra view d r e in
      Ends-bind
        (λ emitted'. Shows emitted' (
          at_resources params
            (vdone ++ Laid.grafted m drawn ∷ ((vrest ++ vextra) ++ Laid.added m drawn))))
        Expanded (emit machine (resources_node (length done) drawn) emitted) _
        (emit-Shows machine (resources_node (length done) drawn) shows
          (accepted vdone view (vrest ++ vextra) drawn (length done) (Mirrors-length done vdone d))
          (resources_open _))
        (λ emitted' shows'. placed tree rest done extra emitted' (
          one_more (Goes rest emitted') done (grafted n tree) _ (
            resources_loop rest vrest (done ++ grafted n tree ∷ []) (extra ++ added n tree)
              (vdone ++ Laid.grafted m drawn ∷ []) (vextra ++ Laid.added m drawn) emitted'
              (Mirrors-append done _ vdone _ d (
                subst (λ k. SameSlot (grafted n tree) (Laid.grafted k drawn)) same
                    (grafted-SameSlot machine.render_resource machine.render_id n tree),
                tt,
              ))
              r
              (Mirrors-append extra _ vextra _ e (
                subst (λ k. Mirrors (added n tree) (Laid.added k drawn)) same
                  (added-Mirrors machine.render_resource machine.render_id n tree)))
              (next_view vdone (Laid.grafted m drawn) _ (
                subst
                  (λ vs. Shows emitted' (at_resources params (vdone ++ Laid.grafted m drawn ∷ vs)))
                  (append_assoc vrest vextra (Laid.added m drawn)) shows')))))
  resources_loop [] (view ∷ vrest) done extra vdone vextra emitted d r e shows = absurd r
  resources_loop (slot ∷ rest) [] done extra vdone vextra emitted d r e shows = absurd r
  resources_loop (none ∷ rest) (some view ∷ vrest) done extra vdone vextra emitted d (s, r) e
        shows =
      absurd s
  resources_loop (some (leaf_node meta value) ∷ rest) (none ∷ vrest) done extra vdone vextra emitted
        d (s, r) e shows =
      absurd s
  resources_loop (some (leaf_node meta value) ∷ rest)
        (some (FlatView.branch_node view indices) ∷ vrest) done extra vdone vextra emitted d (s, r)
        e shows =
      absurd s
  resources_loop (some (branch_node meta children) ∷ rest) (none ∷ vrest) done extra vdone vextra
        emitted d (s, r) e shows =
      absurd s
  resources_loop (some (branch_node meta children) ∷ rest) (some (FlatView.leaf_node view) ∷ vrest)
        done extra vdone vextra emitted d (s, r) e shows =
      absurd s
