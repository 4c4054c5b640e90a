-- ===== src/Apply/Changing.antt =====
-- The changes of the resources: each leaf of the terminal's arena is completed with its change, or
-- taken away.
use lusid.Base.{
  ℕ, ◌≤◌, ◌≡◌, ◌∙◌, sym, ap, subst, Option, some, none, List, [], ◌∷◌, ◌++◌, append_assoc, arith,
  length, one_more, one_written, length-append_one, replicate, ok,
}
use lusid.View.{View}
use lusid.Tree.Flat.{branch_node, leaf_node, Nodes}
use lusid.Tree.Flat.Transform.{map_loop}
use lusid.Plan.{PlanMeta}
use lusid.ApplyStdio.FlatView
use lusid.ApplyStdio.FlatView.{set_leaf_view, set_node_none, complete, ViewNode}
use lusid.ApplyStdio.FlatView.Laid.{set_leaf_view-leaf, set_node_none-leaf}
use lusid.ApplyStdio.AppView.{
  AppUpdate, ChangesData, on_tree, resource_changes, resource_changes_node, update,
  update_resource_changes,
}
use lusid.ApplyStdio.Phases.{phase}
use lusid.Apply.{Machine, Outcome, emit, show_change}
use lusid.Apply.Mirror.{Mirrors}
use lusid.Apply.Shown.{at_changes, Shows, Ends, Ends-bind, emit-Shows}

module _ {E PlanId Params Resource State Change : Type 0}
    (machine : Machine E PlanId Params Resource State Change) (base : ChangesData) where
  abbrev pub Changed : Nodes (Option Change) (PlanMeta PlanId) × List AppUpdate → Type 0
  Changed r = (views : FlatView.Nodes) × Shows r.1 (at_changes base views)

  abbrev loop :
      Nodes (Resource × State) (PlanMeta PlanId)
      → ℕ
      → Nodes (Option Change) (PlanMeta PlanId)
      → List AppUpdate
      → Outcome E (Nodes (Option Change) (PlanMeta PlanId) × List AppUpdate)
  loop =
      map_loop (λ (r : Resource × State). machine.change r.0 r.1)
        (λ index change. emit machine (resource_changes_node index (show_change machine change)))

  abbrev Goes :
      Nodes (Resource × State) (PlanMeta PlanId)
      → List AppUpdate
      → ℕ
      → Nodes (Option Change) (PlanMeta PlanId)
      → Type 0
  Goes rest emitted index next = Ends Changed (loop rest index next emitted)

  changes_open : (views : FlatView.Nodes) → phase (at_changes base views) ≤ 6
  unfolding phase
  changes_open views = omega arith

  -- What the message leaves in the slot.
  abbrev changed_slot : Option View → Option FlatView.FlatViewTreeNode
  changed_slot none = none
  changed_slot (some view) = some (FlatView.leaf_node (complete view))

  accepted :
      (vdone : FlatView.Nodes) (old : ViewNode) (behind : FlatView.Nodes) (index : ℕ)
      (view : Option View)
      → index ≡ length vdone
      → update
          (at_changes base (vdone ++ some (FlatView.leaf_node old) ∷ behind))
          (resource_changes_node index view)
        ≡ ok (at_changes base (vdone ++ changed_slot view ∷ behind))
  unfolding update update_resource_changes
  accepted vdone old behind index none same =
      ap
        (λ i. ok (
          resource_changes (record base {
            resource_changes =
                set_node_none (record { nodes = vdone ++ some (FlatView.leaf_node old) ∷ behind })
                  i;
          })))
        same
      ∙ ap (λ t. ok (resource_changes (record base { resource_changes = t })))
          (set_node_none-leaf old vdone behind)
  accepted vdone old behind index (some view) same =
      ap
        (λ i.
          on_tree
            (set_leaf_view (record { nodes = vdone ++ some (FlatView.leaf_node old) ∷ behind }) i
              (complete view))
            (λ t. resource_changes (record base { resource_changes = t })))
        same
      ∙ ap (λ r. on_tree r (λ t. resource_changes (record base { resource_changes = t })))
          (set_leaf_view-leaf (complete view) old vdone behind)

  next_view :
      (vdone : FlatView.Nodes) (view : Option FlatView.FlatViewTreeNode) (behind : FlatView.Nodes)
      {emitted : List AppUpdate}
      → Shows emitted (at_changes base (vdone ++ view ∷ behind))
      → Shows emitted (at_changes base ((vdone ++ view ∷ []) ++ behind))
  next_view vdone view behind {emitted} h =
      subst (λ vs. Shows emitted (at_changes base vs)) (sym (append_assoc vdone (view ∷ []) behind))
        h

  next_length :
      {A B : Type 0} (xs : List A) (ys : List B) (x : A) (y : B)
      → length xs ≡ length ys
      → length (xs ++ x ∷ []) ≡ length (ys ++ y ∷ [])
  next_length xs ys x y h = omega (arith, length-append_one xs x, length-append_one ys y)

  pub changes_loop :
      (rest : Nodes (Resource × State) (PlanMeta PlanId)) (vrest : FlatView.Nodes)
      (done : Nodes (Option Change) (PlanMeta PlanId)) (vdone : FlatView.Nodes)
      (emitted : List AppUpdate)
      → length done ≡ length vdone
      → Mirrors rest vrest
      → Shows emitted (at_changes base (vdone ++ vrest))
      → Ends Changed (loop rest (length done) (done ++ replicate (length rest) none) emitted)
  unfolding map_loop
  changes_loop [] [] done vdone emitted same r shows = (vdone ++ [], shows)
  changes_loop (none ∷ rest) (none ∷ vrest) done vdone emitted same (s, r) shows =
      one_more (Goes rest emitted) done none _ (
        changes_loop rest vrest (done ++ none ∷ []) (vdone ++ none ∷ []) emitted
          (next_length done vdone none none same) r (next_view vdone none vrest shows))
  changes_loop (some (branch_node meta children) ∷ rest)
        (some (FlatView.branch_node view indices) ∷ vrest) done vdone emitted same (s, r) shows =
      one_written (Goes rest emitted) done none (some (branch_node meta children)) _ (
        changes_loop rest vrest (done ++ some (branch_node meta children) ∷ [])
          (vdone ++ some (FlatView.branch_node view indices) ∷ []) emitted
          (next_length done vdone _ _ same) r (next_view vdone _ vrest shows))
  changes_loop (some (leaf_node meta value) ∷ rest) (some (FlatView.leaf_node view) ∷ vrest) done
        vdone emitted same (s, r) shows =
      let change = machine.change value.0 value.1 in
      let slot = changed_slot (show_change machine change) in
      Ends-bind (λ es. Shows es (at_changes base (vdone ++ slot ∷ vrest))) Changed
        (emit machine (resource_changes_node (length done) (show_change machine change)) emitted) _
        (emit-Shows machine (resource_changes_node (length done) (show_change machine change)) shows
          (accepted vdone view vrest (length done) (show_change machine change) same)
          (changes_open _))
        (λ es shows'. one_written (Goes rest es) done none (some (leaf_node meta change)) _ (
          changes_loop rest vrest (done ++ some (leaf_node meta change) ∷ []) (vdone ++ slot ∷ [])
            es (next_length done vdone _ slot same) r (next_view vdone slot vrest shows')))
  changes_loop [] (view ∷ vrest) done vdone emitted same r shows = absurd r
  changes_loop (slot ∷ rest) [] done vdone emitted same r shows = absurd r
  changes_loop (none ∷ rest) (some view ∷ vrest) done vdone emitted same (s, r) shows = absurd s
  changes_loop (some (leaf_node meta value) ∷ rest) (none ∷ vrest) done vdone emitted same (s, r)
        shows =
      absurd s
  changes_loop (some (leaf_node meta value) ∷ rest)
        (some (FlatView.branch_node view indices) ∷ vrest) done vdone emitted same (s, r) shows =
      absurd s
  changes_loop (some (branch_node meta children) ∷ rest) (none ∷ vrest) done vdone emitted same
        (s, r) shows =
      absurd s
  changes_loop (some (branch_node meta children) ∷ rest) (some (FlatView.leaf_node view) ∷ vrest)
        done vdone emitted same (s, r) shows =
      absurd s
