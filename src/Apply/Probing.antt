-- ===== src/Apply/Probing.antt =====
-- The probes of the resources: each leaf is started and completed in the terminal's arena while the
-- pipeline's is rebuilt with what was found.
use lusid.Base.{
  ℕ, ◌≤◌, ◌≡◌, ◌∙◌, sym, ap, subst, Option, some, none, List, [], ◌∷◌, ◌++◌, append_assoc, arith,
  length, one_more, one_written, replicate, ok,
}
use lusid.View.{View}
use lusid.Tree.Flat.{branch_node, leaf_node, Nodes}
use lusid.Tree.Flat.Transform.{map_result_loop}
use lusid.Plan.{PlanMeta}
use lusid.ApplyStdio.FlatView
use lusid.ApplyStdio.FlatView.{set_leaf_view, set_leaf_started, started, complete, ViewNode}
use lusid.ApplyStdio.FlatView.Laid.{set_leaf_view-leaf}
use lusid.ApplyStdio.AppView.{
  AppUpdate, StatesData, on_tree, resource_states, resource_states_node_start,
  resource_states_node_complete, update, update_resource_states,
}
use lusid.ApplyStdio.Phases.{phase}
use lusid.Apply.{Machine, Outcome, emit, probe, lift}
use lusid.Apply.Mirror.{Mirrors, Mirrors-length, Mirrors-append}
use lusid.Apply.Shown.{at_states, Shows, Ends, Ends-bind, Ends-lift, emit-Shows}

module _ {E PlanId Params Resource State Change : Type 0}
    (machine : Machine E PlanId Params Resource State Change) (base : StatesData) where
  abbrev pub Probed : Nodes (Resource × State) (PlanMeta PlanId) × List AppUpdate → Type 0
  Probed r = (views : FlatView.Nodes) × Shows r.1 (at_states base views) × Mirrors r.0 views

  abbrev loop :
      Nodes Resource (PlanMeta PlanId)
      → ℕ
      → Nodes (Resource × State) (PlanMeta PlanId)
      → List AppUpdate
      → Outcome E (Nodes (Resource × State) (PlanMeta PlanId) × List AppUpdate)
  loop =
      map_result_loop (probe machine) (λ index. emit machine (resource_states_node_start index))
        (λ index r. emit machine (resource_states_node_complete index (machine.render_state r.1)))

  states_open : (views : FlatView.Nodes) → phase (at_states base views) ≤ 6
  unfolding phase
  states_open views = omega arith

  accepted_start :
      (vdone : FlatView.Nodes) (old : ViewNode) (behind : FlatView.Nodes) (index : ℕ)
      → index ≡ length vdone
      → update
          (at_states base (vdone ++ some (FlatView.leaf_node old) ∷ behind))
          (resource_states_node_start index)
        ≡ ok (at_states base (vdone ++ some (FlatView.leaf_node started) ∷ behind))
  unfolding update update_resource_states set_leaf_started
  accepted_start vdone old behind index same =
      ap
        (λ i.
          on_tree
            (set_leaf_view (record { nodes = vdone ++ some (FlatView.leaf_node old) ∷ behind }) i
              started)
            (λ t. resource_states (record base { resource_states = t })))
        same
      ∙ ap (λ r. on_tree r (λ t. resource_states (record base { resource_states = t })))
          (set_leaf_view-leaf started old vdone behind)

  accepted_complete :
      (vdone : FlatView.Nodes) (old : ViewNode) (behind : FlatView.Nodes) (index : ℕ) (view : View)
      → index ≡ length vdone
      → update
          (at_states base (vdone ++ some (FlatView.leaf_node old) ∷ behind))
          (resource_states_node_complete index view)
        ≡ ok (at_states base (vdone ++ some (FlatView.leaf_node (complete view)) ∷ behind))
  unfolding update update_resource_states
  accepted_complete vdone old behind index view same =
      ap
        (λ i.
          on_tree
            (set_leaf_view (record { nodes = vdone ++ some (FlatView.leaf_node old) ∷ behind }) i
              (complete view))
            (λ t. resource_states (record base { resource_states = t })))
        same
      ∙ ap (λ r. on_tree r (λ t. resource_states (record base { resource_states = t })))
          (set_leaf_view-leaf (complete view) old vdone behind)

  abbrev Goes :
      Nodes Resource (PlanMeta PlanId)
      → List AppUpdate
      → ℕ
      → Nodes (Resource × State) (PlanMeta PlanId)
      → Type 0
  Goes rest emitted index next = Ends Probed (loop rest index next emitted)

  next_view :
      (vdone : FlatView.Nodes) (view : Option FlatView.FlatViewTreeNode) (behind : FlatView.Nodes)
      {emitted : List AppUpdate}
      → Shows emitted (at_states base (vdone ++ view ∷ behind))
      → Shows emitted (at_states base ((vdone ++ view ∷ []) ++ behind))
  next_view vdone view behind {emitted} h =
      subst (λ vs. Shows emitted (at_states base vs)) (sym (append_assoc vdone (view ∷ []) behind))
        h

  probed :
      (value : Resource) (emitted : List AppUpdate) (vdone vrest : FlatView.Nodes)
      → Shows emitted (at_states base (vdone ++ some (FlatView.leaf_node started) ∷ vrest))
      → Ends
          (λ (r : (Resource × State) × List AppUpdate).
            Shows r.1 (at_states base (vdone ++ some (FlatView.leaf_node started) ∷ vrest)))
          (probe machine value emitted)
  unfolding probe
  probed value emitted vdone vrest shows =
      Ends-bind (λ (state : State). Unit {0}) _ (lift (machine.state emitted value) emitted) _
        (Ends-lift (λ (state : State). Unit {0}) (machine.state emitted value) shows (λ x e. tt))
        (λ state h. shows)

  pub states_loop :
      (rest : Nodes Resource (PlanMeta PlanId)) (vrest : FlatView.Nodes)
      (done : Nodes (Resource × State) (PlanMeta PlanId)) (vdone : FlatView.Nodes)
      (emitted : List AppUpdate)
      → Mirrors done vdone
      → Mirrors rest vrest
      → Shows emitted (at_states base (vdone ++ vrest))
      → Ends Probed (loop rest (length done) (done ++ replicate (length rest) none) emitted)
  unfolding map_result_loop
  states_loop [] [] done vdone emitted d r shows =
      (vdone ++ [], shows, Mirrors-append done [] vdone [] d tt)
  states_loop (none ∷ rest) (none ∷ vrest) done vdone emitted d (s, r) shows =
      one_more (Goes rest emitted) done none _ (
        states_loop rest vrest (done ++ none ∷ []) (vdone ++ none ∷ []) emitted
          (Mirrors-append done _ vdone _ d (tt, tt)) r (next_view vdone none vrest shows))
  states_loop (some (branch_node meta children) ∷ rest)
        (some (FlatView.branch_node view indices) ∷ vrest) done vdone emitted d (s, r) shows =
      one_written (Goes rest emitted) done none (some (branch_node meta children)) _ (
        states_loop rest vrest (done ++ some (branch_node meta children) ∷ [])
          (vdone ++ some (FlatView.branch_node view indices) ∷ []) emitted
          (Mirrors-append done _ vdone _ d (s, tt)) r (next_view vdone _ vrest shows))
  states_loop (some (leaf_node meta value) ∷ rest) (some (FlatView.leaf_node view) ∷ vrest) done
        vdone emitted d (s, r) shows =
      let same = Mirrors-length done vdone d in
      let at_leaf = λ (node : ViewNode). λ (es : List AppUpdate).
        Shows es (at_states base (vdone ++ some (FlatView.leaf_node node) ∷ vrest)) in
      Ends-bind (at_leaf started) Probed
        (emit machine (resource_states_node_start (length done)) emitted) _
        (emit-Shows machine (resource_states_node_start (length done)) shows
          (accepted_start vdone view vrest (length done) same) (states_open _))
        (λ es shows1.
          Ends-bind (λ (r : (Resource × State) × List AppUpdate). at_leaf started r.1) Probed
            (probe machine value es) _ (probed value es vdone vrest shows1)
            (λ (found : (Resource × State) × List AppUpdate) shows2.
              Ends-bind (at_leaf (complete (machine.render_state found.0.1))) Probed
                (emit machine
                  (resource_states_node_complete (length done) (machine.render_state found.0.1))
                  found.1)
                _
                (emit-Shows machine
                  (resource_states_node_complete (length done) (machine.render_state found.0.1))
                  shows2
                  (accepted_complete vdone started vrest (length done)
                    (machine.render_state found.0.1) same)
                  (states_open _))
                (λ es3 shows3.
                  one_written (Goes rest es3) done none (some (leaf_node meta found.0)) _ (
                    states_loop rest vrest (done ++ some (leaf_node meta found.0) ∷ [])
                      (vdone
                        ++ some (FlatView.leaf_node (complete (machine.render_state found.0.1)))
                          ∷ [])
                      es3 (Mirrors-append done _ vdone _ d (tt, tt)) r
                      (next_view vdone _ vrest shows3)))))
  states_loop [] (view ∷ vrest) done vdone emitted d r shows = absurd r
  states_loop (slot ∷ rest) [] done vdone emitted d r shows = absurd r
  states_loop (none ∷ rest) (some view ∷ vrest) done vdone emitted d (s, r) shows = absurd s
  states_loop (some (leaf_node meta value) ∷ rest) (none ∷ vrest) done vdone emitted d (s, r)
        shows =
      absurd s
  states_loop (some (leaf_node meta value) ∷ rest)
        (some (FlatView.branch_node view indices) ∷ vrest) done vdone emitted d (s, r) shows =
      absurd s
  states_loop (some (branch_node meta children) ∷ rest) (none ∷ vrest) done vdone emitted d (s, r)
        shows =
      absurd s
  states_loop (some (branch_node meta children) ∷ rest) (some (FlatView.leaf_node view) ∷ vrest)
        done vdone emitted d (s, r) shows =
      absurd s
