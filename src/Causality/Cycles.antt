-- ===== src/Causality/Cycles.antt =====
-- `compute_epochs` reports a cycle only where there is one.
use native.Mathlib.Decide.{dec_lt}
use lusid.Base.{
  ℕ, zero, suc, ◌+◌, ◌<◌, ◌≡◌, refl, ◌∙◌, Option, List, [], arith, length, count, count-append, ◌*◌,
  All, nat_eq, Eq, ok,
}
use lusid.Base.Sums.{sum_list-count, sum_below-eq, length-count, sum_below_ones}
use lusid.Causality.{compute_epochs, schedule}
use lusid.Causality.Precedence.{Precedes, Depends-Precedes}
use lusid.Causality.Layers.{facts, layers_of, run, layers_of-below, schedule-eq, size-flatten}
use lusid.Causality.Collect.{
  CausalityTree, Collected, collect_recursive, no_ancestors, nothing_collected,
}
use lusid.Causality.Collect.Leaves.{leaves_of, IsIndexed, collect_recursive-leaves_of}
use lusid.Causality.DependencyGraph.{Graph, build_graph}
use lusid.Causality.DependencyGraph.Built.{Depends, wanted-Depends}
use lusid.Causality.Kahn.Waves.{emit, size}
use lusid.Causality.Kahn.Relax.{edges, into}
use lusid.Causality.Kahn.Invariant.{Inv, flatten, total}

-- A rank that grows from each leaf to those that it comes before: the tree asks for no cycle.
abbrev pub IsRanked {ℓ} :
    {Node : Type ℓ} {NodeId : Type 0} ⦃e : Eq NodeId⦄
    → (ℕ → ℕ)
    → CausalityTree (Option Node) NodeId
    → Type ℓ
IsRanked rank tree =
    (i j : ℕ) → i < length (leaves_of tree no_ancestors) → Precedes tree i j → rank i < rank j

module _ {ℓ} {Node : Type ℓ} {NodeId : Type 0} ⦃e : Eq NodeId⦄ where
  module _ (st : Collected Node NodeId) (g : Graph) (indexed : IsIndexed st)
      (built : build_graph st.id_to_leaves st.leaves ≡ ok g) (rank : ℕ → ℕ)
      (ranked : (i j : ℕ)
        → i < length st.leaves
        → Depends st.id_to_leaves st.leaves i j
        → rank i < rank j) where
    placed : List ℕ
    placed = flatten (layers_of st g indexed built)

    end : Inv g.outgoing (length st.leaves) placed [] (run st g indexed built).0
    unfolding placed
    end = (run st g indexed built).1

    placed-below : All (λ i. i < length st.leaves) placed
    unfolding placed
    placed-below = layers_of-below st g indexed built

    module _ (i : ℕ) (inside : i < length st.leaves)
        (lower : (k : ℕ) → k < length st.leaves → rank k < rank i → count k placed ≡ 1) where
      edge_placed :
          (k : ℕ)
          → k < length st.leaves
          → count k placed * edges g.outgoing k i ≡ edges g.outgoing k i
      edge_placed k lt = elim (dec_lt 0 (edges g.outgoing k i)) [
        | yes edge ↦
            let dep =
              wanted-Depends st.id_to_leaves st.leaves k i
                (omega (arith, (facts st g indexed built).1 k i)) in
            let one : count k placed ≡ 1 = lower k lt (ranked k i lt dep) in rw one (omega arith)
        | no free ↦ let nothing : edges g.outgoing k i ≡ 0 = omega arith in rw nothing (omega arith)
      ]

      drained : into g.outgoing placed i ≡ total g.outgoing (length st.leaves) i
      drained = omega (
        arith,
        sum_list-count (length st.leaves) placed (λ k. edges g.outgoing k i) placed-below,
        sum_below-eq (length st.leaves) (λ k. count k placed * edges g.outgoing k i)
            (λ k. edges g.outgoing k i) edge_placed,
      )

      -- A leaf is placed if all the leaves of lower rank are.
      placed_of_lower : count i placed ≡ 1
      placed_of_lower =
          ground (arith, end.pending i inside, end.marked i, count-append i placed [], drained)

    -- Every leaf stands in a wave, by induction on a bound for its rank.
    reached : (r i : ℕ) → i < length st.leaves → rank i < r → count i placed ≡ 1
    reached zero i lt low = absurd (omega arith)
    reached (suc r) i lt low =
        placed_of_lower i lt (λ k inside lower. reached r k inside (omega arith))

    size-placed : size (layers_of st g indexed built) ≡ length st.leaves
    unfolding placed
    size-placed = omega (
      arith,
      size-flatten (layers_of st g indexed built),
      measured,
      length-count (length st.leaves) placed placed-below,
      sum_below-eq (length st.leaves) (λ i. count i placed) (λ i. 1)
          (λ i lt. reached (rank i + 1) i lt (omega arith)),
      sum_below_ones (length st.leaves),
    )
      where
        measured : length (flatten (layers_of st g indexed built)) ≡ length placed
        measured = refl

    schedule_total : schedule st.leaves g ≡ ok (emit st.leaves (layers_of st g indexed built) [])
    schedule_total = schedule-eq st g indexed built ∙ ground (arith, size-placed)

  -- If the recursion accepts the ids of a tree, the references resolve, and some rank grows from
  -- every leaf to those that it comes before, then `compute_epochs` returns epochs.
  pub compute_epochs-ok :
      (tree : CausalityTree (Option Node) NodeId) (st : Collected Node NodeId) (g : Graph)
      (rank : ℕ → ℕ)
      → collect_recursive tree no_ancestors nothing_collected ≡ ok st
      → build_graph st.id_to_leaves st.leaves ≡ ok g
      → IsRanked rank tree
      → (epochs : List (List Node)) × (compute_epochs tree ≡ ok epochs)
  unfolding compute_epochs
  compute_epochs-ok tree st g rank collected built ranked =
      let (same, indexed) = collect_recursive-leaves_of tree collected in
      (
        emit st.leaves (layers_of st g indexed built) [],
        rw collected (
            rw built (
              schedule_total st g indexed built rank (λ i j lt d.
                ranked i j (rw (← same) lt) (Depends-Precedes tree st collected i j d)))),
      )
