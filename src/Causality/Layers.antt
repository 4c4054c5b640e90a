-- ===== src/Causality/Layers.antt =====
-- The waves of the loop for the graph that `build_graph` made, and how `schedule` reads them.
use lusid.Base.{
  ℕ, ◌+◌, ◌-◌, ◌≤◌, ◌<◌, ◌≡◌, refl, ap, List, [], ◌∷◌, append-nil, arith, length, length-append,
  count, All, nat_eq, Eq, ok, err, ◌==◌, if◌then◌else◌,
}
use lusid.Causality.{schedule}
use lusid.Causality.Collect.{cycle_detected, Collected}
use lusid.Causality.Collect.Leaves.{IsIndexed}
use lusid.Causality.DependencyGraph.{Graph, build_graph}
use lusid.Causality.DependencyGraph.Built.{targets_of-IsBounded, build_graph-Grown, wanted}
use lusid.Causality.DependencyGraph.Edges.{IsGraph}
use lusid.Causality.Kahn.{sources, run_waves}
use lusid.Causality.Kahn.Waves.{waves, emit, size, run_waves-emit}
use lusid.Causality.Kahn.Relax.{edges}
use lusid.Causality.Kahn.Invariant.{
  Inv, Inv-below, Inv-once, flatten, Respects, waves-Inv, sources-Inv,
}

pub size-flatten : (ws : List (List ℕ)) → size ws ≡ length (flatten ws)
size-flatten [] = refl
size-flatten (w ∷ ws) = omega (arith, length-append w (flatten ws), size-flatten ws)

module _ {ℓ} {Node : Type ℓ} {NodeId : Type 0} ⦃e : Eq NodeId⦄ where
  module _ (st : Collected Node NodeId) (g : Graph) (indexed : IsIndexed st)
      (built : build_graph st.id_to_leaves st.leaves ≡ ok g) where
    pub facts :
        IsGraph (length st.leaves) g
        × ((i j : ℕ) → edges g.outgoing i j ≡ wanted st.id_to_leaves st.leaves 0 i j)
    facts =
        build_graph-Grown st.id_to_leaves st.leaves (targets_of-IsBounded st.id_to_leaves _ indexed)
          built

    pub layers_of : List (List ℕ)
    layers_of = waves (length st.leaves + 1) g.outgoing (sources g.indegree 0) g.indegree

    pub run :
        (final : List ℕ) × Inv g.outgoing (length st.leaves) (flatten layers_of) [] final
        × Respects g.outgoing (length st.leaves) [] layers_of
    unfolding layers_of
    run =
        waves-Inv g.outgoing (length st.leaves) (length st.leaves + 1) [] (sources g.indegree 0)
          g.indegree
          (sources-Inv g.outgoing _ g.indegree facts.0.sized facts.0.inside facts.0.counted)
          (omega arith)

    pub result : List (List Node) × ℕ
    result =
        run_waves (length st.leaves + 1) st.leaves g.outgoing (sources g.indegree 0) g.indegree 0 []

    pub read : result ≡ (emit st.leaves layers_of [], size layers_of)
    unfolding result layers_of
    read =
        let from_zero : 0 + size layers_of ≡ size layers_of = omega arith in
        rw from_zero at (
          run_waves-emit st.leaves (length st.leaves + 1) g.outgoing (sources g.indegree 0)
            g.indegree 0 [])

    pub layers_of-below : All (λ i. i < length st.leaves) (flatten layers_of)
    layers_of-below = rw append-nil at (Inv-below run.1)

    pub layers_of-once : (i : ℕ) → count i (flatten layers_of) ≤ 1
    layers_of-once i =
        omega (arith, Inv-once run.1 i, ap (count i) (append-nil (flatten layers_of)))

    -- The test at the end of the loop.
    pub schedule-eq : schedule st.leaves g ≡ (
        if size layers_of == length st.leaves
        then ok (emit st.leaves layers_of [])
        else err (cycle_detected (length st.leaves - size layers_of)))
    unfolding schedule result
    schedule-eq = rw read
