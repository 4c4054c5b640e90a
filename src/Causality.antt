-- ===== src/Causality.antt =====
-- causality/src/epoch.rs: `compute_epochs`, from the tree to the epochs.
pub mod Meta
pub mod Collect
pub mod DependencyGraph
pub mod Kahn
pub mod Layers
pub mod Precedence
pub mod Order
pub mod Cycles
pub mod Tests
use lusid.Base.{◌>>=◌, ◌+◌, ◌-◌, Option, List, [], length, ◌==◌, if◌then◌else◌, Eq, Result, ok, err}
use Collect.{
  CausalityTree, EpochError, cycle_detected, CollectedLeaf, collect_recursive, no_ancestors,
  nothing_collected,
}
use DependencyGraph.{Graph, build_graph}
use Kahn.{sources, run_waves}

module _ {ℓ} {Node : Type ℓ} {NodeId : Type 0} ⦃e : Eq NodeId⦄ where
  -- The loop over the queue and the test after it. A round of fuel for each leaf and one more is
  -- enough: Causality/Order.
  unfoldable pub schedule :
      List (CollectedLeaf Node NodeId) → Graph → Result (EpochError NodeId) (List (List Node))
  schedule leaves g =
      let n = length leaves in
      let result = run_waves (n + 1) leaves g.outgoing (sources g.indegree 0) g.indegree 0 [] in
      if result.1 == n then ok result.0 else err (cycle_detected (n - result.1))

  unfoldable pub compute_epochs :
      CausalityTree (Option Node) NodeId → Result (EpochError NodeId) (List (List Node))
  compute_epochs tree = do
    st ← collect_recursive tree no_ancestors nothing_collected
    g ← build_graph st.id_to_leaves st.leaves
    schedule st.leaves g
