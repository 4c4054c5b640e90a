-- ===== src/Causality/DependencyGraph.antt =====
-- The dependency graph of causality/src/epoch.rs: `outgoing` and `indegree`.
pub mod Edges
pub mod Built
use lusid.Base.{
  ◌>>=◌, ℕ, ◌+◌, none, some, List, [], ◌∷◌, ◌++◌, length, replicate, get_or, set, Eq, Result, ok,
  err,
}
use lusid.Causality.Collect.{
  EpochError, unknown_requires_ref, unknown_required_by_ref, CollectedLeaf, IdTable, lookup,
}

pub record Graph : Type 0 where
  pub outgoing : List (List ℕ)
  pub indegree : List ℕ

abbrev pub edgeless : ℕ → Graph
edgeless n = record { outgoing = replicate n []; indegree = replicate n 0 }

-- `outgoing[from].push(to); indegree[to] += 1;`
unfoldable pub add_edge : ℕ → ℕ → Graph → Graph
add_edge from to g = record {
  outgoing = set g.outgoing from (get_or g.outgoing from [] ++ to ∷ []);
  indegree = set g.indegree to (get_or g.indegree to 0 + 1);
}

-- `for &j in targets`, for an id in `requires` of leaf `i`.
unfoldable pub edges_from : List ℕ → ℕ → Graph → Graph
edges_from [] i g = g
edges_from (j ∷ targets) i g = edges_from targets i (add_edge j i g)

-- The same for an id in `required_by`.
unfoldable pub edges_to : List ℕ → ℕ → Graph → Graph
edges_to [] i g = g
edges_to (j ∷ targets) i g = edges_to targets i (add_edge i j g)

module _ {NodeId : Type 0} ⦃e : Eq NodeId⦄ (table : IdTable NodeId) where
  unfoldable pub add_requires : List NodeId → ℕ → Graph → Result (EpochError NodeId) Graph
  add_requires [] i g = ok g
  add_requires (id ∷ ids) i g = elim (lookup id table) [
    | none ↦ err (unknown_requires_ref id)
    | some targets ↦ add_requires ids i (edges_from targets i g)
  ]

  unfoldable pub add_required_by : List NodeId → ℕ → Graph → Result (EpochError NodeId) Graph
  add_required_by [] i g = ok g
  add_required_by (id ∷ ids) i g = elim (lookup id table) [
    | none ↦ err (unknown_required_by_ref id)
    | some targets ↦ add_required_by ids i (edges_to targets i g)
  ]

  module _ {ℓ} {Node : Type ℓ} where
    unfoldable pub add_leaves :
        List (CollectedLeaf Node NodeId) → ℕ → Graph → Result (EpochError NodeId) Graph
    add_leaves [] i g = ok g
    add_leaves (l ∷ leaves) i g = do
      g' ← add_requires l.requires i g
      g'' ← add_required_by l.required_by i g'
      add_leaves leaves (i + 1) g''

    unfoldable pub build_graph : List (CollectedLeaf Node NodeId) → Result (EpochError NodeId) Graph
    build_graph leaves = add_leaves leaves 0 (edgeless (length leaves))
