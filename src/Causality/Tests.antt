-- ===== src/Causality/Tests.antt =====
-- Runs of `compute_epochs`, and its theorems at a concrete tree.
use mathlib.Core.List
use mathlib.Core.Option
use mathlib.Core.Option.{none-ne-some}
use lusid.Base.{
  ℕ, ◌≡◌, refl, Option, none, some, List, [], ◌∷◌, nat_eq, string_eq, String, ok, err, ℕ_discrete,
  zero, suc, ◌-◌, ◌<◌, arith, if◌then◌else◌,
}
use lusid.Tree.{branch, leaf, nil, cons}
use lusid.Causality.{compute_epochs, schedule}
use lusid.Causality.Collect.{
  CausalityMeta, CausalityTree, cycle_detected, collect_recursive, lookup, Collected, no_ancestors,
  nothing_collected, insert, or_default, push_index, push_active, add_leaf, name_leaf, enter_branch,
}
use lusid.Causality.DependencyGraph.{
  Graph, build_graph, add_leaves, add_requires, add_required_by, edges_from, edges_to, add_edge,
}
use lusid.Causality.Kahn.{sources, run_waves, relax_wave, relax, specs, push_epoch}
use lusid.Causality.Precedence.{Precedes, requires as asks, required_by as asked}
use lusid.Causality.Cycles.{compute_epochs-ok}
use lusid.Causality.Collect.Names.{declares, leaves_under, leaf_count}
use lusid.Causality.Collect.Leaves.{leaves_of}
use lusid.Causality.Collect.Steps.{collect_recursive-lookup}

program : Unit {0}
unfolding compute_epochs schedule collect_recursive lookup insert or_default push_index push_active
    add_leaf name_leaf enter_branch build_graph add_leaves add_requires add_required_by edges_from
    edges_to add_edge sources run_waves relax_wave relax specs push_epoch string_eq List.filter_map
    Option.bind
program = tt

abbrev meta : Option String → List String → List String → CausalityMeta String
meta id requires required_by = record { id = id; requires = requires; required_by = required_by }

-- A branch of two leaves that a third requires, and a fourth that the branch is required by.
abbrev site : CausalityTree (Option ℕ) String
site = branch (meta none [] []) (
    cons (leaf (meta (some "reload") ("files" ∷ []) []) (some 3)) (
      cons
        (branch (meta (some "files") [] []) (
          cons (leaf (meta (some "a") ("b" ∷ []) []) (some 2))
            (cons (leaf (meta (some "b") [] []) (some 1)) nil)))
        (cons (leaf (meta none [] ("files" ∷ [])) (some 0))
          (cons (leaf (meta none [] []) none) nil))))

compute_epochs_cycle :
    compute_epochs {Node = ℕ} (
      branch (meta none [] []) (
        cons
          (leaf (meta (some "a") ("b" ∷ []) []) (some 1))
          (cons (leaf (meta (some "b") ("a" ∷ []) []) (some 2)) nil)))
    ≡ err (cycle_detected 2)
unfolding program
compute_epochs_cycle = refl

-- Two leaves, the first of which requires the second.
abbrev pair : CausalityTree (Option ℕ) ℕ
pair =
    branch (record { id = none; requires = []; required_by = [] })
      (cons (leaf (record { id = none; requires = 7 ∷ []; required_by = [] }) (some 1))
        (cons (leaf (record { id = some 7; requires = []; required_by = [] }) (some 2)) nil))

abbrev pair_collected : Collected ℕ ℕ
pair_collected = record {
  seen_ids = 7 ∷ [];
  id_to_leaves = (7, 1 ∷ []) ∷ [];
  leaves =
      record { node = some 1; requires = 7 ∷ []; required_by = [] }
      ∷ record { node = some 2; requires = []; required_by = [] }
      ∷ [];
}

abbrev pair_graph : Graph
pair_graph = record { outgoing = [] ∷ (0 ∷ []) ∷ []; indegree = 1 ∷ 0 ∷ [] }

pair-collected : collect_recursive pair no_ancestors nothing_collected ≡ ok pair_collected
unfolding program ℕ_discrete
pair-collected = refl

pair-graph : build_graph pair_collected.id_to_leaves pair_collected.leaves ≡ ok pair_graph
unfolding program ℕ_discrete
pair-graph = refl

-- The second leaf is of the lower rank.
abbrev pair_rank : ℕ → ℕ
pair_rank i = 1 - i

pair_precedes : (i j : ℕ) → Precedes pair i j → pair_rank i < pair_rank j
unfolding leaves_of leaves_under leaf_count
pair_precedes i zero (asks l id at listed under) = ground arith
pair_precedes i (suc zero) (asks l id at listed under) = ground arith
pair_precedes i (suc (suc j)) (asks l id at listed under) = absurd (none-ne-some _ at)
pair_precedes zero j (asked l id at listed under) = ground arith
pair_precedes (suc zero) j (asked l id at listed under) = ground arith
pair_precedes (suc (suc i)) j (asked l id at listed under) = absurd (none-ne-some _ at)

compute_epochs-ok_example : (epochs : List (List ℕ)) × (compute_epochs pair ≡ ok epochs)
compute_epochs-ok_example =
    compute_epochs-ok pair pair_collected pair_graph pair_rank pair-collected pair-graph
      (λ i j lt p. pair_precedes i j p)

collect_recursive-lookup_example :
    lookup 7 pair_collected.id_to_leaves
    ≡ (if declares pair 7 then some (leaves_under pair 7 0) else none)
collect_recursive-lookup_example = collect_recursive-lookup pair pair-collected 7
