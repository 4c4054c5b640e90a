-- ===== src/Causality/Precedence.antt =====
-- Which leaf has to come before which, read off the tree alone, and that the edges which
-- `build_graph` makes from the table are just these.
use native.Mathlib.Decide.{dec_lt}
use mathlib.Core.Logic.{if_neg}
use lusid.Base.{
  ℕ, ◌≤◌, ◌<◌, ◌≡◌, ◌∙◌, sym, ap, Option, some, List, [], ◌∷◌, arith, count, nat_eq, Eq, ok,
  Bool-cases, inl, inr, get_elem?,
}
use lusid.Causality.Collect.{
  CausalityTree, CollectedLeaf, Collected, IdTable, collect_recursive, no_ancestors,
  nothing_collected,
}
use lusid.Causality.Collect.Leaves.{leaves_of, collect_recursive-leaves_of}
use lusid.Causality.Collect.Names.{declares, leaves_under, leaves_under-nil}
use lusid.Causality.Collect.Steps.{collect_recursive-lookup}
use lusid.Causality.DependencyGraph.Built.{
  Depends, by_requires, by_required_by, reach, targets_of, targets_of-some, targets_of-none,
}

module _ {ℓ} {Node : Type ℓ} {NodeId : Type 0} ⦃e : Eq NodeId⦄ where
  -- Leaf `i` comes before leaf `j`: `j` requires a node that leaf `i` is or lies below, or `i` is
  -- required by one that `j` is or lies below. Both with the constraints of their ancestors.
  pub data Precedes (tree : CausalityTree (Option Node) NodeId) (i j : ℕ) : Type ℓ where
    requires :
        (l : CollectedLeaf Node NodeId) (id : NodeId)
        → get_elem? (leaves_of tree no_ancestors) j ≡ some l
        → 0 < count id l.requires
        → 0 < count i (leaves_under tree id 0)
        → Precedes tree i j
    required_by :
        (l : CollectedLeaf Node NodeId) (id : NodeId)
        → get_elem? (leaves_of tree no_ancestors) i ≡ some l
        → 0 < count id l.required_by
        → 0 < count j (leaves_under tree id 0)
        → Precedes tree i j

module _ {NodeId : Type 0} ⦃e : Eq NodeId⦄ (table : IdTable NodeId) where
  targets_of-le-reach :
      (ids : List NodeId) (id : NodeId) (j : ℕ)
      → 0 < count id ids
      → count j (targets_of table id) ≤ reach table ids j
  targets_of-le-reach [] id j h = absurd (omega arith)
  targets_of-le-reach (x ∷ ids) id j h = elim (e.dec x id) [
    | yes same ↦ rw (← same) (omega arith)
    | no other ↦ omega (arith, targets_of-le-reach ids id j (rw (if_neg _ other) at h))
  ]

  record Reached (ids : List NodeId) (j : ℕ) : Type 0 where
    id : NodeId
    listed : 0 < count id ids
    targeted : 0 < count j (targets_of table id)

  reach-Reached : (ids : List NodeId) (j : ℕ) → 0 < reach table ids j → Reached ids j
  reach-Reached [] j h = absurd (omega arith)
  reach-Reached (x ∷ ids) j h = elim (dec_lt 0 (count j (targets_of table x))) [
    | yes here ↦ record { id = x; listed = ground arith; targeted = here }
    | no later ↦
        let r = reach-Reached ids j (omega arith) in
        record { id = r.id; listed = ground (arith, r.listed); targeted = r.targeted }
  ]

module _ {ℓ} {Node : Type ℓ} {NodeId : Type 0} ⦃e : Eq NodeId⦄
    (tree : CausalityTree (Option Node) NodeId) (st : Collected Node NodeId)
    (collected : collect_recursive tree no_ancestors nothing_collected ≡ ok st) where
  targets_of-leaves_under : (id : NodeId) → targets_of st.id_to_leaves id ≡ leaves_under tree id 0
  targets_of-leaves_under id = elim (Bool-cases (declares tree id)) [
    | inl named ↦
        targets_of-some st.id_to_leaves id
          (rw named at (collect_recursive-lookup tree collected id))
    | inr unknown ↦
        targets_of-none st.id_to_leaves id
          (rw unknown at (collect_recursive-lookup tree collected id))
        ∙ sym (leaves_under-nil tree id 0 unknown)
  ]

  leaves : st.leaves ≡ leaves_of tree no_ancestors
  leaves = (collect_recursive-leaves_of tree collected).0

  pub Precedes-Depends : (i j : ℕ) → Precedes tree i j → Depends st.id_to_leaves st.leaves i j
  Precedes-Depends i j (requires l id at_j listed below) = by_requires l (rw leaves at_j) (
      omega (
        arith,
        targets_of-le-reach st.id_to_leaves l.requires id i listed,
        ap (count i) (targets_of-leaves_under id),
      ))
  Precedes-Depends i j (required_by l id at_i listed below) = by_required_by l (rw leaves at_i) (
      omega (
        arith,
        targets_of-le-reach st.id_to_leaves l.required_by id j listed,
        ap (count j) (targets_of-leaves_under id),
      ))

  pub Depends-Precedes : (i j : ℕ) → Depends st.id_to_leaves st.leaves i j → Precedes tree i j
  Depends-Precedes i j (by_requires l at_j reached) =
      let r = reach-Reached st.id_to_leaves l.requires i reached in
      requires l r.id (rw leaves at at_j) r.listed
        (omega (arith, r.targeted, ap (count i) (targets_of-leaves_under r.id)))
  Depends-Precedes i j (by_required_by l at_i reached) =
      let r = reach-Reached st.id_to_leaves l.required_by j reached in
      required_by l r.id (rw leaves at at_i) r.listed
        (omega (arith, r.targeted, ap (count j) (targets_of-leaves_under r.id)))
