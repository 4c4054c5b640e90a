-- ===== src/Causality/Kahn/Waves.antt =====
-- The waves of the queue loop by themselves, and how the loop's result is read off them.
use lusid.Base.{ℕ, zero, suc, ◌+◌, ◌≡◌, ◌∙◌, List, [], ◌∷◌, arith, length}
use lusid.Causality.Collect.{CollectedLeaf}
use lusid.Causality.Kahn.{relax_wave, push_epoch, specs, run_waves}

-- The queues that the loop drains, one after another.
unfoldable pub waves : ℕ → List (List ℕ) → List ℕ → List ℕ → List (List ℕ)
waves zero outgoing queue indegree = []
waves (suc fuel) outgoing [] indegree = []
waves (suc fuel) outgoing (i ∷ rest) indegree =
    let after = relax_wave outgoing (i ∷ rest) indegree [] in
    (i ∷ rest) ∷ waves fuel outgoing after.1 after.0

-- The count of all the nodes in the waves.
abbrev pub size : List (List ℕ) → ℕ
size [] = 0
size (wave ∷ ws) = length wave + size ws

module _ {ℓ} {Node : Type ℓ} {NodeId : Type 0} (leaves : List (CollectedLeaf Node NodeId)) where
  -- Each wave gives one epoch, or none if no leaf of it holds a node.
  abbrev pub emit : List (List ℕ) → List (List Node) → List (List Node)
  emit [] epochs = epochs
  emit (wave ∷ ws) epochs = emit ws (push_epoch (specs leaves wave) epochs)

  pub run_waves-emit :
      (fuel : ℕ) (outgoing : List (List ℕ)) (queue indegree : List ℕ) (seen : ℕ)
      (epochs : List (List Node))
      → run_waves fuel leaves outgoing queue indegree seen epochs ≡ (
        emit (waves fuel outgoing queue indegree) epochs,
        seen + size (waves fuel outgoing queue indegree),
      )
  unfolding run_waves waves
  run_waves-emit zero outgoing queue indegree seen epochs = ground arith
  run_waves-emit (suc fuel) outgoing [] indegree seen epochs = ground arith
  run_waves-emit (suc fuel) outgoing (i ∷ rest) indegree seen epochs =
      let after = relax_wave outgoing (i ∷ rest) indegree [] in
      run_waves-emit fuel outgoing after.1 after.0 _ _ ∙ ground arith
