-- ===== src/Causality/Kahn.antt =====
-- Kahn's algorithm, the queue loop of causality/src/epoch.rs.
pub mod Waves
pub mod Relax
pub mod Invariant
use lusid.Base.{
  ℕ, zero, suc, ◌+◌, ◌-◌, Option, List, [], ◌∷◌, ◌++◌, filter_map, length, get_or, get_elem?, set,
  ◌==◌, if◌then◌else◌,
}
use mathlib.Core.Option
use lusid.Causality.Collect.{CollectedLeaf}

-- The nodes of indegree 0, in order: the first queue.
unfoldable pub sources : List ℕ → ℕ → List ℕ
sources [] i = []
sources (d ∷ ds) i = let rest = sources ds (i + 1) in if d == 0 then i ∷ rest else rest

-- `for &j in &outgoing[i]`: the indegrees go down, and a node that reaches 0 joins the next wave.
-- No entry is at 0 when it is decremented: Causality/Kahn/Invariant.
unfoldable pub relax : List ℕ → List ℕ → List ℕ → List ℕ × List ℕ
relax [] indegree next_wave = (indegree, next_wave)
relax (j ∷ targets) indegree next_wave =
    let d = get_or indegree j 1 - 1 in
    relax targets (set indegree j d) (if d == 0 then next_wave ++ j ∷ [] else next_wave)

-- `for i in current_wave`
unfoldable pub relax_wave : List (List ℕ) → List ℕ → List ℕ → List ℕ → List ℕ × List ℕ
relax_wave outgoing [] indegree next_wave = (indegree, next_wave)
relax_wave outgoing (i ∷ wave) indegree next_wave =
    let after = relax (get_or outgoing i []) indegree next_wave in
    relax_wave outgoing wave after.0 after.1

-- `if !specs.is_empty() { epochs.push(specs) }`
unfoldable pub push_epoch {ℓ} : {Node : Type ℓ} → List Node → List (List Node) → List (List Node)
push_epoch [] epochs = epochs
push_epoch (node ∷ nodes) epochs = epochs ++ (node ∷ nodes) ∷ []

module _ {ℓ} {Node : Type ℓ} {NodeId : Type 0} where
  -- The payloads of a wave. A leaf that holds no node is passed over.
  unfoldable pub specs : List (CollectedLeaf Node NodeId) → List ℕ → List Node
  specs leaves = filter_map (λ i. Option.bind (get_elem? leaves i) (λ l. l.node))

  -- `while !queue.is_empty()`, on fuel: the epochs and the count of the nodes seen.
  unfoldable pub run_waves :
      ℕ
      → List (CollectedLeaf Node NodeId)
      → List (List ℕ)
      → List ℕ
      → List ℕ
      → ℕ
      → List (List Node)
      → List (List Node) × ℕ
  run_waves zero leaves outgoing queue indegree seen epochs = (epochs, seen)
  run_waves (suc fuel) leaves outgoing [] indegree seen epochs = (epochs, seen)
  run_waves (suc fuel) leaves outgoing (i ∷ rest) indegree seen epochs =
      let wave = i ∷ rest in
      let after = relax_wave outgoing wave indegree [] in
      run_waves fuel leaves outgoing after.1 after.0 (seen + length wave)
        (push_epoch (specs leaves wave) epochs)
