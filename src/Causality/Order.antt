-- ===== src/Causality/Order.antt =====
-- `compute_epochs`
use lusid.Base.{ℕ, ◌<◌, ◌≡◌, Option, List, [], ◌∷◌, ◌++◌, length, count, All, nat_eq, Eq}
use lusid.Causality.Precedence.{Precedes}
use lusid.Causality.Collect.{CausalityTree, no_ancestors}
use lusid.Causality.Collect.Leaves.{leaves_of}
use lusid.Causality.Kahn.Waves.{emit}
use lusid.Causality.Kahn.Invariant.{flatten}

-- Waves in which what comes before a node, by `R`, stands in an earlier one.
abbrev pub Ordered {ℓ} : (ℕ → ℕ → Type ℓ) → ℕ → List ℕ → List (List ℕ) → Type ℓ
Ordered R n done [] = Unit
Ordered R n done (wave ∷ ws) =
    ((i j : ℕ) → 0 < count j wave → i < n → R i j → 0 < count i done)
    × Ordered R n (done ++ wave) ws

module _ {ℓ} {Node : Type ℓ} {NodeId : Type 0} ⦃e : Eq NodeId⦄ where
  -- A schedule of a tree: each leaf stands in one wave, after those that come before it, and the
  -- epochs are what the waves hold.
  pub record IsSchedule (tree : CausalityTree (Option Node) NodeId) (epochs : List (List Node))
      : Type ℓ where
    pub layers : List (List ℕ)
    pub emitted : epochs ≡ emit (leaves_of tree no_ancestors) layers []
    pub each_once :
        (i : ℕ) → i < length (leaves_of tree no_ancestors) → count i (flatten layers) ≡ 1
    pub no_other : All (λ i. i < length (leaves_of tree no_ancestors)) (flatten layers)
    pub ordered : Ordered (Precedes tree) (length (leaves_of tree no_ancestors)) [] layers
