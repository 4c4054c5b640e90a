-- ===== src/Plan/Tests.antt =====
-- The operations of a group's change under a scope, and the theorems there.
use lusid.Base.{
  ℕ, ◌≡◌, ◌≢◌, ◌↔◌, refl, false, Option, some, List, [], ◌∷◌, String, string_eq, nat_eq,
}
use lusid.Tree
use lusid.Tree.{Tree, leaf}
use lusid.Causality.Collect.{CausalityTree}
use lusid.Causality.Meta
use lusid.Causality.Collect.Names.{declares}
use lusid.Causality.Precedence.{Precedes}
use lusid.Plan.{sub_item, rename_meta, map_plan_subitems}
use lusid.Plan.Scope.{siblings, plan_node_eq, map_plan_subitems-Precedes, map_plan_subitems-apart}

-- Two leaves, of which the second waits for the first.
abbrev expansion : ℕ → List (CausalityTree (Option ℕ) String)
expansion n = leaf (Meta.id "add") (some n) ∷ leaf (Meta.requires ("add" ∷ [])) (some 0) ∷ []

map_plan_subitems-expansion :
    map_plan_subitems {PlanId = ℕ} "k" 5 expansion
    ≡ leaf (Meta.id (sub_item "k" "add")) (some 5)
      ∷ leaf (Meta.requires (sub_item "k" "add" ∷ [])) (some 0)
      ∷ []
unfolding map_plan_subitems rename_meta Tree.map_meta
map_plan_subitems-expansion = refl

map_plan_subitems-Precedes_example :
    Precedes (siblings (map_plan_subitems {PlanId = ℕ} "k" 5 expansion)) 0 1
    ↔ Precedes (siblings (expansion 5)) 0 1
map_plan_subitems-Precedes_example = map_plan_subitems-Precedes ℕ 5 expansion "k" 0 1

scopes_differ : ◌≢◌ {A = String} "k" "km"
scopes_differ = λ h. cc

map_plan_subitems-apart_example :
    declares (siblings (map_plan_subitems {PlanId = ℕ} "k" 5 expansion)) (sub_item "km" "add")
    ≡ false
map_plan_subitems-apart_example = map_plan_subitems-apart ℕ 5 expansion "k" "km" "add" scopes_differ
