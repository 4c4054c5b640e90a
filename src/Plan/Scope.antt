-- ===== src/Plan/Scope.antt =====
-- The scope of `map_plan_subitems`: it keeps the ids of one expansion apart from all others, and
-- changes nothing among themselves.
use mathlib.Core.Path.{ap₂}
use lusid.Base.{
  ℕ, ◌≡◌, ◌≢◌, ◌↔◌, refl, ◌∙◌, sym, ap, subst, false, Option, List, [], ◌∷◌, map, String, string_eq,
  Eq,
}
use lusid.Tree
use lusid.Tree.{Tree, Trees, branch, nil, cons, map_meta_all}
use lusid.Causality.Collect.{CausalityTree}
use lusid.Causality.Meta
use lusid.Causality.Collect.Names.{declares}
use lusid.Causality.Precedence.{Precedes}
use lusid.Plan.{PlanNodeId, plan, plan_item, sub_item, rename_meta, map_plan_subitems}
use lusid.Plan.Rename.{renamed-Precedes, declares-foreign}

module _ {PlanId : Type 0} where
  pub sub_item-injective :
      (scope : String) (x y : String)
      → ◌≡◌ {A = PlanNodeId PlanId} (sub_item scope x) (sub_item scope y)
      → x ≡ y
  sub_item-injective scope x y h = cc

  pub plan_node_dec : ⦃p : Eq PlanId⦄ → Discrete (PlanNodeId PlanId)
  plan_node_dec ⦃p⦄ (plan a) (plan b) = elim (p.dec a b) [
    | yes same ↦ yes (ap plan same)
    | no differ ↦ no (λ h. differ cc)
  ]
  plan_node_dec ⦃p⦄ (plan_item a x) (plan_item b y) = elim (p.dec a b) [
    | no differ ↦ no (λ h. differ cc)
    | yes same ↦ elim (string_eq.dec x y) [
      | yes also ↦ yes (ap₂ plan_item same also)
      | no differ ↦ no (λ h. differ cc)
    ]
  ]
  plan_node_dec (sub_item s x) (sub_item t y) = elim (string_eq.dec s t) [
    | no differ ↦ no (λ h. differ cc)
    | yes same ↦ elim (string_eq.dec x y) [
      | yes also ↦ yes (ap₂ sub_item same also)
      | no differ ↦ no (λ h. differ cc)
    ]
  ]
  plan_node_dec (plan a) (plan_item b y) = no (λ h. cc)
  plan_node_dec (plan a) (sub_item t y) = no (λ h. cc)
  plan_node_dec (plan_item a x) (plan b) = no (λ h. cc)
  plan_node_dec (plan_item a x) (sub_item t y) = no (λ h. cc)
  plan_node_dec (sub_item s x) (plan b) = no (λ h. cc)
  plan_node_dec (sub_item s x) (plan_item b y) = no (λ h. cc)

  -- The derived `Eq` of `PlanNodeId`.
  instance abbrev pub plan_node_eq : ⦃p : Eq PlanId⦄ → Eq (PlanNodeId PlanId)
  plan_node_eq = record { dec = plan_node_dec }

-- The trees of an expansion side by side.
abbrev pub to_trees {ℓ κ} :
    {Node : Type ℓ} {Meta : Type κ} → List (Tree Node Meta) → Trees Node Meta
to_trees [] = nil
to_trees (tree ∷ trees) = cons tree (to_trees trees)

abbrev pub siblings {ℓ} :
    {Node : Type ℓ} {NodeId : Type 0} → List (CausalityTree Node NodeId) → CausalityTree Node NodeId
siblings trees = branch Meta.default (to_trees trees)

module _ {ℓ κ} {Node : Type κ} {NextNode : Type ℓ} (PlanId : Type 0) ⦃p : Eq PlanId⦄ (node : Node)
    (expand : Node → List (CausalityTree (Option NextNode) String)) (scope : String) where
  to_trees-map_meta :
      (trees : List (CausalityTree (Option NextNode) String))
      → to_trees
          (map (Tree.map_meta (rename_meta {NewId = PlanNodeId PlanId} (sub_item scope))) trees)
        ≡ map_meta_all (rename_meta {NewId = PlanNodeId PlanId} (sub_item scope)) (to_trees trees)
  unfolding map_meta_all
  to_trees-map_meta [] = refl
  to_trees-map_meta (tree ∷ trees) =
      ap (λ ts. cons (Tree.map_meta (rename_meta (sub_item scope)) tree) ts)
        (to_trees-map_meta trees)

  siblings-map_plan_subitems :
      siblings (map_plan_subitems {PlanId = PlanId} scope node expand)
      ≡ Tree.map_meta (rename_meta (sub_item scope)) (siblings (expand node))
  unfolding map_plan_subitems Tree.map_meta rename_meta
  siblings-map_plan_subitems = ap (λ ts. branch Meta.default ts) (to_trees-map_meta (expand node))

  -- Of the trees of an expansion, side by side, one leaf comes before another under the scope if
  -- and only if it does without.
  pub map_plan_subitems-Precedes :
      (i j : ℕ)
      → Precedes (siblings (map_plan_subitems {PlanId = PlanId} scope node expand)) i j
        ↔ Precedes (siblings (expand node)) i j
  map_plan_subitems-Precedes i j =
      subst (λ t. Precedes t i j ↔ Precedes (siblings (expand node)) i j)
        (sym siblings-map_plan_subitems)
        (renamed-Precedes (sub_item scope) (sub_item-injective scope) (siblings (expand node)) i j)

  -- No node of an expansion under one scope has an id of another scope.
  pub map_plan_subitems-apart :
      (other item : String)
      → scope ≢ other
      → declares
          (siblings (map_plan_subitems {PlanId = PlanId} scope node expand))
          (sub_item other item)
        ≡ false
  map_plan_subitems-apart other item differ =
      ap (λ t. declares t (sub_item other item)) siblings-map_plan_subitems
      ∙ declares-foreign (sub_item scope) (siblings (expand node)) (sub_item other item)
          (λ x same. differ cc)
