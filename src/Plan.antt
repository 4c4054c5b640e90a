-- ===== src/Plan.antt =====
-- The ids of a planned tree (plan/src/id.rs, tree.rs), and how the ids that a resource gives to its
-- operations are kept apart from those of the others.
pub mod Rename
pub mod Scope
mod Tests
use lusid.Base.{Option, none, some, List, map, String}
use lusid.Tree
use lusid.Tree.{Tree, Trees, branch, leaf, nil, cons}
use lusid.Causality.Collect.{CausalityMeta, CausalityTree}
use lusid.View
use lusid.View.{View, ViewTree, ViewTrees}

-- `PlanId`, a path or an address of one, is a parameter: std's `PathBuf` and the url crate's `Url`.
pub data PlanNodeId (PlanId : Type 0) : Type 0 where
  plan : PlanId → PlanNodeId PlanId
  plan_item : (plan_id : PlanId) → (item_id : String) → PlanNodeId PlanId
  sub_item : (scope_id : String) → (item_id : String) → PlanNodeId PlanId

abbrev pub PlanMeta : Type 0 → Type 0
PlanMeta PlanId = CausalityMeta (PlanNodeId PlanId)

abbrev pub PlanTree {ℓ} : Type ℓ → Type 0 → Type ℓ
PlanTree Node PlanId = Tree Node (PlanMeta PlanId)

-- `Option::map`
abbrev pub map_option {ℓ κ} : {A : Type ℓ} {B : Type κ} → (A → B) → Option A → Option B
map_option f none = none
map_option f (some a) = some (f a)

-- Every id of a meta renamed: the closure of `map_plan_subitems`, over what it wraps an id in.
unfoldable pub rename_meta :
    {NodeId NewId : Type 0} → (NodeId → NewId) → CausalityMeta NodeId → CausalityMeta NewId
rename_meta rename meta = record {
  id = map_option rename meta.id;
  requires = map rename meta.requires;
  required_by = map rename meta.required_by;
}

-- `map_plan_subitems`, where `scope_id` is what `create_id` of the cuid2 crate has made.
unfoldable pub map_plan_subitems {ℓ κ} :
    {Node : Type ℓ} {NextNode : Type κ} {PlanId : Type 0}
    → (scope_id : String) → Node
    → (Node → List (CausalityTree NextNode String))
    → List (PlanTree NextNode PlanId)
map_plan_subitems scope_id node expand =
    map (Tree.map_meta (rename_meta (sub_item scope_id))) (expand node)

module _ {ℓ} {Node : Type ℓ} {PlanId : Type 0} (render : Node → View)
    (render_id : PlanNodeId PlanId → View) where
  -- The label of a branch.
  abbrev pub render_label : Option (PlanNodeId PlanId) → View
  render_label none = View.render_text "."
  render_label (some id) = render_id id

  unfoldable mutual
    pub render_plan_tree : PlanTree Node PlanId → ViewTree
    render_plan_tree (branch meta children) =
        View.branch (render_label meta.id) (render_plan_trees children)
    render_plan_tree (leaf meta value) = View.leaf (render value)

    pub render_plan_trees : Trees Node (PlanMeta PlanId) → ViewTrees
    render_plan_trees nil = View.no_trees
    render_plan_trees (cons child children) =
        View.tree_and (render_plan_tree child) (render_plan_trees children)
