-- ===== src/Causality/Collect.antt =====
-- causality/src/tree.rs, and `collect_recursive` of causality/src/epoch.rs: the tree flattened
-- into leaves with their effective requirements, and the table of what each id refers to.
pub mod Table
pub mod Leaves
pub mod Names
pub mod Named
pub mod Steps
use lusid.Base.{
  ℕ, Option, none, some, List, [], ◌∷◌, ◌++◌, ite, length, contains, Eq, Result, ok, err, ◌>>=◌,
  if◌then◌else◌,
}
use lusid.Tree.{Tree, Trees, branch, leaf, nil, cons}

pub record CausalityMeta (NodeId : Type 0) : Type 0 where
  pub id : Option NodeId
  pub requires : List NodeId
  pub required_by : List NodeId

abbrev pub CausalityTree {ℓ} : Type ℓ → Type 0 → Type ℓ
CausalityTree Node NodeId = Tree Node (CausalityMeta NodeId)

pub data EpochError (NodeId : Type 0) : Type 0 where
  duplicate_id : NodeId → EpochError NodeId
  unknown_requires_ref : NodeId → EpochError NodeId
  unknown_required_by_ref : NodeId → EpochError NodeId
  cycle_detected : (remaining : ℕ) → EpochError NodeId

pub record CollectedLeaf {ℓ} (Node : Type ℓ) (NodeId : Type 0) : Type ℓ where
  pub node : Option Node
  pub requires : List NodeId
  pub required_by : List NodeId

-- `HashMap<NodeId, Vec<usize>>` as an association list with one entry for a key.
abbrev pub IdTable : Type 0 → Type 0
IdTable NodeId = List (NodeId × List ℕ)

module _ {NodeId : Type 0} ⦃e : Eq NodeId⦄ where
  -- `get`
  unfoldable pub lookup : NodeId → IdTable NodeId → Option (List ℕ)
  lookup id [] = none
  lookup id ((key, leaves) ∷ table) = ite (e.dec key id) (some leaves) (lookup id table)

  -- `insert`
  unfoldable pub insert : NodeId → List ℕ → IdTable NodeId → IdTable NodeId
  insert id new [] = (id, new) ∷ []
  insert id new ((key, leaves) ∷ table) =
      ite (e.dec key id) ((key, new) ∷ table) ((key, leaves) ∷ insert id new table)

  -- `entry(id).or_default()`
  unfoldable pub or_default : NodeId → IdTable NodeId → IdTable NodeId
  or_default id [] = (id, []) ∷ []
  or_default id ((key, leaves) ∷ table) =
      ite (e.dec key id) ((key, leaves) ∷ table) ((key, leaves) ∷ or_default id table)

  -- `if let Some(v) = get_mut(id) { v.push(index) }`
  unfoldable pub push_index : ℕ → NodeId → IdTable NodeId → IdTable NodeId
  push_index index id [] = []
  push_index index id ((key, leaves) ∷ table) =
      ite (e.dec key id) ((key, leaves ++ index ∷ []) ∷ table)
        ((key, leaves) ∷ push_index index id table)

  -- The same for each of the active branches.
  unfoldable pub push_active : ℕ → List NodeId → IdTable NodeId → IdTable NodeId
  push_active index [] table = table
  push_active index (id ∷ ids) table = push_active index ids (push_index index id table)

-- What the recursion mutates: `seen_ids`, `id_to_leaves` and `leaves`.
pub record Collected {ℓ} (Node : Type ℓ) (NodeId : Type 0) : Type ℓ where
  pub seen_ids : List NodeId
  pub id_to_leaves : IdTable NodeId
  pub leaves : List (CollectedLeaf Node NodeId)

-- What the recursion pushes on the way down and truncates on the way up.
pub record Ancestors (NodeId : Type 0) : Type 0 where
  pub requires : List NodeId
  pub required_by : List NodeId
  pub active_branch_ids : List NodeId

abbrev pub no_ancestors : {NodeId : Type 0} → Ancestors NodeId
no_ancestors = record { requires = []; required_by = []; active_branch_ids = [] }

abbrev pub nothing_collected {ℓ} : {Node : Type ℓ} {NodeId : Type 0} → Collected Node NodeId
nothing_collected = record { seen_ids = []; id_to_leaves = []; leaves = [] }

-- The ancestors that the children of a branch see.
abbrev pub below : {NodeId : Type 0} → CausalityMeta NodeId → Ancestors NodeId → Ancestors NodeId
below meta up = record {
  requires = up.requires ++ meta.requires;
  required_by = up.required_by ++ meta.required_by;
  active_branch_ids = elim meta.id [
    | none ↦ up.active_branch_ids
    | some id ↦ up.active_branch_ids ++ id ∷ []
  ];
}

module _ {ℓ} {Node : Type ℓ} {NodeId : Type 0} ⦃e : Eq NodeId⦄ where
  -- `seen_ids.insert(id)`, which refuses an id that is there.
  unfoldable pub see :
      NodeId → Collected Node NodeId → Result (EpochError NodeId) (Collected Node NodeId)
  see id st =
      if contains st.seen_ids id
      then err (duplicate_id id)
      else ok (record st { seen_ids = id ∷ st.seen_ids })

  unfoldable pub enter_branch :
      Option NodeId → Collected Node NodeId → Result (EpochError NodeId) (Collected Node NodeId)
  unfolding see
  enter_branch none st = ok st
  enter_branch (some id) st = do
    st' ← see id st
    ok (record st' { id_to_leaves = or_default id st'.id_to_leaves })

  -- A leaf with the constraints of its ancestors merged in.
  abbrev pub effective_leaf :
      CausalityMeta NodeId → Ancestors NodeId → Option Node → CollectedLeaf Node NodeId
  effective_leaf meta up node = record {
    node = node;
    requires = up.requires ++ meta.requires;
    required_by = up.required_by ++ meta.required_by;
  }

  unfoldable pub add_leaf :
      CausalityMeta NodeId
      → Ancestors NodeId
      → Option Node
      → Collected Node NodeId
      → Collected Node NodeId
  unfolding push_active
  add_leaf meta up node st =
      let index = length st.leaves in
      record {
        seen_ids = st.seen_ids;
        id_to_leaves = push_active index up.active_branch_ids st.id_to_leaves;
        leaves = st.leaves ++ effective_leaf meta up node ∷ [];
      }

  unfoldable pub name_leaf :
      Option NodeId → ℕ → Collected Node NodeId → Result (EpochError NodeId) (Collected Node NodeId)
  unfolding see
  name_leaf none index st = ok st
  name_leaf (some id) index st = do
    st' ← see id st
    ok (record st' { id_to_leaves = insert id (index ∷ []) st'.id_to_leaves })

  unfoldable mutual
    pub collect_recursive :
        CausalityTree (Option Node) NodeId
        → Ancestors NodeId
        → Collected Node NodeId
        → Result (EpochError NodeId) (Collected Node NodeId)
    collect_recursive (branch meta children) up st =
        enter_branch meta.id st >>= λ st'. collect_children children (below meta up) st'
    collect_recursive (leaf meta node) up st =
        name_leaf meta.id (length st.leaves) (add_leaf meta up node st)

    pub collect_children :
        Trees (Option Node) (CausalityMeta NodeId)
        → Ancestors NodeId
        → Collected Node NodeId
        → Result (EpochError NodeId) (Collected Node NodeId)
    collect_children nil up st = ok st
    collect_children (cons child children) up st =
        collect_recursive child up st >>= λ st'. collect_children children up st'
