-- ===== src/Tree/Flat/Pruned.antt =====
-- The sweep of `map_option` on an arena that a tree stands in, with holes where leaves were dropped.
use mathlib.Core.Path.{ap₂}
use lusid.Base.{
  ℕ, suc, ◌+◌, ◌≡◌, refl, ◌∙◌, sym, ap, Bool, true, false, Option, some, none, List, [], ◌∷◌, ◌++◌,
  append_assoc, arith, get_elem?, Bool-cases, inl, inr,
}
use lusid.Tree.{Tree, Trees, branch, leaf, nil, cons}
use lusid.Tree.Flat.{FlatTreeNode, branch_node, leaf_node, Nodes, cons_some}
use lusid.Tree.Flat.Layout.{size, starts}
use lusid.Tree.Flat.Sweep.{is_there, push_children, search, leaf_of}

module _ {ℓ κ} {Node : Type ℓ} {Meta : Type κ} where
  -- A tree without its dropped leaves, and without the branches that have no leaf left.
  abbrev pub keep_branch : Meta → Trees Node Meta → Option (Tree Node Meta)
  keep_branch meta nil = none
  keep_branch meta (cons child children) = some (branch meta (cons child children))

  unfoldable mutual
    pub prune : Tree (Option Node) Meta → Option (Tree Node Meta)
    prune (leaf meta none) = none
    prune (leaf meta (some value)) = some (leaf meta value)
    prune (branch meta children) = keep_branch meta (prune_all children)

    pub prune_all : Trees (Option Node) Meta → Trees Node Meta
    prune_all nil = nil
    prune_all (cons child children) = cons_some (prune child) (prune_all children)

  -- The tree stands in the arena from an index on; the slot of a dropped leaf is empty.
  mutual
    pub data Holed (nodes : Nodes Node Meta) : ℕ → Tree (Option Node) Meta → Type (ℓ ⊔ κ) where
      leaf_holed :
          (index : ℕ) (meta : Meta) (value : Option Node)
          → get_elem? nodes index ≡ some (leaf_of meta value)
          → Holed nodes index (leaf meta value)
      branch_holed :
          (index : ℕ) (meta : Meta) (children : Trees (Option Node) Meta)
          → get_elem? nodes index ≡ some (some (branch_node meta (starts (suc index) children)))
          → AllHoled nodes (suc index) children
          → Holed nodes index (branch meta children)

    pub data AllHoled (nodes : Nodes Node Meta) : ℕ → Trees (Option Node) Meta → Type (ℓ ⊔ κ) where
      nil_holed : (index : ℕ) → AllHoled nodes index nil
      cons_holed :
          (index : ℕ) (child : Tree (Option Node) Meta) (children : Trees (Option Node) Meta)
          → Holed nodes index child
          → AllHoled nodes (index + size child) children
          → AllHoled nodes index (cons child children)

  -- The nodes that the search passes, children first, and the rounds that it takes.
  unfoldable mutual
    pub post : ℕ → Tree (Option Node) Meta → List ℕ
    post index (leaf meta none) = []
    post index (leaf meta (some value)) = index ∷ []
    post index (branch meta children) = post_all (suc index) children ++ index ∷ []

    pub post_all : ℕ → Trees (Option Node) Meta → List ℕ
    post_all index nil = []
    post_all index (cons child children) =
        post index child ++ post_all (index + size child) children

  unfoldable mutual
    pub rounds : Tree (Option Node) Meta → ℕ
    rounds (leaf meta none) = 0
    rounds (leaf meta (some value)) = 1
    rounds (branch meta children) = suc (rounds_all children + 1)

    pub rounds_all : Trees (Option Node) Meta → ℕ
    rounds_all nil = 0
    rounds_all (cons child children) = rounds child + rounds_all children

  module _ (nodes : Nodes Node Meta) where
    pub there_of :
        (index : ℕ) (found : FlatTreeNode Node Meta)
        → get_elem? nodes index ≡ some (some found)
        → is_there nodes index ≡ true
    unfolding is_there
    there_of index found h = rw (h, is_there) refl

    pub gone_of : (index : ℕ) → get_elem? nodes index ≡ some none → is_there nodes index ≡ false
    unfolding is_there
    gone_of index h = rw (h, is_there) refl

    search_leaf :
        (fuel index : ℕ) (visited : Bool) (meta : Meta) (value : Node) (stack : List (ℕ × Bool))
        → get_elem? nodes index ≡ some (some (leaf_node meta value))
        → search (suc fuel) nodes ((index, visited) ∷ stack) ≡ index ∷ search fuel nodes stack
    unfolding search
    search_leaf fuel index visited meta value stack h = rw (h, search) refl

    search_enter :
        (fuel index : ℕ) (meta : Meta) (children : List ℕ) (stack : List (ℕ × Bool))
        → get_elem? nodes index ≡ some (some (branch_node meta children))
        → search (suc fuel) nodes ((index, false) ∷ stack)
          ≡ search fuel nodes (push_children nodes children ((index, true) ∷ stack))
    unfolding search
    search_enter fuel index meta children stack h = rw (h, search) refl

    search_leave :
        (fuel index : ℕ) (meta : Meta) (children : List ℕ) (stack : List (ℕ × Bool))
        → get_elem? nodes index ≡ some (some (branch_node meta children))
        → search (suc fuel) nodes ((index, true) ∷ stack) ≡ index ∷ search fuel nodes stack
    unfolding search
    search_leave fuel index meta children stack h = rw (h, search) refl

    push_there :
        (index : ℕ) (children : List ℕ) (stack : List (ℕ × Bool))
        → is_there nodes index ≡ true
        → push_children nodes (index ∷ children) stack
          ≡ (index, false) ∷ push_children nodes children stack
    unfolding push_children
    push_there index children stack h = rw (h, push_children) refl

    push_gone :
        (index : ℕ) (children : List ℕ) (stack : List (ℕ × Bool))
        → is_there nodes index ≡ false
        → push_children nodes (index ∷ children) stack ≡ push_children nodes children stack
    unfolding push_children
    push_gone index children stack h = rw (h, push_children) refl

    push_none : (stack : List (ℕ × Bool)) → push_children nodes [] stack ≡ stack
    unfolding push_children
    push_none stack = refl

    -- A node that is not there is a dropped leaf.
    pub Holed-gone :
        (tree : Tree (Option Node) Meta) (index : ℕ)
        → Holed nodes index tree
        → is_there nodes index ≡ false
        → (post index tree ≡ []) × (rounds tree ≡ 0)
    unfolding post rounds
    Holed-gone (leaf meta none) index h gone = (refl, refl)
    Holed-gone (leaf meta (some value)) _ (leaf_holed index _ _ h) gone =
        absurd (let there = there_of index (leaf_node meta value) h in ground arith)
    Holed-gone (branch meta children) _ (branch_holed index _ _ h all) gone = absurd (
        let there = there_of index (branch_node meta (starts (suc index) children)) h in
        ground arith)

    mutual
      unfolding post rounds starts

      -- The search from a node that is there.
      pub search-post :
          (tree : Tree (Option Node) Meta) (index fuel : ℕ) (stack : List (ℕ × Bool))
          → Holed nodes index tree
          → is_there nodes index ≡ true
          → search (rounds tree + fuel) nodes ((index, false) ∷ stack)
            ≡ post index tree ++ search fuel nodes stack
      search-post (leaf meta none) _ fuel stack (leaf_holed index _ _ h) there =
          absurd (let gone = gone_of index h in ground arith)
      search-post (leaf meta (some value)) _ fuel stack (leaf_holed index _ _ h) there =
          let step : 1 + fuel ≡ suc fuel = omega arith in
          rw step (search_leaf fuel index false meta value stack h)
      search-post (branch meta children) _ fuel stack (branch_holed index _ _ h all) there =
          let step : suc (rounds_all children + 1) + fuel ≡ suc (rounds_all children + suc fuel) =
            omega arith in
          ap (λ n. search n nodes ((index, false) ∷ stack)) step
          ∙ search_enter (rounds_all children + suc fuel) index meta (starts (suc index) children)
              stack h
          ∙ search_all-post children (suc index) (suc fuel) ((index, true) ∷ stack) all
          ∙ ap (λ l. post_all (suc index) children ++ l)
              (search_leave fuel index meta (starts (suc index) children) stack h)
          ∙ sym
              (append_assoc (post_all (suc index) children) (index ∷ []) (search fuel nodes stack))

      search_all-post :
          (trees : Trees (Option Node) Meta) (index fuel : ℕ) (stack : List (ℕ × Bool))
          → AllHoled nodes index trees
          → search (rounds_all trees + fuel) nodes (push_children nodes (starts index trees) stack)
            ≡ post_all index trees ++ search fuel nodes stack
      search_all-post nil index fuel stack h =
          ap (λ n. search n nodes (push_children nodes [] stack)) (omega arith)
          ∙ ap (search fuel nodes) (push_none stack)
      search_all-post (cons child children) _ fuel stack (cons_holed index _ _ h all) =
          elim (Bool-cases (is_there nodes index)) [
            | inl there ↦
                let rest = push_children nodes (starts (index + size child) children) stack in
                let step : rounds child + rounds_all children + fuel
                    ≡ rounds child + (rounds_all children + fuel) =
                  omega arith in
                ap₂ (λ (n : ℕ) (st : List (ℕ × Bool)). search n nodes st) step
                  (push_there index (starts (index + size child) children) stack there)
                ∙ search-post child index (rounds_all children + fuel) rest h there
                ∙ ap (λ l. post index child ++ l)
                    (search_all-post children (index + size child) fuel stack all)
                ∙ sym (
                    append_assoc (post index child) (post_all (index + size child) children)
                      (search fuel nodes stack))
            | inr gone ↦
                let (nothing, free) = Holed-gone child index h gone in
                let step : rounds child + rounds_all children + fuel ≡ rounds_all children + fuel =
                  omega arith in
                ap₂ (λ (n : ℕ) (st : List (ℕ × Bool)). search n nodes st) step
                  (push_gone index (starts (index + size child) children) stack gone)
                ∙ search_all-post children (index + size child) fuel stack all
                ∙ sym (
                    ap
                      (λ l.
                        (l ++ post_all (index + size child) children) ++ search fuel nodes stack)
                      nothing)
          ]
