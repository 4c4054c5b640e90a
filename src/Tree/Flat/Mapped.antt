-- ===== src/Tree/Flat/Mapped.antt =====
-- `FlatTree::map` maps each leaf, and tells of the leaves in the order of the arena.
use lusid.Base
use lusid.Base.{
  ℕ, zero, suc, ◌+◌, ◌≡◌, refl, ◌∙◌, sym, ap, subst, Option, some, none, List, [], ◌∷◌, ◌++◌, arith,
  append_assoc, length, length-append, get_elem?, set, replicate, set-append_length, length-map,
  Result, ok, ◌>>=◌, >>=-eq-ok, ok-injective, >>=-congruent, >>=-assoc,
}
use lusid.Tree
use lusid.Tree.{Tree, Trees, branch, leaf, nil, cons, map_all}
use lusid.Tree.Flat.{
  FlatTree, FlatTreeNode, branch_node, leaf_node, Nodes, from_tree, append_tree_nodes, to_tree,
}
use lusid.Tree.Flat.Layout.{
  size, sizes, starts, At, AllAt, leaf_at, branch_at, nil_at, cons_at, append_tree_nodes-Appended,
}
use lusid.Tree.Flat.Build.{to_tree-At}
use lusid.Tree.Flat.Transform.{map_loop, map}

module _ {ℓ κ μ} {Node : Type ℓ} {NextNode : Type μ} {Meta : Type κ} (f : Node → NextNode) where
  -- One slot of the arena, its leaf mapped.
  unfoldable pub map_slot : Option (FlatTreeNode Node Meta) → Option (FlatTreeNode NextNode Meta)
  map_slot none = none
  map_slot (some (branch_node meta children)) = some (branch_node meta children)
  map_slot (some (leaf_node meta value)) = some (leaf_node meta (f value))

  -- What the callback hears: every leaf's index and its new value, in the order of the arena.
  unfoldable pub tell {ν ξ} :
      {S : Type ν} {Error : Type ξ}
      → (ℕ → NextNode → S → Result Error S)
      → Nodes Node Meta
      → ℕ
      → S
      → Result Error S
  tell write_update [] index s = ok s
  tell write_update (none ∷ nodes) index s = tell write_update nodes (suc index) s
  tell write_update (some (branch_node meta children) ∷ nodes) index s =
      tell write_update nodes (suc index) s
  tell write_update (some (leaf_node meta value) ∷ nodes) index s =
      write_update index (f value) s >>= λ s'. tell write_update nodes (suc index) s'

module _ {ℓ κ μ ν ξ} {Node : Type ℓ} {NextNode : Type μ} {Meta : Type κ} {S : Type ν}
    {Error : Type ξ} (f : Node → NextNode) (write_update : ℕ → NextNode → S → Result Error S) where
  -- Whatever is written at the head of the rest of the new arena belongs to what is done.
  advance :
      (done : Nodes NextNode Meta) (slot slot' : Option (FlatTreeNode NextNode Meta))
      (rest : Nodes NextNode Meta)
      → set (done ++ slot ∷ rest) (length done) slot' ≡ (done ++ slot' ∷ []) ++ rest
  advance done slot slot' rest =
      set-append_length done slot slot' rest ∙ sym (append_assoc done (slot' ∷ []) rest)

  -- The rest of the loop, once a slot has been written.
  abbrev IsMapped : Nodes Node Meta → Type (κ ⊔ μ ⊔ ν ⊔ ξ)
  IsMapped nodes =
      (done : Nodes NextNode Meta) (s : S)
      → map_loop f write_update nodes (length done) (done ++ replicate (length nodes) none) s ≡ (
          tell f write_update nodes (length done) s >>= λ s'.
          ok (done ++ Base.map (map_slot f) nodes, s'))

  map_loop_next :
      (nodes : Nodes Node Meta) (done : Nodes NextNode Meta)
      (slot : Option (FlatTreeNode NextNode Meta)) (next : Nodes NextNode Meta) (s : S)
      → IsMapped nodes
      → next ≡ (done ++ slot ∷ []) ++ replicate (length nodes) none
      → map_loop f write_update nodes (suc (length done)) next s ≡ (
          tell f write_update nodes (suc (length done)) s >>= λ s'.
          ok (done ++ slot ∷ Base.map (map_slot f) nodes, s'))
  map_loop_next nodes done slot next s loop e =
      let longer : length (done ++ slot ∷ []) ≡ suc (length done) =
        omega (arith, length-append done (slot ∷ [])) in
      rw (e, ← longer, ← append_assoc done (slot ∷ []) (Base.map (map_slot f) nodes))
        (loop (done ++ slot ∷ []) s)

  map_loop-IsMapped : (nodes : Nodes Node Meta) → IsMapped nodes
  unfolding map_loop tell map_slot
  map_loop-IsMapped [] done s = refl
  map_loop-IsMapped (none ∷ nodes) done s =
      map_loop_next nodes done none _ s (map_loop-IsMapped nodes)
        (sym (append_assoc done (none ∷ []) (replicate (length nodes) none)))
  map_loop-IsMapped (some (branch_node meta children) ∷ nodes) done s =
      map_loop_next nodes done (some (branch_node meta children)) _ s (map_loop-IsMapped nodes)
        (advance done none (some (branch_node meta children)) (replicate (length nodes) none))
  map_loop-IsMapped (some (leaf_node meta value) ∷ nodes) done s =
      >>=-congruent (write_update (length done) (f value) s) _ _ (λ s'.
        map_loop_next nodes done (some (leaf_node meta (f value))) _ s' (map_loop-IsMapped nodes)
          (advance done none (some (leaf_node meta (f value))) (replicate (length nodes) none)))
      ∙ sym (>>=-assoc (write_update (length done) (f value) s) _ _)

  -- `map` on an arena tells the callback of the mapped leaves in the order of the arena, up to its
  -- first error, which is the result; if there is none, the result is the arena with the leaves
  -- mapped in their slots and everything else as it was.
  pub map-slots :
      (t : FlatTree Node Meta) (s : S)
      → map f write_update t s ≡ (
          tell f write_update t.nodes 0 s >>= λ s'.
          ok (record { nodes = Base.map (map_slot f) t.nodes }, s'))
  unfolding map
  map-slots t s =
      ap (λ m. m >>= λ (r : Nodes NextNode Meta × S). ok (record { nodes = r.0 }, r.1))
        (map_loop-IsMapped t.nodes [] s)
      ∙ >>=-assoc (tell f write_update t.nodes 0 s) _ _

module _ {ℓ κ μ} {Node : Type ℓ} {NextNode : Type μ} {Meta : Type κ} (f : Node → NextNode) where
  mutual
    unfolding size sizes Tree.map Tree.map_all

    pub size-map : (tree : Tree Node Meta) → size (Tree.map f tree) ≡ size tree
    size-map (leaf meta value) = refl
    size-map (branch meta children) = ap suc (sizes-map children)

    sizes-map : (trees : Trees Node Meta) → sizes (map_all f trees) ≡ sizes trees
    sizes-map nil = refl
    sizes-map (cons child children) = omega (arith, size-map child, sizes-map children)

  pub starts-map :
      (trees : Trees Node Meta) (index : ℕ) → starts index (map_all f trees) ≡ starts index trees
  unfolding starts map_all
  starts-map nil index = refl
  starts-map (cons child children) index =
      ap (λ (is : List ℕ). index ∷ is)
        (ap (λ n. starts (index + n) (map_all f children)) (size-map child)
          ∙ starts-map children (index + size child))

  get_elem?-map :
      (nodes : Nodes Node Meta) (index : ℕ) {slot : Option (FlatTreeNode Node Meta)}
      → get_elem? nodes index ≡ some slot
      → get_elem? (Base.map (map_slot f) nodes) index ≡ some (map_slot f slot)
  get_elem?-map [] index h = cc
  get_elem?-map (x ∷ nodes) zero h =
      ap (λ (o : Option (Option (FlatTreeNode Node Meta))). some (map_slot f x)) h ∙ cc
  get_elem?-map (x ∷ nodes) (suc index) h = get_elem?-map nodes index h

  mutual
    unfolding map_slot Tree.map Tree.map_all

    At-map :
        {nodes : Nodes Node Meta} {index : ℕ} {tree : Tree Node Meta}
        → At nodes index tree
        → At (Base.map (map_slot f) nodes) index (Tree.map f tree)
    At-map {nodes} (leaf_at index meta value h) =
        leaf_at index meta (f value) (get_elem?-map nodes index h)
    At-map {nodes} (branch_at index meta children h all) =
        branch_at index meta (map_all f children)
          (get_elem?-map nodes index h
            ∙ ap (λ ids. some (some (branch_node meta ids)))
                (sym (starts-map children (suc index))))
          (AllAt-map all)

    AllAt-map :
        {nodes : Nodes Node Meta} {index : ℕ} {trees : Trees Node Meta}
        → AllAt nodes index trees
        → AllAt (Base.map (map_slot f) nodes) index (map_all f trees)
    AllAt-map (nil_at index) = nil_at index
    AllAt-map {nodes} (cons_at index child children h all) =
        cons_at index (Tree.map f child) (map_all f children) (At-map h) (
          subst (λ n. AllAt (Base.map (map_slot f) nodes) (index + n) (map_all f children))
            (sym (size-map child)) (AllAt-map all))

module _ {ℓ κ μ ν ξ} {Node : Type ℓ} {NextNode : Type μ} {Meta : Type κ} {S : Type ν}
    {Error : Type ξ} (f : Node → NextNode) (write_update : ℕ → NextNode → S → Result Error S) where
  -- If `map` succeeds on a tree made flat, then its arena nested again is the nested tree mapped.
  pub map-from_tree :
      (default : Meta) (tree : Tree Node Meta) (s : S) {flat : FlatTree NextNode Meta} {s' : S}
      → map f write_update (from_tree tree) s ≡ ok (flat, s')
      → to_tree default flat ≡ Tree.map f tree
  unfolding from_tree
  map-from_tree default tree s {flat} {s'} h =
      let appended = append_tree_nodes-Appended tree [] in
      let mapped : FlatTree NextNode Meta = record {
        nodes = Base.map (map_slot f) (append_tree_nodes tree []).1;
      } in
      let (heard, told, result) =
        >>=-eq-ok (tell f write_update (append_tree_nodes tree []).1 0 s)
          (λ (s1 : S). ok (mapped, s1)) (sym (map-slots f write_update (from_tree tree) s) ∙ h) in
      let same : mapped ≡ flat =
        ap (λ (r : FlatTree NextNode Meta × S). r.0) (ok-injective result) in
      subst (λ (t : FlatTree NextNode Meta). to_tree default t ≡ Tree.map f tree) same
        (to_tree-At default mapped (Tree.map f tree)
          (omega (
            arith,
            size-map f tree,
            appended.long,
            length-map (map_slot f) (append_tree_nodes tree []).1,
          ))
          (At-map f appended.stands))
