-- ===== src/Causality/DependencyGraph/Built.antt =====
-- What `build_graph` builds: for each reference of a leaf the edges to or from the leaves that it
-- names, and nothing else.
use mathlib.Core.Option.{some-injective}
use native.Mathlib.Decide.{dec_lt}
use lusid.Base.{
  ℕ, zero, suc, ◌+◌, ◌≤◌, ◌<◌, ◌≡◌, refl, ◌∙◌, none, some, List, [], ◌∷◌, arith, length, count, All,
  nat_eq, ite, ℕ_discrete, Eq, ok, >>=-eq-ok, Option-cases, get_elem?, subst, sym, replicate,
  get_or-replicate, ok-injective, ok-ne-err, inl, inr, ◌⊎◌,
}
use lusid.Causality.Collect.{CollectedLeaf, IdTable, lookup}
use lusid.Causality.Collect.Table.{IsBounded, lookup-IsBounded}
use lusid.Causality.DependencyGraph.{
  Graph, edgeless, add_requires, add_required_by, add_leaves, build_graph,
}
use lusid.Causality.Kahn.Relax.{edges}
use lusid.Causality.DependencyGraph.Edges.{
  IsGraph, Grown, Grown-trans, Grown-none, edgeless-IsGraph, edges_from-Grown, edges_to-Grown,
}

pos_ite : (a b x : ℕ) → 0 < ite (ℕ_discrete a b) x 0 → (a ≡ b) × (0 < x)
pos_ite a b x h = ground arith

module _ {NodeId : Type 0} ⦃e : Eq NodeId⦄ (table : IdTable NodeId) where
  -- The leaves that an id stands for.
  pub targets_of : NodeId → List ℕ
  targets_of id = elim (lookup id table) [ none ↦ [] | some targets ↦ targets ]

  pub targets_of-some :
      (id : NodeId) {targets : List ℕ} → lookup id table ≡ some targets → targets_of id ≡ targets
  unfolding targets_of
  targets_of-some id found = rw (found, targets_of)

  pub targets_of-none : (id : NodeId) → lookup id table ≡ none → targets_of id ≡ []
  unfolding targets_of
  targets_of-none id missing = rw (missing, targets_of)

  pub targets_of-IsBounded :
      (n : ℕ) → IsBounded n table → (id : NodeId) → All (λ j. j < n) (targets_of id)
  targets_of-IsBounded n b id = elim (Option-cases (lookup id table)) [
    | inl missing ↦ subst (All (λ j. j < n)) (sym (targets_of-none id missing)) tt
    | inr (targets, found) ↦
        subst (All (λ j. j < n)) (sym (targets_of-some id found))
          (lookup-IsBounded n id table b found)
  ]

  -- How often some of the ids stands for leaf `j`.
  abbrev pub reach : List NodeId → ℕ → ℕ
  reach [] j = 0
  reach (id ∷ ids) j = count j (targets_of id) + reach ids j

  module _ (n : ℕ) (bounded : (id : NodeId) → All (λ j. j < n) (targets_of id)) where
    add_requires-Grown :
        (ids : List NodeId) (i : ℕ) (g : Graph) {g' : Graph}
        → i < n
        → IsGraph n g
        → add_requires table ids i g ≡ ok g'
        → Grown n g g' (λ k j. ite (ℕ_discrete i j) (reach ids k) 0)
    unfolding add_requires
    add_requires-Grown [] i g lt is h =
        subst (λ g'. Grown n g g' (λ k j. ite (ℕ_discrete i j) 0 0)) (ok-injective h)
          (Grown-none _ is (λ k j. ground arith))
    add_requires-Grown (id ∷ ids) i g lt is h = elim (Option-cases (lookup id table)) [
      | inl missing ↦ absurd (ok-ne-err (sym (rw (missing, add_requires) at h)))
      | inr (targets, found) ↦
          let named = targets_of-some id found in
          let first = edges_from-Grown i lt targets is (rw named at (bounded id)) in
          Grown-trans (λ k j. ite (ℕ_discrete i j) (count k targets) 0) _ _ first
            (add_requires-Grown ids i _ lt first.graph (rw (found, add_requires) at h))
            (λ k j. rw named (ground arith))
    ]

    add_required_by-Grown :
        (ids : List NodeId) (i : ℕ) (g : Graph) {g' : Graph}
        → i < n
        → IsGraph n g
        → add_required_by table ids i g ≡ ok g'
        → Grown n g g' (λ k j. ite (ℕ_discrete i k) (reach ids j) 0)
    unfolding add_required_by
    add_required_by-Grown [] i g lt is h =
        subst (λ g'. Grown n g g' (λ k j. ite (ℕ_discrete i k) 0 0)) (ok-injective h)
          (Grown-none _ is (λ k j. ground arith))
    add_required_by-Grown (id ∷ ids) i g lt is h = elim (Option-cases (lookup id table)) [
      | inl missing ↦ absurd (ok-ne-err (sym (rw (missing, add_required_by) at h)))
      | inr (targets, found) ↦
          let named = targets_of-some id found in
          let first = edges_to-Grown i lt targets is (rw named at (bounded id)) in
          Grown-trans (λ k j. ite (ℕ_discrete i k) (count j targets) 0) _ _ first
            (add_required_by-Grown ids i _ lt first.graph (rw (found, add_required_by) at h))
            (λ k j. rw named (ground arith))
    ]

  -- Leaf `i` has to come before leaf `j`: an id that `j` requires, or that `i` is required by,
  -- stands for the other.
  pub data Depends {ℓ} {Node : Type ℓ} (leaves : List (CollectedLeaf Node NodeId)) (i j : ℕ)
      : Type ℓ where
    by_requires :
        (l : CollectedLeaf Node NodeId)
        → get_elem? leaves j ≡ some l
        → 0 < reach l.requires i
        → Depends leaves i j
    by_required_by :
        (l : CollectedLeaf Node NodeId)
        → get_elem? leaves i ≡ some l
        → 0 < reach l.required_by j
        → Depends leaves i j

  module _ {ℓ} {Node : Type ℓ} where
    -- The edges that the leaves from index `b` on ask for.
    abbrev pub wanted : List (CollectedLeaf Node NodeId) → ℕ → ℕ → ℕ → ℕ
    wanted [] b i j = 0
    wanted (l ∷ leaves) b i j =
        ite (ℕ_discrete b j) (reach l.requires i) 0
        + ite (ℕ_discrete b i) (reach l.required_by j) 0
        + wanted leaves (b + 1) i j

    add_leaves-Grown :
        (n : ℕ)
        → ((id : NodeId) → All (λ j. j < n) (targets_of id))
        → (leaves : List (CollectedLeaf Node NodeId)) (b : ℕ) (g : Graph) {g' : Graph}
        → length leaves + b ≤ n
        → IsGraph n g
        → add_leaves table leaves b g ≡ ok g'
        → Grown n g g' (wanted leaves b)
    unfolding add_leaves
    add_leaves-Grown n bounded [] b g le is h =
        subst (λ g'. Grown n g g' (λ i j. 0)) (ok-injective h) (Grown-none _ is (λ k j. refl))
    add_leaves-Grown n bounded (l ∷ leaves) b g le is h =
        let (g1, e1, h1) = >>=-eq-ok (add_requires table l.requires b g) _ h in
        let (g2, e2, h2) = >>=-eq-ok (add_required_by table l.required_by b g1) _ h1 in
        let r1 = add_requires-Grown n bounded l.requires b g (omega arith) is e1 in
        let r2 = add_required_by-Grown n bounded l.required_by b g1 (omega arith) r1.graph e2 in
        let r3 = add_leaves-Grown n bounded leaves (b + 1) g2 (omega arith) r2.graph h2 in
        Grown-trans _ _ _
          (Grown-trans _ _
            (λ i j.
              ite (ℕ_discrete b j) (reach l.requires i) 0
              + ite (ℕ_discrete b i) (reach l.required_by j) 0)
            r1 r2 (λ i j. refl))
          r3 (λ i j. refl)

    pub build_graph-Grown :
        (leaves : List (CollectedLeaf Node NodeId)) {g : Graph}
        → ((id : NodeId) → All (λ j. j < length leaves) (targets_of id))
        → build_graph table leaves ≡ ok g
        → IsGraph (length leaves) g × ((i j : ℕ) → edges g.outgoing i j ≡ wanted leaves 0 i j)
    unfolding build_graph
    build_graph-Grown leaves bounded h =
        let n = length leaves in
        let r =
          add_leaves-Grown n bounded leaves 0 (edgeless n) (omega arith) (edgeless-IsGraph n) h in
        (r.graph, λ i j. r.more i j ∙ edgeless_edges n i j)
      where
        edgeless_edges : (n i j : ℕ) {m : ℕ} → edges (replicate n []) i j + m ≡ m
        edgeless_edges n i j = rw (get_or-replicate {A = List ℕ} n i []) (omega arith)

    wanted_requires :
        (leaves : List (CollectedLeaf Node NodeId)) (b i k : ℕ) {l : CollectedLeaf Node NodeId}
        → get_elem? leaves k ≡ some l
        → reach l.requires i ≤ wanted leaves b i (k + b)
    wanted_requires [] b i k h = cc
    wanted_requires (x ∷ leaves) b i zero {l} h =
        let here : x ≡ l = some-injective x l h in rw (← here) (ground arith)
    wanted_requires (x ∷ leaves) b i (suc k) h =
        let shift : suc k + b ≡ k + (b + 1) = omega arith in
        rw shift (omega (arith, wanted_requires leaves (b + 1) i k h))

    wanted_required_by :
        (leaves : List (CollectedLeaf Node NodeId)) (b j k : ℕ) {l : CollectedLeaf Node NodeId}
        → get_elem? leaves k ≡ some l
        → reach l.required_by j ≤ wanted leaves b (k + b) j
    wanted_required_by [] b j k h = cc
    wanted_required_by (x ∷ leaves) b j zero {l} h =
        let here : x ≡ l = some-injective x l h in rw (← here) (ground arith)
    wanted_required_by (x ∷ leaves) b j (suc k) h =
        let shift : suc k + b ≡ k + (b + 1) = omega arith in
        rw shift (omega (arith, wanted_required_by leaves (b + 1) j k h))

    -- Each dependency is an edge of the graph.
    pub Depends-wanted :
        (leaves : List (CollectedLeaf Node NodeId)) (i j : ℕ)
        → Depends leaves i j
        → 0 < wanted leaves 0 i j
    Depends-wanted leaves i j (by_requires l at_j reached) =
        let here : j + 0 ≡ j = omega arith in
        omega (arith, rw here at (wanted_requires leaves 0 i j at_j))
    Depends-wanted leaves i j (by_required_by l at_i reached) =
        let here : i + 0 ≡ i = omega arith in
        omega (arith, rw here at (wanted_required_by leaves 0 j i at_i))

    -- An edge that is asked for, with the leaf that asks.
    record Asked (leaves : List (CollectedLeaf Node NodeId)) (b i j : ℕ) : Type ℓ where
      place : ℕ
      asking : CollectedLeaf Node NodeId
      stands : get_elem? leaves place ≡ some asking
      why :
          (j ≡ place + b) × (0 < reach asking.requires i)
          ⊎ (i ≡ place + b) × (0 < reach asking.required_by j)

    wanted-Asked :
        (leaves : List (CollectedLeaf Node NodeId)) (b i j : ℕ)
        → 0 < wanted leaves b i j
        → Asked leaves b i j
    wanted-Asked [] b i j h = absurd (omega arith)
    wanted-Asked (l ∷ leaves) b i j h = elim (dec_lt 0 (wanted leaves (b + 1) i j)) [
      | yes later ↦
          let r = wanted-Asked leaves (b + 1) i j later in
          record {
            place = suc r.place;
            asking = r.asking;
            stands = r.stands;
            why = shifted r.place r.why;
          }
      | no not_later ↦ record {
        place = 0;
        asking = l;
        stands = refl;
        why = first not_later (dec_lt 0 _);
      }
    ]
      where
        first :
            ¬ (0 < wanted leaves (b + 1) i j)
            → Dec (0 < ite (ℕ_discrete b j) (reach l.requires i) 0)
            → (j ≡ 0 + b) × (0 < reach l.requires i) ⊎ (i ≡ 0 + b) × (0 < reach l.required_by j)
        first not_later (yes p) =
            let (same, reached) = pos_ite b j (reach l.requires i) p in inl (omega arith, reached)
        first not_later (no none_here) =
            let (same, reached) = pos_ite b i (reach l.required_by j) (omega arith) in
            inr (omega arith, reached)

        shifted :
            (p : ℕ) {P Q : Type 0}
            → (j ≡ p + (b + 1)) × P ⊎ (i ≡ p + (b + 1)) × Q
            → (j ≡ suc p + b) × P ⊎ (i ≡ suc p + b) × Q
        shifted p (inl (here, q)) = inl (omega arith, q)
        shifted p (inr (here, q)) = inr (omega arith, q)

    -- Each edge of the graph is a dependency.
    pub wanted-Depends :
        (leaves : List (CollectedLeaf Node NodeId)) (i j : ℕ)
        → 0 < wanted leaves 0 i j
        → Depends leaves i j
    wanted-Depends leaves i j h =
        let r = wanted-Asked leaves 0 i j h in
        elim r.why [
          | inl (here, reached) ↦
              let same : r.place ≡ j = omega arith in
              by_requires r.asking (rw same at r.stands) reached
          | inr (here, reached) ↦
              let same : r.place ≡ i = omega arith in
              by_required_by r.asking (rw same at r.stands) reached
        ]
