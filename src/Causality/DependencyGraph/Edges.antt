-- ===== src/Causality/DependencyGraph/Edges.antt =====
-- What one edge does to the graph, and what the two inner loops add.
use lusid.Base.{
  ℕ, ◌+◌, ◌<◌, ◌≡◌, ◌∙◌, List, [], ◌∷◌, ◌++◌, arith, length, length-set, replicate,
  length-replicate, get_or-replicate, get_or, get_or-set, get_or_inside, count, count-append, All,
  nat_eq, ite, ℕ_discrete,
}
use lusid.Base.Sums.{
  sum_below-eq, sum_below-add, sum_below_single, sum_below-zero, All-of_count, count-eq_zero,
}
use lusid.Causality.DependencyGraph.{Graph, edgeless, add_edge, edges_from, edges_to}
use lusid.Causality.Kahn.Relax.{at, edges}
use lusid.Causality.Kahn.Invariant.{total}

-- `n` nodes, all edges between them, and each indegree the count of the edges into its node.
pub record IsGraph (n : ℕ) (g : Graph) : Type 0 where
  pub rows : length g.outgoing ≡ n
  pub sized : length g.indegree ≡ n
  pub inside : (i : ℕ) → All (λ j. j < n) (get_or g.outgoing i [])
  pub counted : (j : ℕ) → j < n → at g.indegree j ≡ total g.outgoing n j

-- `g'` is `g` and `extra i j` more edges from each `i` to each `j`.
pub record Grown (n : ℕ) (g g' : Graph) (extra : ℕ → ℕ → ℕ) : Type 0 where
  pub graph : IsGraph n g'
  pub more : (i j : ℕ) → edges g'.outgoing i j ≡ edges g.outgoing i j + extra i j

abbrev one_edge : ℕ → ℕ → ℕ → ℕ → ℕ
one_edge from to i j = ite (ℕ_discrete from i) (ite (ℕ_discrete to j) 1 0) 0

module _ (n from to : ℕ) (g : Graph) (is : IsGraph n g) (f : from < n) (t : to < n) where
  row_set :
      (i : ℕ)
      → get_or (add_edge from to g).outgoing i []
        ≡ ite (ℕ_discrete from i) (get_or g.outgoing from [] ++ to ∷ []) (get_or g.outgoing i [])
  unfolding add_edge
  row_set i = get_or-set g.outgoing from i _ [] (rw is.rows f)

  one_more :
      (i j : ℕ)
      → edges (add_edge from to g).outgoing i j ≡ edges g.outgoing i j + one_edge from to i j
  one_more i j = ground (arith, row_set i, count-append j (get_or g.outgoing from []) (to ∷ []))

  total_one_more :
      (j : ℕ)
      → total (add_edge from to g).outgoing n j ≡ total g.outgoing n j + ite (ℕ_discrete to j) 1 0
  total_one_more j = omega (
    arith,
    sum_below-eq n (λ i. edges (add_edge from to g).outgoing i j)
        (λ i. edges g.outgoing i j + one_edge from to i j) (λ i _. one_more i j),
    sum_below-add n (λ i. edges g.outgoing i j) (λ i. one_edge from to i j),
    sum_below_single n from (λ i. ite (ℕ_discrete to j) 1 0) f,
  )

  row_inside : (i : ℕ) → All (λ j. j < n) (get_or (add_edge from to g).outgoing i [])
  row_inside i =
      All-of_count n _ (λ j le. ground (arith, one_more i j, count-eq_zero n _ (is.inside i) j le))

  entry_more :
      (j : ℕ) → at (add_edge from to g).indegree j ≡ at g.indegree j + ite (ℕ_discrete to j) 1 0
  unfolding add_edge
  entry_more j =
      let in_range : to < length g.indegree = rw is.sized t in
      ground (
        arith,
        get_or-set g.indegree to j (get_or g.indegree to 0 + 1) 1 in_range,
        get_or_inside g.indegree to 0 1 in_range,
      )

  entry_counted :
      (j : ℕ) → j < n → at (add_edge from to g).indegree j ≡ total (add_edge from to g).outgoing n j
  entry_counted j lt = omega (arith, entry_more j, total_one_more j, is.counted j lt)

  pub add_edge-Grown : Grown n g (add_edge from to g) (one_edge from to)
  unfolding add_edge
  add_edge-Grown = record {
    graph = record {
      rows = length-set g.outgoing from _ ∙ is.rows;
      sized = length-set g.indegree to _ ∙ is.sized;
      inside = row_inside;
      counted = entry_counted;
    };
    more = one_more;
  }

pub edgeless-IsGraph : (n : ℕ) → IsGraph n (edgeless n)
edgeless-IsGraph n = record {
  rows = length-replicate n [];
  sized = length-replicate n 0;
  inside = λ i. rw (get_or-replicate {A = List ℕ} n i []) tt;
  counted = λ j lt. omega (
    arith,
    get_or_inside (replicate {A = ℕ} n 0) j 1 0 (rw (length-replicate {A = ℕ} n 0) lt),
    get_or-replicate {A = ℕ} n j 0,
    sum_below-eq n (λ i. edges (replicate n []) i j) (λ i. 0)
        (λ i _. rw (get_or-replicate {A = List ℕ} n i [])),
    sum_below-zero n,
  );
}

pub Grown-trans :
    {n : ℕ} {a b c : Graph} (e f g : ℕ → ℕ → ℕ)
    → Grown n a b e
    → Grown n b c f
    → ((i j : ℕ) → g i j ≡ e i j + f i j)
    → Grown n a c g
Grown-trans e f g r s both = record {
  graph = s.graph;
  more = λ i j. omega (arith, r.more i j, s.more i j, both i j);
}

pub Grown-none :
    {n : ℕ} {g : Graph} (e : ℕ → ℕ → ℕ) → IsGraph n g → ((i j : ℕ) → e i j ≡ 0) → Grown n g g e
Grown-none e is none = record { graph = is; more = λ i j. omega (arith, none i j) }

module _ {n : ℕ} (i : ℕ) (inside : i < n) where
  pub edges_from-Grown :
      (targets : List ℕ) {g : Graph}
      → IsGraph n g
      → All (λ j. j < n) targets
      → Grown n g (edges_from targets i g) (λ k j. ite (ℕ_discrete i j) (count k targets) 0)
  unfolding edges_from
  edges_from-Grown [] is h = Grown-none _ is (λ k j. ground arith)
  edges_from-Grown (t ∷ targets) {g} is h =
      let first = add_edge-Grown n t i g is h.0 inside in
      Grown-trans (one_edge t i) _ _ first (edges_from-Grown targets first.graph h.1)
        (λ k j. ground arith)

  pub edges_to-Grown :
      (targets : List ℕ) {g : Graph}
      → IsGraph n g
      → All (λ j. j < n) targets
      → Grown n g (edges_to targets i g) (λ k j. ite (ℕ_discrete i k) (count j targets) 0)
  unfolding edges_to
  edges_to-Grown [] is h = Grown-none _ is (λ k j. ground arith)
  edges_to-Grown (t ∷ targets) {g} is h =
      let first = add_edge-Grown n i t g is inside h.0 in
      Grown-trans (one_edge i t) _ _ first (edges_to-Grown targets first.graph h.1)
        (λ k j. ground arith)
