-- ===== src/Causality/Kahn/Invariant.antt =====
-- What holds before each round of the queue loop, and what holds when the queue is empty.
use native.Mathlib.Decide.{dec_lt}
use lusid.Base.{
  ℕ, zero, suc, ◌+◌, ◌*◌, ◌≤◌, ◌<◌, ◌≡◌, refl, ◌∙◌, List, [], ◌∷◌, ◌++◌, arith, length,
  length-append, get_or, get_or_beyond, count, count-append, All, nat_eq, append_assoc, append-nil,
}
use lusid.Base.Sums.{
  sum_below, sum_below-le, sum_below-lt, sum_list-append, sum_list-count, sum_list-zero, length-le,
  count-eq_zero, All-of_count, once_mul-le,
}
use lusid.Causality.Kahn.{relax_wave, sources}
use lusid.Causality.Kahn.Waves.{waves}
use lusid.Causality.Kahn.Relax.{at, Round, edges, into, relax_wave-Round}

abbrev pub is_zero : ℕ → ℕ
is_zero zero = 1
is_zero (suc n) = 0

-- The count of all edges into `j`.
abbrev pub total : List (List ℕ) → ℕ → ℕ → ℕ
total outgoing n j = sum_below n (λ i. edges outgoing i j)

-- `done` lists the nodes of the earlier waves. An indegree counts the edges from the others, and
-- just the nodes without such an edge are done or in the queue, once each.
pub record Inv (outgoing : List (List ℕ)) (n : ℕ) (done queue indegree : List ℕ) : Type 0 where
  pub sized : length indegree ≡ n
  pub inside : (i : ℕ) → All (λ j. j < n) (get_or outgoing i [])
  pub pending : (j : ℕ) → j < n → at indegree j + into outgoing done j ≡ total outgoing n j
  pub marked : (j : ℕ) → count j (done ++ queue) ≡ is_zero (at indegree j)

module _ {outgoing : List (List ℕ)} {n : ℕ} {done queue indegree : List ℕ}
    (inv : Inv outgoing n done queue indegree) where
  pub Inv-once : (j : ℕ) → count j (done ++ queue) ≤ 1
  Inv-once j = ground (arith, inv.marked j)

  pub Inv-below : All (λ i. i < n) (done ++ queue)
  Inv-below =
      All-of_count n (done ++ queue)
        (λ i le. ground (arith, inv.marked i, get_or_beyond indegree i 1 (rw inv.sized le)))

  pub Inv-done_below : All (λ i. i < n) done
  Inv-done_below = All-of_count n done (λ i le.
      omega (arith, count-append i done queue, count-eq_zero n (done ++ queue) Inv-below i le))

  pub Inv-length : length done + length queue ≤ n
  Inv-length = omega (arith, length-append done queue, length-le n _ Inv-below Inv-once)

  -- The edges from the nodes that are done or in the queue are among all edges.
  into-le_total : (j : ℕ) → into outgoing done j + into outgoing queue j ≤ total outgoing n j
  into-le_total j = omega (
    arith,
    sum_list-append done queue (λ i. edges outgoing i j),
    sum_list-count n (done ++ queue) (λ i. edges outgoing i j) Inv-below,
    sum_below-le n (λ i. count i (done ++ queue) * edges outgoing i j) (λ i. edges outgoing i j)
        (λ i _. once_mul-le _ _ (Inv-once i)),
  )

  pub Inv-enough : (j : ℕ) → into outgoing queue j ≤ at indegree j
  Inv-enough j = elim (dec_lt j n) [
    | yes lt ↦ omega (arith, into-le_total j, inv.pending j lt)
    | no ge ↦ omega (
      arith,
      sum_list-zero queue (λ i. edges outgoing i j)
          (λ i. count-eq_zero n (get_or outgoing i []) (inv.inside i) j (omega arith)),
    )
  ]

  pub Inv-Round :
      Round indegree
        (relax_wave outgoing queue indegree []).0
        []
        (relax_wave outgoing queue indegree []).1
        (into outgoing queue)
  Inv-Round =
      relax_wave-Round outgoing queue indegree [] (λ i. rw inv.sized (inv.inside i)) Inv-enough

  pub Inv-step :
      Inv outgoing n
        (done ++ queue)
        (relax_wave outgoing queue indegree []).1
        (relax_wave outgoing queue indegree []).0
  Inv-step = record {
    sized = Inv-Round.kept ∙ inv.sized;
    inside = inv.inside;
    pending = λ j lt. omega (
      arith,
      inv.pending j lt,
      Inv-Round.taken j,
      sum_list-append done queue (λ i. edges outgoing i j),
    );
    marked = λ j. ground (
      arith,
      inv.marked j,
      Inv-Round.pushed j,
      Inv-Round.taken j,
      count-append j (done ++ queue) (relax_wave outgoing queue indegree []).1,
    );
  }

  -- A node of the queue has all its predecessors among those that are done.
  pub Inv-ready : (i j : ℕ) → 0 < count j queue → i < n → 0 < edges outgoing i j → 0 < count i done
  Inv-ready i j queued lt edge = elim (dec_lt 0 (count i done)) [
    | yes found ↦ found
    | no missing ↦ absurd (
        omega (
          arith,
          drained,
          sum_list-count n done (λ k. edges outgoing k j) Inv-done_below,
          sum_below-lt n (λ k. count k done * edges outgoing k j) (λ k. edges outgoing k j) i
              (λ k _. once_mul-le _ _ (done_once k)) lt (one_short (omega arith)),
        ))
  ]
    where
      done_once : (k : ℕ) → count k done ≤ 1
      done_once k = omega (arith, Inv-once k, count-append k done queue)

      listed : 0 < count j (done ++ queue)
      listed = omega (arith, count-append j done queue)

      below : j < n
      below = elim (dec_lt j n) [
        | yes l ↦ l
        | no ge ↦
            absurd
              (omega (arith, listed, count-eq_zero n (done ++ queue) Inv-below j (omega arith)))
      ]

      drained : into outgoing done j ≡ total outgoing n j
      drained = ground (arith, inv.pending j below, inv.marked j, listed)

      one_short : count i done ≡ 0 → count i done * edges outgoing i j < edges outgoing i j
      one_short e = rw e (omega arith)

-- The nodes of the waves, in order.
abbrev pub flatten : List (List ℕ) → List ℕ
flatten [] = []
flatten (wave ∷ ws) = wave ++ flatten ws

-- Each node of a wave has all its predecessors in the waves before it.
abbrev pub Respects : List (List ℕ) → ℕ → List ℕ → List (List ℕ) → Type 0
Respects outgoing n done [] = Unit
Respects outgoing n done (wave ∷ ws) =
    ((i j : ℕ) → 0 < count j wave → i < n → 0 < edges outgoing i j → 0 < count i done)
    × Respects outgoing n (done ++ wave) ws

-- With fuel for each node that is not done, the loop ends with an empty queue.
pub waves-Inv :
    (outgoing : List (List ℕ)) (n fuel : ℕ) (done queue indegree : List ℕ)
    → Inv outgoing n done queue indegree
    → n < fuel + length done
    → (final : List ℕ) × Inv outgoing n
        (done ++ flatten (waves fuel outgoing queue indegree))
        []
        final
      × Respects outgoing n done (waves fuel outgoing queue indegree)
unfolding waves
waves-Inv outgoing n zero done queue indegree inv h = absurd (omega (arith, Inv-length inv))
waves-Inv outgoing n (suc fuel) done [] indegree inv h = (indegree, rw append-nil inv, tt)
waves-Inv outgoing n (suc fuel) done (i ∷ rest) indegree inv h =
    let after = relax_wave outgoing (i ∷ rest) indegree [] in
    let (final, end, respected) =
      waves-Inv outgoing n fuel (done ++ i ∷ rest) after.1 after.0 (Inv-step inv)
        (omega (arith, length-append done (i ∷ rest))) in
    (final, rw append_assoc at end, ((λ k j. Inv-ready inv k j), respected))

-- The first queue.
sources_before : (ds : List ℕ) (b j : ℕ) → j < b → count j (sources ds b) ≡ 0
unfolding sources
sources_before [] b j h = refl
sources_before (d ∷ ds) b j h = ground (arith, sources_before ds (b + 1) j)

count-sources : (ds : List ℕ) (b k : ℕ) → count (k + b) (sources ds b) ≡ is_zero (get_or ds k 1)
unfolding sources
count-sources [] b k = refl
count-sources (d ∷ ds) b zero = ground (arith, sources_before ds (b + 1) b)
count-sources (d ∷ ds) b (suc k) =
    let shift : suc k + b ≡ k + (b + 1) = omega arith in
    rw shift (ground (arith, count-sources ds (b + 1) k))

pub sources-Inv :
    (outgoing : List (List ℕ)) (n : ℕ) (indegree : List ℕ)
    → length indegree ≡ n
    → ((i : ℕ) → All (λ j. j < n) (get_or outgoing i []))
    → ((j : ℕ) → j < n → at indegree j ≡ total outgoing n j)
    → Inv outgoing n [] (sources indegree 0) indegree
sources-Inv outgoing n indegree sized inside counted = record {
  sized = sized;
  inside = inside;
  pending = λ j lt. omega (arith, counted j lt);
  marked = λ j. let here : j + 0 ≡ j = omega arith in rw here at (count-sources indegree 0 j);
}
