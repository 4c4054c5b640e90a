-- ===== src/Causality/Kahn/Relax.antt =====
-- What one round does to the indegrees, and which nodes it puts into the next wave.
use lusid.Base.{
  ℕ, zero, suc, ◌+◌, ◌-◌, ◌≤◌, ◌<◌, ◌≡◌, refl, ◌∙◌, List, [], ◌∷◌, ◌++◌, arith, length, length-set,
  get_or, get_or-set, count, count-append, All, nat_eq, ◌==◌, if◌then◌else◌, set,
}
use lusid.Base.Sums.{sum_list}
use lusid.Causality.Kahn.{relax, relax_wave}

-- An entry of the indegrees. Out of range it reads 1, which no node waits on.
abbrev pub at : List ℕ → ℕ → ℕ
at indegree j = get_or indegree j 1

-- 1 if a node's indegree fell to 0 between two moments.
abbrev pub fell : ℕ → ℕ → ℕ
fell zero after = 0
fell (suc before) zero = 1
fell (suc before) (suc after) = 0

-- From `before` to `after`, the edges counted by `edges` were taken off and `next` gained just the
-- nodes that fell to 0.
pub record Round (before after next next' : List ℕ) (edges : ℕ → ℕ) : Type 0 where
  pub kept : length after ≡ length before
  pub taken : (j : ℕ) → at after j + edges j ≡ at before j
  pub pushed : (j : ℕ) → count j next' ≡ count j next + fell (at before j) (at after j)

pub relax-Round :
    (targets indegree next : List ℕ)
    → All (λ j. j < length indegree) targets
    → ((j : ℕ) → count j targets ≤ at indegree j)
    → Round indegree
        (relax targets indegree next).0
        next
        (relax targets indegree next).1
        (λ j. count j targets)
unfolding relax
relax-Round [] indegree next inside enough = record {
  kept = refl;
  taken = λ j. omega arith;
  pushed = λ j. ground arith;
}
relax-Round (j ∷ targets) indegree next inside enough =
    let d = at indegree j - 1 in
    let indegree' = set indegree j d in
    let r =
      relax-Round targets indegree' (if d == 0 then next ++ j ∷ [] else next)
        (rw (length-set indegree j d) inside.1)
        (λ k. ground (arith, enough k, enough j, get_or-set indegree j k d 1 inside.0)) in
    record {
      kept = r.kept ∙ length-set indegree j d;
      taken =
          λ k. ground (arith, r.taken k, enough k, enough j, get_or-set indegree j k d 1 inside.0);
      pushed = λ k. ground (
        arith,
        r.pushed k,
        r.taken k,
        enough k,
        enough j,
        get_or-set indegree j k d 1 inside.0,
        count-append k next (j ∷ []),
      );
    }

-- How many edges run from `i` to `j`, and from the nodes of a list to `j`.
abbrev pub edges : List (List ℕ) → ℕ → ℕ → ℕ
edges outgoing i j = count j (get_or outgoing i [])

abbrev pub into : List (List ℕ) → List ℕ → ℕ → ℕ
into outgoing wave j = sum_list wave (λ i. edges outgoing i j)

Round-trans :
    {a b c next next' next'' : List ℕ} (e f g : ℕ → ℕ)
    → Round a b next next' e
    → Round b c next' next'' f
    → ((j : ℕ) → g j ≡ e j + f j)
    → Round a c next next'' g
Round-trans e f g r s both = record {
  kept = s.kept ∙ r.kept;
  taken = λ j. omega (arith, r.taken j, s.taken j, both j);
  pushed = λ j. ground (arith, r.pushed j, s.pushed j, r.taken j, s.taken j);
}

pub relax_wave-Round :
    (outgoing : List (List ℕ)) (wave indegree next : List ℕ)
    → ((i : ℕ) → All (λ j. j < length indegree) (get_or outgoing i []))
    → ((j : ℕ) → into outgoing wave j ≤ at indegree j)
    → Round indegree
        (relax_wave outgoing wave indegree next).0
        next
        (relax_wave outgoing wave indegree next).1
        (into outgoing wave)
unfolding relax_wave
relax_wave-Round outgoing [] indegree next inside enough = record {
  kept = refl;
  taken = λ j. omega arith;
  pushed = λ j. ground arith;
}
relax_wave-Round outgoing (i ∷ wave) indegree next inside enough =
    let after = relax (get_or outgoing i []) indegree next in
    let first =
      relax-Round (get_or outgoing i []) indegree next (inside i) (λ j. omega (arith, enough j)) in
    Round-trans (edges outgoing i) (into outgoing wave) (into outgoing (i ∷ wave)) first
      (relax_wave-Round outgoing wave after.0 after.1 (λ k. rw first.kept (inside k))
        (λ j. omega (arith, enough j, first.taken j)))
      (λ j. refl)
