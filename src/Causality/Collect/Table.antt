-- ===== src/Causality/Collect/Table.antt =====
-- The laws of the table `id_to_leaves`, and the bound on the indices that it holds.
use lusid.Base.{
  ℕ, ◌≤◌, ◌<◌, ◌≡◌, refl, some, List, [], ◌∷◌, ◌++◌, ite, arith, All, All-append, All-map, Eq,
  subst,
}
use mathlib.Core.Option
use mathlib.Core.Option.{some-injective}
use mathlib.Core.Logic.{if_pos, if_neg}
use lusid.Causality.Collect.{IdTable, lookup, insert, or_default, push_index, push_active}

-- All the leaf indices that a table holds are below `n`.
abbrev pub IsBounded : {NodeId : Type 0} → ℕ → IdTable NodeId → Type 0
IsBounded n [] = Unit
IsBounded n ((key, leaves) ∷ table) = All (λ j. j < n) leaves × IsBounded n table

module _ {NodeId : Type 0} ⦃e : Eq NodeId⦄ where
  pub lookup-insert :
      (id key : NodeId) (new : List ℕ) (table : IdTable NodeId)
      → lookup id (insert key new table) ≡ ite (e.dec key id) (some new) (lookup id table)
  unfolding lookup insert
  lookup-insert id key new [] = refl
  lookup-insert id key new ((k, leaves) ∷ table) = ground (arith, lookup-insert id key new table)

  pub lookup-or_default :
      (id key : NodeId) (table : IdTable NodeId)
      → lookup id (or_default key table)
        ≡ ite (e.dec key id) (some (Option.get_or (lookup id table) [])) (lookup id table)
  unfolding lookup or_default
  lookup-or_default id key [] = ground arith
  lookup-or_default id key ((k, leaves) ∷ table) = ground (arith, lookup-or_default id key table)

  pub lookup-push_index :
      (id key : NodeId) (index : ℕ) (table : IdTable NodeId)
      → lookup id (push_index index key table)
        ≡ ite
            (e.dec key id)
            (Option.map (λ leaves. leaves ++ index ∷ []) (lookup id table))
            (lookup id table)
  unfolding lookup push_index
  lookup-push_index id key index [] = ground arith
  lookup-push_index id key index ((k, leaves) ∷ table) =
      ground (arith, lookup-push_index id key index table)

  pub lookup-IsBounded :
      (n : ℕ) (id : NodeId) (table : IdTable NodeId) {leaves : List ℕ}
      → IsBounded n table
      → lookup id table ≡ some leaves
      → All (λ j. j < n) leaves
  unfolding lookup
  lookup-IsBounded n id [] h found = cc
  lookup-IsBounded n id ((k, leaves) ∷ table) h found = elim (e.dec k id) [
    | yes here ↦
        subst (All (λ j. j < n)) (some-injective leaves _ (rw (if_pos _ here) at found)) h.0
    | no other ↦ lookup-IsBounded n id table h.1 (rw (if_neg _ other) at found)
  ]

  pub insert-IsBounded :
      (n : ℕ) (id : NodeId) (new : List ℕ) (table : IdTable NodeId)
      → All (λ j. j < n) new
      → IsBounded n table
      → IsBounded n (insert id new table)
  unfolding insert
  insert-IsBounded n id new [] h b = (h, tt)
  insert-IsBounded n id new ((k, leaves) ∷ table) h b =
      ground (arith, insert-IsBounded n id new table h b.1)

  pub or_default-IsBounded :
      (n : ℕ) (id : NodeId) (table : IdTable NodeId)
      → IsBounded n table
      → IsBounded n (or_default id table)
  unfolding or_default
  or_default-IsBounded n id [] b = (tt, tt)
  or_default-IsBounded n id ((k, leaves) ∷ table) b =
      ground (arith, or_default-IsBounded n id table b.1)

  pub IsBounded-mono :
      (n m : ℕ) (table : IdTable NodeId) → n ≤ m → IsBounded n table → IsBounded m table
  IsBounded-mono n m [] le b = tt
  IsBounded-mono n m ((k, leaves) ∷ table) le b =
      (All-map _ _ leaves (λ j lt. omega arith) b.0, IsBounded-mono n m table le b.1)

  push_index-IsBounded :
      (n index : ℕ) (id : NodeId) (table : IdTable NodeId)
      → index < n
      → IsBounded n table
      → IsBounded n (push_index index id table)
  unfolding push_index
  push_index-IsBounded n index id [] lt b = tt
  push_index-IsBounded n index id ((k, leaves) ∷ table) lt b = ground (
    arith,
    push_index-IsBounded n index id table lt b.1,
    All-append (λ j. j < n) leaves (index ∷ []) b.0 (lt, tt),
  )

  pub push_active-IsBounded :
      (n index : ℕ) (ids : List NodeId) (table : IdTable NodeId)
      → index < n
      → IsBounded n table
      → IsBounded n (push_active index ids table)
  unfolding push_active
  push_active-IsBounded n index [] table lt b = b
  push_active-IsBounded n index (id ∷ ids) table lt b =
      push_active-IsBounded n index ids _ lt (push_index-IsBounded n index id table lt b)
