-- ===== src/ApplyStdio/Streams.antt =====
-- The live state of the operations: a message about one operation writes to it alone.
pub mod Lines
use mathlib.Core.Path.{ap₂}
use lusid.Base.{
  ℕ, ◌≡◌, ◌≢◌, String, Option, some, none, List, arith, ok, ◌>>=◌, sym, ℕ_discrete,
  get_elem?-set_self, get_elem?-set_ne, get_elem?, set,
}
use lusid.ApplyStdio.AppView.{
  AppUpdate, operation_apply_start, operation_apply_stdout, operation_apply_stderr,
  operation_apply_complete, operations_apply, ApplyData, Epochs, OpIndex, OperationView, update,
  update_operations_apply, with_operation, begin, push_stdout, push_stderr, finish,
}

-- The operation at an index.
abbrev pub operation_at : Epochs → OpIndex → Option OperationView
operation_at epochs (e, o) = elim (get_elem? epochs e) [
  | none ↦ none
  | some epoch ↦ get_elem? epoch o
]

-- What a write at one index makes of all the operations.
pub record Written (epochs epochs' : Epochs) (index : OpIndex) (op : OperationView) : Type 0 where
  pub here : operation_at epochs' index ≡ some op
  pub others :
      (other : OpIndex) → other ≢ index → operation_at epochs' other ≡ operation_at epochs other

module _ (epochs : Epochs) (write : OperationView → OperationView) where
  operation_at-epoch :
      (e o : ℕ) {op : OperationView}
      → operation_at epochs (e, o) ≡ some op
      → (epoch : List OperationView) × (get_elem? epochs e ≡ some epoch)
        × (get_elem? epoch o ≡ some op)
  operation_at-epoch e o h = ground arith

  operation_at-set_other :
      (e o : ℕ) (op : OperationView) (epoch : List OperationView) (other : OpIndex)
      → get_elem? epochs e ≡ some epoch
      → other ≢ (e, o)
      → operation_at (set epochs e (set epoch o op)) other ≡ operation_at epochs other
  operation_at-set_other e o op epoch (e', o') found differ = elim (ℕ_discrete e e') [
    | yes same ↦
        let apart : o ≢ o' = λ p. differ (ap₂ (λ (x y : ℕ). (x, y)) (sym same) (sym p)) in
        rw (← same) (
          ground (
            arith,
            found,
            get_elem?-set_self epochs e (set epoch o op) found,
            get_elem?-set_ne epoch o o' op apart,
          ))
    | no apart ↦ ground (arith, get_elem?-set_ne epochs e e' (set epoch o op) apart)
  ]

  with_operation-Written :
      (index : OpIndex) (op : OperationView)
      → operation_at epochs index ≡ some op
      → (epochs' : Epochs) × (with_operation epochs index write ≡ ok epochs')
        × Written epochs epochs' index (write op)
  unfolding with_operation
  with_operation-Written (e, o) op h =
      let (epoch, found, here) = operation_at-epoch e o h in
      (
        set epochs e (set epoch o (write op)),
        ground (arith, found, here),
        record {
          here = ground (
            arith,
            get_elem?-set_self epochs e (set epoch o (write op)) found,
            get_elem?-set_self epoch o (write op) here,
          );
          others = λ other differ. operation_at-set_other e o (write op) epoch other found differ;
        },
      )

-- The message about one operation, and what it writes.
pub data Writes : AppUpdate → OpIndex → (OperationView → OperationView) → Type 0 where
  starts : (index : OpIndex) → Writes (operation_apply_start index) index begin
  prints :
      (index : OpIndex) (text : String)
      → Writes (operation_apply_stdout index text) index (push_stdout text)
  warns :
      (index : OpIndex) (text : String)
      → Writes (operation_apply_stderr index text) index (push_stderr text)
  ends :
      (index : OpIndex) (error : Option String)
      → Writes (operation_apply_complete index error) index (finish error)

-- A message about an operation that there is, in the apply phase, is accepted; the operation
-- becomes what the message makes of it, every other operation stays, and so does the rest of the
-- view.
pub update-Written :
    (d : ApplyData) (u : AppUpdate) (index : OpIndex) (write : OperationView → OperationView)
    (op : OperationView)
    → Writes u index write
    → operation_at d.operations_epochs index ≡ some op
    → (epochs : Epochs) × (update (operations_apply d) u
        ≡ ok (operations_apply (record d { operations_epochs = epochs })))
      × Written d.operations_epochs epochs index (write op)
unfolding update update_operations_apply
update-Written d u index write op w h =
    let (epochs, wrote, written) = with_operation-Written d.operations_epochs write index op h in
    (epochs, by w wrote, written)
  where
    by :
        {v : AppUpdate} {i : OpIndex} {f : OperationView → OperationView} {es : Epochs}
        → Writes v i f
        → with_operation d.operations_epochs i f ≡ ok es
        → update (operations_apply d) v
          ≡ ok (operations_apply (record d { operations_epochs = es }))
    by (starts i) wrote = rw wrote
    by (prints i text) wrote = rw wrote
    by (warns i text) wrote = rw wrote
    by (ends i error) wrote = rw wrote
