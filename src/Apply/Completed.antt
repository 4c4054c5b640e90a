-- ===== src/Apply/Completed.antt =====
-- What a run without an error has done: every merged operation of every epoch, in order.
use lusid.Base.{
  ℕ, zero, suc, ◌≡◌, refl, ◌∙◌, sym, ap, Option, some, none, List, [], ◌∷◌, ◌++◌, append_assoc,
  append-nil, map, String, length, Result, ok, err, >>=-eq-ok, ok-injective, Eq, arith,
}
use lusid.Tree.Flat.{FlatTree, to_tree}
use lusid.Causality.{compute_epochs}
use lusid.Causality.Collect.{EpochError}
use lusid.Causality.Meta
use lusid.Operation.{Operation, merge}
use lusid.Plan.{PlanNodeId, PlanMeta}
use lusid.ApplyStdio.AppView.{
  AppUpdate, OpIndex, operations_apply_start, operation_apply_stdout, operation_apply_stderr,
  operation_apply_complete,
}
use lusid.Apply.{
  Machine, Outcome, Stream, stdout, stderr, Performed, refused, ran, emit, lift, drain, join,
  complete, run_operation, run_operations, run_epochs, on_epochs, apply_operations,
}

-- The operations that messages report as completed without an error.
unfoldable pub completions : List AppUpdate → List OpIndex
completions [] = []
completions (operation_apply_complete index none ∷ updates) = index ∷ completions updates
completions (_ ∷ updates) = completions updates

-- The indices of a number of operations of an epoch, from a place on, and of all epochs.
unfoldable pub places : ℕ → ℕ → ℕ → List OpIndex
places e o zero = []
places e o (suc n) = (e, o) ∷ places e (suc o) n

unfoldable pub indices : ℕ → List (List Operation) → List OpIndex
indices e [] = []
indices e (operations ∷ epochs) = places e 0 (length (merge operations)) ++ indices (suc e) epochs

completions-append :
    (first second : List AppUpdate)
    → completions (first ++ second) ≡ completions first ++ completions second
unfolding completions
completions-append [] second = refl
completions-append (operation_apply_complete index none ∷ first) second =
    ap (λ (is : List OpIndex). index ∷ is) (completions-append first second)
completions-append (operation_apply_complete index (some error) ∷ first) second =
    completions-append first second
completions-append (_ ∷ first) second = completions-append first second

module _ {E PlanId Params Resource State Change : Type 0}
    (machine : Machine E PlanId Params Resource State Change) where
  emit-ok :
      (u : AppUpdate) (emitted : List AppUpdate) {emitted' : List AppUpdate}
      → emit machine u emitted ≡ ok emitted'
      → completions emitted' ≡ completions emitted ++ completions (u ∷ [])
  unfolding emit
  emit-ok u emitted h = ground (arith, completions-append emitted (u ∷ []))

  -- Lines complete nothing.
  drain-ok :
      (index : OpIndex) (lines : List (Stream × String)) (emitted : List AppUpdate)
      {emitted' : List AppUpdate}
      → drain machine index lines emitted ≡ ok emitted'
      → completions emitted' ≡ completions emitted
  unfolding drain completions
  drain-ok index [] emitted h = ap completions (sym (ok-injective h))
  drain-ok index ((stdout, line) ∷ lines) emitted h =
      let (middle, first, rest) =
        >>=-eq-ok (emit machine (operation_apply_stdout index (machine.redact line)) emitted)
          (drain machine index lines) h in
      drain-ok index lines middle rest ∙ emit-ok _ emitted first ∙ append-nil (completions emitted)
  drain-ok index ((stderr, line) ∷ lines) emitted h =
      let (middle, first, rest) =
        >>=-eq-ok (emit machine (operation_apply_stderr index (machine.redact line)) emitted)
          (drain machine index lines) h in
      drain-ok index lines middle rest ∙ emit-ok _ emitted first ∙ append-nil (completions emitted)

  complete-ok :
      (index : OpIndex) (error : Option E) (drained : Outcome E (List AppUpdate))
      {emitted : List AppUpdate}
      → complete machine index (join machine error drained) ≡ ok emitted
      → (middle : List AppUpdate) × (drained ≡ ok middle)
        × (emit machine (operation_apply_complete index none) middle ≡ ok emitted)
  complete-ok index none (ok middle) h = (middle, refl, h)
  complete-ok index (some e) (ok middle) h =
      let (s, _, stopped) =
        >>=-eq-ok (emit machine (operation_apply_complete index (some (machine.describe e))) middle)
          (λ es. err (e, es)) h in
      absurd cc
  complete-ok index none (err (e, middle)) h =
      let (s, _, stopped) =
        >>=-eq-ok (emit machine (operation_apply_complete index (some (machine.describe e))) middle)
          (λ es. err (e, es)) h in
      absurd cc
  complete-ok index (some f) (err (e, middle)) h =
      let (s, _, stopped) =
        >>=-eq-ok (emit machine (operation_apply_complete index (some (machine.describe e))) middle)
          (λ es. err (e, es)) h in
      absurd cc

  run_operation_ran :
      (index : OpIndex) (operation : Operation) (emitted : List AppUpdate)
      {emitted' : List AppUpdate}
      → run_operation machine index operation emitted ≡ ok emitted'
      → (lines : List (Stream × String)) × (error : Option E) × (complete machine index
            (join machine error (drain machine index lines emitted))
          ≡ ok emitted')
  unfolding run_operation
  run_operation_ran index operation emitted {emitted'} h =
      let after : Performed E → Outcome E (List AppUpdate) = λ p. elim p [
        | refused e ↦ err (e, emitted)
        | ran lines error ↦
            complete machine index (join machine error (drain machine index lines emitted))
      ] in
      elim (machine.perform emitted operation)
          as (λ p.
            after p ≡ ok emitted'
            → (lines : List (Stream × String)) × (error : Option E) × (complete machine index
                  (join machine error (drain machine index lines emitted))
                ≡ ok emitted')) [
                  | refused e ↦ λ h'. absurd cc
                  | ran lines error ↦ λ h'. (lines, error, h')
                ]
        h

  run_operation-ok :
      (index : OpIndex) (operation : Operation) (emitted : List AppUpdate)
      {emitted' : List AppUpdate}
      → run_operation machine index operation emitted ≡ ok emitted'
      → completions emitted' ≡ completions emitted ++ index ∷ []
  unfolding completions
  run_operation-ok index operation emitted h =
      let (lines, error, completed) = run_operation_ran index operation emitted h in
      let (middle, drained, last) =
        complete-ok index error (drain machine index lines emitted) completed in
      emit-ok _ middle last ∙ ap (λ is. is ++ index ∷ []) (drain-ok index lines emitted drained)

  run_operations-ok :
      (e o : ℕ) (operations : List Operation) (emitted : List AppUpdate) {emitted' : List AppUpdate}
      → run_operations machine e o operations emitted ≡ ok emitted'
      → completions emitted' ≡ completions emitted ++ places e o (length operations)
  unfolding run_operations places
  run_operations-ok e o [] emitted h = ap completions (sym (ok-injective h)) ∙ sym (append-nil _)
  run_operations-ok e o (operation ∷ operations) emitted h =
      let (middle, first, rest) =
        >>=-eq-ok (run_operation machine (e, o) operation emitted)
          (run_operations machine e (suc o) operations) h in
      run_operations-ok e (suc o) operations middle rest
      ∙ ap (λ is. is ++ places e (suc o) (length operations))
          (run_operation-ok (e, o) operation emitted first)
      ∙ append_assoc (completions emitted) ((e, o) ∷ []) (places e (suc o) (length operations))

  run_epochs-ok :
      (e : ℕ) (epochs : List (List Operation)) (emitted : List AppUpdate)
      {emitted' : List AppUpdate}
      → run_epochs machine e epochs emitted ≡ ok emitted'
      → completions emitted' ≡ completions emitted ++ indices e epochs
  unfolding run_epochs indices
  run_epochs-ok e [] emitted h = ap completions (sym (ok-injective h)) ∙ sym (append-nil _)
  run_epochs-ok e (operations ∷ epochs) emitted h =
      let (middle, first, rest) =
        >>=-eq-ok (run_operations machine e 0 (merge operations) emitted)
          (run_epochs machine (suc e) epochs) h in
      run_epochs-ok (suc e) epochs middle rest
      ∙ ap (λ is. is ++ indices (suc e) epochs)
          (run_operations-ok e 0 (merge operations) emitted first)
      ∙ append_assoc (completions emitted) (places e 0 (length (merge operations)))
          (indices (suc e) epochs)

  on_epochs-ok :
      (found : Result (EpochError (PlanNodeId PlanId)) (List (List Operation)))
      (emitted : List AppUpdate) {epochs : List (List Operation)}
      → lift (on_epochs machine found) emitted ≡ ok epochs
      → found ≡ ok epochs
  on_epochs-ok (ok epochs) emitted h = cc
  on_epochs-ok (err e) emitted h = cc

  -- If the operations are run without an error, then the tree has epochs, and the operations
  -- reported as completed since are those of the epochs, each epoch merged, once each and in their
  -- order.
  pub apply_operations-completed :
      ⦃same : Eq (PlanNodeId PlanId)⦄ (operations : FlatTree (Option Operation) (PlanMeta PlanId))
      (emitted : List AppUpdate) {emitted' : List AppUpdate}
      → apply_operations machine operations emitted ≡ ok emitted'
      → (epochs : List (List Operation)) × (compute_epochs (to_tree Meta.default operations)
          ≡ ok epochs)
        × (completions emitted' ≡ completions emitted ++ indices 0 epochs)
  unfolding apply_operations completions
  apply_operations-completed operations emitted h =
      let found = compute_epochs (to_tree Meta.default operations) in
      let (epochs, scheduled, rest) = >>=-eq-ok (lift (on_epochs machine found) emitted) _ h in
      let (middle, first, ran_all) =
        >>=-eq-ok
          (emit machine (operations_apply_start (map (map machine.render_operation) epochs))
            emitted)
          (run_epochs machine 0 epochs) rest in
      (
        epochs,
        on_epochs-ok found emitted scheduled,
        run_epochs-ok 0 epochs middle ran_all
            ∙ ap (λ is. is ++ indices 0 epochs)
                (emit-ok _ emitted first ∙ append-nil (completions emitted)),
      )
