-- ===== src/Apply/Running.antt =====
-- The epochs of merged operations: every message about an operation finds its slot in the epochs
-- that were announced.
use lusid.Base.{
  ℕ, suc, ◌+◌, ◌<◌, ◌≤◌, ◌≡◌, refl, ◌∙◌, sym, ap, subst, Option, some, none, List, [], ◌∷◌, ◌++◌,
  append_assoc, map, String, arith, length, length-set, one_more, get_elem?, get_elem?_total,
  get_elem?-map_source, get_elem?-append_length, map-set_same, set, ok, err, ◌>>=◌,
}
use lusid.Operation.{Operation, merge}
use lusid.Operation.Fewer.{length-merge}
use lusid.ApplyStdio.AppView.{
  AppUpdate, OperationView, ApplyData, Epochs, on_operation, with_operation, operations_apply,
  operation_apply_stdout, operation_apply_stderr, operation_apply_complete, push_stdout,
  push_stderr, finish, update, update_operations_apply,
}
use lusid.ApplyStdio.Phases.{phase}
use lusid.Apply.{
  Machine, Outcome, Write, written, unwritten, unflushed, Stream, stdout, stderr, Performed,
  refused, ran, emit, drain, join, complete, run_operation, run_operations, run_epochs,
}
use lusid.Apply.Shown.{Shows, Shows-more}

-- How many operations the view has in each epoch.
abbrev pub sizes : Epochs → List ℕ
sizes epochs = map length epochs

-- The view while operations run, with epochs of these sizes.
pub record AtApply (counts : List ℕ) (emitted : List AppUpdate) : Type 0 where
  pub view : ApplyData
  pub shows : Shows emitted (operations_apply view)
  pub sized : sizes view.operations_epochs ≡ counts

-- It holds when a part of the pipeline goes on, and when it stops.
abbrev pub Always : {E : Type 0} → (List AppUpdate → Type 0) → Outcome E (List AppUpdate) → Type 0
Always Q (ok emitted) = Q emitted
Always Q (err (e, emitted)) = Q emitted

Always-bind :
    {E : Type 0} (Q : List AppUpdate → Type 0) (m : Outcome E (List AppUpdate))
    (f : List AppUpdate → Outcome E (List AppUpdate))
    → Always Q m
    → ((emitted : List AppUpdate) → Q emitted → Always Q (f emitted))
    → Always Q (m >>= f)
Always-bind Q (ok emitted) f h k = k emitted h
Always-bind Q (err (e, emitted)) f h k = h

-- An operation that is there is written, and the sizes stay.
with_operation_total :
    (epochs : Epochs) (e o n : ℕ) (write : OperationView → OperationView)
    → get_elem? (sizes epochs) e ≡ some n
    → o < n
    → (epochs' : Epochs) × (with_operation epochs (e, o) write ≡ ok epochs')
      × (sizes epochs' ≡ sizes epochs)
unfolding with_operation
with_operation_total epochs e o n write here inside =
    let (epoch, found, long) = get_elem?-map_source length epochs e here in
    let (op, at) = get_elem?_total epoch o (omega arith) in
    (
      set epochs e (set epoch o (write op)),
      rw (found, at, with_operation) refl,
      map-set_same length epochs e (set epoch o (write op)) found (length-set epoch o (write op)),
    )

apply_open : (d : ApplyData) → phase (operations_apply d) ≤ 6
unfolding phase
apply_open d = omega arith

module _ {E PlanId Params Resource State Change : Type 0}
    (machine : Machine E PlanId Params Resource State Change) where
  emit-Always :
      (Q : List AppUpdate → Type 0) (u : AppUpdate) (emitted : List AppUpdate)
      → Q emitted
      → Q (emitted ++ u ∷ [])
      → Always Q (emit machine u emitted)
  unfolding emit
  emit-Always Q u emitted before after = fated (machine.write emitted u) refl
    where
      fated : (fate : Write E) → machine.write emitted u ≡ fate → Always Q (emit machine u emitted)
      fated written h = rw (h, emit) after
      fated (unwritten e) h = rw (h, emit) before
      fated (unflushed e) h = rw (h, emit) after

  -- A message that writes to an operation which is there.
  operation_message :
      (u : AppUpdate) (write : OperationView → OperationView) (counts : List ℕ) (e o n : ℕ)
      (emitted : List AppUpdate)
      → ((d : ApplyData) → update (operations_apply d) u ≡ on_operation d (e, o) write)
      → get_elem? counts e ≡ some n
      → o < n
      → AtApply counts emitted
      → Always (AtApply counts) (emit machine u emitted)
  operation_message u write counts e o n emitted about here inside at =
      let d = at.view in
      let (epochs, wrote, kept) =
        with_operation_total d.operations_epochs e o n write
          (ap (λ cs. get_elem? cs e) at.sized ∙ here) inside in
      emit-Always (AtApply counts) u emitted at (record {
        view = record d { operations_epochs = epochs };
        shows =
            Shows-more u at.shows
              (about d
                ∙ ap
                    (λ r. r >>= λ epochs'.
                      ok (operations_apply (record d { operations_epochs = epochs' })))
                    wrote)
              (apply_open _);
        sized = kept ∙ at.sized;
      })

  drain-AtApply :
      (counts : List ℕ) (e o n : ℕ) (lines : List (Stream × String)) (emitted : List AppUpdate)
      → get_elem? counts e ≡ some n
      → o < n
      → AtApply counts emitted
      → Always (AtApply counts) (drain machine (e, o) lines emitted)
  unfolding drain update update_operations_apply
  drain-AtApply counts e o n [] emitted here inside at = at
  drain-AtApply counts e o n ((stdout, line) ∷ lines) emitted here inside at =
      Always-bind (AtApply counts)
        (emit machine (operation_apply_stdout (e, o) (machine.redact line)) emitted)
        (drain machine (e, o) lines)
        (operation_message (operation_apply_stdout (e, o) (machine.redact line))
          (push_stdout (machine.redact line)) counts e o n emitted (λ d. refl) here inside at)
        (λ es h. drain-AtApply counts e o n lines es here inside h)
  drain-AtApply counts e o n ((stderr, line) ∷ lines) emitted here inside at =
      Always-bind (AtApply counts)
        (emit machine (operation_apply_stderr (e, o) (machine.redact line)) emitted)
        (drain machine (e, o) lines)
        (operation_message (operation_apply_stderr (e, o) (machine.redact line))
          (push_stderr (machine.redact line)) counts e o n emitted (λ d. refl) here inside at)
        (λ es h. drain-AtApply counts e o n lines es here inside h)

  join-AtApply :
      (Q : List AppUpdate → Type 0) (error : Option E) (m : Outcome E (List AppUpdate))
      → Always Q m
      → Always Q (join machine error m)
  join-AtApply Q none (ok emitted) h = h
  join-AtApply Q (some e) (ok emitted) h = h
  join-AtApply Q none (err (e, emitted)) h = h
  join-AtApply Q (some f) (err (e, emitted)) h = h

  complete-AtApply :
      (counts : List ℕ) (e o n : ℕ) (m : Outcome E (List AppUpdate))
      → get_elem? counts e ≡ some n
      → o < n
      → Always (AtApply counts) m
      → Always (AtApply counts) (complete machine (e, o) m)
  unfolding update update_operations_apply
  complete-AtApply counts e o n (ok emitted) here inside at =
      operation_message (operation_apply_complete (e, o) none) (finish none) counts e o n emitted
        (λ d. refl) here inside at
  complete-AtApply counts e o n (err (error, emitted)) here inside at =
      Always-bind (AtApply counts)
        (emit machine (operation_apply_complete (e, o) (some (machine.describe error))) emitted)
        (λ es. err (error, es))
        (operation_message (operation_apply_complete (e, o) (some (machine.describe error)))
          (finish (some (machine.describe error))) counts e o n emitted (λ d. refl) here inside at)
        (λ es h. h)

  run_operation-AtApply :
      (counts : List ℕ) (e o n : ℕ) (operation : Operation) (emitted : List AppUpdate)
      → get_elem? counts e ≡ some n
      → o < n
      → AtApply counts emitted
      → Always (AtApply counts) (run_operation machine (e, o) operation emitted)
  unfolding run_operation
  run_operation-AtApply counts e o n operation emitted here inside at =
      performed (machine.perform emitted operation) refl
    where
      performed :
          (outcome : Performed E)
          → machine.perform emitted operation ≡ outcome
          → Always (AtApply counts) (run_operation machine (e, o) operation emitted)
      performed (refused error) h = rw (h, run_operation) at
      performed (ran lines error) h =
          rw (h, run_operation)
            (complete-AtApply counts e o n (join machine error (drain machine (e, o) lines emitted))
              here inside
              (join-AtApply (AtApply counts) error (drain machine (e, o) lines emitted)
                (drain-AtApply counts e o n lines emitted here inside at)))

  run_operations-AtApply :
      (counts : List ℕ) (e o n : ℕ) (operations : List Operation) (emitted : List AppUpdate)
      → get_elem? counts e ≡ some n
      → o + length operations ≤ n
      → AtApply counts emitted
      → Always (AtApply counts) (run_operations machine e o operations emitted)
  unfolding run_operations
  run_operations-AtApply counts e o n [] emitted here inside at = at
  run_operations-AtApply counts e o n (operation ∷ operations) emitted here inside at =
      Always-bind (AtApply counts) (run_operation machine (e, o) operation emitted)
        (run_operations machine e (suc o) operations)
        (run_operation-AtApply counts e o n operation emitted here (omega arith) at)
        (λ es h. run_operations-AtApply counts e (suc o) n operations es here (omega arith) h)

  pub run_epochs-AtApply :
      (before : List ℕ) (epochs : List (List Operation)) (emitted : List AppUpdate)
      → AtApply (before ++ map length epochs) emitted
      → Always
          (AtApply (before ++ map length epochs))
          (run_epochs machine (length before) epochs emitted)
  unfolding run_epochs
  run_epochs-AtApply before [] emitted at = at
  run_epochs-AtApply before (operations ∷ epochs) emitted at =
      let counts = before ++ length operations ∷ map length epochs in
      Always-bind (AtApply counts)
        (run_operations machine (length before) 0 (merge operations) emitted)
        (run_epochs machine (suc (length before)) epochs)
        (run_operations-AtApply counts (length before) 0 (length operations) (merge operations)
          emitted (get_elem?-append_length before (length operations) (map length epochs))
          (omega (arith, length-merge operations)) at)
        (λ es h.
          one_more (λ k cs. Always (AtApply cs) (run_epochs machine k epochs es)) before
            (length operations) (map length epochs)
            (run_epochs-AtApply (before ++ length operations ∷ []) epochs es (
              subst (λ cs. AtApply cs es)
                (sym (append_assoc before (length operations ∷ []) (map length epochs))) h)))
