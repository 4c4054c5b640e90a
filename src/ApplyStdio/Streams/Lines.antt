-- ===== src/ApplyStdio/Streams/Lines.antt =====
-- What a run of output messages about one operation adds up to.
use Prim.Native.String.{◌++◌ as ◌<>◌}
use mathlib.Core.Path.{ap₂}
use text.Mathlib.TextLemmas.{append-nil, append_assoc}
use lusid.Base.{◌≡◌, refl, ◌∙◌, ap, String, some, List, [], ◌∷◌, map, ok}
use lusid.ApplyStdio.AppView.{
  operation_apply_stdout, operation_apply_stderr, operations_apply, ApplyData, Epochs, OpIndex,
  OperationView, push_stdout, push_stderr,
}
use lusid.ApplyStdio.Access.{run}
use lusid.ApplyStdio.Streams.{operation_at, prints, warns, update-Written}

-- The texts, each with a line break behind it.
abbrev pub lines : List String → String
lines [] = ""
lines (text ∷ texts) = (text <> "\n") <> lines texts

-- The texts as they come.
abbrev pub joined : List String → String
joined [] = ""
joined (text ∷ texts) = text <> joined texts

-- As many line breaks as there are texts.
abbrev pub breaks : List String → String
breaks [] = ""
breaks (text ∷ texts) = "\n" <> breaks texts

-- A run of messages for the standard output of an operation that there is, in the apply phase, is
-- accepted, and appends their texts to its output, each with a line break; the operation is
-- otherwise as it was.
pub run-stdout :
    (texts : List String) (d : ApplyData) (index : OpIndex) (op : OperationView)
    → operation_at d.operations_epochs index ≡ some op
    → (epochs : Epochs) × (run (map (operation_apply_stdout index) texts) (operations_apply d)
        ≡ ok (operations_apply (record d { operations_epochs = epochs })))
      × (operation_at epochs index ≡ some (record op { stdout = op.stdout <> lines texts }))
unfolding run push_stdout
run-stdout [] d index op h = (d.operations_epochs, refl, rw append-nil h)
run-stdout (text ∷ texts) d index op h =
    let (epochs, e, written) =
      update-Written d (operation_apply_stdout index text) index (push_stdout text) op
        (prints index text) h in
    let d' : ApplyData = record d { operations_epochs = epochs } in
    let (final, e', at_end) = run-stdout texts d' index (push_stdout text op) written.here in
    (
      final,
      rw e e',
      at_end ∙ ap (λ s. some (record op { stdout = s })) (regroup op.stdout text (lines texts)),
    )
  where
    regroup : (a t l : String) → ((a <> t) <> "\n") <> l ≡ a <> ((t <> "\n") <> l)
    regroup a t l = simp append_assoc

-- A run of messages for the standard error of an operation that there is, in the apply phase, is
-- accepted; it appends their texts to its error text with no line breaks, and a line break for
-- each to its standard output.
pub run-stderr :
    (texts : List String) (d : ApplyData) (index : OpIndex) (op : OperationView)
    → operation_at d.operations_epochs index ≡ some op
    → (epochs : Epochs) × (run (map (operation_apply_stderr index) texts) (operations_apply d)
        ≡ ok (operations_apply (record d { operations_epochs = epochs })))
      × (operation_at epochs index
          ≡ some (record op {
            stdout = op.stdout <> breaks texts;
            stderr = op.stderr <> joined texts;
          }))
unfolding run push_stderr
run-stderr [] d index op h =
    (d.operations_epochs, refl, rw (append-nil op.stdout, append-nil op.stderr) h)
run-stderr (text ∷ texts) d index op h =
    let (epochs, e, written) =
      update-Written d (operation_apply_stderr index text) index (push_stderr text) op
        (warns index text) h in
    let d' : ApplyData = record d { operations_epochs = epochs } in
    let (final, e', at_end) = run-stderr texts d' index (push_stderr text op) written.here in
    (
      final,
      rw e e',
      at_end
          ∙ ap₂ (λ s r. some (record op { stdout = s; stderr = r }))
              (append_assoc op.stdout "\n" (breaks texts))
              (append_assoc op.stderr text (joined texts)),
    )
