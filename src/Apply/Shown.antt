-- ===== src/Apply/Shown.antt =====
-- What a reader of the messages knows at each point of the pipeline: the view that they fold into.
use lusid.Base.{
  ◌≤◌, ◌≡◌, refl, ◌∙◌, sym, ap, List, [], ◌∷◌, ◌++◌, Result, ok, err, ◌>>=◌, >>=-congruent,
  >>=-assoc,
}
use lusid.ApplyStdio.FlatView
use lusid.ApplyStdio.FlatView.{FlatViewTree}
use lusid.ApplyStdio.AppView.{
  AppUpdate, AppView, StatesData, ChangesData, OperationsData, resources, resource_states,
  resource_changes, operations, start, update,
}
use lusid.ApplyStdio.Access.{run}
use lusid.ApplyStdio.Phases.{phase}
use lusid.Apply.{Machine, written, unwritten, unflushed, Write, Outcome, emit, lift}

run-append :
    (first second : List AppUpdate) (view : AppView)
    → run (first ++ second) view ≡ (run first view >>= run second)
unfolding run
run-append [] second view = refl
run-append (u ∷ first) second view =
    >>=-congruent (update view u) (run (first ++ second)) (λ v. run first v >>= run second)
      (run-append first second)
    ∙ sym (>>=-assoc (update view u) (run first) (run second))

-- The messages fold into a view that is not done.
pub record Shows (emitted : List AppUpdate) (view : AppView) : Type 0 where
  pub folded : run emitted start ≡ ok view
  pub open_still : phase view ≤ 6

-- The views of the phases, over the arena that comes in.
abbrev pub at_resources : FlatViewTree → FlatView.Nodes → AppView
at_resources params views =
    resources (record { resource_params = params; resources = record { nodes = views } })

abbrev pub at_states : StatesData → FlatView.Nodes → AppView
at_states base views = resource_states (record base { resource_states = record { nodes = views } })

abbrev pub at_changes : ChangesData → FlatView.Nodes → AppView
at_changes base views =
    resource_changes (record base { resource_changes = record { nodes = views } })

abbrev pub at_operations : OperationsData → FlatViewTree → AppView
at_operations base t = operations (record base { operations_tree = t })

-- What holds of a part of the pipeline: it goes on with `Q`, or it stops, and what was emitted so
-- far can be folded.
abbrev pub Ends {ℓ} : {E : Type 0} {X : Type ℓ} → (X → Type 0) → Outcome E X → Type 0
Ends Q (ok x) = Q x
Ends Q (err (e, emitted)) = (view : AppView) × Shows emitted view

pub Ends-bind {ℓ μ} :
    {E : Type 0} {X : Type ℓ} {Y : Type μ} (P : X → Type 0) (Q : Y → Type 0) (m : Outcome E X)
    (f : X → Outcome E Y)
    → Ends P m
    → ((x : X) → P x → Ends Q (f x))
    → Ends Q (m >>= f)
Ends-bind P Q (ok x) f h k = k x h
Ends-bind P Q (err (e, emitted)) f h k = h

pub Ends-lift {ℓ} :
    {E : Type 0} {X : Type ℓ} (Q : X → Type 0) (result : Result E X) {emitted : List AppUpdate}
    {view : AppView}
    → Shows emitted view
    → ((x : X) → result ≡ ok x → Q x)
    → Ends Q (lift result emitted)
Ends-lift Q (ok x) shows q = q x refl
Ends-lift Q (err e) {view = view} shows q = (view, shows)

-- One message more.
pub Shows-more :
    (u : AppUpdate) {emitted : List AppUpdate} {view view' : AppView}
    → Shows emitted view
    → update view u ≡ ok view'
    → phase view' ≤ 6
    → Shows (emitted ++ u ∷ []) view'
unfolding run
Shows-more u {emitted} shows accepted still = record {
  folded =
      run-append emitted (u ∷ []) start
      ∙ ap (λ r. r >>= run (u ∷ [])) shows.folded
      ∙ ap (λ r. r >>= run []) accepted;
  open_still = still;
}

module _ {E PlanId Params Resource State Change : Type 0}
    (machine : Machine E PlanId Params Resource State Change) where
  emitted_as :
      (u : AppUpdate) (emitted : List AppUpdate) {view view' : AppView} (fate : Write E)
      → machine.write emitted u ≡ fate
      → Shows emitted view
      → Shows (emitted ++ u ∷ []) view'
      → Ends (λ emitted'. Shows emitted' view') (emit machine u emitted)
  unfolding emit
  emitted_as u emitted written h before after = rw (h, emit) after
  emitted_as u emitted {view} (unwritten e) h before after = rw (h, emit) (view, before)
  emitted_as u emitted {view' = view'} (unflushed e) h before after = rw (h, emit) (view', after)

  -- A message that the view accepts may be emitted.
  pub emit-Shows :
      (u : AppUpdate) {emitted : List AppUpdate} {view view' : AppView}
      → Shows emitted view
      → update view u ≡ ok view'
      → phase view' ≤ 6
      → Ends (λ emitted'. Shows emitted' view') (emit machine u emitted)
  emit-Shows u {emitted} shows accepted still =
      emitted_as u emitted (machine.write emitted u) refl shows (Shows-more u shows accepted still)
