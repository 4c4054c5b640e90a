-- ===== src/Resource/Checked.antt =====
-- What command.rs comes to: a command is run just if its check says that it is needed.
use lusid.Base.{
  Bool, true, false, not, Option, none, some, String, Result, ok, err, ◌>>=◌, ◌≡◌, ◌↔◌, refl, subst,
  if◌then◌else◌,
}
use lusid.Resource.Command.{
  CommandState, unknown, state_of, CommandParams, install, uninstall, CommandChange, run_install,
  run_uninstall, resource_of, command_state, command_change,
}

-- The check, if there is one, whether it is to succeed, and the command that makes it so.
abbrev pub check_of : CommandParams → Option String
check_of (install check text undo) = check
check_of (uninstall check redo text) = check

abbrev pub wants : CommandParams → Bool
wants (install check text undo) = true
wants (uninstall check redo text) = false

abbrev pub asked : CommandParams → CommandChange
asked (install check text undo) = run_install text
asked (uninstall check redo text) = run_uninstall text

module _ {ℓ} {Error : Type ℓ} (is_blank : String → Bool) (run : String → Result Error Bool) where
  -- `state`, and then `change`.
  unfoldable pub decide : CommandParams → Result Error (Option CommandChange)
  unfolding resource_of command_state command_change
  decide params = command_state is_blank run (resource_of params) >>= λ state.
      ok (command_change (resource_of params) state)

  -- A change is found where the check runs to the opposite of what is wanted.
  needed :
      (wanted blank : Bool) (found : Result Error Bool) (asked change : CommandChange)
      (at : CommandState → Option CommandChange)
      → at unknown ≡ none
      → at (state_of wanted) ≡ none
      → at (state_of (not wanted)) ≡ some asked
      → (((if blank then ok unknown else (found >>= λ success. ok (state_of success))) >>= λ state.
            ok (at state))
          ≡ ok (some change))
        ↔ ((asked ≡ change) × (blank ≡ false) × (found ≡ ok (not wanted)))
  needed wanted true found asked change at none_unknown idle busy =
      (λ h. absurd cc, λ (same, filled, runs). absurd cc)
  needed wanted false (err e) asked change at none_unknown idle busy =
      (λ h. absurd cc, λ (same, filled, runs). absurd cc)
  needed true false (ok true) asked change at none_unknown idle busy =
      (λ h. absurd cc, λ (same, filled, runs). absurd cc)
  needed true false (ok false) asked change at none_unknown idle busy =
      (λ h. (cc, refl, refl), λ (same, filled, runs). cc)
  needed false false (ok true) asked change at none_unknown idle busy =
      (λ h. (cc, refl, refl), λ (same, filled, runs). cc)
  needed false false (ok false) asked change at none_unknown idle busy =
      (λ h. absurd cc, λ (same, filled, runs). absurd cc)

  given :
      (params : CommandParams) (check : String) (change : CommandChange)
      → check_of params ≡ some check
      → (decide params ≡ ok (some change)) ↔ (
          (asked params ≡ change)
          × (is_blank check ≡ false)
          × (run check ≡ ok (not (wants params))))
  unfolding decide resource_of command_state command_change
  given (install none text undo) check change h = absurd cc
  given (install (some c) text undo) check change h =
      let same : c ≡ check = cc in
      subst
        (λ x.
          (decide (install (some c) text undo) ≡ ok (some change))
          ↔ ((run_install text ≡ change) × (is_blank x ≡ false) × (run x ≡ ok false)))
        same
        (needed true (is_blank c) (run c) (run_install text) change
          (command_change (resource_of (install (some c) text undo))) refl refl refl)
  given (uninstall none redo text) check change h = absurd cc
  given (uninstall (some c) redo text) check change h =
      let same : c ≡ check = cc in
      subst
        (λ x.
          (decide (uninstall (some c) redo text) ≡ ok (some change))
          ↔ ((run_uninstall text ≡ change) × (is_blank x ≡ false) × (run x ≡ ok true)))
        same
        (needed false (is_blank c) (run c) (run_uninstall text) change
          (command_change (resource_of (uninstall (some c) redo text))) refl refl refl)

  unchecked : (params : CommandParams) → check_of params ≡ none → decide params ≡ ok none
  unfolding decide resource_of command_state command_change
  unchecked (install none text undo) h = refl
  unchecked (install (some c) text undo) h = absurd cc
  unchecked (uninstall none redo text) h = refl
  unchecked (uninstall (some c) redo text) h = absurd cc

  checked :
      (params : CommandParams) (change : CommandChange) (check : Option String)
      → check_of params ≡ check
      → decide params ≡ ok (some change)
      → (c : String) × (check_of params ≡ some c)
  checked params change none is h = let e = unchecked params is in absurd cc
  checked params change (some c) is h = (c, is)

  -- A change is found for the params of a command if and only if it is the one that they ask for,
  -- and their check is given, is not blank, runs without an error and finds the opposite of what
  -- they want.
  pub decide-asked :
      (params : CommandParams) (change : CommandChange)
      → (decide params ≡ ok (some change)) ↔ (
          (asked params ≡ change)
          × (check : String) × (check_of params ≡ some check)
          × (is_blank check ≡ false)
          × (run check ≡ ok (not (wants params))))
  decide-asked params change = (
    λ h.
        let (check, is) = checked params change _ refl h in
        let (same, filled, runs) = (given params check change is).0 h in
        (same, check, is, filled, runs),
    λ (same, check, is, filled, runs). (given params check change is).1 (same, filled, runs),
  )
