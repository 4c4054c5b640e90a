-- ===== src/Resource/Units.antt =====
-- The operations of a unit's change lead to a unit as asked, where `systemctl` does what its manual
-- says of a unit that can be enabled and that stays up once it is started.
use lusid.Base.{
  Bool, true, false, none, some, [], ◌∷◌, ◌++◌, String, ◌≡◌, ◌≢◌, refl, ◌∙◌, ap, subst, arith,
}
use lusid.Tree.{leaf}
use lusid.Operation.{systemd}
use lusid.Operation.Types.{SystemdOperation, enable, disable, start_unit, stop_unit}
use lusid.Resource.{Operations}
use lusid.Resource.Systemd.{
  SystemdResource, SystemdState, SystemdChange, systemd_change, systemd_operations, differing,
  enable_operations, active_operations,
}
use lusid.Resource.Settled.{systemd_change-none}

-- The verbs of `systemctl`, as far as their effect on the unit of the given name goes: each sets one
-- of the two, and leaves the other. `enable` and `disable` do so only for a unit that has an install
-- section and is not masked: `enable` does nothing to a static or an alias unit and `disable` refuses
-- it, though it counts as enabled. `start` does so only for a unit that is not masked and that stays
-- up.
pub record SystemdTools (name : String) : Type 0 where
  pub is_installable : Bool
  pub is_startable : Bool
  pub apply : SystemdOperation → SystemdState → SystemdState
  pub enables :
      is_installable ≡ true
      → (e a : Bool)
      → apply (enable name) (record { enabled = e; active = a })
        ≡ record { enabled = true; active = a }
  pub disables :
      is_installable ≡ true
      → (e a : Bool)
      → apply (disable name) (record { enabled = e; active = a })
        ≡ record { enabled = false; active = a }
  pub starts :
      is_startable ≡ true
      → (e a : Bool)
      → apply (start_unit name) (record { enabled = e; active = a })
        ≡ record { enabled = e; active = true }
  pub stops :
      (e a : Bool)
      → apply (stop_unit name) (record { enabled = e; active = a })
        ≡ record { enabled = e; active = false }

module _ {name : String} (tools : SystemdTools name) where
  -- The operations applied one after another; those of other families leave the unit alone.
  unfoldable pub apply_each : Operations → SystemdState → SystemdState
  apply_each [] state = state
  apply_each (leaf meta (systemd op) ∷ operations) state =
      apply_each operations (tools.apply op state)
  apply_each (_ ∷ operations) state = apply_each operations state

  enabling :
      (declared e a : Bool) (rest : Operations)
      → (e ≢ declared → tools.is_installable ≡ true)
      → apply_each
          (enable_operations name (differing declared e) ++ rest)
          (record { enabled = e; active = a })
        ≡ apply_each rest (record { enabled = declared; active = a })
  unfolding apply_each
  enabling true true a rest can = refl
  enabling false false a rest can = refl
  enabling true false a rest can = ap (apply_each rest) (tools.enables (can λ p. cc) false a)
  enabling false true a rest can = ap (apply_each rest) (tools.disables (can λ p. cc) true a)

  activating :
      (declared e a : Bool)
      → (a ≡ false → declared ≡ true → tools.is_startable ≡ true)
      → apply_each
          (active_operations name (differing declared a))
          (record { enabled = e; active = a })
        ≡ record { enabled = e; active = declared }
  unfolding apply_each
  activating true e true can = refl
  activating false e false can = refl
  activating true e false can = tools.starts (can refl refl) e false
  activating false e true can = tools.stops e true

change_of : SystemdResource → SystemdState → SystemdChange
change_of resource state = record {
  name = resource.name;
  enable = differing resource.enabled state.enabled;
  active = differing resource.active state.active;
}

found_change :
    (resource : SystemdResource) (state : SystemdState) {change : SystemdChange}
    → systemd_change resource state ≡ some change
    → change_of resource state ≡ change
unfolding systemd_change change_of
found_change resource state h = ground arith

module _ (resource : SystemdResource) (tools : SystemdTools resource.name) (state : SystemdState)
    (can_install : state.enabled ≢ resource.enabled → tools.is_installable ≡ true)
    (can_start : state.active ≡ false → resource.active ≡ true → tools.is_startable ≡ true) where
  operations_reach :
      apply_each tools (systemd_operations (change_of resource state)) state
      ≡ record { enabled = resource.enabled; active = resource.active }
  unfolding systemd_operations change_of
  operations_reach =
      enabling tools resource.enabled state.enabled state.active
        (active_operations resource.name (differing resource.active state.active)) can_install
      ∙ activating tools resource.active resource.enabled state.active can_start

  -- If a change is found for a unit, and the unit can be enabled and disabled if it is not enabled
  -- as asked, and can be started if it is to be, then after the operations of the change, applied
  -- one after another by a `systemctl` that keeps the laws of `SystemdTools` for the name of this
  -- unit, no change is found any more.
  pub systemd_operations-settle :
      {change : SystemdChange}
      → systemd_change resource state ≡ some change
      → systemd_change resource (apply_each tools (systemd_operations change) state) ≡ none
  systemd_operations-settle h =
      subst (λ c. systemd_change resource (apply_each tools (systemd_operations c) state) ≡ none)
        (found_change resource state h)
        ((systemd_change-none resource _).1 (
          ap (λ (s : SystemdState). s.enabled) operations_reach,
          ap (λ (s : SystemdState). s.active) operations_reach,
        ))
