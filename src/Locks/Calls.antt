-- ===== src/Locks/Calls.antt =====
-- What a whole call of the lock manager does, against the steps of its critical sections
-- (crates/colui-adapters/src/operations.rs).
use colui.Prelude.{
  ◌≡◌, eq_self, ltb, sym, ◌∙◌, refl, arith, true, List, [], ◌∷◌, Result, ok, err, is_ok, nat_eq,
  list_eq, if◌then◌else◌,
}
use colui.Domain.Text.{Text, Uuids}
use colui.Domain.AppError.{AppError, ProfileId}
use colui.Domain.Inventory.{Timestamp}
use colui.App.Operations.{LifecycleOperation}
use colui.Locks.Guards.{Guard, ticket, count, guard_eq}
use colui.Locks.Guards
use colui.Locks.State.{LockState, FileAttempt, acquire_file}
use colui.Locks.Sections.{
  enter_shared, reserve_profile, enter_definition, enter_container, enter_recovery,
}
use colui.Locks.System.{
  System, after_lease, Event, enter, leave, reserve, define, contain, mutate, recover, unrecover,
  run, step,
}
use colui.Locks.Handlers.{
  Call, lifecycle, definition, container, mutation, recovery, call, acquire_shared,
  reserve_lifecycle, acquire_definition, acquire_container, acquire_mutation, acquire_recovery,
  then_call, definition_call, outcome, outcome-state,
}

module _ ⦃u : Uuids⦄ where
  -- A shared call enters, and goes on or leaves again as the file answers.
  abbrev shared_trace : LockState → FileAttempt → Event → List Event
  shared_trace s file e =
      if is_ok (enter_shared s).0
      then (if is_ok (acquire_file file) then enter ∷ e ∷ [] else enter ∷ leave ∷ [])
      else enter ∷ []

  abbrev recovery_trace : LockState → FileAttempt → List Event
  recovery_trace s file =
      if is_ok ((enter_recovery s).0)
      then (if is_ok (acquire_file file) then recover ∷ [] else recover ∷ unrecover ∷ [])
      else recover ∷ []

  abbrev pub trace : LockState → Call → List Event
  trace s (lifecycle id kind file now) = shared_trace s file (reserve id kind now)
  trace s (definition id file now) = shared_trace s file (define id now)
  trace s (container c file now) = shared_trace s file (contain c now)
  trace s (mutation file) = shared_trace s file mutate
  trace s (recovery file) = recovery_trace s file

  abbrev entered : System → LockState → System
  entered y s = record y { state = s; held = ticket ∷ y.held }

  newly_held : (g : Guard) (held : List Guard) → ltb 0 (count g (g ∷ held)) ≡ true
  unfolding count
  newly_held g held = rw (eq_self g) (ground arith)

  after_lease-state :
      {E A : Type 0} (y : System) (g : A → Guard) (r : Result E A × LockState)
      → (after_lease y g r).state ≡ r.1
  after_lease-state y g (ok a, s) = refl
  after_lease-state y g (err e, s) = refl

  entered-run :
      (y : System) (file : FileAttempt) (e : Event)
      (after : Result AppError (Unit {0}) × LockState → LockState)
      → ((s : LockState) → (step (entered y s) e).state ≡ after (ok tt, s))
      → ((e : AppError) (s : LockState) → after (err e, s) ≡ s)
      → (r : Result AppError (Unit {0}) × LockState) (a : Result AppError (Unit {0}))
      → enter_shared y.state ≡ r
      → acquire_file file ≡ a
      → (run y (shared_trace y.state file e)).state ≡ after (acquire_shared y.state file)
  unfolding run step acquire_shared
  entered-run y file e after good bad (ok _, s) (ok _) p q = rw (p, q) (rw p (good s))
  entered-run y file e after good bad (ok _, s) (err z) p q =
      rw (p, q) (rw p (rw (newly_held ticket y.held) (sym (bad z _))))
  entered-run y file e after good bad (err x, s) a p q = rw p (rw p (sym (bad x s)))

  after-reserve :
      (y : System) (s : LockState) (id : ProfileId) (kind : LifecycleOperation) (now : Timestamp)
      → (step (entered y s) (reserve id kind now)).state ≡ (reserve_profile s id kind now).1
  unfolding step
  after-reserve y s id kind now =
      rw (newly_held ticket y.held) (after_lease-state (entered y s) _ _)

  after-define :
      (y : System) (s : LockState) (id : ProfileId) (now : Timestamp)
      → (step (entered y s) (define id now)).state ≡ (enter_definition s id now).1
  unfolding step
  after-define y s id now = rw (newly_held ticket y.held) (after_lease-state (entered y s) _ _)

  after-contain :
      (y : System) (s : LockState) (c : Text) (now : Timestamp)
      → (step (entered y s) (contain c now)).state ≡ (enter_container s c now).1
  unfolding step
  after-contain y s c now = rw (newly_held ticket y.held) (after_lease-state (entered y s) _ _)

  after-mutate : (y : System) (s : LockState) → (step (entered y s) mutate).state ≡ s
  unfolding step
  after-mutate y s = rw (newly_held ticket y.held) refl

  recovery-run :
      (y : System) (file : FileAttempt) (r : Result AppError (Unit {0}) × LockState)
      (a : Result AppError (Unit {0}))
      → enter_recovery y.state ≡ r
      → acquire_file file ≡ a
      → (run y (recovery_trace y.state file)).state ≡ (acquire_recovery y.state file).1
  unfolding run step acquire_recovery
  recovery-run y file (ok _, s) (ok _) p q = rw (p, q) (rw p refl)
  recovery-run y file (ok _, s) (err z) p q =
      rw (p, q) (rw p (rw (newly_held Guards.recovery y.held) refl))
  recovery-run y file (err x, s) a p q = rw p (rw p refl)

  -- Every call is a schedule of the critical sections: the state that it leaves is the one that its
  -- trace leaves, which is one or two sections long.
  pub call-run : (y : System) (c : Call) → (run y (trace y.state c)).state ≡ (call y.state c).1
  unfolding call reserve_lifecycle acquire_definition acquire_container acquire_mutation
  call-run y (lifecycle id kind file now) =
      entered-run y file _ (λ r. (outcome (then_call r (λ s. reserve_profile s id kind now))).1)
        (λ s. after-reserve y s id kind now ∙ sym (outcome-state (reserve_profile s id kind now)))
        (λ e s. refl) _ _ refl refl
  call-run y (definition id file now) =
      entered-run y file _ (λ r. (outcome (definition_call id now r)).1)
        (λ s. after-define y s id now ∙ sym (outcome-state (enter_definition s id now)))
        (λ e s. refl) _ _ refl refl
  call-run y (container c file now) =
      entered-run y file _ (λ r. (outcome (then_call r (λ s. enter_container s c now))).1)
        (λ s. after-contain y s c now ∙ sym (outcome-state (enter_container s c now))) (λ e s. refl)
        _ _ refl refl
  call-run y (mutation file) =
      entered-run y file mutate (λ r. (outcome r).1) (λ s. after-mutate y s) (λ e s. refl) _ _ refl
        refl
  call-run y (recovery file) =
      rw (outcome-state (acquire_recovery y.state file)) (recovery-run y file _ _ refl refl)
