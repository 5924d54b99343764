-- ===== src/Locks/Handlers.antt =====
-- The calls of the lock manager (crates/colui-adapters/src/operations.rs), composed of their
-- critical sections and of the attempt to lock the recovery file.
use colui.Prelude.{
  ℕ, ◌≡◌, refl, Bool, false, ◌||◌, none, some, Result, ok, err, is_ok, nat_eq, is_some,
}
use colui.Prelude.Map.{lookup}
use colui.Domain.Text.{Text, Uuids}
use colui.Domain.AppError.{AppError, ProfileId}
use colui.Domain.Inventory.{Timestamp}
use colui.App.Operations.{LifecycleOperation, DefinitionBusy, lifecycle_pending}
use colui.Locks.State.{LockState, FileAttempt, acquire_file}
use colui.Locks.Sections.{
  enter_shared, release_shared, reserve_profile, enter_definition, enter_container, enter_recovery,
  release_recovery,
}

-- What follows the first section, given how the file answered.
abbrev keep_or : {E A : Type 0} → Result E A → LockState → LockState → Result E A × LockState
keep_or (ok a) kept undone = (ok a, kept)
keep_or (err e) kept undone = (err e, undone)

-- `?` in a function that changes the state.
abbrev pub then_call :
    {E A B : Type 0}
    → Result E A × LockState
    → (LockState → Result E B × LockState)
    → Result E B × LockState
then_call (ok a, s) f = f s
then_call (err e, s) f = (err e, s)

module _ ⦃u : Uuids⦄ where
  unfoldable pub acquire_shared : LockState → FileAttempt → Result AppError (Unit {0}) × LockState
  acquire_shared s file =
      then_call (enter_shared s) (λ s. keep_or (acquire_file file) s (release_shared s))

  unfoldable pub reserve_lifecycle :
      LockState
      → ProfileId
      → LifecycleOperation
      → FileAttempt
      → Timestamp
      → Result AppError ℕ × LockState
  reserve_lifecycle s id kind file now =
      then_call (acquire_shared s file) (λ s. reserve_profile s id kind now)

  -- The failure to enter becomes `LifecyclePending`.
  abbrev pub definition_call :
      ProfileId
      → Timestamp
      → Result AppError (Unit {0}) × LockState
      → Result DefinitionBusy ℕ × LockState
  definition_call id now (ok entered, s) = enter_definition s id now
  definition_call id now (err e, s) = (err lifecycle_pending, s)

  unfoldable pub acquire_definition :
      LockState → ProfileId → FileAttempt → Timestamp → Result DefinitionBusy ℕ × LockState
  acquire_definition s id file now = definition_call id now (acquire_shared s file)

  unfoldable pub acquire_container :
      LockState → Text → FileAttempt → Timestamp → Result AppError (Unit {0}) × LockState
  acquire_container s container_id file now =
      then_call (acquire_shared s file) (λ s. enter_container s container_id now)

  unfoldable pub acquire_mutation : LockState → FileAttempt → Result AppError (Unit {0}) × LockState
  unfolding acquire_shared
  acquire_mutation s file = acquire_shared s file

  unfoldable pub acquire_recovery : LockState → FileAttempt → Result AppError (Unit {0}) × LockState
  acquire_recovery s file =
      then_call (enter_recovery s) (λ s. keep_or (acquire_file file) s (release_recovery s))

-- `OperationLockReader::is_busy`
unfoldable pub is_busy : LockState → ProfileId → Bool
is_busy s id = elim (lookup id s.profiles) [
  | none ↦ false
  | some profile ↦ is_some profile.lifecycle || is_some profile.definition
]

-- The calls as data, with whether each is accepted and the state that it leaves.
pub data Call : Type 0 where
  lifecycle : ProfileId → LifecycleOperation → FileAttempt → Timestamp → Call
  definition : ProfileId → FileAttempt → Timestamp → Call
  container : Text → FileAttempt → Timestamp → Call
  mutation recovery : FileAttempt → Call

abbrev pub outcome : {E A : Type 0} → Result E A × LockState → Bool × LockState
outcome (r, s) = (is_ok r, s)

pub outcome-state : {E A : Type 0} (r : Result E A × LockState) → (outcome r).1 ≡ r.1
outcome-state (r, s) = refl

module _ ⦃u : Uuids⦄ where
  unfoldable pub call : LockState → Call → Bool × LockState
  call s (lifecycle id kind file now) = outcome (reserve_lifecycle s id kind file now)
  call s (definition id file now) = outcome (acquire_definition s id file now)
  call s (container c file now) = outcome (acquire_container s c file now)
  call s (mutation file) = outcome (acquire_mutation s file)
  call s (recovery file) = outcome (acquire_recovery s file)
