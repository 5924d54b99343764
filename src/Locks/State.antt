-- ===== src/Locks/State.antt =====
-- The state of the lock manager in crates/colui-adapters/src/operations.rs.
use colui.Prelude.{ℕ, ◌+◌, ◌%◌, Bool, false, [], Option, none, String, Result, ok, err}
use colui.Prelude.Map.{Map}
use colui.Domain.Text.{Text, Uuids}
use colui.Domain.AppError.{
  AppError, ProfileId, app_error, with_details, operation_conflict, registry_write_failed,
  recovery_conflict,
}
use colui.Domain.Inventory.{Timestamp}
use colui.App.Operations.{LifecycleOperation}

pub data LifecycleLease : Type 0 where
  pending active : ℕ → LifecycleOperation → Timestamp → LifecycleLease

pub record DefinitionLease : Type 0 where
  pub token : ℕ
  pub started_at : Timestamp

-- `notify` is the permit that `Notify::notify_one` stores and `notified` takes.
pub record ProfileState : Type 0 where
  pub lifecycle : Option LifecycleLease
  pub definition : Option DefinitionLease
  pub notify : Bool

pub record BarrierState : Type 0 where
  pub shared : ℕ
  pub recovering : Bool
  pub containers : Map Text Timestamp

pub record LockState : Type 0 where
  pub profiles : Map ProfileId ProfileState
  pub barrier : BarrierState
  pub next_token : ℕ
  pub projection_generation : ℕ

-- `ProfileState::new`
abbrev pub new_profile : ProfileState
new_profile = record { lifecycle = none; definition = none; notify = false }

-- `OperationLockManager::new`
abbrev pub new_locks : LockState
new_locks = record {
  profiles = [];
  barrier = record { shared = 0; recovering = false; containers = [] };
  next_token = 0;
  projection_generation = 0;
}

-- `AtomicU64::fetch_add(1)` wraps around.
abbrev pub wrapping_inc : ℕ → ℕ
wrapping_inc n = (n + 1) % 18446744073709551616

abbrev pub bump_projection : LockState → LockState
bump_projection s = record s { projection_generation = wrapping_inc s.projection_generation }

abbrev pub with_barrier : LockState → BarrierState → LockState
with_barrier s b = record s { barrier = b }

-- What the operating system answers when the recovery file is opened and locked.
pub data IoOutcome : Type 0 where
  done : IoOutcome
  failed : String → IoOutcome

pub data LockOutcome : Type 0 where
  locked would_block : LockOutcome
  lock_failed : String → LockOutcome

pub record FileAttempt : Type 0 where
  pub create_dir_all : IoOutcome
  pub open_file : IoOutcome
  pub try_lock : LockOutcome

module _ ⦃u : Uuids⦄ where
  abbrev pub conflict : String → String → AppError
  conflict operation message = app_error operation_conflict operation none message

  abbrev pub recovery_io : String → AppError
  recovery_io error =
      with_details
        (app_error registry_write_failed "lock_registry_recovery" none
          "registry recovery lock failed")
        error

  abbrev locked_file : LockOutcome → Result AppError (Unit {0})
  locked_file locked = ok tt
  locked_file would_block =
      err
        (app_error recovery_conflict "lock_registry_recovery" none "registry recovery lock is busy")
  locked_file (lock_failed e) = err (recovery_io e)

  abbrev opened_file : IoOutcome → LockOutcome → Result AppError (Unit {0})
  opened_file done lock = locked_file lock
  opened_file (failed e) lock = err (recovery_io e)

  abbrev created_file : IoOutcome → IoOutcome → LockOutcome → Result AppError (Unit {0})
  created_file done opened lock = opened_file opened lock
  created_file (failed e) opened lock = err (recovery_io e)

  unfoldable pub acquire_file : FileAttempt → Result AppError (Unit {0})
  acquire_file a = created_file a.create_dir_all a.open_file a.try_lock
