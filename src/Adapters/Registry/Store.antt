-- ===== src/Adapters/Registry/Store.antt =====
-- crates/colui-adapters/src/registry/format.rs: reading and changing the registry.
use colui.Prelude.{
  ℕ, not, [], Option, none, some, Result, ok, err, and_then, ok_or, if◌then◌else◌, checked_add_u64,
}
use colui.Domain.Text.{Text, Uuids}
use colui.Domain.AppError.{AppError, app_error, registry_write_failed}
use colui.Domain.Inventory.{Timestamp}
use colui.App.Profiles.Mutations.{RegistrySnapshot}
use colui.App.Recovery.Restore.{RegistrySnapshotIdentity}
use colui.Adapters.Registry.Disk.{IoError, IoErrorKind, Disk, Step, read}
use colui.Adapters.Registry.Frames.{pure_step, then_do}
use colui.Adapters.Registry.Writes.{io_error, atomic_write}
use colui.Domain.Profile.Equality.{profiles_eq}
use colui.Adapters.Registry.Format.{Serde, decode, encode, identity, validate_snapshot, snapshot_eq}
use colui.Adapters.Registry.Lock.{RegistryConfig, LockAttempts, lock}

pub record RegistryHistory : Type 0 where
  pub last_operation_at : Option Timestamp
  pub last_failure_at : Option Timestamp
  pub latest_failure : Option AppError
  pub last_recovery_result : Option (Result AppError (Unit {0}))

-- `record_result`
unfoldable pub record_result :
    {A : Type 0} → Timestamp → Result AppError A → RegistryHistory → RegistryHistory
record_result now (ok a) history = record history {
  last_operation_at = some now;
  latest_failure = none;
}
record_result now (err e) history = record history {
  last_operation_at = some now;
  last_failure_at = some now;
  latest_failure = some e;
}

abbrev pub empty_snapshot : RegistrySnapshot
empty_snapshot = record { registry_revision = 0; profiles = [] }

module _ ⦃u : Uuids⦄ (s : Serde) where
  abbrev unread : IoErrorKind → IoError → Result AppError RegistrySnapshot
  unread IoErrorKind.not_found e = ok empty_snapshot
  unread _ e = err (io_error "read_registry" e)

  abbrev pub loaded : Result IoError Text → Result AppError RegistrySnapshot
  loaded (ok content) = decode s content
  loaded (err e) = unread e.kind e

  unfoldable pub load_bytes : RegistryConfig → Step AppError RegistrySnapshot
  load_bytes config d = let answer = read config.canonical_path d in (loaded answer.0, answer.1)

  abbrev canonical_of :
      Result IoError Text → Result AppError (RegistrySnapshot × Option RegistrySnapshotIdentity)
  canonical_of (ok content) =
      and_then (decode s content) (λ snapshot. ok (snapshot, some (identity s snapshot content)))
  canonical_of (err e) = and_then (unread e.kind e) (λ snapshot. ok (snapshot, none))

  unfoldable pub load_canonical :
      RegistryConfig → Step AppError (RegistrySnapshot × Option RegistrySnapshotIdentity)
  load_canonical config d =
      let answer = read config.canonical_path d in (canonical_of answer.0, answer.1)

  abbrev pub reread_error : AppError
  reread_error =
      app_error registry_write_failed "reread_registry" none "registry changed during atomic write"

  abbrev pub verified :
      RegistrySnapshot → AppError → RegistrySnapshot → Step AppError RegistrySnapshot
  verified after e reread = pure_step (if not (snapshot_eq reread after) then err e else ok reread)

  -- A registry is written, and read again: another one than that is an error.
  abbrev pub write_changed :
      RegistryConfig → ℕ → AppError → RegistrySnapshot → Step AppError RegistrySnapshot
  write_changed config uuid e after = then_do (pure_step (encode s after)) (λ content.
      then_do (atomic_write uuid config.canonical_path content)
        (λ _. then_do (load_bytes config) (verified after e)))

  abbrev pub next_revision : ℕ → Result AppError ℕ
  next_revision persisted =
      ok_or (checked_add_u64 persisted 1)
        (app_error registry_write_failed "write_registry" none "registry revision exhausted")

  abbrev pub store :
      RegistryConfig
      → ℕ
      → RegistrySnapshot
      → RegistrySnapshot
      → RegistrySnapshot
      → Step AppError RegistrySnapshot
  store config uuid before original after =
      if profiles_eq after.profiles original.profiles
      then pure_step (ok (record after { registry_revision = before.registry_revision }))
      else then_do (pure_step (next_revision before.registry_revision))
          (λ r. write_changed config uuid reread_error (record after { registry_revision = r }))

  -- `mutate`, up to the record of its result
  unfoldable pub mutate :
      RegistryConfig
      → LockAttempts
      → ℕ
      → (RegistrySnapshot → Result AppError RegistrySnapshot)
      → Step AppError RegistrySnapshot
  mutate config attempts uuid mutation = then_do (lock config attempts) (λ _.
      then_do (load_bytes config) (λ before. then_do (pure_step (encode s before)) (λ original.
        then_do (pure_step (mutation before)) (λ after.
          then_do (pure_step (validate_snapshot after)) (λ _.
            then_do (pure_step (decode s original)) (λ o. store config uuid before o after))))))

  -- `mutate` of the trait `ProfileStore`, at a time
  unfoldable pub mutate_recorded :
      RegistryConfig
      → LockAttempts
      → ℕ
      → Timestamp
      → (RegistrySnapshot → Result AppError RegistrySnapshot)
      → Disk × RegistryHistory
      → Result AppError RegistrySnapshot × (Disk × RegistryHistory)
  unfolding mutate record_result
  mutate_recorded config attempts uuid now mutation (d, history) =
      let answer = mutate config attempts uuid mutation d in
      (answer.0, (answer.1, record_result now answer.0 history))
