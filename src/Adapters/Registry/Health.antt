-- ===== src/Adapters/Registry/Health.antt =====
-- crates/colui-adapters/src/registry/format.rs: what is shown of the registry's file and of its
-- backup, and the import of the first version's file.
use colui.Prelude.{
  ℕ, Bool, true, false, ◌||◌, List, [], Option, none, some, Result, ok, err, length, is_some,
  list_eq, nat_eq,
}
use colui.Prelude.Map.{lookup}
use colui.Domain.Text.{Text, Uuids}
use colui.Domain.FilePath.{FilePath}
use colui.Domain.AppError.{AppError, AppErrorCode, registry_locked}
use colui.Domain.Inventory.{Timestamp}
use colui.Domain.Profile.{ProjectProfile}
use colui.App.Profiles.Mutations.{RegistrySnapshot}
use colui.App.Recovery.Restore.{RegistryHealthState, RegistryHealth, RegistrySnapshotIdentity}
use colui.Adapters.Registry.Disk.{IoError, IoErrorKind, Disk, Step, read}
use colui.Adapters.Registry.Frames.{pure_step, then_do}
use colui.Adapters.Registry.Writes.{io_error, atomic_write, atomic_backup}
use colui.Adapters.Registry.Format.{Serde, decode, encode, identity}
use colui.Adapters.Registry.Lock.{RegistryConfig, LockAttempts, lock}
use colui.Adapters.Registry.Store.{RegistryHistory}

abbrev pub failure_state : AppErrorCode → RegistryHealthState
failure_state registry_locked = RegistryHealthState.locked
failure_state _ = RegistryHealthState.write_failure

abbrev history_state : Option AppError → RegistryHealthState
history_state none = RegistryHealthState.healthy
history_state (some e) = failure_state e.code

abbrev health :
    RegistryHealthState
    → Option RegistrySnapshotIdentity
    → Option AppError
    → RegistryHistory
    → RegistryHealth
health state shown error history = record {
  state = state;
  identity = shown;
  error = error;
  last_operation_at = history.last_operation_at;
  last_failure_at = history.last_failure_at;
}

pub data BackupValidationState : Type 0 where
  missing valid corrupt unreadable : BackupValidationState

pub record RegistryBackupDiagnostics : Type 0 where
  pub exists : Bool
  pub modified_at : Option Timestamp
  pub state : BackupValidationState
  pub error : Option AppError

pub data ImportResult : Type 0 where
  skipped : ImportResult
  imported : ℕ → ImportResult
  malformed : AppError → ImportResult

module _ ⦃u : Uuids⦄ (s : Serde) where
  abbrev pub health_of_content :
      RegistryHistory → Text → Result AppError RegistrySnapshot → RegistryHealth
  health_of_content history content (ok snapshot) =
      health (history_state history.latest_failure) (some (identity s snapshot content))
        history.latest_failure history
  health_of_content history content (err e) =
      health RegistryHealthState.corrupt none (some e) history

  abbrev pub health_unread : RegistryHistory → IoErrorKind → IoError → RegistryHealth
  health_unread history IoErrorKind.not_found e =
      health RegistryHealthState.missing none history.latest_failure history
  health_unread history _ e =
      health RegistryHealthState.unreadable none (some (io_error "read_registry_health" e)) history

  abbrev pub health_of : RegistryHistory → Result IoError Text → RegistryHealth
  health_of history (ok content) = health_of_content history content (decode s content)
  health_of history (err e) = health_unread history e.kind e

  unfoldable pub registry_health : RegistryConfig → RegistryHistory → Disk → RegistryHealth × Disk
  registry_health config history d =
      let answer = read config.canonical_path d in (health_of history answer.0, answer.1)

  abbrev backup_content : Result AppError RegistrySnapshot → BackupValidationState × Option AppError
  backup_content (ok snapshot) = (BackupValidationState.valid, none)
  backup_content (err e) = (BackupValidationState.corrupt, some e)

  abbrev backup_unread : IoErrorKind → IoError → BackupValidationState × Option AppError
  backup_unread IoErrorKind.not_found e = (BackupValidationState.missing, none)
  backup_unread _ e = (BackupValidationState.unreadable, some (io_error "read_registry_backup" e))

  abbrev backup_state : Result IoError Text → BackupValidationState × Option AppError
  backup_state (ok content) = backup_content (decode s content)
  backup_state (err e) = backup_unread e.kind e

  abbrev was_read : BackupValidationState → Bool
  was_read BackupValidationState.valid = true
  was_read BackupValidationState.corrupt = true
  was_read _ = false

  -- `backup_diagnostics`: the metadata are the time of the last change, if they can be had.
  unfoldable pub backup_diagnostics :
      FilePath → Option (Option Timestamp) → Disk → RegistryBackupDiagnostics × Disk
  backup_diagnostics path metadata d =
      let answer = read path d in
      let shown = backup_state answer.0 in
      (
        record {
          exists = is_some metadata || was_read shown.0;
          modified_at = elim metadata [ none ↦ none | some modified ↦ modified ];
          state = shown.0;
          error = shown.1;
        },
        answer.1,
      )

  abbrev write_snapshot : RegistryConfig → ℕ → RegistrySnapshot → Step AppError (Unit {0})
  write_snapshot config uuid snapshot =
      then_do (pure_step (encode s snapshot))
        (λ content. atomic_write uuid config.canonical_path content)

  -- The end of an import, with what the importer made of the old file.
  abbrev import_profiles :
      RegistryConfig → ℕ → Result AppError (List ProjectProfile) → Step AppError ImportResult
  import_profiles config uuid (ok ps) =
      then_do (write_snapshot config uuid (record { registry_revision = 1; profiles = ps }))
        (λ _. pure_step (ok (imported (length ps))))
  import_profiles config uuid (err e) =
      then_do (write_snapshot config uuid (record { registry_revision = 0; profiles = [] }))
        (λ _. pure_step (ok (malformed e)))

  abbrev import_unread : IoErrorKind → IoError → Step AppError ImportResult
  import_unread IoErrorKind.not_found e = pure_step (ok skipped)
  import_unread _ e = pure_step (err (io_error "read_legacy_registry" e))

  abbrev import_source :
      RegistryConfig
      → FilePath
      → ℕ
      → ℕ
      → (Text → Result AppError (List ProjectProfile))
      → Result IoError Text
      → Step AppError ImportResult
  import_source config backup_path backup_uuid uuid importer (ok source) =
      then_do (atomic_backup backup_uuid backup_path source)
        (λ _. import_profiles config uuid (importer source))
  import_source config backup_path backup_uuid uuid importer (err e) = import_unread e.kind e

  abbrev read_source :
      RegistryConfig
      → FilePath
      → FilePath
      → ℕ
      → ℕ
      → (Text → Result AppError (List ProjectProfile))
      → Step AppError ImportResult
  read_source config legacy_path backup_path backup_uuid uuid importer d =
      import_source config backup_path backup_uuid uuid importer (read legacy_path d).0
        (read legacy_path d).1

  abbrev import_unless :
      Bool
      → RegistryConfig
      → FilePath
      → FilePath
      → ℕ
      → ℕ
      → (Text → Result AppError (List ProjectProfile))
      → Step AppError ImportResult
  import_unless true config legacy_path backup_path backup_uuid uuid importer =
      pure_step (ok skipped)
  import_unless false config legacy_path backup_path backup_uuid uuid importer =
      read_source config legacy_path backup_path backup_uuid uuid importer

  unfoldable pub run_import :
      RegistryConfig
      → LockAttempts
      → FilePath
      → FilePath
      → ℕ
      → ℕ
      → (Text → Result AppError (List ProjectProfile))
      → Step AppError ImportResult
  run_import config attempts legacy_path backup_path backup_uuid uuid importer =
      then_do (lock config attempts) (λ _ d.
        import_unless (is_some (lookup config.canonical_path d.files)) config legacy_path
          backup_path backup_uuid uuid importer d)
