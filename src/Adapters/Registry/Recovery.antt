-- ===== src/Adapters/Registry/Recovery.antt =====
-- crates/colui-adapters/src/registry/format.rs: the backup of the registry and its restoring.
use colui.Prelude.{
  ℕ, not, List, [], ◌∷◌, Option, none, some, String, Result, ok, err, and_then, ok_or,
  if◌then◌else◌, checked_add_u64, leb, find, ◌==◌, list_eq, nat_eq,
}
use colui.Domain.Text.{Text, Uuids, bytes}
use colui.Domain.FilePath.{FilePath, with_extension_absolute}
use colui.Domain.AppError.{AppError, app_error, recovery_conflict}
use colui.Domain.Inventory.{Timestamp}
use colui.Domain.Profile.{ProjectProfile}
use colui.App.Profiles.Mutations.{RegistrySnapshot, has_id}
use colui.App.Recovery.Restore.{RegistrySnapshotIdentity}
use colui.Adapters.Registry.Disk.{IoError, IoErrorKind, Disk, Step, read, remove_file}
use colui.Adapters.Registry.Frames.{pure_step, then_do, or_io}
use colui.Adapters.Registry.Writes.{io_error, write_error, atomic_write}
use colui.Adapters.Registry.Format.{Serde, decode, identity}
use colui.Adapters.Registry.Lock.{RegistryConfig, LockAttempts, lock}
use colui.Adapters.Registry.Store.{RegistryHistory, record_result, write_changed}
use colui.Adapters.Registry.Artifacts.{preserve_canonical, prune_artifacts}

abbrev pub backup_path : RegistryConfig → FilePath
backup_path config = with_extension_absolute config.canonical_path (bytes "json.bak")

abbrev pub max : ℕ → ℕ → ℕ
max a b = if leb a b then b else a

module _ ⦃u : Uuids⦄ (s : Serde) (config : RegistryConfig) where
  unfoldable pub create_backup : LockAttempts → ℕ → Step AppError RegistrySnapshotIdentity
  create_backup attempts uuid = then_do (lock config attempts) (λ _.
      then_do (or_io (read config.canonical_path) (io_error "read_registry_backup_source"))
        (λ content. then_do (pure_step (decode s content)) (λ snapshot.
          then_do (atomic_write uuid (backup_path config) content)
            (λ _. pure_step (ok (identity s snapshot content))))))

  abbrev exhausted : String → AppError
  exhausted what = write_error "restore_registry_backup" what

  abbrev pub revision_of : Option ProjectProfile → ℕ
  revision_of none = 0
  revision_of (some p) = p.revision

  abbrev pub profiles_of : Option RegistrySnapshot → List ProjectProfile
  profiles_of none = []
  profiles_of (some snapshot) = snapshot.profiles

  -- The profiles that are restored, each with a revision above its own and the one it has in the
  -- registry.
  unfoldable pub advance_profiles :
      Option RegistrySnapshot → List ProjectProfile → Result AppError (List ProjectProfile)
  advance_profiles canonical [] = ok []
  advance_profiles canonical (p ∷ ps) =
      and_then
        (ok_or
          (checked_add_u64
            (max (revision_of (find (has_id p.id) (profiles_of canonical))) p.revision) 1)
          (exhausted "profile revision exhausted"))
        (λ r.
          and_then (advance_profiles canonical ps) (λ more. ok (record p { revision = r } ∷ more)))

  abbrev pub authority_revision : Option RegistrySnapshot → RegistrySnapshot → ℕ
  authority_revision none backup = backup.registry_revision
  authority_revision (some canonical) backup =
      max canonical.registry_revision backup.registry_revision

  unfoldable pub restored_of :
      Option RegistrySnapshot → RegistrySnapshot → Result AppError RegistrySnapshot
  unfolding advance_profiles
  restored_of canonical backup =
      and_then
        (ok_or (checked_add_u64 (authority_revision canonical backup) 1)
          (exhausted "registry revision exhausted"))
        (λ r.
          and_then (advance_profiles canonical backup.profiles)
            (λ ps. ok (record { registry_revision = r; profiles = ps })))

  -- The registry's file before the restoring: a missing one is no error.
  abbrev pub optional_of : IoErrorKind → IoError → Result AppError (Option Text)
  optional_of IoErrorKind.not_found e = ok none
  optional_of _ e = err (io_error "read_registry_for_restore" e)

  abbrev pub optional : Result IoError Text → Result AppError (Option Text)
  optional (ok content) = ok (some content)
  optional (err e) = optional_of e.kind e

  unfoldable pub read_optional : Step AppError (Option Text)
  read_optional d = let answer = read config.canonical_path d in (optional answer.0, answer.1)

  abbrev pub decoded : Option Text → Option RegistrySnapshot
  decoded none = none
  decoded (some content) = elim (decode s content) [ ok snapshot ↦ some snapshot | err e ↦ none ]

  abbrev pub preserve : Text → ℕ → Option Text → Step AppError (Option FilePath)
  preserve stamp uuid none = pure_step (ok none)
  preserve stamp uuid (some content) =
      then_do (preserve_canonical config stamp uuid content) (λ p. pure_step (ok (some p)))

  abbrev pub drop_artifact :
      Option FilePath
      → Result AppError RegistrySnapshot × Disk
      → Result AppError RegistrySnapshot × Disk
  drop_artifact none answer = answer
  drop_artifact (some p) (ok snapshot, d) = (ok snapshot, d)
  drop_artifact (some p) (err e, d) = (err e, (remove_file p d).1)

  -- The closure that writes the restored registry and reads it again.
  unfoldable pub replace_registry : ℕ → RegistrySnapshot → Step AppError RegistrySnapshot
  replace_registry uuid restored =
      write_changed s config uuid
        (write_error "verify_registry_restore" "registry changed during restore") restored

  abbrev pub replace_or_drop :
      ℕ → RegistrySnapshot → Option FilePath → Step AppError RegistrySnapshot
  replace_or_drop uuid restored artifact d =
      let answer = replace_registry uuid restored d in drop_artifact artifact (answer.0, answer.1)

  abbrev pub unchanged : Text → Text → Step AppError (Unit {0})
  unchanged initial locked = pure_step (
      if not (s.digest locked == s.digest initial)
      then err (
          app_error recovery_conflict "restore_registry_backup" none
            "registry backup changed during restore")
      else ok tt)

  -- The restoring under the lock, of the backup that was read before.
  abbrev pub restore_locked :
      Text → ℕ → ℕ → Text → RegistrySnapshot → Step AppError RegistrySnapshot
  restore_locked stamp artifact_uuid temp_uuid initial backup =
      then_do (or_io (read (backup_path config)) (io_error "reread_registry_backup")) (λ locked.
        then_do (unchanged initial locked) (λ _. then_do read_optional (λ canonical.
          then_do (pure_step (restored_of (decoded canonical) backup)) (λ restored.
            then_do (preserve stamp artifact_uuid canonical)
              (replace_or_drop temp_uuid restored)))))

  unfoldable pub restore_backup_attempt :
      LockAttempts → Text → ℕ → ℕ → Step AppError RegistrySnapshot
  unfolding read_optional restored_of replace_registry
  restore_backup_attempt attempts stamp artifact_uuid temp_uuid =
      then_do (or_io (read (backup_path config)) (io_error "read_registry_backup")) (λ initial.
        then_do (pure_step (decode s initial)) (λ backup.
          then_do (lock config attempts)
            (λ _. restore_locked stamp artifact_uuid temp_uuid initial backup)))

  abbrev pub both :
      Result AppError RegistrySnapshot
      → Result AppError (Unit {0})
      → Result AppError RegistrySnapshot
  both (err e) pruned = err e
  both (ok snapshot) (err e) = err e
  both (ok snapshot) (ok done) = ok snapshot

  unfoldable pub restore_backup : LockAttempts → Text → ℕ → ℕ → Step AppError RegistrySnapshot
  unfolding restore_backup_attempt
  restore_backup attempts stamp artifact_uuid temp_uuid d =
      let answer = restore_backup_attempt attempts stamp artifact_uuid temp_uuid d in
      let pruned = prune_artifacts config answer.1 in (both answer.0 pruned.0, pruned.1)

  abbrev forget : Result AppError RegistrySnapshot → Result AppError (Unit {0})
  forget (ok snapshot) = ok tt
  forget (err e) = err e

  -- `restore_registry_backup` of the trait `RegistryRecovery`, at a time
  unfoldable pub restore_recorded :
      LockAttempts
      → Text
      → ℕ
      → ℕ
      → Timestamp
      → Disk × RegistryHistory
      → Result AppError RegistrySnapshot × (Disk × RegistryHistory)
  unfolding restore_backup record_result
  restore_recorded attempts stamp artifact_uuid temp_uuid now (d, history) =
      let answer = restore_backup attempts stamp artifact_uuid temp_uuid d in
      (
        answer.0,
        (
          answer.1,
          record (record_result now answer.0 history) {
            last_recovery_result = some (forget answer.0);
          },
        ),
      )

  -- `create_registry_backup` of the trait
  unfoldable pub backup_recorded :
      LockAttempts
      → ℕ
      → Timestamp
      → Disk × RegistryHistory
      → Result AppError RegistrySnapshotIdentity × (Disk × RegistryHistory)
  unfolding create_backup record_result
  backup_recorded attempts uuid now (d, history) =
      let answer = create_backup attempts uuid d in
      (answer.0, (answer.1, record_result now answer.0 history))
