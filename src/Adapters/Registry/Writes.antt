-- ===== src/Adapters/Registry/Writes.antt =====
-- crates/colui-adapters/src/registry/format.rs: how the registry writes files.
use colui.Prelude.{ℕ, ◌++◌, Option, none, some, String, Result, ok, err}
use colui.Domain.Text.{Text, Uuids, bytes}
use colui.Domain.FilePath.{FilePath, push, parent_absolute}
use colui.Domain.AppError.{
  AppError, app_error, with_details, registry_write_failed, permission_denied,
}
use colui.Adapters.Registry.Disk.{
  IoError, IoErrorKind, Disk, Step, touch, create_new, create, write_all, rename, remove_file,
}
use colui.Adapters.Registry.Frames.{pure_step, then_do, or_io}

module _ ⦃u : Uuids⦄ where
  abbrev pub write_error : String → String → AppError
  write_error operation error =
      with_details (app_error registry_write_failed operation none "registry persistence failed")
        error

  abbrev io_error_of : IoErrorKind → String → String → AppError
  io_error_of IoErrorKind.permission_denied operation text =
      with_details (app_error permission_denied operation none "registry persistence failed") text
  io_error_of _ operation text = write_error operation text

  abbrev pub io_error : String → IoError → AppError
  io_error operation e = io_error_of e.kind operation e.text

-- A step that is taken back by another when it fails, whatever becomes of that.
abbrev clean_up :
    {A : Type 0} → Result AppError A × Disk → Step IoError (Unit {0}) → Result AppError A × Disk
clean_up (ok a, d) m = (ok a, d)
clean_up (err e, d) m = (err e, (m d).1)

unfoldable pub or_clean_up :
    {A : Type 0} → Step AppError A → Step IoError (Unit {0}) → Step AppError A
or_clean_up m undo d = clean_up ((m d).0, (m d).1) undo

module _ ⦃u : Uuids⦄ where
  -- A new file with a content that has reached the disk.
  unfoldable pub write_synced :
      Step IoError (Unit {0}) → FilePath → Text → String → String → Step AppError (Unit {0})
  write_synced opening path content writing syncing =
      then_do (or_io opening (io_error writing)) (λ _.
        then_do (or_io (write_all path content) (io_error writing))
          (λ _. or_io touch (io_error syncing)))

  -- The temporary file takes the place of the file, and the directory is synced.
  unfoldable pub replace_synced :
      FilePath → FilePath → String → String → String → Step AppError (Unit {0})
  replace_synced temp path renaming opening syncing =
      then_do (or_io (rename temp path) (io_error renaming))
        (λ _. then_do (or_io touch (io_error opening)) (λ _. or_io touch (io_error syncing)))

  abbrev pub temp_of : FilePath → ℕ → FilePath
  temp_of parent uuid = push parent (bytes ".registry." ++ u.to_text uuid ++ bytes ".tmp")

  abbrev pub write_closure : FilePath → FilePath → Text → Step AppError (Unit {0})
  write_closure temp path content =
      then_do (write_synced (create_new temp) temp content "write_registry" "fsync_registry") (λ _.
        replace_synced temp path "rename_registry" "open_registry_directory"
          "fsync_registry_directory")

  abbrev write_below : Option FilePath → ℕ → FilePath → Text → Step AppError (Unit {0})
  write_below none uuid path content =
      pure_step
        (err (app_error registry_write_failed "write_registry" none "registry path has no parent"))
  write_below (some parent) uuid path content =
      then_do (or_io touch (io_error "create_registry_directory")) (λ _.
        or_clean_up (write_closure (temp_of parent uuid) path content)
          (remove_file (temp_of parent uuid)))

  -- `atomic_write`; the UUID is the one that the temporary file's name is given.
  unfoldable pub atomic_write : ℕ → FilePath → Text → Step AppError (Unit {0})
  atomic_write uuid path content = write_below (parent_absolute path) uuid path content

  abbrev pub backup_temp_of : FilePath → ℕ → FilePath
  backup_temp_of parent uuid = push parent (bytes ".backup." ++ u.to_text uuid ++ bytes ".tmp")

  abbrev pub backup_closure : FilePath → FilePath → Text → Step AppError (Unit {0})
  backup_closure temp path content =
      then_do
        (write_synced (create temp) temp content "backup_legacy_registry" "fsync_legacy_backup")
        (λ _.
          replace_synced temp path "rename_legacy_backup" "open_backup_directory"
            "fsync_backup_directory")

  abbrev backup_below : Option FilePath → ℕ → FilePath → Text → Step AppError (Unit {0})
  backup_below none uuid path content = pure_step (
      err
        (app_error registry_write_failed "backup_legacy_registry" none "backup path has no parent"))
  backup_below (some parent) uuid path content =
      then_do (or_io touch (io_error "create_backup_directory")) (λ _.
        or_clean_up (backup_closure (backup_temp_of parent uuid) path content)
          (remove_file (backup_temp_of parent uuid)))

  -- `atomic_backup`
  unfoldable pub atomic_backup : ℕ → FilePath → Text → Step AppError (Unit {0})
  atomic_backup uuid path content = backup_below (parent_absolute path) uuid path content
