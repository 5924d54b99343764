-- ===== src/Adapters/Registry/Lock.antt =====
-- crates/colui-adapters/src/registry/format.rs: the registry's configuration and its lock file.
use colui.Prelude.{
  ℕ, ◌-◌, ◌*◌, ◌&&◌, List, [], ◌∷◌, Option, none, some, Result, ok, err, if◌then◌else◌, leb, nat_eq,
}
use colui.Domain.Text.{Uuids, bytes}
use colui.Domain.FilePath.{FilePath, push, parent_absolute}
use colui.Domain.AppError.{AppError, app_error, registry_locked, registry_write_failed}
use colui.Adapters.Registry.Disk.{IoError, Step, touch, open_or_create}
use colui.Adapters.Registry.Frames.{pure_step, then_do, or_io}
use colui.Adapters.Registry.Writes.{io_error}

-- Durations are counted in milliseconds.
pub record RegistryConfig : Type 0 where
  pub canonical_path : FilePath
  pub lock_path : FilePath
  pub lock_timeout : ℕ

unfoldable pub in_directory : FilePath → RegistryConfig
unfolding push
in_directory directory = record {
  canonical_path = push directory (bytes "registry.json");
  lock_path = push directory (bytes "registry.lock");
  lock_timeout = 5000;
}

-- How `try_lock_exclusive` answers, time after time: the lock is taken, or the call fails, or
-- another process holds it, with the time passed when it is read first and when it is read again.
pub data LockAttempts : Type 0 where
  acquires : LockAttempts
  fails : IoError → LockAttempts
  blocked : ℕ → ℕ → LockAttempts → LockAttempts

abbrev pub min : ℕ → ℕ → ℕ
min a b = if leb a b then a else b

module _ ⦃u : Uuids⦄ where
  unfoldable pub try_with_timeout : RegistryConfig → ℕ → Result AppError RegistryConfig
  try_with_timeout config timeout =
      if leb 5000 timeout && leb timeout 10000
      then ok (record config { lock_timeout = timeout })
      else err (
          app_error registry_write_failed "configure_registry_lock" none
            "registry lock timeout must be between five and ten seconds")

  abbrev pub is_locked : AppError
  is_locked = app_error registry_locked "lock_registry" none "registry is locked"

  -- The loop of `lock`, with the times that it sleeps.
  unfoldable pub lock_loop : ℕ → ℕ → LockAttempts → Result AppError (Unit {0}) × List ℕ
  lock_loop timeout delay acquires = (ok tt, [])
  lock_loop timeout delay (fails e) = (err (io_error "lock_registry" e), [])
  lock_loop timeout delay (blocked elapsed later more) =
      let rest = lock_loop timeout (min (delay * 2) 100) more in
      if leb timeout elapsed
      then (err is_locked, [])
      else (rest.0, min delay (timeout - later) ∷ rest.1)

  abbrev pub make_parent : Option FilePath → Step AppError (Unit {0})
  make_parent none = pure_step (ok tt)
  make_parent (some parent) = or_io touch (io_error "create_registry_directory")

  unfoldable pub lock : RegistryConfig → LockAttempts → Step AppError (Unit {0})
  lock config attempts = then_do (make_parent (parent_absolute config.lock_path)) (λ _.
      then_do (or_io (open_or_create config.lock_path) (io_error "open_registry_lock"))
        (λ _. pure_step (lock_loop config.lock_timeout 5 attempts).0))
