-- ===== src/Adapters/Registry/Shown.antt =====
-- What is reported of the registry's file, and what its import leaves alone
-- (crates/colui-adapters/src/registry/format.rs).
use colui.Prelude.{
  ℕ, ◌≡◌, ◌≢◌, ◌↔◌, ◌∙◌, Bool, true, false, ◌&&◌, List, some, Result, ok, err, is_ok, arith,
  Result-cases, inl, inr, ◌==◌, list_eq, nat_eq,
}
use colui.Prelude.Map.{lookup}
use colui.Domain.Text.{Text, Uuids}
use colui.Domain.FilePath.{FilePath}
use colui.Domain.AppError.{AppError, AppErrorCode, registry_locked}
use colui.Domain.Inventory.{Timestamp}
use colui.Domain.Profile.{ProjectProfile}
use colui.App.Recovery.Restore.{RegistryHealthState}
use colui.Adapters.Registry.Disk.{IoError, IoErrorKind, Disk, read}
use colui.Adapters.Registry.Frames.{then_do, pure_step}
use colui.Adapters.Registry.Format.{Serde, decode}
use colui.Adapters.Registry.Lock.{RegistryConfig, LockAttempts, lock}
use colui.Adapters.Registry.Store.{RegistryHistory, record_result}
use colui.Adapters.Registry.Health.{
  registry_health, run_import, health_of, health_unread, failure_state,
}
use colui.Adapters.Registry.Mutated.{lock-Leaves}

failure_state-bad : (c : AppErrorCode) → failure_state c ≢ RegistryHealthState.healthy
failure_state-bad registry_locked h = cc
failure_state-bad _ h = cc

module _ ⦃u : Uuids⦄ (s : Serde) where
  -- Whether a content was read that is a registry.
  abbrev pub holds_registry : Result IoError Text → Bool
  holds_registry (ok content) = is_ok (decode s content)
  holds_registry (err e) = false

  health_unread-bad :
      (history : RegistryHistory) (k : IoErrorKind) (e : IoError)
      → (health_unread s history k e).state ≢ RegistryHealthState.healthy
  health_unread-bad history IoErrorKind.not_found e h = cc
  health_unread-bad history _ e h = cc

  health_of-healthy :
      {A : Type 0} (now : Timestamp) (result : Result AppError A) (history : RegistryHistory)
      (answer : Result IoError Text)
      → ((health_of s (record_result now result history) answer).state
          ≡ RegistryHealthState.healthy)
        ↔ ((is_ok result && holds_registry answer) ≡ true)
  unfolding record_result
  health_of-healthy now (ok a) history (ok content) = elim (Result-cases (decode s content)) [
    | inl (t, e) ↦ ground arith
    | inr (t, e) ↦ ground arith
  ]
  health_of-healthy now (err f) history (ok content) = elim (Result-cases (decode s content)) [
    | inl (t, e) ↦ ground (arith, failure_state-bad f.code)
    | inr (t, e) ↦ ground arith
  ]
  health_of-healthy now (ok a) history (err e) =
      ground (arith, health_unread-bad (record_result now (ok a) history) e.kind e)
  health_of-healthy now (err f) history (err e) =
      ground (arith, health_unread-bad (record_result now (err f) history) e.kind e)

  -- The registry is shown as healthy exactly when the last operation succeeded and its file can be
  -- read and holds a registry.
  pub healthy_iff :
      {A : Type 0} (config : RegistryConfig) (now : Timestamp) (result : Result AppError A)
      (history : RegistryHistory) (d : Disk)
      → ((registry_health s config (record_result now result history) d).0.state
          ≡ RegistryHealthState.healthy)
        ↔ ((is_ok result && holds_registry (read config.canonical_path d).0) ≡ true)
  unfolding registry_health
  healthy_iff config now result history d =
      health_of-healthy now result history (read config.canonical_path d).0

  -- The import of the first version's file never changes a registry that is there. Condition: the
  -- lock's file is another one.
  pub run_import-keeps :
      (config : RegistryConfig) (attempts : LockAttempts) (legacy backup : FilePath)
      (backup_uuid uuid : ℕ) (importer : Text → Result AppError (List ProjectProfile)) (d : Disk)
      (content : Text)
      → (config.lock_path == config.canonical_path) ≡ false
      → lookup config.canonical_path d.files ≡ some content
      → lookup config.canonical_path
          (run_import s config attempts legacy backup backup_uuid uuid importer d).1.files
        ≡ some content
  unfolding run_import then_do pure_step
  run_import-keeps config attempts legacy backup backup_uuid uuid importer d content apart h =
      let kept = lock-Leaves config.canonical_path config attempts apart d ∙ h in
      elim (Result-cases (lock config attempts d).0) [
        | inl (a, e) ↦ rw (e, kept) kept
        | inr (a, e) ↦ rw e kept
      ]
