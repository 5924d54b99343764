-- ===== src/App/Recovery/Restore.antt =====
-- `RestoreRegistryBackup` of crates/colui-app/src/recovery.rs.
use colui.Prelude.{ℕ, Option, Result, ok}
use colui.Domain.Text.{Text}
use colui.Domain.AppError.{AppError}
use colui.Domain.Inventory.{Timestamp}
use colui.App.Profiles.Mutations.{RegistrySnapshot}
use colui.App.Traced.{TracedBy, asks, then_ask, releasing}

pub record RegistrySnapshotIdentity : Type 0 where
  pub registry_revision : ℕ
  pub canonical_content_sha256 : Text

pub data RegistryHealthState : Type 0 where
  healthy missing corrupt unreadable locked write_failure : RegistryHealthState

pub record RegistryHealth : Type 0 where
  pub state : RegistryHealthState
  pub identity : Option RegistrySnapshotIdentity
  pub error : Option AppError
  pub last_operation_at : Option Timestamp
  pub last_failure_at : Option Timestamp

pub data RecoveryCall : Type 0 where
  acquire_recovery restore_registry_backup invalidate_all drop_recovery : RecoveryCall

-- `RestoreRegistryBackup::execute`, given what the locks and the registry answer
unfoldable pub restore :
    Result AppError (Unit {0})
    → Result AppError RegistrySnapshot
    → TracedBy RecoveryCall RegistrySnapshot
restore guard restored = then_ask (asks acquire_recovery guard) (λ _. releasing drop_recovery (
    then_ask (asks restore_registry_backup restored)
      (λ snapshot. asks invalidate_all (ok snapshot))))
