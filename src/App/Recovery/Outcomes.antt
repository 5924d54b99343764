-- ===== src/App/Recovery/Outcomes.antt =====
-- When the definitions are invalidated (crates/colui-app/src/recovery.rs).
use colui.Prelude.{◌≡◌, Bool, true, false, ◌&&◌, Result, is_ok, any, arith}
use colui.Domain.AppError.{AppError}
use colui.App.Profiles.Mutations.{RegistrySnapshot}
use colui.App.Recovery.Restore.{
  RecoveryCall, restore_registry_backup, invalidate_all, drop_recovery, restore,
}

abbrev pub is_restore : RecoveryCall → Bool
is_restore restore_registry_backup = true
is_restore _ = false

abbrev pub is_invalidate : RecoveryCall → Bool
is_invalidate invalidate_all = true
is_invalidate _ = false

abbrev pub is_drop : RecoveryCall → Bool
is_drop drop_recovery = true
is_drop _ = false

-- The backup is restored exactly under a recovery guard, which is always dropped, and the loaded
-- definitions are invalidated exactly when the restoration succeeds, which is what is reported.
pub restore-invalidates :
    (guard : Result AppError (Unit {0})) (restored : Result AppError RegistrySnapshot)
    → (any is_restore (restore guard restored).1 ≡ is_ok guard)
      × (any is_drop (restore guard restored).1 ≡ is_ok guard)
      × (any is_invalidate (restore guard restored).1 ≡ (is_ok guard && is_ok restored))
      × (is_ok (restore guard restored).0 ≡ (is_ok guard && is_ok restored))
unfolding restore
restore-invalidates guard restored = ground arith
