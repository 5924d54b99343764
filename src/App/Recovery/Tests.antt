-- ===== src/App/Recovery/Tests.antt =====
-- A restoration of crates/colui-app/src/recovery.rs.
use colui.Prelude.{[], Result, ok}
use colui.Domain.AppError.{AppError}
use colui.App.Profiles.Mutations.{RegistrySnapshot}

abbrev backup : RegistrySnapshot
backup = record { registry_revision = 3; profiles = [] }

abbrev guard : Result AppError (Unit {0})
guard = ok tt

abbrev restored : Result AppError RegistrySnapshot
restored = ok backup
