-- ===== src/App/Operations.antt =====
-- The values of crates/colui-app/src/operations.rs and lifecycle.rs that name operations.

-- `LifecycleOperation`, also called `OperationKind`.
pub data LifecycleOperation : Type 0 where
  apply stop tear_down restart : LifecycleOperation

pub data DefinitionBusy : Type 0 where
  lifecycle_pending definition_active : DefinitionBusy
