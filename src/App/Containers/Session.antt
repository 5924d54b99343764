-- ===== src/App/Containers/Session.antt =====
-- The checks that the operations of crates/colui-app/src/containers.rs share. An operation is run on
-- the answers that its services give, and yields its result with the calls that it makes.
use colui.Prelude.{
  ℕ, Bool, true, false, ◌&&◌, some, String, Result, ok, err, any, if◌then◌else◌, ◌==◌, nat_eq,
  list_eq, option_eq,
}
use colui.Domain.AppError.{AppError, for_subject, container_operation_failed, AppErrorSubjectKind}
use colui.Domain.Inventory.{ContainerId, RuntimeSessionId, RuntimeInventory, InventoryFreshness}
use colui.Domain.Runtime.{SessionContext}
use colui.App.Traced.{TracedBy, asks}

pub data ContainerAction : Type 0 where
  start stop restart : ContainerAction

-- The calls of the services, with the arguments that matter.
pub data ServiceCall : Type 0 where
  api_read_context current_inventory observation_marker : ServiceCall
  acquire_container drop_container : ContainerId → ServiceCall
  read_logs : ContainerId → RuntimeSessionId → ServiceCall
  run_container : ContainerId → ContainerAction → RuntimeSessionId → ServiceCall
  refresh_after : ℕ → ServiceCall

abbrev pub Traced : Type 0 → Type 0
Traced A = TracedBy ServiceCall A

abbrev pub container_operation_error : ContainerId → String → AppError
container_operation_error container_id message =
    for_subject container_operation_failed "container_action"
      (record { kind = AppErrorSubjectKind.container; id = container_id }) message

abbrev pub in_session : RuntimeSessionId → Result AppError SessionContext → Bool
in_session expected (ok context) = context.session_id == expected
in_session expected (err e) = false

-- `check_read_session`, which `RunContainerAction::check_session` repeats
abbrev pub check_session :
    ContainerId → RuntimeSessionId → Result AppError SessionContext → Traced (Unit {0})
check_session id expected context = asks api_read_context (
    if in_session expected context
    then ok tt
    else err (container_operation_error id "runtime session changed or unavailable"))

abbrev is_fresh : InventoryFreshness → Bool
is_fresh InventoryFreshness.fresh = true
is_fresh _ = false

abbrev pub is_current : RuntimeSessionId → RuntimeInventory → Bool
is_current expected inventory =
    inventory.has_snapshot
    && is_fresh inventory.freshness
    && inventory.runtime_session_id == some expected

abbrev pub lists_container : ContainerId → RuntimeInventory → Bool
lists_container id inventory = any (λ c. c.id == id) inventory.containers
