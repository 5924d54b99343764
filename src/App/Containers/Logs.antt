-- ===== src/App/Containers/Logs.antt =====
-- `ReadContainerLogs` of crates/colui-app/src/containers.rs.
use colui.Prelude.{ℕ, ◌≡◌, ◌↔◌, Bool, true, false, ◌&&◌, [], ◌∷◌, Result, ok, err, any, arith}
use colui.Domain.Text.{Text}
use colui.Domain.AppError.{AppError}
use colui.Domain.Inventory.{ContainerId, RuntimeSessionId, RuntimeInventory, Timestamp}
use colui.Domain.Runtime.{SessionContext}
use colui.App.Traced.{asks, then_ask, after_calls, or_error, require}
use colui.App.Containers.Session.{
  ServiceCall, api_read_context, current_inventory, read_logs, Traced, container_operation_error,
  check_session, in_session, is_current, lists_container,
}

pub record ContainerLogsRequest : Type 0 where
  pub container_id : ContainerId
  pub runtime_session_id : RuntimeSessionId

pub record ContainerLogs : Type 0 where
  pub container_id : ContainerId
  pub retained_bytes : ℕ
  pub truncated : Bool
  pub text : Text
  pub observed_at : Timestamp

pub record LogsAnswers : Type 0 where
  pub first_context : Result AppError SessionContext
  pub inventory : Result AppError RuntimeInventory
  pub second_context : Result AppError SessionContext
  pub logs : Result AppError ContainerLogs
  pub last_context : Result AppError SessionContext

abbrev pub container_logs_error : ContainerId → Bool → AppError
container_logs_error id retryable =
    record (container_operation_error id "container logs unavailable") {
      operation = "container_logs";
      retryable = retryable;
    }

abbrev logs_or_error : ContainerId → Result AppError ContainerLogs → Result AppError ContainerLogs
logs_or_error id (ok logs) = ok logs
logs_or_error id (err e) = err (container_logs_error id e.retryable)

-- `read_fresh_inventory`
abbrev pub read_fresh_inventory :
    ContainerId
    → RuntimeSessionId
    → Result AppError SessionContext
    → Result AppError RuntimeInventory
    → Traced RuntimeInventory
read_fresh_inventory id expected context inventory =
    then_ask (check_session id expected context) (λ _.
      then_ask
        (asks current_inventory
          (or_error inventory (container_operation_error id "container inventory unavailable")))
        (λ current.
          then_ask
            (require (is_current expected current)
              (container_operation_error id "fresh container observation required"))
            (λ _. (ok current, []))))

-- `ReadContainerLogs::execute`
unfoldable pub read_container_logs : ContainerLogsRequest → LogsAnswers → Traced ContainerLogs
read_container_logs request a =
    let id = request.container_id in
    let expected = request.runtime_session_id in
    then_ask (read_fresh_inventory id expected a.first_context a.inventory) (λ current.
      then_ask
        (require (lists_container id current)
          (container_operation_error id "container unavailable"))
        (λ _. then_ask (check_session id expected a.second_context) (λ _.
          let (result, calls) = asks (read_logs id expected) a.logs in
          after_calls calls (
            then_ask (check_session id expected a.last_context)
              (λ _. (logs_or_error id result, []))))))

abbrev shows_container : ContainerId → RuntimeSessionId → Result AppError RuntimeInventory → Bool
shows_container id expected (ok inventory) =
    is_current expected inventory && lists_container id inventory
shows_container id expected (err e) = false

abbrev pub is_read : ServiceCall → Bool
is_read (read_logs c s) = true
is_read _ = false

module _ (request : ContainerLogsRequest) (a : LogsAnswers) where
  abbrev pub may_read : Bool
  may_read =
      in_session request.runtime_session_id a.first_context
      && shows_container request.container_id request.runtime_session_id a.inventory
      && in_session request.runtime_session_id a.second_context

  -- Logs are asked for exactly when the session is the expected one before and after a current
  -- inventory of that session was seen to list the container. The calls are then, in this order: the
  -- session's check, the inventory, the session's check again, the read of that container's logs in
  -- that session, and the session's check once more. The logs are returned as they were read,
  -- exactly when the session is still the expected one at that last check.
  pub logs_of_session :
      (any is_read (read_container_logs request a).1 ≡ may_read)
      × (((read_container_logs request a).1
            ≡ api_read_context
              ∷ current_inventory
              ∷ api_read_context
              ∷ read_logs request.container_id request.runtime_session_id
              ∷ api_read_context
              ∷ [])
          ↔ (may_read ≡ true))
      × ((logs : ContainerLogs)
          → ((read_container_logs request a).0 ≡ ok logs) ↔ (
              (may_read && in_session request.runtime_session_id a.last_context ≡ true)
              × (a.logs ≡ ok logs)))
  unfolding read_container_logs
  logs_of_session = (ground arith, ground arith, λ logs. ground arith)
