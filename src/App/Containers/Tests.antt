-- ===== src/App/Containers/Tests.antt =====
-- Container operations of crates/colui-app/src/containers.rs on concrete answers.
use colui.Prelude.{
  ◌≡◌, ◌↔◌, ◌++◌, ◌-◌, ◌&&◌, true, false, [], ◌∷◌, none, some, ok, err, any, length, drop, ltb,
}
use colui.Domain.Text.{Text, bytes}
use colui.Domain.AppError.{AppError}
use colui.Domain.Inventory.{
  RuntimeInventory, inventory_unavailable, InventoryFreshness, ContainerState, ContainerInstance,
}
use colui.Domain.Runtime.{SessionContext}
use colui.App.Containers.Session.{
  restart, api_read_context, acquire_container, current_inventory, run_container, drop_container,
  read_logs, container_operation_error, in_session,
}
use colui.App.Containers.LogRing.{capacity, new_ring, push_all}
use colui.App.Containers.LogStream.{joined, push_all-keeps_end}
use colui.App.Containers.Action.{
  ActionAnswers, ContainerActionResult, run_container_action, indeterminate_after_session_change,
}
use colui.App.Containers.ActionOutcome.{is_run, is_cleared, calls_after_run, runs_iff_cleared}
use colui.App.Containers.Logs.{
  ContainerLogs, ContainerLogsRequest, LogsAnswers, read_container_logs, is_read, may_read,
  logs_of_session,
}

abbrev moment : Text
moment = bytes "2026-01-01T00:00:00Z"

abbrev context : SessionContext
context = record {
  session_id = 4;
  endpoint = bytes "unix:///var/run/docker.sock";
  daemon_fingerprint = record {
    daemon_id = bytes "d";
    server_version = [];
    os_type = [];
    architecture = [];
  };
  connected_at = moment;
}

abbrev web : ContainerInstance
web = record {
  id = bytes "c1";
  name = bytes "web";
  image = bytes "web";
  state = ContainerState.running;
  status_text = [];
  service_name = none;
  published_ports = [];
}

abbrev current : RuntimeInventory
current = record inventory_unavailable {
  has_snapshot = true;
  runtime_session_id = some 4;
  freshness = InventoryFreshness.fresh;
  containers = web ∷ [];
}

abbrev failure : AppError
failure = container_operation_error (bytes "c1") "failed"

-- The action succeeds, the refresh fails, and the session ends.
abbrev answers : ActionAnswers
answers = record {
  first_context = ok context;
  lease = ok tt;
  inventory = ok current;
  second_context = ok context;
  run = ok tt;
  marker = 1;
  refreshed = err failure;
  fallback = ok current;
  last_context = err failure;
}

abbrev result : ContainerActionResult
result = record {
  container_id = bytes "c1";
  action = restart;
  observation = indeterminate_after_session_change;
  inventory = current;
}

abbrev logs : ContainerLogs
logs = record {
  container_id = bytes "c1";
  retained_bytes = 2;
  truncated = false;
  text = bytes "ok";
  observed_at = moment;
}

abbrev request : ContainerLogsRequest
request = record { container_id = bytes "c1"; runtime_session_id = 4 }

abbrev logs_answers : LogsAnswers
logs_answers = record {
  first_context = ok context;
  inventory = ok current;
  second_context = ok context;
  logs = ok logs;
  last_context = ok context;
}

push_all-keeps_end_example :
    ((push_all new_ring (bytes "ab" ∷ bytes "c" ∷ [])).bytes
      ≡ drop
          (length (joined (bytes "ab" ∷ bytes "c" ∷ [])) - capacity)
          (joined (bytes "ab" ∷ bytes "c" ∷ [])))
    × ((push_all new_ring (bytes "ab" ∷ bytes "c" ∷ [])).truncated
        ≡ ltb capacity (length (joined (bytes "ab" ∷ bytes "c" ∷ []))))
push_all-keeps_end_example = push_all-keeps_end (bytes "ab" ∷ bytes "c" ∷ [])

runs_iff_cleared_example :
    (any is_run (run_container_action (bytes "c1") restart 4 answers).1
      ≡ is_cleared (bytes "c1") restart 4 answers)
    × (((run_container_action (bytes "c1") restart 4 answers).1
          ≡ api_read_context
            ∷ acquire_container (bytes "c1")
            ∷ current_inventory
            ∷ api_read_context
            ∷ run_container (bytes "c1") restart 4
            ∷ (calls_after_run (bytes "c1") restart 4 answers
                ++ (drop_container (bytes "c1") ∷ [])))
        ↔ (is_cleared (bytes "c1") restart 4 answers ≡ true))
runs_iff_cleared_example = runs_iff_cleared (bytes "c1") restart 4 answers

logs_of_session_example :
    (any is_read (read_container_logs request logs_answers).1 ≡ may_read request logs_answers)
    × (((read_container_logs request logs_answers).1
          ≡ api_read_context
            ∷ current_inventory
            ∷ api_read_context
            ∷ read_logs (bytes "c1") 4
            ∷ api_read_context
            ∷ [])
        ↔ (may_read request logs_answers ≡ true))
    × ((l : ContainerLogs)
        → ((read_container_logs request logs_answers).0 ≡ ok l) ↔ (
            (may_read request logs_answers && in_session 4 logs_answers.last_context ≡ true)
            × (logs_answers.logs ≡ ok l)))
logs_of_session_example = logs_of_session request logs_answers
