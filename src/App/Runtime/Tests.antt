-- ===== src/App/Runtime/Tests.antt =====
-- Reconnections of crates/colui-app/src/runtime.rs on concrete answers.
use colui.Prelude.{◌≡◌, ◌↔◌, none, ok, err, [], ◌∷◌}
use colui.Domain.Text.{Uuids, bytes}
use colui.Domain.AppError.{app_error, runtime_unavailable}
use colui.Domain.Inventory.{inventory_unavailable}
use colui.Domain.Runtime.{SessionContext, ready}
use colui.App.Runtime.Reconnect.{ReconnectAnswers, api_read_context}
use colui.App.Runtime.Outcomes.{api_read_context-ready}

instance abbrev test_uuids : Uuids
test_uuids = record { to_text = λ n. n ∷ []; parse_str = λ t. none }

abbrev context : SessionContext
context = record {
  session_id = 4;
  endpoint = bytes "unix:///var/run/docker.sock";
  daemon_fingerprint = record {
    daemon_id = bytes "d";
    server_version = [];
    os_type = [];
    architecture = [];
  };
  connected_at = [];
}

-- The daemon is reached, and its inventory cannot be refreshed.
abbrev answers : ReconnectAnswers
answers = record {
  state = ok (ready context);
  refreshed = err (app_error runtime_unavailable "refresh_inventory" none "runtime unavailable");
  current = ok inventory_unavailable;
}

api_read_context-ready_example :
    (api_read_context answers.state ≡ ok context) ↔ (answers.state ≡ ok (ready context))
api_read_context-ready_example = api_read_context-ready answers.state context
