-- ===== src/App/Runtime/Reconnect.antt =====
-- `ReconnectRuntime` and `RuntimeStateReader::api_read_context` of crates/colui-app/src/runtime.rs.
use colui.Prelude.{[], ◌∷◌, Option, none, some, Result, ok, err}
use colui.Domain.Text.{Uuids}
use colui.Domain.AppError.{AppError, app_error, runtime_unavailable}
use colui.Domain.Inventory.{RuntimeInventory}
use colui.Domain.Runtime.{
  RuntimeSessionState, SessionContext, disconnected, connecting, ready, context_mismatch, failed,
  DockerEndpoint,
}
use colui.App.Traced.{TracedBy, asks, then_ask, after_calls}

pub record ReconnectResult : Type 0 where
  pub runtime_state : RuntimeSessionState
  pub inventory : Option RuntimeInventory

pub data RuntimeCall : Type 0 where
  reconnect_runtime : Option DockerEndpoint → RuntimeCall
  refresh current_inventory : RuntimeCall

-- What the connector and the inventory answer.
pub record ReconnectAnswers : Type 0 where
  pub state : Result AppError RuntimeSessionState
  pub refreshed : Result AppError RuntimeInventory
  pub current : Result AppError RuntimeInventory

abbrev refreshed_or_current :
    Result AppError RuntimeInventory
    → Result AppError RuntimeInventory
    → TracedBy RuntimeCall RuntimeInventory
refreshed_or_current (ok inventory) current = asks refresh (ok inventory)
refreshed_or_current (err _) current = after_calls (refresh ∷ []) (asks current_inventory current)

abbrev with_inventory :
    RuntimeSessionState → ReconnectAnswers → TracedBy RuntimeCall ReconnectResult
with_inventory state a =
    then_ask (refreshed_or_current a.refreshed a.current)
      (λ inventory. (ok (record { runtime_state = state; inventory = some inventory }), []))

abbrev on_state : RuntimeSessionState → ReconnectAnswers → TracedBy RuntimeCall ReconnectResult
on_state (ready context) a = with_inventory (ready context) a
on_state (context_mismatch details) a = with_inventory (context_mismatch details) a
on_state (failed error) a = (err error, [])
on_state disconnected a = (ok (record { runtime_state = disconnected; inventory = none }), [])
on_state connecting a = (ok (record { runtime_state = connecting; inventory = none }), [])

-- `ReconnectRuntime::execute`
unfoldable pub reconnect :
    Option DockerEndpoint → ReconnectAnswers → TracedBy RuntimeCall ReconnectResult
reconnect preference a =
    then_ask (asks (reconnect_runtime preference) a.state) (λ state. on_state state a)

module _ ⦃u : Uuids⦄ where
  abbrev context_of : RuntimeSessionState → Result AppError SessionContext
  context_of (ready context) = ok context
  context_of _ = err (app_error runtime_unavailable "runtime_read" none "runtime unavailable")

  -- `RuntimeStateReader::api_read_context`, given the session's state
  unfoldable pub api_read_context :
      Result AppError RuntimeSessionState → Result AppError SessionContext
  api_read_context (ok state) = context_of state
  api_read_context (err e) = err e
