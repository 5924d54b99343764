-- ===== src/App/Runtime/Outcomes.antt =====
-- What a reconnection reports (crates/colui-app/src/runtime.rs).
use colui.Prelude.{
  ◌≡◌, ◌↔◌, Bool, true, false, ◌||◌, not, Option, none, some, Result, ok, err, is_ok, if◌then◌else◌,
  arith, any,
}
use colui.Domain.Text.{Uuids}
use colui.Domain.AppError.{AppError}
use colui.Domain.Inventory.{RuntimeInventory}
use colui.Domain.Runtime.{
  RuntimeSessionState, SessionContext, ready, context_mismatch, failed, DockerEndpoint,
}
use colui.App.Runtime.Reconnect.{
  ReconnectAnswers, ReconnectResult, RuntimeCall, refresh, reconnect, api_read_context,
}

abbrev pub is_failed : RuntimeSessionState → Bool
is_failed (failed e) = true
is_failed _ = false

abbrev pub reaches_daemon : RuntimeSessionState → Bool
reaches_daemon (ready context) = true
reaches_daemon (context_mismatch details) = true
reaches_daemon _ = false

abbrev pub answered : Result AppError RuntimeInventory → Option RuntimeInventory
answered (ok inventory) = some inventory
answered (err e) = none

abbrev pub is_refresh : RuntimeCall → Bool
is_refresh refresh = true
is_refresh _ = false

module _ (preference : Option DockerEndpoint) (a : ReconnectAnswers)
    (state : RuntimeSessionState) where
  -- After the connector has answered with a state, the inventory is refreshed exactly when the state
  -- reaches the daemon. The reconnection then succeeds exactly when an inventory is there, refreshed
  -- or kept, and otherwise exactly when the state is not a failure.
  pub reconnect-succeeds :
      a.state ≡ ok state
      → (any is_refresh (reconnect preference a).1 ≡ reaches_daemon state)
        × (is_ok (reconnect preference a).0 ≡ (
            if reaches_daemon state
            then is_ok a.refreshed || is_ok a.current
            else not (is_failed state)))
  unfolding reconnect
  reconnect-succeeds e = ground arith

  -- A reconnection that succeeds reports the connector's state, with the refreshed inventory if there
  -- is one and the kept one otherwise, and with no inventory if the state does not reach the daemon.
  pub reconnect-reports :
      (result : ReconnectResult)
      → a.state ≡ ok state
      → (reconnect preference a).0 ≡ ok result
      → (result.runtime_state ≡ state)
        × (result.inventory ≡ (
            if reaches_daemon state
            then answered (if is_ok a.refreshed then a.refreshed else a.current)
            else none))
  unfolding reconnect
  reconnect-reports result e h = ground arith

-- A session's state yields a context exactly when it is ready, and then its own.
pub api_read_context-ready :
    ⦃u : Uuids⦄ (answer : Result AppError RuntimeSessionState) (context : SessionContext)
    → (api_read_context answer ≡ ok context) ↔ (answer ≡ ok (ready context))
unfolding api_read_context
api_read_context-ready answer context = ground arith
