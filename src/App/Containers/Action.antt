-- ===== src/App/Containers/Action.antt =====
-- `RunContainerAction` of crates/colui-app/src/containers.rs.
use colui.Prelude.{ℕ, ◌&&◌, [], ◌∷◌, Result, ok, err, if◌then◌else◌}
use colui.Domain.AppError.{AppError}
use colui.Domain.Inventory.{ContainerId, RuntimeSessionId, RuntimeInventory}
use colui.Domain.Runtime.{SessionContext}
use colui.App.Traced.{asks, then_ask, or_error, releasing, require}
use colui.App.Containers.Session.{
  ContainerAction, api_read_context, acquire_container, drop_container, current_inventory,
  run_container, observation_marker, refresh_after, Traced, container_operation_error,
  check_session, in_session, is_current, lists_container,
}

pub data ContainerActionObservation : Type 0 where
  confirmed_in_session indeterminate_after_session_change : ContainerActionObservation

pub record ContainerActionResult : Type 0 where
  pub container_id : ContainerId
  pub action : ContainerAction
  pub observation : ContainerActionObservation
  pub inventory : RuntimeInventory

-- What the services answer, in the order of the questions; a question that is not reached leaves its
-- answer unused.
pub record ActionAnswers : Type 0 where
  pub first_context : Result AppError SessionContext
  pub lease : Result AppError (Unit {0})
  pub inventory : Result AppError RuntimeInventory
  pub second_context : Result AppError SessionContext
  pub run : Result AppError (Unit {0})
  pub marker : ℕ
  pub refreshed : Result AppError RuntimeInventory
  pub fallback : Result AppError RuntimeInventory
  pub last_context : Result AppError SessionContext

abbrev refresh :
    ℕ
    → Result AppError RuntimeInventory
    → Result AppError RuntimeInventory
    → Traced RuntimeInventory
refresh marker (ok inventory) fallback = asks (refresh_after marker) (ok inventory)
refresh marker (err e) fallback = (fallback, refresh_after marker ∷ current_inventory ∷ [])

abbrev observe : RuntimeSessionId → Result AppError SessionContext → ContainerActionObservation
observe expected context =
    if in_session expected context then confirmed_in_session else indeterminate_after_session_change

module _ (container_id : ContainerId) (action : ContainerAction)
    (expected_session : RuntimeSessionId) where
  abbrev require_current : RuntimeInventory → Traced (Unit {0})
  require_current current =
      require (is_current expected_session current && lists_container container_id current)
        (container_operation_error container_id "fresh container observation required")

  abbrev finish_action : ActionAnswers → RuntimeInventory → Traced ContainerActionResult
  finish_action a inventory = (
    ok (record {
      container_id = container_id;
      action = action;
      observation = observe expected_session a.last_context;
      inventory = inventory;
    }),
    api_read_context ∷ [],
  )

  abbrev run_checked : ActionAnswers → Traced ContainerActionResult
  run_checked a =
      then_ask
        (asks (run_container container_id action expected_session)
          (or_error a.run (container_operation_error container_id "container operation failed")))
        (λ _. then_ask (asks observation_marker (ok a.marker)) (λ marker.
          then_ask (refresh marker a.refreshed a.fallback)
            (λ inventory. finish_action a inventory)))

  abbrev run_leased : ActionAnswers → Traced ContainerActionResult
  run_leased a =
      then_ask
        (asks current_inventory (
          or_error a.inventory
            (container_operation_error container_id "container inventory unavailable")))
        (λ current. then_ask (require_current current) (λ _.
          then_ask (check_session container_id expected_session a.second_context)
            (λ _. run_checked a)))

  -- `RunContainerAction::execute`
  unfoldable pub run_container_action : ActionAnswers → Traced ContainerActionResult
  run_container_action a =
      then_ask (check_session container_id expected_session a.first_context) (λ _.
        then_ask (asks (acquire_container container_id) a.lease)
          (λ _. releasing (drop_container container_id) (run_leased a)))
