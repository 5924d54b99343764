-- ===== src/App/Containers/ActionOutcome.antt =====
-- What a container action may do, and what it reports (`RunContainerAction` of
-- crates/colui-app/src/containers.rs).
use colui.Prelude.{
  List, [], ◌∷◌, ◌++◌, ◌↔◌, not, ◌≡◌, Bool, true, false, ◌&&◌, ◌||◌, Result, ok, err, is_ok, any,
  arith, if◌then◌else◌,
}
use colui.Domain.AppError.{AppError}
use colui.Domain.Inventory.{ContainerId, RuntimeSessionId, RuntimeInventory}
use colui.App.Containers.Session.{
  ContainerAction, ServiceCall, run_container, drop_container, api_read_context, acquire_container,
  current_inventory, observation_marker, refresh_after, in_session, is_current, lists_container,
}
use colui.App.Containers.Action.{
  ActionAnswers, ContainerActionResult, run_container_action, confirmed_in_session,
  ContainerActionObservation,
}

abbrev pub is_run : ServiceCall → Bool
is_run (run_container c a s) = true
is_run _ = false

abbrev pub is_drop : ServiceCall → Bool
is_drop (drop_container c) = true
is_drop _ = false

abbrev pub is_confirmed : ContainerActionObservation → Bool
is_confirmed confirmed_in_session = true
is_confirmed _ = false

module _ (id : ContainerId) (action : ContainerAction) (expected : RuntimeSessionId)
    (a : ActionAnswers) where
  abbrev shows_container : Result AppError RuntimeInventory → Bool
  shows_container (ok inventory) = is_current expected inventory && lists_container id inventory
  shows_container (err e) = false

  -- The checks that stand before the action.
  abbrev pub is_cleared : Bool
  is_cleared =
      in_session expected a.first_context
      && is_ok a.lease
      && shows_container a.inventory
      && in_session expected a.second_context

  -- The calls that follow on the runtime's answer.
  abbrev pub calls_after_run : List ServiceCall
  calls_after_run =
      if not (is_ok a.run)
      then []
      else if is_ok a.refreshed
      then observation_marker ∷ refresh_after a.marker ∷ api_read_context ∷ []
      else observation_marker
        ∷ refresh_after a.marker
        ∷ current_inventory
        ∷ (if is_ok a.fallback then api_read_context ∷ [] else [])

  -- The runtime is asked to act exactly when the session is the expected one before and after the
  -- lease is taken, and a current inventory of that session lists the container. The calls are then,
  -- in this order: the session's check, the lease of the container, the inventory, the session's
  -- check again, the action on that container in that session, the observation of its outcome, and
  -- last the lease's end.
  pub runs_iff_cleared :
      (any is_run (run_container_action id action expected a).1 ≡ is_cleared)
      × (((run_container_action id action expected a).1
            ≡ api_read_context
              ∷ acquire_container id
              ∷ current_inventory
              ∷ api_read_context
              ∷ run_container id action expected
              ∷ (calls_after_run ++ (drop_container id ∷ [])))
          ↔ (is_cleared ≡ true))
  unfolding run_container_action
  runs_iff_cleared = (ground arith, ground arith)

  -- The operation succeeds exactly when the checks pass, the runtime succeeds, and an inventory is
  -- there, refreshed or kept: the session after the action decides nothing of that.
  pub succeeds_iff :
      is_ok (run_container_action id action expected a).0
      ≡ (is_cleared && is_ok a.run && (is_ok a.refreshed || is_ok a.fallback))
  unfolding run_container_action
  succeeds_iff = ground arith

  -- A success names the container and the action, holds the refreshed inventory if there is one and
  -- the kept one otherwise, and is confirmed exactly when the session is still the expected one.
  pub success_reports :
      (r : ContainerActionResult)
      → (run_container_action id action expected a).0 ≡ ok r
      → (r.container_id ≡ id)
        × (r.action ≡ action)
        × (ok r.inventory ≡ (if is_ok a.refreshed then a.refreshed else a.fallback))
        × (is_confirmed r.observation ≡ in_session expected a.last_context)
  unfolding run_container_action
  success_reports r h = ground arith

  -- The lease is dropped exactly when it was taken, whatever happens in between.
  pub dropped_iff_taken :
      any is_drop (run_container_action id action expected a).1
      ≡ (in_session expected a.first_context && is_ok a.lease)
  unfolding run_container_action
  dropped_iff_taken = ground arith
