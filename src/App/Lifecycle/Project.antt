-- ===== src/App/Lifecycle/Project.antt =====
-- The lifecycle use case of crates/colui-app/src/lifecycle.rs.
use colui.Prelude.{ℕ, Bool, [], ◌∷◌, some, String, Result, ok, err, ok_or, find, if◌then◌else◌}
use colui.Domain.Text.{Uuids}
use colui.Domain.AppError.{AppError, ProfileId, app_error, profile_not_found}
use colui.Domain.Inventory.{RuntimeInventory, InventoryFreshness}
use colui.Domain.Profile.{ProjectProfile}
use colui.App.Operations.{LifecycleOperation, apply, stop, tear_down, restart}
use colui.App.Profiles.Mutations.{RegistrySnapshot, has_id}
use colui.App.Traced.{TracedBy, asks, then_ask, releasing}

pub record LifecycleResult : Type 0 where
  pub profile_id : ProfileId
  pub success : Bool
  pub inventory : RuntimeInventory

pub data LifecycleCall : Type 0 where
  acquire_lifecycle : ProfileId → LifecycleOperation → LifecycleCall
  drop_lifecycle : ProfileId → LifecycleCall
  load load_canonical observation_marker current_inventory : LifecycleCall
  run_profile : ProjectProfile → LifecycleOperation → LifecycleCall
  refresh_after : ℕ → LifecycleCall

-- What the services answer; a question that is not reached leaves its answer unused.
pub record LifecycleAnswers : Type 0 where
  pub lease : Result AppError (Unit {0})
  pub registry : Result AppError RegistrySnapshot
  pub run : Result AppError LifecycleResult
  pub marker : ℕ
  pub refreshed : Result AppError RuntimeInventory
  pub current : Result AppError RuntimeInventory

abbrev pub lifecycle_name : LifecycleOperation → String
lifecycle_name apply = "apply_project"
lifecycle_name stop = "stop_project"
lifecycle_name tear_down = "tear_down_project"
lifecycle_name restart = "restart_project"

-- The inventory that is kept when its refresh fails.
abbrev pub after_failed_refresh : AppError → RuntimeInventory → RuntimeInventory
after_failed_refresh error inventory = record inventory {
  freshness =
      if inventory.has_snapshot then InventoryFreshness.stale else InventoryFreshness.unavailable;
  error = some error;
}

abbrev refreshed_inventory :
    ℕ
    → Result AppError RuntimeInventory
    → Result AppError RuntimeInventory
    → TracedBy LifecycleCall RuntimeInventory
refreshed_inventory marker (ok inventory) current = asks (refresh_after marker) (ok inventory)
refreshed_inventory marker (err error) current = then_ask (err_ignored marker) (λ _.
    then_ask (asks current_inventory current)
      (λ inventory. (ok (after_failed_refresh error inventory), [])))
  where
    err_ignored : ℕ → TracedBy LifecycleCall (Unit {0})
    err_ignored marker = (ok tt, refresh_after marker ∷ [])

abbrev inventory_after :
    LifecycleAnswers → LifecycleResult → TracedBy LifecycleCall RuntimeInventory
inventory_after a result =
    if result.success
    then then_ask (asks observation_marker (ok a.marker))
        (λ marker. refreshed_inventory marker a.refreshed a.current)
    else asks current_inventory a.current

-- `run_lifecycle_locked`
abbrev pub run_lifecycle_locked :
    ProjectProfile → LifecycleOperation → LifecycleAnswers → TracedBy LifecycleCall LifecycleResult
run_lifecycle_locked profile operation a =
    then_ask (asks (run_profile profile operation) a.run) (λ result.
      then_ask (inventory_after a result)
        (λ inventory. (ok (record result { inventory = inventory }), [])))

-- `run_lifecycle`
unfoldable pub run_lifecycle :
    ProjectProfile → LifecycleOperation → LifecycleAnswers → TracedBy LifecycleCall LifecycleResult
run_lifecycle profile operation a =
    then_ask (asks (acquire_lifecycle profile.id operation) a.lease)
      (λ _. releasing (drop_lifecycle profile.id) (run_lifecycle_locked profile operation a))

module _ ⦃u : Uuids⦄ where
  abbrev pub find_profile :
      RegistrySnapshot → ProfileId → LifecycleOperation → Result AppError ProjectProfile
  find_profile registry id operation =
      ok_or (find (has_id id) registry.profiles)
        (app_error profile_not_found (lifecycle_name operation) (some id) "profile not found")

  -- `LifecycleUseCase::execute`
  unfoldable pub execute :
      ProfileId → LifecycleOperation → LifecycleAnswers → TracedBy LifecycleCall LifecycleResult
  execute id operation a = then_ask (asks (acquire_lifecycle id operation) a.lease) (λ _.
      releasing (drop_lifecycle id) (
        then_ask (asks load_canonical a.registry) (λ registry.
          then_ask (find_profile registry id operation, [])
            (λ profile. run_lifecycle_locked profile operation a))))

  -- `LifecycleUseCase::execute_plain`
  unfoldable pub execute_plain :
      ProfileId → LifecycleOperation → LifecycleAnswers → TracedBy LifecycleCall LifecycleResult
  execute_plain id operation a = then_ask (asks load a.registry) (λ registry.
      then_ask (find_profile registry id operation, [])
        (λ profile. asks (run_profile profile operation) a.run))
