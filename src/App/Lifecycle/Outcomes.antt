-- ===== src/App/Lifecycle/Outcomes.antt =====
-- What the lifecycle use case of crates/colui-app/src/lifecycle.rs does and reports.
use colui.Prelude.{
  Result-cases, inl, inr, none, refl, Option, List, [], ◌∷◌, ◌++◌, ◌↔◌, not, ◌≡◌, Bool, true, false,
  ◌&&◌, some, Result, ok, err, is_ok, is_some, any, find, if◌then◌else◌, arith,
}
use colui.Domain.Text.{Uuids}
use colui.Domain.AppError.{AppError, ProfileId}
use colui.Domain.Inventory.{RuntimeInventory, inventory_unavailable, InventoryFreshness}
use colui.Domain.Profile.{ProjectProfile}
use colui.App.Operations.{LifecycleOperation}
use colui.App.Profiles.Mutations.{RegistrySnapshot, has_id}
use colui.App.Lifecycle.Project.{
  LifecycleAnswers, LifecycleResult, LifecycleCall, run_profile, drop_lifecycle, execute,
  acquire_lifecycle, load_canonical, observation_marker, current_inventory, refresh_after,
  after_failed_refresh,
}

abbrev pub is_run : LifecycleCall → Bool
is_run (run_profile p k) = true
is_run _ = false

abbrev pub is_drop : LifecycleCall → Bool
is_drop (drop_lifecycle id) = true
is_drop _ = false

abbrev pub is_fresh : RuntimeInventory → Bool
is_fresh inventory = elim inventory.freshness [ InventoryFreshness.fresh ↦ true | _ ↦ false ]

abbrev pub registered : ProfileId → Result AppError RegistrySnapshot → Option ProjectProfile
registered id (ok registry) = find (has_id id) registry.profiles
registered id (err e) = none

-- The calls that follow on the runtime's answer.
abbrev pub calls_after_run : LifecycleAnswers → List LifecycleCall
calls_after_run a = elim a.run [
  | err e ↦ []
  | ok run ↦
      if not run.success
      then current_inventory ∷ []
      else if is_ok a.refreshed
      then observation_marker ∷ refresh_after a.marker ∷ []
      else observation_marker ∷ refresh_after a.marker ∷ current_inventory ∷ []
]

retained-stale :
    (b : Bool)
    → is_fresh (record inventory_unavailable {
      freshness = if b then InventoryFreshness.stale else InventoryFreshness.unavailable;
    })
      ≡ false
retained-stale true = refl
retained-stale false = refl

module _ ⦃u : Uuids⦄ (id : ProfileId) (operation : LifecycleOperation) (a : LifecycleAnswers) where
  -- The runtime is asked to act exactly when the lease is taken and the registry then loads with the
  -- profile in it. The calls are then the lease's, the registry's, the run of that registered
  -- profile, the observation of its outcome, and last the lease's end. The lease is dropped exactly
  -- when it was taken.
  pub runs_under_lease :
      (any is_run (execute id operation a).1
        ≡ (is_ok a.lease && is_some (registered id a.registry)))
      × (any is_drop (execute id operation a).1 ≡ is_ok a.lease)
      × ((profile : ProjectProfile)
          → ((execute id operation a).1
              ≡ acquire_lifecycle id operation
                ∷ load_canonical
                ∷ run_profile profile operation
                ∷ (calls_after_run a ++ (drop_lifecycle id ∷ [])))
            ↔ ((is_ok a.lease ≡ true) × (registered id a.registry ≡ some profile)))
  unfolding execute
  runs_under_lease = (
    elim a.registry [ ok registry ↦ ground arith | err e ↦ ground arith ],
    elim a.registry [ ok registry ↦ ground arith | err e ↦ ground arith ],
    λ profile. elim a.registry [ ok registry ↦ ground arith | err e ↦ ground arith ],
  )

  -- The report keeps what the runtime said, with the refreshed inventory after a success and the
  -- current one after a failure, if the refresh does not fail.
  pub execute-reports :
      (run result : LifecycleResult)
      → a.run ≡ ok run
      → is_ok a.refreshed ≡ true
      → (execute id operation a).0 ≡ ok result
      → (result.profile_id ≡ run.profile_id)
        × (result.success ≡ run.success)
        × (ok result.inventory ≡ (if run.success then a.refreshed else a.current))
  unfolding execute
  execute-reports run result e f h = ground arith

  execute-after_failure :
      (profile : ProjectProfile) (run : LifecycleResult) (error : AppError)
      (inventory : RuntimeInventory)
      → a.lease ≡ ok tt
      → registered id a.registry ≡ some profile
      → a.run ≡ ok run
      → run.success ≡ true
      → a.refreshed ≡ err error
      → a.current ≡ ok inventory
      → (execute id operation a).0
        ≡ ok (record run { inventory = after_failed_refresh error inventory })
  unfolding execute
  execute-after_failure profile run error inventory l p e s f c = elim (Result-cases a.registry) [
    | inl (registry, g) ↦ let found = rw g at p in rw (l, g, found, e, s, f, c) refl
    | inr (_, g) ↦ cc (rw g at p)
  ]

  -- When the lease is taken, the profile is registered, its operation succeeds, the refresh fails
  -- and there is a current inventory, the report is still a success: the runtime's own, on the
  -- current inventory's containers with the refresh's error, and not fresh.
  pub failed_refresh-reports :
      (profile : ProjectProfile) (run : LifecycleResult) (error : AppError)
      (inventory : RuntimeInventory)
      → a.lease ≡ ok tt
      → registered id a.registry ≡ some profile
      → a.run ≡ ok run
      → run.success ≡ true
      → a.refreshed ≡ err error
      → a.current ≡ ok inventory
      → (result : LifecycleResult) × ((execute id operation a).0 ≡ ok result)
        × (result.profile_id ≡ run.profile_id)
        × (result.success ≡ true)
        × (result.inventory.error ≡ some error)
        × (is_fresh result.inventory ≡ false)
        × (result.inventory.containers ≡ inventory.containers)
  unfolding execute
  failed_refresh-reports profile run error inventory l p e s f c = (
    record run { inventory = after_failed_refresh error inventory },
    execute-after_failure profile run error inventory l p e s f c,
    refl,
    s,
    refl,
    retained-stale inventory.has_snapshot,
    refl,
  )
