-- ===== src/App/Lifecycle/Tests.antt =====
-- Lifecycle operations of crates/colui-app/src/lifecycle.rs on concrete answers.
use colui.Prelude.{◌↔◌, ◌++◌, ◌≡◌, ◌&&◌, refl, true, false, [], ◌∷◌, some, ok, err, any, none}
use colui.Domain.Text.{Uuids, bytes}
use colui.Domain.AppError.{AppError, app_error, runtime_unavailable}
use colui.Domain.Inventory.{RuntimeInventory, inventory_unavailable, InventoryFreshness}
use colui.Domain.Profile.{ProjectProfile, manual, profile_of_draft}
use colui.App.Operations.{apply}
use colui.App.Lifecycle.Project.{
  LifecycleAnswers, LifecycleResult, execute, acquire_lifecycle, load_canonical, run_profile,
  drop_lifecycle,
}
use colui.App.Lifecycle.Outcomes.{
  is_run, is_drop, is_fresh, registered, calls_after_run, runs_under_lease, failed_refresh-reports,
}

instance abbrev test_uuids : Uuids
test_uuids = record { to_text = λ n. n ∷ []; parse_str = λ t. none }

abbrev web : ProjectProfile
web = profile_of_draft 5 (record {
  display_name = bytes "web";
  compose_project_name = bytes "web";
  working_directory = bytes "/w";
  compose_files = bytes "/w/c" ∷ [];
  environment_files = [];
  registration_origin = manual;
})

abbrev seen : RuntimeInventory
seen = record inventory_unavailable { has_snapshot = true; freshness = InventoryFreshness.fresh }

abbrev applied : LifecycleResult
applied = record { profile_id = 5; success = true; inventory = inventory_unavailable }

abbrev failure : AppError
failure = app_error runtime_unavailable "refresh_inventory" none "runtime unavailable"

abbrev answers : LifecycleAnswers
answers = record {
  lease = ok tt;
  registry = ok (record { registry_revision = 1; profiles = web ∷ [] });
  run = ok applied;
  marker = 3;
  refreshed = ok seen;
  current = ok seen;
}

abbrev refresh_fails : LifecycleAnswers
refresh_fails = record answers { refreshed = err failure }

runs_under_lease_example :
    (any is_run (execute 5 apply answers).1 ≡ (true && true))
    × (any is_drop (execute 5 apply answers).1 ≡ true)
    × ((profile : ProjectProfile)
        → ((execute 5 apply answers).1
            ≡ acquire_lifecycle 5 apply
              ∷ load_canonical
              ∷ run_profile profile apply
              ∷ (calls_after_run answers ++ (drop_lifecycle 5 ∷ [])))
          ↔ ((true ≡ true) × (registered 5 answers.registry ≡ some profile)))
runs_under_lease_example = runs_under_lease 5 apply answers

failed_refresh-reports_example :
    (result : LifecycleResult) × ((execute 5 apply refresh_fails).0 ≡ ok result)
    × (result.profile_id ≡ 5)
    × (result.success ≡ true)
    × (result.inventory.error ≡ some failure)
    × (is_fresh result.inventory ≡ false)
    × (result.inventory.containers ≡ seen.containers)
failed_refresh-reports_example =
    failed_refresh-reports 5 apply refresh_fails web applied failure seen refl refl refl refl refl
      refl
