-- ===== src/App/Status/Named.antt =====
-- The status of a project by its name alone, and the use case that asks for a status
-- (crates/colui-app/src/status.rs).
use colui.Prelude.{
  ◌≡◌, refl, not, List, [], Option, none, some, Result, filter, find, length, if◌then◌else◌, ◌==◌,
  nat_eq, list_eq, and_then, ok_or,
}
use colui.Domain.Text.{Uuids}
use colui.Domain.AppError.{AppError, ProfileId, app_error, profile_not_found}
use colui.Domain.Inventory.{
  RuntimeInventory, ContainerInstance, ProjectRuntimeSnapshot, ProjectDefinition, unchecked,
  RuntimePresence, absent, present, all_running, mixed, none_running, RuntimeActivity,
}
use colui.Domain.Profile.{ProjectProfile}
use colui.App.Profiles.Mutations.{RegistrySnapshot, has_id}
use colui.App.Status.Projection.{
  ProjectStatus, as_u32, is_running, observed_if_present, project_status, runtime_state,
  with_definition,
}

abbrev containers_or_none : Option ProjectRuntimeSnapshot → List ContainerInstance
containers_or_none none = []
containers_or_none (some snapshot) = snapshot.containers

abbrev pub named_containers : ProjectProfile → RuntimeInventory → List ContainerInstance
named_containers profile inventory =
    containers_or_none (
      find (λ s. s.compose_project_name == profile.compose_project_name)
        inventory.project_snapshots)

unfoldable pub project_status_from_inventory : ProjectProfile → RuntimeInventory → ProjectStatus
project_status_from_inventory profile inventory =
    let containers = named_containers profile inventory in
    let container_count = as_u32 (length containers) in
    let running_container_count = as_u32 (length (filter is_running containers)) in
    let shown : RuntimePresence × Option RuntimeActivity =
      if not inventory.has_snapshot
      then (RuntimePresence.unavailable, none)
      else if container_count == 0
      then (absent, none)
      else if running_container_count == container_count
      then (present, some all_running)
      else if running_container_count == 0
      then (present, some none_running)
      else (present, some mixed) in
    record {
      profile_id = profile.id;
      runtime = record {
        presence = shown.0;
        activity = shown.1;
        container_count = container_count;
        running_container_count = running_container_count;
        observed_at = observed_if_present shown.0 inventory.observed_at;
      };
      definition_state = unchecked;
      issues = [];
    }

unfoldable pub project_status_from_inventory_and_definition :
    ProjectProfile → RuntimeInventory → Option ProjectDefinition → ProjectStatus
project_status_from_inventory_and_definition profile inventory definition =
    with_definition (project_status_from_inventory profile inventory) definition

-- The status by the name is the status of the containers of the first snapshot that has the name,
-- or of none: the two copies of the code that turns counts into a status agree.
pub project_status_from_inventory-project_status :
    (profile : ProjectProfile) (inventory : RuntimeInventory)
    → project_status_from_inventory profile inventory
      ≡ project_status profile inventory (named_containers profile inventory)
unfolding project_status_from_inventory project_status runtime_state
project_status_from_inventory-project_status profile inventory = refl

module _ ⦃u : Uuids⦄ where
  -- `GetProjectStatus::execute`, given the registry and a reader of statuses
  unfoldable pub get_project_status :
      (ProjectProfile → RegistrySnapshot → Result AppError ProjectStatus)
      → Result AppError RegistrySnapshot
      → ProfileId
      → Result AppError ProjectStatus
  get_project_status project_status loaded id = and_then loaded (λ registry.
      and_then
        (ok_or (find (has_id id) registry.profiles)
          (app_error profile_not_found "get_project_status" (some id) "profile not found"))
        (λ profile. project_status profile registry))
