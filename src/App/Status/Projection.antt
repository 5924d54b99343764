-- ===== src/App/Status/Projection.antt =====
-- The status that is shown of a project (crates/colui-app/src/status.rs).
use colui.Prelude.{
  ℕ, ◌%◌, Bool, true, false, not, ◌&&◌, List, [], ◌∷◌, ◌++◌, Option, none, some, any, filter, find,
  length, take, if◌then◌else◌, ◌==◌, nat_eq, list_eq, option_eq,
}
use colui.Prelude.Map.{lookup}
use colui.Domain.AppError.{ProfileId}
use colui.Domain.Inventory.{
  RuntimeInventory, ContainerInstance, ContainerState, ComposeObservationGroup, ProjectDefinition,
  DefinitionState, unchecked, Issue, Timestamp, RuntimePresence, absent, present, RuntimeActivity,
  all_running, mixed, none_running,
}
use colui.Domain.Profile.{ProjectProfile}
use colui.App.Profiles.Mutations.{RegistrySnapshot}
use colui.App.Status.Association.{
  AssociationTuple, tuple_eq, profile_tuple, RuntimeAssociationContext, new_context, known_tuple,
  is_ambiguous,
}

pub record RuntimeProjection : Type 0 where
  pub presence : RuntimePresence
  pub activity : Option RuntimeActivity
  pub container_count : ℕ
  pub running_container_count : ℕ
  pub observed_at : Option Timestamp

pub record ProjectStatus : Type 0 where
  pub profile_id : ProfileId
  pub runtime : RuntimeProjection
  pub definition_state : DefinitionState
  pub issues : List Issue

-- `as u32`
abbrev pub as_u32 : ℕ → ℕ
as_u32 n = n % 4294967296

abbrev pub is_running : ContainerInstance → Bool
is_running c = elim c.state [ ContainerState.running ↦ true | _ ↦ false ]

unfoldable pub runtime_state : Bool → ℕ → ℕ → RuntimePresence × Option RuntimeActivity
runtime_state has_snapshot container_count running_container_count =
    if not has_snapshot
    then (RuntimePresence.unavailable, none)
    else if container_count == 0
    then (absent, none)
    else if running_container_count == container_count
    then (present, some all_running)
    else if running_container_count == 0
    then (present, some none_running)
    else (present, some mixed)

-- `(presence == Present).then_some(observed_at).flatten()`
abbrev pub observed_if_present : RuntimePresence → Option Timestamp → Option Timestamp
observed_if_present present observed_at = observed_at
observed_if_present _ observed_at = none

unfoldable pub project_status :
    ProjectProfile → RuntimeInventory → List ContainerInstance → ProjectStatus
project_status profile inventory containers =
    let container_count = as_u32 (length containers) in
    let running_container_count = as_u32 (length (filter is_running containers)) in
    let (presence, activity) =
      runtime_state inventory.has_snapshot container_count running_container_count in
    record {
      profile_id = profile.id;
      runtime = record {
        presence = presence;
        activity = activity;
        container_count = container_count;
        running_container_count = running_container_count;
        observed_at = observed_if_present presence inventory.observed_at;
      };
      definition_state = unchecked;
      issues = [];
    }

abbrev is_group_of : AssociationTuple → ComposeObservationGroup → Bool
is_group_of t group =
    group.compose_project_name == t.0
    && group.working_directory == some t.1.0
    && group.config_files == t.1.1

abbrev counts_once : RuntimeAssociationContext → AssociationTuple → Bool
counts_once c t =
    lookup t c.profile_counts == some 1
    && lookup t c.observation_counts == some 1
    && lookup t.0 c.observation_name_counts == some 1

abbrev containers_of : RuntimeInventory → Option ComposeObservationGroup → List ContainerInstance
containers_of inventory none = []
containers_of inventory (some group) =
    filter (λ c. any (λ id. id == c.id) group.container_ids) inventory.containers

abbrev associated_containers :
    RuntimeInventory → RuntimeAssociationContext → Option AssociationTuple → List ContainerInstance
associated_containers inventory c none = []
associated_containers inventory c (some t) =
    if counts_once c t
    then containers_of inventory (find (is_group_of t) inventory.compose_observation_groups)
    else []

unfoldable pub project_status_from_associations :
    ProjectProfile → RuntimeInventory → RuntimeAssociationContext → ProjectStatus
project_status_from_associations profile inventory associations =
    project_status profile inventory
      (associated_containers inventory associations (known_tuple associations profile))

abbrev pub with_definition : ProjectStatus → Option ProjectDefinition → ProjectStatus
with_definition status none = status
with_definition status (some definition) = record status {
  definition_state = definition.state;
  issues = definition.issues;
}

abbrev pub ambiguous_association : Issue
ambiguous_association = record {
  field = some "ambiguous_runtime_association";
  message = "runtime association is ambiguous";
}

unfoldable pub project_status_from_registry_inventory_and_definition :
    ProjectProfile → RegistrySnapshot → RuntimeInventory → Option ProjectDefinition → ProjectStatus
project_status_from_registry_inventory_and_definition profile registry inventory definition =
    let associations = new_context registry inventory in
    let status =
      with_definition (project_status_from_associations profile inventory associations)
        definition in
    if is_ambiguous associations profile
    then record status { issues = status.issues ++ (ambiguous_association ∷ []) }
    else status

abbrev pub has_tuple : AssociationTuple → ProjectProfile → Bool
has_tuple t p = profile_tuple p == some t

unfoldable pub profile_association_is_unique : ProjectProfile → RegistrySnapshot → Bool
profile_association_is_unique profile registry = elim (profile_tuple profile) [
  | none ↦ false
  | some t ↦ length (take 2 (filter (has_tuple t) registry.profiles)) == 1
]
