-- ===== src/App/Status/Tests.antt =====
-- The status of concrete projects (crates/colui-app/src/status.rs).
use colui.Prelude.{◌≡◌, ◌++◌, refl, true, false, not, [], ◌∷◌, some, arith, nat_eq, none}
use colui.Domain.Text.{bytes}
use colui.Domain.FilePath.{components, push, is_utf8}
use colui.Domain.Inventory.{
  RuntimeInventory, inventory_unavailable, InventoryFreshness, ContainerInstance, ContainerState,
  present, mixed,
}
use colui.Domain.Profile.{ProjectProfile, manual}
use colui.App.Profiles.Mutations.{RegistrySnapshot}
use colui.App.Profiles.Lists.{is_unique}
use colui.App.Status.Association.{
  profile_tuple, new_context, is_ambiguous, normalize_absolute_path, collect_config_files,
}
use colui.App.Status.Counts.{profiles_with}
use colui.App.Status.Ambiguity.{is_clear, is_ambiguous-is_clear}
use colui.App.Status.Projection.{
  project_status, project_status_from_registry_inventory_and_definition, ambiguous_association,
}
use colui.App.Status.Shown.{is_present, project_status-shows, ambiguous_shows_nothing}

abbrev web : ProjectProfile
web = record {
  id = 5;
  revision = 1;
  display_name = bytes "web";
  compose_project_name = bytes "web";
  working_directory = bytes "/w";
  compose_files = bytes "c" ∷ [];
  environment_files = [];
  registration_origin = manual;
}

-- The same project, registered twice.
abbrev registry : RegistrySnapshot
registry = record { registry_revision = 2; profiles = web ∷ record web { id = 6 } ∷ [] }

abbrev seen : RuntimeInventory
seen = record inventory_unavailable { has_snapshot = true; freshness = InventoryFreshness.fresh }

abbrev container : ContainerInstance
container = record {
  id = bytes "c1";
  name = bytes "web";
  image = bytes "web";
  state = ContainerState.running;
  status_text = [];
  service_name = none;
  published_ports = [];
}

abbrev stopped : ContainerInstance
stopped = record container { state = ContainerState.stopped }

project_status-shows_example :
    ((project_status web seen (container ∷ stopped ∷ [])).runtime.presence ≡ present)
    × ((project_status web seen (container ∷ stopped ∷ [])).runtime.activity ≡ some mixed)
    × ((project_status web seen (container ∷ stopped ∷ [])).runtime.container_count ≡ 2)
    × ((project_status web seen (container ∷ stopped ∷ [])).runtime.running_container_count ≡ 1)
unfolding project_status
project_status-shows_example =
    project_status-shows web seen (container ∷ stopped ∷ []) (omega arith)

is_ambiguous-is_clear_example :
    is_ambiguous (new_context registry seen) web ≡ not (is_clear registry seen (profile_tuple web))
unfolding is_unique
is_ambiguous-is_clear_example = is_ambiguous-is_clear registry seen web refl refl

unclear : is_clear registry seen (profile_tuple web) ≡ false
unfolding profile_tuple normalize_absolute_path collect_config_files components push is_utf8
    profiles_with
unclear = refl

ambiguous_shows_nothing_example :
    ((project_status_from_registry_inventory_and_definition web registry seen
        none).runtime.container_count
      ≡ 0)
    × (is_present
          (project_status_from_registry_inventory_and_definition web registry seen
            none).runtime.presence
        ≡ false)
    × ((project_status_from_registry_inventory_and_definition web registry seen none).issues
        ≡ [] ++ (ambiguous_association ∷ []))
unfolding is_unique
ambiguous_shows_nothing_example = ambiguous_shows_nothing registry seen web none refl refl unclear
