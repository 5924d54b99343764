-- ===== src/Adapters/Inventory/Normalize.antt =====
-- crates/colui-adapters/src/inventory.rs: what is observed of containers, sorted into projects.
use colui.Prelude.{
  ℕ, Bool, true, false, List, [], ◌∷◌, ◌++◌, map, Option, none, some, any, if◌then◌else◌, unwrap_or,
  ◌==◌, nat_eq, list_eq, option_eq, EqTest, list_test_iff, option_test_iff, ◌≡◌, ◌↔◌, ◌&&◌, arith,
}
use colui.Domain.Text.{Text}
use colui.Domain.FilePath.{is_absolute, push}
use colui.Domain.Order.{update_entry, list_order, nat_order, option_order, triple_order, list_cmp}
use colui.Domain.Inventory.{
  ContainerId, ContainerInstance, ContainerObservation, ComposeContainerMetadata,
  ComposeObservationGroup, ProjectRuntimeSnapshot, RuntimeInventory, InventoryFreshness, Timestamp,
}
use colui.Domain.Runtime.{SessionContext}
use colui.App.Status.Association.{normalize_absolute_path}
use colui.Domain.Trim.{trim}
use Prim.Native.Nat.{Ordering}

-- The project's name, its working directory and its Compose files, as they are normalised.
abbrev pub GroupTuple : Type 0
GroupTuple = Text × (Option Text × List Text)

abbrev pub group_test : GroupTuple → GroupTuple → Bool
group_test (a, (b, c)) (x, (y, z)) = a == x && b == y && c == z

pub group_test_iff : (t v : GroupTuple) → (group_test t v ≡ true) ↔ (t ≡ v)
group_test_iff (a, (b, c)) (x, (y, z)) =
    ground (arith, list_test_iff a x, option_test_iff b y, list_test_iff c z)

instance abbrev pub group_eq : EqTest GroupTuple
group_eq = record { test = group_test; test_iff = group_test_iff }

-- A path that is not empty when it is trimmed.
abbrev pub trimmed_path : Text → Option Text
trimmed_path t = if trim t == [] then none else some (trim t)

abbrev pub normalized_directory : Option Text → Option Text
normalized_directory none = none
normalized_directory (some t) = elim (trimmed_path t) [
  | none ↦ none
  | some path ↦ normalize_absolute_path path
]

abbrev pub absolute_file : Option Text → Text → Option Text
absolute_file directory path =
    if is_absolute path
    then normalize_absolute_path path
    else elim directory [ none ↦ none | some d ↦ normalize_absolute_path (push d path) ]

abbrev pub normalized_file : Option Text → Text → Option Text
normalized_file directory t = elim (trimmed_path t) [
  | none ↦ none
  | some path ↦ absolute_file directory path
]

-- The files that are kept, with those that were seen before.
unfoldable pub collect_files : Option Text → List Text → List Text → List Text
collect_files directory seen [] = []
collect_files directory seen (t ∷ ts) = elim (normalized_file directory t) [
  | none ↦ collect_files directory seen ts
  | some path ↦ elim (any (λ s. s == path) seen) [
    | true ↦ collect_files directory seen ts
    | false ↦ path ∷ collect_files directory (path ∷ seen) ts
  ]
]

unfoldable pub normalize_compose_tuple : Text → Option Text → List Text → GroupTuple
unfolding collect_files
normalize_compose_tuple project working_directory config_files =
    let directory = normalized_directory working_directory in
    (trim project, (directory, collect_files directory [] config_files))

-- The maps and lists that `normalize` fills.
pub record Collected : Type 0 where
  pub containers : List ContainerInstance
  pub standalone : List ContainerInstance
  pub projects : List (Text × ProjectRuntimeSnapshot)
  pub groups : List (GroupTuple × List ContainerId)

abbrev pub push_id : ContainerId → Option (List ContainerId) → List ContainerId
push_id id ids = unwrap_or ids [] ++ id ∷ []

abbrev pub new_snapshot : ComposeContainerMetadata → ProjectRuntimeSnapshot
new_snapshot m = record {
  compose_project_name = m.project;
  working_directory = m.working_directory;
  config_files = m.config_files;
  containers = [];
}

abbrev pub push_container :
    ComposeContainerMetadata
    → ContainerInstance
    → Option ProjectRuntimeSnapshot
    → ProjectRuntimeSnapshot
push_container m c old =
    let project : ProjectRuntimeSnapshot = unwrap_or old (new_snapshot m) in
    record project { containers = project.containers ++ c ∷ [] }

abbrev pub tuple_of : ComposeContainerMetadata → GroupTuple
tuple_of m = normalize_compose_tuple m.project m.working_directory m.config_files

abbrev pub add_to_project :
    Option ComposeContainerMetadata → ContainerInstance → Collected → Collected
add_to_project none c s = record s {
  containers = s.containers ++ c ∷ [];
  standalone = s.standalone ++ c ∷ [];
}
add_to_project (some m) c s = record s {
  containers = s.containers ++ c ∷ [];
  projects = update_entry m.project (push_container m c) s.projects;
  groups = update_entry (tuple_of m) (push_id c.id) s.groups;
}

unfoldable pub add_observation : ContainerObservation → Collected → Collected
add_observation o s = add_to_project o.compose o.container s

unfoldable pub add_all : List ContainerObservation → Collected → Collected
unfolding add_observation
add_all [] s = s
add_all (o ∷ os) s = add_all os (add_observation o s)

abbrev pub nothing_collected : Collected
nothing_collected = record { containers = []; standalone = []; projects = []; groups = [] }

unfoldable pub collect : List ContainerObservation → Collected
unfolding add_all
collect os = add_all os nothing_collected

abbrev pub place_id :
    Ordering → ContainerId → ContainerId → List ContainerId → List ContainerId → List ContainerId
place_id Ordering.gt id other ids rest = other ∷ rest
place_id _ id other ids rest = id ∷ other ∷ ids

-- `sort_by`, which is stable
unfoldable pub insert_id : ContainerId → List ContainerId → List ContainerId
insert_id id [] = id ∷ []
insert_id id (j ∷ ids) = place_id (list_cmp id j) id j ids (insert_id id ids)

unfoldable pub sort_ids : List ContainerId → List ContainerId
unfolding insert_id
sort_ids [] = []
sort_ids (id ∷ ids) = insert_id id (sort_ids ids)

abbrev pub to_group : GroupTuple × List ContainerId → ComposeObservationGroup
to_group ((name, (directory, files)), ids) = record {
  compose_project_name = name;
  working_directory = directory;
  config_files = files;
  container_ids = sort_ids ids;
}

abbrev pub snapshot_part : Text × ProjectRuntimeSnapshot → ProjectRuntimeSnapshot
snapshot_part (k, v) = v

abbrev inventory_of : ℕ → Timestamp → SessionContext → Collected → RuntimeInventory
inventory_of generation now captured s = record {
  generation = generation;
  has_snapshot = true;
  observed_at = some now;
  runtime_session_id = some captured.session_id;
  daemon_fingerprint = some captured.daemon_fingerprint;
  freshness = InventoryFreshness.fresh;
  last_successful_observed_at = some now;
  containers = s.containers;
  project_snapshots = map snapshot_part s.projects;
  compose_observation_groups = map to_group s.groups;
  standalone_containers = s.standalone;
  error = none;
}

unfoldable pub normalize :
    ℕ → Timestamp → SessionContext → List ContainerObservation → RuntimeInventory
unfolding collect sort_ids
normalize generation now captured os = inventory_of generation now captured (collect os)
