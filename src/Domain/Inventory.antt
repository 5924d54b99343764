-- ===== src/Domain/Inventory.antt =====
-- crates/colui-domain/src/definition.rs: what is observed of containers, and of definitions.
use colui.Prelude.{ℕ, Bool, false, List, [], Option, none, String}
use colui.Domain.Text.{Text}
use colui.Domain.AppError.{AppError, ProfileId}

abbrev pub Timestamp : Type 0
Timestamp = Text

abbrev pub ContainerId : Type 0
ContainerId = Text

abbrev pub DefinitionRevision : Type 0
DefinitionRevision = Text

-- `RuntimeSessionId` wraps a UUID.
abbrev pub RuntimeSessionId : Type 0
RuntimeSessionId = ℕ

pub record DaemonFingerprint : Type 0 where
  pub daemon_id : Text
  pub server_version : Text
  pub os_type : Text
  pub architecture : Text

pub data RuntimePresence : Type 0 where
  unavailable absent present : RuntimePresence

pub data RuntimeActivity : Type 0 where
  all_running mixed none_running : RuntimeActivity

pub record PortBinding : Type 0 where
  pub host_ip : Option Text
  pub host_port : Option ℕ
  pub container_port : ℕ
  pub protocol : Text

pub data ContainerState : Type 0 where
  running stopped unknown : ContainerState

pub record ContainerInstance : Type 0 where
  pub id : ContainerId
  pub name : Text
  pub image : Text
  pub state : ContainerState
  pub status_text : Text
  pub service_name : Option Text
  pub published_ports : List PortBinding

pub data DefinitionState : Type 0 where
  unchecked valid invalid stale : DefinitionState

pub record ServiceDefinition : Type 0 where
  pub name : Text
  pub image : Option Text
  pub build_context : Option Text
  pub declared_ports : List Text

pub record Issue : Type 0 where
  pub field : Option String
  pub message : String

pub record ProjectDefinition : Type 0 where
  pub profile_id : ProfileId
  pub definition_revision : DefinitionRevision
  pub loaded_at : Timestamp
  pub state : DefinitionState
  pub services : List ServiceDefinition
  pub issues : List Issue

pub data InventoryFreshness : Type 0 where
  fresh stale unavailable : InventoryFreshness

pub record ComposeObservationGroup : Type 0 where
  pub compose_project_name : Text
  pub working_directory : Option Text
  pub config_files : List Text
  pub container_ids : List ContainerId

pub record ProjectRuntimeSnapshot : Type 0 where
  pub compose_project_name : Text
  pub working_directory : Option Text
  pub config_files : List Text
  pub containers : List ContainerInstance

pub record RuntimeInventory : Type 0 where
  pub generation : ℕ
  pub has_snapshot : Bool
  pub observed_at : Option Timestamp
  pub runtime_session_id : Option RuntimeSessionId
  pub daemon_fingerprint : Option DaemonFingerprint
  pub freshness : InventoryFreshness
  pub last_successful_observed_at : Option Timestamp
  pub containers : List ContainerInstance
  pub project_snapshots : List ProjectRuntimeSnapshot
  pub compose_observation_groups : List ComposeObservationGroup
  pub standalone_containers : List ContainerInstance
  pub error : Option AppError

-- `RuntimeInventory::unavailable`
abbrev pub inventory_unavailable : RuntimeInventory
inventory_unavailable = record {
  generation = 0;
  has_snapshot = false;
  observed_at = none;
  runtime_session_id = none;
  daemon_fingerprint = none;
  freshness = InventoryFreshness.unavailable;
  last_successful_observed_at = none;
  containers = [];
  project_snapshots = [];
  compose_observation_groups = [];
  standalone_containers = [];
  error = none;
}

pub record ComposeContainerMetadata : Type 0 where
  pub project : Text
  pub service : Option Text
  pub working_directory : Option Text
  pub config_files : List Text

pub record ContainerObservation : Type 0 where
  pub container : ContainerInstance
  pub compose : Option ComposeContainerMetadata
