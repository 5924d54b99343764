-- ===== src/Adapters/Inventory/Tests.antt =====
-- The inventory (crates/colui-adapters/src/inventory.rs) of a few containers.
use colui.Prelude.{
  nat_eq, ◌≡◌, ◌≢◌, ◌<◌, refl, true, false, List, [], ◌∷◌, map, Option, none, some, ok, err, any,
}
use colui.Prelude.Map.{lookup, insert}
use colui.Domain.Text.{Text, Uuids, bytes}
use colui.Domain.AppError.{AppError, app_error, runtime_unavailable}
use colui.Domain.Inventory.{
  ContainerId, ContainerInstance, ContainerObservation, ComposeContainerMetadata, ContainerState,
}
use colui.Domain.Runtime.{SessionContext}
use colui.Domain.Trim.{trim}
use colui.Adapters.Inventory.Normalize.{GroupTuple, normalize}
use colui.Adapters.Inventory.Listed.{
  lists, groups, observed_in_project, observed_in_group, standalone_of, normalize-lists,
}
use colui.Adapters.Inventory.Refresh.{initial_state, Consistent, complete_refresh, lease_candidate}
use colui.Adapters.Inventory.Backoff.{
  initial_state-Consistent, Refresh, refresh_all, succeeds_in, refreshed-lease,
}
use colui.Adapters.Inventory.Coordinator.{
  refused, Event, Coordinator, new_coordinator, draw_marker, call, section, complete, wake, step,
  run,
}
use colui.Adapters.Inventory.Refusal.{refused-has_error}
use colui.Adapters.Inventory.Answered.{EndedIn, refresh_after-answered}

instance abbrev test_uuids : Uuids
test_uuids = record { to_text = λ n. n ∷ []; parse_str = λ t. none }

trimmed : trim (bytes " \t/srv/web \n") ≡ bytes "/srv/web"
unfolding trim
trimmed = refl

abbrev container : Text → ContainerInstance
container id = record {
  id = id;
  name = id;
  image = bytes "web";
  state = ContainerState.running;
  status_text = bytes "Up";
  service_name = none;
  published_ports = [];
}

abbrev web : ComposeContainerMetadata
web = record {
  project = bytes "web";
  service = none;
  working_directory = some (bytes " /srv/./web");
  config_files = bytes "compose.yaml" ∷ bytes "/srv/web/compose.yaml" ∷ [];
}

abbrev observations : List ContainerObservation
observations =
    record { container = container (bytes "b"); compose = some web }
    ∷ record { container = container (bytes "c"); compose = none }
    ∷ record { container = container (bytes "a"); compose = some web }
    ∷ []

abbrev session : SessionContext
session = record {
  session_id = 4;
  endpoint = bytes "unix";
  daemon_fingerprint = record {
    daemon_id = [];
    server_version = [];
    os_type = [];
    architecture = [];
  };
  connected_at = bytes "now";
}

normalize-lists_example :
    ((normalize 1 (bytes "now") session observations).containers
      ≡ map (λ o. o.container) observations)
    × (((normalize 1 (bytes "now") session observations).standalone_containers
          ≡ standalone_of observations)
        × (((name : Text) (id : ContainerId)
              → any
                  (lists name id)
                  (normalize 1 (bytes "now") session observations).project_snapshots
                ≡ any (observed_in_project name id) observations)
            × ((tuple : GroupTuple) (id : ContainerId)
                → any
                    (groups tuple id)
                    (normalize 1 (bytes "now") session observations).compose_observation_groups
                  ≡ any (observed_in_group tuple id) observations)))
normalize-lists_example = normalize-lists 1 (bytes "now") session observations

abbrev failure : AppError
failure = app_error runtime_unavailable "inventory" none "no daemon"

-- Two refreshes that succeed, with one between them that fails.
abbrev refreshes : List Refresh
refreshes =
    (bytes "now", (20, ok (session, observations)))
    ∷ (bytes "then", (30, err failure))
    ∷ (bytes "later", (40, ok (session, [])))
    ∷ []

refreshed-lease_example : lease_candidate 4 0 (refresh_all refreshes initial_state).current ≢ ok tt
unfolding succeeds_in complete_refresh
refreshed-lease_example = refreshed-lease refreshes initial_state 4 initial_state-Consistent refl

-- One caller begins a refresh, another draws a marker, joins it, and has to begin a second one.
abbrev events : List Event
events =
    call 1 true none
    ∷ section 1 0
    ∷ draw_marker
    ∷ call 2 false (some 2)
    ∷ section 2 0
    ∷ complete (bytes "now") 20 (err failure)
    ∷ wake 1
    ∷ wake 2
    ∷ section 2 40
    ∷ complete (bytes "now") 41 (err failure)
    ∷ wake 2
    ∷ []

abbrev ended : Option Coordinator → Coordinator
ended none = new_coordinator
ended (some s) = s

refresh_after-answered_example : (2 < 3) × EndedIn events new_coordinator 3 (err failure)
unfolding run step lookup insert complete_refresh
refresh_after-answered_example =
    refresh_after-answered events (ended (run events new_coordinator)) 2 2 3 (err failure) refl refl

refused-has_error_example :
    Consistent (ended (run events new_coordinator)).published
    × (lookup 2 (ended (run events new_coordinator)).callers ≢ some (refused none))
unfolding run step lookup insert complete_refresh
refused-has_error_example = refused-has_error events (ended (run events new_coordinator)) 2 refl
