-- ===== src/Adapters/Inventory/Refresh.antt =====
-- crates/colui-adapters/src/inventory.rs: how a refresh ends, and the lease of a candidate. Times
-- are counted in seconds.
use colui.Prelude.{
  ℕ, ◌+◌, ◌≡◌, ◌≤◌, Bool, true, false, not, ◌||◌, ◌&&◌, List, Option, String, none, some, Result,
  ok, err, and_then, checked_add_u64, u32_max, u64_max, if◌then◌else◌, leb, ◌==◌, nat_eq, list_eq,
  option_eq, is_none,
}
use colui.Domain.Text.{Uuids}
use colui.Domain.AppError.{AppError, app_error, runtime_unavailable}
use colui.Domain.Inventory.{
  RuntimeInventory, InventoryFreshness, ContainerObservation, Timestamp, RuntimeSessionId,
  inventory_unavailable, DaemonFingerprint,
}
use colui.Domain.Runtime.{SessionContext}
use colui.Adapters.Inventory.Normalize.{normalize}

-- `State` without the refresh in flight.
pub record Published : Type 0 where
  pub current : RuntimeInventory
  pub generation : ℕ
  pub failures : ℕ
  pub retry_at : Option ℕ

abbrev pub initial_state : Published
initial_state = record {
  current = inventory_unavailable;
  generation = 0;
  failures = 0;
  retry_at = none;
}

abbrev pub delay : ℕ → ℕ
delay failures =
    if failures == 1
    then 1
    else if failures == 2
    then 2
    else if failures == 3
    then 4
    else if failures == 4
    then 8
    else 10

abbrev pub saturating_add_u32 : ℕ → ℕ → ℕ
saturating_add_u32 a b = if leb (a + b) u32_max then a + b else u32_max

abbrev pub fingerprint_eq : DaemonFingerprint → DaemonFingerprint → Bool
fingerprint_eq a b =
    a.daemon_id == b.daemon_id
    && a.server_version == b.server_version
    && a.os_type == b.os_type
    && a.architecture == b.architecture

module _ ⦃u : Uuids⦄ where
  abbrev pub inventory_error : String → AppError
  inventory_error message = app_error runtime_unavailable "inventory" none message

  abbrev pub session_changed : SessionContext → SessionContext → Bool
  session_changed captured after =
      not (captured.session_id == after.session_id)
      || not (fingerprint_eq captured.daemon_fingerprint after.daemon_fingerprint)

  -- `observe`, given what the runtime answers to its three questions
  unfoldable pub observe :
      Result AppError SessionContext
      → Result AppError (List ContainerObservation)
      → Result AppError SessionContext
      → Result AppError (SessionContext × List ContainerObservation)
  observe before listed context = and_then before (λ captured. and_then listed (λ observations.
      and_then context (λ after.
        if session_changed captured after
        then err (inventory_error "runtime session changed")
        else ok (captured, observations))))

  abbrev pub retained_freshness : Bool → InventoryFreshness
  retained_freshness true = InventoryFreshness.stale
  retained_freshness false = InventoryFreshness.unavailable

  abbrev pub publish :
      Timestamp
      → SessionContext
      → List ContainerObservation
      → Published
      → Option ℕ
      → Result AppError RuntimeInventory × Published
  publish now captured observations s none =
      (err (inventory_error "inventory generation exhausted"), s)
  publish now captured observations s (some generation) = (
    ok (normalize generation now captured observations),
    record {
      current = normalize generation now captured observations;
      generation = generation;
      failures = 0;
      retry_at = none;
    },
  )

  -- `complete_refresh`, at a time of the wall clock and one of the monotonic clock
  unfoldable pub complete_refresh :
      Timestamp
      → ℕ
      → Published
      → Result AppError (SessionContext × List ContainerObservation)
      → Result AppError RuntimeInventory × Published
  complete_refresh now monotonic s (ok (captured, observations)) =
      publish now captured observations s (checked_add_u64 s.generation 1)
  complete_refresh now monotonic s (err e) =
      let failures = saturating_add_u32 s.failures 1 in
      (
        err e,
        record s {
          current = record s.current {
            freshness = retained_freshness s.current.has_snapshot;
            error = some e;
          };
          failures = failures;
          retry_at = some (monotonic + delay failures);
        },
      )

  -- `lease_candidate`: whether the lease is given.
  unfoldable pub lease_candidate :
      RuntimeSessionId → ℕ → RuntimeInventory → Result AppError (Unit {0})
  lease_candidate session generation current =
      if not (current.runtime_session_id == some session) || not (current.generation == generation)
      then err (app_error runtime_unavailable "lease_candidate" none "discovery evidence changed")
      else ok tt

-- What holds of the state at all times: what is shown is of the generation, and an automatic
-- refresh is put off exactly while the last refreshes have failed and an error is shown.
pub record Consistent (s : Published) : Type 0 where
  pub same_generation : s.current.generation ≡ s.generation
  pub generation_bounded : s.generation ≤ u64_max
  pub failures_bounded : s.failures ≤ u32_max
  pub put_off : is_none s.retry_at ≡ (s.failures == 0)
  pub error_shown : is_none s.retry_at ≡ is_none s.current.error
