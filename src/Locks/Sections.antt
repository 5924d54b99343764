-- ===== src/Locks/Sections.antt =====
-- The critical sections of the lock manager: what a thread does while it holds the mutex of the
-- profiles or of the barrier (crates/colui-adapters/src/operations.rs).
use colui.Prelude.{
  ℕ, ◌+◌, ◌-◌, Bool, true, false, not, ◌&&◌, ◌||◌, Option, none, some, Result, ok, err, ◌==◌,
  nat_eq, list_eq, if◌then◌else◌, is_some, is_none, unwrap_or,
}
use colui.Prelude.Map.{Map, lookup, insert, remove}
use colui.Domain.Text.{Text, Uuids}
use colui.Domain.AppError.{AppError, ProfileId, app_error, operation_conflict}
use colui.Domain.Inventory.{Timestamp}
use colui.App.Operations.{LifecycleOperation, DefinitionBusy, lifecycle_pending, definition_active}
use colui.Locks.State.{
  LockState, ProfileState, LifecycleLease, pending, active, DefinitionLease, new_profile,
  wrapping_inc, bump_projection, with_barrier, conflict,
}

abbrev pub Profiles : Type 0
Profiles = Map ProfileId ProfileState

-- The state that `entry(id).or_insert_with(ProfileState::new)` refers to, and the map after it.
abbrev pub profile_or_new : ProfileId → Profiles → ProfileState
profile_or_new id profiles = unwrap_or (lookup id profiles) new_profile

abbrev pub or_insert_new : ProfileId → Profiles → Profiles
or_insert_new id profiles = elim (lookup id profiles) [
  | none ↦ insert id new_profile profiles
  | some profile ↦ profiles
]

-- `matches!(lifecycle, Some(Pending { token: current, .. }) if current == token)`
abbrev pub is_pending : ℕ → Option LifecycleLease → Bool
is_pending token (some (pending current kind at)) = current == token
is_pending token _ = false

abbrev pub is_active : ℕ → Option LifecycleLease → Bool
is_active token (some (active current kind at)) = current == token
is_active token _ = false

abbrev pub holds_definition : ℕ → Option DefinitionLease → Bool
holds_definition token none = false
holds_definition token (some lease) = lease.token == token

-- `remove_if_idle`
unfoldable pub remove_if_idle : ProfileId → Profiles → Profiles
remove_if_idle id profiles = elim (lookup id profiles) [
  | none ↦ profiles
  | some profile ↦
      if is_none profile.lifecycle && is_none profile.definition
      then remove id profiles
      else profiles
]

-- `release_shared`: the subtraction saturates.
unfoldable pub release_shared : LockState → LockState
release_shared s = with_barrier s (record (s.barrier) { shared = s.barrier.shared - 1 })

module _ ⦃u : Uuids⦄ where
  -- The first section of `acquire_shared`.
  unfoldable pub enter_shared : LockState → Result AppError (Unit {0}) × LockState
  enter_shared s =
      if s.barrier.recovering
      then (err (conflict "acquire_operation" "registry recovery in progress"), s)
      else (ok tt, with_barrier s (record (s.barrier) { shared = s.barrier.shared + 1 }))

  -- `reserve_lifecycle` after `acquire_shared`; the result is the reservation's token.
  unfoldable pub reserve_profile :
      LockState → ProfileId → LifecycleOperation → Timestamp → Result AppError ℕ × LockState
  reserve_profile s id kind now =
      let token = s.next_token in
      let profile = profile_or_new id s.profiles in
      let entered = record s {
        next_token = wrapping_inc s.next_token;
        profiles = or_insert_new id s.profiles;
      } in
      if is_some profile.lifecycle
      then (
        err (
            app_error operation_conflict "acquire_lifecycle" (some id)
              "operation already in progress"),
        release_shared entered,
      )
      else (
        ok token,
        bump_projection (record entered {
          profiles =
              insert id (record profile { lifecycle = some (pending token kind now) })
                entered.profiles;
        }),
      )

  -- `acquire_container` after `acquire_shared`.
  unfoldable pub enter_container :
      LockState → Text → Timestamp → Result AppError (Unit {0}) × LockState
  enter_container s container_id now =
      if is_some (lookup container_id s.barrier.containers)
      then (
        err (conflict "acquire_container" "container operation already in progress"),
        with_barrier s (record (s.barrier) { shared = s.barrier.shared - 1 }),
      )
      else (
        ok tt,
        bump_projection (
            with_barrier s
              (record (s.barrier) { containers = insert container_id now s.barrier.containers })),
      )

  -- The first section of `acquire_recovery`.
  unfoldable pub enter_recovery : LockState → Result AppError (Unit {0}) × LockState
  enter_recovery s =
      if s.barrier.recovering || not (s.barrier.shared == 0)
      then (err (conflict "acquire_recovery" "operation already in progress"), s)
      else (ok tt, with_barrier s (record (s.barrier) { recovering = true }))

-- `acquire_definition` after `acquire_shared`; the result is the lease's token.
unfoldable pub enter_definition :
    LockState → ProfileId → Timestamp → Result DefinitionBusy ℕ × LockState
enter_definition s id now =
    let token = s.next_token in
    let profile = profile_or_new id s.profiles in
    let entered = record s {
      next_token = wrapping_inc s.next_token;
      profiles = or_insert_new id s.profiles;
    } in
    if is_some profile.lifecycle
    then (err lifecycle_pending, release_shared entered)
    else if is_some profile.definition
    then (err definition_active, release_shared entered)
    else (
      ok token,
      bump_projection (record entered {
        profiles =
            insert id
              (record profile { definition = some (record { token = token; started_at = now }) })
              entered.profiles;
      }),
    )

-- One round of the loop in `wait_for_definition`: the reservation is promoted, waits for a
-- notification, or has lost its profile state, where the program panics.
pub data Round : Type 0 where
  promoted waits panics : Round

abbrev pub round_on_lease :
    LockState → ProfileId → ℕ → Timestamp → ProfileState → Option LifecycleLease → Round × LockState
round_on_lease s id token now profile (some (pending current kind at)) =
    if current == token
    then (if is_some profile.definition then (waits, s) else (
      promoted,
      bump_projection (record s {
        profiles =
            insert id (record profile { lifecycle = some (active current kind now) }) s.profiles;
      }),
    ))
    else (panics, s)
round_on_lease s id token now profile _ = (panics, s)

unfoldable pub wait_round : LockState → ProfileId → ℕ → Timestamp → Round × LockState
wait_round s id token now = elim (lookup id s.profiles) [
  | none ↦ (panics, s)
  | some profile ↦ round_on_lease s id token now profile profile.lifecycle
]

-- `notified`: the stored permit is taken, if there is one.
unfoldable pub take_permit : LockState → ProfileId → Option LockState
take_permit s id = elim (lookup id s.profiles) [
  | none ↦ none
  | some profile ↦
      if profile.notify
      then some (record s { profiles = insert id (record profile { notify = false }) s.profiles })
      else none
]

-- `profile.lifecycle = None; profile.notify.notify_one(); remove_if_idle(..)`
abbrev clear_lifecycle : ProfileId → ProfileState → Profiles → Profiles
clear_lifecycle id profile profiles =
    remove_if_idle id (insert id (record profile { lifecycle = none; notify = true }) profiles)

abbrev clear_definition : ProfileId → ProfileState → Profiles → Profiles
clear_definition id profile profiles =
    remove_if_idle id (insert id (record profile { definition = none; notify = true }) profiles)

abbrev with_profiles : LockState → Profiles → LockState
with_profiles s profiles = record s { profiles = profiles }

unfoldable pub release_pending : LockState → ProfileId → ℕ → LockState
release_pending s id token = bump_projection (
    with_profiles s (elim (lookup id s.profiles) [
      | none ↦ s.profiles
      | some profile ↦
          if is_pending token profile.lifecycle && is_none profile.definition
          then remove id s.profiles
          else if is_pending token profile.lifecycle
          then clear_lifecycle id profile s.profiles
          else s.profiles
    ]))

unfoldable pub release_lifecycle : LockState → ProfileId → ℕ → LockState
release_lifecycle s id token = bump_projection (
    with_profiles s (elim (lookup id s.profiles) [
      | none ↦ s.profiles
      | some profile ↦
          if is_active token profile.lifecycle
          then clear_lifecycle id profile s.profiles
          else s.profiles
    ]))

unfoldable pub release_definition : LockState → ProfileId → ℕ → LockState
release_definition s id token = bump_projection (
    with_profiles s (elim (lookup id s.profiles) [
      | none ↦ s.profiles
      | some profile ↦
          if holds_definition token profile.definition
          then clear_definition id profile s.profiles
          else s.profiles
    ]))

-- The end of a `ContainerOperationGuard`.
unfoldable pub release_container : LockState → Text → LockState
release_container s container_id = bump_projection (
    with_barrier s (record (s.barrier) {
      containers = remove container_id s.barrier.containers;
      shared = s.barrier.shared - 1;
    }))

-- The end of a `RegistryRecoveryGuard`, and of a recovery whose file was not locked.
unfoldable pub release_recovery : LockState → LockState
release_recovery s = with_barrier s (record (s.barrier) { recovering = false })
