-- ===== src/Locks/System.antt =====
-- Threads that share the lock manager of crates/colui-adapters/src/operations.rs: the guards that
-- are held, the reservations that sleep on a notification, and every critical section as one step.
use colui.Prelude.{
  ℕ, Bool, true, false, ◌&&◌, not, List, [], ◌∷◌, Option, none, some, Result, ok, err, ◌==◌, nat_eq,
  list_eq, if◌then◌else◌, ltb,
}
use colui.Domain.Text.{Text, Uuids}
use colui.Domain.AppError.{ProfileId}
use colui.Domain.Inventory.{Timestamp}
use colui.App.Operations.{LifecycleOperation}
use colui.Locks.State.{LockState, new_locks}
use colui.Locks.Sections.{
  Round, promoted, waits, panics, enter_shared, release_shared, reserve_profile, enter_definition,
  enter_container, enter_recovery, wait_round, take_permit, release_pending, release_lifecycle,
  release_definition, release_container, release_recovery,
}
use colui.Locks.Guards.{
  Guard, ticket, mutation, recovery, reservation, lifecycle, definition, container, guard_eq, count,
  remove_one,
}

pub record System : Type 0 where
  pub state : LockState
  pub held : List Guard
  pub sleeping : ProfileId → ℕ → Bool
  pub panicked : Bool

abbrev pub start : System
start = record { state = new_locks; held = []; sleeping = λ id token. false; panicked = false }

-- What a thread may do next. An event whose guard is not held does nothing.
pub data Event : Type 0 where
  -- `acquire_shared`, and `release_shared` by a thread that holds no lease.
  enter leave : Event
  -- The rest of `acquire_lifecycle`, `acquire_definition`, `acquire_container`, `acquire_mutation`.
  reserve : ProfileId → LifecycleOperation → Timestamp → Event
  define : ProfileId → Timestamp → Event
  contain : Text → Timestamp → Event
  mutate : Event
  -- `acquire_recovery`.
  recover : Event
  -- A round of `wait_for_definition`, and the return of its `notified`.
  look : ProfileId → ℕ → Timestamp → Event
  wake : ProfileId → ℕ → Event
  -- The end of each guard; `cancel` drops a reservation.
  cancel finish undefine : ProfileId → ℕ → Event
  uncontain : Text → Event
  unmutate unrecover : Event

abbrev pub holds : Guard → System → Bool
holds g y = ltb 0 (count g y.held)

-- One guard is exchanged for another.
abbrev pub exchange : Guard → Guard → List Guard → List Guard
exchange old new held = new ∷ remove_one old held

abbrev pub set_sleeping : (ProfileId → ℕ → Bool) → ProfileId → ℕ → Bool → ProfileId → ℕ → Bool
set_sleeping f id token b j v = if id == j && token == v then b else f j v

module _ ⦃u : Uuids⦄ where
  abbrev pub after_enter : {E : Type 0} → System → Guard → Result E (Unit {0}) × LockState → System
  after_enter y g (ok done, s) = record y { state = s; held = g ∷ y.held }
  after_enter y g (err e, s) = record y { state = s }

  abbrev pub after_lease : {E A : Type 0} → System → (A → Guard) → Result E A × LockState → System
  after_lease y g (ok a, s) = record y { state = s; held = exchange ticket (g a) y.held }
  after_lease y g (err e, s) = record y { state = s; held = remove_one ticket y.held }

  abbrev pub after_round : System → ProfileId → ℕ → Round × LockState → System
  after_round y id token (promoted, s) = record y {
    state = s;
    held = exchange (reservation id token) (lifecycle id token) y.held;
  }
  after_round y id token (waits, s) = record y {
    state = s;
    sleeping = set_sleeping y.sleeping id token true;
  }
  after_round y id token (panics, s) = record y { state = s; panicked = true }

  abbrev pub after_wake : System → ProfileId → ℕ → Option LockState → System
  after_wake y id token none = y
  after_wake y id token (some s) = record y {
    state = s;
    sleeping = set_sleeping y.sleeping id token false;
  }

  abbrev pub reserve_step : System → ProfileId → LifecycleOperation → Timestamp → System
  reserve_step y id kind now =
      after_lease y (λ token. reservation id token) (reserve_profile y.state id kind now)

  abbrev pub define_step : System → ProfileId → Timestamp → System
  define_step y id now =
      after_lease y (λ token. definition id token) (enter_definition y.state id now)

  abbrev pub contain_step : System → Text → Timestamp → System
  contain_step y c now = after_lease y (λ _. container c) (enter_container y.state c now)

  abbrev pub cancel_step : System → ProfileId → ℕ → System
  cancel_step y id token = record y {
    state = release_pending y.state id token;
    held = exchange (reservation id token) ticket y.held;
    sleeping = set_sleeping y.sleeping id token false;
  }

  abbrev pub finish_step : System → ProfileId → ℕ → System
  finish_step y id token = record y {
    state = release_lifecycle y.state id token;
    held = exchange (lifecycle id token) ticket y.held;
  }

  abbrev pub undefine_step : System → ProfileId → ℕ → System
  undefine_step y id token = record y {
    state = release_definition y.state id token;
    held = exchange (definition id token) ticket y.held;
  }

  unfoldable pub step : System → Event → System
  step y enter = after_enter y ticket (enter_shared y.state)
  step y leave =
      if holds ticket y
      then record y { state = release_shared y.state; held = remove_one ticket y.held }
      else y
  step y (reserve id kind now) = if holds ticket y then reserve_step y id kind now else y
  step y (define id now) = if holds ticket y then define_step y id now else y
  step y (contain c now) = if holds ticket y then contain_step y c now else y
  step y mutate = if holds ticket y then record y { held = exchange ticket mutation y.held } else y
  step y recover = after_enter y recovery (enter_recovery y.state)
  step y (look id token now) =
      if holds (reservation id token) y && not (y.sleeping id token)
      then after_round y id token (wait_round y.state id token now)
      else y
  step y (wake id token) =
      if holds (reservation id token) y && y.sleeping id token
      then after_wake y id token (take_permit y.state id)
      else y
  step y (cancel id token) = if holds (reservation id token) y then cancel_step y id token else y
  step y (finish id token) = if holds (lifecycle id token) y then finish_step y id token else y
  step y (undefine id token) = if holds (definition id token) y then undefine_step y id token else y
  step y (uncontain c) =
      if holds (container c) y
      then record y { state = release_container y.state c; held = remove_one (container c) y.held }
      else y
  step y unmutate =
      if holds mutation y
      then record y { state = release_shared y.state; held = remove_one mutation y.held }
      else y
  step y unrecover =
      if holds recovery y
      then record y { state = release_recovery y.state; held = remove_one recovery y.held }
      else y

  -- Any schedule of the threads.
  unfoldable pub run : System → List Event → System
  run y [] = y
  run y (e ∷ es) = run (step y e) es
