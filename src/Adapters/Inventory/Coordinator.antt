-- ===== src/Adapters/Inventory/Coordinator.antt =====
-- crates/colui-adapters/src/inventory.rs: refreshes that many callers wait for, in any order of their
-- critical sections.
use colui.Prelude.{
  ℕ, Bool, true, false, ◌&&◌, List, [], ◌∷◌, Option, none, some, Result, leb, ltb, if◌then◌else◌,
  nat_eq, checked_add_u64, is_none,
}
use colui.Prelude.Map.{Map, lookup, insert}
use colui.Domain.Text.{Uuids}
use colui.Domain.AppError.{AppError}
use colui.Domain.Inventory.{RuntimeInventory, ContainerObservation, Timestamp}
use colui.Domain.Runtime.{SessionContext}
use colui.Adapters.Inventory.Refresh.{Published, initial_state, complete_refresh}

abbrev pub RefreshResult : Type 0
RefreshResult = Result AppError RuntimeInventory

-- Where a call of `refresh_inner` stands: before the section that holds the state's mutex, waiting
-- for the refresh with a start order, or at its end.
pub data Caller : Type 0 where
  entering : Bool → Option ℕ → Caller
  waiting : Bool → Option ℕ → Bool → ℕ → Caller
  returned : Option ℕ → ℕ → RefreshResult → Caller
  refused : Option AppError → Caller

-- The refresh in flight is known by its start order, and so is the channel that its result is sent
-- through.
pub record Coordinator : Type 0 where
  pub published : Published
  pub observation_order : ℕ
  pub in_flight : Option ℕ
  pub completed : Map ℕ RefreshResult
  pub callers : Map ℕ Caller

abbrev pub new_coordinator : Coordinator
new_coordinator = record {
  published = initial_state;
  observation_order = 0;
  in_flight = none;
  completed = [];
  callers = [];
}

-- What happens: a marker is drawn, a call begins, a call runs its section at a monotonic time, the
-- worker ends the refresh in flight, and a caller that waits for a result wakes up.
pub data Event : Type 0 where
  draw_marker : Event
  call : ℕ → Bool → Option ℕ → Event
  section : ℕ → ℕ → Event
  complete : Timestamp → ℕ → Result AppError (SessionContext × List ContainerObservation) → Event
  wake : ℕ → Event

abbrev pub put_caller : ℕ → Caller → Coordinator → Coordinator
put_caller id c s = record s { callers = insert id c s.callers }

-- `is_none_or(|marker| start_order > marker)`
abbrev pub is_after : Option ℕ → ℕ → Bool
is_after none start_order = true
is_after (some marker) start_order = ltb marker start_order

-- `is_some_and(|deadline| monotonic < deadline)`
abbrev pub is_put_off : Option ℕ → ℕ → Bool
is_put_off none monotonic = false
is_put_off (some deadline) monotonic = ltb monotonic deadline

-- A marker is one that the coordinator has given.
abbrev pub was_given : Option ℕ → ℕ → Bool
was_given none order = true
was_given (some marker) order = leb marker order

abbrev pub start_refresh : ℕ → Bool → Option ℕ → Option ℕ → Coordinator → Option Coordinator
start_refresh id automatic after none s = none
start_refresh id automatic after (some order) s = some (record s {
  observation_order = order;
  in_flight = some order;
  callers = insert id (waiting automatic after true order) s.callers;
})

-- A refresh in flight is joined, else one is begun.
abbrev pub join_or_start : ℕ → Bool → Option ℕ → Option ℕ → Coordinator → Option Coordinator
join_or_start id automatic after (some start_order) s =
    some (put_caller id (waiting automatic after (is_after after start_order) start_order) s)
join_or_start id automatic after none s =
    start_refresh id automatic after (checked_add_u64 s.observation_order 1) s

abbrev pub run_section : ℕ → ℕ → Option Caller → Coordinator → Option Coordinator
run_section id monotonic (some (entering automatic after)) s =
    if automatic && is_put_off s.published.retry_at monotonic
    then some (put_caller id (refused s.published.current.error) s)
    else join_or_start id automatic after s.in_flight s
run_section id monotonic _ s = none

-- A result satisfies the caller if the refresh was eligible, else the loop goes on.
abbrev pub take_result :
    ℕ → Bool → Option ℕ → Bool → ℕ → Option RefreshResult → Coordinator → Option Coordinator
take_result id automatic after eligible start_order none s = none
take_result id automatic after true start_order (some result) s =
    some (put_caller id (returned after start_order result) s)
take_result id automatic after false start_order (some result) s =
    some (put_caller id (entering automatic after) s)

abbrev pub run_wake : ℕ → Option Caller → Coordinator → Option Coordinator
run_wake id (some (waiting automatic after eligible start_order)) s =
    take_result id automatic after eligible start_order (lookup start_order s.completed) s
run_wake id _ s = none

abbrev pub drawn : Option ℕ → Coordinator → Option Coordinator
drawn none s = none
drawn (some order) s = some (record s { observation_order = order })

module _ ⦃u : Uuids⦄ where
  abbrev pub complete_flight :
      Timestamp
      → ℕ
      → Result AppError (SessionContext × List ContainerObservation)
      → Option ℕ
      → Coordinator
      → Option Coordinator
  complete_flight now monotonic observed none s = none
  complete_flight now monotonic observed (some start_order) s =
      let answer = complete_refresh now monotonic s.published observed in
      some (record s {
        published = answer.1;
        in_flight = none;
        completed = insert start_order answer.0 s.completed;
      })

  -- One event, if it can happen: the orders are not used up.
  unfoldable pub step : Event → Coordinator → Option Coordinator
  unfolding lookup insert
  step draw_marker s = drawn (checked_add_u64 s.observation_order 1) s
  step (call id automatic after) s =
      if is_none (lookup id s.callers) && was_given after s.observation_order
      then some (put_caller id (entering automatic after) s)
      else none
  step (section id monotonic) s = run_section id monotonic (lookup id s.callers) s
  step (complete now monotonic observed) s = complete_flight now monotonic observed s.in_flight s
  step (wake id) s = run_wake id (lookup id s.callers) s

  -- The events of a run, one after the other.
  unfoldable pub run : List Event → Coordinator → Option Coordinator
  unfolding step
  run [] s = some s
  run (e ∷ es) s = elim (step e s) [ none ↦ none | some t ↦ run es t ]
