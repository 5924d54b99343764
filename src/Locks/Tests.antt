-- ===== src/Locks/Tests.antt =====
-- Runs of the lock manager of crates/colui-adapters/src/operations.rs.
use colui.Prelude.{
  ℕ, ◌≡◌, nat_eq, list_eq, ◌<◌, ◌↔◌, refl, arith, true, false, List, [], ◌∷◌, none, err,
}
use colui.Prelude.Map.{lookup, insert, remove}
use colui.Domain.Text.{Uuids, bytes}
use colui.Domain.Inventory.{Timestamp}
use colui.App.Operations.{stop, lifecycle_pending}
use colui.Locks.State.{done, locked, would_block, FileAttempt, new_locks, acquire_file}
use colui.Locks.Sections.{
  enter_shared, release_shared, reserve_profile, enter_definition, enter_container, enter_recovery,
  release_recovery, wait_round, take_permit, release_definition, release_container, remove_if_idle,
}
use colui.Locks.Guards.{Guard, reservation, lifecycle, definition, count, remove_one}
use colui.Locks.System.{
  start, Event, enter, leave, reserve, define, look, undefine, wake, contain, uncontain, recover,
  unrecover, run, step,
}
use colui.Locks.Handlers
use colui.Locks.Handlers.{Call, call, is_busy}
use colui.Locks.Calls.{trace, call-run}
use colui.Locks.Refusal.{SameLocks, refused-SameLocks}
use colui.Locks.Exclusion.{guards_exclude}
use colui.Locks.Progress.{reservation_progress, reservation_has_priority, never_panics, quiescent}
use colui.Locks.Invariant.{belongs}
use colui.Locks.Busy.{idle_iff}

instance abbrev test_uuids : Uuids
test_uuids = record { to_text = λ n. n ∷ []; parse_str = λ t. none }

abbrev now : Timestamp
now = bytes "2026-01-01T00:00:00Z"

-- A definition load, a lifecycle reservation that waits for it, and the end of the load.
abbrev schedule : List Event
schedule =
    enter ∷ define 7 now ∷ enter ∷ reserve 7 stop now ∷ look 7 1 now ∷ undefine 7 0 ∷ leave ∷ []

abbrev good_file : FileAttempt
good_file = record { create_dir_all = done; open_file = done; try_lock = locked }

abbrev busy_file : FileAttempt
busy_file = record { create_dir_all = done; open_file = done; try_lock = would_block }

abbrev finished : List Event
finished = enter ∷ contain (bytes "c1") now ∷ uncontain (bytes "c1") ∷ recover ∷ unrecover ∷ []

abbrev restart_call : Call
restart_call = Call.lifecycle 7 stop busy_file now

guards_exclude_example :
    (reservation 7 1 ≡ reservation 7 1) × (count (reservation 7 1) (run start schedule).held ≡ 1)
unfolding run step enter_shared reserve_profile enter_definition wait_round take_permit
    release_definition release_shared remove_if_idle lookup insert remove count remove_one
guards_exclude_example =
    guards_exclude schedule (reservation 7 1) (reservation 7 1) refl (omega arith) (omega arith)

no_definition : (t : ℕ) → count (definition 7 t) (run start schedule).held ≡ 0
unfolding run step enter_shared reserve_profile enter_definition wait_round take_permit
    release_definition release_shared remove_if_idle lookup insert remove count remove_one
no_definition t = refl

reservation_progress_example :
    0 < count (lifecycle 7 1) (run (run start schedule) (wake 7 1 ∷ look 7 1 now ∷ [])).held
unfolding run step enter_shared reserve_profile enter_definition wait_round take_permit
    release_definition release_shared remove_if_idle lookup insert remove count remove_one
reservation_progress_example = reservation_progress schedule 7 1 now (omega arith) no_definition

reservation_has_priority_example :
    (enter_definition (run start schedule).state 7 now).0 ≡ err lifecycle_pending
unfolding run step enter_shared reserve_profile enter_definition wait_round take_permit
    release_definition release_shared remove_if_idle lookup insert remove count remove_one
reservation_has_priority_example = reservation_has_priority schedule 7 1 now (omega arith)

never_panics_example : (run start schedule).panicked ≡ false
never_panics_example = never_panics schedule

quiescent_example :
    (lookup 7 (run start finished).state.profiles ≡ none)
    × (lookup (bytes "c1") (run start finished).state.barrier.containers ≡ none)
    × ((run start finished).state.barrier.shared ≡ 0)
    × ((run start finished).state.barrier.recovering ≡ false)
unfolding run step enter_shared reserve_profile enter_container release_container enter_recovery
    release_recovery enter_definition wait_round take_permit release_definition release_shared
    remove_if_idle lookup insert remove count remove_one
quiescent_example = quiescent finished 7 (bytes "c1") refl

idle_iff_example :
    (is_busy (run start schedule).state 7 ≡ false)
    ↔ ((g : Guard) → belongs 7 g ≡ true → count g (run start schedule).held ≡ 0)
idle_iff_example = idle_iff schedule 7

call-run_example :
    (run (run start schedule) (trace (run start schedule).state restart_call)).state
    ≡ (call (run start schedule).state restart_call).1
call-run_example = call-run (run start schedule) restart_call

refused-SameLocks_example : SameLocks (call new_locks restart_call).1 new_locks
unfolding call Handlers.reserve_lifecycle Handlers.acquire_shared acquire_file enter_shared
refused-SameLocks_example = refused-SameLocks new_locks restart_call refl
