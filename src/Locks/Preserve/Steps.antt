-- ===== src/Locks/Preserve/Steps.antt =====
-- The invariant of the lock manager under any schedule (crates/colui-adapters/src/operations.rs).
use colui.Prelude.{
  ◌≡◌, refl, true, false, not, ◌&&◌, List, [], ◌∷◌, arith, Bool, nat_eq, if◌then◌else◌,
}
use colui.Prelude.Map.{lookup}
use colui.Domain.Text.{Uuids}
use colui.Locks.Guards.{
  Guard, ticket, recovery, is_lease, reservation, lifecycle, definition, count, count_shared,
}
use colui.Locks.System.{
  System, start, Event, enter, leave, reserve, define, contain, mutate, recover, look, wake, cancel,
  finish, undefine, uncontain, unmutate, unrecover, holds, step, run,
}
use colui.Locks.Invariant.{Inv, expected}
use colui.Locks.Preserve.Ends.{cancel-Inv, finish-Inv, undefine-Inv}
use colui.Locks.Preserve.Begins.{reserve-Inv, define-Inv}
use colui.Locks.Preserve.Waits.{look-Inv, wake-Inv}
use colui.Locks.Preserve.Barrier.{
  enter-Inv, leave-Inv, contain-Inv, mutate-Inv, recover-Inv, uncontain-Inv, unmutate-Inv,
  unrecover-Inv,
}

-- A step that is taken only if its test passes.
if-Inv : {y z : System} (b : Bool) → Inv y → (b ≡ true → Inv z) → Inv (if b then z else y)
if-Inv true v f = f refl
if-Inv false v f = v

module _ ⦃u : Uuids⦄ where
  pub step-Inv : (y : System) (e : Event) → Inv y → Inv (step y e)
  unfolding step
  step-Inv y enter v = enter-Inv y v
  step-Inv y leave v = leave-Inv y v
  step-Inv y (reserve id kind now) v = if-Inv (holds ticket y) v (reserve-Inv y v id now kind)
  step-Inv y (define id now) v = if-Inv (holds ticket y) v (define-Inv y v id now)
  step-Inv y (contain c now) v = if-Inv (holds ticket y) v (contain-Inv y v c now)
  step-Inv y mutate v = mutate-Inv y v
  step-Inv y recover v = recover-Inv y v
  step-Inv y (look id token now) v =
      if-Inv (holds (reservation id token) y && not (y.sleeping id token)) v
        (λ h. look-Inv y v id token now (ground (arith, h)) (ground (arith, h)))
  step-Inv y (wake id token) v =
      if-Inv (holds (reservation id token) y && y.sleeping id token) v
        (λ h. wake-Inv y v id token (ground (arith, h)))
  step-Inv y (cancel id token) v =
      if-Inv (holds (reservation id token) y) v (cancel-Inv y v id token)
  step-Inv y (finish id token) v = if-Inv (holds (lifecycle id token) y) v (finish-Inv y v id token)
  step-Inv y (undefine id token) v =
      if-Inv (holds (definition id token) y) v (undefine-Inv y v id token)
  step-Inv y (uncontain c) v = uncontain-Inv y v c
  step-Inv y unmutate v = unmutate-Inv y v
  step-Inv y unrecover v = unrecover-Inv y v

  start_exact : (g : Guard) → is_lease g ≡ true → count g start.held ≡ expected start.state g
  unfolding count lookup
  start_exact ticket l = cc
  start_exact recovery l = refl
  start_exact _ l = refl

  start-Inv : Inv start
  unfolding count count_shared lookup
  start-Inv = record {
    exact = start_exact;
    shared_count = refl;
    alone = λ r. refl;
    sound = λ id. refl;
    awake = λ id t s. cc;
    calm = refl;
  }

  run_from-Inv : (y : System) (es : List Event) → Inv y → Inv (run y es)
  unfolding run
  run_from-Inv y [] v = v
  run_from-Inv y (e ∷ es) v = run_from-Inv (step y e) es (step-Inv y e v)

  -- Under every schedule of threads on a new lock manager: each lease in the state has exactly one
  -- guard, the barrier counts the shared guards, recovery holds it alone, no profile without a
  -- lease keeps an entry, every sleeping reservation is or will be notified, and nothing panics.
  pub run-Inv : (es : List Event) → Inv (run start es)
  run-Inv es = run_from-Inv start es start-Inv
