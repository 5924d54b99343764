-- ===== src/Locks/Progress.antt =====
-- What the lock manager never does, and what becomes of a reservation
-- (crates/colui-adapters/src/operations.rs).
use colui.Prelude.{
  ℕ, ◌≡◌, ◌<◌, refl, true, false, List, [], ◌∷◌, Option, none, some, arith, nat_eq, list_eq,
  eqb_iff, Bool-cases, Option-cases, is_some, inl, inr, err,
}
use colui.Prelude.Map.{lookup, insert, lookup-insert}
use colui.Domain.Text.{Text, Uuids}
use colui.Domain.AppError.{ProfileId}
use colui.Domain.Inventory.{Timestamp}
use colui.App.Operations.{lifecycle_pending}
use colui.Locks.State.{LockState, ProfileState, DefinitionLease, LifecycleLease, pending, active}
use colui.Locks.Sections.{wait_round, take_permit, enter_definition}
use colui.Locks.Guards.{
  recovery, reservation, lifecycle, definition, container, count, count_shared,
}
use colui.Locks.System.{System, start, Event, look, wake, holds, step, run}
use colui.Locks.Invariant.{Inv, pends}
use colui.Locks.Preserve.Ends.{holds-pends}
use colui.Locks.Preserve.Waits.{wait_round-promotes, after_round-promoted}
use colui.Locks.Preserve.Steps.{step-Inv, run-Inv}

module _ {y : System} (v : Inv y) (id : ProfileId) where
  -- A profile without a definition guard has no definition lease.
  idle_profile :
      (p : ProfileState)
      → lookup id y.state.profiles ≡ some p
      → ((t : ℕ) → count (definition id t) y.held ≡ 0)
      → is_some p.definition ≡ false
  idle_profile p e free = elim (Option-cases p.definition) [
    | inl d ↦ rw d
    | inr (lease, d) ↦ ground (
      arith,
      d,
      free lease.token,
      v.exact (definition id lease.token) refl,
      e,
      eqb_iff lease.token lease.token,
    )
  ]

module _ ⦃u : Uuids⦄ {y : System} (v : Inv y) (id : ProfileId) (token : ℕ) (now : Timestamp) where
  look_promotes :
      (p : ProfileState)
      → holds (reservation id token) y ≡ true
      → y.sleeping id token ≡ false
      → lookup id y.state.profiles ≡ some p
      → is_some p.definition ≡ false
      → 0 < count (lifecycle id token) (step y (look id token now)).held
  unfolding step count
  look_promotes p h calm e idle =
      let pend : pends token (some p) ≡ true = rw e at (holds-pends y v id token h) in
      let round = wait_round-promotes y.state id token now p e pend idle in
      rw (h, calm, after_round-promoted y v id token (wait_round y.state id token now) round.0)
        (ground (arith, eqb_iff id id, eqb_iff token token))

  abbrev quiet : ProfileState → LockState
  quiet p = record (y.state) { profiles = insert id (record p { notify = false }) y.state.profiles }

  permit_taken :
      (p : ProfileState)
      → y.sleeping id token ≡ true
      → lookup id y.state.profiles ≡ some p
      → is_some p.definition ≡ false
      → take_permit y.state id ≡ some (quiet p)
  unfolding take_permit
  permit_taken p asleep e idle =
      let permit : p.notify ≡ true = ground (arith, e, idle, v.awake id token asleep) in
      rw (e, take_permit) (ground (arith, permit))

  wakes :
      (p : ProfileState)
      → holds (reservation id token) y ≡ true
      → y.sleeping id token ≡ true
      → lookup id y.state.profiles ≡ some p
      → is_some p.definition ≡ false
      → let z = step y (wake id token) in
        (holds (reservation id token) z ≡ true)
        × (z.sleeping id token ≡ false)
        × (lookup id z.state.profiles ≡ some (record p { notify = false }))
  unfolding step
  wakes p h asleep e idle =
      simp (h, asleep, permit_taken p asleep e idle)
        (ground (
          arith,
          h,
          eqb_iff id id,
          eqb_iff token token,
          lookup-insert id id (record p { notify = false }) y.state.profiles,
        ))

  not_asleep :
      holds (reservation id token) y ≡ true
      → y.sleeping id token ≡ false
      → step y (wake id token) ≡ y
  unfolding step
  not_asleep h awake = simp (h, awake)

-- Two events suffice from any state that the invariant holds of.
reservation_step :
    ⦃u : Uuids⦄ {y : System} (v : Inv y) (id : ProfileId) (token : ℕ) (now : Timestamp)
    → holds (reservation id token) y ≡ true
    → ((t : ℕ) → count (definition id t) y.held ≡ 0)
    → 0 < count (lifecycle id token) (step (step y (wake id token)) (look id token now)).held
reservation_step {y} v id token now h free = elim (Option-cases (lookup id y.state.profiles)) [
  | inl e ↦ cc (rw e at (holds-pends y v id token h))
  | inr (p, e) ↦
      let idle = idle_profile v id p e free in
      elim (Bool-cases (y.sleeping id token)) [
        | inl asleep ↦
            let (kept, calm, entry) = wakes v id token now p h asleep e idle in
            look_promotes (step-Inv y (wake id token) v) id token now (record p { notify = false })
              kept calm entry idle
        | inr awake ↦
            rw (not_asleep v id token now h awake) (look_promotes v id token now p h awake e idle)
      ]
]

module _ {y : System} (v : Inv y) (id : ProfileId) (gone : y.held ≡ []) where
  leased_entry :
      (p : ProfileState) (l : Option LifecycleLease) (d : Option DefinitionLease)
      → lookup id y.state.profiles ≡ some p
      → p.lifecycle ≡ l
      → p.definition ≡ d
      → ⊥
  unfolding count
  leased_entry p (some (pending t k a)) d e le de =
      ground (arith, gone, v.exact (reservation id t) refl, eqb_iff t t)
  leased_entry p (some (active t k a)) d e le de =
      ground (arith, gone, v.exact (lifecycle id t) refl, eqb_iff t t)
  leased_entry p none (some lease) e le de =
      ground
        (arith, gone, v.exact (definition id lease.token) refl, eqb_iff lease.token lease.token)
  leased_entry p none none e le de = ground (arith, v.sound id)

  empty_entry : lookup id y.state.profiles ≡ none
  empty_entry = elim (Option-cases (lookup id y.state.profiles)) [
    | inl e ↦ e
    | inr (p, e) ↦ absurd (leased_entry p p.lifecycle p.definition e refl refl)
  ]

module _ ⦃u : Uuids⦄ (es : List Event) where
  -- After any schedule, a held reservation on a profile without a definition guard becomes a
  -- lifecycle guard in two steps, asleep or not: its notification is there, and the next round of
  -- its loop promotes it.
  pub reservation_progress :
      (id : ProfileId) (token : ℕ) (now : Timestamp)
      → 0 < count (reservation id token) (run start es).held
      → ((t : ℕ) → count (definition id t) (run start es).held ≡ 0)
      → 0
        < count
            (lifecycle id token)
            (run (run start es) (wake id token ∷ look id token now ∷ [])).held
  unfolding run
  reservation_progress id token now h free =
      reservation_step (run-Inv es) id token now (ground arith) free

  -- After any schedule, a definition load is refused on a profile with a reservation.
  pub reservation_has_priority :
      (id : ProfileId) (token : ℕ) (now : Timestamp)
      → 0 < count (reservation id token) (run start es).held
      → (enter_definition (run start es).state id now).0 ≡ err lifecycle_pending
  unfolding enter_definition
  reservation_has_priority id token now h =
      let v = run-Inv es in ground (arith, v.exact (reservation id token) refl)

  -- No schedule makes `wait_for_definition` panic: a reservation always finds its profile state.
  pub never_panics : (run start es).panicked ≡ false
  never_panics = (run-Inv es).calm

  -- When, after any schedule, all guards are gone, nothing is left in the state: no entry of any
  -- profile, no container, no shared lease and no recovery.
  pub quiescent :
      (id : ProfileId) (c : Text)
      → (run start es).held ≡ []
      → (lookup id (run start es).state.profiles ≡ none)
        × (lookup c (run start es).state.barrier.containers ≡ none)
        × ((run start es).state.barrier.shared ≡ 0)
        × ((run start es).state.barrier.recovering ≡ false)
  unfolding count count_shared
  quiescent id c e =
      let v = run-Inv es in
      (
        empty_entry v id e,
        ground (arith, e, v.exact (container c) refl),
        ground (arith, e, v.shared_count),
        ground (arith, e, v.exact recovery refl),
      )
