-- ===== src/Locks/Preserve/Waits.antt =====
-- The loop of `wait_for_definition`: a reservation is promoted, or sleeps until it is notified
-- (crates/colui-adapters/src/operations.rs).
use colui.Prelude.{
  ℕ, ◌≡◌, refl, true, false, Option, none, some, arith, nat_eq, eqb_iff, inl, inr, Bool-cases,
  Option-cases, is_some,
}
use colui.Prelude.Map.{lookup}
use colui.Domain.Text.{Uuids}
use colui.Domain.AppError.{ProfileId}
use colui.Domain.Inventory.{Timestamp}
use colui.Locks.State.{LockState, ProfileState, LifecycleLease, pending, active}
use colui.Locks.Sections.{
  Round, promoted, waits, panics, is_pending, round_on_lease, wait_round, take_permit,
}
use colui.Locks.Local.{round_entry, wake_entry, lookup-wait_round, lookup-take_permit}
use colui.Locks.Guards.{ticket, reservation, lifecycle}
use colui.Locks.System.{System, holds, exchange, set_sleeping, after_round, after_wake}
use colui.Locks.Invariant.{Inv, pends}
use colui.Locks.Preserve.Change.{Change, Change-Inv}
use colui.Locks.Preserve.Counts.{holds-count, count-exchange, count-same, count_shared-exchange}
use colui.Locks.Preserve.Entries.{promote-Agrees, same-Agrees}
use colui.Locks.Preserve.Ends.{holds-pends}

round_on_lease-waits :
    (s : LockState) (id : ProfileId) (token : ℕ) (now : Timestamp) (p : ProfileState)
    (l : Option LifecycleLease)
    → is_pending token l ≡ true
    → is_some p.definition ≡ true
    → round_on_lease s id token now p l ≡ (waits, s)
round_on_lease-waits s id token now p none h d = cc
round_on_lease-waits s id token now p (some (active c k a)) h d = cc
round_on_lease-waits s id token now p (some (pending c k a)) h d = rw (h, d)

round_on_lease-promotes :
    (s : LockState) (id : ProfileId) (token : ℕ) (now : Timestamp) (p : ProfileState)
    (l : Option LifecycleLease)
    → is_pending token l ≡ true
    → is_some p.definition ≡ false
    → ((round_on_lease s id token now p l).0 ≡ promoted)
      × ((round_on_lease s id token now p l).1.barrier ≡ s.barrier)
round_on_lease-promotes s id token now p none h d = cc
round_on_lease-promotes s id token now p (some (active c k a)) h d = cc
round_on_lease-promotes s id token now p (some (pending c k a)) h d = rw (h, d) (refl, refl)

-- A reservation that is held waits while a definition is loading, and is promoted otherwise. It
-- never finds that its profile state is lost.
pub wait_round-waits :
    (s : LockState) (id : ProfileId) (token : ℕ) (now : Timestamp) (p : ProfileState)
    → lookup id s.profiles ≡ some p
    → pends token (some p) ≡ true
    → is_some p.definition ≡ true
    → wait_round s id token now ≡ (waits, s)
unfolding wait_round
wait_round-waits s id token now p e h d =
    rw (e, wait_round) (round_on_lease-waits s id token now p p.lifecycle h d)

pub wait_round-promotes :
    (s : LockState) (id : ProfileId) (token : ℕ) (now : Timestamp) (p : ProfileState)
    → lookup id s.profiles ≡ some p
    → pends token (some p) ≡ true
    → is_some p.definition ≡ false
    → ((wait_round s id token now).0 ≡ promoted)
      × ((wait_round s id token now).1.barrier ≡ s.barrier)
unfolding wait_round
wait_round-promotes s id token now p e h d =
    rw (e, wait_round) (round_on_lease-promotes s id token now p p.lifecycle h d)

abbrev pub promoted_to : System → ProfileId → ℕ → LockState → System
promoted_to y id token s = record y {
  state = s;
  held = exchange (reservation id token) (lifecycle id token) y.held;
}

abbrev asleep : System → ProfileId → ℕ → System
asleep y id token = record y { sleeping = set_sleeping y.sleeping id token true }

abbrev awoken : System → ProfileId → ℕ → LockState → System
awoken y id token s = record y { state = s; sleeping = set_sleeping y.sleeping id token false }

module _ ⦃u : Uuids⦄ (y : System) (v : Inv y) (id : ProfileId) (token : ℕ) where
  asleep-Inv :
      (p : ProfileState)
      → lookup id y.state.profiles ≡ some p
      → pends token (some p) ≡ true
      → is_some p.definition ≡ true
      → Inv (asleep y id token)
  asleep-Inv p e h d = record {
    exact = v.exact;
    shared_count = v.shared_count;
    alone = v.alone;
    sound = v.sound;
    awake = λ j t s. ground (arith, eqb_iff id j, eqb_iff token t, v.awake j t);
    calm = v.calm;
  }

  promoted-Change :
      (now : Timestamp) (p : ProfileState)
      → holds (reservation id token) y ≡ true
      → (y.sleeping id token) ≡ false
      → lookup id y.state.profiles ≡ some p
      → pends token (some p) ≡ true
      → is_some p.definition ≡ false
      → (wait_round y.state id token now).1.barrier ≡ y.state.barrier
      → Change y
          (promoted_to y id token (wait_round y.state id token now).1)
          id
          (reservation id token)
          (lifecycle id token)
          (round_entry token now (some p))
  promoted-Change now p h calm e pend idle b = record {
    entries = λ j. ground (arith, e, lookup-wait_round y.state id j token now);
    containers = rw b;
    recovering = rw b;
    counts = λ g l. count-exchange (reservation id token) (lifecycle id token) g y.held;
    agrees = rw e (promote-Agrees id token now p pend idle);
    old_fits = ground (arith, eqb_iff id id);
    new_fits = ground (arith, eqb_iff id id);
    shared_count = rw b (
        omega (
          arith,
          v.shared_count,
          count_shared-exchange (reservation id token) (lifecycle id token) y.held
              (holds-count (reservation id token) y h) refl refl,
        ));
    shared_le = rw b (omega arith);
    stays_sound = ground arith;
    others_sleep = λ j t x. refl;
    sleepers_wake = λ t s. ground (arith, eqb_iff token t, v.awake id t s, calm);
    stays_calm = refl;
  }

  pub after_round-promoted :
      (r : Round × LockState)
      → r.0 ≡ promoted
      → after_round y id token r ≡ promoted_to y id token r.1
  after_round-promoted (promoted, s) e = refl
  after_round-promoted (waits, s) e = cc
  after_round-promoted (panics, s) e = cc

  pub look-Inv :
      (now : Timestamp)
      → holds (reservation id token) y ≡ true
      → y.sleeping id token ≡ false
      → Inv (after_round y id token (wait_round y.state id token now))
  look-Inv now h calm = elim (Option-cases (lookup id y.state.profiles)) [
    | inl e ↦ cc (rw e at (holds-pends y v id token h))
    | inr (p, e) ↦
        let pend : pends token (some p) ≡ true = rw e at (holds-pends y v id token h) in
        elim (Bool-cases (is_some p.definition)) [
          | inl busy ↦
              rw (wait_round-waits y.state id token now p e pend busy) (asleep-Inv p e pend busy)
          | inr idle ↦
              let round = wait_round-promotes y.state id token now p e pend idle in
              rw (after_round-promoted (wait_round y.state id token now) round.0)
                (Change-Inv v (promoted-Change now p h calm e pend idle round.1))
        ]
  ]

  awoken-Change :
      (s : LockState)
      → holds (reservation id token) y ≡ true
      → take_permit y.state id ≡ some s
      → Change y (awoken y id token s) id ticket ticket (wake_entry (lookup id y.state.profiles))
  awoken-Change s h e =
      let pend = holds-pends y v id token h in
      let b = (lookup-take_permit y.state id id s e).2 in
      record {
        entries = λ j. (lookup-take_permit y.state id j s e).0;
        containers = rw b;
        recovering = rw b;
        counts = λ g l. count-same g y.held l;
        agrees =
            same-Agrees id token (lookup id y.state.profiles)
              (wake_entry (lookup id y.state.profiles)) (λ t. ground arith) (λ t. ground arith)
              (λ t. ground arith);
        old_fits = refl;
        new_fits = refl;
        shared_count = rw b v.shared_count;
        shared_le = rw b (omega arith);
        stays_sound = ground (arith, v.sound id);
        others_sleep = λ j t x. ground arith;
        sleepers_wake = λ t x. ground (arith, eqb_iff id id, eqb_iff token t, v.awake id t, pend);
        stays_calm = refl;
      }

  pub wake-Inv :
      holds (reservation id token) y ≡ true → Inv (after_wake y id token (take_permit y.state id))
  wake-Inv h = elim (Option-cases (take_permit y.state id)) [
    | inl e ↦ rw e v
    | inr (s, e) ↦ rw e (Change-Inv v (awoken-Change s h e))
  ]
