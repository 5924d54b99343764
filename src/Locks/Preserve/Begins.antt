-- ===== src/Locks/Preserve/Begins.antt =====
-- The leases on a profile: a reservation for a lifecycle operation, and a definition load
-- (crates/colui-adapters/src/operations.rs).
use colui.Prelude.{
  ℕ, ◌≡◌, refl, true, false, ◌||◌, ◌==◌, if◌then◌else◌, arith, nat_eq, eqb_iff, inl, inr,
  Bool-cases, is_some, unwrap_or,
}
use colui.Prelude.Map.{lookup}
use colui.Domain.Text.{Uuids}
use colui.Domain.AppError.{ProfileId}
use colui.Domain.Inventory.{Timestamp}
use colui.App.Operations.{LifecycleOperation}
use colui.Locks.State.{LockState, new_profile}
use colui.Locks.Sections.{reserve_profile, enter_definition, release_shared, profile_or_new}
use colui.Locks.Local.{
  Entry, reserve_entry, define_entry, lookup-reserve_profile, lookup-enter_definition,
}
use colui.Locks.Guards.{Guard, ticket, reservation, definition, remove_one}
use colui.Locks.System.{System, holds, exchange, reserve_step, define_step}
use colui.Locks.Invariant.{Inv}
use colui.Locks.Preserve.Change.{Change, Change-Inv}
use colui.Locks.Preserve.Counts.{
  holds-count, count-exchange, count-drop_ticket, count_shared-exchange, count_shared-drop,
}
use colui.Locks.Preserve.Entries.{reserve-Agrees, define-Agrees, same-Agrees}

-- A lease that is handed out in place of a ticket, or refused.
abbrev granted : System → LockState → Guard → System
granted y s g = record y { state = s; held = exchange ticket g y.held }

abbrev refused : System → LockState → System
refused y s = record y { state = s; held = remove_one ticket y.held }

-- The entry of a profile that is locked already stays as it is.
reserve_entry-taken :
    (token : ℕ) (kind : LifecycleOperation) (now : Timestamp) (e : Entry)
    → is_some (unwrap_or e new_profile).lifecycle ≡ true
    → reserve_entry token kind now e ≡ e
reserve_entry-taken token kind now e h = ground arith

define_entry-taken :
    (token : ℕ) (now : Timestamp) (e : Entry)
    → (is_some (unwrap_or e new_profile).lifecycle || is_some (unwrap_or e new_profile).definition)
      ≡ true
    → define_entry token now e ≡ e
define_entry-taken token now e h = ground arith

module _ (y : System) (v : Inv y) (id : ProfileId) where
  -- What is left of a refusal: the ticket is gone, and the entry is the old one.
  refused-Change :
      (s : LockState)
      → holds ticket y ≡ true
      → ((j : ProfileId)
          → lookup j s.profiles
            ≡ (if id == j then lookup id y.state.profiles else lookup j y.state.profiles))
      → s.barrier ≡ (release_shared y.state).barrier
      → Change y (refused y s) id ticket ticket (lookup id y.state.profiles)
  unfolding release_shared
  refused-Change s h same b = record {
    entries = same;
    containers = rw b;
    recovering = rw b;
    counts = λ g l. count-drop_ticket g y.held l;
    agrees = same-Agrees id 0 _ _ (λ t. refl) (λ t. refl) (λ t. refl);
    old_fits = refl;
    new_fits = refl;
    shared_count = rw b (
        omega
          (arith, v.shared_count, count_shared-drop ticket y.held (holds-count ticket y h) refl));
    shared_le = rw b (omega arith);
    stays_sound = v.sound id;
    others_sleep = λ j t e. refl;
    sleepers_wake = v.awake id;
    stays_calm = refl;
  }

module _ ⦃u : Uuids⦄ (y : System) (v : Inv y) (id : ProfileId) (now : Timestamp) where
  module _ (kind : LifecycleOperation) where
    reserved-Change :
        holds ticket y ≡ true
        → is_some (profile_or_new id y.state.profiles).lifecycle ≡ false
        → (reserve_profile y.state id kind now).1.barrier ≡ y.state.barrier
        → Change y
            (granted y (reserve_profile y.state id kind now).1 (reservation id y.state.next_token))
            id
            ticket
            (reservation id y.state.next_token)
            (reserve_entry y.state.next_token kind now (lookup id y.state.profiles))
    reserved-Change h free b = record {
      entries = λ j. lookup-reserve_profile y.state id j kind now;
      containers = rw b;
      recovering = rw b;
      counts = λ g l. count-exchange ticket (reservation id y.state.next_token) g y.held;
      agrees = reserve-Agrees id y.state.next_token kind now (lookup id y.state.profiles) free;
      old_fits = refl;
      new_fits = ground (arith, eqb_iff id id);
      shared_count = rw b (
          omega (
            arith,
            v.shared_count,
            count_shared-exchange ticket (reservation id y.state.next_token) y.held
                (holds-count ticket y h) refl refl,
          ));
      shared_le = rw b (omega arith);
      stays_sound = ground (arith, v.sound id);
      others_sleep = λ j t e. refl;
      sleepers_wake = λ t s. ground (arith, v.awake id t s);
      stays_calm = refl;
    }

    reserve_same :
        is_some (profile_or_new id y.state.profiles).lifecycle ≡ true
        → (j : ProfileId)
        → lookup j (reserve_profile y.state id kind now).1.profiles
          ≡ (if id == j then lookup id y.state.profiles else lookup j y.state.profiles)
    reserve_same taken j = cc (
      lookup-reserve_profile y.state id j kind now,
      reserve_entry-taken y.state.next_token kind now (lookup id y.state.profiles) taken,
    )

    pub reserve-Inv : holds ticket y ≡ true → Inv (reserve_step y id kind now)
    unfolding reserve_profile release_shared
    reserve-Inv h = elim (Bool-cases (is_some (profile_or_new id y.state.profiles).lifecycle)) [
      | inl taken ↦
          let s = (reserve_profile y.state id kind now).1 in
          let b : s.barrier ≡ (release_shared y.state).barrier = rw (taken, reserve_profile) in
          let after = Change-Inv v (refused-Change y v id s h (reserve_same taken) b) in
          rw (taken, reserve_profile) (rw (taken, reserve_profile) at after)
      | inr free ↦
          let b : (reserve_profile y.state id kind now).1.barrier ≡ y.state.barrier =
            rw (free, reserve_profile) in
          let after = Change-Inv v (reserved-Change h free b) in
          rw (free, reserve_profile) (rw (free, reserve_profile) at after)
    ]

  defined-Change :
      holds ticket y ≡ true
      → is_some (profile_or_new id y.state.profiles).lifecycle ≡ false
      → is_some (profile_or_new id y.state.profiles).definition ≡ false
      → (enter_definition y.state id now).1.barrier ≡ y.state.barrier
      → Change y
          (granted y (enter_definition y.state id now).1 (definition id y.state.next_token))
          id
          ticket
          (definition id y.state.next_token)
          (define_entry y.state.next_token now (lookup id y.state.profiles))
  defined-Change h free idle b = record {
    entries = λ j. lookup-enter_definition y.state id j now;
    containers = rw b;
    recovering = rw b;
    counts = λ g l. count-exchange ticket (definition id y.state.next_token) g y.held;
    agrees = define-Agrees id y.state.next_token now (lookup id y.state.profiles) free idle;
    old_fits = refl;
    new_fits = ground (arith, eqb_iff id id);
    shared_count = rw b (
        omega (
          arith,
          v.shared_count,
          count_shared-exchange ticket (definition id y.state.next_token) y.held
              (holds-count ticket y h) refl refl,
        ));
    shared_le = rw b (omega arith);
    stays_sound = ground (arith, v.sound id);
    others_sleep = λ j t e. refl;
    sleepers_wake = λ t s. ground (arith, v.awake id t s);
    stays_calm = refl;
  }

  define_same :
      (is_some (profile_or_new id y.state.profiles).lifecycle
          || is_some (profile_or_new id y.state.profiles).definition)
        ≡ true
      → (j : ProfileId)
      → lookup j (enter_definition y.state id now).1.profiles
        ≡ (if id == j then lookup id y.state.profiles else lookup j y.state.profiles)
  define_same taken j = cc (
    lookup-enter_definition y.state id j now,
    define_entry-taken y.state.next_token now (lookup id y.state.profiles) taken,
  )

  pub define-Inv : holds ticket y ≡ true → Inv (define_step y id now)
  unfolding enter_definition release_shared
  define-Inv h = elim (Bool-cases (is_some (profile_or_new id y.state.profiles).lifecycle)) [
    | inl taken ↦
        let s = (enter_definition y.state id now).1 in
        let b : s.barrier ≡ (release_shared y.state).barrier = rw (taken, enter_definition) in
        let after = Change-Inv v (refused-Change y v id s h (define_same (rw taken)) b) in
        rw (taken, enter_definition) (rw (taken, enter_definition) at after)
    | inr free ↦ elim (Bool-cases (is_some (profile_or_new id y.state.profiles).definition)) [
      | inl busy ↦
          let s = (enter_definition y.state id now).1 in
          let b : s.barrier ≡ (release_shared y.state).barrier =
            rw (free, busy, enter_definition) in
          let after = Change-Inv v (refused-Change y v id s h (define_same (rw (free, busy))) b) in
          rw (free, busy, enter_definition) (rw (free, busy, enter_definition) at after)
      | inr idle ↦
          let b : (enter_definition y.state id now).1.barrier ≡ y.state.barrier =
            rw (free, idle, enter_definition) in
          let after = Change-Inv v (defined-Change h free idle b) in
          rw (free, idle, enter_definition) (rw (free, idle, enter_definition) at after)
    ]
  ]
